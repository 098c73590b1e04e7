-- ===== src/Dfa/Construct/Walking.antt =====
-- How far the loop of `ntod` over the symbols of a state has come.
use flex_cmake_old.Prelude.{
  ℕ, ◌+◌, ◌≤◌, ◌<◌, ◌≡◌, ◌≢◌, ◌∙◌, subst, arith, ◌==◌, Bool, true, false, inl, inr, Bool-cases,
  List, length, drop, ==_iff, All,
}
use flex_cmake_old.Ecs.{update}
use flex_cmake_old.Ecs.Partition.{set_flag}
use flex_cmake_old.Nfa.State.{Nfa}
use flex_cmake_old.Dfa.{Dfa}
use flex_cmake_old.Dfa.Interning.{StoresSet}
use flex_cmake_old.Dfa.Follow.{targets}
use flex_cmake_old.Dfa.Partition.Symbols.{some_moves}
use flex_cmake_old.Dfa.Construct.{Machine, Work, Row}
use flex_cmake_old.Dfa.Construct.Sets.{KeepsBounds, SetOf}
use flex_cmake_old.Dfa.Construct.Enter.{StandsFor, Extends, Keeps}
use flex_cmake_old.Dfa.Construct.Targets.{has_target}

-- One more round.
up_to : {P : ℕ → Type 0} (n : ℕ) → ((x : ℕ) → x < n → P x) → P n → (x : ℕ) → x < n + 1 → P x
up_to {P} n h here x lt = elim (Bool-cases (n == x)) [
  | inl same ↦ subst P ((==_iff n x).0 same) here
  | inr other ↦ h x (ground arith)
]

-- The transition on a symbol that some state goes on with leads to the state for the closure of the
-- successors, and there is no other.
abbrev pub Transition :
    (sort : List ℕ → List ℕ) → Machine → List Nfa → List Dfa → (state : ℕ → ℕ) → (x : ℕ) → Type 0
Transition sort m ns dfas state x =
    (some_moves m.ccls m.ecgroup x ns ≡ true
      → StandsFor sort m (targets m.ccls m.ecgroup x ns) dfas (state x))
    × (some_moves m.ccls m.ecgroup x ns ≡ false → state x ≡ 0)

module _ (sort : List ℕ → List ℕ) (m : Machine) (ns : List Nfa) (earlier : ℕ → ℕ) where
  abbrev goes : ℕ → Bool
  goes x = some_moves m.ccls m.ecgroup x ns

  abbrev succs : ℕ → List ℕ
  succs x = targets m.ccls m.ecgroup x ns

  StandsFor-Extends :
      (init : List ℕ) (dfas dfas' : List Dfa) (s : ℕ)
      → Extends dfas dfas'
      → StandsFor sort m init dfas s
      → StandsFor sort m init dfas' s
  StandsFor-Extends init dfas dfas' s grows (room, c, run, d, found, is_for) =
      (room, c, run, d, grows s d found, is_for)

  -- The symbols before `sym` are done.
  pub record Walking (w0 : Work) (sym : ℕ) (w : Work) (row : Row) : Type 0 where
    pub grows : Extends w0.globals.dfas w.globals.dfas
    pub stores : All StoresSet (drop 1 w.globals.dfas)
    pub first : 0 < length w.globals.dfas
    pub sets :
        KeepsBounds sort
        → All (SetOf m (length w0.nset)) (drop 1 w0.globals.dfas)
        → All (SetOf m (length w.nset)) (drop 1 w.globals.dfas)
    pub queue : length w.globals.dfas + w0.todo_next ≡ length w0.globals.dfas + w.todo_next
    pub nset_room : length w0.nset ≤ length w.nset
    pub accset_room : length w.accset ≡ length w0.accset
    pub marks : w.flags ≡ w0.flags
    pub done :
        (x : ℕ) → x < sym → x ≢ 0 → x ≤ m.numecs → Transition sort m ns w.globals.dfas row.state x
    pub listed :
        (x : ℕ)
        → x < sym
        → x ≢ 0
        → x ≤ m.numecs
        → goes x ≡ true
        → has_target (row.state x) row.targets ≡ true
    pub cleared : (x : ℕ) → x < sym → x ≢ 0 → x ≤ m.numecs → w.symlist x ≡ false
    pub ahead :
        (x : ℕ)
        → x ≢ 0
        → sym ≤ x
        → x ≤ m.numecs
        → (w.symlist x ≡ goes x) × (w.duplist x ≡ earlier x) × (row.state x ≡ 0)

  module _ (w0 : Work) (sym : ℕ) (p : sym ≢ 0) (le : sym ≤ m.numecs) where
    pub skipped :
        (w : Work) (row : Row)
        → goes sym ≡ false
        → Walking w0 sym w row
        → Walking w0 (sym + 1) w row
    skipped w row e i = record {
      grows = i.grows;
      stores = i.stores;
      first = i.first;
      sets = i.sets;
      queue = i.queue;
      nset_room = i.nset_room;
      accset_room = i.accset_room;
      marks = i.marks;
      done = up_to sym i.done (λ px hx.
          ((λ g. absurd (ground (arith, e, g))), λ _. (i.ahead sym px (omega arith) hx).2));
      listed = up_to sym i.listed (λ px hx g. absurd (ground (arith, e, g)));
      cleared = up_to sym i.cleared (λ px hx. (i.ahead sym px (omega arith) hx).0 ∙ e);
      ahead = λ x px lt hx. i.ahead x px (omega arith) hx;
    }

    abbrev pub taken : Work → Work
    taken w = record w { symlist = set_flag w.symlist sym false }

    -- A symbol that some state goes on with.
    pub entered :
        (w : Work) (row : Row) (w2 : Work) (s total : ℕ) (listed : List (ℕ × ℕ))
        → Walking w0 sym w row
        → Keeps sort m (taken w) w2
        → StandsFor sort m (succs sym) w2.globals.dfas s
        → goes sym ≡ true
        → ((t : ℕ) → has_target t row.targets ≡ true → has_target t listed ≡ true)
        → has_target s listed ≡ true
        → Walking w0
            (sym + 1)
            (record w2 { duplist = update w2.duplist sym 0 })
            (record { state = update row.state sym s; targets = listed; totaltrans = total })
    unfolding update set_flag
    entered w row w2 s total listed i k stands g more new = record {
      grows = λ j d e. k.grows j d (i.grows j d e);
      stores = k.stores;
      first = k.first;
      sets = λ bounds h. k.sets bounds (i.sets bounds h);
      queue = omega (arith, i.queue, k.queue);
      nset_room = omega (arith, i.nset_room, k.nset_room);
      accset_room = k.accset_room ∙ i.accset_room;
      marks = k.marks ∙ i.marks;
      done =
          up_to sym
            (λ x lt px hx. rw (other x lt) (
              (λ gx.
                  StandsFor-Extends (succs x) w.globals.dfas w2.globals.dfas (row.state x) k.grows
                    ((i.done x lt px hx).0 gx)),
              (i.done x lt px hx).1,
            ))
            (λ px hx. (rw self (λ _. stands), λ n. absurd (ground (arith, n, g))));
      listed =
          up_to sym (λ x lt px hx gx. rw (other x lt) (more (row.state x) (i.listed x lt px hx gx)))
            (λ px hx gx. rw self new);
      cleared =
          up_to sym (λ x lt px hx. rw k.symbols (ground (arith, i.cleared x lt px hx)))
            (λ px hx. rw k.symbols (ground arith));
      ahead =
          λ x px lt hx. rw (k.symbols, k.classes) (ground (arith, i.ahead x px (omega arith) hx));
    }
      where
        other : (x : ℕ) → x < sym → (x == sym) ≡ false
        other x lt = ground (arith, lt)

        self : (sym == sym) ≡ true
        self = ground arith
