-- ===== src/Dfa/Construct/Enter.antt =====
-- What a round of `ntod` enters for a set of states.
use flex_cmake_old.Prelude.{
  ℕ, ◌+◌, ◌≤◌, ◌<◌, ◌≡◌, refl, ap, ◌∙◌, subst, arith, ◌==◌, if◌then◌else◌, false, inl, inr,
  Bool-cases, List, [], ◌∷◌, ◌++◌, length, take, drop, get_elem?, get_elem?-append_front, some, All,
  get_elem?-append_back, length-append,
}
use flex_cmake_old.Common.{ok}
use flex_cmake_old.Dfa.{Dfa, Interned}
use flex_cmake_old.Dfa.Interning.{StoresSet, IsFor, Outcome, snstods_interns}
use flex_cmake_old.Dfa.Closure.{Closure, epsclosure}
use flex_cmake_old.Dfa.Closure.Spec.{IsBounded}
use flex_cmake_old.Dfa.Closure.Push.{original, HasRoom}
use flex_cmake_old.Dfa.Closure.Loop.{bind-ok}
use flex_cmake_old.Dfa.Closure.Correct.{epsclosure-Reach}
use flex_cmake_old.Dfa.Construct.{
  Machine, Work, stored, with_slots, close_set, count_new, enter_set,
}
use flex_cmake_old.Dfa.Construct.Sets.{
  KeepsBounds, SetOf, SetOf-more, SetOf-new, SetOf-snoc, closure-below,
}
use flex_cmake_old.Dfa.Construct.Vectors.{
  take-stored, length-stored, length-with_slots, snstods-length,
}

-- The state is the one made for the closure of a list of states.
abbrev pub StandsFor :
    (sort : List ℕ → List ℕ) → Machine → (init : List ℕ) → List Dfa → (newds : ℕ) → Type 0
StandsFor sort m init dfas newds =
    (room : ℕ) × (c : Closure) × (epsclosure m.nfas room (original m.nfas) init ≡ ok c)
    × (d : Dfa) × (get_elem? dfas newds ≡ some d)
    × IsFor c.hashval (sort c.t) d

-- The states stay at their numbers, and more can be added.
abbrev pub Extends : List Dfa → List Dfa → Type 0
Extends dfas dfas' = (i : ℕ) (d : Dfa) → get_elem? dfas i ≡ some d → get_elem? dfas' i ≡ some d

-- What a step changes at most, and the conditions it keeps.
pub record Keeps (sort : List ℕ → List ℕ) (m : Machine) (w w' : Work) : Type 0 where
  pub grows : Extends w.globals.dfas w'.globals.dfas
  pub stores : All StoresSet (drop 1 w'.globals.dfas)
  pub first : 0 < length w'.globals.dfas
  pub sets :
      KeepsBounds sort
      → All (SetOf m (length w.nset)) (drop 1 w.globals.dfas)
      → All (SetOf m (length w'.nset)) (drop 1 w'.globals.dfas)
  pub queue : length w'.globals.dfas + w.todo_next ≡ length w.globals.dfas + w'.todo_next
  pub nset_room : length w.nset ≤ length w'.nset
  pub accset_room : length w'.accset ≡ length w.accset
  pub symbols : w'.symlist ≡ w.symlist
  pub classes : w'.duplist ≡ w.duplist
  pub marks : w'.flags ≡ w.flags

All-snoc_stores :
    (ds : List Dfa) (d : Dfa)
    → 0 < length ds
    → All StoresSet (drop 1 ds)
    → StoresSet d
    → All StoresSet (drop 1 (ds ++ (d ∷ [])))
All-snoc_stores [] d h a n = absurd (omega (arith, h))
All-snoc_stores (x ∷ ds) d h a n = at_end ds a
  where
    at_end : (es : List Dfa) → All StoresSet es → All StoresSet (es ++ (d ∷ []))
    at_end [] a = (n, tt)
    at_end (e ∷ es) (b, a) = (b, at_end es a)

-- What is found or made is there, and the rest stays.
abbrev Settled : (hashval : ℕ) → (states : List ℕ) → (before : List Dfa) → Interned → Type 0
Settled hashval states before r =
    ((d : Dfa) × (get_elem? r.globals.dfas r.newds ≡ some d) × IsFor hashval states d)
    × Extends before r.globals.dfas
    × All StoresSet (drop 1 r.globals.dfas)
    × (0 < length r.globals.dfas)
    × (length r.globals.dfas ≡ length before + (if r.flag == 1 then 1 else 0))

Outcome-Settled :
    (hashval : ℕ) (states : List ℕ) (before : List Dfa) (r : Interned)
    → 0 < length before
    → All StoresSet (drop 1 before)
    → Outcome hashval states before r
    → Settled hashval states before r
unfolding Outcome
Outcome-Settled hashval states before r first stores (inl (d, old, _, found, is_for, same)) =
    rw (same, old) ((d, found, is_for), (λ i e h. h), stores, first, omega arith)
Outcome-Settled hashval states before r first stores
      (inr (d, new, place, is_for, grown, stored, _)) =
    rw (grown, place, new)
      (
        (d, get_elem?-append_back before d [], is_for),
        (λ i e h. get_elem?-append_front before (d ∷ []) i h),
        All-snoc_stores before d first stores stored,
        ground (arith, length-append before (d ∷ []), first),
        length-append before (d ∷ []),
      )

-- The accepting numbers of each closure fit their vector.
abbrev pub Fits : Machine → List ℕ → Type 0
Fits m accset =
    (init : List ℕ) → All (λ v. v < length m.nfas) init → HasRoom m.nfas init (length accset)

Outcome-sets :
    (m : Machine) (a b hashval : ℕ) (states : List ℕ) (before : List Dfa) (r : Interned)
    → 0 < length before
    → a ≤ b
    → All (λ v. v < length m.nfas) states
    → length states < b
    → Outcome hashval states before r
    → All (SetOf m a) (drop 1 before)
    → All (SetOf m b) (drop 1 r.globals.dfas)
unfolding Outcome IsFor
Outcome-sets m a b hashval states before r first le small lt (inl (d, _, _, _, _, same)) sets =
    rw same (SetOf-more m a b (drop 1 before) le sets)
Outcome-sets m a b hashval states before r first le small lt
      (inr (d, _, _, is_for, grown, stored, _)) sets =
    rw grown (
      SetOf-snoc m b before d first (SetOf-more m a b (drop 1 before) le sets)
        (SetOf-new m b d states stored is_for.1 small lt))

module _ (sort : List ℕ → List ℕ) (keeps : (xs : List ℕ) → length (sort xs) ≡ length xs)
    (m : Machine) (bounded : IsBounded m.nfas)
    (no_warnings : m.variable_trailing_context_rules ≡ false) where
  counted :
      (n nacc : ℕ) (flag : ℕ) (w : Work)
      → (w' : Work) × ((if flag == 1 then count_new m n nacc w else ok w) ≡ ok w')
        × (w'.globals ≡ w.globals)
        × (w'.nset ≡ w.nset)
        × (w'.accset ≡ w.accset)
        × (w'.symlist ≡ w.symlist)
        × (w'.duplist ≡ w.duplist)
        × (w'.flags ≡ w.flags)
        × (w'.todo_next ≡ w.todo_next + (if flag == 1 then 1 else 0))
  unfolding count_new
  counted n nacc flag w = elim (Bool-cases (flag == 1)) [
    | inl new ↦
        rw (new, no_warnings)
          (
            record w { numas = w.numas + nacc; totnst = w.totnst + n; todo_next = w.todo_next + 1 },
            refl,
            refl,
            refl,
            refl,
            refl,
            refl,
            refl,
            refl,
          )
    | inr old ↦ rw old (w, refl, refl, refl, refl, refl, refl, refl, omega arith)
  ]

  closed :
      (w : Work) (init : List ℕ) (numstates : ℕ) (c : Closure)
      → take numstates (drop 1 w.nset) ≡ init
      → epsclosure m.nfas (length w.accset) (original m.nfas) init ≡ ok c
      → close_set m numstates w
        ≡ ok (
          c,
          record w {
            nset = stored c.t (with_slots (length c.t) (with_slots (length c.stk) w.nset));
            accset = stored c.accset w.accset;
          },
        )
  unfolding close_set
  closed w init numstates c e run = rw e (bind-ok _ _ run)

  pub enter_set-StandsFor :
      (w : Work) (init : List ℕ) (numstates : ℕ)
      → take numstates (drop 1 w.nset) ≡ init
      → All (λ v. v < length m.nfas) init
      → 0 < length w.nset
      → Fits m w.accset
      → 0 < length w.globals.dfas
      → All StoresSet (drop 1 w.globals.dfas)
      → (newds : ℕ) × (w' : Work) × (enter_set sort m numstates w ≡ ok (newds, w'))
        × StandsFor sort m init w'.globals.dfas newds
        × Keeps sort m w w'
  unfolding enter_set close_set
  enter_set-StandsFor w init numstates e small room0 fits first stores =
      let (c, run, _, _, _, _, _, room) =
        epsclosure-Reach m.nfas (length w.accset) init 0 bounded (fits init small) small in
      let grown = with_slots (length c.t) (with_slots (length c.stk) w.nset) in
      let nset = stored c.t grown in
      let accset = stored c.accset w.accset in
      let (g1, g2) = length-with_slots (length c.t) (with_slots (length c.stk) w.nset) in
      let (g3, g4) = length-with_slots (length c.stk) w.nset in
      let len = length-stored c.t grown g2 in
      let len_a = length-stored c.accset w.accset room in
      let (r, run_r, outcome) =
        snstods_interns sort nset (length c.t) accset (length c.accset) c.hashval w.globals keeps
          (ground (arith, len, g2)) (ground (arith, len_a, room)) stores in
      let (lens, lens_a) =
        snstods-length sort keeps nset (length c.t) accset (length c.accset) c.hashval w.globals r
          run_r in
      let ((d, found, is_for), extends, stores', first', longer) =
        Outcome-Settled c.hashval (sort (take (length c.t) (drop 1 nset))) w.globals.dfas r first
          stores outcome in
      let taken : take (length c.t) (drop 1 nset) ≡ c.t =
        take-stored c.t grown (omega (arith, g2)) in
      let w2 = record w { nset = r.sns; accset = r.accset; globals = r.globals } in
      let (w3, run3, e_g, e_n, e_a, e_s, e_d, e_f, e_q) =
        counted (length c.t) (length c.accset) r.flag w2 in
      (
        r.newds,
        w3,
        bind-ok _ _ (closed w init numstates c e run) ∙ bind-ok _ _ run_r ∙ bind-ok _ _ run3,
        (
          length w.accset,
          c,
          run,
          d,
          rw e_g found,
          subst (λ z. IsFor c.hashval (sort z) d) (take-stored c.t grown (omega (arith, g2)))
              is_for,
        ),
        record {
          grows = rw e_g extends;
          stores = rw e_g stores';
          first = rw e_g first';
          sets = λ bounds sets.
              rw (e_g, e_n)
                (Outcome-sets m (length w.nset) (length r.sns) c.hashval
                  (sort (take (length c.t) (drop 1 nset))) w.globals.dfas r first
                  (ground (arith, lens, len, g1, g3))
                  (bounds (length m.nfas) (take (length c.t) (drop 1 nset)) (
                    rw taken (
                      closure-below m.nfas (length w.accset) init c bounded (fits init small) small
                        run)))
                  (ground (
                    arith,
                    keeps (take (length c.t) (drop 1 nset)),
                    ap length taken,
                    lens,
                    len,
                    g2,
                  ))
                  outcome sets);
          queue = rw e_g (omega (arith, e_q, longer));
          nset_room = rw e_n (ground (arith, lens, len, g1, g3));
          accset_room = ap length e_a ∙ lens_a ∙ len_a;
          symbols = e_s;
          classes = e_d;
          marks = e_f;
        },
      )
