-- ===== src/Dfa/Construct/Loop.antt =====
-- The loop of `ntod` over the symbols of a state.
use flex_cmake_old.Prelude.{
  ℕ, ◌+◌, ◌≤◌, ◌<◌, ◌≡◌, ◌≢◌, refl, ap, ◌∙◌, subst, arith, ◌==◌, Bool, true, false, inl, inr,
  Bool-cases, List, [], ◌∷◌, ◌++◌, length, drop, get_elem?, some, All,
}
use flex_cmake_old.Common.{ok, at, at-some}
use flex_cmake_old.Ecs.{update}
use flex_cmake_old.Nfa.State.{Nfa}
use flex_cmake_old.Dfa.{Dfa, symfollowset}
use flex_cmake_old.Dfa.Closure.Loop.{bind-ok}
use flex_cmake_old.Dfa.Closure.Spec.{IsBounded}
use flex_cmake_old.Dfa.Follow.{Reads, moves, targets, symfollowset-targets}
use flex_cmake_old.Dfa.Partition.Symbols.{some_moves}
use flex_cmake_old.Dfa.Construct.{
  Machine, Work, Row, unique_transition, shared_transition, symbol_step,
}
use flex_cmake_old.Dfa.Construct.Vectors.{Holds-take}
use flex_cmake_old.Dfa.Construct.Sets.{SetOf-more}
use flex_cmake_old.Dfa.Construct.Enter.{StandsFor, Fits, enter_set-StandsFor}
use flex_cmake_old.Dfa.Construct.Targets.{
  targets-small, same_moves, has_target-snoc, count_target_lem,
}
use flex_cmake_old.Dfa.Construct.Walking.{Walking, skipped, taken, entered}

module _ (sort : List ℕ → List ℕ) (keeps : (xs : List ℕ) → length (sort xs) ≡ length xs)
    (m : Machine) (bounded : IsBounded m.nfas)
    (no_warnings : m.variable_trailing_context_rules ≡ false) (ds z : ℕ) (is : List ℕ)
    (ns : List Nfa) (reads : Reads m.nfas m.ccls is ns) (earlier : ℕ → ℕ) where
  abbrev goes : ℕ → Bool
  goes x = some_moves m.ccls m.ecgroup x ns

  abbrev succs : ℕ → List ℕ
  succs x = targets m.ccls m.ecgroup x ns

  module _ (w0 : Work) (d0 : Dfa) (there : get_elem? w0.globals.dfas ds ≡ some d0)
      (set : d0.dss ≡ z ∷ is) (room : length ns < length w0.nset) (fits : Fits m w0.accset)
      (before : (x : ℕ)
        → x ≢ 0
        → x ≤ m.numecs
        → earlier x ≢ 0
        → (earlier x < x)
          × All
              (λ (n : Nfa).
                moves m.ccls m.ecgroup (earlier x) n.transchar
                ≡ moves m.ccls m.ecgroup x n.transchar)
              ns)
      (sym : ℕ) (p : sym ≢ 0) (le : sym ≤ m.numecs) where
    at_state :
        (w : Work) (row : Row)
        → Walking sort m ns earlier w0 sym w row
        → at w.globals.dfas ds ≡ ok d0
    at_state w row i = at-some w.globals.dfas ds (i.grows ds d0 there)

    unique :
        (w : Work) (row : Row)
        → Walking sort m ns earlier w0 sym w row
        → goes sym ≡ true
        → (w2 : Work) × (row' : Row) × (unique_transition sort m ds sym
              (taken sort m ns earlier w0 sym p le w, row)
            ≡ ok (w2, row'))
          × Walking sort m ns earlier w0
              (sym + 1)
              (record w2 { duplist = update w2.duplist sym 0 })
              (record row' { totaltrans = row'.totaltrans + 1 })
    unfolding unique_transition
    unique w row i g =
        let (nset, run1, holds, len, _) =
          symfollowset-targets m.nfas m.ccls m.ecgroup m.nul_ec sym z is ns w.nset reads
            (omega (arith, room, i.nset_room)) in
        let followed : symfollowset m.nfas m.ccls m.ecgroup m.nul_ec d0.dss sym w.nset
            ≡ ok (length (succs sym), nset) =
          rw set run1 in
        let w1 = record (taken sort m ns earlier w0 sym p le w) { nset = nset } in
        let (newds, w2, run2, stands, k) =
          enter_set-StandsFor sort keeps m bounded no_warnings w1 (succs sym) (length (succs sym))
            (Holds-take nset (succs sym) holds)
            (targets-small m.nfas m.ccls m.ecgroup bounded sym is ns reads)
            (omega (arith, room, i.nset_room, len)) (λ init b. rw i.accset_room (fits init b))
            i.first i.stores in
        (
          record w2 { numuniq = w2.numuniq + 1 },
          record row {
            state = update row.state sym newds;
            targets = row.targets ++ ((1, newds) ∷ []);
          },
          bind-ok _ _ (at_state w row i) ∙ bind-ok _ _ followed ∙ bind-ok _ _ run2,
          entered sort m ns earlier w0 sym p le w row (record w2 { numuniq = w2.numuniq + 1 }) newds
              (row.totaltrans + 1) (row.targets ++ ((1, newds) ∷ [])) i
              (record {
                grows = k.grows;
                stores = k.stores;
                first = k.first;
                sets = λ bounds h. k.sets bounds (
                    SetOf-more m (length w.nset) (length nset) (drop 1 w.globals.dfas)
                      (omega (arith, len)) h);
                queue = k.queue;
                nset_room = omega (arith, len, k.nset_room);
                accset_room = k.accset_room;
                symbols = k.symbols;
                classes = k.classes;
                marks = k.marks;
              })
              stands g (λ t h. ground (arith, h, has_target-snoc t 1 newds row.targets))
              (ground (arith, has_target-snoc newds 1 newds row.targets)),
        )

    shared :
        (w : Work) (row : Row)
        → Walking sort m ns earlier w0 sym w row
        → goes sym ≡ true
        → earlier sym ≢ 0
        → (w2 : Work) × (row' : Row) × (shared_transition sym
              (taken sort m ns earlier w0 sym p le w, row)
            ≡ ok (w2, row'))
          × Walking sort m ns earlier w0
              (sym + 1)
              (record w2 { duplist = update w2.duplist sym 0 })
              (record row' { totaltrans = row'.totaltrans + 1 })
    unfolding shared_transition
    shared w row i g ne =
        let (lt, same) = before sym p le ne in
        let (e_succs, e_goes) = same_moves m.nfas m.ccls m.ecgroup (earlier sym) sym ns same in
        let ge : goes (earlier sym) ≡ true = e_goes ∙ g in
        let targ = row.state (earlier sym) in
        let stands = (i.done (earlier sym) lt ne (omega (arith, lt, le))).0 ge in
        let (listed, run, same_targets) =
          count_target_lem targ row.targets
            (i.listed (earlier sym) lt ne (omega (arith, lt, le)) ge) in
        (
          record (taken sort m ns earlier w0 sym p le w) { numdup = w.numdup + 1 },
          record row { state = update row.state sym targ; targets = listed },
          rw (i.ahead sym p (omega arith) le).1 (bind-ok _ _ run),
          entered sort m ns earlier w0 sym p le w row
              (record (taken sort m ns earlier w0 sym p le w) { numdup = w.numdup + 1 }) targ
              (row.totaltrans + 1) listed i
              (record {
                grows = λ j d e. e;
                stores = i.stores;
                first = i.first;
                sets = λ bounds h. h;
                queue = refl;
                nset_room = omega arith;
                accset_room = refl;
                symbols = refl;
                classes = refl;
                marks = refl;
              })
              (subst (λ u. StandsFor sort m u w.globals.dfas targ) e_succs stands) g
              (λ t h. same_targets t ∙ h)
              (same_targets targ ∙ i.listed (earlier sym) lt ne (omega (arith, lt, le)) ge),
        )

    pub symbol_step-Walking :
        (w : Work) (row : Row)
        → Walking sort m ns earlier w0 sym w row
        → (w' : Work) × (row' : Row) × (symbol_step sort m ds sym (w, row) ≡ ok (w', row'))
          × Walking sort m ns earlier w0 (sym + 1) w' row'
    unfolding symbol_step
    symbol_step-Walking w row i =
        let (e_symbol, e_earlier, _) = i.ahead sym p (omega arith) le in
        elim (Bool-cases (goes sym)) [
          | inr none_goes ↦
              rw (e_symbol ∙ none_goes)
                (w, row, refl, skipped sort m ns earlier w0 sym p le w row none_goes i)
          | inl some_goes ↦ elim (Bool-cases (earlier sym == 0)) [
            | inl first_one ↦
                let (w2, row', run, next) = unique w row i some_goes in
                rw (e_symbol ∙ some_goes, ap (λ e. e == 0) e_earlier ∙ first_one)
                  (
                    record w2 { duplist = update w2.duplist sym 0 },
                    record row' { totaltrans = row'.totaltrans + 1 },
                    bind-ok _ _ run,
                    next,
                  )
            | inr later ↦
                let (w2, row', run, next) = shared w row i some_goes (ground arith) in
                rw (e_symbol ∙ some_goes, ap (λ e. e == 0) e_earlier ∙ later)
                  (
                    record w2 { duplist = update w2.duplist sym 0 },
                    record row' { totaltrans = row'.totaltrans + 1 },
                    bind-ok _ _ run,
                    next,
                  )
          ]
        ]
