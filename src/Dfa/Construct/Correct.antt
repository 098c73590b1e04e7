-- ===== src/Dfa/Construct/Correct.antt =====
-- A row of `ntod` is right: the states are those of the subset construction.
use flex_cmake_old.Prelude.{
  ℕ, zero, suc, ◌+◌, ◌≤◌, ◌<◌, ◌≡◌, ◌≢◌, refl, ap, ◌∙◌, sym, subst, arith, false, ◌||◌, List, [],
  ◌∷◌, length, drop, get_elem?, some, All,
}
use flex_cmake_old.Common.{ok, at-some}
use flex_cmake_old.Ecs.Leader.{leader_bck}
use flex_cmake_old.Nfa.State.{Nfa}
use flex_cmake_old.Dfa.{Dfa}
use flex_cmake_old.Dfa.Interning.{StoresSet}
use flex_cmake_old.Dfa.Closure.Loop.{bind-ok}
use flex_cmake_old.Dfa.Closure.Spec.{IsBounded}
use flex_cmake_old.Dfa.Follow.{Reads, moves}
use flex_cmake_old.Dfa.Partition.{sympartition}
use flex_cmake_old.Dfa.Partition.Symbols.{HasSymbol, some_moves, sympartition-moves}
use flex_cmake_old.Dfa.Construct.{Machine, Work, Row, symbol_loop, state_row}
use flex_cmake_old.Dfa.Construct.Sets.{KeepsBounds, SetOf}
use flex_cmake_old.Dfa.Construct.Enter.{Extends, Fits}
use flex_cmake_old.Dfa.Construct.Walking.{Transition, Walking}
use flex_cmake_old.Dfa.Construct.Loop.{symbol_step-Walking}

module _ (sort : List ℕ → List ℕ) (keeps : (xs : List ℕ) → length (sort xs) ≡ length xs)
    (m : Machine) (bounded : IsBounded m.nfas)
    (no_warnings : m.variable_trailing_context_rules ≡ false) (ds z : ℕ) (is : List ℕ)
    (ns : List Nfa) (reads : Reads m.nfas m.ccls is ns) where
  module _ (earlier : ℕ → ℕ) (w0 : Work) (d0 : Dfa) (there : get_elem? w0.globals.dfas ds ≡ some d0)
      (set : d0.dss ≡ z ∷ is) (room : length ns < length w0.nset) (fits : Fits m w0.accset)
      (before : (x : ℕ)
        → x ≢ 0
        → x ≤ m.numecs
        → earlier x ≢ 0
        → (earlier x < x)
          × All
              (λ (n : Nfa).
                moves m.ccls m.ecgroup (earlier x) n.transchar
                ≡ moves m.ccls m.ecgroup x n.transchar)
              ns) where
    abbrev Goes : (sym : ℕ) → Work → Row → Type 0
    Goes sym w row = Walking sort m ns earlier w0 sym w row

    symbol_loop-Walking :
        (rounds sym : ℕ) (w : Work) (row : Row)
        → sym ≢ 0
        → sym + rounds ≡ suc m.numecs
        → Goes sym w row
        → (w' : Work) × (row' : Row) × (symbol_loop sort m ds rounds sym (w, row) ≡ ok (w', row'))
          × Goes (suc m.numecs) w' row'
    unfolding symbol_loop
    symbol_loop-Walking zero sym w row p e i =
        (w, row, refl, subst (λ j. Goes j w row) (omega (arith, e)) i)
    symbol_loop-Walking (suc rounds) sym w row p e i =
        let (w1, row1, run1, i1) =
          symbol_step-Walking sort keeps m bounded no_warnings ds z is ns reads earlier w0 d0 there
            set room fits before sym p (omega (arith, e)) w row i in
        let (w2, row2, run2, i2) =
          symbol_loop-Walking rounds (sym + 1) w1 row1 (omega arith) (omega (arith, e)) i1 in
        (w2, row2, bind-ok _ _ run1 ∙ run2, i2)

  -- The row and what is kept, with the sets of the states.
  abbrev pub RowDone : Work → Work → Row → Type 0
  RowDone w w' row =
      ((x : ℕ) → x ≢ 0 → x ≤ m.numecs → Transition sort m ns w'.globals.dfas row.state x)
      × Extends w.globals.dfas w'.globals.dfas
      × (length w'.globals.dfas + w.todo_next ≡ length w.globals.dfas + w'.todo_next)
      × All StoresSet (drop 1 w'.globals.dfas)
      × ((x : ℕ) → x ≢ 0 → x ≤ m.numecs → w'.symlist x ≡ false)
      × ((j : ℕ) → w'.flags j ≡ false)
      × (length w.nset ≤ length w'.nset)
      × (length w'.accset ≡ length w.accset)
      × (KeepsBounds sort
          → All (SetOf m (length w.nset)) (drop 1 w.globals.dfas)
          → All (SetOf m (length w'.nset)) (drop 1 w'.globals.dfas))

  pub state_row-RowDone :
      (w : Work) (d0 : Dfa)
      → get_elem? w.globals.dfas ds ≡ some d0
      → d0.dss ≡ z ∷ is
      → All (λ (n : Nfa). HasSymbol m.csize m.ecgroup n.transchar) ns
      → length ns < length w.nset
      → Fits m w.accset
      → 0 < length w.globals.dfas
      → All StoresSet (drop 1 w.globals.dfas)
      → ((x : ℕ) → x ≢ 0 → x ≤ m.numecs → w.symlist x ≡ false)
      → ((j : ℕ) → w.flags j ≡ false)
      → (w' : Work) × (row : Row) × (state_row sort m ds w ≡ ok (w', row)) × RowDone w w' row
  unfolding state_row
  state_row-RowDone w d0 there set symbols room fits first stores clear down =
      let (p, run_p, linked, classes, marked, down') =
        sympartition-moves m.csize m.numecs m.nul_ec m.nfas m.ccls m.ecgroup z is ns w.symlist
          w.flags reads symbols down in
      let parted : sympartition m.csize m.numecs m.nul_ec m.nfas m.ccls m.ecgroup d0.dss w.symlist
            w.flags
          ≡ ok p =
        rw set run_p in
      let w0 = record w { symlist = p.symlist; duplist = p.links.bck; flags = p.flags } in
      let (w', row, run, i) =
        symbol_loop-Walking p.links.bck w0 d0 there set room fits
          (λ x px hx b.
            let (lt, _, _) = linked.bck_down x b in
            (
              lt,
              (classes (p.links.bck x) x b px (omega (arith, lt, hx)) hx).0
                  (sym (leader_bck linked x b)),
            ))
          m.numecs 1 w0 (record { state = λ i. 0; targets = []; totaltrans = 0 }) (omega arith)
          (omega arith)
          (record {
            grows = λ j d e. e;
            stores = stores;
            first = first;
            sets = λ bounds h. h;
            queue = refl;
            nset_room = omega arith;
            accset_room = refl;
            marks = refl;
            done = λ x lt px hx. absurd (px (omega (arith, lt)));
            listed = λ x lt px hx g. absurd (px (omega (arith, lt)));
            cleared = λ x lt px hx. absurd (px (omega (arith, lt)));
            ahead = λ x px lt hx. (
              marked x px hx ∙ ap (λ b. b || some_moves m.ccls m.ecgroup x ns) (clear x px hx),
              refl,
              refl,
            );
          }) in
      (
        record w' { numsnpairs = w'.numsnpairs + row.totaltrans },
        row,
        bind-ok _ _ (at-some w.globals.dfas ds there) ∙ bind-ok _ _ parted ∙ bind-ok _ _ run,
        (
          (λ x px hx. i.done x (omega (arith, hx)) px hx),
          i.grows,
          i.queue,
          i.stores,
          (λ x px hx. i.cleared x (omega (arith, hx)) px hx),
          (λ j. ap (λ f. f j) i.marks ∙ down' j),
          i.nset_room,
          i.accset_room,
          i.sets,
        ),
      )

  -- For NFA states whose transitions lead to states, without variable trailing context, and for a
  -- state of the DFA whose set is of states that are there, with tables of class numbers and with
  -- classes for their characters; where nset has room for the set and accset for the accepting numbers
  -- of each closure, and where symlist and the flags of mkeccl are down: the row is computed. On a
  -- symbol that some state of the set goes on with, it leads to a state that holds the sorted closure
  -- of the successors with its hash value; on the others it has 0. The states so far keep their
  -- numbers, as many states are added as the queue grows by, each state has room for its set, and symlist and the flags are down again.
  pub state_row-Transition :
      (w : Work) (d0 : Dfa)
      → get_elem? w.globals.dfas ds ≡ some d0
      → d0.dss ≡ z ∷ is
      → All (λ (n : Nfa). HasSymbol m.csize m.ecgroup n.transchar) ns
      → length ns < length w.nset
      → Fits m w.accset
      → 0 < length w.globals.dfas
      → All StoresSet (drop 1 w.globals.dfas)
      → ((x : ℕ) → x ≢ 0 → x ≤ m.numecs → w.symlist x ≡ false)
      → ((j : ℕ) → w.flags j ≡ false)
      → (w' : Work) × (row : Row) × (state_row sort m ds w ≡ ok (w', row))
        × ((x : ℕ) → x ≢ 0 → x ≤ m.numecs → Transition sort m ns w'.globals.dfas row.state x)
        × Extends w.globals.dfas w'.globals.dfas
        × (length w'.globals.dfas + w.todo_next ≡ length w.globals.dfas + w'.todo_next)
        × All StoresSet (drop 1 w'.globals.dfas)
        × ((x : ℕ) → x ≢ 0 → x ≤ m.numecs → w'.symlist x ≡ false)
        × ((j : ℕ) → w'.flags j ≡ false)
  state_row-Transition w d0 there set symbols room fits first stores clear down =
      let (w', row, run, (t, grows, queue, stores', clear', down', _, _, _)) =
        state_row-RowDone w d0 there set symbols room fits first stores clear down in
      (w', row, run, t, grows, queue, stores', clear', down')
