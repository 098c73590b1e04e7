-- ===== src/Dfa/Construct.antt =====
-- The round of `ntod` of src/dfa.cpp for a state: its transitions, and the states they lead to.
pub mod Vectors
pub mod Sets
pub mod Enter
pub mod Targets
pub mod Walking
pub mod Loop
pub mod Correct
use flex_cmake_old.Prelude.{
  ℕ, zero, suc, ◌+◌, ◌-◌, ◌==◌, ltb, if◌then◌else◌, Bool, true, false, not, ◌&&◌, ◌||◌, List, [],
  ◌∷◌, ◌++◌, length, take, drop, replicate, none, some, Option,
}
use flex_cmake_old.Prelude.Int.{ℤ, pos, neg}
use flex_cmake_old.Common.{Result, ok, fault, ◌>>=◌, at}
use flex_cmake_old.Ccl.{CharacterClasses}
use flex_cmake_old.Ecs.{update}
use flex_cmake_old.Ecs.Partition.{Flags, set_flag}
use flex_cmake_old.Nfa.State.{Nfa}
use flex_cmake_old.Dfa.{Dfa, Dfas, symfollowset, snstods, check_trailing_context}
use flex_cmake_old.Dfa.Closure.{Closure, epsclosure}
use flex_cmake_old.Dfa.Closure.Push.{original}
use flex_cmake_old.Dfa.Partition.{Partition, sympartition}

-- What `ntod` reads and does not write.
pub record Machine : Type 0 where
  pub csize : ℕ
  pub numecs : ℕ
  pub nul_ec : ℕ
  pub nfas : List Nfa
  pub ccls : CharacterClasses
  pub ecgroup : ℕ → ℤ
  pub variable_trailing_context_rules : Bool

-- Its vectors, arrays and counters, and the states. `warnings` are the lines that
-- `check_trailing_context` warns of.
pub record Work : Type 0 where
  pub nset : List ℕ
  pub accset : List ℕ
  pub symlist : ℕ → Bool
  pub duplist : ℕ → ℕ
  pub flags : Flags
  pub globals : Dfas
  pub todo_next : ℕ
  pub numas : ℕ
  pub totnst : ℕ
  pub numuniq : ℕ
  pub numdup : ℕ
  pub numsnpairs : ℕ
  pub num_backing_up : ℕ
  pub warnings : List ℕ

-- The transitions of a state, `targfreq` with `targstate` from index 1 on, and `totaltrans`.
pub record Row : Type 0 where
  pub state : ℕ → ℕ
  pub targets : List (ℕ × ℕ)
  pub totaltrans : ℕ

-- The vector with new elements from index 1 on.
unfoldable pub stored : List ℕ → List ℕ → List ℕ
stored ys xs = take 1 xs ++ ys ++ drop (suc (length ys)) xs

-- DO_REALLOCATION for as many elements from index 1 on.
unfoldable pub with_slots : ℕ → List ℕ → List ℕ
with_slots n xs = xs ++ replicate (suc n - length xs) 0

-- `epsclosure` on the vectors. The first of them grows, the second does not, and is as long as its
-- room; the marks on `nfas` are cleared again.
unfoldable pub close_set : Machine → (numstates : ℕ) → Work → Result (Closure × Work)
unfolding epsclosure stored with_slots
close_set m numstates w = do
  c ← epsclosure m.nfas (length w.accset) (original m.nfas) (take numstates (drop 1 w.nset))
  ok (
    c,
    record w {
      nset = stored c.t (with_slots (length c.t) (with_slots (length c.stk) w.nset));
      accset = stored c.accset w.accset;
    },
  )

-- The counts for a new state, and the warning for it.
unfoldable pub count_new : Machine → (numstates nacc : ℕ) → Work → Result Work
unfolding check_trailing_context
count_new m numstates nacc w = do
  warning ←
      (if m.variable_trailing_context_rules && ltb 0 nacc
        then check_trailing_context m.nfas w.globals.rules w.nset numstates w.accset nacc
        else ok none)
  ok (record w {
    numas = w.numas + nacc;
    totnst = w.totnst + numstates;
    todo_next = w.todo_next + 1;
    warnings = elim warning [ none ↦ w.warnings | some line ↦ w.warnings ++ (line ∷ []) ];
  })

-- The state for the closure of the first `numstates` states of `nset`.
unfoldable pub enter_set :
    (sort : List ℕ → List ℕ) → Machine → (numstates : ℕ) → Work → Result (ℕ × Work)
unfolding close_set snstods count_new
enter_set sort m numstates w = do
  (c, w1) ← close_set m numstates w
  r ← snstods sort w1.nset (length c.t) w1.accset (length c.accset) c.hashval w1.globals
  let w2 = record w1 { nset = r.sns; accset = r.accset; globals = r.globals } in
      do
        w3 ← (if r.flag == 1 then count_new m (length c.t) (length c.accset) w2 else ok w2)
        ok (r.newds, w3)

-- A symbol with transitions of its own.
unfoldable pub unique_transition :
    (sort : List ℕ → List ℕ) → Machine → (ds sym : ℕ) → Work × Row → Result (Work × Row)
unfolding symfollowset enter_set update
unique_transition sort m ds sym (w, row) = do
  d ← at w.globals.dfas ds
  (numstates, nset) ← symfollowset m.nfas m.ccls m.ecgroup m.nul_ec d.dss sym w.nset
  (newds, w') ← enter_set sort m numstates (record w { nset = nset })
  ok (
    record w' { numuniq = w'.numuniq + 1 },
    record row { state = update row.state sym newds; targets = row.targets ++ ((1, newds) ∷ []) },
  )

-- `while (targstate[++i] != targ)` and `++targfreq[i]`
unfoldable pub count_target : (targ : ℕ) → List (ℕ × ℕ) → Result (List (ℕ × ℕ))
count_target targ [] = fault
count_target targ ((freq, target) ∷ rest) =
    let counted = count_target targ rest in
    if target == targ
    then ok ((freq + 1, target) ∷ rest)
    else (do rest' ← counted; ok ((freq, target) ∷ rest'))

-- A symbol with the transitions of an earlier one.
unfoldable pub shared_transition : (sym : ℕ) → Work × Row → Result (Work × Row)
unfolding count_target update
shared_transition sym (w, row) =
    let targ = row.state (w.duplist sym) in
    do
      targets ← count_target targ row.targets
      ok (
        record w { numdup = w.numdup + 1 },
        record row { state = update row.state sym targ; targets = targets },
      )

unfoldable pub symbol_step :
    (sort : List ℕ → List ℕ) → Machine → (ds sym : ℕ) → Work × Row → Result (Work × Row)
unfolding unique_transition shared_transition set_flag update
symbol_step sort m ds sym (w, row) =
    let w1 = record w { symlist = set_flag w.symlist sym false } in
    let step =
      (if w.duplist sym == 0
        then unique_transition sort m ds sym (w1, row)
        else shared_transition sym (w1, row)) in
    if w.symlist sym
    then (do
      (w2, row') ← step
      ok (
        record w2 { duplist = update w2.duplist sym 0 },
        record row' { totaltrans = row'.totaltrans + 1 },
      ))
    else ok (w, row)

unfoldable pub symbol_loop :
    (sort : List ℕ → List ℕ) → Machine → (ds rounds sym : ℕ) → Work × Row → Result (Work × Row)
unfolding symbol_step
symbol_loop sort m ds zero sym s = ok s
symbol_loop sort m ds (suc rounds) sym s =
    symbol_step sort m ds sym s >>= λ s'. symbol_loop sort m ds rounds (sym + 1) s'

-- The transitions of the state `ds` on the classes 1 .. numecs.
unfoldable pub state_row :
    (sort : List ℕ → List ℕ) → Machine → (ds : ℕ) → Work → Result (Work × Row)
unfolding symbol_loop sympartition
state_row sort m ds w = do
  d ← at w.globals.dfas ds
  p ← sympartition m.csize m.numecs m.nul_ec m.nfas m.ccls m.ecgroup d.dss w.symlist w.flags
  (w', row) ← symbol_loop sort m ds m.numecs 1 (
    record w { symlist = p.symlist; duplist = p.links.bck; flags = p.flags },
    record { state = λ i. 0; targets = []; totaltrans = 0 },
  )
  ok (record w' { numsnpairs = w'.numsnpairs + row.totaltrans }, row)

-- The count of `check_for_backing_up`, for a state that does not accept.
unfoldable pub no_set : Option (List ℕ) → Bool
no_set none = true
no_set (some a) = false

unfoldable pub check_for_backing_up : (ds : ℕ) → Work → Result Work
unfolding no_set
check_for_backing_up ds w = do
  d ← at w.globals.dfas ds
  ok (
      if (w.globals.reject && no_set d.acc_set) || (not w.globals.reject && (d.acc_state == 0))
      then record w { num_backing_up = w.num_backing_up + 1 }
      else w)

-- The commonest target and its frequency, the first of several.
unfoldable pub most_common : List (ℕ × ℕ) → (comfreq comstate : ℕ) → ℕ × ℕ
most_common [] comfreq comstate = (comfreq, comstate)
most_common ((freq, target) ∷ rest) comfreq comstate =
    if ltb comfreq freq then most_common rest freq target else most_common rest comfreq comstate

-- The elements of the full table for a state, jams as the negative of its number.
unfoldable pub full_elements : (state : ℕ → ℕ) → (ds rounds i : ℕ) → List ℤ
full_elements state ds zero i = []
full_elements state ds (suc rounds) i =
    (if state i == 0 then neg ds else pos (state i)) ∷ full_elements state ds rounds (i + 1)

unfoldable pub full_row :
    (state : ℕ → ℕ) → (ds end_of_buffer_state num_full_table_rows : ℕ) → List ℤ
unfolding full_elements
full_row state ds end_of_buffer_state num_full_table_rows =
    (if ds == end_of_buffer_state then neg end_of_buffer_state else pos end_of_buffer_state)
    ∷ full_elements state ds (num_full_table_rows - 1) 1
