-- ===== src/Tests/NtodRuns.antt =====
-- A run of a round of `ntod` and its theorem at a concrete input.
use flex_cmake_old.Prelude.{
  ℕ, zero, suc, ◌+◌, ◌≤◌, ◌<◌, ◌≡◌, ◌≢◌, refl, arith, ◌==◌, if◌then◌else◌, true, false, List, [],
  ◌∷◌, map, length, drop, All,
}
use flex_cmake_old.Prelude.Int.{pos, negsuc}
use flex_cmake_old.Common.{Result, ok, exit, fault, at}
use flex_cmake_old.CharacterTable.{IsClassTable}
use flex_cmake_old.Ecs.{one_class, mkechar}
use flex_cmake_old.Ecs.Partition.{mkeccl}
use flex_cmake_old.Nfa.State.{Nfa}
use flex_cmake_old.Dfa.Follow.{HasClass, Reads}
use flex_cmake_old.Dfa.Interning.{StoresSet}
use flex_cmake_old.Dfa.Closure.Spec.{node_at, IsBounded}
use flex_cmake_old.Dfa.Closure.Push.{accepts}
use flex_cmake_old.Dfa.Partition.Symbols.{HasSymbol}
use flex_cmake_old.Dfa.Construct.{Machine, Work, Row, state_row, most_common, full_row}
use flex_cmake_old.Dfa.Construct.Enter.{Extends, Fits}
use flex_cmake_old.Dfa.Construct.Walking.{Transition}
use flex_cmake_old.Dfa.Construct.Correct.{state_row-Transition}
use flex_cmake_old.Tests.DfaRuns.{state_on, classes, place, sort_insert, length-sort_insert, dfa_of}

-- State 1 goes on with all but the classes 2 and 4, state 2 with 3; from state 3 an epsilon
-- transition leads back to 1.
abbrev looping : List Nfa
looping =
    state_on (pos 257) 0 ∷ state_on (negsuc 0) 2 ∷ state_on (pos 3) 3 ∷ state_on (pos 257) 1 ∷ []

abbrev pub machine : Machine
machine = record {
  csize = 256;
  numecs = 5;
  nul_ec = 5;
  nfas = looping;
  ccls = classes;
  ecgroup = λ c. pos c;
  variable_trailing_context_rules = false;
}

-- The state 1 of the DFA holds the states 1 and 2.
abbrev pub begin : Work
begin = record {
  nset = 0 ∷ 0 ∷ 0 ∷ 0 ∷ [];
  accset = 0 ∷ [];
  symlist = λ x. false;
  duplist = λ x. 0;
  flags = λ x. false;
  globals = record {
    dfas = dfa_of 0 [] ∷ dfa_of 3 (1 ∷ 2 ∷ []) ∷ [];
    rules = [];
    reject = false;
    dfaeql = 0;
    hshcol = 0;
    hshsave = 0;
  };
  todo_next = 1;
  numas = 0;
  totnst = 0;
  numuniq = 0;
  numdup = 0;
  numsnpairs = 0;
  num_backing_up = 0;
  warnings = [];
}

row_of : Result (Work × Row) → List ℕ × List (ℕ × ℕ) × ℕ
row_of (ok (w, row)) = (map row.state (1 ∷ 2 ∷ 3 ∷ 4 ∷ 5 ∷ []), row.targets, w.todo_next)
row_of (exit e) = ([], [], 0)
row_of fault = ([], [], 0)

-- Two new states; the first is the target of 1 and 5.
the_row :
    row_of (state_row sort_insert machine 1 begin)
    ≡ (2 ∷ 0 ∷ 3 ∷ 0 ∷ 2 ∷ [], (2, 2) ∷ (1, 3) ∷ [], 3)
unfolding row_of state_row sort_insert place at mkechar mkeccl one_class node_at
the_row = refl

common : most_common ((2, 2) ∷ (1, 3) ∷ []) 0 0 ≡ (2, 2)
unfolding most_common
common = refl

full :
    full_row (λ x. if x == 3 then 4 else 0) 7 2 5
    ≡ pos 2 ∷ negsuc 6 ∷ negsuc 6 ∷ pos 4 ∷ negsuc 6 ∷ []
unfolding full_row
full = refl

-- Two symbols that lead to one state, but not from the same states: its frequency is counted twice
-- as 1.
abbrev twice : List Nfa
twice = state_on (pos 257) 0 ∷ state_on (pos 1) 3 ∷ state_on (pos 3) 3 ∷ state_on (pos 5) 1 ∷ []

two_entries :
    row_of (state_row sort_insert (record machine { nfas = twice }) 1 begin)
    ≡ (2 ∷ 0 ∷ 2 ∷ 0 ∷ 0 ∷ [], (1, 2) ∷ (1, 2) ∷ [], 2)
unfolding row_of state_row sort_insert place at mkechar mkeccl one_class node_at
two_entries = refl

abbrev members : List Nfa
members = state_on (negsuc 0) 2 ∷ state_on (pos 3) 3 ∷ []

pub looping-IsBounded : IsBounded looping
unfolding node_at
looping-IsBounded = record {
  first = λ v. first_of v;
  second = λ v. second_of v;
  size = omega arith;
}
  where
    first_of : (v : ℕ) → (node_at looping v).trans1 < length looping
    first_of zero = omega arith
    first_of (suc zero) = omega arith
    first_of (suc (suc zero)) = omega arith
    first_of (suc (suc (suc zero))) = omega arith
    first_of (suc (suc (suc (suc v)))) = omega arith

    second_of : (v : ℕ) → (node_at looping v).trans2 < length looping
    second_of zero = omega arith
    second_of (suc zero) = omega arith
    second_of (suc (suc zero)) = omega arith
    second_of (suc (suc (suc zero))) = omega arith
    second_of (suc (suc (suc (suc v)))) = omega arith

none_accepts : (v : ℕ) → (node_at looping v).accptnum ≡ 0
unfolding node_at
none_accepts zero = refl
none_accepts (suc zero) = refl
none_accepts (suc (suc zero)) = refl
none_accepts (suc (suc (suc zero))) = refl
none_accepts (suc (suc (suc (suc v)))) = refl

accepts_none : (vs : List ℕ) → accepts looping vs ≡ []
unfolding accepts
accepts_none [] = refl
accepts_none (v ∷ vs) = rw (none_accepts v, accepts_none vs) refl

pub begin-Fits : Fits machine begin.accset
begin-Fits init small vs once reached = rw (accepts_none vs) (omega arith)

members-Reads : Reads looping classes (1 ∷ 2 ∷ []) members
unfolding Reads HasClass IsClassTable
members-Reads = (
  refl,
  (
    record { table = 2 ∷ 4 ∷ []; ng = true; has_nl = false },
    refl,
    (((omega arith, tt), (tt, tt)), (omega arith, (omega arith, tt))),
  ),
  (refl, tt, tt),
)

members-HasSymbol : All (λ (n : Nfa). HasSymbol 256 (λ c. pos c) n.transchar) members
unfolding HasSymbol
members-HasSymbol = (tt, ((λ h. (omega arith, refl, omega arith)), tt))

pub begin-StoresSet : All StoresSet (drop 1 begin.globals.dfas)
unfolding StoresSet
begin-StoresSet = (omega arith, tt)

state_row-Transition_example :
    (w' : Work) × (row : Row) × (state_row sort_insert machine 1 begin ≡ ok (w', row))
    × ((x : ℕ) → x ≢ 0 → x ≤ 5 → Transition sort_insert machine members w'.globals.dfas row.state x)
    × Extends begin.globals.dfas w'.globals.dfas
    × (length w'.globals.dfas + 1 ≡ 2 + w'.todo_next)
    × All StoresSet (drop 1 w'.globals.dfas)
    × ((x : ℕ) → x ≢ 0 → x ≤ 5 → w'.symlist x ≡ false)
    × ((j : ℕ) → w'.flags j ≡ false)
state_row-Transition_example =
    state_row-Transition sort_insert length-sort_insert machine looping-IsBounded refl 1 0
      (1 ∷ 2 ∷ []) members members-Reads begin (dfa_of 3 (1 ∷ 2 ∷ [])) refl refl members-HasSymbol
      (omega arith) begin-Fits (omega arith) begin-StoresSet (λ x px hx. refl) (λ j. refl)
