-- ===== src/Dfa/Ntod/Full.antt =====
-- The queue of `ntod` for full tables, which writes the rows of the subset construction.
use flex_cmake_old.Prelude.{
  ℕ, zero, suc, ◌+◌, ◌≤◌, ◌<◌, ◌≡◌, ◌≢◌, false, List, [], ◌∷◌, ◌++◌, map, length, drop, get_elem?,
  some, All,
}
use flex_cmake_old.Prelude.Int.{ℤ}
use flex_cmake_old.Nfa.State.{Nfa}
use flex_cmake_old.Dfa.{Dfa}
use flex_cmake_old.Dfa.Interning.{StoresSet}
use flex_cmake_old.Dfa.Closure.Spec.{IsBounded, node_at}
use flex_cmake_old.Dfa.Follow.{HasClass}
use flex_cmake_old.Dfa.Partition.Symbols.{HasSymbol}
use flex_cmake_old.Dfa.Construct.{Machine, Work, full_row}
use flex_cmake_old.Dfa.Construct.Enter.{Extends, Fits}
use flex_cmake_old.Dfa.Construct.Sets.{SetOf}
use flex_cmake_old.Dfa.Construct.Walking.{Transition}

-- The classes that the states name are there, and their characters have classes.
pub record IsWhole (m : Machine) : Type 0 where
  pub bounded : IsBounded m.nfas
  pub classes : (v : ℕ) → v < length m.nfas → HasClass m.ccls (node_at m.nfas v).transchar
  pub symbols :
      (v : ℕ) → v < length m.nfas → HasSymbol m.csize m.ecgroup (node_at m.nfas v).transchar
  pub no_warnings : m.variable_trailing_context_rules ≡ false

-- What the queue keeps: it ends where the states do, the vectors have room, and the sets are of states.
pub record IsReady (m : Machine) (w : Work) : Type 0 where
  pub queue : length w.globals.dfas ≡ suc w.todo_next
  pub stores : All StoresSet (drop 1 w.globals.dfas)
  pub sets : All (SetOf m (length w.nset)) (drop 1 w.globals.dfas)
  pub fits : Fits m w.accset
  pub clear : (x : ℕ) → x ≢ 0 → x ≤ m.numecs → w.symlist x ≡ false
  pub down : (j : ℕ) → w.flags j ≡ false

abbrev pub members : Machine → List ℕ → List Nfa
members m is = map (node_at m.nfas) is

-- The row of the state `ds`.
abbrev pub RowFor :
    (sort : List ℕ → List ℕ) → Machine → List Dfa → (ds : ℕ) → (state : ℕ → ℕ) → Type 0
RowFor sort m dfas ds state =
    (d : Dfa) × (z : ℕ) × (is : List ℕ) × (get_elem? dfas ds ≡ some d)
    × (d.dss ≡ z ∷ is)
    × ((x : ℕ) → x ≢ 0 → x ≤ m.numecs → Transition sort m (members m is) dfas state x)

-- The elements are the rows of `count` states behind `from`.
unfoldable pub RowsOf :
    (sort : List ℕ → List ℕ)
    → Machine
    → List Dfa
    → (end_of_buffer_state rows count from : ℕ) → List ℤ
    → Type 0
RowsOf sort m dfas end_of_buffer_state rows zero from elements = elements ≡ []
RowsOf sort m dfas end_of_buffer_state rows (suc count) from elements =
    (state : ℕ → ℕ) × (rest : List ℤ) × (elements
      ≡ full_row state (from + 1) end_of_buffer_state rows ++ rest)
    × RowFor sort m dfas (from + 1) state
    × RowsOf sort m dfas end_of_buffer_state rows count (from + 1) rest

Transition-Extends :
    (sort : List ℕ → List ℕ) (m : Machine) (ns : List Nfa) (dfas dfas' : List Dfa) (state : ℕ → ℕ)
    (x : ℕ)
    → Extends dfas dfas'
    → Transition sort m ns dfas state x
    → Transition sort m ns dfas' state x
Transition-Extends sort m ns dfas dfas' state x grows (t, f) = (
  (λ g.
      let (room, c, run, d, found, is_for) = t g in
      (room, c, run, d, grows (state x) d found, is_for)),
  f,
)

pub RowFor-Extends :
    (sort : List ℕ → List ℕ) (m : Machine) (dfas dfas' : List Dfa) (ds : ℕ) (state : ℕ → ℕ)
    → Extends dfas dfas'
    → RowFor sort m dfas ds state
    → RowFor sort m dfas' ds state
RowFor-Extends sort m dfas dfas' ds state grows (d, z, is, found, e, t) = (
  d,
  z,
  is,
  grows ds d found,
  e,
  λ x px hx. Transition-Extends sort m (members m is) dfas dfas' state x grows (t x px hx),
)
