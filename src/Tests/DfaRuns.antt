-- ===== src/Tests/DfaRuns.antt =====
-- Runs of the subset construction and its theorems at concrete inputs.
use flex_cmake_old.Prelude.{
  ℕ, zero, suc, ◌≤◌, ◌<◌, ◌≡◌, ◌≢◌, refl, ap, ◌∙◌, arith, subst, ltb, ◌==◌, if◌then◌else◌, true,
  false, ◌||◌, ◌&&◌, ◌↔◌, Bool-cases, inl, inr, List, [], ◌∷◌, length, take, drop, get_elem?, some,
  none, All,
}
use flex_cmake_old.Prelude.Int.{ℤ, pos, negsuc}
use flex_cmake_old.Common.{ok}
use flex_cmake_old.CharacterTable.{contains, IsClassTable}
use flex_cmake_old.Ccl.{CharacterClasses, empty_class}
use flex_cmake_old.Nfa.State.{Nfa, StateType}
use flex_cmake_old.Dfa.{Dfa, Dfas, Interned, snstods, symfollowset}
use flex_cmake_old.Dfa.Follow.{HasClass, Reads, moves, targets, Holds, symfollowset-targets}
use flex_cmake_old.Ecs.Leader.{leader}
use flex_cmake_old.Ecs.Linked.{IsLinked}
use flex_cmake_old.Dfa.Partition.{Partition, sympartition}
use flex_cmake_old.Dfa.Partition.Symbols.{HasSymbol, some_moves, sympartition-moves}
use flex_cmake_old.Dfa.Interning.{StoresSet, Outcome, snstods_interns}
use flex_cmake_old.Dfa.Closure.{Closure, is_kept, epsclosure}
use flex_cmake_old.Dfa.Closure.Spec.{node_at, Reach, IsBounded}
use flex_cmake_old.Dfa.Closure.Spec.{IsDistinct as IsOnce}
use flex_cmake_old.Dfa.Closure.Push.{accepts, original, HasRoom}
use flex_cmake_old.Dfa.Closure.Correct.{epsclosure-Reach}

-- A state with a character or a class and one transition.
abbrev pub state_on : ℤ → ℕ → Nfa
state_on c target = record {
  firstst = 0;
  lastst = 0;
  finalst = 0;
  transchar = c;
  trans1 = target;
  trans2 = 0;
  accptnum = 0;
  assoc_rule = 0;
  state_type = StateType.normal;
}

-- State 1 has the negated class of 2 and 4, state 2 the character 3.
abbrev two_states : List Nfa
two_states = state_on (pos 257) 0 ∷ state_on (negsuc 0) 5 ∷ state_on (pos 3) 6 ∷ []

abbrev pub classes : CharacterClasses
classes = empty_class ∷ record { table = 2 ∷ 4 ∷ []; ng = true; has_nl = false } ∷ []

two_states-Reads :
    Reads two_states classes (1 ∷ 2 ∷ []) (state_on (negsuc 0) 5 ∷ state_on (pos 3) 6 ∷ [])
unfolding Reads HasClass IsClassTable
two_states-Reads = (
  refl,
  (
    record { table = 2 ∷ 4 ∷ []; ng = true; has_nl = false },
    refl,
    (((omega arith, tt), (tt, tt)), (omega arith, (omega arith, tt))),
  ),
  (refl, tt, tt),
)

abbrev reached : List ℕ
reached = targets classes (λ c. pos c) 3 (state_on (negsuc 0) 5 ∷ state_on (pos 3) 6 ∷ [])

reached_both : reached ≡ 5 ∷ 6 ∷ []
unfolding targets moves contains
reached_both = refl

symfollowset-targets_example :
    (nset' : List ℕ) × (symfollowset two_states classes
        (λ c. pos c)
        1
        (0 ∷ 1 ∷ 2 ∷ [])
        3
        (0 ∷ 0 ∷ 0 ∷ 0 ∷ [])
      ≡ ok (length reached, nset'))
    × Holds nset' 1 reached
    × (length nset' ≡ 4)
    × (get_elem? nset' 0 ≡ some 0)
symfollowset-targets_example =
    symfollowset-targets two_states classes (λ c. pos c) 1 3 0 (1 ∷ 2 ∷ [])
      (state_on (negsuc 0) 5 ∷ state_on (pos 3) 6 ∷ []) (0 ∷ 0 ∷ 0 ∷ 0 ∷ []) two_states-Reads
      (omega arith)

-- Both states, with classes 1 to 5: the classes 1 and 5 stay together.
abbrev both : List Nfa
both = state_on (negsuc 0) 5 ∷ state_on (pos 3) 6 ∷ []

both-HasSymbol : All (λ (n : Nfa). HasSymbol 256 (λ c. pos c) n.transchar) both
unfolding HasSymbol
both-HasSymbol = (tt, ((λ h. (omega arith, refl, omega arith)), tt))

sympartition-moves_example :
    (p : Partition) × (sympartition 256 5 5 two_states classes
        (λ c. pos c)
        (0 ∷ 1 ∷ 2 ∷ [])
        (λ i. false)
        (λ i. false)
      ≡ ok p)
    × IsLinked 5 p.links
    × ((x y : ℕ)
        → x ≢ 0
        → y ≢ 0
        → x ≤ 5
        → y ≤ 5
        → (leader p.links x ≡ leader p.links y)
          ↔ All
              (λ (n : Nfa).
                moves classes (λ c. pos c) x n.transchar ≡ moves classes (λ c. pos c) y n.transchar)
              both)
    × ((x : ℕ) → x ≢ 0 → x ≤ 5 → p.symlist x ≡ (false || some_moves classes (λ c. pos c) x both))
    × ((j : ℕ) → p.flags j ≡ false)
sympartition-moves_example =
    sympartition-moves 256 5 5 two_states classes (λ c. pos c) 0 (1 ∷ 2 ∷ []) both (λ i. false)
      (λ i. false) two_states-Reads both-HasSymbol (λ j. refl)

-- A sort in place of qsort.
unfoldable pub place : ℕ → List ℕ → List ℕ
place x [] = x ∷ []
place x (y ∷ ys) = if ltb y x then y ∷ place x ys else x ∷ y ∷ ys

unfoldable pub sort_insert : List ℕ → List ℕ
unfolding place
sort_insert [] = []
sort_insert (x ∷ xs) = place x (sort_insert xs)

length-place : (x : ℕ) (xs : List ℕ) → length (place x xs) ≡ suc (length xs)
unfolding place
length-place x [] = refl
length-place x (y ∷ ys) = elim (Bool-cases (ltb y x)) [
  | inl e ↦ rw e (ap suc (length-place x ys))
  | inr e ↦ rw e refl
]

pub length-sort_insert : (xs : List ℕ) → length (sort_insert xs) ≡ length xs
unfolding sort_insert
length-sort_insert [] = refl
length-sort_insert (x ∷ xs) = length-place x (sort_insert xs) ∙ ap suc (length-sort_insert xs)

abbrev pub dfa_of : ℕ → List ℕ → Dfa
dfa_of h states = record {
  base = pos 0;
  def = pos 0;
  hash = h;
  nultrans = pos 0;
  dss = 0 ∷ states;
  acc_set = none;
  acc_state = 0;
}

-- Two states are made; the first is for 3 and 7.
abbrev made : Dfas
made = record {
  dfas = dfa_of 0 [] ∷ dfa_of 10 (3 ∷ 7 ∷ []) ∷ dfa_of 5 (5 ∷ []) ∷ [];
  rules = [];
  reject = false;
  dfaeql = 0;
  hshcol = 0;
  hshsave = 0;
}

made-StoresSet : All StoresSet (drop 1 made.dfas)
unfolding StoresSet
made-StoresSet = (omega arith, (omega arith, tt))

snstods_interns_example :
    (r : Interned) × (snstods sort_insert (0 ∷ 7 ∷ 3 ∷ []) 2 (0 ∷ []) 0 10 made ≡ ok r)
    × Outcome 10 (sort_insert (take 2 (drop 1 (0 ∷ 7 ∷ 3 ∷ [])))) made.dfas r
snstods_interns_example =
    snstods_interns sort_insert (0 ∷ 7 ∷ 3 ∷ []) 2 (0 ∷ []) 0 10 made length-sort_insert
      (omega arith) (omega arith) made-StoresSet

-- State 1 branches to 2, which accepts, and to 3, which goes back to 1.
abbrev branching : List Nfa
branching =
    state_on (pos 257) 0
    ∷ record (state_on (pos 257) 2) { trans2 = 3 }
    ∷ record (state_on (pos 257) 0) { accptnum = 4 }
    ∷ state_on (pos 257) 1
    ∷ []

branching-IsBounded : IsBounded branching
unfolding node_at
branching-IsBounded = record {
  first = λ v. first_of v;
  second = λ v. second_of v;
  size = omega arith;
}
  where
    first_of : (v : ℕ) → (node_at branching v).trans1 < length branching
    first_of zero = omega arith
    first_of (suc zero) = omega arith
    first_of (suc (suc zero)) = omega arith
    first_of (suc (suc (suc zero))) = omega arith
    first_of (suc (suc (suc (suc v)))) = omega arith

    second_of : (v : ℕ) → (node_at branching v).trans2 < length branching
    second_of zero = omega arith
    second_of (suc zero) = omega arith
    second_of (suc (suc zero)) = omega arith
    second_of (suc (suc (suc zero))) = omega arith
    second_of (suc (suc (suc (suc v)))) = omega arith

-- Only the state 2 accepts.
others_reject : (v : ℕ) → (v == 2) ≡ false → (node_at branching v).accptnum ≡ 0
unfolding node_at
others_reject zero e = refl
others_reject (suc zero) e = refl
others_reject (suc (suc zero)) e = ground (arith, e)
others_reject (suc (suc (suc zero))) e = refl
others_reject (suc (suc (suc (suc v)))) e = refl

one_accepts :
    (vs : List ℕ) → IsOnce vs → length (accepts branching vs) ≤ (if contains 2 vs then 1 else 0)
unfolding IsOnce accepts contains
one_accepts [] d = omega arith
one_accepts (v ∷ vs) (new, d) = elim (Bool-cases (v == 2)) [
  | inr other ↦ rw (others_reject v other) (ground (arith, one_accepts vs d, other))
  | inl here ↦
      let same : v ≡ 2 = ground arith in
      let once : contains 2 vs ≡ false = subst (λ w. contains w vs ≡ false) same new in
      rw same (ground (arith, one_accepts vs d, once))
]

branching-HasRoom : HasRoom branching (1 ∷ []) 2
branching-HasRoom vs d r = ground (arith, one_accepts vs d)

epsclosure-Reach_example :
    (c : Closure) × (epsclosure branching 2 (original branching) (1 ∷ []) ≡ ok c)
    × ((contains 2 c.stk ≡ true) ↔ Reach branching (1 ∷ []) 2)
    × IsOnce c.stk
    × (contains 2 c.t
        ≡ (contains 2 (1 ∷ []) || (contains 2 c.stk && is_kept (node_at branching 2))))
    × (c.accset ≡ accepts branching c.stk)
    × (c.trans1 2 ≡ original branching 2)
    × (length c.accset < 2)
epsclosure-Reach_example =
    epsclosure-Reach branching 2 (1 ∷ []) 2 branching-IsBounded branching-HasRoom (omega arith, tt)
