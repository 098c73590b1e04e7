-- ===== src/Dfa/Follow.antt =====
-- What `symfollowset` of src/dfa.cpp finds.
use flex_cmake_old.Prelude.{
  ℕ, suc, ◌+◌, ◌<◌, ◌≡◌, refl, ap, ◌∙◌, subst, arith, ◌==◌, ltb, lt→ltb, ltb→lt, if◌then◌else◌,
  Bool, true, false, List, [], ◌∷◌, length, set, length-set, get_elem?-set_ne, get_elem?-set_self,
  get_elem?, some, none, All, inl, inr, Bool-cases,
}
use flex_cmake_old.Prelude.Int.{ℤ, pos, negsuc, abs}
use flex_cmake_old.Common.{ok, ◌>>=◌, at-some}
use flex_cmake_old.CharacterTable.{CharacterTable, contains, IsClassTable}
use flex_cmake_old.Ccl.{CharacterClass, CharacterClasses, class_contains}
use flex_cmake_old.Nfa.State.{Nfa}
use flex_cmake_old.Dfa.{put, finds, goes_on, follow_step, follow_loop, symfollowset}

contains-above :
    (t : ℕ) (table : CharacterTable) → All (λ c. t < c) table → contains t table ≡ false
unfolding contains
contains-above t [] a = refl
contains-above t (c ∷ table) (h, a) = ground (arith, contains-above t table a)

All-above :
    (t c : ℕ) (table : CharacterTable) → t < c → All (λ y. c < y) table → All (λ y. t < y) table
All-above t c [] h a = tt
All-above t c (x ∷ table) h (b, a) = (omega arith, All-above t c table h a)

finds-contains :
    (nul_ec t : ℕ) (table : CharacterTable)
    → IsClassTable table
    → finds nul_ec t table ≡ contains t table
unfolding finds contains IsClassTable
finds-contains nul_ec t [] h = refl
finds-contains nul_ec t (c ∷ table) ((above, up), (positive, rest)) =
    let ih = finds-contains nul_ec t table (up, rest) in
    elim (Bool-cases (ltb t c)) [
      | inl lt ↦ ground (arith, contains-above t table (All-above t c table (ltb→lt t c lt) above))
      | inr ge ↦ ground (arith, ih)
    ]

-- The independent reading: a state goes on with a class if its own character is of the class, or its
-- character class, negation included, contains it.
unfoldable pub moves : CharacterClasses → (ecgroup : ℕ → ℤ) → (transsym : ℕ) → ℤ → Bool
unfolding class_contains
moves ccls ecgroup t (pos c) = if c == 257 then false else abs (ecgroup c) == t
moves ccls ecgroup t (negsuc k) = elim (get_elem? ccls (suc k)) [
  | none ↦ false
  | some c ↦ class_contains c t
]

-- Where the states go on to, in order.
unfoldable pub targets : CharacterClasses → (ecgroup : ℕ → ℤ) → (transsym : ℕ) → List Nfa → List ℕ
unfolding moves
targets ccls ecgroup t [] = []
targets ccls ecgroup t (n ∷ ns) =
    if moves ccls ecgroup t n.transchar
    then n.trans1 ∷ targets ccls ecgroup t ns
    else targets ccls ecgroup t ns

-- A class that `transchar` names is there, as a table of equivalence classes.
unfoldable pub HasClass : CharacterClasses → ℤ → Type 0
HasClass ccls (pos c) = Unit
HasClass ccls (negsuc k) =
    (c : CharacterClass) × (get_elem? ccls (suc k) ≡ some c) × IsClassTable c.table

-- `ns` are the states that `ds` names.
unfoldable pub Reads : List Nfa → CharacterClasses → List ℕ → List Nfa → Type 0
Reads nfas ccls [] [] = Unit
Reads nfas ccls [] (n ∷ ns) = ⊥
Reads nfas ccls (i ∷ ds) [] = ⊥
Reads nfas ccls (i ∷ ds) (n ∷ ns) =
    (get_elem? nfas i ≡ some n) × HasClass ccls n.transchar × Reads nfas ccls ds ns

goes_on-moves :
    (ccls : CharacterClasses) (ecgroup : ℕ → ℤ) (nul_ec t : ℕ) (z : ℤ)
    → HasClass ccls z
    → goes_on ccls ecgroup nul_ec t z ≡ ok (moves ccls ecgroup t z)
unfolding goes_on moves HasClass class_contains
goes_on-moves ccls ecgroup nul_ec t (pos c) h = refl
goes_on-moves ccls ecgroup nul_ec t (negsuc k) (c, e, table) =
    rw (at-some ccls (suc k) e, moves, e, finds-contains nul_ec t c.table table) (ground arith)

-- The slots from `k` on hold the list.
unfoldable pub Holds : List ℕ → (k : ℕ) → List ℕ → Type 0
Holds nset k [] = Unit
Holds nset k (x ∷ xs) = (get_elem? nset k ≡ some x) × Holds nset (suc k) xs

-- The slots below `k` are the same.
abbrev pub Below : List ℕ → (k : ℕ) → List ℕ → Type 0
Below nset k nset' = (j : ℕ) → j < k → get_elem? nset' j ≡ get_elem? nset j

unfoldable pub Followed :
    CharacterClasses
    → (ecgroup : ℕ → ℤ) → (transsym : ℕ) → List Nfa
    → (k : ℕ) → (nset nset' : List ℕ) → Type 0
Followed ccls ecgroup t ns k nset nset' =
    Holds nset' (suc k) (targets ccls ecgroup t ns)
    × (length nset' ≡ length nset)
    × Below nset (suc k) nset'

add_zero : (n : ℕ) → n ≡ n + 0
add_zero n = omega arith

zero_add : (n : ℕ) → 0 + n ≡ n
zero_add n = omega arith

follow_loop_step :
    (nfas : List Nfa) (ccls : CharacterClasses) (ecgroup : ℕ → ℤ) (nul_ec t i : ℕ) (ds : List ℕ)
    (n : Nfa) (s : ℕ × List ℕ)
    → get_elem? nfas i ≡ some n
    → HasClass ccls n.transchar
    → follow_loop nfas ccls ecgroup nul_ec t (i ∷ ds) s ≡ (
        follow_step n.trans1 (moves ccls ecgroup t n.transchar) s >>= λ s'.
        follow_loop nfas ccls ecgroup nul_ec t ds s')
unfolding follow_loop
follow_loop_step nfas ccls ecgroup nul_ec t i ds n s e class =
    rw (at-some nfas i e, goes_on-moves ccls ecgroup nul_ec t n.transchar class)

put_step :
    (tsp k : ℕ) (nset : List ℕ)
    → k + 1 < length nset
    → follow_step tsp true (k, nset) ≡ ok (k + 1, set nset (k + 1) tsp)
unfolding follow_step put
put_step tsp k nset h = rw (lt→ltb _ _ h)

follow_loop-Followed :
    (nfas : List Nfa) (ccls : CharacterClasses) (ecgroup : ℕ → ℤ) (nul_ec t : ℕ) (ds : List ℕ)
    (ns : List Nfa) (k : ℕ) (nset : List ℕ)
    → Reads nfas ccls ds ns
    → k + length ns < length nset
    → (nset' : List ℕ) × (follow_loop nfas ccls ecgroup nul_ec t ds (k, nset)
        ≡ ok (k + length (targets ccls ecgroup t ns), nset'))
      × Followed ccls ecgroup t ns k nset nset'
unfolding follow_loop Reads targets Followed Holds
follow_loop-Followed nfas ccls ecgroup nul_ec t [] [] k nset r room =
    (nset, ap (λ m. ok (m, nset)) (add_zero k), (tt, refl, λ j h. refl))
follow_loop-Followed nfas ccls ecgroup nul_ec t [] (n ∷ ns) k nset r room = absurd r
follow_loop-Followed nfas ccls ecgroup nul_ec t (i ∷ ds) [] k nset r room = absurd r
follow_loop-Followed nfas ccls ecgroup nul_ec t (i ∷ ds) (n ∷ ns) k nset (e, class, r) room =
    elim (Bool-cases (moves ccls ecgroup t n.transchar)) [
      | inl m ↦
          let nset1 = set nset (k + 1) n.trans1 in
          let len1 = length-set nset (k + 1) n.trans1 in
          let moved : k + 1 ≡ suc k = omega arith in
          let (nset', run, (holds, len, below)) =
            follow_loop-Followed nfas ccls ecgroup nul_ec t ds ns (k + 1) nset1 r (omega arith) in
          (
            nset',
            follow_loop_step nfas ccls ecgroup nul_ec t i ds n (k, nset) e class
                ∙ rw (m, put_step n.trans1 k nset (omega arith))
                    (run ∙ ap (λ c. ok (c, nset')) (omega arith)),
            (
              rw m (
                subst (λ a. get_elem? nset' a ≡ some n.trans1) moved
                    (below (k + 1) (omega arith)
                      ∙ get_elem?-set_self nset (k + 1) n.trans1 (omega arith)),
                subst (λ a. Holds nset' (suc a) (targets ccls ecgroup t ns)) moved holds,
              ),
              len ∙ len1,
              λ j h.
                  below j (omega arith)
                  ∙ get_elem?-set_ne nset (k + 1) j n.trans1 (λ q. absurd (omega arith)),
            ),
          )
      | inr m ↦
          let (nset', run, fol) =
            follow_loop-Followed nfas ccls ecgroup nul_ec t ds ns k nset r (omega arith) in
          (
            nset',
            follow_loop_step nfas ccls ecgroup nul_ec t i ds n (k, nset) e class
                ∙ rw (m, follow_step) run,
            rw m fol,
          )
    ]

-- For states that are there, whose classes are there as tables of class numbers, and an array with
-- room for them all: symfollowset stores, from index 1 on and in order, the successors of exactly
-- the states that move on the symbol, where a class moves on what it contains, negation included.
-- It returns their number and leaves index 0 and the length of the array alone.
pub symfollowset-targets :
    (nfas : List Nfa) (ccls : CharacterClasses) (ecgroup : ℕ → ℤ) (nul_ec t d : ℕ) (ds : List ℕ)
    (ns : List Nfa) (nset : List ℕ)
    → Reads nfas ccls ds ns
    → length ns < length nset
    → (nset' : List ℕ) × (symfollowset nfas ccls ecgroup nul_ec (d ∷ ds) t nset
        ≡ ok (length (targets ccls ecgroup t ns), nset'))
      × Holds nset' 1 (targets ccls ecgroup t ns)
      × (length nset' ≡ length nset)
      × (get_elem? nset' 0 ≡ get_elem? nset 0)
unfolding symfollowset Followed
symfollowset-targets nfas ccls ecgroup nul_ec t d ds ns nset r room =
    let (nset', run, (holds, len, below)) =
      follow_loop-Followed nfas ccls ecgroup nul_ec t ds ns 0 nset r (omega arith) in
    (
      nset',
      run ∙ ap (λ c. ok (c, nset')) (zero_add (length (targets ccls ecgroup t ns))),
      holds,
      len,
      below 0 (omega arith),
    )
