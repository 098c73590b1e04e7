-- ===== src/Dfa/Closure/Spec.antt =====
-- The closure by epsilon transitions as a relation, and the lists of states that are visited once.
use flex_cmake_old.Prelude.{
  ℕ, zero, suc, ◌+◌, ◌≤◌, ◌<◌, ◌≡◌, ◌⊎◌, inl, inr, refl, arith, ◌==◌, if◌then◌else◌, Bool-cases,
  true, false, ◌||◌, List, [], ◌∷◌, ◌++◌, length, get_elem?, some,
}
use flex_cmake_old.Prelude.Int.{pos}
use flex_cmake_old.Common.{ok, at}
use flex_cmake_old.CharacterTable.{contains}
use flex_cmake_old.Nfa.State.{Nfa, StateType, is_epsilon}

abbrev pub no_node : Nfa
no_node = record {
  firstst = 0;
  lastst = 0;
  finalst = 0;
  transchar = pos 0;
  trans1 = 0;
  trans2 = 0;
  accptnum = 0;
  assoc_rule = 0;
  state_type = StateType.normal;
}

unfoldable pub node_at : List Nfa → ℕ → Nfa
node_at [] v = no_node
node_at (n ∷ nfas) zero = n
node_at (n ∷ nfas) (suc v) = node_at nfas v

pub at-node_at : (nfas : List Nfa) (v : ℕ) → v < length nfas → at nfas v ≡ ok (node_at nfas v)
unfolding at node_at
at-node_at [] v h = absurd (omega arith)
at-node_at (n ∷ nfas) zero h = refl
at-node_at (n ∷ nfas) (suc v) h = at-node_at nfas v (omega arith)

-- The epsilon transitions: the second counts only where there is a first.
abbrev pub Edge : List Nfa → ℕ → ℕ → Type 0
Edge nfas u w =
    (is_epsilon (node_at nfas u).transchar ≡ true)
    × (0 < (node_at nfas u).trans1)
    × (0 < w)
    × ((w ≡ (node_at nfas u).trans1) ⊎ (w ≡ (node_at nfas u).trans2))

-- The states that epsilon transitions lead to from one of `init`.
pub data Reach (nfas : List Nfa) (init : List ℕ) : ℕ → Type 0 where
  here : {v : ℕ} → contains v init ≡ true → Reach nfas init v
  step : {u w : ℕ} → Reach nfas init u → Edge nfas u w → Reach nfas init w

-- The transitions of all states lead to states, whose number is below the difference of the marks.
pub record IsBounded (nfas : List Nfa) : Type 0 where
  pub first : (v : ℕ) → (node_at nfas v).trans1 < length nfas
  pub second : (v : ℕ) → (node_at nfas v).trans2 < length nfas
  pub size : length nfas ≤ 1_000_000_000

pub contains-snoc :
    (v x : ℕ) (xs : List ℕ) → contains v (xs ++ (x ∷ [])) ≡ (contains v xs || (v == x))
unfolding contains
contains-snoc v x [] = ground arith
contains-snoc v x (y ∷ xs) = ground (arith, contains-snoc v x xs)

pub contains-append :
    (v : ℕ) (xs ys : List ℕ) → contains v (xs ++ ys) ≡ (contains v xs || contains v ys)
unfolding contains
contains-append v [] ys = refl
contains-append v (y ∷ xs) ys = ground (arith, contains-append v xs ys)

pub contains-get_elem? : (xs : List ℕ) (i v : ℕ) → get_elem? xs i ≡ some v → contains v xs ≡ true
unfolding contains
contains-get_elem? [] i v h = cc
contains-get_elem? (x ∷ xs) zero v h = ground arith
contains-get_elem? (x ∷ xs) (suc i) v h = ground (arith, contains-get_elem? xs i v h)

pub index_of : (v : ℕ) (xs : List ℕ) → contains v xs ≡ true → (i : ℕ) × (get_elem? xs i ≡ some v)
unfolding contains
index_of v [] h = cc
index_of v (x ∷ xs) h = elim (Bool-cases (v == x)) [
  | inl e ↦ (0, ground arith)
  | inr e ↦ let (i, f) = index_of v xs (ground arith) in (suc i, f)
]

-- No element twice.
unfoldable pub IsDistinct : List ℕ → Type 0
IsDistinct [] = Unit
IsDistinct (x ∷ xs) = (contains x xs ≡ false) × IsDistinct xs

pub IsDistinct-snoc :
    (x : ℕ) (xs : List ℕ) → IsDistinct xs → contains x xs ≡ false → IsDistinct (xs ++ (x ∷ []))
unfolding IsDistinct contains
IsDistinct-snoc x [] d h = (refl, tt)
IsDistinct-snoc x (y ∷ xs) (n, d) h =
    (ground (arith, contains-snoc y x xs), IsDistinct-snoc x xs d (ground arith))

-- The numbers below `n` that are not in the list.
unfoldable pub unseen : (n : ℕ) → List ℕ → ℕ
unseen zero xs = 0
unseen (suc n) xs = (if contains n xs then 0 else 1) + unseen n xs

pub unseen-nil : (n : ℕ) → unseen n [] ≡ n
unfolding unseen contains
unseen-nil zero = refl
unseen-nil (suc n) = omega (arith, unseen-nil n)

unseen-same : (n x : ℕ) (xs : List ℕ) → n ≤ x → unseen n (xs ++ (x ∷ [])) ≡ unseen n xs
unfolding unseen
unseen-same zero x xs h = refl
unseen-same (suc n) x xs h = ground (arith, contains-snoc n x xs, unseen-same n x xs)

pub unseen-snoc :
    (n x : ℕ) (xs : List ℕ)
    → x < n
    → contains x xs ≡ false
    → suc (unseen n (xs ++ (x ∷ []))) ≡ unseen n xs
unfolding unseen
unseen-snoc zero x xs h e = absurd (omega arith)
unseen-snoc (suc n) x xs h e = elim (Bool-cases (n == x)) [
  | inl q ↦ ground (arith, contains-snoc n x xs, unseen-same n x xs)
  | inr q ↦ ground (arith, contains-snoc n x xs, unseen-snoc n x xs)
]
