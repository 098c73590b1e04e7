-- ===== src/Ecs/Classes.antt =====
-- What the numbers of `cre8ecs` and the tables of `ccl2ecl` mean.
use native.Mathlib.Nat.{add-zero, add-suc}
use flex_cmake_old.Prelude.{
  ℕ, zero, suc, ◌+◌, ◌-◌, ◌≤◌, ◌<◌, ◌≡◌, ◌≢◌, ◌∙◌, ◌↔◌, refl, ap, ◌==◌, leb, Bool, true, false,
  ◌&&◌, ◌||◌, [], get_elem?, map, some, ◌∷◌, arith, inl, inr, Bool-cases, ==_iff, ==_refl, le→leb,
}
use flex_cmake_old.Prelude.Int.{ℤ, pos, neg, abs, is_positive, abs-neg}
use flex_cmake_old.CharacterTable.{CharacterTable, contains, contains-insert}
use flex_cmake_old.Ccl.{CharacterClass, CharacterClasses}
use flex_cmake_old.Ecs.{Links, cre8ecs, ecl_loop, class_to_ecl, ccl2ecl}
use flex_cmake_old.Ecs.Linked.{IsLinked}
use flex_cmake_old.Ecs.Leader.{leader, leader_nil, leader-le, leader-ne-zero, bck-leader}
use flex_cmake_old.Ecs.Number.{
  rank, rank_pos, numbered, numbered_leads, numbered_member, cre8ecs-Done,
}

rank_mono : (l : Links) (i k : ℕ) → rank l i ≤ rank l (i + k)
unfolding rank
rank_mono l i zero = rw add-zero (omega arith)
rank_mono l i (suc k) = rw add-suc (omega (arith, rank_mono l i k))

-- The least leader with a given rank.
rank_reached :
    (l : Links) (k i : ℕ)
    → 0 < k
    → k ≤ rank l i
    → (x : ℕ) × (x ≤ i) × (x ≢ 0) × (l.bck x ≡ 0) × (rank l x ≡ k)
unfolding rank
rank_reached l k zero p h = absurd (omega arith)
rank_reached l k (suc i) p h = elim (Bool-cases (leb k (rank l i))) [
  | inl below ↦
      let (x, a, b, c, d) = rank_reached l k i p (ground arith) in (x, omega arith, b, c, d)
  | inr top ↦ (suc i, omega arith, omega arith, ground arith, ground arith)
]

sub_sum : (i j : ℕ) → i ≤ j → i + (j - i) ≡ j
sub_sum i j h = omega arith

module _ {num : ℕ} {l : Links} (w : IsLinked num l) where
  rank_lt : (i j : ℕ) → i < j → l.bck j ≡ 0 → rank l i < rank l j
  unfolding rank
  rank_lt i zero h e = absurd (omega arith)
  rank_lt i (suc j) h e =
      rw e (omega (arith, ap (rank l) (sub_sum i j (omega arith)), rank_mono l i (j - i)))

  rank_injective : (i j : ℕ) → l.bck i ≡ 0 → l.bck j ≡ 0 → rank l i ≡ rank l j → i ≡ j
  rank_injective i j a b e = ground (arith, rank_lt i j, rank_lt j i)

  abs-numbered : (x : ℕ) → abs (numbered l x) ≡ rank l (leader l x)
  abs-numbered x = elim (Bool-cases (l.bck x == 0)) [
    | inl nil ↦ let e : l.bck x ≡ 0 = ground arith in rw (numbered_leads w x e, leader_nil w x e)
    | inr behind ↦ rw (numbered_member w x (ground arith), abs-neg)
  ]

  rank_le : (i j : ℕ) → i ≤ j → rank l i ≤ rank l j
  rank_le i j h = omega (arith, ap (rank l) (sub_sum i j h), rank_mono l i (j - i))

  is_positive-neg : (n : ℕ) → is_positive (neg n) ≡ false
  is_positive-neg zero = refl
  is_positive-neg (suc n) = refl

  is_positive-pos : (n : ℕ) → 0 < n → is_positive (pos n) ≡ true
  is_positive-pos zero h = absurd (omega arith)
  is_positive-pos (suc n) h = refl

  positive_leads : (x : ℕ) → x ≢ 0 → (is_positive (numbered l x) ≡ true) ↔ (leader l x ≡ x)
  positive_leads x m = elim (Bool-cases (l.bck x == 0)) [
    | inl nil ↦
        let e : l.bck x ≡ 0 = ground arith in
        rw (numbered_leads w x e) (λ h. leader_nil w x e, λ h. is_positive-pos _ (rank_pos w x m e))
    | inr behind ↦
        rw (numbered_member w x (ground arith), is_positive-neg (rank l (leader l x)))
          (λ h. cc, λ h. ground (arith, bck-leader w x))
  ]

  entry : (x : ℕ) → x ≤ num → (cre8ecs l num).1 x ≡ numbered l x
  entry x h = (cre8ecs-Done w).entry x ∙ rw (le→leb (leader l x) num (omega (arith, leader-le w x)))

  -- `cre8ecs` gives two members of 1 .. num the same class number (up to sign) exactly when they are
  -- in one class. The numbers are 1 .. numcl, each with a member that holds it positively, and the
  -- members with a positive entry are the leaders.
  pub cre8ecs_classes :
      ((x y : ℕ)
        → x ≤ num
        → y ≤ num
        → (abs ((cre8ecs l num).1 x) ≡ abs ((cre8ecs l num).1 y)) ↔ (leader l x ≡ leader l y))
      × ((x : ℕ)
          → x ≢ 0
          → x ≤ num
          → (0 < abs ((cre8ecs l num).1 x)) × (abs ((cre8ecs l num).1 x) ≤ (cre8ecs l num).0))
      × ((k : ℕ)
          → 0 < k
          → k ≤ (cre8ecs l num).0
          → (x : ℕ) × (x ≢ 0) × (x ≤ num) × ((cre8ecs l num).1 x ≡ pos k))
      × ((x : ℕ) → x ≢ 0 → x ≤ num → (is_positive ((cre8ecs l num).1 x) ≡ true) ↔ (leader l x ≡ x))
  cre8ecs_classes = (
    λ x y p q.
        rw (entry x p, entry y q, abs-numbered x, abs-numbered y)
          (
            rank_injective (leader l x) (leader l y) (bck-leader w x) (bck-leader w y),
            λ e. ap (rank l) e,
          ),
    λ x m p.
        rw (entry x p, abs-numbered x, (cre8ecs-Done w).count)
          (
            rank_pos w (leader l x) (leader-ne-zero w x m) (bck-leader w x),
            rank_le (leader l x) num (omega (arith, leader-le w x)),
          ),
    λ k p h.
        let (x, a, b, c, d) = rank_reached l k num p (omega (arith, (cre8ecs-Done w).count)) in
        (x, b, a, entry x a ∙ numbered_leads w x c ∙ ap pos d),
    λ x m p. rw (entry x p) (positive_leads x m),
  )

-- A member of the table has the entry `pos k`.
stands : (ℕ → ℤ) → (k : ℕ) → CharacterTable → Bool
stands ecgroup k [] = false
stands ecgroup k (c ∷ cs) =
    (is_positive (ecgroup c) && (k == abs (ecgroup c))) || stands ecgroup k cs

contains-ecl_loop :
    (ecgroup : ℕ → ℤ) (k : ℕ) (t new_table : CharacterTable)
    → contains k (ecl_loop ecgroup t new_table) ≡ (contains k new_table || stands ecgroup k t)
unfolding ecl_loop stands
contains-ecl_loop ecgroup k [] new_table = ground arith
contains-ecl_loop ecgroup k (c ∷ cs) new_table = elim (Bool-cases (is_positive (ecgroup c))) [
  | inl p ↦ rw p (
      contains-ecl_loop ecgroup k cs _
      ∙ ground (arith, contains-insert k (abs (ecgroup c)) new_table))
  | inr n ↦ rw n (contains-ecl_loop ecgroup k cs new_table)
]

stands_of_contains :
    (ecgroup : ℕ → ℤ) (k x : ℕ) (t : CharacterTable)
    → contains x t ≡ true
    → is_positive (ecgroup x) ≡ true
    → abs (ecgroup x) ≡ k
    → stands ecgroup k t ≡ true
unfolding contains stands
stands_of_contains ecgroup k x [] h p e = cc
stands_of_contains ecgroup k x (c ∷ cs) h p e = elim (Bool-cases (x == c)) [
  | inl same ↦ rw (← (==_iff x c).0 same, p, e, ==_refl k)
  | inr other ↦ ground (arith, stands_of_contains ecgroup k x cs)
]

contains_of_stands :
    (ecgroup : ℕ → ℤ) (k : ℕ) (t : CharacterTable)
    → stands ecgroup k t ≡ true
    → (x : ℕ) × (contains x t ≡ true) × (abs (ecgroup x) ≡ k)
unfolding contains stands
contains_of_stands ecgroup k [] h = cc
contains_of_stands ecgroup k (c ∷ cs) h =
    elim (Bool-cases (is_positive (ecgroup c) && (k == abs (ecgroup c)))) [
      | inl here ↦ (c, rw (==_refl c), ground arith)
      | inr later ↦
          let (x, a, b) = contains_of_stands ecgroup k cs (ground arith) in (x, ground arith, b)
    ]

-- The table is made of whole equivalence classes.
abbrev pub IsWhole : (ℕ → ℤ) → CharacterTable → Type 0
IsWhole ecgroup t = (x y : ℕ) → abs (ecgroup x) ≡ abs (ecgroup y) → contains x t ≡ contains y t

contains_nil : (x : ℕ) → contains x [] ≡ false
unfolding contains
contains_nil x = refl

module _ (ecgroup : ℕ → ℤ) (c : CharacterClass) (whole : IsWhole ecgroup c.table) (x y : ℕ)
    (leads : is_positive (ecgroup y) ≡ true) (e : abs (ecgroup y) ≡ abs (ecgroup x)) where
  stands_of_whole : stands ecgroup (abs (ecgroup x)) c.table ≡ contains x c.table
  stands_of_whole = elim (Bool-cases (contains x c.table)) [
    | inl has ↦
        rw has (stands_of_contains ecgroup (abs (ecgroup x)) y c.table (whole y x e ∙ has) leads e)
    | inr hasnt ↦ rw hasnt (elim (Bool-cases (stands ecgroup (abs (ecgroup x)) c.table)) [
      | inl s ↦ let (z, h, ez) = contains_of_stands ecgroup _ c.table s in cc (whole z x ez)
      | inr n ↦ n
    ])
  ]

  class_to_ecl_table :
      contains (abs (ecgroup x)) (class_to_ecl ecgroup c).table ≡ contains x c.table
  unfolding class_to_ecl
  class_to_ecl_table =
      contains-ecl_loop ecgroup (abs (ecgroup x)) c.table []
      ∙ rw (contains_nil (abs (ecgroup x))) stands_of_whole

get_elem?-map :
    (f : CharacterClass → CharacterClass) (cs : CharacterClasses) (i : ℕ) {c : CharacterClass}
    → get_elem? cs i ≡ some c
    → get_elem? (map f cs) i ≡ some (f c)
get_elem?-map f [] i h = cc
get_elem?-map f (c ∷ cs) zero h = cc
get_elem?-map f (c ∷ cs) (suc i) h = get_elem?-map f cs i h

-- `ccl2ecl` turns every class but class 0 into a set of class numbers, with its flags kept: it
-- contains the number of a character's equivalence class exactly when the old table contained the
-- character. The old table has to be made of whole equivalence classes, and the character's to
-- have a member `y` with a positive entry.
pub ccl2ecl_members :
    (ecgroup : ℕ → ℤ) (ccls : CharacterClasses) (i : ℕ) {c : CharacterClass}
    → get_elem? ccls (suc i) ≡ some c
    → IsWhole ecgroup c.table
    → (c' : CharacterClass) × (get_elem? (ccl2ecl ecgroup ccls) (suc i) ≡ some c')
      × (c'.ng ≡ c.ng)
      × (c'.has_nl ≡ c.has_nl)
      × ((x y : ℕ)
          → is_positive (ecgroup y) ≡ true
          → abs (ecgroup y) ≡ abs (ecgroup x)
          → contains (abs (ecgroup x)) c'.table ≡ contains x c.table)
unfolding ccl2ecl
ccl2ecl_members ecgroup [] i h whole = cc
ccl2ecl_members ecgroup (c0 ∷ cs) i {c} h whole = (
  class_to_ecl ecgroup c,
  get_elem?-map (class_to_ecl ecgroup) cs i h,
  refl,
  refl,
  λ x y leads e. class_to_ecl_table ecgroup c whole x y leads e,
)
