-- ===== src/CharacterTable.antt =====
-- `std::set<Character>` (CharacterTable of src/common.h): its elements in increasing order.
use flex_cmake_old.Prelude.{
  ℕ, ◌<◌, ◌≡◌, refl, ◌==◌, ltb, if◌then◌else◌, Bool, false, ◌||◌, List, [], ◌∷◌, All, arith, inl,
  inr, Bool-cases, ltb→lt,
}

abbrev pub CharacterTable : Type 0
CharacterTable = List ℕ

-- `t.find(ch) != t.end()`
unfoldable pub contains : ℕ → CharacterTable → Bool
contains ch [] = false
contains ch (x ∷ xs) = (ch == x) || contains ch xs

unfoldable pub insert : ℕ → CharacterTable → CharacterTable
insert ch [] = ch ∷ []
insert ch (x ∷ xs) = if ltb ch x then ch ∷ x ∷ xs else if ch == x then x ∷ xs else x ∷ insert ch xs

-- `t.insert(first, last)`
unfoldable pub insert_all : CharacterTable → CharacterTable → CharacterTable
unfolding insert
insert_all [] t = t
insert_all (c ∷ cs) t = insert_all cs (insert c t)

abbrev pub IsAscending : CharacterTable → Type 0
IsAscending [] = Unit
IsAscending (x ∷ xs) = All (λ y. x < y) xs × IsAscending xs

-- A table of symbols or class numbers, in which 0 is none.
unfoldable pub IsClassTable : CharacterTable → Type 0
IsClassTable t = IsAscending t × All (λ c. 0 < c) t

pub contains-insert :
    (c ch : ℕ) (t : CharacterTable) → contains c (insert ch t) ≡ ((c == ch) || contains c t)
unfolding contains insert
contains-insert c ch [] = refl
contains-insert c ch (x ∷ xs) = ground (arith, contains-insert c ch xs)

pub contains-insert_all :
    (c : ℕ) (cs t : CharacterTable) → contains c (insert_all cs t) ≡ (contains c cs || contains c t)
unfolding contains insert_all
contains-insert_all c [] t = refl
contains-insert_all c (x ∷ xs) t =
    ground (arith, contains-insert_all c xs (insert x t), contains-insert c x t)

All-insert :
    (m ch : ℕ) (t : CharacterTable) → m < ch → All (λ y. m < y) t → All (λ y. m < y) (insert ch t)
unfolding insert
All-insert m ch [] h a = (h, tt)
All-insert m ch (x ∷ xs) h a = ground (arith, All-insert m ch xs h a.1)

All-mono : (m n : ℕ) (t : CharacterTable) → m < n → All (λ y. n < y) t → All (λ y. m < y) t
All-mono m n [] h a = tt
All-mono m n (x ∷ xs) h a = (omega arith, All-mono m n xs h a.1)

-- The representation keeps its order.
pub insert-IsAscending : (ch : ℕ) (t : CharacterTable) → IsAscending t → IsAscending (insert ch t)
unfolding insert
insert-IsAscending ch [] a = (tt, tt)
insert-IsAscending ch (x ∷ xs) a = elim (Bool-cases (ltb ch x)) [
  | inl lt ↦ rw lt ((ltb→lt ch x lt, All-mono ch x xs (ltb→lt ch x lt) a.0), a)
  | inr ge ↦ rw ge (elim (Bool-cases (ch == x)) [
    | inl e ↦ rw e a
    | inr ne ↦ rw ne (All-insert x ch xs (ground arith) a.0, insert-IsAscending ch xs a.1)
  ])
]

pub insert_all-IsAscending : (cs t : CharacterTable) → IsAscending t → IsAscending (insert_all cs t)
unfolding insert_all
insert_all-IsAscending [] t a = a
insert_all-IsAscending (c ∷ cs) t a = insert_all-IsAscending cs _ (insert-IsAscending c t a)
