-- ===== src/Ccl/Table.antt =====
-- What the updates of src/ccl.cpp do to one class.
use flex_cmake_old.Prelude.{
  ℕ, ◌≡◌, ◌==◌, if◌then◌else◌, false, not, arith, inl, inr, Bool-cases, ==_iff,
}
use flex_cmake_old.CharacterTable.{contains, IsAscending, contains-insert, insert-IsAscending}
use flex_cmake_old.Ccl.{CharacterClass, class_contains, class_add, class_negate}

pub class_contains-class_add :
    (nlch ch x : ℕ) (c : CharacterClass)
    → class_contains (class_add nlch ch c) x ≡ (if x == ch then not c.ng else class_contains c x)
unfolding class_contains class_add
class_contains-class_add nlch ch x c = elim (Bool-cases (contains ch c.table)) [
  | inl old ↦
      rw old
        (elim (Bool-cases (x == ch)) [ inl e ↦ rw (e, (==_iff x ch).0 e, old) | inr ne ↦ rw ne ])
  | inr new ↦ rw (new, contains-insert x ch c.table) (ground arith)
]

pub class_contains-class_negate :
    (x : ℕ) (c : CharacterClass) → class_contains (class_negate c) x ≡ not (contains x c.table)
unfolding class_contains class_negate
class_contains-class_negate x c = ground arith

-- `has_nl` says whether the class contains the newline.
abbrev pub FlagsNewline : ℕ → CharacterClass → Type 0
FlagsNewline nlch c = c.has_nl ≡ class_contains c nlch

-- Adding a character to a class that is not negated keeps `has_nl` true exactly when the class
-- contains the newline.
pub class_add-FlagsNewline :
    (nlch ch : ℕ) (c : CharacterClass)
    → c.ng ≡ false
    → FlagsNewline nlch c
    → FlagsNewline nlch (class_add nlch ch c)
unfolding class_add class_contains
class_add-FlagsNewline nlch ch c h f =
    ground (arith, contains-insert nlch ch c.table, class_contains-class_add nlch ch nlch c)

pub class_negate-FlagsNewline :
    (nlch : ℕ) (c : CharacterClass)
    → c.ng ≡ false
    → FlagsNewline nlch c
    → FlagsNewline nlch (class_negate c)
unfolding class_negate class_contains
class_negate-FlagsNewline nlch c h f = ground arith

pub class_add-IsAscending :
    (nlch ch : ℕ) (c : CharacterClass)
    → IsAscending c.table
    → IsAscending (class_add nlch ch c).table
unfolding class_add
class_add-IsAscending nlch ch c a = elim (Bool-cases (contains ch c.table)) [
  | inl old ↦ rw old a
  | inr new ↦ rw new (insert-IsAscending ch c.table a)
]
