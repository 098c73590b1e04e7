-- ===== src/Ccl/Add.antt =====
-- `ccladd` and `cclnegate` of src/ccl.cpp on the vector of classes.
use flex_cmake_old.Prelude.{
  ℕ, ◌≤◌, ◌<◌, ◌≡◌, ◌≢◌, ◌==◌, if◌then◌else◌, not, some, length, get_elem?, set, arith,
  get_elem?-set_self, get_elem?-set_ne, lt_of_get_elem?, length-set,
}
use flex_cmake_old.Common.{ok, at-some, check_char, csize_max}
use flex_cmake_old.CharacterTable.{contains}
use flex_cmake_old.Ccl.{
  CharacterClass, CharacterClasses, class_contains, class_add, class_negate, ccl_contains, ccladd,
  cclnegate,
}
use flex_cmake_old.Ccl.Table.{class_contains-class_add, class_contains-class_negate}

pub ccl_contains-some :
    (ccls : CharacterClasses) (i x : ℕ) {c : CharacterClass}
    → get_elem? ccls i ≡ some c
    → ccl_contains ccls i x ≡ ok (class_contains c x)
unfolding ccl_contains
ccl_contains-some ccls i x e = rw (at-some ccls i e)

pub ccladd-some :
    (csize nlch : ℕ) (ccls : CharacterClasses) (i ch : ℕ) {c : CharacterClass}
    → csize ≤ csize_max
    → ch < csize
    → get_elem? ccls i ≡ some c
    → ccladd csize nlch ccls i ch ≡ ok (set ccls i (class_add nlch ch c))
unfolding ccladd check_char
ccladd-some csize nlch ccls i ch m h e = rw (at-some ccls i e) (ground arith)

-- For an allowed character and an existing class, `ccladd` succeeds, makes the class contain
-- exactly one more character (take one out, if the class is negated), leaves every other class,
-- and adds no class.
pub ccladd_contains :
    (csize nlch : ℕ) (ccls : CharacterClasses) (i ch : ℕ) {c : CharacterClass}
    → csize ≤ csize_max
    → ch < csize
    → get_elem? ccls i ≡ some c
    → (ccls' : CharacterClasses) × (ccladd csize nlch ccls i ch ≡ ok ccls')
      × ((x : ℕ) → ccl_contains ccls' i x ≡ ok (if x == ch then not c.ng else class_contains c x))
      × ((j : ℕ) → i ≢ j → get_elem? ccls' j ≡ get_elem? ccls j)
      × (length ccls' ≡ length ccls)
ccladd_contains csize nlch ccls i ch {c} m h e = (
  set ccls i (class_add nlch ch c),
  ccladd-some csize nlch ccls i ch m h e,
  λ x.
      rw (← class_contains-class_add nlch ch x c)
        (ccl_contains-some _ i x (get_elem?-set_self ccls i _ (lt_of_get_elem? ccls i e))),
  λ j ne. get_elem?-set_ne ccls i j _ ne,
  length-set ccls i _,
)

-- `cclnegate` makes a class contain exactly the characters that are not in its table.
pub cclnegate-contains :
    (ccls : CharacterClasses) (i : ℕ) {c : CharacterClass}
    → get_elem? ccls i ≡ some c
    → (ccls' : CharacterClasses) × (cclnegate ccls i ≡ ok ccls')
      × ((x : ℕ) → ccl_contains ccls' i x ≡ ok (not (contains x c.table)))
      × ((j : ℕ) → i ≢ j → get_elem? ccls' j ≡ get_elem? ccls j)
unfolding cclnegate
cclnegate-contains ccls i {c} e = (
  set ccls i (class_negate c),
  rw (at-some ccls i e),
  λ x.
      rw (← class_contains-class_negate x c)
        (ccl_contains-some _ i x (get_elem?-set_self ccls i _ (lt_of_get_elem? ccls i e))),
  λ j ne. get_elem?-set_ne ccls i j _ ne,
)
