-- ===== src/Tests/CclRuns.antt =====
-- Character classes as src/parse.y builds them: [a-c] and a negated [b\n].
use flex_cmake_old.Prelude.{
  ℕ, ◌≡◌, ◌≢◌, ◌↔◌, refl, ◌==◌, ltb, if◌then◌else◌, true, false, not, ◌&&◌, ◌||◌, [], ◌∷◌, ◌++◌,
  length, get_elem?, arith,
}
use flex_cmake_old.Common.{ok}
use flex_cmake_old.CharacterTable.{contains, IsAscending}
use flex_cmake_old.Ccl.{
  CharacterClass, CharacterClasses, class_contains, ccl_contains, ccladd, ccl_set_diff,
  ccl_set_union, range_covers_case, empty_class,
}
use flex_cmake_old.Ccl.Add.{ccladd_contains}
use flex_cmake_old.Ccl.Case.{HoldsBothCases, range_covers_case_iff}
use flex_cmake_old.Ccl.Sets.{ccl_set_diff_members, ccl_set_union_members}

abbrev letters : CharacterClass
letters = record { table = b'a' ∷ b'b' ∷ b'c' ∷ []; ng = false; has_nl = false }

abbrev others : CharacterClass
others = record { table = 10 ∷ b'b' ∷ []; ng = true; has_nl = false }

abbrev classes : CharacterClasses
classes = empty_class ∷ letters ∷ others ∷ []

ccladd_contains_example :
    (ccls' : CharacterClasses) × (ccladd 256 10 classes 1 10 ≡ ok ccls')
    × ((x : ℕ) → ccl_contains ccls' 1 x ≡ ok (if x == 10 then true else class_contains letters x))
    × ((j : ℕ) → 1 ≢ j → get_elem? ccls' j ≡ get_elem? classes j)
    × (length ccls' ≡ 3)
ccladd_contains_example = ccladd_contains 256 10 classes 1 10 (omega arith) (omega arith) refl

ccl_set_diff_members_example :
    (c : CharacterClass) × (ccl_set_diff 256 10 classes 1 2 ≡ ok (3, classes ++ (c ∷ [])))
    × ((x : ℕ)
        → class_contains c x
          ≡ (ltb x 256 && (class_contains letters x && not (class_contains others x))))
    × (c.ng ≡ false)
    × (c.has_nl ≡ class_contains c 10)
    × IsAscending c.table
ccl_set_diff_members_example = ccl_set_diff_members 256 10 classes 1 2 (omega arith) refl refl

ccl_set_union_members_example :
    (c : CharacterClass) × (ccl_set_union classes 1 2 ≡ ok (3, classes ++ (c ∷ [])))
    × ((x : ℕ) → class_contains c x ≡ (contains x letters.table || contains x others.table))
    × (c.ng ≡ false)
    × (c.has_nl ≡ false)
    × IsAscending c.table
ccl_set_union_members_example = ccl_set_union_members classes 1 2 refl refl

-- The range from `@` to `_` holds capitals without their small letters.
range_at_underscore : range_covers_case b'@' b'_' ≡ false
unfolding range_covers_case
range_at_underscore = refl

range_covers_case_iff_example : (range_covers_case b'@' b'_' ≡ true) ↔ HoldsBothCases b'@' b'_'
range_covers_case_iff_example = range_covers_case_iff b'@' b'_'
