-- ===== src/Tests/EcsRuns.antt =====
-- The classes of a scanner with six characters in which 2 and 5 have transitions of their own.
use flex_cmake_old.Prelude.{
  ℕ, ◌==◌, if◌then◌else◌, ◌≤◌, ◌<◌, ◌≡◌, ◌≢◌, ◌↔◌, refl, true, false, some, [], ◌∷◌, map, get_elem?,
  arith,
}
use flex_cmake_old.Prelude.Int.{ℤ, pos, negsuc, abs, is_positive}
use flex_cmake_old.CharacterTable.{contains, IsClassTable}
use flex_cmake_old.Ccl.{CharacterClass, empty_class}
use flex_cmake_old.Ecs.{Links, one_class, mkechar, cre8ecs, ccl2ecl}
use flex_cmake_old.Ecs.Partition.{Flags, mkeccl}
use flex_cmake_old.Ecs.Partition.Correct.{PartsBy}
use flex_cmake_old.Ecs.Partition.Nul.{PartsWithNul, mkeccl_classes}
use flex_cmake_old.Ecs.Linked.{IsLinked, one_class-IsLinked, mkechar-IsLinked}
use flex_cmake_old.Ecs.Leader.{leader}
use flex_cmake_old.Ecs.Split.{mkechar_classes}
use flex_cmake_old.Ecs.Classes.{IsWhole, cre8ecs_classes, ccl2ecl_members}

abbrev six : Links
six = one_class 6

mkechar-IsLinked_example : IsLinked 6 (mkechar 2 six)
mkechar-IsLinked_example = mkechar-IsLinked (one_class-IsLinked 6) 2 (omega arith)

mkechar_classes_example :
    ((x : ℕ) → x ≢ 0 → x ≢ 2 → leader (mkechar 2 six) x ≢ leader (mkechar 2 six) 2)
    × ((x y : ℕ)
        → x ≢ 2
        → y ≢ 2
        → (leader (mkechar 2 six) x ≡ leader (mkechar 2 six) y) ↔ (leader six x ≡ leader six y))
mkechar_classes_example = mkechar_classes (one_class-IsLinked 6) 2 (omega arith)

-- After parting 2 and 5 the members 1, 3, 4 and 6 share number 1.
numbers :
    map (cre8ecs (mkechar 5 (mkechar 2 six)) 6).1 (1 ∷ 2 ∷ 3 ∷ 4 ∷ 5 ∷ 6 ∷ [])
    ≡ pos 1 ∷ pos 2 ∷ negsuc 0 ∷ negsuc 0 ∷ pos 3 ∷ negsuc 0 ∷ []
unfolding cre8ecs mkechar one_class
numbers = refl

cre8ecs_classes_example :
    ((x y : ℕ)
      → x ≤ 6
      → y ≤ 6
      → (abs ((cre8ecs (mkechar 2 six) 6).1 x) ≡ abs ((cre8ecs (mkechar 2 six) 6).1 y))
        ↔ (leader (mkechar 2 six) x ≡ leader (mkechar 2 six) y))
    × ((x : ℕ)
        → x ≢ 0
        → x ≤ 6
        → (0 < abs ((cre8ecs (mkechar 2 six) 6).1 x))
          × (abs ((cre8ecs (mkechar 2 six) 6).1 x) ≤ (cre8ecs (mkechar 2 six) 6).0))
    × ((k : ℕ)
        → 0 < k
        → k ≤ (cre8ecs (mkechar 2 six) 6).0
        → (x : ℕ) × (x ≢ 0) × (x ≤ 6) × ((cre8ecs (mkechar 2 six) 6).1 x ≡ pos k))
    × ((x : ℕ)
        → x ≢ 0
        → x ≤ 6
        → (is_positive ((cre8ecs (mkechar 2 six) 6).1 x) ≡ true) ↔ (leader (mkechar 2 six) x ≡ x))
cre8ecs_classes_example = cre8ecs_classes (mkechar-IsLinked (one_class-IsLinked 6) 2 (omega arith))

-- Characters 1 and 2 are one class, led by 1, and the character class holds both.
abbrev groups : ℕ → ℤ
groups x = if x == 1 then pos 1 else if x == 2 then negsuc 0 else pos 2

abbrev pair : CharacterClass
pair = record { table = 1 ∷ 2 ∷ []; ng = true; has_nl = false }

pair-IsWhole : IsWhole groups pair.table
unfolding contains
pair-IsWhole x y e = ground arith

ccl2ecl_members_example :
    (c' : CharacterClass) × (get_elem? (ccl2ecl groups (empty_class ∷ pair ∷ [])) 1 ≡ some c')
    × (c'.ng ≡ true)
    × (c'.has_nl ≡ false)
    × ((x y : ℕ)
        → is_positive (groups y) ≡ true
        → abs (groups y) ≡ abs (groups x)
        → contains (abs (groups x)) c'.table ≡ contains x pair.table)
ccl2ecl_members_example = ccl2ecl_members groups (empty_class ∷ pair ∷ []) 0 refl pair-IsWhole

-- The classes of 1 .. 6 parted along 2, 4 and 6, and then along 4 and 5.
abbrev parted : Links × Flags
parted = mkeccl (4 ∷ 5 ∷ []) 6 0 (mkeccl (2 ∷ 4 ∷ 6 ∷ []) 6 0 (six, λ i. false))

parted_leaders : map (leader parted.0) (1 ∷ 2 ∷ 3 ∷ 4 ∷ 5 ∷ 6 ∷ []) ≡ 1 ∷ 2 ∷ 1 ∷ 4 ∷ 5 ∷ 2 ∷ []
unfolding mkeccl leader one_class
parted_leaders = refl

-- The table of NUL and 5, where NUL stands for 6: the two were together and are not any more.
abbrev nul_and_five : Links × Flags
nul_and_five = mkeccl (0 ∷ 5 ∷ []) 6 6 (six, λ i. false)

nul_and_five_leaders :
    map (leader nul_and_five.0) (1 ∷ 2 ∷ 3 ∷ 4 ∷ 5 ∷ 6 ∷ []) ≡ 1 ∷ 1 ∷ 1 ∷ 1 ∷ 5 ∷ 6 ∷ []
unfolding mkeccl leader one_class
nul_and_five_leaders = refl

mkeccl_classes_example :
    (IsLinked 6 (mkeccl (2 ∷ 4 ∷ 6 ∷ []) 6 0 (six, λ i. false)).0
      × PartsBy
          (λ x. contains x (2 ∷ 4 ∷ 6 ∷ []))
          six
          (mkeccl (2 ∷ 4 ∷ 6 ∷ []) 6 0 (six, λ i. false)).0
      × ((j : ℕ) → (mkeccl (2 ∷ 4 ∷ 6 ∷ []) 6 0 (six, λ i. false)).1 j ≡ false))
    × (IsLinked 6 (mkeccl (0 ∷ 2 ∷ 4 ∷ 6 ∷ []) 6 6 (six, λ i. false)).0
        × PartsWithNul 6 (2 ∷ 4 ∷ 6 ∷ []) six (mkeccl (0 ∷ 2 ∷ 4 ∷ 6 ∷ []) 6 6 (six, λ i. false)).0
        × ((j : ℕ) → (mkeccl (0 ∷ 2 ∷ 4 ∷ 6 ∷ []) 6 6 (six, λ i. false)).1 j ≡ false))
unfolding IsClassTable
mkeccl_classes_example =
    mkeccl_classes 6 0 (2 ∷ 4 ∷ 6 ∷ []) six (λ i. false) (one_class-IsLinked 6) (omega arith)
      (
        ((omega arith, (omega arith, tt)), ((omega arith, tt), (tt, tt))),
        (omega arith, (omega arith, (omega arith, tt))),
      )
      (λ j. refl)
