-- ===== src/Context/Blank.antt =====
-- `setMaxEmptyLines` and `emptyLines` of src/context.cpp.
pub mod Limits
use flex_cmake_old.Prelude.{
  ℕ, zero, suc, ◌+◌, ◌-◌, ◌<◌, ◌≤◌, ◌≡◌, refl, ap, ◌∙◌, sym, arith, ◌==◌, ltb, leb, if◌then◌else◌,
  Bool, Bool-cases, inl, inr, true, false, not, ◌&&◌, ◌||◌, List, [], ◌∷◌, ◌++◌, length, take,
  replicate,
}
use flex_cmake_old.Misc.Strings.{Codes}
use flex_cmake_old.Context.{Line, is_space, plain_line}

unfoldable pub all_space : Codes → Bool
unfolding is_space
all_space [] = true
all_space (c ∷ s) = is_space c && all_space s

abbrev pub is_blank : Line → Bool
is_blank l = all_space l.text

unfoldable pub drop_blank : List Line → List Line
unfolding all_space
drop_blank [] = []
drop_blank (l ∷ ls) = let rest = drop_blank ls in if is_blank l then rest else l ∷ ls

-- `el` counts the empty lines before; a line that is erased is counted.
unfoldable pub limit_blank : (n el : ℕ) → List Line → List Line
unfolding all_space
limit_blank n el [] = []
limit_blank n el (l ∷ ls) =
    let more = limit_blank n (el + 1) ls in
    let fresh = limit_blank n 0 ls in
    if is_blank l then if ltb n (el + 1) then more else l ∷ more else l ∷ fresh

-- `n` is not negative.
unfoldable pub set_max_empty_lines : (n : ℕ) → List Line → List Line
unfolding drop_blank limit_blank
set_max_empty_lines n ls = limit_blank n 0 (drop_blank ls)

unfoldable pub no_text : Line → Bool
no_text l = elim l.text [ [] ↦ true | c ∷ s ↦ false ]

-- The lines without text at the end: `e`. The count goes from the last line on.
unfoldable pub all_empty : List Line → Bool
unfolding no_text
all_empty [] = true
all_empty (l ∷ ls) = no_text l && all_empty ls

unfoldable pub count_empty : List Line → ℕ
unfolding all_empty
count_empty [] = 0
count_empty (l ∷ ls) = let rest = count_empty ls in if all_empty (l ∷ ls) then suc rest else rest

-- `n` is not negative.
unfoldable pub empty_lines : (n : ℕ) → List Line → List Line
unfolding count_empty
empty_lines n ls =
    let e = count_empty ls in
    if ltb e n
    then ls ++ replicate (n - e) (plain_line [])
    else if ltb n e
    then take (length ls - (e - n)) ls
    else ls
