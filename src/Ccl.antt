-- ===== src/Ccl.antt =====
-- Character classes: src/ccl.cpp, and CharacterClass of src/common.h.
-- The vector `ccls` is passed in and returned; a class is named by its index in it.
pub mod Table
pub mod Add
pub mod Sets
pub mod Case
use flex_cmake_old.Prelude.{
  ℕ, zero, suc, ◌+◌, ◌-◌, ◌==◌, ltb, leb, if◌then◌else◌, Bool, true, false, not, ◌&&◌, ◌||◌, List,
  [], ◌∷◌, ◌++◌, length, set,
}
use flex_cmake_old.Common.{Result, ok, ◌>>=◌, ◌>>◌, at, check_char}
use flex_cmake_old.CharacterTable.{CharacterTable, contains, insert, insert_all}

-- `ng`: the class is negated. `has_nl`: it could match a newline.
pub record CharacterClass : Type 0 where
  pub table : CharacterTable
  pub ng : Bool
  pub has_nl : Bool

abbrev pub CharacterClasses : Type 0
CharacterClasses = List CharacterClass

-- The answer of `ccl_contains` for a class at hand.
unfoldable pub class_contains : CharacterClass → ℕ → Bool
class_contains c ch = if contains ch c.table then not c.ng else c.ng

unfoldable pub ccl_contains : CharacterClasses → ℕ → ℕ → Result Bool
unfolding class_contains
ccl_contains ccls cclp ch = do c ← at ccls cclp; ok (class_contains c ch)

-- The update that `ccladd` makes on the class.
unfoldable pub class_add : (nlch ch : ℕ) → CharacterClass → CharacterClass
class_add nlch ch c =
    if contains ch c.table
    then c
    else record c { table = insert ch c.table; has_nl = if ch == nlch then true else c.has_nl }

unfoldable pub ccladd : (csize nlch : ℕ) → CharacterClasses → ℕ → ℕ → Result CharacterClasses
unfolding class_add
ccladd csize nlch ccls cclp ch = do
  check_char csize ch
  c ← at ccls cclp
  ok (set ccls cclp (class_add nlch ch c))

abbrev pub empty_class : CharacterClass
empty_class = record { table = []; ng = false; has_nl = false }

-- The new class and the vector that holds it.
unfoldable pub cclinit : CharacterClasses → ℕ × CharacterClasses
cclinit ccls = (length ccls, ccls ++ (empty_class ∷ []))

unfoldable pub class_negate : CharacterClass → CharacterClass
class_negate c = record c { ng = true; has_nl = not c.has_nl }

unfoldable pub cclnegate : CharacterClasses → ℕ → Result CharacterClasses
unfolding class_negate
cclnegate ccls cclp = do c ← at ccls cclp; ok (set ccls cclp (class_negate c))

-- One round of the loop of `ccl_set_diff`.
diff_step : (csize nlch : ℕ) → (a b d ch : ℕ) → CharacterClasses → Result CharacterClasses
unfolding ccl_contains ccladd
diff_step csize nlch a b d ch ccls = do
  in_a ← ccl_contains ccls a ch
  in_b ← ccl_contains ccls b ch
  if in_a && not in_b then ccladd csize nlch ccls d ch else ok ccls

-- `rounds` is csize - ch.
diff_loop : (csize nlch : ℕ) → (a b d rounds ch : ℕ) → CharacterClasses → Result CharacterClasses
unfolding diff_step
diff_loop csize nlch a b d zero ch ccls = ok ccls
diff_loop csize nlch a b d (suc rounds) ch ccls = do
  ccls' ← diff_step csize nlch a b d ch ccls
  diff_loop csize nlch a b d rounds (ch + 1) ccls'

unfoldable pub ccl_set_diff :
    (csize nlch : ℕ) → CharacterClasses → ℕ → ℕ → Result (ℕ × CharacterClasses)
unfolding diff_loop cclinit
ccl_set_diff csize nlch ccls a b =
    let (d, ccls') = cclinit ccls in
    do ccls'' ← diff_loop csize nlch a b d csize 0 ccls'; ok (d, ccls'')

-- `ccls[d].table.insert(ccls[a].table.begin(), ccls[a].table.end())`
merge_table : CharacterClasses → (d a : ℕ) → Result CharacterClasses
merge_table ccls d a = do
  c ← at ccls d
  s ← at ccls a
  ok (set ccls d (record c { table = insert_all s.table c.table }))

unfoldable pub ccl_set_union : CharacterClasses → ℕ → ℕ → Result (ℕ × CharacterClasses)
unfolding merge_table cclinit
ccl_set_union ccls a b =
    let (d, ccls') = cclinit ccls in
    do with_a ← merge_table ccls' d a; with_b ← merge_table with_a d b; ok (d, with_b)

-- The character functions of the C library, in the "C" locale.
unfoldable pub isupper : ℕ → Bool
isupper c = leb b'A' c && leb c b'Z'

unfoldable pub islower : ℕ → Bool
islower c = leb b'a' c && leb c b'z'

unfoldable pub tolower : ℕ → ℕ
unfolding isupper
tolower c = if isupper c then c + 32 else c

unfoldable pub toupper : ℕ → ℕ
unfolding islower
toupper c = if islower c then c - 32 else c

unfoldable pub reverse_case : ℕ → ℕ
unfolding isupper islower tolower toupper
reverse_case c = if isupper c then tolower c else if islower c then toupper c else c

unfoldable pub has_case : ℕ → Bool
unfolding isupper islower
has_case c = if isupper c || islower c then true else false

-- The body of the loop: whether it returns false at `i`.
case_escapes : (c1 c2 i : ℕ) → Bool
unfolding has_case reverse_case
case_escapes c1 c2 i =
    if has_case i then ltb (reverse_case i) c1 || ltb c2 (reverse_case i) else false

-- `rounds` is c2 + 1 - i.
covers_loop : (c1 c2 rounds i : ℕ) → Bool
unfolding case_escapes
covers_loop c1 c2 zero i = true
covers_loop c1 c2 (suc rounds) i =
    let rest = covers_loop c1 c2 rounds (i + 1) in if case_escapes c1 c2 i then false else rest

unfoldable pub range_covers_case : (c1 c2 : ℕ) → Bool
unfolding covers_loop
range_covers_case c1 c2 = covers_loop c1 c2 (c2 + 1 - c1) c1
