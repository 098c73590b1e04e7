-- ===== src/Context/Parts.antt =====
-- Contexts with parts before and after: getLines, setLines, mergeBeforeAndAfterLines, empty and the
-- operators of src/context.cpp and src/context.h.
use mathlib.Core.List.{append-nil}
use flex_cmake_old.Prelude.{
  zero, suc, ◌≡◌, refl, ap, ◌∙◌, Bool, true, false, ◌||◌, List, [], ◌∷◌, ◌++◌, map,
}
use flex_cmake_old.Prelude.Int.{ℤ, pos, negsuc}
use flex_cmake_old.Misc.Strings.{Codes}
use flex_cmake_old.Context.{
  Line, Context, null, context, new_buffer, push_lines, plus_one, less_one, text_of,
}

unfoldable pub get_lines : Context → List Line
get_lines null = []
get_lines (context before b after) = get_lines before ++ (b.lines ++ get_lines after)

unfoldable pub get_text : Context → Codes
unfolding get_lines text_of
get_text null = []
get_text (context before b after) = text_of b.indent b.newline (get_lines (context before b after))

unfoldable pub set_lines : List Line → Context → Context
set_lines ls null = null
set_lines ls (context before b after) = context null (record b { lines = ls }) null

-- `getLinesRef()` of a part.
unfoldable pub own_lines : Context → List Line
own_lines null = []
own_lines (context before b after) = b.lines

unfoldable pub merge_before_and_after_lines : Context → Context
unfolding own_lines
merge_before_and_after_lines null = null
merge_before_and_after_lines (context before b after) =
    let before' = merge_before_and_after_lines before in
    let after' = merge_before_and_after_lines after in
    context null (record b { lines = own_lines before' ++ (b.lines ++ own_lines after') }) null

unfoldable pub no_lines : List Line → Bool
no_lines [] = true
no_lines (l ∷ ls) = false

unfoldable pub is_empty : Context → Bool
unfolding no_lines
is_empty null = false
is_empty (context before b after) = (is_empty before || no_lines b.lines) || is_empty after

-- `before()` and `after()`: a new context in place of a null pointer.
unfoldable pub made_part : Context → Context
unfolding new_buffer
made_part null = context null new_buffer null
made_part (context before b after) = context before b after

-- Lines are added to a part; a null pointer on the right adds none, and makes none.
unfoldable pub append_part : Context → (rhs : Context) → (Line → Line) → Context
unfolding made_part
append_part p null f = p
append_part p (context rb r ra) f = appended (made_part p)
  where
    appended : Context → Context
    appended null = null
    appended (context before b after) = context before (push_lines (map f r.lines) b) after

-- `lhs += rhs`
unfoldable pub append : Context → (rhs : Context) → Context
unfolding append_part
append null rhs = null
append (context before b after) null = context before b after
append (context before b after) (context rb r ra) =
    context (append_part before rb (λ l. l)) (push_lines r.lines b) (append_part after ra (λ l. l))

-- The sum of indentations.
unfoldable pub plus : ℤ → ℤ → ℤ
unfolding plus_one less_one
plus (pos zero) y = y
plus (pos (suc n)) y = plus_one (plus (pos n) y)
plus (negsuc zero) y = less_one y
plus (negsuc (suc n)) y = less_one (plus (negsuc n) y)

unfoldable pub add_with_relative_indent : Context → (rhs : Context) → Context
unfolding append_part plus
add_with_relative_indent null rhs = null
add_with_relative_indent (context before b after) null = context before b after
add_with_relative_indent (context before b after) (context rb r ra) =
    let deeper : Line → Line = λ l. record l { n_indents = plus l.n_indents b.n_indents } in
    context (append_part before rb deeper) (push_lines (map deeper r.lines) b)
      (append_part after ra deeper)

own_lines-merge : (c : Context) → own_lines (merge_before_and_after_lines c) ≡ get_lines c
unfolding own_lines merge_before_and_after_lines get_lines
own_lines-merge null = refl
own_lines-merge (context before b after) = rw (own_lines-merge before, own_lines-merge after) refl

-- Merging the parts before and after a context into it does not change its text, and leaves no parts:
-- all lines are its own.
pub merge-get_text :
    (c : Context)
    → (get_text (merge_before_and_after_lines c) ≡ get_text c)
      × (own_lines (merge_before_and_after_lines c) ≡ get_lines c)
      × (get_lines (merge_before_and_after_lines c) ≡ get_lines c)
unfolding get_text get_lines merge_before_and_after_lines own_lines
merge-get_text null = (refl, refl, refl)
merge-get_text (context before b after) =
    let all = own_lines-merge (context before b after) in
    let same =
      append-nil (
        own_lines (merge_before_and_after_lines before)
        ++ (b.lines ++ own_lines (merge_before_and_after_lines after)))
      ∙ all in
    (ap (text_of b.indent b.newline) same, all, same)
