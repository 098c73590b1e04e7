-- ===== src/Tests/ContextRuns.antt =====
-- Runs of the text output and its theorems at concrete inputs.
use flex_cmake_old.Prelude.{
  ℕ, ◌-◌, ◌≡◌, refl, arith, true, false, List, [], ◌∷◌, ◌++◌, length, take, All,
}
use flex_cmake_old.Prelude.Int.{ℤ, pos, negsuc}
use flex_cmake_old.Misc.Strings.{codes}
use flex_cmake_old.Misc.Data.{DataOutput}
use flex_cmake_old.Misc.Data.Listed.{content, mkdata_all, listed}
use flex_cmake_old.Misc.Data.Lines.{commas, Begun, Adds, mkdata_all-lines}
use flex_cmake_old.Context.{Line, Context, new_buffer, add_line, begin_block, end_block, text_of}
use flex_cmake_old.Context.Parts.{
  get_text, get_lines, own_lines, merge_before_and_after_lines, merge-get_text,
}
use flex_cmake_old.Context.Split.{has_newline, split_lines, Splits, split_lines-text}
use flex_cmake_old.Context.Blank.{count_empty, empty_lines, set_max_empty_lines}
use flex_cmake_old.Context.Blank.Limits.{
  is_limited, with_text, starts_blank, set_max_empty_lines_limits, empty_lines_count,
}

-- A block with an indented line.
block_text :
    get_text (
      Context.context Context.null
        (end_block true (add_line (codes "x") (begin_block (codes "s") true new_buffer)))
        Context.null)
    ≡ codes "s\n{\n    x\n};\n"
unfolding get_text text_of get_lines end_block begin_block add_line new_buffer
block_text = refl

abbrev line_at : ℤ → List ℕ → Line
line_at n s = record { text = s; n_indents = n }

abbrev three_lines : List Line
three_lines = line_at (pos 0) (codes "a\nb") ∷ line_at (pos 2) (codes "c") ∷ line_at (pos 0) [] ∷ []

abbrev with_lines : List Line → Context
with_lines ls = Context.context Context.null (record new_buffer { lines = ls }) Context.null

abbrev nested_context : Context
nested_context =
    Context.context (with_lines three_lines) (record new_buffer { lines = three_lines })
      (with_lines [])

merge-get_text_example :
    (get_text (merge_before_and_after_lines nested_context) ≡ get_text nested_context)
    × (own_lines (merge_before_and_after_lines nested_context) ≡ get_lines nested_context)
    × (get_lines (merge_before_and_after_lines nested_context) ≡ get_lines nested_context)
merge-get_text_example = merge-get_text nested_context

three_lines-Splits : All Splits three_lines
unfolding has_newline
three_lines-Splits = ((λ e. refl), ((λ e. absurd (no e)), ((λ e. refl), tt)))
  where
    no : ◌≡◌ {A = _} false true → ⊥
    no e = cc

split_lines-text_example :
    (text_of (codes "  ") (10 ∷ []) (split_lines three_lines)
      ≡ text_of (codes "  ") (10 ∷ []) three_lines)
    × All (λ l. has_newline l.text ≡ false) (split_lines three_lines)
split_lines-text_example = split_lines-text (codes "  ") three_lines three_lines-Splits

set_max_empty_lines_limits_example :
    (starts_blank (set_max_empty_lines 1 three_lines) ≡ false)
    × (is_limited 1 0 (set_max_empty_lines 1 three_lines) ≡ true)
    × (with_text (set_max_empty_lines 1 three_lines) ≡ with_text three_lines)
set_max_empty_lines_limits_example = set_max_empty_lines_limits 1 three_lines

empty_lines_count_example :
    (count_empty (empty_lines 3 three_lines) ≡ 3)
    × (take (length (empty_lines 3 three_lines) - 3) (empty_lines 3 three_lines)
        ≡ take (length three_lines - count_empty three_lines) three_lines)
empty_lines_count_example = empty_lines_count 3 three_lines

-- Ten values on the line that is being written.
abbrev ten_values : DataOutput
ten_values = record {
  gentables = true;
  datapos = 10;
  dataline = 9;
  processed_file = record new_buffer { ss_line = codes "    1,2,3,4,5,6,7,8,9,0" };
}

ten_values-Begun : Begun ten_values
unfolding commas
ten_values-Begun = (omega arith, refl)

mkdata_all-lines_example :
    (content (mkdata_all (pos 12 ∷ negsuc 6 ∷ []) ten_values).processed_file
      ≡ content ten_values.processed_file ++ listed 10 (pos 12 ∷ negsuc 6 ∷ []))
    × Adds ten_values (mkdata_all (pos 12 ∷ negsuc 6 ∷ []) ten_values)
    × Begun (mkdata_all (pos 12 ∷ negsuc 6 ∷ []) ten_values)
mkdata_all-lines_example =
    mkdata_all-lines (pos 12 ∷ negsuc 6 ∷ []) ten_values refl ten_values-Begun
