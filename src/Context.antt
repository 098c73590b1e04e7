-- ===== src/Context.antt =====
-- `Context` of src/context.h and src/context.cpp: text as lines with their indentation.
pub mod Parts
pub mod Blank
pub mod Split
use flex_cmake_old.Prelude.{
  ℕ, zero, suc, ◌+◌, ◌-◌, ◌*◌, ◌==◌, ltb, leb, if◌then◌else◌, Bool, true, false, not, ◌&&◌, ◌||◌,
  List, [], ◌∷◌, ◌++◌, map, length, take, replicate,
}
use flex_cmake_old.Prelude.Int.{ℤ, pos, negsuc}
use flex_cmake_old.Misc.Strings.{Codes, codes}

pub record Line : Type 0 where
  pub text : Codes
  pub n_indents : ℤ

-- A context without the parts before and after it; `namespaces` is a stack, the top first.
pub record Buffer : Type 0 where
  pub lines : List Line
  pub n_indents : ℤ
  pub indent : Codes
  pub newline : Codes
  pub namespaces : List Codes
  pub ss_line : Codes

-- A context with the parts before and after it, or a null pointer.
pub data Context : Type 0 where
  null : Context
  context : (before : Context) → Buffer → (after : Context) → Context

unfoldable pub new_buffer : Buffer
new_buffer = record {
  lines = [];
  n_indents = pos 0;
  indent = codes "    ";
  newline = codes "\n";
  namespaces = [];
  ss_line = [];
}

-- `isspace` of the C locale.
unfoldable pub is_space : ℕ → Bool
is_space c = (c == 32) || (leb 9 c && leb c 13)

-- The characters that white space alone follows are cut off.
unfoldable pub before_space : (c : ℕ) → Codes → Codes
unfolding is_space
before_space c [] = if is_space c then [] else c ∷ []
before_space c (d ∷ rest) = c ∷ d ∷ rest

unfoldable pub trimmed : Codes → Codes
unfolding before_space
trimmed [] = []
trimmed (c ∷ s) = before_space c (trimmed s)

-- The pieces of a text between newlines.
unfoldable pub join_piece : (c : ℕ) → List Codes → List Codes
join_piece c [] = (c ∷ []) ∷ []
join_piece c (piece ∷ rest) = (c ∷ piece) ∷ rest

unfoldable pub pieces : Codes → List Codes
unfolding join_piece
pieces [] = [] ∷ []
pieces (c ∷ s) = let rest = pieces s in if c == 10 then [] ∷ rest else join_piece c rest

unfoldable pub but_last : List Codes → List Codes
but_last [] = []
but_last (piece ∷ []) = []
but_last (piece ∷ next ∷ rest) = piece ∷ but_last (next ∷ rest)

abbrev pub plain_line : Codes → Line
plain_line s = record { text = s; n_indents = pos 0 }

abbrev pub push_lines : List Line → Buffer → Buffer
push_lines ls b = record b { lines = b.lines ++ ls }

-- What stands behind the last newline is dropped.
unfoldable pub init_from_string : Codes → Buffer → Buffer
unfolding pieces but_last trimmed
init_from_string s b =
    push_lines (map (λ piece. plain_line (trimmed piece)) (but_last (pieces s))) b

-- `lines.back()` is changed; an empty list gets a line first.
unfoldable pub add_to_last : Codes → List Line → List Line
add_to_last s [] = plain_line s ∷ []
add_to_last s (l ∷ []) = record l { text = l.text ++ s } ∷ []
add_to_last s (l ∷ next ∷ rest) = l ∷ add_to_last s (next ∷ rest)

unfoldable pub add_text : Codes → Buffer → Buffer
unfolding add_to_last
add_text s b = record b { lines = add_to_last s b.lines }

unfoldable pub add_no_new_line : Codes → Buffer → Buffer
add_no_new_line s b = push_lines (record { text = s; n_indents = b.n_indents } ∷ []) b

unfoldable pub add_line_no_space : Codes → Buffer → Buffer
add_line_no_space s b = push_lines (plain_line s ∷ []) b

unfoldable pub line_of : Codes → (n_indents : ℤ) → Line
line_of [] n = plain_line []
line_of (c ∷ s) n = record { text = c ∷ s; n_indents = n }

unfoldable pub add_line : Codes → Buffer → Buffer
unfolding line_of
add_line s b = push_lines (line_of s b.n_indents ∷ []) b

-- z - 1 and z + 1
unfoldable pub less_one : ℤ → ℤ
less_one (pos zero) = negsuc 0
less_one (pos (suc n)) = pos n
less_one (negsuc n) = negsuc (suc n)

unfoldable pub plus_one : ℤ → ℤ
plus_one (pos n) = pos (suc n)
plus_one (negsuc zero) = pos 0
plus_one (negsuc (suc n)) = negsuc n

unfoldable pub decrease_indent : Buffer → Buffer
unfolding less_one
decrease_indent b = record b { n_indents = less_one b.n_indents }

unfoldable pub increase_indent : Buffer → Buffer
unfolding plus_one
increase_indent b = record b { n_indents = plus_one b.n_indents }

unfoldable pub add_some : Codes → Buffer → Buffer
unfolding add_line
add_some [] b = b
add_some (c ∷ s) b = add_line (c ∷ s) b

unfoldable pub begin_block : Codes → (indent : Bool) → Buffer → Buffer
unfolding add_some add_line increase_indent
begin_block s indent b =
    let b1 = add_line (codes "{") (add_some s b) in if indent then increase_indent b1 else b1

unfoldable pub end_block : (semicolon : Bool) → Buffer → Buffer
unfolding add_line decrease_indent
end_block semicolon b = add_line (if semicolon then codes "};" else codes "}") (decrease_indent b)

unfoldable pub begin_function : Codes → Buffer → Buffer
unfolding begin_block
begin_function s b = begin_block s true b

unfoldable pub end_function : Buffer → Buffer
unfolding end_block add_line
end_function b = add_line [] (end_block false b)

unfoldable pub begin_namespace : Codes → Buffer → Buffer
unfolding add_line_no_space add_line
begin_namespace s b =
    let b1 =
      add_line [] (add_line_no_space (codes "{") (add_line_no_space (codes "namespace " ++ s) b)) in
    record b1 { namespaces = s ∷ b.namespaces }

unfoldable pub close_namespace : Codes → Buffer → Buffer
unfolding add_line_no_space add_line
close_namespace s b = add_line [] (add_line_no_space (codes "} // namespace " ++ s) b)

-- The name on the stack is taken where none is given.
unfoldable pub end_namespace : Codes → Buffer → Buffer
unfolding close_namespace
end_namespace (c ∷ s) b = close_namespace (c ∷ s) b
end_namespace [] b = elim b.namespaces [
  | [] ↦ close_namespace [] b
  | s ∷ rest ↦ close_namespace s (record b { namespaces = rest })
]

unfoldable pub ifdef : Codes → Buffer → Buffer
unfolding add_line_no_space
ifdef s b = add_line_no_space (codes "#ifdef " ++ s) b

unfoldable pub endif : Buffer → Buffer
unfolding add_line_no_space
endif b = add_line_no_space (codes "#endif") b

-- The last `n` characters of the last line.
unfoldable pub trim_last : (n : ℕ) → List Line → List Line
trim_last n [] = []
trim_last n (l ∷ []) = record l { text = take (length l.text - n) l.text } ∷ []
trim_last n (l ∷ next ∷ rest) = l ∷ trim_last n (next ∷ rest)

unfoldable pub trim_end : (n : ℕ) → Buffer → Buffer
unfolding trim_last
trim_end n b = record b { lines = trim_last n b.lines }

-- `ctx << v` and `ctx << eol`, with the text of `v`.
unfoldable pub put_text : Codes → Buffer → Buffer
put_text v b = record b { ss_line = b.ss_line ++ v }

unfoldable pub put_eol : Buffer → Buffer
unfolding add_line
put_eol b = record (add_line b.ss_line b) { ss_line = [] }

unfoldable pub define : (str def : Codes) → Buffer → Buffer
unfolding add_line
define str def b = add_line (codes "#define " ++ (str ++ (codes " " ++ (def ++ codes "\n")))) b

unfoldable pub m4define : (def val : Codes) → Buffer → Buffer
unfolding add_line
m4define def val b =
    add_line (codes "m4_define([[" ++ (def ++ (codes "]], [[" ++ (val ++ codes "]])m4_dnl")))) b

unfoldable pub m4undefine : (def : Codes) → Buffer → Buffer
unfolding add_line
m4undefine def b = add_line (codes "m4_undefine([[" ++ (def ++ codes "]])m4_dnl")) b

-- The text of lines: a negative indentation is none.
unfoldable pub indents : (indent : Codes) → ℤ → Codes
indents indent (pos zero) = []
indents indent (pos (suc n)) = indents indent (pos n) ++ indent
indents indent (negsuc n) = []

unfoldable pub text_of : (indent newline : Codes) → List Line → Codes
unfolding indents
text_of indent newline [] = []
text_of indent newline (l ∷ ls) =
    indents indent l.n_indents ++ (l.text ++ (newline ++ text_of indent newline ls))
