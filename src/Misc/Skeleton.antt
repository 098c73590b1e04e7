-- ===== src/Misc/Skeleton.antt =====
-- `skelout` of src/misc.cpp: the copying of the skeleton with its conditional parts.
pub mod Blocks
pub mod Copies
pub mod Errors
use flex_cmake_old.Prelude.{
  ℕ, ◌==◌, if◌then◌else◌, Bool, true, false, not, ◌&&◌, List, [], ◌∷◌, ◌++◌, Option, none, some,
}
use flex_cmake_old.Common.{Result, ok, exit, fault, bad_skeleton, ◌>>=◌}
use flex_cmake_old.Misc.Strings.{Codes, codes, starts_with, back, second}

-- The options that the control lines test. `yydmap` is the text of `yydmap_buf`, unless that is empty.
pub record Options : Type 0 where
  pub reentrant : Bool
  pub bison_bridge_lval : Bool
  pub c_plus_plus : Bool
  pub tablesext : Bool
  pub ddebug : Bool
  pub yydmap : Option Codes
  pub tablesname : Codes

-- `out` are the lines that are written.
pub record Copying : Type 0 where
  pub do_copy : Bool
  pub sko_stack : List Bool
  pub out : List Codes

-- The control lines, in the order in which they are tested.
pub data Command : Type 0 where
  break_point push pop if_reentrant if_not_reentrant if_bison_bridge if_not_bison_bridge endif
        if_tables_ser tables_yydmap define_yytables if_cpp_only if_c_only if_c_or_cpp not_for_header
        ok_for_header comment bad_line :
      Command

unfoldable pub last_commands : Codes → Command
last_commands buf =
    if starts_with (codes "%if-tables-serialization") buf
    then if_tables_ser
    else if starts_with (codes "%tables-yydmap") buf
    then tables_yydmap
    else if starts_with (codes "%define-yytables") buf
    then define_yytables
    else if starts_with (codes "%if-c++-only") buf
    then if_cpp_only
    else if starts_with (codes "%if-c-only") buf
    then if_c_only
    else if starts_with (codes "%if-c-or-c++") buf
    then if_c_or_cpp
    else if starts_with (codes "%not-for-header") buf
    then not_for_header
    else if starts_with (codes "%ok-for-header") buf
    then ok_for_header
    else if second buf == 35
    then comment
    else bad_line

unfoldable pub command : Codes → Command
unfolding last_commands
command buf =
    if second buf == 37
    then break_point
    else if starts_with (codes "%push") buf
    then push
    else if starts_with (codes "%pop") buf
    then pop
    else if starts_with (codes "%if-reentrant") buf
    then if_reentrant
    else if starts_with (codes "%if-not-reentrant") buf
    then if_not_reentrant
    else if starts_with (codes "%if-bison-bridge") buf
    then if_bison_bridge
    else if starts_with (codes "%if-not-bison-bridge") buf
    then if_not_bison_bridge
    else if starts_with (codes "%endif") buf
    then endif
    else last_commands buf

unfoldable pub write : Codes → Copying → Copying
write line c = record c { out = c.out ++ (line ∷ []) }

-- `sko_stack.push(do_copy)`, and a new `do_copy`.
unfoldable pub enter : Bool → Copying → Copying
enter copy c = record c { sko_stack = c.do_copy ∷ c.sko_stack; do_copy = copy }

-- `do_copy = sko_stack.top(); sko_stack.pop()`, which an empty stack leaves undefined.
unfoldable pub leave : Copying → Result Copying
leave c = elim c.sko_stack [
  | [] ↦ fault
  | copy ∷ stack ↦ ok (record c { do_copy = copy; sko_stack = stack })
]

-- `(buf.back() == '\\' ? "\\" : "")`
unfoldable pub continuation : Codes → Codes
continuation buf = if back 0 buf == 92 then 92 ∷ [] else []

unfoldable pub debug_state : Options → Copying → Copying
unfolding write
debug_state o c =
    if o.ddebug
    then write
        (codes "/*(state = ("
          ++ ((if c.do_copy then codes "true" else codes "false") ++ codes ") */"))
        c
    else c

-- The chain of tests; the break point is taken before.
unfoldable pub obey : Options → (buf : Codes) → Command → Copying → Result Copying
unfolding write enter leave continuation debug_state
obey o buf break_point c = ok c
obey o buf push c = ok (write (continuation buf) (debug_state o (enter c.do_copy c)))
obey o buf pop c = do c' ← leave c; ok (write (continuation buf) (debug_state o c'))
obey o buf if_reentrant c = ok (enter (o.reentrant && c.do_copy) c)
obey o buf if_not_reentrant c = ok (enter (not o.reentrant && c.do_copy) c)
obey o buf if_bison_bridge c = ok (enter (o.bison_bridge_lval && c.do_copy) c)
obey o buf if_not_bison_bridge c = ok (enter (not o.bison_bridge_lval && c.do_copy) c)
obey o buf endif c = leave c
obey o buf if_tables_ser c = ok (record c { do_copy = c.do_copy && o.tablesext })
obey o buf tables_yydmap c =
    ok (if o.tablesext then elim o.yydmap [ none ↦ c | some text ↦ write text c ] else c)
obey o buf define_yytables c = ok (
    write
      (codes "#define YYTABLES_NAME \""
        ++ ((elim o.tablesname [ [] ↦ codes "yytables" | x ∷ xs ↦ x ∷ xs ]) ++ codes "\""))
      c)
obey o buf if_cpp_only c = ok (enter o.c_plus_plus c)
obey o buf if_c_only c = ok (enter (not o.c_plus_plus) c)
obey o buf if_c_or_cpp c = ok (enter true c)
obey o buf not_for_header c = ok (write (codes "m4_ifdef( [[M4_YY_IN_HEADER]],,[[") c)
obey o buf ok_for_header c = ok (write (codes "]])") c)
obey o buf comment c = ok c
obey o buf bad_line c = exit bad_skeleton

-- The control line as a comment, for debugging.
unfoldable pub debug_line : Options → Codes → Copying → Copying
unfolding write continuation
debug_line o buf c =
    if o.ddebug && not (second buf == 35)
    then write (codes "/* " ++ (buf ++ (codes " */" ++ continuation buf))) c
    else c

unfoldable pub is_control : Codes → Bool
is_control [] = false
is_control (c ∷ buf) = c == 37

unfoldable pub is_break : Codes → Bool
is_break buf = is_control buf && (second buf == 37)

-- A line that does not end the loop.
unfoldable pub skel_line : Options → Codes → Copying → Result Copying
unfolding is_control obey command debug_line write
skel_line o buf c =
    if is_control buf
    then obey o buf (command buf) (debug_line o buf c)
    else ok (if c.do_copy then write buf c else c)

-- The lines are those that are left of the skeleton; those behind a break point are returned.
unfoldable pub skel_loop : Options → List Codes → Copying → Result (List Codes × Copying)
unfolding skel_line is_break debug_line
skel_loop o [] c = ok ([], c)
skel_loop o (buf ∷ lines) c =
    if is_break buf
    then ok (lines, debug_line o buf c)
    else (do c' ← skel_line o buf c; skel_loop o lines c')

-- What is written, and what is left of the skeleton.
unfoldable pub skelout : Options → List Codes → Result (List Codes × List Codes)
unfolding skel_loop
skelout o lines = do
  (rest, c) ← skel_loop o lines (record { do_copy = true; sko_stack = true ∷ []; out = [] })
  ok (rest, c.out)

-- `while (buf.back() == '\r')` on a line of a skeleton file, from the last character on: an empty
-- line has no last character.
unfoldable pub strip_returns : (reversed : Codes) → Result Codes
strip_returns [] = fault
strip_returns (c ∷ s) = if c == 13 then strip_returns s else ok (c ∷ s)
