-- ===== src/Misc/Data.antt =====
-- The data statements of src/misc.cpp: mkdata, dataflush, dataend and transition_struct_out.
pub mod Listed
pub mod Lines
use flex_cmake_old.Prelude.{
  ℕ, zero, suc, ◌+◌, ◌-◌, ◌%◌, ◌==◌, leb, if◌then◌else◌, Bool, List, [], ◌∷◌, ◌++◌, length,
  replicate,
}
use flex_cmake_old.Prelude.Int.{ℤ, pos, negsuc}
use flex_cmake_old.Misc.Strings.{Codes, codes}
use flex_cmake_old.Misc.Escape.{printed}
use flex_cmake_old.Context.{Buffer, put_text, put_eol}

-- The globals that the functions use. `datapos` counts the values of the line, or its characters.
pub record DataOutput : Type 0 where
  pub gentables : Bool
  pub datapos : ℕ
  pub dataline : ℕ
  pub processed_file : Buffer

-- A number in decimal, as `<<` writes it.
unfoldable pub decimal : ℤ → Codes
unfolding printed
decimal (pos n) = printed 10 1 (n + 1) n []
decimal (negsuc n) = 45 ∷ printed 10 1 (n + 2) (n + 1) []

-- `std::setw(w) << s`
unfoldable pub set_width : (w : ℕ) → Codes → Codes
set_width w s = replicate (w - length s) 32 ++ s

unfoldable pub put_chars : Codes → DataOutput → DataOutput
unfolding put_text
put_chars s d = record d { processed_file = put_text s d.processed_file }

unfoldable pub end_line : DataOutput → DataOutput
unfolding put_eol
end_line d = record d { processed_file = put_eol d.processed_file }

-- A blank line after NUMDATALINES = 10 lines.
unfoldable pub flush_line : DataOutput → DataOutput
unfolding end_line
flush_line d =
    let ended = end_line d in
    let blank = end_line ended in
    if leb 10 (d.dataline + 1)
    then record blank { dataline = 0; datapos = 0 }
    else record ended { dataline = d.dataline + 1; datapos = 0 }

unfoldable pub dataflush : DataOutput → DataOutput
unfolding flush_line
dataflush d = if d.gentables then flush_line d else d

unfoldable pub dataend : DataOutput → DataOutput
unfolding dataflush put_chars end_line
dataend d =
    let flushed = if d.datapos == 0 then d else dataflush d in
    let ended = if d.gentables then end_line (put_chars (codes "    } ;\n") flushed) else d in
    record ended { dataline = 0; datapos = 0 }

-- A full line has NUMDATAITEMS = 10 values.
unfoldable pub start_item : DataOutput → DataOutput
unfolding put_chars dataflush
start_item d = if leb 10 d.datapos then dataflush (put_chars (codes ",") d) else d

unfoldable pub put_item : (value : ℤ) → DataOutput → DataOutput
unfolding put_chars decimal set_width
put_item value d =
    let d' = put_chars (if d.datapos == 0 then codes "    " else codes ",") d in
    put_chars (set_width 5 (decimal value)) (record d' { datapos = d.datapos + 1 })

unfoldable pub mkdata : (value : ℤ) → DataOutput → DataOutput
unfolding start_item put_item
mkdata value d = if d.gentables then put_item value (start_item d) else d

unfoldable pub put_pair : (element_v element_n : ℤ) → DataOutput → DataOutput
unfolding put_chars set_width decimal end_line
put_pair element_v element_n d = end_line (
    put_chars
      (codes " {"
        ++ (set_width 4 (decimal element_v)
            ++ (codes "," ++ (set_width 4 (decimal element_n) ++ codes " },"))))
      d)

-- TRANS_STRUCT_PRINT_LENGTH is 14.
unfoldable pub full_line : DataOutput → DataOutput
unfolding end_line
full_line d =
    let d1 = end_line d in
    let d2 = record d1 { dataline = d1.dataline + 1 } in
    record (if (d2.dataline % 10) == 0 then end_line d2 else d2) { datapos = 0 }

unfoldable pub transition_struct_out : (element_v element_n : ℤ) → DataOutput → DataOutput
unfolding put_pair full_line
transition_struct_out element_v element_n d =
    let written = put_pair element_v element_n d in
    let counted = record written { datapos = d.datapos + 14 } in
    let full = full_line counted in
    if d.gentables then (if leb 65 (d.datapos + 14) then full else counted) else d
