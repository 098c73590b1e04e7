-- ===== src/Tables/Compress.antt =====
-- `yytbl_data_compress` of src/tables.cpp: the narrowest width that holds every value.
use flex_cmake_old.Prelude.{
  ℕ, zero, suc, ◌+◌, ◌-◌, ◌*◌, ◌/◌, ◌^◌, ◌==◌, ltb, leb, if◌then◌else◌, List, [], ◌∷◌, none, some,
  Option,
}
use flex_cmake_old.Prelude.Int.{ℤ, pos, negsuc, abs}
use flex_cmake_old.Tables.Write.{Data, yytbl_calc_total_len, flags_to_bytes, pattern_of}

-- `max` over the first `rounds` values; `none` if the data ends before.
unfoldable pub max_loop : (rounds : ℕ) → List ℤ → ℕ → Option ℕ
max_loop zero values max = some max
max_loop (suc rounds) [] max = none
max_loop (suc rounds) (z ∷ values) max =
    max_loop rounds values (if ltb max (abs z) then abs z else max)

-- INT8_MAX is 127 and INT16_MAX is 32767.
unfoldable pub width_of : ℕ → ℕ
width_of max = if leb max 127 then 1 else if leb max 32767 then 2 else 4

unfoldable pub min_int_size : Data → Option ℕ
unfolding max_loop width_of
min_int_size tbl = elim (max_loop (yytbl_calc_total_len tbl) tbl.td_data 0) [
  | none ↦ none
  | some max ↦ some (width_of max)
]

-- BYTES2TFLAG: YYTD_DATA8, YYTD_DATA16 or YYTD_DATA32.
unfoldable pub bytes_to_flag : ℕ → ℕ
bytes_to_flag n = if n == 1 then 1 else if n == 2 then 2 else 4

-- `TFLAGS_CLRDATA(flags) | BYTES2TFLAG(size)`: the three lowest bits are replaced.
unfoldable pub with_width : (flags size : ℕ) → ℕ
unfolding bytes_to_flag
with_width flags size = flags / 8 * 8 + bytes_to_flag size

-- The value that a signed integer type of `m` = 2 ^ w values holds after a conversion.
unfoldable pub convert : (m : ℕ) → ℤ → ℤ
unfolding pattern_of
convert m z =
    if ltb (pattern_of m z) (m / 2) then pos (pattern_of m z) else negsuc (m - 1 - pattern_of m z)

-- `yytbl_data_seti` of a value into an array of the given width.
unfoldable pub stored : (width : ℕ) → ℤ → ℤ
unfolding convert
stored width z =
    if width == 1
    then convert (2 ^ 8) z
    else if width == 2
    then convert (2 ^ 16) z
    else convert (2 ^ 32) z

-- The copying loop; the new array starts as `rounds` zeros and is filled in order.
unfoldable pub copy_values : (width rounds : ℕ) → List ℤ → Option (List ℤ)
unfolding stored
copy_values width zero values = some []
copy_values width (suc rounds) [] = none
copy_values width (suc rounds) (z ∷ values) = elim (copy_values width rounds values) [
  | none ↦ none
  | some copied ↦ some (stored width z ∷ copied)
]

pub data Compressed : Type 0 where
  table : Data → Compressed
  negative_compression : Compressed
  undefined : Compressed

-- The copy at the new width.
unfoldable pub shrink : (width : ℕ) → Data → Compressed
unfolding copy_values with_width
shrink width tbl = elim (copy_values width (yytbl_calc_total_len tbl) tbl.td_data) [
  | none ↦ undefined
  | some copied ↦ table (record tbl { td_flags = with_width tbl.td_flags width; td_data = copied })
]

unfoldable pub choose : (newsz : ℕ) → Data → Compressed
unfolding shrink
choose newsz tbl =
    if newsz == flags_to_bytes tbl.td_flags
    then table tbl
    else if ltb (flags_to_bytes tbl.td_flags) newsz
    then negative_compression
    else shrink newsz tbl

unfoldable pub yytbl_data_compress : Data → Compressed
unfolding choose
yytbl_data_compress tbl = elim (min_int_size tbl) [
  | none ↦ undefined
  | some newsz ↦ choose newsz tbl
]
