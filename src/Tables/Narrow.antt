-- ===== src/Tables/Narrow.antt =====
-- What `yytbl_data_compress` of src/tables.cpp does to a table.
use flex_cmake_old.Prelude.{ℕ, ◌/◌, ◌≤◌, ◌≡◌, ◌⊎◌, ◌==◌, if◌then◌else◌, All}
use flex_cmake_old.Prelude.Int.{ℤ, abs}
use flex_cmake_old.Tables.Write.{Data, yytbl_calc_total_len, flags_to_bytes}

-- The largest absolute value that the code keeps in a width.
unfoldable pub limit : ℕ → ℕ
limit w = if w == 1 then 127 else if w == 2 then 32767 else 2147483647

abbrev pub Fits : ℕ → ℤ → Type 0
Fits w z = abs z ≤ limit w

unfoldable pub IsWidth : ℕ → Type 0
IsWidth w = (w ≡ 1) ⊎ ((w ≡ 2) ⊎ (w ≡ 4))

-- What a table is compressed to.
unfoldable pub Narrowed : Data → (v : ℕ) → Data → Type 0
Narrowed tbl v tbl' =
    (tbl'.td_data ≡ tbl.td_data)
    × All (Fits (flags_to_bytes tbl'.td_flags)) tbl'.td_data
    × (flags_to_bytes tbl'.td_flags ≤ v)
    × (tbl'.td_flags / 8 ≡ tbl.td_flags / 8)
    × (yytbl_calc_total_len tbl' ≡ yytbl_calc_total_len tbl)
