-- ===== src/Tests/TablesRuns.antt =====
-- Runs of the table writers and compression, and their theorems at concrete inputs.
use flex_cmake_old.Prelude.{ℕ, ◌%◌, ◌≤◌, ◌≡◌, refl, arith, [], ◌∷◌, replicate}
use flex_cmake_old.Prelude.Int.{pos, negsuc}
use flex_cmake_old.Tables.File.{Writer, done, yytbl_write_pad64}
use flex_cmake_old.Tables.Write.{yytbl_hdr_init, yytbl_hdr_fwrite, Data}
use flex_cmake_old.Tables.Header.{header_size, WritesHeader, yytbl_hdr_fwrite-WritesHeader}
use flex_cmake_old.Tables.Append.{appended, yytbl_write_pad64_aligns}

-- Three bytes are in the file.
abbrev three_bytes : Writer
three_bytes = record {
  content = 1 ∷ 2 ∷ 3 ∷ [];
  position = 3;
  capacity = 100;
  total_written = 3;
  th_ssize_pos = 0;
}

yytbl_write_pad64_aligns_example :
    (pad : ℕ) × (yytbl_write_pad64 three_bytes ≡ done pad (appended (replicate pad 0) three_bytes))
    × (pad ≤ 7)
    × ((appended (replicate pad 0) three_bytes).total_written % 8 ≡ 0)
yytbl_write_pad64_aligns_example =
    yytbl_write_pad64_aligns three_bytes refl (omega arith, omega arith)

-- A 32-bit table of two rows with two values each.
abbrev wide_table : Data
wide_table = record {
  td_id = 1;
  td_flags = 4;
  td_hilen = 2;
  td_lolen = 2;
  td_data = pos 300 ∷ negsuc 4 ∷ pos 0 ∷ negsuc 999 ∷ [];
}

-- A header at the start of a file.
abbrev empty_file : Writer
empty_file = record {
  content = [];
  position = 0;
  capacity = 100;
  total_written = 0;
  th_ssize_pos = 0;
}

yytbl_hdr_fwrite-WritesHeader_example :
    (wr' : Writer) × (yytbl_hdr_fwrite (yytbl_hdr_init (50 ∷ 46 ∷ 54 ∷ []) (116 ∷ [])) empty_file
      ≡ done (header_size (50 ∷ 46 ∷ 54 ∷ []) (116 ∷ [])) wr')
    × WritesHeader (50 ∷ 46 ∷ 54 ∷ []) (116 ∷ []) empty_file wr'
yytbl_hdr_fwrite-WritesHeader_example =
    yytbl_hdr_fwrite-WritesHeader (50 ∷ 46 ∷ 54 ∷ []) (116 ∷ []) empty_file
      (
        (λ e. absurd (omega arith)),
        ((λ e. absurd (omega arith)), ((λ e. absurd (omega arith)), tt)),
      )
      ((λ e. absurd (omega arith)), tt) refl refl (omega arith, omega arith)
