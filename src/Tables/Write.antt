-- ===== src/Tables/Write.antt =====
-- The writers of headers and tables of src/tables.cpp, with struct yytbl_hdr and yytbl_data of
-- src/tables_shared.h.
use flex_cmake_old.Prelude.{
  ℕ, zero, suc, ◌+◌, ◌-◌, ◌*◌, ◌/◌, ◌%◌, ◌^◌, ◌==◌, ltb, if◌then◌else◌, Bool, List, [], ◌∷◌, ◌++◌,
  length,
}
use flex_cmake_old.Prelude.Int.{ℤ, pos, negsuc}
use flex_cmake_old.Tables.File.{
  done, failed, died, undefined, W, ◌>>=◌, ◌>>◌, pure, or_die, yytbl_write32, yytbl_write16,
  yytbl_write8, yytbl_writen, yypad64, yytbl_write_pad64,
}

abbrev pub yytbl_magic : ℕ
yytbl_magic = 0xF13C57B1

pub record Hdr : Type 0 where
  pub th_magic : ℕ
  pub th_hsize : ℕ
  pub th_ssize : ℕ
  pub th_flags : ℕ
  pub th_version : List ℕ
  pub th_name : List ℕ

-- The characters of a string up to its first NUL, as `strdup(s.c_str())` keeps them.
unfoldable pub c_string : List ℕ → List ℕ
c_string [] = []
c_string (c ∷ cs) = if c == 0 then [] else c ∷ c_string cs

unfoldable pub yytbl_hdr_init : (version_str name : List ℕ) → Hdr
unfolding c_string yypad64
yytbl_hdr_init version_str name =
    let hsize = (14 + length version_str + 1 + length name + 1) % 2 ^ 32 in
    record {
      th_magic = yytbl_magic;
      th_hsize = (hsize + yypad64 hsize) % 2 ^ 32;
      th_ssize = 0;
      th_flags = 0;
      th_version = c_string version_str;
      th_name = c_string name;
    }

-- `fgetpos(wr->out, &(wr->th_ssize_pos))`
abbrev pub save_position : W (Unit {0})
save_position wr = done tt (record wr { th_ssize_pos = wr.position })

unfoldable pub yytbl_hdr_fwrite : Hdr → W ℕ
yytbl_hdr_fwrite th = do
  _ ← or_die (yytbl_write32 th.th_magic)
  _ ← or_die (yytbl_write32 th.th_hsize)
  save_position
  _ ← or_die (yytbl_write32 th.th_ssize)
  _ ← or_die (yytbl_write16 th.th_flags)
  version ← or_die (yytbl_writen (th.th_version ++ (0 ∷ [])))
  name ← or_die (yytbl_writen (th.th_name ++ (0 ∷ [])))
  pad ← or_die yytbl_write_pad64
  if 14 + version + name + pad == th.th_hsize then pure (14 + version + name + pad) else λ _. died

-- `td_data` holds integers of the width that the flags name.
pub record Data : Type 0 where
  pub td_id : ℕ
  pub td_flags : ℕ
  pub td_hilen : ℕ
  pub td_lolen : ℕ
  pub td_data : List ℤ

-- YYTD_ID_TRANSITION
abbrev pub id_transition : ℕ
id_transition = 11

unfoldable pub yytbl_calc_total_len : Data → ℕ
yytbl_calc_total_len tbl =
    let n = if ltb 0 tbl.td_hilen then tbl.td_lolen * tbl.td_hilen % 2 ^ 32 else tbl.td_lolen in
    if tbl.td_id == id_transition then n * 2 % 2 ^ 32 else n

-- `td_flags & YYTD_DATA8` and its kin, with the bit's value.
unfoldable pub has_flag : (flags bit : ℕ) → Bool
has_flag flags bit = flags / bit % 2 == 1

-- YYTDFLAGS2BYTES of src/tables_shared.h.
unfoldable pub flags_to_bytes : ℕ → ℕ
unfolding has_flag
flags_to_bytes flags = if has_flag flags 1 then 1 else if has_flag flags 2 then 2 else 4

-- The bit pattern of an integer in `m` = 2 ^ w values.
unfoldable pub pattern_of : (m : ℕ) → ℤ → ℕ
pattern_of m (pos n) = n % m
pattern_of m (negsuc n) = m - 1 - n % m

unfoldable pub write_value : (width : ℕ) → ℤ → W ℕ
write_value width z =
    if width == 1
    then yytbl_write8 (pattern_of (2 ^ 8) z)
    else if width == 2
    then yytbl_write16 (pattern_of (2 ^ 16) z)
    else yytbl_write32 (pattern_of (2 ^ 32) z)

-- The loop over the elements: `data` is what is left of `td_data`.
unfoldable pub write_values : (width : ℕ) → (rounds : ℕ) → List ℤ → ℕ → W ℕ
write_values width zero values bwritten = pure bwritten
write_values width (suc rounds) [] bwritten = λ _. undefined
write_values width (suc rounds) (z ∷ values) bwritten = do
  rv ← or_die (write_value width z)
  write_values width rounds values (bwritten + rv)

-- Back to the size field of the header, and back again.
unfoldable pub update_ssize : W (Unit {0})
update_ssize wr = elim (yytbl_write32 wr.total_written (record wr { position = wr.th_ssize_pos })) [
  | done _ wr' ↦ done tt (record wr' {
    position = wr.position;
    total_written = (wr'.total_written + 2 ^ 32 - 4) % 2 ^ 32;
  })
  | failed ↦ died
  | died ↦ died
  | undefined ↦ undefined
]

unfoldable pub write_body : Data → W ℕ
write_body td = do
  bwritten ← write_values (flags_to_bytes td.td_flags) (yytbl_calc_total_len td) td.td_data 12
  if bwritten == 12 + yytbl_calc_total_len td * flags_to_bytes td.td_flags
      then (do pad ← or_die yytbl_write_pad64; update_ssize; pure (bwritten + pad))
      else λ _. died

unfoldable pub yytbl_data_fwrite : Data → W ℕ
yytbl_data_fwrite td =
    if ltb (yytbl_calc_total_len td) (2 ^ 31)
    then (do
      _ ← yytbl_write16 td.td_id
      _ ← yytbl_write16 td.td_flags
      _ ← yytbl_write32 td.td_hilen
      _ ← yytbl_write32 td.td_lolen
      write_body td)
    else λ _. undefined
