-- ===== src/Tests/GenRuns.antt =====
-- Runs of the table generator and its theorems at concrete inputs.
use flex_cmake_old.Prelude.{
  arith, set, ℕ, ◌+◌, ◌*◌, ◌<◌, ◌≤◌, ◌≡◌, refl, true, false, List, [], ◌∷◌, ◌++◌, length, drop,
}
use flex_cmake_old.Prelude.Int.{ℤ, pos, negsuc}
use flex_cmake_old.Common.{ok, fault, at}
use flex_cmake_old.Misc.Strings.{codes}
use flex_cmake_old.Misc.Data.{DataOutput}
use flex_cmake_old.Misc.Data.Listed.{unspaced, content, listed}
use flex_cmake_old.Context.{Buffer, new_buffer}
use flex_cmake_old.Tables.Write.{Data}
use flex_cmake_old.Gen.Arrays.{out_str_dec, mkecstbl, genecs, int_type, mkftbl, genftbl}
use flex_cmake_old.Gen.Agree.{closing, genecs-mkecstbl, genftbl-mkftbl}
use flex_cmake_old.Gen.Full.{Full, prepare, stored_pairs, mkctbl}
use flex_cmake_old.Gen.Room.{mkctbl-bounds}

abbrev quiet_output : DataOutput
quiet_output = record { gentables = true; datapos = 0; dataline = 0; processed_file = new_buffer }

abbrev group : ℕ → ℤ
group i = negsuc i

genecs-mkecstbl_example :
    (content ((genecs 4 group quiet_output).1).processed_file
      ≡ content (out_str_dec (codes "YY_CHAR") (codes "yy_ec") 4 quiet_output).processed_file
        ++ (listed 0 (drop 1 ((mkecstbl 4 group new_buffer).0).td_data) ++ unspaced closing))
    × ((genecs 4 group quiet_output).0 ≡ (mkecstbl 4 group new_buffer).1)
genecs-mkecstbl_example = genecs-mkecstbl 4 group new_buffer quiet_output refl refl

-- One state with the base 1, and a table that ends at 2.
abbrev one_state : Full
one_state = record {
  chk = pos 0 ∷ pos 0 ∷ pos 0 ∷ [];
  nxt = pos 0 ∷ pos 0 ∷ pos 0 ∷ [];
  states = (7, pos 1) ∷ [];
  last_base = pos 0;
  tblend = 2;
  numecs = 2;
}

abbrev prepared : Full
prepared = record one_state {
  chk = negsuc 1 ∷ negsuc 0 ∷ pos 0 ∷ pos 3 ∷ pos 1 ∷ [];
  nxt = pos 7 ∷ pos 0 ∷ pos 0 ∷ pos 5 ∷ pos 0 ∷ [];
  last_base = pos 4;
}

abbrev five_pairs : List ℤ
five_pairs = pos 0 ∷ pos 7 ∷ pos 0 ∷ pos 3 ∷ pos 0 ∷ pos 0 ∷ pos 3 ∷ pos 5 ∷ pos 1 ∷ pos 0 ∷ []

prepare_one : prepare 5 one_state ≡ ok prepared
unfolding prepare
prepare_one = refl

stored_one : stored_pairs prepared ≡ ok five_pairs
unfolding stored_pairs at
stored_one = refl

mkctbl-bounds_example :
    (2 ≤ 2
      → (tbl : Data) × (yydmap' : Buffer) × (mkctbl false 5 one_state new_buffer
          ≡ ok (tbl, prepared, yydmap'))
        × (length tbl.td_data ≡ tbl.td_lolen * 2)
        × (tbl.td_lolen ≡ 2 + 2 + 1))
    × (2 < 2 → mkctbl false 5 one_state new_buffer ≡ fault)
mkctbl-bounds_example =
    mkctbl-bounds false 5 one_state prepared new_buffer five_pairs prepare_one stored_one

-- Three states, of which the last is the end-of-buffer state.
genftbl-mkftbl_example :
    (tbl : Data) × (yydmap' : Buffer) × (d' : DataOutput) × (mkftbl true 3 5
        (0 ∷ 2 ∷ 0 ∷ 0 ∷ [])
        new_buffer
      ≡ ok (tbl, set (0 ∷ 2 ∷ 0 ∷ 0 ∷ []) 3 5, yydmap'))
    × (genftbl true false 3 5 4 group (0 ∷ 2 ∷ 0 ∷ 0 ∷ []) quiet_output
        ≡ ok (set (0 ∷ 2 ∷ 0 ∷ 0 ∷ []) 3 5, group, d'))
    × (content d'.processed_file
        ≡ content (out_str_dec (int_type true) (codes "yy_accept") 4 quiet_output).processed_file
          ++ (listed 0 (drop 1 tbl.td_data) ++ unspaced closing))
genftbl-mkftbl_example =
    genftbl-mkftbl true 3 5 4 group (0 ∷ 2 ∷ 0 ∷ 0 ∷ []) new_buffer quiet_output refl refl
      (omega arith)
