-- ===== src/Gen/Agree.antt =====
-- The text of the tables of src/gen.cpp against the tables that are stored.
use mathlib.Core.List.{append_assoc}
use flex_cmake_old.Prelude.{
  ℕ, zero, suc, ◌+◌, ◌-◌, ◌≡◌, refl, ap, ◌∙◌, arith, ◌==◌, if◌then◌else◌, Bool, true, false, List,
  [], ◌∷◌, ◌++◌, map, drop, ◌<◌, length, set, ltb, lt→ltb,
}
use flex_cmake_old.Prelude.Int.{ℤ, pos, abs}
use flex_cmake_old.Common.{ok, fault}
use flex_cmake_old.Misc.Strings.{Codes, codes}
use flex_cmake_old.Misc.Data.{
  DataOutput, put_chars, end_line, flush_line, dataflush, dataend, mkdata,
}
use flex_cmake_old.Misc.Data.Listed.{
  unspaced, content, content-put_text, content-put_eol, content-flush_line, chosen, mkdata_all,
  listed, mkdata_all-listed, mkdata_all-generating,
}
use flex_cmake_old.Context.{Buffer, put_text, put_eol}
use flex_cmake_old.Tables.Write.{Data}
use flex_cmake_old.Gen.Pairs.{bound}
use flex_cmake_old.Gen.Arrays.{
  out_str_dec, group_values, mkecstbl, ecs_loop, genecs, accept_eob, accept_loop, mkftbl, genftbl,
  int_type,
}

-- The text that ends a table.
abbrev pub closing : Codes
closing = codes "    } ;\n"

flushed_file :
    (d : DataOutput) (b : Bool)
    → d.gentables ≡ true
    → content (if b then d else dataflush d).processed_file ≡ content d.processed_file
unfolding dataflush
flushed_file d true on = refl
flushed_file d false on =
    ap (λ r. content r.processed_file) (chosen d.gentables (flush_line d) d on)
    ∙ content-flush_line d

dataend-file :
    (d : DataOutput)
    → d.gentables ≡ true
    → (dataend d).processed_file
      ≡ put_eol (put_text closing (if d.datapos == 0 then d else dataflush d).processed_file)
unfolding dataend end_line put_chars
dataend-file d on = ap (λ (r : DataOutput). r.processed_file) (chosen d.gentables _ _ on)

dataend-content :
    (d : DataOutput)
    → d.gentables ≡ true
    → content (dataend d).processed_file ≡ content d.processed_file ++ unspaced closing
dataend-content d on =
    ap content (dataend-file d on)
    ∙ content-put_eol _
    ∙ content-put_text closing _
    ∙ ap (λ t. t ++ unspaced closing) (flushed_file d (d.datapos == 0) on)

ecs_loop-mkdata_all :
    (rounds i : ℕ) (ecgroup : ℕ → ℤ) (d : DataOutput)
    → ecs_loop rounds i ecgroup d ≡ mkdata_all (group_values rounds i ecgroup) d
unfolding ecs_loop mkdata_all group_values
ecs_loop-mkdata_all zero i ecgroup d = refl
ecs_loop-mkdata_all (suc rounds) i ecgroup d =
    ecs_loop-mkdata_all rounds (i + 1) ecgroup (mkdata (pos (abs (ecgroup i))) d)

-- The values of a table and its end.
table_text :
    (values : List ℤ) (d : DataOutput)
    → d.gentables ≡ true
    → d.datapos ≡ 0
    → content (dataend (mkdata_all values d)).processed_file
      ≡ content d.processed_file ++ (listed 0 values ++ unspaced closing)
table_text values d on start =
    let (all, _) = mkdata_all-listed values d on (omega arith) in
    dataend-content (mkdata_all values d) (mkdata_all-generating values d on)
    ∙ rw (all, start) (append_assoc (content d.processed_file) (listed 0 values) (unspaced closing))

declared :
    (type str : Codes) (n : ℕ) (d : DataOutput)
    → ((out_str_dec type str n d).gentables ≡ d.gentables)
      × ((out_str_dec type str n d).datapos ≡ d.datapos)
unfolding out_str_dec put_chars
declared type str n d = (refl, refl)

-- While tables are generated, at the start of a table: genecs writes, behind its declaration and spaces
-- aside, exactly the values that mkecstbl stores from index 1 on, with commas between them; and both
-- leave the same classes.
pub genecs-mkecstbl :
    (csize : ℕ) (ecgroup : ℕ → ℤ) (yydmap : Buffer) (d : DataOutput)
    → d.gentables ≡ true
    → d.datapos ≡ 0
    → (content ((genecs csize ecgroup d).1).processed_file
        ≡ content (out_str_dec (codes "YY_CHAR") (codes "yy_ec") csize d).processed_file
          ++ (listed 0 (drop 1 ((mkecstbl csize ecgroup yydmap).0).td_data) ++ unspaced closing))
      × ((genecs csize ecgroup d).0 ≡ (mkecstbl csize ecgroup yydmap).1)
unfolding genecs mkecstbl
genecs-mkecstbl csize ecgroup yydmap d on start =
    let d1 = out_str_dec (codes "YY_CHAR") (codes "yy_ec") csize d in
    let (gen, at_start) = declared (codes "YY_CHAR") (codes "yy_ec") csize d in
    (
      ap (λ r. content (dataend r).processed_file) (ecs_loop-mkdata_all (csize - 1) 1 ecgroup d1)
          ∙ table_text (group_values (csize - 1) 1 ecgroup) d1 (gen ∙ on) (at_start ∙ start),
      refl,
    )

accept_loop-mkdata_all :
    (acc_states : List ℕ) (d : DataOutput)
    → accept_loop acc_states d ≡ mkdata_all (map (λ n. pos n) acc_states) d
unfolding accept_loop mkdata_all
accept_loop-mkdata_all [] d = refl
accept_loop-mkdata_all (n ∷ acc_states) d = accept_loop-mkdata_all acc_states (mkdata (pos n) d)

-- While tables are generated, at the start of a table and without equivalence classes, for an
-- end-of-buffer state that is there: both functions give that state the end-of-buffer action, and
-- genftbl writes, behind its declaration and spaces aside, exactly the accepting numbers that mkftbl
-- stores from index 1 on.
pub genftbl-mkftbl :
    (long_align : Bool) (end_of_buffer_state num_rules csize : ℕ) (ecgroup : ℕ → ℤ)
    (acc_states : List ℕ) (yydmap : Buffer) (d : DataOutput)
    → d.gentables ≡ true
    → d.datapos ≡ 0
    → end_of_buffer_state < length acc_states
    → (tbl : Data) × (yydmap' : Buffer) × (d' : DataOutput) × (mkftbl long_align end_of_buffer_state
          num_rules acc_states yydmap
        ≡ ok (tbl, set acc_states end_of_buffer_state num_rules, yydmap'))
      × (genftbl long_align false end_of_buffer_state num_rules csize ecgroup acc_states d
          ≡ ok (set acc_states end_of_buffer_state num_rules, ecgroup, d'))
      × (content d'.processed_file
          ≡ content
              (out_str_dec
                (int_type long_align)
                (codes "yy_accept")
                (length acc_states)
                d).processed_file
            ++ (listed 0 (drop 1 tbl.td_data) ++ unspaced closing))
unfolding mkftbl genftbl accept_eob
genftbl-mkftbl long_align end_of_buffer_state num_rules csize ecgroup acc_states yydmap d on start
      there =
    let d1 = out_str_dec (int_type long_align) (codes "yy_accept") (length acc_states) d in
    let (gen, at_start) =
      declared (int_type long_align) (codes "yy_accept") (length acc_states) d in
    let stored = set acc_states end_of_buffer_state num_rules in
    let kept =
      chosen (ltb end_of_buffer_state (length acc_states)) (ok stored) fault (lt→ltb _ _ there) in
    (
      _,
      _,
      _,
      bound _ _ kept,
      bound _ _ kept,
      ap (λ r. content (dataend r).processed_file) (accept_loop-mkdata_all (drop 1 stored) d1)
          ∙ table_text (map (λ n. pos n) (drop 1 stored)) d1 (gen ∙ on) (at_start ∙ start),
    )
