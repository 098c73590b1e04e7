-- ===== src/Gen/Room.antt =====
-- When the array of `mkctbl` in src/gen.cpp is long enough.
use flex_cmake_old.Prelude.{
  ℕ, zero, suc, ◌+◌, ◌-◌, ◌*◌, ◌<◌, ◌≤◌, ◌≡◌, refl, ap, ◌∙◌, sym, arith, ltb, Bool, true, false,
  List, [], ◌∷◌, ◌++◌, length, length-append, length-replicate, replicate,
}
use flex_cmake_old.Prelude.Int.{ℤ, pos, negsuc}
use flex_cmake_old.Common.{ok, fault}
use flex_cmake_old.Context.{Buffer}
use flex_cmake_old.Misc.Data.{DataOutput}
use flex_cmake_old.Tables.Write.{Data}
use flex_cmake_old.Gen.Full.{
  Full, write_at, end_slots, mark_state, mark_states, prepare, stored_pairs, mkctbl,
}
use flex_cmake_old.Gen.Pairs.{flat, written_pairs-stored_pairs, ok_cases, ok_value, bound, refused}

length-flat : (ps : List (ℤ × ℤ)) → length (flat ps) ≡ length ps * 2
unfolding flat
length-flat [] = refl
length-flat ((a, b) ∷ ps) = omega (arith, length-flat ps)

end_slots-tblend :
    (num_rules : ℕ) (t t' : Full) → end_slots num_rules t ≡ ok t' → t'.tblend ≡ t.tblend
unfolding end_slots
end_slots-tblend num_rules t t' e =
    let chk = t.chk ++ replicate (t.tblend + 3 - length t.chk) (pos 0) in
    let nxt = t.nxt ++ replicate (t.tblend + 3 - length t.nxt) (pos 0) in
    let (nxt1, _, e1) = ok_cases _ (write_at nxt (t.tblend + 1) (pos num_rules)) e in
    let (chk1, _, e2) = ok_cases _ (write_at chk (t.tblend + 1) (pos (t.numecs + 1))) e1 in
    let (chk2, _, e3) = ok_cases _ (write_at chk1 (t.tblend + 2) (pos 1)) e2 in
    let (nxt2, _, e4) = ok_cases _ (write_at nxt1 (t.tblend + 2) (pos 0)) e3 in
    sym (ap (λ (r : Full). r.tblend) (ok_value e4))

mark_state-tblend :
    (anum : ℕ) (offset : ℤ) (t t' : Full) → mark_state anum offset t ≡ ok t' → t'.tblend ≡ t.tblend
unfolding mark_state
mark_state-tblend anum (negsuc n) t t' e = cc
mark_state-tblend anum (pos zero) t t' e = cc
mark_state-tblend anum (pos (suc n)) t t' e =
    let (chk1, _, e1) = ok_cases _ (write_at t.chk (suc n) (negsuc 0)) e in
    let (chk2, _, e2) = ok_cases _ (write_at chk1 n (negsuc 1)) e1 in
    let (nxt1, _, e3) = ok_cases _ (write_at t.nxt n (pos anum)) e2 in
    sym (ap (λ (r : Full). r.tblend) (ok_value e3))

mark_states-tblend :
    (states : List (ℕ × ℤ)) (t t' : Full) → mark_states states t ≡ ok t' → t'.tblend ≡ t.tblend
unfolding mark_states
mark_states-tblend [] t t' e = sym (ap (λ (r : Full). r.tblend) (ok_value e))
mark_states-tblend ((anum, offset) ∷ states) t t' e =
    let (a, e1, e2) = ok_cases _ (mark_state anum offset t) e in
    mark_states-tblend states a t' e2 ∙ mark_state-tblend anum offset t a e1

prepare-tblend : (num_rules : ℕ) (t t' : Full) → prepare num_rules t ≡ ok t' → t'.tblend ≡ t.tblend
unfolding prepare
prepare-tblend num_rules t t' e =
    let (a, e1, e2) = ok_cases _ (end_slots num_rules t) e in
    mark_states-tblend a.states a t' e2 ∙ end_slots-tblend num_rules t a e1

-- Where the pairs can be computed: with two or more equivalence classes, mkctbl returns an array of
-- tblend + numecs + 1 pairs. With fewer it writes past the end of its array.
pub mkctbl-bounds :
    (long_align : Bool) (num_rules : ℕ) (t t' : Full) (yydmap : Buffer) (tdata : List ℤ)
    → prepare num_rules t ≡ ok t'
    → stored_pairs t' ≡ ok tdata
    → (2 ≤ t.numecs
        → (tbl : Data) × (yydmap' : Buffer) × (mkctbl long_align num_rules t yydmap
            ≡ ok (tbl, t', yydmap'))
          × (length tbl.td_data ≡ tbl.td_lolen * 2)
          × (tbl.td_lolen ≡ t.tblend + t.numecs + 1))
      × (t.numecs < 2 → mkctbl long_align num_rules t yydmap ≡ fault)
unfolding mkctbl
mkctbl-bounds long_align num_rules t t' yydmap tdata e f =
    let d : DataOutput = record {
      gentables = false;
      datapos = 0;
      dataline = 0;
      processed_file = yydmap;
    } in
    let (ps, same, count, _) = written_pairs-stored_pairs t' d tdata f in
    let size : length tdata ≡ (t.tblend + 3) * 2 =
      ap (λ r. length r) same
      ∙ length-flat ps
      ∙ omega (arith, count, prepare-tblend num_rules t t' e) in
    let lolen = t.tblend + t.numecs + 1 in
    let rest = length-replicate (lolen * 2 - length tdata) (pos 0) in
    let whole = length-append tdata (replicate (lolen * 2 - length tdata) (pos 0)) in
    (
      (λ many.
          let under : ltb (lolen * 2) (length tdata) ≡ false = ground (arith, size) in
          (_, _, bound _ _ e ∙ bound _ _ f ∙ refused _ _ under, omega (arith, size), refl)),
      λ few.
          let over : ltb (lolen * 2) (length tdata) ≡ true = ground (arith, size) in
          bound _ _ e ∙ bound _ _ f ∙ rw over refl,
    )
