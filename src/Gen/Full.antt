-- ===== src/Gen/Full.antt =====
-- The transition table of full speed scanners in src/gen.cpp: mkctbl, mkssltbl and genctbl. `chk` holds
-- negative marks here.
use flex_cmake_old.Prelude.{
  ℕ, zero, suc, ◌+◌, ◌-◌, ◌*◌, ◌==◌, ltb, leb, if◌then◌else◌, Bool, ◌||◌, List, [], ◌∷◌, ◌++◌,
  length, set, replicate,
}
use flex_cmake_old.Prelude.Int.{ℤ, pos, negsuc, neg}
use flex_cmake_old.Common.{Result, ok, fault, ◌>>=◌, at}
use flex_cmake_old.Misc.Strings.{codes}
use flex_cmake_old.Misc.Data.{DataOutput, decimal, transition_struct_out, dataend}
use flex_cmake_old.Context.{Buffer, add_line}
use flex_cmake_old.Tables.Write.{Data}
use flex_cmake_old.Gen.Arrays.{out_line, genecs}

-- EOB_POSITION is -1 and ACTION_POSITION is -2.
abbrev pub eob_position : ℤ
eob_position = negsuc 0

abbrev pub action_position : ℤ
action_position = negsuc 1

abbrev pub is_eob : ℤ → Bool
is_eob (pos n) = 0 == 1
is_eob (negsuc n) = n == 0

abbrev pub is_action : ℤ → Bool
is_action (pos n) = 0 == 1
is_action (negsuc n) = n == 1

-- `states` are `acc_state` and `base` of the elements of `dfas`; `last_base` is the base of the element
-- behind them.
pub record Full : Type 0 where
  pub chk : List ℤ
  pub nxt : List ℤ
  pub states : List (ℕ × ℤ)
  pub last_base : ℤ
  pub tblend : ℕ
  pub numecs : ℕ

-- a - b
unfoldable pub minus : ℕ → ℕ → ℤ
minus a b = if ltb a b then neg (b - a) else pos (a - b)

unfoldable pub write_at : List ℤ → (i : ℕ) → ℤ → Result (List ℤ)
write_at xs i v = if ltb i (length xs) then ok (set xs i v) else fault

-- The two slots at the end, for the state without transitions. EOB_ACTION is `num_rules`.
unfoldable pub end_slots : (num_rules : ℕ) → Full → Result Full
unfolding write_at
end_slots num_rules t =
    let chk = t.chk ++ replicate (t.tblend + 3 - length t.chk) (pos 0) in
    let nxt = t.nxt ++ replicate (t.tblend + 3 - length t.nxt) (pos 0) in
    do
      nxt1 ← write_at nxt (t.tblend + 1) (pos num_rules)
      chk1 ← write_at chk (t.tblend + 1) (pos (t.numecs + 1))
      chk2 ← write_at chk1 (t.tblend + 2) (pos 1)
      nxt2 ← write_at nxt1 (t.tblend + 2) (pos 0)
      ok (record t { chk = chk2; nxt = nxt2; last_base = pos (t.tblend + 2) })

-- The marks of a state. A base below 1 would write before the start.
unfoldable pub mark_state : (anum : ℕ) → (offset : ℤ) → Full → Result Full
unfolding write_at
mark_state anum (negsuc n) t = fault
mark_state anum (pos zero) t = fault
mark_state anum (pos (suc n)) t = do
  chk1 ← write_at t.chk (suc n) eob_position
  chk2 ← write_at chk1 n action_position
  nxt1 ← write_at t.nxt n (pos anum)
  ok (record t { chk = chk2; nxt = nxt1 })

unfoldable pub mark_states : List (ℕ × ℤ) → Full → Result Full
unfolding mark_state
mark_states [] t = ok t
mark_states ((anum, offset) ∷ states) t = do t' ← mark_state anum offset t; mark_states states t'

-- What both functions do before their loops.
unfoldable pub prepare : (num_rules : ℕ) → Full → Result Full
unfolding end_slots mark_states
prepare num_rules t = do t' ← end_slots num_rules t; mark_states t'.states t'

-- `dfas[i].base`
unfoldable pub base_of : Full → ℤ → Result ℤ
base_of t (negsuc n) = fault
base_of t (pos n) =
    if n == length t.states then ok t.last_base else (do (_, base) ← at t.states n; ok base)

-- a - b, where `a` is a base.
unfoldable pub base_minus : ℤ → ℕ → ℤ
unfolding minus
base_minus (pos a) b = minus a b
base_minus (negsuc a) b = negsuc (a + b)

-- The offset of the next state from that of the state, which starts at `i - c`.
unfoldable pub offset_from : (base : ℤ) → (i c : ℕ) → ℤ
unfolding base_minus
offset_from (pos a) i c = base_minus (pos (a + c)) i
offset_from (negsuc a) i c =
    if leb c a then negsuc (a - c + i) else base_minus (pos (c - (a + 1))) i

-- `tdata[curr++] = a; tdata[curr++] = b` in `mkctbl`, by the tests in their order.
unfoldable pub store_case : Full → (i : ℕ) → (c next : ℤ) → List ℤ → Result (List ℤ)
unfolding base_minus offset_from base_of
store_case t i (negsuc c) next tdata =
    if is_eob (negsuc c)
    then ok (tdata ++ (pos 0 ∷ base_minus t.last_base i ∷ []))
    else if is_action (negsuc c)
    then ok (tdata ++ (pos 0 ∷ next ∷ []))
    else (do
      base ← base_of t next
      ok (tdata ++ (negsuc c ∷ offset_from base (i + (c + 1)) 0 ∷ [])))
store_case t i (pos c) next tdata =
    if ltb t.numecs c || (c == 0)
    then ok (tdata ++ (pos 0 ∷ pos 0 ∷ []))
    else (do base ← base_of t next; ok (tdata ++ (pos c ∷ offset_from base i c ∷ [])))

unfoldable pub store_slot : Full → (i : ℕ) → List ℤ → Result (List ℤ)
unfolding store_case
store_slot t i tdata = do c ← at t.chk i; next ← at t.nxt i; store_case t i c next tdata

-- The last two slots as they are.
unfoldable pub store_end : Full → (i : ℕ) → List ℤ → Result (List ℤ)
store_end t i tdata = do c ← at t.chk i; next ← at t.nxt i; ok (tdata ++ (c ∷ next ∷ []))

unfoldable pub store_loop : Full → (rounds i : ℕ) → List ℤ → Result (List ℤ)
unfolding store_slot
store_loop t zero i tdata = ok tdata
store_loop t (suc rounds) i tdata = do
  tdata' ← store_slot t i tdata
  store_loop t rounds (i + 1) tdata'

unfoldable pub stored_pairs : Full → Result (List ℤ)
unfolding store_loop store_end
stored_pairs t = do
  tdata ← store_loop t (t.tblend + 1) 0 []
  tdata1 ← store_end t (t.tblend + 1) tdata
  store_end t (t.tblend + 2) tdata1

-- The array has room for so many structures; the rest of it is zero, and there is none behind it.
unfoldable pub mkctbl :
    (long_align : Bool) → (num_rules : ℕ) → Full → Buffer → Result (Data × Full × Buffer)
unfolding prepare stored_pairs add_line
mkctbl long_align num_rules t yydmap = do
  t' ← prepare num_rules t
  tdata ← stored_pairs t'
  let lolen = t.tblend + t.numecs + 1
  let type = if leb 32767 lolen || long_align then codes "flex_int32_t" else codes "flex_int16_t"
  if ltb (lolen * 2) (length tdata)
      then fault
      else ok (
        record {
          td_id = 11;
          td_flags = 20;
          td_hilen = 0;
          td_lolen = lolen;
          td_data = tdata ++ replicate (lolen * 2 - length tdata) (pos 0);
        },
        t',
        add_line
            (codes "\t{YYTD_ID_TRANSITION, (void**)&yy_transition, sizeof("
              ++ (type ++ codes ")},"))
            yydmap,
      )

unfoldable pub start_bases : Full → (rounds i : ℕ) → Result (List ℤ)
unfolding base_of
start_bases t zero i = ok []
start_bases t (suc rounds) i = do
  base ← base_of t (pos i)
  rest ← start_bases t rounds (i + 1)
  ok (base ∷ rest)

-- `conditions` is start_conditions.size() - 1.
unfoldable pub mkssltbl : (conditions : ℕ) → Full → Buffer → Result (Data × Buffer)
unfolding start_bases add_line
mkssltbl conditions t yydmap = do
  bases ← start_bases t (conditions * 2 + 1) 0
  ok (
    record {
      td_id = 10;
      td_flags = 12;
      td_hilen = 0;
      td_lolen = conditions * 2 + 1;
      td_data = bases;
    },
    add_line
        (codes
          "\t{YYTD_ID_START_STATE_LIST, (void**)&yy_start_state_list, sizeof(struct yy_trans_info*)},")
        yydmap,
  )

-- The same tests in `genctbl`, which writes the pairs out.
unfoldable pub out_case : Full → (i : ℕ) → (c next : ℤ) → DataOutput → Result DataOutput
unfolding base_minus offset_from base_of transition_struct_out
out_case t i (negsuc c) next d =
    if is_eob (negsuc c)
    then ok (transition_struct_out (pos 0) (base_minus t.last_base i) d)
    else if is_action (negsuc c)
    then ok (transition_struct_out (pos 0) next d)
    else (do
      base ← base_of t next
      ok (transition_struct_out (negsuc c) (offset_from base (i + (c + 1)) 0) d))
out_case t i (pos c) next d =
    if ltb t.numecs c || (c == 0)
    then ok (transition_struct_out (pos 0) (pos 0) d)
    else (do base ← base_of t next; ok (transition_struct_out (pos c) (offset_from base i c) d))

unfoldable pub out_slot : Full → (i : ℕ) → DataOutput → Result DataOutput
unfolding out_case
out_slot t i d = do c ← at t.chk i; next ← at t.nxt i; out_case t i c next d

unfoldable pub out_end : Full → (i : ℕ) → DataOutput → Result DataOutput
unfolding transition_struct_out
out_end t i d = do c ← at t.chk i; next ← at t.nxt i; ok (transition_struct_out c next d)

unfoldable pub out_loop : Full → (rounds i : ℕ) → DataOutput → Result DataOutput
unfolding out_slot
out_loop t zero i d = ok d
out_loop t (suc rounds) i d = do d' ← out_slot t i d; out_loop t rounds (i + 1) d'

unfoldable pub written_pairs : Full → DataOutput → Result DataOutput
unfolding out_loop out_end
written_pairs t d = do
  d1 ← out_loop t (t.tblend + 1) 0 d
  d2 ← out_end t (t.tblend + 1) d1
  out_end t (t.tblend + 2) d2

unfoldable pub start_loop : List ℤ → DataOutput → DataOutput
unfolding out_line decimal
start_loop [] d = d
start_loop (base ∷ bases) d =
    start_loop bases (out_line (codes "    &yy_transition[" ++ (decimal base ++ codes "],")) d)

unfoldable pub transition_head : (slots : ℕ) → DataOutput → DataOutput
unfolding out_line decimal
transition_head slots d =
    if d.gentables
    then out_line (codes "    {") (
        out_line
          (codes "static yyconst struct yy_trans_info yy_transition["
            ++ (decimal (pos slots) ++ codes "] ="))
          d)
    else out_line (codes "static yyconst struct yy_trans_info *yy_transition = 0;") d

-- The list of start states; without tables only its declaration.
unfoldable pub start_list : (conditions : ℕ) → Full → DataOutput → Result DataOutput
unfolding out_line start_bases start_loop dataend decimal
start_list conditions t d =
    if d.gentables
    then (do
      bases ← start_bases t (conditions * 2 + 1) 0
      let head =
          out_line
            (codes "static yyconst struct yy_trans_info *yy_start_state_list["
              ++ (decimal (pos (conditions * 2 + 1)) ++ codes "] ="))
            (out_line (codes "    };\n") d)
      ok (dataend (start_loop bases (out_line (codes "    {") head))))
    else ok (out_line (codes "static yyconst struct yy_trans_info **yy_start_state_list =0;") d)

unfoldable pub genctbl :
    (useecs : Bool)
    → (conditions num_rules csize : ℕ) → (ecgroup : ℕ → ℤ) → Full
    → DataOutput
    → Result (Full × (ℕ → ℤ) × DataOutput)
unfolding transition_head prepare written_pairs start_list genecs
genctbl useecs conditions num_rules csize ecgroup t d = do
  t' ← prepare num_rules t
  d1 ← written_pairs t' (transition_head (t.tblend + t.numecs + 1) d)
  d2 ← start_list conditions t' d1
  let (group, d3) = genecs csize ecgroup d2
  ok (if useecs then (t', group, d3) else (t', ecgroup, d2))
