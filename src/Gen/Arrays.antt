-- ===== src/Gen/Arrays.antt =====
-- The tables of one number for each class, state or rule in src/gen.cpp: mkeoltbl, geneoltbl, mkecstbl,
-- genecs, mkftbl and genftbl, without the trace.
use flex_cmake_old.Prelude.{
  ℕ, zero, suc, ◌+◌, ◌-◌, ◌%◌, ◌==◌, ltb, if◌then◌else◌, Bool, List, [], ◌∷◌, ◌++◌, map, length,
  set, drop,
}
use flex_cmake_old.Prelude.Int.{ℤ, pos, abs}
use flex_cmake_old.Common.{Result, ok, fault, ◌>>=◌}
use flex_cmake_old.Misc.Strings.{Codes, codes}
use flex_cmake_old.Misc.Data.{DataOutput, decimal, put_chars, end_line, mkdata, dataend}
use flex_cmake_old.Nfa.State.{Rule}
use flex_cmake_old.Context.{Buffer, add_line}
use flex_cmake_old.Tables.Write.{Data}

-- The declaration of a table with `n` elements, by the name of its type.
unfoldable pub out_str_dec : (type str : Codes) → (n : ℕ) → DataOutput → DataOutput
unfolding put_chars decimal
out_str_dec type str n d =
    let filled =
      codes "static yyconst "
      ++ (type
          ++ (codes " "
              ++ (str ++ (codes "[" ++ (decimal (pos n) ++ codes "] =\n    {   0,\n"))))) in
    let null = codes "static yyconst " ++ (type ++ (codes " * " ++ (str ++ codes " = 0;\n"))) in
    put_chars (if d.gentables then filled else null) d

unfoldable pub out_line : Codes → DataOutput → DataOutput
unfolding put_chars end_line
out_line s d = end_line (put_chars s d)

-- `rules[i].has_nl ? 1 : 0`
unfoldable pub can_match_eol : Rule → ℕ
can_match_eol r = if r.has_nl then 1 else 0

-- The table and the text of `yydmap_buf`. The element 0 is the zero of calloc.
unfoldable pub mkeoltbl : List Rule → Buffer → Data × Buffer
unfolding can_match_eol add_line
mkeoltbl rules yydmap = (
  record {
    td_id = 9;
    td_flags = 1;
    td_hilen = 0;
    td_lolen = length rules;
    td_data = pos 0 ∷ map (λ r. pos (can_match_eol r)) (drop 1 rules);
  },
  add_line
      (codes
        "\t{YYTD_ID_RULE_CAN_MATCH_EOL, (void**)&yy_rule_can_match_eol, sizeof(flex_int32_t)},")
      yydmap,
)

unfoldable pub eol_loop : List Rule → (i : ℕ) → DataOutput → DataOutput
unfolding can_match_eol out_line put_chars decimal
eol_loop [] i d = d
eol_loop (r ∷ rules) i d =
    let d1 = out_line (decimal (pos (can_match_eol r)) ++ codes ", ") d in
    eol_loop rules (i + 1) (if (i % 20) == 19 then put_chars (codes "\n    ") d1 else d1)

unfoldable pub geneoltbl : List Rule → DataOutput → DataOutput
unfolding out_line out_str_dec eol_loop put_chars
geneoltbl rules d =
    let d1 =
      out_line (codes "/* Table of booleans, true if rule could match eol. */")
        (out_line (codes "m4_ifdef( [[M4_YY_USE_LINENO]],[[") d) in
    let d2 = out_str_dec (codes "flex_int32_t") (codes "yy_rule_can_match_eol") (length rules) d1 in
    let d3 =
      if d.gentables then put_chars (codes "    };\n") (eol_loop (drop 1 rules) 1 d2) else d2 in
    out_line (codes "]])") d3

-- `ecgroup[i] = abs(ecgroup[i])` for the characters from 1 on.
unfoldable pub positive_group : (csize : ℕ) → (ecgroup : ℕ → ℤ) → ℕ → ℤ
positive_group csize ecgroup i =
    if i == 0 then ecgroup i else if ltb i csize then pos (abs (ecgroup i)) else ecgroup i

unfoldable pub group_values : (rounds i : ℕ) → (ecgroup : ℕ → ℤ) → List ℤ
group_values zero i ecgroup = []
group_values (suc rounds) i ecgroup = pos (abs (ecgroup i)) ∷ group_values rounds (i + 1) ecgroup

unfoldable pub mkecstbl : (csize : ℕ) → (ecgroup : ℕ → ℤ) → Buffer → Data × (ℕ → ℤ) × Buffer
unfolding group_values positive_group add_line
mkecstbl csize ecgroup yydmap = (
  record {
    td_id = 5;
    td_flags = 4;
    td_hilen = 0;
    td_lolen = csize;
    td_data = pos 0 ∷ group_values (csize - 1) 1 ecgroup;
  },
  positive_group csize ecgroup,
  add_line (codes "\t{YYTD_ID_EC, (void**)&yy_ec, sizeof(YY_CHAR)},") yydmap,
)

unfoldable pub ecs_loop : (rounds i : ℕ) → (ecgroup : ℕ → ℤ) → DataOutput → DataOutput
unfolding mkdata
ecs_loop zero i ecgroup d = d
ecs_loop (suc rounds) i ecgroup d =
    ecs_loop rounds (i + 1) ecgroup (mkdata (pos (abs (ecgroup i))) d)

unfoldable pub genecs : (csize : ℕ) → (ecgroup : ℕ → ℤ) → DataOutput → (ℕ → ℤ) × DataOutput
unfolding out_str_dec ecs_loop dataend positive_group
genecs csize ecgroup d = (
  positive_group csize ecgroup,
  dataend (ecs_loop (csize - 1) 1 ecgroup (out_str_dec (codes "YY_CHAR") (codes "yy_ec") csize d)),
)

-- `dfas[end_of_buffer_state].acc_state = EOB_ACTION`, which is rules.size(), on the accepting numbers.
unfoldable pub accept_eob : (end_of_buffer_state num_rules : ℕ) → List ℕ → Result (List ℕ)
accept_eob end_of_buffer_state num_rules acc_states =
    if ltb end_of_buffer_state (length acc_states)
    then ok (set acc_states end_of_buffer_state num_rules)
    else fault

unfoldable pub int_type : (long_align : Bool) → Codes
int_type long_align = if long_align then codes "flex_int32_t" else codes "flex_int16_t"

-- The accepting numbers of the states, with those that are stored.
unfoldable pub mkftbl :
    (long_align : Bool)
    → (end_of_buffer_state num_rules : ℕ) → List ℕ
    → Buffer
    → Result (Data × List ℕ × Buffer)
unfolding accept_eob add_line int_type
mkftbl long_align end_of_buffer_state num_rules acc_states yydmap = do
  stored ← accept_eob end_of_buffer_state num_rules acc_states
  ok (
    record {
      td_id = 1;
      td_flags = 4;
      td_hilen = 0;
      td_lolen = length acc_states;
      td_data = pos 0 ∷ map (λ n. pos n) (drop 1 stored);
    },
    stored,
    add_line
        (codes "\t{YYTD_ID_ACCEPT, (void**)&yy_accept, sizeof("
          ++ (int_type long_align ++ codes ")},"))
        yydmap,
  )

unfoldable pub accept_loop : List ℕ → DataOutput → DataOutput
unfolding mkdata
accept_loop [] d = d
accept_loop (n ∷ acc_states) d = accept_loop acc_states (mkdata (pos n) d)

unfoldable pub genftbl :
    (long_align useecs : Bool)
    → (end_of_buffer_state num_rules csize : ℕ) → (ecgroup : ℕ → ℤ) → List ℕ
    → DataOutput
    → Result (List ℕ × (ℕ → ℤ) × DataOutput)
unfolding out_str_dec accept_eob accept_loop dataend genecs int_type
genftbl long_align useecs end_of_buffer_state num_rules csize ecgroup acc_states d = do
  stored ← accept_eob end_of_buffer_state num_rules acc_states
  let d1 = dataend (
      accept_loop (drop 1 stored)
        (out_str_dec (int_type long_align) (codes "yy_accept") (length acc_states) d))
  let (group, d2) = genecs csize ecgroup d1
  ok (if useecs then (stored, group, d2) else (stored, ecgroup, d1))
