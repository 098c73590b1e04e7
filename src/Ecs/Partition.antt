-- ===== src/Ecs/Partition.antt =====
-- `mkeccl` of src/ecs.cpp: the classes are parted along a character class.
pub mod Label
pub mod Lists
pub mod Close
pub mod Search
pub mod Along
pub mod Skip
pub mod Correct
pub mod Nul
use flex_cmake_old.Prelude.{
  ℕ, zero, suc, ◌+◌, ◌==◌, ltb, leb, if◌then◌else◌, Bool, true, false, not, ◌&&◌, ◌||◌, [], ◌∷◌,
  length,
}
use flex_cmake_old.CharacterTable.{CharacterTable}
use flex_cmake_old.Ecs.{Links, update}

-- `if (NUL_mapping && c == 0) c = NUL_mapping`
unfoldable pub map_nul : (nul_mapping c : ℕ) → ℕ
map_nul nul_mapping c = if not (nul_mapping == 0) && (c == 0) then nul_mapping else c

-- The static array of flags, by the index of the character in the class.
abbrev pub Flags : Type 0
Flags = ℕ → Bool

unfoldable pub set_flag : Flags → ℕ → Bool → Flags
set_flag f i v j = if j == i then v else f j

-- The walk along an old class: the ends of its two parts, and the characters of the class that are
-- still to be looked at, from the index `jt` on.
pub record Walk : Type 0 where
  pub links : Links
  pub flags : Flags
  pub oldec : ℕ
  pub newec : ℕ
  pub js : CharacterTable
  pub jt : ℕ

-- The search for the symbol `i` in the rest of the class. It stops at the symbol, with its index, or
-- at a larger one.
unfoldable pub find_symbol :
    (nul_mapping i : ℕ) → Flags → CharacterTable → (jt : ℕ) → Bool × CharacterTable × ℕ
unfolding map_nul
find_symbol nul_mapping i flags [] jt = (false, [], jt)
find_symbol nul_mapping i flags (j ∷ js) jt =
    let c = map_nul nul_mapping j in
    let rest = find_symbol nul_mapping i flags js (jt + 1) in
    if ltb i c
    then (false, j ∷ js, jt)
    else if (c == i) && not (flags jt)
    then (true, j ∷ js, jt)
    else rest

-- The symbol is linked into the new class and flagged.
unfoldable pub join_new : ℕ → Walk → Walk
unfolding set_flag update
join_new i w = record w {
  links = record { fwd = update w.links.fwd w.newec i; bck = update w.links.bck i w.newec };
  flags = set_flag w.flags w.jt true;
  newec = i;
}

-- The symbol stays in the old class.
unfoldable pub join_old : ℕ → Walk → Walk
unfolding update
join_old i w = record w {
  links = record {
    fwd = if w.oldec == 0 then w.links.fwd else update w.links.fwd w.oldec i;
    bck = update w.links.bck i w.oldec;
  };
  oldec = i;
}

unfoldable pub walk_step : (nul_mapping i : ℕ) → Walk → Walk
unfolding find_symbol join_new join_old
walk_step nul_mapping i w =
    let (found, js, jt) = find_symbol nul_mapping i w.flags w.js w.jt in
    let w' = record w { js = js; jt = jt } in if found then join_new i w' else join_old i w'

-- `for (i = fwd[cclm]; i != NIL && i <= llsiz; i = fwd[i])`; the links rise, so `llsiz` rounds are enough.
unfoldable pub walk_loop : (nul_mapping llsiz fuel i : ℕ) → Walk → Walk
unfolding walk_step
walk_loop nul_mapping llsiz zero i w = w
walk_loop nul_mapping llsiz (suc fuel) i w =
    let w' = walk_step nul_mapping i w in
    let rest = walk_loop nul_mapping llsiz fuel (w'.links.fwd i) w' in
    if not (i == 0) && leb i llsiz then rest else w

-- The ends of the two classes.
unfoldable pub close_lists : (cclm : ℕ) → Walk → Walk
unfolding update
close_lists cclm w =
    let parted = not (w.links.bck cclm == 0) || not (w.oldec == w.links.bck cclm) in
    let fwd = if parted then update w.links.fwd w.oldec 0 else w.links.fwd in
    record w {
      links = record {
        fwd = update fwd w.newec 0;
        bck = if parted then update w.links.bck cclm 0 else w.links.bck;
      };
    }

-- The round for a member of the class that is not flagged.
unfoldable pub part_class :
    (llsiz nul_mapping : ℕ)
    → (c : ℕ) → (rest : CharacterTable) → (it : ℕ) → Links × Flags
    → Links × Flags
unfolding map_nul walk_loop close_lists
part_class llsiz nul_mapping c rest it (l, flags) =
    let cclm = map_nul nul_mapping c in
    let start : Walk = record {
      links = l;
      flags = flags;
      oldec = l.bck cclm;
      newec = cclm;
      js = rest;
      jt = it + 1;
    } in
    let w = close_lists cclm (walk_loop nul_mapping llsiz llsiz (l.fwd cclm) start) in
    (w.links, w.flags)

-- The next member that is not flagged; the flags that are passed are reset.
unfoldable pub skip_flagged : CharacterTable → (it : ℕ) → Flags → CharacterTable × ℕ × Flags
unfolding set_flag
skip_flagged [] it flags = ([], it, flags)
skip_flagged (c ∷ cs) it flags =
    let rest = skip_flagged cs (it + 1) (set_flag flags it false) in
    if flags it then rest else (c ∷ cs, it, flags)

-- A round for each member is enough.
unfoldable pub eccl_loop :
    (llsiz nul_mapping fuel : ℕ) → CharacterTable → (it : ℕ) → Links × Flags → Links × Flags
unfolding part_class skip_flagged
eccl_loop llsiz nul_mapping zero cs it s = s
eccl_loop llsiz nul_mapping (suc fuel) [] it s = s
eccl_loop llsiz nul_mapping (suc fuel) (c ∷ cs) it s =
    let (l, flags) = part_class llsiz nul_mapping c cs it s in
    let (cs', it', flags') = skip_flagged cs (it + 1) flags in
    eccl_loop llsiz nul_mapping fuel cs' it' (l, flags')

-- The flags are kept from call to call.
unfoldable pub mkeccl : CharacterTable → (llsiz nul_mapping : ℕ) → Links × Flags → Links × Flags
unfolding eccl_loop
mkeccl table llsiz nul_mapping s = eccl_loop llsiz nul_mapping (length table) table 0 s
