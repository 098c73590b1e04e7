-- ===== src/Dfa/Partition.antt =====
-- `sympartition` of src/dfa.cpp: the equivalence classes parted by the transitions of a state set.
pub mod Marks
pub mod Symbols
use flex_cmake_old.Prelude.{
  ℕ, zero, suc, ◌+◌, ◌-◌, ◌==◌, leb, if◌then◌else◌, Bool, true, List, [], ◌∷◌, length, drop,
}
use flex_cmake_old.Prelude.Int.{ℤ, pos, negsuc, abs, is_negative}
use flex_cmake_old.Common.{Result, ok, exit, fault, bad_transition, ◌>>=◌, at}
use flex_cmake_old.CharacterTable.{CharacterTable}
use flex_cmake_old.Ccl.{CharacterClass, CharacterClasses}
use flex_cmake_old.Ecs.{Links, mkechar, one_class}
use flex_cmake_old.Ecs.Partition.{Flags, set_flag, mkeccl}
use flex_cmake_old.Nfa.State.{Nfa, is_epsilon}

-- `dupfwd` and `duplist` are the links, `flags` the static array of `mkeccl`, and `symlist` says which
-- classes have transitions.
pub record Partition : Type 0 where
  pub links : Links
  pub flags : Flags
  pub symlist : ℕ → Bool

-- `for (++j; j < ich; ++j) symlist[j] = 1`, of which `rounds` is the number.
unfoldable pub mark_gap : (rounds j : ℕ) → (ℕ → Bool) → ℕ → Bool
unfolding set_flag
mark_gap zero j symlist = symlist
mark_gap (suc rounds) j symlist = mark_gap rounds (j + 1) (set_flag symlist j true)

-- NUL stands for its equivalence class.
unfoldable pub nul_class : (nul_ec ch : ℕ) → ℕ
nul_class nul_ec ch = if ch == 0 then nul_ec else ch

-- The loops for a negated class: all but its members are marked. `j` is the member before.
unfoldable pub mark_outside : (numecs nul_ec : ℕ) → CharacterTable → (j : ℕ) → (ℕ → Bool) → ℕ → Bool
unfolding mark_gap nul_class
mark_outside numecs nul_ec [] j symlist = mark_gap (numecs - j) (j + 1) symlist
mark_outside numecs nul_ec (ch ∷ table) j symlist =
    let ich = nul_class nul_ec ch in
    mark_outside numecs nul_ec table (if leb ich (j + 1) then j + 1 else ich)
      (mark_gap (ich - (j + 1)) (j + 1) symlist)

unfoldable pub mark_members : (nul_ec : ℕ) → CharacterTable → (ℕ → Bool) → ℕ → Bool
unfolding set_flag nul_class
mark_members nul_ec [] symlist = symlist
mark_members nul_ec (ch ∷ table) symlist =
    mark_members nul_ec table (set_flag symlist (nul_class nul_ec ch) true)

unfoldable pub part_by_character : (ec : ℕ) → Partition → Partition
unfolding set_flag
part_by_character ec p = record p {
  links = mkechar ec p.links;
  symlist = set_flag p.symlist ec true;
}

unfoldable pub part_by_class : (numecs nul_ec : ℕ) → CharacterClass → Partition → Partition
unfolding mark_outside mark_members
part_by_class numecs nul_ec ccl p =
    let (l, flags) = mkeccl ccl.table numecs nul_ec (p.links, p.flags) in
    record {
      links = l;
      flags = flags;
      symlist =
          if ccl.ng
          then mark_outside numecs nul_ec ccl.table 0 p.symlist
          else mark_members nul_ec ccl.table p.symlist;
    }

-- The round for a state, by its `transchar`. A class index past the vector and a character past `csize`
-- end flex. A negative class, which a member has that is no leader, would be a negative index.
unfoldable pub part_by_state :
    (csize numecs nul_ec : ℕ)
    → CharacterClasses
    → (ecgroup : ℕ → ℤ) → ℤ
    → Partition
    → Result Partition
unfolding part_by_character part_by_class
part_by_state csize numecs nul_ec ccls ecgroup (pos tch) p =
    if is_epsilon (pos tch)
    then ok p
    else if leb csize tch
    then exit bad_transition
    else if is_negative (ecgroup tch)
    then fault
    else ok (part_by_character (abs (ecgroup tch)) p)
part_by_state csize numecs nul_ec ccls ecgroup (negsuc k) p =
    if leb (length ccls) (suc k)
    then exit bad_transition
    else (do ccl ← at ccls (suc k); ok (part_by_class numecs nul_ec ccl p))

unfoldable pub part_loop :
    (csize numecs nul_ec : ℕ)
    → List Nfa
    → CharacterClasses
    → (ecgroup : ℕ → ℤ) → List ℕ
    → Partition
    → Result Partition
unfolding part_by_state
part_loop csize numecs nul_ec nfas ccls ecgroup [] p = ok p
part_loop csize numecs nul_ec nfas ccls ecgroup (ns ∷ ds) p = do
  n ← at nfas ns
  p' ← part_by_state csize numecs nul_ec ccls ecgroup n.transchar p
  part_loop csize numecs nul_ec nfas ccls ecgroup ds p'

-- All classes are in one list at first.
unfoldable pub sympartition :
    (csize numecs nul_ec : ℕ)
    → List Nfa
    → CharacterClasses
    → (ecgroup : ℕ → ℤ) → (ds : List ℕ) → (symlist : ℕ → Bool) → Flags
    → Result Partition
unfolding part_loop
sympartition csize numecs nul_ec nfas ccls ecgroup ds symlist flags =
    part_loop csize numecs nul_ec nfas ccls ecgroup (drop 1 ds)
      (record { links = one_class numecs; flags = flags; symlist = symlist })
