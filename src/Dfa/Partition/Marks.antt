-- ===== src/Dfa/Partition/Marks.antt =====
-- What the marks on `symlist` say in `sympartition`.
use flex_cmake_old.Prelude.{
  ℕ, zero, suc, ◌+◌, ◌-◌, ◌≤◌, ◌<◌, ◌≡◌, ◌∙◌, arith, ltb, leb, if◌then◌else◌, not, ◌&&◌, ◌||◌, Bool,
  true, [], ◌∷◌, All,
}
use flex_cmake_old.CharacterTable.{CharacterTable, contains, IsClassTable}
use flex_cmake_old.Ecs.Partition.{set_flag}
use flex_cmake_old.Ecs.Partition.Search.{contains-below}
use flex_cmake_old.Dfa.Partition.{mark_gap, nul_class, mark_outside, mark_members}

mark_gap_lem :
    (rounds j : ℕ) (symlist : ℕ → Bool) (x : ℕ)
    → mark_gap rounds j symlist x ≡ (symlist x || (leb j x && ltb x (j + rounds)))
unfolding mark_gap set_flag
mark_gap_lem zero j symlist x = ground arith
mark_gap_lem (suc rounds) j symlist x =
    ground (arith, mark_gap_lem rounds (j + 1) (set_flag symlist j true) x)

pub mark_members_lem :
    (nul_ec : ℕ) (table : CharacterTable) (symlist : ℕ → Bool) (x : ℕ)
    → All (λ c. 0 < c) table
    → mark_members nul_ec table symlist x ≡ (symlist x || contains x table)
unfolding mark_members contains nul_class set_flag
mark_members_lem nul_ec [] symlist x h = ground arith
mark_members_lem nul_ec (c ∷ table) symlist x (p, ps) =
    ground (arith, mark_members_lem nul_ec table (set_flag symlist (nul_class nul_ec c) true) x ps)

pub mark_outside_lem :
    (numecs nul_ec : ℕ) (table : CharacterTable) (j : ℕ) (symlist : ℕ → Bool) (x : ℕ)
    → All (λ c. j < c) table
    → IsClassTable table
    → x ≤ numecs
    → mark_outside numecs nul_ec table j symlist x
      ≡ (symlist x || (ltb j x && not (contains x table)))
unfolding mark_outside contains nul_class IsClassTable
mark_outside_lem numecs nul_ec [] j symlist x a t le =
    ground (arith, mark_gap_lem (numecs - j) (j + 1) symlist x)
mark_outside_lem numecs nul_ec (c ∷ table) j symlist x (lt, a) ((above, up), (positive, ps)) le =
    let e : nul_class nul_ec c ≡ c = ground (arith, positive) in
    let next : (if leb c (j + 1) then j + 1 else c) ≡ c = ground (arith, lt) in
    rw (e, next)
      (mark_outside_lem numecs nul_ec table c (mark_gap (c - (j + 1)) (j + 1) symlist) x above
          (up, ps) le
        ∙ ground (
          arith,
          lt,
          mark_gap_lem (c - (j + 1)) (j + 1) symlist x,
          contains-below x c table above,
        ))
