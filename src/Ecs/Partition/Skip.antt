-- ===== src/Ecs/Partition/Skip.antt =====
-- What `skip_flagged` of `mkeccl` passes over.
use flex_cmake_old.Prelude.{
  ℕ, ◌+◌, ◌≤◌, ◌≡◌, ◌≢◌, refl, ◌∙◌, arith, inl, inr, Bool-cases, false, [], ◌∷◌, length,
}
use flex_cmake_old.CharacterTable.{CharacterTable, contains, IsClassTable}
use flex_cmake_old.Ecs.Partition.{Flags, set_flag, skip_flagged}
use flex_cmake_old.Ecs.Partition.Search.{rank, pending, contains-below, rank-below}

-- The flags are down but for the members from the index `it` on.
abbrev pub IsClean : (it : ℕ) → CharacterTable → Flags → Type 0
IsClean it cs flags = (j : ℕ) → (it ≤ j → it + length cs ≤ j) → flags j ≡ false

-- What `skip_flagged` passes is not pending.
pub record Skipped (cs : CharacterTable) (it : ℕ) (flags : Flags) (r : CharacterTable × ℕ × Flags)
    : Type 0 where
  pub table : IsClassTable r.0
  pub fewer : length r.0 ≤ length cs
  pub at_start : r.0 ≢ [] → r.2 r.1 ≡ false
  pub same_pending : (x : ℕ) → pending r.2 r.1 r.0 x ≡ pending flags it cs x
  pub clean : IsClean it cs flags → IsClean r.1 r.0 r.2

pub skip_flagged_lem :
    (cs : CharacterTable) (it : ℕ) (flags : Flags)
    → IsClassTable cs
    → Skipped cs it flags (skip_flagged cs it flags)
unfolding skip_flagged IsClassTable set_flag pending contains rank
skip_flagged_lem [] it flags t = record {
  table = t;
  fewer = omega arith;
  at_start = λ h. absurd (h refl);
  same_pending = λ x. refl;
  clean = λ h. h;
}
skip_flagged_lem (c ∷ cs) it flags t = elim (Bool-cases (flags it)) [
  | inl flagged ↦
      let s = skip_flagged_lem cs (it + 1) (set_flag flags it false) (t.0.1, t.1.1) in
      rw flagged (record {
        table = s.table;
        fewer = omega (arith, s.fewer);
        at_start = s.at_start;
        same_pending = λ x.
            s.same_pending x
            ∙ ground (arith, flagged, contains-below x c cs t.0.0, rank-below x c cs t.0.0);
        clean = λ h. s.clean (λ j o. ground (arith, h j));
      })
  | inr open_one ↦ rw open_one (record {
    table = t;
    fewer = omega arith;
    at_start = λ h. open_one;
    same_pending = λ x. refl;
    clean = λ h. h;
  })
]
