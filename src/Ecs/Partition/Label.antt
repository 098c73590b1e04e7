-- ===== src/Ecs/Partition/Label.antt =====
-- Doubly linked lists whose links keep a label, and that have one list for each label.
use flex_cmake_old.Prelude.{
  ℕ, zero, suc, ◌≤◌, ◌<◌, ◌≡◌, ◌≢◌, ◌↔◌, ap, ◌∙◌, sym, arith, ◌==◌, ltb, Bool-cases, inl, inr,
}
use flex_cmake_old.Ecs.{Links}
use flex_cmake_old.Ecs.Linked.{IsLinked}
use flex_cmake_old.Ecs.Leader.{leader, leader_nil, leader_bck, bck-leader, leader-ne-zero}

module _ {A : Type 0} {num : ℕ} {l : Links} (w : IsLinked num l) (label : ℕ → A)
    (kept : (x : ℕ) → l.bck x ≢ 0 → label (l.bck x) ≡ label x)
    (single : (x y : ℕ) → x ≢ 0 → x < y → label x ≡ label y → l.bck y ≢ 0) where
  label_fuel : (k x : ℕ) → x ≤ k → label (leader l x) ≡ label x
  label_fuel zero x h = ap label (leader_nil w x (ground (arith, w.bck_down x)))
  label_fuel (suc k) x h = elim (Bool-cases (l.bck x == 0)) [
    | inl nil ↦ ap label (leader_nil w x (ground arith))
    | inr behind ↦
        let b : l.bck x ≢ 0 = ground arith in
        ap label (leader_bck w x b)
        ∙ label_fuel k (l.bck x) (omega (arith, w.bck_down x b))
        ∙ kept x b
  ]

  pub label-leader : (x : ℕ) → label (leader l x) ≡ label x
  label-leader x = label_fuel x x (omega arith)

  not_before : (x y : ℕ) → x ≢ 0 → label x ≡ label y → leader l x < leader l y → ⊥
  not_before x y p e lt =
      single (leader l x) (leader l y) (leader-ne-zero w x p) lt
        (label-leader x ∙ e ∙ sym (label-leader y)) (bck-leader w y)

  -- Two members are in one list exactly if they have one label.
  pub leader-label : (x y : ℕ) → x ≢ 0 → y ≢ 0 → (leader l x ≡ leader l y) ↔ (label x ≡ label y)
  leader-label x y p q = (
    (λ e. sym (label-leader x) ∙ ap label e ∙ label-leader y),
    λ e. elim (Bool-cases (ltb (leader l x) (leader l y))) [
      | inl lt ↦ absurd (not_before x y p e (ground arith))
      | inr ge ↦ elim (Bool-cases (ltb (leader l y) (leader l x))) [
        | inl gt ↦ absurd (not_before y x q (sym e) (ground arith))
        | inr le ↦ ground arith
      ]
    ],
  )
