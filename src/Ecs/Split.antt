-- ===== src/Ecs/Split.antt =====
-- What `mkechar` does to the classes.
use flex_cmake_old.Prelude.{
  ℕ, zero, suc, ◌≤◌, ◌<◌, ◌≡◌, ◌≢◌, ◌↔◌, ◌==◌, if◌then◌else◌, arith, inl, inr, Bool-cases, ==_iff,
  sym, ◌∙◌,
}
use flex_cmake_old.Ecs.{Links, mkechar}
use flex_cmake_old.Ecs.Linked.{IsLinked, mkechar_bck, mkechar-IsLinked}
use flex_cmake_old.Ecs.Leader.{
  leader, leader_nil, leader_bck, leader-le, bck-leader, leader-fwd, leader-leader, next-le,
}

module _ {num : ℕ} {l : Links} (w : IsLinked num l) (tch : ℕ) (member : tch ≢ 0) where
  abbrev Splits : ℕ → Type 0
  Splits x =
      leader (mkechar tch l) x
      ≡ (if x == tch then tch else if leader l x == tch then l.fwd tch else leader l x)

  at_root : (x : ℕ) → (mkechar tch l).bck x ≡ 0 → l.bck x ≡ 0 → x ≢ tch → Splits x
  at_root x e b ne =
      ground (arith, leader_nil (mkechar-IsLinked w tch member) x e, leader_nil w x b)

  at_tch : Splits tch
  at_tch =
      ground (arith, mkechar_bck w tch member tch, leader_nil (mkechar-IsLinked w tch member) tch)

  -- The member behind `tch` takes over its backward link.
  at_next : l.fwd tch ≢ 0 → (l.bck tch ≢ 0 → Splits (l.bck tch)) → Splits (l.fwd tch)
  at_next h ih = elim (Bool-cases (l.bck tch == 0)) [
    | inl nil ↦ ground (
      arith,
      mkechar_bck w tch member (l.fwd tch),
      leader_nil (mkechar-IsLinked w tch member) (l.fwd tch),
      leader-fwd w tch h,
      leader_nil w tch,
      w.fwd_up tch h,
    )
    | inr behind ↦ ground (
      arith,
      mkechar_bck w tch member (l.fwd tch),
      leader_bck (mkechar-IsLinked w tch member) (l.fwd tch),
      leader-fwd w tch h,
      leader_bck w tch,
      w.fwd_up tch h,
      w.bck_down tch,
      ih,
    )
  ]

  at_other :
      (x : ℕ) → x ≢ tch → x ≢ l.fwd tch → (l.bck x ≢ 0 → Splits (l.bck x)) → l.bck x ≢ 0 → Splits x
  at_other x ne nx ih b = ground (
    arith,
    mkechar_bck w tch member x,
    leader_bck (mkechar-IsLinked w tch member) x,
    leader_bck w x b,
    w.bck_down x b,
    ih b,
  )

  split_fuel : (k x : ℕ) → x ≤ k → Splits x
  split_fuel zero x h =
      at_root x (ground (arith, mkechar_bck w tch member x)) (ground (arith, w.bck_down x))
        (omega arith)
  split_fuel (suc k) x h = elim (Bool-cases (x == tch)) [
    | inl here ↦ rw ((==_iff x tch).0 here) at_tch
    | inr not_here ↦ elim (Bool-cases (l.bck x == 0)) [
      | inl nil ↦
          at_root x (ground (arith, mkechar_bck w tch member x, w.fwd_up tch)) (ground arith)
            (ground arith)
      | inr behind ↦ elim (Bool-cases (x == l.fwd tch)) [
        | inl next ↦
            let e : x ≡ l.fwd tch = ground arith in
            rw e (
              at_next (ground (arith, w.bck_down x)) (λ b.
                split_fuel k (l.bck tch)
                  (ground (arith, w.bck_down tch, w.fwd_up tch, w.bck_down x))))
        | inr other ↦
            at_other x (ground arith) (ground arith)
              (λ b. split_fuel k (l.bck x) (omega (arith, w.bck_down x b))) (ground arith)
      ]
    ]
  ]

  -- The leader of every object afterwards.
  pub leader-mkechar :
      (x : ℕ)
      → leader (mkechar tch l) x
        ≡ (if x == tch then tch else if leader l x == tch then l.fwd tch else leader l x)
  leader-mkechar x = split_fuel x x (omega arith)

  -- A class led by `tch` that has another member goes on behind `tch`.
  fwd_ne :
      (x : ℕ)
      → x ≢ tch
      → leader l x ≡ tch
      → (l.fwd tch ≢ 0) × (tch < l.fwd tch) × (l.bck (l.fwd tch) ≡ tch)
  fwd_ne x ne e =
      let next : l.fwd tch ≢ 0 =
        (next-le w tch x (rw e at (leader-leader w x) ∙ sym e) (omega (arith, leader-le w x))).0 in
      (next, (w.fwd_up tch next).0, (w.fwd_up tch next).2)

  -- `mkechar` puts `tch` in a class of its own, and parts no other two objects and joins none: two
  -- others are in one class afterwards exactly when they were before.
  pub mkechar_classes :
      ((x : ℕ) → x ≢ 0 → x ≢ tch → leader (mkechar tch l) x ≢ leader (mkechar tch l) tch)
      × ((x y : ℕ)
          → x ≢ tch
          → y ≢ tch
          → (leader (mkechar tch l) x ≡ leader (mkechar tch l) y) ↔ (leader l x ≡ leader l y))
  mkechar_classes = (
    λ x m ne. ground (arith, leader-mkechar x, leader-mkechar tch, fwd_ne x),
    λ x y nx ny. (
      λ e. ground (
        arith,
        leader-mkechar x,
        leader-mkechar y,
        fwd_ne x,
        fwd_ne y,
        bck-leader w x,
        bck-leader w y,
      ),
      λ e. ground (arith, leader-mkechar x, leader-mkechar y),
    ),
  )
