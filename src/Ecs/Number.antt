-- ===== src/Ecs/Number.antt =====
-- `cre8ecs` numbers the classes in the order of their leaders.
use native.Mathlib.Nat.{add-zero, zero-add}
use native.Mathlib.Numerals.{add-one}
use flex_cmake_old.Prelude.{
  le→leb, subst, ℕ, zero, suc, ◌+◌, ◌≤◌, ◌<◌, ◌≡◌, ◌≢◌, ◌∙◌, refl, ◌==◌, leb, if◌then◌else◌, Bool,
  true, false, ◌&&◌, arith, inl, inr, Bool-cases, ==_refl, ==_ne,
}
use flex_cmake_old.Prelude.Int.{ℤ, pos, neg, is_zero}
use flex_cmake_old.Ecs.{Links, update, mark_members, number_step, number_loop, cre8ecs}
use flex_cmake_old.Ecs.Linked.{IsLinked}
use flex_cmake_old.Ecs.Leader.{
  leader, leader_nil, leader_bck, leader-le, leader-ne-zero, bck-leader, next-le, leader-fwd,
}

-- How many of 1 .. i lead a class.
unfoldable pub rank : Links → ℕ → ℕ
rank l zero = 0
rank l (suc i) = rank l i + (if l.bck (suc i) == 0 then 1 else 0)

-- The number that stands at a member: positive at the leader, negated elsewhere.
unfoldable pub numbered : Links → ℕ → ℤ
numbered l x = if l.bck x == 0 then pos (rank l (leader l x)) else neg (rank l (leader l x))

if_join :
    (r e : Bool) (v g : ℤ)
    → (if r then v else if e then v else g) ≡ (if (if e then true else r) then v else g)
if_join true true v g = refl
if_join true false v g = refl
if_join false true v g = refl
if_join false false v g = refl

is_zero-neg : (n : ℕ) → 0 < n → is_zero (neg n) ≡ false
is_zero-neg zero h = absurd (omega arith)
is_zero-neg (suc n) h = refl

suc_add : (a b : ℕ) → suc a + b ≡ a + suc b
suc_add a b = omega arith

module _ {num : ℕ} {l : Links} (w : IsLinked num l) where
  mark_nil : (fuel n : ℕ) (group : ℕ → ℤ) → mark_members fuel l.fwd n 0 group ≡ group
  unfolding mark_members
  mark_nil zero n group = refl
  mark_nil (suc fuel) n group = refl

  -- `x` is a member of the class of `j`, and not before it.
  abbrev reached : ℕ → ℕ → Bool
  reached j x = (leader l x == leader l j) && leb j x

  reached_last : (j x : ℕ) → l.fwd j ≡ 0 → reached j x ≡ (x == j)
  reached_last j x e = ground (arith, next-le w j x)

  reached_next :
      (j x : ℕ) → l.fwd j ≢ 0 → reached j x ≡ (if x == j then true else reached (l.fwd j) x)
  reached_next j x h = ground (arith, next-le w j x, leader-fwd w j h, w.fwd_up j h)

  reached_self : (j : ℕ) → l.fwd j ≢ 0 → reached (l.fwd j) j ≡ false
  reached_self j h = ground (arith, leader-fwd w j h, w.fwd_up j h)

  -- The walk from `j` reaches the members of its class from `j` on, and no other.
  mark_members_lem :
      (fuel n j : ℕ) (group : ℕ → ℤ)
      → j ≢ 0
      → j ≤ num
      → num < fuel + j
      → (x : ℕ) → mark_members fuel l.fwd n j group x ≡ (if reached j x then neg n else group x)
  unfolding mark_members update
  mark_members_lem zero n j group m b h x = absurd (omega arith)
  mark_members_lem (suc fuel) n j group m b h x =
      rw (==_ne j 0 m) (elim (Bool-cases (l.fwd j == 0)) [
        | inl last ↦
            let e : l.fwd j ≡ 0 = ground arith in rw (e, mark_nil fuel n _, reached_last j x e) refl
        | inr more ↦
            let ne : l.fwd j ≢ 0 = ground arith in
            mark_members_lem fuel n (l.fwd j) _ ne (w.fwd_up j ne).1 (omega (arith, w.fwd_up j ne))
              x
            ∙ rw (reached_next j x ne) (if_join (reached (l.fwd j) x) (x == j) (neg n) (group x))
      ])

  -- What a round writes when `i` leads a class.
  mark_class :
      (n i : ℕ) (group : ℕ → ℤ)
      → i ≢ 0
      → i ≤ num
      → l.bck i ≡ 0
      → (x : ℕ)
      → mark_members num l.fwd n (l.fwd i) (update group i (pos n)) x
        ≡ (if x == i then pos n else if leader l x == i then neg n else group x)
  unfolding update
  mark_class n i group m b nil x = elim (Bool-cases (l.fwd i == 0)) [
    | inl last ↦
        let e : l.fwd i ≡ 0 = ground arith in
        rw (e, mark_nil num n _) (ground (arith, next-le w i x, leader_nil w i nil, leader-le w x))
    | inr more ↦
        let ne : l.fwd i ≢ 0 = ground arith in
        mark_members_lem num n (l.fwd i) _ ne (w.fwd_up i ne).1 (omega (arith, w.fwd_up i ne)) x
        ∙ ground (
          arith,
          next-le w i x,
          leader_nil w i nil,
          leader-fwd w i ne,
          leader-le w x,
          w.fwd_up i ne,
        )
  ]

  -- The array when the rounds below `i` are done.
  pub record Done (i : ℕ) (s : ℕ × (ℕ → ℤ)) : Type 0 where
    pub count : s.0 ≡ rank l i
    pub entry : (x : ℕ) → s.1 x ≡ (if leb (leader l x) i then numbered l x else pos (l.bck x))

  pub rank_pos : (i : ℕ) → i ≢ 0 → l.bck i ≡ 0 → 0 < rank l i
  unfolding rank
  rank_pos zero m e = absurd (m refl)
  rank_pos (suc i) m e = rw e (omega arith)

  pub numbered_leads : (x : ℕ) → l.bck x ≡ 0 → numbered l x ≡ pos (rank l x)
  unfolding numbered
  numbered_leads x e = rw (e, leader_nil w x e)

  pub numbered_member : (x : ℕ) → l.bck x ≢ 0 → numbered l x ≡ neg (rank l (leader l x))
  unfolding numbered
  numbered_member x h = rw (==_ne (l.bck x) 0 h)

  -- The entry that `mark_class` leaves, when `suc i` leads.
  entry_leads :
      (i n : ℕ) (group : ℕ → ℤ) (x : ℕ)
      → l.bck (suc i) ≡ 0
      → n ≡ rank l (suc i)
      → group x ≡ (if leb (leader l x) i then numbered l x else pos (l.bck x))
      → (if x == suc i then pos n else if leader l x == suc i then neg n else group x)
        ≡ (if leb (leader l x) (suc i) then numbered l x else pos (l.bck x))
  entry_leads i n group x nil e g = elim (Bool-cases (x == suc i)) [
    | inl here ↦
        let same : x ≡ suc i = ground arith in
        rw (same, ==_refl (suc i), leader_nil w (suc i) nil, numbered_leads (suc i) nil, e)
          (ground arith)
    | inr other ↦ elim (Bool-cases (leader l x == suc i)) [
      | inl led ↦
          let at : leader l x ≡ suc i = ground arith in
          let ne : l.bck x ≢ 0 = (λ b. ground (arith, leader_nil w x b)) in
          rw (other, numbered_member x ne, at, e) (ground arith)
      | inr not_led ↦ rw (other, not_led, g) (ground arith)
    ]
  ]

  number_step-Done :
      (i : ℕ) (s : ℕ × (ℕ → ℤ))
      → suc i ≤ num
      → Done i s
      → Done (suc i) (number_step num l.fwd (suc i) s)
  unfolding number_step rank
  number_step-Done i (numcl, group) b d = elim (Bool-cases (l.bck (suc i) == 0)) [
    | inl leads ↦
        let nil : l.bck (suc i) ≡ 0 = ground arith in
        let zero_entry : is_zero (group (suc i)) ≡ true =
          rw (d.entry (suc i), nil) (ground (arith, leader_nil w (suc i) nil)) in
        rw zero_entry (record {
          count = ground (arith, d.count);
          entry = λ x.
              mark_class (numcl + 1) (suc i) group (omega arith) b nil x
              ∙ entry_leads i (numcl + 1) group x nil (ground (arith, d.count)) (d.entry x);
        })
    | inr member ↦
        let ne : l.bck (suc i) ≢ 0 = ground arith in
        let lower : leader l (suc i) ≤ i =
          omega
            (arith, leader_bck w (suc i) ne, leader-le w (l.bck (suc i)), w.bck_down (suc i) ne) in
        let nonzero : is_zero (group (suc i)) ≡ false =
          rw (d.entry (suc i), le→leb _ _ lower, numbered_member (suc i) ne)
            (is_zero-neg _ (
              rank_pos (leader l (suc i)) (leader-ne-zero w (suc i) (omega arith))
                (bck-leader w (suc i)))) in
        rw nonzero (record {
          count = ground (arith, d.count);
          entry = λ x. d.entry x ∙ ground (arith, bck-leader w x);
        })
  ]

  number_loop-Done :
      (rounds i : ℕ) (s : ℕ × (ℕ → ℤ))
      → i + rounds ≤ num
      → Done i s
      → Done (i + rounds) (number_loop num l.fwd rounds (suc i) s)
  unfolding number_loop
  number_loop-Done zero i s b d = rw add-zero d
  number_loop-Done (suc rounds) i s b d =
      rw (← suc_add i rounds, add-one)
        (number_loop-Done rounds (suc i) _ (omega arith) (number_step-Done i s (omega arith) d))

  start_entry :
      (x : ℕ) → pos (l.bck x) ≡ (if leb (leader l x) 0 then numbered l x else pos (l.bck x))
  unfolding rank
  start_entry x = elim (Bool-cases (x == 0)) [
    | inl nil ↦
        let e : x ≡ 0 = ground arith in
        let b : l.bck 0 ≡ 0 = ground (arith, w.bck_down 0) in
        rw (e, numbered_leads 0 b, b) (ground arith)
    | inr member ↦ ground (arith, leader-ne-zero w x)
  ]

  pub cre8ecs-Done : Done num (cre8ecs l num)
  unfolding cre8ecs rank
  cre8ecs-Done =
      subst (λ k. Done k (cre8ecs l num)) (zero-add num)
        (number_loop-Done num 0 (0, λ i. pos (l.bck i)) (omega arith)
          (record { count = refl; entry = start_entry }))
