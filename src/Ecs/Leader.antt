-- ===== src/Ecs/Leader.antt =====
-- The leader of a class is its least member, found along the backward links.
use flex_cmake_old.Prelude.{
  ℕ, zero, suc, ◌≤◌, ◌<◌, ◌≡◌, ◌≢◌, refl, ◌==◌, if◌then◌else◌, arith, ==_ne,
}
use flex_cmake_old.Ecs.{Links}
use flex_cmake_old.Ecs.Linked.{IsLinked}

leader_fuel : (bck : ℕ → ℕ) → (fuel i : ℕ) → ℕ
leader_fuel bck zero i = i
leader_fuel bck (suc k) i = let up = leader_fuel bck k (bck i) in if bck i == 0 then i else up

-- `i` rounds are enough, since the links fall.
unfoldable pub leader : Links → ℕ → ℕ
unfolding leader_fuel
leader l i = leader_fuel l.bck i i

module _ {num : ℕ} {l : Links} (w : IsLinked num l) where
  leader_fuel_enough : (k m i : ℕ) → i ≤ k → i ≤ m → leader_fuel l.bck k i ≡ leader_fuel l.bck m i
  unfolding leader_fuel
  leader_fuel_enough zero zero i p q = refl
  leader_fuel_enough zero (suc m) i p q = ground (arith, w.bck_down i)
  leader_fuel_enough (suc k) zero i p q = ground (arith, w.bck_down i)
  leader_fuel_enough (suc k) (suc m) i p q =
      ground (arith, w.bck_down i, leader_fuel_enough k m (l.bck i))

  pub leader_nil : (i : ℕ) → l.bck i ≡ 0 → leader l i ≡ i
  unfolding leader leader_fuel
  leader_nil zero e = refl
  leader_nil (suc i) e = rw e

  pub leader_bck : (i : ℕ) → l.bck i ≢ 0 → leader l i ≡ leader l (l.bck i)
  unfolding leader leader_fuel
  leader_bck zero h = absurd (omega (arith, w.bck_down 0 h))
  leader_bck (suc i) h = rw (==_ne (l.bck (suc i)) 0 h) (
      leader_fuel_enough i (l.bck (suc i)) (l.bck (suc i)) (omega (arith, w.bck_down (suc i) h))
        (omega arith))

  leader_le_fuel : (k i : ℕ) → i ≤ k → leader l i ≤ i
  leader_le_fuel zero i h = ground (arith, leader_nil i, w.bck_down i)
  leader_le_fuel (suc k) i h =
      ground (arith, leader_nil i, w.bck_down i, leader_bck i, leader_le_fuel k (l.bck i))

  -- A leader is at most its members.
  pub leader-le : (i : ℕ) → leader l i ≤ i
  leader-le i = leader_le_fuel i i (omega arith)

  leader_bck_fuel : (k i : ℕ) → i ≤ k → l.bck (leader l i) ≡ 0
  leader_bck_fuel zero i h = ground (arith, leader_nil i, w.bck_down i)
  leader_bck_fuel (suc k) i h =
      ground (arith, leader_nil i, w.bck_down i, leader_bck i, leader_bck_fuel k (l.bck i))

  -- It has no backward link.
  pub bck-leader : (i : ℕ) → l.bck (leader l i) ≡ 0
  bck-leader i = leader_bck_fuel i i (omega arith)

  pub leader-leader : (i : ℕ) → leader l (leader l i) ≡ leader l i
  leader-leader i = leader_nil (leader l i) (bck-leader i)

  leader_ne_fuel : (k i : ℕ) → i ≤ k → i ≢ 0 → leader l i ≢ 0
  leader_ne_fuel zero i h m = absurd (m (omega arith))
  leader_ne_fuel (suc k) i h m =
      ground (arith, leader_nil i, w.bck_down i, leader_bck i, leader_ne_fuel k (l.bck i))

  pub leader-ne-zero : (i : ℕ) → i ≢ 0 → leader l i ≢ 0
  leader-ne-zero i = leader_ne_fuel i i (omega arith)

  -- Within a class the forward link leads to the next member: none lies in between.
  next_le_fuel :
      (k j x : ℕ) → x ≤ k → leader l j ≡ leader l x → j < x → (l.fwd j ≢ 0) × (l.fwd j ≤ x)
  next_le_fuel zero j x h e lt = absurd (omega arith)
  next_le_fuel (suc k) j x h e lt = ground (
    arith,
    leader_nil x,
    leader-le j,
    w.bck_down x,
    leader_bck x,
    next_le_fuel k j (l.bck x),
    next_le_fuel k (l.bck x) j,
  )

  pub next-le : (j x : ℕ) → leader l j ≡ leader l x → j < x → (l.fwd j ≢ 0) × (l.fwd j ≤ x)
  next-le j x = next_le_fuel x j x (omega arith)

  pub leader-fwd : (j : ℕ) → l.fwd j ≢ 0 → leader l (l.fwd j) ≡ leader l j
  leader-fwd j h = ground (arith, w.fwd_up j, leader_bck (l.fwd j), w.fwd_nil)
