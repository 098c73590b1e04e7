-- ===== src/Ecs/Linked.antt =====
-- The arrays hold doubly linked lists in increasing order, before and after `mkechar`.
use flex_cmake_old.Prelude.{ℕ, ◌≤◌, ◌<◌, ◌≡◌, ◌≢◌, ◌==◌, if◌then◌else◌, arith}
use flex_cmake_old.Ecs.{Links, one_class, mkechar}

-- The links lead up to at most `num` and back down.
pub record IsLinked (num : ℕ) (l : Links) : Type 0 where
  pub fwd_nil : l.fwd 0 ≡ 0
  pub fwd_up : (i : ℕ) → l.fwd i ≢ 0 → (i < l.fwd i) × (l.fwd i ≤ num) × (l.bck (l.fwd i) ≡ i)
  pub bck_down : (i : ℕ) → l.bck i ≢ 0 → (l.bck i < i) × (i ≤ num) × (l.fwd (l.bck i) ≡ i)

pub one_class-IsLinked : (num : ℕ) → IsLinked num (one_class num)
unfolding one_class
one_class-IsLinked num = record {
  fwd_nil = ground arith;
  fwd_up = λ i h. ground arith;
  bck_down = λ i h. ground arith;
}

module _ {num : ℕ} {l : Links} (w : IsLinked num l) (tch : ℕ) (member : tch ≢ 0) where
  pub mkechar_bck :
      (i : ℕ)
      → (mkechar tch l).bck i ≡ (
          if i == tch
          then 0
          else if i == 0
          then 0
          else if i == l.fwd tch
          then l.bck tch
          else l.bck i)
  unfolding mkechar
  mkechar_bck i = ground (arith, w.bck_down i)

  pub mkechar_fwd :
      (i : ℕ)
      → (mkechar tch l).fwd i ≡ (
          if i == tch
          then 0
          else if i == 0
          then 0
          else if i == l.bck tch
          then l.fwd tch
          else l.fwd i)
  unfolding mkechar
  mkechar_fwd i = ground (arith, w.fwd_nil)

  -- `mkechar` keeps the arrays doubly linked.
  pub mkechar-IsLinked : IsLinked num (mkechar tch l)
  mkechar-IsLinked = record {
    fwd_nil = ground (arith, mkechar_fwd 0);
    fwd_up = λ i h. ground (
      arith,
      mkechar_fwd i,
      mkechar_bck ((mkechar tch l).fwd i),
      w.fwd_up i,
      w.fwd_up tch,
      w.bck_down tch,
      w.bck_down i,
    );
    bck_down = λ i h. ground (
      arith,
      mkechar_bck i,
      mkechar_fwd ((mkechar tch l).bck i),
      w.bck_down i,
      w.bck_down tch,
      w.fwd_up tch,
      w.fwd_up i,
    );
  }
