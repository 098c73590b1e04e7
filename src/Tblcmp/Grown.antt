-- ===== src/Tblcmp/Grown.antt =====
-- Tables with longer vectors that read the same, and tables whose end is free.
use flex_cmake_old.Prelude.{
  ℕ, zero, suc, ◌+◌, ◌-◌, ◌<◌, ◌≤◌, ◌≡◌, refl, ap, ◌∙◌, arith, List, [], ◌∷◌, ◌++◌, length,
  length-append, length-replicate, replicate,
}
use flex_cmake_old.Prelude.Int.{pos}
use flex_cmake_old.Common.{ok, at}
use flex_cmake_old.Tblcmp.State.{Tables, grow}
use flex_cmake_old.Tblcmp.Single.{look, look-grown}

-- The vectors have one length, all is free behind `tblend`, and there is a free place behind it.
pub record IsOpen (t : Tables) : Type 0 where
  pub lengths : length t.nxt ≡ length t.chk
  pub free : (q : ℕ) → t.tblend < q → look 0 t.chk q ≡ 0
  pub room : 0 < t.tblend → t.tblend + 2 ≤ length t.chk

-- Only the lengths of the vectors differ.
pub record Grows (t t' : Tables) : Type 0 where
  pub chk : (q : ℕ) → look 0 t'.chk q ≡ look 0 t.chk q
  pub nxt : (q : ℕ) → look (pos 0) t'.nxt q ≡ look (pos 0) t.nxt q
  pub lengths : length t'.nxt ≡ length t'.chk
  pub longer : length t.chk ≤ length t'.chk
  pub tblend : t'.tblend ≡ t.tblend
  pub capacity : t'.capacity ≡ t.capacity
  pub base : t'.base ≡ t.base
  pub def : t'.def ≡ t.def

pub Grows-refl : (t : Tables) → length t.nxt ≡ length t.chk → Grows t t
Grows-refl t e = record {
  chk = λ q. refl;
  nxt = λ q. refl;
  lengths = e;
  longer = omega arith;
  tblend = refl;
  capacity = refl;
  base = refl;
  def = refl;
}

pub Grows-trans : (t t' t'' : Tables) → Grows t t' → Grows t' t'' → Grows t t''
Grows-trans t t' t'' g h = record {
  chk = λ q. h.chk q ∙ g.chk q;
  nxt = λ q. h.nxt q ∙ g.nxt q;
  lengths = h.lengths;
  longer = omega (arith, g.longer, h.longer);
  tblend = h.tblend ∙ g.tblend;
  capacity = h.capacity ∙ g.capacity;
  base = h.base ∙ g.base;
  def = h.def ∙ g.def;
}

length-grown :
    {A : Type 0} (xs : List A) (n : ℕ) (d : A) → length (xs ++ replicate n d) ≡ length xs + n
length-grown xs n d =
    length-append xs (replicate n d) ∙ ap (λ m. length xs + m) (length-replicate n d)

pub grow-Grows :
    (n : ℕ) (t : Tables)
    → length t.nxt ≡ length t.chk
    → Grows t (grow n t) × (n ≤ length (grow n t).chk)
unfolding grow
grow-Grows n t e =
    let chk = length-grown t.chk (n - length t.chk) 0 in
    let nxt = length-grown t.nxt (n - length t.nxt) (pos 0) in
    (
      record {
        chk = look-grown 0 t.chk (n - length t.chk);
        nxt = look-grown (pos 0) t.nxt (n - length t.nxt);
        lengths = omega arith;
        longer = omega arith;
        tblend = refl;
        capacity = refl;
        base = refl;
        def = refl;
      },
      omega arith,
    )

pub at-look : (xs : List ℕ) (q : ℕ) → q < length xs → at xs q ≡ ok (look 0 xs q)
unfolding at look
at-look [] q h = absurd (omega arith)
at-look (x ∷ xs) zero h = refl
at-look (x ∷ xs) (suc q) h = at-look xs q (omega arith)
