-- ===== src/Tblcmp/Search.antt =====
-- The searches of `mkentry` in src/tblcmp.cpp: the symbols that need a place, and a base where they fit.
use flex_cmake_old.Prelude.{
  ℕ, zero, suc, ◌+◌, ◌-◌, ◌<◌, ◌≤◌, ◌≡◌, refl, ◌∙◌, sym, subst, arith, ◌==◌, ltb, leb, Bool, true,
  false, inl, inr, Bool-cases, List, length,
}
use flex_cmake_old.Prelude.Int.{ℤ}
use flex_cmake_old.Common.{ok, ◌>>=◌}
use flex_cmake_old.Tblcmp.State.{Tables, grow, next_free}
use flex_cmake_old.Tblcmp.Entry.{needed, min_loop, max_loop, raise_base, fits, fit_loop}
use flex_cmake_old.Tblcmp.Single.{look, next_free_free, bind-ok}
use flex_cmake_old.Tblcmp.Grown.{Grows, Grows-trans, grow-Grows, at-look}

module _ (state : ℕ → ℤ) (deflink : ℤ) where
  pub min_loop-le :
      (rounds minec j : ℕ)
      → minec ≤ j
      → needed state deflink j ≡ true
      → j < minec + rounds
      → min_loop state deflink rounds minec ≤ j
  unfolding min_loop
  min_loop-le zero minec j low n high = absurd (omega arith)
  min_loop-le (suc rounds) minec j low n high = elim (Bool-cases (needed state deflink minec)) [
    | inl e ↦ rw e low
    | inr e ↦ elim (Bool-cases (minec == j)) [
      | inl q ↦ absurd (differ (subst (λ k. needed state deflink k ≡ false) (same minec j q) e) n)
      | inr q ↦ rw e (min_loop-le rounds (minec + 1) j (ground arith) n (omega arith))
    ]
  ]
    where
      differ : {b : Bool} → b ≡ false → b ≡ true → ⊥
      differ e f = cc

      same : (a b : ℕ) → (a == b) ≡ true → a ≡ b
      same a b e = ground arith

  pub max_loop-ge :
      (maxec j : ℕ)
      → 0 < j
      → j ≤ maxec
      → needed state deflink j ≡ true
      → j ≤ max_loop state deflink maxec
  unfolding max_loop
  max_loop-ge zero j low high n = omega arith
  max_loop-ge (suc maxec) j low high n = elim (Bool-cases (needed state deflink (suc maxec))) [
    | inl e ↦ rw e high
    | inr e ↦ elim (Bool-cases (j == suc maxec)) [
      | inl q ↦
          absurd (differ (subst (λ k. needed state deflink k ≡ true) (same j (suc maxec) q) n) e)
      | inr q ↦ rw e (max_loop-ge maxec j low (ground arith) n)
    ]
  ]
    where
      differ : {b : Bool} → b ≡ true → b ≡ false → ⊥
      differ e f = cc

      same : (a b : ℕ) → (a == b) ≡ true → a ≡ b
      same a b e = ground arith

  pub min_loop-low : (rounds minec : ℕ) → minec ≤ min_loop state deflink rounds minec
  unfolding min_loop
  min_loop-low zero minec = omega arith
  min_loop-low (suc rounds) minec = elim (Bool-cases (needed state deflink minec)) [
    | inl e ↦ rw e (omega arith)
    | inr e ↦ rw e (omega (arith, min_loop-low rounds (minec + 1)))
  ]

  pub max_loop-high : (maxec : ℕ) → max_loop state deflink maxec ≤ maxec
  unfolding max_loop
  max_loop-high zero = omega arith
  max_loop-high (suc maxec) = elim (Bool-cases (needed state deflink (suc maxec))) [
    | inl e ↦ rw e (omega arith)
    | inr e ↦ rw e (omega (arith, max_loop-high maxec))
  ]

  -- The places that the symbols need, from `place` on, are free.
  abbrev pub Fit : List ℕ → (rounds i place : ℕ) → Type 0
  Fit chk rounds i place =
      (j : ℕ) → j < rounds → needed state deflink (i + j) ≡ true → look 0 chk (place + j) ≡ 0

  Fit-skip :
      (chk : List ℕ) (rounds i place : ℕ)
      → (needed state deflink i ≡ true → look 0 chk place ≡ 0)
      → Fit chk rounds (i + 1) (place + 1)
      → Fit chk (suc rounds) i place
  Fit-skip chk rounds i place first fit zero h m =
      let here : i ≡ i + 0 = omega arith in
      let there : place ≡ place + 0 = omega arith in
      subst (λ q. look 0 chk q ≡ 0) there
        (first (subst (λ k. needed state deflink k ≡ true) (sym here) m))
  Fit-skip chk rounds i place first fit (suc j) h m =
      let here : i + suc j ≡ i + 1 + j = omega arith in
      let there : place + 1 + j ≡ place + suc j = omega arith in
      subst (λ q. look 0 chk q ≡ 0) there
        (fit j (omega arith) (subst (λ k. needed state deflink k ≡ true) here m))

  -- The test returns; it is true only if the places are free, and is true if all from `place` on are.
  fits_decides :
      (chk : List ℕ) (rounds i place : ℕ)
      → place + rounds ≤ length chk
      → (b : Bool) × (fits state deflink chk rounds i place ≡ ok b)
        × (b ≡ true → Fit chk rounds i place)
        × (((q : ℕ) → place ≤ q → look 0 chk q ≡ 0) → b ≡ true)
  unfolding fits
  fits_decides chk zero i place room = (true, refl, (λ e j h. absurd (omega arith)), λ z. refl)
  fits_decides chk (suc rounds) i place room =
      let (b, e, f, z) = fits_decides chk rounds (i + 1) (place + 1) (omega arith) in
      elim (Bool-cases (needed state deflink i)) [
        | inr n ↦ (
          b,
          rw n e,
          (λ y. Fit-skip chk rounds i place (λ m. cc) (f y)),
          λ all. z (λ q h. all q (omega arith)),
        )
        | inl n ↦ elim (Bool-cases (look 0 chk place == 0)) [
          | inl free ↦ (
            b,
            rw (n, at-look chk place (omega arith), ◌>>=◌, free) e,
            (λ y. Fit-skip chk rounds i place (λ m. ground arith) (f y)),
            λ all. z (λ q h. all q (omega arith)),
          )
          | inr used ↦ (
            false,
            rw (n, at-look chk place (omega arith), ◌>>=◌, used) refl,
            (λ y. cc),
            λ all. absurd (clash (all place (omega arith)) used),
          )
        ]
      ]
    where
      clash : {a : ℕ} → a ≡ 0 → (a == 0) ≡ false → ⊥
      clash e u = ground arith

  -- The search for an address returns one where the entry fits. It needs no more rounds than there are
  -- addresses up to the end of the table.
  pub fit_loop-Fit :
      (minec maxec fuel baseaddr : ℕ) (t : Tables)
      → minec ≤ maxec
      → minec ≤ baseaddr
      → 0 < fuel
      → t.tblend + 1 < baseaddr + fuel
      → length t.nxt ≡ length t.chk
      → ((q : ℕ) → t.tblend < q → look 0 t.chk q ≡ 0)
      → (b : ℕ) × (t' : Tables) × (fit_loop state deflink minec maxec fuel baseaddr t ≡ ok (b, t'))
        × (minec ≤ b)
        × Grows t t'
        × Fit t.chk (maxec + 1 - minec) minec b
  unfolding fit_loop
  fit_loop-Fit minec maxec zero baseaddr t order high fuelled enough lengths free =
      absurd (omega arith)
  fit_loop-Fit minec maxec (suc fuel) baseaddr t order high fuelled enough lengths free =
      let t1 = grow (baseaddr + maxec - minec + 2) t in
      let (g, room) = grow-Grows (baseaddr + maxec - minec + 2) t lengths in
      let (b, e, f, z) = fits_decides t1.chk (maxec + 1 - minec) minec baseaddr (omega arith) in
      elim (Bool-cases b) [
        | inl y ↦ (
          baseaddr,
          t1,
          bind-ok _ _ e ∙ rw y refl,
          high,
          g,
          λ j h m. sym (g.chk (baseaddr + j)) ∙ f y j h m,
        )
        | inr n ↦
            let (_, more) = next_free_free t1.chk (baseaddr + 1) in
            let inside : baseaddr ≤ t.tblend = elim (Bool-cases (leb baseaddr t.tblend)) [
              | inl low ↦ ground arith
              | inr past ↦ absurd (differ (z (λ q h. g.chk q ∙ free q (ground arith))) n)
            ] in
            let (b', t', e', high', g', f') =
              fit_loop-Fit minec maxec fuel (next_free t1.chk (baseaddr + 1)) t1 order (omega arith)
                (omega arith) (omega (arith, g.tblend)) g.lengths
                (λ q h. g.chk q ∙ free q (omega (arith, g.tblend))) in
            (
              b',
              t',
              bind-ok _ _ e ∙ rw n e',
              high',
              Grows-trans t t1 t' g g',
              λ j h m. sym (g.chk (b' + j)) ∙ f' j h m,
            )
      ]
    where
      differ : {b : Bool} → b ≡ true → b ≡ false → ⊥
      differ e f = cc

pub raise_base-high :
    (chk : List ℕ) (rounds minec baseaddr : ℕ)
    → minec ≤ baseaddr + rounds
    → minec ≤ raise_base chk rounds minec baseaddr
unfolding raise_base
raise_base-high chk zero minec baseaddr h = omega arith
raise_base-high chk (suc rounds) minec baseaddr h = elim (Bool-cases (ltb baseaddr minec)) [
  | inl e ↦
      let (_, more) = next_free_free chk (baseaddr + 1) in
      rw e (raise_base-high chk rounds minec (next_free chk (baseaddr + 1)) (omega arith))
  | inr e ↦ rw e (ground arith)
]
