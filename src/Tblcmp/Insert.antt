-- ===== src/Tblcmp/Insert.antt =====
-- What `mkentry` of src/tblcmp.cpp adds to the tables.
use flex_cmake_old.Prelude.{
  ℕ, zero, suc, ◌+◌, ◌-◌, ◌*◌, ◌<◌, ◌≤◌, ◌≡◌, refl, ap, ◌∙◌, sym, arith, ◌==◌, ltb, leb, true, inl,
  inr, Bool-cases, ◌&&◌, List, [], ◌∷◌, length, drop,
}
use flex_cmake_old.Prelude.Int.{ℤ}
use flex_cmake_old.Common.{ok}
use flex_cmake_old.Tblcmp.State.{Tables, free_from, next_free}
use flex_cmake_old.Tblcmp.Entry.{
  max, needed, min_loop, max_loop, raise_base, base_address, move_firstfree,
}
use flex_cmake_old.Tblcmp.Single.{look, look-drop, bind-ok}
use flex_cmake_old.Tblcmp.Grown.{IsOpen, Grows, Grows-refl, at-look}
use flex_cmake_old.Tblcmp.Search.{
  min_loop-le, max_loop-ge, min_loop-low, max_loop-high, Fit, fit_loop-Fit, raise_base-high,
}
use flex_cmake_old.Tblcmp.Fill.{is_place}

free_from_least : (chk : List ℕ) (i k : ℕ) → look 0 chk k ≡ 0 → free_from chk i ≤ i + k
unfolding free_from look
free_from_least [] i k z = omega arith
free_from_least (c ∷ chk) i zero z = ground arith
free_from_least (c ∷ chk) i (suc k) z = elim (Bool-cases (c == 0)) [
  | inl e ↦ rw e (omega arith)
  | inr e ↦ rw e (omega (arith, free_from_least chk (i + 1) k z))
]

next_free_least : (chk : List ℕ) (i p : ℕ) → i ≤ p → look 0 chk p ≡ 0 → next_free chk i ≤ p
unfolding next_free
next_free_least chk i p h z =
    let there : i + (p - i) ≡ p = omega arith in
    omega (
      arith,
      free_from_least (drop i chk) i (p - i)
          (look-drop 0 chk i (p - i) ∙ ap (look 0 chk) there ∙ z),
    )

-- The search for the next free place ends where there is one.
pub move_firstfree-ok :
    (baseaddr p : ℕ) (t : Tables)
    → baseaddr < p
    → p < length t.chk
    → look 0 t.chk p ≡ 0
    → (ff : ℕ) × (move_firstfree baseaddr t ≡ ok (record t { firstfree = ff }))
unfolding move_firstfree
move_firstfree-ok baseaddr p t h room z = elim (Bool-cases (baseaddr == t.firstfree)) [
  | inr e ↦ (t.firstfree, rw e refl)
  | inl e ↦
      let least = next_free_least t.chk (t.firstfree + 1) p (ground arith) z in
      (next_free t.chk (t.firstfree + 1), rw e (bind-ok _ _ (at-look t.chk _ (omega arith))))
]

open_room : (b : ℕ) (t : Tables) → IsOpen t → 0 < b → t.tblend + 1 < b + (length t.chk + 1)
open_room b t is_open h = elim (Bool-cases (t.tblend == 0)) [
  | inl e ↦ ground arith
  | inr e ↦ omega (arith, is_open.room (ground arith))
]

module _ (state : ℕ → ℤ) (deflink : ℤ) where
  is_place_from :
      (rounds i b q : ℕ)
      → is_place state deflink rounds i (b + i) q
        ≡ (leb (b + i) q && (ltb q (b + i + rounds) && needed state deflink (q - b)))
  unfolding is_place
  is_place_from rounds i b q = elim (Bool-cases (leb (b + i) q)) [
    | inl e ↦ let here : i + (q - (b + i)) ≡ q - b = ground arith in rw here refl
    | inr e ↦ rw e refl
  ]

  same_range :
      (numchars b q : ℕ)
      → needed state deflink (q - b) ≡ true
      → (leb (b + 1) q && ltb q (b + 1 + numchars)) ≡ (
          leb (b + min_loop state deflink numchars 1) q
          && ltb q (b + max_loop state deflink numchars + 1))
  same_range numchars b q e =
      let low = min_loop-low state deflink numchars 1 in
      let high = max_loop-high state deflink numchars in
      elim (Bool-cases (leb (b + 1) q)) [
        | inr f ↦ ground arith
        | inl f ↦ elim (Bool-cases (leb q (b + numchars))) [
          | inr g ↦ ground arith
          | inl g ↦
              let least =
                min_loop-le state deflink numchars 1 (q - b) (ground arith) e (ground arith) in
              let greatest =
                max_loop-ge state deflink numchars (q - b) (ground arith) (ground arith) e in
              ground arith
        ]
      ]

  -- The places of the symbols from the first to the last that is needed are those of all symbols.
  pub is_place_all :
      (numchars b q minec maxec : ℕ)
      → minec ≡ min_loop state deflink numchars 1
      → maxec ≡ max_loop state deflink numchars
      → minec ≤ maxec
      → is_place state deflink (maxec + 1 - minec) minec (b + minec) q
        ≡ is_place state deflink numchars 1 (b + 1) q
  is_place_all numchars b q minec maxec low high order =
      is_place_from (maxec + 1 - minec) minec b q
      ∙ (elim (Bool-cases (needed state deflink (q - b))) [
        | inr e ↦ rw e (ground arith)
        | inl e ↦
            let same = same_range numchars b q e in
            let end : b + minec + (maxec + 1 - minec) ≡ b + maxec + 1 = omega arith in
            rw (e, end, low, high) (ground (arith, same))
      ])
      ∙ sym (is_place_from numchars 1 b q)

  pub base_address-Fit :
      (numchars totaltrans minec maxec : ℕ) (t : Tables)
      → 0 < minec
      → minec ≤ maxec
      → IsOpen t
      → (b : ℕ) × (t' : Tables) × (base_address state numchars deflink totaltrans minec maxec t
          ≡ ok (b, t'))
        × (minec ≤ b)
        × Grows t t'
        × Fit state deflink t.chk (maxec + 1 - minec) minec b
  unfolding base_address
  base_address-Fit numchars totaltrans minec maxec t above order is_open =
      elim (Bool-cases (leb (totaltrans * 100) (numchars * 15))) [
        | inl e ↦
            let high = raise_base-high t.chk minec minec t.firstfree (omega arith) in
            let start = raise_base t.chk minec minec t.firstfree in
            let (b, t', e', high', g, f) =
              fit_loop-Fit state deflink minec maxec (length t.chk + 1) start t order high
                (omega arith) (open_room start t is_open (omega arith)) is_open.lengths
                is_open.free in
            (b, t', rw e e', high', g, f)
        | inr e ↦ (
          max (t.tblend + 1) minec,
          t,
          rw e refl,
          ground arith,
          Grows-refl t is_open.lengths,
          λ j h m. is_open.free (max (t.tblend + 1) minec + j) (ground arith),
        )
      ]
