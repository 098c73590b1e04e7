-- ===== src/Tblcmp/Fill.antt =====
-- The loop of `mkentry` in src/tblcmp.cpp that fills in the entries.
use flex_cmake_old.Prelude.{
  ℕ, zero, suc, ◌+◌, ◌-◌, ◌≤◌, ◌≡◌, refl, ap, ◌∙◌, sym, arith, ◌==◌, ltb, leb, if◌then◌else◌, Bool,
  true, false, inl, inr, Bool-cases, ◌&&◌, ◌||◌, length, length-set, set,
}
use flex_cmake_old.Prelude.Int.{ℤ, pos}
use flex_cmake_old.Common.{ok}
use flex_cmake_old.Tblcmp.State.{Tables}
use flex_cmake_old.Tblcmp.Entry.{needed, fill}
use flex_cmake_old.Tblcmp.Single.{look, look-set, store-ok, bind-ok}

module _ (state : ℕ → ℤ) (deflink : ℤ) where
  -- The place is one that the symbols from `i` on need, where `place` is that of `i`.
  unfoldable pub is_place : (rounds i place q : ℕ) → Bool
  is_place rounds i place q =
      leb place q && (ltb q (place + rounds) && needed state deflink (i + (q - place)))

  is_place-none : (i place q : ℕ) → is_place 0 i place q ≡ false
  unfolding is_place
  is_place-none i place q = ground arith

  is_place-suc :
      (rounds i place q : ℕ)
      → is_place (suc rounds) i place q
        ≡ (((q == place) && needed state deflink i) || is_place rounds (i + 1) (place + 1) q)
  unfolding is_place
  is_place-suc rounds i place q = elim (Bool-cases (q == place)) [
    | inl e ↦
        let same : q ≡ place = ground arith in
        let here : i + (q - place) ≡ i = omega arith in rw here (ground arith)
    | inr e ↦ elim (Bool-cases (leb (place + 1) q)) [
      | inl later ↦
          let there : i + (q - place) ≡ i + 1 + (q - (place + 1)) = ground arith in
          rw there (ground arith)
      | inr before ↦ ground arith
    ]
  ]

  is_place-skip :
      (rounds i place q : ℕ)
      → needed state deflink i ≡ false
      → is_place (suc rounds) i place q ≡ is_place rounds (i + 1) (place + 1) q
  is_place-skip rounds i place q n =
      is_place-suc rounds i place q
      ∙ rw n (neither (q == place) (is_place rounds (i + 1) (place + 1) q))
    where
      neither : (a b : Bool) → ((a && false) || b) ≡ b
      neither true b = refl
      neither false b = refl

  -- What a place reads after the first symbol and the others, where `first` says if it is the first's.
  either_written :
      {A : Type 0} (first need rest : Bool) (v w x : A)
      → need ≡ true
      → (first ≡ true → v ≡ w)
      → (if rest then v else (if first then w else x))
        ≡ (if ((first && need) || rest) then v else x)
  either_written true true rest v w x n same = elim (Bool-cases rest) [
    | inl e ↦ rw e refl
    | inr e ↦ rw e (sym (same refl))
  ]
  either_written false true rest v w x n same = refl
  either_written first false rest v w x n same = absurd (no n)
    where
      no : false ≡ true → ⊥
      no e = cc

  -- The value for a place of a later symbol, counted from the next symbol.
  later_value :
      (rounds i place q : ℕ) (x : ℤ)
      → (if is_place rounds (i + 1) (place + 1) q then state (i + 1 + (q - (place + 1))) else x)
        ≡ (if is_place rounds (i + 1) (place + 1) q then state (i + (q - place)) else x)
  unfolding is_place
  later_value rounds i place q x = elim (Bool-cases (leb (place + 1) q)) [
    | inl later ↦
        let there : i + (q - place) ≡ i + 1 + (q - (place + 1)) = ground arith in rw there refl
    | inr before ↦ rw before refl
  ]

  -- The places that are needed get the state, and no other.
  pub record Filled (statenum rounds i place : ℕ) (t t' : Tables) : Type 0 where
    pub chk :
        (q : ℕ) → look 0 t'.chk q ≡ (if is_place rounds i place q then statenum else look 0 t.chk q)
    pub nxt :
        (q : ℕ)
        → look (pos 0) t'.nxt q
          ≡ (if is_place rounds i place q then state (i + (q - place)) else look (pos 0) t.nxt q)
    pub longer : length t'.chk ≡ length t.chk
    pub lengths : length t'.nxt ≡ length t.nxt
    pub tblend : t'.tblend ≡ t.tblend
    pub firstfree : t'.firstfree ≡ t.firstfree
    pub base : t'.base ≡ t.base
    pub def : t'.def ≡ t.def

  pub fill_stored :
      (statenum rounds i place : ℕ) (t : Tables)
      → place + rounds ≤ length t.chk
      → length t.nxt ≡ length t.chk
      → (t' : Tables) × (fill state deflink statenum rounds i place t ≡ ok t')
        × Filled statenum rounds i place t t'
  unfolding fill
  fill_stored statenum zero i place t room lengths = (
    t,
    refl,
    record {
      chk = λ q. rw (is_place-none i place q) refl;
      nxt = λ q. rw (is_place-none i place q) refl;
      longer = refl;
      lengths = refl;
      tblend = refl;
      firstfree = refl;
      base = refl;
      def = refl;
    },
  )
  fill_stored statenum (suc rounds) i place t room lengths =
      elim (Bool-cases (needed state deflink i)) [
        | inl n ↦
            let t1 : Tables = record t {
              chk = set t.chk place statenum;
              nxt = set t.nxt place (state i);
            } in
            let stored = store-ok place statenum (state i) t (omega arith) (omega arith) in
            let longer = length-set t.chk place statenum in
            let lengths1 = length-set t.nxt place (state i) in
            let (t', e, f) =
              fill_stored statenum rounds (i + 1) (place + 1) t1 (omega arith) (omega arith) in
            (
              t',
              rw n (bind-ok _ _ stored ∙ e),
              record {
                chk = λ q.
                    f.chk q
                    ∙ rw
                        (
                          look-set 0 t.chk place statenum q (omega arith),
                          is_place-suc rounds i place q,
                        )
                        (either_written (q == place) (needed state deflink i)
                          (is_place rounds (i + 1) (place + 1) q) statenum statenum _ n
                          (λ e. refl));
                nxt = λ q.
                    f.nxt q
                    ∙ later_value rounds i place q _
                    ∙ rw
                        (
                          look-set (pos 0) t.nxt place (state i) q (omega arith),
                          is_place-suc rounds i place q,
                        )
                        (either_written (q == place) (needed state deflink i)
                          (is_place rounds (i + 1) (place + 1) q) (state (i + (q - place)))
                          (state i) _ n (λ e. ap state (ground arith)));
                longer = f.longer ∙ longer;
                lengths = f.lengths ∙ lengths1;
                tblend = f.tblend;
                firstfree = f.firstfree;
                base = f.base;
                def = f.def;
              },
            )
        | inr n ↦
            let (t', e, f) =
              fill_stored statenum rounds (i + 1) (place + 1) t (omega arith) lengths in
            (
              t',
              rw n e,
              record {
                chk = λ q. f.chk q ∙ rw (is_place-skip rounds i place q n) refl;
                nxt = λ q.
                    f.nxt q
                    ∙ later_value rounds i place q (look (pos 0) t.nxt q)
                    ∙ rw (is_place-skip rounds i place q n) refl;
                longer = f.longer;
                lengths = f.lengths;
                tblend = f.tblend;
                firstfree = f.firstfree;
                base = f.base;
                def = f.def;
              },
            )
      ]
