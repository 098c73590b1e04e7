-- ===== src/Tblcmp/Entered.antt =====
-- What `mkentry` of src/tblcmp.cpp adds to the tables.
use flex_cmake_old.Prelude.{
  ℕ, ◌+◌, ◌-◌, ◌<◌, ◌≤◌, ◌≡◌, refl, ap, ◌∙◌, sym, subst, arith, ◌==◌, leb, if◌then◌else◌, Bool,
  true, false, inl, inr, Bool-cases, ◌&&◌, List, length,
}
use flex_cmake_old.Prelude.Int.{ℤ, pos}
use flex_cmake_old.Common.{ok}
use flex_cmake_old.Tblcmp.State.{Tables, update, grow}
use flex_cmake_old.Tblcmp.Entry.{max, needed, min_loop, max_loop, place_entry, mkentry}
use flex_cmake_old.Tblcmp.Single.{look, set_state-ok, bind-ok}
use flex_cmake_old.Tblcmp.Grown.{IsOpen, Grows, grow-Grows}
use flex_cmake_old.Tblcmp.Search.{min_loop-le, max_loop-ge, min_loop-low, Fit}
use flex_cmake_old.Tblcmp.Fill.{is_place, fill_stored}
use flex_cmake_old.Tblcmp.Insert.{move_firstfree-ok, is_place_all, base_address-Fit}

-- The state has the base `b`, and its places are those of the needed symbols 1 .. numchars from there.
-- They were free, and get the state and its transitions; the other places read as before.
pub record Entered (state : ℕ → ℤ) (deflink : ℤ) (numchars statenum b : ℕ) (t t' : Tables)
    : Type 0 where
  pub base : t'.base ≡ update t.base statenum (pos b)
  pub def : t'.def ≡ update t.def statenum deflink
  pub was_free : (q : ℕ) → is_place state deflink numchars 1 (b + 1) q ≡ true → look 0 t.chk q ≡ 0
  pub chk :
      (q : ℕ)
      → look 0 t'.chk q
        ≡ (if is_place state deflink numchars 1 (b + 1) q then statenum else look 0 t.chk q)
  pub nxt :
      (q : ℕ)
      → look (pos 0) t'.nxt q ≡ (
          if is_place state deflink numchars 1 (b + 1) q
          then state (q - b)
          else look (pos 0) t.nxt q)
  pub still_open : IsOpen t'

module _ (state : ℕ → ℤ) (deflink : ℤ) where
  is_place-past :
      (rounds i place q : ℕ) → place + rounds ≤ q → is_place state deflink rounds i place q ≡ false
  unfolding is_place
  is_place-past rounds i place q h = ground arith

  -- A run of `place_entry` at an address where the entry fits.
  place_entry-Filled :
      (statenum minec maxec baseaddr : ℕ) (t : Tables)
      → minec ≤ maxec
      → minec ≤ baseaddr
      → statenum < t.capacity
      → IsOpen t
      → (t' : Tables) × (place_entry state statenum deflink minec maxec baseaddr t ≡ ok t')
        × (t'.base ≡ update t.base statenum (pos (baseaddr - minec)))
        × (t'.def ≡ update t.def statenum deflink)
        × ((q : ℕ)
            → look 0 t'.chk q ≡ (
                if is_place state deflink (maxec + 1 - minec) minec baseaddr q
                then statenum
                else look 0 t.chk q))
        × ((q : ℕ)
            → look (pos 0) t'.nxt q ≡ (
                if is_place state deflink (maxec + 1 - minec) minec baseaddr q
                then state (minec + (q - baseaddr))
                else look (pos 0) t.nxt q))
        × IsOpen t'
  unfolding place_entry
  place_entry-Filled statenum minec maxec baseaddr t order high small is_open =
      let tbllast = baseaddr - minec + maxec in
      let (g, room) = grow-Grows (tbllast + 2) t is_open.lengths in
      let t0 = grow (tbllast + 2) t in
      let t1 : Tables = record t0 {
        base = update t0.base statenum (pos (baseaddr - minec));
        def = update t0.def statenum deflink;
      } in
      let (t2, e2, f) =
        fill_stored state deflink statenum (maxec + 1 - minec) minec baseaddr t1 (omega arith)
          g.lengths in
      let free2 : (q : ℕ) → max t.tblend tbllast < q → look 0 t2.chk q ≡ 0 = λ q h.
        f.chk q
        ∙ rw (is_place-past (maxec + 1 - minec) minec baseaddr q (ground arith))
            (g.chk q ∙ is_open.free q (ground arith)) in
      let wide : max t.tblend tbllast + 2 ≤ length t2.chk = elim (Bool-cases (t.tblend == 0)) [
        | inl e ↦ ground (arith, f.longer, room)
        | inr e ↦ ground (arith, f.longer, room, g.longer, is_open.room (ground arith))
      ] in
      let (ff, e3) =
        move_firstfree-ok baseaddr (max t.tblend tbllast + 1) t2 (ground arith) (omega arith)
          (free2 _ (omega arith)) in
      (
        record t2 { firstfree = ff; tblend = max t2.tblend tbllast },
        bind-ok _ _ (
              set_state-ok statenum (pos (baseaddr - minec)) deflink t0 (omega (arith, g.capacity)))
            ∙ bind-ok _ _ e2
            ∙ bind-ok _ _ e3,
        f.base ∙ rw g.base refl,
        f.def ∙ rw g.def refl,
        (λ q. f.chk q ∙ rw (g.chk q) refl),
        (λ q. f.nxt q ∙ rw (g.nxt q) refl),
        record {
          lengths = f.lengths ∙ g.lengths ∙ sym f.longer;
          free = λ q h. free2 q (ground (arith, f.tblend, g.tblend));
          room = λ z. ground (arith, f.tblend, g.tblend, wide);
        },
      )

  Fit-free :
      (chk : List ℕ) (rounds i place q : ℕ)
      → Fit state deflink chk rounds i place
      → is_place state deflink rounds i place q ≡ true
      → look 0 chk q ≡ 0
  unfolding is_place
  Fit-free chk rounds i place q fit m =
      let there : place + (q - place) ≡ q = ground arith in
      subst (λ p. look 0 chk p ≡ 0) there (fit (q - place) (ground arith) (third _ _ _ m))
    where
      third : (a b c : Bool) → (a && (b && c)) ≡ true → c ≡ true
      third a b c e = ground arith

  place_value :
      (rounds i place q : ℕ) (x : ℤ)
      → i ≤ place
      → (if is_place state deflink rounds i place q then state (i + (q - place)) else x)
        ≡ (if is_place state deflink rounds i place q then state (q - (place - i)) else x)
  unfolding is_place
  place_value rounds i place q x h = elim (Bool-cases (leb place q)) [
    | inl e ↦ let there : i + (q - place) ≡ q - (place - i) = ground arith in rw there refl
    | inr e ↦ rw e refl
  ]

  Grows-IsOpen : (t t' : Tables) → IsOpen t → Grows t t' → IsOpen t'
  Grows-IsOpen t t' is_open g = record {
    lengths = g.lengths;
    free = λ q h. g.chk q ∙ is_open.free q (omega (arith, g.tblend));
    room = λ z. omega (arith, g.tblend, g.longer, is_open.room (omega (arith, g.tblend)));
  }

  -- For open tables, a state within the capacity of `dfas`, more than one transition and a symbol that
  -- needs a place: mkentry returns, whichever way it looks for an address. There is a base from which
  -- the places of the symbols that need one were free and get the state and its transitions; all other
  -- places read as before, no other state gets another base or default, and the tables are open again.
  pub mkentry-Entered :
      (numchars statenum totaltrans symbol : ℕ) (t : Tables)
      → 1 < totaltrans
      → 0 < symbol
      → symbol ≤ numchars
      → needed state deflink symbol ≡ true
      → statenum < t.capacity
      → IsOpen t
      → (b : ℕ) × (t' : Tables) × (mkentry state numchars statenum deflink totaltrans t ≡ ok t')
        × Entered state deflink numchars statenum b t t'
  unfolding mkentry
  mkentry-Entered numchars statenum totaltrans symbol t many first last need small is_open =
      let minec = min_loop state deflink numchars 1 in
      let maxec = max_loop state deflink numchars in
      let below = min_loop-le state deflink numchars 1 symbol first need (omega arith) in
      let above = max_loop-ge state deflink numchars symbol first last need in
      let low = min_loop-low state deflink numchars 1 in
      let (baseaddr, t1, e1, high, g, fit) =
        base_address-Fit state deflink numchars totaltrans minec maxec t (omega arith) (omega arith)
          is_open in
      let (t2, e2, base, def, chk, nxt, still_open) =
        place_entry-Filled statenum minec maxec baseaddr t1 (omega arith) high
          (omega (arith, g.capacity)) (Grows-IsOpen t t1 is_open g) in
      let b = baseaddr - minec in
      let there : b + minec ≡ baseaddr = omega arith in
      let same : (q : ℕ)
          → is_place state deflink (maxec + 1 - minec) minec baseaddr q
            ≡ is_place state deflink numchars 1 (b + 1) q =
        λ q.
          ap (λ p. is_place state deflink (maxec + 1 - minec) minec p q) (sym there)
          ∙ is_place_all state deflink numchars b q minec maxec refl refl (omega arith) in
      let zero_no : (totaltrans == 0) ≡ false = ground arith in
      let one_no : (totaltrans == 1) ≡ false = ground arith in
      (
        b,
        t2,
        rw (zero_no, one_no) (bind-ok _ _ e1 ∙ e2),
        record {
          base = base ∙ rw g.base refl;
          def = def ∙ rw g.def refl;
          was_free = λ q m. Fit-free t.chk (maxec + 1 - minec) minec baseaddr q fit (same q ∙ m);
          chk = λ q. chk q ∙ rw (same q, g.chk q) refl;
          nxt = λ q.
              nxt q
              ∙ place_value (maxec + 1 - minec) minec baseaddr q _ high
              ∙ rw (same q, g.nxt q) refl;
          still_open = still_open;
        },
      )
