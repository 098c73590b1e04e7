-- ===== src/Gen/Pairs.antt =====
-- The pairs that `mkctbl` stores and `genctbl` writes in src/gen.cpp.
use mathlib.Core.List.{append_assoc}
use flex_cmake_old.Prelude.{
  ℕ, zero, suc, ◌+◌, ◌≡◌, refl, ap, ◌∙◌, sym, arith, ltb, ◌==◌, ◌||◌, Bool, Bool-cases, inl, inr,
  true, false, if◌then◌else◌, List, [], ◌∷◌, ◌++◌, length, length-append,
}
use flex_cmake_old.Prelude.Int.{ℤ, pos, negsuc}
use flex_cmake_old.Common.{Result, ok, exit, fault, ◌>>=◌, at}
use flex_cmake_old.Misc.Data.{DataOutput, transition_struct_out}
use flex_cmake_old.Gen.Full.{
  Full, is_eob, is_action, base_of, base_minus, offset_from, store_case, store_slot, store_end,
  out_case, out_slot, out_end, store_loop, stored_pairs, out_loop, written_pairs,
}

unfoldable pub flat : List (ℤ × ℤ) → List ℤ
flat [] = []
flat ((a, b) ∷ ps) = a ∷ b ∷ flat ps

flat-append : (ps qs : List (ℤ × ℤ)) → flat (ps ++ qs) ≡ flat ps ++ flat qs
unfolding flat
flat-append [] qs = refl
flat-append ((a, b) ∷ ps) qs = ap (λ r. a ∷ b ∷ r) (flat-append ps qs)

-- `transition_struct_out` for each pair.
unfoldable pub output_all : List (ℤ × ℤ) → DataOutput → DataOutput
output_all [] d = d
output_all ((a, b) ∷ ps) d = output_all ps (transition_struct_out a b d)

output_all-append :
    (ps qs : List (ℤ × ℤ)) (d : DataOutput)
    → output_all (ps ++ qs) d ≡ output_all qs (output_all ps d)
unfolding output_all
output_all-append [] qs d = refl
output_all-append ((a, b) ∷ ps) qs d = output_all-append ps qs (transition_struct_out a b d)

-- A run that returns has a first step that returns.
pub ok_cases :
    {X Y : Type 0} (next : X → Result Y) (run : Result X) {y : Y}
    → (run >>= next) ≡ ok y
    → (x : X) × (run ≡ ok x) × (next x ≡ ok y)
ok_cases next fault returns = cc
ok_cases next (exit message) returns = cc
ok_cases next (ok x) returns = (x, refl, returns)

pub chosen : {A : Type 0} (b : Bool) (x y : A) → b ≡ true → (if b then x else y) ≡ x
chosen b x y e = rw e refl

pub refused : {A : Type 0} {b : Bool} (x y : A) → b ≡ false → (if b then x else y) ≡ y
refused x y e = rw e refl

pub ok_value : {A : Type 0} {a b : A} → ◌≡◌ {A = Result A} (ok a) (ok b) → a ≡ b
ok_value e = cc

pub bound : {A B : Type 0} (m : Result A) (f : A → Result B) {a : A} → m ≡ ok a → (m >>= f) ≡ f a
bound m f e = rw (◌>>=◌, e)

-- The pair that is stored is the one that is written.
abbrev SamePair : (tdata tdata' : List ℤ) → (written : DataOutput → Result DataOutput) → Type 0
SamePair tdata tdata' written =
    (a : ℤ) × (b : ℤ) × (tdata' ≡ tdata ++ (a ∷ b ∷ []))
    × ((d : DataOutput) → written d ≡ ok (transition_struct_out a b d))

module _ (t : Full) where
  cases_agree :
      (i : ℕ) (c next : ℤ) (tdata tdata' : List ℤ)
      → store_case t i c next tdata ≡ ok tdata'
      → SamePair tdata tdata' (out_case t i c next)
  unfolding store_case out_case
  cases_agree i (negsuc c) next tdata tdata' e = elim (Bool-cases (is_eob (negsuc c))) [
    | inl eob ↦ (
      pos 0,
      base_minus t.last_base i,
      sym (ok_value (sym (chosen _ _ _ eob) ∙ e)),
      λ d. chosen _ _ _ eob,
    )
    | inr no_eob ↦ elim (Bool-cases (is_action (negsuc c))) [
      | inl act ↦ (
        pos 0,
        next,
        sym (ok_value (sym (refused _ _ no_eob ∙ chosen _ _ _ act) ∙ e)),
        λ d. refused _ _ no_eob ∙ chosen _ _ _ act,
      )
      | inr no_act ↦
          let (base, f, g) =
            ok_cases _ (base_of t next) (sym (refused _ _ no_eob ∙ refused _ _ no_act) ∙ e) in
          (
            negsuc c,
            offset_from base (i + (c + 1)) 0,
            sym (ok_value g),
            λ d. refused _ _ no_eob ∙ refused _ _ no_act ∙ bound _ _ f,
          )
    ]
  ]
  cases_agree i (pos c) next tdata tdata' e = elim (Bool-cases (ltb t.numecs c || (c == 0))) [
    | inl unused ↦
        (pos 0, pos 0, sym (ok_value (sym (chosen _ _ _ unused) ∙ e)), λ d. chosen _ _ _ unused)
    | inr used ↦
        let (base, f, g) = ok_cases _ (base_of t next) (sym (refused _ _ used) ∙ e) in
        (pos c, offset_from base i c, sym (ok_value g), λ d. refused _ _ used ∙ bound _ _ f)
  ]

  slots_agree :
      (i : ℕ) (tdata tdata' : List ℤ)
      → store_slot t i tdata ≡ ok tdata'
      → SamePair tdata tdata' (out_slot t i)
  unfolding store_slot out_slot
  slots_agree i tdata tdata' e =
      let (c, f, e1) = ok_cases _ (at t.chk i) e in
      let (next, g, e2) = ok_cases _ (at t.nxt i) e1 in
      let (a, b, same, out) = cases_agree i c next tdata tdata' e2 in
      (a, b, same, λ d. bound _ _ f ∙ bound _ _ g ∙ out d)

  ends_agree :
      (i : ℕ) (tdata tdata' : List ℤ)
      → store_end t i tdata ≡ ok tdata'
      → SamePair tdata tdata' (out_end t i)
  unfolding store_end out_end
  ends_agree i tdata tdata' e =
      let (c, f, e1) = ok_cases _ (at t.chk i) e in
      let (next, g, e2) = ok_cases _ (at t.nxt i) e1 in
      (c, next, sym (ok_value e2), λ d. bound _ _ f ∙ bound _ _ g)

  loops_agree :
      (rounds i : ℕ) (ps : List (ℤ × ℤ)) (d : DataOutput) (tdata : List ℤ)
      → store_loop t rounds i (flat ps) ≡ ok tdata
      → (qs : List (ℤ × ℤ)) × (tdata ≡ flat qs)
        × (length qs ≡ length ps + rounds)
        × (out_loop t rounds i (output_all ps d) ≡ ok (output_all qs d))
  unfolding store_loop out_loop flat output_all
  loops_agree zero i ps d tdata e = (ps, sym (ok_value e), omega arith, refl)
  loops_agree (suc rounds) i ps d tdata e =
      let (tdata1, f, g) = ok_cases _ (store_slot t i (flat ps)) e in
      let (a, b, same1, out1) = slots_agree i (flat ps) tdata1 f in
      let longer = ps ++ ((a, b) ∷ []) in
      let more : store_loop t rounds (i + 1) (flat longer) ≡ ok tdata =
        ap (store_loop t rounds (i + 1)) (flat-append ps ((a, b) ∷ []) ∙ sym same1) ∙ g in
      let (qs, same, count, out) = loops_agree rounds (i + 1) longer d tdata more in
      (
        qs,
        same,
        omega (arith, count, length-append ps ((a, b) ∷ [])),
        bound _ _ (out1 (output_all ps d))
            ∙ ap (out_loop t rounds (i + 1)) (sym (output_all-append ps ((a, b) ∷ []) d))
            ∙ out,
      )

  pub written_pairs-stored_pairs :
      (d : DataOutput) (tdata : List ℤ)
      → stored_pairs t ≡ ok tdata
      → (ps : List (ℤ × ℤ)) × (tdata ≡ flat ps)
        × (length ps ≡ t.tblend + 3)
        × (written_pairs t d ≡ ok (output_all ps d))
  unfolding stored_pairs written_pairs flat output_all
  written_pairs-stored_pairs d tdata e =
      let (first, f, g) = ok_cases _ (store_loop t (t.tblend + 1) 0 []) e in
      let (second, h, k) = ok_cases _ (store_end t (t.tblend + 1) first) g in
      let (qs, same, count, out) = loops_agree (t.tblend + 1) 0 [] d first f in
      let (a, b, same_a, out_a) = ends_agree (t.tblend + 1) first second h in
      let (c, x, same_c, out_c) = ends_agree (t.tblend + 2) second tdata k in
      let two = (a, b) ∷ (c, x) ∷ [] in
      (
        qs ++ two,
        same_c
            ∙ ap (λ r. r ++ (c ∷ x ∷ [])) (same_a ∙ ap (λ r. r ++ (a ∷ b ∷ [])) same)
            ∙ append_assoc (flat qs) (a ∷ b ∷ []) (c ∷ x ∷ [])
            ∙ sym (flat-append qs two),
        omega (arith, count, length-append qs two),
        bound _ _ out
            ∙ bound _ _ (out_a (output_all qs d))
            ∙ out_c (transition_struct_out a b (output_all qs d))
            ∙ ap ok (sym (output_all-append qs two d)),
      )
