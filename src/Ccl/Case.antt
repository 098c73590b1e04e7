-- ===== src/Ccl/Case.antt =====
-- `range_covers_case` of src/ccl.cpp on the letters of the ASCII alphabet.
use flex_cmake_old.Prelude.{
  ℕ, zero, suc, ◌+◌, ◌-◌, ◌≤◌, ◌<◌, ◌≡◌, ◌↔◌, refl, leb, true, false, arith, ◌&&◌, inl, inr,
  Bool-cases,
}
use flex_cmake_old.Ccl.{case_escapes, covers_loop, range_covers_case}

-- Of each letter of the alphabet, the range holds the capital exactly if it holds the small one.
abbrev pub HoldsBothCases : (c1 c2 : ℕ) → Type 0
HoldsBothCases c1 c2 =
    (k : ℕ) → k < 26 → ((c1 ≤ 65 + k) × (65 + k ≤ c2)) ↔ ((c1 ≤ 97 + k) × (97 + k ≤ c2))

both_of_stay :
    (c1 c2 : ℕ) → ((i : ℕ) → c1 ≤ i → i ≤ c2 → case_escapes c1 c2 i ≡ false) → HoldsBothCases c1 c2
unfolding case_escapes
both_of_stay c1 c2 stay k small = (
  λ (lo, hi). let e = stay (65 + k) lo hi in (ground (arith, e), ground (arith, e)),
  λ (lo, hi). let e = stay (97 + k) lo hi in (ground (arith, e), ground (arith, e)),
)

stay_of_both : (c1 c2 i : ℕ) → HoldsBothCases c1 c2 → c1 ≤ i → i ≤ c2 → case_escapes c1 c2 i ≡ false
unfolding case_escapes
stay_of_both c1 c2 i both lo hi = elim (Bool-cases (leb 65 i && leb i 90)) [
  | inl capital ↦
      let (a, b) = (both (i - 65) (ground arith)).0 (ground arith, ground arith) in
      ground (arith, a, b, capital)
  | inr other ↦ elim (Bool-cases (leb 97 i && leb i 122)) [
    | inl small ↦
        let (a, b) = (both (i - 97) (ground arith)).1 (ground arith, ground arith) in
        ground (arith, a, b, small)
    | inr neither ↦ ground (arith, other, neither)
  ]
]

covers_loop_sound :
    (c1 c2 rounds i : ℕ)
    → covers_loop c1 c2 rounds i ≡ true
    → (k : ℕ) → i ≤ k
    → k < i + rounds
    → case_escapes c1 c2 k ≡ false
unfolding covers_loop
covers_loop_sound c1 c2 zero i e k lo hi = absurd (omega arith)
covers_loop_sound c1 c2 (suc rounds) i e k lo hi = elim (Bool-cases (leb k i)) [
  | inl here ↦ let same : k ≡ i = ground arith in rw same (ground arith)
  | inr later ↦ covers_loop_sound c1 c2 rounds (i + 1) (ground arith) k (ground arith) (omega arith)
]

covers_loop_complete :
    (c1 c2 rounds i : ℕ)
    → ((k : ℕ) → i ≤ k → k < i + rounds → case_escapes c1 c2 k ≡ false)
    → covers_loop c1 c2 rounds i ≡ true
unfolding covers_loop
covers_loop_complete c1 c2 zero i all = refl
covers_loop_complete c1 c2 (suc rounds) i all =
    rw (all i (omega arith) (omega arith))
      (covers_loop_complete c1 c2 rounds (i + 1) λ k lo hi. all k (omega arith) (omega arith))

-- `range_covers_case` answers true exactly when, for each letter from A to Z, the range holds both its
-- cases or neither.
pub range_covers_case_iff : (c1 c2 : ℕ) → (range_covers_case c1 c2 ≡ true) ↔ HoldsBothCases c1 c2
unfolding range_covers_case
range_covers_case_iff c1 c2 = (
  λ e. both_of_stay c1 c2 λ i lo hi. covers_loop_sound c1 c2 (c2 + 1 - c1) c1 e i lo (omega arith),
  λ both.
      covers_loop_complete c1 c2 (c2 + 1 - c1) c1
        λ k lo hi. stay_of_both c1 c2 k both lo (omega arith),
)
