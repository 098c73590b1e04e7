-- ===== src/Misc/Escape/RoundTrip.antt =====
-- `myesc` reads back what `readable_form` prints, and where it throws.
use flex_cmake_old.Prelude.{
  ℕ, zero, suc, ◌≤◌, ◌⊎◌, ◌≢◌, ◌↔◌, leb, ◌&&◌, ◌<◌, ◌≡◌, refl, ap, ◌∙◌, sym, arith, ◌==◌, Bool,
  true, false, not, ◌||◌, [], ◌∷◌, if◌then◌else◌, Bool-cases, inl, inr, subst,
}
use flex_cmake_old.Misc.Strings.{Codes}
use flex_cmake_old.Misc.Escape.{
  Escaped, character, invalid_argument, out_of_range, is_xdigit, digits_of, stoi, myesc,
  is_unprintable, readable_form, is_digit, digit_value, letter_escape,
}

-- Whether no character below `bound` fails a test.
passes : (test : ℕ → Bool) → (bound : ℕ) → Bool
passes test zero = true
passes test (suc c) = if test c then passes test c else false

passes-below :
    (test : ℕ → Bool) (bound c : ℕ) → c < bound → passes test bound ≡ true → test c ≡ true
unfolding passes
passes-below test zero c small all = absurd (omega arith)
passes-below test (suc bound) c small all = elim (Bool-cases (c == bound)) [
  | inl last ↦ let same : bound ≡ c = ground arith in subst (λ d. test d ≡ true) same (ground arith)
  | inr other ↦ passes-below test bound c (ground arith) (ground arith)
]

is_character : ℕ → Escaped → Bool
is_character c (character d) = c == d
is_character c invalid_argument = false
is_character c out_of_range = false

is_character-≡ : (c : ℕ) (e : Escaped) → is_character c e ≡ true → e ≡ character c
unfolding is_character
is_character-≡ c (character d) h = ap character (ground arith)
is_character-≡ c invalid_argument h = cc
is_character-≡ c out_of_range h = cc

reads_back : (trace_hex : Bool) → ℕ → Bool
unfolding is_character
reads_back trace_hex c =
    not (is_unprintable c) || is_character c (myesc (readable_form trace_hex c))

reads_back_octal : passes (reads_back false) 256 ≡ true
unfolding passes reads_back readable_form myesc
reads_back_octal = refl

reads_back_hex : passes (reads_back true) 256 ≡ true
unfolding passes reads_back readable_form myesc
reads_back_hex = refl

-- Every character that readable_form prints as an escape sequence, octal or hexadecimal, is read back
-- by myesc.
pub myesc-readable_form :
    (trace_hex : Bool) (c : ℕ)
    → c < 256
    → is_unprintable c ≡ true
    → myesc (readable_form trace_hex c) ≡ character c
unfolding reads_back
myesc-readable_form true c small h =
    let back = passes-below (reads_back true) 256 c small reads_back_hex in
    is_character-≡ c _ (ground (arith, back))
myesc-readable_form false c small h =
    let back = passes-below (reads_back false) 256 c small reads_back_octal in
    is_character-≡ c _ (ground (arith, back))

abbrev IsHexDigit : ℕ → Type 0
IsHexDigit c = ((48 ≤ c) × (c ≤ 57)) ⊎ (((65 ≤ c) × (c ≤ 70)) ⊎ ((97 ≤ c) × (c ≤ 102)))

-- A backslash, or what stands for it, an x, and no hexadecimal digit behind.
abbrev pub IsBareHex : Codes → Type 0
IsBareHex s =
    (slash : ℕ) × (rest : Codes) × (s ≡ slash ∷ 120 ∷ rest)
    × ((c : ℕ) (more : Codes) → rest ≡ c ∷ more → ¬ IsHexDigit c)

number_read : (b : Bool) (n : ℕ) → (if b then character n else out_of_range) ≢ invalid_argument
number_read true n e = cc
number_read false n e = cc

stoi_reads :
    (base c : ℕ) (s : Codes)
    → leb base (digit_value c) ≡ false
    → stoi base (c ∷ s) ≢ invalid_argument
unfolding stoi
stoi_reads base c s h = rw h (number_read _ _)

digit_first :
    (is : ℕ → Bool) (c : ℕ) (s : Codes) → is c ≡ true → digits_of is (c ∷ s) ≡ c ∷ digits_of is s
unfolding digits_of
digit_first is c s h = rw h refl

no_digit_first : (is : ℕ → Bool) (c : ℕ) (s : Codes) → is c ≡ false → digits_of is (c ∷ s) ≡ []
unfolding digits_of
no_digit_first is c s h = rw h refl

hex_of : (c : ℕ) → is_xdigit c ≡ true → IsHexDigit c × (leb 16 (digit_value c) ≡ false)
unfolding is_xdigit is_digit digit_value
hex_of c h = ground arith

hex_back : (c : ℕ) → is_xdigit c ≡ false → ¬ IsHexDigit c
unfolding is_xdigit is_digit
hex_back c h (inl i) = ground (arith, h, i)
hex_back c h (inr (inl i)) = ground (arith, h, i)
hex_back c h (inr (inr i)) = ground (arith, h, i)

hex_returns :
    (s : Codes)
    → (stoi 16 (digits_of is_xdigit s) ≡ invalid_argument)
      ↔ ((c : ℕ) (more : Codes) → s ≡ c ∷ more → ¬ IsHexDigit c)
unfolding digits_of stoi
hex_returns [] = (λ e c more q. cc, λ h. refl)
hex_returns (c ∷ s) = elim (Bool-cases (is_xdigit c)) [
  | inl hex ↦
      let (digit, low) = hex_of c hex in
      (
        λ e. absurd (
            stoi_reads 16 c (digits_of is_xdigit s) low
              (ap (stoi 16) (sym (digit_first is_xdigit c s hex)) ∙ e)),
        λ h. absurd (h c s refl digit),
      )
  | inr other ↦ (
    λ e d more q. let same : c ≡ d = cc in subst (λ x. ¬ IsHexDigit x) same (hex_back c other),
    λ h. ap (stoi 16) (no_digit_first is_xdigit c s other),
  )
]

octal_returns :
    (c : ℕ) (s : Codes)
    → leb 48 c && leb c 55 ≡ true
    → stoi 8 (digits_of is_digit (c ∷ s)) ≢ invalid_argument
unfolding is_digit digit_value
octal_returns c s h e =
    let digit : is_digit c ≡ true = ground arith in
    let low : leb 8 (digit_value c) ≡ false = ground arith in
    stoi_reads 8 c (digits_of is_digit s) low
      (ap (stoi 8) (sym (digit_first is_digit c s digit)) ∙ e)

-- myesc throws invalid_argument on exactly the escapes that are an x behind the backslash without a
-- hexadecimal digit, such as \x alone.
pub myesc-invalid_argument : (s : Codes) → (myesc s ≡ invalid_argument) ↔ IsBareHex s
unfolding myesc
myesc-invalid_argument [] = (λ e. cc, λ (slash, rest, q, h). cc)
myesc-invalid_argument (slash ∷ []) = (λ e. cc, λ (b, rest, q, h). cc)
myesc-invalid_argument (slash ∷ c ∷ s) = elim (Bool-cases (leb 48 c && leb c 55)) [
  | inl octal ↦ (
    λ e. absurd (octal_returns c s octal (sym (rw octal refl) ∙ e)),
    λ (b, rest, q, h). let same : c ≡ 120 = cc in ground (arith, same, octal),
  )
  | inr no_octal ↦ elim (Bool-cases (c == 120)) [
    | inl x ↦
        let same : c ≡ 120 = ground arith in
        let run : myesc (slash ∷ c ∷ s) ≡ stoi 16 (digits_of is_xdigit s) =
          rw (myesc, no_octal, x) refl in
        (
          λ e. (slash, s, ap (λ d. slash ∷ d ∷ s) same, (hex_returns s).0 (sym run ∙ e)),
          λ (b, rest, q, h).
              let tail : rest ≡ s = cc in
              run
              ∙ (hex_returns s).1
                  (subst (λ r. (d : ℕ) (more : Codes) → r ≡ d ∷ more → ¬ IsHexDigit d) tail h),
        )
    | inr other ↦ (
      λ e.
          let run : myesc (slash ∷ c ∷ s) ≡ character (letter_escape c) =
            rw (myesc, no_octal, other) refl in
          cc,
      λ (b, rest, q, h). let same : c ≡ 120 = cc in ground (arith, same, other),
    )
  ]
]
