-- ===== src/Misc/Escape.antt =====
-- `myesc` and `readable_form` of src/misc.cpp, and the tests of characters. Characters are the numbers
-- of their codes, and a string ends with a NUL behind its last character.
pub mod RoundTrip
use flex_cmake_old.Prelude.{
  ℕ, zero, suc, ◌+◌, ◌-◌, ◌*◌, ◌/◌, ◌%◌, ◌^◌, ◌==◌, ltb, leb, if◌then◌else◌, Bool, true, false, not,
  ◌&&◌, ◌||◌, List, [], ◌∷◌, ◌++◌,
}
use flex_cmake_old.Misc.Strings.{Codes, codes}

-- `isascii`, `isdigit`, `isxdigit`, `islower`, `isupper` of the C locale.
unfoldable pub is_digit : ℕ → Bool
is_digit c = leb 48 c && leb c 57

unfoldable pub is_xdigit : ℕ → Bool
unfolding is_digit
is_xdigit c = is_digit c || ((leb 65 c && leb c 70) || (leb 97 c && leb c 102))

unfoldable pub is_lower : ℕ → Bool
is_lower c = leb 97 c && leb c 122

unfoldable pub is_upper : ℕ → Bool
is_upper c = leb 65 c && leb c 90

unfoldable pub is_all_lower : Codes → Bool
unfolding is_lower
is_all_lower [] = true
is_all_lower (c ∷ s) = is_lower c && is_all_lower s

unfoldable pub is_all_upper : Codes → Bool
unfolding is_upper
is_all_upper [] = true
is_all_upper (c ∷ s) = is_upper c && is_all_upper s

unfoldable pub clower : ℕ → ℕ
unfolding is_upper
clower c = if is_upper c then c + 32 else c % 256

-- What `myesc` returns; `std::stoi` throws where there is no digit or the value is no int.
pub data Escaped : Type 0 where
  character : ℕ → Escaped
  invalid_argument : Escaped
  out_of_range : Escaped

-- The value of a digit.
unfoldable pub digit_value : ℕ → ℕ
digit_value c = if leb c 57 then c - 48 else if leb c 70 then c - 55 else c - 87

-- The characters that the loops over `sptr` pass.
unfoldable pub digits_of : (ℕ → Bool) → Codes → Codes
digits_of is [] = []
digits_of is (c ∷ s) = let rest = digits_of is s in if is c then c ∷ rest else []

-- The number that `std::stoi` reads: it stops at a digit that is too large for the base.
unfoldable pub read_number : (base value : ℕ) → Codes → ℕ
unfolding digit_value
read_number base value [] = value
read_number base value (c ∷ s) =
    let rest = read_number base (value * base + digit_value c) s in
    if ltb (digit_value c) base then rest else value

unfoldable pub stoi : (base : ℕ) → Codes → Escaped
unfolding read_number digit_value
stoi base [] = invalid_argument
stoi base (c ∷ s) =
    if leb base (digit_value c)
    then invalid_argument
    else if ltb (read_number base 0 (c ∷ s)) (2 ^ 31)
    then character (read_number base 0 (c ∷ s) % 256)
    else out_of_range

-- The escapes with a letter, in the order of the switch; `c` itself is the default.
unfoldable pub letter_escape : ℕ → ℕ
letter_escape c =
    if c == 98
    then 8
    else if c == 102
    then 12
    else if c == 110
    then 10
    else if c == 114
    then 13
    else if c == 116
    then 9
    else if c == 97
    then 7
    else if c == 118
    then 11
    else c

-- `array` is the backslash and what follows.
unfoldable pub myesc : Codes → Escaped
unfolding stoi digits_of is_digit is_xdigit letter_escape
myesc [] = character 0
myesc (slash ∷ []) = character 0
myesc (slash ∷ c ∷ s) =
    if leb 48 c && leb c 55
    then stoi 8 (digits_of is_digit (c ∷ s))
    else if c == 120
    then stoi 16 (digits_of is_xdigit s)
    else character (letter_escape c)

unfoldable pub hex_digit : ℕ → ℕ
hex_digit d = if ltb d 10 then d + 48 else d + 87

-- `%.3o` and `%.2x` of an unsigned number, digit by digit: at least so many digits, and more while the
-- number is not zero. A number has fewer digits than its value and `least` together.
unfoldable pub printed : (base least fuel n : ℕ) → Codes → Codes
unfolding hex_digit
printed base least zero n s = s
printed base least (suc fuel) n s =
    let rest = printed base (least - 1) fuel (n / base) (hex_digit (n % base) ∷ s) in
    if (least == 0) && (n == 0) then s else rest

unfoldable pub escaped_number : (trace_hex : Bool) → ℕ → Codes
unfolding printed
escaped_number true c = 92 ∷ 120 ∷ printed 16 2 (c + 2) c []
escaped_number false c = 92 ∷ printed 8 3 (c + 3) c []

-- The letters for the characters that have one; 0 for the others.
unfoldable pub letter_for : ℕ → ℕ
letter_for c =
    if c == 8
    then 98
    else if c == 12
    then 102
    else if c == 10
    then 110
    else if c == 13
    then 114
    else if c == 9
    then 116
    else if c == 7
    then 97
    else if c == 11
    then 118
    else 0

-- The characters that are not printed as themselves.
unfoldable pub is_unprintable : ℕ → Bool
is_unprintable c = ltb c 32 || leb 127 c

unfoldable pub readable_form : (trace_hex : Bool) → ℕ → Codes
unfolding is_unprintable letter_for escaped_number
readable_form trace_hex c =
    if is_unprintable c
    then if letter_for c == 0 then escaped_number trace_hex c else 92 ∷ letter_for c ∷ []
    else if c == 32
    then codes "' '"
    else c ∷ []
