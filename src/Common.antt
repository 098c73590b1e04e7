-- ===== src/Common.antt =====
-- Result type, runs of the program and the shared constants of src/flexdef.h.
use flex_cmake_old.Prelude.{
  ◌<◌, ◌≤◌, arith, ◌≡◌, ℕ, none, some, List, get_elem?, if◌then◌else◌, leb,
}

-- The messages with which flex ends: `lerr` and `flexerror` (src/misc.cpp), `flexfatal`.
pub data Message : Type 0 where
  bad_character : ℕ → Message
  needs_8bit : ℕ → Message
  too_many_transitions : Message
  empty_machine : Message
  bad_state_type : Message
  inconsistent_closure : Message
  bad_skeleton : Message
  bad_transition : Message
  no_end_of_buffer : Message

-- A run returns a value, ends flex with a message, or does what C++ leaves undefined, such as an
-- access past the end of a vector.
pub data Result {ℓ} (A : Type ℓ) : Type ℓ where
  ok : A → Result A
  exit : Message → Result A
  fault : Result A

infixl 5 ◌>>=◌ ◌>>◌
abbrev pub ◌>>=◌ {ℓ κ} : {A : Type ℓ} {B : Type κ} → Result A → (A → Result B) → Result B
ok a >>= f = f a
exit m >>= f = exit m
fault >>= f = fault

abbrev pub ◌>>◌ {ℓ} : {B : Type ℓ} → Result (Unit {0}) → Result B → Result B
m >> k = m >>= λ _. k

pub ok_injective : {A : Type 0} {a b : A} → ok a ≡ ok b → a ≡ b
ok_injective e = cc

-- A read of a vector.
unfoldable pub at {ℓ} : {A : Type ℓ} → List A → ℕ → Result A
at xs i = elim (get_elem? xs i) [ none ↦ fault | some x ↦ ok x ]

pub at-some {ℓ} :
    {A : Type ℓ} (xs : List A) (i : ℕ) {x : A} → get_elem? xs i ≡ some x → at xs i ≡ ok x
unfolding at
at-some xs i e = rw (e, at)

-- CSIZE: characters fit a byte.
abbrev pub csize_max : ℕ
csize_max = 256

-- `check_char` of src/misc.cpp.
unfoldable pub check_char : ℕ → ℕ → Result (Unit {0})
check_char csize c =
    if leb csize_max c
    then exit (bad_character c)
    else if leb csize c
    then exit (needs_8bit c)
    else ok tt

pub check_char-ok : (csize c : ℕ) → c < csize → csize ≤ csize_max → check_char csize c ≡ ok tt
unfolding check_char
check_char-ok csize c h m = ground arith
