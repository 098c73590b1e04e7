-- ===== src/Tables/Append.antt =====
-- Writes at the end of the file: the words, the padding and the header of src/tables.cpp.
use flex_cmake_old.Prelude.{
  ℕ, zero, suc, ◌+◌, ◌%◌, ◌^◌, ◌≤◌, ◌<◌, ◌≡◌, refl, ap, ◌∙◌, arith, le→leb, List, [], ◌∷◌, ◌++◌,
  length, length-append, take, drop, replicate,
}
use flex_cmake_old.Tables.File.{
  Writer, done, W, ◌>>=◌, or_die, overwrite, write_bytes, yytbl_write8, yypad64, pad_loop,
  yytbl_write_pad64,
}

-- The writer stands at the end of the file.
abbrev pub AtEnd : Writer → Type 0
AtEnd wr = wr.position ≡ length wr.content

-- There is room for `n` more bytes, in the file and in the counter.
abbrev pub Room : ℕ → Writer → Type 0
Room n wr = (wr.position + n ≤ wr.capacity) × (wr.total_written + n < 2 ^ 32)

unfoldable pub appended : List ℕ → Writer → Writer
appended bytes wr = record wr {
  content = wr.content ++ bytes;
  position = wr.position + length bytes;
  total_written = wr.total_written + length bytes;
}

take_all : (xs : List ℕ) → take (length xs) xs ≡ xs
take_all [] = refl
take_all (x ∷ xs) = ap (λ t. x ∷ t) (take_all xs)

drop_past : (xs : List ℕ) (n : ℕ) → length xs ≤ n → drop n xs ≡ []
drop_past [] zero h = refl
drop_past [] (suc n) h = refl
drop_past (x ∷ xs) zero h = absurd (omega arith)
drop_past (x ∷ xs) (suc n) h = drop_past xs n (omega arith)

append_nil : (xs : List ℕ) → xs ++ [] ≡ xs
append_nil [] = refl
append_nil (x ∷ xs) = ap (λ t. x ∷ t) (append_nil xs)

append_assoc : (xs ys zs : List ℕ) → (xs ++ ys) ++ zs ≡ xs ++ (ys ++ zs)
append_assoc [] ys zs = refl
append_assoc (x ∷ xs) ys zs = ap (λ t. x ∷ t) (append_assoc xs ys zs)

add_assoc : (a b c : ℕ) → a + b + c ≡ a + (b + c)
add_assoc a b c = omega arith

pub write_bytes-appended :
    (bytes : List ℕ) (wr : Writer)
    → AtEnd wr
    → Room (length bytes) wr
    → write_bytes bytes wr ≡ done (length bytes) (appended bytes wr)
unfolding write_bytes overwrite appended
write_bytes-appended bytes wr at_end (room, small) = rw (
  le→leb _ _ room,
  at_end,
  take_all wr.content,
  drop_past wr.content (length wr.content + length bytes) (omega arith),
  append_nil bytes,
  small_mod,
)
  where
    small_mod : (wr.total_written + length bytes) % 2 ^ 32 ≡ wr.total_written + length bytes
    small_mod = omega arith

pub AtEnd-appended : (bytes : List ℕ) (wr : Writer) → AtEnd wr → AtEnd (appended bytes wr)
unfolding appended
AtEnd-appended bytes wr h = omega (arith, length-append wr.content bytes, h)

pub appended-appended :
    (a b : List ℕ) (wr : Writer) → appended b (appended a wr) ≡ appended (a ++ b) wr
unfolding appended
appended-appended a b wr = rw (
  append_assoc wr.content a b,
  length-append a b,
  add_assoc wr.position (length a) (length b),
  add_assoc wr.total_written (length a) (length b),
)

pub length-replicate : (n : ℕ) → length {A = ℕ} (replicate n 0) ≡ n
length-replicate zero = refl
length-replicate (suc n) = ap suc (length-replicate n)

pub Room-front : (m n : ℕ) (wr : Writer) → Room (m + n) wr → Room m wr
Room-front m n wr (a, b) = (omega arith, omega arith)

pub Room-back :
    (bytes : List ℕ) (n : ℕ) (wr : Writer) → Room (length bytes + n) wr → Room n (appended bytes wr)
unfolding appended
Room-back bytes n wr (a, b) = (omega arith, omega arith)

add_zero : (n : ℕ) → n + 0 ≡ n
add_zero n = omega arith

zero_add : (n : ℕ) → 0 + n ≡ n
zero_add n = omega arith

appended-nil : (wr : Writer) → appended [] wr ≡ wr
unfolding appended
appended-nil wr = rw (append_nil wr.content, add_zero wr.position, add_zero wr.total_written)

-- A call that returns, and what comes after it.
pub bind-done :
    {A B : Type 0} (m : W A) (f : A → W B) (wr : Writer) {a : A} {wr' : Writer}
    → m wr ≡ done a wr'
    → (m >>= f) wr ≡ f a wr'
bind-done m f wr e = rw (◌>>=◌, e)

pad_loop_lem :
    (pad bwritten : ℕ) (wr : Writer)
    → AtEnd wr
    → Room pad wr
    → pad_loop pad bwritten wr ≡ done (bwritten + pad) (appended (replicate pad 0) wr)
unfolding pad_loop yytbl_write8
pad_loop_lem zero bwritten wr at_end room = rw (appended-nil wr, add_zero bwritten)
pad_loop_lem (suc pad) bwritten wr at_end room =
    let room' : Room (1 + pad) wr = (omega arith, omega arith) in
    bind-done (yytbl_write8 0) (λ _. pad_loop pad (bwritten + 1)) wr
      (write_bytes-appended (0 ∷ []) wr at_end (Room-front 1 pad wr room'))
    ∙ pad_loop_lem pad (bwritten + 1) (appended (0 ∷ []) wr) (AtEnd-appended (0 ∷ []) wr at_end)
        (Room-back (0 ∷ []) pad wr room')
    ∙ rw (appended-appended (0 ∷ []) (replicate pad 0) wr, moved)
  where
    moved : bwritten + 1 + pad ≡ bwritten + suc pad
    moved = omega arith

pub yytbl_write_pad64_pads :
    (wr : Writer)
    → AtEnd wr
    → Room 7 wr
    → yytbl_write_pad64 wr
      ≡ done (yypad64 wr.total_written) (appended (replicate (yypad64 wr.total_written) 0) wr)
unfolding yytbl_write_pad64 yypad64
yytbl_write_pad64_pads wr at_end room =
    let pad = yypad64 wr.total_written in
    pad_loop_lem pad 0 wr at_end (omega arith, omega arith)
    ∙ ap (λ t. done t (appended (replicate pad 0) wr)) (zero_add pad)

-- The padding is at most seven zeros, after which the total is a multiple of eight.
pub yytbl_write_pad64_aligns :
    (wr : Writer)
    → AtEnd wr
    → Room 7 wr
    → (pad : ℕ) × (yytbl_write_pad64 wr ≡ done pad (appended (replicate pad 0) wr))
      × (pad ≤ 7)
      × ((appended (replicate pad 0) wr).total_written % 8 ≡ 0)
unfolding yytbl_write_pad64 yypad64 appended
yytbl_write_pad64_aligns wr at_end room =
    let pad = yypad64 wr.total_written in
    let small : pad ≤ 7 = omega arith in
    (
      pad,
      pad_loop_lem pad 0 wr at_end (omega arith, omega arith)
          ∙ ap (λ t. done t (appended (replicate pad 0) wr)) (zero_add pad),
      small,
      omega (arith, length-replicate pad),
    )

-- The same for a call whose error ends flex.
pub or_die-done :
    {A : Type 0} (m : W A) (wr : Writer) {a : A} {wr' : Writer}
    → m wr ≡ done a wr'
    → or_die m wr ≡ done a wr'
or_die-done m wr e = rw (or_die, e)

-- A write that is checked, followed by the rest of a writer.
pub checked_write :
    {B : Type 0} (bytes : List ℕ) (f : ℕ → W B) (n : ℕ) (wr : Writer)
    → AtEnd wr
    → Room (length bytes + n) wr
    → ((or_die (write_bytes bytes)) >>= f) wr ≡ f (length bytes) (appended bytes wr)
checked_write bytes f n wr at_end room = bind-done (or_die (write_bytes bytes)) f wr (
    or_die-done (write_bytes bytes) wr
      (write_bytes-appended bytes wr at_end (Room-front (length bytes) n wr room)))
