-- ===== src/Tables/File.antt =====
-- struct yytbl_writer of src/tables.h with the open file behind it, and its writes of words.
use flex_cmake_old.Prelude.{
  ℕ, ◌+◌, ◌-◌, ◌/◌, ◌%◌, ◌^◌, leb, if◌then◌else◌, List, [], ◌∷◌, ◌++◌, length, take, drop, zero,
  suc,
}

-- `content` are the bytes of the file and `capacity` how long it can get: `fwrite` fails beyond it.
pub record Writer : Type 0 where
  pub content : List ℕ
  pub position : ℕ
  pub capacity : ℕ
  pub total_written : ℕ
  pub th_ssize_pos : ℕ

-- A call returns a value, or -1, or calls flex_die. `undefined` is what the code has no meaning for:
-- a read past the data, or a length that becomes a negative int.
pub data Written {ℓ} (A : Type ℓ) : Type ℓ where
  done : A → Writer → Written A
  failed : Written A
  died : Written A
  undefined : Written A

abbrev pub W : Type 0 → Type 0
W A = Writer → Written A

infixl 5 ◌>>=◌ ◌>>◌
abbrev pub ◌>>=◌ : {A B : Type 0} → W A → (A → W B) → W B
◌>>=◌ m f wr = elim (m wr) [
  | done a wr' ↦ f a wr'
  | failed ↦ failed
  | died ↦ died
  | undefined ↦ undefined
]

abbrev pub ◌>>◌ : {B : Type 0} → W (Unit {0}) → W B → W B
m >> k = m >>= λ _. k

abbrev pub pure : {A : Type 0} → A → W A
pure a wr = done a wr

-- `if (m < 0) flex_die(...)`
abbrev pub or_die : {A : Type 0} → W A → W A
or_die m wr = elim (m wr) [
  | done a wr' ↦ done a wr'
  | failed ↦ died
  | died ↦ died
  | undefined ↦ undefined
]

-- The bytes from `position` on are replaced, and the file grows where they end.
unfoldable pub overwrite : List ℕ → ℕ → List ℕ → List ℕ
overwrite content position bytes =
    take position content ++ (bytes ++ drop (position + length bytes) content)

-- `fwrite(bytes)` and `total_written += length`, which both the word and the array writers make.
unfoldable pub write_bytes : List ℕ → W ℕ
unfolding overwrite
write_bytes bytes wr =
    if leb (wr.position + length bytes) wr.capacity
    then done (length bytes) (record wr {
      content = overwrite wr.content wr.position bytes;
      position = wr.position + length bytes;
      total_written = (wr.total_written + length bytes) % 2 ^ 32;
    })
    else failed

-- Words in network byte order: what `htonl` and `htons` leave in memory.
abbrev pub bytes32 : ℕ → List ℕ
bytes32 v = v / 2 ^ 24 % 256 ∷ v / 2 ^ 16 % 256 ∷ v / 2 ^ 8 % 256 ∷ v % 256 ∷ []

abbrev pub bytes16 : ℕ → List ℕ
bytes16 v = v / 2 ^ 8 % 256 ∷ v % 256 ∷ []

unfoldable pub yytbl_write32 : ℕ → W ℕ
yytbl_write32 v = write_bytes (bytes32 v)

unfoldable pub yytbl_write16 : ℕ → W ℕ
yytbl_write16 v = write_bytes (bytes16 v)

unfoldable pub yytbl_write8 : ℕ → W ℕ
yytbl_write8 v = write_bytes (v % 256 ∷ [])

unfoldable pub yytbl_writen : List ℕ → W ℕ
yytbl_writen v = write_bytes v

-- yypad64 of src/tables_shared.h.
unfoldable pub yypad64 : ℕ → ℕ
yypad64 n = (8 - n % 8) % 8

unfoldable pub pad_loop : (pad bwritten : ℕ) → W ℕ
pad_loop zero bwritten = pure bwritten
pad_loop (suc pad) bwritten = do _ ← yytbl_write8 0; pad_loop pad (bwritten + 1)

unfoldable pub yytbl_write_pad64 : W ℕ
unfolding pad_loop
yytbl_write_pad64 wr = pad_loop (yypad64 wr.total_written) 0 wr
