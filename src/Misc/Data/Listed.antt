-- ===== src/Misc/Data/Listed.antt =====
-- What `mkdata` writes, spaces and line ends left aside.
use mathlib.Core.List.{append-nil, append_assoc}
use flex_cmake_old.Prelude.{
  ℕ, zero, suc, ◌+◌, ◌-◌, ◌/◌, ◌%◌, ◌<◌, ◌≤◌, ◌≡◌, refl, ap, ◌∙◌, sym, arith, ◌==◌, leb,
  if◌then◌else◌, Bool, Bool-cases, inl, inr, true, false, ◌&&◌, List, [], ◌∷◌, ◌++◌, length,
  replicate,
}
use flex_cmake_old.Prelude.Int.{ℤ, pos, negsuc}
use flex_cmake_old.Misc.Strings.{Codes, codes}
use flex_cmake_old.Misc.Escape.{hex_digit, printed}
use flex_cmake_old.Context.{Line, Buffer, put_text, put_eol, add_line, line_of}
use flex_cmake_old.Misc.Data.{
  DataOutput, decimal, set_width, put_chars, end_line, flush_line, dataflush, start_item, put_item,
  mkdata,
}

-- A text without its spaces.
unfoldable pub unspaced : Codes → Codes
unspaced [] = []
unspaced (c ∷ s) = let rest = unspaced s in if c == 32 then rest else c ∷ rest

unfoldable pub texts : List Line → Codes
texts [] = []
texts (l ∷ ls) = l.text ++ texts ls

-- All that is written, without spaces.
unfoldable pub content : Buffer → Codes
unfolding unspaced texts
content b = unspaced (texts b.lines ++ b.ss_line)

unspaced-append : (s t : Codes) → unspaced (s ++ t) ≡ unspaced s ++ unspaced t
unfolding unspaced
unspaced-append [] t = refl
unspaced-append (c ∷ s) t = elim (Bool-cases (c == 32)) [
  | inl e ↦ rw e (unspaced-append s t)
  | inr e ↦ rw e (ap (λ r. c ∷ r) (unspaced-append s t))
]

unspaced-pad : (n : ℕ) → unspaced (replicate n 32) ≡ []
unfolding unspaced
unspaced-pad zero = refl
unspaced-pad (suc n) = unspaced-pad n

unspaced-set_width : (w : ℕ) (s : Codes) → unspaced (set_width w s) ≡ unspaced s
unfolding set_width
unspaced-set_width w s =
    unspaced-append (replicate (w - length s) 32) s
    ∙ ap (λ r. r ++ unspaced s) (unspaced-pad (w - length s))

hex_digit_visible : (n : ℕ) → (hex_digit n == 32) ≡ false
unfolding hex_digit
hex_digit_visible n = ground arith

unspaced-printed :
    (base least fuel n : ℕ) (s : Codes)
    → unspaced s ≡ s
    → unspaced (printed base least fuel n s) ≡ printed base least fuel n s
unfolding printed unspaced
unspaced-printed base least zero n s e = e
unspaced-printed base least (suc fuel) n s e = elim (Bool-cases ((least == 0) && (n == 0))) [
  | inl f ↦ rw f e
  | inr f ↦ rw f (
      unspaced-printed base (least - 1) fuel (n / base) (hex_digit (n % base) ∷ s)
        (rw (hex_digit_visible (n % base)) (ap (λ r. hex_digit (n % base) ∷ r) e)))
]

unspaced-decimal : (value : ℤ) → unspaced (decimal value) ≡ decimal value
unfolding decimal unspaced
unspaced-decimal (pos n) = unspaced-printed 10 1 (n + 1) n [] refl
unspaced-decimal (negsuc n) = ap (λ r. 45 ∷ r) (unspaced-printed 10 1 (n + 2) (n + 1) [] refl)

texts-append : (xs ys : List Line) → texts (xs ++ ys) ≡ texts xs ++ texts ys
unfolding texts
texts-append [] ys = refl
texts-append (l ∷ xs) ys = rw (texts-append xs ys) (sym (append_assoc l.text (texts xs) (texts ys)))

pub line_of-text : (s : Codes) (n : ℤ) → (line_of s n).text ≡ s
unfolding line_of
line_of-text [] n = refl
line_of-text (c ∷ s) n = refl

pub content-put_text : (s : Codes) (b : Buffer) → content (put_text s b) ≡ content b ++ unspaced s
unfolding content put_text
content-put_text s b =
    ap unspaced (sym (append_assoc (texts b.lines) b.ss_line s))
    ∙ unspaced-append (texts b.lines ++ b.ss_line) s

pub content-put_eol : (b : Buffer) → content (put_eol b) ≡ content b
unfolding content put_eol add_line texts
content-put_eol b =
    rw
      (
        texts-append b.lines (line_of b.ss_line b.n_indents ∷ []),
        line_of-text b.ss_line b.n_indents,
        append-nil b.ss_line,
        append-nil (texts b.lines ++ b.ss_line),
      )
      refl

pub content-flush_line :
    (d : DataOutput) → content (flush_line d).processed_file ≡ content d.processed_file
unfolding flush_line end_line
content-flush_line d = elim (Bool-cases (leb 10 (d.dataline + 1))) [
  | inl e ↦ rw e (content-put_eol (put_eol d.processed_file) ∙ content-put_eol d.processed_file)
  | inr e ↦ rw e (content-put_eol d.processed_file)
]

-- A comma stands before a value unless it is the first since the output was ended.
unfoldable pub separator : (datapos : ℕ) → Codes
separator datapos = if datapos == 0 then [] else 44 ∷ []

flush_line-datapos : (d : DataOutput) → (flush_line d).datapos ≡ 0
unfolding flush_line
flush_line-datapos d = elim (Bool-cases (leb 10 (d.dataline + 1))) [
  | inl e ↦ rw e refl
  | inr e ↦ rw e refl
]

pub flush_line-gentables : (d : DataOutput) → (flush_line d).gentables ≡ d.gentables
unfolding flush_line end_line
flush_line-gentables d = elim (Bool-cases (leb 10 (d.dataline + 1))) [
  | inl e ↦ rw e refl
  | inr e ↦ rw e refl
]

pub start_item-full :
    (d : DataOutput)
    → d.gentables ≡ true
    → leb 10 d.datapos ≡ true
    → start_item d ≡ flush_line (put_chars (codes ",") d)
unfolding start_item dataflush put_chars
start_item-full d on e = rw (e, on) refl

pub start_item-room : (d : DataOutput) → leb 10 d.datapos ≡ false → start_item d ≡ d
unfolding start_item
start_item-room d e = rw e refl

content-comma :
    (d : DataOutput)
    → content (put_chars (codes ",") d).processed_file ≡ content d.processed_file ++ (44 ∷ [])
unfolding put_chars unspaced
content-comma d = content-put_text (44 ∷ []) d.processed_file

put_chars-gentables : (s : Codes) (d : DataOutput) → (put_chars s d).gentables ≡ d.gentables
unfolding put_chars
put_chars-gentables s d = refl

-- The line is flushed with a comma where it is full.
start_item-content :
    (d : DataOutput)
    → d.gentables ≡ true
    → (content (start_item d).processed_file ++ separator (start_item d).datapos
        ≡ content d.processed_file ++ separator d.datapos)
      × ((start_item d).datapos < 10)
      × ((start_item d).gentables ≡ true)
unfolding separator
start_item-content d on = elim (Bool-cases (leb 10 d.datapos)) [
  | inr e ↦ rw (start_item-room d e) (refl, ground arith, on)
  | inl e ↦
      let full : (d.datapos == 0) ≡ false = ground arith in
      let d' = put_chars (codes ",") d in
      rw
        (
          start_item-full d on e,
          flush_line-datapos d',
          content-flush_line d',
          content-comma d,
          full,
        )
        (
          append-nil _,
          omega arith,
          flush_line-gentables d' ∙ put_chars-gentables (codes ",") d ∙ on,
        )
]

front-separator : (n : ℕ) → unspaced (if n == 0 then codes "    " else codes ",") ≡ separator n
unfolding unspaced separator
front-separator n = elim (Bool-cases (n == 0)) [ inl e ↦ rw e refl | inr e ↦ rw e refl ]

put_item-content :
    (value : ℤ) (d : DataOutput)
    → (content (put_item value d).processed_file
        ≡ content d.processed_file ++ (separator d.datapos ++ decimal value))
      × ((put_item value d).datapos ≡ d.datapos + 1)
      × ((put_item value d).gentables ≡ d.gentables)
unfolding put_item put_chars
put_item-content value d =
    let front = if d.datapos == 0 then codes "    " else codes "," in
    (
      content-put_text (set_width 5 (decimal value)) (put_text front d.processed_file)
          ∙ rw
              (
                unspaced-set_width 5 (decimal value),
                unspaced-decimal value,
                content-put_text front d.processed_file,
                front-separator d.datapos,
              )
              (append_assoc (content d.processed_file) (separator d.datapos) (decimal value)),
      refl,
      refl,
    )

pub chosen : {A : Type 0} (b : Bool) (x y : A) → b ≡ true → (if b then x else y) ≡ x
chosen b x y e = rw e refl

pub mkdata-put_item :
    (value : ℤ) (d : DataOutput)
    → d.gentables ≡ true
    → mkdata value d ≡ put_item value (start_item d)
unfolding mkdata
mkdata-put_item value d on = chosen d.gentables (put_item value (start_item d)) d on

pub mkdata-content :
    (value : ℤ) (d : DataOutput)
    → d.gentables ≡ true
    → (content (mkdata value d).processed_file
        ≡ content d.processed_file ++ (separator d.datapos ++ decimal value))
      × (0 < (mkdata value d).datapos)
      × ((mkdata value d).datapos ≤ 10)
      × ((mkdata value d).gentables ≡ true)
mkdata-content value d on =
    let (c, low, still) = start_item-content d on in
    let (c', pos', gen') = put_item-content value (start_item d) in
    rw (mkdata-put_item value d on) (
      c'
          ∙ sym (
              append_assoc (content (start_item d).processed_file)
                (separator (start_item d).datapos) (decimal value))
          ∙ rw c (append_assoc (content d.processed_file) (separator d.datapos) (decimal value)),
      omega arith,
      omega arith,
      gen' ∙ still,
    )

-- `mkdata` for each value of an array.
unfoldable pub mkdata_all : List ℤ → DataOutput → DataOutput
mkdata_all [] d = d
mkdata_all (value ∷ values) d = mkdata_all values (mkdata value d)

-- The values with commas between them, and in front unless the output is at a start.
unfoldable pub listed : (datapos : ℕ) → List ℤ → Codes
unfolding separator
listed datapos [] = []
listed datapos (value ∷ values) = separator datapos ++ (decimal value ++ listed 1 values)

listed_later :
    (datapos : ℕ) (values : List ℤ) → 0 < datapos → listed datapos values ≡ listed 1 values
unfolding listed separator
listed_later datapos [] h = refl
listed_later datapos (value ∷ values) h =
    let later : (datapos == 0) ≡ false = ground arith in rw later refl

-- While tables are generated, mkdata writes the values of an array in order, in decimal and with commas
-- between them: line ends and spaces aside, the output gains exactly that. The counter datapos stays
-- at ten or below.
pub mkdata_all-listed :
    (values : List ℤ) (d : DataOutput)
    → d.gentables ≡ true
    → d.datapos ≤ 10
    → (content (mkdata_all values d).processed_file
        ≡ content d.processed_file ++ listed d.datapos values)
      × ((mkdata_all values d).datapos ≤ 10)
unfolding mkdata_all listed
mkdata_all-listed [] d on small = (sym (append-nil (content d.processed_file)), small)
mkdata_all-listed (value ∷ values) d on small =
    let (c, low, high, still) = mkdata-content value d on in
    let (all, bound) = mkdata_all-listed values (mkdata value d) still high in
    (
      all
          ∙ rw (c, listed_later (mkdata value d).datapos values low)
              (append_assoc (content d.processed_file) (separator d.datapos ++ decimal value)
                  (listed 1 values)
                ∙ ap (λ r. content d.processed_file ++ r)
                    (append_assoc (separator d.datapos) (decimal value) (listed 1 values))),
      bound,
    )

pub mkdata_all-generating :
    (values : List ℤ) (d : DataOutput) → d.gentables ≡ true → (mkdata_all values d).gentables ≡ true
unfolding mkdata_all
mkdata_all-generating [] d on = on
mkdata_all-generating (value ∷ values) d on =
    let (_, _, _, still) = mkdata-content value d on in
    mkdata_all-generating values (mkdata value d) still
