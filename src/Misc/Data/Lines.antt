-- ===== src/Misc/Data/Lines.antt =====
-- The lines on which `mkdata` puts its values.
use mathlib.Core.List.{append-nil, append_assoc}
use flex_cmake_old.Prelude.{
  ℕ, zero, suc, ◌+◌, ◌-◌, ◌/◌, ◌%◌, ◌≤◌, ◌<◌, ◌≡◌, ◌⊎◌, refl, ap, ◌∙◌, sym, arith, ◌==◌, leb,
  if◌then◌else◌, Bool-cases, inl, inr, true, ◌&&◌, List, [], ◌∷◌, ◌++◌, length, replicate, All,
}
use flex_cmake_old.Prelude.Int.{ℤ, pos, negsuc}
use flex_cmake_old.Misc.Strings.{Codes, codes}
use flex_cmake_old.Misc.Escape.{hex_digit, printed}
use flex_cmake_old.Context.{Line, put_text, put_eol, add_line, line_of}
use flex_cmake_old.Misc.Data.{
  DataOutput, decimal, set_width, put_chars, end_line, flush_line, start_item, put_item, mkdata,
}
use flex_cmake_old.Misc.Data.Listed.{
  content, listed, mkdata_all, mkdata_all-listed, start_item-full, start_item-room, mkdata-put_item,
  mkdata-content, line_of-text,
}

unfoldable pub commas : Codes → ℕ
commas [] = 0
commas (c ∷ s) = (if c == 44 then 1 else 0) + commas s

commas-nil : commas [] ≡ 0
unfolding commas
commas-nil = refl

commas-append : (s t : Codes) → commas (s ++ t) ≡ commas s + commas t
unfolding commas
commas-append [] t = omega arith
commas-append (c ∷ s) t = omega (arith, commas-append s t)

commas-pad : (n : ℕ) → commas (replicate n 32) ≡ 0
unfolding commas
commas-pad zero = refl
commas-pad (suc n) = omega (arith, commas-pad n)

commas-set_width : (w : ℕ) (s : Codes) → commas (set_width w s) ≡ commas s
unfolding set_width
commas-set_width w s =
    omega (arith, commas-append (replicate (w - length s) 32) s, commas-pad (w - length s))

commas-digit : (d : ℕ) (s : Codes) → commas s ≡ 0 → commas (hex_digit d ∷ s) ≡ 0
unfolding commas hex_digit
commas-digit d s e = ground (arith, e)

commas-printed :
    (base least fuel n : ℕ) (s : Codes) → commas s ≡ 0 → commas (printed base least fuel n s) ≡ 0
unfolding printed commas
commas-printed base least zero n s e = e
commas-printed base least (suc fuel) n s e = elim (Bool-cases ((least == 0) && (n == 0))) [
  | inl f ↦ rw f e
  | inr f ↦ rw f (
      commas-printed base (least - 1) fuel (n / base) (hex_digit (n % base) ∷ s)
        (commas-digit (n % base) s e))
]

commas-decimal : (value : ℤ) → commas (decimal value) ≡ 0
unfolding decimal commas
commas-decimal (pos n) = commas-printed 10 1 (n + 1) n [] refl
commas-decimal (negsuc n) = omega (arith, commas-printed 10 1 (n + 2) (n + 1) [] refl)

-- The commas of the line that is being written stand between `datapos` values.
abbrev pub Begun : DataOutput → Type 0
Begun d = (d.datapos ≤ 10) × (commas d.processed_file.ss_line ≡ d.datapos - 1)

-- A comma behind each of ten values, or an empty line.
abbrev pub IsFullLine : Line → Type 0
IsFullLine l = (commas l.text ≡ 10) ⊎ (l.text ≡ [])

abbrev pub Adds : (before after : DataOutput) → Type 0
Adds before after =
    (added : List Line) × (after.processed_file.lines ≡ before.processed_file.lines ++ added)
    × All IsFullLine added

Adds-Adds : (a b c : DataOutput) → Adds a b → Adds b c → Adds a c
Adds-Adds a b c (xs, e, f) (ys, e', f') =
    (xs ++ ys, e' ∙ ap (λ r. r ++ ys) e ∙ append_assoc a.processed_file.lines xs ys, both xs f)
  where
    both : (zs : List Line) → All IsFullLine zs → All IsFullLine (zs ++ ys)
    both [] h = f'
    both (z ∷ zs) (h, hs) = (h, both zs hs)

flush_line-Adds :
    (d : DataOutput)
    → commas d.processed_file.ss_line ≡ 10
    → Adds d (flush_line d)
      × ((flush_line d).datapos ≡ 0)
      × ((flush_line d).processed_file.ss_line ≡ [])
unfolding flush_line end_line put_eol add_line
flush_line-Adds d ten = elim (Bool-cases (leb 10 (d.dataline + 1))) [
  | inl e ↦ rw e (
    (
      line_of d.processed_file.ss_line d.processed_file.n_indents
          ∷ line_of [] d.processed_file.n_indents
          ∷ [],
      append_assoc d.processed_file.lines _ _,
      (
        inl (ap commas (line_of-text _ _) ∙ ten),
        (inr (line_of-text [] d.processed_file.n_indents), tt),
      ),
    ),
    refl,
    refl,
  )
  | inr e ↦ rw e (
    (
      line_of d.processed_file.ss_line d.processed_file.n_indents ∷ [],
      refl,
      (inl (ap commas (line_of-text _ _) ∙ ten), tt),
    ),
    refl,
    refl,
  )
]

same_lines : (d e : DataOutput) → e.processed_file.lines ≡ d.processed_file.lines → Adds d e
same_lines d e same = ([], same ∙ sym (append-nil d.processed_file.lines), tt)

commas-comma :
    (d : DataOutput)
    → commas (put_chars (codes ",") d).processed_file.ss_line ≡ commas d.processed_file.ss_line + 1
unfolding put_chars put_text commas
commas-comma d = commas-append d.processed_file.ss_line (44 ∷ [])

with_comma : (d e : DataOutput) → Adds (put_chars (codes ",") d) e → Adds d e
unfolding put_chars put_text
with_comma d e adds = adds

commas-front : (n : ℕ) → n - 1 + commas (if n == 0 then codes "    " else codes ",") ≡ n
unfolding commas
commas-front n = elim (Bool-cases (n == 0)) [
  | inl e ↦ rw e (ground arith)
  | inr e ↦ rw e (ground arith)
]

start_item-Adds :
    (d : DataOutput)
    → d.gentables ≡ true
    → Begun d
    → Adds d (start_item d) × Begun (start_item d) × ((start_item d).datapos < 10)
start_item-Adds d on (small, begun) = elim (Bool-cases (leb 10 d.datapos)) [
  | inr e ↦ rw (start_item-room d e) (same_lines d d refl, (small, begun), ground (arith, e))
  | inl e ↦
      let d' = put_chars (codes ",") d in
      let (adds, none_yet, fresh) =
        flush_line-Adds d' (commas-comma d ∙ ground (arith, begun, e, small)) in
      rw (start_item-full d on e) (
        with_comma d (flush_line d') adds,
        (omega (arith, none_yet), ap commas fresh ∙ omega (arith, none_yet, commas-nil)),
        omega (arith, none_yet),
      )
]

put_item-Adds :
    (value : ℤ) (d : DataOutput)
    → Begun d
    → d.datapos < 10
    → Adds d (put_item value d) × Begun (put_item value d)
unfolding put_item put_chars put_text
put_item-Adds value d (small, begun) room =
    let front = if d.datapos == 0 then codes "    " else codes "," in
    (
      same_lines d (put_item value d) refl,
      (
        omega (arith, room),
        commas-append (d.processed_file.ss_line ++ front) (set_width 5 (decimal value))
            ∙ omega (
              arith,
              commas-append d.processed_file.ss_line front,
              commas-set_width 5 (decimal value),
              commas-decimal value,
              begun,
              commas-front d.datapos,
            ),
      ),
    )

mkdata-Adds :
    (value : ℤ) (d : DataOutput)
    → d.gentables ≡ true
    → Begun d
    → Adds d (mkdata value d) × Begun (mkdata value d)
mkdata-Adds value d on begun =
    let (adds, begun1, room) = start_item-Adds d on begun in
    let (adds2, begun2) = put_item-Adds value (start_item d) begun1 room in
    rw (mkdata-put_item value d on)
      (Adds-Adds d (start_item d) (put_item value (start_item d)) adds adds2, begun2)

mkdata_all-Adds :
    (values : List ℤ) (d : DataOutput)
    → d.gentables ≡ true
    → Begun d
    → Adds d (mkdata_all values d) × Begun (mkdata_all values d)
unfolding mkdata_all
mkdata_all-Adds [] d on begun = (same_lines d d refl, begun)
mkdata_all-Adds (value ∷ values) d on begun =
    let (adds, begun1) = mkdata-Adds value d on begun in
    let (_, _, _, still) = mkdata-content value d on in
    let (adds2, begun2) = mkdata_all-Adds values (mkdata value d) still begun1 in
    (Adds-Adds d (mkdata value d) (mkdata_all values (mkdata value d)) adds adds2, begun2)

-- While tables are generated, and while the line that is being written has datapos values, of which
-- all but the first have a comma in front: mkdata writes the values of an array in order, in decimal
-- and with commas between them, so that the output gains exactly that, line ends and spaces aside. Each line
-- that is ended meanwhile has exactly ten commas or is empty, and on the line that is left
-- there are again datapos values, ten at most.
pub mkdata_all-lines :
    (values : List ℤ) (d : DataOutput)
    → d.gentables ≡ true
    → Begun d
    → (content (mkdata_all values d).processed_file
        ≡ content d.processed_file ++ listed d.datapos values)
      × Adds d (mkdata_all values d)
      × Begun (mkdata_all values d)
mkdata_all-lines values d on begun =
    let (adds, begun') = mkdata_all-Adds values d on begun in
    ((mkdata_all-listed values d on begun.0).0, adds, begun')
