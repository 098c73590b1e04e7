-- ===== src/Context/Split.antt =====
-- `splitLines` of src/context.cpp.
use mathlib.Core.List.{append_assoc}
use flex_cmake_old.Prelude.{
  ◌≡◌, refl, ap, ◌∙◌, sym, arith, ◌==◌, if◌then◌else◌, Bool, Bool-cases, inl, inr, true, false,
  ◌||◌, List, [], ◌∷◌, ◌++◌, map, All, subst,
}
use flex_cmake_old.Prelude.Int.{pos}
use flex_cmake_old.Misc.Strings.{Codes}
use flex_cmake_old.Context.{Line, join_piece, pieces, plain_line, indents, text_of}

unfoldable pub has_newline : Codes → Bool
has_newline [] = false
has_newline (c ∷ s) = (c == 10) || has_newline s

-- A line without a newline stays as it is; the pieces of another lose its indentation.
unfoldable pub split_line : Line → List Line
unfolding has_newline pieces
split_line l = if has_newline l.text then map plain_line (pieces l.text) else l ∷ []

unfoldable pub split_lines : List Line → List Line
unfolding split_line
split_lines [] = []
split_lines (l ∷ ls) = split_line l ++ split_lines ls

text_of-append :
    (indent newline : Codes) (xs ys : List Line)
    → text_of indent newline (xs ++ ys) ≡ text_of indent newline xs ++ text_of indent newline ys
unfolding text_of
text_of-append indent newline [] ys = refl
text_of-append indent newline (l ∷ xs) ys =
    rw
      (
        text_of-append indent newline xs ys,
        append_assoc (indents indent l.n_indents) (l.text ++ (newline ++ text_of indent newline xs))
            (text_of indent newline ys),
        append_assoc l.text (newline ++ text_of indent newline xs) (text_of indent newline ys),
        append_assoc newline (text_of indent newline xs) (text_of indent newline ys),
      )
      refl

-- There is a first piece.
pieces_some : (s : Codes) → (p : Codes) × (ps : List Codes) × (pieces s ≡ p ∷ ps)
unfolding pieces join_piece
pieces_some [] = ([], [], refl)
pieces_some (c ∷ s) =
    let (p, ps, e) = pieces_some s in
    elim (Bool-cases (c == 10)) [
      | inl f ↦ ([], pieces s, rw f refl)
      | inr f ↦ (c ∷ p, ps, rw (f, e) refl)
    ]

text_of-pieces :
    (indent s : Codes) → text_of indent (10 ∷ []) (map plain_line (pieces s)) ≡ s ++ (10 ∷ [])
unfolding text_of indents pieces join_piece
text_of-pieces indent [] = refl
text_of-pieces indent (c ∷ s) =
    let (p, ps, e) = pieces_some s in
    let rest = text_of-pieces indent s in
    elim (Bool-cases (c == 10)) [
      | inl f ↦
          let same : 10 ≡ c = ground arith in
          rw f (
            ap (λ d. d ∷ text_of indent (10 ∷ []) (map plain_line (pieces s))) same
            ∙ ap (λ t. c ∷ t) rest)
      | inr f ↦
          rw (f, e)
            (ap (λ t. c ∷ t) (sym (ap (λ q. text_of indent (10 ∷ []) (map plain_line q)) e) ∙ rest))
    ]

abbrev NoNewline : Line → Type 0
NoNewline l = has_newline l.text ≡ false

pieces-NoNewline : (s : Codes) → All NoNewline (map plain_line (pieces s))
unfolding pieces join_piece has_newline
pieces-NoNewline [] = (refl, tt)
pieces-NoNewline (c ∷ s) =
    let (p, ps, e) = pieces_some s in
    let rest = pieces-NoNewline s in
    elim (Bool-cases (c == 10)) [
      | inl f ↦ rw f (refl, rest)
      | inr f ↦
          let (first, others) = subst (λ q. All NoNewline (map plain_line q)) e rest in
          rw (f, e) (rw f first, others)
    ]

All-append : (xs ys : List Line) → All NoNewline xs → All NoNewline ys → All NoNewline (xs ++ ys)
All-append [] ys h k = k
All-append (l ∷ xs) ys (e, h) k = (e, All-append xs ys h k)

-- The lines that are split have no indentation.
abbrev pub Splits : Line → Type 0
Splits l = has_newline l.text ≡ true → l.n_indents ≡ pos 0

split_line-text :
    (indent : Codes) (l : Line)
    → Splits l
    → (text_of indent (10 ∷ []) (split_line l) ≡ text_of indent (10 ∷ []) (l ∷ []))
      × All NoNewline (split_line l)
unfolding split_line text_of indents
split_line-text indent l h = elim (Bool-cases (has_newline l.text)) [
  | inl e ↦ rw e (text_of-pieces indent l.text ∙ rw (h e) refl, pieces-NoNewline l.text)
  | inr e ↦ rw e (refl, (e, tt))
]

-- Where the lines that hold a newline have no indentation and lines end with a newline, splitting the
-- lines leaves the text as it is, and afterwards no line holds a newline.
pub split_lines-text :
    (indent : Codes) (ls : List Line)
    → All Splits ls
    → (text_of indent (10 ∷ []) (split_lines ls) ≡ text_of indent (10 ∷ []) ls)
      × All NoNewline (split_lines ls)
unfolding split_lines
split_lines-text indent [] h = (refl, tt)
split_lines-text indent (l ∷ ls) (first, h) =
    let (t, n) = split_line-text indent l first in
    let (ts, ns) = split_lines-text indent ls h in
    (
      text_of-append indent (10 ∷ []) (split_line l) (split_lines ls)
          ∙ rw (t, ts) (sym (text_of-append indent (10 ∷ []) (l ∷ []) ls)),
      All-append (split_line l) (split_lines ls) n ns,
    )
