-- ===== src/Nfa/Graph.antt =====
-- Labelled graphs, runs in them, and what a fragment with one exit contributes to a run.
use mathlib.Core.List.{append-nil, append_assoc}
use flex_cmake_old.Prelude.{ℕ, ◌≡◌, ◌⊎◌, ◌∙◌, refl, sym, ap, inl, inr, none, [], ◌++◌, subst}
use flex_cmake_old.Nfa.Words.{Word, Language, Label, letters}

abbrev pub Graph : Type 1
Graph = ℕ → Label → ℕ → Type 0

abbrev pub Region : Type 1
Region = ℕ → Type 0

pub data Run (G : Graph) : ℕ → Word → ℕ → Type 0 where
  here : {p : ℕ} → Run G p [] p
  step :
      {p q r : ℕ} {l : Label} {v w : Word}
      → G p l q
      → Run G q v r
      → w ≡ letters l ++ v
      → Run G p w r

abbrev pub Includes : Graph → Graph → Type 0
Includes G' G = (p : ℕ) (l : Label) (q : ℕ) → G p l q → G' p l q

abbrev pub IsClosed : Graph → Region → Type 0
IsClosed G P = (p : ℕ) (l : Label) (q : ℕ) → P p → G p l q → P q

-- From `P` the edges of `G'` are those of `G`.
abbrev pub Keeps : Graph → Graph → Region → Type 0
Keeps G' G P = (p : ℕ) (l : Label) (q : ℕ) → P p → G' p l q → G p l q

-- From `P` the edges of `G'` are those of `G` and one more, from `f` to `t`.
abbrev pub Leaves : Graph → Graph → Region → ℕ → Label → ℕ → Type 0
Leaves G' G P f e t =
    (p : ℕ) (l : Label) (q : ℕ) → P p → G' p l q → G p l q ⊎ ((p ≡ f) × (l ≡ e) × (q ≡ t))

pub Run-Includes : {G G' : Graph} {p q : ℕ} {w : Word} → Includes G' G → Run G p w q → Run G' p w q
Run-Includes i here = here
Run-Includes i (step g r e) = step (i _ _ _ g) (Run-Includes i r) e

pub Run-append :
    {G : Graph} {p q r : ℕ} {u v : Word} → Run G p u q → Run G q v r → Run G p (u ++ v) r
Run-append here s = s
Run-append {v} (step {l} {v = u'} g r e) s =
    step g (Run-append r s) (ap (λ t. t ++ v) e ∙ append_assoc (letters l) u' v)

-- A run that starts in a closed region which keeps its edges is a run of the old graph, and stays.
pub Run-Keeps :
    {G G' : Graph} {P : Region} {p q : ℕ} {w : Word}
    → IsClosed G P
    → Keeps G' G P
    → P p
    → Run G' p w q
    → Run G p w q × P q
Run-Keeps c k m here = (here, m)
Run-Keeps c k m (step g r e) =
    let old = k _ _ _ m g in
    let (rest, stays) = Run-Keeps c k (c _ _ _ m old) r in (step old rest e, stays)

-- The words that lead from the entry `m` to the exit `f` and out of it.
abbrev pub Lang : Graph → ℕ → ℕ → Label → Language
Lang G m f e w = (u : Word) × Run G m u f × (w ≡ u ++ letters e)

-- A run from a closed region to a state outside it leaves by the exit.
pub Run-Leaves :
    {G G' : Graph} {P : Region} (f : ℕ) (e : Label) (t : ℕ) {p q : ℕ} {w : Word}
    → IsClosed G P
    → Leaves G' G P f e t
    → P p
    → ¬ P q
    → Run G' p w q
    → (u v : Word) × Run G p u f × Run G' t v q × (w ≡ u ++ (letters e ++ v))
Run-Leaves f e t c k m out here = absurd (out m)
Run-Leaves {G} {G'} f e t {q} c k m out (step {p} {q = p'} {l} {v = w'} g r same) =
    elim (k _ _ _ m g) [
      | inl old ↦
          let (u, v, run, rest, split) = Run-Leaves f e t c k (c _ _ _ m old) out r in
          (
            letters l ++ u,
            v,
            step old run refl,
            rest,
            same ∙ ap (λ x. letters l ++ x) split ∙ sym (append_assoc (letters l) u _),
          )
      | inr (a, b, d) ↦ (
        [],
        w',
        subst (λ x. Run G x [] f) (sym a) here,
        subst (λ x. Run G' x w' q) d r,
        same ∙ ap (λ x. letters x ++ w') b,
      )
    ]

-- The exit label of an epsilon state adds nothing.
pub Lang-none : {G : Graph} {m f : ℕ} {w : Word} → Run G m w f → Lang G m f none w
Lang-none {w} r = (w, r, sym (append-nil w))

pub Run-of_Lang-none : {G : Graph} {m f : ℕ} {w : Word} → Lang G m f none w → Run G m w f
Run-of_Lang-none {G} {m} {f} (u, r, e) = subst (λ x. Run G m x f) (sym (e ∙ append-nil u)) r

abbrev pub IsDead : Graph → ℕ → Type 0
IsDead G t = (l : Label) (q : ℕ) → ¬ G t l q

pub Run-IsDead : {G : Graph} {t q : ℕ} {w : Word} → IsDead G t → Run G t w q → w ≡ []
Run-IsDead d here = refl
Run-IsDead d (step g r e) = absurd (d _ _ g)
