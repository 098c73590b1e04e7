-- ===== src/Nfa/Thompson.antt =====
-- The constructions of src/nfa.cpp on graphs: what language each gives.
use mathlib.Core.List.{append-nil, append_assoc}
use mathlib.Core.Path.{subst₂}
use flex_cmake_old.Prelude.{
  ℕ, ◌≡◌, ◌≢◌, ◌↔◌, ◌⊎◌, ◌∙◌, refl, sym, ap, inl, inr, none, [], ◌++◌, subst,
}
use flex_cmake_old.Nfa.Words.{Word, Language, Label, letters, Cat, Alt, Opt, Plus, once, more}
use flex_cmake_old.Nfa.Graph.{
  Graph, Region, Run, here, step, Includes, IsClosed, Keeps, Leaves, Lang, IsDead, Run-Includes,
  Run-append, Run-Keeps, Run-Leaves, Lang-none, Run-of_Lang-none, Run-IsDead,
}

-- Concatenation: one edge leads from the exit of A to the entry of B.
module _ {G G' : Graph} {A B : Region} {a fa b fb : ℕ} {ea : Label} (eb : Label)
    (whole : Includes G' G) (closed_a : IsClosed G A) (closed_b : IsClosed G B)
    (apart : (x : ℕ) → A x → ¬ B x) (in_a : A a) (in_b : B b) (exit_b : B fb)
    (leaves : Leaves G' G A fa ea b) (keeps : Keeps G' G B) (edge : G' fa ea b) where
  pub link_language : (w : Word) → Lang G' a fb eb w ↔ Cat (Lang G a fa ea) (Lang G b fb eb) w
  link_language w = (
    λ (u, r, e).
        let (x, y, run, rest, split) =
          Run-Leaves fa ea b closed_a leaves in_a (λ h. apart fb h exit_b) r in
        let (old, _) = Run-Keeps closed_b keeps in_b rest in
        (
          x ++ letters ea,
          y ++ letters eb,
          (x, run, refl),
          (y, old, refl),
          e ∙ ap (λ t. t ++ letters eb) split ∙ simp append_assoc,
        ),
    λ (u, v, (x, rx, ex), (y, ry, ey), e). (
      x ++ (letters ea ++ y),
      Run-append (Run-Includes whole rx) (step edge (Run-Includes whole ry) refl),
      simp (e, ex, ey, append_assoc),
    ),
  )

-- Positive closure at a free epsilon exit: an edge leads from it back to the entry.
module _ {G G' : Graph} {P : Region} {m f : ℕ} (whole : Includes G' G) (closed : IsClosed G P)
    (entry : P m) (exit : P f) (leaves : Leaves G' G P f none m) (edge : G' f none m) where
  -- The rest of a run once the exit is reached.
  abbrev Repeats : Word → Type 0
  Repeats v = (v ≡ []) ⊎ Plus (Lang G m f none) v

  again : {u v w : Word} → Lang G m f none u → Repeats v → w ≡ u ++ v → Plus (Lang G m f none) w
  again {u} a (inl nil) s =
      once (subst (Lang G m f none) (sym (s ∙ ap (λ t. u ++ t) nil ∙ append-nil u)) a)
  again a (inr b) s = more a b s

  loop_split :
      {p q : ℕ} {w : Word}
      → Run G' p w q
      → P p
      → q ≡ f
      → (u : Word) × (v : Word) × Run G p u f × Repeats v × (w ≡ u ++ v)
  loop_split here h e = ([], [], subst (λ x. Run G x [] f) (sym e) here, inl refl, refl)
  loop_split (step {p} {q = p'} {l} {v = w'} g r same) h e = elim (leaves _ _ _ h g) [
    | inl old ↦
        let (u, v, run, rest, split) = loop_split r (closed _ _ _ h old) e in
        (letters l ++ u, v, step old run refl, rest, simp (same, split, append_assoc))
    | inr (at_f, no_label, to_m) ↦
        let (u, v, run, rest, split) = loop_split r (subst P (sym to_m) entry) e in
        let first : Lang G m f none u = Lang-none (subst (λ x. Run G x u f) to_m run) in
        (
          [],
          w',
          subst (λ x. Run G x [] f) (sym at_f) here,
          inr (again first rest split),
          same ∙ ap (λ x. letters x ++ w') no_label,
        )
  ]

  loop-Run : {w : Word} → Plus (Lang G m f none) w → Run G' m w f
  loop-Run (once a) = Run-Includes whole (Run-of_Lang-none a)
  loop-Run {w} (more {u} a b e) =
      subst (λ x. Run G' m x f) (sym e)
        (Run-append (Run-Includes whole (Run-of_Lang-none a)) (step edge (loop-Run b) refl))

  pub loop_language : (w : Word) → Lang G' m f none w ↔ Plus (Lang G m f none) w
  loop_language w = (
    λ a.
        let (u, v, run, rest, split) = loop_split (Run-of_Lang-none a) entry refl in
        again (Lang-none run) rest split,
    λ b. Lang-none (loop-Run b),
  )

-- Positive closure through a new exit `e`, which leads back to the entry.
module _ {G G' : Graph} {P : Region} {m f e : ℕ} (l : Label) (whole : Includes G' G)
    (closed : IsClosed G P) (entry : P m) (fresh : ¬ P e) (leaves : Leaves G' G P f l e)
    (edge : G' f l e) (back : G' e none m)
    (only : (k : Label) (q : ℕ) → G' e k q → (k ≡ none) × (q ≡ m)) where
  abbrev Rest : Word → Type 0
  Rest v = (v ≡ []) ⊎ Plus (Lang G m f l) v

  turn : {u v w : Word} → Lang G m f l u → Rest v → w ≡ u ++ v → Plus (Lang G m f l) w
  turn {u} a (inl nil) s =
      once (subst (Lang G m f l) (sym (s ∙ ap (λ t. u ++ t) nil ∙ append-nil u)) a)
  turn a (inr b) s = more a b s

  -- Inside the region the run is still on its way to the exit, at `e` it may start again.
  back_split :
      {p q : ℕ} {w : Word}
      → Run G' p w q
      → q ≡ e
      → (P p → (u : Word) × (v : Word) × Run G p u f × Rest v × (w ≡ u ++ (letters l ++ v)))
        × (p ≡ e → Rest w)
  back_split here d = (λ h. absurd (fresh (subst P d h)), λ _. inl refl)
  back_split (step {p} {q = p'} {l = k} {v = w'} {w} g r same) d =
      let (inside, outside) = back_split r d in
      (
        λ h. elim (leaves _ _ _ h g) [
          | inl old ↦
              let (u, v, run, rest, split) = inside (closed _ _ _ h old) in
              (
                letters k ++ u,
                v,
                step old run refl,
                rest,
                same ∙ ap (λ x. letters k ++ x) split ∙ sym (append_assoc (letters k) u _),
              )
          | inr (at_f, lab, to_e) ↦ (
            [],
            w',
            subst (λ x. Run G x [] f) (sym at_f) here,
            outside to_e,
            same ∙ ap (λ x. letters x ++ w') lab,
          )
        ],
        λ at.
            let (none_label, to_m) = only k p' (subst (λ x. G' x k p') at g) in
            let (u, v, run, rest, split) = inside (subst P (sym to_m) entry) in
            inr (
              turn (u, subst (λ x. Run G x u f) to_m run, refl) rest
                (same
                  ∙ ap (λ x. letters x ++ w') none_label
                  ∙ split
                  ∙ sym (append_assoc u (letters l) v))),
      )

  round_trip : {u : Word} → Lang G m f l u → Run G' m u e
  round_trip (x, r, s) =
      subst (λ t. Run G' m t e) (sym s)
        (Run-append (Run-Includes whole r) (step edge here (sym (append-nil (letters l)))))

  back-Run : {w : Word} → Plus (Lang G m f l) w → Run G' m w e
  back-Run (once a) = round_trip a
  back-Run (more a b s) =
      subst (λ t. Run G' m t e) (sym s) (Run-append (round_trip a) (step back (back-Run b) refl))

  pub back_language : (w : Word) → Lang G' m e none w ↔ Plus (Lang G m f l) w
  back_language w = (
    λ a.
        let (u, v, run, rest, split) = (back_split (Run-of_Lang-none a) refl).0 entry in
        turn (u, run, refl) rest (split ∙ sym (append_assoc u (letters l) v)),
    λ b. Lang-none (back-Run b),
  )

-- A new entry that leads to the old one and past it, to an exit without transitions.
module _ {G G' : Graph} {P : Region} {m f s : ℕ} (whole : Includes G' G) (closed : IsClosed G P)
    (entry : P m) (exit : P f) (keeps : Keeps G' G P) (fresh : ¬ P s) (dead : IsDead G f)
    (into : G' s none m) (past : G' s none f)
    (only : (k : Label) (q : ℕ) → G' s k q → (k ≡ none) × ((q ≡ m) ⊎ (q ≡ f))) where
  skip_split : {w : Word} {p q : ℕ} → Run G' p w q → p ≡ s → q ≡ f → Opt (Lang G m f none) w
  skip_split here e d = absurd (fresh (subst P (sym d ∙ e) exit))
  skip_split (step {q = p'} {l = k} {v = w'} g r same) e d =
      let (lab, goes) = only k p' (subst (λ x. G' x k p') e g) in
      let short = same ∙ ap (λ x. letters x ++ w') lab in
      elim goes [
        | inl to_m ↦
            let run = (Run-Keeps closed keeps (subst P (sym to_m) entry) r).0 in
            inr (
              subst (Lang G m f none) (sym short)
                (Lang-none (subst₂ (λ x y. Run G x w' y) to_m d run)))
        | inr to_f ↦
            let run = (Run-Keeps closed keeps (subst P (sym to_f) exit) r).0 in
            inl (short ∙ Run-IsDead (subst (IsDead G) (sym to_f) dead) run)
      ]

  pub skip_language : (w : Word) → Lang G' s f none w ↔ Opt (Lang G m f none) w
  skip_language w = (
    λ a. skip_split (Run-of_Lang-none a) refl refl,
    λ o. elim o [
      | inl nil ↦ Lang-none (step past here nil)
      | inr a ↦ Lang-none (step into (Run-Includes whole (Run-of_Lang-none a)) refl)
    ],
  )

-- One side of an alternative that ends at its own exit.
pub join_here :
    {G G' : Graph} {P : Region} {m f : ℕ}
    → Includes G' G
    → IsClosed G P
    → P m
    → Keeps G' G P
    → (w : Word) → Run G' m w f ↔ Lang G m f none w
join_here whole closed entry keeps w = (
  λ r. Lang-none (Run-Keeps closed keeps entry r).0,
  λ a. Run-Includes whole (Run-of_Lang-none a),
)

-- One side that goes on from its exit to an end outside it, without transitions.
pub join_there :
    {G G' : Graph} {P : Region} {m f t : ℕ} (l : Label)
    → Includes G' G
    → IsClosed G P
    → P m
    → Leaves G' G P f l t
    → ¬ P t
    → IsDead G' t
    → G' f l t
    → (w : Word) → Run G' m w t ↔ Lang G m f l w
join_there {G} {G'} {m} {f} {t} l whole closed entry leaves out dead edge w = (
  λ r.
      let (u, v, run, rest, split) = Run-Leaves f l t closed leaves entry out r in
      (
        u,
        run,
        split
            ∙ ap (λ x. u ++ (letters l ++ x)) (Run-IsDead dead rest)
            ∙ ap (λ x. u ++ x) (append-nil (letters l)),
      ),
  λ (u, r, e).
      subst (λ x. Run G' m x t) (sym e)
        (Run-append (Run-Includes whole r) (step edge here (sym (append-nil (letters l))))),
)

-- A new entry that leads to both sides, which end at `t`.
module _ {G' : Graph} {a b s t : ℕ} {L K : Language} (into_a : G' s none a) (into_b : G' s none b)
    (only : (k : Label) (q : ℕ) → G' s k q → (k ≡ none) × ((q ≡ a) ⊎ (q ≡ b))) (differ : s ≢ t)
    (first : (w : Word) → Run G' a w t ↔ L w) (second : (w : Word) → Run G' b w t ↔ K w) where
  alt_split : {w : Word} {p q : ℕ} → Run G' p w q → p ≡ s → q ≡ t → Run G' a w t ⊎ Run G' b w t
  alt_split here e d = absurd (differ (sym e ∙ d))
  alt_split (step {q = p'} {l = k} {v = w'} {w} g r same) e d =
      let (lab, goes) = only k p' (subst (λ x. G' x k p') e g) in
      let short = same ∙ ap (λ x. letters x ++ w') lab in
      elim goes [
        | inl to_a ↦
            inl (subst (λ x. Run G' a x t) (sym short) (subst₂ (λ x y. Run G' x w' y) to_a d r))
        | inr to_b ↦
            inr (subst (λ x. Run G' b x t) (sym short) (subst₂ (λ x y. Run G' x w' y) to_b d r))
      ]

  pub alt_language : (w : Word) → Lang G' s t none w ↔ Alt L K w
  alt_language w = (
    λ r. elim (alt_split (Run-of_Lang-none r) refl refl) [
      | inl x ↦ inl ((first w).0 x)
      | inr y ↦ inr ((second w).0 y)
    ],
    λ o. elim o [
      | inl x ↦ Lang-none (step into_a ((first w).1 x) refl)
      | inr y ↦ Lang-none (step into_b ((second w).1 y) refl)
    ],
  )
