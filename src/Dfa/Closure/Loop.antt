-- ===== src/Dfa/Closure/Loop.antt =====
-- The loops of `epsclosure`: both keep the invariant and end, and the second closes the stack.
use mathlib.Core.List.{append-nil, append_assoc}
use flex_cmake_old.Prelude.{
  ℕ, zero, suc, ◌+◌, ◌≤◌, ◌<◌, ◌≡◌, ◌⊎◌, inl, inr, refl, ap, ◌∙◌, sym, subst, arith, ◌==◌,
  if◌then◌else◌, Bool, Bool-cases, true, false, List, [], ◌∷◌, ◌++◌, All, length, get_elem?, some,
  none, get_elem?-append_front, get_elem?-ge, lt_of_get_elem?, get_elem?-some,
}
use flex_cmake_old.Prelude.Int.{pos}
use flex_cmake_old.Common.{Result, ok, ◌>>=◌}
use flex_cmake_old.CharacterTable.{contains}
use flex_cmake_old.Nfa.State.{Nfa, is_epsilon}
use flex_cmake_old.Dfa.Closure.{
  minus_marker, plus_marker, Closure, first_loop, stack_state, follow_both, close_state, close_loop,
}
use flex_cmake_old.Dfa.Closure.Spec.{
  node_at, at-node_at, Edge, Reach, IsBounded, contains-append, contains-get_elem?,
}
use flex_cmake_old.Dfa.Closure.Push.{
  plus-minus, original, Inv, Visits, stack_state-Visits, first_state-Visits,
}

abbrev pub Grows : Closure → Closure → Type 0
Grows c c' = (rest : List ℕ) × (c'.stk ≡ c.stk ++ rest)

pub Grows-refl : (c : Closure) → Grows c c
Grows-refl c = ([], sym (append-nil c.stk))

pub Grows-trans : (a b c : Closure) → Grows a b → Grows b c → Grows a c
Grows-trans a b c (xs, e) (ys, f) = (xs ++ ys, f ∙ ap (λ s. s ++ ys) e ∙ append_assoc a.stk xs ys)

pub Grows-contains :
    (c c' : Closure) (v : ℕ) → Grows c c' → contains v c.stk ≡ true → contains v c'.stk ≡ true
Grows-contains c c' v (rest, e) h = rw (e, contains-append v c.stk rest, h)

Grows-get_elem? :
    (c c' : Closure) (i u : ℕ)
    → Grows c c'
    → get_elem? c.stk i ≡ some u
    → get_elem? c'.stk i ≡ some u
Grows-get_elem? c c' i u (rest, e) h = rw e (get_elem?-append_front c.stk rest i h)

pub bind-ok : {A B : Type 0} (m : Result A) (f : A → Result B) {a : A} → m ≡ ok a → (m >>= f) ≡ f a
bind-ok m f e = rw (◌>>=◌, e)

differ : (b : Bool) → b ≡ true → b ≡ false → ⊥
differ b e f = cc

lookup_cases :
    (xs : List ℕ) (i : ℕ)
    → ((get_elem? xs i ≡ none) × (length xs ≤ i)) ⊎ ((u : ℕ) × (get_elem? xs i ≡ some u))
lookup_cases [] i = inl (refl, omega arith)
lookup_cases (x ∷ xs) zero = inr (x, refl)
lookup_cases (x ∷ xs) (suc i) = elim (lookup_cases xs i) [
  | inl (e, h) ↦ inl (e, omega arith)
  | inr found ↦ inr found
]

some_injective : (x y : ℕ) → some x ≡ some y → x ≡ y
some_injective x y e = cc

positive_zero : (w t : ℕ) → 0 < w → w ≡ t → (t == 0) ≡ true → ⊥
positive_zero w t p q z = ground arith

positive_test : (t : ℕ) → (t == 0) ≡ false → 0 < t
positive_test t h = ground arith

module _ (nfas : List Nfa) (init : List ℕ) (bounded : IsBounded nfas) where
  pub first_loop-Inv :
      (states : List ℕ) (c : Closure)
      → Inv nfas init c
      → All (λ v. (v < length nfas) × (contains v init ≡ true)) states
      → (c' : Closure) × (first_loop nfas states c ≡ ok c')
        × Inv nfas init c'
        × Grows c c'
        × All (λ v. contains v c'.stk ≡ true) states
  unfolding first_loop Visits
  first_loop-Inv [] c inv h = (c, refl, inv, Grows-refl c, tt)
  first_loop-Inv (v ∷ states) c inv ((small, member), h) =
      let (c1, e1, inv1, g1, here) = first_state-Visits nfas init bounded c inv v small member in
      let (c2, e2, inv2, g2, there) = first_loop-Inv states c1 inv1 h in
      (
        c2,
        bind-ok _ _ e1 ∙ e2,
        inv2,
        Grows-trans c c1 c2 g1 g2,
        (Grows-contains c1 c2 v g2 here, there),
      )

  follow_both-pos :
      (m t2 : ℕ) (c : Closure)
      → 0 < m
      → follow_both nfas (pos m) t2 c
        ≡ (stack_state nfas m c >>= λ c'. if t2 == 0 then ok c' else stack_state nfas t2 c')
  unfolding follow_both
  follow_both-pos zero t2 c h = absurd (omega arith)
  follow_both-pos (suc m) t2 c h = refl

  -- The two transitions of an epsilon state are followed.
  follow_both-Inv :
      (c : Closure) (u : ℕ)
      → Inv nfas init c
      → Reach nfas init u
      → is_epsilon (node_at nfas u).transchar ≡ true
      → (c' : Closure) × (follow_both nfas (original nfas u) (node_at nfas u).trans2 c ≡ ok c')
        × Inv nfas init c'
        × Grows c c'
        × ((w : ℕ) → Edge nfas u w → contains w c'.stk ≡ true)
  unfolding follow_both Visits
  follow_both-Inv c u inv reach eps = elim (Bool-cases ((node_at nfas u).trans1 == 0)) [
    | inl none1 ↦
        let z : (node_at nfas u).trans1 ≡ 0 = ground arith in
        (c, rw z, inv, Grows-refl c, λ w e. absurd (omega arith))
    | inr some1 ↦
        let positive : 0 < (node_at nfas u).trans1 = ground arith in
        let first = Reach.step reach (eps, positive, positive, inl refl) in
        let (c1, e1, inv1, g1, here1) =
          stack_state-Visits nfas init bounded c inv (node_at nfas u).trans1 (bounded.first u)
            first in
        elim (Bool-cases ((node_at nfas u).trans2 == 0)) [
          | inl none2 ↦ (
            c1,
            follow_both-pos _ _ c positive ∙ bind-ok _ _ e1 ∙ rw none2 refl,
            inv1,
            g1,
            λ w (_, _, p, e). elim e [
              | inl q ↦ rw q here1
              | inr q ↦ absurd (positive_zero w _ p q none2)
            ],
          )
          | inr some2 ↦
              let second = Reach.step reach (eps, positive, (positive_test _ some2), inr refl) in
              let (c2, e2, inv2, g2, here2) =
                stack_state-Visits nfas init bounded c1 inv1 (node_at nfas u).trans2
                  (bounded.second u) second in
              (
                c2,
                follow_both-pos _ _ c positive ∙ bind-ok _ _ e1 ∙ rw some2 e2,
                inv2,
                Grows-trans c c1 c2 g1 g2,
                λ w (_, _, p, e). elim e [
                  | inl q ↦ rw q (Grows-contains c1 c2 _ g2 here1)
                  | inr q ↦ rw q here2
                ],
              )
        ]
  ]

  close_state-Inv :
      (c : Closure) (u : ℕ)
      → Inv nfas init c
      → contains u c.stk ≡ true
      → (c' : Closure) × (close_state nfas u c ≡ ok c')
        × Inv nfas init c'
        × Grows c c'
        × ((w : ℕ) → Edge nfas u w → contains w c'.stk ≡ true)
  unfolding close_state
  close_state-Inv c u inv member =
      let (reach, small) = inv.sound u member in
      let shut : plus_marker (c.trans1 u) ≡ original nfas u =
        ap plus_marker {y = minus_marker (original nfas u)} (inv.values u ∙ rw member refl)
        ∙ plus-minus _ (omega (arith, bounded.first u, bounded.size)) in
      elim (Bool-cases (is_epsilon (node_at nfas u).transchar)) [
        | inl eps ↦
            let (c', e, inv', g, edges) = follow_both-Inv c u inv reach eps in
            (c', bind-ok _ _ (at-node_at nfas u small) ∙ rw (eps, shut) e, inv', g, edges)
        | inr no_eps ↦ (
          c,
          bind-ok _ _ (at-node_at nfas u small) ∙ rw no_eps refl,
          inv,
          Grows-refl c,
          λ w (eps, _, _, _). absurd (differ _ eps no_eps),
        )
      ]

  -- The edges of the states before `stkpos` lead to states on the stack.
  abbrev pub Closed : Closure → ℕ → Type 0
  Closed c stkpos =
      (i u w : ℕ)
      → i < stkpos
      → get_elem? c.stk i ≡ some u
      → Edge nfas u w
      → contains w c.stk ≡ true

  advance :
      (c c1 : Closure) (stkpos u : ℕ)
      → get_elem? c.stk stkpos ≡ some u
      → Grows c c1
      → Closed c stkpos
      → ((w : ℕ) → Edge nfas u w → contains w c1.stk ≡ true)
      → Closed c1 (stkpos + 1)
  advance c c1 stkpos u here g closed edges i v w h e edge = elim (Bool-cases (i == stkpos)) [
    | inl same ↦
        let at_pos : i ≡ stkpos = ground arith in
        let there = Grows-get_elem? c c1 stkpos u g here in
        let v_is_u = some_injective v u (sym e ∙ ap (get_elem? c1.stk) at_pos ∙ there) in
        edges w (subst (λ x. Edge nfas x w) v_is_u edge)
    | inr other ↦
        let before : i < stkpos = ground arith in
        let (x, old) = get_elem?-some c.stk i (omega (arith, lt_of_get_elem? c.stk stkpos here)) in
        let x_is_v = some_injective x v (sym (Grows-get_elem? c c1 i x g old) ∙ e) in
        Grows-contains c c1 w g
          (closed i x w before old (subst (λ y. Edge nfas y w) (sym x_is_v) edge))
  ]

  -- With a round for each state that can be stacked the loop ends, and the whole stack is closed.
  pub close_loop-Inv :
      (fuel stkpos : ℕ) (c : Closure)
      → Inv nfas init c
      → Closed c stkpos
      → length nfas ≤ fuel + stkpos
      → (c' : Closure) × (close_loop nfas fuel stkpos c ≡ ok c')
        × Inv nfas init c'
        × Grows c c'
        × Closed c' (length c'.stk)
  unfolding close_loop
  close_loop-Inv zero stkpos c inv closed enough =
      let past : get_elem? c.stk stkpos ≡ none =
        get_elem?-ge c.stk stkpos (omega (arith, inv.slots)) in
      (
        c,
        rw (close_loop, past),
        inv,
        Grows-refl c,
        λ i u w h e edge. closed i u w (omega (arith, inv.slots)) e edge,
      )
  close_loop-Inv (suc fuel) stkpos c inv closed enough = elim (lookup_cases c.stk stkpos) [
    | inl (past, long) ↦ (
      c,
      rw (close_loop, past),
      inv,
      Grows-refl c,
      λ i u w h e edge. closed i u w (omega arith) e edge,
    )
    | inr (u, here) ↦
        let (c1, e1, inv1, g1, edges) =
          close_state-Inv c u inv (contains-get_elem? c.stk stkpos u here) in
        let (c2, e2, inv2, g2, closed2) =
          close_loop-Inv fuel (stkpos + 1) c1 inv1 (advance c c1 stkpos u here g1 closed edges)
            (omega arith) in
        (c2, rw (close_loop, here, e1) e2, inv2, Grows-trans c c1 c2 g1 g2, closed2)
  ]
