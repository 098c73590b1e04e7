-- ===== src/Nfa/View.antt =====
-- The graph that the vector `nfas` stands for, and how the writes of src/nfa.cpp change it.
use flex_cmake_old.Prelude.{
  ℕ, ◌≡◌, ◌≢◌, ◌⊎◌, ◌∙◌, refl, sym, ap, subst, ◌==◌, if◌then◌else◌, Bool, true, ◌&&◌, ◌||◌, none,
  some, List, [], ◌∷◌, ◌++◌, length, get_elem?, set, arith, inl, inr, Bool-cases, get_elem?-set,
  get_elem?-snoc, ==_refl, ==_ne, lt_of_get_elem?,
}
use flex_cmake_old.Nfa.State.{Nfa, is_epsilon}
use flex_cmake_old.Nfa.Words.{Label}
use flex_cmake_old.Nfa.Graph.{Graph, Includes}

-- An epsilon state consumes nothing, any other its symbol.
unfoldable pub label_of : Nfa → Label
label_of n = if is_epsilon n.transchar then none else some n.transchar

pub data Out (n : Nfa) : Label → ℕ → Type 0 where
  first : {l : Label} {q : ℕ} → l ≡ label_of n → q ≡ n.trans1 → q ≢ 0 → Out n l q
  second :
      {l : Label} {q : ℕ}
      → l ≡ label_of n
      → is_epsilon n.transchar ≡ true
      → q ≡ n.trans2
      → q ≢ 0
      → Out n l q

abbrev pub graph : List Nfa → Graph
graph nfas p l q = (n : Nfa) × (get_elem? nfas p ≡ some n) × Out n l q

-- A free slot, in which `mkxtion` puts a transition.
unfoldable pub has_room : Nfa → Bool
has_room n = (n.trans1 == 0) || (is_epsilon n.transchar && (n.trans2 == 0))

unfoldable pub with_transition : Nfa → ℕ → Nfa
with_transition n to = if n.trans1 == 0 then record n { trans1 = to } else record n { trans2 = to }

-- The two nodes have the same transitions.
pub record SameOut (n n' : Nfa) : Type 0 where
  pub same_char : n'.transchar ≡ n.transchar
  pub same_first : n'.trans1 ≡ n.trans1
  pub same_second : n'.trans2 ≡ n.trans2

pub Out-SameOut : {n n' : Nfa} {l : Label} {q : ℕ} → SameOut n n' → Out n' l q → Out n l q
unfolding label_of
Out-SameOut s (first a b c) = first (a ∙ rw s.same_char) (b ∙ s.same_first) c
Out-SameOut s (second a e b c) =
    second (a ∙ rw s.same_char) (sym (ap is_epsilon s.same_char) ∙ e) (b ∙ s.same_second) c

pub SameOut-sym : {n n' : Nfa} → SameOut n n' → SameOut n' n
SameOut-sym s = record {
  same_char = sym s.same_char;
  same_first = sym s.same_first;
  same_second = sym s.same_second;
}

-- A new transition is the only one that is added, and none is lost.
module _ (n : Nfa) (to : ℕ) (room : has_room n ≡ true) where
  pub Out-with_transition :
      (l : Label) (q : ℕ)
      → Out (with_transition n to) l q
      → Out n l q ⊎ ((l ≡ label_of n) × (q ≡ to))
  unfolding with_transition label_of
  Out-with_transition l q o = elim (Bool-cases (n.trans1 == 0)) [
    | inl free ↦ in_first (subst (λ x. Out x l q) (rw free) o)
    | inr used ↦ in_second (subst (λ x. Out x l q) (rw used) o)
  ]
    where
      in_first : Out (record n { trans1 = to }) l q → Out n l q ⊎ ((l ≡ label_of n) × (q ≡ to))
      in_first (first a b c) = inr (a, b)
      in_first (second a e b c) = inl (second a e b c)

      in_second : Out (record n { trans2 = to }) l q → Out n l q ⊎ ((l ≡ label_of n) × (q ≡ to))
      in_second (first a b c) = inl (first a b c)
      in_second (second a e b c) = inr (a, b)

  pub with_transition-Out : (l : Label) (q : ℕ) → Out n l q → Out (with_transition n to) l q
  unfolding with_transition label_of has_room
  with_transition-Out l q (first a b c) = rw (==_ne n.trans1 0 (λ e. c (b ∙ e))) (first a b c)
  with_transition-Out l q (second a e b c) = elim (Bool-cases (n.trans1 == 0)) [
    | inl free ↦ rw free (second a e b c)
    | inr used ↦ absurd (c (b ∙ ground arith))
  ]

  pub with_transition-new : to ≢ 0 → Out (with_transition n to) (label_of n) to
  unfolding with_transition label_of has_room
  with_transition-new h = elim (Bool-cases (n.trans1 == 0)) [
    | inl free ↦ rw free (first refl refl h)
    | inr used ↦ rw used (second refl (ground arith) refl h)
  ]

pub some_eq : {a b : Nfa} → some a ≡ some b → a ≡ b
some_eq e = cc

-- The writes of the vector.
module _ (nfas : List Nfa) (i : ℕ) (n n' : Nfa) (there : get_elem? nfas i ≡ some n) where
  pub read_set :
      (p : ℕ) → get_elem? (set nfas i n') p ≡ (if p == i then some n' else get_elem? nfas p)
  read_set p = get_elem?-set nfas i p n' (lt_of_get_elem? nfas i there)

  -- A node at `p` afterwards is the written one, or an old one.
  node_set :
      (p : ℕ) (k : Nfa)
      → get_elem? (set nfas i n') p ≡ some k
      → ((p ≡ i) × (k ≡ n')) ⊎ ((p ≢ i) × (get_elem? nfas p ≡ some k))
  node_set p k h = elim (Bool-cases (p == i)) [
    | inl at ↦ inl (ground arith, some_eq (sym (rw (read_set p, at) at h)))
    | inr off ↦ inr (ground arith, rw (read_set p, off) at h)
  ]

  pub set-there : get_elem? (set nfas i n') i ≡ some n'
  set-there = rw (read_set i, ==_refl i)

  pub set-other : (p : ℕ) → p ≢ i → get_elem? (set nfas i n') p ≡ get_elem? nfas p
  set-other p ne = rw (read_set p, ==_ne p i ne)

  -- A write that keeps the transitions keeps the graph.
  pub graph-set_back : SameOut n n' → Includes (graph nfas) (graph (set nfas i n'))
  graph-set_back s p l q (k, e, o) = elim (node_set p k e) [
    | inl (at, is) ↦ (n, rw at there, Out-SameOut s (subst (λ x. Out x l q) is o))
    | inr (off, old) ↦ (k, old, o)
  ]

  pub graph-set_forth : SameOut n n' → Includes (graph (set nfas i n')) (graph nfas)
  graph-set_forth s p l q (k, e, o) = elim (Bool-cases (p == i)) [
    | inl at ↦
        let same : p ≡ i = ground arith in
        let k_n : k ≡ n = some_eq (sym e ∙ ap (get_elem? nfas) same ∙ there) in
        (n', rw same set-there, Out-SameOut (SameOut-sym s) (subst (λ x. Out x l q) k_n o))
    | inr off ↦ (k, rw (set-other p (ground arith)) e, o)
  ]

module _ (nfas : List Nfa) (f : ℕ) (n : Nfa) (to : ℕ) (there : get_elem? nfas f ≡ some n)
    (room : has_room n ≡ true) where
  -- A new transition from `f`: all the edges afterwards.
  pub graph-add_back :
      (p : ℕ) (l : Label) (q : ℕ)
      → graph (set nfas f (with_transition n to)) p l q
      → graph nfas p l q ⊎ ((p ≡ f) × (l ≡ label_of n) × (q ≡ to))
  graph-add_back p l q (k, e, o) = elim (node_set nfas f n (with_transition n to) there p k e) [
    | inl (at, is) ↦ elim (Out-with_transition n to room l q (subst (λ x. Out x l q) is o)) [
      | inl old ↦ inl (n, rw at there, old)
      | inr (a, b) ↦ inr (at, a, b)
    ]
    | inr (off, old) ↦ inl (k, old, o)
  ]

  pub graph-add_forth : Includes (graph (set nfas f (with_transition n to))) (graph nfas)
  graph-add_forth p l q (k, e, o) = elim (Bool-cases (p == f)) [
    | inl at ↦
        let same : p ≡ f = ground arith in
        let k_n : k ≡ n = some_eq (sym e ∙ ap (get_elem? nfas) same ∙ there) in
        (
          with_transition n to,
          rw same (set-there nfas f n (with_transition n to) there),
          with_transition-Out n to room l q (subst (λ x. Out x l q) k_n o),
        )
    | inr off ↦ (k, rw (set-other nfas f n (with_transition n to) there p (ground arith)) e, o)
  ]

  pub graph-add_new : to ≢ 0 → graph (set nfas f (with_transition n to)) f (label_of n) to
  graph-add_new h = (
    with_transition n to,
    set-there nfas f n (with_transition n to) there,
    with_transition-new n to room h,
  )

module _ (nfas : List Nfa) (n : Nfa) (free : (l : Label) (q : ℕ) → ¬ Out n l q) where
  -- A new state without transitions adds no edge.
  pub graph-snoc_back : Includes (graph nfas) (graph (nfas ++ (n ∷ [])))
  graph-snoc_back p l q (k, e, o) = elim (Bool-cases (p == length nfas)) [
    | inl at ↦ absurd (
        free l q (subst (λ x. Out x l q) (some_eq (sym (rw (get_elem?-snoc nfas p n, at) at e))) o))
    | inr off ↦ (k, rw (get_elem?-snoc nfas p n, off) at e, o)
  ]

  pub graph-snoc_forth : Includes (graph (nfas ++ (n ∷ []))) (graph nfas)
  graph-snoc_forth p l q (k, e, o) = (
    k,
    rw
        (
          get_elem?-snoc nfas p n,
          ==_ne p (length nfas) (λ a. omega (arith, a, lt_of_get_elem? nfas p e)),
        )
        e,
    o,
  )
