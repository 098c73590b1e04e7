-- ===== src/Dfa/Closure/Correct.antt =====
-- `epsclosure` computes the states that epsilon transitions reach.
use flex_cmake_old.Prelude.{
  ℕ, ◌<◌, ◌≡◌, ◌↔◌, inl, inr, refl, ap, ◌∙◌, sym, subst, arith, ◌==◌, ==_refl, if◌then◌else◌,
  Bool-cases, true, false, ◌||◌, ◌&&◌, List, [], ◌∷◌, All, length, lt_of_get_elem?,
}
use flex_cmake_old.Prelude.Int.{ℤ}
use flex_cmake_old.Common.{ok}
use flex_cmake_old.CharacterTable.{contains}
use flex_cmake_old.Nfa.State.{Nfa}
use flex_cmake_old.Dfa.Closure.{
  minus_marker, plus_marker, Closure, set_trans1, clear_loop, is_marked, is_kept, epsclosure,
}
use flex_cmake_old.Dfa.Closure.Spec.{
  node_at, Reach, here, step, IsBounded, index_of, IsDistinct, unseen-nil,
}
use flex_cmake_old.Dfa.Closure.Push.{plus-minus, minus-negative, accepts, original, HasRoom, Inv}
use flex_cmake_old.Dfa.Closure.Loop.{
  first_loop-Inv, Closed, close_loop-Inv, Grows-contains, bind-ok,
}

module _ (nfas : List Nfa) (bounded : IsBounded nfas) where
  -- The fields are marked on the stack `stk` and nowhere else.
  abbrev Marked : List ℕ → (ℕ → ℤ) → Type 0
  Marked stk trans1 =
      (v : ℕ)
      → trans1 v ≡ (if contains v stk then minus_marker (original nfas v) else original nfas v)

  tail-Marked :
      (s : ℕ) (stk : List ℕ) (c : Closure)
      → contains s stk ≡ false
      → Marked (s ∷ stk) c.trans1
      → c.trans1 s ≡ minus_marker (original nfas s)
      → (node_at nfas s).trans1 < 1_000_000_000
      → Marked stk (set_trans1 c.trans1 s (plus_marker (c.trans1 s)))
  unfolding contains
  tail-Marked s stk c new m on_top small v = elim (Bool-cases (v == s)) [
    | inl e ↦
        let same : s ≡ v = ground arith in
        let new' = subst (λ w. contains w stk ≡ false) same new in
        rw (e, new', on_top) (plus-minus _ small ∙ ap (original nfas) same)
    | inr e ↦ rw e (m v ∙ rw e refl)
  ]

  clear_loop-restores :
      (stk : List ℕ) (c : Closure)
      → IsDistinct stk
      → Marked stk c.trans1
      → (f : ℕ → ℤ) × (clear_loop stk c ≡ ok (record c { trans1 = f }))
        × ((v : ℕ) → f v ≡ original nfas v)
  unfolding clear_loop IsDistinct contains
  clear_loop-restores [] c d m = (c.trans1, refl, m)
  clear_loop-restores (s ∷ stk) c (new, d) m =
      let small : (node_at nfas s).trans1 < 1_000_000_000 =
        omega (arith, bounded.first s, bounded.size) in
      let on_top : c.trans1 s ≡ minus_marker (original nfas s) = m s ∙ rw (==_refl s) refl in
      let marked : is_marked c s ≡ true = rw on_top (minus-negative _ small) in
      let (f, e, g) =
        clear_loop-restores stk
          (record c { trans1 = set_trans1 c.trans1 s (plus_marker (c.trans1 s)) }) d
          (tail-Marked s stk c new m on_top small) in
      (f, rw (clear_loop, marked) e, g)

  start : (room : ℕ) → List ℕ → Closure
  start room t = record {
    trans1 = original nfas;
    stk = [];
    t = t;
    accset = [];
    hashval = 0;
    room = room;
  }

  start-Inv : (room : ℕ) (t : List ℕ) → HasRoom nfas t room → Inv nfas t (start room t)
  unfolding start contains IsDistinct accepts
  start-Inv room t fits = record {
    fits = fits;
    values = λ v. refl;
    sound = λ v h. cc;
    distinct = tt;
    slots = omega (arith, unseen-nil (length nfas));
    accepting = refl;
    kept = λ v. ground arith;
  }

  complete :
      (init : List ℕ) (c : Closure)
      → ((v : ℕ) → contains v init ≡ true → contains v c.stk ≡ true)
      → Closed nfas init bounded c (length c.stk)
      → {v : ℕ} → Reach nfas init v
      → contains v c.stk ≡ true
  complete init c covers closed (here m) = covers _ m
  complete init c covers closed (step {u} {w} r e) =
      let (i, f) = index_of u c.stk (complete init c covers closed r) in
      closed i u w (lt_of_get_elem? c.stk i f) f e

  within :
      (init states : List ℕ)
      → ((v : ℕ) → contains v states ≡ true → contains v init ≡ true)
      → All (λ v. v < length nfas) states
      → All (λ v. (v < length nfas) × (contains v init ≡ true)) states
  unfolding contains
  within init [] sub h = tt
  within init (s ∷ states) sub (small, h) = (
    (small, sub s (rw (==_refl s) refl)),
    within init states (λ v m. sub v (ground (arith, m))) h,
  )

  All-contains :
      (states stk : List ℕ)
      → All (λ v. contains v stk ≡ true) states
      → (v : ℕ) → contains v states ≡ true
      → contains v stk ≡ true
  unfolding contains
  All-contains [] stk h v m = cc
  All-contains (s ∷ states) stk (e, h) v m = elim (Bool-cases (v == s)) [
    | inl q ↦ let same : s ≡ v = ground arith in subst (λ w. contains w stk ≡ true) same e
    | inr q ↦ All-contains states stk h v (ground arith)
  ]

-- For states whose transitions lead to states and a set of states that are there: epsclosure returns, if the
-- vector of accepting numbers has room for those of all states that are reached.
-- A state is on its stack, once, exactly if epsilon transitions lead to it from the set. The list `t`
-- gets the states on the stack that accept or have a transition on a symbol, the accepting numbers
-- are those of the stack in order, and the marks are cleared: the transitions are as before.
pub epsclosure-Reach :
    (nfas : List Nfa) (room : ℕ) (init : List ℕ) (v : ℕ)
    → IsBounded nfas
    → HasRoom nfas init room
    → All (λ u. u < length nfas) init
    → (c : Closure) × (epsclosure nfas room (original nfas) init ≡ ok c)
      × ((contains v c.stk ≡ true) ↔ Reach nfas init v)
      × IsDistinct c.stk
      × (contains v c.t ≡ (contains v init || (contains v c.stk && is_kept (node_at nfas v))))
      × (c.accset ≡ accepts nfas c.stk)
      × (c.trans1 v ≡ original nfas v)
      × (length c.accset < room)
unfolding epsclosure start
epsclosure-Reach nfas room init v bounded fits small =
    let (c1, e1, inv1, _, covers) =
      first_loop-Inv nfas init bounded init (start nfas bounded room init)
        (start-Inv nfas bounded room init fits) (within nfas bounded init init (λ w m. m) small) in
    let (c2, e2, inv2, g2, closed) =
      close_loop-Inv nfas init bounded (length nfas) 0 c1 inv1 (λ i u w h. absurd (omega arith))
        (omega arith) in
    let (f, e3, restored) = clear_loop-restores nfas bounded c2.stk c2 inv2.distinct inv2.values in
    let covers2 = λ (w : ℕ) (m : contains w init ≡ true).
      Grows-contains c1 c2 w g2 (All-contains nfas bounded init c1.stk covers w m) in
    (
      record c2 { trans1 = f },
      bind-ok _ _ e1 ∙ bind-ok _ _ e2 ∙ e3,
      (λ m. (inv2.sound v m).0, complete nfas bounded init c2 covers2 closed),
      inv2.distinct,
      inv2.kept v,
      inv2.accepting,
      restored v,
      subst (λ a. length a < room) (sym inv2.accepting)
          (fits c2.stk inv2.distinct (λ w m. (inv2.sound w m).0)),
    )
