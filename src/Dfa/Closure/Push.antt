-- ===== src/Dfa/Closure/Push.antt =====
-- The invariant of the closure, and that stacking a state keeps it.
use mathlib.Core.List.{append-nil}
use flex_cmake_old.Prelude.{
  ℕ, ◌+◌, ◌<◌, ◌≡◌, inl, inr, refl, ap, ◌∙◌, sym, subst, arith, ltb, lt→ltb, ◌==◌, ==_refl,
  if◌then◌else◌, Bool, Bool-cases, true, false, ◌||◌, ◌&&◌, List, [], ◌∷◌, ◌++◌, length,
  length-append,
}
use flex_cmake_old.Prelude.Int.{ℤ, pos, is_negative}
use flex_cmake_old.Common.{Result, ok}
use flex_cmake_old.CharacterTable.{contains}
use flex_cmake_old.Nfa.State.{Nfa}
use flex_cmake_old.Dfa.Closure.{
  minus_marker, plus_marker, Closure, set_trans1, is_marked, put_on_stack, check_accept, is_kept,
  add_state, stack_state, first_state, add_hash,
}
use flex_cmake_old.Dfa.Closure.Spec.{
  node_at, at-node_at, Reach, IsBounded, contains-snoc, IsDistinct, IsDistinct-snoc, unseen,
  unseen-snoc,
}

pub plus-minus : (n : ℕ) → n < 1_000_000_000 → plus_marker (minus_marker (pos n)) ≡ pos n
unfolding plus_marker minus_marker
plus-minus n h = ground arith

pub minus-negative : (n : ℕ) → n < 1_000_000_000 → is_negative (minus_marker (pos n)) ≡ true
unfolding minus_marker
minus-negative n h = ground arith

-- The accepting numbers of the states, in order.
unfoldable pub accepts : List Nfa → List ℕ → List ℕ
accepts nfas [] = []
accepts nfas (v ∷ vs) =
    if (node_at nfas v).accptnum == 0
    then accepts nfas vs
    else (node_at nfas v).accptnum ∷ accepts nfas vs

accepts-snoc :
    (nfas : List Nfa) (vs : List ℕ) (v : ℕ)
    → accepts nfas (vs ++ (v ∷ [])) ≡ (
        if (node_at nfas v).accptnum == 0
        then accepts nfas vs
        else accepts nfas vs ++ ((node_at nfas v).accptnum ∷ []))
unfolding accepts
accepts-snoc nfas [] v = refl
accepts-snoc nfas (u ∷ vs) v = ground (arith, accepts-snoc nfas vs v)

abbrev pub original : List Nfa → ℕ → ℤ
original nfas v = pos (node_at nfas v).trans1

-- The accepting numbers of states that epsilon transitions reach fit a vector with `room` elements.
abbrev pub HasRoom : List Nfa → (init : List ℕ) → (room : ℕ) → Type 0
HasRoom nfas init room =
    (vs : List ℕ)
    → IsDistinct vs
    → ((v : ℕ) → contains v vs ≡ true → Reach nfas init v)
    → length (accepts nfas vs) < room

module _ (nfas : List Nfa) (init : List ℕ) where
  pub record Inv (c : Closure) : Type 0 where
    pub values :
        (v : ℕ)
        → c.trans1 v
          ≡ (if contains v c.stk then minus_marker (original nfas v) else original nfas v)
    pub sound : (v : ℕ) → contains v c.stk ≡ true → Reach nfas init v × (v < length nfas)
    pub distinct : IsDistinct c.stk
    pub slots : unseen (length nfas) c.stk + length c.stk ≡ length nfas
    pub fits : HasRoom nfas init c.room
    pub accepting : c.accset ≡ accepts nfas c.stk
    pub kept :
        (v : ℕ)
        → contains v c.t ≡ (contains v init || (contains v c.stk && is_kept (node_at nfas v)))

  pub marked-contains :
      IsBounded nfas → (c : Closure) → Inv c → (v : ℕ) → is_marked c v ≡ contains v c.stk
  marked-contains b c inv v = elim (Bool-cases (contains v c.stk)) [
    | inl e ↦ rw (inv.values v, e) (minus-negative _ (omega (arith, b.first v, b.size)))
    | inr e ↦ rw (inv.values v, e) refl
  ]

  -- The closure with one more state on the stack.
  abbrev pub stacked : ℕ → (t' : List ℕ) → (h : ℕ) → Closure → Closure
  stacked v t' h c = record {
    trans1 = set_trans1 c.trans1 v (minus_marker (c.trans1 v));
    stk = c.stk ++ (v ∷ []);
    t = t';
    accset =
        if (node_at nfas v).accptnum == 0
        then c.accset
        else c.accset ++ ((node_at nfas v).accptnum ∷ []);
    hashval = h;
    room = c.room;
  }

  values-stacked :
      (c : Closure)
      → Inv c
      → (v : ℕ) → contains v c.stk ≡ false
      → (w : ℕ)
      → set_trans1 c.trans1 v (minus_marker (c.trans1 v)) w ≡ (
          if contains w (c.stk ++ (v ∷ []))
          then minus_marker (original nfas w)
          else original nfas w)
  values-stacked c inv v new w = elim (Bool-cases (w == v)) [
    | inl e ↦
        let same : v ≡ w = ground arith in
        let shut : c.trans1 v ≡ original nfas v = inv.values v ∙ rw new refl in
        subst
          (λ w. set_trans1 c.trans1 v (minus_marker (c.trans1 v)) w ≡ (
            if contains w (c.stk ++ (v ∷ []))
            then minus_marker (original nfas w)
            else original nfas w))
          same (rw (contains-snoc v v c.stk, ==_refl v, new, shut) refl)
    | inr e ↦ rw (contains-snoc w v c.stk, e) (inv.values w ∙ ground arith)
  ]

  Inv-stacked :
      (c : Closure)
      → Inv c
      → (v : ℕ) → contains v c.stk ≡ false
      → v < length nfas
      → Reach nfas init v
      → (t' : List ℕ)
      → ((w : ℕ)
          → contains w t'
            ≡ (contains w init || (contains w (c.stk ++ (v ∷ [])) && is_kept (node_at nfas w))))
      → (h : ℕ) → Inv (stacked v t' h c)
  Inv-stacked c inv v new small reach t' kept' h = record {
    values = values-stacked c inv v new;
    sound = λ w m. elim (Bool-cases (w == v)) [
      | inl e ↦
          let same : v ≡ w = ground arith in
          subst (λ w. Reach nfas init w × (w < length nfas)) same (reach, small)
      | inr e ↦ inv.sound w (ground (arith, contains-snoc w v c.stk))
    ];
    distinct = IsDistinct-snoc v c.stk inv.distinct new;
    slots = omega (
      arith,
      unseen-snoc (length nfas) v c.stk small new,
      inv.slots,
      length-append c.stk (v ∷ []),
    );
    fits = inv.fits;
    accepting = rw (accepts-snoc nfas c.stk v, inv.accepting);
    kept = kept';
  }

  Bool-or_true : (b : Bool) → (b || true) ≡ true
  Bool-or_true true = refl
  Bool-or_true false = refl

  kept-stacked :
      (c : Closure)
      → Inv c
      → (v w : ℕ)
      → contains w (if is_kept (node_at nfas v) then c.t ++ (v ∷ []) else c.t)
        ≡ (contains w init || (contains w (c.stk ++ (v ∷ [])) && is_kept (node_at nfas w)))
  kept-stacked c inv v w = elim (Bool-cases (is_kept (node_at nfas v))) [
    | inl k ↦ elim (Bool-cases (w == v)) [
      | inl e ↦
          let same : v ≡ w = ground arith in
          let k' = subst (λ w. is_kept (node_at nfas w) ≡ true) same k in
          rw (k, contains-snoc w v c.t, contains-snoc w v c.stk, e, k', inv.kept w) (ground arith)
      | inr e ↦ rw (k, contains-snoc w v c.t, contains-snoc w v c.stk, e, inv.kept w) (ground arith)
    ]
    | inr k ↦ elim (Bool-cases (w == v)) [
      | inl e ↦
          let same : v ≡ w = ground arith in
          let k' = subst (λ w. is_kept (node_at nfas w) ≡ false) same k in
          rw (k, contains-snoc w v c.stk, e, k', inv.kept w, k') (ground arith)
      | inr e ↦ rw (k, contains-snoc w v c.stk, e, inv.kept w) (ground arith)
    ]
  ]

  -- The closure with the accepting number of a state.
  abbrev accepted : Nfa → Closure → Closure
  accepted n c = record c {
    accset = if n.accptnum == 0 then c.accset else c.accset ++ (n.accptnum ∷ []);
  }

  fits-stacked :
      (c : Closure)
      → Inv c
      → (v : ℕ) → contains v c.stk ≡ false
      → Reach nfas init v
      → length (accepts nfas (c.stk ++ (v ∷ []))) < c.room
  fits-stacked c inv v new reach =
      inv.fits (c.stk ++ (v ∷ [])) (IsDistinct-snoc v c.stk inv.distinct new) (λ w m.
        elim (Bool-cases (w == v)) [
          | inl e ↦ let same : v ≡ w = ground arith in subst (λ w. Reach nfas init w) same reach
          | inr e ↦ (inv.sound w (ground (arith, contains-snoc w v c.stk))).0
        ])

  check_accept-accepted :
      (c : Closure)
      → Inv c
      → (v : ℕ) → contains v c.stk ≡ false
      → Reach nfas init v
      → check_accept (node_at nfas v) (put_on_stack v c)
        ≡ ok (accepted (node_at nfas v) (put_on_stack v c))
  unfolding check_accept put_on_stack
  check_accept-accepted c inv v new reach = elim (Bool-cases ((node_at nfas v).accptnum == 0)) [
    | inl none ↦ rw none refl
    | inr some ↦
        let last = (node_at nfas v).accptnum in
        let longer : accepts nfas (c.stk ++ (v ∷ [])) ≡ accepts nfas c.stk ++ (last ∷ []) =
          rw (accepts-snoc nfas c.stk v, some) refl in
        let room : ltb (length c.accset + 1) c.room ≡ true = lt→ltb _ _ (
          omega (
            arith,
            fits-stacked c inv v new reach,
            ap length longer,
            length-append (accepts nfas c.stk) (last ∷ []),
            ap length inv.accepting,
          )) in
        rw (some, room) refl
  ]

  -- What a call on one state makes of the closure: it goes on, with that state on the stack.
  unfoldable pub Visits : (v : ℕ) → Closure → Result Closure → Type 0
  Visits v c r =
      (c' : Closure) × (r ≡ ok c')
      × Inv c'
      × ((rest : List ℕ) × (c'.stk ≡ c.stk ++ rest))
      × (contains v c'.stk ≡ true)

  pub stack_state-Visits :
      IsBounded nfas
      → (c : Closure) → Inv c
      → (v : ℕ) → v < length nfas
      → Reach nfas init v
      → Visits v c (stack_state nfas v c)
  unfolding stack_state Visits add_state put_on_stack
  stack_state-Visits b c inv v small reach = elim (Bool-cases (contains v c.stk)) [
    | inl old ↦
        let marked = marked-contains b c inv v ∙ old in
        (c, rw (at-node_at nfas v small, marked), inv, ([], sym (append-nil c.stk)), old)
    | inr new ↦
        let unmarked = marked-contains b c inv v ∙ new in
        let c' = add_state (node_at nfas v) v (accepted (node_at nfas v) (put_on_stack v c)) in
        (
          c',
          rw (at-node_at nfas v small, unmarked, check_accept-accepted c inv v new reach) refl,
          Inv-stacked c inv v new small reach c'.t (kept-stacked c inv v) c'.hashval,
          (v ∷ [], refl),
          rw (contains-snoc v v c.stk, ==_refl v) (Bool-or_true (contains v c.stk)),
        )
  ]

  kept-init :
      (c : Closure)
      → Inv c
      → (v w : ℕ) → contains v init ≡ true
      → contains w c.t
        ≡ (contains w init || (contains w (c.stk ++ (v ∷ [])) && is_kept (node_at nfas w)))
  kept-init c inv v w member = elim (Bool-cases (w == v)) [
    | inl e ↦
        let same : v ≡ w = ground arith in
        let member' = subst (λ w. contains w init ≡ true) same member in rw (inv.kept w, member')
    | inr e ↦ rw (contains-snoc w v c.stk, e, inv.kept w) (ground arith)
  ]

  pub first_state-Visits :
      IsBounded nfas
      → (c : Closure) → Inv c
      → (v : ℕ) → v < length nfas
      → contains v init ≡ true
      → Visits v c (first_state nfas v c)
  unfolding first_state Visits put_on_stack
  first_state-Visits b c inv v small member = elim (Bool-cases (contains v c.stk)) [
    | inl old ↦
        let marked = marked-contains b c inv v ∙ old in
        (c, rw (at-node_at nfas v small, marked), inv, ([], sym (append-nil c.stk)), old)
    | inr new ↦
        let unmarked = marked-contains b c inv v ∙ new in
        (
          stacked v c.t (add_hash c.hashval v) c,
          rw
              (
                at-node_at nfas v small,
                unmarked,
                check_accept-accepted c inv v new (Reach.here member),
              )
              refl,
          Inv-stacked c inv v new small (Reach.here member) c.t (λ w. kept-init c inv v w member)
              (add_hash c.hashval v),
          (v ∷ [], refl),
          rw (contains-snoc v v c.stk, ==_refl v) (Bool-or_true (contains v c.stk)),
        )
  ]
