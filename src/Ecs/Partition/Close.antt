-- ===== src/Ecs/Partition/Close.antt =====
-- The end of the walk of `mkeccl`: the two lists are closed, and the class is parted.
use flex_cmake_old.Prelude.{
  ℕ, ◌+◌, ◌<◌, ◌≡◌, ◌≢◌, refl, ap, ◌∙◌, sym, arith, ◌==◌, ltb, inl, inr, Bool-cases, if◌then◌else◌,
  not, ◌&&◌, ◌||◌, ◌↔◌, Bool, true, false,
}
use flex_cmake_old.Ecs.{Links, update}
use flex_cmake_old.Ecs.Linked.{IsLinked}
use flex_cmake_old.Ecs.Leader.{leader, leader_nil, leader_bck, leader-le}
use flex_cmake_old.Ecs.Partition.Label.{leader-label}
use flex_cmake_old.Ecs.Partition.Lists.{Visited, Parted}

module _ {num : ℕ} {l0 : Links} (w : IsLinked num l0) (c : ℕ) (inside : ℕ → Bool) where
  abbrev Member : ℕ → Type 0
  Member x = leader l0 x ≡ leader l0 c

  -- The part of the class that a member is in.
  abbrev pub part : ℕ → Bool
  part x = (leader l0 x == leader l0 c) && inside x

  abbrev pub part_label : ℕ → ℕ
  part_label x = leader l0 x + leader l0 x + (if part x then 1 else 0)

  same_label :
      (a b : ℕ)
      → leader l0 a ≡ leader l0 b
      → (Member b → inside a ≡ inside b)
      → part_label a ≡ part_label b
  same_label a b e h = ground (arith, h)

  module _ (pos : c ≢ 0) (in_c : inside c ≡ true)
      (least : (x : ℕ) → Member x → x < c → inside x ≡ false) {oldec newec : ℕ} {l : Links}
      (s : Parted w c inside 0 oldec newec l) where
    abbrev pub closed : Links
    closed =
        let parted = not (l.bck c == 0) || not (oldec == l.bck c) in
        let fwd = if parted then update l.fwd oldec 0 else l.fwd in
        record { fwd = update fwd newec 0; bck = if parted then update l.bck c 0 else l.bck }

    closed-bck : (x : ℕ) → closed.bck x ≡ (if x == c then 0 else l.bck x)
    unfolding update
    closed-bck x = ground arith

    closed-fwd :
        (x : ℕ) → closed.fwd x ≡ (if x == newec then 0 else if x == oldec then 0 else l.fwd x)
    unfolding update
    closed-fwd x = ground (arith, s.fwd_nil)

    pub closed-IsLinked : IsLinked num closed
    closed-IsLinked = record {
      fwd_nil = ground (arith, s.fwd_nil, closed-fwd 0);
      fwd_up = λ x h. ground (arith, closed-fwd x, closed-bck (closed.fwd x), s.fwd_up x, s.cut);
      bck_down = λ x h. ground (
        arith,
        closed-bck x,
        closed-fwd (closed.bck x),
        s.bck_down x,
        s.same 0,
        w.bck_down 0,
        pos,
      );
    }

    v : (x : ℕ) → Visited 0 x
    v x h = absurd (h refl)

    label_kept : (x : ℕ) → closed.bck x ≢ 0 → part_label (closed.bck x) ≡ part_label x
    label_kept x h =
        let (e, ne) : (closed.bck x ≡ l.bck x) × (x ≢ c) = ground (arith, closed-bck x) in
        rw e (elim (Bool-cases ((leader l0 x == leader l0 c) && not (ltb x c))) [
          | inl later ↦
              same_label (l.bck x) x (ground (arith, s.kept x, v x))
                (λ mx. (s.kept x mx (ground arith) (v x) (λ z. h (e ∙ z))).1)
          | inr other ↦
              let o : l.bck x ≡ l0.bck x = s.same x (λ mx. ground arith) in
              let b : l0.bck x ≢ 0 = λ z. h (e ∙ o ∙ z) in
              rw o (
                same_label (l0.bck x) x (sym (leader_bck w x b)) (λ mx.
                  least (l0.bck x) (sym (leader_bck w x b) ∙ mx) (ground (arith, w.bck_down x b))
                  ∙ sym (least x mx (ground arith))))
        ])

    label_single : (x y : ℕ) → x ≢ 0 → x < y → part_label x ≡ part_label y → closed.bck y ≢ 0
    label_single x y p lt e =
        let (el, ep) : (leader l0 x ≡ leader l0 y) × (part x ≡ part y) = ground (arith, e) in
        λ z. elim (Bool-cases ((leader l0 y == leader l0 c) && not (ltb y c))) [
          | inl later ↦ elim (Bool-cases (y == c)) [
            | inl here ↦
                let f : inside y ≡ inside c = ap inside (ground arith) in
                ground (arith, in_c, f, least x)
            | inr behind ↦
                let t =
                  s.single y (ground arith) (ground arith) (v y) (ground (arith, closed-bck y)) in
                ground (arith, t.0, t.1 x (ground arith) p lt)
          ]
          | inr other ↦
              ground (arith, s.same y, closed-bck y, leader_nil w y, leader-le w x, in_c, least x)
        ]

    -- The class is parted: two members are in one list afterwards exactly if they were and are in
    -- one part.
    pub leader-closed :
        (x y : ℕ)
        → x ≢ 0
        → y ≢ 0
        → (leader closed x ≡ leader closed y) ↔ ((leader l0 x ≡ leader l0 y) × (part x ≡ part y))
    leader-closed x y p q =
        let e = leader-label closed-IsLinked part_label label_kept label_single x y p q in
        (λ h. ground (arith, e.0 h), λ h. e.1 (ground (arith, h.0, h.1)))
