-- ===== src/Ecs/Partition/Lists.antt =====
-- The walk of `mkeccl` along a class, while its list is taken apart into two.
use flex_cmake_old.Prelude.{
  ℕ, ◌≤◌, ◌<◌, ◌≡◌, ◌≢◌, refl, ap, ◌∙◌, arith, ◌==◌, inl, inr, Bool-cases, if◌then◌else◌, Bool,
  true, false,
}
use flex_cmake_old.Ecs.{Links, update}
use flex_cmake_old.Ecs.Linked.{IsLinked}
use flex_cmake_old.Ecs.Leader.{leader, leader_nil, leader_bck, leader-fwd, leader-le, next-le}

-- `i` is the next member to be visited, or 0 at the end.
abbrev pub Visited : (i x : ℕ) → Type 0
Visited i x = i ≢ 0 → x < i

module _ {num : ℕ} {l0 : Links} (w : IsLinked num l0) (c : ℕ) (inside : ℕ → Bool) where
  abbrev pub Member : ℕ → Type 0
  Member x = leader l0 x ≡ leader l0 c

  -- The lists when the members before `i` are visited: the links of `c` and `i` back are still the old
  -- ones, and those of the two ends forward.
  pub record Parted (i oldec newec : ℕ) (l : Links) : Type 0 where
    pub fwd_nil : l.fwd 0 ≡ 0
    pub new_end : (newec ≢ 0) × (newec ≢ oldec) × Member newec × (inside newec ≡ true) × (c ≤ newec)
    pub old_end : oldec ≢ 0 → Member oldec × (inside oldec ≡ false)
    pub next : i ≢ 0 → (newec < i) × (oldec < i) × (i ≤ num) × Member i × (c < i)
    pub ahead : (x : ℕ) → i ≢ 0 → i ≤ x → (l.fwd x ≡ l0.fwd x) × (l.bck x ≡ l0.bck x)
    pub behind : i ≢ 0 → l.bck i ≢ newec → l.bck i ≡ oldec
    pub fwd_up :
        (x : ℕ)
        → x ≢ newec
        → x ≢ oldec
        → l.fwd x ≢ 0
        → (x < l.fwd x) × (l.fwd x ≤ num) × (l.bck (l.fwd x) ≡ x)
    pub bck_down :
        (x : ℕ)
        → x ≢ i
        → x ≢ c
        → l.bck x ≢ 0
        → (l.bck x < x) × (x ≤ num) × (l.fwd (l.bck x) ≡ x) × (l.bck x ≢ newec) × (l.bck x ≢ oldec)
    pub first : l.bck c ≡ l0.bck c
    pub cut : l.bck c ≢ 0 → oldec ≢ l.bck c → l.fwd (l.bck c) ≢ c
    pub same : (x : ℕ) → (Member x → x < c) → l.bck x ≡ l0.bck x
    pub kept :
        (x : ℕ)
        → Member x
        → c < x
        → Visited i x
        → l.bck x ≢ 0
        → Member (l.bck x) × (inside (l.bck x) ≡ inside x)
    pub single :
        (x : ℕ)
        → Member x
        → c < x
        → Visited i x
        → l.bck x ≡ 0
        → (inside x ≡ false) × ((y : ℕ) → Member y → y ≢ 0 → y < x → inside y ≡ true)
    pub no_old : oldec ≡ 0 → (x : ℕ) → Member x → x ≢ 0 → Visited i x → inside x ≡ true

  pub start :
      c ≢ 0
      → inside c ≡ true
      → ((x : ℕ) → Member x → x < c → inside x ≡ false)
      → Parted (l0.fwd c) (l0.bck c) c l0
  start pos in_c least = record {
    fwd_nil = w.fwd_nil;
    new_end = (pos, (λ e. ground (arith, w.bck_down c)), refl, in_c, omega arith);
    old_end = λ h. (
      ground (arith, leader_bck w c),
      ground (arith, least (l0.bck c), leader_bck w c, w.bck_down c),
    );
    next = λ h. ground (arith, w.fwd_up c h, w.bck_down c, leader-fwd w c h);
    ahead = λ x h h'. (refl, refl);
    behind = λ h h'. ground (arith, w.fwd_up c h);
    fwd_up = λ x p q h. w.fwd_up x h;
    bck_down = λ x p q h. ground (arith, w.bck_down x h, w.bck_down c);
    first = refl;
    cut = λ h h'. absurd (h' refl);
    same = λ x h. refl;
    kept = λ x m h v b. absurd (ground (arith, next-le w c x, v));
    single = λ x m h v b. absurd (ground (arith, next-le w c x, v));
    no_old = λ e x m p v.
        ap inside (ground (arith, leader_nil w c e, leader-le w x, next-le w c x, v)) ∙ in_c;
  }

  -- The member `i` goes to the new list.
  pub join_new-Parted :
      {i oldec newec : ℕ} {l : Links}
      → i ≢ 0
      → inside i ≡ true
      → Parted i oldec newec l
      → Parted (l.fwd i) oldec i (record { fwd = update l.fwd newec i; bck = update l.bck i newec })
  unfolding update
  join_new-Parted {i} {oldec} {newec} {l} p in_i s =
      let (lt, lt_old, le, m, gt) = s.next p in
      let (ne, nd, mn, inn, cn) = s.new_end in
      let nx : l.fwd i ≡ l0.fwd i = (s.ahead i p (omega arith)).0 in
      let seen : (x : ℕ) → Member x → Visited (l.fwd i) x → x ≢ i → Visited i x =
        λ x mx v d h. ground (arith, nx, next-le w i x) in
      record {
        fwd_nil = ground (arith, s.fwd_nil);
        new_end = (p, omega arith, m, in_i, omega arith);
        old_end = s.old_end;
        next = λ h. ground (arith, nx, w.fwd_up i, leader-fwd w i);
        ahead = λ x h h'. ground (arith, nx, w.fwd_up i, s.ahead x);
        behind = λ h h'. ground (arith, nx, w.fwd_up i, s.ahead (l.fwd i));
        fwd_up = λ x a b h. ground (arith, s.fwd_up x, s.behind p, lt, le);
        bck_down = λ x a b h. ground (arith, s.bck_down x, lt, le);
        first = ground (arith, s.first);
        cut = λ h h'. ground (arith, s.cut, s.first, w.bck_down c);
        same = λ x h. ground (arith, s.same x h);
        kept = λ x mx cx v b. ground (arith, s.kept x mx cx, seen x mx v);
        single = λ x mx cx v b. ground (arith, s.single x mx cx, seen x mx v);
        no_old = λ e x mx px v. ground (arith, s.no_old e x mx px, seen x mx v);
      }

  -- It stays in the old one.
  pub join_old-Parted :
      {i oldec newec : ℕ} {l : Links}
      → i ≢ 0
      → inside i ≡ false
      → Parted i oldec newec l
      → Parted (l.fwd i) i newec (record {
        fwd = if oldec == 0 then l.fwd else update l.fwd oldec i;
        bck = update l.bck i oldec;
      })
  unfolding update
  join_old-Parted {i} {oldec} {newec} {l} p out s =
      let (lt, lt_old, le, m, gt) = s.next p in
      let (ne, nd, mn, inn, cn) = s.new_end in
      let nx : l.fwd i ≡ l0.fwd i = (s.ahead i p (omega arith)).0 in
      let seen : (x : ℕ) → Member x → Visited (l.fwd i) x → x ≢ i → Visited i x =
        λ x mx v d h. ground (arith, nx, next-le w i x) in
      record {
        fwd_nil = ground (arith, s.fwd_nil);
        new_end = (ne, omega arith, mn, inn, cn);
        old_end = λ h. (m, out);
        next = λ h. ground (arith, nx, w.fwd_up i, leader-fwd w i);
        ahead = λ x h h'. ground (arith, nx, w.fwd_up i, s.ahead x);
        behind = λ h h'. ground (arith, nx, w.fwd_up i, s.ahead (l.fwd i));
        fwd_up = λ x a b h. ground (arith, s.fwd_up x, s.behind p, lt, le);
        bck_down = λ x a b h. ground (arith, s.bck_down x, lt, le, lt_old);
        first = ground (arith, s.first);
        cut = λ h h'. ground (arith, s.cut, s.first, w.bck_down c);
        same = λ x h. ground (arith, s.same x h);
        kept = λ x mx cx v b. ground (arith, s.kept x mx cx, seen x mx v, s.old_end);
        single = λ x mx cx v b. elim (Bool-cases (x == i)) [
          | inl here ↦ (
            ap inside (ground arith) ∙ out,
            λ y my py lt_y. s.no_old (ground arith) y my py (λ h. ground arith),
          )
          | inr other ↦ s.single x mx cx (seen x mx v (ground arith)) (ground arith)
        ];
        no_old = λ e x mx px v. absurd (p e);
      }
