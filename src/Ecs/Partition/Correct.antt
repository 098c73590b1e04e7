-- ===== src/Ecs/Partition/Correct.antt =====
-- `mkeccl` parts each class into its members in the table and the others.
use flex_cmake_old.Prelude.{
  ℕ, zero, suc, ◌+◌, ◌≤◌, ◌<◌, ◌≡◌, ◌≢◌, ◌↔◌, refl, ap, ◌∙◌, arith, ◌==◌, inl, inr, Bool-cases, not,
  ◌&&◌, Bool, true, false, [], ◌∷◌, All, length,
}
use flex_cmake_old.CharacterTable.{CharacterTable, contains, IsAscending, IsClassTable}
use flex_cmake_old.Ecs.{Links}
use flex_cmake_old.Ecs.Linked.{IsLinked}
use flex_cmake_old.Ecs.Leader.{leader, next-le}
use flex_cmake_old.Ecs.Partition.{
  Flags, Walk, close_lists, part_class, skip_flagged, eccl_loop, mkeccl,
}
use flex_cmake_old.Ecs.Partition.Lists.{start}
use flex_cmake_old.Ecs.Partition.Close.{closed-IsLinked, leader-closed}
use flex_cmake_old.Ecs.Partition.Search.{rank, pending, map_nul_lem, contains-below, rank-below}
use flex_cmake_old.Ecs.Partition.Skip.{IsClean, skip_flagged_lem}
use flex_cmake_old.Ecs.Partition.Along.{Walked, walk_loop-Walked}

-- Two symbols are in one class afterwards exactly if they were and both or none are chosen.
abbrev pub PartsBy : (ℕ → Bool) → Links → Links → Type 0
PartsBy chosen l l' =
    (x y : ℕ)
    → x ≢ 0
    → y ≢ 0
    → (leader l' x ≡ leader l' y) ↔ ((leader l x ≡ leader l y) × (chosen x ≡ chosen y))

abbrev pub Parts : (num : ℕ) → CharacterTable → (it : ℕ) → Links × Flags → Links × Flags → Type 0
Parts num cs it (l, flags) (l', flags') =
    IsLinked num l' × PartsBy (pending flags it cs) l l' × ((j : ℕ) → flags' j ≡ false)

part_twice :
    (inside in_class later : ℕ → Bool) (l l1 l2 : Links)
    → PartsBy (λ x. in_class x && inside x) l l1
    → PartsBy later l1 l2
    → ((x : ℕ) → later x ≡ (inside x && not (in_class x)))
    → ((x y : ℕ) → leader l x ≡ leader l y → in_class x ≡ in_class y)
    → PartsBy inside l l2
part_twice inside in_class later l l1 l2 first second e same x y p q = (
  (λ h.
      let (h1, o) = (second x y p q).0 h in
      let (h0, o0) = (first x y p q).0 h1 in ground (arith, h0, o, o0, e x, e y, same x y h0)),
  λ (h, o). (second x y p q).1 (
    (first x y p q).1 (h, ground (arith, o, same x y h)),
    ground (arith, o, e x, e y, same x y h),
  ),
)

module _ (num nul_mapping : ℕ) where
  module _ {l : Links} (w : IsLinked num l) (c : ℕ) (cs : CharacterTable) (it : ℕ) (flags : Flags)
      (above : All (λ y. c < y) cs) (up : IsAscending cs) (positive : 0 < c) (t : IsClassTable cs)
      (not_flagged : flags it ≡ false) where
    abbrev inside : ℕ → Bool
    inside = pending flags it (c ∷ cs)

    in_c : inside c ≡ true
    unfolding pending contains rank
    in_c = ground (arith, not_flagged)

    least : (x : ℕ) → x < c → inside x ≡ false
    unfolding pending contains
    least x h = ground (arith, contains-below x c cs above)

    inside_later : (x : ℕ) → c < x → inside x ≡ pending flags (it + 1) cs x
    unfolding pending contains rank
    inside_later x h = ground (arith, rank-below c c cs above)

    abbrev begin : Walk
    begin = record { links = l; flags = flags; oldec = l.bck c; newec = c; js = cs; jt = it + 1 }

    later : (x : ℕ) → pending flags (it + 1) cs x ≡ true → c < x
    unfolding pending
    later x h = ground (arith, contains-below x c cs above, h)

    -- Outside the class of `c`, the same are pending in the rest.
    pending_rest :
        (x : ℕ)
        → (pending flags (it + 1) cs x && not (leader l x == leader l c))
          ≡ (pending flags it (c ∷ cs) x && not (leader l x == leader l c))
    unfolding pending contains rank
    pending_rest x = elim (Bool-cases (x == c)) [
      | inl here ↦ let e : leader l x ≡ leader l c = ap (leader l) (ground arith) in ground arith
      | inr other ↦ ground (arith, contains-below x c cs above)
    ]

    begin-Walked : Walked w c inside flags cs (it + 1) up inside_later (l.fwd c) begin
    begin-Walked = record {
      lists = start w c inside (omega (arith, positive)) in_c (λ x m. least x);
      table = t;
      aligned = λ x h le. (refl, refl);
      flagged = λ x. ground (arith, next-le w c x);
      clean = λ j h. refl;
    }

    abbrev pub PartedClass : Links × Flags → Type 0
    PartedClass (l', flags') =
        IsLinked num l'
        × PartsBy (λ x. (leader l x == leader l c) && inside x) l l'
        × ((x : ℕ)
            → pending flags' (it + 1) cs x
              ≡ (pending flags (it + 1) cs x && not (leader l x == leader l c)))
        × (IsClean (it + 1) cs flags → IsClean (it + 1) cs flags')

    pub part_class_lem : PartedClass (part_class num nul_mapping c cs it (l, flags))
    unfolding part_class close_lists
    part_class_lem =
        let v =
          walk_loop-Walked w c inside flags cs (it + 1) up inside_later nul_mapping num (l.fwd c)
            begin (λ h. ground (arith, w.fwd_up c)) begin-Walked in
        rw (map_nul_lem nul_mapping c positive) (
          closed-IsLinked w c inside (omega (arith, positive)) in_c (λ x m. least x) v.lists,
          leader-closed w c inside (omega (arith, positive)) in_c (λ x m. least x) v.lists,
          (λ x. ground (arith, v.flagged x, later x)),
          λ h j o. v.clean j o ∙ h j o,
        )

  empty_parting :
      (l : Links) (flags : Flags) (it : ℕ)
      → IsLinked num l
      → IsClean it [] flags
      → Parts num [] it (l, flags) (l, flags)
  unfolding pending contains
  empty_parting l flags it w clean =
      (w, (λ x y p q. ((λ e. (e, refl)), λ h. h.0)), λ j. clean j (λ h. omega (arith, h)))

  pub eccl_loop-Parts :
      (fuel : ℕ) (cs : CharacterTable) (it : ℕ) (l : Links) (flags : Flags)
      → IsLinked num l
      → IsClassTable cs
      → length cs ≤ fuel
      → (cs ≢ [] → flags it ≡ false)
      → IsClean it cs flags
      → Parts num cs it (l, flags) (eccl_loop num nul_mapping fuel cs it (l, flags))
  unfolding eccl_loop IsClassTable
  eccl_loop-Parts zero [] it l flags w t h f clean = empty_parting l flags it w clean
  eccl_loop-Parts zero (c ∷ cs) it l flags w t h f clean = absurd (ground arith)
  eccl_loop-Parts (suc fuel) [] it l flags w t h f clean = empty_parting l flags it w clean
  eccl_loop-Parts (suc fuel) (c ∷ cs) it l flags w ((above, up), (positive, ps)) h f clean =
      let nf : flags it ≡ false = f (λ e. ground (arith, e)) in
      let r = part_class num nul_mapping c cs it (l, flags) in
      let (w1, parts, left, clean1) =
        part_class_lem w c cs it flags above up positive (up, ps) nf in
      let s' = skip_flagged cs (it + 1) r.1 in
      let s = skip_flagged_lem cs (it + 1) r.1 (up, ps) in
      let ih =
        eccl_loop-Parts fuel s'.0 s'.1 r.0 s'.2 w1 s.table (ground (arith, h, s.fewer)) s.at_start
          (s.clean (clean1 (λ j o. ground (arith, clean j, nf, o)))) in
      (
        ih.0,
        part_twice (pending flags it (c ∷ cs)) (λ z. leader l z == leader l c)
            (pending s'.2 s'.1 s'.0) l r.0 (eccl_loop num nul_mapping fuel s'.0 s'.1 (r.0, s'.2)).0
            parts ih.1
            (λ x.
              s.same_pending x
              ∙ left x
              ∙ pending_rest w c cs it flags above up positive (up, ps) nf x)
            (λ x y e. ap (λ z. z == leader l c) e),
        ih.2,
      )

  -- Flags down, and a table without NUL: each class is parted into the members of the table and the
  -- others, and the flags are down again.
  pub mkeccl_members :
      (table : CharacterTable) (l : Links) (flags : Flags)
      → IsLinked num l
      → IsClassTable table
      → ((j : ℕ) → flags j ≡ false)
      → IsLinked num (mkeccl table num nul_mapping (l, flags)).0
        × PartsBy (λ x. contains x table) l (mkeccl table num nul_mapping (l, flags)).0
        × ((j : ℕ) → (mkeccl table num nul_mapping (l, flags)).1 j ≡ false)
  unfolding mkeccl pending
  mkeccl_members table l flags w t down =
      let all : (x : ℕ) → pending flags 0 table x ≡ contains x table =
        λ x. ground (arith, down (0 + rank x table)) in
      let h =
        eccl_loop-Parts (length table) table 0 l flags w t (omega arith) (λ o. down 0)
          (λ j o. down j) in
      (
        h.0,
        (λ x y p q. (
          (λ e. ground (arith, (h.1 x y p q).0 e, all x, all y)),
          λ (e, o). (h.1 x y p q).1 (e, ground (arith, o, all x, all y)),
        )),
        h.2,
      )
