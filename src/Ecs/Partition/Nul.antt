-- ===== src/Ecs/Partition/Nul.antt =====
-- `mkeccl` on the tables that begin with a NUL, which stands for the last symbol.
use flex_cmake_old.Prelude.{
  ℕ, zero, suc, ◌+◌, ◌<◌, ◌≡◌, ◌≢◌, ◌↔◌, refl, ap, ◌∙◌, sym, arith, ◌==◌, inl, inr, Bool-cases,
  ◌&&◌, Bool, false, [], ◌∷◌, length,
}
use flex_cmake_old.CharacterTable.{CharacterTable, contains, IsClassTable}
use flex_cmake_old.Ecs.{Links}
use flex_cmake_old.Ecs.Linked.{IsLinked}
use flex_cmake_old.Ecs.Leader.{leader}
use flex_cmake_old.Ecs.Partition.{
  Flags, Walk, map_nul, walk_loop, close_lists, part_class, skip_flagged, eccl_loop, mkeccl,
}
use flex_cmake_old.Ecs.Partition.Search.{rank, pending}
use flex_cmake_old.Ecs.Partition.Skip.{skip_flagged_lem}
use flex_cmake_old.Ecs.Partition.Correct.{PartsBy, part_class_lem, eccl_loop-Parts, mkeccl_members}

walk_loop-end : (nul_mapping llsiz fuel : ℕ) (w : Walk) → walk_loop nul_mapping llsiz fuel 0 w ≡ w
unfolding walk_loop
walk_loop-end nul_mapping llsiz zero w = refl
walk_loop-end nul_mapping llsiz (suc fuel) w = refl

-- Two symbols are together afterwards exactly if they were, are both in the table or both not, and
-- neither or both are the last symbol.
abbrev pub PartsWithNul : (num : ℕ) → CharacterTable → Links → Links → Type 0
PartsWithNul num rest l l' =
    (x y : ℕ)
    → x ≢ 0
    → y ≢ 0
    → (leader l' x ≡ leader l' y) ↔ (
        (leader l x ≡ leader l y) × ((x == num) ≡ (y == num)) × (contains x rest ≡ contains y rest))

both_parted :
    (num : ℕ) (rest : CharacterTable) (chosen later : ℕ → Bool) (l l1 l2 : Links)
    → PartsBy chosen l l1
    → PartsBy later l1 l2
    → ((x : ℕ) → chosen x ≡ (x == num))
    → ((x : ℕ) → later x ≡ contains x rest)
    → PartsWithNul num rest l l2
both_parted num rest chosen later l l1 l2 first second e f x y p q = (
  λ h.
      let (h1, o) = (second x y p q).0 h in
      let (h0, o0) = (first x y p q).0 h1 in (h0, sym (e x) ∙ o0 ∙ e y, sym (f x) ∙ o ∙ f y),
  λ (h, o0, o).
      (second x y p q).1 ((first x y p q).1 (h, e x ∙ o0 ∙ sym (e y)), f x ∙ o ∙ sym (f y)),
)

module _ (num : ℕ) {l : Links} (w : IsLinked num l) (some_symbols : 0 < num) (flags : Flags)
    (down : (j : ℕ) → flags j ≡ false) where
  nothing_behind : l.fwd num ≡ 0
  nothing_behind = elim (Bool-cases (l.fwd num == 0)) [
    | inl e ↦ ground arith
    | inr e ↦ let (lt, le, _) = w.fwd_up num (ground arith) in absurd (omega (arith, lt, le))
  ]

  abbrev at_last : CharacterTable → Walk
  at_last js = record { links = l; flags = flags; oldec = l.bck num; newec = num; js = js; jt = 1 }

  part_class-last :
      (c : ℕ) (js : CharacterTable)
      → map_nul num c ≡ num
      → part_class num num c js 0 (l, flags)
        ≡ ((close_lists num (at_last js)).links, (close_lists num (at_last js)).flags)
  unfolding part_class
  part_class-last c js e = rw (e, nothing_behind, walk_loop-end num num num (at_last js)) refl

  -- The first round is the same as for a table with the last symbol alone.
  nul_alone :
      (js : CharacterTable)
      → part_class num num 0 js 0 (l, flags) ≡ part_class num num num [] 0 (l, flags)
  unfolding close_lists map_nul
  nul_alone js =
      part_class-last 0 js (ground (arith, some_symbols))
      ∙ sym (part_class-last num [] (ground (arith, some_symbols)))

  -- The rounds behind the first.
  abbrev others : CharacterTable → Links × Flags → Links × Flags
  others rest r =
      let (cs, it, flags') = skip_flagged rest 1 r.1 in
      eccl_loop num num (length rest) cs it (r.0, flags')

  mkeccl-others :
      (rest : CharacterTable)
      → mkeccl (0 ∷ rest) num num (l, flags) ≡ others rest (part_class num num num [] 0 (l, flags))
  unfolding mkeccl eccl_loop
  mkeccl-others rest = start ∙ ap (others rest) (nul_alone rest)
    where
      start :
          mkeccl (0 ∷ rest) num num (l, flags)
          ≡ others rest (part_class num num 0 rest 0 (l, flags))
      start = refl

  alone : (x : ℕ) → ((leader l x == leader l num) && pending flags 0 (num ∷ []) x) ≡ (x == num)
  unfolding pending contains
  alone x = elim (Bool-cases (x == num)) [
    | inl e ↦
        let same : leader l x ≡ leader l num = ap (leader l) (ground arith) in
        ground (arith, same, down (0 + rank x (num ∷ [])))
    | inr e ↦ ground (arith, e)
  ]

  others-PartsWithNul :
      (rest : CharacterTable)
      → IsClassTable rest
      → (r : Links × Flags) → r ≡ others rest (part_class num num num [] 0 (l, flags))
      → IsLinked num r.0 × PartsWithNul num rest l r.0 × ((j : ℕ) → r.1 j ≡ false)
  unfolding pending contains rank IsClassTable
  others-PartsWithNul rest t r e =
      let first = part_class num num num [] 0 (l, flags) in
      let (w1, parts, _, clean) =
        part_class_lem num num w num [] 0 flags tt tt some_symbols (tt, tt) (down 0) in
      let down1 : (j : ℕ) → first.1 j ≡ false =
        λ j. clean (λ i h. down i) j (λ h. omega (arith, h)) in
      let s' = skip_flagged rest 1 first.1 in
      let s = skip_flagged_lem rest 1 first.1 t in
      let (linked, rest_parts, clear) =
        eccl_loop-Parts num num (length rest) s'.0 s'.1 first.0 s'.2 w1 s.table s.fewer s.at_start
          (s.clean (λ j o. down1 j)) in
      let inside : (x : ℕ) → pending s'.2 s'.1 s'.0 x ≡ contains x rest =
        λ x. s.same_pending x ∙ ground (arith, down1 (1 + rank x rest)) in
      rw e (
        linked,
        both_parted num rest _ _ l first.0 (others rest first).0 parts rest_parts alone inside,
        clear,
      )

-- Flags down, and a table without NUL: each class is parted into its members in the table and the
-- others. A table that begins with a NUL, with the last symbol as the mapping of NUL: the last symbol
-- is in a class of its own then, even where the other members of the table were in its class, and
-- each class is parted by the rest of the table. In both cases the flags are down again, and the
-- arrays are linked.
pub mkeccl_classes :
    (num nul_mapping : ℕ) (rest : CharacterTable) (l : Links) (flags : Flags)
    → IsLinked num l
    → 0 < num
    → IsClassTable rest
    → ((j : ℕ) → flags j ≡ false)
    → (IsLinked num (mkeccl rest num nul_mapping (l, flags)).0
        × PartsBy (λ x. contains x rest) l (mkeccl rest num nul_mapping (l, flags)).0
        × ((j : ℕ) → (mkeccl rest num nul_mapping (l, flags)).1 j ≡ false))
      × (IsLinked num (mkeccl (0 ∷ rest) num num (l, flags)).0
          × PartsWithNul num rest l (mkeccl (0 ∷ rest) num num (l, flags)).0
          × ((j : ℕ) → (mkeccl (0 ∷ rest) num num (l, flags)).1 j ≡ false))
mkeccl_classes num nul_mapping rest l flags w some_symbols t down = (
  mkeccl_members num nul_mapping rest l flags w t down,
  others-PartsWithNul num w some_symbols flags down rest t (mkeccl (0 ∷ rest) num num (l, flags))
      (mkeccl-others num w some_symbols flags down rest),
)
