-- ===== src/Dfa/Partition/Symbols.antt =====
-- What `sympartition` of src/dfa.cpp makes of the classes.
use flex_cmake_old.Prelude.{
  ℕ, zero, suc, ◌≤◌, ◌<◌, ◌≡◌, ◌≢◌, ◌↔◌, refl, ap, ◌∙◌, sym, arith, ◌==◌, leb, inl, inr, Bool-cases,
  ◌||◌, Bool, false, List, [], ◌∷◌, All, length, get_elem?, some, lt_of_get_elem?, subst,
}
use mathlib.Core.Path.{fun_ext}
use flex_cmake_old.Prelude.Int.{ℤ, pos, negsuc, abs, is_negative}
use flex_cmake_old.Common.{ok, at-some}
use flex_cmake_old.CharacterTable.{IsClassTable}
use flex_cmake_old.Ccl.{CharacterClass, CharacterClasses, class_contains}
use flex_cmake_old.Ecs.{one_class}
use flex_cmake_old.Ecs.Linked.{IsLinked, mkechar-IsLinked, one_class-IsLinked}
use flex_cmake_old.Ecs.Leader.{leader, leader_nil, leader_bck}
use flex_cmake_old.Ecs.Split.{mkechar_classes}
use flex_cmake_old.Ecs.Partition.{Flags, set_flag}
use flex_cmake_old.Ecs.Partition.Correct.{PartsBy, mkeccl_members}
use flex_cmake_old.Nfa.State.{Nfa, is_epsilon}
use flex_cmake_old.Dfa.Follow.{HasClass, Reads, moves}
use flex_cmake_old.Dfa.Partition.Marks.{mark_members_lem, mark_outside_lem}
use flex_cmake_old.Dfa.Partition.{
  Partition, part_by_character, part_by_class, part_by_state, part_loop, sympartition,
}

-- A transition on a character is one that the scanner has a class for.
unfoldable pub HasSymbol : (csize : ℕ) → (ecgroup : ℕ → ℤ) → ℤ → Type 0
HasSymbol csize ecgroup (pos c) =
    is_epsilon (pos c) ≡ false
    → (c < csize) × (is_negative (ecgroup c) ≡ false) × (abs (ecgroup c) ≢ 0)
HasSymbol csize ecgroup (negsuc k) = Unit

-- Some of the states goes on with the symbol.
unfoldable pub some_moves : CharacterClasses → (ecgroup : ℕ → ℤ) → (x : ℕ) → List Nfa → Bool
unfolding moves
some_moves ccls ecgroup x [] = false
some_moves ccls ecgroup x (n ∷ ns) =
    moves ccls ecgroup x n.transchar || some_moves ccls ecgroup x ns

-- All symbols are in one class at first.
one_class-leader : (num x : ℕ) → x ≢ 0 → x ≤ num → leader (one_class num) x ≡ 1
unfolding one_class
one_class-leader num zero p h = absurd (p refl)
one_class-leader num (suc x) p h = elim (Bool-cases (x == 0)) [
  | inl first ↦ leader_nil (one_class-IsLinked num) (suc x) (ground arith) ∙ ground arith
  | inr later ↦
      leader_bck (one_class-IsLinked num) (suc x) (ground arith)
      ∙ ap (leader (one_class num)) (ground arith)
      ∙ one_class-leader num x (ground arith) (omega arith)
]

module _ (csize numecs nul_ec : ℕ) (nfas : List Nfa) (ccls : CharacterClasses)
    (ecgroup : ℕ → ℤ) where
  -- The classes are linked, the flags of `mkeccl` are down.
  record IsReady (p : Partition) : Type 0 where
    linked : IsLinked numecs p.links
    down : (j : ℕ) → p.flags j ≡ false

  record Parted (chosen : ℕ → Bool) (p p' : Partition) : Type 0 where
    ready : IsReady p'
    classes : PartsBy chosen p.links p'.links
    symbols : (x : ℕ) → x ≢ 0 → x ≤ numecs → p'.symlist x ≡ (p.symlist x || chosen x)

  part_by_character_lem :
      (ec : ℕ) (p : Partition)
      → ec ≢ 0
      → IsReady p
      → Parted (λ x. ec == x) p (part_by_character ec p)
  unfolding part_by_character set_flag
  part_by_character_lem ec p ne r = record {
    ready = record { linked = mkechar-IsLinked r.linked ec ne; down = r.down };
    classes = λ x y px py.
        let (apart, others) = mkechar_classes r.linked ec ne in
        (
          (λ e. ground (arith, e, apart x px, apart y py, others x y)),
          λ (e, o). ground (arith, e, o, apart x px, apart y py, others x y),
        );
    symbols = λ x px h. ground (arith);
  }

  part_by_class_lem :
      (c : CharacterClass) (p : Partition)
      → IsClassTable c.table
      → IsReady p
      → Parted (class_contains c) p (part_by_class numecs nul_ec c p)
  unfolding part_by_class class_contains IsClassTable
  part_by_class_lem c p t r =
      let (w, parts, down) =
        mkeccl_members numecs nul_ec c.table p.links p.flags r.linked t r.down in
      record {
        ready = record { linked = w; down = down };
        classes = λ x y px py. (
          (λ e. ground (arith, (parts x y px py).0 e)),
          λ (e, o). (parts x y px py).1 (e, ground (arith, o)),
        );
        symbols = λ x px h. ground (
          arith,
          t.1,
          px,
          mark_members_lem nul_ec c.table p.symlist x t.1,
          mark_outside_lem numecs nul_ec c.table 0 p.symlist x t.1 t h,
        );
      }

  there :
      (k : ℕ) (c : CharacterClass)
      → get_elem? ccls (suc k) ≡ some c
      → leb (length ccls) (suc k) ≡ false
  there k c e = ground (arith, lt_of_get_elem? ccls (suc k) e)

  part_by_state_lem :
      (z : ℤ) (p : Partition)
      → HasClass ccls z
      → HasSymbol csize ecgroup z
      → IsReady p
      → (p' : Partition) × (part_by_state csize numecs nul_ec ccls ecgroup z p ≡ ok p')
        × Parted (λ x. moves ccls ecgroup x z) p p'
  unfolding part_by_state moves HasClass HasSymbol
  part_by_state_lem (pos tch) p c s r = elim (Bool-cases (is_epsilon (pos tch))) [
    | inl epsilon ↦ rw epsilon (
      p,
      refl,
      record {
        ready = r;
        classes = λ x y px py. ((λ e. (e, refl)), λ h. h.0);
        symbols = λ x px h. ground arith;
      },
    )
    | inr not_epsilon ↦
        let (in_range, leads, ne) = s not_epsilon in
        let there : leb csize tch ≡ false = ground (arith, in_range) in
        rw (not_epsilon, leads, there)
          (
            part_by_character (abs (ecgroup tch)) p,
            refl,
            part_by_character_lem (abs (ecgroup tch)) p ne r,
          )
  ]
  part_by_state_lem (negsuc k) p (c, e, t) s r =
      let moved : (λ x. class_contains c x) ≡ (λ x. moves ccls ecgroup x (negsuc k)) =
        fun_ext (λ x. rw (moves, e) refl) in
      (
        part_by_class numecs nul_ec c p,
        rw (there k c e) (rw (at-some ccls (suc k) e) refl),
        subst (λ f. Parted f p (part_by_class numecs nul_ec c p)) moved (part_by_class_lem c p t r),
      )

  abbrev Parting : List Nfa → Partition → Partition → Type 0
  Parting ns p p' =
      IsReady p'
      × ((x y : ℕ)
          → x ≢ 0
          → y ≢ 0
          → (leader p'.links x ≡ leader p'.links y) ↔ (
              (leader p.links x ≡ leader p.links y)
              × All
                  (λ (n : Nfa). moves ccls ecgroup x n.transchar ≡ moves ccls ecgroup y n.transchar)
                  ns))
      × ((x : ℕ)
          → x ≢ 0
          → x ≤ numecs
          → p'.symlist x ≡ (p.symlist x || some_moves ccls ecgroup x ns))

  part_loop-Parting :
      (ds : List ℕ) (ns : List Nfa) (p : Partition)
      → Reads nfas ccls ds ns
      → All (λ (n : Nfa). HasSymbol csize ecgroup n.transchar) ns
      → IsReady p
      → (p' : Partition) × (part_loop csize numecs nul_ec nfas ccls ecgroup ds p ≡ ok p')
        × Parting ns p p'
  unfolding part_loop Reads some_moves
  part_loop-Parting [] [] p rd s r =
      (p, refl, (r, (λ x y px py. ((λ e. (e, tt)), λ h. h.0)), λ x px h. ground arith))
  part_loop-Parting [] (n ∷ ns) p rd s r = absurd rd
  part_loop-Parting (i ∷ ds) [] p rd s r = absurd rd
  part_loop-Parting (i ∷ ds) (n ∷ ns) p (e, class, rd) (s, ss) r =
      let (p1, run1, one) = part_by_state_lem n.transchar p class s r in
      let (p2, run2, (ready, classes, symbols)) = part_loop-Parting ds ns p1 rd ss one.ready in
      (
        p2,
        rw (at-some nfas i e) (rw run1 run2),
        (
          ready,
          (λ x y px py. (
            (λ h.
                let (h1, later) = (classes x y px py).0 h in
                let (h0, first) = (one.classes x y px py).0 h1 in (h0, (first, later))),
            λ (h0, (first, later)).
                (classes x y px py).1 ((one.classes x y px py).1 (h0, first), later),
          )),
          λ x px h. ground (arith, symbols x px h, one.symbols x px h),
        ),
      )

  -- For states that are there, whose classes are there as tables of class numbers and whose characters
  -- have classes, and with the flags of mkeccl down, sympartition succeeds and leaves the classes linked. Two symbols are then in
  -- one class exactly if each state of the set goes on with both or with neither, the symbols that some
  -- state goes on with are added to symlist, and the flags are down again.
  pub sympartition-moves :
      (d : ℕ) (ds : List ℕ) (ns : List Nfa) (symlist : ℕ → Bool) (flags : Flags)
      → Reads nfas ccls ds ns
      → All (λ (n : Nfa). HasSymbol csize ecgroup n.transchar) ns
      → ((j : ℕ) → flags j ≡ false)
      → (p : Partition) × (sympartition csize numecs nul_ec nfas ccls ecgroup (d ∷ ds) symlist flags
          ≡ ok p)
        × IsLinked numecs p.links
        × ((x y : ℕ)
            → x ≢ 0
            → y ≢ 0
            → x ≤ numecs
            → y ≤ numecs
            → (leader p.links x ≡ leader p.links y)
              ↔ All
                  (λ (n : Nfa). moves ccls ecgroup x n.transchar ≡ moves ccls ecgroup y n.transchar)
                  ns)
        × ((x : ℕ) → x ≢ 0 → x ≤ numecs → p.symlist x ≡ (symlist x || some_moves ccls ecgroup x ns))
        × ((j : ℕ) → p.flags j ≡ false)
  unfolding sympartition
  sympartition-moves d ds ns symlist flags rd s down =
      let (p, run, (ready, classes, symbols)) =
        part_loop-Parting ds ns
          (record { links = one_class numecs; flags = flags; symlist = symlist }) rd s
          (record { linked = one_class-IsLinked numecs; down = down }) in
      (
        p,
        run,
        ready.linked,
        (λ x y px py hx hy. (
          (λ e. ((classes x y px py).0 e).1),
          λ h.
              (classes x y px py).1
                (one_class-leader numecs x px hx ∙ sym (one_class-leader numecs y py hy), h),
        )),
        symbols,
        ready.down,
      )
