-- ===== src/Ecs/Partition/Along.antt =====
-- The loop of `mkeccl` along a class, with the search and the flags.
use flex_cmake_old.Prelude.{
  ℕ, zero, suc, ◌+◌, ◌≤◌, ◌<◌, ◌≡◌, ◌≢◌, ◌∙◌, sym, arith, ◌==◌, ltb, leb, inl, inr, Bool-cases,
  if◌then◌else◌, not, ◌&&◌, ◌||◌, Bool, true, false, length, subst,
}
use flex_cmake_old.CharacterTable.{CharacterTable, contains, IsAscending, IsClassTable}
use flex_cmake_old.Ecs.{Links, update}
use flex_cmake_old.Ecs.Linked.{IsLinked}
use flex_cmake_old.Ecs.Leader.{leader, next-le}
use flex_cmake_old.Ecs.Partition.{
  Flags, Walk, set_flag, find_symbol, join_new, join_old, walk_step, walk_loop,
}
use flex_cmake_old.Ecs.Partition.Lists.{Parted, join_new-Parted, join_old-Parted}
use flex_cmake_old.Ecs.Partition.Search.{
  rank, pending, rank_eq, rank-length, Searched, find_symbol_lem,
}

-- To flag a member takes it from the pending ones, and no other.
set_flag-pending :
    (flags : Flags) (it : ℕ) (cs : CharacterTable) (i x : ℕ)
    → IsAscending cs
    → contains i cs ≡ true
    → pending (set_flag flags (it + rank i cs) true) it cs x
      ≡ (pending flags it cs x && not (x == i))
unfolding pending set_flag
set_flag-pending flags it cs i x a h = ground (arith, h, rank_eq x i cs a)

module _ {num : ℕ} {l0 : Links} (w : IsLinked num l0) (c : ℕ) (inside : ℕ → Bool) (flags0 : Flags)
    (rest : CharacterTable) (jt0 : ℕ) (up : IsAscending rest)
    (is_inside : (x : ℕ) → c < x → inside x ≡ pending flags0 jt0 rest x) where
  -- The later members of the class that are visited when `i` is next.
  abbrev pub passed : (i x : ℕ) → Bool
  passed i x = (leader l0 x == leader l0 c) && (ltb c x && ((i == 0) || ltb x i))

  pub record Walked (i : ℕ) (s : Walk) : Type 0 where
    pub lists : Parted w c inside i s.oldec s.newec s.links
    pub table : IsClassTable s.js
    pub aligned :
        (x : ℕ)
        → i ≢ 0
        → i ≤ x
        → (contains x s.js ≡ contains x rest) × (s.jt + rank x s.js ≡ jt0 + rank x rest)
    pub flagged :
        (x : ℕ) → pending s.flags jt0 rest x ≡ (pending flags0 jt0 rest x && not (passed i x))
    pub clean : (j : ℕ) → (jt0 ≤ j → jt0 + length rest ≤ j) → s.flags j ≡ flags0 j

  module _ (nul_mapping i : ℕ) (p : i ≢ 0) (s : Walk) (v : Walked i s) where
    searched : Searched i s.flags s.js s.jt (find_symbol nul_mapping i s.flags s.js s.jt)
    searched = find_symbol_lem nul_mapping i s.flags s.js s.jt v.table

    found_inside : (find_symbol nul_mapping i s.flags s.js s.jt).0 ≡ inside i
    unfolding pending
    found_inside =
        ground (arith, searched.found, v.aligned i p, v.flagged i, is_inside i, v.lists.next p)

    passed_fwd : (x : ℕ) → passed (s.links.fwd i) x ≡ (passed i x || (x == i))
    passed_fwd x = ground (arith, v.lists.next p, v.lists.ahead i p, next-le w i x, w.fwd_up i)

    e_new : update s.links.fwd s.newec i i ≡ s.links.fwd i
    unfolding update
    e_new = ground (arith, v.lists.next p)

    e_old : (if s.oldec == 0 then s.links.fwd else update s.links.fwd s.oldec i) i ≡ s.links.fwd i
    unfolding update
    e_old = ground (arith, v.lists.next p)

    beyond :
        (x : ℕ)
        → s.links.fwd i ≢ 0
        → s.links.fwd i ≤ x
        → (contains x (find_symbol nul_mapping i s.flags s.js s.jt).1 ≡ contains x rest)
          × ((find_symbol nul_mapping i s.flags s.js s.jt).2
                + rank x (find_symbol nul_mapping i s.flags s.js s.jt).1
              ≡ jt0 + rank x rest)
    beyond x h le = ground (arith, searched.aligned x, v.aligned x p, v.lists.ahead i p, w.fwd_up i)

    place :
        (find_symbol nul_mapping i s.flags s.js s.jt).0 ≡ true
        → ((find_symbol nul_mapping i s.flags s.js s.jt).2 ≡ jt0 + rank i rest)
          × (contains i rest ≡ true)
    unfolding pending
    place h = ground (arith, h, searched.place h, searched.found, v.aligned i p)

    pending_i :
        (find_symbol nul_mapping i s.flags s.js s.jt).0 ≡ false → pending flags0 jt0 rest i ≡ false
    pending_i h = ground (arith, h, found_inside, is_inside i, v.lists.next p)

    pub walk_step-Walked :
        Walked ((walk_step nul_mapping i s).links.fwd i) (walk_step nul_mapping i s)
    unfolding walk_step join_new join_old update set_flag
    walk_step-Walked =
        let r = find_symbol nul_mapping i s.flags s.js s.jt in
        elim (Bool-cases r.0) [
          | inl found ↦ rw found (record {
            lists = rw e_new (join_new-Parted w c inside p (sym found_inside ∙ found) v.lists);
            table = searched.rest;
            aligned = λ x h le. beyond x (λ z. h (e_new ∙ z)) (rw e_new at le);
            flagged = λ x. rw (place found).0 (
                rw e_new (
                  ground (
                    arith,
                    set_flag-pending s.flags jt0 rest i x up (place found).1,
                    v.flagged x,
                    passed_fwd x,
                  )));
            clean = λ j h.
                ground (arith, (place found).0, rank-length i rest (place found).1, v.clean j h, h);
          })
          | inr not_found ↦ rw not_found (record {
            lists = rw e_old (join_old-Parted w c inside p (sym found_inside ∙ not_found) v.lists);
            table = searched.rest;
            aligned = λ x h le. beyond x (λ z. h (e_old ∙ z)) (rw e_old at le);
            flagged =
                λ x. rw e_old (ground (arith, v.flagged x, passed_fwd x, pending_i not_found));
            clean = v.clean;
          })
        ]

  pub walk_loop-Walked :
      (nul_mapping fuel i : ℕ) (s : Walk)
      → (i ≢ 0 → num < fuel + i)
      → Walked i s
      → Walked 0 (walk_loop nul_mapping num fuel i s)
  unfolding walk_loop
  walk_loop-Walked nul_mapping zero i s h v =
      subst (λ j. Walked j s) (ground (arith, h, v.lists.next)) v
  walk_loop-Walked nul_mapping (suc fuel) i s h v = elim (Bool-cases (i == 0)) [
    | inl nil ↦ rw nil (subst (λ j. Walked j s) (ground arith) v)
    | inr more ↦
        let v' = walk_step-Walked nul_mapping i (ground arith) s v in
        let on : (not (i == 0) && leb i num) ≡ true = ground (arith, v.lists.next) in
        rw on (
          walk_loop-Walked nul_mapping fuel ((walk_step nul_mapping i s).links.fwd i)
            (walk_step nul_mapping i s) (λ n. ground (arith, v'.lists.next n, v.lists.next)) v')
  ]
