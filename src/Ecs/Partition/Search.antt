-- ===== src/Ecs/Partition/Search.antt =====
-- The search of `mkeccl` in the rest of a class, and the flags of its members.
use flex_cmake_old.Prelude.{
  ℕ, suc, ◌+◌, ◌≤◌, ◌<◌, ◌≡◌, refl, arith, ◌==◌, ltb, inl, inr, Bool-cases, if◌then◌else◌, not,
  ◌&&◌, Bool, true, false, [], ◌∷◌, All, length,
}
use flex_cmake_old.CharacterTable.{CharacterTable, contains, IsAscending, IsClassTable}
use flex_cmake_old.Ecs.Partition.{Flags, map_nul, find_symbol}

-- The place of a member: how many lie before it.
unfoldable pub rank : ℕ → CharacterTable → ℕ
rank x [] = 0
rank x (c ∷ cs) = let rest = rank x cs in if ltb c x then suc rest else 0

-- The members of the rest of a class, from the index `it` on, that are not flagged.
unfoldable pub pending : Flags → (it : ℕ) → CharacterTable → ℕ → Bool
unfolding contains rank
pending flags it cs x = contains x cs && not (flags (it + rank x cs))

pub map_nul_lem : (nul_mapping c : ℕ) → 0 < c → map_nul nul_mapping c ≡ c
unfolding map_nul
map_nul_lem nul_mapping c h = ground arith

-- The members above the first are above each smaller number.
pub contains-below :
    (x c : ℕ) (cs : CharacterTable) → All (λ y. c < y) cs → x ≤ c → contains x cs ≡ false
unfolding contains
contains-below x c [] h le = refl
contains-below x c (d ∷ cs) (h, hs) le = ground (arith, contains-below x c cs hs le)

pub rank-below : (x c : ℕ) (cs : CharacterTable) → All (λ y. c < y) cs → x ≤ c → rank x cs ≡ 0
unfolding rank
rank-below x c [] h le = refl
rank-below x c (d ∷ cs) (h, hs) le = ground arith

pub rank-length : (x : ℕ) (cs : CharacterTable) → contains x cs ≡ true → rank x cs < length cs
unfolding rank contains
rank-length x [] e = ground (arith, e)
rank-length x (c ∷ cs) e = ground (arith, e, rank-length x cs)

pub rank_eq :
    (x y : ℕ) (cs : CharacterTable)
    → IsAscending cs
    → contains x cs ≡ true
    → contains y cs ≡ true
    → rank x cs ≡ rank y cs
    → x ≡ y
unfolding rank contains
rank_eq x y [] a p q e = ground (arith, p)
rank_eq x y (c ∷ cs) (b, a) p q e =
    ground (arith, p, q, e, rank_eq x y cs a, contains-below x c cs b, contains-below y c cs b)

-- The search stops at the symbol, if it is pending, and at a larger member otherwise.
pub record Searched (i : ℕ) (flags : Flags) (js : CharacterTable) (jt : ℕ)
    (r : Bool × CharacterTable × ℕ) : Type 0 where
  pub found : r.0 ≡ pending flags jt js i
  pub place : r.0 ≡ true → r.2 ≡ jt + rank i js
  pub rest : IsClassTable r.1
  pub aligned :
      (x : ℕ) → i < x → (contains x r.1 ≡ contains x js) × (r.2 + rank x r.1 ≡ jt + rank x js)

module _ (nul_mapping i : ℕ) (flags : Flags) where
  pub find_symbol_lem :
      (js : CharacterTable) (jt : ℕ)
      → IsClassTable js
      → Searched i flags js jt (find_symbol nul_mapping i flags js jt)
  unfolding find_symbol pending rank contains IsClassTable
  find_symbol_lem [] jt t = record {
    found = refl;
    place = λ h. absurd (ground (arith, h));
    rest = t;
    aligned = λ x h. (refl, refl);
  }
  find_symbol_lem (j ∷ js) jt ((b, a), (p, ps)) =
      let ih = find_symbol_lem js (jt + 1) (a, ps) in
      rw (map_nul_lem nul_mapping j p) (elim (Bool-cases (ltb i j)) [
        | inl lt ↦ rw lt (record {
          found = ground (arith, contains-below i j js b);
          place = λ h. absurd (ground (arith, h));
          rest = ((b, a), (p, ps));
          aligned = λ x h. (refl, refl);
        })
        | inr ge ↦ rw ge (elim (Bool-cases ((j == i) && not (flags jt))) [
          | inl here ↦ rw here (record {
            found = ground (arith);
            place = λ h. ground arith;
            rest = ((b, a), (p, ps));
            aligned = λ x h. (refl, refl);
          })
          | inr on ↦ rw on (record {
            found = ground (arith, ih.found, contains-below i j js b, rank-below i j js b);
            place = λ h. ground (arith, ih.place h, ih.found, contains-below i j js b);
            rest = ih.rest;
            aligned = λ x h. ground (arith, ih.aligned x h);
          })
        ])
      ])
