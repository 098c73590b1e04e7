-- ===== src/Dfa/Construct/Vectors.antt =====
-- The vectors of `ntod`, and their elements from index 1 on.
use flex_cmake_old.Prelude.{
  ℕ, zero, suc, ◌+◌, ◌-◌, ◌≤◌, ◌<◌, ◌≡◌, refl, ap, ◌∙◌, sym, arith, ltb, leb, ◌&&◌, Bool-cases, inl,
  inr, Bool, List, [], ◌∷◌, ◌++◌, length, take, drop, replicate, length-replicate, length-append,
}
use mathlib.Core.Option.{some-injective}
use flex_cmake_old.Common.{ok, fault, ok_injective}
use flex_cmake_old.Dfa.{Dfas, Interned, sort_slots, sorted_accset, interned, snstods}
use flex_cmake_old.Dfa.Interning.{length-take}
use flex_cmake_old.Dfa.Follow.{Holds}
use flex_cmake_old.Dfa.Construct.{stored, with_slots}

Holds-tail : (x : ℕ) (xs T : List ℕ) (k : ℕ) → Holds (x ∷ xs) (suc k) T → Holds xs k T
unfolding Holds
Holds-tail x xs [] k h = tt
Holds-tail x xs (t ∷ T) k (e, h) = (e, Holds-tail x xs T (suc k) h)

Holds-prefix : (xs T : List ℕ) → Holds xs 0 T → take (length T) xs ≡ T
unfolding Holds
Holds-prefix xs [] h = refl
Holds-prefix [] (t ∷ T) (e, h) = absurd (ground (arith, e))
Holds-prefix (x ∷ xs) (t ∷ T) (e, h) =
    let same : x ≡ t = some-injective x t e in
    rw same (ap (λ r. t ∷ r) (Holds-prefix xs T (Holds-tail x xs T 0 h)))

-- The elements from index 1 on that a vector holds.
pub Holds-take : (xs T : List ℕ) → Holds xs 1 T → take (length T) (drop 1 xs) ≡ T
unfolding Holds
Holds-take [] [] h = refl
Holds-take [] (t ∷ T) (e, h) = absurd (ground (arith, e))
Holds-take (x ∷ xs) T h = Holds-prefix xs T (Holds-tail x xs T 0 h)

parts : (n : ℕ) (xs : List ℕ) → length (take n xs) + length (drop n xs) ≡ length xs
parts zero xs = omega arith
parts (suc n) [] = refl
parts (suc n) (x ∷ xs) = ground (arith, parts n xs)

take_append : (ys zs : List ℕ) → take (length ys) (ys ++ zs) ≡ ys
take_append [] zs = refl
take_append (y ∷ ys) zs = ap (λ r. y ∷ r) (take_append ys zs)

pub take-stored : (ys xs : List ℕ) → 0 < length xs → take (length ys) (drop 1 (stored ys xs)) ≡ ys
unfolding stored
take-stored ys [] h = absurd (ground (arith, h))
take-stored ys (x ∷ xs) h = take_append ys (drop (length ys) xs)

pub length-stored : (ys xs : List ℕ) → length ys < length xs → length (stored ys xs) ≡ length xs
unfolding stored
length-stored ys [] h = absurd (omega (arith, h))
length-stored ys (x ∷ xs) h = ground (
  arith,
  h,
  length-append ys (drop (length ys) xs),
  parts (length ys) xs,
  length-take (length ys) xs,
)

pub length-with_slots :
    (n : ℕ) (xs : List ℕ) → (length xs ≤ length (with_slots n xs)) × (n < length (with_slots n xs))
unfolding with_slots
length-with_slots n xs = ground (
  arith,
  length-append xs (replicate (suc n - length xs) 0),
  length-replicate {A = ℕ} (suc n - length xs) 0,
)

not_ok : {A : Type 0} {a : A} → fault ≡ ok a → ⊥
not_ok e = cc

module _ (sort : List ℕ → List ℕ) (keeps : (xs : List ℕ) → length (sort xs) ≡ length xs) where
  length-sort_slots : (n : ℕ) (xs : List ℕ) → length (sort_slots sort n xs) ≡ length xs
  unfolding sort_slots
  length-sort_slots n [] = refl
  length-sort_slots n (x ∷ xs) =
      ground (arith, length-append (sort (take n xs)) (drop n xs), keeps (take n xs), parts n xs)

  sorted :
      (flag nacc : ℕ) (reject : Bool) (accset : List ℕ)
      → length (sorted_accset sort flag nacc reject accset) ≡ length accset
  unfolding sorted_accset
  sorted flag nacc reject accset = ground (arith, length-sort_slots nacc accset)

  pub snstods-length :
      (sns : List ℕ) (numstates : ℕ) (accset : List ℕ) (nacc hashval : ℕ) (t : Dfas) (r : Interned)
      → snstods sort sns numstates accset nacc hashval t ≡ ok r
      → (length r.sns ≡ length sns) × (length r.accset ≡ length accset)
  unfolding snstods interned sorted_accset
  snstods-length sns numstates accset nacc hashval t r e =
      elim (Bool-cases (ltb numstates (length sns) && leb nacc (length accset - 1))) [
        | inl fits ↦
            let q : interned sort sns numstates accset nacc hashval t ≡ r =
              ok_injective (rw fits at e) in
            (
              ap (λ (i : Interned). length i.sns) (sym q) ∙ length-sort_slots numstates sns,
              ap (λ (i : Interned). length i.accset) (sym q)
                  ∙ sorted (interned sort sns numstates accset nacc hashval t).flag nacc t.reject
                      accset,
            )
        | inr over ↦ absurd (not_ok (rw over at e))
      ]
