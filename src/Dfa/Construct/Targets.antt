-- ===== src/Dfa/Construct/Targets.antt =====
-- The successors of a state set on a symbol, and the list of the states a row leads to.
use flex_cmake_old.Prelude.{
  ℕ, zero, suc, ◌+◌, ◌<◌, ◌≡◌, refl, subst, arith, ◌==◌, Bool, true, false, ◌||◌, inl, inr,
  Bool-cases, List, [], ◌∷◌, ◌++◌, length, get_elem?, some, All,
}
use mathlib.Core.Option.{some-injective}
use flex_cmake_old.Prelude.Int.{ℤ}
use flex_cmake_old.Common.{ok}
use flex_cmake_old.Ccl.{CharacterClasses}
use flex_cmake_old.Nfa.State.{Nfa}
use flex_cmake_old.Dfa.Closure.Loop.{bind-ok}
use flex_cmake_old.Dfa.Closure.Spec.{IsBounded, node_at}
use flex_cmake_old.Dfa.Follow.{Reads, moves, targets}
use flex_cmake_old.Dfa.Partition.Symbols.{some_moves}
use flex_cmake_old.Dfa.Construct.{count_target}

node_at-some : (nfas : List Nfa) (i : ℕ) (n : Nfa) → get_elem? nfas i ≡ some n → node_at nfas i ≡ n
unfolding node_at
node_at-some [] i n e = absurd (ground (arith, e))
node_at-some (x ∷ nfas) zero n e = some-injective x n e
node_at-some (x ∷ nfas) (suc i) n e = node_at-some nfas i n e

module _ (nfas : List Nfa) (ccls : CharacterClasses) (ecgroup : ℕ → ℤ) where
  -- They are states.
  pub targets-small :
      IsBounded nfas
      → (x : ℕ) (is : List ℕ) (ns : List Nfa) → Reads nfas ccls is ns
      → All (λ v. v < length nfas) (targets ccls ecgroup x ns)
  unfolding targets Reads
  targets-small b x [] [] r = tt
  targets-small b x [] (n ∷ ns) r = absurd r
  targets-small b x (i ∷ is) [] r = absurd r
  targets-small b x (i ∷ is) (n ∷ ns) (e, _, r) =
      elim (Bool-cases (moves ccls ecgroup x n.transchar)) [
        | inl m ↦ rw m (
          subst (λ (n' : Nfa). n'.trans1 < length nfas) (node_at-some nfas i n e) (b.first i),
          targets-small b x is ns r,
        )
        | inr m ↦ rw m (targets-small b x is ns r)
      ]

  -- Two symbols on which the states go on alike have the same.
  pub same_moves :
      (x y : ℕ) (ns : List Nfa)
      → All (λ (n : Nfa). moves ccls ecgroup x n.transchar ≡ moves ccls ecgroup y n.transchar) ns
      → (targets ccls ecgroup x ns ≡ targets ccls ecgroup y ns)
        × (some_moves ccls ecgroup x ns ≡ some_moves ccls ecgroup y ns)
  unfolding targets some_moves
  same_moves x y [] h = (refl, refl)
  same_moves x y (n ∷ ns) (e, h) = let (t, s) = same_moves x y ns h in rw (e, t, s) (refl, refl)

-- A target of the row.
unfoldable pub has_target : (targ : ℕ) → List (ℕ × ℕ) → Bool
has_target targ [] = false
has_target targ ((freq, target) ∷ rest) = (target == targ) || has_target targ rest

pub has_target-snoc :
    (targ f new : ℕ) (ts : List (ℕ × ℕ))
    → has_target targ (ts ++ ((f, new) ∷ [])) ≡ (has_target targ ts || (new == targ))
unfolding has_target
has_target-snoc targ f new [] = ground arith
has_target-snoc targ f new ((g, s) ∷ ts) = ground (arith, has_target-snoc targ f new ts)

-- A target is found, and counting it changes no target.
pub count_target_lem :
    (targ : ℕ) (ts : List (ℕ × ℕ))
    → has_target targ ts ≡ true
    → (ts' : List (ℕ × ℕ)) × (count_target targ ts ≡ ok ts')
      × ((t : ℕ) → has_target t ts' ≡ has_target t ts)
unfolding count_target has_target
count_target_lem targ [] h = absurd (ground (arith, h))
count_target_lem targ ((freq, target) ∷ rest) h = elim (Bool-cases (target == targ)) [
  | inl here ↦ rw here ((freq + 1, target) ∷ rest, refl, λ t. refl)
  | inr later ↦
      let (rest', run, same) = count_target_lem targ rest (ground (arith, h)) in
      rw later ((freq, target) ∷ rest', bind-ok _ _ run, λ t. ground (arith, same t))
]
