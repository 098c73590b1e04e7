-- ===== src/Dfa/Construct/Sets.antt =====
-- The sets that the states of the DFA hold are of NFA states, and fit the vector `nset`.
use flex_cmake_old.Prelude.{
  ℕ, zero, suc, ◌≤◌, ◌<◌, ◌≡◌, refl, ap, ◌∙◌, sym, arith, true, inl, inr, Bool-cases, List, [], ◌∷◌,
  ◌++◌, length, drop, get_elem?, some, All,
}
use flex_cmake_old.Common.{ok, ok_injective}
use flex_cmake_old.CharacterTable.{contains}
use flex_cmake_old.Nfa.State.{Nfa}
use flex_cmake_old.Dfa.{Dfa}
use flex_cmake_old.Dfa.Interning.{StoresSet}
use flex_cmake_old.Dfa.Closure.{Closure, epsclosure}
use flex_cmake_old.Dfa.Closure.Spec.{IsBounded, Reach, here, step}
use flex_cmake_old.Dfa.Closure.Push.{original, HasRoom}
use flex_cmake_old.Dfa.Closure.Correct.{epsclosure-Reach}
use flex_cmake_old.Dfa.Construct.{Machine}

below_each : (n : ℕ) (xs : List ℕ) → ((v : ℕ) → contains v xs ≡ true → v < n) → All (λ v. v < n) xs
unfolding contains
below_each n [] h = tt
below_each n (x ∷ xs) h = (h x (ground arith), below_each n xs (λ v e. h v (ground (arith, e))))

member_below : (n v : ℕ) (xs : List ℕ) → All (λ u. u < n) xs → contains v xs ≡ true → v < n
unfolding contains
member_below n v [] h e = absurd (ground (arith, e))
member_below n v (x ∷ xs) (b, h) e = ground (arith, b, e, member_below n v xs h)

Reach-below :
    (nfas : List Nfa) (init : List ℕ)
    → IsBounded nfas
    → All (λ u. u < length nfas) init
    → {v : ℕ} → Reach nfas init v
    → v < length nfas
Reach-below nfas init b small (here {v} e) = member_below (length nfas) v init small e
Reach-below nfas init b small (step {u} {w} r (_, _, _, inl e)) = rw e (b.first u)
Reach-below nfas init b small (step {u} {w} r (_, _, _, inr e)) = rw e (b.second u)

-- The states of a closure are states.
pub closure-below :
    (nfas : List Nfa) (room : ℕ) (init : List ℕ) (c : Closure)
    → IsBounded nfas
    → HasRoom nfas init room
    → All (λ u. u < length nfas) init
    → epsclosure nfas room (original nfas) init ≡ ok c
    → All (λ v. v < length nfas) c.t
closure-below nfas room init c b fits small e = below_each (length nfas) c.t (λ v m.
    let (c', run, on_stack, _, kept, _, _, _) = epsclosure-Reach nfas room init v b fits small in
    let same : c ≡ c' = ok_injective (sym e ∙ run) in
    let there = sym kept ∙ ap (λ (k : Closure). contains v k.t) (sym same) ∙ m in
    elim (Bool-cases (contains v init)) [
      | inl i ↦ member_below (length nfas) v init small i
      | inr o ↦ Reach-below nfas init b small (on_stack.0 (ground (arith, there, o)))
    ])

-- `sort` keeps bounds, as it only moves the elements.
abbrev pub KeepsBounds : (List ℕ → List ℕ) → Type 0
KeepsBounds sort = (n : ℕ) (xs : List ℕ) → All (λ v. v < n) xs → All (λ v. v < n) (sort xs)

-- The set of a state, with index 0 not used.
abbrev pub SetOf : Machine → (room : ℕ) → Dfa → Type 0
SetOf m room d =
    (z : ℕ) × (is : List ℕ) × (d.dss ≡ z ∷ is)
    × All (λ v. v < length m.nfas) is
    × (length is < room)

pub SetOf-more :
    (m : Machine) (a b : ℕ) (ds : List Dfa) → a ≤ b → All (SetOf m a) ds → All (SetOf m b) ds
SetOf-more m a b [] le h = tt
SetOf-more m a b (d ∷ ds) le ((z, is, e, small, lt), h) =
    ((z, is, e, small, omega (arith, le, lt)), SetOf-more m a b ds le h)

pub SetOf-new :
    (m : Machine) (room : ℕ) (d : Dfa) (states : List ℕ)
    → StoresSet d
    → drop 1 d.dss ≡ states
    → All (λ v. v < length m.nfas) states
    → length states < room
    → SetOf m room d
unfolding StoresSet
SetOf-new m room d states stores e small lt = of_list d.dss refl
  where
    of_list : (xs : List ℕ) → d.dss ≡ xs → SetOf m room d
    of_list [] q = absurd (ground (arith, q, stores))
    of_list (z ∷ is) q =
        let t : is ≡ states = sym (ap (drop 1) q) ∙ e in (z, is, q, rw t small, rw t lt)

pub SetOf-snoc :
    (m : Machine) (room : ℕ) (ds : List Dfa) (d : Dfa)
    → 0 < length ds
    → All (SetOf m room) (drop 1 ds)
    → SetOf m room d
    → All (SetOf m room) (drop 1 (ds ++ (d ∷ [])))
SetOf-snoc m room [] d h a n = absurd (omega (arith, h))
SetOf-snoc m room (x ∷ ds) d h a n = at_end ds a
  where
    at_end : (es : List Dfa) → All (SetOf m room) es → All (SetOf m room) (es ++ (d ∷ []))
    at_end [] a = (n, tt)
    at_end (e ∷ es) (b, a) = (b, at_end es a)

pub SetOf-at :
    (m : Machine) (room : ℕ) (ds : List Dfa) (k : ℕ)
    → k < length ds
    → All (SetOf m room) ds
    → (d : Dfa) × (get_elem? ds k ≡ some d) × SetOf m room d
SetOf-at m room [] k lt h = absurd (omega (arith, lt))
SetOf-at m room (d ∷ ds) zero lt (s, h) = (d, refl, s)
SetOf-at m room (d ∷ ds) (suc k) lt (s, h) = SetOf-at m room ds k (omega (arith, lt)) h
