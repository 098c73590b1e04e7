-- ===== src/Dfa/Ntod/Members.antt =====
-- The sets of the states in the queue of `ntod`, as lists of NFA states.
use flex_cmake_old.Prelude.{
  ℕ, zero, suc, ◌<◌, ◌≡◌, refl, ap, arith, List, [], ◌∷◌, length, drop, get_elem?, some, All,
}
use flex_cmake_old.Nfa.State.{Nfa}
use flex_cmake_old.Dfa.{Dfa}
use flex_cmake_old.Dfa.Closure.Spec.{node_at}
use flex_cmake_old.Dfa.Follow.{Reads}
use flex_cmake_old.Dfa.Partition.Symbols.{HasSymbol}
use flex_cmake_old.Dfa.Construct.{Machine, Work}
use flex_cmake_old.Dfa.Construct.Sets.{SetOf, SetOf-at}
use flex_cmake_old.Dfa.Ntod.Full.{IsWhole, IsReady, members}

at_node : (nfas : List Nfa) (v : ℕ) → v < length nfas → get_elem? nfas v ≡ some (node_at nfas v)
unfolding node_at
at_node [] v h = absurd (omega (arith, h))
at_node (n ∷ nfas) zero h = refl
at_node (n ∷ nfas) (suc v) h = at_node nfas v (omega (arith, h))

pub length-members : (m : Machine) (is : List ℕ) → length (members m is) ≡ length is
length-members m [] = refl
length-members m (i ∷ is) = ap suc (length-members m is)

pub members-Reads :
    (m : Machine)
    → IsWhole m
    → (is : List ℕ) → All (λ v. v < length m.nfas) is
    → Reads m.nfas m.ccls is (members m is)
unfolding Reads
members-Reads m whole [] h = tt
members-Reads m whole (i ∷ is) (b, h) =
    (at_node m.nfas i b, whole.classes i b, members-Reads m whole is h)

pub members-HasSymbol :
    (m : Machine)
    → IsWhole m
    → (is : List ℕ) → All (λ v. v < length m.nfas) is
    → All (λ (n : Nfa). HasSymbol m.csize m.ecgroup n.transchar) (members m is)
members-HasSymbol m whole [] h = tt
members-HasSymbol m whole (i ∷ is) (b, h) = (whole.symbols i b, members-HasSymbol m whole is h)

-- The state at a number of the queue.
pub set_at :
    (m : Machine) (w : Work) (ds : ℕ)
    → IsReady m w
    → ds < w.todo_next
    → (d : Dfa) × (get_elem? w.globals.dfas (suc ds) ≡ some d) × SetOf m (length w.nset) d
set_at m w ds r lt = of_list w.globals.dfas r.sets (omega (arith, r.queue, lt))
  where
    of_list :
        (dfas : List Dfa)
        → All (SetOf m (length w.nset)) (drop 1 dfas)
        → suc ds < length dfas
        → (d : Dfa) × (get_elem? dfas (suc ds) ≡ some d) × SetOf m (length w.nset) d
    of_list [] h l = absurd (omega (arith, l))
    of_list (d ∷ dfas) h l = SetOf-at m (length w.nset) dfas ds (omega (arith, l)) h
