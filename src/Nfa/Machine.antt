-- ===== src/Nfa/Machine.antt =====
-- A machine in the vector `nfas`: a region with an entry and an exit that has a free slot, and what
-- the calls of src/nfa.cpp return on such machines.
use flex_cmake_old.Prelude.{
  ℕ, ◌+◌, ◌≤◌, ◌<◌, ◌≡◌, ◌≢◌, ◌∙◌, refl, sym, ◌==◌, if◌then◌else◌, true, some, List, [], ◌∷◌, ◌++◌,
  length, get_elem?, set, arith, inl, inr, Bool-cases,
}
use flex_cmake_old.Common.{ok}
use flex_cmake_old.Nfa.State.{Nfa, Builder, sym_epsilon, is_epsilon, node, ◌>>=◌}
use flex_cmake_old.Nfa.Build.{fresh_nfa, mkstate, mkxtion}
use flex_cmake_old.Nfa.Words.{Label, Language}
use flex_cmake_old.Nfa.Graph.{Region, IsClosed, Lang}
use flex_cmake_old.Nfa.View.{Out, first, second, graph, label_of, has_room, with_transition}

-- The entry names the exit, and the exit has room for a transition, in its first slot first.
pub record Ends (nfas : List Nfa) (m f : ℕ) (e : Label) : Type 0 where
  pub head : Nfa
  pub head_there : get_elem? nfas m ≡ some head
  pub head_final : head.finalst ≡ f
  pub tail : Nfa
  pub tail_there : get_elem? nfas f ≡ some tail
  pub tail_room : has_room tail ≡ true
  pub tail_label : label_of tail ≡ e
  pub tail_order : tail.trans1 ≡ 0 → tail.trans2 ≡ 0

pub record Machine (nfas : List Nfa) (P : Region) (m f : ℕ) (e : Label) : Type 0 where
  pub ends : Ends nfas m f e
  pub entry : P m
  pub exit : P f
  pub closed : IsClosed (graph nfas) P
  pub inside : (x : ℕ) → P x → (x ≢ 0) × (x < length nfas)

-- The words that the machine matches.
abbrev pub Matches : List Nfa → ℕ → ℕ → Label → Language
Matches nfas m f e = Lang (graph nfas) m f e

-- The vector has grown, and its states in P are as they were.
pub record Unchanged (nfas nfas' : List Nfa) (P : Region) : Type 0 where
  pub longer : length nfas ≤ length nfas'
  pub same : (x : ℕ) → P x → get_elem? nfas' x ≡ get_elem? nfas x

pub Ends-same :
    {nfas nfas' : List Nfa} {m f : ℕ} {e : Label}
    → get_elem? nfas' m ≡ get_elem? nfas m
    → get_elem? nfas' f ≡ get_elem? nfas f
    → Ends nfas m f e
    → Ends nfas' m f e
Ends-same same_m same_f a = record {
  head = a.head;
  head_there = same_m ∙ a.head_there;
  head_final = a.head_final;
  tail = a.tail;
  tail_there = same_f ∙ a.tail_there;
  tail_room = a.tail_room;
  tail_label = a.tail_label;
  tail_order = a.tail_order;
}

-- A machine survives what leaves its region alone.
pub Machine-Unchanged :
    {nfas nfas' : List Nfa} {P : Region} {m f : ℕ} {e : Label}
    → Unchanged nfas nfas' P
    → Machine nfas P m f e
    → Machine nfas' P m f e
Machine-Unchanged u a = record {
  ends = Ends-same (u.same _ a.entry) (u.same _ a.exit) a.ends;
  entry = a.entry;
  exit = a.exit;
  closed = λ p l q h (n, e, o). a.closed p l q h (n, sym (u.same p h) ∙ e, o);
  inside = λ x h. ((a.inside x h).0, omega (arith, (a.inside x h).1, u.longer));
}

-- The calls, on nodes that are there.
pub node_lem : (i : ℕ) (s : Builder) {n : Nfa} → get_elem? s.nfas i ≡ some n → node i s ≡ ok (n, s)
unfolding node
node_lem i s e = rw (e, node)

-- The state after `mkxtion` has used a free slot.
abbrev pub after_xtion : (statefrom stateto : ℕ) → Nfa → Builder → Builder
after_xtion statefrom stateto n s = record s {
  nfas = set s.nfas statefrom (with_transition n stateto);
  eps2 = if n.trans1 == 0 then s.eps2 else s.eps2 + 1;
}

pub mkxtion_lem :
    (statefrom stateto : ℕ) (s : Builder) {n : Nfa}
    → get_elem? s.nfas statefrom ≡ some n
    → has_room n ≡ true
    → mkxtion statefrom stateto s ≡ ok (tt, after_xtion statefrom stateto n s)
unfolding mkxtion has_room with_transition
mkxtion_lem statefrom stateto s {n} e room =
    rw (node_lem statefrom s e, ◌>>=◌)
      (elim (Bool-cases (n.trans1 == 0)) [
        | inl free ↦ rw free
        | inr used ↦
            let epsilon : is_epsilon n.transchar ≡ true = ground arith in
            let free : (n.trans2 == 0) ≡ true = ground arith in rw (used, epsilon, free)
      ])

abbrev pub after_epsilon : Builder → Builder
after_epsilon s = record s {
  nfas = s.nfas ++ (fresh_nfa s sym_epsilon ∷ []);
  numeps = s.numeps + 1;
}

pub mkstate-epsilon : (s : Builder) → mkstate sym_epsilon s ≡ ok (length s.nfas, after_epsilon s)
unfolding mkstate
mkstate-epsilon s = refl

pub fresh-free : (s : Builder) (l : Label) (q : ℕ) → ¬ Out (fresh_nfa s sym_epsilon) l q
unfolding fresh_nfa
fresh-free s l q (first a b c) = c b
fresh-free s l q (second a b c d) = d c
