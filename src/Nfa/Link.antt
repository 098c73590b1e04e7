-- ===== src/Nfa/Link.antt =====
-- `link_machines` joins two machines into one for the concatenation of their languages.
use Prim.Native.Nat.{min, max}
use flex_cmake_old.Prelude.{
  ℕ, ◌<◌, ◌≡◌, ◌≢◌, ◌⊎◌, ◌↔◌, ◌∙◌, refl, sym, ap, subst, ◌==◌, if◌then◌else◌, some, length,
  get_elem?, set, arith, inl, inr, Bool-cases, ==_ne, ==_iff, length-set,
}
use flex_cmake_old.Common.{ok}
use flex_cmake_old.Nfa.State.{Nfa, Builder, ◌>>=◌}
use flex_cmake_old.Nfa.Build.{join_machines, link_machines}
use flex_cmake_old.Nfa.Words.{Word, Label, Cat}
use flex_cmake_old.Nfa.Graph.{Region, IsClosed, Includes, Keeps}
use flex_cmake_old.Nfa.Thompson.{link_language}
use flex_cmake_old.Nfa.View.{
  graph, with_transition, SameOut, read_set, set-there, set-other, some_eq, graph-set_back,
  graph-set_forth, graph-add_back, graph-add_forth, graph-add_new,
}
use flex_cmake_old.Nfa.Machine.{
  Ends, Machine, Matches, Unchanged, node_lem, mkxtion_lem, after_xtion,
}

abbrev pub Both : Region → Region → Region
Both A B x = A x ⊎ B x

-- The fields that `link_machines` writes.
unfoldable pub linked : Nfa → Nfa → Nfa
linked f l = record f {
  finalst = l.finalst;
  lastst = max f.lastst l.lastst;
  firstst = min f.firstst l.firstst;
}

linked-SameOut : (f l : Nfa) → SameOut f (linked f l)
unfolding linked
linked-SameOut f l = record { same_char = refl; same_first = refl; same_second = refl }

with_transition_final : (n : Nfa) (to : ℕ) → (with_transition n to).finalst ≡ n.finalst
unfolding with_transition
with_transition_final n to = ground arith

-- The result and its graph, for an entry `b` that is not the exit of the first machine.
module _ (s : Builder) {a fa b fb : ℕ} {ea eb : Label} (p : Ends s.nfas a fa ea)
    (q : Ends s.nfas b fb eb) (differ : b ≢ fa) (member : b ≢ 0) where
  -- The state after the new transition.
  abbrev pub bridged : Builder
  bridged = after_xtion fa b p.tail s

  -- The node of the first entry in it.
  pub entry_node : Nfa
  entry_node = if a == fa then with_transition p.tail b else p.head

  abbrev pub link_result : Builder
  link_result = record bridged { nfas = set bridged.nfas a (linked entry_node q.head) }

  entry_there : get_elem? bridged.nfas a ≡ some entry_node
  unfolding entry_node
  entry_there = elim (Bool-cases (a == fa)) [
    | inl here ↦ rw (read_set s.nfas fa p.tail (with_transition p.tail b) p.tail_there a, here)
    | inr off ↦
        rw (read_set s.nfas fa p.tail (with_transition p.tail b) p.tail_there a, off) p.head_there
  ]

  last_there : get_elem? bridged.nfas b ≡ some q.head
  last_there =
      set-other s.nfas fa p.tail (with_transition p.tail b) p.tail_there b differ ∙ q.head_there

  head_is_tail : a ≡ fa → p.tail.finalst ≡ fa
  head_is_tail e =
      ap (λ n. n.finalst)
        (some_eq (sym p.tail_there ∙ ap (get_elem? s.nfas) (sym e) ∙ p.head_there))
      ∙ p.head_final

  entry_final : entry_node.finalst ≡ fa
  unfolding entry_node
  entry_final = elim (Bool-cases (a == fa)) [
    | inl here ↦ rw here (with_transition_final p.tail b ∙ head_is_tail ((==_iff a fa).0 here))
    | inr off ↦ rw off p.head_final
  ]

  pub join_machines_lem : join_machines a b s ≡ ok (a, link_result)
  unfolding join_machines linked
  join_machines_lem =
      rw
        (
          node_lem a s p.head_there,
          ◌>>=◌,
          p.head_final,
          mkxtion_lem fa b s p.tail_there p.tail_room,
          node_lem a bridged entry_there,
          node_lem b bridged last_there,
        )
        refl

  pub link_result-other :
      (x : ℕ) → x ≢ a → x ≢ fa → get_elem? link_result.nfas x ≡ get_elem? s.nfas x
  link_result-other x na nf =
      set-other bridged.nfas a entry_node (linked entry_node q.head) entry_there x na
      ∙ set-other s.nfas fa p.tail (with_transition p.tail b) p.tail_there x nf

  pub length-link_result : length link_result.nfas ≡ length s.nfas
  length-link_result =
      length-set bridged.nfas a (linked entry_node q.head)
      ∙ length-set s.nfas fa (with_transition p.tail b)

  pub link_result-back :
      (x : ℕ) (l : Label) (y : ℕ)
      → graph link_result.nfas x l y
      → graph s.nfas x l y ⊎ ((x ≡ fa) × (l ≡ ea) × (y ≡ b))
  link_result-back x l y g =
      elim (graph-add_back s.nfas fa p.tail b p.tail_there p.tail_room x l y (
        graph-set_back bridged.nfas a entry_node _ entry_there (linked-SameOut entry_node q.head) x
          l y g)) [ inl old ↦ inl old | inr (u, v, w) ↦ inr (u, v ∙ p.tail_label, w) ]

  pub link_result-forth : Includes (graph link_result.nfas) (graph s.nfas)
  link_result-forth x l y g =
      graph-set_forth bridged.nfas a entry_node _ entry_there (linked-SameOut entry_node q.head) x l
        y (graph-add_forth s.nfas fa p.tail b p.tail_there p.tail_room x l y g)

  pub link_result-bridge : graph link_result.nfas fa ea b
  link_result-bridge =
      subst (λ e. graph link_result.nfas fa e b) p.tail_label
        (graph-set_forth bridged.nfas a entry_node _ entry_there (linked-SameOut entry_node q.head)
          fa _ b (graph-add_new s.nfas fa p.tail b p.tail_there p.tail_room member))

  pub link_result-Ends : fb ≢ a → fb ≢ fa → Ends link_result.nfas a fb eb
  unfolding linked
  link_result-Ends na nf = record {
    head = linked entry_node q.head;
    head_there = set-there bridged.nfas a entry_node (linked entry_node q.head) entry_there;
    head_final = q.head_final;
    tail = q.tail;
    tail_there = link_result-other fb na nf ∙ q.tail_there;
    tail_room = q.tail_room;
    tail_label = q.tail_label;
    tail_order = q.tail_order;
  }

module _ (s : Builder) {A B : Region} {a fa b fb : ℕ} {ea eb : Label} (p : Machine s.nfas A a fa ea)
    (q : Machine s.nfas B b fb eb) (apart : (x : ℕ) → A x → ¬ B x) where
  b_differs : (x : ℕ) → B x → (x ≢ a) × (x ≢ fa)
  b_differs x h =
      (λ e. apart x (subst A (sym e) p.entry) h, λ e. apart x (subst A (sym e) p.exit) h)

  a_differs : (x : ℕ) → ¬ A x → (x ≢ a) × (x ≢ fa)
  a_differs x h = (λ e. h (subst A (sym e) p.entry), λ e. h (subst A (sym e) p.exit))

  entry_differs : b ≢ fa
  entry_differs = (b_differs b q.entry).1

  entry_member : b ≢ 0
  entry_member = (q.inside b q.entry).0

  abbrev result : Builder
  result = link_result s p.ends q.ends entry_differs entry_member

  keeps_b : Keeps (graph result.nfas) (graph s.nfas) B
  keeps_b x l y h g = elim (link_result-back s p.ends q.ends entry_differs entry_member x l y g) [
    | inl old ↦ old
    | inr (e, _, _) ↦ absurd (apart x (subst A (sym e) p.exit) h)
  ]

  closed_both : IsClosed (graph result.nfas) (Both A B)
  closed_both x l y (inl h) g =
      elim (link_result-back s p.ends q.ends entry_differs entry_member x l y g) [
        | inl old ↦ inl (p.closed x l y h old)
        | inr (_, _, e) ↦ inr (subst B (sym e) q.entry)
      ]
  closed_both x l y (inr h) g = inr (q.closed x l y h (keeps_b x l y h g))

  inside_both : (x : ℕ) → Both A B x → (x ≢ 0) × (x < length result.nfas)
  inside_both x (inl h) = (
    (p.inside x h).0,
    rw (length-link_result s p.ends q.ends entry_differs entry_member) (p.inside x h).1,
  )
  inside_both x (inr h) = (
    (q.inside x h).0,
    rw (length-link_result s p.ends q.ends entry_differs entry_member) (q.inside x h).1,
  )

  result-Machine : Machine result.nfas (Both A B) a fb eb
  result-Machine = record {
    ends =
        link_result-Ends s p.ends q.ends entry_differs entry_member (b_differs fb q.exit).0
          (b_differs fb q.exit).1;
    entry = inl p.entry;
    exit = inr q.exit;
    closed = closed_both;
    inside = inside_both;
  }

  -- For two machines with no state in common `link_machines` succeeds and returns the first. It is
  -- then a machine on the states of both, which ends where the second ended, and matches exactly
  -- the words that are a word of the first followed by a word of the second. No state outside the
  -- first machine changes, and none is made.
  pub link_machines_concatenates :
      (s' : Builder) × (link_machines a b s ≡ ok (a, s'))
      × Machine s'.nfas (Both A B) a fb eb
      × ((w : Word)
          → Matches s'.nfas a fb eb w ↔ Cat (Matches s.nfas a fa ea) (Matches s.nfas b fb eb) w)
      × Unchanged s.nfas s'.nfas (λ x. ¬ A x)
      × (length s'.nfas ≡ length s.nfas)
  unfolding link_machines
  link_machines_concatenates = (
    result,
    rw (==_ne a 0 (p.inside a p.entry).0, ==_ne b 0 entry_member)
        (join_machines_lem s p.ends q.ends entry_differs entry_member),
    result-Machine,
    link_language eb (link_result-forth s p.ends q.ends entry_differs entry_member) p.closed
        q.closed apart p.entry q.entry q.exit
        (λ x l y _ g. link_result-back s p.ends q.ends entry_differs entry_member x l y g) keeps_b
        (link_result-bridge s p.ends q.ends entry_differs entry_member),
    record {
      longer = rw (length-link_result s p.ends q.ends entry_differs entry_member) (omega arith);
      same = λ x h.
          link_result-other s p.ends q.ends entry_differs entry_member x (a_differs x h).0
            (a_differs x h).1;
    },
    length-link_result s p.ends q.ends entry_differs entry_member,
  )
