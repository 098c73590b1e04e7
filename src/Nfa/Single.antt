-- ===== src/Nfa/Single.antt =====
-- `mkstate` makes a machine of one state.
use flex_cmake_old.Prelude.{
  ℕ, ◌+◌, ◌≤◌, ◌<◌, ◌≡◌, ◌≢◌, ◌⊎◌, ◌↔◌, ◌∙◌, refl, sym, ap, subst, if◌then◌else◌, none, some, List,
  [], ◌∷◌, ◌++◌, length, get_elem?, arith, inl, inr, Bool-cases, ==_ne, get_elem?-snoc,
  get_elem?-append_back, length-append,
}
use flex_cmake_old.Prelude.Int.{ℤ, pos, negsuc}
use flex_cmake_old.Common.{ok, check_char-ok, csize_max}
use flex_cmake_old.Nfa.State.{Nfa, Builder, is_epsilon, ◌>>=◌}
use flex_cmake_old.Nfa.Build.{part_character, fresh_nfa, fix_classes, mkstate}
use flex_cmake_old.Nfa.Words.{Word, Label, letters}
use flex_cmake_old.Nfa.Graph.{Region, IsDead, here, Run-IsDead}
use flex_cmake_old.Nfa.View.{Out, first, second, graph, label_of, has_room, some_eq}
use flex_cmake_old.Nfa.Machine.{Machine, Matches, Unchanged}

-- The symbols that `mkstate` takes: a class, epsilon or a character of the scanner's set.
abbrev pub IsSymbol : ℕ → ℤ → Type 0
IsSymbol csize (negsuc k) = Unit
IsSymbol csize (pos c) = (c ≡ 257) ⊎ ((c < csize) × (csize ≤ csize_max))

-- What a state consumes on its way out.
unfoldable pub symbol_label : ℤ → Label
symbol_label c = if is_epsilon c then none else some c

part_character_nfas : (c : ℕ) (s : Builder) → (part_character c s).nfas ≡ s.nfas
unfolding part_character
part_character_nfas c s = elim (Bool-cases s.useecs) [ inl e ↦ rw e refl | inr e ↦ rw e refl ]

fix_classes_lem :
    (sym : ℤ) (s : Builder)
    → IsSymbol s.csize sym
    → (s' : Builder) × (fix_classes sym s ≡ ok (tt, s')) × (s'.nfas ≡ s.nfas)
unfolding fix_classes
fix_classes_lem (negsuc k) s h = (s, refl, refl)
fix_classes_lem (pos c) s (inl e) = (record s { numeps = s.numeps + 1 }, rw e refl, refl)
fix_classes_lem (pos c) s (inr (lt, le)) = (
  part_character c s,
  rw (==_ne c 257 (omega arith), check_char-ok s.csize c lt le) refl,
  part_character_nfas c s,
)

-- A state that has just been put behind the vector.
module _ (nfas : List Nfa) (n : Nfa) (member : length nfas ≢ 0) (own : n.finalst ≡ length nfas)
    (slot1 : n.trans1 ≡ 0) (slot2 : n.trans2 ≡ 0) where
  abbrev pub Only : Region
  Only x = x ≡ length nfas

  free : (l : Label) (q : ℕ) → ¬ Out n l q
  free l q (first a b c) = c (b ∙ slot1)
  free l q (second a b c d) = d (c ∙ slot2)

  there : get_elem? (nfas ++ (n ∷ [])) (length nfas) ≡ some n
  there = get_elem?-append_back nfas n []

  pub Single-IsDead : IsDead (graph (nfas ++ (n ∷ []))) (length nfas)
  Single-IsDead l q (k, e, o) = free l q (subst (λ x. Out x l q) (some_eq (sym e ∙ there)) o)

  pub Single-Machine : Machine (nfas ++ (n ∷ [])) Only (length nfas) (length nfas) (label_of n)
  unfolding has_room
  Single-Machine = record {
    ends = record {
      head = n;
      head_there = there;
      head_final = own;
      tail = n;
      tail_there = there;
      tail_room = rw slot1;
      tail_label = refl;
      tail_order = λ _. slot2;
    };
    entry = refl;
    exit = refl;
    closed =
        λ p l q h g. absurd (Single-IsDead l q (subst (λ x. graph (nfas ++ (n ∷ [])) x l q) h g));
    inside = λ x h. (λ e. member (sym h ∙ e), rw length-append (omega (arith, h)));
  }

  pub Single-Matches :
      (w : Word)
      → Matches (nfas ++ (n ∷ [])) (length nfas) (length nfas) (label_of n) w
        ↔ (w ≡ letters (label_of n))
  Single-Matches w = (
    λ (u, r, e). e ∙ ap (λ x. x ++ letters (label_of n)) (Run-IsDead Single-IsDead r),
    λ e. ([], here, e),
  )

  pub Single-Unchanged : Unchanged nfas (nfas ++ (n ∷ [])) (λ x. x < length nfas)
  Single-Unchanged = record {
    longer = rw length-append (omega arith);
    same = λ x h. get_elem?-snoc nfas x n ∙ rw (==_ne x (length nfas) (omega arith));
  }

-- For an allowed symbol, in a vector that has its unused first entry, `mkstate` succeeds, returns the
-- index behind the last state and makes that state, alone, a machine: it matches the symbol, or
-- the empty word if the symbol is SYM_EPSILON, and nothing else. No other state changes.
pub mkstate-matches :
    (sym : ℤ) (s : Builder)
    → IsSymbol s.csize sym
    → length s.nfas ≢ 0
    → (s' : Builder) × (mkstate sym s ≡ ok (length s.nfas, s'))
      × Machine s'.nfas (λ x. x ≡ length s.nfas) (length s.nfas) (length s.nfas) (symbol_label sym)
      × ((w : Word)
          → Matches s'.nfas (length s.nfas) (length s.nfas) (symbol_label sym) w
            ↔ (w ≡ letters (symbol_label sym)))
      × Unchanged s.nfas s'.nfas (λ x. x < length s.nfas)
unfolding mkstate symbol_label label_of fresh_nfa
mkstate-matches sym s allowed member =
    let n = fresh_nfa s sym in
    let (s', e, same) = fix_classes_lem sym (record s { nfas = s.nfas ++ (n ∷ []) }) allowed in
    (
      s',
      rw (e, ◌>>=◌) refl,
      rw same (Single-Machine s.nfas n member refl refl refl),
      rw same (Single-Matches s.nfas n member refl refl refl),
      rw same (Single-Unchanged s.nfas n member refl refl refl),
    )
