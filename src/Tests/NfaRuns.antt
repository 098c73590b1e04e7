-- ===== src/Tests/NfaRuns.antt =====
-- The machines for `a` and `b`, joined as the parser does for the pattern ab.
use flex_cmake_old.Prelude.{◌<◌, ◌≡◌, ◌≢◌, ◌↔◌, refl, some, false, [], ◌∷◌, length, arith, inr}
use flex_cmake_old.Prelude.Int.{pos}
use flex_cmake_old.Common.{ok}
use flex_cmake_old.Ecs.{one_class}
use flex_cmake_old.Nfa.State.{StateType, Nfa, RuleType, Builder}
use flex_cmake_old.Nfa.Build.{mkstate, link_machines}
use flex_cmake_old.Nfa.Words.{Word, letters, Cat}
use flex_cmake_old.Nfa.Machine.{Machine, Matches, Unchanged, Machine-Unchanged}
use flex_cmake_old.Nfa.Single.{symbol_label, mkstate-matches, Single-Machine, Single-Unchanged}
use flex_cmake_old.Nfa.View.{label_of}
use flex_cmake_old.Nfa.Link.{Both, link_machines_concatenates}

abbrev unused : Nfa
unused = record {
  firstst = 0;
  lastst = 0;
  finalst = 0;
  transchar = pos 0;
  trans1 = 0;
  trans2 = 0;
  accptnum = 0;
  assoc_rule = 0;
  state_type = StateType.normal;
}

abbrev start : Builder
start = record {
  nfas = unused ∷ [];
  rules = record { type = RuleType.normal; linenum = 0; useful = false; has_nl = false } ∷ [];
  linenum = 1;
  current_state_type = StateType.normal;
  numeps = 0;
  eps2 = 0;
  csize = 128;
  useecs = false;
  links = one_class 128;
}

mkstate-matches_example :
    (s' : Builder) × (mkstate (pos b'a') start ≡ ok (1, s'))
    × Machine s'.nfas (λ x. x ≡ 1) 1 1 (symbol_label (pos b'a'))
    × ((w : Word)
        → Matches s'.nfas 1 1 (symbol_label (pos b'a')) w ↔ (w ≡ letters (symbol_label (pos b'a'))))
    × Unchanged start.nfas s'.nfas (λ x. x < 1)
mkstate-matches_example =
    mkstate-matches (pos b'a') start (inr (omega arith, omega arith)) (omega arith)

abbrev node_a : Nfa
node_a = record unused { firstst = 1; lastst = 1; finalst = 1; transchar = pos b'a' }

abbrev node_b : Nfa
node_b = record unused { firstst = 2; lastst = 2; finalst = 2; transchar = pos b'b' }

abbrev both : Builder
both = record start { nfas = unused ∷ node_a ∷ node_b ∷ [] }

Machine-a : Machine both.nfas (λ x. x ≡ 1) 1 1 (some (pos b'a'))
unfolding label_of
Machine-a =
    Machine-Unchanged
      (record {
        longer = omega arith;
        same = λ x h.
            (Single-Unchanged (unused ∷ node_a ∷ []) node_b (omega arith) refl refl refl).same x
              (omega arith);
      })
      (Single-Machine (unused ∷ []) node_a (omega arith) refl refl refl)

Machine-b : Machine both.nfas (λ x. x ≡ 2) 2 2 (some (pos b'b'))
unfolding label_of
Machine-b = Single-Machine (unused ∷ node_a ∷ []) node_b (omega arith) refl refl refl

link_machines_concatenates_example :
    (s' : Builder) × (link_machines 1 2 both ≡ ok (1, s'))
    × Machine s'.nfas (Both (λ x. x ≡ 1) (λ x. x ≡ 2)) 1 2 (some (pos b'b'))
    × ((w : Word)
        → Matches s'.nfas 1 2 (some (pos b'b')) w
          ↔ Cat
              (Matches both.nfas 1 1 (some (pos b'a')))
              (Matches both.nfas 2 2 (some (pos b'b')))
              w)
    × Unchanged both.nfas s'.nfas (λ x. x ≢ 1)
    × (length s'.nfas ≡ 3)
link_machines_concatenates_example =
    link_machines_concatenates both Machine-a Machine-b (λ x a b. omega arith)
