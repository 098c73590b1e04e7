-- ===== src/Tests/SymRuns.antt =====
-- A start condition is installed.
use flex_cmake_old.Prelude.{◌≡◌, refl, true, false, [], ◌∷◌, length, get_elem?, some}
use flex_cmake_old.Common.{ok}
use flex_cmake_old.Nfa.State.{Builder, StateType}
use flex_cmake_old.Nfa.Machine.{after_epsilon}
use flex_cmake_old.Ecs.{one_class}
use flex_cmake_old.Sym.{same_name, Symbols, sclookup, scinstal}
use flex_cmake_old.Sym.Install.{scinstal-sclookup}

abbrev no_states : Builder
no_states = record {
  nfas = [];
  rules = [];
  linenum = 1;
  current_state_type = StateType.normal;
  numeps = 0;
  eps2 = 0;
  csize = 256;
  useecs = false;
  links = one_class 256;
}

-- INITIAL, written as its first letter, is at index 1.
abbrev initial_only : Symbols
initial_only = record {
  sctbl = (73 ∷ [], 1) ∷ [];
  start_conditions =
      record { name = []; set = 0; bol = 0; xclu = false; eof = false }
      ∷ record { name = 73 ∷ []; set = 1; bol = 2; xclu = false; eof = false }
      ∷ [];
  warned = 0;
}

differ : same_name (73 ∷ []) (65 ∷ []) ≡ false
unfolding same_name
differ = refl

scinstal-sclookup_example :
    (y' : Symbols) × (scinstal (65 ∷ []) true initial_only no_states
      ≡ ok (y', after_epsilon (after_epsilon no_states)))
    × (get_elem? y'.start_conditions (sclookup (65 ∷ []) y')
        ≡ some (record {
          name = 65 ∷ [];
          set = length no_states.nfas;
          bol = length (after_epsilon no_states).nfas;
          xclu = true;
          eof = false;
        }))
    × (sclookup (73 ∷ []) y' ≡ sclookup (73 ∷ []) initial_only)
scinstal-sclookup_example = scinstal-sclookup (65 ∷ []) (73 ∷ []) true initial_only no_states differ
