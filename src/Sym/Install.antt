-- ===== src/Sym/Install.antt =====
-- What `scinstal` of src/sym.cpp makes known.
use flex_cmake_old.Prelude.{
  suc, ◌≡◌, refl, arith, if◌then◌else◌, Bool, true, false, [], ◌∷◌, ◌++◌, length, get_elem?,
  get_elem?-append_back, some,
}
use flex_cmake_old.Common.{ok}
use flex_cmake_old.Nfa.State.{Builder}
use flex_cmake_old.Nfa.Build.{mkstate, fresh_nfa}
use flex_cmake_old.Nfa.Machine.{after_epsilon}
use flex_cmake_old.Sym.{String, same_name, Symbols, is_installed, lookup_in, sclookup, scinstal}

same_name_self : (s : String) → same_name s s ≡ true
unfolding same_name
same_name_self [] = refl
same_name_self (c ∷ cs) = ground (arith, same_name_self cs)

-- What is known after `scinstal`.
installed : String → Bool → Symbols → Builder → Symbols
installed str xcluflg y s = record {
  sctbl = (str, length y.start_conditions) ∷ y.sctbl;
  start_conditions =
      y.start_conditions
      ++ (record {
        name = str;
        set = length s.nfas;
        bol = length (after_epsilon s).nfas;
        xclu = xcluflg;
        eof = false;
      }
          ∷ []);
  warned = if is_installed str y.sctbl then suc y.warned else y.warned;
}

scinstal_runs :
    (str : String) (xcluflg : Bool) (y : Symbols) (s : Builder)
    → scinstal str xcluflg y s ≡ ok (installed str xcluflg y s, after_epsilon (after_epsilon s))
unfolding scinstal installed mkstate fresh_nfa
scinstal_runs str xcluflg y s = refl

-- scinstal returns, having made two states. The name is then found at an index of the vector where a
-- start condition with that name, the exclusive flag, no EOF rule and the two states stands, also if
-- the name was declared before; and another name is found where it was.
pub scinstal-sclookup :
    (str other : String) (xcluflg : Bool) (y : Symbols) (s : Builder)
    → same_name other str ≡ false
    → (y' : Symbols) × (scinstal str xcluflg y s ≡ ok (y', after_epsilon (after_epsilon s)))
      × (get_elem? y'.start_conditions (sclookup str y')
          ≡ some (record {
            name = str;
            set = length s.nfas;
            bol = length (after_epsilon s).nfas;
            xclu = xcluflg;
            eof = false;
          }))
      × (sclookup other y' ≡ sclookup other y)
unfolding sclookup lookup_in installed
scinstal-sclookup str other xcluflg y s differ = (
  installed str xcluflg y s,
  scinstal_runs str xcluflg y s,
  rw (same_name_self str) (get_elem?-append_back y.start_conditions _ []),
  rw differ,
)
