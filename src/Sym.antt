-- ===== src/Sym.antt =====
-- The table of start conditions: src/sym.cpp, and StartCondition of src/common.h.
pub mod Install
use flex_cmake_old.Prelude.{
  ℕ, suc, ◌==◌, if◌then◌else◌, Bool, true, false, ◌&&◌, List, [], ◌∷◌, ◌++◌, length,
}
use flex_cmake_old.Nfa.State.{M, ◌>>=◌, ◌>>◌, pure, sym_epsilon}
use flex_cmake_old.Nfa.Build.{mkstate}

-- The characters of a name.
abbrev pub String : Type 0
String = List ℕ

unfoldable pub same_name : String → String → Bool
same_name [] [] = true
same_name [] (d ∷ ds) = false
same_name (c ∷ cs) [] = false
same_name (c ∷ cs) (d ∷ ds) = (c == d) && same_name cs ds

pub record StartCondition : Type 0 where
  pub name : String
  pub set : ℕ
  pub bol : ℕ
  pub xclu : Bool
  pub eof : Bool

-- `sctbl` as its entries, the last assigned first, and the vector `start_conditions`. `warned` counts the
-- messages on a name that is declared twice.
pub record Symbols : Type 0 where
  pub sctbl : List (String × ℕ)
  pub start_conditions : List StartCondition
  pub warned : ℕ

unfoldable pub is_installed : String → List (String × ℕ) → Bool
unfolding same_name
is_installed str [] = false
is_installed str ((name, i) ∷ tbl) = if same_name str name then true else is_installed str tbl

-- 0 if there is no such start condition.
unfoldable pub lookup_in : String → List (String × ℕ) → ℕ
unfolding same_name
lookup_in str [] = 0
lookup_in str ((name, i) ∷ tbl) = if same_name str name then i else lookup_in str tbl

unfoldable pub sclookup : String → Symbols → ℕ
unfolding lookup_in
sclookup str y = lookup_in str y.sctbl

-- The name is assigned anew even where it is declared twice: the message does not end the function.
unfoldable pub scinstal : String → (xcluflg : Bool) → Symbols → M Symbols
unfolding is_installed
scinstal str xcluflg y = do
  set ← mkstate sym_epsilon
  bol ← mkstate sym_epsilon
  pure (record {
    sctbl = (str, length y.start_conditions) ∷ y.sctbl;
    start_conditions =
        y.start_conditions
        ++ (record { name = str; set = set; bol = bol; xclu = xcluflg; eof = false } ∷ []);
    warned = if is_installed str y.sctbl then suc y.warned else y.warned;
  })
