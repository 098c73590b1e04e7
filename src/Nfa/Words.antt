-- ===== src/Nfa/Words.antt =====
-- Languages over transition symbols, and the operations on them that the machines stand for.
use flex_cmake_old.Prelude.{◌≡◌, ◌⊎◌, Option, none, some, List, [], ◌∷◌, ◌++◌}
use flex_cmake_old.Prelude.Int.{ℤ}

abbrev pub Word : Type 0
Word = List ℤ

abbrev pub Language : Type 1
Language = Word → Type 0

-- What a transition consumes: nothing, or a symbol.
abbrev pub Label : Type 0
Label = Option ℤ

abbrev pub letters : Label → Word
letters none = []
letters (some c) = c ∷ []

abbrev pub Cat : Language → Language → Language
Cat L K w = (u : Word) × (v : Word) × L u × K v × (w ≡ u ++ v)

abbrev pub Alt : Language → Language → Language
Alt L K w = L w ⊎ K w

abbrev pub Opt : Language → Language
Opt L w = (w ≡ []) ⊎ L w

-- One or more words of L.
pub data Plus (L : Language) : Word → Type 0 where
  once : {w : Word} → L w → Plus L w
  more : {u v w : Word} → L u → Plus L v → w ≡ u ++ v → Plus L w
