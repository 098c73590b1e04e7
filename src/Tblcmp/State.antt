-- ===== src/Tblcmp/State.antt =====
-- The globals of src/tblcmp.cpp and the growth of its two vectors.
use flex_cmake_old.Prelude.{
  ℕ, ◌+◌, ◌-◌, ◌==◌, ltb, if◌then◌else◌, Bool, ◌&&◌, List, [], ◌∷◌, ◌++◌, length, set, drop,
  replicate,
}
use flex_cmake_old.Prelude.Int.{ℤ, pos, negsuc}
use flex_cmake_old.Common.{Result, ok, fault}

-- SAME_TRANS is -1 and JAMSTATE is -32766.
abbrev pub same_trans : ℤ
same_trans = negsuc 0

abbrev pub jamstate_mark : ℤ
jamstate_mark = negsuc 32765

abbrev pub is_same : ℤ → Bool
is_same (pos n) = 0 == 1
is_same (negsuc n) = n == 0

abbrev pub is_jam : ℤ → Bool
is_jam (pos n) = 0 == 1
is_jam (negsuc n) = n == 32765

-- An element of the stack of states with one out-transition.
pub record OneTransition : Type 0 where
  pub onestate : ℕ
  pub onesym : ℕ
  pub onenext : ℤ
  pub onedef : ℤ

-- `base` and `def` are fields of the elements of `dfas`, which is accessed up to its capacity.
-- `stack` are the elements 1 .. onesp.
pub record Tables : Type 0 where
  pub chk : List ℕ
  pub nxt : List ℤ
  pub tblend : ℕ
  pub firstfree : ℕ
  pub numecs : ℕ
  pub numtemps : ℕ
  pub capacity : ℕ
  pub base : ℕ → ℤ
  pub def : ℕ → ℤ
  pub stack : List OneTransition

abbrev pub update : (ℕ → ℤ) → ℕ → ℤ → ℕ → ℤ
update f i v j = if j == i then v else f j

-- `if (n > chk.size()) { chk.resize(n); nxt.resize(n); }`
unfoldable pub grow : (n : ℕ) → Tables → Tables
grow n t = record t {
  chk = t.chk ++ replicate (n - length t.chk) 0;
  nxt = t.nxt ++ replicate (n - length t.nxt) (pos 0);
}

-- `dfas[state].base = base; dfas[state].def = def`; operator[] of CapacityVector aborts past the capacity.
unfoldable pub set_state : (state : ℕ) → (base def : ℤ) → Tables → Result Tables
set_state state base def t =
    if ltb state t.capacity
    then ok (record t { base = update t.base state base; def = update t.def state def })
    else fault

-- `chk[i] = state; nxt[i] = next`
unfoldable pub store : (i state : ℕ) → (next : ℤ) → Tables → Result Tables
store i state next t =
    if ltb i (length t.chk) && ltb i (length t.nxt)
    then ok (record t { chk = set t.chk i state; nxt = set t.nxt i next })
    else fault

-- `while (i < chk.size() && chk[i] != 0) ++i`, with the vector from `i` on.
unfoldable pub free_from : List ℕ → ℕ → ℕ
free_from [] i = i
free_from (c ∷ chk) i = if c == 0 then i else free_from chk (i + 1)

unfoldable pub next_free : List ℕ → ℕ → ℕ
unfolding free_from
next_free chk i = free_from (drop i chk) i
