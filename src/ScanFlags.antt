-- ===== src/ScanFlags.antt =====
-- The stack of scanner flags: src/scanflags.cpp and src/scanflags.h.
pub mod Nesting
use flex_cmake_old.Prelude.{
  ℕ, ◌+◌, ◌-◌, ◌/◌, ◌%◌, ◌==◌, leb, if◌then◌else◌, Bool, List, [], ◌∷◌, ◌++◌, length, set,
  get_elem?, replicate, none, some, Option,
}
use flex_cmake_old.Common.{Result, ok, fault, ◌>>=◌}

-- `_sf_stk`, in which `none` is a slot that is not written, and `_sf_top_ix`; `_sf_max` is the length.
pub record Stack : Type 0 where
  pub sf_stk : List (Option ℕ)
  pub sf_top_ix : ℕ

-- A read of a slot.
unfoldable pub slot : List (Option ℕ) → ℕ → Result ℕ
slot stk i = elim (get_elem? stk i) [ none ↦ fault | some none ↦ fault | some (some v) ↦ ok v ]

unfoldable pub sf_top : Stack → Result ℕ
unfolding slot
sf_top s = slot s.sf_stk s.sf_top_ix

-- The stack with room for one more.
unfoldable pub with_room : Stack → Stack
with_room s =
    if leb (length s.sf_stk) (s.sf_top_ix + 1)
    then record s { sf_stk = s.sf_stk ++ replicate 32 none }
    else s

unfoldable pub sf_push : Stack → Result Stack
unfolding with_room sf_top
sf_push s = do
  v ← sf_top (with_room s)
  ok (record (with_room s) {
    sf_stk = set (with_room s).sf_stk (s.sf_top_ix + 1) (some v);
    sf_top_ix = s.sf_top_ix + 1;
  })

-- The assertion fails on an empty stack.
unfoldable pub sf_pop : Stack → Result Stack
sf_pop s = if s.sf_top_ix == 0 then fault else ok (record s { sf_top_ix = s.sf_top_ix - 1 })

-- The stack after the start, where `_sf_top_ix` is 0.
unfoldable pub sf_init : Stack
sf_init = record { sf_stk = some 0 ∷ replicate 31 none; sf_top_ix = 0 }

-- A flag is one bit; `sf_set_case_ins` and its kin set or clear it.
unfoldable pub has_bit : (bit flags : ℕ) → Bool
has_bit bit flags = flags / bit % 2 == 1

unfoldable pub set_bit : (bit : ℕ) → Bool → (flags : ℕ) → ℕ
unfolding has_bit
set_bit bit x flags =
    if has_bit bit flags then if x then flags else flags - bit else if x then flags + bit else flags

unfoldable pub sf_set : (bit : ℕ) → Bool → Stack → Result Stack
unfolding sf_top set_bit
sf_set bit x s = do
  v ← sf_top s
  ok (record s { sf_stk = set s.sf_stk s.sf_top_ix (some (set_bit bit x v)) })
