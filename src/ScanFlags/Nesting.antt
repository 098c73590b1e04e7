-- ===== src/ScanFlags/Nesting.antt =====
-- Flags set between `sf_push` and `sf_pop` are local.
use flex_cmake_old.Prelude.{
  ℕ, ◌+◌, ◌-◌, ◌<◌, ◌≡◌, refl, ◌∙◌, sym, subst, arith, ◌==◌, leb, false, Bool, Bool-cases, inl, inr,
  List, length, set, get_elem?, replicate, none, some, Option, length-append, length-set,
  get_elem?-append_front, get_elem?-set_self, get_elem?-set_ne, lt_of_get_elem?,
}
use flex_cmake_old.Common.{ok}
use flex_cmake_old.ScanFlags.{Stack, slot, sf_top, with_room, sf_push, sf_pop, set_bit, sf_set}

-- The top of the stack is a slot with a value.
abbrev pub IsTop : Stack → ℕ → Type 0
IsTop s v = get_elem? s.sf_stk s.sf_top_ix ≡ some (some v)

slot-some : (stk : List (Option ℕ)) (i v : ℕ) → get_elem? stk i ≡ some (some v) → slot stk i ≡ ok v
unfolding slot
slot-some stk i v e = rw (slot, e)

with_room-IsTop :
    (s : Stack) (v : ℕ)
    → IsTop s v
    → IsTop (with_room s) v
      × (s.sf_top_ix + 1 < length (with_room s).sf_stk)
      × ((with_room s).sf_top_ix ≡ s.sf_top_ix)
unfolding with_room
with_room-IsTop s v top =
    let below = lt_of_get_elem? s.sf_stk s.sf_top_ix top in
    elim (Bool-cases (leb (length s.sf_stk) (s.sf_top_ix + 1))) [
      | inl e ↦ rw e (
        get_elem?-append_front s.sf_stk (replicate 32 none) s.sf_top_ix top,
        omega (arith, length-append s.sf_stk (replicate {A = Option ℕ} 32 none)),
        refl,
      )
      | inr e ↦ rw e (top, ground arith, refl)
    ]

-- The stack after `sf_push`.
pushed : Stack → ℕ → Stack
pushed s v = record (with_room s) {
  sf_stk = set (with_room s).sf_stk (s.sf_top_ix + 1) (some v);
  sf_top_ix = s.sf_top_ix + 1;
}

-- On a stack whose top has a value: `sf_push` gives a stack with the same top value, and after setting
-- or clearing any flag there, `sf_pop` gives back the index and the value of the top as they were.
pub push-set-pop :
    (s : Stack) (v bit : ℕ) (x : Bool)
    → IsTop s v
    → (s1 s2 s3 : Stack) × (sf_push s ≡ ok s1)
      × IsTop s1 v
      × (sf_set bit x s1 ≡ ok s2)
      × IsTop s2 (set_bit bit x v)
      × (sf_pop s2 ≡ ok s3)
      × (s3.sf_top_ix ≡ s.sf_top_ix)
      × IsTop s3 v
unfolding sf_push sf_top pushed sf_set sf_pop
push-set-pop s v bit x top =
    let (top', room, same) = with_room-IsTop s v top in
    let n = s.sf_top_ix in
    let stk = (with_room s).sf_stk in
    let stk1 = set stk (n + 1) (some v) in
    let stk2 = set stk1 (n + 1) (some (set_bit bit x v)) in
    let top1 : get_elem? stk1 (n + 1) ≡ some (some v) =
      get_elem?-set_self stk (n + 1) (some v) room in
    let below : get_elem? stk n ≡ some (some v) =
      subst (λ i. get_elem? stk i ≡ some (some v)) same top' in
    let back : n + 1 - 1 ≡ n = omega arith in
    let some_below : (n + 1 == 0) ≡ false = ground arith in
    let kept : get_elem? stk2 n ≡ some (some v) =
      get_elem?-set_ne stk1 (n + 1) n (some (set_bit bit x v)) (λ e. absurd (omega arith))
      ∙ get_elem?-set_ne stk (n + 1) n (some v) (λ e. absurd (omega arith))
      ∙ below in
    (
      pushed s v,
      record (pushed s v) { sf_stk = stk2 },
      record (pushed s v) { sf_stk = stk2; sf_top_ix = n + 1 - 1 },
      rw (slot-some stk (with_room s).sf_top_ix v top'),
      top1,
      rw (slot-some stk1 (n + 1) v top1),
      get_elem?-set_self stk1 (n + 1) (some (set_bit bit x v))
          (omega (arith, length-set stk (n + 1) (some v))),
      rw (sf_pop, some_below),
      back,
      subst (λ i. get_elem? stk2 i ≡ some (some v)) (sym back) kept,
    )
