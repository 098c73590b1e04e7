-- ===== src/Dfa/Closure.antt =====
-- `epsclosure` of src/dfa.cpp. The vectors `t`, `stk` and `accset` are their elements from index 1 on;
-- `t` and `stk` have one length in the only caller, and grow together.
pub mod Spec
pub mod Push
pub mod Loop
pub mod Correct
use flex_cmake_old.Prelude.{
  ℕ, zero, suc, ◌+◌, ◌-◌, ◌%◌, ◌<◌, ◌==◌, ltb, if◌then◌else◌, Bool, not, ◌||◌, List, [], ◌∷◌, ◌++◌,
  length, get_elem?, none, some,
}
use flex_cmake_old.Prelude.Int.{ℤ, pos, negsuc, is_negative}
use flex_cmake_old.Common.{Result, ok, exit, fault, inconsistent_closure, ◌>>=◌, at}
use flex_cmake_old.Nfa.State.{Nfa, is_epsilon}

-- MARKER_DIFFERENCE
abbrev pub marker_difference : ℕ
marker_difference = 1_000_000_000

-- The two directions of the marks: `trans1 - MARKER_DIFFERENCE` and `trans1 + MARKER_DIFFERENCE`.
unfoldable pub minus_marker : ℤ → ℤ
minus_marker (pos n) =
    if ltb n marker_difference
    then negsuc (marker_difference - 1 - n)
    else pos (n - marker_difference)
minus_marker (negsuc n) = negsuc (n + marker_difference)

unfoldable pub plus_marker : ℤ → ℤ
plus_marker (pos n) = pos (n + marker_difference)
plus_marker (negsuc n) =
    if ltb n marker_difference
    then pos (marker_difference - 1 - n)
    else negsuc (n - marker_difference)

-- `trans1` are the fields of that name of the elements of `nfas`, which hold the marks. `hashval` is the
-- `int` as its 32 bits, where an overflow wraps around. `room` is `accset.size()`, index 0 included.
pub record Closure : Type 0 where
  pub trans1 : ℕ → ℤ
  pub stk : List ℕ
  pub t : List ℕ
  pub accset : List ℕ
  pub hashval : ℕ
  pub room : ℕ

abbrev pub set_trans1 : (ℕ → ℤ) → ℕ → ℤ → ℕ → ℤ
set_trans1 f i v j = if j == i then v else f j

abbrev pub is_marked : Closure → ℕ → Bool
is_marked c state = is_negative (c.trans1 state)

unfoldable pub put_on_stack : ℕ → Closure → Closure
unfolding minus_marker
put_on_stack state c = record c {
  stk = c.stk ++ (state ∷ []);
  trans1 = set_trans1 c.trans1 state (minus_marker (c.trans1 state));
}

-- `accset[++nacc] = nfaccnum`, which is undefined past the end of the vector.
unfoldable pub check_accept : Nfa → Closure → Result Closure
check_accept n c =
    if n.accptnum == 0
    then ok c
    else if ltb (length c.accset + 1) c.room
    then ok (record c { accset = c.accset ++ (n.accptnum ∷ []) })
    else fault

-- `hashval += state`
unfoldable pub add_hash : (hashval state : ℕ) → ℕ
add_hash hashval state = (hashval + state) % 4_294_967_296

-- The test of STACK_STATE, and ADD_STATE.
unfoldable pub is_kept : Nfa → Bool
is_kept n = not (n.accptnum == 0) || not (is_epsilon n.transchar)

unfoldable pub add_state : Nfa → ℕ → Closure → Closure
unfolding is_kept add_hash
add_state n state c = record c {
  t = if is_kept n then c.t ++ (state ∷ []) else c.t;
  hashval = if is_kept n then add_hash c.hashval state else c.hashval;
}

-- `if (!IS_MARKED(state)) STACK_STATE(state)`
unfoldable pub stack_state : List Nfa → ℕ → Closure → Result Closure
unfolding add_state check_accept put_on_stack
stack_state nfas state c = do
  n ← at nfas state
  if is_marked c state
      then ok c
      else (do c' ← check_accept n (put_on_stack state c); ok (add_state n state c'))

-- A round of the first loop.
unfoldable pub first_state : List Nfa → ℕ → Closure → Result Closure
unfolding check_accept put_on_stack add_hash
first_state nfas ns c = do
  n ← at nfas ns
  if is_marked c ns then ok c else (do
    c' ← check_accept n (put_on_stack ns c)
    ok (record c' { hashval = add_hash c'.hashval ns }))

unfoldable pub first_loop : List Nfa → List ℕ → Closure → Result Closure
unfolding first_state
first_loop nfas [] c = ok c
first_loop nfas (ns ∷ states) c = do c' ← first_state nfas ns c; first_loop nfas states c'

-- The two transitions of a state that is followed; the first is NO_TRANSITION where it is 0.
unfoldable pub follow_both : List Nfa → (tsp : ℤ) → (trans2 : ℕ) → Closure → Result Closure
unfolding stack_state
follow_both nfas (negsuc k) trans2 c = fault
follow_both nfas (pos zero) trans2 c = ok c
follow_both nfas (pos (suc k)) trans2 c = do
  c' ← stack_state nfas (suc k) c
  if trans2 == 0 then ok c' else stack_state nfas trans2 c'

unfoldable pub close_state : List Nfa → ℕ → Closure → Result Closure
unfolding follow_both plus_marker
close_state nfas ns c = do
  n ← at nfas ns
  if is_epsilon n.transchar then follow_both nfas (plus_marker (c.trans1 ns)) n.trans2 c else ok c

-- The loop over the stack, which grows meanwhile.
unfoldable pub close_loop : List Nfa → (fuel stkpos : ℕ) → Closure → Result Closure
unfolding close_state
close_loop nfas zero stkpos c = elim (get_elem? c.stk stkpos) [ none ↦ ok c | some ns ↦ fault ]
close_loop nfas (suc fuel) stkpos c = elim (get_elem? c.stk stkpos) [
  | none ↦ ok c
  | some ns ↦ close_state nfas ns c >>= λ c'. close_loop nfas fuel (stkpos + 1) c'
]

-- The loop that clears the marks, over the stack.
unfoldable pub clear_loop : List ℕ → Closure → Result Closure
unfolding plus_marker
clear_loop [] c = ok c
clear_loop (state ∷ stk) c =
    if is_marked c state
    then clear_loop stk
        (record c { trans1 = set_trans1 c.trans1 state (plus_marker (c.trans1 state)) })
    else exit inconsistent_closure

-- Every state is put on the stack at most once, so one round for each is enough.
unfoldable pub epsclosure : List Nfa → (room : ℕ) → (trans1 : ℕ → ℤ) → (t : List ℕ) → Result Closure
unfolding first_loop close_loop clear_loop
epsclosure nfas room trans1 t = do
  c ←
      first_loop nfas t
        (record { trans1 = trans1; stk = []; t = t; accset = []; hashval = 0; room = room })
  c' ← close_loop nfas (length nfas) 0 c
  clear_loop c'.stk c'
