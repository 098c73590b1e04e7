-- ===== src/Tblcmp/Full.antt =====
-- The tables of full speed scanners in src/tblcmp.cpp: find_table_space and place_state.
use flex_cmake_old.Prelude.{
  ℕ, zero, suc, ◌+◌, ◌-◌, ◌==◌, ltb, leb, if◌then◌else◌, Bool, true, false, not, ◌&&◌, List, [],
  ◌∷◌, length, set, drop,
}
use flex_cmake_old.Prelude.Int.{ℤ, pos, is_zero}
use flex_cmake_old.Common.{Result, ok, fault, ◌>>=◌, at}
use flex_cmake_old.Tblcmp.State.{Tables, update, grow}
use flex_cmake_old.Tblcmp.Entry.{max}

-- `chk[i] = mark`
unfoldable pub mark : (i mark : ℕ) → Tables → Result Tables
mark i v t = if ltb i (length t.chk) then ok (record t { chk = set t.chk i v }) else fault

-- The inner loop: two free places in a row, at i - 1 and i. Past the vectors all is free.
unfoldable pub pair_loop : (fuel i : ℕ) → Tables → Result (ℕ × Tables)
unfolding grow
pair_loop zero i t = fault
pair_loop (suc fuel) zero t = fault
pair_loop (suc fuel) (suc i) t = do
  action ← at t.chk i
  end_of_buffer ← at t.chk (suc i)
  if action == 0 && end_of_buffer == 0
      then ok (suc i, t)
      else (let next = if action == 0 then i + 3 else i + 2 in
          pair_loop fuel next (grow (next + t.numecs + 1) t))

-- The loop over the rest of chk, beside the state from index 1 on. It ends only with chk, so it can
-- run past the state, which C++ leaves undefined.
unfoldable pub room_loop : (state : List ℤ) → (chk : List ℕ) → Result Bool
room_loop state [] = ok true
room_loop [] (c ∷ chk) = fault
room_loop (s ∷ state) (c ∷ chk) =
    if not (is_zero s) && not (c == 0) then ok false else room_loop state chk

-- A round of the outer loop; MAX_XTIONS_FULL_INTERIOR_FIT is 4.
unfoldable pub space_loop : (state : List ℤ) → (numtrans fuel i : ℕ) → Tables → Result (ℕ × Tables)
unfolding grow pair_loop room_loop
space_loop state numtrans zero i t = fault
space_loop state numtrans (suc fuel) i t = do
  (i', t1) ← pair_loop (length t.chk + i + 3) i (grow (i + t.numecs + 1) t)
  free ← room_loop (drop 1 state) (drop (i' + 1) t1.chk)
  if free
      then ok (i', if leb numtrans 4 then record t1 { firstfree = i' + 1 } else t1)
      else space_loop state numtrans fuel (i' + 1)
          (if leb numtrans 4 then record t1 { firstfree = i' + 1 } else t1)

-- The search starts near the end for a state with many transitions; before the start is no element.
unfoldable pub find_table_space : (state : List ℤ) → (numtrans : ℕ) → Tables → Result (ℕ × Tables)
unfolding space_loop
find_table_space state numtrans t =
    if ltb 4 numtrans
    then if ltb t.tblend 2
      then ok (1, t)
      else if leb t.tblend t.numecs
      then fault
      else space_loop state numtrans (length t.chk + 2) (t.tblend - t.numecs) t
    else space_loop state numtrans (length t.chk + t.firstfree + 2) t.firstfree t

-- The loop that places the state; `state` is what is left of it.
unfoldable pub place_loop : (position rounds i : ℕ) → (state : List ℤ) → Tables → Result Tables
place_loop position zero i state t = ok t
place_loop position (suc rounds) i [] t = fault
place_loop position (suc rounds) i (s ∷ state) t =
    if is_zero s
    then place_loop position rounds (i + 1) state t
    else if ltb (position + i) (length t.chk) && ltb (position + i) (length t.nxt)
    then place_loop position rounds (i + 1) state
        (record t { chk = set t.chk (position + i) i; nxt = set t.nxt (position + i) s })
    else fault

-- The base of the state is a field of an element of `dfas`.
unfoldable pub set_base : (state position : ℕ) → Tables → Result Tables
set_base state position t =
    if ltb state t.capacity
    then ok (record t { base = update t.base state (pos position) })
    else fault

unfoldable pub place_state : (state : List ℤ) → (statenum transnum : ℕ) → Tables → Result Tables
unfolding find_table_space set_base mark place_loop
place_state state statenum transnum t = do
  (position, t1) ← find_table_space state transnum t
  t2 ← set_base statenum position t1
  t3 ← mark (position - 1) 1 t2
  t4 ← mark position 1 t3
  t5 ← place_loop position t.numecs 1 (drop 1 state) t4
  ok (record t5 { tblend = max t5.tblend (position + t.numecs) })
