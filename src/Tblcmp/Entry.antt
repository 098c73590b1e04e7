-- ===== src/Tblcmp/Entry.antt =====
-- The entries of the compressed tables: mk1tbl, stack1, mkentry, inittbl and mkdeftbl.
use flex_cmake_old.Prelude.{
  ℕ, zero, suc, ◌+◌, ◌-◌, ◌*◌, ◌==◌, ltb, leb, if◌then◌else◌, Bool, true, false, not, ◌&&◌, ◌||◌,
  List, [], ◌∷◌, ◌++◌, length,
}
use flex_cmake_old.Prelude.Int.{ℤ, pos, is_zero}
use flex_cmake_old.Common.{Result, ok, fault, ◌>>=◌, at}
use flex_cmake_old.Tblcmp.State.{
  jamstate_mark, is_same, is_jam, Tables, grow, set_state, store, next_free,
}

abbrev pub max : ℕ → ℕ → ℕ
max a b = if ltb a b then b else a

-- The search of `mk1tbl`: the first free index from firstfree on. Where that is past the vectors
-- already, it is passed over, and where they end, they grow by one.
unfoldable pub seek_free : Tables → Tables
unfolding next_free grow
seek_free t =
    let free =
      if leb (length t.chk) t.firstfree then t.firstfree + 1 else next_free t.chk t.firstfree in
    grow (free + 1) (record t { firstfree = free })

-- `if (firstfree > tblend) { tblend = firstfree++; ... }`
unfoldable pub extend_end : Tables → Tables
unfolding grow
extend_end t =
    if ltb t.tblend t.firstfree
    then grow (t.firstfree + 2) (record t { tblend = t.firstfree; firstfree = t.firstfree + 1 })
    else t

unfoldable pub mk1tbl : (state sym : ℕ) → (onenxt onedef : ℤ) → Tables → Result Tables
unfolding seek_free set_state store extend_end
mk1tbl state sym onenxt onedef t =
    let t1 = seek_free (record t { firstfree = max t.firstfree sym }) in
    do
      t2 ← set_state state (pos (t1.firstfree - sym)) onedef t1
      t3 ← store t1.firstfree state onenxt t2
      ok (extend_end t3)

-- ONE_STACK_SIZE is 500.
unfoldable pub stack1 : (statenum sym : ℕ) → (nextstate deflink : ℤ) → Tables → Result Tables
unfolding mk1tbl
stack1 statenum sym nextstate deflink t =
    if leb 499 (length t.stack)
    then mk1tbl statenum sym nextstate deflink t
    else ok (record t {
      stack =
          t.stack
          ++ (record { onestate = statenum; onesym = sym; onenext = nextstate; onedef = deflink }
              ∷ []);
    })

-- The entry needs a place of its own.
unfoldable pub needed : (ℕ → ℤ) → (deflink : ℤ) → ℕ → Bool
needed state deflink i =
    not (is_same (state i)) && (not (is_zero (state i)) || not (is_jam deflink))

-- `rounds` is numchars + 1 - minec.
unfoldable pub min_loop : (ℕ → ℤ) → (deflink : ℤ) → (rounds minec : ℕ) → ℕ
unfolding needed
min_loop state deflink zero minec = minec
min_loop state deflink (suc rounds) minec =
    let rest = min_loop state deflink rounds (minec + 1) in
    if needed state deflink minec then minec else rest

unfoldable pub max_loop : (ℕ → ℤ) → (deflink : ℤ) → (maxec : ℕ) → ℕ
unfolding needed
max_loop state deflink zero = zero
max_loop state deflink (suc maxec) =
    if needed state deflink (suc maxec) then suc maxec else max_loop state deflink maxec

-- `while (baseaddr < minec)`; `minec` rounds are enough, since each takes a larger address.
unfoldable pub raise_base : List ℕ → (rounds minec baseaddr : ℕ) → ℕ
unfolding next_free
raise_base chk zero minec baseaddr = baseaddr
raise_base chk (suc rounds) minec baseaddr =
    if ltb baseaddr minec
    then raise_base chk rounds minec (next_free chk (baseaddr + 1))
    else baseaddr

-- No entry of `state` from `i` on needs a place that is taken. `place` is baseaddr + i - minec.
unfoldable pub fits : (ℕ → ℤ) → (deflink : ℤ) → List ℕ → (rounds i place : ℕ) → Result Bool
unfolding needed
fits state deflink chk zero i place = ok true
fits state deflink chk (suc rounds) i place =
    if needed state deflink i
    then (do
      c ← at chk place
      if c == 0 then fits state deflink chk rounds (i + 1) (place + 1) else ok false)
    else fits state deflink chk rounds (i + 1) (place + 1)

-- The loop that starts over at another address when the state does not fit. Past the end of the
-- vector all is free, so as many rounds as it has elements, and one, are enough.
unfoldable pub fit_loop :
    (ℕ → ℤ) → (deflink : ℤ) → (minec maxec fuel baseaddr : ℕ) → Tables → Result (ℕ × Tables)
unfolding fits grow next_free
fit_loop state deflink minec maxec zero baseaddr t = fault
fit_loop state deflink minec maxec (suc fuel) baseaddr t =
    let t' = grow (baseaddr + maxec - minec + 2) t in
    do
      free ← fits state deflink t'.chk (maxec + 1 - minec) minec baseaddr
      if free
          then ok (baseaddr, t')
          else fit_loop state deflink minec maxec fuel (next_free t'.chk (baseaddr + 1)) t'

-- INTERIOR_FIT_PERCENTAGE is 15.
unfoldable pub base_address :
    (ℕ → ℤ)
    → (numchars : ℕ) → (deflink : ℤ) → (totaltrans minec maxec : ℕ) → Tables
    → Result (ℕ × Tables)
unfolding raise_base fit_loop
base_address state numchars deflink totaltrans minec maxec t =
    if leb (totaltrans * 100) (numchars * 15)
    then fit_loop state deflink minec maxec (length t.chk + 1)
        (raise_base t.chk minec minec t.firstfree) t
    else ok (max (t.tblend + 1) minec, t)

-- The loop that fills in the entries. `place` is tblbase + i.
unfoldable pub fill :
    (ℕ → ℤ) → (deflink : ℤ) → (statenum rounds i place : ℕ) → Tables → Result Tables
unfolding needed store
fill state deflink statenum zero i place t = ok t
fill state deflink statenum (suc rounds) i place t =
    if needed state deflink i
    then (do
      t' ← store place statenum (state i) t
      fill state deflink statenum rounds (i + 1) (place + 1) t')
    else fill state deflink statenum rounds (i + 1) (place + 1) t

-- `for (++firstfree; chk[firstfree] != 0; ++firstfree)`, which has no bound.
unfoldable pub move_firstfree : (baseaddr : ℕ) → Tables → Result Tables
unfolding next_free
move_firstfree baseaddr t =
    if baseaddr == t.firstfree
    then (do
      _ ← at t.chk (next_free t.chk (t.firstfree + 1))
      ok (record t { firstfree = next_free t.chk (t.firstfree + 1) }))
    else ok t

unfoldable pub place_entry :
    (ℕ → ℤ) → (statenum : ℕ) → (deflink : ℤ) → (minec maxec baseaddr : ℕ) → Tables → Result Tables
unfolding grow set_state fill move_firstfree
place_entry state statenum deflink minec maxec baseaddr t =
    let tblbase = baseaddr - minec in
    let tbllast = tblbase + maxec in
    do
      t1 ← set_state statenum (pos tblbase) deflink (grow (tbllast + 2) t)
      t2 ← fill state deflink statenum (maxec + 1 - minec) minec baseaddr t1
      t3 ← move_firstfree baseaddr t2
      ok (record t3 { tblend = max t3.tblend tbllast })

unfoldable pub mkentry :
    (ℕ → ℤ) → (numchars statenum : ℕ) → (deflink : ℤ) → (totaltrans : ℕ) → Tables → Result Tables
unfolding set_state min_loop max_loop stack1 base_address place_entry
mkentry state numchars statenum deflink totaltrans t =
    let minec = min_loop state deflink numchars 1 in
    let maxec = max_loop state deflink numchars in
    if totaltrans == 0
    then set_state statenum (if is_jam deflink then jamstate_mark else pos 0) deflink t
    else if totaltrans == 1
    then stack1 statenum minec (state minec) deflink t
    else (do
      (baseaddr, t') ← base_address state numchars deflink totaltrans minec maxec t
      place_entry state statenum deflink minec maxec baseaddr t')

-- The loop of `mkdeftbl`.
unfoldable pub jam_loop : (jamstate rounds place : ℕ) → Tables → Result Tables
unfolding store
jam_loop jamstate zero place t = ok t
jam_loop jamstate (suc rounds) place t = do
  t' ← store place jamstate (pos 0) t
  jam_loop jamstate rounds (place + 1) t'

-- `jamstate` is dfas.size(). The result is the tables and `jambase`.
unfoldable pub mkdeftbl : (jamstate : ℕ) → (end_of_buffer_state : ℤ) → Tables → Result (ℕ × Tables)
unfolding grow store jam_loop set_state
mkdeftbl jamstate end_of_buffer_state t =
    let jambase = t.tblend + 1 in
    do
      t1 ← store jambase jamstate end_of_buffer_state (grow (jambase + t.numecs + 1) t)
      t2 ← jam_loop jamstate t.numecs (jambase + 1) t1
      t3 ← set_state jamstate (pos jambase) (pos 0) t2
      ok (jambase, record t3 { tblend = jambase + t.numecs; numtemps = t.numtemps + 1 })
