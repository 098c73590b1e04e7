-- ===== src/Dfa/Ntod.antt =====
-- `ntod` of src/dfa.cpp around its rounds: the table for NUL, the first states, the queue, what becomes
-- of a row, and the end of the compressed tables. The text that is written meanwhile is left out.
pub mod Full
pub mod Members
pub mod Queue
use flex_cmake_old.Prelude.{
  ℕ, zero, suc, ◌+◌, ◌-◌, ◌*◌, ◌/◌, ◌%◌, ◌==◌, ltb, leb, if◌then◌else◌, Bool, true, false, not,
  ◌&&◌, ◌||◌, List, [], ◌∷◌, ◌++◌, length, set, replicate,
}
use flex_cmake_old.Prelude.Int.{ℤ, pos}
use flex_cmake_old.Common.{Result, ok, exit, fault, no_end_of_buffer, ◌>>=◌, at}
use flex_cmake_old.Ecs.{update}
use flex_cmake_old.Nfa.State.{Builder}
use flex_cmake_old.Nfa.Build.{mkbranch}
use flex_cmake_old.Sym.{StartCondition}
use flex_cmake_old.Dfa.{put, snstods}
use flex_cmake_old.Dfa.Construct.{
  Machine, Work, Row, enter_set, state_row, check_for_backing_up, most_common, full_row,
}
use flex_cmake_old.Tblcmp.State.{jamstate_mark, OneTransition, Tables}
use flex_cmake_old.Tblcmp.Entry.{mk1tbl, stack1, mkdeftbl}
use flex_cmake_old.Tblcmp.Full.{place_state}
use flex_cmake_old.Tblcmp.Build.{Compressor, inittbl, bldtbl, cmptmps}

-- The loop over the powers of two up to `csize`; they double, so `csize` rounds and one are enough.
unfoldable pub power_of_two : (numecs csize fuel power : ℕ) → Bool
power_of_two numecs csize zero power = false
power_of_two numecs csize (suc fuel) power =
    let rest = power_of_two numecs csize fuel (power * 2) in
    if leb power csize then (if numecs == power then true else rest) else false

-- Is there a table of its own for the transitions on NUL? `nul_group` is `ecgroup[0]`.
unfoldable pub use_nul_table :
    (fullspd fulltbl : Bool) → (nul_group : ℤ) → (numecs csize : ℕ) → Bool
unfolding power_of_two
use_nul_table fullspd fulltbl (pos g) numecs csize =
    not fullspd
    && ((g == numecs)
        && ((numecs == csize) || (fulltbl && power_of_two numecs csize (csize + 1) 1)))
use_nul_table fullspd fulltbl negative numecs csize = false

-- The tables, and the elements of `yynxt_data` so far.
pub record Output : Type 0 where
  pub fullspd : Bool
  pub fulltbl : Bool
  pub nultrans : Bool
  pub num_full_table_rows : ℕ
  pub end_of_buffer_state : ℕ
  pub yynxt_data : List ℤ
  pub compressor : Compressor

-- `state[0]` .. `state[numecs]`
unfoldable pub state_list : (state : ℕ → ℕ) → (rounds i : ℕ) → List ℤ
state_list state zero i = []
state_list state (suc rounds) i = pos (state i) ∷ state_list state rounds (i + 1)

-- What precedes the first states: empty tables, whether NUL has a table of its own, a state 0 without
-- transitions for full speed, and a row of zeros for full tables.
unfoldable pub ntod_begin : Machine → Work × Output → Result (Work × Output)
unfolding inittbl use_nul_table place_state state_list
ntod_begin m (w, o) =
    let c = inittbl o.compressor in
    let own_table =
      o.nultrans || use_nul_table o.fullspd o.fulltbl (m.ecgroup 0) m.numecs m.csize in
    let rows = if own_table then m.numecs else m.numecs + 1 in
    if o.fullspd
    then (do
      t ← place_state (state_list (λ i. 0) (m.numecs + 1) 0) 0 0 c.tables
      d ← at w.globals.dfas 0
      ok (
        record w {
          globals = record w.globals { dfas = set w.globals.dfas 0 (record d { acc_state = 0 }) };
        },
        record o { nultrans = own_table; compressor = record c { tables = t } },
      ))
    else if o.fulltbl
    then ok (
      w,
      record o {
        nultrans = own_table;
        num_full_table_rows = rows;
        yynxt_data = replicate rows (pos 0);
        compressor = c;
      },
    )
    else ok (w, record o { nultrans = own_table; compressor = c })

-- The state for the start condition at `i`, at the beginning of a line if `i` is even.
unfoldable pub first_states_step :
    (sort : List ℕ → List ℕ)
    → Machine
    → List StartCondition
    → (i : ℕ) → Builder × Work
    → Result (Builder × Work)
unfolding put mkbranch enter_set
first_states_step sort m start_conditions i (b, w) = do
  sc ← at start_conditions (if i % 2 == 1 then i / 2 + 1 else i / 2)
  (first, b') ← (if i % 2 == 1 then ok (sc.set, b) else mkbranch sc.bol sc.set b)
  nset ← put w.nset 1 first
  (ds, w') ← enter_set sort (record m { nfas = b'.nfas }) 1 (record w { nset = nset })
  ok (b', w')

unfoldable pub first_states_loop :
    (sort : List ℕ → List ℕ)
    → Machine
    → List StartCondition
    → (rounds i : ℕ) → Builder × Work
    → Result (Builder × Work)
unfolding first_states_step
first_states_loop sort m start_conditions zero i s = ok s
first_states_loop sort m start_conditions (suc rounds) i s =
    first_states_step sort m start_conditions i s >>= λ s'.
    first_states_loop sort m start_conditions rounds (i + 1) s'

-- The state for the end of a buffer, which holds no state.
unfoldable pub end_of_buffer : (sort : List ℕ → List ℕ) → Work → Result (ℕ × Work)
unfolding snstods
end_of_buffer sort w = do
  r ← snstods sort w.nset 0 w.accset 0 0 w.globals
  if r.flag == 0
      then exit no_end_of_buffer
      else ok (
        r.newds,
        record w {
          nset = r.sns;
          accset = r.accset;
          globals = r.globals;
          numas = w.numas + 1;
          todo_next = w.todo_next + 1;
        },
      )

-- `dfas[ds].nultrans = state[NUL_ec]`, and the transition is removed.
unfoldable pub remove_nul : (nul_ec ds : ℕ) → Work × Row → Result (Work × Row)
unfolding update
remove_nul nul_ec ds (w, row) = do
  d ← at w.globals.dfas ds
  ok (
    record w {
      globals = record w.globals {
        dfas = set w.globals.dfas ds (record d { nultrans = pos (row.state nul_ec) });
      };
    },
    record row { state = update row.state nul_ec 0 },
  )

-- What becomes of the row, by the kind of the tables.
unfoldable pub place_row : (ds : ℕ) → Row → Output → Result Output
unfolding full_row place_state state_list stack1 most_common bldtbl
place_row ds row o =
    let c = o.compressor in
    if o.fulltbl
    then ok (record o {
      yynxt_data =
          o.yynxt_data ++ full_row row.state ds o.end_of_buffer_state o.num_full_table_rows;
    })
    else if o.fullspd
    then (do
      t ← place_state (state_list row.state (c.tables.numecs + 1) 0) ds row.totaltrans c.tables
      ok (record o { compressor = record c { tables = t } }))
    else if ds == o.end_of_buffer_state
    then (do
      t ← stack1 ds 0 (pos 0) jamstate_mark c.tables
      ok (record o { compressor = record c { tables = t } }))
    else (let (comfreq, comstate) = most_common row.targets 0 0 in
        do
          c' ← bldtbl (λ i. pos (row.state i)) ds row.totaltrans (pos comstate) comfreq c
          ok (record o { compressor = c' }))

-- The round for the state `ds`.
unfoldable pub ntod_round :
    (sort : List ℕ → List ℕ)
    → Machine
    → (num_start_states ds : ℕ) → Work × Output
    → Result (Work × Output)
unfolding state_row check_for_backing_up remove_nul place_row
ntod_round sort m num_start_states ds (w, o) = do
  (w1, row1) ← state_row sort m ds w
  w2 ← (if ltb num_start_states ds then check_for_backing_up ds w1 else ok w1)
  (w3, row3) ← (if o.nultrans then remove_nul m.nul_ec ds (w2, row1) else ok (w2, row1))
  o' ← place_row ds row3 o
  ok (w3, o')

-- `while (todo_head < todo_next)`, on fuel.
unfoldable pub ntod_loop :
    (sort : List ℕ → List ℕ)
    → Machine
    → (num_start_states fuel todo_head : ℕ) → Work × Output
    → Result (Work × Output)
unfolding ntod_round
ntod_loop sort m num_start_states zero todo_head (w, o) =
    if ltb todo_head w.todo_next then fault else ok (w, o)
ntod_loop sort m num_start_states (suc fuel) todo_head (w, o) =
    let rest = ntod_round sort m num_start_states (todo_head + 1) (w, o) >>= λ s'.
    ntod_loop sort m num_start_states fuel (todo_head + 1) s' in
    if ltb todo_head w.todo_next then rest else ok (w, o)

-- The states with one transition, the last first.
unfoldable pub place_stack : List OneTransition → Tables → Result Tables
unfolding mk1tbl
place_stack [] t = ok t
place_stack (e ∷ stack) t = do
  t' ← place_stack stack t
  mk1tbl e.onestate e.onesym e.onenext e.onedef t'

-- The end of the compressed tables, with `jambase`. `garbage` is what the array of `cmptmps` holds at
-- first.
unfoldable pub finish_tables : (garbage : ℕ → ℤ) → (jamstate : ℕ) → Output → Result (ℕ × Output)
unfolding cmptmps place_stack mkdeftbl
finish_tables garbage jamstate o = do
  c ← cmptmps garbage o.compressor
  t ← place_stack c.tables.stack c.tables
  (jambase, t') ← mkdeftbl jamstate (pos o.end_of_buffer_state) (record t { stack = [] })
  ok (jambase, record o { compressor = record c { tables = t' } })

-- The machine with the branches of the first states, the states and their tables. Only scanners that
-- are not for full speed have a state for the end of a buffer.
unfoldable pub ntod :
    (sort : List ℕ → List ℕ)
    → (garbage : ℕ → ℤ) → Machine
    → List StartCondition
    → (fuel : ℕ) → Builder
    → Work × Output
    → Result (Work × Output)
unfolding ntod_begin first_states_loop end_of_buffer ntod_loop finish_tables
ntod sort garbage m start_conditions fuel b (w, o) =
    let num_start_states = (length start_conditions - 1) * 2 in
    do
      (w0, o1) ← ntod_begin m (w, o)
      (b1, w1) ← first_states_loop sort m start_conditions num_start_states 1 (b, w0)
      let m1 = record m { nfas = b1.nfas } in
          if o.fullspd then ntod_loop sort m1 num_start_states fuel 0 (w1, o1) else (do
            (eob, w2) ← end_of_buffer sort w1
            (w3, o3) ←
                ntod_loop sort m1 (num_start_states + 1) fuel 0
                  (w2, record o1 { end_of_buffer_state = eob })
            if o.fulltbl then ok (w3, o3) else (do
              (jambase, o4) ← finish_tables garbage (length w3.globals.dfas) o3
              ok (w3, o4)))
