-- ===== src/Dfa/Ntod/Queue.antt =====
-- The rounds of `ntod` for full tables, and its queue.
use flex_cmake_old.Prelude.{ℕ, suc, ◌+◌, ◌-◌, ◌≤◌, ◌<◌, ◌≡◌, ◌⊎◌, List, ◌++◌, length}
use flex_cmake_old.Prelude.Int.{ℤ}
use flex_cmake_old.Common.{ok, fault}
use flex_cmake_old.Dfa.{Dfa}
use flex_cmake_old.Dfa.Construct.{Machine, Work}
use flex_cmake_old.Dfa.Construct.Enter.{Extends}
use flex_cmake_old.Dfa.Ntod.{Output, ntod_round, ntod_loop}
use flex_cmake_old.Dfa.Ntod.Full.{RowsOf}

-- So many rounds of the loop return, each on a state of the queue, from the head on.
pub data Rounds (sort : List ℕ → List ℕ) (m : Machine) (num_start_states : ℕ)
    : (count head : ℕ) → Work × Output → Work × Output → Type 0 where
  stop : {head : ℕ} {s : Work × Output} → Rounds sort m num_start_states 0 head s s
  round :
      {count head : ℕ} {s s1 s2 : Work × Output}
      → head < s.0.todo_next
      → ntod_round sort m num_start_states (head + 1) s ≡ ok s1
      → Rounds sort m num_start_states count (head + 1) s1 s2
      → Rounds sort m num_start_states (suc count) head s s2

-- The queue is emptied and the rows are written, unless there are more states than rounds.
abbrev pub Written :
    (sort : List ℕ → List ℕ) → Machine → (num_start_states fuel head : ℕ) → Work → Output → Type 0
Written sort m num_start_states fuel head w o =
    ((w' : Work) × (elements : List ℤ) × (ntod_loop sort m num_start_states fuel head (w, o)
        ≡ ok (w', record o { yynxt_data = o.yynxt_data ++ elements }))
      × RowsOf sort m w'.globals.dfas o.end_of_buffer_state o.num_full_table_rows
          (w'.todo_next - head) head elements
      × (length w'.globals.dfas ≡ suc w'.todo_next)
      × (head ≤ w'.todo_next)
      × Extends w.globals.dfas w'.globals.dfas)
    ⊎ ((w' : Work) × (o' : Output) × (ntod_loop sort m num_start_states fuel head (w, o) ≡ fault)
        × Rounds sort m num_start_states fuel head (w, o) (w', o')
        × (head + fuel < w'.todo_next)
        × (length w'.globals.dfas ≡ suc w'.todo_next)
        × Extends w.globals.dfas w'.globals.dfas)
