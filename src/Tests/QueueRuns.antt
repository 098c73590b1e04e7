-- ===== src/Tests/QueueRuns.antt =====
-- A run of the queue of `ntod` for full tables, and its theorem at a concrete input.
use flex_cmake_old.Prelude.{◌≡◌, refl, true, false, List, [], ◌∷◌}
use flex_cmake_old.Prelude.Int.{ℤ, pos, negsuc}
use flex_cmake_old.Common.{Result, ok, exit, fault, at}
use flex_cmake_old.Ecs.{one_class, mkechar}
use flex_cmake_old.Ecs.Partition.{mkeccl}
use flex_cmake_old.Dfa.Closure.Spec.{node_at}
use flex_cmake_old.Dfa.Construct.{Work}
use flex_cmake_old.Dfa.Ntod.{Output, ntod_loop}
use flex_cmake_old.Tests.DfaRuns.{place, sort_insert}
use flex_cmake_old.Tests.NtodRuns.{machine, begin}

-- Full tables do not use the compressor.
abbrev output : Output
output = record {
  fullspd = false;
  fulltbl = true;
  nultrans = false;
  num_full_table_rows = 6;
  end_of_buffer_state = 9;
  yynxt_data = [];
  compressor = record {
    tables = record {
      chk = [];
      nxt = [];
      tblend = 0;
      firstfree = 1;
      numecs = 5;
      numtemps = 0;
      capacity = 8;
      base = λ i. pos 0;
      def = λ i. pos 0;
      stack = [];
    };
    protos = record {
      numecs = 5;
      numprots = 0;
      firstprot = 0;
      lastprot = 0;
      protprev = λ i. 0;
      protnext = λ i. 0;
      prottbl = λ i. pos 0;
      protcomst = λ i. pos 0;
      protsave = λ i. pos 0;
    };
    tecs = one_class 5;
    flags = λ j. false;
    tnxt = λ i. pos 0;
    usemecs = false;
    nummecs = 0;
    peakpairs = 0;
    size = 8;
  };
}

elements_of : Result (Work × Output) → List ℤ
elements_of (ok (w, o)) = o.yynxt_data
elements_of (exit e) = []
elements_of fault = []

-- The rows of four states.
the_table :
    elements_of (ntod_loop sort_insert machine 0 6 0 (begin, output))
    ≡ pos 9
      ∷ pos 2
      ∷ negsuc 0
      ∷ pos 3
      ∷ negsuc 0
      ∷ pos 2
      ∷ pos 9
      ∷ negsuc 1
      ∷ negsuc 1
      ∷ pos 4
      ∷ negsuc 1
      ∷ negsuc 1
      ∷ pos 9
      ∷ pos 2
      ∷ negsuc 2
      ∷ pos 3
      ∷ negsuc 2
      ∷ pos 2
      ∷ pos 9
      ∷ pos 2
      ∷ negsuc 3
      ∷ pos 2
      ∷ negsuc 3
      ∷ pos 2
      ∷ []
unfolding elements_of ntod_loop sort_insert place at mkechar mkeccl one_class node_at
the_table = refl
