-- ===== src/Tests/TblcmpRuns.antt =====
-- Runs of the table compression and its theorems at concrete inputs.
use flex_cmake_old.Prelude.{
  ℕ, zero, suc, ◌<◌, true, ◌+◌, ◌-◌, ◌*◌, ◌≤◌, ◌≡◌, refl, ◌==◌, if◌then◌else◌, [], ◌∷◌, arith,
}
use flex_cmake_old.Prelude.Int.{ℤ, pos}
use flex_cmake_old.Common.{ok}
use flex_cmake_old.Tblcmp.State.{jamstate_mark, Tables, is_same}
use flex_cmake_old.Tblcmp.Entry.{mk1tbl, needed, mkentry}
use flex_cmake_old.Tblcmp.Protos.{Protos, tbldiff}
use flex_cmake_old.Tblcmp.Diff.{differences, tbldiff_patches}
use flex_cmake_old.Tblcmp.Grown.{IsOpen}
use flex_cmake_old.Tblcmp.Entered.{Entered, mkentry-Entered}
use flex_cmake_old.Tblcmp.Single.{look, Adds, mk1tbl-Adds}

-- Place 1 is taken by state 1; state 2 is added for the symbol 3.
abbrev one_entry : Tables
one_entry = record {
  chk = 0 ∷ 1 ∷ 0 ∷ [];
  nxt = pos 0 ∷ pos 2 ∷ pos 0 ∷ [];
  tblend = 1;
  firstfree = 2;
  numecs = 4;
  numtemps = 0;
  capacity = 8;
  base = λ i. pos 0;
  def = λ i. pos 0;
  stack = [];
}

mk1tbl-Adds_example :
    (t' : Tables) × (p : ℕ) × (mk1tbl 2 3 (pos 5) (pos 0) one_entry ≡ ok t')
    × (look 0 one_entry.chk p ≡ 0)
    × (3 ≤ p)
    × (t'.base 2 ≡ pos (p - 3))
    × (t'.def 2 ≡ pos 0)
    × Adds 2 p (pos 5) 1 one_entry t'
mk1tbl-Adds_example = mk1tbl-Adds 2 3 (pos 5) (pos 0) one_entry 1 (omega arith)

-- A proto with the entries 7, 7, 0 and a state with 7, 9, 0.
abbrev one_proto : Protos
one_proto = record {
  numecs = 3;
  numprots = 1;
  firstprot = 1;
  lastprot = 1;
  protprev = λ i. 0;
  protnext = λ i. 0;
  prottbl = λ i. pos 1;
  protcomst = λ i. pos 7;
  protsave = λ i. if i == 3 then pos 0 else pos 7;
}

abbrev near_state : ℕ → ℤ
near_state i = if i == 3 then pos 0 else if i == 2 then pos 9 else pos 7

tbldiff_patches_example :
    ((if is_same ((tbldiff near_state 1 (λ i. pos 0) one_proto).1 2)
        then one_proto.protsave (3 * (1 - 1) + 2)
        else (tbldiff near_state 1 (λ i. pos 0) one_proto).1 2)
      ≡ near_state 2)
    × ((tbldiff near_state 1 (λ i. pos 0) one_proto).0
        ≡ differences near_state (λ i. one_proto.protsave (3 * (1 - 1) + i)) 3 1)
tbldiff_patches_example =
    tbldiff_patches near_state 1 (λ i. pos 0) one_proto 2 refl (omega arith) (omega arith)

one_entry-IsOpen : IsOpen one_entry
unfolding look
one_entry-IsOpen = record { lengths = refl; free = λ q h. past q h; room = λ z. omega arith }
  where
    past : (q : ℕ) → 1 < q → look 0 one_entry.chk q ≡ 0
    past zero h = absurd (omega arith)
    past (suc zero) h = absurd (omega arith)
    past (suc (suc zero)) h = refl
    past (suc (suc (suc q))) h = refl

-- Transitions on the symbols 1 and 3.
abbrev two_moves : ℕ → ℤ
two_moves i = if i == 1 then pos 4 else if i == 3 then pos 5 else pos 0

moves_on_three : needed two_moves jamstate_mark 3 ≡ true
unfolding needed
moves_on_three = refl

mkentry-Entered_example :
    (b : ℕ) × (t' : Tables) × (mkentry two_moves 4 2 jamstate_mark 2 one_entry ≡ ok t')
    × Entered two_moves jamstate_mark 4 2 b one_entry t'
mkentry-Entered_example =
    mkentry-Entered two_moves jamstate_mark 4 2 2 3 one_entry (omega arith) (omega arith)
      (omega arith) moves_on_three (omega arith) one_entry-IsOpen
