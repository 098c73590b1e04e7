-- ===== src/Tblcmp/Protos.antt =====
-- The queue of saved states (protos) of src/tblcmp.cpp: mkprot, mv2front and tbldiff.
use flex_cmake_old.Prelude.{ℕ, zero, suc, ◌+◌, ◌-◌, ◌*◌, ◌==◌, leb, if◌then◌else◌, Bool, ◌||◌}
use flex_cmake_old.Prelude.Int.{ℤ, pos, negsuc}
use flex_cmake_old.Tblcmp.State.{same_trans, update}

-- The arrays are functions on their indices.
pub record Protos : Type 0 where
  pub numecs : ℕ
  pub numprots : ℕ
  pub firstprot : ℕ
  pub lastprot : ℕ
  pub protprev : ℕ → ℕ
  pub protnext : ℕ → ℕ
  pub prottbl : ℕ → ℤ
  pub protcomst : ℕ → ℤ
  pub protsave : ℕ → ℤ

unfoldable pub assign : (ℕ → ℕ) → ℕ → ℕ → ℕ → ℕ
assign f i v j = if j == i then v else f j

-- MSP is 50 and PROT_SAVE_SIZE is 2000: the slot, with the last proto dropped where all are taken.
unfoldable pub take_slot : Protos → ℕ × Protos
unfolding assign
take_slot p =
    let n = p.numprots + 1 in
    let last = p.protprev p.lastprot in
    if leb 50 n || leb 2000 (p.numecs * n)
    then (
      p.lastprot,
      record p { numprots = n; lastprot = last; protnext = assign p.protnext last 0 },
    )
    else (n, record p { numprots = n })

-- The copy of the state into the save area.
unfoldable pub save_loop : (ℕ → ℤ) → (tblbase rounds i : ℕ) → (ℕ → ℤ) → ℕ → ℤ
save_loop state tblbase zero i save = save
save_loop state tblbase (suc rounds) i save =
    save_loop state tblbase rounds (i + 1) (update save (tblbase + i) (state i))

unfoldable pub mkprot : (ℕ → ℤ) → (statenum comstate : ℤ) → Protos → Protos
unfolding take_slot assign save_loop
mkprot state statenum comstate p =
    let (slot, q) = take_slot p in
    record q {
      protnext = assign q.protnext slot q.firstprot;
      protprev = if q.firstprot == 0 then q.protprev else assign q.protprev q.firstprot slot;
      firstprot = slot;
      prottbl = update q.prottbl slot statenum;
      protcomst = update q.protcomst slot comstate;
      protsave = save_loop state (q.numecs * (slot - 1)) q.numecs 1 q.protsave;
    }

-- The element is taken out of its place.
unfoldable pub unlink_proto : (qelm : ℕ) → Protos → Protos
unfolding assign
unlink_proto qelm p =
    let next = assign p.protnext (p.protprev qelm) (p.protnext qelm) in
    record p {
      lastprot = if qelm == p.lastprot then p.protprev p.lastprot else p.lastprot;
      protnext = next;
      protprev =
          if next qelm == 0 then p.protprev else assign p.protprev (next qelm) (p.protprev qelm);
    }

unfoldable pub mv2front : (qelm : ℕ) → Protos → Protos
unfolding unlink_proto assign
mv2front qelm p =
    let q = unlink_proto qelm p in
    if p.firstprot == qelm then p else record q {
      protprev = assign (assign q.protprev qelm 0) q.firstprot qelm;
      protnext = assign q.protnext qelm q.firstprot;
      firstprot = qelm;
    }

unfoldable pub equal : ℤ → ℤ → Bool
equal (pos a) (pos b) = a == b
equal (negsuc a) (negsuc b) = a == b
equal (pos a) (negsuc b) = 0 == 1
equal (negsuc a) (pos b) = 0 == 1

-- The loop of `tbldiff`, with the number of differences and the array `ext`.
unfoldable pub diff_loop : (state proto : ℕ → ℤ) → (rounds i : ℕ) → ℕ × (ℕ → ℤ) → ℕ × (ℕ → ℤ)
unfolding equal
diff_loop state proto zero i s = s
diff_loop state proto (suc rounds) i (numdiff, ext) = diff_loop state proto rounds (i + 1) (
    if equal (proto i) (state i)
    then (numdiff, update ext i same_trans)
    else (numdiff + 1, update ext i (state i)))

unfoldable pub tbldiff : (state : ℕ → ℤ) → (pr : ℕ) → (ext : ℕ → ℤ) → Protos → ℕ × (ℕ → ℤ)
unfolding diff_loop
tbldiff state pr ext p =
    diff_loop state (λ i. p.protsave (p.numecs * (pr - 1) + i)) p.numecs 1 (0, ext)
