-- ===== src/Tblcmp/Build.antt =====
-- The choice of how a state is compressed, and the templates: bldtbl, mktemplate, cmptmps and inittbl.
use flex_cmake_old.Prelude.{ℕ, zero, suc, ◌+◌, ◌*◌, ◌==◌, ltb, leb, if◌then◌else◌, Bool, [], ◌∷◌}
use flex_cmake_old.Prelude.Int.{ℤ, pos, neg, abs, is_zero, is_positive}
use flex_cmake_old.Common.{Result, ok, fault, ◌>>=◌}
use flex_cmake_old.CharacterTable.{CharacterTable}
use flex_cmake_old.Ecs.{Links, one_class, cre8ecs}
use flex_cmake_old.Ecs.Partition.{Flags, mkeccl}
use flex_cmake_old.Tblcmp.State.{jamstate_mark, Tables, update}
use flex_cmake_old.Tblcmp.Entry.{max, mkentry}
use flex_cmake_old.Tblcmp.Protos.{Protos, mkprot, mv2front, tbldiff, equal}

-- `tecs` are `tecfwd` and `tecbck`, `flags` the static array of `mkeccl`, `size` is dfas.size().
pub record Compressor : Type 0 where
  pub tables : Tables
  pub protos : Protos
  pub tecs : Links
  pub flags : Flags
  pub tnxt : ℕ → ℤ
  pub usemecs : Bool
  pub nummecs : ℕ
  pub peakpairs : ℕ
  pub size : ℕ

unfoldable pub inittbl : Compressor → Compressor
inittbl c = record c {
  tables = record c.tables { tblend = 0; firstfree = 1; numtemps = 0 };
  tecs = if c.usemecs then one_class c.tables.numecs else c.tecs;
}

-- `mkentry` on the tables.
unfoldable pub enter :
    (ℕ → ℤ)
    → (numchars statenum : ℕ) → (deflink : ℤ) → (totaltrans : ℕ) → Compressor
    → Result Compressor
enter state numchars statenum deflink totaltrans c = do
  t ← mkentry state numchars statenum deflink totaltrans c.tables
  ok (record c { tables = t })

-- The classes with a transition, and the template in `tnxt`.
unfoldable pub transset : (ℕ → ℤ) → (rounds i : ℕ) → CharacterTable
transset state zero i = []
transset state (suc rounds) i =
    if is_zero (state i) then transset state rounds (i + 1) else i ∷ transset state rounds (i + 1)

unfoldable pub template_loop : (ℕ → ℤ) → (comstate : ℤ) → (tmpbase rounds i : ℕ) → (ℕ → ℤ) → ℕ → ℤ
template_loop state comstate tmpbase zero i tnxt = tnxt
template_loop state comstate tmpbase (suc rounds) i tnxt =
    template_loop state comstate tmpbase rounds (i + 1)
      (update tnxt (tmpbase + i) (if is_zero (state i) then pos 0 else comstate))

-- The new template among the protos and the equivalence classes.
unfoldable pub add_template : (ℕ → ℤ) → (comstate : ℤ) → Compressor → Compressor
unfolding transset template_loop
add_template state comstate c =
    let numtemps = c.tables.numtemps + 1 in
    let numecs = c.tables.numecs in
    let tnxt = template_loop state comstate (numtemps * numecs) numecs 1 c.tnxt in
    let (tecs, flags) = mkeccl (transset state numecs 1) numecs 0 (c.tecs, c.flags) in
    record c {
      tables = record c.tables { numtemps = numtemps };
      tnxt = tnxt;
      tecs = if c.usemecs then tecs else c.tecs;
      flags = if c.usemecs then flags else c.flags;
      protos = mkprot (λ i. tnxt (numtemps * numecs + i)) (neg numtemps) comstate c.protos;
    }

unfoldable pub mktemplate :
    (ℕ → ℤ) → (statenum : ℕ) → (comstate : ℤ) → Compressor → Result Compressor
unfolding add_template enter
mktemplate state statenum comstate c =
    let c' = add_template state comstate c in
    let (numdiff, tmp) = tbldiff state c'.protos.firstprot (λ i. pos 0) c'.protos in
    enter tmp c'.tables.numecs statenum (neg c'.tables.numtemps) numdiff c'

-- The best proto to date, with the array of its differences.
pub record Best : Type 0 where
  pub minprot : ℕ
  pub mindiff : ℕ
  pub ext : ℕ → ℤ

-- The first proto with the same common state. The queue has fewer than MSP = 50 elements.
unfoldable pub find_common : (ℕ → ℤ) → (comstate : ℤ) → Protos → (fuel i : ℕ) → Best → Result Best
find_common state comstate p zero i b = if i == 0 then ok b else fault
find_common state comstate p (suc fuel) i b =
    let (d, ext) = tbldiff state i b.ext p in
    let rest = find_common state comstate p fuel (p.protnext i) b in
    if i == 0
    then ok b
    else if equal (p.protcomst i) comstate
    then ok (record { minprot = i; mindiff = d; ext = ext })
    else rest

unfoldable pub first_best :
    (ℕ → ℤ) → (totaltrans : ℕ) → (comstate : ℤ) → (checkcom : Bool) → Protos → Result Best
unfolding find_common
first_best state totaltrans comstate checkcom p =
    let start : Best = record { minprot = p.firstprot; mindiff = totaltrans; ext = λ i. pos 0 } in
    let (d, ext) = tbldiff state p.firstprot start.ext p in
    if checkcom
    then find_common state comstate p 50 p.firstprot start
    else if p.firstprot == 0
    then ok start
    else ok (record { minprot = p.firstprot; mindiff = d; ext = ext })

-- The scan of the protos from one on.
unfoldable pub scan_protos : (ℕ → ℤ) → Protos → (fuel i : ℕ) → Best → Result Best
scan_protos state p zero i b = if i == 0 then ok b else fault
scan_protos state p (suc fuel) i b =
    let (d, ext) = tbldiff state i b.ext p in
    let rest =
      scan_protos state p fuel (p.protnext i)
        (if ltb d b.mindiff then record { minprot = i; mindiff = d; ext = ext } else b) in
    if i == 0 then ok b else rest

-- FIRST_MATCH_DIFF_PERCENTAGE is 10.
unfoldable pub best_proto :
    (ℕ → ℤ) → (totaltrans : ℕ) → (comstate : ℤ) → (checkcom : Bool) → Protos → Result Best
unfolding first_best scan_protos
best_proto state totaltrans comstate checkcom p = do
  b ← first_best state totaltrans comstate checkcom p
  if ltb (totaltrans * 10) (b.mindiff * 100) then scan_protos state p 50 b.minprot b else ok b

-- No proto is near: a template where TEMPLATE_SAME_PERCENTAGE = 60 of the transitions agree.
unfoldable pub new_proto :
    (ℕ → ℤ)
    → (statenum totaltrans : ℕ) → (comstate : ℤ) → (comfreq : ℕ) → Compressor
    → Result Compressor
unfolding mktemplate enter
new_proto state statenum totaltrans comstate comfreq c =
    if leb (totaltrans * 60) (comfreq * 100)
    then mktemplate state statenum comstate c
    else enter state c.tables.numecs statenum jamstate_mark totaltrans
        (record c { protos = mkprot state (pos statenum) comstate c.protos })

-- A proto is used; NEW_PROTO_DIFF_PERCENTAGE is 20.
unfoldable pub use_proto :
    (ℕ → ℤ) → (statenum totaltrans : ℕ) → (comstate : ℤ) → Best → Compressor → Result Compressor
unfolding enter
use_proto state statenum totaltrans comstate b c = do
  c' ← enter b.ext c.tables.numecs statenum (c.protos.prottbl b.minprot) b.mindiff c
  let p =
      if leb (totaltrans * 20) (b.mindiff * 100)
      then mkprot state (pos statenum) comstate c'.protos
      else c'.protos
  ok (record c' { protos = mv2front b.minprot p })

-- ACCEPTABLE_DIFF_PERCENTAGE is 50. Where the most common state is not checked for it is 0.
unfoldable pub by_proto :
    (ℕ → ℤ)
    → (statenum totaltrans : ℕ) → (comstate : ℤ) → (comfreq : ℕ) → (checkcom : Bool) → Compressor
    → Result Compressor
unfolding best_proto new_proto use_proto
by_proto state statenum totaltrans comstate comfreq checkcom c = do
  b ← best_proto state totaltrans comstate checkcom c.protos
  if ltb (totaltrans * 50) (b.mindiff * 100)
      then new_proto state statenum totaltrans comstate comfreq c
      else use_proto state statenum totaltrans comstate b c

-- PROTO_SIZE_PERCENTAGE is 15 and CHECK_COM_PERCENTAGE is 50.
unfoldable pub bldtbl :
    (ℕ → ℤ)
    → (statenum totaltrans : ℕ) → (comstate : ℤ) → (comfreq : ℕ) → Compressor
    → Result Compressor
unfolding by_proto enter
bldtbl state statenum totaltrans comstate comfreq c =
    let checkcom = ltb (totaltrans * 50) (comfreq * 100) in
    if ltb (totaltrans * 100) (c.tables.numecs * 15)
    then enter state c.tables.numecs statenum jamstate_mark totaltrans c
    else by_proto state statenum totaltrans (if checkcom then comstate else pos 0) comfreq checkcom
        c

-- The table of a template by meta-equivalence classes, with the number of its transitions. `group` is
-- tecbck after cre8ecs.
unfoldable pub meta_loop :
    (usemecs : Bool)
    → (group : ℕ → ℤ) → (trans : ℕ → ℤ) → (rounds j : ℕ) → ℕ × (ℕ → ℤ)
    → ℕ × (ℕ → ℤ)
meta_loop usemecs group trans zero j s = s
meta_loop usemecs group trans (suc rounds) j (totaltrans, tmp) =
    let more = if is_positive (trans j) then totaltrans + 1 else totaltrans in
    meta_loop usemecs group trans rounds (j + 1) (
      if usemecs
      then if is_positive (group j)
        then (more, update tmp (abs (group j)) (trans j))
        else (totaltrans, tmp)
      else (more, update tmp j (trans j)))

-- The loop over the templates; `tmp` is one array for all.
unfoldable pub templates_loop :
    (group : ℕ → ℤ) → (rounds i : ℕ) → (tmp : ℕ → ℤ) → Compressor → Result Compressor
unfolding meta_loop enter
templates_loop group zero i tmp c = ok c
templates_loop group (suc rounds) i tmp c =
    let (totaltrans, tmp') =
      meta_loop c.usemecs group (λ j. c.tnxt (c.tables.numecs * i + j)) c.tables.numecs 1
        (0, tmp) in
    do
      c' ← enter tmp' c.nummecs (c.size + i) jamstate_mark totaltrans c
      templates_loop group rounds (i + 1) tmp' c'

-- `dfas` gets room for the templates, which are behind its last element.
unfoldable pub cmptmps : (garbage : ℕ → ℤ) → Compressor → Result Compressor
unfolding templates_loop
cmptmps garbage c =
    let numtemps = c.tables.numtemps in
    let (classes, group) = cre8ecs c.tecs c.tables.numecs in
    templates_loop group numtemps 1 garbage (record c {
      peakpairs = numtemps * c.tables.numecs + c.tables.tblend;
      nummecs = if c.usemecs then classes else c.tables.numecs;
      tables = record c.tables { capacity = max c.tables.capacity (c.size + numtemps + 1) };
    })
