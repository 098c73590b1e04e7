-- ===== src/Dfa.antt =====
-- The subset construction: src/dfa.cpp, and Dfa of src/common.h. Index 0 of the vectors of states
-- and of accepting numbers is not used.
pub mod Closure
pub mod Partition
pub mod Follow
pub mod Interning
pub mod Construct
pub mod Ntod
use flex_cmake_old.Prelude.{
  ℕ, zero, suc, ◌+◌, ◌-◌, ◌/◌, ◌%◌, ◌==◌, ltb, leb, if◌then◌else◌, Bool, true, false, not, ◌&&◌,
  List, [], ◌∷◌, ◌++◌, length, set, take, drop, get_elem?, none, some, Option,
}
use flex_cmake_old.Prelude.Int.{ℤ, pos, negsuc, abs}
use flex_cmake_old.Common.{Result, ok, fault, ◌>>=◌, ◌>>◌, at}
use flex_cmake_old.CharacterTable.{CharacterTable}
use flex_cmake_old.Ccl.{CharacterClass, CharacterClasses}
use flex_cmake_old.Nfa.State.{Nfa, Rule, RuleType, StateType, is_epsilon}

-- `acc_set` is null at first.
pub record Dfa : Type 0 where
  pub base : ℤ
  pub def : ℤ
  pub hash : ℕ
  pub nultrans : ℤ
  pub dss : List ℕ
  pub acc_set : Option (List ℕ)
  pub acc_state : ℕ

-- A write of a vector.
unfoldable pub put : List ℕ → ℕ → ℕ → Result (List ℕ)
put xs i v = if ltb i (length xs) then ok (set xs i v) else fault

-- The loops over the characters of a class: is `transsym` found before a larger one? NUL stands for
-- its equivalence class.
unfoldable pub finds : (nul_ec transsym : ℕ) → CharacterTable → Bool
finds nul_ec transsym [] = false
finds nul_ec transsym (ch ∷ table) =
    let c = if ch == 0 then nul_ec else ch in
    let rest = finds nul_ec transsym table in
    if ltb transsym c then false else if c == transsym then true else rest

-- Does a state with this `transchar` go on with `transsym`?
unfoldable pub goes_on :
    CharacterClasses → (ecgroup : ℕ → ℤ) → (nul_ec transsym : ℕ) → ℤ → Result Bool
unfolding finds
goes_on ccls ecgroup nul_ec transsym (pos sym) =
    ok (if is_epsilon (pos sym) then false else abs (ecgroup sym) == transsym)
goes_on ccls ecgroup nul_ec transsym (negsuc k) = do
  ccl ← at ccls (suc k)
  ok (if ccl.ng then not (finds nul_ec transsym ccl.table) else finds nul_ec transsym ccl.table)

-- The round for a state: `nset[++numstates] = tsp`, or nothing.
unfoldable pub follow_step : (tsp : ℕ) → Bool → ℕ × List ℕ → Result (ℕ × List ℕ)
unfolding put
follow_step tsp true (numstates, nset) = do
  nset' ← put nset (numstates + 1) tsp
  ok (numstates + 1, nset')
follow_step tsp false s = ok s

unfoldable pub follow_loop :
    List Nfa
    → CharacterClasses
    → (ecgroup : ℕ → ℤ) → (nul_ec transsym : ℕ) → List ℕ
    → ℕ × List ℕ
    → Result (ℕ × List ℕ)
unfolding goes_on follow_step
follow_loop nfas ccls ecgroup nul_ec transsym [] s = ok s
follow_loop nfas ccls ecgroup nul_ec transsym (ns ∷ ds) s = do
  n ← at nfas ns
  goes ← goes_on ccls ecgroup nul_ec transsym n.transchar
  s' ← follow_step n.trans1 goes s
  follow_loop nfas ccls ecgroup nul_ec transsym ds s'

-- The number of states, and `nset` with them.
unfoldable pub symfollowset :
    List Nfa
    → CharacterClasses
    → (ecgroup : ℕ → ℤ) → (nul_ec : ℕ) → (ds : List ℕ) → (transsym : ℕ) → (nset : List ℕ)
    → Result (ℕ × List ℕ)
unfolding follow_loop
symfollowset nfas ccls ecgroup nul_ec ds transsym nset =
    follow_loop nfas ccls ecgroup nul_ec transsym (drop 1 ds) (0, nset)

-- The globals that `snstods` reads and writes.
pub record Dfas : Type 0 where
  pub dfas : List Dfa
  pub rules : List Rule
  pub reject : Bool
  pub dfaeql : ℕ
  pub hshcol : ℕ
  pub hshsave : ℕ

-- `sort` is `qsort` with `intcmp`, of the library: the first `n` elements behind index 0 are sorted.
unfoldable pub sort_slots : (sort : List ℕ → List ℕ) → (n : ℕ) → List ℕ → List ℕ
sort_slots sort n [] = []
sort_slots sort n (x ∷ xs) = x ∷ (sort (take n xs) ++ drop n xs)

-- `j > numstates` after the loop over `sns[j] != oldsns[j]`, with the elements behind index 0.
unfoldable pub same_states : (n : ℕ) → List ℕ → List ℕ → Bool
same_states zero xs ys = true
same_states (suc n) [] ys = false
same_states (suc n) (x ∷ xs) [] = false
same_states (suc n) (x ∷ xs) (y ∷ ys) = (x == y) && same_states n xs ys

-- The search for the state set. `states` are those of `sns` in order: `sns` is sorted before the
-- first comparison, and at the latest when the new state is made.
pub record Search : Type 0 where
  pub found : Option ℕ
  pub collisions : ℕ
  pub saved : ℕ

unfoldable pub search_loop :
    (hashval numstates : ℕ) → (states : List ℕ) → List Dfa → (i : ℕ) → Search → Search
unfolding same_states
search_loop hashval numstates states [] i s = s
search_loop hashval numstates states (d ∷ ds) i s =
    let rest = search_loop hashval numstates states ds (i + 1) in
    if hashval == d.hash
    then if length d.dss == numstates + 1
      then if same_states numstates states (drop 1 d.dss)
        then record s { found = some i }
        else rest (record s { collisions = s.collisions + 1 })
      else rest (record s { saved = s.saved + 1 })
    else rest s

-- The lowest of the accepting numbers, from `rules.size()` down.
unfoldable pub lowest : (j : ℕ) → List ℕ → ℕ
lowest j [] = j
lowest j (a ∷ accset) = lowest (if ltb a j then a else j) accset

-- `if (j < rules.size()) rules[j].useful = true`
unfoldable pub mark_useful : List Rule → ℕ → List Rule
mark_useful [] j = []
mark_useful (r ∷ rules) zero = record r { useful = true } ∷ rules
mark_useful (r ∷ rules) (suc j) = r ∷ mark_useful rules j

unfoldable pub mark_all_useful : List Rule → List ℕ → List Rule
unfolding mark_useful
mark_all_useful rules [] = rules
mark_all_useful rules (a ∷ accset) = mark_all_useful (mark_useful rules a) accset

-- The accepting fields of the new state, and the rules that it makes useful.
unfoldable pub accepting :
    (sort : List ℕ → List ℕ)
    → (reject : Bool) → List Rule
    → (accepted : List ℕ) → (Option (List ℕ) × ℕ) × List Rule
unfolding lowest mark_all_useful
accepting sort reject rules [] = ((none, 0), rules)
accepting sort true rules (a ∷ rest) =
    ((some (0 ∷ sort (a ∷ rest)), 0), mark_all_useful rules (sort (a ∷ rest)))
accepting sort false rules (a ∷ rest) =
    ((none, lowest (length rules) (a ∷ rest)), mark_useful rules (lowest (length rules) (a ∷ rest)))

unfoldable pub new_dfa : (hashval : ℕ) → (states : List ℕ) → Option (List ℕ) × ℕ → Dfa
new_dfa hashval states (acc_set, acc_state) = record {
  base = pos 0;
  def = pos 0;
  hash = hashval;
  nultrans = pos 0;
  dss = 0 ∷ states;
  acc_set = acc_set;
  acc_state = acc_state;
}

-- What `snstods` returns (1 for a new state), `*newds_addr`, and the globals.
unfoldable pub intern :
    (sort : List ℕ → List ℕ)
    → (states accepted : List ℕ) → (hashval : ℕ) → Search
    → Dfas
    → (ℕ × ℕ) × Dfas
unfolding accepting new_dfa
intern sort states accepted hashval s t =
    let counted = record t { hshcol = t.hshcol + s.collisions; hshsave = t.hshsave + s.saved } in
    elim s.found [
      | some i ↦ ((0, i), record counted { dfaeql = t.dfaeql + 1 })
      | none ↦
          let (acc, rules') = accepting sort t.reject t.rules accepted in
          (
            (1, length t.dfas),
            record counted { dfas = t.dfas ++ (new_dfa hashval states acc ∷ []); rules = rules' },
          )
    ]

-- `accset` is sorted for a new state that keeps its whole accepting set.
unfoldable pub sorted_accset :
    (sort : List ℕ → List ℕ) → (flag nacc : ℕ) → (reject : Bool) → List ℕ → List ℕ
unfolding sort_slots
sorted_accset sort flag nacc reject accset =
    if flag == 1 && reject then sort_slots sort nacc accset else accset

pub record Interned : Type 0 where
  pub flag : ℕ
  pub newds : ℕ
  pub sns : List ℕ
  pub accset : List ℕ
  pub globals : Dfas

-- The whole of `snstods` for vectors that are long enough.
unfoldable pub interned :
    (sort : List ℕ → List ℕ)
    → (sns : List ℕ) → (numstates : ℕ) → (accset : List ℕ) → (nacc hashval : ℕ) → Dfas
    → Interned
unfolding search_loop intern sort_slots sorted_accset
interned sort sns numstates accset nacc hashval t =
    let states = sort (take numstates (drop 1 sns)) in
    let search =
      search_loop hashval numstates states (drop 1 t.dfas) 1
        (record { found = none; collisions = 0; saved = 0 }) in
    let ((flag, newds), t') = intern sort states (take nacc (drop 1 accset)) hashval search t in
    record {
      flag = flag;
      newds = newds;
      sns = sort_slots sort numstates sns;
      accset = sorted_accset sort flag nacc t.reject accset;
      globals = t';
    }

-- Vectors that are shorter than the counts say fault.
unfoldable pub snstods :
    (sort : List ℕ → List ℕ)
    → (sns : List ℕ) → (numstates : ℕ) → (accset : List ℕ) → (nacc hashval : ℕ) → Dfas
    → Result Interned
unfolding interned
snstods sort sns numstates accset nacc hashval t =
    if ltb numstates (length sns) && leb nacc (length accset - 1)
    then ok (interned sort sns numstates accset nacc hashval t)
    else fault

-- `check_trailing_context`: the number of warnings is 0 or 1, with the line of the rule.
has_head : List ℕ → Bool
has_head [] = false
has_head (a ∷ accset) = if a / 16384 % 2 == 1 then true else has_head accset

is_variable : RuleType → Bool
is_variable RuleType.normal = false
is_variable RuleType.variable = true

-- The warning for a state, if there is one.
dangerous : List Rule → (accepted : List ℕ) → (assoc_rule : ℕ) → StateType → Result (Option ℕ)
unfolding has_head is_variable
dangerous rules accepted ar StateType.normal = ok none
dangerous rules accepted ar StateType.trailing_context = do
  r ← at rules ar
  ok (if is_variable r.type && has_head accepted then some r.linenum else none)

trailing_loop : List Nfa → List Rule → (states accepted : List ℕ) → Result (Option ℕ)
unfolding dangerous
trailing_loop nfas rules [] accepted = ok none
trailing_loop nfas rules (ns ∷ states) accepted = do
  n ← at nfas ns
  warning ← dangerous rules accepted n.assoc_rule n.state_type
  elim warning [ none ↦ trailing_loop nfas rules states accepted | some line ↦ ok (some line) ]

unfoldable pub check_trailing_context :
    List Nfa
    → List Rule
    → (nfa_states : List ℕ) → (num_states : ℕ) → (accset : List ℕ) → (nacc : ℕ) → Result (Option ℕ)
unfolding trailing_loop
check_trailing_context nfas rules nfa_states num_states accset nacc =
    trailing_loop nfas rules (take num_states (drop 1 nfa_states)) (take nacc (drop 1 accset))
