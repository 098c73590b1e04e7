-- ===== src/Nfa/Build.antt =====
-- The functions of src/nfa.cpp that build machines.
use Prim.Native.Nat.{min, max}
use flex_cmake_old.Prelude.{
  ℕ, zero, suc, ◌+◌, ◌-◌, ◌==◌, if◌then◌else◌, Bool, false, not, ◌&&◌, ◌||◌, [], ◌∷◌, ◌++◌, length,
}
use flex_cmake_old.Prelude.Int.{ℤ, pos, negsuc}
use flex_cmake_old.Common.{Message, ok, exit, fault, check_char}
use flex_cmake_old.Ecs.{mkechar}
use flex_cmake_old.Nfa.State.{
  StateType, Nfa, RuleType, Builder, nil, no_transition, sym_epsilon, is_epsilon, M, ◌>>=◌, ◌>>◌,
  pure, fail, node, put_node, get, modify,
}

-- SUPER_FREE_EPSILON of src/flexdef.h: an epsilon state with both slots free.
unfoldable pub super_free_epsilon : Nfa → Bool
super_free_epsilon n = is_epsilon n.transchar && (n.trans1 == no_transition)

unfoldable pub fresh_nfa : Builder → ℤ → Nfa
fresh_nfa s sym = record {
  firstst = length s.nfas;
  lastst = length s.nfas;
  finalst = length s.nfas;
  transchar = sym;
  trans1 = no_transition;
  trans2 = no_transition;
  accptnum = nil;
  assoc_rule = length s.rules - 1;
  state_type = s.current_state_type;
}

-- `if (useecs) mkechar(sym ? sym : csize, nextecm, ecgroup)`
unfoldable pub part_character : ℕ → Builder → Builder
part_character c s =
    if s.useecs then record s { links = mkechar (if c == 0 then s.csize else c) s.links } else s

-- The update of the equivalence classes in `mkstate`.
unfoldable pub fix_classes : ℤ → M (Unit {0})
unfolding part_character
fix_classes (negsuc k) s = ok (tt, s)
fix_classes (pos c) s =
    if c == 257 then ok (tt, record s { numeps = s.numeps + 1 }) else elim (check_char s.csize c) [
      | ok _ ↦ ok (tt, part_character c s)
      | exit e ↦ exit e
      | fault ↦ fault
    ]

unfoldable pub mkstate : ℤ → M ℕ
unfolding fresh_nfa fix_classes
mkstate sym = do
  s ← get
  modify (λ t. record t { nfas = t.nfas ++ (fresh_nfa t sym ∷ []) })
  fix_classes sym
  pure (length s.nfas)

unfoldable pub mkxtion : (statefrom stateto : ℕ) → M (Unit {0})
unfolding put_node
mkxtion statefrom stateto = do
  n ← node statefrom
  if n.trans1 == no_transition
      then put_node statefrom (record n { trans1 = stateto })
      else if not (is_epsilon n.transchar) || not (n.trans2 == no_transition)
      then fail Message.too_many_transitions
      else (do
        modify (λ t. record t { eps2 = t.eps2 + 1 })
        put_node statefrom (record n { trans2 = stateto }))

-- The joining of two machines that are both there.
unfoldable pub join_machines : (first last : ℕ) → M ℕ
unfolding put_node
join_machines first last = do
  f ← node first
  mkxtion f.finalst last
  f ← node first
  l ← node last
  put_node first (record f {
    finalst = l.finalst;
    lastst = max f.lastst l.lastst;
    firstst = min f.firstst l.firstst;
  })
  pure first

unfoldable pub link_machines : (first last : ℕ) → M ℕ
link_machines first last =
    if first == nil then pure last else if last == nil then pure first else join_machines first last

unfoldable pub add_accept : (mach accepting_number : ℕ) → M (Unit {0})
unfolding put_node
add_accept mach accepting_number = do
  m ← node mach
  f ← node m.finalst
  if is_epsilon f.transchar
      then put_node m.finalst (record f { accptnum = accepting_number })
      else (do
        astate ← mkstate sym_epsilon
        a ← node astate
        put_node astate (record a { accptnum = accepting_number })
        _ ← link_machines mach astate
        pure tt)

-- The two transitions of the copy `state` of state `i`.
dup_transitions : (i state : ℕ) → Nfa → M (Unit {0})
dup_transitions i state n = if n.trans1 == no_transition then pure tt else (do
  c ← node state
  mkxtion c.finalst (n.trans1 + state - i)
  c ← node state
  if is_epsilon n.transchar && not (n.trans2 == no_transition)
      then mkxtion c.finalst (n.trans2 + state - i)
      else pure tt)

dup_state : ℕ → M ℕ
unfolding put_node dup_transitions
dup_state i = do
  n ← node i
  state ← mkstate n.transchar
  dup_transitions i state n
  c ← node state
  put_node state (record c { accptnum = n.accptnum })
  pure state

-- `rounds` is last + 1 - i, and `state` the copy made last.
dup_loop : (rounds i state : ℕ) → M ℕ
unfolding dup_state
dup_loop zero i state = pure state
dup_loop (suc rounds) i state = do state' ← dup_state i; dup_loop rounds (i + 1) state'

unfoldable pub dupmachine : ℕ → M ℕ
unfolding put_node dup_loop
dupmachine mach = do
  m ← node mach
  state ← dup_loop (m.lastst + 1 - m.firstst) m.firstst 0
  if state == 0 then fail Message.empty_machine else (do
    m ← node mach
    let offset = state - m.lastst
    c ← node (mach + offset)
    put_node (mach + offset) (record c {
      firstst = m.firstst + offset;
      finalst = m.finalst + offset;
      lastst = m.lastst + offset;
    })
    pure (mach + offset))

-- The loop of `copysingl`, `num` times.
copy_loop : (num singl copy : ℕ) → M ℕ
copy_loop zero singl copy = pure copy
copy_loop (suc num) singl copy = do
  d ← dupmachine singl
  copy' ← link_machines copy d
  copy_loop num singl copy'

unfoldable pub copysingl : (singl num : ℕ) → M ℕ
unfolding copy_loop
copysingl singl num = do copy ← mkstate sym_epsilon; copy_loop num singl copy

unfoldable pub mkbranch : (first second : ℕ) → M ℕ
mkbranch first second =
    if first == no_transition
    then pure second
    else if second == no_transition
    then pure first
    else (do eps ← mkstate sym_epsilon; mkxtion eps first; mkxtion eps second; pure eps)

-- The machine with a final state that is a free epsilon state.
unfoldable pub free_final : ℕ → M ℕ
free_final mach = do
  m ← node mach
  f ← node m.finalst
  if super_free_epsilon f then pure mach else (do eps ← mkstate sym_epsilon; link_machines mach eps)

unfoldable pub mkopt : ℕ → M ℕ
mkopt mach = do
  mach ← free_final mach
  eps ← mkstate sym_epsilon
  mach ← link_machines eps mach
  m ← node mach
  mkxtion mach m.finalst
  pure mach

unfoldable pub mkposcl : ℕ → M ℕ
mkposcl state = do
  m ← node state
  f ← node m.finalst
  if super_free_epsilon f
      then (do mkxtion m.finalst state; pure state)
      else (do eps ← mkstate sym_epsilon; mkxtion eps state; link_machines state eps)

unfoldable pub mkclos : ℕ → M ℕ
mkclos state = mkposcl state >>= mkopt

-- The end of an alternative: the final state of one side if it is a free epsilon state that
-- accepts no rule, else a new one. `first` is the machine of the first side behind the new state.
unfoldable pub or_end : (first second : ℕ) → M (ℕ × ℕ)
or_end first second = do
  a ← node first
  fa ← node a.finalst
  b ← node second
  fb ← node b.finalst
  if super_free_epsilon fa && (fa.accptnum == nil)
      then (do mkxtion b.finalst a.finalst; pure (first, a.finalst))
      else if super_free_epsilon fb && (fb.accptnum == nil)
      then (do mkxtion a.finalst b.finalst; pure (first, b.finalst))
      else (do
        eps ← mkstate sym_epsilon
        first ← link_machines first eps
        a ← node first
        b ← node second
        mkxtion b.finalst a.finalst
        pure (first, a.finalst))

unfoldable pub or_machines : (first second : ℕ) → M ℕ
unfolding put_node
or_machines first second = do
  eps ← mkstate sym_epsilon
  first ← link_machines eps first
  mkxtion first second
  (first, orend) ← or_end first second
  a ← node first
  put_node first (record a { finalst = orend })
  pure first

unfoldable pub mkor : (first second : ℕ) → M ℕ
mkor first second =
    if first == nil
    then pure second
    else if second == nil
    then pure first
    else or_machines first second

-- The optional copies of `mkrep`, `rounds` = ub - lb times.
rep_loop : (rounds mach tail : ℕ) → M ℕ
rep_loop zero mach tail = pure tail
rep_loop (suc rounds) mach tail = do
  copy ← dupmachine mach
  both ← link_machines copy tail
  tail' ← mkopt both
  rep_loop rounds mach tail'

-- `none` stands for an upper bound of INFINITE_REPEAT.
rep_tail : (mach lb : ℕ) → (ub : ℕ) → Bool → M ℕ
unfolding rep_loop
rep_tail mach lb ub infinite =
    if infinite
    then (do copy ← dupmachine mach; mkclos copy)
    else (do tail ← mkstate sym_epsilon; rep_loop (ub - lb) mach tail)

unfoldable pub mkrep : (mach lb ub : ℕ) → (infinite : Bool) → M ℕ
unfolding rep_tail
mkrep mach lb ub infinite = do
  base_mach ← copysingl mach (lb - 1)
  tail ← rep_tail mach lb ub infinite
  rest ← link_machines base_mach tail
  link_machines mach rest

-- `mark_beginning_as_normal`, on fuel for the depth of the recursion.
mark_successor : (ℕ → M (Unit {0})) → ℕ → M (Unit {0})
mark_successor visit t = if t == no_transition then pure tt else visit t

mark_trailing : (ℕ → M (Unit {0})) → ℕ → Nfa → M (Unit {0})
unfolding put_node mark_successor
mark_trailing visit mach n = do
  put_node mach (record n { state_type = StateType.normal })
  if is_epsilon n.transchar
      then (do mark_successor visit n.trans1; mark_successor visit n.trans2)
      else pure tt

mark_visit : (ℕ → M (Unit {0})) → ℕ → StateType → Nfa → M (Unit {0})
unfolding mark_trailing
mark_visit visit mach StateType.normal n = pure tt
mark_visit visit mach StateType.trailing_context n = mark_trailing visit mach n

unfoldable pub mark_beginning_as_normal : (fuel mach : ℕ) → M (Unit {0})
unfolding mark_visit
mark_beginning_as_normal zero mach = λ s. fault
mark_beginning_as_normal (suc fuel) mach = do
  n ← node mach
  mark_visit (mark_beginning_as_normal fuel) mach n.state_type n

unfoldable pub new_rule : M (Unit {0})
new_rule = modify λ s. record s {
  rules =
      s.rules
      ++ (record { type = RuleType.normal; linenum = s.linenum; useful = false; has_nl = false }
          ∷ []);
}
