-- ===== src/Nfa/State.antt =====
-- The globals of src/nfa.cpp, the monad over them, and access to the vector `nfas`.
use flex_cmake_old.Prelude.{ℕ, ◌==◌, Bool, false, List, set, none, some, get_elem?}
use flex_cmake_old.Prelude.Int.{ℤ, pos, negsuc}
use flex_cmake_old.Common.{Result, Message, ok, exit, fault}
use flex_cmake_old.Ecs.{Links}

pub data StateType : Type 0 where
  normal trailing_context : StateType

-- `transchar` is a character, SYM_EPSILON, or minus the index of a character class.
pub record Nfa : Type 0 where
  pub firstst : ℕ
  pub lastst : ℕ
  pub finalst : ℕ
  pub transchar : ℤ
  pub trans1 : ℕ
  pub trans2 : ℕ
  pub accptnum : ℕ
  pub assoc_rule : ℕ
  pub state_type : StateType

pub data RuleType : Type 0 where
  normal variable : RuleType

pub record Rule : Type 0 where
  pub type : RuleType
  pub linenum : ℕ
  pub useful : Bool
  pub has_nl : Bool

-- `links` are the arrays `nextecm` and `ecgroup`.
pub record Builder : Type 0 where
  pub nfas : List Nfa
  pub rules : List Rule
  pub linenum : ℕ
  pub current_state_type : StateType
  pub numeps : ℕ
  pub eps2 : ℕ
  pub csize : ℕ
  pub useecs : Bool
  pub links : Links

-- NIL and NO_TRANSITION are 0. SYM_EPSILON is CSIZE + 1.
abbrev pub nil : ℕ
nil = 0

abbrev pub no_transition : ℕ
no_transition = 0

abbrev pub sym_epsilon : ℤ
sym_epsilon = pos 257

-- `transchar == SYM_EPSILON`
abbrev pub is_epsilon : ℤ → Bool
is_epsilon (pos n) = n == 257
is_epsilon (negsuc n) = false

abbrev pub M : Type 0 → Type 0
M A = Builder → Result (A × Builder)

infixl 5 ◌>>=◌ ◌>>◌
abbrev pub ◌>>=◌ : {A B : Type 0} → M A → (A → M B) → M B
◌>>=◌ m f s = elim (m s) [ ok (a, s') ↦ f a s' | exit e ↦ exit e | fault ↦ fault ]

abbrev pub ◌>>◌ : {B : Type 0} → M (Unit {0}) → M B → M B
m >> k = m >>= λ _. k

abbrev pub pure : {A : Type 0} → A → M A
pure a s = ok (a, s)

abbrev pub fail : {A : Type 0} → Message → M A
fail e s = exit e

-- `nfas[i]`
unfoldable pub node : ℕ → M Nfa
node i s = elim (get_elem? s.nfas i) [ none ↦ fault | some n ↦ ok (n, s) ]

-- `nfas[i] = n`, of an element that was read before.
unfoldable pub put_node : ℕ → Nfa → M (Unit {0})
put_node i n s = ok (tt, record s { nfas = set s.nfas i n })

abbrev pub get : M Builder
get s = ok (s, s)

abbrev pub modify : (Builder → Builder) → M (Unit {0})
modify f s = ok (tt, f s)
