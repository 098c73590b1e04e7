-- ===== src/Tblcmp/Single.antt =====
-- What `mk1tbl` of src/tblcmp.cpp adds to the tables.
use flex_cmake_old.Prelude.{
  ℕ, zero, suc, ◌+◌, ◌-◌, ◌<◌, ◌≤◌, ◌≡◌, refl, ap, ◌∙◌, sym, arith, ◌==◌, ltb, leb, lt→ltb,
  if◌then◌else◌, inl, inr, Bool-cases, List, [], ◌∷◌, ◌++◌, length, length-append, set, drop,
  replicate,
}
use flex_cmake_old.Prelude.Int.{ℤ, pos}
use flex_cmake_old.Common.{Result, ok, ◌>>=◌}
use flex_cmake_old.Tblcmp.State.{Tables, update, grow, set_state, store, free_from, next_free}
use flex_cmake_old.Tblcmp.Entry.{max, seek_free, extend_end, mk1tbl}

module _ {A : Type 0} where
  -- The element at an index, or `d` past the end.
  unfoldable pub look : A → List A → ℕ → A
  look d [] q = d
  look d (x ∷ xs) zero = x
  look d (x ∷ xs) (suc q) = look d xs q

  pub look-grown : (d : A) (xs : List A) (n q : ℕ) → look d (xs ++ replicate n d) q ≡ look d xs q
  unfolding look
  look-grown d [] zero q = refl
  look-grown d [] (suc n) zero = refl
  look-grown d [] (suc n) (suc q) = look-grown d [] n q
  look-grown d (x ∷ xs) n zero = refl
  look-grown d (x ∷ xs) n (suc q) = look-grown d xs n q

  pub look-set :
      (d : A) (xs : List A) (p : ℕ) (v : A) (q : ℕ)
      → p < length xs
      → look d (set xs p v) q ≡ (if q == p then v else look d xs q)
  unfolding look
  look-set d [] p v q h = absurd (omega arith)
  look-set d (x ∷ xs) zero v zero h = refl
  look-set d (x ∷ xs) zero v (suc q) h = ground arith
  look-set d (x ∷ xs) (suc p) v zero h = ground arith
  look-set d (x ∷ xs) (suc p) v (suc q) h = look-set d xs p v q (omega arith) ∙ ground arith

  pub look-drop : (d : A) (xs : List A) (i k : ℕ) → look d (drop i xs) k ≡ look d xs (i + k)
  unfolding look
  look-drop d xs zero k = ap (look d xs) (omega arith)
  look-drop d [] (suc i) k = past (suc i + k)
    where
      past : (m : ℕ) → d ≡ look d [] m
      past zero = refl
      past (suc m) = refl
  look-drop d (x ∷ xs) (suc i) k =
      let moved : suc (i + k) ≡ suc i + k = omega arith in
      look-drop d xs i k ∙ ap (look d (x ∷ xs)) moved

  pub look-past : (d : A) (xs : List A) (q : ℕ) → length xs ≤ q → look d xs q ≡ d
  unfolding look
  look-past d [] q h = refl
  look-past d (x ∷ xs) zero h = absurd (omega arith)
  look-past d (x ∷ xs) (suc q) h = look-past d xs q (omega arith)

  length-replicate : (n : ℕ) (d : A) → length (replicate n d) ≡ n
  length-replicate zero d = refl
  length-replicate (suc n) d = ap suc (length-replicate n d)

  -- A vector that has grown to `n` elements has the index below.
  pub grown_room :
      (d : A) (xs : List A) (n p : ℕ) → p < n → p < length (xs ++ replicate (n - length xs) d)
  grown_room d xs n p h =
      let sum = length-append xs (replicate (n - length xs) d) in
      let copies = length-replicate (n - length xs) d in omega arith

free_from_free : (chk : List ℕ) (i : ℕ) → (k : ℕ) × (free_from chk i ≡ i + k) × (look 0 chk k ≡ 0)
unfolding free_from look
free_from_free [] i = (0, omega arith, refl)
free_from_free (c ∷ chk) i = elim (Bool-cases (c == 0)) [
  | inl e ↦ (0, rw e (omega arith), ground arith)
  | inr e ↦ let (k, f, z) = free_from_free chk (i + 1) in (suc k, rw e (f ∙ omega arith), z)
]

pub next_free_free :
    (chk : List ℕ) (i : ℕ) → (look 0 chk (next_free chk i) ≡ 0) × (i ≤ next_free chk i)
unfolding next_free
next_free_free chk i =
    let (k, f, z) = free_from_free (drop i chk) i in
    (ap (look 0 chk) f ∙ sym (look-drop 0 chk i k) ∙ z, omega arith)

-- The place that `mk1tbl` takes.
unfoldable pub taken : Tables → ℕ
unfolding next_free
taken t = if leb (length t.chk) t.firstfree then t.firstfree + 1 else next_free t.chk t.firstfree

taken_free : (t : Tables) → (look 0 t.chk (taken t) ≡ 0) × (t.firstfree ≤ taken t)
unfolding taken
taken_free t = elim (Bool-cases (leb (length t.chk) t.firstfree)) [
  | inl e ↦ rw e (look-past 0 t.chk (t.firstfree + 1) (ground arith), omega arith)
  | inr e ↦ rw e (next_free_free t.chk t.firstfree)
]

-- The entry at `p` is that of a state for a symbol, and no other place reads differently.
unfoldable pub Adds : (state p : ℕ) → (onenxt : ℤ) → (q : ℕ) → Tables → Tables → Type 0
Adds state p onenxt q t t' =
    (look 0 t'.chk q ≡ (if q == p then state else look 0 t.chk q))
    × (look (pos 0) t'.nxt q ≡ (if q == p then onenxt else look (pos 0) t.nxt q))

extend_end-Adds :
    (state p : ℕ) (onenxt : ℤ) (q : ℕ) (t t' : Tables)
    → Adds state p onenxt q t t'
    → Adds state p onenxt q t (extend_end t')
      × ((extend_end t').base ≡ t'.base)
      × ((extend_end t').def ≡ t'.def)
unfolding extend_end grow Adds
extend_end-Adds state p onenxt q t t' (c, n) = elim (Bool-cases (ltb t'.tblend t'.firstfree)) [
  | inl e ↦ rw e (
    (
      look-grown 0 t'.chk (t'.firstfree + 2 - length t'.chk) q ∙ c,
      look-grown (pos 0) t'.nxt (t'.firstfree + 2 - length t'.nxt) q ∙ n,
    ),
    refl,
    refl,
  )
  | inr e ↦ rw e ((c, n), refl, refl)
]

-- The tables after the search, and after the entry is stored.
searched : ℕ → Tables → Tables
unfolding grow
searched p t = grow (p + 1) (record t { firstfree = p })

stored : (state p sym : ℕ) → (onenxt onedef : ℤ) → Tables → Tables
unfolding searched
stored state p sym onenxt onedef t = record (searched p t) {
  base = update t.base state (pos (p - sym));
  def = update t.def state onedef;
  chk = set (searched p t).chk p state;
  nxt = set (searched p t).nxt p onenxt;
}

stored-Adds :
    (state p sym : ℕ) (onenxt onedef : ℤ) (q : ℕ) (t : Tables)
    → Adds state p onenxt q t (stored state p sym onenxt onedef t)
unfolding stored searched grow Adds
stored-Adds state p sym onenxt onedef q t = (
  look-set 0 _ p state q (grown_room 0 t.chk (p + 1) p (omega arith))
      ∙ rw (look-grown 0 t.chk (p + 1 - length t.chk) q),
  look-set (pos 0) _ p onenxt q (grown_room (pos 0) t.nxt (p + 1) p (omega arith))
      ∙ rw (look-grown (pos 0) t.nxt (p + 1 - length t.nxt) q),
)

update_self : (f : ℕ → ℤ) (i : ℕ) (v : ℤ) → update f i v i ≡ v
update_self f i v = ground arith

pub set_state-ok :
    (state : ℕ) (base def : ℤ) (t : Tables)
    → state < t.capacity
    → set_state state base def t
      ≡ ok (record t { base = update t.base state base; def = update t.def state def })
unfolding set_state
set_state-ok state base def t h = rw (lt→ltb _ _ h)

pub store-ok :
    (i state : ℕ) (next : ℤ) (t : Tables)
    → i < length t.chk
    → i < length t.nxt
    → store i state next t ≡ ok (record t { chk = set t.chk i state; nxt = set t.nxt i next })
unfolding store
store-ok i state next t h h' = rw (lt→ltb _ _ h, lt→ltb _ _ h')

pub bind-ok : {A B : Type 0} (m : Result A) (f : A → Result B) {a : A} → m ≡ ok a → (m >>= f) ≡ f a
bind-ok m f e = rw (◌>>=◌, e)

-- The start of the search.
abbrev from_sym : ℕ → Tables → Tables
from_sym sym t = record t { firstfree = max t.firstfree sym }

mk1tbl_runs :
    (state sym : ℕ) (onenxt onedef : ℤ) (t : Tables)
    → state < t.capacity
    → mk1tbl state sym onenxt onedef t
      ≡ ok (extend_end (stored state (taken (from_sym sym t)) sym onenxt onedef (from_sym sym t)))
unfolding mk1tbl seek_free searched taken stored grow
mk1tbl_runs state sym onenxt onedef t room =
    let p = taken (from_sym sym t) in
    bind-ok _ _ (set_state-ok state (pos (p - sym)) onedef (searched p (from_sym sym t)) room)
    ∙ bind-ok _ _ (
        store-ok p state onenxt _ (grown_room 0 t.chk (p + 1) p (omega arith))
          (grown_room (pos 0) t.nxt (p + 1) p (omega arith)))

-- For a state within the capacity of `dfas`, mk1tbl returns tables in which the base of the state
-- plus the symbol is a place `p` that was free before; chk has the state there and nxt the next
-- state; def is the given default; and chk and nxt read as before at all other places, where reading
-- past the end gives 0.
pub mk1tbl-Adds :
    (state sym : ℕ) (onenxt onedef : ℤ) (t : Tables) (q : ℕ)
    → state < t.capacity
    → (t' : Tables) × (p : ℕ) × (mk1tbl state sym onenxt onedef t ≡ ok t')
      × (look 0 t.chk p ≡ 0)
      × (sym ≤ p)
      × (t'.base state ≡ pos (p - sym))
      × (t'.def state ≡ onedef)
      × Adds state p onenxt q t t'
unfolding stored Adds
mk1tbl-Adds state sym onenxt onedef t q room =
    let t0 = from_sym sym t in
    let p = taken t0 in
    let (free, above) = taken_free t0 in
    let (adds, same_base, same_def) =
      extend_end-Adds state p onenxt q t0 (stored state p sym onenxt onedef t0)
        (stored-Adds state p sym onenxt onedef q t0) in
    let high : sym ≤ max t.firstfree sym = ground arith in
    (
      extend_end (stored state p sym onenxt onedef t0),
      p,
      mk1tbl_runs state sym onenxt onedef t room,
      free,
      omega arith,
      ap (λ f. f state) same_base ∙ update_self t.base state (pos (p - sym)),
      ap (λ f. f state) same_def ∙ update_self t.def state onedef,
      adds,
    )
