-- ===== src/Dfa/Interning.antt =====
-- How `snstods` of src/dfa.cpp finds or makes the state for a set of states.
use flex_cmake_old.Prelude.{
  ℕ, zero, suc, ◌+◌, ◌-◌, ◌<◌, ◌≤◌, ◌≡◌, ◌⊎◌, refl, ap, ◌∙◌, sym, subst, arith, ◌==◌, ==_iff,
  lt→ltb, le→leb, true, false, List, [], ◌∷◌, ◌++◌, length, drop, take, get_elem?, some, none, All,
  inl, inr, Bool-cases,
}
use flex_cmake_old.Common.{ok}
use flex_cmake_old.Dfa.{
  Dfa, Dfas, same_states, Search, search_loop, accepting, new_dfa, intern, Interned, interned,
  snstods,
}

-- The set is stored behind index 0.
unfoldable pub StoresSet : Dfa → Type 0
StoresSet d = 0 < length d.dss

-- The state is the one for the set and its hash value.
unfoldable pub IsFor : (hashval : ℕ) → (states : List ℕ) → Dfa → Type 0
IsFor hashval states d = (d.hash ≡ hashval) × (drop 1 d.dss ≡ states)

length-drop_one : (xs : List ℕ) → length (drop 1 xs) ≡ length xs - 1
length-drop_one [] = refl
length-drop_one (x ∷ xs) = omega arith

minus_one : (a n : ℕ) → a ≡ n + 1 → a - 1 ≡ n
minus_one a n e = omega arith

differ : (a b : ℕ) → a ≡ b → (b == a) ≡ false → ⊥
differ a b e h = ground arith

same_states-equal :
    (n : ℕ) (xs ys : List ℕ) → length xs ≡ n → length ys ≡ n → same_states n xs ys ≡ true → xs ≡ ys
unfolding same_states
same_states-equal zero [] [] hx hy e = refl
same_states-equal zero [] (y ∷ ys) hx hy e = absurd (omega arith)
same_states-equal zero (x ∷ xs) ys hx hy e = absurd (omega arith)
same_states-equal (suc n) [] ys hx hy e = cc
same_states-equal (suc n) (x ∷ xs) [] hx hy e = cc
same_states-equal (suc n) (x ∷ xs) (y ∷ ys) hx hy e =
    let both : (x ≡ y) × (same_states n xs ys ≡ true) = ground arith in
    let tails = same_states-equal n xs ys (omega arith) (omega arith) both.1 in cc

same_states_self : (xs : List ℕ) → same_states (length xs) xs xs ≡ true
unfolding same_states
same_states_self [] = refl
same_states_self (x ∷ xs) = ground (arith, same_states_self xs)

-- What the search says of the states that it has passed.
unfoldable pub Searched : (hashval : ℕ) → (states : List ℕ) → List Dfa → (i : ℕ) → Search → Type 0
unfolding IsFor
Searched hashval states ds i s =
    ((k : ℕ) × (d : Dfa) × (s.found ≡ some (i + k))
      × (get_elem? ds k ≡ some d)
      × IsFor hashval states d)
    ⊎ ((s.found ≡ none) × All (λ d. ¬ IsFor hashval states d) ds)

-- A state that is not the one is passed over.
Searched-pass :
    (hashval : ℕ) (states : List ℕ) (d : Dfa) (ds : List Dfa) (i : ℕ) (s : Search)
    → ¬ IsFor hashval states d
    → Searched hashval states ds (i + 1) s
    → Searched hashval states (d ∷ ds) i s
unfolding Searched
Searched-pass hashval states d ds i s other (inl (k, d', f, g, m)) =
    let moved : i + 1 + k ≡ i + suc k = omega arith in inl (suc k, d', f ∙ ap some moved, g, m)
Searched-pass hashval states d ds i s other (inr (f, a)) = inr (f, (other, a))

search_loop-Searched :
    (hashval numstates : ℕ) (states : List ℕ) (ds : List Dfa) (i : ℕ) (s : Search)
    → length states ≡ numstates
    → All StoresSet ds
    → s.found ≡ none
    → Searched hashval states ds i (search_loop hashval numstates states ds i s)
unfolding search_loop Searched StoresSet IsFor
search_loop-Searched hashval numstates states [] i s len stores e = inr (e, tt)
search_loop-Searched hashval numstates states (d ∷ ds) i s len (st, stores) e =
    let pass = λ (s' : Search) (e' : s'.found ≡ none) (other : ¬ IsFor hashval states d).
      Searched-pass hashval states d ds i (search_loop hashval numstates states ds (i + 1) s') other
        (search_loop-Searched hashval numstates states ds (i + 1) s' len stores e') in
    let sizes = λ (l : (length d.dss == numstates + 1) ≡ true).
      length-drop_one d.dss
      ∙ minus_one (length d.dss) numstates ((==_iff (length d.dss) (numstates + 1)).0 l) in
    elim (Bool-cases (hashval == d.hash)) [
      | inr h ↦ rw h (pass s e (λ f. absurd (differ d.hash hashval f.0 h)))
      | inl h ↦ elim (Bool-cases (length d.dss == numstates + 1)) [
        | inr l ↦
            rw (h, l)
              (pass (record s { saved = s.saved + 1 }) e
                (λ f.
                  let sizes : length d.dss - 1 ≡ length states =
                    sym (length-drop_one d.dss) ∙ ap length f.1 in
                  let size : length d.dss ≡ numstates + 1 = omega arith in absurd (ground arith)))
        | inl l ↦ elim (Bool-cases (same_states numstates states (drop 1 d.dss))) [
          | inl q ↦
              rw (h, l, q)
                (inl (
                  0,
                  d,
                  ap some (omega arith),
                  refl,
                  (
                    sym ((==_iff hashval d.hash).0 h),
                    sym (same_states-equal numstates states (drop 1 d.dss) len (sizes l) q),
                  ),
                ))
          | inr q ↦
              rw (h, l, q)
                (pass (record s { collisions = s.collisions + 1 }) e
                  (λ f.
                    let self = same_states_self states in
                    let here : same_states numstates states (drop 1 d.dss) ≡ true =
                      subst (λ m. same_states m states (drop 1 d.dss) ≡ true) len
                        (subst (λ ys. same_states (length states) states ys ≡ true) (sym f.1)
                          self) in
                    cc))
        ]
      ]
    ]

pub length-take : (n : ℕ) (xs : List ℕ) → n ≤ length xs → length (take n xs) ≡ n
length-take zero xs h = refl
length-take (suc n) [] h = absurd (omega arith)
length-take (suc n) (x ∷ xs) h = ap suc (length-take n xs (omega arith))

get_elem?-drop_one : (ds : List Dfa) (k : ℕ) → get_elem? (drop 1 ds) k ≡ get_elem? ds (suc k)
get_elem?-drop_one [] k = refl
get_elem?-drop_one (d ∷ ds) k = refl

-- The two outcomes: the state that is there already, or a new one where none was.
unfoldable pub Outcome : (hashval : ℕ) → (states : List ℕ) → (before : List Dfa) → Interned → Type 0
Outcome hashval states before r =
    ((d : Dfa) × (r.flag ≡ 0)
      × (0 < r.newds)
      × (get_elem? before r.newds ≡ some d)
      × IsFor hashval states d
      × (r.globals.dfas ≡ before))
    ⊎ ((d : Dfa) × (r.flag ≡ 1)
        × (r.newds ≡ length before)
        × IsFor hashval states d
        × (r.globals.dfas ≡ before ++ (d ∷ []))
        × StoresSet d
        × All (λ d'. ¬ IsFor hashval states d') (drop 1 before))

-- What the last step makes of a search.
intern-Outcome :
    (sort : List ℕ → List ℕ) (states accepted sns accset : List ℕ) (hashval : ℕ) (s : Search)
    (t : Dfas)
    → Searched hashval states (drop 1 t.dfas) 1 s
    → Outcome hashval states t.dfas (record {
      flag = (intern sort states accepted hashval s t).0.0;
      newds = (intern sort states accepted hashval s t).0.1;
      sns = sns;
      accset = accset;
      globals = (intern sort states accepted hashval s t).1;
    })
unfolding intern Outcome Searched IsFor new_dfa StoresSet
intern-Outcome sort states accepted sns accset hashval s t (inl (k, d, f, g, m)) =
    let moved : suc k ≡ 1 + k = omega arith in
    let found =
      subst (λ a. get_elem? t.dfas a ≡ some d) moved (sym (get_elem?-drop_one t.dfas k) ∙ g) in
    rw f (inl (d, refl, omega arith, found, m, refl))
intern-Outcome sort states accepted sns accset hashval s t (inr (f, a)) = rw f (
    inr (
      new_dfa hashval states (accepting sort t.reject t.rules accepted).0,
      refl,
      refl,
      (refl, refl),
      refl,
      omega arith,
      a,
    ))

-- `sort` keeps lengths, as `qsort` does. Where the vectors are as long as the counts say, snstods
-- returns: either 0 and the index, not 0, of a state with this hash value and this sorted set, with
-- no state added; or 1 and the index of a state added at the end for them, when no earlier state
-- from index 1 on was for them.
pub snstods_interns :
    (sort : List ℕ → List ℕ) (sns : List ℕ) (numstates : ℕ) (accset : List ℕ) (nacc hashval : ℕ)
    (t : Dfas)
    → ((xs : List ℕ) → length (sort xs) ≡ length xs)
    → numstates < length sns
    → nacc ≤ length accset - 1
    → All StoresSet (drop 1 t.dfas)
    → (r : Interned) × (snstods sort sns numstates accset nacc hashval t ≡ ok r)
      × Outcome hashval (sort (take numstates (drop 1 sns))) t.dfas r
unfolding snstods interned
snstods_interns sort sns numstates accset nacc hashval t keeps room room' stores = (
  interned sort sns numstates accset nacc hashval t,
  rw (lt→ltb _ _ room, le→leb _ _ room'),
  intern-Outcome sort states (take nacc (drop 1 accset)) _ _ hashval search t searched,
)
  where
    states : List ℕ
    states = sort (take numstates (drop 1 sns))

    search : Search
    search =
        search_loop hashval numstates states (drop 1 t.dfas) 1
          (record { found = none; collisions = 0; saved = 0 })

    len : length states ≡ numstates
    len =
        keeps (take numstates (drop 1 sns))
        ∙ length-take numstates (drop 1 sns) (omega (arith, length-drop_one sns))

    searched : Searched hashval states (drop 1 t.dfas) 1 search
    searched =
        search_loop-Searched hashval numstates states (drop 1 t.dfas) 1
          (record { found = none; collisions = 0; saved = 0 }) len stores refl
