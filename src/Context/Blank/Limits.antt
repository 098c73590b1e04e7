-- ===== src/Context/Blank/Limits.antt =====
-- How many empty lines `setMaxEmptyLines` and `emptyLines` leave.
use flex_cmake_old.Prelude.{
  ℕ, zero, suc, ◌+◌, ◌-◌, ◌<◌, ◌≤◌, ◌≡◌, refl, ap, ◌∙◌, sym, arith, ltb, leb, if◌then◌else◌, Bool,
  Bool-cases, inl, inr, true, false, ◌&&◌, List, [], ◌∷◌, ◌++◌, length, length-append,
  length-replicate, take, replicate,
}
use flex_cmake_old.Context.{Line, plain_line}
use flex_cmake_old.Context.Blank.{
  is_blank, drop_blank, limit_blank, set_max_empty_lines, no_text, all_empty, count_empty,
  empty_lines,
}

-- No run of blank lines has more than `n`, where `k` stand before.
unfoldable pub is_limited : (n k : ℕ) → List Line → Bool
is_limited n k [] = true
is_limited n k (l ∷ ls) =
    let more = is_limited n (k + 1) ls in
    let fresh = is_limited n 0 ls in if is_blank l then ltb k n && more else fresh

unfoldable pub with_text : List Line → List Line
with_text [] = []
with_text (l ∷ ls) = let rest = with_text ls in if is_blank l then rest else l ∷ rest

unfoldable pub starts_blank : List Line → Bool
starts_blank [] = false
starts_blank (l ∷ ls) = is_blank l

limit_blank-limited :
    (n el k : ℕ) (ls : List Line)
    → k ≤ el
    → k ≤ n
    → (k < n → k ≡ el)
    → (is_limited n k (limit_blank n el ls) ≡ true)
      × (with_text (limit_blank n el ls) ≡ with_text ls)
unfolding limit_blank is_limited with_text
limit_blank-limited n el k [] h h' e = (refl, refl)
limit_blank-limited n el k (l ∷ ls) h h' e = elim (Bool-cases (is_blank l)) [
  | inr text ↦
      let (limited, same) = limit_blank-limited n 0 0 ls (omega arith) (omega arith) (λ z. refl) in
      rw text (rw text limited, rw text (ap (λ r. l ∷ r) same))
  | inl blank ↦ elim (Bool-cases (ltb n (el + 1))) [
    | inl over ↦
        let (limited, same) =
          limit_blank-limited n (el + 1) k ls (omega arith) h'
            (λ z. absurd (ground (arith, e z))) in
        rw (blank, over) (limited, same)
    | inr within ↦
        let (limited, same) =
          limit_blank-limited n (el + 1) (k + 1) ls (omega arith) (ground arith)
            (λ z. ground (arith, e (ground arith))) in
        rw (blank, within) (rw blank (ground (arith, limited)), rw blank same)
  ]
]

drop_blank-text :
    (ls : List Line)
    → (starts_blank (drop_blank ls) ≡ false) × (with_text (drop_blank ls) ≡ with_text ls)
unfolding drop_blank starts_blank with_text
drop_blank-text [] = (refl, refl)
drop_blank-text (l ∷ ls) =
    let (first, same) = drop_blank-text ls in
    elim (Bool-cases (is_blank l)) [
      | inl blank ↦ rw blank (first, same)
      | inr text ↦ rw text (rw text refl, rw text refl)
    ]

limit_blank-starts :
    (n el : ℕ) (ls : List Line)
    → starts_blank ls ≡ false
    → starts_blank (limit_blank n el ls) ≡ false
unfolding limit_blank starts_blank
limit_blank-starts n el [] h = refl
limit_blank-starts n el (l ∷ ls) h = rw h (rw h refl)

-- setMaxEmptyLines leaves no empty line at the start and never more than `n` empty lines in a row, and
-- keeps all other lines in order.
pub set_max_empty_lines_limits :
    (n : ℕ) (ls : List Line)
    → (starts_blank (set_max_empty_lines n ls) ≡ false)
      × (is_limited n 0 (set_max_empty_lines n ls) ≡ true)
      × (with_text (set_max_empty_lines n ls) ≡ with_text ls)
unfolding set_max_empty_lines
set_max_empty_lines_limits n ls =
    let (first, same) = drop_blank-text ls in
    let (limited, kept) =
      limit_blank-limited n 0 0 (drop_blank ls) (omega arith) (omega arith) (λ z. refl) in
    (limit_blank-starts n 0 (drop_blank ls) first, limited, kept ∙ same)

count_empty-length : (ls : List Line) → count_empty ls ≤ length ls
unfolding count_empty
count_empty-length [] = omega arith
count_empty-length (l ∷ ls) = ground (arith, count_empty-length ls)

full_count : (ls : List Line) → all_empty ls ≡ true → count_empty ls ≡ length ls
unfolding count_empty all_empty
full_count [] h = refl
full_count (l ∷ ls) h = ground (arith, full_count ls)

appended_empty :
    (ls : List Line) (k : ℕ)
    → (all_empty (ls ++ replicate k (plain_line [])) ≡ all_empty ls)
      × (count_empty (ls ++ replicate k (plain_line [])) ≡ count_empty ls + k)
unfolding count_empty all_empty no_text
appended_empty [] zero = (refl, refl)
appended_empty [] (suc k) = let (a, c) = appended_empty [] k in (a, rw a (omega arith))
appended_empty (l ∷ ls) k =
    let (a, c) = appended_empty ls k in (rw a refl, rw (a, c) (ground arith))

taken_empty :
    (ls : List Line) (k : ℕ)
    → k ≤ count_empty ls
    → (all_empty (take (length ls - k) ls) ≡ all_empty ls)
      × (count_empty (take (length ls - k) ls) ≡ count_empty ls - k)
unfolding count_empty all_empty
taken_empty [] zero h = (refl, refl)
taken_empty [] (suc k) h = absurd (omega arith)
taken_empty (l ∷ ls) k h =
    let short = count_empty-length ls in
    elim (Bool-cases (leb k (count_empty ls))) [
      | inl e ↦
          let (a, c) = taken_empty ls k (ground arith) in
          let one_more : suc (length ls) - k ≡ suc (length ls - k) = ground arith in
          rw one_more (rw a refl, rw (a, c) (ground arith))
      | inr e ↦ elim (Bool-cases (no_text l && all_empty ls)) [
        | inr some_text ↦ absurd (few some_text (leb_no e) h)
        | inl none_text ↦
            let full = full_count ls (second_true (no_text l) _ none_text) in
            let all : k ≡ suc (length ls) = omega (arith, most none_text h, leb_no e) in
            let none_left : suc (length ls) - suc (length ls) ≡ 0 = omega arith in
            rw (all, none_text, none_left) (refl, omega arith)
      ]
    ]
  where
    few : {b : Bool} {n k : ℕ} → b ≡ false → n < k → k ≤ (if b then suc n else n) → ⊥
    few e h h' = ground arith

    most : {b : Bool} {n k : ℕ} → b ≡ true → k ≤ (if b then suc n else n) → k ≤ suc n
    most e h = ground arith

    leb_no : {k n : ℕ} → leb k n ≡ false → n < k
    leb_no e = ground arith

    second_true : (a b : Bool) → (a && b) ≡ true → b ≡ true
    second_true a b e = ground arith

take-append : {A : Type 0} (m : ℕ) (xs ys : List A) → m ≤ length xs → take m (xs ++ ys) ≡ take m xs
take-append zero xs ys h = refl
take-append (suc m) [] ys h = absurd (omega arith)
take-append (suc m) (x ∷ xs) ys h = ap (λ r. x ∷ r) (take-append m xs ys (omega arith))

take-take : {A : Type 0} (m k : ℕ) (xs : List A) → m ≤ k → take m (take k xs) ≡ take m xs
take-take zero k xs h = refl
take-take (suc m) zero xs h = absurd (omega arith)
take-take (suc m) (suc k) [] h = refl
take-take (suc m) (suc k) (x ∷ xs) h = ap (λ r. x ∷ r) (take-take m k xs (omega arith))

length-take : {A : Type 0} (m : ℕ) (xs : List A) → m ≤ length xs → length (take m xs) ≡ m
length-take zero xs h = refl
length-take (suc m) [] h = absurd (omega arith)
length-take (suc m) (x ∷ xs) h = ap suc (length-take m xs (omega arith))

-- emptyLines leaves exactly `n` lines without text at the end, whether there were more or fewer, and
-- keeps the lines before them.
pub empty_lines_count :
    (n : ℕ) (ls : List Line)
    → (count_empty (empty_lines n ls) ≡ n)
      × (take (length (empty_lines n ls) - n) (empty_lines n ls)
          ≡ take (length ls - count_empty ls) ls)
unfolding empty_lines
empty_lines_count n ls =
    let few = count_empty-length ls in
    elim (Bool-cases (ltb (count_empty ls) n)) [
      | inl fewer ↦
          let k = n - count_empty ls in
          let (_, c) = appended_empty ls k in
          let long = length-append ls (replicate k (plain_line [])) in
          let copies = length-replicate k (plain_line []) in
          let kept : length (ls ++ replicate k (plain_line [])) - n ≡ length ls - count_empty ls =
            ground arith in
          rw fewer (c ∙ ground arith, rw kept (take-append _ ls _ (omega arith)))
      | inr enough ↦ elim (Bool-cases (ltb n (count_empty ls))) [
        | inr same ↦
            let exact : count_empty ls ≡ n = ground arith in
            rw (enough, same) (exact, ap (λ k. take (length ls - k) ls) (sym exact))
        | inl more ↦
            let k = count_empty ls - n in
            let (_, c) = taken_empty ls k (omega arith) in
            let long = length-take (length ls - k) ls (omega arith) in
            let kept : length (take (length ls - k) ls) - n ≡ length ls - count_empty ls =
              ground arith in
            rw (enough, more)
              (c ∙ ground arith, rw kept (take-take _ (length ls - k) ls (omega arith)))
      ]
    ]
