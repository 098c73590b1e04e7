-- ===== src/Tblcmp/Diff.antt =====
-- What `tbldiff` of src/tblcmp.cpp stores.
use flex_cmake_old.Prelude.{
  ℕ, zero, suc, ◌+◌, ◌-◌, ◌*◌, ◌<◌, ◌≤◌, ◌≡◌, refl, ap, ◌∙◌, subst, arith, ◌==◌, ==_iff,
  if◌then◌else◌, true, false, inl, inr, Bool-cases,
}
use flex_cmake_old.Prelude.Int.{ℤ, pos, negsuc}
use flex_cmake_old.Tblcmp.State.{same_trans, is_same, update}
use flex_cmake_old.Tblcmp.Protos.{Protos, equal, diff_loop, tbldiff}

equal→≡ : (a b : ℤ) → equal a b ≡ true → a ≡ b
unfolding equal
equal→≡ (pos a) (pos b) e = ap pos (ground arith)
equal→≡ (negsuc a) (negsuc b) e = ap negsuc (ground arith)
equal→≡ (pos a) (negsuc b) e = absurd (ground arith)
equal→≡ (negsuc a) (pos b) e = absurd (ground arith)

-- The number of indices from `i` on at which the two differ.
unfoldable pub differences : (state proto : ℕ → ℤ) → (rounds i : ℕ) → ℕ
differences state proto zero i = 0
differences state proto (suc rounds) i =
    (if equal (proto i) (state i) then 0 else 1) + differences state proto rounds (i + 1)

entry : (state proto : ℕ → ℤ) → ℕ → ℤ
entry state proto j = if equal (proto j) (state j) then same_trans else state j

diff_loop_count :
    (state proto : ℕ → ℤ) (rounds i n : ℕ) (ext : ℕ → ℤ)
    → (diff_loop state proto rounds i (n, ext)).0 ≡ n + differences state proto rounds i
unfolding diff_loop differences
diff_loop_count state proto zero i n ext = omega arith
diff_loop_count state proto (suc rounds) i n ext = elim (Bool-cases (equal (proto i) (state i))) [
  | inl e ↦
      rw (diff_loop, e)
        (omega (arith, diff_loop_count state proto rounds (i + 1) n (update ext i same_trans)))
  | inr e ↦
      rw (diff_loop, e)
        (omega (arith, diff_loop_count state proto rounds (i + 1) (n + 1) (update ext i (state i))))
]

diff_loop_before :
    (state proto : ℕ → ℤ) (rounds i n : ℕ) (ext : ℕ → ℤ) (j : ℕ)
    → j < i
    → (diff_loop state proto rounds i (n, ext)).1 j ≡ ext j
unfolding diff_loop
diff_loop_before state proto zero i n ext j h = refl
diff_loop_before state proto (suc rounds) i n ext j h =
    elim (Bool-cases (equal (proto i) (state i))) [
      | inl e ↦
          rw (diff_loop, e)
            (diff_loop_before state proto rounds (i + 1) n (update ext i same_trans) j (omega arith)
              ∙ ground arith)
      | inr e ↦
          rw (diff_loop, e)
            (diff_loop_before state proto rounds (i + 1) (n + 1) (update ext i (state i)) j
                (omega arith)
              ∙ ground arith)
    ]

diff_loop_entry :
    (state proto : ℕ → ℤ) (rounds i n : ℕ) (ext : ℕ → ℤ) (j : ℕ)
    → i ≤ j
    → j < i + rounds
    → (diff_loop state proto rounds i (n, ext)).1 j ≡ entry state proto j
unfolding diff_loop entry
diff_loop_entry state proto zero i n ext j low high = absurd (omega arith)
diff_loop_entry state proto (suc rounds) i n ext j low high = elim (Bool-cases (i == j)) [
  | inl here ↦
      subst (λ a. (diff_loop state proto (suc rounds) i (n, ext)).1 a ≡ entry state proto a)
        ((==_iff i j).0 here)
        (elim (Bool-cases (equal (proto i) (state i))) [
          | inl e ↦
              rw (diff_loop, e)
                (diff_loop_before state proto rounds (i + 1) n (update ext i same_trans) i
                    (omega arith)
                  ∙ ground arith)
          | inr e ↦
              rw (diff_loop, e)
                (diff_loop_before state proto rounds (i + 1) (n + 1) (update ext i (state i)) i
                    (omega arith)
                  ∙ ground arith)
        ])
  | inr later ↦ elim (Bool-cases (equal (proto i) (state i))) [
    | inl e ↦
        rw (diff_loop, e)
          (diff_loop_entry state proto rounds (i + 1) n (update ext i same_trans) j (ground arith)
            (omega arith))
    | inr e ↦
        rw (diff_loop, e)
          (diff_loop_entry state proto rounds (i + 1) (n + 1) (update ext i (state i)) j
            (ground arith) (omega arith))
  ]
]

-- For a state without SAME_TRANS among its transitions: each entry of the array from 1 to numecs,
-- with SAME_TRANS read as the entry of the saved proto, gives back the state; and the returned number
-- is how many of these entries of the state and the proto differ.
pub tbldiff_patches :
    (state : ℕ → ℤ) (pr : ℕ) (ext : ℕ → ℤ) (p : Protos) (j : ℕ)
    → is_same (state j) ≡ false
    → 0 < j
    → j ≤ p.numecs
    → ((if is_same ((tbldiff state pr ext p).1 j)
          then p.protsave (p.numecs * (pr - 1) + j)
          else (tbldiff state pr ext p).1 j)
        ≡ state j)
      × ((tbldiff state pr ext p).0
          ≡ differences state (λ i. p.protsave (p.numecs * (pr - 1) + i)) p.numecs 1)
unfolding tbldiff entry
tbldiff_patches state pr ext p j proper low high =
    let proto = λ (i : ℕ). p.protsave (p.numecs * (pr - 1) + i) in
    let here = diff_loop_entry state proto p.numecs 1 0 ext j low (omega arith) in
    (
      rw here (elim (Bool-cases (equal (proto j) (state j))) [
        | inl e ↦ rw e (equal→≡ (proto j) (state j) e)
        | inr e ↦ rw (e, proper)
      ]),
      omega (arith, diff_loop_count state proto p.numecs 1 0 ext),
    )
