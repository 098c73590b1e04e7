-- ===== src/Ecs.antt =====
-- Equivalence classes of characters: src/ecs.cpp, and the start values of its arrays in
-- src/flexmain.cpp and src/tblcmp.cpp.
-- A class is a doubly linked list through the arrays `fwd` and `bck`; index 0 (NIL) is no member.
pub mod Linked
pub mod Leader
pub mod Split
pub mod Number
pub mod Classes
pub mod Partition
use flex_cmake_old.Prelude.{
  ℕ, zero, suc, ◌+◌, ◌-◌, ◌==◌, ltb, leb, if◌then◌else◌, Bool, true, false, not, ◌&&◌, List, [],
  ◌∷◌, map,
}
use flex_cmake_old.Prelude.Int.{ℤ, pos, neg, abs, is_zero, is_positive}
use flex_cmake_old.CharacterTable.{CharacterTable, insert}
use flex_cmake_old.Ccl.{CharacterClass, CharacterClasses}

-- `f[i] = v` on an array.
unfoldable pub update : {A : Type 0} → (ℕ → A) → ℕ → A → ℕ → A
update f i v j = if j == i then v else f j

-- The two arrays while classes are still lists: their values are indices, so numbers.
pub record Links : Type 0 where
  pub fwd : ℕ → ℕ
  pub bck : ℕ → ℕ

-- The initial lists: all of 1 .. num in one class.
unfoldable pub one_class : ℕ → Links
one_class num = record {
  fwd = λ i. if i == 0 then 0 else if ltb i num then i + 1 else 0;
  bck = λ i. if i == 0 then 0 else if leb i num then i - 1 else 0;
}

-- The two halves of the unlinking in `mkechar`, and the whole.
unlink_fwd : (tch : ℕ) → Links → Links
unfolding update
unlink_fwd tch l =
    if l.fwd tch == 0 then l else record l { bck = update l.bck (l.fwd tch) (l.bck tch) }

unlink_bck : (tch : ℕ) → Links → Links
unfolding update
unlink_bck tch l =
    if l.bck tch == 0 then l else record l { fwd = update l.fwd (l.bck tch) (l.fwd tch) }

unfoldable pub mkechar : (tch : ℕ) → Links → Links
unfolding unlink_fwd unlink_bck update
mkechar tch l =
    let l' = unlink_bck tch (unlink_fwd tch l) in
    record { fwd = update l'.fwd tch 0; bck = update l'.bck tch 0 }

-- The inner loop of `cre8ecs`: `for (j = ...; j != NIL; j = fwd[j]) bck[j] = -numcl`, on fuel.
mark_members : (fuel : ℕ) → (ℕ → ℕ) → (numcl j : ℕ) → (ℕ → ℤ) → ℕ → ℤ
unfolding update
mark_members zero fwd numcl j group = group
mark_members (suc fuel) fwd numcl j group =
    let rest = mark_members fuel fwd numcl (fwd j) (update group j (neg numcl)) in
    if j == 0 then group else rest

-- A round of the outer loop. `group` is the array `bck`, in which class numbers replace links.
number_step : (num : ℕ) → (ℕ → ℕ) → (i : ℕ) → ℕ × (ℕ → ℤ) → ℕ × (ℕ → ℤ)
unfolding mark_members
number_step num fwd i (numcl, group) =
    if is_zero (group i)
    then (numcl + 1, mark_members num fwd (numcl + 1) (fwd i) (update group i (pos (numcl + 1))))
    else (numcl, group)

number_loop : (num : ℕ) → (ℕ → ℕ) → (rounds i : ℕ) → ℕ × (ℕ → ℤ) → ℕ × (ℕ → ℤ)
unfolding number_step
number_loop num fwd zero i s = s
number_loop num fwd (suc rounds) i s = number_loop num fwd rounds (i + 1) (number_step num fwd i s)

-- The number of classes and the array of class numbers.
unfoldable pub cre8ecs : Links → (num : ℕ) → ℕ × (ℕ → ℤ)
unfolding number_loop
cre8ecs l num = number_loop num l.fwd num 1 (0, λ i. pos (l.bck i))

-- The new table of `ccl2ecl`: the numbers of the members that stand for their class.
ecl_loop : (ℕ → ℤ) → CharacterTable → CharacterTable → CharacterTable
unfolding insert
ecl_loop ecgroup [] new_table = new_table
ecl_loop ecgroup (c ∷ cs) new_table =
    ecl_loop ecgroup cs
      (if is_positive (ecgroup c) then insert (abs (ecgroup c)) new_table else new_table)

class_to_ecl : (ℕ → ℤ) → CharacterClass → CharacterClass
unfolding ecl_loop
class_to_ecl ecgroup c = record c { table = ecl_loop ecgroup c.table [] }

-- Class 0 is not used.
unfoldable pub ccl2ecl : (ℕ → ℤ) → CharacterClasses → CharacterClasses
unfolding class_to_ecl
ccl2ecl ecgroup [] = []
ccl2ecl ecgroup (c ∷ cs) = c ∷ map (class_to_ecl ecgroup) cs
