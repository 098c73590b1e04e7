-- ===== src/Ccl/Sets.antt =====
-- `ccl_set_diff` and `ccl_set_union` of src/ccl.cpp.
use native.Mathlib.Nat.{add-zero, zero-add}
use flex_cmake_old.Prelude.{
  ℕ, zero, suc, ◌+◌, ◌≤◌, ◌<◌, ◌≡◌, ◌∙◌, ap, refl, ltb, if◌then◌else◌, false, not, ◌&&◌, ◌||◌, some,
  [], ◌∷◌, ◌++◌, length, get_elem?, arith, get_elem?-append_back, get_elem?-append_front,
  set-append_back, inl, inr, Bool-cases,
}
use flex_cmake_old.Common.{ok, at-some, csize_max}
use flex_cmake_old.CharacterTable.{
  contains, insert_all, IsAscending, contains-insert_all, insert_all-IsAscending,
}
use flex_cmake_old.Ccl.{
  CharacterClass, CharacterClasses, class_contains, class_add, empty_class, diff_step, diff_loop,
  ccl_set_diff, merge_table, ccl_set_union,
}
use flex_cmake_old.Ccl.Table.{
  class_contains-class_add, FlagsNewline, class_add-FlagsNewline, class_add-IsAscending,
}
use flex_cmake_old.Ccl.Add.{ccl_contains-some, ccladd-some}

add-suc-one : (a b : ℕ) → a + 1 + b ≡ a + suc b
add-suc-one a b = omega arith

contains_nil : (x : ℕ) → contains x [] ≡ false
unfolding contains
contains_nil x = refl

-- What one round makes of the new class.
diff_add : (nlch : ℕ) → (ca cb : CharacterClass) → (ch : ℕ) → CharacterClass → CharacterClass
diff_add nlch ca cb ch c =
    if class_contains ca ch && not (class_contains cb ch) then class_add nlch ch c else c

diff_fold :
    (nlch : ℕ) → (ca cb : CharacterClass) → (rounds ch : ℕ) → CharacterClass → CharacterClass
diff_fold nlch ca cb zero ch c = c
diff_fold nlch ca cb (suc rounds) ch c =
    diff_fold nlch ca cb rounds (ch + 1) (diff_add nlch ca cb ch c)

module _ (csize nlch : ℕ) (m : csize ≤ csize_max) (ccls : CharacterClasses) (a b : ℕ)
    {ca cb : CharacterClass} (ea : get_elem? ccls a ≡ some ca)
    (eb : get_elem? ccls b ≡ some cb) where
  diff_step_lem :
      (ch : ℕ) (c : CharacterClass)
      → ch < csize
      → diff_step csize nlch a b (length ccls) ch (ccls ++ (c ∷ []))
        ≡ ok (ccls ++ (diff_add nlch ca cb ch c ∷ []))
  unfolding diff_step diff_add
  diff_step_lem ch c h =
      rw
        (
          ccl_contains-some (ccls ++ (c ∷ [])) a ch (get_elem?-append_front ccls (c ∷ []) a ea),
          ccl_contains-some (ccls ++ (c ∷ [])) b ch (get_elem?-append_front ccls (c ∷ []) b eb),
        )
        (elim (Bool-cases (class_contains ca ch && not (class_contains cb ch))) [
          | inl add ↦ rw add (
              ccladd-some csize nlch (ccls ++ (c ∷ [])) (length ccls) ch m h
                (get_elem?-append_back ccls c [])
              ∙ ap ok (set-append_back ccls c [] (class_add nlch ch c)))
          | inr skip ↦ rw skip
        ])

  diff_loop_lem :
      (rounds ch : ℕ) (c : CharacterClass)
      → ch + rounds ≤ csize
      → diff_loop csize nlch a b (length ccls) rounds ch (ccls ++ (c ∷ []))
        ≡ ok (ccls ++ (diff_fold nlch ca cb rounds ch c ∷ []))
  unfolding diff_loop diff_fold
  diff_loop_lem zero ch c h = refl
  diff_loop_lem (suc rounds) ch c h =
      rw (diff_step_lem ch c (omega arith)) (diff_loop_lem rounds (ch + 1) _ (omega arith))

class_add_ng : (nlch ch : ℕ) (c : CharacterClass) → (class_add nlch ch c).ng ≡ c.ng
unfolding class_add
class_add_ng nlch ch c = ground arith

record IsDiff (nlch : ℕ) (ca cb : CharacterClass) (top : ℕ) (c : CharacterClass) : Type 0 where
  plain : c.ng ≡ false
  flag : FlagsNewline nlch c
  ascending : IsAscending c.table
  members :
      (x : ℕ)
      → class_contains c x ≡ (ltb x top && (class_contains ca x && not (class_contains cb x)))

module _ (nlch : ℕ) (ca cb : CharacterClass) where
  diff_add-IsDiff :
      (ch : ℕ) (c : CharacterClass)
      → IsDiff nlch ca cb ch c
      → IsDiff nlch ca cb (ch + 1) (diff_add nlch ca cb ch c)
  unfolding diff_add
  diff_add-IsDiff ch c d = elim (Bool-cases (class_contains ca ch && not (class_contains cb ch))) [
    | inl add ↦ rw add (record {
      plain = class_add_ng nlch ch c ∙ d.plain;
      flag = class_add-FlagsNewline nlch ch c d.plain d.flag;
      ascending = class_add-IsAscending nlch ch c d.ascending;
      members = λ x. rw (class_contains-class_add nlch ch x c) (ground (arith, d.members x));
    })
    | inr skip ↦ rw skip (record {
      plain = d.plain;
      flag = d.flag;
      ascending = d.ascending;
      members = λ x. ground (arith, d.members x);
    })
  ]

  diff_fold-IsDiff :
      (rounds ch : ℕ) (c : CharacterClass)
      → IsDiff nlch ca cb ch c
      → IsDiff nlch ca cb (ch + rounds) (diff_fold nlch ca cb rounds ch c)
  unfolding diff_fold
  diff_fold-IsDiff zero ch c d = rw add-zero d
  diff_fold-IsDiff (suc rounds) ch c d =
      rw (← add-suc-one ch rounds) (diff_fold-IsDiff rounds (ch + 1) _ (diff_add-IsDiff ch c d))

  empty_class-IsDiff : IsDiff nlch ca cb 0 empty_class
  unfolding class_contains contains
  empty_class-IsDiff = record {
    plain = refl;
    flag = refl;
    ascending = tt;
    members = λ x. ground arith;
  }

-- `ccl_set_diff` of two existing classes succeeds. It adds one class, the last, and leaves the others
-- alone. The new class is not negated, contains exactly the characters below csize that are in `a`
-- and not in `b` (negation of either taken into account), keeps its table in order, and flags the
-- newline exactly when it contains it.
pub ccl_set_diff_members :
    (csize nlch : ℕ) (ccls : CharacterClasses) (a b : ℕ) {ca cb : CharacterClass}
    → csize ≤ csize_max
    → get_elem? ccls a ≡ some ca
    → get_elem? ccls b ≡ some cb
    → (c : CharacterClass) × (ccl_set_diff csize nlch ccls a b ≡ ok (length ccls, ccls ++ (c ∷ [])))
      × ((x : ℕ)
          → class_contains c x
            ≡ (ltb x csize && (class_contains ca x && not (class_contains cb x))))
      × (c.ng ≡ false)
      × (c.has_nl ≡ class_contains c nlch)
      × IsAscending c.table
unfolding ccl_set_diff
ccl_set_diff_members csize nlch ccls a b {ca} {cb} m ea eb =
    let d : IsDiff nlch ca cb csize (diff_fold nlch ca cb csize 0 empty_class) =
      rw zero-add at
        (diff_fold-IsDiff nlch ca cb csize 0 empty_class (empty_class-IsDiff nlch ca cb)) in
    (
      diff_fold nlch ca cb csize 0 empty_class,
      rw (diff_loop_lem csize nlch m ccls a b ea eb csize 0 empty_class (omega arith)),
      d.members,
      d.plain,
      d.flag,
      d.ascending,
    )

merge_table_lem :
    (ccls : CharacterClasses) (c : CharacterClass) (a : ℕ) {ca : CharacterClass}
    → get_elem? ccls a ≡ some ca
    → merge_table (ccls ++ (c ∷ [])) (length ccls) a
      ≡ ok (ccls ++ (record c { table = insert_all ca.table c.table } ∷ []))
unfolding merge_table
merge_table_lem ccls c a e = rw (
  at-some (ccls ++ (c ∷ [])) (length ccls) (get_elem?-append_back ccls c []),
  at-some (ccls ++ (c ∷ [])) a (get_elem?-append_front ccls (c ∷ []) a e),
  set-append_back ccls c [],
)

-- `ccl_set_union` of two existing classes adds one class, which is not negated, whose table holds
-- exactly the characters of the two tables, in order, and which never flags the newline. So it
-- reads the tables only: a negation of `a` or `b` is lost, and so is the flag of a class that
-- contains the newline.
pub ccl_set_union_members :
    (ccls : CharacterClasses) (a b : ℕ) {ca cb : CharacterClass}
    → get_elem? ccls a ≡ some ca
    → get_elem? ccls b ≡ some cb
    → (c : CharacterClass) × (ccl_set_union ccls a b ≡ ok (length ccls, ccls ++ (c ∷ [])))
      × ((x : ℕ) → class_contains c x ≡ (contains x ca.table || contains x cb.table))
      × (c.ng ≡ false)
      × (c.has_nl ≡ false)
      × IsAscending c.table
unfolding ccl_set_union class_contains
ccl_set_union_members ccls a b {ca} {cb} ea eb = (
  record empty_class { table = insert_all cb.table (insert_all ca.table []) },
  rw (merge_table_lem ccls empty_class a ea, merge_table_lem ccls _ b eb),
  λ x. ground (
    arith,
    contains-insert_all x cb.table (insert_all ca.table []),
    contains-insert_all x ca.table [],
    contains_nil x,
  ),
  refl,
  refl,
  insert_all-IsAscending cb.table _ (insert_all-IsAscending ca.table [] tt),
)
