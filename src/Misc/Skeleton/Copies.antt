-- ===== src/Misc/Skeleton/Copies.antt =====
-- `skelout` copies exactly the parts whose conditions hold.
use mathlib.Core.List.{append-nil, append_assoc}
use flex_cmake_old.Prelude.{
  arith, ◌==◌, ◌≡◌, refl, ap, ◌∙◌, if◌then◌else◌, Bool, Bool-cases, inl, inr, false, true, List, [],
  ◌∷◌, ◌++◌,
}
use flex_cmake_old.Common.{ok}
use flex_cmake_old.Misc.Strings.{Codes, codes, second}
use flex_cmake_old.Misc.Skeleton.{
  Options, Copying, command, write, enter, leave, obey, debug_line, is_control, is_break, skel_line,
  skel_loop, skelout, bad_line, break_point,
}
use flex_cmake_old.Misc.Skeleton.Blocks.{
  Guard, Blocks, done, line, part, opening, written, is_copied, copied, IsPlain,
}

abbrev wrote : List Codes → Copying → Copying
wrote lines c = record c { out = c.out ++ lines }

-- Without debugging comments a control line writes nothing by itself.
pub debug_line-none :
    (o : Options) (buf : Codes) (c : Copying) → o.ddebug ≡ false → debug_line o buf c ≡ c
unfolding debug_line
debug_line-none o buf c e = rw e refl

obey-opening :
    (o : Options) (g : Guard) (tail : Codes) (c : Copying)
    → obey o (opening g ++ tail) (command (opening g ++ tail)) c
      ≡ ok (enter (is_copied o g c.do_copy) c)
unfolding opening command obey is_copied
obey-opening o Guard.reentrant tail c = refl
obey-opening o Guard.not_reentrant tail c = refl
obey-opening o Guard.bison_bridge tail c = refl
obey-opening o Guard.not_bison_bridge tail c = refl
obey-opening o Guard.cpp_only tail c = refl
obey-opening o Guard.c_only tail c = refl
obey-opening o Guard.c_or_cpp tail c = refl

opening_control : (g : Guard) (tail : Codes) → is_control (opening g ++ tail) ≡ true
unfolding opening is_control
opening_control Guard.reentrant tail = refl
opening_control Guard.not_reentrant tail = refl
opening_control Guard.bison_bridge tail = refl
opening_control Guard.not_bison_bridge tail = refl
opening_control Guard.cpp_only tail = refl
opening_control Guard.c_only tail = refl
opening_control Guard.c_or_cpp tail = refl

opening_line :
    (o : Options) (g : Guard) (tail : Codes) (c : Copying)
    → o.ddebug ≡ false
    → skel_line o (opening g ++ tail) c ≡ ok (enter (is_copied o g c.do_copy) c)
unfolding skel_line
opening_line o g tail c e =
    rw (opening_control g tail, debug_line-none o (opening g ++ tail) c e) (obey-opening o g tail c)

opening_break : (g : Guard) (tail : Codes) → is_break (opening g ++ tail) ≡ false
unfolding opening is_break is_control
opening_break Guard.reentrant tail = refl
opening_break Guard.not_reentrant tail = refl
opening_break Guard.bison_bridge tail = refl
opening_break Guard.not_bison_bridge tail = refl
opening_break Guard.cpp_only tail = refl
opening_break Guard.c_only tail = refl
opening_break Guard.c_or_cpp tail = refl

uncontrolled_line :
    (o : Options) (l : Codes) (c : Copying)
    → is_control l ≡ false
    → skel_line o l c ≡ ok (wrote (if c.do_copy then l ∷ [] else []) c)
unfolding skel_line write
uncontrolled_line o l c e = elim (Bool-cases c.do_copy) [
  | inl y ↦ rw (e, y) refl
  | inr n ↦ rw (e, n, append-nil c.out) refl
]

plain_break : (l : Codes) → is_control l ≡ false → is_break l ≡ false
unfolding is_break
plain_break l e = rw e refl

endif_line :
    (o : Options) (c : Copying) (copy : Bool) (stack : List Bool) (lines : List Codes)
    → o.ddebug ≡ false
    → skel_line o
        (codes "%endif")
        (wrote lines (record c { do_copy = copy; sko_stack = c.do_copy ∷ stack }))
      ≡ ok (wrote lines (record c { sko_stack = stack }))
unfolding skel_line obey command leave is_control
endif_line o c copy stack lines e = rw (debug_line-none o (codes "%endif") _ e) refl

endif_break : is_break (codes "%endif") ≡ false
unfolding is_break is_control
endif_break = refl

pub bad_break : (buf : Codes) → command buf ≡ bad_line → is_break buf ≡ false
unfolding is_break command
bad_break buf bad = elim (Bool-cases (second buf == 37)) [
  | inl e ↦ let here : command buf ≡ break_point = rw (command, e) refl in cc
  | inr e ↦ rw e (ground arith)
]

skel_loop_step :
    (o : Options) (buf : Codes) (lines : List Codes) (c c' : Copying)
    → is_break buf ≡ false
    → skel_line o buf c ≡ ok c'
    → skel_loop o (buf ∷ lines) c ≡ skel_loop o lines c'
unfolding skel_loop
skel_loop_step o buf lines c c' b e = rw (skel_loop, b, e) refl

wrote-wrote : (xs ys : List Codes) (c : Copying) → wrote ys (wrote xs c) ≡ wrote (xs ++ ys) c
wrote-wrote xs ys c = rw (append_assoc c.out xs ys) refl

module _ (o : Options) (quiet : o.ddebug ≡ false) where
  pub skel_loop-copied :
      (bs : Blocks) (rest : List Codes) (c : Copying)
      → IsPlain bs
      → skel_loop o (written bs rest) c ≡ skel_loop o rest (wrote (copied o c.do_copy bs) c)
  unfolding written copied IsPlain enter
  skel_loop-copied done rest c p = rw (append-nil c.out) refl
  skel_loop-copied (line l bs) rest c (plain, p) =
      let here = if c.do_copy then l ∷ [] else [] in
      skel_loop_step o l (written bs rest) c (wrote here c) (plain_break l plain)
        (uncontrolled_line o l c plain)
      ∙ skel_loop-copied bs rest (wrote here c) p
      ∙ ap (skel_loop o rest) (wrote-wrote here (copied o c.do_copy bs) c)
  skel_loop-copied (part g tail body bs) rest c (pb, p) =
      let copy = is_copied o g c.do_copy in
      let inside = copied o copy body in
      let entered = enter copy c in
      skel_loop_step o (opening g ++ tail) _ c entered (opening_break g tail)
        (opening_line o g tail c quiet)
      ∙ skel_loop-copied body (codes "%endif" ∷ written bs rest) entered pb
      ∙ skel_loop_step o (codes "%endif") (written bs rest) (wrote inside entered) (wrote inside c)
          endif_break (endif_line o c copy c.sko_stack inside quiet)
      ∙ skel_loop-copied bs rest (wrote inside c) p
      ∙ ap (skel_loop o rest) (wrote-wrote inside (copied o c.do_copy bs) c)

-- Without debugging comments, a skeleton of nested parts up to a break point is copied line by line:
-- exactly the lines of the parts whose conditions hold are written, in order, and what stands behind
-- the break point is left. No control line is written. A part for a language is copied by the
-- language alone, even inside a part that is not copied; a part for reentrant scanners or the Bison
-- bridge, or for others, also takes that the part around it is copied.
pub skelout-copied :
    (o : Options) (bs : Blocks) (tail : Codes) (rest : List Codes)
    → o.ddebug ≡ false
    → IsPlain bs
    → skelout o (written bs ((37 ∷ 37 ∷ tail) ∷ rest)) ≡ ok (rest, copied o true bs)
unfolding skelout skel_loop is_break is_control
skelout-copied o bs tail rest quiet plain =
    rw
      (
        skel_loop-copied o quiet bs ((37 ∷ 37 ∷ tail) ∷ rest) _ plain,
        debug_line-none o (37 ∷ 37 ∷ tail) _ quiet,
      )
      refl
