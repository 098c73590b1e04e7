-- ===== src/Tests/MiscRuns.antt =====
-- Runs of the helpers of src/misc.cpp and their theorems at concrete inputs.
use flex_cmake_old.Prelude.{◌≡◌, ◌↔◌, refl, arith, true, false, [], ◌∷◌, none}
use flex_cmake_old.Common.{ok, exit, bad_skeleton}
use flex_cmake_old.Misc.Strings.{codes}
use flex_cmake_old.Misc.Escape.{character, invalid_argument, is_unprintable, myesc, readable_form}
use flex_cmake_old.Misc.Escape.RoundTrip.{IsBareHex, myesc-readable_form, myesc-invalid_argument}
use flex_cmake_old.Misc.Skeleton.{Options, is_control, skelout}
use flex_cmake_old.Misc.Skeleton.Blocks.{Blocks, Guard, written, copied, IsPlain}
use flex_cmake_old.Misc.Skeleton.Copies.{skelout-copied}
use flex_cmake_old.Misc.Skeleton.Errors.{Unknown, skelout-exit}

-- An octal escape with three digits.
octal_delete : myesc (codes "\\177") ≡ character 127
unfolding myesc
octal_delete = refl

delete_unprintable : is_unprintable 127 ≡ true
unfolding is_unprintable
delete_unprintable = refl

myesc-readable_form_example : myesc (readable_form true 127) ≡ character 127
myesc-readable_form_example = myesc-readable_form true 127 (omega arith) delete_unprintable

myesc-invalid_argument_example :
    (myesc (92 ∷ 120 ∷ codes "g") ≡ invalid_argument) ↔ IsBareHex (92 ∷ 120 ∷ codes "g")
myesc-invalid_argument_example = myesc-invalid_argument (92 ∷ 120 ∷ codes "g")

abbrev plain_options : Options
plain_options = record {
  reentrant = true;
  bison_bridge_lval = false;
  c_plus_plus = false;
  tablesext = false;
  ddebug = false;
  yydmap = none;
  tablesname = [];
}

-- A reentrant part with a part for the Bison bridge in it.
abbrev nested : Blocks
nested = Blocks.line (codes "a") (
    Blocks.part Guard.reentrant []
      (Blocks.line (codes "b")
        (Blocks.part Guard.bison_bridge [] (Blocks.line (codes "c") Blocks.done) Blocks.done))
      (Blocks.part Guard.cpp_only [] (Blocks.line (codes "d") Blocks.done)
        (Blocks.line (codes "e") Blocks.done)))

nested-copied : copied plain_options true nested ≡ codes "a" ∷ codes "b" ∷ codes "e" ∷ []
unfolding copied
nested-copied = refl

nested-IsPlain : IsPlain nested
unfolding IsPlain is_control
nested-IsPlain = (refl, ((refl, ((refl, tt), tt)), ((refl, tt), (refl, tt))))

skelout-copied_example :
    skelout plain_options (written nested ((37 ∷ 37 ∷ codes " end") ∷ codes "f" ∷ []))
    ≡ ok (codes "f" ∷ [], copied plain_options true nested)
skelout-copied_example =
    skelout-copied plain_options nested (codes " end") (codes "f" ∷ []) refl nested-IsPlain

bad_control : is_control (codes "%if") ≡ true
unfolding is_control
bad_control = refl

skelout-exit_example :
    (skelout plain_options (written nested (codes "%if" ∷ [])) ≡ exit bad_skeleton)
    ↔ Unknown (codes "%if")
skelout-exit_example =
    skelout-exit plain_options nested (codes "%if") refl nested-IsPlain bad_control
