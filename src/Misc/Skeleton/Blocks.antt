-- ===== src/Misc/Skeleton/Blocks.antt =====
-- A skeleton as nested parts, how it is written down, and what is copied of it.
use flex_cmake_old.Prelude.{◌≡◌, if◌then◌else◌, Bool, false, true, not, ◌&&◌, List, [], ◌∷◌, ◌++◌}
use flex_cmake_old.Misc.Strings.{Codes, codes}
use flex_cmake_old.Misc.Skeleton.{Options, is_control}

-- The conditions of the parts that `%endif` ends.
pub data Guard : Type 0 where
  reentrant not_reentrant bison_bridge not_bison_bridge cpp_only c_only c_or_cpp : Guard

-- Lines, and parts with a condition and the text behind it on its line.
pub data Blocks : Type 0 where
  done : Blocks
  line : Codes → Blocks → Blocks
  part : Guard → (tail : Codes) → (body : Blocks) → Blocks → Blocks

unfoldable pub opening : Guard → Codes
opening reentrant = codes "%if-reentrant"
opening not_reentrant = codes "%if-not-reentrant"
opening bison_bridge = codes "%if-bison-bridge"
opening not_bison_bridge = codes "%if-not-bison-bridge"
opening cpp_only = codes "%if-c++-only"
opening c_only = codes "%if-c-only"
opening c_or_cpp = codes "%if-c-or-c++"

-- The lines of a skeleton in front of others.
unfoldable pub written : Blocks → List Codes → List Codes
unfolding opening
written done rest = rest
written (line l bs) rest = l ∷ written bs rest
written (part g tail body bs) rest =
    (opening g ++ tail) ∷ written body (codes "%endif" ∷ written bs rest)

-- Whether a part is copied. The language alone decides of the parts for one language.
unfoldable pub is_copied : Options → Guard → Bool → Bool
is_copied o reentrant copy = o.reentrant && copy
is_copied o not_reentrant copy = not o.reentrant && copy
is_copied o bison_bridge copy = o.bison_bridge_lval && copy
is_copied o not_bison_bridge copy = not o.bison_bridge_lval && copy
is_copied o cpp_only copy = o.c_plus_plus
is_copied o c_only copy = not o.c_plus_plus
is_copied o c_or_cpp copy = true

unfoldable pub copied : Options → (copy : Bool) → Blocks → List Codes
unfolding is_copied
copied o copy done = []
copied o copy (line l bs) = (if copy then l ∷ [] else []) ++ copied o copy bs
copied o copy (part g tail body bs) = copied o (is_copied o g copy) body ++ copied o copy bs

-- No line is a control line.
unfoldable pub IsPlain : Blocks → Type 0
IsPlain done = Unit
IsPlain (line l bs) = (is_control l ≡ false) × IsPlain bs
IsPlain (part g tail body bs) = IsPlain body × IsPlain bs
