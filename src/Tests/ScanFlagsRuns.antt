-- ===== src/Tests/ScanFlagsRuns.antt =====
-- A run of the stack of scanner flags.
use flex_cmake_old.Prelude.{◌≡◌, refl, true}
use flex_cmake_old.Common.{ok}
use flex_cmake_old.ScanFlags.{Stack, sf_init, sf_push, sf_pop, sf_set, set_bit}
use flex_cmake_old.ScanFlags.Nesting.{IsTop, push-set-pop}

sf_init-IsTop : IsTop sf_init 0
unfolding sf_init
sf_init-IsTop = refl

push-set-pop_example :
    (s1 s2 s3 : Stack) × (sf_push sf_init ≡ ok s1)
    × IsTop s1 0
    × (sf_set 2 true s1 ≡ ok s2)
    × IsTop s2 (set_bit 2 true 0)
    × (sf_pop s2 ≡ ok s3)
    × (s3.sf_top_ix ≡ sf_init.sf_top_ix)
    × IsTop s3 0
push-set-pop_example = push-set-pop sf_init 0 2 true sf_init-IsTop
