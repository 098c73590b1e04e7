-- ===== src/Misc/Skeleton/Errors.antt =====
-- The control lines that `skelout` of src/misc.cpp does not know.
use flex_cmake_old.Prelude.{
  arith, ◌==◌, ◌≡◌, ◌≢◌, ◌↔◌, refl, ap, ◌∙◌, sym, if◌then◌else◌, Bool, Bool-cases, inl, inr, false,
  true, List, [], ◌∷◌, All, ℕ,
}
use flex_cmake_old.Common.{Result, ok, exit, fault, ◌>>=◌, bad_skeleton}
use flex_cmake_old.Misc.Strings.{Codes, codes, second, starts_with}
use flex_cmake_old.Misc.Skeleton.{
  Options, Copying, Command, command, leave, obey, debug_line, last_commands, is_break, is_control,
  skel_line, skel_loop, skelout, bad_line, break_point, push, pop, if_reentrant, if_not_reentrant,
  if_bison_bridge, if_not_bison_bridge, if_tables_ser, tables_yydmap, define_yytables, if_cpp_only,
  if_c_only, if_c_or_cpp, not_for_header, ok_for_header, comment,
}
use flex_cmake_old.Misc.Skeleton.Blocks.{Blocks, written, IsPlain}
use flex_cmake_old.Misc.Skeleton.Copies.{skel_loop-copied, bad_break}

-- The words that flex.skl gives a meaning.
abbrev pub keywords : List Codes
keywords =
    codes "%push"
    ∷ codes "%pop"
    ∷ codes "%if-reentrant"
    ∷ codes "%if-not-reentrant"
    ∷ codes "%if-bison-bridge"
    ∷ codes "%if-not-bison-bridge"
    ∷ codes "%if-tables-serialization"
    ∷ codes "%if-c++-only"
    ∷ codes "%if-c-only"
    ∷ codes "%if-c-or-c++"
    ∷ codes "%endif"
    ∷ codes "%tables-yydmap"
    ∷ codes "%define-yytables"
    ∷ codes "%not-for-header"
    ∷ codes "%ok-for-header"
    ∷ []

-- None of the words begins the line, which is neither a comment `%#` nor a break point `%%`.
abbrev pub Unknown : Codes → Type 0
Unknown buf =
    (second buf ≢ 35) × (second buf ≢ 37) × All (λ word. starts_with word buf ≡ false) keywords

is_bad : Command → Bool
is_bad bad_line = true
is_bad word = false

true_not_false : true ≢ false
true_not_false e = cc

later :
    {b : Bool} (x : Command) {y : Command}
    → (if b then x else y) ≡ bad_line
    → is_bad x ≡ false
    → (b ≡ false) × (y ≡ bad_line)
unfolding is_bad
later {b} x e other = elim (Bool-cases b) [
  | inl h ↦
      let bad : x ≡ bad_line = sym (rw h refl) ∙ e in
      absurd (true_not_false (sym (ap is_bad bad) ∙ other))
  | inr h ↦ (h, sym (rw h refl) ∙ e)
]

differs : {a b : ℕ} → (a == b) ≡ false → a ≢ b
differs h e = ground (arith, h, e)

bad-Unknown : (buf : Codes) → command buf ≡ bad_line → Unknown buf
unfolding command last_commands is_bad
bad-Unknown buf e =
    let (w_break, e_break) = later break_point e refl in
    let (w_push, e_push) = later push e_break refl in
    let (w_pop, e_pop) = later pop e_push refl in
    let (w_r, e_r) = later if_reentrant e_pop refl in
    let (w_nr, e_nr) = later if_not_reentrant e_r refl in
    let (w_bb, e_bb) = later if_bison_bridge e_nr refl in
    let (w_nbb, e_nbb) = later if_not_bison_bridge e_bb refl in
    let (w_endif, e_endif) = later Command.endif e_nbb refl in
    let (w_ser, e_ser) = later if_tables_ser e_endif refl in
    let (w_map, e_map) = later tables_yydmap e_ser refl in
    let (w_def, e_def) = later define_yytables e_map refl in
    let (w_cpp, e_cpp) = later if_cpp_only e_def refl in
    let (w_c, e_c) = later if_c_only e_cpp refl in
    let (w_corcpp, e_corcpp) = later if_c_or_cpp e_c refl in
    let (w_nfh, e_nfh) = later not_for_header e_corcpp refl in
    let (w_okh, e_okh) = later ok_for_header e_nfh refl in
    let (w_comment, _) = later comment e_okh refl in
    (
      differs w_comment,
      differs w_break,
      (
        w_push,
        (
          w_pop,
          (
            w_r,
            (
              w_nr,
              (
                w_bb,
                (
                  w_nbb,
                  (
                    w_ser,
                    (w_cpp, (w_c, (w_corcpp, (w_endif, (w_map, (w_def, (w_nfh, (w_okh, tt)))))))),
                  ),
                ),
              ),
            ),
          ),
        ),
      ),
    )

Unknown-bad : (buf : Codes) → Unknown buf → command buf ≡ bad_line
unfolding command last_commands
Unknown-bad buf
      (
        no_comment,
        no_break,
        (
          w_push,
          (
            w_pop,
            (
              w_r,
              (
                w_nr,
                (
                  w_bb,
                  (
                    w_nbb,
                    (
                      w_ser,
                      (w_cpp, (w_c, (w_corcpp, (w_endif, (w_map, (w_def, (w_nfh, (w_okh, u)))))))),
                    ),
                  ),
                ),
              ),
            ),
          ),
        ),
      ) =
    let w_comment : (second buf == 35) ≡ false = ground arith in
    let w_break : (second buf == 37) ≡ false = ground arith in
    rw
      (
        w_break, w_push, w_pop, w_r, w_nr, w_bb, w_nbb, w_endif, w_ser, w_map, w_def, w_cpp, w_c,
        w_corcpp, w_nfh, w_okh, w_comment,
      )
      refl

bind_exit :
    {A B : Type 0} (m : Result A) (f : A → Result B)
    → (m >>= f) ≡ exit bad_skeleton
    → ((a : A) → f a ≢ exit bad_skeleton)
    → m ≡ exit bad_skeleton
bind_exit (ok a) f e quiet = absurd (quiet a e)
bind_exit (exit message) f e quiet = let same : message ≡ bad_skeleton = cc in ap exit same
bind_exit fault f e quiet = absurd cc

leave_quiet : (c : Copying) → leave c ≢ exit bad_skeleton
unfolding leave
leave_quiet c = stack_quiet c.sko_stack refl
  where
    stack_quiet : (stack : List Bool) → c.sko_stack ≡ stack → leave c ≢ exit bad_skeleton
    stack_quiet [] e = rw e (λ q. cc)
    stack_quiet (b ∷ stack) e = rw e (λ q. cc)

obey-exit :
    (o : Options) (buf : Codes) (word : Command) (c : Copying)
    → obey o buf word c ≡ exit bad_skeleton
    → word ≡ bad_line
unfolding obey
obey-exit o buf break_point c e = cc
obey-exit o buf push c e = cc
obey-exit o buf pop c e = absurd (leave_quiet c (bind_exit (leave c) _ e (λ a q. cc)))
obey-exit o buf if_reentrant c e = cc
obey-exit o buf if_not_reentrant c e = cc
obey-exit o buf if_bison_bridge c e = cc
obey-exit o buf if_not_bison_bridge c e = cc
obey-exit o buf Command.endif c e = absurd (leave_quiet c e)
obey-exit o buf if_tables_ser c e = cc
obey-exit o buf tables_yydmap c e = cc
obey-exit o buf define_yytables c e = cc
obey-exit o buf if_cpp_only c e = cc
obey-exit o buf if_c_only c e = cc
obey-exit o buf if_c_or_cpp c e = cc
obey-exit o buf not_for_header c e = cc
obey-exit o buf ok_for_header c e = cc
obey-exit o buf comment c e = cc
obey-exit o buf bad_line c e = refl

last_line-exit :
    (o : Options) (buf : Codes) (c : Copying)
    → o.ddebug ≡ false
    → is_control buf ≡ true
    → skel_loop o (buf ∷ []) c ≡ exit bad_skeleton
    → Unknown buf
unfolding skel_loop skel_line
last_line-exit o buf c quiet control e = elim (Bool-cases (is_break buf)) [
  | inl stops ↦
      let run : skel_loop o (buf ∷ []) c ≡ ok ([], debug_line o buf c) =
        rw (skel_loop, stops) refl in
      cc
  | inr goes ↦
      let run : skel_loop o (buf ∷ []) c ≡ (skel_line o buf c >>= λ c'. skel_loop o [] c') =
        rw (skel_loop, goes) refl in
      let obeyed : skel_line o buf c ≡ obey o buf (command buf) (debug_line o buf c) =
        rw (skel_line, control) refl in
      bad-Unknown buf (
        obey-exit o buf (command buf) (debug_line o buf c) (
          sym obeyed
          ∙ bind_exit (skel_line o buf c) (λ c'. skel_loop o [] c') (sym run ∙ e) (λ a q. cc)))
]

-- For parts as in skelout-copied and a last line behind them that starts with the percent sign:
-- skelout ends flex with its message exactly if the line is none of the control lines of the
-- skeleton, whatever is copied before.
pub skelout-exit :
    (o : Options) (bs : Blocks) (buf : Codes)
    → o.ddebug ≡ false
    → IsPlain bs
    → is_control buf ≡ true
    → (skelout o (written bs (buf ∷ [])) ≡ exit bad_skeleton) ↔ Unknown buf
unfolding skelout
skelout-exit o bs buf quiet plain control = (
  λ e.
      let run = sym (skel_loop-copied o quiet bs (buf ∷ []) _ plain) in
      last_line-exit o buf _ quiet control (run ∙ bind_exit _ _ e (λ a q. cc)),
  λ u.
      let bad = Unknown-bad buf u in
      rw
        (
          skel_loop-copied o quiet bs (buf ∷ []) _ plain,
          skel_loop,
          bad_break buf bad,
          skel_line,
          control,
          bad,
          obey,
        )
        refl,
)
