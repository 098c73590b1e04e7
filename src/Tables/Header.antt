-- ===== src/Tables/Header.antt =====
-- The header that `yytbl_hdr_fwrite` of src/tables.cpp writes.
use flex_cmake_old.Prelude.{
  ℕ, ◌+◌, ◌%◌, ◌^◌, ◌≤◌, ◌<◌, ◌≡◌, ◌≢◌, refl, ap, ◌∙◌, sym, subst, arith, ◌==◌, ==_ne, ==_refl,
  if◌then◌else◌, List, [], ◌∷◌, ◌++◌, length, length-append, replicate, All,
}
use flex_cmake_old.Tables.File.{
  Writer, Written, done, ◌>>=◌, pure, or_die, bytes32, bytes16, yytbl_write32, yytbl_write16,
  yytbl_writen, yypad64, yytbl_write_pad64,
}
use flex_cmake_old.Tables.Write.{yytbl_magic, Hdr, c_string, yytbl_hdr_init, yytbl_hdr_fwrite}
use flex_cmake_old.Tables.Append.{
  AtEnd, Room, appended, AtEnd-appended, Room-back, bind-done, or_die-done, checked_write,
  yytbl_write_pad64_pads, length-replicate,
}

c_string-clean : (s : List ℕ) → All (λ c. c ≢ 0) s → c_string s ≡ s
unfolding c_string
c_string-clean [] h = refl
c_string-clean (c ∷ cs) (n, h) = rw (==_ne c 0 n) (ap (λ t. c ∷ t) (c_string-clean cs h))

-- The writer after the fields, before the padding.
after_fields : Hdr → Writer → Writer
after_fields th wr =
    let head = appended (bytes32 th.th_hsize) (appended (bytes32 th.th_magic) wr) in
    let noted = record head { th_ssize_pos = head.position } in
    let rest = appended (bytes16 th.th_flags) (appended (bytes32 th.th_ssize) noted) in
    appended (th.th_name ++ (0 ∷ [])) (appended (th.th_version ++ (0 ∷ [])) rest)

fields_written :
    (th : Hdr) (wr : Writer)
    → AtEnd wr
    → Room
        (4
          + (4
              + (4
                  + (2
                      + (length (th.th_version ++ (0 ∷ []))
                          + (length (th.th_name ++ (0 ∷ [])) + 7))))))
        wr
    → (yytbl_hdr_fwrite th wr
        ≡ (or_die yytbl_write_pad64 >>= (λ pad.
              if 14 + length (th.th_version ++ (0 ∷ [])) + length (th.th_name ++ (0 ∷ [])) + pad
                == th.th_hsize
              then pure
                  (14 + length (th.th_version ++ (0 ∷ [])) + length (th.th_name ++ (0 ∷ [])) + pad)
              else λ _. Written.died))
            (after_fields th wr))
      × AtEnd (after_fields th wr)
      × Room 7 (after_fields th wr)
unfolding yytbl_hdr_fwrite yytbl_write32 yytbl_write16 yytbl_writen after_fields appended
fields_written th wr at_end r0 =
    let lv = length (th.th_version ++ (0 ∷ [])) in
    let lm = length (th.th_name ++ (0 ∷ [])) in
    let b1 = bytes32 th.th_magic in
    let b2 = bytes32 th.th_hsize in
    let b3 = bytes32 th.th_ssize in
    let b4 = bytes16 th.th_flags in
    let w1 = appended b1 wr in
    let e1 = AtEnd-appended b1 wr at_end in
    let r1 = Room-back b1 (4 + (4 + (2 + (lv + (lm + 7))))) wr r0 in
    let w2 = appended b2 w1 in
    let e2 = AtEnd-appended b2 w1 e1 in
    let r2 = Room-back b2 (4 + (2 + (lv + (lm + 7)))) w1 r1 in
    let w2' = record w2 { th_ssize_pos = w2.position } in
    let w3 = appended b3 w2' in
    let e3 = AtEnd-appended b3 w2' e2 in
    let r3 = Room-back b3 (2 + (lv + (lm + 7))) w2' r2 in
    let w4 = appended b4 w3 in
    let e4 = AtEnd-appended b4 w3 e3 in
    let r4 = Room-back b4 (lv + (lm + 7)) w3 r3 in
    let b5 = th.th_version ++ (0 ∷ []) in
    let w5 = appended b5 w4 in
    let e5 = AtEnd-appended b5 w4 e4 in
    let r5 = Room-back b5 (lm + 7) w4 r4 in
    let b6 = th.th_name ++ (0 ∷ []) in
    (
      checked_write b1 _ (4 + (4 + (2 + (lv + (lm + 7))))) wr at_end r0
          ∙ checked_write b2 _ (4 + (2 + (lv + (lm + 7)))) w1 e1 r1
          ∙ checked_write b3 _ (2 + (lv + (lm + 7))) w2' e2 r2
          ∙ checked_write b4 _ (lv + (lm + 7)) w3 e3 r3
          ∙ checked_write b5 _ (lm + 7) w4 e4 r4
          ∙ checked_write b6 _ 7 w5 e5 r5,
      AtEnd-appended b6 w5 e5,
      Room-back b6 7 w5 r5,
    )

-- The check of the sum, and what is returned.
header_padded :
    (th : Hdr) (wr : Writer) (pad : ℕ)
    → AtEnd wr
    → Room
        (4
          + (4
              + (4
                  + (2
                      + (length (th.th_version ++ (0 ∷ []))
                          + (length (th.th_name ++ (0 ∷ [])) + 7))))))
        wr
    → yypad64 (after_fields th wr).total_written ≡ pad
    → 14 + length (th.th_version ++ (0 ∷ [])) + length (th.th_name ++ (0 ∷ [])) + pad ≡ th.th_hsize
    → yytbl_hdr_fwrite th wr ≡ done th.th_hsize (appended (replicate pad 0) (after_fields th wr))
header_padded th wr pad at_end room e sum =
    let (run, at_end', room') = fields_written th wr at_end room in
    let before = after_fields th wr in
    let padded : yytbl_write_pad64 before ≡ done pad (appended (replicate pad 0) before) =
      subst (λ n. yytbl_write_pad64 before ≡ done n (appended (replicate n 0) before)) e
        (yytbl_write_pad64_pads before at_end' room') in
    run
    ∙ bind-done (or_die yytbl_write_pad64) _ before (or_die-done yytbl_write_pad64 before padded)
    ∙ rw (sum, ==_refl th.th_hsize)

-- The size of the header, padding included.
unfoldable pub header_size : (version name : List ℕ) → ℕ
unfolding yypad64
header_size version name =
    let size = 14 + length version + 1 + length name + 1 in size + yypad64 size

-- The header for strings without NUL characters.
clean_hdr : (version name : List ℕ) → Hdr
clean_hdr version name = record {
  th_magic = yytbl_magic;
  th_hsize = header_size version name;
  th_ssize = 0;
  th_flags = 0;
  th_version = version;
  th_name = name;
}

yypad64-small : (n : ℕ) → yypad64 n ≤ 7
unfolding yypad64
yypad64-small n = omega arith

yypad64-aligned : (t n : ℕ) → t % 8 ≡ 0 → yypad64 (t + n) ≡ yypad64 n
unfolding yypad64
yypad64-aligned t n h = omega arith

yypad64-sum : (n : ℕ) → (n + yypad64 n) % 8 ≡ 0
unfolding yypad64
yypad64-sum n = omega arith

small_mod : (n : ℕ) → n < 2 ^ 32 → n % 2 ^ 32 ≡ n
small_mod n h = omega arith

yytbl_hdr_init-clean :
    (version name : List ℕ)
    → All (λ c. c ≢ 0) version
    → All (λ c. c ≢ 0) name
    → length version + length name + 23 < 2 ^ 32
    → yytbl_hdr_init version name ≡ clean_hdr version name
unfolding yytbl_hdr_init clean_hdr header_size
yytbl_hdr_init-clean version name cv cn small =
    let size = 14 + length version + 1 + length name + 1 in
    let pad = yypad64-small size in
    rw (
      small_mod size (omega arith),
      small_mod (size + yypad64 size) (omega arith),
      c_string-clean version cv,
      c_string-clean name cn,
    )

-- The file behind the old content: the fields in network byte order, the strings with their NULs,
-- and the padding.
unfoldable pub WritesHeader : (version name : List ℕ) → Writer → Writer → Type 0
WritesHeader version name wr wr' =
    (wr'.content
      ≡ ((((((wr.content ++ bytes32 yytbl_magic) ++ bytes32 (header_size version name))
                ++ bytes32 0)
              ++ bytes16 0)
            ++ (version ++ (0 ∷ [])))
          ++ (name ++ (0 ∷ [])))
        ++ replicate (yypad64 (14 + length version + 1 + length name + 1)) 0)
    × (wr'.th_ssize_pos ≡ wr.position + 8)
    × (wr'.position ≡ wr.position + header_size version name)
    × (wr'.total_written % 8 ≡ 0)

-- For strings without NUL characters, at the end of a file with room, with a total so far that is a
-- multiple of eight: writing the header that yytbl_hdr_init makes returns its size, never an error.
-- The header is appended, the place of its size field is noted, and the total is a multiple of eight.
pub yytbl_hdr_fwrite-WritesHeader :
    (version name : List ℕ) (wr : Writer)
    → All (λ c. c ≢ 0) version
    → All (λ c. c ≢ 0) name
    → AtEnd wr
    → wr.total_written % 8 ≡ 0
    → Room (length version + length name + 23) wr
    → (wr' : Writer) × (yytbl_hdr_fwrite (yytbl_hdr_init version name) wr
        ≡ done (header_size version name) wr')
      × WritesHeader version name wr wr'
unfolding WritesHeader after_fields appended header_size clean_hdr
yytbl_hdr_fwrite-WritesHeader version name wr cv cn at_end aligned (room, small) =
    let th = clean_hdr version name in
    let before = after_fields th wr in
    let lv = length-append version (0 ∷ []) in
    let lm = length-append name (0 ∷ []) in
    let size = 14 + length version + 1 + length name + 1 in
    let total : before.total_written ≡ wr.total_written + size = omega arith in
    let pad : yypad64 before.total_written ≡ yypad64 size =
      ap yypad64 total ∙ yypad64-aligned wr.total_written size aligned in
    let filled : length {A = ℕ} (replicate (yypad64 size) 0) ≡ yypad64 size =
      length-replicate (yypad64 size) in
    let sum = yypad64-sum size in
    let multiple : (appended (replicate (yypad64 size) 0) before).total_written % 8 ≡ 0 =
      omega arith in
    (
      appended (replicate (yypad64 size) 0) before,
      subst
          (λ h.
            yytbl_hdr_fwrite h wr
            ≡ done (header_size version name) (appended (replicate (yypad64 size) 0) before))
          (sym (yytbl_hdr_init-clean version name cv cn (omega arith)))
          (header_padded th wr (yypad64 size) at_end (omega arith, omega arith) pad (omega arith)),
      (refl, omega arith, omega arith, multiple),
    )
