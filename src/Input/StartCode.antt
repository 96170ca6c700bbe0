-- ===== src/Input/StartCode.antt =====
-- The search of CheckInputType in src/TVTestVideoDecoder.cpp for the sequence extension.
use tvtest_video_decoder.Base.{
  ℕ, ◌+◌, ◌*◌, ◌/◌, ◌%◌, ◌^◌, ◌<◌, ◌≡◌, refl, arith, Bool, true, ◌&&◌, List, [], ◌∷◌, some, ◌==◌,
  ltb, if◌then◌else◌,
}
use tvtest_video_decoder.Input.{
  Verdict, accepts, rejects, chroma_verdict, scan, check_header, header_verdict, decide,
  check_input_type, is_type_known, MajorType, InputSubtype,
}

-- The first 00 00 01 b5, where `a`, `b` and `c` are the three bytes before.
unfoldable pub find_extension : ℕ → ℕ → ℕ → List ℕ → Verdict
find_extension a b c [] = accepts
find_extension a b c (d ∷ bytes) =
    let rest = find_extension b c d bytes in
    if (a == 0) && (b == 0) && (c == 1) && (d == 0xb5) then chroma_verdict bytes else rest

abbrev pub all_bytes : List ℕ → Bool
all_bytes [] = true
all_bytes (x ∷ xs) = ltb x 256 && all_bytes xs

same_window :
    (sync a b c d : ℕ)
    → a < 256
    → b < 256
    → c < 256
    → d < 256
    → sync % 2 ^ 24 ≡ a * 65536 + b * 256 + c
    → ((sync * 256 + d) % 2 ^ 32 / 256 ≡ a * 65536 + b * 256 + c)
      × ((sync * 256 + d) % 2 ^ 32 % 256 ≡ d)
      × ((sync * 256 + d) % 2 ^ 32 % 2 ^ 24 ≡ b * 65536 + c * 256 + d)
same_window sync a b c d ha hb hc hd h = (omega arith, omega arith, omega arith)

scan-window :
    (bytes : List ℕ) (sync a b c : ℕ)
    → a < 256
    → b < 256
    → c < 256
    → all_bytes bytes ≡ true
    → sync % 2 ^ 24 ≡ a * 65536 + b * 256 + c
    → scan sync bytes ≡ find_extension a b c bytes
unfolding scan find_extension
scan-window [] sync a b c ha hb hc hs h = refl
scan-window (d ∷ bytes) sync a b c ha hb hc hs h =
    let hd : d < 256 = ground arith in
    let w = same_window sync a b c d ha hb hc hd h in
    let rest = scan-window bytes ((sync * 256 + d) % 2 ^ 32) b c d hb hc hd (ground arith) w.2 in
    rw (w.0, w.1, rest) (ground arith)

-- For a sequence header of four bytes or more CheckInputType rejects what does not begin with 00 00
-- 01, and else judges the bytes behind the first 00 00 01 b5: its search with a 32-bit word finds
-- that start code and no other.
pub check_input_type-extension :
    (a b c d : ℕ) (bytes : List ℕ) (major : MajorType) (subtype : InputSubtype)
    → all_bytes (a ∷ b ∷ c ∷ d ∷ bytes) ≡ true
    → check_input_type (some (a ∷ b ∷ c ∷ d ∷ bytes)) major subtype
      ≡ decide (is_type_known major subtype) (
          if (a == 0) && (b == 0) && (c == 1)
          then find_extension 255 255 255 (a ∷ b ∷ c ∷ d ∷ bytes)
          else rejects)
unfolding check_input_type header_verdict check_header
check_input_type-extension a b c d bytes major subtype h =
    let found =
      scan-window (a ∷ b ∷ c ∷ d ∷ bytes) 0xffffffff 255 255 255 (omega arith) (omega arith)
        (omega arith) h refl in
    let start : (a + b * 256 + c * 65536 == 65536) ≡ (a == 0) && (b == 0) && (c == 1) =
      ground arith in
    rw (start, found) refl
