-- ===== src/FrameDecoder/KeyFrames.antt =====
-- The wait for a key frame in InputStream of src/VideoFrameDecoder.cpp.
use Prim.Native.Nat.{bit_and, bit_or}
use mathlib.Core.Bool.{not}
use tvtest_video_decoder.Base.{
  ℕ, ◌≡◌, refl, arith, Bool, true, false, ◌&&◌, List, [], ◌∷◌, Option, none, some, ◌==◌,
  if◌then◌else◌, Bool-cases, inl, inr,
}
use tvtest_video_decoder.Types.{
  has_flag, flag_top_field_first, flag_repeat_first_field, flag_progressive_frame,
  flag_progressive_sequence, flag_i_frame, flag_p_frame, flag_b_frame,
}
use tvtest_video_decoder.FrameBuffer.{FrameBuffer}
use tvtest_video_decoder.FrameDecoder.{
  Services, Decoder, Picture, Event, parse_buffer, parse_other, parse_invalid, parse_picture,
  parse_slice, Mpeg2, no_decoder, closed, opened, coding_flag, flag_if, get_frame_flags, reopen,
  close_decoder, take_picture, show_taken, show_sized, show_picture,
}
use tvtest_video_decoder.FrameDecoder.Stream.{
  Outcome, Info, Turn, goes_on, ends, is_live, parse, show_slice, slice_turn, turn, after_turn,
  input_loop,
}

-- The flags below that of an I frame, with each kind of coding flag.
abbrev low_flags : Bool → Bool → Bool → Bool → ℕ
low_flags sequence frame repeat top = flag_if sequence flag_progressive_sequence (
    flag_if frame flag_progressive_frame
      (flag_if repeat flag_repeat_first_field (flag_if top flag_top_field_first 0)))

low_flags-i :
    (a b c d : Bool)
    → (has_flag (bit_or (low_flags a b c d) flag_i_frame) flag_i_frame ≡ true)
      × (has_flag (bit_or (low_flags a b c d) flag_p_frame) flag_i_frame ≡ false)
      × (has_flag (bit_or (low_flags a b c d) flag_b_frame) flag_i_frame ≡ false)
      × (has_flag (bit_or (low_flags a b c d) 0) flag_i_frame ≡ false)
unfolding has_flag
low_flags-i true true true true = (refl, refl, refl, refl)
low_flags-i true true true false = (refl, refl, refl, refl)
low_flags-i true true false true = (refl, refl, refl, refl)
low_flags-i true true false false = (refl, refl, refl, refl)
low_flags-i true false true true = (refl, refl, refl, refl)
low_flags-i true false true false = (refl, refl, refl, refl)
low_flags-i true false false true = (refl, refl, refl, refl)
low_flags-i true false false false = (refl, refl, refl, refl)
low_flags-i false true true true = (refl, refl, refl, refl)
low_flags-i false true true false = (refl, refl, refl, refl)
low_flags-i false true false true = (refl, refl, refl, refl)
low_flags-i false true false false = (refl, refl, refl, refl)
low_flags-i false false true true = (refl, refl, refl, refl)
low_flags-i false false true false = (refl, refl, refl, refl)
low_flags-i false false false true = (refl, refl, refl, refl)
low_flags-i false false false false = (refl, refl, refl, refl)

-- GetFrameFlags reports an I frame exactly if the coding type of the picture is that of one.
pub get_frame_flags-i :
    (pic seq : ℕ) → has_flag (get_frame_flags pic seq) flag_i_frame ≡ (bit_and pic 7 == 1)
unfolding get_frame_flags coding_flag
get_frame_flags-i pic seq =
    let (i, p, b, other) =
      low_flags-i (has_flag seq 4) (has_flag pic 16) (has_flag pic 256) (has_flag pic 8) in
    elim (Bool-cases (bit_and pic 7 == 1)) [
      | inl e ↦ rw e i
      | inr e ↦ elim (Bool-cases (bit_and pic 7 == 2)) [
        | inl f ↦ rw (e, f) p
        | inr f ↦ elim (Bool-cases (bit_and pic 7 == 3)) [
          | inl g ↦ rw (e, f, g) b
          | inr g ↦ rw (e, f, g) other
        ]
      ]
    ]

-- A picture to display that is coded as an I frame.
abbrev pub is_key : Event → Bool
is_key (parse_slice (some (chroma, some p))) = bit_and p.flags 7 == 1
is_key _ = false

abbrev pub no_key : List Event → Bool
no_key [] = true
no_key (e ∷ es) = not (is_key e) && no_key es

-- The decoder waits for a key frame, also after it is opened again, and `c` has been captured.
pub record Waits (c : List FrameBuffer) (d : Decoder) : Type 0 where
  pub waits : d.wait_for_key_frame ≡ true
  pub enabled : d.enable_wait_for_key_frame ≡ true
  pub captured : d.captured ≡ c

Quiet : List FrameBuffer → Turn → Type 0
Quiet c (goes_on left d) = Waits c d
Quiet c (ends o d) = d.captured ≡ c

module _ (c : List FrameBuffer) (s : Services) where
  reopen-Waits : (d : Decoder) → Waits c d → Waits c (reopen s d)
  unfolding reopen
  reopen-Waits d w = record { waits = w.enabled; enabled = w.enabled; captured = w.captured }

  take_picture-Waits :
      (p : Picture) (d : Decoder)
      → (bit_and p.flags 7 == 1) ≡ false
      → Waits c d
      → Waits c (take_picture p d)
  unfolding take_picture
  take_picture-Waits p d k w =
      rw (get_frame_flags-i p.flags p.sequence_flags, k)
        (record { waits = w.waits; enabled = w.enabled; captured = w.captured })

  show_taken-Waits : (p : Picture) (d : Decoder) → Waits c d → show_taken s p d ≡ (d, none)
  unfolding show_taken
  show_taken-Waits p d w = rw w.waits (ground arith)

  show_sized-Quiet :
      (p : Picture) (same : Bool) (b : FrameBuffer) (ok left : Bool) (d : Decoder)
      → (bit_and p.flags 7 == 1) ≡ false
      → Waits c d
      → Quiet c (slice_turn left (show_sized s p same b ok d))
  unfolding show_sized slice_turn Quiet close_decoder
  show_sized-Quiet p same b ok left d k w =
      let next : Decoder = record d { buffer = if same then d.buffer else b } in
      let sized : Waits c next = record {
        waits = w.waits;
        enabled = w.enabled;
        captured = w.captured;
      } in
      let taken = take_picture-Waits p next k sized in
      elim (Bool-cases (not same && not ok)) [
        | inl t ↦ rw t w.captured
        | inr f ↦ rw (f, show_taken-Waits p (take_picture p next) taken) taken
      ]

  slice-Quiet :
      (left : Bool) (shown : Option (Bool × Option Picture)) (d : Decoder)
      → is_key (parse_slice shown) ≡ false
      → Waits c d
      → Quiet c (slice_turn left (show_slice s shown d))
  unfolding show_slice slice_turn Quiet show_picture
  slice-Quiet left none d k w = w
  slice-Quiet left (some (true, none)) d k w = w
  slice-Quiet left (some (false, none)) d k w = w
  slice-Quiet left (some (false, some p)) d k w = w
  slice-Quiet left (some (true, some p)) d k w = show_sized-Quiet p _ _ _ left d k w

  turn-Quiet :
      (info : Info) (left : Bool) (e : Event) (d : Decoder)
      → is_key e ≡ false
      → Waits c d
      → Quiet c (turn s info left e d)
  unfolding turn Quiet
  turn-Quiet info true parse_buffer d k w = w
  turn-Quiet info false parse_buffer d k w = w.captured
  turn-Quiet info left parse_other d k w = w
  turn-Quiet info left parse_invalid d k w = reopen-Waits d w
  turn-Quiet info left (parse_picture f) d k w = record {
    waits = w.waits;
    enabled = w.enabled;
    captured = w.captured;
  }
  turn-Quiet info left (parse_slice shown) d k w = elim (Bool-cases (is_live info d.mpeg2)) [
    | inl live ↦ rw live (slice-Quiet left shown d k w)
    | inr dead ↦ rw dead w.captured
  ]

  after-Quiet :
      (rest : Bool → Decoder → Decoder × Outcome)
      → ((l : Bool) (e : Decoder) → Waits c e → (rest l e).0.captured ≡ c)
      → (t : Turn) → Quiet c t
      → (after_turn t rest).0.captured ≡ c
  unfolding after_turn Quiet
  after-Quiet rest f (goes_on l e) v = f l e v
  after-Quiet rest f (ends o e) v = v

  parse-key : (m : Mpeg2) (e : Event) → is_key e ≡ false → is_key (parse m e) ≡ false
  parse-key (opened h) e k = k
  parse-key no_decoder e k = refl
  parse-key closed e k = refl

  -- While the decoder waits for a key frame, also after it is opened again, and none of the
  -- pictures to display is an I frame, InputStream captures no frame, however the stream ends and
  -- however often it is invalid.
  pub input_loop-Waits :
      (info : Info) (left : Bool) (es : List Event) (d : Decoder)
      → Waits c d
      → no_key es ≡ true
      → (input_loop s info left es d).0.captured ≡ c
  unfolding input_loop
  input_loop-Waits info left [] d w k = w.captured
  input_loop-Waits info left (e ∷ es) d w k =
      after-Quiet (λ l f. input_loop s info l es f)
        (λ l f m. input_loop-Waits info l es f m (ground arith))
        (turn s info left (parse d.mpeg2 e) d)
        (turn-Quiet info left (parse d.mpeg2 e) d (parse-key d.mpeg2 e (ground arith)) w)
