-- ===== src/FrameDecoder/Handles.antt =====
-- The handle of libmpeg2 in InputStream of src/VideoFrameDecoder.cpp: the loop reads through a pointer
-- that it took before it started.
use mathlib.Core.Bool.{not}
use tvtest_video_decoder.Base.{
  ℕ, ◌≡◌, refl, ◌∙◌, arith, Bool, true, false, ◌&&◌, List, [], ◌∷◌, Option, none, some, ◌==◌,
  if◌then◌else◌, Bool-cases, inl, inr,
}
use tvtest_video_decoder.Types.{Hresult, failed, has_flag, flag_top_field_first, DeinterlaceMethod}
use tvtest_video_decoder.FrameBuffer.{FrameBuffer}
use tvtest_video_decoder.FrameDecoder.{
  Services, Decoder, Picture, Event, parse_buffer, parse_other, parse_invalid, parse_picture,
  parse_slice, opened, capture_frame, capture_first, show_taken, show_sized, second_field,
  out_frame, close_failed, take_picture, show_picture,
}
use tvtest_video_decoder.FrameDecoder.Stream.{
  Outcome, faulted, Turn, goes_on, ends, is_live, parse, show_slice, slice_turn, turn, after_turn,
  input_loop,
}

abbrev pub is_fault : Outcome → Bool
is_fault faulted = true
is_fault _ = false

abbrev pub is_invalid : Event → Bool
is_invalid parse_invalid = true
is_invalid _ = false

-- No state of the stream is invalid.
abbrev pub no_invalid : List Event → Bool
no_invalid [] = true
no_invalid (e ∷ es) = not (is_invalid e) && no_invalid es

not_none : {x : Hresult} → some x ≡ none → ⊥
not_none e = ground arith

pub same_handle : (h : ℕ) → (h == h) ≡ true
same_handle h = ground arith

-- The frame that is shown leaves the handle alone, unless the loop ends.
capture_first-mpeg2 :
    (s : Services) (m : DeinterlaceMethod) (top : Bool) (d : Decoder)
    → (capture_first s m top d).0.mpeg2 ≡ d.mpeg2
unfolding capture_first capture_frame
capture_first-mpeg2 s m top d = ground arith

second_field-mpeg2 :
    (s : Services) (m : DeinterlaceMethod) (top : Bool) (r : Decoder × Hresult)
    → (second_field s m top r).0.mpeg2 ≡ r.0.mpeg2
unfolding second_field capture_frame
second_field-mpeg2 s m top r = ground arith

out_frame-mpeg2 : (s : Services) (d : Decoder) → (out_frame s d).0.mpeg2 ≡ d.mpeg2
unfolding out_frame
out_frame-mpeg2 s d =
    let m = d.buffer.attributes.deinterlace in
    let top = has_flag d.buffer.attributes.flags flag_top_field_first in
    let kept = capture_first-mpeg2 s m top d in
    elim (Bool-cases (failed (capture_first s m top d).1)) [
      | inl e ↦ rw e kept
      | inr e ↦ rw e (second_field-mpeg2 s m top (capture_first s m top d) ∙ kept)
    ]

close_failed-mpeg2 :
    (r : Decoder × Hresult) → (close_failed r).1 ≡ none → (close_failed r).0.mpeg2 ≡ r.0.mpeg2
unfolding close_failed
close_failed-mpeg2 r e = ground arith

show_taken-mpeg2 :
    (s : Services) (p : Picture) (d : Decoder)
    → (show_taken s p d).1 ≡ none
    → (show_taken s p d).0.mpeg2 ≡ d.mpeg2
unfolding show_taken
show_taken-mpeg2 s p d e =
    elim (Bool-cases (not (has_flag p.flags 64) && not d.wait_for_key_frame)) [
      | inl t ↦ rw t (close_failed-mpeg2 (out_frame s d) (rw t at e) ∙ out_frame-mpeg2 s d)
      | inr f ↦ rw f
    ]

take_picture-mpeg2 : (p : Picture) (d : Decoder) → (take_picture p d).mpeg2 ≡ d.mpeg2
unfolding take_picture
take_picture-mpeg2 p d = refl

show_sized-mpeg2 :
    (s : Services) (p : Picture) (same : Bool) (b : FrameBuffer) (ok : Bool) (d : Decoder)
    → (show_sized s p same b ok d).1 ≡ none
    → (show_sized s p same b ok d).0.mpeg2 ≡ d.mpeg2
unfolding show_sized
show_sized-mpeg2 s p same b ok d e =
    let next : Decoder = record d { buffer = if same then d.buffer else b } in
    elim (Bool-cases (not same && not ok)) [
      | inl t ↦ absurd (not_none (rw t at e))
      | inr f ↦
          rw f (show_taken-mpeg2 s p (take_picture p next) (rw f at e) ∙ take_picture-mpeg2 p next)
    ]

show_picture-mpeg2 :
    (s : Services) (p : Picture) (d : Decoder)
    → (show_picture s p d).1 ≡ none
    → (show_picture s p d).0.mpeg2 ≡ d.mpeg2
unfolding show_picture
show_picture-mpeg2 s p d e = show_sized-mpeg2 s p _ _ _ d e

-- A turn that goes on keeps the handle, and one that ends does not fault.
unfoldable pub Fine : ℕ → Turn → Type 0
Fine h (goes_on left d) = d.mpeg2 ≡ opened h
Fine h (ends o d) = is_fault o ≡ false

shown-Fine :
    (h : ℕ) (left : Bool) (r : Decoder × Option Hresult)
    → ((r.1 ≡ none) → r.0.mpeg2 ≡ opened h)
    → Fine h (slice_turn left r)
unfolding slice_turn Fine
shown-Fine h left (d, none) k = k refl
shown-Fine h left (d, some hr) k = refl

pub slice-Fine :
    (s : Services) (h : ℕ) (left : Bool) (shown : Option (Bool × Option Picture)) (d : Decoder)
    → d.mpeg2 ≡ opened h
    → Fine h (slice_turn left (show_slice s shown d))
unfolding show_slice
slice-Fine s h left none d e = shown-Fine h left (d, none) (λ t. e)
slice-Fine s h left (some (false, p)) d e = shown-Fine h left (d, none) (λ t. e)
slice-Fine s h left (some (true, none)) d e = shown-Fine h left (d, none) (λ t. e)
slice-Fine s h left (some (true, some p)) d e =
    shown-Fine h left (show_picture s p d) (λ t. show_picture-mpeg2 s p d t ∙ e)

turn-Fine :
    (s : Services) (h : ℕ) (left : Bool) (e : Event) (d : Decoder)
    → is_invalid e ≡ false
    → d.mpeg2 ≡ opened h
    → Fine h (turn s (some h) left e d)
unfolding turn Fine
turn-Fine s h left parse_buffer d v k = ground arith
turn-Fine s h left parse_other d v k = k
turn-Fine s h left parse_invalid d v k = absurd (ground arith)
turn-Fine s h left (parse_picture f) d v k = k
turn-Fine s h left (parse_slice shown) d v k =
    let alive : is_live (some h) d.mpeg2 ≡ true = rw k (same_handle h) in
    rw alive (slice-Fine s h left shown d k)

after-safe :
    (h : ℕ) (rest : Bool → Decoder → Decoder × Outcome)
    → ((l : Bool) (c : Decoder) → c.mpeg2 ≡ opened h → is_fault (rest l c).1 ≡ false)
    → (t : Turn) → Fine h t
    → is_fault (after_turn t rest).1 ≡ false
unfolding after_turn Fine
after-safe h rest f (goes_on l c) v = f l c v
after-safe h rest f (ends o c) v = v

-- InputStream never reads through a pointer of a closed handle, as long as the decoder is open and
-- no state of the stream is invalid.
pub input_loop-safe :
    (s : Services) (h : ℕ) (left : Bool) (es : List Event) (d : Decoder)
    → d.mpeg2 ≡ opened h
    → no_invalid es ≡ true
    → is_fault (input_loop s (some h) left es d).1 ≡ false
unfolding input_loop
input_loop-safe s h left [] d k v = refl
input_loop-safe s h left (e ∷ es) d k v =
    let same : parse d.mpeg2 e ≡ e = rw k refl in
    rw same (
      after-safe h (λ l c. input_loop s (some h) l es c)
        (λ l c m. input_loop-safe s h l es c m (ground arith)) (turn s (some h) left e d)
        (turn-Fine s h left e d (ground arith) k))
