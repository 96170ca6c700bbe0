-- ===== src/FrameDecoder/Ends.antt =====
-- InputStream of src/VideoFrameDecoder.cpp ends: once the data has been handed over, the next request
-- for data is the last.
use tvtest_video_decoder.Base.{
  ℕ, ◌+◌, ◌≤◌, ◌≡◌, refl, arith, Bool, true, false, List, [], ◌∷◌, Option, none, some,
}
use tvtest_video_decoder.Types.{Hresult}
use tvtest_video_decoder.FrameDecoder.{
  Services, Decoder, Event, parse_buffer, parse_other, parse_invalid, parse_picture, parse_slice,
  opened,
}
use tvtest_video_decoder.FrameDecoder.Stream.{
  Outcome, returned, Turn, goes_on, ends, is_live, parse, show_slice, slice_turn, turn, after_turn,
  input_loop,
}
use tvtest_video_decoder.FrameDecoder.Handles.{
  is_invalid, no_invalid, same_handle, Fine, slice-Fine,
}

abbrev pub is_returned : Outcome → Bool
is_returned (returned hr) = true
is_returned _ = false

abbrev pub buffer_count : Event → ℕ
buffer_count parse_buffer = 1
buffer_count _ = 0

-- How often mpeg2_parse asks for data.
abbrev pub requests : List Event → ℕ
requests [] = 0
requests (e ∷ es) = buffer_count e + requests es

-- How many requests for data the loop answers before it ends.
abbrev pub needed : Bool → ℕ
needed true = 2
needed false = 1

-- A turn that goes on gets closer to the end if it was asked for data, and one that ends returns.
Advances : ℕ → ℕ → Turn → Type 0
Advances h n (goes_on left d) = (d.mpeg2 ≡ opened h) × (needed left ≤ n)
Advances h n (ends o d) = is_returned o ≡ true

slice-Advances :
    (h n : ℕ) (left : Bool) (r : Decoder × Option Hresult)
    → needed left ≤ n
    → Fine h (slice_turn left r)
    → Advances h n (slice_turn left r)
unfolding slice_turn Fine Advances
slice-Advances h n left (d, none) k v = (v, k)
slice-Advances h n left (d, some hr) k v = refl

turn-Advances :
    (s : Services) (h n : ℕ) (left : Bool) (e : Event) (d : Decoder)
    → is_invalid e ≡ false
    → needed left ≤ buffer_count e + n
    → d.mpeg2 ≡ opened h
    → Advances h n (turn s (some h) left e d)
unfolding turn Advances
turn-Advances s h n true parse_buffer d v k m = (m, omega arith)
turn-Advances s h n false parse_buffer d v k m = refl
turn-Advances s h n left parse_other d v k m = (m, omega arith)
turn-Advances s h n left parse_invalid d v k m = absurd (ground arith)
turn-Advances s h n left (parse_picture f) d v k m = (m, omega arith)
turn-Advances s h n left (parse_slice shown) d v k m =
    let alive : is_live (some h) d.mpeg2 ≡ true = rw m (same_handle h) in
    rw alive
      (slice-Advances h n left (show_slice s shown d) (omega arith) (slice-Fine s h left shown d m))

after-returned :
    (h n : ℕ) (rest : Bool → Decoder → Decoder × Outcome)
    → ((l : Bool) (c : Decoder)
        → c.mpeg2 ≡ opened h
        → needed l ≤ n
        → is_returned (rest l c).1 ≡ true)
    → (t : Turn) → Advances h n t
    → is_returned (after_turn t rest).1 ≡ true
unfolding after_turn Advances
after-returned h n rest f (goes_on l c) (m, k) = f l c m k
after-returned h n rest f (ends o c) v = v

-- InputStream returns a result code as soon as mpeg2_parse has asked for data twice, or once if the
-- data has been handed over already, as long as the decoder is open and no state of the stream is
-- invalid.
pub input_loop-returns :
    (s : Services) (h : ℕ) (left : Bool) (es : List Event) (d : Decoder)
    → d.mpeg2 ≡ opened h
    → no_invalid es ≡ true
    → needed left ≤ requests es
    → is_returned (input_loop s (some h) left es d).1 ≡ true
unfolding input_loop
input_loop-returns s h true [] d m v k = absurd (omega arith)
input_loop-returns s h false [] d m v k = absurd (omega arith)
input_loop-returns s h left (e ∷ es) d m v k =
    let same : parse d.mpeg2 e ≡ e = rw m refl in
    rw same (
      after-returned h (requests es) (λ l c. input_loop s (some h) l es c)
        (λ l c w j. input_loop-returns s h l es c w (ground arith) j) (turn s (some h) left e d)
        (turn-Advances s h (requests es) left e d (ground arith) k m))
