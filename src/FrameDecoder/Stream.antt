-- ===== src/FrameDecoder/Stream.antt =====
-- InputStream of src/VideoFrameDecoder.cpp, with Parse and GetMpeg2Info of src/Mpeg2Decoder.cpp.
use Prim.Native.Nat.{bit_and}
use tvtest_video_decoder.Base.{
  ℕ, Bool, true, false, ◌&&◌, ◌||◌, List, [], ◌∷◌, Option, none, some, ◌==◌, ltb, if◌then◌else◌,
}
use tvtest_video_decoder.Types.{Hresult, s_ok, e_invalidarg, e_unexpected, e_pointer}
use tvtest_video_decoder.FrameDecoder.{
  Picture, Event, Services, Mpeg2, Decoder, is_none, reopen, show_picture, parse_buffer,
  parse_other, parse_invalid, parse_picture, parse_slice, opened,
}

-- How InputStream ends: it returns, it reads through the pointer `pInfo` of a closed handle or
-- through a null pointer, or the events run out before it does.
pub data Outcome : Type 0 where
  returned : Hresult → Outcome
  faulted unfinished : Outcome

-- `pInfo`: the handle that it belongs to, `none` for a null pointer.
abbrev pub Info : Type 0
Info = Option ℕ

abbrev pub info_of : Mpeg2 → Info
info_of (opened h) = some h
info_of _ = none

-- `pInfo->` is defined if its handle is still open.
abbrev pub is_live : Info → Mpeg2 → Bool
is_live (some i) (opened h) = i == h
is_live _ _ = false

-- Parse: without a handle the state is invalid.
abbrev pub parse : Mpeg2 → Event → Event
parse (opened h) e = e
parse _ e = parse_invalid

unfoldable pub show_slice :
    Services → Option (Bool × Option Picture) → Decoder → Decoder × Option Hresult
show_slice s (some (true, some p)) d = show_picture s p d
show_slice s _ d = (d, none)

-- One turn of the loop; `left` tells whether DataLength is greater than 0.
pub data Turn : Type 0 where
  goes_on : Bool → Decoder → Turn
  ends : Outcome → Decoder → Turn

unfoldable pub slice_turn : Bool → Decoder × Option Hresult → Turn
slice_turn left (d, none) = goes_on left d
slice_turn left (d, some hr) = ends (returned hr) d

unfoldable pub turn : Services → Info → Bool → Event → Decoder → Turn
turn s info left parse_buffer d = if left then goes_on false d else ends (returned s_ok) d
turn s info left parse_other d = goes_on left d
turn s info left parse_invalid d = goes_on left (reopen s d)
turn s info left (parse_picture flags) d =
    goes_on left (record d { skips = (d.skip_b_frames && (bit_and flags 7 == 3)) ∷ d.skips })
turn s info left (parse_slice shown) d =
    if is_live info d.mpeg2 then slice_turn left (show_slice s shown d) else ends faulted d

unfoldable pub after_turn : Turn → (Bool → Decoder → Decoder × Outcome) → Decoder × Outcome
after_turn (goes_on left d) rest = rest left d
after_turn (ends o d) rest = (d, o)

-- `e ∷ es` is what mpeg2_parse returns in this turn and the next ones, where it is called.
unfoldable pub input_loop : Services → Info → Bool → List Event → Decoder → Decoder × Outcome
input_loop s info left [] d = (d, unfinished)
input_loop s info left (e ∷ es) d =
    after_turn (turn s info left (parse d.mpeg2 e) d) (λ l c. input_loop s info l es c)

-- InputStream with `size` bytes; `data` tells whether the pointer is not null.
unfoldable pub input_stream : Services → Bool → ℕ → List Event → Decoder → Decoder × Outcome
input_stream s false size es d = (d, returned e_pointer)
input_stream s true size es d =
    if (size == 0) || ltb 2147483647 size
    then (d, returned e_invalidarg)
    else if is_none d.mpeg2
    then (d, returned e_unexpected)
    else input_loop s (info_of d.mpeg2) true es d
