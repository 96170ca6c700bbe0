-- ===== src/FrameDecoder.antt =====
-- CTVTestVideoFrameDecoder of src/VideoFrameDecoder.cpp, the decoder of a raw stream, with Open, Close
-- and GetFrameFlags of src/Mpeg2Decoder.cpp. The library libmpeg2 is a parameter: what mpeg2_init
-- and mpeg2_parse return, and the pictures that it shows.
pub mod Stream
pub mod KeyFrames
pub mod Handles
pub mod Ends
use Prim.Native.Nat.{bit_and, bit_or}
use mathlib.Core.Bool.{not}
use tvtest_video_decoder.Base.{
  ℕ, zero, suc, ◌+◌, Bool, true, false, ◌&&◌, ◌||◌, List, [], ◌∷◌, Option, none, some, ◌==◌, ltb,
  if◌then◌else◌,
}
use tvtest_video_decoder.Base.Int.{ℤ, pos, negsuc, ltb_ℤ}
use tvtest_video_decoder.Types.{
  Hresult, s_ok, e_invalidarg, e_outofmemory, e_unexpected, e_pointer, failed, DeinterlaceMethod,
  blend, same_method, has_flag, flag_top_field_first, flag_repeat_first_field,
  flag_progressive_frame, flag_progressive_sequence, flag_i_frame, flag_p_frame, flag_b_frame, i420,
}
use tvtest_video_decoder.FrameBuffer.{FrameBuffer, Attributes, allocate}

-- GetFrameFlags of the flags of the picture and of the sequence.
unfoldable pub coding_flag : ℕ → ℕ
coding_flag pic =
    let t = bit_and pic 7 in
    if t == 1
    then flag_i_frame
    else if t == 2
    then flag_p_frame
    else if t == 3
    then flag_b_frame
    else 0

abbrev pub flag_if : Bool → ℕ → ℕ → ℕ
flag_if true flag flags = bit_or flags flag
flag_if false flag flags = flags

unfoldable pub get_frame_flags : ℕ → ℕ → ℕ
get_frame_flags pic seq =
    bit_or
      (flag_if (has_flag seq 4) flag_progressive_sequence (
        flag_if (has_flag pic 16) flag_progressive_frame (
          flag_if (has_flag pic 256) flag_repeat_first_field
            (flag_if (has_flag pic 8) flag_top_field_first 0))))
      (coding_flag pic)

-- A picture that mpeg2_info shows: the sizes and flags of its sequence, its own flags, and what
-- GetAspectRatio makes of it.
pub record Picture : Type 0 where
  pub width : ℕ
  pub height : ℕ
  pub aspect : Option (ℕ × ℕ)
  pub sequence_flags : ℕ
  pub flags : ℕ

-- What mpeg2_parse returns in a turn of the loop, where it is called. At the end of a slice or of the
-- stream there may be a frame to display, with chroma planes of half the size or not, and with its
-- picture or not. `parse_other` is a state that the switch has no case for.
pub data Event : Type 0 where
  parse_buffer parse_other parse_invalid : Event
  parse_picture : ℕ → Event  -- the flags of the picture
  parse_slice : Option (Bool × Option Picture) → Event

pub data FrameStatus : Type 0 where
  frame_ok frame_skip frame_pending : FrameStatus

-- What the loop calls: the deinterlacers, by method and field, the frame capture, the heap, and
-- whether mpeg2_init succeeds, by the number of calls before.
pub record Services : Type 0 where
  pub deinterlace : DeinterlaceMethod → Bool → ℕ → FrameStatus
  pub is_double_frame : DeinterlaceMethod → Bool
  pub capture : FrameBuffer → Hresult
  pub malloc : ℕ → Option ℕ
  pub mpeg2_init : ℕ → Bool

-- m_pDecoder and its m_pDec. A handle is the number of the call of mpeg2_init that made it.
pub data Mpeg2 : Type 0 where
  no_decoder closed : Mpeg2
  opened : ℕ → Mpeg2

pub record Decoder : Type 0 where
  pub mpeg2 : Mpeg2
  pub init_calls : ℕ
  pub deinterlace_method : DeinterlaceMethod
  pub enable_wait_for_key_frame : Bool
  pub wait_for_key_frame : Bool
  pub skip_b_frames : Bool
  pub crop_1088_to_1080 : Bool
  pub num_threads : ℤ
  pub buffer : FrameBuffer
  pub initialized : List DeinterlaceMethod  -- the deinterlacers initialised, the last first
  pub skips : List Bool  -- the calls of mpeg2_skip, the last first
  pub captured : List FrameBuffer  -- the frames captured, the last first

unfoldable pub new_decoder : FrameBuffer → Decoder
new_decoder buffer = record {
  mpeg2 = no_decoder;
  init_calls = 0;
  deinterlace_method = blend;
  enable_wait_for_key_frame = true;
  wait_for_key_frame = true;
  skip_b_frames = false;
  crop_1088_to_1080 = true;
  num_threads = pos 0;
  buffer = buffer;
  initialized = [];
  skips = [];
  captured = [];
}

abbrev pub is_none : Mpeg2 → Bool
is_none no_decoder = true
is_none closed = false
is_none (opened h) = false

abbrev pub close_mpeg2 : Mpeg2 → Mpeg2
close_mpeg2 no_decoder = no_decoder
close_mpeg2 _ = closed

abbrev pub is_frame_ok : FrameStatus → Bool
is_frame_ok frame_ok = true
is_frame_ok _ = false

abbrev pub case_skip : FrameStatus → FrameStatus → FrameStatus
case_skip frame_skip other = other
case_skip status other = status

abbrev pub set_aspect : Option (ℕ × ℕ) → Attributes → Attributes
set_aspect none a = a
set_aspect (some (x, y)) a = record a { aspect_x = x; aspect_y = y }

-- Open, for the one subtype that it accepts, if `new` finds memory.
unfoldable pub reopen : Services → Decoder → Decoder
reopen s d = record d {
  mpeg2 = if s.mpeg2_init d.init_calls then opened d.init_calls else closed;
  init_calls = d.init_calls + 1;
  wait_for_key_frame = d.enable_wait_for_key_frame;
  buffer = record d.buffer {
    attributes = record d.buffer.attributes { flags = 0; deinterlace = d.deinterlace_method };
  };
  initialized = d.deinterlace_method ∷ d.initialized;
}

-- `mpeg2_video` tells whether the subtype is MPEG-2 video, `memory` whether `new` succeeds.
unfoldable pub open_decoder : Services → Bool → Bool → Decoder → Decoder × Hresult
open_decoder s false memory d = (d, e_invalidarg)
open_decoder s true memory d =
    if is_none d.mpeg2 && not memory then (d, e_outofmemory) else (reopen s d, s_ok)

unfoldable pub close_decoder : Decoder → Decoder
close_decoder d = record d { mpeg2 = close_mpeg2 d.mpeg2 }

unfoldable pub change_method : DeinterlaceMethod → Decoder → Decoder
change_method method d =
    if same_method d.deinterlace_method method
    then d
    else if is_none d.mpeg2
    then record d { deinterlace_method = method }
    else record d {
      deinterlace_method = method;
      buffer = record d.buffer { attributes = record d.buffer.attributes { deinterlace = method } };
      initialized = method ∷ d.initialized;
    }

-- A number that is no method is `none`.
unfoldable pub set_deinterlace_method : Option DeinterlaceMethod → Decoder → Decoder × Hresult
set_deinterlace_method none d = (d, e_invalidarg)
set_deinterlace_method (some method) d = (change_method method d, s_ok)

unfoldable pub set_wait_for_key_frame : Bool → Decoder → Decoder
set_wait_for_key_frame wait d = record d { enable_wait_for_key_frame = wait }

unfoldable pub set_skip_b_frames : Bool → Decoder → Decoder
set_skip_b_frames skip d = record d { skip_b_frames = skip }

unfoldable pub set_num_threads : ℤ → Decoder → Decoder × Hresult
set_num_threads n d =
    if ltb_ℤ n (pos 0) || ltb_ℤ (pos 32) n
    then (d, e_invalidarg)
    else (record d { num_threads = n }, s_ok)

-- FrameCaptureCallback with the frame in its present state.
unfoldable pub capture_frame : Services → Decoder → Decoder × Hresult
capture_frame s d = (record d { captured = d.buffer ∷ d.captured }, s.capture d.buffer)

-- The first GetFrame, and the one of the blend deinterlacer if that skips the frame.
unfoldable pub first_field : Services → DeinterlaceMethod → Bool → FrameStatus
first_field s method top = case_skip (s.deinterlace method top 0) (s.deinterlace blend top 0)

unfoldable pub second_field :
    Services → DeinterlaceMethod → Bool → Decoder × Hresult → Decoder × Hresult
second_field s method top r =
    if s.is_double_frame method && is_frame_ok (s.deinterlace method (not top) 1)
    then capture_frame s r.0
    else r

unfoldable pub capture_first : Services → DeinterlaceMethod → Bool → Decoder → Decoder × Hresult
capture_first s method top d =
    if is_frame_ok (first_field s method top) then capture_frame s d else (d, s_ok)

-- OutFrame, where GetFrame of the decoder finds the frame. A deinterlacer answers by its method and
-- the field; the attributes that Yadif gives to the frame are left out.
unfoldable pub out_frame : Services → Decoder → Decoder × Hresult
out_frame s d =
    let method = d.buffer.attributes.deinterlace in
    let top = has_flag d.buffer.attributes.flags flag_top_field_first in
    let r = capture_first s method top d in if failed r.1 then r else second_field s method top r

-- Close() and the return of a failure; `none` goes on with the loop.
unfoldable pub close_failed : Decoder × Hresult → Decoder × Option Hresult
close_failed r = if failed r.1 then (close_decoder r.0, some r.1) else (r.0, none)

-- The attributes of the picture, and the end of the wait at an I frame.
unfoldable pub take_picture : Picture → Decoder → Decoder
take_picture p d =
    let flags = get_frame_flags p.flags p.sequence_flags in
    record d {
      buffer = record d.buffer {
        attributes = record (set_aspect p.aspect d.buffer.attributes) { flags = flags };
      };
      wait_for_key_frame = if has_flag flags flag_i_frame then false else d.wait_for_key_frame;
    }

-- The frame goes out unless it was skipped or a key frame is waited for.
unfoldable pub show_taken : Services → Picture → Decoder → Decoder × Option Hresult
show_taken s p d =
    if not (has_flag p.flags 64) && not d.wait_for_key_frame
    then close_failed (out_frame s d)
    else (d, none)

-- `same` tells whether the frame has the size already, `b` and `ok` are what Allocate leaves if not.
unfoldable pub show_sized :
    Services → Picture → Bool → FrameBuffer → Bool → Decoder → Decoder × Option Hresult
show_sized s p same b ok d =
    if not same && not ok
    then (close_decoder (record d { buffer = b }), some e_outofmemory)
    else show_taken s p (take_picture p (record d { buffer = if same then d.buffer else b }))

-- The case of STATE_SLICE and STATE_END with a picture to display.
unfoldable pub show_picture : Services → Picture → Decoder → Decoder × Option Hresult
show_picture s p d =
    let height = if d.crop_1088_to_1080 && (p.height == 1088) then 1080 else p.height in
    let (b, ok, _) = allocate s.malloc (pos p.width) (pos height) i420 d.buffer in
    show_sized s p ((d.buffer.width == p.width) && (d.buffer.height == height)) b ok d
