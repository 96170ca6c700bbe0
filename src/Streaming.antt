-- ===== src/Streaming.antt =====
-- Transform and InitDecode of src/TVTestVideoDecoder.cpp: the stream goes through libmpeg2, and the
-- pictures get their times and go on. What follows them, DeliverFrame and the two hardware decoders,
-- works on a state `M` through an interface.
pub mod Loop
pub mod Transform
pub mod Times
pub mod Kept
pub mod Run
use Prim.Native.Nat.{bit_and}
use mathlib.Core.Bool.{not}
use tvtest_video_decoder.Base.{
  ℕ, ◌+◌, ◌-◌, ◌*◌, ◌/◌, ◌^◌, ◌%◌, Bool, true, false, ◌&&◌, ◌||◌, List, ◌∷◌, Option, none, some,
  ◌==◌, if◌then◌else◌,
}
use tvtest_video_decoder.Base.Int.{ℤ, pos, negsuc, ltb_ℤ, ◌+ℤ◌, ◌*ℤ◌, tdiv}
use tvtest_video_decoder.Types.{
  Hresult, s_ok, failed, DeinterlaceMethod, weave, blend, bob, ela, yadif, yadif_bob, has_flag,
  flag_i_frame, Subtype, i420, nv12,
}
use tvtest_video_decoder.FrameBuffer.{FrameBuffer, Attributes, allocate}
use tvtest_video_decoder.FrameDecoder.{Picture, Mpeg2, closed, opened, get_frame_flags, set_aspect}
use tvtest_video_decoder.Telecine.{Detection, Settings, Status, reset_detection, set_frame_status}

abbrev pub invalid_time : ℤ
invalid_time = negsuc (2 ^ 63 - 1)

-- m_Statistics; the counters are DWORDs.
pub record Statistics : Type 0 where
  pub i_frame_count : ℕ
  pub p_frame_count : ℕ
  pub b_frame_count : ℕ
  pub skipped_frame_count : ℕ
  pub repeat_field_count : ℕ

-- `++` on a DWORD.
abbrev pub next_count : ℕ → ℕ
next_count n = (n + 1) % 2 ^ 32

-- The class of m_pDecoder.
pub data Kind : Type 0 where
  software dxva2 d3d11 : Kind

abbrev pub is_d3d11 : Option Kind → Bool
is_d3d11 (some d3d11) = true
is_d3d11 _ = false

-- The members of the filter that Transform and InitDecode change.
pub record Filter : Type 0 where
  pub decoder : Option Kind
  pub mpeg2 : Mpeg2  -- m_pDec of the decoder
  pub init_calls : ℕ
  pub picture_start : ℕ → ℤ  -- m_PictureStatus by the index of the picture
  pub reinit_decoder : Bool
  pub force_software_decoder : Bool
  pub dxva_connect : Bool
  pub wait_for_key_frame : Bool
  pub detection : Detection
  pub frame : FrameBuffer  -- m_FrameBuffer
  pub initialized : List DeinterlaceMethod  -- the deinterlacers initialised, the last first
  pub avg_time : ℤ
  pub statistics : Statistics
  pub skips : List Bool  -- the calls of mpeg2_skip, the last first

-- The members that they read.
pub record Options : Type 0 where
  pub dxva_output : Bool
  pub d3d11_decode : Bool
  pub drop_frames : Bool
  pub crop_1088_to_1080 : Bool
  pub settings : Settings
  pub input_time : Option ℤ  -- GetAvgTimePerFrame of the media type of the input pin

-- The Direct3D 11 device in InitDecode: what exists before, and what the creations return.
pub record Device : Type 0 where
  pub device_created : Bool
  pub decoder_created : Bool
  pub create_device : Hresult
  pub create_decoder : Hresult

-- The test in InitDecode of a Direct3D 11 decoder.
unfoldable pub device_result : Bool → Device → Hresult
device_result reinit v =
    let missing = reinit || not v.device_created in
    if missing && failed v.create_device
    then v.create_device
    else if missing || not v.decoder_created
    then v.create_decoder
    else s_ok

-- The decoder that InitDecode keeps, after Close.
unfoldable pub keep_decoder : Options → Device → Option Kind → Filter → Filter
keep_decoder o v (some dxva2) x =
    if o.dxva_output then x else record x { decoder = none; dxva_connect = false }
keep_decoder o v (some d3d11) x =
    if failed (device_result x.reinit_decoder v)
    then record x { decoder = none; force_software_decoder = true }
    else x
keep_decoder o v _ x = x

abbrev pub or_new : Option Kind → Kind → Option Kind
or_new none k = some k
or_new (some k) _ = some k

-- What InitDecode sets at its end, the decoder being open; `methods` are the deinterlacers in order.
unfoldable pub reset_stream : Filter → Filter
reset_stream x = record x {
  wait_for_key_frame = true;
  detection = reset_detection;
  frame = record x.frame {
    attributes = record x.frame.attributes {
      rt_start = invalid_time;
      rt_stop = invalid_time;
      flags = 0;
      deinterlace = weave;
    };
  };
  initialized = yadif_bob ∷ yadif ∷ ela ∷ bob ∷ blend ∷ weave ∷ x.initialized;
}

-- InitDecode, where `new` finds memory. `mpeg2_init` tells whether a call of it succeeds.
unfoldable pub init_decode : (ℕ → Bool) → Options → Device → Filter → Filter
init_decode mpeg2_init o v x =
    let kept = keep_decoder o v x.decoder x in
    let ok = mpeg2_init x.init_calls in
    let k = if o.d3d11_decode && not kept.force_software_decoder then d3d11 else software in
    reset_stream (record kept {
      decoder = or_new kept.decoder k;
      reinit_decoder = false;
      mpeg2 = if ok then opened x.init_calls else closed;
      picture_start = if ok then (λ i. invalid_time) else x.picture_start;
      init_calls = x.init_calls + 1;
    })

-- STATE_SEQUENCE
unfoldable pub sequence_time : Option ℤ → ℕ → ℤ
sequence_time none period = if period == 0 then pos 0 else pos ((10 * period + 13) / 27)
sequence_time (some t) period = if period == 0 then t else pos ((10 * period + 13) / 27)

-- The counters at STATE_PICTURE, from the flags of the picture.
unfoldable pub count_picture : Bool → ℕ → Statistics → Statistics
count_picture drop_frames flags c =
    let coding = bit_and flags 7 in
    let t =
      if coding == 1
      then record c { i_frame_count = next_count c.i_frame_count }
      else if coding == 2
      then record c { p_frame_count = next_count c.p_frame_count }
      else if coding == 3
      then record c {
        b_frame_count = next_count c.b_frame_count;
        skipped_frame_count =
            if drop_frames then next_count c.skipped_frame_count else c.skipped_frame_count;
      }
      else c in
    if has_flag flags 256
    then record t { repeat_field_count = next_count t.repeat_field_count }
    else t

-- STATE_PICTURE: the picture at `index` takes the time of the sample, which is used up.
unfoldable pub take_picture : Options → Bool → ℤ → ℕ → ℕ → Filter → Filter
take_picture o preroll start index flags x = record x {
  picture_start = λ i. if i == index then start else x.picture_start i;
  statistics = count_picture o.drop_frames flags x.statistics;
  skips = (preroll || o.drop_frames && (bit_and flags 7 == 3)) ∷ x.skips;
}

-- The times of m_FrameBuffer, for a picture that starts at `start`; `second` is display_picture_2nd.
unfoldable pub take_times : ℤ → ℤ → ℕ → Bool → Attributes → Attributes
take_times start avg_time nb_fields second a =
    let from = if ltb_ℤ start (pos 0) then a.rt_stop else start in
    let whole = avg_time *ℤ pos nb_fields in
    let duration = if second then whole else tdiv whole 2 in
    if ltb_ℤ from (pos 0)
    then record a { rt_start = from }
    else record a { rt_start = from; rt_stop = from +ℤ duration }
