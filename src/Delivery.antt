-- ===== src/Delivery.antt =====
-- Deliver and SetTypeSpecificFlags of src/TVTestVideoDecoder.cpp: what is done to a frame on its way to
-- the output pin. Times are exact integers. The media sample, the pin downstream and the values of
-- AM_VIDEO_FLAG_* are parameters.
pub mod Buffers
pub mod Fields
pub mod Target
pub mod Halves
pub mod Split
pub mod Order
pub mod Run
pub mod Faults
pub mod Rate
pub mod Samples
use Prim.Native.Nat.{bit_and, bit_or}
use mathlib.Core.Bool.{not}
use tvtest_video_decoder.Base.{
  ℕ, ◌+◌, ◌-◌, ◌^◌, Bool, true, false, ◌&&◌, ◌||◌, List, [], ◌∷◌, Option, none, some, length,
  if◌then◌else◌,
}
use tvtest_video_decoder.Base.Int.{ℤ, pos, ltb_ℤ, ◌+ℤ◌, ◌-ℤ◌, ◌*ℤ◌, tdiv, same_ℤ}
use tvtest_video_decoder.Types.{
  Hresult, s_false, e_outofmemory, has_flag, flag_top_field_first, flag_repeat_first_field,
  flag_progressive_frame, flag_progressive_sequence, flag_i_frame, flag_p_frame, flag_b_frame,
  flag_sample_data, i420, nv12, same_subtype,
}
use tvtest_video_decoder.FrameBuffer.{FrameBuffer}
use tvtest_video_decoder.Color.{Adjustment, I420, Nv12, is_effective, process_i420, process_nv12}

-- A frame buffer with the pixels that m_Buffer points at. For NV12 `u` is the chroma plane.
pub record Frame : Type 0 where
  pub buffer : FrameBuffer
  pub planes : I420

-- m_RateChange
pub record RateChange : Type 0 where
  pub rate : ℤ
  pub start_time : ℤ

-- What IMediaSample::GetPointer returns.
pub data Pointer : Type 0 where
  address : ℕ → Pointer
  no_pointer : Hresult → Pointer

-- A sample of the output pin: its data, the type specific flags that it has, `none` where they
-- cannot be read, and its Direct3D surface or the error of asking for it.
pub record OutSample : Type 0 where
  pub pointer : Pointer
  pub type_flags : Option ℕ
  pub surface : Pointer

-- Where the picture of a delivered sample comes from: the surface, the deinterlacer that wrote into
-- the sample, or CopySampleBuffer, with its last argument.
pub data Content : Type 0 where
  in_surface : Content
  in_place : Frame → Content
  copied : Frame → Bool → Content

pub record Sample : Type 0 where
  pub start : ℤ
  pub stop : ℤ
  pub type_flags : Option ℕ
  pub media_type : Bool  -- the media type is attached
  pub content : Content

pub record VideoFlags : Type 0 where
  pub weave : ℕ
  pub field1first : ℕ
  pub repeat_field : ℕ
  pub i_sample : ℕ
  pub p_sample : ℕ
  pub b_sample : ℕ

-- The C library, the SDK, the heap and the pin downstream, which is told the number of deliveries
-- before. `bitmap_size` is that of a media type that is a VIDEOINFOHEADER.
pub record Services : Type 0 where
  pub sin_cos : ℤ → ℤ × ℤ
  pub video_flags : VideoFlags
  pub create_media_type : Bool
  pub bitmap_size : Option (ℕ × ℕ)
  pub deliver : ℕ → Sample → Hresult

-- What Deliver reads: members of the filter, and the rate of its input pin.
pub record Context : Type 0 where
  pub dxva_output : Bool
  pub wait_for_key_frame : Bool
  pub output_interlaced : Bool
  pub pin_rate : Option ℤ

-- What it changes. Lists have the last first.
pub record Delivery : Type 0 where
  pub rate_change : RateChange
  pub attach_media_type : Bool
  pub adjustment : Adjustment
  pub captured : List Frame
  pub delivered : List Sample
  pub size_changes : List (ℕ × ℕ)

abbrev pub or_if : Bool → ℕ → ℕ → ℕ
or_if true flag flags = bit_or flags flag
or_if false flag flags = flags

-- `&= ~0x7f` on a DWORD.
unfoldable pub clear_flags : ℕ → ℕ
clear_flags flags = bit_and flags (2 ^ 32 - 128)

unfoldable pub set_type_flags : VideoFlags → Bool → ℕ → ℕ → ℕ
set_type_flags v false frame flags = clear_flags flags
set_type_flags v true frame flags = or_if (has_flag frame flag_b_frame) v.b_sample (
    or_if (has_flag frame flag_p_frame) v.p_sample (
      or_if (has_flag frame flag_i_frame) v.i_sample (
        or_if (has_flag frame flag_repeat_first_field) v.repeat_field (
          or_if (has_flag frame flag_top_field_first) v.field1first (
            or_if (has_flag frame (flag_progressive_frame + flag_progressive_sequence)) v.weave
              (clear_flags flags))))))

abbrev pub map_flags : (ℕ → ℕ) → Option ℕ → Option ℕ
map_flags f none = none
map_flags f (some flags) = some (f flags)

-- The colour adjustment, for the two formats that it knows.
unfoldable pub adjust : (ℤ → ℤ × ℤ) → Frame → Adjustment → Adjustment × Frame
adjust sin_cos f a =
    let b = f.buffer in
    let r = process_i420 sin_cos b.width b.height f.planes a in
    let q = process_nv12 sin_cos b.width b.height (record { y = f.planes.y; uv = f.planes.u }) a in
    if is_effective a
    then (if same_subtype b.subtype i420
        then (r.0, record f { planes = r.1 })
        else if same_subtype b.subtype nv12
        then (q.0, record f { planes = record f.planes { y = q.1.y; u = q.1.uv } })
        else (a, f))
    else (a, f)

pub data Prepared : Type 0 where
  ready : Content → Prepared
  stopped : Hresult → Prepared

-- The picture of the sample.
unfoldable pub fill_sample : Pointer → Frame → Prepared
fill_sample pointer f =
    if has_flag f.buffer.attributes.flags flag_sample_data
    then ready (in_place f)
    else fill_at pointer
  where
    fill_at : Pointer → Prepared
    fill_at (address a) =
        ready (copied f (not (has_flag f.buffer.attributes.flags flag_progressive_frame)))
    fill_at (no_pointer hr) = stopped hr

-- The part that is done without DXVA output: capture, colour adjustment, and the copy to the sample.
unfoldable pub prepare :
    Services → Context → OutSample → Frame → Delivery → Delivery × Frame × Prepared
prepare s c o f d =
    let r = adjust s.sin_cos f d.adjustment in
    if c.dxva_output
    then (d, f, ready in_surface)
    else (record d { adjustment = r.0; captured = f ∷ d.captured }, r.1, fill_sample o.pointer r.1)

-- The rate of the pin is taken over with the time of the frame; a pin of another class has none.
unfoldable pub take_rate : Option ℤ → ℤ → RateChange → RateChange
take_rate none start rc = rc
take_rate (some rate) start rc =
    if same_ℤ rc.rate rate then rc else record { rate = rate; start_time = start }

unfoldable pub scale : RateChange → ℤ → ℤ
scale rc t =
    if same_ℤ rc.rate (pos 10000)
    then t
    else rc.start_time +ℤ tdiv ((t -ℤ rc.start_time) *ℤ rc.rate) 10000

unfoldable pub make_sample : Services → Context → OutSample → Content → Frame → Delivery → Sample
make_sample s c o content f d =
    let a = f.buffer.attributes in
    let rc = take_rate c.pin_rate a.rt_start d.rate_change in
    record {
      start = scale rc a.rt_start;
      stop = scale rc a.rt_stop;
      type_flags =
          map_flags (set_type_flags s.video_flags c.output_interlaced a.flags) o.type_flags;
      media_type = d.attach_media_type;
      content = content;
    }

abbrev pub cons_some : Option (ℕ × ℕ) → List (ℕ × ℕ) → List (ℕ × ℕ)
cons_some none xs = xs
cons_some (some x) xs = x ∷ xs

unfoldable pub send :
    Services → Context → OutSample → Delivery × Frame × Prepared → Delivery × Frame × Hresult
send s c o (d, f, stopped hr) = (d, f, hr)
send s c o (d, f, ready content) =
    let rated = record d {
      rate_change = take_rate c.pin_rate f.buffer.attributes.rt_start d.rate_change;
    } in
    let sample = make_sample s c o content f d in
    if d.attach_media_type && not s.create_media_type then (rated, f, e_outofmemory) else (
      record rated {
        attach_media_type = false;
        delivered = sample ∷ d.delivered;
        size_changes =
            if d.attach_media_type && c.dxva_output
            then cons_some s.bitmap_size d.size_changes
            else d.size_changes;
      },
      f,
      s.deliver (length d.delivered) sample,
    )

-- Deliver: the members, the frame, which the colour adjustment may have changed, and the result.
unfoldable pub deliver :
    Services → Context → OutSample → Frame → Delivery → Delivery × Frame × Hresult
deliver s c o f d =
    if ltb_ℤ f.buffer.attributes.rt_start (pos 0) || c.wait_for_key_frame
    then (d, f, s_false)
    else send s c o (prepare s c o f d)
