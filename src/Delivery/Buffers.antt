-- ===== src/Delivery/Buffers.antt =====
-- SetupOutputFrameBuffer of src/TVTestVideoDecoder.cpp, and the buffers and the times that DeliverFrame
-- there prepares for the deinterlacer.
use Prim.Native.Nat.{bit_or}
use mathlib.Core.Bool.{not}
use tvtest_video_decoder.Base.{
  ℕ, suc, ◌+◌, ◌-◌, ◌*◌, ◌/◌, ◌%◌, ◌^◌, Bool, true, false, ◌&&◌, ◌||◌, Option, none, some, ◌==◌,
  if◌then◌else◌,
}
use tvtest_video_decoder.Base.Int.{ℤ, pos, negsuc, ltb_ℤ, ◌+ℤ◌, tdiv}
use tvtest_video_decoder.Types.{
  Hresult, s_ok, DeinterlaceMethod, weave, same_method, flag_sample_data, Subtype, nv12,
  same_subtype,
}
use tvtest_video_decoder.FrameBuffer.{FrameBuffer, Attributes, allocate}
use tvtest_video_decoder.Color.{I420}
use tvtest_video_decoder.FrameDecoder.{FrameStatus}
use tvtest_video_decoder.Delivery.{Frame, Pointer, address, no_pointer, OutSample}

-- The deinterlacers of the filter: the one that uses DXVA, and one for each method.
pub data Kind : Type 0 where
  dxva : Kind
  plain : DeinterlaceMethod → Kind

-- The virtual functions of CDeinterlacer, over what the deinterlacers keep. get_frame and
-- post_process take the destination and the source.
pub record Deinterlacers (S : Type 0) : Type 0 where
  pub is_double_frame : Kind → Bool
  pub is_retain_frame : Kind → Bool
  pub is_format_supported : Kind → Subtype → Subtype → Bool
  pub get_frame : Kind → S → Frame → Frame → Bool → ℕ → S × FrameStatus × Frame
  pub frame_post_process : Kind → S → Frame → Frame → Bool → S × Frame

pub data Obtained : Type 0 where
  obtained : OutSample → Obtained
  not_obtained : Hresult → Obtained

pub data SurfaceFormat : Type 0 where
  nv12_surface imc3_surface other_surface : SurfaceFormat

-- What GetDesc of a surface returns.
pub data Desc : Type 0 where
  desc : SurfaceFormat → ℕ → ℕ → Desc
  no_desc : Hresult → Desc

-- The output pin, its surfaces, the heap, and the pixels that CopyPixelsFrom makes. GetDeliveryBuffer
-- is called with the frame and a time per frame, and again for the second field; the first call also
-- tells whether ReconnectOutput has set m_fAttachMediaType.
pub record Output : Type 0 where
  pub get_delivery_buffer : FrameBuffer → ℤ → Bool × Obtained
  pub next_delivery_buffer : Obtained
  pub subtype : Subtype
  pub bitmap : Option (ℕ × ℤ)  -- biWidth and biHeight of the media type
  pub get_desc : ℕ → Desc
  pub lock_rect : ℕ → Hresult
  pub malloc : ℕ → Option ℕ
  pub copy_pixels : Frame → Frame → I420

-- The in-place output: planes in the data of the sample at `a`, a bitmap `w` wide and `h` high.
unfoldable pub place_in_sample : Subtype → ℕ → ℕ → ℕ → Frame → Frame
place_in_sample subtype a w h f =
    let size = w * h in
    let is_nv12 = same_subtype subtype nv12 in
    record f {
      buffer = record f.buffer {
        plane0 = some a;
        plane1 = some (a + size);
        plane2 = some (if is_nv12 then a + size else a + size + size / 4);
        pitch_y = w;
        pitch_c = if is_nv12 then w else w / 2;
        subtype = subtype;
        attributes = record f.buffer.attributes {
          flags = bit_or f.buffer.attributes.flags flag_sample_data;
        };
      };
    }

-- A top-down bitmap, its width and the data aligned to 16.
unfoldable pub setup_in_place : Subtype → Option (ℕ × ℤ) → Pointer → Frame → Frame
setup_in_place subtype (some (w, negsuc h)) (address a) f =
    if w % 16 == 0 && (a % 16 == 0) then place_in_sample subtype a w (suc h) f else f
setup_in_place subtype _ _ f = f

unfoldable pub setup_surface : Pointer → Frame → Frame × Hresult
setup_surface (address a) f =
    (record f { buffer = record f.buffer { d3d9_surface = some a } }, s_ok)
setup_surface (no_pointer hr) f = (f, hr)

unfoldable pub choose_deinterlacer : Bool → DeinterlaceMethod → Kind
choose_deinterlacer dxva_deinterlace method =
    if dxva_deinterlace && not (same_method method weave) then dxva else plain method

abbrev pub set_attributes : Attributes → Frame → Frame
set_attributes a f = record f { buffer = record f.buffer { attributes = a } }

abbrev pub is_missing : Option ℕ → Bool
is_missing none = true
is_missing (some a) = false

-- The test of a temporary buffer, and its allocation; the new block holds what it held.
unfoldable pub fit_temp : (ℕ → Option ℕ) → Subtype → FrameBuffer → Frame → Frame × Bool
fit_temp malloc subtype b t =
    let r = allocate malloc (pos b.width) (pos b.height) subtype t.buffer in
    if is_missing t.buffer.block
      || not (same_subtype t.buffer.subtype subtype)
      || not (t.buffer.width == b.width)
      || not (t.buffer.height == b.height)
    then (record t { buffer = r.0 }, r.1)
    else (t, true)

-- The times of the first field: the end that is kept for the second one, and the attributes.
unfoldable pub split_time : Bool → Attributes → ℤ × Attributes
split_time double a =
    if double && not (ltb_ℤ a.rt_start (pos 0)) && not (ltb_ℤ a.rt_stop (pos 0))
    then (a.rt_stop, record a { rt_stop = tdiv (a.rt_start +ℤ a.rt_stop) 2 })
    else (negsuc (2 ^ 63 - 1), a)

-- Those of the second field.
unfoldable pub second_time : ℤ → Attributes → Attributes
second_time stop a =
    if ltb_ℤ stop (pos 0) then a else record a { rt_start = a.rt_stop; rt_stop = stop }

module _ {S : Type 0} where
  unfoldable pub setup_output_frame_buffer :
      Deinterlacers S → Bool → Output → Kind → OutSample → Frame → Frame × Hresult
  setup_output_frame_buffer i true out k o f = setup_surface o.surface f
  setup_output_frame_buffer i false out k o f =
      if not (i.is_retain_frame k)
        && not (i.is_double_frame k)
        && i.is_format_supported k f.buffer.subtype out.subtype
      then (setup_in_place out.subtype out.bitmap o.pointer f, s_ok)
      else (f, s_ok)
