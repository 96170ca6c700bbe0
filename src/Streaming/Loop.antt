-- ===== src/Streaming/Loop.antt =====
-- The loop of Transform in src/TVTestVideoDecoder.cpp, with the branches of its three decoders.
use mathlib.Core.Bool.{not}
use tvtest_video_decoder.Base.{
  ℕ, Bool, true, false, ◌&&◌, ◌||◌, Option, none, some, ◌==◌, leb, if◌then◌else◌,
}
use tvtest_video_decoder.Base.Int.{ℤ, pos}
use tvtest_video_decoder.Types.{
  Hresult, s_false, e_unexpected, failed, has_flag, flag_i_frame, i420, nv12,
}
use tvtest_video_decoder.FrameBuffer.{FrameBuffer, allocate}
use tvtest_video_decoder.FrameDecoder.{Picture, get_frame_flags, set_aspect}
use tvtest_video_decoder.Telecine.{set_frame_status}
use tvtest_video_decoder.Streaming.{
  Kind, dxva2, d3d11, is_d3d11, Filter, Options, Device, take_times,
}

-- A picture to display: the index in the decoder, and whether there is a display_picture_2nd.
pub record Displayed : Type 0 where
  pub picture : Picture
  pub index : ℕ
  pub nb_fields : ℕ
  pub second : Bool

-- What Parse returns in a turn of the loop. At the end of a slice or of the stream: whether there is a
-- frame to display, whether the chroma planes have half the size, and the picture.
pub data Event : Type 0 where
  parse_buffer parse_other parse_invalid : Event
  parse_sequence : ℕ → Event  -- frame_period
  parse_picture : ℕ → ℕ → Event  -- the index and the flags
  parse_slice : Bool → Bool → Option Displayed → Event

-- What DecodeFrame of the DXVA2 decoder returns.
pub data DxvaFrame : Type 0 where
  dxva_sample : ℕ → DxvaFrame
  dxva_new_device dxva_nothing : DxvaFrame

-- What DecodeFrame of the Direct3D 11 decoder leaves: S_OK with a locked buffer, or another result.
pub data D3d11Frame : Type 0 where
  d3d11_buffer : FrameBuffer → D3d11Frame
  d3d11_nothing : D3d11Frame

-- libmpeg2, the heap, the devices by the number of calls of mpeg2_init before, and what the loop
-- calls on the state `M`. `frame_of` is GetFrame of the decoder, without the attributes.
pub record Services (M : Type 0) : Type 0 where
  pub mpeg2_init : ℕ → Bool
  pub device : ℕ → Device
  pub malloc : ℕ → Option ℕ
  pub frame_of : Displayed → FrameBuffer
  pub deliver_frame : FrameBuffer → M → M × Hresult
  pub deliver_sample : ℕ → FrameBuffer → M → M × Hresult
  pub reconnect : FrameBuffer → ℤ → M → M × Hresult
  pub dxva_lost : M → Bool
  pub dxva_decode : M → M × DxvaFrame
  pub dxva_close : M → M
  pub d3d11_decode : FrameBuffer → M → M × D3d11Frame
  pub d3d11_lost : M → Bool
  pub unlock : FrameBuffer → M → M

-- m_FrameBuffer of the size of the picture.
unfoldable pub size_frame : (ℕ → Option ℕ) → Options → Bool → Picture → FrameBuffer → FrameBuffer
size_frame malloc o nv12_frame p b =
    let height = if o.crop_1088_to_1080 && (p.height == 1088) then 1080 else p.height in
    if (b.width == p.width) && (b.height == height)
    then b
    else (allocate malloc (pos p.width) (pos height) (if nv12_frame then nv12 else i420) b).0

-- The part for a picture to display.
unfoldable pub take_display : (ℕ → Option ℕ) → Options → Displayed → Filter → Filter
take_display malloc o d x =
    let b = size_frame malloc o (is_d3d11 x.decoder) d.picture x.frame in
    let a =
      take_times (x.picture_start d.index) x.avg_time d.nb_fields d.second
        (set_aspect d.picture.aspect b.attributes) in
    let t =
      set_frame_status o.settings (some (get_frame_flags d.picture.flags d.picture.sequence_flags))
        (record {
          detection = x.detection;
          flags = a.flags;
          deinterlace = a.deinterlace;
          initialized = x.initialized;
        }) in
    record x {
      frame = record b { attributes = record a { flags = t.flags; deinterlace = t.deinterlace } };
      detection = t.detection;
      initialized = t.initialized;
      wait_for_key_frame = if has_flag t.flags flag_i_frame then false else x.wait_for_key_frame;
    }

abbrev pub Step : Type 0 → Type 0
Step M = Filter × M × Option Hresult

abbrev pub crop_to : FrameBuffer → FrameBuffer → FrameBuffer
crop_to frame b =
    if leb frame.width b.width && leb frame.height b.height
    then record b { width = frame.width; height = frame.height }
    else b

abbrev pub is_null : Option ℕ → Bool
is_null none = true
is_null (some a) = false

module _ {M : Type 0} where
  -- `if (FAILED(hr)) return hr;` at the end of a branch.
  unfoldable pub pass_failure : Filter → M × Hresult → Step M
  pass_failure x (m, hr) = (x, m, if failed hr then some hr else none)

  unfoldable pub after_dxva : Services M → Filter → M × DxvaFrame → Step M
  after_dxva s x (m, dxva_sample n) = pass_failure x (s.deliver_sample n x.frame m)
  after_dxva s x (m, dxva_new_device) = (x, s.dxva_close m, none)
  after_dxva s x (m, dxva_nothing) = (x, m, none)

  -- DecodeFrame, after the reconnection that there is for a picture.
  unfoldable pub dxva_after_reconnect : Services M → Filter → M × Hresult → Step M
  dxva_after_reconnect s x (m, hr) =
      let r = after_dxva s x (s.dxva_decode m) in if failed hr then (x, m, some hr) else r

  unfoldable pub dxva_shown : Services M → Option Displayed → Filter → M → Step M
  dxva_shown s none x m = after_dxva s x (s.dxva_decode m)
  dxva_shown s (some d) x m = dxva_after_reconnect s x (s.reconnect x.frame x.avg_time m)

  unfoldable pub show_dxva : Services M → Options → Option Displayed → Filter → M → Step M
  show_dxva s o shown x m =
      if s.dxva_lost m
      then (x, m, none)
      else if not o.dxva_output
      then (x, m, some e_unexpected)
      else dxva_shown s shown x m

  unfoldable pub after_d3d11 : Services M → Filter → M × D3d11Frame → Step M
  after_d3d11 s x (m, d3d11_nothing) =
      (record x { reinit_decoder = if s.d3d11_lost m then true else x.reinit_decoder }, m, none)
  after_d3d11 s x (m, d3d11_buffer b) =
      let c = crop_to x.frame b in
      let r = s.deliver_frame c m in
      if is_null b.plane0
      then (
        record x { reinit_decoder = if s.d3d11_lost m then true else x.reinit_decoder },
        m,
        none,
      )
      else pass_failure x (s.unlock c r.0, r.1)

  -- The software decoder; `fbuf` tells whether display_fbuf is not null.
  unfoldable pub show_software : Services M → Bool → Option Displayed → Filter → M → Step M
  show_software s fbuf none x m = (x, m, none)
  show_software s fbuf (some d) x m =
      if has_flag d.picture.flags 64
      then (x, m, none)
      else if not fbuf
      then (x, m, some s_false)
      else pass_failure x
          (s.deliver_frame (record (s.frame_of d) { attributes = x.frame.attributes }) m)

  unfoldable pub show_decoded :
      Services M → Options → Bool → Option Displayed → Option Kind → Filter → M → Step M
  show_decoded s o fbuf shown (some dxva2) x m = show_dxva s o shown x m
  show_decoded s o fbuf shown (some d3d11) x m = after_d3d11 s x (s.d3d11_decode x.frame m)
  show_decoded s o fbuf shown _ x m = show_software s fbuf shown x m

  unfoldable pub take_shown : Services M → Options → Option Displayed → Filter → Filter
  take_shown s o none x = x
  take_shown s o (some d) x = take_display s.malloc o d x

  -- The case of STATE_SLICE and STATE_END.
  unfoldable pub slice_step :
      Services M → Options → Bool → Bool → Option Displayed → Filter → M → Step M
  slice_step s o fbuf chroma shown x m =
      let y = take_shown s o shown x in
      if (fbuf || o.dxva_output) && chroma
      then show_decoded s o fbuf shown x.decoder y m
      else (x, m, none)
