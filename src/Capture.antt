-- ===== src/Capture.antt =====
-- CFrameCapture of src/FrameCapture.cpp: the object that frames are handed to, and what it is given.
pub mod References
pub mod Stale
pub mod Allocated
pub mod Pictures
use mathlib.Core.Bool.{not}
use tvtest_video_decoder.Base.{
  ℕ, ◌+◌, Bool, true, false, ◌&&◌, ◌||◌, List, [], ◌∷◌, ◌++◌, Option, none, some, ◌==◌,
  if◌then◌else◌,
}
use tvtest_video_decoder.Base.Int.{pos}
use tvtest_video_decoder.Types.{
  Hresult, s_ok, e_unexpected, e_pointer, e_outofmemory, e_fail, e_notimpl, Subtype, i420, rgb24,
  rgb32, same_subtype, weave, same_method, has_flag, flag_top_field_first, flag_repeat_first_field,
  flag_progressive_frame, flag_i_frame, flag_p_frame, flag_b_frame,
}
use tvtest_video_decoder.FrameBuffer.{FrameBuffer, allocate}
use tvtest_video_decoder.Pixels.Upsample.{Plane}
use tvtest_video_decoder.Pixels.Converter.{
  Picture, Converter, Conversion, refused, faulted, made, initialize_mpeg2, convert, is_i420,
  is_rgb,
}

-- m_RGBFrameBuffer is kept with its bytes; the object is its address.
pub record Capture : Type 0 where
  pub object : Option ℕ
  pub subtype : Subtype
  pub converter : Converter
  pub matrix_coefficients : ℕ
  pub rgb : Picture

-- The constructor: the converter and the format are not initialised.
unfoldable pub new : Subtype → Converter → Picture → Capture
new unset converter rgb = record {
  object = none;
  subtype = unset;
  converter = converter;
  matrix_coefficients = 0xFF;
  rgb = rgb;
}

-- What is called on the object that is kept.
pub data Reference : Type 0 where
  add_ref : ℕ → Reference
  release : ℕ → Reference

-- SafeRelease
unfoldable pub safe_release : Option ℕ → List Reference
safe_release none = []
safe_release (some p) = release p ∷ []

unfoldable pub is_capture_subtype_supported : Subtype → Subtype → Bool
is_capture_subtype_supported src dst = is_i420 src && (is_i420 dst || is_rgb dst)

unfoldable pub keep_object : Option ℕ → Subtype → Capture → Capture × List Reference
keep_object none subtype c = (c, [])
keep_object (some p) subtype c = (record c { object = some p; subtype = subtype }, add_ref p ∷ [])

unfoldable pub set_frame_capture : Option ℕ → Subtype → Capture → Capture × Hresult × List Reference
unfolding safe_release is_capture_subtype_supported keep_object
set_frame_capture object subtype c =
    let emptied = record c { object = none } in
    if not (is_capture_subtype_supported i420 subtype)
    then (emptied, e_notimpl, safe_release c.object)
    else (let (kept, added) = keep_object object subtype emptied in
        (kept, s_ok, safe_release c.object ++ added))

-- Also the destructor.
unfoldable pub unset_frame_capture : Capture → Capture × List Reference
unfolding safe_release
unset_frame_capture c = (record c { object = none }, safe_release c.object)

-- The members of mpeg2_sequence_t that are read.
pub record Sequence : Type 0 where
  pub flags : ℕ
  pub colour_primaries : ℕ
  pub matrix_coefficients : ℕ
  pub transfer_characteristics : ℕ

pub record ColorDescription : Type 0 where
  pub flags : ℕ
  pub color_primaries : ℕ
  pub matrix_coefficients : ℕ
  pub transfer_characteristics : ℕ

-- TVTVIDEODEC_FrameInfo; the pointers and pitches of the planes are those of the picture.
pub record FrameInfo : Type 0 where
  pub width : ℕ
  pub height : ℕ
  pub aspect_x : ℕ
  pub aspect_y : ℕ
  pub subtype : Subtype
  pub flags : ℕ
  pub color : ColorDescription
  pub picture : Picture

-- `if (pFrameBuffer->m_Flags & mask) FrameInfo.Flags |= flag`, for flags that are set once each.
abbrev flag_if : Bool → ℕ → ℕ
flag_if set flag = if set then flag else 0

unfoldable pub info_flags : FrameBuffer → ℕ
info_flags b =
    flag_if (has_flag b.flags flag_top_field_first) 0x01
    + flag_if (has_flag b.flags flag_repeat_first_field) 0x02
    + flag_if (has_flag b.flags flag_progressive_frame) 0x04
    + flag_if (same_method b.deinterlace weave) 0x08
    + flag_if (has_flag b.flags flag_i_frame) 0x10
    + flag_if (has_flag b.flags flag_p_frame) 0x20
    + flag_if (has_flag b.flags flag_b_frame) 0x40

-- GetMpeg2Info and its sequence; 16 is SEQ_FLAG_COLOUR_DESCRIPTION.
abbrev pub no_description : ColorDescription
no_description = record {
  flags = 0;
  color_primaries = 1;
  matrix_coefficients = 1;
  transfer_characteristics = 1;
}

unfoldable pub color_description : Option Sequence → ColorDescription
color_description none = no_description
color_description (some s) =
    if has_flag s.flags 16
    then record {
      flags = 1;
      color_primaries = s.colour_primaries;
      matrix_coefficients = s.matrix_coefficients;
      transfer_characteristics = s.transfer_characteristics;
    }
    else no_description

unfoldable pub frame_info : Subtype → Option Sequence → Picture → Picture → FrameInfo
unfolding info_flags color_description
frame_info subtype sequence frame out = record {
  width = frame.width;
  height = frame.height;
  aspect_x = frame.aspect_x;
  aspect_y = frame.aspect_y;
  subtype = subtype;
  flags = info_flags frame.buffer;
  color = color_description sequence;
  picture = out;
}

-- `(Flags & PROGRESSIVE) || !(Flags & WEAVE)`, of the flags of the info.
unfoldable pub is_progressive : FrameBuffer → Bool
is_progressive b = has_flag b.flags flag_progressive_frame || not (same_method b.deinterlace weave)

-- The heap, the bytes in its blocks, and OnFrame of the object. `bytes_of` is what the planes of a
-- frame hold once it is allocated.
pub record Services : Type 0 where
  pub malloc : ℕ → Option ℕ
  pub scratch_malloc : ℕ → Option ℕ
  pub bytes_of : FrameBuffer → Plane
  pub scratch_u : Plane
  pub scratch_v : Plane
  pub on_frame : FrameInfo → Hresult

-- The new converter and coefficients where the colour description has changed. The converter is
-- initialised with the coefficients that were kept.
unfoldable pub follow_color : ℕ → Capture → Capture
follow_color coefficients c = if c.matrix_coefficients == coefficients then c else record c {
  converter = initialize_mpeg2 c.matrix_coefficients false c.converter;
  matrix_coefficients = coefficients;
}

-- The result of a call, and what the object was given.
abbrev pub Called : Type 0
Called = Capture × Hresult × Option FrameInfo

unfoldable pub hand_over : Services → Option Sequence → Picture → Picture → Capture → Called
unfolding frame_info
hand_over s sequence frame out c =
    let info = frame_info c.subtype sequence frame out in (c, s.on_frame info, some info)

unfoldable pub finish_rgb :
    Services → Option Sequence → Picture → Picture → Conversion → Capture → Called
finish_rgb s sequence frame rgb refused c = (record c { rgb = rgb }, e_fail, none)
finish_rgb s sequence frame rgb faulted c = (record c { rgb = rgb }, e_fail, none)
finish_rgb s sequence frame rgb (made bytes) c =
    let out = record rgb { y = bytes } in hand_over s sequence frame out (record c { rgb = out })

unfoldable pub convert_rgb : Services → Option Sequence → Picture → Picture → Capture → Called
convert_rgb s sequence frame rgb c =
    let (converter, made_of) =
      convert s.scratch_malloc (some rgb) (some frame) (is_progressive frame.buffer) s.scratch_u
        s.scratch_v c.converter in
    finish_rgb s sequence frame rgb made_of (record c { converter = converter })

-- The branch for the RGB formats: the frame is allocated and converted.
unfoldable pub capture_rgb : Services → Option Sequence → Picture → Capture → Called
capture_rgb s sequence frame c =
    let f = follow_color (color_description sequence).matrix_coefficients c in
    let (b, ok, _) =
      allocate s.malloc (pos frame.width) (pos frame.height) c.subtype f.rgb.buffer in
    let rgb = record f.rgb { buffer = b; y = s.bytes_of b } in
    if not ok
    then (record f { rgb = rgb }, e_outofmemory, none)
    else convert_rgb s sequence frame rgb f

-- `none` for the frame is a null pointer, `decoder` tells whether that of the decoder is not null.
unfoldable pub frame_capture_callback :
    Services → Bool → Option Sequence → Option Picture → Capture → Called
frame_capture_callback s decoder sequence frame c = elim c.object [
  | none ↦ (c, e_unexpected, none)
  | some _ ↦ elim frame [
    | none ↦ (c, e_pointer, none)
    | some f ↦
        if not decoder
        then (c, e_pointer, none)
        else if not (is_i420 f.subtype)
        then (c, e_unexpected, none)
        else if is_i420 c.subtype
        then hand_over s sequence f f c
        else if is_rgb c.subtype
        then capture_rgb s sequence f c
        else (c, e_unexpected, none)
  ]
]
