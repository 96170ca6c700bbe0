-- ===== src/Pixels/Converter.antt =====
-- YUVToRGBConverter of src/PixelFormatConvert.cpp.
use mathlib.Core.Bool.{not}
use tvtest_video_decoder.Base.{
  ℕ, ◌+◌, ◌-◌, ◌*◌, ◌/◌, Bool, true, false, ◌&&◌, ◌||◌, Option, none, some, ◌==◌, ltb,
  if◌then◌else◌,
}
use tvtest_video_decoder.Types.{Subtype, i420, iyuv, rgb24, rgb32, same_subtype}
use tvtest_video_decoder.FrameBuffer.{FrameBuffer}
use tvtest_video_decoder.Pixels.Upsample.{Plane, upsample_p, upsample_i}
use tvtest_video_decoder.Pixels.Rgb.{Parameters, setup_parameters, convert_table, rgb_rows}

-- A frame and the bytes of its planes; those of an RGB frame are in `y`.
pub record Picture : Type 0 where
  pub buffer : FrameBuffer
  pub open buffer use *
  pub y : Plane
  pub u : Plane
  pub v : Plane

pub record Converter : Type 0 where
  pub parameters : Parameters
  pub table : ℕ → ℕ
  pub scratch : Option ℕ  -- m_pBuffer
  pub scratch_size : ℕ

-- The constructor; the parameters and the table are not initialised.
unfoldable pub new : Parameters → (ℕ → ℕ) → Converter
new parameters table = record {
  parameters = parameters;
  table = table;
  scratch = none;
  scratch_size = 0;
}

unfoldable pub initialize_mpeg2 : ℕ → Bool → Converter → Converter
initialize_mpeg2 matrix_coefficients straight c = record c {
  parameters = setup_parameters matrix_coefficients straight;
  table = convert_table;
}

-- What a conversion returns: false, or true with the bytes of the destination. In between stand
-- a read outside the table and a write behind the buffer between the steps.
pub data Conversion : Type 0 where
  refused : Conversion
  faulted : Conversion
  made : Plane → Conversion

abbrev pub is_null : Option ℕ → Bool
is_null none = true
is_null (some _) = false

unfoldable pub i422_to_rgb :
    ℕ
    → ℕ
    → Option ℕ
    → ℕ
    → Option ℕ
    → Parameters
    → (ℕ → ℕ)
    → Plane
    → Plane
    → Plane
    → Plane
    → Conversion
i422_to_rgb width height to planes from parameters table y u v dst =
    if width == 0 || height == 0 || ltb planes 3 || is_null to || is_null from
    then refused
    else elim (rgb_rows parameters table planes width height 0 y u v dst) [
      | none ↦ faulted
      | some d ↦ made d
    ]

-- UpsampleI420pToI422 or UpsampleI420iToI422 with their first test; what they return is not read.
unfoldable pub upsample : Bool → ℕ → ℕ → Option ℕ → Plane → Plane → Plane
upsample progressive width height from src dst =
    if width == 0 || height == 0 || is_null from
    then dst
    else if progressive
    then upsample_p width height src dst
    else upsample_i width height src dst

-- The size of the two planes of chroma between the steps.
unfoldable pub scratch_bytes : FrameBuffer → ℕ
scratch_bytes b = (b.width / 2 + 31) / 32 * 32 * b.height * 2

-- The buffer between the steps, enlarged where the frame needs more.
unfoldable pub reserve : (ℕ → Option ℕ) → ℕ → Converter → Converter × Bool
reserve malloc size c =
    if ltb c.scratch_size size
    then elim (malloc size) [
      | none ↦ (record c { scratch = none; scratch_size = 0 }, false)
      | some p ↦ (record c { scratch = some p; scratch_size = size }, true)
    ]
    else (c, true)

-- `m_Subtype == MEDIASUBTYPE_I420 || m_Subtype == MEDIASUBTYPE_IYUV`, and the same of RGB.
abbrev pub is_i420 : Subtype → Bool
is_i420 s = same_subtype s i420 || same_subtype s iyuv

abbrev pub is_rgb : Subtype → Bool
is_rgb s = same_subtype s rgb24 || same_subtype s rgb32

-- The rows that the two functions write, as many as their loops make.
unfoldable pub upsampled_rows : Bool → ℕ → ℕ
upsampled_rows progressive height =
    if progressive then 1 + 2 * ((height - 1) / 2) + 1 else 2 + 4 * ((height - 1) / 4) + 2

-- The second plane of chroma ends the buffer between the steps, which has `height` rows for it.
unfoldable pub convert_frame : Converter → Picture → Picture → Bool → Plane → Plane → Conversion
convert_frame c dst src progressive old_u old_v =
    if ltb src.height (upsampled_rows progressive src.height)
      && not (is_null src.plane1 && is_null src.plane2)
    then faulted
    else i422_to_rgb src.width src.height dst.plane0
        (if same_subtype dst.subtype rgb24 then 3 else 4) src.plane0 c.parameters c.table src.y
        (upsample progressive src.width src.height src.plane1 src.u old_u)
        (upsample progressive src.width src.height src.plane2 src.v old_v) dst.y

-- `old_u` and `old_v` are what the buffer between the steps holds before; `none` is a null pointer.
unfoldable pub convert :
    (ℕ → Option ℕ)
    → Option Picture
    → Option Picture
    → Bool
    → Plane
    → Plane
    → Converter
    → Converter × Conversion
convert malloc none src progressive old_u old_v c = (c, refused)
convert malloc (some dst) none progressive old_u old_v c = (c, refused)
convert malloc (some dst) (some src) progressive old_u old_v c =
    if not (dst.width == src.width) || not (dst.height == src.height) || not (is_rgb dst.subtype)
    then (c, refused)
    else if is_i420 src.subtype
    then (let (c', ok) = reserve malloc (scratch_bytes src.buffer) c in
        (c', if ok then convert_frame c' dst src progressive old_u old_v else refused))
    else (c, refused)
