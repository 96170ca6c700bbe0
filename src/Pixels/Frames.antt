-- ===== src/Pixels/Frames.antt =====
-- CopyPixelsFrom of src/FrameBuffer.cpp, over the copies of src/PixelFormatConvert.cpp.
use mathlib.Core.Bool.{not}
use tvtest_video_decoder.Base.{ℕ, Bool, true, false, ◌&&◌, ◌||◌, Option, none, some, if◌then◌else◌}
use tvtest_video_decoder.Base.Int.{ℤ, same_ℤ}
use tvtest_video_decoder.Types.{Subtype, nv12, rgb24, same_subtype}
use tvtest_video_decoder.Yadif.{Bytes}
use tvtest_video_decoder.Pixels.{
  Planar, Interleaved, Packed, i420_to_i420, i420_to_nv12, nv12_to_i420, nv12_to_nv12, rgb_to_rgb,
}
use tvtest_video_decoder.Pixels.Converter.{is_i420, is_rgb}

-- A frame with its planes; m_Buffer[1] of an NV12 frame is `u`, m_Buffer[0] of an RGB frame is `y`.
pub record Frame : Type 0 where
  pub width : ℤ
  pub height : ℤ
  pub subtype : Subtype
  pub planes : Planar
  pub open planes use *

abbrev pub interleaved_planes : Planar → Interleaved
interleaved_planes p = record { y = p.y; uv = p.u; pitch = p.pitch_y }

abbrev pub packed_plane : Planar → Packed
packed_plane p = record { rgb = p.y; pitch = p.pitch_y }

abbrev pub set_interleaved : Planar → Interleaved → Planar
set_interleaved p i = record p { y = i.y; u = i.uv }

abbrev pub set_packed : Planar → Packed → Planar
set_packed p q = record p { y = q.rgb }

abbrev pub map_option : {A B : Type 0} → (A → B) → Option A → Option B
map_option f none = none
map_option f (some a) = some (f a)

unfoldable pub bits_per_pixel : Subtype → ℕ
bits_per_pixel s = if same_subtype s rgb24 then 24 else 32

-- The copy for the two formats; `none` for false.
unfoldable pub copy_planes : Frame → Frame → Option Planar
unfolding bits_per_pixel
copy_planes dst src =
    if is_i420 dst.subtype
    then (if is_i420 src.subtype
        then i420_to_i420 dst.width dst.height dst.planes src.planes
        else if same_subtype src.subtype nv12
        then nv12_to_i420 dst.width dst.height dst.planes (interleaved_planes src.planes)
        else none)
    else if same_subtype dst.subtype nv12
    then (if same_subtype src.subtype nv12
        then map_option (set_interleaved dst.planes) (
            nv12_to_nv12 dst.width dst.height (interleaved_planes dst.planes)
              (interleaved_planes src.planes))
        else if is_i420 src.subtype
        then map_option (set_interleaved dst.planes)
            (i420_to_nv12 dst.width dst.height (interleaved_planes dst.planes) src.planes)
        else none)
    else if is_rgb dst.subtype && is_rgb src.subtype
    then map_option (set_packed dst.planes) (
        rgb_to_rgb dst.width dst.height (packed_plane dst.planes) (bits_per_pixel dst.subtype)
          (packed_plane src.planes) (bits_per_pixel src.subtype))
    else none

abbrev is_missing : Option Bytes → Bool
is_missing none = true
is_missing (some b) = false

-- The frame after the call, and what it returns; `none` for the source is a null pointer.
unfoldable pub copy_pixels_from : Option Frame → Frame → Frame × Bool
unfolding copy_planes
copy_pixels_from none dst = (dst, false)
copy_pixels_from (some src) dst =
    if is_missing src.y
      || is_missing dst.y
      || not (same_ℤ dst.width src.width)
      || not (same_ℤ dst.height src.height)
    then (dst, false)
    else elim (copy_planes dst src) [
      | none ↦ (dst, false)
      | some p ↦ (record dst { planes = p }, true)
    ]
