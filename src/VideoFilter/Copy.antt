-- ===== src/VideoFilter/Copy.antt =====
-- CopySampleBuffer of CBaseVideoFilter in src/BaseVideoFilter.cpp: the planes of a frame one behind the
-- other in the buffer of a sample. biWidth is not negative.
use tvtest_video_decoder.Base.{
  ℕ, ◌+◌, ◌*◌, ◌/◌, Bool, ◌||◌, Option, none, some, ◌==◌, if◌then◌else◌,
}
use tvtest_video_decoder.Types.{
  Hresult, s_ok, e_unexpected, vfw_e_type_not_accepted, yv12, nv12, same_subtype,
}
use tvtest_video_decoder.Yadif.{Bytes}
use tvtest_video_decoder.Pixels.{copy_plane, interleave_rows, pick_rows, even_sizes, ◌>>=◌}
use tvtest_video_decoder.Pixels.Converter.{is_i420}
use tvtest_video_decoder.Pixels.Frames.{Frame}

abbrev pub fourcc_i420 : ℕ
fourcc_i420 = 0x30323449

abbrev pub fourcc_iyuv : ℕ
fourcc_iyuv = 0x56555949

abbrev pub fourcc_nv12 : ℕ
fourcc_nv12 = 0x3231564e

abbrev pub fourcc_yv12 : ℕ
fourcc_yv12 = 0x32315659

abbrev pub is_planar : ℕ → Bool
is_planar c = c == fourcc_i420 || c == fourcc_iyuv || c == fourcc_yv12

-- The offsets of the planes of `u` and `v` in the sample, for a row of `pitch` bytes.
unfoldable pub chroma_offsets : ℕ → ℕ → ℕ → ℕ × ℕ
chroma_offsets compression pitch height =
    let size = pitch * height in
    if compression == fourcc_yv12 then (size + size / 4, size) else (size, size + size / 4)

-- The copies from I420 and from NV12 behind the test of the sizes; `none` where the copy refuses and
-- writes nothing.
unfoldable pub put_planes :
    ℕ → ℕ → ℕ → ℕ → ℕ → ℕ → Option Bytes → Option Bytes → Option Bytes → Bytes → Option Bytes
put_planes compression pitch w h pitch_y pitch_c (some y) (some u) (some v) out = some (
    let a = copy_plane w h out pitch 0 y pitch_y 0 in
    let o = chroma_offsets compression pitch h in
    if is_planar compression
    then copy_plane (w / 2) (h / 2) (copy_plane (w / 2) (h / 2) a (pitch / 2) o.0 u pitch_c 0)
        (pitch / 2) o.1 v pitch_c 0
    else interleave_rows (w / 2) (h / 2) a pitch (pitch * h) u v pitch_c 0)
put_planes compression pitch w h pitch_y pitch_c (some y) (some u) none out = none
put_planes compression pitch w h pitch_y pitch_c (some y) none v out = none
put_planes compression pitch w h pitch_y pitch_c none u v out = none

unfoldable pub put_pairs : ℕ → ℕ → ℕ → ℕ → ℕ → Option Bytes → Option Bytes → Bytes → Option Bytes
put_pairs compression pitch w h pitch_y (some y) (some uv) out = some (
    let a = copy_plane w h out pitch 0 y pitch_y 0 in
    let o = chroma_offsets compression pitch h in
    if is_planar compression
    then pick_rows (w / 2) (h / 2) (pick_rows (w / 2) (h / 2) a (pitch / 2) o.0 uv pitch_y 0)
        (pitch / 2) o.1 uv pitch_y 1
    else copy_plane w (h / 2) a pitch (pitch * h) uv pitch_y 0)
put_pairs compression pitch w h pitch_y (some y) none out = none
put_pairs compression pitch w h pitch_y none uv out = none

unfoldable pub put_i420 : ℕ → ℕ → Frame → Bytes → Option Bytes
put_i420 compression pitch f out = even_sizes f.width f.height >>= λ (w, h).
    put_planes compression pitch w h f.pitch_y f.pitch_c f.y f.u f.v out

unfoldable pub put_nv12 : ℕ → ℕ → Frame → Bytes → Option Bytes
put_nv12 compression pitch f out =
    even_sizes f.width f.height >>= λ (w, h). put_pairs compression pitch w h f.pitch_y f.y f.u out

-- `pInU` and `pInV` change places for YV12.
unfoldable pub in_order : Frame → Frame
in_order f =
    if same_subtype f.subtype yv12
    then record f { planes = record f.planes { u = f.v; v = f.u } }
    else f

abbrev pub kept : Option Bytes → Bytes → Bytes
kept none out = out
kept (some made) out = made

-- The bytes of the sample after the call. The header of the output is a biWidth and a
-- biCompression, `none` where there is none; what the copies return is not read.
unfoldable pub copy_sample_buffer : Option (ℕ × ℕ) → Frame → Bytes → Bytes × Hresult
copy_sample_buffer none f out = (out, e_unexpected)
copy_sample_buffer (some (pitch, compression)) f out =
    if is_planar compression || compression == fourcc_nv12
    then (if is_i420 f.subtype || same_subtype f.subtype yv12
        then (kept (put_i420 compression pitch (in_order f) out) out, s_ok)
        else if same_subtype f.subtype nv12
        then (kept (put_nv12 compression pitch f out) out, s_ok)
        else (out, vfw_e_type_not_accepted))
    else (out, vfw_e_type_not_accepted)
