-- ===== src/Pixels.antt =====
-- The copies of src/PixelFormatConvert.cpp on their portable path. A pointer into a plane is an
-- offset in the bytes of its buffer; `restrict` keeps the buffers of a call apart. Pitches are not
-- negative.
mod Rows
pub mod Copies
pub mod Ends
pub mod Upsample
pub mod Interpolation
pub mod Rgb
pub mod Saturation
pub mod Converter
pub mod Conversions
pub mod Frames
pub mod Picture
use tvtest_video_decoder.Base.{
  ℕ, zero, suc, ◌+◌, ◌-◌, ◌*◌, ◌/◌, ◌%◌, Bool, true, false, ◌&&◌, ◌||◌, Option, none, some, ◌==◌,
  ltb, if◌then◌else◌,
}
use mathlib.Core.Bool.{not}
use tvtest_video_decoder.Base.Int.{ℤ, pos, negsuc}
use tvtest_video_decoder.Yadif.{Bytes}

infixl 5 ◌>>=◌ ◌>>◌
abbrev pub ◌>>=◌ : {A B : Type 0} → Option A → (A → Option B) → Option B
none >>= f = none
some a >>= f = f a

abbrev pub ◌>>◌ : {A B : Type 0} → Option A → Option B → Option B
m >> k = m >>= λ _. k

-- Copy_C: `n` bytes from the offset `p` of the source to the offset `q`.
unfoldable pub copy_bytes : ℕ → Bytes → ℕ → Bytes → ℕ → Bytes
copy_bytes n dst q src p i = if not (ltb i q) && ltb i (q + n) then src (p + (i - q)) else dst i

-- CopyPlane: the loop over the rows.
unfoldable pub copy_plane : ℕ → ℕ → Bytes → ℕ → ℕ → Bytes → ℕ → ℕ → Bytes
copy_plane width zero dst dst_pitch q src src_pitch p = dst
copy_plane width (suc height) dst dst_pitch q src src_pitch p =
    copy_plane width height (copy_bytes width dst q src p) dst_pitch (q + dst_pitch) src src_pitch
      (p + src_pitch)

unfoldable pub write : Bytes → ℕ → ℕ → Bytes
write dst q v i = if i == q then v else dst i

-- The loop of PixelCopyI420ToNV12 over a row of chroma.
unfoldable pub interleave : ℕ → Bytes → ℕ → Bytes → Bytes → ℕ → Bytes
interleave zero uv q u v p = uv
interleave (suc x) uv q u v p =
    interleave x (write (write uv q (u p)) (q + 1) (v p)) (q + 2) u v (p + 1)

unfoldable pub interleave_rows : ℕ → ℕ → Bytes → ℕ → ℕ → Bytes → Bytes → ℕ → ℕ → Bytes
unfolding interleave
interleave_rows width zero uv dst_pitch q u v src_pitch p = uv
interleave_rows width (suc height) uv dst_pitch q u v src_pitch p =
    interleave_rows width height (interleave width uv q u v p) dst_pitch (q + dst_pitch) u v
      src_pitch (p + src_pitch)

-- The loop of PixelCopyNV12ToI420 over a row of chroma: what is written to one of its two planes,
-- every second byte from the offset `p` on.
unfoldable pub pick : ℕ → Bytes → ℕ → Bytes → ℕ → Bytes
pick zero dst q uv p = dst
pick (suc x) dst q uv p = pick x (write dst q (uv p)) (q + 1) uv (p + 2)

unfoldable pub pick_rows : ℕ → ℕ → Bytes → ℕ → ℕ → Bytes → ℕ → ℕ → Bytes
unfolding pick
pick_rows width zero dst dst_pitch q uv src_pitch p = dst
pick_rows width (suc height) dst dst_pitch q uv src_pitch p =
    pick_rows width height (pick width dst q uv p) dst_pitch (q + dst_pitch) uv src_pitch
      (p + src_pitch)

-- The pointers and pitches of a picture; `none` is a null pointer.
pub record Planar : Type 0 where
  pub y : Option Bytes
  pub u : Option Bytes
  pub v : Option Bytes
  pub pitch_y : ℕ
  pub pitch_c : ℕ

pub record Interleaved : Type 0 where
  pub y : Option Bytes
  pub uv : Option Bytes
  pub pitch : ℕ

pub record Packed : Type 0 where
  pub rgb : Option Bytes
  pub pitch : ℕ

-- `Width <= 0 || Height <= 0`, and the two sizes where it does not hold.
unfoldable pub positive : ℤ → ℤ → Option (ℕ × ℕ)
positive (pos (suc width)) (pos (suc height)) = some (suc width, suc height)
positive (pos (suc width)) _ = none
positive _ height = none

-- With `(Width & 1) || (Height & 1)`.
unfoldable pub even_sizes : ℤ → ℤ → Option (ℕ × ℕ)
unfolding positive
even_sizes width height = do
  (w, h) ← positive width height
  if w % 2 == 1 || h % 2 == 1 then none else some (w, h)

-- The picture that the call leaves, `none` where it returns false and writes nothing.
unfoldable pub i420_to_i420 : ℤ → ℤ → Planar → Planar → Option Planar
unfolding even_sizes copy_plane
i420_to_i420 width height dst src = do
  (w, h) ← even_sizes width height
  dst_y ← dst.y
  dst_u ← dst.u
  dst_v ← dst.v
  src_y ← src.y
  src_u ← src.u
  src_v ← src.v
  some (record dst {
    y = some (copy_plane w h dst_y dst.pitch_y 0 src_y src.pitch_y 0);
    u = some (copy_plane (w / 2) (h / 2) dst_u dst.pitch_c 0 src_u src.pitch_c 0);
    v = some (copy_plane (w / 2) (h / 2) dst_v dst.pitch_c 0 src_v src.pitch_c 0);
  })

unfoldable pub i420_to_nv12 : ℤ → ℤ → Interleaved → Planar → Option Interleaved
unfolding even_sizes copy_plane interleave_rows
i420_to_nv12 width height dst src = do
  (w, h) ← even_sizes width height
  dst_y ← dst.y
  dst_uv ← dst.uv
  src_y ← src.y
  src_u ← src.u
  src_v ← src.v
  some (record dst {
    y = some (copy_plane w h dst_y dst.pitch 0 src_y src.pitch_y 0);
    uv = some (interleave_rows (w / 2) (h / 2) dst_uv dst.pitch 0 src_u src_v src.pitch_c 0);
  })

unfoldable pub nv12_to_i420 : ℤ → ℤ → Planar → Interleaved → Option Planar
unfolding even_sizes copy_plane pick_rows
nv12_to_i420 width height dst src = do
  (w, h) ← even_sizes width height
  dst_y ← dst.y
  dst_u ← dst.u
  dst_v ← dst.v
  src_y ← src.y
  src_uv ← src.uv
  some (record dst {
    y = some (copy_plane w h dst_y dst.pitch_y 0 src_y src.pitch 0);
    u = some (pick_rows (w / 2) (h / 2) dst_u dst.pitch_c 0 src_uv src.pitch 0);
    v = some (pick_rows (w / 2) (h / 2) dst_v dst.pitch_c 0 src_uv src.pitch 1);
  })

unfoldable pub nv12_to_nv12 : ℤ → ℤ → Interleaved → Interleaved → Option Interleaved
unfolding even_sizes copy_plane
nv12_to_nv12 width height dst src = do
  (w, h) ← even_sizes width height
  dst_y ← dst.y
  dst_uv ← dst.uv
  src_y ← src.y
  src_uv ← src.uv
  some (record dst {
    y = some (copy_plane w h dst_y dst.pitch 0 src_y src.pitch 0);
    uv = some (copy_plane w (h / 2) dst_uv dst.pitch 0 src_uv src.pitch 0);
  })

unfoldable pub rgb_to_rgb : ℤ → ℤ → Packed → ℕ → Packed → ℕ → Option Packed
unfolding positive copy_plane
rgb_to_rgb width height dst dst_bpp src src_bpp = do
  (w, h) ← positive width height
  dst_rgb ← dst.rgb
  src_rgb ← src.rgb
  if dst_bpp == src_bpp
      then some (record dst {
        rgb = some (copy_plane ((w * dst_bpp + 7) / 8) h dst_rgb dst.pitch 0 src_rgb src.pitch 0);
      })
      else none
