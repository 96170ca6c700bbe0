-- ===== src/Pixels/Ends.antt =====
-- What the loops over the rows in src/PixelFormatConvert.cpp leave behind the last row.
use native.Mathlib.Nat.{suc-mul}
use tvtest_video_decoder.Base.{ℕ, zero, suc, ◌+◌, ◌*◌, ◌≤◌, ◌≡◌, refl, ◌∙◌, arith}
use tvtest_video_decoder.Yadif.{Bytes}
use tvtest_video_decoder.Pixels.{
  copy_bytes, copy_plane, interleave, interleave_rows, pick, pick_rows,
}
use tvtest_video_decoder.Pixels.Rows.{interleave-byte, pick-byte}

pub copy_plane-behind :
    (w h : ℕ) (dst : Bytes) (dp q : ℕ) (src : Bytes) (sp p i : ℕ)
    → w ≤ dp
    → q + h * dp ≤ i
    → copy_plane w h dst dp q src sp p i ≡ dst i
unfolding copy_plane copy_bytes
copy_plane-behind w zero dst dp q src sp p i le h = refl
copy_plane-behind w (suc n) dst dp q src sp p i le h =
    copy_plane-behind w n (copy_bytes w dst q src p) dp (q + dp) src sp (p + sp) i le
      (omega (arith, suc-mul n dp))
    ∙ ground (arith, suc-mul n dp)

pub interleave_rows-behind :
    (w h : ℕ) (dst : Bytes) (dp q : ℕ) (u v : Bytes) (sp p i : ℕ)
    → 2 * w ≤ dp
    → q + h * dp ≤ i
    → interleave_rows w h dst dp q u v sp p i ≡ dst i
unfolding interleave_rows
interleave_rows-behind w zero dst dp q u v sp p i le h = refl
interleave_rows-behind w (suc n) dst dp q u v sp p i le h =
    interleave_rows-behind w n (interleave w dst q u v p) dp (q + dp) u v sp (p + sp) i le
      (omega (arith, suc-mul n dp))
    ∙ ground (arith, suc-mul n dp, interleave-byte w dst q u v p i)

pub pick_rows-behind :
    (w h : ℕ) (dst : Bytes) (dp q : ℕ) (uv : Bytes) (sp p i : ℕ)
    → w ≤ dp
    → q + h * dp ≤ i
    → pick_rows w h dst dp q uv sp p i ≡ dst i
unfolding pick_rows
pick_rows-behind w zero dst dp q uv sp p i le h = refl
pick_rows-behind w (suc n) dst dp q uv sp p i le h =
    pick_rows-behind w n (pick w dst q uv p) dp (q + dp) uv sp (p + sp) i le
      (omega (arith, suc-mul n dp))
    ∙ ground (arith, suc-mul n dp, pick-byte w dst q uv p i)
