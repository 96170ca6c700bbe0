-- ===== src/Pixels/Rows.antt =====
-- The rows that the copies of src/PixelFormatConvert.cpp read and write.
use tvtest_video_decoder.Base.{
  ℕ, zero, suc, ◌+◌, ◌-◌, ◌*◌, ◌/◌, ◌%◌, ◌≤◌, ◌<◌, ◌≡◌, refl, ◌∙◌, arith, ◌&&◌, ltb, ◌==◌,
  if◌then◌else◌,
}
use mathlib.Core.Path.{fun_ext}
use mathlib.Core.Bool.{not}
use tvtest_video_decoder.Yadif.{Bytes}
use tvtest_video_decoder.Pixels.{
  copy_bytes, copy_plane, write, interleave, interleave_rows, pick, pick_rows,
}

-- A row of chroma after the loop.
pub interleave-byte :
    (n : ℕ) (uv : Bytes) (q : ℕ) (u v : Bytes) (p i : ℕ)
    → interleave n uv q u v p i ≡ (
        if not (ltb i q) && ltb i (q + 2 * n)
        then (if (i - q) % 2 == 0 then u (p + (i - q) / 2) else v (p + (i - q) / 2))
        else uv i)
unfolding interleave write
interleave-byte zero uv q u v p i = ground arith
interleave-byte (suc n) uv q u v p i =
    ground (arith, interleave-byte n (write (write uv q (u p)) (q + 1) (v p)) (q + 2) u v (p + 1) i)

pub pick-byte :
    (n : ℕ) (dst : Bytes) (q : ℕ) (uv : Bytes) (p i : ℕ)
    → pick n dst q uv p i ≡ (if not (ltb i q) && ltb i (q + n) then uv (p + 2 * (i - q)) else dst i)
unfolding pick write
pick-byte zero dst q uv p i = ground arith
pick-byte (suc n) dst q uv p i =
    ground (arith, pick-byte n (write dst q (uv p)) (q + 1) uv (p + 2) i)

-- Bytes before the offset of the destination stay.
pub copy_plane-before :
    (w h : ℕ) (dst : Bytes) (dp q : ℕ) (src : Bytes) (sp p i : ℕ)
    → i < q
    → copy_plane w h dst dp q src sp p i ≡ dst i
unfolding copy_plane copy_bytes
copy_plane-before w zero dst dp q src sp p i h = refl
copy_plane-before w (suc n) dst dp q src sp p i h =
    copy_plane-before w n (copy_bytes w dst q src p) dp (q + dp) src sp (p + sp) i (omega arith)
    ∙ ground arith

pub interleave_rows-before :
    (w h : ℕ) (dst : Bytes) (dp q : ℕ) (u v : Bytes) (sp p i : ℕ)
    → i < q
    → interleave_rows w h dst dp q u v sp p i ≡ dst i
unfolding interleave_rows
interleave_rows-before w zero dst dp q u v sp p i h = refl
interleave_rows-before w (suc n) dst dp q u v sp p i h =
    interleave_rows-before w n (interleave w dst q u v p) dp (q + dp) u v sp (p + sp) i
      (omega arith)
    ∙ ground (arith, interleave-byte w dst q u v p i)

-- A row is copied alike from two sources that agree on it.
copy_bytes-agree :
    (w : ℕ) (dst : Bytes) (q : ℕ) (s t : Bytes) (p r : ℕ)
    → ((x : ℕ) → x < w → s (p + x) ≡ t (r + x))
    → copy_bytes w dst q s p ≡ copy_bytes w dst q t r
unfolding copy_bytes
copy_bytes-agree w dst q s t p r h = fun_ext λ i. ground (arith, h (i - q))

pick-agree :
    (w : ℕ) (dst : Bytes) (q : ℕ) (s t : Bytes) (p r : ℕ)
    → ((x : ℕ) → x < w → s (p + 2 * x) ≡ t (r + x))
    → pick w dst q s p ≡ copy_bytes w dst q t r
unfolding copy_bytes
pick-agree w dst q s t p r h = fun_ext λ i. ground (arith, h (i - q), pick-byte w dst q s p i)

-- A plane that is copied by way of another.
pub copy_plane-copy_plane :
    (w h : ℕ) (dst : Bytes) (dp q : ℕ) (mid : Bytes) (mp m : ℕ) (src : Bytes) (sp p : ℕ)
    → w ≤ mp
    → copy_plane w h dst dp q (copy_plane w h mid mp m src sp p) mp m
      ≡ copy_plane w h dst dp q src sp p
unfolding copy_plane
copy_plane-copy_plane w zero dst dp q mid mp m src sp p le = refl
copy_plane-copy_plane w (suc h) dst dp q mid mp m src sp p le =
    let first = copy_bytes w mid m src p in
    let rest = copy_plane w h first mp (m + mp) src sp (p + sp) in
    let same : (x : ℕ) → x < w → rest (m + x) ≡ src (p + x) = λ x lt.
      copy_plane-before w h first mp (m + mp) src sp (p + sp) (m + x) (omega arith)
      ∙ unfold copy_bytes in ground arith in
    copy_plane-copy_plane w h (copy_bytes w dst q rest m) dp (q + dp) first mp (m + mp) src sp
      (p + sp) le
    ∙ rw (copy_bytes-agree w dst q rest src m p same)

chroma :
    (k w : ℕ) (mid : Bytes) (m : ℕ) (u v : Bytes) (p x : ℕ)
    → k < 2
    → x < w
    → interleave w mid m u v p (m + k + 2 * x) ≡ (if k == 0 then u else v) (p + x)
chroma zero w mid m u v p x lk lt =
    let half : (m + 0 + 2 * x - m) / 2 ≡ x = omega arith in
    ground (arith, half, interleave-byte w mid m u v p (m + 0 + 2 * x))
chroma (suc zero) w mid m u v p x lk lt =
    let half : (m + 1 + 2 * x - m) / 2 ≡ x = omega arith in
    ground (arith, half, interleave-byte w mid m u v p (m + 1 + 2 * x))
chroma (suc (suc k)) w mid m u v p x lk lt = absurd (omega arith)

-- The chroma planes by way of the interleaved plane: `k` is 0 for u and 1 for v.
pub pick_rows-interleave_rows :
    (k : ℕ) (w h : ℕ) (dst : Bytes) (dp q : ℕ) (mid : Bytes) (mp m : ℕ) (u v : Bytes) (sp p : ℕ)
    → k < 2
    → 2 * w ≤ mp
    → pick_rows w h dst dp q (interleave_rows w h mid mp m u v sp p) mp (m + k)
      ≡ copy_plane w h dst dp q (if k == 0 then u else v) sp p
unfolding pick_rows interleave_rows copy_plane
pick_rows-interleave_rows k w zero dst dp q mid mp m u v sp p lk le = refl
pick_rows-interleave_rows k w (suc h) dst dp q mid mp m u v sp p lk le =
    let first = interleave w mid m u v p in
    let rest = interleave_rows w h first mp (m + mp) u v sp (p + sp) in
    let src : Bytes = if k == 0 then u else v in
    let same : (x : ℕ) → x < w → rest (m + k + 2 * x) ≡ src (p + x) = λ x lt.
      interleave_rows-before w h first mp (m + mp) u v sp (p + sp) (m + k + 2 * x) (omega arith)
      ∙ chroma k w mid m u v p x lk lt in
    let shift : m + k + mp ≡ m + mp + k = omega arith in
    rw (shift, pick-agree w dst q rest src (m + k) p same)
      (pick_rows-interleave_rows k w h (copy_bytes w dst q src p) dp (q + dp) first mp (m + mp) u v
        sp (p + sp) lk le)
