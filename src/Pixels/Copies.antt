-- ===== src/Pixels/Copies.antt =====
-- What the copies of src/PixelFormatConvert.cpp do to a picture as a whole.
use tvtest_video_decoder.Base.{
  ℕ, zero, suc, ◌/◌, ◌%◌, ◌≤◌, ◌≡◌, arith, Option, none, some, inl, inr, Option-cases, subst,
}
use tvtest_video_decoder.Base.Int.{ℤ, pos, negsuc, ◌≤ℤ◌}
use tvtest_video_decoder.Yadif.{Bytes}
use tvtest_video_decoder.Pixels.{
  Planar, Interleaved, positive, even_sizes, i420_to_i420, i420_to_nv12, nv12_to_i420, ◌>>=◌,
}
use tvtest_video_decoder.Pixels.Rows.{copy_plane-copy_plane, pick_rows-interleave_rows}

pub even_sizes-inv :
    (width height : ℤ) (w h : ℕ)
    → even_sizes width height ≡ some (w, h)
    → (width ≡ pos w) × (w % 2 ≡ 0) × (height ≡ pos h) × (h % 2 ≡ 0)
unfolding even_sizes positive
even_sizes-inv (pos (suc n)) (pos (suc m)) w h e = ground arith
even_sizes-inv (pos (suc n)) (pos zero) w h e = cc
even_sizes-inv (pos (suc n)) (negsuc m) w h e = cc
even_sizes-inv (pos zero) height w h e = cc
even_sizes-inv (negsuc n) height w h e = cc

abbrev planar : Option Bytes → Option Bytes → Option Bytes → ℕ → ℕ → Planar
planar y u v pitch_y pitch_c = record { y = y; u = u; v = v; pitch_y = pitch_y; pitch_c = pitch_c }

-- A picture in a buffer of two planes.
abbrev pub interleaved : Bytes → Bytes → ℕ → Interleaved
interleaved y uv pitch = record { y = some y; uv = some uv; pitch = pitch }

module _ (width height : ℤ) (w h : ℕ) (sizes : even_sizes width height ≡ some (w, h)) where
  by_way :
      (dp dc sp sc mp : ℕ) (my muv : Bytes) (dy du dv sy su sv : Option Bytes)
      → w ≤ mp
      → w % 2 ≡ 0
      → (i420_to_nv12 width height (interleaved my muv mp) (planar sy su sv sp sc)
          >>= nv12_to_i420 width height (planar dy du dv dp dc))
        ≡ i420_to_i420 width height (planar dy du dv dp dc) (planar sy su sv sp sc)
  unfolding i420_to_nv12 nv12_to_i420 i420_to_i420
  by_way dp dc sp sc mp my muv (some dy) (some du) (some dv) (some sy) (some su) (some sv) le even =
      rw (
        sizes,
        nv12_to_i420,
        copy_plane-copy_plane w h dy dp 0 my mp 0 sy sp 0 le,
        pick_rows-interleave_rows 0 (w / 2) (h / 2) du dc 0 muv mp 0 su sv sc 0 (omega arith)
            (omega arith),
        pick_rows-interleave_rows 1 (w / 2) (h / 2) dv dc 0 muv mp 0 su sv sc 0 (omega arith)
            (omega arith),
      )
  by_way dp dc sp sc mp my muv dy du dv none su sv le even = rw sizes (ground arith)
  by_way dp dc sp sc mp my muv dy du dv (some sy) none sv le even = rw sizes (ground arith)
  by_way dp dc sp sc mp my muv dy du dv (some sy) (some su) none le even = rw sizes (ground arith)
  by_way dp dc sp sc mp my muv none du dv (some sy) (some su) (some sv) le even =
      rw (sizes, nv12_to_i420)
  by_way dp dc sp sc mp my muv (some dy) none dv (some sy) (some su) (some sv) le even =
      rw (sizes, nv12_to_i420)
  by_way dp dc sp sc mp my muv (some dy) (some du) none (some sy) (some su) (some sv) le even =
      rw (sizes, nv12_to_i420)

-- A picture in I420 that is copied into NV12 and from there into I420 is what PixelCopyI420ToI420
-- copies at once, refusals included, if the NV12 picture has its planes and a pitch as wide as the
-- picture.
pub nv12_to_i420-i420_to_nv12 :
    (width height : ℤ) (dst src : Planar) (mid_y mid_uv : Bytes) (pitch : ℕ)
    → width ≤ℤ pos pitch
    → (i420_to_nv12 width height (interleaved mid_y mid_uv pitch) src
        >>= nv12_to_i420 width height dst)
      ≡ i420_to_i420 width height dst src
nv12_to_i420-i420_to_nv12 width height dst src mid_y mid_uv pitch fits =
    elim (Option-cases (even_sizes width height)) [
      | inl e ↦ unfold i420_to_nv12 i420_to_i420 in rw e
      | inr ((w, h), e) ↦
          let i = even_sizes-inv width height w h e in
          let fit : pos w ≤ℤ pos pitch = subst (λ z. z ≤ℤ pos pitch) i.0 fits in
          by_way width height w h e dst.pitch_y dst.pitch_c src.pitch_y src.pitch_c pitch mid_y
            mid_uv dst.y dst.u dst.v src.y src.u src.v (omega arith) i.1
    ]
