-- ===== src/Yadif/Row.antt =====
-- The value that Yadif_Row computes for a pixel, and its conversion to a byte.
use tvtest_video_decoder.Base.{
  ℕ, ◌+◌, ◌-◌, ◌/◌, ◌≤◌, ◌≡◌, Bool, true, false, arith, subst, sym, inl, inr, Bool-cases,
}
use tvtest_video_decoder.Base.Int.{ℤ, pos, negsuc, ltb_ℤ, ◌+ℤ◌, ◌-ℤ◌, ◌≤ℤ◌}
use tvtest_video_decoder.Yadif.{
  Bytes, Best, max_ℤ, max3, check, diagonal, diagonal_score, check_at, keep, spatial_pred,
  temporal_mean, widen, pixel_diff, limit, pixel_value, to_byte, prev2_of, next2_of, yadif_pixel,
}

half : (a b : ℕ) → a ≤ 255 → b ≤ 255 → (a + b) / 2 ≤ 255
half a b h k = omega arith

max3_left : (a b c : ℤ) → a ≤ℤ max3 a b c
unfolding max3 max_ℤ
max3_left a b c = ground arith

-- What limit leaves lies in the window, which is not empty.
limit-in : (p d e : ℤ) → pos 0 ≤ℤ e → (d -ℤ e ≤ℤ limit p d e) × (limit p d e ≤ℤ d +ℤ e)
unfolding limit ◌+ℤ◌ ◌-ℤ◌
limit-in p d e h = ground arith

-- The limited prediction lies between the prediction and the mean.
limit-range :
    (p d : ℕ) (e : ℤ)
    → p ≤ 255
    → d ≤ 255
    → pos 0 ≤ℤ e
    → (pos 0 ≤ℤ limit (pos p) (pos d) e) × (limit (pos p) (pos d) e ≤ℤ pos 255)
unfolding limit ◌+ℤ◌ ◌-ℤ◌
limit-range p d e h k n = ground arith

to_byte-in_range : (v : ℤ) → pos 0 ≤ℤ v → v ≤ℤ pos 255 → pos (to_byte v) ≡ v
unfolding to_byte
to_byte-in_range (pos n) h k = ground arith
to_byte-in_range (negsuc n) h k = absurd (omega arith)

-- A step of the search keeps the prediction a byte.
check-byte :
    (score pred : ℕ) (inner : Best → Best) (best : Best)
    → pred ≤ 255
    → ((b : Best) → b.1 ≤ 255 → (inner b).1 ≤ 255)
    → best.1 ≤ 255
    → (check score pred inner best).1 ≤ 255
unfolding check
check-byte score pred inner best h step k = elim (Bool-cases (ltb_ℤ (pos score) best.0)) [
  | inl e ↦ rw e (step (pos score, pred) h)
  | inr e ↦ rw e k
]

check_at-byte :
    (cur : Bytes) (up down : ℕ) (inner : Best → Best) (best : Best)
    → ((i : ℕ) → cur i ≤ 255)
    → ((b : Best) → b.1 ≤ 255 → (inner b).1 ≤ 255)
    → best.1 ≤ 255
    → (check_at cur up down inner best).1 ≤ 255
unfolding check_at diagonal
check_at-byte cur up down inner best h step k =
    check-byte (diagonal_score cur up down) (diagonal cur up down) inner best
      (half (cur up) (cur down) (h up) (h down)) step k

spatial_pred-byte :
    (stride : ℕ) (cur : Bytes) (i : ℕ) → ((j : ℕ) → cur j ≤ 255) → spatial_pred stride cur i ≤ 255
unfolding spatial_pred diagonal
spatial_pred-byte stride cur i h =
    let up = i - stride in
    let down = i + stride in
    let pair = λ (a : ℕ) (b : ℕ) (best : Best) (k : best.1 ≤ 255).
      check_at-byte cur a b keep best h (λ c l. l) k in
    check_at-byte cur (up + 1) (down - 1) (check_at cur (up + 2) (down - 2) keep) _ h
      (pair (up + 2) (down - 2))
      (check_at-byte cur (up - 1) (down + 1) (check_at cur (up - 2) (down + 2) keep) _ h
        (pair (up - 2) (down + 2)) (half (cur up) (cur down) (h up) (h down)))

pixel_diff_nonneg :
    (stride : ℕ) (prev cur next prev2 next2 : Bytes) (i : ℕ)
    → pos 0 ≤ℤ pixel_diff stride prev cur next prev2 next2 i
unfolding pixel_diff widen max3 max_ℤ
pixel_diff_nonneg stride prev cur next prev2 next2 i = ground arith

stored :
    (stride : ℕ) (prev cur next prev2 next2 : Bytes) (i : ℕ)
    → ((j : ℕ) → cur j ≤ 255)
    → ((j : ℕ) → prev2 j ≤ 255)
    → ((j : ℕ) → next2 j ≤ 255)
    → pos (to_byte (pixel_value stride prev cur next prev2 next2 i))
      ≡ pixel_value stride prev cur next prev2 next2 i
unfolding pixel_value temporal_mean
stored stride prev cur next prev2 next2 i hc h2 k2 =
    let r =
      limit-range (spatial_pred stride cur i) ((prev2 i + next2 i) / 2)
        (pixel_diff stride prev cur next prev2 next2 i) (spatial_pred-byte stride cur i hc)
        (half (prev2 i) (next2 i) (h2 i) (k2 i))
        (pixel_diff_nonneg stride prev cur next prev2 next2 i) in
    to_byte-in_range _ r.0 r.1

limited :
    (stride : ℕ) (prev cur next prev2 next2 : Bytes) (i : ℕ)
    → ((j : ℕ) → cur j ≤ 255)
    → ((j : ℕ) → prev2 j ≤ 255)
    → ((j : ℕ) → next2 j ≤ 255)
    → (pos (temporal_mean prev2 next2 i) -ℤ pixel_diff stride prev cur next prev2 next2 i
        ≤ℤ pos (to_byte (pixel_value stride prev cur next prev2 next2 i)))
      × (pos (to_byte (pixel_value stride prev cur next prev2 next2 i))
          ≤ℤ pos (temporal_mean prev2 next2 i) +ℤ pixel_diff stride prev cur next prev2 next2 i)
unfolding pixel_value
limited stride prev cur next prev2 next2 i hc h2 k2 =
    subst
      (λ v.
        (pos (temporal_mean prev2 next2 i) -ℤ pixel_diff stride prev cur next prev2 next2 i ≤ℤ v)
        × (v ≤ℤ pos (temporal_mean prev2 next2 i) +ℤ pixel_diff stride prev cur next prev2 next2 i))
      (sym (stored stride prev cur next prev2 next2 i hc h2 k2))
      (limit-in (pos (spatial_pred stride cur i)) (pos (temporal_mean prev2 next2 i))
        (pixel_diff stride prev cur next prev2 next2 i)
        (pixel_diff_nonneg stride prev cur next prev2 next2 i))

-- What Yadif_Row stores for a pixel lies within the final difference of the mean of the same pixel
-- in time: the prediction is limited, and its conversion to a byte loses nothing, for planes of
-- bytes.
pub yadif_pixel-limited :
    (stride : ℕ) (parity : Bool) (prev cur next : Bytes) (i : ℕ)
    → ((j : ℕ) → prev j ≤ 255)
    → ((j : ℕ) → cur j ≤ 255)
    → ((j : ℕ) → next j ≤ 255)
    → (pos (temporal_mean (prev2_of parity prev cur) (next2_of parity cur next) i)
          -ℤ pixel_diff stride prev cur next (prev2_of parity prev cur) (next2_of parity cur next) i
        ≤ℤ pos (yadif_pixel stride parity prev cur next i))
      × (pos (yadif_pixel stride parity prev cur next i)
          ≤ℤ pos (temporal_mean (prev2_of parity prev cur) (next2_of parity cur next) i)
            +ℤ pixel_diff stride prev cur next
                (prev2_of parity prev cur)
                (next2_of parity cur next)
                i)
unfolding yadif_pixel
yadif_pixel-limited stride true prev cur next i hp hc hn =
    limited stride prev cur next prev cur i hc hp hc
yadif_pixel-limited stride false prev cur next i hp hc hn =
    limited stride prev cur next cur next i hc hc hn
