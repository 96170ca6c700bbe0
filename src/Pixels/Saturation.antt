-- ===== src/Pixels/Saturation.antt =====
-- The table of PixelCopyI422ToRGB in src/PixelFormatConvert.cpp saturates: every sum of a pixel
-- falls into the table, and what stands there is the sum held to a byte.
use native.Mathlib.Nat.{mul-le-mul}
use tvtest_video_decoder.Base.{
  ℕ, suc, ◌-◌, ◌*◌, ◌≤◌, ◌<◌, ◌≡◌, refl, arith, Bool, true, false, ◌&&◌, ltb, leb, some, inl, inr,
  Bool-cases, ltb→lt, subst, sym,
}
use tvtest_video_decoder.Base.Int.{
  ℤ, pos, negsuc, pos_part, neg_part, ◌+ℤ◌, ◌-ℤ◌, ◌*ℤ◌, ◌≤ℤ◌, fdiv, clamp, int_laws,
}
use tvtest_video_decoder.Base.Bits.{check_below, check_below-lt}
use tvtest_video_decoder.Pixels.Rgb.{
  Coefficients, Parameters, setup_parameters, convert_table, look_up, luma_term, blue_sum,
  green_sum, red_sum, rgb_pixel,
}

-- A sum of 16 fractional bits, held to a byte.
unfoldable pub saturate : ℤ → ℕ
saturate t = pos_part (clamp (fdiv t 65536) (pos 0) (pos 255))

look_up-saturate :
    (t : ℤ) → negsuc 25165823 ≤ℤ t → t ≤ℤ pos 41943039 → look_up convert_table t ≡ some (saturate t)
unfolding look_up convert_table saturate fdiv clamp ◌+ℤ◌
look_up-saturate (pos n) lo hi = ground arith
look_up-saturate (negsuc n) lo hi = ground arith

-- `- k ≤ a ≤ k`
abbrev Within : ℕ → ℤ → Type 0
Within k a = (pos_part a ≤ k) × (neg_part a ≤ k)

chroma_term :
    (k : ℕ) (g : ℤ) (u : ℕ) → Within k g → u < 256 → Within (k * 128) (g *ℤ (pos u -ℤ pos 128))
unfolding ◌*ℤ◌ ◌-ℤ◌
chroma_term k (pos n) u (p, q) h = ground (
  arith,
  mul-le-mul {n₁ = n} {m₁ = u - 128} {n₂ = k} {m₂ = 128} p (omega arith),
  mul-le-mul {n₁ = n} {m₁ = 128 - u} {n₂ = k} {m₂ = 128} p (omega arith),
)
chroma_term k (negsuc n) u (p, q) h = ground (
  arith,
  mul-le-mul {n₁ = suc n} {m₁ = u - 128} {n₂ = k} {m₂ = 128} q (omega arith),
  mul-le-mul {n₁ = suc n} {m₁ = 128 - u} {n₂ = k} {m₂ = 128} q (omega arith),
)

-- The rows of the table, each with its limits.
abbrev in_limits : Coefficients → Bool
in_limits c =
    leb (pos_part c.rv) 138453
    && leb (neg_part c.rv) 138453
    && leb (pos_part c.bu) 138453
    && leb (neg_part c.bu) 138453
    && leb (pos_part c.gu) 53279
    && leb (neg_part c.gu) 53279
    && leb (pos_part c.gv) 53279
    && leb (neg_part c.gv) 53279

table_in_limits :
    (straight : Bool)
    → check_below 8 (λ m. in_limits (setup_parameters m straight).coefficients) ≡ true
unfolding check_below setup_parameters
table_in_limits true = refl
table_in_limits false = refl

row_in_limits :
    (m : ℕ) (straight : Bool) → in_limits (setup_parameters m straight).coefficients ≡ true
row_in_limits m straight = elim (Bool-cases (ltb m 8)) [
  | inl e ↦ check_below-lt 8 _ m (table_in_limits straight) (ltb→lt m 8 e)
  | inr e ↦
      let first : setup_parameters m straight ≡ setup_parameters 0 straight =
        unfold setup_parameters in rw e in
      subst (λ p. in_limits p.coefficients ≡ true) (sym first)
        (check_below-lt 8 _ 0 (table_in_limits straight) (omega arith))
]

luma_limits :
    (m : ℕ) (straight : Bool) (y : ℕ)
    → y < 256
    → (negsuc 1220943 ≤ℤ luma_term (setup_parameters m straight) y)
      × (luma_term (setup_parameters m straight) y ≤ℤ pos 18237851)
unfolding setup_parameters luma_term ◌*ℤ◌ ◌-ℤ◌
luma_limits m true y h = ground arith
luma_limits m false y h = ground arith

module _ (p : Parameters) (y u v : ℕ) (limits : in_limits p.coefficients ≡ true)
    (low : negsuc 1220943 ≤ℤ luma_term p y) (high : luma_term p y ≤ℤ pos 18237851) (hu : u < 256)
    (hv : v < 256) where
  blue-saturate : look_up convert_table (blue_sum p y u v) ≡ some (saturate (blue_sum p y u v))
  unfolding blue_sum
  blue-saturate =
      let b : Within 138453 p.bu = ground arith in
      let c : Within 17721984 (p.bu *ℤ (pos u -ℤ pos 128)) = chroma_term 138453 p.bu u b hu in
      look_up-saturate _ (omega int_laws) (omega int_laws)

  green-saturate : look_up convert_table (green_sum p y u v) ≡ some (saturate (green_sum p y u v))
  unfolding green_sum
  green-saturate =
      let b : Within 53279 p.gu = ground arith in
      let d : Within 53279 p.gv = ground arith in
      let c : Within 6819712 (p.gu *ℤ (pos u -ℤ pos 128)) = chroma_term 53279 p.gu u b hu in
      let e : Within 6819712 (p.gv *ℤ (pos v -ℤ pos 128)) = chroma_term 53279 p.gv v d hv in
      look_up-saturate _ (omega int_laws) (omega int_laws)

  red-saturate : look_up convert_table (red_sum p y u v) ≡ some (saturate (red_sum p y u v))
  unfolding red_sum
  red-saturate =
      let b : Within 138453 p.rv = ground arith in
      let c : Within 17721984 (p.rv *ℤ (pos v -ℤ pos 128)) = chroma_term 138453 p.rv v b hv in
      look_up-saturate _ (omega int_laws) (omega int_laws)

-- The three channels of a pixel, each the sum of its matrix held to a byte.
unfoldable pub saturated : Parameters → ℕ → ℕ → ℕ → ℕ × ℕ × ℕ
saturated p y u v =
    (saturate (blue_sum p y u v), saturate (green_sum p y u v), saturate (red_sum p y u v))

-- For bytes no sum falls outside the table, whatever the matrix coefficients.
pub rgb_pixel-saturated :
    (matrix_coefficients : ℕ) (straight : Bool) (y u v : ℕ)
    → y < 256
    → u < 256
    → v < 256
    → rgb_pixel (setup_parameters matrix_coefficients straight) convert_table y u v
      ≡ some (saturated (setup_parameters matrix_coefficients straight) y u v)
unfolding rgb_pixel saturated
rgb_pixel-saturated m straight y u v hy hu hv =
    let p = setup_parameters m straight in
    let limits = row_in_limits m straight in
    let (low, high) = luma_limits m straight y hy in
    rw (
      blue-saturate p y u v limits low high hu hv,
      green-saturate p y u v limits low high hu hv,
      red-saturate p y u v limits low high hu hv,
    )
