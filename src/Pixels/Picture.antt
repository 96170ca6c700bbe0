-- ===== src/Pixels/Picture.antt =====
-- The pictures that PixelCopyI422ToRGB of src/PixelFormatConvert.cpp makes.
use native.Mathlib.Nat.{mul-le-mul_right}
use tvtest_video_decoder.Base.{
  ℕ, zero, suc, ◌+◌, ◌*◌, ◌/◌, ◌≤◌, ◌<◌, ◌≡◌, ◌≢◌, refl, ◌∙◌, arith, Bool, ◌==◌, some,
  if◌then◌else◌, ℕ_discrete, ◌⊎◌, inl,
}
use tvtest_video_decoder.Pixels.Upsample.{Plane}
use tvtest_video_decoder.Pixels.Rgb.{
  setup_parameters, convert_table, write_pixel, rgb_row, rgb_rows,
}
use tvtest_video_decoder.Pixels.Saturation.{saturated, rgb_pixel-saturated}

abbrev pub IsBytes : Plane → Type 0
IsBytes plane = (r x : ℕ) → plane r x < 256

-- Channel `k` of a pixel.
abbrev pub channel : ℕ → ℕ × ℕ × ℕ → ℕ
channel k (b, g, r) = if k == 0 then b else if k == 1 then g else r

-- Two pixels of a row do not overlap.
apart : (x x' planes : ℕ) → x < x' → 3 ≤ planes → x * planes + planes ≤ x' * planes
apart x x' planes h three =
    omega (arith, mul-le-mul_right {m = x + 1} {n = x'} planes (omega arith))

module _ (matrix_coefficients : ℕ) (straight : Bool) (planes : ℕ) (three : 3 ≤ planes)
    (py pu pv : Plane) (y_bytes : IsBytes py) (u_bytes : IsBytes pu) (v_bytes : IsBytes pv) where
  -- What a pixel of the picture is.
  abbrev pub converted : ℕ → ℕ → ℕ × ℕ × ℕ
  converted y x =
      saturated (setup_parameters matrix_coefficients straight) (py y x) (pu y (x / 2))
        (pv y (x / 2))

  -- The loop over a row does not fail, and writes each pixel, within the row alone.
  row_made :
      (n x y : ℕ) (dst : Plane)
      → (made : Plane) × (rgb_row
            (setup_parameters matrix_coefficients straight)
            convert_table
            planes
            n
            x
            y
            py
            pu
            pv
            dst
          ≡ some made)
        × ((x' k : ℕ)
            → x ≤ x'
            → x' < x + n
            → k < 3
            → made y (x' * planes + k) ≡ channel k (converted y x'))
        × ((i : ℕ) → i < x * planes → made y i ≡ dst y i)
        × ((j i : ℕ) → j ≢ y → made j i ≡ dst j i)
  unfolding rgb_row
  row_made zero x y dst =
      (dst, refl, (λ x' k lo hi h. absurd (omega arith)), (λ i h. refl), (λ j i h. refl))
  row_made (suc n) x y dst =
      let next = write_pixel y (x * planes) (converted y x) dst in
      let (made, e, pixels, before, rows) = row_made n (x + 1) y next in
      let pixel =
        rgb_pixel-saturated matrix_coefficients straight (py y x) (pu y (x / 2)) (pv y (x / 2))
          (y_bytes y x) (u_bytes y (x / 2)) (v_bytes y (x / 2)) in
      let step : x * planes + planes ≤ (x + 1) * planes =
        apart x (x + 1) planes (omega arith) three in
      (
        made,
        rw pixel e,
        (λ x' k lo hi h. elim (ℕ_discrete x x') [
          | yes same ↦
              rw (← same)
                (before (x * planes + k) (omega arith) ∙ unfold write_pixel in ground arith)
          | no other ↦ pixels x' k (omega arith) (omega arith) h
        ]),
        (λ i h. before i (omega arith) ∙ unfold write_pixel in ground arith),
        (λ j i h. rows j i h ∙ unfold write_pixel in ground arith),
      )

  -- The loop over the rows does not fail, and writes each pixel, within its rows alone.
  pub rows_made :
      (width n y : ℕ) (dst : Plane)
      → (made : Plane) × (rgb_rows
            (setup_parameters matrix_coefficients straight)
            convert_table
            planes
            width
            n
            y
            py
            pu
            pv
            dst
          ≡ some made)
        × ((y' x k : ℕ)
            → y ≤ y'
            → y' < y + n
            → x < width
            → k < 3
            → made y' (x * planes + k) ≡ channel k (converted y' x))
        × ((j i : ℕ) → (j < y) ⊎ (y + n ≤ j) → made j i ≡ dst j i)
  unfolding rgb_rows
  rows_made width zero y dst =
      (dst, refl, (λ y' x k lo hi w h. absurd (omega arith)), (λ j i h. refl))
  rows_made width (suc n) y dst =
      let (row, e, pixels, _, others) = row_made width 0 y dst in
      let (made, rest, below, outside) = rows_made width n (y + 1) row in
      (
        made,
        rw e rest,
        (λ y' x k lo hi w h. elim (ℕ_discrete y y') [
          | yes same ↦ rw (← same) (
              outside y (x * planes + k) (inl (omega arith))
              ∙ pixels x k (omega arith) (omega arith) h)
          | no other ↦ below y' x k (omega arith) (omega arith) w h
        ]),
        (λ j i h. outside j i (omega arith) ∙ others j i (λ same. absurd (omega arith))),
      )
