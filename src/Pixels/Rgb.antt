-- ===== src/Pixels/Rgb.antt =====
-- The conversion to RGB of src/PixelFormatConvert.cpp on its portable path.
use tvtest_video_decoder.Base.{
  ℕ, zero, suc, ◌+◌, ◌-◌, ◌*◌, ◌/◌, Bool, ◌&&◌, List, [], ◌∷◌, Option, none, some, ◌==◌, ltb,
  get_or, if◌then◌else◌,
}
use tvtest_video_decoder.Base.Int.{ℤ, pos, negsuc, ◌+ℤ◌, ◌-ℤ◌, ◌*ℤ◌, fdiv}
use tvtest_video_decoder.Pixels.{◌>>=◌}
use tvtest_video_decoder.Pixels.Upsample.{Plane}

-- RGBParameters
pub record Coefficients : Type 0 where
  pub rv : ℤ
  pub gu : ℤ
  pub gv : ℤ
  pub bu : ℤ

pub record Parameters : Type 0 where
  pub y_offset : ℕ
  pub y_gain : ℕ
  pub coefficients : Coefficients
  pub open coefficients use *

-- A row of RGBTable: `- k` is written `negsuc (k - 1)`.
abbrev table_row : ℕ → ℕ → ℕ → ℕ → ℕ → ℕ → ℕ → ℕ → Coefficients × Coefficients
table_row rv gu gv bu rv' gu' gv' bu' = (
  record { rv = pos rv; gu = negsuc (gu - 1); gv = negsuc (gv - 1); bu = pos bu },
  record { rv = pos rv'; gu = negsuc (gu' - 1); gv = negsuc (gv' - 1); bu = pos bu' },
)

abbrev no_description : Coefficients × Coefficients
no_description = table_row 117504 13954 34903 138453 103219 12257 30659 121621

abbrev unspecified : Coefficients × Coefficients
unspecified = table_row 104597 25675 53279 132201 91881 22553 46801 116129

unfoldable pub rgb_table : List (Coefficients × Coefficients)
rgb_table =
    no_description
    ∷ no_description
    ∷ unspecified
    ∷ unspecified
    ∷ table_row 104448 24759 53109 132798 91750 21749 46652 116654
    ∷ unspecified
    ∷ unspecified
    ∷ table_row 117579 16907 35559 136230 103284 14851 31235 119668
    ∷ []

-- SetupYUVToRGBConvertParametersMPEG2
unfoldable pub setup_parameters : ℕ → Bool → Parameters
unfolding rgb_table
setup_parameters matrix_coefficients straight =
    let row =
      get_or rgb_table (if ltb matrix_coefficients 8 then matrix_coefficients else 0)
        no_description in
    record {
      y_offset = if straight then 0 else 16;
      y_gain = if straight then 65536 else 76309;
      coefficients = if straight then row.1 else row.0;
    }

-- Entry `i` of the table that SetupYUVToRGBConvertTable writes.
unfoldable pub convert_table : ℕ → ℕ
convert_table i = if ltb i 384 then 0 else if ltb i (384 + 256) then i - 384 else 255

-- `pTable[YUV_RGB_TABLE_OFFSET + (t >> 16)]`; `none` is a read outside the table of 1024 bytes.
unfoldable pub look_up : (ℕ → ℕ) → ℤ → Option ℕ
look_up table t = elim (pos 384 +ℤ fdiv t 65536) [
  | pos i ↦ if ltb i 1024 then some (table i) else none
  | negsuc i ↦ none
]

-- The sums that the three channels look up.
unfoldable pub luma_term : Parameters → ℕ → ℤ
luma_term p y = pos p.y_gain *ℤ (pos y -ℤ pos p.y_offset)

unfoldable pub blue_sum : Parameters → ℕ → ℕ → ℕ → ℤ
blue_sum p y u v = luma_term p y +ℤ p.bu *ℤ (pos u -ℤ pos 128)

unfoldable pub green_sum : Parameters → ℕ → ℕ → ℕ → ℤ
green_sum p y u v = luma_term p y +ℤ p.gu *ℤ (pos u -ℤ pos 128) +ℤ p.gv *ℤ (pos v -ℤ pos 128)

unfoldable pub red_sum : Parameters → ℕ → ℕ → ℕ → ℤ
red_sum p y u v = luma_term p y +ℤ p.rv *ℤ (pos v -ℤ pos 128)

-- Blue, green and red of a pixel.
unfoldable pub rgb_pixel : Parameters → (ℕ → ℕ) → ℕ → ℕ → ℕ → Option (ℕ × ℕ × ℕ)
rgb_pixel p table y u v = do
  b ← look_up table (blue_sum p y u v)
  g ← look_up table (green_sum p y u v)
  r ← look_up table (red_sum p y u v)
  some (b, g, r)

-- `q[0]`, `q[1]` and `q[2]` for the row `y`.
unfoldable pub write_pixel : ℕ → ℕ → ℕ × ℕ × ℕ → Plane → Plane
write_pixel y q (b, g, r) dst j i =
    if j == y && i == q
    then b
    else if j == y && i == q + 1
    then g
    else if j == y && i == q + 2
    then r
    else dst j i

-- The loop of PixelCopyI422ToRGB over a row, with `n` pixels left, at the pixel `x`.
unfoldable pub rgb_row :
    Parameters → (ℕ → ℕ) → ℕ → ℕ → ℕ → ℕ → Plane → Plane → Plane → Plane → Option Plane
unfolding write_pixel
rgb_row p table planes zero x y py pu pv dst = some dst
rgb_row p table planes (suc n) x y py pu pv dst =
    rgb_pixel p table (py y x) (pu y (x / 2)) (pv y (x / 2)) >>= λ pixel.
    rgb_row p table planes n (x + 1) y py pu pv (write_pixel y (x * planes) pixel dst)

-- The loop over the rows, with `n` rows left, at the row `y`.
unfoldable pub rgb_rows :
    Parameters → (ℕ → ℕ) → ℕ → ℕ → ℕ → ℕ → Plane → Plane → Plane → Plane → Option Plane
unfolding rgb_row
rgb_rows p table planes width zero y py pu pv dst = some dst
rgb_rows p table planes width (suc n) y py pu pv dst =
    rgb_row p table planes width 0 y py pu pv dst >>= λ made.
    rgb_rows p table planes width n (y + 1) py pu pv made
