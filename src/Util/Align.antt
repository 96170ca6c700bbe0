-- ===== src/Util/Align.antt =====
-- Rounding up to a power of 2 by a mask: RowBytes of src/FrameBuffer.cpp and GetDXVASurfaceSize of
-- src/Util.cpp.
use Prim.Native.Nat.{bit_and}
use native.Mathlib.Nat.{mod-eq_of_lt}
use tvtest_video_decoder.Base.{
  ℕ, ◌+◌, ◌-◌, ◌*◌, ◌/◌, ◌%◌, ◌^◌, ◌<◌, ◌≤◌, ◌≡◌, arith, Bool, true, false, if◌then◌else◌,
}
use tvtest_video_decoder.Base.Bits.{
  bit_and-IsDigitwise, fields-digitwise, bit_and-ones, bit_and-zero,
}

-- `(x + (a - 1)) & ~(a - 1)` on a non-negative 32-bit int.
unfoldable pub align_up : ℕ → ℕ → ℕ
align_up a x = bit_and (x + (a - 1)) (2 ^ 32 - a)

-- `(Width + 31) & ~31`
unfoldable pub row_bytes : ℕ → ℕ
row_bytes width = align_up 32 width

pub record Size : Type 0 where
  pub cx : ℕ
  pub cy : ℕ

unfoldable pub get_dxva_surface_size : Size → Bool → Size
get_dxva_surface_size size mpeg2 =
    let align : ℕ = if mpeg2 then 32 else 16 in
    record { cx = align_up align size.cx; cy = align_up align size.cy }

-- Clearing the low 5 or 4 bits.
clear_low :
    (k m q r : ℕ)
    → q < 2 ^ m
    → r < 2 ^ k
    → bit_and (q * 2 ^ k + r) ((2 ^ m - 1) * 2 ^ k + 0) ≡ q * 2 ^ k
clear_low k m q r hq hr =
    rw
      (
        fields-digitwise bit_and-IsDigitwise k q (2 ^ m - 1) r 0 hr (omega arith),
        bit_and-ones m m q hq,
        mod-eq_of_lt hq,
        bit_and-zero k r hr,
      )
      (omega arith)

pub align_up-32 : (x : ℕ) → x + 31 < 2 ^ 32 → align_up 32 x ≡ (x + 31) / 32 * 32
unfolding align_up
align_up-32 x h =
    let e : (x + 31) / 32 * 2 ^ 5 + (x + 31) % 32 ≡ x + 31 = omega arith in
    rw e at (clear_low 5 27 ((x + 31) / 32) ((x + 31) % 32) (omega arith) (omega arith))

pub align_up-16 : (x : ℕ) → x + 15 < 2 ^ 32 → align_up 16 x ≡ (x + 15) / 16 * 16
unfolding align_up
align_up-16 x h =
    let e : (x + 15) / 16 * 2 ^ 4 + (x + 15) % 16 ≡ x + 15 = omega arith in
    rw e at (clear_low 4 28 ((x + 15) / 16) ((x + 15) % 16) (omega arith) (omega arith))

-- A row holds the pixels, in whole units of 32 bytes, with less than one unit to spare.
pub row_bytes_bounds :
    (width : ℕ)
    → width < 2 ^ 31
    → (width ≤ row_bytes width) × (row_bytes width < width + 32) × (row_bytes width % 32 ≡ 0)
unfolding row_bytes
row_bytes_bounds width h = omega (arith, align_up-32 width (omega arith))

-- GetDXVASurfaceSize returns the least multiple of the alignment, 32 for MPEG-2 and else 16, that
-- holds each side, for sides below 2 ^ 31.
pub get_dxva_surface_size-least :
    (size : Size) (mpeg2 : Bool)
    → size.cx < 2 ^ 31
    → size.cy < 2 ^ 31
    → let align : ℕ = if mpeg2 then 32 else 16 in
      let s = get_dxva_surface_size size mpeg2 in
      (s.cx % align ≡ 0)
      × (size.cx ≤ s.cx)
      × (s.cx < size.cx + align)
      × (s.cy % align ≡ 0)
      × (size.cy ≤ s.cy)
      × (s.cy < size.cy + align)
unfolding get_dxva_surface_size
get_dxva_surface_size-least size true hx hy =
    omega (arith, align_up-32 size.cx (omega arith), align_up-32 size.cy (omega arith))
get_dxva_surface_size-least size false hx hy =
    omega (arith, align_up-16 size.cx (omega arith), align_up-16 size.cy (omega arith))
