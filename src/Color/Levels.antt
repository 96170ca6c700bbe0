-- ===== src/Color/Levels.antt =====
-- What the lookup tables of src/ColorAdjustment.cpp hold.
use native.Mathlib.Nat.{mul-le-mul_left}
use tvtest_video_decoder.Base.{ℕ, suc, ◌<◌, ◌≤◌, ◌≡◌, refl, arith, true, ◌==◌, ==_iff}
use tvtest_video_decoder.Base.Int.{
  ℤ, pos, negsuc, pos_part, ◌+ℤ◌, ◌-ℤ◌, ◌*ℤ◌, ◌≤ℤ◌, tdiv, fdiv, clamp, fdiv_mono, clamp_mono,
  +ℤ_mono, int_laws,
}
use tvtest_video_decoder.Base.Bits.{check_below, check_below-lt}
use tvtest_video_decoder.Color.{gain, offset, y_entry, uv_entry}
use tvtest_video_decoder.Color.Sse2.{gain_bounds}

-- A product with a factor that is not negative.
*ℤ_mono : (g : ℕ) (a b : ℤ) → a ≤ℤ b → pos g *ℤ a ≤ℤ pos g *ℤ b
unfolding ◌*ℤ◌
*ℤ_mono g (pos a) (pos b) h = ground (arith, mul-le-mul_left {m = a} {n = b} g)
*ℤ_mono g (pos a) (negsuc b) h = absurd (omega arith)
*ℤ_mono g (negsuc a) (pos b) h = ground arith
*ℤ_mono g (negsuc a) (negsuc b) h = ground (arith, mul-le-mul_left {m = suc b} {n = suc a} g)

nonneg : (g : ℤ) → pos 0 ≤ℤ g → g ≡ pos (pos_part g)
nonneg g h = ground arith

pos_part_mono : (a b : ℤ) → a ≤ℤ b → pos_part a ≤ pos_part b
pos_part_mono (pos a) (pos b) h = omega arith
pos_part_mono (pos a) (negsuc b) h = absurd (omega arith)
pos_part_mono (negsuc a) b h = omega arith

-- A brighter pixel stays at least as bright, for every contrast in range.
pub y_entry_mono :
    (brightness contrast : ℤ) (i j : ℕ)
    → negsuc 99 ≤ℤ contrast
    → contrast ≤ℤ pos 100
    → i ≤ j
    → y_entry brightness contrast i ≤ y_entry brightness contrast j
unfolding y_entry
y_entry_mono brightness contrast i j lo hi h =
    let g : ℕ = pos_part (gain contrast) in
    let b = offset brightness in
    let t = λ (k : ℕ). pos g *ℤ (pos k -ℤ pos 16) in
    let l = λ (k : ℕ). fdiv (t k) 512 +ℤ b in
    rw (nonneg (gain contrast) (gain_bounds contrast lo hi).0) (
      pos_part_mono (clamp (l i +ℤ pos 16) (pos 0) (pos 255))
        (clamp (l j +ℤ pos 16) (pos 0) (pos 255))
        (clamp_mono (l i +ℤ pos 16) (l j +ℤ pos 16) (pos 0) (pos 255) (omega arith) (
          +ℤ_mono (l i) (l j) (pos 16) (pos 16)
            (+ℤ_mono (fdiv (t i) 512) (fdiv (t j) 512) b b
              (fdiv_mono (t i) (t j) 511
                (*ℤ_mono g (pos i -ℤ pos 16) (pos j -ℤ pos 16) (omega int_laws)))
              (omega arith))
            (omega arith))))

in_byte :
    (a : ℤ) (lo hi : ℕ)
    → lo ≤ hi
    → (lo ≤ pos_part (clamp a (pos lo) (pos hi))) × (pos_part (clamp a (pos lo) (pos hi)) ≤ hi)
unfolding clamp
in_byte a lo hi h = ground arith

-- Every entry of the luma table is a byte, and every entry of the chroma table lies in the legal
-- range of 16 to 235.
pub entries_in_range :
    (brightness contrast saturation : ℤ) (turn : ℤ × ℤ) (i : ℕ)
    → (y_entry brightness contrast i < 256)
      × ((16 ≤ (uv_entry turn saturation i).0) × ((uv_entry turn saturation i).0 ≤ 235))
      × ((16 ≤ (uv_entry turn saturation i).1) × ((uv_entry turn saturation i).1 ≤ 235))
unfolding y_entry uv_entry
entries_in_range brightness contrast saturation turn i = (
  omega (arith, in_byte _ 0 255 (omega arith)),
  in_byte _ 16 235 (omega arith),
  in_byte _ 16 235 (omega arith),
)

neutral_table : check_below 256 (λ i. y_entry (pos 0) (pos 0) i == i) ≡ true
unfolding check_below y_entry ◌+ℤ◌ ◌-ℤ◌ ◌*ℤ◌ tdiv fdiv clamp
neutral_table = refl

-- With brightness and contrast at 0 the luma table is the identity on bytes.
pub y_entry_neutral : (i : ℕ) → i < 256 → y_entry (pos 0) (pos 0) i ≡ i
y_entry_neutral i h = (==_iff _ i).0 (check_below-lt 256 _ i neutral_table h)
