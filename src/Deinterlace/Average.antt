-- ===== src/Deinterlace/Average.antt =====
-- The word arithmetic of src/Blend.h averages the four bytes of a word apart, rounding down.
use Prim.Native.Nat.{min, bit_and, bit_xor, differ}
use native.Mathlib.Nat.{pow-suc, mod-eq_of_lt}
use tvtest_video_decoder.Base.{
  ℕ, zero, suc, ◌+◌, ◌-◌, ◌*◌, ◌/◌, ◌%◌, ◌^◌, ◌<◌, ◌≡◌, refl, ◌∙◌, arith,
}
use tvtest_video_decoder.Base.Bits.{
  bit_and-IsDigitwise, bit_xor-IsDigitwise, word, word-digitwise, bit_and-ones,
}
use tvtest_video_decoder.Deinterlace.{average_word, average_word3}

digit_sum : (x y : ℕ) → x < 2 → y < 2 → min x y * 2 + differ x y ≡ x + y
digit_sum zero zero h k = refl
digit_sum zero (suc zero) h k = refl
digit_sum (suc zero) zero h k = refl
digit_sum (suc zero) (suc zero) h k = refl
digit_sum zero (suc (suc y)) h k = absurd (omega arith)
digit_sum (suc zero) (suc (suc y)) h k = absurd (omega arith)
digit_sum (suc (suc x)) y h k = absurd (omega arith)

-- The digits that two numbers share count twice in their sum.
and-xor-sum : (w a b : ℕ) → a < 2 ^ w → b < 2 ^ w → bit_and a b * 2 + bit_xor a b ≡ a + b
and-xor-sum zero zero zero h k = refl
and-xor-sum zero zero (suc b) h k = absurd (omega arith)
and-xor-sum zero (suc a) b h k = absurd (omega arith)
and-xor-sum (suc w) a b h k = omega (
  arith,
  bit_and-IsDigitwise.step a b,
  bit_xor-IsDigitwise.step a b,
  digit_sum (a % 2) (b % 2) (omega arith) (omega arith),
  and-xor-sum w (a / 2) (b / 2) (omega (arith, pow-suc 2 w)) (omega (arith, pow-suc 2 w)),
)

-- `& 0xfe` clears the lowest digit of a byte.
and_ones : (w a : ℕ) → a < 2 ^ w → bit_and a (2 ^ w - 1) ≡ a
and_ones w a h = bit_and-ones w w a h ∙ mod-eq_of_lt h

clear_lowest : (a : ℕ) → a < 256 → bit_and a 254 ≡ a / 2 * 2
clear_lowest a h = omega (arith, bit_and-IsDigitwise.step a 254, and_ones 7 (a / 2) (omega arith))

digit-lt : (x y : ℕ) → x < 2 → y < 2 → differ x y < 2
digit-lt x y h k = omega (arith, digit_sum x y h k)

xor-lt : (w a b : ℕ) → a < 2 ^ w → b < 2 ^ w → bit_xor a b < 2 ^ w
xor-lt zero zero zero h k = omega arith
xor-lt zero zero (suc b) h k = absurd (omega arith)
xor-lt zero (suc a) b h k = absurd (omega arith)
xor-lt (suc w) a b h k = omega (
  arith,
  bit_xor-IsDigitwise.step a b,
  pow-suc 2 w,
  digit-lt (a % 2) (b % 2) (omega arith) (omega arith),
  xor-lt w (a / 2) (b / 2) (omega (arith, pow-suc 2 w)) (omega (arith, pow-suc 2 w)),
)

-- The mask and the shift halve each byte.
masked :
    (x3 x2 x1 x0 : ℕ)
    → x3 < 256
    → (x2 < 256) × (x1 < 256) × (x0 < 256)
    → bit_and (word x3 x2 x1 x0) 0xfefefefe / 2 ≡ word (x3 / 2) (x2 / 2) (x1 / 2) (x0 / 2)
masked x3 x2 x1 x0 h k =
    let each : bit_and (word x3 x2 x1 x0) (word 254 254 254 254)
        ≡ word (bit_and x3 254) (bit_and x2 254) (bit_and x1 254) (bit_and x0 254) =
      word-digitwise bit_and-IsDigitwise x3 x2 x1 x0 254 254 254 254 k
        (omega arith, omega arith, omega arith) in
    omega (
      arith,
      each,
      clear_lowest x3 h,
      clear_lowest x2 k.0,
      clear_lowest x1 k.1,
      clear_lowest x0 k.2,
    )

-- The word arithmetic of BlendRow2 gives in each byte the average of the two bytes, rounded down,
-- with no carry between the bytes.
pub average_word-bytes :
    (a3 a2 a1 a0 b3 b2 b1 b0 : ℕ)
    → (a3 < 256) × (a2 < 256) × (a1 < 256) × (a0 < 256)
    → (b3 < 256) × (b2 < 256) × (b1 < 256) × (b0 < 256)
    → average_word (word a3 a2 a1 a0) (word b3 b2 b1 b0)
      ≡ word ((a3 + b3) / 2) ((a2 + b2) / 2) ((a1 + b1) / 2) ((a0 + b0) / 2)
unfolding average_word
average_word-bytes a3 a2 a1 a0 b3 b2 b1 b0 h k =
    let low : (bit_xor a2 b2 < 256) × (bit_xor a1 b1 < 256) × (bit_xor a0 b0 < 256) =
      (xor-lt 8 a2 b2 h.1 k.1, xor-lt 8 a1 b1 h.2 k.2, xor-lt 8 a0 b0 h.3 k.3) in
    rw
      (
        word-digitwise bit_and-IsDigitwise a3 a2 a1 a0 b3 b2 b1 b0 (h.1, h.2, h.3) (k.1, k.2, k.3),
        word-digitwise bit_xor-IsDigitwise a3 a2 a1 a0 b3 b2 b1 b0 (h.1, h.2, h.3) (k.1, k.2, k.3),
        masked (bit_xor a3 b3) (bit_xor a2 b2) (bit_xor a1 b1) (bit_xor a0 b0)
            (xor-lt 8 a3 b3 h.0 k.0) low,
      )
      (omega (
        arith,
        and-xor-sum 8 a3 b3 h.0 k.0,
        and-xor-sum 8 a2 b2 h.1 k.1,
        and-xor-sum 8 a1 b1 h.2 k.2,
        and-xor-sum 8 a0 b0 h.3 k.3,
      ))

average_bound : (a b : ℕ) → a < 256 → b < 256 → (a + b) / 2 < 256
average_bound a b h k = omega arith

-- The word of BlendRow3 has in each byte the average of the middle byte and of the average of the
-- outer bytes, both rounded down.
pub average_word3-bytes :
    (a3 a2 a1 a0 b3 b2 b1 b0 c3 c2 c1 c0 : ℕ)
    → (a3 < 256) × (a2 < 256) × (a1 < 256) × (a0 < 256)
    → (b3 < 256) × (b2 < 256) × (b1 < 256) × (b0 < 256)
    → (c3 < 256) × (c2 < 256) × (c1 < 256) × (c0 < 256)
    → average_word3 (word a3 a2 a1 a0) (word b3 b2 b1 b0) (word c3 c2 c1 c0)
      ≡ word
          (((a3 + c3) / 2 + b3) / 2)
          (((a2 + c2) / 2 + b2) / 2)
          (((a1 + c1) / 2 + b1) / 2)
          (((a0 + c0) / 2 + b0) / 2)
unfolding average_word3
average_word3-bytes a3 a2 a1 a0 b3 b2 b1 b0 c3 c2 c1 c0 h k l =
    rw (average_word-bytes a3 a2 a1 a0 c3 c2 c1 c0 h l) (
      average_word-bytes ((a3 + c3) / 2) ((a2 + c2) / 2) ((a1 + c1) / 2) ((a0 + c0) / 2) b3 b2 b1 b0
        (
          average_bound a3 c3 h.0 l.0,
          average_bound a2 c2 h.1 l.1,
          average_bound a1 c1 h.2 l.2,
          average_bound a0 c0 h.3 l.3,
        )
        k)
