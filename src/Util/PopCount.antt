-- ===== src/Util/PopCount.antt =====
-- PopCount of src/Util.h: a count of set bits by sums within the word.
use Prim.Native.Nat.{bit_and}
use Prim.Native.Nat.add
use native.Mathlib.Nat.{pow-suc}
use tvtest_video_decoder.Base.{
  ℕ, zero, suc, ◌+◌, ◌-◌, ◌*◌, ◌/◌, ◌%◌, ◌^◌, ◌≤◌, ◌<◌, ◌≡◌, refl, arith, true, ◌&&◌, ◌==◌, leb,
  ==_iff,
}
use tvtest_video_decoder.Base.Bits.{
  halve_fields, check_below, check_below-lt, bit_and-IsDigitwise, word, word-digitwise, bytes_of,
}

-- `v - ((v >> 1) & 0x55555555)` on uint32_t.
pairs : ℕ → ℕ
pairs v = (v + 2 ^ 32 - bit_and (v / 2) 0x55555555) % 2 ^ 32

-- `(v & 0x33333333) + ((v >> 2) & 0x33333333)`
nibbles : ℕ → ℕ
nibbles v = (bit_and v 0x33333333 + bit_and (v / 4) 0x33333333) % 2 ^ 32

-- `(((v + (v >> 4)) & 0x0F0F0F0F) * 0x01010101) >> 24`
byte_sum : ℕ → ℕ
byte_sum v = bit_and ((v + v / 16) % 2 ^ 32) 0x0F0F0F0F * 0x01010101 % 2 ^ 32 / 2 ^ 24

unfoldable pub pop_count : ℕ → ℕ
unfolding pairs nibbles byte_sum
pop_count v = byte_sum (nibbles (pairs v))

-- The set bits among the lowest `n`.
unfoldable pub ones : ℕ → ℕ → ℕ
ones zero v = 0
ones (suc n) v = v % 2 + ones n (v / 2)

-- What each stage makes of a byte.
pairs8 : ℕ → ℕ
pairs8 x = x - bit_and (x / 2) 0x55

nibbles8 : ℕ → ℕ
nibbles8 x = bit_and x 0x33 + bit_and (x / 4) 0x33

pairs_table :
    check_below 512 (λ y.
      leb (bit_and (y % 256 / 2) 0x55) (y % 256)
      && bit_and (y % 256 / 2 + 128 * (y / 256)) 0x55 == bit_and (y % 256 / 2) 0x55)
    ≡ true
unfolding check_below
pairs_table = refl

-- The bit that the shift brings in from the next byte is masked off.
pairs_byte :
    (x c : ℕ)
    → x < 256
    → c < 2
    → (bit_and (x / 2) 0x55 ≤ x) × (bit_and (x / 2 + 128 * c) 0x55 ≡ bit_and (x / 2) 0x55)
pairs_byte x c h k =
    let e : (x + 256 * c) % 256 ≡ x = omega arith in
    let d : (x + 256 * c) / 256 ≡ c = omega arith in
    let t = check_below-lt 512 _ (x + 256 * c) pairs_table (omega arith) in
    ground (arith, rw (e, d) at t)

nibbles_table :
    check_below 1024
      (λ y. bit_and (y % 256 / 4 + 64 * (y / 256)) 0x33 == bit_and (y % 256 / 4) 0x33)
    ≡ true
unfolding check_below
nibbles_table = refl

nibbles_byte : (x c : ℕ) → x < 256 → c < 4 → bit_and (x / 4 + 64 * c) 0x33 ≡ bit_and (x / 4) 0x33
nibbles_byte x c h k =
    let e : (x + 256 * c) % 256 ≡ x = omega arith in
    let d : (x + 256 * c) / 256 ≡ c = omega arith in
    let t = check_below-lt 1024 _ (x + 256 * c) nibbles_table (omega arith) in
    ground (arith, rw (e, d) at t)

low_table : check_below 256 (λ x. bit_and x 0x0F == x % 16) ≡ true
unfolding check_below
low_table = refl

low_nibble : (x : ℕ) → x < 256 → bit_and x 0x0F ≡ x % 16
low_nibble x h = (==_iff _ _).0 (check_below-lt 256 _ x low_table h)

-- A byte after two stages holds two counts, each at most 4; their sum is the count of the byte.
nibble_table :
    check_below 256 (λ x.
      leb (nibbles8 (pairs8 x) / 16) 4
      && leb (nibbles8 (pairs8 x) % 16) 4
      && nibbles8 (pairs8 x) / 16 + nibbles8 (pairs8 x) % 16 == ones 8 x)
    ≡ true
unfolding check_below nibbles8 pairs8 ones
nibble_table = refl

nibble_counts :
    (x : ℕ)
    → x < 256
    → (nibbles8 (pairs8 x) / 16 ≤ 4)
      × (nibbles8 (pairs8 x) % 16 ≤ 4)
      × (nibbles8 (pairs8 x) / 16 + nibbles8 (pairs8 x) % 16 ≡ ones 8 x)
nibble_counts x h = let t = check_below-lt 256 _ x nibble_table h in ground (arith, t)

pairs8-lt : (x : ℕ) → x < 256 → pairs8 x < 256
unfolding pairs8
pairs8-lt x h = omega arith

pairs-word :
    (b3 b2 b1 b0 : ℕ)
    → (b3 < 256) × (b2 < 256) × (b1 < 256) × (b0 < 256)
    → pairs (word b3 b2 b1 b0) ≡ word (pairs8 b3) (pairs8 b2) (pairs8 b1) (pairs8 b0)
unfolding pairs pairs8
pairs-word b3 b2 b1 b0 h =
    let e : word b3 b2 b1 b0 / 2
        ≡ word (b3 / 2) (b2 / 2 + 128 * (b3 % 2)) (b1 / 2 + 128 * (b2 % 2))
            (b0 / 2 + 128 * (b1 % 2)) =
      omega arith in
    rw
      (
        e,
        word-digitwise bit_and-IsDigitwise (b3 / 2) (b2 / 2 + 128 * (b3 % 2))
            (b1 / 2 + 128 * (b2 % 2)) (b0 / 2 + 128 * (b1 % 2)) 0x55 0x55 0x55 0x55 (omega arith)
            (omega arith),
        (pairs_byte b2 (b3 % 2) h.1 (omega arith)).1,
        (pairs_byte b1 (b2 % 2) h.2 (omega arith)).1,
        (pairs_byte b0 (b1 % 2) h.3 (omega arith)).1,
      )
      (omega (
        arith,
        (pairs_byte b3 0 h.0 (omega arith)).0,
        (pairs_byte b2 0 h.1 (omega arith)).0,
        (pairs_byte b1 0 h.2 (omega arith)).0,
        (pairs_byte b0 0 h.3 (omega arith)).0,
      ))

masked_table :
    check_below 256 (λ x. leb (bit_and x 0x33) 51 && leb (bit_and (x / 4) 0x33) 51) ≡ true
unfolding check_below
masked_table = refl

masked_small : (x : ℕ) → x < 256 → (bit_and x 0x33 ≤ 51) × (bit_and (x / 4) 0x33 ≤ 51)
masked_small x h = let t = check_below-lt 256 _ x masked_table h in ground (arith, t)

nibbles-word :
    (b3 b2 b1 b0 : ℕ)
    → (b3 < 256) × (b2 < 256) × (b1 < 256) × (b0 < 256)
    → nibbles (word b3 b2 b1 b0) ≡ word (nibbles8 b3) (nibbles8 b2) (nibbles8 b1) (nibbles8 b0)
unfolding nibbles nibbles8
nibbles-word b3 b2 b1 b0 h =
    let e : word b3 b2 b1 b0 / 4
        ≡ word (b3 / 4) (b2 / 4 + 64 * (b3 % 4)) (b1 / 4 + 64 * (b2 % 4)) (b0 / 4 + 64 * (b1 % 4)) =
      omega arith in
    rw
      (
        e,
        word-digitwise bit_and-IsDigitwise (b3 / 4) (b2 / 4 + 64 * (b3 % 4))
            (b1 / 4 + 64 * (b2 % 4)) (b0 / 4 + 64 * (b1 % 4)) 0x33 0x33 0x33 0x33 (omega arith)
            (omega arith),
        word-digitwise bit_and-IsDigitwise b3 b2 b1 b0 0x33 0x33 0x33 0x33 (omega arith)
            (omega arith),
        nibbles_byte b2 (b3 % 4) h.1 (omega arith),
        nibbles_byte b1 (b2 % 4) h.2 (omega arith),
        nibbles_byte b0 (b1 % 4) h.3 (omega arith),
      )
      (omega
        (arith, masked_small b3 h.0, masked_small b2 h.1, masked_small b1 h.2, masked_small b0 h.3))

byte_sum-word :
    (n3 n2 n1 n0 : ℕ)
    → (n3 / 16 ≤ 4) × (n2 / 16 ≤ 4) × (n1 / 16 ≤ 4) × (n0 / 16 ≤ 4)
    → (n3 % 16 ≤ 4) × (n2 % 16 ≤ 4) × (n1 % 16 ≤ 4) × (n0 % 16 ≤ 4)
    → byte_sum (word n3 n2 n1 n0)
      ≡ (n3 / 16 + n3 % 16) + (n2 / 16 + n2 % 16) + (n1 / 16 + n1 % 16) + (n0 / 16 + n0 % 16)
unfolding byte_sum
byte_sum-word n3 n2 n1 n0 h k =
    let m2 : ℕ = n2 + n2 / 16 + 16 * (n3 % 16) in
    let m1 : ℕ = n1 + n1 / 16 + 16 * (n2 % 16) in
    let m0 : ℕ = n0 + n0 / 16 + 16 * (n1 % 16) in
    let e : (word n3 n2 n1 n0 + word n3 n2 n1 n0 / 16) % 2 ^ 32 ≡ word (n3 + n3 / 16) m2 m1 m0 =
      omega arith in
    rw
      (
        e,
        word-digitwise bit_and-IsDigitwise (n3 + n3 / 16) m2 m1 m0 0x0F 0x0F 0x0F 0x0F (omega arith)
            (omega arith),
        low_nibble (n3 + n3 / 16) (omega arith),
        low_nibble m2 (omega arith),
        low_nibble m1 (omega arith),
        low_nibble m0 (omega arith),
      )
      (omega arith)

-- The set bits of a word are those of its low part and those of the rest.
pub ones-fields : (n m q r : ℕ) → r < 2 ^ n → ones (n + m) (q * 2 ^ n + r) ≡ ones n r + ones m q
unfolding ones
ones-fields zero m q zero h =
    let e : q * 2 ^ 0 + 0 ≡ q = omega arith in rw (add.zero m, e) (omega arith)
ones-fields zero m q (suc r) h = absurd (omega arith)
ones-fields (suc n) m q r h =
    rw (add.suc n m, (halve_fields n q r).0, (halve_fields n q r).1)
      (omega (arith, ones-fields n m q (r / 2) (omega (arith, pow-suc 2 n))))

ones-word :
    (b3 b2 b1 b0 : ℕ)
    → (b3 < 256) × (b2 < 256) × (b1 < 256) × (b0 < 256)
    → ones 32 (word b3 b2 b1 b0) ≡ ones 8 b3 + ones 8 b2 + ones 8 b1 + ones 8 b0
ones-word b3 b2 b1 b0 h = omega (
  arith,
  ones-fields 8 24 ((b3 * 256 + b2) * 256 + b1) b0 h.3,
  ones-fields 8 16 (b3 * 256 + b2) b1 h.2,
  ones-fields 8 8 b3 b2 h.1,
)

-- PopCount returns the number of bits set, for every 32-bit word.
pub pop_count-ones : (v : ℕ) → v < 2 ^ 32 → pop_count v ≡ ones 32 v
unfolding pop_count
pop_count-ones v h =
    let (b3, b2, b1, b0, e, k3, k2, k1, k0) = bytes_of v h in
    let (h3, l3, s3) = nibble_counts b3 k3 in
    let (h2, l2, s2) = nibble_counts b2 k2 in
    let (h1, l1, s1) = nibble_counts b1 k1 in
    let (h0, l0, s0) = nibble_counts b0 k0 in
    rw (
      e,
      pairs-word b3 b2 b1 b0 (k3, k2, k1, k0),
      nibbles-word (pairs8 b3) (pairs8 b2) (pairs8 b1) (pairs8 b0)
          (pairs8-lt b3 k3, pairs8-lt b2 k2, pairs8-lt b1 k1, pairs8-lt b0 k0),
      byte_sum-word _ _ _ _ (h3, h2, h1, h0) (l3, l2, l1, l0),
      s3,
      s2,
      s1,
      s0,
      ones-word b3 b2 b1 b0 (k3, k2, k1, k0),
    )
