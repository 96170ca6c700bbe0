-- ===== src/Base/Bits.antt =====
-- `&`, `|` and `^` of the source on words at variables: the recurrence on the lowest binary digit,
-- and the law that a word splits into fields that do not meet.
use Prim.Native.Nat.{
  min, max, bit_and, bit_or, bit_xor, digits, differ, bit_and-bitwise, bit_or-bitwise,
  bit_xor-bitwise,
}
use native.Mathlib.Nat.{
  pow-suc, one-le-pow, div-add-mod, mod-lt, mul-add-mod_self_right, mod-eq_of_lt,
}
use tvtest_video_decoder.Base.{
  ℕ, zero, suc, ◌+◌, ◌-◌, ◌*◌, ◌/◌, ◌%◌, ◌^◌, ◌≤◌, ◌<◌, ◌≡◌, refl, ap, ap₂, ◌∙◌, arith, Bool, true,
  ◌&&◌,
}

-- A finite table of cases, decided by evaluation.
unfoldable pub check_below : ℕ → (ℕ → Bool) → Bool
check_below zero test = true
check_below (suc n) test = test n && check_below n test

pub check_below-lt :
    (n : ℕ) (test : ℕ → Bool) (x : ℕ) → check_below n test ≡ true → x < n → test x ≡ true
unfolding check_below
check_below-lt zero test x e h = absurd (omega arith)
check_below-lt (suc n) test x e h = ground (arith, check_below-lt n test x)

one_unit : (a : ℕ) → a * 2 ^ 0 + 0 ≡ a
one_unit a = omega arith

-- An operation on words that works digit by digit.
pub record IsDigitwise (f op : ℕ → ℕ → ℕ) : Type 0 where
  pub at_zero : op 0 0 ≡ 0
  pub step : (a b : ℕ) → op a b ≡ op (a / 2) (b / 2) * 2 + f (a % 2) (b % 2)

module _ (z : ℕ → ℕ) (f : ℕ → ℕ → ℕ) where
  -- More digits than the number has change nothing.
  digits_enough : (n m a b : ℕ) → a ≤ n → a ≤ m → digits z f n a b ≡ digits z f m a b
  digits_enough zero zero a b h k = refl
  digits_enough zero (suc m) zero b h k = refl
  digits_enough zero (suc m) (suc a) b h k = absurd (omega arith)
  digits_enough (suc n) zero zero b h k = refl
  digits_enough (suc n) zero (suc a) b h k = absurd (omega arith)
  digits_enough (suc n) (suc m) zero b h k = refl
  digits_enough (suc n) (suc m) (suc a) b h k =
      ap (λ (t : ℕ). t * 2 + f (suc a % 2) (b % 2))
        (digits_enough n m (suc a / 2) (b / 2) (omega arith) (omega arith))

  digits_step :
      ((b : ℕ) → z b ≡ z (b / 2) * 2 + f 0 (b % 2))
      → (a b : ℕ) → digits z f a a b ≡ digits z f (a / 2) (a / 2) (b / 2) * 2 + f (a % 2) (b % 2)
  digits_step out zero b = out b
  digits_step out (suc a) b =
      ap (λ (t : ℕ). t * 2 + f (suc a % 2) (b % 2))
        (digits_enough a (suc a / 2) (suc a / 2) (b / 2) (omega arith) (omega arith))

pub bit_and-IsDigitwise : IsDigitwise min bit_and
bit_and-IsDigitwise = record {
  at_zero = refl;
  step = λ a b.
      rw (bit_and-bitwise a b, bit_and-bitwise (a / 2) (b / 2))
        (digits_step (λ b. zero) min (λ b. omega arith) a b);
}

pub bit_or-IsDigitwise : IsDigitwise max bit_or
bit_or-IsDigitwise = record {
  at_zero = refl;
  step = λ a b.
      rw (bit_or-bitwise a b, bit_or-bitwise (a / 2) (b / 2))
        (digits_step (λ b. b) max (λ b. omega arith) a b);
}

pub bit_xor-IsDigitwise : IsDigitwise differ bit_xor
bit_xor-IsDigitwise = record {
  at_zero = refl;
  step = λ a b.
      rw (bit_xor-bitwise a b, bit_xor-bitwise (a / 2) (b / 2))
        (digits_step (λ b. b) differ (λ b. omega arith) a b);
}

-- `a * 2 ^ suc k + r` without its lowest digit, and that digit.
pub halve_fields :
    (k a r : ℕ) → ((a * 2 ^ suc k + r) / 2 ≡ a * 2 ^ k + r / 2) × ((a * 2 ^ suc k + r) % 2 ≡ r % 2)
halve_fields k a r =
    let e : a * 2 ^ suc k ≡ 2 * (a * 2 ^ k) = omega (arith, ap (λ (t : ℕ). a * t) (pow-suc 2 k)) in
    (omega arith, omega arith)

module _ {f op : ℕ → ℕ → ℕ} (d : IsDigitwise f op) where
  -- The low `w` digits and the rest are worked on apart.
  pub fields-digitwise :
      (w a b r s : ℕ)
      → r < 2 ^ w
      → s < 2 ^ w
      → op (a * 2 ^ w + r) (b * 2 ^ w + s) ≡ op a b * 2 ^ w + op r s
  fields-digitwise zero a b zero zero h k =
      omega (arith, d.at_zero, ap₂ op (one_unit a) (one_unit b))
  fields-digitwise zero a b zero (suc s) h k = absurd (omega arith)
  fields-digitwise zero a b (suc r) s h k = absurd (omega arith)
  fields-digitwise (suc w) a b r s h k =
      rw
        (
          d.step (a * 2 ^ suc w + r) (b * 2 ^ suc w + s),
          (halve_fields w a r).0,
          (halve_fields w a r).1,
          (halve_fields w b s).0,
          (halve_fields w b s).1,
          fields-digitwise w a b (r / 2) (s / 2) (omega (arith, pow-suc 2 w))
              (omega (arith, pow-suc 2 w)),
          d.step r s,
        )
        (omega (arith, ap (λ (t : ℕ). op a b * t) (pow-suc 2 w)))

-- A 32-bit word of four bytes, the highest first.
abbrev pub word : ℕ → ℕ → ℕ → ℕ → ℕ
word b3 b2 b1 b0 = ((b3 * 256 + b2) * 256 + b1) * 256 + b0

-- The four bytes of a word are worked on apart.
pub word-digitwise :
    {f op : ℕ → ℕ → ℕ} (d : IsDigitwise f op) (a3 a2 a1 a0 b3 b2 b1 b0 : ℕ)
    → (a2 < 256) × (a1 < 256) × (a0 < 256)
    → (b2 < 256) × (b1 < 256) × (b0 < 256)
    → op (word a3 a2 a1 a0) (word b3 b2 b1 b0) ≡ word (op a3 b3) (op a2 b2) (op a1 b1) (op a0 b0)
word-digitwise d a3 a2 a1 a0 b3 b2 b1 b0 h k = rw (
  fields-digitwise d 8 ((a3 * 256 + a2) * 256 + a1) ((b3 * 256 + b2) * 256 + b1) a0 b0 h.2 k.2,
  fields-digitwise d 8 (a3 * 256 + a2) (b3 * 256 + b2) a1 b1 h.1 k.1,
  fields-digitwise d 8 a3 b3 a2 b2 h.0 k.0,
)

-- Every 32-bit word is one of four bytes.
pub bytes_of :
    (v : ℕ)
    → v < 2 ^ 32
    → (b3 : ℕ) × (b2 : ℕ) × (b1 : ℕ) × (b0 : ℕ) × (v ≡ word b3 b2 b1 b0)
      × (b3 < 256)
      × (b2 < 256)
      × (b1 < 256)
      × (b0 < 256)
bytes_of v h = (
  v / 16777216,
  v / 65536 % 256,
  v / 256 % 256,
  v % 256,
  omega arith,
  omega arith,
  omega arith,
  omega arith,
  omega arith,
)

pub bit_or-zero : (k a : ℕ) → a < 2 ^ k → bit_or a 0 ≡ a
bit_or-zero zero zero h = refl
bit_or-zero zero (suc a) h = absurd (omega arith)
bit_or-zero (suc k) a h =
    omega (arith, bit_or-IsDigitwise.step a 0, bit_or-zero k (a / 2) (omega (arith, pow-suc 2 k)))

pub bit_and-zero : (k a : ℕ) → a < 2 ^ k → bit_and a 0 ≡ 0
bit_and-zero zero zero h = refl
bit_and-zero zero (suc a) h = absurd (omega arith)
bit_and-zero (suc k) a h =
    omega (arith, bit_and-IsDigitwise.step a 0, bit_and-zero k (a / 2) (omega (arith, pow-suc 2 k)))

-- The remainder by the next power of 2, from that of the half.
mod-pow-suc : (k a : ℕ) → a % 2 ^ suc k ≡ a / 2 % 2 ^ k * 2 + a % 2
mod-pow-suc k a =
    let q : ℕ = a / 2 / 2 ^ k in
    let r : ℕ = a / 2 % 2 ^ k * 2 + a % 2 in
    let e : a ≡ q * 2 ^ suc k + r =
      omega (arith, ap (λ (t : ℕ). q * t) (pow-suc 2 k), div-add-mod (a / 2) (2 ^ k)) in
    let small : r < 2 ^ suc k =
      omega (arith, pow-suc 2 k, mod-lt (a / 2) (one-le-pow k 2 (omega arith))) in
    ap (λ (t : ℕ). t % 2 ^ suc k) e ∙ mul-add-mod_self_right q (2 ^ suc k) r ∙ mod-eq_of_lt small

-- A mask of `k` ones is the remainder by `2 ^ k`.
pub bit_and-ones : (k n a : ℕ) → a < 2 ^ n → bit_and a (2 ^ k - 1) ≡ a % 2 ^ k
bit_and-ones zero n a h = omega (arith, bit_and-zero n a h)
bit_and-ones (suc k) zero zero h = ground (arith, bit_and-bitwise 0 (2 ^ suc k - 1))
bit_and-ones (suc k) zero (suc a) h = absurd (omega arith)
bit_and-ones (suc k) (suc n) a h =
    let m : (2 ^ suc k - 1) / 2 ≡ 2 ^ k - 1 =
      omega (arith, pow-suc 2 k, one-le-pow k 2 (omega arith)) in
    let m' : (2 ^ suc k - 1) % 2 ≡ 1 = omega (arith, pow-suc 2 k, one-le-pow k 2 (omega arith)) in
    rw
      (
        bit_and-IsDigitwise.step a (2 ^ suc k - 1),
        m,
        m',
        bit_and-ones k n (a / 2) (omega (arith, pow-suc 2 n)),
        mod-pow-suc k a,
      )
      (omega arith)
