-- ===== src/Util/Fraction.antt =====
-- GCD and ReduceFraction of src/Util.cpp on int: the remainder and the quotient are those of C.
use Prim.Native.Nat.{◌∣◌}
use native.Mathlib.Nat.{dvd-mod_iff, mod-lt, zero-mod, dvd_of_mod-eq-zero}
use tvtest_video_decoder.Base.{
  ℕ, zero, suc, ◌%◌, ◌^◌, ◌≤◌, ◌<◌, ◌≡◌, ◌↔◌, sym, subst, refl, arith, false, ◌||◌, Option, none,
  some, ◌==◌, if◌then◌else◌, inl, inr, Bool-cases,
}
use tvtest_video_decoder.Base.Int.{ℤ, pos, negsuc, sub_ℕ, ltb_ℤ, ◌-ℤ◌, tdiv}

-- The absolute value.
abbrev pub magnitude : ℤ → ℕ
magnitude (pos n) = n
magnitude (negsuc n) = suc n

-- `m % n`, with the sign of `m`; `none` for INT_MIN % -1, whose quotient is no int.
unfoldable pub remainder : ℤ → ℤ → Option ℤ
remainder (pos m) n = some (pos (m % magnitude n))
remainder (negsuc m) (negsuc zero) = if m == 2147483647 then none else some (pos 0)
remainder (negsuc m) n = some (sub_ℕ 0 (suc m % magnitude n))

-- `m / n`, towards 0.
unfoldable pub quotient : ℤ → ℤ → ℤ
quotient m (pos n) = tdiv m n
quotient m (negsuc n) = pos 0 -ℤ tdiv m (suc n)

-- The end of a turn of the loop, and the turns after it.
abbrev pub after_remainder : ℤ → Option ℤ → (ℤ → Option ℤ) → Option ℤ
after_remainder n none rest = none
after_remainder n (some r) rest = if magnitude r == 0 then some n else rest r

-- The loop of GCD on fuel, `none` if that runs out or a remainder is not defined.
unfoldable pub gcd_loop : ℕ → ℤ → ℤ → Option ℤ
gcd_loop zero m n = none
gcd_loop (suc fuel) m n = after_remainder n (remainder m n) (λ r. gcd_loop fuel n r)

unfoldable pub gcd : ℤ → ℤ → Option ℤ
gcd m n =
    if (magnitude m == 0) || (magnitude n == 0) then some (pos 0) else gcd_loop (magnitude n) m n

-- The numerator and the denominator, by the divisor found; they stay where there is none.
unfoldable pub divide_both : ℤ → ℤ → Option ℤ → ℤ × ℤ
divide_both num denom none = (num, denom)
divide_both num denom (some d) =
    if magnitude d == 0 then (num, denom) else (quotient num d, quotient denom d)

unfoldable pub reduce_signed : ℤ → ℤ → ℤ × ℤ
reduce_signed num denom =
    if (magnitude denom == 0) || (magnitude num == 0)
    then (num, denom)
    else divide_both num denom (gcd denom num)

unfoldable pub reduce_fraction : ℤ → ℤ → ℤ × ℤ
reduce_fraction num denom =
    if ltb_ℤ denom (pos 0)
    then reduce_signed (pos 0 -ℤ num) (pos 0 -ℤ denom)
    else reduce_signed num denom

-- The remainder of ints of which neither is INT_MIN.
remainder-magnitude :
    (m n : ℤ)
    → magnitude m < 2 ^ 31
    → (r : ℤ) × (remainder m n ≡ some r) × (magnitude r ≡ magnitude m % magnitude n)
unfolding remainder
remainder-magnitude (pos m) n h = (pos (m % magnitude n), refl, refl)
remainder-magnitude (negsuc m) (negsuc zero) h =
    let other : (m == 2147483647) ≡ false = ground arith in (pos 0, rw other refl, omega arith)
remainder-magnitude (negsuc m) (negsuc (suc n)) h =
    (sub_ℕ 0 (suc m % suc (suc n)), refl, ground arith)
remainder-magnitude (negsuc m) (pos n) h = (sub_ℕ 0 (suc m % n), refl, ground arith)

-- `k` divides what was found; nothing does where the fuel ran out.
abbrev pub DividesFound : ℕ → Option ℤ → Type 0
DividesFound k none = zero ≡ 1
DividesFound k (some d) = k ∣ magnitude d

gcd_loop-DividesFound :
    (fuel : ℕ) (m n : ℤ) (k : ℕ)
    → magnitude n ≤ fuel
    → zero < magnitude n
    → magnitude m < 2 ^ 31
    → magnitude n < 2 ^ 31
    → DividesFound k (gcd_loop fuel m n) ↔ ((k ∣ magnitude m) × (k ∣ magnitude n))
unfolding gcd_loop
gcd_loop-DividesFound zero m n k h l hm hn = absurd (omega arith)
gcd_loop-DividesFound (suc fuel) m n k h l hm hn =
    let (r, is_r, same) = remainder-magnitude m n hm in
    elim (Bool-cases (magnitude r == 0)) [
      | inl e ↦
          (let zero_left : magnitude m % magnitude n ≡ zero = ground arith in
            rw (is_r, e)
              (
                λ d. (
                  (dvd-mod_iff k d).0
                      (subst (λ x. k ∣ x) (sym zero_left) (dvd_of_mod-eq-zero k (zero-mod k))),
                  d,
                ),
                λ p. p.1,
              ))
      | inr e ↦
          (let small : magnitude m % magnitude n < magnitude n = mod-lt (magnitude m) l in
            let found =
              gcd_loop-DividesFound fuel n r k (omega arith) (ground arith) hn (omega arith) in
            rw (is_r, e)
              (
                λ d.
                    (let p = found.0 d in
                      ((dvd-mod_iff k p.0).0 (subst (λ x. k ∣ x) same p.1), p.0)),
                λ p. found.1 (p.1, subst (λ x. k ∣ x) (sym same) ((dvd-mod_iff k p.1).1 p.0)),
              ))
    ]

-- GCD ends for every two ints other than 0 and INT_MIN, with every remainder defined, and what it
-- returns is, up to its sign, their greatest common divisor: a number divides it exactly if it
-- divides both.
pub gcd-DividesFound :
    (m n : ℤ) (k : ℕ)
    → zero < magnitude m
    → zero < magnitude n
    → magnitude m < 2 ^ 31
    → magnitude n < 2 ^ 31
    → DividesFound k (gcd m n) ↔ ((k ∣ magnitude m) × (k ∣ magnitude n))
unfolding gcd
gcd-DividesFound m n k h l hm hn =
    let both : (magnitude m == 0) || (magnitude n == 0) ≡ false = ground arith in
    rw both (gcd_loop-DividesFound (magnitude n) m n k (omega arith) l hm hn)
