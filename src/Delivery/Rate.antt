-- ===== src/Delivery/Rate.antt =====
-- The change of the times of a frame by the rate, in Deliver of src/TVTestVideoDecoder.cpp.
use native.Mathlib.Nat.{mul-le-mul_right}
use tvtest_video_decoder.Base.{
  ℕ, suc, ◌+◌, ◌*◌, ◌/◌, ◌≤◌, ◌≡◌, refl, false, arith, some, inl, inr, Bool-cases,
}
use tvtest_video_decoder.Base.Int.{
  ℤ, pos, negsuc, pos_part, neg_part, ◌+ℤ◌, ◌-ℤ◌, ◌*ℤ◌, ◌≤ℤ◌, tdiv, div_mono, same_ℤ, int_laws,
  +ℤ_mono,
}
use tvtest_video_decoder.Delivery.{RateChange, take_rate, scale}

tdiv_mono : (a b : ℤ) (d : ℕ) → a ≤ℤ b → tdiv a (suc d) ≤ℤ tdiv b (suc d)
unfolding tdiv
tdiv_mono (pos n) (pos m) d h = omega (arith, div_mono n m d (omega arith))
tdiv_mono (negsuc n) (pos m) d h = ground arith
tdiv_mono (pos n) (negsuc m) d h = absurd (omega arith)
tdiv_mono (negsuc n) (negsuc m) d h =
    let k : suc m / suc d ≤ suc n / suc d = div_mono (suc m) (suc n) d (omega arith) in ground arith

mul_mono : (a b : ℕ) (n : ℕ) → a ≤ b → a * n ≤ b * n
mul_mono a b n h = mul-le-mul_right n h

*ℤ_mono : (a b : ℤ) (n : ℕ) → a ≤ℤ b → a *ℤ pos n ≤ℤ b *ℤ pos n
unfolding ◌*ℤ◌
*ℤ_mono a b n h =
    let k = mul_mono (pos_part a + neg_part b) (pos_part b + neg_part a) n h in ground arith

-ℤ_mono : (a b c : ℤ) → a ≤ℤ b → a -ℤ c ≤ℤ b -ℤ c
-ℤ_mono a b c h = omega int_laws

stretch_mono :
    (start rate t u : ℤ)
    → pos 0 ≤ℤ rate
    → t ≤ℤ u
    → start +ℤ tdiv ((t -ℤ start) *ℤ rate) 10000 ≤ℤ start +ℤ tdiv ((u -ℤ start) *ℤ rate) 10000
stretch_mono start (pos n) t u h k =
    +ℤ_mono start start (tdiv ((t -ℤ start) *ℤ pos n) 10000) (tdiv ((u -ℤ start) *ℤ pos n) 10000)
      (omega arith)
      (tdiv_mono ((t -ℤ start) *ℤ pos n) ((u -ℤ start) *ℤ pos n) 9999
        (*ℤ_mono (t -ℤ start) (u -ℤ start) n (-ℤ_mono t u start k)))
stretch_mono start (negsuc n) t u h k = absurd (omega arith)

-- A rate that is not negative keeps the order of times.
pub scale_mono : (rc : RateChange) (t u : ℤ) → pos 0 ≤ℤ rc.rate → t ≤ℤ u → scale rc t ≤ℤ scale rc u
unfolding scale
scale_mono rc t u h k = elim (Bool-cases (same_ℤ rc.rate (pos 10000))) [
  | inl e ↦ rw e k
  | inr e ↦ rw e (stretch_mono rc.start_time rc.rate t u h k)
]

stretch-start : (start rate : ℤ) → start +ℤ tdiv ((start -ℤ start) *ℤ rate) 10000 ≡ start
unfolding tdiv ◌+ℤ◌ ◌-ℤ◌ ◌*ℤ◌
stretch-start start rate = ground arith

-- The frame at which the rate changes keeps its start.
pub take_rate-start :
    (rate : ℤ) (rc : RateChange) (t : ℤ)
    → same_ℤ rc.rate rate ≡ false
    → scale (take_rate (some rate) t rc) t ≡ t
unfolding take_rate scale
take_rate-start rate rc t h = rw h (elim (Bool-cases (same_ℤ rate (pos 10000))) [
  | inl e ↦ rw e refl
  | inr e ↦ rw e (stretch-start t rate)
])
