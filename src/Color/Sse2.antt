-- ===== src/Color/Sse2.antt =====
-- The SSE2 loop of CColorAdjustment::ProcessY in src/ColorAdjustment.cpp, one byte of a vector, and
-- its agreement with the lookup table.
use tvtest_video_decoder.Base.{ℕ, ◌-◌, ◌%◌, ◌<◌, ◌≡◌, arith, ltb, if◌then◌else◌}
use tvtest_video_decoder.Base.Int.{
  ℤ, pos, negsuc, pos_part, ◌+ℤ◌, ◌-ℤ◌, ◌*ℤ◌, ◌≤ℤ◌, tdiv, fdiv, clamp, +ℤ_assoc, min_ℤ, min_ℤ_left,
  int_laws,
}
use tvtest_video_decoder.Color.{gain, offset, y_entry}

-- `(short)`: the low 16 bits as a signed number.
to_short : ℤ → ℤ
to_short (pos n) = if ltb (n % 65536) 32768 then pos (n % 65536) else negsuc (65535 - n % 65536)
to_short (negsuc n) = if ltb (n % 65536) 32768 then negsuc (n % 65536) else pos (65535 - n % 65536)

-- One lane: subs_epi16, madd_epi16 with (512, b), srai_epi32, packs_epi32 and packus_epi16.
unfoldable pub sse2_byte : ℤ → ℤ → ℕ → ℕ
unfolding to_short gain offset
sse2_byte brightness contrast r =
    let c = to_short (min_ℤ (gain contrast) (pos 65535)) in
    let b = to_short (offset brightness +ℤ pos 16) in
    let lane = clamp (pos r -ℤ pos 16) (negsuc 32767) (pos 32767) in
    let sum = fdiv (lane *ℤ c +ℤ pos 512 *ℤ b) 512 in
    pos_part (clamp (clamp sum (negsuc 32767) (pos 32767)) (pos 0) (pos 255))

to_short-small : (a : ℤ) → negsuc 32767 ≤ℤ a → a ≤ℤ pos 32767 → to_short a ≡ a
unfolding to_short
to_short-small (pos n) lo hi = ground arith
to_short-small (negsuc n) lo hi = ground arith

-- The gain lies between 0 and 2, and the offset between -255 and 255.
pub gain_bounds : (c : ℤ) → negsuc 99 ≤ℤ c → c ≤ℤ pos 100 → (pos 0 ≤ℤ gain c) × (gain c ≤ℤ pos 1024)
unfolding gain ◌+ℤ◌ ◌*ℤ◌ tdiv
gain_bounds (pos n) lo hi = ground arith
gain_bounds (negsuc n) lo hi = ground arith

offset_bounds :
    (b : ℤ) → negsuc 99 ≤ℤ b → b ≤ℤ pos 100 → (negsuc 254 ≤ℤ offset b) × (offset b ≤ℤ pos 255)
unfolding offset ◌*ℤ◌ tdiv
offset_bounds (pos n) lo hi = ground arith
offset_bounds (negsuc n) lo hi = ground arith

-- A multiple of the divisor passes through the shift.
fdiv-add_mul : (p q : ℤ) → fdiv (p +ℤ pos 512 *ℤ q) 512 ≡ fdiv p 512 +ℤ q
unfolding fdiv ◌+ℤ◌ ◌*ℤ◌
fdiv-add_mul (pos p) (pos q) = ground arith
fdiv-add_mul (pos p) (negsuc q) = ground arith
fdiv-add_mul (negsuc p) (pos q) = ground arith
fdiv-add_mul (negsuc p) (negsuc q) = ground arith

-- Saturating to 16 bits first does not change what saturating to a byte gives.
clamp-clamp :
    (a : ℤ)
    → clamp (clamp a (negsuc 32767) (pos 32767)) (pos 0) (pos 255) ≡ clamp a (pos 0) (pos 255)
unfolding clamp
clamp-clamp a = ground arith

clamp_inside : (a lo hi : ℤ) → lo ≤ℤ a → a ≤ℤ hi → clamp a lo hi ≡ a
unfolding clamp
clamp_inside a lo hi h k = ground arith

*ℤ_comm : (a b : ℤ) → a *ℤ b ≡ b *ℤ a
unfolding ◌*ℤ◌
*ℤ_comm a b = ground arith

-- For every setting in range, the vector code gives the byte of the lookup table.
pub sse2_byte-y_entry :
    (brightness contrast : ℤ) (r : ℕ)
    → negsuc 99 ≤ℤ brightness
    → brightness ≤ℤ pos 100
    → negsuc 99 ≤ℤ contrast
    → contrast ≤ℤ pos 100
    → r < 256
    → sse2_byte brightness contrast r ≡ y_entry brightness contrast r
unfolding sse2_byte y_entry
sse2_byte-y_entry brightness contrast r bl bh cl ch h =
    let g = gain_bounds contrast cl ch in
    let o = offset_bounds brightness bl bh in
    rw (
      min_ℤ_left (gain contrast) (pos 65535) (omega (arith, g)),
      to_short-small (gain contrast) (omega (arith, g)) (omega (arith, g)),
      to_short-small (offset brightness +ℤ pos 16) (omega (int_laws, o)) (omega (int_laws, o)),
      clamp_inside (pos r -ℤ pos 16) (negsuc 32767) (pos 32767) (omega int_laws) (omega int_laws),
      fdiv-add_mul ((pos r -ℤ pos 16) *ℤ gain contrast) (offset brightness +ℤ pos 16),
      clamp-clamp (fdiv ((pos r -ℤ pos 16) *ℤ gain contrast) 512 +ℤ (offset brightness +ℤ pos 16)),
      *ℤ_comm (pos r -ℤ pos 16) (gain contrast),
      ← +ℤ_assoc (fdiv (gain contrast *ℤ (pos r -ℤ pos 16)) 512) (offset brightness) (pos 16),
    )
