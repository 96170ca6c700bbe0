-- ===== src/FrameBuffer/Spacing.antt =====
-- The pitches, offsets and block sizes of CFrameBuffer::Allocate of src/FrameBuffer.cpp.
use native.Mathlib.Nat.{mul-le-mul_left, mul-le-mul_right}
use tvtest_video_decoder.Base.{
  ℕ, ◌+◌, ◌*◌, ◌/◌, ◌%◌, ◌^◌, ◌<◌, ◌≤◌, ◌≡◌, ◌⊎◌, inl, inr, refl, ◌∙◌, ap, subst, arith, some,
}
use tvtest_video_decoder.Types.{Subtype, guid_null, i420, iyuv, yv12, nv12, rgb24, rgb32, other}
use tvtest_video_decoder.Util.{row_bytes, row_bytes_bounds}
use tvtest_video_decoder.FrameBuffer.{
  Plan, wrap, half_int, extend, plan_i420, plan_nv12, plan_rgb, plan_of,
}

-- The planes of a frame: luma or packed RGB, then the chroma planes; NV12 has one, of u and v.
pub data Plane : Type 0 where
  first second third : Plane

-- The bytes of a row, and the rows.
abbrev pub columns : Subtype → Plane → ℕ → ℕ
columns i420 first width = width
columns i420 _ width = width / 2
columns iyuv first width = width
columns iyuv _ width = width / 2
columns nv12 first width = width
columns nv12 second width = width
columns rgb24 first width = width * 3
columns rgb32 first width = width * 4
columns _ _ width = 0

abbrev pub rows : Plane → ℕ → ℕ
rows first height = height
rows _ height = height / 2

abbrev pub pitch : Plan → Plane → ℕ
pitch p first = p.pitch_y
pitch p _ = p.pitch_c

-- Where byte `x` of row `y` of a plane lies in the block.
abbrev pub address : Plan → Plane → ℕ → ℕ → ℕ
address p first y x = p.pitch_y * y + x
address p second y x = p.offset1 + (p.pitch_c * y + x)
address p third y x = p.offset2 + (p.pitch_c * y + x)

-- The rows fit the pitch, the pitch is a multiple of 32, and the planes follow one another. A plane
-- with no columns takes no room.
pub record IsSpaced (s : Subtype) (width height : ℕ) (p : Plan) : Type 0 where
  pub wide : (k : Plane) → columns s k width ≤ pitch p k
  pub aligned : (k : Plane) → (pitch p k % 32 ≡ 0)
  pub second_after : (columns s second width ≡ 0) ⊎ (p.pitch_y * height ≤ p.offset1)
  pub third_after :
      (columns s third width ≡ 0)
      ⊎ (p.pitch_y * height ≤ p.offset1) × (p.offset1 + p.pitch_c * (height / 2) ≤ p.offset2)
  pub fits_first : p.pitch_y * height ≤ p.size
  pub fits_second : (columns s second width ≡ 0) ⊎ (p.offset1 + p.pitch_c * (height / 2) ≤ p.size)
  pub fits_third : (columns s third width ≡ 0) ⊎ (p.offset2 + p.pitch_c * (height / 2) ≤ p.size)

-- Rows that are as wide as a bound at most take as much room as it allows.
within_bound : (p q h n : ℕ) → p + q ≤ n → p * h + 2 * (q * (h / 2)) ≤ n * h
within_bound p q h n le = omega (
  arith,
  mul-le-mul_right {m = p + q} {n = n} h le,
  mul-le-mul_left {m = 2 * (h / 2)} {n = h} q (omega arith),
)

-- The result of int arithmetic that does not overflow.
extend-wrap : (n : ℕ) → n < 2 ^ 31 → extend (wrap n) ≡ n
unfolding extend
extend-wrap n h = ground arith

module _ (width height : ℕ) (small : width < 2 ^ 28)
    (room : (4 * width + 62) * height < 2 ^ 31) where
  IsSpaced-i420 : IsSpaced i420 width height (plan_i420 width height)
  unfolding plan_i420
  IsSpaced-i420 =
      let (w, lw, a) = row_bytes_bounds width (omega arith) in
      let (c, lc, b) = row_bytes_bounds (width / 2) (omega arith) in
      let y = row_bytes width * height in
      let u = row_bytes (width / 2) * (height / 2) in
      let fit : y + 2 * u ≤ (4 * width + 62) * height =
        within_bound (row_bytes width) (row_bytes (width / 2)) height (4 * width + 62)
          (omega arith) in
      let small_y : wrap y ≡ y = omega arith in
      let small_u : wrap u ≡ u = omega arith in
      let same_y = extend-wrap y (omega arith) in
      let same_u = extend-wrap u (omega arith) in
      let size : extend (wrap (wrap y + wrap u * 2)) ≡ y + u * 2 =
        ap (λ t. extend (wrap t)) (omega arith) ∙ extend-wrap (y + u * 2) (omega arith) in
      record {
        wide = elim [ first ↦ w | second ↦ c | third ↦ c ];
        aligned = elim [ first ↦ a | second ↦ b | third ↦ b ];
        second_after = inr (omega arith);
        third_after = inr (omega arith, omega arith);
        fits_first = omega arith;
        fits_second = inr (omega arith);
        fits_third = inr (omega arith);
      }

  IsSpaced-iyuv : IsSpaced iyuv width height (plan_i420 width height)
  IsSpaced-iyuv = record {
    wide = elim [ first ↦ r.wide first | second ↦ r.wide second | third ↦ r.wide third ];
    aligned = r.aligned;
    second_after = r.second_after;
    third_after = r.third_after;
    fits_first = r.fits_first;
    fits_second = r.fits_second;
    fits_third = r.fits_third;
  }
    where
      r : IsSpaced i420 width height (plan_i420 width height)
      r = IsSpaced-i420

  IsSpaced-nv12 : height % 2 ≡ 0 → IsSpaced nv12 width height (plan_nv12 width height)
  unfolding plan_nv12 half_int
  IsSpaced-nv12 even =
      let (w, lw, a) = row_bytes_bounds width (omega arith) in
      let twice : height ≡ 2 * (height / 2) = omega arith in
      let y = row_bytes width * height in
      let half : y / 2 ≡ row_bytes width * (height / 2) =
        omega (arith, ap (λ (t : ℕ). row_bytes width * t) twice) in
      let fit : y + 2 * (row_bytes width * (height / 2)) ≤ (4 * width + 62) * height =
        within_bound (row_bytes width) (row_bytes width) height (4 * width + 62) (omega arith) in
      let small_y : wrap y ≡ y = omega arith in
      let same_y = extend-wrap y (omega arith) in
      let size : extend (wrap (wrap y + half_int (wrap y))) ≡ y + y / 2 =
        ap (λ t. extend (wrap t)) (ground arith) ∙ extend-wrap (y + y / 2) (omega arith) in
      record {
        wide = elim [ first ↦ w | second ↦ w | third ↦ omega arith ];
        aligned = elim [ first ↦ a | second ↦ a | third ↦ a ];
        second_after = inr (omega arith);
        third_after = inl refl;
        fits_first = omega arith;
        fits_second = inr (omega arith);
        fits_third = inl refl;
      }

  -- A row of packed pixels.
  abbrev IsPacked : ℕ → Type 0
  IsPacked bytes =
      let p = plan_rgb bytes width height in
      (width * bytes ≤ p.pitch_y) × (p.pitch_y % 32 ≡ 0) × (p.pitch_y * height ≤ p.size)

  packed : (bytes : ℕ) → width * bytes ≤ 4 * width → IsPacked bytes
  unfolding plan_rgb
  packed bytes four =
      let row : wrap (width * bytes) ≡ width * bytes = omega arith in
      let (w, lw, a) = row_bytes_bounds (width * bytes) (omega arith) in
      let y = row_bytes (width * bytes) * height in
      let fit : y + 2 * (0 * (height / 2)) ≤ (4 * width + 62) * height =
        within_bound (row_bytes (width * bytes)) 0 height (4 * width + 62) (omega arith) in
      let size = extend-wrap y (omega arith) in rw row (w, a, omega arith)

  IsSpaced-rgb24 : IsSpaced rgb24 width height (plan_rgb 3 width height)
  unfolding plan_rgb
  IsSpaced-rgb24 = record {
    wide = elim [ first ↦ r.0 | second ↦ omega arith | third ↦ omega arith ];
    aligned = elim [ first ↦ r.1 | second ↦ r.1 | third ↦ r.1 ];
    second_after = inl refl;
    third_after = inl refl;
    fits_first = r.2;
    fits_second = inl refl;
    fits_third = inl refl;
  }
    where
      r : IsPacked 3
      r = packed 3 (omega arith)

  IsSpaced-rgb32 : IsSpaced rgb32 width height (plan_rgb 4 width height)
  unfolding plan_rgb
  IsSpaced-rgb32 = record {
    wide = elim [ first ↦ r.0 | second ↦ omega arith | third ↦ omega arith ];
    aligned = elim [ first ↦ r.1 | second ↦ r.1 | third ↦ r.1 ];
    second_after = inl refl;
    third_after = inl refl;
    fits_first = r.2;
    fits_second = inl refl;
    fits_third = inl refl;
  }
    where
      r : IsPacked 4
      r = packed 4 (omega arith)

unsome : {p q : Plan} → some p ≡ some q → p ≡ q
unsome h = cc

pub plan_of-IsSpaced :
    (s : Subtype) (width height : ℕ) (p : Plan)
    → width < 2 ^ 28
    → (4 * width + 62) * height < 2 ^ 31
    → height % 2 ≡ 0
    → plan_of s width height ≡ some p
    → IsSpaced s width height p
unfolding plan_of
plan_of-IsSpaced i420 width height p w r e h =
    subst (IsSpaced i420 width height) (unsome h) (IsSpaced-i420 width height w r)
plan_of-IsSpaced iyuv width height p w r e h =
    subst (IsSpaced iyuv width height) (unsome h) (IsSpaced-iyuv width height w r)
plan_of-IsSpaced nv12 width height p w r e h =
    subst (IsSpaced nv12 width height) (unsome h) (IsSpaced-nv12 width height w r e)
plan_of-IsSpaced rgb24 width height p w r e h =
    subst (IsSpaced rgb24 width height) (unsome h) (IsSpaced-rgb24 width height w r)
plan_of-IsSpaced rgb32 width height p w r e h =
    subst (IsSpaced rgb32 width height) (unsome h) (IsSpaced-rgb32 width height w r)
plan_of-IsSpaced guid_null width height p w r e h = cc
plan_of-IsSpaced yv12 width height p w r e h = cc
plan_of-IsSpaced (other n) width height p w r e h = cc
