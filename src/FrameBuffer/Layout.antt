-- ===== src/FrameBuffer/Layout.antt =====
-- The layout that CFrameBuffer::Allocate of src/FrameBuffer.cpp chooses: where the samples lie.
use native.Mathlib.Nat.{mul-le-mul_left, mul-add-div, div-eq_of_lt}
use tvtest_video_decoder.Base.{
  ℕ, suc, ◌+◌, ◌*◌, ◌/◌, ◌%◌, ◌^◌, ◌<◌, ◌≤◌, ◌≡◌, refl, ap, sym, ◌∙◌, arith, some,
}
use tvtest_video_decoder.Types.{Subtype}
use tvtest_video_decoder.FrameBuffer.{Plan, plan_of}
use tvtest_video_decoder.FrameBuffer.Spacing.{
  Plane, first, second, third, columns, rows, address, IsSpaced, plan_of-IsSpaced,
}

-- A byte of row `y` lies before the end of `n` rows.
before_end : (w y x n : ℕ) → y < n → x < w → w * y + x < w * n
before_end w y x n hy hx = omega (arith, mul-le-mul_left {m = suc y} {n = n} w hy)

-- Row and column of a byte are determined by its place.
same_place : (w y x y' x' : ℕ) → x < w → x' < w → w * y + x ≡ w * y' + x' → (y ≡ y') × (x ≡ x')
same_place w y x y' x' hx hx' e =
    let pos : 0 < w = omega arith in
    let row : y + x / w ≡ y' + x' / w =
      sym (mul-add-div pos y x) ∙ ap (λ (t : ℕ). t / w) e ∙ mul-add-div pos y' x' in
    let same : y ≡ y' = omega (arith, row, div-eq_of_lt hx, div-eq_of_lt hx') in
    (same, omega (arith, e, ap (λ (t : ℕ). w * t) same))

-- Every sample of every plane lies in the block, for a width below 2 ^ 28 and an even height, if 4
-- * width + 62 times the height is below 2 ^ 31.
pub plan_of-inside :
    (s : Subtype) (width height : ℕ) (p : Plan) (k : Plane) (y x : ℕ)
    → width < 2 ^ 28
    → (4 * width + 62) * height < 2 ^ 31
    → height % 2 ≡ 0
    → plan_of s width height ≡ some p
    → y < rows k height
    → x < columns s k width
    → address p k y x < p.size
plan_of-inside s width height p first y x w room e h hy hx =
    let r = plan_of-IsSpaced s width height p w room e h in
    let wide : columns s first width ≤ p.pitch_y = r.wide first in
    omega (arith, r.fits_first, before_end p.pitch_y y x height hy (omega arith))
plan_of-inside s width height p second y x w room e h hy hx =
    let r = plan_of-IsSpaced s width height p w room e h in
    let wide : columns s second width ≤ p.pitch_c = r.wide second in
    omega (arith, r.fits_second, before_end p.pitch_c y x (height / 2) hy (omega arith))
plan_of-inside s width height p third y x w room e h hy hx =
    let r = plan_of-IsSpaced s width height p w room e h in
    let wide : columns s third width ≤ p.pitch_c = r.wide third in
    omega (arith, r.fits_third, before_end p.pitch_c y x (height / 2) hy (omega arith))

-- A sample of an earlier plane lies before one of a later plane.
module _ (s : Subtype) (width height : ℕ) (p : Plan) (r : IsSpaced s width height p) (y x y' x' : ℕ)
    (hx : x < columns s first width) (hy : y < height) where
  first_before_second : x' < columns s second width → address p first y x < address p second y' x'
  first_before_second hx' =
      let wide : columns s first width ≤ p.pitch_y = r.wide first in
      omega (arith, r.second_after, before_end p.pitch_y y x height hy (omega arith))

  first_before_third : x' < columns s third width → address p first y x < address p third y' x'
  first_before_third hx' =
      let wide : columns s first width ≤ p.pitch_y = r.wide first in
      omega (arith, r.third_after, before_end p.pitch_y y x height hy (omega arith))

second_before_third :
    (s : Subtype) (width height : ℕ) (p : Plan) (r : IsSpaced s width height p) (y x y' x' : ℕ)
    → x < columns s second width
    → y < height / 2
    → x' < columns s third width
    → address p second y x < address p third y' x'
second_before_third s width height p r y x y' x' hx hy hx' =
    let wide : columns s second width ≤ p.pitch_c = r.wide second in
    omega (arith, r.third_after, before_end p.pitch_c y x (height / 2) hy (omega arith))

spaced_distinct :
    (s : Subtype) (width height : ℕ) (p : Plan) (k j : Plane) (y x y' x' : ℕ)
    → IsSpaced s width height p
    → (y < rows k height) × (x < columns s k width)
    → (y' < rows j height) × (x' < columns s j width)
    → address p k y x ≡ address p j y' x'
    → (k ≡ j) × (y ≡ y') × (x ≡ x')
spaced_distinct s width height p first first y x y' x' r a b q =
    let wide : columns s first width ≤ p.pitch_y = r.wide first in
    let (u, v) = same_place p.pitch_y y x y' x' (omega arith) (omega arith) q in (refl, u, v)
spaced_distinct s width height p second second y x y' x' r a b q =
    let wide : columns s second width ≤ p.pitch_c = r.wide second in
    let (u, v) = same_place p.pitch_c y x y' x' (omega arith) (omega arith) (omega arith) in
    (refl, u, v)
spaced_distinct s width height p third third y x y' x' r a b q =
    let wide : columns s third width ≤ p.pitch_c = r.wide third in
    let (u, v) = same_place p.pitch_c y x y' x' (omega arith) (omega arith) (omega arith) in
    (refl, u, v)
spaced_distinct s width height p first second y x y' x' r a b q =
    absurd (omega (arith, first_before_second s width height p r y x y' x' a.1 a.0 b.1))
spaced_distinct s width height p first third y x y' x' r a b q =
    absurd (omega (arith, first_before_third s width height p r y x y' x' a.1 a.0 b.1))
spaced_distinct s width height p second third y x y' x' r a b q =
    absurd (omega (arith, second_before_third s width height p r y x y' x' a.1 a.0 b.1))
spaced_distinct s width height p second first y x y' x' r a b q =
    absurd (omega (arith, first_before_second s width height p r y' x' y x b.1 b.0 a.1))
spaced_distinct s width height p third first y x y' x' r a b q =
    absurd (omega (arith, first_before_third s width height p r y' x' y x b.1 b.0 a.1))
spaced_distinct s width height p third second y x y' x' r a b q =
    absurd (omega (arith, second_before_third s width height p r y' x' y x b.1 b.0 a.1))

-- Two samples at one address of the block are one sample: the planes do not overlap, nor the rows
-- of a plane, for a width below 2 ^ 28 and an even height, if 4 * width + 62 times the height is
-- below 2 ^ 31.
pub plan_of-distinct :
    (s : Subtype) (width height : ℕ) (p : Plan) (k j : Plane) (y x y' x' : ℕ)
    → width < 2 ^ 28
    → (4 * width + 62) * height < 2 ^ 31
    → height % 2 ≡ 0
    → plan_of s width height ≡ some p
    → (y < rows k height) × (x < columns s k width)
    → (y' < rows j height) × (x' < columns s j width)
    → address p k y x ≡ address p j y' x'
    → (k ≡ j) × (y ≡ y') × (x ≡ x')
plan_of-distinct s width height p k j y x y' x' w room e h =
    spaced_distinct s width height p k j y x y' x' (plan_of-IsSpaced s width height p w room e h)
