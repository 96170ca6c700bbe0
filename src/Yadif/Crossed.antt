-- ===== src/Yadif/Crossed.antt =====
-- The fields that CDeinterlacer_Yadif of src/Deinterlace_Yadif.cpp shows in the two calls for a frame.
use Prim.Native.Nat.{bit_and, bit_xor, differ}
use native.Mathlib.Nat.{
  mul-add-div_right, add-mul-mod_self_right, mod-eq_of_lt, div-eq_of_lt, pow-suc,
}
use tvtest_video_decoder.Base.{
  ℕ, zero, suc, ◌+◌, ◌-◌, ◌*◌, ◌/◌, ◌%◌, ◌^◌, ◌≤◌, ◌<◌, ◌≡◌, ◌∙◌, refl, ap, arith, true, false,
  ◌&&◌, [], ◌∷◌, Option, some, inl, inr, Bool-cases,
}
use tvtest_video_decoder.Base.Bits.{bit_and-ones, bit_xor-IsDigitwise}
use tvtest_video_decoder.Types.{has_flag, flag_top_field_first}
use tvtest_video_decoder.FrameDecoder.{frame_ok}
use tvtest_video_decoder.Yadif.{Bytes, is_made}
use tvtest_video_decoder.Yadif.Rows.{yadif_plane-byte}
use tvtest_video_decoder.Yadif.History.{
  Frame, copy_frame_buffer, copy_plane, make_frame, make_plane, show_frame, first_parity, parity_of,
}
use tvtest_video_decoder.Yadif.Order.{is_sized, get_frame-full}

below_pow : (n : ℕ) → n < 2 ^ n
below_pow zero = omega arith
below_pow (suc n) = omega (arith, pow-suc 2 n, below_pow n)

differ_same : (n : ℕ) → differ n n ≡ 0
differ_same zero = refl
differ_same (suc n) = differ_same n

-- The rows of the field that is not made.
kept_row : (y p : ℕ) → p < 2 → y % 2 ≡ p → is_made y p ≡ false
kept_row y p h e =
    let x = bit_xor y p in
    let digits = bit_xor-IsDigitwise.step y p in
    let low : p % 2 ≡ y % 2 = omega arith in
    let even : x % 2 ≡ 0 = omega (arith, digits, ap (differ (y % 2)) low, differ_same (y % 2)) in
    let bit : bit_and x 1 ≡ 0 = omega (arith, bit_and-ones 1 x x (below_pow x)) in ground arith

-- Byte `x` of row `y` of a plane.
in_row : (pitch y x : ℕ) → x < pitch → ((y * pitch + x) / pitch ≡ y) × ((y * pitch + x) % pitch ≡ x)
in_row pitch y x h =
    let some_row : 0 < pitch = omega arith in
    let sum : y * pitch + x ≡ x + y * pitch = omega arith in
    (
      mul-add-div_right some_row y x ∙ omega (arith, div-eq_of_lt h),
      ap (λ (t : ℕ). t % pitch) sum ∙ add-mul-mod_self_right x y pitch ∙ mod-eq_of_lt h,
    )

-- The parity of the first and of the second call.
parities :
    (f : Frame)
    → (parity_of true 0 f ≡ first_parity f)
      × (parity_of true 1 f ≡ 1 - first_parity f)
      × (first_parity f < 2)
unfolding parity_of first_parity
parities f = elim (Bool-cases (has_flag f.attributes.flags flag_top_field_first)) [
  | inl e ↦ rw e (refl, refl, omega arith)
  | inr e ↦ rw e (refl, refl, omega arith)
]

copied_parity : (dst src : Frame) → first_parity (copy_frame_buffer dst src) ≡ first_parity src
unfolding first_parity copy_frame_buffer
copied_parity dst src = refl

-- A row that Yadif_Plane keeps.
make_plane-kept :
    (dst_pitch stride width height parity tff : ℕ) (prev cur next dst : Bytes) (y x : ℕ)
    → 4 ≤ height
    → width ≤ dst_pitch
    → parity < 2
    → y % 2 ≡ parity
    → y < height
    → x < width
    → make_plane dst_pitch stride width height parity tff prev cur next dst (y * dst_pitch + x)
      ≡ cur (y * stride + x)
unfolding make_plane
make_plane-kept dst_pitch stride width height parity tff prev cur next dst y x h w p e hy hx =
    let place = in_row dst_pitch y x (omega arith) in
    rw (place.0, place.1)
      (yadif_plane-byte stride width height parity tff prev cur next _ y x h hy hx
        ∙ rw (kept_row y parity p e) refl)

-- The copy of a picture that is as wide and as high as `w` and `h`.
copy-luma :
    (w h : ℕ) (dst src : Frame) (y x : ℕ)
    → is_sized w h dst ≡ true
    → w ≤ dst.pitch_y
    → y < h
    → x < w
    → (copy_frame_buffer dst src).y (y * dst.pitch_y + x) ≡ src.y (y * src.pitch_y + x)
unfolding copy_frame_buffer copy_plane
copy-luma w h dst src y x sized wide hy hx =
    let place = in_row dst.pitch_y y x (omega arith) in rw (place.0, place.1) (ground arith)

-- Once it holds three frames of one size, with rows of one pitch, the Yadif deinterlacer that
-- doubles frames answers the two calls for a further frame of the size with two pictures. The first
-- has the attributes of the frame before and, in the rows of the first field of that frame, its
-- luma; the second has the attributes of the further frame and, in the rows of the second field of
-- that frame, its luma. So the second field of a frame is shown before its first field.
pub show_frame-crossed :
    (new_frame : ℕ → ℕ → Option Frame) (w h pitch : ℕ) (dst src a b c : Frame) (y z x : ℕ)
    → is_sized w h a && is_sized w h b && is_sized w h c && is_sized w h src ≡ true
    → (a.pitch_y ≡ pitch) × (b.pitch_y ≡ pitch) × (c.pitch_y ≡ pitch)
    → w ≤ pitch
    → w ≤ dst.pitch_y
    → 4 ≤ h
    → y < h
    → z < h
    → x < w
    → y % 2 ≡ first_parity c
    → z % 2 ≡ 1 - first_parity src
    → (p : Frame) × (q : Frame) × ((show_frame new_frame true dst src (some a, some b, some c)).1
        ≡ (frame_ok, p) ∷ (frame_ok, q) ∷ [])
      × (p.attributes ≡ c.attributes)
      × (p.y (y * dst.pitch_y + x) ≡ c.y (y * pitch + x))
      × (q.attributes ≡ src.attributes)
      × (q.y (z * dst.pitch_y + x) ≡ src.y (z * src.pitch_y + x))
unfolding show_frame make_frame copy_frame_buffer
show_frame-crossed new_frame w h pitch dst src a b c y z x sized pitches wide wide_dst four hy hz hx
      first second =
    let width : src.width ≡ w = ground arith in
    let height : src.height ≡ h = ground arith in
    let same_pitch : c.pitch_y ≡ a.pitch_y = omega arith in
    let one = parities c in
    let two = parities (copy_frame_buffer a src) in
    let same_parity = copied_parity a src in
    let p = make_frame true 0 src b c (copy_frame_buffer a src) dst in
    let q = make_frame true 1 src c (copy_frame_buffer a src) (copy_frame_buffer b src) p in
    (
      p,
      q,
      rw
          (
            get_frame-full new_frame true dst src 0 w h a b c (ground arith) (ground arith),
            get_frame-full new_frame true p src 1 w h b c (copy_frame_buffer a src) (ground arith)
                (ground arith),
          )
          refl,
      refl,
      make_plane-kept dst.pitch_y b.pitch_y src.width src.height (parity_of true 0 c) _ b.y c.y _
            dst.y y x (omega arith) (omega arith) (omega arith) (omega arith) (omega arith)
            (omega arith)
          ∙ ap (λ t. c.y (y * t + x)) pitches.1,
      refl,
      make_plane-kept dst.pitch_y c.pitch_y src.width src.height
            (parity_of true 1 (copy_frame_buffer a src)) _ c.y _ _ p.y z x (omega arith)
            (omega arith) (omega arith) (omega arith) (omega arith) (omega arith)
          ∙ ap (λ t. (copy_frame_buffer a src).y (z * t + x)) same_pitch
          ∙ copy-luma w h a src z x (ground arith) (omega arith) hz hx,
    )
