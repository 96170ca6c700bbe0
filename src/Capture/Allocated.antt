-- ===== src/Capture/Allocated.antt =====
-- The RGB frame that FrameCaptureCallback of src/FrameCapture.cpp allocates.
use tvtest_video_decoder.Base.{
  ℕ, ◌%◌, ◌<◌, ◌≡◌, ◌≢◌, ◌⊎◌, refl, sym, arith, true, false, ◌&&◌, ◌||◌, Option, none, some, ◌==◌,
  Bool-cases, Option-cases, inl, inr, subst,
}
use mathlib.Core.Bool.{not}
use tvtest_video_decoder.Base.Int.{pos}
use tvtest_video_decoder.Types.{
  Subtype, same_subtype, same_subtype-eq, guid_null, i420, iyuv, yv12, nv12, rgb24, rgb32, other,
}
use tvtest_video_decoder.FrameBuffer.{
  FrameBuffer, allocate, allocate_size, install, place, plan_of, plan_rgb, Plan, free,
}
use tvtest_video_decoder.Pixels.Converter.{is_rgb, is_null}

-- A frame with a size has its first plane.
abbrev pub HasPlane : FrameBuffer → Type 0
HasPlane b = (b.width ≡ 0) ⊎ (is_null b.plane0 ≡ false)

-- What a frame is after Allocate for RGB has succeeded.
pub record IsAllocated (w h : ℕ) (s : Subtype) (b : FrameBuffer) : Type 0 where
  pub width : b.width ≡ w
  pub height : b.height ≡ h
  pub subtype : b.subtype ≡ s
  pub plane : is_null b.plane0 ≡ false

plan_of-rgb : (s : Subtype) (w h : ℕ) → is_rgb s ≡ true → (p : Plan) × (plan_of s w h ≡ some p)
unfolding plan_of
plan_of-rgb rgb24 w h e = (plan_rgb 3 w h, refl)
plan_of-rgb rgb32 w h e = (plan_rgb 4 w h, refl)
plan_of-rgb guid_null w h e = cc
plan_of-rgb i420 w h e = cc
plan_of-rgb iyuv w h e = cc
plan_of-rgb yv12 w h e = cc
plan_of-rgb nv12 w h e = cc
plan_of-rgb (other n) w h e = absurd (ground arith)

install-IsAllocated :
    (malloc : ℕ → Option ℕ) (s : Subtype) (w h : ℕ) (p : Option Plan) (b : FrameBuffer)
    → ((n : ℕ) → is_null (malloc n) ≡ false)
    → p ≢ none
    → (let r = install malloc s w h p b in (r.1 ≡ true) × IsAllocated w h s r.0)
unfolding install place
install-IsAllocated malloc s w h none b total e = absurd (e refl)
install-IsAllocated malloc s w h (some p) b total e = elim (Option-cases (malloc p.size)) [
  | inl none_got ↦
      let wrong : true ≡ false = subst (λ o. is_null o ≡ false) none_got (total p.size) in cc
  | inr (a, got) ↦
      rw got (refl, record { width = refl; height = refl; subtype = refl; plane = refl })
]

pub allocate-IsAllocated :
    (malloc : ℕ → Option ℕ) (w h : ℕ) (s : Subtype) (b : FrameBuffer)
    → ((n : ℕ) → is_null (malloc n) ≡ false)
    → 0 < w
    → 0 < h
    → w % 2 ≡ 0
    → h % 2 ≡ 0
    → is_rgb s ≡ true
    → HasPlane b
    → (let r = allocate malloc (pos w) (pos h) s b in (r.1 ≡ true) × IsAllocated w h s r.0)
unfolding allocate allocate_size
allocate-IsAllocated malloc w h s b total hw hh ew eh rgb plane =
    let sizes : (w == 0 || h == 0 || not (w % 2 == 0) || not (h % 2 == 0)) ≡ false = ground arith in
    elim (Bool-cases (w == b.width && h == b.height && same_subtype s b.subtype)) [
      | inl e ↦
          let kept : (w ≡ b.width) × (h ≡ b.height) × (same_subtype s b.subtype ≡ true) =
            ground arith in
          rw (sizes, e)
            (
              refl,
              record {
                width = sym kept.0;
                height = sym kept.1;
                subtype = sym (same_subtype-eq s b.subtype kept.2);
                plane = elim plane [ inl z ↦ absurd (omega (arith, kept.0)) | inr p ↦ p ];
              },
            )
      | inr e ↦
          let (p, found) = plan_of-rgb s w h rgb in
          let planned : plan_of s w h ≢ none = λ n. cc in
          rw (sizes, e) (install-IsAllocated malloc s w h (plan_of s w h) (free b).0 total planned)
    ]
