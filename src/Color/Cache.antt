-- ===== src/Color/Cache.antt =====
-- The tables of src/ColorAdjustment.cpp are rebuilt on demand: what a frame is processed with
-- depends on the settings alone, and the two pixel formats get the same colours.
use mathlib.Core.Bool.{not}
use tvtest_video_decoder.Base.{
  ℕ, ◌/◌, ◌≡◌, refl, ◌∙◌, arith, false, ◌||◌, List, Bool-cases, inl, inr, if◌then◌else◌,
}
use tvtest_video_decoder.Base.Int.{ℤ, pos, same_ℤ}
use tvtest_video_decoder.Color.{
  Adjustment, I420, Nv12, initial, set_brightness, set_contrast, set_hue, set_saturation, y_entry,
  uv_entry, map_first, map_planes, map_words, refresh_y, refresh_uv, process_y, chroma_i420,
  chroma_nv12, process_i420, process_nv12,
}

-- A table whose flag is clear is the one that the settings call for.
pub record IsCoherent (sin_cos : ℤ → ℤ × ℤ) (a : Adjustment) : Type 0 where
  pub y : a.update_y_table ≡ false → a.y_table ≡ y_entry a.brightness a.contrast
  pub uv : a.update_uv_table ≡ false → a.uv_table ≡ uv_entry (sin_cos a.hue) a.saturation

pub initial-IsCoherent :
    (sin_cos : ℤ → ℤ × ℤ) (y : ℕ → ℕ) (uv : ℕ → ℕ × ℕ) → IsCoherent sin_cos (initial y uv)
unfolding initial
initial-IsCoherent sin_cos y uv = record { y = λ e. cc; uv = λ e. cc }

module _ (sin_cos : ℤ → ℤ × ℤ) (x : ℤ) (a : Adjustment) (v : IsCoherent sin_cos a) where
  pub set_brightness-IsCoherent : IsCoherent sin_cos (set_brightness x a)
  unfolding set_brightness
  set_brightness-IsCoherent = ground (arith, v.y, v.uv)

  set_contrast-IsCoherent : IsCoherent sin_cos (set_contrast x a)
  unfolding set_contrast
  set_contrast-IsCoherent = ground (arith, v.y, v.uv)

  set_hue-IsCoherent : IsCoherent sin_cos (set_hue x a)
  unfolding set_hue
  set_hue-IsCoherent = ground (arith, v.y, v.uv)

  pub set_saturation-IsCoherent : IsCoherent sin_cos (set_saturation x a)
  unfolding set_saturation
  set_saturation-IsCoherent = ground (arith, v.y, v.uv)

  refresh_y-IsCoherent :
      IsCoherent sin_cos (refresh_y a) × ((refresh_y a).y_table ≡ y_entry a.brightness a.contrast)
  unfolding refresh_y
  refresh_y-IsCoherent = ground (arith, v.y, v.uv)

  refresh_uv-IsCoherent :
      IsCoherent sin_cos (refresh_uv sin_cos a)
      × ((refresh_uv sin_cos a).uv_table ≡ uv_entry (sin_cos a.hue) a.saturation)
  unfolding refresh_uv
  refresh_uv-IsCoherent = ground (arith, v.y, v.uv)

-- What the settings alone make of a luma plane.
unfoldable pub luma : ℤ → ℤ → ℕ → ℕ → List (List ℕ) → List (List ℕ)
luma brightness contrast width height plane =
    if not (same_ℤ brightness (pos 0)) || not (same_ℤ contrast (pos 0))
    then map_first height (map_first width (y_entry brightness contrast)) plane
    else plane

-- The settings are those of `a`.
pub record SameSettings (a b : Adjustment) : Type 0 where
  pub brightness : b.brightness ≡ a.brightness
  pub contrast : b.contrast ≡ a.contrast
  pub hue : b.hue ≡ a.hue
  pub saturation : b.saturation ≡ a.saturation

module _ (sin_cos : ℤ → ℤ × ℤ) (width height : ℕ) (a : Adjustment) (v : IsCoherent sin_cos a) where
  refresh_y-SameSettings : SameSettings a (refresh_y a)
  unfolding refresh_y
  refresh_y-SameSettings = ground arith

  refresh_uv-SameSettings : SameSettings a (refresh_uv sin_cos a)
  unfolding refresh_uv
  refresh_uv-SameSettings = ground arith

  process_y-luma :
      (plane : List (List ℕ))
      → ((process_y width height plane a).1 ≡ luma a.brightness a.contrast width height plane)
        × IsCoherent sin_cos (process_y width height plane a).0
        × SameSettings a (process_y width height plane a).0
  unfolding process_y luma
  process_y-luma plane =
      let (w, t) = refresh_y-IsCoherent sin_cos (pos 0) a v in
      elim (Bool-cases (not (same_ℤ a.brightness (pos 0)) || not (same_ℤ a.contrast (pos 0)))) [
        | inl e ↦ rw e (rw t refl, w, refresh_y-SameSettings)
        | inr e ↦
            rw e (
              refl,
              v,
              record { brightness = refl; contrast = refl; hue = refl; saturation = refl },
            )
      ]

SameSettings-trans : (a b c : Adjustment) → SameSettings a b → SameSettings b c → SameSettings a c
SameSettings-trans a b c p q = record {
  brightness = q.brightness ∙ p.brightness;
  contrast = q.contrast ∙ p.contrast;
  hue = q.hue ∙ p.hue;
  saturation = q.saturation ∙ p.saturation;
}

SameSettings-refl : (a : Adjustment) → SameSettings a a
SameSettings-refl a = record { brightness = refl; contrast = refl; hue = refl; saturation = refl }

-- What a hue and a saturation make of a frame, with the luma plane `y` done.
unfoldable pub planes_i420 : (ℤ → ℤ × ℤ) → ℕ → ℕ → ℤ → ℤ → List (List ℕ) → I420 → I420
planes_i420 sin_cos width height hue saturation y f =
    let planes = map_planes (height / 2) (width / 2) (uv_entry (sin_cos hue) saturation) f.u f.v in
    if not (same_ℤ hue (pos 0)) || not (same_ℤ saturation (pos 0))
    then record { y = y; u = planes.0; v = planes.1 }
    else record f { y = y }

unfoldable pub planes_nv12 : (ℤ → ℤ × ℤ) → ℕ → ℕ → ℤ → ℤ → List (List ℕ) → Nv12 → Nv12
planes_nv12 sin_cos width height hue saturation y f =
    let words = map_words (width / 2) (uv_entry (sin_cos hue) saturation) in
    if not (same_ℤ hue (pos 0)) || not (same_ℤ saturation (pos 0))
    then record { y = y; uv = map_first (height / 2) words f.uv }
    else record f { y = y }

module _ (sin_cos : ℤ → ℤ × ℤ) (width height : ℕ) (b : Adjustment) (v : IsCoherent sin_cos b) where
  chroma_i420_lem :
      (y : List (List ℕ)) (f : I420)
      → ((chroma_i420 sin_cos width height y f b).1
          ≡ planes_i420 sin_cos width height b.hue b.saturation y f)
        × IsCoherent sin_cos (chroma_i420 sin_cos width height y f b).0
        × SameSettings b (chroma_i420 sin_cos width height y f b).0
  unfolding chroma_i420 planes_i420
  chroma_i420_lem y f =
      let (w, t) = refresh_uv-IsCoherent sin_cos (pos 0) b v in
      elim (Bool-cases (not (same_ℤ b.hue (pos 0)) || not (same_ℤ b.saturation (pos 0)))) [
        | inl e ↦ rw e (rw t refl, w, refresh_uv-SameSettings sin_cos width height b v)
        | inr e ↦ rw e (refl, v, SameSettings-refl b)
      ]

  chroma_nv12_lem :
      (y : List (List ℕ)) (f : Nv12)
      → ((chroma_nv12 sin_cos width height y f b).1
          ≡ planes_nv12 sin_cos width height b.hue b.saturation y f)
        × IsCoherent sin_cos (chroma_nv12 sin_cos width height y f b).0
        × SameSettings b (chroma_nv12 sin_cos width height y f b).0
  unfolding chroma_nv12 planes_nv12
  chroma_nv12_lem y f =
      let (w, t) = refresh_uv-IsCoherent sin_cos (pos 0) b v in
      elim (Bool-cases (not (same_ℤ b.hue (pos 0)) || not (same_ℤ b.saturation (pos 0)))) [
        | inl e ↦ rw e (rw t refl, w, refresh_uv-SameSettings sin_cos width height b v)
        | inr e ↦ rw e (refl, v, SameSettings-refl b)
      ]

module _ (sin_cos : ℤ → ℤ × ℤ) (width height : ℕ) (a : Adjustment) (v : IsCoherent sin_cos a) where
  pub process_i420_lem :
      (f : I420)
      → ((process_i420 sin_cos width height f a).1
          ≡ planes_i420 sin_cos width height a.hue a.saturation
              (luma a.brightness a.contrast width height f.y)
              f)
        × IsCoherent sin_cos (process_i420 sin_cos width height f a).0
        × SameSettings a (process_i420 sin_cos width height f a).0
  unfolding process_i420
  process_i420_lem f =
      let (py, w, s) = process_y-luma sin_cos width height a v f.y in
      let (q, w', s') =
        chroma_i420_lem sin_cos width height (process_y width height f.y a).0 w
          (process_y width height f.y a).1 f in
      (
        q ∙ (λ i. planes_i420 sin_cos width height (s.hue i) (s.saturation i) (py i) f),
        w',
        SameSettings-trans _ _ _ s s',
      )

  pub process_nv12_lem :
      (f : Nv12)
      → ((process_nv12 sin_cos width height f a).1
          ≡ planes_nv12 sin_cos width height a.hue a.saturation
              (luma a.brightness a.contrast width height f.y)
              f)
        × IsCoherent sin_cos (process_nv12 sin_cos width height f a).0
        × SameSettings a (process_nv12 sin_cos width height f a).0
  unfolding process_nv12
  process_nv12_lem f =
      let (py, w, s) = process_y-luma sin_cos width height a v f.y in
      let (q, w', s') =
        chroma_nv12_lem sin_cos width height (process_y width height f.y a).0 w
          (process_y width height f.y a).1 f in
      (
        q ∙ (λ i. planes_nv12 sin_cos width height (s.hue i) (s.saturation i) (py i) f),
        w',
        SameSettings-trans _ _ _ s s',
      )
