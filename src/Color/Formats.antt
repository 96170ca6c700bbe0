-- ===== src/Color/Formats.antt =====
-- ProcessI420 and ProcessNV12 of src/ColorAdjustment.cpp give a frame the same colours, and these
-- depend on the settings alone.
use mathlib.Core.Bool.{not}
use tvtest_video_decoder.Base.{
  ℕ, zero, suc, ◌+◌, ◌*◌, ◌/◌, ◌≡◌, refl, ap, ap₂, sym, ◌∙◌, ◌||◌, List, [], ◌∷◌, Bool-cases, inl,
  inr,
}
use tvtest_video_decoder.Base.Int.{ℤ, pos, same_ℤ}
use tvtest_video_decoder.Color.{
  Adjustment, I420, Nv12, uv_entry, map_first, map_pairs, map_planes, map_words, process_i420,
  process_nv12,
}
use tvtest_video_decoder.Color.Cache.{
  IsCoherent, SameSettings, luma, planes_i420, planes_nv12, process_i420_lem, process_nv12_lem,
}

-- Two chroma rows as one row of u and v in turn, and two planes so.
unfoldable pub interleave : List ℕ → List ℕ → List ℕ
interleave [] vs = []
interleave (u ∷ us) [] = []
interleave (u ∷ us) (v ∷ vs) = u ∷ v ∷ interleave us vs

unfoldable pub interleave_planes : List (List ℕ) → List (List ℕ) → List (List ℕ)
interleave_planes [] vs = []
interleave_planes (u ∷ us) [] = []
interleave_planes (u ∷ us) (v ∷ vs) = interleave u v ∷ interleave_planes us vs

unfoldable pub to_nv12 : I420 → Nv12
to_nv12 f = record { y = f.y; uv = interleave_planes f.u f.v }

map_words-interleave :
    (n : ℕ) (table : ℕ → ℕ × ℕ) (us vs : List ℕ)
    → map_words n table (interleave us vs)
      ≡ interleave (map_pairs n table us vs).0 (map_pairs n table us vs).1
unfolding map_words map_pairs interleave
map_words-interleave zero table us vs = refl
map_words-interleave (suc n) table [] vs = refl
map_words-interleave (suc n) table (u ∷ us) [] = refl
map_words-interleave (suc n) table (u ∷ us) (v ∷ vs) =
    ap (λ t. (table (v * 256 + u)).0 ∷ (table (v * 256 + u)).1 ∷ t)
      (map_words-interleave n table us vs)

map_first-interleave :
    (n width : ℕ) (table : ℕ → ℕ × ℕ) (us vs : List (List ℕ))
    → map_first n (map_words width table) (interleave_planes us vs)
      ≡ interleave_planes (map_planes n width table us vs).0 (map_planes n width table us vs).1
unfolding map_first map_planes interleave_planes
map_first-interleave zero width table us vs = refl
map_first-interleave (suc n) width table [] vs = refl
map_first-interleave (suc n) width table (u ∷ us) [] = refl
map_first-interleave (suc n) width table (u ∷ us) (v ∷ vs) =
    ap₂ ◌∷◌ (map_words-interleave width table u v) (map_first-interleave n width table us vs)

planes-to_nv12 :
    (sin_cos : ℤ → ℤ × ℤ) (width height : ℕ) (hue saturation : ℤ) (y : List (List ℕ)) (f : I420)
    → planes_nv12 sin_cos width height hue saturation y (to_nv12 f)
      ≡ to_nv12 (planes_i420 sin_cos width height hue saturation y f)
unfolding planes_nv12 planes_i420 to_nv12
planes-to_nv12 sin_cos width height hue saturation y f =
    elim (Bool-cases (not (same_ℤ hue (pos 0)) || not (same_ℤ saturation (pos 0)))) [
      | inl e ↦ rw (
        e,
        map_first-interleave (height / 2) (width / 2) (uv_entry (sin_cos hue) saturation) f.u f.v,
      )
      | inr e ↦ rw e
    ]

-- A frame that is adjusted as I420 and then interleaved is what NV12 gives of the interleaved
-- frame, if the tables whose flag is clear are those of the settings.
pub process_nv12-to_nv12 :
    (sin_cos : ℤ → ℤ × ℤ) (width height : ℕ) (a : Adjustment) (f : I420)
    → IsCoherent sin_cos a
    → (process_nv12 sin_cos width height (to_nv12 f) a).1
      ≡ to_nv12 (process_i420 sin_cos width height f a).1
process_nv12-to_nv12 sin_cos width height a f v =
    (process_nv12_lem sin_cos width height a v (to_nv12 f)).0
    ∙ unfold to_nv12 in
      planes-to_nv12 sin_cos width height a.hue a.saturation
        (luma a.brightness a.contrast width height f.y) f
      ∙ ap to_nv12 (sym (process_i420_lem sin_cos width height a v f).0)

-- What a frame becomes depends on the settings alone, not on what earlier frames left in the
-- tables, if the tables whose flag is clear are those of the settings; and they stay so, and the
-- settings stay.
pub process_i420-settled :
    (sin_cos : ℤ → ℤ × ℤ) (width height : ℕ) (a b : Adjustment) (f : I420)
    → IsCoherent sin_cos a
    → IsCoherent sin_cos b
    → SameSettings a b
    → ((process_i420 sin_cos width height f a).1 ≡ (process_i420 sin_cos width height f b).1)
      × IsCoherent sin_cos (process_i420 sin_cos width height f a).0
      × SameSettings a (process_i420 sin_cos width height f a).0
process_i420-settled sin_cos width height a b f v w s =
    let (p, v', s') = process_i420_lem sin_cos width height a v f in
    let q = (process_i420_lem sin_cos width height b w f).0 in
    (
      p
          ∙ (λ i.
              planes_i420 sin_cos width height (sym s.hue i) (sym s.saturation i)
                (luma (sym s.brightness i) (sym s.contrast i) width height f.y) f)
          ∙ sym q,
      v',
      s',
    )
