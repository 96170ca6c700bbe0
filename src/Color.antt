-- ===== src/Color.antt =====
-- CColorAdjustment of src/ColorAdjustment.cpp: the settings, the lookup tables that cache them, and
-- their application to the planes of a frame. A plane is a list of rows, each as long as the pitch.
pub mod Sse2
pub mod Levels
pub mod Cache
pub mod Formats
use mathlib.Core.Bool.{not}
use tvtest_video_decoder.Base.{
  ℕ, zero, suc, ◌+◌, ◌*◌, ◌/◌, ◌%◌, Bool, true, false, ◌||◌, List, [], ◌∷◌, if◌then◌else◌,
}
use tvtest_video_decoder.Base.Int.{
  ℤ, pos, negsuc, pos_part, ◌+ℤ◌, ◌-ℤ◌, ◌*ℤ◌, tdiv, fdiv, clamp, same_ℤ,
}

-- m_YTable and m_UVTable by their index; the members that are not set yet hold arbitrary bytes.
pub record Adjustment : Type 0 where
  pub brightness : ℤ
  pub contrast : ℤ
  pub hue : ℤ
  pub saturation : ℤ
  pub y_table : ℕ → ℕ
  pub uv_table : ℕ → ℕ × ℕ
  pub update_y_table : Bool
  pub update_uv_table : Bool

-- The constructor; the tables are not initialised.
unfoldable pub initial : (ℕ → ℕ) → (ℕ → ℕ × ℕ) → Adjustment
initial y uv = record {
  brightness = pos 0;
  contrast = pos 0;
  hue = pos 0;
  saturation = pos 0;
  y_table = y;
  uv_table = uv;
  update_y_table = true;
  update_uv_table = true;
}

unfoldable pub set_brightness : ℤ → Adjustment → Adjustment
set_brightness brightness a =
    let new = clamp brightness (negsuc 99) (pos 100) in
    if same_ℤ new a.brightness then a else record a { brightness = new; update_y_table = true }

unfoldable pub set_contrast : ℤ → Adjustment → Adjustment
set_contrast contrast a =
    let new = clamp contrast (negsuc 99) (pos 100) in
    if same_ℤ new a.contrast then a else record a { contrast = new; update_y_table = true }

unfoldable pub set_hue : ℤ → Adjustment → Adjustment
set_hue hue a =
    let new = clamp hue (negsuc 179) (pos 180) in
    if same_ℤ new a.hue then a else record a { hue = new; update_uv_table = true }

unfoldable pub set_saturation : ℤ → Adjustment → Adjustment
set_saturation saturation a =
    let new = clamp saturation (negsuc 99) (pos 100) in
    if same_ℤ new a.saturation then a else record a { saturation = new; update_uv_table = true }

unfoldable pub is_effective : Adjustment → Bool
is_effective a =
    not (same_ℤ a.brightness (pos 0))
    || not (same_ℤ a.contrast (pos 0))
    || not (same_ℤ a.hue (pos 0))
    || not (same_ℤ a.saturation (pos 0))

-- `Contrast * 512 / 100 + 512`, the gain in units of 1 / 512; also that of the saturation.
unfoldable pub gain : ℤ → ℤ
gain contrast = tdiv (contrast *ℤ pos 512) 100 +ℤ pos 512

-- `Brightness * 255 / 100`
unfoldable pub offset : ℤ → ℤ
offset brightness = tdiv (brightness *ℤ pos 255) 100

-- Entry `i` that MakeYTable writes.
unfoldable pub y_entry : ℤ → ℤ → ℕ → ℕ
unfolding gain offset
y_entry brightness contrast i = pos_part (
    clamp (fdiv (gain contrast *ℤ (pos i -ℤ pos 16)) 512 +ℤ offset brightness +ℤ pos 16) (pos 0)
      (pos 255))

-- Entry `(i << 8) | j` that MakeUVTable writes, from the sine and cosine of the hue in units of
-- 1 / 4096.
unfoldable pub uv_entry : ℤ × ℤ → ℤ → ℕ → ℕ × ℕ
unfolding gain
uv_entry (sine, cosine) saturation index =
    let u = pos (index % 256) -ℤ pos 128 in
    let v = pos (index / 256) -ℤ pos 128 in
    let ux = fdiv (u *ℤ cosine +ℤ v *ℤ sine) 4096 in
    let vx = fdiv (v *ℤ cosine -ℤ u *ℤ sine) 4096 in
    (
      pos_part (clamp (fdiv (ux *ℤ gain saturation) 512 +ℤ pos 128) (pos 16) (pos 235)),
      pos_part (clamp (fdiv (vx *ℤ gain saturation) 512 +ℤ pos 128) (pos 16) (pos 235)),
    )

-- The first `n` elements replaced by their images: a loop over a row, or over the rows of a plane.
unfoldable pub map_first {ℓ} : {A : Type ℓ} → ℕ → (A → A) → List A → List A
map_first zero f xs = xs
map_first (suc n) f [] = []
map_first (suc n) f (x ∷ xs) = f x ∷ map_first n f xs

-- The lazy rebuild of m_YTable.
unfoldable pub refresh_y : Adjustment → Adjustment
refresh_y a =
    if a.update_y_table
    then record a { y_table = y_entry a.brightness a.contrast; update_y_table = false }
    else a

unfoldable pub process_y : ℕ → ℕ → List (List ℕ) → Adjustment → Adjustment × List (List ℕ)
process_y width height plane a =
    if not (same_ℤ a.brightness (pos 0)) || not (same_ℤ a.contrast (pos 0))
    then (let b = refresh_y a in (b, map_first height (map_first width b.y_table) plane))
    else (a, plane)

-- The lazy rebuild of m_UVTable. The sine and cosine of a hue come from the C library.
unfoldable pub refresh_uv : (ℤ → ℤ × ℤ) → Adjustment → Adjustment
refresh_uv sin_cos a =
    if a.update_uv_table
    then record a { uv_table = uv_entry (sin_cos a.hue) a.saturation; update_uv_table = false }
    else a

-- The first `n` pixels of two chroma rows.
unfoldable pub map_pairs : ℕ → (ℕ → ℕ × ℕ) → List ℕ → List ℕ → List ℕ × List ℕ
map_pairs zero table us vs = (us, vs)
map_pairs (suc n) table [] vs = ([], vs)
map_pairs (suc n) table (u ∷ us) [] = (u ∷ us, [])
map_pairs (suc n) table (u ∷ us) (v ∷ vs) =
    let (us', vs') = map_pairs n table us vs in
    ((table (v * 256 + u)).0 ∷ us', (table (v * 256 + u)).1 ∷ vs')

unfoldable pub map_planes :
    ℕ → ℕ → (ℕ → ℕ × ℕ) → List (List ℕ) → List (List ℕ) → List (List ℕ) × List (List ℕ)
unfolding map_pairs
map_planes zero width table us vs = (us, vs)
map_planes (suc n) width table [] vs = ([], vs)
map_planes (suc n) width table (u ∷ us) [] = (u ∷ us, [])
map_planes (suc n) width table (u ∷ us) (v ∷ vs) =
    let (us', vs') = map_planes n width table us vs in
    ((map_pairs width table u v).0 ∷ us', (map_pairs width table u v).1 ∷ vs')

-- The first `n` pixels of a row of 16-bit words, little-endian: the low byte is u.
unfoldable pub map_words : ℕ → (ℕ → ℕ × ℕ) → List ℕ → List ℕ
map_words zero table uv = uv
map_words (suc n) table [] = []
map_words (suc n) table (u ∷ []) = u ∷ []
map_words (suc n) table (u ∷ v ∷ uv) =
    (table (v * 256 + u)).0 ∷ (table (v * 256 + u)).1 ∷ map_words n table uv

pub record I420 : Type 0 where
  pub y : List (List ℕ)
  pub u : List (List ℕ)
  pub v : List (List ℕ)

pub record Nv12 : Type 0 where
  pub y : List (List ℕ)
  pub uv : List (List ℕ)

-- The chroma half of the two operations, with the luma plane `y` done.
unfoldable pub chroma_i420 :
    (ℤ → ℤ × ℤ) → ℕ → ℕ → List (List ℕ) → I420 → Adjustment → Adjustment × I420
chroma_i420 sin_cos width height y f b =
    if not (same_ℤ b.hue (pos 0)) || not (same_ℤ b.saturation (pos 0))
    then (let c = refresh_uv sin_cos b in
        let (u, v) = map_planes (height / 2) (width / 2) c.uv_table f.u f.v in
        (c, record { y = y; u = u; v = v }))
    else (b, record f { y = y })

unfoldable pub chroma_nv12 :
    (ℤ → ℤ × ℤ) → ℕ → ℕ → List (List ℕ) → Nv12 → Adjustment → Adjustment × Nv12
chroma_nv12 sin_cos width height y f b =
    if not (same_ℤ b.hue (pos 0)) || not (same_ℤ b.saturation (pos 0))
    then (let c = refresh_uv sin_cos b in
        (c, record { y = y; uv = map_first (height / 2) (map_words (width / 2) c.uv_table) f.uv }))
    else (b, record f { y = y })

unfoldable pub process_i420 : (ℤ → ℤ × ℤ) → ℕ → ℕ → I420 → Adjustment → Adjustment × I420
process_i420 sin_cos width height f a =
    let (b, y) = process_y width height f.y a in chroma_i420 sin_cos width height y f b

unfoldable pub process_nv12 : (ℤ → ℤ × ℤ) → ℕ → ℕ → Nv12 → Adjustment → Adjustment × Nv12
process_nv12 sin_cos width height f a =
    let (b, y) = process_y width height f.y a in chroma_nv12 sin_cos width height y f b
