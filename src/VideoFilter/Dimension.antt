-- ===== src/VideoFilter/Dimension.antt =====
-- GetDimensions, SetMediaType and BreakConnect of CBaseVideoFilter in src/BaseVideoFilter.cpp.
use tvtest_video_decoder.Base.{
  ℕ, zero, suc, ◌+◌, ◌*◌, ◌/◌, ◌%◌, Bool, ◌&&◌, ◌||◌, List, [], ◌∷◌, get_elem?, Option, none, some,
  ◌==◌, if◌then◌else◌,
}
use tvtest_video_decoder.Base.Int.{ℤ, pos, ◌*ℤ◌}
use tvtest_video_decoder.Util.Fraction.{reduce_fraction, magnitude}
use tvtest_video_decoder.VideoFilter.{
  Dimensions, same_dimensions, video_info, video_info2, no_info, MediaType, Filter,
}

-- The end of GetDimensions, for what the format block says.
unfoldable pub reduce_aspect : ℤ → ℤ → ℤ → ℤ → Dimensions
reduce_aspect width height x y =
    let (x', y') =
      if magnitude x == 0 || magnitude y == 0
      then reduce_fraction width height
      else reduce_fraction x y in
    record { width = width; height = height; aspect_x = x'; aspect_y = y' }

-- The sequence header of an MPEG1VIDEOINFO or an MPEG2VIDEOINFO.
pub data Header : Type 0 where
  mpeg1 mpeg2 : List ℕ → Header
  no_header : Header

abbrev mpeg1_ratios : List ℕ
mpeg1_ratios =
    10000 ∷ 6735 ∷ 7031 ∷ 7615 ∷ 8055 ∷ 8437 ∷ 8935 ∷ 9157 ∷ 9815 ∷ 10255 ∷ 10695 ∷ 10950 ∷ 11575
    ∷ 12015 ∷ []

abbrev mpeg2_ratios : List (ℕ × ℕ)
mpeg2_ratios = (1, 1) ∷ (4, 3) ∷ (16, 9) ∷ (221, 100) ∷ []

-- The width, the height and the number of the aspect ratio in a header of eight bytes or more.
unfoldable pub read_header : List ℕ → Option (ℕ × ℕ × ℕ)
read_header (a ∷ b ∷ c ∷ d ∷ e ∷ f ∷ g ∷ h ∷ rest) =
    if a == 0 && b == 0 && c == 1 && d == 0xb3
    then some (e * 16 + f / 16, f % 16 * 256 + g, h / 16)
    else none
read_header _ = none

-- The entry `i`, counted from 1.
unfoldable pub entry {ℓ} : {A : Type ℓ} → List A → ℕ → Option A
entry xs zero = none
entry xs (suc i) = get_elem? xs i

-- What a format block without an aspect takes from its header; mul_div is MulDiv.
unfoldable pub from_header : (ℤ → ℤ → ℤ → ℤ) → Header → Dimensions → Dimensions
unfolding read_header entry
from_header mul_div no_header d = d
from_header mul_div (mpeg1 bytes) d = elim (read_header bytes) [
  | none ↦ d
  | some (w, h, i) ↦
      let sized = record d { width = pos w; height = pos h } in
      elim (entry mpeg1_ratios i) [
        | none ↦ sized
        | some ratio ↦ record sized {
          aspect_x = mul_div (pos w) (pos 10000) (pos ratio);
          aspect_y = pos h;
        }
      ]
]
from_header mul_div (mpeg2 bytes) d = elim (read_header bytes) [
  | none ↦ d
  | some (w, h, i) ↦
      let sized = record d { width = pos w; height = pos h } in
      elim (entry mpeg2_ratios i) [
        | none ↦ sized
        | some ratio ↦ record sized { aspect_x = pos ratio.0; aspect_y = pos ratio.1 }
      ]
]

abbrev has_no_aspect : Dimensions → Bool
has_no_aspect d = magnitude d.aspect_x == 0 || magnitude d.aspect_y == 0

-- What the format block says, `none` where it is of neither kind.
unfoldable pub block_dimensions : MediaType → Option Dimensions
block_dimensions t =
    let height = pos (magnitude t.height) in
    elim t.kind [
      | video_info ↦ some (record {
        width = t.width;
        height = height;
        aspect_x = t.width *ℤ t.y_pels;
        aspect_y = height *ℤ t.x_pels;
      })
      | video_info2 ↦ some (record {
        width = t.width;
        height = height;
        aspect_x = t.picture_aspect_x;
        aspect_y = t.picture_aspect_y;
      })
      | no_info ↦ none
    ]

-- GetDimensions; `none` for false.
unfoldable pub get_dimensions : (ℤ → ℤ → ℤ → ℤ) → Header → MediaType → Option Dimensions
get_dimensions mul_div header t = elim (block_dimensions t) [
  | none ↦ none
  | some d ↦
      let found = if has_no_aspect d then from_header mul_div header d else d in
      some (reduce_aspect found.width found.height found.aspect_x found.aspect_y)
]

-- A VideoDimensions as it is constructed.
abbrev pub no_dimensions : Dimensions
no_dimensions = record { width = pos 0; height = pos 0; aspect_x = pos 0; aspect_y = pos 0 }

abbrev pub dimensions_or_none : Option Dimensions → Dimensions
dimensions_or_none none = no_dimensions
dimensions_or_none (some d) = d

-- SetMediaType for the two pins.
unfoldable pub set_input_type : (ℤ → ℤ → ℤ → ℤ) → Header → MediaType → Filter → Filter
unfolding get_dimensions
set_input_type mul_div header t f =
    let d = dimensions_or_none (get_dimensions mul_div header t) in
    record f { dimensions = d; in_dimensions = d }

unfoldable pub set_output_type : (ℤ → ℤ → ℤ → ℤ) → Header → MediaType → Filter → Filter
unfolding get_dimensions
set_output_type mul_div header t f =
    let d = dimensions_or_none (get_dimensions mul_div header t) in
    if same_dimensions f.dimensions d then record f { out_dimensions = d } else f

-- BreakConnect of the output pin.
unfoldable pub break_connect : Filter → Filter
break_connect f = record f { out_dimensions = f.in_dimensions }
