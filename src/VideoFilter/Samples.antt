-- ===== src/VideoFilter/Samples.antt =====
-- GetMediaType and DecideBufferSize of CBaseVideoFilter in src/BaseVideoFilter.cpp.
use mathlib.Core.Bool.{not}
use tvtest_video_decoder.Base.{
  ℕ, ◌*◌, ◌/◌, ◌%◌, ◌≡◌, ◌≢◌, ap, arith, Bool, false, ◌||◌, List, length, get_elem?, Option, none,
  some, ◌==◌, leb, ltb, if◌then◌else◌,
}
use tvtest_video_decoder.Base.Int.{ℤ, pos, negsuc, ltb_ℤ, ◌*ℤ◌}
use tvtest_video_decoder.Types.{Hresult, s_ok, e_fail, e_unexpected, e_invalidarg, Subtype}
use tvtest_video_decoder.Util.Fraction.{reduce_fraction, magnitude}
use tvtest_video_decoder.VideoFilter.{Dimensions, Kind, video_info, video_info2, MediaType, Filter}
use tvtest_video_decoder.VideoFilter.Dimension.{
  no_header, get_dimensions, block_dimensions, reduce_aspect,
}

-- DecideBufferSize: what the allocator makes of a number and a size of buffers is an argument,
-- `not_set` where SetProperties fails.
pub data Properties : Type 0 where
  are_set : ℕ → ℤ → Properties
  not_set : Hresult → Properties

unfoldable pub decide_buffer_size : Bool → ℕ → MediaType → (ℕ → ℤ → Properties) → Hresult
decide_buffer_size connected buffers t set_properties =
    if not connected then e_unexpected else elim (set_properties buffers t.size_image) [
      | not_set hr ↦ hr
      | are_set count size ↦ if ltb count buffers || ltb_ℤ size t.size_image then e_fail else s_ok
    ]

-- OutputFormatInfo
pub record FormatInfo : Type 0 where
  pub subtype : Subtype
  pub planes : ℕ
  pub bit_count : ℕ
  pub compression : ℕ

-- The type of the input pin, as far as GetMediaType reads it.
pub record InputType : Type 0 where
  pub is_format_video_info2 : Bool
  pub source : Option (ℤ × ℤ)  -- rcSource of its format block
  pub avg_time_per_frame : ℤ

pub data Offer : Type 0 where
  offered : Subtype → MediaType → Offer
  no_more_items : Offer
  refused : Hresult → Offer

-- What is written whichever format block it is; dib_size is DIBSIZE.
unfoldable pub common_type :
    (ℤ → ℤ → ℕ → ℤ) → Dimensions → InputType → FormatInfo → Kind → MediaType
common_type dib_size d input info kind =
    let source : ℤ × ℤ = elim input.source [
      | none ↦ (d.width, d.height)
      | some s ↦ if magnitude s.0 == 0 || magnitude s.1 == 0 then (d.width, d.height) else s
    ] in
    record {
      kind = kind;
      avg_time_per_frame = elim input.source [ none ↦ pos 0 | some _ ↦ input.avg_time_per_frame ];
      source_right = source.0;
      source_bottom = source.1;
      interlace_flags = 0;
      control_flags = 0;
      picture_aspect_x = pos 0;
      picture_aspect_y = pos 0;
      width = d.width;
      height = d.height;
      bit_count = info.bit_count;
      compression = info.compression;
      size_image = dib_size d.width d.height info.bit_count;
      x_pels = pos 0;
      y_pels = pos 0;
    }

-- A VIDEOINFOHEADER2, and a VIDEOINFOHEADER.
unfoldable pub offer_info2 :
    (ℤ → ℤ → ℕ → ℤ) → Dimensions → Bool → InputType → FormatInfo → MediaType
unfolding common_type
offer_info2 dib_size d interlaced input info =
    let aspect =
      if magnitude d.aspect_x == 0 || magnitude d.aspect_y == 0
      then reduce_fraction d.width d.height
      else (d.aspect_x, d.aspect_y) in
    record (common_type dib_size d input info video_info2) {
      interlace_flags = if interlaced then 0x81 else 0;
      picture_aspect_x = aspect.0;
      picture_aspect_y = aspect.1;
    }

unfoldable pub offer_info : (ℤ → ℤ → ℕ → ℤ) → Dimensions → InputType → FormatInfo → MediaType
unfolding common_type
offer_info dib_size d input info = record (common_type dib_size d input info video_info) {
  x_pels = d.width *ℤ d.aspect_y;
  y_pels = d.height *ℤ d.aspect_x;
}

-- GetMediaType, with memory for the format block.
unfoldable pub get_media_type :
    (ℤ → ℤ → ℕ → ℤ) → List FormatInfo → Bool → Bool → InputType → ℤ → Filter → Offer
unfolding offer_info offer_info2
get_media_type dib_size formats connected interlaced input position f =
    if not connected then refused e_unexpected else elim position [
      | negsuc _ ↦ refused e_invalidarg
      | pos p ↦
          let index = if input.is_format_video_info2 then p * 2 else p in
          if leb (length formats * 2) index
          then no_more_items
          else elim (get_elem? formats (index / 2)) [
            | none ↦ no_more_items
            | some info ↦ offered info.subtype (
                if index % 2 == 1
                then offer_info dib_size f.in_dimensions input info
                else offer_info2 dib_size f.in_dimensions interlaced input info)
          ]
    ]

-- The aspect ratio is in its lowest terms.
pub IsReduced : Dimensions → Type 0
IsReduced d =
    (magnitude d.aspect_x ≢ 0)
    × (magnitude d.aspect_y ≢ 0)
    × (reduce_fraction d.aspect_x d.aspect_y ≡ (d.aspect_x, d.aspect_y))

reduce_aspect-IsReduced :
    (d : Dimensions) → IsReduced d → reduce_aspect d.width d.height d.aspect_x d.aspect_y ≡ d
unfolding reduce_aspect IsReduced
reduce_aspect-IsReduced d (x, y, lowest) =
    let x' : (magnitude d.aspect_x == 0) ≡ false = ground arith in
    let y' : (magnitude d.aspect_y == 0) ≡ false = ground arith in
    rw (x', y') (λ i. record d { aspect_x = (lowest i).0; aspect_y = (lowest i).1 })

get_dimensions-block :
    (mul_div : ℤ → ℤ → ℤ → ℤ) (t : MediaType) (d : Dimensions)
    → block_dimensions t ≡ some d
    → IsReduced d
    → get_dimensions mul_div no_header t ≡ some d
unfolding get_dimensions IsReduced
get_dimensions-block mul_div t d e reduced =
    let (x, y, lowest) = reduced in
    let x' : (magnitude d.aspect_x == 0) ≡ false = ground arith in
    let y' : (magnitude d.aspect_y == 0) ≡ false = ground arith in
    rw (get_dimensions, e) (rw (x', y') (ap some (reduce_aspect-IsReduced d reduced)))

offer_info2-block :
    (dib_size : ℤ → ℤ → ℕ → ℤ) (d : Dimensions) (interlaced : Bool) (input : InputType)
    (info : FormatInfo)
    → pos (magnitude d.height) ≡ d.height
    → IsReduced d
    → block_dimensions (offer_info2 dib_size d interlaced input info) ≡ some d
unfolding block_dimensions offer_info2 IsReduced
offer_info2-block dib_size d interlaced input info h (x, y, reduced) =
    let x' : (magnitude d.aspect_x == 0) ≡ false = ground arith in
    let y' : (magnitude d.aspect_y == 0) ≡ false = ground arith in
    rw (x', y') (λ i. some (record d { height = h i }))

-- A VIDEOINFOHEADER2 that GetMediaType offers has the dimensions of the input, if their height is
-- not negative and their aspect ratio is in its lowest terms.
pub get_dimensions-offer_info2 :
    (mul_div : ℤ → ℤ → ℤ → ℤ) (dib_size : ℤ → ℤ → ℕ → ℤ) (d : Dimensions) (interlaced : Bool)
    (input : InputType) (info : FormatInfo)
    → pos (magnitude d.height) ≡ d.height
    → IsReduced d
    → get_dimensions mul_div no_header (offer_info2 dib_size d interlaced input info) ≡ some d
get_dimensions-offer_info2 mul_div dib_size d interlaced input info h reduced =
    get_dimensions-block mul_div (offer_info2 dib_size d interlaced input info) d
      (offer_info2-block dib_size d interlaced input info h reduced) reduced
