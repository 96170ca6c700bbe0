-- ===== src/Examples/Pictures.antt =====
-- The colour adjustment, the frame buffers and the deinterlacers of src/ on small pictures.
use tvtest_video_decoder.Base.{ℕ, ◌<◌, ◌+◌, ◌≡◌, refl, arith, [], ◌∷◌, none, some, ◌^◌}
use tvtest_video_decoder.Base.Int.{ℤ, pos, negsuc, clamp}
use tvtest_video_decoder.Base.Bits.{word}
use tvtest_video_decoder.Types.{weave, i420 as format_i420, nv12 as format_nv12}
use tvtest_video_decoder.Color.{Adjustment, I420, initial, set_brightness, y_entry, process_i420}
use tvtest_video_decoder.Color.Sse2.{sse2_byte, sse2_byte-y_entry}
use tvtest_video_decoder.Color.Cache.{
  IsCoherent, SameSettings, initial-IsCoherent, set_brightness-IsCoherent,
}
use tvtest_video_decoder.Color.Formats.{process_i420-settled}
use tvtest_video_decoder.FrameBuffer.{
  FrameBuffer, plan_i420, plan_nv12, plan_rgb, extend, plan_of, new, allocate,
}
use tvtest_video_decoder.Util.{align_up, row_bytes}
use tvtest_video_decoder.FrameBuffer.Spacing.{second, address}
use tvtest_video_decoder.FrameBuffer.Layout.{plan_of-inside, plan_of-distinct}
use tvtest_video_decoder.FrameBuffer.Lifetime.{replay, allocate-replay}
use tvtest_video_decoder.Deinterlace.{Row, blend_row3, blend_plane}
use tvtest_video_decoder.Deinterlace.Planes.{blend_plane-row}

abbrev turn : ℤ → ℤ × ℤ
turn hue = (pos 0, pos 4096)

abbrev blank : Adjustment
blank = initial (λ i. 0) (λ i. (0, 0))

-- The same settings, with other bytes in the tables that are not built yet.
abbrev noisy : Adjustment
noisy = initial (λ i. 7) (λ i. (7, 7))

abbrev small_i420 : I420
small_i420 = record {
  y = (16 ∷ 200 ∷ []) ∷ (20 ∷ 255 ∷ []) ∷ [];
  u = (100 ∷ []) ∷ [];
  v = (180 ∷ []) ∷ [];
}

blank-SameSettings : SameSettings (set_brightness (pos 20) blank) (set_brightness (pos 20) noisy)
unfolding set_brightness clamp initial
blank-SameSettings = record { brightness = refl; contrast = refl; hue = refl; saturation = refl }

process_i420-settled_example :
    ((process_i420 turn 2 2 small_i420 (set_brightness (pos 20) blank)).1
      ≡ (process_i420 turn 2 2 small_i420 (set_brightness (pos 20) noisy)).1)
    × IsCoherent turn (process_i420 turn 2 2 small_i420 (set_brightness (pos 20) blank)).0
    × SameSettings
        (set_brightness (pos 20) blank)
        (process_i420 turn 2 2 small_i420 (set_brightness (pos 20) blank)).0
process_i420-settled_example =
    process_i420-settled turn 2 2 (set_brightness (pos 20) blank) (set_brightness (pos 20) noisy)
      small_i420
      (set_brightness-IsCoherent turn (pos 20) blank
        (initial-IsCoherent turn (λ i. 0) (λ i. (0, 0))))
      (set_brightness-IsCoherent turn (pos 20) noisy
        (initial-IsCoherent turn (λ i. 7) (λ i. (7, 7))))
      blank-SameSettings

sse2_byte-y_entry_example : sse2_byte (pos 30) (negsuc 49) 77 ≡ y_entry (pos 30) (negsuc 49) 77
sse2_byte-y_entry_example =
    sse2_byte-y_entry (pos 30) (negsuc 49) 77 (omega arith) (omega arith) (omega arith)
      (omega arith) (omega arith)

nv12_planned : plan_of format_nv12 6 4 ≡ some (plan_nv12 6 4)
unfolding plan_of
nv12_planned = refl

i420_planned : plan_of format_i420 6 4 ≡ some (plan_i420 6 4)
unfolding plan_of
i420_planned = refl

plan_of-inside_example : address (plan_nv12 6 4) second 1 5 < (plan_nv12 6 4).size
plan_of-inside_example =
    plan_of-inside format_nv12 6 4 (plan_nv12 6 4) second 1 5 (omega arith) (omega arith) refl
      nv12_planned (omega arith) (omega arith)

abbrev row : ℕ
row = 1

abbrev column : ℕ
column = 2

plan_of-distinct_example : (second ≡ second) × (row ≡ row) × (column ≡ column)
plan_of-distinct_example =
    plan_of-distinct format_i420 6 4 (plan_i420 6 4) second second row column row column
      (omega arith) (omega arith) refl i420_planned (omega arith, omega arith)
      (omega arith, omega arith) refl

-- The size of a large block wraps around to 0.
wrapped_size : (plan_rgb 4 (2 ^ 27) 16).size ≡ 0
unfolding plan_rgb extend row_bytes align_up
wrapped_size = refl

abbrev fresh : FrameBuffer
fresh = new weave

abbrev owner : FrameBuffer
owner = (allocate (λ n. some 4096) (pos 6) (pos 4) format_i420 fresh).0

allocate-replay_example :
    let r = allocate (λ n. none) (pos 8) (pos 4) format_nv12 owner in
    replay r.2 owner.block ≡ some r.0.block
allocate-replay_example = allocate-replay (λ n. none) (pos 8) (pos 4) format_nv12 owner

-- A plane of words that differ from row to row.
abbrev stripes : ℕ → Row
stripes y = word y y y (y + 1) ∷ []

blend_plane-row_example :
    blend_plane 4 3 stripes (λ y. 0 ∷ []) 1
    ≡ blend_row3 4 (stripes 0) (stripes 1) (stripes 2) (0 ∷ [])
blend_plane-row_example = blend_plane-row 4 3 stripes (λ y. 0 ∷ []) 1 (omega arith)

abbrev copy_row : ℕ → Row → Row → Row
copy_row width src dst = src
