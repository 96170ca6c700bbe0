-- ===== src/Examples/Formats.antt =====
-- The pixel formats of src/PixelFormatConvert.cpp on small pictures.
use tvtest_video_decoder.Base.{ℕ, ◌+◌, ◌*◌, ◌≡◌, refl, ap, arith, false, some, [], ◌∷◌}
use tvtest_video_decoder.Base.Int.{pos, pos_part, ◌+ℤ◌, ◌-ℤ◌, ◌*ℤ◌, fdiv}
use tvtest_video_decoder.Pixels.{
  positive, copy_plane, copy_bytes, even_sizes, Planar, i420_to_i420, i420_to_nv12, nv12_to_i420,
  ◌>>=◌,
}
use tvtest_video_decoder.Pixels.Copies.{interleaved, nv12_to_i420-i420_to_nv12}
use tvtest_video_decoder.Pixels.Upsample.{Plane, upsample_i}
use tvtest_video_decoder.Pixels.Interpolation.{
  field_sample, upsample_i-interpolates, upsample_i-overruns,
}
use tvtest_video_decoder.Pixels.Frames.{Frame}
use tvtest_video_decoder.VideoFilter.Copy.{
  fourcc_yv12, put_i420, put_planes, in_order, chroma_offsets, copy_sample_buffer,
}
use tvtest_video_decoder.VideoFilter.Inside.{copy_sample_buffer-inside}
use tvtest_video_decoder.Types.{yv12}
use tvtest_video_decoder.Pixels.Rgb.{
  setup_parameters, convert_table, rgb_pixel, look_up, blue_sum, green_sum, red_sum, luma_term,
}

-- Planes that hold their offsets, and planes of zeros.
abbrev ramp : Planar
ramp = record {
  y = some (λ i. i);
  u = some (λ i. 100 + i);
  v = some (λ i. 200 + i);
  pitch_y = 16;
  pitch_c = 16;
}

abbrev empty : Planar
empty = record {
  y = some (λ i. 0);
  u = some (λ i. 0);
  v = some (λ i. 0);
  pitch_y = 32;
  pitch_c = 16;
}

nv12_to_i420-i420_to_nv12_example :
    (i420_to_nv12 (pos 6) (pos 4) (interleaved (λ i. 9) (λ i. 9) 16) ramp
      >>= nv12_to_i420 (pos 6) (pos 4) empty)
    ≡ i420_to_i420 (pos 6) (pos 4) empty ramp
nv12_to_i420-i420_to_nv12_example =
    nv12_to_i420-i420_to_nv12 (pos 6) (pos 4) empty ramp (λ i. 9) (λ i. 9) 16 (omega arith)

-- Rows of chroma that rise by 40.
abbrev steps : Plane
steps r x = 40 * r

abbrev unset : Plane
unset r x = 0

upsample_i-interpolates_example : upsample_i 8 8 steps unset 4 1 ≡ field_sample 8 steps 4 1
upsample_i-interpolates_example =
    upsample_i-interpolates 8 8 steps unset 4 1 (omega arith) (omega arith)

between : field_sample 8 steps 4 1 ≡ 70
unfolding field_sample
between = refl

upsample_i-overruns_example :
    (upsample_i 8 6 steps unset 6 1 ≡ steps 2 1) × (upsample_i 8 6 steps unset 7 1 ≡ steps 3 1)
upsample_i-overruns_example = upsample_i-overruns 8 6 steps unset 1 (omega arith) (omega arith)

white : rgb_pixel (setup_parameters 1 false) convert_table 235 128 128 ≡ some (254, 254, 254)
unfolding rgb_pixel setup_parameters convert_table look_up blue_sum green_sum red_sum luma_term ◌+ℤ◌
    ◌-ℤ◌ ◌*ℤ◌ fdiv
white = refl

abbrev frame : Frame
frame = record { width = pos 6; height = pos 4; subtype = yv12; planes = ramp }

abbrev sample : ℕ → ℕ
sample i = 9

-- In order: luma, then the planes of chroma, whose places both the frame and the sample exchange.
written :
    (let out = (copy_sample_buffer (some (8, fourcc_yv12)) frame sample).0 in
      out 8 ∷ out 32 ∷ out 40 ∷ out 46 ∷ out 47 ∷ [])
    ≡ 16 ∷ 100 ∷ 200 ∷ 218 ∷ 9 ∷ []
unfolding copy_sample_buffer put_i420 put_planes even_sizes positive in_order chroma_offsets
    copy_plane copy_bytes
written = refl

copy_sample_buffer-inside_example :
    (copy_sample_buffer (some (8, fourcc_yv12)) frame sample).0 50 ≡ 9
copy_sample_buffer-inside_example =
    copy_sample_buffer-inside 8 fourcc_yv12 frame sample 50 refl (omega arith)
      (λ h e. let four : 4 ≡ h = ap pos_part e in omega arith)
