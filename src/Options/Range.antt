-- ===== src/Options/Range.antt =====
-- The options of src/TVTestVideoDecoder.cpp stay within their limits.
use tvtest_video_decoder.Base.{ℕ, ◌≤◌, ◌≡◌, arith, Bool}
use tvtest_video_decoder.Base.Int.{ℤ, pos, negsuc, ◌≤ℤ◌, clamp, same_ℤ_iff}
use tvtest_video_decoder.Color.{
  Adjustment, set_brightness as color_brightness, set_contrast as color_contrast,
  set_hue as color_hue, set_saturation as color_saturation, initial as initial_adjustment,
}
use tvtest_video_decoder.Options.{
  Options, Key, default_options, assign, set_enable_deinterlace, set_deinterlace_method,
  set_adapt_progressive, set_adapt_telecine, set_interlaced_flag, set_brightness, set_contrast,
  set_hue, set_saturation, set_num_threads, set_enable_dxva2, set_enable_d3d11,
  set_num_queue_frames, key_enable_deinterlace, key_deinterlace_method, key_adapt_progressive,
  key_adapt_telecine, key_interlaced_flag, key_brightness, key_contrast, key_hue, key_saturation,
  key_num_threads, key_enable_dxva2, key_enable_d3d11, key_num_queue_frames,
}

-- Each number is in its range, and the colour adjustment has the colour options.
pub record IsInRange (o : Options) : Type 0 where
  pub method : (pos 0 ≤ℤ o.deinterlace_method) × (o.deinterlace_method ≤ℤ pos 5)
  pub brightness : (negsuc 99 ≤ℤ o.brightness) × (o.brightness ≤ℤ pos 100)
  pub contrast : (negsuc 99 ≤ℤ o.contrast) × (o.contrast ≤ℤ pos 100)
  pub hue : (negsuc 179 ≤ℤ o.hue) × (o.hue ≤ℤ pos 180)
  pub saturation : (negsuc 99 ≤ℤ o.saturation) × (o.saturation ≤ℤ pos 100)
  pub threads : (pos 0 ≤ℤ o.num_threads) × (o.num_threads ≤ℤ pos 32)
  pub queue : o.num_queue_frames ≤ 4
  pub color_brightness : o.color.brightness ≡ o.brightness
  pub color_contrast : o.color.contrast ≡ o.contrast
  pub color_hue : o.color.hue ≡ o.hue
  pub color_saturation : o.color.saturation ≡ o.saturation

pub default_options-IsInRange : (y : ℕ → ℕ) (uv : ℕ → ℕ × ℕ) → IsInRange (default_options y uv)
unfolding default_options initial_adjustment
default_options-IsInRange y uv = ground arith

-- In range, a setter of the colour adjustment stores the number and keeps the other settings.
adjust_brightness :
    (x : ℤ) (a : Adjustment)
    → negsuc 99 ≤ℤ x
    → x ≤ℤ pos 100
    → ((color_brightness x a).brightness ≡ x)
      × ((color_brightness x a).contrast ≡ a.contrast)
      × ((color_brightness x a).hue ≡ a.hue)
      × ((color_brightness x a).saturation ≡ a.saturation)
unfolding color_brightness clamp
adjust_brightness x a lo hi = ground (arith, same_ℤ_iff x a.brightness)

adjust_contrast :
    (x : ℤ) (a : Adjustment)
    → negsuc 99 ≤ℤ x
    → x ≤ℤ pos 100
    → ((color_contrast x a).contrast ≡ x)
      × ((color_contrast x a).brightness ≡ a.brightness)
      × ((color_contrast x a).hue ≡ a.hue)
      × ((color_contrast x a).saturation ≡ a.saturation)
unfolding color_contrast clamp
adjust_contrast x a lo hi = ground (arith, same_ℤ_iff x a.contrast)

adjust_hue :
    (x : ℤ) (a : Adjustment)
    → negsuc 179 ≤ℤ x
    → x ≤ℤ pos 180
    → ((color_hue x a).hue ≡ x)
      × ((color_hue x a).brightness ≡ a.brightness)
      × ((color_hue x a).contrast ≡ a.contrast)
      × ((color_hue x a).saturation ≡ a.saturation)
unfolding color_hue clamp
adjust_hue x a lo hi = ground (arith, same_ℤ_iff x a.hue)

adjust_saturation :
    (x : ℤ) (a : Adjustment)
    → negsuc 99 ≤ℤ x
    → x ≤ℤ pos 100
    → ((color_saturation x a).saturation ≡ x)
      × ((color_saturation x a).brightness ≡ a.brightness)
      × ((color_saturation x a).contrast ≡ a.contrast)
      × ((color_saturation x a).hue ≡ a.hue)
unfolding color_saturation clamp
adjust_saturation x a lo hi = ground (arith, same_ℤ_iff x a.saturation)

-- Whatever number is assigned to whatever option, options in range stay in range, and the colour
-- adjustment keeps the values of the options.
pub assign-IsInRange :
    (windows8 : Bool) (k : Key) (x : ℤ) (o : Options)
    → IsInRange o
    → IsInRange (assign windows8 k x o).0
unfolding assign
assign-IsInRange w key_enable_deinterlace x o v = unfold set_enable_deinterlace in ground arith
assign-IsInRange w key_deinterlace_method x o v = unfold set_deinterlace_method in ground arith
assign-IsInRange w key_adapt_progressive x o v = unfold set_adapt_progressive in ground arith
assign-IsInRange w key_adapt_telecine x o v = unfold set_adapt_telecine in ground arith
assign-IsInRange w key_interlaced_flag x o v = unfold set_interlaced_flag in ground arith
assign-IsInRange w key_brightness x o v =
    unfold set_brightness in ground (arith, adjust_brightness x o.color)
assign-IsInRange w key_contrast x o v =
    unfold set_contrast in ground (arith, adjust_contrast x o.color)
assign-IsInRange w key_hue x o v = unfold set_hue in ground (arith, adjust_hue x o.color)
assign-IsInRange w key_saturation x o v =
    unfold set_saturation in ground (arith, adjust_saturation x o.color)
assign-IsInRange w key_num_threads x o v = unfold set_num_threads in ground arith
assign-IsInRange w key_enable_dxva2 x o v = unfold set_enable_dxva2 in ground arith
assign-IsInRange w key_enable_d3d11 x o v = unfold set_enable_d3d11 in ground arith
assign-IsInRange w key_num_queue_frames x o v = unfold set_num_queue_frames in ground arith
