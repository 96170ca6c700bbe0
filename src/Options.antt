-- ===== src/Options.antt =====
-- The options of CTVTestVideoDecoder in src/TVTestVideoDecoder.cpp: the setters of its interface,
-- the registry, and the property bag.
pub mod Range
pub mod Registry
pub mod PropertyBag
use mathlib.Core.Bool.{not}
use tvtest_video_decoder.Base.{
  ℕ, ◌<◌, Bool, true, false, ◌||◌, List, [], ◌∷◌, Option, none, some, ltb, if◌then◌else◌,
}
use tvtest_video_decoder.Base.Int.{ℤ, pos, negsuc, ltb_ℤ, same_ℤ, to_word}
use tvtest_video_decoder.Types.{Hresult, s_ok, e_invalidarg, e_old_win_version}
use tvtest_video_decoder.Color.{
  Adjustment, set_brightness as color_brightness, set_contrast as color_contrast,
  set_hue as color_hue, set_saturation as color_saturation, initial as initial_adjustment,
}

pub record Options : Type 0 where
  pub enable_deinterlace : Bool
  pub deinterlace_method : ℤ
  pub adapt_progressive : Bool
  pub adapt_telecine : Bool
  pub interlaced_flag : Bool
  pub brightness : ℤ
  pub contrast : ℤ
  pub hue : ℤ
  pub saturation : ℤ
  pub num_threads : ℤ
  pub enable_dxva2 : Bool
  pub enable_d3d11 : Bool
  pub num_queue_frames : ℕ  -- UINT
  pub color : Adjustment  -- m_ColorAdjustment

-- The constructor: blend, automatic threads, two queued frames.
unfoldable pub default_options : (ℕ → ℕ) → (ℕ → ℕ × ℕ) → Options
default_options y uv = record {
  enable_deinterlace = true;
  deinterlace_method = pos 1;
  adapt_progressive = true;
  adapt_telecine = true;
  interlaced_flag = true;
  brightness = pos 0;
  contrast = pos 0;
  hue = pos 0;
  saturation = pos 0;
  num_threads = pos 0;
  enable_dxva2 = false;
  enable_d3d11 = false;
  num_queue_frames = 2;
  color = initial_adjustment y uv;
}

-- The guard of the setters of a number.
abbrev pub outside : ℤ → ℤ → ℤ → Bool
outside x lo hi = ltb_ℤ x lo || ltb_ℤ hi x

unfoldable pub set_enable_deinterlace : Bool → Options → Options × Hresult
set_enable_deinterlace enable o = (record o { enable_deinterlace = enable }, s_ok)

unfoldable pub set_deinterlace_method : ℤ → Options → Options × Hresult
set_deinterlace_method method o =
    if outside method (pos 0) (pos 5)
    then (o, e_invalidarg)
    else (record o { deinterlace_method = method }, s_ok)

unfoldable pub set_adapt_progressive : Bool → Options → Options × Hresult
set_adapt_progressive enable o = (record o { adapt_progressive = enable }, s_ok)

unfoldable pub set_adapt_telecine : Bool → Options → Options × Hresult
set_adapt_telecine enable o = (record o { adapt_telecine = enable }, s_ok)

unfoldable pub set_interlaced_flag : Bool → Options → Options × Hresult
set_interlaced_flag enable o = (record o { interlaced_flag = enable }, s_ok)

unfoldable pub set_brightness : ℤ → Options → Options × Hresult
set_brightness x o =
    if outside x (negsuc 99) (pos 100)
    then (o, e_invalidarg)
    else (record o { brightness = x; color = color_brightness x o.color }, s_ok)

unfoldable pub set_contrast : ℤ → Options → Options × Hresult
set_contrast x o =
    if outside x (negsuc 99) (pos 100)
    then (o, e_invalidarg)
    else (record o { contrast = x; color = color_contrast x o.color }, s_ok)

unfoldable pub set_hue : ℤ → Options → Options × Hresult
set_hue x o =
    if outside x (negsuc 179) (pos 180)
    then (o, e_invalidarg)
    else (record o { hue = x; color = color_hue x o.color }, s_ok)

unfoldable pub set_saturation : ℤ → Options → Options × Hresult
set_saturation x o =
    if outside x (negsuc 99) (pos 100)
    then (o, e_invalidarg)
    else (record o { saturation = x; color = color_saturation x o.color }, s_ok)

unfoldable pub set_num_threads : ℤ → Options → Options × Hresult
set_num_threads x o =
    if outside x (pos 0) (pos 32) then (o, e_invalidarg) else (record o { num_threads = x }, s_ok)

unfoldable pub set_enable_dxva2 : Bool → Options → Options × Hresult
set_enable_dxva2 enable o = (record o { enable_dxva2 = enable }, s_ok)

-- `windows8` is what IsWindows8OrGreater returns.
unfoldable pub set_enable_d3d11 : Bool → Bool → Options → Options × Hresult
set_enable_d3d11 windows8 enable o =
    if not windows8 then (o, e_old_win_version) else (record o { enable_d3d11 = enable }, s_ok)

-- The argument is a UINT; callers that hold an int convert it.
unfoldable pub set_num_queue_frames : ℕ → Options → Options × Hresult
set_num_queue_frames n o =
    if ltb 4 n then (o, e_invalidarg) else (record o { num_queue_frames = n }, s_ok)

-- The names of the options, in the order of g_PropertyList.
pub data Key : Type 0 where
  key_enable_deinterlace key_deinterlace_method key_adapt_progressive key_adapt_telecine : Key
  key_interlaced_flag key_brightness key_contrast key_hue key_saturation : Key
  key_num_threads key_enable_dxva2 key_enable_d3d11 key_num_queue_frames : Key

abbrev pub nonzero : ℤ → Bool
nonzero x = not (same_ℤ x (pos 0))

abbrev pub bool_number : Bool → ℤ
bool_number true = pos 1
bool_number false = pos 0

-- The setter that an option's number goes to: a Boolean option is set if the number is not 0.
unfoldable pub assign : Bool → Key → ℤ → Options → Options × Hresult
assign windows8 key_enable_deinterlace x o = set_enable_deinterlace (nonzero x) o
assign windows8 key_deinterlace_method x o = set_deinterlace_method x o
assign windows8 key_adapt_progressive x o = set_adapt_progressive (nonzero x) o
assign windows8 key_adapt_telecine x o = set_adapt_telecine (nonzero x) o
assign windows8 key_interlaced_flag x o = set_interlaced_flag (nonzero x) o
assign windows8 key_brightness x o = set_brightness x o
assign windows8 key_contrast x o = set_contrast x o
assign windows8 key_hue x o = set_hue x o
assign windows8 key_saturation x o = set_saturation x o
assign windows8 key_num_threads x o = set_num_threads x o
assign windows8 key_enable_dxva2 x o = set_enable_dxva2 (nonzero x) o
assign windows8 key_enable_d3d11 x o = set_enable_d3d11 windows8 (nonzero x) o
assign windows8 key_num_queue_frames x o = set_num_queue_frames (to_word x) o

-- The number that stands for an option: 1 and 0 for a Boolean option.
unfoldable pub value_of : Key → Options → ℤ
value_of key_enable_deinterlace o = bool_number o.enable_deinterlace
value_of key_deinterlace_method o = o.deinterlace_method
value_of key_adapt_progressive o = bool_number o.adapt_progressive
value_of key_adapt_telecine o = bool_number o.adapt_telecine
value_of key_interlaced_flag o = bool_number o.interlaced_flag
value_of key_brightness o = o.brightness
value_of key_contrast o = o.contrast
value_of key_hue o = o.hue
value_of key_saturation o = o.saturation
value_of key_num_threads o = o.num_threads
value_of key_enable_dxva2 o = bool_number o.enable_dxva2
value_of key_enable_d3d11 o = bool_number o.enable_d3d11
value_of key_num_queue_frames o = pos o.num_queue_frames
