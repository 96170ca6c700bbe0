-- ===== src/Options/Registry.antt =====
-- LoadOptions and SaveOptions of src/TVTestVideoDecoder.cpp. The registry is a parameter: what
-- RegQueryValueEx finds under a name, and which calls of RegSetValueEx succeed.
pub mod RoundTrip
use tvtest_video_decoder.Base.{
  ℕ, ◌≡◌, ◌≢◌, ◌∙◌, arith, Bool, true, false, ◌||◌, ℕ_discrete, List, [], ◌∷◌, Option, none, some,
  ◌==◌, ◌⊎◌, inl, inr, if◌then◌else◌,
}
use tvtest_video_decoder.Base.Int.{ℤ, to_word, of_word, of_word-to_word}
use tvtest_video_decoder.Types.{Hresult, s_ok, s_false, e_other}
use tvtest_video_decoder.Options.{
  Options, Key, assign, value_of, set_enable_deinterlace, set_deinterlace_method,
  set_adapt_progressive, set_adapt_telecine, set_interlaced_flag, set_brightness, set_contrast,
  set_hue, set_saturation, set_num_threads, set_enable_dxva2, set_enable_d3d11,
  set_num_queue_frames, key_enable_deinterlace, key_deinterlace_method, key_adapt_progressive,
  key_adapt_telecine, key_interlaced_flag, key_brightness, key_contrast, key_hue, key_saturation,
  key_num_threads, key_enable_dxva2, key_enable_d3d11, key_num_queue_frames,
}
use tvtest_video_decoder.Options.Range.{IsInRange, assign-IsInRange}

-- The order in which the options are loaded, saved and compared.
abbrev pub all_keys : List Key
all_keys =
    key_enable_deinterlace ∷ key_deinterlace_method ∷ key_adapt_progressive ∷ key_adapt_telecine
    ∷ key_interlaced_flag ∷ key_brightness ∷ key_contrast ∷ key_hue ∷ key_saturation
    ∷ key_num_threads ∷ key_enable_dxva2 ∷ key_enable_d3d11 ∷ key_num_queue_frames ∷ []

abbrev pub key_index : Key → ℕ
key_index key_enable_deinterlace = 0
key_index key_deinterlace_method = 1
key_index key_adapt_progressive = 2
key_index key_adapt_telecine = 3
key_index key_interlaced_flag = 4
key_index key_brightness = 5
key_index key_contrast = 6
key_index key_hue = 7
key_index key_saturation = 8
key_index key_num_threads = 9
key_index key_enable_dxva2 = 10
key_index key_enable_d3d11 = 11
key_index key_num_queue_frames = 12

-- The DWORD under each name, if there is one.
abbrev pub Registry : Type 0
Registry = Key → Option ℕ

-- A value that RegReadDWORD finds is assigned.
unfoldable pub load_value : Bool → Key → Option ℕ → Options → Options
load_value windows8 k none o = o
load_value windows8 k (some w) o = (assign windows8 k (of_word w) o).0

unfoldable pub load_keys : Bool → List Key → Registry → Options → Options
load_keys windows8 [] r o = o
load_keys windows8 (k ∷ ks) r o = load_keys windows8 ks r (load_value windows8 k (r k) o)

-- `m_fLocalInstance`, and the error of RegOpenKeyEx if it fails.
unfoldable pub load_options : Bool → Bool → Option ℕ → Registry → Options → Options × Hresult
load_options windows8 true error r o = (o, s_false)
load_options windows8 false (some code) r o = (o, e_other code)
load_options windows8 false none r o = (load_keys windows8 all_keys r o, s_ok)

-- RegWriteDWORD, where `written` tells whether RegSetValueEx succeeds.
unfoldable pub write_dword : Bool → Key → ℕ → Registry → Registry
write_dword written k w r j =
    if written then (if key_index j == key_index k then some w else r j) else r j

unfoldable pub save_keys : (Key → Bool) → List Key → Options → Registry → Registry
save_keys written [] o r = r
save_keys written (k ∷ ks) o r =
    save_keys written ks o (write_dword (written k) k (to_word (value_of k o)) r)

unfoldable pub save_options :
    (Key → Bool) → Bool → Option ℕ → Options → Registry → Registry × Hresult
save_options written true error o r = (r, s_false)
save_options written false (some code) o r = (r, e_other code)
save_options written false none o r = (save_keys written all_keys o r, s_ok)
