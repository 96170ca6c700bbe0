-- ===== src/Options/PropertyBag/Writes.antt =====
-- What the property bag of src/TVTestVideoDecoder.cpp does to the options: it keeps them in range, and
-- takes back what was read.
use tvtest_video_decoder.Base.{
  ℕ, ◌≡◌, refl, arith, Bool, true, List, [], ◌∷◌, Option, none, some, ◌==◌,
}
use tvtest_video_decoder.Base.Int.{ℤ, of_word, to_word}
use tvtest_video_decoder.Types.{Hresult, s_ok, failed}
use tvtest_video_decoder.Options.{
  Options, Key, assign, value_of, set_enable_deinterlace, set_deinterlace_method,
  set_adapt_progressive, set_adapt_telecine, set_interlaced_flag, set_brightness, set_contrast,
  set_hue, set_saturation, set_num_threads, set_enable_dxva2, set_enable_d3d11,
  set_num_queue_frames, key_enable_deinterlace, key_deinterlace_method, key_adapt_progressive,
  key_adapt_telecine, key_interlaced_flag, key_brightness, key_contrast, key_hue, key_saturation,
  key_num_threads, key_enable_dxva2, key_enable_d3d11, key_num_queue_frames,
}
use tvtest_video_decoder.Options.Range.{IsInRange, assign-IsInRange}
use tvtest_video_decoder.Options.Registry.{all_keys}
use tvtest_video_decoder.Options.Registry.RoundTrip.{assign-own}
use tvtest_video_decoder.Options.PropertyBag.{
  vartype_index, Variant, vartype, number, key_vartype, bag_value, find_key, Change, read_key,
  property_bag_read, change_type, write_key, property_bag_write, property_bag2_write, vt_empty,
}

write_key-IsInRange :
    (change : Change) (windows8 : Bool) (k : Option Key) (v : Variant) (o : Options)
    → IsInRange o
    → IsInRange (write_key change windows8 k v o).0
unfolding write_key
write_key-IsInRange change w none x o v = v
write_key-IsInRange change w (some k) x o v =
    ground (arith, assign-IsInRange w k (number (change_type change (key_vartype k) x).1) o v)

-- A write of any value under any name keeps the options in range.
pub property_bag_write-IsInRange :
    (copy : Variant → Hresult × Variant) (change : Change) (windows8 : Bool)
    (name : Option (Key → Bool)) (var : Option Variant) (o : Options)
    → IsInRange o
    → IsInRange (property_bag_write copy change windows8 name var o).0
unfolding property_bag_write
property_bag_write-IsInRange copy change w none var o v = v
property_bag_write-IsInRange copy change w (some m) none o v = v
property_bag_write-IsInRange copy change w (some m) (some x) o v =
    ground (arith, write_key-IsInRange change w (find_key m all_keys) (copy x).1 o)

-- Writes of any values under any names, one after the other, keep the options in range, and S_OK is
-- returned.
pub property_bag2_write-IsInRange :
    (copy : Variant → Hresult × Variant) (change : Change) (windows8 : Bool)
    (props : List (Option (Key → Bool) × Variant)) (o : Options)
    → IsInRange o
    → IsInRange (property_bag2_write copy change windows8 props o).0
      × ((property_bag2_write copy change windows8 props o).1 ≡ s_ok)
unfolding property_bag2_write
property_bag2_write-IsInRange copy change w [] o v = (v, refl)
property_bag2_write-IsInRange copy change w ((name, x) ∷ props) o v =
    property_bag2_write-IsInRange copy change w props
      (property_bag_write copy change w name (some x) o).0
      (property_bag_write-IsInRange copy change w name (some x) o v)

same_index : (n : ℕ) → (n == n) ≡ true
same_index n = ground arith

bag_value-vartype : (k : Key) (o : Options) → vartype (bag_value k o) ≡ key_vartype k
unfolding bag_value key_vartype
bag_value-vartype key_enable_deinterlace o = ground arith
bag_value-vartype key_deinterlace_method o = ground arith
bag_value-vartype key_adapt_progressive o = ground arith
bag_value-vartype key_adapt_telecine o = ground arith
bag_value-vartype key_interlaced_flag o = ground arith
bag_value-vartype key_brightness o = ground arith
bag_value-vartype key_contrast o = ground arith
bag_value-vartype key_hue o = ground arith
bag_value-vartype key_saturation o = ground arith
bag_value-vartype key_num_threads o = ground arith
bag_value-vartype key_enable_dxva2 o = ground arith
bag_value-vartype key_enable_d3d11 o = ground arith
bag_value-vartype key_num_queue_frames o = ground arith

-- The variant of an option in range stands for the option's number.
assign-bag_value :
    (k : Key) (s o : Options)
    → IsInRange s
    → assign true k (number (bag_value k s)) o ≡ assign true k (value_of k s) o
unfolding bag_value value_of assign
assign-bag_value key_enable_deinterlace s o v = ground arith
assign-bag_value key_deinterlace_method s o v = ground arith
assign-bag_value key_adapt_progressive s o v = ground arith
assign-bag_value key_adapt_telecine s o v = ground arith
assign-bag_value key_interlaced_flag s o v = ground arith
assign-bag_value key_brightness s o v = ground arith
assign-bag_value key_contrast s o v = ground arith
assign-bag_value key_hue s o v = ground arith
assign-bag_value key_saturation s o v = ground arith
assign-bag_value key_num_threads s o v = ground arith
assign-bag_value key_enable_dxva2 s o v = ground arith
assign-bag_value key_enable_d3d11 s o v = ground arith
assign-bag_value key_num_queue_frames s o v = unfold of_word to_word in ground arith

-- A value of the option's type is assigned as it is.
write_key-typed :
    (change : Change) (windows8 : Bool) (k : Key) (v : Variant) (o : Options)
    → vartype v ≡ key_vartype k
    → write_key change windows8 (some k) v o ≡ ((assign windows8 k (number v) o).0, s_ok)
unfolding write_key change_type
write_key-typed change w k v o e = rw (e, same_index (vartype_index (key_vartype k)))

-- A setter that refuses a number leaves the options as they were.
assign-refused :
    (windows8 : Bool) (k : Key) (x : ℤ) (o : Options)
    → failed (assign windows8 k x o).1 ≡ true
    → (assign windows8 k x o).0 ≡ o
unfolding assign
assign-refused w key_enable_deinterlace x o h = unfold set_enable_deinterlace in ground arith
assign-refused w key_deinterlace_method x o h = unfold set_deinterlace_method in ground arith
assign-refused w key_adapt_progressive x o h = unfold set_adapt_progressive in ground arith
assign-refused w key_adapt_telecine x o h = unfold set_adapt_telecine in ground arith
assign-refused w key_interlaced_flag x o h = unfold set_interlaced_flag in ground arith
assign-refused w key_brightness x o h = unfold set_brightness in ground arith
assign-refused w key_contrast x o h = unfold set_contrast in ground arith
assign-refused w key_hue x o h = unfold set_hue in ground arith
assign-refused w key_saturation x o h = unfold set_saturation in ground arith
assign-refused w key_num_threads x o h = unfold set_num_threads in ground arith
assign-refused w key_enable_dxva2 x o h = unfold set_enable_dxva2 in ground arith
assign-refused w key_enable_d3d11 x o h = unfold set_enable_d3d11 in ground arith
assign-refused w key_num_queue_frames x o h = unfold set_num_queue_frames in ground arith

-- What is read of an option in range can be written back: the write into a decoder with any other
-- options succeeds and gives the option the value that was read, if the name is that of the option,
-- VariantCopy copies and Windows is Windows 8 or later.
pub property_bag_write-read :
    (copy : Variant → Hresult × Variant) (change : Change) (matches : Key → Bool) (k : Key)
    (s o : Options)
    → IsInRange s
    → find_key matches all_keys ≡ some k
    → copy (bag_value k s) ≡ (s_ok, bag_value k s)
    → (property_bag_read change (some matches) (some vt_empty) s ≡ (s_ok, some (bag_value k s)))
      × ((property_bag_write copy change true (some matches) (some (bag_value k s)) o).1 ≡ s_ok)
      × (value_of k (property_bag_write copy change true (some matches) (some (bag_value k s)) o).0
          ≡ value_of k s)
unfolding property_bag_read property_bag_write read_key
property_bag_write-read copy change matches k s o v found copied =
    rw
      (
        found,
        copied,
        write_key-typed change true k (bag_value k s) o (bag_value-vartype k s),
        assign-bag_value k s o v,
      )
      (refl, refl, assign-own k s o v)

-- PropertyBag_Write returns S_OK for a value of the option's type that the setter refuses, and
-- leaves the options as they were, if VariantCopy copies.
pub property_bag_write-refused :
    (copy : Variant → Hresult × Variant) (change : Change) (windows8 : Bool) (matches : Key → Bool)
    (k : Key) (var : Variant) (o : Options)
    → find_key matches all_keys ≡ some k
    → copy var ≡ (s_ok, var)
    → vartype var ≡ key_vartype k
    → failed (assign windows8 k (number var) o).1 ≡ true
    → property_bag_write copy change windows8 (some matches) (some var) o ≡ (o, s_ok)
unfolding property_bag_write
property_bag_write-refused copy change w matches k var o found copied typed refused = rw (
  found,
  copied,
  write_key-typed change w k var o typed,
  assign-refused w k (number var) o refused,
)
