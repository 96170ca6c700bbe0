-- ===== src/Options/PropertyBag.antt =====
-- PropertyBag_Read, PropertyBag_Write and their IPropertyBag2 forms in src/TVTestVideoDecoder.cpp.
-- VariantCopy, VariantChangeType and lstrcmpiW are parameters.
pub mod Writes
use tvtest_video_decoder.Base.{
  ℕ, ◌+◌, ◌≡◌, refl, arith, Bool, true, false, List, [], ◌∷◌, Option, none, some, ◌==◌,
  if◌then◌else◌,
}
use tvtest_video_decoder.Base.Int.{ℤ, pos, negsuc, of_word, to_word}
use tvtest_video_decoder.Types.{Hresult, s_ok, e_invalidarg, e_pointer, failed}
use tvtest_video_decoder.Options.{
  Options, Key, assign, value_of, set_enable_deinterlace, set_deinterlace_method,
  set_adapt_progressive, set_adapt_telecine, set_interlaced_flag, set_brightness, set_contrast,
  set_hue, set_saturation, set_num_threads, set_enable_dxva2, set_enable_d3d11,
  set_num_queue_frames, key_enable_deinterlace, key_deinterlace_method, key_adapt_progressive,
  key_adapt_telecine, key_interlaced_flag, key_brightness, key_contrast, key_hue, key_saturation,
  key_num_threads, key_enable_dxva2, key_enable_d3d11, key_num_queue_frames,
}
use tvtest_video_decoder.Options.Range.{IsInRange, assign-IsInRange}
use tvtest_video_decoder.Options.Registry.{all_keys}

pub data Vartype : Type 0 where
  type_empty type_bool type_int : Vartype
  type_other : ℕ → Vartype

abbrev pub vartype_index : Vartype → ℕ
vartype_index type_empty = 0
vartype_index type_bool = 1
vartype_index type_int = 2
vartype_index (type_other n) = n + 3

-- A VARIANT: its type and the number in its union.
pub data Variant : Type 0 where
  vt_empty : Variant
  vt_bool vt_int : ℤ → Variant
  vt_other : ℕ → ℤ → Variant

abbrev pub vartype : Variant → Vartype
vartype vt_empty = type_empty
vartype (vt_bool x) = type_bool
vartype (vt_int x) = type_int
vartype (vt_other t x) = type_other t

abbrev pub number : Variant → ℤ
number vt_empty = pos 0
number (vt_bool x) = x
number (vt_int x) = x
number (vt_other t x) = x

-- `Var.vt = t`, which keeps the union.
abbrev pub retype : Vartype → Variant → Variant
retype type_empty v = vt_empty
retype type_bool v = vt_bool (number v)
retype type_int v = vt_int (number v)
retype (type_other t) v = vt_other t (number v)

-- The `Type` column of g_PropertyList.
unfoldable pub key_vartype : Key → Vartype
key_vartype key_enable_deinterlace = type_bool
key_vartype key_deinterlace_method = type_int
key_vartype key_adapt_progressive = type_bool
key_vartype key_adapt_telecine = type_bool
key_vartype key_interlaced_flag = type_bool
key_vartype key_brightness = type_int
key_vartype key_contrast = type_int
key_vartype key_hue = type_int
key_vartype key_saturation = type_int
key_vartype key_num_threads = type_int
key_vartype key_enable_dxva2 = type_bool
key_vartype key_enable_d3d11 = type_bool
key_vartype key_num_queue_frames = type_int

-- VARIANT_TRUE is -1.
abbrev pub variant_bool : Bool → Variant
variant_bool true = vt_bool (negsuc 0)
variant_bool false = vt_bool (pos 0)

-- What PropertyBag_Read puts into `Var`.
unfoldable pub bag_value : Key → Options → Variant
bag_value key_enable_deinterlace o = variant_bool o.enable_deinterlace
bag_value key_deinterlace_method o = vt_int o.deinterlace_method
bag_value key_adapt_progressive o = variant_bool o.adapt_progressive
bag_value key_adapt_telecine o = variant_bool o.adapt_telecine
bag_value key_interlaced_flag o = variant_bool o.interlaced_flag
bag_value key_brightness o = vt_int o.brightness
bag_value key_contrast o = vt_int o.contrast
bag_value key_hue o = vt_int o.hue
bag_value key_saturation o = vt_int o.saturation
bag_value key_num_threads o = vt_int o.num_threads
bag_value key_enable_dxva2 o = variant_bool o.enable_dxva2
bag_value key_enable_d3d11 o = variant_bool o.enable_d3d11
bag_value key_num_queue_frames o = vt_int (of_word o.num_queue_frames)

-- The chain of comparisons: the first option whose name is equal to the given one, as `matches`
-- tells.
abbrev pub find_key : (Key → Bool) → List Key → Option Key
find_key matches [] = none
find_key matches (k ∷ ks) = if matches k then some k else find_key matches ks

-- `change dest src t` is the result and the new `*dest` of VariantChangeType.
abbrev pub Change : Type 0
Change = Variant → Variant → Vartype → Hresult × Variant

unfoldable pub read_key : Change → Option Key → Variant → Options → Hresult × Variant
read_key change none var o = (e_invalidarg, var)
read_key change (some k) var o =
    if vartype_index (vartype var) == 0
    then (s_ok, bag_value k o)
    else change var (bag_value k o) (vartype var)

-- A null pointer is `none`.
unfoldable pub property_bag_read :
    Change → Option (Key → Bool) → Option Variant → Options → Hresult × Option Variant
property_bag_read change none var o = (e_pointer, var)
property_bag_read change (some matches) none o = (e_pointer, none)
property_bag_read change (some matches) (some var) o =
    let r = read_key change (find_key matches all_keys) var o in (r.0, some r.1)

-- ChangeType, which asks Windows only for another type.
unfoldable pub change_type : Change → Vartype → Variant → Hresult × Variant
change_type change t v =
    if vartype_index (vartype v) == vartype_index t then (s_ok, v) else change v v t

unfoldable pub write_key : Change → Bool → Option Key → Variant → Options → Options × Hresult
write_key change windows8 none v o = (o, e_invalidarg)
write_key change windows8 (some k) v o =
    let c = change_type change (key_vartype k) v in
    if failed c.0 then (o, c.0) else ((assign windows8 k (number c.1) o).0, c.0)

unfoldable pub property_bag_write :
    (Variant → Hresult × Variant)
    → Change
    → Bool
    → Option (Key → Bool)
    → Option Variant
    → Options
    → Options × Hresult
property_bag_write copy change windows8 none var o = (o, e_pointer)
property_bag_write copy change windows8 (some matches) none o = (o, e_pointer)
property_bag_write copy change windows8 (some matches) (some var) o =
    let c = copy var in
    if failed c.0 then (o, c.0) else write_key change windows8 (find_key matches all_keys) c.1 o

-- The loop of PropertyBag2_Read over the names with their types and over the values.
unfoldable pub property_bag2_read :
    Change
    → List (Option (Key → Bool) × Vartype)
    → List Variant
    → Options
    → List (Hresult × Option Variant)
property_bag2_read change ((name, t) ∷ props) (v ∷ vs) o =
    property_bag_read change name (some (retype t v)) o ∷ property_bag2_read change props vs o
property_bag2_read change _ _ o = []

-- The loop of PropertyBag2_Write.
unfoldable pub property_bag2_write :
    (Variant → Hresult × Variant)
    → Change
    → Bool
    → List (Option (Key → Bool) × Variant)
    → Options
    → Options × Hresult
property_bag2_write copy change windows8 [] o = (o, s_ok)
property_bag2_write copy change windows8 ((name, v) ∷ props) o =
    property_bag2_write copy change windows8 props
      (property_bag_write copy change windows8 name (some v) o).0
