-- ===== src/Examples/Settings.antt =====
-- The options of src/TVTestVideoDecoder.cpp: a registry and a property bag with values.
use tvtest_video_decoder.Base.{◌≡◌, refl, Bool, true, false, none, some, ◌==◌}
use tvtest_video_decoder.Base.Int.{pos, negsuc}
use tvtest_video_decoder.Types.{Hresult, s_ok, e_fail, failed}
use tvtest_video_decoder.Options.{
  Options, Key, default_options, assign, value_of, set_brightness, key_brightness, key_hue,
}
use tvtest_video_decoder.Options.Range.{IsInRange, default_options-IsInRange, assign-IsInRange}
use tvtest_video_decoder.Options.Registry.{key_index, Registry, load_options, save_options}
use tvtest_video_decoder.Options.Registry.RoundTrip.{save_options-load_options}
use tvtest_video_decoder.Options.PropertyBag.Writes.{property_bag_write-read}
use tvtest_video_decoder.Options.PropertyBag.{
  Variant, Change, vt_empty, bag_value, property_bag_read, property_bag_write,
}

abbrev defaults : Options
defaults = default_options (λ i. 0) (λ i. (0, 0))

defaults-IsInRange : IsInRange defaults
defaults-IsInRange = default_options-IsInRange (λ i. 0) (λ i. (0, 0))

abbrev brighter : Options
brighter = (assign true key_brightness (negsuc 29) defaults).0

brighter-IsInRange : IsInRange brighter
brighter-IsInRange = assign-IsInRange true key_brightness (negsuc 29) defaults defaults-IsInRange

assign-IsInRange_example : IsInRange (assign false key_hue (pos 1000) brighter).0
assign-IsInRange_example = assign-IsInRange false key_hue (pos 1000) brighter brighter-IsInRange

-- A registry with one value for every name, out of range for most.
abbrev strange : Registry
strange k = some 4000000000

save_options-load_options_example :
    value_of key_brightness
      (load_options true false none
        (save_options (λ k. true) false none brighter strange).0
        defaults).0
    ≡ value_of key_brightness brighter
save_options-load_options_example =
    save_options-load_options (λ k. true) key_brightness strange brighter defaults
      brighter-IsInRange (λ j. refl)

-- Variants are copied as they are, and no other type can be converted.
abbrev copy : Variant → Hresult × Variant
copy v = (s_ok, v)

abbrev change : Change
change dest src t = (e_fail, dest)

abbrev named : Key → Key → Bool
named k j = key_index j == key_index k

property_bag_write-read_example :
    (property_bag_read change (some (named key_brightness)) (some vt_empty) brighter
      ≡ (s_ok, some (bag_value key_brightness brighter)))
    × ((property_bag_write copy change true
          (some (named key_brightness))
          (some (bag_value key_brightness brighter))
          defaults).1
        ≡ s_ok)
    × (value_of key_brightness
          (property_bag_write copy change true
            (some (named key_brightness))
            (some (bag_value key_brightness brighter))
            defaults).0
        ≡ value_of key_brightness brighter)
property_bag_write-read_example =
    property_bag_write-read copy change (named key_brightness) key_brightness brighter defaults
      brighter-IsInRange refl refl

too_bright : failed (assign true key_brightness (pos 101) defaults).1 ≡ true
unfolding assign set_brightness
too_bright = refl
