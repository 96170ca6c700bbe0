-- ===== src/Pixels/Conversions.antt =====
-- The pictures that YUVToRGBConverter of src/PixelFormatConvert.cpp makes of frames of bytes.
use tvtest_video_decoder.Base.{
  ℕ, zero, suc, ◌+◌, ◌-◌, ◌*◌, ◌/◌, ◌≤◌, ◌<◌, ◌≡◌, ◌∙◌, arith, Bool, true, false, ltb, ◌==◌, ==_iff,
  if_elim, Option, some, if◌then◌else◌,
}
use tvtest_video_decoder.Types.{rgb24, same_subtype}
use tvtest_video_decoder.Pixels.Upsample.{
  Plane, write_row, weigh, upsample_p, upsample_p_rows, upsample_i, upsample_i_rows,
  upsample_i_turn,
}
use tvtest_video_decoder.Pixels.Rgb.{Parameters, setup_parameters, rgb_rows}
use tvtest_video_decoder.Pixels.Picture.{IsBytes, channel, rows_made}
use tvtest_video_decoder.Pixels.Saturation.{saturated}
use tvtest_video_decoder.Pixels.Converter.{
  Picture, Converter, made, initialize_mpeg2, convert, convert_frame, upsample, i422_to_rgb,
  is_null, reserve, upsampled_rows, scratch_bytes, is_i420, is_rgb,
}

write_row-IsBytes :
    (width q : ℕ) (row : ℕ → ℕ) (dst : Plane)
    → ((x : ℕ) → row x < 256)
    → IsBytes dst
    → IsBytes (write_row width q row dst)
unfolding write_row
write_row-IsBytes width q row dst h d r x = ground (arith, h x, d r x)

-- A weighted mean of two bytes is a byte.
weigh-lt4 : (a b : ℕ) → a < 256 → b < 256 → (weigh a 3 b 1 4 < 256) × (weigh a 1 b 3 4 < 256)
unfolding weigh
weigh-lt4 a b h k = omega arith

weigh-lt8 :
    (a b : ℕ)
    → a < 256
    → b < 256
    → (weigh a 5 b 3 8 < 256)
      × (weigh a 7 b 1 8 < 256)
      × (weigh a 1 b 7 8 < 256)
      × (weigh a 3 b 5 8 < 256)
unfolding weigh
weigh-lt8 a b h k = omega arith

p_rows-IsBytes :
    (width n q p : ℕ) (src dst : Plane)
    → IsBytes src
    → IsBytes dst
    → IsBytes (upsample_p_rows width n q p src dst)
unfolding upsample_p_rows
p_rows-IsBytes width zero q p src dst s d = write_row-IsBytes width q _ dst (s p) d
p_rows-IsBytes width (suc n) q p src dst s d =
    let means = λ (x : ℕ). weigh-lt4 (src p x) (src (p + 1) x) (s p x) (s (p + 1) x) in
    p_rows-IsBytes width n (q + 2) (p + 1) src _ s (
      write_row-IsBytes width (q + 1) _ _ (λ x. (means x).1)
        (write_row-IsBytes width q _ dst (λ x. (means x).0) d))

i_rows-IsBytes :
    (width n q p : ℕ) (src dst : Plane)
    → IsBytes src
    → IsBytes dst
    → IsBytes (upsample_i_rows width n q p src dst)
unfolding upsample_i_rows upsample_i_turn
i_rows-IsBytes width zero q p src dst s d =
    write_row-IsBytes width (q + 1) _ _ (s (p + 1)) (write_row-IsBytes width q _ dst (s p) d)
i_rows-IsBytes width (suc n) q p src dst s d =
    let top = λ (x : ℕ). weigh-lt8 (src p x) (src (p + 2) x) (s p x) (s (p + 2) x) in
    let bottom = λ (x : ℕ). weigh-lt8 (src (p + 1) x) (src (p + 3) x) (s (p + 1) x) (s (p + 3) x) in
    i_rows-IsBytes width n (q + 4) (p + 2) src _ s (
      write_row-IsBytes width (q + 3) _ _ (λ x. (bottom x).3)
        (write_row-IsBytes width (q + 2) _ _ (λ x. (top x).2)
          (write_row-IsBytes width (q + 1) _ _ (λ x. (bottom x).1)
            (write_row-IsBytes width q _ dst (λ x. (top x).0) d))))

-- Between the steps stand bytes again.
pub upsample-IsBytes :
    (progressive : Bool) (width height : ℕ) (from : Option ℕ) (src dst : Plane)
    → IsBytes src
    → IsBytes dst
    → IsBytes (upsample progressive width height from src dst)
unfolding upsample upsample_p upsample_i
upsample-IsBytes progressive width height from src dst s d = if_elim IsBytes _ d (
    if_elim IsBytes progressive
      (p_rows-IsBytes (width / 2) ((height - 1) / 2) 1 0 src _ s
        (write_row-IsBytes (width / 2) 0 _ dst (s 0) d))
      (i_rows-IsBytes (width / 2) ((height - 1) / 4) 2 0 src _ s (
        write_row-IsBytes (width / 2) 1 _ _ (s 1) (write_row-IsBytes (width / 2) 0 _ dst (s 0) d))))

-- What YUVToRGBConverter::Convert asks of its two frames and of the memory.
pub record IsConvertible (malloc : ℕ → Option ℕ) (dst src : Picture) (c : Converter) : Type 0 where
  pub same_width : dst.width ≡ src.width
  pub same_height : dst.height ≡ src.height
  pub wide : 0 < src.width
  pub high : 0 < src.height
  pub to_rgb : is_rgb dst.subtype ≡ true
  pub from_i420 : is_i420 src.subtype ≡ true
  pub to_memory : is_null dst.plane0 ≡ false
  pub from_memory : is_null src.plane0 ≡ false
  pub reserved : (reserve malloc (scratch_bytes src.buffer) c).1 ≡ true

-- The bytes of a pixel in the destination.
abbrev pub pixel_bytes : Picture → ℕ
pixel_bytes dst = if same_subtype dst.subtype rgb24 then 3 else 4

reserve-keeps :
    (malloc : ℕ → Option ℕ) (size : ℕ) (c : Converter)
    → ((reserve malloc size c).0.parameters ≡ c.parameters)
      × ((reserve malloc size c).0.table ≡ c.table)
unfolding reserve
reserve-keeps malloc size c = ground arith

convert-passes :
    (malloc : ℕ → Option ℕ) (dst src : Picture) (progressive : Bool) (u v : Plane) (c : Converter)
    → IsConvertible malloc dst src c
    → (convert malloc (some dst) (some src) progressive u v c).1
      ≡ convert_frame (reserve malloc (scratch_bytes src.buffer) c).0 dst src progressive u v
unfolding convert
convert-passes malloc dst src progressive u v c ok =
    let w : (dst.width == src.width) ≡ true = (==_iff _ _).1 ok.same_width in
    let h : (dst.height == src.height) ≡ true = (==_iff _ _).1 ok.same_height in
    rw (w, h, ok.to_rgb, ok.from_i420, ok.reserved)

i422_to_rgb-made :
    (width height : ℕ) (to from : Option ℕ) (planes : ℕ) (p : Parameters) (table : ℕ → ℕ)
    (y u v dst rgb : Plane)
    → 0 < width
    → 0 < height
    → 3 ≤ planes
    → is_null to ≡ false
    → is_null from ≡ false
    → rgb_rows p table planes width height 0 y u v dst ≡ some rgb
    → i422_to_rgb width height to planes from p table y u v dst ≡ made rgb
unfolding i422_to_rgb
i422_to_rgb-made width height to from planes p table y u v dst rgb w h three t f e =
    let w' : (width == 0) ≡ false = ground arith in
    let h' : (height == 0) ≡ false = ground arith in
    let three' : ltb planes 3 ≡ false = ground arith in rw (w', h', three', t, f, e)

-- Convert of frames of bytes succeeds where its tests are passed, memory is there and the chroma is
-- not written behind its buffer, and each byte of a pixel is the sum of the matrix held to a byte.
pub convert-converted :
    (malloc : ℕ → Option ℕ) (matrix_coefficients : ℕ) (straight progressive : Bool)
    (old_u old_v : Plane) (dst src : Picture) (c : Converter)
    → IsConvertible malloc dst src (initialize_mpeg2 matrix_coefficients straight c)
    → IsBytes src.y
    → IsBytes src.u
    → IsBytes src.v
    → IsBytes old_u
    → IsBytes old_v
    → upsampled_rows progressive src.height ≤ src.height
    → (rgb : Plane) × ((convert malloc
          (some dst)
          (some src)
          progressive
          old_u
          old_v
          (initialize_mpeg2 matrix_coefficients straight c)).1
        ≡ made rgb)
      × ((r x k : ℕ)
          → r < src.height
          → x < src.width
          → k < 3
          → rgb r (x * pixel_bytes dst + k)
            ≡ channel k (
                saturated
                  (setup_parameters matrix_coefficients straight)
                  (src.y r x)
                  (upsample progressive src.width src.height src.plane1 src.u old_u r (x / 2))
                  (upsample progressive src.width src.height src.plane2 src.v old_v r (x / 2))))
unfolding initialize_mpeg2
convert-converted malloc m straight progressive old_u old_v dst src c ok y u v ou ov rows =
    let c' = initialize_mpeg2 m straight c in
    let size = scratch_bytes src.buffer in
    let up = upsample progressive src.width src.height src.plane1 src.u old_u in
    let vp = upsample progressive src.width src.height src.plane2 src.v old_v in
    let three : 3 ≤ pixel_bytes dst = ground arith in
    let (rgb, e, pixels, _) =
      rows_made m straight (pixel_bytes dst) three src.y up vp y
        (upsample-IsBytes progressive src.width src.height src.plane1 src.u old_u u ou)
        (upsample-IsBytes progressive src.width src.height src.plane2 src.v old_v v ov) src.width
        src.height 0 dst.y in
    let within : ltb src.height (upsampled_rows progressive src.height) ≡ false = ground arith in
    let (parameters, table) = reserve-keeps malloc size c' in
    (
      rgb,
      convert-passes malloc dst src progressive old_u old_v c' ok
          ∙ unfold convert_frame in
            rw (within, parameters, table)
              (i422_to_rgb-made src.width src.height dst.plane0 src.plane0 (pixel_bytes dst) _ _
                src.y up vp dst.y rgb ok.wide ok.high three ok.to_memory ok.from_memory e),
      λ r x k hr hx hk. pixels r x k (omega arith) (omega arith) hx hk,
    )
