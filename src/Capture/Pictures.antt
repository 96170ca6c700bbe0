-- ===== src/Capture/Pictures.antt =====
-- The pictures that FrameCaptureCallback of src/FrameCapture.cpp hands over in RGB.
use tvtest_video_decoder.Base.{
  ℕ, ◌+◌, ◌*◌, ◌/◌, ◌%◌, ◌^◌, ◌<◌, ◌≡◌, refl, ◌∙◌, sym, ap, arith, Bool, true, false, Option, some,
  ◌≤◌, ◌⊎◌, if◌then◌else◌, Option-cases, inl, inr, subst,
}
use tvtest_video_decoder.Base.Int.{pos}
use tvtest_video_decoder.Types.{Subtype, same_subtype, rgb24}
use tvtest_video_decoder.FrameBuffer.{allocate}
use tvtest_video_decoder.Pixels.Upsample.{Plane}
use tvtest_video_decoder.Pixels.Rgb.{setup_parameters, convert_table}
use tvtest_video_decoder.Pixels.Saturation.{saturated}
use tvtest_video_decoder.Pixels.Picture.{IsBytes, channel}
use tvtest_video_decoder.Pixels.Converter.{
  Picture, Converter, made, initialize_mpeg2, convert, reserve, upsample, upsampled_rows, is_i420,
  is_rgb, is_null, scratch_bytes,
}
use tvtest_video_decoder.Pixels.Conversions.{IsConvertible, pixel_bytes, convert-converted}
use tvtest_video_decoder.Capture.{
  Capture, Services, Sequence, color_description, frame_info, hand_over, finish_rgb, convert_rgb,
  is_progressive, capture_rgb, frame_capture_callback, Called,
}
use tvtest_video_decoder.Capture.Stale.{callback-rgb, follow_color-same}
use tvtest_video_decoder.Capture.Allocated.{HasPlane, allocate-IsAllocated}

reserve-total :
    (malloc : ℕ → Option ℕ) (size : ℕ) (c : Converter)
    → ((n : ℕ) → is_null (malloc n) ≡ false)
    → (reserve malloc size c).1 ≡ true
unfolding reserve
reserve-total malloc size c total = elim (Option-cases (malloc size)) [
  | inl e ↦ let wrong : true ≡ false = subst (λ o. is_null o ≡ false) e (total size) in cc
  | inr (p, e) ↦ rw e (ground arith)
]

-- The converter stands as it was initialised for the coefficients `m`.
pub record IsInitialized (m : ℕ) (c : Converter) : Type 0 where
  pub parameters : c.parameters ≡ setup_parameters m false
  pub table : c.table ≡ convert_table

initialize-IsInitialized :
    (m : ℕ) (c : Converter) → IsInitialized m c → initialize_mpeg2 m false c ≡ c
unfolding initialize_mpeg2
initialize-IsInitialized m c i = rw (← i.parameters, ← i.table)

-- What can be captured: a frame of bytes in I420, of even size and of a height in fours where it is
-- interlaced, for which the size of the RGB block does not overflow.
pub record IsFrame (frame : Picture) : Type 0 where
  pub wide : 0 < frame.width
  pub high : 0 < frame.height
  pub even_width : frame.width % 2 ≡ 0
  pub even_height : frame.height % 2 ≡ 0
  pub whole_turns : (is_progressive frame.buffer ≡ true) ⊎ (frame.height % 4 ≡ 0)
  pub room : (4 * frame.width + 62) * frame.height < 2 ^ 31
  pub from_i420 : is_i420 frame.subtype ≡ true
  pub plane : is_null frame.plane0 ≡ false
  pub y_bytes : IsBytes frame.y
  pub u_bytes : IsBytes frame.u
  pub v_bytes : IsBytes frame.v

-- Memory is never refused, and holds bytes.
pub record IsAmple (s : Services) : Type 0 where
  pub heap : (n : ℕ) → is_null (s.malloc n) ≡ false
  pub scratch : (n : ℕ) → is_null (s.scratch_malloc n) ≡ false
  pub u_bytes : IsBytes s.scratch_u
  pub v_bytes : IsBytes s.scratch_v

-- Channel `k` of the pixel at the row `r` and the column `x`, by the matrix of `m`.
abbrev pub converted_channel : ℕ → Services → Picture → ℕ → ℕ → ℕ → ℕ
converted_channel m s frame r x k = channel k (
    saturated (setup_parameters m false) (frame.y r x)
      (upsample (is_progressive frame.buffer) frame.width frame.height frame.plane1 frame.u
        s.scratch_u r (x / 2))
      (upsample (is_progressive frame.buffer) frame.width frame.height frame.plane2 frame.v
        s.scratch_v r (x / 2)))

upsampled_rows-le :
    (progressive : Bool) (height : ℕ)
    → 0 < height
    → height % 2 ≡ 0
    → (progressive ≡ true) ⊎ (height % 4 ≡ 0)
    → upsampled_rows progressive height ≤ height
unfolding upsampled_rows
upsampled_rows-le true height h even turns = omega arith
upsampled_rows-le false height h even (inl e) = cc
upsampled_rows-le false height h even (inr e) = omega arith

convert_rgb-made :
    (s : Services) (sequence : Option Sequence) (frame rgb : Picture) (c : Capture) (bytes : Plane)
    → (convert s.scratch_malloc
        (some rgb)
        (some frame)
        (is_progressive frame.buffer)
        s.scratch_u
        s.scratch_v
        c.converter).1
      ≡ made bytes
    → (let info = frame_info c.subtype sequence frame (record rgb { y = bytes }) in
        let r = convert_rgb s sequence frame rgb c in (r.1 ≡ s.on_frame info) × (r.2 ≡ some info))
unfolding convert_rgb finish_rgb hand_over
convert_rgb-made s sequence frame rgb c bytes e = rw e (refl, refl)

capture_rgb-allocated :
    (s : Services) (sequence : Option Sequence) (frame : Picture) (c : Capture)
    → c.matrix_coefficients ≡ (color_description sequence).matrix_coefficients
    → (allocate s.malloc (pos frame.width) (pos frame.height) c.subtype c.rgb.buffer).1 ≡ true
    → capture_rgb s sequence frame c ≡ (
        let b = (allocate s.malloc (pos frame.width) (pos frame.height) c.subtype c.rgb.buffer).0 in
        convert_rgb s sequence frame (record c.rgb { buffer = b; y = s.bytes_of b }) c)
unfolding capture_rgb
capture_rgb-allocated s sequence frame c e ok =
    rw (follow_color-same s 0 (color_description sequence).matrix_coefficients c e, ok)

-- FrameCaptureCallback in RGB hands over a picture of the format asked for, and each byte of its
-- pixels is the sum of the matrix, held to a byte, of the luma and of the chroma of
-- UpsampleI420pToI422 or UpsampleI420iToI422: for a frame of bytes in I420 of even sizes that are
-- not 0, and of a height that 4 divides if it is not progressive, with 4 * width + 62 times the
-- height below 2 ^ 31 and with its first plane, if an object is set, memory is never refused, the
-- buffers of the converter hold bytes, the RGB frame has no size or has its plane, the matrix
-- coefficients are those of the frame, and the converter is initialised for some coefficients. The
-- result is that of OnFrame.
pub callback-captures :
    (s : Services) (m object : ℕ) (sequence : Option Sequence) (frame : Picture) (c : Capture)
    → IsAmple s
    → IsFrame frame
    → c.object ≡ some object
    → is_rgb c.subtype ≡ true
    → HasPlane c.rgb.buffer
    → c.matrix_coefficients ≡ (color_description sequence).matrix_coefficients
    → IsInitialized m c.converter
    → (r x k : ℕ) → r < frame.height
    → x < frame.width
    → k < 3
    → (out : Picture) × (let info = frame_info c.subtype sequence frame out in
        let called = frame_capture_callback s true sequence (some frame) c in
        (called.1 ≡ s.on_frame info) × (called.2 ≡ some info))
      × (out.subtype ≡ c.subtype)
      × (out.y r (x * (if same_subtype c.subtype rgb24 then 3 else 4) + k)
          ≡ converted_channel m s frame r x k)
callback-captures s m object sequence frame c ample f o rgb plane settled initialized r x k hr hx
      hk =
    let a = allocate s.malloc (pos frame.width) (pos frame.height) c.subtype c.rgb.buffer in
    let to : Picture = record c.rgb { buffer = a.0; y = s.bytes_of a.0 } in
    let (allocated, b) =
      allocate-IsAllocated s.malloc frame.width frame.height c.subtype c.rgb.buffer ample.heap
        f.wide f.high f.even_width f.even_height rgb plane in
    let same = initialize-IsInitialized m c.converter initialized in
    let convertible : IsConvertible s.scratch_malloc to frame
        (initialize_mpeg2 m false c.converter) =
      record {
        same_width = b.width;
        same_height = b.height;
        wide = f.wide;
        high = f.high;
        to_rgb = subst (λ t. is_rgb t ≡ true) (sym b.subtype) rgb;
        from_i420 = f.from_i420;
        to_memory = b.plane;
        from_memory = f.plane;
        reserved = reserve-total s.scratch_malloc (scratch_bytes frame.buffer) _ ample.scratch;
      } in
    let (bytes, e, pixels) =
      convert-converted s.scratch_malloc m false (is_progressive frame.buffer) s.scratch_u
        s.scratch_v to frame c.converter convertible f.y_bytes f.u_bytes f.v_bytes ample.u_bytes
        ample.v_bytes
        (upsampled_rows-le (is_progressive frame.buffer) frame.height f.high f.even_height
          f.whole_turns) in
    let converts =
      subst
        (λ k.
          (convert s.scratch_malloc (some to) (some frame) (is_progressive frame.buffer) s.scratch_u
            s.scratch_v k).1
          ≡ made bytes)
        same e in
    let called =
      callback-rgb s object sequence frame c o rgb f.from_i420
      ∙ capture_rgb-allocated s sequence frame c settled allocated in
    let given = convert_rgb-made s sequence frame to c bytes converts in
    let width : pixel_bytes to ≡ (if same_subtype c.subtype rgb24 then 3 else 4) =
      ap (λ (t : Subtype). if same_subtype t rgb24 then 3 else 4) b.subtype in
    (
      record to { y = bytes },
      (ap (λ (t : Called). t.1) called ∙ given.0, ap (λ (t : Called). t.2) called ∙ given.1),
      b.subtype,
      subst (λ w. bytes r (x * w + k) ≡ converted_channel m s frame r x k) width
          (pixels r x k hr hx hk),
    )
