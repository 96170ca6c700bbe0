-- ===== src/Capture/Stale.antt =====
-- The coefficients that CFrameCapture of src/FrameCapture.cpp converts with.
use tvtest_video_decoder.Base.{
  ℕ, ◌≡◌, ◌≢◌, refl, ◌∙◌, sym, arith, Bool, true, false, List, [], ◌∷◌, Option, none, some, ◌==◌,
  Bool-cases, inl, inr, ==_iff, subst,
}
use tvtest_video_decoder.Types.{Subtype}
use tvtest_video_decoder.FrameBuffer.{allocate}
use tvtest_video_decoder.Base.Int.{pos}
use tvtest_video_decoder.Pixels.Upsample.{Plane}
use tvtest_video_decoder.Pixels.Rgb.{setup_parameters}
use tvtest_video_decoder.Pixels.Converter.{
  Picture, Converter, Conversion, refused, faulted, made, initialize_mpeg2, convert, reserve,
  is_i420, is_rgb,
}
use tvtest_video_decoder.Capture.{
  Capture, Services, Sequence, color_description, follow_color, hand_over, finish_rgb, convert_rgb,
  is_progressive, capture_rgb, frame_capture_callback,
}

-- What the conversions depend on.
pub record SameColor (a b : Capture) : Type 0 where
  pub object : a.object ≡ b.object
  pub subtype : a.subtype ≡ b.subtype
  pub parameters : a.converter.parameters ≡ b.converter.parameters
  pub coefficients : a.matrix_coefficients ≡ b.matrix_coefficients

-- The coefficients change: the converter gets those that were kept.
follow_color-changed :
    (k : ℕ) (c : Capture)
    → c.matrix_coefficients ≢ k
    → ((follow_color k c).object ≡ c.object)
      × ((follow_color k c).subtype ≡ c.subtype)
      × ((follow_color k c).converter.parameters ≡ setup_parameters c.matrix_coefficients false)
      × ((follow_color k c).matrix_coefficients ≡ k)
unfolding follow_color initialize_mpeg2
follow_color-changed k c h =
    let t : (c.matrix_coefficients == k) ≡ false = ground arith in rw t (refl, refl, refl, refl)

convert-parameters :
    (malloc : ℕ → Option ℕ) (dst src : Option Picture) (progressive : Bool) (u v : Plane)
    (c : Converter)
    → (convert malloc dst src progressive u v c).0.parameters ≡ c.parameters
unfolding convert reserve
convert-parameters malloc none src progressive u v c = refl
convert-parameters malloc (some d) none progressive u v c = refl
convert-parameters malloc (some d) (some s) progressive u v c = ground arith

finish_rgb-SameColor :
    (s : Services) (sequence : Option Sequence) (frame rgb : Picture) (m : Conversion) (c : Capture)
    → SameColor (finish_rgb s sequence frame rgb m c).0 c
unfolding finish_rgb hand_over
finish_rgb-SameColor s sequence frame rgb refused c = ground arith
finish_rgb-SameColor s sequence frame rgb faulted c = ground arith
finish_rgb-SameColor s sequence frame rgb (made bytes) c = ground arith

convert_rgb-SameColor :
    (s : Services) (sequence : Option Sequence) (frame rgb : Picture) (c : Capture)
    → SameColor (convert_rgb s sequence frame rgb c).0 c
unfolding convert_rgb
convert_rgb-SameColor s sequence frame rgb c =
    let (converter, made_of) =
      convert s.scratch_malloc (some rgb) (some frame) (is_progressive frame.buffer) s.scratch_u
        s.scratch_v c.converter in
    let after =
      finish_rgb-SameColor s sequence frame rgb made_of (record c { converter = converter }) in
    record {
      object = after.object;
      subtype = after.subtype;
      parameters =
          after.parameters
          ∙ convert-parameters s.scratch_malloc (some rgb) (some frame)
              (is_progressive frame.buffer) s.scratch_u s.scratch_v c.converter;
      coefficients = after.coefficients;
    }

capture_rgb-SameColor :
    (s : Services) (sequence : Option Sequence) (frame : Picture) (c : Capture)
    → SameColor
        (capture_rgb s sequence frame c).0
        (follow_color (color_description sequence).matrix_coefficients c)
unfolding capture_rgb
capture_rgb-SameColor s sequence frame c =
    let f = follow_color (color_description sequence).matrix_coefficients c in
    let r = allocate s.malloc (pos frame.width) (pos frame.height) c.subtype f.rgb.buffer in
    let rgb : Picture = record f.rgb { buffer = r.0; y = s.bytes_of r.0 } in
    elim (Bool-cases r.1) [
      | inl e ↦ rw e (convert_rgb-SameColor s sequence frame rgb f)
      | inr e ↦
          rw e (record { object = refl; subtype = refl; parameters = refl; coefficients = refl })
    ]

-- The frames of a stream, each with the sequence that it belongs to.
pub callbacks : Services → List (Option Sequence × Picture) → Capture → Capture
callbacks s [] c = c
callbacks s ((sequence, frame) ∷ fs) c =
    callbacks s fs (frame_capture_callback s true sequence (some frame) c).0

-- All frames are in I420 and have the matrix coefficients `k`.
unfoldable pub HaveColor : ℕ → List (Option Sequence × Picture) → Type 0
HaveColor k [] = Unit {0}
HaveColor k ((sequence, frame) ∷ fs) =
    ((color_description sequence).matrix_coefficients ≡ k)
    × (is_i420 frame.subtype ≡ true)
    × HaveColor k fs

rgb-not_i420 : (s : Subtype) → is_rgb s ≡ true → is_i420 s ≡ false
rgb-not_i420 s h = ground arith

module _ (s : Services) (p : ℕ) where
  -- A callback that asks for RGB is its branch for RGB.
  pub callback-rgb :
      (sequence : Option Sequence) (frame : Picture) (c : Capture)
      → c.object ≡ some p
      → is_rgb c.subtype ≡ true
      → is_i420 frame.subtype ≡ true
      → frame_capture_callback s true sequence (some frame) c ≡ capture_rgb s sequence frame c
  unfolding frame_capture_callback
  callback-rgb sequence frame c o rgb i = rw (o, i, rgb-not_i420 c.subtype rgb, rgb)

  callback-follow :
      (sequence : Option Sequence) (frame : Picture) (c : Capture)
      → c.object ≡ some p
      → is_rgb c.subtype ≡ true
      → is_i420 frame.subtype ≡ true
      → SameColor
          (frame_capture_callback s true sequence (some frame) c).0
          (follow_color (color_description sequence).matrix_coefficients c)
  callback-follow sequence frame c o rgb i =
      subst (λ r. SameColor r.0 (follow_color (color_description sequence).matrix_coefficients c))
        (sym (callback-rgb sequence frame c o rgb i)) (capture_rgb-SameColor s sequence frame c)

  pub follow_color-same : (k : ℕ) (c : Capture) → c.matrix_coefficients ≡ k → follow_color k c ≡ c
  unfolding follow_color
  follow_color-same k c e = let t : (c.matrix_coefficients == k) ≡ true = (==_iff _ _).1 e in rw t

  -- While the coefficients stay, so do the parameters.
  callbacks-settled :
      (k : ℕ) (frames : List (Option Sequence × Picture)) (c : Capture)
      → c.object ≡ some p
      → is_rgb c.subtype ≡ true
      → c.matrix_coefficients ≡ k
      → HaveColor k frames
      → SameColor (callbacks s frames c) c
  unfolding callbacks HaveColor
  callbacks-settled k [] c o rgb m h = record {
    object = refl;
    subtype = refl;
    parameters = refl;
    coefficients = refl;
  }
  callbacks-settled k ((sequence, frame) ∷ fs) c o rgb m (e, i, h) =
      let c' = (frame_capture_callback s true sequence (some frame) c).0 in
      let color : follow_color (color_description sequence).matrix_coefficients c ≡ c =
        follow_color-same _ c (m ∙ sym e) in
      let first : SameColor c' c =
        subst (λ d. SameColor c' d) color (callback-follow sequence frame c o rgb i) in
      let rest =
        callbacks-settled k fs c' (first.object ∙ o)
          (subst (λ t. is_rgb t ≡ true) (sym first.subtype) rgb) (first.coefficients ∙ m) h in
      record {
        object = rest.object ∙ first.object;
        subtype = rest.subtype ∙ first.subtype;
        parameters = rest.parameters ∙ first.parameters;
        coefficients = rest.coefficients ∙ first.coefficients;
      }

  -- When frames in I420 with other matrix coefficients than those kept come to be captured in RGB,
  -- the converter is set up for the coefficients that were kept before, and stays so as long as the
  -- new coefficients last.
  pub callbacks-stale :
      (k : ℕ) (sequence : Option Sequence) (frame : Picture)
      (frames : List (Option Sequence × Picture)) (c : Capture)
      → c.object ≡ some p
      → is_rgb c.subtype ≡ true
      → c.matrix_coefficients ≢ k
      → HaveColor k ((sequence, frame) ∷ frames)
      → ((callbacks s ((sequence, frame) ∷ frames) c).converter.parameters
          ≡ setup_parameters c.matrix_coefficients false)
        × ((callbacks s ((sequence, frame) ∷ frames) c).matrix_coefficients ≡ k)
  unfolding callbacks HaveColor
  callbacks-stale k sequence frame frames c o rgb m (e, i, h) =
      let c' = (frame_capture_callback s true sequence (some frame) c).0 in
      let first = callback-follow sequence frame c o rgb i in
      let follows : SameColor c' (follow_color k c) =
        subst (λ j. SameColor c' (follow_color j c)) e first in
      let (object, subtype, parameters, coefficients) = follow_color-changed k c m in
      let rest =
        callbacks-settled k frames c' (follows.object ∙ object ∙ o)
          (subst (λ t. is_rgb t ≡ true) (sym (follows.subtype ∙ subtype)) rgb)
          (follows.coefficients ∙ coefficients) h in
      (
        rest.parameters ∙ follows.parameters ∙ parameters,
        rest.coefficients ∙ follows.coefficients ∙ coefficients,
      )
