-- ===== src/Examples/Captures.antt =====
-- The frame capture of src/FrameCapture.cpp at a small frame.
use tvtest_video_decoder.Base.{
  ◌+◌, ◌*◌, ◌≡◌, refl, arith, true, false, [], ◌∷◌, none, some, inl, inr,
}
use tvtest_video_decoder.Types.{s_ok, i420, rgb24, weave, has_flag}
use tvtest_video_decoder.FrameBuffer.{FrameBuffer}
use tvtest_video_decoder.FrameBuffer as Buffers
use tvtest_video_decoder.Pixels.Rgb.{setup_parameters}
use tvtest_video_decoder.Pixels.Converter.{Picture, Converter, initialize_mpeg2}
use tvtest_video_decoder.Pixels.Converter as Converters
use tvtest_video_decoder.Capture.{
  Capture, Services, Sequence, frame_capture_callback, frame_info, new, color_description,
}
use tvtest_video_decoder.Capture.References.{
  set, unset, calls, added, released, held, calls-balanced,
}
use tvtest_video_decoder.Capture.Stale.{callbacks, HaveColor, callbacks-stale}
use tvtest_video_decoder.Capture.Pictures.{converted_channel, callback-captures}

abbrev no_picture : Picture
no_picture = record { buffer = Buffers.new weave; y = λ r x. 0; u = λ r x. 128; v = λ r x. 128 }

-- A grey frame of 4 by 4 pixels.
abbrev grey : Picture
grey = record {
  buffer = record (Buffers.new weave) {
    width = 4;
    height = 4;
    plane0 = some 100;
    plane1 = some 200;
    plane2 = some 300;
    subtype = i420;
  };
  y = λ r x. 126;
  u = λ r x. 128;
  v = λ r x. 128;
}

abbrev converter : Converter
converter = initialize_mpeg2 1 false (Converters.new (setup_parameters 0 false) (λ i. 0))

abbrev capturing : Capture
capturing = record (new rgb24 converter no_picture) { object = some 7; matrix_coefficients = 1 }

abbrev services : Services
services = record {
  malloc = λ n. some 4096;
  scratch_malloc = λ n. some 8192;
  bytes_of = λ b r x. 0;
  scratch_u = λ r x. 0;
  scratch_v = λ r x. 0;
  on_frame = λ info. s_ok;
}

calls-balanced_example :
    held 7 capturing.object
      + added 7 (calls (set (some 7) rgb24 ∷ set (some 9) i420 ∷ unset ∷ []) capturing).1
    ≡ released 7 (calls (set (some 7) rgb24 ∷ set (some 9) i420 ∷ unset ∷ []) capturing).1
      + held 7 (calls (set (some 7) rgb24 ∷ set (some 9) i420 ∷ unset ∷ []) capturing).0.object
calls-balanced_example =
    calls-balanced 7 (set (some 7) rgb24 ∷ set (some 9) i420 ∷ unset ∷ []) capturing

-- The sequence of a stream in standard definition.
abbrev sd : Sequence
sd = record {
  flags = 16;
  colour_primaries = 6;
  matrix_coefficients = 6;
  transfer_characteristics = 6;
}

callbacks-stale_example :
    ((callbacks services ((some sd, grey) ∷ (some sd, grey) ∷ []) capturing).converter.parameters
      ≡ setup_parameters 1 false)
    × ((callbacks services ((some sd, grey) ∷ (some sd, grey) ∷ []) capturing).matrix_coefficients
        ≡ 6)
unfolding HaveColor color_description has_flag new Buffers.new
callbacks-stale_example =
    callbacks-stale services 7 6 (some sd) grey ((some sd, grey) ∷ []) capturing refl refl
      (omega arith) (refl, refl, (refl, refl, tt))

callback-captures_example :
    (out : Picture) × (let info = frame_info rgb24 none grey out in
      let called = frame_capture_callback services true none (some grey) capturing in
      (called.1 ≡ s_ok) × (called.2 ≡ some info))
    × (out.subtype ≡ rgb24)
    × (out.y 3 (2 * 3 + 1) ≡ converted_channel 1 services grey 3 2 1)
unfolding color_description initialize_mpeg2 Converters.new new Buffers.new
callback-captures_example =
    callback-captures services 1 7 none grey capturing
      (record {
        heap = λ n. refl;
        scratch = λ n. refl;
        u_bytes = λ r x. omega arith;
        v_bytes = λ r x. omega arith;
      })
      (record {
        wide = omega arith;
        high = omega arith;
        even_width = omega arith;
        even_height = omega arith;
        whole_turns = inr (omega arith);
        room = omega arith;
        from_i420 = refl;
        plane = refl;
        y_bytes = λ r x. omega arith;
        u_bytes = λ r x. omega arith;
        v_bytes = λ r x. omega arith;
      })
      refl refl (inl refl) refl (record { parameters = refl; table = refl }) 3 2 1 (omega arith)
      (omega arith) (omega arith)
