-- ===== src/Examples/Streams.antt =====
-- The decoder of a raw stream, src/VideoFrameDecoder.cpp, on short streams.
use tvtest_video_decoder.Base.{◌≡◌, refl, arith, true, false, List, [], ◌∷◌, some}
use tvtest_video_decoder.Types.{s_ok, weave}
use tvtest_video_decoder.FrameBuffer.{new}
use tvtest_video_decoder.FrameDecoder.{
  Services, Decoder, Picture, Event, parse_buffer, parse_invalid, parse_picture, parse_slice,
  opened, frame_ok, new_decoder,
}
use tvtest_video_decoder.FrameDecoder.Stream.{input_loop}
use tvtest_video_decoder.FrameDecoder.Handles.{is_fault, input_loop-safe}
use tvtest_video_decoder.FrameDecoder.Ends.{is_returned, input_loop-returns}
use tvtest_video_decoder.FrameDecoder.KeyFrames.{input_loop-Waits}

-- Everything succeeds, and one method doubles the frames.
abbrev services : Services
services = record {
  deinterlace = λ m top field. frame_ok;
  is_double_frame = λ m. true;
  capture = λ b. s_ok;
  malloc = λ n. some 4096;
  mpeg2_init = λ n. true;
}

abbrev decoder : Decoder
decoder = record (new_decoder (new weave)) { mpeg2 = opened 0; init_calls = 1 }

-- A P picture and an I picture of 16 by 16.
abbrev p_picture : Picture
p_picture = record { width = 16; height = 16; aspect = some (1, 1); sequence_flags = 0; flags = 2 }

abbrev i_picture : Picture
i_picture = record p_picture { flags = 1 }

abbrev stream : List Event
stream =
    parse_buffer ∷ parse_picture 2 ∷ parse_slice (some (true, some p_picture)) ∷ parse_buffer ∷ []

input_loop-Waits_example :
    (input_loop services (some 0) true (parse_invalid ∷ stream) decoder).0.captured ≡ []
unfolding new_decoder
input_loop-Waits_example =
    input_loop-Waits [] services (some 0) true (parse_invalid ∷ stream) decoder
      (record { waits = refl; enabled = refl; captured = refl }) refl

input_loop-safe_example :
    is_fault
      (input_loop services
        (some 0)
        true
        (parse_slice (some (true, some i_picture)) ∷ stream)
        decoder).1
    ≡ false
input_loop-safe_example =
    input_loop-safe services 0 true (parse_slice (some (true, some i_picture)) ∷ stream) decoder
      refl refl

input_loop-returns_example :
    is_returned (input_loop services (some 0) true (parse_picture 1 ∷ stream) decoder).1 ≡ true
input_loop-returns_example =
    input_loop-returns services 0 true (parse_picture 1 ∷ stream) decoder refl refl (omega arith)
