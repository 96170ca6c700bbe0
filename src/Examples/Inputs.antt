-- ===== src/Examples/Inputs.antt =====
-- Transform, CheckInputType and the input pin of src/TVTestVideoDecoder.cpp on short inputs.
use tvtest_video_decoder.Base.{ℕ, ◌≡◌, refl, arith, Bool, true, false, ◌&&◌, List, [], ◌∷◌, some}
use tvtest_video_decoder.Base.Int.{pos}
use tvtest_video_decoder.Types.{s_ok, weave, blend}
use tvtest_video_decoder.FrameBuffer.{Attributes, new}
use tvtest_video_decoder.FrameDecoder.{opened}
use tvtest_video_decoder.Telecine.{reset_detection}
use tvtest_video_decoder.Streaming.{Filter, Options, software}
use tvtest_video_decoder.Streaming.Loop.{
  Displayed, Event, parse_buffer, parse_sequence, parse_picture, parse_slice, Services,
  dxva_nothing, d3d11_nothing,
}
use tvtest_video_decoder.Streaming.Transform.{Input, transform}
use tvtest_video_decoder.Streaming.Times.{Laws, is_timed, is_steady}
use tvtest_video_decoder.Streaming.Run.{transform-Keeps}
use tvtest_video_decoder.Input.{
  video, mpeg2_video, check_input_type, decide, is_type_known, chroma_verdict,
}
use tvtest_video_decoder.Input.StartCode.{find_extension, check_input_type-extension}

-- The state behind Transform: the times of the frames that it hands on, the last first.
abbrev Log : Type 0
Log = List Attributes

abbrev all_timed : Log → Bool
all_timed [] = true
all_timed (a ∷ log) = is_timed a && all_timed log

abbrev AllTimed : Log → Type 0
AllTimed log = all_timed log ≡ true

abbrev services : Services Log
services = record {
  mpeg2_init = λ n. true;
  device = λ n. record {
    device_created = false;
    decoder_created = false;
    create_device = s_ok;
    create_decoder = s_ok;
  };
  malloc = λ n. some 4096;
  frame_of = λ d. new weave;
  deliver_frame = λ b log. (b.attributes ∷ log, s_ok);
  deliver_sample = λ n b log. (b.attributes ∷ log, s_ok);
  reconnect = λ b t log. (log, s_ok);
  dxva_lost = λ log. false;
  dxva_decode = λ log. (log, dxva_nothing);
  dxva_close = λ log. log;
  d3d11_decode = λ b log. (log, d3d11_nothing);
  d3d11_lost = λ log. false;
  unlock = λ b log. log;
}

services_laws : Laws services AllTimed
services_laws = record {
  deliver_frame_law = λ b m h p. ground arith;
  deliver_sample_law = λ n b m h p. ground arith;
  reconnect_law = λ b t m p. p;
  dxva_decode_law = λ m p. p;
  dxva_close_law = λ m p. p;
  d3d11_law = λ b m h p. (p, refl);
  unlock_law = λ b m p. p;
}

abbrev options : Options
options = record {
  dxva_output = false;
  d3d11_decode = false;
  drop_frames = false;
  crop_1088_to_1080 = true;
  settings = record {
    deinterlace_method = blend;
    adapt_progressive = true;
    adapt_telecine = true;
    output_interlaced = false;
  };
  input_time = some (pos 333667);
}

abbrev filter : Filter
filter = record {
  decoder = some software;
  mpeg2 = opened 0;
  init_calls = 1;
  picture_start = λ i. pos 0;
  reinit_decoder = false;
  force_software_decoder = false;
  dxva_connect = false;
  wait_for_key_frame = true;
  detection = reset_detection;
  frame = new weave;
  initialized = [];
  avg_time = pos 0;
  statistics = record {
    i_frame_count = 0;
    p_frame_count = 0;
    b_frame_count = 0;
    skipped_frame_count = 0;
    repeat_field_count = 0;
  };
  skips = [];
}

abbrev displayed : Displayed
displayed = record {
  picture = record { width = 16; height = 16; aspect = some (1, 1); sequence_flags = 0; flags = 1 };
  index = 0;
  nb_fields = 2;
  second = false;
}

abbrev events : List Event
events =
    parse_buffer
    ∷ parse_sequence 900900
    ∷ parse_picture 0 1
    ∷ parse_slice true true (some displayed)
    ∷ parse_slice true true (some displayed)
    ∷ parse_buffer
    ∷ []

abbrev input : Input
input = record {
  preroll = false;
  discontinuity = false;
  length = pos 1000;
  pointer = s_ok;
  start = some (pos 500);
}

transform-Keeps_example :
    (is_steady (transform services options input events filter []).0 ≡ true)
    × AllTimed (transform services options input events filter []).1
unfolding new
transform-Keeps_example =
    transform-Keeps services AllTimed services_laws options refl input events filter [] refl refl

-- A sequence header, with the extension behind it that says 4:2:0.
abbrev header : List ℕ
header = 0 ∷ 0 ∷ 1 ∷ 0xb3 ∷ 20 ∷ 0 ∷ 0 ∷ 1 ∷ 0xb5 ∷ 0x14 ∷ 0x8a ∷ []

check_input_type-extension_example : check_input_type (some header) video mpeg2_video ≡ some s_ok
unfolding decide is_type_known find_extension chroma_verdict
check_input_type-extension_example =
    check_input_type-extension 0 0 1 0xb3 (20 ∷ 0 ∷ 0 ∷ 1 ∷ 0xb5 ∷ 0x14 ∷ 0x8a ∷ []) video
      mpeg2_video refl
