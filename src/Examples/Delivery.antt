-- ===== src/Examples/Delivery.antt =====
-- DeliverFrame of src/TVTestVideoDecoder.cpp on two frames, with a deinterlacer that doubles them.
use tvtest_video_decoder.Base.{ℕ, ◌+◌, ◌≡◌, refl, arith, Bool, true, false, [], ◌∷◌, none, some}
use tvtest_video_decoder.Base.Int.{pos, negsuc}
use tvtest_video_decoder.Types.{
  s_ok, e_fail, bob, ela, weave, blend, yadif, yadif_bob, i420, Subtype, guid_null,
}
use tvtest_video_decoder.Deinterlace.Methods.{is_supported, is_supported_weave, is_supported_same}
use tvtest_video_decoder.FrameBuffer.{new}
use tvtest_video_decoder.FrameDecoder.{frame_ok}
use tvtest_video_decoder.Color.{initial}
use tvtest_video_decoder.Delivery.{Frame, OutSample, address, Services, Context}
use tvtest_video_decoder.Delivery.Samples.{is_ordered}
use tvtest_video_decoder.Delivery.Buffers.{
  Kind, dxva, set_attributes, choose_deinterlacer, Deinterlacers, plain, Output, obtained,
  not_obtained, desc, nv12_surface,
}
use tvtest_video_decoder.Delivery.Fields.{Filter, deliver_second, finish_fields}
use tvtest_video_decoder.Delivery.Target.{deliver_obtained, deliver_from_temp}
use tvtest_video_decoder.Delivery.Halves.{AttributeLaws, keeps_attributes}
use tvtest_video_decoder.Delivery.Faults.{is_faulted}
use tvtest_video_decoder.Delivery.Run.{
  Call, deliver_frames, deliver_frames-ordered, deliver_obtained-temp,
}

-- The deinterlacers that double frames, and the formats of each.
abbrev doubles : Kind → Bool
doubles (plain bob) = true
doubles (plain ela) = true
doubles (plain yadif_bob) = true
doubles _ = false

abbrev supports : Kind → Subtype → Subtype → Bool
supports (plain weave) = is_supported_weave
supports (plain blend) = is_supported_same
supports (plain bob) = is_supported_same
supports _ = is_supported

-- The source in place of the picture, with the attributes of the source for Yadif.
abbrev shown : Kind → Frame → Frame → Frame
shown (plain yadif) d f = record (set_attributes f.buffer.attributes d) { planes = f.planes }
shown (plain yadif_bob) d f = record (set_attributes f.buffer.attributes d) { planes = f.planes }
shown _ d f = record d { planes = f.planes }

-- They count the calls.
abbrev deinterlacers : Deinterlacers ℕ
deinterlacers = record {
  is_double_frame = doubles;
  is_retain_frame = λ k. false;
  is_format_supported = supports;
  get_frame = λ k y d f top n. (y + 1, frame_ok, shown k d f);
  frame_post_process = λ k y d f top. (y, d);
}

supports-null : (k : Kind) (subtype : Subtype) → supports k guid_null subtype ≡ false
unfolding is_supported is_supported_weave is_supported_same
supports-null dxva subtype = refl
supports-null (plain weave) subtype = refl
supports-null (plain blend) subtype = refl
supports-null (plain bob) subtype = refl
supports-null (plain ela) subtype = refl
supports-null (plain yadif) subtype = refl
supports-null (plain yadif_bob) subtype = refl

shown-attributes :
    (k : Kind) (d f : Frame)
    → keeps_attributes k ≡ true
    → (shown k d f).buffer.attributes ≡ d.buffer.attributes
shown-attributes dxva d f h = refl
shown-attributes (plain weave) d f h = refl
shown-attributes (plain blend) d f h = refl
shown-attributes (plain bob) d f h = refl
shown-attributes (plain ela) d f h = refl
shown-attributes (plain yadif) d f h = cc
shown-attributes (plain yadif_bob) d f h = cc

deinterlacers_laws : (k : Kind) → keeps_attributes k ≡ true → AttributeLaws deinterlacers k
deinterlacers_laws k h = record {
  get_frame_laws = λ y d f top n. shown-attributes k d f h;
  blend_laws = λ y d f top n. refl;
  post_process_laws = λ y d f top. refl;
  null_laws = supports-null k;
}

abbrev services : Services
services = record {
  sin_cos = λ hue. (pos 0, pos 4096);
  video_flags = record {
    weave = 8;
    field1first = 4;
    repeat_field = 64;
    i_sample = 0;
    p_sample = 16;
    b_sample = 32;
  };
  create_media_type = true;
  bitmap_size = none;
  deliver = λ n x. s_ok;
}

abbrev context : Context
context = record {
  dxva_output = false;
  wait_for_key_frame = false;
  output_interlaced = false;
  pin_rate = some (pos 10000);
}

abbrev out_sample : OutSample
out_sample = record { pointer = address 4096; type_flags = some 0; surface = address 0 }

abbrev output : Output
output = record {
  get_delivery_buffer = λ b t. (true, obtained out_sample);
  next_delivery_buffer = obtained out_sample;
  subtype = i420;
  bitmap = some (16, negsuc 15);
  get_desc = λ a. desc nv12_surface 16 16;
  lock_rect = λ a. s_ok;
  malloc = λ n. some 4096;
  copy_pixels = λ d f. f.planes;
}

abbrev frame_at : ℕ → ℕ → Frame
frame_at start stop = record {
  buffer = record (new bob) {
    width = 16;
    height = 16;
    subtype = i420;
    attributes = record (new bob).attributes { rt_start = pos start; rt_stop = pos stop };
  };
  planes = record { y = (1 ∷ []) ∷ []; u = (2 ∷ []) ∷ []; v = (3 ∷ []) ∷ [] };
}

abbrev call_at : ℕ → ℕ → Call
call_at start stop = record {
  context = context;
  output = output;
  dxva_deinterlace = false;
  avg_time = pos 400;
  frame = frame_at start stop;
}

abbrev filter : Filter ℕ
filter = record {
  delivery = record {
    rate_change = record { rate = pos 10000; start_time = pos 0 };
    attach_media_type = true;
    adjustment = initial (λ i. i) (λ i. (i, i));
    captured = [];
    delivered = [];
    size_changes = [];
  };
  deinterlacers = 0;
  temp0 = frame_at 0 0;
  temp1 = frame_at 0 0;
  painted = [];
}

deliver_frames-ordered_example :
    is_ordered
      (deliver_frames deinterlacers services
        (call_at 0 400 ∷ call_at 500 900 ∷ [])
        filter).delivery.delivered
    ≡ true
unfolding new choose_deinterlacer
deliver_frames-ordered_example =
    deliver_frames-ordered deinterlacers services (call_at 0 400 ∷ call_at 500 900 ∷ []) filter
      (pos 0) deinterlacers_laws refl (omega arith) refl refl refl

deliver_obtained-temp_example :
    deliver_obtained deinterlacers services context output
      (plain bob)
      (frame_at 0 400)
      (obtained out_sample)
      filter
    ≡ deliver_from_temp deinterlacers services context output out_sample
        (plain bob)
        (frame_at 0 400)
        s_ok
        filter
deliver_obtained-temp_example =
    deliver_obtained-temp deinterlacers services context output (plain bob) (frame_at 0 400)
      out_sample filter (supports-null (plain bob)) refl

-- Without a sample for the second field.
second_missing :
    is_faulted
      (finish_fields deinterlacers services context
        (not_obtained e_fail)
        (plain bob)
        true
        (frame_at 0 400)
        (pos 400)
        s_ok
        (frame_at 0 200)
        filter).2
    ≡ true
unfolding finish_fields deliver_second
second_missing = refl
