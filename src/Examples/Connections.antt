-- ===== src/Examples/Connections.antt =====
-- The output of CBaseVideoFilter in src/BaseVideoFilter.cpp at a change of the picture's size.
use tvtest_video_decoder.Base.{ℕ, suc, ◌+◌, ◌≤◌, ◌≡◌, refl, arith, true, false, [], none}
use tvtest_video_decoder.Base.Int.{pos}
use tvtest_video_decoder.Types.{s_ok, s_false}
use tvtest_video_decoder.VideoFilter.{
  Dimensions, same_dimensions, MediaType, video_info2, is_no_info, Filter, Answer, accepted,
  buffers_outstanding, not_accepted, sample, Services, Request, needs_reconnect,
}
use tvtest_video_decoder.VideoFilter.Reconnect.{
  reconnect_output, connect, retry, take_connection, finish_retry, finish,
}
use tvtest_video_decoder.VideoFilter.Buffers.{get_buffer, get_buffer_for}
use tvtest_video_decoder.VideoFilter.Sized.{HasSize, get_buffer_for-HasSize}
use tvtest_video_decoder.VideoFilter.Retries.{counts, reconnect_output-bounded}
use tvtest_video_decoder.VideoFilter.Settled.{reconnect_output-settles}

abbrev sd : Dimensions
sd = record { width = pos 720; height = pos 480; aspect_x = pos 4; aspect_y = pos 3 }

abbrev hd : Dimensions
hd = record { width = pos 1440; height = pos 1080; aspect_x = pos 16; aspect_y = pos 9 }

abbrev sd_type : MediaType
sd_type = record {
  kind = video_info2;
  avg_time_per_frame = pos 333667;
  source_right = pos 720;
  source_bottom = pos 480;
  interlace_flags = 0x81;
  control_flags = 0;
  picture_aspect_x = pos 4;
  picture_aspect_y = pos 3;
  width = pos 720;
  height = pos 480;
  bit_count = 12;
  compression = 0x3231564e;
  size_image = pos 518400;
  x_pels = pos 0;
  y_pels = pos 0;
}

abbrev filter : Filter
filter = record {
  dimensions = sd;
  in_dimensions = sd;
  out_dimensions = sd;
  media_dimensions = sd;
  output_type = sd_type;
  dxva_connect = false;
  dxva_output = false;
  attach_media_type = false;
  surface = none;
}

-- A pin that accepts once it has been asked three times; the state counts the calls.
abbrev answer : ℕ → Answer
answer (suc (suc n)) = accepted
answer n = buffers_outstanding

abbrev patient : Services ℕ
patient = record {
  dib_size = λ w h bits. pos 0;
  overlay_mixer = false;
  control_flags = 0;
  receive_connection = λ t n. (n + 1, answer n);
  get_delivery_buffer = λ n. (n, sample none (pos 0));
  recommit_allocator = λ n. n;
}

-- A pin that refuses every connection.
abbrev stubborn : Services ℕ
stubborn = record patient { receive_connection = λ t n. (n + 1, not_accepted) }

abbrev to_hd : Request
to_hd = record {
  size = hd;
  send_sample = true;
  force = false;
  avg_time_per_frame = pos 333667;
  interlaced = true;
}

reconnect_output-bounded_example :
    (let c = counts (reconnect_output patient to_hd filter 0).3 in
      (c.connections ≤ 12) × (c.sleeps + c.flushes ≤ 11) × (c.flushes ≤ 1))
reconnect_output-bounded_example = reconnect_output-bounded patient to_hd filter 0

reconnect_output-settles_example :
    (let x = reconnect_output stubborn to_hd filter 0 in
      (x.2 ≡ s_ok)
      × (reconnect_output stubborn (record to_hd { force = false }) x.0 5 ≡ (x.0, 5, s_false, [])))
unfolding needs_reconnect same_dimensions is_no_info
reconnect_output-settles_example =
    reconnect_output-settles stubborn to_hd (λ m. (pos 0, refl)) filter 0 5 (omega arith) refl refl

get_buffer_for-HasSize_example : HasSize hd (get_buffer_for patient hd (pos 333667) true filter 0).0
unfolding get_buffer_for reconnect_output needs_reconnect same_dimensions is_no_info connect retry
    take_connection finish_retry finish get_buffer
get_buffer_for-HasSize_example =
    get_buffer_for-HasSize patient (λ m hr e. cc) hd (pos 333667) true filter 0 false true refl
