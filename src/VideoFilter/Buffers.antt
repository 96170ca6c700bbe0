-- ===== src/VideoFilter/Buffers.antt =====
-- GetDeliveryBuffer of CBaseVideoFilter in src/BaseVideoFilter.cpp: the sample for a frame.
use tvtest_video_decoder.Base.{ℕ, Bool, true, false, Option, none, some, if◌then◌else◌}
use tvtest_video_decoder.Base.Int.{ℤ}
use tvtest_video_decoder.Types.{Hresult, failed}
use tvtest_video_decoder.VideoFilter.{
  Dimensions, MediaType, Filter, Delivery, sample, no_sample, Services, Request,
}
use tvtest_video_decoder.VideoFilter.Reconnect.{setup_media_type, reconnect_output}

-- A sample as it is handed on, with its flags.
pub data Buffer : Type 0 where
  buffer : Bool → Bool → Buffer  -- the discontinuity and the synchronisation point
  no_buffer : Hresult → Buffer

unfoldable pub with_type : ℕ → Option MediaType → Filter → Filter
with_type flags none f = f
with_type flags (some t) f = record f { output_type = setup_media_type flags t }

module _ {S : Type 0} where
  unfoldable pub take_buffer : Services S → Filter → S × Delivery → Filter × S × Buffer
  unfolding with_type
  take_buffer s f (m, sample t size) =
      (with_type s.control_flags t f, m, buffer s.overlay_mixer true)
  take_buffer s f (m, no_sample hr) = (f, m, no_buffer hr)

  -- The form without a size.
  unfoldable pub get_buffer : Services S → Filter → S → Filter × S × Buffer
  unfolding take_buffer
  get_buffer s f m = take_buffer s f (s.get_delivery_buffer m)

  -- The form with the size, the time and the kind of scan of a frame.
  unfoldable pub get_buffer_for :
      Services S → Dimensions → ℤ → Bool → Filter → S → Filter × S × Buffer
  get_buffer_for s size time interlaced f m =
      let r : Request = record {
        size = size;
        send_sample = true;
        force = false;
        avg_time_per_frame = time;
        interlaced = interlaced;
      } in
      let (f', m', hr, _) = reconnect_output s r f m in
      if failed hr then (f', m', no_buffer hr) else get_buffer s f' m'
