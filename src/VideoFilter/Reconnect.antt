-- ===== src/VideoFilter/Reconnect.antt =====
-- ReconnectOutput, SetMediaType and BreakConnect of CBaseVideoFilter in src/BaseVideoFilter.cpp.
use mathlib.Core.Bool.{not}
use tvtest_video_decoder.Base.{
  ℕ, zero, suc, Bool, true, ◌&&◌, ◌||◌, List, [], ◌∷◌, ◌++◌, Option, none, some, ◌==◌,
  if◌then◌else◌,
}
use tvtest_video_decoder.Base.Int.{ℤ, pos, ltb_ℤ, same_ℤ, ◌+ℤ◌, fdiv, ◌*ℤ◌}
use tvtest_video_decoder.Types.{Hresult, s_ok, s_false, e_fail}
use tvtest_video_decoder.Util.Fraction.{magnitude, quotient}
use tvtest_video_decoder.VideoFilter.{
  Dimensions, MediaType, fourcc_dxva, is_video_info2, is_no_info, get_avg_time_per_frame, Filter,
  accepted, buffers_outstanding, not_accepted, Delivery, sample, no_sample, Event, connection,
  sleep, flush, recommit, size_changed, Services, Request, needs_reconnect, write_aspect,
}

-- `(n + 31) & ~31`, of GetDXVASurfaceSize.
unfoldable pub align : ℤ → ℤ
align n = fdiv (n +ℤ pos 31) 32 *ℤ pos 32

-- SetupMediaType
unfoldable pub setup_media_type : ℕ → MediaType → MediaType
unfolding is_video_info2
setup_media_type flags t =
    if is_video_info2 t && not (flags == 0) then record t { control_flags = flags } else t

-- `Size / abs(biHeight) * 8 / biBitCount`, for the overlay mixer.
unfoldable pub mixer_width : ℤ → MediaType → ℤ
mixer_width size t = quotient (quotient size (pos (magnitude t.height)) *ℤ pos 8) (pos t.bit_count)

-- The end of the loop: the state, the code of the early return, and what was done.
abbrev pub Ended : Type 0 → Type 0
Ended S = Filter × S × Option Hresult × List Event

-- What is done before the next attempt.
unfoldable pub pause : ℕ → Event
pause zero = flush
pause (suc k) = sleep

-- The time that is written where the caller gives none.
unfoldable pub time_per_frame : Request → Filter → ℤ
time_per_frame r f =
    if same_ℤ r.avg_time_per_frame (pos 0)
    then get_avg_time_per_frame f.output_type
    else r.avg_time_per_frame

module _ {S : Type 0} where
  -- The media type of the output as it is changed in place, for a request and a time per frame.
  unfoldable pub write_type : Services S → Request → ℤ → Bool → MediaType → MediaType
  write_type s r time dxva t =
      let a = write_aspect r t in
      record a {
        source_right = r.size.width;
        source_bottom = r.size.height;
        avg_time_per_frame = time;
        width = r.size.width;
        height = r.size.height;
        size_image = s.dib_size r.size.width r.size.height t.bit_count;
        compression = if dxva then fourcc_dxva else t.compression;
      }

  -- The output once a sample is there that shows its type.
  unfoldable pub take_sample : Services S → Option MediaType → ℤ → Filter → Filter
  unfolding setup_media_type
  take_sample s (some t) size f = record f { output_type = setup_media_type s.control_flags t }
  take_sample s none size f =
      if s.overlay_mixer && ltb_ℤ (pos 0) size
      then record f {
        output_type = record f.output_type { width = mixer_width size f.output_type };
      }
      else f

  unfoldable pub take_delivery : Services S → Filter → S × Delivery → Ended S
  unfolding take_sample
  take_delivery s f (m, sample t size) = (take_sample s t size f, m, none, [])
  take_delivery s f (m, no_sample hr) = (f, m, some hr, [])

  -- An accepted connection, with a sample where one is to be sent.
  unfoldable pub take_connection : Services S → Bool → Filter → S → Ended S
  unfolding take_delivery
  take_connection s send f m =
      if send then take_delivery s f (s.get_delivery_buffer m) else (f, m, none, [])

  -- The loop over ReceiveConnection. RetryTimeout is `10 * k - 10`, so that 0 stands for the last
  -- attempt.
  unfoldable pub retry : Services S → Bool → ℕ → Filter → S → Ended S
  unfolding take_connection pause
  retry s send zero f m =
      let (m', answer) = s.receive_connection f.output_type m in
      elim answer [
        | accepted ↦
            let (f', m'', code, events) = take_connection s send f m' in
            (f', m'', code, connection ∷ events)
        | _ ↦ (f, m', none, connection ∷ [])
      ]
  retry s send (suc k) f m =
      let (m', answer) = s.receive_connection f.output_type m in
      elim answer [
        | accepted ↦
            let (f', m'', code, events) = take_connection s send f m' in
            (f', m'', code, connection ∷ events)
        | not_accepted ↦ (f, m', none, connection ∷ [])
        | buffers_outstanding ↦
            let (f', m'', code, events) = retry s send k f m' in
            (f', m'', code, connection ∷ pause k ∷ events)
      ]

  -- The branch for a connection by DXVA: the type is set, the surfaces grow with the picture.
  unfoldable pub connect_dxva : Services S → Filter → S → Filter × S × List Event
  unfolding align
  connect_dxva s f m =
      let g = record f { attach_media_type = true } in
      elim f.surface [
        | none ↦ (g, m, [])
        | some size ↦
            if ltb_ℤ size.0 (align f.dimensions.width) || ltb_ℤ size.1 (align f.dimensions.height)
            then (g, s.recommit_allocator m, recommit ∷ [])
            else (g, m, [])
      ]

  -- After the connection: m_OutDimensions, and EC_VIDEO_SIZE_CHANGED.
  unfoldable pub finish : Filter → S → List Event → Filter × S × Hresult × List Event
  finish f m events = (
    record f { out_dimensions = f.dimensions },
    m,
    s_ok,
    events
        ++ (if f.dxva_output then [] else size_changed f.dimensions.width f.dimensions.height ∷ []),
  )

  unfoldable pub finish_retry : Dimensions → Ended S → Filter × S × Hresult × List Event
  finish_retry old (f, m, some hr, events) = (record f { dimensions = old }, m, hr, events)
  finish_retry old (f, m, none, events) = finish f m events

  -- The connection once the type is written: by DXVA, or by the loop with RetryTimeout at 100.
  unfoldable pub connect :
      Services S → Bool → Dimensions → Filter → S → Filter × S × Hresult × List Event
  connect s send old f m =
      if f.dxva_connect
      then (let (g, m', events) = connect_dxva s f m in finish g m' events)
      else finish_retry old (retry s send 11 f m)

  unfoldable pub reconnect_output :
      Services S → Request → Filter → S → Filter × S × Hresult × List Event
  reconnect_output s r f m =
      let g = record f { dimensions = r.size; media_dimensions = r.size } in
      if not (needs_reconnect r f)
      then (g, m, s_false, [])
      else if is_no_info f.output_type
      then (g, m, e_fail, [])
      else connect s r.send_sample f.dimensions
          (record g {
            output_type = write_type s r (time_per_frame r f) f.dxva_output f.output_type;
          })
          m
