-- ===== src/VideoFilter/Sized.antt =====
-- The sizes that GetDeliveryBuffer of src/BaseVideoFilter.cpp leaves with a sample.
use tvtest_video_decoder.Base.{
  ℕ, zero, suc, ◌≡◌, refl, ◌∙◌, sym, arith, Bool, true, false, List, [], none, some, if_elim, inl,
  inr, Bool-cases,
}
use tvtest_video_decoder.Base.Int.{ℤ, same_ℤ, same_ℤ_iff}
use tvtest_video_decoder.Types.{Hresult, e_fail, failed}
use tvtest_video_decoder.VideoFilter.{
  Dimensions, same_dimensions, Filter, Delivery, sample, no_sample, Event, Services, Request,
  needs_reconnect, is_no_info,
}
use tvtest_video_decoder.VideoFilter.Reconnect.{
  Ended, take_sample, take_delivery, take_connection, retry, connect_dxva, finish, finish_retry,
  connect, reconnect_output, write_type, time_per_frame,
}
use tvtest_video_decoder.VideoFilter.Settled.{Answer-cases}
use tvtest_video_decoder.VideoFilter.Buffers.{buffer, take_buffer, get_buffer, get_buffer_for}

same_dimensions-eq : (a b : Dimensions) → same_dimensions a b ≡ true → a ≡ b
unfolding same_dimensions
same_dimensions-eq a b h =
    let w : same_ℤ a.width b.width ≡ true = ground arith in
    let t : same_ℤ a.height b.height ≡ true = ground arith in
    let x : same_ℤ a.aspect_x b.aspect_x ≡ true = ground arith in
    let y : same_ℤ a.aspect_y b.aspect_y ≡ true = ground arith in
    λ i. record {
      width = (same_ℤ_iff a.width b.width).0 w i;
      height = (same_ℤ_iff a.height b.height).0 t i;
      aspect_x = (same_ℤ_iff a.aspect_x b.aspect_x).0 x i;
      aspect_y = (same_ℤ_iff a.aspect_y b.aspect_y).0 y i;
    }

-- The sizes that follow a frame.
pub record HasSize (size : Dimensions) (f : Filter) : Type 0 where
  pub dimensions : f.dimensions ≡ size
  pub out_dimensions : f.out_dimensions ≡ size
  pub media_dimensions : f.media_dimensions ≡ size

-- What the loop leaves of the filter: the sizes, and an early return only with a failure.
record Keeps {S : Type 0} (f : Filter) (e : Ended S) : Type 0 where
  pub dimensions : e.0.dimensions ≡ f.dimensions
  pub media_dimensions : e.0.media_dimensions ≡ f.media_dimensions
  pub fails : (hr : Hresult) → e.2 ≡ some hr → failed hr ≡ true

module _ {S : Type 0} (s : Services S)
    (fails : (m : S) (hr : Hresult)
      → (s.get_delivery_buffer m).1 ≡ no_sample hr
      → failed hr ≡ true) where
  take_delivery-Keeps :
      (f : Filter) (d : S × Delivery)
      → ((hr : Hresult) → d.1 ≡ no_sample hr → failed hr ≡ true)
      → Keeps f (take_delivery s f d)
  unfolding take_delivery take_sample
  take_delivery-Keeps f (m, sample (some t) size) h = record {
    dimensions = refl;
    media_dimensions = refl;
    fails = λ hr e. cc;
  }
  take_delivery-Keeps f (m, sample none size) h = ground arith
  take_delivery-Keeps f (m, no_sample hr) h = record {
    dimensions = refl;
    media_dimensions = refl;
    fails = λ hr' e. h hr' (cc);
  }

  take_connection-Keeps : (send : Bool) (f : Filter) (m : S) → Keeps f (take_connection s send f m)
  unfolding take_connection
  take_connection-Keeps send f m =
      if_elim (λ (e : Ended S). Keeps f e) send
        (take_delivery-Keeps f (s.get_delivery_buffer m) (fails m))
        (record { dimensions = refl; media_dimensions = refl; fails = λ hr e. cc })

  -- The events of the attempts before change nothing of that.
  retry-Keeps : (send : Bool) (k : ℕ) (f : Filter) (m : S) → Keeps f (retry s send k f m)
  unfolding retry
  retry-Keeps send zero f m =
      let (m', answer) = s.receive_connection f.output_type m in
      let k = take_connection-Keeps send f m' in
      elim (Answer-cases answer) [
        | inl yes_answer ↦
            rw (yes_answer, retry)
              (record {
                dimensions = k.dimensions;
                media_dimensions = k.media_dimensions;
                fails = k.fails;
              })
        | inr (inl refused) ↦
            rw (refused, retry)
              (record { dimensions = refl; media_dimensions = refl; fails = λ hr e. cc })
        | inr (inr busy) ↦
            rw (busy, retry)
              (record { dimensions = refl; media_dimensions = refl; fails = λ hr e. cc })
      ]
  retry-Keeps send (suc n) f m =
      let (m', answer) = s.receive_connection f.output_type m in
      let k = take_connection-Keeps send f m' in
      let l = retry-Keeps send n f m' in
      elim (Answer-cases answer) [
        | inl yes_answer ↦
            rw (yes_answer, retry)
              (record {
                dimensions = k.dimensions;
                media_dimensions = k.media_dimensions;
                fails = k.fails;
              })
        | inr (inl refused) ↦
            rw (refused, retry)
              (record { dimensions = refl; media_dimensions = refl; fails = λ hr e. cc })
        | inr (inr busy) ↦
            rw (busy, retry)
              (record {
                dimensions = l.dimensions;
                media_dimensions = l.media_dimensions;
                fails = l.fails;
              })
      ]

  -- A result that has not failed leaves the sizes of the frame.
  SizedUnlessFailed : Dimensions → Filter × S × Hresult × List Event → Type 0
  SizedUnlessFailed size x = failed x.2 ≡ false → HasSize size x.0

  finish-Sized :
      (size : Dimensions) (f : Filter) (m : S) (es : List Event)
      → f.dimensions ≡ size
      → f.media_dimensions ≡ size
      → SizedUnlessFailed size (finish f m es)
  unfolding SizedUnlessFailed finish
  finish-Sized size f m es d n ok = record {
    dimensions = d;
    out_dimensions = d;
    media_dimensions = n;
  }

  finish_retry-Sized :
      (size old : Dimensions) (f : Filter) (e : Ended S)
      → Keeps f e
      → f.dimensions ≡ size
      → f.media_dimensions ≡ size
      → SizedUnlessFailed size (finish_retry old e)
  unfolding finish_retry
  finish_retry-Sized size old f (g, m, none, es) k d n =
      finish-Sized size g m es (k.dimensions ∙ d) (k.media_dimensions ∙ n)
  finish_retry-Sized size old f (g, m, some hr, es) k d n =
      unfold SizedUnlessFailed in λ ok. absurd (let h = k.fails hr refl in cc)

  connect-Sized :
      (size old : Dimensions) (send : Bool) (f : Filter) (m : S)
      → f.dimensions ≡ size
      → f.media_dimensions ≡ size
      → SizedUnlessFailed size (connect s send old f m)
  unfolding connect
  connect-Sized size old send f m d n =
      let x = connect_dxva s f m in
      let kept : (x.0.dimensions ≡ f.dimensions) × (x.0.media_dimensions ≡ f.media_dimensions) =
        unfold connect_dxva in ground arith in
      if_elim (SizedUnlessFailed size) f.dxva_connect
        (finish-Sized size x.0 x.1 x.2 (kept.0 ∙ d) (kept.1 ∙ n))
        (finish_retry-Sized size old f (retry s send 11 f m) (retry-Keeps send 11 f m) d n)

  no_reconnect-size :
      (r : Request) (f : Filter) → needs_reconnect r f ≡ false → f.out_dimensions ≡ r.size
  unfolding needs_reconnect
  no_reconnect-size r f e =
      let same : same_dimensions r.size f.out_dimensions ≡ true = ground arith in
      sym (same_dimensions-eq r.size f.out_dimensions same)

  reconnect_output-Sized :
      (r : Request) (f : Filter) (m : S) → SizedUnlessFailed r.size (reconnect_output s r f m)
  unfolding reconnect_output
  reconnect_output-Sized r f m =
      let g : Filter = record f { dimensions = r.size; media_dimensions = r.size } in
      let t = write_type s r (time_per_frame r f) f.dxva_output f.output_type in
      let P = SizedUnlessFailed r.size in
      elim (Bool-cases (needs_reconnect r f)) [
        | inl needed ↦ rw needed (
            if_elim P (is_no_info f.output_type) {x = (g, m, e_fail, [])}
              (unfold SizedUnlessFailed in λ wrong. absurd (cc))
              (connect-Sized r.size f.dimensions r.send_sample (record g { output_type = t }) m refl
                refl))
        | inr settled ↦ rw settled (
            unfold SizedUnlessFailed in
            λ ok. record {
              dimensions = refl;
              out_dimensions = no_reconnect-size r f settled;
              media_dimensions = refl;
            })
      ]

  take_buffer-HasSize :
      (size : Dimensions) (f : Filter) (d : S × Delivery)
      → HasSize size f
      → HasSize size (take_buffer s f d).0
  unfolding take_buffer
  take_buffer-HasSize size f (m, sample none bytes) h = h
  take_buffer-HasSize size f (m, sample (some t) bytes) h = record {
    dimensions = h.dimensions;
    out_dimensions = h.out_dimensions;
    media_dimensions = h.media_dimensions;
  }
  take_buffer-HasSize size f (m, no_sample hr) h = h

  get_buffer-HasSize :
      (size : Dimensions) (f : Filter) (m : S) → HasSize size f → HasSize size (get_buffer s f m).0
  unfolding get_buffer
  get_buffer-HasSize size f m h = take_buffer-HasSize size f (s.get_delivery_buffer m) h

  -- Whenever GetDeliveryBuffer for a frame returns a sample, the dimensions of the filter, of its
  -- output and of its media are those of the frame, whatever the pin at the other end answers and
  -- whichever types its samples bring, if GetDeliveryBuffer of the pin gives no sample only with a
  -- code that has failed.
  pub get_buffer_for-HasSize :
      (size : Dimensions) (time : ℤ) (interlaced : Bool) (f : Filter) (m : S)
      (discontinuity sync_point : Bool)
      → (get_buffer_for s size time interlaced f m).2 ≡ buffer discontinuity sync_point
      → HasSize size (get_buffer_for s size time interlaced f m).0
  unfolding get_buffer_for
  get_buffer_for-HasSize size time interlaced f m discontinuity sync_point e =
      let r : Request = record {
        size = size;
        send_sample = true;
        force = false;
        avg_time_per_frame = time;
        interlaced = interlaced;
      } in
      let x = reconnect_output s r f m in
      elim (Bool-cases (failed x.2)) [
        | inl bad ↦ absurd (let wrong = rw bad at e in cc)
        | inr ok ↦ rw ok (
            get_buffer-HasSize size x.0 x.1
              (unfold SizedUnlessFailed in reconnect_output-Sized r f m ok))
      ]
