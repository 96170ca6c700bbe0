-- ===== src/VideoFilter/Settled.antt =====
-- After ReconnectOutput of src/BaseVideoFilter.cpp the same frame asks for nothing more.
use tvtest_video_decoder.Base.{
  ℕ, zero, suc, ◌≡◌, refl, sym, subst, arith, Bool, true, false, ◌&&◌, List, [], none, some, ◌⊎◌,
  if_elim, inl, inr, Bool-cases,
}
use tvtest_video_decoder.Base.Int.{ℤ, pos, ◌≤ℤ◌, ltb_ℤ}
use tvtest_video_decoder.Types.{Hresult, s_ok, s_false}
use tvtest_video_decoder.VideoFilter.{
  Dimensions, same_dimensions, is_no_info, Filter, Answer, accepted, buffers_outstanding,
  not_accepted, sample, Event, Services, Request, time_differs, scan_differs, needs_reconnect,
}
use tvtest_video_decoder.VideoFilter.Reconnect.{
  Ended, take_sample, take_delivery, take_connection, retry, connect_dxva, finish, finish_retry,
  connect, reconnect_output, write_type, time_per_frame,
}
use tvtest_video_decoder.VideoFilter.Suits.{
  IsFitted, same_dimensions_refl, Suits-width, write_type-Suits,
}

pub Answer-cases : (a : Answer) → (a ≡ accepted) ⊎ (a ≡ not_accepted) ⊎ (a ≡ buffers_outstanding)
Answer-cases accepted = inl refl
Answer-cases not_accepted = inr (inl refl)
Answer-cases buffers_outstanding = inr (inr refl)

module _ {S : Type 0} (s : Services S) (r : Request) where
  -- Every sample comes without a media type of its own.
  module _ (silent : (m : S) → (size : ℤ) × ((s.get_delivery_buffer m).1 ≡ sample none size)) where
    take_connection-IsFitted :
        (send : Bool) (f : Filter) (m : S)
        → IsFitted r f
        → IsFitted r (take_connection s send f m).0 × ((take_connection s send f m).2 ≡ none)
    unfolding take_connection take_delivery take_sample
    take_connection-IsFitted false f m fit = (fit, refl)
    take_connection-IsFitted true f m fit =
        let (size, e) = silent m in
        elim (Bool-cases (s.overlay_mixer && ltb_ℤ (pos 0) size)) [
          | inl mixed ↦
              rw (e, mixed)
                (
                  record {
                    dimensions = fit.dimensions;
                    media_dimensions = fit.media_dimensions;
                    suits = Suits-width r f.dxva_output f.output_type _ fit.suits;
                  },
                  refl,
                )
          | inr plain ↦ rw (e, plain) (fit, refl)
        ]

    retry-IsFitted :
        (send : Bool) (k : ℕ) (f : Filter) (m : S)
        → IsFitted r f
        → IsFitted r (retry s send k f m).0 × ((retry s send k f m).2 ≡ none)
    unfolding retry
    retry-IsFitted send zero f m fit =
        let (m', answer) = s.receive_connection f.output_type m in
        elim (Answer-cases answer) [
          | inl yes_answer ↦ rw (yes_answer, retry) (take_connection-IsFitted send f m' fit)
          | inr (inl refused) ↦ rw (refused, retry) (fit, refl)
          | inr (inr busy) ↦ rw (busy, retry) (fit, refl)
        ]
    retry-IsFitted send (suc k) f m fit =
        let (m', answer) = s.receive_connection f.output_type m in
        elim (Answer-cases answer) [
          | inl yes_answer ↦ rw (yes_answer, retry) (take_connection-IsFitted send f m' fit)
          | inr (inl refused) ↦ rw (refused, retry) (fit, refl)
          | inr (inr busy) ↦ rw (busy, retry) (retry-IsFitted send k f m' fit)
        ]

    -- The filter as it stands after a connection.
    record IsSettled (x : Filter × S × Hresult × List Event) : Type 0 where
      pub fitted : IsFitted r x.0
      pub out : x.0.out_dimensions ≡ r.size
      pub code : x.2 ≡ s_ok

    finish-IsSettled :
        (f : Filter) (m : S) (es : List Event) → IsFitted r f → IsSettled (finish f m es)
    unfolding finish
    finish-IsSettled f m es fit = record {
      fitted = record {
        dimensions = fit.dimensions;
        media_dimensions = fit.media_dimensions;
        suits = fit.suits;
      };
      out = fit.dimensions;
      code = refl;
    }

    finish_retry-IsSettled :
        (old : Dimensions) (e : Ended S)
        → IsFitted r e.0
        → e.2 ≡ none
        → IsSettled (finish_retry old e)
    unfolding finish_retry
    finish_retry-IsSettled old (f, m, none, es) fit e = finish-IsSettled f m es fit
    finish_retry-IsSettled old (f, m, some hr, es) fit e = cc

    connect_dxva-IsFitted : (f : Filter) (m : S) → IsFitted r f → IsFitted r (connect_dxva s f m).0
    unfolding connect_dxva
    connect_dxva-IsFitted f m fit = ground arith

    connect-IsSettled :
        (send : Bool) (old : Dimensions) (f : Filter) (m : S)
        → IsFitted r f
        → IsSettled (connect s send old f m)
    unfolding connect
    connect-IsSettled send old f m fit =
        let d = connect_dxva s f m in
        let e = retry s send 11 f m in
        let looped = retry-IsFitted send 11 f m fit in
        if_elim IsSettled f.dxva_connect
          (finish-IsSettled d.0 d.1 d.2 (connect_dxva-IsFitted f m fit))
          (finish_retry-IsSettled old e looped.0 looped.1)

    settled-needs :
        (f : Filter)
        → IsFitted r f
        → f.out_dimensions ≡ r.size
        → needs_reconnect (record r { force = false }) f ≡ false
    unfolding needs_reconnect
    settled-needs f fit out =
        let q : Request = record r { force = false } in
        let kept : same_dimensions r.size f.dimensions ≡ true =
          subst (λ d. same_dimensions r.size d ≡ true) (sym fit.dimensions)
            (same_dimensions_refl r.size) in
        let shown : same_dimensions r.size f.out_dimensions ≡ true =
          subst (λ d. same_dimensions r.size d ≡ true) (sym out) (same_dimensions_refl r.size) in
        let time : time_differs q f.output_type ≡ false = unfold time_differs in fit.suits.time in
        let scan : scan_differs q f.output_type ≡ false = unfold scan_differs in fit.suits.scan in
        rw (kept, shown, time, scan, fit.suits.compression) refl

    again :
        (g : Filter) (later : S)
        → IsFitted r g
        → g.out_dimensions ≡ r.size
        → reconnect_output s (record r { force = false }) g later ≡ (g, later, s_false, [])
    unfolding reconnect_output
    again g later fit out = rw (settled-needs g fit out) (λ i. (
      record g { dimensions = sym fit.dimensions i; media_dimensions = sym fit.media_dimensions i },
      later,
      s_false,
      [],
    ))

    -- A ReconnectOutput that is needed returns S_OK whatever the pin at the other end answers to
    -- the connection, and the same request, not forced, then returns S_FALSE and changes nothing:
    -- if the time per frame is not negative, the output has a format block of a known kind, and
    -- every sample comes without a media type.
    pub reconnect_output-settles :
        (f : Filter) (m later : S)
        → pos 0 ≤ℤ r.avg_time_per_frame
        → is_no_info f.output_type ≡ false
        → needs_reconnect r f ≡ true
        → (let x = reconnect_output s r f m in
            (x.2 ≡ s_ok)
            × (reconnect_output s (record r { force = false }) x.0 later
                ≡ (x.0, later, s_false, [])))
    unfolding reconnect_output
    reconnect_output-settles f m later h known needs =
        let g : Filter = record f {
          dimensions = r.size;
          media_dimensions = r.size;
          output_type = write_type s r (time_per_frame r f) f.dxva_output f.output_type;
        } in
        let settled = connect-IsSettled r.send_sample f.dimensions g m (record {
          dimensions = refl;
          media_dimensions = refl;
          suits = write_type-Suits s r h f known;
        }) in
        let x = connect s r.send_sample f.dimensions g m in
        rw (needs, known) (settled.code, again x.0 later settled.fitted settled.out)
