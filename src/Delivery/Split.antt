-- ===== src/Delivery/Split.antt =====
-- The times of the samples that DeliverFrame of src/TVTestVideoDecoder.cpp sends for a frame.
use mathlib.Core.Bool.{not}
use tvtest_video_decoder.Base.{
  ◌-◌, ◌^◌, ◌≡◌, ap, ◌∙◌, Bool, true, false, ◌&&◌, arith, inl, inr, Bool-cases,
}
use tvtest_video_decoder.Base.Int.{ℤ, pos, negsuc, ◌≤ℤ◌, ◌+ℤ◌, ltb_ℤ, tdiv}
use tvtest_video_decoder.Types.{Hresult, failed}
use tvtest_video_decoder.FrameDecoder.{FrameStatus, frame_ok, frame_skip, frame_pending}
use tvtest_video_decoder.Delivery.{Frame, RateChange, OutSample, Services, Context, deliver}
use tvtest_video_decoder.Delivery.Samples.{
  start_of, stop_of, next_time, fits, keeps_rate, StepKeeps, deliver_kept,
}
use tvtest_video_decoder.Delivery.Buffers.{
  Kind, Deinterlacers, Obtained, obtained, not_obtained, split_time, set_attributes,
}
use tvtest_video_decoder.Delivery.Fields.{
  Filter, deliver_in, deliver_second, finish_fields, show_fields,
}
use tvtest_video_decoder.Delivery.Halves.{
  half_between, StepKeeps-mono, deliver-buffer, AttributeLaws, second_frame, FitsSecond,
  second_fits, second_unfit, whole_fits, fits_order,
}

module _ {S : Type 0} (s : Services) (c : Context) (rc : RateChange) where
  deliver_second_kept :
      (next : Obtained) (stop : ℤ) (hr : Hresult) (y : S) (status : FrameStatus) (d : Frame)
      (x : Filter S) (t u : ℤ)
      → keeps_rate rc.rate c.pin_rate ≡ true
      → pos 0 ≤ℤ rc.rate
      → fits t (second_frame stop d) ≡ true
      → next_time t (second_frame stop d) ≤ℤ u
      → t ≤ℤ u
      → StepKeeps rc t x.delivery
      → StepKeeps rc u (deliver_second s c next stop hr (y, status, d) x).0.delivery
  unfolding deliver_second deliver_in
  deliver_second_kept (obtained o) stop hr y frame_ok d x t u h n k l m kept =
      StepKeeps-mono rc (next_time t (second_frame stop d)) u
        (deliver s c o (second_frame stop d) x.delivery).0 n l
        (deliver_kept s c o rc (second_frame stop d) x.delivery t h n k kept)
  deliver_second_kept (not_obtained e) stop hr y frame_ok d x t u h n k l m kept =
      StepKeeps-mono rc t u x.delivery n m kept
  deliver_second_kept (obtained o) stop hr y frame_skip d x t u h n k l m kept =
      StepKeeps-mono rc t u x.delivery n m kept
  deliver_second_kept (not_obtained e) stop hr y frame_skip d x t u h n k l m kept =
      StepKeeps-mono rc t u x.delivery n m kept
  deliver_second_kept (obtained o) stop hr y frame_pending d x t u h n k l m kept =
      StepKeeps-mono rc t u x.delivery n m kept
  deliver_second_kept (not_obtained e) stop hr y frame_pending d x t u h n k l m kept =
      StepKeeps-mono rc t u x.delivery n m kept

  finish_fields_kept :
      (i : Deinterlacers S) (next : Obtained) (k : Kind) (top : Bool) (src : Frame) (stop : ℤ)
      (hr : Hresult) (dst : Frame) (x : Filter S) (t u : ℤ)
      → AttributeLaws i k
      → keeps_rate rc.rate c.pin_rate ≡ true
      → pos 0 ≤ℤ rc.rate
      → (i.is_double_frame k ≡ true → FitsSecond t u stop dst.buffer.attributes)
      → t ≤ℤ u
      → StepKeeps rc t x.delivery
      → StepKeeps rc u (finish_fields i s c next k top src stop hr dst x).0.delivery
  unfolding finish_fields
  finish_fields_kept i next k top src stop hr dst x t u laws h n second m kept =
      let p = i.frame_post_process k x.deinterlacers dst src top in
      let r = i.get_frame k p.0 p.1 src (not top) 1 in
      let same : r.2.buffer.attributes ≡ dst.buffer.attributes =
        laws.get_frame_laws p.0 p.1 src (not top) 1
        ∙ laws.post_process_laws x.deinterlacers dst src top in
      elim (Bool-cases (i.is_double_frame k)) [
        | inl e ↦
            (let fit = second e r.2 same in
              rw e (
                deliver_second_kept next stop hr r.0 r.1 r.2 (record x { deinterlacers = p.0 }) t u
                  h n fit.0 fit.1 m kept))
        | inr e ↦ rw e (StepKeeps-mono rc t u x.delivery n m kept)
      ]

  -- The first field of a frame that is split, and then the second one.
  split_kept :
      (i : Deinterlacers S) (o : OutSample) (next : Obtained) (k : Kind) (top : Bool) (src : Frame)
      (hr : Hresult) (y : S) (d : Frame) (x : Filter S) (t : ℤ)
      → AttributeLaws i k
      → keeps_rate rc.rate c.pin_rate ≡ true
      → pos 0 ≤ℤ rc.rate
      → fits t d ≡ true
      → StepKeeps rc t x.delivery
      → i.is_double_frame k && not (ltb_ℤ (start_of d) (pos 0)) && not (ltb_ℤ (stop_of d) (pos 0))
        ≡ true
      → StepKeeps rc
          (next_time t d)
          (show_fields i s c o next k top src hr (y, frame_ok, d) x).0.delivery
  unfolding show_fields split_time deliver_in
  split_kept i o next k top src hr y d x t laws h n fit kept valid =
      let mid = tdiv (start_of d +ℤ stop_of d) 2 in
      let first = set_attributes (record d.buffer.attributes { rt_stop = mid }) d in
      let between = half_between (start_of d) (stop_of d) (ground arith) (ground arith) in
      let late : ltb_ℤ (start_of d) (pos 0) ≡ false = ground arith in
      let fit1 : fits t first ≡ true = ground arith in
      let r = deliver s c o first x.delivery in
      let done = deliver_kept s c o rc first x.delivery t h n fit1 kept in
      let at_mid : StepKeeps rc mid r.0 = rw late at done in
      let same = ap (λ b. b.attributes) (deliver-buffer s c o first x.delivery) in
      rw (valid, late)
        (elim (Bool-cases (failed r.2)) [
          | inl e ↦ rw e (StepKeeps-mono rc mid (stop_of d) r.0 n between.1 at_mid)
          | inr e ↦ rw e (
              finish_fields_kept i next k top src (stop_of d) r.2 r.1
                (record x { deinterlacers = y; delivery = r.0 }) mid (stop_of d) laws h n
                (λ double f g.
                  second_fits mid (stop_of d) f (ap (λ a. a.rt_stop) (g ∙ same)) (ground arith)
                    between.1)
                between.1 at_mid)
        ])

  whole_kept :
      (i : Deinterlacers S) (o : OutSample) (next : Obtained) (k : Kind) (top : Bool) (src : Frame)
      (hr : Hresult) (y : S) (d : Frame) (x : Filter S) (t : ℤ)
      → AttributeLaws i k
      → keeps_rate rc.rate c.pin_rate ≡ true
      → pos 0 ≤ℤ rc.rate
      → fits t d ≡ true
      → StepKeeps rc t x.delivery
      → i.is_double_frame k && not (ltb_ℤ (start_of d) (pos 0)) && not (ltb_ℤ (stop_of d) (pos 0))
        ≡ false
      → StepKeeps rc
          (next_time t d)
          (show_fields i s c o next k top src hr (y, frame_ok, d) x).0.delivery
  unfolding show_fields split_time deliver_in
  whole_kept i o next k top src hr y d x t laws h n fit kept invalid =
      let r = deliver s c o d x.delivery in
      let u = next_time t d in
      let done : StepKeeps rc u r.0 = deliver_kept s c o rc d x.delivery t h n fit kept in
      let same = ap (λ b. b.attributes) (deliver-buffer s c o d x.delivery) in
      rw invalid (elim (Bool-cases (failed r.2)) [
        | inl e ↦ rw e done
        | inr e ↦ rw e (
            finish_fields_kept i next k top src (negsuc (2 ^ 63 - 1)) r.2 r.1
              (record x { deinterlacers = y; delivery = r.0 }) u u laws h n
              (λ double f g. second_unfit u f (rw (g ∙ same) (ground arith))) (omega arith) done)
      ])

  -- A frame that is not there yet, or was skipped, is whole for the second field.
  absent_kept :
      (i : Deinterlacers S) (next : Obtained) (k : Kind) (top : Bool) (src : Frame) (hr : Hresult)
      (y : S) (d : Frame) (x : Filter S) (t : ℤ)
      → AttributeLaws i k
      → keeps_rate rc.rate c.pin_rate ≡ true
      → pos 0 ≤ℤ rc.rate
      → fits t d ≡ true
      → StepKeeps rc t x.delivery
      → StepKeeps rc
          (next_time t d)
          (finish_fields i s c next k top src
            (negsuc (2 ^ 63 - 1))
            hr
            d
            (record x { deinterlacers = y })).0.delivery
  absent_kept i next k top src hr y d x t laws h n fit kept =
      finish_fields_kept i next k top src (negsuc (2 ^ 63 - 1)) hr d
        (record x { deinterlacers = y }) t (next_time t d) laws h n
        (λ double f g. whole_fits t d f g fit) (fits_order t d fit) kept

  pub show_fields_kept :
      (i : Deinterlacers S) (o : OutSample) (next : Obtained) (k : Kind) (top : Bool) (src : Frame)
      (hr : Hresult) (y : S) (status : FrameStatus) (d : Frame) (x : Filter S) (t : ℤ)
      → AttributeLaws i k
      → keeps_rate rc.rate c.pin_rate ≡ true
      → pos 0 ≤ℤ rc.rate
      → fits t d ≡ true
      → StepKeeps rc t x.delivery
      → StepKeeps rc
          (next_time t d)
          (show_fields i s c o next k top src hr (y, status, d) x).0.delivery
  unfolding show_fields
  show_fields_kept i o next k top src hr y frame_ok d x t laws h n fit kept =
      elim (Bool-cases (
        i.is_double_frame k
        && not (ltb_ℤ (start_of d) (pos 0))
        && not (ltb_ℤ (stop_of d) (pos 0)))) [
          | inl e ↦ split_kept i o next k top src hr y d x t laws h n fit kept e
          | inr e ↦ whole_kept i o next k top src hr y d x t laws h n fit kept e
        ]
  show_fields_kept i o next k top src hr y frame_skip d x t laws h n fit kept =
      absent_kept i next k top src hr y d x t laws h n fit kept
  show_fields_kept i o next k top src hr y frame_pending d x t laws h n fit kept =
      absent_kept i next k top src hr y d x t laws h n fit kept
