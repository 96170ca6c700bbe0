-- ===== src/Delivery/Run.antt =====
-- A run of DeliverFrame of src/TVTestVideoDecoder.cpp over frames, and where it goes wrong.
use tvtest_video_decoder.Base.{
  ◌≡◌, refl, sym, subst, Bool, true, false, ◌&&◌, arith, List, [], ◌∷◌, inl, inr, Bool-cases,
  if◌then◌else◌,
}
use tvtest_video_decoder.Base.Int.{ℤ, pos, ◌≤ℤ◌}
use tvtest_video_decoder.Types.{Hresult, Subtype, guid_null, s_ok, failed}
use tvtest_video_decoder.FrameBuffer.{new}
use tvtest_video_decoder.Delivery.{Frame, RateChange, OutSample, Services, Context, scale}
use tvtest_video_decoder.Delivery.Samples.{
  next_time, fits, spaced, keeps_rate, StepKeeps, is_ordered, ordered_of_spaced,
}
use tvtest_video_decoder.Delivery.Buffers.{
  Kind, Deinterlacers, Obtained, obtained, not_obtained, Output, choose_deinterlacer, setup_surface,
}
use tvtest_video_decoder.Delivery.Fields.{Filter}
use tvtest_video_decoder.Delivery.Target.{
  deliver_from_temp, deliver_at, deliver_to, deliver_obtained, deliver_frame,
}
use tvtest_video_decoder.Delivery.Halves.{AttributeLaws, keeps_attributes}
use tvtest_video_decoder.Delivery.Order.{
  deliver_at_kept, stay, setup_surface-attributes, setup_output_frame_buffer-null,
}

-- A call of DeliverFrame: what it reads, m_fDXVADeinterlace, m_AvgTimePerFrame, and the frame.
pub record Call : Type 0 where
  pub context : Context
  pub output : Output
  pub dxva_deinterlace : Bool
  pub avg_time : ℤ
  pub frame : Frame

abbrev pub follows : ℤ → List Call → Bool
follows t [] = true
follows t (call ∷ calls) = fits t call.frame && follows (next_time t call.frame) calls

abbrev pub all_keep : ℤ → List Call → Bool
all_keep rate [] = true
all_keep rate (call ∷ calls) = keeps_rate rate call.context.pin_rate && all_keep rate calls

-- The deinterlacer that a call chooses.
abbrev pub kind_of : Call → Kind
kind_of call = choose_deinterlacer call.dxva_deinterlace call.frame.buffer.attributes.deinterlace

abbrev pub without_yadif : List Call → Bool
without_yadif [] = true
without_yadif (call ∷ calls) = keeps_attributes (kind_of call) && without_yadif calls

module _ {S : Type 0} (i : Deinterlacers S) (s : Services) where
  unfoldable pub deliver_frames : List Call → Filter S → Filter S
  deliver_frames [] x = x
  deliver_frames (call ∷ calls) x =
      deliver_frames calls
        (deliver_frame i s call.context call.output call.dxva_deinterlace call.avg_time call.frame
          x).0

  deliver_to_kept :
      (k : Kind) (laws : AttributeLaws i k) (c : Context) (rc : RateChange) (out : Output)
      (o : OutSample) (f dst : Frame) (hr : Hresult) (x : Filter S) (t : ℤ)
      → keeps_rate rc.rate c.pin_rate ≡ true
      → pos 0 ≤ℤ rc.rate
      → fits t f ≡ true
      → dst.buffer.attributes ≡ f.buffer.attributes
      → StepKeeps rc t x.delivery
      → StepKeeps rc (next_time t f) (deliver_to i s c out o k f (dst, hr) x).0.delivery
  unfolding deliver_to
  deliver_to_kept k laws c rc out o f dst hr x t h n fit e kept = elim (Bool-cases (failed hr)) [
    | inl g ↦ rw g (stay i k laws s c rc h n f t fit x kept)
    | inr g ↦ rw g (
        deliver_at_kept i k laws s c rc h n f t fit out o dst hr dst.buffer.d3d9_surface
          dst.buffer.plane0 x e kept)
  ]

  -- The destination that DeliverFrame starts from.
  abbrev fresh : Frame → Frame
  fresh f = record {
    buffer = record (new f.buffer.attributes.deinterlace) { attributes = f.buffer.attributes };
    planes = record { y = []; u = []; v = [] };
  }

  abbrev chosen : Bool → OutSample → Frame → Frame × Hresult
  chosen dxva_output o f =
      if dxva_output then setup_surface o.surface (fresh f) else (fresh f, s_ok)

  chosen-attributes :
      (k : Kind) (laws : AttributeLaws i k) (b : Bool) (o : OutSample) (f : Frame)
      → (chosen b o f).0.buffer.attributes ≡ f.buffer.attributes
  chosen-attributes k laws true o f = setup_surface-attributes i k laws o.surface (fresh f)
  chosen-attributes k laws false o f = refl

  deliver_obtained_kept :
      (k : Kind) (laws : AttributeLaws i k) (c : Context) (rc : RateChange) (out : Output)
      (f : Frame) (got : Obtained) (x : Filter S) (t : ℤ)
      → keeps_rate rc.rate c.pin_rate ≡ true
      → pos 0 ≤ℤ rc.rate
      → fits t f ≡ true
      → StepKeeps rc t x.delivery
      → StepKeeps rc (next_time t f) (deliver_obtained i s c out k f got x).0.delivery
  unfolding deliver_obtained new
  deliver_obtained_kept k laws c rc out f (not_obtained hr) x t h n fit kept =
      stay i k laws s c rc h n f t fit x kept
  deliver_obtained_kept k laws c rc out f (obtained o) x t h n fit kept =
      subst (λ r. StepKeeps rc (next_time t f) (deliver_to i s c out o k f r x).0.delivery)
        (sym (setup_output_frame_buffer-null i k laws.null_laws c.dxva_output out o (fresh f) refl))
        (deliver_to_kept k laws c rc out o f (chosen c.dxva_output o f).0
          (chosen c.dxva_output o f).1 x t h n fit (chosen-attributes k laws c.dxva_output o f)
          kept)

  deliver_frame_kept :
      (c : Context) (rc : RateChange) (out : Output) (dxva_deinterlace : Bool) (avg_time : ℤ)
      (f : Frame) (x : Filter S) (t : ℤ)
      → AttributeLaws i (choose_deinterlacer dxva_deinterlace f.buffer.attributes.deinterlace)
      → keeps_rate rc.rate c.pin_rate ≡ true
      → pos 0 ≤ℤ rc.rate
      → fits t f ≡ true
      → StepKeeps rc t x.delivery
      → StepKeeps rc
          (next_time t f)
          (deliver_frame i s c out dxva_deinterlace avg_time f x).0.delivery
  unfolding deliver_frame
  deliver_frame_kept c rc out dxva_deinterlace avg_time f x t laws h n fit kept =
      deliver_obtained_kept (choose_deinterlacer dxva_deinterlace f.buffer.attributes.deinterlace)
        laws c rc out f _ _ t h n fit kept

  -- A run of DeliverFrame over frames, each of which has no time or starts when the one before has
  -- stopped or later and does not stop before it starts, sends the output pin samples that are in
  -- order: none stops before it starts, and none starts before the sample before it stops, the two
  -- samples of a frame that is doubled included. This holds on every branch and error, at any rate
  -- that is not negative and does not change, if it holds of the samples sent before, and no frame
  -- goes to a deinterlacer of Yadif, if the other deinterlacers leave the times of the destination
  -- alone and support no null format.
  pub deliver_frames-ordered :
      (calls : List Call) (x : Filter S) (t : ℤ)
      → ((k : Kind) → keeps_attributes k ≡ true → AttributeLaws i k)
      → without_yadif calls ≡ true
      → pos 0 ≤ℤ x.delivery.rate_change.rate
      → all_keep x.delivery.rate_change.rate calls ≡ true
      → follows t calls ≡ true
      → spaced x.delivery.delivered (scale x.delivery.rate_change t) ≡ true
      → is_ordered (deliver_frames calls x).delivery.delivered ≡ true
  unfolding deliver_frames
  deliver_frames-ordered [] x t laws y n h k l =
      ordered_of_spaced x.delivery.delivered (scale x.delivery.rate_change t) l
  deliver_frames-ordered (call ∷ calls) x t laws y n h k l =
      let r =
        deliver_frame i s call.context call.output call.dxva_deinterlace call.avg_time call.frame
          x in
      let q =
        deliver_frame_kept call.context x.delivery.rate_change call.output call.dxva_deinterlace
          call.avg_time call.frame x t (laws (kind_of call) (ground arith)) (ground arith) n
          (ground arith) (refl, l) in
      deliver_frames-ordered calls r.0 (next_time t call.frame) laws (ground arith) (rw q.0 n)
        (rw q.0 (ground arith)) (ground arith) (rw q.0 q.1)

  -- Without DXVA output DeliverFrame always goes through its temporary buffer and never writes into
  -- the sample, for a deinterlacer that supports no null format.
  pub deliver_obtained-temp :
      (c : Context) (out : Output) (k : Kind) (f : Frame) (o : OutSample) (x : Filter S)
      → ((subtype : Subtype) → i.is_format_supported k guid_null subtype ≡ false)
      → c.dxva_output ≡ false
      → deliver_obtained i s c out k f (obtained o) x ≡ deliver_from_temp i s c out o k f s_ok x
  unfolding deliver_obtained deliver_to deliver_at new
  deliver_obtained-temp c out k f o x null h =
      rw (setup_output_frame_buffer-null i k null c.dxva_output out o (fresh f) refl, h) refl
