-- ===== src/Delivery/Fields.antt =====
-- DeliverFrame and SetupOutputFrameBuffer of src/TVTestVideoDecoder.cpp: a frame goes to the
-- deinterlacer, and one sample or one for each field goes to the output pin.
use mathlib.Core.Bool.{not}
use tvtest_video_decoder.Base.{
  ◌-◌, ◌^◌, Bool, ◌||◌, List, ◌∷◌, Option, none, some, ltb, if◌then◌else◌,
}
use tvtest_video_decoder.Base.Int.{ℤ, negsuc}
use tvtest_video_decoder.Types.{Hresult, e_fail, failed, blend}
use tvtest_video_decoder.FrameDecoder.{FrameStatus, frame_ok, frame_skip}
use tvtest_video_decoder.Delivery.{Frame, OutSample, Services, Context, Delivery, deliver}
use tvtest_video_decoder.Delivery.Buffers.{
  Kind, plain, Deinterlacers, Obtained, obtained, not_obtained, SurfaceFormat, other_surface, Desc,
  desc, no_desc, set_attributes, split_time, second_time,
}

-- The members that DeliverFrame changes.
pub record Filter (S : Type 0) : Type 0 where
  pub delivery : Delivery
  pub deinterlacers : S
  pub temp0 : Frame  -- m_DeinterlaceTempBuffer
  pub temp1 : Frame
  pub painted : List (SurfaceFormat × Frame)  -- the frames copied to surfaces, the last first

-- How DeliverFrame ends: it returns, or it calls Release through a null pointer.
pub data Outcome : Type 0 where
  returned : Hresult → Outcome
  faulted : Outcome

-- The call of Release at the end of DeliverFrame, through `pOutSample`.
abbrev pub release_sample : Option OutSample → Hresult → Outcome
release_sample none hr = faulted
release_sample (some o) hr = returned hr

module _ {S : Type 0} where
  unfoldable pub deliver_in :
      Services → Context → OutSample → Frame → Filter S → Filter S × Frame × Hresult
  deliver_in s c o f x =
      let r = deliver s c o f x.delivery in (record x { delivery = r.0 }, r.1, r.2)

  -- A surface that is too small, then one that cannot be locked.
  unfoldable pub guard_surface :
      Bool → Hresult → Filter S → Filter S × Frame × Hresult → Filter S × Hresult
  guard_surface small lock x r =
      if small then (x, e_fail) else if failed lock then (x, lock) else (r.0, r.2)

  -- The branch of a Direct3D 9 surface, once its description is read.
  unfoldable pub deliver_surface :
      Services
      → Context
      → OutSample
      → Hresult
      → Frame
      → Frame
      → Desc
      → Filter S
      → Filter S × Hresult
  deliver_surface s c o lock src dst (no_desc hr) x = (x, hr)
  deliver_surface s c o lock src dst (desc other_surface w h) x = (x, e_fail)
  deliver_surface s c o lock src dst (desc format w h) x =
      let r = deliver_in s c o dst (record x { painted = (format, src) ∷ x.painted }) in
      guard_surface (ltb w src.buffer.width || ltb h src.buffer.height) lock x r

  -- The one of the blend deinterlacer, where GetFrame skips the frame.
  unfoldable pub retry_blend :
      Deinterlacers S → Frame → Bool → S × FrameStatus × Frame → S × FrameStatus × Frame
  retry_blend i src top (y, frame_skip, d) = i.get_frame (plain blend) y d src top 0
  retry_blend i src top (y, status, d) = (y, status, d)

  unfoldable pub first_frame :
      Deinterlacers S → Kind → Frame → Frame → Bool → S → S × FrameStatus × Frame
  first_frame i k dst src top x = retry_blend i src top (i.get_frame k x dst src top 0)

  -- The sample of the second field, after SafeRelease has set `pOutSample` to null. `hr` is the
  -- result so far.
  unfoldable pub deliver_second :
      Services
      → Context
      → Obtained
      → ℤ
      → Hresult
      → S × FrameStatus × Frame
      → Filter S
      → Filter S × Frame × Outcome
  deliver_second s c (not_obtained e) stop hr (y, frame_ok, d) x = (
    record x { deinterlacers = y },
    set_attributes (second_time stop d.buffer.attributes) d,
    release_sample none e,
  )
  deliver_second s c (obtained o) stop hr (y, frame_ok, d) x =
      let r =
        deliver_in s c o (set_attributes (second_time stop d.buffer.attributes) d)
          (record x { deinterlacers = y }) in
      (r.0, r.1, release_sample (some o) r.2)
  deliver_second s c next stop hr (y, status, d) x =
      (record x { deinterlacers = y }, d, returned hr)

  -- From FramePostProcess on.
  unfoldable pub finish_fields :
      Deinterlacers S
      → Services
      → Context
      → Obtained
      → Kind
      → Bool
      → Frame
      → ℤ
      → Hresult
      → Frame
      → Filter S
      → Filter S × Frame × Outcome
  finish_fields i s c next k top src stop hr dst x =
      let p = i.frame_post_process k x.deinterlacers dst src top in
      let y = record x { deinterlacers = p.0 } in
      if i.is_double_frame k
      then deliver_second s c next stop hr (i.get_frame k p.0 p.1 src (not top) 1) y
      else (y, p.1, returned hr)

  -- The two calls of GetFrame, with the samples that they fill; `hr` is the result so far.
  unfoldable pub show_fields :
      Deinterlacers S
      → Services
      → Context
      → OutSample
      → Obtained
      → Kind
      → Bool
      → Frame
      → Hresult
      → S × FrameStatus × Frame
      → Filter S
      → Filter S × Frame × Outcome
  show_fields i s c o next k top src hr (y, frame_ok, d) x =
      let t = split_time (i.is_double_frame k) d.buffer.attributes in
      let r = deliver_in s c o (set_attributes t.1 d) (record x { deinterlacers = y }) in
      if failed r.2
      then (r.0, r.1, returned r.2)
      else finish_fields i s c next k top src t.0 r.2 r.1 r.0
  show_fields i s c o next k top src hr (y, status, d) x =
      finish_fields i s c next k top src (negsuc (2 ^ 63 - 1)) hr d (record x { deinterlacers = y })

  -- The deinterlacing into a destination buffer from a source buffer.
  unfoldable pub deinterlace_frame :
      Deinterlacers S
      → Services
      → Context
      → OutSample
      → Obtained
      → Kind
      → Bool
      → Frame
      → Frame
      → Hresult
      → Filter S
      → Filter S × Frame × Outcome
  deinterlace_frame i s c o next k top src dst hr x =
      show_fields i s c o next k top src hr (first_frame i k dst src top x.deinterlacers) x
