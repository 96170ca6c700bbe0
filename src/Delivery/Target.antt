-- ===== src/Delivery/Target.antt =====
-- DeliverFrame of src/TVTestVideoDecoder.cpp around the calls of the deinterlacer: the destination and
-- its branches.
use mathlib.Core.Bool.{not}
use tvtest_video_decoder.Base.{ℕ, Bool, true, false, ◌||◌, [], Option, none, some, if◌then◌else◌}
use tvtest_video_decoder.Base.Int.{ℤ, tdiv}
use tvtest_video_decoder.Types.{
  Hresult, e_outofmemory, failed, has_flag, flag_top_field_first, Subtype, i420, same_subtype,
}
use tvtest_video_decoder.FrameBuffer.{new}
use tvtest_video_decoder.Delivery.{Frame, OutSample, Services, Context}
use tvtest_video_decoder.Delivery.Buffers.{
  Kind, Deinterlacers, Obtained, obtained, not_obtained, Output, setup_output_frame_buffer,
  choose_deinterlacer, set_attributes, fit_temp,
}
use tvtest_video_decoder.Delivery.Fields.{
  Filter, Outcome, returned, deliver_surface, deinterlace_frame,
}

module _ {S : Type 0} where
  -- The source buffer: the frame, or its copy in a format that the deinterlacer knows.
  unfoldable pub source_frame : Output → Subtype → Frame → Filter S → Filter S × Frame × Bool
  source_frame out subtype f x =
      let t = fit_temp out.malloc subtype f.buffer x.temp0 in
      let g = set_attributes f.buffer.attributes t.0 in
      let copy = record g { planes = out.copy_pixels g f } in
      if same_subtype f.buffer.subtype subtype
      then (x, f, true)
      else if t.1
      then (record x { temp0 = copy }, copy, true)
      else (record x { temp0 = t.0 }, f, false)

  -- The branch where the destination is m_DeinterlaceTempBuffer[1].
  unfoldable pub deliver_from_temp :
      Deinterlacers S
      → Services
      → Context
      → Output
      → OutSample
      → Kind
      → Frame
      → Hresult
      → Filter S
      → Filter S × Outcome
  deliver_from_temp i s c out o k f hr x =
      let subtype =
        if i.is_format_supported k f.buffer.subtype f.buffer.subtype
        then f.buffer.subtype
        else i420 in
      let r = source_frame out subtype f x in
      let t = fit_temp out.malloc subtype f.buffer r.0.temp1 in
      let top = has_flag f.buffer.attributes.flags flag_top_field_first in
      let q =
        deinterlace_frame i s c o out.next_delivery_buffer k top r.1
          (set_attributes f.buffer.attributes t.0) hr r.0 in
      if not r.2
      then (r.0, returned e_outofmemory)
      else if not t.1
      then (record r.0 { temp1 = t.0 }, returned e_outofmemory)
      else (record q.0 { temp1 = q.1 }, q.2)

  unfoldable pub deliver_in_place :
      Deinterlacers S
      → Services
      → Context
      → Output
      → OutSample
      → Kind
      → Frame
      → Frame
      → Hresult
      → Filter S
      → Filter S × Outcome
  deliver_in_place i s c out o k f dst hr x =
      let top = has_flag f.buffer.attributes.flags flag_top_field_first in
      let q = deinterlace_frame i s c o out.next_delivery_buffer k top f dst hr x in (q.0, q.2)

  -- The branches for m_pD3D9Surface and for m_Buffer[0] of the destination.
  unfoldable pub deliver_at :
      Deinterlacers S
      → Services
      → Context
      → Output
      → OutSample
      → Kind
      → Frame
      → Frame
      → Hresult
      → Option ℕ
      → Option ℕ
      → Filter S
      → Filter S × Outcome
  deliver_at i s c out o k f dst hr (some a) plane x =
      let r = deliver_surface s c o (out.lock_rect a) f dst (out.get_desc a) x in
      (r.0, returned r.1)
  deliver_at i s c out o k f dst hr none none x = deliver_from_temp i s c out o k f hr x
  deliver_at i s c out o k f dst hr none (some a) x = deliver_in_place i s c out o k f dst hr x

  unfoldable pub deliver_to :
      Deinterlacers S
      → Services
      → Context
      → Output
      → OutSample
      → Kind
      → Frame
      → Frame × Hresult
      → Filter S
      → Filter S × Outcome
  deliver_to i s c out o k f (dst, hr) x =
      if failed hr
      then (x, returned hr)
      else deliver_at i s c out o k f dst hr dst.buffer.d3d9_surface dst.buffer.plane0 x

  unfoldable pub deliver_obtained :
      Deinterlacers S
      → Services
      → Context
      → Output
      → Kind
      → Frame
      → Obtained
      → Filter S
      → Filter S × Outcome
  deliver_obtained i s c out k f (not_obtained hr) x = (x, returned hr)
  deliver_obtained i s c out k f (obtained o) x =
      let fresh : Frame = record {
        buffer = record (new f.buffer.attributes.deinterlace) { attributes = f.buffer.attributes };
        planes = record { y = []; u = []; v = [] };
      } in
      deliver_to i s c out o k f (setup_output_frame_buffer i c.dxva_output out k o fresh) x

  -- m_fAttachMediaType, where ReconnectOutput has set it.
  abbrev pub attach : Bool → Filter S → Filter S
  attach set x = record x {
    delivery = record x.delivery { attach_media_type = x.delivery.attach_media_type || set };
  }

  -- DeliverFrame; `avg_time` is m_AvgTimePerFrame.
  unfoldable pub deliver_frame :
      Deinterlacers S
      → Services
      → Context
      → Output
      → Bool
      → ℤ
      → Frame
      → Filter S
      → Filter S × Outcome
  deliver_frame i s c out dxva_deinterlace avg_time f x =
      let k = choose_deinterlacer dxva_deinterlace f.buffer.attributes.deinterlace in
      let time = if i.is_double_frame k then tdiv avg_time 2 else avg_time in
      let got = out.get_delivery_buffer f.buffer time in
      deliver_obtained i s c out k f got.1 (attach got.0 x)
