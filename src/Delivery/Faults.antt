-- ===== src/Delivery/Faults.antt =====
-- The second field in DeliverFrame of src/TVTestVideoDecoder.cpp: the sample that there may not be,
-- and the times where the deinterlacer gives back another frame for it.
use tvtest_video_decoder.Base.{◌≡◌, refl, Bool, true, false, ◌&&◌}
use tvtest_video_decoder.Base.Int.{pos, ltb_ℤ}
use tvtest_video_decoder.FrameBuffer.{Attributes}
use tvtest_video_decoder.Delivery.{Services, Context}
use tvtest_video_decoder.Delivery.Buffers.{
  Kind, Deinterlacers, Obtained, obtained, not_obtained, Output, split_time, second_time,
}
use tvtest_video_decoder.Delivery.Fields.{Filter, Outcome, returned, faulted}

abbrev pub is_faulted : Outcome → Bool
is_faulted (returned hr) = false
is_faulted faulted = true

abbrev pub is_not_obtained : Obtained → Bool
is_not_obtained (obtained o) = false
is_not_obtained (not_obtained hr) = true

-- DeliverFrame from the deinterlacer on, where there is a sample for each field.
module _ {S : Type 0} (i : Deinterlacers S) (s : Services) (c : Context) (out : Output) (k : Kind)
    (there : i.is_double_frame k && is_not_obtained out.next_delivery_buffer ≡ false) where
  Returns : Filter S × Outcome → Type 0
  Returns q = is_faulted q.1 ≡ false

-- If the second field comes from a frame that stops later than the first, it starts after it stops.
pub second_time-crossed :
    (a b : Attributes)
    → ltb_ℤ a.rt_start (pos 0) ≡ false
    → ltb_ℤ a.rt_stop (pos 0) ≡ false
    → ltb_ℤ a.rt_stop b.rt_stop ≡ true
    → ltb_ℤ
        (second_time (split_time true a).0 b).rt_stop
        (second_time (split_time true a).0 b).rt_start
      ≡ true
unfolding second_time split_time
second_time-crossed a b h k l =
    let split : (split_time true a).0 ≡ a.rt_stop = rw (h, k) refl in
    let kept : second_time a.rt_stop b ≡ record b { rt_start = b.rt_stop; rt_stop = a.rt_stop } =
      rw k refl in
    rw (split, kept) l
