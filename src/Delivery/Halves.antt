-- ===== src/Delivery/Halves.antt =====
-- The times of the two fields of a frame, and what Deliver of src/TVTestVideoDecoder.cpp leaves of a
-- frame that it is given.
use mathlib.Core.Bool.{not}
use tvtest_video_decoder.Base.{
  ℕ, ◌-◌, ◌^◌, ◌≡◌, refl, Bool, true, false, ◌&&◌, ◌||◌, arith, inl, inr, Bool-cases,
}
use tvtest_video_decoder.Base.Int.{ℤ, pos, negsuc, ◌≤ℤ◌, ◌+ℤ◌, ltb_ℤ, tdiv}
use tvtest_video_decoder.Types.{Subtype, guid_null, blend, yadif, yadif_bob, same_method}
use tvtest_video_decoder.FrameBuffer.{Attributes}
use tvtest_video_decoder.Delivery.{
  Frame, RateChange, OutSample, Services, Context, Delivery, scale, prepare, send, deliver,
  Prepared, ready, stopped,
}
use tvtest_video_decoder.Delivery.Rate.{scale_mono}
use tvtest_video_decoder.Delivery.Samples.{
  start_of, stop_of, next_time, fits, spaced_mono, StepKeeps, prepare-keeps,
}
use tvtest_video_decoder.Delivery.Buffers.{
  Kind, dxva, plain, Deinterlacers, second_time, set_attributes,
}

pub half_between : (a b : ℤ) → pos 0 ≤ℤ a → a ≤ℤ b → (a ≤ℤ tdiv (a +ℤ b) 2) × (tdiv (a +ℤ b) 2 ≤ℤ b)
unfolding tdiv ◌+ℤ◌
half_between (pos n) (pos m) h k = ground arith
half_between (pos n) (negsuc m) h k = absurd (omega arith)
half_between (negsuc n) b h k = absurd (omega arith)

pub StepKeeps-mono :
    (rc : RateChange) (t u : ℤ) (d : Delivery)
    → pos 0 ≤ℤ rc.rate
    → t ≤ℤ u
    → StepKeeps rc t d
    → StepKeeps rc u d
StepKeeps-mono rc t u d n h k =
    (k.0, spaced_mono d.delivered (scale rc t) (scale rc u) (scale_mono rc t u n h) k.1)

-- Deliver leaves the frame with its attributes.
pub send-frame :
    (s : Services) (c : Context) (o : OutSample) (d : Delivery) (f : Frame) (p : Prepared)
    → (send s c o (d, f, p)).1 ≡ f
unfolding send
send-frame s c o d f (stopped hr) = refl
send-frame s c o d f (ready content) =
    elim (Bool-cases (d.attach_media_type && not s.create_media_type)) [
      | inl e ↦ rw e refl
      | inr e ↦ rw e refl
    ]

pub deliver-buffer :
    (s : Services) (c : Context) (o : OutSample) (f : Frame) (d : Delivery)
    → (deliver s c o f d).1.buffer ≡ f.buffer
unfolding deliver
deliver-buffer s c o f d = elim (Bool-cases (ltb_ℤ (start_of f) (pos 0) || c.wait_for_key_frame)) [
  | inl e ↦ rw e refl
  | inr e ↦
      (let q = prepare-keeps s c o f d in
        let g =
          send-frame s c o (prepare s c o f d).0 (prepare s c o f d).1 (prepare s c o f d).2 in
        rw (e, g) q.2)
]

-- The deinterlacers but the two of Yadif, which give the destination the attributes of a frame that
-- they keep.
abbrev pub keeps_attributes : Kind → Bool
keeps_attributes dxva = true
keeps_attributes (plain method) =
    not (same_method method yadif) && not (same_method method yadif_bob)

-- A deinterlacer, and the blend that stands in for it, leave the attributes of the destination alone,
-- and it supports no null format.
pub record AttributeLaws {S : Type 0} (i : Deinterlacers S) (k : Kind) : Type 0 where
  pub get_frame_laws :
      (y : S) (d f : Frame) (top : Bool) (n : ℕ)
      → (i.get_frame k y d f top n).2.buffer.attributes ≡ d.buffer.attributes
  pub blend_laws :
      (y : S) (d f : Frame) (top : Bool) (n : ℕ)
      → (i.get_frame (plain blend) y d f top n).2.buffer.attributes ≡ d.buffer.attributes
  pub post_process_laws :
      (y : S) (d f : Frame) (top : Bool)
      → (i.frame_post_process k y d f top).1.buffer.attributes ≡ d.buffer.attributes
  pub null_laws : (subtype : Subtype) → i.is_format_supported k guid_null subtype ≡ false

-- The second field, where the frame that it would be fits.
abbrev pub second_frame : ℤ → Frame → Frame
second_frame stop d = set_attributes (second_time stop d.buffer.attributes) d

-- What the second field needs, where there is one.
abbrev pub FitsSecond : ℤ → ℤ → ℤ → Attributes → Type 0
FitsSecond t u stop a =
    (f : Frame)
    → f.buffer.attributes ≡ a
    → (fits t (second_frame stop f) ≡ true) × (next_time t (second_frame stop f) ≤ℤ u)

pub second_fits :
    (mid stop : ℤ) (f : Frame)
    → stop_of f ≡ mid
    → pos 0 ≤ℤ mid
    → mid ≤ℤ stop
    → (fits mid (second_frame stop f) ≡ true) × (next_time mid (second_frame stop f) ≤ℤ stop)
unfolding second_time
second_fits mid stop f e h k =
    let late : ltb_ℤ stop (pos 0) ≡ false = ground arith in
    let early : ltb_ℤ mid (pos 0) ≡ false = ground arith in
    rw (late, e, early) (ground arith, ground arith)

-- A frame without a time has none for its second field either.
pub second_unfit :
    (u : ℤ) (f : Frame)
    → ltb_ℤ (start_of f) (pos 0) ≡ true
    → (fits u (second_frame (negsuc (2 ^ 63 - 1)) f) ≡ true)
      × (next_time u (second_frame (negsuc (2 ^ 63 - 1)) f) ≤ℤ u)
unfolding second_time
second_unfit u f h = rw h (refl, omega arith)

pub whole_fits :
    (t : ℤ) (d f : Frame)
    → f.buffer.attributes ≡ d.buffer.attributes
    → fits t d ≡ true
    → (fits t (second_frame (negsuc (2 ^ 63 - 1)) f) ≡ true)
      × (next_time t (second_frame (negsuc (2 ^ 63 - 1)) f) ≤ℤ next_time t d)
unfolding second_time
whole_fits t d f e fit = rw e (fit, omega arith)

pub fits_order : (t : ℤ) (d : Frame) → fits t d ≡ true → t ≤ℤ next_time t d
fits_order t d fit = ground arith
