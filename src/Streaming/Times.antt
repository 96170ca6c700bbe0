-- ===== src/Streaming/Times.antt =====
-- The times of the frames that Transform of src/TVTestVideoDecoder.cpp hands on.
use mathlib.Core.Bool.{not}
use tvtest_video_decoder.Base.{
  ℕ, ◌≡◌, refl, arith, Bool, true, false, ◌&&◌, ◌||◌, Option, none, some, inl, inr, Bool-cases,
  if◌then◌else◌,
}
use tvtest_video_decoder.Base.Int.{ℤ, pos, negsuc, ltb_ℤ, ◌+ℤ◌, ◌*ℤ◌, ◌≤ℤ◌, tdiv, int_laws}
use tvtest_video_decoder.Types.{failed}
use tvtest_video_decoder.FrameBuffer.{FrameBuffer, Attributes}
use tvtest_video_decoder.FrameDecoder.{set_aspect}
use tvtest_video_decoder.Streaming.{
  Kind, is_d3d11, device_result, keep_decoder, software, dxva2, d3d11, Filter, Options, Device,
  reset_stream, init_decode, sequence_time, take_times,
}
use tvtest_video_decoder.Streaming.Loop.{
  Displayed, D3d11Frame, d3d11_buffer, d3d11_nothing, Services, size_frame, take_display,
}
use tvtest_video_decoder.Streaming.Transform.{reinit}

-- A frame has no time, or it does not stop before it starts.
abbrev pub is_timed : Attributes → Bool
is_timed a = ltb_ℤ a.rt_start (pos 0) || not (ltb_ℤ a.rt_stop a.rt_start)

half_nonneg : (v : ℤ) → pos 0 ≤ℤ v → pos 0 ≤ℤ tdiv v 2
unfolding tdiv
half_nonneg (pos n) h = ground arith
half_nonneg (negsuc n) h = absurd (omega arith)

times_nonneg : (v : ℤ) (n : ℕ) → pos 0 ≤ℤ v → pos 0 ≤ℤ v *ℤ pos n
unfolding ◌*ℤ◌
times_nonneg (pos m) n h = ground arith
times_nonneg (negsuc m) n h = absurd (omega arith)

later : (from d : ℤ) → pos 0 ≤ℤ d → ltb_ℤ (from +ℤ d) from ≡ false
later from d h = let k : from ≤ℤ from +ℤ d = omega int_laws in ground arith

take_times-timed :
    (start avg_time : ℤ) (nb : ℕ) (second : Bool) (a : Attributes)
    → pos 0 ≤ℤ avg_time
    → is_timed (take_times start avg_time nb second a) ≡ true
unfolding take_times
take_times-timed start avg_time nb second a h =
    let from = if ltb_ℤ start (pos 0) then a.rt_stop else start in
    let whole = times_nonneg avg_time nb h in
    elim (Bool-cases (ltb_ℤ from (pos 0))) [
      | inl e ↦ rw e (rw e refl)
      | inr e ↦ rw e (elim (Bool-cases second) [
        | inl g ↦ rw (g, later from (avg_time *ℤ pos nb) whole) (ground arith)
        | inr g ↦
            rw
              (g, later from (tdiv (avg_time *ℤ pos nb) 2) (half_nonneg (avg_time *ℤ pos nb) whole))
              (ground arith)
      ])
    ]

abbrev pub buffer_timed : D3d11Frame → Bool
buffer_timed (d3d11_buffer b) = is_timed b.attributes
buffer_timed d3d11_nothing = true

-- The interface: a property of the state that each call keeps, where the frames have right times.
pub record Laws {M : Type 0} (s : Services M) (P : M → Type 0) : Type 0 where
  pub deliver_frame_law :
      (b : FrameBuffer) (m : M) → is_timed b.attributes ≡ true → P m → P (s.deliver_frame b m).0
  pub deliver_sample_law :
      (n : ℕ) (b : FrameBuffer) (m : M)
      → is_timed b.attributes ≡ true
      → P m
      → P (s.deliver_sample n b m).0
  pub reconnect_law : (b : FrameBuffer) (t : ℤ) (m : M) → P m → P (s.reconnect b t m).0
  pub dxva_decode_law : (m : M) → P m → P (s.dxva_decode m).0
  pub dxva_close_law : (m : M) → P m → P (s.dxva_close m)
  pub d3d11_law :
      (b : FrameBuffer) (m : M)
      → is_timed b.attributes ≡ true
      → P m
      → P (s.d3d11_decode b m).0 × (buffer_timed (s.d3d11_decode b m).1 ≡ true)
  pub unlock_law : (b : FrameBuffer) (m : M) → P m → P (s.unlock b m)

-- The members that the times depend on.
abbrev pub is_steady : Filter → Bool
is_steady x = not (ltb_ℤ x.avg_time (pos 0)) && is_timed x.frame.attributes

abbrev pub is_nonneg : Option ℤ → Bool
is_nonneg none = true
is_nonneg (some t) = not (ltb_ℤ t (pos 0))

pub take_display-steady :
    (malloc : ℕ → Option ℕ) (o : Options) (d : Displayed) (x : Filter)
    → is_steady x ≡ true
    → is_steady (take_display malloc o d x) ≡ true
unfolding take_display
take_display-steady malloc o d x h =
    let long : pos 0 ≤ℤ x.avg_time = ground arith in
    let set =
      set_aspect d.picture.aspect
        (size_frame malloc o (is_d3d11 x.decoder) d.picture x.frame).attributes in
    let timed =
      take_times-timed (x.picture_start d.index) x.avg_time d.nb_fields d.second set long in
    ground arith

keep_decoder-avg_time :
    (o : Options) (v : Device) (k : Option Kind) (x : Filter)
    → (keep_decoder o v k x).avg_time ≡ x.avg_time
unfolding keep_decoder
keep_decoder-avg_time o v none x = refl
keep_decoder-avg_time o v (some software) x = refl
keep_decoder-avg_time o v (some dxva2) x = elim (Bool-cases o.dxva_output) [
  | inl e ↦ rw e refl
  | inr e ↦ rw e refl
]
keep_decoder-avg_time o v (some d3d11) x =
    elim (Bool-cases (failed (device_result x.reinit_decoder v))) [
      | inl e ↦ rw e refl
      | inr e ↦ rw e refl
    ]

pub reinit-steady :
    {M : Type 0} (s : Services M) (o : Options) (x : Filter)
    → is_steady x ≡ true
    → is_steady (reinit s o x) ≡ true
unfolding reinit init_decode reset_stream
reinit-steady s o x h =
    rw (keep_decoder-avg_time o (s.device x.init_calls) x.decoder x) (ground arith)

pub sequence_time-nonneg :
    (input_time : Option ℤ) (period : ℕ)
    → is_nonneg input_time ≡ true
    → ltb_ℤ (sequence_time input_time period) (pos 0) ≡ false
unfolding sequence_time
sequence_time-nonneg none period h = ground arith
sequence_time-nonneg (some t) period h = ground arith
