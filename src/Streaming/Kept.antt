-- ===== src/Streaming/Kept.antt =====
-- What each step of Transform in src/TVTestVideoDecoder.cpp keeps, through the interface of
-- Streaming.Times.
use mathlib.Core.Bool.{not}
use tvtest_video_decoder.Base.{
  ◌≡◌, arith, Bool, true, ◌&&◌, ◌||◌, Option, none, some, leb, inl, inr, Bool-cases,
}
use tvtest_video_decoder.Types.{Hresult, failed, has_flag}
use tvtest_video_decoder.FrameBuffer.{FrameBuffer}
use tvtest_video_decoder.Streaming.{Kind, software, dxva2, d3d11, Filter, Options}
use tvtest_video_decoder.Streaming.Loop.{
  Displayed, DxvaFrame, dxva_sample, dxva_new_device, dxva_nothing, D3d11Frame, d3d11_buffer,
  d3d11_nothing, Services, Step, pass_failure, after_dxva, dxva_after_reconnect, dxva_shown,
  show_dxva, crop_to, is_null, after_d3d11, show_software, show_decoded, take_shown, slice_step,
}
use tvtest_video_decoder.Streaming.Times.{
  Laws, is_timed, buffer_timed, is_steady, take_display-steady,
}

module _ {M : Type 0} (s : Services M) (P : M → Type 0) (laws : Laws s P) where
  abbrev pub Keeps : Step M → Type 0
  Keeps r = (is_steady r.0 ≡ true) × P r.1

  pass_failure-Keeps :
      (x : Filter) (r : M × Hresult) → is_steady x ≡ true → P r.0 → Keeps (pass_failure x r)
  unfolding pass_failure
  pass_failure-Keeps x (m, hr) h p = (h, p)

  after_dxva-Keeps :
      (x : Filter) (r : M × DxvaFrame) → is_steady x ≡ true → P r.0 → Keeps (after_dxva s x r)
  unfolding after_dxva
  after_dxva-Keeps x (m, dxva_sample n) h p =
      pass_failure-Keeps x (s.deliver_sample n x.frame m) h
        (laws.deliver_sample_law n x.frame m (ground arith) p)
  after_dxva-Keeps x (m, dxva_new_device) h p = (h, laws.dxva_close_law m p)
  after_dxva-Keeps x (m, dxva_nothing) h p = (h, p)

  decode-Keeps :
      (x : Filter) (m : M) → is_steady x ≡ true → P m → Keeps (after_dxva s x (s.dxva_decode m))
  decode-Keeps x m h p = after_dxva-Keeps x (s.dxva_decode m) h (laws.dxva_decode_law m p)

  dxva_after_reconnect-Keeps :
      (x : Filter) (r : M × Hresult)
      → is_steady x ≡ true
      → P r.0
      → Keeps (dxva_after_reconnect s x r)
  unfolding dxva_after_reconnect
  dxva_after_reconnect-Keeps x (m, hr) h p = elim (Bool-cases (failed hr)) [
    | inl e ↦ rw e (h, p)
    | inr e ↦ rw e (decode-Keeps x m h p)
  ]

  dxva_shown-Keeps :
      (shown : Option Displayed) (x : Filter) (m : M)
      → is_steady x ≡ true
      → P m
      → Keeps (dxva_shown s shown x m)
  unfolding dxva_shown
  dxva_shown-Keeps none x m h p = decode-Keeps x m h p
  dxva_shown-Keeps (some d) x m h p =
      dxva_after_reconnect-Keeps x (s.reconnect x.frame x.avg_time m) h
        (laws.reconnect_law x.frame x.avg_time m p)

  show_dxva-Keeps :
      (o : Options) (shown : Option Displayed) (x : Filter) (m : M)
      → is_steady x ≡ true
      → P m
      → Keeps (show_dxva s o shown x m)
  unfolding show_dxva
  show_dxva-Keeps o shown x m h p = elim (Bool-cases (s.dxva_lost m)) [
    | inl e ↦ rw e (h, p)
    | inr e ↦ rw e (elim (Bool-cases (not o.dxva_output)) [
      | inl g ↦ rw g (h, p)
      | inr g ↦ rw g (dxva_shown-Keeps shown x m h p)
    ])
  ]

  crop_to-timed :
      (f b : FrameBuffer) → is_timed b.attributes ≡ true → is_timed (crop_to f b).attributes ≡ true
  crop_to-timed f b h = elim (Bool-cases (leb f.width b.width && leb f.height b.height)) [
    | inl e ↦ rw e h
    | inr e ↦ rw e h
  ]

  after_d3d11-Keeps :
      (x : Filter) (r : M × D3d11Frame)
      → is_steady x ≡ true
      → P r.0
      → buffer_timed r.1 ≡ true
      → Keeps (after_d3d11 s x r)
  unfolding after_d3d11
  after_d3d11-Keeps x (m, d3d11_nothing) h p q = (h, p)
  after_d3d11-Keeps x (m, d3d11_buffer b) h p q =
      let c = crop_to x.frame b in
      let r = s.deliver_frame c m in
      elim (Bool-cases (is_null b.plane0)) [
        | inl e ↦ rw e (h, p)
        | inr e ↦ rw e (
            pass_failure-Keeps x (s.unlock c r.0, r.1) h
              (laws.unlock_law c r.0 (laws.deliver_frame_law c m (crop_to-timed x.frame b q) p)))
      ]

  show_software-Keeps :
      (fbuf : Bool) (shown : Option Displayed) (x : Filter) (m : M)
      → is_steady x ≡ true
      → P m
      → Keeps (show_software s fbuf shown x m)
  unfolding show_software
  show_software-Keeps fbuf none x m h p = (h, p)
  show_software-Keeps fbuf (some d) x m h p =
      let b = record (s.frame_of d) { attributes = x.frame.attributes } in
      elim (Bool-cases (has_flag d.picture.flags 64)) [
        | inl e ↦ rw e (h, p)
        | inr e ↦ rw e (elim (Bool-cases (not fbuf)) [
          | inl g ↦ rw g (h, p)
          | inr g ↦ rw g (
              pass_failure-Keeps x (s.deliver_frame b m) h
                (laws.deliver_frame_law b m (ground arith) p))
        ])
      ]

  show_decoded-Keeps :
      (o : Options) (fbuf : Bool) (shown : Option Displayed) (k : Option Kind) (x : Filter) (m : M)
      → is_steady x ≡ true
      → P m
      → Keeps (show_decoded s o fbuf shown k x m)
  unfolding show_decoded
  show_decoded-Keeps o fbuf shown none x m h p = show_software-Keeps fbuf shown x m h p
  show_decoded-Keeps o fbuf shown (some software) x m h p = show_software-Keeps fbuf shown x m h p
  show_decoded-Keeps o fbuf shown (some dxva2) x m h p = show_dxva-Keeps o shown x m h p
  show_decoded-Keeps o fbuf shown (some d3d11) x m h p =
      let q = laws.d3d11_law x.frame m (ground arith) p in
      after_d3d11-Keeps x (s.d3d11_decode x.frame m) h q.0 q.1

  take_shown-steady :
      (o : Options) (shown : Option Displayed) (x : Filter)
      → is_steady x ≡ true
      → is_steady (take_shown s o shown x) ≡ true
  unfolding take_shown
  take_shown-steady o none x h = h
  take_shown-steady o (some d) x h = take_display-steady s.malloc o d x h

  pub slice_step-Keeps :
      (o : Options) (fbuf chroma : Bool) (shown : Option Displayed) (x : Filter) (m : M)
      → is_steady x ≡ true
      → P m
      → Keeps (slice_step s o fbuf chroma shown x m)
  unfolding slice_step
  slice_step-Keeps o fbuf chroma shown x m h p =
      let y = take_shown s o shown x in
      let steady = take_shown-steady o shown x h in
      elim (Bool-cases ((fbuf || o.dxva_output) && chroma)) [
        | inl e ↦ rw e (show_decoded-Keeps o fbuf shown x.decoder y m steady p)
        | inr e ↦ rw e (h, p)
      ]
