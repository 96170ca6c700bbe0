-- ===== src/Delivery/Order.antt =====
-- The samples of DeliverFrame of src/TVTestVideoDecoder.cpp in a run over frames.
use tvtest_video_decoder.Base.{
  ℕ, ◌≡◌, refl, sym, subst, ◌∙◌, Bool, true, false, ◌||◌, arith, ◌∷◌, Option, none, some, inl, inr,
  ltb, Bool-cases, if◌then◌else◌,
}
use tvtest_video_decoder.Base.Int.{ℤ, pos, ◌≤ℤ◌}
use tvtest_video_decoder.Types.{
  Hresult, s_ok, failed, guid_null, has_flag, flag_top_field_first, Subtype, same_subtype, i420,
}
use tvtest_video_decoder.FrameDecoder.{FrameStatus, frame_ok, frame_skip, frame_pending}
use tvtest_video_decoder.Delivery.{
  Frame, Pointer, address, no_pointer, RateChange, OutSample, Services, Context, deliver,
}
use tvtest_video_decoder.Delivery.Samples.{next_time, fits, keeps_rate, StepKeeps, deliver_kept}
use tvtest_video_decoder.Delivery.Buffers.{
  Kind, Deinterlacers, Obtained, Output, Desc, desc, no_desc, nv12_surface, imc3_surface,
  other_surface, fit_temp, set_attributes, setup_surface, setup_output_frame_buffer,
}
use tvtest_video_decoder.Delivery.Fields.{
  Filter, deliver_in, guard_surface, deliver_surface, retry_blend, first_frame, deinterlace_frame,
}
use tvtest_video_decoder.Delivery.Target.{
  source_frame, deliver_from_temp, deliver_in_place, deliver_at,
}
use tvtest_video_decoder.Delivery.Split.{show_fields_kept}
use tvtest_video_decoder.Delivery.Halves.{AttributeLaws, StepKeeps-mono, fits_order}

same_fits :
    (t : ℤ) (d f : Frame)
    → d.buffer.attributes ≡ f.buffer.attributes
    → fits t f ≡ true
    → fits t d ≡ true
same_fits t d f e fit = rw e fit

same_time :
    (t : ℤ) (d f : Frame)
    → d.buffer.attributes ≡ f.buffer.attributes
    → next_time t d ≡ next_time t f
same_time t d f e = rw e refl

module _ {S : Type 0} (i : Deinterlacers S) (k : Kind) (laws : AttributeLaws i k) where
  retry_blend-attributes :
      (src : Frame) (top : Bool) (r : S × FrameStatus × Frame)
      → (retry_blend i src top r).2.buffer.attributes ≡ r.2.buffer.attributes
  unfolding retry_blend
  retry_blend-attributes src top (y, frame_ok, d) = refl
  retry_blend-attributes src top (y, frame_pending, d) = refl
  retry_blend-attributes src top (y, frame_skip, d) = laws.blend_laws y d src top 0

  first_frame-attributes :
      (dst src : Frame) (top : Bool) (y : S)
      → (first_frame i k dst src top y).2.buffer.attributes ≡ dst.buffer.attributes
  unfolding first_frame
  first_frame-attributes dst src top y =
      retry_blend-attributes src top (i.get_frame k y dst src top 0)
      ∙ laws.get_frame_laws y dst src top 0

  module _ (s : Services) (c : Context) (rc : RateChange) (h : keeps_rate rc.rate c.pin_rate ≡ true)
      (n : pos 0 ≤ℤ rc.rate) (f : Frame) (t : ℤ) (fit : fits t f ≡ true) where
    deinterlace_frame_kept :
        (o : OutSample) (next : Obtained) (top : Bool) (src dst : Frame) (hr : Hresult)
        (x : Filter S)
        → dst.buffer.attributes ≡ f.buffer.attributes
        → StepKeeps rc t x.delivery
        → StepKeeps rc
            (next_time t f)
            (deinterlace_frame i s c o next k top src dst hr x).0.delivery
    unfolding deinterlace_frame
    deinterlace_frame_kept o next top src dst hr x e kept =
        let r = first_frame i k dst src top x.deinterlacers in
        let same = first_frame-attributes dst src top x.deinterlacers ∙ e in
        subst (λ u. StepKeeps rc u (deinterlace_frame i s c o next k top src dst hr x).0.delivery)
          (same_time t r.2 f same)
          (show_fields_kept s c rc i o next k top src hr r.0 r.1 r.2 x t laws h n
            (same_fits t r.2 f same fit) kept)

    pub stay : (x : Filter S) → StepKeeps rc t x.delivery → StepKeeps rc (next_time t f) x.delivery
    stay x kept = StepKeeps-mono rc t (next_time t f) x.delivery n (fits_order t f fit) kept

    source_frame-delivery :
        (out : Output) (subtype : Subtype) (x : Filter S)
        → (source_frame out subtype f x).0.delivery ≡ x.delivery
    unfolding source_frame
    source_frame-delivery out subtype x =
        elim (Bool-cases (same_subtype f.buffer.subtype subtype)) [
          | inl e ↦ rw e refl
          | inr e ↦ rw e (elim (Bool-cases (fit_temp out.malloc subtype f.buffer x.temp0).1) [
            | inl g ↦ rw g refl
            | inr g ↦ rw g refl
          ])
        ]

    deliver_from_temp_kept :
        (out : Output) (o : OutSample) (hr : Hresult) (x : Filter S)
        → StepKeeps rc t x.delivery
        → StepKeeps rc (next_time t f) (deliver_from_temp i s c out o k f hr x).0.delivery
    unfolding deliver_from_temp
    deliver_from_temp_kept out o hr x kept =
        let subtype =
          if i.is_format_supported k f.buffer.subtype f.buffer.subtype
          then f.buffer.subtype
          else i420 in
        let r = source_frame out subtype f x in
        let g = fit_temp out.malloc subtype f.buffer r.0.temp1 in
        let top = has_flag f.buffer.attributes.flags flag_top_field_first in
        let before : StepKeeps rc t r.0.delivery =
          subst (StepKeeps rc t) (sym (source_frame-delivery out subtype x)) kept in
        let after =
          deinterlace_frame_kept o out.next_delivery_buffer top r.1
            (set_attributes f.buffer.attributes g.0) hr r.0 refl before in
        elim (Bool-cases r.2) [
          | inl a ↦
              rw a (elim (Bool-cases g.1) [ inl b ↦ rw b after | inr b ↦ rw b (stay r.0 before) ])
          | inr a ↦ rw a (stay r.0 before)
        ]

    deliver_in_kept :
        (o : OutSample) (dst : Frame) (x : Filter S)
        → dst.buffer.attributes ≡ f.buffer.attributes
        → StepKeeps rc t x.delivery
        → StepKeeps rc (next_time t f) (deliver_in s c o dst x).0.delivery
    unfolding deliver_in
    deliver_in_kept o dst x e kept =
        subst (λ u. StepKeeps rc u (deliver s c o dst x.delivery).0) (same_time t dst f e)
          (deliver_kept s c o rc dst x.delivery t h n (same_fits t dst f e fit) kept)

    -- The two errors before the delivery.
    guarded :
        (small : Bool) (lock : Hresult) (x : Filter S) (r : Filter S × Frame × Hresult)
        → StepKeeps rc t x.delivery
        → StepKeeps rc (next_time t f) r.0.delivery
        → StepKeeps rc (next_time t f) (guard_surface small lock x r).0.delivery
    unfolding guard_surface
    guarded true lock x r kept after = stay x kept
    guarded false lock x r kept after = elim (Bool-cases (failed lock)) [
      | inl e ↦ rw e (stay x kept)
      | inr e ↦ rw e after
    ]

    deliver_surface_kept :
        (o : OutSample) (lock : Hresult) (dst : Frame) (d : Desc) (x : Filter S)
        → dst.buffer.attributes ≡ f.buffer.attributes
        → StepKeeps rc t x.delivery
        → StepKeeps rc (next_time t f) (deliver_surface s c o lock f dst d x).0.delivery
    unfolding deliver_surface
    deliver_surface_kept o lock dst (no_desc hr) x e kept = stay x kept
    deliver_surface_kept o lock dst (desc other_surface w g) x e kept = stay x kept
    deliver_surface_kept o lock dst (desc nv12_surface w g) x e kept =
        guarded (ltb w f.buffer.width || ltb g f.buffer.height) lock x
          (deliver_in s c o dst (record x { painted = (nv12_surface, f) ∷ x.painted })) kept
          (deliver_in_kept o dst (record x { painted = (nv12_surface, f) ∷ x.painted }) e kept)
    deliver_surface_kept o lock dst (desc imc3_surface w g) x e kept =
        guarded (ltb w f.buffer.width || ltb g f.buffer.height) lock x
          (deliver_in s c o dst (record x { painted = (imc3_surface, f) ∷ x.painted })) kept
          (deliver_in_kept o dst (record x { painted = (imc3_surface, f) ∷ x.painted }) e kept)

    pub deliver_at_kept :
        (out : Output) (o : OutSample) (dst : Frame) (hr : Hresult) (surface plane : Option ℕ)
        (x : Filter S)
        → dst.buffer.attributes ≡ f.buffer.attributes
        → StepKeeps rc t x.delivery
        → StepKeeps rc
            (next_time t f)
            (deliver_at i s c out o k f dst hr surface plane x).0.delivery
    unfolding deliver_at deliver_in_place
    deliver_at_kept out o dst hr (some a) plane x e kept =
        deliver_surface_kept o (out.lock_rect a) dst (out.get_desc a) x e kept
    deliver_at_kept out o dst hr none none x e kept = deliver_from_temp_kept out o hr x kept
    deliver_at_kept out o dst hr none (some a) x e kept =
        deinterlace_frame_kept o out.next_delivery_buffer
          (has_flag f.buffer.attributes.flags flag_top_field_first) f dst hr x e kept

  pub setup_surface-attributes :
      (p : Pointer) (f : Frame) → (setup_surface p f).0.buffer.attributes ≡ f.buffer.attributes
  unfolding setup_surface
  setup_surface-attributes (address a) f = refl
  setup_surface-attributes (no_pointer hr) f = refl

-- A destination of no format is not placed in the sample, by a deinterlacer that supports no null
-- format.
pub setup_output_frame_buffer-null :
    {S : Type 0} (i : Deinterlacers S) (k : Kind)
    → ((subtype : Subtype) → i.is_format_supported k guid_null subtype ≡ false)
    → (dxva_output : Bool) (out : Output) (o : OutSample) (f : Frame) → f.buffer.subtype ≡ guid_null
    → setup_output_frame_buffer i dxva_output out k o f
      ≡ (if dxva_output then setup_surface o.surface f else (f, s_ok))
unfolding setup_output_frame_buffer
setup_output_frame_buffer-null i k null true out o f e = refl
setup_output_frame_buffer-null i k null false out o f e =
    let none_known : i.is_format_supported k f.buffer.subtype out.subtype ≡ false =
      rw e (null out.subtype) in
    ground arith
