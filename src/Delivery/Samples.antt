-- ===== src/Delivery/Samples.antt =====
-- The samples that Deliver of src/TVTestVideoDecoder.cpp passes on in a run over frames.
use mathlib.Core.Bool.{not}
use tvtest_video_decoder.Base.{
  ◌≡◌, refl, ◌∙◌, Bool, true, false, ◌&&◌, ◌||◌, arith, List, [], ◌∷◌, Option, none, some, inl, inr,
  Bool-cases, if◌then◌else◌,
}
use tvtest_video_decoder.Base.Int.{ℤ, pos, ◌≤ℤ◌, ltb_ℤ, same_ℤ}
use tvtest_video_decoder.Types.{same_subtype, i420, nv12}
use tvtest_video_decoder.Color.{Adjustment, is_effective}
use tvtest_video_decoder.Delivery.{
  Frame, RateChange, OutSample, Sample, Services, Context, Delivery, Prepared, ready, stopped,
  adjust, prepare, take_rate, scale, make_sample, send, deliver,
}
use tvtest_video_decoder.Delivery.Rate.{scale_mono}

abbrev pub leb_ℤ : ℤ → ℤ → Bool
leb_ℤ a b = not (ltb_ℤ b a)

abbrev pub start_of : Frame → ℤ
start_of f = f.buffer.attributes.rt_start

abbrev pub stop_of : Frame → ℤ
stop_of f = f.buffer.attributes.rt_stop

-- The end of the time that is taken, after the frame.
abbrev pub next_time : ℤ → Frame → ℤ
next_time t f = if ltb_ℤ (start_of f) (pos 0) then t else stop_of f

-- A frame has no time, or it starts at `t` or later and does not stop before it starts.
abbrev pub fits : ℤ → Frame → Bool
fits t f = ltb_ℤ (start_of f) (pos 0) || leb_ℤ t (start_of f) && leb_ℤ (start_of f) (stop_of f)

abbrev pub keeps_rate : ℤ → Option ℤ → Bool
keeps_rate rate none = true
keeps_rate rate (some r) = same_ℤ rate r

-- Samples, the last first: none starts before the one before it stops, and all stop by `t`.
abbrev pub spaced : List Sample → ℤ → Bool
spaced [] t = true
spaced (x ∷ xs) t = leb_ℤ x.stop t && leb_ℤ x.start x.stop && spaced xs x.start

pub spaced_mono : (xs : List Sample) (t u : ℤ) → t ≤ℤ u → spaced xs t ≡ true → spaced xs u ≡ true
spaced_mono [] t u h k = refl
spaced_mono (x ∷ xs) t u h k = ground arith

adjust-buffer :
    (sin_cos : ℤ → ℤ × ℤ) (f : Frame) (a : Adjustment) → (adjust sin_cos f a).1.buffer ≡ f.buffer
unfolding adjust
adjust-buffer sin_cos f a = elim (Bool-cases (is_effective a)) [
  | inl e ↦ rw e (elim (Bool-cases (same_subtype f.buffer.subtype i420)) [
    | inl g ↦ rw g refl
    | inr g ↦ rw g (elim (Bool-cases (same_subtype f.buffer.subtype nv12)) [
      | inl k ↦ rw k refl
      | inr k ↦ rw k refl
    ])
  ])
  | inr e ↦ rw e refl
]

take_rate-kept :
    (rate : Option ℤ) (t : ℤ) (rc : RateChange)
    → keeps_rate rc.rate rate ≡ true
    → take_rate rate t rc ≡ rc
unfolding take_rate
take_rate-kept none t rc h = refl
take_rate-kept (some r) t rc h = rw h refl

send-rate :
    (s : Services) (c : Context) (o : OutSample) (d : Delivery) (f : Frame) (p : Prepared)
    → keeps_rate d.rate_change.rate c.pin_rate ≡ true
    → (send s c o (d, f, p)).0.rate_change ≡ d.rate_change
unfolding send
send-rate s c o d f (stopped hr) h = refl
send-rate s c o d f (ready content) h =
    let kept = take_rate-kept c.pin_rate (start_of f) d.rate_change h in
    elim (Bool-cases (d.attach_media_type && not s.create_media_type)) [
      | inl e ↦ rw e kept
      | inr e ↦ rw e kept
    ]

abbrev is_stamped : ℤ → Frame → Bool
is_stamped t f =
    not (ltb_ℤ (start_of f) (pos 0)) && leb_ℤ t (start_of f) && leb_ℤ (start_of f) (stop_of f)

send-spaced :
    (s : Services) (c : Context) (o : OutSample) (d : Delivery) (f : Frame) (p : Prepared) (t : ℤ)
    → keeps_rate d.rate_change.rate c.pin_rate ≡ true
    → pos 0 ≤ℤ d.rate_change.rate
    → is_stamped t f ≡ true
    → spaced d.delivered (scale d.rate_change t) ≡ true
    → spaced (send s c o (d, f, p)).0.delivered (scale d.rate_change (stop_of f)) ≡ true
unfolding send make_sample
send-spaced s c o d f (stopped hr) t h n k l =
    spaced_mono d.delivered (scale d.rate_change t) (scale d.rate_change (stop_of f))
      (scale_mono d.rate_change t (stop_of f) n (ground arith)) l
send-spaced s c o d f (ready content) t h n k l =
    let kept = take_rate-kept c.pin_rate (start_of f) d.rate_change h in
    let before =
      spaced_mono d.delivered (scale d.rate_change t) (scale d.rate_change (start_of f))
        (scale_mono d.rate_change t (start_of f) n (ground arith)) l in
    let inside = scale_mono d.rate_change (start_of f) (stop_of f) n (ground arith) in
    elim (Bool-cases (d.attach_media_type && not s.create_media_type)) [
      | inl e ↦ rw e (
          spaced_mono d.delivered (scale d.rate_change (start_of f))
            (scale d.rate_change (stop_of f)) inside before)
      | inr e ↦ rw (e, kept) (ground arith)
    ]

-- What a step of a run keeps.
abbrev pub StepKeeps : RateChange → ℤ → Delivery → Type 0
StepKeeps rc t d = (d.rate_change ≡ rc) × (spaced d.delivered (scale rc t) ≡ true)

pub prepare-keeps :
    (s : Services) (c : Context) (o : OutSample) (f : Frame) (d : Delivery)
    → ((prepare s c o f d).0.rate_change ≡ d.rate_change)
      × ((prepare s c o f d).0.delivered ≡ d.delivered)
      × ((prepare s c o f d).1.buffer ≡ f.buffer)
unfolding prepare
prepare-keeps s c o f d = elim (Bool-cases c.dxva_output) [
  | inl e ↦ rw e (refl, refl, refl)
  | inr e ↦ rw e (refl, refl, adjust-buffer s.sin_cos f d.adjustment)
]

send_kept :
    (s : Services) (c : Context) (o : OutSample) (rc : RateChange) (d : Delivery) (f g : Frame)
    (p : Prepared) (t : ℤ)
    → g.buffer ≡ f.buffer
    → keeps_rate rc.rate c.pin_rate ≡ true
    → pos 0 ≤ℤ rc.rate
    → is_stamped t f ≡ true
    → StepKeeps rc t d
    → StepKeeps rc (stop_of f) (send s c o (d, g, p)).0
send_kept s c o rc d f g p t same h n k kept =
    let rate : keeps_rate d.rate_change.rate c.pin_rate ≡ true = rw kept.0 h in
    let sign : pos 0 ≤ℤ d.rate_change.rate = rw kept.0 n in
    let stamp : is_stamped t g ≡ true = rw same k in
    let before : spaced d.delivered (scale d.rate_change t) ≡ true = rw kept.0 kept.1 in
    let after = send-spaced s c o d g p t rate sign stamp before in
    (send-rate s c o d g p rate ∙ kept.0, rw (← kept.0, ← same) after)

pub deliver_kept :
    (s : Services) (c : Context) (o : OutSample) (rc : RateChange) (f : Frame) (d : Delivery)
    (t : ℤ)
    → keeps_rate rc.rate c.pin_rate ≡ true
    → pos 0 ≤ℤ rc.rate
    → fits t f ≡ true
    → StepKeeps rc t d
    → StepKeeps rc (next_time t f) (deliver s c o f d).0
unfolding deliver
deliver_kept s c o rc f d t h n k kept =
    elim (Bool-cases (ltb_ℤ (start_of f) (pos 0) || c.wait_for_key_frame)) [
      | inl e ↦ rw e (elim (Bool-cases (ltb_ℤ (start_of f) (pos 0))) [
        | inl early ↦ rw early kept
        | inr late ↦ rw late (
          kept.0,
          spaced_mono d.delivered (scale rc t) (scale rc (stop_of f))
              (scale_mono rc t (stop_of f) n (ground arith)) kept.1,
        )
      ])
      | inr e ↦
          (let q = prepare-keeps s c o f d in
            let late : ltb_ℤ (start_of f) (pos 0) ≡ false = ground arith in
            let r =
              send_kept s c o rc (prepare s c o f d).0 f (prepare s c o f d).1 (prepare s c o f d).2
                t q.2 h n (ground arith) (q.0 ∙ kept.0, rw q.1 kept.1) in
            rw (e, late) r)
    ]

-- The last bound is weakened to the order of the samples.
abbrev pub is_ordered : List Sample → Bool
is_ordered [] = true
is_ordered (x ∷ xs) = leb_ℤ x.start x.stop && spaced xs x.start

pub ordered_of_spaced : (xs : List Sample) (t : ℤ) → spaced xs t ≡ true → is_ordered xs ≡ true
ordered_of_spaced [] t h = refl
ordered_of_spaced (x ∷ xs) t h = ground arith
