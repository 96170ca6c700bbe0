-- ===== src/Streaming/Run.antt =====
-- What the loop of Transform in src/TVTestVideoDecoder.cpp keeps.
use tvtest_video_decoder.Base.{
  ◌≡◌, arith, Bool, true, false, ◌||◌, List, [], ◌∷◌, none, some, inl, inr, Bool-cases,
}
use tvtest_video_decoder.Base.Int.{ℤ, pos, ltb_ℤ}
use tvtest_video_decoder.Types.{failed}
use tvtest_video_decoder.FrameDecoder.Stream.{Outcome, Info, info_of, is_live}
use tvtest_video_decoder.Streaming.{Filter, Options, take_picture}
use tvtest_video_decoder.Streaming.Loop.{
  Event, parse_buffer, parse_other, parse_invalid, parse_sequence, parse_picture, parse_slice,
  Services, Step, slice_step,
}
use tvtest_video_decoder.Streaming.Transform.{
  Turn, goes_on, ends, parse, Input, start_or_invalid, is_absent, reinit, step_turn, turn,
  after_turn, transform_loop, transform_data, transform,
}
use tvtest_video_decoder.Streaming.Times.{
  Laws, is_steady, is_nonneg, reinit-steady, sequence_time-nonneg,
}
use tvtest_video_decoder.Streaming.Kept.{Keeps, slice_step-Keeps}

module _ {M : Type 0} (s : Services M) (P : M → Type 0) (laws : Laws s P) (o : Options)
    (i : is_nonneg o.input_time ≡ true) where
  abbrev KeepsTurn : Turn M → Type 0
  KeepsTurn (goes_on left t x m) = (is_steady x ≡ true) × P m
  KeepsTurn (ends out x m) = (is_steady x ≡ true) × P m

  step_turn-Keeps :
      (left : Bool) (t : ℤ) (r : Step M) → Keeps s P laws r → KeepsTurn (step_turn left t r)
  unfolding step_turn
  step_turn-Keeps left t (x, m, none) k = k
  step_turn-Keeps left t (x, m, some hr) k = k

  turn-Keeps :
      (info : Info) (preroll left : Bool) (t : ℤ) (e : Event) (x : Filter) (m : M)
      → is_steady x ≡ true
      → P m
      → KeepsTurn (turn s o info preroll left t e x m)
  unfolding turn take_picture
  turn-Keeps info preroll true t parse_buffer x m h p = (h, p)
  turn-Keeps info preroll false t parse_buffer x m h p = (h, p)
  turn-Keeps info preroll left t parse_other x m h p = (h, p)
  turn-Keeps info preroll left t parse_invalid x m h p = (reinit-steady s o x h, p)
  turn-Keeps info preroll left t (parse_sequence period) x m h p =
      let long = sequence_time-nonneg o.input_time period i in
      elim (Bool-cases (is_live info x.mpeg2)) [
        | inl e ↦ rw e (ground arith, p)
        | inr e ↦ rw e (h, p)
      ]
  turn-Keeps info preroll left t (parse_picture index flags) x m h p = (h, p)
  turn-Keeps info preroll left t (parse_slice fbuf chroma shown) x m h p =
      elim (Bool-cases (is_live info x.mpeg2)) [
        | inl e ↦ rw e (
            step_turn-Keeps left t (slice_step s o fbuf chroma shown x m)
              (slice_step-Keeps s P laws o fbuf chroma shown x m h p))
        | inr e ↦ rw e (h, p)
      ]

  after_turn-Keeps :
      (r : Turn M) (rest : Bool → ℤ → Filter → M → Filter × M × Outcome)
      → ((l : Bool) (u : ℤ) (y : Filter) (n : M)
          → is_steady y ≡ true
          → P n
          → (is_steady (rest l u y n).0 ≡ true) × P (rest l u y n).1)
      → KeepsTurn r
      → (is_steady (after_turn r rest).0 ≡ true) × P (after_turn r rest).1
  unfolding after_turn
  after_turn-Keeps (goes_on left t x m) rest step k = step left t x m k.0 k.1
  after_turn-Keeps (ends out x m) rest step k = k

  transform_loop-Keeps :
      (info : Info) (preroll left : Bool) (t : ℤ) (es : List Event) (x : Filter) (m : M)
      → is_steady x ≡ true
      → P m
      → (is_steady (transform_loop s o info preroll left t es x m).0 ≡ true)
        × P (transform_loop s o info preroll left t es x m).1
  unfolding transform_loop
  transform_loop-Keeps info preroll left t [] x m h p = (h, p)
  transform_loop-Keeps info preroll left t (e ∷ es) x m h p =
      after_turn-Keeps (turn s o info preroll left t (parse x.mpeg2 e) x m)
        (λ l u y n. transform_loop s o info preroll l u es y n)
        (λ l u y n k q. transform_loop-Keeps info preroll l u es y n k q)
        (turn-Keeps info preroll left t (parse x.mpeg2 e) x m h p)

  transform_data-Keeps :
      (input : Input) (es : List Event) (x : Filter) (m : M)
      → is_steady x ≡ true
      → P m
      → (is_steady (transform_data s o input es x m).0 ≡ true)
        × P (transform_data s o input es x m).1
  unfolding transform_data
  transform_data-Keeps input es x m h p = elim (Bool-cases (failed input.pointer)) [
    | inl e ↦ rw e (h, p)
    | inr e ↦ rw e (elim (Bool-cases (ltb_ℤ input.length (pos 0))) [
      | inl g ↦ rw g (h, p)
      | inr g ↦ rw g (
          transform_loop-Keeps (info_of x.mpeg2) input.preroll (ltb_ℤ (pos 0) input.length)
            (start_or_invalid input.start) es x m h p)
    ])
  ]

  -- If the time per frame is not negative and m_FrameBuffer has no time or does not stop before it
  -- starts, Transform leaves it so on every stream. It keeps each property of the state behind it
  -- that DeliverFrame, Deliver and the hardware decoders keep when they are called with frames that
  -- have no time or do not stop before they start: each frame that it hands on is one.
  pub transform-Keeps :
      (input : Input) (es : List Event) (x : Filter) (m : M)
      → is_steady x ≡ true
      → P m
      → (is_steady (transform s o input es x m).0 ≡ true) × P (transform s o input es x m).1
  unfolding transform
  transform-Keeps input es x m h p =
      elim (Bool-cases (is_absent x.decoder || x.reinit_decoder || input.discontinuity)) [
        | inl e ↦ rw e (transform_data-Keeps input es (reinit s o x) m (reinit-steady s o x h) p)
        | inr e ↦ rw e (transform_data-Keeps input es x m h p)
      ]
