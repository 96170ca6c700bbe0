-- ===== src/Streaming/Transform.antt =====
-- Transform of src/TVTestVideoDecoder.cpp, around the steps of Streaming.Loop.
use tvtest_video_decoder.Base.{
  Bool, true, false, ◌||◌, List, [], ◌∷◌, Option, none, some, if◌then◌else◌,
}
use tvtest_video_decoder.Base.Int.{ℤ, pos, ltb_ℤ}
use tvtest_video_decoder.Types.{Hresult, s_ok, failed}
use tvtest_video_decoder.FrameDecoder.{Mpeg2, opened}
use tvtest_video_decoder.FrameDecoder.Stream.{
  Outcome, returned, faulted, unfinished, Info, info_of, is_live,
}
use tvtest_video_decoder.Streaming.{
  Kind, Filter, Options, init_decode, sequence_time, take_picture, invalid_time,
}
use tvtest_video_decoder.Streaming.Loop.{
  Event, parse_buffer, parse_other, parse_invalid, parse_sequence, parse_picture, parse_slice,
  Services, Step, slice_step,
}

-- A turn of the loop: it goes on, with `left` for a DataLength greater than 0 and the time of the
-- sample, or it ends.
pub data Turn (M : Type 0) : Type 0 where
  goes_on : Bool → ℤ → Filter → M → Turn M
  ends : Outcome → Filter → M → Turn M

-- Parse: without a handle the state is invalid.
abbrev pub parse : Mpeg2 → Event → Event
parse (opened h) e = e
parse _ e = parse_invalid

-- The sample: whether it is a preroll or a discontinuity, its length, the result of GetPointer, and
-- its start, `none` where GetTime fails.
pub record Input : Type 0 where
  pub preroll : Bool
  pub discontinuity : Bool
  pub length : ℤ
  pub pointer : Hresult
  pub start : Option ℤ

abbrev pub start_or_invalid : Option ℤ → ℤ
start_or_invalid none = invalid_time
start_or_invalid (some t) = t

abbrev pub is_absent : Option Kind → Bool
is_absent none = true
is_absent (some k) = false

module _ {M : Type 0} where
  unfoldable pub reinit : Services M → Options → Filter → Filter
  reinit s o x = init_decode s.mpeg2_init o (s.device x.init_calls) x

  unfoldable pub step_turn : Bool → ℤ → Step M → Turn M
  step_turn left t (x, m, none) = goes_on left t x m
  step_turn left t (x, m, some hr) = ends (returned hr) x m

  -- `pInfo` is read at a sequence and at a slice.
  unfoldable pub turn : Services M → Options → Info → Bool → Bool → ℤ → Event → Filter → M → Turn M
  turn s o info preroll left t parse_buffer x m =
      if left then goes_on false t x m else ends (returned s_ok) x m
  turn s o info preroll left t parse_other x m = goes_on left t x m
  turn s o info preroll left t parse_invalid x m = goes_on left t (reinit s o x) m
  turn s o info preroll left t (parse_sequence period) x m =
      if is_live info x.mpeg2
      then goes_on left t (record x { avg_time = sequence_time o.input_time period }) m
      else ends faulted x m
  turn s o info preroll left t (parse_picture index flags) x m =
      goes_on left invalid_time (take_picture o preroll t index flags x) m
  turn s o info preroll left t (parse_slice fbuf chroma shown) x m =
      if is_live info x.mpeg2
      then step_turn left t (slice_step s o fbuf chroma shown x m)
      else ends faulted x m

  unfoldable pub after_turn :
      Turn M → (Bool → ℤ → Filter → M → Filter × M × Outcome) → Filter × M × Outcome
  after_turn (goes_on left t x m) rest = rest left t x m
  after_turn (ends out x m) rest = (x, m, out)

  -- `e ∷ es` is what mpeg2_parse returns in this turn and the next ones, where it is called.
  unfoldable pub transform_loop :
      Services M → Options → Info → Bool → Bool → ℤ → List Event → Filter → M → Filter × M × Outcome
  transform_loop s o info preroll left t [] x m = (x, m, unfinished)
  transform_loop s o info preroll left t (e ∷ es) x m =
      after_turn (turn s o info preroll left t (parse x.mpeg2 e) x m)
        (λ l u y n. transform_loop s o info preroll l u es y n)

  -- Transform from GetPointer on.
  unfoldable pub transform_data :
      Services M → Options → Input → List Event → Filter → M → Filter × M × Outcome
  transform_data s o input es x m =
      let loop =
        transform_loop s o (info_of x.mpeg2) input.preroll (ltb_ℤ (pos 0) input.length)
          (start_or_invalid input.start) es x m in
      if failed input.pointer
      then (x, m, returned input.pointer)
      else if ltb_ℤ input.length (pos 0)
      then (x, m, returned s_ok)
      else loop

  unfoldable pub transform :
      Services M → Options → Input → List Event → Filter → M → Filter × M × Outcome
  transform s o input es x m =
      transform_data s o input es
        (if is_absent x.decoder || x.reinit_decoder || input.discontinuity then reinit s o x else x)
        m
