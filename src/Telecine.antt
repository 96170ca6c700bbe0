-- ===== src/Telecine.antt =====
-- CTVTestVideoDecoder::SetFrameStatus of src/TVTestVideoDecoder.cpp: the film and telecine
-- detection, and the choice of the deinterlacer for a frame.
pub mod History
pub mod Refinement
pub mod Modes
use Prim.Native.Nat.{bit_or}
use mathlib.Core.Bool.{not}
use tvtest_video_decoder.Base.{
  ℕ, ◌+◌, ◌*◌, ◌/◌, ◌^◌, Bool, true, false, ◌&&◌, List, [], ◌∷◌, Option, none, some, leb,
  if◌then◌else◌,
}
use tvtest_video_decoder.Types.{
  DeinterlaceMethod, weave, blend, same_method, has_flag, flag_repeat_first_field,
  flag_progressive_frame, flag_progressive_sequence,
}
use tvtest_video_decoder.Util.{pop_count}

-- The members that the detection keeps. The counters only grow from 0.
pub record Detection : Type 0 where
  pub film : Bool
  pub telecine_mode : Bool
  pub recent_frame_types : ℕ  -- uint32_t
  pub last_film_frame : ℕ
  pub frame_count : ℕ

-- The options that the choice reads, and whether the output media type is interlaced.
pub record Settings : Type 0 where
  pub deinterlace_method : DeinterlaceMethod
  pub adapt_progressive : Bool
  pub adapt_telecine : Bool
  pub output_interlaced : Bool

-- The detection, the two members of m_FrameBuffer that are written, and the deinterlacers that were
-- initialised, the last first.
pub record Status : Type 0 where
  pub detection : Detection
  pub flags : ℕ
  pub deinterlace : DeinterlaceMethod
  pub initialized : List DeinterlaceMethod

-- What InitDecode leaves.
unfoldable pub reset_detection : Detection
reset_detection = record {
  film = false;
  telecine_mode = false;
  recent_frame_types = 0;
  last_film_frame = 0;
  frame_count = 0;
}

-- The new value of m_fFilm, from the flags of the last frame and of this one.
unfoldable pub update_film : ℕ → ℕ → Bool → Bool
update_film old_flags new_flags film =
    if not (has_flag new_flags flag_progressive_sequence)
      && not (has_flag old_flags flag_repeat_first_field)
    then (if not film
          && (has_flag new_flags flag_repeat_first_field
              && has_flag new_flags flag_progressive_frame)
        then true
        else if film && not (has_flag new_flags flag_repeat_first_field)
        then false
        else film)
    else film

-- `m_RecentFrameTypes >>= 1`, and `|= 1 << 30` for film.
unfoldable pub shift_types : Bool → ℕ → ℕ
shift_types film types = if film then bit_or (types / 2) (2 ^ 30) else types / 2

-- The new value of m_fTelecineMode; `last` is the updated m_LastFilmFrame.
unfoldable pub update_mode : Bool → Bool → ℕ → ℕ → Bool
update_mode mode telecine last count =
    if not mode && telecine
    then true
    else if mode && (not telecine && leb (last + 30 * 6) count)
    then false
    else mode

unfoldable pub detect : ℕ → ℕ → Detection → Detection
unfolding update_film shift_types update_mode
detect old_flags new_flags d =
    let film = update_film old_flags new_flags d.film in
    let types = shift_types film d.recent_frame_types in
    let last = if film then d.frame_count else d.last_film_frame in
    record {
      film = film;
      telecine_mode =
          update_mode d.telecine_mode (film && leb 10 (pop_count types)) last d.frame_count;
      recent_frame_types = types;
      last_film_frame = last;
      frame_count = d.frame_count + 1;
    }

unfoldable pub choose : Settings → Detection → ℕ → DeinterlaceMethod
choose c d new_flags =
    if c.output_interlaced
    then weave
    else if same_method c.deinterlace_method weave
    then c.deinterlace_method
    else if has_flag new_flags flag_progressive_sequence && c.adapt_progressive
    then weave
    else if d.telecine_mode && c.adapt_telecine
    then (if d.film then weave else blend)
    else c.deinterlace_method

-- `new_flags` is what GetFrameFlags wrote, `none` if it failed.
unfoldable pub set_frame_status : Settings → Option ℕ → Status → Status
unfolding detect choose
set_frame_status c none s = s
set_frame_status c (some new_flags) s =
    let d = detect s.flags new_flags s.detection in
    let method = choose c d new_flags in
    record {
      detection = d;
      flags = new_flags;
      deinterlace = method;
      initialized =
          if same_method method s.deinterlace then s.initialized else method ∷ s.initialized;
    }
