-- ===== src/Telecine/Refinement.antt =====
-- The detection of src/TVTestVideoDecoder.cpp implements the specification by the history of film
-- flags.
use mathlib.Core.List.{append_assoc}
use mathlib.Core.Bool.{not}
use tvtest_video_decoder.Base.{
  ℕ, ◌+◌, ◌*◌, ◌^◌, ◌≡◌, refl, arith, Bool, ◌&&◌, ◌||◌, List, [], ◌∷◌, ◌++◌, Option, none, some,
  leb, if◌then◌else◌, length,
}
use tvtest_video_decoder.Util.{pop_count, pop_count-ones, ones-fields}
use tvtest_video_decoder.Telecine.{
  Detection, Settings, Status, reset_detection, update_film, update_mode, shift_types, detect,
  set_frame_status,
}
use tvtest_video_decoder.Telecine.History.{
  recent_films, window_word, window_word-lt, last_film, in_telecine, ones-window_word, ones-zero,
  shift-window_word, last_film-cons,
}

-- The members stand for the history `h` of film flags, the newest first.
pub record Represents (d : Detection) (h : List Bool) : Type 0 where
  pub count : d.frame_count ≡ length h
  pub last : d.last_film_frame ≡ last_film h
  pub types : d.recent_frame_types ≡ window_word 31 h
  pub mode : d.telecine_mode ≡ in_telecine h

-- PopCount of the window counts the film frames among the last 31.
pop_count-window : (h : List Bool) → pop_count (window_word 31 h) ≡ recent_films 31 h
pop_count-window h =
    let small = window_word-lt 31 h in
    let e : 0 * 2 ^ 31 + window_word 31 h ≡ window_word 31 h = omega arith in
    omega (
      arith,
      pop_count-ones (window_word 31 h) (omega arith),
      rw e at (ones-fields 31 1 0 (window_word 31 h) small),
      ones-window_word 31 h,
      ones-zero 1,
    )

update_mode_lem :
    (mode telecine : Bool) (last count : ℕ)
    → update_mode mode telecine last count
      ≡ (if mode then telecine || not (leb (last + 180) count) else telecine)
unfolding update_mode
update_mode_lem mode telecine last count = ground arith

-- The new mode, with the members replaced by what they stand for.
mode-in_telecine :
    (f : Bool) (h : List Bool)
    → update_mode
        (in_telecine h)
        (f && leb 10 (pop_count (shift_types f (window_word 31 h))))
        (if f then length h else last_film h)
        (length h)
      ≡ in_telecine (f ∷ h)
unfolding in_telecine
mode-in_telecine f h = rw (
  shift-window_word f h,
  pop_count-window (f ∷ h),
  last_film-cons f h,
  update_mode_lem (in_telecine h) (f && leb 10 (recent_films 31 (f ∷ h))) (last_film (f ∷ h))
      (length h),
)

pub detect-Represents :
    (old new : ℕ) (d : Detection) (h : List Bool)
    → Represents d h
    → Represents (detect old new d) (update_film old new d.film ∷ h)
unfolding detect
detect-Represents old new d h r =
    let f = update_film old new d.film in
    record {
      count = omega (arith, r.count);
      last = rw (r.last, r.count) (last_film-cons f h);
      types = rw r.types (shift-window_word f h);
      mode = rw (r.mode, r.last, r.types, r.count) (mode-in_telecine f h);
    }

-- The film flag after each frame of a run, the newest first.
unfoldable pub films : Settings → List (Option ℕ) → Status → List Bool
films c [] s = []
films c (none ∷ fs) s = films c fs (set_frame_status c none s)
films c (some new ∷ fs) s =
    films c fs (set_frame_status c (some new) s)
    ++ (set_frame_status c (some new) s).detection.film ∷ []

-- The frames in order, each with what GetFrameFlags returned.
unfoldable pub run : Settings → List (Option ℕ) → Status → Status
run c [] s = s
run c (f ∷ fs) s = run c fs (set_frame_status c f s)

failed-Represents :
    (c : Settings) (s : Status) (h : List Bool)
    → Represents s.detection h
    → Represents (set_frame_status c none s).detection h
unfolding set_frame_status
failed-Represents c s h r = r

status-Represents :
    (c : Settings) (new : ℕ) (s : Status) (h : List Bool)
    → Represents s.detection h
    → Represents
        (set_frame_status c (some new) s).detection
        ((set_frame_status c (some new) s).detection.film ∷ h)
unfolding set_frame_status
status-Represents c new s h r = detect-Represents s.flags new s.detection h r

-- From a state that stands for a history of film flags, any run of frames, with or without known
-- flags, leaves the state that stands for the history with the film flags of the run added: the
-- shift register is the window of the last 31, its population count decides the mode, and the mode
-- is that of the specification.
pub run-Represents :
    (c : Settings) (fs : List (Option ℕ)) (s : Status) (h : List Bool)
    → Represents s.detection h
    → Represents (run c fs s).detection (films c fs s ++ h)
unfolding run films
run-Represents c [] s h r = r
run-Represents c (none ∷ fs) s h r =
    run-Represents c fs (set_frame_status c none s) h (failed-Represents c s h r)
run-Represents c (some new ∷ fs) s h r =
    rw append_assoc
      (run-Represents c fs (set_frame_status c (some new) s) _ (status-Represents c new s h r))

pub reset-Represents : Represents reset_detection []
unfolding reset_detection last_film window_word in_telecine
reset-Represents = record { count = refl; last = refl; types = refl; mode = refl }
