-- ===== src/Examples/Detection.antt =====
-- The telecine detection of src/TVTestVideoDecoder.cpp and the helpers of src/Util on small inputs.
use Prim.Native.Nat.{◌∣◌}
use tvtest_video_decoder.Base.Int.{pos, negsuc, ◌-ℤ◌, tdiv}
use tvtest_video_decoder.Util.Fraction.{
  remainder, quotient, gcd_loop, gcd, divide_both, reduce_signed, reduce_fraction, DividesFound,
  gcd-DividesFound,
}
use tvtest_video_decoder.Base.{
  ℕ, ◌≡◌, ◌≢◌, ◌↔◌, refl, arith, Bool, true, false, List, [], ◌∷◌, ◌++◌, Option, none, some,
  replicate,
}
use tvtest_video_decoder.Types.{weave, yadif, has_flag}
use tvtest_video_decoder.Util.{pop_count}
use tvtest_video_decoder.Telecine.{
  Detection, Settings, Status, reset_detection, update_film, detect, shift_types, update_mode,
}
use tvtest_video_decoder.Telecine.History.{recent_films, window_word, last_film, in_telecine}
use tvtest_video_decoder.Telecine.Refinement.{
  Represents, films, run, run-Represents, reset-Represents,
}

abbrev settings : Settings
settings = record {
  deinterlace_method = yadif;
  adapt_progressive = true;
  adapt_telecine = true;
  output_interlaced = false;
}

abbrev start : Status
start = record { detection = reset_detection; flags = 0; deinterlace = weave; initialized = [] }

-- A film frame that repeats a field, a frame whose flags are not known, and a video frame.
abbrev frames : List (Option ℕ)
frames = some 6 ∷ none ∷ some 4 ∷ some 0 ∷ []

run-Represents_example :
    Represents (run settings frames start).detection (films settings frames start ++ [])
run-Represents_example = run-Represents settings frames start [] reset-Represents

-- Nine film frames have passed.
abbrev nine_films : Detection
nine_films = record {
  film = true;
  telecine_mode = false;
  recent_frame_types = window_word 31 (replicate 9 true);
  last_film_frame = 8;
  frame_count = 9;
}

nine_films-Represents : Represents nine_films (replicate 9 true)
unfolding window_word last_film in_telecine recent_films
nine_films-Represents = record { count = refl; last = refl; types = refl; mode = refl }

nine_films-next : (detect 6 6 nine_films).telecine_mode ≡ true
unfolding detect update_film shift_types update_mode pop_count has_flag window_word
nine_films-next = refl

film_rises : update_film 0 6 false ≢ false
unfolding update_film has_flag
film_rises = ground arith

-- Telecine mode, with 179 video frames since the last of ten film frames.
abbrev quiet : List Bool
quiet = replicate 179 false ++ replicate 10 true

abbrev quiet_films : Detection
quiet_films = record {
  film = false;
  telecine_mode = true;
  recent_frame_types = 0;
  last_film_frame = 9;
  frame_count = 189;
}

quiet_films-Represents : Represents quiet_films quiet
unfolding window_word last_film in_telecine recent_films
quiet_films-Represents = record { count = refl; last = refl; types = refl; mode = refl }

quiet_films-next : (detect 0 0 quiet_films).telecine_mode ≡ false
unfolding detect update_film shift_types update_mode pop_count has_flag
quiet_films-next = refl

gcd-DividesFound_example : DividesFound 3 (gcd (pos 12) (negsuc 17)) ↔ ((3 ∣ 12) × (3 ∣ 18))
gcd-DividesFound_example =
    gcd-DividesFound (pos 12) (negsuc 17) 3 (omega arith) (omega arith) (omega arith) (omega arith)

-- INT_MIN % -1 is not defined.
overflowing : gcd (negsuc 2147483647) (negsuc 0) ≡ none
unfolding gcd gcd_loop remainder
overflowing = refl

-- The denominator may become negative.
negative_denominator : (reduce_fraction (negsuc 1) (pos 4)).1 ≡ negsuc 1
unfolding reduce_fraction reduce_signed divide_both quotient gcd gcd_loop remainder ◌-ℤ◌ tdiv
negative_denominator = refl
