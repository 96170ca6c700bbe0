-- ===== src/Input/Rates.antt =====
-- The property set of CMpeg2DecoderInputPin in src/TVTestVideoDecoder.cpp.
use tvtest_video_decoder.Base.{
  ℕ, ◌≡◌, refl, arith, Bool, true, false, ◌&&◌, ◌||◌, List, [], ◌∷◌, Option, none, some,
}
use tvtest_video_decoder.Base.Int.{ℤ, pos, same_ℤ}
use tvtest_video_decoder.Delivery.{RateChange, take_rate, scale}
use tvtest_video_decoder.Input.{
  Property, simple_rate_change, max_full_data_rate, use_rate_version, query_full_frame_rate,
  query_last_rate_seg_pts, correct_ts, other_property, Setting, set_rate, set_version,
  set_correct_ts, set_other, Pin, new_pin, set_property, get_property, query_supported,
}

-- Calls of Set, one after the other.
unfoldable pub set_all : List Setting → Pin → Pin
set_all [] p = p
set_all (x ∷ xs) p = set_all xs (set_property x p).0

abbrev pub never_corrects : List Setting → Bool
never_corrects [] = true
never_corrects (set_correct_ts n ∷ xs) = same_ℤ n (pos 0) && never_corrects xs
never_corrects (set_rate rc ∷ xs) = never_corrects xs
never_corrects (set_version v ∷ xs) = never_corrects xs
never_corrects (set_other q ∷ xs) = never_corrects xs

set_all-rate :
    (xs : List Setting) (p : Pin)
    → never_corrects xs ≡ true
    → same_ℤ p.correct_ts (pos 0) ≡ true
    → (set_all xs p).rate_change ≡ p.rate_change
unfolding set_all set_property
set_all-rate [] p h k = refl
set_all-rate (set_correct_ts n ∷ xs) p h k =
    set_all-rate xs (record p { correct_ts = n }) (ground arith) (ground arith)
set_all-rate (set_rate rc ∷ xs) p h k = rw (set_all, k) (set_all-rate xs p h k)
set_all-rate (set_version v ∷ xs) p h k = set_all-rate xs p h k
set_all-rate (set_other q ∷ xs) p h k = set_all-rate xs p h k

-- Whatever is set on a new input pin, if AM_RATE_CorrectTS is never set to a number other than 0,
-- the pin keeps its rate, and a filter at that rate leaves every time as it is.
pub set_all-unscaled :
    (xs : List Setting) (rc : RateChange) (t u : ℤ)
    → never_corrects xs ≡ true
    → same_ℤ rc.rate (pos 10000) ≡ true
    → scale (take_rate (some (set_all xs new_pin).rate_change.rate) t rc) u ≡ u
unfolding take_rate scale new_pin
set_all-unscaled xs rc t u h k = rw (set_all-rate xs new_pin h refl, k) (rw k refl)

abbrev pub reports_get : Option (Bool × Bool) → Bool
reports_get none = false
reports_get (some r) = r.0

abbrev pub is_answered : Option (List ℕ) → Bool
is_answered none = false
is_answered (some r) = true

abbrev pub is_unanswered : Property → Bool
is_unanswered simple_rate_change = true
is_unanswered query_last_rate_seg_pts = true
is_unanswered _ = false

-- QuerySupported reports a property as readable exactly if Get answers it, but for the rate change
-- and the last time stamp, which it reports and Get refuses.
pub query_supported-get :
    (p : Property)
    → reports_get (query_supported p) ≡ is_answered (get_property p) || is_unanswered p
unfolding query_supported get_property
query_supported-get simple_rate_change = refl
query_supported-get max_full_data_rate = refl
query_supported-get use_rate_version = refl
query_supported-get query_full_frame_rate = refl
query_supported-get query_last_rate_seg_pts = refl
query_supported-get correct_ts = refl
query_supported-get (other_property n) = refl
