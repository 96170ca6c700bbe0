-- ===== src/Telecine/History.antt =====
-- The specification of the telecine detection: what the members mean, given the film flag of every
-- frame since the reset, the newest first.
use Prim.Native.Nat.{bit_or}
use native.Mathlib.Nat.{pow-suc}
use native.Mathlib.Numerals.{add-one}
use mathlib.Core.Bool.{not}
use tvtest_video_decoder.Base.{
  ℕ, zero, suc, ◌+◌, ◌*◌, ◌/◌, ◌^◌, ◌<◌, ◌≡◌, refl, subst, arith, Bool, true, false, ◌&&◌, ◌||◌,
  List, [], ◌∷◌, some, leb, if◌then◌else◌, length, get_elem?,
}
use tvtest_video_decoder.Base.Bits.{halve_fields, bit_or-IsDigitwise, fields-digitwise, bit_or-zero}
use tvtest_video_decoder.Util.{ones, ones-fields}
use tvtest_video_decoder.Telecine.{shift_types}

abbrev pub digit : Bool → ℕ
digit true = 1
digit false = 0

-- How many of the newest `n` frames were film.
unfoldable pub recent_films : ℕ → List Bool → ℕ
recent_films zero h = 0
recent_films (suc n) [] = 0
recent_films (suc n) (f ∷ h) = digit f + recent_films n h

-- The newest `n` frames as a word of `n` bits, the newest in the highest bit.
unfoldable pub window_word : ℕ → List Bool → ℕ
window_word zero h = 0
window_word (suc n) [] = 0
window_word (suc n) (f ∷ h) = digit f * 2 ^ n + window_word n h

-- The number of the last film frame, counted from 0 at the reset; 0 if there was none.
unfoldable pub last_film : List Bool → ℕ
last_film [] = 0
last_film (true ∷ h) = length h
last_film (false ∷ h) = last_film h

-- Telecine mode: entered at a film frame with 10 film frames among the last 31, left at a frame
-- where it could not be entered, 180 frames or more after the last film frame.
unfoldable pub in_telecine : List Bool → Bool
in_telecine [] = false
in_telecine (f ∷ h) =
    if in_telecine h
    then f && leb 10 (recent_films 31 (f ∷ h)) || not (leb (last_film (f ∷ h) + 180) (length h))
    else f && leb 10 (recent_films 31 (f ∷ h))

pub window_word-lt : (n : ℕ) (h : List Bool) → window_word n h < 2 ^ n
unfolding window_word
window_word-lt zero h = omega arith
window_word-lt (suc n) [] = omega (arith, pow-suc 2 n, window_word-lt n [])
window_word-lt (suc n) (true ∷ h) = omega (arith, pow-suc 2 n, window_word-lt n h)
window_word-lt (suc n) (false ∷ h) = omega (arith, pow-suc 2 n, window_word-lt n h)

-- A shift to the right drops the oldest frame.
window_word-half : (n : ℕ) (h : List Bool) → window_word (suc n) h / 2 ≡ window_word n h
unfolding window_word
window_word-half zero [] = refl
window_word-half (suc n) [] = refl
window_word-half zero (true ∷ h) = refl
window_word-half zero (false ∷ h) = refl
window_word-half (suc n) (f ∷ h) =
    omega (arith, window_word-half n h, (halve_fields n (digit f) (window_word (suc n) h)).0)

digit-ones : (f : Bool) → ones 1 (digit f) ≡ digit f
unfolding ones
digit-ones true = refl
digit-ones false = refl

pub ones-zero : (n : ℕ) → ones n 0 ≡ 0
unfolding ones
ones-zero zero = refl
ones-zero (suc n) = omega (arith, ones-zero n)

ones-top : (n q r : ℕ) → r < 2 ^ n → ones (suc n) (q * 2 ^ n + r) ≡ ones n r + ones 1 q
ones-top n q r h =
    subst (λ k. ones k (q * 2 ^ n + r) ≡ ones n r + ones 1 q) (add-one n) (ones-fields n 1 q r h)

-- The bits of the word are the film flags of the window.
pub ones-window_word : (n : ℕ) (h : List Bool) → ones n (window_word n h) ≡ recent_films n h
unfolding window_word recent_films
ones-window_word zero h = ones-zero 0
ones-window_word (suc n) [] = ones-zero (suc n)
ones-window_word (suc n) (f ∷ h) = omega (
  arith,
  ones-top n (digit f) (window_word n h) (window_word-lt n h),
  ones-window_word n h,
  digit-ones f,
)

set_top_bit : (w : ℕ) → w < 2 ^ 30 → bit_or w (2 ^ 30) ≡ 2 ^ 30 + w
set_top_bit w small =
    let e : 0 * 2 ^ 30 + w ≡ w = omega arith in
    omega (
      arith,
      rw e at (fields-digitwise bit_or-IsDigitwise 30 0 1 w 0 small (omega arith)),
      bit_or-zero 30 w small,
    )

window_word-cons :
    (n : ℕ) (f : Bool) (h : List Bool)
    → window_word (suc n) (f ∷ h) ≡ digit f * 2 ^ n + window_word n h
unfolding window_word
window_word-cons n f h = refl

-- The update of m_RecentFrameTypes moves the window by one frame.
pub shift-window_word :
    (f : Bool) (h : List Bool) → shift_types f (window_word 31 h) ≡ window_word 31 (f ∷ h)
unfolding shift_types
shift-window_word true h =
    rw (window_word-half 30 h, set_top_bit (window_word 30 h) (window_word-lt 30 h))
      (omega (arith, window_word-cons 30 true h))
shift-window_word false h = omega (arith, window_word-half 30 h, window_word-cons 30 false h)

pub last_film-cons :
    (f : Bool) (h : List Bool) → (if f then length h else last_film h) ≡ last_film (f ∷ h)
unfolding last_film
last_film-cons true h = refl
last_film-cons false h = refl

-- Every frame newer than the last film frame was none.
pub last_film-quiet :
    (h : List Bool) (i : ℕ) → last_film h + i + 1 < length h → get_elem? h i ≡ some false
unfolding last_film
last_film-quiet [] i k = absurd (omega arith)
last_film-quiet (true ∷ h) i k = absurd (omega arith)
last_film-quiet (false ∷ h) zero k = refl
last_film-quiet (false ∷ h) (suc i) k = last_film-quiet h i (omega arith)
