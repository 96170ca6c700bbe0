-- ===== src/Ela/Reads.antt =====
-- The columns of ELARow in src/Deinterlace.cpp that do not depend on the rest of the work buffer.
use tvtest_video_decoder.Base.{ℕ, ◌+◌, ◌-◌, ◌*◌, ◌/◌, ◌%◌, ◌≤◌, ◌<◌, ◌≡◌, refl, arith, true, ltb}
use tvtest_video_decoder.Yadif.{Bytes}
use tvtest_video_decoder.Ela.{score_entry, ela_score, weighted, pick_left, ela_result, ela_row}
use tvtest_video_decoder.Ela.Buffer.{prepared, top_set, bottom_set}

-- Two rows that agree from `lo` up to `hi`.
abbrev SameRow : ℕ → ℕ → Bytes → Bytes → Type 0
SameRow lo hi f g = (j : ℕ) → lo ≤ j → j ≤ hi → f j ≡ g j

score_same :
    (a b c d : Bytes) (p k : ℕ)
    → 3 ≤ p
    → k < 5
    → SameRow (p - 3) (p + 1) a c
    → SameRow (p - 3) (p + 1) b d
    → score_entry a b p k ≡ score_entry c d p k
unfolding score_entry
score_same a b c d p k h l same_top same_bottom =
    rw
      (
        same_top (p - 1) (omega arith) (omega arith),
        same_top (p - 2) (omega arith) (omega arith),
        same_top (p - 3) (omega arith) (omega arith),
        same_top p (omega arith) (omega arith),
        same_top (p + 1) (omega arith) (omega arith),
        same_bottom (p - 1) (omega arith) (omega arith),
        same_bottom p (omega arith) (omega arith),
        same_bottom (p + 1) (omega arith) (omega arith),
        same_bottom (p - 2) (omega arith) (omega arith),
        same_bottom (p - 3) (omega arith) (omega arith),
      )
      (ground arith)

average_same :
    (a b c d : Bytes) (p k : ℕ)
    → 3 ≤ p
    → 5 ≤ k
    → SameRow (p - 3) (p + 2) a c
    → SameRow (p - 3) (p + 2) b d
    → score_entry a b p k ≡ score_entry c d p k
unfolding score_entry
average_same a b c d p k h l same_top same_bottom =
    rw
      (
        same_top p (omega arith) (omega arith),
        same_top (p - 1) (omega arith) (omega arith),
        same_top (p - 2) (omega arith) (omega arith),
        same_top (p + 1) (omega arith) (omega arith),
        same_top (p + 2) (omega arith) (omega arith),
        same_bottom p (omega arith) (omega arith),
        same_bottom (p + 1) (omega arith) (omega arith),
        same_bottom (p + 2) (omega arith) (omega arith),
        same_bottom (p - 1) (omega arith) (omega arith),
        same_bottom (p - 2) (omega arith) (omega arith),
      )
      (ground arith)

module _ (width wr : ℕ) (top bottom s t : Bytes) (x : ℕ) (fits : x + 3 < width)
    (rounded : width ≤ wr) where
  abbrev scores : Bytes → Bytes
  scores temp = ela_score width wr (prepared width wr top bottom temp)

  entry_score : (e k : ℕ) → e ≤ x + 2 → k < 5 → scores s (10 * e + k) ≡ scores t (10 * e + k)
  unfolding ela_score
  entry_score e k h l =
      let inside : ltb (10 * e + k) (10 * width) ≡ true = ground arith in
      let entry : (10 * e + k) / 10 ≡ e = omega arith in
      let byte : (10 * e + k) % 10 ≡ k = omega arith in
      rw (inside, entry, byte)
        (score_same _ _ _ _ (16 + e) k (omega arith) l
          (λ j lo hi. top_set width wr top bottom s t j (omega arith) (omega arith))
          (λ j lo hi. bottom_set width wr top bottom s t j (omega arith) (omega arith)))

  entry_average : (k : ℕ) → 5 ≤ k → k < 10 → scores s (10 * x + k) ≡ scores t (10 * x + k)
  unfolding ela_score
  entry_average k h l =
      let inside : ltb (10 * x + k) (10 * width) ≡ true = ground arith in
      let entry : (10 * x + k) / 10 ≡ x = omega arith in
      let byte : (10 * x + k) % 10 ≡ k = omega arith in
      rw (inside, entry, byte)
        (average_same _ _ _ _ (16 + x) k (omega arith) h
          (λ j lo hi. top_set width wr top bottom s t j (omega arith) (omega arith))
          (λ j lo hi. bottom_set width wr top bottom s t j (omega arith) (omega arith)))

  weighted_same : (k : ℕ) → k < 5 → weighted (scores s) x k ≡ weighted (scores t) x k
  unfolding weighted
  weighted_same k l =
      rw
        (
          entry_score x k (omega arith) l,
          entry_score (x + 1) k (omega arith) l,
          entry_score (x + 2) k (omega arith) l,
        )
        refl

  result_same : ela_result (scores s) x ≡ ela_result (scores t) x
  unfolding ela_result pick_left
  result_same =
      rw
        (
          weighted_same 0 (omega arith),
          weighted_same 1 (omega arith),
          weighted_same 2 (omega arith),
          weighted_same 3 (omega arith),
          weighted_same 4 (omega arith),
          entry_average 5 (omega arith) (omega arith),
          entry_average 6 (omega arith) (omega arith),
          entry_average 7 (omega arith) (omega arith),
          entry_average 8 (omega arith) (omega arith),
          entry_average 9 (omega arith) (omega arith),
        )
        refl

-- Away from the last three columns a row does not depend on what the work buffer held.
pub ela_row-temp :
    (width : ℕ) (top bottom s t : Bytes) (x : ℕ)
    → x + 3 < width
    → ela_row width top bottom s x ≡ ela_row width top bottom t x
unfolding ela_row
ela_row-temp width top bottom s t x h =
    result_same width ((width + 15) / 16 * 16) top bottom s t x h (omega arith)
