-- ===== src/Ela/Buffer.antt =====
-- What ELARow of src/Deinterlace.cpp takes from the rows, and what from the rest of its work buffer.
use tvtest_video_decoder.Base.{ℕ, ◌+◌, ◌≤◌, ◌<◌, ◌≡◌, ◌≢◌, ◌⊎◌, ◌∙◌, sym, arith}
use tvtest_video_decoder.Yadif.{Bytes}
use tvtest_video_decoder.Ela.{top_base, bottom_base, fill_row, set_byte, pad_rows}

-- The work buffer with the two rows in it.
abbrev pub prepared : ℕ → ℕ → Bytes → Bytes → Bytes → Bytes
prepared width wr top bottom temp =
    pad_rows wr
      (fill_row width wr (bottom_base wr) bottom (fill_row width wr (top_base wr) top temp))

-- The assignments behind the rows leave the rows.
set_byte-other : (a v : ℕ) (temp : Bytes) (i : ℕ) → i ≢ a → set_byte a v temp i ≡ temp i
unfolding set_byte
set_byte-other a v temp i h = ground arith

pad_rows-other :
    (wr i : ℕ) (temp : Bytes)
    → i < top_base wr + wr + 16 ⊎ (top_base wr + wr + 18 < i × i < bottom_base wr + wr + 18)
    → pad_rows wr temp i ≡ temp i
unfolding pad_rows
pad_rows-other wr i temp h =
    set_byte-other _ _ _ i (omega arith)
    ∙ set_byte-other _ _ _ i (omega arith)
    ∙ set_byte-other _ _ _ i (omega arith)
    ∙ set_byte-other _ _ _ i (omega arith)
    ∙ set_byte-other _ _ _ i (omega arith)
    ∙ set_byte-other _ _ _ i (omega arith)

fill_row-set :
    (width wr base : ℕ) (src s t : Bytes) (j : ℕ)
    → 13 ≤ j
    → j < 16 + wr
    → fill_row width wr base src s (base + j) ≡ fill_row width wr base src t (base + j)
unfolding fill_row
fill_row-set width wr base src s t j h k = ground arith

fill_row-below :
    (width wr base : ℕ) (src temp : Bytes) (i : ℕ)
    → i < base + 13
    → fill_row width wr base src temp i ≡ temp i
unfolding fill_row
fill_row-below width wr base src temp i h = ground arith

pub top_set :
    (width wr : ℕ) (top bottom s t : Bytes) (j : ℕ)
    → 13 ≤ j
    → j < 16 + wr
    → prepared width wr top bottom s (top_base wr + j)
      ≡ prepared width wr top bottom t (top_base wr + j)
top_set width wr top bottom s t j h k =
    let i = top_base wr + j in
    pad_rows-other wr i _ (omega arith)
    ∙ fill_row-below width wr (bottom_base wr) bottom _ i (omega arith)
    ∙ fill_row-set width wr (top_base wr) top s t j h k
    ∙ sym (fill_row-below width wr (bottom_base wr) bottom _ i (omega arith))
    ∙ sym (pad_rows-other wr i _ (omega arith))

pub bottom_set :
    (width wr : ℕ) (top bottom s t : Bytes) (j : ℕ)
    → 13 ≤ j
    → j < 16 + wr
    → prepared width wr top bottom s (bottom_base wr + j)
      ≡ prepared width wr top bottom t (bottom_base wr + j)
bottom_set width wr top bottom s t j h k =
    let i = bottom_base wr + j in
    pad_rows-other wr i _ (omega arith)
    ∙ fill_row-set width wr (bottom_base wr) bottom _ _ j h k
    ∙ sym (pad_rows-other wr i _ (omega arith))
