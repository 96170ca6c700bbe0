-- ===== src/Ela.antt =====
-- ELA_Score, ELA_Result and ELARow of src/Deinterlace.cpp, the edge-based line average of two rows.
-- The work buffer is one block of bytes: the scores, then the padded top and bottom row.
pub mod Buffer
pub mod Reads
pub mod Plane
use tvtest_video_decoder.Base.{
  ℕ, ◌+◌, ◌-◌, ◌*◌, ◌/◌, ◌%◌, Bool, true, false, ◌&&◌, leb, ltb, ◌==◌, if◌then◌else◌,
}
use tvtest_video_decoder.Yadif.{Bytes, abs_diff}

-- The ten bytes that a turn of ELA_Score writes, `p` being the index that its pointers stand at.
unfoldable pub score_entry : Bytes → Bytes → ℕ → ℕ → ℕ
score_entry top bottom p k =
    if k == 0
    then abs_diff (top (p - 1)) (bottom (p - 1))
    else if k == 1
    then abs_diff (top (p - 2)) (bottom p)
    else if k == 2
    then abs_diff (top (p - 3)) (bottom (p + 1))
    else if k == 3
    then abs_diff (top p) (bottom (p - 2))
    else if k == 4
    then abs_diff (top (p + 1)) (bottom (p - 3))
    else if k == 5
    then (top p + bottom p + 1) / 2
    else if k == 6
    then (top (p - 1) + bottom (p + 1) + 1) / 2
    else if k == 7
    then (top (p - 2) + bottom (p + 2) + 1) / 2
    else if k == 8
    then (top (p + 1) + bottom (p - 1) + 1) / 2
    else (top (p + 2) + bottom (p - 2) + 1) / 2

-- The start of the top and of the bottom row in the work buffer; `wr` is the width rounded up to 16.
abbrev pub top_base : ℕ → ℕ
top_base wr = 10 * wr

abbrev pub bottom_base : ℕ → ℕ
bottom_base wr = 10 * wr + wr + 32

-- ELA_Score, from the index 16 of the rows on.
unfoldable pub ela_score : ℕ → ℕ → Bytes → Bytes
ela_score width wr temp i =
    if ltb i (10 * width)
    then score_entry (λ j. temp (top_base wr + j)) (λ j. temp (bottom_base wr + j)) (16 + i / 10)
        (i % 10)
    else temp i

-- A score over three entries, the middle one twice.
unfoldable pub weighted : Bytes → ℕ → ℕ → ℕ
weighted buf x k = buf (10 * (x + 1) + k) * 2 + (buf (10 * x + k) + buf (10 * (x + 2) + k))

-- ELA_Result at the column `x`: the best score and the byte that goes with it.
unfoldable pub pick_left : Bytes → ℕ → ℕ × ℕ
pick_left buf x =
    if ltb (weighted buf x 1) (weighted buf x 0)
    then (if ltb (weighted buf x 2) (weighted buf x 1)
        then (weighted buf x 2, buf (10 * x + 7))
        else (weighted buf x 1, buf (10 * x + 6)))
    else (weighted buf x 0, buf (10 * x + 5))

unfoldable pub ela_result : Bytes → ℕ → ℕ
ela_result buf x =
    let left = pick_left buf x in
    if ltb (weighted buf x 3) left.0
    then (if ltb (weighted buf x 4) (weighted buf x 3) then buf (10 * x + 9) else buf (10 * x + 8))
    else left.1

-- A row in the work buffer from `base` on: three copies of the first byte, the row, and copies of the
-- last byte up to the rounded width.
unfoldable pub fill_row : ℕ → ℕ → ℕ → Bytes → Bytes → Bytes
fill_row width wr base src temp i =
    if leb (base + 13) i && ltb i (base + 16)
    then src 0
    else if leb (base + 16) i && ltb i (base + 16 + width)
    then src (i - (base + 16))
    else if leb (base + 16 + width) i && ltb i (base + 16 + wr)
    then src (width - 1)
    else temp i

unfoldable pub set_byte : ℕ → ℕ → Bytes → Bytes
set_byte a v temp i = if i == a then v else temp i

-- The two assignments behind the rows, as they stand in the source.
unfoldable pub pad_rows : ℕ → Bytes → Bytes
pad_rows wr temp =
    let t = top_base wr + wr in
    let b = bottom_base wr + wr in
    let v = temp (t + 15) in
    let w = temp (b + 15) in
    set_byte (t + 16) w (
      set_byte (t + 17) w (
        set_byte (b + 18) w (set_byte (t + 16) v (set_byte (t + 17) v (set_byte (t + 18) v temp)))))

-- ELARow: the byte at the column `x`, `temp` being what the work buffer holds before.
unfoldable pub ela_row : ℕ → Bytes → Bytes → Bytes → ℕ → ℕ
ela_row width src_top src_bottom temp x =
    let wr = (width + 15) / 16 * 16 in
    let rows =
      fill_row width wr (bottom_base wr) src_bottom
        (fill_row width wr (top_base wr) src_top temp) in
    ela_result (ela_score width wr (pad_rows wr rows)) x
