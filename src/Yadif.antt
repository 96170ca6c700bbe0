-- ===== src/Yadif.antt =====
-- CDeinterlacer_Yadif of src/Deinterlace_Yadif.cpp on its portable path: Yadif_Row, Yadif_Plane and
-- the frames that GetFrame keeps. A plane is the bytes from its pointer on.
pub mod Row
pub mod Rows
pub mod History
pub mod Order
pub mod Crossed
use Prim.Native.Nat.{bit_and, bit_xor}
use mathlib.Core.Bool.{not}
use tvtest_video_decoder.Base.{
  ℕ, zero, suc, ◌+◌, ◌-◌, ◌*◌, ◌/◌, ◌%◌, ◌^◌, Bool, true, false, ◌&&◌, List, [], ◌∷◌, Option, none,
  some, ◌==◌, ltb, if◌then◌else◌,
}
use tvtest_video_decoder.Base.Int.{ℤ, pos, negsuc, ltb_ℤ, ◌+ℤ◌, ◌-ℤ◌, min_ℤ}
use tvtest_video_decoder.Deinterlace.{words}

abbrev pub Bytes : Type 0
Bytes = ℕ → ℕ

-- `ABS(a - b)` of two bytes.
unfoldable pub abs_diff : ℕ → ℕ → ℕ
abs_diff a b = (a - b) + (b - a)

unfoldable pub max_ℤ : ℤ → ℤ → ℤ
max_ℤ a b = if ltb_ℤ a b then b else a

unfoldable pub max3 : ℤ → ℤ → ℤ → ℤ
max3 a b c = max_ℤ (max_ℤ a b) c

unfoldable pub min3 : ℤ → ℤ → ℤ → ℤ
min3 a b c = min_ℤ (min_ℤ a b) c

-- The best score so far, and the prediction that has it.
abbrev pub Best : Type 0
Best = ℤ × ℕ

-- CHECK, with the next CHECK inside its braces.
unfoldable pub check : ℕ → ℕ → (Best → Best) → Best → Best
check score pred inner best = if ltb_ℤ (pos score) best.0 then inner (pos score, pred) else best

-- The prediction of CHECK(j) at `i`: `up` is `- stride + j` and `down` is `+ stride - j`.
unfoldable pub diagonal : Bytes → ℕ → ℕ → ℕ
diagonal cur up down = (cur up + cur down) / 2

unfoldable pub diagonal_score : Bytes → ℕ → ℕ → ℕ
diagonal_score cur up down =
    abs_diff (cur (up - 1)) (cur (down - 1))
    + abs_diff (cur up) (cur down)
    + abs_diff (cur (up + 1)) (cur (down + 1))

unfoldable pub check_at : Bytes → ℕ → ℕ → (Best → Best) → Best → Best
check_at cur up down inner best =
    check (diagonal_score cur up down) (diagonal cur up down) inner best

abbrev pub keep : Best → Best
keep best = best

-- The spatial prediction at the pixel `i`.
unfoldable pub spatial_pred : ℕ → Bytes → ℕ → ℕ
spatial_pred stride cur i =
    let up = i - stride in
    let down = i + stride in
    let first : Best = (pos (diagonal_score cur up down) -ℤ pos 1, diagonal cur up down) in
    let left : Best =
      check_at cur (up - 1) (down + 1) (check_at cur (up - 2) (down + 2) keep) first in
    (check_at cur (up + 1) (down - 1) (check_at cur (up + 2) (down - 2) keep) left).1

-- `d`, from prev2 and next2.
unfoldable pub temporal_mean : Bytes → Bytes → ℕ → ℕ
temporal_mean prev2 next2 i = (prev2 i + next2 i) / 2

-- `(ABS(other[-stride] - c) + ABS(other[+stride] - e)) >> 1`
unfoldable pub temporal_diff : ℕ → Bytes → Bytes → ℕ → ℕ
temporal_diff stride other cur i =
    (abs_diff (other (i - stride)) (cur (i - stride))
      + abs_diff (other (i + stride)) (cur (i + stride)))
    / 2

-- The widening of `diff` by the rows two above and two below.
unfoldable pub widen : ℤ → ℤ → ℤ → ℤ → ℤ → ℤ → ℤ
widen b c d e f diff =
    let most = max3 (d -ℤ e) (d -ℤ c) (min_ℤ (b -ℤ c) (f -ℤ e)) in
    let least = min3 (d -ℤ e) (d -ℤ c) (max_ℤ (b -ℤ c) (f -ℤ e)) in max3 diff least (pos 0 -ℤ most)

-- `diff` as it is when the prediction is limited.
unfoldable pub pixel_diff : ℕ → Bytes → Bytes → Bytes → Bytes → Bytes → ℕ → ℤ
pixel_diff stride prev cur next prev2 next2 i =
    let diff =
      max3 (pos (abs_diff (prev2 i) (next2 i) / 2)) (pos (temporal_diff stride prev cur i))
        (pos (temporal_diff stride next cur i)) in
    widen (pos (temporal_mean prev2 next2 (i - 2 * stride))) (pos (cur (i - stride)))
      (pos (temporal_mean prev2 next2 i)) (pos (cur (i + stride)))
      (pos (temporal_mean prev2 next2 (i + 2 * stride))) diff

-- The last `if` of the loop.
unfoldable pub limit : ℤ → ℤ → ℤ → ℤ
limit pred d diff =
    if ltb_ℤ (d +ℤ diff) pred then d +ℤ diff else if ltb_ℤ pred (d -ℤ diff) then d -ℤ diff else pred

-- The value at the pixel `i`, before it is stored.
unfoldable pub pixel_value : ℕ → Bytes → Bytes → Bytes → Bytes → Bytes → ℕ → ℤ
pixel_value stride prev cur next prev2 next2 i =
    limit (pos (spatial_pred stride cur i)) (pos (temporal_mean prev2 next2 i))
      (pixel_diff stride prev cur next prev2 next2 i)

-- The conversion of an int to uint8_t.
unfoldable pub to_byte : ℤ → ℕ
to_byte (pos n) = n % 256
to_byte (negsuc n) = 255 - n % 256

-- `prev2` and `next2`, where `parity` is not 0 or it is.
abbrev pub prev2_of : Bool → Bytes → Bytes → Bytes
prev2_of true prev cur = prev
prev2_of false prev cur = cur

abbrev pub next2_of : Bool → Bytes → Bytes → Bytes
next2_of true cur next = cur
next2_of false cur next = next

-- What Yadif_Row stores for the pixel `i`.
unfoldable pub yadif_pixel : ℕ → Bool → Bytes → Bytes → Bytes → ℕ → ℕ
yadif_pixel stride parity prev cur next i =
    to_byte
      (pixel_value stride prev cur next (prev2_of parity prev cur) (next2_of parity cur next) i)

-- A plane that is written: its bytes by row and column.
abbrev pub Target : Type 0
Target = ℕ → ℕ → ℕ

-- The first `n` bytes of row `y`.
unfoldable pub write_bytes : ℕ → ℕ → Bytes → Target → Target
write_bytes y n row dst j x = if (j == y) && ltb x n then row x else dst j x

-- `(y ^ Parity) & 1`: row `y` is of the field that is made.
abbrev pub is_made : ℕ → ℕ → Bool
is_made y parity = bit_and (bit_xor y parity) 1 == 1

-- Row `y` for the rows 2 to Height - 3.
unfoldable pub inner_row : ℕ → ℕ → ℕ → Bool → Bytes → Bytes → Bytes → ℕ → Target → Target
inner_row stride width parity towards prev cur next y dst =
    if is_made y parity
    then write_bytes y width (λ x. yadif_pixel stride towards prev cur next (y * stride + x)) dst
    else write_bytes y width (λ x. cur (y * stride + x)) dst

-- The loop with `n` turns left, at row `y`.
unfoldable pub inner_rows : ℕ → ℕ → ℕ → Bool → Bytes → Bytes → Bytes → ℕ → ℕ → Target → Target
inner_rows stride width parity towards prev cur next zero y dst = dst
inner_rows stride width parity towards prev cur next (suc n) y dst =
    inner_rows stride width parity towards prev cur next n (y + 1)
      (inner_row stride width parity towards prev cur next y dst)

-- The first and the last row: the row `y`, or its neighbour `other`.
unfoldable pub outer_row : ℕ → ℕ → ℕ → Bytes → ℕ → ℕ → Target → Target
outer_row stride width parity cur y other dst =
    if is_made y parity
    then write_bytes y width (λ x. cur (other * stride + x)) dst
    else write_bytes y width (λ x. cur (y * stride + x)) dst

-- The second row and the last but one: BlendRow2 of the neighbours, in words of four bytes.
unfoldable pub second_row : ℕ → ℕ → ℕ → Bytes → ℕ → Target → Target
second_row stride width parity cur y dst =
    if is_made y parity
    then write_bytes y (words width * 4)
        (λ x. (cur ((y - 1) * stride + x) + cur ((y + 1) * stride + x)) / 2) dst
    else write_bytes y width (λ x. cur (y * stride + x)) dst

-- Yadif_Plane, for a plane of four rows or more; `Parity` and `tff` are 0 or 1.
unfoldable pub yadif_plane : ℕ → ℕ → ℕ → ℕ → ℕ → Bytes → Bytes → Bytes → Target → Target
yadif_plane stride width height parity tff prev cur next dst =
    let top = second_row stride width parity cur 1 (outer_row stride width parity cur 0 1 dst) in
    let rows =
      inner_rows stride width parity (not (parity == tff)) prev cur next (height - 4) 2 top in
    outer_row stride width parity cur (height - 1) (height - 2)
      (second_row stride width parity cur (height - 2) rows)
