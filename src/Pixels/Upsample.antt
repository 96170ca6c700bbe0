-- ===== src/Pixels/Upsample.antt =====
-- UpsampleI420pToI422 and UpsampleI420iToI422 of src/PixelFormatConvert.cpp on their portable path.
-- A plane is its bytes by row and column, rows past its height included: what the functions do
-- there is a read or a write outside the plane.
use tvtest_video_decoder.Base.{
  ℕ, zero, suc, ◌+◌, ◌-◌, ◌*◌, ◌/◌, ◌%◌, ◌≤◌, ◌≡◌, arith, ◌&&◌, ltb, ◌==◌, if◌then◌else◌,
}
use mathlib.Core.Bool.{not}

abbrev pub Plane : Type 0
Plane = ℕ → ℕ → ℕ

-- The first `width` bytes of row `q`.
unfoldable pub write_row : ℕ → ℕ → (ℕ → ℕ) → Plane → Plane
write_row width q row dst r x = if (r == q) && ltb x width then row x else dst r x

-- `((a * i) + (b * j) + c / 2) / c`
unfoldable pub weigh : ℕ → ℕ → ℕ → ℕ → ℕ → ℕ
weigh a i b j c = (a * i + b * j + c / 2) / c

-- The loop of UpsampleI420pToI422 with `n` turns left, at the rows `q` and `p`.
unfoldable pub upsample_p_rows : ℕ → ℕ → ℕ → ℕ → Plane → Plane → Plane
unfolding write_row weigh
upsample_p_rows width zero q p src dst = write_row width q (src p) dst
upsample_p_rows width (suc n) q p src dst = upsample_p_rows width n (q + 2) (p + 1) src (
    write_row width (q + 1) (λ x. weigh (src p x) 1 (src (p + 1) x) 3 4)
      (write_row width q (λ x. weigh (src p x) 3 (src (p + 1) x) 1 4) dst))

-- For positive sizes. The loop `for (y = 1; y < Height - 1; y += 2)` makes (Height - 1) / 2 turns.
unfoldable pub upsample_p : ℕ → ℕ → Plane → Plane → Plane
unfolding upsample_p_rows write_row
upsample_p width height src dst =
    upsample_p_rows (width / 2) ((height - 1) / 2) 1 0 src (write_row (width / 2) 0 (src 0) dst)

-- A turn of the loop of UpsampleI420iToI422, at the rows `q` and `p`.
unfoldable pub upsample_i_turn : ℕ → ℕ → ℕ → Plane → Plane → Plane
unfolding write_row weigh
upsample_i_turn width q p src dst =
    write_row width (q + 3) (λ x. weigh (src (p + 1) x) 3 (src (p + 3) x) 5 8)
      (write_row width (q + 2) (λ x. weigh (src p x) 1 (src (p + 2) x) 7 8)
        (write_row width (q + 1) (λ x. weigh (src (p + 1) x) 7 (src (p + 3) x) 1 8)
          (write_row width q (λ x. weigh (src p x) 5 (src (p + 2) x) 3 8) dst)))

-- The loop with `n` turns left, and the two copies after it.
unfoldable pub upsample_i_rows : ℕ → ℕ → ℕ → ℕ → Plane → Plane → Plane
unfolding upsample_i_turn write_row
upsample_i_rows width zero q p src dst =
    write_row width (q + 1) (src (p + 1)) (write_row width q (src p) dst)
upsample_i_rows width (suc n) q p src dst =
    upsample_i_rows width n (q + 4) (p + 2) src (upsample_i_turn width q p src dst)

-- For positive sizes. The loop `for (y = 2; y < Height - 2; y += 4)` makes (Height - 1) / 4 turns.
unfoldable pub upsample_i : ℕ → ℕ → Plane → Plane → Plane
unfolding upsample_i_rows write_row
upsample_i width height src dst =
    upsample_i_rows (width / 2) ((height - 1) / 4) 2 0 src
      (write_row (width / 2) 1 (src 1) (write_row (width / 2) 0 (src 0) dst))

pub p_rows-byte :
    (width n q p : ℕ) (src dst : Plane) (r x : ℕ)
    → upsample_p_rows width n q p src dst r x ≡ (
        if ltb x width && not (ltb r q) && ltb r (q + 2 * n + 1)
        then (if r == q + 2 * n
            then src (p + n) x
            else if (r - q) % 2 == 0
            then weigh (src (p + (r - q) / 2) x) 3 (src (p + (r - q) / 2 + 1) x) 1 4
            else weigh (src (p + (r - q) / 2) x) 1 (src (p + (r - q) / 2 + 1) x) 3 4)
        else dst r x)
unfolding upsample_p_rows write_row
p_rows-byte width zero q p src dst r x = ground arith
p_rows-byte width (suc n) q p src dst r x = ground (
  arith,
  p_rows-byte width n (q + 2) (p + 1) src
      (write_row width (q + 1) (λ (x : ℕ). weigh (src p x) 1 (src (p + 1) x) 3 4)
        (write_row width q (λ (x : ℕ). weigh (src p x) 3 (src (p + 1) x) 1 4) dst))
      r x,
)

-- What the loop of UpsampleI420iToI422 makes `d` rows below its first.
unfoldable pub i_byte : Plane → ℕ → ℕ → ℕ → ℕ
i_byte src p d x =
    if d % 4 == 0
    then weigh (src (p + d / 4 * 2) x) 5 (src (p + d / 4 * 2 + 2) x) 3 8
    else if d % 4 == 1
    then weigh (src (p + d / 4 * 2 + 1) x) 7 (src (p + d / 4 * 2 + 3) x) 1 8
    else if d % 4 == 2
    then weigh (src (p + d / 4 * 2) x) 1 (src (p + d / 4 * 2 + 2) x) 7 8
    else weigh (src (p + d / 4 * 2 + 1) x) 3 (src (p + d / 4 * 2 + 3) x) 5 8

i_byte-shift : (src : Plane) (p d x : ℕ) → 4 ≤ d → i_byte src (p + 2) (d - 4) x ≡ i_byte src p d x
unfolding i_byte
i_byte-shift src p d x h =
    let rows : p + 2 + (d - 4) / 4 * 2 ≡ p + d / 4 * 2 = omega arith in
    let same : (d - 4) % 4 ≡ d % 4 = omega arith in rw (rows, same)

i_turn-byte :
    (width q p : ℕ) (src dst : Plane) (r x : ℕ)
    → upsample_i_turn width q p src dst r x
      ≡ (if ltb x width && not (ltb r q) && ltb r (q + 4) then i_byte src p (r - q) x else dst r x)
unfolding upsample_i_turn write_row i_byte
i_turn-byte width q p src dst r x = ground arith

pub i_rows-byte :
    (width n q p : ℕ) (src dst : Plane) (r x : ℕ)
    → upsample_i_rows width n q p src dst r x ≡ (
        if ltb x width && not (ltb r q) && ltb r (q + 4 * n + 2)
        then (if ltb r (q + 4 * n)
            then i_byte src p (r - q) x
            else src (p + 2 * n + (r - q - 4 * n)) x)
        else dst r x)
unfolding upsample_i_rows write_row
i_rows-byte width zero q p src dst r x = ground arith
i_rows-byte width (suc n) q p src dst r x =
    let first : r - q - 4 ≡ r - (q + 4) = omega arith in
    ground (
      arith,
      first,
      i_byte-shift src p (r - q) x,
      i_turn-byte width q p src dst r x,
      i_rows-byte width n (q + 4) (p + 2) src (upsample_i_turn width q p src dst) r x,
    )
