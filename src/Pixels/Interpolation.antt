-- ===== src/Pixels/Interpolation.antt =====
-- UpsampleI420pToI422 and UpsampleI420iToI422 of src/PixelFormatConvert.cpp as an interpolation
-- between the nearest row of chroma and the next one on the other side.
use tvtest_video_decoder.Base.{
  ℕ, ◌+◌, ◌-◌, ◌*◌, ◌/◌, ◌%◌, ◌≤◌, ◌<◌, ◌≡◌, arith, ◌&&◌, ◌||◌, ltb, ◌==◌, if◌then◌else◌, dec_lt,
  ◌⊎◌, inl, inr,
}
use tvtest_video_decoder.Pixels.Upsample.{
  Plane, write_row, weigh, upsample_p, upsample_i, p_rows-byte, i_rows-byte, i_byte,
}

-- The row of chroma on the other side of row `r` of a progressive picture of `height` rows, the
-- nearest one itself at the edges.
unfoldable pub other_row : ℕ → ℕ → ℕ
other_row height r =
    if r % 2 == 0 then r / 2 - 1 else if ltb (r / 2 + 1) (height / 2) then r / 2 + 1 else r / 2

-- The same within a field of an interlaced picture: the nearest row, and the one on the other side.
unfoldable pub field_row : ℕ → ℕ
field_row r = r / 4 * 2 + r % 2

unfoldable pub other_field_row : ℕ → ℕ → ℕ
other_field_row height r =
    if ltb (r % 4) 2
    then (if ltb r 4 then field_row r else field_row r - 2)
    else if ltb (field_row r + 2) (height / 2)
    then field_row r + 2
    else field_row r

-- UpsampleI420pToI422 fills the rows of the plane, for a positive even height, and nothing else:
-- each with the mean of the nearest row of chroma and the next one on the other side, 3 to 1.
pub upsample_p-interpolates :
    (width height : ℕ) (src dst : Plane) (r x : ℕ)
    → 0 < height
    → height % 2 ≡ 0
    → upsample_p width height src dst r x ≡ (
        if ltb x (width / 2) && ltb r height
        then (3 * src (r / 2) x + src (other_row height r) x + 2) / 4
        else dst r x)
unfolding upsample_p write_row other_row weigh
upsample_p-interpolates width height src dst r x h even =
    let first = write_row (width / 2) 0 (src 0) dst in
    ground (arith, p_rows-byte (width / 2) ((height - 1) / 2) 1 0 src first r x)

-- The sample of an interlaced picture: by the distance to the two rows of its field.
unfoldable pub field_sample : ℕ → Plane → ℕ → ℕ → ℕ
unfolding field_row other_field_row
field_sample height src r x =
    let near = src (field_row r) x in
    let far = src (other_field_row height r) x in
    if r % 4 == 1 || r % 4 == 2 then (5 * near + 3 * far + 4) / 8 else (7 * near + far + 4) / 8

field_sample-turn :
    (height : ℕ) (src : Plane) (r x : ℕ)
    → height % 4 ≡ 0
    → 2 ≤ r
    → r + 2 < height
    → field_sample height src r x ≡ i_byte src 0 (r - 2) x
unfolding field_sample field_row other_field_row i_byte weigh
field_sample-turn height src r x e lo hi = ground arith

field_sample-edge :
    (height : ℕ) (src : Plane) (r x : ℕ)
    → height % 4 ≡ 0
    → (r < 2) ⊎ ((height ≤ r + 2) × (r < height))
    → field_sample height src r x ≡ src (field_row r) x
unfolding field_sample other_field_row field_row
field_sample-edge height src r x e (inl h) = ground arith
field_sample-edge height src r x e (inr (lo, hi)) = ground arith

-- For a height that is a positive multiple of 4 UpsampleI420iToI422 fills the rows of the plane, as
-- wide as half the width, and nothing else: each with the mean of the nearest row of chroma of its
-- field and the next one on the other side, which is the nearest one again at the edges, weighted 5
-- to 3 or 7 to 1 by the distance.
pub upsample_i-interpolates :
    (width height : ℕ) (src dst : Plane) (r x : ℕ)
    → 0 < height
    → height % 4 ≡ 0
    → upsample_i width height src dst r x
      ≡ (if ltb x (width / 2) && ltb r height then field_sample height src r x else dst r x)
unfolding upsample_i
upsample_i-interpolates width height src dst r x h even =
    let first = write_row (width / 2) 1 (src 1) (write_row (width / 2) 0 (src 0) dst) in
    let rows = i_rows-byte (width / 2) ((height - 1) / 4) 2 0 src first r x in
    let turns : 4 * ((height - 1) / 4) ≡ height - 4 = omega arith in
    elim (dec_lt r 2) [
      | yes top ↦
          unfold write_row field_row in
          ground (arith, rows, turns, field_sample-edge height src r x even (inl top))
      | no below ↦ elim (dec_lt (r + 2) height) [
        | yes inner ↦
            ground (arith, rows, turns, field_sample-turn height src r x even (omega arith) inner)
        | no last ↦ elim (dec_lt r height) [
          | yes inside ↦
              let e : field_row r ≡ 0 + 2 * ((height - 1) / 4) + (r - 2 - 4 * ((height - 1) / 4)) =
                unfold field_row in omega arith in
              ground (
                arith,
                rows,
                turns,
                e,
                field_sample-edge height src r x even (inr (omega arith, inside)),
              )
          | no outside ↦ unfold write_row in ground (arith, rows, turns)
        ]
      ]
    ]

-- For a height that leaves 2 when it is divided by 4 UpsampleI420iToI422 writes two rows past the
-- end of the plane, the second with a row past the end of the chroma.
pub upsample_i-overruns :
    (width height : ℕ) (src dst : Plane) (x : ℕ)
    → height % 4 ≡ 2
    → x < width / 2
    → (upsample_i width height src dst height x ≡ src (height / 2 - 1) x)
      × (upsample_i width height src dst (height + 1) x ≡ src (height / 2) x)
unfolding upsample_i write_row
upsample_i-overruns width height src dst x e h =
    let first = write_row (width / 2) 1 (src 1) (write_row (width / 2) 0 (src 0) dst) in
    let turns : 2 + 4 * ((height - 1) / 4) ≡ height = omega arith in
    let row : 2 * ((height - 1) / 4) ≡ height / 2 - 1 = omega arith in
    (
      ground (arith, i_rows-byte (width / 2) ((height - 1) / 4) 2 0 src first height x),
      ground (arith, i_rows-byte (width / 2) ((height - 1) / 4) 2 0 src first (height + 1) x),
    )
