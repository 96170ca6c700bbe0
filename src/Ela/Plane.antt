-- ===== src/Ela/Plane.antt =====
-- ELAPlane of src/Deinterlace.cpp on its portable path. The work buffer goes from row to row.
use tvtest_video_decoder.Base.{
  ℕ, zero, suc, ◌+◌, ◌-◌, ◌*◌, ◌/◌, ◌%◌, ◌≤◌, ◌<◌, ◌≡◌, ◌∙◌, refl, arith, Bool, true, false, ◌||◌,
  ltb, ◌==◌, if◌then◌else◌, ℕ_discrete, inl, inr, Bool-cases,
}
use tvtest_video_decoder.Yadif.{Bytes, Target, write_bytes}
use tvtest_video_decoder.Ela.{top_base, bottom_base, ela_score, ela_row, fill_row, pad_rows}
use tvtest_video_decoder.Ela.Reads.{ela_row-temp}

-- Row `y` of a plane.
abbrev pub row_at : ℕ → Bytes → ℕ → Bytes
row_at pitch src y x = src (y * pitch + x)

-- What ELARow leaves in the work buffer.
unfoldable pub ela_work : ℕ → Bytes → Bytes → Bytes → Bytes
ela_work width src_top src_bottom temp =
    let wr = (width + 15) / 16 * 16 in
    ela_score width wr (
      pad_rows wr (
        fill_row width wr (bottom_base wr) src_bottom
          (fill_row width wr (top_base wr) src_top temp)))

-- The loop with `n` turns left, at row `y` of both planes.
unfoldable pub ela_loop : ℕ → ℕ → ℕ → ℕ → ℕ → Bytes → Bytes → Target → Target
ela_loop width pitch zero field y src temp dst =
    write_bytes y width (row_at pitch src (if y % 2 == field then y else y - 1)) dst
ela_loop width pitch (suc n) field y src temp dst =
    let up = row_at pitch src (y - 1) in
    let down = row_at pitch src (y + 1) in
    ela_loop width pitch n field (y + 1) src
      (if y % 2 == field then temp else ela_work width up down temp)
      (write_bytes y width
        (if y % 2 == field then row_at pitch src y else ela_row width up down temp) dst)

-- The bottom field starts with its own first row, which is row 1.
unfoldable pub ela_plane : ℕ → ℕ → ℕ → Bool → Bytes → Bytes → Target → Target
ela_plane width pitch height true src temp dst = ela_loop width pitch (height - 1) 0 0 src temp dst
ela_plane width pitch height false src temp dst =
    ela_loop width pitch (height - 2) 1 1 src temp (write_bytes 0 width (row_at pitch src 1) dst)

-- The byte of a row of the other field.
abbrev filled : ℕ → ℕ → Bytes → ℕ → ℕ → ℕ
filled width pitch src j x =
    ela_row width (row_at pitch src (j - 1)) (row_at pitch src (j + 1)) (λ i. 0) x

abbrev loop_byte : ℕ → ℕ → ℕ → ℕ → ℕ → Bytes → Target → ℕ → ℕ → ℕ
loop_byte width pitch n field y src dst j x =
    if ltb j y
    then dst j x
    else if ltb (y + n) j
    then dst j x
    else if j % 2 == field
    then row_at pitch src j x
    else if j == y + n
    then row_at pitch src (j - 1) x
    else filled width pitch src j x

-- The rows that are copied, and the columns of a row that are known.
abbrev is_copied : ℕ → ℕ → ℕ → Bool
is_copied field last j = (j % 2 == field) || (j == last)

abbrev pub known_width : ℕ → Bool → ℕ
known_width width copied = if copied then width else width - 3

ela_loop-byte :
    (width pitch n field y : ℕ) (src temp : Bytes) (dst : Target) (j x : ℕ)
    → x < known_width width (is_copied field (y + n) j)
    → ela_loop width pitch n field y src temp dst j x ≡ loop_byte width pitch n field y src dst j x
unfolding ela_loop write_bytes
ela_loop-byte width pitch zero field y src temp dst j x h =
    let near : ltb x width ≡ true = ground arith in
    rw near (elim (ℕ_discrete j y) [
      | yes e ↦ rw e (elim (Bool-cases (y % 2 == field)) [
        | inl g ↦ rw g (ground arith)
        | inr g ↦ rw g (ground arith)
      ])
      | no n ↦ ground arith
    ])
ela_loop-byte width pitch (suc n) field y src temp dst j x h =
    let near : ltb x width ≡ true = ground arith in
    let up = row_at pitch src (y - 1) in
    let down = row_at pitch src (y + 1) in
    let end : y + 1 + n ≡ y + suc n = omega arith in
    ela_loop-byte width pitch n field (y + 1) src _ _ j x (rw end h)
    ∙ rw near (elim (ℕ_discrete j y) [
      | yes e ↦ rw e (elim (Bool-cases (y % 2 == field)) [
        | inl g ↦ rw g (ground arith)
        | inr g ↦
            let same = ela_row-temp width up down temp (λ i. 0) x (ground arith) in
            rw (g, same) (ground arith)
      ])
      | no d ↦ ground arith
    ])

-- The rows above the one that the loop starts at stay.
ela_loop-above :
    (width pitch n field y : ℕ) (src temp : Bytes) (dst : Target) (j x : ℕ)
    → j < y
    → ela_loop width pitch n field y src temp dst j x ≡ dst j x
unfolding ela_loop write_bytes
ela_loop-above width pitch zero field y src temp dst j x h = ground arith
ela_loop-above width pitch (suc n) field y src temp dst j x h =
    ela_loop-above width pitch n field (y + 1) src _ _ j x (omega arith) ∙ ground arith

-- The rows of ELAPlane that are those of its field, the first and the last.
abbrev pub is_kept : ℕ → ℕ → ℕ → Bool
is_kept field height y = (y % 2 == field) || (y == 0) || (y + 1 == height)

-- ELAPlane keeps the rows of its field in a plane of two rows or more, and fills the first and the
-- last of the others with the neighbouring row of the field, in the whole width. Each other row is,
-- but for its last three columns, what ELARow makes of its two neighbours with a work buffer of
-- zeros: it does not depend on what the work buffer holds, and so not on the rows done before.
pub ela_plane-byte :
    (width pitch height : ℕ) (top_field : Bool) (src temp : Bytes) (dst : Target) (y x : ℕ)
    → 2 ≤ height
    → y < height
    → x < known_width width (is_kept (if top_field then 0 else 1) height y)
    → ela_plane width pitch height top_field src temp dst y x ≡ (
        if y % 2 == (if top_field then 0 else 1)
        then row_at pitch src y x
        else if y == 0
        then row_at pitch src 1 x
        else if y + 1 == height
        then row_at pitch src (y - 1) x
        else ela_row width (row_at pitch src (y - 1)) (row_at pitch src (y + 1)) (λ i. 0) x)
unfolding ela_plane write_bytes
ela_plane-byte width pitch height true src temp dst y x h k l =
    ela_loop-byte width pitch (height - 1) 0 0 src temp dst y x (ground arith) ∙ ground arith
ela_plane-byte width pitch height false src temp dst y x h k l =
    let near : ltb x width ≡ true = ground arith in
    elim (ℕ_discrete y 0) [
      | yes e ↦
          ela_loop-above width pitch (height - 2) 1 1 src temp _ y x (omega arith)
          ∙ rw (e, near) refl
      | no n ↦
          ela_loop-byte width pitch (height - 2) 1 1 src temp _ y x (ground arith) ∙ ground arith
    ]
