-- ===== src/Yadif/Rows.antt =====
-- The rows that Yadif_Plane writes.
use tvtest_video_decoder.Base.{
  ℕ, zero, suc, ◌+◌, ◌-◌, ◌*◌, ◌/◌, ◌≤◌, ◌<◌, ◌≡◌, ◌∙◌, sym, arith, Bool, true, ◌&&◌, ◌||◌, ltb,
  ◌==◌, if◌then◌else◌, ℕ_discrete, inl, inr, Bool-cases,
}
use mathlib.Core.Bool.{not}
use tvtest_video_decoder.Yadif.{
  Bytes, Target, yadif_pixel, write_bytes, is_made, inner_row, inner_rows, outer_row, second_row,
  yadif_plane,
}

-- What an inner row holds at the column `x`.
abbrev inner_byte : ℕ → ℕ → Bool → Bytes → Bytes → Bytes → ℕ → ℕ → ℕ
inner_byte stride parity towards prev cur next y x =
    if is_made y parity
    then yadif_pixel stride towards prev cur next (y * stride + x)
    else cur (y * stride + x)

inner_row-byte :
    (stride width parity : ℕ) (towards : Bool) (prev cur next : Bytes) (y : ℕ) (dst : Target)
    (j x : ℕ)
    → inner_row stride width parity towards prev cur next y dst j x ≡ (
        if (j == y) && ltb x width
        then inner_byte stride parity towards prev cur next y x
        else dst j x)
unfolding inner_row write_bytes
inner_row-byte stride width parity towards prev cur next y dst j x =
    elim (Bool-cases (is_made y parity)) [
      | inl e ↦ rw e (ground arith)
      | inr e ↦ rw e (ground arith)
    ]

inner_rows-byte :
    (stride width parity : ℕ) (towards : Bool) (prev cur next : Bytes) (n y : ℕ) (dst : Target)
    (j x : ℕ)
    → inner_rows stride width parity towards prev cur next n y dst j x ≡ (
        if not (ltb j y) && ltb j (y + n) && ltb x width
        then inner_byte stride parity towards prev cur next j x
        else dst j x)
unfolding inner_rows
inner_rows-byte stride width parity towards prev cur next zero y dst j x = ground arith
inner_rows-byte stride width parity towards prev cur next (suc n) y dst j x =
    inner_rows-byte stride width parity towards prev cur next n (y + 1)
      (inner_row stride width parity towards prev cur next y dst) j x
    ∙ rw (inner_row-byte stride width parity towards prev cur next y dst j x)
        (elim (ℕ_discrete j y) [ yes e ↦ rw e (ground arith) | no n ↦ ground arith ])

outer_row-byte :
    (stride width parity : ℕ) (cur : Bytes) (y other : ℕ) (dst : Target) (j x : ℕ)
    → outer_row stride width parity cur y other dst j x ≡ (
        if (j == y) && ltb x width
        then (if is_made y parity then cur (other * stride + x) else cur (y * stride + x))
        else dst j x)
unfolding outer_row write_bytes
outer_row-byte stride width parity cur y other dst j x = elim (Bool-cases (is_made y parity)) [
  | inl e ↦ rw e (ground arith)
  | inr e ↦ rw e (ground arith)
]

second_row-byte :
    (stride width parity : ℕ) (cur : Bytes) (y : ℕ) (dst : Target) (j x : ℕ)
    → ltb x width ≡ true
    → second_row stride width parity cur y dst j x ≡ (
        if j == y
        then (if is_made y parity
            then (cur ((y - 1) * stride + x) + cur ((y + 1) * stride + x)) / 2
            else cur (y * stride + x))
        else dst j x)
unfolding second_row write_bytes
second_row-byte stride width parity cur y dst j x h = elim (Bool-cases (is_made y parity)) [
  | inl e ↦ rw e (ground arith)
  | inr e ↦ rw e (ground arith)
]

-- The byte of a row of the other field, which is made.
abbrev made_byte : ℕ → ℕ → Bool → Bytes → Bytes → Bytes → ℕ → ℕ → ℕ
made_byte stride height towards prev cur next y x =
    if y == 0
    then cur (1 * stride + x)
    else if y == height - 1
    then cur ((height - 2) * stride + x)
    else if (y == 1) || (y == height - 2)
    then (cur ((y - 1) * stride + x) + cur ((y + 1) * stride + x)) / 2
    else yadif_pixel stride towards prev cur next (y * stride + x)

-- Yadif_Plane fills a plane of four rows or more: a row of the field that is kept is that of the
-- middle frame; of the others the first and the last are the neighbouring row, the second and the
-- last but one the average of their neighbours, and the rest are those of Yadif_Row.
pub yadif_plane-byte :
    (stride width height parity tff : ℕ) (prev cur next : Bytes) (dst : Target) (y x : ℕ)
    → 4 ≤ height
    → y < height
    → x < width
    → yadif_plane stride width height parity tff prev cur next dst y x ≡ (
        if is_made y parity
        then made_byte stride height (not (parity == tff)) prev cur next y x
        else cur (y * stride + x))
unfolding yadif_plane
yadif_plane-byte stride width height parity tff prev cur next dst y x h hy hx =
    let near : ltb x width ≡ true = ground arith in
    rw
      (
        outer_row-byte _ _ _ _ _ _ _ y x,
        second_row-byte _ _ _ _ _ _ y x near,
        inner_rows-byte _ _ _ _ _ _ _ _ _ _ y x,
        second_row-byte _ _ _ _ _ _ y x near,
        outer_row-byte _ _ _ _ _ _ _ y x,
      )
      (elim (ℕ_discrete y 0) [
        | yes e ↦ rw e (ground arith)
        | no a ↦ elim (ℕ_discrete y (height - 1)) [
          | yes e ↦ rw (sym e) (ground arith)
          | no b ↦ elim (ℕ_discrete y (height - 2)) [
            | yes e ↦ rw (sym e) (ground arith)
            | no c ↦ elim (ℕ_discrete y 1) [ yes e ↦ rw e (ground arith) | no d ↦ ground arith ]
          ]
        ]
      ])
