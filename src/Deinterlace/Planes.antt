-- ===== src/Deinterlace/Planes.antt =====
-- The loops of BlendPlane and BobPlane in src/Deinterlace.cpp, which move their pointers row by row,
-- write every row of the plane once, from the rows that the method is defined by.
use tvtest_video_decoder.Base.{
  ℕ, zero, suc, ◌+◌, ◌-◌, ◌%◌, ◌≤◌, ◌≡◌, ◌∙◌, arith, Bool, true, false, ◌&&◌, ltb, ◌==◌,
  if◌then◌else◌, ℕ_discrete,
}
use tvtest_video_decoder.Deinterlace.{
  Row, Plane, blend_row2, blend_row3, write_row, blend_loop, blend_plane, bob_loop, bob_plane,
}

-- What the loop of BlendPlane leaves in row `i`, from row `q` on with `h` turns left.
abbrev loop_row : ℕ → ℕ → ℕ → Plane → Plane → ℕ → Row
loop_row width h q src dst i =
    if ltb q i && ltb i (q + h + 1)
    then blend_row3 width (src (i - 1)) (src i) (src (i + 1)) (dst i)
    else if i == q + h + 1
    then blend_row2 width (src (i - 1)) (src i) (dst i)
    else dst i

blend_loop-row :
    (width h q : ℕ) (src dst : Plane) (i : ℕ)
    → blend_loop width h q q src dst i ≡ loop_row width h q src dst i
unfolding blend_loop write_row
blend_loop-row w zero q src dst i = elim (ℕ_discrete i (q + 1)) [
  | yes e ↦ (let before : i - 1 ≡ q = omega arith in rw (before, e) (ground arith))
  | no n ↦ ground arith
]
blend_loop-row w (suc h) q src dst i =
    blend_loop-row w h (q + 1) src
      (write_row (q + 1) (blend_row3 w (src q) (src (q + 1)) (src (q + 2)) (dst (q + 1))) dst) i
    ∙ elim (ℕ_discrete i (q + 1)) [
      | yes e ↦
          (let before : i - 1 ≡ q = omega arith in
            let after : i + 1 ≡ q + 2 = omega arith in rw (after, before, e) (ground arith))
      | no n ↦ ground arith
    ]

-- BlendPlane writes every row of a plane of two rows or more once: the first and the last as the
-- average with their neighbour, each other one from itself and its two neighbours; other rows stay.
pub blend_plane-row :
    (width height : ℕ) (src dst : Plane) (i : ℕ)
    → 2 ≤ height
    → blend_plane width height src dst i ≡ (
        if i == 0
        then blend_row2 width (src 0) (src 1) (dst 0)
        else if ltb (i + 1) height
        then blend_row3 width (src (i - 1)) (src i) (src (i + 1)) (dst i)
        else if i + 1 == height
        then blend_row2 width (src (i - 1)) (src i) (dst i)
        else dst i)
unfolding blend_plane write_row
blend_plane-row w height src dst i h =
    blend_loop-row w (height - 2) 0 src (write_row 0 (blend_row2 w (src 0) (src 1) (dst 0)) dst) i
    ∙ ground arith

-- What the loop of BobPlane leaves in row `i`, from row `y` on with `n` turns left.
abbrev bob_row : ℕ → ℕ → ℕ → ℕ → (ℕ → Row → Row → Row) → Plane → Plane → ℕ → Row
bob_row width n field y copy src dst i =
    if ltb i y
    then dst i
    else if ltb (y + n) i
    then dst i
    else if i % 2 == field
    then copy width (src i) (dst i)
    else if i == y + n
    then copy width (src (i - 1)) (dst i)
    else blend_row2 width (src (i - 1)) (src (i + 1)) (dst i)

bob_loop-row :
    (width n field y : ℕ) (copy : ℕ → Row → Row → Row) (src dst : Plane) (i : ℕ)
    → bob_loop width n field y copy src dst i ≡ bob_row width n field y copy src dst i
unfolding bob_loop write_row
bob_loop-row w zero field y copy src dst i = elim (ℕ_discrete i y) [
  | yes e ↦ rw e (ground arith)
  | no n ↦ ground arith
]
bob_loop-row w (suc n) field y copy src dst i =
    bob_loop-row w n field (y + 1) copy src
      (write_row y
        (if y % 2 == field
          then copy w (src y) (dst y)
          else blend_row2 w (src (y - 1)) (src (y + 1)) (dst y))
        dst)
      i
    ∙ elim (ℕ_discrete i y) [ yes e ↦ rw e (ground arith) | no d ↦ ground arith ]

-- BobPlane keeps the rows of its field and fills in the others of a plane of two rows or more: the
-- first and the last with the neighbouring row of the field, each other one with the average of its
-- two neighbours; other rows stay.
pub bob_plane-row :
    (width height : ℕ) (top_field : Bool) (copy : ℕ → Row → Row → Row) (src dst : Plane) (i : ℕ)
    → 2 ≤ height
    → bob_plane width height top_field copy src dst i ≡ (
        if ltb i height
        then (if i % 2 == (if top_field then 0 else 1)
            then copy width (src i) (dst i)
            else if i == 0
            then copy width (src 1) (dst 0)
            else if i + 1 == height
            then copy width (src (i - 1)) (dst i)
            else blend_row2 width (src (i - 1)) (src (i + 1)) (dst i))
        else dst i)
unfolding bob_plane write_row
bob_plane-row w height true copy src dst i h =
    bob_loop-row w (height - 1) 0 0 copy src dst i ∙ ground arith
bob_plane-row w height false copy src dst i h =
    bob_loop-row w (height - 2) 1 1 copy src (write_row 0 (copy w (src 1) (dst 0)) dst) i
    ∙ elim (ℕ_discrete i 0) [ yes e ↦ rw e (ground arith) | no n ↦ ground arith ]
