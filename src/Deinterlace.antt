-- ===== src/Deinterlace.antt =====
-- The blend and bob deinterlacers: BlendRow2 and BlendRow3 of src/Blend.h, BlendPlane and BobPlane of
-- src/Deinterlace.cpp on their portable path. A row is a list of 32-bit words, a plane its rows.
pub mod Average
pub mod Planes
pub mod Methods
use Prim.Native.Nat.{bit_and, bit_xor}
use mathlib.Core.Bool.{not}
use tvtest_video_decoder.Base.{
  ℕ, zero, suc, ◌+◌, ◌-◌, ◌*◌, ◌/◌, ◌%◌, ◌^◌, Bool, true, false, List, [], ◌∷◌, ◌==◌, if◌then◌else◌,
}

-- `(a & b) + (((a ^ b) & 0xfefefefe) >> 1)` on uint32_t.
unfoldable pub average_word : ℕ → ℕ → ℕ
average_word a b = (bit_and a b + bit_and (bit_xor a b) 0xfefefefe / 2) % 2 ^ 32

unfoldable pub average_word3 : ℕ → ℕ → ℕ → ℕ
average_word3 a b c = average_word (average_word a c) b

abbrev pub Row : Type 0
Row = List ℕ

-- `w4`, which is 1 at least: the width is positive, and the loops test at their end.
abbrev pub words : ℕ → ℕ
words width = (width + 3) / 4

-- The loops write `n` words over those of the destination.
unfoldable pub average_loop2 : ℕ → Row → Row → Row → Row
average_loop2 (suc n) (a ∷ xs) (b ∷ ys) (x ∷ q) = average_word a b ∷ average_loop2 n xs ys q
average_loop2 _ _ _ q = q

unfoldable pub average_loop3 : ℕ → Row → Row → Row → Row → Row
average_loop3 (suc n) (a ∷ xs) (b ∷ ys) (c ∷ zs) (x ∷ q) =
    average_word3 a b c ∷ average_loop3 n xs ys zs q
average_loop3 _ _ _ _ q = q

unfoldable pub blend_row2 : ℕ → Row → Row → Row → Row
blend_row2 width src1 src2 dst = average_loop2 (words width) src1 src2 dst

unfoldable pub blend_row3 : ℕ → Row → Row → Row → Row → Row
blend_row3 width src1 src2 src3 dst = average_loop3 (words width) src1 src2 src3 dst

-- A plane by its rows from the pointer on.
abbrev pub Plane : Type 0
Plane = ℕ → Row

unfoldable pub write_row : ℕ → Row → Plane → Plane
write_row i r dst j = if j == i then r else dst j

-- The loop of BlendPlane with `h` turns left, `q` and `p` being the rows that its pointers stand at.
unfoldable pub blend_loop : ℕ → ℕ → ℕ → ℕ → Plane → Plane → Plane
blend_loop width zero q p src dst =
    write_row (q + 1) (blend_row2 width (src p) (src (p + 1)) (dst (q + 1))) dst
blend_loop width (suc h) q p src dst =
    blend_loop width h (q + 1) (p + 1) src
      (write_row (q + 1) (blend_row3 width (src p) (src (p + 1)) (src (p + 2)) (dst (q + 1))) dst)

-- `Height` is 2 at least: `Height - 2` is unsigned.
unfoldable pub blend_plane : ℕ → ℕ → Plane → Plane → Plane
blend_plane width height src dst =
    blend_loop width (height - 2) 0 0 src
      (write_row 0 (blend_row2 width (src 0) (src 1) (dst 0)) dst)

-- The loop of BobPlane with `n` turns left, at row `y` of both planes. Copy_C copies a row; the
-- bytes of a word past the width are copied too, for a width that is a multiple of 4 there is none.
unfoldable pub bob_loop : ℕ → ℕ → ℕ → ℕ → (ℕ → Row → Row → Row) → Plane → Plane → Plane
bob_loop width zero field y copy src dst =
    write_row y (copy width (src (if y % 2 == field then y else y - 1)) (dst y)) dst
bob_loop width (suc n) field y copy src dst = bob_loop width n field (y + 1) copy src (
    write_row y
      (if y % 2 == field
        then copy width (src y) (dst y)
        else blend_row2 width (src (y - 1)) (src (y + 1)) (dst y))
      dst)

-- The bottom field starts with its own first row, which is row 1.
unfoldable pub bob_plane : ℕ → ℕ → Bool → (ℕ → Row → Row → Row) → Plane → Plane → Plane
bob_plane width height top_field copy src dst =
    if top_field
    then bob_loop width (height - 1) 0 0 copy src dst
    else bob_loop width (height - 2) 1 1 copy src (write_row 0 (copy width (src 1) (dst 0)) dst)
