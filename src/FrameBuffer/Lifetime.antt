-- ===== src/FrameBuffer/Lifetime.antt =====
-- The block that a CFrameBuffer of src/FrameBuffer.cpp owns: it is freed once, and none is lost.
use mathlib.Core.Bool.{not}
use tvtest_video_decoder.Base.{
  ℕ, ◌%◌, ◌≡◌, refl, ◌∙◌, arith, true, ◌&&◌, ◌||◌, List, [], ◌∷◌, ◌++◌, Option, none, some, ◌==◌,
  Bool-cases, inl, inr, if◌then◌else◌,
}
use tvtest_video_decoder.Base.Int.{ℤ, pos, negsuc}
use tvtest_video_decoder.Types.{Subtype, same_subtype}
use tvtest_video_decoder.FrameBuffer.{
  FrameBuffer, Plan, HeapEvent, aligned_malloc, aligned_free, free, free_events, plan_of, place,
  install, allocate_size, allocate, copy_reference_to,
}

-- The heap seen by the owner of at most one block. A second free, a free of another block, and a
-- request that would lose the block are faults, `none`.
pub replay : List HeapEvent → Option ℕ → Option (Option ℕ)
replay [] owned = some owned
replay (aligned_free p ∷ es) none = none
replay (aligned_free p ∷ es) (some q) = if p == q then replay es none else none
replay (aligned_malloc n none ∷ es) owned = replay es owned
replay (aligned_malloc n (some p) ∷ es) none = replay es (some p)
replay (aligned_malloc n (some p) ∷ es) (some q) = none

replay-free : (o : Option ℕ) (es : List HeapEvent) → replay (free_events o ++ es) o ≡ replay es none
unfolding replay
replay-free none es = refl
replay-free (some p) es = ground arith

replay-free_only : (o : Option ℕ) → replay (free_events o) o ≡ some none
unfolding replay
replay-free_only none = refl
replay-free_only (some p) = ground arith

place-replay :
    (s : Subtype) (w h : ℕ) (p : Plan) (o : Option ℕ) (b : FrameBuffer)
    → b.block ≡ none
    → replay (aligned_malloc p.size o ∷ []) none ≡ some (place s w h p o b).0.block
unfolding replay place
place-replay s w h p none b e = rw e
place-replay s w h p (some a) b e = refl

install-replay :
    (malloc : ℕ → Option ℕ) (s : Subtype) (w h : ℕ) (p : Option Plan) (b : FrameBuffer)
    → b.block ≡ none
    → replay (install malloc s w h p b).2 none ≡ some (install malloc s w h p b).0.block
unfolding install
install-replay malloc s w h none b e = unfold replay in rw e
install-replay malloc s w h (some p) b e = place-replay s w h p (malloc p.size) b e

replay-nothing : (o : Option ℕ) → replay [] o ≡ some o
unfolding replay
replay-nothing o = refl

allocate_size-replay :
    (malloc : ℕ → Option ℕ) (w h : ℕ) (s : Subtype) (b : FrameBuffer)
    → let r = allocate_size malloc w h s b in replay r.2 b.block ≡ some r.0.block
unfolding allocate_size free
allocate_size-replay malloc w h s b =
    elim (Bool-cases (w == 0 || h == 0 || not (w % 2 == 0) || not (h % 2 == 0))) [
      | inl e ↦ rw e (replay-nothing b.block)
      | inr e ↦ elim (Bool-cases (w == b.width && h == b.height && same_subtype s b.subtype)) [
        | inl same ↦ rw (e, same) (replay-nothing b.block)
        | inr other ↦
            rw (e, other)
              (replay-free b.block _ ∙ install-replay malloc s w h (plan_of s w h) _ refl)
      ]
    ]

-- Allocate frees the block that the frame owned, once, before it asks for another, and afterwards
-- the frame owns what was returned and nothing else, on success and on every failure.
pub allocate-replay :
    (malloc : ℕ → Option ℕ) (width height : ℤ) (s : Subtype) (b : FrameBuffer)
    → let r = allocate malloc width height s b in replay r.2 b.block ≡ some r.0.block
unfolding allocate
allocate-replay malloc (pos w) (pos h) s b = allocate_size-replay malloc w h s b
allocate-replay malloc (pos w) (negsuc h) s b = replay-nothing b.block
allocate-replay malloc (negsuc w) h s b = replay-nothing b.block

-- CopyReferenceTo frees the block of the target, and gives it none: the copy looks at the planes of
-- the source without owning them, with its size, format and attributes.
pub copy_reference_to-replay :
    (a b : FrameBuffer)
    → let r = copy_reference_to a (some b) in
      (c : FrameBuffer) × (r.0 ≡ some c)
      × (r.1 ≡ true)
      × (replay r.2 b.block ≡ some c.block)
      × (c.block ≡ none)
      × (c.plane0 ≡ a.plane0)
      × (c.plane1 ≡ a.plane1)
      × (c.plane2 ≡ a.plane2)
      × (c.width ≡ a.width)
      × (c.height ≡ a.height)
      × (c.subtype ≡ a.subtype)
      × (c.attributes ≡ a.attributes)
unfolding copy_reference_to
copy_reference_to-replay a b = (
  record a { block = none; d3d11_texture_array_slice = b.d3d11_texture_array_slice },
  refl,
  refl,
  replay-free_only b.block,
  refl,
  refl,
  refl,
  refl,
  refl,
  refl,
  refl,
  refl,
)
