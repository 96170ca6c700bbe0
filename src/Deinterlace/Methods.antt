-- ===== src/Deinterlace/Methods.antt =====
-- The functions of src/Deinterlace.cpp for whole frames, and CDeinterlacer_Blend and
-- CDeinterlacer_Bob there. A frame has its planes in the order of m_Buffer.
use mathlib.Core.Bool.{not}
use tvtest_video_decoder.Base.{
  ℕ, ◌/◌, ◌%◌, ◌≤◌, ◌<◌, ◌≡◌, ◌∙◌, refl, arith, Bool, true, false, ◌&&◌, ◌||◌, ◌==◌, if◌then◌else◌,
  inl, inr, Bool-cases,
}
use tvtest_video_decoder.Types.{Subtype, guid_null, i420, nv12, same_subtype}
use tvtest_video_decoder.FrameDecoder.{FrameStatus, frame_ok}
use tvtest_video_decoder.Deinterlace.{Row, Plane, blend_plane, bob_plane}
use tvtest_video_decoder.Deinterlace.Planes.{bob_plane-row}

pub record Picture : Type 0 where
  pub subtype : Subtype
  pub width : ℕ
  pub height : ℕ
  pub plane0 : Plane
  pub plane1 : Plane
  pub plane2 : Plane

-- DeinterlaceBlendI420; the size is that of the destination.
unfoldable pub blend_i420 : Picture → Picture → Picture
blend_i420 dst src = record dst {
  plane0 = blend_plane dst.width dst.height src.plane0 dst.plane0;
  plane1 = blend_plane (dst.width / 2) (dst.height / 2) src.plane1 dst.plane1;
  plane2 = blend_plane (dst.width / 2) (dst.height / 2) src.plane2 dst.plane2;
}

unfoldable pub blend_nv12 : Picture → Picture → Picture
blend_nv12 dst src = record dst {
  plane0 = blend_plane dst.width dst.height src.plane0 dst.plane0;
  plane1 = blend_plane dst.width (dst.height / 2) src.plane1 dst.plane1;
}

abbrev pub Copy : Type 0
Copy = ℕ → Row → Row → Row

-- DeinterlaceBobI420, with Copy_C as an argument.
unfoldable pub bob_i420 : Copy → Bool → Picture → Picture → Picture
bob_i420 copy top dst src = record dst {
  plane0 = bob_plane dst.width dst.height top copy src.plane0 dst.plane0;
  plane1 = bob_plane (dst.width / 2) (dst.height / 2) top copy src.plane1 dst.plane1;
  plane2 = bob_plane (dst.width / 2) (dst.height / 2) top copy src.plane2 dst.plane2;
}

unfoldable pub bob_nv12 : Copy → Bool → Picture → Picture → Picture
bob_nv12 copy top dst src = record dst {
  plane0 = bob_plane dst.width dst.height top copy src.plane0 dst.plane0;
  plane1 = bob_plane dst.width (dst.height / 2) top copy src.plane1 dst.plane1;
}

abbrev pub is_both : Subtype → Picture → Picture → Bool
is_both subtype dst src = same_subtype src.subtype subtype && same_subtype dst.subtype subtype

-- CDeinterlacer_Blend::GetFrame
unfoldable pub blend_get_frame : Picture → Picture → FrameStatus × Picture
blend_get_frame dst src =
    if is_both i420 dst src
    then (frame_ok, blend_i420 dst src)
    else if is_both nv12 dst src
    then (frame_ok, blend_nv12 dst src)
    else (frame_ok, dst)

-- CDeinterlacer_Bob::GetFrame
unfoldable pub bob_get_frame : Copy → Bool → Picture → Picture → FrameStatus × Picture
bob_get_frame copy top_first dst src =
    if is_both i420 dst src
    then (frame_ok, bob_i420 copy (not top_first) dst src)
    else if is_both nv12 dst src
    then (frame_ok, bob_nv12 copy (not top_first) dst src)
    else (frame_ok, dst)

-- IsFormatSupported of CDeinterlacer, of Weave, and of Blend and Bob.
unfoldable pub is_supported : Subtype → Subtype → Bool
is_supported src dst = same_subtype src i420 && same_subtype dst i420

unfoldable pub is_supported_weave : Subtype → Subtype → Bool
is_supported_weave src dst =
    (same_subtype src i420 || same_subtype src nv12)
    && (same_subtype dst i420 || same_subtype dst nv12)

unfoldable pub is_supported_same : Subtype → Subtype → Bool
is_supported_same src dst =
    same_subtype src i420 && same_subtype dst i420 || same_subtype src nv12 && same_subtype dst nv12

-- The luma plane of a frame that Bob supports.
bob_luma :
    (copy : Copy) (top_first : Bool) (dst src : Picture)
    → is_both i420 dst src || is_both nv12 dst src ≡ true
    → (bob_get_frame copy top_first dst src).1.plane0
      ≡ bob_plane dst.width dst.height (not top_first) copy src.plane0 dst.plane0
unfolding bob_get_frame bob_i420 bob_nv12
bob_luma copy top_first dst src h = elim (Bool-cases (is_both i420 dst src)) [
  | inl e ↦ rw e refl
  | inr e ↦ (let g : is_both nv12 dst src ≡ true = ground arith in rw (e, g) refl)
]

-- CDeinterlacer_Bob keeps the rows of the other field than the one that it is told is first: for a
-- frame of two rows or more in a format that it supports, the odd rows of the luma plane if the top
-- field is first and the even rows if the bottom field is.
pub bob_get_frame-field :
    (copy : Copy) (top_first : Bool) (dst src : Picture) (i : ℕ)
    → is_both i420 dst src || is_both nv12 dst src ≡ true
    → 2 ≤ dst.height
    → i < dst.height
    → i % 2 == (if top_first then 1 else 0) ≡ true
    → (bob_get_frame copy top_first dst src).1.plane0 i
      ≡ copy dst.width (src.plane0 i) (dst.plane0 i)
bob_get_frame-field copy true dst src i h k l parity =
    rw (bob_luma copy true dst src h)
      (bob_plane-row dst.width dst.height false copy src.plane0 dst.plane0 i k ∙ ground arith)
bob_get_frame-field copy false dst src i h k l parity =
    rw (bob_luma copy false dst src h)
      (bob_plane-row dst.width dst.height true copy src.plane0 dst.plane0 i k ∙ ground arith)

-- No deinterlacer supports the null format.
is_supported-null :
    (t : Subtype)
    → (is_supported guid_null t ≡ false)
      × (is_supported_weave guid_null t ≡ false)
      × (is_supported_same guid_null t ≡ false)
unfolding is_supported is_supported_weave is_supported_same
is_supported-null t = (refl, refl, refl)
