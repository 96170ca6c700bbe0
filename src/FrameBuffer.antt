-- ===== src/FrameBuffer.antt =====
-- CFrameBuffer of src/FrameBuffer.cpp. A pointer is an address of 64 bits, `none` the null pointer.
-- The sizes that Allocate computes in int wrap around.
pub mod Spacing
pub mod Layout
pub mod Lifetime
use mathlib.Core.Bool.{not}
use tvtest_video_decoder.Base.{
  ℕ, suc, zero, ◌+◌, ◌-◌, ◌*◌, ◌/◌, ◌%◌, ◌^◌, ltb, Bool, true, false, ◌&&◌, ◌||◌, List, [], ◌∷◌,
  ◌++◌, Option, none, some, ◌==◌, if◌then◌else◌,
}
use tvtest_video_decoder.Base.Int.{ℤ, pos, negsuc}
use tvtest_video_decoder.Types.{
  DeinterlaceMethod, weave, Subtype, guid_null, i420, iyuv, nv12, rgb24, rgb32, same_subtype,
}
use tvtest_video_decoder.Util.{row_bytes}

pub record Attributes : Type 0 where
  pub aspect_x : ℕ
  pub aspect_y : ℕ
  pub rt_start : ℤ
  pub rt_stop : ℤ
  pub flags : ℕ
  pub deinterlace : DeinterlaceMethod

pub record FrameBuffer : Type 0 where
  pub width : ℕ
  pub height : ℕ
  pub pitch_y : ℕ
  pub pitch_c : ℕ
  pub block : Option ℕ  -- m_pBuffer, the block that the frame owns
  pub plane0 : Option ℕ  -- m_Buffer[0] to m_Buffer[2]
  pub plane1 : Option ℕ
  pub plane2 : Option ℕ
  pub subtype : Subtype
  pub d3d9_surface : Option ℕ
  pub d3d11_texture : Option ℕ
  pub d3d11_texture_array_slice : ℕ
  pub attributes : Attributes
  pub open attributes use *

-- What an operation does to the C heap, in order.
pub data HeapEvent : Type 0 where
  aligned_malloc : ℕ → Option ℕ → HeapEvent  -- the size, and what was returned
  aligned_free : ℕ → HeapEvent

-- The constructor. It leaves m_Deinterlace unset.
unfoldable pub new : DeinterlaceMethod → FrameBuffer
new unset = record {
  width = 0;
  height = 0;
  pitch_y = 0;
  pitch_c = 0;
  block = none;
  plane0 = none;
  plane1 = none;
  plane2 = none;
  subtype = guid_null;
  d3d9_surface = none;
  d3d11_texture = none;
  d3d11_texture_array_slice = 0;
  attributes = record {
    aspect_x = 0;
    aspect_y = 0;
    rt_start = pos 0;
    rt_stop = pos 0;
    flags = 0;
    deinterlace = unset;
  };
}

abbrev pub free_events : Option ℕ → List HeapEvent
free_events none = []
free_events (some p) = aligned_free p ∷ []

-- Free(): the Direct3D members stay.
unfoldable pub free : FrameBuffer → FrameBuffer × List HeapEvent
free b = (
  record b {
    width = 0;
    height = 0;
    pitch_y = 0;
    pitch_c = 0;
    block = none;
    plane0 = none;
    plane1 = none;
    plane2 = none;
    subtype = guid_null;
  },
  free_events b.block,
)

-- The pitches of a format, the offsets of its planes, and the size of the block.
pub record Plan : Type 0 where
  pub pitch_y : ℕ
  pub pitch_c : ℕ
  pub offset1 : ℕ
  pub offset2 : ℕ
  pub size : ℕ

-- The bits of the int that a result wraps around to.
abbrev pub wrap : ℕ → ℕ
wrap n = n % 2 ^ 32

-- Half of an int, towards 0.
unfoldable pub half_int : ℕ → ℕ
half_int n = if ltb n (2 ^ 31) then n / 2 else wrap (2 ^ 32 - (2 ^ 32 - n) / 2)

-- The bits of an int as a size_t or as an offset, of 64 bits.
unfoldable pub extend : ℕ → ℕ
extend n = if ltb n (2 ^ 31) then n else n + (2 ^ 64 - 2 ^ 32)

unfoldable pub plan_i420 : ℕ → ℕ → Plan
plan_i420 width height =
    let pitch_y = row_bytes width in
    let pitch_c = row_bytes (width / 2) in
    let size_y = wrap (pitch_y * height) in
    let size_c = wrap (pitch_c * (height / 2)) in
    record {
      pitch_y = pitch_y;
      pitch_c = pitch_c;
      offset1 = extend size_y;
      offset2 = extend size_y + extend size_c;
      size = extend (wrap (size_y + size_c * 2));
    }

unfoldable pub plan_nv12 : ℕ → ℕ → Plan
plan_nv12 width height =
    let pitch = row_bytes width in
    let size = wrap (pitch * height) in
    record {
      pitch_y = pitch;
      pitch_c = pitch;
      offset1 = extend size;
      offset2 = extend size;
      size = extend (wrap (size + half_int size));
    }

unfoldable pub plan_rgb : ℕ → ℕ → ℕ → Plan
plan_rgb bytes width height =
    let pitch = row_bytes (wrap (width * bytes)) in
    record {
      pitch_y = pitch;
      pitch_c = pitch;
      offset1 = 0;
      offset2 = 0;
      size = extend (wrap (pitch * height));
    }

-- The chain of tests on the format; `none` is the last branch, an unsupported format.
unfoldable pub plan_of : Subtype → ℕ → ℕ → Option Plan
plan_of i420 width height = some (plan_i420 width height)
plan_of iyuv width height = some (plan_i420 width height)
plan_of nv12 width height = some (plan_nv12 width height)
plan_of rgb24 width height = some (plan_rgb 3 width height)
plan_of rgb32 width height = some (plan_rgb 4 width height)
plan_of _ width height = none

-- The end of a branch: the block is requested, and the frame laid out in it.
unfoldable pub place : Subtype → ℕ → ℕ → Plan → Option ℕ → FrameBuffer → FrameBuffer × Bool
place subtype width height p none b = (b, false)
place subtype width height p (some base) b = (
  record b {
    width = width;
    height = height;
    pitch_y = p.pitch_y;
    pitch_c = p.pitch_c;
    block = some base;
    plane0 = some base;
    plane1 = some ((base + p.offset1) % 2 ^ 64);
    plane2 = some ((base + p.offset2) % 2 ^ 64);
    subtype = subtype;
  },
  true,
)

unfoldable pub install :
    (ℕ → Option ℕ)
    → Subtype
    → ℕ
    → ℕ
    → Option Plan
    → FrameBuffer
    → FrameBuffer × Bool × List HeapEvent
install malloc subtype width height none b = (b, false, [])
install malloc subtype width height (some p) b =
    let (c, ok) = place subtype width height p (malloc p.size) b in
    (c, ok, aligned_malloc p.size (malloc p.size) ∷ [])

-- `malloc` is what _aligned_malloc returns for a size. The result holds the frame, whether the call
-- succeeded, and the heap events.
unfoldable pub allocate_size :
    (ℕ → Option ℕ) → ℕ → ℕ → Subtype → FrameBuffer → FrameBuffer × Bool × List HeapEvent
allocate_size malloc width height subtype b =
    if width == 0 || height == 0 || not (width % 2 == 0) || not (height % 2 == 0)
    then (b, false, [])
    else if width == b.width && height == b.height && same_subtype subtype b.subtype
    then (b, true, [])
    else (let (c, freed) = free b in
        let (d, ok, events) =
          install malloc subtype width height (plan_of subtype width height) c in
        (d, ok, freed ++ events))

-- A negative size is refused like 0.
unfoldable pub allocate :
    (ℕ → Option ℕ) → ℤ → ℤ → Subtype → FrameBuffer → FrameBuffer × Bool × List HeapEvent
allocate malloc (pos width) (pos height) subtype b = allocate_size malloc width height subtype b
allocate malloc _ _ subtype b = (b, false, [])

-- `none` for the source is a null pointer.
unfoldable pub copy_attributes_from : Option FrameBuffer → FrameBuffer → FrameBuffer × Bool
copy_attributes_from none b = (b, false)
copy_attributes_from (some a) b = (record b { attributes = a.attributes }, true)

-- CopyReferenceTo: the target `b` first frees its own block.
unfoldable pub copy_reference_to :
    FrameBuffer → Option FrameBuffer → Option FrameBuffer × Bool × List HeapEvent
unfolding free copy_attributes_from
copy_reference_to a none = (none, false, [])
copy_reference_to a (some b) =
    let (c, freed) = free b in
    let d = record c {
      width = a.width;
      height = a.height;
      pitch_y = a.pitch_y;
      pitch_c = a.pitch_c;
      plane0 = a.plane0;
      plane1 = a.plane1;
      plane2 = a.plane2;
      d3d9_surface = a.d3d9_surface;
      d3d11_texture = a.d3d11_texture;
      subtype = a.subtype;
    } in
    (some (copy_attributes_from (some a) d).0, true, freed)
