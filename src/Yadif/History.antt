-- ===== src/Yadif/History.antt =====
-- GetFrame of CDeinterlacer_Yadif in src/Deinterlace_Yadif.cpp: the three frames that it keeps.
-- CFrameBuffer::Allocate for a size is an argument, `none` where it fails.
use Prim.Native.Nat.{bit_xor}
use mathlib.Core.Bool.{not}
use tvtest_video_decoder.Base.{
  ℕ, ◌+◌, ◌*◌, ◌/◌, ◌%◌, Bool, true, false, ◌&&◌, ◌||◌, List, [], ◌∷◌, Option, none, some, ◌==◌,
  ltb, if◌then◌else◌,
}
use tvtest_video_decoder.Types.{has_flag, flag_top_field_first}
use tvtest_video_decoder.FrameBuffer.{Attributes}
use tvtest_video_decoder.FrameDecoder.{FrameStatus, frame_ok, frame_skip, frame_pending}
use tvtest_video_decoder.Yadif.{Bytes, yadif_plane}

pub record Frame : Type 0 where
  pub width : ℕ
  pub height : ℕ
  pub pitch_y : ℕ
  pub pitch_c : ℕ
  pub y : Bytes
  pub u : Bytes
  pub v : Bytes
  pub attributes : Attributes

-- The copy of a plane by PixelCopyI420ToI420: the first `width` bytes of `height` rows.
unfoldable pub copy_plane : ℕ → ℕ → ℕ → Bytes → ℕ → Bytes → Bytes
copy_plane width height dst_pitch dst src_pitch src i =
    if ltb (i % dst_pitch) width && ltb (i / dst_pitch) height
    then src (i / dst_pitch * src_pitch + i % dst_pitch)
    else dst i

unfoldable pub copy_frame_buffer : Frame → Frame → Frame
copy_frame_buffer dst src = record dst {
  y = copy_plane dst.width dst.height dst.pitch_y dst.y src.pitch_y src.y;
  u = copy_plane (dst.width / 2) (dst.height / 2) dst.pitch_c dst.u src.pitch_c src.u;
  v = copy_plane (dst.width / 2) (dst.height / 2) dst.pitch_c dst.v src.pitch_c src.v;
  attributes = src.attributes;
}

-- m_Frames
abbrev pub Slots : Type 0
Slots = Option Frame × Option Frame × Option Frame

abbrev pub empty_slots : Slots
empty_slots = (none, none, none)

-- Finalize, where the size of the frame is not that of the first one kept.
unfoldable pub check_size : Frame → Slots → Slots
check_size src (none, b, c) = (none, b, c)
check_size src (some a, b, c) =
    if not (src.width == a.width) || not (src.height == a.height)
    then empty_slots
    else (some a, b, c)

-- The return before there are three frames, `none` if there are.
unfoldable pub waiting : Slots → Option FrameStatus
waiting (a, b, some c) = none
waiting (a, some b, none) = some frame_pending
waiting (a, none, none) = some frame_skip

-- The loop that puts a frame into the first empty slot.
unfoldable pub store : Frame → Slots → Slots
store f (none, b, c) = (some f, b, c)
store f (some a, none, c) = (some a, some f, c)
store f (some a, some b, c) = (some a, some b, some f)

unfoldable pub store_new : Option Frame → Frame → Slots → Slots × Option FrameStatus
store_new none src slots = (slots, some frame_skip)
store_new (some f) src slots =
    let stored = store (copy_frame_buffer f src) slots in (stored, waiting stored)

-- The frames that are kept once `src` has come, and the status where GetFrame returns at once.
unfoldable pub push : (ℕ → ℕ → Option Frame) → Frame → Slots → Slots × Option FrameStatus
push new_frame src (some a, some b, some c) =
    ((some b, some c, some (copy_frame_buffer a src)), none)
push new_frame src slots = store_new (new_frame src.width src.height) src slots

-- Yadif_Plane from bytes to bytes.
unfoldable pub make_plane : ℕ → ℕ → ℕ → ℕ → ℕ → ℕ → Bytes → Bytes → Bytes → Bytes → Bytes
make_plane dst_pitch stride width height parity tff prev cur next dst i =
    yadif_plane stride width height parity tff prev cur next (λ r x. dst (r * dst_pitch + x))
      (i / dst_pitch) (i % dst_pitch)

-- `!fTFF` and `fTFF`, as numbers.
unfoldable pub first_parity : Frame → ℕ
first_parity f = if has_flag f.attributes.flags flag_top_field_first then 0 else 1

unfoldable pub parity_of : Bool → ℕ → Frame → ℕ
parity_of true field f = bit_xor field (first_parity f)
parity_of false field f = first_parity f

unfoldable pub make_frame : Bool → ℕ → Frame → Frame → Frame → Frame → Frame → Frame
make_frame bob field src prev cur next dst =
    let parity = parity_of bob field cur in
    let tff = bit_xor 1 (first_parity cur) in
    let w = src.width / 2 in
    let h = src.height / 2 in
    record dst {
      y =
          make_plane dst.pitch_y prev.pitch_y src.width src.height parity tff prev.y cur.y next.y
            dst.y;
      u = make_plane dst.pitch_c prev.pitch_c w h parity tff prev.u cur.u next.u dst.u;
      v = make_plane dst.pitch_c prev.pitch_c w h parity tff prev.v cur.v next.v dst.v;
      attributes = cur.attributes;
    }

unfoldable pub finish :
    Bool → ℕ → Frame → Frame → Slots × Option FrameStatus → Slots × FrameStatus × Frame
finish bob field dst src ((some a, some b, some c), none) =
    ((some a, some b, some c), frame_ok, make_frame bob field src a b c dst)
finish bob field dst src (slots, some status) = (slots, status, dst)
finish bob field dst src (slots, none) = (slots, frame_ok, dst)

-- GetFrame: the frames kept, the status, and the destination.
unfoldable pub get_frame :
    (ℕ → ℕ → Option Frame) → Bool → Frame → Frame → ℕ → Slots → Slots × FrameStatus × Frame
get_frame new_frame bob dst src field slots =
    finish bob field dst src (push new_frame src (check_size src slots))

-- What the calls for one frame leave: one call, or one for each field.
unfoldable pub show_frame :
    (ℕ → ℕ → Option Frame) → Bool → Frame → Frame → Slots → Slots × List (FrameStatus × Frame)
show_frame new_frame false dst src slots =
    let r = get_frame new_frame false dst src 0 slots in (r.0, (r.1, r.2) ∷ [])
show_frame new_frame true dst src slots =
    let r = get_frame new_frame true dst src 0 slots in
    let q = get_frame new_frame true r.2 src 1 r.0 in (q.0, (r.1, r.2) ∷ (q.1, q.2) ∷ [])
