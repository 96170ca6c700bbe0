-- ===== src/VideoFilter.antt =====
-- CBaseVideoFilter of src/BaseVideoFilter.cpp: its sizes, and the output that ReconnectOutput adapts
-- to a frame. A REFERENCE_TIME and an int are integers.
pub mod Reconnect
pub mod Retries
pub mod Suits
pub mod Settled
pub mod Dimension
pub mod Buffers
pub mod Sized
pub mod Copy
pub mod Inside
pub mod Samples
use Prim.Native.Nat.{bit_and}
use mathlib.Core.Bool.{not}
use tvtest_video_decoder.Base.{
  ℕ, zero, suc, ◌+◌, ◌-◌, ◌*◌, ◌/◌, ◌%◌, ◌^◌, Bool, true, false, ◌&&◌, ◌||◌, List, [], ◌∷◌, ◌++◌,
  Option, none, some, ◌==◌, ltb, if◌then◌else◌,
}
use tvtest_video_decoder.Base.Int.{ℤ, pos, negsuc, ltb_ℤ, same_ℤ, ◌-ℤ◌, ◌*ℤ◌, tdiv, abs}
use tvtest_video_decoder.Types.{Hresult, s_ok, s_false, e_fail}
use tvtest_video_decoder.Util.Fraction.{reduce_fraction, magnitude}

-- VideoDimensions
pub record Dimensions : Type 0 where
  pub width : ℤ
  pub height : ℤ
  pub aspect_x : ℤ
  pub aspect_y : ℤ

unfoldable pub same_dimensions : Dimensions → Dimensions → Bool
same_dimensions a b =
    same_ℤ a.width b.width
    && same_ℤ a.height b.height
    && same_ℤ a.aspect_x b.aspect_x
    && same_ℤ a.aspect_y b.aspect_y

-- What IsVideoInfo and IsVideoInfo2 find.
pub data Kind : Type 0 where
  video_info video_info2 no_info : Kind

-- An AM_MEDIA_TYPE with the members of its format block that are used.
pub record MediaType : Type 0 where
  pub kind : Kind
  pub avg_time_per_frame : ℤ
  pub source_right : ℤ  -- also those of rcTarget
  pub source_bottom : ℤ
  pub interlace_flags : ℕ
  pub control_flags : ℕ
  pub picture_aspect_x : ℤ
  pub picture_aspect_y : ℤ
  pub width : ℤ  -- the BITMAPINFOHEADER from here on
  pub height : ℤ
  pub bit_count : ℕ
  pub compression : ℕ
  pub size_image : ℤ
  pub x_pels : ℤ
  pub y_pels : ℤ

abbrev pub fourcc_dxva : ℕ
fourcc_dxva = 0x61767864

unfoldable pub is_video_info2 : MediaType → Bool
is_video_info2 t = elim t.kind [ video_info2 ↦ true | _ ↦ false ]

unfoldable pub is_no_info : MediaType → Bool
is_no_info t = elim t.kind [ no_info ↦ true | _ ↦ false ]

-- GetAvgTimePerFrame of src/Util.cpp, called with 0 in the result.
unfoldable pub get_avg_time_per_frame : MediaType → ℤ
unfolding is_no_info
get_avg_time_per_frame t =
    if is_no_info t
    then pos 0
    else if ltb_ℤ t.avg_time_per_frame (pos 1)
    then pos 1
    else t.avg_time_per_frame

-- IsMediaTypeInterlaced
unfoldable pub is_interlaced : MediaType → Bool
unfolding is_video_info2
is_interlaced t = is_video_info2 t && not (bit_and t.interlace_flags 1 == 0)

pub record Filter : Type 0 where
  pub dimensions : Dimensions
  pub in_dimensions : Dimensions
  pub out_dimensions : Dimensions
  pub media_dimensions : Dimensions
  pub output_type : MediaType  -- that of m_pOutput
  pub dxva_connect : Bool
  pub dxva_output : Bool
  pub attach_media_type : Bool
  pub surface : Option (ℤ × ℤ)  -- the size of the surfaces of m_DXVA2Allocator

-- What the pin at the other end says to a connection.
pub data Answer : Type 0 where
  accepted buffers_outstanding not_accepted : Answer

-- GetDeliveryBuffer of the output pin: a sample with the media type that is attached to it, and its
-- size.
pub data Delivery : Type 0 where
  sample : Option MediaType → ℤ → Delivery
  no_sample : Hresult → Delivery

pub data Event : Type 0 where
  connection : Event  -- ReceiveConnection is called
  sleep : Event
  flush : Event
  recommit : Event
  size_changed : ℤ → ℤ → Event

-- The other filters, in a state `S`. dib_size is DIBSIZE of a width, a height and a bit count;
-- control_flags is GetVideoInfoControlFlags.
pub record Services (S : Type 0) : Type 0 where
  pub dib_size : ℤ → ℤ → ℕ → ℤ
  pub overlay_mixer : Bool
  pub control_flags : ℕ
  pub receive_connection : MediaType → S → S × Answer
  pub get_delivery_buffer : S → S × Delivery
  pub recommit_allocator : S → S

pub record Request : Type 0 where
  pub size : Dimensions
  pub send_sample : Bool
  pub force : Bool
  pub avg_time_per_frame : ℤ
  pub interlaced : Bool

abbrev pub same_bool : Bool → Bool → Bool
same_bool true b = b
same_bool false b = not b

unfoldable pub time_differs : Request → MediaType → Bool
time_differs r t =
    not (same_ℤ r.avg_time_per_frame (pos 0))
    && ltb_ℤ (pos 10) (abs (get_avg_time_per_frame t -ℤ r.avg_time_per_frame))

unfoldable pub scan_differs : Request → MediaType → Bool
scan_differs r t = is_video_info2 t && not (same_bool (is_interlaced t) r.interlaced)

unfoldable pub compression_differs : Bool → MediaType → Bool
compression_differs dxva t = dxva && not (is_no_info t) && not (t.compression == fourcc_dxva)

-- Is a new connection needed? The size is compared with m_Dimensions and with m_OutDimensions.
unfoldable pub needs_reconnect : Request → Filter → Bool
needs_reconnect r f =
    r.force
    || not (same_dimensions r.size f.dimensions)
    || not (same_dimensions r.size f.out_dimensions)
    || time_differs r f.output_type
    || scan_differs r f.output_type
    || compression_differs f.dxva_output f.output_type

-- The members that depend on the kind of the format block.
unfoldable pub write_aspect : Request → MediaType → MediaType
write_aspect r t = elim t.kind [
  | video_info ↦ record t {
    x_pels = r.size.width *ℤ r.size.aspect_y;
    y_pels = r.size.height *ℤ r.size.aspect_x;
  }
  | video_info2 ↦
      let aspect =
        if magnitude r.size.aspect_x == 0 || magnitude r.size.aspect_y == 0
        then reduce_fraction r.size.width r.size.height
        else (r.size.aspect_x, r.size.aspect_y) in
      record t {
        interlace_flags = if r.interlaced then 0x81 else 0;
        picture_aspect_x = aspect.0;
        picture_aspect_y = aspect.1;
      }
  | no_info ↦ t
]
