-- ===== src/Lib.antt =====
-- TVTest DTV Video Decoder, a DirectShow filter that decodes MPEG-2 video.
--
-- The filter (src/TVTestVideoDecoder.cpp) feeds a stream to a decoder, detects telecined material and
-- picks a deinterlacer for each frame, adjusts the colours and delivers the pictures. A decoder is the
-- wrapper of libmpeg2 (src/Mpeg2Decoder.cpp) or one on Direct3D 11 (src/Mpeg2DecoderD3D11.cpp), which
-- holds frames back in a queue. Pictures live in a CFrameBuffer (src/FrameBuffer.cpp). The options are
-- set through an interface, a property bag and the registry. CTVTestVideoFrameDecoder
-- (src/VideoFrameDecoder.cpp) decodes a raw stream without the filter.
--
-- Types: the result codes, deinterlace methods, frame flags and pixel formats that the parts share.
-- Util: PopCount of src/Util.h, GetDXVASurfaceSize of src/Util.cpp, RowBytes of src/FrameBuffer.cpp;
--   Util/Fraction is GCD and ReduceFraction of src/Util.cpp, on fuel: as much as the second number.
-- Telecine: SetFrameStatus of src/TVTestVideoDecoder.cpp. `detect` is the detection, `choose` the
--   choice of the deinterlacer, `set_frame_status` the whole. Telecine/History is the specification,
--   by the film flag of every frame since the reset.
-- Color: CColorAdjustment of src/ColorAdjustment.cpp: the setters, MakeYTable (`y_entry`), MakeUVTable
--   (`uv_entry`), ProcessY, ProcessI420 and ProcessNV12; Color/Sse2 is one lane of the vector code.
-- FrameBuffer: Allocate, Free, CopyAttributesFrom and CopyReferenceTo of src/FrameBuffer.cpp, with the
--   calls of the heap as events.
-- Pixels: the copies of src/PixelFormatConvert.cpp on their portable path, over the bytes of a buffer;
--   Pixels/Upsample is UpsampleI420pToI422 and UpsampleI420iToI422, over rows and columns, Pixels/Rgb the
--   set-up and the loops of PixelCopyI422ToRGB, Pixels/Converter YUVToRGBConverter with its buffer, and
--   Pixels/Frames CopyPixelsFrom of src/FrameBuffer.cpp.
-- Capture: CFrameCapture of src/FrameCapture.cpp: SetFrameCapture, UnsetFrameCapture and
--   FrameCaptureCallback (`frame_capture_callback`), over Pixels/Converter and FrameBuffer.
-- VideoFilter: the sizes and the output type of CBaseVideoFilter in src/BaseVideoFilter.cpp;
--   VideoFilter/Reconnect is ReconnectOutput (`reconnect_output`, `retry` for its loop), over an interface
--   to the other pin, VideoFilter/Dimension GetDimensions and SetMediaType, VideoFilter/Samples
--   GetMediaType and DecideBufferSize, VideoFilter/Buffers GetDeliveryBuffer,
--   VideoFilter/Copy CopySampleBuffer.
-- Options: the setters of src/TVTestVideoDecoder.cpp; Options/Registry is LoadOptions and SaveOptions,
--   Options/PropertyBag is PropertyBag_Read, PropertyBag_Write and their IPropertyBag2 forms.
-- FrameQueue: GetDisplayFrame, GetQueuedFrame, ClearFrameQueue and SetFrameQueueSize of
--   src/Mpeg2DecoderD3D11.cpp, and FlushFrameQueue of src/TVTestVideoDecoder.cpp.
-- Deinterlace: BlendRow2 and BlendRow3 of src/Blend.h, BlendPlane and BobPlane of src/Deinterlace.cpp,
--   on their portable path; Deinterlace/Methods is GetFrame of CDeinterlacer_Blend and _Bob there.
-- Ela: ELA_Score, ELA_Result and ELARow of src/Deinterlace.cpp; Ela/Plane is ELAPlane.
-- FrameDecoder: Open, Close, OutFrame and the setters of src/VideoFrameDecoder.cpp and, in
--   FrameDecoder/Stream, InputStream (`input_stream`, `turn` for a pass of its loop), with
--   Open, Close, Parse, GetMpeg2Info and GetFrameFlags of src/Mpeg2Decoder.cpp.
-- Yadif: Yadif_Row and Yadif_Plane of src/Deinterlace_Yadif.cpp on their portable path (`yadif_pixel`,
--   `yadif_plane`), and in Yadif/History its GetFrame with the three frames that it keeps.
-- Delivery: Deliver and SetTypeSpecificFlags of src/TVTestVideoDecoder.cpp; Delivery/Buffers is
--   SetupOutputFrameBuffer, Delivery/Target and Delivery/Fields are DeliverFrame, over an interface for the
--   deinterlacers.
-- Streaming: InitDecode of src/TVTestVideoDecoder.cpp and the steps of Transform; Streaming/Loop has
--   the branches for the three decoders, Streaming/Transform the loop. They hand frames to DeliverFrame
--   through an interface over a state, whose laws are in Streaming/Times.
-- Input: CheckInputType, AlterQuality and the property set of CMpeg2DecoderInputPin of
--   src/TVTestVideoDecoder.cpp.
-- Base: lists, integers, Boolean tests and binary digits. Examples: concrete inputs.
--
-- Bounds. Machine words keep their wrap-around where the source computes on words (PopCount, the
-- averages, the alignments, the registry's DWORDs) and where Allocate computes the size of a block
-- in int; INT_MIN % -1 has no value. Other sizes and counters of frames are numbers, so their
-- overflow (a plane of a sample of 2 GB, 2 ^ 31 frames) is not modelled. FlushFrameQueue's loop
-- runs on fuel, since it need not end; the loops of InputStream and Transform run on the list of
-- what mpeg2_parse returns in each turn. Times are exact integers: the overflow of an int64_t is
-- undefined. The loop of ReconnectOutput runs
-- on the attempts that RetryTimeout leaves, 12 in all. All other loops are structural.
--
-- Parameters: the heap, libmpeg2, DIBSIZE, MulDiv, the sine and cosine, the registry, VariantCopy,
-- VariantChangeType, the comparison of option names, memcpy, the result codes of Direct3D, the
-- media samples, the values of AM_VIDEO_FLAG_* and the pin downstream. A texture stands for its
-- picture. The critical sections are left out: each operation is one step.
--
-- Not modelled: the rest of src/BaseVideoFilter.cpp (DXVA, the allocators of the pins), the
-- statistics, the SSE2 paths of the deinterlacers and the conversions, the DXVA calls,
-- the property pages, and the copies of the DirectShow base classes and of libmpeg2.
pub mod Base
pub mod Types
pub mod Util
pub mod Telecine
pub mod Color
pub mod FrameBuffer
pub mod Options
pub mod FrameQueue
pub mod Deinterlace
pub mod Yadif
pub mod Pixels
pub mod Capture
pub mod VideoFilter
pub mod Ela
pub mod Delivery
pub mod Streaming
pub mod Input
pub mod FrameDecoder
pub mod Examples
