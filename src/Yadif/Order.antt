-- ===== src/Yadif/Order.antt =====
-- The order in which CDeinterlacer_Yadif gives back the frames, once it holds three of the same size.
use mathlib.Core.Bool.{not}
use tvtest_video_decoder.Base.{
  ℕ, ◌≡◌, refl, ap, arith, Bool, true, false, ◌&&◌, ◌||◌, List, [], ◌∷◌, ◌++◌, Option, some, ◌==◌,
  map,
}
use tvtest_video_decoder.FrameBuffer.{Attributes}
use tvtest_video_decoder.FrameDecoder.{FrameStatus, frame_ok}
use tvtest_video_decoder.Yadif.History.{
  Frame, Slots, copy_frame_buffer, check_size, push, make_frame, finish, get_frame, show_frame,
}

-- A run over frames, each with its destination: the status and the attributes of each picture.
unfoldable pub outputs :
    (ℕ → ℕ → Option Frame) → Bool → List (Frame × Frame) → Slots → List (FrameStatus × Attributes)
outputs new_frame bob [] slots = []
outputs new_frame bob ((dst, src) ∷ frames) slots =
    let r = show_frame new_frame bob dst src slots in
    map (λ p. (p.0, p.1.attributes)) r.1 ++ outputs new_frame bob frames r.0

abbrev pub is_sized : ℕ → ℕ → Frame → Bool
is_sized w h f = (f.width == w) && (f.height == h)

abbrev pub all_sized : ℕ → ℕ → List (Frame × Frame) → Bool
all_sized w h [] = true
all_sized w h ((dst, src) ∷ frames) = is_sized w h src && all_sized w h frames

-- The pictures one frame late, `last` being the frame before.
abbrev pub delayed : Attributes → List (Frame × Frame) → List (FrameStatus × Attributes)
delayed last [] = []
delayed last ((dst, src) ∷ frames) = (frame_ok, last) ∷ delayed src.attributes frames

-- The first field of the frame before, then the second field of the new frame.
abbrev pub crossed : Attributes → List (Frame × Frame) → List (FrameStatus × Attributes)
crossed last [] = []
crossed last ((dst, src) ∷ frames) =
    (frame_ok, last) ∷ (frame_ok, src.attributes) ∷ crossed src.attributes frames

pub get_frame-full :
    (new_frame : ℕ → ℕ → Option Frame) (bob : Bool) (dst src : Frame) (field w h : ℕ)
    (a b c : Frame)
    → is_sized w h a ≡ true
    → is_sized w h src ≡ true
    → get_frame new_frame bob dst src field (some a, some b, some c) ≡ (
      (some b, some c, some (copy_frame_buffer a src)),
      frame_ok,
      make_frame bob field src b c (copy_frame_buffer a src) dst,
    )
unfolding get_frame check_size push finish
get_frame-full new_frame bob dst src field w h a b c ha hs =
    let same : not (src.width == a.width) || not (src.height == a.height) ≡ false = ground arith in
    rw same refl

-- Once it holds three frames of one size, the Yadif deinterlacer that does not double frames is a
-- delay of one frame: each further frame of the size is answered with FRAME_OK and with the
-- attributes of the frame before it.
pub outputs-delayed :
    (new_frame : ℕ → ℕ → Option Frame) (w h : ℕ) (frames : List (Frame × Frame)) (a b c : Frame)
    → is_sized w h a && is_sized w h b && is_sized w h c ≡ true
    → all_sized w h frames ≡ true
    → outputs new_frame false frames (some a, some b, some c) ≡ delayed c.attributes frames
unfolding outputs show_frame make_frame copy_frame_buffer
outputs-delayed new_frame w h [] a b c hs hf = refl
outputs-delayed new_frame w h ((dst, src) ∷ frames) a b c hs hf =
    rw (get_frame-full new_frame false dst src 0 w h a b c (ground arith) (ground arith)) (
      ap (λ t. (frame_ok, c.attributes) ∷ t)
        (outputs-delayed new_frame w h frames b c (copy_frame_buffer a src) (ground arith)
          (ground arith)))

-- Once it holds three frames of one size, the Yadif deinterlacer that doubles frames answers the
-- two calls for a further frame of the size with FRAME_OK and the attributes of the frame before it,
-- and then with FRAME_OK and those of the frame itself.
outputs-crossed :
    (new_frame : ℕ → ℕ → Option Frame) (w h : ℕ) (frames : List (Frame × Frame)) (a b c : Frame)
    → is_sized w h a && is_sized w h b && is_sized w h c ≡ true
    → all_sized w h frames ≡ true
    → outputs new_frame true frames (some a, some b, some c) ≡ crossed c.attributes frames
unfolding outputs show_frame make_frame copy_frame_buffer
outputs-crossed new_frame w h [] a b c hs hf = refl
outputs-crossed new_frame w h ((dst, src) ∷ frames) a b c hs hf =
    rw
      (
        get_frame-full new_frame true dst src 0 w h a b c (ground arith) (ground arith),
        get_frame-full new_frame true _ src 1 w h b c _ (ground arith) (ground arith),
      )
      (ap (λ t. (frame_ok, c.attributes) ∷ (frame_ok, src.attributes) ∷ t)
        (outputs-crossed new_frame w h frames c (copy_frame_buffer a src) (copy_frame_buffer b src)
          (ground arith) (ground arith)))
