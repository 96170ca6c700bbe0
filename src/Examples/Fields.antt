-- ===== src/Examples/Fields.antt =====
-- The deinterlacers of src/Deinterlace_Yadif.cpp and src/Deinterlace.cpp on small planes.
use tvtest_video_decoder.Base.{
  ℕ, ◌+◌, ◌*◌, ◌%◌, ◌==◌, ◌≤◌, ◌≡◌, refl, arith, true, false, List, [], ◌∷◌, none, some,
}
use tvtest_video_decoder.Base.Int.{pos, ◌+ℤ◌, ◌-ℤ◌, ◌≤ℤ◌}
use tvtest_video_decoder.Types.{weave, i420}
use tvtest_video_decoder.FrameBuffer.{Attributes}
use tvtest_video_decoder.FrameDecoder.{frame_ok}
use tvtest_video_decoder.Deinterlace.Methods.{Picture, bob_get_frame, bob_get_frame-field}
use tvtest_video_decoder.Types.{has_flag}
use tvtest_video_decoder.Ela.{
  ela_row, ela_result, weighted, ela_score, score_entry, pad_rows, set_byte, fill_row, pick_left,
}
use tvtest_video_decoder.Ela.Plane.{ela_plane, ela_plane-byte}
use tvtest_video_decoder.Yadif.{
  Bytes, abs_diff, temporal_mean, pixel_diff, yadif_pixel, yadif_plane,
}
use tvtest_video_decoder.Yadif.Row.{yadif_pixel-limited}
use tvtest_video_decoder.Yadif.Rows.{yadif_plane-byte}
use tvtest_video_decoder.Yadif.History.{Frame, show_frame, first_parity}
use tvtest_video_decoder.Yadif.Order.{outputs, outputs-delayed}
use tvtest_video_decoder.Yadif.Crossed.{show_frame-crossed}

abbrev dark : Bytes
dark i = 10

abbrev ramp : Bytes
ramp i = i % 256

abbrev bright : Bytes
bright i = 200

ramp_byte : (i : ℕ) → ramp i ≤ 255
ramp_byte i = omega arith

yadif_pixel-limited_example :
    (pos (temporal_mean dark ramp 19) -ℤ pixel_diff 8 dark ramp bright dark ramp 19
      ≤ℤ pos (yadif_pixel 8 true dark ramp bright 19))
    × (pos (yadif_pixel 8 true dark ramp bright 19)
        ≤ℤ pos (temporal_mean dark ramp 19) +ℤ pixel_diff 8 dark ramp bright dark ramp 19)
yadif_pixel-limited_example =
    yadif_pixel-limited 8 true dark ramp bright 19 (λ j. omega arith) ramp_byte (λ j. omega arith)

yadif_plane-byte_example : yadif_plane 8 4 6 0 1 dark ramp bright (λ y x. 0) 1 2 ≡ 10
yadif_plane-byte_example =
    yadif_plane-byte 8 4 6 0 1 dark ramp bright (λ y x. 0) 1 2 (omega arith) (omega arith)
      (omega arith)

abbrev times : ℕ → Attributes
times t = record {
  aspect_x = 16;
  aspect_y = 9;
  rt_start = pos t;
  rt_stop = pos (t + 400);
  flags = 1;
  deinterlace = weave;
}

abbrev frame_at : ℕ → Frame
frame_at t = record {
  width = 8;
  height = 8;
  pitch_y = 16;
  pitch_c = 16;
  y = ramp;
  u = dark;
  v = bright;
  attributes = times t;
}

abbrev sources : List (Frame × Frame)
sources = (frame_at 0, frame_at 1200) ∷ (frame_at 0, frame_at 1600) ∷ []

outputs-delayed_example :
    outputs
      (λ w h. none)
      false
      sources
      (some (frame_at 0), some (frame_at 400), some (frame_at 800))
    ≡ (frame_ok, times 800) ∷ (frame_ok, times 1200) ∷ []
outputs-delayed_example =
    outputs-delayed (λ w h. none) 8 8 sources (frame_at 0) (frame_at 400) (frame_at 800) refl refl

-- A brighter frame.
abbrev lit : Frame
lit = record (frame_at 1200) { y = bright }

show_frame-crossed_example :
    (p : Frame) × (q : Frame) × ((show_frame
        (λ w h. none)
        true
        (frame_at 0)
        lit
        (some (frame_at 0), some (frame_at 400), some (frame_at 800))).1
      ≡ (frame_ok, p) ∷ (frame_ok, q) ∷ [])
    × (p.attributes ≡ times 800)
    × (p.y (2 * 16 + 5) ≡ ramp 37)
    × (q.attributes ≡ times 1200)
    × (q.y (3 * 16 + 5) ≡ bright 53)
unfolding first_parity has_flag
show_frame-crossed_example =
    show_frame-crossed (λ w h. none) 8 8 16 (frame_at 0) lit (frame_at 0) (frame_at 400)
      (frame_at 800) 2 3 5 refl (refl, refl, refl) (omega arith) (omega arith) (omega arith)
      (omega arith) (omega arith) (omega arith) refl refl

ela_plane-byte_example : ela_plane 16 64 6 true ramp dark (λ y x. 0) 1 5 ≡ 69
unfolding ela_row ela_result weighted ela_score score_entry abs_diff pad_rows set_byte fill_row
    pick_left
ela_plane-byte_example =
    ela_plane-byte 16 64 6 true ramp dark (λ y x. 0) 1 5 (omega arith) (omega arith) (omega arith)

-- The last column depends on what the work buffer holds.
last_column :
    ela_row 16 (λ x. 10 * x) (λ x. 100 + x) (λ i. 0) 15
      == ela_row 16 (λ x. 10 * x) (λ x. 100 + x) (λ i. i % 7) 15
    ≡ false
unfolding ela_row ela_result weighted ela_score score_entry abs_diff pad_rows set_byte fill_row
    pick_left
last_column = refl

abbrev picture : Picture
picture = record {
  subtype = i420;
  width = 4;
  height = 4;
  plane0 = λ y. y ∷ [];
  plane1 = λ y. y ∷ [];
  plane2 = λ y. y ∷ [];
}

bob_get_frame-field_example : (bob_get_frame (λ w s d. s) true picture picture).1.plane0 1 ≡ 1 ∷ []
bob_get_frame-field_example =
    bob_get_frame-field (λ w s d. s) true picture picture 1 refl (omega arith) (omega arith) refl
