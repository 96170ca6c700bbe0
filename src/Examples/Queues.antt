-- ===== src/Examples/Queues.antt =====
-- The frame queue of src/Mpeg2DecoderD3D11.cpp on numbered pictures.
use tvtest_video_decoder.Base.{ℕ, ◌≡◌, refl, arith, false, List, [], ◌∷◌, none, some}
use tvtest_video_decoder.Types.{Hresult, s_ok, e_fail}
use tvtest_video_decoder.FrameQueue.{
  Frame, Queue, clear_frame_queue, push_frame, get_queued_frame, flush_loop, scan_queue, take_frame,
}
use tvtest_video_decoder.FrameQueue.Ring.{outcome, run, push_frame-delays}
use tvtest_video_decoder.FrameQueue.Flush.{
  drain, get_queued_frame-order, get_queued_frame-repeats, flush_loop-endless,
}

abbrev empty : Frame ℕ ℕ
empty = record { attributes = 0; texture = none }

abbrev queue : Queue ℕ ℕ
queue = record {
  slots = λ i. empty;
  size = 2;
  pos = 0;
  staging = none;
  wait_for_key = false;
  sample = none;
}

-- Pictures 13, 12 and 11, the newest first.
abbrev pictures : List (ℕ × ℕ)
pictures = (3, 13) ∷ (2, 12) ∷ (1, 11) ∷ []

push_frame-delays_example :
    (
      (push_frame s_ok s_ok 14 empty (run empty pictures (clear_frame_queue queue))).1,
      (push_frame s_ok s_ok 14 empty (run empty pictures (clear_frame_queue queue))).2,
    )
    ≡ outcome empty (some (2, 12))
push_frame-delays_example = push_frame-delays 14 empty pictures queue (omega arith) (omega arith)

get_queued_frame-order_example :
    (
      (get_queued_frame s_ok empty
          (drain 1 empty (run empty pictures (clear_frame_queue queue)))).1,
      (get_queued_frame s_ok empty
          (drain 1 empty (run empty pictures (clear_frame_queue queue)))).2,
    )
    ≡ outcome empty (some (3, 13))
get_queued_frame-order_example =
    get_queued_frame-order empty queue pictures 1 (omega arith) (omega arith) (omega arith)

get_queued_frame-repeats_example :
    (
      (get_queued_frame s_ok empty
          (drain 2 empty (run empty pictures (clear_frame_queue queue)))).1,
      (get_queued_frame s_ok empty
          (drain 2 empty (run empty pictures (clear_frame_queue queue)))).2,
    )
    ≡ outcome empty (some (1, 11))
get_queued_frame-repeats_example =
    get_queued_frame-repeats empty queue pictures (omega arith) (omega arith) (omega arith)

abbrev deliver : Frame ℕ ℕ → Hresult
deliver f = s_ok

flush_loop-endless_example :
    flush_loop s_ok deliver empty 1000 (run empty pictures (clear_frame_queue queue)) ≡ none
flush_loop-endless_example =
    flush_loop-endless s_ok deliver empty 1000 (run empty pictures (clear_frame_queue queue))
      (λ g. refl)

abbrev refuse : Frame ℕ ℕ → Hresult
refuse f = e_fail

-- One picture in the queue, which is not delivered.
abbrev one_picture : Queue ℕ ℕ
one_picture = record queue { slots = λ i. record { attributes = 1; texture = some 11 } }

abbrev rest : Queue ℕ ℕ
rest = (get_queued_frame s_ok empty one_picture).0

refused : flush_loop s_ok refuse empty 1 one_picture ≡ some (rest, e_fail)
unfolding flush_loop get_queued_frame scan_queue take_frame
refused = refl
