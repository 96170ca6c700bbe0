-- ===== src/FrameQueue/Flush.antt =====
-- GetQueuedFrame of src/Mpeg2DecoderD3D11.cpp and FlushFrameQueue of src/TVTestVideoDecoder.cpp, which
-- empty the frame queue.
use native.Mathlib.Nat.{mod-add-mod, add-mod_right}
use tvtest_video_decoder.Base.{
  ℕ, zero, suc, ◌+◌, ◌-◌, ◌%◌, ◌≤◌, ◌<◌, ◌≡◌, ◌≢◌, refl, sym, ◌∙◌, ap, arith, Bool, true, false,
  Option, none, some, List, [], ◌∷◌, ◌==◌, ◌⊎◌, inl, inr, length, get_elem?, Bool-cases,
}
use tvtest_video_decoder.Types.{Hresult, s_ok, failed}
use tvtest_video_decoder.FrameQueue.{
  Frame, Queue, set_slot, released, clear_frame_queue, take_frame, scan_queue, get_queued_frame,
  flush_loop, is_s_ok,
}
use tvtest_video_decoder.FrameQueue.Ring.{
  ring, ring-here, ring-other, Agrees, Delays, outcome, run, run-Delays, clear-Delays,
}

abbrev has {ℓ} : {A : Type ℓ} → Option A → Bool
has none = false
has (some a) = true

has-get_elem? {ℓ} : {A : Type ℓ} (xs : List A) (i : ℕ) → i < length xs → has (get_elem? xs i) ≡ true
has-get_elem? [] i h = absurd (omega arith)
has-get_elem? (x ∷ xs) zero h = refl
has-get_elem? (x ∷ xs) (suc i) h = has-get_elem? xs i (omega arith)

ended {ℓ} :
    {B : Type ℓ} (x y : B × Hresult) → some x ≡ some y → failed x.1 ≡ true → failed y.1 ≡ true
ended x y e h = ground arith

ring-step : (n p k : ℕ) → ring n (ring n p k) 1 ≡ ring n p (k + 1)
ring-step n p k = mod-add-mod (p + k) (n + 1) 1 ∙ ap (λ (t : ℕ). t % (n + 1)) (omega arith)

around : (n p : ℕ) → ring n p (n + 1) ≡ ring n p 0
around n p =
    ap (λ (t : ℕ). t % (n + 1)) (omega arith)
    ∙ add-mod_right p (n + 1)
    ∙ ap (λ (t : ℕ). t % (n + 1)) (omega arith)

differ : (n m : ℕ) → n ≢ m → (n == m) ≡ false
differ n m h = ground arith

module _ {ℓ} {A T : Type ℓ} where
  -- The queue after `k` calls of GetQueuedFrame.
  unfoldable pub drain : ℕ → Frame A T → Queue A T → Queue A T
  drain zero f q = q
  drain (suc k) f q = (get_queued_frame s_ok f (drain k f q)).0

  -- The first `k` frames of `q` are taken; the slots that the next calls reach are still as in `q`.
  record Drained (k n : ℕ) (q r : Queue A T) : Type ℓ where
    size : r.size ≡ n
    pos : r.pos ≡ ring n q.pos k
    slots :
        (i : ℕ) → i ≤ n → (k < i) ⊎ (i ≡ 0) → r.slots (ring n q.pos i) ≡ q.slots (ring n q.pos i)

  -- The next slot has a texture: the loop returns it in its first turn.
  get-next :
      (n p : ℕ) (f : Frame A T) (q : Queue A T) (e : Option (A × T))
      → 0 < n
      → q.size ≡ n
      → ring n q.pos 1 ≡ p
      → Agrees (q.slots p) e
      → has e ≡ true
      → get_queued_frame s_ok f q ≡ (
        (set_slot p (released (q.slots p)) (record q { pos = p })),
        (outcome f e).0,
        (outcome f e).1,
      )
  unfolding get_queued_frame scan_queue take_frame Agrees
  get-next zero p f q e z s r a h = absurd (omega arith)
  get-next (suc n) p f q none z s r a h = absurd (ground arith)
  get-next (suc n) p f q (some (b, t)) z s r (c, d) h = rw (s, r, c, d)

  module _ (n : ℕ) (f : Frame A T) (q : Queue A T) (h : List (A × T)) (d : Delays n q h)
      (full : n < length h) where
    distinct :
        (i k : ℕ) → i ≤ n → k < n → (suc k < i) ⊎ (i ≡ 0) → ring n q.pos i ≢ ring n q.pos (k + 1)
    distinct i k m l (inl b) e = ring-other n q.pos (k + 1) i d.pos (omega arith) m (sym e)
    distinct i k m l (inr b) e = ring-other n q.pos i (k + 1) d.pos (omega arith) (omega arith) e

    drain-step :
        (k : ℕ) (r : Queue A T)
        → k < n
        → Drained k n q r
        → get_queued_frame s_ok f r ≡ (
          (set_slot
              (ring n q.pos (k + 1))
              (released (r.slots (ring n q.pos (k + 1))))
              (record r { pos = ring n q.pos (k + 1) })),
          (outcome f (get_elem? h (n - (k + 1)))).0,
          (outcome f (get_elem? h (n - (k + 1)))).1,
        )
    drain-step k r l v =
        get-next n (ring n q.pos (k + 1)) f r (get_elem? h (n - (k + 1))) (omega arith) v.size
          (rw v.pos (ring-step n q.pos k))
          (rw (v.slots (k + 1) (omega arith) (inl (omega arith))) (d.slots (k + 1) (omega arith)))
          (has-get_elem? h (n - (k + 1)) (omega arith))

    step-Drained :
        (k : ℕ) (r : Queue A T)
        → k < n
        → Drained k n q r
        → Drained (suc k) n q (get_queued_frame s_ok f r).0
    unfolding set_slot
    step-Drained k r l v = rw (drain-step k r l v) (record {
      size = v.size;
      pos = ap (ring n q.pos) (omega arith);
      slots = λ i m o.
          (let apart : (ring n q.pos i == ring n q.pos (k + 1)) ≡ false =
              differ (ring n q.pos i) (ring n q.pos (k + 1)) (distinct i k m l o) in
            rw apart (v.slots i m (elim o [ inl b ↦ inl (omega arith) | inr b ↦ inr b ])));
    })

    drain-Drained : (k : ℕ) → k ≤ n → Drained k n q (drain k f q)
    unfolding drain
    drain-Drained zero l = record {
      size = d.size;
      pos = sym (ring-here n q.pos d.pos);
      slots = λ i m o. refl;
    }
    drain-Drained (suc k) l =
        step-Drained k (drain k f q) (omega arith) (drain-Drained k (omega arith))

    get-after :
        (k : ℕ)
        → k < n
        → ((get_queued_frame s_ok f (drain k f q)).1, (get_queued_frame s_ok f (drain k f q)).2)
          ≡ outcome f (get_elem? h (n - (k + 1)))
    get-after k l = rw (drain-step k (drain k f q) l (drain-Drained k (omega arith)))

    -- After `n` calls the slot of the frame that was returned last is reached again.
    get-again :
        0 < n
        → ((get_queued_frame s_ok f (drain n f q)).1, (get_queued_frame s_ok f (drain n f q)).2)
          ≡ outcome f (get_elem? h n)
    get-again z =
        let v = drain-Drained n (omega arith) in
        let whole : n - 0 ≡ n = omega arith in
        let here : ring n (ring n q.pos n) 1 ≡ ring n q.pos 0 =
          ring-step n q.pos n ∙ around n q.pos in
        rw (
          get-next n (ring n q.pos 0) f (drain n f q) (get_elem? h n) z v.size (rw v.pos here)
            (rw (v.slots 0 (omega arith) (inr refl)) (rw whole at (d.slots 0 (omega arith))))
            (has-get_elem? h n full))

  -- After more than n frames have been put into the cleared queue of n frames, n being 4 at most,
  -- the first n calls of GetQueuedFrame return the n frames that have not been displayed yet, the
  -- oldest first, provided Direct3D creates and maps the textures.
  pub get_queued_frame-order :
      (f : Frame A T) (q : Queue A T) (h : List (A × T)) (k : ℕ)
      → q.size ≤ 4
      → q.size < length h
      → k < q.size
      → (
        (get_queued_frame s_ok f (drain k f (run f h (clear_frame_queue q)))).1,
        (get_queued_frame s_ok f (drain k f (run f h (clear_frame_queue q)))).2,
      )
        ≡ outcome f (get_elem? h (q.size - (k + 1)))
  get_queued_frame-order f q h k small full l =
      get-after q.size f (run f h (clear_frame_queue q)) h
        (run-Delays q.size f h (clear_frame_queue q) (clear-Delays q small)) full k l

  -- After more than n > 0 frames have been put into the cleared queue of n frames, n being 4 at
  -- most, the call of GetQueuedFrame after the first n returns once more the frame that was
  -- displayed last, not S_FALSE, provided Direct3D creates and maps the textures.
  pub get_queued_frame-repeats :
      (f : Frame A T) (q : Queue A T) (h : List (A × T))
      → 0 < q.size
      → q.size ≤ 4
      → q.size < length h
      → (
        (get_queued_frame s_ok f (drain q.size f (run f h (clear_frame_queue q)))).1,
        (get_queued_frame s_ok f (drain q.size f (run f h (clear_frame_queue q)))).2,
      )
        ≡ outcome f (get_elem? h q.size)
  get_queued_frame-repeats f q h z small full =
      get-again q.size f (run f h (clear_frame_queue q)) h
        (run-Delays q.size f h (clear_frame_queue q) (clear-Delays q small)) full z

  -- The loop of FlushFrameQueue goes on for any number of turns if no delivery fails.
  pub flush_loop-endless :
      (mapped : Hresult) (deliver : Frame A T → Hresult) (f : Frame A T) (fuel : ℕ) (q : Queue A T)
      → ((g : Frame A T) → failed (deliver g) ≡ false)
      → flush_loop mapped deliver f fuel q ≡ none
  unfolding flush_loop
  flush_loop-endless m deliver f zero q h = refl
  flush_loop-endless m deliver f (suc n) q h =
      let next = get_queued_frame m f q in
      let rest = flush_loop-endless m deliver f n next.0 h in
      elim (Bool-cases (is_s_ok next.1)) [ inr off ↦ rw off rest | inl on ↦ rw (on, h next.2) rest ]

  -- If the loop of FlushFrameQueue ends, it ends with the code of a delivery that failed.
  pub flush_loop-failed :
      (mapped : Hresult) (deliver : Frame A T → Hresult) (f : Frame A T) (fuel : ℕ)
      (q r : Queue A T) (hr : Hresult)
      → flush_loop mapped deliver f fuel q ≡ some (r, hr)
      → failed hr ≡ true
  unfolding flush_loop
  flush_loop-failed m deliver f zero q r hr e = absurd (ground arith)
  flush_loop-failed m deliver f (suc n) q r hr e =
      let next = get_queued_frame m f q in
      elim (Bool-cases (is_s_ok next.1)) [
        | inr off ↦ flush_loop-failed m deliver f n next.0 r hr (rw off at e)
        | inl on ↦ elim (Bool-cases (failed (deliver next.2))) [
          | inl bad ↦ ended (next.0, deliver next.2) (r, hr) (rw (on, bad) at e) bad
          | inr good ↦ flush_loop-failed m deliver f n next.0 r hr (rw (on, good) at e)
        ]
      ]
