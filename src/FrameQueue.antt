-- ===== src/FrameQueue.antt =====
-- The frame queue of CMpeg2DecoderD3D11 (GetDisplayFrame and the functions on m_FrameQueue in
-- src/Mpeg2DecoderD3D11.cpp) and FlushFrameQueue of src/TVTestVideoDecoder.cpp. `A` is what
-- CopyAttributesFrom copies, `T` the picture in a texture; what Direct3D returns is a parameter.
pub mod Ring
pub mod Flush
use mathlib.Core.Bool.{not}
use tvtest_video_decoder.Base.{
  ℕ, zero, suc, ◌+◌, ◌%◌, Bool, true, false, ◌||◌, Option, none, some, List, [], ◌∷◌, ltb, ◌==◌,
  if◌then◌else◌,
}
use tvtest_video_decoder.Types.{Hresult, s_ok, s_false, failed}

-- A CFrameBuffer with its m_pD3D11Texture.
pub record Frame {ℓ} (A T : Type ℓ) : Type ℓ where
  pub attributes : A
  pub texture : Option T

-- The members that the queue uses; `sample` is the texture of m_Samples[DisplaySampleIndex], if
-- GetFBufIndex finds it and it holds a sample.
pub record Queue {ℓ} (A T : Type ℓ) : Type ℓ where
  pub slots : ℕ → Frame A T  -- m_FrameQueue
  pub size : ℕ  -- m_FrameQueueSize
  pub pos : ℕ  -- m_FrameQueuePos
  pub staging : Option T  -- m_StagingTexture
  pub wait_for_key : Bool  -- m_fWaitForDisplayKeyFrame
  pub sample : Option T

abbrev pub max_queue_frames : ℕ
max_queue_frames = 4

-- `m_FrameQueue[i] = f`
unfoldable pub set_slot {ℓ} : {A T : Type ℓ} → ℕ → Frame A T → Queue A T → Queue A T
set_slot i f q = record q { slots = λ j. if j == i then f else q.slots j }

abbrev pub released {ℓ} : {A T : Type ℓ} → Frame A T → Frame A T
released f = record f { texture = none }

unfoldable pub clear_frame_queue {ℓ} : {A T : Type ℓ} → Queue A T → Queue A T
clear_frame_queue q = record q {
  slots = λ j. if ltb j (max_queue_frames + 1) then released (q.slots j) else q.slots j;
  pos = 0;
}

unfoldable pub set_frame_queue_size {ℓ} : {A T : Type ℓ} → ℕ → Queue A T → Queue A T × Bool
set_frame_queue_size size q =
    if ltb max_queue_frames size
    then (q, false)
    else if size == q.size
    then (q, true)
    else (record (clear_frame_queue q) { size = size }, true)

-- CopySampleTextureToStagingTexture: a texture is created if there is none, `create` is what
-- CreateTexture2D returns.
unfoldable pub copy_to_staging {ℓ} : {T : Type ℓ} → Hresult → T → Option T → Hresult × Option T
copy_to_staging create t (some old) = (s_ok, some t)
copy_to_staging create t none = if failed create then (create, none) else (s_ok, some t)

-- GetFrameFromTexture, where `mapped` is what Map returns.
unfoldable pub get_frame {ℓ} : {A T : Type ℓ} → Hresult → T → Frame A T → Hresult × Frame A T
get_frame mapped t f = if failed mapped then (mapped, f) else (s_ok, record f { texture = some t })

-- GetFrameFromTexture after CopyAttributesFrom, as the return frame has a texture or not.
unfoldable pub return_frame {ℓ} :
    {A T : Type ℓ} → Hresult → Frame A T → Option T → Frame A T → Hresult × Frame A T
return_frame mapped source none f = (s_false, f)
return_frame mapped source (some t) f =
    get_frame mapped t (record f { attributes = source.attributes })

-- The branch of GetDisplayFrame with a queue.
unfoldable pub push_frame {ℓ} :
    {A T : Type ℓ} → Hresult → Hresult → T → Frame A T → Queue A T → Queue A T × Hresult × Frame A T
push_frame create mapped t f q =
    let old = q.slots q.pos in
    let q1 =
      set_slot q.pos
        (record { attributes = f.attributes; texture = (copy_to_staging create t old.texture).1 })
        q in
    let next = (q.pos + 1) % (q.size + 1) in
    let source = q1.slots next in
    let r = return_frame mapped source source.texture f in (record q1 { pos = next }, r.0, r.1)

-- The branch without one.
unfoldable pub stage_frame {ℓ} :
    {A T : Type ℓ} → Hresult → Hresult → T → Frame A T → Queue A T → Queue A T × Hresult × Frame A T
stage_frame create mapped t f q =
    let c = copy_to_staging create t q.staging in
    if failed c.0
    then (q, c.0, f)
    else (let r = get_frame mapped t f in (record q { staging = c.1 }, r.0, r.1))

-- The wait ends with the first I picture that is displayed.
unfoldable pub update_wait {ℓ} : {A T : Type ℓ} → Bool → Queue A T → Queue A T
update_wait i_picture q = record q { wait_for_key = if i_picture then false else q.wait_for_key }

unfoldable pub show_sample {ℓ} :
    {A T : Type ℓ}
    → Hresult
    → Hresult
    → Hresult
    → Option T
    → Frame A T
    → Queue A T
    → Queue A T × Hresult × Frame A T
show_sample texture create mapped none f q = (q, s_false, f)
show_sample texture create mapped (some t) f q =
    let r =
      if failed texture
      then (q, texture, f)
      else if q.size == 0
      then stage_frame create mapped t f q
      else push_frame create mapped t f q in
    (record r.0 { sample = none }, r.1, r.2)

-- GetDisplayFrame; `texture` is what GetTexture returns, and a null pointer is `none`.
unfoldable pub get_display_frame {ℓ} :
    {A T : Type ℓ}
    → Hresult
    → Hresult
    → Hresult
    → Bool
    → Option (Frame A T)
    → Queue A T
    → Queue A T × Hresult × Option (Frame A T)
get_display_frame texture create mapped i_picture none q = (update_wait i_picture q, s_false, none)
get_display_frame texture create mapped i_picture (some f) q =
    let q1 = update_wait i_picture q in
    if q1.wait_for_key
    then (q1, s_false, some f)
    else (let r = show_sample texture create mapped q1.sample f q1 in (r.0, r.1, some r.2))

-- The attributes are copied only if the texture could be mapped.
unfoldable pub take_frame {ℓ} :
    {A T : Type ℓ} → Hresult → T → Frame A T → Frame A T → Hresult × Frame A T
take_frame mapped t source f =
    if failed mapped
    then (mapped, f)
    else (s_ok, record { attributes = source.attributes; texture = some t })

abbrev take_or {ℓ} : {A B : Type ℓ} → Option A → (A → B) → B → B
take_or none f b = b
take_or (some a) f b = f a

-- GetQueuedFrame: `n` turns of its loop are left.
unfoldable pub scan_queue {ℓ} :
    {A T : Type ℓ} → Hresult → ℕ → Frame A T → Queue A T → Queue A T × Hresult × Frame A T
scan_queue mapped zero f q = (q, s_false, f)
scan_queue mapped (suc n) f q =
    let next = (q.pos + 1) % (q.size + 1) in
    let q1 = record q { pos = next } in
    let rest = scan_queue mapped n f q1 in
    let source = q.slots next in
    take_or source.texture
      (λ t.
        (let r = take_frame mapped t source f in (set_slot next (released source) q1, r.0, r.1)))
      rest

unfoldable pub get_queued_frame {ℓ} :
    {A T : Type ℓ} → Hresult → Frame A T → Queue A T → Queue A T × Hresult × Frame A T
get_queued_frame mapped f q = scan_queue mapped q.size f q

-- `hr == S_OK`
abbrev pub is_s_ok : Hresult → Bool
is_s_ok s_ok = true
is_s_ok _ = false

-- FlushFrameQueue's loop, on fuel; `none` is a loop that goes on. The texture of a frame that is
-- delivered is released by UnlockFrame.
unfoldable pub flush_loop {ℓ} :
    {A T : Type ℓ}
    → Hresult
    → (Frame A T → Hresult)
    → Frame A T
    → ℕ
    → Queue A T
    → Option (Queue A T × Hresult)
flush_loop mapped deliver f zero q = none
flush_loop mapped deliver f (suc fuel) q =
    let r = get_queued_frame mapped f q in
    let rest = flush_loop mapped deliver f fuel r.0 in
    if is_s_ok r.1 then (if failed (deliver r.2) then some (r.0, deliver r.2) else rest) else rest
