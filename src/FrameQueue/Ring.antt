-- ===== src/FrameQueue/Ring.antt =====
-- The frame queue of src/Mpeg2DecoderD3D11.cpp is a ring of the frames that were put into it, so a
-- queue of n frames delays the pictures by n calls.
use native.Mathlib.Nat.{mod-eq-sub-mod, mod-lt, mod-eq_of_lt, mod-add-mod, add-mod_right}
use tvtest_video_decoder.Base.{
  ℕ, suc, ◌+◌, ◌-◌, ◌%◌, ◌≤◌, ◌<◌, ◌≡◌, ◌≢◌, refl, sym, ◌∙◌, ap, arith, true, false, Option, none,
  some, List, [], ◌∷◌, ◌==◌, ltb, if◌then◌else◌, ℕ_discrete, dec_lt, ◌⊎◌, inl, inr, get_elem?,
}
use tvtest_video_decoder.Types.{Hresult, s_ok, s_false}
use tvtest_video_decoder.FrameQueue.{
  Frame, Queue, set_slot, clear_frame_queue, copy_to_staging, get_frame, return_frame, push_frame,
}

-- Position `i` of a ring of `n + 1` from `p` on.
abbrev pub ring : ℕ → ℕ → ℕ → ℕ
ring n p i = (p + i) % (n + 1)

pub ring-lt : (n p i : ℕ) → ring n p i < n + 1
ring-lt n p i = mod-lt (p + i) (omega arith)

pub ring-next : (n p i : ℕ) → ring n (ring n p 1) i ≡ ring n p (i + 1)
ring-next n p i = mod-add-mod (p + 1) (n + 1) i ∙ ap (λ (t : ℕ). t % (n + 1)) (omega arith)

pub ring-last : (n p : ℕ) → p ≤ n → ring n (ring n p 1) n ≡ p
ring-last n p h =
    mod-add-mod (p + 1) (n + 1) n
    ∙ ap (λ (t : ℕ). t % (n + 1)) (omega arith)
    ∙ add-mod_right p (n + 1)
    ∙ mod-eq_of_lt (omega arith)

pub ring-here : (n p : ℕ) → p ≤ n → ring n p 0 ≡ p
ring-here n p h = ap (λ (t : ℕ). t % (n + 1)) (omega arith) ∙ mod-eq_of_lt (omega arith)

ring-value :
    (n p i : ℕ)
    → p ≤ n
    → i ≤ n
    → ((p + i ≤ n) × (ring n p i ≡ p + i)) ⊎ ((n < p + i) × (ring n p i + (n + 1) ≡ p + i))
ring-value n p i h k = elim (dec_lt n (p + i)) [
  | yes l ↦
      (let e : ring n p i ≡ (p + i - (n + 1)) % (n + 1) = mod-eq-sub-mod (omega arith) in
        let d : (p + i - (n + 1)) % (n + 1) ≡ p + i - (n + 1) = mod-eq_of_lt (omega arith) in
        inr (l, omega arith))
  | no l ↦ inl (omega arith, mod-eq_of_lt (omega arith))
]

-- Another position of the ring is another slot.
pub ring-other : (n p i j : ℕ) → p ≤ n → i < j → j ≤ n → ring n p i ≢ ring n p j
ring-other n p i j h k l e = omega (arith, ring-value n p i h (omega arith), ring-value n p j h l)

same_number : (n : ℕ) → (n == n) ≡ true
same_number n = ground arith

differ : (n m : ℕ) → n ≢ m → (n == m) ≡ false
differ n m h = ground arith

below : (n : ℕ) → n < 5 → ltb n 5 ≡ true
below n h = ground arith

-- A slot has the texture and the attributes of a frame, or no texture.
unfoldable pub Agrees {ℓ} : {A T : Type ℓ} → Frame A T → Option (A × T) → Type ℓ
Agrees f none = f.texture ≡ none
Agrees f (some (a, t)) = (f.attributes ≡ a) × (f.texture ≡ some t)

-- The queue of `n` frames holds the last n + 1 frames of the history `h`, the newest first.
pub record Delays {ℓ} {A T : Type ℓ} (n : ℕ) (q : Queue A T) (h : List (A × T)) : Type ℓ where
  pub size : q.size ≡ n
  pub pos : q.pos ≤ n
  pub slots : (i : ℕ) → i ≤ n → Agrees (q.slots (ring n q.pos i)) (get_elem? h (n - i))

-- What the caller gets for a frame of the history.
abbrev pub outcome {ℓ} : {A T : Type ℓ} → Frame A T → Option (A × T) → Hresult × Frame A T
outcome f none = (s_false, f)
outcome f (some (a, t)) = (s_ok, record { attributes = a; texture = some t })

stored {ℓ} : {T : Type ℓ} (old : Option T) (t : T) → (copy_to_staging s_ok t old).1 ≡ some t
unfolding copy_to_staging
stored none t = refl
stored (some x) t = refl

module _ {ℓ} {A T : Type ℓ} where
  -- The slots after a write at the old position, from the next position on.
  written-slots :
      (n p : ℕ) (s : ℕ → Frame A T) (x : Frame A T) (e : A × T) (h : List (A × T))
      → p ≤ n
      → ((i : ℕ) → i ≤ n → Agrees (s (ring n p i)) (get_elem? h (n - i)))
      → Agrees x (some e)
      → (i : ℕ) → i ≤ n
      → Agrees
          (if ring n (ring n p 1) i == p then x else s (ring n (ring n p 1) i))
          (get_elem? (e ∷ h) (n - i))
  written-slots n p s x e h k w a i l = elim (ℕ_discrete i n) [
    | yes here ↦
        (let at_end : ring n (ring n p 1) i ≡ p = rw here (ring-last n p k) in
          let newest : n - i ≡ 0 = omega arith in rw (at_end, same_number p, newest) a)
    | no before ↦
        (let next = ring-next n p i in
          let apart : (ring n p (i + 1) == p) ≡ false = differ (ring n p (i + 1)) p (λ c.
            ring-other n p 0 (i + 1) k (omega arith) (omega arith) (ring-here n p k ∙ sym c)) in
          let older : n - i ≡ suc (n - (i + 1)) = omega arith in
          rw (next, apart, older) (w (i + 1) (omega arith)))
  ]

  -- A frame that is put in joins the history.
  pub push-Delays :
      (n : ℕ) (t : T) (f : Frame A T) (q : Queue A T) (h : List (A × T))
      → Delays n q h
      → Delays n (push_frame s_ok s_ok t f q).0 ((f.attributes, t) ∷ h)
  unfolding push_frame set_slot Agrees
  push-Delays n t f q h d = record {
    size = d.size;
    pos = rw d.size (omega (arith, ring-lt n q.pos 1));
    slots =
        rw (d.size, stored (q.slots q.pos).texture t)
          (written-slots n q.pos q.slots (record { attributes = f.attributes; texture = some t })
            (f.attributes, t) h d.pos d.slots (refl, refl));
  }

  returned :
      (source f : Frame A T) (e : Option (A × T))
      → Agrees source e
      → return_frame s_ok source source.texture f ≡ outcome f e
  unfolding return_frame get_frame Agrees
  returned source f none a = rw a
  returned source f (some (b, t)) (a, c) = rw (a, c)

  -- The caller gets the frame that was put in n calls before, if there is one.
  pub push-outcome :
      (n : ℕ) (t : T) (f : Frame A T) (q : Queue A T) (h : List (A × T))
      → 0 < n
      → Delays n q h
      → ((push_frame s_ok s_ok t f q).1, (push_frame s_ok s_ok t f q).2)
        ≡ outcome f (get_elem? h (n - 1))
  unfolding push_frame set_slot
  push-outcome n t f q h k d =
      let apart : (ring n q.pos 1 == q.pos) ≡ false = differ (ring n q.pos 1) q.pos (λ c.
        ring-other n q.pos 0 1 d.pos (omega arith) (omega arith)
          (ring-here n q.pos d.pos ∙ sym c)) in
      rw (d.size, apart)
        (returned (q.slots (ring n q.pos 1)) f (get_elem? h (n - 1)) (d.slots 1 (omega arith)))

  -- The queue after the frames of `h` have been put in, the newest of which is the first.
  unfoldable pub run : Frame A T → List (A × T) → Queue A T → Queue A T
  run f [] q = q
  run f ((a, t) ∷ h) q = (push_frame s_ok s_ok t (record f { attributes = a }) (run f h q)).0

  pub clear-Delays : (q : Queue A T) → q.size ≤ 4 → Delays q.size (clear_frame_queue q) []
  unfolding clear_frame_queue Agrees
  clear-Delays q h = record {
    size = refl;
    pos = omega arith;
    slots = λ i l.
        (let small : (ltb (ring q.size 0 i) 5) ≡ true =
            below (ring q.size 0 i) (omega (arith, ring-lt q.size 0 i)) in
          rw small);
  }

  pub run-Delays :
      (n : ℕ) (f : Frame A T) (h : List (A × T)) (q : Queue A T)
      → Delays n q []
      → Delays n (run f h q) h
  unfolding run
  run-Delays n f [] q d = d
  run-Delays n f ((a, t) ∷ h) q d =
      push-Delays n t (record f { attributes = a }) (run f h q) h (run-Delays n f h q d)

  -- After any frames have been put into the cleared queue of n > 0 frames, n being 4 at most, a
  -- further one is answered by the frame put in n calls before, with its own attributes, or by
  -- S_FALSE if there is none, provided Direct3D creates and maps the textures.
  pub push_frame-delays :
      (t : T) (f : Frame A T) (h : List (A × T)) (q : Queue A T)
      → 0 < q.size
      → q.size ≤ 4
      → (
        (push_frame s_ok s_ok t f (run f h (clear_frame_queue q))).1,
        (push_frame s_ok s_ok t f (run f h (clear_frame_queue q))).2,
      )
        ≡ outcome f (get_elem? h (q.size - 1))
  push_frame-delays t f h q k l =
      push-outcome q.size t f (run f h (clear_frame_queue q)) h k
        (run-Delays q.size f h (clear_frame_queue q) (clear-Delays q l))
