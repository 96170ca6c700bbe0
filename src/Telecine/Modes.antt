-- ===== src/Telecine/Modes.antt =====
-- When SetFrameStatus of src/TVTestVideoDecoder.cpp enters and leaves film and telecine mode, and
-- which deinterlacer it picks.
use mathlib.Core.Bool.{not}
use tvtest_video_decoder.Base.{
  ℕ, ◌+◌, ◌<◌, ◌≤◌, ◌≡◌, ◌⊎◌, ◌≢◌, refl, arith, Bool, true, false, ◌&&◌, ◌||◌, List, [], ◌∷◌, some,
  sym, ◌∙◌, if◌then◌else◌, length, get_elem?, inl, inr, Bool-cases,
}
use tvtest_video_decoder.Types.{
  DeinterlaceMethod, weave, blend, same_method, same_method-eq, has_flag, flag_repeat_first_field,
  flag_progressive_frame, flag_progressive_sequence,
}
use tvtest_video_decoder.Telecine.{
  Detection, Settings, Status, update_film, detect, choose, set_frame_status,
}
use tvtest_video_decoder.Telecine.History.{recent_films, last_film, in_telecine, last_film-quiet}
use tvtest_video_decoder.Telecine.Refinement.{Represents, detect-Represents}

enter_history :
    (f : Bool) (h : List Bool)
    → in_telecine h ≡ false
    → in_telecine (f ∷ h) ≡ true
    → (f ≡ true) × (10 ≤ recent_films 31 (f ∷ h))
unfolding in_telecine
enter_history f h off on = ground arith

leave_history :
    (f : Bool) (h : List Bool)
    → in_telecine h ≡ true
    → in_telecine (f ∷ h) ≡ false
    → last_film (f ∷ h) + 180 ≤ length h
unfolding in_telecine
leave_history f h on off = ground arith

-- Telecine mode is entered only at a film frame, and only if at least 10 of the last 31 frames,
-- this one included, were film.
pub detect-enters :
    (old new : ℕ) (d : Detection) (h : List Bool)
    → Represents d h
    → d.telecine_mode ≡ false
    → (detect old new d).telecine_mode ≡ true
    → ((detect old new d).film ≡ true) × (10 ≤ recent_films 31 ((detect old new d).film ∷ h))
unfolding detect
detect-enters old new d h r off on =
    enter_history (update_film old new d.film) h (sym r.mode ∙ off)
      (sym (detect-Represents old new d h r).mode ∙ on)

-- Telecine mode is left only when none of the last 180 frames, this one included, was film.
pub detect-leaves :
    (old new : ℕ) (d : Detection) (h : List Bool)
    → Represents d h
    → d.telecine_mode ≡ true
    → (detect old new d).telecine_mode ≡ false
    → (i : ℕ) → i < 180
    → get_elem? ((detect old new d).film ∷ h) i ≡ some false
unfolding detect
detect-leaves old new d h r on off i k =
    let quiet =
      leave_history (update_film old new d.film) h (sym r.mode ∙ on)
        (sym (detect-Represents old new d h r).mode ∙ off) in
    last_film-quiet (update_film old new d.film ∷ h) i (omega (arith, quiet))

-- The film flag changes only at an interlaced-sequence frame that does not follow a repeated field:
-- it rises at a progressive frame that repeats a field, and falls at one that repeats none.
pub update_film-changes :
    (old new : ℕ) (film : Bool)
    → update_film old new film ≢ film
    → (has_flag new flag_progressive_sequence ≡ false)
      × (has_flag old flag_repeat_first_field ≡ false)
      × (has_flag new flag_repeat_first_field ≡ update_film old new film)
      × ((not (update_film old new film) || has_flag new flag_progressive_frame) ≡ true)
unfolding update_film
update_film-changes old new true ne = ground arith
update_film-changes old new false ne = ground arith

-- With telecine and progressive adaptation off, and progressive output, the configured method is
-- used for every frame, and interlaced output always weaves.
pub choose-configured :
    (c : Settings) (d : Detection) (new : ℕ)
    → c.adapt_progressive ≡ false
    → c.adapt_telecine ≡ false
    → choose c d new ≡ (if c.output_interlaced then weave else c.deinterlace_method)
unfolding choose
choose-configured c d new p t = ground arith

-- In telecine mode that is adapted to, the configured method gives way to weaving and blending.
-- Film frames are woven. Other frames are blended, but woven if the output is interlaced, if
-- weaving is configured, or if the sequence is progressive and that is adapted to.
pub choose-telecine :
    (c : Settings) (d : Detection) (new : ℕ)
    → d.telecine_mode ≡ true
    → c.adapt_telecine ≡ true
    → choose c d new ≡ (
        if d.film
          || c.output_interlaced
          || same_method c.deinterlace_method weave
          || has_flag new flag_progressive_sequence && c.adapt_progressive
        then weave
        else blend)
unfolding choose
choose-telecine c d new m t = ground (arith, same_method-eq c.deinterlace_method weave)

-- The deinterlacer in use is the one initialised last, if any was since the start.
abbrev pub IsInitialized : Status → Type 0
IsInitialized s =
    (s.initialized ≡ []) ⊎ ((r : List DeinterlaceMethod) × (s.initialized ≡ s.deinterlace ∷ r))

switch :
    (m cur : DeinterlaceMethod) (l : List DeinterlaceMethod)
    → (l ≡ []) ⊎ ((r : List DeinterlaceMethod) × (l ≡ cur ∷ r))
    → (same_method m cur ≡ true) ⊎ (same_method m cur ≡ false)
    → let l' = if same_method m cur then l else m ∷ l in
      ((l' ≡ []) ⊎ ((r : List DeinterlaceMethod) × (l' ≡ m ∷ r)))
      × (same_method m cur ≡ true → l' ≡ l)
switch m cur l (inl e) (inl t) = rw t (inl e, λ _. refl)
switch m cur l (inr (r, e)) (inl t) = rw (t, same_method-eq m cur t) (inr (r, e), λ _. refl)
switch m cur l v (inr f) = rw f (inr (l, refl), λ t. cc)

-- Each frame keeps the deinterlacer in use initialised: one that a frame switches to is
-- initialised then, and a frame that keeps the method initialises none.
pub set_frame_status-IsInitialized :
    (c : Settings) (new : ℕ) (s : Status)
    → IsInitialized s
    → IsInitialized (set_frame_status c (some new) s)
      × (same_method (set_frame_status c (some new) s).deinterlace s.deinterlace ≡ true
          → (set_frame_status c (some new) s).initialized ≡ s.initialized)
unfolding set_frame_status
set_frame_status-IsInitialized c new s v =
    let m = choose c (detect s.flags new s.detection) new in
    switch m s.deinterlace s.initialized v (Bool-cases (same_method m s.deinterlace))
