-- ===== src/Options/Registry/RoundTrip.antt =====
-- What the registry does to the options of src/TVTestVideoDecoder.cpp: loading keeps them in range, and
-- brings back what was saved.
use tvtest_video_decoder.Base.{
  ℕ, ◌≡◌, ◌≢◌, ◌∙◌, arith, Bool, true, false, ◌||◌, ℕ_discrete, List, [], ◌∷◌, Option, none, some,
  ◌==◌, ◌⊎◌, inl, inr,
}
use tvtest_video_decoder.Base.Int.{ℤ, to_word, of_word, of_word-to_word}
use tvtest_video_decoder.Options.{
  Options, Key, assign, value_of, set_enable_deinterlace, set_deinterlace_method,
  set_adapt_progressive, set_adapt_telecine, set_interlaced_flag, set_brightness, set_contrast,
  set_hue, set_saturation, set_num_threads, set_enable_dxva2, set_enable_d3d11,
  set_num_queue_frames, key_enable_deinterlace, key_deinterlace_method, key_adapt_progressive,
  key_adapt_telecine, key_interlaced_flag, key_brightness, key_contrast, key_hue, key_saturation,
  key_num_threads, key_enable_dxva2, key_enable_d3d11, key_num_queue_frames,
}
use tvtest_video_decoder.Options.Range.{IsInRange, assign-IsInRange}
use tvtest_video_decoder.Options.Registry.{
  all_keys, key_index, Registry, load_value, load_keys, load_options, write_dword, save_keys,
  save_options,
}

load_value-IsInRange :
    (windows8 : Bool) (k : Key) (w : Option ℕ) (o : Options)
    → IsInRange o
    → IsInRange (load_value windows8 k w o)
unfolding load_value
load_value-IsInRange w k none o v = v
load_value-IsInRange w k (some x) o v = assign-IsInRange w k (of_word x) o v

load_keys-IsInRange :
    (windows8 : Bool) (ks : List Key) (r : Registry) (o : Options)
    → IsInRange o
    → IsInRange (load_keys windows8 ks r o)
unfolding load_keys
load_keys-IsInRange w [] r o v = v
load_keys-IsInRange w (k ∷ ks) r o v =
    load_keys-IsInRange w ks r (load_value w k (r k) o) (load_value-IsInRange w k (r k) o v)

-- Whatever the registry holds, and whether or not it can be opened, options in range stay in range.
pub load_options-IsInRange :
    (windows8 local : Bool) (error : Option ℕ) (r : Registry) (o : Options)
    → IsInRange o
    → IsInRange (load_options windows8 local error r o).0
unfolding load_options
load_options-IsInRange w true error r o v = v
load_options-IsInRange w false (some code) r o v = v
load_options-IsInRange w false none r o v = load_keys-IsInRange w all_keys r o v

-- An assignment leaves the other options alone.
pub assign-others :
    (windows8 : Bool) (k j : Key) (x : ℤ) (o : Options)
    → key_index j ≢ key_index k
    → value_of j (assign windows8 k x o).0 ≡ value_of j o
unfolding assign
assign-others w key_enable_deinterlace j x o n =
    unfold set_enable_deinterlace value_of in ground arith
assign-others w key_deinterlace_method j x o n =
    unfold set_deinterlace_method value_of in ground arith
assign-others w key_adapt_progressive j x o n =
    unfold set_adapt_progressive value_of in ground arith
assign-others w key_adapt_telecine j x o n = unfold set_adapt_telecine value_of in ground arith
assign-others w key_interlaced_flag j x o n = unfold set_interlaced_flag value_of in ground arith
assign-others w key_brightness j x o n = unfold set_brightness value_of in ground arith
assign-others w key_contrast j x o n = unfold set_contrast value_of in ground arith
assign-others w key_hue j x o n = unfold set_hue value_of in ground arith
assign-others w key_saturation j x o n = unfold set_saturation value_of in ground arith
assign-others w key_num_threads j x o n = unfold set_num_threads value_of in ground arith
assign-others w key_enable_dxva2 j x o n = unfold set_enable_dxva2 value_of in ground arith
assign-others w key_enable_d3d11 j x o n = unfold set_enable_d3d11 value_of in ground arith
assign-others w key_num_queue_frames j x o n = unfold set_num_queue_frames value_of in ground arith

key_index_inj : (j k : Key) → key_index j ≡ key_index k → j ≡ k
key_index_inj key_enable_deinterlace j e = ground arith
key_index_inj key_deinterlace_method j e = ground arith
key_index_inj key_adapt_progressive j e = ground arith
key_index_inj key_adapt_telecine j e = ground arith
key_index_inj key_interlaced_flag j e = ground arith
key_index_inj key_brightness j e = ground arith
key_index_inj key_contrast j e = ground arith
key_index_inj key_hue j e = ground arith
key_index_inj key_saturation j e = ground arith
key_index_inj key_num_threads j e = ground arith
key_index_inj key_enable_dxva2 j e = ground arith
key_index_inj key_enable_d3d11 j e = ground arith
key_index_inj key_num_queue_frames j e = ground arith

-- The number of an option in range is within that option's limits, so assigning it succeeds.
pub assign-own :
    (k : Key) (s o : Options)
    → IsInRange s
    → value_of k (assign true k (value_of k s) o).0 ≡ value_of k s
unfolding assign value_of
assign-own key_enable_deinterlace s o v = unfold set_enable_deinterlace in ground arith
assign-own key_deinterlace_method s o v = unfold set_deinterlace_method in ground arith
assign-own key_adapt_progressive s o v = unfold set_adapt_progressive in ground arith
assign-own key_adapt_telecine s o v = unfold set_adapt_telecine in ground arith
assign-own key_interlaced_flag s o v = unfold set_interlaced_flag in ground arith
assign-own key_brightness s o v = unfold set_brightness in ground arith
assign-own key_contrast s o v = unfold set_contrast in ground arith
assign-own key_hue s o v = unfold set_hue in ground arith
assign-own key_saturation s o v = unfold set_saturation in ground arith
assign-own key_num_threads s o v = unfold set_num_threads in ground arith
assign-own key_enable_dxva2 s o v = unfold set_enable_dxva2 in ground arith
assign-own key_enable_d3d11 s o v = unfold set_enable_d3d11 in ground arith
assign-own key_num_queue_frames s o v = unfold set_num_queue_frames to_word in ground arith

value_of-word :
    (k : Key) (s : Options) → IsInRange s → of_word (to_word (value_of k s)) ≡ value_of k s
unfolding value_of
value_of-word key_enable_deinterlace s v =
    ground (arith, of_word-to_word (value_of key_enable_deinterlace s))
value_of-word key_deinterlace_method s v =
    ground (arith, of_word-to_word (value_of key_deinterlace_method s))
value_of-word key_adapt_progressive s v =
    ground (arith, of_word-to_word (value_of key_adapt_progressive s))
value_of-word key_adapt_telecine s v =
    ground (arith, of_word-to_word (value_of key_adapt_telecine s))
value_of-word key_interlaced_flag s v =
    ground (arith, of_word-to_word (value_of key_interlaced_flag s))
value_of-word key_brightness s v = ground (arith, of_word-to_word (value_of key_brightness s))
value_of-word key_contrast s v = ground (arith, of_word-to_word (value_of key_contrast s))
value_of-word key_hue s v = ground (arith, of_word-to_word (value_of key_hue s))
value_of-word key_saturation s v = ground (arith, of_word-to_word (value_of key_saturation s))
value_of-word key_num_threads s v = ground (arith, of_word-to_word (value_of key_num_threads s))
value_of-word key_enable_dxva2 s v = ground (arith, of_word-to_word (value_of key_enable_dxva2 s))
value_of-word key_enable_d3d11 s v = ground (arith, of_word-to_word (value_of key_enable_d3d11 s))
value_of-word key_num_queue_frames s v =
    ground (arith, of_word-to_word (value_of key_num_queue_frames s))

abbrev listed : Key → List Key → Bool
listed k [] = false
listed k (j ∷ ks) = (key_index k == key_index j) || listed k ks

listed_all : (k : Key) → listed k all_keys ≡ true
listed_all k = ground arith

listed_split :
    (k j : Key) (ks : List Key) (P Q : Type 0)
    → (listed k (j ∷ ks) ≡ true) ⊎ P
    → ((key_index k ≡ key_index j) ⊎ P → Q)
    → (listed k ks ≡ true) ⊎ Q
listed_split k j ks P Q h step = elim (ℕ_discrete (key_index k) (key_index j)) [
  | yes e ↦ inr (step (inl e))
  | no n ↦ elim h [ inl e ↦ inl (ground arith) | inr p ↦ inr (step (inr p)) ]
]

-- One step of the loading: the option that is read gets its number, the others keep theirs.
load_value-step :
    (j k : Key) (s o : Options)
    → IsInRange s
    → (key_index k ≡ key_index j) ⊎ (value_of k o ≡ value_of k s)
    → value_of k (load_value true j (some (to_word (value_of j s))) o) ≡ value_of k s
unfolding load_value
load_value-step j k s o v h = elim (ℕ_discrete (key_index k) (key_index j)) [
  | yes e ↦ rw (load_value, value_of-word j s v, key_index_inj k j e) (assign-own j s o v)
  | no n ↦
      rw (load_value, value_of-word j s v)
        (assign-others true j k (value_of j s) o n ∙ elim h [ inl e ↦ absurd (n e) | inr e ↦ e ])
]

load_keys-restores :
    (ks : List Key) (k : Key) (r : Registry) (s o : Options)
    → IsInRange s
    → ((j : Key) → r j ≡ some (to_word (value_of j s)))
    → (listed k ks ≡ true) ⊎ (value_of k o ≡ value_of k s)
    → value_of k (load_keys true ks r o) ≡ value_of k s
unfolding load_keys
load_keys-restores [] k r s o v f (inl e) = absurd (ground arith)
load_keys-restores [] k r s o v f (inr e) = e
load_keys-restores (j ∷ ks) k r s o v f h = rw (f j) (
    load_keys-restores ks k r s (load_value true j (some (to_word (value_of j s))) o) v f (
      listed_split k j ks (value_of k o ≡ value_of k s)
        (value_of k (load_value true j (some (to_word (value_of j s))) o) ≡ value_of k s) h
        (load_value-step j k s o v)))

write_dword-step :
    (written : Bool) (j k : Key) (o : Options) (r : Registry)
    → written ≡ true
    → (key_index k ≡ key_index j) ⊎ (r k ≡ some (to_word (value_of k o)))
    → write_dword written j (to_word (value_of j o)) r k ≡ some (to_word (value_of k o))
unfolding write_dword
write_dword-step written j k o r t h = elim (ℕ_discrete (key_index k) (key_index j)) [
  | yes e ↦ rw (t, key_index_inj k j e) (ground arith)
  | no n ↦ ground arith
]

save_keys-saved :
    (written : Key → Bool) (ks : List Key) (k : Key) (o : Options) (r : Registry)
    → ((j : Key) → written j ≡ true)
    → (listed k ks ≡ true) ⊎ (r k ≡ some (to_word (value_of k o)))
    → save_keys written ks o r k ≡ some (to_word (value_of k o))
unfolding save_keys
save_keys-saved w [] k o r t (inl e) = absurd (ground arith)
save_keys-saved w [] k o r t (inr e) = e
save_keys-saved w (j ∷ ks) k o r t h =
    save_keys-saved w ks k o (write_dword (w j) j (to_word (value_of j o)) r) t (
      listed_split k j ks (r k ≡ some (to_word (value_of k o)))
        (write_dword (w j) j (to_word (value_of j o)) r k ≡ some (to_word (value_of k o))) h
        (write_dword-step (w j) j k o r (t j)))

-- Every option that is in range and saved has its value again when it is loaded, into a decoder
-- that had any other options, if Windows writes every value, opens the key both times and is
-- Windows 8 or later.
pub save_options-load_options :
    (written : Key → Bool) (k : Key) (r : Registry) (s o : Options)
    → IsInRange s
    → ((j : Key) → written j ≡ true)
    → value_of k (load_options true false none (save_options written false none s r).0 o).0
      ≡ value_of k s
unfolding load_options save_options
save_options-load_options written k r s o v t =
    load_keys-restores all_keys k (save_keys written all_keys s r) s o v
      (λ j. save_keys-saved written all_keys j s r t (inl (listed_all j))) (inl (listed_all k))
