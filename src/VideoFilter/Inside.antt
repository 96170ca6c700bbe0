-- ===== src/VideoFilter/Inside.antt =====
-- CopySampleBuffer of src/BaseVideoFilter.cpp keeps within the picture that a sample has room for.
use tvtest_video_decoder.Base.{
  ℕ, ◌+◌, ◌*◌, ◌/◌, ◌%◌, ◌≤◌, ◌≡◌, refl, ◌∙◌, sym, subst, ap, arith, ◌||◌, Option, none, some, ◌==◌,
  if_elim, inl, inr, Option-cases,
}
use tvtest_video_decoder.Base.Int.{ℤ, pos, ◌≤ℤ◌}
use tvtest_video_decoder.Types.{Hresult, yv12, nv12, same_subtype}
use tvtest_video_decoder.Yadif.{Bytes}
use tvtest_video_decoder.Pixels.{copy_plane, interleave_rows, pick_rows, even_sizes}
use tvtest_video_decoder.Pixels.Ends.{copy_plane-behind, interleave_rows-behind, pick_rows-behind}
use tvtest_video_decoder.Pixels.Copies.{even_sizes-inv}
use tvtest_video_decoder.Pixels.Converter.{is_i420}
use tvtest_video_decoder.Pixels.Frames.{Frame}
use tvtest_video_decoder.VideoFilter.Copy.{
  is_planar, fourcc_nv12, chroma_offsets, put_planes, put_pairs, put_i420, put_nv12, in_order, kept,
  copy_sample_buffer,
}

four_quarters : (a b : ℕ) → (2 * a) * (2 * b) ≡ 4 * (b * a)
four_quarters a b = grind arith

-- The offsets leave room for a quarter of the luma plane before the end.
chroma_offsets-room :
    (c a b : ℕ)
    → (let o = chroma_offsets c (2 * a) (2 * b) in
        (o.0 + b * a ≤ 6 * (b * a)) × (o.1 + b * a ≤ 6 * (b * a)))
unfolding chroma_offsets
chroma_offsets-room c a b = ground (arith, four_quarters a b)

two_quarters : (a b : ℕ) → b * (2 * a) ≡ 2 * (b * a)
two_quarters a b = grind arith

-- The copies for a picture of `2 * b` rows and a row of `2 * a` bytes.
module _ (w a b : ℕ) (out y : Bytes) (i : ℕ) (fits : w ≤ 2 * a) (behind : 6 * (b * a) ≤ i) where
  luma-behind : (sp : ℕ) → copy_plane w (2 * b) out (2 * a) 0 y sp 0 i ≡ out i
  luma-behind sp =
      copy_plane-behind w (2 * b) out (2 * a) 0 y sp 0 i fits
        (omega (arith, two_quarters a (2 * b), four_quarters a b, two_quarters b a))

  planar-behind :
      (c sp sc : ℕ) (u v : Bytes)
      → (let o = chroma_offsets c (2 * a) (2 * b) in
          copy_plane
            (w / 2)
            b
            (copy_plane (w / 2) b (copy_plane w (2 * b) out (2 * a) 0 y sp 0) a o.0 u sc 0)
            a
            o.1
            v
            sc
            0
            i
          ≡ out i)
  planar-behind c sp sc u v =
      let o = chroma_offsets c (2 * a) (2 * b) in
      let room = chroma_offsets-room c a b in
      copy_plane-behind (w / 2) b _ a o.1 v sc 0 i (omega arith) (omega arith)
      ∙ copy_plane-behind (w / 2) b _ a o.0 u sc 0 i (omega arith) (omega arith)
      ∙ luma-behind sp

  picked-behind :
      (c sp : ℕ) (uv : Bytes)
      → (let o = chroma_offsets c (2 * a) (2 * b) in
          pick_rows
            (w / 2)
            b
            (pick_rows (w / 2) b (copy_plane w (2 * b) out (2 * a) 0 y sp 0) a o.0 uv sp 0)
            a
            o.1
            uv
            sp
            1
            i
          ≡ out i)
  picked-behind c sp uv =
      let o = chroma_offsets c (2 * a) (2 * b) in
      let room = chroma_offsets-room c a b in
      pick_rows-behind (w / 2) b _ a o.1 uv sp 1 i (omega arith) (omega arith)
      ∙ pick_rows-behind (w / 2) b _ a o.0 uv sp 0 i (omega arith) (omega arith)
      ∙ luma-behind sp

  interleaved-behind :
      (sp sc : ℕ) (u v : Bytes)
      → interleave_rows
          (w / 2)
          b
          (copy_plane w (2 * b) out (2 * a) 0 y sp 0)
          (2 * a)
          ((2 * a) * (2 * b))
          u
          v
          sc
          0
          i
        ≡ out i
  interleaved-behind sp sc u v =
      interleave_rows-behind (w / 2) b _ (2 * a) ((2 * a) * (2 * b)) u v sc 0 i (omega arith)
        (omega (arith, two_quarters a b, four_quarters a b))
      ∙ luma-behind sp

  copied-behind :
      (sp : ℕ) (uv : Bytes)
      → copy_plane w b
          (copy_plane w (2 * b) out (2 * a) 0 y sp 0)
          (2 * a)
          ((2 * a) * (2 * b))
          uv
          sp
          0
          i
        ≡ out i
  copied-behind sp uv =
      copy_plane-behind w b _ (2 * a) ((2 * a) * (2 * b)) uv sp 0 i fits
        (omega (arith, two_quarters a b, four_quarters a b))
      ∙ luma-behind sp

-- The sizes and the offset of a byte behind the picture.
module _ (c w a b : ℕ) (out : Bytes) (i : ℕ) (fits : w ≤ 2 * a) (behind : 6 * (b * a) ≤ i) where
  put_planes-behind :
      (sp sc : ℕ) (y u v : Option Bytes)
      → kept (put_planes c (2 * a) w (2 * b) sp sc y u v out) out i ≡ out i
  unfolding put_planes
  put_planes-behind sp sc (some y) (some u) (some v) =
      let half : 2 * a / 2 ≡ a = omega arith in
      let rows : 2 * b / 2 ≡ b = omega arith in
      rw (half, rows)
        (if_elim (λ (m : Bytes). m i ≡ out i) (is_planar c)
          (planar-behind w a b out y i fits behind c sp sc u v)
          (interleaved-behind w a b out y i fits behind sp sc u v))
  put_planes-behind sp sc (some y) (some u) none = refl
  put_planes-behind sp sc (some y) none v = refl
  put_planes-behind sp sc none u v = refl

  put_pairs-behind :
      (sp : ℕ) (y uv : Option Bytes)
      → kept (put_pairs c (2 * a) w (2 * b) sp y uv out) out i ≡ out i
  unfolding put_pairs
  put_pairs-behind sp (some y) (some uv) =
      let half : 2 * a / 2 ≡ a = omega arith in
      let rows : 2 * b / 2 ≡ b = omega arith in
      rw (half, rows)
        (if_elim (λ (m : Bytes). m i ≡ out i) (is_planar c)
          (picked-behind w a b out y i fits behind c sp uv)
          (copied-behind w a b out y i fits behind sp uv))
  put_pairs-behind sp (some y) none = refl
  put_pairs-behind sp none uv = refl

module _ (pitch : ℕ) (out : Bytes) (i : ℕ) (even : pitch % 2 ≡ 0) (width height : ℤ)
    (fits : width ≤ℤ pos pitch)
    (behind : (h : ℕ) → height ≡ pos h → pitch * h + pitch * h / 2 ≤ i) where
  -- What is left behind for every row of `2 * a` bytes and every `2 * b` rows is left behind.
  from_halves :
      (P : ℕ → ℕ → ℕ → Type 0)
      → ((w a b : ℕ) → w ≤ 2 * a → 6 * (b * a) ≤ i → P (2 * a) w (2 * b))
      → (w h : ℕ) → even_sizes width height ≡ some (w, h)
      → P pitch w h
  from_halves P base w h e =
      let s = even_sizes-inv width height w h e in
      let a = pitch / 2 in
      let b = h / 2 in
      let pitch_is : 2 * a ≡ pitch = omega arith in
      let h_is : 2 * b ≡ h = (let odd = s.3 in omega arith) in
      let room = behind h s.2 in
      let same : pitch * h ≡ 4 * (b * a) =
        ap (λ p. p * h) (sym pitch_is) ∙ ap (λ n. (2 * a) * n) (sym h_is) ∙ four_quarters a b in
      let fit : pos w ≤ℤ pos pitch = subst (λ z. z ≤ℤ pos pitch) s.0 fits in
      subst (λ p. P p w h) pitch_is
        (subst (λ n. P (2 * a) w n) h_is (base w a b (omega arith) (omega arith)))

  put_i420-behind :
      (c : ℕ) (f : Frame)
      → f.width ≡ width
      → f.height ≡ height
      → kept (put_i420 c pitch f out) out i ≡ out i
  unfolding put_i420
  put_i420-behind c f wide high =
      rw (wide, high)
        (elim (Option-cases (even_sizes width height)) [
          | inl e ↦ rw e
          | inr ((w, h), e) ↦ rw e (
              from_halves
                (λ p w h.
                  kept (put_planes c p w h f.pitch_y f.pitch_c f.y f.u f.v out) out i ≡ out i)
                (λ w a b le end.
                  put_planes-behind c w a b out i le end f.pitch_y f.pitch_c f.y f.u f.v)
                w h e)
        ])

  put_nv12-behind :
      (c : ℕ) (f : Frame)
      → f.width ≡ width
      → f.height ≡ height
      → kept (put_nv12 c pitch f out) out i ≡ out i
  unfolding put_nv12
  put_nv12-behind c f wide high =
      rw (wide, high)
        (elim (Option-cases (even_sizes width height)) [
          | inl e ↦ rw e
          | inr ((w, h), e) ↦ rw e (
              from_halves (λ p w h. kept (put_pairs c p w h f.pitch_y f.y f.u out) out i ≡ out i)
                (λ w a b le end. put_pairs-behind c w a b out i le end f.pitch_y f.y f.u) w h e)
        ])

in_order-sizes : (f : Frame) → ((in_order f).width ≡ f.width) × ((in_order f).height ≡ f.height)
unfolding in_order
in_order-sizes f =
    if_elim (λ (g : Frame). (g.width ≡ f.width) × (g.height ≡ f.height))
      (same_subtype f.subtype yv12) (refl, refl) (refl, refl)

-- CopySampleBuffer leaves every byte behind a picture of biWidth times the height of the frame and
-- half as much for the chroma as it was, for every format of the frame and of the sample, if
-- biWidth is even and not below the width.
pub copy_sample_buffer-inside :
    (pitch c : ℕ) (f : Frame) (out : Bytes) (i : ℕ)
    → pitch % 2 ≡ 0
    → f.width ≤ℤ pos pitch
    → ((h : ℕ) → f.height ≡ pos h → pitch * h + pitch * h / 2 ≤ i)
    → (copy_sample_buffer (some (pitch, c)) f out).0 i ≡ out i
unfolding copy_sample_buffer
copy_sample_buffer-inside pitch c f out i even fits behind =
    let s = in_order-sizes f in
    let left : (Bytes × Hresult) → Type 0 = λ r. r.0 i ≡ out i in
    if_elim left (is_planar c || c == fourcc_nv12)
      (if_elim left (is_i420 f.subtype || same_subtype f.subtype yv12)
        (put_i420-behind pitch out i even f.width f.height fits behind c (in_order f) s.0 s.1)
        (if_elim left (same_subtype f.subtype nv12)
          (put_nv12-behind pitch out i even f.width f.height fits behind c f refl refl) refl))
      refl
