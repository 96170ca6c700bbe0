-- ===== src/VideoFilter/Suits.antt =====
-- The media type that ReconnectOutput of src/BaseVideoFilter.cpp writes suits the frame.
use tvtest_video_decoder.Base.{
  ◌≡◌, refl, ◌∙◌, sym, ap, arith, Bool, true, false, if◌then◌else◌, inl, inr, Bool-cases,
}
use tvtest_video_decoder.Base.Int.{ℤ, pos, negsuc, same_ℤ, same_ℤ_iff, ◌≤ℤ◌, ltb_ℤ, abs, ◌-ℤ◌}
use tvtest_video_decoder.VideoFilter.{
  Dimensions, same_dimensions, Kind, video_info2, no_info, MediaType, is_video_info2, is_no_info,
  is_interlaced, get_avg_time_per_frame, Filter, Services, Request, time_differs, scan_differs,
  compression_differs, write_aspect, fourcc_dxva,
}
use tvtest_video_decoder.VideoFilter.Reconnect.{write_type, time_per_frame}

-- The type of the output suits a request.
pub record Suits (r : Request) (dxva : Bool) (t : MediaType) : Type 0 where
  pub time : time_differs r t ≡ false
  pub scan : scan_differs r t ≡ false
  pub compression : compression_differs dxva t ≡ false

-- The sizes are those of the request, and the type suits it.
pub record IsFitted (r : Request) (f : Filter) : Type 0 where
  pub dimensions : f.dimensions ≡ r.size
  pub media_dimensions : f.media_dimensions ≡ r.size
  pub suits : Suits r f.dxva_output f.output_type

same_ℤ_refl : (a : ℤ) → same_ℤ a a ≡ true
same_ℤ_refl a = (same_ℤ_iff a a).1 refl

pub same_dimensions_refl : (d : Dimensions) → same_dimensions d d ≡ true
unfolding same_dimensions
same_dimensions_refl d =
    rw (same_ℤ_refl d.width, same_ℤ_refl d.height, same_ℤ_refl d.aspect_x, same_ℤ_refl d.aspect_y)

abs_diff_self : (a : ℤ) → abs (a -ℤ a) ≡ pos 0
unfolding abs ◌-ℤ◌
abs_diff_self a = ground arith

at_least_one : (a : ℤ) → pos 0 ≤ℤ a → same_ℤ a (pos 0) ≡ false → ltb_ℤ a (pos 1) ≡ false
at_least_one (pos n) h e = ground arith
at_least_one (negsuc n) h e = absurd (omega arith)

time_differs-same :
    (r : Request) (t : MediaType)
    → pos 0 ≤ℤ r.avg_time_per_frame
    → is_no_info t ≡ false
    → (same_ℤ r.avg_time_per_frame (pos 0) ≡ false → t.avg_time_per_frame ≡ r.avg_time_per_frame)
    → time_differs r t ≡ false
unfolding time_differs
time_differs-same r t h k e = elim (Bool-cases (same_ℤ r.avg_time_per_frame (pos 0))) [
  | inl zero_time ↦ rw zero_time refl
  | inr given ↦
      let same : get_avg_time_per_frame t ≡ r.avg_time_per_frame =
        unfold get_avg_time_per_frame in
        rw (k, e given, at_least_one r.avg_time_per_frame h given) refl in
      rw (given, same, abs_diff_self r.avg_time_per_frame) refl
]

scan_differs-same :
    (r : Request) (t : MediaType)
    → (is_video_info2 t ≡ true → t.interlace_flags ≡ (if r.interlaced then 0x81 else 0))
    → scan_differs r t ≡ false
unfolding scan_differs is_interlaced
scan_differs-same r t e = elim (Bool-cases (is_video_info2 t)) [
  | inl two ↦ elim (Bool-cases r.interlaced) [
    | inl i ↦ let flags : t.interlace_flags ≡ 0x81 = e two ∙ rw i refl in rw (two, flags, i) refl
    | inr i ↦ let flags : t.interlace_flags ≡ 0 = e two ∙ rw i refl in rw (two, flags, i) refl
  ]
  | inr other ↦ rw other refl
]

compression_differs-same :
    (dxva : Bool) (t : MediaType)
    → (dxva ≡ true → t.compression ≡ fourcc_dxva)
    → compression_differs dxva t ≡ false
unfolding compression_differs
compression_differs-same true t e = rw (e refl) (ground arith)
compression_differs-same false t e = refl

write_aspect-kind : (r : Request) (t : MediaType) → (write_aspect r t).kind ≡ t.kind
unfolding write_aspect
write_aspect-kind r t = ground arith

write_aspect-scan :
    (r : Request) (t : MediaType)
    → is_video_info2 t ≡ true
    → (write_aspect r t).interlace_flags ≡ (if r.interlaced then 0x81 else 0)
unfolding write_aspect is_video_info2
write_aspect-scan r t h = ground arith

is_no_info-kind : (a b : MediaType) → a.kind ≡ b.kind → is_no_info a ≡ is_no_info b
unfolding is_no_info
is_no_info-kind a b e = ap (λ (k : Kind). elim k as (λ _. Bool) [ no_info ↦ true | _ ↦ false ]) e

is_video_info2-kind : (a b : MediaType) → a.kind ≡ b.kind → is_video_info2 a ≡ is_video_info2 b
unfolding is_video_info2
is_video_info2-kind a b e =
    ap (λ (k : Kind). elim k as (λ _. Bool) [ video_info2 ↦ true | _ ↦ false ]) e

-- A type suits like another that differs in the size of the bitmap alone.
pub Suits-width :
    (r : Request) (dxva : Bool) (t : MediaType) (w : ℤ)
    → Suits r dxva t
    → Suits r dxva (record t { width = w })
unfolding time_differs scan_differs compression_differs is_interlaced is_video_info2 is_no_info
    get_avg_time_per_frame
Suits-width r dxva t w h = record { time = h.time; scan = h.scan; compression = h.compression }

module _ {S : Type 0} (s : Services S) (r : Request) (h : pos 0 ≤ℤ r.avg_time_per_frame) where
  pub write_type-Suits :
      (f : Filter)
      → is_no_info f.output_type ≡ false
      → Suits r f.dxva_output (write_type s r (time_per_frame r f) f.dxva_output f.output_type)
  unfolding write_type time_per_frame
  write_type-Suits f known =
      let t = f.output_type in
      let u = write_type s r (time_per_frame r f) f.dxva_output t in
      let kind : u.kind ≡ t.kind = write_aspect-kind r t in
      record {
        time = time_differs-same r u h (is_no_info-kind u t kind ∙ known) (λ given. rw given refl);
        scan =
            scan_differs-same r u
              (λ two. write_aspect-scan r t (sym (is_video_info2-kind u t kind) ∙ two));
        compression = compression_differs-same f.dxva_output u (λ on. rw on refl);
      }
