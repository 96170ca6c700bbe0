-- ===== src/Types.antt =====
-- The types that the components share: result codes, pixel formats, deinterlace methods and the
-- frame flags of src/FrameBuffer.h and src/ITVTestVideoDecoder.h.
use Prim.Native.Nat.{bit_and}
use mathlib.Core.Bool.{not}
use tvtest_video_decoder.Base.{ℕ, ◌+◌, Bool, true, false, ◌==◌, ◌≡◌, refl, arith}

-- HRESULT: the codes that the decoder itself returns, and `e_other` for one that Windows returns.
pub data Hresult : Type 0 where
  s_ok s_false : Hresult
  e_invalidarg e_outofmemory e_unexpected e_pointer e_fail e_notimpl : Hresult
  e_prop_id_unsupported vfw_e_type_not_accepted e_old_win_version : Hresult
  e_other : ℕ → Hresult

-- FAILED(hr)
abbrev pub failed : Hresult → Bool
failed s_ok = false
failed s_false = false
failed _ = true

pub data DeinterlaceMethod : Type 0 where
  weave blend bob ela yadif yadif_bob : DeinterlaceMethod

-- The value of the enumerator.
abbrev pub method_index : DeinterlaceMethod → ℕ
method_index weave = 0
method_index blend = 1
method_index bob = 2
method_index ela = 3
method_index yadif = 4
method_index yadif_bob = 5

abbrev pub same_method : DeinterlaceMethod → DeinterlaceMethod → Bool
same_method a b = method_index a == method_index b

pub same_method-eq : (a b : DeinterlaceMethod) → same_method a b ≡ true → a ≡ b
same_method-eq weave b h = ground arith
same_method-eq blend b h = ground arith
same_method-eq bob b h = ground arith
same_method-eq ela b h = ground arith
same_method-eq yadif b h = ground arith
same_method-eq yadif_bob b h = ground arith

pub same_method_refl : (a : DeinterlaceMethod) → same_method a a ≡ true
same_method_refl weave = refl
same_method_refl blend = refl
same_method_refl bob = refl
same_method_refl ela = refl
same_method_refl yadif = refl
same_method_refl yadif_bob = refl

-- `v & mask`, as a test.
unfoldable pub has_flag : ℕ → ℕ → Bool
has_flag v mask = not (bit_and v mask == 0)

abbrev pub flag_top_field_first : ℕ
flag_top_field_first = 0x01

abbrev pub flag_repeat_first_field : ℕ
flag_repeat_first_field = 0x02

abbrev pub flag_progressive_frame : ℕ
flag_progressive_frame = 0x04

abbrev pub flag_progressive_sequence : ℕ
flag_progressive_sequence = 0x08

abbrev pub flag_i_frame : ℕ
flag_i_frame = 0x10

abbrev pub flag_p_frame : ℕ
flag_p_frame = 0x20

abbrev pub flag_b_frame : ℕ
flag_b_frame = 0x40

abbrev pub flag_sample_data : ℕ
flag_sample_data = 0x80

-- The GUIDs of the pixel formats; `other` is any other GUID.
pub data Subtype : Type 0 where
  guid_null i420 iyuv yv12 nv12 rgb24 rgb32 : Subtype
  other : ℕ → Subtype

abbrev pub subtype_index : Subtype → ℕ
subtype_index guid_null = 0
subtype_index i420 = 1
subtype_index iyuv = 2
subtype_index yv12 = 3
subtype_index nv12 = 4
subtype_index rgb24 = 5
subtype_index rgb32 = 6
subtype_index (other n) = n + 7

abbrev pub same_subtype : Subtype → Subtype → Bool
same_subtype a b = subtype_index a == subtype_index b

pub same_subtype-eq : (a b : Subtype) → same_subtype a b ≡ true → a ≡ b
same_subtype-eq guid_null b h = ground arith
same_subtype-eq i420 b h = ground arith
same_subtype-eq iyuv b h = ground arith
same_subtype-eq yv12 b h = ground arith
same_subtype-eq nv12 b h = ground arith
same_subtype-eq rgb24 b h = ground arith
same_subtype-eq rgb32 b h = ground arith
same_subtype-eq (other n) b h = ground arith
