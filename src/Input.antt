-- ===== src/Input.antt =====
-- The input side of src/TVTestVideoDecoder.cpp: CheckInputType, the property set of
-- CMpeg2DecoderInputPin, and AlterQuality.
pub mod StartCode
pub mod Rates
use Prim.Native.Nat.{bit_and}
use mathlib.Core.Bool.{not}
use tvtest_video_decoder.Base.{
  ℕ, ◌+◌, ◌-◌, ◌*◌, ◌/◌, ◌%◌, ◌^◌, Bool, true, false, ◌&&◌, ◌||◌, List, [], ◌∷◌, Option, none, some,
  ◌==◌, leb, ltb, if◌then◌else◌,
}
use tvtest_video_decoder.Base.Int.{ℤ, pos, negsuc, ltb_ℤ, same_ℤ}
use tvtest_video_decoder.Types.{Hresult, s_ok, vfw_e_type_not_accepted, e_prop_id_unsupported}
use tvtest_video_decoder.Delivery.{RateChange}

-- What the search for the sequence extension finds: it ends without an objection, it finds a chroma
-- format other than 4:2:0, or it reads past the end of the header.
pub data Verdict : Type 0 where
  accepts rejects overruns : Verdict

-- `p[1] & 0x06`, `p` being behind the start code.
unfoldable pub chroma_verdict : List ℕ → Verdict
chroma_verdict (first ∷ c ∷ rest) = if leb 2 (bit_and c 6 / 2) then rejects else accepts
chroma_verdict _ = overruns

-- The loop with the bytes that are left; `sync` is a DWORD.
unfoldable pub scan : ℕ → List ℕ → Verdict
scan sync [] = accepts
scan sync (b ∷ bytes) =
    let next = (sync * 256 + b) % 2 ^ 32 in
    let rest = scan next bytes in
    if (next / 256 == 1) && (next % 256 == 0xb5) then chroma_verdict bytes else rest

-- The sequence header of the format block, from its size of four bytes on.
unfoldable pub check_header : List ℕ → Verdict
check_header (a ∷ b ∷ c ∷ d ∷ bytes) =
    if a + b * 256 + c * 65536 == 65536 then scan 0xffffffff (a ∷ b ∷ c ∷ d ∷ bytes) else rejects
check_header _ = accepts

-- The GUIDs that the test knows.
pub data MajorType : Type 0 where
  mpeg2_pack mpeg2_pes video other_major : MajorType

pub data InputSubtype : Type 0 where
  mpeg2_video mpg2 other_subtype : InputSubtype

unfoldable pub is_type_known : MajorType → InputSubtype → Bool
is_type_known mpeg2_pack mpeg2_video = true
is_type_known mpeg2_pes mpeg2_video = true
is_type_known video mpeg2_video = true
is_type_known video mpg2 = true
is_type_known _ _ = false

unfoldable pub header_verdict : Option (List ℕ) → Verdict
header_verdict none = accepts
header_verdict (some bytes) = check_header bytes

unfoldable pub decide : Bool → Verdict → Option Hresult
decide known accepts = some (if known then s_ok else vfw_e_type_not_accepted)
decide known rejects = some vfw_e_type_not_accepted
decide known overruns = none

-- `none` for a read past the end of the header; `header` is that of an MPEG2VIDEOINFO.
unfoldable pub check_input_type : Option (List ℕ) → MajorType → InputSubtype → Option Hresult
check_input_type header major subtype = decide (is_type_known major subtype) (header_verdict header)

-- The properties of AM_KSPROPSETID_TSRateChange.
pub data Property : Type 0 where
  simple_rate_change max_full_data_rate use_rate_version : Property
  query_full_frame_rate query_last_rate_seg_pts correct_ts : Property
  other_property : ℕ → Property

-- A property with the data that Set reads for it.
pub data Setting : Type 0 where
  set_rate : RateChange → Setting
  set_version : ℕ → Setting
  set_correct_ts : ℤ → Setting
  set_other : Property → Setting

pub record Pin : Type 0 where
  pub correct_ts : ℤ
  pub rate_change : RateChange

-- The constructor.
unfoldable pub new_pin : Pin
new_pin = record {
  correct_ts = pos 0;
  rate_change = record { rate = pos 10000; start_time = negsuc (2 ^ 63 - 1) };
}

-- Set for the property set of rate changes.
unfoldable pub set_property : Setting → Pin → Pin × Hresult
set_property (set_rate rc) p =
    if same_ℤ p.correct_ts (pos 0)
    then (p, e_prop_id_unsupported)
    else (record p { rate_change = rc }, s_ok)
set_property (set_version v) p = (p, if ltb 0x0101 v then e_prop_id_unsupported else s_ok)
set_property (set_correct_ts n) p = (record p { correct_ts = n }, s_ok)
set_property (set_other q) p = (p, e_prop_id_unsupported)

-- Get: the numbers that it writes, `none` for E_PROP_ID_UNSUPPORTED.
unfoldable pub get_property : Property → Option (List ℕ)
get_property max_full_data_rate = some (8 * 10000 ∷ [])
get_property query_full_frame_rate = some (8 * 10000 ∷ 8 * 10000 ∷ [])
get_property _ = none

-- QuerySupported: whether it reports KSPROPERTY_SUPPORT_GET and KSPROPERTY_SUPPORT_SET.
unfoldable pub query_supported : Property → Option (Bool × Bool)
query_supported simple_rate_change = some (true, true)
query_supported max_full_data_rate = some (true, false)
query_supported use_rate_version = some (false, true)
query_supported query_full_frame_rate = some (true, false)
query_supported query_last_rate_seg_pts = some (true, false)
query_supported correct_ts = some (false, true)
query_supported (other_property n) = none

-- m_fDropFrames, from the lateness that AlterQuality is told.
unfoldable pub alter_quality : ℤ → Bool → Bool
alter_quality late drop =
    if ltb_ℤ (pos (300 * 10000)) late then true else if ltb_ℤ (pos 0) late then drop else false
