-- ===== src/Capture/References.antt =====
-- The references that CFrameCapture of src/FrameCapture.cpp holds.
use tvtest_video_decoder.Base.{
  ℕ, ◌+◌, ◌≡◌, arith, List, [], ◌∷◌, ◌++◌, Option, none, some, ◌==◌, if◌then◌else◌,
}
use tvtest_video_decoder.Types.{Subtype}
use tvtest_video_decoder.Capture.{
  Capture, Reference, add_ref, release, set_frame_capture, unset_frame_capture, keep_object,
  safe_release,
}

-- The calls of the owner.
pub data Call : Type 0 where
  set : Option ℕ → Subtype → Call
  unset : Call

pub call : Call → Capture → Capture × List Reference
call (set object subtype) c =
    let (c', _, references) = set_frame_capture object subtype c in (c', references)
call unset c = unset_frame_capture c

pub calls : List Call → Capture → Capture × List Reference
calls [] c = (c, [])
calls (k ∷ ks) c =
    let (c', first) = call k c in let (c'', rest) = calls ks c' in (c'', first ++ rest)

-- How often the object `p` is added to and released.
pub added : ℕ → List Reference → ℕ
added p [] = 0
added p (add_ref q ∷ es) = (if p == q then 1 else 0) + added p es
added p (release q ∷ es) = added p es

pub released : ℕ → List Reference → ℕ
released p [] = 0
released p (add_ref q ∷ es) = released p es
released p (release q ∷ es) = (if p == q then 1 else 0) + released p es

pub held : ℕ → Option ℕ → ℕ
held p none = 0
held p (some q) = if p == q then 1 else 0

added-append : (p : ℕ) (xs ys : List Reference) → added p (xs ++ ys) ≡ added p xs + added p ys
unfolding added
added-append p [] ys = omega arith
added-append p (add_ref q ∷ xs) ys = omega (arith, added-append p xs ys)
added-append p (release q ∷ xs) ys = added-append p xs ys

released-append :
    (p : ℕ) (xs ys : List Reference) → released p (xs ++ ys) ≡ released p xs + released p ys
unfolding released
released-append p [] ys = omega arith
released-append p (add_ref q ∷ xs) ys = released-append p xs ys
released-append p (release q ∷ xs) ys = omega (arith, released-append p xs ys)

-- One call keeps the balance: what is held before and added is what is released and held after.
call-balanced :
    (p : ℕ) (k : Call) (c : Capture)
    → let (c', es) = call k c in held p c.object + added p es ≡ released p es + held p c'.object
unfolding call set_frame_capture unset_frame_capture keep_object safe_release added released held
call-balanced p (set none subtype) c = ground (arith)
call-balanced p (set (some q) subtype) c = ground (arith)
call-balanced p unset c = ground arith

-- Whatever calls set and unset the object of the frame capture, each object is added to and
-- released equally often, but for the object that is kept, before and after.
pub calls-balanced :
    (p : ℕ) (ks : List Call) (c : Capture)
    → let (c', es) = calls ks c in held p c.object + added p es ≡ released p es + held p c'.object
unfolding calls
calls-balanced p [] c = unfold added released in omega arith
calls-balanced p (k ∷ ks) c =
    let (c', first) = call k c in
    let rest = (calls ks c').1 in
    omega (
      arith,
      call-balanced p k c,
      calls-balanced p ks c',
      added-append p first rest,
      released-append p first rest,
    )
