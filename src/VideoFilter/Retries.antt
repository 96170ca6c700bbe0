-- ===== src/VideoFilter/Retries.antt =====
-- The loop over ReceiveConnection in src/BaseVideoFilter.cpp ends.
use tvtest_video_decoder.Base.{
  ℕ, zero, suc, ◌+◌, ◌≤◌, ◌≡◌, arith, Bool, List, [], ◌∷◌, ◌++◌, none, some, if◌then◌else◌, if_elim,
}
use mathlib.Core.Bool.{not}
use tvtest_video_decoder.Types.{Hresult, s_false, e_fail}
use tvtest_video_decoder.VideoFilter.{
  Dimensions, Filter, Event, connection, sleep, flush, recommit, size_changed, Services, Request,
  needs_reconnect, is_no_info,
}
use tvtest_video_decoder.VideoFilter.Reconnect.{
  Ended, take_delivery, take_connection, retry, connect_dxva, finish, finish_retry, connect,
  reconnect_output, write_type, time_per_frame,
}

-- How often the loop asks, sleeps and flushes.
pub record Counts : Type 0 where
  pub connections : ℕ
  pub sleeps : ℕ
  pub flushes : ℕ

pub counts : List Event → Counts
counts [] = record { connections = 0; sleeps = 0; flushes = 0 }
counts (connection ∷ es) = let c = counts es in record c { connections = suc c.connections }
counts (sleep ∷ es) = let c = counts es in record c { sleeps = suc c.sleeps }
counts (flush ∷ es) = let c = counts es in record c { flushes = suc c.flushes }
counts (recommit ∷ es) = counts es
counts (size_changed w h ∷ es) = counts es

-- `k` is the number of attempts that are left after the next one.
record IsWithin (k : ℕ) (c : Counts) : Type 0 where
  pub connections : c.connections ≤ suc k
  pub waits : c.sleeps + c.flushes ≤ k
  pub flushes : c.flushes ≤ 1

module _ {S : Type 0} (s : Services S) (send : Bool) where
  take_connection-counts :
      (f : Filter) (m : S)
      → counts (take_connection s send f m).3 ≡ record { connections = 0; sleeps = 0; flushes = 0 }
  unfolding take_connection take_delivery counts
  take_connection-counts f m = ground arith

  retry-IsWithin : (k : ℕ) (f : Filter) (m : S) → IsWithin k (counts (retry s send k f m).3)
  unfolding retry counts
  retry-IsWithin zero f m =
      ground (arith, take_connection-counts f (s.receive_connection f.output_type m).0)
  retry-IsWithin (suc zero) f m =
      let m' = (s.receive_connection f.output_type m).0 in
      ground (arith, take_connection-counts f m', retry-IsWithin zero f m')
  retry-IsWithin (suc (suc k)) f m =
      let m' = (s.receive_connection f.output_type m).0 in
      ground (arith, take_connection-counts f m', retry-IsWithin (suc k) f m')

counts-append :
    (xs ys : List Event)
    → ((counts (xs ++ ys)).connections ≡ (counts xs).connections + (counts ys).connections)
      × ((counts (xs ++ ys)).sleeps ≡ (counts xs).sleeps + (counts ys).sleeps)
      × ((counts (xs ++ ys)).flushes ≡ (counts xs).flushes + (counts ys).flushes)
unfolding counts
counts-append [] ys = (omega arith, omega arith, omega arith)
counts-append (connection ∷ xs) ys = let h = counts-append xs ys in omega arith
counts-append (sleep ∷ xs) ys = let h = counts-append xs ys in omega arith
counts-append (flush ∷ xs) ys = let h = counts-append xs ys in omega arith
counts-append (recommit ∷ xs) ys = counts-append xs ys
counts-append (size_changed w h ∷ xs) ys = counts-append xs ys

module _ {S : Type 0} (s : Services S) where
  finish-counts :
      (f : Filter) (m : S) (es : List Event)
      → IsWithin 11 (counts es)
      → IsWithin 11 (counts (finish f m es).3)
  unfolding finish counts
  finish-counts f m es h =
      let (c, z, l) =
        counts-append es (
          if f.dxva_output then [] else size_changed f.dimensions.width f.dimensions.height ∷ []) in
      ground arith

  finish_retry-counts :
      (old : Dimensions) (e : Ended S)
      → IsWithin 11 (counts e.3)
      → IsWithin 11 (counts (finish_retry old e).3)
  unfolding finish_retry
  finish_retry-counts old (f, m, none, es) h = finish-counts f m es h
  finish_retry-counts old (f, m, some hr, es) h = h

  connect_dxva-counts : (f : Filter) (m : S) → IsWithin 11 (counts (connect_dxva s f m).2)
  unfolding connect_dxva counts
  connect_dxva-counts f m = ground arith

  connect-counts :
      (send : Bool) (old : Dimensions) (f : Filter) (m : S)
      → IsWithin 11 (counts (connect s send old f m).3)
  unfolding connect
  connect-counts send old f m =
      let d = connect_dxva s f m in
      if_elim (λ (r : Filter × S × Hresult × List Event). IsWithin 11 (counts r.3)) f.dxva_connect
        (finish-counts d.0 d.1 d.2 (connect_dxva-counts f m))
        (finish_retry-counts old (retry s send 11 f m) (retry-IsWithin s send 11 f m))

  -- ReconnectOutput asks the other pin for a connection at most 12 times, waits at most 11 times
  -- between the attempts, and flushes at most once, whatever the pin answers.
  pub reconnect_output-bounded :
      (r : Request) (f : Filter) (m : S)
      → (let c = counts (reconnect_output s r f m).3 in
          (c.connections ≤ 12) × (c.sleeps + c.flushes ≤ 11) × (c.flushes ≤ 1))
  unfolding reconnect_output
  reconnect_output-bounded r f m =
      let nothing : IsWithin 11 (counts []) = unfold counts in omega arith in
      let P = λ (t : Filter × S × Hresult × List Event). IsWithin 11 (counts t.3) in
      let g : Filter = record f { dimensions = r.size; media_dimensions = r.size } in
      let t = write_type s r (time_per_frame r f) f.dxva_output f.output_type in
      let h : IsWithin 11 (counts (reconnect_output s r f m).3) =
        if_elim P (not (needs_reconnect r f)) {x = (g, m, s_false, [])} nothing (
          if_elim P (is_no_info f.output_type) {x = (g, m, e_fail, [])} nothing
            (connect-counts r.send_sample f.dimensions (record g { output_type = t }) m)) in
      (h.connections, h.waits, h.flushes)
