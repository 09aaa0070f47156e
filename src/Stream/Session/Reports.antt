-- ===== src/Stream/Session/Reports.antt =====
-- What the flags of a session say of what the user was told.
use ais_live_pi.Common.{
  ℕ, ◌≡◌, refl, Bool, true, false, ◌||◌, Option-cases, List, [], ◌∷◌, ◌++◌, map, Text, codes, arith,
  if◌then◌else◌, implies, inl, inr,
}
use ais_live_pi.Platform.Wx.{Wx}
use ais_live_pi.Platform.Json.{JsonReader}
use ais_live_pi.Stream.Output.{
  Output, sent, dialled, sentence, state_changed, State, Callbacks, set_state,
}
use ais_live_pi.Stream.Messages.{
  Handled, handled, failed, handle_message, c_str, of_flow, Flow, returned, thrown, deliver,
  report_rejection, handle_event, process_ais_event,
}
use ais_live_pi.Stream.Session.{
  Event, opened, message, errored, closed, other, Session, begin, after_message, on_event,
  run_session,
}

abbrev pub is_error : Output → Bool
is_error (state_changed State.error t) = true
is_error (state_changed State.stopped t) = false
is_error (state_changed State.connecting t) = false
is_error (state_changed State.running t) = false
is_error (sentence t) = false
is_error (sent m) = false
is_error (dialled url header) = false

abbrev pub is_running : Output → Bool
is_running (state_changed State.running t) = true
is_running (state_changed State.stopped t) = false
is_running (state_changed State.connecting t) = false
is_running (state_changed State.error t) = false
is_running (sentence t) = false
is_running (sent m) = false
is_running (dialled url header) = false

abbrev pub any : (Output → Bool) → List Output → Bool
any p [] = false
any p (o ∷ os) = p o || any p os

any-append : (p : Output → Bool) (xs ys : List Output) → any p (xs ++ ys) ≡ (any p xs || any p ys)
any-append p [] ys = refl
any-append p (x ∷ xs) ys = ground (arith, any-append p xs ys)

any_error-map : (ts : List Text) → any is_error (map sentence ts) ≡ false
any_error-map [] = refl
any_error-map (t ∷ ts) = any_error-map ts

any_running-map : (ts : List Text) → any is_running (map sentence ts) ≡ false
any_running-map [] = refl
any_running-map (t ∷ ts) = any_running-map ts

any_error-of_flow : (r : List Text × Flow) → any is_error (of_flow r).0 ≡ false
any_error-of_flow (out, returned) = any_error-map out
any_error-of_flow (out, thrown) = any_error-map out

any_running-of_flow : (r : List Text × Flow) → any is_running (of_flow r).0 ≡ false
any_running-of_flow (out, returned) = any_running-map out
any_running-of_flow (out, thrown) = any_running-map out

of_flow-ne_rejected : (r : List Text × Flow) → (of_flow r).1 ≡ handled true → ⊥
of_flow-ne_rejected (out, returned) h = cc
of_flow-ne_rejected (out, thrown) h = cc

abbrev rejected : Handled → Bool
rejected (handled b) = b
rejected failed = false

module _ (V : Type 0) ⦃wx : Wx⦄ ⦃j : JsonReader V⦄ (cb : Callbacks)
    (on : cb.on_state_changed ≡ true) where
  deliver_reports :
      (ev : V)
      → (any is_error (deliver cb ev).0 ≡ false)
        × (any is_running (deliver cb ev).0 ≡ false)
        × (rejected (deliver cb ev).1 ≡ false)
  unfolding deliver
  deliver_reports ev =
      let r = process_ais_event ev in
      ground (arith, any_error-of_flow r, any_running-of_flow r, of_flow-ne_rejected r)

  report_rejection_reports :
      (ev : V)
      → (any is_error (report_rejection cb ev).0 ≡ rejected (report_rejection cb ev).1)
        × (any is_running (report_rejection cb ev).0 ≡ false)
  unfolding report_rejection set_state
  report_rejection_reports ev = ground arith

  handle_event_reports :
      (ev : V)
      → (any is_error (handle_event cb ev).0 ≡ rejected (handle_event cb ev).1)
        × (any is_running (handle_event cb ev).0 ≡ false)
  unfolding handle_event
  handle_event_reports ev = ground (arith, deliver_reports ev, report_rejection_reports ev)

  handle_message_reports :
      (payload : List ℕ)
      → (any is_error (handle_message V cb payload).0 ≡ rejected (handle_message V cb payload).1)
        × (any is_running (handle_message V cb payload).0 ≡ false)
  unfolding handle_message
  handle_message_reports payload = elim (Option-cases (j.parse payload)) [
    | inl e ↦ rw (e, handle_message) (refl, refl)
    | inr (ev, e) ↦ rw (e, handle_message) (handle_event_reports ev)
  ]

-- The flags of a session say what its outputs have told: where the error flag is up an error was
-- reported, `Running` was reported exactly if that flag is up, and a rejection raises the error
-- flag. (A Close reports an error and leaves the flag down.)
pub record IsTold (s : Session) : Type 0 where
  pub errors : implies s.flags.error_reported (any is_error s.outputs) ≡ true
  pub runs : any is_running s.outputs ≡ s.flags.reached_running
  pub rejects : implies s.flags.server_rejected s.flags.error_reported ≡ true

abbrev pub connection_lost : List Output
connection_lost = state_changed State.error (codes "connection lost") ∷ []

begin-IsTold : IsTold begin
begin-IsTold = record { errors = refl; runs = refl; rejects = refl }

after_message-IsTold :
    (s : Session) (out : List Output) (r : Handled)
    → IsTold s
    → any is_error out ≡ rejected r
    → any is_running out ≡ false
    → IsTold (after_message s out r)
unfolding after_message
after_message-IsTold s out (handled true) v h k =
    ground (arith, any-append is_error s.outputs out, any-append is_running s.outputs out)
after_message-IsTold s out (handled false) v h k =
    ground (arith, any-append is_error s.outputs out, any-append is_running s.outputs out)
after_message-IsTold s out failed v h k =
    ground (arith, any-append is_error s.outputs out, any-append is_running s.outputs out)

module _ (V : Type 0) ⦃wx : Wx⦄ ⦃j : JsonReader V⦄ (cb : Callbacks) (msg : List ℕ)
    (on : cb.on_state_changed ≡ true) where
  on_event-IsTold :
      (s : Session) (streaming : Bool) (e : Event)
      → IsTold s
      → IsTold (on_event V cb msg s streaming e)
  unfolding on_event set_state
  on_event-IsTold s streaming opened v = ground (
    arith,
    any-append is_error s.outputs (sent msg ∷ state_changed State.running [] ∷ []),
    any-append is_running s.outputs (sent msg ∷ state_changed State.running [] ∷ []),
  )
  on_event-IsTold s streaming (message str) v =
      let (errors, runs) = handle_message_reports V cb on str in
      after_message-IsTold s (handle_message V cb str).0 (handle_message V cb str).1 v errors runs
  on_event-IsTold s streaming (errored reason) v =
      let out : List Output = state_changed State.error (wx.from_utf8 (c_str reason)) ∷ [] in
      ground (arith, any-append is_error s.outputs out, any-append is_running s.outputs out)
  on_event-IsTold s streaming closed v =
      let out : List Output = state_changed State.error (codes "connection lost") ∷ [] in
      ground (arith, any-append is_error s.outputs out, any-append is_running s.outputs out)
  on_event-IsTold s streaming other v = v

  run_session-IsTold :
      (s : Session) (es : List (Bool × Event)) → IsTold s → IsTold (run_session V cb msg s es)
  unfolding run_session
  run_session-IsTold s [] v = v
  run_session-IsTold s ((streaming, e) ∷ es) v =
      let v' = on_event-IsTold s streaming e v in
      let rest = run_session-IsTold (on_event V cb msg s streaming e) es v' in ground arith

  -- If the state callback is set, then after any events of a session, at any values of the
  -- streaming flag: where `errorReported` is up an error was reported, `reachedRunning` is up
  -- exactly if `Running` was reported, and `serverRejected` is never up without `errorReported`.
  pub session-IsTold : (es : List (Bool × Event)) → IsTold (run_session V cb msg begin es)
  session-IsTold es = run_session-IsTold begin es begin-IsTold

  run_session-append :
      (s : Session) (es fs : List (Bool × Event))
      → (run_session V cb msg s es).threw ≡ false
      → run_session V cb msg s (es ++ fs) ≡ run_session V cb msg (run_session V cb msg s es) fs
  unfolding run_session
  run_session-append s [] fs h = refl
  run_session-append s ((streaming, e) ∷ es) fs h =
      ground (arith, run_session-append (on_event V cb msg s streaming e) es fs)

  close_after :
      (s : Session)
      → IsTold s
      → (any is_error (run_session V cb msg s ((true, closed) ∷ [])).outputs ≡ true)
        × ((run_session V cb msg s ((true, closed) ∷ [])).outputs
            ≡ (if s.flags.error_reported then s.outputs else s.outputs ++ connection_lost))
        × ((run_session V cb msg s ((false, closed) ∷ [])).outputs ≡ s.outputs)
  unfolding run_session on_event set_state
  close_after s v = ground (arith, any-append is_error s.outputs connection_lost)

  -- If the state callback is set and no exception has ended a session, then a Close that arrives
  -- while streaming is wanted leaves the user told of an error: it reports "connection lost"
  -- unless `errorReported` is up, and then adds nothing. A Close when streaming is no longer wanted
  -- adds nothing either.
  pub session_close :
      (es : List (Bool × Event))
      → (run_session V cb msg begin es).threw ≡ false
      → let s = run_session V cb msg begin es in
        let dropped = run_session V cb msg begin (es ++ (true, closed) ∷ []) in
        (any is_error dropped.outputs ≡ true)
        × (dropped.outputs
            ≡ (if s.flags.error_reported then s.outputs else s.outputs ++ connection_lost))
        × ((run_session V cb msg begin (es ++ (false, closed) ∷ [])).outputs ≡ s.outputs)
  session_close es h =
      let s = run_session V cb msg begin es in
      let told = session-IsTold es in
      rw (run_session-append begin es _ h, run_session-append begin es _ h) (close_after s told)
