-- ===== src/Stream/Threads/Refines.antt =====
-- The two threads against the machine of Protocol.
use ais_live_pi.Common.{
  IfSome, ℕ, zero, suc, ◌≡◌, refl, sym, Bool, true, false, not, ◌&&◌, Option, some, List, [], ◌∷◌,
  ◌++◌, map, Text, All, arith, Option-cases, Bool-cases, inl, inr,
}
use mathlib.Core.List.{append-nil}
use ais_live_pi.Platform.Wx.{Wx, WxLaws}
use ais_live_pi.Platform.Json.{JsonReader}
use ais_live_pi.Stream.Output.{Output, sentence, sent, Callbacks, set_state, State, error}
use ais_live_pi.Stream.Client.{Launch}
use ais_live_pi.Stream.Messages.{
  Flow, returned, thrown, process_ais_event, of_flow, handled, failed, report_rejection, deliver,
  handle_event, handle_message, Handled,
}
use ais_live_pi.Stream.Messages.Forward.{IsFramed}
use ais_live_pi.Stream.Messages.Frames.{process_ais_event-IsFramed}
use ais_live_pi.Stream.Session.{
  Event, opened, message, errored, closed, other, Session, after_message, on_event,
}
use ais_live_pi.Stream.Threads.{
  Point, loop_test, built, published, running, ran, torn_down, sleeping, leaving, exited,
  terminated, Socket, live, closing, Caller, idle, stopping, joining, System, Choice, proceed,
  callback, hang_up, Action, supervisor, start, stop_flag, stop_close, stop_join, report, dial,
  after_callback, run_step, proceed_from, supervise, begin_start, call_stop, step, authorization,
  may_close,
}
use ais_live_pi.Stream.Threads.Protocol.{
  Label, start_called, stop_returned, internal, Phase, off, ended, waiting, dialling, in_session,
  IsReport, IsHeader, Allowed, begins, connects, dials, gives_up, subscribes, reports, breaks,
  finishes, stops, idles, returns,
}

abbrev pub label_of : Action → Label
label_of (supervisor c) = internal
label_of (start l) = start_called l
label_of stop_flag = internal
label_of (stop_close n) = internal
label_of stop_join = stop_returned

-- The phase that a point of the supervisor stands for.
abbrev pub phase_at : Point → Launch → Phase
phase_at loop_test m = waiting m
phase_at built m = dialling m
phase_at published m = dialling m
phase_at running m = in_session m
phase_at ran m = in_session m
phase_at torn_down m = waiting m
phase_at (sleeping n) m = waiting m
phase_at leaving m = waiting m
phase_at exited m = off
phase_at terminated m = ended

abbrev pub phase : System → Phase
phase s = phase_at s.point s.launch

authorization-IsHeader : (token : Text) → IsHeader token (authorization token)
unfolding authorization
authorization-IsHeader [] = refl
authorization-IsHeader (c ∷ token) = refl

map-IsReport : (ts : List Text) → All IsFramed ts → All IsReport (map sentence ts)
map-IsReport [] h = tt
map-IsReport (t ∷ ts) h = (h.0, map-IsReport ts h.1)

of_flow-IsReport : (r : List Text × Flow) → All IsFramed r.0 → All IsReport (of_flow r).0
of_flow-IsReport (out, returned) h = map-IsReport out h
of_flow-IsReport (out, thrown) h = map-IsReport out h

set_state-IsReport : (cb : Callbacks) (t : Text) → All IsReport (set_state cb error t)
unfolding set_state
set_state-IsReport cb t = elim (Bool-cases cb.on_state_changed) [
  | inl e ↦ rw e (tt, tt)
  | inr e ↦ rw e tt
]

module _ {V : Type 0} ⦃wx : Wx⦄ ⦃j : JsonReader V⦄ (cb : Callbacks) where
  report_rejection-IsReport : (ev : V) → All IsReport (report_rejection cb ev).0
  unfolding report_rejection set_state
  report_rejection-IsReport ev = ground arith

  deliver-IsReport : WxLaws → (ev : V) → All IsReport (deliver cb ev).0
  unfolding deliver
  deliver-IsReport laws ev =
      ground (arith, of_flow-IsReport (process_ais_event ev) (process_ais_event-IsFramed laws ev))

  handle_event-IsReport : WxLaws → (ev : V) → All IsReport (handle_event cb ev).0
  unfolding handle_event
  handle_event-IsReport laws ev =
      ground (arith, report_rejection-IsReport ev, deliver-IsReport laws ev)

module _ (V : Type 0) ⦃wx : Wx⦄ ⦃j : JsonReader V⦄ (cb : Callbacks) (laws : WxLaws) where
  handle_message-IsReport : (payload : List ℕ) → All IsReport (handle_message V cb payload).0
  unfolding handle_message
  handle_message-IsReport payload = elim (Option-cases (j.parse payload)) [
    | inl e ↦ rw (e, handle_message) tt
    | inr (ev, e) ↦ rw (e, handle_message) (handle_event-IsReport cb laws ev)
  ]

  -- The step from `s` to `t` is one of the machine's, with the outputs that it adds.
  abbrev pub Simulates : Label → System → System → Type 0
  Simulates l s t =
      (out : List Output) × Allowed cb (phase s) l out (phase t)
      × (t.session.outputs ≡ s.session.outputs ++ out)

  -- A callback whose outputs are reports, whether it ends normally or not.
  reported-Simulates :
      (s : System) (k : Option Socket) (session : Session) (out : List Output)
      → s.point ≡ running
      → All IsReport out
      → session.outputs ≡ s.session.outputs ++ out
      → Simulates internal s (after_callback (record s { socket = k }) session)
  unfolding after_callback
  reported-Simulates s k session out p h e = elim (Bool-cases (session.threw)) [
    | inl yes_threw ↦ (out, rw (p, yes_threw) (breaks s.launch out h), e)
    | inr no_throw ↦ (out, rw (p, no_throw) (reports s.launch out h), e)
  ]

  after_message-outputs :
      (s : Session) (out : List Output) (r : Handled)
      → (after_message s out r).outputs ≡ s.outputs ++ out
  unfolding after_message
  after_message-outputs s out (handled true) = refl
  after_message-outputs s out (handled false) = refl
  after_message-outputs s out failed = refl

  -- A callback of `run()`, as steps from `running`.
  event-Simulates :
      (s : System) (e : Event) (k : Option Socket)
      → s.point ≡ running
      → Simulates internal s (
          after_callback
            (record s { socket = k })
            (on_event V cb s.launch.subscribe_msg (s.session) (s.streaming) e))
  unfolding on_event
  event-Simulates s opened k p =
      unfold after_callback in
      (
        sent s.launch.subscribe_msg ∷ set_state cb State.running [],
        rw p (subscribes s.launch),
        refl,
      )
  event-Simulates s (message str) k p =
      let r = handle_message V cb str in
      reported-Simulates s k _ r.0 p (handle_message-IsReport str)
        (after_message-outputs (s.session) r.0 r.1)
  event-Simulates s (errored reason) k p =
      reported-Simulates s k _ _ p (set_state-IsReport cb _) refl
  event-Simulates s closed k p =
      elim (Bool-cases (s.streaming && not s.session.flags.error_reported)) [
        | inl lost ↦ rw lost (reported-Simulates s k _ _ p (set_state-IsReport cb _) refl)
        | inr expected ↦
            rw expected (reported-Simulates s k (s.session) [] p tt (sym (append-nil _)))
      ]
  event-Simulates s other k p = reported-Simulates s k (s.session) [] p tt (sym (append-nil _))

  run_step-Simulates :
      (c : Choice) (k : Option Socket) (s : System)
      → s.point ≡ running
      → IfSome (Simulates internal s) (run_step V cb c k s)
  unfolding run_step
  run_step-Simulates (callback e) (some live) s p = event-Simulates s e (s.socket) p
  run_step-Simulates (callback e) (some (closing (suc n))) s p =
      event-Simulates s e (some (closing n)) p
  run_step-Simulates hang_up (some live) s p = ([], rw p (idles _), sym (append-nil _))
  run_step-Simulates proceed (some (closing zero)) s p = ([], rw p (idles _), sym (append-nil _))
  run_step-Simulates _ _ s p = tt

  proceed_from-Simulates :
      (p : Point) (s : System) → s.point ≡ p → IfSome (Simulates internal s) (proceed_from V cb p s)
  unfolding proceed_from report dial
  proceed_from-Simulates loop_test s e = elim (Bool-cases (s.streaming)) [
    | inl wanted ↦ rw wanted (set_state cb State.connecting [], rw e (connects _), refl)
    | inr unwanted ↦ rw unwanted ([], rw e (idles _), sym (append-nil _))
  ]
  proceed_from-Simulates built s e = elim (Bool-cases (s.streaming)) [
    | inl wanted ↦ rw wanted ([], rw e (idles _), sym (append-nil _))
    | inr unwanted ↦ rw unwanted ([], rw e (gives_up _), sym (append-nil _))
  ]
  proceed_from-Simulates published s e =
      (_, rw e (dials _ _ (authorization-IsHeader s.launch.auth_token)), refl)
  proceed_from-Simulates running s e = tt
  proceed_from-Simulates ran s e = ([], rw e (finishes _), sym (append-nil _))
  proceed_from-Simulates torn_down s e = elim (Bool-cases (s.streaming)) [
    | inl wanted ↦ rw wanted ([], rw e (idles _), sym (append-nil _))
    | inr unwanted ↦ rw unwanted ([], rw e (idles _), sym (append-nil _))
  ]
  proceed_from-Simulates (sleeping zero) s e = ([], rw e (idles _), sym (append-nil _))
  proceed_from-Simulates (sleeping (suc n)) s e = elim (Bool-cases (s.streaming)) [
    | inl wanted ↦ rw wanted ([], rw e (idles _), sym (append-nil _))
    | inr unwanted ↦ rw unwanted ([], rw e (idles _), sym (append-nil _))
  ]
  proceed_from-Simulates leaving s e = (set_state cb State.stopped [], rw e (stops _), refl)
  proceed_from-Simulates exited s e = tt
  proceed_from-Simulates terminated s e = tt

  supervise-Simulates :
      (c : Choice) (p : Point) (s : System)
      → s.point ≡ p
      → IfSome (Simulates internal s) (supervise V cb c p s)
  unfolding supervise
  supervise-Simulates c running s e = run_step-Simulates c (s.socket) s e
  supervise-Simulates proceed p s e = proceed_from-Simulates p s e
  supervise-Simulates _ p s e = tt

  begin_start-Simulates :
      (l : Launch) (p : Point) (c : Caller) (s : System)
      → s.point ≡ p
      → IfSome (Simulates (start_called l) s) (begin_start V cb l p c s)
  unfolding begin_start
  begin_start-Simulates l exited idle s e = elim (Bool-cases (s.streaming)) [
    | inl wanted ↦ rw wanted tt
    | inr unwanted ↦ rw unwanted ([], rw e (begins l), sym (append-nil _))
  ]
  begin_start-Simulates l _ _ s e = tt

  stop_join-Simulates :
      (remembers : Bool) (p : Point) (s : System)
      → s.point ≡ p
      → IfSome (Simulates stop_returned s) (call_stop V cb remembers stop_join joining s)
  unfolding call_stop
  stop_join-Simulates remembers exited s e = rw e ([], returns, sym (append-nil _))
  stop_join-Simulates remembers _ s e = rw e tt

  call_stop-Simulates :
      (remembers : Bool) (a : Action) (c : Caller) (s : System)
      → IfSome (Simulates (label_of a) s) (call_stop V cb remembers a c s)
  unfolding call_stop
  call_stop-Simulates remembers stop_flag idle s = ([], idles _, sym (append-nil _))
  call_stop-Simulates remembers (stop_close n) stopping s =
      elim (Bool-cases (may_close remembers n s.point)) [
        | inl taken ↦ rw taken ([], idles _, sym (append-nil _))
        | inr refused ↦ rw refused tt
      ]
  call_stop-Simulates remembers stop_join joining s = stop_join-Simulates remembers (s.point) s refl
  call_stop-Simulates remembers _ _ s = tt

  pub step-Simulates :
      (remembers : Bool) (a : Action) (s : System)
      → IfSome (Simulates (label_of a) s) (step V cb remembers a s)
  unfolding step
  step-Simulates remembers (supervisor c) s = supervise-Simulates c (s.point) s refl
  step-Simulates remembers (start l) s = begin_start-Simulates l (s.point) (s.caller) s refl
  step-Simulates remembers stop_flag s = call_stop-Simulates remembers stop_flag (s.caller) s
  step-Simulates remembers (stop_close n) s =
      call_stop-Simulates remembers (stop_close n) (s.caller) s
  step-Simulates remembers stop_join s = call_stop-Simulates remembers stop_join (s.caller) s
