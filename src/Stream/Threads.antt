-- ===== src/Stream/Threads.antt =====
-- The two threads of `AisStreamClient` and what they share: `SupervisorFunc` on its own thread, and
-- `Start` and `Stop` on the caller's (ais_stream_client.cpp). A step is what one thread does between
-- two points at which the other can see it: an access of the atomic `m_streaming`, or a block
-- under `m_socketMutex`.
pub mod Safety
pub mod Progress
pub mod Protocol
pub mod Refines
pub mod Schedules
pub mod Calls
pub mod Owner
pub mod Performs
pub mod Scheduled
use ais_live_pi.Common.{
  ℕ, zero, suc, ◌*◌, Bool, true, false, not, ◌&&◌, Option, none, some, List, [], ◌∷◌, ◌++◌, Text,
  codes, is_empty, if◌then◌else◌,
}
use ais_live_pi.Platform.Wx.{Wx}
use ais_live_pi.Platform.Json.{JsonReader}
use ais_live_pi.Stream.Output.{Output, State, dialled, Callbacks, set_state}
use ais_live_pi.Stream.Client.{Launch}
use ais_live_pi.Stream.Session.{Event, Flags, fresh, Session, on_event}
use ais_live_pi.Stream.Backoff.{initial_backoff_seconds, wait_after, double_backoff}

-- Where the supervisor stands.
pub data Point : Type 0 where
  -- at the test of the `while` loop
  loop_test : Point
  -- `Connecting` is reported and the socket built, which nobody else can see
  built : Point
  -- the socket is in `m_socket`, and `run()` not yet under way
  published : Point
  -- inside `run()`
  running : Point
  -- `run()` has returned
  ran : Point
  -- the socket is taken out of `m_socket` and destroyed
  torn_down : Point
  -- in `SleepWhileStreaming`, with the rounds left
  sleeping : ℕ → Point
  -- behind the loop
  leaving : Point
  -- the thread function has returned, or there is no thread
  exited : Point
  -- an exception has left the thread function: `std::terminate`
  terminated : Point

-- The published socket: as it was built, or closed by `Stop`, with the number of callbacks that the
-- library still makes before `run()` returns.
pub data Socket : Type 0 where
  live : Socket
  closing : ℕ → Socket

-- Where the calling thread stands.
pub data Caller : Type 0 where
  -- in no call
  idle : Caller
  -- in `Stop`, behind `m_streaming = false`
  stopping : Caller
  -- in `Stop`, at `m_thread.join()`
  joining : Caller

pub record System : Type 0 where
  pub streaming : Bool
  pub socket : Option Socket
  pub point : Point
  pub caller : Caller
  -- `subscribeMsg` and `authToken`, and `backoffSeconds`
  pub launch : Launch
  pub backoff : ℕ
  -- the flags of the current session, and all outputs so far
  pub session : Session

-- What the library and the clock decide at a step of the supervisor.
pub data Choice : Type 0 where
  -- nothing is left open
  proceed : Choice
  -- `run()` makes a callback
  callback : Event → Choice
  -- `run()` returns, with no `Stop`: a connection that failed or is gone
  hang_up : Choice

pub data Action : Type 0 where
  supervisor : Choice → Action
  -- `Start` behind its guards, with the message to subscribe and the token
  start : Launch → Action
  -- `m_streaming = false`
  stop_flag : Action
  -- the block that calls `close()`: either it takes hold, and the library makes this many callbacks
  -- at most, or it is lost
  stop_close : Option ℕ → Action
  -- `join()` returns
  stop_join : Action

-- `run()` is not yet under way, or perhaps just under way.
unfoldable pub is_waiting : Point → Bool
is_waiting published = true
is_waiting loop_test = false
is_waiting built = false
is_waiting running = true
is_waiting ran = false
is_waiting torn_down = false
is_waiting (sleeping n) = false
is_waiting leaving = false
is_waiting exited = false
is_waiting terminated = false

-- Whether the library may take a call of `close()` so. A library that `remembers` an early close
-- loses none. The others, and the vendored one with them, which resets its cancellation flag when
-- the handshake begins, can lose one that comes before `run()` or early in it; of `running` the
-- model does not tell that part from the rest.
unfoldable pub may_close : Bool → Option ℕ → Point → Bool
may_close remembers (some n) p = true
may_close remembers none p = is_waiting p && not remembers

-- `m_socket->close()`, where there is a socket.
unfoldable pub close_socket : Option ℕ → Option Socket → Option Socket
close_socket n none = none
close_socket n (some (closing k)) = some (closing k)
close_socket (some n) (some live) = some (closing n)
close_socket none (some live) = some live

unfoldable pub report : Callbacks → State → System → System
report cb state s = record s {
  session = record (s.session) { outputs = s.session.outputs ++ set_state cb state [] };
}

-- `kAisUrl`
abbrev pub ais_url : Text
ais_url = codes "wss://ais.openwaters.io/v1/stream"

-- The header `Authorization`, which is set if there is a token.
unfoldable pub authorization : Text → Option Text
authorization token = if is_empty token then none else some (codes "Bearer " ++ token)

-- `run()`, on the socket that this session has built.
unfoldable pub dial : System → System
dial s = record s {
  session = record (s.session) {
    outputs = s.session.outputs ++ dialled ais_url (authorization s.launch.auth_token) ∷ [];
  };
}

-- The end of a callback: an exception ends the process.
unfoldable pub after_callback : System → Session → System
after_callback s session = record s {
  session = session;
  point = if session.threw then terminated else running;
}

module _ (V : Type 0) ⦃wx : Wx⦄ ⦃j : JsonReader V⦄ (cb : Callbacks) where
  -- Inside `run()`, by what stands in `m_socket`.
  unfoldable pub run_step : Choice → Option Socket → System → Option System
  run_step (callback e) (some live) s =
      some (after_callback s (on_event V cb s.launch.subscribe_msg s.session s.streaming e))
  run_step (callback e) (some (closing (suc n))) s = some (
      after_callback (record s { socket = some (closing n) })
        (on_event V cb s.launch.subscribe_msg s.session s.streaming e))
  run_step hang_up (some live) s = some (record s { point = ran })
  run_step proceed (some (closing zero)) s = some (record s { point = ran })
  run_step _ _ s = none

  -- The next step of the supervisor where nothing is left open.
  unfoldable pub proceed_from : Point → System → Option System
  proceed_from loop_test s =
      if s.streaming
      then some (
          report cb State.connecting
            (record s { point = built; session = record (s.session) { flags = fresh } }))
      else some (record s { point = leaving })
  proceed_from built s =
      if s.streaming
      then some (record s { socket = some live; point = published })
      else some (record s { point = leaving })
  proceed_from published s = some (dial (record s { point = running }))
  proceed_from running s = none
  proceed_from ran s = some (record s { socket = none; point = torn_down })
  proceed_from torn_down s =
      if s.streaming
      then (let wait = wait_after s.session.flags s.backoff in
          some (record s { backoff = wait; point = sleeping (wait * 10) }))
      else some (record s { point = leaving })
  proceed_from (sleeping zero) s =
      some (record s { backoff = double_backoff s.backoff; point = loop_test })
  proceed_from (sleeping (suc n)) s =
      if s.streaming
      then some (record s { point = sleeping n })
      else some (record s { backoff = double_backoff s.backoff; point = loop_test })
  proceed_from leaving s = some (report cb State.stopped (record s { point = exited }))
  proceed_from exited s = none
  proceed_from terminated s = none

  unfoldable pub supervise : Choice → Point → System → Option System
  supervise c running s = run_step c s.socket s
  supervise proceed p s = proceed_from p s
  supervise _ p s = none

  unfoldable pub begin_start : Launch → Point → Caller → System → Option System
  begin_start l exited idle s =
      if s.streaming
      then none
      else some (record s {
        streaming = true;
        point = loop_test;
        launch = l;
        backoff = initial_backoff_seconds;
        session = record (s.session) { threw = false };
      })
  begin_start l _ _ s = none

  unfoldable pub call_stop : Bool → Action → Caller → System → Option System
  call_stop remembers stop_flag idle s = some (record s { streaming = false; caller = stopping })
  call_stop remembers (stop_close n) stopping s =
      if may_close remembers n s.point
      then some (record s { socket = close_socket n s.socket; caller = joining })
      else none
  call_stop remembers stop_join joining s = elim (s.point) [
    | exited ↦ some (record s { caller = idle })
    | _ ↦ none
  ]
  call_stop remembers _ _ s = none

  -- One step of either thread, `none` where that thread cannot make it.
  unfoldable pub step : Bool → Action → System → Option System
  step remembers (supervisor c) s = supervise c s.point s
  step remembers (start l) s = begin_start l s.point s.caller s
  step remembers stop_flag s = call_stop remembers stop_flag s.caller s
  step remembers (stop_close n) s = call_stop remembers (stop_close n) s.caller s
  step remembers stop_join s = call_stop remembers stop_join s.caller s

  -- The steps of a schedule.
  unfoldable pub run : Bool → List Action → System → Option System
  run remembers [] s = some s
  run remembers (a ∷ as') s = elim (step remembers a s) [
    | none ↦ none
    | some t ↦ run remembers as' t
  ]
