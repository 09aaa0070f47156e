-- ===== src/Stream/Session.antt =====
-- One session of the supervisor: the lambda given to `setOnMessageCallback`, with its three flags,
-- over the events that `run()` hands it (`SupervisorFunc` in ais_stream_client.cpp).
pub mod Reports
use ais_live_pi.Common.{
  ℕ, Bool, true, false, not, ◌&&◌, List, [], ◌∷◌, ◌++◌, Text, codes, if◌then◌else◌,
}
use ais_live_pi.Platform.Wx.{Wx}
use ais_live_pi.Platform.Json.{JsonReader}
use ais_live_pi.Stream.Output.{Output, sent, State, Callbacks, set_state}
use ais_live_pi.Stream.Messages.{c_str, Handled, handled, failed, handle_message}

-- `ix::WebSocketMessageType`; `other` stands for Ping, Pong and Fragment.
pub data Event : Type 0 where
  opened : Event
  message : List ℕ → Event
  errored : List ℕ → Event
  closed : Event
  other : Event

-- `reachedRunning`, `serverRejected`, `errorReported`
pub record Flags : Type 0 where
  pub reached_running : Bool
  pub server_rejected : Bool
  pub error_reported : Bool

abbrev pub fresh : Flags
fresh = record { reached_running = false; server_rejected = false; error_reported = false }

-- The flags, all that was output, and whether an exception left the callback.
pub record Session : Type 0 where
  pub flags : Flags
  pub outputs : List Output
  pub threw : Bool

abbrev pub begin : Session
begin = record { flags = fresh; outputs = []; threw = false }

-- The Message case, by what `HandleMessage` did.
unfoldable pub after_message : Session → List Output → Handled → Session
after_message s out (handled true) = record {
  flags = record (s.flags) { server_rejected = true; error_reported = true };
  outputs = s.outputs ++ out;
  threw = false;
}
after_message s out (handled false) = record s { outputs = s.outputs ++ out }
after_message s out failed = record s { outputs = s.outputs ++ out; threw = true }

module _ (V : Type 0) ⦃wx : Wx⦄ ⦃j : JsonReader V⦄ (cb : Callbacks) (subscribe_msg : List ℕ) where
  -- One call of the callback, at the value that `m_streaming` has then. `m_socket` is the socket
  -- whose callback this is: only this thread empties it, and not before `run()` is over.
  unfoldable pub on_event : Session → Bool → Event → Session
  unfolding after_message
  on_event s streaming opened = record {
    flags = record (s.flags) { reached_running = true };
    outputs = s.outputs ++ (sent subscribe_msg ∷ set_state cb State.running []);
    threw = false;
  }
  on_event s streaming (message str) = let r = handle_message V cb str in after_message s r.0 r.1
  on_event s streaming (errored reason) = record {
    flags = record (s.flags) { error_reported = true };
    outputs = s.outputs ++ set_state cb State.error (wx.from_utf8 (c_str reason));
    threw = false;
  }
  on_event s streaming closed =
      if streaming && not s.flags.error_reported
      then record s { outputs = s.outputs ++ set_state cb State.error (codes "connection lost") }
      else s
  on_event s streaming other = s

  -- The events of `run()`, up to an exception.
  unfoldable pub run_session : Session → List (Bool × Event) → Session
  run_session s [] = s
  run_session s ((streaming, e) ∷ es) =
      let s' = on_event s streaming e in
      let rest = run_session s' es in if s'.threw then s' else rest
