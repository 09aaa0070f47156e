-- ===== src/Stream/Client.antt =====
-- `AisStreamClient` as its owner's thread sees it: the settings, `Start`, `Stop`, `Restart`
-- (ais_stream_client.cpp). What the supervisor does meanwhile is in Threads; `Stop` comes back
-- when its thread has ended, which Threads/Progress is about.
pub mod Replay
use ais_live_pi.Common.{
  ℕ, ◌≡◌, Bool, true, false, not, ◌&&◌, Option, none, some, List, [], ◌++◌, Text, codes, is_empty,
  arith, if◌then◌else◌,
}
use ais_live_pi.Platform.Double.{Double}
use ais_live_pi.Platform.Json.{JsonWriter}
use ais_live_pi.Stream.Output.{Output, State, Callbacks, set_state}
use ais_live_pi.Stream.Subscribe.{build_subscribe_message}

-- The arguments with which the supervisor's thread was started.
pub record Launch : Type 0 where
  pub subscribe_msg : List ℕ
  pub auth_token : Text

-- `thread` is `m_thread` while it is joinable; `outputs` are the calls of the callbacks that the
-- owner's thread itself makes.
pub record Client : Type 0 where
  pub streaming : Bool
  pub use_token : Bool
  pub token : Text
  pub thread : Option Launch
  pub callbacks : Callbacks
  pub outputs : List Output

-- The arguments of `Start` and `Restart`, without the sentence callback (which is set in both calls).
pub record Request (D : Type 0) : Type 0 where
  pub latitude : D
  pub longitude : D
  pub box_size : D
  pub activate_vessels_following : Bool
  pub mmsi_list : List ℕ
  pub snapshot : Bool

unfoldable pub new_client : Client
new_client = record {
  streaming = false;
  use_token = false;
  token = [];
  thread = none;
  callbacks = record { on_sentence = false; on_state_changed = false };
  outputs = [];
}

unfoldable pub set_state_callback : Client → Client
set_state_callback c = record c {
  callbacks = record { on_sentence = c.callbacks.on_sentence; on_state_changed = true };
}

unfoldable pub set_token_enabled : Bool → Client → Client
set_token_enabled enabled c = record c { use_token = enabled }

-- The token is a `std::string`: the call converts the `wxString` it is given (`std_string`).
unfoldable pub set_token : Text → Client → Client
set_token token c = record c { token = token }

abbrev pub is_streaming : Client → Bool
is_streaming c = c.streaming

-- `Stop`: the flag is cleared and the thread, if there is one, closed and joined.
unfoldable pub stop : Client → Client
stop c = record c { streaming = false; thread = none }

module _ {D : Type 0} (V : Type 0) ⦃d : Double D⦄ ⦃w : JsonWriter D V⦄ where
  unfoldable pub message_for : Client → Request D → List ℕ
  message_for c r =
      build_subscribe_message V c.use_token r.latitude r.longitude r.box_size
        r.activate_vessels_following r.mmsi_list r.snapshot

  -- The end of `Start`: a thread that was left over is joined, and a new one started.
  unfoldable pub launch : Text → Request D → Client → Client
  launch auth_token r c = record c {
    streaming = true;
    thread = some (record { subscribe_msg = message_for c r; auth_token = auth_token });
    callbacks = record { on_sentence = true; on_state_changed = c.callbacks.on_state_changed };
  }

  unfoldable pub start : Request D → Client → Client
  unfolding launch
  start r c =
      if c.streaming
      then c
      else if not c.use_token
      then launch [] r c
      else if is_empty c.token
      then record c {
        outputs = c.outputs ++ set_state c.callbacks State.error (codes "Token is missing");
      }
      else launch c.token r c

  unfoldable pub restart : Request D → Client → Client
  restart r c = if not c.streaming then c else start r (stop c)

abbrev pub has_thread : Client → Bool
has_thread c = elim (c.thread) [ none ↦ false | some l ↦ true ]

module _ {D : Type 0} (V : Type 0) ⦃d : Double D⦄ ⦃w : JsonWriter D V⦄ where
  -- The thread that a start with these settings launches, and `none` where it is refused.
  abbrev pub launch_for : Client → Request D → Launch
  launch_for c r = record {
    subscribe_msg = message_for V c r;
    auth_token = if c.use_token then c.token else [];
  }

  abbrev pub wanted : Client → Request D → Option Launch
  wanted c r = if c.use_token && is_empty c.token then none else some (launch_for c r)

  -- For a client that has a thread just if it streams: `Restart` while it streams ends its thread
  -- and launches the one for the new arguments and the present settings, or none if these ask for
  -- a token and there is none; otherwise it launches none. The client has a thread just if it
  -- streams again.
  pub restart_lem :
      (r : Request D) (c : Client)
      → (has_thread c ≡ c.streaming)
      → let t = restart V r c in
        (t.thread ≡ (if c.streaming then wanted c r else c.thread))
        × (t.streaming ≡ (c.streaming && not (c.use_token && is_empty c.token)))
        × (has_thread t ≡ t.streaming)
  unfolding restart start launch stop message_for
  restart_lem r c h = ground arith
