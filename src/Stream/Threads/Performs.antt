-- ===== src/Stream/Threads/Performs.antt =====
-- A row of calls of a client, carried out by its threads (ais_stream_client.cpp).
use ais_live_pi.Common.{◌≡◌, Bool, true, false, some, List, [], ◌∷◌, Text}
use ais_live_pi.Platform.Wx.{Wx}
use ais_live_pi.Platform.Double.{Double}
use ais_live_pi.Platform.Json.{JsonReader, JsonWriter}
use ais_live_pi.Stream.Output.{Callbacks}
use ais_live_pi.Stream.Client
use ais_live_pi.Stream.Client.{Client, Request}
use ais_live_pi.Stream.Client.Replay.{
  ClientCall, set_state_callback, set_token_enabled, set_token, start, restart, stop, perform_call,
  replay,
}
use ais_live_pi.Stream.Threads.{System, Choice, supervisor, step}
use ais_live_pi.Stream.Threads.Calls.{Stops}
use ais_live_pi.Stream.Threads.Owner.{
  Starts, Together, supervised, callback_set, token_enabled, token_set, started, stopped, restarted,
  not_restarted,
}

module _ (D V : Type 0) ⦃wx : Wx⦄ ⦃j : JsonReader V⦄ ⦃d : Double D⦄ ⦃w : JsonWriter D V⦄
    (cb : Callbacks) (remembers : Bool) where
  -- One call, from its beginning to its return.
  pub data Performs : ClientCall D → Client → System → System → Type 0 where
    sets_callback : (c : Client) (s : System) → Performs set_state_callback c s s
    enables :
        (enabled : Bool) (c : Client) (s : System) → Performs (set_token_enabled enabled) c s s
    sets_token : (token : Text) (c : Client) (s : System) → Performs (set_token token) c s s
    starts :
        (r : Request D) (c : Client) (s t : System)
        → Starts D V cb remembers r c s t
        → Performs (start r) c s t
    stops : (c : Client) (s t : System) → Stops V cb remembers s t → Performs stop c s t
    restarts :
        (r : Request D) (c : Client) (s t u : System)
        → s.streaming ≡ true
        → Stops V cb remembers s t
        → Starts D V cb remembers r (Client.stop c) t u
        → Performs (restart r) c s u
    leaves :
        (r : Request D) (c : Client) (s : System) → s.streaming ≡ false → Performs (restart r) c s s

  -- Calls one after another, with steps of the supervisor before, between and behind them.
  pub data PerformsAll : List (ClientCall D) → Client → System → System → Type 0 where
    done : (c : Client) (s : System) → PerformsAll [] c s s
    meanwhile :
        (choice : Choice) (xs : List (ClientCall D)) (c : Client) (s t u : System)
        → step V cb remembers (supervisor choice) s ≡ some t
        → PerformsAll xs c t u
        → PerformsAll xs c s u
    next :
        (x : ClientCall D) (xs : List (ClientCall D)) (c : Client) (s t u : System)
        → Performs x c s t
        → PerformsAll xs (perform_call V x c) t u
        → PerformsAll (x ∷ xs) c s u

  Performs-Together :
      (x : ClientCall D) (c : Client) (s t : System)
      → Together D V cb remembers c s
      → Performs x c s t
      → Together D V cb remembers (perform_call V x c) t
  Performs-Together _ c s t h (sets_callback _ _) = callback_set c s h
  Performs-Together _ c s t h (enables enabled _ _) = token_enabled enabled c s h
  Performs-Together _ c s t h (sets_token token _ _) = token_set token c s h
  Performs-Together _ c s t h (starts r _ _ _ k) = started r c s t h k
  Performs-Together _ c s t h (stops _ _ _ k) = stopped c s t h k
  Performs-Together _ c s u h (restarts r _ _ t _ on k l) = restarted r c s t u h on k l
  Performs-Together _ c s t h (leaves r _ _ off) = not_restarted r c s h off

  pub PerformsAll-Together :
      (xs : List (ClientCall D)) (c : Client) (s t : System)
      → Together D V cb remembers c s
      → PerformsAll xs c s t
      → Together D V cb remembers (replay V xs c) t
  PerformsAll-Together _ c s t h (done _ _) = h
  PerformsAll-Together xs c s u h (meanwhile choice _ _ _ t _ e k) =
      PerformsAll-Together xs c t u (supervised choice c s t h e) k
  PerformsAll-Together _ c s u h (next x xs _ _ t _ p k) =
      PerformsAll-Together xs (perform_call V x c) t u (Performs-Together x c s t h p) k
