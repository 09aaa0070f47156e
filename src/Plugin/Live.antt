-- ===== src/Plugin/Live.antt =====
-- The whole program as it runs (plugin.cpp, main_ui_derived.cpp, ais_stream_client.cpp): the plugin,
-- the threads of its dialog's client, and the calls that the client's callbacks leave for the main
-- loop.
pub mod Joins
pub mod Posted
pub mod Lines
pub mod Arrival
pub mod Shown
use ais_live_pi.Common.{ℕ, ◌≡◌, Bool, Option, none, some, List, [], ◌∷◌, ◌++◌, Text}
use ais_live_pi.Platform.Wx.{Wx}
use ais_live_pi.Platform.Double.{Double}
use ais_live_pi.Platform.Json.{JsonReader, JsonWriter}
use ais_live_pi.Platform.Config.{Config}
use ais_live_pi.Platform.Pending.{Pending}
use ais_live_pi.Stream.Output.{Output, Callbacks}
use ais_live_pi.Stream.Client.{Client, new_client}
use ais_live_pi.Stream.Client.Replay.{ClientCall, stop, replay}
use ais_live_pi.Stream.Threads
use ais_live_pi.Stream.Threads.{System, Choice, supervisor}
use ais_live_pi.Stream.Threads.Safety.{fresh_system}
use ais_live_pi.Stream.Threads.Performs.{PerformsAll}
use ais_live_pi.Gui.State.{Dialog}
use ais_live_pi.Plugin.Lifecycle.{init}
use ais_live_pi.Plugin.Steps.{PluginEvent, deinitialised, stream_state, stream_sentence}
use ais_live_pi.Plugin.Delivery.{Call, Wired, WiredEvent, run_next, main, post_output, wired_step}
use ais_live_pi.Plugin.Delivery.Order.{KeepsCalls}

-- Two rows of outputs, one after another or into each other.
pub data Merges : List Output → List Output → List Output → Type 0 where
  both_end : Merges [] [] []
  from_first : (o : Output) (xs ys zs : List Output) → Merges xs ys zs → Merges (o ∷ xs) ys (o ∷ zs)
  from_second :
      (o : Output) (xs ys zs : List Output) → Merges xs ys zs → Merges xs (o ∷ ys) (o ∷ zs)

-- What the main loop does of its own: no call of the stream but a pending one.
abbrev pub IsOwn : {D : Type 0} → PluginEvent D → Type 0
IsOwn (stream_state state detail) = ⊥
IsOwn (stream_sentence t) = ⊥
IsOwn _ = Unit

module _ {Q : Type 0} ⦃m : Pending Call Q⦄ where
  abbrev pub post_all : List Output → Q → Q
  post_all [] q = q
  post_all (o ∷ os) q = post_all os (post_output o q)

module _ {D S Q : Type 0} ⦃m : Pending Call Q⦄ where
  abbrev pub posting : List Output → Wired D S Q → Wired D S Q
  posting os w = record w { pending = post_all os w.pending }

module _ (D S Q V : Type 0) ⦃wx : Wx⦄ ⦃d : Double D⦄ ⦃j : JsonReader V⦄ ⦃w : JsonWriter D V⦄
    ⦃c : Config D S⦄ ⦃m : Pending Call Q⦄ (cb : Callbacks) (remembers : Bool) where
  -- From `Init` on, at the times when no handler runs. What the supervisor outputs is posted at once;
  -- what it outputs during a handler, and what the handler's calls of the client report, are
  -- posted in between, which is before the main loop goes on.
  pub data Live : Wired D S Q → System → Type 0 where
    begins :
        (config : Option S) (tool menu : ℕ) (x y z v : D)
        → Live (record { plugin = init config tool menu x y z v; pending = m.empty }) fresh_system
    goes_on :
        (choice : Choice) (p : Wired D S Q) (s t : System) (made : List Output)
        → Live p s
        → Threads.step V cb remembers (supervisor choice) s ≡ some t
        → t.session.outputs ≡ s.session.outputs ++ made
        → Live (posting made p) t
    -- the main loop runs the next pending call
    runs : (p q : Wired D S Q) (s : System) → Live p s → wired_step V run_next p ≡ some q → Live q s
    -- a handler without a dialog, which makes none
    stays_closed :
        (e : PluginEvent D) (p q : Wired D S Q) (s : System)
        → Live p s
        → IsOwn e
        → p.plugin.my_gui ≡ none
        → wired_step V (main e) p ≡ some q
        → q.plugin.my_gui ≡ none
        → Live q s
    -- a handler that makes the dialog and its client
    opens :
        (e : PluginEvent D) (p q : Wired D S Q) (b : Dialog D) (xs : List (ClientCall D))
        (s t : System) (posted : List Output)
        → Live p s
        → KeepsCalls (main e)
        → p.plugin.my_gui ≡ none
        → wired_step V (main e) p ≡ some q
        → q.plugin.my_gui ≡ some b
        → replay V xs new_client ≡ b.ais_stream
        → PerformsAll D V cb remembers xs new_client fresh_system t
        → Merges t.session.outputs b.ais_stream.outputs posted
        → Live (posting posted q) t
    handles :
        (e : PluginEvent D) (p q : Wired D S Q) (a b : Dialog D) (xs : List (ClientCall D))
        (s t : System) (made refused posted : List Output)
        → Live p s
        → KeepsCalls (main e)
        → p.plugin.my_gui ≡ some a
        → wired_step V (main e) p ≡ some q
        → q.plugin.my_gui ≡ some b
        → replay V xs a.ais_stream ≡ b.ais_stream
        → PerformsAll D V cb remembers xs a.ais_stream s t
        → t.session.outputs ≡ s.session.outputs ++ made
        → b.ais_stream.outputs ≡ a.ais_stream.outputs ++ refused
        → Merges made refused posted
        → Live (posting posted q) t
    -- `DeInit` deletes the dialog and its client, and with them what is pending
    closes :
        (p q : Wired D S Q) (a : Dialog D) (xs : List (ClientCall D)) (s t : System)
        → Live p s
        → p.plugin.my_gui ≡ some a
        → wired_step V (main deinitialised) p ≡ some q
        → q.plugin.my_gui ≡ none
        → PerformsAll D V cb remembers (xs ++ stop ∷ []) a.ais_stream s t
        → Live q t

module _ {D S Q V : Type 0} ⦃wx : Wx⦄ ⦃d : Double D⦄ ⦃j : JsonReader V⦄ ⦃w : JsonWriter D V⦄
    ⦃c : Config D S⦄ ⦃m : Pending Call Q⦄ {cb : Callbacks} {remembers : Bool} where
  -- What OpenCPN had been handed when the present dialog was made, or the last one.
  abbrev pub handed_before :
      {p : Wired D S Q} {s : System} → Live D S Q V cb remembers p s → List Text
  handed_before (begins config tool menu x y z v) = []
  handed_before (goes_on choice p s t made h k e) = handed_before h
  handed_before (runs p q s h r) = handed_before h
  handed_before (stays_closed e p q s h own n r i) = handed_before h
  handed_before (opens e p q b xs s t posted h keep n r i l x merge) = p.plugin.nmea_buffer
  handed_before (handles e p q a b xs s t made refused posted h keep n r i l x grown told merge) =
      handed_before h
  handed_before (closes p q a xs s t h n r i x) = handed_before h

  -- What has been posted since the present dialog was made.
  abbrev pub reported_since :
      {p : Wired D S Q} {s : System} → Live D S Q V cb remembers p s → List Output
  reported_since (begins config tool menu x y z v) = []
  reported_since (goes_on choice p s t made h k e) = reported_since h ++ made
  reported_since (runs p q s h r) = reported_since h
  reported_since (stays_closed e p q s h own n r i) = []
  reported_since (opens e p q b xs s t posted h keep n r i l x merge) = posted
  reported_since (handles e p q a b xs s t made refused posted h keep n r i l x grown told merge) =
      reported_since h ++ posted
  reported_since (closes p q a xs s t h n r i x) = []
