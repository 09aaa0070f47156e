-- ===== src/Plugin/Whole.antt =====
-- The plugin together with the threads of its dialog's client (plugin.cpp, main_ui_derived.cpp,
-- ais_stream_client.cpp): what the supervisor does while the plugin's handlers change what the
-- stream is for.
pub mod Served
use ais_live_pi.Common.{
  IfSome, ℕ, ◌≡◌, refl, sym, Bool, true, false, Option, none, some, List, [], ◌∷◌, ◌++◌, inl, inr,
  Option-cases, arith,
}
use mathlib.Core.Path.{subst}
use ais_live_pi.Platform.Wx.{Wx}
use ais_live_pi.Platform.Double.{Double}
use ais_live_pi.Platform.Json.{JsonReader, JsonWriter}
use ais_live_pi.Platform.Config.{Config}
use ais_live_pi.Stream.Output.{Callbacks}
use ais_live_pi.Stream.Client
use ais_live_pi.Stream.Client.{Client, new_client, launch_for}
use ais_live_pi.Stream.Client.Replay.{ClientCall, stop, replay, replay-append}
use ais_live_pi.Stream.Threads
use ais_live_pi.Stream.Threads.{System, Choice, idle, exited, supervisor}
use ais_live_pi.Stream.Threads.Safety.{fresh_system, is_over}
use ais_live_pi.Stream.Threads.Calls.{IsReaped, supervise-Keeps}
use ais_live_pi.Stream.Threads.Owner.{Together, created, supervised, Agrees, Together-Agrees}
use ais_live_pi.Stream.Threads.Performs.{PerformsAll, PerformsAll-Together}
use ais_live_pi.Settings.Globals.{Globals}
use ais_live_pi.Gui.State.{Gui, Dialog, default_dialog}
use ais_live_pi.Gui.Streaming.{request}
use ais_live_pi.Gui.Events.Sync.{IsSynced}
use ais_live_pi.Plugin.State.{Plugin}
use ais_live_pi.Plugin.Lifecycle.{init, load_settings}
use ais_live_pi.Plugin.Steps.{PluginEvent, step}
use ais_live_pi.Plugin.Passes.Walk.{Passes}
use ais_live_pi.Plugin.Passes.Steps.{step-Follows}

abbrev pub gui_of : {D S : Type 0} → Plugin D S → Dialog D → Gui D
gui_of p b = record { globals = p.globals; dialog = b }

-- What the thread is up to, by the flag.
abbrev pub HasThreadFor :
    {D : Type 0} (V : Type 0) ⦃d : Double D⦄ ⦃w : JsonWriter D V⦄ → Bool → Gui D → System → Type 0
HasThreadFor V true u s =
    (s.launch ≡ launch_for V u.dialog.ais_stream (request u)) × (is_over s.point ≡ false)
HasThreadFor V false u s = s.point ≡ exited

-- The threads, by the settings and the dialog, if there is one.
abbrev pub IsServed :
    {D : Type 0} (V : Type 0) ⦃d : Double D⦄ ⦃w : JsonWriter D V⦄
    → Globals D
    → Option (Dialog D)
    → System
    → Type 0
IsServed V g none s = (s.streaming ≡ false) × (s.point ≡ exited)
IsServed V g (some b) s =
    (s.streaming ≡ b.ais_stream.streaming)
    × HasThreadFor V s.streaming (record { globals = g; dialog = b }) s

module _ (D S V : Type 0) ⦃wx : Wx⦄ ⦃d : Double D⦄ ⦃j : JsonReader V⦄ ⦃w : JsonWriter D V⦄
    ⦃c : Config D S⦄ (cb : Callbacks) (remembers : Bool) where
  -- The plugin and the threads of its dialog's client, from `Init` on, at the times when no handler
  -- runs; without a dialog, what the last client's threads have come to. A step of the plugin makes
  -- some calls of the client, of which all that is said here is that they make of the old client
  -- the new one, and that a deleted client has made a `Stop` last; the threads carry them out while
  -- the supervisor goes on.
  pub data Whole : Plugin D S → System → Type 0 where
    loaded :
        (config : Option S) (tool menu : ℕ) (x y z v : D)
        → Whole (init config tool menu x y z v) fresh_system
    supervises :
        (choice : Choice) (p : Plugin D S) (s t : System)
        → Whole p s
        → Threads.step V cb remembers (supervisor choice) s ≡ some t
        → Whole p t
    -- without a dialog
    unopened :
        (e : PluginEvent D) (p q : Plugin D S) (s : System)
        → Whole p s
        → p.my_gui ≡ none
        → step V e p ≡ some q
        → q.my_gui ≡ none
        → Whole q s
    -- the dialog is made, and its client
    opened :
        (e : PluginEvent D) (p q : Plugin D S) (b : Dialog D) (xs : List (ClientCall D))
        (s t : System)
        → Whole p s
        → p.my_gui ≡ none
        → step V e p ≡ some q
        → q.my_gui ≡ some b
        → replay V xs new_client ≡ b.ais_stream
        → PerformsAll D V cb remembers xs new_client fresh_system t
        → Whole q t
    handled :
        (e : PluginEvent D) (p q : Plugin D S) (a b : Dialog D) (xs : List (ClientCall D))
        (s t : System)
        → Whole p s
        → p.my_gui ≡ some a
        → step V e p ≡ some q
        → q.my_gui ≡ some b
        → replay V xs a.ais_stream ≡ b.ais_stream
        → PerformsAll D V cb remembers xs a.ais_stream s t
        → Whole q t
    -- the dialog is deleted, and its client, whose destructor calls `Stop`
    deleted :
        (e : PluginEvent D) (p q : Plugin D S) (a : Dialog D) (xs : List (ClientCall D))
        (s t : System)
        → Whole p s
        → p.my_gui ≡ some a
        → step V e p ≡ some q
        → q.my_gui ≡ none
        → PerformsAll D V cb remembers (xs ++ stop ∷ []) a.ais_stream s t
        → Whole q t
