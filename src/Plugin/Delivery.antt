-- ===== src/Plugin/Delivery.antt =====
-- The stream's callbacks on their way to the plugin. The stream's thread posts a call to the dialog,
-- `CallAfter` in the two callbacks of main_ui_derived.cpp, and the main loop runs it later, between
-- the plugin's other steps. Pending calls go with the dialog, which `DeInit` deletes.
pub mod Buffer
pub mod Order
pub mod After
pub mod Framed
use ais_live_pi.Common.{Option, none, some, List, [], ◌∷◌, ◌++◌, Text, ◌>>=◌}
use ais_live_pi.Platform.Wx.{Wx}
use ais_live_pi.Platform.Double.{Double}
use ais_live_pi.Platform.Json.{JsonWriter}
use ais_live_pi.Platform.Config.{Config}
use ais_live_pi.Platform.Pending.{Pending}
use ais_live_pi.Stream.Output.{Output, state_changed, sentence, sent, dialled, State}
use ais_live_pi.Plugin.State.{Plugin}
use ais_live_pi.Plugin.Steps.{
  PluginEvent, cursor_moved, position_fixed, toolbar_pressed, menu_chosen, preferences_shown,
  deinitialised, gui_event, gui_closed, stream_state, stream_sentence, step,
}

-- A posted call: of `OnAisStreamStateChanged`, or of the plugin's `sendNmeaSentence`.
pub data Call : Type 0 where
  change_state : State → Text → Call
  send_sentence : Text → Call

-- The plugin and the calls that are pending on its dialog.
pub record Wired (D S Q : Type 0) : Type 0 where
  pub plugin : Plugin D S
  pub pending : Q

pub data WiredEvent (D : Type 0) : Type 0 where
  -- the stream makes an output
  output : Output → WiredEvent D
  -- the main loop runs the next pending call
  run_next : WiredEvent D
  -- the main loop does something else
  main : PluginEvent D → WiredEvent D

module _ {Q : Type 0} ⦃m : Pending Call Q⦄ where
  -- The callbacks that are registered with the client; what goes to the server has none.
  unfoldable pub post_output : Output → Q → Q
  post_output (state_changed state detail) q = m.post (change_state state detail) q
  post_output (sentence t) q = m.post (send_sentence t) q
  post_output (sent s) q = q
  post_output (dialled url header) q = q

  -- What is pending after a step of the main loop: the dialog's calls go with it.
  unfoldable pub pending_after : {D : Type 0} → PluginEvent D → Q → Q
  pending_after deinitialised q = m.empty
  pending_after _ q = q

-- The step that a call is, when it runs.
unfoldable pub run_call : {D : Type 0} → Call → PluginEvent D
run_call (change_state state detail) = stream_state state detail
run_call (send_sentence t) = stream_sentence t

module _ {D S Q : Type 0} (V : Type 0) ⦃wx : Wx⦄ ⦃d : Double D⦄ ⦃w : JsonWriter D V⦄
    ⦃c : Config D S⦄ ⦃m : Pending Call Q⦄ where
  unfoldable pub main_step : PluginEvent D → Plugin D S → Q → Option (Wired D S Q)
  main_step e p q = elim (step V e p) [
    | none ↦ none
    | some r ↦ some (record { plugin = r; pending = pending_after e q })
  ]

  -- `none` where the step cannot be made: without a dialog there is no stream to make an output, and
  -- without a pending call none to run.
  unfoldable pub wired_step : WiredEvent D → Wired D S Q → Option (Wired D S Q)
  unfolding main_step
  wired_step (output o) s = elim (s.plugin.my_gui) [
    | none ↦ none
    | some b ↦ some (record s { pending = post_output o s.pending })
  ]
  wired_step run_next s = elim (m.take s.pending) [
    | none ↦ none
    | some (call, rest) ↦ main_step (run_call call) (s.plugin) rest
  ]
  wired_step (main e) s = main_step e (s.plugin) (s.pending)

  unfoldable pub wired_run : List (WiredEvent D) → Wired D S Q → Option (Wired D S Q)
  wired_run [] s = some s
  wired_run (e ∷ es) s = wired_step e s >>= wired_run es
