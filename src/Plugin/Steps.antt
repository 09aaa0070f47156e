-- ===== src/Plugin/Steps.antt =====
-- What can happen to the plugin, as one step: a callback of OpenCPN, an event of the window or a
-- report of the stream.
use ais_live_pi.Common.{ℕ, ◌≡◌, Option, none, some, List, Text, if◌then◌else◌}
use ais_live_pi.Platform.Wx.{Wx}
use ais_live_pi.Platform.Double.{Double}
use ais_live_pi.Platform.Json.{JsonWriter}
use ais_live_pi.Platform.Config.{Config}
use ais_live_pi.Stream.Output.{State}
use ais_live_pi.Settings.Preferences.{PreferencesEvent}
use ais_live_pi.Gui.State.{Gui, Geometry}
use ais_live_pi.Gui.Streaming.{on_ais_stream_state_changed}
use ais_live_pi.Gui.Events.{GuiEvent, handle}
use ais_live_pi.Plugin.State.{Plugin, on_gui, send_nmea_sentence, set_cursor_lat_lon}
use ais_live_pi.Plugin.Toolbar.{
  MenuButton, on_gui_closed, on_toolbar_tool_callback, on_context_menu_item_callback,
}
use ais_live_pi.Plugin.Lifecycle.{init, deinit, set_position_fix, show_preferences_dialog}

pub data PluginEvent (D : Type 0) : Type 0 where
  -- the callbacks of OpenCPN
  cursor_moved position_fixed : D → D → PluginEvent D
  toolbar_pressed : Geometry → ℕ → PluginEvent D
  menu_chosen : Option MenuButton → ℕ → PluginEvent D
  preferences_shown : List PreferencesEvent → PluginEvent D
  deinitialised : PluginEvent D
  -- an event of the window, and its closing
  gui_event : GuiEvent → PluginEvent D
  gui_closed : PluginEvent D
  -- the callbacks of the stream, in the main thread
  stream_state : State → Text → PluginEvent D
  stream_sentence : Text → PluginEvent D

module _ {D S : Type 0} where
  -- What a handler made of the dialog and the settings, if it came to its end.
  abbrev pub put_gui : Plugin D S → Option (Gui D) → Option (Plugin D S)
  put_gui p none = none
  put_gui p (some u) = some (record p { globals = u.globals; my_gui = some u.dialog })

  unfoldable pub closing_step : Plugin D S → Plugin D S
  closing_step p = elim p.my_gui [
    | none ↦ p
    | some b ↦ if b.widgets.shown then on_gui_closed p else p
  ]

module _ {D S : Type 0} (V : Type 0) ⦃wx : Wx⦄ ⦃d : Double D⦄ ⦃w : JsonWriter D V⦄ where
  -- An event of the window, which only a window that is shown has.
  unfoldable pub window_step : GuiEvent → Plugin D S → Option (Plugin D S)
  window_step e p = elim p.my_gui [
    | none ↦ some p
    | some b ↦
        if b.widgets.shown
        then put_gui p (handle V e (record { globals = p.globals; dialog = b }))
        else some p
  ]

  -- `none` where a vector would be read or written outside its range.
  unfoldable pub step : ⦃c : Config D S⦄ → PluginEvent D → Plugin D S → Option (Plugin D S)
  step (cursor_moved lat lon) p = some (set_cursor_lat_lon lat lon p)
  step (position_fixed lat lon) p = some (set_position_fix V lat lon p)
  step (toolbar_pressed geometry id) p = some (on_toolbar_tool_callback V geometry id p)
  step (menu_chosen button id) p = some (on_context_menu_item_callback V button id p)
  step (preferences_shown events) p = some (show_preferences_dialog V events p)
  step deinitialised p = some (deinit p)
  step (gui_event e) p = window_step e p
  step gui_closed p = some (closing_step p)
  step (stream_state state detail) p = some (on_gui (on_ais_stream_state_changed state detail) p)
  step (stream_sentence sentence) p = some (send_nmea_sentence sentence p)

-- The states that the plugin reaches from `Init` on.
pub data Reachable {D S : Type 0} (V : Type 0) ⦃wx : Wx⦄ ⦃d : Double D⦄ ⦃w : JsonWriter D V⦄
    ⦃c : Config D S⦄ : Plugin D S → Type 0 where
  started :
      (config : Option S) (tool menu : ℕ) (x y z v : D)
      → Reachable V (init config tool menu x y z v)
  stepped :
      (p q : Plugin D S) (e : PluginEvent D) → Reachable V p → step V e p ≡ some q → Reachable V q
