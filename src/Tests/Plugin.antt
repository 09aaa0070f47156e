-- ===== src/Tests/Plugin.antt =====
-- Examples of the plugin's properties, on the libraries of Sample.
use ais_live_pi.Common.{ℕ, ◌≡◌, refl, true, false, ◌&&◌, none, some, List, [], ◌∷◌, codes}
use ais_live_pi.Settings.Preferences.{
  Preferences, PreferencesEvent, edit, press_apply, press_ok, press_cancel, show_modal, on_init,
}
use ais_live_pi.Plugin.Applied.{changed, show_preferences_dialog_lem}
use ais_live_pi.Gui.State.{default_dialog}
use ais_live_pi.Plugin.State.{Plugin}
use ais_live_pi.Plugin.Lifecycle.{init, show_preferences_dialog}
use ais_live_pi.Plugin.Toolbar.{on_gui_closed, toggle}
use ais_live_pi.Plugin.Closing.{on_gui_closed_lem, toggle-on_gui_closed}
use ais_live_pi.Plugin.Steps.{toolbar_pressed, step, Reachable, started, stepped}
use ais_live_pi.Plugin.InStep.{IsInStep, shows, has_gui, streams}
use ais_live_pi.Plugin.Visibility.{Reachable-IsInStep}
use ais_live_pi.Tests.Text.{digit_wx}
use ais_live_pi.Tests.Sample.{nat_double, Json, json_writer, Store, list_config}
use ais_live_pi.Tests.Gui.{small_window, two_vessels}

-- OpenCPN loads the plugin with an empty store, and the user presses the toolbar button.
abbrev pub loaded_plugin : Plugin ℕ Store
loaded_plugin = init (some []) 7 8 0 0 0 0

abbrev pub opened_plugin : Plugin ℕ Store
opened_plugin = elim (step Json (toolbar_pressed small_window 7) loaded_plugin) [
  | none ↦ loaded_plugin
  | some p ↦ p
]

opened_plugin-Reachable : Reachable Json opened_plugin
unfolding step
opened_plugin-Reachable =
    stepped loaded_plugin opened_plugin (toolbar_pressed small_window 7)
      (started (some []) 7 8 0 0 0 0) refl

Reachable-IsInStep_example : IsInStep opened_plugin
Reachable-IsInStep_example = Reachable-IsInStep Json opened_plugin opened_plugin-Reachable

-- A new token that the preferences dialog is left with by "OK".
token_settings :
    (show_modal
      (edit (record {
        restore_pos_box = true;
        restore_size_box = true;
        keep_active_box = false;
        token_ctrl = codes "t";
      })
        ∷ press_ok
        ∷ [])
      (on_init loaded_plugin.globals)
      loaded_plugin.globals).0
    ≡ true
unfolding show_modal
token_settings = refl

-- A plugin with two vessels in its list, whose window is open.
abbrev pub busy_plugin : Plugin ℕ Store
busy_plugin = record {
  globals = two_vessels;
  my_gui = some (default_dialog small_window);
  config_settings = some [];
  toolbar_id = 7;
  menu_id = 8;
  is_toolbar_active = true;
  toolbar_item_state = true;
  menu_item_viz = true;
  cursor_lat = 0;
  cursor_lon = 0;
  boat_lat = 0;
  boat_lon = 0;
  nmea_buffer = [];
}

on_gui_closed_lem_example :
    (shows (on_gui_closed busy_plugin) ≡ false)
    × (has_gui (on_gui_closed busy_plugin) ≡ true)
    × ((on_gui_closed busy_plugin).is_toolbar_active ≡ false)
    × (streams (on_gui_closed busy_plugin) ≡ (streams busy_plugin && true))
    × ((on_gui_closed busy_plugin).toolbar_item_state ≡ (streams busy_plugin && true))
    × ((on_gui_closed busy_plugin).menu_item_viz ≡ true)
    × ((on_gui_closed busy_plugin).globals ≡ two_vessels)
    × ((on_gui_closed busy_plugin).config_settings ≡ some [])
on_gui_closed_lem_example = on_gui_closed_lem busy_plugin (default_dialog small_window) refl

toggle-on_gui_closed_example : toggle busy_plugin ≡ on_gui_closed busy_plugin
toggle-on_gui_closed_example =
    toggle-on_gui_closed busy_plugin (default_dialog small_window) refl refl

-- A new token that is applied, and then given up with Cancel.
abbrev new_token : Preferences
new_token = record {
  restore_pos_box = true;
  restore_size_box = true;
  keep_active_box = true;
  token_ctrl = codes "t";
}

abbrev apply_and_cancel : List PreferencesEvent
apply_and_cancel = edit new_token ∷ press_apply ∷ press_cancel ∷ []

show_preferences_dialog_lem_example :
    show_preferences_dialog Json apply_and_cancel busy_plugin
    ≡ record busy_plugin { globals = changed (some new_token) busy_plugin.globals }
show_preferences_dialog_lem_example =
    show_preferences_dialog_lem Json apply_and_cancel busy_plugin refl
