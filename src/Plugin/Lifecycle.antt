-- ===== src/Plugin/Lifecycle.antt =====
-- `Init`, `DeInit`, `SaveSettings`, `LoadSettings`, `SetPositionFix` and `ShowPreferencesDialog`
-- (plugin.cpp).
use ais_live_pi.Common.{ℕ, false, Option, none, some, List, [], if◌then◌else◌}
use ais_live_pi.Platform.Wx.{Wx}
use ais_live_pi.Platform.Double.{Double}
use ais_live_pi.Platform.Json.{JsonWriter}
use ais_live_pi.Platform.Config.{Config}
use ais_live_pi.Settings.Globals.{Globals, initial_globals}
use ais_live_pi.Settings.Store
use ais_live_pi.Settings.Preferences.{PreferencesEvent, on_init, show_modal}
use ais_live_pi.Gui.State.{Dialog}
use ais_live_pi.Gui.Search.{update_boat_position, refresh_token_state}
use ais_live_pi.Gui.Dialog.{delete_gui}
use ais_live_pi.Plugin.State.{Plugin, on_gui}
use ais_live_pi.Plugin.Toolbar.{on_gui_closed}

module _ {D : Type 0} where
  -- The window's size and position and the box size, into the settings.
  unfoldable pub window_settings : Dialog D → Globals D → Globals D
  window_settings b g = record g {
    window_width = b.widgets.geometry.width;
    window_height = b.widgets.geometry.height;
    window_pos_x = b.widgets.geometry.pos_x;
    window_pos_y = b.widgets.geometry.pos_y;
    last_search_box_size = b.search_box_size;
  }

module _ {D S : Type 0} ⦃wx : Wx⦄ ⦃c : Config D S⦄ where
  unfoldable pub save_settings : Plugin D S → Plugin D S
  save_settings p =
      let g : Globals D = elim p.my_gui [
        | none ↦ p.globals
        | some b ↦ window_settings b p.globals
      ] in
      record p {
        globals = g;
        config_settings = elim p.config_settings [
          | none ↦ none
          | some s ↦ some (Store.save_settings g s)
        ];
      }

  unfoldable pub load_settings : ⦃d : Double D⦄ → Plugin D S → Plugin D S
  load_settings p = elim p.config_settings [
    | none ↦ p
    | some s ↦ record p { globals = Store.load_settings s }
  ]

  -- The constructor and `Init`, on the store that OpenCPN has and the numbers that it gives the
  -- button and the entry. The positions are not initialised, and are arguments.
  unfoldable pub init : ⦃d : Double D⦄ → Option S → ℕ → ℕ → D → D → D → D → Plugin D S
  init config toolbar menu clat clon blat blon =
      let p : Plugin D S = record {
        globals = initial_globals;
        my_gui = none;
        config_settings = config;
        toolbar_id = toolbar;
        menu_id = menu;
        is_toolbar_active = false;
        toolbar_item_state = false;
        menu_item_viz = false;
        cursor_lat = clat;
        cursor_lon = clon;
        boat_lat = blat;
        boat_lon = blon;
        nmea_buffer = [];
      } in
      load_settings p

  -- `Close` has the window's handler called, which is `OnGuiClosed`.
  unfoldable pub deinit : Plugin D S → Plugin D S
  deinit q =
      let p = save_settings q in
      elim p.my_gui [
        | none ↦ p
        | some b ↦ record (on_gui delete_gui (on_gui_closed p)) {
          my_gui = none;
          is_toolbar_active = false;
          toolbar_item_state = false;
          menu_item_viz = false;
        }
      ]

module _ {D S : Type 0} (V : Type 0) ⦃wx : Wx⦄ ⦃d : Double D⦄ ⦃w : JsonWriter D V⦄ where
  unfoldable pub set_position_fix : D → D → Plugin D S → Plugin D S
  set_position_fix lat lon p =
      on_gui (update_boat_position V lat lon) (record p { boat_lat = lat; boat_lon = lon })

  -- With what the user does in the dialog.
  unfoldable pub show_preferences_dialog :
      ⦃c : Config D S⦄ → List PreferencesEvent → Plugin D S → Plugin D S
  show_preferences_dialog events p =
      let answer = show_modal events (on_init p.globals) p.globals in
      let q = record p { globals = answer.1 } in
      if answer.0 then on_gui (refresh_token_state V) (save_settings q) else q
