-- ===== src/Plugin/State.antt =====
-- The members of `Plugin` (plugin.h), the settings, and of OpenCPN what the plugin sets.
use ais_live_pi.Common.{ℕ, Bool, Option, none, some, List, [], ◌++◌, ◌∷◌, Text}
use ais_live_pi.Settings.Globals.{Globals}
use ais_live_pi.Gui.State.{Gui, Dialog}

pub record Plugin (D S : Type 0) : Type 0 where
  pub globals : Globals D
  -- `myGUI`, which is null before the toolbar button is first pressed
  pub my_gui : Option (Dialog D)
  -- the store behind `configSettings`, if that is not null
  pub config_settings : Option S
  pub toolbar_id : ℕ
  pub menu_id : ℕ
  pub is_toolbar_active : Bool
  -- the last `SetToolbarItemState` and the last `SetCanvasContextMenuItemViz`
  pub toolbar_item_state : Bool
  pub menu_item_viz : Bool
  pub cursor_lat : D
  pub cursor_lon : D
  pub boat_lat : D
  pub boat_lon : D
  -- what went to `PushNMEABuffer`
  pub nmea_buffer : List Text

module _ {D S : Type 0} where
  -- A call on `myGUI`, where that is not null.
  unfoldable pub on_gui : (Gui D → Gui D) → Plugin D S → Plugin D S
  on_gui f p = elim p.my_gui [
    | none ↦ p
    | some b ↦
        let u = f (record { globals = p.globals; dialog = b }) in
        record p { globals = u.globals; my_gui = some u.dialog }
  ]

  unfoldable pub send_nmea_sentence : Text → Plugin D S → Plugin D S
  send_nmea_sentence sentence p = record p { nmea_buffer = p.nmea_buffer ++ sentence ∷ [] }

  unfoldable pub set_cursor_lat_lon : D → D → Plugin D S → Plugin D S
  set_cursor_lat_lon lat lon p = record p { cursor_lat = lat; cursor_lon = lon }
