-- ===== src/Gui/Dialog.antt =====
-- The constructor and the destructor of `DialogMainGui` (main_ui_derived.cpp).
use ais_live_pi.Common.{ℕ, suc, none, some, List, [], ◌∷◌, Text, get_elem?}
use ais_live_pi.Platform.Wx.{Wx}
use ais_live_pi.Platform.Double.{Double}
use ais_live_pi.Platform.Json.{JsonWriter}
use ais_live_pi.Stream.Client.{set_state_callback}
use ais_live_pi.Settings.Globals.{Globals}
use ais_live_pi.Gui.State.{Gui, Geometry, default_dialog}
use ais_live_pi.Gui.Streaming.{set_widgets, set_stream, stop_ais_stream}
use ais_live_pi.Gui.Search.{update_search_box_size}

module _ ⦃wx : Wx⦄ where
  -- The rows for the numbers from index `i` on.
  unfoldable pub rows_from : ℕ → List ℕ → List Text → List (Text × Text)
  rows_from i [] names = []
  rows_from i (m ∷ ms) names =
      (wx.format_09u m, elim (get_elem? names i) [ none ↦ [] | some name ↦ name ])
      ∷ rows_from (suc i) ms names

  module _ {D : Type 0} where
    -- The check box and the rows, from the settings.
    unfoldable pub fill_widgets : Gui D → Gui D
    fill_widgets u = set_widgets u (record (u.dialog.widgets) {
      following_box = u.globals.activate_vessels_following;
      rows = rows_from 0 (u.globals.mmsi_list) (u.globals.mmsi_list_names);
    })

    unfoldable pub register_callback : Gui D → Gui D
    register_callback u = set_stream u (set_state_callback (u.dialog.ais_stream))

module _ {D : Type 0} (V : Type 0) ⦃wx : Wx⦄ ⦃d : Double D⦄ ⦃w : JsonWriter D V⦄ where
  unfoldable pub new_gui : Geometry → Globals D → Gui D
  new_gui geometry g =
      let made : Gui D = record { globals = g; dialog = default_dialog geometry } in
      register_callback (fill_widgets (update_search_box_size V g.last_search_box_size made))

-- The destructor stops the stream.
unfoldable pub delete_gui : {D : Type 0} → Gui D → Gui D
delete_gui u = stop_ais_stream u
