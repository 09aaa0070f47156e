-- ===== src/Gui/Events.antt =====
-- The events of the dialog and their handlers, as `DialogMainGuiBase` connects them
-- (main_ui_base.cpp); `OnClose` is the plugin's, in Plugin. An event first puts into the widget
-- what the user put there.
pub mod Listed
pub mod Shown
pub mod Sync
pub mod Opened
use ais_live_pi.Common.{
  ℕ, Bool, Option, none, some, List, [], ◌∷◌, Text, zero, suc, ◌==◌, if◌then◌else◌,
}
use ais_live_pi.Common.Int.{ℤ}
use ais_live_pi.Platform.Wx.{Wx}
use ais_live_pi.Platform.Double.{Double}
use ais_live_pi.Platform.Json.{JsonWriter}
use ais_live_pi.Gui.State.{Gui, Dialog, Widgets}
use ais_live_pi.Gui.Streaming.{set_widgets, start_ais_stream, stop_ais_stream}
use ais_live_pi.Gui.Search.{on_follow_boat_mode, on_scroll, on_scroll_thumb_release}
use ais_live_pi.Gui.Vessels.{
  add_mmsi_to_list, delete_mmsi_from_list, clear_mmsi_list, update_mmsi_list,
  on_activate_vessel_following,
}

pub data GuiEvent : Type 0 where
  -- the buttons
  click_start click_stop click_add click_clear : GuiEvent
  -- with the selected row, if one is
  click_delete : Option ℕ → GuiEvent
  -- the check boxes, with their new values
  check_follow_boat check_following : Bool → GuiEvent
  -- the slider, at its new value
  scroll thumb_release : ℤ → GuiEvent
  -- the row, the column and the new text of a cell
  edit_cell : ℕ → ℕ → Text → GuiEvent
  -- typing, which has no handler
  type_spin : ℤ → GuiEvent
  type_comment : Text → GuiEvent

-- The widget's rows with the user's text in a cell.
abbrev pub put_cell : List (Text × Text) → ℕ → ℕ → Text → List (Text × Text)
put_cell [] row column t = []
put_cell ((m, n) ∷ rows) zero column t =
    (if column == 0 then t else m, if column == 0 then n else t) ∷ rows
put_cell ((m, n) ∷ rows) (suc row) column t = (m, n) ∷ put_cell rows row column t

module _ {D : Type 0} (V : Type 0) ⦃wx : Wx⦄ ⦃d : Double D⦄ ⦃w : JsonWriter D V⦄ where
  unfoldable pub handle : GuiEvent → Gui D → Option (Gui D)
  handle click_start u = some (start_ais_stream V u)
  handle click_stop u = some (stop_ais_stream u)
  handle click_add u = some (add_mmsi_to_list V u)
  handle click_clear u = some (clear_mmsi_list V u)
  handle (click_delete selected) u = delete_mmsi_from_list V selected u
  handle (check_follow_boat checked) u = some (on_follow_boat_mode V checked u)
  handle (check_following checked) u = some (
      on_activate_vessel_following V
        (set_widgets u (record (u.dialog.widgets) { following_box = checked })))
  handle (scroll value) u =
      some (on_scroll (set_widgets u (record (u.dialog.widgets) { slider_value = value })))
  handle (thumb_release value) u = some (
      on_scroll_thumb_release V
        (set_widgets u (record (u.dialog.widgets) { slider_value = value })))
  handle (edit_cell row column text) u = update_mmsi_list V (some row) column (
      set_widgets u
        (record (u.dialog.widgets) { rows = put_cell (u.dialog.widgets.rows) row column text }))
  handle (type_spin value) u =
      some (set_widgets u (record (u.dialog.widgets) { spin_value = value }))
  handle (type_comment text) u = some (set_widgets u (record (u.dialog.widgets) { comment = text }))
