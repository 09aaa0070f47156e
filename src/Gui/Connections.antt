-- ===== src/Gui/Connections.antt =====
-- The calls of `Connect` of `DialogMainGuiBase` (main_ui_base.cpp), the handlers that they name
-- (main_ui_base.h) and which of those `DialogMainGui` overrides (main_ui_derived.h).
pub mod Dispatch
use ais_live_pi.Common.{ℕ, Bool, true, false, not, Option, none, some, List, [], ◌∷◌, Text}
use ais_live_pi.Common.Int.{ℤ}
use ais_live_pi.Platform.Wx.{Wx}
use ais_live_pi.Platform.Double.{Double}
use ais_live_pi.Platform.Json.{JsonWriter}
use ais_live_pi.Platform.Events.{Connection, WxEvents, handler_of}
use ais_live_pi.Gui.State.{Gui, Dialog, Widgets}
use ais_live_pi.Gui.Streaming.{set_widgets, start_ais_stream, stop_ais_stream}
use ais_live_pi.Gui.Search.{on_follow_boat_mode, on_scroll, on_scroll_thumb_release}
use ais_live_pi.Gui.Vessels.{
  add_mmsi_to_list, delete_mmsi_from_list, clear_mmsi_list, update_mmsi_list,
  on_activate_vessel_following,
}
use ais_live_pi.Gui.Events.{
  GuiEvent, click_start, click_stop, click_add, click_clear, click_delete, check_follow_boat,
  check_following, scroll, thumb_release, edit_cell, type_spin, type_comment, put_cell,
}

-- What has handlers: the dialog itself and its controls.
pub data Control : Type 0 where
  dialog : Control
  button_start button_stop : Control
  check_box_follow_boat_mode : Control
  slider_search_box_size : Control
  button_add_mmsi_to_list : Control
  check_box_activate_vessel_following : Control
  data_view_list_ctrl_followed_vessels : Control
  button_delete_mmsi_from_list button_clear_mmsi_list : Control

-- The types of events that are connected.
pub data EventType : Type 0 where
  close_window : EventType
  button_clicked : EventType
  checkbox_clicked : EventType
  scroll_top scroll_bottom scroll_lineup scroll_linedown : EventType
  scroll_pageup scroll_pagedown scroll_thumbtrack scroll_thumbrelease : EventType
  scroll_changed : EventType
  item_value_changed : EventType

abbrev pub control_id : Control → ℕ
control_id dialog = 0
control_id button_start = 1
control_id button_stop = 2
control_id check_box_follow_boat_mode = 3
control_id slider_search_box_size = 4
control_id button_add_mmsi_to_list = 5
control_id check_box_activate_vessel_following = 6
control_id data_view_list_ctrl_followed_vessels = 7
control_id button_delete_mmsi_from_list = 8
control_id button_clear_mmsi_list = 9

abbrev pub type_id : EventType → ℕ
type_id close_window = 0
type_id button_clicked = 1
type_id checkbox_clicked = 2
type_id scroll_top = 3
type_id scroll_bottom = 4
type_id scroll_lineup = 5
type_id scroll_linedown = 6
type_id scroll_pageup = 7
type_id scroll_pagedown = 8
type_id scroll_thumbtrack = 9
type_id scroll_thumbrelease = 10
type_id scroll_changed = 11
type_id item_value_changed = 12

-- The virtual handlers of the base class.
pub data Handler : Type 0 where
  on_close : Handler
  on_button_click_start_stream on_button_click_stop_stream : Handler
  on_check_box_follow_boat_mode : Handler
  on_scroll_update_search_box_size : Handler
  on_scroll_thumb_release_update_search_box_size : Handler
  on_button_click_add_mmsi_to_list : Handler
  on_check_box_activate_vessel_following : Handler
  on_data_view_list_ctrl_item_value_changed : Handler
  on_button_click_delete_mmsi_from_list on_button_click_clear_mmsi_list : Handler

-- `DialogMainGui` overrides them all, and none of its handlers calls `Skip()`.
abbrev pub skips : Handler → Bool
skips h = false

abbrev pub connect : Control → EventType → Handler → Connection Handler
connect c t h = (control_id c, type_id t, h)

-- The calls, in their order.
unfoldable pub connections : List (Connection Handler)
connections =
    connect dialog close_window on_close
    ∷ connect button_start button_clicked on_button_click_start_stream
    ∷ connect button_stop button_clicked on_button_click_stop_stream
    ∷ connect check_box_follow_boat_mode checkbox_clicked on_check_box_follow_boat_mode
    ∷ connect slider_search_box_size scroll_top on_scroll_update_search_box_size
    ∷ connect slider_search_box_size scroll_bottom on_scroll_update_search_box_size
    ∷ connect slider_search_box_size scroll_lineup on_scroll_update_search_box_size
    ∷ connect slider_search_box_size scroll_linedown on_scroll_update_search_box_size
    ∷ connect slider_search_box_size scroll_pageup on_scroll_update_search_box_size
    ∷ connect slider_search_box_size scroll_pagedown on_scroll_update_search_box_size
    ∷ connect slider_search_box_size scroll_thumbtrack on_scroll_update_search_box_size
    ∷ connect slider_search_box_size scroll_thumbrelease on_scroll_update_search_box_size
    ∷ connect slider_search_box_size scroll_changed on_scroll_update_search_box_size
    ∷ connect slider_search_box_size scroll_thumbrelease
        on_scroll_thumb_release_update_search_box_size
    ∷ connect button_add_mmsi_to_list button_clicked on_button_click_add_mmsi_to_list
    ∷ connect check_box_activate_vessel_following checkbox_clicked
        on_check_box_activate_vessel_following
    ∷ connect data_view_list_ctrl_followed_vessels item_value_changed
        on_data_view_list_ctrl_item_value_changed
    ∷ connect button_delete_mmsi_from_list button_clicked on_button_click_delete_mmsi_from_list
    ∷ connect button_clear_mmsi_list button_clicked on_button_click_clear_mmsi_list
    ∷ []

-- What a handler asks of its event, or of the selection of the list.
pub record Args : Type 0 where
  pub is_checked : Bool
  pub selected_row : Option ℕ
  pub item_row : Option ℕ
  pub item_column : ℕ

abbrev pub no_args : Args
no_args = record { is_checked = false; selected_row = none; item_row = none; item_column = 0 }

abbrev pub args_of : GuiEvent → Args
args_of (check_follow_boat checked) = record no_args { is_checked = checked }
args_of (check_following checked) = record no_args { is_checked = checked }
args_of (click_delete selected) = record no_args { selected_row = selected }
args_of (edit_cell row column text) = record no_args { item_row = some row; item_column = column }
args_of _ = no_args

module _ {D : Type 0} where
  -- What the user's action has changed in the control when its event comes.
  abbrev pub user_change : GuiEvent → Gui D → Gui D
  user_change (check_follow_boat checked) u =
      set_widgets u (record (u.dialog.widgets) { follow_box = checked })
  user_change (check_following checked) u =
      set_widgets u (record (u.dialog.widgets) { following_box = checked })
  user_change (scroll value) u = set_widgets u (record (u.dialog.widgets) { slider_value = value })
  user_change (thumb_release value) u =
      set_widgets u (record (u.dialog.widgets) { slider_value = value })
  user_change (edit_cell row column text) u =
      set_widgets u
        (record (u.dialog.widgets) { rows = put_cell (u.dialog.widgets.rows) row column text })
  user_change _ u = u

module _ {D : Type 0} (V : Type 0) ⦃wx : Wx⦄ ⦃d : Double D⦄ ⦃w : JsonWriter D V⦄ where
  -- The handlers; `on_close` is the plugin's, and changes nothing here.
  abbrev pub call : Handler → Args → Gui D → Option (Gui D)
  call on_close a u = some u
  call on_button_click_start_stream a u = some (start_ais_stream V u)
  call on_button_click_stop_stream a u = some (stop_ais_stream u)
  call on_check_box_follow_boat_mode a u = some (on_follow_boat_mode V (a.is_checked) u)
  call on_scroll_update_search_box_size a u = some (on_scroll u)
  call on_scroll_thumb_release_update_search_box_size a u = some (on_scroll_thumb_release V u)
  call on_button_click_add_mmsi_to_list a u = some (add_mmsi_to_list V u)
  call on_check_box_activate_vessel_following a u = some (on_activate_vessel_following V u)
  call on_data_view_list_ctrl_item_value_changed a u =
      update_mmsi_list V (a.item_row) (a.item_column) u
  call on_button_click_delete_mmsi_from_list a u = delete_mmsi_from_list V (a.selected_row) u
  call on_button_click_clear_mmsi_list a u = some (clear_mmsi_list V u)

  abbrev pub call_found : Option Handler → Args → Gui D → Option (Gui D)
  call_found none a u = some u
  call_found (some h) a u = call h a u

  -- An event of a control, from the user's action to the end of its handler.
  unfoldable pub dispatch :
      ⦃ev : WxEvents Handler⦄ → Control → EventType → GuiEvent → Gui D → Option (Gui D)
  unfolding connections
  dispatch c t e u =
      call_found (handler_of skips connections (control_id c) (type_id t)) (args_of e)
        (user_change e u)
