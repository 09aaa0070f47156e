-- ===== src/Gui/Connections/Dispatch.antt =====
-- Where the events of the dialog come from, and that their handlers are those of `handle`.
use ais_live_pi.Common.{ℕ, ◌≡◌, refl, ap, Bool, Option, none, some, Text, arith, if◌then◌else◌}
use ais_live_pi.Common.Int.{ℤ}
use ais_live_pi.Platform.Wx.{Wx}
use ais_live_pi.Platform.Double.{Double, clamp, whole}
use ais_live_pi.Platform.Json.{JsonWriter}
use ais_live_pi.Platform.Events.{WxEvents, WxEventsLaws, connected, first_handling, handler_of}
use ais_live_pi.Gui.State.{Gui}
use ais_live_pi.Settings.Globals.{has_token}
use ais_live_pi.Gui.Streaming.{restart_ais_stream}
use ais_live_pi.Gui.Search.{
  on_follow_boat_mode, on_scroll, on_scroll_thumb_release, update_search_box_size, box_label,
}
use ais_live_pi.Gui.Events.{
  GuiEvent, click_start, click_stop, click_add, click_clear, click_delete, check_follow_boat,
  check_following, scroll, thumb_release, edit_cell, type_spin, type_comment, handle,
}
use ais_live_pi.Gui.Connections.{
  Control, button_start, button_stop, check_box_follow_boat_mode, slider_search_box_size,
  button_add_mmsi_to_list, check_box_activate_vessel_following,
  data_view_list_ctrl_followed_vessels, button_delete_mmsi_from_list, button_clear_mmsi_list,
  EventType, button_clicked, checkbox_clicked, scroll_top, scroll_bottom, scroll_lineup,
  scroll_linedown, scroll_pageup, scroll_pagedown, scroll_thumbtrack, scroll_thumbrelease,
  scroll_changed, item_value_changed, control_id, type_id, connections, skips, dispatch, Handler,
  on_button_click_start_stream, on_button_click_stop_stream, on_check_box_follow_boat_mode,
  on_scroll_update_search_box_size, on_scroll_thumb_release_update_search_box_size,
  on_button_click_add_mmsi_to_list, on_check_box_activate_vessel_following,
  on_data_view_list_ctrl_item_value_changed, on_button_click_delete_mmsi_from_list,
  on_button_click_clear_mmsi_list,
}

-- The slider's events but for the release of its thumb.
pub data IsMove : EventType → Type 0 where
  top : IsMove scroll_top
  bottom : IsMove scroll_bottom
  line_up : IsMove scroll_lineup
  line_down : IsMove scroll_linedown
  page_up : IsMove scroll_pageup
  page_down : IsMove scroll_pagedown
  thumb_track : IsMove scroll_thumbtrack
  changed : IsMove scroll_changed

-- The control and the type of event behind each event of the dialog that has a handler.
pub data ComesFrom : Control → EventType → GuiEvent → Type 0 where
  starts : ComesFrom button_start button_clicked click_start
  stops : ComesFrom button_stop button_clicked click_stop
  adds : ComesFrom button_add_mmsi_to_list button_clicked click_add
  clears : ComesFrom button_clear_mmsi_list button_clicked click_clear
  deletes : (i : Option ℕ) → ComesFrom button_delete_mmsi_from_list button_clicked (click_delete i)
  follows : (b : Bool) → ComesFrom check_box_follow_boat_mode checkbox_clicked (check_follow_boat b)
  activates :
      (b : Bool)
      → ComesFrom check_box_activate_vessel_following checkbox_clicked (check_following b)
  moves : {t : EventType} (z : ℤ) → IsMove t → ComesFrom slider_search_box_size t (scroll z)
  releases : (z : ℤ) → ComesFrom slider_search_box_size scroll_thumbrelease (thumb_release z)
  edits :
      (row column : ℕ) (text : Text)
      → ComesFrom data_view_list_ctrl_followed_vessels item_value_changed
          (edit_cell row column text)

-- The handler for each event.
abbrev pub handler_for : GuiEvent → Option Handler
handler_for click_start = some on_button_click_start_stream
handler_for click_stop = some on_button_click_stop_stream
handler_for click_add = some on_button_click_add_mmsi_to_list
handler_for click_clear = some on_button_click_clear_mmsi_list
handler_for (click_delete i) = some on_button_click_delete_mmsi_from_list
handler_for (check_follow_boat b) = some on_check_box_follow_boat_mode
handler_for (check_following b) = some on_check_box_activate_vessel_following
handler_for (scroll z) = some on_scroll_update_search_box_size
handler_for (thumb_release z) = some on_scroll_thumb_release_update_search_box_size
handler_for (edit_cell row column text) = some on_data_view_list_ctrl_item_value_changed
handler_for (type_spin z) = none
handler_for (type_comment text) = none

module _ ⦃ev : WxEvents Handler⦄ (laws : WxEventsLaws Handler) where
  handler_of-handler_for :
      {c : Control} {t : EventType} {e : GuiEvent}
      → ComesFrom c t e
      → handler_of skips connections (control_id c) (type_id t) ≡ handler_for e
  unfolding connections handler_of connected first_handling
  handler_of-handler_for (moves z top) = ap (first_handling skips) (laws.in_order-reverse _)
  handler_of-handler_for (moves z bottom) = ap (first_handling skips) (laws.in_order-reverse _)
  handler_of-handler_for (moves z line_up) = ap (first_handling skips) (laws.in_order-reverse _)
  handler_of-handler_for (moves z line_down) = ap (first_handling skips) (laws.in_order-reverse _)
  handler_of-handler_for (moves z page_up) = ap (first_handling skips) (laws.in_order-reverse _)
  handler_of-handler_for (moves z page_down) = ap (first_handling skips) (laws.in_order-reverse _)
  handler_of-handler_for (moves z thumb_track) = ap (first_handling skips) (laws.in_order-reverse _)
  handler_of-handler_for (moves z changed) = ap (first_handling skips) (laws.in_order-reverse _)
  handler_of-handler_for _ = ap (first_handling skips) (laws.in_order-reverse _)

module _ {D : Type 0} (V : Type 0) ⦃wx : Wx⦄ ⦃d : Double D⦄ ⦃w : JsonWriter D V⦄
    ⦃ev : WxEvents Handler⦄ where
  -- If wxWidgets tries the handlers of an event in the reverse order of their connection, then
  -- each event of a control that has a handler, from the user's action on, does what `handle` does
  -- for it: the table of `Connect` calls ties it to that handler. Of the two handlers that are
  -- connected to the release of the slider's thumb only the one that sets the size of the box
  -- runs.
  pub dispatch-handle :
      WxEventsLaws Handler
      → {c : Control} {t : EventType} {e : GuiEvent} → ComesFrom c t e
      → (u : Gui D) → dispatch V c t e u ≡ handle V e u
  unfolding dispatch handle on_follow_boat_mode
  dispatch-handle laws starts u = rw (dispatch, handler_of-handler_for laws starts) refl
  dispatch-handle laws stops u = rw (dispatch, handler_of-handler_for laws stops) refl
  dispatch-handle laws adds u = rw (dispatch, handler_of-handler_for laws adds) refl
  dispatch-handle laws clears u = rw (dispatch, handler_of-handler_for laws clears) refl
  dispatch-handle laws (deletes i) u = rw (dispatch, handler_of-handler_for laws (deletes i)) refl
  dispatch-handle laws (follows b) u = rw (dispatch, handler_of-handler_for laws (follows b)) refl
  dispatch-handle laws (activates b) u =
      rw (dispatch, handler_of-handler_for laws (activates b)) refl
  dispatch-handle laws (moves z m) u = rw (dispatch, handler_of-handler_for laws (moves z m)) refl
  dispatch-handle laws (releases z) u = rw (dispatch, handler_of-handler_for laws (releases z)) refl
  dispatch-handle laws (edits i c t) u =
      rw (dispatch, handler_of-handler_for laws (edits i c t)) refl

  -- If wxWidgets tries the handlers of an event in the reverse order of their connection: a move
  -- of the slider that is no release of its thumb (by a key, by a click beside the thumb, while it
  -- is dragged) shows the slider's value in the label of the box's size, and leaves the size that
  -- is searched, the stream and the settings as they are; the release of the thumb sets the
  -- searched size to the slider's value, within 0 and 20 with a token or 10 without, and the label
  -- shows that size.
  pub slider-box_size :
      WxEventsLaws Handler
      → {t : EventType} → IsMove t
      → (z : ℤ) (u : Gui D)
      → ((v : Gui D) × (dispatch V slider_search_box_size t (scroll z) u ≡ some v)
          × (v.dialog.widgets.box_size_label ≡ box_label (d.of_int z))
          × (v.dialog.search_box_size ≡ u.dialog.search_box_size)
          × (v.dialog.ais_stream ≡ u.dialog.ais_stream)
          × (v.globals ≡ u.globals))
        × ((v : Gui D) × (dispatch V slider_search_box_size scroll_thumbrelease (thumb_release z) u
              ≡ some v)
            × (v.dialog.search_box_size
                ≡ clamp (d.of_int z) (whole 0) (whole (if has_token u.globals then 20 else 10)))
            × (v.dialog.widgets.box_size_label ≡ box_label v.dialog.search_box_size))
  unfolding handle on_scroll on_scroll_thumb_release update_search_box_size restart_ais_stream
  slider-box_size laws m z u = (
    (_, dispatch-handle laws (moves z m) u, refl, refl, refl, refl),
    (_, dispatch-handle laws (releases z) u, ground arith, ground arith),
  )
