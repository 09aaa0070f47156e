-- ===== src/Gui/Walk.antt =====
-- What all handlers of the dialog share (main_ui_derived.cpp): they edit members and widgets, and call
-- the stream's start, stop and restart.
use ais_live_pi.Common.{
  IfSome, IfSome-bind, IfSome-map, ℕ, ◌≡◌, refl, Bool, true, false, not, Option, none, some, Text,
  Option-cases, inl, inr, get_elem?, ◌==◌, if-case,
}
use ais_live_pi.Platform.Wx.{Wx}
use ais_live_pi.Platform.Double.{Double, whole}
use ais_live_pi.Platform.Json.{JsonWriter}
use ais_live_pi.Navigation.{great_circle_distance_nm, follow_threshold_nm}
use ais_live_pi.Gui.State.{Gui}
use ais_live_pi.Gui.Streaming.{
  set_widgets, restart_ais_stream, start_ais_stream, stop_ais_stream, update_token,
}
use ais_live_pi.Gui.Search.{
  update_search_position, update_search_zone_on_coord, activate_follow_boat_mode,
  on_follow_boat_mode, on_scroll, on_scroll_thumb_release, update_search_box_size,
  refresh_token_state, place_first, follow_boat, update_boat_position,
}
use ais_live_pi.Gui.Vessels.{
  erase_at, set_at, cell, u32_of_ulong, accepted_mmsi, add_mmsi_to_list, delete_mmsi_from_list,
  clear_mmsi_list, update_mmsi_list, edit_mmsi, edit_name, restore_mmsi,
  on_activate_vessel_following,
}
use ais_live_pi.Gui.Events.{
  GuiEvent, click_start, click_stop, click_add, click_clear, click_delete, check_follow_boat,
  check_following, scroll, thumb_release, edit_cell, type_spin, type_comment, put_cell, handle,
}

-- A relation between two states of the dialog that holds wherever neither the client nor the label
-- of its state changes, and for the calls of the stream.
pub record Walks (D V : Type 0) ⦃wx : Wx⦄ ⦃d : Double D⦄ ⦃w : JsonWriter D V⦄
    (R : Gui D → Gui D → Type 0) : Type 0 where
  pub edits :
      (u v : Gui D)
      → v.dialog.ais_stream ≡ u.dialog.ais_stream
      → v.dialog.widgets.state_label ≡ u.dialog.widgets.state_label
      → R u v
  pub joins : {t u v : Gui D} → R t u → R u v → R t v
  pub restarts : (u : Gui D) → R u (restart_ais_stream V u)
  pub starts : (u : Gui D) → R u (start_ais_stream V u)
  pub stops : (u : Gui D) → R u (stop_ais_stream u)
  pub updates_token : (u : Gui D) → R u (update_token u)

module _ {D V : Type 0} ⦃wx : Wx⦄ ⦃d : Double D⦄ ⦃w : JsonWriter D V⦄ {R : Gui D → Gui D → Type 0}
    (h : Walks D V R) where
  -- An edit and then a restart.
  restarted :
      (u v : Gui D)
      → v.dialog.ais_stream ≡ u.dialog.ais_stream
      → v.dialog.widgets.state_label ≡ u.dialog.widgets.state_label
      → R u (restart_ais_stream V v)
  restarted u v e f = h.joins (h.edits u v e f) (h.restarts v)

  position-Walks : (lat lon : D) (u : Gui D) → R u (update_search_position V lat lon u)
  unfolding update_search_position
  position-Walks lat lon u = restarted u _ refl refl

  -- An edit and then a new search position.
  moved :
      (u v : Gui D) (lat lon : D)
      → v.dialog.ais_stream ≡ u.dialog.ais_stream
      → v.dialog.widgets.state_label ≡ u.dialog.widgets.state_label
      → R u (update_search_position V lat lon v)
  moved u v lat lon e f = h.joins (h.edits u v e f) (position-Walks lat lon v)

  pub zone-Walks : (lat lon : D) (u : Gui D) → R u (update_search_zone_on_coord V lat lon u)
  unfolding update_search_zone_on_coord
  zone-Walks lat lon u = moved u _ lat lon refl refl

  pub activate-Walks : (u : Gui D) → R u (activate_follow_boat_mode V u)
  unfolding activate_follow_boat_mode
  activate-Walks u = moved u _ _ _ refl refl

  follow_mode-Walks : (checked : Bool) (u : Gui D) → R u (on_follow_boat_mode V checked u)
  unfolding on_follow_boat_mode
  follow_mode-Walks true u = moved u _ _ _ refl refl
  follow_mode-Walks false u = h.edits u _ refl refl

  pub box_size-Walks : (size : D) (u : Gui D) → R u (update_search_box_size V size u)
  unfolding update_search_box_size
  box_size-Walks size u = restarted u _ refl refl

  pub refresh-Walks : (u : Gui D) → R u (refresh_token_state V u)
  unfolding refresh_token_state
  refresh-Walks u = h.joins (h.updates_token u) (box_size-Walks _ _)

  place_first-Walks : (u : Gui D) → R u (place_first V u)
  unfolding place_first
  place_first-Walks u =
      if-case (R u) (not u.dialog.initial_boat_position_set) _ u (λ _. moved u _ _ _ refl refl)
        (h.edits u _ refl refl)

  follow_boat-Walks : (u : Gui D) → R u (follow_boat V u)
  unfolding follow_boat
  follow_boat-Walks u =
      if-case (R u) u.dialog.follow_boat_mode _ u
        (λ _.
          if-case (R u) (d.eq u.dialog.search_box_size (whole 0)) u _ (λ _. h.edits u _ refl refl)
            (if-case (R u)
              (d.le (follow_threshold_nm u.dialog.search_box_size u.dialog.boat_latitude) (
                great_circle_distance_nm u.dialog.search_latitude u.dialog.search_longitude
                  u.dialog.boat_latitude u.dialog.boat_longitude))
              _ u (λ _. position-Walks u.dialog.boat_latitude u.dialog.boat_longitude u)
              (h.edits u _ refl refl)))
        (h.edits u _ refl refl)

  pub boat-Walks : (lat lon : D) (u : Gui D) → R u (update_boat_position V lat lon u)
  unfolding update_boat_position
  boat-Walks lat lon u =
      h.joins (h.edits u _ refl refl) (h.joins (place_first-Walks _) (follow_boat-Walks _))

  add-Walks : (u : Gui D) → R u (add_mmsi_to_list V u)
  unfolding add_mmsi_to_list
  add-Walks u = if-case (R u) _ u _ (λ _. h.edits u _ refl refl) (restarted u _ refl refl)

  delete-Walks : (i : Option ℕ) (u : Gui D) → IfSome (R u) (delete_mmsi_from_list V i u)
  unfolding delete_mmsi_from_list
  delete-Walks none u = h.edits u _ refl refl
  delete-Walks (some i) u = IfSome-bind (R u) (erase_at u.globals.mmsi_list i) _ λ mmsis.
      IfSome-bind (R u) (erase_at u.globals.mmsi_list_names i) _ λ names. restarted u _ refl refl

  restore-Walks : (row : ℕ) (u : Gui D) → IfSome (R u) (restore_mmsi V row u)
  unfolding restore_mmsi
  restore-Walks row u = IfSome-bind (R u) (get_elem? u.globals.mmsi_list row) _ λ m.
      IfSome-bind (R u) (accepted_mmsi row (wx.format_09u m) u.globals.mmsi_list) _ λ parsed.
        IfSome-bind (R u) (set_at u.globals.mmsi_list row (u32_of_ulong parsed)) _
          λ mmsis. restarted u _ refl refl

  edit_mmsi-Walks : (row : ℕ) (text : Text) (u : Gui D) → IfSome (R u) (edit_mmsi V row text u)
  unfolding edit_mmsi
  edit_mmsi-Walks row text u = elim (Option-cases (accepted_mmsi row text u.globals.mmsi_list)) [
    | inl e ↦ rw (e, edit_mmsi) (restore-Walks row u)
    | inr (m, e) ↦
        rw (e, edit_mmsi)
          (IfSome-bind (R u) (set_at u.globals.mmsi_list row (u32_of_ulong m)) _
            λ mmsis. restarted u _ refl refl)
  ]

  edit_name-Walks : (row : ℕ) (text : Text) (u : Gui D) → IfSome (R u) (edit_name row text u)
  unfolding edit_name
  edit_name-Walks row text u =
      IfSome-bind (R u) (set_at _ row text) _ λ names. h.edits u _ refl refl

  update-Walks :
      (row column : ℕ) (u : Gui D) → IfSome (R u) (update_mmsi_list V (some row) column u)
  unfolding update_mmsi_list
  update-Walks row column u = IfSome-bind (R u) (cell u.dialog.widgets.rows row column) _ λ text.
      if-case (IfSome (R u)) (column == 0) _ _ (λ _. edit_mmsi-Walks row text u)
        (if-case (IfSome (R u)) (column == 1) _ _ (λ _. edit_name-Walks row text u)
          (h.edits u _ refl refl))

  pub handle-Walks : (e : GuiEvent) (u : Gui D) → IfSome (R u) (handle V e u)
  unfolding handle on_scroll on_scroll_thumb_release on_activate_vessel_following clear_mmsi_list
  handle-Walks click_start u = h.starts u
  handle-Walks click_stop u = h.stops u
  handle-Walks click_add u = add-Walks u
  handle-Walks click_clear u = restarted u _ refl refl
  handle-Walks (click_delete i) u = delete-Walks i u
  handle-Walks (check_follow_boat checked) u = follow_mode-Walks checked u
  handle-Walks (check_following checked) u = restarted u _ refl refl
  handle-Walks (scroll value) u = h.edits u _ refl refl
  handle-Walks (thumb_release value) u = h.joins (h.edits u _ refl refl) (box_size-Walks _ _)
  handle-Walks (edit_cell row column text) u =
      let v : Gui D =
        set_widgets u
          (record (u.dialog.widgets) { rows = put_cell u.dialog.widgets.rows row column text }) in
      IfSome-map (update_mmsi_list V (some row) column v) (λ x k. h.joins (h.edits u v refl refl) k)
        (update-Walks row column v)
  handle-Walks (type_spin value) u = h.edits u _ refl refl
  handle-Walks (type_comment text) u = h.edits u _ refl refl
