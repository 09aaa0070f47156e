-- ===== src/Gui/Events/Sync.antt =====
-- What a running stream is subscribed to, against what the dialog and the settings ask for.
use ais_live_pi.Common.{
  IfSome, IfSome-bind, ℕ, ◌≡◌, Bool, true, false, Option, none, some, Text, arith, Bool-cases,
  Option-cases, inl, inr, if◌then◌else◌, ◌==◌, get_elem?,
}
use ais_live_pi.Platform.Wx.{Wx}
use ais_live_pi.Platform.Double.{Double}
use ais_live_pi.Platform.Json.{JsonWriter}
use ais_live_pi.Stream.Client.{
  Client, Launch, Request, message_for, launch_for, start, restart, stop, launch, has_thread,
  set_token, set_token_enabled,
}
use ais_live_pi.Gui.State.{Gui}
use ais_live_pi.Gui.Streaming.{
  request, restart_ais_stream, start_ais_stream, stop_ais_stream, update_token,
}
use ais_live_pi.Gui.Search.{
  update_search_position, update_search_zone_on_coord, activate_follow_boat_mode,
  on_follow_boat_mode, on_scroll, on_scroll_thumb_release, update_search_box_size,
  refresh_token_state, place_first, follow_boat, update_boat_position,
}
use ais_live_pi.Gui.Vessels.{
  erase_at, set_at, cell, contains, u32_of_int, u32_of_ulong, accepted_mmsi, add_mmsi_to_list,
  delete_mmsi_from_list, clear_mmsi_list, update_mmsi_list, edit_mmsi, edit_name, restore_mmsi,
  on_activate_vessel_following,
}
use ais_live_pi.Gui.Events.{
  GuiEvent, click_start, click_stop, click_add, click_clear, click_delete, check_follow_boat,
  check_following, scroll, thumb_release, edit_cell, type_spin, type_comment, handle,
}

module _ {D : Type 0} (V : Type 0) ⦃d : Double D⦄ ⦃w : JsonWriter D V⦄ where
  -- The thread that a client with these settings runs for a request, if it streams.
  abbrev pub subscribed : Client → Request D → Option Launch
  subscribed c r = if c.streaming then some (launch_for V c r) else none

  -- While streaming is wanted a thread runs, with the message and the token for the present
  -- search area, vessels and settings of the stream; else none runs.
  abbrev pub IsSynced : Gui D → Type 0
  IsSynced u = u.dialog.ais_stream.thread ≡ subscribed (u.dialog.ais_stream) (request u)

  IsSynced-has_thread :
      (u : Gui D) → IsSynced u → has_thread (u.dialog.ais_stream) ≡ u.dialog.ais_stream.streaming
  IsSynced-has_thread u h = ground arith

  restart-IsSynced :
      (u : Gui D)
      → has_thread (u.dialog.ais_stream) ≡ u.dialog.ais_stream.streaming
      → IsSynced (restart_ais_stream V u)
  unfolding restart_ais_stream restart start launch stop request message_for
  restart-IsSynced u h = ground arith

  pub stop-IsSynced : (u : Gui D) → IsSynced u → IsSynced (stop_ais_stream u)
  unfolding stop_ais_stream stop request
  stop-IsSynced u h = ground arith

  start-IsSynced : ⦃wx : Wx⦄ (u : Gui D) → IsSynced u → IsSynced (start_ais_stream V u)
  unfolding start_ais_stream update_token start launch request message_for set_token
      set_token_enabled
  start-IsSynced u h = ground arith

module _ {D : Type 0} (V : Type 0) ⦃wx : Wx⦄ ⦃d : Double D⦄ ⦃w : JsonWriter D V⦄ (u : Gui D)
    (h : IsSynced V u) where
  -- Handlers that end in a restart: what else they change before does not matter.
  position-IsSynced : (lat lon : D) → IsSynced V (update_search_position V lat lon u)
  unfolding update_search_position
  position-IsSynced lat lon = restart-IsSynced V _ (IsSynced-has_thread V u h)

  follow-IsSynced : (checked : Bool) → IsSynced V (on_follow_boat_mode V checked u)
  unfolding on_follow_boat_mode update_search_position request
  follow-IsSynced true = restart-IsSynced V _ (IsSynced-has_thread V u h)
  follow-IsSynced false = h

  add-IsSynced : IsSynced V (add_mmsi_to_list V u)
  unfolding add_mmsi_to_list
  add-IsSynced =
      elim (Bool-cases
        (contains (u.globals.mmsi_list) (u32_of_int (u.dialog.widgets.spin_value)))) [
          | inl old ↦ rw old h
          | inr new ↦ rw new (restart-IsSynced V _ (IsSynced-has_thread V u h))
        ]

  delete-IsSynced : (i : Option ℕ) → IfSome (IsSynced V) (delete_mmsi_from_list V i u)
  unfolding delete_mmsi_from_list
  delete-IsSynced none = h
  delete-IsSynced (some i) = IfSome-bind (IsSynced V) (erase_at (u.globals.mmsi_list) i) _ λ mmsis.
      IfSome-bind (IsSynced V) (erase_at (u.globals.mmsi_list_names) i) _
        λ names. restart-IsSynced V _ (IsSynced-has_thread V u h)

  restore-IsSynced : (row : ℕ) → IfSome (IsSynced V) (restore_mmsi V row u)
  unfolding restore_mmsi request
  restore-IsSynced row = IfSome-bind (IsSynced V) (get_elem? (u.globals.mmsi_list) row) _ λ m.
      IfSome-bind (IsSynced V) (accepted_mmsi row (wx.format_09u m) (u.globals.mmsi_list)) _
        λ parsed.
          IfSome-bind (IsSynced V) (set_at (u.globals.mmsi_list) row (u32_of_ulong parsed)) _
            λ mmsis. restart-IsSynced V _ (IsSynced-has_thread V u h)

  edit_mmsi-IsSynced : (row : ℕ) (text : Text) → IfSome (IsSynced V) (edit_mmsi V row text u)
  unfolding edit_mmsi
  edit_mmsi-IsSynced row text = elim (Option-cases (accepted_mmsi row text (u.globals.mmsi_list))) [
    | inl e ↦ rw (e, edit_mmsi) (restore-IsSynced row)
    | inr (m, e) ↦
        rw (e, edit_mmsi)
          (IfSome-bind (IsSynced V) (set_at (u.globals.mmsi_list) row (u32_of_ulong m)) _
            λ mmsis. restart-IsSynced V _ (IsSynced-has_thread V u h))
  ]

  edit_name-IsSynced : (row : ℕ) (text : Text) → IfSome (IsSynced V) (edit_name row text u)
  unfolding edit_name request
  edit_name-IsSynced row text = IfSome-bind (IsSynced {D = D} V) (set_at _ row text) _ λ names. h

  update-IsSynced : (row column : ℕ) → IfSome (IsSynced V) (update_mmsi_list V (some row) column u)
  unfolding update_mmsi_list
  update-IsSynced row column =
      IfSome-bind (IsSynced V) (cell (u.dialog.widgets.rows) row column) _ λ text.
        elim (Bool-cases (column == 0)) [
          | inl c ↦ rw c (edit_mmsi-IsSynced row text)
          | inr c ↦ elim (Bool-cases (column == 1)) [
            | inl f ↦ rw (c, f) (edit_name-IsSynced row text)
            | inr f ↦ rw (c, f) h
          ]
        ]

module _ {D : Type 0} (V : Type 0) ⦃wx : Wx⦄ ⦃d : Double D⦄ ⦃w : JsonWriter D V⦄ where
  -- If the stream is subscribed to what the dialog and the settings ask for, it is so after every
  -- event of the dialog that is handled: each handler that changes the area, the vessels or
  -- the following restarts a running stream.
  pub handle-IsSynced :
      (e : GuiEvent) (u : Gui D) → IsSynced V u → IfSome (IsSynced V) (handle V e u)
  unfolding handle on_scroll on_scroll_thumb_release update_search_box_size
      on_activate_vessel_following clear_mmsi_list request
  handle-IsSynced click_start u h = start-IsSynced V u h
  handle-IsSynced click_stop u h = stop-IsSynced V u h
  handle-IsSynced click_add u h = add-IsSynced V u h
  handle-IsSynced click_clear u h = restart-IsSynced V _ (IsSynced-has_thread V u h)
  handle-IsSynced (click_delete i) u h = delete-IsSynced V u h i
  handle-IsSynced (check_follow_boat checked) u h = follow-IsSynced V u h checked
  handle-IsSynced (check_following checked) u h = restart-IsSynced V _ (IsSynced-has_thread V u h)
  handle-IsSynced (scroll value) u h = h
  handle-IsSynced (thumb_release value) u h = restart-IsSynced V _ (IsSynced-has_thread V u h)
  handle-IsSynced (edit_cell row column text) u h = update-IsSynced V _ h row column
  handle-IsSynced (type_spin value) u h = h
  handle-IsSynced (type_comment text) u h = h

  place_first-IsSynced : (u : Gui D) → IsSynced V u → IsSynced V (place_first V u)
  unfolding place_first update_search_position request
  place_first-IsSynced u h = elim (Bool-cases (u.dialog.initial_boat_position_set)) [
    | inl placed ↦ rw placed h
    | inr unplaced ↦ rw unplaced (restart-IsSynced V _ (IsSynced-has_thread V u h))
  ]

  follow_boat-IsSynced : (u : Gui D) → IsSynced V u → IsSynced V (follow_boat V u)
  unfolding follow_boat
  follow_boat-IsSynced u h =
      ground (arith, h, position-IsSynced V u h (u.dialog.boat_latitude) (u.dialog.boat_longitude))

  -- If the stream is subscribed to what the dialog and the settings ask for, it is so after what
  -- the plugin asks of the dialog: a new position of the boat, a search position at the cursor or
  -- on the boat, a change of the token.
  pub update-position-IsSynced :
      (lat lon : D) (u : Gui D)
      → IsSynced V u
      → IsSynced V (update_boat_position V lat lon u)
        × IsSynced V (update_search_zone_on_coord V lat lon u)
        × IsSynced V (activate_follow_boat_mode V u)
        × IsSynced V (refresh_token_state V u)
  unfolding update_boat_position update_search_zone_on_coord activate_follow_boat_mode
      refresh_token_state update_search_box_size update_search_position update_token set_token
      set_token_enabled request
  update-position-IsSynced lat lon u h = (
    follow_boat-IsSynced _ (place_first-IsSynced _ h),
    restart-IsSynced V _ (IsSynced-has_thread V u h),
    restart-IsSynced V _ (IsSynced-has_thread V u h),
    restart-IsSynced V _ (IsSynced-has_thread V u h),
  )
