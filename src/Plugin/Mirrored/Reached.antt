-- ===== src/Plugin/Mirrored/Reached.antt =====
-- The vessel list over the steps of the plugin.
use ais_live_pi.Common.{
  ℕ, ◌<◌, ◌≡◌, refl, ap, ◌∙◌, true, not, ◌==◌, Option, none, some, List, [], ◌∷◌, Text, length,
  arith, if-case, option-case, Option-cases, Bool-cases, inl, inr,
}
use ais_live_pi.Platform.Wx.{Wx, WxLaws}
use ais_live_pi.Platform.Double.{Double, whole}
use ais_live_pi.Platform.Json.{JsonWriter}
use ais_live_pi.Platform.Config.{Config}
use ais_live_pi.Stream.Output.{State}
use ais_live_pi.Settings.Globals.{Globals}
use ais_live_pi.Settings.Preferences.{
  Preferences, PreferencesEvent, edit, press_apply, press_ok, press_cancel, show_modal, on_init,
  update_settings,
}
use ais_live_pi.Gui.State.{Gui, Dialog, Geometry}
use ais_live_pi.Gui.Streaming.{update_token, on_ais_stream_state_changed}
use ais_live_pi.Gui.Search.{
  update_search_position, update_search_zone_on_coord, activate_follow_boat_mode,
  update_search_box_size, refresh_token_state, place_first, follow_boat, update_boat_position,
}
use ais_live_pi.Gui.Dialog.{delete_gui}
use ais_live_pi.Gui.Events.{GuiEvent, click_delete, edit_cell, type_spin, handle}
use ais_live_pi.Gui.Vessels.{u32_of_int}
use ais_live_pi.Gui.Vessels.Lists.{InRange}
use ais_live_pi.Gui.Fleet.{Fleet, Shows, IsOffered}
use ais_live_pi.Gui.Fleet.Lists.{length-RowsShow}
use ais_live_pi.Gui.Fleet.Refines.{restart-Shows, handle-Shows}
use ais_live_pi.Gui.Fleet.Sessions.{new_gui-Shows}
use ais_live_pi.Plugin.State.{Plugin, on_gui, send_nmea_sentence, set_cursor_lat_lon}
use ais_live_pi.Plugin.Toolbar.{
  MenuButton, DialogAction, no_action, update_to_boat, update_to_cursor, menu_entry, perform,
  create_gui, on_gui_closed, on_toolbar_tool_callback, on_context_menu_item_callback,
  restore_geometry,
}
use ais_live_pi.Plugin.Lifecycle.{
  save_settings, deinit, set_position_fix, show_preferences_dialog, window_settings,
}
use ais_live_pi.Plugin.Steps.{
  PluginEvent, cursor_moved, position_fixed, toolbar_pressed, menu_chosen, preferences_shown,
  deinitialised, gui_event, gui_closed, stream_state, stream_sentence, step, put_gui, window_step,
  closing_step,
}
use ais_live_pi.Plugin.Mirrored.{
  GuiMirrors, IsMirrored, KeepsShows, stop-Shows, shown-lists, on_gui-IsMirrored, closed-IsMirrored,
  toggle-IsMirrored,
}

-- What the widgets let the user do: a row that is there, one of the two columns, and numbers in the
-- spin control's range.
abbrev pub IsUsualIn : GuiEvent → List (Text × Text) → Type 0
IsUsualIn (click_delete (some i)) rows = i < length rows
IsUsualIn (edit_cell i column t) rows = (i < length rows) × (column < 2)
IsUsualIn (type_spin value) rows = InRange (u32_of_int value)
IsUsualIn _ rows = Unit

abbrev pub IsUsual : {D S : Type 0} → PluginEvent D → Plugin D S → Type 0
IsUsual (gui_event e) p = elim (p.my_gui) [ none ↦ Unit | some b ↦ IsUsualIn e b.widgets.rows ]
IsUsual _ p = Unit

usual-IsOffered :
    (e : GuiEvent) (rows : List (Text × Text)) (f : Fleet)
    → length rows ≡ length f.vessels
    → IsUsualIn e rows
    → IsOffered e f
usual-IsOffered (click_delete (some i)) rows f h k = omega (arith, h, k)
usual-IsOffered (edit_cell i column t) rows f h k = (omega (arith, h, k.0), k.1)
usual-IsOffered (type_spin value) rows f h k = k
usual-IsOffered _ rows f h k = tt

module _ {D : Type 0} where
  show_modal-lists :
      (events : List PreferencesEvent) (x : Preferences) (g : Globals D)
      → let t = (show_modal events x g).1 in
        (t.mmsi_list ≡ g.mmsi_list) × (t.mmsi_list_names ≡ g.mmsi_list_names)
  unfolding show_modal update_settings
  show_modal-lists [] x g = (refl, refl)
  show_modal-lists (edit y ∷ events) x g = show_modal-lists events y g
  show_modal-lists (press_apply ∷ events) x g = show_modal-lists events x (update_settings x g)
  show_modal-lists (press_ok ∷ events) x g = (refl, refl)
  show_modal-lists (press_cancel ∷ events) x g = (refl, refl)

  module _ ⦃wx : Wx⦄ where
    -- The lists of other settings with the same vessels.
    same_lists :
        (g h : Globals D) (o : Option (Dialog D))
        → g.mmsi_list ≡ h.mmsi_list
        → g.mmsi_list_names ≡ h.mmsi_list_names
        → GuiMirrors h o
        → GuiMirrors g o
    same_lists g h none m n k = rw (m, n) k
    same_lists g h (some b) m n (f, k) = (f, (m ∙ k.0, n ∙ k.1, k.2, k.3, k.4, k.5))

    mirrored-lists : (g : Globals D) (o : Option (Dialog D)) → GuiMirrors g o → GuiMirrors g none
    mirrored-lists g none h = h
    mirrored-lists g (some b) (f, h) = shown-lists (record { globals = g; dialog = b }) f h

    delete-Shows : KeepsShows {D = D} delete_gui
    unfolding delete_gui
    delete-Shows u f h = stop-Shows u f h

module _ {D : Type 0} (V : Type 0) ⦃wx : Wx⦄ ⦃d : Double D⦄ ⦃w : JsonWriter D V⦄ where
  position-Shows : (lat lon : D) → KeepsShows {D = D} (update_search_position V lat lon)
  unfolding update_search_position
  position-Shows lat lon u f h = restart-Shows V _ f h

  zone-Shows : (lat lon : D) → KeepsShows {D = D} (update_search_zone_on_coord V lat lon)
  unfolding update_search_zone_on_coord
  zone-Shows lat lon u f h = position-Shows lat lon _ f h

  activate-Shows : KeepsShows {D = D} (activate_follow_boat_mode V)
  unfolding activate_follow_boat_mode
  activate-Shows u f h = position-Shows _ _ _ f h

  token-Shows : KeepsShows {D = D} (refresh_token_state V)
  unfolding refresh_token_state update_search_box_size update_token
  token-Shows u f h = restart-Shows V _ f h

  place_first-Shows : KeepsShows {D = D} (place_first V)
  unfolding place_first
  place_first-Shows u f h =
      if-case (λ (v : Gui D). Shows v f) (not u.dialog.initial_boat_position_set) _ u
        (λ e. position-Shows _ _ _ f h) h

  follow_boat-Shows : KeepsShows {D = D} (follow_boat V)
  unfolding follow_boat
  follow_boat-Shows u f h =
      if-case (λ (v : Gui D). Shows v f) (u.dialog.follow_boat_mode) _ u
        (λ e.
          if-case (λ (v : Gui D). Shows v f) (d.eq (u.dialog.search_box_size) (whole 0)) u _
            (λ i. h)
            (if-case (λ (v : Gui D). Shows v f) (d.le _ _) _ u (λ i. position-Shows _ _ u f h) h))
        h

  boat-Shows : (lat lon : D) → KeepsShows {D = D} (update_boat_position V lat lon)
  unfolding update_boat_position
  boat-Shows lat lon u f h = follow_boat-Shows _ f (place_first-Shows _ f h)

  state-Shows :
      (state : State) (detail : Text)
      → KeepsShows {D = D} (on_ais_stream_state_changed {D = D} state detail)
  unfolding on_ais_stream_state_changed
  state-Shows state detail u f h = h

module _ {D S : Type 0} (V : Type 0) ⦃wx : Wx⦄ ⦃d : Double D⦄ ⦃w : JsonWriter D V⦄
    (laws : WxLaws) where
  create-IsMirrored :
      (geometry : Geometry) (p : Plugin D S) → IsMirrored p → IsMirrored (create_gui V geometry p)
  unfolding create_gui restore_geometry
  create-IsMirrored geometry p h = elim (Option-cases (p.my_gui)) [
    | inl e ↦
        let lists = rw e at h in
        rw (e, create_gui)
          (_, new_gui-Shows V laws geometry (p.globals) (lists.0) (lists.1) (lists.2))
    | inr (b, e) ↦ rw (e, create_gui) h
  ]

  perform-IsMirrored :
      (a : DialogAction) (p : Plugin D S) → IsMirrored p → IsMirrored (perform V a p)
  unfolding perform
  perform-IsMirrored no_action p h = h
  perform-IsMirrored update_to_boat p h = on_gui-IsMirrored _ p (activate-Shows V) h
  perform-IsMirrored update_to_cursor p h = on_gui-IsMirrored _ p (zone-Shows V _ _) h

  menu-IsMirrored :
      (button : Option MenuButton) (id : ℕ) (p : Plugin D S)
      → IsMirrored p
      → IsMirrored (on_context_menu_item_callback V button id p)
  unfolding on_context_menu_item_callback
  menu-IsMirrored button id p h = option-case IsMirrored (p.my_gui) p _ h λ b e.
      if-case IsMirrored (id == p.menu_id) _ p
        (λ i.
          if-case IsMirrored (menu_entry button).0 _ p
            (λ j. perform-IsMirrored (menu_entry button).1 p h) h)
        h

  toolbar-IsMirrored :
      (geometry : Geometry) (id : ℕ) (p : Plugin D S)
      → IsMirrored p
      → IsMirrored (on_toolbar_tool_callback V geometry id p)
  unfolding on_toolbar_tool_callback
  toolbar-IsMirrored geometry id p h =
      if-case IsMirrored (not (id == p.toolbar_id)) p _ (λ e. h)
        (toggle-IsMirrored _ (create-IsMirrored geometry p h))

  save-IsMirrored : ⦃c : Config D S⦄ (p : Plugin D S) → IsMirrored p → IsMirrored (save_settings p)
  unfolding save_settings window_settings
  save-IsMirrored p h = elim (Option-cases (p.my_gui)) [
    | inl e ↦ rw (e, save_settings) (rw e at h)
    | inr (b, e) ↦
        rw (e, save_settings)
          (same_lists (window_settings b (p.globals)) (p.globals) (some b) refl refl (rw e at h))
  ]

  token_box-IsMirrored :
      ⦃c : Config D S⦄ (events : List PreferencesEvent) (p : Plugin D S)
      → IsMirrored p
      → IsMirrored (show_preferences_dialog V events p)
  unfolding show_preferences_dialog
  token_box-IsMirrored events p h =
      let lists = show_modal-lists events (on_init p.globals) p.globals in
      let answered =
        same_lists (show_modal events (on_init p.globals) p.globals).1 (p.globals) (p.my_gui)
          lists.0 lists.1 h in
      if-case IsMirrored (show_modal events (on_init p.globals) p.globals).0 _ _
        (λ e. on_gui-IsMirrored _ _ (token-Shows V) (save-IsMirrored _ answered)) answered

  deinit-IsMirrored : ⦃c : Config D S⦄ (p : Plugin D S) → IsMirrored p → IsMirrored (deinit p)
  unfolding deinit
  deinit-IsMirrored p h =
      let saved = save-IsMirrored p h in
      let closed : Plugin D S = on_gui delete_gui (on_gui_closed (save_settings p)) in
      option-case IsMirrored ((save_settings p).my_gui) _ _ saved λ b e.
        mirrored-lists (closed.globals) (closed.my_gui)
          (on_gui-IsMirrored _ _ delete-Shows (closed-IsMirrored _ saved))

  shown_step :
      (e : GuiEvent) (p : Plugin D S) (b : Dialog D)
      → p.my_gui ≡ some b
      → b.widgets.shown ≡ true
      → window_step V e p ≡ put_gui p (handle V e (record { globals = p.globals; dialog = b }))
  unfolding window_step
  shown_step e p b i shown = ground (arith, i, shown)

  window-IsMirrored :
      (e : GuiEvent) (p : Plugin D S)
      → IsUsual (gui_event e) p
      → IsMirrored p
      → (q : Plugin D S) × (window_step V e p ≡ some q) × IsMirrored q
  unfolding window_step
  window-IsMirrored e p k h = elim (Option-cases (p.my_gui)) [
    | inl i ↦ (p, ground (arith, i), h)
    | inr (b, i) ↦ elim (Bool-cases (b.widgets.shown)) [
      | inr hidden ↦ (p, ground (arith, i, hidden), h)
      | inl shown ↦
          let u : Gui D = record { globals = p.globals; dialog = b } in
          let (f, s) = rw i at h in
          let rows = length-RowsShow (f.vessels) (b.widgets.rows) s.2 in
          let offered = usual-IsOffered e (b.widgets.rows) f rows (rw i at k) in
          let (t, done, shows) = handle-Shows V laws e u f offered s in
          (
            record p { globals = t.globals; my_gui = some t.dialog },
            shown_step e p b i shown ∙ ap (put_gui p) done,
            (_, shows),
          )
    ]
  ]

  pub step-IsMirrored :
      ⦃c : Config D S⦄ (e : PluginEvent D) (p : Plugin D S)
      → IsUsual e p
      → IsMirrored p
      → (q : Plugin D S) × (step V e p ≡ some q) × IsMirrored q
  unfolding step set_cursor_lat_lon set_position_fix closing_step send_nmea_sentence
  step-IsMirrored (cursor_moved lat lon) p k h = (_, refl, h)
  step-IsMirrored (position_fixed lat lon) p k h =
      (_, refl, on_gui-IsMirrored _ _ (boat-Shows V lat lon) h)
  step-IsMirrored (toolbar_pressed geometry id) p k h =
      (_, refl, toolbar-IsMirrored geometry id p h)
  step-IsMirrored (menu_chosen button id) p k h = (_, refl, menu-IsMirrored button id p h)
  step-IsMirrored (preferences_shown events) p k h = (_, refl, token_box-IsMirrored events p h)
  step-IsMirrored deinitialised p k h = (_, refl, deinit-IsMirrored p h)
  step-IsMirrored (gui_event e) p k h = window-IsMirrored e p k h
  step-IsMirrored gui_closed p k h = (
    _,
    refl,
    option-case IsMirrored (p.my_gui) p _ h
        λ b i. if-case IsMirrored (b.widgets.shown) _ p (λ s. closed-IsMirrored p h) h,
  )
  step-IsMirrored (stream_state state detail) p k h =
      (_, refl, on_gui-IsMirrored _ p (state-Shows V state detail) h)
  step-IsMirrored (stream_sentence t) p k h = (_, refl, h)
