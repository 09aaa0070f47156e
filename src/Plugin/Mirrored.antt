-- ===== src/Plugin/Mirrored.antt =====
-- The vessel list in the settings and in the window, and what the plugin's own operations keep of it.
pub mod Reached
pub mod Usual
use ais_live_pi.Common.{
  ℕ, ◌+◌, ◌^◌, ◌<◌, ◌≡◌, refl, ap, ◌∙◌, sym, Bool, true, false, not, ◌==◌, Option, none, some, List,
  [], ◌∷◌, Text, All, length, arith, IfSome, if-case, option-case, Option-cases, Bool-cases, inl,
  inr, if◌then◌else◌,
}
use ais_live_pi.Platform.Wx.{Wx, WxLaws}
use ais_live_pi.Platform.Double.{Double}
use ais_live_pi.Platform.Json.{JsonWriter}
use ais_live_pi.Platform.Config.{Config}
use ais_live_pi.Stream.Output.{State}
use ais_live_pi.Settings.Globals.{Globals, initial_globals}
use ais_live_pi.Settings.Preferences.{PreferencesEvent, show_modal, on_init}
use ais_live_pi.Gui.State.{Gui, Dialog, Widgets, Geometry}
use ais_live_pi.Gui.Streaming.{
  stop_ais_stream, stop-globals, stop-widgets, on_ais_stream_state_changed,
}
use ais_live_pi.Gui.Search.{
  update_search_position, update_search_zone_on_coord, activate_follow_boat_mode,
  update_search_box_size, refresh_token_state, place_first, follow_boat, update_boat_position,
}
use ais_live_pi.Gui.Dialog.{new_gui, delete_gui}
use ais_live_pi.Gui.Events.{GuiEvent, click_delete, edit_cell, handle}
use ais_live_pi.Gui.Vessels.Lists.{InRange, IsDistinct}
use ais_live_pi.Gui.Fleet.{Vessel, Fleet, numbers, names, RowsShow, Shows, IsOffered}
use ais_live_pi.Gui.Fleet.Lists.{length-numbers, length-names, length-RowsShow}
use ais_live_pi.Gui.Fleet.Refines.{restart-Shows, handle-Shows}
use ais_live_pi.Gui.Fleet.Sessions.{IsUint32, new_gui-Shows, opened_fleet}
use ais_live_pi.Plugin.State.{Plugin, on_gui, send_nmea_sentence, set_cursor_lat_lon}
use ais_live_pi.Plugin.Toolbar.{
  MenuButton, DialogAction, no_action, update_to_boat, update_to_cursor, menu_entry, perform,
  create_gui, toggle, release, show_gui, on_gui_closed, on_toolbar_tool_callback,
  on_context_menu_item_callback, restore_geometry,
}
use ais_live_pi.Plugin.Lifecycle.{
  init, load_settings, save_settings, deinit, set_position_fix, show_preferences_dialog,
  window_settings,
}
use ais_live_pi.Plugin.Steps.{
  PluginEvent, cursor_moved, position_fixed, toolbar_pressed, menu_chosen, preferences_shown,
  deinitialised, gui_event, gui_closed, stream_state, stream_sentence, step, put_gui, window_step,
  closing_step,
}

-- The lists of the settings go together, the numbers nine-digit and distinct, and a window shows them.
abbrev pub GuiMirrors : {D : Type 0} ⦃wx : Wx⦄ → Globals D → Option (Dialog D) → Type 0
GuiMirrors g none =
    (length g.mmsi_list_names ≡ length g.mmsi_list)
    × All InRange g.mmsi_list
    × IsDistinct g.mmsi_list
GuiMirrors g (some b) = (f : Fleet) × Shows (record { globals = g; dialog = b }) f

abbrev pub IsMirrored : {D S : Type 0} ⦃wx : Wx⦄ → Plugin D S → Type 0
IsMirrored p = GuiMirrors (p.globals) (p.my_gui)

module _ {D : Type 0} ⦃wx : Wx⦄ where
  -- What keeps the lists and the widgets that show them, keeps what is shown.
  abbrev pub KeepsShows : (Gui D → Gui D) → Type 0
  KeepsShows fn = (u : Gui D) (f : Fleet) → Shows u f → Shows (fn u) f

  pub stop-Shows : KeepsShows (stop_ais_stream {D = D})
  stop-Shows u f h = rw (stop-globals u, stop-widgets u) h

  pub show-Shows : (shown : Bool) → KeepsShows (show_gui {D = D} shown)
  unfolding show_gui
  show-Shows shown u f h = h

  pub shown-lists :
      (u : Gui D) (f : Fleet)
      → Shows u f
      → (length u.globals.mmsi_list_names ≡ length u.globals.mmsi_list)
        × All InRange u.globals.mmsi_list
        × IsDistinct u.globals.mmsi_list
  shown-lists u f h = (
    rw (h.0, h.1) (length-names (f.vessels) ∙ sym (length-numbers (f.vessels))),
    rw (h.0) h.5.0,
    rw (h.0) h.5.1,
  )

module _ {D S : Type 0} ⦃wx : Wx⦄ where
  pub on_gui-IsMirrored :
      (fn : Gui D → Gui D) (p : Plugin D S)
      → KeepsShows fn
      → IsMirrored p
      → IsMirrored (on_gui fn p)
  unfolding on_gui
  on_gui-IsMirrored fn p k h = elim (Option-cases (p.my_gui)) [
    | inl e ↦ rw (e, on_gui) h
    | inr (b, e) ↦
        let (f, s) = rw e at h in
        rw (e, on_gui) (f, k (record { globals = p.globals; dialog = b }) f s)
  ]

  release-IsMirrored : (p : Plugin D S) → IsMirrored p → IsMirrored (release p)
  unfolding release
  release-IsMirrored p h = elim (Option-cases (p.my_gui)) [
    | inl e ↦ rw (e, release) h
    | inr (b, e) ↦
        let (f, s) = rw e at h in
        rw (e, release)
          (
            f,
            if-case (λ (u : Gui D). Shows u f) (not p.globals.keep_window_active) _ _
                (λ k. stop-Shows (record { globals = p.globals; dialog = b }) f s) s,
          )
  ]

  pub closed-IsMirrored : (p : Plugin D S) → IsMirrored p → IsMirrored (on_gui_closed p)
  unfolding on_gui_closed
  closed-IsMirrored p h = on_gui-IsMirrored _ _ (show-Shows false) (release-IsMirrored _ h)

  pub toggle-IsMirrored : (p : Plugin D S) → IsMirrored p → IsMirrored (toggle p)
  unfolding toggle
  toggle-IsMirrored p h =
      if-case IsMirrored (not p.is_toolbar_active) _ _
        (λ e. on_gui-IsMirrored _ _ (show-Shows true) h)
        (release-IsMirrored _ (on_gui-IsMirrored _ _ (show-Shows false) h))
