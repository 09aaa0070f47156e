-- ===== src/Plugin/Passes/Steps.antt =====
-- Every step of the plugin, followed.
use ais_live_pi.Common.{
  IfSome, ℕ, ◌≡◌, refl, not, Option, none, some, List, [], ◌∷◌, Option-cases, inl, inr, if-case,
  option-case, ◌==◌,
}
use mathlib.Core.Path.{subst}
use ais_live_pi.Platform.Wx.{Wx}
use ais_live_pi.Platform.Double.{Double}
use ais_live_pi.Platform.Json.{JsonWriter}
use ais_live_pi.Platform.Config.{Config}
use ais_live_pi.Settings.Globals.{Globals}
use ais_live_pi.Settings.Preferences.{
  Preferences, PreferencesEvent, edit, press_apply, press_ok, press_cancel, on_init,
  update_settings, show_modal,
}
use ais_live_pi.Gui.State.{Gui, Dialog, Geometry}
use ais_live_pi.Gui.Streaming.{request}
use ais_live_pi.Gui.Dialog.{new_gui}
use ais_live_pi.Gui.Events.{GuiEvent}
use ais_live_pi.Plugin.State.{Plugin, send_nmea_sentence, set_cursor_lat_lon}
use ais_live_pi.Plugin.Toolbar.{
  MenuButton, DialogAction, no_action, update_to_boat, update_to_cursor, menu_entry, perform,
  restore_geometry, create_gui, on_toolbar_tool_callback, on_context_menu_item_callback,
}
use ais_live_pi.Plugin.Lifecycle.{
  window_settings, save_settings, deinit, set_position_fix, show_preferences_dialog,
}
use ais_live_pi.Plugin.Steps.{
  PluginEvent, cursor_moved, position_fixed, toolbar_pressed, menu_chosen, preferences_shown,
  deinitialised, gui_event, gui_closed, stream_state, stream_sentence, step, put_gui, window_step,
  closing_step,
}
use ais_live_pi.Plugin.Passes.{
  Goes, Goes-trans, same-Goes, state-Goes, boat-Goes, zone-Goes, activate-Goes, refresh-Goes,
  new_gui-Goes, handle-Goes,
}
use ais_live_pi.Plugin.Passes.Walk.{
  Passes, Passes-none, Passes-refl, From, on_gui-From, globals-From, closed-From, toggle-From,
}

module _ {D : Type 0} where
  update_settings-request :
      (events : List PreferencesEvent) (x : Preferences) (h : Globals D)
      → ((show_modal events x h).1.activate_vessels_following ≡ h.activate_vessels_following)
        × ((show_modal events x h).1.mmsi_list ≡ h.mmsi_list)
  unfolding show_modal update_settings
  update_settings-request [] x h = (refl, refl)
  update_settings-request (edit y ∷ events) x h = update_settings-request events y h
  update_settings-request (press_apply ∷ events) x h =
      update_settings-request events x (update_settings x h)
  update_settings-request (press_ok ∷ events) x h = (refl, refl)
  update_settings-request (press_cancel ∷ events) x h = (refl, refl)

module _ {D : Type 0} (V : Type 0) ⦃wx : Wx⦄ ⦃d : Double D⦄ ⦃w : JsonWriter D V⦄ where
  -- A new dialog begins anew.
  new_gui-From :
      (g : Globals D) (geometry : Geometry) (h : Globals D)
      → let u = restore_geometry (new_gui V geometry h) in Passes V g none u.globals (some u.dialog)
  unfolding restore_geometry request
  new_gui-From g geometry h =
      (h, geometry, Goes-trans (new_gui-Goes geometry h) (same-Goes _ _ refl refl))

module _ {D S : Type 0} (V : Type 0) ⦃wx : Wx⦄ ⦃d : Double D⦄ ⦃w : JsonWriter D V⦄ (g : Globals D)
    (o : Option (Dialog D)) where
  perform-From : (a : DialogAction) (q : Plugin D S) → From V g o q → From V g o (perform V a q)
  unfolding perform
  perform-From no_action q h = h
  perform-From update_to_boat q h = on_gui-From V g o _ q activate-Goes h
  perform-From update_to_cursor q h = on_gui-From V g o _ q (zone-Goes _ _) h

  menu-From :
      (button : Option MenuButton) (id : ℕ) (q : Plugin D S)
      → From V g o q
      → From V g o (on_context_menu_item_callback V button id q)
  unfolding on_context_menu_item_callback
  menu-From button id q h = option-case (From V g o) q.my_gui q _ h λ b e.
      if-case (From V g o) (id == q.menu_id) _ q
        (λ i.
          if-case (From V g o) (menu_entry button).0 _ q
            (λ j. perform-From (menu_entry button).1 q h) h)
        h

  save-From : ⦃c : Config D S⦄ (q : Plugin D S) → From V g o q → From V g o (save_settings q)
  unfolding save_settings window_settings
  save-From q h = elim (Option-cases q.my_gui) [
    | inl e ↦ rw (e, save_settings) (rw e at h)
    | inr (b, e) ↦
        let saved = globals-From V g o q (window_settings b q.globals) refl refl h in
        rw (e, save_settings) (rw e at saved)
  ]

  token_box-From :
      ⦃c : Config D S⦄ (events : List PreferencesEvent) (q : Plugin D S)
      → From V g o q
      → From V g o (show_preferences_dialog V events q)
  unfolding show_preferences_dialog
  token_box-From events q h =
      let kept = update_settings-request events (on_init q.globals) q.globals in
      let answered =
        globals-From V g o q (show_modal events (on_init q.globals) q.globals).1 kept.0 kept.1 h in
      if-case (From V g o) (show_modal events (on_init q.globals) q.globals).0 _ _
        (λ e. on_gui-From V g o _ _ refresh-Goes (save-From _ answered)) answered

  deinit-From : ⦃c : Config D S⦄ (q : Plugin D S) → From V g o q → From V g o (deinit q)
  unfolding deinit
  deinit-From q h =
      option-case (From V g o) (save_settings q).my_gui _ _ (save-From q h)
        λ b e. Passes-none V g o _

module _ {D S : Type 0} (V : Type 0) ⦃wx : Wx⦄ ⦃d : Double D⦄ ⦃w : JsonWriter D V⦄ where
  -- From a state on to another.
  abbrev pub Follows : Plugin D S → Plugin D S → Type 0
  Follows p q = From V p.globals p.my_gui q

  create-Follows : (geometry : Geometry) (p : Plugin D S) → Follows p (create_gui V geometry p)
  unfolding create_gui
  create-Follows geometry p = elim (Option-cases p.my_gui) [
    | inl e ↦ rw (e, create_gui) (new_gui-From V p.globals geometry p.globals)
    | inr (b, e) ↦
        rw (e, create_gui)
          (subst (λ x. Passes V p.globals x p.globals p.my_gui) e
            (Passes-refl V p.globals p.my_gui))
  ]

  toolbar-Follows :
      (geometry : Geometry) (id : ℕ) (p : Plugin D S)
      → Follows p (on_toolbar_tool_callback V geometry id p)
  unfolding on_toolbar_tool_callback
  toolbar-Follows geometry id p =
      if-case (Follows p) (not (id == p.toolbar_id)) p _ (λ e. Passes-refl V p.globals p.my_gui)
        (toggle-From V p.globals p.my_gui _ (create-Follows geometry p))

  put-Follows :
      (p : Plugin D S) (b : Dialog D) (h : Option (Gui D))
      → p.my_gui ≡ some b
      → IfSome (Goes D V (record { globals = p.globals; dialog = b })) h
      → IfSome (Follows p) (put_gui p h)
  put-Follows p b none e f = tt
  put-Follows p b (some u) e f = rw e f

  window-Follows : (e : GuiEvent) (p : Plugin D S) → IfSome (Follows p) (window_step V e p)
  unfolding window_step
  window-Follows e p =
      let still = Passes-refl V p.globals p.my_gui in
      option-case (IfSome (Follows p)) p.my_gui (some p) _ still λ b i.
        if-case (IfSome (Follows p)) b.widgets.shown _ (some p)
          (λ s. put-Follows p b _ i (handle-Goes V e (record { globals = p.globals; dialog = b })))
          still

  closing-Follows : (p : Plugin D S) → Follows p (closing_step p)
  unfolding closing_step
  closing-Follows p =
      let still = Passes-refl V p.globals p.my_gui in
      option-case (Follows p) p.my_gui p _ still λ b i.
        if-case (Follows p) b.widgets.shown _ p (λ s. closed-From V p.globals p.my_gui p still)
          still

  -- In every step of the plugin the dialog's client changes by calls of its methods alone, and a
  -- stream that is subscribed to what the dialog and the settings ask for stays so; a new dialog is
  -- made with a new client, which goes on in the same way.
  pub step-Follows :
      ⦃c : Config D S⦄ (e : PluginEvent D) (p : Plugin D S) → IfSome (Follows p) (step V e p)
  unfolding step set_position_fix send_nmea_sentence set_cursor_lat_lon
  step-Follows (cursor_moved lat lon) p = Passes-refl V p.globals p.my_gui
  step-Follows (position_fixed lat lon) p =
      on_gui-From V p.globals p.my_gui _ (record p { boat_lat = lat; boat_lon = lon })
        (boat-Goes lat lon) (Passes-refl V p.globals p.my_gui)
  step-Follows (toolbar_pressed geometry id) p = toolbar-Follows geometry id p
  step-Follows (menu_chosen button id) p =
      menu-From V p.globals p.my_gui button id p (Passes-refl V p.globals p.my_gui)
  step-Follows (preferences_shown events) p =
      token_box-From V p.globals p.my_gui events p (Passes-refl V p.globals p.my_gui)
  step-Follows deinitialised p =
      deinit-From V p.globals p.my_gui p (Passes-refl V p.globals p.my_gui)
  step-Follows (gui_event e) p = window-Follows e p
  step-Follows gui_closed p = closing-Follows p
  step-Follows (stream_state state detail) p =
      on_gui-From V p.globals p.my_gui _ p (state-Goes state detail)
        (Passes-refl V p.globals p.my_gui)
  step-Follows (stream_sentence t) p = Passes-refl V p.globals p.my_gui
