-- ===== src/Plugin/Delivery/Buffer.antt =====
-- Which steps hand a sentence to OpenCPN: only the run of a sentence's call.
use ais_live_pi.Common.{
  ℕ, ◌≡◌, refl, sym, ◌∙◌, ◌==◌, Option, none, some, List, [], ◌∷◌, ◌++◌, Text, arith, IfSome,
  if-case, option-case, Bool-cases, inl, inr,
}
use mathlib.Core.List.{append-nil}
use ais_live_pi.Platform.Wx.{Wx}
use ais_live_pi.Platform.Double.{Double}
use ais_live_pi.Platform.Json.{JsonWriter}
use ais_live_pi.Platform.Config.{Config}
use ais_live_pi.Settings.Preferences.{show_modal, on_init}
use ais_live_pi.Gui.State.{Gui, Geometry}
use ais_live_pi.Gui.Events.{GuiEvent}
use ais_live_pi.Plugin.State.{Plugin, on_gui, send_nmea_sentence, set_cursor_lat_lon}
use ais_live_pi.Plugin.Toolbar.{
  MenuButton, DialogAction, no_action, update_to_boat, update_to_cursor, menu_entry, perform,
  create_gui, toggle, release, on_gui_closed, on_toolbar_tool_callback,
  on_context_menu_item_callback,
}
use ais_live_pi.Plugin.Lifecycle.{save_settings, deinit, set_position_fix, show_preferences_dialog}
use ais_live_pi.Plugin.Steps.{
  PluginEvent, cursor_moved, position_fixed, toolbar_pressed, menu_chosen, preferences_shown,
  deinitialised, gui_event, gui_closed, stream_state, stream_sentence, step, put_gui, window_step,
  closing_step,
}

module _ {D S : Type 0} where
  on_gui-nmea_buffer :
      (f : Gui D → Gui D) (p : Plugin D S) → (on_gui f p).nmea_buffer ≡ p.nmea_buffer
  unfolding on_gui
  on_gui-nmea_buffer f p = ground arith

  release-nmea_buffer : (p : Plugin D S) → (release p).nmea_buffer ≡ p.nmea_buffer
  unfolding release
  release-nmea_buffer p = ground arith

  toggle-nmea_buffer : (p : Plugin D S) → (toggle p).nmea_buffer ≡ p.nmea_buffer
  unfolding toggle
  toggle-nmea_buffer p = elim (Bool-cases (p.is_toolbar_active)) [
    | inl e ↦ rw (e, toggle) (release-nmea_buffer _ ∙ on_gui-nmea_buffer _ _)
    | inr e ↦ rw (e, toggle) (on_gui-nmea_buffer _ _)
  ]

  closed-nmea_buffer : (p : Plugin D S) → (on_gui_closed p).nmea_buffer ≡ p.nmea_buffer
  unfolding on_gui_closed
  closed-nmea_buffer p = on_gui-nmea_buffer _ _ ∙ release-nmea_buffer _

-- The sentence that a step hands to OpenCPN.
abbrev pub pushed : {D : Type 0} → PluginEvent D → List Text
pushed (stream_sentence t) = t ∷ []
pushed _ = []

module _ {D S : Type 0} (V : Type 0) ⦃wx : Wx⦄ ⦃d : Double D⦄ ⦃w : JsonWriter D V⦄ where
  toolbar-nmea_buffer :
      (geometry : Geometry) (id : ℕ) (p : Plugin D S)
      → (on_toolbar_tool_callback V geometry id p).nmea_buffer ≡ p.nmea_buffer
  unfolding on_toolbar_tool_callback create_gui
  toolbar-nmea_buffer geometry id p = ground (arith, toggle-nmea_buffer (create_gui V geometry p))

  perform-nmea_buffer :
      (a : DialogAction) (p : Plugin D S) → (perform V a p).nmea_buffer ≡ p.nmea_buffer
  unfolding perform
  perform-nmea_buffer no_action p = refl
  perform-nmea_buffer update_to_boat p = on_gui-nmea_buffer _ p
  perform-nmea_buffer update_to_cursor p = on_gui-nmea_buffer _ p

  menu-nmea_buffer :
      (button : Option MenuButton) (id : ℕ) (p : Plugin D S)
      → (on_context_menu_item_callback V button id p).nmea_buffer ≡ p.nmea_buffer
  unfolding on_context_menu_item_callback
  menu-nmea_buffer button id p =
      option-case (λ (q : Plugin D S). q.nmea_buffer ≡ p.nmea_buffer) (p.my_gui) p _ refl
        λ b e.
          if-case (λ (q : Plugin D S). q.nmea_buffer ≡ p.nmea_buffer) (id == p.menu_id) _ p
            (λ i.
              if-case (λ (q : Plugin D S). q.nmea_buffer ≡ p.nmea_buffer) (menu_entry button).0 _ p
                (λ j. perform-nmea_buffer (menu_entry button).1 p) refl)
            refl

  put-nmea_buffer :
      (p : Plugin D S) (o : Option (Gui D))
      → IfSome (λ q. q.nmea_buffer ≡ p.nmea_buffer) (put_gui p o)
  put-nmea_buffer p none = tt
  put-nmea_buffer p (some u) = refl

  window-nmea_buffer :
      (e : GuiEvent) (p : Plugin D S)
      → IfSome (λ q. q.nmea_buffer ≡ p.nmea_buffer) (window_step V e p)
  unfolding window_step
  window-nmea_buffer e p =
      option-case (IfSome (λ q. q.nmea_buffer ≡ p.nmea_buffer)) (p.my_gui) (some p) _ refl λ b i.
        if-case (IfSome (λ q. q.nmea_buffer ≡ p.nmea_buffer)) (b.widgets.shown) _ (some p)
          (λ s. put-nmea_buffer p _) refl

  pub step-nmea_buffer :
      ⦃c : Config D S⦄ (e : PluginEvent D) (p : Plugin D S)
      → IfSome (λ q. q.nmea_buffer ≡ p.nmea_buffer ++ pushed e) (step V e p)
  unfolding step set_position_fix show_preferences_dialog deinit closing_step save_settings
      send_nmea_sentence set_cursor_lat_lon
  step-nmea_buffer (cursor_moved lat lon) p = sym (append-nil _)
  step-nmea_buffer (position_fixed lat lon) p = on_gui-nmea_buffer _ _ ∙ sym (append-nil _)
  step-nmea_buffer (toolbar_pressed geometry id) p =
      toolbar-nmea_buffer geometry id p ∙ sym (append-nil _)
  step-nmea_buffer (menu_chosen button id) p = menu-nmea_buffer button id p ∙ sym (append-nil _)
  step-nmea_buffer (preferences_shown events) p =
      if-case (λ (q : Plugin D S). q.nmea_buffer ≡ p.nmea_buffer ++ [])
        (show_modal events (on_init p.globals) p.globals).0 _ _
        (λ e. on_gui-nmea_buffer _ _ ∙ sym (append-nil _)) (sym (append-nil _))
  step-nmea_buffer deinitialised p =
      option-case (λ (q : Plugin D S). q.nmea_buffer ≡ p.nmea_buffer ++ []) (p.my_gui) _ _
        (sym (append-nil _))
        λ b e. on_gui-nmea_buffer _ _ ∙ closed-nmea_buffer _ ∙ sym (append-nil _)
  step-nmea_buffer (gui_event e) p = rw (append-nil (p.nmea_buffer)) (window-nmea_buffer e p)
  step-nmea_buffer gui_closed p =
      option-case (λ (q : Plugin D S). q.nmea_buffer ≡ p.nmea_buffer ++ []) (p.my_gui) p _
        (sym (append-nil _))
        λ b e.
          if-case (λ (q : Plugin D S). q.nmea_buffer ≡ p.nmea_buffer ++ []) (b.widgets.shown) _ p
            (λ s. closed-nmea_buffer p ∙ sym (append-nil _)) (sym (append-nil _))
  step-nmea_buffer (stream_state state detail) p = on_gui-nmea_buffer _ _ ∙ sym (append-nil _)
  step-nmea_buffer (stream_sentence t) p = refl
