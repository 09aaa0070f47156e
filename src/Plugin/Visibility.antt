-- ===== src/Plugin/Visibility.antt =====
-- The window, the toolbar button and the context menu's entry over all steps of the plugin.
use ais_live_pi.Common.{
  IfSome, if-case, option-case, ℕ, ◌≡◌, refl, Bool, true, false, ◌==◌, Option, none, some, List,
  arith, Bool-cases, Option-cases, inl, inr, if◌then◌else◌,
}
use ais_live_pi.Platform.Wx.{Wx}
use ais_live_pi.Platform.Double.{Double}
use ais_live_pi.Platform.Json.{JsonWriter}
use ais_live_pi.Platform.Config.{Config}
use ais_live_pi.Settings.Globals.{Globals}
use ais_live_pi.Settings.Preferences.{PreferencesEvent, on_init, show_modal}
use ais_live_pi.Gui.Dialog.{new_gui, register_callback, fill_widgets}
use ais_live_pi.Gui.State.{default_dialog, base_widgets, Gui, Geometry}
use ais_live_pi.Gui.Streaming.{restart_ais_stream}
use ais_live_pi.Gui.Search.{update_search_box_size}
use ais_live_pi.Gui.Events.{GuiEvent, handle}
use ais_live_pi.Stream.Client.{new_client, set_state_callback}
use ais_live_pi.Plugin.State.{Plugin, set_cursor_lat_lon, send_nmea_sentence}
use ais_live_pi.Plugin.Toolbar.{
  MenuButton, update_search_position, update_search_pos_on_boat, DialogAction, no_action,
  update_to_boat, update_to_cursor, menu_entry, perform, create_gui, restore_geometry,
  on_toolbar_tool_callback, on_context_menu_item_callback,
}
use ais_live_pi.Plugin.Lifecycle.{
  init, load_settings, save_settings, deinit, set_position_fix, show_preferences_dialog,
}
use ais_live_pi.Plugin.Quiet.{boat-IsQuieter, coord-IsQuieter, activate-IsQuieter, token-IsQuieter}
use ais_live_pi.Gui.Events.Shown.{IsShown, handle-IsShown}
use ais_live_pi.Plugin.Steps.{
  PluginEvent, cursor_moved, position_fixed, toolbar_pressed, menu_chosen, preferences_shown,
  deinitialised, gui_event, gui_closed, stream_state, stream_sentence, put_gui, window_step, step,
  Reachable, started, stepped,
}
use ais_live_pi.Plugin.InStep.{
  has_gui, shows, IsInStep, on_gui-IsInStep, closed-IsInStep, toggle-IsInStep, state-IsInStep,
}

module _ {D : Type 0} (V : Type 0) ⦃wx : Wx⦄ ⦃d : Double D⦄ ⦃w : JsonWriter D V⦄ where
  new_gui-IsHidden :
      (geometry : Geometry) (g : Globals D)
      → let u = restore_geometry (new_gui V geometry g) in
        (u.dialog.widgets.shown ≡ false) × (u.dialog.ais_stream.streaming ≡ false)
  unfolding restore_geometry new_gui register_callback fill_widgets update_search_box_size
      restart_ais_stream set_state_callback default_dialog base_widgets new_client
  new_gui-IsHidden geometry g = (refl, refl)

module _ {D S : Type 0} (V : Type 0) ⦃wx : Wx⦄ ⦃d : Double D⦄ ⦃w : JsonWriter D V⦄ where
  create-IsInStep :
      (geometry : Geometry) (p : Plugin D S)
      → IsInStep p
      → (has_gui (create_gui V geometry p) ≡ true) × IsInStep (create_gui V geometry p)
  unfolding create_gui
  create-IsInStep geometry p h = elim (Option-cases p.my_gui) [
    | inl e ↦ rw (e, create_gui) (ground (arith, h, e, new_gui-IsHidden V geometry p.globals))
    | inr (b, e) ↦ rw (e, create_gui) (ground (arith, h, e))
  ]

  toolbar-IsInStep :
      (geometry : Geometry) (id : ℕ) (p : Plugin D S)
      → IsInStep p
      → IsInStep (on_toolbar_tool_callback V geometry id p)
  unfolding on_toolbar_tool_callback
  toolbar-IsInStep geometry id p h = elim (Bool-cases (id == p.toolbar_id)) [
    | inr e ↦ rw (e, on_toolbar_tool_callback) h
    | inl e ↦
        let made = create-IsInStep geometry p h in
        rw (e, on_toolbar_tool_callback) (toggle-IsInStep _ made.0 made.1)
  ]

module _ {D S : Type 0} (V : Type 0) ⦃d : Double D⦄ ⦃w : JsonWriter D V⦄ where
  perform-IsInStep : (a : DialogAction) (p : Plugin D S) → IsInStep p → IsInStep (perform V a p)
  unfolding perform
  perform-IsInStep no_action p h = h
  perform-IsInStep update_to_boat p h = on_gui-IsInStep _ (activate-IsQuieter V) p h
  perform-IsInStep update_to_cursor p h =
      on_gui-IsInStep _ (coord-IsQuieter V p.cursor_lat p.cursor_lon) p h

  answered-IsInStep :
      (button : Option MenuButton) (p : Plugin D S)
      → IsInStep p
      → IsInStep (if (menu_entry button).0 then perform V (menu_entry button).1 p else p)
  unfolding menu_entry
  answered-IsInStep none p h = h
  answered-IsInStep (some update_search_position) p h = perform-IsInStep update_to_cursor p h
  answered-IsInStep (some update_search_pos_on_boat) p h = perform-IsInStep update_to_boat p h

module _ {D S : Type 0} where
  put-IsInStep :
      (p : Plugin D S) (o : Option (Gui D)) (shown : Bool)
      → IfSome (IsShown shown) o
      → shown ≡ true
      → shows p ≡ true
      → IsInStep p
      → IfSome IsInStep (put_gui p o)
  put-IsInStep p none b k c s h = tt
  put-IsInStep p (some u) b k c s h = ground (arith, h, k, c, s)

module _ {D S : Type 0} (V : Type 0) ⦃wx : Wx⦄ ⦃d : Double D⦄ ⦃w : JsonWriter D V⦄ (p : Plugin D S)
    (h : IsInStep p) where
  menu-IsInStep :
      (button : Option MenuButton) (id : ℕ) → IsInStep (on_context_menu_item_callback V button id p)
  unfolding on_context_menu_item_callback
  menu-IsInStep button id =
      option-case IsInStep p.my_gui p _ h
        λ b e. if-case IsInStep (id == p.menu_id) _ p (λ i. answered-IsInStep V button p h) h

  window-IsInStep : (e : GuiEvent) → IfSome IsInStep (window_step V e p)
  unfolding window_step
  window-IsInStep e = option-case (IfSome IsInStep) p.my_gui (some p) _ h λ b i.
      if-case (IfSome IsInStep) b.widgets.shown _ (some p)
        (λ s.
          put-IsInStep p (handle V e (record { globals = p.globals; dialog = b })) _
            (handle-IsShown V e _) s (ground (arith, i, s)) h)
        h

  preferences-IsInStep :
      ⦃c : Config D S⦄ (events : List PreferencesEvent)
      → IsInStep (show_preferences_dialog V events p)
  unfolding show_preferences_dialog save_settings
  preferences-IsInStep events =
      if-case IsInStep (show_modal events (on_init p.globals) p.globals).0 _ _
        (λ e. on_gui-IsInStep _ (token-IsQuieter V) _ h) h

  deinit-IsInStep : ⦃c : Config D S⦄ → IsInStep (deinit p)
  unfolding deinit save_settings
  deinit-IsInStep = option-case IsInStep p.my_gui _ _ h λ b e. (refl, refl, refl, refl, refl)

module _ {D S : Type 0} (V : Type 0) ⦃wx : Wx⦄ ⦃d : Double D⦄ ⦃w : JsonWriter D V⦄
    ⦃c : Config D S⦄ where
  init-IsInStep :
      (config : Option S) (tool menu : ℕ) (x y z v : D) → IsInStep (init config tool menu x y z v)
  unfolding init load_settings
  init-IsInStep none tool menu x y z v = (refl, refl, refl, refl, refl)
  init-IsInStep (some s) tool menu x y z v = (refl, refl, refl, refl, refl)

  step-IsInStep : (e : PluginEvent D) (p : Plugin D S) → IsInStep p → IfSome IsInStep (step V e p)
  unfolding step set_cursor_lat_lon set_position_fix send_nmea_sentence
  step-IsInStep (cursor_moved lat lon) p h = h
  step-IsInStep (position_fixed lat lon) p h = on_gui-IsInStep _ (boat-IsQuieter V lat lon) _ h
  step-IsInStep (toolbar_pressed geometry id) p h = toolbar-IsInStep V geometry id p h
  step-IsInStep (menu_chosen button id) p h = menu-IsInStep V p h button id
  step-IsInStep (preferences_shown events) p h = preferences-IsInStep V p h events
  step-IsInStep deinitialised p h = deinit-IsInStep V p h
  step-IsInStep (gui_event e) p h = window-IsInStep V p h e
  step-IsInStep gui_closed p h = closed-IsInStep p h
  step-IsInStep (stream_state state detail) p h = state-IsInStep state detail p h
  step-IsInStep (stream_sentence sentence) p h = h

  reached-IfSome :
      (o : Option (Plugin D S)) (p : Plugin D S) → o ≡ some p → IfSome IsInStep o → IsInStep p
  reached-IfSome o p e = rw e (λ h. h)

  -- In every state that the plugin reaches from `Init` on: the window is shown exactly while the
  -- plugin counts its button as active; an active plugin has the button down and the menu
  -- entry visible; the button is down only while the entry is visible, and the entry is visible only
  -- if there is a window; nothing is streamed unless the entry is visible.
  pub Reachable-IsInStep : (p : Plugin D S) → Reachable V p → IsInStep p
  Reachable-IsInStep p (started config tool menu x y z v) = init-IsInStep config tool menu x y z v
  Reachable-IsInStep p (stepped o q e r h) =
      reached-IfSome (step V e o) _ h (step-IsInStep e o (Reachable-IsInStep o r))
