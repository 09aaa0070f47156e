-- ===== src/Plugin/Label.antt =====
-- The steps of the plugin leave the label with the stream's state alone, but for the run of the call
-- that the stream's callback has posted (plugin.cpp, main_ui_derived.cpp).
use ais_live_pi.Common.{
  IfSome, IfSome-map, ℕ, ◌≡◌, refl, sym, ap, ◌∙◌, Bool, true, false, not, Option, none, some, List,
  Text, codes, Option-cases, inl, inr, if-case, option-case, ◌==◌,
}
use mathlib.Core.Path.{subst}
use ais_live_pi.Platform.Wx.{Wx}
use ais_live_pi.Platform.Double.{Double}
use ais_live_pi.Platform.Json.{JsonWriter}
use ais_live_pi.Platform.Config.{Config}
use ais_live_pi.Settings.Preferences.{PreferencesEvent, show_modal, on_init}
use ais_live_pi.Gui.State.{Gui, Dialog, Geometry}
use ais_live_pi.Gui.Events.{GuiEvent}
use ais_live_pi.Gui.Walk.{zone-Walks, activate-Walks, refresh-Walks, boat-Walks, handle-Walks}
use ais_live_pi.Gui.Label.{KeepsLabel, KeepsLabel-Walks, stop-KeepsLabel, new_gui-label}
use ais_live_pi.Plugin.State.{Plugin, on_gui, set_cursor_lat_lon}
use ais_live_pi.Plugin.Toolbar.{
  MenuButton, DialogAction, no_action, update_to_boat, update_to_cursor, menu_entry, perform,
  restore_geometry, show_gui, create_gui, toggle, release, on_gui_closed, on_toolbar_tool_callback,
  on_context_menu_item_callback,
}
use ais_live_pi.Plugin.Lifecycle.{save_settings, set_position_fix, show_preferences_dialog}
use ais_live_pi.Plugin.Steps.{
  PluginEvent, cursor_moved, position_fixed, toolbar_pressed, menu_chosen, preferences_shown,
  deinitialised, gui_event, gui_closed, stream_state, stream_sentence, step, put_gui, window_step,
  closing_step,
}
use ais_live_pi.Plugin.Delivery.{main}
use ais_live_pi.Plugin.Delivery.Order.{KeepsCalls}

-- The label, if there is a dialog.
abbrev pub label_of : {D : Type 0} → Option (Dialog D) → Option Text
label_of none = none
label_of (some b) = some b.widgets.state_label

-- The label goes on as it was, or it is a new dialog's.
abbrev pub GoesOn : Option Text → Option Text → Type 0
GoesOn none none = Unit
GoesOn none (some t) = t ≡ codes "Not running"
GoesOn (some s) none = ⊥
GoesOn (some s) (some t) = t ≡ s

GoesOn-refl : (o : Option Text) → GoesOn o o
GoesOn-refl none = tt
GoesOn-refl (some t) = refl

GoesOn-same : (o r : Option Text) → r ≡ o → GoesOn o r
GoesOn-same o r e = subst (GoesOn o) (sym e) (GoesOn-refl o)

module _ {D S : Type 0} where
  abbrev pub label : Plugin D S → Option Text
  label p = label_of p.my_gui

  pub on_gui-label :
      (f : Gui D → Gui D) (p : Plugin D S)
      → ((u : Gui D) → KeepsLabel u (f u))
      → label (on_gui f p) ≡ label p
  unfolding on_gui
  on_gui-label f p k = elim (Option-cases p.my_gui) [
    | inl e ↦ rw (e, on_gui, e) refl
    | inr (b, e) ↦
        rw (e, on_gui) (ap (λ t. some t) (k (record { globals = p.globals; dialog = b })))
  ]

  show-label : (shown : Bool) (p : Plugin D S) → label (on_gui (show_gui shown) p) ≡ label p
  unfolding show_gui
  show-label shown p = on_gui-label (show_gui shown) p (λ u. refl)

  release-label : (p : Plugin D S) → label (release p) ≡ label p
  unfolding release
  release-label p = elim (Option-cases p.my_gui) [
    | inl e ↦ rw (e, release, e) refl
    | inr (b, e) ↦
        rw (e, release)
          (if-case (λ (v : Gui D). some v.dialog.widgets.state_label ≡ some b.widgets.state_label)
            (not p.globals.keep_window_active) _ _
            (λ k. ap (λ t. some t) (stop-KeepsLabel (record { globals = p.globals; dialog = b })))
            refl)
  ]

  closed-label : (p : Plugin D S) → label (on_gui_closed p) ≡ label p
  unfolding on_gui_closed
  closed-label p = show-label false _ ∙ release-label _

  toggle-label : (p : Plugin D S) → label (toggle p) ≡ label p
  unfolding toggle
  toggle-label p =
      if-case (λ (q : Plugin D S). label q ≡ label p) (not p.is_toolbar_active) _ _
        (λ e. show-label true _) (release-label _ ∙ show-label false _)

module _ {D S : Type 0} (V : Type 0) ⦃wx : Wx⦄ ⦃d : Double D⦄ ⦃w : JsonWriter D V⦄ where
  create-GoesOn :
      (geometry : Geometry) (p : Plugin D S) → GoesOn (label p) (label (create_gui V geometry p))
  unfolding create_gui restore_geometry
  create-GoesOn geometry p = elim (Option-cases p.my_gui) [
    | inl e ↦ rw (e, create_gui) (new_gui-label V geometry p.globals)
    | inr (b, e) ↦ rw (e, create_gui) (GoesOn-same _ _ (ap label_of e))
  ]

  toolbar-GoesOn :
      (geometry : Geometry) (id : ℕ) (p : Plugin D S)
      → GoesOn (label p) (label (on_toolbar_tool_callback V geometry id p))
  unfolding on_toolbar_tool_callback
  toolbar-GoesOn geometry id p =
      if-case (λ (q : Plugin D S). GoesOn (label p) (label q)) (not (id == p.toolbar_id)) p _
        (λ e. GoesOn-refl (label p))
        (subst (GoesOn (label p)) (sym (toggle-label (create_gui V geometry p)))
          (create-GoesOn geometry p))

  perform-label : (a : DialogAction) (p : Plugin D S) → label (perform V a p) ≡ label p
  unfolding perform
  perform-label no_action p = refl
  perform-label update_to_boat p = on_gui-label _ p (activate-Walks (KeepsLabel-Walks V))
  perform-label update_to_cursor p = on_gui-label _ p (zone-Walks (KeepsLabel-Walks V) _ _)

  menu-label :
      (button : Option MenuButton) (id : ℕ) (p : Plugin D S)
      → label (on_context_menu_item_callback V button id p) ≡ label p
  unfolding on_context_menu_item_callback
  menu-label button id p =
      option-case (λ (q : Plugin D S). label q ≡ label p) p.my_gui p _ refl
        λ b e.
          if-case (λ (q : Plugin D S). label q ≡ label p) (id == p.menu_id) _ p
            (λ i.
              if-case (λ (q : Plugin D S). label q ≡ label p) (menu_entry button).0 _ p
                (λ j. perform-label (menu_entry button).1 p) refl)
            refl

  put-label :
      (p : Plugin D S) (b : Dialog D) (o : Option (Gui D))
      → p.my_gui ≡ some b
      → IfSome (KeepsLabel (record { globals = p.globals; dialog = b })) o
      → IfSome (λ q. label q ≡ label p) (put_gui p o)
  put-label p b none e h = tt
  put-label p b (some u) e h = rw e (ap (λ t. some t) h)

  window-label :
      (e : GuiEvent) (p : Plugin D S) → IfSome (λ q. label q ≡ label p) (window_step V e p)
  unfolding window_step
  window-label e p = option-case (IfSome (λ q. label q ≡ label p)) p.my_gui (some p) _ refl λ b i.
      if-case (IfSome (λ q. label q ≡ label p)) b.widgets.shown _ (some p)
        (λ s.
          put-label p b _ i
            (handle-Walks (KeepsLabel-Walks V) e (record { globals = p.globals; dialog = b })))
        refl

  closing-label : (p : Plugin D S) → label (closing_step p) ≡ label p
  unfolding closing_step
  closing-label p =
      option-case (λ (q : Plugin D S). label q ≡ label p) p.my_gui p _ refl
        λ b e.
          if-case (λ (q : Plugin D S). label q ≡ label p) b.widgets.shown _ p (λ s. closed-label p)
            refl

  preferences-label :
      ⦃c : Config D S⦄ (events : List PreferencesEvent) (p : Plugin D S)
      → label (show_preferences_dialog V events p) ≡ label p
  unfolding show_preferences_dialog save_settings
  preferences-label events p =
      if-case (λ (q : Plugin D S). label q ≡ label p)
        (show_modal events (on_init p.globals) p.globals).0 _ _
        (λ e. on_gui-label _ _ (refresh-Walks (KeepsLabel-Walks V))) refl

  -- No step but the run of a posted call changes the label, and `DeInit` deletes it.
  pub step-GoesOn :
      ⦃c : Config D S⦄ (e : PluginEvent D) (p : Plugin D S)
      → KeepsCalls (main e)
      → IfSome (λ q. GoesOn (label p) (label q)) (step V e p)
  unfolding step set_position_fix set_cursor_lat_lon
  step-GoesOn (cursor_moved lat lon) p k = GoesOn-refl (label p)
  step-GoesOn (position_fixed lat lon) p k = GoesOn-same _ _ (
      on_gui-label _ (record p { boat_lat = lat; boat_lon = lon })
        (boat-Walks (KeepsLabel-Walks V) lat lon))
  step-GoesOn (toolbar_pressed geometry id) p k = toolbar-GoesOn geometry id p
  step-GoesOn (menu_chosen button id) p k = GoesOn-same _ _ (menu-label button id p)
  step-GoesOn (preferences_shown events) p k = GoesOn-same _ _ (preferences-label events p)
  step-GoesOn deinitialised p k = elim k [ ]
  step-GoesOn (gui_event e) p k =
      IfSome-map (window_step V e p) (λ q h. GoesOn-same _ _ h) (window-label e p)
  step-GoesOn gui_closed p k = GoesOn-same _ _ (closing-label p)
  step-GoesOn (stream_state state detail) p k = elim k [ ]
  step-GoesOn (stream_sentence t) p k = elim k [ ]
