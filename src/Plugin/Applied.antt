-- ===== src/Plugin/Applied.antt =====
-- What the preferences dialog leaves: the widgets as they were when Apply or OK was last pressed
-- (settings_ui_derived.cpp), and what `ShowPreferencesDialog` makes of that (plugin.cpp).
use ais_live_pi.Common.{◌≡◌, refl, ap, Bool, true, false, Option, none, some, List, [], ◌∷◌, ◌∙◌}
use ais_live_pi.Platform.Wx.{Wx}
use ais_live_pi.Platform.Double.{Double}
use ais_live_pi.Platform.Json.{JsonWriter}
use ais_live_pi.Platform.Config.{Config}
use ais_live_pi.Settings.Globals.{Globals}
use ais_live_pi.Settings.Preferences.{
  Preferences, PreferencesEvent, edit, press_apply, press_ok, press_cancel, on_init,
  update_settings, show_modal,
}
use ais_live_pi.Plugin.State.{Plugin}
use ais_live_pi.Plugin.Lifecycle.{show_preferences_dialog}

-- Whether the dialog ends with OK.
abbrev pub ends_with_ok : List PreferencesEvent → Bool
ends_with_ok [] = false
ends_with_ok (edit y ∷ events) = ends_with_ok events
ends_with_ok (press_apply ∷ events) = ends_with_ok events
ends_with_ok (press_ok ∷ events) = true
ends_with_ok (press_cancel ∷ events) = false

-- The widgets, `x` at first, when Apply or OK was last pressed, if ever.
abbrev pub last_pressed : List PreferencesEvent → Preferences → Option Preferences
last_pressed [] x = none
last_pressed (edit y ∷ events) x = last_pressed events y
last_pressed (press_apply ∷ events) x = elim (last_pressed events x) [
  | none ↦ some x
  | some y ↦ some y
]
last_pressed (press_ok ∷ events) x = some x
last_pressed (press_cancel ∷ events) x = none

module _ {D : Type 0} where
  abbrev pub changed : Option Preferences → Globals D → Globals D
  changed none g = g
  changed (some y) g = record g {
    restore_window_pos = y.restore_pos_box;
    restore_window_size = y.restore_size_box;
    keep_window_active = y.keep_active_box;
    open_waters_token = y.token_ctrl;
  }

  changed-update_settings :
      (o : Option Preferences) (x : Preferences) (g : Globals D)
      → changed o (update_settings x g) ≡ changed (elim o [ none ↦ some x | some y ↦ some y ]) g
  unfolding update_settings
  changed-update_settings none x g = refl
  changed-update_settings (some y) x g = refl

  show_modal_lem :
      (events : List PreferencesEvent) (x : Preferences) (g : Globals D)
      → show_modal events x g ≡ (ends_with_ok events, changed (last_pressed events x) g)
  unfolding show_modal update_settings
  show_modal_lem [] x g = refl
  show_modal_lem (edit y ∷ events) x g = show_modal_lem events y g
  show_modal_lem (press_apply ∷ events) x g =
      show_modal_lem events x (update_settings x g)
      ∙ ap (λ g. (ends_with_ok events, g)) (changed-update_settings (last_pressed events x) x g)
  show_modal_lem (press_ok ∷ events) x g = refl
  show_modal_lem (press_cancel ∷ events) x g = refl

module _ {D S : Type 0} (V : Type 0) ⦃wx : Wx⦄ ⦃d : Double D⦄ ⦃w : JsonWriter D V⦄
    ⦃c : Config D S⦄ where
  -- If the preferences dialog does not end with OK, then the two boxes for the window, the box that
  -- keeps the stream and the token are in the settings as the widgets had them when Apply was last
  -- pressed, and as before if it was not; no other setting changes; but nothing is saved, and the
  -- window and its client, with their token and the slider's range, are as before, as is all else
  -- of the plugin.
  pub show_preferences_dialog_lem :
      (events : List PreferencesEvent) (p : Plugin D S)
      → ends_with_ok events ≡ false
      → show_preferences_dialog V events p
        ≡ record p { globals = changed (last_pressed events (on_init p.globals)) p.globals }
  unfolding show_preferences_dialog
  show_preferences_dialog_lem events p h =
      rw (show_modal_lem events (on_init p.globals) p.globals, h) refl
