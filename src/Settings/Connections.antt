-- ===== src/Settings/Connections.antt =====
-- The calls of `Connect` of `DialogSettingsBase` (settings_ui_base.cpp), and the handlers that
-- `DialogSettings` overrides (settings_ui_derived.cpp).
use ais_live_pi.Common.{ℕ, ◌≡◌, sym, ap, Bool, true, false, Option, none, some, List, [], ◌∷◌}
use ais_live_pi.Platform.Events.{
  Connection, WxEvents, WxEventsLaws, connected, first_handling, handler_of, handler_of-reverse,
}
use ais_live_pi.Settings.Globals.{Globals}
use ais_live_pi.Settings.Preferences.{
  Preferences, PreferencesEvent, press_apply, press_ok, on_init, update_settings, show_modal,
}

-- What has handlers, and the types of events that are connected.
pub data SettingsControl : Type 0 where
  dialog button_ok button_apply : SettingsControl

pub data SettingsEventType : Type 0 where
  init_dialog button_clicked : SettingsEventType

abbrev settings_control_id : SettingsControl → ℕ
settings_control_id dialog = 0
settings_control_id button_ok = 1
settings_control_id button_apply = 2

abbrev settings_type_id : SettingsEventType → ℕ
settings_type_id init_dialog = 0
settings_type_id button_clicked = 1

-- The virtual handlers of the base class.
pub data SettingsHandler : Type 0 where
  on_init_handler on_ok_handler on_apply_handler : SettingsHandler

-- `DialogSettings` overrides them all, and none calls `Skip()`.
abbrev pub settings_skips : SettingsHandler → Bool
settings_skips h = false

abbrev settings_connect :
    SettingsControl → SettingsEventType → SettingsHandler → Connection SettingsHandler
settings_connect c t h = (settings_control_id c, settings_type_id t, h)

-- The calls, in their order.
unfoldable pub settings_connections : List (Connection SettingsHandler)
settings_connections =
    settings_connect dialog init_dialog on_init_handler
    ∷ settings_connect button_ok button_clicked on_ok_handler
    ∷ settings_connect button_apply button_clicked on_apply_handler
    ∷ []

-- The handler of each control for each type of event.
abbrev handler_for : SettingsControl → SettingsEventType → Option SettingsHandler
handler_for dialog init_dialog = some on_init_handler
handler_for button_ok button_clicked = some on_ok_handler
handler_for button_apply button_clicked = some on_apply_handler
handler_for _ _ = none

module _ ⦃ev : WxEvents SettingsHandler⦄ (laws : WxEventsLaws SettingsHandler) where
  found :
      (c : SettingsControl) (t : SettingsEventType)
      → handler_of settings_skips settings_connections (settings_control_id c) (settings_type_id t)
        ≡ handler_for c t
  unfolding settings_connections connected first_handling
  found dialog init_dialog = handler_of-reverse laws settings_skips settings_connections _ _
  found dialog button_clicked = handler_of-reverse laws settings_skips settings_connections _ _
  found button_ok init_dialog = handler_of-reverse laws settings_skips settings_connections _ _
  found button_ok button_clicked = handler_of-reverse laws settings_skips settings_connections _ _
  found button_apply init_dialog = handler_of-reverse laws settings_skips settings_connections _ _
  found button_apply button_clicked =
      handler_of-reverse laws settings_skips settings_connections _ _

-- The widgets and the settings behind a handler, and whether it ends the dialog: with `some true`,
-- `ShowModal` returns `wxID_OK`.
abbrev pub Answer : Type 0 → Type 0
Answer D = Preferences × Globals D × Option Bool

module _ {D : Type 0} where
  unfoldable pub settings_call : SettingsHandler → Preferences → Globals D → Answer D
  settings_call on_init_handler x g = (on_init g, g, none)
  settings_call on_ok_handler x g = (x, update_settings x g, some true)
  settings_call on_apply_handler x g = (x, update_settings x g, none)

  abbrev pub settings_call_found : Option SettingsHandler → Preferences → Globals D → Answer D
  settings_call_found none x g = (x, g, none)
  settings_call_found (some h) x g = settings_call h x g

  -- An event of the dialog, to the end of its handler.
  unfoldable pub settings_dispatch :
      ⦃ev : WxEvents SettingsHandler⦄
      → SettingsControl
      → SettingsEventType
      → Preferences
      → Globals D
      → Answer D
  settings_dispatch c t x g =
      settings_call_found
        (handler_of settings_skips settings_connections (settings_control_id c)
          (settings_type_id t))
        x g

  -- `ShowModal` goes on unless the dialog has ended.
  abbrev pub go_on : List PreferencesEvent → Answer D → Bool × Globals D
  go_on events (x, g, none) = show_modal events x g
  go_on events (x, g, some ok) = (ok, g)

  module _ ⦃ev : WxEvents SettingsHandler⦄ (laws : WxEventsLaws SettingsHandler) where
    -- If wxWidgets tries the handlers of an event in the reverse order of their connection, the
    -- widgets are filled as `on_init` has it, and OK and Apply do to `ShowModal` what `show_modal`
    -- has them do.
    settings_dispatch-show_modal :
        (events : List PreferencesEvent) (x : Preferences) (g : Globals D)
        → (settings_dispatch dialog init_dialog x g ≡ (on_init g, g, none))
          × (show_modal (press_ok ∷ events) x g
              ≡ go_on events (settings_dispatch button_ok button_clicked x g))
          × (show_modal (press_apply ∷ events) x g
              ≡ go_on events (settings_dispatch button_apply button_clicked x g))
    unfolding settings_dispatch settings_call show_modal handler_of
    settings_dispatch-show_modal events x g = (
      ap (λ h. settings_call_found h x g) (found laws dialog init_dialog),
      sym (
          ap (λ h. go_on events (settings_call_found h x g)) (found laws button_ok button_clicked)),
      sym (
          ap (λ h. go_on events (settings_call_found h x g))
            (found laws button_apply button_clicked)),
    )
