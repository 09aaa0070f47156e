-- ===== src/Plugin/Menu.antt =====
-- The calls of `Connect` of `DialogMenuEntryBase` (menuDialog_ui_base.cpp), and the handlers that
-- `DialogMenuEntry` overrides (menuDialog_ui_derived.cpp).
use ais_live_pi.Common.{ℕ, ◌≡◌, ap, Bool, true, false, Option, none, some, List, [], ◌∷◌}
use ais_live_pi.Platform.Events.{
  Connection, WxEvents, WxEventsLaws, connected, first_handling, handler_of, handler_of-reverse,
}
use ais_live_pi.Plugin.Toolbar.{
  DialogAction, no_action, update_to_boat, update_to_cursor, MenuButton, update_search_position,
  update_search_pos_on_boat, menu_entry,
}

-- The virtual handlers of the base class.
pub data MenuHandler : Type 0 where
  on_button_click_update_search_pos_on_boat : MenuHandler
  on_button_click_update_search_position : MenuHandler

-- `DialogMenuEntry` overrides both, and neither calls `Skip()`.
abbrev pub menu_skips : MenuHandler → Bool
menu_skips h = false

abbrev pub menu_button_id : MenuButton → ℕ
menu_button_id update_search_pos_on_boat = 0
menu_button_id update_search_position = 1

-- The only type of event that is connected.
abbrev pub clicked : ℕ
clicked = 0

-- The calls, in their order.
unfoldable pub menu_connections : List (Connection MenuHandler)
menu_connections =
    (menu_button_id update_search_pos_on_boat, clicked, on_button_click_update_search_pos_on_boat)
    ∷ (menu_button_id update_search_position, clicked, on_button_click_update_search_position)
    ∷ []

-- A handler: whether `ShowModal` returns `wxID_OK`, and `m_action` then.
unfoldable pub menu_call : MenuHandler → Bool × DialogAction
menu_call on_button_click_update_search_pos_on_boat = (true, update_to_boat)
menu_call on_button_click_update_search_position = (true, update_to_cursor)

abbrev pub menu_call_found : Option MenuHandler → Bool × DialogAction
menu_call_found none = (false, no_action)
menu_call_found (some h) = menu_call h

-- A click of a button, to the end of its handler.
unfoldable pub menu_dispatch : ⦃ev : WxEvents MenuHandler⦄ → MenuButton → Bool × DialogAction
menu_dispatch b =
    menu_call_found (handler_of menu_skips menu_connections (menu_button_id b) clicked)

-- If wxWidgets tries the handlers of an event in the reverse order of their connection, a click of
-- either button ends the dialog as `menu_entry` has it.
menu_dispatch-menu_entry :
    ⦃ev : WxEvents MenuHandler⦄
    → WxEventsLaws MenuHandler
    → (b : MenuButton) → menu_dispatch b ≡ menu_entry (some b)
unfolding menu_dispatch menu_entry menu_call menu_connections connected first_handling
menu_dispatch-menu_entry laws update_search_pos_on_boat =
    ap menu_call_found (handler_of-reverse laws menu_skips menu_connections _ _)
menu_dispatch-menu_entry laws update_search_position =
    ap menu_call_found (handler_of-reverse laws menu_skips menu_connections _ _)
