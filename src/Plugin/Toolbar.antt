-- ===== src/Plugin/Toolbar.antt =====
-- `OnToolbarToolCallback`, `OnGuiClosed` and `OnContextMenuItemCallback` (plugin.cpp).
use ais_live_pi.Common.{ℕ, Bool, true, false, not, ◌&&◌, ◌==◌, Option, none, some, if◌then◌else◌}
use ais_live_pi.Platform.Wx.{Wx}
use ais_live_pi.Platform.Double.{Double}
use ais_live_pi.Platform.Json.{JsonWriter}
use ais_live_pi.Gui.State.{Gui, Geometry}
use ais_live_pi.Gui.Streaming.{set_widgets, is_streaming_data, stop_ais_stream}
use ais_live_pi.Gui.Search.{update_search_zone_on_coord, activate_follow_boat_mode}
use ais_live_pi.Gui.Dialog.{new_gui}
use ais_live_pi.Plugin.State.{Plugin, on_gui}

-- `DialogAction` (menuDialog_ui_derived.h)
pub data DialogAction : Type 0 where
  no_action update_to_boat update_to_cursor : DialogAction

-- The two buttons of `DialogMenuEntry`.
pub data MenuButton : Type 0 where
  update_search_position update_search_pos_on_boat : MenuButton

-- `ShowModal` of `DialogMenuEntry`: whether it returns `wxID_OK`, and the action, from the button
-- that the user presses, if any.
unfoldable pub menu_entry : Option MenuButton → Bool × DialogAction
menu_entry none = (false, no_action)
menu_entry (some update_search_position) = (true, update_to_cursor)
menu_entry (some update_search_pos_on_boat) = (true, update_to_boat)

module _ {D : Type 0} where
  -- `Show`, and `Hide` as `show_gui false`
  unfoldable pub show_gui : Bool → Gui D → Gui D
  show_gui shown u = set_widgets u (record (u.dialog.widgets) { shown = shown })

  -- `SetSize` and `Move` on a new window, where the settings say so.
  unfoldable pub restore_geometry : Gui D → Gui D
  restore_geometry u =
      let g = u.globals in
      let old = u.dialog.widgets.geometry in
      set_widgets u (record (u.dialog.widgets) {
        geometry = record {
          width = if g.restore_window_size then g.window_width else old.width;
          height = if g.restore_window_size then g.window_height else old.height;
          pos_x = if g.restore_window_pos then g.window_pos_x else old.pos_x;
          pos_y = if g.restore_window_pos then g.window_pos_y else old.pos_y;
        };
      })

module _ {D S : Type 0} where
  -- What the toolbar button and the window's closing share: the button stays toggled while data
  -- is streamed and the settings keep the stream, and otherwise the stream stops and the
  -- menu entry goes.
  unfoldable pub release : Plugin D S → Plugin D S
  release p = elim p.my_gui [
    | none ↦ p
    | some b ↦
        let u : Gui D = record { globals = p.globals; dialog = b } in
        let keep = p.globals.keep_window_active in
        let v = if not keep then stop_ais_stream u else u in
        record p {
          globals = v.globals;
          my_gui = some v.dialog;
          toolbar_item_state = is_streaming_data u && keep;
          menu_item_viz = if not keep then false else p.menu_item_viz;
        }
  ]

  unfoldable pub on_gui_closed : Plugin D S → Plugin D S
  on_gui_closed p = on_gui (show_gui false) (release (record p { is_toolbar_active = false }))

  unfoldable pub toggle : Plugin D S → Plugin D S
  toggle p =
      if not p.is_toolbar_active
      then on_gui (show_gui true)
          (record p { is_toolbar_active = true; toolbar_item_state = true; menu_item_viz = true })
      else release (on_gui (show_gui false) (record p { is_toolbar_active = false }))

module _ {D S : Type 0} (V : Type 0) ⦃wx : Wx⦄ ⦃d : Double D⦄ ⦃w : JsonWriter D V⦄ where
  -- The first press makes the window, which wxWidgets puts at `geometry`.
  unfoldable pub create_gui : Geometry → Plugin D S → Plugin D S
  create_gui geometry p = elim p.my_gui [
    | none ↦
        let u = restore_geometry (new_gui V geometry p.globals) in
        record p { globals = u.globals; my_gui = some u.dialog }
    | some b ↦ p
  ]

  unfoldable pub on_toolbar_tool_callback : Geometry → ℕ → Plugin D S → Plugin D S
  on_toolbar_tool_callback geometry id p =
      if not (id == p.toolbar_id) then p else toggle (create_gui geometry p)

module _ {D S : Type 0} (V : Type 0) ⦃d : Double D⦄ ⦃w : JsonWriter D V⦄ where
  unfoldable pub perform : DialogAction → Plugin D S → Plugin D S
  perform no_action p = p
  perform update_to_boat p = on_gui (activate_follow_boat_mode V) p
  perform update_to_cursor p = on_gui (update_search_zone_on_coord V p.cursor_lat p.cursor_lon) p

  -- With the button that the user presses in the entry's dialog.
  unfoldable pub on_context_menu_item_callback : Option MenuButton → ℕ → Plugin D S → Plugin D S
  on_context_menu_item_callback button id p = elim p.my_gui [
    | none ↦ p
    | some b ↦
        if id == p.menu_id
        then (if (menu_entry button).0 then perform (menu_entry button).1 p else p)
        else p
  ]
