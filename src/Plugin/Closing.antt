-- ===== src/Plugin/Closing.antt =====
-- Hiding the window: by its own close button, and by the toolbar button.
use ais_live_pi.Common.{◌≡◌, true, false, ◌&&◌, some, arith}
use ais_live_pi.Stream.Client.{stop}
use ais_live_pi.Gui.State.{Dialog}
use ais_live_pi.Gui.Streaming.{stop_ais_stream}
use ais_live_pi.Plugin.State.{Plugin, on_gui}
use ais_live_pi.Plugin.Toolbar.{release, on_gui_closed, toggle, show_gui}
use ais_live_pi.Plugin.InStep.{has_gui, shows, streams}

module _ {D S : Type 0} where
  -- If there is a window, closing it hides it and leaves the plugin inactive; the stream goes on
  -- just if it ran and the settings keep it, and just then the button stays down; the menu entry
  -- stays as it is if the settings keep the stream, and goes otherwise; the settings and the
  -- store are as before.
  pub on_gui_closed_lem :
      (p : Plugin D S) (b : Dialog D)
      → p.my_gui ≡ some b
      → let q = on_gui_closed p in
        let keep = p.globals.keep_window_active in
        (shows q ≡ false)
        × (has_gui q ≡ true)
        × (q.is_toolbar_active ≡ false)
        × (streams q ≡ (streams p && keep))
        × (q.toolbar_item_state ≡ (streams p && keep))
        × (q.menu_item_viz ≡ (p.menu_item_viz && keep))
        × (q.globals ≡ p.globals)
        × (q.config_settings ≡ p.config_settings)
  unfolding on_gui_closed release on_gui show_gui stop_ais_stream stop
  on_gui_closed_lem p b e = rw (e, on_gui_closed, release, on_gui) (ground (arith, e))

  -- On an active plugin with a window, the toolbar button does the same as closing the window.
  pub toggle-on_gui_closed :
      (p : Plugin D S) (b : Dialog D)
      → p.my_gui ≡ some b
      → p.is_toolbar_active ≡ true
      → toggle p ≡ on_gui_closed p
  unfolding toggle on_gui_closed release on_gui show_gui stop_ais_stream stop
  toggle-on_gui_closed p b e a =
      rw (e, a, toggle, on_gui_closed, release, on_gui) (ground (arith, e, a))
