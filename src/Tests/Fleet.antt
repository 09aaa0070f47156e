-- ===== src/Tests/Fleet.antt =====
-- Examples of the properties of the vessel list and of the dialog's connections.
use ais_live_pi.Common.{ℕ, ◌≡◌, refl, some, List, [], ◌∷◌, codes, arith, if◌then◌else◌}
use ais_live_pi.Common.Int.{pos}
use mathlib.Core.List.{reverse}
use ais_live_pi.Platform.Double.{clamp, whole}
use ais_live_pi.Platform.Events.{WxEvents, WxEventsLaws}
use ais_live_pi.Settings.Globals.{has_token}
use ais_live_pi.Gui.State.{Gui}
use ais_live_pi.Gui.Dialog.{new_gui}
use ais_live_pi.Gui.Search.{box_label}
use ais_live_pi.Gui.Events.{
  GuiEvent, click_add, click_delete, edit_cell, type_spin, type_comment, scroll, thumb_release,
  handle,
}
use ais_live_pi.Gui.Fleet.{Shows}
use ais_live_pi.Gui.Fleet.Sessions.{session, fleet_session, opened_fleet, session-Shows}
use ais_live_pi.Gui.Connections.{
  Handler, slider_search_box_size, scroll_thumbrelease, scroll_lineup, dispatch,
}
use ais_live_pi.Gui.Connections.Dispatch.{line_up, releases, dispatch-handle, slider-box_size}
use ais_live_pi.Tests.Text.{digit_wx, digit_laws}
use ais_live_pi.Tests.Sample.{nat_double, Json, json_writer}
use ais_live_pi.Tests.Gui.{small_window, two_vessels, sample_gui}

-- A vessel is added, the first one is renamed, a number with two digits is refused for it, and the second one deleted.
abbrev editing : List GuiEvent
editing =
    type_spin (pos 227_000_003)
    ∷ type_comment (codes "Cid")
    ∷ click_add
    ∷ edit_cell 0 1 (codes "Ada")
    ∷ edit_cell 0 0 (codes "12")
    ∷ click_delete (some 1)
    ∷ []

session-Shows_example :
    (t : Gui ℕ) × (session Json editing (new_gui Json small_window two_vessels) ≡ some t)
    × Shows t (fleet_session editing (opened_fleet two_vessels))
unfolding ais_live_pi.Gui.Vessels.contains
session-Shows_example =
    session-Shows Json digit_laws small_window two_vessels editing refl
      ((omega arith, omega arith), ((omega arith, omega arith), tt)) (refl, (refl, tt))
      (
        (omega arith, omega arith),
        (tt, (tt, ((omega arith, omega arith), ((omega arith, omega arith), (omega arith, tt))))),
      )

instance abbrev last_first : WxEvents Handler
last_first = record { in_order = reverse }

last_first_laws : WxEventsLaws Handler
last_first_laws = record { in_order-reverse = λ xs. refl }

dispatch-handle_example :
    dispatch Json slider_search_box_size scroll_thumbrelease (thumb_release (pos 7)) sample_gui
    ≡ handle Json (thumb_release (pos 7)) sample_gui
dispatch-handle_example = dispatch-handle Json last_first_laws (releases (pos 7)) sample_gui

slider-box_size_example :
    ((v : Gui ℕ) × (dispatch Json slider_search_box_size scroll_lineup (scroll (pos 7)) sample_gui
        ≡ some v)
      × (v.dialog.widgets.box_size_label ≡ box_label {D = ℕ} (whole 7))
      × (v.dialog.search_box_size ≡ sample_gui.dialog.search_box_size)
      × (v.dialog.ais_stream ≡ sample_gui.dialog.ais_stream)
      × (v.globals ≡ sample_gui.globals))
    × ((v : Gui ℕ) × (dispatch Json slider_search_box_size scroll_thumbrelease
            (thumb_release (pos 7))
            sample_gui
          ≡ some v)
        × (v.dialog.search_box_size
            ≡ clamp
                (nat_double.of_int (pos 7))
                (whole 0)
                (whole (if has_token sample_gui.globals then 20 else 10)))
        × (v.dialog.widgets.box_size_label ≡ box_label v.dialog.search_box_size))
slider-box_size_example = slider-box_size Json last_first_laws line_up (pos 7) sample_gui
