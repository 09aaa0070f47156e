-- ===== src/Tests/Gui.antt =====
-- Examples of the properties of the dialog and the settings, on the libraries of Sample.
use ais_live_pi.Common.{
  ◌++◌, IfSome, ℕ, ◌≡◌, refl, true, false, some, [], ◌∷◌, codes, All, length, arith, text_eq,
}
use ais_live_pi.Common.Int.{pos}
use ais_live_pi.Platform.Double.{whole}
use ais_live_pi.Settings.Globals.{Globals}
use ais_live_pi.Settings.Store.{save_settings, load_settings}
use ais_live_pi.Settings.Store.RoundTrip.{
  load_settings-save_settings, comma_shifts_names, load_settings-InRange,
}
use ais_live_pi.Gui.State.{default_dialog, base_widgets, Gui, Dialog, Widgets, Geometry}
use ais_live_pi.Gui.Dialog.{new_gui, register_callback, fill_widgets, rows_from}
use ais_live_pi.Gui.Streaming.{restart_ais_stream}
use ais_live_pi.Stream.Client.{new_client, set_state_callback}
use ais_live_pi.Gui.Vessels.{contains}
use ais_live_pi.Gui.Vessels.Lists.{InRange}
use ais_live_pi.Gui.Vessels.Invariant.{IsConsistent}
use ais_live_pi.Gui.Search.{update_search_box_size, update_boat_position}
use ais_live_pi.Gui.Search.Area.{update_search_box_size_bounds}
use ais_live_pi.Gui.Events.{click_start, click_add, handle}
use ais_live_pi.Gui.Events.Listed.{handle-IsConsistent}
use ais_live_pi.Gui.Events.Sync.{IsSynced, handle-IsSynced}
use ais_live_pi.Tests.Text.{digit_wx, digit_laws}
use ais_live_pi.Tests.Sample.{
  nat_double, nat_order, Json, json_reader, json_writer, Store, list_config, list_laws,
}

abbrev pub small_window : Geometry
small_window = record { width = pos 400; height = pos 300; pos_x = pos 10; pos_y = pos 20 }

abbrev pub two_vessels : Globals ℕ
two_vessels = record {
  restore_window_size = true;
  restore_window_pos = false;
  window_width = pos 380;
  window_height = pos 290;
  window_pos_x = pos 0;
  window_pos_y = pos 0;
  keep_window_active = true;
  last_search_box_size = 3;
  open_waters_token = [];
  mmsi_list = 227_000_001 ∷ 227_000_002 ∷ [];
  mmsi_list_names = codes "Ann" ∷ codes "Bob" ∷ [];
  activate_vessels_following = true;
}

abbrev pub sample_gui : Gui ℕ
sample_gui = new_gui Json small_window two_vessels

sample_gui-IsConsistent : IsConsistent sample_gui
unfolding new_gui register_callback fill_widgets update_search_box_size restart_ais_stream
    default_dialog base_widgets rows_from set_state_callback new_client text_eq contains
sample_gui-IsConsistent = (
  refl,
  refl,
  ((omega arith, omega arith), ((omega arith, omega arith), tt)),
  (refl, (refl, tt)),
  (omega arith, omega arith),
)

sample_gui-IsSynced : IsSynced Json sample_gui
unfolding new_gui register_callback fill_widgets update_search_box_size restart_ais_stream
    default_dialog base_widgets rows_from set_state_callback new_client text_eq contains
sample_gui-IsSynced = refl

handle-IsConsistent_example :
    (t : Gui ℕ) × (handle Json click_add sample_gui ≡ some t) × IsConsistent t
handle-IsConsistent_example =
    handle-IsConsistent Json digit_laws click_add sample_gui tt sample_gui-IsConsistent

handle-IsSynced_example : IfSome (IsSynced Json) (handle Json click_start sample_gui)
handle-IsSynced_example = handle-IsSynced Json click_start sample_gui sample_gui-IsSynced

abbrev resized : Dialog ℕ
resized = (update_search_box_size Json 15 sample_gui).dialog

update_search_box_size_bounds_example :
    (resized.search_box_size ≡ 10)
    × (nat_double.le 0 resized.search_box_size ≡ true)
    × (nat_double.le resized.search_box_size 10 ≡ true)
    × (resized.widgets.slider_max ≡ 10)
    × (resized.widgets.slider_value ≡ nat_double.to_int resized.search_box_size)
    × (resized.widgets.box_size_label
        ≡ nat_double.format_fixed 0 resized.search_box_size
          ++ (0x00B0 ∷ [])
          ++ codes " x "
          ++ nat_double.format_fixed 0 resized.search_box_size
          ++ 0x00B0 ∷ [])
unfolding new_gui register_callback update_search_box_size fill_widgets restart_ais_stream
    default_dialog
update_search_box_size_bounds_example =
    update_search_box_size_bounds Json nat_order 15 sample_gui refl

abbrev moved : Dialog ℕ
moved = (update_boat_position Json 48 5 sample_gui).dialog

load_settings-save_settings_example :
    load_settings (save_settings {S = Store} two_vessels []) ≡ two_vessels
load_settings-save_settings_example =
    load_settings-save_settings digit_laws list_laws two_vessels [] refl
      ((omega arith, omega arith), ((omega arith, omega arith), tt))
      ((refl, (refl, (refl, tt))), ((refl, (refl, (refl, tt))), tt))
      (
        ((refl, (refl, (refl, tt))), (refl, (refl, (refl, tt)))),
        (((refl, (refl, (refl, tt))), (refl, (refl, (refl, tt)))), tt),
      )
      (tt, tt)

load_settings-InRange_example :
    (length (load_settings {D = ℕ} (save_settings {S = Store} two_vessels [])).mmsi_list_names
      ≡ length (load_settings {D = ℕ} (save_settings {S = Store} two_vessels [])).mmsi_list)
    × All InRange (load_settings {D = ℕ} (save_settings {S = Store} two_vessels [])).mmsi_list
load_settings-InRange_example = load_settings-InRange ℕ (save_settings {S = Store} two_vessels [])

-- The first name is "Ann,Eve".
abbrev comma_vessels : Globals ℕ
comma_vessels = record two_vessels { mmsi_list_names = codes "Ann,Eve" ∷ codes "Bob" ∷ [] }

abbrev comma_loaded : Globals ℕ
comma_loaded = load_settings (save_settings {S = Store} comma_vessels [])

comma_shifts_names_example :
    (comma_loaded.mmsi_list ≡ 227_000_001 ∷ 227_000_002 ∷ [])
    × (comma_loaded.mmsi_list_names ≡ codes "Ann" ∷ codes "Eve" ∷ [])
unfolding ais_live_pi.Settings.Store.loaded_name
comma_shifts_names_example =
    comma_shifts_names digit_laws list_laws comma_vessels [] (codes "Ann") (codes "Eve")
      (codes "Bob" ∷ []) refl refl ((omega arith, omega arith), ((omega arith, omega arith), tt))
      ((refl, (refl, (refl, tt))), ((refl, (refl, (refl, tt))), ((refl, (refl, (refl, tt))), tt)))
      (
        (
          (refl, (refl, (refl, (refl, (refl, (refl, (refl, tt))))))),
          (refl, (refl, (refl, (refl, (refl, (refl, (refl, tt))))))),
        ),
        (((refl, (refl, (refl, tt))), (refl, (refl, (refl, tt)))), tt),
      )
