-- ===== src/Gui/Search.antt =====
-- The search area: its position and size, and the boat that it follows (main_ui_derived.cpp).
pub mod Area
use ais_live_pi.Common.{
  ℕ, ◌≡◌, refl, Bool, true, false, not, ◌&&◌, Option, none, some, List, [], ◌∷◌, ◌++◌, Text, codes,
  is_empty, arith, if◌then◌else◌,
}
use ais_live_pi.Common.Int.{ℤ, pos}
use ais_live_pi.Platform.Wx.{Wx}
use ais_live_pi.Platform.Double.{Double, whole, clamp}
use ais_live_pi.Platform.Json.{JsonWriter}
use ais_live_pi.Navigation.{great_circle_distance_nm, follow_threshold_nm}
use ais_live_pi.Settings.Globals.{has_token}
use ais_live_pi.Gui.State.{Gui, Dialog, Widgets}
use ais_live_pi.Gui.Streaming.{
  set_dialog, set_widgets, restart_ais_stream, update_token, is_streaming_data, request,
}

abbrev pub degree_symbol : Text
degree_symbol = 0x00B0 ∷ []

module _ {D : Type 0} ⦃d : Double D⦄ where
  -- The label of a coordinate, with the letter of its hemisphere.
  unfoldable pub coordinate_label : Text → Text → D → Text
  coordinate_label positive negative x =
      d.format_fixed 6 (d.abs x)
      ++ degree_symbol
      ++ codes " "
      ++ (if d.le (whole 0) x then positive else negative)

  unfoldable pub box_label : D → Text
  box_label degrees =
      d.format_fixed 0 degrees
      ++ degree_symbol
      ++ codes " x "
      ++ d.format_fixed 0 degrees
      ++ degree_symbol

  -- `OnScroll_UpdateSearchBoxSize`: the label alone
  unfoldable pub on_scroll : Gui D → Gui D
  on_scroll u = set_widgets u (record (u.dialog.widgets) {
    box_size_label = box_label (d.of_int (u.dialog.widgets.slider_value));
  })

module _ {D : Type 0} (V : Type 0) ⦃d : Double D⦄ ⦃w : JsonWriter D V⦄ where
  unfoldable pub update_search_position : D → D → Gui D → Gui D
  update_search_position lat lon u = restart_ais_stream V (
      set_dialog u (record (u.dialog) {
        search_latitude = lat;
        search_longitude = lon;
        widgets = record (u.dialog.widgets) {
          latitude_label = coordinate_label (codes "N") (codes "S") lat;
          longitude_label = coordinate_label (codes "E") (codes "W") lon;
        };
      }))

  -- `updateSearchZoneOnCoord`
  unfoldable pub update_search_zone_on_coord : D → D → Gui D → Gui D
  update_search_zone_on_coord lat lon u = update_search_position lat lon (
      set_dialog u (record (u.dialog) {
        follow_boat_mode = false;
        widgets = record (u.dialog.widgets) { follow_box = false };
      }))

  unfoldable pub activate_follow_boat_mode : Gui D → Gui D
  activate_follow_boat_mode u =
      update_search_position (u.dialog.boat_latitude) (u.dialog.boat_longitude) (
        set_dialog u (record (u.dialog) {
          follow_boat_mode = true;
          widgets = record (u.dialog.widgets) { follow_box = true };
        }))

  -- `OnCheckBox_FollowBoatMode`: the user has set the box to `checked`.
  unfoldable pub on_follow_boat_mode : Bool → Gui D → Gui D
  on_follow_boat_mode checked u =
      let v = set_dialog u (record (u.dialog) {
        follow_boat_mode = checked;
        widgets = record (u.dialog.widgets) { follow_box = checked };
      }) in
      if checked
      then update_search_position (u.dialog.boat_latitude) (u.dialog.boat_longitude) v
      else v

  unfoldable pub update_search_box_size : ⦃wx : Wx⦄ → D → Gui D → Gui D
  update_search_box_size degrees u =
      let max_value : ℕ = if has_token u.globals then 20 else 10 in
      let size = clamp degrees (whole 0) (whole max_value) in
      restart_ais_stream V (
        set_dialog u (record (u.dialog) {
          search_box_size = size;
          widgets = record (u.dialog.widgets) {
            slider_max = max_value;
            slider_value = d.to_int size;
            box_size_label = box_label size;
          };
        }))

  -- `OnScrollThumbRelease_UpdateSearchBoxSize`
  unfoldable pub on_scroll_thumb_release : ⦃wx : Wx⦄ → Gui D → Gui D
  on_scroll_thumb_release u = update_search_box_size (d.of_int (u.dialog.widgets.slider_value)) u

  unfoldable pub refresh_token_state : ⦃wx : Wx⦄ → Gui D → Gui D
  refresh_token_state u =
      update_search_box_size (d.of_int (u.dialog.widgets.slider_value)) (update_token u)

  -- The first valid position of the boat becomes the search position.
  unfoldable pub place_first : Gui D → Gui D
  place_first u =
      if not (u.dialog.initial_boat_position_set)
      then update_search_position (u.dialog.boat_latitude) (u.dialog.boat_longitude)
          (set_dialog u (record (u.dialog) { initial_boat_position_set = true }))
      else u

  -- In follow mode the search position is moved when the boat is far enough from it.
  unfoldable pub follow_boat : Gui D → Gui D
  follow_boat u =
      if u.dialog.follow_boat_mode
      then (if d.eq (u.dialog.search_box_size) (whole 0)
          then u
          else if d.le (follow_threshold_nm (u.dialog.search_box_size) (u.dialog.boat_latitude)) (
              great_circle_distance_nm (u.dialog.search_latitude) (u.dialog.search_longitude)
                (u.dialog.boat_latitude) (u.dialog.boat_longitude))
          then update_search_position (u.dialog.boat_latitude) (u.dialog.boat_longitude) u
          else u)
      else u

  unfoldable pub update_boat_position : D → D → Gui D → Gui D
  update_boat_position lat lon u =
      follow_boat (
        place_first
          (set_dialog u (record (u.dialog) { boat_latitude = lat; boat_longitude = lon })))
