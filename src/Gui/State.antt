-- ===== src/Gui/State.antt =====
-- The state of `DialogMainGui` (main_ui_derived.h): its members, and of its widgets what the code
-- reads or writes.
use ais_live_pi.Common.{ℕ, Bool, true, false, List, [], Text, codes}
use ais_live_pi.Common.Int.{ℤ, pos}
use ais_live_pi.Platform.Double.{Double, whole}
use ais_live_pi.Stream.Client.{Client, new_client}
use ais_live_pi.Settings.Globals.{Globals}

-- The size and the position of the window.
pub record Geometry : Type 0 where
  pub width : ℤ
  pub height : ℤ
  pub pos_x : ℤ
  pub pos_y : ℤ

pub record Widgets : Type 0 where
  -- `m_checkBox_followBoatMode`, `m_checkBox_activateVesselFollowing`
  pub follow_box : Bool
  pub following_box : Bool
  -- `m_slider_searchBoxSize`: its value and the top of its range
  pub slider_value : ℤ
  pub slider_max : ℕ
  -- the labels of the position, the box and the stream's state
  pub latitude_label : Text
  pub longitude_label : Text
  pub box_size_label : Text
  pub state_label : Text
  -- `m_spinCtrl_followedMMSI`, `m_textCtrl_mmsiComment`
  pub spin_value : ℤ
  pub comment : Text
  -- the rows of `m_dataViewListCtrl_followedVessels`: MMSI and name
  pub rows : List (Text × Text)
  -- whether the dialog is shown, and where
  pub shown : Bool
  pub geometry : Geometry

pub record Dialog (D : Type 0) : Type 0 where
  pub ais_stream : Client
  pub initial_boat_position_set : Bool
  pub follow_boat_mode : Bool
  pub boat_latitude : D
  pub boat_longitude : D
  pub search_latitude : D
  pub search_longitude : D
  pub search_box_size : D
  pub get_snapshot : Bool
  pub widgets : Widgets

-- A dialog and the global settings, which its handlers read and write.
pub record Gui (D : Type 0) : Type 0 where
  pub globals : Globals D
  pub dialog : Dialog D

-- The widgets as `DialogMainGuiBase` makes them (main_ui_base.cpp), at the size and place that
-- wxWidgets gives the window; the dialog is not shown yet.
unfoldable pub base_widgets : Geometry → Widgets
base_widgets g = record {
  follow_box = true;
  following_box = true;
  slider_value = pos 1;
  slider_max = 10;
  latitude_label = codes "0° N";
  longitude_label = codes "0° E";
  box_size_label = codes "1° x 1°";
  state_label = codes "Not running";
  spin_value = pos 227_000_000;
  comment = [];
  rows = [];
  shown = false;
  geometry = g;
}

-- The members with their default initialisers.
unfoldable pub default_dialog : {D : Type 0} ⦃d : Double D⦄ → Geometry → Dialog D
unfolding base_widgets new_client
default_dialog g = record {
  ais_stream = new_client;
  initial_boat_position_set = false;
  follow_boat_mode = true;
  boat_latitude = whole 0;
  boat_longitude = whole 0;
  search_latitude = whole 0;
  search_longitude = whole 0;
  search_box_size = whole 1;
  get_snapshot = false;
  widgets = base_widgets g;
}
