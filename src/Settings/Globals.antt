-- ===== src/Settings/Globals.antt =====
-- The variables of src/settings/global_settings.cpp.
use ais_live_pi.Common.{ℕ, Bool, true, false, not, List, [], Text, is_empty}
use ais_live_pi.Common.Int.{ℤ, pos}
use ais_live_pi.Platform.Wx.{Wx}
use ais_live_pi.Platform.Double.{Double, whole}

pub record Globals (D : Type 0) : Type 0 where
  pub restore_window_size : Bool
  pub restore_window_pos : Bool
  pub window_width : ℤ
  pub window_height : ℤ
  pub window_pos_x : ℤ
  pub window_pos_y : ℤ
  pub keep_window_active : Bool
  pub last_search_box_size : D
  pub open_waters_token : Text
  pub mmsi_list : List ℕ
  pub mmsi_list_names : List Text
  pub activate_vessels_following : Bool

-- Their values when the plugin is loaded.
unfoldable pub initial_globals : {D : Type 0} ⦃d : Double D⦄ → Globals D
initial_globals = record {
  restore_window_size = true;
  restore_window_pos = true;
  window_width = pos 0;
  window_height = pos 0;
  window_pos_x = pos 0;
  window_pos_y = pos 0;
  keep_window_active = true;
  last_search_box_size = whole 1;
  open_waters_token = [];
  mmsi_list = [];
  mmsi_list_names = [];
  activate_vessels_following = true;
}

-- `HasToken` of main_ui_derived.cpp: something is left of the token when it is trimmed.
unfoldable pub has_token : {D : Type 0} ⦃wx : Wx⦄ → Globals D → Bool
has_token ⦃wx⦄ g = not (is_empty (wx.trim false (wx.trim true g.open_waters_token)))
