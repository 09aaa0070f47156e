-- ===== src/Settings/Store.antt =====
-- `SaveSettings` and `LoadSettings` (plugin.cpp) on the open configuration. All keys are relative to
-- "/PlugIns/AisLivePlugin", which both set as the path.
pub mod Lists
pub mod RoundTrip
use ais_live_pi.Common.{
  ℕ, zero, suc, ◌+◌, ◌^◌, ◌<◌, Bool, true, false, not, ◌||◌, Option, none, some, List, [], ◌∷◌,
  ◌++◌, Text, codes, is_empty, get_elem?, ltb, if◌then◌else◌,
}
use ais_live_pi.Common.Int.{ℤ, pos}
use ais_live_pi.Platform.Wx.{Wx, comma}
use ais_live_pi.Platform.Double.{Double, whole}
use ais_live_pi.Platform.Config.{Config, Entry, bool_entry, int_entry, double_entry, text_entry}
use ais_live_pi.Settings.Globals.{Globals}
use ais_live_pi.Gui.Vessels.{u32_of_ulong, min_mmsi, max_mmsi}

module _ ⦃wx : Wx⦄ where
  -- The loop that writes the numbers, from the text so far.
  unfoldable pub mmsi_text : Text → List ℕ → Text
  mmsi_text text [] = text
  mmsi_text text (m ∷ ms) =
      mmsi_text ((if not (is_empty text) then text ++ comma ∷ [] else text) ++ wx.format_u m) ms

  -- The number that a token gives, if it is one that is kept.
  unfoldable pub loaded_mmsi : Text → Option ℕ
  loaded_mmsi token = elim (wx.to_ulong token) [
    | none ↦ none
    | some value ↦
        if ltb value min_mmsi || ltb max_mmsi value then none else some (u32_of_ulong value)
  ]

-- The loop that writes the names, over the indices of the numbers from `i` on.
unfoldable pub names_text : Text → ℕ → List ℕ → List Text → Text
names_text text i [] names = text
names_text text i (m ∷ ms) names =
    names_text
      ((if ltb 0 i then text ++ comma ∷ [] else text)
        ++ (elim (get_elem? names i) [ none ↦ [] | some name ↦ name ]))
      (suc i) ms names

-- The name for the token at an index.
unfoldable pub loaded_name : List Text → ℕ → Text
loaded_name tokens i = elim (get_elem? tokens i) [ none ↦ [] | some name ↦ name ]

module _ ⦃wx : Wx⦄ where
  -- The loop over the tokens from index `i` on, which fills the two vectors.
  unfoldable pub load_tokens : ℕ → List Text → List Text → List ℕ × List Text
  load_tokens i [] names = ([], [])
  load_tokens i (token ∷ tokens) names =
      let rest = load_tokens (suc i) tokens names in
      elim (loaded_mmsi token) [ none ↦ rest | some m ↦ (m ∷ rest.0, loaded_name names i ∷ rest.1) ]

module _ {D S : Type 0} ⦃wx : Wx⦄ ⦃c : Config D S⦄ where
  unfoldable pub save_settings : Globals D → S → S
  save_settings g s0 =
      let s1 = c.write (codes "RestoreWindowSize") (bool_entry g.restore_window_size) s0 in
      let s2 = c.write (codes "WindowWidth") (int_entry g.window_width) s1 in
      let s3 = c.write (codes "WindowHeight") (int_entry g.window_height) s2 in
      let s4 = c.write (codes "RestoreWindowPos") (bool_entry g.restore_window_pos) s3 in
      let s5 = c.write (codes "WindowPosX") (int_entry g.window_pos_x) s4 in
      let s6 = c.write (codes "WindowPosY") (int_entry g.window_pos_y) s5 in
      let s7 = c.write (codes "KeepWindowActive") (bool_entry g.keep_window_active) s6 in
      let s8 = c.write (codes "LastSearchBoxSize") (double_entry g.last_search_box_size) s7 in
      let s9 = c.write (codes "OpenWatersToken") (text_entry g.open_waters_token) s8 in
      let s10 =
        c.write (codes "ActivateVesselsFollowing") (bool_entry g.activate_vessels_following) s9 in
      let s11 = c.write (codes "MMSI_List") (text_entry (mmsi_text [] g.mmsi_list)) s10 in
      c.write (codes "MMSI_ListNames") (text_entry (names_text [] 0 g.mmsi_list g.mmsi_list_names))
        s11

  unfoldable pub load_settings : ⦃d : Double D⦄ → S → Globals D
  load_settings s =
      let mmsi_tokens = wx.tokenize (c.read_text (codes "MMSI_List") [] s) in
      let name_tokens = wx.tokenize (c.read_text (codes "MMSI_ListNames") [] s) in
      let vessels = load_tokens 0 mmsi_tokens name_tokens in
      record {
        restore_window_size = c.read_bool (codes "RestoreWindowSize") true s;
        restore_window_pos = c.read_bool (codes "RestoreWindowPos") true s;
        window_width = c.read_int (codes "WindowWidth") (pos 380) s;
        window_height = c.read_int (codes "WindowHeight") (pos 290) s;
        window_pos_x = c.read_int (codes "WindowPosX") (pos 0) s;
        window_pos_y = c.read_int (codes "WindowPosY") (pos 0) s;
        keep_window_active = c.read_bool (codes "KeepWindowActive") true s;
        last_search_box_size = c.read_double (codes "LastSearchBoxSize") (whole 1) s;
        open_waters_token = c.read_text (codes "OpenWatersToken") [] s;
        mmsi_list = vessels.0;
        mmsi_list_names = vessels.1;
        activate_vessels_following = c.read_bool (codes "ActivateVesselsFollowing") true s;
      }
