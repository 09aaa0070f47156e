-- ===== src/Plugin/Registration.antt =====
-- What the plugin asks of OpenCPN in its constructor and in `Init` (plugin.cpp): the icons, the
-- translations, the button, the menu's entry and the callbacks.
use ais_live_pi.Common.{
  ℕ, suc, ◌≡◌, ◌↔◌, inl, inr, refl, Bool, true, false, ◌&&◌, ◌||◌, Option, none, some, List, [],
  ◌∷◌, ◌++◌, Text, codes, Bool-cases, arith,
}
use ais_live_pi.Common.Int.{ℤ, negsuc}
use ais_live_pi.Platform.Wx.{Wx}
use ais_live_pi.Platform.Double.{Double}
use ais_live_pi.Platform.Config.{Config}
use ais_live_pi.Plugin.Information.{Package, get_toolbar_tool_count}
use ais_live_pi.Plugin.Lifecycle.{init, load_settings}

-- The macros of OpenCPN's header that `Init` puts together.
pub data Capability : Type 0 where
  installs_toolbar_tool wants_preferences wants_cursor_latlon wants_nmea_events : Capability

-- The bits of an `int`.
abbrev pub Mask : Type 0
Mask = ℕ → Bool

-- `GetPluginDataDir`, the separator between folders, and the values of the macros.
pub record Host : Type 0 where
  pub get_plugin_data_dir : Text → Text
  pub path_separator : ℕ
  pub value : Capability → Mask

-- `GetBitmapFromSVGFile`: the file and the size.
pub record Bitmap : Type 0 where
  pub file : Text
  pub width : ℕ
  pub height : ℕ

-- `InsertPlugInToolSVG`; the tool is a check tool of this plugin, with no client data.
pub record Tool : Type 0 where
  pub label : Text
  pub normal_icon : Text
  pub rollover_icon : Text
  pub toggled_icon : Text
  pub short_help : Text
  pub long_help : Text
  pub position : ℤ
  pub tool_sel : ℕ

-- The calls of `Init` that change something in OpenCPN.
pub data HostCall : Type 0 where
  add_locale_catalog : Text → HostCall
  insert_plugin_tool_svg : Tool → HostCall
  add_canvas_context_menu_item : Text → HostCall
  set_canvas_context_menu_item_viz : ℕ → Bool → HostCall

module _ (h : Host) (k : Package) where
  abbrev pub plugin_folder : Text
  plugin_folder =
      h.get_plugin_data_dir k.pkg_name ++ h.path_separator ∷ codes "data" ++ h.path_separator ∷ []

  -- The constructor's icon.
  abbrev pub plugin_bitmap : Bitmap
  plugin_bitmap = record {
    file = plugin_folder ++ codes "icon_catalog.svg";
    width = 32;
    height = 32;
  }

  abbrev pub get_plugin_bitmap : Bitmap
  get_plugin_bitmap = plugin_bitmap

  abbrev pub toolbar_tool : Tool
  toolbar_tool = record {
    label = codes "AisLive";
    normal_icon = plugin_folder ++ codes "icon_toolbar_default.svg";
    rollover_icon = plugin_folder ++ codes "icon_toolbar_toggled.svg";
    toggled_icon = plugin_folder ++ codes "icon_toolbar_toggled.svg";
    short_help = codes "AisLive";
    long_help = codes "AisLive Plugin Toolbar";
    position = negsuc 0;
    tool_sel = 0;
  }

  -- With the number that OpenCPN gives the entry.
  unfoldable pub init_calls : ℕ → List HostCall
  init_calls menu_id =
      add_locale_catalog (codes "opencpn-aislive_pi")
      ∷ insert_plugin_tool_svg toolbar_tool
      ∷ add_canvas_context_menu_item (codes "AisLive...")
      ∷ set_canvas_context_menu_item_viz menu_id false
      ∷ []

-- `|` and `&`
abbrev bit_or : Mask → Mask → Mask
bit_or m n i = m i || n i

abbrev bit_and : Mask → Mask → Mask
bit_and m n i = m i && n i

-- What `Init` returns.
unfoldable pub capabilities : Host → Mask
capabilities h =
    bit_or
      (bit_or (bit_or (h.value installs_toolbar_tool) (h.value wants_preferences))
        (h.value wants_cursor_latlon))
      (h.value wants_nmea_events)

abbrev pub tools : List HostCall → List Tool
tools [] = []
tools (insert_plugin_tool_svg t ∷ xs) = t ∷ tools xs
tools (_ ∷ xs) = tools xs

abbrev pub tool_count : List Tool → ℕ
tool_count [] = 0
tool_count (t ∷ ts) = suc (tool_count ts)

-- Whether an entry is visible after the calls, if it was so before.
abbrev pub viz_after : Bool → List HostCall → Bool
viz_after shown [] = shown
viz_after shown (set_canvas_context_menu_item_viz id viz ∷ xs) = viz_after viz xs
viz_after shown (_ ∷ xs) = viz_after shown xs

-- `Init` inserts as many tools as `GetToolbarToolCount` says, and leaves the entry of the menu as
-- visible as the plugin counts it, whether OpenCPN makes new entries visible or not.
pub init_calls_lem :
    {D S : Type 0} ⦃wx : Wx⦄ ⦃d : Double D⦄ ⦃c : Config D S⦄ (h : Host) (k : Package) (shown : Bool)
    (config : Option S) (tool menu : ℕ) (x y z v : D)
    → (tool_count (tools (init_calls h k menu)) ≡ get_toolbar_tool_count)
      × (viz_after shown (init_calls h k menu) ≡ (init config tool menu x y z v).menu_item_viz)
unfolding init_calls init load_settings
init_calls_lem h k shown none tool menu x y z v = (refl, refl)
init_calls_lem h k shown (some s) tool menu x y z v = (refl, refl)

-- `returned & macro` is not zero.
abbrev pub HasCommonBit : Mask → Mask → Type 0
HasCommonBit returned macro = (i : ℕ) × (bit_and returned macro i ≡ true)

-- The bit comes from one of the macros.
bit_source : (h : Host) (i : ℕ) → capabilities h i ≡ true → (c : Capability) × (h.value c i ≡ true)
unfolding capabilities
bit_source h i e = elim (Bool-cases (h.value installs_toolbar_tool i)) [
  | inl a ↦ (installs_toolbar_tool, a)
  | inr a ↦ elim (Bool-cases (h.value wants_preferences i)) [
    | inl b ↦ (wants_preferences, b)
    | inr b ↦ elim (Bool-cases (h.value wants_cursor_latlon i)) [
      | inl c ↦ (wants_cursor_latlon, c)
      | inr c ↦ (wants_nmea_events, ground arith)
    ]
  ]
]

bit_kept : (h : Host) (c : Capability) (i : ℕ) → h.value c i ≡ true → capabilities h i ≡ true
unfolding capabilities
bit_kept h installs_toolbar_tool i e = ground arith
bit_kept h wants_preferences i e = ground arith
bit_kept h wants_cursor_latlon i e = ground arith
bit_kept h wants_nmea_events i e = ground arith

and_true : (a b : Bool) → (a && b) ≡ true → (a ≡ true) × (b ≡ true)
and_true a b e = ground arith

-- A test of what `Init` returns against a macro of OpenCPN succeeds just if one of the four macros of
-- `Init` has a bit in common with it.
pub capabilities_lem :
    (h : Host) (macro : Mask)
    → HasCommonBit (capabilities h) macro ↔ ((c : Capability) × HasCommonBit (h.value c) macro)
capabilities_lem h macro = (
  λ (i, e).
      let both = and_true (capabilities h i) (macro i) e in
      let (c, k) = bit_source h i both.0 in let m = both.1 in (c, (i, ground arith)),
  λ (c, (i, e)).
      let both = and_true (h.value c i) (macro i) e in
      let k = bit_kept h c i both.0 in let m = both.1 in (i, ground arith),
)
