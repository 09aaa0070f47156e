-- ===== src/Settings/Store/RoundTrip.antt =====
-- Loading what was saved.
use ais_live_pi.Common.{
  ℕ, ◌≡◌, refl, ap, ◌∙◌, true, List, [], ◌∷◌, ◌++◌, Text, codes, text_eq, length, All,
}
use ais_live_pi.Common.Int.{pos}
use ais_live_pi.Platform.Wx.{Wx, WxLaws, comma, comma_list, Lacks}
use ais_live_pi.Platform.Double.{Double, whole}
use ais_live_pi.Platform.Config.{Config, ConfigLaws, IsPlain, double_entry}
use ais_live_pi.Settings.Globals.{Globals}
use ais_live_pi.Gui.Vessels.Lists.{InRange}
use ais_live_pi.Settings.Store.{save_settings, load_settings, mmsi_text, names_text, load_tokens}
use ais_live_pi.Settings.Store.Lists.{
  tokenize-mmsi_text, load_tokens-format_u, names_from-tokenize, names_text-comma_list, names_from,
  comma_list-comma, comma_list-ne-nil_two, load_tokens-InRange, mmsi_text-IsPlain,
  comma_list-IsPlain,
}

module _ {D S : Type 0} ⦃wx : Wx⦄ ⦃d : Double D⦄ ⦃c : Config D S⦄ (laws : WxLaws)
    (store : ConfigLaws D S) where
  loaded_vessels :
      (ms : List ℕ) (names : List Text)
      → length names ≡ length ms
      → All InRange ms
      → All (Lacks comma) names
      → load_tokens 0 (wx.tokenize (mmsi_text [] ms)) (wx.tokenize (names_text [] 0 ms names))
        ≡ (ms, names)
  loaded_vessels ms names h r l =
      rw (tokenize-mmsi_text laws ms, names_text-comma_list ms names h)
        (load_tokens-format_u laws 0 ms _ r
          ∙ ap (λ x. (ms, x)) (names_from-tokenize laws ms names h l))

  saved_lists :
      (g : Globals D) (s : S)
      → length g.mmsi_list_names ≡ length g.mmsi_list
      → All IsPlain g.mmsi_list_names
      → (c.read_text (codes "MMSI_List") [] (save_settings g s) ≡ mmsi_text [] g.mmsi_list)
        × (c.read_text (codes "MMSI_ListNames") [] (save_settings g s)
            ≡ names_text [] 0 g.mmsi_list g.mmsi_list_names)
  unfolding save_settings text_eq
  saved_lists g s h p =
      let numbers = mmsi_text-IsPlain laws g.mmsi_list in
      let names : IsPlain (names_text [] 0 g.mmsi_list g.mmsi_list_names) =
        rw (names_text-comma_list g.mmsi_list g.mmsi_list_names h)
          (comma_list-IsPlain g.mmsi_list_names p) in
      (
        simp (store.read_text-write, store.to_text-text _ [] numbers),
        simp (store.read_text-write, store.to_text-text _ [] names),
      )

  saved_flags :
      (g : Globals D) (s : S)
      → IsPlain g.open_waters_token
      → let t = save_settings g s in
        (c.read_bool (codes "RestoreWindowSize") true t ≡ g.restore_window_size)
        × (c.read_bool (codes "RestoreWindowPos") true t ≡ g.restore_window_pos)
        × (c.read_bool (codes "KeepWindowActive") true t ≡ g.keep_window_active)
        × (c.read_bool (codes "ActivateVesselsFollowing") true t ≡ g.activate_vessels_following)
        × (c.read_text (codes "OpenWatersToken") [] t ≡ g.open_waters_token)
        × (c.read_double (codes "LastSearchBoxSize") (whole 1) t
            ≡ c.to_double (double_entry g.last_search_box_size) (whole 1))
  unfolding save_settings text_eq
  saved_flags g s p = (
    simp (store.read_bool-write, store.to_bool-bool),
    simp (store.read_bool-write, store.to_bool-bool),
    simp (store.read_bool-write, store.to_bool-bool),
    simp (store.read_bool-write, store.to_bool-bool),
    simp (store.read_text-write, store.to_text-text _ [] p),
    simp store.read_double-write,
  )

  saved_geometry :
      (g : Globals D) (s : S)
      → let t = save_settings g s in
        (c.read_int (codes "WindowWidth") (pos 380) t ≡ g.window_width)
        × (c.read_int (codes "WindowHeight") (pos 290) t ≡ g.window_height)
        × (c.read_int (codes "WindowPosX") (pos 0) t ≡ g.window_pos_x)
        × (c.read_int (codes "WindowPosY") (pos 0) t ≡ g.window_pos_y)
  unfolding save_settings text_eq
  saved_geometry g s = (
    simp (store.read_int-write, store.to_int-int),
    simp (store.read_int-write, store.to_int-int),
    simp (store.read_int-write, store.to_int-int),
    simp (store.read_int-write, store.to_int-int),
  )

  -- If the configuration and the text functions keep their documented laws, the list holds
  -- nine-digit numbers with as many names, no name holds a comma, and neither a name nor the token
  -- a `$` or a `%`, then loading what was saved, over any store, gives all settings back, the numbers and names in their order; the size of
  -- the box comes back as the store keeps a double.
  pub load_settings-save_settings :
      (g : Globals D) (s : S)
      → length g.mmsi_list_names ≡ length g.mmsi_list
      → All InRange g.mmsi_list
      → All (Lacks comma) g.mmsi_list_names
      → All IsPlain g.mmsi_list_names
      → IsPlain g.open_waters_token
      → load_settings (save_settings g s) ≡ record g {
        last_search_box_size = c.to_double (double_entry g.last_search_box_size) (whole 1);
      }
  unfolding load_settings
  load_settings-save_settings g s h r l p q =
      let (numbers, names) = saved_lists g s h p in
      let vessels = loaded_vessels g.mmsi_list g.mmsi_list_names h r l in
      let (f1, f2, f3, f4, f5, f6) = saved_flags g s q in
      let (g1, g2, g3, g4) = saved_geometry g s in
      rw (numbers, names, vessels, f1, f2, f3, f4, f5, f6, g1, g2, g3, g4)

  -- If the configuration and the text functions keep their documented laws, the list holds nine-
  -- digit numbers with as many names, the first name is `a`, a comma and `b`, and no other comma
  -- stands in a name, and no `$` or `%`: after saving and loading, the numbers are the same and the names are those
  -- at their indices in the list of `a`, `b` and the other names, so that they are shifted by one.
  pub comma_shifts_names :
      (g : Globals D) (s : S) (a b : Text) (rest : List Text)
      → g.mmsi_list_names ≡ (a ++ comma ∷ b) ∷ rest
      → length g.mmsi_list_names ≡ length g.mmsi_list
      → All InRange g.mmsi_list
      → All (Lacks comma) (a ∷ b ∷ rest)
      → All IsPlain g.mmsi_list_names
      → let t : Globals D = load_settings (save_settings g s) in
        (t.mmsi_list ≡ g.mmsi_list) × (t.mmsi_list_names ≡ names_from (a ∷ b ∷ rest) 0 g.mmsi_list)
  unfolding load_settings
  comma_shifts_names g s a b rest e h r l p =
      let (numbers, names) = saved_lists g s h p in
      let written : names_text [] 0 g.mmsi_list g.mmsi_list_names ≡ comma_list (a ∷ b ∷ rest) =
        names_text-comma_list g.mmsi_list g.mmsi_list_names h
        ∙ ap comma_list e
        ∙ comma_list-comma a b rest in
      let tokens = laws.tokenize-comma_list (a ∷ b ∷ rest) l (comma_list-ne-nil_two a b rest) in
      let loaded = load_tokens-format_u laws 0 g.mmsi_list (a ∷ b ∷ rest) r in
      let vessels : load_tokens 0 (wx.tokenize (mmsi_text [] g.mmsi_list))
            (wx.tokenize (names_text [] 0 g.mmsi_list g.mmsi_list_names))
          ≡ (g.mmsi_list, names_from (a ∷ b ∷ rest) 0 g.mmsi_list) =
        rw (tokenize-mmsi_text laws g.mmsi_list, written, tokens) loaded in
      rw (numbers, names, vessels) (refl, refl)

module _ (D : Type 0) {S : Type 0} ⦃wx : Wx⦄ ⦃d : Double D⦄ ⦃c : Config D S⦄ where
  -- Whatever a store holds, loading gives as many names as numbers, and only nine-digit numbers.
  pub load_settings-InRange :
      (s : S)
      → let g : Globals D = load_settings s in
        (length g.mmsi_list_names ≡ length g.mmsi_list) × All InRange g.mmsi_list
  unfolding load_settings
  load_settings-InRange s =
      load_tokens-InRange 0 (wx.tokenize (c.read_text (codes "MMSI_List") [] s))
        (wx.tokenize (c.read_text (codes "MMSI_ListNames") [] s))
