-- ===== src/Layout/Menu.antt =====
-- The constructor of `DialogMenuEntryBase` (src/menu-entry/menuDialog_ui_base.cpp).
use ais_live_pi.Common.{none, some, List, [], ◌∷◌, codes}
use ais_live_pi.Layout.{
  Step, new_sizer, new_static_box_sizer, new_window, add_space, add_window, add_sizer, set_sizer,
  vertical, expand, all, align_center, button,
}

-- The whole constructor, up to the connections.
unfoldable pub menu_steps : List Step
menu_steps =
    new_sizer (codes "bSizer1") vertical
    ∷ add_space (codes "bSizer1") 1 (expand ∷ []) 5
    ∷ new_static_box_sizer (codes "sbSizer1") vertical (codes "Update search position")
    ∷ new_window (codes "m_button_updateSearchPosOnBoat") button (some (codes "sbSizer1"))
        (codes "On boat")
    ∷ add_window (codes "sbSizer1") (codes "m_button_updateSearchPosOnBoat") 0
        (align_center ∷ all ∷ []) 5
    ∷ new_window (codes "m_button_updateSearchPosition") button (some (codes "sbSizer1"))
        (codes "On cursor")
    ∷ add_window (codes "sbSizer1") (codes "m_button_updateSearchPosition") 0
        (align_center ∷ all ∷ []) 5
    ∷ add_sizer (codes "bSizer1") (codes "sbSizer1") 1 (all ∷ expand ∷ []) 5
    ∷ add_space (codes "bSizer1") 1 (expand ∷ []) 5
    ∷ set_sizer none (codes "bSizer1")
    ∷ []
