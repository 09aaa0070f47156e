-- ===== src/Layout/Settings.antt =====
-- The constructor of `DialogSettingsBase` (src/settings/settings_ui_base.cpp).
use ais_live_pi.Common.{true, false, none, some, List, [], ◌∷◌, codes}
use ais_live_pi.Layout.{
  Step, new_sizer, new_window, set_value, add_space, add_window, add_sizer, set_sizer, add_page,
  horizontal, vertical, expand, all, align_center, notebook, panel, button, static_text, check_box,
  text_ctrl, hyperlink_ctrl,
}

-- The whole constructor, up to the connections.
unfoldable pub settings_steps : List Step
settings_steps =
    new_sizer (codes "sizerDialog") vertical
    ∷ new_window (codes "m_notebook1") notebook none []
    ∷ new_window (codes "m_panel_options") panel (some (codes "m_notebook1")) []
    ∷ new_sizer (codes "bSizer12") vertical
    ∷ add_space (codes "bSizer12") 1 (expand ∷ []) 5
    ∷ new_sizer (codes "bSizer91") horizontal
    ∷ add_space (codes "bSizer91") 1 (expand ∷ []) 5
    ∷ new_window (codes "m_checkBox_keepWindowActive") check_box (some (codes "m_panel_options"))
        (codes "Keep transmitting when window is closed")
    ∷ set_value (codes "m_checkBox_keepWindowActive") true
    ∷ add_window (codes "bSizer91") (codes "m_checkBox_keepWindowActive") 0
        (align_center ∷ all ∷ []) 5
    ∷ add_space (codes "bSizer91") 1 (expand ∷ []) 5
    ∷ add_sizer (codes "bSizer12") (codes "bSizer91") 1 (expand ∷ []) 5
    ∷ add_space (codes "bSizer12") 1 (expand ∷ []) 5
    ∷ set_sizer (some (codes "m_panel_options")) (codes "bSizer12")
    ∷ add_page (codes "m_notebook1") (codes "m_panel_options") (codes "Options") false
    ∷ new_window (codes "m_panel_openwaters") panel (some (codes "m_notebook1")) []
    ∷ new_sizer (codes "bSizer92") vertical
    ∷ add_space (codes "bSizer92") 1 (expand ∷ []) 5
    ∷ new_window (codes "m_hyperlink1") (hyperlink_ctrl (codes "https://openwaters.io/ais/token/"))
        (some (codes "m_panel_openwaters")) (codes "Get your token here!")
    ∷ add_window (codes "bSizer92") (codes "m_hyperlink1") 0 (align_center ∷ all ∷ []) 5
    ∷ new_sizer (codes "bSizer11") horizontal
    ∷ new_window (codes "m_staticText4") static_text (some (codes "m_panel_openwaters"))
        (codes "My token:")
    ∷ add_window (codes "bSizer11") (codes "m_staticText4") 0 (align_center ∷ all ∷ []) 5
    ∷ new_window (codes "m_textCtrl_token") text_ctrl (some (codes "m_panel_openwaters")) []
    ∷ add_window (codes "bSizer11") (codes "m_textCtrl_token") 1 (align_center ∷ all ∷ []) 5
    ∷ add_sizer (codes "bSizer92") (codes "bSizer11") 1 (expand ∷ []) 5
    ∷ add_space (codes "bSizer92") 1 (expand ∷ []) 5
    ∷ set_sizer (some (codes "m_panel_openwaters")) (codes "bSizer92")
    ∷ add_page (codes "m_notebook1") (codes "m_panel_openwaters") (codes "AIS Stream") true
    ∷ new_window (codes "m_panel_display") panel (some (codes "m_notebook1")) []
    ∷ new_sizer (codes "sizerSettings") vertical
    ∷ new_sizer (codes "bSizer8") horizontal
    ∷ add_space (codes "bSizer8") 1 (expand ∷ []) 5
    ∷ new_window (codes "m_checkBox_restoreWindowPos") check_box (some (codes "m_panel_display"))
        (codes "Restore last window position")
    ∷ set_value (codes "m_checkBox_restoreWindowPos") true
    ∷ add_window (codes "bSizer8") (codes "m_checkBox_restoreWindowPos") 0 (align_center ∷ all ∷ [])
        5
    ∷ add_space (codes "bSizer8") 1 (expand ∷ []) 5
    ∷ add_sizer (codes "sizerSettings") (codes "bSizer8") 1 (expand ∷ []) 5
    ∷ new_sizer (codes "bSizer9") horizontal
    ∷ add_space (codes "bSizer9") 1 (expand ∷ []) 5
    ∷ new_window (codes "m_checkBox_restoreWindowSize") check_box (some (codes "m_panel_display"))
        (codes "Restore last window size")
    ∷ set_value (codes "m_checkBox_restoreWindowSize") true
    ∷ add_window (codes "bSizer9") (codes "m_checkBox_restoreWindowSize") 0
        (align_center ∷ all ∷ []) 5
    ∷ add_space (codes "bSizer9") 1 (expand ∷ []) 5
    ∷ add_sizer (codes "sizerSettings") (codes "bSizer9") 1 (expand ∷ []) 5
    ∷ set_sizer (some (codes "m_panel_display")) (codes "sizerSettings")
    ∷ add_page (codes "m_notebook1") (codes "m_panel_display") (codes "Display") false
    ∷ add_window (codes "sizerDialog") (codes "m_notebook1") 1 (expand ∷ []) 5
    ∷ new_sizer (codes "sizerButtons") horizontal
    ∷ add_space (codes "sizerButtons") 1 (expand ∷ []) 5
    ∷ new_window (codes "buttonOK") button none (codes "OK")
    ∷ add_window (codes "sizerButtons") (codes "buttonOK") 0 (all ∷ []) 5
    ∷ new_window (codes "buttonApply") button none (codes "Apply")
    ∷ add_window (codes "sizerButtons") (codes "buttonApply") 0 (all ∷ []) 5
    ∷ add_space (codes "sizerButtons") 1 (expand ∷ []) 5
    ∷ add_sizer (codes "sizerDialog") (codes "sizerButtons") 0 (expand ∷ []) 5
    ∷ set_sizer none (codes "sizerDialog")
    ∷ []
