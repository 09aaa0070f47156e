-- ===== src/Layout/Main.antt =====
-- The constructor of `DialogMainGuiBase` (src/main-ui/main_ui_base.cpp).
use ais_live_pi.Common.{true, false, none, some, List, [], ◌∷◌, ◌++◌, codes}
use ais_live_pi.Layout.{
  Step, new_sizer, new_window, set_value, add_space, add_window, add_sizer, set_sizer, add_page,
  horizontal, vertical, expand, all, align_center, notebook, panel, button, static_text,
  static_line, check_box, text_ctrl, data_view_list_ctrl, slider, spin_ctrl,
}

-- The sizer of the dialog and the notebook.
unfoldable pub main_frame : List Step
main_frame =
    new_sizer (codes "bSizer8") vertical ∷ new_window (codes "m_notebook") notebook none [] ∷ []

-- The page of the stream.
unfoldable pub stream_page : List Step
stream_page =
    new_window (codes "m_panel_stream") panel (some (codes "m_notebook")) []
    ∷ new_sizer (codes "bSizer2") vertical
    ∷ add_space (codes "bSizer2") 1 (expand ∷ []) 5
    ∷ new_sizer (codes "bSizer21") horizontal
    ∷ add_space (codes "bSizer21") 1 (expand ∷ []) 5
    ∷ new_window (codes "m_button_start") button (some (codes "m_panel_stream")) (codes "Start")
    ∷ add_window (codes "bSizer21") (codes "m_button_start") 0 (all ∷ []) 5
    ∷ new_window (codes "m_button_stop") button (some (codes "m_panel_stream")) (codes "Stop")
    ∷ add_window (codes "bSizer21") (codes "m_button_stop") 0 (all ∷ []) 5
    ∷ add_space (codes "bSizer21") 1 (expand ∷ []) 5
    ∷ add_sizer (codes "bSizer2") (codes "bSizer21") 1 (expand ∷ []) 5
    ∷ new_sizer (codes "bSizer3") horizontal
    ∷ add_space (codes "bSizer3") 1 (expand ∷ []) 5
    ∷ new_window (codes "m_staticText2") static_text (some (codes "m_panel_stream"))
        (codes "AIS stream:")
    ∷ add_window (codes "bSizer3") (codes "m_staticText2") 0 (align_center ∷ all ∷ []) 5
    ∷ new_window (codes "m_staticText_streamState") static_text (some (codes "m_panel_stream"))
        (codes "Not running")
    ∷ add_window (codes "bSizer3") (codes "m_staticText_streamState") 0 (align_center ∷ all ∷ []) 5
    ∷ add_space (codes "bSizer3") 1 (expand ∷ []) 5
    ∷ add_sizer (codes "bSizer2") (codes "bSizer3") 1 (expand ∷ []) 5
    ∷ add_space (codes "bSizer2") 1 (expand ∷ []) 5
    ∷ new_window (codes "m_staticline1") static_line (some (codes "m_panel_stream")) []
    ∷ add_window (codes "bSizer2") (codes "m_staticline1") 0 (expand ∷ all ∷ []) 5
    ∷ add_space (codes "bSizer2") 1 (expand ∷ []) 5
    ∷ new_sizer (codes "bSizer61") horizontal
    ∷ add_space (codes "bSizer61") 1 (expand ∷ []) 5
    ∷ new_window (codes "m_checkBox_followBoatMode") check_box (some (codes "m_panel_stream"))
        (codes "Follow boat")
    ∷ set_value (codes "m_checkBox_followBoatMode") true
    ∷ add_window (codes "bSizer61") (codes "m_checkBox_followBoatMode") 0 (align_center ∷ all ∷ [])
        5
    ∷ add_space (codes "bSizer61") 1 (expand ∷ []) 5
    ∷ add_sizer (codes "bSizer2") (codes "bSizer61") 1 (expand ∷ []) 5
    ∷ add_space (codes "bSizer2") 1 (expand ∷ []) 5
    ∷ new_window (codes "m_staticline2") static_line (some (codes "m_panel_stream")) []
    ∷ add_window (codes "bSizer2") (codes "m_staticline2") 0 (expand ∷ all ∷ []) 5
    ∷ add_space (codes "bSizer2") 1 (expand ∷ []) 5
    ∷ new_sizer (codes "bSizer4") horizontal
    ∷ add_space (codes "bSizer4") 1 (expand ∷ []) 5
    ∷ new_window (codes "m_staticText9") static_text (some (codes "m_panel_stream"))
        (codes "Search position: ")
    ∷ add_window (codes "bSizer4") (codes "m_staticText9") 0 (all ∷ []) 5
    ∷ new_window (codes "m_staticText4") static_text (some (codes "m_panel_stream")) (codes "Lat:")
    ∷ add_window (codes "bSizer4") (codes "m_staticText4") 0 (all ∷ []) 5
    ∷ new_window (codes "m_staticText_searchLatitude") static_text (some (codes "m_panel_stream"))
        (codes "0° N")
    ∷ add_window (codes "bSizer4") (codes "m_staticText_searchLatitude") 0 (all ∷ []) 5
    ∷ new_window (codes "m_staticText10") static_text (some (codes "m_panel_stream")) (codes "/")
    ∷ add_window (codes "bSizer4") (codes "m_staticText10") 0 (all ∷ []) 5
    ∷ new_window (codes "m_staticText6") static_text (some (codes "m_panel_stream")) (codes "Lon:")
    ∷ add_window (codes "bSizer4") (codes "m_staticText6") 0 (all ∷ []) 5
    ∷ new_window (codes "m_staticText_searchLongitude") static_text (some (codes "m_panel_stream"))
        (codes "0° E")
    ∷ add_window (codes "bSizer4") (codes "m_staticText_searchLongitude") 0 (all ∷ []) 5
    ∷ add_space (codes "bSizer4") 1 (expand ∷ []) 5
    ∷ add_sizer (codes "bSizer2") (codes "bSizer4") 1 (expand ∷ []) 5
    ∷ new_sizer (codes "bSizer6") horizontal
    ∷ add_space (codes "bSizer6") 1 (expand ∷ []) 5
    ∷ new_window (codes "m_staticText8") static_text (some (codes "m_panel_stream"))
        (codes "Search box size:")
    ∷ add_window (codes "bSizer6") (codes "m_staticText8") 0 (all ∷ []) 5
    ∷ new_window (codes "m_staticText_searchBoxSize") static_text (some (codes "m_panel_stream"))
        (codes "1° x 1°")
    ∷ add_window (codes "bSizer6") (codes "m_staticText_searchBoxSize") 0 (all ∷ []) 5
    ∷ add_space (codes "bSizer6") 1 (expand ∷ []) 5
    ∷ add_sizer (codes "bSizer2") (codes "bSizer6") 1 (expand ∷ []) 5
    ∷ new_window (codes "m_slider_searchBoxSize") (slider 1 0 10) (some (codes "m_panel_stream")) []
    ∷ add_window (codes "bSizer2") (codes "m_slider_searchBoxSize") 0
        (align_center ∷ all ∷ expand ∷ []) 5
    ∷ add_space (codes "bSizer2") 1 (expand ∷ []) 5
    ∷ set_sizer (some (codes "m_panel_stream")) (codes "bSizer2")
    ∷ add_page (codes "m_notebook") (codes "m_panel_stream") (codes "AIS Stream") false
    ∷ []

-- The page of the followed vessels.
unfoldable pub vessels_page : List Step
vessels_page =
    new_window (codes "m_panel_mmsiList") panel (some (codes "m_notebook")) []
    ∷ new_sizer (codes "bSizer13") horizontal
    ∷ new_sizer (codes "bSizer12") vertical
    ∷ add_space (codes "bSizer12") 1 (expand ∷ []) 5
    ∷ new_window (codes "m_spinCtrl_followedMMSI") (spin_ctrl 100000000 999999999 227000000)
        (some (codes "m_panel_mmsiList")) (codes "227000000")
    ∷ add_window (codes "bSizer12") (codes "m_spinCtrl_followedMMSI") 0
        (align_center ∷ all ∷ expand ∷ []) 5
    ∷ new_window (codes "m_textCtrl_mmsiComment") text_ctrl (some (codes "m_panel_mmsiList")) []
    ∷ add_window (codes "bSizer12") (codes "m_textCtrl_mmsiComment") 0
        (align_center ∷ all ∷ expand ∷ []) 5
    ∷ new_window (codes "m_button_addMmsiToList") button (some (codes "m_panel_mmsiList"))
        (codes "Add to list")
    ∷ add_window (codes "bSizer12") (codes "m_button_addMmsiToList") 0 (align_center ∷ all ∷ []) 5
    ∷ add_space (codes "bSizer12") 1 (expand ∷ []) 5
    ∷ new_window (codes "m_checkBox_activateVesselFollowing") check_box
        (some (codes "m_panel_mmsiList")) (codes "Activate")
    ∷ set_value (codes "m_checkBox_activateVesselFollowing") true
    ∷ add_window (codes "bSizer12") (codes "m_checkBox_activateVesselFollowing") 0
        (align_center ∷ all ∷ []) 5
    ∷ add_space (codes "bSizer12") 1 (expand ∷ []) 5
    ∷ add_sizer (codes "bSizer13") (codes "bSizer12") 0 (expand ∷ []) 5
    ∷ new_sizer (codes "bSizer15") vertical
    ∷ new_window (codes "m_staticText11") static_text (some (codes "m_panel_mmsiList"))
        (codes "MMSI list")
    ∷ add_window (codes "bSizer15") (codes "m_staticText11") 0 (align_center ∷ all ∷ []) 5
    ∷ new_window (codes "m_dataViewListCtrl_followedVessels") data_view_list_ctrl
        (some (codes "m_panel_mmsiList")) []
    ∷ add_window (codes "bSizer15") (codes "m_dataViewListCtrl_followedVessels") 1
        (all ∷ expand ∷ []) 5
    ∷ new_sizer (codes "bSizer121") horizontal
    ∷ add_space (codes "bSizer121") 1 (expand ∷ []) 5
    ∷ new_window (codes "m_button_deleteMmsiFromList") button (some (codes "m_panel_mmsiList"))
        (codes "Delete")
    ∷ add_window (codes "bSizer121") (codes "m_button_deleteMmsiFromList") 0
        (align_center ∷ all ∷ []) 5
    ∷ add_space (codes "bSizer121") 1 (expand ∷ []) 5
    ∷ new_window (codes "m_button_clearMmsiList") button (some (codes "m_panel_mmsiList"))
        (codes "Clear all")
    ∷ add_window (codes "bSizer121") (codes "m_button_clearMmsiList") 0 (align_center ∷ all ∷ []) 5
    ∷ add_space (codes "bSizer121") 1 (expand ∷ []) 5
    ∷ add_sizer (codes "bSizer15") (codes "bSizer121") 0 (expand ∷ []) 5
    ∷ add_sizer (codes "bSizer13") (codes "bSizer15") 1 (expand ∷ []) 5
    ∷ set_sizer (some (codes "m_panel_mmsiList")) (codes "bSizer13")
    ∷ add_page (codes "m_notebook") (codes "m_panel_mmsiList") (codes "Followed vessels") true
    ∷ []

-- The notebook goes into the dialog.
unfoldable pub main_end : List Step
main_end =
    add_window (codes "bSizer8") (codes "m_notebook") 1 (expand ∷ all ∷ []) 5
    ∷ set_sizer none (codes "bSizer8")
    ∷ []

-- The whole constructor.
unfoldable pub main_steps : List Step
unfolding main_frame stream_page vessels_page main_end
main_steps = main_frame ++ stream_page ++ vessels_page ++ main_end
