-- ===== src/Layout/Values.antt =====
-- The first values of the widgets, read from the statements that make them.
use ais_live_pi.Common.{
  ◌≡◌, refl, Bool, false, Option, none, some, List, [], ◌∷◌, Text, codes, text_eq, if◌then◌else◌,
}
use ais_live_pi.Common.Int.{pos}
use ais_live_pi.Layout.{
  Class, Step, new_window, set_value, slider, spin_ctrl, text_ctrl, static_text,
  data_view_list_ctrl,
}
use ais_live_pi.Layout.Main.{main_steps, main_frame, stream_page, vessels_page, main_end}
use ais_live_pi.Gui.State.{Geometry, base_widgets}

-- The class and the label of a window that is made.
unfoldable window : Text → List Step → Option (Class × Text)
window t [] = none
window t (new_window w c p l ∷ ss) =
    let rest = window t ss in if text_eq t w then some (c, l) else rest
window t (_ ∷ ss) = window t ss

-- The last value that a check box is set to; it is made unchecked.
unfoldable checked : Text → List Step → Bool → Bool
checked t [] b = b
checked t (set_value w v ∷ ss) b = checked t ss (if text_eq t w then v else b)
checked t (_ ∷ ss) b = checked t ss b

-- The widgets in Gui/State start as the statements make them: the two check boxes, the slider with
-- its range, the labels, the spin control, the empty comment and the empty table.
base_widgets-main_steps :
    (g : Geometry)
    → let w = base_widgets g in
      (w.follow_box ≡ checked (codes "m_checkBox_followBoatMode") main_steps false)
      × (w.following_box ≡ checked (codes "m_checkBox_activateVesselFollowing") main_steps false)
      × (w.slider_value ≡ pos 1)
      × (window (codes "m_slider_searchBoxSize") main_steps ≡ some (slider 1 0 w.slider_max, []))
      × (window (codes "m_staticText_searchLatitude") main_steps
          ≡ some (static_text, w.latitude_label))
      × (window (codes "m_staticText_searchLongitude") main_steps
          ≡ some (static_text, w.longitude_label))
      × (window (codes "m_staticText_searchBoxSize") main_steps
          ≡ some (static_text, w.box_size_label))
      × (window (codes "m_staticText_streamState") main_steps ≡ some (static_text, w.state_label))
      × (w.spin_value ≡ pos 227_000_000)
      × (window (codes "m_spinCtrl_followedMMSI") main_steps
          ≡ some (spin_ctrl 100_000_000 999_999_999 227_000_000, codes "227000000"))
      × (window (codes "m_textCtrl_mmsiComment") main_steps ≡ some (text_ctrl, w.comment))
      × (window (codes "m_dataViewListCtrl_followedVessels") main_steps
          ≡ some (data_view_list_ctrl, []))
      × (w.rows ≡ [])
unfolding base_widgets main_steps main_frame stream_page vessels_page main_end window checked
    text_eq
base_widgets-main_steps g =
    (refl, refl, refl, refl, refl, refl, refl, refl, refl, refl, refl, refl, refl)
