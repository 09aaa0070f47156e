-- ===== src/Settings/Preferences.antt =====
-- The preferences dialog, `DialogSettings` (settings_ui_derived.cpp), with the connections of
-- settings_ui_base.cpp.
use ais_live_pi.Common.{Bool, true, false, List, [], ◌∷◌, Text}
use ais_live_pi.Settings.Globals.{Globals}

-- `m_checkBox_restoreWindowPos`, `m_checkBox_restoreWindowSize`, `m_checkBox_keepWindowActive` and
-- `m_textCtrl_token`
pub record Preferences : Type 0 where
  pub restore_pos_box : Bool
  pub restore_size_box : Bool
  pub keep_active_box : Bool
  pub token_ctrl : Text

-- What the user does: the widgets are edited, or a button is pressed.
pub data PreferencesEvent : Type 0 where
  edit : Preferences → PreferencesEvent
  press_apply press_ok press_cancel : PreferencesEvent

module _ {D : Type 0} where
  -- `OnInit`
  unfoldable pub on_init : Globals D → Preferences
  on_init g = record {
    restore_pos_box = g.restore_window_pos;
    restore_size_box = g.restore_window_size;
    keep_active_box = g.keep_window_active;
    token_ctrl = g.open_waters_token;
  }

  unfoldable pub update_settings : Preferences → Globals D → Globals D
  update_settings x g = record g {
    restore_window_pos = x.restore_pos_box;
    restore_window_size = x.restore_size_box;
    keep_window_active = x.keep_active_box;
    open_waters_token = x.token_ctrl;
  }

  -- `ShowModal` on what the user does: whether it returns `wxID_OK`, and the settings then. A
  -- dialog that nothing ends any more is cancelled.
  unfoldable pub show_modal : List PreferencesEvent → Preferences → Globals D → Bool × Globals D
  show_modal [] x g = (false, g)
  show_modal (edit y ∷ events) x g = show_modal events y g
  show_modal (press_apply ∷ events) x g = show_modal events x (update_settings x g)
  show_modal (press_ok ∷ events) x g = (true, update_settings x g)
  show_modal (press_cancel ∷ events) x g = (false, g)
