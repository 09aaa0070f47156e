-- ===== src/Layout.antt =====
-- The constructors that wxFormBuilder has written for the three dialogs, statement by statement, by the
-- names that their windows and sizers have there. What only bears on sizes and wrapping is left
-- out: `Layout`, `Fit`, `Wrap`, `SetSizeHints`, `Centre`, `SetMaxLength`, and so are the styles of the
-- windows. A label is the text before its translation.
pub mod Main
pub mod Settings
pub mod Menu
pub mod Placed
pub mod Values
use ais_live_pi.Common.{ℕ, Bool, Option, List, Text}

pub data Orientation : Type 0 where
  horizontal vertical : Orientation

pub data Flag : Type 0 where
  expand all align_center : Flag

-- The class of a window, with the value and the range of a slider, the range and the value of a
-- spin control, and the address of a link.
pub data Class : Type 0 where
  notebook panel button static_text static_line check_box text_ctrl : Class
  data_view_list_ctrl : Class
  hyperlink_ctrl : Text → Class
  slider : ℕ → ℕ → ℕ → Class
  spin_ctrl : ℕ → ℕ → ℕ → Class

pub data Step : Type 0 where
  -- `new wxBoxSizer`, and `new wxStaticBoxSizer` with the label of its box
  new_sizer : Text → Orientation → Step
  new_static_box_sizer : Text → Orientation → Text → Step
  -- a new window with its parent (`none` is the dialog, a static box goes by its sizer's name) and its
  -- label
  new_window : Text → Class → Option Text → Text → Step
  -- `SetValue` of a check box
  set_value : Text → Bool → Step
  -- `Add` to a sizer, with the proportion, the flags and the border
  add_space : Text → ℕ → List Flag → ℕ → Step
  add_window add_sizer : Text → Text → ℕ → List Flag → ℕ → Step
  -- `SetSizer`
  set_sizer : Option Text → Text → Step
  -- `AddPage` to a notebook, with the title and whether the page is selected
  add_page : Text → Text → Text → Bool → Step
