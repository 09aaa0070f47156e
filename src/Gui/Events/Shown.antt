-- ===== src/Gui/Events/Shown.antt =====
-- The events of the dialog, and whether it is shown.
use ais_live_pi.Common.{
  IfSome, IfSome-bind, ℕ, ◌≡◌, refl, ap, Bool, Option, none, some, Text, get_elem?, Bool-cases,
  Option-cases, inl, inr, ◌==◌,
}
use ais_live_pi.Platform.Wx.{Wx}
use ais_live_pi.Platform.Double.{Double}
use ais_live_pi.Platform.Json.{JsonWriter}
use ais_live_pi.Gui.State.{Gui}
use ais_live_pi.Gui.Streaming.{restart_ais_stream, restart-widgets, start-widgets, stop-widgets}
use ais_live_pi.Gui.Search.{
  update_search_position, on_follow_boat_mode, on_scroll, on_scroll_thumb_release,
  update_search_box_size,
}
use ais_live_pi.Gui.Vessels.{
  erase_at, set_at, cell, contains, u32_of_int, u32_of_ulong, accepted_mmsi, add_mmsi_to_list,
  delete_mmsi_from_list, clear_mmsi_list, update_mmsi_list, edit_mmsi, edit_name, restore_mmsi,
  on_activate_vessel_following,
}
use ais_live_pi.Gui.Events.{
  GuiEvent, click_start, click_stop, click_add, click_clear, click_delete, check_follow_boat,
  check_following, scroll, thumb_release, edit_cell, type_spin, type_comment, handle,
}

-- The dialog is shown just if `shown` says so.
abbrev pub IsShown : {D : Type 0} → Bool → Gui D → Type 0
IsShown shown u = u.dialog.widgets.shown ≡ shown

module _ {D : Type 0} (V : Type 0) ⦃wx : Wx⦄ ⦃d : Double D⦄ ⦃w : JsonWriter D V⦄ where
  restart-IsShown : (u : Gui D) (b : Bool) → IsShown b u → IsShown b (restart_ais_stream V u)
  restart-IsShown u b h = rw (restart-widgets V u) h

module _ {D : Type 0} (V : Type 0) ⦃wx : Wx⦄ ⦃d : Double D⦄ ⦃w : JsonWriter D V⦄ (u : Gui D) where
  add-IsShown : IsShown (u.dialog.widgets.shown) (add_mmsi_to_list V u)
  unfolding add_mmsi_to_list
  add-IsShown =
      elim (Bool-cases
        (contains (u.globals.mmsi_list) (u32_of_int (u.dialog.widgets.spin_value)))) [
          | inl old ↦ rw old refl
          | inr new ↦ rw new (restart-IsShown V _ _ refl)
        ]

  follow-IsShown : (b : Bool) → IsShown (u.dialog.widgets.shown) (on_follow_boat_mode V b u)
  unfolding on_follow_boat_mode update_search_position
  follow-IsShown b = elim (Bool-cases b) [
    | inl e ↦ rw (e, on_follow_boat_mode) (restart-IsShown V _ _ refl)
    | inr e ↦ rw (e, on_follow_boat_mode) refl
  ]

  delete-IsShown :
      (i : Option ℕ) → IfSome (IsShown (u.dialog.widgets.shown)) (delete_mmsi_from_list V i u)
  unfolding delete_mmsi_from_list
  delete-IsShown none = refl
  delete-IsShown (some i) = IfSome-bind (IsShown _) (erase_at (u.globals.mmsi_list) i) _ λ mmsis.
      IfSome-bind (IsShown _) (erase_at (u.globals.mmsi_list_names) i) _
        λ names. restart-IsShown V _ _ refl

  restore-IsShown : (row : ℕ) → IfSome (IsShown (u.dialog.widgets.shown)) (restore_mmsi V row u)
  unfolding restore_mmsi
  restore-IsShown row = IfSome-bind (IsShown _) (get_elem? (u.globals.mmsi_list) row) _ λ m.
      IfSome-bind (IsShown _) (accepted_mmsi row (wx.format_09u m) (u.globals.mmsi_list)) _
        λ parsed.
          IfSome-bind (IsShown _) (set_at (u.globals.mmsi_list) row (u32_of_ulong parsed)) _
            λ mmsis. restart-IsShown V _ _ refl

  edit_mmsi-IsShown :
      (row : ℕ) (text : Text) → IfSome (IsShown (u.dialog.widgets.shown)) (edit_mmsi V row text u)
  unfolding edit_mmsi
  edit_mmsi-IsShown row text = elim (Option-cases (accepted_mmsi row text (u.globals.mmsi_list))) [
    | inl e ↦ rw (e, edit_mmsi) (restore-IsShown row)
    | inr (m, e) ↦
        rw (e, edit_mmsi)
          (IfSome-bind (IsShown _) (set_at (u.globals.mmsi_list) row (u32_of_ulong m)) _
            λ mmsis. restart-IsShown V _ _ refl)
  ]

  edit_name-IsShown :
      (row : ℕ) (text : Text) → IfSome (IsShown (u.dialog.widgets.shown)) (edit_name row text u)
  unfolding edit_name
  edit_name-IsShown row text = IfSome-bind (IsShown {D = D} _) (set_at _ row text) _ λ names. refl

  update-IsShown :
      (row column : ℕ)
      → IfSome (IsShown (u.dialog.widgets.shown)) (update_mmsi_list V (some row) column u)
  unfolding update_mmsi_list
  update-IsShown row column =
      IfSome-bind (IsShown _) (cell (u.dialog.widgets.rows) row column) _ λ text.
        elim (Bool-cases (column == 0)) [
          | inl c ↦ rw c (edit_mmsi-IsShown row text)
          | inr c ↦ elim (Bool-cases (column == 1)) [
            | inl f ↦ rw (c, f) (edit_name-IsShown row text)
            | inr f ↦ rw (c, f) refl
          ]
        ]

module _ {D : Type 0} (V : Type 0) ⦃wx : Wx⦄ ⦃d : Double D⦄ ⦃w : JsonWriter D V⦄ where
  pub handle-IsShown :
      (e : GuiEvent) (u : Gui D) → IfSome (IsShown (u.dialog.widgets.shown)) (handle V e u)
  unfolding handle on_scroll on_scroll_thumb_release update_search_box_size
      on_activate_vessel_following clear_mmsi_list
  handle-IsShown click_start u = ap (λ x. x.shown) (start-widgets V u)
  handle-IsShown click_stop u = ap (λ x. x.shown) (stop-widgets u)
  handle-IsShown click_add u = add-IsShown V u
  handle-IsShown click_clear u = restart-IsShown V _ _ refl
  handle-IsShown (click_delete i) u = delete-IsShown V u i
  handle-IsShown (check_follow_boat checked) u = follow-IsShown V u checked
  handle-IsShown (check_following checked) u = restart-IsShown V _ _ refl
  handle-IsShown (scroll value) u = refl
  handle-IsShown (thumb_release value) u = restart-IsShown V _ _ refl
  handle-IsShown (edit_cell row column text) u = update-IsShown V _ row column
  handle-IsShown (type_spin value) u = refl
  handle-IsShown (type_comment text) u = refl
