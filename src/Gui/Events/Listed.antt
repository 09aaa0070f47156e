-- ===== src/Gui/Events/Listed.antt =====
-- The vessel list through the events of the dialog.
use ais_live_pi.Common.{
  ℕ, zero, suc, ◌<◌, ◌≡◌, refl, ap, ◌∙◌, Bool, true, false, none, some, List, [], ◌∷◌, Text, length,
  arith, Bool-cases, inl, inr, ◌==◌,
}
use ais_live_pi.Platform.Wx.{Wx, WxLaws}
use ais_live_pi.Platform.Double.{Double}
use ais_live_pi.Platform.Json.{JsonWriter}
use ais_live_pi.Gui.State.{Gui}
use ais_live_pi.Gui.Streaming.{
  set_widgets, start-globals, start-widgets, stop-globals, stop-widgets,
}
use ais_live_pi.Gui.Search.{
  update_search_position, on_follow_boat_mode, on_scroll, on_scroll_thumb_release,
  update_search_box_size,
}
use ais_live_pi.Gui.Vessels.{
  u32_of_int, cell, delete_mmsi_from_list, update_mmsi_list, on_activate_vessel_following,
}
use ais_live_pi.Gui.Vessels.Lists.{InRange}
use ais_live_pi.Gui.Vessels.Invariant.{
  IsConsistent, restart-IsConsistent, add-IsConsistent, clear-IsConsistent, delete-IsConsistent,
  edit_mmsi-IsConsistent, edit_name-IsConsistent,
}
use ais_live_pi.Gui.Events.{
  GuiEvent, click_start, click_stop, click_add, click_clear, click_delete, check_follow_boat,
  check_following, scroll, thumb_release, edit_cell, type_spin, type_comment, put_cell, handle,
}

-- What the widgets let the user do: rows that are there, and numbers in the spin control's range.
abbrev pub IsPossible : {D : Type 0} → GuiEvent → Gui D → Type 0
IsPossible (click_delete (some i)) u = i < length u.dialog.widgets.rows
IsPossible (edit_cell row column text) u = row < length u.dialog.widgets.rows
IsPossible (type_spin value) u = InRange (u32_of_int value)
IsPossible _ u = Unit

length-put_cell :
    (rows : List (Text × Text)) (i column : ℕ) (t : Text)
    → length (put_cell rows i column t) ≡ length rows
length-put_cell [] i column t = refl
length-put_cell ((m, n) ∷ rows) zero column t = refl
length-put_cell ((m, n) ∷ rows) (suc i) column t = ap suc (length-put_cell rows i column t)

cell-some :
    (rows : List (Text × Text)) (i column : ℕ)
    → i < length rows
    → (t : Text) × (cell rows i column ≡ some t)
cell-some [] i column h = elim h [ ]
cell-some ((m, n) ∷ rows) zero column h = (_, refl)
cell-some ((m, n) ∷ rows) (suc i) column h = cell-some rows i column (omega arith)

module _ {D : Type 0} (V : Type 0) ⦃wx : Wx⦄ ⦃d : Double D⦄ ⦃w : JsonWriter D V⦄ where
  follow-IsConsistent :
      (checked : Bool) (u : Gui D) → IsConsistent u → IsConsistent (on_follow_boat_mode V checked u)
  unfolding on_follow_boat_mode update_search_position
  follow-IsConsistent true u v = restart-IsConsistent V _ v
  follow-IsConsistent false u v = v

  update-IsConsistent :
      WxLaws
      → (i column : ℕ) (u : Gui D) → i < length u.dialog.widgets.rows
      → IsConsistent u
      → (t : Gui D) × (update_mmsi_list V (some i) column u ≡ some t) × IsConsistent t
  unfolding update_mmsi_list
  update-IsConsistent laws i column u h v =
      let (text, e) = cell-some (u.dialog.widgets.rows) i column h in
      let inside : i < length u.globals.mmsi_list = omega (arith, v.1) in
      elim (Bool-cases (column == 0)) [
        | inl c ↦ rw (update_mmsi_list, e, c) (edit_mmsi-IsConsistent V laws i text u inside v)
        | inr c ↦ elim (Bool-cases (column == 1)) [
          | inl f ↦ rw (update_mmsi_list, e, c, f) (edit_name-IsConsistent V i text u inside v)
          | inr f ↦ rw (update_mmsi_list, e, c, f) (u, refl, v)
        ]
      ]

  -- If the text functions keep their documented laws: from a state with as many names and rows as numbers, the numbers nine-digit and pairwise
  -- distinct and the spin control in its range, every event that the widgets allow is handled
  -- without reaching outside a vector, and leads to such a state.
  pub handle-IsConsistent :
      WxLaws
      → (e : GuiEvent) (u : Gui D) → IsPossible e u
      → IsConsistent u
      → (t : Gui D) × (handle V e u ≡ some t) × IsConsistent t
  unfolding handle on_scroll on_scroll_thumb_release update_search_box_size
      on_activate_vessel_following delete_mmsi_from_list
  handle-IsConsistent laws click_start u p v =
      (_, refl, rw (start-globals V u, start-widgets V u) v)
  handle-IsConsistent laws click_stop u p v = (_, refl, rw (stop-globals u, stop-widgets u) v)
  handle-IsConsistent laws click_add u p v = (_, refl, add-IsConsistent V u v)
  handle-IsConsistent laws click_clear u p v = (_, refl, clear-IsConsistent V u v)
  handle-IsConsistent laws (click_delete none) u p v = (u, refl, v)
  handle-IsConsistent laws (click_delete (some i)) u p v =
      let (t, e, listed, _, _) = delete-IsConsistent V i u p v in (t, e, listed)
  handle-IsConsistent laws (check_follow_boat checked) u p v =
      (_, refl, follow-IsConsistent checked u v)
  handle-IsConsistent laws (check_following checked) u p v = (_, refl, restart-IsConsistent V _ v)
  handle-IsConsistent laws (scroll value) u p v = (_, refl, v)
  handle-IsConsistent laws (thumb_release value) u p v = (_, refl, restart-IsConsistent V _ v)
  handle-IsConsistent laws (edit_cell row column text) u p v =
      let rows = u.dialog.widgets.rows in
      let same = length-put_cell rows row column text in
      update-IsConsistent laws row column
        (set_widgets u (record (u.dialog.widgets) { rows = put_cell rows row column text }))
        (omega (arith, same)) (v.0, same ∙ v.1, v.2, v.3, v.4)
  handle-IsConsistent laws (type_spin value) u p v = (_, refl, (v.0, v.1, v.2, v.3, p))
  handle-IsConsistent laws (type_comment text) u p v = (_, refl, v)
