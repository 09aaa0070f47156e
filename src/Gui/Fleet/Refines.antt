-- ===== src/Gui/Fleet/Refines.antt =====
-- The handlers of the dialog against the machine of Fleet.
use ais_live_pi.Common.{
  ℕ, zero, suc, ◌^◌, ◌<◌, ◌≡◌, refl, sym, ap, ◌∙◌, Bool, true, false, Option, none, some, List, [],
  ◌∷◌, ◌++◌, All-append, All-set, All-erase_idx, Text, length, set, erase_idx, leb, if◌then◌else◌,
  arith, Bool-cases, Option-cases, inl, inr,
}
use ais_live_pi.Common.Int.{ℤ, pos, negsuc}
use ais_live_pi.Platform.Wx.{Wx, WxLaws}
use ais_live_pi.Platform.Double.{Double}
use ais_live_pi.Platform.Json.{JsonWriter}
use ais_live_pi.Gui.State.{Gui}
use ais_live_pi.Gui.Streaming.{
  set_widgets, restart_ais_stream, restart-globals, restart-widgets, start-globals, start-widgets,
  stop-globals, stop-widgets,
}
use ais_live_pi.Gui.Search.{
  update_search_position, on_follow_boat_mode, on_scroll, on_scroll_thumb_release,
  update_search_box_size,
}
use ais_live_pi.Gui.Vessels.{
  contains, u32_of_int, accepted_mmsi, set_mmsis, set_mmsi_cell, set_names, add_mmsi_to_list,
  delete_mmsi_from_list, clear_mmsi_list, set_vessels, edit_mmsi, edit_name, update_mmsi_list,
  on_activate_vessel_following,
}
use ais_live_pi.Gui.Vessels.Lists.{
  duplicate_from-erase_idx, InRange, IsDistinct-append, IsDistinct-erase_idx, IsDistinct-set,
}
use ais_live_pi.Gui.Vessels.Invariant.{
  u32_of_ulong_same, erase_at-some, set_at-some, get_elem?-some, restore_mmsi_lem,
  accepted_mmsi-InRange,
}
use ais_live_pi.Gui.Events.{
  GuiEvent, click_start, click_stop, click_add, click_clear, click_delete, check_follow_boat,
  check_following, scroll, thumb_release, edit_cell, type_spin, type_comment, put_cell, handle,
}
use ais_live_pi.Gui.Fleet.{
  Vessel, Fleet, numbers, renumber, rename, is_free, retype, add_vessel, fleet_after, Shows,
  IsOffered, IsFleet,
}
use ais_live_pi.Gui.Fleet.Lists.{
  numbers-append, names-append, numbers-erase_idx, names-erase_idx, numbers-renumber,
  names-renumber, numbers-rename, names-rename, length-numbers, length-names, length-RowsShow,
  RowsShow-append, RowsShow-erase_idx, RowsShow-renumber, RowsShow-rename, RowsShow-restore,
  cell-put_cell,
}

u32_of_int_bound : (z : ℤ) → u32_of_int z < 2 ^ 32
u32_of_int_bound (pos n) = omega arith
u32_of_int_bound (negsuc n) = omega arith

-- A number that reads as one, and that may be given to vessel `i`.
free_number : List Vessel → ℕ → Option ℕ → Option ℕ
free_number vs i none = none
free_number vs i (some m) = if is_free vs i m then some m else none

module _ ⦃wx : Wx⦄ where
  accepted_mmsi-free_number :
      (vs : List Vessel) (i : ℕ) (t : Text)
      → i < length vs
      → accepted_mmsi i t (numbers vs) ≡ free_number vs i (wx.to_ulong t)
  unfolding accepted_mmsi free_number
  accepted_mmsi-free_number vs i t h = elim (Option-cases (wx.to_ulong t)) [
    | inl e ↦ rw (accepted_mmsi, e) refl
    | inr (m, e) ↦
        rw (accepted_mmsi, e)
          (ground
            (arith, duplicate_from-erase_idx (numbers vs) i m (omega (arith, length-numbers vs))))
  ]

add-IsFleet :
    (f : Fleet)
    → contains (numbers f.vessels) (u32_of_int f.spin) ≡ false
    → IsFleet f
    → IsFleet
        (record f { vessels = f.vessels ++ (u32_of_int f.spin, f.comment) ∷ []; comment = [] })
add-IsFleet f new h = rw (numbers-append (f.vessels) (u32_of_int f.spin) (f.comment)) (
  All-append InRange (numbers f.vessels) (u32_of_int f.spin ∷ []) h.0 (h.2, tt),
  IsDistinct-append (numbers f.vessels) (u32_of_int f.spin) new h.1,
  h.2,
)

module _ {D : Type 0} (V : Type 0) ⦃wx : Wx⦄ ⦃d : Double D⦄ ⦃w : JsonWriter D V⦄ where
  pub restart-Shows : (u : Gui D) (f : Fleet) → Shows u f → Shows (restart_ais_stream V u) f
  restart-Shows u f h = rw (restart-globals V u, restart-widgets V u) h

  follow-Shows :
      (checked : Bool) (u : Gui D) (f : Fleet)
      → Shows u f
      → Shows (on_follow_boat_mode V checked u) f
  unfolding on_follow_boat_mode update_search_position
  follow-Shows true u f h = restart-Shows _ f h
  follow-Shows false u f h = h

  add-Shows :
      WxLaws → (u : Gui D) (f : Fleet) → Shows u f → Shows (add_mmsi_to_list V u) (add_vessel f)
  unfolding add_mmsi_to_list
  add-Shows laws u f h =
      let m = u32_of_int (f.spin) in
      let bound = u32_of_int_bound (f.spin) in
      elim (Bool-cases
        (contains (u.globals.mmsi_list) (u32_of_int (u.dialog.widgets.spin_value)))) [
          | inl old ↦ rw (old, rw (h.0, h.3) at old) h
          | inr new ↦
              rw (new, rw (h.0, h.3) at new)
                (restart-Shows _ _ (
                  rw (h.0, h.3) (sym (numbers-append (f.vessels) _ _)),
                  rw (h.1, h.4) (sym (names-append (f.vessels) _ _)),
                  rw (h.3, h.4)
                      (RowsShow-append (f.vessels) (u.dialog.widgets.rows) m _ (f.comment) h.2
                        (laws.to_ulong-format_09u m bound) bound),
                  h.3,
                  refl,
                  add-IsFleet f (rw (h.0, h.3) at new) h.5,
                ))
        ]

  delete-Shows :
      (i : ℕ) (u : Gui D) (f : Fleet)
      → i < length f.vessels
      → Shows u f
      → (t : Gui D) × (delete_mmsi_from_list V (some i) u ≡ some t)
        × Shows t (record f { vessels = erase_idx f.vessels i })
  unfolding delete_mmsi_from_list
  delete-Shows i u f p h =
      let vs = f.vessels in
      let mmsis = u.globals.mmsi_list in
      let ns = u.globals.mmsi_list_names in
      let rows = u.dialog.widgets.rows in
      let in_mmsis : i < length mmsis = rw (h.0) (omega (arith, length-numbers vs)) in
      let in_names : i < length ns = rw (h.1) (omega (arith, length-names vs)) in
      let t : Gui D =
        set_vessels u (erase_idx mmsis i) (erase_idx ns i) (erase_idx rows i)
          (u.dialog.widgets.comment) in
      (
        restart_ais_stream V t,
        rw (erase_at-some mmsis i in_mmsis, erase_at-some ns i in_names),
        restart-Shows t _ (
          ap (λ x. erase_idx x i) h.0 ∙ sym (numbers-erase_idx vs i),
          ap (λ x. erase_idx x i) h.1 ∙ sym (names-erase_idx vs i),
          RowsShow-erase_idx vs rows i h.2,
          h.3,
          h.4,
          rw (numbers-erase_idx vs i) (
            All-erase_idx InRange (numbers vs) i h.5.0,
            IsDistinct-erase_idx (numbers vs) i h.5.1,
            h.5.2,
          ),
        ),
      )

  rename-Shows :
      (i : ℕ) (t : Text) (u : Gui D) (f : Fleet)
      → i < length f.vessels
      → Shows u f
      → (v : Gui D) × (handle V (edit_cell i 1 t) u ≡ some v)
        × Shows v (record f { vessels = rename f.vessels i t })
  unfolding handle update_mmsi_list edit_name
  rename-Shows i t u f p h =
      let vs = f.vessels in
      let ns = u.globals.mmsi_list_names in
      let rows = put_cell (u.dialog.widgets.rows) i 1 t in
      let in_rows : i < length u.dialog.widgets.rows =
        omega (arith, length-RowsShow vs (u.dialog.widgets.rows) h.2) in
      let in_names : i < length ns = rw (h.1) (omega (arith, length-names vs)) in
      let inside : leb (length ns) i ≡ false = ground arith in
      let v : Gui D = set_widgets u (record (u.dialog.widgets) { rows = rows }) in
      (
        set_names v (set ns i t),
        rw (
          cell-put_cell (u.dialog.widgets.rows) i 1 t in_rows,
          edit_name,
          inside,
          set_at-some ns i t in_names,
        ),
        (
          h.0 ∙ sym (numbers-rename vs i t),
          ap (λ x. set x i t) h.1 ∙ sym (names-rename vs i t),
          RowsShow-rename vs (u.dialog.widgets.rows) i t h.2,
          h.3,
          h.4,
          rw (numbers-rename vs i t) h.5,
        ),
      )

  -- The text of column 0 that the user leaves comes to `edit_mmsi`.
  edit_number :
      (i : ℕ) (t : Text) (u : Gui D)
      → i < length u.dialog.widgets.rows
      → handle V (edit_cell i 0 t) u
        ≡ edit_mmsi V i t (
            set_widgets u
              (record (u.dialog.widgets) { rows = put_cell (u.dialog.widgets.rows) i 0 t }))
  unfolding handle update_mmsi_list
  edit_number i t u h = rw (cell-put_cell (u.dialog.widgets.rows) i 0 t h) refl

  refused-Shows :
      WxLaws
      → (i : ℕ) (t : Text) (u : Gui D) (f : Fleet) → i < length f.vessels
      → Shows u f
      → accepted_mmsi i t u.globals.mmsi_list ≡ none
      → (v : Gui D) × (handle V (edit_cell i 0 t) u ≡ some v) × Shows v f
  unfolding edit_mmsi
  refused-Shows laws i t u f p h e =
      let vs = f.vessels in
      let mmsis = u.globals.mmsi_list in
      let rows = u.dialog.widgets.rows in
      let in_rows : i < length rows = omega (arith, length-RowsShow vs rows h.2) in
      let in_mmsis : i < length mmsis = rw (h.0) (omega (arith, length-numbers vs)) in
      let (m, g) = get_elem?-some mmsis i in_mmsis in
      let typed : Gui D =
        set_widgets u (record (u.dialog.widgets) { rows = put_cell rows i 0 t }) in
      let printed : Gui D = set_widgets typed (record (typed.dialog.widgets) {
        rows = set_mmsi_cell (put_cell rows i 0 t) i (wx.format_09u m);
      }) in
      let back = restore_mmsi_lem V laws i m typed g (rw (h.0) h.5.0) (rw (h.0) h.5.1) in
      (
        restart_ais_stream V printed,
        edit_number i t u in_rows ∙ rw (edit_mmsi, e) back,
        restart-Shows printed f
            (h.0, h.1, RowsShow-restore laws vs rows i m t h.2 (rw (h.0) at g), h.3, h.4, h.5),
      )

  renumbered-Shows :
      (i m : ℕ) (t : Text) (u : Gui D) (f : Fleet)
      → i < length f.vessels
      → Shows u f
      → accepted_mmsi i t u.globals.mmsi_list ≡ some m
      → wx.to_ulong t ≡ some m
      → (v : Gui D) × (handle V (edit_cell i 0 t) u ≡ some v)
        × Shows v (record f { vessels = renumber f.vessels i m })
  unfolding edit_mmsi
  renumbered-Shows i m t u f p h e r =
      let vs = f.vessels in
      let (range, alone) = accepted_mmsi-InRange i t (u.globals.mmsi_list) e in
      let b = range.1 in
      let mmsis = u.globals.mmsi_list in
      let rows = u.dialog.widgets.rows in
      let in_rows : i < length rows = omega (arith, length-RowsShow vs rows h.2) in
      let in_mmsis : i < length mmsis = rw (h.0) (omega (arith, length-numbers vs)) in
      let typed : Gui D =
        set_widgets u (record (u.dialog.widgets) { rows = put_cell rows i 0 t }) in
      let v : Gui D = set_mmsis typed (set mmsis i m) in
      (
        restart_ais_stream V v,
        edit_number i t u in_rows
            ∙ rw (edit_mmsi, e, u32_of_ulong_same m b, set_at-some mmsis i m in_mmsis),
        restart-Shows v (record f { vessels = renumber vs i m })
            (
              ap (λ x. set x i m) h.0 ∙ sym (numbers-renumber vs i m),
              h.1 ∙ sym (names-renumber vs i m),
              RowsShow-renumber vs rows i m t h.2 r (omega arith),
              h.3,
              h.4,
              rw (numbers-renumber vs i m) (
                All-set InRange (numbers vs) i m range h.5.0,
                IsDistinct-set (numbers vs) i m (rw (h.0) at alone) h.5.1,
                h.5.2,
              ),
            ),
      )

  retype-Shows :
      WxLaws
      → (i : ℕ) (t : Text) (u : Gui D) (f : Fleet) → i < length f.vessels
      → Shows u f
      → (v : Gui D) × (handle V (edit_cell i 0 t) u ≡ some v)
        × Shows v (record f { vessels = retype f.vessels i (wx.to_ulong t) })
  unfolding free_number
  retype-Shows laws i t u f p h =
      let vs = f.vessels in
      let same : accepted_mmsi i t u.globals.mmsi_list ≡ free_number vs i (wx.to_ulong t) =
        rw (h.0) (accepted_mmsi-free_number vs i t p) in
      elim (Option-cases (wx.to_ulong t)) [
        | inl e ↦ rw e (refused-Shows laws i t u f p h (rw (e, free_number) at same))
        | inr (m, e) ↦ elim (Bool-cases (is_free vs i m)) [
          | inl free ↦
              rw (e, free) (renumbered-Shows i m t u f p h (rw (e, free_number, free) at same) e)
          | inr taken ↦
              rw (e, taken) (refused-Shows laws i t u f p h (rw (e, free_number, taken) at same))
        ]
      ]

  pub handle-Shows :
      WxLaws
      → (e : GuiEvent) (u : Gui D) (f : Fleet) → IsOffered e f
      → Shows u f
      → (t : Gui D) × (handle V e u ≡ some t) × Shows t (fleet_after e f)
  unfolding handle on_scroll on_scroll_thumb_release update_search_box_size
      on_activate_vessel_following delete_mmsi_from_list clear_mmsi_list
  handle-Shows laws click_start u f p h = (_, refl, rw (start-globals V u, start-widgets V u) h)
  handle-Shows laws click_stop u f p h = (_, refl, rw (stop-globals u, stop-widgets u) h)
  handle-Shows laws click_add u f p h = (_, refl, add-Shows laws u f h)
  handle-Shows laws click_clear u f p h = (
    _,
    refl,
    restart-Shows _ (record f { vessels = [] }) (refl, refl, tt, h.3, h.4, (tt, tt, h.5.2)),
  )
  handle-Shows laws (click_delete none) u f p h = (u, refl, h)
  handle-Shows laws (click_delete (some i)) u f p h = delete-Shows i u f p h
  handle-Shows laws (check_follow_boat checked) u f p h = (_, refl, follow-Shows checked u f h)
  handle-Shows laws (check_following checked) u f p h = (_, refl, restart-Shows _ f h)
  handle-Shows laws (scroll value) u f p h = (_, refl, h)
  handle-Shows laws (thumb_release value) u f p h = (_, refl, restart-Shows _ f h)
  handle-Shows laws (edit_cell i zero t) u f p h = retype-Shows laws i t u f p.0 h
  handle-Shows laws (edit_cell i (suc zero) t) u f p h = rename-Shows i t u f p.0 h
  handle-Shows laws (edit_cell i (suc (suc c)) t) u f p h =
      let bad : ⊥ = omega (arith, p.1) in elim bad [ ]
  handle-Shows laws (type_spin value) u f p h =
      (_, refl, (h.0, h.1, h.2, refl, h.4, (h.5.0, h.5.1, p)))
  handle-Shows laws (type_comment t) u f p h = (_, refl, (h.0, h.1, h.2, h.3, refl, h.5))
