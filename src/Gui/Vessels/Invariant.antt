-- ===== src/Gui/Vessels/Invariant.antt =====
-- What the handlers of the vessel list keep.
use ais_live_pi.Common.{
  ℕ, zero, suc, ◌<◌, ◌≤◌, ◌≡◌, refl, sym, ◌∙◌, ap, false, some, List, [], ◌∷◌, All, Text, arith,
  length, get_elem?, set, erase_idx, Option-cases, Bool-cases, inl, inr, leb, length-append,
  length-set, length-erase_idx, All-append, All-set, All-erase_idx,
}
use ais_live_pi.Common.Int.{ℤ}
use ais_live_pi.Platform.Wx.{Wx, WxLaws}
use ais_live_pi.Platform.Double.{Double}
use ais_live_pi.Platform.Json.{JsonWriter}
use ais_live_pi.Gui.State.{Gui}
use ais_live_pi.Gui.Streaming.{set_widgets, restart_ais_stream, restart-globals, restart-widgets}
use ais_live_pi.Gui.Vessels.{
  contains, duplicate_from, max_mmsi, u32_of_int, u32_of_ulong, set_at, erase_at, set_mmsi_cell,
  set_vessels, set_names, set_mmsis, edit_name, restore_mmsi, accepted_mmsi, add_mmsi_to_list,
  delete_mmsi_from_list, clear_mmsi_list, edit_mmsi,
}
use ais_live_pi.Gui.Vessels.Lists.{
  IsDistinct, IsDistinct-append, IsDistinct-erase_idx, IsDistinct-set, InRange, set_same,
  get_elem?-All, get_elem?-lt, accepted_mmsi-own,
}

-- The numbers, the names and the rows go together, the numbers are MMSIs, each once, and so is the
-- number in the spin control.
abbrev pub IsListed : List ℕ → List Text → List (Text × Text) → ℤ → Type 0
IsListed mmsis names rows spin =
    (length names ≡ length mmsis)
    × (length rows ≡ length mmsis)
    × All InRange mmsis
    × IsDistinct mmsis
    × InRange (u32_of_int spin)

abbrev pub IsConsistent : {D : Type 0} → Gui D → Type 0
IsConsistent u =
    IsListed u.globals.mmsi_list u.globals.mmsi_list_names u.dialog.widgets.rows
      u.dialog.widgets.spin_value

length-set_mmsi_cell :
    (rows : List (Text × Text)) (i : ℕ) (t : Text) → length (set_mmsi_cell rows i t) ≡ length rows
length-set_mmsi_cell [] i t = refl
length-set_mmsi_cell ((m, n) ∷ rows) zero t = refl
length-set_mmsi_cell ((m, n) ∷ rows) (suc i) t = ap suc (length-set_mmsi_cell rows i t)

pub u32_of_ulong_same : (n : ℕ) → n ≤ max_mmsi → u32_of_ulong n ≡ n
u32_of_ulong_same n h = omega arith

pub erase_at-some {ℓ} :
    {A : Type ℓ} (xs : List A) (i : ℕ) → i < length xs → erase_at xs i ≡ some (erase_idx xs i)
unfolding erase_at
erase_at-some xs i h = ground arith

pub set_at-some {ℓ} :
    {A : Type ℓ} (xs : List A) (i : ℕ) (a : A) → i < length xs → set_at xs i a ≡ some (set xs i a)
unfolding set_at
set_at-some xs i a h = ground arith

pub get_elem?-some {ℓ} :
    {A : Type ℓ} (xs : List A) (i : ℕ) → i < length xs → (a : A) × (get_elem? xs i ≡ some a)
get_elem?-some [] i h = elim h [ ]
get_elem?-some (x ∷ xs) zero h = (x, refl)
get_elem?-some (x ∷ xs) (suc i) h = get_elem?-some xs i (omega arith)

module _ ⦃wx : Wx⦄ where
  pub accepted_mmsi-InRange :
      (row : ℕ) (text : Text) (mmsis : List ℕ) {m : ℕ}
      → accepted_mmsi row text mmsis ≡ some m
      → InRange m × (duplicate_from 0 mmsis row m ≡ false)
  unfolding accepted_mmsi
  accepted_mmsi-InRange row text mmsis h = ground arith

module _ {D : Type 0} (V : Type 0) ⦃wx : Wx⦄ ⦃d : Double D⦄ ⦃w : JsonWriter D V⦄ where
  pub restart-IsConsistent : (u : Gui D) → IsConsistent u → IsConsistent (restart_ais_stream V u)
  restart-IsConsistent u v = rw (restart-globals V u, restart-widgets V u) v

  pub add-IsConsistent : (u : Gui D) → IsConsistent u → IsConsistent (add_mmsi_to_list V u)
  unfolding add_mmsi_to_list
  add-IsConsistent u v =
      let m = u32_of_int (u.dialog.widgets.spin_value) in
      elim (Bool-cases (contains (u.globals.mmsi_list) m)) [
        | inl old ↦ rw old v
        | inr new ↦ rw new (
            restart-IsConsistent _ (
              omega (
                arith,
                length-append (u.globals.mmsi_list) (m ∷ []),
                length-append (u.globals.mmsi_list_names) (u.dialog.widgets.comment ∷ []),
              ),
              omega (
                arith,
                length-append (u.globals.mmsi_list) (m ∷ []),
                length-append (u.dialog.widgets.rows)
                    ((wx.format_09u m, u.dialog.widgets.comment) ∷ []),
              ),
              All-append InRange (u.globals.mmsi_list) (m ∷ []) v.2 (v.4, tt),
              IsDistinct-append (u.globals.mmsi_list) m new v.3,
              v.4,
            ))
      ]

  pub clear-IsConsistent : (u : Gui D) → IsConsistent u → IsConsistent (clear_mmsi_list V u)
  unfolding clear_mmsi_list
  clear-IsConsistent u v = restart-IsConsistent _ (refl, refl, tt, tt, v.4)

  -- A delete of a listed row stays inside the vectors, removes that vessel from the numbers and the
  -- names, and keeps the list consistent.
  pub delete-IsConsistent :
      (i : ℕ) (u : Gui D)
      → i < length u.dialog.widgets.rows
      → IsConsistent u
      → (t : Gui D) × (delete_mmsi_from_list V (some i) u ≡ some t)
        × IsConsistent t
        × (t.globals.mmsi_list ≡ erase_idx u.globals.mmsi_list i)
        × (t.globals.mmsi_list_names ≡ erase_idx u.globals.mmsi_list_names i)
  unfolding delete_mmsi_from_list
  delete-IsConsistent i u h v =
      let mmsis = u.globals.mmsi_list in
      let names = u.globals.mmsi_list_names in
      let rows = u.dialog.widgets.rows in
      let t : Gui D =
        set_vessels u (erase_idx mmsis i) (erase_idx names i) (erase_idx rows i)
          (u.dialog.widgets.comment) in
      let listed : IsConsistent t = (
        omega (arith, length-erase_idx mmsis i, length-erase_idx names i),
        omega (arith, length-erase_idx mmsis i, length-erase_idx rows i),
        All-erase_idx InRange mmsis i v.2,
        IsDistinct-erase_idx mmsis i v.3,
        v.4,
      ) in
      (
        restart_ais_stream V t,
        rw (erase_at-some mmsis i (omega arith), erase_at-some names i (omega arith)),
        restart-IsConsistent t listed,
        ap (λ g. g.mmsi_list) (restart-globals V t),
        ap (λ g. g.mmsi_list_names) (restart-globals V t),
      )

  -- A refused edit prints the old number over the text, and restarts a running stream.
  pub restore_mmsi_lem :
      WxLaws
      → (i m : ℕ) (u : Gui D) → get_elem? (u.globals.mmsi_list) i ≡ some m
      → All InRange u.globals.mmsi_list
      → IsDistinct u.globals.mmsi_list
      → restore_mmsi V i u
        ≡ some (
            restart_ais_stream V (
              set_widgets u (record (u.dialog.widgets) {
                rows = set_mmsi_cell (u.dialog.widgets.rows) i (wx.format_09u m);
              })))
  unfolding restore_mmsi
  restore_mmsi_lem laws i m u e r d =
      let mmsis = u.globals.mmsi_list in
      let range : InRange m = get_elem?-All InRange mmsis i m e r in
      rw
        (
          e,
          accepted_mmsi-own laws mmsis i m e r d,
          u32_of_ulong_same m range.1,
          set_at-some mmsis i m (get_elem?-lt mmsis i m e),
          set_same mmsis i m e,
        )
        refl

  restore-IsConsistent :
      WxLaws
      → (i : ℕ) (u : Gui D) → i < length u.globals.mmsi_list
      → IsConsistent u
      → (t : Gui D) × (restore_mmsi V i u ≡ some t) × IsConsistent t
  restore-IsConsistent laws i u h v =
      let (m, e) = get_elem?-some (u.globals.mmsi_list) i h in
      (
        _,
        restore_mmsi_lem laws i m u e v.2 v.3,
        restart-IsConsistent _
            (v.0, length-set_mmsi_cell _ i (wx.format_09u m) ∙ v.1, v.2, v.3, v.4),
      )

  pub edit_mmsi-IsConsistent :
      WxLaws
      → (i : ℕ) (text : Text) (u : Gui D) → i < length u.globals.mmsi_list
      → IsConsistent u
      → (t : Gui D) × (edit_mmsi V i text u ≡ some t) × IsConsistent t
  unfolding edit_mmsi
  edit_mmsi-IsConsistent laws i text u h v =
      let mmsis = u.globals.mmsi_list in
      elim (Option-cases (accepted_mmsi i text mmsis)) [
        | inl e ↦ rw (e, edit_mmsi) (restore-IsConsistent laws i u h v)
        | inr (m, e) ↦
            let (range, alone) = accepted_mmsi-InRange i text mmsis e in
            let same = u32_of_ulong_same m range.1 in
            let t : Gui D = set_mmsis u (set mmsis i m) in
            rw (e, edit_mmsi, same)
              (
                restart_ais_stream V t,
                rw (set_at-some mmsis i m h),
                restart-IsConsistent t (
                  v.0 ∙ sym (length-set mmsis i m),
                  v.1 ∙ sym (length-set mmsis i m),
                  All-set InRange mmsis i m range v.2,
                  IsDistinct-set mmsis i m alone v.3,
                  v.4,
                ),
              )
      ]

  pub edit_name-IsConsistent :
      (i : ℕ) (text : Text) (u : Gui D)
      → i < length u.globals.mmsi_list
      → IsConsistent u
      → (t : Gui D) × (edit_name i text u ≡ some t) × IsConsistent t
  unfolding edit_name
  edit_name-IsConsistent i text u h v =
      let names = u.globals.mmsi_list_names in
      let inside : leb (length names) i ≡ false = ground arith in
      (
        set_names u (set names i text),
        rw (inside, set_at-some names i text (omega arith)),
        (length-set names i text ∙ v.0, v.1, v.2, v.3, v.4),
      )
