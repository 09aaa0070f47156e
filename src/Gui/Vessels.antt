-- ===== src/Gui/Vessels.antt =====
-- The list of followed vessels: the handlers of its buttons and cells (main_ui_derived.cpp). Where
-- a handler would reach outside a vector, or would call itself without end, the result is `none`.
pub mod Lists
pub mod Invariant
use ais_live_pi.Common.{
  ℕ, zero, suc, ◌+◌, ◌-◌, ◌%◌, ◌^◌, ◌≤◌, ◌<◌, ◌≡◌, refl, Bool, true, false, not, ◌&&◌, ◌||◌, Option,
  none, some, List, [], ◌∷◌, ◌++◌, Text, codes, length, get_elem?, set, erase_idx, ltb, leb, ◌==◌,
  if◌then◌else◌, ◌>>=◌, IfSome,
}
use ais_live_pi.Common.Int.{ℤ, pos, negsuc}
use ais_live_pi.Platform.Wx.{Wx}
use ais_live_pi.Platform.Double.{Double}
use ais_live_pi.Platform.Json.{JsonWriter}
use ais_live_pi.Gui.State.{Gui, Dialog, Widgets}
use ais_live_pi.Gui.Streaming.{set_widgets, restart_ais_stream}

-- `static_cast<uint32_t>` of an `int` and of an `unsigned long`.
abbrev pub u32_of_int : ℤ → ℕ
u32_of_int (pos n) = n % 2 ^ 32
u32_of_int (negsuc n) = 2 ^ 32 - 1 - n % 2 ^ 32

abbrev pub u32_of_ulong : ℕ → ℕ
u32_of_ulong n = n % 2 ^ 32

abbrev pub min_mmsi : ℕ
min_mmsi = 100_000_000

abbrev pub max_mmsi : ℕ
max_mmsi = 999_999_999

-- `std::find(…) != end()`
unfoldable pub contains : List ℕ → ℕ → Bool
contains [] m = false
contains (x ∷ xs) m = x == m || contains xs m

-- The loop over the indices from `i` on: an index other than `row` holds `m`.
unfoldable pub duplicate_from : ℕ → List ℕ → ℕ → ℕ → Bool
duplicate_from i [] row m = false
duplicate_from i (x ∷ xs) row m = (not (i == row) && x == m) || duplicate_from (suc i) xs row m

-- `v.resize(n)` for texts.
unfoldable pub resize : List Text → ℕ → List Text
resize ts zero = []
resize [] (suc n) = [] ∷ resize [] n
resize (t ∷ ts) (suc n) = t ∷ resize ts n

-- `v[i] = x`
unfoldable pub set_at {ℓ} : {A : Type ℓ} → List A → ℕ → A → Option (List A)
set_at xs i x = if ltb i (length xs) then some (set xs i x) else none

-- `v.erase(v.begin() + i)`
unfoldable pub erase_at {ℓ} : {A : Type ℓ} → List A → ℕ → Option (List A)
erase_at xs i = if ltb i (length xs) then some (erase_idx xs i) else none

-- A cell of the widget, and the widget with a cell replaced.
abbrev pub cell : List (Text × Text) → ℕ → ℕ → Option Text
cell rows row column = elim (get_elem? rows row) [
  | none ↦ none
  | some (m, n) ↦ some (if column == 0 then m else n)
]

abbrev pub set_mmsi_cell : List (Text × Text) → ℕ → Text → List (Text × Text)
set_mmsi_cell [] row t = []
set_mmsi_cell ((m, n) ∷ rows) zero t = (t, n) ∷ rows
set_mmsi_cell ((m, n) ∷ rows) (suc row) t = (m, n) ∷ set_mmsi_cell rows row t

module _ {D : Type 0} where
  abbrev pub set_vessels : Gui D → List ℕ → List Text → List (Text × Text) → Text → Gui D
  set_vessels u mmsis names rows comment = record {
    globals = record (u.globals) { mmsi_list = mmsis; mmsi_list_names = names };
    dialog = record (u.dialog) {
      widgets = record (u.dialog.widgets) { rows = rows; comment = comment };
    };
  }

  abbrev pub set_names : Gui D → List Text → Gui D
  set_names u names = record u { globals = record (u.globals) { mmsi_list_names = names } }

  abbrev pub set_mmsis : Gui D → List ℕ → Gui D
  set_mmsis u mmsis = record u { globals = record (u.globals) { mmsi_list = mmsis } }

module _ {D : Type 0} ⦃wx : Wx⦄ where
  -- The branch for column 1.
  unfoldable pub edit_name : ℕ → Text → Gui D → Option (Gui D)
  unfolding set_at
  edit_name row text u = do
    let names = u.globals.mmsi_list_names
    let grown = if leb (length names) row then resize names (length u.globals.mmsi_list) else names
    changed ← set_at grown row text
    some (set_names u changed)

module _ ⦃wx : Wx⦄ where
  -- The number that a cell of column 0 may be given.
  unfoldable pub accepted_mmsi : ℕ → Text → List ℕ → Option ℕ
  accepted_mmsi row text mmsis = elim (wx.to_ulong text) [
    | none ↦ none
    | some parsed ↦
        if ltb parsed min_mmsi || ltb max_mmsi parsed || duplicate_from 0 mmsis row parsed
        then none
        else some parsed
  ]

module _ {D : Type 0} (V : Type 0) ⦃wx : Wx⦄ ⦃d : Double D⦄ ⦃w : JsonWriter D V⦄ where
  -- `OnButtonClick_AddMmsiToList`
  unfoldable pub add_mmsi_to_list : Gui D → Gui D
  add_mmsi_to_list u =
      let mmsi = u32_of_int (u.dialog.widgets.spin_value) in
      let comment = u.dialog.widgets.comment in
      if contains (u.globals.mmsi_list) mmsi
      then u
      else restart_ais_stream V (
          set_vessels u (u.globals.mmsi_list ++ mmsi ∷ [])
            (u.globals.mmsi_list_names ++ comment ∷ [])
            (u.dialog.widgets.rows ++ (wx.format_09u mmsi, comment) ∷ []) [])

  -- `OnButtonClick_DeleteMmsiFromList`; `none` stands for `wxNOT_FOUND`.
  unfoldable pub delete_mmsi_from_list : Option ℕ → Gui D → Option (Gui D)
  unfolding erase_at
  delete_mmsi_from_list none u = some u
  delete_mmsi_from_list (some selected) u = do
    mmsis ← erase_at (u.globals.mmsi_list) selected
    names ← erase_at (u.globals.mmsi_list_names) selected
    some (
        restart_ais_stream V (
          set_vessels u mmsis names (erase_idx (u.dialog.widgets.rows) selected)
            (u.dialog.widgets.comment)))

  -- `OnButtonClick_ClearMmsiList`
  unfoldable pub clear_mmsi_list : Gui D → Gui D
  clear_mmsi_list u = restart_ais_stream V (set_vessels u [] [] [] (u.dialog.widgets.comment))

  -- `restore_mmsi`. `SetValue` sends the event that the cell has changed, which comes to this handler
  -- again before the call returns, with the printed number: where that is accepted it is written and
  -- the stream restarted, and where it is refused like the text before, the calls go on without end
  -- (`none`).
  unfoldable pub restore_mmsi : ℕ → Gui D → Option (Gui D)
  unfolding set_at
  restore_mmsi row u = do
    m ← get_elem? (u.globals.mmsi_list) row
    let printed = wx.format_09u m
    let shown =
        set_widgets u
          (record (u.dialog.widgets) { rows = set_mmsi_cell (u.dialog.widgets.rows) row printed })
    parsed ← accepted_mmsi row printed (u.globals.mmsi_list)
    mmsis ← set_at (u.globals.mmsi_list) row (u32_of_ulong parsed)
    some (restart_ais_stream V (set_mmsis shown mmsis))

  -- The branch for column 0.
  unfoldable pub edit_mmsi : ℕ → Text → Gui D → Option (Gui D)
  unfolding set_at
  edit_mmsi row text u = elim (accepted_mmsi row text (u.globals.mmsi_list)) [
    | none ↦ restore_mmsi row u
    | some parsed ↦ do
      mmsis ← set_at (u.globals.mmsi_list) row (u32_of_ulong parsed)
      some (restart_ais_stream V (set_mmsis u mmsis))
  ]

  -- `OnDataViewListCtrlItemValueChanged_updateMmsiList`: the widget holds the new text already.
  unfoldable pub update_mmsi_list : Option ℕ → ℕ → Gui D → Option (Gui D)
  update_mmsi_list none column u = some u
  update_mmsi_list (some row) column u = do
    text ← cell (u.dialog.widgets.rows) row column
    if column == 0
        then edit_mmsi row text u
        else if column == 1
        then edit_name row text u
        else some u

  -- `m_checkBox_activateVesselFollowingOnCheckBox`
  unfoldable pub on_activate_vessel_following : Gui D → Gui D
  on_activate_vessel_following u = restart_ais_stream V (record u {
    globals = record (u.globals) { activate_vessels_following = u.dialog.widgets.following_box };
  })
