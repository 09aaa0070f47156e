-- ===== src/Gui/Fleet.antt =====
-- The vessel list as the user sees it: one list of numbered and named vessels, where the dialog and
-- the settings keep the same in three lists; and what the events of the dialog do to it.
pub mod Lists
pub mod Refines
pub mod Sessions
use ais_live_pi.Common.{
  ℕ, zero, suc, ◌+◌, ◌^◌, ◌<◌, ◌≡◌, Bool, true, false, not, ◌&&◌, ◌||◌, Option, none, some, List,
  [], ◌∷◌, ◌++◌, map, Text, All, length, erase_idx, ltb, leb, ◌==◌, if◌then◌else◌,
}
use ais_live_pi.Common.Int.{ℤ}
use ais_live_pi.Platform.Wx.{Wx}
use ais_live_pi.Gui.State.{Gui, Dialog, Widgets}
use ais_live_pi.Gui.Vessels.{contains, min_mmsi, max_mmsi, u32_of_int}
use ais_live_pi.Gui.Vessels.Lists.{InRange, IsDistinct}
use ais_live_pi.Gui.Events.{
  GuiEvent, click_start, click_stop, click_add, click_clear, click_delete, check_follow_boat,
  check_following, scroll, thumb_release, edit_cell, type_spin, type_comment,
}

-- A vessel: its MMSI and the name that the user gave it.
abbrev pub Vessel : Type 0
Vessel = ℕ × Text

-- The vessels, and what stands in the two controls beside them.
pub record Fleet : Type 0 where
  pub vessels : List Vessel
  pub spin : ℤ
  pub comment : Text

abbrev pub numbers : List Vessel → List ℕ
numbers [] = []
numbers ((m, n) ∷ vs) = m ∷ numbers vs

abbrev pub names : List Vessel → List Text
names [] = []
names ((m, n) ∷ vs) = n ∷ names vs

abbrev pub renumber : List Vessel → ℕ → ℕ → List Vessel
renumber [] i k = []
renumber ((m, n) ∷ vs) zero k = (k, n) ∷ vs
renumber ((m, n) ∷ vs) (suc i) k = (m, n) ∷ renumber vs i k

abbrev pub rename : List Vessel → ℕ → Text → List Vessel
rename [] i t = []
rename ((m, n) ∷ vs) zero t = (m, t) ∷ vs
rename ((m, n) ∷ vs) (suc i) t = (m, n) ∷ rename vs i t

-- The number may stand for vessel `i`: nine digits, and no other vessel's.
abbrev pub is_free : List Vessel → ℕ → ℕ → Bool
is_free vs i m = leb min_mmsi m && leb m max_mmsi && not (contains (erase_idx (numbers vs) i) m)

-- The numbers have nine digits and are pairwise distinct, and the one in the spin control is in its
-- range.
abbrev pub IsFleet : Fleet → Type 0
IsFleet f =
    All InRange (numbers f.vessels) × IsDistinct (numbers f.vessels) × InRange (u32_of_int f.spin)

module _ ⦃wx : Wx⦄ where
  -- What a text put in for a number does.
  abbrev pub retype : List Vessel → ℕ → Option ℕ → List Vessel
  retype vs i none = vs
  retype vs i (some m) = if is_free vs i m then renumber vs i m else vs

  abbrev pub add_vessel : Fleet → Fleet
  add_vessel f =
      let m = u32_of_int f.spin in
      if contains (numbers f.vessels) m
      then f
      else record f { vessels = f.vessels ++ (m, f.comment) ∷ []; comment = [] }

  -- What an event does to the vessels and the two controls.
  abbrev pub fleet_after : GuiEvent → Fleet → Fleet
  fleet_after click_add f = add_vessel f
  fleet_after click_clear f = record f { vessels = [] }
  fleet_after (click_delete (some i)) f = record f { vessels = erase_idx f.vessels i }
  fleet_after (edit_cell i zero t) f = record f { vessels = retype f.vessels i (wx.to_ulong t) }
  fleet_after (edit_cell i (suc c) t) f = record f { vessels = rename f.vessels i t }
  fleet_after (type_spin value) f = record f { spin = value }
  fleet_after (type_comment t) f = record f { comment = t }
  fleet_after _ f = f

  -- The rows show the vessels: each has the vessel's name and a text that reads as its number.
  abbrev pub RowsShow : List Vessel → List (Text × Text) → Type 0
  RowsShow [] [] = Unit
  RowsShow [] (r ∷ rows) = ⊥
  RowsShow (v ∷ vs) [] = ⊥
  RowsShow ((m, n) ∷ vs) ((t, c) ∷ rows) =
      (wx.to_ulong t ≡ some m) × (c ≡ n) × (m < 2 ^ 32) × RowsShow vs rows

  -- The dialog and the settings show the fleet, and it is one of distinct nine-digit numbers.
  abbrev pub Shows : {D : Type 0} → Gui D → Fleet → Type 0
  Shows u f =
      (u.globals.mmsi_list ≡ numbers f.vessels)
      × (u.globals.mmsi_list_names ≡ names f.vessels)
      × RowsShow f.vessels u.dialog.widgets.rows
      × (u.dialog.widgets.spin_value ≡ f.spin)
      × (u.dialog.widgets.comment ≡ f.comment)
      × IsFleet f

-- What the widgets let the user do: a row that is there, one of the two columns, and numbers in the
-- spin control's range.
abbrev pub IsOffered : GuiEvent → Fleet → Type 0
IsOffered (click_delete (some i)) f = i < length f.vessels
IsOffered (edit_cell i column t) f = (i < length f.vessels) × (column < 2)
IsOffered (type_spin value) f = InRange (u32_of_int value)
IsOffered _ f = Unit
