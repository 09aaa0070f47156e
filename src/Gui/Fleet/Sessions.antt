-- ===== src/Gui/Fleet/Sessions.antt =====
-- A whole life of the dialog against the machine of Fleet: the settings as they are loaded, and the
-- events after that.
use ais_live_pi.Common.{
  ℕ, suc, ◌+◌, ◌^◌, ◌<◌, ◌≡◌, refl, sym, ap, ◌∙◌, Option, some, List, [], ◌∷◌, All, Text, length,
  get_elem?, arith, ◌>>=◌,
}
use ais_live_pi.Common.Int.{pos}
use ais_live_pi.Platform.Wx.{Wx, WxLaws}
use ais_live_pi.Platform.Double.{Double}
use ais_live_pi.Platform.Json.{JsonWriter}
use ais_live_pi.Settings.Globals.{Globals}
use ais_live_pi.Gui.State.{Gui, Geometry, default_dialog, base_widgets}
use ais_live_pi.Gui.Streaming.{restart_ais_stream}
use ais_live_pi.Gui.Search.{update_search_box_size}
use ais_live_pi.Gui.Dialog.{rows_from, fill_widgets, register_callback, new_gui}
use ais_live_pi.Stream.Client.{new_client, set_state_callback}
use ais_live_pi.Gui.Vessels.Lists.{InRange, IsDistinct}
use ais_live_pi.Gui.Events.{GuiEvent, handle}
use ais_live_pi.Gui.Fleet.{Vessel, Fleet, numbers, names, fleet_after, RowsShow, Shows, IsOffered}
use ais_live_pi.Gui.Fleet.Refines.{handle-Shows}

-- The vessels of the settings.
abbrev pub zip_vessels : List ℕ → List Text → List Vessel
zip_vessels [] ns = []
zip_vessels (m ∷ ms) [] = []
zip_vessels (m ∷ ms) (n ∷ ns) = (m, n) ∷ zip_vessels ms ns

-- The fleet of a new dialog: 227000000 stands in the spin control.
abbrev pub opened_fleet : {D : Type 0} → Globals D → Fleet
opened_fleet g = record {
  vessels = zip_vessels (g.mmsi_list) (g.mmsi_list_names);
  spin = pos 227_000_000;
  comment = [];
}

-- What a `uint32_t` holds.
abbrev pub IsUint32 : ℕ → Type 0
IsUint32 m = m < 2 ^ 32

pub InRange-IsUint32 : (ms : List ℕ) → All InRange ms → All IsUint32 ms
InRange-IsUint32 [] h = tt
InRange-IsUint32 (m ∷ ms) h = (omega (arith, h.0), InRange-IsUint32 ms h.1)

numbers-zip_vessels :
    (ms : List ℕ) (ns : List Text) → length ns ≡ length ms → numbers (zip_vessels ms ns) ≡ ms
numbers-zip_vessels [] ns h = refl
numbers-zip_vessels (m ∷ ms) [] h = ground arith
numbers-zip_vessels (m ∷ ms) (n ∷ ns) h = ap (m ∷◌) (numbers-zip_vessels ms ns (omega arith))

names-zip_vessels :
    (ms : List ℕ) (ns : List Text) → length ns ≡ length ms → names (zip_vessels ms ns) ≡ ns
names-zip_vessels [] [] h = refl
names-zip_vessels [] (n ∷ ns) h = ground arith
names-zip_vessels (m ∷ ms) [] h = ground arith
names-zip_vessels (m ∷ ms) (n ∷ ns) h = ap (n ∷◌) (names-zip_vessels ms ns (omega arith))

module _ ⦃wx : Wx⦄ (laws : WxLaws) where
  -- `ns` are the names from index `i` on.
  rows_from-RowsShow :
      (i : ℕ) (ms : List ℕ) (all ns : List Text)
      → ((k : ℕ) → get_elem? all (i + k) ≡ get_elem? ns k)
      → length ns ≡ length ms
      → All IsUint32 ms
      → RowsShow (zip_vessels ms ns) (rows_from i ms all)
  unfolding rows_from
  rows_from-RowsShow i [] all ns e h r = tt
  rows_from-RowsShow i (m ∷ ms) all [] e h r = ground arith
  rows_from-RowsShow i (m ∷ ms) all (n ∷ ns) e h r =
      let here : i ≡ i + 0 = omega arith in
      (
        laws.to_ulong-format_09u m (r.0),
        rw (ap (get_elem? all) here ∙ e 0) refl,
        r.0,
        rows_from-RowsShow (suc i) ms all ns
            (λ k. let next : suc i + k ≡ i + suc k = omega arith in rw next (e (suc k)))
            (omega arith) (r.1),
      )

module _ {D : Type 0} (V : Type 0) ⦃wx : Wx⦄ ⦃d : Double D⦄ ⦃w : JsonWriter D V⦄
    (laws : WxLaws) where
  pub new_gui-Shows :
      (geometry : Geometry) (g : Globals D)
      → length g.mmsi_list_names ≡ length g.mmsi_list
      → All InRange g.mmsi_list
      → IsDistinct g.mmsi_list
      → Shows (new_gui V geometry g) (opened_fleet g)
  unfolding new_gui register_callback fill_widgets update_search_box_size restart_ais_stream
      default_dialog base_widgets new_client set_state_callback
  new_gui-Shows geometry g h r d = (
    sym (numbers-zip_vessels (g.mmsi_list) (g.mmsi_list_names) h),
    sym (names-zip_vessels (g.mmsi_list) (g.mmsi_list_names) h),
    rows_from-RowsShow laws 0 (g.mmsi_list) (g.mmsi_list_names) (g.mmsi_list_names)
        (λ k. let same : 0 + k ≡ k = omega arith in rw same refl) h
        (InRange-IsUint32 (g.mmsi_list) r),
    refl,
    refl,
    rw (numbers-zip_vessels (g.mmsi_list) (g.mmsi_list_names) h) (r, d, (omega arith, omega arith)),
  )

module _ {D : Type 0} (V : Type 0) ⦃wx : Wx⦄ ⦃d : Double D⦄ ⦃w : JsonWriter D V⦄ where
  -- The events of the user, one after the other.
  unfoldable pub session : List GuiEvent → Gui D → Option (Gui D)
  session [] u = some u
  session (e ∷ es) u = handle V e u >>= session es

module _ ⦃wx : Wx⦄ where
  abbrev pub fleet_session : List GuiEvent → Fleet → Fleet
  fleet_session [] f = f
  fleet_session (e ∷ es) f = fleet_session es (fleet_after e f)

  -- Each event is offered to the user when it comes.
  abbrev pub AllOffered : List GuiEvent → Fleet → Type 0
  AllOffered [] f = Unit
  AllOffered (e ∷ es) f = IsOffered e f × AllOffered es (fleet_after e f)

module _ {D : Type 0} (V : Type 0) ⦃wx : Wx⦄ ⦃d : Double D⦄ ⦃w : JsonWriter D V⦄
    (laws : WxLaws) where
  session-Shows_from :
      (es : List GuiEvent) (u : Gui D) (f : Fleet)
      → AllOffered es f
      → Shows u f
      → (t : Gui D) × (session V es u ≡ some t) × Shows t (fleet_session es f)
  unfolding session
  session-Shows_from [] u f p h = (u, refl, h)
  session-Shows_from (e ∷ es) u f p h =
      let (v, one, shown) = handle-Shows V laws e u f (p.0) h in
      let (t, rest, last) = session-Shows_from es v (fleet_after e f) (p.1) shown in
      (t, rw one rest, last)

  -- From settings with as many names as numbers, the numbers nine-digit and pairwise distinct, a new
  -- dialog and the settings show the same list of numbered and named vessels; and after any events that the
  -- widgets offer, all of which are handled inside the vectors and come to an end, the numbers, the names and the
  -- rows still show one list, which these events make: `Add` puts the number and the comment
  -- behind it unless the number is there, and empties the comment then; `Delete` takes the
  -- selected vessel out and `Clear` all of them; a text put in for a number replaces it if it
  -- reads as nine digits and no other vessel has them, and is printed over with the old number if
  -- not; one put in for a name replaces that; and no other event changes it. A row shows the
  -- vessel's name and a text that reads as its number.
  pub session-Shows :
      (geometry : Geometry) (g : Globals D) (es : List GuiEvent)
      → length g.mmsi_list_names ≡ length g.mmsi_list
      → All InRange g.mmsi_list
      → IsDistinct g.mmsi_list
      → AllOffered es (opened_fleet g)
      → (t : Gui D) × (session V es (new_gui V geometry g) ≡ some t)
        × Shows t (fleet_session es (opened_fleet g))
  session-Shows geometry g es h r d p =
      session-Shows_from es (new_gui V geometry g) (opened_fleet g) p
        (new_gui-Shows V laws geometry g h r d)
