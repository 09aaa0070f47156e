-- ===== src/Plugin/Passes/Walk.antt =====
-- The plugin's steps, followed from one state on.
use ais_live_pi.Common.{
  ◌≡◌, refl, Bool, true, false, not, Option, none, some, Option-cases, inl, inr, if-case, arith,
}
use ais_live_pi.Platform.Double.{Double}
use ais_live_pi.Platform.Json.{JsonWriter}
use ais_live_pi.Settings.Globals.{Globals}
use ais_live_pi.Gui.State.{Gui, Dialog, Geometry, default_dialog}
use ais_live_pi.Gui.Streaming.{request, stop_ais_stream}
use ais_live_pi.Plugin.State.{Plugin, on_gui}
use ais_live_pi.Plugin.Toolbar.{show_gui, release, toggle, on_gui_closed}
use ais_live_pi.Plugin.Passes.{Goes, Goes-refl, Goes-trans, same-Goes, stop-Goes}

-- From the settings `g` and the dialog `o`, if there is one, to the others: the dialog goes on, or it
-- is a new one that has gone on from its constructor, or it is deleted.
abbrev pub Passes :
    {D : Type 0} (V : Type 0) ⦃d : Double D⦄ ⦃w : JsonWriter D V⦄
    → Globals D
    → Option (Dialog D)
    → Globals D
    → Option (Dialog D)
    → Type 0
Passes {D} V g none h none = Unit
Passes {D} V g (some b) h none = Unit
Passes {D} V g none h (some c) =
    (k : Globals D) × (geometry : Geometry) × Goes D V
      (record { globals = k; dialog = default_dialog geometry })
      (record { globals = h; dialog = c })
Passes {D} V g (some b) h (some c) =
    Goes D V (record { globals = g; dialog = b }) (record { globals = h; dialog = c })

module _ {D : Type 0} (V : Type 0) ⦃d : Double D⦄ ⦃w : JsonWriter D V⦄ (g : Globals D) where
  pub Passes-Goes :
      (o : Option (Dialog D)) (u v : Gui D)
      → Passes V g o u.globals (some u.dialog)
      → Goes D V u v
      → Passes V g o v.globals (some v.dialog)
  Passes-Goes none u v h f = (h.0, h.1, Goes-trans h.2 f)
  Passes-Goes (some b) u v h f = Goes-trans h f

  pub Passes-none : (o : Option (Dialog D)) (h : Globals D) → Passes V g o h none
  Passes-none none h = tt
  Passes-none (some b) h = tt

  pub Passes-refl : (o : Option (Dialog D)) → Passes V g o g o
  Passes-refl none = tt
  Passes-refl (some b) = Goes-refl _

module _ {D S : Type 0} (V : Type 0) ⦃d : Double D⦄ ⦃w : JsonWriter D V⦄ (g : Globals D)
    (o : Option (Dialog D)) where
  -- What the plugin has come to from there.
  abbrev pub From : Plugin D S → Type 0
  From q = Passes V g o q.globals q.my_gui

  pub on_gui-From :
      (f : Gui D → Gui D) (q : Plugin D S)
      → ((u : Gui D) → Goes D V u (f u))
      → From q
      → From (on_gui f q)
  unfolding on_gui
  on_gui-From f q k h = elim (Option-cases q.my_gui) [
    | inl e ↦ rw (e, on_gui) h
    | inr (b, e) ↦
        rw (e, on_gui)
          (Passes-Goes V g o (record { globals = q.globals; dialog = b }) _ (rw e at h) (k _))
  ]

  -- A change of settings that the client is not asked for.
  pub globals-From :
      (q : Plugin D S) (h : Globals D)
      → h.activate_vessels_following ≡ q.globals.activate_vessels_following
      → h.mmsi_list ≡ q.globals.mmsi_list
      → From q
      → Passes V g o h q.my_gui
  unfolding request
  globals-From q h e f i = elim (Option-cases q.my_gui) [
    | inl n ↦ rw n (Passes-none V g o h)
    | inr (b, n) ↦ rw n (
        Passes-Goes V g o (record { globals = q.globals; dialog = b })
          (record { globals = h; dialog = b }) (rw n at i)
          (same-Goes _ _ refl (ground (arith, e, f))))
  ]

  show-From : (shown : Bool) (q : Plugin D S) → From q → From (on_gui (show_gui shown) q)
  unfolding show_gui request
  show-From shown q h = on_gui-From _ q (λ u. same-Goes u _ refl refl) h

  release-From : (q : Plugin D S) → From q → From (release q)
  unfolding release
  release-From q h = elim (Option-cases q.my_gui) [
    | inl e ↦ rw (e, release) h
    | inr (b, e) ↦
        let u : Gui D = record { globals = q.globals; dialog = b } in
        rw (e, release)
          (if-case (λ (v : Gui D). Passes V g o v.globals (some v.dialog))
            (not q.globals.keep_window_active) (stop_ais_stream u) u
            (λ k. Passes-Goes V g o u _ (rw e at h) (stop-Goes u)) (rw e at h))
  ]

  pub closed-From : (q : Plugin D S) → From q → From (on_gui_closed q)
  unfolding on_gui_closed
  closed-From q h = show-From false _ (release-From (record q { is_toolbar_active = false }) h)

  pub toggle-From : (q : Plugin D S) → From q → From (toggle q)
  unfolding toggle
  toggle-From q h =
      if-case From (not q.is_toolbar_active) _ _ (λ e. show-From true _ h)
        (release-From _ (show-From false _ h))
