-- ===== src/Plugin/InStep.antt =====
-- The window, the toolbar button and the context menu's entry in step, and the plugin's operations
-- on them.
use ais_live_pi.Common.{
  ◌≡◌, Bool, true, false, none, some, Text, arith, implies, Bool-cases, Option-cases, inl, inr,
}
use ais_live_pi.Gui.State.{Gui}
use ais_live_pi.Gui.Streaming.{stop_ais_stream, on_ais_stream_state_changed}
use ais_live_pi.Stream.Client.{stop}
use ais_live_pi.Stream.Output.{State}
use ais_live_pi.Plugin.State.{Plugin, on_gui}
use ais_live_pi.Plugin.Toolbar.{release, on_gui_closed, toggle, show_gui}
use ais_live_pi.Plugin.Quiet.{IsQuieter}
use ais_live_pi.Plugin.Steps.{closing_step}

module _ {D S : Type 0} where
  abbrev pub has_gui : Plugin D S → Bool
  has_gui p = elim p.my_gui [ none ↦ false | some b ↦ true ]

  abbrev pub shows : Plugin D S → Bool
  shows p = elim p.my_gui [ none ↦ false | some b ↦ b.widgets.shown ]

  abbrev pub streams : Plugin D S → Bool
  streams p = elim p.my_gui [ none ↦ false | some b ↦ b.ais_stream.streaming ]

-- The window is shown exactly while the plugin counts it as active; an active one has the button
-- down and the entry visible; the button is down only while the entry is visible, and the
-- entry is visible only if there is a window. Without a visible entry nothing is streamed.
abbrev pub IsInStep : {D S : Type 0} → Plugin D S → Type 0
IsInStep p =
    (shows p ≡ p.is_toolbar_active)
    × (implies p.is_toolbar_active p.toolbar_item_state ≡ true)
    × (implies p.toolbar_item_state p.menu_item_viz ≡ true)
    × (implies p.menu_item_viz (has_gui p) ≡ true)
    × (implies (streams p) p.menu_item_viz ≡ true)

module _ {D S : Type 0} where
  pub on_gui-IsInStep :
      (f : Gui D → Gui D)
      → ((u : Gui D) → IsQuieter (f u) u)
      → (p : Plugin D S) → IsInStep p
      → IsInStep (on_gui f p)
  unfolding on_gui
  on_gui-IsInStep f q p h = elim (Option-cases p.my_gui) [
    | inl e ↦ rw (e, on_gui) (ground (arith, h, e))
    | inr (b, e) ↦
        rw (e, on_gui) (ground (arith, h, e, q (record { globals = p.globals; dialog = b })))
  ]

  pub closed-IsInStep : (p : Plugin D S) → IsInStep p → IsInStep (closing_step p)
  unfolding closing_step on_gui_closed release on_gui show_gui stop_ais_stream stop
  closed-IsInStep p h = elim (Option-cases p.my_gui) [
    | inl e ↦ rw (e, closing_step) h
    | inr (b, e) ↦ rw (e, closing_step, on_gui_closed, release, on_gui) (ground (arith, h, e))
  ]

  pub toggle-IsInStep : (p : Plugin D S) → has_gui p ≡ true → IsInStep p → IsInStep (toggle p)
  unfolding toggle release on_gui show_gui stop_ais_stream stop
  toggle-IsInStep p g h = elim (Option-cases p.my_gui) [
    | inl e ↦ ground (arith, g, e)
    | inr (b, e) ↦ elim (Bool-cases p.is_toolbar_active) [
      | inl a ↦ rw (a, e, toggle, release, on_gui) (ground (arith, h, e, a))
      | inr a ↦ rw (a, e, toggle, release, on_gui) (ground (arith, h, e, a))
    ]
  ]

  pub state-IsInStep :
      (state : State) (detail : Text) (p : Plugin D S)
      → IsInStep p
      → IsInStep (on_gui (on_ais_stream_state_changed state detail) p)
  unfolding on_gui on_ais_stream_state_changed
  state-IsInStep state detail p h = elim (Option-cases p.my_gui) [
    | inl e ↦ rw (e, on_gui) h
    | inr (b, e) ↦ rw (e, on_gui) (ground (arith, h, e))
  ]
