-- ===== src/Gui/Label.antt =====
-- The handlers of the dialog leave the label with the stream's state alone: only
-- `OnAisStreamStateChanged` sets it (main_ui_derived.cpp).
use ais_live_pi.Common.{◌≡◌, refl, ap, ◌∙◌, codes}
use ais_live_pi.Platform.Wx.{Wx}
use ais_live_pi.Platform.Double.{Double}
use ais_live_pi.Platform.Json.{JsonWriter}
use ais_live_pi.Settings.Globals.{Globals}
use ais_live_pi.Gui.State.{Gui, Geometry, Widgets, default_dialog, base_widgets}
use ais_live_pi.Gui.Streaming.{
  stop_ais_stream, update_token, restart-widgets, start-widgets, stop-widgets,
}
use ais_live_pi.Gui.Dialog.{new_gui, fill_widgets, register_callback}
use ais_live_pi.Gui.Walk.{Walks, box_size-Walks}

-- The label of the second state is that of the first.
abbrev pub KeepsLabel : {D : Type 0} → Gui D → Gui D → Type 0
KeepsLabel u v = v.dialog.widgets.state_label ≡ u.dialog.widgets.state_label

pub stop-KeepsLabel : {D : Type 0} (u : Gui D) → KeepsLabel u (stop_ais_stream u)
stop-KeepsLabel u = ap (λ (x : Widgets). x.state_label) (stop-widgets u)

module _ {D : Type 0} (V : Type 0) ⦃wx : Wx⦄ ⦃d : Double D⦄ ⦃w : JsonWriter D V⦄ where
  pub KeepsLabel-Walks : Walks D V KeepsLabel
  unfolding update_token
  KeepsLabel-Walks = record {
    edits = λ u v e f. f;
    joins = λ f g. g ∙ f;
    restarts = λ u. ap (λ (x : Widgets). x.state_label) (restart-widgets V u);
    starts = λ u. ap (λ (x : Widgets). x.state_label) (start-widgets V u);
    stops = stop-KeepsLabel;
    updates_token = λ u. refl;
  }

  pub new_gui-label :
      (geometry : Geometry) (g : Globals D)
      → (new_gui V geometry g).dialog.widgets.state_label ≡ codes "Not running"
  unfolding new_gui fill_widgets register_callback default_dialog base_widgets
  new_gui-label geometry g =
      box_size-Walks KeepsLabel-Walks g.last_search_box_size
        (record { globals = g; dialog = default_dialog geometry })
