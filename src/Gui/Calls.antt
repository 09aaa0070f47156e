-- ===== src/Gui/Calls.antt =====
-- What the dialog does to its stream it does by calls of the client.
use ais_live_pi.Common.{sym, not, if-case}
use mathlib.Core.Path.{subst}
use ais_live_pi.Platform.Wx.{Wx}
use ais_live_pi.Platform.Double.{Double}
use ais_live_pi.Platform.Json.{JsonWriter}
use ais_live_pi.Stream.Client.Replay
use ais_live_pi.Stream.Client.Replay.{ByCalls, ByCalls-refl, ByCalls-call, ByCalls-trans}
use ais_live_pi.Settings.Globals.{Globals}
use ais_live_pi.Gui.State.{Gui, Geometry, default_dialog}
use ais_live_pi.Gui.Streaming.{
  request, restart_ais_stream, start_ais_stream, stop_ais_stream, update_token, is_streaming_data,
}
use ais_live_pi.Gui.Dialog.{new_gui, fill_widgets, register_callback}
use ais_live_pi.Gui.Walk.{Walks, box_size-Walks}

-- The client of the second state is what some calls make of that of the first.
abbrev pub Calls :
    {D : Type 0} (V : Type 0) ⦃d : Double D⦄ ⦃w : JsonWriter D V⦄ → Gui D → Gui D → Type 0
Calls {D} V u v = ByCalls D V u.dialog.ais_stream v.dialog.ais_stream

module _ {D : Type 0} (V : Type 0) ⦃d : Double D⦄ ⦃w : JsonWriter D V⦄ where
  restart-Calls : (u : Gui D) → Calls V u (restart_ais_stream V u)
  unfolding restart_ais_stream
  restart-Calls u =
      if-case (λ v. Calls V u v) (not (is_streaming_data u)) u _ (λ _. ByCalls-refl _)
        (ByCalls-call (Replay.restart (request u)) _)

  pub stop-Calls : (u : Gui D) → Calls V u (stop_ais_stream u)
  unfolding stop_ais_stream
  stop-Calls u =
      if-case (λ v. Calls V u v) (not (is_streaming_data u)) u _ (λ _. ByCalls-refl _)
        (ByCalls-call Replay.stop _)

  update_token-Calls : ⦃wx : Wx⦄ (u : Gui D) → Calls V u (update_token u)
  unfolding update_token
  update_token-Calls u =
      ByCalls-trans (ByCalls-call (Replay.set_token _) _)
        (ByCalls-call (Replay.set_token_enabled _) _)

  start-Calls : ⦃wx : Wx⦄ (u : Gui D) → Calls V u (start_ais_stream V u)
  unfolding start_ais_stream
  start-Calls u =
      if-case (λ v. Calls V u v) (is_streaming_data u) u _ (λ _. ByCalls-refl _)
        (ByCalls-trans (update_token-Calls u) (ByCalls-call (Replay.start _) _))

module _ {D : Type 0} (V : Type 0) ⦃wx : Wx⦄ ⦃d : Double D⦄ ⦃w : JsonWriter D V⦄ where
  pub Calls-Walks : Walks D V (Calls V)
  Calls-Walks = record {
    edits = λ u v e f. subst (ByCalls D V u.dialog.ais_stream) (sym e) (ByCalls-refl _);
    joins = ByCalls-trans;
    restarts = restart-Calls V;
    starts = start-Calls V;
    stops = stop-Calls V;
    updates_token = update_token-Calls V;
  }

  -- The constructor, from the new client on.
  pub new_gui-Calls :
      (geometry : Geometry) (g : Globals D)
      → ByCalls D V
          (default_dialog {D = D} geometry).ais_stream
          (new_gui V geometry g).dialog.ais_stream
  unfolding new_gui fill_widgets register_callback
  new_gui-Calls geometry g =
      ByCalls-trans
        (box_size-Walks Calls-Walks g.last_search_box_size
          (record { globals = g; dialog = default_dialog geometry }))
        (ByCalls-call Replay.set_state_callback _)
