-- ===== src/Gui/Streaming.antt =====
-- The dialog's stream: `StartAisStream`, `StopAisStream`, `RestartAisStream` and
-- `OnAisStreamStateChanged` (main_ui_derived.cpp).
use ais_live_pi.Common.{◌≡◌, Bool, not, ◌++◌, Text, codes, is_empty, arith, if◌then◌else◌}
use ais_live_pi.Platform.Wx.{Wx}
use ais_live_pi.Platform.Double.{Double}
use ais_live_pi.Platform.Json.{JsonWriter}
use ais_live_pi.Stream.Output.{State, stopped, connecting, running, error}
use ais_live_pi.Stream.Client.{
  Client, Request, is_streaming, set_token, set_token_enabled, start, stop, restart,
}
use ais_live_pi.Settings.Globals.{has_token}
use ais_live_pi.Gui.State.{Gui, Dialog, Widgets}

-- The label that `OnAisStreamStateChanged` sets.
unfoldable pub state_text : State → Text → Text
state_text stopped detail = codes "Stopped"
state_text connecting detail = codes "Connecting..."
state_text running detail = codes "Running"
state_text error detail =
    if is_empty detail
    then codes "Unknown error"
    else codes "Error" ++ codes " (" ++ detail ++ codes ")"

module _ {D : Type 0} where
  abbrev pub set_dialog : Gui D → Dialog D → Gui D
  set_dialog u b = record u { dialog = b }

  abbrev pub set_widgets : Gui D → Widgets → Gui D
  set_widgets u x = record u { dialog = record (u.dialog) { widgets = x } }

  abbrev pub set_stream : Gui D → Client → Gui D
  set_stream u c = record u { dialog = record (u.dialog) { ais_stream = c } }

  -- `isStreamingData`
  abbrev pub is_streaming_data : Gui D → Bool
  is_streaming_data u = is_streaming (u.dialog.ais_stream)

  -- The arguments that the dialog hands to `Start` and `Restart`.
  unfoldable pub request : Gui D → Request D
  request u = record {
    latitude = u.dialog.search_latitude;
    longitude = u.dialog.search_longitude;
    box_size = u.dialog.search_box_size;
    activate_vessels_following = u.globals.activate_vessels_following;
    mmsi_list = u.globals.mmsi_list;
    snapshot = u.dialog.get_snapshot;
  }

  unfoldable pub stop_ais_stream : Gui D → Gui D
  stop_ais_stream u =
      if not (is_streaming_data u) then u else set_stream u (stop (u.dialog.ais_stream))

  -- `OnAisStreamStateChanged`
  unfoldable pub on_ais_stream_state_changed : State → Text → Gui D → Gui D
  on_ais_stream_state_changed state detail u =
      set_widgets u (record (u.dialog.widgets) { state_label = state_text state detail })

module _ {D : Type 0} ⦃wx : Wx⦄ where
  -- `SetToken` and `SetTokenEnabled` with the settings' token: the token itself is not trimmed.
  unfoldable pub update_token : Gui D → Gui D
  update_token u = set_stream u (
      set_token_enabled (has_token u.globals)
        (set_token (wx.std_string u.globals.open_waters_token) (u.dialog.ais_stream)))

module _ {D : Type 0} (V : Type 0) ⦃d : Double D⦄ ⦃w : JsonWriter D V⦄ where
  unfoldable pub restart_ais_stream : Gui D → Gui D
  restart_ais_stream u =
      if not (is_streaming_data u)
      then u
      else set_stream u (restart V (request u) (u.dialog.ais_stream))

  unfoldable pub start_ais_stream : ⦃wx : Wx⦄ → Gui D → Gui D
  start_ais_stream u =
      if is_streaming_data u
      then u
      else let v = update_token u in set_stream v (start V (request v) (v.dialog.ais_stream))

-- A restart changes the client alone.
module _ {D : Type 0} (V : Type 0) ⦃d : Double D⦄ ⦃w : JsonWriter D V⦄ where
  pub restart-globals : (u : Gui D) → (restart_ais_stream V u).globals ≡ u.globals
  unfolding restart_ais_stream
  restart-globals u = ground arith

  pub restart-widgets : (u : Gui D) → (restart_ais_stream V u).dialog.widgets ≡ u.dialog.widgets
  unfolding restart_ais_stream
  restart-widgets u = ground arith

  pub start-globals : ⦃wx : Wx⦄ (u : Gui D) → (start_ais_stream V u).globals ≡ u.globals
  unfolding start_ais_stream update_token
  start-globals u = ground arith

  pub start-widgets :
      ⦃wx : Wx⦄ (u : Gui D) → (start_ais_stream V u).dialog.widgets ≡ u.dialog.widgets
  unfolding start_ais_stream update_token
  start-widgets u = ground arith

module _ {D : Type 0} where
  pub stop-globals : (u : Gui D) → (stop_ais_stream u).globals ≡ u.globals
  unfolding stop_ais_stream
  stop-globals u = ground arith

  pub stop-widgets : (u : Gui D) → (stop_ais_stream u).dialog.widgets ≡ u.dialog.widgets
  unfolding stop_ais_stream
  stop-widgets u = ground arith
