-- ===== src/Plugin/Passes.antt =====
-- What each step of the plugin does to the dialog's stream: it makes calls of its client, and keeps
-- the client subscribed to what the dialog and the settings ask for.
pub mod Walk
pub mod Steps
use ais_live_pi.Common.{
  IfSome, ℕ, ◌≡◌, refl, sym, Bool, true, false, not, Option, none, some, List, Text, Option-cases,
  inl, inr, if-case, option-case, ◌==◌, if◌then◌else◌,
}
use mathlib.Core.Path.{subst}
use ais_live_pi.Platform.Wx.{Wx}
use ais_live_pi.Platform.Double.{Double}
use ais_live_pi.Platform.Json.{JsonWriter}
use ais_live_pi.Platform.Config.{Config}
use ais_live_pi.Stream.Client.Replay.{ByCalls, ByCalls-refl, ByCalls-trans}
use ais_live_pi.Stream.Output.{State}
use ais_live_pi.Settings.Globals.{Globals}
use ais_live_pi.Settings.Preferences.{
  Preferences, PreferencesEvent, edit, press_apply, press_ok, press_cancel, on_init,
  update_settings, show_modal,
}
use ais_live_pi.Gui.State.{Gui, Dialog, Geometry, default_dialog}
use ais_live_pi.Gui.Streaming.{request, stop_ais_stream, on_ais_stream_state_changed}
use ais_live_pi.Gui.Search.{
  update_search_zone_on_coord, activate_follow_boat_mode, refresh_token_state, update_boat_position,
}
use ais_live_pi.Gui.Dialog.{new_gui, delete_gui}
use ais_live_pi.Gui.Events.{GuiEvent, handle}
use ais_live_pi.Gui.Events.Sync.{
  subscribed, IsSynced, stop-IsSynced, handle-IsSynced, update-position-IsSynced,
}
use ais_live_pi.Gui.Events.Opened.{new_gui-IsSynced}
use ais_live_pi.Gui.Walk.{zone-Walks, activate-Walks, refresh-Walks, boat-Walks, handle-Walks}
use ais_live_pi.Gui.Calls.{Calls, Calls-Walks, stop-Calls, new_gui-Calls}

-- From the first state to the second the client goes by calls, and stays in step if it was.
pub record Goes (D V : Type 0) ⦃d : Double D⦄ ⦃w : JsonWriter D V⦄ (u v : Gui D) : Type 0 where
  pub calls : Calls V u v
  pub synced : IsSynced V u → IsSynced V v

module _ {D V : Type 0} ⦃d : Double D⦄ ⦃w : JsonWriter D V⦄ where
  pub Goes-refl : (u : Gui D) → Goes D V u u
  Goes-refl u = record { calls = ByCalls-refl _; synced = λ h. h }

  pub Goes-trans : {t u v : Gui D} → Goes D V t u → Goes D V u v → Goes D V t v
  Goes-trans f g = record {
    calls = ByCalls-trans f.calls g.calls;
    synced = λ h. g.synced (f.synced h);
  }

  -- Where neither the client nor what it is asked for changes.
  pub same-Goes :
      (u v : Gui D)
      → u.dialog.ais_stream ≡ v.dialog.ais_stream
      → request u ≡ request v
      → Goes D V u v
  same-Goes u v e f = record {
    calls = rw e (ByCalls-refl _);
    synced = λ h.
        subst (λ c. c.thread ≡ subscribed V c (request v)) e
          (subst (λ r. u.dialog.ais_stream.thread ≡ subscribed V u.dialog.ais_stream r) f h);
  }

  pub stop-Goes : (u : Gui D) → Goes D V u (stop_ais_stream u)
  stop-Goes u = record { calls = stop-Calls V u; synced = stop-IsSynced V u }

  pub state-Goes :
      (state : State) (detail : Text) (u : Gui D)
      → Goes D V u (on_ais_stream_state_changed state detail u)
  unfolding on_ais_stream_state_changed request
  state-Goes state detail u = same-Goes u _ refl refl

module _ {D V : Type 0} ⦃wx : Wx⦄ ⦃d : Double D⦄ ⦃w : JsonWriter D V⦄ where
  pub boat-Goes : (lat lon : D) (u : Gui D) → Goes D V u (update_boat_position V lat lon u)
  boat-Goes lat lon u = record {
    calls = boat-Walks (Calls-Walks V) lat lon u;
    synced = λ h. (update-position-IsSynced V lat lon u h).0;
  }

  pub zone-Goes : (lat lon : D) (u : Gui D) → Goes D V u (update_search_zone_on_coord V lat lon u)
  zone-Goes lat lon u = record {
    calls = zone-Walks (Calls-Walks V) lat lon u;
    synced = λ h. (update-position-IsSynced V lat lon u h).1;
  }

  pub activate-Goes : (u : Gui D) → Goes D V u (activate_follow_boat_mode V u)
  activate-Goes u = record {
    calls = activate-Walks (Calls-Walks V) u;
    synced = λ h. (update-position-IsSynced V u.dialog.boat_latitude u.dialog.boat_longitude u h).2;
  }

  pub refresh-Goes : (u : Gui D) → Goes D V u (refresh_token_state V u)
  refresh-Goes u = record {
    calls = refresh-Walks (Calls-Walks V) u;
    synced = λ h. (update-position-IsSynced V u.dialog.boat_latitude u.dialog.boat_longitude u h).3;
  }

  pub new_gui-Goes :
      (geometry : Geometry) (g : Globals D)
      → Goes D V (record { globals = g; dialog = default_dialog geometry }) (new_gui V geometry g)
  new_gui-Goes geometry g = record {
    calls = new_gui-Calls V geometry g;
    synced = λ h. new_gui-IsSynced V geometry g;
  }

module _ {D : Type 0} (V : Type 0) ⦃wx : Wx⦄ ⦃d : Double D⦄ ⦃w : JsonWriter D V⦄ where
  both-Goes :
      (u : Gui D) (o : Option (Gui D))
      → IfSome (Calls V u) o
      → (IsSynced V u → IfSome (IsSynced V) o)
      → IfSome (Goes D V u) o
  both-Goes u none h k = tt
  both-Goes u (some v) h k = record { calls = h; synced = k }

  pub handle-Goes : (e : GuiEvent) (u : Gui D) → IfSome (Goes D V u) (handle V e u)
  handle-Goes e u =
      both-Goes u (handle V e u) (handle-Walks (Calls-Walks V) e u) (handle-IsSynced V e u)
