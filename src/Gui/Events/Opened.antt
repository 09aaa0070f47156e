-- ===== src/Gui/Events/Opened.antt =====
-- A new dialog, where the events of the dialog begin.
use ais_live_pi.Common.{ℕ, suc, ◌≡◌, refl, ap, List, [], ◌∷◌, Text, length, All, arith}
use ais_live_pi.Platform.Wx.{Wx}
use ais_live_pi.Platform.Double.{Double}
use ais_live_pi.Platform.Json.{JsonWriter}
use ais_live_pi.Stream.Client.{new_client, set_state_callback}
use ais_live_pi.Settings.Globals.{Globals}
use ais_live_pi.Gui.State.{Geometry, default_dialog, base_widgets}
use ais_live_pi.Gui.Streaming.{restart_ais_stream, request}
use ais_live_pi.Gui.Search.{update_search_box_size}
use ais_live_pi.Gui.Dialog.{rows_from, fill_widgets, register_callback, new_gui}
use ais_live_pi.Gui.Vessels.Lists.{IsDistinct, InRange}
use ais_live_pi.Gui.Vessels.Invariant.{IsConsistent}
use ais_live_pi.Gui.Events.Sync.{IsSynced}

module _ ⦃wx : Wx⦄ where
  length-rows_from :
      (i : ℕ) (ms : List ℕ) (names : List Text) → length (rows_from i ms names) ≡ length ms
  unfolding rows_from
  length-rows_from i [] names = refl
  length-rows_from i (m ∷ ms) names = ap suc (length-rows_from (suc i) ms names)

module _ {D : Type 0} (V : Type 0) ⦃wx : Wx⦄ ⦃d : Double D⦄ ⦃w : JsonWriter D V⦄ where
  pub new_gui-IsSynced : (geometry : Geometry) (g : Globals D) → IsSynced V (new_gui V geometry g)
  unfolding new_gui register_callback fill_widgets update_search_box_size restart_ais_stream
      default_dialog new_client set_state_callback request
  new_gui-IsSynced geometry g = refl

  -- If the settings hold nine-digit, pairwise distinct numbers with as many names, a new dialog has
  -- as many rows as numbers and a number of nine digits in its spin control; it streams nothing,
  -- so that its stream is subscribed to what it should be.
  new_gui-IsConsistent :
      (geometry : Geometry) (g : Globals D)
      → length g.mmsi_list_names ≡ length g.mmsi_list
      → All InRange g.mmsi_list
      → IsDistinct g.mmsi_list
      → IsConsistent (new_gui V geometry g) × IsSynced V (new_gui V geometry g)
  unfolding new_gui register_callback fill_widgets update_search_box_size restart_ais_stream
      default_dialog base_widgets new_client set_state_callback request
  new_gui-IsConsistent geometry g h r u = (
    (h, length-rows_from 0 g.mmsi_list g.mmsi_list_names, r, u, (omega arith, omega arith)),
    new_gui-IsSynced geometry g,
  )
