-- ===== src/Plugin/Quiet.antt =====
-- What the plugin's calls on the dialog do to its window and its stream.
use ais_live_pi.Common.{◌≡◌, refl, Bool, true, false, arith, implies, Bool-cases, inl, inr}
use ais_live_pi.Platform.Wx.{Wx}
use ais_live_pi.Platform.Double.{Double}
use ais_live_pi.Platform.Json.{JsonWriter}
use ais_live_pi.Stream.Client.{set_token, set_token_enabled}
use ais_live_pi.Gui.State.{Gui}
use ais_live_pi.Gui.Streaming.{is_streaming_data, restart_ais_stream, update_token}
use ais_live_pi.Gui.Search.{
  update_boat_position, place_first, follow_boat, update_search_position,
  update_search_zone_on_coord, activate_follow_boat_mode, refresh_token_state,
  update_search_box_size,
}

-- The window of `t` is shown as that of `u`, and `t` streams only if `u` does.
abbrev pub IsQuieter : {D : Type 0} → Gui D → Gui D → Type 0
IsQuieter t u =
    (t.dialog.widgets.shown ≡ u.dialog.widgets.shown)
    × (implies (is_streaming_data t) (is_streaming_data u) ≡ true)

implies_refl : (b : Bool) → implies b b ≡ true
implies_refl true = refl
implies_refl false = refl

module _ {D : Type 0} (V : Type 0) ⦃d : Double D⦄ ⦃w : JsonWriter D V⦄ where
  pub restart-IsQuieter : (u t : Gui D) → IsQuieter u t → IsQuieter (restart_ais_stream V u) t
  unfolding restart_ais_stream
  restart-IsQuieter u t h = elim (Bool-cases (is_streaming_data u)) [
    | inl e ↦ ground (arith, h, e)
    | inr e ↦ rw (e, restart_ais_stream) (ground (arith, h, e))
  ]

  pub position-IsQuieter :
      (lat lon : D) (u t : Gui D) → IsQuieter u t → IsQuieter (update_search_position V lat lon u) t
  unfolding update_search_position
  position-IsQuieter lat lon u t h = restart-IsQuieter _ t h

  first-IsQuieter : (u t : Gui D) → IsQuieter u t → IsQuieter (place_first V u) t
  unfolding place_first
  first-IsQuieter u t h = elim (Bool-cases (u.dialog.initial_boat_position_set)) [
    | inl e ↦ rw (e, place_first) h
    | inr e ↦ rw (e, place_first) (position-IsQuieter _ _ _ t h)
  ]

  follow-IsQuieter : (u t : Gui D) → IsQuieter u t → IsQuieter (follow_boat V u) t
  unfolding follow_boat
  follow-IsQuieter u t h =
      ground (arith, h, position-IsQuieter (u.dialog.boat_latitude) (u.dialog.boat_longitude) u t h)

  pub boat-IsQuieter : (lat lon : D) (u : Gui D) → IsQuieter (update_boat_position V lat lon u) u
  unfolding update_boat_position
  boat-IsQuieter lat lon u =
      follow-IsQuieter _ u (first-IsQuieter _ u (refl, implies_refl (is_streaming_data u)))

  pub coord-IsQuieter :
      (lat lon : D) (u : Gui D) → IsQuieter (update_search_zone_on_coord V lat lon u) u
  unfolding update_search_zone_on_coord
  coord-IsQuieter lat lon u =
      position-IsQuieter lat lon _ u (refl, implies_refl (is_streaming_data u))

  pub activate-IsQuieter : (u : Gui D) → IsQuieter (activate_follow_boat_mode V u) u
  unfolding activate_follow_boat_mode
  activate-IsQuieter u = position-IsQuieter _ _ _ u (refl, implies_refl (is_streaming_data u))

  pub token-IsQuieter : ⦃wx : Wx⦄ → (u : Gui D) → IsQuieter (refresh_token_state V u) u
  unfolding refresh_token_state update_token set_token set_token_enabled update_search_box_size
  token-IsQuieter u = restart-IsQuieter _ u (refl, implies_refl (is_streaming_data u))
