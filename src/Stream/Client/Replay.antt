-- ===== src/Stream/Client/Replay.antt =====
-- The calls that an owner makes of a client, one after another.
use ais_live_pi.Common.{◌≡◌, refl, ap, ◌∙◌, Bool, List, [], ◌∷◌, ◌++◌, Text}
use ais_live_pi.Platform.Double.{Double}
use ais_live_pi.Platform.Json.{JsonWriter}
use ais_live_pi.Stream.Client
use ais_live_pi.Stream.Client.{Client, Request}

-- The public methods of `AisStreamClient` that change it.
pub data ClientCall (D : Type 0) : Type 0 where
  set_state_callback : ClientCall D
  set_token_enabled : Bool → ClientCall D
  set_token : Text → ClientCall D
  start restart : Request D → ClientCall D
  stop : ClientCall D

module _ {D : Type 0} (V : Type 0) ⦃d : Double D⦄ ⦃w : JsonWriter D V⦄ where
  abbrev pub perform_call : ClientCall D → Client → Client
  perform_call set_state_callback c = Client.set_state_callback c
  perform_call (set_token_enabled enabled) c = Client.set_token_enabled enabled c
  perform_call (set_token token) c = Client.set_token token c
  perform_call (start r) c = Client.start V r c
  perform_call (restart r) c = Client.restart V r c
  perform_call stop c = Client.stop c

  abbrev pub replay : List (ClientCall D) → Client → Client
  replay [] c = c
  replay (x ∷ xs) c = replay xs (perform_call x c)

  pub replay-append :
      (xs ys : List (ClientCall D)) (c : Client) → replay (xs ++ ys) c ≡ replay ys (replay xs c)
  replay-append [] ys c = refl
  replay-append (x ∷ xs) ys c = replay-append xs ys (perform_call x c)

-- The second client is what some calls make of the first.
pub record ByCalls (D V : Type 0) ⦃d : Double D⦄ ⦃w : JsonWriter D V⦄ (b c : Client) : Type 0 where
  pub calls : List (ClientCall D)
  pub replayed : replay V calls b ≡ c

module _ {D V : Type 0} ⦃d : Double D⦄ ⦃w : JsonWriter D V⦄ where
  pub ByCalls-refl : (c : Client) → ByCalls D V c c
  ByCalls-refl c = record { calls = []; replayed = refl }

  pub ByCalls-call : (x : ClientCall D) (c : Client) → ByCalls D V c (perform_call V x c)
  ByCalls-call x c = record { calls = x ∷ []; replayed = refl }

  pub ByCalls-trans : {a b c : Client} → ByCalls D V a b → ByCalls D V b c → ByCalls D V a c
  ByCalls-trans {a} f g = record {
    calls = f.calls ++ g.calls;
    replayed = replay-append V f.calls g.calls a ∙ ap (replay V g.calls) f.replayed ∙ g.replayed;
  }
