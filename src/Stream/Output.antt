-- ===== src/Stream/Output.antt =====
-- What the client makes known to others, in order: the calls of its two callbacks and the frames
-- that it sends; and `SetState`.
use ais_live_pi.Common.{ℕ, Bool, Option, List, [], ◌∷◌, Text, if◌then◌else◌}

-- `AisStreamClient::State`
pub data State : Type 0 where
  stopped connecting running error : State

pub data Output : Type 0 where
  -- a call of the state callback, with the state and the detail
  state_changed : State → Text → Output
  -- a call of the sentence callback
  sentence : Text → Output
  -- `run()` begins: the address of the socket and, if one is set, its header `Authorization`
  dialled : Text → Option Text → Output
  -- `m_socket->send(…)`
  sent : List ℕ → Output

-- Which of the two callbacks is set (a `std::function` that is not empty).
pub record Callbacks : Type 0 where
  pub on_sentence : Bool
  pub on_state_changed : Bool

-- `SetState`: the callback is called if it is set.
unfoldable pub set_state : Callbacks → State → Text → List Output
set_state cb state detail = if cb.on_state_changed then state_changed state detail ∷ [] else []
