-- ===== src/Stream/Threads/Protocol.antt =====
-- What a client promises to its owner and to the server, as a machine of its own: the phases of a
-- stream, and the outputs that go with each change.
use ais_live_pi.Common.{◌≡◌, Option, none, some, List, [], ◌∷◌, ◌++◌, All, Text, codes}
use ais_live_pi.Stream.Output.{
  Output, state_changed, sentence, sent, dialled, connecting, running, stopped, error, Callbacks,
  set_state,
}
use ais_live_pi.Stream.Client.{Launch}
use ais_live_pi.Stream.Messages.Forward.{IsFramed}

-- The calls of the owner that the machine sees, and everything else.
pub data Label : Type 0 where
  start_called : Launch → Label
  stop_returned internal : Label

-- No thread; a thread between two sessions, one that is about to connect, and one in a session, with
-- what it was started with; and the process ended by an exception.
pub data Phase : Type 0 where
  off ended : Phase
  waiting dialling in_session : Launch → Phase

-- A report of a session: a sentence that is whole, or an error.
abbrev pub IsReport : Output → Type 0
IsReport (sentence t) = IsFramed t
IsReport (state_changed error t) = Unit
IsReport (state_changed _ t) = ⊥
IsReport (sent m) = ⊥
IsReport (dialled url header) = ⊥

-- A session without a token is dialled without the header, one with a token with "Bearer " and
-- the token in it.
abbrev pub IsHeader : Text → Option Text → Type 0
IsHeader [] header = header ≡ none
IsHeader (c ∷ token) header = header ≡ some (codes "Bearer " ++ c ∷ token)

-- A step with the outputs that it makes.
pub data Allowed (cb : Callbacks) : Phase → Label → List Output → Phase → Type 0 where
  begins : (m : Launch) → Allowed cb off (start_called m) [] (waiting m)
  connects :
      (m : Launch) → Allowed cb (waiting m) internal (set_state cb connecting []) (dialling m)
  -- the address is that of the service, and the token goes into the header alone
  dials :
      (m : Launch) (header : Option Text)
      → IsHeader m.auth_token header
      → Allowed cb
          (dialling m)
          internal
          (dialled (codes "wss://ais.openwaters.io/v1/stream") header ∷ [])
          (in_session m)
  gives_up : (m : Launch) → Allowed cb (dialling m) internal [] (waiting m)
  -- the subscription goes out just before `Running` is reported
  subscribes :
      (m : Launch)
      → Allowed cb
          (in_session m)
          internal
          (sent m.subscribe_msg ∷ set_state cb running [])
          (in_session m)
  reports :
      (m : Launch) (out : List Output)
      → All IsReport out
      → Allowed cb (in_session m) internal out (in_session m)
  breaks :
      (m : Launch) (out : List Output)
      → All IsReport out
      → Allowed cb (in_session m) internal out ended
  finishes : (m : Launch) → Allowed cb (in_session m) internal [] (waiting m)
  -- `Stopped` is the last report of a thread
  stops : (m : Launch) → Allowed cb (waiting m) internal (set_state cb stopped []) off
  idles : (p : Phase) → Allowed cb p internal [] p
  -- `Stop` returns only when there is no thread
  returns : Allowed cb off stop_returned [] off

-- Steps in a row.
pub data Trace (cb : Callbacks) : Phase → List Label → List Output → Phase → Type 0 where
  done : (p : Phase) → Trace cb p [] [] p
  more :
      {p q r : Phase} {l : Label} {ls : List Label} {out rest : List Output}
      → Allowed cb p l out q
      → Trace cb q ls rest r
      → Trace cb p (l ∷ ls) (out ++ rest) r
