-- ===== src/Stream/Messages.antt =====
-- A frame from the server: `ProcessAisEvent` and `HandleMessage` (ais_stream_client.cpp).
pub mod Forward
pub mod Frames
use ais_live_pi.Common.{
  ℕ, Bool, true, false, not, Option, none, some, List, [], ◌∷◌, ◌++◌, map, Text, codes, text_eq,
  ◌==◌, if◌then◌else◌,
}
use ais_live_pi.Platform.Wx.{Wx}
use ais_live_pi.Platform.Json.{JsonReader}
use ais_live_pi.Stream.Output.{Output, sentence, State, Callbacks, set_state}

abbrev pub type_key : Text
type_key = codes "type"

abbrev pub nmea_key : Text
nmea_key = codes "nmea"

abbrev pub error_key : Text
error_key = codes "error"

abbrev pub event_type : Text
event_type = codes "event"

abbrev pub error_type : Text
error_type = codes "error"

abbrev pub aivdm : Text
aivdm = codes "!AIVDM"

abbrev pub crlf : Text
crlf = 13 ∷ 10 ∷ []

-- The bytes that a C string shows: up to the first NUL.
unfoldable pub c_str : List ℕ → List ℕ
c_str [] = []
c_str (b ∷ bs) = if b == 0 then [] else b ∷ c_str bs

module _ ⦃wx : Wx⦄ where
  -- The body of the loop over the sentences: the text that is published, if one is.
  unfoldable pub nmea_sentence : Text → Option Text
  nmea_sentence nmea =
      if not (wx.starts_with nmea aivdm)
      then none
      else some (if not (wx.ends_with nmea crlf) then nmea ++ crlf else nmea)

-- What a call did that may throw: the texts published, and whether it returned.
pub data Flow : Type 0 where
  returned thrown : Flow

abbrev pub publish : Option Text → List Text × Flow → List Text × Flow
publish none rest = rest
publish (some t) rest = (t ∷ rest.0, rest.1)

module _ {V : Type 0} ⦃wx : Wx⦄ ⦃j : JsonReader V⦄ where
  -- One value of the "nmea" array; `none` where `asString` throws.
  unfoldable pub element_sentence : V → Option (Option Text)
  unfolding nmea_sentence
  element_sentence v = if not (j.is_string v) then some none else elim (j.as_string v) [
    | none ↦ none
    | some s ↦ some (nmea_sentence (wx.from_utf8 (c_str s)))
  ]

  -- The loop over the "nmea" array.
  unfoldable pub send_sentences : List V → List Text × Flow
  send_sentences [] = ([], returned)
  send_sentences (v ∷ vs) =
      let rest = send_sentences vs in
      elim (element_sentence v) [ none ↦ ([], thrown) | some o ↦ publish o rest ]

-- What `isMember("type")` and `ev["type"].asString()` give.
pub data FrameType : Type 0 where
  throws missing : FrameType
  is_type : List ℕ → FrameType

module _ {V : Type 0} ⦃j : JsonReader V⦄ where
  unfoldable pub frame_type : V → FrameType
  frame_type ev = elim (j.is_member ev type_key) [
    | none ↦ throws
    | some false ↦ missing
    | some true ↦ elim (j.as_string (j.member ev type_key)) [ none ↦ throws | some t ↦ is_type t ]
  ]

module _ {V : Type 0} ⦃wx : Wx⦄ ⦃j : JsonReader V⦄ where
  -- `ProcessAisEvent` behind its first guard.
  unfoldable pub process_nmea : V → List Text × Flow
  process_nmea ev = elim (j.is_member ev nmea_key) [
    | none ↦ ([], thrown)
    | some false ↦ ([], returned)
    | some true ↦
        if not (j.is_array (j.member ev nmea_key))
        then ([], returned)
        else send_sentences (j.elements (j.member ev nmea_key))
  ]

  unfoldable pub process_ais_event : V → List Text × Flow
  process_ais_event ev = elim (frame_type ev) [
    | throws ↦ ([], thrown)
    | missing ↦ ([], returned)
    | is_type t ↦ if text_eq t event_type then process_nmea ev else ([], returned)
  ]

-- The result of `HandleMessage`: `handled b` where it returns `b`.
pub data Handled : Type 0 where
  handled : Bool → Handled
  failed : Handled

abbrev pub of_flow : List Text × Flow → List Output × Handled
of_flow (out, returned) = (map sentence out, handled false)
of_flow (out, thrown) = (map sentence out, failed)

module _ {V : Type 0} ⦃wx : Wx⦄ ⦃j : JsonReader V⦄ (cb : Callbacks) where
  -- The branch for a frame of type "error".
  unfoldable pub report_rejection : V → List Output × Handled
  report_rejection ev =
      if j.is_string (j.member ev error_key)
      then elim (j.as_string (j.member ev error_key)) [
        | none ↦ ([], failed)
        | some s ↦ (set_state cb State.error (wx.from_utf8 (c_str s)), handled true)
      ]
      else (set_state cb State.error (codes "server error"), handled true)

  -- The rest of `HandleMessage`, for a frame that is no error.
  unfoldable pub deliver : V → List Output × Handled
  deliver ev = if cb.on_sentence then of_flow (process_ais_event ev) else ([], handled false)

  unfoldable pub handle_event : V → List Output × Handled
  unfolding report_rejection deliver
  handle_event ev = elim (frame_type ev) [
    | throws ↦ ([], failed)
    | missing ↦ deliver ev
    | is_type t ↦ if text_eq t error_type then report_rejection ev else deliver ev
  ]

module _ (V : Type 0) ⦃wx : Wx⦄ ⦃j : JsonReader V⦄ (cb : Callbacks) where
  unfoldable pub handle_message : List ℕ → List Output × Handled
  handle_message payload = elim (j.parse payload) [
    | none ↦ ([], handled false)
    | some ev ↦ handle_event cb ev
  ]
