-- ===== src/Stream/Messages/Frames.antt =====
-- What `HandleMessage` does with each kind of frame.
use ais_live_pi.Common.{
  ℕ, ◌≡◌, ◌↔◌, ◌≢◌, refl, true, false, none, some, List, [], ◌∷◌, Text, codes, ◌⊎◌, All, arith,
  Option-cases, inl, inr, ap, sym, ◌∙◌, text_eq, text_eq_sound, text_eq_refl, map,
}
use ais_live_pi.Platform.Wx.{Wx, WxLaws}
use ais_live_pi.Platform.Json.{JsonReader, ReaderLaws}
use ais_live_pi.Stream.Output.{
  Output, sentence, sent, dialled, state_changed, State, Callbacks, set_state,
}
use ais_live_pi.Stream.Messages.Forward.{
  IsFramed, published, send_sentences-IsFramed, send_sentences-published, Forwards,
  published-Forwards, string_text, strings,
}
use ais_live_pi.Stream.Messages.{
  Flow, returned, thrown, process_nmea, process_ais_event, frame_type, FrameType, throws, missing,
  is_type, nmea_key, error_type, type_key, error_key, of_flow, Handled, handled, failed,
  report_rejection, deliver, handle_event, handle_message,
}

abbrev pub IsFramedOutput : Output → Type 0
IsFramedOutput (sentence t) = IsFramed t
IsFramedOutput (state_changed s t) = Unit
IsFramedOutput (sent m) = Unit
IsFramedOutput (dialled url header) = Unit

module _ ⦃wx : Wx⦄ where
  map-IsFramed : (ts : List Text) → All IsFramed ts → All IsFramedOutput (map sentence ts)
  map-IsFramed [] h = tt
  map-IsFramed (t ∷ ts) h = (h.0, map-IsFramed ts h.1)

  of_flow-IsFramed : (r : List Text × Flow) → All IsFramed r.0 → All IsFramedOutput (of_flow r).0
  of_flow-IsFramed (out, returned) h = map-IsFramed out h
  of_flow-IsFramed (out, thrown) h = map-IsFramed out h

module _ {V : Type 0} ⦃wx : Wx⦄ ⦃j : JsonReader V⦄ where
  pub process_ais_event-IsFramed : (laws : WxLaws) (ev : V) → All IsFramed (process_ais_event ev).0
  unfolding process_ais_event process_nmea
  process_ais_event-IsFramed laws ev =
      ground (arith, send_sentences-IsFramed laws (j.elements (j.member ev nmea_key)))

  -- The value has a member "type", and its `asString()` gives the text.
  abbrev pub HasType : V → List ℕ → Type 0
  HasType ev t =
      (j.is_member ev (codes "type") ≡ some true)
      × (j.as_string (j.member ev (codes "type")) ≡ some t)

  -- `isMember("type")` throws, or there is a member "type" and its `asString()` throws.
  abbrev pub TypeThrows : V → Type 0
  TypeThrows ev =
      (j.is_member ev (codes "type") ≡ none)
      ⊎ ((j.is_member ev (codes "type") ≡ some true)
          × (j.as_string (j.member ev (codes "type")) ≡ none))

  is_type-HasType : (ev : V) {t : List ℕ} → frame_type ev ≡ is_type t → HasType ev t
  unfolding frame_type
  is_type-HasType ev h = ground arith

  HasType-is_type : (ev : V) {t : List ℕ} → HasType ev t → frame_type ev ≡ is_type t
  unfolding frame_type
  HasType-is_type ev (h, k) = rw (h, frame_type, k)

  throws-TypeThrows : (ev : V) → frame_type ev ≡ throws → TypeThrows ev
  unfolding frame_type
  throws-TypeThrows ev h = elim (Option-cases (j.is_member ev type_key)) [
    | inl e ↦ inl e
    | inr (false, e) ↦ ground arith
    | inr (true, e) ↦ elim (Option-cases (j.as_string (j.member ev type_key))) [
      | inl f ↦ inr (e, f)
      | inr (t, f) ↦ ground arith
    ]
  ]

  TypeThrows-throws : (ev : V) → TypeThrows ev → frame_type ev ≡ throws
  unfolding frame_type
  TypeThrows-throws ev (inl h) = rw (h, frame_type)
  TypeThrows-throws ev (inr (h, k)) = rw (h, frame_type, k)

  frame_type_member : (ev : V) → j.is_member ev type_key ≡ none → frame_type ev ≡ throws
  unfolding frame_type
  frame_type_member ev h = rw (h, frame_type)

  process_nmea_returned :
      ReaderLaws V → (ev : V) → frame_type ev ≢ throws → (process_nmea ev).1 ≡ returned
  unfolding process_nmea
  process_nmea_returned laws ev h = ground (
    arith,
    send_sentences-published laws (j.elements (j.member ev nmea_key)),
    laws.is_member_throws ev nmea_key type_key,
    frame_type_member ev,
  )

  process_ais_event_returned :
      ReaderLaws V → (ev : V) → frame_type ev ≢ throws → (process_ais_event ev).1 ≡ returned
  unfolding process_ais_event
  process_ais_event_returned laws ev h = ground (arith, process_nmea_returned laws ev h)

set_state-IsFramed :
    ⦃wx : Wx⦄ (cb : Callbacks) (s : State) (t : Text) → All IsFramedOutput (set_state cb s t)
unfolding set_state
set_state-IsFramed cb s t = ground arith

of_flow_returned : (r : List Text × Flow) → r.1 ≡ returned → (of_flow r).1 ≡ handled false
of_flow_returned (out, returned) h = refl
of_flow_returned (out, thrown) h = cc

-- What `HandleMessage` returns for a frame of each type.
abbrev result_of : FrameType → Handled
result_of throws = failed
result_of missing = handled false
result_of (is_type t) = handled (text_eq t error_type)

result_of_rejected : (f : FrameType) → result_of f ≡ handled true → f ≡ is_type error_type
result_of_rejected throws h = cc
result_of_rejected missing h = cc
result_of_rejected (is_type t) h = ground (arith, text_eq_sound t error_type)

result_of_failed : (f : FrameType) → result_of f ≡ failed → f ≡ throws
result_of_failed throws h = refl
result_of_failed missing h = cc
result_of_failed (is_type t) h = cc

module _ {V : Type 0} ⦃wx : Wx⦄ ⦃j : JsonReader V⦄ (cb : Callbacks) where
  report_rejection-IsFramed : (ev : V) → All IsFramedOutput (report_rejection cb ev).0
  unfolding report_rejection set_state
  report_rejection-IsFramed ev = ground arith

  deliver-IsFramed : (laws : WxLaws) (ev : V) → All IsFramedOutput (deliver cb ev).0
  unfolding deliver
  deliver-IsFramed laws ev =
      ground (arith, of_flow-IsFramed (process_ais_event ev) (process_ais_event-IsFramed laws ev))

  handle_event-IsFramed : (laws : WxLaws) (ev : V) → All IsFramedOutput (handle_event cb ev).0
  unfolding handle_event
  handle_event-IsFramed laws ev =
      ground (arith, report_rejection-IsFramed ev, deliver-IsFramed laws ev)

  deliver_returned :
      ReaderLaws V → (ev : V) → frame_type ev ≢ throws → (deliver cb ev).1 ≡ handled false
  unfolding deliver
  deliver_returned laws ev h =
      ground (arith, of_flow_returned (process_ais_event ev) (process_ais_event_returned laws ev h))

  report_rejection_returned : ReaderLaws V → (ev : V) → (report_rejection cb ev).1 ≡ handled true
  unfolding report_rejection
  report_rejection_returned laws ev =
      ground (arith, laws.as_string_of_string (j.member ev error_key))

  handle_event_error :
      (ev : V) → frame_type ev ≡ is_type error_type → handle_event cb ev ≡ report_rejection cb ev
  unfolding handle_event
  handle_event_error ev h = rw (h, handle_event, text_eq_refl error_type)

  handle_event_result : ReaderLaws V → (ev : V) → (handle_event cb ev).1 ≡ result_of (frame_type ev)
  unfolding handle_event
  handle_event_result laws ev =
      ground (arith, report_rejection_returned laws ev, deliver_returned laws ev)

module _ (V : Type 0) ⦃wx : Wx⦄ ⦃j : JsonReader V⦄ (cb : Callbacks) where
  -- If the laws of the strings hold, every sentence that a frame makes the client publish, on
  -- every branch and also where an exception ends the call, begins with "!AIVDM" and ends with
  -- a carriage return and a line feed.
  pub handle_message-IsFramed :
      WxLaws → (payload : List ℕ) → All IsFramedOutput (handle_message V cb payload).0
  unfolding handle_message
  handle_message-IsFramed laws payload = elim (Option-cases (j.parse payload)) [
    | inl e ↦ rw (e, handle_message) tt
    | inr (ev, e) ↦ rw (e, handle_message) (handle_event-IsFramed cb laws ev)
  ]

  handle_message_unparsed :
      (payload : List ℕ) → j.parse payload ≡ none → (handle_message V cb payload).1 ≡ handled false
  unfolding handle_message
  handle_message_unparsed payload e = rw (e, handle_message)

  handle_message_parsed :
      ReaderLaws V
      → (payload : List ℕ) (ev : V) → j.parse payload ≡ some ev
      → (handle_message V cb payload).1 ≡ result_of (frame_type ev)
  unfolding handle_message
  handle_message_parsed laws payload ev e = rw (e, handle_message) (handle_event_result cb laws ev)

  -- A result other than `handled false` comes from a frame that parses.
  handle_message_inv :
      ReaderLaws V
      → (payload : List ℕ) → (handle_message V cb payload).1 ≢ handled false
      → (ev : V) × (j.parse payload ≡ some ev)
        × (result_of (frame_type ev) ≡ (handle_message V cb payload).1)
  handle_message_inv laws payload h = elim (Option-cases (j.parse payload)) [
    | inl e ↦ absurd (h (handle_message_unparsed payload e))
    | inr (ev, e) ↦ (ev, e, sym (handle_message_parsed laws payload ev e))
  ]

  -- If jsoncpp keeps its documented laws, `HandleMessage` returns true exactly for a frame that
  -- parses to an object whose "type" is the string "error", and throws exactly for one that parses
  -- to a value at which `isMember("type")` or `asString()` throws.
  pub handle_message_iff :
      ReaderLaws V
      → (payload : List ℕ)
      → (((handle_message V cb payload).1 ≡ handled true)
          ↔ ((ev : V) × (j.parse payload ≡ some ev) × HasType ev (codes "error")))
        × (((handle_message V cb payload).1 ≡ failed)
            ↔ ((ev : V) × (j.parse payload ≡ some ev) × TypeThrows ev))
  handle_message_iff laws payload = (
    (
      λ h.
          let (ev, e, r) = handle_message_inv laws payload (λ k. cc (h, k)) in
          (ev, e, is_type-HasType ev (result_of_rejected _ (r ∙ h))),
      λ t.
          handle_message_parsed laws payload t.0 t.1
          ∙ ap result_of (HasType-is_type t.0 t.2)
          ∙ ap handled (text_eq_refl error_type),
    ),
    (
      λ h.
          let (ev, e, r) = handle_message_inv laws payload (λ k. cc (h, k)) in
          (ev, e, throws-TypeThrows ev (result_of_failed _ (r ∙ h))),
      λ t. handle_message_parsed laws payload t.0 t.1 ∙ ap result_of (TypeThrows-throws t.0 t.2),
    ),
  )

  -- If `asString` does not throw on a string, the laws of the strings hold and the sentence
  -- callback is set, an object of type "event" with an array "nmea" publishes exactly this, in
  -- order: of the strings in the array, those that begin with "!AIVDM", as they are where they end
  -- with a carriage return and a line feed, and with these two added where they do not; and the
  -- call returns false.
  pub handle_message-published :
      WxLaws
      → ReaderLaws V
      → (payload : List ℕ) (ev : V) → cb.on_sentence ≡ true
      → j.parse payload ≡ some ev
      → HasType ev (codes "event")
      → j.is_member ev (codes "nmea") ≡ some true
      → j.is_array (j.member ev (codes "nmea")) ≡ true
      → (out : List Text) × (handle_message V cb payload ≡ (map sentence out, handled false))
        × Forwards (map string_text (strings (j.elements (j.member ev (codes "nmea"))))) out
  unfolding handle_message handle_event deliver process_ais_event process_nmea text_eq
  handle_message-published texts laws payload ev hc hp hk hn ha =
      let ht = HasType-is_type ev hk in
      (
        published (j.elements (j.member ev nmea_key)),
        rw
            (
              hp, handle_message, ht, handle_event, hc, deliver, ht, process_ais_event, hn,
              process_nmea, ha,
            )
            (ap of_flow (send_sentences-published laws (j.elements (j.member ev nmea_key)))),
        published-Forwards texts (map string_text (strings (j.elements (j.member ev nmea_key)))),
      )
