-- ===== src/Tests/Stream.antt =====
-- Examples of the client's properties, on the libraries of Sample.
use ais_live_pi.Common.{
  ℕ, zero, suc, ◌+◌, ◌≤◌, ◌==◌, arith, ◌≡◌, ◌↔◌, refl, Bool, true, false, not, ◌&&◌, ◌||◌, Option,
  none, some, List, [], ◌∷◌, ◌++◌, map, Text, codes, All, length, get_elem?, is_empty, ◌⊎◌,
  if◌then◌else◌, min, ◌^◌, ◌*◌,
}
use ais_live_pi.Stream.Output.{sentence, Callbacks}
use ais_live_pi.Stream.Messages.{handle_message, handled, failed, frame_type}
use ais_live_pi.Stream.Messages.Frames.{
  IsFramedOutput, handle_message-IsFramed, handle_message_iff, handle_message-published, HasType,
  TypeThrows,
}
use ais_live_pi.Stream.Messages.Forward.{Forwards, string_text, strings}
use ais_live_pi.Stream.Session.{
  Event, opened, message, errored, closed, other, Session, Flags, begin, run_session,
}
use ais_live_pi.Stream.Session.Reports.{
  IsTold, session-IsTold, session_close, connection_lost, is_error, any,
}
use ais_live_pi.Stream.Subscribe.{subscribe_value, subscribe_value_members}
use ais_live_pi.Stream.Backoff.{
  initial_backoff_seconds, waits, waits_bounds, waits_anew, all_on, sleep_while_streaming,
  sleep_while_streaming_lem,
}
use ais_live_pi.Stream.Client
use ais_live_pi.Stream.Client.{Request}
use ais_live_pi.Tests.Text.{digit_wx, digit_laws}
use ais_live_pi.Tests.Sample.{
  nat_double, nat_order, Json, event_frame, member, json_reader, json_writer, reader_laws,
  writer_laws,
}

abbrev pub both_set : Callbacks
both_set = record { on_sentence = true; on_state_changed = true }

event_run :
    handle_message Json both_set (1 ∷ [])
    ≡ (sentence (codes "!AIVDM,1" ++ 13 ∷ 10 ∷ []) ∷ [], handled false)
unfolding handle_message ais_live_pi.Stream.Messages.handle_event frame_type
    ais_live_pi.Common.text_eq ais_live_pi.Stream.Messages.process_ais_event
    ais_live_pi.Stream.Messages.process_nmea ais_live_pi.Stream.Messages.send_sentences
    ais_live_pi.Stream.Messages.element_sentence ais_live_pi.Stream.Messages.c_str
event_run = refl

handle_message-IsFramed_example : All IsFramedOutput (handle_message Json both_set (1 ∷ [])).0
handle_message-IsFramed_example = handle_message-IsFramed Json both_set digit_laws (1 ∷ [])

handle_message_iff_example :
    (((handle_message Json both_set (2 ∷ [])).1 ≡ handled true)
      ↔ ((ev : Json) × (json_reader.parse (2 ∷ []) ≡ some ev) × HasType ev (codes "error")))
    × (((handle_message Json both_set (2 ∷ [])).1 ≡ failed)
        ↔ ((ev : Json) × (json_reader.parse (2 ∷ []) ≡ some ev) × TypeThrows ev))
handle_message_iff_example = handle_message_iff Json both_set reader_laws (2 ∷ [])

handle_message-published_example :
    (out : List Text) × (handle_message Json both_set (1 ∷ []) ≡ (map sentence out, handled false))
    × Forwards
        (map string_text (strings (json_reader.elements (member event_frame (codes "nmea")))))
        out
unfolding ais_live_pi.Common.text_eq
handle_message-published_example =
    handle_message-published Json both_set digit_laws reader_laws (1 ∷ []) event_frame refl refl
      (refl, refl) refl refl

-- A session that opens, receives a frame and loses the connection.
abbrev short_session : List (Bool × Event)
short_session = (true, opened) ∷ (true, message (1 ∷ [])) ∷ []

session-IsTold_example : IsTold (run_session Json both_set (9 ∷ []) begin short_session)
session-IsTold_example = session-IsTold Json both_set (9 ∷ []) refl short_session

session_close_example :
    (any is_error
        (run_session Json both_set (9 ∷ []) begin (short_session ++ (true, closed) ∷ [])).outputs
      ≡ true)
    × ((run_session Json both_set (9 ∷ []) begin (short_session ++ (true, closed) ∷ [])).outputs
        ≡ (run_session Json both_set (9 ∷ []) begin short_session).outputs ++ connection_lost)
    × ((run_session Json both_set (9 ∷ []) begin (short_session ++ (false, closed) ∷ [])).outputs
        ≡ (run_session Json both_set (9 ∷ []) begin short_session).outputs)
unfolding run_session ais_live_pi.Stream.Session.on_event handle_message
    ais_live_pi.Stream.Messages.handle_event frame_type ais_live_pi.Common.text_eq
    ais_live_pi.Stream.Messages.process_ais_event ais_live_pi.Stream.Messages.process_nmea
    ais_live_pi.Stream.Messages.send_sentences ais_live_pi.Stream.Messages.element_sentence
    ais_live_pi.Stream.Messages.c_str
session_close_example = session_close Json both_set (9 ∷ []) refl short_session refl

abbrev sample_value : Json
sample_value = subscribe_value {D = ℕ} Json false 11 12 30 true (227_000_001 ∷ []) false

subscribe_value_members_example :
    (nat_double.lt 10 10 ≡ false)
    × (member sample_value (codes "type") ≡ json_writer.string (codes "subscribe"))
    × (member sample_value (codes "bbox")
        ≡ json_writer.array (
            json_writer.array (
              json_writer.number (nat_double.sub 11 (nat_double.div 10 (nat_double.literal 2 0)))
              ∷ json_writer.number (nat_double.sub 12 (nat_double.div 10 (nat_double.literal 2 0)))
              ∷ json_writer.number (nat_double.add 11 (nat_double.div 10 (nat_double.literal 2 0)))
              ∷ json_writer.number (nat_double.add 12 (nat_double.div 10 (nat_double.literal 2 0)))
              ∷ [])
            ∷ []))
    × (member sample_value (codes "snapshot") ≡ json_writer.boolean false)
    × (json_reader.is_member sample_value (codes "mmsi") ≡ some true)
    × (member sample_value (codes "mmsi") ≡ json_writer.array (json_writer.uint 227_000_001 ∷ []))
subscribe_value_members_example =
    subscribe_value_members Json nat_order writer_laws false 11 12 30 true (227_000_001 ∷ []) false

abbrev plain_failure : Flags
plain_failure = record { reached_running = false; server_rejected = false; error_reported = true }

abbrev good_session : Flags
good_session = record { reached_running = true; server_rejected = false; error_reported = true }

waits_bounds_example :
    All
      (λ w. (2 ≤ w) × (w ≤ 30))
      (waits initial_backoff_seconds (plain_failure ∷ good_session ∷ []))
waits_bounds_example = waits_bounds (plain_failure ∷ good_session ∷ [])

waits_anew_example :
    get_elem?
      (waits initial_backoff_seconds
        (plain_failure ∷ plain_failure ∷ good_session ∷ plain_failure ∷ []))
      3
    ≡ some 4
waits_anew_example =
    waits_anew 0 (plain_failure ∷ plain_failure ∷ []) good_session (plain_failure ∷ []) refl
      ((refl, refl), tt) (omega arith)

sleep_while_streaming_lem_example :
    (sleep_while_streaming (λ k. k == 0) 2 ≤ 20)
    × (all_on (λ k. k == 0) (sleep_while_streaming (λ k. k == 0) 2) ≡ true)
    × ((sleep_while_streaming (λ k. k == 0) 2 ≡ 20)
        ⊎ ((sleep_while_streaming (λ k. k == 0) 2 == 0) ≡ false))
sleep_while_streaming_lem_example = sleep_while_streaming_lem (λ k. k == 0) 2

abbrev pub sample_request : Request ℕ
sample_request = record {
  latitude = 48;
  longitude = 5;
  box_size = 1;
  activate_vessels_following = false;
  mmsi_list = [];
  snapshot = false;
}

abbrev token_client : Client.Client
token_client = Client.set_token (codes "t") (Client.set_token_enabled true Client.new_client)

abbrev started_client : Client.Client
started_client = Client.start Json sample_request token_client
