-- ===== src/Tests/Owner.antt =====
-- An owner's calls beside the threads, on the libraries of Sample: a start, a connection and a
-- restart before the socket is built.
use ais_live_pi.Common.{some, ℕ, refl, true, List, [], ◌∷◌, ◌++◌}
use ais_live_pi.Stream.Client
use ais_live_pi.Stream.Client.{Client, new_client, launch_for, restart}
use ais_live_pi.Stream.Threads.{
  Action, supervisor, proceed, stop_flag, stop_close, stop_join, run, step,
}
use ais_live_pi.Stream.Threads.Safety.{fresh_system}
use ais_live_pi.Stream.Threads.Calls.{is_stopped}
use ais_live_pi.Stream.Threads.Owner.{
  Agrees, is_launched, Together, created, supervised, started, restarted, Together-Agrees,
}
use ais_live_pi.Tests.Sample.{nat_double, Json, json_reader, json_writer}
use ais_live_pi.Tests.Text.{digit_wx}
use ais_live_pi.Tests.Stream.{both_set, sample_request}
use ais_live_pi.Tests.Threads.{state_after}

abbrev first_client : Client
first_client = Client.start Json sample_request new_client

abbrev first_start : List Action
first_start = Action.start (launch_for Json new_client sample_request) ∷ []

abbrev connecting : List Action
connecting = first_start ++ supervisor proceed ∷ []

abbrev stopped : List Action
stopped =
    connecting
    ++ stop_flag ∷ stop_close (some 0) ∷ supervisor proceed ∷ supervisor proceed ∷ stop_join ∷ []

abbrev second_start : List Action
second_start =
    stopped ++ Action.start (launch_for Json (Client.stop first_client) sample_request) ∷ []

restarted_together :
    Together ℕ Json both_set true
      (restart Json sample_request first_client)
      (state_after second_start)
unfolding run step Client.start Client.stop new_client ais_live_pi.Stream.Threads.begin_start
    ais_live_pi.Stream.Threads.supervise ais_live_pi.Stream.Threads.proceed_from
    ais_live_pi.Stream.Threads.report ais_live_pi.Stream.Threads.call_stop
    ais_live_pi.Stream.Threads.may_close
restarted_together =
    restarted sample_request first_client (state_after connecting) (state_after stopped)
      (state_after second_start)
      (supervised proceed first_client (state_after first_start) (state_after connecting)
        (started sample_request new_client fresh_system (state_after first_start) created (
          is_launched sample_request new_client fresh_system (state_after first_start) refl refl
            refl))
        refl)
      refl
      (is_stopped [] (some 0) (proceed ∷ proceed ∷ []) (state_after connecting)
        (state_after stopped) refl)
      (is_launched sample_request (Client.stop first_client) (state_after stopped)
        (state_after second_start) refl refl refl)

Together-Agrees_example :
    Agrees (restart Json sample_request first_client) (state_after second_start)
Together-Agrees_example =
    Together-Agrees ℕ Json both_set true (restart Json sample_request first_client)
      (state_after second_start) restarted_together
