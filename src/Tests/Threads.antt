-- ===== src/Tests/Threads.antt =====
-- Examples of the properties of the two threads, on the libraries of Sample.
use ais_live_pi.Common.{
  false, codes, ◌+◌, ◌≤◌, ◌≡◌, refl, true, none, some, List, [], ◌∷◌, ◌++◌, map, ◌⊎◌,
}
use ais_live_pi.Stream.Client.{Launch}
use ais_live_pi.Stream.Session.{
  Event, opened, message, errored, closed, other, Session, Flags, begin, run_session,
}
use ais_live_pi.Stream.Threads.{
  System, Action, Choice, supervisor, proceed, callback, hang_up, start, stop_flag, stop_close,
  stop_join, dial, run, step, terminated, idle, stopping, joining, published, running, live, Point,
  Caller, Socket,
}
use ais_live_pi.Stream.Threads.Safety.{Inv, fresh_system, reachable-Inv}
use ais_live_pi.Stream.Threads.Progress.{pending, join_bounded, join_returns}
use ais_live_pi.Stream.Threads.Protocol.{Trace, off}
use ais_live_pi.Stream.Threads.Refines.{label_of, phase}
use ais_live_pi.Stream.Threads.Schedules.{run-Trace, stop_join-quiet}
use ais_live_pi.Tests.Text.{digit_wx, digit_laws}
use ais_live_pi.Tests.Sample.{nat_double, Json, json_reader, json_writer}
use ais_live_pi.Tests.Stream.{both_set}

-- What the thread is started with.
abbrev pub nine : Launch
nine = record { subscribe_msg = 9 ∷ []; auth_token = codes "key" }

-- A start, a connection up to its opening, and a `Stop` from another thread.
abbrev stopping_run : List Action
stopping_run =
    start nine
    ∷ supervisor proceed
    ∷ supervisor proceed
    ∷ supervisor proceed
    ∷ supervisor (callback opened)
    ∷ stop_flag
    ∷ stop_close (some 1)
    ∷ []

-- The state after a schedule, and a new client's where the schedule cannot be made.
abbrev pub state_after : List Action → System
state_after as' = elim (run Json both_set true as' fresh_system) [
  | none ↦ fresh_system
  | some s ↦ s
]

-- A `close()` before `run()` that is lost.
abbrev lost_run : List Action
lost_run = start nine ∷ supervisor proceed ∷ supervisor proceed ∷ stop_flag ∷ stop_close none ∷ []

abbrev lost : System
lost = elim (run Json both_set false lost_run fresh_system) [ none ↦ fresh_system | some s ↦ s ]

reachable-Inv_example : Inv false lost
unfolding run step ais_live_pi.Stream.Threads.begin_start ais_live_pi.Stream.Threads.supervise
    ais_live_pi.Stream.Threads.proceed_from ais_live_pi.Stream.Threads.report
    ais_live_pi.Stream.Threads.run_step ais_live_pi.Stream.Threads.call_stop
    ais_live_pi.Stream.Threads.after_callback ais_live_pi.Stream.Threads.may_close dial
    ais_live_pi.Stream.Threads.is_waiting
reachable-Inv_example = reachable-Inv Json both_set false lost_run lost refl

join_bounded_example : 1 ≤ 5 + pending (state_after stopping_run).socket
unfolding run step ais_live_pi.Stream.Threads.begin_start ais_live_pi.Stream.Threads.supervise
    ais_live_pi.Stream.Threads.proceed_from ais_live_pi.Stream.Threads.report
    ais_live_pi.Stream.Threads.run_step ais_live_pi.Stream.Threads.call_stop
    ais_live_pi.Stream.Threads.may_close ais_live_pi.Stream.Threads.after_callback
    ais_live_pi.Stream.Session.on_event ais_live_pi.Stream.Threads.close_socket dial
join_bounded_example =
    join_bounded Json both_set true stopping_run (state_after stopping_run)
      (state_after (stopping_run ++ supervisor (callback closed) ∷ [])) (callback closed ∷ []) refl
      refl refl refl

join_returns_example :
    (cs : List Choice) × (t : System) × (run Json both_set true
        (map supervisor cs)
        (state_after stopping_run)
      ≡ some t)
    × ((t.point ≡ terminated)
        ⊎ (step Json both_set true stop_join t ≡ some (record t { caller = idle })))
unfolding run step ais_live_pi.Stream.Threads.begin_start ais_live_pi.Stream.Threads.supervise
    ais_live_pi.Stream.Threads.proceed_from ais_live_pi.Stream.Threads.report
    ais_live_pi.Stream.Threads.run_step ais_live_pi.Stream.Threads.call_stop
    ais_live_pi.Stream.Threads.after_callback ais_live_pi.Stream.Threads.may_close
    ais_live_pi.Stream.Threads.close_socket dial
join_returns_example =
    join_returns Json both_set true stopping_run (state_after stopping_run) refl refl refl

run-Trace_example :
    Trace both_set off
      (map label_of stopping_run)
      (state_after stopping_run).session.outputs
      (phase (state_after stopping_run))
unfolding run step ais_live_pi.Stream.Threads.begin_start ais_live_pi.Stream.Threads.supervise
    ais_live_pi.Stream.Threads.proceed_from ais_live_pi.Stream.Threads.report
    ais_live_pi.Stream.Threads.run_step ais_live_pi.Stream.Threads.call_stop
    ais_live_pi.Stream.Threads.after_callback ais_live_pi.Stream.Threads.may_close dial
run-Trace_example =
    run-Trace Json both_set digit_laws true stopping_run (state_after stopping_run) refl

-- A `Stop` before the first socket is published, up to the join.
abbrev stopped_run : List Action
stopped_run =
    start nine
    ∷ supervisor proceed
    ∷ stop_flag
    ∷ stop_close (some 0)
    ∷ supervisor proceed
    ∷ supervisor proceed
    ∷ []

abbrev second_stop : List Action
second_stop = stop_flag ∷ stop_close (some 0) ∷ stop_join ∷ []

stop_join-quiet_example :
    (state_after (stopped_run ++ stop_join ∷ second_stop)).session.outputs
    ≡ (state_after (stopped_run ++ stop_join ∷ [])).session.outputs
unfolding step ais_live_pi.Stream.Threads.call_stop ais_live_pi.Stream.Threads.may_close run
    ais_live_pi.Stream.Threads.begin_start ais_live_pi.Stream.Threads.supervise
    ais_live_pi.Stream.Threads.proceed_from ais_live_pi.Stream.Threads.report
stop_join-quiet_example =
    stop_join-quiet Json both_set digit_laws true (state_after stopped_run)
      (state_after (stopped_run ++ stop_join ∷ []))
      (state_after (stopped_run ++ stop_join ∷ second_stop)) second_stop refl (tt, (tt, (tt, tt)))
      refl
