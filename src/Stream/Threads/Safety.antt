-- ===== src/Stream/Threads/Safety.antt =====
-- What every schedule of the two threads keeps.
use ais_live_pi.Common.{
  zero, suc, ◌≡◌, refl, Bool, true, false, not, ◌&&◌, implies, Option, none, some, List, [], ◌∷◌,
  arith, Option-cases, inl, inr,
}
use ais_live_pi.Platform.Wx.{Wx}
use ais_live_pi.Platform.Json.{JsonReader}
use ais_live_pi.Stream.Output.{Callbacks}
use ais_live_pi.Stream.Client.{Launch}
use ais_live_pi.Stream.Session.{Session, begin}
use ais_live_pi.Stream.Threads.{
  Point, loop_test, built, published, running, ran, torn_down, sleeping, leaving, exited,
  terminated, Socket, live, closing, Caller, idle, stopping, joining, System, Choice, proceed,
  callback, hang_up, Action, supervisor, start, stop_flag, stop_close, stop_join, close_socket,
  may_close, report, dial, after_callback, run_step, proceed_from, supervise, begin_start,
  call_stop, step, run,
}

-- `m_socket` holds a socket.
abbrev pub has_socket : Point → Bool
has_socket published = true
has_socket running = true
has_socket ran = true
has_socket terminated = true
has_socket loop_test = false
has_socket built = false
has_socket torn_down = false
has_socket (sleeping n) = false
has_socket leaving = false
has_socket exited = false

abbrev pub is_over : Point → Bool
is_over leaving = true
is_over exited = true
is_over published = false
is_over running = false
is_over ran = false
is_over terminated = false
is_over loop_test = false
is_over built = false
is_over torn_down = false
is_over (sleeping n) = false

abbrev pub is_exited : Point → Bool
is_exited exited = true
is_exited leaving = false
is_exited published = false
is_exited running = false
is_exited ran = false
is_exited terminated = false
is_exited loop_test = false
is_exited built = false
is_exited torn_down = false
is_exited (sleeping n) = false

abbrev pub is_some : Option Socket → Bool
is_some none = false
is_some (some k) = true

abbrev pub is_live : Option Socket → Bool
is_live none = false
is_live (some live) = true
is_live (some (closing n)) = false

abbrev pub is_idle : Caller → Bool
is_idle idle = true
is_idle stopping = false
is_idle joining = false

abbrev pub is_joining : Caller → Bool
is_joining joining = true
is_joining stopping = false
is_joining idle = false

pub record Inv (remembers : Bool) (s : System) : Type 0 where
  -- a socket is published just from the block that checks the flag to the one that tears it down
  pub placed : is_some s.socket ≡ has_socket s.point
  -- in `Stop` the flag is down
  pub unwanted : implies (not (is_idle s.caller)) (not s.streaming) ≡ true
  -- once `Stop` has looked for a socket to close, a library that remembers an early close has none
  -- published that is not closed
  pub closed : implies (remembers && is_joining s.caller) (not (is_live s.socket)) ≡ true
  -- outside `Stop`, with the flag down, the thread has ended
  pub reaped : implies (is_idle s.caller && not s.streaming) (is_exited s.point) ≡ true
  -- the supervisor leaves its loop only when streaming is no longer wanted
  pub kept : implies (is_over s.point) (not s.streaming) ≡ true

after_callback-Inv :
    (remembers : Bool) (s : System) (session : Session)
    → Inv remembers s
    → s.point ≡ running
    → Inv remembers (after_callback s session)
unfolding after_callback
after_callback-Inv remembers s session v e = ground arith

module _ (V : Type 0) ⦃wx : Wx⦄ ⦃j : JsonReader V⦄ (cb : Callbacks) (remembers : Bool) where
  run_step-Inv :
      (c : Choice) (k : Option Socket) (s t : System)
      → s.point ≡ running
      → s.socket ≡ k
      → Inv remembers s
      → run_step V cb c k s ≡ some t
      → Inv remembers t
  unfolding run_step after_callback
  run_step-Inv (callback e) (some live) s t p q v h = ground arith
  run_step-Inv (callback e) (some (closing (suc n))) s t p q v h = ground arith
  run_step-Inv hang_up (some live) s t p q v h = ground arith
  run_step-Inv proceed (some (closing zero)) s t p q v h = ground arith
  run_step-Inv _ _ s t p q v h = cc

  proceed_from-Inv :
      (p : Point) (s t : System)
      → s.point ≡ p
      → Inv remembers s
      → proceed_from V cb p s ≡ some t
      → Inv remembers t
  unfolding proceed_from report dial
  proceed_from-Inv loop_test s t p v h = ground arith
  proceed_from-Inv _ s t p v h = ground arith

  pub supervise-Inv :
      (c : Choice) (p : Point) (s t : System)
      → s.point ≡ p
      → Inv remembers s
      → supervise V cb c p s ≡ some t
      → Inv remembers t
  unfolding supervise
  supervise-Inv c running s t p v h = run_step-Inv c s.socket s t p refl v h
  supervise-Inv proceed p' s t p v h = proceed_from-Inv p' s t p v h
  supervise-Inv _ p' s t p v h = cc

  begin_start-Inv :
      (l : Launch) (p : Point) (c : Caller) (s t : System)
      → s.point ≡ p
      → s.caller ≡ c
      → Inv remembers s
      → begin_start V cb l p c s ≡ some t
      → Inv remembers t
  unfolding begin_start
  begin_start-Inv l exited idle s t p q v h = ground arith
  begin_start-Inv l _ _ s t p q v h = cc

  call_stop-Inv :
      (a : Action) (c : Caller) (s t : System)
      → s.caller ≡ c
      → Inv remembers s
      → call_stop V cb remembers a c s ≡ some t
      → Inv remembers t
  unfolding call_stop close_socket may_close
  call_stop-Inv stop_flag idle s t q v h = ground arith
  call_stop-Inv (stop_close n) stopping s t q v h = ground arith
  call_stop-Inv stop_join joining s t q v h = ground arith
  call_stop-Inv _ _ s t q v h = cc

  step-Inv :
      (a : Action) (s t : System)
      → Inv remembers s
      → step V cb remembers a s ≡ some t
      → Inv remembers t
  unfolding step
  step-Inv (supervisor c) s t v h = supervise-Inv c s.point s t refl v h
  step-Inv (start l) s t v h = begin_start-Inv l s.point s.caller s t refl refl v h
  step-Inv stop_flag s t v h = call_stop-Inv stop_flag s.caller s t refl v h
  step-Inv (stop_close n) s t v h = call_stop-Inv (stop_close n) s.caller s t refl v h
  step-Inv stop_join s t v h = call_stop-Inv stop_join s.caller s t refl v h

-- A client that was just made.
abbrev pub fresh_system : System
fresh_system = record {
  streaming = false;
  socket = none;
  point = exited;
  caller = idle;
  launch = record { subscribe_msg = []; auth_token = [] };
  backoff = 0;
  session = begin;
}

fresh_system-Inv : (remembers : Bool) → Inv remembers fresh_system
fresh_system-Inv remembers = record {
  placed = refl;
  unwanted = refl;
  closed = ground arith;
  reaped = refl;
  kept = refl;
}

module _ (V : Type 0) ⦃wx : Wx⦄ ⦃j : JsonReader V⦄ (cb : Callbacks) (remembers : Bool) where
  pub run-Inv :
      (as' : List Action) (s t : System)
      → Inv remembers s
      → run V cb remembers as' s ≡ some t
      → Inv remembers t
  unfolding run
  run-Inv [] s t v h = ground arith
  run-Inv (a ∷ as') s t v h = elim (Option-cases (step V cb remembers a s)) [
    | inl e ↦ ground arith
    | inr (u, e) ↦ run-Inv as' u t (step-Inv V cb remembers a s u v e) (ground arith)
  ]

  -- After every schedule of the two threads from a new client, also where the library can lose a
  -- close: a socket is published exactly between the block that checks the flag and the one that
  -- tears it down; in `Stop` the flag is down; outside `Stop`, with the flag down, the thread has
  -- ended; the supervisor has not left its loop while streaming is wanted; and where the library
  -- remembers a close that comes early, no socket is published at the join that `Stop` has not
  -- closed.
  pub reachable-Inv :
      (as' : List Action) (t : System)
      → run V cb remembers as' fresh_system ≡ some t
      → Inv remembers t
  reachable-Inv as' t h = run-Inv as' fresh_system t (fresh_system-Inv remembers) h
