-- ===== src/Stream/Threads/Calls.antt =====
-- What a step of the supervisor and a call of `Stop` leave (ais_stream_client.cpp).
use ais_live_pi.Common.{
  ℕ, zero, suc, ◌≡◌, refl, ◌∙◌, Bool, true, false, not, ◌&&◌, implies, Option, some, List, [], ◌∷◌,
  ◌++◌, map, arith, Option-cases, inl, inr,
}
use ais_live_pi.Platform.Wx.{Wx}
use ais_live_pi.Platform.Json.{JsonReader}
use ais_live_pi.Stream.Output.{Callbacks}
use ais_live_pi.Stream.Threads.{
  Point, loop_test, running, exited, Socket, live, closing, Caller, idle, stopping, joining, System,
  Choice, proceed, callback, hang_up, Action, supervisor, stop_flag, stop_close, stop_join, report,
  dial, after_callback, run_step, proceed_from, supervise, call_stop, step, run,
}
use ais_live_pi.Stream.Threads.Safety.{is_over, is_exited}

-- What a step of the supervisor leaves as it is; a thread that is wanted and in its loop stays there,
-- and a thread that has ended makes no step.
pub record Keeps (s t : System) : Type 0 where
  pub caller : t.caller ≡ s.caller
  pub streaming : t.streaming ≡ s.streaming
  pub launch : t.launch ≡ s.launch
  pub looping : implies (s.streaming && not (is_over s.point)) (not (is_over t.point)) ≡ true
  pub alive : is_exited s.point ≡ false

module _ (V : Type 0) ⦃wx : Wx⦄ ⦃j : JsonReader V⦄ (cb : Callbacks) where
  run_step-Keeps :
      (c : Choice) (k : Option Socket) (s t : System)
      → s.point ≡ running
      → run_step V cb c k s ≡ some t
      → Keeps s t
  unfolding run_step after_callback
  run_step-Keeps (callback e) (some live) s t p h = ground arith
  run_step-Keeps (callback e) (some (closing (suc n))) s t p h = ground arith
  run_step-Keeps hang_up (some live) s t p h = ground arith
  run_step-Keeps proceed (some (closing zero)) s t p h = ground arith
  run_step-Keeps _ _ s t p h = cc

  proceed_from-Keeps :
      (p : Point) (s t : System) → s.point ≡ p → proceed_from V cb p s ≡ some t → Keeps s t
  unfolding proceed_from report dial
  proceed_from-Keeps loop_test s t p h = ground arith
  proceed_from-Keeps _ s t p h = ground arith

  pub supervise-Keeps :
      (c : Choice) (p : Point) (s t : System)
      → s.point ≡ p
      → supervise V cb c p s ≡ some t
      → Keeps s t
  unfolding supervise
  supervise-Keeps c running s t p h = run_step-Keeps c s.socket s t p h
  supervise-Keeps proceed p' s t p h = proceed_from-Keeps p' s t p h
  supervise-Keeps _ p' s t p h = cc

-- The steps of a `Stop`, with the supervisor's before and behind the block that closes the socket.
abbrev pub stop_schedule : List Choice → Option ℕ → List Choice → List Action
stop_schedule before n after =
    stop_flag
    ∷ (map supervisor before ++ (stop_close n ∷ (map supervisor after ++ (stop_join ∷ []))))

-- There is no thread, and no call under way.
abbrev pub IsReaped : System → Type 0
IsReaped s = (s.caller ≡ idle) × (s.streaming ≡ false) × (s.point ≡ exited)

module _ (V : Type 0) ⦃wx : Wx⦄ ⦃j : JsonReader V⦄ (cb : Callbacks) (remembers : Bool) where
  run-cons :
      (a : Action) (as' : List Action) (s t : System)
      → run V cb remembers (a ∷ as') s ≡ some t
      → (u : System) × (step V cb remembers a s ≡ some u) × (run V cb remembers as' u ≡ some t)
  unfolding run
  run-cons a as' s t h = elim (Option-cases (step V cb remembers a s)) [
    | inl e ↦ ground arith
    | inr (u, e) ↦ (u, e, rw (run, e) at h)
  ]

  supervised-run :
      (cs : List Choice) (as' : List Action) (s t : System)
      → run V cb remembers (map supervisor cs ++ as') s ≡ some t
      → (u : System) × (u.caller ≡ s.caller)
        × (u.streaming ≡ s.streaming)
        × (run V cb remembers as' u ≡ some t)
  unfolding step
  supervised-run [] as' s t h = (s, refl, refl, h)
  supervised-run (c ∷ cs) as' s t h =
      let (u, e, rest) = run-cons (supervisor c) (map supervisor cs ++ as') s t h in
      let k = supervise-Keeps V cb c s.point s u refl e in
      let (v, same_caller, same_flag, later) = supervised-run cs as' u t rest in
      (v, same_caller ∙ k.caller, same_flag ∙ k.streaming, later)

  stop_flag_lem :
      (c : Caller) (s t : System)
      → call_stop V cb remembers stop_flag c s ≡ some t
      → t.streaming ≡ false
  unfolding call_stop
  stop_flag_lem idle s t h = ground arith
  stop_flag_lem _ s t h = cc

  stop_close_lem :
      (n : Option ℕ) (c : Caller) (s t : System)
      → call_stop V cb remembers (stop_close n) c s ≡ some t
      → t.streaming ≡ s.streaming
  unfolding call_stop
  stop_close_lem n stopping s t h = ground arith
  stop_close_lem n _ s t h = cc

  stop_join_lem :
      (c : Caller) (s t : System)
      → call_stop V cb remembers stop_join c s ≡ some t
      → (t.caller ≡ idle) × (t.point ≡ exited) × (t.streaming ≡ s.streaming)
  unfolding call_stop
  stop_join_lem joining s t h = ground arith
  stop_join_lem _ s t h = cc

  pub run-stop_schedule :
      (before : List Choice) (n : Option ℕ) (after : List Choice) (s t : System)
      → run V cb remembers (stop_schedule before n after) s ≡ some t
      → IsReaped t
  unfolding step run
  run-stop_schedule before n after s t h =
      let (u, e, h1) = run-cons stop_flag _ s t h in
      let (v, _, flag_kept, h2) =
        supervised-run before (stop_close n ∷ (map supervisor after ++ (stop_join ∷ []))) u t h1 in
      let (x, close, h3) = run-cons (stop_close n) _ v t h2 in
      let (y, _, flag_still, h4) = supervised-run after (stop_join ∷ []) x t h3 in
      let (z, join, h5) = run-cons stop_join [] y t h4 in
      let down = stop_flag_lem s.caller s u e in
      let kept = stop_close_lem n v.caller v x close in
      let joined = stop_join_lem y.caller y z join in ground arith

  -- A call of `Stop` up to its return.
  pub data Stops : System → System → Type 0 where
    is_stopped :
        (before : List Choice) (n : Option ℕ) (after : List Choice) (s t : System)
        → run V cb remembers (stop_schedule before n after) s ≡ some t
        → Stops s t

  pub Stops-IsReaped : (s t : System) → Stops s t → IsReaped t
  Stops-IsReaped s t (is_stopped before n after _ _ h) = run-stop_schedule before n after s t h
