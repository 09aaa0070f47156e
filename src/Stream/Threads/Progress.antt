-- ===== src/Stream/Threads/Progress.antt =====
-- The supervisor's steps while `Stop` waits in `join()`.
use ais_live_pi.Common.{
  ℕ, zero, suc, ◌+◌, ◌≤◌, ◌<◌, ◌≡◌, ◌≢◌, refl, ◌∙◌, Bool, true, false, ◌⊎◌, inl, inr, Option, none,
  some, List, [], ◌∷◌, map, length, arith, Option-cases,
}
use ais_live_pi.Platform.Wx.{Wx}
use ais_live_pi.Platform.Json.{JsonReader}
use ais_live_pi.Stream.Output.{Callbacks}
use ais_live_pi.Stream.Session.{other}
use ais_live_pi.Stream.Threads.{
  Point, loop_test, built, published, running, ran, torn_down, sleeping, leaving, exited,
  terminated, Socket, live, closing, idle, joining, System, Choice, proceed, callback, hang_up,
  Action, supervisor, stop_join, report, after_callback, run_step, proceed_from, supervise,
  call_stop, step, run, dial,
}
use ais_live_pi.Stream.Threads.Safety.{Inv, is_live, supervise-Inv, reachable-Inv, fresh_system}

-- The callbacks that a closed socket may still make.
abbrev pub pending : Option Socket → ℕ
pending none = 0
pending (some live) = 0
pending (some (closing n)) = n

-- How many steps the supervisor has left at most, with the flag down.
abbrev pub steps_left : Point → ℕ → ℕ
steps_left loop_test n = 2
steps_left built n = 2
steps_left published n = 5 + n
steps_left running n = 4 + n
steps_left ran n = 3
steps_left torn_down n = 2
steps_left (sleeping k) n = 3
steps_left leaving n = 1
steps_left exited n = 0
steps_left terminated n = 0

abbrev pub left : System → ℕ
left s = steps_left s.point (pending s.socket)

-- `Stop` waits in `join()`.
abbrev pub IsJoining : System → Type 0
IsJoining s = Inv true s × (s.caller ≡ joining)

abbrev pub HasEnded : Point → Type 0
HasEnded p = (p ≡ exited) ⊎ (p ≡ terminated)

some_of_ne_none : (o : Option System) → o ≢ none → (t : System) × (o ≡ some t)
some_of_ne_none none h = absurd (h refl)
some_of_ne_none (some t) h = (t, refl)

module _ (V : Type 0) ⦃wx : Wx⦄ ⦃j : JsonReader V⦄ (cb : Callbacks) (remembers : Bool) where
  run_step-decreases :
      (c : Choice) (k : Option Socket) (s t : System)
      → s.point ≡ running
      → s.socket ≡ k
      → IsJoining s
      → run_step V cb c k s ≡ some t
      → (left t < left s) × (t.caller ≡ joining)
  unfolding run_step after_callback
  run_step-decreases (callback e) (some live) s t p q (v, w) h = ground arith
  run_step-decreases (callback e) (some (closing (suc n))) s t p q (v, w) h = ground arith
  run_step-decreases hang_up (some live) s t p q (v, w) h = ground arith
  run_step-decreases proceed (some (closing zero)) s t p q (v, w) h = ground arith
  run_step-decreases _ _ s t p q (v, w) h = cc

  proceed_from-decreases :
      (p : Point) (s t : System)
      → s.point ≡ p
      → IsJoining s
      → proceed_from V cb p s ≡ some t
      → (left t < left s) × (t.caller ≡ joining)
  unfolding proceed_from report dial
  proceed_from-decreases loop_test s t p (v, w) h = ground arith
  proceed_from-decreases _ s t p (v, w) h = ground arith

  supervise-decreases :
      (c : Choice) (p : Point) (s t : System)
      → s.point ≡ p
      → IsJoining s
      → supervise V cb c p s ≡ some t
      → (left t < left s) × (t.caller ≡ joining)
  unfolding supervise
  supervise-decreases c running s t p v h = run_step-decreases c s.socket s t p refl v h
  supervise-decreases proceed p' s t p v h = proceed_from-decreases p' s t p v h
  supervise-decreases _ p' s t p v h = cc

  step-decreases :
      (c : Choice) (s t : System)
      → IsJoining s
      → step V cb remembers (supervisor c) s ≡ some t
      → (left t < left s) × IsJoining t
  unfolding step
  step-decreases c s t (v, w) h =
      let (less, still) = supervise-decreases c s.point s t refl (v, w) h in
      (less, (supervise-Inv V cb true c s.point s t refl v h, still))

  -- A choice that the library and the clock have at each point.
  abbrev some_choice : Point → Option Socket → Choice
  some_choice running (some live) = hang_up
  some_choice running (some (closing (suc n))) = callback other
  some_choice _ _ = proceed

  run_step-moves :
      (k : Option Socket) (s : System)
      → s.point ≡ running
      → s.socket ≡ k
      → Inv true s
      → run_step V cb (some_choice running k) k s ≢ none
  unfolding run_step
  run_step-moves none s e f v h = ground arith
  run_step-moves (some live) s e f v h = cc
  run_step-moves (some (closing zero)) s e f v h = cc
  run_step-moves (some (closing (suc n))) s e f v h = cc

  proceed_from-moves :
      (p : Point) (s : System)
      → p ≢ running
      → p ≢ exited
      → p ≢ terminated
      → proceed_from V cb p s ≢ none
  unfolding proceed_from
  proceed_from-moves loop_test s a b c h = ground arith
  proceed_from-moves _ s a b c h = ground arith

  supervise-moves :
      (p : Point) (s : System)
      → s.point ≡ p
      → Inv true s
      → (HasEnded p) ⊎ (supervise V cb (some_choice p s.socket) p s ≢ none)
  unfolding supervise
  supervise-moves exited s e v = inl (inl refl)
  supervise-moves terminated s e v = inl (inr refl)
  supervise-moves running s e v = inr (run_step-moves s.socket s e refl v)
  supervise-moves loop_test s e v =
      inr (proceed_from-moves loop_test s (λ h. cc) (λ h. cc) (λ h. cc))
  supervise-moves p s e v = inr (proceed_from-moves p s (λ h. cc) (λ h. cc) (λ h. cc))

  -- A supervisor that has not ended can step.
  step-moves :
      (s : System)
      → Inv true s
      → HasEnded s.point
        ⊎ ((c : Choice) × (t : System) × (step V cb remembers (supervisor c) s ≡ some t))
  unfolding step
  step-moves s v = elim (supervise-moves s.point s refl v) [
    | inl ended ↦ inl ended
    | inr moves ↦ let (t, e) = some_of_ne_none _ moves in inr (some_choice s.point s.socket, t, e)
  ]

  run-decreases :
      (cs : List Choice) (s t : System)
      → IsJoining s
      → run V cb remembers (map supervisor cs) s ≡ some t
      → length cs ≤ left s
  unfolding run
  run-decreases [] s t v h = omega arith
  run-decreases (c ∷ cs) s t v h = elim (Option-cases (step V cb remembers (supervisor c) s)) [
    | inl e ↦ ground arith
    | inr (u, e) ↦
        let (less, still) = step-decreases c s u v e in
        let rest = run-decreases cs u t still (ground arith) in omega arith
  ]

  left-le : (p : Point) (n : ℕ) → steps_left p n ≤ 5 + n
  left-le loop_test n = omega arith
  left-le _ n = omega arith

  join_leaves :
      (p : Point) (t : System)
      → t.point ≡ p
      → t.caller ≡ joining
      → HasEnded p
      → (t.point ≡ terminated)
        ⊎ (step V cb remembers stop_join t ≡ some (record t { caller = idle }))
  unfolding step call_stop
  join_leaves p t e w (inl h) = inr (ground arith)
  join_leaves p t e w (inr h) = inl (e ∙ h)

  run-cons :
      (c : Choice) (cs : List Choice) (s u t : System)
      → step V cb remembers (supervisor c) s ≡ some u
      → run V cb remembers (map supervisor cs) u ≡ some t
      → run V cb remembers (map supervisor (c ∷ cs)) s ≡ some t
  unfolding run
  run-cons c cs s u t e h = rw (e, run) h

  run_to_end :
      (n : ℕ) (s : System)
      → left s ≤ n
      → IsJoining s
      → (cs : List Choice) × (t : System) × (run V cb remembers (map supervisor cs) s ≡ some t)
        × ((t.point ≡ terminated)
            ⊎ (step V cb remembers stop_join t ≡ some (record t { caller = idle })))
  unfolding run
  run_to_end zero s le v = elim (step-moves s v.0) [
    | inl ended ↦ ([], s, refl, join_leaves s.point s refl v.1 ended)
    | inr (c, t, e) ↦ let (less, still) = step-decreases c s t v e in absurd (omega arith)
  ]
  run_to_end (suc n) s le v = elim (step-moves s v.0) [
    | inl ended ↦ ([], s, refl, join_leaves s.point s refl v.1 ended)
    | inr (c, u, e) ↦
        let (less, still) = step-decreases c s u v e in
        let (cs, t, h, ends) = run_to_end n u (omega arith) still in
        (c ∷ cs, t, run-cons c cs s u t e h, ends)
  ]

  -- A state in which `Stop` waits and its `close()` was not lost.
  reached-IsJoining :
      (before : List Action) (s : System)
      → run V cb remembers before fresh_system ≡ some s
      → s.caller ≡ joining
      → is_live s.socket ≡ false
      → IsJoining s
  reached-IsJoining before s reached waits shut =
      let v = reachable-Inv V cb remembers before s reached in
      (
        record {
          placed = v.placed;
          unwanted = v.unwanted;
          closed = rw (waits, shut) refl;
          reaped = v.reaped;
          kept = v.kept;
        },
        waits,
      )

  -- Whatever the library does with an early close: from any state, after any schedule from a new
  -- client, in which `Stop` waits in `join()` and no socket is published that it has not closed,
  -- the supervisor makes at most 5 steps more than the callbacks that the library still makes on
  -- the closed socket.
  pub join_bounded :
      (before : List Action) (s t : System) (cs : List Choice)
      → run V cb remembers before fresh_system ≡ some s
      → s.caller ≡ joining
      → is_live s.socket ≡ false
      → run V cb remembers (map supervisor cs) s ≡ some t
      → length cs ≤ 5 + pending s.socket
  join_bounded before s t cs reached waits shut steps =
      let joins = reached-IsJoining before s reached waits shut in
      omega (arith, run-decreases cs s t joins steps, left-le s.point (pending s.socket))

  -- Whatever the library does with an early close: from any state, after any schedule from a new
  -- client, in which `Stop` waits in `join()` and no socket is published that it has not closed,
  -- the supervisor has steps to make after which its thread function has returned and `join()` can
  -- be left, or an exception has ended the process.
  pub join_returns :
      (before : List Action) (s : System)
      → run V cb remembers before fresh_system ≡ some s
      → s.caller ≡ joining
      → is_live s.socket ≡ false
      → (cs : List Choice) × (t : System) × (run V cb remembers (map supervisor cs) s ≡ some t)
        × ((t.point ≡ terminated)
            ⊎ (step V cb remembers stop_join t ≡ some (record t { caller = idle })))
  join_returns before s reached waits shut =
      run_to_end (left s) s (omega arith) (reached-IsJoining before s reached waits shut)
