-- ===== src/Stream/Threads/Schedules.antt =====
-- Every schedule of the two threads against the machine of Protocol, from the single steps of
-- Refines; and what that says of the time after a `Stop`.
use ais_live_pi.Common.{
  ◌≡◌, refl, sym, ap, ◌∙◌, Bool, some, List, [], ◌∷◌, ◌++◌, map, All, arith, Option-cases, inl, inr,
}
use mathlib.Core.Path.{subst}
use mathlib.Core.Option.{some-injective}
use mathlib.Core.List.{append-nil, append_assoc}
use ais_live_pi.Platform.Wx.{Wx, WxLaws}
use ais_live_pi.Platform.Json.{JsonReader}
use ais_live_pi.Stream.Output.{Output, Callbacks}
use ais_live_pi.Stream.Threads.{System, Action, stop_join, step, run}
use ais_live_pi.Stream.Threads.Safety.{fresh_system}
use ais_live_pi.Stream.Threads.Protocol.{
  Label, start_called, stop_returned, internal, Phase, off, Allowed, begins, idles, returns, Trace,
  done, more,
}
use ais_live_pi.Stream.Threads.Refines.{label_of, phase, step-Simulates}

-- Not a call of `Start`.
abbrev pub IsNotStart : Label → Type 0
IsNotStart (start_called m) = ⊥
IsNotStart stop_returned = Unit
IsNotStart internal = Unit

-- Without a thread, and without a `Start`, nothing happens.
off-quiet :
    (cb : Callbacks) {l : Label} {out : List Output} {q : Phase}
    → Allowed cb off l out q
    → IsNotStart l
    → (out ≡ []) × (q ≡ off)
off-quiet cb (begins m) h = elim h [ ]
off-quiet cb (idles off) h = (refl, refl)
off-quiet cb returns h = (refl, refl)

-- A `Stop` returns to no thread.
returned-off :
    (cb : Callbacks) {p q : Phase} {out : List Output} → Allowed cb p stop_returned out q → q ≡ off
returned-off cb returns = refl

Trace-quiet :
    (cb : Callbacks) {p q : Phase} {ls : List Label} {out : List Output}
    → p ≡ off
    → Trace cb p ls out q
    → All IsNotStart ls
    → out ≡ []
Trace-quiet cb e (done p) h = refl
Trace-quiet cb e (more {p} {q} {r} {l} {ls} {out} {rest} a rs) h =
    let still = off-quiet cb (subst (λ x. Allowed cb x l out q) e a) (h.0) in
    rw (still.0) (Trace-quiet cb (still.1) rs (h.1))

module _ (V : Type 0) ⦃wx : Wx⦄ ⦃j : JsonReader V⦄ (cb : Callbacks) (laws : WxLaws)
    (remembers : Bool) where
  run-Trace_from :
      (as' : List Action) (s t : System)
      → run V cb remembers as' s ≡ some t
      → (out : List Output) × Trace cb (phase s) (map label_of as') out (phase t)
        × (t.session.outputs ≡ s.session.outputs ++ out)
  unfolding run
  run-Trace_from [] s t h =
      subst
        (λ x.
          (out : List Output) × Trace cb (phase s) [] out (phase x)
          × (x.session.outputs ≡ s.session.outputs ++ out))
        (some-injective s t h) ([], done (phase s), sym (append-nil _))
  run-Trace_from (a ∷ as') s t h = elim (Option-cases (step V cb remembers a s)) [
    | inl e ↦ ground arith
    | inr (u, e) ↦
        let first = rw e at (step-Simulates V cb laws remembers a s) in
        let rest = run-Trace_from as' u t (rw (run, e) at h) in
        (
          first.0 ++ rest.0,
          more (first.1) (rest.1),
          rest.2
              ∙ ap (λ x. x ++ rest.0) (first.2)
              ∙ append_assoc (s.session.outputs) (first.0) (rest.0),
        )
  ]

  -- Every schedule of the two threads from a new client is a run of the machine in Protocol, with
  -- exactly the outputs of the schedule: a thread begins with `Start`, and then each session first
  -- reports `Connecting`; then the service's address is dialled once, or the session given up;
  -- the token that this `Start` was given, if it is not empty, goes with the dialling in the
  -- header, behind "Bearer ", and with an empty one there is no header; inside a session the
  -- subscription that this `Start` was given goes out just before `Running` is reported, and else
  -- only whole sentences and errors come out; between sessions nothing does; the thread ends with the report `Stopped`, unless an exception ends
  -- the process; and `Stop` returns only when there is no thread. This holds whether or not the
  -- library remembers a `close()` that comes early. The states are reported where the state
  -- callback is set.
  pub run-Trace :
      (as' : List Action) (t : System)
      → run V cb remembers as' fresh_system ≡ some t
      → Trace cb off (map label_of as') (t.session.outputs) (phase t)
  run-Trace as' t h = let r = run-Trace_from as' fresh_system t h in rw (r.2) (r.1)

  -- After `Stop` has returned, nothing is output by any further steps of the two threads among
  -- which there is no `Start`: no callback is called and no frame sent.
  pub stop_join-quiet :
      (s t u : System) (later : List Action)
      → step V cb remembers stop_join s ≡ some t
      → All IsNotStart (map label_of later)
      → run V cb remembers later t ≡ some u
      → u.session.outputs ≡ t.session.outputs
  stop_join-quiet s t u later j h k =
      let first = rw j at (step-Simulates V cb laws remembers stop_join s) in
      let r = run-Trace_from later t u k in
      r.2 ∙ rw (Trace-quiet cb (returned-off cb (first.1)) (r.1) h) (append-nil _)
