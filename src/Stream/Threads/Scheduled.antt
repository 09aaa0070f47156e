-- ===== src/Stream/Threads/Scheduled.antt =====
-- What a client and its threads come to is what a schedule of the two threads makes of a new client
-- (ais_stream_client.cpp).
use ais_live_pi.Common.{◌≡◌, refl, Bool, some, List, [], ◌∷◌, ◌++◌, arith, Option-cases, inl, inr}
use mathlib.Core.Option.{some-injective}
use ais_live_pi.Platform.Wx.{Wx}
use ais_live_pi.Platform.Double.{Double}
use ais_live_pi.Platform.Json.{JsonReader, JsonWriter}
use ais_live_pi.Stream.Output.{Callbacks}
use ais_live_pi.Stream.Client
use ais_live_pi.Stream.Client.{Client, Request, launch_for}
use ais_live_pi.Stream.Threads.{System, Action, supervisor, step, run}
use ais_live_pi.Stream.Threads.Safety.{fresh_system}
use ais_live_pi.Stream.Threads.Calls.{Stops, is_stopped, stop_schedule}
use ais_live_pi.Stream.Threads.Owner.{
  Starts, is_running, is_refused, is_launched, Together, created, supervised, callback_set,
  token_enabled, token_set, started, stopped, restarted, not_restarted,
}

module _ (D V : Type 0) ⦃wx : Wx⦄ ⦃j : JsonReader V⦄ ⦃d : Double D⦄ ⦃w : JsonWriter D V⦄
    (cb : Callbacks) (remembers : Bool) where
  -- Some steps lead from the first state to the second.
  abbrev Leads : System → System → Type 0
  Leads s t = (as' : List Action) × (run V cb remembers as' s ≡ some t)

  run-append :
      (as' bs : List Action) (s t u : System)
      → run V cb remembers as' s ≡ some t
      → run V cb remembers bs t ≡ some u
      → run V cb remembers (as' ++ bs) s ≡ some u
  unfolding run
  run-append [] bs s t u h k = rw (some-injective s t h) k
  run-append (a ∷ as') bs s t u h k = elim (Option-cases (step V cb remembers a s)) [
    | inl e ↦ ground arith
    | inr (x, e) ↦ rw (run, e) (run-append as' bs x t u (rw (run, e) at h) k)
  ]

  Leads-trans : (s t u : System) → Leads s t → Leads t u → Leads s u
  Leads-trans s t u (as', h) (bs, k) = (as' ++ bs, run-append as' bs s t u h k)

  step-Leads : (a : Action) (s t : System) → step V cb remembers a s ≡ some t → Leads s t
  unfolding run
  step-Leads a s t h = (a ∷ [], rw (run, h) refl)

  Starts-Leads :
      (r : Request D) (c : Client) (s t : System) → Starts D V cb remembers r c s t → Leads s t
  unfolding run
  Starts-Leads r c s _ (is_running _ _ _ on) = ([], refl)
  Starts-Leads r c s _ (is_refused _ _ _ off refused) = ([], refl)
  Starts-Leads r c s t (is_launched _ _ _ _ off allowed h) =
      step-Leads (Action.start (launch_for V c r)) s t h

  Stops-Leads : (s t : System) → Stops V cb remembers s t → Leads s t
  Stops-Leads s t (is_stopped before n after _ _ h) = (stop_schedule before n after, h)

  -- Whatever a client and its threads have come to, there is a schedule of the two threads of a new
  -- client that leads to it.
  pub Together-run :
      (c : Client) (s : System)
      → Together D V cb remembers c s
      → (as' : List Action) × (run V cb remembers as' fresh_system ≡ some s)
  unfolding run
  Together-run c s created = ([], refl)
  Together-run c t (supervised choice _ s _ h e) =
      Leads-trans fresh_system s t (Together-run c s h) (step-Leads (supervisor choice) s t e)
  Together-run _ s (callback_set c _ h) = Together-run c s h
  Together-run _ s (token_enabled b c _ h) = Together-run c s h
  Together-run _ s (token_set text c _ h) = Together-run c s h
  Together-run _ t (started r c s _ h k) =
      Leads-trans fresh_system s t (Together-run c s h) (Starts-Leads r c s t k)
  Together-run _ t (stopped c s _ h k) =
      Leads-trans fresh_system s t (Together-run c s h) (Stops-Leads s t k)
  Together-run _ u (restarted r c s t _ h on k l) =
      Leads-trans fresh_system t u
        (Leads-trans fresh_system s t (Together-run c s h) (Stops-Leads s t k))
        (Starts-Leads r (Client.stop c) t u l)
  Together-run _ s (not_restarted r c _ h off) = Together-run c s h
