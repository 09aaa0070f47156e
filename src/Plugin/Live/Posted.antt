-- ===== src/Plugin/Live/Posted.antt =====
-- The sentences among the outputs of the threads and of the client, and how they are posted.
use ais_live_pi.Common.{
  ◌≡◌, refl, sym, ap, ◌∙◌, Bool, not, List, [], ◌∷◌, ◌++◌, Text, All, All-append, if-case,
  Bool-cases, inl, inr, is_empty,
}
use mathlib.Core.List.{append-nil, append_assoc}
use ais_live_pi.Platform.Wx.{Wx, WxLaws}
use ais_live_pi.Platform.Double.{Double}
use ais_live_pi.Platform.Json.{JsonReader, JsonWriter}
use ais_live_pi.Platform.Pending.{Pending, PendingLaws}
use ais_live_pi.Stream.Output.{
  Output, state_changed, sentence, sent, dialled, State, Callbacks, set_state,
}
use ais_live_pi.Stream.Client
use ais_live_pi.Stream.Client.{Client, Request, new_client}
use ais_live_pi.Stream.Messages.Forward.{IsFramed}
use ais_live_pi.Stream.Threads.{System}
use ais_live_pi.Stream.Threads.Owner.{
  Together, created, supervised, callback_set, token_enabled, token_set, started, stopped,
  restarted, not_restarted,
}
use ais_live_pi.Stream.Threads.Scheduled.{Together-run}
use ais_live_pi.Stream.Threads.Schedules.{run-Trace}
use ais_live_pi.Plugin.Delivery.{Call, post_output}
use ais_live_pi.Plugin.Delivery.Order.{sentences, made_by, output-line}
use ais_live_pi.Plugin.Delivery.Framed.{SaysFramed, Trace-SaysFramed}
use ais_live_pi.Plugin.Live.{Merges, both_end, from_first, from_second, post_all}

-- The sentences, in their order.
abbrev pub published : List Output → List Text
published [] = []
published (o ∷ os) = made_by o ++ published os

pub published-append : (xs ys : List Output) → published (xs ++ ys) ≡ published xs ++ published ys
published-append [] ys = refl
published-append (o ∷ xs) ys =
    ap (λ r. made_by o ++ r) (published-append xs ys) ∙ sym (append_assoc (made_by o) _ _)

pub published-IsFramed : (os : List Output) → All SaysFramed os → All IsFramed (published os)
published-IsFramed [] h = tt
published-IsFramed (sentence t ∷ os) h = (h.0, published-IsFramed os h.1)
published-IsFramed (state_changed s t ∷ os) h = published-IsFramed os h.1
published-IsFramed (sent m ∷ os) h = published-IsFramed os h.1
published-IsFramed (dialled url header ∷ os) h = published-IsFramed os h.1

-- A report of the state.
abbrev pub IsState : Output → Type 0
IsState (state_changed s t) = Unit
IsState (sentence t) = ⊥
IsState (sent m) = ⊥
IsState (dialled url header) = ⊥

IsState-made_by : (o : Output) → IsState o → made_by o ≡ []
IsState-made_by (state_changed s t) h = refl
IsState-made_by (sentence t) h = elim h [ ]
IsState-made_by (sent m) h = elim h [ ]
IsState-made_by (dialled url header) h = elim h [ ]

-- Reports of the state add no sentence.
pub Merges-published :
    {xs ys zs : List Output} → Merges xs ys zs → All IsState ys → published zs ≡ published xs
Merges-published both_end h = refl
Merges-published (from_first o xs ys zs k) h = ap (λ r. made_by o ++ r) (Merges-published k h)
Merges-published (from_second o xs ys zs k) h =
    ap (λ r. r ++ published zs) (IsState-made_by o h.0) ∙ Merges-published k h.1

module _ {Q : Type 0} ⦃m : Pending Call Q⦄ (laws : PendingLaws Call Q) where
  pub post_all-line :
      (os : List Output) (b : List Text) (q : Q)
      → b ++ sentences (laws.calls (post_all os q))
        ≡ (b ++ sentences (laws.calls q)) ++ published os
  post_all-line [] b q = sym (append-nil _)
  post_all-line (o ∷ os) b q =
      post_all-line os b (post_output o q)
      ∙ ap (λ r. r ++ published os) (output-line laws o b q)
      ∙ append_assoc (b ++ sentences (laws.calls q)) (made_by o) (published os)

set_state-IsState : (cb : Callbacks) (s : State) (t : Text) → All IsState (set_state cb s t)
unfolding set_state
set_state-IsState cb s t = elim (Bool-cases cb.on_state_changed) [
  | inl e ↦ rw e (tt, tt)
  | inr e ↦ rw e tt
]

-- What the client itself reports.
abbrev pub Tells : Client → Type 0
Tells c = All IsState c.outputs

module _ {D : Type 0} (V : Type 0) ⦃d : Double D⦄ ⦃w : JsonWriter D V⦄ where
  start-Tells : (r : Request D) (c : Client) → Tells c → Tells (Client.start V r c)
  unfolding Client.start Client.launch
  start-Tells r c h =
      if-case Tells c.streaming c _ (λ e. h)
        (if-case Tells (not c.use_token) _ _ (λ e. h)
          (if-case Tells (is_empty c.token) _ _
            (λ e. All-append IsState c.outputs _ h (set_state-IsState c.callbacks _ _)) h))

  restart-Tells : (r : Request D) (c : Client) → Tells c → Tells (Client.restart V r c)
  unfolding Client.restart Client.stop
  restart-Tells r c h =
      if-case Tells (not c.streaming) c _ (λ e. h) (start-Tells r (Client.stop c) h)

module _ (D V : Type 0) ⦃wx : Wx⦄ ⦃j : JsonReader V⦄ ⦃d : Double D⦄ ⦃w : JsonWriter D V⦄
    (cb : Callbacks) (remembers : Bool) where
  pub Together-Tells : (c : Client) (s : System) → Together D V cb remembers c s → Tells c
  unfolding new_client Client.set_state_callback Client.set_token_enabled Client.set_token
      Client.stop
  Together-Tells c s created = tt
  Together-Tells c t (supervised choice _ s _ h e) = Together-Tells c s h
  Together-Tells _ s (callback_set c _ h) = Together-Tells c s h
  Together-Tells _ s (token_enabled b c _ h) = Together-Tells c s h
  Together-Tells _ s (token_set text c _ h) = Together-Tells c s h
  Together-Tells _ t (started r c s _ h k) = start-Tells V r c (Together-Tells c s h)
  Together-Tells _ t (stopped c s _ h k) = Together-Tells c s h
  Together-Tells _ u (restarted r c s t _ h on k l) = restart-Tells V r c (Together-Tells c s h)
  Together-Tells _ s (not_restarted r c _ h off) = restart-Tells V r c (Together-Tells c s h)

  -- If the laws of the strings hold, the threads of a client publish whole sentences alone.
  pub Together-IsFramed :
      (text : WxLaws) (c : Client) (s : System)
      → Together D V cb remembers c s
      → All IsFramed (published s.session.outputs)
  Together-IsFramed text c s h =
      let (as', k) = Together-run D V cb remembers c s h in
      published-IsFramed s.session.outputs
        (Trace-SaysFramed (run-Trace V cb text remembers as' s k))
