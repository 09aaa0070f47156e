-- ===== src/Stream/Threads/Owner.antt =====
-- The client of Stream/Client, whose calls are whole, beside the two threads, whose steps come in
-- any order: `Start`, `Stop` and `Restart` (ais_stream_client.cpp).
use ais_live_pi.Common.{
  ◌≡◌, refl, sym, ◌∙◌, Bool, true, false, not, ◌&&◌, Option, none, some, Text, is_empty, arith,
  if◌then◌else◌,
}
use mathlib.Core.Path.{subst}
use ais_live_pi.Platform.Wx.{Wx}
use ais_live_pi.Platform.Json.{JsonReader, JsonWriter}
use ais_live_pi.Stream.Output.{Callbacks}
use ais_live_pi.Platform.Double.{Double}
use ais_live_pi.Stream.Client
use ais_live_pi.Stream.Client.{
  Launch, Client, Request, new_client, set_state_callback, set_token_enabled, set_token, has_thread,
  launch_for, launch, restart,
}
use ais_live_pi.Stream.Threads.{
  Point, exited, Caller, idle, System, Choice, Action, supervisor, begin_start, step,
}
use ais_live_pi.Stream.Threads.Safety.{fresh_system, is_over}
use ais_live_pi.Stream.Threads.Calls.{Keeps, supervise-Keeps, IsReaped, Stops, Stops-IsReaped}

-- The thread that the client of Stream/Client has runs in its loop, with the message and the
-- token it was launched with; where it has none there is none.
abbrev pub IsServing : Option Launch → System → Type 0
IsServing none s = s.point ≡ exited
IsServing (some l) s = (s.launch ≡ l) × (is_over s.point ≡ false)

pub record Agrees (c : Client) (s : System) : Type 0 where
  pub at_rest : s.caller ≡ idle
  pub same_flag : s.streaming ≡ c.streaming
  pub one_thread : has_thread c ≡ c.streaming
  pub serving : IsServing c.thread s

reaped-Agrees : (c : Client) (t : System) → IsReaped t → Agrees (Client.stop c) t
unfolding Client.stop
reaped-Agrees c t v = record { at_rest = v.0; same_flag = v.1; one_thread = refl; serving = v.2 }

callback_set-Agrees : (c : Client) (s : System) → Agrees c s → Agrees (set_state_callback c) s
unfolding set_state_callback
callback_set-Agrees c s v = ground arith

token_enabled-Agrees :
    (b : Bool) (c : Client) (s : System) → Agrees c s → Agrees (set_token_enabled b c) s
unfolding set_token_enabled
token_enabled-Agrees b c s v = ground arith

token_set-Agrees : (t : Text) (c : Client) (s : System) → Agrees c s → Agrees (set_token t c) s
unfolding set_token
token_set-Agrees t c s v = ground arith

abbrev is_launched_thread : Option Launch → Bool
is_launched_thread none = false
is_launched_thread (some l) = true

IsServing-Keeps :
    (o : Option Launch) (s t : System)
    → Keeps s t
    → s.streaming ≡ is_launched_thread o
    → IsServing o s
    → IsServing o t
IsServing-Keeps none s t k f v = ground arith
IsServing-Keeps (some l) s t k f v = (k.launch ∙ v.0, ground arith)

module _ (D V : Type 0) ⦃wx : Wx⦄ ⦃j : JsonReader V⦄ ⦃d : Double D⦄ ⦃w : JsonWriter D V⦄
    (cb : Callbacks) (remembers : Bool) where
  -- A call of `Start` of a client with these settings, on the flag that the threads share: it
  -- returns at once, is refused for want of a token, or starts the thread.
  pub data Starts : Request D → Client → System → System → Type 0 where
    is_running : (r : Request D) (c : Client) (s : System) → s.streaming ≡ true → Starts r c s s
    is_refused :
        (r : Request D) (c : Client) (s : System)
        → s.streaming ≡ false
        → (c.use_token && is_empty c.token) ≡ true
        → Starts r c s s
    is_launched :
        (r : Request D) (c : Client) (s t : System)
        → s.streaming ≡ false
        → (c.use_token && is_empty c.token) ≡ false
        → step V cb remembers (Action.start (launch_for V c r)) s ≡ some t
        → Starts r c s t

  -- What a client and its threads come to from the constructor on, by the owner's calls and the
  -- supervisor's steps in any order, at the times when no call is under way.
  pub data Together : Client → System → Type 0 where
    created : Together new_client fresh_system
    supervised :
        (choice : Choice) (c : Client) (s t : System)
        → Together c s
        → step V cb remembers (supervisor choice) s ≡ some t
        → Together c t
    callback_set : (c : Client) (s : System) → Together c s → Together (set_state_callback c) s
    token_enabled :
        (enabled : Bool) (c : Client) (s : System)
        → Together c s
        → Together (set_token_enabled enabled c) s
    token_set :
        (token : Text) (c : Client) (s : System) → Together c s → Together (set_token token c) s
    started :
        (r : Request D) (c : Client) (s t : System)
        → Together c s
        → Starts r c s t
        → Together (Client.start V r c) t
    stopped :
        (c : Client) (s t : System)
        → Together c s
        → Stops V cb remembers s t
        → Together (Client.stop c) t
    restarted :
        (r : Request D) (c : Client) (s t u : System)
        → Together c s
        → s.streaming ≡ true
        → Stops V cb remembers s t
        → Starts r (Client.stop c) t u
        → Together (restart V r c) u
    not_restarted :
        (r : Request D) (c : Client) (s : System)
        → Together c s
        → s.streaming ≡ false
        → Together (restart V r c) s

  supervised-Agrees :
      (choice : Choice) (c : Client) (s t : System)
      → Agrees c s
      → step V cb remembers (supervisor choice) s ≡ some t
      → Agrees c t
  unfolding step
  supervised-Agrees choice c s t v h =
      let k = supervise-Keeps V cb choice s.point s t refl h in
      record {
        at_rest = k.caller ∙ v.at_rest;
        same_flag = k.streaming ∙ v.same_flag;
        one_thread = v.one_thread;
        serving = IsServing-Keeps c.thread s t k (v.same_flag ∙ sym v.one_thread) v.serving;
      }

  begin_start-Agrees :
      (l : Launch) (p : Point) (o : Caller) (s t : System)
      → begin_start V cb l p o s ≡ some t
      → (t.caller ≡ s.caller) × (t.streaming ≡ true) × (t.launch ≡ l) × (is_over t.point ≡ false)
  unfolding begin_start
  begin_start-Agrees l exited idle s t h = ground arith
  begin_start-Agrees l _ _ s t h = cc

  Starts-Agrees :
      (r : Request D) (c : Client) (s t : System)
      → Agrees c s
      → Starts r c s t
      → Agrees (Client.start V r c) t
  unfolding Client.start step
  Starts-Agrees r c s t v (is_running _ _ _ on) = ground arith
  Starts-Agrees r c s t v (is_refused _ _ _ off refused) = ground arith
  Starts-Agrees r c s t v (is_launched _ _ _ _ off allowed h) =
      let t-is = begin_start-Agrees (launch_for V c r) s.point s.caller s t h in ground arith

  restart-Agrees :
      (r : Request D) (c : Client) (s t u : System)
      → Agrees c s
      → s.streaming ≡ true
      → Agrees (Client.stop c) t
      → Starts r (Client.stop c) t u
      → Agrees (restart V r c) u
  unfolding restart
  restart-Agrees r c s t u v on w l =
      subst (λ b. Agrees (if not b then c else Client.start V r (Client.stop c)) u)
        (sym on ∙ v.same_flag) (Starts-Agrees r (Client.stop c) t u w l)

  not_restarted-Agrees :
      (r : Request D) (c : Client) (s : System)
      → Agrees c s
      → s.streaming ≡ false
      → Agrees (restart V r c) s
  unfolding restart
  not_restarted-Agrees r c s v off =
      subst (λ b. Agrees (if not b then c else Client.start V r (Client.stop c)) s)
        (sym off ∙ v.same_flag) v

  -- From the constructor of a client on, whatever its owner calls, one call after another, and
  -- whatever steps the supervisor makes during the calls and between them: when no call is under
  -- way, the flag that the threads share is up just if the client of Stream/Client streams; then
  -- the supervisor is in its loop, or an exception has ended the process, with the message and
  -- the token of the last launch; otherwise there is no thread.
  pub Together-Agrees : (c : Client) (s : System) → Together c s → Agrees c s
  unfolding new_client
  Together-Agrees c s created = record {
    at_rest = refl;
    same_flag = refl;
    one_thread = refl;
    serving = refl;
  }
  Together-Agrees c t (supervised choice _ s _ h e) =
      supervised-Agrees choice c s t (Together-Agrees c s h) e
  Together-Agrees _ s (callback_set c _ h) = callback_set-Agrees c s (Together-Agrees c s h)
  Together-Agrees _ s (token_enabled b c _ h) = token_enabled-Agrees b c s (Together-Agrees c s h)
  Together-Agrees _ s (token_set text c _ h) = token_set-Agrees text c s (Together-Agrees c s h)
  Together-Agrees _ t (started r c s _ h k) = Starts-Agrees r c s t (Together-Agrees c s h) k
  Together-Agrees _ t (stopped c s _ h k) = reaped-Agrees c t (Stops-IsReaped V cb remembers s t k)
  Together-Agrees _ u (restarted r c s t _ h on k l) =
      restart-Agrees r c s t u (Together-Agrees c s h) on
        (reaped-Agrees c t (Stops-IsReaped V cb remembers s t k)) l
  Together-Agrees _ s (not_restarted r c _ h off) =
      not_restarted-Agrees r c s (Together-Agrees c s h) off
