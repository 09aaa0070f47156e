-- ===== src/Plugin/Whole/Served.antt =====
-- What the threads are up to while the plugin runs, from `Init` on.
use ais_live_pi.Common.{
  IfSome, ℕ, ◌≡◌, refl, sym, Bool, true, false, Option, none, some, List, [], ◌∷◌, ◌++◌, inl, inr,
  Option-cases, arith,
}
use mathlib.Core.Path.{subst}
use ais_live_pi.Platform.Wx.{Wx}
use ais_live_pi.Platform.Double.{Double}
use ais_live_pi.Platform.Json.{JsonReader, JsonWriter}
use ais_live_pi.Platform.Config.{Config}
use ais_live_pi.Stream.Output.{Callbacks}
use ais_live_pi.Stream.Client
use ais_live_pi.Stream.Client.{Client, new_client, launch_for}
use ais_live_pi.Stream.Client.Replay.{ClientCall, stop, replay, replay-append}
use ais_live_pi.Stream.Threads
use ais_live_pi.Stream.Threads.{System, Choice, idle, exited, supervisor}
use ais_live_pi.Stream.Threads.Safety.{fresh_system}
use ais_live_pi.Stream.Threads.Calls.{IsReaped, supervise-Keeps}
use ais_live_pi.Stream.Threads.Owner.{Together, created, supervised, Agrees, Together-Agrees}
use ais_live_pi.Stream.Threads.Performs.{PerformsAll, PerformsAll-Together}
use ais_live_pi.Settings.Globals.{Globals}
use ais_live_pi.Gui.State.{Gui, Dialog, default_dialog}
use ais_live_pi.Gui.Streaming.{request}
use ais_live_pi.Gui.Events.Sync.{IsSynced}
use ais_live_pi.Plugin.State.{Plugin}
use ais_live_pi.Plugin.Lifecycle.{init, load_settings}
use ais_live_pi.Plugin.Steps.{PluginEvent, step}
use ais_live_pi.Plugin.Passes.Walk.{Passes}
use ais_live_pi.Plugin.Passes.Steps.{step-Follows}
use ais_live_pi.Plugin.Whole.{
  gui_of, HasThreadFor, IsServed, Whole, loaded, supervises, unopened, opened, handled, deleted,
}

module _ (D S V : Type 0) ⦃wx : Wx⦄ ⦃d : Double D⦄ ⦃j : JsonReader V⦄ ⦃w : JsonWriter D V⦄
    ⦃c : Config D S⦄ (cb : Callbacks) (remembers : Bool) where
  -- The threads carry the client of the dialog, which is in step with what the dialog shows; without
  -- a dialog there is no thread.
  abbrev JoinedTo : Globals D → Option (Dialog D) → System → Type 0
  JoinedTo g none s = IsReaped s
  JoinedTo g (some b) s =
      Together D V cb remembers b.ais_stream s × IsSynced V (record { globals = g; dialog = b })

  abbrev Joined : Plugin D S → System → Type 0
  Joined p s = JoinedTo p.globals p.my_gui s

  followed :
      (e : PluginEvent D) (p q : Plugin D S)
      → step V e p ≡ some q
      → Passes V p.globals p.my_gui q.globals q.my_gui
  followed e p q h =
      subst (IfSome (λ r. Passes V p.globals p.my_gui r.globals r.my_gui)) h (step-Follows V e p)

  opened-IsSynced :
      (e : PluginEvent D) (p q : Plugin D S) (b : Dialog D)
      → step V e p ≡ some q
      → p.my_gui ≡ none
      → q.my_gui ≡ some b
      → IsSynced V (gui_of q b)
  unfolding default_dialog new_client request
  opened-IsSynced e p q b h m n = let f = rw (m, n) at (followed e p q h) in f.2.synced refl

  handled-IsSynced :
      (e : PluginEvent D) (p q : Plugin D S) (a b : Dialog D)
      → step V e p ≡ some q
      → p.my_gui ≡ some a
      → q.my_gui ≡ some b
      → IsSynced V (gui_of p a)
      → IsSynced V (gui_of q b)
  handled-IsSynced e p q a b h m n = let f = rw (m, n) at (followed e p q h) in f.synced

  load-Joined :
      (config : Option S) (tool menu : ℕ) (x y z v : D)
      → Joined (init config tool menu x y z v) fresh_system
  unfolding init load_settings
  load-Joined none tool menu x y z v = (refl, refl, refl)
  load-Joined (some s) tool menu x y z v = (refl, refl, refl)

  -- A thread that is not there makes no step.
  reaped-still :
      (choice : Choice) (s t : System)
      → IsReaped s
      → Threads.step V cb remembers (supervisor choice) s ≡ some t
      → ⊥
  unfolding Threads.step
  reaped-still choice s t h k =
      let alive = (supervise-Keeps V cb choice s.point s t refl k).alive in
      let over : s.point ≡ exited = h.2 in ground arith

  supervised-Joined :
      (choice : Choice) (p : Plugin D S) (s t : System)
      → Joined p s
      → Threads.step V cb remembers (supervisor choice) s ≡ some t
      → Joined p t
  supervised-Joined choice p s t h k = elim (Option-cases p.my_gui) [
    | inl e ↦ elim (reaped-still choice s t (rw e at h) k) [ ]
    | inr (b, e) ↦
        let (together, synced) = rw e at h in
        rw e (supervised choice b.ais_stream s t together k, synced)
  ]

  deleted-IsReaped :
      (a : Client) (xs : List (ClientCall D)) (s t : System)
      → Together D V cb remembers a s
      → PerformsAll D V cb remembers (xs ++ stop ∷ []) a s t
      → IsReaped t
  unfolding Client.stop
  deleted-IsReaped a xs s t h k =
      let last : Together D V cb remembers (Client.stop (replay V xs a)) t =
        subst (λ x. Together D V cb remembers x t) (replay-append V xs (stop ∷ []) a)
          (PerformsAll-Together D V cb remembers (xs ++ stop ∷ []) a s t h k) in
      let v = Together-Agrees D V cb remembers (Client.stop (replay V xs a)) t last in
      (v.at_rest, v.same_flag, v.serving)

  Whole-Joined : (p : Plugin D S) (s : System) → Whole D S V cb remembers p s → Joined p s
  Whole-Joined _ s (loaded config tool menu x y z v) = load-Joined config tool menu x y z v
  Whole-Joined p t (supervises choice _ s _ h k) =
      supervised-Joined choice p s t (Whole-Joined p s h) k
  Whole-Joined q s (unopened e p _ _ h m k n) = rw n (rw m at (Whole-Joined p s h))
  Whole-Joined q t (opened e p _ b xs s _ h m k n r a) = rw n (
    rw (sym r) (PerformsAll-Together D V cb remembers xs new_client fresh_system t created a),
    opened-IsSynced e p q b k m n,
  )
  Whole-Joined q t (handled e p _ a b xs s _ h m k n r x) =
      let (together, synced) = rw m at (Whole-Joined p s h) in
      rw n (
        rw (sym r) (PerformsAll-Together D V cb remembers xs a.ais_stream s t together x),
        handled-IsSynced e p q a b k m n synced,
      )
  Whole-Joined q t (deleted e p _ a xs s _ h m k n x) =
      let (together, synced) = rw m at (Whole-Joined p s h) in
      rw n (deleted-IsReaped a.ais_stream xs s t together x)

  -- While there is a dialog, the threads are its client's; without one no step is left.
  pub Whole-Together :
      (p : Plugin D S) (s : System) (b : Dialog D)
      → Whole D S V cb remembers p s
      → p.my_gui ≡ some b
      → Together D V cb remembers b.ais_stream s
  Whole-Together p s b h n = (rw n at (Whole-Joined p s h)).0

  pub closed-still :
      (choice : Choice) (p : Plugin D S) (s t : System)
      → Whole D S V cb remembers p s
      → p.my_gui ≡ none
      → Threads.step V cb remembers (supervisor choice) s ≡ some t
      → ⊥
  closed-still choice p s t h n k = reaped-still choice s t (rw n at (Whole-Joined p s h)) k

  served :
      (flag : Bool) (u : Gui D) (s : System)
      → u.dialog.ais_stream.streaming ≡ flag
      → Agrees u.dialog.ais_stream s
      → IsSynced V u
      → HasThreadFor V flag u s
  unfolding request ais_live_pi.Stream.Client.message_for
  served true u s e a h = let k = rw e at h in rw k at a.serving
  served false u s e a h = let k = rw e at h in rw k at a.serving

  -- From `Init` on, whatever OpenCPN calls and the user does, and whatever steps the supervisor makes
  -- during the handlers and between them: when no handler runs, no call of a client is under way.
  -- If there is a dialog, the flag that the threads share is up just if its client streams; then
  -- the supervisor is in its loop, or an exception has ended the process, and it subscribes with
  -- the message for the search area, the vessels and the following that the dialog and the settings
  -- have now, at the size limit of the client's token mode, and dials with the client's token in
  -- token mode and with none outside it; otherwise there is no thread. If there is no dialog, so
  -- before it is made and after `DeInit` has deleted it, the flag is down and there is no thread.
  pub Whole-IsServed :
      (p : Plugin D S) (s : System)
      → Whole D S V cb remembers p s
      → (s.caller ≡ idle) × IsServed V p.globals p.my_gui s
  Whole-IsServed p s h = elim (Option-cases p.my_gui) [
    | inl e ↦ let reaped = rw e at (Whole-Joined p s h) in (reaped.0, rw e (reaped.1, reaped.2))
    | inr (b, e) ↦
        let (together, synced) = rw e at (Whole-Joined p s h) in
        let a = Together-Agrees D V cb remembers b.ais_stream s together in
        (
          a.at_rest,
          rw e (a.same_flag, served s.streaming (gui_of p b) s (sym a.same_flag) a synced),
        )
  ]
