-- ===== src/Plugin/Live/Lines.antt =====
-- What single steps do to the sentences that have come to OpenCPN and those that are pending.
use ais_live_pi.Common.{
  ℕ, ◌≡◌, refl, sym, ap, ◌∙◌, Option, none, some, List, [], ◌++◌, Text, All, All-append, All-front,
}
use mathlib.Core.List.{append-nil, append_assoc}
use ais_live_pi.Platform.Wx.{Wx}
use ais_live_pi.Platform.Double.{Double}
use ais_live_pi.Platform.Json.{JsonReader, JsonWriter}
use ais_live_pi.Platform.Config.{Config}
use ais_live_pi.Platform.Pending.{Pending, PendingLaws}
use ais_live_pi.Stream.Output.{Output}
use ais_live_pi.Stream.Messages.Forward.{IsFramed}
use ais_live_pi.Stream.Threads.{System}
use ais_live_pi.Gui.State.{Dialog}
use ais_live_pi.Plugin.Lifecycle.{init, load_settings}
use ais_live_pi.Plugin.Steps.{PluginEvent, deinitialised, stream_state, stream_sentence}
use ais_live_pi.Plugin.Delivery.{Call, Wired, WiredEvent, run_next, main, pending_after, wired_step}
use ais_live_pi.Plugin.Delivery.Buffer.{pushed, step-nmea_buffer}
use ais_live_pi.Plugin.Delivery.Order.{sentences, made, KeepsCalls, line, step-line}
use ais_live_pi.Plugin.Delivery.After.{pending_after-nil}
use ais_live_pi.Plugin.Live.{IsOwn, posting}
use ais_live_pi.Plugin.Live.Joins.{main_inversion}
use ais_live_pi.Plugin.Live.Posted.{published, published-append, post_all-line}

IsOwn-pushed : {D : Type 0} (e : PluginEvent D) → IsOwn e → pushed e ≡ []
IsOwn-pushed (stream_state s t) h = refl
IsOwn-pushed (stream_sentence t) h = elim h [ ]
IsOwn-pushed _ h = refl

module _ {D S Q : Type 0} (V : Type 0) ⦃wx : Wx⦄ ⦃d : Double D⦄ ⦃j : JsonReader V⦄
    ⦃w : JsonWriter D V⦄ ⦃c : Config D S⦄ ⦃m : Pending Call Q⦄ (laws : PendingLaws Call Q) where
  -- Without a dialog nothing is pending. With one, what has come to OpenCPN and what is pending behind
  -- it is what came earlier, and then all that the client's threads have published, in order.
  abbrev pub Arrives : List Text → Option (Dialog D) → Wired D S Q → System → Type 0
  Arrives earlier none p s = (laws.calls p.pending ≡ []) × All IsFramed p.plugin.nmea_buffer
  Arrives earlier (some b) p s =
      (line V laws p ≡ earlier ++ published s.session.outputs) × All IsFramed earlier

  pub posting-line :
      (os : List Output) (p : Wired D S Q)
      → line V laws (posting os p) ≡ line V laws p ++ published os
  posting-line os p = post_all-line laws os p.plugin.nmea_buffer p.pending

  -- What is posted is what the threads have made since.
  pub longer-Arrives :
      (earlier : List Text) (b : Dialog D) (p q : Wired D S Q) (s t : System)
      (made posted : List Output)
      → Arrives earlier (some b) p s
      → line V laws q ≡ line V laws p
      → t.session.outputs ≡ s.session.outputs ++ made
      → published posted ≡ published made
      → Arrives earlier (some b) (posting posted q) t
  longer-Arrives earlier b p q s t made posted (whole, framed) same grown told = (
    posting-line posted q
        ∙ ap (λ r. r ++ published posted) (same ∙ whole)
        ∙ append_assoc earlier _ _
        ∙ ap (λ r. earlier ++ r)
            (ap (λ r. published s.session.outputs ++ r) told
              ∙ sym (published-append s.session.outputs made)
              ∙ ap published (sym grown)),
    framed,
  )

  pub own-line :
      (e : PluginEvent D) (p q : Wired D S Q)
      → IsOwn e
      → wired_step V (main e) p ≡ some q
      → q.plugin.nmea_buffer ≡ p.plugin.nmea_buffer
  own-line e p q own r =
      let k = (main_inversion V e p q r).0 in
      (rw k at (step-nmea_buffer V e p.plugin))
      ∙ ap (λ x. p.plugin.nmea_buffer ++ x) (IsOwn-pushed e own)
      ∙ append-nil _

  pub kept-line :
      (e : WiredEvent D) (p q : Wired D S Q)
      → KeepsCalls e
      → made e ≡ []
      → wired_step V e p ≡ some q
      → line V laws q ≡ line V laws p
  kept-line e p q keep n r =
      (rw r at (step-line V laws e p keep)) ∙ ap (λ x. line V laws p ++ x) n ∙ append-nil _

  pub begins-Arrives :
      (config : Option S) (tool menu : ℕ) (x y z v : D) (s : System)
      → let p = init config tool menu x y z v in
        Arrives [] p.my_gui (record { plugin = p; pending = m.empty }) s
  unfolding init load_settings
  begins-Arrives none tool menu x y z v s = (laws.calls-empty, tt)
  begins-Arrives (some g) tool menu x y z v s = (laws.calls-empty, tt)

  -- Without a dialog no call is pending, and none runs.
  pub none_runs :
      (p q : Wired D S Q) → laws.calls p.pending ≡ [] → wired_step V run_next p ≡ some q → ⊥
  unfolding wired_step
  none_runs p q h r = let k = laws.take-none p.pending h in cc

  pub stays_closed-Arrives :
      (earlier : List Text) (e : PluginEvent D) (p q : Wired D S Q) (s : System)
      → IsOwn e
      → wired_step V (main e) p ≡ some q
      → Arrives earlier none p s
      → Arrives earlier none q s
  stays_closed-Arrives earlier e p q s own r (empty, framed) = (
    ap laws.calls (main_inversion V e p q r).1 ∙ pending_after-nil laws e p.pending empty,
    rw (own-line e p q own r) framed,
  )

  pub opens-Arrives :
      (earlier : List Text) (b : Dialog D) (p q : Wired D S Q) (s t : System) (posted : List Output)
      → Arrives earlier none p s
      → line V laws q ≡ line V laws p
      → published posted ≡ published t.session.outputs
      → Arrives p.plugin.nmea_buffer (some b) (posting posted q) t
  opens-Arrives earlier b p q s t posted (empty, framed) same told = (
    posting-line posted q
        ∙ ap (λ r. r ++ published posted)
            (same ∙ ap (λ x. p.plugin.nmea_buffer ++ sentences x) empty ∙ append-nil _)
        ∙ ap (λ r. p.plugin.nmea_buffer ++ r) told,
    framed,
  )

  -- Nothing is pending any more, and everything that came was framed.
  pub closes-Arrives :
      (earlier : List Text) (a : Dialog D) (p q : Wired D S Q) (s t : System)
      → wired_step V (main deinitialised) p ≡ some q
      → All IsFramed (published s.session.outputs)
      → Arrives earlier (some a) p s
      → Arrives earlier none q t
  unfolding pending_after
  closes-Arrives earlier a p q s t r fresh (whole, framed) = (
    ap laws.calls (main_inversion V deinitialised p q r).1 ∙ laws.calls-empty,
    rw (own-line deinitialised p q tt r) (
        All-front IsFramed p.plugin.nmea_buffer (sentences (laws.calls p.pending))
          (rw whole (All-append IsFramed earlier _ framed fresh))),
  )
