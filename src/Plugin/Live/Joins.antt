-- ===== src/Plugin/Live/Joins.antt =====
-- The running program is the plugin with its threads, whatever is pending.
use ais_live_pi.Common.{
  IfSome, ◌≡◌, refl, sym, ap, ◌∙◌, Bool, Option, none, some, [], inl, inr, Option-cases, arith,
}
use mathlib.Core.Option.{some-injective}
use ais_live_pi.Platform.Wx.{Wx}
use ais_live_pi.Platform.Double.{Double}
use ais_live_pi.Platform.Json.{JsonReader, JsonWriter}
use ais_live_pi.Platform.Config.{Config}
use ais_live_pi.Platform.Pending.{Pending}
use ais_live_pi.Stream.Output.{Callbacks}
use ais_live_pi.Stream.Threads.{System}
use ais_live_pi.Stream.Threads.Performs.{done}
use ais_live_pi.Gui.State.{Dialog}
use ais_live_pi.Gui.Streaming.{on_ais_stream_state_changed}
use ais_live_pi.Plugin.State.{Plugin, on_gui, send_nmea_sentence}
use ais_live_pi.Plugin.Steps.{PluginEvent, deinitialised, step}
use ais_live_pi.Plugin.Whole.{Whole, loaded, supervises, unopened, opened, handled, deleted}
use ais_live_pi.Plugin.Delivery.{
  Call, change_state, send_sentence, Wired, run_next, main, run_call, pending_after, main_step,
  wired_step,
}
use ais_live_pi.Plugin.Live.{Live, begins, goes_on, runs, stays_closed, opens, handles, closes}

-- The dialog of the one plugin has the client of the other's.
abbrev pub KeepsClient : {D : Type 0} → Option (Dialog D) → Option (Dialog D) → Type 0
KeepsClient none none = Unit
KeepsClient none (some b) = ⊥
KeepsClient (some a) none = ⊥
KeepsClient (some a) (some b) = a.ais_stream ≡ b.ais_stream

KeepsClient-refl : {D : Type 0} (o : Option (Dialog D)) → KeepsClient o o
KeepsClient-refl none = tt
KeepsClient-refl (some a) = refl

module _ {D S Q : Type 0} (V : Type 0) ⦃wx : Wx⦄ ⦃d : Double D⦄ ⦃w : JsonWriter D V⦄
    ⦃c : Config D S⦄ ⦃m : Pending Call Q⦄ where
  pub main_inversion :
      (e : PluginEvent D) (p q : Wired D S Q)
      → wired_step V (main e) p ≡ some q
      → (step V e p.plugin ≡ some q.plugin) × (q.pending ≡ pending_after e p.pending)
  unfolding wired_step main_step
  main_inversion e p q h = elim (Option-cases (step V e p.plugin)) [
    | inl k ↦ ground arith
    | inr (r, k) ↦
        let g = rw (wired_step, main_step, k) at h in
        let same = sym (some-injective _ q g) in
        (k ∙ ap (λ x. some x.plugin) (sym same), ap (λ x. x.pending) same)
  ]

  pub run_inversion :
      (p q : Wired D S Q)
      → wired_step V run_next p ≡ some q
      → (call : Call) × (rest : Q) × (m.take p.pending ≡ some (call, rest))
        × (step V (run_call call) p.plugin ≡ some q.plugin)
        × (q.pending ≡ pending_after (run_call {D = D} call) rest)
  unfolding wired_step
  run_inversion p q h = elim (Option-cases (m.take p.pending)) [
    | inl k ↦ ground arith
    | inr ((call, rest), k) ↦
        let g = rw (wired_step, k) at h in
        let (made, left) =
          main_inversion (run_call call) (record { plugin = p.plugin; pending = rest }) q g in
        (call, rest, k, made, left)
  ]

module _ {D S : Type 0} (V : Type 0) ⦃wx : Wx⦄ ⦃d : Double D⦄ ⦃w : JsonWriter D V⦄
    ⦃c : Config D S⦄ where
  -- The calls that the stream posts leave the client alone.
  pub call-KeepsClient :
      (call : Call) (p : Plugin D S)
      → IfSome (λ q. KeepsClient p.my_gui q.my_gui) (step V (run_call call) p)
  unfolding run_call step on_gui on_ais_stream_state_changed send_nmea_sentence
  call-KeepsClient (change_state state detail) p = elim (Option-cases p.my_gui) [
    | inl e ↦ rw (e, on_gui, e) tt
    | inr (b, e) ↦ rw (e, on_gui) refl
  ]
  call-KeepsClient (send_sentence t) p = KeepsClient-refl p.my_gui

module _ (D S Q V : Type 0) ⦃wx : Wx⦄ ⦃d : Double D⦄ ⦃j : JsonReader V⦄ ⦃w : JsonWriter D V⦄
    ⦃c : Config D S⦄ ⦃m : Pending Call Q⦄ (cb : Callbacks) (remembers : Bool) where
  -- A step that leaves the client alone.
  kept-Whole :
      (e : PluginEvent D) (p q : Plugin D S) (s : System)
      → Whole D S V cb remembers p s
      → step V e p ≡ some q
      → KeepsClient p.my_gui q.my_gui
      → Whole D S V cb remembers q s
  kept-Whole e p q s h k same = elim (Option-cases p.my_gui) [
    | inl n ↦ elim (Option-cases q.my_gui) [
      | inl i ↦ unopened e p q s h n k i
      | inr (b, i) ↦ elim (rw (n, i) at same) [ ]
    ]
    | inr (a, n) ↦ elim (Option-cases q.my_gui) [
      | inl i ↦ elim (rw (n, i) at same) [ ]
      | inr (b, i) ↦ handled e p q a b [] s s h n k i (rw (n, i) at same) (done a.ais_stream s)
    ]
  ]

  pub Live-Whole :
      (p : Wired D S Q) (s : System)
      → Live D S Q V cb remembers p s
      → Whole D S V cb remembers p.plugin s
  Live-Whole _ s (begins config tool menu x y z v) = loaded config tool menu x y z v
  Live-Whole _ t (goes_on choice p s _ made h k e) =
      supervises choice p.plugin s t (Live-Whole p s h) k
  Live-Whole q s (runs p _ _ h r) =
      let (call, rest, taken, k, left) = run_inversion V p q r in
      kept-Whole (run_call call) p.plugin q.plugin s (Live-Whole p s h) k
        (rw k at (call-KeepsClient V call p.plugin))
  Live-Whole q s (stays_closed e p _ _ h own n r i) =
      unopened e p.plugin q.plugin s (Live-Whole p s h) n (main_inversion V e p q r).0 i
  Live-Whole _ t (opens e p q b xs s _ posted h own n r i l x merge) =
      opened e p.plugin q.plugin b xs s t (Live-Whole p s h) n (main_inversion V e p q r).0 i l x
  Live-Whole _ t (handles e p q a b xs s _ made refused posted h own n r i l x grown told merge) =
      handled e p.plugin q.plugin a b xs s t (Live-Whole p s h) n (main_inversion V e p q r).0 i l x
  Live-Whole q t (closes p _ a xs s _ h n r i x) =
      deleted deinitialised p.plugin q.plugin a xs s t (Live-Whole p s h) n
        (main_inversion V deinitialised p q r).0 i x
