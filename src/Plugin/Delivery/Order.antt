-- ===== src/Plugin/Delivery/Order.antt =====
-- In what order the sentences come to OpenCPN, and what comes after `DeInit`.
use ais_live_pi.Common.{
  ◌≡◌, refl, sym, ap, ◌∙◌, none, some, List, [], ◌∷◌, ◌++◌, Text, All, arith, IfSome, option-case,
  IfSome-map, Option-cases, inl, inr,
}
use mathlib.Core.List.{append-nil, append_assoc}
use mathlib.Core.Option.{some-injective}
use ais_live_pi.Platform.Wx.{Wx}
use ais_live_pi.Platform.Double.{Double}
use ais_live_pi.Platform.Json.{JsonWriter}
use ais_live_pi.Platform.Config.{Config}
use ais_live_pi.Platform.Pending.{Pending, PendingLaws}
use ais_live_pi.Stream.Output.{Output, state_changed, sentence, sent, dialled}
use ais_live_pi.Plugin.State.{Plugin}
use ais_live_pi.Plugin.Steps.{PluginEvent, deinitialised, stream_state, stream_sentence, step}
use ais_live_pi.Plugin.Delivery.{
  Call, change_state, send_sentence, Wired, WiredEvent, output, run_next, main, post_output,
  pending_after, run_call, main_step, wired_step, wired_run,
}
use ais_live_pi.Plugin.Delivery.Buffer.{pushed, step-nmea_buffer}

-- The sentences of calls.
abbrev pub sentences : List Call → List Text
sentences [] = []
sentences (change_state state detail ∷ cs) = sentences cs
sentences (send_sentence t ∷ cs) = t ∷ sentences cs

-- The sentence that the stream makes at a step.
abbrev pub made_by : Output → List Text
made_by (sentence t) = t ∷ []
made_by (state_changed state detail) = []
made_by (sent m) = []
made_by (dialled url header) = []

abbrev pub made : {D : Type 0} → WiredEvent D → List Text
made (output o) = made_by o
made run_next = []
made (main e) = []

abbrev pub all_made : {D : Type 0} → List (WiredEvent D) → List Text
all_made [] = []
all_made (e ∷ es) = made e ++ all_made es

-- The main loop does its own steps: no call of the stream but a pending one, and no `DeInit`.
abbrev pub KeepsCalls : {D : Type 0} → WiredEvent D → Type 0
KeepsCalls (main deinitialised) = ⊥
KeepsCalls (main (stream_state state detail)) = ⊥
KeepsCalls (main (stream_sentence t)) = ⊥
KeepsCalls _ = Unit

sentences-append : (xs ys : List Call) → sentences (xs ++ ys) ≡ sentences xs ++ sentences ys
sentences-append [] ys = refl
sentences-append (change_state state detail ∷ xs) ys = sentences-append xs ys
sentences-append (send_sentence t ∷ xs) ys = ap (t ∷◌) (sentences-append xs ys)

module _ {Q : Type 0} ⦃m : Pending Call Q⦄ (laws : PendingLaws Call Q) where
  posted :
      (call : Call) (q : Q)
      → sentences (laws.calls (m.post call q)) ≡ sentences (laws.calls q) ++ sentences (call ∷ [])
  posted call q =
      ap sentences (laws.calls-post call q) ∙ sentences-append (laws.calls q) (call ∷ [])

  pub output-line :
      (o : Output) (b : List Text) (q : Q)
      → b ++ sentences (laws.calls (post_output o q)) ≡ (b ++ sentences (laws.calls q)) ++ made_by o
  unfolding post_output
  output-line (state_changed state detail) b q =
      ap (λ x. b ++ x) (posted _ q) ∙ sym (append_assoc b _ _)
  output-line (sentence t) b q = ap (λ x. b ++ x) (posted _ q) ∙ sym (append_assoc b _ _)
  output-line (sent s) b q = sym (append-nil _)
  output-line (dialled url header) b q = sym (append-nil _)

module _ {D Q : Type 0} ⦃m : Pending Call Q⦄ where
  pub keeps :
      (e : PluginEvent D) (q : Q) → KeepsCalls (main e) → (pushed e ≡ []) × (pending_after e q ≡ q)
  unfolding pending_after
  keeps deinitialised q k = elim k [ ]
  keeps (stream_state state detail) q k = elim k [ ]
  keeps (stream_sentence t) q k = elim k [ ]
  keeps _ q k = (refl, refl)

module _ {D S Q : Type 0} (V : Type 0) ⦃wx : Wx⦄ ⦃d : Double D⦄ ⦃w : JsonWriter D V⦄
    ⦃c : Config D S⦄ ⦃m : Pending Call Q⦄ (laws : PendingLaws Call Q) where
  -- The sentences that have come to OpenCPN, and those that are pending behind them.
  abbrev pub line : Wired D S Q → List Text
  line s = s.plugin.nmea_buffer ++ sentences (laws.calls s.pending)

  main_step_lem :
      (e : PluginEvent D) (p : Plugin D S) (q : Q)
      → IfSome
          (λ t.
            (t.plugin.nmea_buffer ≡ p.nmea_buffer ++ pushed e) × (t.pending ≡ pending_after e q))
          (main_step V e p q)
  unfolding main_step
  main_step_lem e p q = elim (Option-cases (step V e p)) [
    | inl h ↦ rw (main_step, h) tt
    | inr (r, h) ↦ rw (main_step, h) (rw h at (step-nmea_buffer V e p), refl)
  ]

  main_step-line :
      (e : PluginEvent D) (p : Plugin D S) (q : Q)
      → pending_after e q ≡ q
      → IfSome
          (λ t. line t ≡ (p.nmea_buffer ++ pushed e) ++ sentences (laws.calls q))
          (main_step V e p q)
  main_step-line e p q h =
      IfSome-map (main_step V e p q) (λ t r. rw (r.0, r.1, h) refl) (main_step_lem e p q)

  own_step-line :
      (e : PluginEvent D) (p : Plugin D S) (q : Q)
      → pushed e ≡ []
      → pending_after e q ≡ q
      → IfSome (λ t. line t ≡ p.nmea_buffer ++ sentences (laws.calls q)) (main_step V e p q)
  own_step-line e p q h k = rw (h, append-nil (p.nmea_buffer)) at (main_step-line e p q k)

  run_call-line :
      (call : Call) (p : Plugin D S) (rest : Q)
      → IfSome
          (λ t. line t ≡ p.nmea_buffer ++ sentences (call ∷ laws.calls rest))
          (main_step V (run_call call) p rest)
  unfolding run_call pending_after
  run_call-line (change_state state detail) p rest =
      own_step-line (stream_state state detail) p rest refl refl
  run_call-line (send_sentence t) p rest =
      IfSome-map (main_step V (stream_sentence t) p rest)
        (λ u h. h ∙ append_assoc (p.nmea_buffer) (t ∷ []) _)
        (main_step-line (stream_sentence t) p rest refl)

  pub step-line :
      (e : WiredEvent D) (s : Wired D S Q)
      → KeepsCalls e
      → IfSome (λ t. line t ≡ line s ++ made e) (wired_step V e s)
  unfolding wired_step
  step-line (output o) s k =
      option-case (IfSome (λ t. line t ≡ line s ++ made_by o)) (s.plugin.my_gui) none _ tt
        λ b i. output-line laws o (s.plugin.nmea_buffer) (s.pending)
  step-line run_next s k = elim (Option-cases (m.take s.pending)) [
    | inl e ↦ rw (wired_step, e) tt
    | inr ((call, rest), e) ↦
        rw (wired_step, e)
          (IfSome-map (main_step V (run_call call) (s.plugin) rest)
            (λ t h.
              h
              ∙ ap (λ x. s.plugin.nmea_buffer ++ sentences x) (sym (laws.take-some _ rest call e))
              ∙ sym (append-nil _))
            (run_call-line call (s.plugin) rest))
  ]
  step-line (main e) s k =
      let (h, r) = keeps e (s.pending) k in
      IfSome-map (main_step V e (s.plugin) (s.pending)) (λ t i. i ∙ sym (append-nil _))
        (own_step-line e (s.plugin) (s.pending) h r)

  -- If `CallAfter` runs each call once and in the order of posting: as long as `DeInit` does not delete
  -- the dialog, every series of steps (outputs of the stream, calls that the main loop runs, and
  -- its other steps between them) takes each sentence that the stream has made to OpenCPN once
  -- and in order. What has come to OpenCPN, followed by what is pending, is what was there before,
  -- followed by what the stream has made since.
  pub wired_run-line :
      (es : List (WiredEvent D)) (s t : Wired D S Q)
      → All KeepsCalls es
      → wired_run V es s ≡ some t
      → line t ≡ line s ++ all_made es
  unfolding wired_run
  wired_run-line [] s t k h = ap line (sym (some-injective s t h)) ∙ sym (append-nil _)
  wired_run-line (e ∷ es) s t k h = elim (Option-cases (wired_step V e s)) [
    | inl i ↦ ground arith
    | inr (u, i) ↦
        let first = rw i at (step-line e s (k.0)) in
        let rest = wired_run-line es u t (k.1) (rw (wired_run, i) at h) in
        rest ∙ ap (λ x. x ++ all_made es) first ∙ append_assoc (line s) (made e) (all_made es)
  ]
