-- ===== src/Plugin/Delivery/Framed.antt =====
-- The way of a frame of the server to OpenCPN, from the client's threads to the plugin.
use ais_live_pi.Common.{
  ◌≡◌, some, List, [], ◌∷◌, Text, All, All-append, All-front, Bool, Bool-cases, inl, inr,
}
use ais_live_pi.Platform.Wx.{Wx, WxLaws}
use ais_live_pi.Platform.Double.{Double}
use ais_live_pi.Platform.Json.{JsonReader, JsonWriter}
use ais_live_pi.Platform.Config.{Config}
use ais_live_pi.Platform.Pending.{Pending, PendingLaws}
use ais_live_pi.Stream.Output.{
  Output, state_changed, sentence, sent, dialled, State, Callbacks, set_state,
}
use ais_live_pi.Stream.Messages.Forward.{IsFramed}
use ais_live_pi.Stream.Threads.{Action, System, run}
use ais_live_pi.Stream.Threads.Safety.{fresh_system}
use ais_live_pi.Stream.Threads.Protocol.{
  Label, Phase, IsReport, Allowed, begins, connects, dials, gives_up, subscribes, reports, breaks,
  finishes, stops, idles, returns, Trace, done, more,
}
use ais_live_pi.Stream.Threads.Schedules.{run-Trace}
use ais_live_pi.Plugin.Delivery.{Call, Wired, WiredEvent, output, run_next, main, wired_run}
use ais_live_pi.Plugin.Delivery.Order.{sentences, all_made, KeepsCalls, wired_run-line}

-- The outputs of a series of steps.
abbrev pub outputs_of : {D : Type 0} → List (WiredEvent D) → List Output
outputs_of [] = []
outputs_of (output o ∷ es) = o ∷ outputs_of es
outputs_of (run_next ∷ es) = outputs_of es
outputs_of (main e ∷ es) = outputs_of es

abbrev pub SaysFramed : Output → Type 0
SaysFramed (sentence t) = IsFramed t
SaysFramed (state_changed state detail) = Unit
SaysFramed (sent m) = Unit
SaysFramed (dialled url header) = Unit

report-SaysFramed : (o : Output) → IsReport o → SaysFramed o
report-SaysFramed (sentence t) h = h
report-SaysFramed (state_changed state detail) h = tt
report-SaysFramed (sent m) h = tt
report-SaysFramed (dialled url header) h = tt

reports-SaysFramed : (out : List Output) → All IsReport out → All SaysFramed out
reports-SaysFramed [] h = tt
reports-SaysFramed (o ∷ out) h = (report-SaysFramed o h.0, reports-SaysFramed out h.1)

pub set_state-SaysFramed :
    (cb : Callbacks) (s : State) (t : Text) → All SaysFramed (set_state cb s t)
unfolding set_state
set_state-SaysFramed cb s t = elim (Bool-cases (cb.on_state_changed)) [
  | inl e ↦ rw e (tt, tt)
  | inr e ↦ rw e tt
]

Allowed-SaysFramed :
    {cb : Callbacks} {p q : Phase} {l : Label} {out : List Output}
    → Allowed cb p l out q
    → All SaysFramed out
Allowed-SaysFramed (begins m) = tt
Allowed-SaysFramed {cb} (connects m) = set_state-SaysFramed cb _ _
Allowed-SaysFramed (dials l header h) = (tt, tt)
Allowed-SaysFramed (gives_up l) = tt
Allowed-SaysFramed {cb} (subscribes m) = (tt, set_state-SaysFramed cb _ _)
Allowed-SaysFramed (reports m out h) = reports-SaysFramed out h
Allowed-SaysFramed (breaks m out h) = reports-SaysFramed out h
Allowed-SaysFramed (finishes m) = tt
Allowed-SaysFramed {cb} (stops m) = set_state-SaysFramed cb _ _
Allowed-SaysFramed (idles p) = tt
Allowed-SaysFramed returns = tt

pub Trace-SaysFramed :
    {cb : Callbacks} {p q : Phase} {ls : List Label} {out : List Output}
    → Trace cb p ls out q
    → All SaysFramed out
Trace-SaysFramed (done p) = tt
Trace-SaysFramed (more {out = out} {rest = rest} a r) =
    All-append SaysFramed out rest (Allowed-SaysFramed a) (Trace-SaysFramed r)

all_made-IsFramed :
    {D : Type 0} (es : List (WiredEvent D))
    → All SaysFramed (outputs_of es)
    → All IsFramed (all_made es)
all_made-IsFramed [] h = tt
all_made-IsFramed (output (sentence t) ∷ es) h = (h.0, all_made-IsFramed es h.1)
all_made-IsFramed (output (state_changed s t) ∷ es) h = all_made-IsFramed es h.1
all_made-IsFramed (output (sent m) ∷ es) h = all_made-IsFramed es h.1
all_made-IsFramed (output (dialled url header) ∷ es) h = all_made-IsFramed es h.1
all_made-IsFramed (run_next ∷ es) h = all_made-IsFramed es h
all_made-IsFramed (main e ∷ es) h = all_made-IsFramed es h

module _ {D S Q : Type 0} (V W : Type 0) ⦃wx : Wx⦄ ⦃d : Double D⦄ ⦃w : JsonWriter D W⦄
    ⦃j : JsonReader V⦄ ⦃c : Config D S⦄ ⦃m : Pending Call Q⦄ (text : WxLaws)
    (laws : PendingLaws Call Q) where
  -- If the text functions keep their documented laws, and `CallAfter` runs each call once and in the
  -- order of posting: take any schedule of the two threads of a new client, and any series of
  -- steps of the plugin, with nothing pending and nothing handed to OpenCPN before, in which the
  -- stream makes just the outputs of that schedule and `DeInit` does not come. Then everything
  -- that OpenCPN is handed begins with "!AIVDM" and ends with a carriage return and line feed.
  pub delivered-IsFramed :
      (cb : Callbacks) (remembers : Bool) (as' : List Action) (t : System)
      → run V cb remembers as' fresh_system ≡ some t
      → (es : List (WiredEvent D)) (p q : Wired D S Q) → p.plugin.nmea_buffer ≡ []
      → laws.calls p.pending ≡ []
      → All KeepsCalls es
      → outputs_of es ≡ t.session.outputs
      → wired_run W es p ≡ some q
      → All IsFramed q.plugin.nmea_buffer
  delivered-IsFramed cb remembers as' t h es p q b k keep o r =
      let says = Trace-SaysFramed (run-Trace V cb text remembers as' t h) in
      let all = all_made-IsFramed es (rw o says) in
      let whole = wired_run-line W laws es p q keep r in
      All-front IsFramed (q.plugin.nmea_buffer) (sentences (laws.calls q.pending))
        (rw (whole, b, k) all)
