-- ===== src/Plugin/Live/Arrival.antt =====
-- What comes to OpenCPN over the whole life of the plugin.
use ais_live_pi.Common.{
  ◌≡◌, refl, ◌∙◌, Bool, some, List, Text, All, All-append, All-front, All-back, inl, inr,
  Option-cases,
}
use ais_live_pi.Platform.Wx.{Wx, WxLaws}
use ais_live_pi.Platform.Double.{Double}
use ais_live_pi.Platform.Json.{JsonReader, JsonWriter}
use ais_live_pi.Platform.Config.{Config}
use ais_live_pi.Platform.Pending.{Pending, PendingLaws}
use ais_live_pi.Stream.Output.{Callbacks}
use ais_live_pi.Stream.Client.{new_client}
use ais_live_pi.Stream.Messages.Forward.{IsFramed}
use ais_live_pi.Stream.Threads.{System}
use ais_live_pi.Stream.Threads.Safety.{fresh_system}
use ais_live_pi.Stream.Threads.Owner.{Together, created}
use ais_live_pi.Stream.Threads.Performs.{PerformsAll-Together}
use ais_live_pi.Gui.State.{Dialog}
use ais_live_pi.Plugin.Whole.Served.{Whole-Together, closed-still}
use ais_live_pi.Plugin.Delivery.{Call, Wired, run_next, main, wired_step}
use ais_live_pi.Plugin.Delivery.Order.{sentences, made}
use ais_live_pi.Plugin.Live.{
  handed_before, Live, begins, goes_on, runs, stays_closed, opens, handles, closes,
}
use ais_live_pi.Plugin.Live.Joins.{run_inversion, call-KeepsClient, Live-Whole}
use ais_live_pi.Plugin.Live.Posted.{
  published, Merges-published, Together-Tells, IsState, Together-IsFramed,
}
use ais_live_pi.Plugin.Live.Lines.{
  Arrives, longer-Arrives, kept-line, begins-Arrives, none_runs, stays_closed-Arrives,
  opens-Arrives, closes-Arrives,
}

module _ (D S Q V : Type 0) ⦃wx : Wx⦄ ⦃d : Double D⦄ ⦃j : JsonReader V⦄ ⦃w : JsonWriter D V⦄
    ⦃c : Config D S⦄ ⦃m : Pending Call Q⦄ (text : WxLaws) (laws : PendingLaws Call Q)
    (cb : Callbacks) (remembers : Bool) where
  together :
      (p : Wired D S Q) (s : System) (b : Dialog D)
      → Live D S Q V cb remembers p s
      → p.plugin.my_gui ≡ some b
      → Together D V cb remembers b.ais_stream s
  together p s b h n =
      Whole-Together D S V cb remembers p.plugin s b (Live-Whole D S Q V cb remembers p s h) n

  runs-Arrives :
      (earlier : List Text) (p q : Wired D S Q) (s : System)
      → wired_step V run_next p ≡ some q
      → Arrives V laws earlier p.plugin.my_gui p s
      → Arrives V laws earlier q.plugin.my_gui q s
  runs-Arrives earlier p q s r v =
      let (call, rest, taken, k, left) = run_inversion V p q r in
      let same = rw k at (call-KeepsClient V call p.plugin) in
      elim (Option-cases p.plugin.my_gui) [
        | inl n ↦ elim (none_runs V laws p q (rw n at v).0 r) [ ]
        | inr (a, n) ↦ elim (Option-cases q.plugin.my_gui) [
          | inl i ↦ elim (rw (n, i) at same) [ ]
          | inr (b, i) ↦
              let (whole, framed) = rw n at v in
              rw i (kept-line V laws run_next p q tt refl r ∙ whole, framed)
        ]
      ]

  Live-Arrives :
      (p : Wired D S Q) (s : System) (h : Live D S Q V cb remembers p s)
      → Arrives V laws (handed_before h) p.plugin.my_gui p s
  Live-Arrives _ s (begins config tool menu x y z v) =
      begins-Arrives V laws config tool menu x y z v s
  Live-Arrives _ t (goes_on choice p s _ made h k e) = elim (Option-cases p.plugin.my_gui) [
    | inl n ↦
        elim (closed-still D S V cb remembers choice p.plugin s t
          (Live-Whole D S Q V cb remembers p s h) n k) [ ]
    | inr (b, n) ↦ rw n (
        longer-Arrives V laws (handed_before h) b p p s t made made (rw n at (Live-Arrives p s h))
          refl e refl)
  ]
  Live-Arrives q s (runs p _ _ h r) = runs-Arrives (handed_before h) p q s r (Live-Arrives p s h)
  Live-Arrives q s (stays_closed e p _ _ h own n r i) =
      rw i
        (stays_closed-Arrives V laws (handed_before h) e p q s own r (rw n at (Live-Arrives p s h)))
  Live-Arrives _ t (opens e p q b xs s _ posted h keep n r i l x merge) =
      let v = PerformsAll-Together D V cb remembers xs new_client fresh_system t created x in
      let tells = Together-Tells D V cb remembers b.ais_stream t (rw l at v) in
      rw i (
        opens-Arrives V laws (handed_before h) b p q s t posted (rw n at (Live-Arrives p s h))
          (kept-line V laws (main e) p q keep refl r) (Merges-published merge tells))
  Live-Arrives _ t
        (handles e p q a b xs s _ made refused posted h keep n r i l x grown told merge) =
      let v = PerformsAll-Together D V cb remembers xs a.ais_stream s t (together p s a h n) x in
      let tells = Together-Tells D V cb remembers b.ais_stream t (rw l at v) in
      let refused-is = All-back IsState a.ais_stream.outputs refused (rw told at tells) in
      rw i (
        longer-Arrives V laws (handed_before h) b p q s t made posted (rw n at (Live-Arrives p s h))
          (kept-line V laws (main e) p q keep refl r) grown (Merges-published merge refused-is))
  Live-Arrives q t (closes p _ a xs s _ h n r i x) =
      let fresh = Together-IsFramed D V cb remembers text a.ais_stream s (together p s a h n) in
      rw i
        (closes-Arrives V laws (handed_before h) a p q s t r fresh (rw n at (Live-Arrives p s h)))

  Arrives-IsFramed :
      (earlier : List Text) (b : Dialog D) (p : Wired D S Q) (s : System)
      → Arrives V laws earlier (some b) p s
      → All IsFramed (published s.session.outputs)
      → All IsFramed p.plugin.nmea_buffer
  Arrives-IsFramed earlier b p s (whole, framed) fresh =
      All-front IsFramed p.plugin.nmea_buffer (sentences (laws.calls p.pending))
        (rw whole (All-append IsFramed earlier _ framed fresh))

  -- If the text functions keep their documented laws, and `CallAfter` runs each call once and in the
  -- order of posting: from `Init` on, whatever OpenCPN calls and the user does, through any number
  -- of windows, and whatever steps the supervisors make during the handlers and between them,
  -- everything that OpenCPN has been handed begins with "!AIVDM" and ends with a carriage return
  -- and a line feed. While there is a dialog, what OpenCPN has been handed, followed by what is
  -- pending, is what it had been handed when the dialog was made, all of that form, followed by all
  -- that the threads of its client have published so far, each sentence once and in order. Without
  -- a dialog nothing is pending.
  pub Live-IsFramed :
      (p : Wired D S Q) (s : System) (h : Live D S Q V cb remembers p s)
      → All IsFramed p.plugin.nmea_buffer × Arrives V laws (handed_before h) p.plugin.my_gui p s
  Live-IsFramed p s h = elim (Option-cases p.plugin.my_gui) [
    | inl n ↦ ((rw n at (Live-Arrives p s h)).1, Live-Arrives p s h)
    | inr (b, n) ↦ (
      Arrives-IsFramed (handed_before h) b p s (rw n at (Live-Arrives p s h))
          (Together-IsFramed D V cb remembers text b.ais_stream s (together p s b h n)),
      Live-Arrives p s h,
    )
  ]
