-- ===== src/Plugin/Live/Shown.antt =====
-- What the window shows of the stream's state (main_ui_derived.cpp).
use ais_live_pi.Common.{◌≡◌, Option, none, some, List, [], ◌∷◌, Text, codes}
use ais_live_pi.Platform.Wx.{Wx}
use ais_live_pi.Platform.Double.{Double}
use ais_live_pi.Platform.Config.{Config}
use ais_live_pi.Platform.Pending.{Pending}
use ais_live_pi.Stream.Output.{Output, state_changed, sentence, sent, dialled}
use ais_live_pi.Gui.Streaming.{state_text}
use ais_live_pi.Plugin.State.{Plugin}
use ais_live_pi.Plugin.Delivery.{Call, change_state, send_sentence}
use ais_live_pi.Plugin.Live.{Live}

-- A label after some reports: the last state that was reported, if one was.
abbrev pub shown_after : Text → List Output → Text
shown_after t [] = t
shown_after t (state_changed state detail ∷ os) = shown_after (state_text state detail) os
shown_after t (sentence x ∷ os) = shown_after t os
shown_after t (sent m ∷ os) = shown_after t os
shown_after t (dialled url header ∷ os) = shown_after t os

-- A label after some calls have run.
abbrev pub label_after : Text → List Call → Text
label_after t [] = t
label_after t (change_state state detail ∷ cs) = label_after (state_text state detail) cs
label_after t (send_sentence x ∷ cs) = label_after t cs

-- The label of a window, with the calls that are pending and all reports since it was made; without a
-- window nothing is pending.
abbrev pub Shows : Option Text → List Call → List Output → Type 0
Shows none cs os = cs ≡ []
Shows (some t) cs os = label_after t cs ≡ shown_after (codes "Not running") os

-- The label that a call leaves.
abbrev after_call : Call → Option Text → Option Text
after_call call none = none
after_call (change_state state detail) (some t) = some (state_text state detail)
after_call (send_sentence x) (some t) = some t
