-- ===== src/Tests/Delivery.antt =====
-- Examples of the properties of the plugin over its steps, and of the way of a sentence to OpenCPN.
use ais_live_pi.Common.{
  ℕ, ◌*◌, ◌+◌, ◌≡◌, refl, ap, Option, none, some, List, [], ◌∷◌, ◌++◌, codes, arith,
}
use mathlib.Core.Option.{some-injective}
use ais_live_pi.Common.Int.{pos}
use ais_live_pi.Platform.Pending.{Pending, PendingLaws}
use ais_live_pi.Stream.Output.{sentence, state_changed, running}
use ais_live_pi.Gui.Events.{click_add}
use ais_live_pi.Plugin.State.{Plugin}
use ais_live_pi.Plugin.Lifecycle.{init}
use ais_live_pi.Plugin.Steps.{toolbar_pressed, cursor_moved, gui_event, step}
use ais_live_pi.Plugin.Delivery.{
  Call, Wired, WiredEvent, output, run_next, main, wired_step, wired_run,
}
use ais_live_pi.Plugin.Delivery.Order.{line, wired_run-line}
use ais_live_pi.Plugin.Mirrored.{IsMirrored}
use ais_live_pi.Plugin.Mirrored.Usual.{
  UsuallyReachable, started, stepped, UsuallyReachable-IsMirrored,
}
use ais_live_pi.Plugin.Information.{Package, get_api_version_major, get_api_version_minor}
use ais_live_pi.Plugin.Information.Version.{Writes, one, more, api_version_lem}
use ais_live_pi.Tests.Text.{digit_wx, digit_laws}
use ais_live_pi.Tests.Sample.{nat_double, Json, json_reader, json_writer, Store, list_config}
use ais_live_pi.Tests.Gui.{small_window}
use ais_live_pi.Tests.Plugin.{loaded_plugin, opened_plugin, busy_plugin}

-- Calls in a list.
abbrev pub next_call : List Call → Option (Call × List Call)
next_call [] = none
next_call (c ∷ cs) = some (c, cs)

instance abbrev pub call_list : Pending Call (List Call)
call_list = record { empty = []; post = λ c q. q ++ c ∷ []; take = next_call }

next_call-some : (q r : List Call) (c : Call) → next_call q ≡ some (c, r) → q ≡ c ∷ r
next_call-some [] r c h = ground arith
next_call-some (x ∷ xs) r c h =
    ap (λ (z : Call × List Call). z.0 ∷ z.1) (some-injective (x, xs) (c, r) h)

pub call_laws : PendingLaws Call (List Call)
call_laws = record {
  calls = λ q. q;
  calls-empty = refl;
  calls-post = λ c q. refl;
  take-none = λ q h. ap next_call h;
  take-some = next_call-some;
}

abbrev wired : Wired ℕ Store (List Call)
wired = record { plugin = busy_plugin; pending = [] }

abbrev wired_after : List (WiredEvent ℕ) → Wired ℕ Store (List Call)
wired_after es = elim (wired_run Json es wired) [ none ↦ wired | some t ↦ t ]

-- Two sentences, of which the first is run, between a report and a move of the cursor.
abbrev delivering : List (WiredEvent ℕ)
delivering =
    output (sentence (codes "a"))
    ∷ output (state_changed running [])
    ∷ main (cursor_moved 4 5)
    ∷ output (sentence (codes "b"))
    ∷ run_next
    ∷ []

wired_run-line_example : line Json call_laws (wired_after delivering) ≡ codes "a" ∷ codes "b" ∷ []
unfolding wired_run wired_step step ais_live_pi.Plugin.State.set_cursor_lat_lon
    ais_live_pi.Plugin.Delivery.post_output ais_live_pi.Plugin.Delivery.pending_after
    ais_live_pi.Plugin.Delivery.run_call call_laws
wired_run-line_example =
    wired_run-line Json call_laws delivering wired (wired_after delivering)
      (tt, (tt, (tt, (tt, (tt, tt))))) refl

opened_plugin-UsuallyReachable : UsuallyReachable Json opened_plugin
unfolding step init ais_live_pi.Plugin.Lifecycle.load_settings
    ais_live_pi.Settings.Store.load_settings ais_live_pi.Settings.Store.load_tokens
opened_plugin-UsuallyReachable =
    stepped loaded_plugin opened_plugin (toolbar_pressed small_window 7)
      (started (some []) 7 8 0 0 0 0 tt) tt refl

UsuallyReachable-IsMirrored_example :
    IsMirrored opened_plugin
    × ((q : Plugin ℕ Store) × (step Json (gui_event click_add) opened_plugin ≡ some q)
        × IsMirrored q)
unfolding step ais_live_pi.Plugin.Toolbar.on_toolbar_tool_callback init
    ais_live_pi.Plugin.Lifecycle.load_settings ais_live_pi.Plugin.Toolbar.toggle
    ais_live_pi.Plugin.Toolbar.create_gui ais_live_pi.Plugin.State.on_gui
UsuallyReachable-IsMirrored_example =
    UsuallyReachable-IsMirrored Json digit_laws opened_plugin (gui_event click_add)
      opened_plugin-UsuallyReachable tt

-- "1.20"
abbrev sample_package : Package
sample_package = record {
  api_version = codes "1.20";
  plugin_version_major = pos 1;
  plugin_version_minor = pos 0;
  plugin_version_patch = pos 0;
  plugin_api_name = codes "AisLive";
  pkg_name = codes "aislive_pi";
  pkg_summary = [];
  pkg_description = [];
}

twenty : Writes (codes "20") (2 * 10 + 0)
twenty = more 0 (omega arith) (one 2 (omega arith))

api_version_lem_example :
    (get_api_version_major sample_package ≡ some (pos 1))
    × (get_api_version_minor sample_package ≡ some (pos 20))
    × (get_api_version_major (record sample_package { api_version = codes "1" }) ≡ some (pos 1))
    × (get_api_version_minor (record sample_package { api_version = codes "1" }) ≡ some (pos 1))
api_version_lem_example =
    api_version_lem sample_package (one 1 (omega arith)) twenty (omega arith) (omega arith)
