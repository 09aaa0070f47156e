-- ===== src/Tests/Whole.antt =====
-- The whole program, on the libraries of Sample: the button opens the window, its Start button
-- starts the stream, and the supervisor reports that it connects.
use ais_live_pi.Common.{IfSome, ℕ, ◌≡◌, refl, true, false, none, some, [], ◌∷◌}
use ais_live_pi.Stream.Client
use ais_live_pi.Stream.Client.{Client, new_client, launch_for}
use ais_live_pi.Stream.Client.Replay.{set_state_callback, set_token_enabled, set_token, start}
use ais_live_pi.Stream.Threads.{Action, System, supervisor, proceed, idle, run, step}
use ais_live_pi.Stream.Threads.Safety.{fresh_system}
use ais_live_pi.Stream.Threads.Owner.{is_launched}
use ais_live_pi.Stream.Threads.Performs.{
  sets_callback, enables, sets_token, starts, done, meanwhile, next,
}
use ais_live_pi.Gui.State.{Dialog, default_dialog}
use ais_live_pi.Gui.Streaming.{request}
use ais_live_pi.Gui.Events.{click_start}
use ais_live_pi.Plugin.State.{Plugin}
use ais_live_pi.Plugin.Steps
use ais_live_pi.Plugin.Steps.{toolbar_pressed, gui_event}
use ais_live_pi.Plugin.Passes.Steps.{Follows, step-Follows}
use ais_live_pi.Plugin.Whole.{gui_of, Whole, loaded, opened, handled, IsServed}
use ais_live_pi.Plugin.Whole.Served.{Whole-IsServed}
use ais_live_pi.Tests.Sample.{nat_double, Json, json_reader, json_writer, Store, list_config}
use ais_live_pi.Tests.Text.{digit_wx}
use ais_live_pi.Tests.Stream.{both_set}
use ais_live_pi.Tests.Threads.{state_after}
use ais_live_pi.Tests.Gui.{small_window}
use ais_live_pi.Plugin.Lifecycle.{init}

-- Without a configuration.
abbrev pub loaded_plugin : Plugin ℕ Store
loaded_plugin = init none 7 8 0 0 0 0

abbrev pub opened_plugin : Plugin ℕ Store
opened_plugin = elim (Steps.step Json (toolbar_pressed small_window 7) loaded_plugin) [
  | none ↦ loaded_plugin
  | some p ↦ p
]

abbrev pub dialog_of : Plugin ℕ Store → Dialog ℕ
dialog_of p = elim p.my_gui [ none ↦ default_dialog small_window | some b ↦ b ]

abbrev pub started_plugin : Plugin ℕ Store
started_plugin = elim (Steps.step Json (gui_event click_start) opened_plugin) [
  | none ↦ opened_plugin
  | some p ↦ p
]

-- The client when its methods for the token have been called, and the message of the start.
abbrev pub enabled_client : Client
enabled_client =
    Client.set_token_enabled false (Client.set_token [] (dialog_of opened_plugin).ais_stream)

abbrev pub first_request : Client.Request ℕ
first_request = request (gui_of opened_plugin (dialog_of opened_plugin))

abbrev pub launched : System
launched = state_after (Action.start (launch_for Json enabled_client first_request) ∷ [])

abbrev pub connecting : System
connecting =
    state_after
      (Action.start (launch_for Json enabled_client first_request) ∷ supervisor proceed ∷ [])

opened-Whole : Whole ℕ Store Json both_set true opened_plugin fresh_system
unfolding Steps.step new_client default_dialog init Client.set_state_callback
    ais_live_pi.Plugin.Toolbar.on_toolbar_tool_callback ais_live_pi.Plugin.Toolbar.create_gui
    ais_live_pi.Plugin.Toolbar.toggle ais_live_pi.Plugin.Toolbar.show_gui
    ais_live_pi.Plugin.Toolbar.restore_geometry ais_live_pi.Plugin.Lifecycle.load_settings
    ais_live_pi.Plugin.State.on_gui ais_live_pi.Gui.Dialog.new_gui
    ais_live_pi.Gui.Dialog.register_callback ais_live_pi.Gui.Dialog.fill_widgets
    ais_live_pi.Gui.Search.update_search_box_size ais_live_pi.Gui.Streaming.restart_ais_stream
opened-Whole =
    opened (toolbar_pressed small_window 7) loaded_plugin opened_plugin (dialog_of opened_plugin)
      (set_state_callback ∷ []) fresh_system fresh_system (loaded none 7 8 0 0 0 0) refl refl refl
      refl
      (next set_state_callback [] new_client fresh_system fresh_system fresh_system
        (sets_callback new_client fresh_system) (done _ fresh_system))

started-Whole : Whole ℕ Store Json both_set true started_plugin connecting
unfolding Steps.step new_client default_dialog init Client.set_state_callback
    ais_live_pi.Plugin.Toolbar.on_toolbar_tool_callback ais_live_pi.Plugin.Toolbar.create_gui
    ais_live_pi.Plugin.Toolbar.toggle ais_live_pi.Plugin.Toolbar.show_gui
    ais_live_pi.Plugin.Toolbar.restore_geometry ais_live_pi.Plugin.Lifecycle.load_settings
    ais_live_pi.Plugin.State.on_gui ais_live_pi.Gui.Dialog.new_gui
    ais_live_pi.Gui.Dialog.register_callback ais_live_pi.Gui.Dialog.fill_widgets
    ais_live_pi.Gui.Search.update_search_box_size ais_live_pi.Gui.Streaming.restart_ais_stream
    Steps.window_step Client.start Client.set_token Client.set_token_enabled
    ais_live_pi.Gui.Events.handle ais_live_pi.Gui.Streaming.start_ais_stream
    ais_live_pi.Gui.Streaming.update_token ais_live_pi.Settings.Globals.has_token
    ais_live_pi.Settings.Globals.initial_globals step run ais_live_pi.Stream.Threads.begin_start
    ais_live_pi.Stream.Threads.supervise ais_live_pi.Stream.Threads.proceed_from
    ais_live_pi.Stream.Threads.report
started-Whole =
    handled (gui_event click_start) opened_plugin started_plugin (dialog_of opened_plugin)
      (dialog_of started_plugin) (set_token [] ∷ set_token_enabled false ∷ start first_request ∷ [])
      fresh_system connecting opened-Whole refl refl refl refl
      (next (set_token []) _ _ fresh_system fresh_system connecting (sets_token [] _ fresh_system) (
        next (set_token_enabled false) _ _ fresh_system fresh_system connecting
          (enables false _ fresh_system)
          (next (start first_request) [] enabled_client fresh_system launched connecting
            (starts first_request enabled_client fresh_system launched
              (is_launched first_request enabled_client fresh_system launched refl refl refl))
            (meanwhile proceed [] _ launched connecting connecting refl (done _ connecting)))))

Whole-IsServed_example :
    (connecting.caller ≡ idle)
    × IsServed Json started_plugin.globals started_plugin.my_gui connecting
Whole-IsServed_example =
    Whole-IsServed ℕ Store Json both_set true started_plugin connecting started-Whole

step-Follows_example :
    IfSome
      (Follows Json loaded_plugin)
      (Steps.step Json (toolbar_pressed small_window 7) loaded_plugin)
step-Follows_example = step-Follows Json (toolbar_pressed small_window 7) loaded_plugin
