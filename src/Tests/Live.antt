-- ===== src/Tests/Live.antt =====
-- The whole program on the libraries of Sample: the button opens the window, its Start button starts
-- the stream, a session opens and publishes a sentence, and the main loop hands it on.
use ais_live_pi.Common.{
  ℕ, zero, suc, ◌≡◌, refl, true, false, none, some, List, [], ◌∷◌, ◌++◌, All, map, length,
}
use ais_live_pi.Stream.Output.{Output}
use ais_live_pi.Stream.Client
use ais_live_pi.Stream.Client.{new_client, launch_for}
use ais_live_pi.Stream.Client.Replay.{set_state_callback, set_token_enabled, set_token, start}
use ais_live_pi.Stream.Messages.Forward.{IsFramed}
use ais_live_pi.Stream.Session.{opened, message}
use ais_live_pi.Stream.Threads.{Action, System, Choice, supervisor, proceed, callback}
use ais_live_pi.Stream.Threads.Safety.{fresh_system}
use ais_live_pi.Stream.Threads.Owner.{is_launched}
use ais_live_pi.Stream.Threads.Performs.{
  sets_callback, enables, sets_token, starts, done, meanwhile, next,
}
use ais_live_pi.Gui.Events.{click_start}
use ais_live_pi.Plugin.Steps.{toolbar_pressed, gui_event}
use ais_live_pi.Plugin.Delivery.{Call, Wired, WiredEvent, run_next, main, wired_step}
use ais_live_pi.Plugin.Live.{
  both_end, from_first, posting, Live, begins, goes_on, runs, opens, handles,
}
use ais_live_pi.Plugin.Live.Arrival.{Live-IsFramed}
use ais_live_pi.Plugin.Live.Lines.{Arrives}
use ais_live_pi.Tests.Sample.{nat_double, Json, json_reader, json_writer, Store, list_config}
use ais_live_pi.Tests.Text.{digit_wx, digit_laws}
use ais_live_pi.Tests.Stream.{both_set}
use ais_live_pi.Tests.Threads.{state_after}
use ais_live_pi.Tests.Gui.{small_window}
use ais_live_pi.Tests.Delivery.{call_list, call_laws}
use ais_live_pi.Tests.Whole.{
  loaded_plugin, opened_plugin, dialog_of, started_plugin, enabled_client, first_request, launched,
  connecting,
}

abbrev Program : Type 0
Program = Wired ℕ Store (List Call)

abbrev IsLive : Program → System → Type 0
IsLive = Live ℕ Store (List Call) Json both_set true

abbrev after : WiredEvent ℕ → Program → Program
after e p = elim (wired_step Json e p) [ none ↦ p | some q ↦ q ]

abbrev drop : ℕ → List Output → List Output
drop zero xs = xs
drop (suc n) [] = []
drop (suc n) (x ∷ xs) = drop n xs

-- The threads after the start and these steps of the supervisor.
abbrev system_after : List Choice → System
system_after cs =
    state_after (Action.start (launch_for Json enabled_client first_request) ∷ map supervisor cs)

abbrev running_system : System
running_system = system_after (proceed ∷ proceed ∷ proceed ∷ callback opened ∷ [])

abbrev receiving_system : System
receiving_system =
    system_after (proceed ∷ proceed ∷ proceed ∷ callback opened ∷ callback (message (1 ∷ [])) ∷ [])

abbrev published_system : System
published_system = system_after (proceed ∷ proceed ∷ [])

abbrev dialled_system : System
dialled_system = system_after (proceed ∷ proceed ∷ proceed ∷ [])

abbrev loaded_program : Program
loaded_program = record { plugin = loaded_plugin; pending = [] }

abbrev opened_program : Program
opened_program = record { plugin = opened_plugin; pending = [] }

abbrev started_program : Program
started_program =
    posting connecting.session.outputs (record { plugin = started_plugin; pending = [] })

abbrev dialled_program : Program
dialled_program = posting (drop 1 dialled_system.session.outputs) started_program

abbrev running_program : Program
running_program = posting (drop 2 running_system.session.outputs) dialled_program

abbrev receiving_program : Program
receiving_program = posting (drop 4 receiving_system.session.outputs) running_program

abbrev delivered_program : Program
delivered_program = after run_next (after run_next (after run_next receiving_program))

opened_program-Live : IsLive opened_program fresh_system
unfolding wired_step ais_live_pi.Plugin.Lifecycle.init ais_live_pi.Plugin.Lifecycle.load_settings
    ais_live_pi.Plugin.Steps.step ais_live_pi.Plugin.Delivery.pending_after
    ais_live_pi.Plugin.Toolbar.on_toolbar_tool_callback ais_live_pi.Plugin.Toolbar.toggle
    ais_live_pi.Plugin.Toolbar.create_gui ais_live_pi.Plugin.State.on_gui
    ais_live_pi.Plugin.Toolbar.show_gui Client.set_state_callback
    ais_live_pi.Plugin.Toolbar.restore_geometry ais_live_pi.Gui.Dialog.new_gui
    ais_live_pi.Gui.Dialog.register_callback ais_live_pi.Gui.Dialog.fill_widgets new_client
    ais_live_pi.Gui.Search.update_search_box_size ais_live_pi.Gui.Streaming.restart_ais_stream
    ais_live_pi.Gui.State.default_dialog
opened_program-Live =
    opens (toolbar_pressed small_window 7) loaded_program opened_program (dialog_of opened_plugin)
      (set_state_callback ∷ []) fresh_system fresh_system [] (begins none 7 8 0 0 0 0) tt refl refl
      refl refl
      (next set_state_callback [] new_client fresh_system fresh_system fresh_system
        (sets_callback new_client fresh_system) (done _ fresh_system))
      both_end

started_program-Live : IsLive started_program connecting
unfolding wired_step ais_live_pi.Plugin.Lifecycle.init ais_live_pi.Plugin.Lifecycle.load_settings
    ais_live_pi.Plugin.Steps.step ais_live_pi.Plugin.Delivery.pending_after
    ais_live_pi.Plugin.Toolbar.on_toolbar_tool_callback ais_live_pi.Plugin.Toolbar.toggle
    ais_live_pi.Plugin.Toolbar.create_gui ais_live_pi.Plugin.State.on_gui
    ais_live_pi.Plugin.Toolbar.show_gui Client.set_state_callback
    ais_live_pi.Plugin.Toolbar.restore_geometry ais_live_pi.Gui.Dialog.new_gui
    ais_live_pi.Gui.Dialog.register_callback ais_live_pi.Gui.Dialog.fill_widgets new_client
    ais_live_pi.Gui.Search.update_search_box_size ais_live_pi.Gui.Streaming.restart_ais_stream
    ais_live_pi.Gui.State.default_dialog ais_live_pi.Plugin.Steps.window_step Client.start
    Client.set_token Client.set_token_enabled ais_live_pi.Gui.Events.handle
    ais_live_pi.Gui.Streaming.start_ais_stream ais_live_pi.Gui.Streaming.update_token
    ais_live_pi.Settings.Globals.has_token ais_live_pi.Settings.Globals.initial_globals
    ais_live_pi.Plugin.Delivery.main_step ais_live_pi.Stream.Threads.step
    ais_live_pi.Stream.Threads.run ais_live_pi.Stream.Threads.begin_start
    ais_live_pi.Stream.Threads.supervise ais_live_pi.Stream.Threads.proceed_from
    ais_live_pi.Stream.Threads.report ais_live_pi.Stream.Output.set_state
started_program-Live =
    handles (gui_event click_start) opened_program
      (record { plugin = started_plugin; pending = [] }) (dialog_of opened_plugin)
      (dialog_of started_plugin) (set_token [] ∷ set_token_enabled false ∷ start first_request ∷ [])
      fresh_system connecting connecting.session.outputs [] connecting.session.outputs
      opened_program-Live tt refl refl refl refl
      (next (set_token []) _ _ fresh_system fresh_system connecting (sets_token [] _ fresh_system) (
        next (set_token_enabled false) _ _ fresh_system fresh_system connecting
          (enables false _ fresh_system)
          (next (start first_request) [] enabled_client fresh_system launched connecting
            (starts first_request enabled_client fresh_system launched
              (is_launched first_request enabled_client fresh_system launched refl refl refl))
            (meanwhile proceed [] _ launched connecting connecting refl (done _ connecting)))))
      refl refl (from_first _ [] [] [] both_end)

dialled_program-Live : IsLive dialled_program dialled_system
unfolding wired_step ais_live_pi.Stream.Threads.step ais_live_pi.Stream.Threads.supervise
    ais_live_pi.Stream.Threads.run ais_live_pi.Stream.Threads.begin_start
    ais_live_pi.Stream.Threads.proceed_from ais_live_pi.Stream.Threads.report
    ais_live_pi.Stream.Output.set_state ais_live_pi.Stream.Threads.dial
dialled_program-Live =
    goes_on proceed started_program published_system dialled_system
      (drop 1 dialled_system.session.outputs)
      (goes_on proceed started_program connecting published_system [] started_program-Live refl
        refl)
      refl refl

running_program-Live : IsLive running_program running_system
unfolding wired_step ais_live_pi.Stream.Threads.step ais_live_pi.Stream.Threads.supervise
    ais_live_pi.Stream.Threads.run ais_live_pi.Stream.Threads.begin_start
    ais_live_pi.Stream.Threads.proceed_from ais_live_pi.Stream.Threads.report
    ais_live_pi.Stream.Threads.dial ais_live_pi.Stream.Threads.run_step
    ais_live_pi.Stream.Output.set_state ais_live_pi.Stream.Threads.after_callback
    ais_live_pi.Stream.Session.on_event
running_program-Live =
    goes_on (callback opened) dialled_program dialled_system running_system
      (drop 2 running_system.session.outputs) dialled_program-Live refl refl

receiving_program-Live : IsLive receiving_program receiving_system
unfolding wired_step ais_live_pi.Stream.Threads.step ais_live_pi.Stream.Threads.run
    ais_live_pi.Stream.Threads.begin_start ais_live_pi.Stream.Threads.supervise
    ais_live_pi.Stream.Threads.proceed_from ais_live_pi.Stream.Threads.report
    ais_live_pi.Stream.Threads.dial ais_live_pi.Stream.Threads.run_step
    ais_live_pi.Stream.Threads.after_callback ais_live_pi.Stream.Session.on_event
    ais_live_pi.Stream.Messages.handle_message ais_live_pi.Stream.Messages.handle_event
    ais_live_pi.Stream.Messages.frame_type ais_live_pi.Common.text_eq
    ais_live_pi.Stream.Messages.process_ais_event ais_live_pi.Stream.Messages.process_nmea
    ais_live_pi.Stream.Messages.send_sentences ais_live_pi.Stream.Messages.c_str
    ais_live_pi.Stream.Messages.deliver ais_live_pi.Stream.Messages.element_sentence
    ais_live_pi.Stream.Messages.nmea_sentence ais_live_pi.Stream.Output.set_state
    ais_live_pi.Stream.Session.after_message
receiving_program-Live =
    goes_on (callback (message (1 ∷ []))) running_program running_system receiving_system
      (drop 4 receiving_system.session.outputs) running_program-Live refl refl

delivered_program-Live : IsLive delivered_program receiving_system
unfolding ais_live_pi.Stream.Threads.step ais_live_pi.Stream.Threads.run
    ais_live_pi.Stream.Threads.begin_start ais_live_pi.Stream.Threads.supervise
    ais_live_pi.Stream.Threads.proceed_from ais_live_pi.Stream.Threads.report
    ais_live_pi.Stream.Threads.dial ais_live_pi.Stream.Threads.run_step
    ais_live_pi.Stream.Threads.after_callback ais_live_pi.Stream.Session.on_event
    ais_live_pi.Stream.Messages.handle_message ais_live_pi.Stream.Messages.handle_event
    ais_live_pi.Stream.Messages.frame_type ais_live_pi.Common.text_eq
    ais_live_pi.Stream.Messages.process_ais_event ais_live_pi.Stream.Messages.process_nmea
    ais_live_pi.Stream.Messages.send_sentences ais_live_pi.Stream.Messages.c_str
    ais_live_pi.Stream.Messages.deliver ais_live_pi.Stream.Messages.element_sentence
    ais_live_pi.Stream.Messages.nmea_sentence ais_live_pi.Stream.Output.set_state
    ais_live_pi.Stream.Session.after_message wired_step ais_live_pi.Plugin.Lifecycle.init
    ais_live_pi.Plugin.Lifecycle.load_settings ais_live_pi.Plugin.Steps.step
    ais_live_pi.Plugin.Delivery.pending_after ais_live_pi.Plugin.Toolbar.on_toolbar_tool_callback
    ais_live_pi.Plugin.Toolbar.toggle ais_live_pi.Plugin.Toolbar.create_gui
    ais_live_pi.Plugin.State.on_gui ais_live_pi.Plugin.Toolbar.show_gui Client.set_state_callback
    ais_live_pi.Plugin.Toolbar.restore_geometry ais_live_pi.Gui.Dialog.new_gui
    ais_live_pi.Gui.Dialog.register_callback ais_live_pi.Gui.Dialog.fill_widgets new_client
    ais_live_pi.Gui.Search.update_search_box_size ais_live_pi.Gui.Streaming.restart_ais_stream
    ais_live_pi.Gui.State.default_dialog ais_live_pi.Plugin.Steps.window_step Client.start
    Client.set_token Client.set_token_enabled ais_live_pi.Gui.Events.handle
    ais_live_pi.Gui.Streaming.start_ais_stream ais_live_pi.Gui.Streaming.update_token
    ais_live_pi.Settings.Globals.has_token ais_live_pi.Settings.Globals.initial_globals
    ais_live_pi.Plugin.Delivery.main_step ais_live_pi.Plugin.Delivery.run_call
    ais_live_pi.Plugin.Delivery.post_output ais_live_pi.Gui.Streaming.on_ais_stream_state_changed
    ais_live_pi.Plugin.State.send_nmea_sentence
delivered_program-Live =
    runs (after run_next (after run_next receiving_program)) delivered_program receiving_system
      (runs (after run_next receiving_program) (after run_next (after run_next receiving_program))
        receiving_system
        (runs receiving_program (after run_next receiving_program) receiving_system
          receiving_program-Live refl)
        refl)
      refl

-- A sentence has been handed to OpenCPN.
delivered : length delivered_program.plugin.nmea_buffer ≡ 1
unfolding ais_live_pi.Stream.Threads.step ais_live_pi.Stream.Threads.run
    ais_live_pi.Stream.Threads.begin_start ais_live_pi.Stream.Threads.supervise
    ais_live_pi.Stream.Threads.proceed_from ais_live_pi.Stream.Threads.report
    ais_live_pi.Stream.Threads.dial ais_live_pi.Stream.Threads.run_step
    ais_live_pi.Stream.Threads.after_callback ais_live_pi.Stream.Session.on_event
    ais_live_pi.Stream.Messages.handle_message ais_live_pi.Stream.Messages.handle_event
    ais_live_pi.Stream.Messages.frame_type ais_live_pi.Common.text_eq
    ais_live_pi.Stream.Messages.process_ais_event ais_live_pi.Stream.Messages.process_nmea
    ais_live_pi.Stream.Messages.send_sentences ais_live_pi.Stream.Messages.c_str
    ais_live_pi.Stream.Messages.deliver ais_live_pi.Stream.Messages.element_sentence
    ais_live_pi.Stream.Messages.nmea_sentence ais_live_pi.Stream.Output.set_state
    ais_live_pi.Stream.Session.after_message wired_step ais_live_pi.Plugin.Lifecycle.init
    ais_live_pi.Plugin.Lifecycle.load_settings ais_live_pi.Plugin.Steps.step
    ais_live_pi.Plugin.Delivery.pending_after ais_live_pi.Plugin.Toolbar.on_toolbar_tool_callback
    ais_live_pi.Plugin.Toolbar.toggle ais_live_pi.Plugin.Toolbar.create_gui
    ais_live_pi.Plugin.State.on_gui ais_live_pi.Plugin.Toolbar.show_gui Client.set_state_callback
    ais_live_pi.Plugin.Toolbar.restore_geometry ais_live_pi.Gui.Dialog.new_gui
    ais_live_pi.Gui.Dialog.register_callback ais_live_pi.Gui.Dialog.fill_widgets new_client
    ais_live_pi.Gui.Search.update_search_box_size ais_live_pi.Gui.Streaming.restart_ais_stream
    ais_live_pi.Gui.State.default_dialog ais_live_pi.Plugin.Steps.window_step Client.start
    Client.set_token Client.set_token_enabled ais_live_pi.Gui.Events.handle
    ais_live_pi.Gui.Streaming.start_ais_stream ais_live_pi.Gui.Streaming.update_token
    ais_live_pi.Settings.Globals.has_token ais_live_pi.Settings.Globals.initial_globals
    ais_live_pi.Plugin.Delivery.main_step ais_live_pi.Plugin.Delivery.run_call
    ais_live_pi.Plugin.Delivery.post_output ais_live_pi.Gui.Streaming.on_ais_stream_state_changed
    ais_live_pi.Plugin.State.send_nmea_sentence
delivered = refl

Live-IsFramed_example :
    All IsFramed delivered_program.plugin.nmea_buffer
    × Arrives Json call_laws [] delivered_program.plugin.my_gui delivered_program receiving_system
unfolding delivered_program-Live receiving_program-Live running_program-Live dialled_program-Live
    started_program-Live opened_program-Live
Live-IsFramed_example =
    Live-IsFramed ℕ Store (List Call) Json digit_laws call_laws both_set true delivered_program
      receiving_system delivered_program-Live
