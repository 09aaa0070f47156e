-- ===== src/Lib.antt =====
-- A model of the AisLive plugin for OpenCPN, with the properties that make its parts correct.
--
-- The program and its parts. The plugin (src/plugin/plugin.cpp) owns one dialog
-- (src/main-ui/main_ui_derived.cpp), which owns one stream client
-- (src/ais-stream/ais_stream_client.cpp). OpenCPN calls the plugin with cursor and boat positions,
-- presses of the toolbar button, the context menu's entry and the preferences; the plugin passes
-- them on to the dialog. The dialog's handlers change the search area, the list of followed
-- vessels and the settings (src/settings/global_settings.cpp), and restart the client. The client
-- runs a supervisor thread that connects, subscribes, hands the sentences on and paces its
-- retries.
--
-- Platform has what the plugin calls and does not define, as records of operations with records of
-- laws: strings and tokens of wxWidgets (Platform/Wx), doubles (Platform/Double), jsoncpp
-- (Platform/Json), wxFileConfig (Platform/Config), the order in which connected handlers are tried
-- (Platform/Events) and the calls that `CallAfter` leaves behind (Platform/Pending). Common has
-- the shared names and lemmas. A string is the list of its code points, a byte string that of its
-- bytes. The configuration expands environment variables in the strings that it reads; its laws
-- are about texts without `$` and `%` only.
--
-- Stream is the client. Stream/Output has what it makes known: calls of the callbacks, frames sent
-- and the handshakes, with address and header. Stream/Messages is `HandleMessage` and
-- `ProcessAisEvent`, with an exception of jsoncpp as a result; Messages/Forward and
-- Messages/Frames hold its lemmas. Stream/Session is the callback given to the socket, over the
-- events of one session, and Session/Reports what is reported. Stream/Subscribe is
-- `BuildSubscribeMessage`. Stream/Backoff is the pacing of the retries and `SleepWhileStreaming`.
-- Stream/Threads is `SupervisorFunc` against `Start` and `Stop`, step by step: a step is what one
-- thread does between two accesses of what they share. A `close()` of `Stop` may be lost where the
-- library allows it. Threads/Safety and Threads/Progress are about its schedules. Threads/Protocol
-- is an abstract machine of a client, with the outputs that each phase allows; Threads/Refines and
-- Threads/Schedules hold the threads against it. Stream/Client is the client as its owner's thread
-- sees it: `Start`, `Stop`, `Restart` and the token; Threads/Owner holds it beside the threads, on
-- the lemmas of Threads/Calls. Client/Replay has a client's calls as data, and Threads/Performs
-- the threads that carry out a row of them; by Threads/Scheduled all of that is a schedule of the
-- two threads.
--
-- Navigation is src/utils/utils.cpp and the follow threshold of the dialog.
--
-- Settings/Globals has the variables, Settings/Store what `SaveSettings` and `LoadSettings` do
-- with the configuration (proofs in Store/Lists and Store/RoundTrip), Settings/Preferences the
-- preferences dialog (src/settings/settings_ui_derived.cpp), Settings/Connections its `Connect`
-- calls (src/settings/settings_ui_base.cpp).
--
-- Gui is the dialog: Gui/State its members and widgets, Gui/Streaming the start, stop and restart
-- of the client, Gui/Search the search area, Gui/Vessels the list of vessels, Gui/Dialog the
-- constructor and the destructor, Gui/Events the table that connects events to handlers, with what
-- the user put into the widget. Search/Area, Vessels/Lists, Vessels/Invariant, Events/Listed,
-- Events/Shown, Events/Sync and Events/Opened hold the proofs. Gui/Fleet is an abstract machine of
-- the vessel list: one list where the dialog and the settings have three; Fleet/Lists,
-- Fleet/Refines and Fleet/Sessions hold the handlers against it. Gui/Walk is the induction over
-- what the handlers are made of, for any relation of two states; by it Gui/Calls traces what they
-- do to the client to its calls, and Gui/Label shows that they leave the label of its state alone.
-- Gui/Connections is the table of `Connect` calls of src/main-ui/main_ui_base.cpp with the virtual
-- handlers of main_ui_base.h, and Connections/Dispatch compares it with Gui/Events.
--
-- Plugin is `Plugin` and the context menu's dialog (src/menu-entry): Plugin/State its members,
-- Plugin/Toolbar the button, the window's closing and the menu, Plugin/Menu the `Connect` calls of
-- the menu's dialog, Plugin/Lifecycle `Init`, `DeInit`, the preferences and the boat's position,
-- Plugin/Steps everything that can happen as one step, Plugin/Quiet, Plugin/InStep,
-- Plugin/Visibility, Plugin/Closing, Plugin/Restore and Plugin/Mirrored with its children the
-- proofs; Plugin/Applied is about the preferences. Plugin/Passes follows the client through the
-- plugin's steps (Passes/Walk, Passes/Steps), and Plugin/Whole puts the plugin and the threads of
-- its dialog's client together (proofs in Whole/Served). Plugin/Live adds the calls that the
-- client's callbacks leave for the main loop, through any number of windows: Live/Joins,
-- Live/Posted, Live/Lines, Live/Arrival and Live/Shown are its proofs, the last one on the lemmas
-- of Gui/Label and Plugin/Label. Plugin/Delivery joins the stream to the plugin: the stream's
-- thread posts calls, and the main loop runs them between its other steps; Delivery/Buffer,
-- Delivery/Order, Delivery/After and Delivery/Framed hold its proofs. Plugin/Information is what
-- OpenCPN asks of a plugin, on the macros of the generated config.h, and Information/Version is
-- about the version of its API. Plugin/Registration is what the plugin asks of OpenCPN: the icons,
-- the button, the menu's entry and the callbacks.
--
-- Layout has the constructors that wxFormBuilder has written, statement by statement: Layout/Main
-- (src/main-ui/main_ui_base.cpp), Layout/Settings (src/settings/settings_ui_base.cpp) and
-- Layout/Menu (src/menu-entry/menuDialog_ui_base.cpp). Layout/Placed and Layout/Values compare
-- them with each other and with the widgets of Gui/State.
--
-- Tests has concrete libraries for Platform and the examples.
--
-- Bounds and fuel. Loops are recursion on their lists; no function takes fuel. The supervisor's
-- loop is a sequence of steps, with the rounds that are left of a sleep in the state. `uint32_t`
-- keeps its wrap-around (`u32_of_int`, `u32_of_ulong`). A vector that is read or written out of
-- range gives `none`, and so does a refused number in a row whose own number is refused as well:
-- there the handler calls itself without end.
--
-- Not modelled. The WebSocket library (third-party/IXWebSocket): what it decides is a choice at a
-- step, and whether it remembers a `close()` that comes before `run()` or early in it is a
-- parameter of the threads. With a library that does not, such a call takes hold or is lost, as
-- the step says; of `run()` the model does not tell its early part from the rest, and allows the
-- loss in all of it. The vendored library is one of these: its handshake resets the flag that
-- `close()` sets. `static_cast<int>` of NaN, which C++ leaves undefined, is taken to give some
-- number. The styles and sizes of the windows, the texts of the translations, the class factories,
-- which only construct and delete the plugin, and the build. A modal dialog is one step: what the
-- main loop does while it is open comes before or behind it. In Stream/Client and in Gui the
-- reports of the supervisor's thread are left out; Plugin/Live has them.
pub mod Common
pub mod Platform
pub mod Stream
pub mod Navigation
pub mod Layout
pub mod Settings
pub mod Gui
pub mod Plugin
pub mod Tests
