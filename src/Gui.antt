-- ===== src/Gui.antt =====
-- The main dialog, src/main-ui.
pub mod Connections
pub mod State
pub mod Streaming
pub mod Search
pub mod Vessels
pub mod Events
pub mod Fleet
pub mod Calls
pub mod Walk
pub mod Label
pub mod Dialog
