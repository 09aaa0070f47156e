-- ===== src/Settings.antt =====
-- The settings: src/settings, and `LoadSettings` and `SaveSettings` of src/plugin/plugin.cpp.
pub mod Globals
pub mod Preferences
pub mod Store
pub mod Connections
