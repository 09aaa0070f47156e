-- ===== src/Plugin.antt =====
-- The plugin, `Plugin` (plugin.h, plugin.cpp), and the dialog of the context menu's entry
-- (menuDialog_ui_derived.cpp).
pub mod State
pub mod Toolbar
pub mod Menu
pub mod Applied
pub mod Lifecycle
pub mod Quiet
pub mod Steps
pub mod Passes
pub mod Whole
pub mod Label
pub mod Live
pub mod InStep
pub mod Visibility
pub mod Closing
pub mod Restore
pub mod Information
pub mod Registration
pub mod Mirrored
pub mod Delivery
