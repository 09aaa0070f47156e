-- ===== src/Tests.antt =====
-- Concrete libraries for the parameters of the model, and the examples.
pub mod Text
pub mod Sample
pub mod Stream
pub mod Threads
pub mod Owner
pub mod Gui
pub mod Plugin
pub mod Fleet
pub mod Delivery
pub mod Whole
pub mod Live
