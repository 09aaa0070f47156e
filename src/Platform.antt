-- ===== src/Platform.antt =====
-- What the plugin uses of code that is not in the repository's own sources: wxWidgets, jsoncpp and
-- floating point. Each is a record of operations and a record of documented laws.
pub mod Events
pub mod Pending
pub mod Wx
pub mod Double
pub mod Json
pub mod Config
