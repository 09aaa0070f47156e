-- ===== src/Plugin/Restore.antt =====
-- The settings from one run of the plugin to the next.
use ais_live_pi.Platform.Wx.{Wx}
use ais_live_pi.Platform.Double.{Double}
use ais_live_pi.Platform.Config.{Config}
use ais_live_pi.Settings.Store
use ais_live_pi.Gui.State.{Gui}
use ais_live_pi.Plugin.State.{Plugin}
