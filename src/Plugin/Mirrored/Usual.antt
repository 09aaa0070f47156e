-- ===== src/Plugin/Mirrored/Usual.antt =====
-- The states that the plugin comes to when the user does only what the widgets allow.
use ais_live_pi.Common.{ℕ, ◌≡◌, refl, ◌∙◌, sym, Option, none, some}
use mathlib.Core.Option.{some-injective}
use mathlib.Core.Path.{subst}
use ais_live_pi.Platform.Wx.{Wx, WxLaws}
use ais_live_pi.Platform.Double.{Double}
use ais_live_pi.Platform.Json.{JsonWriter}
use ais_live_pi.Platform.Config.{Config}
use ais_live_pi.Settings.Globals.{initial_globals}
use ais_live_pi.Settings.Store.RoundTrip.{load_settings-InRange}
use ais_live_pi.Gui.Vessels.Lists.{IsDistinct}
use ais_live_pi.Plugin.State.{Plugin}
use ais_live_pi.Plugin.Lifecycle.{init, load_settings}
use ais_live_pi.Plugin.Steps.{PluginEvent, step}
use ais_live_pi.Plugin.Mirrored.{IsMirrored}
use ais_live_pi.Plugin.Mirrored.Reached.{IsUsual, step-IsMirrored}

-- From `Init` on, without a store or with one in which no number that is loaded stands twice.
pub data UsuallyReachable {D S : Type 0} (V : Type 0) ⦃wx : Wx⦄ ⦃d : Double D⦄ ⦃w : JsonWriter D V⦄
    ⦃c : Config D S⦄ : Plugin D S → Type 0 where
  started :
      (config : Option S) (tool menu : ℕ) (x y z v : D)
      → IsDistinct (init config tool menu x y z v).globals.mmsi_list
      → UsuallyReachable V (init config tool menu x y z v)
  stepped :
      (p q : Plugin D S) (e : PluginEvent D)
      → UsuallyReachable V p
      → IsUsual e p
      → step V e p ≡ some q
      → UsuallyReachable V q

module _ {D S : Type 0} (V : Type 0) ⦃wx : Wx⦄ ⦃d : Double D⦄ ⦃w : JsonWriter D V⦄ ⦃c : Config D S⦄
    (laws : WxLaws) where
  init-IsMirrored :
      (config : Option S) (tool menu : ℕ) (x y z v : D)
      → IsDistinct (init config tool menu x y z v).globals.mmsi_list
      → IsMirrored (init config tool menu x y z v)
  unfolding init load_settings initial_globals
  init-IsMirrored none tool menu x y z v k = (refl, tt, tt)
  init-IsMirrored (some s) tool menu x y z v k =
      let (same, range) = load_settings-InRange D s in (same, range, k)

  reached-IsMirrored : (p : Plugin D S) → UsuallyReachable V p → IsMirrored p
  reached-IsMirrored p (started config tool menu x y z v k) =
      init-IsMirrored config tool menu x y z v k
  reached-IsMirrored p (stepped o q e r u h) =
      let (t, i, m) = step-IsMirrored V laws e o u (reached-IsMirrored o r) in
      subst IsMirrored (some-injective t q (sym i ∙ h)) m

  -- If the text functions keep their documented laws, no number that `Init` loads stands twice in the
  -- store, and the user edits and deletes only rows that are there, in the two columns, and puts
  -- only numbers of its range into the spin control: in every state that the plugin comes to from
  -- `Init` on, the settings have as many names as numbers, these nine-digit and distinct, and a window, if there is one, shows
  -- them: there is one list of numbered and named vessels of which the settings hold the numbers
  -- and the names, and the rows texts that read as the numbers, and the names. And every next
  -- such step is made, to such a state: no handler reaches outside a vector or calls itself without
  -- end.
  pub UsuallyReachable-IsMirrored :
      (p : Plugin D S) (e : PluginEvent D)
      → UsuallyReachable V p
      → IsUsual e p
      → IsMirrored p × ((q : Plugin D S) × (step V e p ≡ some q) × IsMirrored q)
  UsuallyReachable-IsMirrored p e r u =
      let m = reached-IsMirrored p r in (m, step-IsMirrored V laws e p u m)
