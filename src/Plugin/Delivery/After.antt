-- ===== src/Plugin/Delivery/After.antt =====
-- What the steps of the main loop do to a queue with no call in it.
use ais_live_pi.Common.{◌≡◌, []}
use ais_live_pi.Platform.Pending.{Pending, PendingLaws}
use ais_live_pi.Plugin.Steps.{PluginEvent, deinitialised}
use ais_live_pi.Plugin.Delivery.{Call, pending_after}

module _ {D Q : Type 0} ⦃m : Pending Call Q⦄ (laws : PendingLaws Call Q) where
  pub pending_after-nil :
      (e : PluginEvent D) (q : Q) → laws.calls q ≡ [] → laws.calls (pending_after e q) ≡ []
  unfolding pending_after
  pending_after-nil deinitialised q h = laws.calls-empty
  pending_after-nil _ q h = h
