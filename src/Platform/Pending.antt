-- ===== src/Platform/Pending.antt =====
-- The calls that `CallAfter` leaves with an event handler for the main loop to run.
use ais_live_pi.Common.{◌≡◌, Option, none, some, List, [], ◌∷◌, ◌++◌}

pub record Pending (C Q : Type 0) : Type 0 where
  -- a handler with no call; `CallAfter(c)`; and the call that the main loop runs next, if there is one
  pub empty : Q
  pub post : C → Q → Q
  pub take : Q → Option (C × Q)

pub record PendingLaws (C Q : Type 0) ⦃m : Pending C Q⦄ : Type 0 where
  -- the calls that are left, oldest first; each runs once, in the order of their posting
  pub calls : Q → List C
  pub calls-empty : calls m.empty ≡ []
  pub calls-post : (c : C) (q : Q) → calls (m.post c q) ≡ calls q ++ c ∷ []
  pub take-none : (q : Q) → calls q ≡ [] → m.take q ≡ none
  pub take-some : (q r : Q) (c : C) → m.take q ≡ some (c, r) → calls q ≡ c ∷ calls r
