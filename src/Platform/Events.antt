-- ===== src/Platform/Events.antt =====
-- How wxWidgets finds the handler of an event: the handlers that `Connect` has tied to it are tried
-- in some order, until one does not call `Skip()`.
use ais_live_pi.Common.{
  ℕ, ◌≡◌, ap, Bool, ◌&&◌, Option, none, some, List, [], ◌∷◌, ◌==◌, if◌then◌else◌,
}
use mathlib.Core.List.{reverse}

-- A call of `Connect`: the numbers of the control and of the event's type, and the handler.
abbrev pub Connection : Type 0 → Type 0
Connection H = ℕ × ℕ × H

pub record WxEvents (H : Type 0) : Type 0 where
  -- the handlers of an event, in the order in which they are tried
  pub in_order : List H → List H

pub record WxEventsLaws (H : Type 0) ⦃wx : WxEvents H⦄ : Type 0 where
  -- what was connected last is tried first
  pub in_order-reverse : (xs : List H) → wx.in_order xs ≡ reverse xs

module _ {H : Type 0} where
  -- The handlers tied to an event, first connected first.
  unfoldable pub connected : ℕ → ℕ → List (Connection H) → List H
  connected control type [] = []
  connected control type ((c, t, h) ∷ cs) =
      let rest = connected control type cs in if c == control && t == type then h ∷ rest else rest

  -- The first that does not skip the event.
  unfoldable pub first_handling : (H → Bool) → List H → Option H
  first_handling skips [] = none
  first_handling skips (h ∷ hs) =
      let rest = first_handling skips hs in if skips h then rest else some h

  unfoldable pub handler_of :
      ⦃wx : WxEvents H⦄ → (H → Bool) → List (Connection H) → ℕ → ℕ → Option H
  handler_of ⦃wx⦄ skips cs control type =
      first_handling skips (wx.in_order (connected control type cs))

  pub handler_of-reverse :
      ⦃wx : WxEvents H⦄
      → WxEventsLaws H
      → (skips : H → Bool) (cs : List (Connection H)) (control type : ℕ)
      → handler_of skips cs control type
        ≡ first_handling skips (reverse (connected control type cs))
  unfolding handler_of
  handler_of-reverse laws skips cs control type =
      ap (first_handling skips) (laws.in_order-reverse (connected control type cs))
