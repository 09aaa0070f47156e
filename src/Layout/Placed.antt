-- ===== src/Layout/Placed.antt =====
-- Where the constructors put what they make.
use ais_live_pi.Common.{
  ℕ, suc, ◌≡◌, refl, Bool, true, List, [], ◌∷◌, Text, text_eq, All, ◌==◌, ◌&&◌, arith,
  if◌then◌else◌,
}
use ais_live_pi.Layout.{
  Step, new_sizer, new_static_box_sizer, new_window, add_window, add_sizer, set_sizer, add_page,
}
use ais_live_pi.Layout.Main.{main_steps}
use ais_live_pi.Layout.Settings.{settings_steps}
use ais_live_pi.Layout.Menu.{menu_steps}

-- The windows and sizers that are made.
abbrev made : List Step → List Text
made [] = []
made (new_sizer z o ∷ ss) = z ∷ made ss
made (new_static_box_sizer z o t ∷ ss) = z ∷ made ss
made (new_window w c p t ∷ ss) = w ∷ made ss
made (_ ∷ ss) = made ss

-- The windows and sizers that are put into a sizer, a window or a notebook.
abbrev put : List Step → List Text
put [] = []
put (add_window z w p f b ∷ ss) = w ∷ put ss
put (add_sizer z y p f b ∷ ss) = y ∷ put ss
put (set_sizer w z ∷ ss) = z ∷ put ss
put (add_page b w t s ∷ ss) = w ∷ put ss
put (_ ∷ ss) = put ss

unfoldable occurrences : Text → List Text → ℕ
occurrences t [] = 0
occurrences t (u ∷ us) = let rest = occurrences t us in if text_eq t u then suc rest else rest

-- Made once, and put in one place.
abbrev IsPlaced : List Step → Text → Type 0
IsPlaced ss t = (occurrences t (made ss) ≡ 1) × (occurrences t (put ss) ≡ 1)

unfoldable all_placed : List Step → List Text → Bool
all_placed ss [] = true
all_placed ss (t ∷ ts) =
    let rest = all_placed ss ts in
    (occurrences t (made ss) == 1) && (occurrences t (put ss) == 1) && rest

all_placed_sound :
    (ss : List Step) (ts : List Text) → all_placed ss ts ≡ true → All (IsPlaced ss) ts
unfolding all_placed
all_placed_sound ss [] h = tt
all_placed_sound ss (t ∷ ts) h =
    ((ground arith, ground arith), all_placed_sound ss ts (ground arith))

-- In each of the three dialogs, each window and each sizer is made once and has one place.
layouts-IsPlaced :
    All (IsPlaced main_steps) (made main_steps)
    × All (IsPlaced settings_steps) (made settings_steps)
    × All (IsPlaced menu_steps) (made menu_steps)
unfolding main_steps settings_steps menu_steps occurrences text_eq all_placed
layouts-IsPlaced = (
  all_placed_sound main_steps (made main_steps) refl,
  all_placed_sound settings_steps (made settings_steps) refl,
  all_placed_sound menu_steps (made menu_steps) refl,
)
