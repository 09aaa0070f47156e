-- ===== src/Gui/Vessels/Lists.antt =====
-- Lists of numbers with no duplicate, and what appending, erasing and writing keep of them.
use ais_live_pi.Common.{
  ℕ, zero, suc, ◌+◌, ◌<◌, ◌≤◌, ◌≡◌, ◌≢◌, refl, sym, ◌∙◌, Bool, false, ◌||◌, List, [], ◌∷◌, ◌++◌,
  arith, set, erase_idx, length, ◌==◌, get_elem?, some, true, All, ap,
}
use mathlib.Core.Option.{some-injective}
use mathlib.Core.Path.{subst}
use ais_live_pi.Platform.Wx.{Wx, WxLaws}
use ais_live_pi.Gui.Vessels.{contains, duplicate_from, min_mmsi, max_mmsi, accepted_mmsi}

-- No number stands in the list twice.
abbrev pub IsDistinct : List ℕ → Type 0
IsDistinct [] = Unit
IsDistinct (x ∷ xs) = (contains xs x ≡ false) × IsDistinct xs

contains-append :
    (xs ys : List ℕ) (m : ℕ) → contains (xs ++ ys) m ≡ (contains xs m || contains ys m)
unfolding contains
contains-append [] ys m = refl
contains-append (x ∷ xs) ys m = ground (arith, contains-append xs ys m)

contains-erase_idx :
    (xs : List ℕ) (i m : ℕ) → contains xs m ≡ false → contains (erase_idx xs i) m ≡ false
unfolding contains
contains-erase_idx [] i m h = refl
contains-erase_idx (x ∷ xs) zero m h = ground arith
contains-erase_idx (x ∷ xs) (suc i) m h = ground (arith, contains-erase_idx xs i m)

contains-set :
    (xs : List ℕ) (i v m : ℕ) → contains xs m ≡ false → v ≢ m → contains (set xs i v) m ≡ false
unfolding contains
contains-set [] i v m h k = refl
contains-set (x ∷ xs) zero v m h k = ground arith
contains-set (x ∷ xs) (suc i) v m h k = ground (arith, contains-set xs i v m)

pub IsDistinct-append :
    (xs : List ℕ) (m : ℕ) → contains xs m ≡ false → IsDistinct xs → IsDistinct (xs ++ m ∷ [])
unfolding contains
IsDistinct-append [] m h d = (refl, tt)
IsDistinct-append (x ∷ xs) m h d =
    (ground (arith, contains-append xs (m ∷ []) x), IsDistinct-append xs m (ground arith) d.1)

pub IsDistinct-erase_idx : (xs : List ℕ) (i : ℕ) → IsDistinct xs → IsDistinct (erase_idx xs i)
IsDistinct-erase_idx [] i d = tt
IsDistinct-erase_idx (x ∷ xs) zero d = d.1
IsDistinct-erase_idx (x ∷ xs) (suc i) d =
    (contains-erase_idx xs i x d.0, IsDistinct-erase_idx xs i d.1)

-- An index of the list other than `row` holds `m`.
other_holds : List ℕ → ℕ → ℕ → Bool
other_holds [] row m = false
other_holds (x ∷ xs) zero m = contains xs m
other_holds (x ∷ xs) (suc row) m = x == m || other_holds xs row m

duplicate_from_past :
    (xs : List ℕ) (i row m : ℕ) → row < i → duplicate_from i xs row m ≡ contains xs m
unfolding duplicate_from contains
duplicate_from_past [] i row m h = refl
duplicate_from_past (x ∷ xs) i row m h = ground (arith, duplicate_from_past xs (suc i) row m)

duplicate_from-other_holds :
    (xs : List ℕ) (i k m : ℕ) → duplicate_from i xs (i + k) m ≡ other_holds xs k m
unfolding duplicate_from other_holds
duplicate_from-other_holds [] i k m = refl
duplicate_from-other_holds (x ∷ xs) i zero m =
    ground (arith, duplicate_from_past xs (suc i) (i + 0) m)
duplicate_from-other_holds (x ∷ xs) i (suc k) m =
    let shift : i + suc k ≡ suc i + k = omega arith in
    rw shift (ground (arith, duplicate_from-other_holds xs (suc i) k m))

other_holds-erase_idx :
    (xs : List ℕ) (i m : ℕ) → i < length xs → other_holds xs i m ≡ contains (erase_idx xs i) m
unfolding other_holds contains
other_holds-erase_idx [] i m h = refl
other_holds-erase_idx (x ∷ xs) zero m h = refl
other_holds-erase_idx (x ∷ xs) (suc i) m h =
    ground (arith, other_holds-erase_idx xs i m (omega arith))

-- The loop over the other indices looks for the number in the list without that index.
pub duplicate_from-erase_idx :
    (xs : List ℕ) (row m : ℕ)
    → row < length xs
    → duplicate_from 0 xs row m ≡ contains (erase_idx xs row) m
duplicate_from-erase_idx xs row m h =
    let at : 0 + row ≡ row = omega arith in
    rw at at (duplicate_from-other_holds xs 0 row m) ∙ other_holds-erase_idx xs row m h

IsDistinct-write :
    (xs : List ℕ) (i m : ℕ) → other_holds xs i m ≡ false → IsDistinct xs → IsDistinct (set xs i m)
unfolding other_holds
IsDistinct-write [] i m h d = tt
IsDistinct-write (x ∷ xs) zero m h d = (h, d.1)
IsDistinct-write (x ∷ xs) (suc i) m h d =
    (contains-set xs i m x d.0 (ground arith), IsDistinct-write xs i m (ground arith) d.1)

-- A number that the loop over the other indices has not found can be written.
pub IsDistinct-set :
    (xs : List ℕ) (row m : ℕ)
    → duplicate_from 0 xs row m ≡ false
    → IsDistinct xs
    → IsDistinct (set xs row m)
IsDistinct-set xs row m h d =
    let at : 0 + row ≡ row = omega arith in
    IsDistinct-write xs row m (sym (duplicate_from-other_holds xs 0 row m) ∙ rw at h) d

get_elem?-contains : (xs : List ℕ) (i m : ℕ) → get_elem? xs i ≡ some m → contains xs m ≡ true
unfolding contains
get_elem?-contains [] i m h = ground arith
get_elem?-contains (x ∷ xs) zero m h = ground arith
get_elem?-contains (x ∷ xs) (suc i) m h = ground (arith, get_elem?-contains xs i m h)

contains-erase_idx_own :
    (xs : List ℕ) (i m : ℕ)
    → get_elem? xs i ≡ some m
    → IsDistinct xs
    → contains (erase_idx xs i) m ≡ false
unfolding contains
contains-erase_idx_own [] i m h d = refl
contains-erase_idx_own (x ∷ xs) zero m h d = ground arith
contains-erase_idx_own (x ∷ xs) (suc i) m h d =
    ground (arith, contains-erase_idx_own xs i m h d.1, get_elem?-contains xs i m h)

-- Writing what stands there already.
pub set_same : (xs : List ℕ) (i m : ℕ) → get_elem? xs i ≡ some m → set xs i m ≡ xs
set_same [] i m h = refl
set_same (x ∷ xs) zero m h = ground arith
set_same (x ∷ xs) (suc i) m h = ap (x ∷◌) (set_same xs i m h)

pub get_elem?-All {ℓ} :
    (P : ℕ → Type ℓ) (xs : List ℕ) (i m : ℕ) → get_elem? xs i ≡ some m → All P xs → P m
get_elem?-All P [] i m h r = absurd (ground arith)
get_elem?-All P (x ∷ xs) zero m h r = subst P (some-injective x m h) r.0
get_elem?-All P (x ∷ xs) (suc i) m h r = get_elem?-All P xs i m h r.1

pub get_elem?-lt : (xs : List ℕ) (i m : ℕ) → get_elem? xs i ≡ some m → i < length xs
get_elem?-lt [] i m h = ground arith
get_elem?-lt (x ∷ xs) zero m h = omega arith
get_elem?-lt (x ∷ xs) (suc i) m h = omega (arith, get_elem?-lt xs i m h)

-- A nine-digit number, as an MMSI is.
abbrev pub InRange : ℕ → Type 0
InRange m = (min_mmsi ≤ m) × (m ≤ max_mmsi)

-- In a list of distinct nine-digit numbers, a row may be given its own number.
pub accepted_mmsi-own :
    ⦃wx : Wx⦄
    → WxLaws
    → (mmsis : List ℕ) (i m : ℕ) → get_elem? mmsis i ≡ some m
    → All InRange mmsis
    → IsDistinct mmsis
    → accepted_mmsi i (wx.format_09u m) mmsis ≡ some m
unfolding accepted_mmsi
accepted_mmsi-own laws mmsis i m h r d =
    let range : InRange m = get_elem?-All InRange mmsis i m h r in
    let alone =
      duplicate_from-erase_idx mmsis i m (get_elem?-lt mmsis i m h)
      ∙ contains-erase_idx_own mmsis i m h d in
    rw (laws.to_ulong-format_09u m (omega (arith, range.1)), accepted_mmsi) (ground arith)
