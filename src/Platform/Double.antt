-- ===== src/Platform/Double.antt =====
-- The operations on `double` that the plugin uses, over any type of numbers, and the laws of
-- IEEE 754 and of the C library that its properties need.
use ais_live_pi.Common.{ℕ, ◌^◌, ◌<◌, ◌≡◌, Bool, true, false, Text, ltb, if◌then◌else◌}
use ais_live_pi.Common.Int.{ℤ}

pub record Double (D : Type 0) : Type 0 where
  pub lt : D → D → Bool
  pub le : D → D → Bool
  pub eq : D → D → Bool
  pub add : D → D → D
  pub sub : D → D → D
  pub mul : D → D → D
  pub div : D → D → D
  pub abs : D → D
  pub sin : D → D
  pub cos : D → D
  pub sqrt : D → D
  pub atan2 : D → D → D
  -- `literal m k` is the literal of value m / 10 ^ k; `m_pi` is `M_PI`
  pub literal : ℕ → ℕ → D
  pub m_pi : D
  -- `static_cast<int>(x)`, which C++ defines where an `int` holds the integer part of x, and is
  -- taken to give some number elsewhere, for NaN too; and the conversion of an `int`
  pub to_int : D → ℤ
  pub of_int : ℤ → D
  -- `wxString::Format("%.kf", x)`
  pub format_fixed : ℕ → D → Text

module _ {D : Type 0} ⦃d : Double D⦄ where
  -- An integer constant where a `double` is wanted.
  abbrev pub whole : ℕ → D
  whole n = d.literal n 0

  -- `std::min(a, b)` and `std::clamp(v, lo, hi)`, as the standard defines them.
  unfoldable pub min_of : D → D → D
  min_of a b = if d.lt b a then b else a

  unfoldable pub clamp : D → D → D → D
  clamp v lo hi = if d.lt v lo then lo else if d.lt hi v then hi else v

pub record OrderLaws (D : Type 0) ⦃d : Double D⦄ : Type 0 where
  pub lt_irrefl : (x : D) → d.lt x x ≡ false
  pub lt-whole :
      (m n : ℕ) → m < 2 ^ 53 → n < 2 ^ 53 → d.lt (d.literal m 0) (d.literal n 0) ≡ ltb m n
  -- a literal is a number, that is equal to itself, as NaN is not; and of two numbers one is at most
  -- the other
  pub eq-whole : (n : ℕ) → n < 2 ^ 53 → d.eq (d.literal n 0) (d.literal n 0) ≡ true
  pub le_of_not_lt :
      (x y : D) → d.eq x x ≡ true → d.eq y y ≡ true → d.lt x y ≡ false → d.le y x ≡ true
