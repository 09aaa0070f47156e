-- ===== src/Plugin/Information.antt =====
-- What the plugin tells OpenCPN of itself (plugin.cpp): the getters, on the macros of config.h, which
-- the build generates.
pub mod Version
use ais_live_pi.Common.{
  ℕ, zero, suc, ◌+◌, ◌-◌, ◌*◌, ◌^◌, Bool, true, false, ◌&&◌, ◌||◌, Option, none, some, List, [],
  ◌∷◌, Text, ltb, leb, ◌==◌, if◌then◌else◌,
}
use ais_live_pi.Common.Int.{ℤ, pos, negsuc}

-- The macros.
pub record Package : Type 0 where
  pub api_version : Text
  pub plugin_version_major : ℤ
  pub plugin_version_minor : ℤ
  pub plugin_version_patch : ℤ
  pub plugin_api_name : Text
  pub pkg_name : Text
  pub pkg_summary : Text
  pub pkg_description : Text

abbrev pub is_space : ℕ → Bool
is_space c = c == 32 || (leb 9 c && leb c 13)

abbrev pub is_digit : ℕ → Bool
is_digit c = leb 48 c && leb c 57

unfoldable pub skip_space : Text → Text
skip_space [] = []
skip_space (c ∷ cs) = if is_space c then skip_space cs else c ∷ cs

-- The number that the digits at the front make, behind `acc`.
unfoldable pub digits_from : ℕ → Text → ℕ
digits_from acc [] = acc
digits_from acc (c ∷ cs) = if is_digit c then digits_from (acc * 10 + (c - 48)) cs else acc

-- A 32-bit `int`; `none` where the number does not fit, for which C defines nothing.
unfoldable pub positive : ℕ → Option ℤ
positive n = if ltb n (2 ^ 31) then some (pos n) else none

unfoldable pub negative : ℕ → Option ℤ
negative zero = some (pos 0)
negative (suc n) = if ltb n (2 ^ 31) then some (negsuc n) else none

unfoldable pub signed : Text → Option ℤ
signed [] = positive 0
signed (c ∷ cs) =
    if c == b'-'
    then negative (digits_from 0 cs)
    else if c == b'+'
    then positive (digits_from 0 cs)
    else positive (digits_from 0 (c ∷ cs))

-- `atoi`
unfoldable pub atoi : Text → Option ℤ
atoi s = signed (skip_space s)

-- `v.find(c)`; `none` stands for `npos`.
unfoldable pub find : ℕ → Text → Option ℕ
find c [] = none
find c (x ∷ xs) =
    let rest = find c xs in
    if x == c then some 0 else elim rest [ none ↦ none | some i ↦ some (suc i) ]

-- `v.substr(n)`
unfoldable pub substr : Text → ℕ → Text
substr s zero = s
substr [] (suc n) = []
substr (c ∷ cs) (suc n) = substr cs n

unfoldable pub get_api_version_major : Package → Option ℤ
get_api_version_major k = atoi k.api_version

-- `npos + 1` is 0.
unfoldable pub get_api_version_minor : Package → Option ℤ
get_api_version_minor k =
    let v = k.api_version in
    let start : ℕ = elim (find b'.' v) [ none ↦ 0 | some dotpos ↦ dotpos + 1 ] in
    atoi (substr v start)

abbrev pub get_plugin_version_major : Package → ℤ
get_plugin_version_major k = k.plugin_version_major

abbrev pub get_plugin_version_minor : Package → ℤ
get_plugin_version_minor k = k.plugin_version_minor

abbrev pub get_plugin_version_patch : Package → ℤ
get_plugin_version_patch k = k.plugin_version_patch

abbrev pub get_common_name : Package → Text
get_common_name k = k.plugin_api_name

abbrev pub get_short_description : Package → Text
get_short_description k = k.pkg_summary

abbrev pub get_long_description : Package → Text
get_long_description k = k.pkg_description

abbrev pub get_toolbar_tool_count : ℕ
get_toolbar_tool_count = 1
