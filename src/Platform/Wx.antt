-- ===== src/Platform/Wx.antt =====
-- The functions of `wxString` and `wxStringTokenize` that the plugin calls. A `wxString` is its
-- sequence of code points, so that `+` is `++` and `empty()` is the test for `[]`.
use ais_live_pi.Common.{
  ℕ, ◌^◌, ◌<◌, ◌≡◌, ◌≢◌, ◌↔◌, Bool, true, Option, some, List, [], ◌∷◌, ◌++◌, Text, All, ◌==◌, false,
}

pub record Wx : Type 0 where
  -- `s.StartsWith(p)` and `s.EndsWith(p)`, the string first
  pub starts_with : Text → Text → Bool
  pub ends_with : Text → Text → Bool
  -- `wxString::FromUTF8`
  pub from_utf8 : List ℕ → Text
  -- the conversion to `std::string`, in the encoding of the current locale
  pub std_string : Text → List ℕ
  -- `s.Trim(from_right)`
  pub trim : Bool → Text → Text
  -- `wxString::Format` of an `unsigned int` with `%u` and with `%09u`
  pub format_u : ℕ → Text
  pub format_09u : ℕ → Text
  -- `s.ToULong(&n)`: `none` where it returns false
  pub to_ulong : Text → Option ℕ
  -- `wxStringTokenize(s, ",", wxTOKEN_RET_EMPTY_ALL)`
  pub tokenize : Text → List Text

-- No code point of the text is `c`.
abbrev pub Lacks : ℕ → Text → Type 0
Lacks c = All (λ x. (x == c) ≡ false)

abbrev pub comma : ℕ
comma = b','

-- The texts with a comma between each two.
abbrev pub comma_list : List Text → Text
comma_list [] = []
comma_list (t ∷ []) = t
comma_list (t ∷ u ∷ ts) = t ++ comma ∷ comma_list (u ∷ ts)

pub record WxLaws ⦃wx : Wx⦄ : Type 0 where
  pub starts_with_iff : (s p : Text) → (wx.starts_with s p ≡ true) ↔ ((r : Text) × (s ≡ p ++ r))
  pub ends_with_iff : (s p : Text) → (wx.ends_with s p ≡ true) ↔ ((r : Text) × (s ≡ r ++ p))
  -- a `%u` print is not empty, holds no character below '0' and is read back
  pub format_u_ne : (n : ℕ) → wx.format_u n ≢ []
  pub format_u-Lacks : (n c : ℕ) → c < b'0' → Lacks c (wx.format_u n)
  pub to_ulong-format_u : (n : ℕ) → n < 2 ^ 32 → wx.to_ulong (wx.format_u n) ≡ some n
  -- a `%09u` print is read back, as decimal
  pub to_ulong-format_09u : (n : ℕ) → n < 2 ^ 32 → wx.to_ulong (wx.format_09u n) ≡ some n
  -- the empty string has no token; of any other, each piece is a token, the empty ones too
  pub tokenize_nil : wx.tokenize [] ≡ []
  pub tokenize-comma_list :
      (ts : List Text)
      → All (Lacks comma) ts
      → comma_list ts ≢ []
      → wx.tokenize (comma_list ts) ≡ ts
