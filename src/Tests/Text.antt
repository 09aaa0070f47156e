-- ===== src/Tests/Text.antt =====
-- Text functions that keep the laws of Platform/Wx. A number prints as the digit of its value, one
-- code point beyond '9' for each number beyond 9.
use ais_live_pi.Common.{
  ℕ, ◌+◌, ◌-◌, ◌≡◌, ◌≢◌, refl, ap, ◌∙◌, Bool, true, false, ◌&&◌, ◌||◌, ◌==◌, Option, none, some,
  List, [], ◌∷◌, ◌++◌, Text, All, arith, text_eq, text_eq_sound, text_eq_refl, is_empty, leb,
  Bool-cases, inl, inr, if◌then◌else◌,
}
use ais_live_pi.Platform.Wx.{Wx, WxLaws, Lacks, comma, comma_list}

abbrev pub starts_with : Text → Text → Bool
starts_with s [] = true
starts_with [] (x ∷ p) = false
starts_with (y ∷ s) (x ∷ p) = (y == x) && starts_with s p

abbrev pub ends_with : Text → Text → Bool
ends_with [] p = is_empty p
ends_with (x ∷ s) p = text_eq (x ∷ s) p || ends_with s p

abbrev pub trim_left : Text → Text
trim_left [] = []
trim_left (x ∷ s) = if x == 32 then trim_left s else x ∷ s

abbrev pub to_ulong : Text → Option ℕ
to_ulong (x ∷ []) = if leb 48 x then some (x - 48) else none
to_ulong _ = none

abbrev pub push : ℕ → List Text → List Text
push x [] = (x ∷ []) ∷ []
push x (t ∷ ts) = (x ∷ t) ∷ ts

abbrev pub pieces : Text → List Text
pieces [] = [] ∷ []
pieces (x ∷ s) = if x == comma then [] ∷ pieces s else push x (pieces s)

instance abbrev pub digit_wx : Wx
digit_wx = record {
  starts_with = starts_with;
  ends_with = ends_with;
  from_utf8 = λ s. s;
  std_string = λ s. s;
  trim = λ from_right s. if from_right then s else trim_left s;
  format_u = λ n. (n + 48) ∷ [];
  format_09u = λ n. (n + 48) ∷ [];
  to_ulong = to_ulong;
  tokenize = λ s. if is_empty s then [] else pieces s;
}

starts-append : (p r : Text) → starts_with (p ++ r) p ≡ true
starts-append [] r = refl
starts-append (x ∷ p) r = ground (arith, starts-append p r)

starts_sound : (s p : Text) → starts_with s p ≡ true → (r : Text) × (s ≡ p ++ r)
starts_sound s [] h = (s, refl)
starts_sound [] (x ∷ p) h = ground arith
starts_sound (y ∷ s) (x ∷ p) h =
    let (r, e) = starts_sound s p (ground arith) in
    let same : y ≡ x = ground arith in (r, cc (same, e))

ends-append : (r p : Text) → ends_with (r ++ p) p ≡ true
ends-append [] [] = refl
ends-append [] (x ∷ p) = ground (arith, text_eq_refl (x ∷ p))
ends-append (y ∷ r) p = ground (arith, ends-append r p)

ends_sound : (s p : Text) → ends_with s p ≡ true → (r : Text) × (s ≡ r ++ p)
ends_sound [] [] h = ([], refl)
ends_sound [] (x ∷ p) h = ground arith
ends_sound (y ∷ s) p h = elim (Bool-cases (text_eq (y ∷ s) p)) [
  | inl e ↦ ([], text_eq_sound (y ∷ s) p e)
  | inr e ↦ let (r, f) = ends_sound s p (ground arith) in (y ∷ r, ap (y ∷◌) f)
]

pieces-Lacks : (t : Text) → Lacks comma t → pieces t ≡ t ∷ []
pieces-Lacks [] h = refl
pieces-Lacks (x ∷ t) h = rw (h.0, pieces-Lacks t h.1) refl

pieces-append : (t s : Text) → Lacks comma t → pieces (t ++ comma ∷ s) ≡ t ∷ pieces s
pieces-append [] s h = refl
pieces-append (x ∷ t) s h = rw (h.0, pieces-append t s h.1) refl

pieces-comma_list :
    (t : Text) (ts : List Text) → All (Lacks comma) (t ∷ ts) → pieces (comma_list (t ∷ ts)) ≡ t ∷ ts
pieces-comma_list t [] h = pieces-Lacks t h.0
pieces-comma_list t (u ∷ ts) h =
    pieces-append t (comma_list (u ∷ ts)) h.0 ∙ ap (t ∷◌) (pieces-comma_list u ts h.1)

tokenize_ne : (s : Text) → s ≢ [] → (if is_empty s then [] else pieces s) ≡ pieces s
tokenize_ne [] h = elim (h refl) [ ]
tokenize_ne (x ∷ s) h = refl

tokens :
    (ts : List Text)
    → All (Lacks comma) ts
    → comma_list ts ≢ []
    → (if is_empty (comma_list ts) then [] else pieces (comma_list ts)) ≡ ts
tokens [] h n = elim (n refl) [ ]
tokens (t ∷ ts) h n = tokenize_ne (comma_list (t ∷ ts)) n ∙ pieces-comma_list t ts h

pub digit_laws : WxLaws
digit_laws = record {
  starts_with_iff = λ s p. (starts_sound s p, λ t. rw (t.1) (starts-append p t.0));
  ends_with_iff = λ s p. (ends_sound s p, λ t. rw (t.1) (ends-append t.0 p));
  format_u_ne = λ n. ground arith;
  format_u-Lacks = λ n c h. (ground arith, tt);
  to_ulong-format_u = λ n h. ground arith;
  to_ulong-format_09u = λ n h. ground arith;
  tokenize_nil = refl;
  tokenize-comma_list = tokens;
}
