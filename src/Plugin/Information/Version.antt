-- ===== src/Plugin/Information/Version.antt =====
-- The two numbers of the API's version.
use ais_live_pi.Common.{
  ℕ, suc, ◌+◌, ◌*◌, ◌^◌, ◌<◌, ◌≡◌, refl, sym, ap, ◌∙◌, true, false, none, some, [], ◌∷◌, ◌++◌, Text,
  All, All-append, length, ◌==◌, arith,
}
use mathlib.Core.List.{append-nil, append_assoc}
use ais_live_pi.Common.Int.{pos}
use ais_live_pi.Plugin.Information.{
  Package, is_digit, skip_space, digits_from, positive, signed, atoi, find, substr,
  get_api_version_major, get_api_version_minor,
}

-- The text writes the number in decimal, perhaps with zeros in front.
pub data Writes : Text → ℕ → Type 0 where
  one : (d : ℕ) → d < 10 → Writes ((48 + d) ∷ []) d
  more : {t : Text} {n : ℕ} (d : ℕ) → d < 10 → Writes t n → Writes (t ++ (48 + d) ∷ []) (n * 10 + d)

abbrev IsDigit : ℕ → Type 0
IsDigit c = is_digit c ≡ true

digits_from-digit :
    (n d : ℕ) (rest : Text)
    → d < 10
    → digits_from n ((48 + d) ∷ rest) ≡ digits_from (n * 10 + d) rest
unfolding digits_from
digits_from-digit n d rest h = ground arith

digits_from-Writes :
    {t : Text} {n : ℕ} → Writes t n → (rest : Text) → digits_from 0 (t ++ rest) ≡ digits_from n rest
digits_from-Writes (one d h) rest =
    let same : 0 * 10 + d ≡ d = omega arith in
    digits_from-digit 0 d rest h ∙ ap (λ x. digits_from x rest) same
digits_from-Writes (more {t} {n} d h w) rest =
    ap (digits_from 0) (append_assoc t ((48 + d) ∷ []) rest)
    ∙ digits_from-Writes w ((48 + d) ∷ rest)
    ∙ digits_from-digit n d rest h

Writes-first : {t : Text} {n : ℕ} → Writes t n → (c : ℕ) × (cs : Text) × (t ≡ c ∷ cs) × IsDigit c
Writes-first (one d h) = (48 + d, [], refl, ground arith)
Writes-first (more d h w) =
    let (c, cs, e, i) = Writes-first w in
    (c, cs ++ (48 + d) ∷ [], ap (λ x. x ++ (48 + d) ∷ []) e, i)

positive-some : (n : ℕ) → n < 2 ^ 31 → positive n ≡ some (pos n)
unfolding positive
positive-some n h = ground arith

-- No blank and no sign stands before a digit.
atoi-digit : (c : ℕ) (cs : Text) → IsDigit c → atoi (c ∷ cs) ≡ positive (digits_from 0 (c ∷ cs))
unfolding atoi skip_space signed
atoi-digit c cs h = ground arith

atoi-Writes :
    {t : Text} {n : ℕ}
    → Writes t n
    → n < 2 ^ 31
    → (rest : Text) → digits_from n rest ≡ n
    → atoi (t ++ rest) ≡ some (pos n)
atoi-Writes {t} {n} w b rest h =
    let (c, cs, e, i) = Writes-first w in
    let front = ap (λ x. x ++ rest) e in
    ap atoi front
    ∙ atoi-digit c (cs ++ rest) i
    ∙ ap (λ x. positive (digits_from 0 x)) (sym front)
    ∙ ap positive (digits_from-Writes w rest ∙ h)
    ∙ positive-some n b

-- Not the dot.
abbrev NoDot : Text → Type 0
NoDot = All (λ x. (x == b'.') ≡ false)

NoDot-Writes : {t : Text} {n : ℕ} → Writes t n → NoDot t
NoDot-Writes (one d h) = (ground arith, tt)
NoDot-Writes (more {t} d h w) =
    All-append (λ x. (x == b'.') ≡ false) t ((48 + d) ∷ []) (NoDot-Writes w) (ground arith, tt)

find-none : (t : Text) → NoDot t → find b'.' t ≡ none
unfolding find
find-none [] h = refl
find-none (c ∷ cs) h = rw (h.0, find-none cs h.1) refl

find-some : (t rest : Text) → NoDot t → find b'.' (t ++ b'.' ∷ rest) ≡ some (length t)
unfolding find
find-some [] rest h = refl
find-some (c ∷ cs) rest h = rw (h.0, find-some cs rest h.1) refl

substr-dot : (t rest : Text) → substr (t ++ b'.' ∷ rest) (length t + 1) ≡ rest
unfolding substr
substr-dot [] rest = refl
substr-dot (c ∷ cs) rest =
    let next : length (c ∷ cs) + 1 ≡ suc (length cs + 1) = omega arith in
    ap (substr (c ∷ cs ++ b'.' ∷ rest)) next ∙ substr-dot cs rest

-- If the version of the API is written as two decimal numbers with a dot between them, both within an
-- `int`, then OpenCPN is told these two numbers; if it is the first number alone, with no dot,
-- it is told that number for both.
pub api_version_lem :
    (k : Package) {s t : Text} {a b : ℕ}
    → Writes s a
    → Writes t b
    → a < 2 ^ 31
    → b < 2 ^ 31
    → let dotted : Package = record k { api_version = s ++ b'.' ∷ t } in
      let single : Package = record k { api_version = s } in
      (get_api_version_major dotted ≡ some (pos a))
      × (get_api_version_minor dotted ≡ some (pos b))
      × (get_api_version_major single ≡ some (pos a))
      × (get_api_version_minor single ≡ some (pos a))
unfolding get_api_version_major get_api_version_minor digits_from substr
api_version_lem k {s} {t} {a} {b} v w h i =
    let whole : atoi s ≡ some (pos a) = ap atoi (sym (append-nil s)) ∙ atoi-Writes v h [] refl in
    let minor : atoi t ≡ some (pos b) = ap atoi (sym (append-nil t)) ∙ atoi-Writes w i [] refl in
    (
      atoi-Writes v h (b'.' ∷ t) refl,
      rw (find-some s t (NoDot-Writes v), substr-dot s t) minor,
      whole,
      rw (find-none s (NoDot-Writes v)) whole,
    )
