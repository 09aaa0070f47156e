-- ===== src/Settings/Store/Lists.antt =====
-- The two list settings, as text and back.
use mathlib.Core.List.{append_assoc, append-nil}
use ais_live_pi.Common.{
  ℕ, suc, ◌≡◌, ◌≢◌, refl, sym, ap, ◌∙◌, true, false, some, List, [], ◌∷◌, ◌++◌, map, Text, is_empty,
  get_elem?, length, All, All-append, length-append, arith, ltb, Option-cases, inl, inr,
}
use ais_live_pi.Platform.Wx.{Wx, WxLaws, comma, comma_list, Lacks}
use ais_live_pi.Platform.Config.{IsPlain}
use ais_live_pi.Gui.Vessels.Lists.{InRange}
use ais_live_pi.Settings.Store.{mmsi_text, loaded_mmsi, names_text, loaded_name, load_tokens}

-- Each text behind a comma.
separated : List Text → Text
separated [] = []
separated (t ∷ ts) = comma ∷ (t ++ separated ts)

comma_list-separated : (t : Text) (ts : List Text) → comma_list (t ∷ ts) ≡ t ++ separated ts
unfolding separated
comma_list-separated t [] = sym (append-nil t)
comma_list-separated t (u ∷ ts) = ap (λ x. t ++ comma ∷ x) (comma_list-separated u ts)

pub comma_list-IsPlain : (ts : List Text) → All IsPlain ts → IsPlain (comma_list ts)
comma_list-IsPlain [] h = (tt, tt)
comma_list-IsPlain (t ∷ []) h = h.0
comma_list-IsPlain (t ∷ u ∷ ts) h =
    let rest = comma_list-IsPlain (u ∷ ts) h.1 in
    (
      All-append _ t (comma ∷ comma_list (u ∷ ts)) h.0.0 (refl, rest.0),
      All-append _ t (comma ∷ comma_list (u ∷ ts)) h.0.1 (refl, rest.1),
    )

append-ne-nil : (s t : Text) → t ≢ [] → is_empty (s ++ t) ≡ false
append-ne-nil [] [] h = absurd (h refl)
append-ne-nil [] (c ∷ t) h = refl
append-ne-nil (c ∷ s) t h = refl

append-eq-nil : (s t : Text) → (s ++ t) ≡ [] → s ≡ []
append-eq-nil [] t h = refl
append-eq-nil (c ∷ s) t h = cc

first-ne-nil : (c : ℕ) (t : Text) (ts : List Text) → comma_list ((c ∷ t) ∷ ts) ≢ []
first-ne-nil c t [] h = cc
first-ne-nil c t (u ∷ ts) h = cc

-- The names at the indices from `i` on, one for each number.
abbrev pub names_from : List Text → ℕ → List ℕ → List Text
names_from names i [] = []
names_from names i (m ∷ ms) = loaded_name names i ∷ names_from names (suc i) ms

get_elem?-append :
    (pre : List Text) (t : Text) (rest : List Text)
    → get_elem? (pre ++ t ∷ rest) (length pre) ≡ some t
get_elem?-append [] t rest = refl
get_elem?-append (p ∷ pre) t rest = get_elem?-append pre t rest

loaded_name-nil : loaded_name [] 0 ≡ []
unfolding loaded_name
loaded_name-nil = refl

names_from_self :
    (pre rest : List Text) (ms : List ℕ)
    → length rest ≡ length ms
    → names_from (pre ++ rest) (length pre) ms ≡ rest
unfolding loaded_name
names_from_self pre [] [] h = refl
names_from_self pre [] (m ∷ ms) h = absurd (omega arith)
names_from_self pre (t ∷ rest) [] h = absurd (omega arith)
names_from_self pre (t ∷ rest) (m ∷ ms) h =
    let tail = names_from_self (pre ++ t ∷ []) rest ms (omega arith) in
    let shift : length (pre ++ t ∷ []) ≡ suc (length pre) =
      omega (arith, length-append pre (t ∷ [])) in
    let regroup = append_assoc pre (t ∷ []) rest in
    rw (get_elem?-append pre t rest, loaded_name) (ap (◌∷◌ t) (rw (shift, regroup) at tail))

names_text-separated :
    (text : Text) (i : ℕ) (ms : List ℕ) (names : List Text)
    → names_text text (suc i) ms names ≡ text ++ separated (names_from names (suc i) ms)
unfolding names_text separated loaded_name
names_text-separated text i [] names = sym (append-nil text)
names_text-separated text i (m ∷ ms) names =
    let positive : ltb 0 (suc i) ≡ true = ground arith in
    rw positive (names_text-separated _ (suc i) ms names ∙ simp append_assoc)

pub names_text-comma_list :
    (ms : List ℕ) (names : List Text)
    → length names ≡ length ms
    → names_text [] 0 ms names ≡ comma_list names
unfolding names_text loaded_name
names_text-comma_list [] [] h = refl
names_text-comma_list [] (t ∷ ts) h = absurd (omega arith)
names_text-comma_list (m ∷ ms) [] h = absurd (omega arith)
names_text-comma_list (m ∷ ms) (t ∷ ts) h =
    names_text-separated t 0 ms (t ∷ ts)
    ∙ ap (λ x. t ++ separated x) (names_from_self (t ∷ []) ts ms (omega arith))
    ∙ sym (comma_list-separated t ts)

module _ ⦃wx : Wx⦄ (laws : WxLaws) where
  mmsi_text-separated :
      (text : Text) (ms : List ℕ)
      → is_empty text ≡ false
      → mmsi_text text ms ≡ text ++ separated (map wx.format_u ms)
  unfolding mmsi_text separated
  mmsi_text-separated text [] h = sym (append-nil text)
  mmsi_text-separated text (m ∷ ms) h =
      let next =
        mmsi_text-separated ((text ++ comma ∷ []) ++ wx.format_u m) ms
          (append-ne-nil (text ++ comma ∷ []) (wx.format_u m) (laws.format_u_ne m)) in
      rw h (next ∙ simp append_assoc)

  pub mmsi_text-comma_list : (ms : List ℕ) → mmsi_text [] ms ≡ comma_list (map wx.format_u ms)
  unfolding mmsi_text
  mmsi_text-comma_list [] = refl
  mmsi_text-comma_list (m ∷ ms) =
      mmsi_text-separated (wx.format_u m) ms (append-ne-nil [] (wx.format_u m) (laws.format_u_ne m))
      ∙ sym (comma_list-separated (wx.format_u m) (map wx.format_u ms))

  comma_list-ne-nil : (m : ℕ) (ms : List ℕ) → comma_list (map wx.format_u (m ∷ ms)) ≢ []
  comma_list-ne-nil m ms h = laws.format_u_ne m (
      append-eq-nil (wx.format_u m) _
        (sym (comma_list-separated (wx.format_u m) (map wx.format_u ms)) ∙ h))

  map-Lacks : (ms : List ℕ) → All (Lacks comma) (map wx.format_u ms)
  map-Lacks [] = tt
  map-Lacks (m ∷ ms) = (laws.format_u-Lacks m comma (omega arith), map-Lacks ms)

  map-IsPlain : (ms : List ℕ) → All IsPlain (map wx.format_u ms)
  map-IsPlain [] = tt
  map-IsPlain (m ∷ ms) = (
    (laws.format_u-Lacks m b'$' (omega arith), laws.format_u-Lacks m b'%' (omega arith)),
    map-IsPlain ms,
  )

  pub mmsi_text-IsPlain : (ms : List ℕ) → IsPlain (mmsi_text [] ms)
  mmsi_text-IsPlain ms =
      rw (mmsi_text-comma_list ms) (comma_list-IsPlain (map wx.format_u ms) (map-IsPlain ms))

  -- The written numbers are the tokens that are read.
  pub tokenize-mmsi_text : (ms : List ℕ) → wx.tokenize (mmsi_text [] ms) ≡ map wx.format_u ms
  tokenize-mmsi_text [] = rw (mmsi_text-comma_list []) laws.tokenize_nil
  tokenize-mmsi_text (m ∷ ms) =
      rw (mmsi_text-comma_list (m ∷ ms))
        (laws.tokenize-comma_list _ (map-Lacks (m ∷ ms)) (comma_list-ne-nil m ms))

  loaded_mmsi-format_u : (m : ℕ) → InRange m → loaded_mmsi (wx.format_u m) ≡ some m
  unfolding loaded_mmsi
  loaded_mmsi-format_u m h = rw (loaded_mmsi, laws.to_ulong-format_u m (omega arith)) (ground arith)

  pub load_tokens-format_u :
      (i : ℕ) (ms : List ℕ) (tokens : List Text)
      → All InRange ms
      → load_tokens i (map wx.format_u ms) tokens ≡ (ms, names_from tokens i ms)
  unfolding load_tokens
  load_tokens-format_u i [] tokens h = refl
  load_tokens-format_u i (m ∷ ms) tokens h =
      ground (arith, loaded_mmsi-format_u m h.0, load_tokens-format_u (suc i) ms tokens h.1)

  names_from_tokens :
      (ms : List ℕ) (names : List Text)
      → length names ≡ length ms
      → All (Lacks comma) names
      → comma_list names ≢ []
      → names_from (wx.tokenize (comma_list names)) 0 ms ≡ names
  names_from_tokens ms names h l k =
      ap (λ x. names_from x 0 ms) (laws.tokenize-comma_list names l k)
      ∙ names_from_self [] names ms h

  -- The names are found again, an only name that is empty too, which leaves no token.
  pub names_from-tokenize :
      (ms : List ℕ) (names : List Text)
      → length names ≡ length ms
      → All (Lacks comma) names
      → names_from (wx.tokenize (comma_list names)) 0 ms ≡ names
  names_from-tokenize [] [] h l = refl
  names_from-tokenize [] (t ∷ ts) h l = absurd (omega arith)
  names_from-tokenize (m ∷ ms) [] h l = absurd (omega arith)
  names_from-tokenize (m ∷ []) ([] ∷ []) h l =
      ap (λ x. names_from x 0 (m ∷ [])) laws.tokenize_nil ∙ ap (λ x. x ∷ []) loaded_name-nil
  names_from-tokenize (m ∷ n ∷ ms) ([] ∷ []) h l = absurd (omega arith)
  names_from-tokenize (m ∷ ms) ((c ∷ t) ∷ ts) h l =
      names_from_tokens (m ∷ ms) ((c ∷ t) ∷ ts) h l (first-ne-nil c t ts)
  names_from-tokenize (m ∷ ms) ([] ∷ u ∷ ts) h l =
      names_from_tokens (m ∷ ms) ([] ∷ u ∷ ts) h l (λ e. cc)

pub comma_list-comma :
    (a b : Text) (rest : List Text)
    → comma_list ((a ++ comma ∷ b) ∷ rest) ≡ comma_list (a ∷ b ∷ rest)
comma_list-comma a b rest =
    comma_list-separated (a ++ comma ∷ b) rest
    ∙ append_assoc a (comma ∷ b) (separated rest)
    ∙ ap (λ x. a ++ comma ∷ x) (sym (comma_list-separated b rest))

pub comma_list-ne-nil_two : (a b : Text) (rest : List Text) → comma_list (a ∷ b ∷ rest) ≢ []
comma_list-ne-nil_two [] b rest h = cc
comma_list-ne-nil_two (c ∷ a) b rest h = cc

module _ ⦃wx : Wx⦄ where
  loaded_mmsi-InRange : (t : Text) {m : ℕ} → loaded_mmsi t ≡ some m → InRange m
  unfolding loaded_mmsi
  loaded_mmsi-InRange t h = ground arith

  pub load_tokens-InRange :
      (i : ℕ) (tokens names : List Text)
      → let r = load_tokens i tokens names in (length r.1 ≡ length r.0) × All InRange r.0
  unfolding load_tokens
  load_tokens-InRange i [] names = (refl, tt)
  load_tokens-InRange i (t ∷ tokens) names =
      let rest = load_tokens-InRange (suc i) tokens names in
      elim (Option-cases (loaded_mmsi t)) [
        | inl e ↦ rw (e, load_tokens) rest
        | inr (m, e) ↦ rw (e, load_tokens) (ap suc rest.0, (loaded_mmsi-InRange t e, rest.1))
      ]
