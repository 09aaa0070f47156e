-- ===== src/Stream/Messages/Forward.antt =====
-- The sentences that an event frame publishes.
use ais_live_pi.Common.{
  ◌≡◌, refl, true, none, some, List, [], ◌∷◌, ◌++◌, Text, codes, All, arith, Bool-cases,
  Option-cases, if◌then◌else◌, map, inl, inr, ◌⊎◌,
}
use mathlib.Core.List.{append_assoc, filter_map}
use ais_live_pi.Platform.Wx.{Wx, WxLaws}
use ais_live_pi.Platform.Json.{JsonReader, ReaderLaws}
use ais_live_pi.Stream.Messages.{
  aivdm, crlf, c_str, nmea_sentence, returned, element_sentence, send_sentences,
}

-- A text that begins with "!AIVDM" and ends with one carriage return and line feed.
abbrev pub IsFramed : Text → Type 0
IsFramed t = ((r : Text) × (t ≡ aivdm ++ r)) × ((r : Text) × (t ≡ r ++ crlf))

-- What should be published of the texts of an array: those that do not begin with "!AIVDM" are
-- left out, and the others are ended by a carriage return and a line feed.
pub data Forwards : List Text → List Text → Type 0 where
  nothing : Forwards [] []
  skips :
      {t : Text} {ts us : List Text}
      → ¬ ((r : Text) × (t ≡ codes "!AIVDM" ++ r))
      → Forwards ts us
      → Forwards (t ∷ ts) us
  keeps :
      {t : Text} {ts us : List Text}
      → (r : Text) × (t ≡ codes "!AIVDM" ++ r)
      → (r : Text) × (t ≡ r ++ 13 ∷ 10 ∷ [])
      → Forwards ts us
      → Forwards (t ∷ ts) (t ∷ us)
  completes :
      {t : Text} {ts us : List Text}
      → (r : Text) × (t ≡ codes "!AIVDM" ++ r)
      → ¬ ((r : Text) × (t ≡ r ++ 13 ∷ 10 ∷ []))
      → Forwards ts us
      → Forwards (t ∷ ts) ((t ++ 13 ∷ 10 ∷ []) ∷ us)

module _ ⦃wx : Wx⦄ where
  nmea_sentence-cases :
      (t : Text) {s : Text}
      → nmea_sentence t ≡ some s
      → (wx.starts_with t aivdm ≡ true)
        × (((wx.ends_with t crlf ≡ true) × (s ≡ t)) ⊎ (s ≡ t ++ crlf))
  unfolding nmea_sentence
  nmea_sentence-cases t h = ground arith

  nmea_sentence_fixed :
      (t : Text)
      → wx.starts_with t aivdm ≡ true
      → wx.ends_with t crlf ≡ true
      → nmea_sentence t ≡ some t
  unfolding nmea_sentence
  nmea_sentence_fixed t h k = rw (h, k)

module _ ⦃wx : Wx⦄ (laws : WxLaws) where
  nmea_sentence-IsFramed : (t : Text) {s : Text} → nmea_sentence t ≡ some s → IsFramed s
  nmea_sentence-IsFramed t {s} h =
      let (starts, ends) = nmea_sentence-cases t h in
      let (r, e) = (laws.starts_with_iff t aivdm).0 starts in
      elim ends [
        | inl (terminated, same) ↦ rw same ((r, e), (laws.ends_with_iff t crlf).0 terminated)
        | inr same ↦ rw same ((r ++ crlf, rw e (append_assoc aivdm r crlf)), (t, refl))
      ]

  -- A sentence that was published once is published again as it is.
  pub nmea_sentence_idem :
      (t : Text) {s : Text} → nmea_sentence t ≡ some s → nmea_sentence s ≡ some s
  nmea_sentence_idem t {s} h =
      let (starts, ends) = nmea_sentence-IsFramed t h in
      nmea_sentence_fixed s ((laws.starts_with_iff s aivdm).1 starts)
        ((laws.ends_with_iff s crlf).1 ends)

  pub published-Forwards : (ts : List Text) → Forwards ts (filter_map nmea_sentence ts)
  unfolding filter_map nmea_sentence
  published-Forwards [] = nothing
  published-Forwards (t ∷ ts) =
      let rest = published-Forwards ts in
      elim (Bool-cases (wx.starts_with t aivdm)) [
        | inl starts ↦
            let begun = (laws.starts_with_iff t aivdm).0 starts in
            elim (Bool-cases (wx.ends_with t crlf)) [
              | inl ends ↦
                  rw (filter_map, starts, ends)
                    (keeps begun ((laws.ends_with_iff t crlf).0 ends) rest)
              | inr bare ↦
                  rw (filter_map, starts, bare)
                    (completes begun (λ e. cc (bare, (laws.ends_with_iff t crlf).1 e)) rest)
            ]
        | inr other ↦
            rw (filter_map, other)
              (skips (λ e. cc (other, (laws.starts_with_iff t aivdm).1 e)) rest)
      ]

-- What the loop over the "nmea" array should publish: of the strings among the values, the texts
-- that are sentences, each ended by a line break, in their order.
module _ {V : Type 0} ⦃wx : Wx⦄ ⦃j : JsonReader V⦄ where
  abbrev pub strings : List V → List V
  strings [] = []
  strings (v ∷ vs) = if j.is_string v then v ∷ strings vs else strings vs

  abbrev pub string_text : V → Text
  string_text v = elim (j.as_string v) [ none ↦ [] | some s ↦ wx.from_utf8 (c_str s) ]

  abbrev pub published : List V → List Text
  published vs = filter_map nmea_sentence (map string_text (strings vs))

  element-IsFramed :
      (laws : WxLaws) (v : V) {s : Text} → element_sentence v ≡ some (some s) → IsFramed s
  unfolding element_sentence
  element-IsFramed laws v {s} h = elim (Bool-cases (j.is_string v)) [
    | inl text ↦ elim (Option-cases (j.as_string v)) [
      | inl e ↦ ground arith
      | inr (b, e) ↦ nmea_sentence-IsFramed laws (wx.from_utf8 (c_str b)) (ground arith)
    ]
    | inr other ↦ ground arith
  ]

  pub send_sentences-IsFramed : (laws : WxLaws) (vs : List V) → All IsFramed (send_sentences vs).0
  unfolding send_sentences
  send_sentences-IsFramed laws [] = tt
  send_sentences-IsFramed laws (v ∷ vs) =
      let rest = send_sentences-IsFramed laws vs in
      elim (Option-cases (element_sentence v)) [
        | inl e ↦ rw (e, send_sentences) tt
        | inr (none, e) ↦ rw (e, send_sentences) rest
        | inr (some s, e) ↦ rw (e, send_sentences) (element-IsFramed laws v e, rest)
      ]

  -- If `asString` does not throw on a string, the loop returns and publishes just that.
  pub send_sentences-published :
      ReaderLaws V → (vs : List V) → send_sentences vs ≡ (published vs, returned)
  unfolding send_sentences element_sentence filter_map
  send_sentences-published laws [] = refl
  send_sentences-published laws (v ∷ vs) =
      ground (arith, send_sentences-published laws vs, laws.as_string_of_string v)
