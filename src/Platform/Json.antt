-- ===== src/Platform/Json.antt =====
-- What the client uses of jsoncpp: reading a frame, and building and writing a request.
use ais_live_pi.Common.{
  ℕ, ◌≡◌, ◌≢◌, Bool, true, Option, none, some, List, Text, text_eq, if◌then◌else◌, false, ◌||◌,
}
use mathlib.Core.Option

pub record JsonReader (V : Type 0) : Type 0 where
  -- `Json::Reader::parse`: `none` where it returns false
  pub parse : List ℕ → Option V
  -- `isMember`: `none` where it throws, on a value that is neither an object nor null
  pub is_member : V → Text → Option Bool
  -- `operator[]`: null for a missing member
  pub member : V → Text → V
  pub is_string : V → Bool
  -- `asString`: `none` where it throws
  pub as_string : V → Option (List ℕ)
  pub is_array : V → Bool
  -- the values of a range-based `for`
  pub elements : V → List V

pub record ReaderLaws (V : Type 0) ⦃j : JsonReader V⦄ : Type 0 where
  pub as_string_of_string : (v : V) → j.is_string v ≡ true → j.as_string v ≢ none
  -- whether `isMember` throws depends on the value's type alone
  pub is_member_throws : (v : V) (k l : Text) → j.is_member v k ≡ none → j.is_member v l ≡ none

pub record JsonWriter (D V : Type 0) : Type 0 where
  -- a `Json::Value` of the default constructor, and the conversions to one
  pub null : V
  pub number : D → V
  pub uint : ℕ → V
  pub boolean : Bool → V
  pub string : Text → V
  -- a `Json::arrayValue` with one `append` for each value
  pub array : List V → V
  -- `v[k] = w`
  pub set_member : V → Text → V → V
  -- `Json::FastWriter::write`
  pub write : V → List ℕ

-- A value built by `set_member` from null is an object: its members are those that were set.
pub record WriterLaws (D V : Type 0) ⦃w : JsonWriter D V⦄ ⦃j : JsonReader V⦄ : Type 0 where
  pub member-null : (k : Text) → j.member w.null k ≡ w.null
  pub is_member-null : (k : Text) → j.is_member w.null k ≡ some false
  pub member-set_member :
      (v : V) (k l : Text) (x : V)
      → j.member (w.set_member v k x) l ≡ (if text_eq k l then x else j.member v l)
  pub is_member-set_member :
      (v : V) (k l : Text) (x : V)
      → j.is_member (w.set_member v k x) l ≡ Option.map (λ b. text_eq k l || b) (j.is_member v l)
