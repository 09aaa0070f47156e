-- ===== src/Tests/Sample.antt =====
-- Numbers, JSON values and a configuration that keep the laws of Platform. Doubles are natural
-- numbers, with truncated subtraction and the identity for the trigonometric functions.
use ais_live_pi.Common.{
  ℕ, zero, suc, ◌+◌, ◌-◌, ◌*◌, ◌/◌, ◌≡◌, ◌≢◌, refl, Bool, true, false, ◌||◌, ◌==◌, ltb, leb, Option,
  none, some, List, [], ◌∷◌, ◌++◌, Text, codes, arith, text_eq, if◌then◌else◌,
}
use ais_live_pi.Common.Int.{ℤ, pos, negsuc}
use ais_live_pi.Platform.Double.{Double, OrderLaws}
use ais_live_pi.Platform.Json.{JsonReader, ReaderLaws, JsonWriter, WriterLaws}
use ais_live_pi.Platform.Config.{
  Config, ConfigLaws, Entry, bool_entry, int_entry, double_entry, text_entry,
}
use mathlib.Core.Option

abbrev pub nat_literal : ℕ → ℕ → ℕ
nat_literal m zero = m
nat_literal m (suc k) = nat_literal m k / 10

abbrev pub nat_of : ℤ → ℕ
nat_of (pos n) = n
nat_of (negsuc n) = 0

instance abbrev pub nat_double : Double ℕ
nat_double = record {
  lt = ltb;
  le = leb;
  eq = λ x y. x == y;
  add = λ x y. x + y;
  sub = λ x y. x - y;
  mul = λ x y. x * y;
  div = λ x y. x / y;
  abs = λ x. x;
  sin = λ x. x;
  cos = λ x. x;
  sqrt = λ x. x;
  atan2 = λ x y. x;
  literal = nat_literal;
  m_pi = 3;
  to_int = pos;
  of_int = nat_of;
  format_fixed = λ k x. (x + 48) ∷ [];
}

pub nat_order : OrderLaws ℕ
nat_order = record {
  lt_irrefl = λ x. ground arith;
  lt-whole = λ m n h k. refl;
  eq-whole = λ n h. ground arith;
  le_of_not_lt = λ x y h k l. ground arith;
}

-- A value is built up member by member and element by element.
pub data Json : Type 0 where
  null : Json
  number : ℕ → Json
  boolean : Bool → Json
  string : Text → Json
  -- the empty array, and an array with a first element
  nil : Json
  cons : Json → Json → Json
  -- an object with a member set
  field : Json → Text → Json → Json

abbrev pub array : List Json → Json
array [] = nil
array (x ∷ xs) = cons x (array xs)

abbrev pub elements : Json → List Json
elements (cons x xs) = x ∷ elements xs
elements _ = []

abbrev pub is_array : Json → Bool
is_array nil = true
is_array (cons x xs) = true
is_array _ = false

abbrev pub member : Json → Text → Json
member (field v k x) l = if text_eq k l then x else member v l
member _ l = null

abbrev pub is_member : Json → Text → Option Bool
is_member null l = some false
is_member (field v k x) l = Option.map (λ b. text_eq k l || b) (is_member v l)
is_member _ l = none

abbrev pub is_string : Json → Bool
is_string (string t) = true
is_string _ = false

abbrev pub as_string : Json → Option Text
as_string (string t) = some t
as_string null = some []
as_string _ = none

-- {"type": "event", "nmea": ["!AIVDM,1", 7, "$GPGGA"]}, and {"type": "error", "error": "no"}
abbrev pub event_frame : Json
event_frame =
    field (field null (codes "type") (string (codes "event"))) (codes "nmea")
      (array (string (codes "!AIVDM,1") ∷ number 7 ∷ string (codes "$GPGGA") ∷ []))

abbrev pub error_frame : Json
error_frame =
    field (field null (codes "type") (string (codes "error"))) (codes "error") (string (codes "no"))

-- A parser that knows three frames: the event, the error and a number.
abbrev pub parse : List ℕ → Option Json
parse (b ∷ []) =
    if b == 1
    then some event_frame
    else if b == 2
    then some error_frame
    else if b == 3
    then some (number 1)
    else none
parse _ = none

-- The order of the members and the elements alone.
abbrev pub write_json : Json → List ℕ
write_json null = 0 ∷ []
write_json (number n) = 1 ∷ n ∷ []
write_json (boolean b) = 2 ∷ (if b then 1 else 0) ∷ []
write_json (string t) = 3 ∷ t
write_json nil = 4 ∷ []
write_json (cons x xs) = 5 ∷ write_json x ++ write_json xs
write_json (field v k x) = 6 ∷ write_json v ++ k ++ write_json x

instance abbrev pub json_reader : JsonReader Json
json_reader = record {
  parse = parse;
  is_member = is_member;
  member = member;
  is_string = is_string;
  as_string = as_string;
  is_array = is_array;
  elements = elements;
}

instance abbrev pub json_writer : JsonWriter ℕ Json
json_writer = record {
  null = null;
  number = number;
  uint = number;
  boolean = boolean;
  string = string;
  array = array;
  set_member = field;
  write = write_json;
}

map-none_inv : (f : Bool → Bool) (o : Option Bool) → Option.map f o ≡ none → o ≡ none
map-none_inv f none h = refl
map-none_inv f (some b) h = ground arith

map-none : (f : Bool → Bool) (o : Option Bool) → o ≡ none → Option.map f o ≡ none
map-none f o h = rw h refl

throws_alike : (v : Json) (k l : Text) → is_member v k ≡ none → is_member v l ≡ none
throws_alike null k l h = ground arith
throws_alike (number n) k l h = refl
throws_alike (boolean b) k l h = refl
throws_alike (string t) k l h = refl
throws_alike nil k l h = refl
throws_alike (cons x xs) k l h = refl
throws_alike (field v m x) k l h = map-none _ _ (throws_alike v k l (map-none_inv _ _ h))

string_read : (v : Json) → is_string v ≡ true → as_string v ≢ none
string_read null h = ground arith
string_read (number n) h = ground arith
string_read (boolean b) h = ground arith
string_read (string t) h = λ e. ground arith
string_read nil h = ground arith
string_read (cons x xs) h = ground arith
string_read (field v m x) h = ground arith

pub reader_laws : ReaderLaws Json
reader_laws = record { as_string_of_string = string_read; is_member_throws = throws_alike }

pub writer_laws : WriterLaws ℕ Json
writer_laws = record {
  member-null = λ k. refl;
  is_member-null = λ k. refl;
  member-set_member = λ v k l x. refl;
  is_member-set_member = λ v k l x. refl;
}

-- The entries written, the last one first.
abbrev pub Store : Type 0
Store = List (Text × Entry ℕ)

abbrev pub read_entry {ℓ} : {A : Type ℓ} → (Entry ℕ → A → A) → Text → A → Store → A
read_entry f k x [] = x
read_entry f k x ((l, e) ∷ s) = if text_eq l k then f e x else read_entry f k x s

abbrev pub entry_bool : Entry ℕ → Bool → Bool
entry_bool (bool_entry v) x = v
entry_bool _ x = x

abbrev pub entry_int : Entry ℕ → ℤ → ℤ
entry_int (int_entry v) x = v
entry_int _ x = x

abbrev pub entry_double : Entry ℕ → ℕ → ℕ
entry_double (double_entry v) x = v
entry_double _ x = x

abbrev pub entry_text : Entry ℕ → Text → Text
entry_text (text_entry v) x = v
entry_text _ x = x

instance abbrev pub list_config : Config ℕ Store
list_config = record {
  write = λ k e s. (k, e) ∷ s;
  read_bool = read_entry entry_bool;
  read_int = read_entry entry_int;
  read_double = read_entry entry_double;
  read_text = read_entry entry_text;
  to_bool = entry_bool;
  to_int = entry_int;
  to_double = entry_double;
  to_text = entry_text;
}

pub list_laws : ConfigLaws ℕ Store
list_laws = record {
  read_bool-write = λ k l b e s. refl;
  read_int-write = λ k l i e s. refl;
  read_double-write = λ k l x e s. refl;
  read_text-write = λ k l t e s. refl;
  to_bool-bool = λ v b. refl;
  to_int-int = λ v i. refl;
  to_text-text = λ v t p. refl;
}
