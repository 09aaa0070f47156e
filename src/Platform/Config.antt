-- ===== src/Platform/Config.antt =====
-- `wxFileConfig` as the plugin uses it: typed values under keys.
use ais_live_pi.Common.{◌≡◌, Bool, Text, text_eq, if◌then◌else◌}
use ais_live_pi.Common.Int.{ℤ}
use ais_live_pi.Platform.Wx.{Lacks}

-- The argument of a `Write`.
pub data Entry (D : Type 0) : Type 0 where
  bool_entry : Bool → Entry D
  int_entry : ℤ → Entry D
  double_entry : D → Entry D
  text_entry : Text → Entry D

pub record Config (D S : Type 0) : Type 0 where
  pub write : Text → Entry D → S → S
  -- `Read` of a key, with the default
  pub read_bool : Text → Bool → S → Bool
  pub read_int : Text → ℤ → S → ℤ
  pub read_double : Text → D → S → D
  pub read_text : Text → Text → S → Text
  -- what an entry reads as, which may have been written as another type
  pub to_bool : Entry D → Bool → Bool
  pub to_int : Entry D → ℤ → ℤ
  pub to_double : Entry D → D → D
  pub to_text : Entry D → Text → Text

-- A text in which a `wxConfig` finds no environment variable to expand when it reads it, which it
-- does unless it is told not to.
abbrev pub IsPlain : Text → Type 0
IsPlain t = Lacks b'$' t × Lacks b'%' t

-- A key reads as what was last written to it. A double goes through its print, and may lose digits.
pub record ConfigLaws (D S : Type 0) ⦃c : Config D S⦄ : Type 0 where
  pub read_bool-write :
      (k l : Text) (b : Bool) (e : Entry D) (s : S)
      → c.read_bool k b (c.write l e s) ≡ (if text_eq l k then c.to_bool e b else c.read_bool k b s)
  pub read_int-write :
      (k l : Text) (i : ℤ) (e : Entry D) (s : S)
      → c.read_int k i (c.write l e s) ≡ (if text_eq l k then c.to_int e i else c.read_int k i s)
  pub read_double-write :
      (k l : Text) (x : D) (e : Entry D) (s : S)
      → c.read_double k x (c.write l e s)
        ≡ (if text_eq l k then c.to_double e x else c.read_double k x s)
  pub read_text-write :
      (k l : Text) (t : Text) (e : Entry D) (s : S)
      → c.read_text k t (c.write l e s) ≡ (if text_eq l k then c.to_text e t else c.read_text k t s)
  pub to_bool-bool : (v b : Bool) → c.to_bool (bool_entry v) b ≡ v
  pub to_int-int : (v i : ℤ) → c.to_int (int_entry v) i ≡ v
  pub to_text-text : (v t : Text) → IsPlain v → c.to_text (text_entry v) t ≡ v
