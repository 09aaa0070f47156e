-- ===== src/Gui/Fleet/Lists.antt =====
-- The three lists against the one, under each change.
use ais_live_pi.Common.{
  ℕ, zero, suc, ◌^◌, ◌<◌, ◌≡◌, refl, ap, some, List, [], ◌∷◌, ◌++◌, Text, length, set, get_elem?,
  erase_idx, arith,
}
use ais_live_pi.Platform.Wx.{Wx, WxLaws}
use ais_live_pi.Gui.Vessels.{cell, set_mmsi_cell}
use ais_live_pi.Gui.Events.{put_cell}
use ais_live_pi.Gui.Fleet.{Vessel, numbers, names, renumber, rename, RowsShow}

pub numbers-append :
    (vs : List Vessel) (m : ℕ) (n : Text) → numbers (vs ++ (m, n) ∷ []) ≡ numbers vs ++ m ∷ []
numbers-append [] m n = refl
numbers-append ((k, t) ∷ vs) m n = ap (k ∷◌) (numbers-append vs m n)

pub names-append :
    (vs : List Vessel) (m : ℕ) (n : Text) → names (vs ++ (m, n) ∷ []) ≡ names vs ++ n ∷ []
names-append [] m n = refl
names-append ((k, t) ∷ vs) m n = ap (t ∷◌) (names-append vs m n)

pub numbers-erase_idx :
    (vs : List Vessel) (i : ℕ) → numbers (erase_idx vs i) ≡ erase_idx (numbers vs) i
numbers-erase_idx [] i = refl
numbers-erase_idx ((k, t) ∷ vs) zero = refl
numbers-erase_idx ((k, t) ∷ vs) (suc i) = ap (k ∷◌) (numbers-erase_idx vs i)

pub names-erase_idx : (vs : List Vessel) (i : ℕ) → names (erase_idx vs i) ≡ erase_idx (names vs) i
names-erase_idx [] i = refl
names-erase_idx ((k, t) ∷ vs) zero = refl
names-erase_idx ((k, t) ∷ vs) (suc i) = ap (t ∷◌) (names-erase_idx vs i)

pub numbers-renumber :
    (vs : List Vessel) (i m : ℕ) → numbers (renumber vs i m) ≡ set (numbers vs) i m
numbers-renumber [] i m = refl
numbers-renumber ((k, t) ∷ vs) zero m = refl
numbers-renumber ((k, t) ∷ vs) (suc i) m = ap (k ∷◌) (numbers-renumber vs i m)

pub names-renumber : (vs : List Vessel) (i m : ℕ) → names (renumber vs i m) ≡ names vs
names-renumber [] i m = refl
names-renumber ((k, t) ∷ vs) zero m = refl
names-renumber ((k, t) ∷ vs) (suc i) m = ap (t ∷◌) (names-renumber vs i m)

pub numbers-rename : (vs : List Vessel) (i : ℕ) (n : Text) → numbers (rename vs i n) ≡ numbers vs
numbers-rename [] i n = refl
numbers-rename ((k, t) ∷ vs) zero n = refl
numbers-rename ((k, t) ∷ vs) (suc i) n = ap (k ∷◌) (numbers-rename vs i n)

pub names-rename :
    (vs : List Vessel) (i : ℕ) (n : Text) → names (rename vs i n) ≡ set (names vs) i n
names-rename [] i n = refl
names-rename ((k, t) ∷ vs) zero n = refl
names-rename ((k, t) ∷ vs) (suc i) n = ap (t ∷◌) (names-rename vs i n)

pub length-numbers : (vs : List Vessel) → length (numbers vs) ≡ length vs
length-numbers [] = refl
length-numbers ((k, t) ∷ vs) = ap suc (length-numbers vs)

pub length-names : (vs : List Vessel) → length (names vs) ≡ length vs
length-names [] = refl
length-names ((k, t) ∷ vs) = ap suc (length-names vs)

module _ ⦃wx : Wx⦄ where
  pub length-RowsShow :
      (vs : List Vessel) (rows : List (Text × Text)) → RowsShow vs rows → length rows ≡ length vs
  length-RowsShow [] [] h = refl
  length-RowsShow [] (r ∷ rows) h = elim h [ ]
  length-RowsShow (v ∷ vs) [] h = elim h [ ]
  length-RowsShow ((m, n) ∷ vs) ((t, c) ∷ rows) h = ap suc (length-RowsShow vs rows h.3)

  pub RowsShow-append :
      (vs : List Vessel) (rows : List (Text × Text)) (m : ℕ) (t n : Text)
      → RowsShow vs rows
      → wx.to_ulong t ≡ some m
      → m < 2 ^ 32
      → RowsShow (vs ++ (m, n) ∷ []) (rows ++ (t, n) ∷ [])
  RowsShow-append [] [] m t n h e b = (e, refl, b, tt)
  RowsShow-append [] (r ∷ rows) m t n h e b = elim h [ ]
  RowsShow-append (v ∷ vs) [] m t n h e b = elim h [ ]
  RowsShow-append ((k, n') ∷ vs) ((t', c) ∷ rows) m t n h e b =
      (h.0, h.1, h.2, RowsShow-append vs rows m t n h.3 e b)

  pub RowsShow-erase_idx :
      (vs : List Vessel) (rows : List (Text × Text)) (i : ℕ)
      → RowsShow vs rows
      → RowsShow (erase_idx vs i) (erase_idx rows i)
  RowsShow-erase_idx [] [] i h = h
  RowsShow-erase_idx [] (r ∷ rows) i h = elim h [ ]
  RowsShow-erase_idx (v ∷ vs) [] i h = elim h [ ]
  RowsShow-erase_idx ((k, n) ∷ vs) ((t, c) ∷ rows) zero h = h.3
  RowsShow-erase_idx ((k, n) ∷ vs) ((t, c) ∷ rows) (suc i) h =
      (h.0, h.1, h.2, RowsShow-erase_idx vs rows i h.3)

  -- A number that is accepted stays in the row as it was typed.
  pub RowsShow-renumber :
      (vs : List Vessel) (rows : List (Text × Text)) (i m : ℕ) (t : Text)
      → RowsShow vs rows
      → wx.to_ulong t ≡ some m
      → m < 2 ^ 32
      → RowsShow (renumber vs i m) (put_cell rows i 0 t)
  RowsShow-renumber [] [] i m t h e b = h
  RowsShow-renumber [] (r ∷ rows) i m t h e b = elim h [ ]
  RowsShow-renumber (v ∷ vs) [] i m t h e b = elim h [ ]
  RowsShow-renumber ((k, n) ∷ vs) ((t', c) ∷ rows) zero m t h e b = (e, h.1, b, h.3)
  RowsShow-renumber ((k, n) ∷ vs) ((t', c) ∷ rows) (suc i) m t h e b =
      (h.0, h.1, h.2, RowsShow-renumber vs rows i m t h.3 e b)

  pub RowsShow-rename :
      (vs : List Vessel) (rows : List (Text × Text)) (i : ℕ) (t : Text)
      → RowsShow vs rows
      → RowsShow (rename vs i t) (put_cell rows i 1 t)
  RowsShow-rename [] [] i t h = h
  RowsShow-rename [] (r ∷ rows) i t h = elim h [ ]
  RowsShow-rename (v ∷ vs) [] i t h = elim h [ ]
  RowsShow-rename ((k, n) ∷ vs) ((t', c) ∷ rows) zero t h = (h.0, refl, h.2, h.3)
  RowsShow-rename ((k, n) ∷ vs) ((t', c) ∷ rows) (suc i) t h =
      (h.0, h.1, h.2, RowsShow-rename vs rows i t h.3)

  -- A number that is refused is printed over.
  pub RowsShow-restore :
      WxLaws
      → (vs : List Vessel) (rows : List (Text × Text)) (i m : ℕ) (t : Text) → RowsShow vs rows
      → get_elem? (numbers vs) i ≡ some m
      → RowsShow vs (set_mmsi_cell (put_cell rows i 0 t) i (wx.format_09u m))
  RowsShow-restore laws [] [] i m t h e = h
  RowsShow-restore laws [] (r ∷ rows) i m t h e = elim h [ ]
  RowsShow-restore laws (v ∷ vs) [] i m t h e = elim h [ ]
  RowsShow-restore laws ((k, n) ∷ vs) ((t', c) ∷ rows) zero m t h e =
      let same : m ≡ k = ground arith in (rw same (laws.to_ulong-format_09u k h.2), h.1, h.2, h.3)
  RowsShow-restore laws ((k, n) ∷ vs) ((t', c) ∷ rows) (suc i) m t h e =
      (h.0, h.1, h.2, RowsShow-restore laws vs rows i m t h.3 e)

pub cell-put_cell :
    (rows : List (Text × Text)) (i column : ℕ) (t : Text)
    → i < length rows
    → cell (put_cell rows i column t) i column ≡ some t
cell-put_cell [] i column t h = elim h [ ]
cell-put_cell ((m, n) ∷ rows) zero column t h = ground arith
cell-put_cell ((m, n) ∷ rows) (suc i) column t h = cell-put_cell rows i column t (omega arith)
