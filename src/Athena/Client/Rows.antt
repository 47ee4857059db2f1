-- ===== src/Athena/Client/Rows.antt =====
-- The rows that `fetch_rows` makes of the raw rows, against the cells that it was given.
use cubiczan_resilience.Base.{
  ◌≡◌, refl, String, str_eq, eq_iff, false, Option, none, some, List, [], ◌∷◌, any, map, arith,
}
use cubiczan_resilience.Dict.{lookup, insert, lookup-insert}
use cubiczan_resilience.Athena.Client.{
  RawRow, Row, or_no_list, header_of, zip_into, row_of, rows_of,
}

abbrev pub Distinct : List String → Type 0
Distinct [] = Unit
Distinct (k ∷ ks) = (any (str_eq k) ks ≡ false) × Distinct ks

-- Each column has its cell; a column without one is missing.
abbrev pub HasCells : List String → List (Option String) → Row → Type 0
HasCells [] cells row = Unit
HasCells (k ∷ ks) [] row = (lookup k row ≡ none) × HasCells ks [] row
HasCells (k ∷ ks) (v ∷ vs) row = (lookup k row ≡ some v) × HasCells ks vs row

-- A row for each raw row, with its cells under the names of the header and nothing else.
abbrev pub Tabulates : List String → List RawRow → List Row → Type 0
Tabulates header [] [] = Unit
Tabulates header (raw ∷ raws) (row ∷ rows) =
    HasCells header (or_no_list raw.cells) row
    × ((k : String) → any (str_eq k) header ≡ false → lookup k row ≡ none)
    × Tabulates header raws rows
Tabulates header _ _ = ⊥

zip_into-other :
    (d : Row) (ks : List String) (vs : List (Option String)) (k : String)
    → any (str_eq k) ks ≡ false
    → lookup k (zip_into d ks vs) ≡ lookup k d
unfolding zip_into
zip_into-other d [] vs k h = refl
zip_into-other d (j ∷ ks) [] k h = refl
zip_into-other d (j ∷ ks) (v ∷ vs) k h =
    ground
      (arith, eq_iff k j, eq_iff j k, lookup-insert j k v d, zip_into-other (insert j v d) ks vs k)

-- The names are not in the dict yet.
abbrev Absent : List String → Row → Type 0
Absent [] d = Unit
Absent (k ∷ ks) d = (lookup k d ≡ none) × Absent ks d

Absent-insert :
    (ks : List String) (j : String) (v : Option String) (d : Row)
    → any (str_eq j) ks ≡ false
    → Absent ks d
    → Absent ks (insert j v d)
Absent-insert [] j v d h a = tt
Absent-insert (k ∷ ks) j v d h a =
    (ground (arith, lookup-insert j k v d), Absent-insert ks j v d (ground arith) a.1)

HasCells-none : (ks : List String) (d : Row) → Absent ks d → HasCells ks [] d
HasCells-none [] d a = tt
HasCells-none (k ∷ ks) d a = (a.0, HasCells-none ks d a.1)

zip_into-HasCells :
    (d : Row) (ks : List String) (vs : List (Option String))
    → Distinct ks
    → Absent ks d
    → HasCells ks vs (zip_into d ks vs)
unfolding zip_into
zip_into-HasCells d [] vs u a = tt
zip_into-HasCells d (k ∷ ks) [] u a = HasCells-none (k ∷ ks) d a
zip_into-HasCells d (k ∷ ks) (v ∷ vs) u a = (
  ground (arith, zip_into-other (insert k v d) ks vs k u.0, lookup-insert k k v d, eq_iff k k),
  zip_into-HasCells (insert k v d) ks vs u.1 (Absent-insert ks k v d u.0 a.1),
)

Absent-empty : (ks : List String) → Absent ks []
unfolding lookup
Absent-empty [] = tt
Absent-empty (k ∷ ks) = (refl, Absent-empty ks)

row_of-only :
    (header : List String) (raw : RawRow) (k : String)
    → any (str_eq k) header ≡ false
    → lookup k (row_of header raw) ≡ none
unfolding row_of lookup
row_of-only header raw k h = zip_into-other [] header (or_no_list raw.cells) k h

map-Tabulates :
    (header : List String) (raws : List RawRow)
    → Distinct header
    → Tabulates header raws (map (row_of header) raws)
unfolding row_of
map-Tabulates header [] u = tt
map-Tabulates header (raw ∷ raws) u = (
  zip_into-HasCells [] header (or_no_list raw.cells) u (Absent-empty header),
  row_of-only header raw,
  map-Tabulates header raws u,
)

-- If the names of the columns in the first raw row differ, `fetch_rows` makes one row of each raw row
-- after it, in their order. The row has each cell under the name of its column, lacks a column for
-- which the raw row has no cell, and has no other key.
pub rows_of-Tabulates :
    (head : RawRow) (raws : List RawRow)
    → Distinct (header_of head)
    → Tabulates (header_of head) raws (rows_of (head ∷ raws))
unfolding rows_of
rows_of-Tabulates head raws u = map-Tabulates (header_of head) raws u
