-- ===== src/Exchange.antt =====
-- The shared-memory blocks of the trainer and its controllers (bridge/shared_memory.py) and the
-- datastore's columns in them (bridge/controller_datastore.py). A row is a list; the native layout
-- gives the callbacks and the offset of their first column.
pub mod Columns
pub mod Windows
pub mod Simulation
pub mod Filling
use mc_mjlab.Prelude.{
  ℕ, zero, suc, ◌+◌, ◌-◌, ◌*◌, String, Bool, true, false, not, ◌&&◌, ◌||◌, Option, none, some, List,
  [], ◌∷◌, map, drop, leb, ltb, if◌then◌else◌, str_eq, ℤ, pos, negsuc, Result, ok, err, value_error,
  ◌>>=◌,
}
use mc_mjlab.Prelude.Dict.{Dict, put}

-- `ITEM_SIZE`
abbrev pub item_size : ℕ
item_size = 8

-- what `row_window` returns
pub record Window : Type 0 where
  pub name : String
  pub offset : ℕ
  pub size : ℕ

abbrev window : String → ℕ → ℕ → ℕ → ℕ → Result Window
window name rows width first n =
    if leb n 0 || ltb rows (first + n)
    then err value_error
    else ok
        (record { name = name; offset = item_size * first * width; size = item_size * n * width })

-- `row_window` of a block of `rows` by `width`
unfoldable pub row_window : String → ℕ → ℕ → ℤ → ℤ → Result Window
row_window name rows width (pos first) (pos n) = window name rows width first n
row_window name rows width _ _ = err value_error

-- `DatastoreKind`
pub data Kind : Type 0 where
  vector3 scalar : Kind

abbrev pub width_of : Kind → ℕ
width_of vector3 = 3
width_of scalar = 1

abbrev add_one : Option ℕ → Option ℕ
add_one none = none
add_one (some i) = some (suc i)

-- callbacks.index(name), or none where it raises
unfoldable pub index : String → List String → Option ℕ
index name [] = none
index name (c ∷ cs) = let rest = index name cs in if str_eq c name then some 0 else add_one rest

abbrev column_at : ℕ → Kind → Option ℕ → Result ℕ
column_at offset kind none = err value_error
column_at offset kind (some i) = ok (offset + width_of kind * i)

-- the column of a name
unfoldable pub column : List String → ℕ → Kind → String → Result ℕ
unfolding index
column callbacks offset kind name = column_at offset kind (index name callbacks)

-- `input_columns` and `output_columns`, for names without duplicates
unfoldable pub columns : List String → ℕ → Kind → List String → Result (Dict ℕ)
unfolding column
columns callbacks offset kind [] = ok []
columns callbacks offset kind (name ∷ names) =
    column callbacks offset kind name
    >>= (λ start. columns callbacks offset kind names >>= (λ rest. ok ((name, start) ∷ rest)))

module _ {ℓ} {A : Type ℓ} where
  -- row[start : start + len(xs)] = xs
  unfoldable pub write_span : ℕ → List A → List A → List A
  write_span start xs [] = []
  write_span zero [] (r ∷ row) = r ∷ row
  write_span zero (x ∷ xs) (r ∷ row) = x ∷ write_span zero xs row
  write_span (suc start) xs (r ∷ row) = r ∷ write_span start xs row

  abbrev pub take : ℕ → List A → List A
  take zero xs = []
  take (suc n) [] = []
  take (suc n) (x ∷ xs) = x ∷ take n xs

  -- row[start : start + width]
  abbrev pub read_span : ℕ → ℕ → List A → List A
  read_span start width row = take width (drop start row)

  -- `write_inputs`, of one row
  unfoldable pub write_inputs : Dict ℕ → List (List A) → List A → List A
  unfolding write_span
  write_inputs ((name, start) ∷ cs) (xs ∷ payload) row =
      write_inputs cs payload (write_span start xs row)
  write_inputs _ _ row = row

  -- `read_outputs`, of one row
  unfoldable pub read_outputs : Kind → Dict ℕ → List A → Dict (List A)
  read_outputs kind [] row = []
  read_outputs kind ((name, start) ∷ cs) row =
      (name, read_span start (width_of kind) row) ∷ read_outputs kind cs row
