-- ===== src/Values.antt =====
-- The Go values that pass through the program: query arguments, results, rows (schema.go), and the
-- defensive copies of them (`cloneDriverValue`, `cloneArguments`, `cloneResult`).
pub mod Copies
use Prim.Native.Nat.{ℕ, zero, suc}
use pgmem.Common.{Bool, Option, none, some, List, [], ◌∷◌, map, length}
use pgmem.Common.Dict.{Dict, insert}
use pgmem.Common.Signed.{ℤ}
use pgmem.Common.Text.{Text, text_Key}

-- A value of type any. Floats are their IEEE bit patterns, a time.Time is its instant; `named` is
-- what sql.Named makes; `other` is a value of any further type, by the type's name.
pub data Value : Type 0 where
  nil : Value
  int64 int int8 int16 int32 : ℤ → Value
  uint uint8 uint16 uint32 uint64 : ℕ → Value
  float32 float64 : ℕ → Value
  bool : Bool → Value
  string bytes : Text → Value
  time : ℕ → Value
  named : Text → Value → Value
  other : Text → Value

abbrev pub Row : Type 0
Row = Dict Text Value

-- `Rows` is nil or a slice, and the code tells them apart.
pub record Result : Type 0 where
  pub rows : Option (List Row)
  pub row_count : ℤ
  pub command : Text

abbrev pub empty_result : Result
empty_result = record { rows = none; row_count = ℤ.pos 0; command = [] }

abbrev pub zeros : ℕ → Text
zeros zero = []
zeros (suc n) = 0 ∷ zeros n

-- the builtin copy(destination, source)
unfoldable pub copy {ℓ} : {A : Type ℓ} → List A → List A → List A
copy [] source = []
copy (d ∷ destination) [] = d ∷ destination
copy (d ∷ destination) (s ∷ source) = s ∷ copy destination source

-- `cloneDriverValue`
unfoldable pub clone_driver_value : Value → Value
unfolding copy
clone_driver_value (bytes b) = bytes (copy (zeros (length b)) b)
clone_driver_value v = v

-- `cloneArguments`
unfoldable pub clone_arguments : List Value → List Value
unfolding clone_driver_value
clone_arguments arguments = map clone_driver_value arguments

-- The loop of `cloneResult` over the cells of a row. Go leaves the order of a map's cells open; here
-- the last cell comes first.
unfoldable pub clone_row : Row → Row
unfolding insert clone_driver_value
clone_row [] = []
clone_row ((column, value) ∷ row) = insert column (clone_driver_value value) (clone_row row)

-- `cloneResult`
unfoldable pub clone_result : Result → Result
unfolding clone_row
clone_result result = record {
  rows = elim result.rows [ none ↦ none | some rows ↦ some (map clone_row rows) ];
  row_count = result.row_count;
  command = result.command;
}
