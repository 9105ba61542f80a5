-- ===== src/Values/Copies.antt =====
-- The copies have the contents of what they copy.
use pgmem.Common.{◌≡◌, refl, ap, List, [], ◌∷◌, length}
use pgmem.Common.Dict.{lookup, lookup-insert}
use pgmem.Common.Text.{Text, text_Key}
use pgmem.Values.{Value, bytes, Row, zeros, copy, clone_driver_value, clone_arguments, clone_row}

copy-zeros : (b : Text) → copy (zeros (length b)) b ≡ b
unfolding copy
copy-zeros [] = refl
copy-zeros (c ∷ b) = ap (◌∷◌ c) (copy-zeros b)

pub clone_driver_value_lem : (v : Value) → clone_driver_value v ≡ v
unfolding clone_driver_value
clone_driver_value_lem (bytes b) = ap bytes (copy-zeros b)
clone_driver_value_lem _ = refl

pub clone_arguments_lem : (arguments : List Value) → clone_arguments arguments ≡ arguments
unfolding clone_arguments
clone_arguments_lem [] = refl
clone_arguments_lem (v ∷ vs) = cc (clone_driver_value_lem v, clone_arguments_lem vs)

-- A copied row has the columns of the row, at the same values.
pub lookup-clone_row : (k : Text) (row : Row) → lookup k (clone_row row) ≡ lookup k row
unfolding clone_row lookup
lookup-clone_row k [] = refl
lookup-clone_row k ((c, v) ∷ row) =
    rw
      (
        lookup-insert c k (clone_driver_value v) (clone_row row),
        clone_driver_value_lem v,
        lookup-clone_row k row,
      )
      refl
