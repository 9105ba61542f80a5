-- ===== src/Schema/Execution/Single.antt =====
-- `OneContext`: how the number of rows decides.
use pgmem.Schema.Translate.{Schema}
use pgmem.Schema.Execution.{exactly_one, one_row, many_context, one_context}
use pgmem.Common.{◌≡◌, refl, List, [], ◌∷◌, nat_Key}
use pgmem.Common.Text.{Text, text_Key}
use pgmem.Errors.{
  Sentinel, no_rows, too_many_rows, GoError, sentinel, errors_is, returned, Fallible, ok, err,
}
use pgmem.Values.{Value, Row}

-- What `OneContext` owes its caller for the answer of `ManyContext`.
abbrev pub OneOf : Fallible (List Row) → Fallible Row → Type 0
OneOf (err e) answer = answer ≡ err e
OneOf (ok []) answer = answer ≡ err (sentinel no_rows)
OneOf (ok (row ∷ [])) answer = answer ≡ ok row
OneOf (ok (row ∷ next ∷ rows)) answer =
    (e : GoError) × (answer ≡ err e)
    × ((target : Sentinel) → errors_is e target ≡ errors_is (sentinel too_many_rows) target)

exactly_one-OneOf : (rows : List Row) → OneOf (ok rows) (exactly_one rows)
unfolding exactly_one errors_is
exactly_one-OneOf [] = refl
exactly_one-OneOf (row ∷ []) = refl
exactly_one-OneOf (row ∷ next ∷ rows) = (_, refl, λ target. refl)

module _ {W : Type 0} (s : Schema W) where
  -- `OneContext` runs the statement just as `ManyContext` does and leaves the same world. Where that
  -- returns one row it returns the row; where it returns none, ErrNoRows; where it returns several, an
  -- error that errors.Is takes for ErrTooManyRows and nothing else; and an error it passes on.
  pub one_context_lem :
      (statement : Text) (arguments : List Value) (w w' : W) (rows : Fallible (List Row))
      → many_context s statement arguments w ≡ (w', returned rows)
      → (answer : Fallible Row) × (one_context s statement arguments w ≡ (w', returned answer))
        × OneOf rows answer
  unfolding one_context one_row
  one_context_lem statement arguments w w' (err e) h = (err e, rw h refl, refl)
  one_context_lem statement arguments w w' (ok rows) h =
      (exactly_one rows, rw h refl, exactly_one-OneOf rows)
