-- ===== src/Driver/Statement/Drain.antt =====
-- A reader that calls Next until io.EOF.
use pgmem.Values.Copies.{clone_arguments_lem}
use pgmem.Engine.{RowSet}
use pgmem.Driver.Statement.{rows_next, end_of_rows}
use pgmem.Common.{
  ℕ, zero, suc, ◌<◌, ◌≡◌, refl, ap, Option, none, some, List, [], ◌∷◌, arith, nat_Key, length,
}
use pgmem.Common.Text.{Text, text_Key}
use pgmem.Errors.{eof, GoError, sentinel, execution_error, Fallible, ok, err}
use pgmem.Values.{Value}

-- Calls of Next, at most that many, up to the first error; the rows and that error.
pub drain : ℕ → Text → RowSet → List (List Value) × Option GoError
unfolding rows_next
drain zero statement rows = ([], none)
drain (suc n) statement rows =
    let (rows', answer) = rows_next statement rows in
    let later = drain n statement rows' in
    elim answer [ ok values ↦ (values ∷ later.0, later.1) | err e ↦ ([], some e) ]

abbrev pub scanned_ok : List (List Value) → List (Fallible (List Value))
scanned_ok [] = []
scanned_ok (values ∷ rows) = ok values ∷ scanned_ok rows

end_of_rows_lem :
    (statement : Text) (e : Option GoError)
    → end_of_rows statement e
      ≡ (elim e [ none ↦ sentinel eof | some e ↦ execution_error statement e ])
unfolding end_of_rows
end_of_rows_lem statement none = refl
end_of_rows_lem statement (some e) = refl

-- Where every row scans, one call of Next more than there are rows, or any larger number of calls,
-- yields every row with its values in order, and then io.EOF if the rows end well, or the error that
-- they end with as an execution error of the statement.
pub drain_all :
    (n : ℕ) (statement : Text) (rows : RowSet) (values : List (List Value))
    → rows.scans ≡ scanned_ok values
    → length values < n
    → drain n statement rows ≡ (
      values,
      some (elim rows.rows_err [ none ↦ sentinel eof | some e ↦ execution_error statement e ]),
    )
unfolding drain
drain_all zero statement rows values h enough = absurd (omega arith)
drain_all (suc n) statement rows [] h enough =
    rw h (ap (λ e. ([], some e)) (end_of_rows_lem statement rows.rows_err))
drain_all (suc n) statement rows (row ∷ values) h enough =
    rw (h, clone_arguments_lem row)
      (ap (λ (r : List (List Value) × Option GoError). (row ∷ r.0, r.1))
        (drain_all n statement (record rows { scans = scanned_ok values }) values refl
          (omega arith)))
