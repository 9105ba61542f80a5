-- ===== src/Driver/Borrows.antt =====
-- The rows of a query give back the connection that they hold, also where the names of their columns
-- cannot be read: `newSQLRows` then closes them itself.
use pgmem.Driver.Statement.{rows_close}
use pgmem.Driver.Pins.{Pins, Borrowed, loan, give_back, drop_conn, closed_rows}
use mathlib.Core.Path.{subst, ap}
use pgmem.Engine.{RowSet, Effect, Engine}
use pgmem.Driver.Ledger.{ledger}
use pgmem.Driver.{executor, Session, answered, run_translated, column_names}
use pgmem.Common.{ℕ, ◌≡◌, refl, ◌∙◌, Option, none, some, List, ◌∷◌, arith, nat_Key, ap}
use pgmem.Common.Text.{Text, text_Key}
use pgmem.Errors.{Fallible, ok, err, execution_error}
use pgmem.Values.{Value}

module _ {W : Type 0} (engine : Engine W) (translate : Text → Effect W Text) (held : W → List ℕ)
    (lent : ℕ → W → Option ℕ) (pins : Pins engine translate held lent) where
  -- What a query of the session holds.
  pub SessionBorrowed : List ℕ → Session W × Fallible RowSet → Type 0
  SessionBorrowed before (s, answer) = Borrowed held lent before (s.world, answer)

  answered-Borrowed :
      (statement : Text) (s : Session W) (before : List ℕ) (r : W × Fallible RowSet)
      → Borrowed held lent before r
      → SessionBorrowed before (answered engine translate statement (λ (x : RowSet). x) s r)
  unfolding answered SessionBorrowed
  answered-Borrowed statement s before (w, err e) h = h
  answered-Borrowed statement s before (w, ok rows) h = h

  pub translated-Borrowed :
      (statement : Text) (arguments : List Value) (before : List ℕ) (r : Session W × Fallible Text)
      → held r.0.world ≡ before
      → SessionBorrowed before (
          run_translated engine translate statement
            (λ (x : RowSet). x)
            (λ x text. engine.query x text arguments)
            r)
  unfolding run_translated
  translated-Borrowed statement arguments before (s, err e) h = unfold SessionBorrowed in h
  translated-Borrowed statement arguments before (s, ok text) h =
      answered-Borrowed statement s before
        (engine.query (executor s.transaction) text arguments s.world)
        (subst
          (λ cs.
            Borrowed held lent cs (engine.query (executor s.transaction) text arguments s.world))
          h (pins.query_held (executor s.transaction) text arguments s.world))

  drop_loan : (c : ℕ) (cs : List ℕ) → drop_conn c (c ∷ cs) ≡ cs
  drop_loan c cs = ground arith

  give_back-loan : (c : Option ℕ) (cs : List ℕ) → give_back c (loan c cs) ≡ cs
  give_back-loan none cs = refl
  give_back-loan (some c) cs = drop_loan c cs

  rows_closed :
      (rows : RowSet) (w : W) (before : List ℕ)
      → held w ≡ loan (lent rows.handle w) before
      → held (engine.close_rows rows.handle w).0 ≡ before
  rows_closed rows w before h =
      pins.rows_held rows.handle w
      ∙ ap (give_back (lent rows.handle w)) h
      ∙ give_back-loan (lent rows.handle w) before

  -- Whether the names of the columns are read or not, the rows have been closed in the end.
  pub closed_rows-held :
      (statement : Text) (before : List ℕ) (r : Session W × Fallible RowSet)
      → SessionBorrowed before r
      → held
          (closed_rows engine translate statement (column_names engine translate statement r)).world
        ≡ before
  unfolding closed_rows column_names rows_close SessionBorrowed
  closed_rows-held statement before (s, err e) h = h
  closed_rows-held statement before (s, ok rows) h =
      let closed = rows_closed rows s.world before h in
      elim rows.columns
        as (λ columns.
          held
            (closed_rows engine translate statement (elim columns [
              | ok names ↦ (s, ok rows)
              | err e ↦ (
                record s { world = (engine.close_rows rows.handle s.world).0 },
                err (execution_error statement e),
              )
            ])).world
          ≡ before) [ ok names ↦ closed | err e ↦ closed ]

  pub closed_rows-ledger :
      (statement : Text) (r : Session W × Fallible RowSet)
      → ledger (closed_rows engine translate statement r) ≡ ledger r.0
  unfolding closed_rows
  closed_rows-ledger statement (s, err e) = refl
  closed_rows-ledger statement (s, ok rows) = refl
