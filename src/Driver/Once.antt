-- ===== src/Driver/Once.antt =====
-- Commit and Rollback act on a transaction object once.
use mathlib.Core.Path.{subst}
use pgmem.Engine.{ExecAnswer, Executor, RowSet, Effect, Engine}
use pgmem.Driver.Ledger.{Ledger, ledger}
use pgmem.Driver.Coherent.{
  Call, execs, queries, prepares, pings, shuts, begins, finishes, passes, step, run,
  run_statement-ledger, column_names-ledger, ping-ledger,
}
use pgmem.Driver.{
  exec_context, query_context, prepare_context, named_value_arguments, SqlStatement, run_statement,
  SqlTransaction, Session, TxOptions, member, begin_tx, acquired, started, finish, abandoned, close,
}
use pgmem.Common.{ℕ, ◌≡◌, refl, sym, ◌∙◌, Bool, true, some, List, [], ◌∷◌, arith, nat_Key}
use pgmem.Common.Text.{Text, text_Key}
use pgmem.Errors.{tx_done, sentinel, Fallible, ok, err}

module _ {W : Type 0} (engine : Engine W) (translate : Text → Effect W Text) where
  acquired-finished :
      (options : TxOptions) (s : Session W) (r : W × Fallible ℕ)
      → (acquired engine translate options s r).0.finished ≡ s.finished
  unfolding acquired started
  acquired-finished options s (w, err e) = refl
  acquired-finished options s (w, ok c) = ground arith

  begin_tx-finished :
      (options : TxOptions) (s : Session W)
      → (begin_tx engine translate options s).0.finished ≡ s.finished
  unfolding begin_tx
  begin_tx-finished options s = ground (arith, acquired-finished options s (engine.conn s.world))

  finish-finished :
      (commit : Bool) (id j : ℕ) (s : Session W)
      → member j s.finished ≡ true
      → member j (finish engine translate commit id s).0.finished ≡ true
  unfolding finish
  finish-finished commit id j s h = ground arith

  close-finished :
      (j : ℕ) (s : Session W)
      → member j s.finished ≡ true
      → member j (close engine translate s).0.finished ≡ true
  unfolding close abandoned
  close-finished j s h = ground arith

  abbrev Done : ℕ → Ledger → Type 0
  Done j l = member j l.finished ≡ true

  -- What is finished stays finished.
  step-finished :
      (j : ℕ) (s : Session W) (c : Call W)
      → Done j (ledger s)
      → Done j (ledger (step engine translate s c))
  unfolding step exec_context query_context prepare_context
  step-finished j s (execs statement arguments) h =
      subst (Done j)
        (sym (
          run_statement-ledger engine translate {A = ExecAnswer} statement (λ r. r)
            (λ x text. engine.exec x text (named_value_arguments arguments)) s))
        h
  step-finished j s (queries statement arguments) h =
      let call : Executor → Text → Effect W RowSet =
        λ x text. engine.query x text (named_value_arguments arguments) in
      let r = run_statement engine translate statement (λ (r : RowSet). r) call s in
      subst (Done j)
        (sym (
          column_names-ledger engine translate statement r
          ∙ run_statement-ledger engine translate statement (λ r. r) call s))
        h
  step-finished j s (prepares statement) h =
      let wrap_up : ℕ → SqlStatement = λ p. record { statement = statement; prepared = p } in
      subst (Done j)
        (sym (run_statement-ledger engine translate statement wrap_up engine.prepare s)) h
  step-finished j s pings h = subst (Done j) (sym (ping-ledger engine translate s)) h
  step-finished j s shuts h = close-finished j s h
  step-finished j s (begins options) h =
      subst (λ f. member j f ≡ true) (sym (begin_tx-finished options s)) h
  step-finished j s (finishes commit id) h = finish-finished commit id j s h
  step-finished j s (passes f) h = h

  run-finished :
      (j : ℕ) (s : Session W) (cs : List (Call W))
      → Done j (ledger s)
      → Done j (ledger (run engine translate s cs))
  unfolding run
  run-finished j s [] h = h
  run-finished j s (c ∷ cs) h =
      run-finished j (step engine translate s c) cs (step-finished j s c h)

  finish-active :
      (s : Session W) (commit : Bool) (t : SqlTransaction)
      → s.transaction ≡ some t
      → Done t.id (ledger (finish engine translate commit t.id s).0)
  unfolding finish
  finish-active s commit t a = ground (arith, a)

  finish-Done :
      (s : Session W) (again : Bool) (id : ℕ)
      → Done id (ledger s)
      → finish engine translate again id s ≡ (s, some (sentinel tx_done))
  unfolding finish
  finish-Done s again id h = ground arith

  -- After Commit or Rollback on the active transaction object, any later Commit or Rollback on that
  -- object, after any calls in between, reports sql.ErrTxDone and leaves the session and the world as
  -- they were.
  pub finish_once :
      (s : Session W) (cs : List (Call W)) (commit again : Bool) (t : SqlTransaction)
      → s.transaction ≡ some t
      → let later = run engine translate (finish engine translate commit t.id s).0 cs in
        finish engine translate again t.id later ≡ (later, some (sentinel tx_done))
  finish_once s cs commit again t a =
      finish-Done _ again t.id (run-finished t.id _ cs (finish-active s commit t a))
