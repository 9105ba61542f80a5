-- ===== src/Driver/Leaks.antt =====
-- The pinned connection of a transaction: it is acquired by BeginTx and released once; and the connection
-- of a query's rows, which are closed also where the names of their columns cannot be read. What the
-- engine does is a hypothesis, `Pins`: which of the pool's connections are held.
use pgmem.Driver.Pins.{Pins, Grown, pinned, serve, serve_all}
use pgmem.Driver.Borrows.{closed_rows-held, translated-Borrowed, closed_rows-ledger}
use mathlib.Core.Path.{subst, ap}
use pgmem.Engine.{ExecAnswer, Executor, RowSet, Effect, Engine}
use pgmem.Driver.Ledger.{Ledger, ledger}
use pgmem.Driver.Coherent.{
  Call, execs, queries, prepares, pings, shuts, begins, finishes, passes, step,
  run_statement-ledger, column_names-ledger, ping-ledger,
}
use pgmem.Driver.{
  exec_context, query_context, prepare_context, named_value_arguments, SqlStatement, executor,
  ping_executor, SqlTransaction, Session, TxOptions, valid_locked, translate_locked,
  translated_text, answered, run_translated, run_statement, column_names, ping, pinged, begin_tx,
  acquired, started, end_transaction, finish, abandoned, close,
}
use pgmem.Common.{
  ℕ, ◌≡◌, inl, inr, refl, sym, ◌∙◌, Bool, true, false, Option, none, List, [], ◌∷◌, arith,
  Bool-cases, Option-cases, nat_Key, All, ap,
}
use pgmem.Common.Text.{Text, text_Key}
use pgmem.Errors.{Fallible, ok, err}

module _ {W : Type 0} (engine : Engine W) (translate : Text → Effect W Text) (held : W → List ℕ)
    (lent : ℕ → W → Option ℕ) (pins : Pins engine translate held lent) where
  -- The connections that the adapter holds are the one of the active transaction.
  abbrev pub NoLeak : Session W → Type 0
  NoLeak s = held s.world ≡ pinned s.transaction

  started-NoLeak :
      (s : Session W) (c : ℕ) (r : W × Fallible ℕ)
      → held r.0 ≡ c ∷ []
      → s.transaction ≡ none
      → NoLeak (started engine translate s c r).0
  unfolding started
  started-NoLeak s c (w, err e) h n = rw n (pins.close_held c w ∙ rw h (ground arith))
  started-NoLeak s c (w, ok t) h n = h

  acquired-NoLeak :
      (options : TxOptions) (s : Session W) (r : W × Fallible ℕ)
      → Grown held [] r
      → s.transaction ≡ none
      → NoLeak (acquired engine translate options s r).0
  unfolding acquired
  acquired-NoLeak options s (w, err e) h n = rw n h
  acquired-NoLeak options s (w, ok c) h n =
      started-NoLeak s c _ (pins.begin_held c options.isolation options.read_only w ∙ h) n

  begin_tx-NoLeak :
      (options : TxOptions) (s : Session W)
      → NoLeak s
      → NoLeak (begin_tx engine translate options s).0
  unfolding begin_tx
  begin_tx-NoLeak options s h = elim (Option-cases (valid_locked engine translate s)) [
    | inr (e, v) ↦ ground (arith, v)
    | inl v ↦ elim (Option-cases s.transaction) [
      | inr (t, a) ↦ ground (arith, v, a)
      | inl a ↦
          let begun : begin_tx engine translate options s
              ≡ acquired engine translate options s (engine.conn s.world) =
            ground (arith, v, a) in
          subst (λ (r : Session W × Fallible SqlTransaction). NoLeak r.0) (sym begun)
            (acquired-NoLeak options s (engine.conn s.world)
              (subst (λ ds. Grown held ds (engine.conn s.world)) (h ∙ ap pinned a)
                (pins.conn_held s.world))
              a)
    ]
  ]

  end_transaction-held :
      (commit : Bool) (t : SqlTransaction) (w : W)
      → held w ≡ t.connection ∷ []
      → held (end_transaction engine translate commit t w).0 ≡ []
  unfolding end_transaction
  end_transaction-held true t w h =
      pins.close_held t.connection _ ∙ rw (pins.commit_held t.transaction w, h) (ground arith)
  end_transaction-held false t w h =
      pins.close_held t.connection _ ∙ rw (pins.rollback_held t.transaction w, h) (ground arith)

  finish-NoLeak :
      (commit : Bool) (id : ℕ) (s : Session W)
      → NoLeak s
      → NoLeak (finish engine translate commit id s).0
  unfolding finish
  finish-NoLeak commit id s h = elim (Option-cases s.transaction) [
    | inl n ↦ ground (arith, n)
    | inr (t, a) ↦ ground (arith, a, end_transaction-held commit t s.world (h ∙ ap pinned a))
  ]

  close-NoLeak : (s : Session W) → NoLeak s → NoLeak (close engine translate s).0
  unfolding close abandoned
  close-NoLeak s h = elim (Bool-cases s.is_shut) [
    | inl e ↦ ground (arith, e)
    | inr e ↦ elim (Option-cases s.transaction) [
      | inl n ↦ ground (arith, e, n)
      | inr (t, a) ↦ ground (arith, e, a, end_transaction-held false t s.world (h ∙ ap pinned a))
    ]
  ]

  translate_locked-held :
      (statement : Text) (s : Session W)
      → held (translate_locked engine translate statement s).0.world ≡ held s.world
  unfolding translate_locked translated_text
  translate_locked-held statement s = ground (arith, pins.translate_held statement s.world)

  module _ {A B : Type 0} (call : Executor → Text → Effect W A)
      (keeps : (x : Executor) (t : Text) (w : W) → held (call x t w).0 ≡ held w) where
    run_translated-held :
        (statement : Text) (wrap_up : A → B) (r : Session W × Fallible Text)
        → held (run_translated engine translate statement wrap_up call r).0.world ≡ held r.0.world
    unfolding run_translated answered
    run_translated-held statement wrap_up (s, err e) = refl
    run_translated-held statement wrap_up (s, ok text) =
        ground (arith, keeps (executor s.transaction) text s.world)

    run_statement-held :
        (statement : Text) (wrap_up : A → B) (s : Session W)
        → held (run_statement engine translate statement wrap_up call s).0.world ≡ held s.world
    unfolding run_statement
    run_statement-held statement wrap_up s =
        run_translated-held statement wrap_up (translate_locked engine translate statement s)
        ∙ translate_locked-held statement s

  ping-held : (s : Session W) → held (ping engine translate s).0.world ≡ held s.world
  unfolding ping pinged
  ping-held s =
      ground (arith, pins.ping_held (ping_executor engine translate s.transaction) s.world)

  -- A call that leaves both the held connections and the ledger alone.
  kept : (s t : Session W) → held t.world ≡ held s.world → ledger t ≡ ledger s → NoLeak s → NoLeak t
  kept s t e l h = e ∙ h ∙ ap (λ (x : Ledger). pinned x.transaction) (sym l)

  -- A change from outside that holds or releases no connection of the pool.
  abbrev pub Calm : Call W → Type 0
  Calm (passes f) = (w : W) → held (f w) ≡ held w
  Calm _ = Unit {0}

  serve-NoLeak :
      (s : Session W) (c : Call W) → Calm c → NoLeak s → NoLeak (serve engine translate s c)
  unfolding serve step exec_context query_context prepare_context run_statement
  serve-NoLeak s (execs statement arguments) calm h =
      let call : Executor → Text → Effect W ExecAnswer =
        λ x text. engine.exec x text (named_value_arguments arguments) in
      kept s (serve engine translate s (execs statement arguments))
        (run_statement-held call (λ x t w. pins.exec_held x t _ w) statement (λ r. r) s)
        (run_statement-ledger engine translate statement (λ r. r) call s) h
  serve-NoLeak s (queries statement arguments) calm h =
      let call : Executor → Text → Effect W RowSet =
        λ x text. engine.query x text (named_value_arguments arguments) in
      let r = run_statement engine translate statement (λ (x : RowSet). x) call s in
      kept s (serve engine translate s (queries statement arguments))
        (closed_rows-held engine translate held lent pins statement (held s.world) r (
          translated-Borrowed engine translate held lent pins statement
            (named_value_arguments arguments) (held s.world)
            (translate_locked engine translate statement s) (translate_locked-held statement s)))
        (closed_rows-ledger engine translate held lent pins statement
            (column_names engine translate statement r)
          ∙ column_names-ledger engine translate statement r
          ∙ run_statement-ledger engine translate statement (λ r. r) call s)
        h
  serve-NoLeak s (prepares statement) calm h =
      let wrap_up : ℕ → SqlStatement = λ p. record { statement = statement; prepared = p } in
      kept s (serve engine translate s (prepares statement))
        (run_statement-held engine.prepare pins.prepare_held statement wrap_up s)
        (run_statement-ledger engine translate statement wrap_up engine.prepare s) h
  serve-NoLeak s pings calm h =
      kept s (serve engine translate s pings) (ping-held s) (ping-ledger engine translate s) h
  serve-NoLeak s shuts calm h = close-NoLeak s h
  serve-NoLeak s (begins options) calm h = begin_tx-NoLeak options s h
  serve-NoLeak s (finishes commit id) calm h = finish-NoLeak commit id s h
  serve-NoLeak s (passes f) calm h = calm s.world ∙ h

  -- In an engine that keeps count of connections as `Pins` says: from a session that holds just the
  -- connection of its active transaction, or none, after any calls of the adapter, in any order, where
  -- the rows that a query returns are closed before the next call, whatever the engine answers, and
  -- with changes from outside that keep the pool's connections as they are, the adapter holds the one
  -- connection of the active transaction, or none where no transaction is active.
  pub run-NoLeak :
      (s : Session W) (cs : List (Call W))
      → All Calm cs
      → NoLeak s
      → NoLeak (serve_all engine translate s cs)
  unfolding serve_all
  run-NoLeak s [] calm h = h
  run-NoLeak s (c ∷ cs) calm h =
      run-NoLeak (serve engine translate s c) cs calm.1 (serve-NoLeak s c calm.0 h)
