-- ===== src/Driver.antt =====
-- driver.go: a connection of the database/sql adapter and its transaction. The lock of a connection
-- makes each call one step. Translation is a parameter here, since it is the schema's.
pub mod Ledger
pub mod Coherent
pub mod Pins
pub mod Borrows
pub mod Leaks
pub mod Once
pub mod Statement
use pgmem.Engine.{Executor, pool, in_tx, on_conn, ExecAnswer, RowSet, Effect, Engine}
use pgmem.Common.{
  ℕ, ◌+◌, Bool, true, false, ◌&&◌, ◌||◌, not, Option, none, some, List, [], ◌∷◌, nat_eq,
  if◌then◌else◌, nat_Key,
}
use pgmem.Common.Text.{Text, codes, text_eq, text_Key}
use pgmem.Errors.{
  closed, tx_done, bad_conn, GoError, sentinel, plain, errors_is, execution_error, Fallible, ok,
  err,
}
use pgmem.Values.{Value}

-- An `sqlTransaction`, by its identity; the mutable field `finished` is kept by the session.
pub record SqlTransaction : Type 0 where
  pub id : ℕ
  pub connection : ℕ
  pub transaction : ℕ

-- An `sqlConnection`, with the ids of the transaction objects that are finished, the next id, and the
-- world.
pub record Session (W : Type 0) : Type 0 where
  pub has_database : Bool
  pub has_schema : Bool
  pub transaction : Option SqlTransaction
  pub is_shut : Bool
  pub finished : List ℕ
  pub next_id : ℕ
  pub world : W

-- `sqlStatement`
pub record SqlStatement : Type 0 where
  pub statement : Text
  pub prepared : ℕ

-- The fields of `driver.TxOptions`
pub record TxOptions : Type 0 where
  pub isolation : ℕ
  pub read_only : Bool

abbrev pub member : ℕ → List ℕ → Bool
member n [] = false
member n (m ∷ ms) = nat_eq m n || member n ms

abbrev pub is_active : ℕ → Option SqlTransaction → Bool
is_active id none = false
is_active id (some t) = nat_eq t.id id

abbrev pub executor : Option SqlTransaction → Executor
executor none = pool
executor (some t) = in_tx t.transaction

abbrev pub active_error : GoError
active_error = plain (codes "pgmem: transaction already active")

-- The error that a call reports for an engine error, with the statement at hand.
abbrev pub reported : Text → Option GoError → Option GoError
reported statement none = none
reported statement (some e) = some (execution_error statement e)

abbrev pub first_error : Option GoError → Option GoError → Option GoError
first_error (some e) f = some e
first_error none f = f

-- A rollback of a transaction that is done already is no error.
abbrev pub rollback_error : Option GoError → Option GoError
rollback_error none = none
rollback_error (some e) = if errors_is e tx_done then none else some e

-- `namedValueArguments`
unfoldable pub named_value_arguments : List (Text × Value) → List Value
unfolding text_eq
named_value_arguments [] = []
named_value_arguments ((name, value) ∷ arguments) =
    (if text_eq name [] then value else Value.named name value) ∷ named_value_arguments arguments

module _ {W : Type 0} (engine : Engine W) (translate : Text → Effect W Text) where
  -- `Connect`, for a connector with or without a database and a schema
  unfoldable pub connect : Bool → Bool → W → Fallible (Session W)
  connect has_database has_schema w = elim (engine.ctx_err w) [
    | some e ↦ err e
    | none ↦
        if not has_database || not has_schema || engine.is_closed w
        then err (sentinel closed)
        else ok (record {
          has_database = has_database;
          has_schema = has_schema;
          transaction = none;
          is_shut = false;
          finished = [];
          next_id = 0;
          world = w;
        })
  ]

  abbrev unusable : Session W → Bool
  unusable s = s.is_shut || not s.has_database || not s.has_schema || engine.is_closed s.world

  -- `validLocked`
  pub valid_locked : Session W → Option GoError
  valid_locked s = elim (engine.ctx_err s.world) [
    | some e ↦ some e
    | none ↦ if unusable s then some (sentinel closed) else none
  ]

  -- `translateLocked`, and what follows it if it succeeds
  translated_text : Session W → W × Fallible Text → Session W × Fallible Text
  translated_text s (w, answer) = (record s { world = w }, answer)

  translate_locked : Text → Session W → Session W × Fallible Text
  unfolding valid_locked translated_text
  translate_locked statement s = elim (valid_locked s) [
    | some e ↦ (s, err e)
    | none ↦ translated_text s (translate statement s.world)
  ]

  module _ {A B : Type 0} where
    -- The engine's answer, as the call reports it.
    answered : Text → (A → B) → Session W → W × Fallible A → Session W × Fallible B
    answered statement wrap_up s (w, ok a) = (record s { world = w }, ok (wrap_up a))
    answered statement wrap_up s (w, err e) =
        (record s { world = w }, err (execution_error statement e))

    -- Translate, then run on the transaction if there is one, else on the pool.
    pub run_translated :
        Text
        → (A → B)
        → (Executor → Text → Effect W A)
        → Session W × Fallible Text
        → Session W × Fallible B
    unfolding answered
    run_translated statement wrap_up run (s, err e) = (s, err e)
    run_translated statement wrap_up run (s, ok text) =
        answered statement wrap_up s (run (executor s.transaction) text s.world)

    pub run_statement :
        Text → (A → B) → (Executor → Text → Effect W A) → Session W → Session W × Fallible B
    unfolding translate_locked run_translated
    run_statement statement wrap_up run s =
        run_translated statement wrap_up run (translate_locked statement s)

  -- `PrepareContext`
  unfoldable pub prepare_context : Text → Session W → Session W × Fallible SqlStatement
  unfolding run_statement
  prepare_context statement s =
      run_statement statement (λ p. record { statement = statement; prepared = p }) engine.prepare s

  -- `ExecContext`
  unfoldable pub exec_context :
      Text → List (Text × Value) → Session W → Session W × Fallible ExecAnswer
  unfolding run_statement named_value_arguments
  exec_context statement arguments s =
      run_statement statement (λ r. r)
        (λ x text. engine.exec x text (named_value_arguments arguments)) s

  -- `newSQLRows`: where Columns fails, the rows are closed
  pub column_names : Text → Session W × Fallible RowSet → Session W × Fallible RowSet
  column_names statement (s, err e) = (s, err e)
  column_names statement (s, ok rows) = elim rows.columns [
    | ok columns ↦ (s, ok rows)
    | err e ↦ (
      record s { world = (engine.close_rows rows.handle s.world).0 },
      err (execution_error statement e),
    )
  ]

  -- `QueryContext`
  unfoldable pub query_context :
      Text → List (Text × Value) → Session W → Session W × Fallible RowSet
  unfolding run_statement named_value_arguments column_names
  query_context statement arguments s = column_names statement (
      run_statement statement (λ r. r)
        (λ x text. engine.query x text (named_value_arguments arguments)) s)

  ping_executor : Option SqlTransaction → Executor
  ping_executor none = pool
  ping_executor (some t) = on_conn t.connection

  pinged : Session W → W × Option GoError → Session W × Option GoError
  pinged s (w, e) = (record s { world = w }, reported [] e)

  -- `Ping`
  unfoldable pub ping : Session W → Session W × Option GoError
  unfolding valid_locked ping_executor pinged
  ping s = elim (valid_locked s) [
    | some e ↦ (s, some e)
    | none ↦ pinged s (engine.ping (ping_executor s.transaction) s.world)
  ]

  started : Session W → ℕ → W × Fallible ℕ → Session W × Fallible SqlTransaction
  started s c (w, err e) =
      (record s { world = (engine.close_conn c w).0 }, err (execution_error [] e))
  started s c (w, ok tx) =
      let t : SqlTransaction = record { id = s.next_id; connection = c; transaction = tx } in
      (record s { world = w; transaction = some t; next_id = s.next_id + 1 }, ok t)

  acquired : TxOptions → Session W → W × Fallible ℕ → Session W × Fallible SqlTransaction
  unfolding started
  acquired options s (w, err e) = (record s { world = w }, err (execution_error [] e))
  acquired options s (w, ok c) =
      started s c (engine.begin_tx c options.isolation options.read_only w)

  -- `BeginTx`
  unfoldable pub begin_tx : TxOptions → Session W → Session W × Fallible SqlTransaction
  unfolding valid_locked acquired
  begin_tx options s = elim (valid_locked s) [
    | some e ↦ (s, err e)
    | none ↦ elim s.transaction [
      | some t ↦ (s, err active_error)
      | none ↦ acquired options s (engine.conn s.world)
    ]
  ]

  -- The end of a transaction in the engine: the operation, then the release of its connection.
  pub end_transaction : Bool → SqlTransaction → W → W × Option GoError × Option GoError
  end_transaction commit t w =
      let (w₁, operation) =
        (if commit then engine.commit t.transaction w else engine.rollback t.transaction w) in
      let (w₂, release) = engine.close_conn t.connection w₁ in (w₂, operation, release)

  -- `finish`: Commit or Rollback of the transaction object with that identity. It goes on only with
  -- the active object, whose fields it then reads.
  unfoldable pub finish : Bool → ℕ → Session W → Session W × Option GoError
  unfolding end_transaction
  finish commit id s = elim s.transaction [
    | none ↦ (s, some (sentinel tx_done))
    | some t ↦
        if member id s.finished || not (nat_eq t.id id)
        then (s, some (sentinel tx_done))
        else (let (w, operation, release) = end_transaction commit t s.world in
            (
              record s { finished = id ∷ s.finished; transaction = none; world = w },
              first_error (reported [] operation) (reported [] release),
            ))
  ]

  abandoned : SqlTransaction → Session W → Session W × Option GoError
  unfolding end_transaction
  abandoned t s =
      let (w, operation, release) = end_transaction false t s.world in
      (
        record s { is_shut = true; finished = t.id ∷ s.finished; transaction = none; world = w },
        first_error (reported [] (rollback_error operation)) (reported [] release),
      )

  -- `Close` of a connection
  unfoldable pub close : Session W → Session W × Option GoError
  unfolding abandoned
  close s = if s.is_shut then (s, none) else (elim s.transaction [
    | none ↦ (record s { is_shut = true }, none)
    | some t ↦ abandoned t s
  ])

  -- `ResetSession`
  pub reset_session : Session W → Option GoError
  reset_session s = elim (engine.ctx_err s.world) [
    | some e ↦ some e
    | none ↦
        if unusable s
        then some (sentinel bad_conn)
        else (elim s.transaction [ none ↦ none | some t ↦ some (sentinel bad_conn) ])
  ]

  -- `IsValid`
  pub is_valid : Session W → Bool
  is_valid s =
      not s.is_shut
      && (elim s.transaction [ none ↦ true | some t ↦ false ])
      && s.has_database
      && not (engine.is_closed s.world)
