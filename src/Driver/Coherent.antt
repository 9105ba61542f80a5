-- ===== src/Driver/Coherent.antt =====
-- The invariant of a session: a transaction object is active or finished, and at most one is active.
use pgmem.Engine.{ExecAnswer, Executor, RowSet, Effect, Engine}
use mathlib.Core.Path.{subst}
use pgmem.Driver.Ledger.{Ledger, ledger, IsCoherent, opened, ended}
use pgmem.Driver.{
  named_value_arguments, TxOptions, acquired, started, connect, valid_locked, exec_context,
  prepare_context, query_context, SqlTransaction, Session, member, translate_locked,
  translated_text, answered, run_translated, run_statement, column_names, ping, pinged, begin_tx,
  finish, abandoned, close,
}
use pgmem.Common.{
  ℕ, ◌+◌, ◌≡◌, ◌⊎◌, inl, inr, refl, sym, ◌∙◌, Bool, true, false, ◌||◌, not, none, some, List, [],
  ◌∷◌, arith, Bool-cases, Option-cases, nat_Key, nat_eq,
}
use pgmem.Common.Text.{Text, text_Key}
use pgmem.Errors.{Fallible, ok, err}
use pgmem.Values.{Value}

-- The calls of database/sql on a connection and its transactions; `passes` is a change of the world
-- from outside.
pub data Call (W : Type 0) : Type 0 where
  execs queries : Text → List (Text × Value) → Call W
  prepares : Text → Call W
  pings shuts : Call W
  begins : TxOptions → Call W
  finishes : Bool → ℕ → Call W
  passes : (W → W) → Call W

module _ {W : Type 0} (engine : Engine W) (translate : Text → Effect W Text) where
  unfoldable pub step : Session W → Call W → Session W
  step s (execs statement arguments) = (exec_context engine translate statement arguments s).0
  step s (queries statement arguments) = (query_context engine translate statement arguments s).0
  step s (prepares statement) = (prepare_context engine translate statement s).0
  step s pings = (ping engine translate s).0
  step s shuts = (close engine translate s).0
  step s (begins options) = (begin_tx engine translate options s).0
  step s (finishes commit id) = (finish engine translate commit id s).0
  step s (passes f) = record s { world = f s.world }

  unfoldable pub run : Session W → List (Call W) → Session W
  unfolding step
  run s [] = s
  run s (c ∷ cs) = run (step s c) cs

  translate_locked-ledger :
      (statement : Text) (s : Session W)
      → ledger (translate_locked engine translate statement s).0 ≡ ledger s
  unfolding translate_locked translated_text
  translate_locked-ledger statement s = ground arith

  module _ {A B : Type 0} where
    run_translated-ledger :
        (statement : Text) (wrap_up : A → B) (call : Executor → Text → Effect W A)
        (r : Session W × Fallible Text)
        → ledger (run_translated engine translate statement wrap_up call r).0 ≡ ledger r.0
    unfolding run_translated answered
    run_translated-ledger statement wrap_up call (s, err e) = refl
    run_translated-ledger statement wrap_up call (s, ok text) = ground arith

    pub run_statement-ledger :
        (statement : Text) (wrap_up : A → B) (call : Executor → Text → Effect W A) (s : Session W)
        → ledger (run_statement engine translate statement wrap_up call s).0 ≡ ledger s
    unfolding run_statement
    run_statement-ledger statement wrap_up call s =
        run_translated-ledger statement wrap_up call (translate_locked engine translate statement s)
        ∙ translate_locked-ledger statement s

  pub column_names-ledger :
      (statement : Text) (r : Session W × Fallible RowSet)
      → ledger (column_names engine translate statement r).0 ≡ ledger r.0
  unfolding column_names
  column_names-ledger statement (s, err e) = refl
  column_names-ledger statement (s, ok rows) = ground arith

  pub ping-ledger : (s : Session W) → ledger (ping engine translate s).0 ≡ ledger s
  unfolding ping pinged
  ping-ledger s = ground arith

  -- What an attempt to begin a transaction does to the ledger.
  abbrev Begins : Session W → Session W → Type 0
  Begins s t =
      (ledger t ≡ ledger s)
      ⊎ ((x : SqlTransaction) × (x.id ≡ s.next_id)
          × (ledger t ≡ record (ledger s) { transaction = some x; next_id = s.next_id + 1 }))

  started-Begins :
      (s : Session W) (c : ℕ) (r : W × Fallible ℕ) → Begins s (started engine translate s c r).0
  unfolding started
  started-Begins s c (w, err e) = inl refl
  started-Begins s c (w, ok x) =
      inr (record { id = s.next_id; connection = c; transaction = x }, refl, refl)

  acquired-Begins :
      (options : TxOptions) (s : Session W) (r : W × Fallible ℕ)
      → Begins s (acquired engine translate options s r).0
  unfolding acquired
  acquired-Begins options s (w, err e) = inl refl
  acquired-Begins options s (w, ok c) = started-Begins s c _

  valid_locked-usable : (s : Session W) → valid_locked engine translate s ≡ none → s.is_shut ≡ false
  unfolding valid_locked
  valid_locked-usable s h = ground arith

  begin_tx-IsCoherent :
      (options : TxOptions) (s : Session W)
      → IsCoherent (ledger s)
      → IsCoherent (ledger (begin_tx engine translate options s).0)
  unfolding begin_tx
  begin_tx-IsCoherent options s h = elim (Option-cases (valid_locked engine translate s)) [
    | inr (e, v) ↦ subst IsCoherent (ground (arith, v)) h
    | inl v ↦ elim (Option-cases s.transaction) [
      | inr (t, a) ↦ subst IsCoherent (ground (arith, v, a)) h
      | inl a ↦ elim (acquired-Begins options s (engine.conn s.world)) [
        | inl same ↦ subst IsCoherent (ground (arith, v, a, same)) h
        | inr (x, i, begun) ↦
            subst IsCoherent (ground (arith, v, a, begun))
              (opened (ledger s) x h a (valid_locked-usable s v) i)
      ]
    ]
  ]

  finish-IsCoherent :
      (commit : Bool) (id : ℕ) (s : Session W)
      → IsCoherent (ledger s)
      → IsCoherent (ledger (finish engine translate commit id s).0)
  unfolding finish
  finish-IsCoherent commit id s h = elim (Option-cases s.transaction) [
    | inl n ↦ subst IsCoherent (ground (arith, n)) h
    | inr (t, a) ↦ elim (Bool-cases (member id s.finished || not (nat_eq t.id id))) [
      | inl e ↦ subst IsCoherent (ground (arith, a, e)) h
      | inr e ↦
          subst IsCoherent (ground (arith, a, e))
            (ended (ledger s) t s.is_shut h (ground (arith, a)))
    ]
  ]

  close-IsCoherent :
      (s : Session W) → IsCoherent (ledger s) → IsCoherent (ledger (close engine translate s).0)
  unfolding close abandoned
  close-IsCoherent s h = elim (Bool-cases s.is_shut) [
    | inl e ↦ subst IsCoherent (ground (arith, e)) h
    | inr e ↦ elim (Option-cases s.transaction) [
      | inl n ↦
          subst IsCoherent {x = record (ledger s) { is_shut = true }} (ground (arith, e, n))
            (record { fresh = h.fresh; active = h.active; accounted = h.accounted; shut = λ q. n })
      | inr (t, a) ↦
          subst IsCoherent (ground (arith, e, a)) (ended (ledger s) t true h (ground (arith, a)))
    ]
  ]

  step-IsCoherent :
      (s : Session W) (c : Call W) → IsCoherent (ledger s) → IsCoherent (ledger (step s c))
  unfolding step exec_context query_context prepare_context
  step-IsCoherent s (execs statement arguments) h =
      subst IsCoherent
        (sym (
          run_statement-ledger {A = ExecAnswer} statement (λ r. r)
            (λ x text. engine.exec x text (named_value_arguments arguments)) s))
        h
  step-IsCoherent s (queries statement arguments) h =
      let call : Executor → Text → Effect W RowSet =
        λ x text. engine.query x text (named_value_arguments arguments) in
      subst IsCoherent
        (sym (
          column_names-ledger statement (run_statement engine translate statement (λ r. r) call s)
          ∙ run_statement-ledger {A = RowSet} statement (λ r. r) call s))
        h
  step-IsCoherent s (prepares statement) h =
      subst IsCoherent
        (sym (
          run_statement-ledger {A = ℕ} statement
            (λ p. record { statement = statement; prepared = p }) engine.prepare s))
        h
  step-IsCoherent s pings h = subst IsCoherent (sym (ping-ledger s)) h
  step-IsCoherent s shuts h = close-IsCoherent s h
  step-IsCoherent s (begins options) h = begin_tx-IsCoherent options s h
  step-IsCoherent s (finishes commit id) h = finish-IsCoherent commit id s h
  step-IsCoherent s (passes f) h = h

  run-IsCoherent :
      (s : Session W) (cs : List (Call W)) → IsCoherent (ledger s) → IsCoherent (ledger (run s cs))
  unfolding run
  run-IsCoherent s [] h = h
  run-IsCoherent s (c ∷ cs) h = run-IsCoherent (step s c) cs (step-IsCoherent s c h)

  connect-IsCoherent :
      (has_database has_schema : Bool) (w : W) {s : Session W}
      → connect engine translate has_database has_schema w ≡ ok s
      → IsCoherent (ledger s)
  unfolding connect
  connect-IsCoherent d c w {s} h = subst (λ (x : Ledger). IsCoherent x) (ground arith) start
    where
      start :
          IsCoherent (record { transaction = none; is_shut = false; finished = []; next_id = 0 })
      start = record {
        fresh = λ id m. cc;
        active = λ t e. cc;
        accounted = λ id low. absurd (omega arith);
        shut = λ e. refl;
      }

  -- On a connection that a connector opened, after any calls of the adapter, in any order, with any
  -- answers of the engine and any changes of the world between them: every transaction object made so
  -- far is the active one or is finished, the active one is not finished, and a connection that has
  -- been closed has none.
  pub run-connect-IsCoherent :
      (has_database has_schema : Bool) (w : W) (s : Session W) (cs : List (Call W))
      → connect engine translate has_database has_schema w ≡ ok s
      → IsCoherent (ledger (run s cs))
  run-connect-IsCoherent d c w s cs h = run-IsCoherent s cs (connect-IsCoherent d c w h)
