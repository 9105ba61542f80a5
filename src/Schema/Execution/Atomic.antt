-- ===== src/Schema/Execution/Atomic.antt =====
-- A script of several statements is atomic: `Transactional` says what database/sql promises of
-- transactions, of the part of the world that is stored for good.
use pgmem.Schema.Command.{statement_command}
use pgmem.Engine.{in_tx, RowSet, Effect, Engine, ExecAnswer}
use pgmem.Schema.Translate.{Schema, ExecutableStatement}
use pgmem.Schema.Execution.{
  executed, exec_one, queried, query_one, committed, settle, after_one, exec_all, query_last,
  in_transaction, run_script,
}
use pgmem.Common.{
  ℕ, ◌≡◌, refl, ◌∙◌, Option, none, some, List, [], ◌∷◌, arith, nat_Key, Bool, false, true,
}
use pgmem.Common.Text.{Text, text_Key}
use pgmem.Errors.{GoError, Fallible, ok, err, execution_error}
use pgmem.Values.{Value, Result}

-- A transaction is open once an operation has succeeded.
abbrev pub OpenIfOk : {W A : Type 0} → (ℕ → W → Bool) → ℕ → W × Fallible A → Type 0
OpenIfOk is_open t (w, ok a) = is_open t w ≡ true
OpenIfOk is_open t (w, err e) = Unit {0}

-- The transaction that was begun is open.
abbrev pub BegunOpen : {W : Type 0} → (ℕ → W → Bool) → W × Fallible ℕ → Type 0
BegunOpen is_open (w, ok t) = is_open t w ≡ true
BegunOpen is_open (w, err e) = Unit {0}

-- Work in an open transaction, a rollback and a commit that fails change nothing that is stored; nor do
-- the start of a transaction and the end of reading rows. A transaction that was begun is open, and
-- stays so after a statement that succeeds, but for a text that ends the transaction it is run in,
-- COMMIT for one: such a text may store, as may work in a transaction that has ended.
pub record Transactional {W D : Type 0} (engine : Engine W) (ends : Text → Bool) (stored : W → D)
    : Type 0 where
  pub is_open : ℕ → W → Bool
  pub begin_open : (w : W) → BegunOpen is_open (engine.begin_pool w)
  pub begin_stored : (w : W) → stored (engine.begin_pool w).0 ≡ stored w
  pub exec_stored :
      (t : ℕ) (q : Text) (a : List Value) (w : W)
      → is_open t w ≡ true
      → ends q ≡ false
      → stored (engine.exec (in_tx t) q a w).0 ≡ stored w
  pub exec_open :
      (t : ℕ) (q : Text) (a : List Value) (w : W)
      → is_open t w ≡ true
      → ends q ≡ false
      → OpenIfOk is_open t (engine.exec (in_tx t) q a w)
  pub query_stored :
      (t : ℕ) (q : Text) (a : List Value) (w : W)
      → is_open t w ≡ true
      → ends q ≡ false
      → stored (engine.query (in_tx t) q a w).0 ≡ stored w
  pub rows_stored : (r : ℕ) (w : W) → stored (engine.close_rows r w).0 ≡ stored w
  pub rollback_stored : (t : ℕ) (w : W) → stored (engine.rollback t w).0 ≡ stored w
  pub commit_stored :
      (t : ℕ) (w w' : W) (e : GoError) → engine.commit t w ≡ (w', some e) → stored w' ≡ stored w

-- No statement, as the engine gets it, ends the transaction.
abbrev pub NoneEnds : (Text → Bool) → List ExecutableStatement → Type 0
NoneEnds ends [] = Unit {0}
NoneEnds ends (x ∷ xs) = (ends x.translated ≡ false) × NoneEnds ends xs

-- The same of the outcome of a translation.
abbrev pub StaysOpen : (Text → Bool) → Fallible (List ExecutableStatement) → Type 0
StaysOpen ends (ok xs) = NoneEnds ends xs
StaysOpen ends (err e) = Unit {0}

-- No more or no fewer than one statement.
abbrev pub NotOne : Fallible (List ExecutableStatement) → Type 0
NotOne (ok (x ∷ [])) = ⊥
NotOne _ = Unit {0}

module _ {W D : Type 0} (s : Schema W) (ends : Text → Bool) (stored : W → D)
    (laws : Transactional s.engine ends stored) where
  exec_one-stored :
      (t : ℕ) (x : ExecutableStatement) (arguments : List Value) (w : W)
      → laws.is_open t w ≡ true
      → ends x.translated ≡ false
      → stored (exec_one s (in_tx t) x arguments w).0 ≡ stored w
  unfolding exec_one executed
  exec_one-stored t x arguments w o n =
      ground (arith, laws.exec_stored t x.translated arguments w o n)

  executed-open :
      (t : ℕ) (x : ExecutableStatement) (r : W × Fallible ExecAnswer)
      → OpenIfOk laws.is_open t r
      → OpenIfOk laws.is_open t (executed s x r)
  unfolding executed
  executed-open t x (w, err e) h = tt
  executed-open t x (w, ok answer) h =
      elim answer.rows_affected
        as (λ count. OpenIfOk {A = Result} laws.is_open t (elim count [
          | err e ↦ (w, err (execution_error x.source e))
          | ok n ↦ (
            w,
            ok (record { rows = none; row_count = n; command = statement_command s.pg x.source }),
          )
        ])) [ err e ↦ tt | ok n ↦ h ]

  exec_one-open :
      (t : ℕ) (x : ExecutableStatement) (arguments : List Value) (w : W)
      → laws.is_open t w ≡ true
      → ends x.translated ≡ false
      → OpenIfOk laws.is_open t (exec_one s (in_tx t) x arguments w)
  unfolding exec_one
  exec_one-open t x arguments w o n =
      executed-open t x (s.engine.exec (in_tx t) x.translated arguments w)
        (laws.exec_open t x.translated arguments w o n)

  query_one-stored :
      (t : ℕ) (x : ExecutableStatement) (arguments : List Value) (w : W)
      → laws.is_open t w ≡ true
      → ends x.translated ≡ false
      → stored (query_one s (in_tx t) x arguments w).0 ≡ stored w
  unfolding query_one
  query_one-stored t x arguments w o n =
      go (s.engine.query (in_tx t) x.translated arguments w)
      ∙ laws.query_stored t x.translated arguments w o n
    where
      go : (r : W × Fallible RowSet) → stored (queried s x r).0 ≡ stored r.0
      go (w', err e) = unfold queried in refl
      go (w', ok rows) = unfold queried in laws.rows_stored rows.handle w'

  after_one-stored :
      (t : ℕ) (rest : Result → Effect W Result) (r : W × Fallible Result)
      → ((result : Result) (w : W) → laws.is_open t w ≡ true → stored (rest result w).0 ≡ stored w)
      → OpenIfOk laws.is_open t r
      → stored (after_one s rest r).0 ≡ stored r.0
  unfolding after_one
  after_one-stored t rest (w, err e) h o = refl
  after_one-stored t rest (w, ok result) h o = h result w o

  pub exec_all-stored :
      (t : ℕ) (xs : List ExecutableStatement) (last : Result) (w : W)
      → laws.is_open t w ≡ true
      → NoneEnds ends xs
      → stored (exec_all s t xs last w).0 ≡ stored w
  unfolding exec_all
  exec_all-stored t [] last w o n = refl
  exec_all-stored t (x ∷ xs) last w o n =
      after_one-stored t (exec_all s t xs) (exec_one s (in_tx t) x [] w)
        (λ result w o. exec_all-stored t xs result w o n.1) (exec_one-open t x [] w o n.0)
      ∙ exec_one-stored t x [] w o n.0

  pub query_last-stored :
      (t : ℕ) (xs : List ExecutableStatement) (last : Result) (w : W)
      → laws.is_open t w ≡ true
      → NoneEnds ends xs
      → stored (query_last s t xs last w).0 ≡ stored w
  unfolding query_last
  query_last-stored t [] last w o n = refl
  query_last-stored t (x ∷ []) last w o n = query_one-stored t x [] w o n.0
  query_last-stored t (x ∷ y ∷ xs) last w o n =
      after_one-stored t (query_last s t (y ∷ xs)) (exec_one s (in_tx t) x [] w)
        (λ result w o. query_last-stored t (y ∷ xs) result w o n.1) (exec_one-open t x [] w o n.0)
      ∙ exec_one-stored t x [] w o n.0

  -- A call that reports an error has stored nothing.
  abbrev pub Undone : W → W × Fallible Result → Type 0
  Undone w (w', ok result) = Unit {0}
  Undone w (w', err e) = stored w' ≡ stored w

  committed-Undone :
      (t : ℕ) (script : Text) (w w' : W) (result : Result) (r : W × Option GoError)
      → s.engine.commit t w' ≡ r
      → stored w' ≡ stored w
      → Undone w (committed s t script result r)
  unfolding committed
  committed-Undone t script w w' result (w'', none) c h = tt
  committed-Undone t script w w' result (w'', some e) c h =
      laws.rollback_stored t w'' ∙ laws.commit_stored t w' w'' e c ∙ h

  settle-Undone :
      (t : ℕ) (script : Text) (w : W) (r : W × Fallible Result)
      → stored r.0 ≡ stored w
      → Undone w (settle s t script r)
  unfolding settle
  settle-Undone t script w (w', err e) h = laws.rollback_stored t w' ∙ h
  settle-Undone t script w (w', ok result) h =
      committed-Undone t script w w' result (s.engine.commit t w') refl h

  in_transaction-Undone :
      (script : Text) (body : ℕ → Effect W Result) (w : W)
      → ((t : ℕ) (w : W) → laws.is_open t w ≡ true → stored (body t w).0 ≡ stored w)
      → (r : W × Fallible ℕ) → stored r.0 ≡ stored w
      → BegunOpen laws.is_open r
      → Undone w (in_transaction s script body r)
  unfolding in_transaction
  in_transaction-Undone script body w h (w', err e) b o = b
  in_transaction-Undone script body w h (w', ok t) b o =
      settle-Undone t script w (body t w') (h t w' o ∙ b)

  pub run_script-Undone :
      (one : ExecutableStatement → List Value → Effect W Result)
      (body : ℕ → List ExecutableStatement → Effect W Result) (script : Text)
      (arguments : List Value) (w : W) (r : W × Fallible (List ExecutableStatement))
      → ((t : ℕ) (xs : List ExecutableStatement) (w : W)
          → laws.is_open t w ≡ true
          → NoneEnds ends xs
          → stored (body t xs w).0 ≡ stored w)
      → NotOne r.1
      → StaysOpen ends r.1
      → stored r.0 ≡ stored w
      → Undone w (run_script s one body script arguments r)
  unfolding run_script
  run_script-Undone one body script arguments w (w', err e) h many n b = b
  run_script-Undone one body script arguments w (w', ok (x ∷ [])) h many n b = absurd many
  run_script-Undone one body script [] w (w', ok []) h many n b =
      in_transaction-Undone script (λ t. body t []) w (λ t w o. h t [] w o n)
        (s.engine.begin_pool w') (laws.begin_stored w' ∙ b) (laws.begin_open w')
  run_script-Undone one body script [] w (w', ok (x ∷ y ∷ xs)) h many n b =
      in_transaction-Undone script (λ t. body t (x ∷ y ∷ xs)) w (λ t w o. h t (x ∷ y ∷ xs) w o n)
        (s.engine.begin_pool w') (laws.begin_stored w' ∙ b) (laws.begin_open w')
  run_script-Undone one body script (a ∷ arguments) w (w', ok []) h many n b = b
  run_script-Undone one body script (a ∷ arguments) w (w', ok (x ∷ y ∷ xs)) h many n b = b
