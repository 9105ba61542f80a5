-- ===== src/Schema/Execution/Script.antt =====
-- `ExecContext` and `QueryContext` of a script: what a call that reports an error leaves stored.
use pgmem.Schema.Execution.Atomic.{
  Transactional, Undone, NotOne, exec_all-stored, query_last-stored, run_script-Undone, StaysOpen,
}
use pgmem.Engine.{pool}
use pgmem.Schema.Translate.{Schema, translate_statements}
use pgmem.Schema.Translate.Stored.{translate_statements-stored}
use pgmem.Schema.Execution.{
  exec_one, query_one, exec_all, query_last, run_script, intercepted, interceptors_first,
  exec_context, query_context,
}
use mathlib.Core.Path.{subst}
use pgmem.Common.{◌≡◌, ◌∙◌, true, false, none, some, List, nat_Key, Bool}
use pgmem.Common.Text.{Text, text_Key}
use pgmem.Intercept.{Answer}
use pgmem.Errors.{GoError, Outcome, returned, panicked, Fallible, err}
use pgmem.Values.{Value, Result, empty_result}

module _ {W D : Type 0} (s : Schema W) (ends : Text → Bool) (stored : W → D)
    (laws : Transactional s.engine ends stored)
    (translator_stored : (n t : Text) (w : W) → stored (s.translator n t w).0 ≡ stored w) where
  abbrev Unstored : W → W × Outcome (Fallible Result) → Type 0
  Unstored w (w', panicked p) = Unit {0}
  Unstored w (w', returned answer) = Undone s ends stored laws w (w', answer)

  intercepted-Undone :
      (rest : W → W × Fallible Result) (w : W) (r : W × Outcome Answer)
      → stored r.0 ≡ stored w
      → Undone s ends stored laws w (rest r.0)
      → Unstored w (intercepted s rest r)
  unfolding intercepted
  intercepted-Undone rest w (w', panicked p) b h = tt
  intercepted-Undone rest w (w', returned (result, handled, some e)) b h = b
  intercepted-Undone rest w (w', returned (result, true, none)) b h = tt
  intercepted-Undone rest w (w', returned (result, false, none)) b h = h

  -- In an engine with transactions (`Transactional`), where neither the interceptors nor the translator
  -- change what is stored and the script has no or several statements, none of which ends its
  -- transaction (or its translation fails), an `ExecContext` that reports an error has changed nothing that is stored, whichever statement,
  -- translation, begin or commit the error comes from.
  pub exec_context-atomic :
      (statement : Text) (arguments : List Value) (w w' : W) (e : GoError)
      → stored (interceptors_first s statement arguments w).0 ≡ stored w
      → NotOne (translate_statements s statement (interceptors_first s statement arguments w).0).1
      → StaysOpen ends
          (translate_statements s statement (interceptors_first s statement arguments w).0).1
      → exec_context s statement arguments w ≡ (w', returned (err e))
      → stored w' ≡ stored w
  unfolding exec_context
  exec_context-atomic statement arguments w w' e b many open_ c =
      let w0 = (interceptors_first s statement arguments w).0 in
      subst (Unstored w) c (
        intercepted-Undone
          (λ w.
            run_script s (exec_one s pool) (λ t xs. exec_all s t xs empty_result) statement
              arguments (translate_statements s statement w))
          w (interceptors_first s statement arguments w) b
          (run_script-Undone s ends stored laws (exec_one s pool)
            (λ t xs. exec_all s t xs empty_result) statement arguments w
            (translate_statements s statement w0)
            (λ t xs. exec_all-stored s ends stored laws t xs empty_result) many open_
            (translate_statements-stored s stored translator_stored statement w0 ∙ b)))

  -- In an engine with transactions (`Transactional`), where neither the interceptors nor the translator
  -- change what is stored and the script has no or several statements, none of which ends its
  -- transaction (or its translation fails), a `QueryContext` that reports an error has changed nothing that is stored, whether it comes from the
  -- translation, from a statement that is executed, from the last one, whose rows are read, or from
  -- begin or commit.
  pub query_context-atomic :
      (statement : Text) (arguments : List Value) (w w' : W) (e : GoError)
      → stored (interceptors_first s statement arguments w).0 ≡ stored w
      → NotOne (translate_statements s statement (interceptors_first s statement arguments w).0).1
      → StaysOpen ends
          (translate_statements s statement (interceptors_first s statement arguments w).0).1
      → query_context s statement arguments w ≡ (w', returned (err e))
      → stored w' ≡ stored w
  unfolding query_context
  query_context-atomic statement arguments w w' e b many open_ c =
      let w0 = (interceptors_first s statement arguments w).0 in
      subst (Unstored w) c (
        intercepted-Undone
          (λ w.
            run_script s (query_one s pool) (λ t xs. query_last s t xs empty_result) statement
              arguments (translate_statements s statement w))
          w (interceptors_first s statement arguments w) b
          (run_script-Undone s ends stored laws (query_one s pool)
            (λ t xs. query_last s t xs empty_result) statement arguments w
            (translate_statements s statement w0)
            (λ t xs. query_last-stored s ends stored laws t xs empty_result) many open_
            (translate_statements-stored s stored translator_stored statement w0 ∙ b)))
