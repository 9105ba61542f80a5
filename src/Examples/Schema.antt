-- ===== src/Examples/Schema.antt =====
-- A script whose second statement fails, and a query of no rows.
use pgmem.Examples.World.{ends, World, start, engine, translate, failure, engine-Transactional}
use pgmem.Schema.Translate.{Schema, translate_statements}
use pgmem.Schema.Execution.{
  interceptors_first, exec_context, query_context, many_context, one_context,
}
use pgmem.Schema.Execution.Script.{exec_context-atomic, query_context-atomic}
use pgmem.Schema.Execution.Single.{OneOf, one_context_lem}
use pgmem.Schema.Command.{PgQuery}
use pgmem.Tree.{PgTrees, Messages}
use pgmem.Common.{◌≡◌, refl, true, none, some, [], ◌∷◌, nat_Key}
use pgmem.Common.Text.{Text, codes, text_Key}
use pgmem.Errors.{GoError, execution_error, returned, Fallible, ok, err}
use pgmem.Values.{Row}

abbrev pub pg : PgQuery
pg = record {
  parse_kinds = λ t. none;
  split_with_parser = λ t. some (codes "INSERT" ∷ codes " " ∷ codes "FAIL" ∷ []);
}

abbrev trees : PgTrees
trees = record { parse = λ t. ok Messages.nil; deparse = λ m. ok [] }

abbrev schema : Schema World
schema = record {
  name = codes "tests";
  attached = true;
  engine = engine;
  pg = pg;
  trees = trees;
  translator = λ name t. translate t;
  dispatch_id = codes "1";
  functions = λ w. [];
  interceptors = λ w. record { next_id = 0; entries = [] };
}

abbrev script : Text
script = codes "INSERT; ;FAIL"

abbrev failed : GoError
failed = execution_error (codes "FAIL") failure

exec_fails : exec_context schema script [] start ≡ (start, returned (err failed))
unfolding exec_context
exec_fails = refl

query_fails : query_context schema script [] start ≡ (start, returned (err failed))
unfolding query_context
query_fails = refl

exec_context-atomic_example : start.stored ≡ 0
unfolding translate_statements interceptors_first
exec_context-atomic_example =
    exec_context-atomic schema ends (λ w. w.stored) engine-Transactional (λ n t w. refl) script []
      start start failed refl tt (refl, (refl, tt)) exec_fails

query_context-atomic_example : start.stored ≡ 0
unfolding translate_statements interceptors_first
query_context-atomic_example =
    query_context-atomic schema ends (λ w. w.stored) engine-Transactional (λ n t w. refl) script []
      start start failed refl tt (refl, (refl, tt)) query_fails

no_rows_many : many_context schema (codes "SELECT") [] start ≡ (start, returned (ok []))
unfolding many_context
no_rows_many = refl

one_context_lem_example :
    (answer : Fallible Row) × (one_context schema (codes "SELECT") [] start
      ≡ (start, returned answer))
    × OneOf (ok []) answer
one_context_lem_example =
    one_context_lem schema (codes "SELECT") [] start start (ok []) no_rows_many
