-- ===== src/Functions/Dispatch/Messages.antt =====
-- Every error of the dispatcher is known by its text, and so gets SQLSTATE 38000 when the engine
-- passes its text on.
use mathlib.Core.Path.{subst}
use pgmem.Errors.Chain.{sql_state_of_function}
use pgmem.Functions.Registry.{ScalarFunction, FunctionRegistry, implementation}
use pgmem.Functions.Dispatch.{
  FunctionDatabases, phrase, finish_value, after_call, invoke_found, in_database, routed,
  dispatch_scalar_function, as_string,
}
use pgmem.Common.{◌≡◌, refl, Option, none, some, List, ◌∷◌, ◌++◌, append_assoc, nat_Key, length}
use pgmem.Common.Text.{Text, codes, text_Key}
use pgmem.Errors.{
  other_code, GoError, sqlite, message, sql_state, error_panic, other_panic, Outcome, returned,
  panicked,
}
use pgmem.Values.{Value, clone_arguments}
use pgmem.Common.Dict.{lookup}

-- The text of an error, if there is one, begins with the phrase.
abbrev pub Phrased : Option GoError → Type 0
Phrased none = Unit {0}
Phrased (some e) = (rest : Text) × (message e ≡ phrase ++ rest)

finish_value-Phrased :
    (schema name : Text) (r : Value × Option GoError) → Phrased (finish_value schema name r).1
unfolding finish_value message
finish_value-Phrased schema name (v, none) = tt
finish_value-Phrased schema name (v, some e) = (_, refl)

after_call-Phrased :
    (schema name : Text) (o : Outcome (Value × Option GoError))
    → Phrased (after_call schema name o).1
unfolding after_call message
after_call-Phrased schema name (panicked (error_panic e)) = (_, refl)
after_call-Phrased schema name (panicked (other_panic text)) = (_, refl)
after_call-Phrased schema name (returned (v, some e)) = (_, refl)
after_call-Phrased schema name (returned (v, none)) = finish_value-Phrased schema name _

regroup : (a b c d : Text) → (a ++ b) ++ (c ++ d) ≡ (a ++ (b ++ c)) ++ d
regroup a b c d = simp append_assoc

module _ {W : Type 0} where
  invoke_found-Phrased :
      (schema name : Text) (arguments : List Value) (f : Option (ScalarFunction W)) (w : W)
      → Phrased (invoke_found schema name arguments f w).2
  unfolding invoke_found message
  invoke_found-Phrased schema name arguments none w = (_, refl)
  invoke_found-Phrased schema name arguments (some f) w =
      after_call-Phrased schema name (f w (clone_arguments arguments)).1

  in_database-Phrased :
      (schema name : Text) (arguments : List Value) (r : Option (FunctionRegistry W)) (w : W)
      → Phrased (in_database schema name arguments r w).2
  unfolding in_database message
  in_database-Phrased schema name arguments none w = (_, refl)
  in_database-Phrased schema name arguments (some r) w =
      invoke_found-Phrased schema name arguments (implementation schema name (length arguments) r) w

  routed-Phrased :
      (databases : FunctionDatabases W) (id schema name : Option Text) (arguments : List Value)
      (w : W)
      → Phrased (routed databases id schema name arguments w).2
  unfolding routed message
  routed-Phrased databases (some id) (some schema) (some name) arguments w =
      in_database-Phrased schema name arguments (lookup id databases) w
  routed-Phrased databases _ _ _ arguments w = (_, refl)

  dispatch-Phrased :
      (databases : FunctionDatabases W) (arguments : List Value) (w : W)
      → Phrased (dispatch_scalar_function databases arguments w).2
  unfolding dispatch_scalar_function message
  dispatch-Phrased databases (id ∷ schema ∷ name ∷ arguments) w =
      routed-Phrased databases (as_string id) (as_string schema) (as_string name) arguments w
  dispatch-Phrased databases _ w = (_, refl)

  -- Whatever the dispatcher is called with and whatever the callback does, if the dispatcher reports an
  -- error and the engine reports a failure without a constraint or lock code whose text holds the
  -- text of that error, then the SQLSTATE is 38000.
  pub dispatch-sql_state :
      (databases : FunctionDatabases W) (arguments : List Value) (w : W) (e : GoError)
      (before after : Text)
      → (dispatch_scalar_function databases arguments w).2 ≡ some e
      → sql_state (sqlite other_code (before ++ message e ++ after)) ≡ codes "38000"
  dispatch-sql_state databases arguments w e before after h =
      let (rest, q) = subst Phrased h (dispatch-Phrased databases arguments w) in
      rw q (
        subst (λ t. sql_state (sqlite other_code t) ≡ codes "38000")
          (regroup before phrase rest after) (sql_state_of_function before (rest ++ after)))
