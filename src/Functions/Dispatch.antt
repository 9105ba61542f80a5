-- ===== src/Functions/Dispatch.antt =====
-- `dispatchScalarFunction` and `invokeScalarFunction` of function.go: the function that the engine
-- calls in place of every registered one. A panic of a callback is recovered.
pub mod Calls
pub mod Messages
use pgmem.Functions.Registry.{ScalarFunction, FunctionRegistry, implementation}
use pgmem.Functions.Normal.{normalize_function_result}
use pgmem.Common.{ℕ, Option, none, some, List, [], ◌∷◌, ◌++◌, nat_Key, length}
use pgmem.Common.Dict.{Dict, lookup}
use pgmem.Common.Text.{Text, codes, text_Key, decimal}
use pgmem.Errors.{GoError, plain, wrap, error_panic, other_panic, Outcome, returned, panicked}
use pgmem.Values.{Value, clone_arguments}

-- `functionDatabases`: the registries of the open databases, by dispatch id.
abbrev pub FunctionDatabases : Type 0 → Type 0
FunctionDatabases W = Dict Text (FunctionRegistry W)

abbrev pub phrase : Text
phrase = codes "pgmem function"

-- "pgmem function %s.%s" and what follows
abbrev pub label : Text → Text → Text → Text
label schema name rest = phrase ++ codes " " ++ schema ++ codes "." ++ name ++ rest

abbrev pub failed : GoError → Value × Option GoError
failed e = (Value.nil, some e)

finish_value : Text → Text → Value × Option GoError → Value × Option GoError
finish_value schema name (v, none) = (v, none)
finish_value schema name (v, some e) =
    failed (wrap (label schema name (codes " returned an invalid value: ")) e [])

-- What `invokeScalarFunction` returns when the callback has returned or panicked.
unfoldable pub after_call : Text → Text → Outcome (Value × Option GoError) → Value × Option GoError
unfolding finish_value normalize_function_result
after_call schema name (panicked (error_panic e)) =
    failed (wrap (label schema name (codes " panicked: ")) e [])
after_call schema name (panicked (other_panic text)) =
    failed (plain (label schema name (codes " panicked: ") ++ text))
after_call schema name (returned (v, some e)) =
    failed (wrap (label schema name (codes " failed: ")) e [])
after_call schema name (returned (v, none)) = finish_value schema name (normalize_function_result v)

abbrev routing_expected : GoError
routing_expected = plain (phrase ++ codes " dispatcher: expected routing arguments")

abbrev routing_invalid : GoError
routing_invalid = plain (phrase ++ codes " dispatcher: invalid routing arguments")

abbrev pub closed_error : Text → Text → GoError
closed_error schema name = plain (label schema name (codes ": database is closed"))

abbrev pub no_overload_error : Text → Text → ℕ → GoError
no_overload_error schema name count =
    plain
      (label schema name (codes ": no overload accepts " ++ decimal count ++ codes " arguments"))

-- value.(string)
as_string : Value → Option Text
as_string (Value.string s) = some s
as_string _ = none

module _ {W : Type 0} where
  -- `invokeScalarFunction`
  unfoldable pub invoke_scalar_function :
      Text → Text → ScalarFunction W → List Value → W → W × Value × Option GoError
  unfolding after_call
  invoke_scalar_function schema name f arguments w =
      let (w', outcome) = f w arguments in let (v, e) = after_call schema name outcome in (w', v, e)

  invoke_found :
      Text → Text → List Value → Option (ScalarFunction W) → W → W × Value × Option GoError
  unfolding invoke_scalar_function clone_arguments
  invoke_found schema name arguments none w =
      (w, Value.nil, some (no_overload_error schema name (length arguments)))
  invoke_found schema name arguments (some f) w =
      invoke_scalar_function schema name f (clone_arguments arguments) w

  in_database :
      Text → Text → List Value → Option (FunctionRegistry W) → W → W × Value × Option GoError
  unfolding invoke_found implementation
  in_database schema name arguments none w = (w, Value.nil, some (closed_error schema name))
  in_database schema name arguments (some registry) w =
      invoke_found schema name arguments (implementation schema name (length arguments) registry) w

  routed :
      FunctionDatabases W
      → Option Text
      → Option Text
      → Option Text
      → List Value
      → W
      → W × Value × Option GoError
  unfolding in_database lookup
  routed databases (some id) (some schema) (some name) arguments w =
      in_database schema name arguments (lookup id databases) w
  routed databases _ _ _ arguments w = (w, Value.nil, some routing_invalid)

  -- `dispatchScalarFunction`
  unfoldable pub dispatch_scalar_function :
      FunctionDatabases W → List Value → W → W × Value × Option GoError
  unfolding routed as_string
  dispatch_scalar_function databases (id ∷ schema ∷ name ∷ arguments) w =
      routed databases (as_string id) (as_string schema) (as_string name) arguments w
  dispatch_scalar_function databases _ w = (w, Value.nil, some routing_expected)
