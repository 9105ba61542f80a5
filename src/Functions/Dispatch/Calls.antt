-- ===== src/Functions/Dispatch/Calls.antt =====
-- Which callback the dispatcher runs, and with what.
use pgmem.Functions.Normal.{normalize_function_result}
use pgmem.Errors.{GoError, Outcome, message, wrap, returned, panicked, error_panic, other_panic}
use pgmem.Values.Copies.{clone_arguments_lem}
use pgmem.Functions.Registry.{
  ScalarFunction, Function, FunctionRegistry, implementation, register_function,
}
use pgmem.Functions.Registry.Register.{Accepted, register_fixed}
use pgmem.Functions.Dispatch.{
  closed_error, FunctionDatabases, after_call, invoke_scalar_function, invoke_found, in_database,
  routed, dispatch_scalar_function, finish_value, label,
}
use pgmem.Common.{none, ◌≡◌, refl, false, some, List, ◌∷◌, arith, nat_Key, length, Option, ◌++◌}
use pgmem.Common.Dict.{lookup}
use pgmem.Common.Text.{Text, text_Key, to_lower, codes}
use pgmem.Common.TextLaws.{text_eq_refl}
use pgmem.Common.Signed.{pos}
use pgmem.Values.{Value}

-- The arguments that the rewritten call passes before those of the call.
abbrev pub route : Text → Text → Text → List Value → List Value
route id schema name arguments =
    Value.string id ∷ Value.string schema ∷ Value.string name ∷ arguments

-- An error around another, which it wraps, and no value.
abbrev pub Wraps : GoError → Value × Option GoError → Type 0
Wraps e r = (before after : Text) × (r ≡ (Value.nil, some (wrap before e after)))

-- What comes of a value that has been normalised.
abbrev pub ReportsValue : Value × Option GoError → Value × Option GoError → Type 0
ReportsValue (v, none) r = r ≡ (v, none)
ReportsValue (v, some e) r = Wraps e r

-- What the dispatcher makes of a callback that has returned or panicked: its value, normalised; else
-- no value and an error that wraps the callback's error, the error it panicked with, or the one of
-- normalising, or whose message ends with what it panicked with.
abbrev pub Reports : Outcome (Value × Option GoError) → Value × Option GoError → Type 0
Reports (returned (v, none)) r = ReportsValue (normalize_function_result v) r
Reports (returned (v, some e)) r = Wraps e r
Reports (panicked (error_panic e)) r = Wraps e r
Reports (panicked (other_panic text)) r =
    (e : GoError) × (before : Text) × (r ≡ (Value.nil, some e)) × (message e ≡ before ++ text)

finish_value-Reports :
    (schema name : Text) (r : Value × Option GoError) → ReportsValue r (finish_value schema name r)
unfolding finish_value
finish_value-Reports schema name (v, none) = refl
finish_value-Reports schema name (v, some e) = (_, _, refl)

after_call-Reports :
    (schema name : Text) (o : Outcome (Value × Option GoError))
    → Reports o (after_call schema name o)
unfolding after_call message
after_call-Reports schema name (returned (v, none)) = finish_value-Reports schema name _
after_call-Reports schema name (returned (v, some e)) = (_, _, refl)
after_call-Reports schema name (panicked (error_panic e)) = (_, _, refl)
after_call-Reports schema name (panicked (other_panic text)) =
    (_, label schema name (codes " panicked: "), refl, refl)

module _ {W : Type 0} where
  dispatch-implementation :
      (databases : FunctionDatabases W) (registry : FunctionRegistry W) (id schema name : Text)
      (arguments : List Value) (f : ScalarFunction W) (w : W)
      → lookup id databases ≡ some registry
      → implementation schema name (length arguments) registry ≡ some f
      → dispatch_scalar_function databases (route id schema name arguments) w
        ≡ invoke_scalar_function schema name f arguments w
  unfolding dispatch_scalar_function routed in_database invoke_found
  dispatch-implementation databases registry id schema name arguments f w open_ found =
      rw (open_, in_database, found, invoke_found, clone_arguments_lem arguments) refl

  -- After a fixed function has been registered in a schema of an open database, a dispatch with that
  -- database's id, that schema, the name in lower case and as many arguments as its arity runs it once
  -- on just those arguments, and returns the value it returned, normalised; or no value and an error
  -- that wraps the callback's error, the error it panicked with or the one of normalising, or whose
  -- message ends with what it panicked with.
  pub dispatch-register_fixed :
      (databases : FunctionDatabases W) (registry : FunctionRegistry W) (function : Function W)
      (id schema : Text) (f : ScalarFunction W) (arguments : List Value) (w : W)
      → Accepted function.name
      → function.arity ≡ pos (length arguments)
      → function.implementation ≡ some f
      → function.variadic ≡ false
      → lookup id databases ≡ some (register_function (some schema) false function registry).0
      → let (w', v, e) =
          dispatch_scalar_function databases
            (route id schema (to_lower function.name) arguments)
            w in
        (w' ≡ (f w arguments).0) × Reports (f w arguments).1 (v, e)
  unfolding invoke_scalar_function
  dispatch-register_fixed databases registry function id schema f arguments w fits a i v open_ =
      rw
        (dispatch-implementation databases _ id schema (to_lower function.name) arguments f w open_
          (rw
            (
              (register_fixed schema function registry (length arguments) f fits a i v).1 schema
                  (to_lower function.name) (length arguments),
              text_eq_refl schema,
              text_eq_refl (to_lower function.name),
            )
            (ground arith)))
        (refl, after_call-Reports schema (to_lower function.name) (f w arguments).1)

  -- A dispatch with an id that no open database has fails and runs no callback.
  pub dispatch_closed :
      (databases : FunctionDatabases W) (id schema name : Text) (arguments : List Value) (w : W)
      → lookup id databases ≡ none
      → dispatch_scalar_function databases (route id schema name arguments) w
        ≡ (w, Value.nil, some (closed_error schema name))
  unfolding dispatch_scalar_function routed in_database
  dispatch_closed databases id schema name arguments w gone = rw (gone, in_database) refl
