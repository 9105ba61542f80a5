-- ===== src/Examples/Functions.antt =====
-- A registered function of one argument, its overloads, and a statement that calls it.
use pgmem.Tree.{Message, Messages, CallFlags, func_call, string_node, const_node, absent}
use pgmem.Functions.Registry.{
  negative_arity, ScalarFunction, Function, FunctionRegistry, register_function, implementation,
  overloads_of, dispatch_function_name,
}
use pgmem.Functions.Registry.Register.{
  Accepted, register_fixed, register_variadic, register_error, register-Accepted_iff,
}
use pgmem.Functions.Normal.{normalize_function_result}
use pgmem.Functions.Normal.Bounds.{Normalized, normalize_function_result-Normalized}
use pgmem.Functions.Dispatch.{no_overload_error, FunctionDatabases, dispatch_scalar_function}
use pgmem.Functions.Dispatch.Messages.{dispatch-sql_state}
use pgmem.Functions.Dispatch.Calls.{route, dispatch-register_fixed, Reports}
use pgmem.Functions.Rewrite.{
  ◌>>=◌, names_dispatcher, plain_scalar_call, dispatcher_call, routed_to, called_function,
  rewrite_messages,
}
use pgmem.Functions.Rewrite.Guard.{guarded_all, rewrite_messages-guarded}
use pgmem.Common.{
  ℕ, ◌+◌, ◌≡◌, ◌≢◌, ◌↔◌, refl, Bool, true, false, ◌&&◌, none, some, List, [], ◌∷◌, ◌++◌, arith, leb,
  nat_eq, if◌then◌else◌, nat_Key, length,
}
use pgmem.Common.Dict.{lookup}
use pgmem.Common.Text.{Text, codes, text_eq, text_Key, to_lower, equal_fold, matches_name}
use pgmem.Common.Signed.{pos, negsuc}
use pgmem.Errors.{other_code, GoError, sqlite, message, sql_state, other_panic, returned, panicked}
use pgmem.Values.{Value}
use mathlib.Core.Option

-- Counts its calls and returns its arguments' number, or panics on none.
abbrev double : ScalarFunction ℕ
double w [] = (w, panicked (other_panic (codes "no arguments")))
double w (v ∷ vs) = (w + 1, returned (Value.uint8 (length (v ∷ vs)), none))

abbrev function : Bool → Function ℕ
function variadic = record {
  name = codes "Double";
  arity = pos 1;
  variadic = variadic;
  implementation = some double;
}

abbrev negative : Function ℕ
negative = record (function false) { arity = negsuc 0 }

double-Accepted : Accepted (codes "Double")
unfolding matches_name equal_fold
double-Accepted = (refl, refl)

register_fixed_example :
    ((register_function (some (codes "main")) false (function false) []).1 ≡ none)
    × ((s n : Text) (k : ℕ)
        → implementation s n k (register_function (some (codes "main")) false (function false) []).0
          ≡ (if text_eq (codes "main") s && text_eq (to_lower (codes "Double")) n && nat_eq 1 k
              then some double
              else implementation s n k []))
register_fixed_example =
    register_fixed (codes "main") (function false) [] 1 double double-Accepted refl refl refl

register_variadic_example :
    ((register_function (some (codes "main")) false (function true) []).1 ≡ none)
    × ((s n : Text) (k : ℕ)
        → implementation s n k (register_function (some (codes "main")) false (function true) []).0
          ≡ (if text_eq (codes "main") s && text_eq (to_lower (codes "Double")) n
              then (elim (lookup k (overloads_of s n []).fixed) [
                | some g ↦ some g
                | none ↦ if leb 1 k then some double else none
              ])
              else implementation s n k []))
register_variadic_example =
    register_variadic (codes "main") (function true) [] 1 double double-Accepted refl refl refl

register_error_example : (register_function (some (codes "main")) false negative []).0 ≡ []
unfolding register_function
register_error_example =
    register_error (some (codes "main")) false negative [] (negative_arity (codes "Double")) refl

register-Accepted_iff_example :
    ((register_function (some (codes "main")) false (function false) []).1 ≡ none) ↔ (
      (some (codes "main") ≢ none)
      × Accepted (codes "Double")
      × ((n : ℕ) × (pos 1 ≡ pos n))
      × (some double ≢ none)
      × (false ≡ false))
register-Accepted_iff_example =
    register-Accepted_iff (some (codes "main")) false (function false) []

normalize_function_result-Normalized_example :
    Normalized (Value.uint64 300) (normalize_function_result (Value.uint64 300))
normalize_function_result-Normalized_example =
    normalize_function_result-Normalized (Value.uint64 300) (omega arith)

-- The registry once `Double` has been registered, in a database with id 4.
abbrev databases : FunctionDatabases ℕ
databases = (codes "4", (register_function (some (codes "main")) false (function false) []).0) ∷ []

abbrev one_argument : List Value
one_argument = Value.bool true ∷ []

found :
    lookup (codes "4") databases
    ≡ some (register_function (some (codes "main")) false (function false) []).0
unfolding lookup text_eq
found = refl

dispatch-register_fixed_example :
    let (w', v, e) =
      dispatch_scalar_function databases
        (route (codes "4") (codes "main") (to_lower (codes "Double")) one_argument)
        0 in
    (w' ≡ 1) × Reports (double 0 one_argument).1 (v, e)
dispatch-register_fixed_example =
    dispatch-register_fixed databases [] (function false) (codes "4") (codes "main") double
      one_argument 0 double-Accepted refl refl refl found

-- A call without arguments finds no overload.
abbrev missing : GoError
missing = no_overload_error (codes "main") (codes "double") 0

missing_dispatch :
    (dispatch_scalar_function databases (route (codes "4") (codes "main") (codes "double") []) 0).2
    ≡ some missing
unfolding dispatch_scalar_function register_function
missing_dispatch = refl

dispatch-sql_state_example :
    sql_state (sqlite other_code (codes "SQL logic error: " ++ message missing ++ codes " (1)"))
    ≡ codes "38000"
dispatch-sql_state_example =
    dispatch-sql_state databases (route (codes "4") (codes "main") (codes "double") []) 0 missing
      (codes "SQL logic error: ") (codes " (1)") missing_dispatch

abbrev flags : CallFlags
flags = record { agg_star = false; agg_distinct = false; func_variadic = false }

abbrev call_of : Text → Messages → Message
call_of name args =
    func_call flags (Messages.cons (string_node name) Messages.nil) args Messages.nil absent absent

abbrev tree : Messages
tree = Messages.cons (call_of (codes "DOUBLE") Messages.nil) Messages.nil

abbrev rewritten : Messages
rewritten =
    Messages.cons
      (call_of dispatch_function_name (
        Messages.cons (const_node (codes "4")) (
          Messages.cons (const_node (codes "public"))
            (Messages.cons (const_node (codes "double")) Messages.nil))))
      Messages.nil

abbrev public_registry : FunctionRegistry ℕ
public_registry = (register_function (some (codes "public")) false (function false) []).0

rewrite_messages-tree :
    rewrite_messages public_registry (codes "4") (codes "main") tree ≡ some (rewritten, true)
unfolding rewrite_messages ◌>>=◌ names_dispatcher plain_scalar_call dispatcher_call routed_to
    called_function Option.bind register_function
rewrite_messages-tree = refl

rewrite_messages-guarded_example : guarded_all public_registry (codes "4") rewritten ≡ true
rewrite_messages-guarded_example =
    rewrite_messages-guarded public_registry (codes "4") (codes "main") tree rewrite_messages-tree
