-- ===== src/Functions/Registry/Register.antt =====
-- `RegisterFunction` as a whole: what it refuses, and what calls find after it.
use pgmem.Common.{
  inl, inr, ℕ, ◌≡◌, ◌≢◌, ◌↔◌, refl, Bool, true, false, ◌&&◌, Option, none, some, arith, leb, nat_eq,
  if◌then◌else◌, nat_Key,
}
use pgmem.Common.Dict.{lookup}
use pgmem.Common.Text.{Text, text_eq, text_Key, to_lower, equal_fold, matches_name}
use pgmem.Common.Signed.{pos, ℤ-cases}
use pgmem.Errors.{GoError}
use pgmem.Functions.Registry.{
  ScalarFunction, Function, FunctionRegistry, overloads_of, register_function, register_checked,
  dispatch_function_name, variadic_for, select, add_function, implementation,
}
use pgmem.Functions.Registry.Overloads.{implementation-add_fixed, implementation-add_variadic}

-- The names that can be registered.
abbrev pub Accepted : Text → Type 0
Accepted name = (matches_name name ≡ true) × (equal_fold name dispatch_function_name ≡ false)

module _ {W : Type 0} where
  register_function-Accepted :
      (schema : Text) (function : Function W) (r : FunctionRegistry W) (arity : ℕ)
      (f : ScalarFunction W)
      → Accepted function.name
      → function.arity ≡ pos arity
      → function.implementation ≡ some f
      → register_function (some schema) false function r
        ≡ (add_function schema (to_lower function.name) arity function.variadic f r, none)
  unfolding register_function register_checked
  register_function-Accepted schema function r arity f ok a i = rw (ok.0, ok.1, a, i) refl

  -- A fixed function that passes the checks is registered with no error, and from then on a call finds
  -- it under that schema, that name in lower case and that number of arguments, whatever was there;
  -- every other call finds what it found before.
  pub register_fixed :
      (schema : Text) (function : Function W) (r : FunctionRegistry W) (arity : ℕ)
      (f : ScalarFunction W)
      → Accepted function.name
      → function.arity ≡ pos arity
      → function.implementation ≡ some f
      → function.variadic ≡ false
      → let result = register_function (some schema) false function r in
        (result.1 ≡ none)
        × ((s n : Text) (k : ℕ)
            → implementation s n k result.0 ≡ (
                if text_eq schema s && text_eq (to_lower function.name) n && nat_eq arity k
                then some f
                else implementation s n k r))
  register_fixed schema function r arity f ok a i v =
      rw (register_function-Accepted schema function r arity f ok a i, v)
        (refl, implementation-add_fixed schema (to_lower function.name) arity f r)

  -- A variadic function that passes the checks is registered with no error, and from then on a call
  -- under that schema and that name in lower case finds the fixed overload for its number of
  -- arguments if there is one, and otherwise the new function if it has at least the minimum number;
  -- every other call finds what it found before.
  pub register_variadic :
      (schema : Text) (function : Function W) (r : FunctionRegistry W) (arity : ℕ)
      (f : ScalarFunction W)
      → Accepted function.name
      → function.arity ≡ pos arity
      → function.implementation ≡ some f
      → function.variadic ≡ true
      → let result = register_function (some schema) false function r in
        (result.1 ≡ none)
        × ((s n : Text) (k : ℕ)
            → implementation s n k result.0 ≡ (
                if text_eq schema s && text_eq (to_lower function.name) n
                then (elim (lookup k (overloads_of s n r).fixed) [
                  | some g ↦ some g
                  | none ↦ if leb arity k then some f else none
                ])
                else implementation s n k r))
  unfolding select variadic_for
  register_variadic schema function r arity f ok a i v =
      rw (register_function-Accepted schema function r arity f ok a i, v)
        (
          refl,
          λ s n k.
              ground (
                arith,
                implementation-add_variadic schema (to_lower function.name) arity f r s n k,
              ),
        )

  -- A registration that reports an error leaves the registry as it was.
  pub register_error :
      (schema : Option Text) (is_closed : Bool) (function : Function W) (r : FunctionRegistry W)
      (e : GoError)
      → (register_function schema is_closed function r).1 ≡ some e
      → (register_function schema is_closed function r).0 ≡ r
  unfolding register_function register_checked
  register_error schema is_closed function r e h = ground arith

  -- A registration reports no error exactly if none of these holds: the schema or its database is nil, the name
  -- does not match the pattern or is the dispatcher's in any case, the arity is negative, the
  -- implementation is nil, the database is closed.
  pub register-Accepted_iff :
      (schema : Option Text) (is_closed : Bool) (function : Function W) (r : FunctionRegistry W)
      → ((register_function schema is_closed function r).1 ≡ none) ↔ (
          (schema ≢ none)
          × Accepted function.name
          × ((n : ℕ) × (function.arity ≡ pos n))
          × (function.implementation ≢ none)
          × (is_closed ≡ false))
  unfolding register_function register_checked
  register-Accepted_iff schema is_closed function r = (
    λ h. elim (ℤ-cases function.arity) [
      | inl (n, e) ↦
          (ground arith, (ground arith, ground arith), (n, e), ground arith, ground arith)
      | inr (n, e) ↦ absurd (ground arith)
    ],
    λ h. ground arith,
  )
