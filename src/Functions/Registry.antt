-- ===== src/Functions/Registry.antt =====
-- The registry of scalar functions: `RegisterFunction`, `has`, `hasAny` and `implementation`. A
-- function may change the world, of type `W`, and may panic.
pub mod Overloads
pub mod Register
use Prim.Native.Nat.{ℕ}
use pgmem.Common.{
  Bool, true, false, Option, none, some, List, [], ◌∷◌, ◌++◌, ◌||◌, not, leb, if◌then◌else◌,
  nat_Key,
}
use pgmem.Common.Dict.{Dict, lookup, insert}
use pgmem.Common.Signed.{ℤ, pos, negsuc}
use pgmem.Common.Text.{Text, codes, text_Key, to_lower, equal_fold, matches_name, quoted}
use pgmem.Errors.{GoError, sentinel, plain, closed, Outcome}
use pgmem.Values.{Value}

abbrev pub ScalarFunction : Type 0 → Type 0
ScalarFunction W = W → List Value → W × Outcome (Value × Option GoError)

-- A nil `Implementation` is nothing.
pub record Function (W : Type 0) : Type 0 where
  pub name : Text
  pub arity : ℤ
  pub variadic : Bool
  pub implementation : Option (ScalarFunction W)

pub record VariadicFunction (W : Type 0) : Type 0 where
  pub minimum : ℕ
  pub implementation : ScalarFunction W

pub record FunctionOverloads (W : Type 0) : Type 0 where
  pub fixed : Dict ℕ (ScalarFunction W)
  pub variadic : Option (VariadicFunction W)

-- `bySchema` of a `functionRegistry`
abbrev pub FunctionRegistry : Type 0 → Type 0
FunctionRegistry W = Dict Text (Dict Text (FunctionOverloads W))

abbrev pub dispatch_function_name : Text
dispatch_function_name = codes "__pgmem_dispatch_749c9c9e"

-- A map that is missing is made: `functions` and `overloads` of `RegisterFunction`.
unfoldable pub or_make {ℓ} : {A : Type ℓ} → A → Option A → A
or_make fresh none = fresh
or_make fresh (some a) = a

abbrev pub invalid_name : Text → GoError
invalid_name name = plain (codes "pgmem: invalid function name " ++ quoted name)

abbrev pub negative_arity : Text → GoError
negative_arity name =
    plain (codes "pgmem: function " ++ quoted name ++ codes " arity must not be negative")

abbrev pub nil_implementation : Text → GoError
nil_implementation name =
    plain (codes "pgmem: function " ++ quoted name ++ codes " implementation must not be nil")

unfoldable pub is_some {ℓ} : {A : Type ℓ} → Option A → Bool
is_some none = false
is_some (some a) = true

module _ {W : Type 0} where
  abbrev pub empty_overloads : FunctionOverloads W
  empty_overloads = record { fixed = []; variadic = none }

  pub overloads_of : Text → Text → FunctionRegistry W → FunctionOverloads W
  unfolding lookup or_make
  overloads_of schema name registry =
      or_make empty_overloads (lookup name (or_make [] (lookup schema registry)))

  pub add_overload : ℕ → Bool → ScalarFunction W → FunctionOverloads W → FunctionOverloads W
  unfolding insert
  add_overload arity true f o = record o {
    variadic = some (record { minimum = arity; implementation = f });
  }
  add_overload arity false f o = record o { fixed = insert arity f o.fixed }

  -- What `RegisterFunction` writes, under a name that is already in lower case.
  pub add_function :
      Text → Text → ℕ → Bool → ScalarFunction W → FunctionRegistry W → FunctionRegistry W
  unfolding overloads_of add_overload insert lookup
  add_function schema name arity variadic f registry =
      insert schema
        (insert name (add_overload arity variadic f (overloads_of schema name registry))
          (or_make [] (lookup schema registry)))
        registry

  register_checked :
      Text
      → Bool
      → Text
      → Bool
      → ℤ
      → Option (ScalarFunction W)
      → FunctionRegistry W
      → FunctionRegistry W × Option GoError
  unfolding add_function to_lower
  register_checked schema is_closed name variadic (negsuc n) f registry =
      (registry, some (negative_arity name))
  register_checked schema is_closed name variadic (pos n) none registry =
      (registry, some (nil_implementation name))
  register_checked schema true name variadic (pos n) (some f) registry =
      (registry, some (sentinel closed))
  register_checked schema false name variadic (pos n) (some f) registry =
      (add_function schema (to_lower name) n variadic f registry, none)

  -- `Schema.RegisterFunction`; the schema's name is nothing where the schema or its database is nil.
  unfoldable pub register_function :
      Option Text → Bool → Function W → FunctionRegistry W → FunctionRegistry W × Option GoError
  unfolding register_checked matches_name equal_fold
  register_function none is_closed function registry = (registry, some (sentinel closed))
  register_function (some schema) is_closed function registry =
      if not (matches_name function.name) || equal_fold function.name dispatch_function_name
      then (registry, some (invalid_name function.name))
      else register_checked schema is_closed function.name function.variadic function.arity
          function.implementation registry

  unfoldable pub find_overloads : Text → Text → FunctionRegistry W → Option (FunctionOverloads W)
  unfolding lookup or_make
  find_overloads schema name registry = lookup name (or_make [] (lookup schema registry))

  -- `has`
  unfoldable pub has : Text → Text → FunctionRegistry W → Bool
  unfolding find_overloads is_some
  has schema name registry = is_some (find_overloads schema name registry)

  -- `hasAny`
  unfoldable pub has_any : FunctionRegistry W → Bool
  has_any [] = false
  has_any (s ∷ registry) = true

  pub variadic_for : ℕ → Option (VariadicFunction W) → Option (ScalarFunction W)
  variadic_for arity none = none
  variadic_for arity (some v) = if leb v.minimum arity then some v.implementation else none

  pub select :
      ℕ → Option (VariadicFunction W) → Option (ScalarFunction W) → Option (ScalarFunction W)
  unfolding variadic_for
  select arity variadic none = variadic_for arity variadic
  select arity variadic (some f) = some f

  pub choose : ℕ → Option (FunctionOverloads W) → Option (ScalarFunction W)
  unfolding lookup select
  choose arity none = none
  choose arity (some o) = select arity o.variadic (lookup arity o.fixed)

  -- `implementation`
  unfoldable pub implementation : Text → Text → ℕ → FunctionRegistry W → Option (ScalarFunction W)
  unfolding find_overloads choose
  implementation schema name arity registry = choose arity (find_overloads schema name registry)
