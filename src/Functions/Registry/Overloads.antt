-- ===== src/Functions/Registry/Overloads.antt =====
-- Which implementation a call finds after a registration.
use Prim.Native.Nat.{ℕ}
use pgmem.Common.{
  ◌≡◌, refl, Bool, true, false, some, [], ◌&&◌, if◌then◌else◌, nat_Key, nat_eq, arith, inl, inr,
  Option-cases,
}
use pgmem.Common.Dict.{lookup, insert, lookup-insert}
use pgmem.Common.Text.{Text, text_Key, text_eq, text_eq_iff}
use pgmem.Common.{◌&&◌}
use pgmem.Functions.Registry.{
  ScalarFunction, FunctionOverloads, FunctionRegistry, or_make, overloads_of, add_overload,
  add_function, find_overloads, select, choose, implementation,
}

module _ {W : Type 0} where
  -- The overloads of each name after a registration.
  find_overloads-add_function :
      (schema name s n : Text) (arity : ℕ) (variadic : Bool) (f : ScalarFunction W)
      (r : FunctionRegistry W)
      → find_overloads s n (add_function schema name arity variadic f r) ≡ (
          if text_eq schema s && text_eq name n
          then some (add_overload arity variadic f (overloads_of schema name r))
          else find_overloads s n r)
  unfolding find_overloads add_function or_make
  find_overloads-add_function schema name s n arity variadic f r =
      let o = add_overload arity variadic f (overloads_of schema name r) in
      let functions = or_make [] (lookup schema r) in
      ground (
        arith,
        lookup-insert schema s (insert name o functions) r,
        lookup-insert name n o functions,
        text_eq_iff schema s,
      )

  find_overloads-overloads_of :
      (s n : Text) (arity : ℕ) (r : FunctionRegistry W)
      → choose arity (some (overloads_of s n r)) ≡ choose arity (find_overloads s n r)
  unfolding overloads_of find_overloads choose or_make
  find_overloads-overloads_of s n arity r =
      elim (Option-cases (lookup n (or_make [] (lookup s r)))) [
        | inl e ↦ ground (arith, e)
        | inr (o, e) ↦ ground (arith, e)
      ]

  choose-add_fixed :
      (k arity : ℕ) (f : ScalarFunction W) (o : FunctionOverloads W)
      → choose k (some (add_overload arity false f o))
        ≡ (if nat_eq arity k then some f else choose k (some o))
  unfolding choose add_overload select
  choose-add_fixed k arity f o = ground (arith, lookup-insert arity k f o.fixed)

  choose-add_variadic :
      (k arity : ℕ) (f : ScalarFunction W) (o : FunctionOverloads W)
      → choose k (some (add_overload arity true f o))
        ≡ select k (some (record { minimum = arity; implementation = f })) (lookup k o.fixed)
  unfolding choose add_overload
  choose-add_variadic k arity f o = refl

  -- The registration is of a fixed function of `arity` arguments, or of a variadic one.
  module _ (schema name : Text) (arity : ℕ) (f : ScalarFunction W) (r : FunctionRegistry W) where
    pub implementation-add_fixed :
        (s n : Text) (k : ℕ)
        → implementation s n k (add_function schema name arity false f r) ≡ (
            if text_eq schema s && text_eq name n && nat_eq arity k
            then some f
            else implementation s n k r)
    unfolding implementation
    implementation-add_fixed s n k =
        rw (find_overloads-add_function schema name s n arity false f r) (
          ground (
            arith,
            choose-add_fixed k arity f (overloads_of schema name r),
            find_overloads-overloads_of schema name k r,
            text_eq_iff schema s,
            text_eq_iff name n,
          ))

    pub implementation-add_variadic :
        (s n : Text) (k : ℕ)
        → implementation s n k (add_function schema name arity true f r) ≡ (
            if text_eq schema s && text_eq name n
            then select k
                (some (record { minimum = arity; implementation = f }))
                (lookup k (overloads_of s n r).fixed)
            else implementation s n k r)
    unfolding implementation
    implementation-add_variadic s n k =
        rw (find_overloads-add_function schema name s n arity true f r) (
          ground (
            arith,
            choose-add_variadic k arity f (overloads_of schema name r),
            text_eq_iff schema s,
            text_eq_iff name n,
          ))
