-- ===== src/Functions/Rewrite.antt =====
-- `rewriteRegisteredFunctions`, `rewriteFunctionTree` and their helpers of function.go: a call of a
-- registered function becomes a call of the dispatcher with the routing arguments in front.
pub mod Guard
use pgmem.Tree.{
  Message, Messages, Optional, PgTrees, CallFlags, func_call, string_node, const_node, range_var,
  type_name, a_expr, create_stmt, constraint, other_node, absent, present,
}
use pgmem.Functions.Registry.{FunctionRegistry, dispatch_function_name, has, has_any}
use pgmem.Common.{
  ℕ, Bool, true, false, ◌&&◌, ◌||◌, not, Option, none, some, List, [], ◌∷◌, map, if◌then◌else◌,
  nat_Key,
}
use pgmem.Common.Text.{Text, codes, text_eq, text_Key, to_lower, equal_fold, contains, trim_space}
use pgmem.Errors.{unsupported, GoError, sentinel, wrap, pg_error, Fallible, ok, err}
use mathlib.Core.Option

-- `functionNameParts`
unfoldable pub function_name_parts : Messages → Option (List Text)
function_name_parts Messages.nil = some []
function_name_parts (Messages.cons (string_node s) names) =
    Option.map (λ parts. s ∷ parts) (function_name_parts names)
function_name_parts (Messages.cons _ names) = none

last_part : List Text → Option Text
last_part [] = none
last_part (p ∷ []) = some p
last_part (p ∷ q ∷ ps) = last_part (q ∷ ps)

-- The name of a call is the dispatcher's, in any case.
unfoldable pub names_dispatcher : Messages → Bool
unfolding function_name_parts last_part equal_fold
names_dispatcher names = elim (Option.bind (function_name_parts names) last_part) [
  | none ↦ false
  | some part ↦ equal_fold part dispatch_function_name
]

is_nil : Messages → Bool
is_nil Messages.nil = true
is_nil (Messages.cons m ms) = false

is_absent : Optional → Bool
is_absent absent = true
is_absent (present m) = false

-- `plainScalarCall`
unfoldable pub plain_scalar_call : CallFlags → Messages → Optional → Optional → Bool
unfolding is_nil is_absent
plain_scalar_call flags agg_order agg_filter over =
    not flags.agg_star
    && not flags.agg_distinct
    && is_nil agg_order
    && is_absent agg_filter
    && is_absent over
    && not flags.func_variadic

public_of_main : Text → Text
unfolding text_eq
public_of_main schema = if text_eq schema (codes "main") then codes "public" else schema

called_of_parts : Text → List Text → Option (Text × Text)
unfolding public_of_main to_lower
called_of_parts schema (name ∷ []) = some (public_of_main schema, to_lower name)
called_of_parts default_schema (schema ∷ name ∷ []) = some (public_of_main schema, to_lower name)
called_of_parts schema _ = none

-- `calledFunction`
unfoldable pub called_function : Messages → Text → Option (Text × Text)
unfolding called_of_parts function_name_parts
called_function names default_schema =
    Option.bind (function_name_parts names) (called_of_parts default_schema)

-- A rewritten part and whether it has changed, or nothing where the dispatcher is called.
abbrev pub Rewritten {ℓ} : Type ℓ → Type ℓ
Rewritten A = Option (A × Bool)

infixl 5 ◌>>=◌
unfoldable pub ◌>>=◌ {ℓ κ} : {A : Type ℓ} {B : Type κ} → Option A → (A → Option B) → Option B
none >>= f = none
some a >>= f = f a

module _ {W : Type 0} (registry : FunctionRegistry W) (dispatch_id default_schema : Text) where
  unfoldable pub dispatcher_call :
      CallFlags → Messages → Messages → Optional → Optional → Text × Text → Message
  dispatcher_call flags args agg_order agg_filter over (schema, name) =
      func_call flags (Messages.cons (string_node dispatch_function_name) Messages.nil)
        (Messages.cons (const_node dispatch_id)
          (Messages.cons (const_node schema) (Messages.cons (const_node name) args)))
        agg_order agg_filter over

  -- The function that a call routes to, if it is registered.
  unfoldable pub routed_to : Messages → Option (Text × Text)
  unfolding called_function has
  routed_to names = do
    (schema, name) ← called_function names default_schema
    if has schema name registry then some (schema, name) else none

  route_call :
      CallFlags → Messages → Messages → Messages → Optional → Optional → Bool → Rewritten Message
  route_call flags names args agg_order agg_filter over changed =
      if names_dispatcher names
      then none
      else if plain_scalar_call flags agg_order agg_filter over
      then (elim (routed_to names) [
        | none ↦ some (func_call flags names args agg_order agg_filter over, changed)
        | some target ↦ some (dispatcher_call flags args agg_order agg_filter over target, true)
      ])
      else some (func_call flags names args agg_order agg_filter over, changed)

  -- `rewriteFunctionTree`: the fields first, then the node.
  unfoldable mutual
    unfolding route_call

    pub rewrite_message : Message → Rewritten Message
    rewrite_message (func_call flags names args agg_order agg_filter over) = do
      (names', c₁) ← rewrite_messages names
      (args', c₂) ← rewrite_messages args
      (agg_order', c₃) ← rewrite_messages agg_order
      (agg_filter', c₄) ← rewrite_optional agg_filter
      (over', c₅) ← rewrite_optional over
      route_call flags names' args' agg_order' agg_filter' over' (c₁ || c₂ || c₃ || c₄ || c₅)
    rewrite_message (string_node s) = some (string_node s, false)
    rewrite_message (const_node s) = some (const_node s, false)
    rewrite_message (range_var schema relation alias) = do
      (alias', c) ← rewrite_optional alias
      some (range_var schema relation alias', c)
    rewrite_message (type_name names rest) = do
      (names', c) ← rewrite_messages names
      (rest', d) ← rewrite_messages rest
      some (type_name names' rest', c || d)
    rewrite_message (a_expr kind name operands) = do
      (name', c) ← rewrite_messages name
      (operands', d) ← rewrite_messages operands
      some (a_expr kind name' operands', c || d)
    rewrite_message (create_stmt relation elements rest) = do
      (relation', c₁) ← rewrite_optional relation
      (elements', c₂) ← rewrite_messages elements
      (rest', c₃) ← rewrite_messages rest
      some (create_stmt relation' elements' rest', c₁ || c₂ || c₃)
    rewrite_message (constraint table rest) = do
      (table', c) ← rewrite_optional table
      (rest', d) ← rewrite_messages rest
      some (constraint table' rest', c || d)
    rewrite_message (other_node tag fields) = do
      (fields', c) ← rewrite_messages fields
      some (other_node tag fields', c)

    pub rewrite_messages : Messages → Rewritten Messages
    rewrite_messages Messages.nil = some (Messages.nil, false)
    rewrite_messages (Messages.cons m ms) = do
      (m', c) ← rewrite_message m
      (ms', d) ← rewrite_messages ms
      some (Messages.cons m' ms', c || d)

    pub rewrite_optional : Optional → Rewritten Optional
    rewrite_optional absent = some (absent, false)
    rewrite_optional (present m) = do (m', c) ← rewrite_message m; some (present m', c)

abbrev pub direct_call_error : Text → GoError
direct_call_error source =
    pg_error (codes "0A000") (codes "pgmem: internal function dispatcher cannot be called directly")
      source (sentinel unsupported)

trimmed_deparse : Fallible Text → Fallible Text
unfolding trim_space
trimmed_deparse (ok text) = ok (trim_space text)
trimmed_deparse (err e) = err (wrap (codes "pgmem: deparse registered function call: ") e [])

rewritten_text : PgTrees → Text → Text → Rewritten Messages → Fallible Text
unfolding trimmed_deparse
rewritten_text pg source statement none = err (direct_call_error source)
rewritten_text pg source statement (some (trees, false)) = ok statement
rewritten_text pg source statement (some (trees, true)) = trimmed_deparse (pg.deparse trees)

module _ {W : Type 0} (pg : PgTrees) (registry : FunctionRegistry W) (dispatch_id : Text) where
  rewrite_parsed : Text → Text → Text → Fallible Messages → Fallible Text
  unfolding rewritten_text rewrite_message
  rewrite_parsed default_schema source statement (err e) =
      err (wrap (codes "pgmem: parse translated statement for registered functions: ") e [])
  rewrite_parsed default_schema source statement (ok trees) =
      rewritten_text pg source statement
        (rewrite_messages registry dispatch_id default_schema trees)

  -- `rewriteRegisteredFunctions`, with ctx.Err
  unfoldable pub rewrite_registered_functions : Option GoError → Text → Text → Text → Fallible Text
  unfolding rewrite_parsed has_any contains to_lower
  rewrite_registered_functions (some e) default_schema source statement = err e
  rewrite_registered_functions none default_schema source statement =
      if not (has_any registry) && not (contains dispatch_function_name (to_lower statement))
      then ok statement
      else rewrite_parsed default_schema source statement (pg.parse statement)
