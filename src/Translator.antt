-- ===== src/Translator.antt =====
-- translator.go: what the built-in translator does to the parse trees of a statement.
pub mod Types
pub mod Operators
pub mod Normal
pub mod Tables
pub mod Cleared
pub mod References
use pgmem.Tree.{
  Message, Messages, Optional, PgTrees, ExprKind, ilike, like, other_kind, func_call, string_node,
  const_node, range_var, type_name, a_expr, create_stmt, constraint, other_node, absent, present,
}
use pgmem.Common.{◌&&◌, Option, none, some, [], ◌∷◌, if◌then◌else◌, nat_Key}
use pgmem.Common.Dict.{Dict, lookup}
use pgmem.Common.Text.{Text, codes, text_eq, text_Key, to_lower, trim_space}
use pgmem.Errors.{GoError, wrap, pg_error, Fallible, ok, err}

-- The switch of `rewritePostgreSQLTree` on the schema of a table.
unfoldable pub engine_schema : Text → Text → Text
unfolding text_eq
engine_schema default_schema schema =
    if text_eq schema (codes "public")
    then codes "main"
    else if text_eq schema [] && text_eq default_schema (codes "public")
    then codes "main"
    else if text_eq schema []
    then default_schema
    else schema

-- The map of `rewritePostgreSQLType`.
unfoldable pub type_mapping : Dict Text Text
type_mapping =
    (codes "bigserial", codes "integer")
    ∷ (codes "bytea", codes "blob")
    ∷ (codes "int2", codes "integer")
    ∷ (codes "int4", codes "integer")
    ∷ (codes "int8", codes "integer")
    ∷ (codes "jsonb", codes "json")
    ∷ (codes "serial", codes "integer")
    ∷ (codes "serial2", codes "integer")
    ∷ (codes "serial4", codes "integer")
    ∷ (codes "serial8", codes "integer")
    ∷ (codes "smallserial", codes "integer")
    ∷ (codes "timestamptz", codes "timestamp")
    ∷ (codes "uuid", codes "text")
    ∷ []

-- The last name, where it is a String.
unfoldable pub last_name : Messages → Option Text
last_name Messages.nil = none
last_name (Messages.cons (string_node s) Messages.nil) = some s
last_name (Messages.cons m Messages.nil) = none
last_name (Messages.cons m (Messages.cons n ns)) = last_name (Messages.cons n ns)

unfoldable pub mapped_type : Option Text → Option Text
unfolding lookup to_lower type_mapping
mapped_type none = none
mapped_type (some name) = lookup (to_lower name) type_mapping

unfoldable pub renamed_type : Option Text → Messages → Messages
renamed_type none names = names
renamed_type (some mapped) names = Messages.cons (string_node mapped) Messages.nil

-- `rewritePostgreSQLType`
unfoldable pub rewrite_type : Messages → Messages
unfolding last_name mapped_type renamed_type
rewrite_type names = renamed_type (mapped_type (last_name names)) names

unfoldable pub like_operator : Text → Text
unfolding text_eq
like_operator operator =
    if text_eq operator (codes "~~*")
    then codes "~~"
    else if text_eq operator (codes "!~~*")
    then codes "!~~"
    else operator

unfoldable pub rename_operators : Messages → Messages
unfolding like_operator
rename_operators Messages.nil = Messages.nil
rename_operators (Messages.cons (string_node s) names) =
    Messages.cons (string_node (like_operator s)) (rename_operators names)
rename_operators (Messages.cons m names) = Messages.cons m (rename_operators names)

-- An A_Expr, once its names were rewritten.
unfoldable pub like_expr : ExprKind → Messages → Messages → Message
unfolding rename_operators
like_expr ilike names operands = a_expr like (rename_operators names) operands
like_expr like names operands = a_expr like names operands
like_expr other_kind names operands = a_expr other_kind names operands

-- The referenced table of a Constraint.
unfoldable pub clear_qualifier : Text → Optional → Optional
unfolding text_eq
clear_qualifier table_schema (present (range_var schema relation alias)) =
    present (range_var (if text_eq schema table_schema then [] else schema) relation alias)
clear_qualifier table_schema table = table

-- `clearSameSchemaForeignKeyQualifiers`; a table's own fields hold no qualifier to clear, so that they
-- may be visited first.
unfoldable mutual
  unfolding clear_qualifier

  pub clear_message : Text → Message → Message
  clear_message t (func_call flags names args agg_order agg_filter over) =
      func_call flags (clear_messages t names) (clear_messages t args) (clear_messages t agg_order)
        (clear_optional t agg_filter) (clear_optional t over)
  clear_message t (string_node s) = string_node s
  clear_message t (const_node s) = const_node s
  clear_message t (range_var schema relation alias) =
      range_var schema relation (clear_optional t alias)
  clear_message t (type_name names rest) =
      type_name (clear_messages t names) (clear_messages t rest)
  clear_message t (a_expr kind name operands) =
      a_expr kind (clear_messages t name) (clear_messages t operands)
  clear_message t (create_stmt relation elements rest) =
      create_stmt (clear_optional t relation) (clear_messages t elements) (clear_messages t rest)
  clear_message t (constraint table rest) =
      constraint (clear_qualifier t (clear_optional t table)) (clear_messages t rest)
  clear_message t (other_node tag fields) = other_node tag (clear_messages t fields)

  pub clear_messages : Text → Messages → Messages
  clear_messages t Messages.nil = Messages.nil
  clear_messages t (Messages.cons m ms) = Messages.cons (clear_message t m) (clear_messages t ms)

  pub clear_optional : Text → Optional → Optional
  clear_optional t absent = absent
  clear_optional t (present m) = present (clear_message t m)

-- The end of `rewritePostgreSQLTree` for a CreateStmt: the table's elements.
unfoldable pub created : Optional → Messages → Messages
unfolding clear_messages
created (present (range_var schema relation alias)) elements = clear_messages schema elements
created relation elements = elements

module _ (default_schema : Text) where
  -- `rewritePostgreSQLTree`. A String is its own rewriting, so that the names of a type and of an
  -- expression may be rewritten before or after they are renamed.
  unfoldable mutual
    unfolding engine_schema rewrite_type like_expr created

    pub rewrite_tree : Message → Message
    rewrite_tree (func_call flags names args agg_order agg_filter over) =
        func_call flags (rewrite_trees names) (rewrite_trees args) (rewrite_trees agg_order)
          (rewrite_field agg_filter) (rewrite_field over)
    rewrite_tree (string_node s) = string_node s
    rewrite_tree (const_node s) = const_node s
    rewrite_tree (range_var schema relation alias) =
        range_var (engine_schema default_schema schema) relation (rewrite_field alias)
    rewrite_tree (type_name names rest) =
        type_name (rewrite_type (rewrite_trees names)) (rewrite_trees rest)
    rewrite_tree (a_expr kind names operands) =
        like_expr kind (rewrite_trees names) (rewrite_trees operands)
    rewrite_tree (create_stmt relation elements rest) =
        create_stmt (rewrite_field relation)
          (created (rewrite_field relation) (rewrite_trees elements)) (rewrite_trees rest)
    rewrite_tree (constraint table rest) = constraint (rewrite_field table) (rewrite_trees rest)
    rewrite_tree (other_node tag fields) = other_node tag (rewrite_trees fields)

    pub rewrite_trees : Messages → Messages
    rewrite_trees Messages.nil = Messages.nil
    rewrite_trees (Messages.cons m ms) = Messages.cons (rewrite_tree m) (rewrite_trees ms)

    pub rewrite_field : Optional → Optional
    rewrite_field absent = absent
    rewrite_field (present m) = present (rewrite_tree m)

pub syntax_error : Text → GoError → GoError
syntax_error statement e = pg_error (codes "42601") (codes "invalid PostgreSQL syntax") statement e

trimmed : Fallible Text → Fallible Text
unfolding trim_space
trimmed (ok text) = ok (trim_space text)
trimmed (err e) = err (wrap (codes "deparse PostgreSQL AST: ") e [])

translate_parsed : PgTrees → Text → Text → Fallible Messages → Fallible Text
unfolding trimmed rewrite_trees syntax_error
translate_parsed pg default_schema statement (err e) = err (syntax_error statement e)
translate_parsed pg default_schema statement (ok trees) =
    trimmed (pg.deparse (rewrite_trees default_schema trees))

-- `Translate` of the default translator, with ctx.Err
unfoldable pub default_translate : PgTrees → Option GoError → Text → Text → Fallible Text
unfolding translate_parsed
default_translate pg (some e) default_schema statement = err e
default_translate pg none default_schema statement =
    translate_parsed pg default_schema statement (pg.parse statement)
