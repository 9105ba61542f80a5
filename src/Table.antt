-- ===== src/Table.antt =====
-- table.go: handles of tables, and the statements that they build from rows.
pub mod Plain
pub mod Keys
pub mod Conditions
pub mod Find
use pgmem.Quote.{quote_identifier}
use pgmem.Engine.{Effect}
use pgmem.Schema.Translate.{Schema}
use pgmem.Schema.Execution.{one_context, many_context}
use pgmem.Common.{
  ℕ, ◌+◌, ◌*◌, Bool, true, false, ◌||◌, not, Option, none, some, List, [], ◌∷◌, ◌++◌, map,
  if◌then◌else◌, length,
}
use pgmem.Common.Dict.{lookup}
use pgmem.Common.Text.{
  text_Key, Text, codes, text_eq, contains, trim_space, join, decimal, text_le, quoted,
}
use pgmem.Errors.{
  closed, relation_not_found, sql_no_rows, sentinel, wrap, pg_error, errors_is, execution_error,
  Outcome, returned, Fallible, ok, err,
}
use pgmem.Values.{Value, Row}

-- A handle: `Table`, with a schema that is not nil.
pub record Table (W : Type 0) : Type 0 where
  pub schema : Schema W
  pub name : Text

-- `internalName`
pub internal_name : Text → Text
unfolding text_eq
internal_name name = if text_eq name (codes "public") then codes "main" else name

-- `qualifiedName`
pub qualified_name : Text → Text → Text
unfolding internal_name quote_identifier
qualified_name schema name =
    quote_identifier (internal_name schema) ++ codes "." ++ quote_identifier name

add_key : Text → List Text → List Text
unfolding text_le
add_key key [] = key ∷ []
add_key key (k ∷ keys) =
    let rest = add_key key keys in if text_le key k then key ∷ k ∷ keys else k ∷ rest

unfoldable pub sort_keys : List Text → List Text
unfolding add_key
sort_keys [] = []
sort_keys (k ∷ keys) = add_key k (sort_keys keys)

-- `sortedRowKeys`
pub sorted_row_keys : Row → List Text
unfolding sort_keys
sorted_row_keys row = sort_keys (map (λ (entry : Text × Value). entry.0) row)

-- row[column], which is nil where the column is missing
pub cell : Text → Row → Value
unfolding lookup
cell column row = elim (lookup column row) [ none ↦ Value.nil | some v ↦ v ]

abbrev pub is_nil_value : Value → Bool
is_nil_value Value.nil = true
is_nil_value _ = false

abbrev pub placeholder : ℕ → Text
placeholder n = codes "$" ++ decimal n

-- The loop of `InsertContext`: the quoted columns, the placeholders, and the arguments.
insert_parts : ℕ → Row → List Text → List Text × List Text × List Value
unfolding quote_identifier cell
insert_parts index row [] = ([], [], [])
insert_parts index row (column ∷ columns) =
    let (quoted_columns, placeholders, arguments) = insert_parts (index + 1) row columns in
    (
      quote_identifier column ∷ quoted_columns,
      placeholder (index + 1) ∷ placeholders,
      cell column row ∷ arguments,
    )

pub values_clause : List Text → List Text × List Text × List Value → Text
unfolding join
values_clause [] parts = codes " DEFAULT VALUES"
values_clause (column ∷ columns) (quoted_columns, placeholders, arguments) =
    codes " ("
    ++ join quoted_columns (codes ", ")
    ++ codes ") VALUES ("
    ++ join placeholders (codes ", ")
    ++ codes ")"

-- The statement and the arguments of `InsertContext`.
unfoldable pub insert_statement : Text → Text → Row → Text × List Value
unfolding qualified_name sorted_row_keys insert_parts values_clause
insert_statement schema name row =
    let columns = sorted_row_keys row in
    let parts = insert_parts 0 row columns in
    (
      codes "INSERT INTO "
          ++ qualified_name schema name
          ++ values_clause columns parts
          ++ codes " RETURNING *",
      parts.2,
    )

-- One round of the loop of `FindContext`: the predicate of a column, and the arguments after it.
find_part : Text → Value → List Value → Text × List Value
unfolding quote_identifier
find_part column v arguments =
    if is_nil_value v then (quote_identifier column ++ codes " IS NULL", arguments) else (
      quote_identifier column ++ codes " = $" ++ decimal (length (arguments ++ v ∷ [])),
      arguments ++ v ∷ [],
    )

-- The loop of `FindContext`, from the arguments so far.
pub find_parts : Row → List Text → List Value → List Text × List Value
unfolding find_part cell
find_parts template [] arguments = ([], arguments)
find_parts template (column ∷ columns) arguments =
    let (predicate, arguments') = find_part column (cell column template) arguments in
    let (predicates, arguments'') = find_parts template columns arguments' in
    (predicate ∷ predicates, arguments'')

pub where_clause : List Text → Text
unfolding join
where_clause [] = []
where_clause (p ∷ ps) = codes " WHERE " ++ join (p ∷ ps) (codes " AND ")

-- The statement and the arguments of `FindContext`.
unfoldable pub find_statement : Text → Text → Row → Text × List Value
unfolding qualified_name sorted_row_keys find_parts where_clause
find_statement schema name template =
    let (predicates, arguments) = find_parts template (sorted_row_keys template) [] in
    (codes "SELECT * FROM " ++ qualified_name schema name ++ where_clause predicates, arguments)

module _ {W : Type 0} where
  -- `InsertContext`
  pub insert_context : Option (Table W) → Row → W → W × Outcome (Fallible Row)
  unfolding insert_statement
  insert_context none row w = (w, returned (err (sentinel relation_not_found)))
  insert_context (some t) row w =
      let (statement, arguments) = insert_statement t.schema.name t.name row in
      one_context t.schema statement arguments w

  -- `FindContext`
  pub find_context : Option (Table W) → Row → W → W × Outcome (Fallible (List Row))
  unfolding find_statement
  find_context none template w = (w, returned (err (sentinel relation_not_found)))
  find_context (some t) template w =
      let (statement, arguments) = find_statement t.schema.name t.name template in
      many_context t.schema statement arguments w

-- `TableContext`; `query_row` is QueryRowContext with its Scan.
module _ {W : Type 0} (query_row : Text → List Value → Effect W (List Value)) where
  abbrev lookup_query : Text → Text
  lookup_query schema =
      codes "SELECT 1 FROM "
      ++ quote_identifier (internal_name schema)
      ++ codes ".sqlite_schema WHERE type IN ('table', 'view') AND name = $1"

  table_found : Schema W → Text → Text → W × Fallible (List Value) → W × Fallible (Table W)
  unfolding errors_is execution_error
  table_found s name query (w, ok values) = (w, ok (record { schema = s; name = name }))
  table_found s name query (w, err e) = (
    w,
    err (
        if errors_is e sql_no_rows
        then pg_error (codes "42P01") (codes "relation " ++ quoted name ++ codes " does not exist")
            query (sentinel relation_not_found)
        else execution_error query e),
  )

  pub table_context : Schema W → Text → Effect W (Table W)
  unfolding table_found internal_name quote_identifier trim_space text_eq
  table_context s name w =
      if not s.attached || s.engine.is_closed w
      then (w, err (sentinel closed))
      else if text_eq (trim_space name) [] || contains (0 ∷ []) name
      then (w, err (wrap [] (sentinel relation_not_found) (codes ": " ++ quoted name)))
      else table_found s name (lookup_query s.name)
          (query_row (lookup_query s.name) (Value.string name ∷ []) w)
