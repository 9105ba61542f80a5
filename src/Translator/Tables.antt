-- ===== src/Translator/Tables.antt =====
-- The tables that a tree names by RangeVars, as PostgreSQL and as the engine read it.
use pgmem.Translator.{engine_schema}
use pgmem.Tree.{
  Message, Messages, Optional, func_call, string_node, const_node, range_var, type_name, a_expr,
  create_stmt, constraint, other_node, absent, present,
}
use pgmem.Common.{
  ◌≡◌, ◌≢◌, Bool, true, false, List, [], ◌∷◌, ◌++◌, arith, if◌then◌else◌, nat_Key, ◌||◌,
}
use pgmem.Common.Text.{Text, codes, text_eq, text_eq_iff, text_Key}

unfoldable pub qualify : Text → Text → Text
unfolding text_eq
qualify default_schema schema = if text_eq schema [] then default_schema else schema

-- The database of a PostgreSQL schema.
unfoldable pub database_of : Text → Text
unfolding text_eq
database_of schema = if text_eq schema (codes "public") then codes "main" else schema

-- How the engine reads the foreign keys of a table that is created: an unqualified one in the
-- table's database.
unfoldable pub owner : Bool → (Text → Text) → Optional → Text → Text
unfolding qualify
owner true key (present (range_var schema relation alias)) name = qualify schema name
owner inherits key relation name = key name

-- The databases and names of the tables that a tree names by RangeVars, in order; `read` reads the schema of a table,
-- `key` of one that a foreign key references.
-- The names of types and of operators are Strings.
unfoldable mutual
  unfolding owner

  pub tables : Bool → (Text → Text) → (Text → Text) → Message → List (Text × Text)
  tables i read key (func_call flags names args agg_order agg_filter over) =
      tables_in i read key names
      ++ tables_in i read key args
      ++ tables_in i read key agg_order
      ++ tables_of i read key agg_filter
      ++ tables_of i read key over
  tables i read key (string_node s) = []
  tables i read key (const_node s) = []
  tables i read key (range_var schema relation alias) =
      (read schema, relation) ∷ tables_of i read key alias
  tables i read key (type_name names rest) = tables_in i read key rest
  tables i read key (a_expr kind names operands) = tables_in i read key operands
  tables i read key (create_stmt relation elements rest) =
      tables_of i read key relation
      ++ tables_in i read (owner i key relation) elements
      ++ tables_in i read key rest
  tables i read key (constraint table rest) = tables_of i key key table ++ tables_in i read key rest
  tables i read key (other_node tag fields) = tables_in i read key fields

  pub tables_in : Bool → (Text → Text) → (Text → Text) → Messages → List (Text × Text)
  tables_in i read key Messages.nil = []
  tables_in i read key (Messages.cons m ms) = tables i read key m ++ tables_in i read key ms

  pub tables_of : Bool → (Text → Text) → (Text → Text) → Optional → List (Text × Text)
  tables_of i read key absent = []
  tables_of i read key (present m) = tables i read key m

-- The nodes that name a table other than by a RangeVar, or that give a RangeVar a meaning of its own: the
-- objects of a DROP, a COMMENT or a SECURITY LABEL are lists of Strings, which the translator leaves as
-- they are, and a WITH clause names queries.
abbrev pub names_otherwise : Text → Bool
names_otherwise tag =
    text_eq tag (codes "DropStmt")
    || text_eq tag (codes "CommentStmt")
    || text_eq tag (codes "SecLabelStmt")
    || text_eq tag (codes "WithClause")

-- No table is created within the elements of a table, nor anywhere if `inside`, and no node names a
-- table other than by a RangeVar.
unfoldable mutual
  pub Flat : Bool → Message → Type 0
  Flat i (func_call flags names args agg_order agg_filter over) =
      FlatIn i names × FlatIn i args × FlatIn i agg_order × FlatOf i agg_filter × FlatOf i over
  Flat i (string_node s) = Unit
  Flat i (const_node s) = Unit
  Flat i (range_var schema relation alias) = FlatOf i alias
  Flat i (type_name names rest) = FlatIn i rest
  Flat i (a_expr kind names operands) = FlatIn i operands
  Flat i (create_stmt relation elements rest) =
      (i ≡ false) × FlatOf i relation × FlatIn true elements × FlatIn i rest
  Flat i (constraint table rest) = FlatOf i table × FlatIn i rest
  Flat i (other_node tag fields) = (names_otherwise tag ≡ false) × FlatIn i fields

  pub FlatIn : Bool → Messages → Type 0
  FlatIn i Messages.nil = Unit
  FlatIn i (Messages.cons m ms) = Flat i m × FlatIn i ms

  pub FlatOf : Bool → Optional → Type 0
  FlatOf i absent = Unit
  FlatOf i (present m) = Flat i m

-- The database of a schema of PostgreSQL, for a session with the default schema.
unfoldable pub database_in : Text → Text → Text
unfolding database_of qualify
database_in default_schema schema = database_of (qualify default_schema schema)

pub qualify-engine_schema :
    (default_schema schema current : Text)
    → default_schema ≢ []
    → qualify current (engine_schema default_schema schema)
      ≡ database_of (qualify default_schema schema)
unfolding qualify engine_schema database_of
qualify-engine_schema default_schema schema current named = ground (
  arith,
  named,
  (text_eq_iff default_schema []).0,
  (text_eq_iff schema []).0,
  (text_eq_iff schema (codes "public")).0,
)
