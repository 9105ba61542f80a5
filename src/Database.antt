-- ===== src/Database.antt =====
-- database.go: the end of `NewContext`, `CreateSchema`, `Schema`, `SchemaNames` and `Close`. The lock
-- topologyMu admits one `CreateSchema` at a time, and while it attaches, without the state lock, only a
-- `Close` can change the database.
pub mod Schemas
use pgmem.Engine.{ExecAnswer, Effect}
use pgmem.Quote.{quote_identifier}
use pgmem.Table.{sort_keys}
use pgmem.Functions.Dispatch.{FunctionDatabases}
use pgmem.Common.{
  ℕ, Bool, true, false, ◌||◌, not, Option, none, some, List, [], ◌∷◌, ◌++◌, map, if◌then◌else◌,
  nat_Key,
}
use pgmem.Common.Dict.{Dict, lookup, insert, delete}
use pgmem.Common.Text.{Text, codes, text_eq, text_Key, to_lower, quoted, matches_name}
use pgmem.Errors.{
  closed, invalid_schema, GoError, sentinel, wrap, bare_error, execution_error, Fallible, ok, err,
}

-- `DB`: the schemas by their key, each by its name.
pub record Database : Type 0 where
  pub schemas : Dict Text Text
  pub is_closed : Bool
  pub dispatch_id : Text

abbrev pub invalid_schema_error : Text → GoError
invalid_schema_error name = wrap [] (sentinel invalid_schema) (codes ": " ++ quoted name)

abbrev pub schema_exists_error : Text → GoError
schema_exists_error name =
    bare_error (codes "42P06") (codes "schema " ++ quoted name ++ codes " already exists") []

-- The names that `CreateSchema` keeps for itself.
unfoldable pub is_reserved : Text → Bool
unfolding text_eq
is_reserved name =
    text_eq name (codes "main") || text_eq name (codes "temp") || text_eq name (codes "public")

is_known : Text → Dict Text Text → Bool
unfolding lookup
is_known name schemas = elim (lookup name schemas) [ none ↦ false | some schema ↦ true ]

-- `Schema`
unfoldable pub find_schema : Text → Database → Option Text
unfolding lookup to_lower
find_schema name db = lookup (to_lower name) db.schemas

-- `SchemaNames`
pub schema_names : Database → List Text
schema_names db = sort_keys (map (λ (entry : Text × Text). entry.0) db.schemas)

-- The end of `NewContext`, once the pool is open.
pub open_database : {W : Type 0} → Text → FunctionDatabases W → Database × FunctionDatabases W
unfolding insert
open_database dispatch_id databases = (
  record {
    schemas = (codes "public", codes "public") ∷ [];
    is_closed = false;
    dispatch_id = dispatch_id;
  },
  insert dispatch_id [] databases,
)

-- `CreateSchema` up to ATTACH: the name in lower case, or the error.
pub checked_name : Text → Database → Fallible Text
unfolding matches_name to_lower is_reserved is_known
checked_name name db =
    if not (matches_name name)
    then err (invalid_schema_error name)
    else if is_reserved (to_lower name)
    then err (invalid_schema_error name)
    else if db.is_closed
    then err (sentinel closed)
    else if is_known (to_lower name) db.schemas
    then err (schema_exists_error (to_lower name))
    else ok (to_lower name)

-- `CreateSchema` after ATTACH.
pub store_schema : Text → Database → Database × Fallible Text
unfolding insert
store_schema name db =
    if db.is_closed
    then (db, err (sentinel closed))
    else (record db { schemas = insert name name db.schemas }, ok name)

-- What other calls do while the engine attaches: nothing, or a `Close`.
pub meanwhile : Bool → Database → Database
meanwhile closes db = if closes then record db { is_closed = true } else db

module _ {W : Type 0} (exec : Text → Effect W ExecAnswer) where
  attached : Bool → Text → Database → W × Fallible ExecAnswer → Database × W × Fallible Text
  unfolding store_schema meanwhile execution_error
  attached closes name db (w, err e) = (meanwhile closes db, w, err (execution_error [] e))
  attached closes name db (w, ok answer) =
      let (db', result) = store_schema name (meanwhile closes db) in (db', w, result)

  create_checked : Bool → Database → W → Fallible Text → Database × W × Fallible Text
  unfolding attached quote_identifier
  create_checked closes db w (err e) = (db, w, err e)
  create_checked closes db w (ok name) =
      attached closes name db
        (exec (codes "ATTACH DATABASE ':memory:' AS " ++ quote_identifier name) w)

  -- `CreateSchema`, with whether the database is closed while it attaches
  unfoldable pub create_schema : Bool → Text → Database → W → Database × W × Fallible Text
  unfolding create_checked checked_name
  create_schema closes name db w = create_checked closes db w (checked_name name db)

-- `Close`; `close_pool` is Close of the pool.
pub close_database :
    {W : Type 0}
    → (W → W × Option GoError)
    → Database
    → FunctionDatabases W
    → W
    → Database × FunctionDatabases W × W × Option GoError
unfolding delete
close_database close_pool db databases w =
    if db.is_closed
    then (db, databases, w, none)
    else (let (w', e) = close_pool w in
        (record db { is_closed = true }, delete db.dispatch_id databases, w', e))
