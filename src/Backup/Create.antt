-- ===== src/Backup/Create.antt =====
-- `BackupContext` and its helpers.
pub mod Reads
pub mod Images
pub mod Saves
use pgmem.Engine.{Effect}
use pgmem.Backup.Program.{
  ◌>>=◌, ◌>>◌, Program, pure, fail, or_wrap, lift, attempt, discard, deferring, on_failure,
}
use pgmem.Backup.Storage.{Storage}
use pgmem.Quote.{quote_identifier, quote_string_literal}
use pgmem.Database.{Database}
use pgmem.Table.{sort_keys}
use pgmem.Common.{
  ℕ, true, false, Option, none, some, List, [], ◌∷◌, ◌++◌, map, if◌then◌else◌, nat_Key,
}
use pgmem.Common.Dict.{Dict, insert}
use pgmem.Common.Text.{Text, codes, text_eq, text_Key, quoted}
use pgmem.Common.Signed.{ℤ}
use pgmem.Errors.{closed, GoError, sentinel, plain, wrap}

-- A `Backup`, without the pointer to its database.
pub record Backup : Type 0 where
  pub schema_names : List Text
  pub schema_versions : Dict Text ℤ
  pub images : Dict Text Text

-- `cloneBytes`
unfoldable pub clone_bytes : Text → Text
clone_bytes value = [] ++ value

-- `schemaNamesLocked`
unfoldable pub schema_names_locked : Database → List Text
unfolding sort_keys
schema_names_locked db = sort_keys (map (λ (entry : Text × Text). entry.0) db.schemas)

-- `engineSchemaName`
unfoldable pub engine_schema_name : Text → Text
unfolding text_eq
engine_schema_name name = if text_eq name (codes "public") then codes "main" else name

unfoldable pub version_query : Text → Text
unfolding quote_identifier engine_schema_name
version_query name =
    codes "PRAGMA " ++ quote_identifier (engine_schema_name name) ++ codes ".schema_version"

unfoldable pub vacuum_statement : Text → Text → Text
unfolding quote_identifier quote_string_literal
vacuum_statement name path =
    codes "VACUUM " ++ quote_identifier name ++ codes " INTO " ++ quote_string_literal path

-- fmt.Errorf with the name of a schema, quoted, and the cause
abbrev pub in_schema : Text → Text → Text → GoError → GoError
in_schema before name after e = wrap (before ++ quoted name ++ after) e []

abbrev pub prefixed : Text → GoError → GoError
prefixed before e = wrap before e []

module _ {W : Type 0} (storage : Storage W) where
  -- The loop of `readSchemaVersions`, with the versions so far.
  read_versions : ℕ → List Text → Dict Text ℤ → Program W (Dict Text ℤ)
  unfolding version_query insert
  read_versions connection [] versions = pure versions
  read_versions connection (name ∷ names) versions = do
    version ←
        or_wrap (lift (storage.query_version connection (version_query name)))
          (in_schema (codes "read schema ") name (codes " version: "))
    read_versions connection names (insert name version versions)

  -- `readSchemaVersions`
  unfoldable pub read_schema_versions : ℕ → List Text → Program W (Dict Text ℤ)
  unfolding read_versions
  read_schema_versions connection names = read_versions connection names []

  -- The callback of `serializeConnection`.
  serialize_with : Option (Effect W Text) → Program W Text
  unfolding clone_bytes
  serialize_with none =
      fail (plain (codes "embedded SQLite connection does not support serialization"))
  serialize_with (some serialize) = do serialized ← lift serialize; pure (clone_bytes serialized)

  -- `serializeConnection`
  pub serialize_connection : ℕ → Program W Text
  unfolding serialize_with
  serialize_connection connection = do
    driver ← lift (storage.raw connection)
    serialize_with driver.serialize

  -- `vacuumSchemaImage`
  pub vacuum_schema_image : ℕ → Text → Program W Text
  unfolding vacuum_statement
  vacuum_schema_image connection name = do
    path ← lift (storage.create_temp (codes "pgmem-backup-*.sqlite"))
    on_failure (discard (storage.remove_file path)) (attempt (storage.close_file path))
    attempt (storage.remove_file path)
    deferring (discard (storage.remove_file path)) do
      answer ← lift (storage.exec connection (vacuum_statement name path) [])
      lift (storage.read_file path)

  -- The loop of `BackupContext` over the named schemas, with the images so far.
  save_images : ℕ → List Text → Dict Text Text → Program W (Dict Text Text)
  unfolding vacuum_schema_image text_eq insert clone_bytes
  save_images connection [] images = pure images
  save_images connection (name ∷ names) images = elim (text_eq name (codes "public")) [
    | true ↦ save_images connection names images
    | false ↦ do
      image ←
          or_wrap (vacuum_schema_image connection name)
            (in_schema (codes "pgmem: back up schema ") name (codes ": "))
      save_images connection names (insert name (clone_bytes image) images)
  ]

  -- `BackupContext` on its connection
  save : Database → ℕ → Program W Backup
  unfolding schema_names_locked read_schema_versions serialize_connection save_images clone_bytes
  save db connection = do
    let names = schema_names_locked db
    versions ←
        or_wrap (read_schema_versions connection names)
          (prefixed (codes "pgmem: read schema versions for backup: "))
    main_image ←
        or_wrap (serialize_connection connection)
          (prefixed (codes "pgmem: back up public schema: "))
    images ← save_images connection names ((codes "public", clone_bytes main_image) ∷ [])
    pure (record { schema_names = names; schema_versions = versions; images = images })

  open_backup : Database → Program W Backup
  unfolding save
  open_backup db = do
    connection ←
        or_wrap (lift storage.conn) (prefixed (codes "pgmem: acquire connection for backup: "))
    deferring (discard (storage.close_conn connection)) (save db connection)

  -- `BackupContext`
  unfoldable pub backup_context : Option Database → Program W Backup
  unfolding open_backup
  backup_context none = fail (sentinel closed)
  backup_context (some db) = if db.is_closed then fail (sentinel closed) else open_backup db
