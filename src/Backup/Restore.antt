-- ===== src/Backup/Restore.antt =====
-- `RestoreContext` and its helpers, but for the holders.
pub mod Commits
pub mod RoundTrip
pub mod Refuses
use pgmem.Backup.Holder.{
  RestoredSchemaHolder, image_of, close_holder, close_holders, open_restored_schema, open_holders,
}
use pgmem.Backup.Create.{
  Backup, schema_names_locked, read_schema_versions, clone_bytes, in_schema, prefixed,
}
use pgmem.Backup.Program.{
  ◌>>=◌, ◌>>◌, Process, Program, pure, fail, or_wrap, lift, attempt, discard, deferring, none_is_ok,
}
use pgmem.Backup.Storage.{Storage}
use pgmem.Quote.{quote_identifier}
use pgmem.Database.{Database}
use pgmem.Common.{
  ℕ, suc, Bool, true, false, ◌&&◌, Option, none, some, List, [], ◌∷◌, ◌++◌, if◌then◌else◌, nat_Key,
}
use pgmem.Common.Dict.{Dict, lookup}
use pgmem.Common.Text.{Text, codes, text_eq, text_Key, join, decimal, quoted}
use pgmem.Common.Signed.{ℤ, pos, negsuc, int_eq}
use pgmem.Errors.{closed, schema_changed, GoError, sentinel, plain, wrap, Fallible, ok, err}
use pgmem.Values.{Value}

-- `equalStrings`
unfoldable pub equal_strings : List Text → List Text → Bool
unfolding text_eq
equal_strings [] [] = true
equal_strings [] (r ∷ right) = false
equal_strings (l ∷ left) [] = false
equal_strings (l ∷ left) (r ∷ right) = text_eq l r && equal_strings left right

-- m[key] of a map of integers, where a missing key is 0
unfoldable pub version_of : Text → Dict Text ℤ → ℤ
unfolding lookup
version_of name versions = elim (lookup name versions) [ none ↦ pos 0 | some version ↦ version ]

-- fmt's %d and, of a slice of strings, %v
signed_decimal : ℤ → Text
unfolding decimal
signed_decimal (pos n) = decimal n
signed_decimal (negsuc n) = codes "-" ++ decimal (suc n)

bracketed : List Text → Text
unfolding join
bracketed names = codes "[" ++ join names (codes " ") ++ codes "]"

pub names_changed : List Text → List Text → GoError
unfolding bracketed
names_changed current saved = wrap [] (sentinel schema_changed) (
    codes ": named schemas are now "
    ++ bracketed current
    ++ codes ", backup has "
    ++ bracketed saved)

pub version_changed : Text → ℤ → ℤ → GoError
unfolding signed_decimal
version_changed name current saved = wrap [] (sentinel schema_changed) (
    codes ": schema "
    ++ quoted name
    ++ codes " version is "
    ++ signed_decimal current
    ++ codes ", backup version is "
    ++ signed_decimal saved)

-- The loop of `RestoreContext` that compares the versions: the first that differs.
unfoldable pub changed_version : List Text → Dict Text ℤ → Dict Text ℤ → Option GoError
unfolding version_of version_changed
changed_version [] current saved = none
changed_version (name ∷ names) current saved =
    let rest = changed_version names current saved in
    if int_eq (version_of name current) (version_of name saved)
    then rest
    else some (version_changed name (version_of name current) (version_of name saved))

unfoldable pub detach_statement : Text → Text
unfolding quote_identifier
detach_statement name = codes "DETACH DATABASE " ++ quote_identifier name

unfoldable pub attach_statement : Text → Text
unfolding quote_identifier
attach_statement name = codes "ATTACH DATABASE ? AS " ++ quote_identifier name

module _ {W : Type 0} (storage : Storage W) where
  -- The callback of `deserializeConnection`.
  deserialize_with : Text → Option (Text → W → W × Option GoError) → Program W (Unit {0})
  unfolding clone_bytes
  deserialize_with image none =
      fail (plain (codes "embedded SQLite connection does not support deserialization"))
  deserialize_with image (some deserialize) = attempt (deserialize (clone_bytes image))

  -- `deserializeConnection`
  pub deserialize_connection : ℕ → Text → Program W (Unit {0})
  unfolding deserialize_with
  deserialize_connection connection image = do
    driver ← lift (storage.raw connection)
    deserialize_with image driver.deserialize

  -- The loop of `RestoreContext` that swaps the named databases.
  swap_holders : ℕ → List RestoredSchemaHolder → Program W (Unit {0})
  unfolding detach_statement attach_statement
  swap_holders connection [] = pure tt
  swap_holders connection (holder ∷ holders) = do
    detached ←
        or_wrap (lift (storage.exec_uncancelled connection (detach_statement holder.name) []))
          (in_schema (codes "pgmem: detach schema ") holder.name (codes " for restore: "))
    attached ←
        or_wrap
          (lift (
            storage.exec_uncancelled connection (attach_statement holder.name)
              (Value.string holder.uri ∷ [])))
          (in_schema (codes "pgmem: attach restored schema ") holder.name (codes ": "))
    swap_holders connection holders

  check_context : Program W (Unit {0})
  check_context p = (p, none_is_ok (storage.ctx_err p.world))

  -- From the check of the context on: what changes the live databases.
  commit_restore : ℕ → Text → List RestoredSchemaHolder → Program W (Unit {0})
  unfolding deserialize_connection swap_holders
  commit_restore connection image holders = do
    or_wrap (deserialize_connection connection image)
        (prefixed (codes "pgmem: restore public schema: "))
    swap_holders connection holders

  pub with_holders :
      ℕ
      → Text
      → Process W × List RestoredSchemaHolder × Option GoError
      → Process W × Fallible (Unit {0})
  unfolding check_context commit_restore close_holders
  with_holders connection image (p, holders, some e) = (close_holders storage holders p, err e)
  with_holders connection image (p, holders, none) =
      deferring (close_holders storage holders)
        (do check_context; commit_restore connection image holders) p

  validate_public : Text → Program W (Unit {0})
  unfolding open_restored_schema close_holder
  validate_public image = do
    holder ←
        or_wrap (open_restored_schema storage (codes "public") image)
          (prefixed (codes "pgmem: validate public schema for restore: "))
    λ p. (close_holder storage holder p, ok tt)

  check_versions : ℕ → List Text → Dict Text ℤ → Program W (Unit {0})
  unfolding changed_version read_schema_versions
  check_versions connection names saved = do
    current ←
        or_wrap (read_schema_versions storage connection names)
          (prefixed (codes "pgmem: read schema versions before restore: "))
    λ p. (p, none_is_ok (changed_version names current saved))

  -- `RestoreContext` on its connection
  restore_on : Backup → List Text → ℕ → Program W (Unit {0})
  unfolding check_versions validate_public open_holders with_holders image_of
  restore_on backup names connection = do
    check_versions connection names backup.schema_versions
    validate_public (image_of (codes "public") backup.images)
    λ p.
        with_holders connection (image_of (codes "public") backup.images)
          (open_holders storage backup.images names p)

  restore_named : Backup → List Text → Program W (Unit {0})
  unfolding restore_on
  restore_named backup names = do
    connection ←
        or_wrap (lift storage.conn) (prefixed (codes "pgmem: acquire connection for restore: "))
    deferring (discard (storage.close_conn connection)) (restore_on backup names connection)

  -- `RestoreContext`, with the state of the backup's database
  unfoldable pub restore_context : Option Backup → Database → Program W (Unit {0})
  unfolding restore_named schema_names_locked equal_strings names_changed
  restore_context none db = fail (plain (codes "pgmem: backup is nil"))
  restore_context (some backup) db =
      if db.is_closed
      then fail (sentinel closed)
      else if equal_strings (schema_names_locked db) backup.schema_names
      then restore_named backup (schema_names_locked db)
      else fail (names_changed (schema_names_locked db) backup.schema_names)
