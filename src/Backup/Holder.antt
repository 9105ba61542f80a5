-- ===== src/Backup/Holder.antt =====
-- `restoredSchemaHolder`: in-memory databases filled from images, of backup.go.
pub mod Keeps
pub mod Uris
pub mod Fills
pub mod Opened
pub mod Opens
use pgmem.Engine.{Effect}
use pgmem.Backup.Create.{clone_bytes, in_schema}
use pgmem.Driver.{first_error}
use pgmem.Backup.Program.{
  ◌>>=◌, ◌>>◌, Process, Program, pure, fail, or_wrap, lift, attempt, discard, deferring, on_failure,
  none_is_ok,
}
use pgmem.Backup.Storage.{Storage}
use pgmem.Common.{ℕ, ◌+◌, ◌%◌, ◌^◌, true, false, Option, none, some, List, [], ◌∷◌, ◌++◌, nat_Key}
use pgmem.Common.Dict.{Dict, lookup}
use pgmem.Common.Text.{Text, codes, text_eq, text_Key, decimal}
use pgmem.Errors.{GoError, plain, Fallible, ok, err}

-- `restoredSchemaHolder`
pub record RestoredSchemaHolder : Type 0 where
  pub name : Text
  pub uri : Text
  pub database : ℕ
  pub connection : ℕ

-- m[key] of a map of images, where a missing key is nil
unfoldable pub image_of : Text → Dict Text Text → Text
unfolding lookup
image_of name images = elim (lookup name images) [ none ↦ [] | some image ↦ image ]

unfoldable pub restore_uri : ℕ → Text
unfolding decimal
restore_uri id = codes "file:pgmem-restore-" ++ decimal id ++ codes "?mode=memory&cache=shared"

module _ {W : Type 0} (storage : Storage W) where
  -- Step(-1), then Finish, whose error counts where Step has none.
  run_restore : ℕ → Program W (Unit {0})
  run_restore restore p =
      let (w, step_error) = storage.restore_step restore p.world in
      let (w', finish_error) = storage.restore_finish restore w in
      (record p { world = w' }, none_is_ok (first_error step_error finish_error))

  -- The callback of `restoreConnectionFromURI`.
  restore_with : Text → Option (Text → Effect W ℕ) → Program W (Unit {0})
  unfolding run_restore
  restore_with source none =
      fail (plain (codes "embedded SQLite connection does not support online restore"))
  restore_with source (some new_restore) = do
    restore ← lift (new_restore source)
    run_restore restore

  -- `restoreConnectionFromURI`
  unfoldable pub restore_connection_from_uri : ℕ → Text → Program W (Unit {0})
  unfolding restore_with
  restore_connection_from_uri connection source = do
    driver ← lift (storage.raw connection)
    restore_with source driver.new_restore

  -- `close` of a holder
  unfoldable pub close_holder : RestoredSchemaHolder → Process W → Process W
  close_holder holder p =
      discard (storage.close_pool holder.database)
        (discard (storage.close_conn holder.connection) p)

  -- restoreSequence.Add(1), of a uint64
  next_id : Program W ℕ
  next_id p = let id = (p.sequence + 1) % 2 ^ 64 in (record p { sequence = id }, ok id)

  fill_holder : Text → RestoredSchemaHolder → Program W RestoredSchemaHolder
  unfolding restore_connection_from_uri close_holder
  fill_holder source holder = do
    on_failure (close_holder holder) (restore_connection_from_uri holder.connection source)
    pure holder

  open_holder : Text → Text → Program W RestoredSchemaHolder
  unfolding next_id fill_holder restore_uri
  open_holder name source = do
    id ← next_id
    database ← lift (storage.open_pool (restore_uri id))
    connection ←
        on_failure (discard (storage.close_pool database)) (lift (storage.pool_conn database))
    fill_holder source
        (record { name = name; uri = restore_uri id; database = database; connection = connection })

  -- `openRestoredSchema`
  unfoldable pub open_restored_schema : Text → Text → Program W RestoredSchemaHolder
  unfolding open_holder clone_bytes
  open_restored_schema name image = do
    source ← lift (storage.create_temp (codes "pgmem-restore-source-*.sqlite"))
    deferring (discard (storage.remove_file source)) do
      on_failure (discard (storage.close_file source))
          (attempt (storage.write_file source (clone_bytes image)))
      attempt (storage.close_file source)
      open_holder name source

  -- The loop of `RestoreContext` that opens the holders; those that were opened before an error are
  -- returned with it.
  held_with :
      RestoredSchemaHolder
      → Process W × List RestoredSchemaHolder × Option GoError
      → Process W × List RestoredSchemaHolder × Option GoError
  held_with holder (p, holders, e) = (p, holder ∷ holders, e)

  held_first :
      (Process W → Process W × List RestoredSchemaHolder × Option GoError)
      → Process W × Fallible RestoredSchemaHolder
      → Process W × List RestoredSchemaHolder × Option GoError
  unfolding held_with
  held_first rest (p, ok holder) = held_with holder (rest p)
  held_first rest (p, err e) = (p, [], some e)

  unfoldable pub open_holders :
      Dict Text Text
      → List Text
      → Process W
      → Process W × List RestoredSchemaHolder × Option GoError
  unfolding held_first open_restored_schema text_eq image_of
  open_holders images [] p = (p, [], none)
  open_holders images (name ∷ names) p = elim (text_eq name (codes "public")) [
    | true ↦ open_holders images names p
    | false ↦ held_first (open_holders images names) (
        or_wrap (open_restored_schema name (image_of name images))
          (in_schema (codes "pgmem: prepare schema ") name (codes " for restore: ")) p)
  ]

  unfoldable pub close_holders : List RestoredSchemaHolder → Process W → Process W
  unfolding close_holder
  close_holders [] p = p
  close_holders (holder ∷ holders) p = close_holders holders (close_holder holder p)
