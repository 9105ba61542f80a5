-- ===== src/Backup/Restore/Refuses.antt =====
-- What `RestoreContext` refuses with `ErrSchemaChanged`.
use mathlib.Core.Path.{subst}
use pgmem.Common.Dict.{Dict}
use pgmem.Common.TextLaws.{text_eq_refl}
use pgmem.Backup.Restore.{
  check_versions, restore_on, restore_named, restore_context, names_changed, equal_strings,
  changed_version, version_of, version_changed,
}
use pgmem.Backup.Restore.RoundTrip.{equal_strings_lem}
use pgmem.Backup.Create.{Backup, read_schema_versions, schema_names_locked}
use pgmem.Backup.Program.{
  ◌>>=◌, ◌>>◌, Process, or_wrap, lift, fail, deferring, and_then, wrap_failure, discard, ◌>>=◌,
  ◌>>◌,
}
use pgmem.Backup.Storage.{Storage}
use pgmem.Database.{Database}
use pgmem.Errors.{ok, err, GoError, schema_changed, errors_is}
use pgmem.Common.{
  refl, ℕ, ◌≡◌, ◌≢◌, some, List, [], ◌∷◌, true, false, arith, All, Bool-cases, inl, inr,
}
use pgmem.Common.Signed.{ℤ, int_eq, int_eq_iff}
use pgmem.Common.Text.{Text}

pub equal_strings_refl : (names : List Text) → equal_strings names names ≡ true
unfolding equal_strings
equal_strings_refl [] = refl
equal_strings_refl (name ∷ names) = ground (arith, text_eq_refl name, equal_strings_refl names)

changed_version-some :
    (names : List Text) (current saved : Dict Text ℤ)
    → ¬ All (λ name. version_of name current ≡ version_of name saved) names
    → (e : GoError) × (changed_version names current saved ≡ some e)
      × (errors_is e schema_changed ≡ true)
unfolding changed_version version_changed errors_is
changed_version-some [] current saved h = absurd (h tt)
changed_version-some (name ∷ names) current saved h =
    elim (Bool-cases (int_eq (version_of name current) (version_of name saved))) [
      | inl same ↦
          let (e, found, is) =
            changed_version-some names current saved λ all. h ((int_eq_iff _ _).0 same, all) in
          (e, rw same found, is)
      | inr differ ↦ (
        version_changed name (version_of name current) (version_of name saved),
        rw differ refl,
        refl,
      )
    ]

module _ {W : Type 0} (storage : Storage W) (backup : Backup) (db : Database) (p : Process W) where
  -- A restore into an open database whose schemas' names are not the backup's does nothing, and its
  -- error is `ErrSchemaChanged` to errors.Is.
  pub restore_context-names :
      db.is_closed ≡ false
      → schema_names_locked db ≢ backup.schema_names
      → (e : GoError) × (restore_context storage (some backup) db p ≡ (p, err e))
        × (errors_is e schema_changed ≡ true)
  unfolding restore_context fail names_changed errors_is
  restore_context-names still_open differ =
      elim (Bool-cases (equal_strings (schema_names_locked db) backup.schema_names)) [
        | inl same ↦ absurd (differ (equal_strings_lem _ _ same))
        | inr other ↦ (
          names_changed (schema_names_locked db) backup.schema_names,
          rw (still_open, other) refl,
          refl,
        )
      ]

  -- A restore into an open database with the backup's schema names, that gets a connection and reads
  -- the schemas' versions on it, one of which is not the backup's, returns an error that is
  -- `ErrSchemaChanged` to errors.Is, and leaves the world as reading left it but for closing the
  -- connection.
  pub restore_context-versions :
      (w : W) (connection : ℕ) (after : Process W) (current : Dict Text ℤ)
      → db.is_closed ≡ false
      → schema_names_locked db ≡ backup.schema_names
      → storage.conn p.world ≡ (w, ok connection)
      → read_schema_versions storage connection (schema_names_locked db) (record p { world = w })
        ≡ (after, ok current)
      → ¬ All
          (λ name. version_of name current ≡ version_of name backup.schema_versions)
          (schema_names_locked db)
      → (e : GoError) × (restore_context storage (some backup) db p
          ≡ (record after { world = (storage.close_conn connection after.world).0 }, err e))
        × (errors_is e schema_changed ≡ true)
  unfolding restore_context restore_named restore_on check_versions or_wrap lift deferring discard
      and_then wrap_failure ◌>>=◌ ◌>>◌
  restore_context-versions w connection after current still_open same connected read differ =
      let (e, changed, is) =
        changed_version-some (schema_names_locked db) current backup.schema_versions differ in
      let same_names : equal_strings (schema_names_locked db) backup.schema_names ≡ true =
        subst (λ names. equal_strings (schema_names_locked db) names ≡ true) same
          (equal_strings_refl (schema_names_locked db)) in
      (e, rw (still_open, same_names, connected, read, changed) refl, is)
