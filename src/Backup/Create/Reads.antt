-- ===== src/Backup/Create/Reads.antt =====
-- What `BackupContext` does before and for its images only reads the databases.
use pgmem.Backup.Program.Laws.{pure-eq-ok, >>=-eq-ok, lift-eq-ok, or_wrap-eq-ok}
use pgmem.Backup.Program.{Process, lift}
use pgmem.Engine.{Effect}
use pgmem.Backup.Storage.{DriverConnection}
use pgmem.Backup.Create.{
  read_versions, read_schema_versions, serialize_connection, vacuum_schema_image, serialize_with,
}
use pgmem.Backup.Program.Keeps.{
  Keeps, pure-Keeps, or_wrap-Keeps, >>=-Keeps, lift-Keeps, lift->>=-Keeps, >>-Keeps,
  on_failure-Keeps, deferring-Keeps, fail-Keeps, discard-Spares, attempt-Keeps,
}
use pgmem.Backup.Storage.{Storage}
use pgmem.Backup.Documented.{Documented}
use pgmem.Common.{ℕ, Option, List, [], ◌∷◌, nat_Key, ◌≡◌, refl, none, some, ap, sym, ◌∙◌}
use pgmem.Common.Dict.{Dict}
use pgmem.Common.Text.{Text, text_Key, codes}
use pgmem.Common.Signed.{ℤ}
use pgmem.Errors.{ok}

module _ {W D : Type 0} (storage : Storage W) (decode : Text → D) (live : W → Text → D)
    (shared : W → Text → Option D) (files : W → Text → Option Text)
    (laws : Documented storage decode live shared files) where
  read_versions-Keeps :
      (connection : ℕ) (names : List Text) (versions : Dict Text ℤ)
      → Keeps live (read_versions storage connection names versions)
  unfolding read_versions
  read_versions-Keeps connection [] versions = pure-Keeps versions
  read_versions-Keeps connection (name ∷ names) versions =
      >>=-Keeps
        (or_wrap-Keeps _ _ (lift-Keeps _ λ w. (laws.query_same connection name w).same_live))
        λ version. read_versions-Keeps connection names _

  read_versions-sequence :
      (connection : ℕ) (names : List Text) (before versions : Dict Text ℤ) (p q : Process W)
      → read_versions storage connection names before p ≡ (q, ok versions)
      → q.sequence ≡ p.sequence
  unfolding read_versions
  read_versions-sequence connection [] before versions p q h =
      ap (λ r. r.sequence) (sym (pure-eq-ok before p h).0)
  read_versions-sequence connection (name ∷ names) before versions p q h =
      let (p1, version, h1, k1) = >>=-eq-ok _ _ p h in
      let (done, seq) = lift-eq-ok _ p (or_wrap-eq-ok (lift _) _ p h1) in
      read_versions-sequence connection names _ versions p1 q k1 ∙ seq

  -- Reading the versions takes no id.
  pub read_schema_versions-sequence :
      (connection : ℕ) (names : List Text) (p q : Process W) (versions : Dict Text ℤ)
      → read_schema_versions storage connection names p ≡ (q, ok versions)
      → q.sequence ≡ p.sequence
  unfolding read_schema_versions
  read_schema_versions-sequence connection names p q versions h =
      read_versions-sequence connection names [] versions p q h

  pub read_schema_versions-Keeps :
      (connection : ℕ) (names : List Text)
      → Keeps live (read_schema_versions storage connection names)
  unfolding read_schema_versions
  read_schema_versions-Keeps connection names = read_versions-Keeps connection names []

  serialize_with-Keeps :
      (connection : ℕ) (w : W) (driver : DriverConnection W) (serialize : Option (Effect W Text))
      → (storage.raw connection w).1 ≡ ok driver
      → driver.serialize ≡ serialize
      → Keeps live (serialize_with storage serialize)
  unfolding serialize_with
  serialize_with-Keeps connection w driver none raw has = fail-Keeps _
  serialize_with-Keeps connection w driver (some f) raw has =
      >>=-Keeps (lift-Keeps f λ v. (laws.serialize_same connection w v driver f raw has).same_live)
        λ image. pure-Keeps _

  pub serialize_connection-Keeps :
      (connection : ℕ) → Keeps live (serialize_connection storage connection)
  unfolding serialize_connection
  serialize_connection-Keeps connection =
      lift->>=-Keeps (storage.raw connection) (λ driver. serialize_with storage driver.serialize)
        (λ w. (laws.raw_same connection w).same_live)
        λ w driver raw. serialize_with-Keeps connection w driver driver.serialize raw refl

  pub vacuum_schema_image-Keeps :
      (connection : ℕ) (name : Text) → Keeps live (vacuum_schema_image storage connection name)
  unfolding vacuum_schema_image
  vacuum_schema_image-Keeps connection name =
      >>=-Keeps (lift-Keeps _ (laws.create_live (codes "pgmem-backup-*.sqlite"))) λ path.
        >>-Keeps
          (on_failure-Keeps (discard-Spares _ (laws.remove_live path))
            (attempt-Keeps _ λ w. (laws.close_file_same path w).same_live))
          (>>-Keeps (attempt-Keeps _ (laws.remove_live path)) (
            deferring-Keeps (discard-Spares _ (laws.remove_live path)) (
              >>=-Keeps (lift-Keeps _ (laws.vacuum_live connection name path))
                λ answer. lift-Keeps _ λ w. (laws.read_same path w).same_live)))
