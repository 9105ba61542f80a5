-- ===== src/Examples/Backup.antt =====
-- A backup of a database with the schemas public and audit, a change, and the restore.
use pgmem.Examples.Documents.{documented}
use pgmem.Backup.Restore.Refuses.{restore_context-names, restore_context-versions}
use pgmem.Backup.Restore.RoundTrip.{AllLive, restore_context-backup_context}
use pgmem.Examples.Disk.{Disk, storage, put, read_name, attach_name}
use pgmem.Backup.Create.{Backup, backup_context, schema_names_locked, read_schema_versions}
use pgmem.Backup.Restore.{restore_context, version_of}
use pgmem.Backup.Program.{
  Process, ◌>>=◌, or_wrap, lift, deferring, pure, ◌>>◌, on_failure, attempt, discard, cleaned,
  and_then, wrap_failure,
}
use pgmem.Database.{Database}
use pgmem.Errors.{ok, GoError, err, errors_is, schema_changed}
use pgmem.Common.{refl, ◌≡◌, none, some, [], ◌∷◌, false, ◌≢◌, All, true, arith}
use pgmem.Common.Text.{Text, codes, text_eq}
use pgmem.Common.Signed.{pos}

abbrev pub audited : Database
audited = record {
  schemas = (codes "public", codes "public") ∷ (codes "audit", codes "audit") ∷ [];
  is_closed = false;
  dispatch_id = codes "4";
}

abbrev with_audit : Text → Text → Process Disk
with_audit main audit = record {
  sequence = 0;
  world = record {
    live = put (codes "main") main (put (codes "audit") audit λ name. []);
    shared = λ uri. none;
    files = λ path. none;
  };
}

abbrev stored : Backup
stored = record {
  schema_names = codes "audit" ∷ codes "public" ∷ [];
  schema_versions = (codes "audit", pos 3) ∷ (codes "public", pos 3) ∷ [];
  images = (codes "public", codes "users") ∷ (codes "audit", codes "events") ∷ [];
}

abbrev changed : Process Disk
changed = with_audit (codes "none") (codes "lost")

abbrev saved_at : Process Disk
saved_at = with_audit (codes "users") (codes "events")

backup_run : (backup_context storage (some audited) saved_at).1 ≡ ok stored
unfolding backup_context ◌>>=◌ or_wrap lift deferring pure ◌>>◌ on_failure attempt discard cleaned
    and_then wrap_failure read_name attach_name
backup_run = refl

restore_run : (restore_context storage (some stored) audited changed).1 ≡ ok tt
unfolding restore_context ◌>>=◌ or_wrap lift deferring pure ◌>>◌ on_failure attempt discard cleaned
    and_then wrap_failure read_name attach_name
restore_run = refl

with_answer : {A B : Type 0} (r : A × B) {b : B} → r.1 ≡ b → r ≡ (r.0, b)
with_answer r h i = (r.0, h i)

restore_context-backup_context_example :
    AllLive
      (λ d. d.live)
      saved_at.world.live
      (schema_names_locked audited)
      (restore_context storage (some stored) audited changed).0.world
unfolding schema_names_locked
restore_context-backup_context_example =
    restore_context-backup_context storage (λ image. image) (λ d. d.live) (λ d. d.shared)
      (λ d. d.files) documented audited audited stored saved_at
      (backup_context storage (some audited) saved_at).0 changed
      (restore_context storage (some stored) audited changed).0 tt (with_answer _ backup_run)
      (with_answer _ restore_run) (omega arith)

-- The backup of a database without the schema audit, and of an older version of the schema.
abbrev only_public : Backup
only_public = record stored { schema_names = codes "public" ∷ [] }

abbrev older : Backup
older = record stored { schema_versions = (codes "audit", pos 3) ∷ (codes "public", pos 2) ∷ [] }

names_differ : schema_names_locked audited ≢ only_public.schema_names
unfolding schema_names_locked
names_differ h = cc

restore_context-names_example :
    (e : GoError) × (restore_context storage (some only_public) audited changed ≡ (changed, err e))
    × (errors_is e schema_changed ≡ true)
restore_context-names_example =
    restore_context-names storage only_public audited changed refl names_differ

versions_read :
    read_schema_versions storage 0 (schema_names_locked audited) changed
    ≡ (changed, ok stored.schema_versions)
unfolding read_schema_versions schema_names_locked ◌>>=◌ or_wrap lift pure
versions_read = refl

same_names : schema_names_locked audited ≡ older.schema_names
unfolding schema_names_locked
same_names = refl

unequal : ¬ (pos 3 ≡ pos 2)
unequal h = ground (arith, h)

versions_differ :
    ¬ All
      (λ name. version_of name stored.schema_versions ≡ version_of name older.schema_versions)
      (schema_names_locked audited)
unfolding schema_names_locked version_of text_eq
versions_differ (audit, (public, done)) = unequal public

restore_context-versions_example :
    (e : GoError) × (restore_context storage (some older) audited changed ≡ (changed, err e))
    × (errors_is e schema_changed ≡ true)
restore_context-versions_example =
    restore_context-versions storage older audited changed changed.world 0 changed
      stored.schema_versions refl same_names refl versions_read versions_differ
