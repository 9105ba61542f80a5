-- ===== src/Backup/Create/Images.antt =====
-- The images that a backup takes of single schemas decode to their databases.
use pgmem.Common.TextLaws.{text_eq_refl}
use pgmem.Backup.Create.{
  serialize_connection, vacuum_schema_image, clone_bytes, serialize_with, engine_schema_name,
  vacuum_statement,
}
use pgmem.Backup.Holder.{image_of}
use pgmem.Backup.Program.{Process, lift, attempt, fail, ◌>>=◌}
use pgmem.Backup.Program.Keeps.{Keeps-at, lift-Keeps, attempt-Keeps}
use pgmem.Backup.Program.Laws.{
  >>=-eq-ok, >>-eq-ok, on_failure-eq-ok, deferring-eq-ok, lift-eq-ok, pure-eq-ok,
}
use pgmem.Backup.Storage.{Storage, DriverConnection}
use pgmem.Backup.Documented.{Documented}
use pgmem.Engine.{Effect}
use pgmem.Errors.{ok}
use pgmem.Common.{
  refl, ap, sym, ◌∙◌, ℕ, ◌≡◌, Option, none, some, [], true, false, Bool-cases, inl, inr,
  if◌then◌else◌, Bool,
}
use pgmem.Common.Dict.{Dict, insert, lookup-insert, lookup}
use pgmem.Common.Text.{Text, codes, text_eq, text_eq_iff, text_Key}

image_of-insert :
    (asked written image : Text) (images : Dict Text Text)
    → image_of asked (insert written image images)
      ≡ (if text_eq written asked then image else image_of asked images)
unfolding image_of insert
image_of-insert asked written image images =
    ap image_or_nil (lookup-insert written asked image images) ∙ chosen (text_eq written asked)
  where
    image_or_nil : Option Text → Text
    image_or_nil o = elim o [ none ↦ [] | some image ↦ image ]

    chosen :
        (b : Bool)
        → image_or_nil (if b then some image else lookup asked images)
          ≡ (if b then image else image_of asked images)
    chosen true = refl
    chosen false = refl

pub engine_schema_name-public :
    (name : Text) → text_eq name (codes "public") ≡ true → engine_schema_name name ≡ codes "main"
unfolding engine_schema_name
engine_schema_name-public name e = rw e refl

pub engine_schema_name-named :
    (name : Text) → text_eq name (codes "public") ≡ false → engine_schema_name name ≡ name
unfolding engine_schema_name
engine_schema_name-named name e = rw e refl

-- The image of the schema decodes to the database that `saved` has for it.
abbrev pub Saved : {D : Type 0} → (Text → D) → (Text → D) → Dict Text Text → Text → Type 0
Saved decode saved images name = decode (image_of name images) ≡ saved (engine_schema_name name)

pub insert-Saved :
    {D : Type 0} (decode saved : Text → D) (images : Dict Text Text) (name image : Text)
    → decode image ≡ saved (engine_schema_name name)
    → (other : Text) → Saved decode saved images other
    → Saved decode saved (insert name image images) other
insert-Saved decode saved images name image h other before =
    elim (Bool-cases (text_eq name other)) [
      | inl e ↦
          ap decode (image_of-insert other name image images ∙ rw e refl)
          ∙ h
          ∙ ap (λ n. saved (engine_schema_name n)) ((text_eq_iff name other).0 e)
      | inr e ↦ ap decode (image_of-insert other name image images ∙ rw e refl) ∙ before
    ]

pub insert-Saved_self :
    {D : Type 0} (decode saved : Text → D) (images : Dict Text Text) (name image : Text)
    → decode image ≡ saved (engine_schema_name name)
    → Saved decode saved (insert name image images) name
insert-Saved_self decode saved images name image h =
    ap decode (image_of-insert name name image images ∙ rw (text_eq_refl name) refl) ∙ h

module _ {W D : Type 0} (storage : Storage W) (decode : Text → D) (live : W → Text → D)
    (shared : W → Text → Option D) (files : W → Text → Option Text)
    (laws : Documented storage decode live shared files) where
  read_vacuumed_lem :
      (connection : ℕ) (on_main : laws.is_main connection ≡ true) (name path : Text)
      (p q : Process W) (image : Text)
      → (lift (storage.exec connection (vacuum_statement name path) []) >>= λ answer.
            lift (storage.read_file path))
          p
        ≡ (q, ok image)
      → decode image ≡ live p.world name
  read_vacuumed_lem connection on_main name path p q image h =
      let (p1, answer, h1, k1) =
        >>=-eq-ok (lift (storage.exec connection (vacuum_statement name path) []))
          (λ answer. lift (storage.read_file path)) p h in
      let (vacuumed, seq) =
        lift-eq-ok (storage.exec connection (vacuum_statement name path) []) p h1 in
      let (read, seq') = lift-eq-ok (storage.read_file path) p1 k1 in
      let (stored, at_path, means) =
        laws.vacuum_done connection name path p.world p1.world answer on_main vacuumed in
      ap decode (the_same (sym (laws.read_done path image p1.world q.world read) ∙ at_path)) ∙ means
    where
      the_same : {a b : Text} → some a ≡ some b → a ≡ b
      the_same e = cc

  pub vacuum_schema_image_lem :
      (connection : ℕ) (on_main : laws.is_main connection ≡ true) (name : Text) (p q : Process W)
      (image : Text)
      → vacuum_schema_image storage connection name p ≡ (q, ok image)
      → decode image ≡ live p.world name
  unfolding vacuum_schema_image
  vacuum_schema_image_lem connection on_main name p q image h =
      let (p1, path, h1, k1) =
        >>=-eq-ok (lift (storage.create_temp (codes "pgmem-backup-*.sqlite"))) _ p h in
      let (p2, u2, h2, k2) = >>-eq-ok _ _ p1 k1 in
      let (p3, u3, h3, k3) = >>-eq-ok (attempt (storage.remove_file path)) _ p2 k2 in
      let (p4, k4, removed) = deferring-eq-ok _ _ p3 k3 in
      read_vacuumed_lem connection on_main name path p3 p4 image k4
      ∙ ap (λ s. s name)
          (Keeps-at (attempt-Keeps _ (laws.remove_live path)) h3
            ∙ Keeps-at
                (attempt-Keeps (storage.close_file path)
                  λ w. (laws.close_file_same path w).same_live)
                (on_failure-eq-ok _ _ p1 h2)
            ∙ Keeps-at (lift-Keeps _ (laws.create_live _)) h1)

  serialize_with_lem :
      (connection : ℕ) (on_main : laws.is_main connection ≡ true) (w : W)
      (driver : DriverConnection W) (serialize : Option (Effect W Text)) (p q : Process W)
      (image : Text)
      → (storage.raw connection w).1 ≡ ok driver
      → driver.serialize ≡ serialize
      → serialize_with storage serialize p ≡ (q, ok image)
      → decode image ≡ live p.world (codes "main")
  unfolding serialize_with clone_bytes fail
  serialize_with_lem connection on_main w driver none p q image raw has h = cc
  serialize_with_lem connection on_main w driver (some f) p q image raw has h =
      let (p1, serialized, h1, k1) = >>=-eq-ok (lift f) _ p h in
      let (done, seq) = lift-eq-ok f p h1 in
      let (here, same) = pure-eq-ok _ p1 k1 in
      ap decode (sym same)
      ∙ laws.serialize_done connection w p.world p1.world driver f serialized on_main raw has done

  pub serialize_connection_lem :
      (connection : ℕ) (on_main : laws.is_main connection ≡ true) (p q : Process W) (image : Text)
      → serialize_connection storage connection p ≡ (q, ok image)
      → decode image ≡ live p.world (codes "main")
  unfolding serialize_connection
  serialize_connection_lem connection on_main p q image h =
      let (p1, driver, h1, k1) =
        >>=-eq-ok (lift (storage.raw connection))
          (λ driver. serialize_with storage driver.serialize) p h in
      let (done, seq) = lift-eq-ok (storage.raw connection) p h1 in
      serialize_with_lem connection on_main p.world driver driver.serialize p1 q image
        (ap (λ r. r.1) done) refl k1
      ∙ ap (λ s. s (codes "main"))
          (Keeps-at (lift-Keeps _ λ w. (laws.raw_same connection w).same_live) h1)
