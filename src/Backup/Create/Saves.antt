-- ===== src/Backup/Create/Saves.antt =====
-- A backup has for each schema an image that decodes to the schema's database.
use pgmem.Backup.Create.Images.{
  Saved, insert-Saved, insert-Saved_self, engine_schema_name-named, vacuum_schema_image_lem,
  serialize_connection_lem,
}
use pgmem.Database.{Database}
use mathlib.Core.Path.{subst}
use pgmem.Backup.Create.{
  serialize_connection, vacuum_schema_image, save_images, clone_bytes, engine_schema_name,
  in_schema, Backup, save, schema_names_locked, backup_context, open_backup,
}
use pgmem.Backup.Create.Reads.{
  vacuum_schema_image-Keeps, read_schema_versions-Keeps, serialize_connection-Keeps,
}
use pgmem.Backup.Holder.{image_of}
use pgmem.Backup.Program.{Process, or_wrap, lift, ◌>>=◌}
use pgmem.Backup.Program.Keeps.{Keeps-at, lift-Keeps}
use pgmem.Backup.Program.Laws.{
  >>=-eq-ok, or_wrap-eq-ok, deferring-eq-ok, pure-eq-ok, guarded-eq-ok, lift-eq-ok,
}
use pgmem.Backup.Storage.{Storage}
use pgmem.Backup.Documented.{Documented}
use pgmem.Errors.{ok, sentinel, closed}
use pgmem.Common.{
  refl, ap, sym, ◌∙◌, ℕ, ◌≡◌, Option, some, List, [], ◌∷◌, true, false, All, Bool-cases, inl, inr,
}
use pgmem.Common.Dict.{Dict, insert}
use pgmem.Common.Text.{Text, codes, text_eq, text_Key}

module _ {W D : Type 0} (storage : Storage W) (decode : Text → D) (live : W → Text → D)
    (shared : W → Text → Option D) (files : W → Text → Option Text)
    (laws : Documented storage decode live shared files) (saved : Text → D) where
  save_images-public :
      (connection : ℕ) (name : Text) (names : List Text) (images : Dict Text Text) (p : Process W)
      → text_eq name (codes "public") ≡ true
      → save_images storage connection (name ∷ names) images p
        ≡ save_images storage connection names images p
  unfolding save_images
  save_images-public connection name names images p e = rw (e, save_images) refl

  save_images-first :
      (connection : ℕ) (name : Text) (names : List Text) (images : Dict Text Text) (p : Process W)
      → text_eq name (codes "public") ≡ false
      → save_images storage connection (name ∷ names) images p
        ≡ (or_wrap
                (vacuum_schema_image storage connection name)
                (in_schema (codes "pgmem: back up schema ") name (codes ": "))
              >>= λ image. save_images storage connection names (insert name image images))
            p
  unfolding save_images clone_bytes
  save_images-first connection name names images p e = rw (e, save_images) refl

  save_images-named :
      (connection : ℕ) (name : Text) (names : List Text) (images out : Dict Text Text)
      (p q : Process W)
      → text_eq name (codes "public") ≡ false
      → save_images storage connection (name ∷ names) images p ≡ (q, ok out)
      → (p' : Process W) × (image : Text) × (vacuum_schema_image storage connection name p
          ≡ (p', ok image))
        × (save_images storage connection names (insert name image images) p' ≡ (q, ok out))
  save_images-named connection name names images out p q e h =
      let (p', image, wrapped, rest) =
        >>=-eq-ok _ _ p (sym (save_images-first connection name names images p e) ∙ h) in
      (p', image, or_wrap-eq-ok _ _ p wrapped, rest)

  save_images-Saved :
      (connection : ℕ) (on_main : laws.is_main connection ≡ true) (names : List Text)
      (images out : Dict Text Text) (p q : Process W)
      → save_images storage connection names images p ≡ (q, ok out)
      → live p.world ≡ saved
      → ((name : Text) → Saved decode saved images name → Saved decode saved out name)
        × All (λ name. text_eq name (codes "public") ≡ false → Saved decode saved out name) names
  unfolding save_images
  save_images-Saved connection on_main [] images out p q h here =
      ((λ name before. subst (λ m. Saved decode saved m name) (pure-eq-ok images p h).1 before), tt)
  save_images-Saved connection on_main (name ∷ names) images out p q h here =
      elim (Bool-cases (text_eq name (codes "public"))) [
        | inl e ↦
            let (kept, all) =
              save_images-Saved connection on_main names images out p q
                (sym (save_images-public connection name names images p e) ∙ h) here in
            (kept, (λ n. cc, all))
        | inr e ↦
            let (p', image, vacuumed, rest) =
              save_images-named connection name names images out p q e h in
            let right : decode image ≡ saved (engine_schema_name name) =
              vacuum_schema_image_lem storage decode live shared files laws connection on_main name
                p p' image vacuumed
              ∙ ap (λ s. s name) here
              ∙ ap saved (sym (engine_schema_name-named name e)) in
            let (kept, all) =
              save_images-Saved connection on_main names (insert name image images) out p' q rest (
                Keeps-at
                  (vacuum_schema_image-Keeps storage decode live shared files laws connection name)
                  vacuumed
                ∙ here) in
            (
              λ other before.
                  kept other (insert-Saved decode saved images name image right other before),
              (λ n. kept name (insert-Saved_self decode saved images name image right), all),
            )
      ]

  -- What a backup of the schemas with these names holds.
  pub record HoldsSaved (names : List Text) (backup : Backup) : Type 0 where
    pub names_saved : backup.schema_names ≡ names
    pub public_saved : Saved decode saved backup.images (codes "public")
    pub named_saved :
        All
          (λ name. text_eq name (codes "public") ≡ false → Saved decode saved backup.images name)
          names

  save-HoldsSaved :
      (db : Database) (connection : ℕ) (on_main : laws.is_main connection ≡ true) (p q : Process W)
      (backup : Backup)
      → save storage db connection p ≡ (q, ok backup)
      → live p.world ≡ saved
      → HoldsSaved (schema_names_locked db) backup
  unfolding save clone_bytes image_of
  save-HoldsSaved db connection on_main p q backup h here =
      let (p1, versions, h1, k1) = >>=-eq-ok _ _ p h in
      let (p2, image, h2, k2) = >>=-eq-ok _ _ p1 k1 in
      let (p3, images, h3, k3) = >>=-eq-ok _ _ p2 k2 in
      let here1 =
        Keeps-at
          (read_schema_versions-Keeps storage decode live shared files laws connection
            (schema_names_locked db))
          (or_wrap-eq-ok _ _ p h1)
        ∙ here in
      let serialized = or_wrap-eq-ok (serialize_connection storage connection) _ p1 h2 in
      let here2 =
        Keeps-at (serialize_connection-Keeps storage decode live shared files laws connection)
          serialized
        ∙ here1 in
      let (kept, all) =
        save_images-Saved connection on_main (schema_names_locked db) ((codes "public", image) ∷ [])
          images p2 p3 h3 here2 in
      let right : Saved decode saved ((codes "public", image) ∷ []) (codes "public") =
        serialize_connection_lem storage decode live shared files laws connection on_main p1 p2
          image serialized
        ∙ ap (λ s. s (codes "main")) here1 in
      subst (HoldsSaved (schema_names_locked db)) (pure-eq-ok _ p3 k3).1 (record {
        names_saved = refl;
        public_saved = kept (codes "public") right;
        named_saved = all;
      })

  -- `BackupContext`, where it succeeds.
  pub backup_context-HoldsSaved :
      (db : Database) (p q : Process W) (backup : Backup)
      → backup_context storage (some db) p ≡ (q, ok backup)
      → live p.world ≡ saved
      → HoldsSaved (schema_names_locked db) backup
  unfolding backup_context open_backup
  backup_context-HoldsSaved db p q backup h here =
      let (still_open, opened) =
        guarded-eq-ok db.is_closed (sentinel closed) (open_backup storage db) p h in
      let (p1, connection, h1, k1) = >>=-eq-ok _ _ p opened in
      let (p2, saved_backup, freed) = deferring-eq-ok _ _ p1 k1 in
      let connected = or_wrap-eq-ok (lift storage.conn) _ p h1 in
      let on_main =
        laws.conn_main connection p.world p1.world (lift-eq-ok storage.conn p connected).0 in
      save-HoldsSaved db connection on_main p1 p2 backup saved_backup
        (Keeps-at (lift-Keeps _ λ w. (laws.conn_same w).same_live) connected ∙ here)
