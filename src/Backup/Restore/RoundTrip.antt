-- ===== src/Backup/Restore/RoundTrip.antt =====
-- A restore gives back the live databases of its backup.
use pgmem.Backup.Create.Saves.{HoldsSaved, backup_context-HoldsSaved}
use pgmem.Backup.Create.Images.{engine_schema_name-public, Saved, engine_schema_name-named}
use pgmem.Backup.Holder.Opened.{open_restored_schema-Opened}
use pgmem.Backup.Program.Keeps.{discard-Spares}
use pgmem.Database.{Database}
use mathlib.Core.Path.{subst}
use pgmem.Backup.Create.Reads.{read_schema_versions-sequence}
use pgmem.Common.Signed.{ℤ}
use pgmem.Common.Dict.{Dict}
use pgmem.Backup.Restore.{
  check_versions, validate_public, restore_on, equal_strings, restore_context, restore_named,
}
use pgmem.Backup.Restore.Commits.{with_holders_lem}
use pgmem.Backup.Holder.{open_holders, close_holder, image_of, RestoredSchemaHolder}
use pgmem.Backup.Holder.Opens.{open_holders-AllHeld, open_holders-names}
use pgmem.Backup.Create.{Backup, engine_schema_name, backup_context, schema_names_locked}
use pgmem.Backup.Program.{Process, discard, lift}
use pgmem.Backup.Program.Laws.{
  >>=-eq-ok, >>-eq-ok, or_wrap-eq-ok, guarded-eq-ok, unless-eq-ok, deferring-eq-ok, lift-eq-ok,
}
use pgmem.Backup.Storage.{Storage}
use pgmem.Backup.Documented.{Documented}
use pgmem.Errors.{ok, GoError, sentinel, closed}
use pgmem.Common.{
  refl, ap, sym, ◌∙◌, ℕ, ◌≡◌, Option, none, List, [], ◌∷◌, true, false, arith, All, Bool-cases, inl,
  inr, ◌+◌, length, ◌<◌, ◌^◌, some,
}
use pgmem.Common.Text.{Text, codes, text_eq, text_eq_iff}

pub equal_strings_lem : (left right : List Text) → equal_strings left right ≡ true → left ≡ right
unfolding equal_strings
equal_strings_lem [] [] h = refl
equal_strings_lem [] (r ∷ right) h = cc
equal_strings_lem (l ∷ left) [] h = cc
equal_strings_lem (l ∷ left) (r ∷ right) h =
    ground (arith, (text_eq_iff l r).0, equal_strings_lem left right)

-- Every schema's live database, public's under the name main, is the one in `saved`.
abbrev pub AllLive : {W D : Type 0} → (W → Text → D) → (Text → D) → List Text → W → Type 0
AllLive live saved names w =
    All (λ name. live w (engine_schema_name name) ≡ saved (engine_schema_name name)) names

module _ {W D : Type 0} (storage : Storage W) (decode : Text → D) (live : W → Text → D)
    (shared : W → Text → Option D) (files : W → Text → Option Text)
    (laws : Documented storage decode live shared files) where
  check_versions-sequence :
      (connection : ℕ) (names : List Text) (saved : Dict Text ℤ) (p q : Process W) (u : Unit {0})
      → check_versions storage connection names saved p ≡ (q, ok u)
      → q.sequence ≡ p.sequence
  unfolding check_versions
  check_versions-sequence connection names saved p q u h =
      let (p1, current, h1, k1) = >>=-eq-ok _ _ p h in
      ap (λ r. r.0.sequence) (sym k1)
      ∙ read_schema_versions-sequence storage decode live shared files laws connection names p p1
          current (or_wrap-eq-ok _ _ p h1)

  validate_public-sequence :
      (image : Text) (p q : Process W) (u : Unit {0})
      → validate_public storage image p ≡ (q, ok u)
      → p.sequence + 1 < 2 ^ 64
      → q.sequence ≡ p.sequence + 1
  unfolding validate_public close_holder discard
  validate_public-sequence image p q u h bound =
      let (p1, holder, h1, k1) = >>=-eq-ok _ _ p h in
      ap (λ r. r.0.sequence) (sym k1)
      ∙ (open_restored_schema-Opened storage decode live shared files laws (codes "public") image p
          p1 holder (or_wrap-eq-ok _ _ p h1) bound).next

  all_live :
      (saved : Text → D) (names : List Text) (w : W)
      → live w (codes "main") ≡ saved (codes "main")
      → All (λ name. text_eq name (codes "public") ≡ false → live w name ≡ saved name) names
      → AllLive live saved names w
  all_live saved [] w main named = tt
  all_live saved (name ∷ names) w main (first, named) = (
    elim (Bool-cases (text_eq name (codes "public"))) [
      | inl e ↦ subst (λ n. live w n ≡ saved n) (sym (engine_schema_name-public name e)) main
      | inr e ↦ subst (λ n. live w n ≡ saved n) (sym (engine_schema_name-named name e)) (first e)
    ],
    all_live saved names w main named,
  )

  named_images :
      (saved : Text → D) (images : Dict Text Text) (names : List Text)
      → All (λ name. text_eq name (codes "public") ≡ false → Saved decode saved images name) names
      → All
          (λ name.
            text_eq name (codes "public") ≡ false → decode (image_of name images) ≡ saved name)
          names
  named_images saved images [] h = tt
  named_images saved images (name ∷ names) (first, rest) = (
    (λ e. first e ∙ ap saved (engine_schema_name-named name e)),
    named_images saved images names rest,
  )

  restore_on-AllLive :
      (saved : Text → D) (backup : Backup) (names : List Text) (connection : ℕ)
      (on_main : laws.is_main connection ≡ true) (p q : Process W) (u : Unit {0})
      → restore_on storage backup names connection p ≡ (q, ok u)
      → HoldsSaved storage decode live shared files laws saved names backup
      → p.sequence + 1 + length names < 2 ^ 64
      → AllLive live saved names q.world
  unfolding restore_on
  restore_on-AllLive saved backup names connection on_main p q u h holds bound =
      let (p1, u1, h1, k1) = >>-eq-ok _ _ p h in
      let (p2, u2, h2, k2) = >>-eq-ok _ _ p1 k1 in
      let seq1 = check_versions-sequence connection names backup.schema_versions p p1 u1 h1 in
      let seq2 =
        validate_public-sequence (image_of (codes "public") backup.images) p1 p2 u2 h2
          (omega (arith, seq1)) in
      let opened = open_holders storage backup.images names p2 in
      let bound2 : p2.sequence + length names < 2 ^ 64 = omega (arith, seq1, seq2) in
      let (none_failed, main, made) =
        with_holders_lem storage decode live shared files laws saved connection on_main
          (image_of (codes "public") backup.images) opened q u k2 holds.public_saved
          λ good.
            (open_holders-AllHeld storage decode live shared files laws saved backup.images names p2
              opened.0 opened.1 (opened_ok opened good)
              (named_images saved backup.images names holds.named_saved) bound2).0 in
      all_live saved names q.world main (
        open_holders-names storage decode live shared files laws saved backup.images
          (λ name. live q.world name ≡ saved name) names p2 opened.0 opened.1
          (opened_ok opened none_failed) bound2 made)
    where
      opened_ok :
          (r : Process W × List RestoredSchemaHolder × Option GoError)
          → r.2 ≡ none
          → r ≡ (r.0, r.1, none)
      opened_ok r e i = (r.0, r.1, e i)

  -- Where the operations do what is documented of them (`Documented`), a backup of the database
  -- `db` succeeds, and a restore of that backup succeeds, in any world and without the sequence of
  -- ids wrapping around: then after the restore every live database of a schema of `db`, public's
  -- included, is the one that it was when the backup began.
  pub restore_context-backup_context :
      (db now : Database) (backup : Backup) (p p' q q' : Process W) (u : Unit {0})
      → backup_context storage (some db) p ≡ (p', ok backup)
      → restore_context storage (some backup) now q ≡ (q', ok u)
      → q.sequence + 1 + length (schema_names_locked db) < 2 ^ 64
      → AllLive live (live p.world) (schema_names_locked db) q'.world
  unfolding restore_context restore_named
  restore_context-backup_context db now backup p p' q q' u made restored bound =
      let holds =
        backup_context-HoldsSaved storage decode live shared files laws (live p.world) db p p'
          backup made refl in
      let (still_open, compared) = guarded-eq-ok now.is_closed (sentinel closed) _ q restored in
      let (same, accepted) =
        unless-eq-ok (equal_strings (schema_names_locked now) backup.schema_names) _
          (restore_named storage backup (schema_names_locked now)) q compared in
      let names =
        equal_strings_lem (schema_names_locked now) backup.schema_names same ∙ holds.names_saved in
      let (q1, connection, h1, k1) = >>=-eq-ok _ _ q accepted in
      let (q2, k2, freed) = deferring-eq-ok _ _ q1 k1 in
      let (connected, seq) = lift-eq-ok storage.conn q (or_wrap-eq-ok (lift storage.conn) _ q h1) in
      let done =
        restore_on-AllLive (live p.world) backup (schema_names_locked db) connection
          (laws.conn_main connection q.world q1.world connected) q1 q2 u
          (subst (λ names. restore_on storage backup names connection q1 ≡ (q2, ok u)) names k2)
          holds (omega (arith, seq)) in
      subst
        (λ s.
          All (λ name. s (engine_schema_name name) ≡ live p.world (engine_schema_name name))
            (schema_names_locked db))
        (sym (
          ap (λ r. live r.world) freed
          ∙ (discard-Spares _ (laws.close_conn_live connection)).spared q2))
        done
