-- ===== src/Backup/Holder/Opened.antt =====
-- A holder that is opened holds in the shared database of its URI what its image decodes to, and no
-- other shared database changes.
use pgmem.Backup.Holder.Fills.{Filled, Filled-cast, Filled-after, restore_connection-Filled}
use pgmem.Backup.Create.{clone_bytes}
use pgmem.Backup.Program.Keeps.{Keeps-at, lift-Keeps, attempt-Keeps}
use pgmem.Errors.{ok}
use pgmem.Backup.Program.{Process, lift, on_failure, discard, attempt, pure}
use pgmem.Backup.Holder.{
  RestoredSchemaHolder, restore_uri, next_id, open_holder, open_restored_schema, fill_holder,
}
use pgmem.Backup.Program.Laws.{
  >>=-eq-ok, >>-eq-ok, on_failure-eq-ok, lift-eq-ok, deferring-eq-ok, attempt-eq-ok, pure-eq-ok,
}
use pgmem.Backup.Storage.{Storage}
use pgmem.Backup.Documented.{Documented}
use pgmem.Common.{refl, ap, sym, ◌∙◌, ℕ, ◌+◌, ◌≡◌, Option, some, ap, sym, ◌∙◌, ◌<◌, ◌^◌, arith}
use pgmem.Common.Text.{Text, codes}

-- The program made a holder with the next id of the sequence.
pub record Opened {W D : Type 0} (shared : W → Text → Option D) (name : Text) (database : D)
    (p q : Process W) (holder : RestoredSchemaHolder) : Type 0 where
  pub next : q.sequence ≡ p.sequence + 1
  pub named : holder.name ≡ name
  pub at_uri : holder.uri ≡ restore_uri (p.sequence + 1)
  pub fills : Filled shared (restore_uri (p.sequence + 1)) database p.world q.world

module _ {W D : Type 0} (storage : Storage W) (decode : Text → D) (live : W → Text → D)
    (shared : W → Text → Option D) (files : W → Text → Option Text)
    (laws : Documented storage decode live shared files) where
  fill_holder-Filled :
      (path image : Text) (holder holder' : RestoredSchemaHolder) (p q : Process W)
      → fill_holder storage path holder p ≡ (q, ok holder')
      → files p.world path ≡ some image
      → Filled shared (laws.conn_uri holder.connection) (decode image) p.world q.world
        × (q.sequence ≡ p.sequence)
        × (holder ≡ holder')
  unfolding fill_holder
  fill_holder-Filled path image holder holder' p q h file =
      let (p', u, restored, last) = >>-eq-ok _ (pure holder) p h in
      let (here, same) = pure-eq-ok holder p' last in
      let (run, seq) =
        restore_connection-Filled storage decode live shared files laws holder.connection path image
          p p' u (on_failure-eq-ok _ _ p restored) file in
      (
        Filled-cast run refl refl (ap (λ r. shared r.world) (sym here)),
        ap (λ r. r.sequence) (sym here) ∙ seq,
        same,
      )

  next_id_ok :
      (p q : Process W) (id : ℕ)
      → next_id storage p ≡ (q, ok id)
      → p.sequence + 1 < 2 ^ 64
      → (id ≡ p.sequence + 1) × (q.sequence ≡ p.sequence + 1) × (q.world ≡ p.world)
  unfolding next_id
  next_id_ok p q id h bound = (ground arith, ground arith, ap (λ r. r.0.world) (sym h))

  open_holder-Opened :
      (name path image : Text) (p q : Process W) (holder : RestoredSchemaHolder)
      → open_holder storage name path p ≡ (q, ok holder)
      → files p.world path ≡ some image
      → p.sequence + 1 < 2 ^ 64
      → Opened shared name (decode image) p q holder
  unfolding open_holder
  open_holder-Opened name path image p q holder h file bound =
      let (p1, id, h1, k1) = >>=-eq-ok (next_id storage) _ p h in
      let (p2, database, h2, k2) = >>=-eq-ok (lift (storage.open_pool (restore_uri id))) _ p1 k1 in
      let (p3, connection, h3, k3) =
        >>=-eq-ok
          (on_failure (discard (storage.close_pool database)) (lift (storage.pool_conn database))) _
          p2 k2 in
      let (is_next, seq1, here) = next_id_ok p p1 id h1 bound in
      let (opened, seq2) = lift-eq-ok _ p1 h2 in
      let (connected, seq3) = lift-eq-ok _ p2 (on_failure-eq-ok _ _ p2 h3) in
      let files3 =
        Keeps-at
          (lift-Keeps (storage.pool_conn database) λ w. (laws.pool_conn_but database w).but_files)
          (on_failure-eq-ok _ _ p2 h3)
        ∙ Keeps-at
            (lift-Keeps (storage.open_pool (restore_uri id)) λ w. (laws.open_same _ w).same_files)
            h2
        ∙ ap files here in
      let shared2 =
        Keeps-at
          (lift-Keeps (storage.open_pool (restore_uri id)) λ w. (laws.open_same _ w).same_shared) h2
        ∙ ap shared here in
      let at_pool = laws.open_done _ database p1.world p2.world opened ∙ ap restore_uri is_next in
      let at_conn = laws.pool_conn_done database connection p2.world p3.world connected ∙ at_pool in
      let (f, seq4, same) =
        fill_holder-Filled path image _ holder p3 q k3 (ap (λ s. s path) files3 ∙ file) in
      record {
        next = seq4 ∙ seq3 ∙ seq2 ∙ seq1;
        named = ap (λ r. r.name) (sym same);
        at_uri = ap (λ r. r.uri) (sym same) ∙ ap restore_uri is_next;
        fills = Filled-after (Filled-cast f (sym at_conn) refl refl) λ other ne.
            ap (λ r. shared r.0 other) (sym connected)
            ∙ (laws.pool_conn_but database p2.world).but_shared other (λ e. ne (e ∙ at_pool))
            ∙ ap (λ s. s other) shared2;
      }

  -- `openRestoredSchema`, where it succeeds.
  pub open_restored_schema-Opened :
      (name image : Text) (p q : Process W) (holder : RestoredSchemaHolder)
      → open_restored_schema storage name image p ≡ (q, ok holder)
      → p.sequence + 1 < 2 ^ 64
      → Opened shared name (decode image) p q holder
  unfolding open_restored_schema clone_bytes discard
  open_restored_schema-Opened name image p q holder h bound =
      let (p1, path, h1, k1) =
        >>=-eq-ok (lift (storage.create_temp (codes "pgmem-restore-source-*.sqlite"))) _ p h in
      let (p2, k2, removed) = deferring-eq-ok _ _ p1 k1 in
      let (p3, u3, h3, k3) = >>-eq-ok _ _ p1 k2 in
      let (p4, u4, h4, k4) = >>-eq-ok (attempt (storage.close_file path)) _ p3 k3 in
      let (created, seq1) = lift-eq-ok _ p h1 in
      let (written, seq3) =
        attempt-eq-ok (storage.write_file path image) p1 (on_failure-eq-ok _ _ p1 h3) in
      let (closed_file, seq4) = attempt-eq-ok _ p3 h4 in
      let shared4 =
        Keeps-at
          (attempt-Keeps (storage.close_file path) λ w. (laws.close_file_same path w).same_shared)
          h4
        ∙ Keeps-at (attempt-Keeps _ (laws.write_shared path image)) (on_failure-eq-ok _ _ p1 h3)
        ∙ Keeps-at (lift-Keeps _ (laws.create_shared _)) h1 in
      let files4 =
        Keeps-at
          (attempt-Keeps (storage.close_file path) λ w. (laws.close_file_same path w).same_files)
          h4 in
      let seq = seq4 ∙ seq3 ∙ seq1 in
      let opened =
        open_holder-Opened name path image p4 p2 holder k4
          (ap (λ s. s path) files4 ∙ laws.write_done path image p1.world p3.world written)
          (rw seq bound) in
      record {
        next = ap (λ r. r.sequence) removed ∙ opened.next ∙ ap (λ n. n + 1) seq;
        named = opened.named;
        at_uri = opened.at_uri ∙ ap (λ n. restore_uri (n + 1)) seq;
        fills =
            Filled-cast opened.fills (ap (λ n. restore_uri (n + 1)) (sym seq)) shared4
              (ap (λ r. shared r.world) removed ∙ laws.remove_shared path p2.world);
      }
