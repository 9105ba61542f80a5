-- ===== src/Backup/Restore/Commits.antt =====
-- From the check of the context on, `RestoreContext` that succeeds makes the live databases those of the
-- public image and of the holders.
use pgmem.Values.{Value}
use mathlib.Core.Path.{subst}
use pgmem.Engine.{ExecAnswer}
use pgmem.Backup.Restore.{
  deserialize_with, deserialize_connection, swap_holders, check_context, commit_restore,
  with_holders, detach_statement, attach_statement,
}
use pgmem.Backup.Holder.{RestoredSchemaHolder}
use pgmem.Backup.Holder.Keeps.{close_holders-Spares}
use pgmem.Backup.Holder.Opens.{AllHeld}
use pgmem.Backup.Create.{clone_bytes}
use pgmem.Backup.Program.{Process, lift, fail}
use pgmem.Backup.Program.Keeps.{Keeps-at, lift-Keeps}
use pgmem.Backup.Program.Laws.{
  >>=-eq-ok, >>-eq-ok, or_wrap-eq-ok, deferring-eq-ok, lift-eq-ok, pure-eq-ok, attempt-eq-ok,
}
use pgmem.Backup.Storage.{Storage, DriverConnection}
use pgmem.Backup.Documented.{Documented}
use pgmem.Errors.{ok, GoError}
use pgmem.Common.{
  refl, ap, sym, ◌∙◌, ℕ, ◌≡◌, Option, none, some, List, [], ◌∷◌, All, Bool-cases, inl, inr, ◌≢◌,
  true,
}
use pgmem.Common.Text.{Text, codes, text_eq, text_eq_iff}

module _ {W D : Type 0} (storage : Storage W) (decode : Text → D) (live : W → Text → D)
    (shared : W → Text → Option D) (files : W → Text → Option Text)
    (laws : Documented storage decode live shared files) (saved : Text → D) where
  -- The live databases that were right stay right, and those of the holders are made right.
  record Swapped (holders : List RestoredSchemaHolder) (p q : Process W) : Type 0 where
    stays : (name : Text) → live p.world name ≡ saved name → live q.world name ≡ saved name
    made : All (λ holder. live q.world holder.name ≡ saved holder.name) holders

  swap_first :
      (connection : ℕ) (on_main : laws.is_main connection ≡ true) (holder : RestoredSchemaHolder)
      (v w u : W) (d a : ExecAnswer)
      → storage.exec_uncancelled connection (detach_statement holder.name) [] v ≡ (w, ok d)
      → storage.exec_uncancelled connection
          (attach_statement holder.name)
          (Value.string holder.uri ∷ [])
          w
        ≡ (u, ok a)
      → shared v holder.uri ≡ some (saved holder.name)
      → (shared u ≡ shared v)
        × (live u holder.name ≡ saved holder.name)
        × ((name : Text) → live v name ≡ saved name → live u name ≡ saved name)
  swap_first connection on_main holder v w u d a detached attached held =
      let out = laws.detach_others connection holder.name v on_main in
      let into = laws.attach_others connection holder.name holder.uri w on_main in
      let shared1 : shared w ≡ shared v = ap (λ r. shared r.0) (sym detached) ∙ out.0 in
      let right : live u holder.name ≡ saved holder.name =
        laws.attach_done connection holder.name holder.uri w u a (saved holder.name) on_main
          attached (ap (λ s. s holder.uri) shared1 ∙ held) in
      (
        ap (λ r. shared r.0) (sym attached) ∙ into.0 ∙ shared1,
        right,
        λ name before. elim (Bool-cases (text_eq name holder.name)) [
          | inl e ↦ subst (λ n. live u n ≡ saved n) (sym ((text_eq_iff name holder.name).0 e)) right
          | inr e ↦
              let other : name ≢ holder.name = λ same. cc ((text_eq_iff name holder.name).1 same) in
              ap (λ r. live r.0 name) (sym attached)
              ∙ into.1 name other
              ∙ ap (λ r. live r.0 name) (sym detached)
              ∙ out.1 name other
              ∙ before
        ],
      )

  swap_holders-Swapped :
      (connection : ℕ) (on_main : laws.is_main connection ≡ true)
      (holders : List RestoredSchemaHolder) (p q : Process W) (u : Unit {0})
      → swap_holders storage connection holders p ≡ (q, ok u)
      → AllHeld shared saved p.world holders
      → Swapped holders p q
  unfolding swap_holders
  swap_holders-Swapped connection on_main [] p q u h held = record {
    stays = λ name before. ap (λ r. live r.world name) (sym (pure-eq-ok tt p h).0) ∙ before;
    made = tt;
  }
  swap_holders-Swapped connection on_main (holder ∷ holders) p q u h (mine, held) =
      let (p1, d, h1, k1) = >>=-eq-ok _ _ p h in
      let (p2, a, h2, k2) = >>=-eq-ok _ _ p1 k1 in
      let (detached, seq1) = lift-eq-ok _ p (or_wrap-eq-ok (lift _) _ p h1) in
      let (attached, seq2) = lift-eq-ok _ p1 (or_wrap-eq-ok (lift _) _ p1 h2) in
      let (same, right, stays) =
        swap_first connection on_main holder p.world p1.world p2.world d a detached attached mine in
      let rest = swap_holders-Swapped connection on_main holders p2 q u k2 (
        subst (λ s. All (λ (h : RestoredSchemaHolder). s h.uri ≡ some (saved h.name)) holders)
          (sym same) held) in
      record {
        stays = λ name before. rest.stays name (stays name before);
        made = (rest.stays holder.name right, rest.made);
      }

  deserialize_with_lem :
      (connection : ℕ) (on_main : laws.is_main connection ≡ true) (w : W)
      (driver : DriverConnection W) (image : Text)
      (deserialize : Option (Text → W → W × Option GoError)) (p q : Process W) (u : Unit {0})
      → (storage.raw connection w).1 ≡ ok driver
      → driver.deserialize ≡ deserialize
      → deserialize_with storage image deserialize p ≡ (q, ok u)
      → (live q.world (codes "main") ≡ decode image) × (shared q.world ≡ shared p.world)
  unfolding deserialize_with clone_bytes fail
  deserialize_with_lem connection on_main w driver image none p q u raw has h = cc
  deserialize_with_lem connection on_main w driver image (some f) p q u raw has h =
      let (done, seq) = attempt-eq-ok (f image) p h in
      (
        laws.deserialize_done connection w p.world q.world driver f image on_main raw has done,
        ap (λ r. shared r.0) (sym done)
            ∙ (laws.deserialize_others connection w p.world driver f image on_main raw has).0,
      )

  deserialize_connection_lem :
      (connection : ℕ) (on_main : laws.is_main connection ≡ true) (image : Text) (p q : Process W)
      (u : Unit {0})
      → deserialize_connection storage connection image p ≡ (q, ok u)
      → (live q.world (codes "main") ≡ decode image) × (shared q.world ≡ shared p.world)
  unfolding deserialize_connection
  deserialize_connection_lem connection on_main image p q u h =
      let (p1, driver, h1, k1) =
        >>=-eq-ok (lift (storage.raw connection))
          (λ driver. deserialize_with storage image driver.deserialize) p h in
      let (done, seq) = lift-eq-ok (storage.raw connection) p h1 in
      let (main, same) =
        deserialize_with_lem connection on_main p.world driver image driver.deserialize p1 q u
          (ap (λ r. r.1) done) refl k1 in
      (main, same ∙ Keeps-at (lift-Keeps _ λ w. (laws.raw_same connection w).same_shared) h1)

  commit_restore_lem :
      (connection : ℕ) (on_main : laws.is_main connection ≡ true) (image : Text)
      (holders : List RestoredSchemaHolder) (p q : Process W) (u : Unit {0})
      → commit_restore storage connection image holders p ≡ (q, ok u)
      → decode image ≡ saved (codes "main")
      → AllHeld shared saved p.world holders
      → (live q.world (codes "main") ≡ saved (codes "main"))
        × All (λ holder. live q.world holder.name ≡ saved holder.name) holders
  unfolding commit_restore
  commit_restore_lem connection on_main image holders p q u h right held =
      let (p1, u1, h1, k1) = >>-eq-ok _ (swap_holders storage connection holders) p h in
      let (main, same) =
        deserialize_connection_lem connection on_main image p p1 u1 (or_wrap-eq-ok _ _ p h1) in
      let swapped = swap_holders-Swapped connection on_main holders p1 q u k1 (
        subst (λ s. All (λ (h : RestoredSchemaHolder). s h.uri ≡ some (saved h.name)) holders)
          (sym same) held) in
      (swapped.stays (codes "main") (main ∙ right), swapped.made)

  -- The end of `RestoreContext` once the holders were opened, where it succeeds.
  pub with_holders_lem :
      (connection : ℕ) (on_main : laws.is_main connection ≡ true) (image : Text)
      (r : Process W × List RestoredSchemaHolder × Option GoError) (q : Process W) (u : Unit {0})
      → with_holders storage connection image r ≡ (q, ok u)
      → decode image ≡ saved (codes "main")
      → (r.2 ≡ none → AllHeld shared saved r.0.world r.1)
      → (r.2 ≡ none)
        × (live q.world (codes "main") ≡ saved (codes "main"))
        × All (λ holder. live q.world holder.name ≡ saved holder.name) r.1
  unfolding with_holders check_context
  with_holders_lem connection on_main image (p, holders, some e) q u h right held = cc
  with_holders_lem connection on_main image (p, holders, none) q u h right held =
      let (p1, k1, freed) = deferring-eq-ok _ _ p h in
      let (p2, u2, h2, k2) =
        >>-eq-ok (check_context storage) (commit_restore storage connection image holders) p k1 in
      let (main, made) = commit_restore_lem connection on_main image holders p2 p1 u k2 right (
        subst (λ (r : Process W). AllHeld shared saved r.world holders)
          (check_context_ok p p2 u2 h2) (held refl)) in
      let same : live p1.world ≡ live q.world = sym (
        ap (λ r. live r.world) freed
        ∙ (close_holders-Spares storage decode live shared files laws holders).spared p1) in
      (
        refl,
        ap (λ s. s (codes "main")) (sym same) ∙ main,
        subst (λ s. All (λ (h : RestoredSchemaHolder). s h.name ≡ saved h.name) holders) same made,
      )
    where
      check_context_ok :
          (p p' : Process W) (u : Unit {0}) → check_context storage p ≡ (p', ok u) → p ≡ p'
      check_context_ok p p' u h = ap (λ r. r.0) h
