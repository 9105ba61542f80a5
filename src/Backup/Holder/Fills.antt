-- ===== src/Backup/Holder/Fills.antt =====
-- A restore into a connection fills the shared database of its URI, and no other.
use pgmem.Backup.Program.Keeps.{Keeps-at, lift-Keeps}
use pgmem.Engine.{Effect}
use pgmem.Errors.{GoError, ok}
use pgmem.Driver.{first_error}
use pgmem.Backup.Program.{Process, fail, none_is_ok, lift}
use pgmem.Backup.Holder.{restore_with, restore_connection_from_uri, run_restore}
use pgmem.Backup.Program.Laws.{>>=-eq-ok, lift-eq-ok}
use pgmem.Backup.Storage.{Storage, DriverConnection}
use pgmem.Backup.Documented.{Documented}
use pgmem.Common.{refl, ap, sym, ◌∙◌, ℕ, ◌≡◌, ◌≢◌, Option, none, some, ap, sym, ◌∙◌}
use pgmem.Common.Text.{Text}

-- The shared database with the URI is made `database`, and the others are as before.
pub record Filled {W D : Type 0} (shared : W → Text → Option D) (uri : Text) (database : D)
    (w w' : W) : Type 0 where
  pub filled : shared w' uri ≡ some database
  pub others : (other : Text) → other ≢ uri → shared w' other ≡ shared w other

module _ {W D : Type 0} {shared : W → Text → Option D} where
  pub Filled-cast :
      {uri uri' : Text} {database : D} {v v' w w' : W}
      → Filled shared uri' database w w'
      → uri ≡ uri'
      → shared w ≡ shared v
      → shared v' ≡ shared w'
      → Filled shared uri database v v'
  Filled-cast {uri} {w'} f c a b = record {
    filled = ap (λ s. s uri) b ∙ ap (shared w') c ∙ f.filled;
    others = λ other ne.
        ap (λ s. s other) b ∙ f.others other (λ e. ne (e ∙ sym c)) ∙ ap (λ s. s other) a;
  }

  pub Filled-after :
      {uri : Text} {database : D} {u v w : W}
      → Filled shared uri database v w
      → ((other : Text) → other ≢ uri → shared v other ≡ shared u other)
      → Filled shared uri database u w
  Filled-after f h = record {
    filled = f.filled;
    others = λ other ne. f.others other ne ∙ h other ne;
  }

module _ {W D : Type 0} (storage : Storage W) (decode : Text → D) (live : W → Text → D)
    (shared : W → Text → Option D) (files : W → Text → Option Text)
    (laws : Documented storage decode live shared files) where
  first_error-none : (a b : Option GoError) → none_is_ok (first_error a b) ≡ ok tt → a ≡ none
  first_error-none none b h = refl
  first_error-none (some e) none h = cc
  first_error-none (some e) (some b) h = cc

  run_restore-Filled :
      (restore : ℕ) (image : Text) (p q : Process W) (u : Unit {0})
      → run_restore storage restore p ≡ (q, ok u)
      → files p.world (laws.source restore) ≡ some image
      → Filled shared (laws.target restore) (decode image) p.world q.world
        × (q.sequence ≡ p.sequence)
  unfolding run_restore
  run_restore-Filled restore image p q u h has =
      let w = (storage.restore_step restore p.world).0 in
      let finish = laws.finish_same restore w in
      let step =
        first_error-none (storage.restore_step restore p.world).1
          (storage.restore_finish restore w).1 cc in
      let here = ap (λ r. r.0.world) h in
      (
        record {
          filled =
              ap (λ v. shared v (laws.target restore)) (sym here)
              ∙ ap (λ f. f (laws.target restore)) finish.same_shared
              ∙ laws.step_done restore image p.world w (cc) has;
          others = λ other ne.
              ap (λ v. shared v other) (sym here)
              ∙ ap (λ f. f other) finish.same_shared
              ∙ laws.step_shared restore p.world other ne;
        },
        sym (ap (λ r. r.0.sequence) h),
      )

  restore_with-Filled :
      (connection : ℕ) (w : W) (driver : DriverConnection W) (path image : Text)
      (new_restore : Option (Text → Effect W ℕ)) (p q : Process W) (u : Unit {0})
      → (storage.raw connection w).1 ≡ ok driver
      → driver.new_restore ≡ new_restore
      → restore_with storage path new_restore p ≡ (q, ok u)
      → files p.world path ≡ some image
      → Filled shared (laws.conn_uri connection) (decode image) p.world q.world
        × (q.sequence ≡ p.sequence)
  unfolding restore_with fail
  restore_with-Filled connection w driver path image none p q u raw has h file = cc
  restore_with-Filled connection w driver path image (some f) p q u raw has h file =
      let (p', restore, opened, ran) = >>=-eq-ok (lift (f path)) (λ r. run_restore storage r) p h in
      let (done, seq) = lift-eq-ok (f path) p opened in
      let same = λ (v : W). laws.new_restore_same connection w v driver f path raw has in
      let (from, into) =
        laws.new_restore_done connection w p.world p'.world driver f path restore raw has done in
      let (run, seq') = run_restore-Filled restore image p' q u ran (
        ap (files p'.world) from
        ∙ ap (λ s. s path) (Keeps-at (lift-Keeps (f path) λ v. (same v).same_files) opened)
        ∙ file) in
      (
        Filled-cast run (sym into) (Keeps-at (lift-Keeps (f path) λ v. (same v).same_shared) opened)
            refl,
        seq' ∙ seq,
      )

  pub restore_connection-Filled :
      (connection : ℕ) (path image : Text) (p q : Process W) (u : Unit {0})
      → restore_connection_from_uri storage connection path p ≡ (q, ok u)
      → files p.world path ≡ some image
      → Filled shared (laws.conn_uri connection) (decode image) p.world q.world
        × (q.sequence ≡ p.sequence)
  unfolding restore_connection_from_uri
  restore_connection-Filled connection path image p q u h file =
      let (p', driver, found, rest) =
        >>=-eq-ok (lift (storage.raw connection))
          (λ driver. restore_with storage path driver.new_restore) p h in
      let (done, seq) = lift-eq-ok (storage.raw connection) p found in
      let (run, seq') =
        restore_with-Filled connection p.world driver path image driver.new_restore p' q u
          (ap (λ r. r.1) done) refl rest
          (ap (λ s. s path)
              (Keeps-at (lift-Keeps _ λ v. (laws.raw_same connection v).same_files) found)
            ∙ file) in
      (
        Filled-cast run refl
            (Keeps-at (lift-Keeps _ λ v. (laws.raw_same connection v).same_shared) found) refl,
        seq' ∙ seq,
      )
