-- ===== src/Backup/Documented.antt =====
-- What database/sql, SQLite and the package os document of the operations in `Storage`, of logical
-- databases of type `D`: the ones that are attached to a connection of the database's own pool, by name;
-- the shared in-memory ones that a holder's pool has open, by URI; and files, by path. An image is decoded to a logical database.
use pgmem.Backup.Create.{version_query, vacuum_statement}
use pgmem.Backup.Restore.{detach_statement, attach_statement}
use pgmem.Backup.Storage.{DriverConnection, Storage}
use pgmem.Engine.{Effect, ExecAnswer}
use pgmem.Common.{ℕ, ◌≡◌, ◌≢◌, Option, none, some, [], ◌∷◌, nat_Key, Bool, true}
use pgmem.Common.Text.{Text, codes, text_Key}
use pgmem.Errors.{GoError, ok}
use pgmem.Values.{Value}

module _ {W D : Type 0} (live : W → Text → D) (shared : W → Text → Option D)
    (files : W → Text → Option Text) where
  -- The logical databases and the files are as before.
  pub record Same (w w' : W) : Type 0 where
    pub same_live : live w' ≡ live w
    pub same_shared : shared w' ≡ shared w
    pub same_files : files w' ≡ files w

  -- All but the shared database with that URI is as before.
  pub record SameBut (uri : Text) (w w' : W) : Type 0 where
    pub but_live : live w' ≡ live w
    pub but_shared : (other : Text) → other ≢ uri → shared w' other ≡ shared w other
    pub but_files : files w' ≡ files w

pub record Documented {W D : Type 0} (storage : Storage W) (decode : Text → D) (live : W → Text → D)
    (shared : W → Text → Option D) (files : W → Text → Option Text) : Type 0 where
  -- What handles stand for: the URI of a pool and of a connection, and source and target of a restore.
  pub pool_uri : ℕ → Text
  pub conn_uri : ℕ → Text
  pub source : ℕ → Text
  pub target : ℕ → Text
  -- The connections of the database's own pool, on which the live databases are attached: the one that
  -- it hands out is such a connection. A holder's connection has databases of its own.
  pub is_main : ℕ → Bool
  pub conn_main : (c : ℕ) (w w' : W) → storage.conn w ≡ (w', ok c) → is_main c ≡ true
  -- Operations that change no database and no file.
  pub conn_same : (w : W) → Same live shared files w (storage.conn w).0
  pub raw_same : (c : ℕ) (w : W) → Same live shared files w (storage.raw c w).0
  pub query_same :
      (c : ℕ) (name : Text) (w : W)
      → Same live shared files w (storage.query_version c (version_query name) w).0
  pub close_file_same :
      (path : Text) (w : W) → Same live shared files w (storage.close_file path w).0
  pub read_same : (path : Text) (w : W) → Same live shared files w (storage.read_file path w).0
  pub open_same : (uri : Text) (w : W) → Same live shared files w (storage.open_pool uri w).0
  pub finish_same : (r : ℕ) (w : W) → Same live shared files w (storage.restore_finish r w).0
  pub serialize_same :
      (c : ℕ) (w v : W) (driver : DriverConnection W) (f : Effect W Text)
      → (storage.raw c w).1 ≡ ok driver
      → driver.serialize ≡ some f
      → Same live shared files v (f v).0
  pub new_restore_same :
      (c : ℕ) (w v : W) (driver : DriverConnection W) (f : Text → Effect W ℕ) (path : Text)
      → (storage.raw c w).1 ≡ ok driver
      → driver.new_restore ≡ some f
      → Same live shared files v (f path v).0
  -- Operations that change only files.
  pub create_live : (pattern : Text) (w : W) → live (storage.create_temp pattern w).0 ≡ live w
  pub create_shared : (pattern : Text) (w : W) → shared (storage.create_temp pattern w).0 ≡ shared w
  pub write_live : (path bytes : Text) (w : W) → live (storage.write_file path bytes w).0 ≡ live w
  pub write_shared :
      (path bytes : Text) (w : W) → shared (storage.write_file path bytes w).0 ≡ shared w
  pub remove_live : (path : Text) (w : W) → live (storage.remove_file path w).0 ≡ live w
  pub remove_shared : (path : Text) (w : W) → shared (storage.remove_file path w).0 ≡ shared w
  pub vacuum_live :
      (c : ℕ) (name path : Text) (w : W)
      → live (storage.exec c (vacuum_statement name path) [] w).0 ≡ live w
  -- A shared database goes when its last connection does.
  pub close_conn_live : (c : ℕ) (w : W) → live (storage.close_conn c w).0 ≡ live w
  pub close_pool_live : (d : ℕ) (w : W) → live (storage.close_pool d w).0 ≡ live w
  -- A first connection makes the shared database; a restore fills it.
  pub pool_conn_but :
      (d : ℕ) (w : W) → SameBut live shared files (pool_uri d) w (storage.pool_conn d w).0
  pub step_shared :
      (r : ℕ) (w : W) (other : Text)
      → other ≢ target r
      → shared (storage.restore_step r w).0 other ≡ shared w other
  -- What the operations give where they succeed.
  pub write_done :
      (path bytes : Text) (w w' : W)
      → storage.write_file path bytes w ≡ (w', none)
      → files w' path ≡ some bytes
  pub read_done :
      (path bytes : Text) (w w' : W)
      → storage.read_file path w ≡ (w', ok bytes)
      → files w path ≡ some bytes
  pub serialize_done :
      (c : ℕ) (w v v' : W) (driver : DriverConnection W) (f : Effect W Text) (image : Text)
      → is_main c ≡ true
      → (storage.raw c w).1 ≡ ok driver
      → driver.serialize ≡ some f
      → f v ≡ (v', ok image)
      → decode image ≡ live v (codes "main")
  pub vacuum_done :
      (c : ℕ) (name path : Text) (w w' : W) (answer : ExecAnswer)
      → is_main c ≡ true
      → storage.exec c (vacuum_statement name path) [] w ≡ (w', ok answer)
      → (image : Text) × (files w' path ≡ some image) × (decode image ≡ live w name)
  pub open_done :
      (uri : Text) (d : ℕ) (w w' : W) → storage.open_pool uri w ≡ (w', ok d) → pool_uri d ≡ uri
  pub pool_conn_done :
      (d c : ℕ) (w w' : W) → storage.pool_conn d w ≡ (w', ok c) → conn_uri c ≡ pool_uri d
  pub new_restore_done :
      (c : ℕ) (w v v' : W) (driver : DriverConnection W) (f : Text → Effect W ℕ) (path : Text)
      (r : ℕ)
      → (storage.raw c w).1 ≡ ok driver
      → driver.new_restore ≡ some f
      → f path v ≡ (v', ok r)
      → (source r ≡ path) × (target r ≡ conn_uri c)
  pub step_done :
      (r : ℕ) (image : Text) (w w' : W)
      → storage.restore_step r w ≡ (w', none)
      → files w (source r) ≡ some image
      → shared w' (target r) ≡ some (decode image)
  -- Deserialize replaces the database main, whatever its answer for the others.
  pub deserialize_others :
      (c : ℕ) (w v : W) (driver : DriverConnection W) (f : Text → W → W × Option GoError)
      (image : Text)
      → is_main c ≡ true
      → (storage.raw c w).1 ≡ ok driver
      → driver.deserialize ≡ some f
      → (shared (f image v).0 ≡ shared v)
        × ((name : Text) → name ≢ codes "main" → live (f image v).0 name ≡ live v name)
  pub deserialize_done :
      (c : ℕ) (w v v' : W) (driver : DriverConnection W) (f : Text → W → W × Option GoError)
      (image : Text)
      → is_main c ≡ true
      → (storage.raw c w).1 ≡ ok driver
      → driver.deserialize ≡ some f
      → f image v ≡ (v', none)
      → live v' (codes "main") ≡ decode image
  pub detach_others :
      (c : ℕ) (name : Text) (w : W)
      → is_main c ≡ true
      → (shared (storage.exec_uncancelled c (detach_statement name) [] w).0 ≡ shared w)
        × ((other : Text)
            → other ≢ name
            → live (storage.exec_uncancelled c (detach_statement name) [] w).0 other ≡ live w other)
  pub attach_others :
      (c : ℕ) (name uri : Text) (w : W)
      → is_main c ≡ true
      → (shared (storage.exec_uncancelled c (attach_statement name) (Value.string uri ∷ []) w).0
          ≡ shared w)
        × ((other : Text)
            → other ≢ name
            → live
                (storage.exec_uncancelled c (attach_statement name) (Value.string uri ∷ []) w).0
                other
              ≡ live w other)
  pub attach_done :
      (c : ℕ) (name uri : Text) (w w' : W) (answer : ExecAnswer) (database : D)
      → is_main c ≡ true
      → storage.exec_uncancelled c (attach_statement name) (Value.string uri ∷ []) w
        ≡ (w', ok answer)
      → shared w uri ≡ some database
      → live w' name ≡ database
