-- ===== src/Backup/Storage.antt =====
-- What backup.go uses of database/sql, of its driver's connections, and of the package os.
use pgmem.Engine.{ExecAnswer, Effect}
use pgmem.Common.{ℕ, Option, List, nat_Key}
use pgmem.Common.Text.{Text, text_Key}
use pgmem.Common.Signed.{ℤ}
use pgmem.Errors.{GoError}
use pgmem.Values.{Value}

-- A driver's connection, by those of the three interfaces of backup.go that it implements. A restore
-- that has been started is a number.
pub record DriverConnection (W : Type 0) : Type 0 where
  pub serialize : Option (Effect W Text)
  pub deserialize : Option (Text → W → W × Option GoError)
  pub new_restore : Option (Text → Effect W ℕ)

-- Connections and pools are numbers. `raw` is the connection that Raw passes to its callback;
-- `query_version` is QueryRowContext with its Scan; a temporary file is its path.
pub record Storage (W : Type 0) : Type 0 where
  pub ctx_err : W → Option GoError
  pub conn : Effect W ℕ
  pub close_conn : ℕ → W → W × Option GoError
  pub raw : ℕ → Effect W (DriverConnection W)
  pub restore_step : ℕ → W → W × Option GoError
  pub restore_finish : ℕ → W → W × Option GoError
  pub query_version : ℕ → Text → Effect W ℤ
  pub exec : ℕ → Text → List Value → Effect W ExecAnswer
  -- ExecContext on a context without cancellation
  pub exec_uncancelled : ℕ → Text → List Value → Effect W ExecAnswer
  pub open_pool : Text → Effect W ℕ
  pub pool_conn : ℕ → Effect W ℕ
  pub close_pool : ℕ → W → W × Option GoError
  pub create_temp : Text → Effect W Text
  pub write_file : Text → Text → W → W × Option GoError
  pub close_file : Text → W → W × Option GoError
  pub remove_file : Text → W → W × Option GoError
  pub read_file : Text → Effect W Text
