-- ===== src/Examples/Disk.antt =====
-- Databases in memory, and files: a database is its text, which is also its image.
use pgmem.Backup.Storage.{DriverConnection, Storage}
use pgmem.Backup.Holder.{restore_uri}
use pgmem.Quote.{read_quoted}
use pgmem.Engine.{ExecAnswer, Effect}
use pgmem.Common.{
  true, false, Bool, ℕ, Option, none, some, List, [], ◌∷◌, if◌then◌else◌, nat_Key, drop, Bool,
  nat_eq,
}
use pgmem.Common.Text.{Text, codes, text_eq, text_Key, is_prefix}
use pgmem.Common.Signed.{pos}
use pgmem.Errors.{GoError, plain, ok, err}
use pgmem.Values.{Value}

pub record Disk : Type 0 where
  pub live : Text → Text
  pub shared : Text → Option Text
  pub files : Text → Option Text

abbrev pub put : {V : Type 0} → Text → V → (Text → V) → Text → V
put key value f asked = if text_eq asked key then value else f asked

abbrev pub done : ExecAnswer
done = record { rows_affected = ok (pos 0) }

abbrev pub refused : GoError
refused = plain (codes "refused")

abbrev pub temp : Text
temp = codes "/tmp/image"

-- The name and the path of a VACUUM statement.
abbrev pub read_path : Text → Option (Text × Text) → Option (Text × Text)
read_path name none = none
read_path name (some (path, rest)) = some (name, path)

unfoldable pub read_name : Option (Text × Text) → Option (Text × Text)
unfolding read_quoted
read_name none = none
read_name (some (name, rest)) = read_path name (read_quoted b'\'' (drop 6 rest))

abbrev pub vacuumed : Option (Text × Text) → Effect Disk ExecAnswer
vacuumed none disk = (disk, err refused)
vacuumed (some (name, path)) disk =
    (record disk { files = put path (some (disk.live name)) disk.files }, ok done)

abbrev pub parameter : List Value → Text
parameter (Value.string uri ∷ values) = uri
parameter _ = []

abbrev pub attach_shared : Text → Option Text → Effect Disk ExecAnswer
attach_shared name none disk = (disk, err refused)
attach_shared name (some database) disk =
    (record disk { live = put name database disk.live }, ok done)

-- A DETACH leaves the database to the ATTACH that follows.
abbrev pub attached : List Value → Option (Text × Text) → Effect Disk ExecAnswer
attached values none disk = (disk, ok done)
attached values (some (name, rest)) disk = attach_shared name (disk.shared (parameter values)) disk

-- A holder's connection has none of the live databases to detach or to attach.
abbrev pub on_live : ℕ → Effect Disk ExecAnswer → Effect Disk ExecAnswer
on_live c change disk = if nat_eq c 0 then change disk else (disk, ok done)

unfoldable pub attach_name : Text → Option (Text × Text)
unfolding read_quoted is_prefix
attach_name text = if is_prefix (codes "ATTACH") text then read_quoted b'"' (drop 21 text) else none

abbrev pub restored : ℕ → Option Text → Disk → Disk × Option GoError
restored restore none disk = (disk, some refused)
restored restore (some image) disk =
    (record disk { shared = put (restore_uri restore) (some image) disk.shared }, none)

abbrev pub opened : Bool → ℕ → Effect Disk ℕ
opened true n disk = (disk, ok n)
opened false n disk = (disk, err refused)

abbrev pub opened_either : Bool → Bool → Effect Disk ℕ
opened_either true second disk = (disk, ok 1)
opened_either false second disk = opened second 2 disk

abbrev pub contents : Option Text → Effect Disk Text
contents none disk = (disk, err refused)
contents (some bytes) disk = (disk, ok bytes)

abbrev pub driver_of : ℕ → DriverConnection Disk
driver_of connection = record {
  serialize = some (λ disk. (disk, ok (disk.live (codes "main"))));
  deserialize =
      some (λ image disk. (record disk { live = put (codes "main") image disk.live }, none));
  new_restore = some (λ path disk. opened (text_eq path temp) connection disk);
}

-- A pool and its connection have the number of their holder's id; the database's own connection is 0.
abbrev pub storage : Storage Disk
storage = record {
  ctx_err = λ disk. none;
  conn = λ disk. (disk, ok 0);
  close_conn = λ c disk. (disk, none);
  raw = λ c disk. (disk, ok (driver_of c));
  restore_step = λ r disk. restored r (disk.files temp) disk;
  restore_finish = λ r disk. (disk, none);
  query_version = λ c text disk. (disk, ok (pos 3));
  exec = λ c text values disk. vacuumed (read_name (read_quoted b'"' (drop 7 text))) disk;
  exec_uncancelled = λ c text values disk. on_live c (attached values (attach_name text)) disk;
  open_pool =
      λ uri disk. opened_either (text_eq uri (restore_uri 1)) (text_eq uri (restore_uri 2)) disk;
  pool_conn = λ d disk. (disk, ok d);
  close_pool = λ d disk. (disk, none);
  create_temp = λ pattern disk. (disk, ok temp);
  write_file = λ path bytes disk. (record disk { files = put path (some bytes) disk.files }, none);
  close_file = λ path disk. (disk, none);
  remove_file = λ path disk. (record disk { files = put path none disk.files }, none);
  read_file = λ path disk. contents (disk.files path) disk;
}
