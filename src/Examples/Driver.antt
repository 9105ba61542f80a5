-- ===== src/Examples/Driver.antt =====
-- A connection that begins, writes, commits and closes.
use pgmem.Driver.Pins.{serve_all}
use pgmem.Examples.World.{lent, World, start, engine, translate, engine-Pins}
use pgmem.Driver.{
  connect, finish, begin_tx, close, exec_context, query_context, prepare_context, ping,
  SqlTransaction, Session, TxOptions,
}
use pgmem.Driver.Coherent.{
  run, step, Call, execs, queries, prepares, pings, shuts, begins, finishes, passes,
  run-connect-IsCoherent,
}
use pgmem.Driver.Leaks.{Calm, NoLeak, run-NoLeak}
use pgmem.Engine.{RowSet}
use pgmem.Driver.Ledger.{IsCoherent, ledger}
use pgmem.Driver.Once.{finish_once}
use pgmem.Driver.Statement.Drain.{drain, scanned_ok, drain_all}
use pgmem.Common.{◌≡◌, refl, true, false, none, some, List, [], ◌∷◌, arith, nat_Key, All}
use pgmem.Common.Text.{codes, text_Key}
use pgmem.Common.Signed.{pos}
use pgmem.Errors.{tx_done, eof, sentinel, ok}
use pgmem.Values.{Value}

abbrev fresh : Session World
fresh = record {
  has_database = true;
  has_schema = true;
  transaction = none;
  is_shut = false;
  finished = [];
  next_id = 0;
  world = start;
}

abbrev options : TxOptions
options = record { isolation = 0; read_only = false }

abbrev calls : List (Call World)
calls =
    begins options
    ∷ execs (codes "INSERT") []
    ∷ queries (codes "FAIL") []
    ∷ queries (codes "SELECT") []
    ∷ finishes true 0
    ∷ queries (codes "SELECT") []
    ∷ queries (codes "S") []
    ∷ prepares (codes "SELECT")
    ∷ pings
    ∷ passes (λ w. record w { stored = 0 })
    ∷ begins options
    ∷ shuts
    ∷ []

connected : connect engine translate true true start ≡ ok fresh
unfolding connect
connected = refl

calls-Calm : All (Calm engine translate (λ w. w.held) lent engine-Pins) calls
calls-Calm = (tt, (tt, (tt, (tt, (tt, (tt, (tt, (tt, (tt, ((λ w. refl), (tt, (tt, tt))))))))))))

-- The calls leave one transaction object finished by its commit and one by the close.
run-calls : (run engine translate fresh calls).finished ≡ 1 ∷ 0 ∷ []
unfolding run step begin_tx finish close exec_context query_context prepare_context ping
run-calls = refl

run-connect-IsCoherent_example : IsCoherent (ledger (run engine translate fresh calls))
run-connect-IsCoherent_example =
    run-connect-IsCoherent engine translate true true start fresh calls connected

run-NoLeak_example :
    NoLeak engine translate (λ w. w.held) lent engine-Pins (serve_all engine translate fresh calls)
run-NoLeak_example =
    run-NoLeak engine translate (λ w. w.held) lent engine-Pins fresh calls calls-Calm refl

abbrev active : SqlTransaction
active = record { id = 0; connection = 7; transaction = 1 }

abbrev begun : Session World
begun = record fresh {
  transaction = some active;
  next_id = 1;
  world = record start { held = 7 ∷ [] };
}

finish_once_example :
    let later = run engine translate (finish engine translate true 0 begun).0 calls in
    finish engine translate false 0 later ≡ (later, some (sentinel tx_done))
finish_once_example = finish_once engine translate begun calls true false active refl

abbrev two_rows : List (List Value)
two_rows = (Value.int64 (pos 1) ∷ []) ∷ (Value.string (codes "b") ∷ []) ∷ []

abbrev rows : RowSet
rows = record {
  handle = 0;
  columns = ok (codes "a" ∷ []);
  scans = scanned_ok two_rows;
  rows_err = none;
}

drain_all_example : drain 3 (codes "SELECT a") rows ≡ (two_rows, some (sentinel eof))
drain_all_example = drain_all 3 (codes "SELECT a") rows two_rows refl (omega arith)
