-- ===== src/Examples/World.antt =====
-- A world with an engine: the connections that are held, and a counter that statements raise, inside
-- a transaction only for as long as it is not rolled back; COMMIT stores what the transaction it is
-- run in has raised, and ends it. The rows of a query on the pool hold connection 9 until they are closed.
use pgmem.Values.{Value}
use pgmem.Driver.Pins.{Borrowed, give_back}
use pgmem.Engine.{Executor, pool, in_tx, on_conn, Effect, Engine, RowSet}
use pgmem.Driver.Pins.{drop_conn, Pins}
use pgmem.Schema.Execution.Atomic.{Transactional, OpenIfOk}
use pgmem.Common.{
  ℕ, ◌+◌, ◌≡◌, refl, Bool, false, Option, none, List, [], ◌∷◌, arith, nat_eq, if◌then◌else◌,
  nat_Key, suc, length, true, some, zero, Bool-cases, inl, inr,
}
use pgmem.Common.Text.{Text, codes, text_Key}
use pgmem.Common.Signed.{pos}
use pgmem.Errors.{other_code, GoError, sqlite, ok, err, Fallible}

pub record World : Type 0 where
  pub held : List ℕ
  pub stored : ℕ
  pub pending : ℕ
  pub reading : Bool
  pub is_open : Bool

abbrev pub start : World
start = record { held = []; stored = 0; pending = 0; reading = false; is_open = false }

abbrev pub failure : GoError
failure = sqlite (other_code) (codes "no such table")

-- A statement that begins with F fails; any other one raises the counter.
abbrev raise : Executor → Bool → World → World
raise (in_tx t) false w =
    if w.is_open then record w { pending = w.pending + 1 } else record w { stored = w.stored + 1 }
raise (in_tx t) true w = record w { stored = w.stored + w.pending; pending = 0; is_open = false }
raise pool commits w = record w { stored = w.stored + 1 }
raise (on_conn c) commits w = record w { stored = w.stored + 1 }

-- COMMIT, the one text here that begins with C.
abbrev pub ends : Text → Bool
ends [] = false
ends (c ∷ t) = nat_eq c b'C'

-- The handle of rows, and what a query on an executor that is not failing answers.
abbrev rows_of : ℕ → Text → RowSet
rows_of handle t = record {
  handle = handle;
  columns = if nat_eq (length t) 1 then err failure else ok [];
  scans = [];
  rows_err = none;
}

abbrev read_on : Executor → Text → World → World × Fallible RowSet
read_on pool t w =
    if w.reading
    then (w, err failure)
    else (record w { held = 9 ∷ w.held; reading = true }, ok (rows_of 1 t))
read_on (in_tx n) t w = (w, ok (rows_of 0 t))
read_on (on_conn c) t w = (w, ok (rows_of 0 t))

abbrev pub lent : ℕ → World → Option ℕ
lent zero w = none
lent (suc n) w = if w.reading then some 9 else none

abbrev close_rows : ℕ → World → World
close_rows zero w = w
close_rows (suc n) w =
    if w.reading then record w { held = drop_conn 9 w.held; reading = false } else w

abbrev fails : Text → Bool
fails [] = false
fails (c ∷ t) = nat_eq c b'F'

abbrev pub quiet : World → World × Option GoError
quiet w = (w, none)

abbrev pub engine : Engine World
engine = record {
  ctx_err = λ w. none;
  is_closed = λ w. false;
  conn = λ w. (record w { held = 7 ∷ w.held }, ok 7);
  begin_tx = λ c i r w. (record w { pending = 0; is_open = true }, ok 1);
  begin_pool = λ w. (record w { pending = 0; is_open = true }, ok 1);
  commit = λ t w. (record w { stored = w.stored + w.pending; pending = 0; is_open = false }, none);
  rollback = λ t w. (record w { pending = 0; is_open = false }, none);
  close_conn = λ c w. (record w { held = drop_conn c w.held }, none);
  exec = λ x t a w.
      if fails t
      then (w, err failure)
      else (raise x (ends t) w, ok (record { rows_affected = ok (pos 1) }));
  query = λ x t a w. if fails t then (w, err failure) else read_on x t w;
  prepare = λ x t w. (w, ok 3);
  ping = λ x w. (w, none);
  close_rows = λ r w. (close_rows r w, none);
  exec_prepared = λ p a w. (w, ok (record { rows_affected = ok (pos 1) }));
  query_prepared =
      λ p a w. (w, ok (record { handle = 0; columns = ok []; scans = []; rows_err = none }));
  close_prepared = λ p w. (w, none);
}

abbrev pub translate : Text → Effect World Text
translate t w = (w, ok t)

raise-held : (x : Executor) (commits : Bool) (w : World) → (raise x commits w).held ≡ w.held
raise-held pool commits w = refl
raise-held (in_tx t) false w = ground arith
raise-held (in_tx t) true w = refl
raise-held (on_conn c) commits w = refl

read_on-Borrowed :
    (x : Executor) (t : Text) (w : World) → Borrowed (λ w. w.held) lent w.held (read_on x t w)
read_on-Borrowed pool t w = elim (Bool-cases w.reading) [ inl e ↦ rw e refl | inr e ↦ rw e refl ]
read_on-Borrowed (in_tx n) t w = refl
read_on-Borrowed (on_conn c) t w = refl

query-Borrowed :
    (x : Executor) (t : Text) (w : World)
    → Borrowed (λ w. w.held) lent w.held (if fails t then (w, err failure) else read_on x t w)
query-Borrowed x t w = elim (Bool-cases (fails t)) [
  | inl e ↦ rw e refl
  | inr e ↦ rw e (read_on-Borrowed x t w)
]

close_rows-held : (r : ℕ) (w : World) → (close_rows r w).held ≡ give_back (lent r w) w.held
close_rows-held zero w = refl
close_rows-held (suc n) w = elim (Bool-cases w.reading) [ inl e ↦ rw e refl | inr e ↦ rw e refl ]

pub engine-Pins : Pins engine translate (λ w. w.held) lent
engine-Pins = record {
  conn_held = λ w. refl;
  close_held = λ c w. refl;
  begin_held = λ c i r w. refl;
  commit_held = λ t w. refl;
  rollback_held = λ t w. refl;
  exec_held = λ x t a w. ground (arith, raise-held x (ends t) w);
  query_held = λ x t a w. query-Borrowed x t w;
  prepare_held = λ x t w. refl;
  ping_held = λ x w. refl;
  rows_held = close_rows-held;
  translate_held = λ t w. refl;
}

read_on-stored : (x : Executor) (t : Text) (w : World) → (read_on x t w).0.stored ≡ w.stored
read_on-stored pool t w = ground arith
read_on-stored (in_tx n) t w = refl
read_on-stored (on_conn c) t w = refl

close_rows-stored : (r : ℕ) (w : World) → (close_rows r w).stored ≡ w.stored
close_rows-stored zero w = refl
close_rows-stored (suc n) w = ground arith

exec-open :
    (t : ℕ) (q : Text) (a : List Value) (w : World)
    → w.is_open ≡ true
    → ends q ≡ false
    → OpenIfOk (λ t (w : World). w.is_open) t (engine.exec (in_tx t) q a w)
exec-open t q a w o n = elim (Bool-cases (fails q)) [ inl e ↦ rw e tt | inr e ↦ rw (e, n, o) refl ]

pub engine-Transactional : Transactional engine ends (λ w. w.stored)
engine-Transactional = record {
  is_open = λ t w. w.is_open;
  begin_open = λ w. refl;
  begin_stored = λ w. refl;
  exec_stored = λ t q a w o n. rw (n, o) (ground arith);
  exec_open = exec-open;
  query_stored = λ t q a w o n. ground (arith, read_on-stored (in_tx t) q w);
  rows_stored = close_rows-stored;
  rollback_stored = λ t w. refl;
  commit_stored = λ t w w' e c. absurd (ground arith);
}
