-- ===== src/Driver/Pins.antt =====
-- The connections of the pool that are held, which database/sql keeps count of, and the calls that it
-- makes of the adapter: the rows of a query are closed before the adapter is called again.
use pgmem.Engine.{Executor, RowSet, Effect, Engine}
use pgmem.Driver.{query_context, Session, SqlTransaction}
use pgmem.Driver.Statement.{rows_close}
use pgmem.Driver.Coherent.{Call, queries, step}
use pgmem.Common.{ℕ, ◌≡◌, Option, none, some, List, [], ◌∷◌, nat_eq, nat_Key, if◌then◌else◌, Bool}
use pgmem.Common.Text.{Text, text_Key}
use pgmem.Errors.{Fallible, ok, err}
use pgmem.Values.{Value}

abbrev pub drop_conn : ℕ → List ℕ → List ℕ
drop_conn c [] = []
drop_conn c (d ∷ ds) = if nat_eq d c then ds else d ∷ drop_conn c ds

abbrev pub Grown : {W : Type 0} → (W → List ℕ) → List ℕ → W × Fallible ℕ → Type 0
Grown held before (w, ok c) = held w ≡ c ∷ before
Grown held before (w, err e) = held w ≡ before

-- The connections that are held once rows that hold one, or none, have been handed out.
abbrev pub loan : Option ℕ → List ℕ → List ℕ
loan none cs = cs
loan (some c) cs = c ∷ cs

-- The connections that are held once such rows have been closed.
abbrev pub give_back : Option ℕ → List ℕ → List ℕ
give_back none cs = cs
give_back (some c) cs = drop_conn c cs

-- What a query holds: with an error nothing more than before, else what its rows hold.
abbrev pub Borrowed :
    {W : Type 0} → (W → List ℕ) → (ℕ → W → Option ℕ) → List ℕ → W × Fallible RowSet → Type 0
Borrowed held lent before (w, err e) = held w ≡ before
Borrowed held lent before (w, ok rows) = held w ≡ loan (lent rows.handle w) before

-- database/sql: Conn hands out a connection or fails; Close gives one back; the rows of a query may
-- hold a connection, `lent`, until they are closed; the other operations leave the connections that
-- are held as they are.
pub record Pins {W : Type 0} (engine : Engine W) (translate : Text → Effect W Text)
    (held : W → List ℕ) (lent : ℕ → W → Option ℕ) : Type 0 where
  pub conn_held : (w : W) → Grown held (held w) (engine.conn w)
  pub close_held : (c : ℕ) (w : W) → held (engine.close_conn c w).0 ≡ drop_conn c (held w)
  pub begin_held : (c i : ℕ) (r : Bool) (w : W) → held (engine.begin_tx c i r w).0 ≡ held w
  pub commit_held : (t : ℕ) (w : W) → held (engine.commit t w).0 ≡ held w
  pub rollback_held : (t : ℕ) (w : W) → held (engine.rollback t w).0 ≡ held w
  pub exec_held :
      (x : Executor) (t : Text) (a : List Value) (w : W) → held (engine.exec x t a w).0 ≡ held w
  pub query_held :
      (x : Executor) (t : Text) (a : List Value) (w : W)
      → Borrowed held lent (held w) (engine.query x t a w)
  pub prepare_held : (x : Executor) (t : Text) (w : W) → held (engine.prepare x t w).0 ≡ held w
  pub ping_held : (x : Executor) (w : W) → held (engine.ping x w).0 ≡ held w
  pub rows_held : (r : ℕ) (w : W) → held (engine.close_rows r w).0 ≡ give_back (lent r w) (held w)
  pub translate_held : (t : Text) (w : W) → held (translate t w).0 ≡ held w

abbrev pub pinned : Option SqlTransaction → List ℕ
pinned none = []
pinned (some t) = t.connection ∷ []

module _ {W : Type 0} (engine : Engine W) (translate : Text → Effect W Text) where
  -- The rows of a query that has succeeded are closed.
  unfoldable pub closed_rows : Text → Session W × Fallible RowSet → Session W
  unfolding rows_close
  closed_rows statement (s, err e) = s
  closed_rows statement (s, ok rows) = record s {
    world = (rows_close engine statement rows s.world).0;
  }

  -- A call of the adapter, and the end of its rows where it is a query.
  unfoldable pub serve : Session W → Call W → Session W
  unfolding closed_rows
  serve s (queries statement arguments) =
      closed_rows statement (query_context engine translate statement arguments s)
  serve s c = step engine translate s c

  unfoldable pub serve_all : Session W → List (Call W) → Session W
  unfolding serve
  serve_all s [] = s
  serve_all s (c ∷ cs) = serve_all (serve s c) cs
