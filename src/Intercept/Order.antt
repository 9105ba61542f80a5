-- ===== src/Intercept/Order.antt =====
-- Interceptors run in registration order until one handles the statement, fails or panics.
use pgmem.Values.Copies.{lookup-clone_row}
use pgmem.Common.Dict.{lookup}
use pgmem.Common.{
  length-map, Option-cases, inl, inr, map, length, if◌then◌else◌, ◌≡◌, refl, true, false, Option,
  none, some, List, [], ◌∷◌, ◌++◌, arith, append-nil, nat_Key,
}
use pgmem.Common.Signed.{ℤ}
use pgmem.Common.Text.{text_Key, text_eq, Text}
use pgmem.Errors.{Outcome, returned, panicked}
use pgmem.Values.{Value, Row, Result, empty_result, clone_arguments, clone_result, clone_row}
use pgmem.Schema.Command.{PgQuery, statement_command}
use pgmem.Intercept.{
  Answer, InterceptorRegistration, InterceptorRegistry, handled_result, intercept_error,
  run_entries, run_interceptors,
}

-- An answer that ends the loop.
abbrev pub Stops : Outcome Answer → Type 0
Stops (panicked p) = Unit {0}
Stops (returned (r, handled, some cause)) = Unit {0}
Stops (returned (r, true, none)) = Unit {0}
Stops (returned (r, false, none)) = ⊥

-- What the caller sees of an answer that ends the loop: a panic goes on, an error comes with no
-- result, and a handled result is completed.
abbrev pub seen : PgQuery → Text → Outcome Answer → Outcome Answer
seen pg statement (panicked p) = panicked p
seen pg statement (returned (r, handled, some cause)) =
    returned (empty_result, false, some (intercept_error cause))
seen pg statement (returned (r, handled, none)) =
    returned (handled_result pg statement r, handled, none)

module _ {W : Type 0} (pg : PgQuery) (statement : Text) (arguments : List Value) where
  -- Each of the entries is called on the statement and a copy of the arguments, and declines.
  pub data Declines : List (InterceptorRegistration W) → W → W → Type 0 where
    done : {w : W} → Declines [] w w
    decline :
        {e : InterceptorRegistration W} {es : List (InterceptorRegistration W)} {w w' w'' : W}
        (r : Result)
        → e.interceptor w statement (clone_arguments arguments) ≡ (w', returned (r, false, none))
        → Declines es w' w''
        → Declines (e ∷ es) w w''

  run_entries-Declines :
      {es : List (InterceptorRegistration W)} {w w' : W} (rest : List (InterceptorRegistration W))
      → Declines es w w'
      → run_entries pg statement arguments (es ++ rest) w
        ≡ run_entries pg statement arguments rest w'
  unfolding run_entries
  run_entries-Declines rest done = refl
  run_entries-Declines rest (decline r called d) =
      rw (called, run_entries) (run_entries-Declines rest d)

  run_entries-Stops :
      (e : InterceptorRegistration W) (es : List (InterceptorRegistration W)) (w w' : W)
      (answer : Outcome Answer)
      → e.interceptor w statement (clone_arguments arguments) ≡ (w', answer)
      → Stops answer
      → run_entries pg statement arguments (e ∷ es) w ≡ (w', seen pg statement answer)
  unfolding run_entries
  run_entries-Stops e es w w' (panicked p) called h = rw (called, run_entries)
  run_entries-Stops e es w w' (returned (r, handled, some cause)) called h =
      rw (called, run_entries)
  run_entries-Stops e es w w' (returned (r, true, none)) called h = rw (called, run_entries)
  run_entries-Stops e es w w' (returned (r, false, none)) called h = absurd h

  -- Where the interceptors before one decline and that one handles the statement, fails or panics,
  -- the caller sees its answer, and the world is as it left it: no later interceptor has run.
  pub first_answer_wins :
      (registry : InterceptorRegistry W) (before after : List (InterceptorRegistration W))
      (e : InterceptorRegistration W) (w w' w'' : W) (answer : Outcome Answer)
      → registry.entries ≡ before ++ e ∷ after
      → Declines before w w'
      → e.interceptor w' statement (clone_arguments arguments) ≡ (w'', answer)
      → Stops answer
      → run_interceptors pg statement arguments none false registry w
        ≡ (w'', seen pg statement answer)
  unfolding run_interceptors
  first_answer_wins registry before after e w w' w'' answer at declined called h =
      rw (at, run_entries-Declines (e ∷ after) declined)
        (run_entries-Stops e after w' w'' answer called h)

  -- Where every interceptor declines, the statement is not handled, with no error and no result.
  pub all_decline :
      (registry : InterceptorRegistry W) (w w' : W)
      → Declines registry.entries w w'
      → run_interceptors pg statement arguments none false registry w
        ≡ (w', returned (empty_result, false, none))
  unfolding run_interceptors run_entries
  all_decline registry w w' declined =
      rw (← append-nil registry.entries) (run_entries-Declines [] declined)

-- Two slices of rows have as many rows, and the same value in each column of each row.
abbrev pub SameRows : List Row → List Row → Type 0
SameRows [] [] = Unit {0}
SameRows (r ∷ rs) (s ∷ ss) = ((k : Text) → lookup k r ≡ lookup k s) × SameRows rs ss
SameRows [] (s ∷ ss) = ⊥
SameRows (r ∷ rs) [] = ⊥

abbrev pub SameSlices : Option (List Row) → Option (List Row) → Type 0
SameSlices none none = Unit {0}
SameSlices (some rs) (some ss) = SameRows rs ss
SameSlices none (some ss) = ⊥
SameSlices (some rs) none = ⊥

map-clone_row-SameRows : (rows : List Row) → SameRows (map clone_row rows) rows
map-clone_row-SameRows [] = tt
map-clone_row-SameRows (r ∷ rs) = ((λ k. lookup-clone_row k r), map-clone_row-SameRows rs)

clone_result-SameSlices : (r : Result) → SameSlices (clone_result r).rows r.rows
unfolding clone_result
clone_result-SameSlices r = go r.rows
  where
    go :
        (o : Option (List Row))
        → SameSlices (elim o [ none ↦ none | some rows ↦ some (map clone_row rows) ]) o
    go none = tt
    go (some rows) = map-clone_row-SameRows rows

abbrev count_rows : Option (List Row) → ℤ → ℤ
count_rows none count = count
count_rows (some rows) count = ℤ.pos (length rows)

rows-handled_result :
    (pg : PgQuery) (statement : Text) (r : Result)
    → (handled_result pg statement r).rows ≡ (clone_result r).rows
unfolding handled_result
rows-handled_result pg statement r = ground arith

row_count-handled_result :
    (pg : PgQuery) (statement : Text) (r : Result)
    → (handled_result pg statement r).row_count ≡ count_rows r.rows r.row_count
unfolding handled_result clone_result
row_count-handled_result pg statement r = elim (Option-cases r.rows) [
  | inl e ↦ ground (arith, e)
  | inr (rows, e) ↦ ground (arith, e, length-map rows clone_row)
]

command-handled_result :
    (pg : PgQuery) (statement : Text) (r : Result)
    → (handled_result pg statement r).command
      ≡ (if text_eq r.command [] then statement_command pg statement else r.command)
unfolding handled_result clone_result
command-handled_result pg statement r = ground arith

-- A handled result has the rows of the interceptor's result, column by column, or no slice where that
-- has none; it counts them where there is a slice and keeps the interceptor's count where there is
-- none; and it has the interceptor's command, or the statement's where that is empty.
pub handled_result_lem :
    (pg : PgQuery) (statement : Text) (r : Result)
    → SameSlices (handled_result pg statement r).rows r.rows
      × ((handled_result pg statement r).row_count ≡ count_rows r.rows r.row_count)
      × ((handled_result pg statement r).command
          ≡ (if text_eq r.command [] then statement_command pg statement else r.command))
handled_result_lem pg statement r = (
  rw (rows-handled_result pg statement r) (clone_result-SameSlices r),
  row_count-handled_result pg statement r,
  command-handled_result pg statement r,
)
