-- ===== src/Intercept.antt =====
-- intercept.go. A callback may change the world, of type `W`, and may panic; a context is the error
-- that ctx.Err returns.
pub mod Removal
pub mod Order
use Prim.Native.Nat.{ℕ, suc, ◌+◌, ◌-◌, ◌%◌, ◌^◌}
use pgmem.Common.{
  Bool, true, false, Option, none, some, List, [], ◌∷◌, ◌++◌, length, take, drop, set, nat_eq,
  if◌then◌else◌, ℕ, suc, ◌+◌, ◌-◌, ◌%◌, ◌^◌, not, map, nat_Key,
}
use pgmem.Common.Signed.{ℤ, pos}
use pgmem.Common.Text.{Text, codes, text_eq, text_Key}
use pgmem.Errors.{
  GoError, sentinel, wrap, closed, Outcome, returned, panicked, error_panic, other_panic, plain,
}
use pgmem.Values.{Value, Result, empty_result, copy, clone_arguments, clone_result}
use pgmem.Schema.Command.{PgQuery, statement_command}
use mathlib.Core.Option

-- What a callback returns: a result, whether it handled the statement, and an error.
abbrev pub Answer : Type 0
Answer = Result × Bool × Option GoError

abbrev pub QueryInterceptor : Type 0 → Type 0
QueryInterceptor W = W → Text → List Value → W × Outcome Answer

pub record InterceptorRegistration (W : Type 0) : Type 0 where
  pub id : ℕ
  pub interceptor : QueryInterceptor W

pub record InterceptorRegistry (W : Type 0) : Type 0 where
  pub next_id : ℕ
  pub entries : List (InterceptorRegistration W)

-- `unsubscribe` is the id that the closure holds, or nil; `finished` is the state of sync.Once.
pub record Subscription : Type 0 where
  pub unsubscribe : Option ℕ
  pub finished : Bool

module _ {W : Type 0} where
  -- A nil function value panics when it is called.
  abbrev nil_registration : InterceptorRegistration W
  nil_registration = record {
    id = 0;
    interceptor = λ w s a. (w, panicked (error_panic (plain (codes "nil pointer dereference"))));
  }

  -- `InterceptQueries` behind its guards; ids are uint64.
  unfoldable pub register :
      QueryInterceptor W → InterceptorRegistry W → InterceptorRegistry W × Subscription
  register interceptor registry =
      let id = (registry.next_id + 1) % 2 ^ 64 in
      (
        record {
          next_id = id;
          entries = registry.entries ++ record { id = id; interceptor = interceptor } ∷ [];
        },
        record { unsubscribe = some id; finished = false },
      )

  -- `InterceptQueries`: nil arguments panic.
  pub intercept_queries :
      Option (InterceptorRegistry W)
      → Option (QueryInterceptor W)
      → Outcome (InterceptorRegistry W × Subscription)
  unfolding register
  intercept_queries schema none =
      panicked (other_panic (codes "pgmem: query interceptor must not be nil"))
  intercept_queries none (some interceptor) =
      panicked (other_panic (codes "pgmem: cannot register an interceptor on a nil schema"))
  intercept_queries (some registry) (some interceptor) = returned (register interceptor registry)

  -- The first index with that id.
  index_of : ℕ → List (InterceptorRegistration W) → Option ℕ
  index_of id [] = none
  index_of id (e ∷ es) =
      let rest = Option.map suc (index_of id es) in if nat_eq e.id id then some 0 else rest

  -- copy(entries[i:], entries[i+1:]), in place
  copy_down : ℕ → List (InterceptorRegistration W) → List (InterceptorRegistration W)
  unfolding copy
  copy_down i entries = take i entries ++ copy (drop i entries) (drop (suc i) entries)

  -- The entries move down by one, the last place is cleared, and the slice gets shorter.
  delete_at : ℕ → List (InterceptorRegistration W) → List (InterceptorRegistration W)
  unfolding copy_down
  delete_at i entries =
      take (length entries - 1) (set (copy_down i entries) (length entries - 1) nil_registration)

  -- The closure of a subscription.
  pub remove_entry : ℕ → InterceptorRegistry W → InterceptorRegistry W
  unfolding index_of delete_at
  remove_entry id registry = elim (index_of id registry.entries) [
    | none ↦ registry
    | some i ↦ record registry { entries = delete_at i registry.entries }
  ]

  run_unsubscribe : Option ℕ → InterceptorRegistry W → InterceptorRegistry W
  unfolding remove_entry
  run_unsubscribe none registry = registry
  run_unsubscribe (some id) registry = remove_entry id registry

  -- `Unsubscribe` of a subscription that is not nil
  unfoldable pub unsubscribe :
      Subscription → InterceptorRegistry W → Subscription × InterceptorRegistry W
  unfolding run_unsubscribe
  unsubscribe s registry =
      if s.finished
      then (s, registry)
      else (record s { finished = true }, run_unsubscribe s.unsubscribe registry)

module _ (pg : PgQuery) (statement : Text) where
  counted : Result → Result
  counted r = elim r.rows [ none ↦ r | some rows ↦ record r { row_count = ℤ.pos (length rows) } ]

  commanded : Result → Result
  unfolding text_eq statement_command
  commanded r =
      if text_eq r.command [] then record r { command = statement_command pg statement } else r

  -- The result of an interceptor that handled the statement.
  pub handled_result : Result → Result
  unfolding counted commanded clone_result
  handled_result r = commanded (counted (clone_result r))

abbrev pub intercept_error : GoError → GoError
intercept_error cause = wrap (codes "pgmem: intercept query: ") cause []

-- One round of the loop of `runInterceptors`, from the callback's answer on; `rest` is the rounds
-- that follow.
after_answer :
    {W : Type 0}
    → (Result → Result)
    → (W → W × Outcome Answer)
    → W × Outcome Answer
    → W × Outcome Answer
after_answer handle rest (w, panicked p) = (w, panicked p)
after_answer handle rest (w, returned (r, handled, some cause)) =
    (w, returned (empty_result, false, some (intercept_error cause)))
after_answer handle rest (w, returned (r, true, none)) = (w, returned (handle r, true, none))
after_answer handle rest (w, returned (r, false, none)) = rest w

module _ {W : Type 0} (pg : PgQuery) (statement : Text) (arguments : List Value) where
  -- The loop of `runInterceptors` over the copied entries.
  pub run_entries : List (InterceptorRegistration W) → W → W × Outcome Answer
  unfolding handled_result after_answer
  run_entries [] w = (w, returned (empty_result, false, none))
  run_entries (e ∷ es) w =
      after_answer (handled_result pg statement) (run_entries es)
        (e.interceptor w statement (clone_arguments arguments))

  -- `runInterceptors`, with ctx.Err and whether the schema or its database is nil or closed
  unfoldable pub run_interceptors :
      Option GoError → Bool → InterceptorRegistry W → W → W × Outcome Answer
  unfolding run_entries
  run_interceptors (some cause) is_closed registry w =
      (w, returned (empty_result, false, some cause))
  run_interceptors none true registry w =
      (w, returned (empty_result, false, some (sentinel closed)))
  run_interceptors none false registry w = run_entries registry.entries w
