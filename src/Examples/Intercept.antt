-- ===== src/Examples/Intercept.antt =====
-- Two interceptors that decline and one that answers, in a world that counts the calls.
use pgmem.Examples.Schema.{pg}
use pgmem.Intercept.{
  QueryInterceptor, InterceptorRegistration, InterceptorRegistry, Subscription, handled_result,
  register, unsubscribe, run_interceptors,
}
use pgmem.Schema.Command.{statement_command}
use pgmem.Intercept.Removal.{IsFresh, others, register-IsFresh, unsubscribe_lem, unsubscribe_twice}
use pgmem.Intercept.Order.{
  Declines, done, decline, seen, first_answer_wins, all_decline, handled_result_lem, SameSlices,
}
use pgmem.Common.{
  ℕ, ◌+◌, ◌≡◌, refl, true, false, none, some, List, [], ◌∷◌, arith, if◌then◌else◌, nat_Key,
}
use pgmem.Common.Text.{codes, text_eq, text_Key}
use pgmem.Common.Signed.{pos}
use pgmem.Errors.{returned}
use pgmem.Values.{Value, Result, empty_result}

abbrev declining : QueryInterceptor ℕ
declining w statement arguments = (w + 1, returned (empty_result, false, none))

abbrev two : Result
two = record { rows = some ([] ∷ [] ∷ []); row_count = pos 9; command = [] }

abbrev answering : QueryInterceptor ℕ
answering w statement arguments = (w + 10, returned (two, true, none))

abbrev entry : ℕ → QueryInterceptor ℕ → InterceptorRegistration ℕ
entry id f = record { id = id; interceptor = f }

abbrev registry : InterceptorRegistry ℕ
registry = record {
  next_id = 5;
  entries = entry 1 declining ∷ entry 3 answering ∷ entry 4 declining ∷ [];
}

abbrev arguments : List Value
arguments = Value.bytes (codes "x") ∷ []

registry-IsFresh : IsFresh registry
registry-IsFresh = (omega arith, (omega arith, (omega arith, omega arith)))

register-IsFresh_example : IsFresh (register declining registry).0
register-IsFresh_example = register-IsFresh declining registry (omega arith) registry-IsFresh

abbrev subscription : Subscription
subscription = record { unsubscribe = some 3; finished = false }

unsubscribe_lem_example :
    ((unsubscribe subscription registry).1.entries ≡ others 3 registry.entries)
    × IsFresh (unsubscribe subscription registry).1
unsubscribe_lem_example = unsubscribe_lem subscription registry 3 refl refl registry-IsFresh

unsubscribe_twice_example :
    (unsubscribe (unsubscribe subscription registry).0 registry).1 ≡ registry
unsubscribe_twice_example = unsubscribe_twice subscription registry registry

abbrev declined : Declines pg (codes "SELECT") arguments (entry 1 declining ∷ []) 0 1
declined = decline empty_result refl done

first_answer_wins_example :
    run_interceptors pg (codes "SELECT") arguments none false registry 0
    ≡ (11, seen pg (codes "SELECT") (returned (two, true, none)))
first_answer_wins_example =
    first_answer_wins pg (codes "SELECT") arguments registry (entry 1 declining ∷ [])
      (entry 4 declining ∷ []) (entry 3 answering) 0 1 11 (returned (two, true, none)) refl declined
      refl tt

abbrev declining_registry : InterceptorRegistry ℕ
declining_registry = record { next_id = 1; entries = entry 1 declining ∷ [] }

all_decline_example :
    run_interceptors pg (codes "SELECT") arguments none false declining_registry 0
    ≡ (1, returned (empty_result, false, none))
all_decline_example = all_decline pg (codes "SELECT") arguments declining_registry 0 1 declined

handled_result_lem_example :
    SameSlices (handled_result pg (codes "SELECT") two).rows two.rows
    × ((handled_result pg (codes "SELECT") two).row_count ≡ pos 2)
    × ((handled_result pg (codes "SELECT") two).command
        ≡ (if text_eq two.command [] then statement_command pg (codes "SELECT") else two.command))
handled_result_lem_example = handled_result_lem pg (codes "SELECT") two
