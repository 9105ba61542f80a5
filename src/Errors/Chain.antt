-- ===== src/Errors/Chain.antt =====
-- What the layers of an error keep: its identity under errors.Is, and its SQLSTATE.
use pgmem.Common.{◌≡◌, refl, true, some, List, [], ◌∷◌, ◌++◌, arith}
use pgmem.Common.Text.{Text, codes, to_lower, contains}
use pgmem.Common.TextLaws.{contains-append, to_lower-append}
use pgmem.Errors.{
  Sentinel, SqliteCode, GoError, wrap, sqlite, other_code, message, errors_is, errors_as_sqlite,
  code_sql_state, text_sql_state, engine_sql_state, sql_state, execution_error,
}

-- One layer that fmt.Errorf or `executionError` puts round an error.
pub data Layer : Type 0 where
  wrapped : Text → Text → Layer
  executed : Text → Layer

pub add_layer : Layer → GoError → GoError
add_layer (wrapped before after) e = wrap before e after
add_layer (executed statement) e = execution_error statement e

pub add_layers : List Layer → GoError → GoError
unfolding add_layer
add_layers [] e = e
add_layers (l ∷ ls) e = add_layer l (add_layers ls e)

-- Under any layers of wrapping and of `executionError`, errors.Is finds the sentinels that it finds
-- in the innermost error, and no other.
pub errors_is-add_layers :
    (ls : List Layer) (e : GoError) (target : Sentinel)
    → errors_is (add_layers ls e) target ≡ errors_is e target
unfolding add_layers errors_is execution_error
errors_is-add_layers [] e target = refl
errors_is-add_layers (wrapped b a ∷ ls) e target = errors_is-add_layers ls e target
errors_is-add_layers (executed s ∷ ls) e target = errors_is-add_layers ls e target

errors_as_sqlite-add_layers :
    (ls : List Layer) (e : GoError) → errors_as_sqlite (add_layers ls e) ≡ errors_as_sqlite e
unfolding add_layers errors_as_sqlite execution_error
errors_as_sqlite-add_layers [] e = refl
errors_as_sqlite-add_layers (wrapped b a ∷ ls) e = errors_as_sqlite-add_layers ls e
errors_as_sqlite-add_layers (executed s ∷ ls) e = errors_as_sqlite-add_layers ls e

-- An engine error whose code has a SQLSTATE keeps that SQLSTATE under any layers and whatever its
-- text says.
pub sql_state-add_layers :
    (ls : List Layer) (c : SqliteCode) (text state : Text)
    → code_sql_state c ≡ some state
    → sql_state (add_layers ls (sqlite c text)) ≡ state
unfolding sql_state errors_as_sqlite engine_sql_state
sql_state-add_layers ls c text state h =
    ground (arith, errors_as_sqlite-add_layers ls (sqlite c text))

lower_phrase : to_lower (codes "pgmem function") ≡ codes "pgmem function"
unfolding to_lower
lower_phrase = refl

phrase_kept :
    (before after : Text)
    → contains (codes "pgmem function") (to_lower (before ++ codes "pgmem function" ++ after))
      ≡ true
phrase_kept before after =
    rw (to_lower-append, to_lower-append, lower_phrase)
      (contains-append (to_lower before) (codes "pgmem function") (to_lower after))

-- An error of the engine without a code of its own, whose text holds a phrase that is in lower case
-- and names a registered function, has SQLSTATE 38000.
pub sql_state_of_function :
    (before after : Text)
    → sql_state (sqlite other_code (before ++ codes "pgmem function" ++ after)) ≡ codes "38000"
unfolding sql_state errors_as_sqlite engine_sql_state message text_sql_state
sql_state_of_function before after = rw (phrase_kept before after) refl
