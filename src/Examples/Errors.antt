-- ===== src/Examples/Errors.antt =====
-- Errors in layers, and what is quoted.
use pgmem.Errors.Chain.{
  Layer, wrapped, executed, add_layers, errors_is-add_layers, sql_state-add_layers,
}
use pgmem.Errors.{code_sql_state, constraint_unique, closed, sentinel, sqlite, errors_is, sql_state}
use pgmem.Quote.{quote_identifier, quote_string_literal, read_quoted}
use pgmem.Quote.ReadBack.{read_quoted-quote_identifier, read_quoted-quote_string_literal}
use pgmem.Common.{◌≡◌, refl, some, List, [], ◌∷◌, ◌++◌, arith, nat_Key}
use pgmem.Common.Text.{codes, text_Key}
use pgmem.Values.{Value, Row}

abbrev layers : List Layer
layers =
    wrapped (codes "pgmem: ") [] ∷ executed (codes "SELECT 1") ∷ wrapped [] (codes ": got 2") ∷ []

errors_is-add_layers_example :
    errors_is (add_layers layers (sentinel closed)) closed ≡ errors_is (sentinel closed) closed
errors_is-add_layers_example = errors_is-add_layers layers (sentinel closed) closed

sql_state-add_layers_example :
    sql_state (add_layers layers (sqlite constraint_unique (codes "no such table"))) ≡ codes "23505"
unfolding code_sql_state
sql_state-add_layers_example =
    sql_state-add_layers layers constraint_unique (codes "no such table") (codes "23505") refl

read_quoted-quote_identifier_example :
    read_quoted b'"' (quote_identifier (codes "a\"b") ++ codes ".c")
    ≡ some (codes "a\"b", codes ".c")
read_quoted-quote_identifier_example =
    read_quoted-quote_identifier (codes "a\"b") (codes ".c") (λ e. absurd (ground (arith, e)))

read_quoted-quote_string_literal_example :
    read_quoted b'\'' (quote_string_literal (codes "it's") ++ codes " OR")
    ≡ some (codes "it's", codes " OR")
read_quoted-quote_string_literal_example =
    read_quoted-quote_string_literal (codes "it's") (codes " OR") (λ e. absurd (ground (arith, e)))

abbrev row : Row
row = (codes "a", Value.bytes (codes "x")) ∷ (codes "a", Value.nil) ∷ []
