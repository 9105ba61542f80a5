-- ===== src/Schema/Command.antt =====
-- `statementCommand` of schema.go. The PostgreSQL parser pg_query_go is a parameter.
use pgmem.Common.{◌≡◌, refl, Option, none, some, List, [], ◌∷◌, arith, ℕ}
use pgmem.Common.Text.{Text, codes, first_field, to_upper, upper_byte}

-- The node of a parsed statement, as far as `statementCommand` asks; any other node, and none.
pub data StatementKind : Type 0 where
  select_stmt insert_stmt update_stmt delete_stmt create_stmt create_table_as_stmt : StatementKind
  alter_table_stmt drop_stmt truncate_stmt other_stmt : StatementKind

-- What is used of pg_query_go: Parse, by the nodes of the statements, and SplitWithParser. Both
-- return nothing where they report an error.
pub record PgQuery : Type 0 where
  pub parse_kinds : Text → Option (List StatementKind)
  pub split_with_parser : Text → Option (List Text)

unfoldable pub kind_command : StatementKind → Option Text
kind_command select_stmt = some (codes "SELECT")
kind_command insert_stmt = some (codes "INSERT")
kind_command update_stmt = some (codes "UPDATE")
kind_command delete_stmt = some (codes "DELETE")
kind_command create_stmt = some (codes "CREATE")
kind_command create_table_as_stmt = some (codes "CREATE")
kind_command alter_table_stmt = some (codes "ALTER")
kind_command drop_stmt = some (codes "DROP")
kind_command truncate_stmt = some (codes "TRUNCATE")
kind_command other_stmt = none

unfoldable pub first_word_command : Text → Text
first_word_command statement = elim (first_field statement) [
  | none ↦ []
  | some word ↦ to_upper word
]

or_else : Option Text → Text → Text
or_else none t = t
or_else (some s) t = s

parsed_command : Option (List StatementKind) → Option Text
unfolding kind_command
parsed_command none = none
parsed_command (some []) = none
parsed_command (some (kind ∷ kinds)) = kind_command kind

unfoldable pub statement_command : PgQuery → Text → Text
unfolding first_word_command parsed_command or_else
statement_command pg statement =
    or_else (parsed_command (pg.parse_kinds statement)) (first_word_command statement)

upper_byte_idem : (c : ℕ) → upper_byte (upper_byte c) ≡ upper_byte c
unfolding upper_byte
upper_byte_idem c = ground arith

to_upper_idem : (s : Text) → to_upper (to_upper s) ≡ to_upper s
unfolding to_upper
to_upper_idem [] = refl
to_upper_idem (c ∷ s) = cc (upper_byte_idem c, to_upper_idem s)

first_word_command_upper : (s : Text) → to_upper (first_word_command s) ≡ first_word_command s
unfolding first_word_command
first_word_command_upper s = go (first_field s)
  where
    go :
        (o : Option Text)
        → to_upper (elim o [ none ↦ [] | some word ↦ to_upper word ])
          ≡ elim o [ none ↦ [] | some word ↦ to_upper word ]
    go none = unfold to_upper in refl
    go (some word) = to_upper_idem word
