-- ===== src/Table/Plain.antt =====
-- The texts and rows of table.go in plain words: what a statement on a table spells out, and what a row
-- has in a column.
use pgmem.Common.Dict.{lookup}
use pgmem.Quote.{quote_identifier}
use pgmem.Table.{qualified_name, where_clause, cell, is_nil_value}
use pgmem.Common.{
  none, some, nat_Key, ℕ, ◌+◌, append_assoc, ◌≡◌, refl, Bool, List, [], ◌∷◌, ◌++◌, map,
  if◌then◌else◌, true, false, sym, append-nil,
}
use pgmem.Common.Text.{text_Key, Text, codes, text_eq, decimal, join}
use pgmem.Values.{Value, Row}

-- A table in a statement: the schema public is the engine's main.
unfoldable pub table_text : Text → Text → Text
unfolding text_eq quote_identifier
table_text schema name =
    quote_identifier (if text_eq schema (codes "public") then codes "main" else schema)
    ++ codes "."
    ++ quote_identifier name

pub table_text_lem : (schema name : Text) → qualified_name schema name ≡ table_text schema name
unfolding qualified_name table_text
table_text_lem schema name = refl

-- The value that a row has in a column, and NULL where it has none.
unfoldable pub entry : Text → Row → Value
unfolding lookup
entry column row = elim (lookup column row) [ none ↦ Value.nil | some v ↦ v ]

pub entry_lem : (column : Text) (row : Row) → cell column row ≡ entry column row
unfolding cell entry
entry_lem column row = refl

unfoldable pub null_value : Value → Bool
null_value Value.nil = true
null_value (Value.int64 n) = false
null_value (Value.int n) = false
null_value (Value.int8 n) = false
null_value (Value.int16 n) = false
null_value (Value.int32 n) = false
null_value (Value.uint n) = false
null_value (Value.uint8 n) = false
null_value (Value.uint16 n) = false
null_value (Value.uint32 n) = false
null_value (Value.uint64 n) = false
null_value (Value.float32 bits) = false
null_value (Value.float64 bits) = false
null_value (Value.bool b) = false
null_value (Value.string s) = false
null_value (Value.bytes s) = false
null_value (Value.time t) = false
null_value (Value.named type v) = false
null_value (Value.other type) = false

pub null_value_lem : (v : Value) → is_nil_value v ≡ null_value v
unfolding null_value
null_value_lem Value.nil = refl
null_value_lem (Value.int64 n) = refl
null_value_lem (Value.int n) = refl
null_value_lem (Value.int8 n) = refl
null_value_lem (Value.int16 n) = refl
null_value_lem (Value.int32 n) = refl
null_value_lem (Value.uint n) = refl
null_value_lem (Value.uint8 n) = refl
null_value_lem (Value.uint16 n) = refl
null_value_lem (Value.uint32 n) = refl
null_value_lem (Value.uint64 n) = refl
null_value_lem (Value.float32 bits) = refl
null_value_lem (Value.float64 bits) = refl
null_value_lem (Value.bool b) = refl
null_value_lem (Value.string s) = refl
null_value_lem (Value.bytes s) = refl
null_value_lem (Value.time t) = refl
null_value_lem (Value.named type v) = refl
null_value_lem (Value.other type) = refl

-- Texts one after another, each with what stands before it.
unfoldable pub each_after : Text → List Text → Text
each_after before [] = []
each_after before (t ∷ ts) = before ++ (t ++ each_after before ts)

pub join_lem : (s : Text) (ts : List Text) (sep : Text) → join (s ∷ ts) sep ≡ s ++ each_after sep ts
unfolding join each_after
join_lem s [] sep = sym (append-nil s)
join_lem s (t ∷ ts) sep = rw (join_lem t ts sep) (append_assoc s sep (t ++ each_after sep ts))

-- The predicates of a statement, of which a row has to meet all.
unfoldable pub filter_text : List Text → Text
unfolding each_after
filter_text [] = []
filter_text (p ∷ ps) = codes " WHERE " ++ (p ++ each_after (codes " AND ") ps)

pub filter_text_lem : (predicates : List Text) → where_clause predicates ≡ filter_text predicates
unfolding where_clause filter_text
filter_text_lem [] = refl
filter_text_lem (p ∷ ps) = rw (join_lem p ps (codes " AND ")) refl

-- ", $n" for as many numbers as there are columns, from n.
unfoldable pub numbers_text : ℕ → List Text → Text
numbers_text n [] = []
numbers_text n (column ∷ columns) = codes ", $" ++ decimal n ++ numbers_text (n + 1) columns

-- An INSERT of one row with just these columns.
unfoldable pub insert_text : Text → List Text → Text
unfolding each_after numbers_text
insert_text table [] = codes "INSERT INTO " ++ table ++ codes " DEFAULT VALUES RETURNING *"
insert_text table (column ∷ columns) =
    codes "INSERT INTO "
    ++ table
    ++ codes " ("
    ++ quote_identifier column
    ++ each_after (codes ", ") (map quote_identifier columns)
    ++ codes ") VALUES ($1"
    ++ numbers_text 2 columns
    ++ codes ") RETURNING *"
