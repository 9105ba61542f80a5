-- ===== src/Examples/Table.antt =====
-- A row to insert and a template to find.
use pgmem.Common.Dict.{lookup}
use pgmem.Table.{insert_statement, find_statement, sorted_row_keys}
use pgmem.Table.Plain.{entry, table_text, filter_text, insert_text}
use pgmem.Table.Keys.{IsSorted, count, sorted_row_keys-IsSorted, insert_statement_lem}
use pgmem.Table.Conditions.{Condition, render, meets_all, agrees}
use pgmem.Table.Find.{find_statement_lem}
use pgmem.Common.{◌≡◌, ◌↔◌, refl, Bool, true, List, [], ◌∷◌, ◌++◌, map, nat_Key, some}
use pgmem.Common.Text.{Text, codes, text_Key, decimal}
use pgmem.Common.Signed.{pos}
use pgmem.Values.{Value, Row}

abbrev person : Row
person =
    (codes "name", Value.string (codes "Ada"))
    ∷ (codes "age", Value.nil)
    ∷ (codes "id", Value.int64 (pos 1))
    ∷ []

insert_statement-person : insert_statement (codes "public") (codes "people") person ≡ (
  codes
      "INSERT INTO \"main\".\"people\" (\"age\", \"id\", \"name\") VALUES ($1, $2, $3) RETURNING *",
  Value.nil ∷ Value.int64 (pos 1) ∷ Value.string (codes "Ada") ∷ [],
)
unfolding insert_statement decimal
insert_statement-person = refl

find_statement-person : find_statement (codes "public") (codes "people") person ≡ (
  codes "SELECT * FROM \"main\".\"people\" WHERE \"age\" IS NULL AND \"id\" = $1 AND \"name\" = $2",
  Value.int64 (pos 1) ∷ Value.string (codes "Ada") ∷ [],
)
unfolding find_statement decimal
find_statement-person = refl

sorted_row_keys-IsSorted_example :
    IsSorted (sorted_row_keys person)
    × ((key : Text)
        → count key (sorted_row_keys person)
          ≡ count key (codes "name" ∷ codes "age" ∷ codes "id" ∷ []))
sorted_row_keys-IsSorted_example = sorted_row_keys-IsSorted person

insert_statement_lem_example :
    let columns = sorted_row_keys person in
    insert_statement (codes "public") (codes "people") person ≡ (
      insert_text (table_text (codes "public") (codes "people")) columns,
      map (λ column. entry column person) columns,
    )
insert_statement_lem_example = insert_statement_lem (codes "public") (codes "people") person

find_statement_lem_example :
    (conditions : List Condition) × (arguments : List Value) × (find_statement
        (codes "public")
        (codes "people")
        person
      ≡ (
        codes "SELECT * FROM "
            ++ table_text (codes "public") (codes "people")
            ++ filter_text (map render conditions),
        arguments,
      ))
    × ((matches : Value → Value → Bool) (row : Row)
        → (meets_all matches row arguments conditions ≡ true) ↔ (
            (column : Text) (v : Value)
            → lookup column person ≡ some v
            → agrees matches v (entry column row) ≡ true))
find_statement_lem_example = find_statement_lem (codes "public") (codes "people") person
