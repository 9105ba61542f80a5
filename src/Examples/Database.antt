-- ===== src/Examples/Database.antt =====
-- A database with the schema public, in which a schema is created, and which is closed.
use pgmem.Engine.{Effect, ExecAnswer}
use pgmem.Functions.Dispatch.{dispatch_scalar_function, closed_error}
use pgmem.Functions.Dispatch.Calls.{route}
use pgmem.Database.{find_schema, Database, create_schema, close_database}
use pgmem.Database.Schemas.{
  find_schema-create_schema, IsSchemaName, IsWellFormed, Created, create_schema-Created,
  create_schema-IsWellFormed, close_database_lem,
}
use pgmem.Common.{
  ℕ, ◌+◌, ◌≡◌, inl, refl, sym, ◌∙◌, Bool, true, false, Option, none, some, [], ◌∷◌, arith,
  if◌then◌else◌, nat_Key,
}
use pgmem.Common.Dict.{lookup}
use pgmem.Common.Text.{Text, codes, text_eq, text_eq_iff, text_Key, to_lower}
use pgmem.Common.Signed.{pos}
use pgmem.Errors.{GoError, ok}
use pgmem.Values.{Value}

abbrev database : Database
database = record {
  schemas = (codes "public", codes "public") ∷ [];
  is_closed = false;
  dispatch_id = codes "4";
}

-- An engine that counts what it attaches.
abbrev attach : Text → Effect ℕ ExecAnswer
attach t w = (w + 1, ok (record { rows_affected = ok (pos 0) }))

abbrev close_pool : ℕ → ℕ × Option GoError
close_pool w = (0, none)

database-IsWellFormed : IsWellFormed database
unfolding lookup text_eq
database-IsWellFormed = record {
  names = λ key name h. only key name (text_eq (codes "public") key) refl h;
  has_public = refl;
}
  where
    only :
        (key name : Text) (b : Bool)
        → text_eq (codes "public") key ≡ b
        → (if b then some (codes "public") else none) ≡ some name
        → (key ≡ name) × IsSchemaName name
    only key name true e h =
        let q : codes "public" ≡ name = ground (arith, h) in
        (sym ((text_eq_iff (codes "public") key).0 e) ∙ q, inl (sym q))
    only key name false e h = absurd (ground (arith, h))

create_schema-Created_example :
    Created attach (codes "Audit") database (create_schema attach false (codes "Audit") database 0)
create_schema-Created_example = create_schema-Created attach false (codes "Audit") database 0

create_schema-IsWellFormed_example :
    IsWellFormed (create_schema attach false (codes "Audit") database 0).0
create_schema-IsWellFormed_example =
    create_schema-IsWellFormed attach false (codes "Audit") database 0 database-IsWellFormed

create_schema-Audit : create_schema attach false (codes "Audit") database 0 ≡ (
  record database {
    schemas = (codes "public", codes "public") ∷ (codes "audit", codes "audit") ∷ [];
  },
  1,
  ok (codes "audit"),
)
unfolding create_schema
create_schema-Audit = refl

close_database_lem_example :
    let (db', databases', w₁, e) = close_database close_pool database ((codes "4", []) ∷ []) 1 in
    (dispatch_scalar_function databases' (route (codes "4") (codes "public") (codes "f") []) 2
      ≡ (2, Value.nil, some (closed_error (codes "public") (codes "f"))))
    × (close_database close_pool db' [] 2 ≡ (db', [], 2, none))
close_database_lem_example =
    close_database_lem close_pool database ((codes "4", []) ∷ []) [] 1 2 (codes "public")
      (codes "f") [] refl

abbrev audited : Database
audited = record database {
  schemas = (codes "public", codes "public") ∷ (codes "audit", codes "audit") ∷ [];
}

find_schema-create_schema_example : find_schema (codes "AUDIT") audited ≡ (
    if text_eq (to_lower (codes "Audit")) (to_lower (codes "AUDIT"))
    then some (to_lower (codes "Audit"))
    else find_schema (codes "AUDIT") database)
find_schema-create_schema_example =
    find_schema-create_schema attach false (codes "Audit") (codes "audit") database audited 0 1
      create_schema-Audit (codes "AUDIT")
