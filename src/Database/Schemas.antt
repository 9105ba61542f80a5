-- ===== src/Database/Schemas.antt =====
-- The schemas of a database: what `CreateSchema` and `Close` do to them, and what stays true of them.
use pgmem.Database.{
  find_schema, is_known, Database, is_reserved, checked_name, store_schema, meanwhile, attached,
  create_checked, create_schema, close_database,
}
use pgmem.Functions.Dispatch.Calls.{route, dispatch_closed}
use pgmem.Common.{
  ap, ◌≡◌, ◌⊎◌, inl, inr, refl, sym, ◌∙◌, Bool, true, false, Option, none, some, List, arith,
  Bool-cases, Option-cases, nat_Key, if◌then◌else◌, ◌≢◌,
}
use mathlib.Core.Path.{subst}
use pgmem.Engine.{Effect, ExecAnswer}
use pgmem.Functions.Dispatch.{dispatch_scalar_function, closed_error, FunctionDatabases}
use pgmem.Common.Dict.{Dict, lookup, insert, delete, lookup-insert, lookup-delete}
use pgmem.Common.Text.{Text, codes, text_eq, text_eq_iff, text_Key, to_lower}
use pgmem.Common.TextLaws.{text_eq_refl, to_lower_idem}
use pgmem.Errors.{GoError, Fallible, ok, err}
use pgmem.Values.{Value}

-- A key that a schema can have: "public", or a name in lower case that is none of SQLite's own.
abbrev pub IsSchemaName : Text → Type 0
IsSchemaName name =
    (name ≡ codes "public")
    ⊎ ((to_lower name ≡ name) × (name ≢ codes "main") × (name ≢ codes "temp"))

-- A name that a new schema can have.
abbrev pub IsFreeName : Text → Type 0
IsFreeName name = (name ≢ codes "main") × (name ≢ codes "temp") × (name ≢ codes "public")

not_reserved : (name : Text) → is_reserved name ≡ false → IsFreeName name
unfolding is_reserved
not_reserved name h = (
  λ e. ground (arith, h, (text_eq_iff name (codes "main")).1 e),
  λ e. ground (arith, h, (text_eq_iff name (codes "temp")).1 e),
  λ e. ground (arith, h, (text_eq_iff name (codes "public")).1 e),
)

-- Every key is such a name and is its schema's name, and the schema public is there.
pub record IsWellFormed (db : Database) : Type 0 where
  pub names :
      (key name : Text) → lookup key db.schemas ≡ some name → (key ≡ name) × IsSchemaName name
  pub has_public : lookup (codes "public") db.schemas ≡ some (codes "public")

is_known_lem :
    (name : Text) (schemas : Dict Text Text)
    → is_known name schemas ≡ false
    → lookup name schemas ≡ none
unfolding is_known
is_known_lem name schemas h = elim (Option-cases (lookup name schemas)) [
  | inl e ↦ e
  | inr (v, e) ↦ absurd (ground (arith, h, e))
]

checked_name_lem :
    (name : Text) (db : Database) (key : Text)
    → checked_name name db ≡ ok key
    → (key ≡ to_lower name) × (is_reserved key ≡ false) × (lookup key db.schemas ≡ none)
unfolding checked_name
checked_name_lem name db key h = ground (arith, h, is_known_lem (to_lower name) db.schemas)

added-names :
    (key : Text) (schemas : Dict Text Text) (k n : Text)
    → to_lower key ≡ key
    → IsFreeName key
    → ((k n : Text) → lookup k schemas ≡ some n → (k ≡ n) × IsSchemaName n)
    → lookup k (insert key key schemas) ≡ some n
    → (k ≡ n) × IsSchemaName n
added-names key schemas k n lower (main, temp, public) h l = elim (Bool-cases (text_eq key k)) [
  | inl e ↦
      let q : key ≡ k = (text_eq_iff key k).0 e in
      let p : key ≡ n = ground (arith, l, lookup-insert key k key schemas, e) in
      (sym q ∙ p, subst IsSchemaName p (inr (lower, main, temp)))
  | inr e ↦ h k n (ground (arith, l, lookup-insert key k key schemas, e))
]

module _ {W : Type 0} (exec : Text → Effect W ExecAnswer) where
  -- What a call of `CreateSchema` does to the schemas: with an error, nothing; else it adds the name in
  -- lower case, which is neither main, temp nor public and had no schema.
  abbrev pub Created : Text → Database → Database × W × Fallible Text → Type 0
  Created name db (db', w, err e) = db'.schemas ≡ db.schemas
  Created name db (db', w, ok key) =
      (key ≡ to_lower name)
      × IsFreeName key
      × (lookup key db.schemas ≡ none)
      × (db'.schemas ≡ insert key key db.schemas)
      × (db'.is_closed ≡ false)

  attached-Created :
      (closes : Bool) (name key : Text) (db : Database) (r : W × Fallible ExecAnswer)
      → key ≡ to_lower name
      → IsFreeName key
      → lookup key db.schemas ≡ none
      → Created name db (attached exec closes key db r)
  unfolding attached meanwhile store_schema
  attached-Created true name key db (w, err e) a b c = refl
  attached-Created false name key db (w, err e) a b c = refl
  attached-Created true name key db (w, ok answer) a b c = refl
  attached-Created false name key db (w, ok answer) a b c = elim (Bool-cases db.is_closed) [
    | inl e ↦ rw e refl
    | inr e ↦ rw e (a, b, c, refl, refl)
  ]

  create_checked-Created :
      (closes : Bool) (name : Text) (db : Database) (w : W) (r : Fallible Text)
      → checked_name name db ≡ r
      → Created name db (create_checked exec closes db w r)
  unfolding create_checked
  create_checked-Created closes name db w (err e) h = refl
  create_checked-Created closes name db w (ok key) h =
      let (a, b, c) = checked_name_lem name db key h in
      attached-Created closes name key db _ a (not_reserved key b) c

  -- Whether or not the database is closed while the engine attaches: a `CreateSchema` that reports an
  -- error leaves the schemas as they were; one that succeeds leaves the database open and adds just the
  -- schema with the name in lower case, which is neither main, temp nor public and had no schema.
  pub create_schema-Created :
      (closes : Bool) (name : Text) (db : Database) (w : W)
      → Created name db (create_schema exec closes name db w)
  unfolding create_schema
  create_schema-Created closes name db w =
      create_checked-Created closes name db w (checked_name name db) refl

  Created-IsWellFormed :
      (name : Text) (db : Database) (r : Database × W × Fallible Text)
      → Created name db r
      → IsWellFormed db
      → IsWellFormed r.0
  Created-IsWellFormed name db (db', w, err e) c h = record {
    names = λ key n l. h.names key n (rw (← c) l);
    has_public = rw c h.has_public;
  }
  Created-IsWellFormed name db (db', w, ok key) (a, reserved, fresh, c, o) h = record {
    names = λ k n l.
        added-names key db.schemas k n (rw a (to_lower_idem name)) reserved h.names
          (subst (λ m. lookup k m ≡ some n) c l);
    has_public =
        rw (c, lookup-insert key (codes "public") key db.schemas)
          (elim (Bool-cases (text_eq key (codes "public"))) [
            | inl e ↦ rw e (ap some ((text_eq_iff key (codes "public")).0 e))
            | inr e ↦ rw e h.has_public
          ]);
  }

  -- A well-formed database stays so under `CreateSchema`, whatever its outcome and whether or not it is
  -- closed meanwhile: it has the schema public, and every other key is the name of its schema, in
  -- lower case, and neither main nor temp.
  pub create_schema-IsWellFormed :
      (closes : Bool) (name : Text) (db : Database) (w : W)
      → IsWellFormed db
      → IsWellFormed (create_schema exec closes name db w).0
  create_schema-IsWellFormed closes name db w h =
      Created-IsWellFormed name db (create_schema exec closes name db w)
        (create_schema-Created closes name db w) h

  -- After a `CreateSchema` that succeeds, `Schema` finds the new schema by its name in any case, and by
  -- every other name what it found before.
  pub find_schema-create_schema :
      (closes : Bool) (name key : Text) (db db' : Database) (w w' : W)
      → create_schema exec closes name db w ≡ (db', w', ok key)
      → (other : Text)
      → find_schema other db' ≡ (
          if text_eq (to_lower name) (to_lower other)
          then some (to_lower name)
          else find_schema other db)
  unfolding find_schema
  find_schema-create_schema closes name key db db' w w' h other =
      let (a, reserved, fresh, c, o) =
        subst (Created name db) h (create_schema-Created closes name db w) in
      rw (c, lookup-insert key (to_lower other) key db.schemas, a) refl

-- The first `Close` of a database takes its dispatch id away, so that every dispatch to it reports that
-- the database is closed and runs no callback; and a later `Close`, whatever the dispatcher's databases
-- and the world by then, does nothing and reports no error.
pub close_database_lem :
    {W : Type 0} (close_pool : W → W × Option GoError) (db : Database)
    (databases later : FunctionDatabases W) (w w' : W) (schema name : Text) (arguments : List Value)
    → db.is_closed ≡ false
    → let (db', databases', w₁, e) = close_database close_pool db databases w in
      (dispatch_scalar_function databases' (route db.dispatch_id schema name arguments) w'
        ≡ (w', Value.nil, some (closed_error schema name)))
      × (close_database close_pool db' later w' ≡ (db', later, w', none))
unfolding close_database
close_database_lem close_pool db databases later w w' schema name arguments open_ = rw open_ (
  dispatch_closed (delete db.dispatch_id databases) db.dispatch_id schema name arguments w' (
      ground (
        arith,
        lookup-delete db.dispatch_id db.dispatch_id databases,
        text_eq_refl db.dispatch_id,
      )),
  refl,
)
