-- ===== src/Schema/Translate.antt =====
-- Translation of schema.go: `translate` and `translateStatements`. The translator and the parser are
-- parameters; the registries live in the world.
pub mod Stored
use pgmem.Engine.{Effect, Engine}
use pgmem.Tree.{PgTrees}
use pgmem.Functions.Registry.{FunctionRegistry}
use pgmem.Functions.Rewrite.{rewrite_registered_functions}
use pgmem.Intercept.{InterceptorRegistry}
use pgmem.Schema.Command.{PgQuery}
use pgmem.Common.{
  ℕ, Bool, false, ◌||◌, not, Option, none, some, List, [], ◌∷◌, nat_eq, if◌then◌else◌, nat_Key,
}
use pgmem.Common.Text.{Text, codes, text_eq, text_Key, trim_space}
use pgmem.Errors.{closed, GoError, sentinel, plain, wrap, Fallible, ok, err}

-- A schema with its database: `attached` is false where one of them is nil.
pub record Schema (W : Type 0) : Type 0 where
  pub name : Text
  pub attached : Bool
  pub engine : Engine W
  pub pg : PgQuery
  pub trees : PgTrees
  pub translator : Text → Text → Effect W Text
  pub dispatch_id : Text
  pub functions : W → FunctionRegistry W
  pub interceptors : W → InterceptorRegistry W

-- `executableStatement`
pub record ExecutableStatement : Type 0 where
  pub source : Text
  pub translated : Text

abbrev pub empty_statement : GoError
empty_statement = plain (codes "pgmem: statement must not be empty")

has_semicolon : Text → Bool
has_semicolon [] = false
has_semicolon (c ∷ text) = nat_eq c b';' || has_semicolon text

module _ {W : Type 0} (s : Schema W) where
  checked_translation : Text → W × Fallible Text → W × Fallible Text
  unfolding trim_space text_eq rewrite_registered_functions
  checked_translation source (w, err e) =
      (w, err (wrap (codes "pgmem: translate statement: ") e []))
  checked_translation source (w, ok text) = (
    w,
    (if text_eq (trim_space text) []
        then err empty_statement
        else rewrite_registered_functions s.trees (s.functions w) s.dispatch_id (s.engine.ctx_err w)
            s.name source text),
  )

  -- `translate`
  pub translate : Text → Effect W Text
  unfolding checked_translation
  translate statement w =
      if not s.attached || s.engine.is_closed w
      then (w, err (sentinel closed))
      else checked_translation statement (s.translator s.name statement w)

  one_statement : Text → W × Fallible Text → W × Fallible (List ExecutableStatement)
  one_statement source (w, err e) = (w, err e)
  one_statement source (w, ok text) = (w, ok (record { source = source; translated = text } ∷ []))

  add_statement :
      Text
      → Text
      → W × Fallible (List ExecutableStatement)
      → W × Fallible (List ExecutableStatement)
  add_statement source text (w, err e) = (w, err e)
  add_statement source text (w, ok statements) =
      (w, ok (record { source = source; translated = text } ∷ statements))

  translated_part :
      Text
      → (W → W × Fallible (List ExecutableStatement))
      → W × Fallible Text
      → W × Fallible (List ExecutableStatement)
  unfolding add_statement
  translated_part source rest (w, err e) = (w, err e)
  translated_part source rest (w, ok text) = add_statement source text (rest w)

  -- the loop of `translateStatements` over the parts of a script
  translate_parts : List Text → W → W × Fallible (List ExecutableStatement)
  unfolding translated_part translate trim_space text_eq
  translate_parts [] w = (w, ok [])
  translate_parts (part ∷ parts) w =
      let rest = translate_parts parts w in
      let here = translated_part part (translate_parts parts) (translate part w) in
      if text_eq (trim_space part) [] then rest else here

  some_statements :
      W × Fallible (List ExecutableStatement) → W × Fallible (List ExecutableStatement)
  some_statements (w, err e) = (w, err e)
  some_statements (w, ok []) = (w, err empty_statement)
  some_statements (w, ok (statement ∷ statements)) = (w, ok (statement ∷ statements))

  translate_split : Text → Option (List Text) → W → W × Fallible (List ExecutableStatement)
  unfolding some_statements translate_parts one_statement
  translate_split script none w = one_statement script (translate script w)
  translate_split script (some parts) w = some_statements (translate_parts parts w)

  -- `translateStatements`
  unfoldable pub translate_statements : Text → W → W × Fallible (List ExecutableStatement)
  unfolding translate_split has_semicolon
  translate_statements script w =
      if has_semicolon script
      then translate_split script (s.pg.split_with_parser script) w
      else one_statement script (translate script w)
