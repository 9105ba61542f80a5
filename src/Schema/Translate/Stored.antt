-- ===== src/Schema/Translate/Stored.antt =====
-- A translation leaves what is stored as the translator leaves it.
use pgmem.Schema.Translate.{
  Schema, ExecutableStatement, checked_translation, translate, one_statement, add_statement,
  translated_part, translate_parts, some_statements, translate_split, translate_statements,
}
use pgmem.Common.{◌≡◌, refl, ◌∙◌, Option, none, some, List, [], ◌∷◌, arith, nat_Key}
use pgmem.Common.Text.{Text, text_Key}
use pgmem.Errors.{Fallible, ok, err}

module _ {W D : Type 0} (s : Schema W) (stored : W → D)
    (translator_stored : (n t : Text) (w : W) → stored (s.translator n t w).0 ≡ stored w) where
  checked_translation-stored :
      (t : Text) (r : W × Fallible Text) → stored (checked_translation s t r).0 ≡ stored r.0
  unfolding checked_translation
  checked_translation-stored t (w, err e) = refl
  checked_translation-stored t (w, ok text) = refl

  translate-stored : (t : Text) (w : W) → stored (translate s t w).0 ≡ stored w
  unfolding translate
  translate-stored t w =
      ground (
        arith,
        checked_translation-stored t (s.translator s.name t w),
        translator_stored s.name t w,
      )

  one_statement-stored :
      (t : Text) (r : W × Fallible Text) → stored (one_statement s t r).0 ≡ stored r.0
  unfolding one_statement
  one_statement-stored t (w, err e) = refl
  one_statement-stored t (w, ok text) = refl

  add_statement-stored :
      (t text : Text) (r : W × Fallible (List ExecutableStatement))
      → stored (add_statement s t text r).0 ≡ stored r.0
  unfolding add_statement
  add_statement-stored t text (w, err e) = refl
  add_statement-stored t text (w, ok xs) = refl

  translated_part-stored :
      (t : Text) (rest : W → W × Fallible (List ExecutableStatement)) (r : W × Fallible Text)
      → ((w : W) → stored (rest w).0 ≡ stored w)
      → stored (translated_part s t rest r).0 ≡ stored r.0
  unfolding translated_part
  translated_part-stored t rest (w, err e) h = refl
  translated_part-stored t rest (w, ok text) h = add_statement-stored t text (rest w) ∙ h w

  translate_parts-stored :
      (parts : List Text) (w : W) → stored (translate_parts s parts w).0 ≡ stored w
  unfolding translate_parts
  translate_parts-stored [] w = refl
  translate_parts-stored (part ∷ parts) w = ground (
    arith,
    translate_parts-stored parts w,
    translated_part-stored part (translate_parts s parts) (translate s part w)
        (translate_parts-stored parts),
    translate-stored part w,
  )

  some_statements-stored :
      (r : W × Fallible (List ExecutableStatement)) → stored (some_statements s r).0 ≡ stored r.0
  unfolding some_statements
  some_statements-stored (w, err e) = refl
  some_statements-stored (w, ok []) = refl
  some_statements-stored (w, ok (x ∷ xs)) = refl

  translate_split-stored :
      (script : Text) (parts : Option (List Text)) (w : W)
      → stored (translate_split s script parts w).0 ≡ stored w
  unfolding translate_split
  translate_split-stored script none w =
      one_statement-stored script (translate s script w) ∙ translate-stored script w
  translate_split-stored script (some parts) w =
      some_statements-stored (translate_parts s parts w) ∙ translate_parts-stored parts w

  pub translate_statements-stored :
      (script : Text) (w : W) → stored (translate_statements s script w).0 ≡ stored w
  unfolding translate_statements
  translate_statements-stored script w = ground (
    arith,
    translate_split-stored script (s.pg.split_with_parser script) w,
    one_statement-stored script (translate s script w),
    translate-stored script w,
  )
