-- ===== src/Translator/Types.antt =====
-- The names that the translator gives to types are none of PostgreSQL's own.
use mathlib.Core.Path.{subst}
use pgmem.Translator.{rewrite_type, renamed_type, mapped_type, last_name, type_mapping}
use pgmem.Tree.{Messages}
use pgmem.Common.{
  ◌≡◌, ◌≢◌, refl, Option, none, some, [], ◌∷◌, arith, nat_Key, All, Bool-cases, Option-cases, inl,
  inr, sym, ◌∙◌, List,
}
use pgmem.Common.Dict.{Dict, lookup}
use pgmem.Common.Text.{Text, codes, text_eq, text_eq_iff, text_Key, to_lower}

-- PostgreSQL's names of types that the engine does not have.
abbrev pub postgres_types : List Text
postgres_types =
    codes "bigserial"
    ∷ codes "bytea"
    ∷ codes "int2"
    ∷ codes "int4"
    ∷ codes "int8"
    ∷ codes "jsonb"
    ∷ codes "serial"
    ∷ codes "serial2"
    ∷ codes "serial4"
    ∷ codes "serial8"
    ∷ codes "smallserial"
    ∷ codes "timestamptz"
    ∷ codes "uuid"
    ∷ []

-- A type's last name, in any case of its letters, is none of those.
abbrev pub IsEngineType : Option Text → Type 0
IsEngineType none = Unit {0}
IsEngineType (some name) = All (λ t. to_lower name ≢ t) postgres_types

lookup-All :
    (P : Text → Type 0) (key : Text) (d : Dict Text Text) (value : Text)
    → lookup key d ≡ some value
    → All (λ (e : Text × Text). P e.1) d
    → P value
unfolding lookup
lookup-All P key [] value h all = absurd (ground arith)
lookup-All P key ((k, v) ∷ d) value h (here, all) = elim (Bool-cases (text_eq k key)) [
  | inl e ↦ subst P (the_some (sym (rw e refl) ∙ h)) here
  | inr e ↦ lookup-All P key d value (sym (rw e refl) ∙ h) all
]
  where
    the_some : {a b : Text} → some a ≡ some b → a ≡ b
    the_some e = cc

mapped_types : All (λ (e : Text × Text). mapped_type (some e.1) ≡ none) type_mapping
unfolding mapped_type type_mapping text_eq
mapped_types = (
  refl,
  (
    refl,
    (refl, (refl, (refl, (refl, (refl, (refl, (refl, (refl, (refl, (refl, (refl, tt))))))))))),
  ),
)

mapped_type-mapped :
    (o : Option Text) (mapped : Text)
    → mapped_type o ≡ some mapped
    → mapped_type (some mapped) ≡ none
unfolding lookup mapped_type
mapped_type-mapped none mapped h = absurd (ground (arith, h))
mapped_type-mapped (some name) mapped h =
    lookup-All (λ v. mapped_type (some v) ≡ none) (to_lower name) type_mapping mapped h mapped_types

pub rewrite_type-mapped : (names : Messages) → mapped_type (last_name (rewrite_type names)) ≡ none
unfolding rewrite_type renamed_type last_name
rewrite_type-mapped names = elim (Option-cases (mapped_type (last_name names))) [
  | inl e ↦ rw e e
  | inr (mapped, e) ↦ rw e (mapped_type-mapped (last_name names) mapped e)
]

lookup-none :
    (key : Text) (d : Dict Text Text) → lookup key d ≡ none → All (λ (e : Text × Text). key ≢ e.0) d
unfolding lookup
lookup-none key [] h = tt
lookup-none key ((k, v) ∷ d) h = elim (Bool-cases (text_eq k key)) [
  | inl e ↦ absurd (ground (arith, h, e))
  | inr e ↦ (
    (λ same. ground (arith, e, (text_eq_iff k key).1 (sym same))),
    lookup-none key d (ground (arith, h, e)),
  )
]

pub mapped_type-none : (o : Option Text) → mapped_type o ≡ none → IsEngineType o
unfolding mapped_type type_mapping
mapped_type-none none h = tt
mapped_type-none (some name) h = lookup-none (to_lower name) type_mapping h
