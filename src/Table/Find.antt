-- ===== src/Table/Find.antt =====
-- The statement of `FindContext` asks for the rows that agree with the template.
use mathlib.Core.Path.{subst}
use pgmem.Table.{sorted_row_keys, find_statement}
use pgmem.Table.Plain.{entry, table_text, table_text_lem, filter_text, filter_text_lem}
use pgmem.Table.Keys.{count, sorted_row_keys-IsSorted}
use pgmem.Table.Conditions.{
  Condition, render, meets_all, agrees, agrees_all, conditions, arguments_of, find_parts_lem,
  meets_all-conditions,
}
use pgmem.Common.{
  suc, ◌<◌, ◌≡◌, ◌↔◌, inl, inr, refl, Bool, true, false, some, List, [], ◌∷◌, ◌++◌, map, arith,
  if◌then◌else◌, Bool-cases, nat_Key, sym,
}
use pgmem.Common.Dict.{lookup}
use pgmem.Common.Text.{Text, codes, text_eq, text_eq_iff, text_Key}
use pgmem.Common.TextLaws.{text_eq_refl}
use pgmem.Values.{Value, Row}

agrees_all-count :
    (matches : Value → Value → Bool) (row template : Row) (columns : List Text) (column : Text)
    → agrees_all matches row template columns ≡ true
    → 0 < count column columns
    → agrees matches (entry column template) (entry column row) ≡ true
unfolding agrees_all count
agrees_all-count matches row template [] column h m = absurd (omega arith)
agrees_all-count matches row template (c ∷ columns) column h m =
    ground (arith, text_eq_iff c column, agrees_all-count matches row template columns column)

agrees_all-intro :
    (matches : Value → Value → Bool) (row template : Row) (columns : List Text)
    → ((column : Text)
        → 0 < count column columns
        → agrees matches (entry column template) (entry column row) ≡ true)
    → agrees_all matches row template columns ≡ true
unfolding agrees_all count
agrees_all-intro matches row template [] h = refl
agrees_all-intro matches row template (c ∷ columns) h =
    let here : agrees matches (entry c template) (entry c row) ≡ true =
      h c (rw (text_eq_refl c) (omega arith)) in
    let later =
      agrees_all-intro matches row template columns
        λ column m. h column (more column (text_eq c column) m) in
    cc (here, later)
  where
    more :
        (column : Text) (here : Bool)
        → 0 < count column columns
        → 0 < (if here then suc (count column columns) else count column columns)
    more column true m = omega arith
    more column false m = m

-- A row has an entry for a column.
abbrev HasEntry : Text → Row → Type 0
HasEntry column row = (v : Value) × (lookup column row ≡ some v)

entry-count :
    (column : Text) (row : Row)
    → HasEntry column row
    → 0 < count column (map (λ (entry : Text × Value). entry.0) row)
unfolding count lookup
entry-count column [] (v, h) = absurd (ground (arith, h))
entry-count column ((c, u) ∷ row) (v, h) = elim (Bool-cases (text_eq c column)) [
  | inl e ↦ rw e (omega arith)
  | inr e ↦ rw e (entry-count column row (v, ground (arith, h, e)))
]

count-entry :
    (column : Text) (row : Row)
    → 0 < count column (map (λ (entry : Text × Value). entry.0) row)
    → HasEntry column row
unfolding count lookup
count-entry column [] h = absurd (omega arith)
count-entry column ((c, u) ∷ row) h = elim (Bool-cases (text_eq c column)) [
  | inl e ↦ (u, ground (arith, e))
  | inr e ↦ rw e (count-entry column row (ground (arith, h, e)))
]

entry-lookup :
    (column : Text) (row : Row) (v : Value) → lookup column row ≡ some v → entry column row ≡ v
unfolding entry
entry-lookup column row v h = rw (entry, h) refl

-- For every template, the statement of `FindContext` selects from the table by conditions that are
-- joined with AND, and with its arguments, whatever equality of values the engine has, a row meets all
-- of them exactly if for each entry of the template the row's column has the entry's value, or is NULL
-- where the value is nil.
pub find_statement_lem :
    (schema name : Text) (template : Row)
    → (conditions : List Condition) × (arguments : List Value) × (find_statement schema name
          template
        ≡ (
          codes "SELECT * FROM " ++ table_text schema name ++ filter_text (map render conditions),
          arguments,
        ))
      × ((matches : Value → Value → Bool) (row : Row)
          → (meets_all matches row arguments conditions ≡ true) ↔ (
              (column : Text) (v : Value)
              → lookup column template ≡ some v
              → agrees matches v (entry column row) ≡ true))
unfolding find_statement
find_statement_lem schema name template =
    let columns = sorted_row_keys template in
    let counts = (sorted_row_keys-IsSorted template).1 in
    (
      conditions template columns 0,
      arguments_of template columns,
      rw
          (
            ← table_text_lem schema name,
            ← filter_text_lem (map render (conditions template columns 0)),
            find_parts_lem template columns [],
          )
          refl,
      λ matches row.
          rw
            (meets_all-conditions matches row template columns [] (arguments_of template columns) 0
              refl refl)
            (
              (λ h column v found.
                  subst (λ u. agrees matches u (entry column row) ≡ true)
                    (entry-lookup column template v found)
                    (agrees_all-count matches row template columns column h
                      (rw (counts column) (entry-count column template (v, found))))),
              (λ h. agrees_all-intro matches row template columns λ column m.
                  let (v, found) =
                    count-entry column template (subst (λ n. 0 < n) (counts column) m) in
                  subst (λ u. agrees matches u (entry column row) ≡ true)
                    (sym (entry-lookup column template v found)) (h column v found)),
            ),
    )
