-- ===== src/Table/Conditions.antt =====
-- What the statement of `FindContext` asks for: its predicates with its arguments, read as conditions
-- on a row.
use pgmem.Table.Plain.{null_value, null_value_lem, entry, entry_lem}
use pgmem.Quote.{quote_identifier}
use pgmem.Table.{find_part, find_parts}
use pgmem.Common.{
  ℕ, ◌+◌, ◌-◌, ◌≡◌, inl, inr, refl, sym, ap, ◌∙◌, Bool, true, false, ◌&&◌, Option, none, some, List,
  [], ◌∷◌, ◌++◌, map, append_assoc, append-nil, arith, if◌then◌else◌, Bool-cases, nat_Key, length,
  get_elem?, length-append,
}
use pgmem.Common.Text.{Text, codes, text_Key, decimal}
use pgmem.Values.{Value, Row}

-- A predicate: a column is NULL, or it equals the argument with that number, from 1.
pub data Condition : Type 0 where
  is_null : Text → Condition
  equals : Text → ℕ → Condition

pub render : Condition → Text
unfolding quote_identifier
render (is_null column) = quote_identifier column ++ codes " IS NULL"
render (equals column number) = quote_identifier column ++ codes " = $" ++ decimal number

-- A value of a row is the one wanted, with the engine's equality of values, or both are NULL.
abbrev pub agrees : (Value → Value → Bool) → Value → Value → Bool
agrees matches wanted v = if null_value wanted then null_value v else matches wanted v

module _ (matches : Value → Value → Bool) (row : Row) where
  equals_argument : Option Value → Value → Bool
  equals_argument none v = false
  equals_argument (some argument) v = matches argument v

  -- Whether a row meets a condition, with the engine's equality of values.
  pub meets : List Value → Condition → Bool
  unfolding equals_argument
  meets arguments (is_null column) = null_value (entry column row)
  meets arguments (equals column number) =
      equals_argument (get_elem? arguments (number - 1)) (entry column row)

  pub meets_all : List Value → List Condition → Bool
  unfolding meets
  meets_all arguments [] = true
  meets_all arguments (c ∷ cs) = meets arguments c && meets_all arguments cs

  unfoldable pub agrees_all : Row → List Text → Bool
  agrees_all template [] = true
  agrees_all template (column ∷ columns) =
      agrees matches (entry column template) (entry column row) && agrees_all template columns

get_elem?-append :
    (before : List Value) (v : Value) (after : List Value)
    → get_elem? (before ++ v ∷ after) (length before) ≡ some v
get_elem?-append [] v after = refl
get_elem?-append (b ∷ before) v after = get_elem?-append before v after

add_sub : (n : ℕ) → n + 1 - 1 ≡ n
add_sub n = omega arith

pub conditions : Row → List Text → ℕ → List Condition
conditions template [] count = []
conditions template (column ∷ columns) count =
    if null_value (entry column template)
    then is_null column ∷ conditions template columns count
    else equals column (count + 1) ∷ conditions template columns (count + 1)

pub arguments_of : Row → List Text → List Value
arguments_of template [] = []
arguments_of template (column ∷ columns) =
    let rest = arguments_of template columns in
    if null_value (entry column template) then rest else entry column template ∷ rest

pub find_parts_lem :
    (template : Row) (columns : List Text) (arguments : List Value)
    → find_parts template columns arguments ≡ (
      map render (conditions template columns (length arguments)),
      arguments ++ arguments_of template columns,
    )
unfolding find_parts find_part conditions arguments_of render
find_parts_lem template [] arguments = ap (λ a. ([], a)) (sym (append-nil arguments))
find_parts_lem template (column ∷ columns) arguments =
    let v = entry column template in
    let read = entry_lem column template in
    elim (Bool-cases (null_value v)) [
      | inl e ↦ rw (read, null_value_lem v, e, find_parts_lem template columns arguments) refl
      | inr e ↦
          rw
            (
              read,
              null_value_lem v,
              e,
              find_parts_lem template columns (arguments ++ v ∷ []),
              length-append arguments (v ∷ []),
              append_assoc,
            )
            refl
    ]

meets_equals :
    (matches : Value → Value → Bool) (row : Row) (before : List Value) (v : Value)
    (rest : List Value) (column : Text)
    → meets matches row (before ++ v ∷ rest) (equals column (length before + 1))
      ≡ matches v (entry column row)
unfolding meets equals_argument
meets_equals matches row before v rest column =
    rw (add_sub (length before), get_elem?-append before v rest) refl

meets_is_null :
    (matches : Value → Value → Bool) (row : Row) (arguments : List Value) (column : Text)
    → meets matches row arguments (is_null column) ≡ null_value (entry column row)
unfolding meets
meets_is_null matches row arguments column = refl

pub meets_all-conditions :
    (matches : Value → Value → Bool) (row template : Row) (columns : List Text)
    (before whole : List Value) (count : ℕ)
    → whole ≡ before ++ arguments_of template columns
    → count ≡ length before
    → meets_all matches row whole (conditions template columns count)
      ≡ agrees_all matches row template columns
unfolding meets_all agrees_all conditions arguments_of
meets_all-conditions matches row template [] before whole count h n = refl
meets_all-conditions matches row template (column ∷ columns) before whole count h n =
    let v = entry column template in
    let rest = arguments_of template columns in
    elim (Bool-cases (null_value v)) [
      | inl e ↦ ground (
        arith,
        e,
        meets_is_null matches row whole column,
        meets_all-conditions matches row template columns before whole count (ground (arith, h, e))
            n,
      )
      | inr e ↦
          let whole_is : whole ≡ before ++ v ∷ rest = ground (arith, h, e) in
          let later =
            meets_all-conditions matches row template columns (before ++ v ∷ []) whole (count + 1)
              (whole_is ∙ sym (append_assoc before (v ∷ []) rest))
              (omega (arith, n, length-append before (v ∷ []))) in
          rw (e, later, whole_is, n, meets_equals matches row before v rest column) refl
    ]
