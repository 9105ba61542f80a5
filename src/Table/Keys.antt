-- ===== src/Table/Keys.antt =====
-- `sortedRowKeys`: the columns of a row, in order, and the parts of an INSERT that are built on them.
use pgmem.Quote.{quote_identifier}
use pgmem.Table.Plain.{
  entry, entry_lem, table_text, each_after, numbers_text, insert_text, table_text_lem, join_lem,
}
use pgmem.Table.{
  insert_statement, qualified_name, values_clause, add_key, sort_keys, sorted_row_keys, placeholder,
  insert_parts,
}
use pgmem.Common.{
  ℕ, suc, ◌+◌, ◌≡◌, inl, inr, refl, ◌∙◌, Bool, true, false, List, [], ◌∷◌, map, arith,
  if◌then◌else◌, Bool-cases, nat_Key, ◌++◌, ap, append_assoc,
}
use pgmem.Common.Text.{Text, text_eq, text_Key, text_le, codes, decimal}
use pgmem.Values.{Value, Row}

-- How often a text occurs.
unfoldable pub count : Text → List Text → ℕ
unfolding text_eq
count key [] = 0
count key (k ∷ keys) = let rest = count key keys in if text_eq k key then suc rest else rest

-- In the order of bytes.
abbrev pub IsSorted : List Text → Type 0
IsSorted [] = Unit {0}
IsSorted (k ∷ []) = Unit {0}
IsSorted (j ∷ k ∷ keys) = (text_le j k ≡ true) × IsSorted (k ∷ keys)

text_le_total : (s t : Text) → text_le s t ≡ false → text_le t s ≡ true
unfolding text_le
text_le_total [] t h = absurd (ground (arith, h))
text_le_total (c ∷ s) [] h = refl
text_le_total (c ∷ s) (d ∷ t) h = ground (arith, text_le_total s t)

count-add_key :
    (key k : Text) (keys : List Text) → count key (add_key k keys) ≡ count key (k ∷ keys)
unfolding count add_key
count-add_key key k [] = refl
count-add_key key k (j ∷ keys) = ground (arith, count-add_key key k keys)

count-sort_keys : (key : Text) (keys : List Text) → count key (sort_keys keys) ≡ count key keys
unfolding count sort_keys
count-sort_keys key [] = refl
count-sort_keys key (k ∷ keys) =
    count-add_key key k (sort_keys keys) ∙ ground (arith, count-sort_keys key keys)

below :
    (i k j : Text) (keys : List Text) (first : Bool)
    → text_le i j ≡ true
    → text_le i k ≡ true
    → IsSorted (if first then k ∷ j ∷ keys else j ∷ add_key k keys)
    → IsSorted (i ∷ (if first then k ∷ j ∷ keys else j ∷ add_key k keys))
below i k j keys true ij ik h = (ik, h)
below i k j keys false ij ik h = (ij, h)

add_key-IsSorted : (k : Text) (keys : List Text) → IsSorted keys → IsSorted (add_key k keys)
unfolding add_key
add_key-IsSorted k [] h = tt
add_key-IsSorted k (i ∷ []) h = elim (Bool-cases (text_le k i)) [
  | inl e ↦ rw e (e, tt)
  | inr e ↦ rw e (text_le_total k i e, tt)
]
add_key-IsSorted k (i ∷ j ∷ keys) h = elim (Bool-cases (text_le k i)) [
  | inl e ↦ rw e (e, h)
  | inr e ↦
      rw e (
        below i k j keys (text_le k j) h.0 (text_le_total k i e)
          (add_key-IsSorted k (j ∷ keys) h.1))
]

sort_keys-IsSorted : (keys : List Text) → IsSorted (sort_keys keys)
unfolding sort_keys
sort_keys-IsSorted [] = tt
sort_keys-IsSorted (k ∷ keys) = add_key-IsSorted k (sort_keys keys) (sort_keys-IsSorted keys)

-- The sorted keys of a row are in the order of bytes, and each text occurs among them as often as the
-- row has an entry for it.
pub sorted_row_keys-IsSorted :
    (row : Row)
    → IsSorted (sorted_row_keys row)
      × ((key : Text)
          → count key (sorted_row_keys row)
            ≡ count key (map (λ (entry : Text × Value). entry.0) row))
unfolding sorted_row_keys
sorted_row_keys-IsSorted row =
    let keys = map (λ (entry : Text × Value). entry.0) row in
    (sort_keys-IsSorted keys, λ key. count-sort_keys key keys)

quoted-insert_parts :
    (index : ℕ) (row : Row) (columns : List Text)
    → (insert_parts index row columns).0 ≡ map quote_identifier columns
unfolding insert_parts
quoted-insert_parts index row [] = refl
quoted-insert_parts index row (column ∷ columns) =
    ap (λ names. quote_identifier column ∷ names) (quoted-insert_parts (index + 1) row columns)

arguments-insert_parts :
    (index : ℕ) (row : Row) (columns : List Text)
    → (insert_parts index row columns).2 ≡ map (λ column. entry column row) columns
unfolding insert_parts
arguments-insert_parts index row [] = refl
arguments-insert_parts index row (column ∷ columns) =
    rw (entry_lem column row, arguments-insert_parts (index + 1) row columns) refl

-- What follows the first placeholder.
numbers-insert_parts :
    (index : ℕ) (row : Row) (columns : List Text)
    → each_after (codes ", ") (insert_parts index row columns).1 ≡ numbers_text (index + 1) columns
unfolding insert_parts each_after numbers_text
numbers-insert_parts index row [] = refl
numbers-insert_parts index row (column ∷ columns) =
    rw (numbers-insert_parts (index + 1) row columns) refl

regroup :
    (i t o q m v d n c r : Text)
    → i ++ t ++ (o ++ (q ++ m) ++ v ++ (d ++ n) ++ c) ++ r
      ≡ i ++ t ++ o ++ q ++ m ++ (v ++ d) ++ n ++ (c ++ r)
regroup i t o q m v d n c r = simp append_assoc

insert_text_lem :
    (table : Text) (row : Row) (columns : List Text)
    → codes "INSERT INTO "
        ++ table
        ++ values_clause columns (insert_parts 0 row columns)
        ++ codes " RETURNING *"
      ≡ insert_text table columns
unfolding values_clause insert_parts insert_text decimal
insert_text_lem table row [] = append_assoc (codes "INSERT INTO " ++ table) _ (codes " RETURNING *")
insert_text_lem table row (column ∷ columns) =
    rw
      (
        join_lem (quote_identifier column) (insert_parts 1 row columns).0 (codes ", "),
        join_lem (placeholder 1) (insert_parts 1 row columns).1 (codes ", "),
        quoted-insert_parts 1 row columns,
        numbers-insert_parts 1 row columns,
      )
      (regroup (codes "INSERT INTO ") table (codes " (") (quote_identifier column)
        (each_after (codes ", ") (map quote_identifier columns)) (codes ") VALUES (")
        (placeholder 1) (numbers_text 2 columns) (codes ")") (codes " RETURNING *"))

-- The statement of `InsertContext` is an INSERT of one row with the sorted columns of the row, quoted
-- and numbered from 1, or with DEFAULT VALUES where the row has none; its arguments are the row's
-- values of those columns, in that order.
pub insert_statement_lem :
    (schema name : Text) (row : Row)
    → let columns = sorted_row_keys row in
      insert_statement schema name row
      ≡ (insert_text (table_text schema name) columns, map (λ column. entry column row) columns)
unfolding insert_statement
insert_statement_lem schema name row =
    let columns = sorted_row_keys row in
    rw (← table_text_lem schema name, ← arguments-insert_parts 0 row columns)
      (ap (λ text. (text, (insert_parts 0 row columns).2))
        (insert_text_lem (qualified_name schema name) row columns))
