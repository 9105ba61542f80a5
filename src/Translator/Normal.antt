-- ===== src/Translator/Normal.antt =====
-- What is left of PostgreSQL in a statement that the translator has rewritten.
use pgmem.Translator.Types.{IsEngineType, rewrite_type-mapped, mapped_type-none}
use pgmem.Translator.Operators.{
  NoFold, IsEngineExpr, rename_operators-NoFold, clear_messages-IsEngineExpr, rewrite_trees-NoFold,
}
use mathlib.Core.Path.{subst}
use pgmem.Translator.{
  engine_schema, rewrite_type, clear_qualifier, clear_message, clear_messages, clear_optional,
  created, rewrite_tree, rewrite_trees, rewrite_field, last_name, like_expr,
}
use pgmem.Translator.Cleared.{table_or}
use pgmem.Tree.{
  Message, Messages, Optional, ilike, like, other_kind, func_call, string_node, const_node,
  range_var, type_name, a_expr, create_stmt, constraint, other_node, absent, present,
}
use pgmem.Common.{◌≡◌, ◌≢◌, refl, [], arith, if◌then◌else◌, nat_Key, inl, inr, sym}
use pgmem.Common.Text.{Text, codes, text_eq, text_eq_iff, text_Key}

-- No RangeVar is in the schema public, no type has a name that only PostgreSQL has, no expression is an
-- ILIKE, and no LIKE has an operator of it. The names of types and of operators are Strings.
unfoldable mutual
  pub IsNormal : Message → Type 0
  IsNormal (func_call flags names args agg_order agg_filter over) =
      AreNormal names
      × AreNormal args
      × AreNormal agg_order
      × IsNormalField agg_filter
      × IsNormalField over
  IsNormal (string_node s) = Unit
  IsNormal (const_node s) = Unit
  IsNormal (range_var schema relation alias) = (schema ≢ codes "public") × IsNormalField alias
  IsNormal (type_name names rest) = IsEngineType (last_name names) × AreNormal rest
  IsNormal (a_expr kind names operands) = IsEngineExpr kind names × AreNormal operands
  IsNormal (create_stmt relation elements rest) =
      IsNormalField relation × AreNormal elements × AreNormal rest
  IsNormal (constraint table rest) = IsNormalField table × AreNormal rest
  IsNormal (other_node tag fields) = AreNormal fields

  pub AreNormal : Messages → Type 0
  AreNormal Messages.nil = Unit
  AreNormal (Messages.cons m ms) = IsNormal m × AreNormal ms

  pub IsNormalField : Optional → Type 0
  IsNormalField absent = Unit
  IsNormalField (present m) = IsNormal m

-- The LIKE expressions of a tree have none of ILIKE's operators, as the parser gives them.
unfoldable mutual
  pub IsParsed : Message → Type 0
  IsParsed (func_call flags names args agg_order agg_filter over) =
      AreParsed names
      × AreParsed args
      × AreParsed agg_order
      × IsParsedField agg_filter
      × IsParsedField over
  IsParsed (string_node s) = Unit
  IsParsed (const_node s) = Unit
  IsParsed (range_var schema relation alias) = IsParsedField alias
  IsParsed (type_name names rest) = AreParsed rest
  IsParsed (a_expr like names operands) = NoFold names × AreParsed operands
  IsParsed (a_expr ilike names operands) = AreParsed operands
  IsParsed (a_expr other_kind names operands) = AreParsed operands
  IsParsed (create_stmt relation elements rest) =
      IsParsedField relation × AreParsed elements × AreParsed rest
  IsParsed (constraint table rest) = IsParsedField table × AreParsed rest
  IsParsed (other_node tag fields) = AreParsed fields

  pub AreParsed : Messages → Type 0
  AreParsed Messages.nil = Unit
  AreParsed (Messages.cons m ms) = IsParsed m × AreParsed ms

  pub IsParsedField : Optional → Type 0
  IsParsedField absent = Unit
  IsParsedField (present m) = IsParsed m

engine_schema-public :
    (default_schema schema : Text) → engine_schema default_schema schema ≢ codes "public"
unfolding engine_schema
engine_schema-public default_schema schema h = ground (
  arith,
  h,
  (text_eq_iff schema (codes "public")).1,
  (text_eq_iff schema []).0,
  (text_eq_iff default_schema (codes "public")).1,
)

cleared-public :
    (t s : Text) → s ≢ codes "public" → (if text_eq s t then [] else s) ≢ codes "public"
cleared-public t s n h = ground (arith, h, n)

clear_qualifier-IsNormalField :
    (t : Text) (o : Optional) → IsNormalField o → IsNormalField (clear_qualifier t o)
unfolding clear_qualifier IsNormal
clear_qualifier-IsNormalField t o n = elim (table_or o) [
  | inl (s, r, a, e) ↦
      let (schema, alias) = subst IsNormalField e n in
      subst (λ o. IsNormalField (clear_qualifier t o)) (sym e) (cleared-public t s schema, alias)
  | inr (cleared, none_created, none_owned) ↦ subst IsNormalField (sym (cleared t)) n
]

last_name-clear_messages :
    (t : Text) (names : Messages) → last_name (clear_messages t names) ≡ last_name names
unfolding last_name clear_message
last_name-clear_messages t Messages.nil = refl
last_name-clear_messages t
      (Messages.cons (func_call flags names args agg_order agg_filter over) Messages.nil) =
    refl
last_name-clear_messages t (Messages.cons (string_node s) Messages.nil) = refl
last_name-clear_messages t (Messages.cons (const_node s) Messages.nil) = refl
last_name-clear_messages t (Messages.cons (range_var schema relation alias) Messages.nil) = refl
last_name-clear_messages t (Messages.cons (type_name names rest) Messages.nil) = refl
last_name-clear_messages t (Messages.cons (a_expr kind names operands) Messages.nil) = refl
last_name-clear_messages t (Messages.cons (create_stmt relation elements rest) Messages.nil) = refl
last_name-clear_messages t (Messages.cons (constraint table rest) Messages.nil) = refl
last_name-clear_messages t (Messages.cons (other_node tag fields) Messages.nil) = refl
last_name-clear_messages t (Messages.cons m (Messages.cons n ns)) =
    last_name-clear_messages t (Messages.cons n ns)

module _ (t : Text) where
  mutual
    unfolding clear_message IsNormal

    clear_message-IsNormal : (m : Message) → IsNormal m → IsNormal (clear_message t m)
    clear_message-IsNormal (func_call flags names args agg_order agg_filter over) (f, g, h, k, l) =
        (
          clear_messages-AreNormal names f,
          clear_messages-AreNormal args g,
          clear_messages-AreNormal agg_order h,
          clear_optional-IsNormalField agg_filter k,
          clear_optional-IsNormalField over l,
        )
    clear_message-IsNormal (string_node s) n = tt
    clear_message-IsNormal (const_node s) n = tt
    clear_message-IsNormal (range_var s r alias) (f, g) = (f, clear_optional-IsNormalField alias g)
    clear_message-IsNormal (type_name names rest) (f, g) = (
      subst IsEngineType (sym (last_name-clear_messages t names)) f,
      clear_messages-AreNormal rest g,
    )
    clear_message-IsNormal (a_expr kind names operands) (f, g) =
        (clear_messages-IsEngineExpr t kind names f, clear_messages-AreNormal operands g)
    clear_message-IsNormal (create_stmt relation elements rest) (f, g, h) = (
      clear_optional-IsNormalField relation f,
      clear_messages-AreNormal elements g,
      clear_messages-AreNormal rest h,
    )
    clear_message-IsNormal (constraint table rest) (f, g) = (
      clear_qualifier-IsNormalField t (clear_optional t table)
          (clear_optional-IsNormalField table f),
      clear_messages-AreNormal rest g,
    )
    clear_message-IsNormal (other_node tag fields) n = clear_messages-AreNormal fields n

    clear_messages-AreNormal : (ms : Messages) → AreNormal ms → AreNormal (clear_messages t ms)
    clear_messages-AreNormal Messages.nil n = tt
    clear_messages-AreNormal (Messages.cons m ms) (f, g) =
        (clear_message-IsNormal m f, clear_messages-AreNormal ms g)

    clear_optional-IsNormalField :
        (o : Optional) → IsNormalField o → IsNormalField (clear_optional t o)
    clear_optional-IsNormalField absent n = tt
    clear_optional-IsNormalField (present m) n = clear_message-IsNormal m n

created-AreNormal :
    (o : Optional) (elements : Messages) → AreNormal elements → AreNormal (created o elements)
unfolding created
created-AreNormal o elements n = elim (table_or o) [
  | inl (s, r, a, e) ↦
      subst (λ o. AreNormal (created o elements)) (sym e) (clear_messages-AreNormal s elements n)
  | inr (cleared, none_created, none_owned) ↦ subst AreNormal (sym (none_created elements)) n
]

module _ (default_schema : Text) where
  mutual
    unfolding rewrite_tree IsNormal IsParsed like_expr

    rewrite_tree-IsNormal : (m : Message) → IsParsed m → IsNormal (rewrite_tree default_schema m)
    rewrite_tree-IsNormal (func_call flags names args agg_order agg_filter over) (f, g, h, k, l) = (
      rewrite_list-AreNormal names f,
      rewrite_list-AreNormal args g,
      rewrite_list-AreNormal agg_order h,
      rewrite_field-IsNormalField agg_filter k,
      rewrite_field-IsNormalField over l,
    )
    rewrite_tree-IsNormal (string_node s) p = tt
    rewrite_tree-IsNormal (const_node s) p = tt
    rewrite_tree-IsNormal (range_var s r alias) p =
        (engine_schema-public default_schema s, rewrite_field-IsNormalField alias p)
    rewrite_tree-IsNormal (type_name names rest) p = (
      mapped_type-none (last_name (rewrite_type (rewrite_trees default_schema names)))
          (rewrite_type-mapped (rewrite_trees default_schema names)),
      rewrite_list-AreNormal rest p,
    )
    rewrite_tree-IsNormal (a_expr ilike names operands) p = (
      rename_operators-NoFold (rewrite_trees default_schema names),
      rewrite_list-AreNormal operands p,
    )
    rewrite_tree-IsNormal (a_expr like names operands) (n, p) =
        (rewrite_trees-NoFold default_schema names n, rewrite_list-AreNormal operands p)
    rewrite_tree-IsNormal (a_expr other_kind names operands) p =
        (tt, rewrite_list-AreNormal operands p)
    rewrite_tree-IsNormal (create_stmt relation elements rest) (f, g, h) = (
      rewrite_field-IsNormalField relation f,
      created-AreNormal (rewrite_field default_schema relation)
          (rewrite_trees default_schema elements) (rewrite_list-AreNormal elements g),
      rewrite_list-AreNormal rest h,
    )
    rewrite_tree-IsNormal (constraint table rest) (f, g) =
        (rewrite_field-IsNormalField table f, rewrite_list-AreNormal rest g)
    rewrite_tree-IsNormal (other_node tag fields) p = rewrite_list-AreNormal fields p

    rewrite_list-AreNormal :
        (ms : Messages) → AreParsed ms → AreNormal (rewrite_trees default_schema ms)
    rewrite_list-AreNormal Messages.nil p = tt
    rewrite_list-AreNormal (Messages.cons m ms) (f, g) =
        (rewrite_tree-IsNormal m f, rewrite_list-AreNormal ms g)

    rewrite_field-IsNormalField :
        (o : Optional) → IsParsedField o → IsNormalField (rewrite_field default_schema o)
    rewrite_field-IsNormalField absent p = tt
    rewrite_field-IsNormalField (present m) p = rewrite_tree-IsNormal m p

-- In the rewritten statements, whatever the default schema, no RangeVar is in the schema public, no
-- type's last name is, in any case of its letters, one of the thirteen that only PostgreSQL has, no
-- expression is an ILIKE, and no LIKE has an operator of ILIKE, if no LIKE of the statements has one.
-- Tables that are named by Strings, those of DROP TABLE for one, are not spoken of.
pub rewrite_trees-AreNormal :
    (default_schema : Text) (trees : Messages)
    → AreParsed trees
    → AreNormal (rewrite_trees default_schema trees)
rewrite_trees-AreNormal default_schema trees parsed =
    rewrite_list-AreNormal default_schema trees parsed
