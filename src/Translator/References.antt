-- ===== src/Translator/References.antt =====
-- The tables that a statement names, as PostgreSQL reads it with a default schema and as the engine
-- reads its translation.
use pgmem.Translator.Tables.{
  qualify, owner, tables, tables_in, tables_of, Flat, FlatIn, FlatOf, database_in,
  qualify-engine_schema,
}
use pgmem.Translator.Cleared.{owner_is_qualify, created-tables}
use pgmem.Translator.{rewrite_tree, rewrite_trees, rewrite_field}
use pgmem.Tree.{
  Message, Messages, Optional, ilike, like, other_kind, func_call, string_node, const_node,
  range_var, type_name, a_expr, create_stmt, constraint, other_node, absent, present,
}
use pgmem.Common.{◌≡◌, ◌≢◌, refl, Bool, true, false, [], arith, nat_Key}
use pgmem.Common.Text.{Text, codes, text_Key}

module _ (default_schema : Text) where
  mutual
    unfolding rewrite_tree Flat

    rewrite_tree-Flat : (m : Message) → Flat true m → Flat true (rewrite_tree default_schema m)
    rewrite_tree-Flat (func_call flags names args agg_order agg_filter over) (f, g, h, k, l) = (
      rewrite_trees-Flat names f,
      rewrite_trees-Flat args g,
      rewrite_trees-Flat agg_order h,
      rewrite_field-Flat agg_filter k,
      rewrite_field-Flat over l,
    )
    rewrite_tree-Flat (string_node s) f = tt
    rewrite_tree-Flat (const_node s) f = tt
    rewrite_tree-Flat (range_var s r alias) f = rewrite_field-Flat alias f
    rewrite_tree-Flat (type_name names rest) f = rewrite_trees-Flat rest f
    rewrite_tree-Flat (a_expr ilike names operands) f = rewrite_trees-Flat operands f
    rewrite_tree-Flat (a_expr like names operands) f = rewrite_trees-Flat operands f
    rewrite_tree-Flat (a_expr other_kind names operands) f = rewrite_trees-Flat operands f
    rewrite_tree-Flat (create_stmt relation elements rest) (f, g, h, k) = absurd (ground arith)
    rewrite_tree-Flat (constraint table rest) (f, g) =
        (rewrite_field-Flat table f, rewrite_trees-Flat rest g)
    rewrite_tree-Flat (other_node tag fields) (n, f) = (n, rewrite_trees-Flat fields f)

    rewrite_trees-Flat :
        (ms : Messages) → FlatIn true ms → FlatIn true (rewrite_trees default_schema ms)
    rewrite_trees-Flat Messages.nil f = tt
    rewrite_trees-Flat (Messages.cons m ms) (f, g) =
        (rewrite_tree-Flat m f, rewrite_trees-Flat ms g)

    rewrite_field-Flat :
        (o : Optional) → FlatOf true o → FlatOf true (rewrite_field default_schema o)
    rewrite_field-Flat absent f = tt
    rewrite_field-Flat (present m) f = rewrite_tree-Flat m f

  module _ (named : default_schema ≢ []) where
    mutual
      unfolding rewrite_tree tables owner Flat database_in

      rewrite_tree-tables :
          (i : Bool) (c d : Text) (m : Message)
          → Flat i m
          → tables true (qualify c) (qualify d) (rewrite_tree default_schema m)
            ≡ tables false (database_in default_schema) (database_in default_schema) m
      rewrite_tree-tables i c d (func_call flags names args agg_order agg_filter over)
            (f, g, h, k, l) =
          cc (
            rewrite_trees-tables i c d names f,
            rewrite_trees-tables i c d args g,
            rewrite_trees-tables i c d agg_order h,
            rewrite_field-tables i c d agg_filter k,
            rewrite_field-tables i c d over l,
          )
      rewrite_tree-tables i c d (string_node s) f = refl
      rewrite_tree-tables i c d (const_node s) f = refl
      rewrite_tree-tables i c d (range_var s r alias) f =
          cc (qualify-engine_schema default_schema s c named, rewrite_field-tables i c d alias f)
      rewrite_tree-tables i c d (type_name names rest) f = rewrite_trees-tables i c d rest f
      rewrite_tree-tables i c d (a_expr ilike names operands) f =
          rewrite_trees-tables i c d operands f
      rewrite_tree-tables i c d (a_expr like names operands) f =
          rewrite_trees-tables i c d operands f
      rewrite_tree-tables i c d (a_expr other_kind names operands) f =
          rewrite_trees-tables i c d operands f
      rewrite_tree-tables i c d (create_stmt relation elements rest) (top, f, g, h) = cc (
        rewrite_field-tables i c d relation f,
        created-tables (qualify c) d (rewrite_field default_schema relation)
            (rewrite_trees default_schema elements) (rewrite_trees-Flat elements g),
        owner_is_qualify
            (λ key.
              tables_in true (qualify c) key (rewrite_trees default_schema elements)
              ≡ tables_in false (database_in default_schema) (database_in default_schema) elements)
            d (rewrite_field default_schema relation)
            (λ e. rewrite_trees-tables true c e elements g),
        rewrite_trees-tables i c d rest h,
      )
      rewrite_tree-tables i c d (constraint table rest) (f, g) =
          cc (rewrite_field-tables i d d table f, rewrite_trees-tables i c d rest g)
      rewrite_tree-tables i c d (other_node tag fields) (n, f) = rewrite_trees-tables i c d fields f

      rewrite_trees-tables :
          (i : Bool) (c d : Text) (ms : Messages)
          → FlatIn i ms
          → tables_in true (qualify c) (qualify d) (rewrite_trees default_schema ms)
            ≡ tables_in false (database_in default_schema) (database_in default_schema) ms
      rewrite_trees-tables i c d Messages.nil f = refl
      rewrite_trees-tables i c d (Messages.cons m ms) (f, g) =
          cc (rewrite_tree-tables i c d m f, rewrite_trees-tables i c d ms g)

      rewrite_field-tables :
          (i : Bool) (c d : Text) (o : Optional)
          → FlatOf i o
          → tables_of true (qualify c) (qualify d) (rewrite_field default_schema o)
            ≡ tables_of false (database_in default_schema) (database_in default_schema) o
      rewrite_field-tables i c d absent f = refl
      rewrite_field-tables i c d (present m) f = rewrite_tree-tables i c d m f

    -- Where the default schema is not empty, no statement creates a table within the elements of
    -- another, and none is a DROP, a COMMENT or a SECURITY LABEL (whose tables are named by Strings)
    -- or has a WITH clause: the tables that the rewritten statements name by RangeVars are for the
    -- engine, in order, those that the statements name so for PostgreSQL with the default schema,
    -- each in the database of its schema. The engine reads an unqualified table in main, and one that
    -- a foreign key references in the database of the table that is created.
    pub rewrite_trees-References :
        (trees : Messages)
        → FlatIn false trees
        → tables_in true
            (qualify (codes "main"))
            (qualify (codes "main"))
            (rewrite_trees default_schema trees)
          ≡ tables_in false (database_in default_schema) (database_in default_schema) trees
    rewrite_trees-References trees flat =
        rewrite_trees-tables false (codes "main") (codes "main") trees flat
