-- ===== src/Examples/Translator.antt =====
-- CREATE TABLE orders (user_id serial REFERENCES public.users); and name ILIKE 'a%' on audit.users.
use pgmem.Translator.{rewrite_trees}
use pgmem.Translator.Normal.{AreNormal, rewrite_trees-AreNormal, AreParsed}
use pgmem.Translator.References.{rewrite_trees-References}
use pgmem.Translator.Tables.{qualify, database_in, tables_in, FlatIn}
use pgmem.Tree.{
  Message, Messages, absent, present, range_var, type_name, string_node, const_node, a_expr, ilike,
  create_stmt, constraint, other_node,
}
use pgmem.Common.{◌≡◌, ◌≢◌, refl, true, [], ◌∷◌}
use pgmem.Common.Text.{codes}

abbrev one : Message → Messages
one m = Messages.cons m Messages.nil

abbrev orders : Message
orders =
    create_stmt (present (range_var [] (codes "orders") absent))
      (one (
        other_node (codes "ColumnDef") (
          Messages.cons (type_name (one (string_node (codes "serial"))) Messages.nil) (
            one (
              constraint (present (range_var (codes "public") (codes "users") absent))
                Messages.nil)))))
      Messages.nil

abbrev search_users : Message
search_users = other_node (codes "SelectStmt") (
    Messages.cons (range_var (codes "audit") (codes "users") absent)
      (one (a_expr ilike (one (string_node (codes "~~*"))) (one (const_node (codes "a%"))))))

abbrev statements : Messages
statements = Messages.cons orders (one search_users)

public_named : codes "public" ≢ []
public_named h = cc

rewrite_trees-References_example :
    tables_in true
      (qualify (codes "main"))
      (qualify (codes "main"))
      (rewrite_trees (codes "public") statements)
    ≡ ((codes "main", codes "orders")
        ∷ (codes "main", codes "users")
        ∷ (codes "audit", codes "users")
        ∷ [])
unfolding tables_in database_in FlatIn
rewrite_trees-References_example =
    rewrite_trees-References (codes "public") public_named statements
      ((refl, tt, ((refl, (tt, ((tt, tt), tt))), tt), tt), ((refl, (tt, ((tt, tt), tt))), tt))

rewrite_trees-AreNormal_example : AreNormal (rewrite_trees (codes "public") statements)
unfolding AreParsed
rewrite_trees-AreNormal_example =
    rewrite_trees-AreNormal (codes "public") statements
      ((tt, ((tt, ((tt, tt), tt)), tt), tt), ((tt, ((tt, tt), tt)), tt))
