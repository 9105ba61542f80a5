-- ===== src/Translator/Cleared.antt =====
-- The end of a CREATE TABLE: what clearing qualifiers keeps.
use pgmem.Translator.Tables.{qualify, owner, tables, tables_in, tables_of, Flat, FlatIn, FlatOf}
use mathlib.Core.Path.{subst}
use pgmem.Translator.{clear_qualifier, clear_message, clear_messages, clear_optional, created}
use pgmem.Tree.{
  Message, Messages, Optional, func_call, string_node, const_node, range_var, type_name, a_expr,
  create_stmt, constraint, other_node, absent, present,
}
use pgmem.Common.{◌≡◌, refl, true, [], ◌∷◌, arith, if◌then◌else◌, nat_Key, ◌⊎◌, inl, inr, sym, ap}
use pgmem.Common.Text.{Text, text_eq, text_eq_iff, text_Key}

-- An Optional is a table, or nothing is cleared and created in it.
pub table_or :
    (o : Optional)
    → ((s : Text) × (r : Text) × (a : Optional) × (o ≡ present (range_var s r a)))
      ⊎ (((t : Text) → clear_qualifier t o ≡ o)
          × ((e : Messages) → created o e ≡ e)
          × ((key : Text → Text) (name : Text) → owner true key o name ≡ key name))
unfolding clear_qualifier created owner
table_or absent = inr ((λ t. refl), (λ e. refl), (λ k n. refl))
table_or (present (range_var s r a)) = inl (s, r, a, refl)
table_or (present (func_call flags names args agg_order agg_filter over)) =
    inr ((λ t. refl), (λ e. refl), (λ k n. refl))
table_or (present (string_node s)) = inr ((λ t. refl), (λ e. refl), (λ k n. refl))
table_or (present (const_node s)) = inr ((λ t. refl), (λ e. refl), (λ k n. refl))
table_or (present (type_name names rest)) = inr ((λ t. refl), (λ e. refl), (λ k n. refl))
table_or (present (a_expr kind names operands)) = inr ((λ t. refl), (λ e. refl), (λ k n. refl))
table_or (present (create_stmt relation elements rest)) =
    inr ((λ t. refl), (λ e. refl), (λ k n. refl))
table_or (present (constraint table rest)) = inr ((λ t. refl), (λ e. refl), (λ k n. refl))
table_or (present (other_node tag fields)) = inr ((λ t. refl), (λ e. refl), (λ k n. refl))

qualify-cleared : (t s : Text) → qualify t (if text_eq s t then [] else s) ≡ qualify t s
unfolding qualify
qualify-cleared t s = ground (arith, (text_eq_iff s t).0, (text_eq_iff s []).0)

tables_of-clear_qualifier :
    (t : Text) (o : Optional)
    → tables_of true (qualify t) (qualify t) (clear_qualifier t o)
      ≡ tables_of true (qualify t) (qualify t) o
unfolding clear_qualifier tables_of
tables_of-clear_qualifier t o = elim (table_or o) [
  | inl (s, r, a, e) ↦
      subst
        (λ o.
          tables_of true (qualify t) (qualify t) (clear_qualifier t o)
          ≡ tables_of true (qualify t) (qualify t) o)
        (sym e) (ap (λ q. (q, r) ∷ tables_of true (qualify t) (qualify t) a) (qualify-cleared t s))
  | inr (cleared, none_created, none_owned) ↦
      ap (tables_of true (qualify t) (qualify t)) (cleared t)
]

-- Clearing the qualifiers that name the table's own database changes no table that the engine reads.
module _ (t : Text) where
  mutual
    unfolding clear_message tables Flat

    clear_message-tables :
        (read : Text → Text) (m : Message)
        → Flat true m
        → tables true read (qualify t) (clear_message t m) ≡ tables true read (qualify t) m
    clear_message-tables read (func_call flags names args agg_order agg_filter over)
          (f, g, h, k, l) =
        cc (
          clear_messages-tables read names f,
          clear_messages-tables read args g,
          clear_messages-tables read agg_order h,
          clear_optional-tables read agg_filter k,
          clear_optional-tables read over l,
        )
    clear_message-tables read (string_node s) f = refl
    clear_message-tables read (const_node s) f = refl
    clear_message-tables read (range_var s r alias) f = cc (clear_optional-tables read alias f)
    clear_message-tables read (type_name names rest) f = cc (clear_messages-tables read rest f)
    clear_message-tables read (a_expr kind names operands) f =
        cc (clear_messages-tables read operands f)
    clear_message-tables read (create_stmt relation elements rest) (f, g, h, k) =
        absurd (ground arith)
    clear_message-tables read (constraint table rest) (f, g) = cc (
      tables_of-clear_qualifier t (clear_optional t table),
      clear_optional-tables (qualify t) table f,
      clear_messages-tables read rest g,
    )
    clear_message-tables read (other_node tag fields) (n, f) =
        cc (clear_messages-tables read fields f)

    clear_messages-tables :
        (read : Text → Text) (ms : Messages)
        → FlatIn true ms
        → tables_in true read (qualify t) (clear_messages t ms) ≡ tables_in true read (qualify t) ms
    clear_messages-tables read Messages.nil f = refl
    clear_messages-tables read (Messages.cons m ms) (f, g) =
        cc (clear_message-tables read m f, clear_messages-tables read ms g)

    clear_optional-tables :
        (read : Text → Text) (o : Optional)
        → FlatOf true o
        → tables_of true read (qualify t) (clear_optional t o) ≡ tables_of true read (qualify t) o
    clear_optional-tables read absent f = refl
    clear_optional-tables read (present m) f = clear_message-tables read m f

pub owner_is_qualify :
    (P : (Text → Text) → Type 0) (c : Text) (o : Optional)
    → ((d : Text) → P (qualify d))
    → P (owner true (qualify c) o)
unfolding owner
owner_is_qualify P c o h = elim (table_or o) [
  | inl (s, r, a, e) ↦ subst (λ o. P (owner true (qualify c) o)) (sym e) (h s)
  | inr (cleared, none_created, none_owned) ↦
      subst P (λ i name. sym (none_owned (qualify c) name) i) (h c)
]

pub created-tables :
    (read : Text → Text) (c : Text) (o : Optional) (elements : Messages)
    → FlatIn true elements
    → tables_in true read (owner true (qualify c) o) (created o elements)
      ≡ tables_in true read (owner true (qualify c) o) elements
unfolding owner created
created-tables read c o elements f = elim (table_or o) [
  | inl (s, r, a, e) ↦
      subst
        (λ o.
          tables_in true read (owner true (qualify c) o) (created o elements)
          ≡ tables_in true read (owner true (qualify c) o) elements)
        (sym e) (clear_messages-tables s read elements f)
  | inr (cleared, none_created, none_owned) ↦
      ap (tables_in true read (owner true (qualify c) o)) (none_created elements)
]
