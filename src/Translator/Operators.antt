-- ===== src/Translator/Operators.antt =====
-- The operators of LIKE and ILIKE expressions.
use pgmem.Translator.{
  clear_message, clear_messages, rewrite_tree, rewrite_trees, rename_operators, like_operator,
}
use pgmem.Tree.{Messages, ilike, like, other_kind, string_node, a_expr, ExprKind}
use pgmem.Common.{◌≢◌, arith, nat_Key}
use pgmem.Common.Text.{Text, codes, text_eq_iff, text_Key}

-- The operators of an expression are none of ILIKE's.
abbrev pub NoFold : Messages → Type 0
NoFold Messages.nil = Unit {0}
NoFold (Messages.cons (string_node s) ms) = (s ≢ codes "~~*") × (s ≢ codes "!~~*") × NoFold ms
NoFold (Messages.cons m ms) = NoFold ms

-- What an expression of a kind may be: no ILIKE, and none of its operators in a LIKE.
abbrev pub IsEngineExpr : ExprKind → Messages → Type 0
IsEngineExpr ilike names = ⊥
IsEngineExpr like names = NoFold names
IsEngineExpr other_kind names = Unit {0}

pub rename_operators-NoFold : (names : Messages) → NoFold (rename_operators names)
unfolding rename_operators like_operator
rename_operators-NoFold Messages.nil = tt
rename_operators-NoFold (Messages.cons (string_node s) ms) = (
  (λ e. ground (arith, e, (text_eq_iff s (codes "~~*")).1, (text_eq_iff s (codes "!~~*")).1)),
  (λ e. ground (arith, e, (text_eq_iff s (codes "~~*")).1, (text_eq_iff s (codes "!~~*")).1)),
  rename_operators-NoFold ms,
)
rename_operators-NoFold (Messages.cons m ms) = rename_operators-NoFold ms

clear_messages-NoFold :
    (t : Text) (names : Messages) → NoFold names → NoFold (clear_messages t names)
unfolding clear_message
clear_messages-NoFold t Messages.nil h = tt
clear_messages-NoFold t (Messages.cons (string_node s) ms) (a, b, h) =
    (a, b, clear_messages-NoFold t ms h)
clear_messages-NoFold t (Messages.cons m ms) h = clear_messages-NoFold t ms h

pub clear_messages-IsEngineExpr :
    (t : Text) (kind : ExprKind) (names : Messages)
    → IsEngineExpr kind names
    → IsEngineExpr kind (clear_messages t names)
clear_messages-IsEngineExpr t ilike names h = h
clear_messages-IsEngineExpr t like names h = clear_messages-NoFold t names h
clear_messages-IsEngineExpr t other_kind names h = tt

pub rewrite_trees-NoFold :
    (default_schema : Text) (names : Messages)
    → NoFold names
    → NoFold (rewrite_trees default_schema names)
unfolding rewrite_tree
rewrite_trees-NoFold d Messages.nil h = tt
rewrite_trees-NoFold d (Messages.cons (string_node s) ms) (a, b, h) =
    (a, b, rewrite_trees-NoFold d ms h)
rewrite_trees-NoFold d (Messages.cons (a_expr ilike names operands) ms) h =
    rewrite_trees-NoFold d ms h
rewrite_trees-NoFold d (Messages.cons (a_expr like names operands) ms) h =
    rewrite_trees-NoFold d ms h
rewrite_trees-NoFold d (Messages.cons (a_expr other_kind names operands) ms) h =
    rewrite_trees-NoFold d ms h
rewrite_trees-NoFold d (Messages.cons m ms) h = rewrite_trees-NoFold d ms h
