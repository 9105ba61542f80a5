-- ===== src/Tree.antt =====
-- The parse trees of pg_query_go, as far as translator.go and function.go look at them: the nodes that
-- they treat by type, with their fields, and any other node by its message fields. A Node that wraps
-- one message is that message. Parsing and deparsing are parameters, in `PgTrees`.
use pgmem.Common.{Bool, nat_Key}
use pgmem.Common.Text.{Text, text_Key}
use pgmem.Errors.{Fallible}

-- Kinds of A_Expr: ILIKE, LIKE and any other.
pub data ExprKind : Type 0 where
  ilike like other_kind : ExprKind

-- The flags of a FuncCall.
pub record CallFlags : Type 0 where
  pub agg_star : Bool
  pub agg_distinct : Bool
  pub func_variadic : Bool

mutual
  -- `func_call flags funcname args agg_order agg_filter over`, `range_var schemaname relname alias`,
  -- `type_name names rest`, `a_expr kind name operands`, `create_stmt relation table_elts rest`,
  -- `constraint pktable rest`; `string_node` is a Node of a String, `const_node` of a string constant.
  pub data Message : Type 0 where
    func_call : CallFlags → Messages → Messages → Messages → Optional → Optional → Message
    string_node : Text → Message
    const_node : Text → Message
    range_var : Text → Text → Optional → Message
    type_name : Messages → Messages → Message
    a_expr : ExprKind → Messages → Messages → Message
    create_stmt : Optional → Messages → Messages → Message
    constraint : Optional → Messages → Message
    other_node : Text → Messages → Message

  -- A list field.
  pub data Messages : Type 0 where
    nil : Messages
    cons : Message → Messages → Messages

  -- A message field, which may be nil.
  pub data Optional : Type 0 where
    absent : Optional
    present : Message → Optional

-- Parse, by the trees of the statements (one with no tree is left out), and Deparse.
pub record PgTrees : Type 0 where
  pub parse : Text → Fallible Messages
  pub deparse : Messages → Fallible Text
