-- ===== src/Flatten/Statements.antt =====
-- src/semantics/semantics_nodes.ts: the statements that flatten.ts reads. A value (an expression)
-- is opaque, a number. `other_node` stands for the kinds that the translation has no case for
-- (EMPTY, VAR_DECLARE, TRY, THROW and so on).
use wasmnizer_ts.Base.{Bool, List, Option, ℕ}

pub record VarDecl : Type 0 where
  pub name : ℕ
  pub by_ref : Bool

infixr 67 ◌∷ₙ◌
mutual
  pub data Node : Type 0 where
    basic_block : List ℕ → Node
    return_node : Option ℕ → Node
    break_node : Node
    continue_node : Node
    block_node : Option (List VarDecl) → Nodes → Node
    if_node : ℕ → Node → OptNode → Node
    while_node : ℕ → OptNode → Node
    do_while_node : ℕ → OptNode → Node
    for_node : Option (List VarDecl) → OptNode → Option ℕ → OptNode → Option ℕ → Node
    switch_node : Cases → OptDefault → Node
    for_in_node : Node
    for_of_node : Node
    other_node : Node

  pub data Nodes : Type 0 where
    no_nodes : Nodes
    ◌∷ₙ◌ : Node → Nodes → Nodes

  pub data OptNode : Type 0 where
    absent : OptNode
    present : Node → OptNode

  -- The default clause, with its optional body.
  pub data OptDefault : Type 0 where
    no_default : OptDefault
    default : OptNode → OptDefault

  -- The case clauses, first to last.
  pub data Cases : Type 0 where
    no_cases : Cases
    case : ℕ → OptNode → Cases → Cases
