-- ===== src/Parser/Ast.antt =====
-- The nodes of the syntax tree: include/slp_parser.h.
use slp.Lexer.Token.{Token}
use slp.Prelude.{ℕ, Bool, Bytes, Option}

-- The nodes of a command with an optional value, and a message behind an assertion.
pub data Command : Type 0 where
  return' throw yield assert callcc halt done local this break continue nop : Command

-- Each node has its line first; `absent` is NULL. The texts of a node are those of its fields, in
-- their order. The capacity of a list of nodes is left out.
mutual
  pub data Node : Type 0 where
    absent : Node
    script block lvalue_tuple : ℕ → Nodes → Node
    boolean : ℕ → Bool → Node
    null nop : ℕ → Node
    long : ℕ → ℕ → Node
    -- Whether it is a double, and its 64-bit pattern.
    number : ℕ → Bool → ℕ → Node
    string scalar array hashtable identifier class_literal backtick address : ℕ → Bytes → Node
    -- The width, the value and the source.
    align : ℕ → Node → Node → Bytes → Node
    call : ℕ → Node → Nodes → Node
    assignment : ℕ → Node → Token → Node → Node
    -- With the mark of a negation.
    binop : ℕ → Node → Token → Node → Bool → Node
    -- With the mark of a postfix operator.
    unaryop : ℕ → Token → Node → Bool → Node
    if_stmt : ℕ → Node → Node → Node → Node
    while_stmt : ℕ → Node → Node → Node
    for_stmt : ℕ → Nodes → Node → Nodes → Node → Node
    foreach : ℕ → Option Bytes → Bytes → Node → Node → Node
    assign_loop : ℕ → Bytes → Node → Node → Node
    index : ℕ → Node → Node → Node
    -- The target, the message and the arguments.
    obj_expr : ℕ → Node → Node → Nodes → Node
    try_catch : ℕ → Node → Option Bytes → Node → Node
    control : ℕ → Command → Node → Node → Node
    -- The keyword, the identifier, the string and the body.
    env_bridge : ℕ → Option Bytes → Option Bytes → Option Bytes → Node → Node
    import : ℕ → Option Bytes → Option Bytes → Node
    -- The name and the value.
    arg : ℕ → Node → Node → Node

  pub data Nodes : Type 0 where
    nil : Nodes
    snoc : Nodes → Node → Nodes
