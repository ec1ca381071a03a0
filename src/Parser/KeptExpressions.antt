-- ===== src/Parser/KeptExpressions.antt =====
-- The expressions of the parser keep what its moves, calls and loops keep: lines 156 to 1046 of
-- src/slp_parser.c.
use slp.Lexer.Token.{TokenType}
use slp.Parser.Ast.{Node}
use slp.Parser.Calls.{Calls, expression, parse_args}
use slp.Parser.Closed.{Moves, Called, Loops, moves_rules}
use slp.Parser.Expressions.{
  binary, negated_binary, unary, assignment, logical, postfix, index_acc, call, container, array,
  hash, tuple, grouping, block_expr, matched_text, match_either, optional_body, bridge,
  inline_prefix,
}
use slp.Parser.Keeps.{Keeps, keeps_rules}
use slp.Parser.Literals.{
  Numerals, number, literal, scalar_name, scalar, address_expr, class_expr, backtick_expr,
}
use slp.Parser.Objects.{
  object_target_starts_qualified_name, qualified_object_target, message_args, object_message,
  object_target, optional_args, object_rest, obj_expr, optional_expression, assert_message, command,
}
use slp.Parser.State.{Parser, Message}
use slp.Prelude.{arith, ◌+◌, ◌≡◌, subst, suc, ℕ, Bool, true, false, Bytes}

module _ {P : Parser → Type 0} (moves : Moves P) where
  pub scalar_name-Keeps : Keeps P scalar_name
  unfolding scalar_name
  scalar_name-Keeps = search moves_rules depth 14

  pub scalar-Keeps : Keeps P scalar
  unfolding scalar
  scalar-Keeps = search (moves_rules, scalar_name-Keeps) depth 14

  pub address_expr-Keeps : Keeps P address_expr
  unfolding address_expr
  address_expr-Keeps = search (moves_rules, scalar_name-Keeps) depth 14

  pub class_expr-Keeps : Keeps P class_expr
  unfolding class_expr
  class_expr-Keeps = search (moves_rules, scalar_name-Keeps) depth 14

  pub backtick_expr-Keeps : Keeps P backtick_expr
  unfolding backtick_expr
  backtick_expr-Keeps = search moves_rules depth 14

  pub number-Keeps : (n : Numerals) → Keeps P (number n)
  unfolding number
  number-Keeps n = search moves_rules depth 14

  pub literal-Keeps : Keeps P literal
  unfolding literal
  literal-Keeps = search moves_rules depth 14

  pub postfix-Keeps : (left : Node) → Keeps P (postfix left)
  unfolding postfix
  postfix-Keeps left = search moves_rules depth 14

  pub matched_text-Keeps : (b : Bool) → Keeps P (matched_text b)
  unfolding matched_text
  matched_text-Keeps false = search moves_rules depth 14
  matched_text-Keeps true = search moves_rules depth 14

  pub match_either-Keeps : (a b : TokenType) → Keeps P (match_either a b)
  unfolding match_either
  match_either-Keeps a b = search moves_rules depth 14

  pub starts_qualified_name-Keeps : Keeps P object_target_starts_qualified_name
  unfolding object_target_starts_qualified_name
  starts_qualified_name-Keeps = search moves_rules depth 14

module _ {P : Parser → Type 0} (c : Calls) (moves : Moves P) (called : Called c P)
    (loops : Loops c P) where
  pub expression-Keeps : Keeps P (expression c)
  unfolding expression
  expression-Keeps = called.parse_precedence 0

  -- The precedence above that of an operator.
  next_precedence-Keeps : (k : ℕ) → Keeps P (c.parse_precedence (k + 1))
  next_precedence-Keeps k =
      let e : suc k ≡ k + 1 = omega arith in
      subst (λ x. Keeps P (c.parse_precedence x)) e (called.parse_precedence k)

  pub parse_args-Keeps : (type : TokenType) → Keeps P (parse_args c type)
  unfolding parse_args
  parse_args-Keeps type = let h = loops.arg_loop in search (moves_rules, h) depth 14

  pub binary-Keeps : (k : ℕ) (left : Node) → Keeps P (binary c k left)
  unfolding binary
  binary-Keeps k left = search (moves_rules, next_precedence-Keeps) depth 14

  pub negated_binary-Keeps : (left : Node) → Keeps P (negated_binary c left)
  unfolding negated_binary
  negated_binary-Keeps left = let h = called.parse_precedence in search (moves_rules, h) depth 14

  pub unary-Keeps : Keeps P (unary c)
  unfolding unary
  unary-Keeps = let h = called.parse_precedence in search (moves_rules, h) depth 14

  pub assignment-Keeps : (left : Node) → Keeps P (assignment c left)
  unfolding assignment
  assignment-Keeps left = search (moves_rules, expression-Keeps) depth 14

  pub logical-Keeps : (k : ℕ) (left : Node) → Keeps P (logical c k left)
  unfolding logical
  logical-Keeps k left = search (moves_rules, next_precedence-Keeps) depth 14

  pub index_acc-Keeps : (left : Node) → Keeps P (index_acc c left)
  unfolding index_acc
  index_acc-Keeps left = search (moves_rules, expression-Keeps) depth 14

  pub call-Keeps : (left : Node) → Keeps P (call c left)
  unfolding call
  call-Keeps left = search (moves_rules, parse_args-Keeps) depth 14

  pub container-Keeps :
      (node : ℕ → Bytes → Node) (sign : Bytes) (before behind : Message)
      → Keeps P (container c node sign before behind)
  unfolding container
  container-Keeps node sign before behind = search (moves_rules, parse_args-Keeps) depth 14

  pub array-Keeps : Keeps P (array c)
  unfolding array
  array-Keeps = search container-Keeps

  pub hash-Keeps : Keeps P (hash c)
  unfolding hash
  hash-Keeps = search container-Keeps

  pub tuple-Keeps : (e : Node) → Keeps P (tuple c e)
  unfolding tuple
  tuple-Keeps e = let h = loops.tuple_loop in search (moves_rules, h) depth 14

  pub grouping-Keeps : Keeps P (grouping c)
  unfolding grouping
  grouping-Keeps = search (moves_rules, expression-Keeps, tuple-Keeps) depth 14

  pub block_expr-Keeps : Keeps P (block_expr c)
  unfolding block_expr
  block_expr-Keeps = let h = loops.block_loop in search (moves_rules, h) depth 14

  pub optional_body-Keeps : (b : Bool) → Keeps P (optional_body c b)
  unfolding optional_body
  optional_body-Keeps true = called.block
  optional_body-Keeps false = search keeps_rules depth 14

  pub bridge-Keeps : Keeps P (bridge c)
  unfolding bridge
  bridge-Keeps =
      search (moves_rules, matched_text-Keeps, match_either-Keeps, optional_body-Keeps) depth 14

  pub inline_prefix-Keeps : Keeps P (inline_prefix c)
  unfolding inline_prefix
  inline_prefix-Keeps = search (moves_rules, bridge-Keeps) depth 14

  pub qualified_object_target-Keeps : Keeps P (qualified_object_target)
  unfolding qualified_object_target
  qualified_object_target-Keeps = let h = loops.component_loop in search (moves_rules, h) depth 14

  pub message_args-Keeps : Keeps P (message_args c)
  unfolding message_args
  message_args-Keeps = search (moves_rules, parse_args-Keeps) depth 14

  pub object_message-Keeps : Keeps P (object_message c)
  unfolding object_message
  object_message-Keeps = search (moves_rules, expression-Keeps) depth 14

  pub object_target-Keeps : Keeps P (object_target c)
  unfolding object_target
  object_target-Keeps =
      search
        (moves_rules, expression-Keeps, starts_qualified_name-Keeps, qualified_object_target-Keeps)
        depth 14

  pub optional_args-Keeps : Keeps P (optional_args c)
  unfolding optional_args
  optional_args-Keeps = search (moves_rules, message_args-Keeps) depth 14

  pub object_rest-Keeps : Keeps P (object_rest c)
  unfolding object_rest
  object_rest-Keeps =
      search (moves_rules, message_args-Keeps, object_message-Keeps, optional_args-Keeps) depth 14

  pub obj_expr-Keeps : Keeps P (obj_expr c)
  unfolding obj_expr
  obj_expr-Keeps = search (moves_rules, object_target-Keeps, object_rest-Keeps) depth 14

  pub optional_expression-Keeps : (b : Bool) → Keeps P (optional_expression c b)
  unfolding optional_expression
  optional_expression-Keeps true = expression-Keeps
  optional_expression-Keeps false = search keeps_rules depth 14

  pub assert_message-Keeps : Keeps P (assert_message c)
  unfolding assert_message
  assert_message-Keeps = search (moves_rules, optional_expression-Keeps) depth 14

  pub command-Keeps : Keeps P (command c)
  unfolding command
  command-Keeps = search (moves_rules, optional_expression-Keeps, assert_message-Keeps) depth 14
