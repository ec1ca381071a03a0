-- ===== src/Parser/Rules.antt =====
-- The table of rules: lines 1052 to 1143 of src/slp_parser.c.
use slp.Lexer.Token.{TokenType}
use slp.Parser.Ast.{Node}
use slp.Parser.Calls.{Calls, expression}
use slp.Parser.Expressions.{
  binary, negated_binary, unary, assignment, logical, postfix, index_acc, call, array, hash,
  grouping, block_expr, bridge, inline_prefix,
}
use slp.Parser.Literals.{
  Numerals, identifier, string_val, number, literal, scalar, address_expr, class_expr,
  backtick_expr,
}
use slp.Parser.Objects.{obj_expr, command}
use slp.Parser.State.{Do, pure}
use slp.Prelude.{ℕ, Option, some, none}

unfoldable pub prefix_rule : Numerals → Calls → TokenType → Option (Do Node)
prefix_rule n c TokenType.left_paren = some (grouping c)
prefix_rule n c TokenType.left_brace = some (block_expr c)
prefix_rule n c TokenType.left_bracket = some (obj_expr c)
prefix_rule n c TokenType.minus = some (unary c)
prefix_rule n c TokenType.plus = some (unary c)
prefix_rule n c TokenType.bang = some (unary c)
prefix_rule n c TokenType.id = some identifier
prefix_rule n c TokenType.string = some (string_val (expression c))
prefix_rule n c TokenType.literal = some (string_val (expression c))
prefix_rule n c TokenType.number = some (number n)
prefix_rule n c TokenType.double = some (number n)
prefix_rule n c TokenType.long = some (number n)
prefix_rule n c TokenType.true' = some literal
prefix_rule n c TokenType.false' = some literal
prefix_rule n c TokenType.null = some literal
prefix_rule n c TokenType.scalar = some scalar
prefix_rule n c TokenType.at = some (array c)
prefix_rule n c TokenType.percent = some (hash c)
prefix_rule n c TokenType.backtick_expr = some backtick_expr
prefix_rule n c TokenType.unary_predicate_bridge = some (unary c)
prefix_rule n c TokenType.address = some address_expr
prefix_rule n c TokenType.class_literal = some class_expr
prefix_rule n c TokenType.arg_passed_by_name = some address_expr
prefix_rule n c TokenType.copy = some identifier
prefix_rule n c TokenType.addall = some identifier
prefix_rule n c TokenType.println = some identifier
prefix_rule n c TokenType.removeall = some identifier
prefix_rule n c TokenType.retainall = some identifier
prefix_rule n c TokenType.assert = some (command c)
prefix_rule n c TokenType.break = some (command c)
prefix_rule n c TokenType.continue = some (command c)
prefix_rule n c TokenType.done = some (command c)
prefix_rule n c TokenType.halt = some (command c)
prefix_rule n c TokenType.return = some (command c)
prefix_rule n c TokenType.throw = some (command c)
prefix_rule n c TokenType.yield = some (command c)
prefix_rule n c TokenType.callcc = some (command c)
prefix_rule n c TokenType.sub = some (bridge c)
prefix_rule n c TokenType.inline = some (inline_prefix c)
prefix_rule n c TokenType.local = some (command c)
prefix_rule n c TokenType.this = some (command c)
prefix_rule n c TokenType.inc = some (unary c)
prefix_rule n c TokenType.dec = some (unary c)
prefix_rule n c _ = none

-- A token that has no infix function leaves the expression.
unfoldable pub infix_rule : Calls → TokenType → Node → Do Node
infix_rule c TokenType.left_paren left = call c left
infix_rule c TokenType.left_bracket left = index_acc c left
infix_rule c TokenType.dot left = binary c 10 left
infix_rule c TokenType.minus left = binary c 11 left
infix_rule c TokenType.plus left = binary c 11 left
infix_rule c TokenType.slash left = binary c 12 left
infix_rule c TokenType.star left = binary c 12 left
infix_rule c TokenType.bang left = negated_binary c left
infix_rule c TokenType.ne left = binary c 7 left
infix_rule c TokenType.equal left = assignment c left
infix_rule c TokenType.eq left = binary c 7 left
infix_rule c TokenType.eqi left = binary c 7 left
infix_rule c TokenType.neqi left = binary c 7 left
infix_rule c TokenType.spaceship left = binary c 7 left
infix_rule c TokenType.greater left = binary c 8 left
infix_rule c TokenType.ge left = binary c 8 left
infix_rule c TokenType.less left = binary c 8 left
infix_rule c TokenType.le left = binary c 8 left
infix_rule c TokenType.land left = logical c 3 left
infix_rule c TokenType.lor left = logical c 2 left
infix_rule c TokenType.percent left = binary c 12 left
infix_rule c TokenType.lower_x left = binary c 12 left
infix_rule c TokenType.builtin_binary_predicate_bridge left = binary c 7 left
infix_rule c TokenType.ampersand left = binary c 6 left
infix_rule c TokenType.pipe left = binary c 4 left
infix_rule c TokenType.caret left = binary c 5 left
infix_rule c TokenType.lshift left = binary c 9 left
infix_rule c TokenType.rshift left = binary c 9 left
infix_rule c TokenType.exp left = binary c 15 left
infix_rule c TokenType.andequal left = assignment c left
infix_rule c TokenType.catequal left = assignment c left
infix_rule c TokenType.divequal left = assignment c left
infix_rule c TokenType.lshiftequal left = assignment c left
infix_rule c TokenType.minusequal left = assignment c left
infix_rule c TokenType.orequal left = assignment c left
infix_rule c TokenType.plusequal left = assignment c left
infix_rule c TokenType.rshiftequal left = assignment c left
infix_rule c TokenType.timesequal left = assignment c left
infix_rule c TokenType.xorequal left = assignment c left
infix_rule c TokenType.expequal left = assignment c left
infix_rule c TokenType.inc left = postfix left
infix_rule c TokenType.dec left = postfix left
infix_rule c _ left = pure left

-- The places in ParsePrecedence.
unfoldable pub precedence_of : TokenType → ℕ
precedence_of TokenType.left_paren = 16
precedence_of TokenType.left_bracket = 16
precedence_of TokenType.dot = 10
precedence_of TokenType.minus = 11
precedence_of TokenType.plus = 11
precedence_of TokenType.slash = 12
precedence_of TokenType.star = 12
precedence_of TokenType.bang = 13
precedence_of TokenType.ne = 7
precedence_of TokenType.equal = 1
precedence_of TokenType.eq = 7
precedence_of TokenType.eqi = 7
precedence_of TokenType.neqi = 7
precedence_of TokenType.spaceship = 7
precedence_of TokenType.greater = 8
precedence_of TokenType.ge = 8
precedence_of TokenType.less = 8
precedence_of TokenType.le = 8
precedence_of TokenType.land = 3
precedence_of TokenType.lor = 2
precedence_of TokenType.percent = 12
precedence_of TokenType.lower_x = 12
precedence_of TokenType.builtin_binary_predicate_bridge = 7
precedence_of TokenType.unary_predicate_bridge = 13
precedence_of TokenType.ampersand = 6
precedence_of TokenType.pipe = 4
precedence_of TokenType.caret = 5
precedence_of TokenType.lshift = 9
precedence_of TokenType.rshift = 9
precedence_of TokenType.exp = 15
precedence_of TokenType.andequal = 1
precedence_of TokenType.catequal = 1
precedence_of TokenType.divequal = 1
precedence_of TokenType.lshiftequal = 1
precedence_of TokenType.minusequal = 1
precedence_of TokenType.orequal = 1
precedence_of TokenType.plusequal = 1
precedence_of TokenType.rshiftequal = 1
precedence_of TokenType.timesequal = 1
precedence_of TokenType.xorequal = 1
precedence_of TokenType.expequal = 1
precedence_of TokenType.inc = 14
precedence_of TokenType.dec = 14
precedence_of _ = 0
