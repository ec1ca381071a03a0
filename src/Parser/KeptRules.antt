-- ===== src/Parser/KeptRules.antt =====
-- The table of rules keeps what the moves, calls and loops keep: lines 1052 to 1230 of
-- src/slp_parser.c.
use slp.Lexer.Token.{TokenType}
use slp.Parser.Ast.{Node}
use slp.Parser.Calls.{Calls}
use slp.Parser.Closed.{Moves, Called, Loops, moves_rules, identifier-Keeps}
use slp.Parser.Keeps.{Keeps, keeps_rules}
use slp.Parser.KeptExpressions.{
  address_expr-Keeps, array-Keeps, assignment-Keeps, backtick_expr-Keeps, binary-Keeps,
  block_expr-Keeps, bridge-Keeps, call-Keeps, class_expr-Keeps, command-Keeps, grouping-Keeps,
  hash-Keeps, index_acc-Keeps, inline_prefix-Keeps, literal-Keeps, logical-Keeps,
  negated_binary-Keeps, number-Keeps, obj_expr-Keeps, postfix-Keeps, scalar-Keeps, unary-Keeps,
}
use slp.Parser.Literals.{Numerals, previous}
use slp.Parser.Precedence.{
  juxtaposed, infix_round, climb, parse_precedence_inner, guarded, parse_precedence,
}
use slp.Parser.Rules.{prefix_rule, infix_rule}
use slp.Parser.State.{◌>>=◌, Parser, Do, Message, loop}
use slp.Prelude.{suc, ℕ, Option, some, none}

abbrev pub KeepsRule : (Parser → Type 0) → Option (Do Node) → Type 0
KeepsRule P none = Unit
KeepsRule P (some m) = Keeps P m

module _ {P : Parser → Type 0} (moves : Moves P) where
  pub guarded-Keeps : (message : Message) (m : Do Node) → Keeps P m → Keeps P (guarded message m)
  unfolding guarded
  guarded-Keeps message m h = search moves_rules depth 14

module _ {P : Parser → Type 0} (n : Numerals) (c : Calls) (moves : Moves P) (called : Called c P)
    (loops : Loops c P) where
  pub prefix_rule-Keeps : (type : TokenType) → KeepsRule P (prefix_rule n c type)
  unfolding prefix_rule
  prefix_rule-Keeps TokenType.left_paren = grouping-Keeps c moves called loops
  prefix_rule-Keeps TokenType.left_brace = block_expr-Keeps c moves called loops
  prefix_rule-Keeps TokenType.left_bracket = obj_expr-Keeps c moves called loops
  prefix_rule-Keeps TokenType.minus = unary-Keeps c moves called loops
  prefix_rule-Keeps TokenType.plus = unary-Keeps c moves called loops
  prefix_rule-Keeps TokenType.bang = unary-Keeps c moves called loops
  prefix_rule-Keeps TokenType.id = identifier-Keeps moves
  prefix_rule-Keeps TokenType.string = loops.quoted
  prefix_rule-Keeps TokenType.literal = loops.quoted
  prefix_rule-Keeps TokenType.number = number-Keeps moves n
  prefix_rule-Keeps TokenType.double = number-Keeps moves n
  prefix_rule-Keeps TokenType.long = number-Keeps moves n
  prefix_rule-Keeps TokenType.true' = literal-Keeps moves
  prefix_rule-Keeps TokenType.false' = literal-Keeps moves
  prefix_rule-Keeps TokenType.null = literal-Keeps moves
  prefix_rule-Keeps TokenType.scalar = scalar-Keeps moves
  prefix_rule-Keeps TokenType.at = array-Keeps c moves called loops
  prefix_rule-Keeps TokenType.percent = hash-Keeps c moves called loops
  prefix_rule-Keeps TokenType.backtick_expr = backtick_expr-Keeps moves
  prefix_rule-Keeps TokenType.unary_predicate_bridge = unary-Keeps c moves called loops
  prefix_rule-Keeps TokenType.address = address_expr-Keeps moves
  prefix_rule-Keeps TokenType.class_literal = class_expr-Keeps moves
  prefix_rule-Keeps TokenType.arg_passed_by_name = address_expr-Keeps moves
  prefix_rule-Keeps TokenType.copy = identifier-Keeps moves
  prefix_rule-Keeps TokenType.addall = identifier-Keeps moves
  prefix_rule-Keeps TokenType.println = identifier-Keeps moves
  prefix_rule-Keeps TokenType.removeall = identifier-Keeps moves
  prefix_rule-Keeps TokenType.retainall = identifier-Keeps moves
  prefix_rule-Keeps TokenType.assert = command-Keeps c moves called loops
  prefix_rule-Keeps TokenType.break = command-Keeps c moves called loops
  prefix_rule-Keeps TokenType.continue = command-Keeps c moves called loops
  prefix_rule-Keeps TokenType.done = command-Keeps c moves called loops
  prefix_rule-Keeps TokenType.halt = command-Keeps c moves called loops
  prefix_rule-Keeps TokenType.return = command-Keeps c moves called loops
  prefix_rule-Keeps TokenType.throw = command-Keeps c moves called loops
  prefix_rule-Keeps TokenType.yield = command-Keeps c moves called loops
  prefix_rule-Keeps TokenType.callcc = command-Keeps c moves called loops
  prefix_rule-Keeps TokenType.sub = bridge-Keeps c moves called loops
  prefix_rule-Keeps TokenType.inline = inline_prefix-Keeps c moves called loops
  prefix_rule-Keeps TokenType.local = command-Keeps c moves called loops
  prefix_rule-Keeps TokenType.this = command-Keeps c moves called loops
  prefix_rule-Keeps TokenType.inc = unary-Keeps c moves called loops
  prefix_rule-Keeps TokenType.dec = unary-Keeps c moves called loops
  prefix_rule-Keeps _ = tt

  pub infix_rule-Keeps : (type : TokenType) (left : Node) → Keeps P (infix_rule c type left)
  unfolding infix_rule
  infix_rule-Keeps TokenType.left_paren left = call-Keeps c moves called loops left
  infix_rule-Keeps TokenType.left_bracket left = index_acc-Keeps c moves called loops left
  infix_rule-Keeps TokenType.dot left = binary-Keeps c moves called loops 10 left
  infix_rule-Keeps TokenType.minus left = binary-Keeps c moves called loops 11 left
  infix_rule-Keeps TokenType.plus left = binary-Keeps c moves called loops 11 left
  infix_rule-Keeps TokenType.slash left = binary-Keeps c moves called loops 12 left
  infix_rule-Keeps TokenType.star left = binary-Keeps c moves called loops 12 left
  infix_rule-Keeps TokenType.bang left = negated_binary-Keeps c moves called loops left
  infix_rule-Keeps TokenType.ne left = binary-Keeps c moves called loops 7 left
  infix_rule-Keeps TokenType.equal left = assignment-Keeps c moves called loops left
  infix_rule-Keeps TokenType.eq left = binary-Keeps c moves called loops 7 left
  infix_rule-Keeps TokenType.eqi left = binary-Keeps c moves called loops 7 left
  infix_rule-Keeps TokenType.neqi left = binary-Keeps c moves called loops 7 left
  infix_rule-Keeps TokenType.spaceship left = binary-Keeps c moves called loops 7 left
  infix_rule-Keeps TokenType.greater left = binary-Keeps c moves called loops 8 left
  infix_rule-Keeps TokenType.ge left = binary-Keeps c moves called loops 8 left
  infix_rule-Keeps TokenType.less left = binary-Keeps c moves called loops 8 left
  infix_rule-Keeps TokenType.le left = binary-Keeps c moves called loops 8 left
  infix_rule-Keeps TokenType.land left = logical-Keeps c moves called loops 3 left
  infix_rule-Keeps TokenType.lor left = logical-Keeps c moves called loops 2 left
  infix_rule-Keeps TokenType.percent left = binary-Keeps c moves called loops 12 left
  infix_rule-Keeps TokenType.lower_x left = binary-Keeps c moves called loops 12 left
  infix_rule-Keeps TokenType.builtin_binary_predicate_bridge left =
      binary-Keeps c moves called loops 7 left
  infix_rule-Keeps TokenType.ampersand left = binary-Keeps c moves called loops 6 left
  infix_rule-Keeps TokenType.pipe left = binary-Keeps c moves called loops 4 left
  infix_rule-Keeps TokenType.caret left = binary-Keeps c moves called loops 5 left
  infix_rule-Keeps TokenType.lshift left = binary-Keeps c moves called loops 9 left
  infix_rule-Keeps TokenType.rshift left = binary-Keeps c moves called loops 9 left
  infix_rule-Keeps TokenType.exp left = binary-Keeps c moves called loops 15 left
  infix_rule-Keeps TokenType.andequal left = assignment-Keeps c moves called loops left
  infix_rule-Keeps TokenType.catequal left = assignment-Keeps c moves called loops left
  infix_rule-Keeps TokenType.divequal left = assignment-Keeps c moves called loops left
  infix_rule-Keeps TokenType.lshiftequal left = assignment-Keeps c moves called loops left
  infix_rule-Keeps TokenType.minusequal left = assignment-Keeps c moves called loops left
  infix_rule-Keeps TokenType.orequal left = assignment-Keeps c moves called loops left
  infix_rule-Keeps TokenType.plusequal left = assignment-Keeps c moves called loops left
  infix_rule-Keeps TokenType.rshiftequal left = assignment-Keeps c moves called loops left
  infix_rule-Keeps TokenType.timesequal left = assignment-Keeps c moves called loops left
  infix_rule-Keeps TokenType.xorequal left = assignment-Keeps c moves called loops left
  infix_rule-Keeps TokenType.expequal left = assignment-Keeps c moves called loops left
  infix_rule-Keeps TokenType.inc left = postfix-Keeps moves left
  infix_rule-Keeps TokenType.dec left = postfix-Keeps moves left
  infix_rule-Keeps _ left = search keeps_rules

  juxtaposed-Keeps : (e : Node) → Keeps P (juxtaposed e)
  unfolding juxtaposed
  juxtaposed-Keeps (Node.string l s) = let h = loops.string_loop in search (moves_rules, h) depth 14
  juxtaposed-Keeps _ = search keeps_rules

  -- With the loop over the infix operators.
  module _ (climbing : (k : ℕ) (e : Node) → Keeps P (loop (infix_round c (suc k)) e)) where
    climb-Keeps :
        (k : ℕ) (rule : Option (Do Node)) → KeepsRule P rule → Keeps P (climb c (suc k) rule)
    unfolding climb
    climb-Keeps k none h = search moves_rules depth 14
    climb-Keeps k (some prefix) h = search (keeps_rules, juxtaposed-Keeps, climbing) depth 14

    -- Behind the token that the rule is looked up for.
    pub behind_token-Keeps :
        (k : ℕ)
        → let m : Do Node = previous >>= λ token. climb c (suc k) (prefix_rule n c token.type) in
          Keeps P m
    behind_token-Keeps k = search (moves_rules, climb-Keeps, prefix_rule-Keeps) depth 14

    pub parse_precedence_inner-Keeps : (k : ℕ) → Keeps P (parse_precedence_inner n c (suc k))
    unfolding parse_precedence_inner
    parse_precedence_inner-Keeps k = search (moves_rules, climb-Keeps, prefix_rule-Keeps) depth 14

    pub parse_precedence-Keeps : (k : ℕ) → Keeps P (parse_precedence n c (suc k))
    unfolding parse_precedence
    parse_precedence-Keeps k = guarded-Keeps moves _ _ (parse_precedence_inner-Keeps k)
