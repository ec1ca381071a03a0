-- ===== src/Parser/Kinds.antt =====
-- A number for each type of include/slp_lexer.h, so that a test of equality is one of numbers.
use slp.Lexer.Token.{TokenType}
use slp.Prelude.{ℕ, Bool, ◌==◌}

unfoldable pub type_number : TokenType → ℕ
type_number TokenType.bang = 0
type_number TokenType.dot = 1
type_number TokenType.ampersand = 2
type_number TokenType.at = 3
type_number TokenType.comma = 4
type_number TokenType.slash = 5
type_number TokenType.equal = 6
type_number TokenType.percent = 7
type_number TokenType.backslash = 8
type_number TokenType.minus = 9
type_number TokenType.plus = 10
type_number TokenType.lower_x = 11
type_number TokenType.star = 12
type_number TokenType.caret = 13
type_number TokenType.pipe = 14
type_number TokenType.colon = 15
type_number TokenType.semicolon = 16
type_number TokenType.right_brace = 17
type_number TokenType.left_brace = 18
type_number TokenType.left_bracket = 19
type_number TokenType.right_bracket = 20
type_number TokenType.left_paren = 21
type_number TokenType.right_paren = 22
type_number TokenType.less = 23
type_number TokenType.greater = 24
type_number TokenType.assert = 25
type_number TokenType.break = 26
type_number TokenType.callcc = 27
type_number TokenType.catch = 28
type_number TokenType.continue = 29
type_number TokenType.done = 30
type_number TokenType.else' = 31
type_number TokenType.for = 32
type_number TokenType.foreach = 33
type_number TokenType.from = 34
type_number TokenType.halt = 35
type_number TokenType.if' = 36
type_number TokenType.import = 37
type_number TokenType.return = 38
type_number TokenType.throw = 39
type_number TokenType.try = 40
type_number TokenType.while = 41
type_number TokenType.yield = 42
type_number TokenType.inline = 43
type_number TokenType.sub = 44
type_number TokenType.copy = 45
type_number TokenType.addall = 46
type_number TokenType.println = 47
type_number TokenType.removeall = 48
type_number TokenType.retainall = 49
type_number TokenType.local = 50
type_number TokenType.this = 51
type_number TokenType.andequal = 52
type_number TokenType.catequal = 53
type_number TokenType.divequal = 54
type_number TokenType.lshiftequal = 55
type_number TokenType.minusequal = 56
type_number TokenType.orequal = 57
type_number TokenType.plusequal = 58
type_number TokenType.rshiftequal = 59
type_number TokenType.timesequal = 60
type_number TokenType.xorequal = 61
type_number TokenType.address = 62
type_number TokenType.arg_passed_by_name = 63
type_number TokenType.arrow = 64
type_number TokenType.backtick_expr = 65
type_number TokenType.class_literal = 66
type_number TokenType.dec = 67
type_number TokenType.double = 68
type_number TokenType.eof = 69
type_number TokenType.eq = 70
type_number TokenType.eqi = 71
type_number TokenType.exp = 72
type_number TokenType.expequal = 73
type_number TokenType.true' = 74
type_number TokenType.false' = 75
type_number TokenType.ge = 76
type_number TokenType.id = 77
type_number TokenType.import_path = 78
type_number TokenType.inc = 79
type_number TokenType.land = 80
type_number TokenType.le = 81
type_number TokenType.literal = 82
type_number TokenType.long = 83
type_number TokenType.lor = 84
type_number TokenType.lshift = 85
type_number TokenType.ne = 86
type_number TokenType.neqi = 87
type_number TokenType.null = 88
type_number TokenType.number = 89
type_number TokenType.rshift = 90
type_number TokenType.scalar = 91
type_number TokenType.spaceship = 92
type_number TokenType.string = 93
type_number TokenType.unary_predicate_bridge = 94
type_number TokenType.builtin_binary_predicate_bridge = 95
type_number TokenType.bin_pred = 96
type_number TokenType.error = 97

unfoldable pub same_type : TokenType → TokenType → Bool
unfolding type_number
same_type a b = type_number a == type_number b
