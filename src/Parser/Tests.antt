-- ===== src/Parser/Tests.antt =====
-- The parser on concrete texts: src/slp_parser.c.
use slp.Lexer.Scan.{
  emit, scan_suffix, scan_fraction, is_exponent, has_dot, lexeme, scan_decimal, scan_number,
  scan_equal, scan_scalar, scan_dollar, scan_symbol, scan_char, scan_token,
}
use slp.Lexer.State.{
  codes, is_digit, is_alpha, peek, is_at_end, lexer_match, lexeme_length, make_token, skip_while,
  advance_while, skip_rounds, skip_whitespace, lexer_init,
}
use slp.Parser.Calls.{expression}
use slp.Parser.Declarations.{
  at_inline, at_bridge, named_declaration, import_declaration, inline_declaration, declaration,
  calls, script_round, parse_script, parse,
}
use slp.Parser.Expressions.{assignment}
use slp.Parser.Kinds.{same_type}
use slp.Parser.Literals.{Numerals, previous, number, scalar_name, scalar}
use slp.Parser.Precedence.{
  juxtaposed, climbs, infix_round, climb, parse_precedence_inner, enter, leave, guarded,
  parse_precedence,
}
use slp.Parser.Rules.{prefix_rule, infix_rule, precedence_of}
use slp.Parser.State.{
  Parser, text, pure, gets, ◌>>=◌, size, rounds, loop, parser_init, scan, next_token, shift,
  advance, check, match, line,
}
use slp.Parser.Statements.{
  terminator, expression_statement, simple_statement, when_matched, statement_inner, statement,
}
use slp.Parser.Total.{parse_total}
use slp.Parser.Ends.{AtEnd, parse-eof}
use slp.Parser.Errors.{SameReport, Reported, calls-first_error, parse-Reported}
use slp.Prelude.{arith, suc, ℕ, ◌≡◌, refl, Bytes, some, true, false}

abbrev numerals : Numerals
numerals = record { strtoll = λ text. 7; strtod = λ text. 9 }

abbrev assigns : Bytes
assigns = codes "$x=1;"

abbrev lacks_comma : Bytes
lacks_comma = codes "foo($k => %(a => 1 b), 2);"

abbrev after : Bytes → Parser
after source = (parse (calls numerals 24) (parser_init source)).1

assigns-clean : (after assigns).had_error ≡ false
unfolding pure gets ◌>>=◌ size rounds loop parser_init scan next_token shift advance check match
    line same_type at_inline at_bridge named_declaration import_declaration inline_declaration
    declaration calls script_round parse_script parse juxtaposed climbs infix_round climb
    parse_precedence_inner enter leave guarded parse_precedence terminator expression_statement
    simple_statement when_matched statement_inner statement expression assignment prefix_rule
    infix_rule precedence_of previous number scalar_name scalar is_digit is_alpha peek is_at_end
    slp.Lexer.State.advance lexer_match lexeme_length make_token skip_while advance_while
    skip_rounds skip_whitespace lexer_init emit scan_suffix scan_fraction is_exponent has_dot lexeme
    scan_decimal scan_number scan_equal scan_scalar scan_dollar scan_symbol scan_char scan_token
assigns-clean = refl

parse-eof_example : AtEnd (after assigns)
parse-eof_example = parse-eof numerals 24 assigns (omega arith) assigns-clean

parse-Reported_example : Reported (after lacks_comma)
parse-Reported_example = parse-Reported numerals 24 lacks_comma

-- Inside the text, behind an error.
abbrev failed : Parser
failed = record (after lacks_comma) {
  had_error = true;
  panic_mode = true;
  error_line = 1;
  error_message = some (text "Expect expression.");
}

calls-first_error_example :
    let c = calls numerals 24 in
    ((precedence : ℕ) → SameReport failed (c.parse_precedence (suc precedence) failed).1)
    × SameReport failed (c.statement failed).1
    × SameReport failed (c.declaration failed).1
    × SameReport failed (c.block failed).1
calls-first_error_example = calls-first_error numerals 24 failed refl refl

parse_total_example : (after assigns).exhausted ≡ false
parse_total_example = parse_total numerals 24 assigns (omega arith)
