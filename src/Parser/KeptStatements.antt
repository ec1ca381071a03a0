-- ===== src/Parser/KeptStatements.antt =====
-- Statements and declarations keep what the moves, calls and loops keep: lines 1230 to 1564 of
-- src/slp_parser.c.
use slp.Lexer.Token.{TokenType}
use slp.Parser.Ast.{Node}
use slp.Parser.Calls.{Calls, block}
use slp.Parser.Closed.{Moves, Called, Loops, moves_rules}
use slp.Parser.Declarations.{
  append_previous, import_part, import_target, import_path, import_statement, at_inline, at_bridge,
  named_declaration, import_declaration, inline_declaration, declaration,
}
use slp.Parser.Keeps.{Keeps, keeps_rules}
use slp.Parser.KeptExpressions.{
  expression-Keeps, bridge-Keeps, matched_text-Keeps, match_either-Keeps, scalar_name-Keeps,
}
use slp.Parser.KeptRules.{guarded-Keeps}
use slp.Parser.Literals.{Numerals}
use slp.Parser.State.{Parser, Do, Message}
use slp.Parser.Statements.{
  terminator, expression_statement, else_branch, in_parens, if_statement, matched_name,
  while_statement, for_condition, for_statement, variable_name, foreach_value, foreach_names,
  foreach_statement, try_statement, simple_statement, when_matched, nop_statement, statement_inner,
  statement,
}
use slp.Prelude.{Bool, true, false, Bytes}

module _ {P : Parser → Type 0} (moves : Moves P) where
  pub terminator-Keeps : Keeps P (terminator)
  unfolding terminator
  terminator-Keeps = search moves_rules depth 14

  pub matched_name-Keeps : (b : Bool) → Keeps P (matched_name b)
  unfolding matched_name
  matched_name-Keeps false = search keeps_rules
  matched_name-Keeps true = search (moves_rules, scalar_name-Keeps) depth 14

  pub variable_name-Keeps : Keeps P (variable_name)
  unfolding variable_name
  variable_name-Keeps = search (moves_rules, scalar_name-Keeps) depth 14

  pub foreach_value-Keeps : (s : Bytes) → Keeps P (foreach_value s)
  unfolding foreach_value
  foreach_value-Keeps s = search (moves_rules, variable_name-Keeps) depth 14

  pub foreach_names-Keeps : Keeps P (foreach_names)
  unfolding foreach_names
  foreach_names-Keeps = search (moves_rules, variable_name-Keeps, foreach_value-Keeps) depth 14

  pub nop_statement-Keeps : Keeps P (nop_statement)
  unfolding nop_statement
  nop_statement-Keeps = search moves_rules depth 14

  pub append_previous-Keeps : (s : Bytes) (b : Bool) → Keeps P (append_previous s b)
  unfolding append_previous
  append_previous-Keeps s false = search keeps_rules
  append_previous-Keeps s true = search moves_rules depth 14

  pub import_part-Keeps : Keeps P (import_part)
  unfolding import_part
  import_part-Keeps = search (moves_rules, match_either-Keeps) depth 14

  pub import_path-Keeps : Keeps P (import_path)
  unfolding import_path
  import_path-Keeps = search (moves_rules, match_either-Keeps, matched_text-Keeps) depth 14

  pub at_inline-Keeps : Keeps P (at_inline)
  unfolding at_inline
  at_inline-Keeps = search moves_rules depth 14

  pub at_bridge-Keeps : Keeps P (at_bridge)
  unfolding at_bridge
  at_bridge-Keeps = search moves_rules depth 14

  pub when_matched-Keeps :
      (type : TokenType) (m o : Do Node) → Keeps P m → Keeps P o → Keeps P (when_matched type m o)
  unfolding when_matched
  when_matched-Keeps type m o hm ho = search moves_rules depth 14

module _ {P : Parser → Type 0} (n : Numerals) (c : Calls) (moves : Moves P) (called : Called c P)
    (loops : Loops c P) where
  called_statement-Keeps : Keeps P c.statement
  called_statement-Keeps = called.statement

  called_block-Keeps : Keeps P c.block
  called_block-Keeps = called.block

  pub import_target-Keeps : Keeps P (import_target)
  unfolding import_target
  import_target-Keeps =
      let h = loops.import_loop in
      search (moves_rules, match_either-Keeps, append_previous-Keeps, h) depth 14

  pub import_statement-Keeps : Keeps P (import_statement)
  unfolding import_statement
  import_statement-Keeps = search (moves_rules, import_target-Keeps, import_path-Keeps) depth 14

  else_branch-Keeps : Keeps P (else_branch c)
  unfolding else_branch
  else_branch-Keeps = search (moves_rules, called_statement-Keeps) depth 14

  in_parens-Keeps : (before behind : Message) → Keeps P (in_parens c before behind)
  unfolding in_parens
  in_parens-Keeps before behind = search (moves_rules, expression-Keeps) depth 14

  pub expression_statement-Keeps : Keeps P (expression_statement c)
  unfolding expression_statement
  expression_statement-Keeps = search (moves_rules, expression-Keeps, terminator-Keeps) depth 20

  pub if_statement-Keeps : Keeps P (if_statement c)
  unfolding if_statement
  if_statement-Keeps =
      search (moves_rules, in_parens-Keeps, else_branch-Keeps, called_statement-Keeps) depth 20

  pub while_statement-Keeps : Keeps P (while_statement c)
  unfolding while_statement
  while_statement-Keeps =
      search (moves_rules, in_parens-Keeps, matched_name-Keeps, called_block-Keeps) depth 20

  pub for_condition-Keeps : Keeps P (for_condition c)
  unfolding for_condition
  for_condition-Keeps = search (moves_rules, expression-Keeps) depth 20

  pub for_statement-Keeps : Keeps P (for_statement c)
  unfolding for_statement
  for_statement-Keeps =
      let g = loops.for_loop in
      search (moves_rules, for_condition-Keeps, called_statement-Keeps, g) depth 20

  pub foreach_statement-Keeps : Keeps P (foreach_statement c)
  unfolding foreach_statement
  foreach_statement-Keeps =
      search (moves_rules, in_parens-Keeps, foreach_names-Keeps, called_block-Keeps) depth 20

  pub try_statement-Keeps : Keeps P (try_statement c)
  unfolding try_statement
  try_statement-Keeps = search (moves_rules, variable_name-Keeps, called_block-Keeps) depth 20

  pub simple_statement-Keeps : Keeps P (simple_statement c)
  unfolding simple_statement
  simple_statement-Keeps =
      search (moves_rules, expression_statement-Keeps, called_block-Keeps) depth 20

  pub statement_inner-Keeps : Keeps P (statement_inner c)
  unfolding statement_inner
  statement_inner-Keeps =
      search
        (
          when_matched-Keeps, nop_statement-Keeps, if_statement-Keeps, while_statement-Keeps,
          for_statement-Keeps, foreach_statement-Keeps, try_statement-Keeps, simple_statement-Keeps,
        )
        depth 20

  pub statement-Keeps : Keeps P (statement c)
  unfolding statement
  statement-Keeps = guarded-Keeps moves _ _ statement_inner-Keeps

  pub named_declaration-Keeps : Keeps P (named_declaration c)
  unfolding named_declaration
  named_declaration-Keeps =
      search (moves_rules, bridge-Keeps, at_bridge-Keeps, called_statement-Keeps) depth 20

  pub import_declaration-Keeps : Keeps P (import_declaration c)
  unfolding import_declaration
  import_declaration-Keeps =
      search (moves_rules, import_statement-Keeps, named_declaration-Keeps) depth 20

  pub inline_declaration-Keeps : Keeps P (inline_declaration c)
  unfolding inline_declaration
  inline_declaration-Keeps =
      search (moves_rules, bridge-Keeps, at_inline-Keeps, import_declaration-Keeps) depth 20

  pub declaration-Keeps : Keeps P (declaration c)
  unfolding declaration
  declaration-Keeps = search (moves_rules, bridge-Keeps, inline_declaration-Keeps) depth 20

  pub block-Keeps : Keeps P (block c)
  unfolding block
  block-Keeps = let h = loops.block_loop in search (moves_rules, h) depth 20
