-- ===== src/Parser/Steady.antt =====
-- A property that the marking of spent fuel keeps, and that the moves over the tokens keep, is kept by
-- all functions of src/slp_parser.c: by the loops, parsed strings, and calls.
use slp.Parser.Ast.{Node, Nodes}
use slp.Lexer.Token.{TokenType}
use slp.Parser.Calls.{
  Calls, expression, block_round, arg_round, arg_expression, named_arg, one_arg, arg_separator,
  missing_comma, block,
}
use slp.Parser.Closed.{Moves, Called, Loops, moves_rules}
use slp.Parser.Declarations.{
  import_part, import_round, declaration, calls, stuck, script_round, parse_script, parse,
}
use slp.Parser.Expressions.{match_either, tuple_round}
use slp.Parser.Objects.{component_round}
use slp.Parser.Precedence.{string_round, infix_round, parse_precedence}
use slp.Parser.Statements.{for_round, statement}
use slp.Parser.KeptRules.{infix_rule-Keeps, parse_precedence-Keeps}
use slp.Parser.KeptStatements.{append_previous-Keeps, statement-Keeps, declaration-Keeps}
use slp.Parser.Keeps.{Keeps, keeps_rules, Keeps-bind, Leads-pure, Leads-option}
use slp.Parser.Literals.{Numerals, string_val}
use slp.Parser.State.{Parser, Do, Message, exhaust, rounds, loop}
use slp.Parser.Strings.{note_exhausted, check_width, parse_alignment_width}
use slp.Parser.Segments.{
  Segments, fail, alignment, width_of, variable_segment, segment, segments, finish_segments,
  parse_double_quoted_string,
}
use slp.Prelude.{ℕ, zero, suc, Bool, true, false, Bytes, [], ◌∷◌, Option, some, none}

pub record Steady (P : Parser → Type 0) : Type 0 where
  pub moves : Moves P
  pub exhausts : Keeps P exhaust
  pub notes : (b : Bool) → Keeps P (note_exhausted b)

module _ {P : Parser → Type 0} (steady : Steady P) where
  exhaust-Keeps : Keeps P exhaust
  exhaust-Keeps = steady.exhausts

  pub rounds-Keeps :
      {A : Type 0} (round : A → Do (A × Bool))
      → ((a : A) → Keeps P (round a))
      → (n : ℕ) (a : A) → Keeps P (rounds round n a)
  unfolding rounds
  rounds-Keeps round h zero a = search (keeps_rules, exhaust-Keeps)
  rounds-Keeps round h (suc n) a =
      let rest = rounds-Keeps round h n in search (keeps_rules, h, rest)

  pub loop-Keeps :
      {A : Type 0} (round : A → Do (A × Bool))
      → ((a : A) → Keeps P (round a))
      → (a : A) → Keeps P (loop round a)
  unfolding loop
  loop-Keeps round h a = search (keeps_rules, rounds-Keeps)

  pub note_exhausted-Keeps : (b : Bool) → Keeps P (note_exhausted b)
  note_exhausted-Keeps = steady.notes

  fail-Keeps : {A : Type 0} (message : Message) → Keeps P (fail {A = A} message)
  unfolding fail
  fail-Keeps message = let m = steady.moves in search moves_rules

  check_width-Keeps : (w : Node) (nested : Parser) → Keeps P (check_width w nested)
  unfolding check_width
  check_width-Keeps w nested =
      let m = steady.moves in search (moves_rules, note_exhausted-Keeps) depth 14

  alignment-Keeps : (e : Do Node) (found : Option (Bytes × Bytes)) → Keeps P (alignment e found)
  unfolding alignment parse_alignment_width
  alignment-Keeps e none = let m = steady.moves in search moves_rules
  alignment-Keeps e (some ([], behind)) = let m = steady.moves in search moves_rules
  alignment-Keeps e (some (c ∷ source, behind)) =
      let m = steady.moves in search (moves_rules, check_width-Keeps) depth 14

  width_of-Keeps : (e : Do Node) (b : Bool) (cs : Bytes) → Keeps P (width_of e b cs)
  unfolding width_of
  width_of-Keeps e false cs = search keeps_rules
  width_of-Keeps e true cs =
      Keeps-bind _ _ (alignment-Keeps e _)
        (λ r. Leads-option r _ _ (Leads-pure _) (λ w. Leads-pure _))

  variable_segment-Keeps :
      (e : Do Node) (s : Segments) (cs : Bytes) → Keeps P (variable_segment e s cs)
  unfolding variable_segment
  variable_segment-Keeps e s cs =
      Keeps-bind _ _ (width_of-Keeps e _ _)
        (λ r. Leads-option r _ _ (Leads-pure _) (λ w. Leads-pure _))

  segment-Keeps : (e : Do Node) (s : Segments) (c : ℕ) (cs : Bytes) → Keeps P (segment e s c cs)
  unfolding segment
  segment-Keeps e s c cs = search (keeps_rules, fail-Keeps, variable_segment-Keeps) depth 20

  segments-Keeps : (n : ℕ) (e : Do Node) (s : Segments) (cs : Bytes) → Keeps P (segments n e s cs)
  unfolding segments
  segments-Keeps n e s [] = Leads-pure _
  segments-Keeps zero e s (c ∷ cs) = search (keeps_rules, exhaust-Keeps)
  segments-Keeps (suc n) e s (c ∷ cs) =
      Keeps-bind _ _ (segment-Keeps e s c cs)
        (λ r. Leads-option r _ _ (Leads-pure _) (λ x. segments-Keeps n e x.0 x.1))

  finish_segments-Keeps : (r : Option Segments) → Keeps P (finish_segments r)
  unfolding finish_segments
  finish_segments-Keeps none = Leads-pure _
  finish_segments-Keeps (some s) = let m = steady.moves in search moves_rules

  string_val-Keeps : (e : Do Node) → Keeps P (string_val e)
  unfolding string_val parse_double_quoted_string
  string_val-Keeps e =
      let m = steady.moves in search (moves_rules, segments-Keeps, finish_segments-Keeps) depth 20

  component_round-Keeps : (s : Bytes) → Keeps P (component_round s)
  unfolding component_round
  component_round-Keeps s = let m = steady.moves in search moves_rules depth 20

  string_round-Keeps : (s : Bytes) → Keeps P (string_round s)
  unfolding string_round
  string_round-Keeps s = let m = steady.moves in search moves_rules depth 14

  import_part-Keeps : Keeps P import_part
  unfolding import_part match_either
  import_part-Keeps = let m = steady.moves in search moves_rules depth 14

  import_round-Keeps : (s : Bytes) → Keeps P (import_round s)
  unfolding import_round
  import_round-Keeps s =
      let m = steady.moves in
      let h = append_previous-Keeps m in search (moves_rules, import_part-Keeps, h) depth 14

module _ {P : Parser → Type 0} (steady : Steady P) (c : Calls) (called : Called c P) where
  parse_precedence-called : (k : ℕ) → Keeps P (c.parse_precedence (suc k))
  parse_precedence-called = called.parse_precedence

  declaration-called : Keeps P c.declaration
  declaration-called = called.declaration

  block_round-Keeps : (ns : Nodes) → Keeps P (block_round c ns)
  unfolding block_round
  block_round-Keeps ns = search (keeps_rules, declaration-called)

  missing_comma-Keeps : (name : Option Bytes) → Keeps P (missing_comma name)
  unfolding missing_comma
  missing_comma-Keeps none = let m = steady.moves in search moves_rules
  missing_comma-Keeps (some s) = let m = steady.moves in search moves_rules

  arg_round-Keeps : (type : TokenType) (ns : Nodes) → Keeps P (arg_round c type ns)
  unfolding arg_round one_arg arg_expression named_arg arg_separator expression
  arg_round-Keeps type ns =
      let m = steady.moves in
      search (moves_rules, missing_comma-Keeps, parse_precedence-called) depth 20

  tuple_round-Keeps : (ns : Nodes) → Keeps P (tuple_round c ns)
  unfolding tuple_round expression
  tuple_round-Keeps ns =
      let m = steady.moves in search (moves_rules, parse_precedence-called) depth 14

  for_round-Keeps : (type : TokenType) (ns : Nodes) → Keeps P (for_round c type ns)
  unfolding for_round expression
  for_round-Keeps type ns =
      let m = steady.moves in search (moves_rules, parse_precedence-called) depth 14

  infix_round-Keeps : (loops : Loops c P) (k : ℕ) (e : Node) → Keeps P (infix_round c k e)
  unfolding infix_round
  infix_round-Keeps loops k e =
      let m = steady.moves in search (moves_rules, infix_rule-Keeps) depth 14

  script_round-Keeps : (ns : Nodes) → Keeps P (script_round c ns)
  unfolding script_round
  script_round-Keeps ns = let m = steady.moves in search (moves_rules, declaration-called) depth 14

  Steady-Loops : Loops c P
  Steady-Loops = record {
    block_loop = loop-Keeps steady _ block_round-Keeps;
    arg_loop = λ type. loop-Keeps steady _ (arg_round-Keeps type);
    tuple_loop = loop-Keeps steady _ tuple_round-Keeps;
    component_loop = loop-Keeps steady _ (component_round-Keeps steady);
    string_loop = loop-Keeps steady _ (string_round-Keeps steady);
    for_loop = λ type. loop-Keeps steady _ (for_round-Keeps type);
    import_loop = loop-Keeps steady _ (import_round-Keeps steady);
    quoted = string_val-Keeps steady _;
  }

  block-Keeps : Keeps P (block c)
  unfolding block
  block-Keeps =
      let m = steady.moves in let h = Steady-Loops.block_loop in search (moves_rules, h) depth 14

  pub parse-Keeps : Keeps P (parse c)
  unfolding parse parse_script
  parse-Keeps =
      let m = steady.moves in
      let h = loop-Keeps steady _ script_round-Keeps in search (moves_rules, h) depth 14

  next-Called :
      (n : Numerals)
      → Called
          record {
            parse_precedence = parse_precedence n c;
            statement = statement c;
            declaration = declaration c;
            block = block c;
          }
          P
  next-Called n =
      let l = Steady-Loops in
      record {
        parse_precedence =
            parse_precedence-Keeps n c steady.moves called l
              (λ k. loop-Keeps steady _ (infix_round-Keeps l (suc k)));
        statement = statement-Keeps n c steady.moves called l;
        declaration = declaration-Keeps n c steady.moves called l;
        block = block-Keeps;
      }

module _ {P : Parser → Type 0} (steady : Steady P) (n : Numerals) where
  pub calls-Called : (f : ℕ) → Called (calls n f) P
  unfolding calls stuck
  calls-Called zero =
      let e = exhaust-Keeps steady in
      let s : Keeps P stuck = search (keeps_rules, e) in
      record { parse_precedence = λ k. s; statement = s; declaration = s; block = s }
  calls-Called (suc f) = next-Called steady (calls n f) (calls-Called f) n
