-- ===== src/Parser/Errors.antt =====
-- The report of an error: had_error, panic_mode and the message of the parser, through all functions of
-- src/slp_parser.c.
use slp.Lexer.State.{Lexer}
use slp.Lexer.Token.{Token}
use slp.Parser.Calls.{next_token_of}
use slp.Parser.Declarations.{calls, parse}
use slp.Parser.Keeps.{if-both, Keeps, keeps_rules}
use slp.Parser.Literals.{Numerals}
use slp.Parser.Precedence.{enter, leave}
use slp.Parser.State.{
  Parser, Message, write_buffer, exhaust, rounds, error_at, error_at_current, scan, next_token,
  shift, advance, parser_init,
}
use slp.Parser.Steady.{Steady, calls-Called, parse-Keeps}
use slp.Parser.Strings.{note_exhausted}
use slp.Prelude.{ℕ, zero, suc, ◌≡◌, refl, Bool, true, false, Bytes, Option, some, none}

abbrev pub About : (Bool → Bool → ℕ → Option Message → Type 0) → Parser → Type 0
About R p = R p.had_error p.panic_mode p.error_line p.error_message

-- What is said of the report alone is kept where the setting of an error keeps it.
module _ (R : Bool → Bool → ℕ → Option Message → Type 0)
    (fails : (token : Token) (message : Message) → Keeps (About R) (error_at token message)) where
  exhaust-Keeps : Keeps (About R) exhaust
  unfolding exhaust
  exhaust-Keeps = record { at = λ p h. h }

  note_exhausted-Keeps : (b : Bool) → Keeps (About R) (note_exhausted b)
  unfolding note_exhausted
  note_exhausted-Keeps b = record { at = λ p h. h }

  write_buffer-Keeps : (s : Bytes) → Keeps (About R) (write_buffer s)
  unfolding write_buffer
  write_buffer-Keeps s = record { at = λ p h. h }

  scan-Keeps : Keeps (About R) scan
  unfolding scan
  scan-Keeps = record { at = λ p h. h }

  shift-Keeps : Keeps (About R) shift
  unfolding shift
  shift-Keeps = record { at = λ p h. h }

  enter-Keeps : Keeps (About R) enter
  unfolding enter
  enter-Keeps = record { at = λ p h. h }

  leave-Keeps : Keeps (About R) leave
  unfolding leave
  leave-Keeps = record { at = λ p h. h }

  next_token_of-Keeps : (restore : Lexer → Lexer → Lexer) → Keeps (About R) (next_token_of restore)
  unfolding next_token_of
  next_token_of-Keeps restore = record { at = λ p h. h }

  next_token-Keeps : (u : Unit {0}) → Keeps (About R) (next_token u)
  unfolding next_token error_at_current
  next_token-Keeps u = search (keeps_rules, scan-Keeps, fails) depth 14

  next_rounds-Keeps : (n : ℕ) (u : Unit {0}) → Keeps (About R) (rounds next_token n u)
  unfolding rounds
  next_rounds-Keeps zero u = search (keeps_rules, exhaust-Keeps)
  next_rounds-Keeps (suc n) u =
      let rest = next_rounds-Keeps n in search (keeps_rules, next_token-Keeps, rest)

  pub advance-Keeps : Keeps (About R) advance
  unfolding advance
  advance-Keeps = search (keeps_rules, shift-Keeps, next_rounds-Keeps)

  About-Steady : Steady (About R)
  About-Steady = record {
    moves = record {
      advances = advance-Keeps;
      fails = fails;
      writes = write_buffer-Keeps;
      looks = next_token_of-Keeps _;
      looks_line = next_token_of-Keeps _;
      looks_start_line = next_token_of-Keeps _;
      enters = enter-Keeps;
      leaves = leave-Keeps;
    };
    exhausts = exhaust-Keeps;
    notes = note_exhausted-Keeps;
  }

-- A report of an error that was made at the line, with the message.
abbrev pub FirstReport : ℕ → Option Message → Bool → Bool → ℕ → Option Message → Type 0
FirstReport l m had panic line message = (had ≡ true) × (panic ≡ true) × (line ≡ l) × (message ≡ m)

abbrev pub First : ℕ → Option Message → Parser → Type 0
First l m = About (FirstReport l m)

pub error_at-First :
    (l : ℕ) (m : Option Message) (token : Token) (message : Message)
    → Keeps (First l m) (error_at token message)
unfolding error_at
error_at-First l m token message = record {
  at = λ p (h, panic, line, text). rw panic (h, refl, line, text);
}

-- Whether there is a message.
abbrev is_message : Option Message → Bool
is_message none = false
is_message (some m) = true

-- The parser is in panic, and has a message, just when it had an error.
abbrev Report : Bool → Bool → ℕ → Option Message → Type 0
Report had panic line message = (panic ≡ had) × (is_message message ≡ had)

abbrev pub Reported : Parser → Type 0
Reported = About Report

error_at-Reported : (token : Token) (message : Message) → Keeps Reported (error_at token message)
unfolding error_at
error_at-Reported token message = record {
  at = λ p h.
      if-both (λ (r : Unit {0} × Parser). Reported r.1) p.panic_mode (tt, p)
        (
          tt,
          record p {
            panic_mode = true;
            had_error = true;
            error_line = token.line;
            error_message = some message;
          },
        )
        h (refl, refl);
}

-- How the functions of the parser change the state from p to q behind an error.
abbrev pub SameReport : Parser → Parser → Type 0
SameReport p q = First p.error_line p.error_message q

-- From any state with an error, each of the functions that the parser calls in turn (an expression of
-- any precedence but 0, a statement, a declaration, a block) comes to a state that is in panic, with the line
-- of the error, and with a message that points to what it pointed to; where that is error_buffer, its
-- text may be another.
pub calls-first_error :
    (n : Numerals) (fuel : ℕ) (p : Parser)
    → p.had_error ≡ true
    → p.panic_mode ≡ true
    → let c = calls n fuel in
      ((precedence : ℕ) → SameReport p (c.parse_precedence (suc precedence) p).1)
      × SameReport p (c.statement p).1
      × SameReport p (c.declaration p).1
      × SameReport p (c.block p).1
calls-first_error n fuel p h panic =
    let called =
      calls-Called
        (About-Steady (FirstReport p.error_line p.error_message)
          (error_at-First p.error_line p.error_message))
        n fuel in
    let at_p : First p.error_line p.error_message p = (h, panic, refl, refl) in
    (
      λ k. (called.parse_precedence k).at p at_p,
      called.statement.at p at_p,
      called.declaration.at p at_p,
      called.block.at p at_p,
    )

-- Of any text, and with any fuel, the parser comes to a state where it is in panic just when it had an
-- error, and has a message just when it had an error.
pub parse-Reported :
    (n : Numerals) (fuel : ℕ) (source : Bytes)
    → Reported (parse (calls n fuel) (parser_init source)).1
unfolding parser_init
parse-Reported n fuel source =
    let steady = About-Steady Report error_at-Reported in
    (parse-Keeps steady (calls n fuel) (calls-Called steady n fuel)).at _ (refl, refl)
