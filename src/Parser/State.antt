-- ===== src/Parser/State.antt =====
-- The parser's state and its moves over the tokens: lines 69 to 150 of src/slp_parser.c. A function of
-- the parser takes the state and returns a result and the state after it.
use Prim.Native.String.{String}
use slp.Lexer.Scan.{scan_token}
use slp.Lexer.State.{Lexer, lexer_init, codes}
use slp.Lexer.Token.{TokenType, Token}
use slp.Parser.Kinds.{same_type}
use slp.Prelude.{
  ℕ, zero, suc, ◌+◌, Bool, true, false, Option, some, none, Bytes, [], length, take, if◌then◌else◌,
}

-- What error_message points to: a text of the program, the parser's own error_buffer, or the
-- error_buffer of a parser that is gone.
pub data Message : Type 0 where
  literal : Bytes → Message
  buffer : Message
  stale : Message

-- The mark `exhausted` is set where the fuel of a loop or of a call runs out.
pub record Parser : Type 0 where
  pub lexer : Lexer
  pub current : Token
  pub previous : Token
  pub had_error : Bool
  pub panic_mode : Bool
  pub error_line : ℕ
  pub error_message : Option Message
  pub error_buffer : Bytes
  pub depth : ℕ
  pub exhausted : Bool

abbrev pub Do {ℓ} : Type ℓ → Type ℓ
Do A = Parser → A × Parser

module _ {ℓ} {A : Type ℓ} where
  unfoldable pub pure : A → Do A
  pure a p = (a, p)

  unfoldable pub gets : (Parser → A) → Do A
  gets f p = (f p, p)

module _ {ℓ κ} {A : Type ℓ} {B : Type κ} where
  infixl 10 ◌>>=◌ ◌>>◌
  unfoldable pub ◌>>=◌ : Do A → (A → Do B) → Do B
  ◌>>=◌ m f p = let (a, q) = m p in f a q

  abbrev pub ◌>>◌ : Do A → Do B → Do B
  m >> n = m >>= λ _. n

unfoldable pub exhaust : Do (Unit {0})
exhaust p = (tt, record p { exhausted = true })

-- An upper bound of the rounds of a loop that takes a token in each round, or ends with an error.
unfoldable pub size : Parser → ℕ
size p = p.current.length + length p.lexer.current + (if p.had_error then 0 else 1)

-- A loop: a round takes what the last one gave and says whether there is another.
module _ {A : Type 0} (round : A → Do (A × Bool)) where
  unfoldable pub rounds : ℕ → A → Do A
  rounds zero a = do exhaust; pure a
  rounds (suc n) a = do r ← round a; if r.1 then rounds n r.0 else pure r.0

  -- Each round but the last takes a token or ends with the first error.
  unfoldable pub loop : A → Do A
  loop a = do n ← gets size; rounds (suc n) a

unfoldable pub text : String → Message
text s = Message.literal (codes s)

unfoldable pub none_yet : Token
none_yet = record { type = TokenType.error; start = []; length = 0; line = 0 }

unfoldable pub parser_init : Bytes → Parser
parser_init source = record {
  lexer = lexer_init source;
  current = none_yet;
  previous = none_yet;
  had_error = false;
  panic_mode = false;
  error_line = 0;
  error_message = none;
  error_buffer = [];
  depth = 0;
  exhausted = false;
}

unfoldable pub error_at : Token → Message → Do (Unit {0})
error_at token message p = if p.panic_mode then (tt, p) else (
  tt,
  record p {
    panic_mode = true;
    had_error = true;
    error_line = token.line;
    error_message = some message;
  },
)

-- The snprintf of parse_args; error_buffer has 256 bytes, the terminator included.
unfoldable pub write_buffer : Bytes → Do (Unit {0})
write_buffer s p = (tt, record p { error_buffer = take 255 s })

unfoldable pub error : Message → Do (Unit {0})
error message = do t ← gets (λ p. p.previous); error_at t message

unfoldable pub error_at_current : Message → Do (Unit {0})
error_at_current message = do t ← gets (λ p. p.current); error_at t message

unfoldable pub scan : Do (Unit {0})
scan p =
    let (token, lexer) = scan_token p.lexer in (tt, record p { current = token; lexer = lexer })

-- A round of the loop of advance.
unfoldable pub next_token : Unit {0} → Do (Unit {0} × Bool)
next_token u = do
  scan
  token ← gets (λ p. p.current)
  if same_type token.type TokenType.error
      then (do error_at_current (Message.literal token.start); pure (tt, true))
      else pure (tt, false)

unfoldable pub shift : Do (Unit {0})
shift p = (tt, record p { previous = p.current })

-- Each round but the last takes a byte of the text.
unfoldable pub advance : Do (Unit {0})
advance = do shift; n ← gets (λ p. length p.lexer.current); rounds next_token (suc n) tt

unfoldable pub check : TokenType → Do Bool
check type = gets (λ p. same_type p.current.type type)

unfoldable pub match : TokenType → Do Bool
match type = do here ← check type; if here then (do advance; pure true) else pure false

unfoldable pub consume : TokenType → Message → Do (Unit {0})
consume type message = do here ← check type; if here then advance else error_at_current message

-- The line that allocate_node writes to a node.
unfoldable pub line : Do ℕ
line = gets (λ p. p.previous.line)

-- slp_lexer_copy_lexeme
unfoldable pub copy_lexeme : Token → Bytes
copy_lexeme token = take token.length token.start
