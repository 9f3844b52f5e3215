-- ===== src/Lexer/Client.antt =====
-- internal/lexer/lexer.go: `Lexer`. Its mutex is never locked.
pub mod Lookahead
use wihajster.Common.{ℕ, Bool, true, false, List, [], if◌then◌else◌}
use wihajster.Common.Outcome.{Outcome, ok, err}
use wihajster.Lexer.Token.{TokenType, Token, is_valid_type}
use wihajster.Lexer.Monad.{LexError, Lex}
use wihajster.Lexer.Scanner.{Chunk, new_scanner}
use wihajster.Lexer.Preprocessor.{Preprocessor, new_preprocessor, next}

-- `Token{}`.
abbrev pub empty_token : Token
empty_token = record { token_type = TokenType.nil; raw = []; line = 0; column = 0 }

-- `Lexer`; its scanner is that of the preprocessor.
pub record Lexer : Type 0 where
  pub preprocessor : Preprocessor
  pub next_tok : Token

-- `NewLexer`.
unfoldable pub new_lexer : List Chunk → Lexer
unfolding new_scanner new_preprocessor
new_lexer chunks = record {
  preprocessor = new_preprocessor (new_scanner chunks);
  next_tok = empty_token;
}

unfoldable pub keep : Lexer → Outcome LexError Token × Preprocessor → Outcome LexError Token × Lexer
keep l (ok tok, p) = (ok tok, record l { preprocessor = p; next_tok = tok })
keep l (err e, p) = (err e, record l { preprocessor = p })

unfoldable pub hand_on :
    Lexer → Outcome LexError Token × Preprocessor → Outcome LexError Token × Lexer
hand_on l (out, p) = (out, record l { preprocessor = p })

-- `Peek`, with `fuel` for the preprocessor.
unfoldable pub peek_token : ℕ → Lex Lexer Token
unfolding keep
peek_token fuel l =
    if is_valid_type l.next_tok.token_type
    then (ok l.next_tok, l)
    else keep l (next fuel l.preprocessor)

-- `Next`.
unfoldable pub next_token : ℕ → Lex Lexer Token
unfolding hand_on
next_token fuel l =
    if is_valid_type l.next_tok.token_type
    then (ok l.next_tok, record l { next_tok = empty_token })
    else hand_on l (next fuel l.preprocessor)
