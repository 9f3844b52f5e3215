-- ===== src/Lexer/Token.antt =====
-- internal/lexer/token.go: the kinds of tokens, in the order of the source, and tokens.
use wihajster.Common.{ℕ, Bool, true, false}
use wihajster.Common.Bytes.{Bytes}

pub data TokenType : Type 0 where
  nil : TokenType
  auto enum restrict unsigned break extern return void : TokenType
  case float short volatile char for signed while : TokenType
  const goto sizeof bool continue if_token static complex : TokenType
  default inline struct imaginary do_token int switch double : TokenType
  long typedef else_token register union : TokenType
  identifier integer_constant floating_constant character_constant string_literal : TokenType
  l_bracket r_bracket l_paren r_paren l_brace r_brace dot ellipsis arrow : TokenType
  plus_plus minus_minus amp star plus minus tilde bang slash percent : TokenType
  shift_left shift_right lt gt le ge eq ne caret pipe and_and or_or : TokenType
  question colon semicolon assign star_assign slash_assign percent_assign : TokenType
  plus_assign minus_assign shift_left_assign shift_right_assign amp_assign : TokenType
  caret_assign pipe_assign comma : TokenType
  preproc_start preproc_glue comment_single comment_multi dots whitespace : TokenType
  eof error : TokenType

pub record Token : Type 0 where
  pub token_type : TokenType
  pub raw : Bytes
  pub line : ℕ
  pub column : ℕ

-- `Token.IsValid`.
unfoldable pub is_valid_type : TokenType → Bool
is_valid_type TokenType.nil = false
is_valid_type _ = true
