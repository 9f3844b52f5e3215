-- ===== src/Lexer/Tokenizer/Integers.antt =====
-- internal/lexer/tokenizer_integer.go and tokenizer_float.go.
use wihajster.Common.{ℕ, Bool, true, not, ◌||◌, ◌==◌, [], ◌∷◌, if◌then◌else◌, Option, none, some}
use wihajster.Common.Outcome.{err}
use wihajster.Lexer.Token.{TokenType}
use wihajster.Lexer.Monad.{LexError, Lex, pure, fail, ◌>>=◌, ◌>>◌, unless_eof}
use wihajster.Lexer.Scanner.{ByteClass, class_range, class_combine, is_empty, pop_one, peek_one}
use wihajster.Lexer.Tokenizer.Reading.{Scanning, scan, build, build_one, read_data, read_run}

abbrev pub digit_class : ByteClass
digit_class = class_range b'0' b'9'

abbrev pub octal_class : ByteClass
octal_class = class_range b'0' b'7'

abbrev pub hex_class : ByteClass
hex_class = class_combine (digit_class ∷ class_range b'a' b'f' ∷ class_range b'A' b'F' ∷ [])

abbrev pub is_u : ℕ → Bool
is_u b = (b == b'u') || (b == b'U')

abbrev pub is_u_or_l : ℕ → Bool
is_u_or_l b = is_u b || (b == b'l') || (b == b'L')

-- The three parts of `consumeLLUSuffix`, the last one first.
unfoldable pub consume_last : Lex Scanning (Unit {0})
unfolding build_one
consume_last = do b ← scan peek_one; if is_u b then build_one else pure tt

unfoldable pub consume_second : Lex Scanning (Unit {0})
unfolding consume_last
consume_second = do
  b ← scan peek_one
  if not (is_u_or_l b) then pure tt else (do build_one; if is_u b then pure tt else consume_last)

unfoldable pub consume_suffix : Lex Scanning (Unit {0})
unfolding consume_second
consume_suffix = do
  b ← scan peek_one
  if not (is_u_or_l b) then pure tt else (do build_one; if is_u b then pure tt else consume_second)

-- The suffix, where `io.EOF` is no error, and then the constant.
unfoldable pub end_integer : Lex Scanning TokenType
unfolding consume_suffix
end_integer = do _ ← unless_eof consume_suffix; pure TokenType.integer_constant

abbrev pub or_nul : Option ℕ → ℕ
or_nul none = 0
or_nul (some b) = b

-- `lexDecimalFloat` and `lexHexedecimalFloat` are not implemented.
unfoldable pub lex_decimal_integer : Lex Scanning TokenType
unfolding end_integer
lex_decimal_integer = do
  read_run true digit_class
  b ← unless_eof (scan peek_one)
  if (or_nul b == b'.') || (or_nul b == b'e') || (or_nul b == b'E')
      then fail LexError.not_implemented
      else end_integer

unfoldable pub lex_octal : Lex Scanning TokenType
unfolding end_integer
lex_octal = do read_run true octal_class; end_integer

unfoldable pub hex_without_value : Lex Scanning (Unit {0})
hex_without_value s = (err (LexError.hex_without_value s.scanner.line s.scanner.column), s)

-- The first call of `lexHexadecimalConstant`, and those it makes while `isPartial` holds.
unfoldable pub read_hex : Lex Scanning (Unit {0})
unfolding is_empty hex_without_value
read_hex = do
  (data', partial) ← read_data true hex_class
  if is_empty data' then hex_without_value else pure tt
  build data'
  if partial then read_run true hex_class else pure tt

unfoldable pub lex_hexadecimal : Lex Scanning TokenType
unfolding read_hex end_integer
lex_hexadecimal = do
  read_hex
  b ← unless_eof (scan peek_one)
  if (or_nul b == b'.') || (or_nul b == b'p') || (or_nul b == b'P')
      then fail LexError.not_implemented
      else end_integer

-- What follows the 0, with the byte after it.
unfoldable pub after_zero : Option ℕ → Lex Scanning TokenType
unfolding build_one lex_hexadecimal lex_octal
after_zero none = pure TokenType.integer_constant
after_zero (some b) =
    if (b == b'x') || (b == b'X') then (do build_one; lex_hexadecimal) else lex_octal

-- `lexOctalOrHexadecimalConstant`.
unfoldable pub lex_octal_or_hexadecimal : Lex Scanning TokenType
unfolding after_zero
lex_octal_or_hexadecimal = do
  _ ← scan pop_one
  build (b'0' ∷ [])
  b ← unless_eof (scan peek_one)
  after_zero b
