-- ===== src/Lexer/Tokenizer.antt =====
-- internal/lexer/tokenizer.go and tokenizer_comment.go.
pub mod Reading
pub mod Runs
pub mod Alike
pub mod Kinds
pub mod Identifiers
pub mod AllKinds
pub mod Integers
pub mod Punctuation
pub mod Strings
use wihajster.Common.{ℕ, zero, suc, Bool, true, false, ◌||◌, ◌==◌, if◌then◌else◌, List, [], ◌∷◌}
use wihajster.Common.Bytes.{codes}
use wihajster.Common.Outcome.{err}
use wihajster.Lexer.Token.{TokenType}
use wihajster.Lexer.Monad.{LexError, Lex, pure, fail, ◌>>=◌, ◌>>◌}
use wihajster.Lexer.Scanner.{
  ByteClass, class_range, class_chars, class_combine, negate, pop_one, peek_one, read_one,
  read_bytes_in_class,
}
use wihajster.Lexer.Tokenizer.Reading.{Scanning, scan, build, build_one, read_run, skip_run}
use wihajster.Lexer.Tokenizer.Integers.{digit_class, lex_decimal_integer, lex_octal_or_hexadecimal}
use wihajster.Lexer.Tokenizer.Punctuation.{lex_punctuation, lex_dots}
use wihajster.Lexer.Tokenizer.Strings.{lex_string_literal, lex_character_constant}

abbrev pub alpha_class : ByteClass
alpha_class =
    class_combine (class_range b'a' b'z' ∷ class_range b'A' b'Z' ∷ class_chars (codes "_") ∷ [])

abbrev pub alpha_digit_class : ByteClass
alpha_digit_class = class_combine (alpha_class ∷ digit_class ∷ [])

abbrev pub white_class : ByteClass
white_class = class_chars (codes " \n\r\t")

abbrev pub comment_class : ByteClass
comment_class = negate (class_chars (codes "\n\\"))

unfoldable pub lex_white_space : Lex Scanning TokenType
lex_white_space = do _ ← scan (read_bytes_in_class white_class); pure TokenType.whitespace

-- `lexCommentSingleLine`, which goes on with `again` for `lex` after the comment. The data of the
-- comment is not kept.
unfoldable pub lex_comment_single_line : ℕ → Lex Scanning TokenType → Lex Scanning TokenType
lex_comment_single_line zero again = fail LexError.out_of_fuel
lex_comment_single_line (suc fuel) again = do
  skip_run comment_class
  b ← scan read_one
  if b == b'\\' then lex_comment_single_line fuel again else again

unfoldable pub lex_identifier : Lex Scanning TokenType
lex_identifier = do read_run true alpha_digit_class; pure TokenType.identifier

-- The cases of `lex` by the byte at the cursor.
unfoldable pub lex_at : ℕ → Lex Scanning TokenType → ℕ → Lex Scanning TokenType
unfolding lex_white_space lex_comment_single_line lex_identifier
lex_at fuel again b =
    if white_class b
    then lex_white_space
    else if alpha_class b
    then lex_identifier
    else if b == b'0'
    then lex_octal_or_hexadecimal
    else if digit_class b
    then lex_decimal_integer
    else if b == b'\''
    then (do build_one; lex_character_constant fuel)
    else if b == b'"'
    then (do build_one; lex_string_literal fuel)
    else if b == b'.'
    then lex_dots
    else lex_punctuation (lex_comment_single_line fuel again)

-- `lex`, on fuel for the calls that a comment, a string and each escape in it take.
unfoldable pub lex : ℕ → Lex Scanning TokenType
unfolding lex_at
lex zero = fail LexError.out_of_fuel
lex (suc fuel) = do b ← scan peek_one; lex_at fuel (lex fuel) b
