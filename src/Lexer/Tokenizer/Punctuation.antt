-- ===== src/Lexer/Tokenizer/Punctuation.antt =====
-- internal/lexer/tokenizer_punctuation.go: the tables, and the lexing of punctuation and dots.
use wihajster.Common.{ℕ, true, ◌==◌, [], ◌∷◌, if◌then◌else◌, Option, none, some}
use wihajster.Common.Bytes.{codes}
use wihajster.Common.Maps.{Map, lookup, nat_eq}
use wihajster.Lexer.Token.{TokenType}
use wihajster.Lexer.Monad.{LexError, Lex, pure, fail, ◌>>=◌, ◌>>◌, unless_eof}
use wihajster.Lexer.Scanner.{ByteClass, class_chars, pop_one, peek_one}
use wihajster.Lexer.Tokenizer.Reading.{Scanning, scan, build, build_one, read_run}
use wihajster.Lexer.Tokenizer.Integers.{or_nul}

abbrev pub or_nil : Option TokenType → TokenType
or_nil none = TokenType.nil
or_nil (some kind) = kind

-- The first table: `first`, and then `=`.
abbrev pub char_equal_table : Map ℕ TokenType
char_equal_table =
    (b'-', TokenType.minus_assign)
    ∷ (b'+', TokenType.plus_assign)
    ∷ (b'&', TokenType.amp_assign)
    ∷ (b'*', TokenType.star_assign)
    ∷ (b'!', TokenType.ne)
    ∷ (b'/', TokenType.slash_assign)
    ∷ (b'%', TokenType.percent_assign)
    ∷ (b'<', TokenType.le)
    ∷ (b'>', TokenType.ge)
    ∷ (b'^', TokenType.caret_assign)
    ∷ (b'|', TokenType.pipe_assign)
    ∷ (b'=', TokenType.eq)
    ∷ []

-- The second table, by the first character.
abbrev pub two_char_table : Map ℕ (Map ℕ TokenType)
two_char_table =
    (b'#', (b'#', TokenType.preproc_glue) ∷ [])
    ∷ (b'-', (b'>', TokenType.arrow) ∷ (b'-', TokenType.minus_minus) ∷ [])
    ∷ (b'+', (b'+', TokenType.plus_plus) ∷ [])
    ∷ (b'&', (b'&', TokenType.and_and) ∷ [])
    ∷ (b'/', (b'/', TokenType.comment_single) ∷ (b'*', TokenType.comment_multi) ∷ [])
    ∷ (b'%', (b'>', TokenType.r_brace) ∷ (b':', TokenType.preproc_start) ∷ [])
    ∷ (
      b'<',
      (b'<', TokenType.shift_left) ∷ (b':', TokenType.l_bracket) ∷ (b'%', TokenType.l_brace) ∷ [],
    )
    ∷ (b'>', (b'>', TokenType.shift_right) ∷ [])
    ∷ (b':', (b'>', TokenType.r_bracket) ∷ [])
    ∷ (b'|', (b'|', TokenType.or_or) ∷ [])
    ∷ []

abbrev pub one_char_table : Map ℕ TokenType
one_char_table =
    (b'#', TokenType.preproc_start)
    ∷ (b'-', TokenType.minus)
    ∷ (b'+', TokenType.plus)
    ∷ (b'&', TokenType.amp)
    ∷ (b'*', TokenType.star)
    ∷ (b'!', TokenType.bang)
    ∷ (b'/', TokenType.slash)
    ∷ (b'%', TokenType.percent)
    ∷ (b'<', TokenType.lt)
    ∷ (b'>', TokenType.gt)
    ∷ (b'^', TokenType.caret)
    ∷ (b':', TokenType.colon)
    ∷ (b'|', TokenType.pipe)
    ∷ (b'=', TokenType.assign)
    ∷ (b'[', TokenType.l_bracket)
    ∷ (b']', TokenType.r_bracket)
    ∷ (b'(', TokenType.l_paren)
    ∷ (b')', TokenType.r_paren)
    ∷ (b'{', TokenType.l_brace)
    ∷ (b'}', TokenType.r_brace)
    ∷ (b'~', TokenType.tilde)
    ∷ (b'?', TokenType.question)
    ∷ (b';', TokenType.semicolon)
    ∷ (b',', TokenType.comma)
    ∷ (b'.', TokenType.dot)
    ∷ []

unfoldable pub char_equal : ℕ → TokenType
char_equal first = or_nil (lookup first char_equal_table)

abbrev pub second_in : ℕ → Option (Map ℕ TokenType) → TokenType
second_in second none = TokenType.nil
second_in second (some row) = or_nil (lookup second row)

unfoldable pub two_chars : ℕ → ℕ → TokenType
two_chars first second = second_in second (lookup first two_char_table)

unfoldable pub one_char : ℕ → TokenType
one_char first = or_nil (lookup first one_char_table)

-- `sendTwo`.
unfoldable pub send_two : ℕ → ℕ → Lex Scanning (Unit {0})
send_two first second = do _ ← scan pop_one; build (first ∷ second ∷ [])

-- `<<` and `>>`, or the assignment with them.
unfoldable pub end_shift : TokenType → TokenType → Lex Scanning TokenType
unfolding build_one
end_shift shift assignment = do
  third ← unless_eof (scan peek_one)
  if or_nul third == b'=' then (do build_one; pure assignment) else pure shift

-- What is left, as a single character.
unfoldable pub end_single : ℕ → ℕ → TokenType → Lex Scanning TokenType
end_single first second TokenType.nil = fail (LexError.invalid_punctuation first second)
end_single first second kind = do build (first ∷ []); pure kind

-- The switch over the second table. A comment goes on with `comment`.
unfoldable pub end_two : ℕ → ℕ → Lex Scanning TokenType → TokenType → Lex Scanning TokenType
unfolding send_two end_shift end_single
end_two first second comment TokenType.nil = end_single first second (one_char first)
end_two first second comment TokenType.comment_single = do _ ← scan pop_one; comment
end_two first second comment TokenType.comment_multi = do
  _ ← scan pop_one
  fail LexError.not_implemented
end_two first second comment TokenType.shift_left = do
  send_two first second
  end_shift TokenType.shift_left TokenType.shift_left_assign
end_two first second comment TokenType.shift_right = do
  send_two first second
  end_shift TokenType.shift_right TokenType.shift_right_assign
end_two first second comment kind = do send_two first second; pure kind

-- The characters after the test of the first table, with what that table holds.
unfoldable pub end_punctuation : ℕ → ℕ → Lex Scanning TokenType → TokenType → Lex Scanning TokenType
unfolding end_two send_two
end_punctuation first second comment TokenType.nil =
    end_two first second comment (two_chars first second)
end_punctuation first second comment kind =
    if second == b'='
    then (do send_two first second; pure kind)
    else end_two first second comment (two_chars first second)

unfoldable pub lex_punctuation : Lex Scanning TokenType → Lex Scanning TokenType
unfolding end_punctuation
lex_punctuation comment = do
  first ← scan pop_one
  second ← unless_eof (scan peek_one)
  end_punctuation first (or_nul second) comment (char_equal first)

abbrev pub dots_class : ByteClass
dots_class = class_chars (codes ".")

unfoldable pub lex_dots : Lex Scanning TokenType
lex_dots = do read_run true dots_class; pure TokenType.dots
