-- ===== src/Lexer/Tokenizer/Strings.antt =====
-- internal/lexer/tokenizer_string.go.
use wihajster.Common.{ℕ, zero, suc, Bool, false, ◌==◌, [], ◌∷◌, if◌then◌else◌}
use wihajster.Common.Bytes.{codes}
use wihajster.Lexer.Token.{TokenType}
use wihajster.Lexer.Monad.{LexError, Lex, pure, fail, ◌>>=◌, ◌>>◌}
use wihajster.Lexer.Scanner.{ByteClass, class_chars, negate, pop_one, peek_one}
use wihajster.Lexer.Tokenizer.Reading.{Scanning, scan, build, build_one, read_run}

abbrev pub string_body : ByteClass
string_body = negate (class_chars (codes "\n\\\""))

abbrev pub character_body : ByteClass
character_body = negate (class_chars (codes "\n\\'"))

unfoldable pub newline_in_string : Lex Scanning TokenType
newline_in_string s = fail (LexError.newline_in_string s.scanner.line s.scanner.column) s

unfoldable pub newline_in_character : Lex Scanning TokenType
newline_in_character s = fail (LexError.newline_in_character s.scanner.line s.scanner.column) s

-- After a backslash in a string: a line continuation or an escaped quote. `again` goes on with the
-- string.
unfoldable pub string_escape : Lex Scanning TokenType → ℕ → Lex Scanning TokenType
unfolding build_one
string_escape again b =
    if b == b'\n'
    then (do _ ← scan pop_one; again)
    else if b == b'"'
    then (do build_one; again)
    else fail LexError.not_implemented

unfoldable pub string_end : Lex Scanning TokenType → ℕ → Lex Scanning TokenType
unfolding build_one string_escape newline_in_string
string_end again b =
    if b == b'"'
    then (do build_one; pure TokenType.string_literal)
    else if b == b'\n'
    then newline_in_string
    else (do _ ← scan pop_one; e ← scan peek_one; string_escape again e)

unfoldable pub lex_string_literal : ℕ → Lex Scanning TokenType
unfolding string_end
lex_string_literal zero = fail LexError.out_of_fuel
lex_string_literal (suc fuel) = do
  read_run false string_body
  b ← scan peek_one
  string_end (lex_string_literal fuel) b

abbrev pub is_escape : ℕ → Bool
is_escape = class_chars (codes "'\\ntr0")

unfoldable pub character_escape : Lex Scanning TokenType → ℕ → Lex Scanning TokenType
character_escape again b =
    if b == b'\n'
    then (do _ ← scan pop_one; again)
    else if is_escape b
    then (do escape ← scan pop_one; build (b'\\' ∷ escape ∷ []); again)
    else fail LexError.not_implemented

unfoldable pub character_end : Lex Scanning TokenType → ℕ → Lex Scanning TokenType
unfolding build_one character_escape newline_in_character
character_end again b =
    if b == b'\''
    then (do build_one; pure TokenType.character_constant)
    else if b == b'\n'
    then newline_in_character
    else (do _ ← scan pop_one; e ← scan peek_one; character_escape again e)

unfoldable pub lex_character_constant : ℕ → Lex Scanning TokenType
unfolding character_end
lex_character_constant zero = fail LexError.out_of_fuel
lex_character_constant (suc fuel) = do
  read_run false character_body
  b ← scan peek_one
  character_end (lex_character_constant fuel) b
