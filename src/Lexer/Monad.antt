-- ===== src/Lexer/Monad.antt =====
-- The functions of internal/lexer that change a state and may fail. The state is kept at an error,
-- since the callers go on after `io.EOF`.
use wihajster.Common.{ℕ, Bool, true, false, Option, none, some}
use wihajster.Common.Bytes.{Bytes}
use wihajster.Common.Outcome.{Outcome, ok, err}

-- The errors of an `io.Reader`.
pub data ReadError : Type 0 where
  eof : ReadError
  failed : ℕ → ReadError

-- The errors, with the positions and the bytes that their texts hold.
pub data LexError : Type 0 where
  read_error : ReadError → LexError
  not_implemented : LexError
  hex_without_value newline_in_string newline_in_character : ℕ → ℕ → LexError
  invalid_punctuation : ℕ → ℕ → LexError
  directive_not_on_line_start empty_directive : ℕ → ℕ → LexError
  expected_directive_name expected_definition_name : ℕ → ℕ → LexError
  unsupported_directive wanted_dots : ℕ → ℕ → Bytes → LexError
  -- `popOneFromBuffer` on an empty buffer, where the program panics.
  pop_panic : LexError
  -- `fillBuffer` on a buffer that is not empty, where the program panics.
  fill_panic : LexError
  out_of_fuel : LexError

abbrev pub Lex : Type 0 → Type 0 → Type 0
Lex S A = S → Outcome LexError A × S

module _ {S : Type 0} where
  abbrev pub pure : {A : Type 0} → A → Lex S A
  pure a s = (ok a, s)

  abbrev pub fail : {A : Type 0} → LexError → Lex S A
  fail e s = (err e, s)

  abbrev pub after :
      {A B : Type 0} → Outcome LexError A × S → (A → Lex S B) → Outcome LexError B × S
  after (ok a, s) f = f a s
  after (err e, s) f = (err e, s)

  infixl 5 ◌>>=◌ ◌>>◌
  abbrev pub ◌>>=◌ : {A B : Type 0} → Lex S A → (A → Lex S B) → Lex S B
  ◌>>=◌ m f s = after (m s) f

  abbrev pub ◌>>◌ : {B : Type 0} → Lex S (Unit {0}) → Lex S B → Lex S B
  m >> k = m >>= λ _. k

  abbrev pub expect : Bool → LexError → Lex S (Unit {0})
  expect true e = pure tt
  expect false e = fail e

  abbrev pub at_end : {A : Type 0} → Outcome LexError A × S → Outcome LexError (Option A) × S
  at_end (ok a, s) = (ok (some a), s)
  at_end (err (LexError.read_error ReadError.eof), s) = (ok none, s)
  at_end (err e, s) = (err e, s)

  -- `if err != nil && err != io.EOF { return err }`: nothing where the input has ended.
  abbrev pub unless_eof : {A : Type 0} → Lex S A → Lex S (Option A)
  unless_eof m s = at_end (m s)
