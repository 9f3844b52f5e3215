-- ===== src/Lexer/Tokenizer/Kinds.antt =====
-- The kinds of tokens that the tokenizer gives.
use wihajster.Common.{
  ℕ, zero, suc, Bool, true, false, ◌||◌, ◌==◌, [], ◌∷◌, if◌then◌else◌, Option, none, some, ◌≡◌,
  refl,
}
use wihajster.Common.Maps.{bytes_key}
use wihajster.Common.Outcome.{Outcome, ok, err}
use wihajster.Lexer.Token.{TokenType, is_valid_type}
use wihajster.Lexer.Monad.{LexError, Lex, after, unless_eof}
use wihajster.Lexer.Scanner.{pop_one, peek_one}
use wihajster.Lexer.Tokenizer.Reading.{Scanning, scan, build, build_one, read_run}
use wihajster.Lexer.Tokenizer.Integers.{
  digit_class, consume_suffix, end_integer, lex_decimal_integer, lex_octal, read_hex,
  lex_hexadecimal, after_zero, lex_octal_or_hexadecimal, or_nul,
}
use wihajster.Lexer.Tokenizer.Strings.{
  string_escape, string_end, lex_string_literal, character_escape, character_end,
  lex_character_constant, is_escape, newline_in_string, newline_in_character,
}

-- A value and a state with a property, or an error.
pub data Yields {S A : Type 0} (P : A → S → Type 0) (Q : S → Type 0)
    : Outcome LexError A × S → Type 0 where
  yields : {a : A} {s : S} → P a s → Yields P Q (ok a, s)
  fails : {e : LexError} {s : S} → Q s → Yields P Q (err e, s)

module _ {S A B : Type 0} {P : A → S → Type 0} {Q : S → Type 0} {R : B → S → Type 0} where
  pub Yields-after :
      {x : Outcome LexError A × S} {f : A → Lex S B}
      → Yields P Q x
      → ((a : A) (s : S) → P a s → Yields R Q (f a s))
      → Yields R Q (after x f)
  Yields-after (yields p) k = k _ _ p
  Yields-after (fails q) k = fails q

pub Yields-if :
    {S A : Type 0} {P : A → S → Type 0} {Q : S → Type 0} (m n : Lex S A) (s : S) (test : Bool)
    → Yields P Q (m s)
    → Yields P Q (n s)
    → Yields P Q ((if test then m else n) s)
Yields-if _ _ s true y n = y
Yields-if _ _ s false y n = n

abbrev pub Always : {S : Type 0} → S → Type 0
Always s = Unit

abbrev pub Proper : Outcome LexError TokenType × Scanning → Type 0
Proper = Yields (λ kind _. is_valid_type kind ≡ true) Always

any : {S A : Type 0} (x : Outcome LexError A × S) → Yields (λ _ _. Unit {0}) Always x
any (ok a, s) = yields tt
any (err e, s) = fails tt

-- What a computation is followed by decides its kind.
pub then-Proper :
    {A : Type 0} (x : Outcome LexError A × Scanning) (f : A → Lex Scanning TokenType)
    → ((a : A) (s : Scanning) → Proper (f a s))
    → Proper (after x f)
then-Proper x f k = Yields-after (any x) λ a s _. k a s

end_integer-Proper : (s : Scanning) → Proper (end_integer s)
unfolding end_integer is_valid_type
end_integer-Proper s = then-Proper (unless_eof consume_suffix s) _ λ _ _. yields refl

pub lex_decimal_integer-Proper : (s : Scanning) → Proper (lex_decimal_integer s)
unfolding lex_decimal_integer
lex_decimal_integer-Proper s = then-Proper (read_run true digit_class s) _ λ _ s'.
    then-Proper (unless_eof (scan peek_one) s') _ λ o s₂.
      Yields-if _ _ s₂ ((or_nul o == b'.') || (or_nul o == b'e') || (or_nul o == b'E')) (fails tt)
        (end_integer-Proper s₂)

lex_hexadecimal-Proper : (s : Scanning) → Proper (lex_hexadecimal s)
unfolding lex_hexadecimal
lex_hexadecimal-Proper s = then-Proper (read_hex s) _ λ _ s'.
    then-Proper (unless_eof (scan peek_one) s') _ λ o s₂.
      Yields-if _ _ s₂ ((or_nul o == b'.') || (or_nul o == b'p') || (or_nul o == b'P')) (fails tt)
        (end_integer-Proper s₂)

after_zero-Proper : (o : Option ℕ) (s : Scanning) → Proper (after_zero o s)
unfolding after_zero lex_octal is_valid_type
after_zero-Proper none s = yields refl
after_zero-Proper (some b) s =
    Yields-if _ _ s ((b == b'x') || (b == b'X'))
      (then-Proper (build_one s) _ λ _. lex_hexadecimal-Proper)
      (then-Proper (read_run true _ s) _ λ _. end_integer-Proper)

pub lex_octal_or_hexadecimal-Proper : (s : Scanning) → Proper (lex_octal_or_hexadecimal s)
unfolding lex_octal_or_hexadecimal
lex_octal_or_hexadecimal-Proper s = then-Proper (scan pop_one s) _ λ _ s'.
    then-Proper (unless_eof (scan peek_one) (build (b'0' ∷ []) s').1) _ λ o. after_zero-Proper o

abbrev pub AlwaysProper : Lex Scanning TokenType → Type 0
AlwaysProper m = (s : Scanning) → Proper (m s)

string_escape-Proper :
    (again : Lex Scanning TokenType) (b : ℕ)
    → AlwaysProper again
    → AlwaysProper (string_escape again b)
unfolding string_escape
string_escape-Proper again b k s =
    Yields-if _ _ s (b == b'\n') (then-Proper (scan pop_one s) _ λ _. k)
      (Yields-if _ _ s (b == b'"') (then-Proper (build_one s) _ λ _. k) (fails tt))

string_end-Proper :
    (again : Lex Scanning TokenType) (b : ℕ)
    → AlwaysProper again
    → AlwaysProper (string_end again b)
unfolding string_end newline_in_string is_valid_type
string_end-Proper again b k s =
    Yields-if _ _ s (b == b'"') (then-Proper (build_one s) _ λ _ _. yields refl) (
      Yields-if _ _ s (b == b'\n') (fails tt) (
        then-Proper (scan pop_one s) _
          λ _ s'. then-Proper (scan peek_one s') _ λ e. string_escape-Proper again e k))

pub lex_string_literal-Proper : (fuel : ℕ) → AlwaysProper (lex_string_literal fuel)
unfolding lex_string_literal
lex_string_literal-Proper zero s = fails tt
lex_string_literal-Proper (suc fuel) s = then-Proper (read_run false _ s) _ λ _ s'.
    then-Proper (scan peek_one s') _
      λ b. string_end-Proper (lex_string_literal fuel) b (lex_string_literal-Proper fuel)

character_escape-Proper :
    (again : Lex Scanning TokenType) (b : ℕ)
    → AlwaysProper again
    → AlwaysProper (character_escape again b)
unfolding character_escape
character_escape-Proper again b k s =
    Yields-if _ _ s (b == b'\n') (then-Proper (scan pop_one s) _ λ _. k) (
      Yields-if _ _ s (is_escape b)
        (then-Proper (scan pop_one s) _ λ e s'. k (build (b'\\' ∷ e ∷ []) s').1) (fails tt))

character_end-Proper :
    (again : Lex Scanning TokenType) (b : ℕ)
    → AlwaysProper again
    → AlwaysProper (character_end again b)
unfolding character_end newline_in_character is_valid_type
character_end-Proper again b k s =
    Yields-if _ _ s (b == b'\'') (then-Proper (build_one s) _ λ _ _. yields refl) (
      Yields-if _ _ s (b == b'\n') (fails tt) (
        then-Proper (scan pop_one s) _
          λ _ s'. then-Proper (scan peek_one s') _ λ e. character_escape-Proper again e k))

pub lex_character_constant-Proper : (fuel : ℕ) → AlwaysProper (lex_character_constant fuel)
unfolding lex_character_constant
lex_character_constant-Proper zero s = fails tt
lex_character_constant-Proper (suc fuel) s = then-Proper (read_run false _ s) _ λ _ s'.
    then-Proper (scan peek_one s') _
      λ b. character_end-Proper (lex_character_constant fuel) b (lex_character_constant-Proper fuel)
