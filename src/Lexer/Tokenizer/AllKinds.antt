-- ===== src/Lexer/Tokenizer/AllKinds.antt =====
-- The kinds of punctuation, and of `lex`.
use wihajster.Common.{ℕ, zero, suc, true, ◌==◌, if◌then◌else◌, ◌≡◌, refl}
use wihajster.Common.Maps.{bytes_key}
use wihajster.Lexer.Token.{TokenType, is_valid_type}
use wihajster.Lexer.Monad.{Lex, pure, after, unless_eof, ◌>>◌}
use wihajster.Lexer.Scanner.{pop_one, peek_one, read_one, read_bytes_in_class}
use wihajster.Lexer.Tokenizer.Reading.{Scanning, scan, build_one, read_run, skip_run}
use wihajster.Lexer.Tokenizer.Integers.{digit_class, or_nul}
use wihajster.Lexer.Tokenizer.Punctuation.{
  send_two, end_shift, end_single, end_two, end_punctuation, lex_punctuation, lex_dots, two_chars,
  one_char, char_equal,
}
use wihajster.Lexer.Tokenizer.{
  white_class, alpha_class, lex_white_space, lex_comment_single_line, lex_identifier, lex_at, lex,
}
use wihajster.Lexer.Tokenizer.Kinds.{
  Yields-if, Proper, then-Proper, lex_decimal_integer-Proper, lex_octal_or_hexadecimal-Proper,
  AlwaysProper, lex_string_literal-Proper, lex_character_constant-Proper, yields, fails,
}

end_shift-Proper :
    (shift assignment : TokenType)
    → is_valid_type shift ≡ true
    → is_valid_type assignment ≡ true
    → AlwaysProper (end_shift shift assignment)
unfolding end_shift
end_shift-Proper shift assignment v w s = then-Proper (unless_eof (scan peek_one) s) _ λ o s'.
    Yields-if _ _ s' (or_nul o == b'=') (then-Proper (build_one s') _ λ _ _. yields w) (yields v)

end_single-Proper :
    (first second : ℕ) (kind : TokenType) → AlwaysProper (end_single first second kind)
unfolding end_single is_valid_type
end_single-Proper first second TokenType.nil s = fails tt
end_single-Proper first second _ s = yields refl

sent-Proper :
    (first second : ℕ) (kind : TokenType) (s : Scanning)
    → is_valid_type kind ≡ true
    → Proper (after (send_two first second s) (λ _. pure kind))
sent-Proper first second kind s v = then-Proper (send_two first second s) _ λ _ _. yields v

end_two-Proper :
    (first second : ℕ) (comment : Lex Scanning TokenType) (kind : TokenType)
    → AlwaysProper comment
    → AlwaysProper (end_two first second comment kind)
unfolding end_two is_valid_type
end_two-Proper first second comment TokenType.nil k s =
    end_single-Proper first second (one_char first) s
end_two-Proper first second comment TokenType.comment_single k s =
    then-Proper (scan pop_one s) _ λ _. k
end_two-Proper first second comment TokenType.comment_multi k s =
    then-Proper (scan pop_one s) _ λ _ _. fails tt
end_two-Proper first second comment TokenType.shift_left k s =
    then-Proper (send_two first second s) _
      λ _. end_shift-Proper TokenType.shift_left TokenType.shift_left_assign refl refl
end_two-Proper first second comment TokenType.shift_right k s =
    then-Proper (send_two first second s) _
      λ _. end_shift-Proper TokenType.shift_right TokenType.shift_right_assign refl refl
end_two-Proper first second comment kind k s = sent-Proper first second kind s refl

equal-Proper :
    (first second : ℕ) (comment : Lex Scanning TokenType) (kind : TokenType) (s : Scanning)
    → is_valid_type kind ≡ true
    → AlwaysProper comment
    → Proper (
        (if second == b'='
            then (send_two first second >> pure kind)
            else end_two first second comment (two_chars first second))
          s)
equal-Proper first second comment kind s v k =
    Yields-if _ _ s (second == b'=') (sent-Proper first second kind s v)
      (end_two-Proper first second comment (two_chars first second) k s)

end_punctuation-Proper :
    (first second : ℕ) (comment : Lex Scanning TokenType) (kind : TokenType)
    → AlwaysProper comment
    → AlwaysProper (end_punctuation first second comment kind)
unfolding end_punctuation is_valid_type
end_punctuation-Proper first second comment TokenType.nil k s =
    end_two-Proper first second comment (two_chars first second) k s
end_punctuation-Proper first second comment kind k s =
    equal-Proper first second comment kind s refl k

lex_punctuation-Proper :
    (comment : Lex Scanning TokenType)
    → AlwaysProper comment
    → AlwaysProper (lex_punctuation comment)
unfolding lex_punctuation
lex_punctuation-Proper comment k s = then-Proper (scan pop_one s) _ λ first s'.
    then-Proper (unless_eof (scan peek_one) s') _
      λ o. end_punctuation-Proper first (or_nul o) comment (char_equal first) k

lex_comment_single_line-Proper :
    (fuel : ℕ) (again : Lex Scanning TokenType)
    → AlwaysProper again
    → AlwaysProper (lex_comment_single_line fuel again)
unfolding lex_comment_single_line
lex_comment_single_line-Proper zero again k s = fails tt
lex_comment_single_line-Proper (suc fuel) again k s = then-Proper (skip_run _ s) _ λ _ s'.
    then-Proper (scan read_one s') _
      λ b s₂. Yields-if _ _ s₂ (b == b'\\') (lex_comment_single_line-Proper fuel again k s₂) (k s₂)

lex_at-Proper :
    (fuel : ℕ) (again : Lex Scanning TokenType) (b : ℕ)
    → AlwaysProper again
    → AlwaysProper (lex_at fuel again b)
unfolding lex_at lex_white_space lex_identifier lex_dots is_valid_type
lex_at-Proper fuel again b k s =
    Yields-if _ _ s (white_class b)
      (then-Proper (scan (read_bytes_in_class white_class) s) _ λ _ _. yields refl)
      (Yields-if _ _ s (alpha_class b) (then-Proper (read_run true _ s) _ λ _ _. yields refl) (
        Yields-if _ _ s (b == b'0') (lex_octal_or_hexadecimal-Proper s) (
          Yields-if _ _ s (digit_class b) (lex_decimal_integer-Proper s) (
            Yields-if _ _ s (b == b'\'')
              (then-Proper (build_one s) _ λ _. lex_character_constant-Proper fuel)
              (Yields-if _ _ s (b == b'"')
                (then-Proper (build_one s) _ λ _. lex_string_literal-Proper fuel)
                (Yields-if _ _ s (b == b'.') (then-Proper (read_run true _ s) _ λ _ _. yields refl)
                  (lex_punctuation-Proper (lex_comment_single_line fuel again)
                    (lex_comment_single_line-Proper fuel again k) s)))))))

pub lex-Proper : (fuel : ℕ) → AlwaysProper (lex fuel)
unfolding lex
lex-Proper zero s = fails tt
lex-Proper (suc fuel) s =
    then-Proper (scan peek_one s) _ λ b. lex_at-Proper fuel (lex fuel) b (lex-Proper fuel)
