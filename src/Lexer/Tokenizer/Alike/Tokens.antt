-- ===== src/Lexer/Tokenizer/Alike/Tokens.antt =====
-- `lex` on readers that serve the same bytes.
use wihajster.Common.{ℕ, zero, suc, ◌-◌, ◌<◌, ◌≤◌, inl, inr, true, ◌==◌, arith}
use wihajster.Common.Outcome.{Outcome}
use wihajster.Lexer.Token.{TokenType}
use wihajster.Lexer.Monad.{LexError, Lex}
use wihajster.Lexer.Tokenizer.Reading.{Scanning}
use wihajster.Lexer.Tokenizer.Integers.{digit_class}
use wihajster.Lexer.Tokenizer.Punctuation.{lex_dots, dots_class}
use wihajster.Lexer.Tokenizer.{
  white_class, alpha_class, alpha_digit_class, comment_class, lex_comment_single_line,
  lex_identifier, lex_at, lex,
}
use wihajster.Lexer.Tokenizer.Alike.{
  Alike, oks, Alike-after, Alike-map, Alike-if, Alike-weaken, Same, Loaded, Loaded-Same,
  Same-weaken,
}
use wihajster.Lexer.Tokenizer.Alike.Steps.{
  peek-Alike, take-Alike, build_one-Alike, run-Alike, skip-Alike,
}
use wihajster.Lexer.Tokenizer.Alike.Integers.{
  lex_decimal_integer-Alike, lex_octal_or_hexadecimal-Alike,
}
use wihajster.Lexer.Tokenizer.Alike.Strings.{lex_string_literal-Alike, lex_character_constant-Alike}
use wihajster.Lexer.Tokenizer.Alike.Spaces.{Agree, Alike-Agree, lex_white_space-Alike}
use wihajster.Lexer.Tokenizer.Alike.Punctuation.{Follows, lex_punctuation-Alike}

Agree-weaken :
    {j k : ℕ} (kind : TokenType) (s t : Scanning) → j ≤ k → Agree j kind s t → Agree k kind s t
Agree-weaken kind s t h (inl m) = inl (Same-weaken h m)
Agree-weaken kind s t h (inr (e, b)) = inr (
  e,
  record {
    left_input = b.left_input;
    right_input = b.right_input;
    left_position = b.left_position;
    right_position = b.right_position;
    text = b.text;
    left_few = let f = b.left_few in omega (arith, f, h);
    right_few = let f = b.right_few in omega (arith, f, h);
    left = b.left;
    right = b.right;
    same_rest = b.same_rest;
    same_position = b.same_position;
  },
)

Alike-widen :
    {x y : Outcome LexError TokenType × Scanning} (j k : ℕ)
    → j ≤ k
    → Alike (Agree j) (Same j) x y
    → Alike (Agree k) (Same k) x y
Alike-widen j k h a =
    Alike-map (λ kind s t m. Agree-weaken kind s t h m) (λ _ _ m. Same-weaken h m) a

lex_identifier-Alike :
    (k : ℕ) (s t : Scanning)
    → Same k s t
    → Alike (λ _. Same k) (Same k) (lex_identifier s) (lex_identifier t)
unfolding lex_identifier
lex_identifier-Alike k s t m =
    Alike-after (run-Alike k true alpha_digit_class s t m) λ _ s' t' n. oks n

lex_dots-Alike :
    (k : ℕ) (s t : Scanning) → Same k s t → Alike (λ _. Same k) (Same k) (lex_dots s) (lex_dots t)
unfolding lex_dots
lex_dots-Alike k s t m = Alike-after (run-Alike k true dots_class s t m) λ _ s' t' n. oks n

-- A continuation for what follows a comment.
abbrev Resumes : ℕ → Lex Scanning TokenType → Type 0
Resumes limit again =
    (j : ℕ) (s t : Scanning) → j < limit → Same j s t → Alike (Agree j) (Same j) (again s) (again t)

lex_comment_single_line-Alike :
    (fuel limit k : ℕ) (again : Lex Scanning TokenType) (s t : Scanning)
    → k < fuel
    → k ≤ limit
    → Resumes limit again
    → Same k s t
    → Alike
        (Agree k)
        (Same k)
        (lex_comment_single_line fuel again s)
        (lex_comment_single_line fuel again t)
unfolding lex_comment_single_line
lex_comment_single_line-Alike zero limit k again s t h i r m = absurd (omega (arith, h))
lex_comment_single_line-Alike (suc fuel) limit k again s t h i r m =
    Alike-after (skip-Alike k comment_class s t m) λ _ s' t' m'.
      Alike-after (take-Alike k s' t' m') λ b s₂ t₂ (z, m₂).
        Alike-if _ _ s₂ t₂ (b == b'\\')
          (Alike-widen (k - 1) k (omega arith) (
            lex_comment_single_line-Alike fuel limit (k - 1) again s₂ t₂ (omega (arith, z, h))
              (omega (arith, i)) r m₂))
          (Alike-widen (k - 1) k (omega arith) (r (k - 1) s₂ t₂ (omega (arith, z, i)) m₂))

lex_at-Alike :
    (fuel k b : ℕ) (again : Lex Scanning TokenType) (s t : Scanning)
    → k ≤ fuel
    → Resumes fuel again
    → Loaded k b s t
    → Alike (Agree k) (Same k) (lex_at fuel again b s) (lex_at fuel again b t)
unfolding lex_at
lex_at-Alike fuel k b again s t h r l =
    let few = l.few in
    let z : 0 < k = omega (arith, few) in
    let m = Loaded-Same l in
    Alike-if _ _ s t (white_class b) (lex_white_space-Alike k b s t l) (
      Alike-if _ _ s t (alpha_class b) (Alike-Agree (lex_identifier-Alike k s t m)) (
        Alike-if _ _ s t (b == b'0') (Alike-Agree (lex_octal_or_hexadecimal-Alike k b s t l)) (
          Alike-if _ _ s t (digit_class b) (Alike-Agree (lex_decimal_integer-Alike k s t m)) (
            Alike-if _ _ s t (b == b'\'')
              (Alike-Agree (
                Alike-after (build_one-Alike k b s t l) λ _ s' t' n.
                  Alike-weaken (k - 1) k (omega arith)
                    (lex_character_constant-Alike fuel (k - 1) s' t' (omega (arith, z, h)) n)))
              (Alike-if _ _ s t (b == b'"')
                (Alike-Agree (
                  Alike-after (build_one-Alike k b s t l) λ _ s' t' n.
                    Alike-weaken (k - 1) k (omega arith)
                      (lex_string_literal-Alike fuel (k - 1) s' t' (omega (arith, z, h)) n)))
                (Alike-if _ _ s t (b == b'.') (Alike-Agree (lex_dots-Alike k s t m)) (
                  Alike-map (λ kind s' t' a. Agree-weaken kind s' t' (omega arith) a) (λ _ _ q. q)
                    (lex_punctuation-Alike k b (lex_comment_single_line fuel again) s t comment
                      l))))))))
  where
    comment : Follows (k - 1) (lex_comment_single_line fuel again)
    comment s t m =
        let few = l.few in
        Alike-widen (k - 1 - 1) (k - 1) (omega arith) (
          lex_comment_single_line-Alike fuel fuel (k - 1 - 1) again s t (omega (arith, few, h))
            (omega (arith, h)) r m)

-- Over two readers that serve the same bytes in chunks of any sizes, none empty, with `io.EOF`
-- beside the last bytes or after them, and no other error, `lex` gives the same kind of token or
-- the same error, appends the same text, and leaves scanners that stand at one line and column with
-- the same bytes to come. After a token for white space, of which a chunk may hold a part only,
-- that holds once the rest of the white space is read. Where the fuel is more than the number of
-- the bytes to come, it does not run out, and no byte is taken from an empty buffer, and no buffer
-- is filled that is not empty.
pub lex-Alike :
    (fuel k : ℕ) (s t : Scanning)
    → k < fuel
    → Same k s t
    → Alike (Agree k) (Same k) (lex fuel s) (lex fuel t)
unfolding lex
lex-Alike zero k s t h m = absurd (omega (arith, h))
lex-Alike (suc fuel) k s t h m = Alike-after (peek-Alike k s t m) λ b s' t' l.
    lex_at-Alike fuel k b (lex fuel) s' t' (omega (arith, h))
      (λ j s₂ t₂ i n. lex-Alike fuel j s₂ t₂ i n) l
