-- ===== src/Lexer/Tokenizer/Identifiers.antt =====
-- Identifiers as the longest runs.
use wihajster.Common.{ℕ, suc, true, false, ◌∷◌, ◌++◌, ◌≡◌, refl, arith}
use wihajster.Common.Bytes.{Bytes}
use wihajster.Common.Outcome.{Outcome, ok, err}
use wihajster.Lexer.Token.{TokenType}
use wihajster.Lexer.Monad.{LexError, Lex, pure, after}
use wihajster.Lexer.Scanner.{Scanner, prefix_in, rest_in}
use wihajster.Lexer.Scanner.Position.{advance_bytes}
use wihajster.Lexer.Scanner.Reads.{Peeked, saw, saw_end, peek_one-Peeked}
use wihajster.Lexer.Tokenizer.Reading.{Scanning, replace, read_run}
use wihajster.Lexer.Tokenizer.Runs.{Stands, Ran, read_run-Ran}
use wihajster.Lexer.Tokenizer.{
  white_class, alpha_class, alpha_digit_class, lex_identifier, lex_at, lex,
}

alpha-not_white : (c : ℕ) → alpha_class c ≡ true → white_class c ≡ false
alpha-not_white c h = ground (arith, h)

-- The token is an identifier, of all the letters and digits that come next.
pub record Identified (input text : Bytes) (position : ℕ × ℕ)
    (out : Outcome LexError TokenType × Scanning) : Type 0 where
  pub kind : out.0 ≡ ok TokenType.identifier
  pub stands :
      Stands
        (rest_in alpha_digit_class input)
        (text ++ prefix_in alpha_digit_class input)
        (advance_bytes (prefix_in alpha_digit_class input) position)
        out.1

Ran-Identified :
    (input text : Bytes) (position : ℕ × ℕ) (o : Outcome LexError (Unit {0}) × Scanning)
    → Ran true true alpha_digit_class input text position o
    → Identified input text position (after o (λ _. pure TokenType.identifier))
Ran-Identified input text position (ok tt, s) r = record { kind = refl; stands = r.stands }
Ran-Identified input text position (err e, s) r =
    let wrong : ◌≡◌ {A = Outcome LexError (Unit {0})} (err e) (ok tt) = r.result in absurd cc

lex_identifier-Identified :
    (input text : Bytes) (position : ℕ × ℕ) (s : Scanning)
    → Stands input text position s
    → Identified input text position (lex_identifier s)
unfolding lex_identifier
lex_identifier-Identified input text position s st =
    Ran-Identified input text position (read_run true alpha_digit_class s)
      (read_run-Ran true alpha_digit_class input text position s st)

lex_at-Identified :
    (fuel b : ℕ) (again : Lex Scanning TokenType) (input text : Bytes) (position : ℕ × ℕ)
    (s : Scanning)
    → alpha_class b ≡ true
    → Stands input text position s
    → Identified input text position (lex_at fuel again b s)
unfolding lex_at
lex_at-Identified fuel b again input text position s h st =
    let w = alpha-not_white b h in rw (w, h) (lex_identifier-Identified input text position s st)

Peeked-Identified :
    {o : Outcome LexError ℕ × Scanner} (fuel c : ℕ) (rest text : Bytes) (position : ℕ × ℕ)
    (s : Scanning)
    → alpha_class c ≡ true
    → s.text ≡ text
    → Peeked (c ∷ rest) position o
    → Identified (c ∷ rest) text position (after (replace s o) (lex_at fuel (lex fuel)))
Peeked-Identified fuel c rest text position s h e (saw b rest' i r) =
    let b_eq : b ≡ c = cc in
    rw i (
      lex_at-Identified fuel b (lex fuel) (b ∷ rest') text position _ (rw b_eq h)
        (record { at = r.there; got = e }))
Peeked-Identified fuel c rest text position s h e (saw_end i at) = cc

-- Where a letter or an underscore comes next, over a reader that returns at least one byte at each
-- `Read` until the end, with `io.EOF` beside the last bytes or after them and no other error, `lex`
-- gives an identifier, appends all the letters, digits and underscores that come next, and stands
-- behind them.
pub lex-Identified :
    (fuel c : ℕ) (rest text : Bytes) (position : ℕ × ℕ) (s : Scanning)
    → alpha_class c ≡ true
    → Stands (c ∷ rest) text position s
    → Identified (c ∷ rest) text position (lex (suc fuel) s)
unfolding lex
lex-Identified fuel c rest text position s h st =
    Peeked-Identified fuel c rest text position s h st.got
      (peek_one-Peeked s.scanner (c ∷ rest) position st.at)
