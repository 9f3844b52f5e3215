-- ===== src/Lexer/Client/Lookahead.antt =====
-- `Peek` before `Next`.
use wihajster.Common.{ℕ, false, ◌⊎◌, inl, inr, ◌≡◌, refl, ap, sym, ◌∙◌}
use wihajster.Common.Outcome.{Outcome, ok, err}
use wihajster.Lexer.Token.{Token, is_valid_type}
use wihajster.Lexer.Monad.{LexError}
use wihajster.Lexer.Tokenizer.Kinds.{yields, fails}
use wihajster.Lexer.Preprocessor.{Preprocessor, next}
use wihajster.Lexer.Preprocessor.Valid.{IsValid, Sound, GivesValid}
use wihajster.Lexer.Preprocessor.Directives.{next-Sound}
use wihajster.Lexer.Client.{Lexer, empty_token, keep, hand_on, peek_token, next_token}

-- The lookahead is empty or valid, and so are the tokens that the preprocessor keeps.
pub record Settled (l : Lexer) : Type 0 where
  pub lookahead : (l.next_tok ≡ empty_token) ⊎ IsValid l.next_tok
  pub sound : Sound l.preprocessor

-- `Next` after `Peek` gives the token or the error that `Peek` gave, and both together do what
-- `Next` alone does.
abbrev pub Repeats : ℕ → Lexer → Outcome LexError Token × Lexer → Type 0
Repeats fuel l (ok tok, l') =
    (next_token fuel l' ≡ next_token fuel l) × ((next_token fuel l).0 ≡ ok tok) × Settled l'
Repeats fuel l (err e, l') = (next_token fuel l ≡ (err e, l')) × Settled l'

next_token-keep :
    (fuel : ℕ) (l : Lexer)
    → IsValid l.next_tok
    → next_token fuel l ≡ (ok l.next_tok, record l { next_tok = empty_token })
unfolding next_token
next_token-keep fuel l v = rw v refl

invalid : (l : Lexer) → l.next_tok ≡ empty_token → is_valid_type l.next_tok.token_type ≡ false
unfolding is_valid_type
invalid l e = ap (λ (tok : Token). is_valid_type tok.token_type) e

next_token-scan :
    (fuel : ℕ) (l : Lexer)
    → l.next_tok ≡ empty_token
    → next_token fuel l ≡ hand_on l (next fuel l.preprocessor)
unfolding next_token
next_token-scan fuel l e = let z = invalid l e in rw z refl

given : Token → Lexer → Preprocessor → Token → Outcome LexError Token × Lexer
given tok l p t = (ok tok, record l { preprocessor = p; next_tok = t })

kept_Repeats :
    {out : Outcome LexError Token × Preprocessor} (fuel : ℕ) (l : Lexer)
    → l.next_tok ≡ empty_token
    → next_token fuel l ≡ hand_on l out
    → GivesValid out
    → Repeats fuel l (keep l out)
unfolding keep hand_on given
kept_Repeats fuel l e n (yields {a = tok} {s = p} (v, s)) = (
  next_token-keep fuel (record l { preprocessor = p; next_tok = tok }) v
      ∙ ap (given tok l p) (sym e)
      ∙ sym n,
  ap (λ (x : Outcome LexError Token × Lexer). x.0) n,
  record { lookahead = inr v; sound = s },
)
kept_Repeats fuel l e n (fails s) = (n, record { lookahead = inl e; sound = s })

-- Where the lookahead is empty or valid, and the tokens that the preprocessor keeps are valid,
-- `Next` after a `Peek` that gave a token gives that token, and the two together give the result and
-- the state of `Next` alone; where `Peek` fails, `Next` alone fails so. `Peek` keeps the condition.
pub peek_token-Repeats : (fuel : ℕ) (l : Lexer) → Settled l → Repeats fuel l (peek_token fuel l)
unfolding peek_token
peek_token-Repeats fuel l s = elim s.lookahead [
  | inl e ↦
      let z = invalid l e in
      rw z
        (kept_Repeats fuel l e (next_token-scan fuel l e) (next-Sound fuel l.preprocessor s.sound))
  | inr v ↦
      rw v (refl, ap (λ (x : Outcome LexError Token × Lexer). x.0) (next_token-keep fuel l v), s)
]
