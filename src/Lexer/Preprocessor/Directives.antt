-- ===== src/Lexer/Preprocessor/Directives.antt =====
-- Directives, and `next`.
use wihajster.Common.{
  ℕ, zero, suc, true, ◌&&◌, leb, List, [], ◌∷◌, ◌++◌, All, All-append, if_both, ◌≡◌, refl,
}
use wihajster.Common.Bytes.{Bytes, codes}
use wihajster.Common.Maps.{bytes_key, bytes_eq}
use wihajster.Common.Outcome.{Outcome}
use wihajster.Lexer.Token.{TokenType, Token, is_valid_type}
use wihajster.Lexer.Monad.{LexError, Lex}
use wihajster.Lexer.Tokenizer.Reading.{Scanning}
use wihajster.Lexer.Tokenizer.Kinds.{Yields, yields, fails, Yields-after, Yields-if, Always}
use wihajster.Lexer.Tokenizer.AllKinds.{lex-Proper}
use wihajster.Lexer.Preprocessor.{
  Preprocessor, fail_at, replace_scanning, lex_token, pop_from_ready, accumulator_string,
  handle_dots, set_macro, define_body, is_identifier, handle_define_name, start_directive,
  handle_directive, check_directive, handle_token, next_scanned, or_scanned, next,
}
use wihajster.Lexer.Preprocessor.Valid.{
  IsValid, Sound, GivesValid, make_token-Valid, Keeps, handle_identifier-Valid, next_pp_token-Valid,
}

define_body-Valid :
    (fuel : ℕ) (again : Lex Preprocessor Token) (name : Bytes) (body : List Token)
    → Keeps again
    → All IsValid body
    → Keeps (define_body fuel again name body)
unfolding define_body set_macro
define_body-Valid zero again name body k v p s = fails s
define_body-Valid (suc fuel) again name body k v p s =
    Yields-after (next_pp_token-Valid again p k s) λ (tok, same_line) p' (w, s').
      Yields-if _ _ p' same_line
        (define_body-Valid fuel again name (body ++ (tok ∷ [])) k
          (All-append IsValid body (tok ∷ []) v (w, tt)) p' s')
        (yields (w, record { ready = s'.ready; bodies = (v, s'.bodies) }))

handle_define_name-Valid :
    (fuel : ℕ) (again : Lex Preprocessor Token)
    → Keeps again
    → Keeps (handle_define_name fuel again)
unfolding handle_define_name fail_at
handle_define_name-Valid fuel again k p s =
    Yields-after (next_pp_token-Valid again p k s) λ (tok, same_line) p' (w, s').
      Yields-if _ _ p' (same_line && is_identifier tok.token_type)
        (define_body-Valid fuel again tok.raw [] k tt p' s') (fails s')

check_directive-Valid :
    (fuel : ℕ) (again : Lex Preprocessor Token) → Keeps again → Keeps (check_directive fuel again)
unfolding check_directive handle_directive fail_at start_directive
check_directive-Valid fuel again k p s =
    if_both GivesValid (leb p.line p.last_seen_line) (fails s) (
      Yields-after (next_pp_token-Valid again _ k (record { ready = s.ready; bodies = s.bodies }))
        λ (tok, same_line) p' (w, s').
          Yields-if _ _ p' same_line
            (Yields-if _ _ p' (is_identifier tok.token_type)
              (Yields-if _ _ p' (bytes_eq tok.raw (codes "define"))
                (handle_define_name-Valid fuel again k p' s') (fails s'))
              (fails s'))
            (fails s'))

handle_dots-Valid : (text : Bytes) → Keeps (handle_dots text)
unfolding handle_dots fail_at is_valid_type
handle_dots-Valid text p s =
    Yields-if _ _ p (bytes_eq text (codes ".")) (make_token-Valid TokenType.dot p refl s) (
      Yields-if _ _ p (bytes_eq text (codes "...")) (make_token-Valid TokenType.ellipsis p refl s)
        (fails s))

handle_token-Valid :
    (fuel : ℕ) (again : Lex Preprocessor Token) (kind : TokenType)
    → Keeps again
    → is_valid_type kind ≡ true
    → Keeps (handle_token fuel again kind)
unfolding handle_token accumulator_string
handle_token-Valid fuel again TokenType.whitespace k v p s = k p s
handle_token-Valid fuel again TokenType.identifier k v p s = handle_identifier-Valid again k p s
handle_token-Valid fuel again TokenType.dots k v p s = handle_dots-Valid p.scanning.text p s
handle_token-Valid fuel again TokenType.preproc_start k v p s =
    check_directive-Valid fuel again k p s
handle_token-Valid fuel again kind k v p s = make_token-Valid kind p v s

lexed-Valid :
    {o : Outcome LexError TokenType × Scanning} (p : Preprocessor)
    → Yields (λ kind _. is_valid_type kind ≡ true) Always o
    → Sound p
    → Yields (λ kind p'. (is_valid_type kind ≡ true) × Sound p') Sound (replace_scanning p o)
lexed-Valid p (yields v) s = yields (v, record { ready = s.ready; bodies = s.bodies })
lexed-Valid p (fails _) s = fails (record { ready = s.ready; bodies = s.bodies })

popped-Valid :
    (tokens : List Token) (p : Preprocessor) (scanned : Lex Preprocessor Token)
    → All IsValid tokens
    → Sound p
    → Keeps scanned
    → GivesValid (or_scanned scanned (pop_from_ready tokens p))
unfolding pop_from_ready
popped-Valid [] p scanned v s k = k p s
popped-Valid (tok ∷ tokens) p scanned (v, vs) s k =
    yields (v, record { ready = vs; bodies = s.bodies })

next_scanned-Valid :
    (fuel : ℕ) (again : Lex Preprocessor Token) → Keeps again → Keeps (next_scanned fuel again)
unfolding next_scanned lex_token
next_scanned-Valid fuel again k p s =
    Yields-after
      (lexed-Valid (record p { line = p.scanning.scanner.line; column = p.scanning.scanner.column })
        (lex-Proper fuel (record p.scanning { text = [] }))
        (record { ready = s.ready; bodies = s.bodies }))
      λ kind p' (v, s'). handle_token-Valid fuel again kind k v p' s'

-- Where the tokens that wait and those of the macros are valid, `next` gives a valid token or an
-- error, and leaves the preprocessor so.
pub next-Sound : (fuel : ℕ) (p : Preprocessor) → Sound p → GivesValid (next fuel p)
unfolding next
next-Sound zero p s = fails s
next-Sound (suc fuel) p s =
    popped-Valid p.ready_tokens p (next_scanned fuel (next fuel)) s.ready s
      (next_scanned-Valid fuel (next fuel) (λ p' s'. next-Sound fuel p' s'))
