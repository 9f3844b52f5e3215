-- ===== src/Lexer/Preprocessor/Valid.antt =====
-- Tokens that `Token.IsValid` accepts, out of the preprocessor.
use wihajster.Common.{
  Bool, true, List, [], ◌∷◌, Option, none, some, All, Option-cases, inl, inr, ◌≡◌, refl,
}
use wihajster.Common.Bytes.{Bytes}
use wihajster.Common.Maps.{lookup, AllValues, OnSome, lookup-AllValues, bytes_key}
use wihajster.Common.Outcome.{Outcome}
use wihajster.Lexer.Token.{TokenType, Token, is_valid_type}
use wihajster.Lexer.Monad.{LexError, Lex}
use wihajster.Lexer.Tokenizer.Kinds.{Yields, yields, Yields-after}
use wihajster.Lexer.Preprocessor.Keywords.{keywords, keyword_type}
use wihajster.Lexer.Preprocessor.{
  Preprocessor, make_token, handle_substitution, handle_identifier, next_pp_token, next,
}

abbrev pub IsValid : Token → Type 0
IsValid tok = is_valid_type tok.token_type ≡ true

-- The tokens that the preprocessor keeps are valid.
pub record Sound (p : Preprocessor) : Type 0 where
  pub ready : All IsValid p.ready_tokens
  pub bodies : AllValues (All IsValid) p.macros

abbrev pub GivesValid : Outcome LexError Token × Preprocessor → Type 0
GivesValid = Yields (λ tok p. IsValid tok × Sound p) Sound

keywords-Valid : AllValues (λ kind. is_valid_type kind ≡ true) keywords
unfolding is_valid_type
keywords-Valid = (
  refl,
  (
    refl,
    (
      refl,
      (
        refl,
        (
          refl,
          (
            refl,
            (
              refl,
              (
                refl,
                (
                  refl,
                  (
                    refl,
                    (
                      refl,
                      (
                        refl,
                        (
                          refl,
                          (
                            refl,
                            (
                              refl,
                              (
                                refl,
                                (
                                  refl,
                                  (
                                    refl,
                                    (
                                      refl,
                                      (
                                        refl,
                                        (
                                          refl,
                                          (
                                            refl,
                                            (
                                              refl,
                                              (
                                                refl,
                                                (
                                                  refl,
                                                  (
                                                    refl,
                                                    (
                                                      refl,
                                                      (
                                                        refl,
                                                        (
                                                          refl,
                                                          (
                                                            refl,
                                                            (
                                                            refl,
                                                            (
                                                            refl,
                                                            (
                                                            refl,
                                                            (refl, (refl, (refl, (refl, tt)))),
                                                            ),
                                                            ),
                                                            ),
                                                          ),
                                                        ),
                                                      ),
                                                    ),
                                                  ),
                                                ),
                                              ),
                                            ),
                                          ),
                                        ),
                                      ),
                                    ),
                                  ),
                                ),
                              ),
                            ),
                          ),
                        ),
                      ),
                    ),
                  ),
                ),
              ),
            ),
          ),
        ),
      ),
    ),
  ),
)

keyword_type-Valid : (text : Bytes) → is_valid_type (keyword_type text) ≡ true
unfolding keyword_type is_valid_type
keyword_type-Valid text = elim (Option-cases (lookup text keywords)) [
  | inl e ↦ rw e refl
  | inr (kind, e) ↦
      rw e (
        rw e at (lookup-AllValues (λ kind. is_valid_type kind ≡ true) text keywords keywords-Valid))
]

pub make_token-Valid :
    (kind : TokenType) (p : Preprocessor)
    → is_valid_type kind ≡ true
    → Sound p
    → GivesValid (make_token kind p)
unfolding make_token
make_token-Valid kind p v s = yields (v, record { ready = s.ready; bodies = s.bodies })

abbrev pub Keeps : Lex Preprocessor Token → Type 0
Keeps again = (p : Preprocessor) → Sound p → GivesValid (again p)

handle_substitution-Valid :
    (again : Lex Preprocessor Token) (tokens : List Token) (p : Preprocessor)
    → Keeps again
    → All IsValid tokens
    → Sound p
    → GivesValid (handle_substitution again tokens p)
unfolding handle_substitution
handle_substitution-Valid again [] p k v s = k p s
handle_substitution-Valid again (tok ∷ []) p k (v, _) s = yields (v, s)
handle_substitution-Valid again (tok ∷ next ∷ tokens) p k (v, vs) s =
    yields (v, record { ready = vs; bodies = s.bodies })

identifier-Valid :
    (o : Option (List Token)) (again : Lex Preprocessor Token) (p : Preprocessor)
    → Keeps again
    → OnSome (All IsValid) o
    → Sound p
    → GivesValid (elim o [
      | some tokens ↦ handle_substitution again tokens p
      | none ↦ make_token (keyword_type p.scanning.text) p
    ])
identifier-Valid none again p k v s =
    make_token-Valid (keyword_type p.scanning.text) p (keyword_type-Valid p.scanning.text) s
identifier-Valid (some tokens) again p k v s = handle_substitution-Valid again tokens p k v s

pub handle_identifier-Valid :
    (again : Lex Preprocessor Token) → Keeps again → Keeps (handle_identifier again)
unfolding handle_identifier
handle_identifier-Valid again k p s =
    identifier-Valid (lookup p.scanning.text p.macros) again p k
      (lookup-AllValues (All IsValid) p.scanning.text p.macros s.bodies) s

pub next_pp_token-Valid :
    (again : Lex Preprocessor Token) (p : Preprocessor)
    → Keeps again
    → Sound p
    → Yields (λ (r : Token × Bool) p'. IsValid r.0 × Sound p') Sound (next_pp_token again p)
unfolding next_pp_token
next_pp_token-Valid again p k s = Yields-after (k p s) λ tok p' h. yields h
