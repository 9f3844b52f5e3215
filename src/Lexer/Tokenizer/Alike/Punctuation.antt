-- ===== src/Lexer/Tokenizer/Alike/Punctuation.antt =====
-- Punctuation over two readers.
use wihajster.Common.{
  ℕ, ◌-◌, inl, inr, Option-cases, Option, none, some, [], ◌∷◌, ◌==◌, if◌then◌else◌, ◌≡◌, refl,
  arith,
}
use wihajster.Common.Maps.{Map, lookup, AllValues, lookup-AllValues, nat_eq}
use wihajster.Lexer.Token.{TokenType}
use wihajster.Lexer.Monad.{Lex, pure, after, ◌>>◌}
use wihajster.Lexer.Tokenizer.Reading.{Scanning, build, build_one}
use wihajster.Lexer.Tokenizer.Integers.{or_nul}
use wihajster.Lexer.Tokenizer.Punctuation.{
  or_nil, two_char_table, char_equal, two_chars, one_char, send_two, end_shift, end_single, end_two,
  end_punctuation, lex_punctuation,
}
use wihajster.Lexer.Tokenizer.Alike.{
  Alike, oks, errs, Alike-after, Alike-map, Alike-at_end, Alike-if, OrEnd, Same, Loaded,
  Loaded-Same, Same-weaken,
}
use wihajster.Lexer.Tokenizer.Alike.Steps.{peek-Alike, pop-Alike, build-Alike, built-Alike}
use wihajster.Lexer.Tokenizer.Alike.Spaces.{Agree, Alike-Agree}

send_two-Alike :
    (k first second : ℕ) (s t : Scanning)
    → Loaded k second s t
    → Alike (λ _. Same k) (Same k) (send_two first second s) (send_two first second t)
unfolding send_two
send_two-Alike k first second s t l =
    Alike-after (pop-Alike k second s t l)
      λ _ s' t' m. build-Alike k (first ∷ second ∷ []) s' t' (Same-weaken (omega arith) m)

end_shift-Alike :
    (k : ℕ) (shift assignment : TokenType) (s t : Scanning)
    → Same k s t
    → Alike (λ _. Same k) (Same k) (end_shift shift assignment s) (end_shift shift assignment t)
unfolding end_shift
end_shift-Alike k shift assignment s t m = Alike-after (Alike-at_end (peek-Alike k s t m)) third
  where
    third :
        (o : Option ℕ) (s t : Scanning)
        → OrEnd (Loaded k) (Same k) o s t
        → Alike
            (λ _. Same k)
            (Same k)
            ((if or_nul o == b'=' then (build_one >> pure assignment) else pure shift) s)
            ((if or_nul o == b'=' then (build_one >> pure assignment) else pure shift) t)
    third none s t m = oks m
    third (some b) s t l =
        Alike-if _ _ s t (b == b'=') (Alike-after (built-Alike k b s t l) λ _ s' t' m. oks m)
          (oks (Loaded-Same l))

single-Alike :
    (k first : ℕ) (kind : TokenType) (s t : Scanning)
    → Same k s t
    → Alike
        (λ _. Same k)
        (Same k)
        (after (build (first ∷ []) s) (λ _. pure kind))
        (after (build (first ∷ []) t) (λ _. pure kind))
single-Alike k first kind s t m =
    Alike-after {f = λ _. pure kind} (build-Alike k (first ∷ []) s t m) λ _ s' t' n. oks n

end_single-Alike :
    (k first second : ℕ) (kind : TokenType) (s t : Scanning)
    → Same k s t
    → Alike (λ _. Same k) (Same k) (end_single first second kind s) (end_single first second kind t)
unfolding end_single
end_single-Alike k first second TokenType.nil s t m = errs tt m
end_single-Alike k first second kind s t m = single-Alike k first kind s t m

pair-Alike :
    (k first second : ℕ) (kind : TokenType) (s t : Scanning)
    → Loaded k second s t
    → Alike
        (Agree k)
        (Same k)
        (after (send_two first second s) (λ _. pure kind))
        (after (send_two first second t) (λ _. pure kind))
pair-Alike k first second kind s t l =
    Alike-after (send_two-Alike k first second s t l) λ _ s' t' n. oks (inl n)

shift-Alike :
    (k first second : ℕ) (shift assignment : TokenType) (s t : Scanning)
    → Loaded k second s t
    → Alike
        (Agree k)
        (Same k)
        (after (send_two first second s) (λ _. end_shift shift assignment))
        (after (send_two first second t) (λ _. end_shift shift assignment))
shift-Alike k first second shift assignment s t l =
    Alike-after (send_two-Alike k first second s t l)
      λ _ s' t' n. Alike-Agree (end_shift-Alike k shift assignment s' t' n)

abbrev pub Follows : ℕ → Lex Scanning TokenType → Type 0
Follows k comment =
    (s t : Scanning) → Same (k - 1) s t → Alike (Agree k) (Same k) (comment s) (comment t)

end_two-Alike :
    (k first second : ℕ) (comment : Lex Scanning TokenType) (kind : TokenType) (s t : Scanning)
    → Follows k comment
    → Loaded k second s t
    → Alike
        (Agree k)
        (Same k)
        (end_two first second comment kind s)
        (end_two first second comment kind t)
unfolding end_two
end_two-Alike k first second comment TokenType.nil s t c l =
    Alike-Agree (end_single-Alike k first second (one_char first) s t (Loaded-Same l))
end_two-Alike k first second comment TokenType.comment_single s t c l =
    Alike-after (pop-Alike k second s t l) λ _. c
end_two-Alike k first second comment TokenType.comment_multi s t c l =
    Alike-after (pop-Alike k second s t l) λ _ s' t' m. errs tt (Same-weaken (omega arith) m)
end_two-Alike k first second comment TokenType.shift_left s t c l =
    shift-Alike k first second TokenType.shift_left TokenType.shift_left_assign s t l
end_two-Alike k first second comment TokenType.shift_right s t c l =
    shift-Alike k first second TokenType.shift_right TokenType.shift_right_assign s t l
end_two-Alike k first second comment kind s t c l = pair-Alike k first second kind s t l

equal-Alike :
    (k first second : ℕ) (comment : Lex Scanning TokenType) (kind : TokenType) (s t : Scanning)
    → Follows k comment
    → Loaded k second s t
    → Alike
        (Agree k)
        (Same k)
        ((if second == b'='
            then (send_two first second >> pure kind)
            else end_two first second comment (two_chars first second))
          s)
        ((if second == b'='
            then (send_two first second >> pure kind)
            else end_two first second comment (two_chars first second))
          t)
equal-Alike k first second comment kind s t c l =
    Alike-if _ _ s t (second == b'=') (pair-Alike k first second kind s t l)
      (end_two-Alike k first second comment (two_chars first second) s t c l)

end_punctuation-Alike :
    (k first second : ℕ) (comment : Lex Scanning TokenType) (kind : TokenType) (s t : Scanning)
    → Follows k comment
    → Loaded k second s t
    → Alike
        (Agree k)
        (Same k)
        (end_punctuation first second comment kind s)
        (end_punctuation first second comment kind t)
unfolding end_punctuation
end_punctuation-Alike k first second comment TokenType.nil s t c l =
    end_two-Alike k first second comment (two_chars first second) s t c l
end_punctuation-Alike k first second comment kind s t c l =
    equal-Alike k first second comment kind s t c l

-- At the end of the input, where the source has 0 for the second byte.
NoNul : Map ℕ TokenType → Type 0
NoNul row = or_nil (lookup 0 row) ≡ TokenType.nil

two_char_table-NoNul : AllValues NoNul two_char_table
unfolding lookup NoNul
two_char_table-NoNul =
    (refl, (refl, (refl, (refl, (refl, (refl, (refl, (refl, (refl, (refl, tt))))))))))

no_second : (first : ℕ) → two_chars first 0 ≡ TokenType.nil
unfolding two_chars NoNul
no_second first = elim (Option-cases (lookup first two_char_table)) [
  | inl e ↦ rw e refl
  | inr (row, e) ↦ rw e (rw e at (lookup-AllValues NoNul first two_char_table two_char_table-NoNul))
]

end_punctuation_last :
    (first : ℕ) (comment : Lex Scanning TokenType) (kind : TokenType)
    → end_punctuation first 0 comment kind ≡ end_two first 0 comment (two_chars first 0)
unfolding end_punctuation
end_punctuation_last first comment TokenType.nil = refl
end_punctuation_last first comment _ = refl

last-Alike :
    (k first : ℕ) (comment : Lex Scanning TokenType) (kind : TokenType) (s t : Scanning)
    → Same k s t
    → Alike
        (Agree k)
        (Same k)
        (end_punctuation first 0 comment kind s)
        (end_punctuation first 0 comment kind t)
unfolding end_two
last-Alike k first comment kind s t m =
    rw (end_punctuation_last first comment kind, no_second first)
      (Alike-Agree (end_single-Alike k first 0 (one_char first) s t m))

seen-Alike :
    (k first : ℕ) (comment : Lex Scanning TokenType) (kind : TokenType) (o : Option ℕ)
    (s t : Scanning)
    → Follows k comment
    → OrEnd (Loaded k) (Same k) o s t
    → Alike
        (Agree k)
        (Same k)
        (end_punctuation first (or_nul o) comment kind s)
        (end_punctuation first (or_nul o) comment kind t)
seen-Alike k first comment kind none s t c m = last-Alike k first comment kind s t m
seen-Alike k first comment kind (some b) s t c l =
    end_punctuation-Alike k first b comment kind s t c l

pub lex_punctuation-Alike :
    (k b : ℕ) (comment : Lex Scanning TokenType) (s t : Scanning)
    → Follows (k - 1) comment
    → Loaded k b s t
    → Alike (Agree (k - 1)) (Same k) (lex_punctuation comment s) (lex_punctuation comment t)
unfolding lex_punctuation
lex_punctuation-Alike k b comment s t c l = Alike-after (pop-Alike k b s t l) λ first s' t' m.
    Alike-map (λ _ _ _ a. a) (λ _ _ q. Same-weaken (omega arith) q)
      (Alike-after (Alike-at_end (peek-Alike (k - 1) s' t' m))
        λ o s₂ t₂ m₂. seen-Alike (k - 1) first comment (char_equal first) o s₂ t₂ c m₂)
