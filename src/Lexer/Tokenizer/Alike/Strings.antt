-- ===== src/Lexer/Tokenizer/Alike/Strings.antt =====
-- String literals and character constants.
use wihajster.Common.{ℕ, zero, suc, ◌-◌, ◌<◌, ◌≤◌, false, [], ◌∷◌, ◌==◌, sym, ◌∙◌, arith}
use wihajster.Common.Outcome.{err}
use wihajster.Lexer.Token.{TokenType}
use wihajster.Lexer.Monad.{LexError, Lex}
use wihajster.Lexer.Tokenizer.Reading.{Scanning}
use wihajster.Lexer.Tokenizer.Strings.{
  string_body, character_body, newline_in_string, newline_in_character, string_escape, string_end,
  lex_string_literal, is_escape, character_escape, character_end, lex_character_constant,
}
use wihajster.Lexer.Tokenizer.Alike.{
  Real, Alike, Alike-map, oks, errs, errs-at, Alike-after, Alike-if, Alike-weaken, Same, Loaded,
  Loaded-Same, Same-weaken,
}
use wihajster.Lexer.Tokenizer.Alike.Steps.{
  peek-Alike, pop-Alike, build-Alike, build_one-Alike, built-Alike, run-Alike,
}

-- A continuation that keeps two runs alike, while `fuel` bytes are not reached.
abbrev Again : ℕ → Lex Scanning TokenType → Type 0
Again fuel again =
    (j : ℕ) (s t : Scanning)
    → j < fuel
    → Same j s t
    → Alike (λ _. Same j) (Same j) (again s) (again t)

Same-here :
    {A : Type 0} {P : A → Scanning → Scanning → Type 0} (e : ℕ → ℕ → LexError) (k : ℕ)
    (s t : Scanning)
    → ((l c : ℕ) → Real (e l c))
    → Same k s t
    → Alike P
        (Same k)
        (err (e s.scanner.line s.scanner.column), s)
        (err (e t.scanner.line t.scanner.column), t)
Same-here e k s t r m =
    errs-at e s.scanner.line s.scanner.column t.scanner.line t.scanner.column s t
      (m.left.at.here ∙ sym m.right.at.here) (r _ _) m

again-Alike :
    (k fuel : ℕ) (again : Lex Scanning TokenType)
    → 0 < k
    → k ≤ fuel
    → Again fuel again
    → (s t : Scanning) → Same (k - 1) s t
    → Alike (λ _. Same k) (Same k) (again s) (again t)
again-Alike k fuel again z h g s t m =
    Alike-weaken (k - 1) k (omega arith) (g (k - 1) s t (omega (arith, z, h)) m)

string_escape-Alike :
    (fuel k b : ℕ) (again : Lex Scanning TokenType) (s t : Scanning)
    → k ≤ fuel
    → Again fuel again
    → Loaded k b s t
    → Alike (λ _. Same k) (Same k) (string_escape again b s) (string_escape again b t)
unfolding string_escape
string_escape-Alike fuel k b again s t h g l =
    let few = l.few in
    let z : 0 < k = omega (arith, few) in
    Alike-if _ _ s t (b == b'\n')
      (Alike-after (pop-Alike k b s t l) λ _. again-Alike k fuel again z h g)
      (Alike-if _ _ s t (b == b'"')
        (Alike-after (build_one-Alike k b s t l) λ _. again-Alike k fuel again z h g)
        (errs tt (Loaded-Same l)))

string_end-Alike :
    (fuel k b : ℕ) (again : Lex Scanning TokenType) (s t : Scanning)
    → k ≤ fuel
    → Again fuel again
    → Loaded k b s t
    → Alike (λ _. Same k) (Same k) (string_end again b s) (string_end again b t)
unfolding string_end newline_in_string
string_end-Alike fuel k b again s t h g l =
    Alike-if _ _ s t (b == b'"') (Alike-after (built-Alike k b s t l) λ _ s' t' m. oks m) (
      Alike-if _ _ s t (b == b'\n')
        (Same-here LexError.newline_in_string k s t (λ _ _. tt) (Loaded-Same l))
        (Alike-after (pop-Alike k b s t l) λ _ s' t' m.
          Alike-after (peek-Alike k s' t' (Same-weaken (omega arith) m))
            λ e s₂ t₂ l₂. string_escape-Alike fuel k e again s₂ t₂ h g l₂))

pub lex_string_literal-Alike :
    (fuel k : ℕ) (s t : Scanning)
    → k < fuel
    → Same k s t
    → Alike (λ _. Same k) (Same k) (lex_string_literal fuel s) (lex_string_literal fuel t)
unfolding lex_string_literal
lex_string_literal-Alike zero k s t h m = absurd (omega (arith, h))
lex_string_literal-Alike (suc fuel) k s t h m =
    Alike-after (run-Alike k false string_body s t m) λ _ s' t' m'.
      Alike-after (peek-Alike k s' t' m') λ b s₂ t₂ l.
        string_end-Alike fuel k b (lex_string_literal fuel) s₂ t₂ (omega (arith, h))
          (λ j s₃ t₃ i n. lex_string_literal-Alike fuel j s₃ t₃ i n) l

character_escape-Alike :
    (fuel k b : ℕ) (again : Lex Scanning TokenType) (s t : Scanning)
    → k ≤ fuel
    → Again fuel again
    → Loaded k b s t
    → Alike (λ _. Same k) (Same k) (character_escape again b s) (character_escape again b t)
unfolding character_escape
character_escape-Alike fuel k b again s t h g l =
    let few = l.few in
    let z : 0 < k = omega (arith, few) in
    Alike-if _ _ s t (b == b'\n')
      (Alike-after (pop-Alike k b s t l) λ _. again-Alike k fuel again z h g)
      (Alike-if _ _ s t (is_escape b)
        (Alike-after (pop-Alike k b s t l) λ e s' t' m.
          Alike-after
            (Alike-map (λ _ _ _ q. q) (λ _ _ q. Same-weaken (omega arith) q)
              (build-Alike (k - 1) (b'\\' ∷ e ∷ []) s' t' m))
            λ _. again-Alike k fuel again z h g)
        (errs tt (Loaded-Same l)))

character_end-Alike :
    (fuel k b : ℕ) (again : Lex Scanning TokenType) (s t : Scanning)
    → k ≤ fuel
    → Again fuel again
    → Loaded k b s t
    → Alike (λ _. Same k) (Same k) (character_end again b s) (character_end again b t)
unfolding character_end newline_in_character
character_end-Alike fuel k b again s t h g l =
    Alike-if _ _ s t (b == b'\'') (Alike-after (built-Alike k b s t l) λ _ s' t' m. oks m) (
      Alike-if _ _ s t (b == b'\n')
        (Same-here LexError.newline_in_character k s t (λ _ _. tt) (Loaded-Same l))
        (Alike-after (pop-Alike k b s t l) λ _ s' t' m.
          Alike-after (peek-Alike k s' t' (Same-weaken (omega arith) m))
            λ e s₂ t₂ l₂. character_escape-Alike fuel k e again s₂ t₂ h g l₂))

pub lex_character_constant-Alike :
    (fuel k : ℕ) (s t : Scanning)
    → k < fuel
    → Same k s t
    → Alike (λ _. Same k) (Same k) (lex_character_constant fuel s) (lex_character_constant fuel t)
unfolding lex_character_constant
lex_character_constant-Alike zero k s t h m = absurd (omega (arith, h))
lex_character_constant-Alike (suc fuel) k s t h m =
    Alike-after (run-Alike k false character_body s t m) λ _ s' t' m'.
      Alike-after (peek-Alike k s' t' m') λ b s₂ t₂ l.
        character_end-Alike fuel k b (lex_character_constant fuel) s₂ t₂ (omega (arith, h))
          (λ j s₃ t₃ i n. lex_character_constant-Alike fuel j s₃ t₃ i n) l
