-- ===== src/Lexer/Tokenizer/Alike/Spaces.antt =====
-- White space over two readers.
use wihajster.Common.{
  ℕ, ◌<◌, ◌≤◌, ◌⊎◌, inl, inr, Bool, Bool-cases, [], ◌∷◌, length, ◌≡◌, refl, ap, sym, ◌∙◌, arith,
}
use wihajster.Common.Bytes.{Bytes}
use wihajster.Common.Maps.{nat_eq}
use wihajster.Common.Outcome.{Outcome, ok}
use wihajster.Lexer.Token.{TokenType}
use wihajster.Lexer.Monad.{LexError, pure, after}
use wihajster.Lexer.Scanner.{Scanner, ByteClass, prefix_in, rest_in}
use wihajster.Lexer.Scanner.Position.{advance_bytes, advance_bytes-append}
use wihajster.Lexer.Scanner.Serves.{At}
use wihajster.Lexer.Scanner.Portions.{Portion, nothing, whole, part, read_bytes_in_class-Portion}
use wihajster.Lexer.Tokenizer.Reading.{Scanning, replace}
use wihajster.Lexer.Tokenizer.Runs.{Stands}
use wihajster.Lexer.Tokenizer.{white_class, lex_white_space}
use wihajster.Lexer.Tokenizer.Alike.{Alike, oks, Alike-map, Same, Loaded}
use wihajster.Lexer.Tokenizer.Alike.Steps.{length-rest_in}

-- What is to come is the same once the white space is read.
pub record SameBeyond (k : ℕ) (s t : Scanning) : Type 0 where
  pub left_input : Bytes
  pub right_input : Bytes
  pub left_position : ℕ × ℕ
  pub right_position : ℕ × ℕ
  pub text : Bytes
  pub left_few : length left_input ≤ k
  pub right_few : length right_input ≤ k
  pub left : Stands left_input text left_position s
  pub right : Stands right_input text right_position t
  pub same_rest : rest_in white_class left_input ≡ rest_in white_class right_input
  pub same_position :
      advance_bytes (prefix_in white_class left_input) left_position
      ≡ advance_bytes (prefix_in white_class right_input) right_position

-- After white space, of which a token stands for a part, the states agree beyond it.
abbrev pub Agree : ℕ → TokenType → Scanning → Scanning → Type 0
Agree k kind s t = Same k s t ⊎ ((kind ≡ TokenType.whitespace) × SameBeyond k s t)

pub Alike-Agree :
    {k : ℕ} {x y : Outcome LexError TokenType × Scanning}
    → Alike (λ _. Same k) (Same k) x y
    → Alike (Agree k) (Same k) x y
Alike-Agree a = Alike-map (λ _ _ _ m. inl m) (λ _ _ m. m) a

rest_in-rest_in :
    (cls : ByteClass) (r : Bytes)
    → (rest_in cls (rest_in cls r) ≡ rest_in cls r) × (prefix_in cls (rest_in cls r) ≡ [])
unfolding rest_in prefix_in
rest_in-rest_in cls [] = (refl, refl)
rest_in-rest_in cls (b ∷ r) = elim (Bool-cases (cls b)) [
  | inl e ↦ rw e (rest_in-rest_in cls r)
  | inr e ↦ rw (e, e) (refl, refl)
]

-- White space read in part.
data Spaced (input : Bytes) (position : ℕ × ℕ)
    : Outcome LexError (Bytes × Bool) × Scanner → Type 0 where
  spaced :
      {s : Scanner} {read : Bytes × Bool} (later : Bytes) (there : ℕ × ℕ)
      → length later ≤ length input
      → rest_in white_class later ≡ rest_in white_class input
      → advance_bytes (prefix_in white_class later) there
        ≡ advance_bytes (prefix_in white_class input) position
      → At later there s
      → Spaced input position (ok read, s)

Portion-Spaced :
    (input : Bytes) (position : ℕ × ℕ) {o : Outcome LexError (Bytes × Bool) × Scanner}
    → 0 < length input
    → Portion white_class input position o
    → Spaced input position o
Portion-Spaced input position h (nothing i at) =
    absurd (let n : length input ≡ 0 = ap length i in omega (arith, h, n))
Portion-Spaced input position h (whole d rest l len p q at) =
    spaced rest (advance_bytes d position) (omega (arith, len)) (sym q)
      (sym (advance_bytes-append d (prefix_in white_class rest) position)
        ∙ ap (λ x. advance_bytes x position) (sym p))
      at
Portion-Spaced input position h (part c d q at) =
    let (again, none_left) = rest_in-rest_in white_class input in
    spaced (c ∷ d) (advance_bytes (prefix_in white_class input) position)
      (let n : length (rest_in white_class input) ≡ length (c ∷ d) = ap length q in
        omega (arith, n, length-rest_in white_class input))
      (rw q at again ∙ sym q)
      (let z : prefix_in white_class (c ∷ d) ≡ [] = rw q at none_left in
        ap (λ x. advance_bytes x (advance_bytes (prefix_in white_class input) position)) z)
      at

Spaced-Alike :
    {k : ℕ} {o p : Outcome LexError (Bytes × Bool) × Scanner} (input : Bytes) (position : ℕ × ℕ)
    (text : Bytes) (s t : Scanning)
    → length input ≤ k
    → s.text ≡ text
    → t.text ≡ text
    → Spaced input position o
    → Spaced input position p
    → Alike
        (Agree k)
        (Same k)
        (after (replace s o) (λ _. pure TokenType.whitespace))
        (after (replace t p) (λ _. pure TokenType.whitespace))
Spaced-Alike input position text s t h e f (spaced a x n r q at) (spaced a' x' n' r' q' at') = oks (
    inr (
      refl,
      record {
        left_input = a;
        right_input = a';
        left_position = x;
        right_position = x';
        text = text;
        left_few = omega (arith, h, n);
        right_few = omega (arith, h, n');
        left = record { at = at; got = e };
        right = record { at = at'; got = f };
        same_rest = r ∙ sym r';
        same_position = q ∙ sym q';
      },
    ))

pub lex_white_space-Alike :
    (k b : ℕ) (s t : Scanning)
    → Loaded k b s t
    → Alike (Agree k) (Same k) (lex_white_space s) (lex_white_space t)
unfolding lex_white_space
lex_white_space-Alike k b s t l =
    let few = l.few in
    Spaced-Alike (b ∷ l.rest) l.position l.text s t (omega (arith, few)) l.left_got l.right_got
      (Portion-Spaced (b ∷ l.rest) l.position (omega arith)
        (read_bytes_in_class-Portion white_class s.scanner (b ∷ l.rest) l.position l.left.there))
      (Portion-Spaced (b ∷ l.rest) l.position (omega arith)
        (read_bytes_in_class-Portion white_class t.scanner (b ∷ l.rest) l.position l.right.there))
