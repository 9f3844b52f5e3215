-- ===== src/Lexer/Tokenizer/Alike.antt =====
-- Two runs over readers that serve the same bytes in other chunks.
pub mod Steps
pub mod Integers
pub mod Strings
pub mod Spaces
pub mod Punctuation
pub mod Tokens
use wihajster.Common.{
  ℕ, zero, suc, ◌+◌, ◌-◌, ◌<◌, ◌≤◌, ◌⊎◌, inl, inr, Bool, true, false, Bool-cases, Option, none,
  some, List, [], ◌∷◌, ◌++◌, length, ◌==◌, if◌then◌else◌, ◌≡◌, refl, ap, sym, ◌∙◌, arith,
}
use wihajster.Common.Bytes.{Bytes}
use wihajster.Common.Outcome.{Outcome, ok, err}
use wihajster.Lexer.Monad.{ReadError, LexError, Lex, pure, after, at_end, unless_eof, ◌>>=◌, ◌>>◌}
use wihajster.Lexer.Scanner.{
  Scanner, ByteClass, advance_byte, prefix_in, rest_in, peek_one, pop_one, read_one,
}
use wihajster.Lexer.Scanner.Position.{advance_bytes}
use wihajster.Lexer.Scanner.Serves.{At, Ready}
use wihajster.Lexer.Scanner.Reads.{
  Peeked, saw, saw_end, peek_one-Peeked, Popped, popped, pop_one-Popped, Took, took, took_end,
  read_one-Took,
}
use wihajster.Lexer.Tokenizer.Reading.{
  Scanning, replace, scan, build, build_one, read_run, skip_run,
}
use wihajster.Lexer.Tokenizer.Runs.{Stands, Ran, run_result, kept, read_run-Ran, skip_run-Ran}

-- The errors of the source: no panic, and no end of the fuel.
abbrev pub Real : LexError → Type 0
Real LexError.pop_panic = ⊥
Real LexError.fill_panic = ⊥
Real LexError.out_of_fuel = ⊥
Real _ = Unit

-- The same value or the same error, and states in a relation.
pub data Alike {S A : Type 0} (P : A → S → S → Type 0) (Q : S → S → Type 0)
    : Outcome LexError A × S → Outcome LexError A × S → Type 0 where
  oks : {a : A} {s t : S} → P a s t → Alike P Q (ok a, s) (ok a, t)
  errs : {e : LexError} {s t : S} → Real e → Q s t → Alike P Q (err e, s) (err e, t)

module _ {S A : Type 0} {P : A → S → S → Type 0} {Q : S → S → Type 0} where
  pub Alike-after :
      {B : Type 0} {R : B → S → S → Type 0} {x y : Outcome LexError A × S} {f : A → Lex S B}
      → Alike P Q x y
      → ((a : A) (s t : S) → P a s t → Alike R Q (f a s) (f a t))
      → Alike R Q (after x f) (after y f)
  Alike-after (oks p) k = k _ _ _ p
  Alike-after (errs r q) k = errs r q

  pub Alike-map :
      {P' : A → S → S → Type 0} {Q' : S → S → Type 0} {x y : Outcome LexError A × S}
      → ((a : A) (s t : S) → P a s t → P' a s t)
      → ((s t : S) → Q s t → Q' s t)
      → Alike P Q x y
      → Alike P' Q' x y
  Alike-map f g (oks p) = oks (f _ _ _ p)
  Alike-map f g (errs r q) = errs r (g _ _ q)

abbrev pub OrEnd :
    {S A : Type 0} → (A → S → S → Type 0) → (S → S → Type 0) → Option A → S → S → Type 0
OrEnd P Q none = Q
OrEnd P Q (some a) = P a

pub Alike-at_end :
    {S A : Type 0} {P : A → S → S → Type 0} {Q : S → S → Type 0} {x y : Outcome LexError A × S}
    → Alike P Q x y
    → Alike (OrEnd P Q) Q (at_end x) (at_end y)
Alike-at_end (oks p) = oks p
Alike-at_end (errs {e = LexError.read_error ReadError.eof} r q) = oks q
Alike-at_end (errs {e = LexError.read_error (ReadError.failed n)} r q) = errs r q
Alike-at_end (errs {e = _} r q) = errs r q

-- Scanners that stand at one position, with one text and the same bytes to come, `k` at most.
pub record Same (k : ℕ) (s t : Scanning) : Type 0 where
  pub input : Bytes
  pub text : Bytes
  pub position : ℕ × ℕ
  pub few : length input ≤ k
  pub left : Stands input text position s
  pub right : Stands input text position t

-- The next byte lies in both buffers.
pub record Loaded (k b : ℕ) (s t : Scanning) : Type 0 where
  pub rest : Bytes
  pub text : Bytes
  pub position : ℕ × ℕ
  pub few : length rest < k
  pub left : Ready b rest position s.scanner
  pub right : Ready b rest position t.scanner
  pub left_got : s.text ≡ text
  pub right_got : t.text ≡ text

pub Same-weaken : {j k : ℕ} {s t : Scanning} → j ≤ k → Same j s t → Same k s t
Same-weaken h m = record {
  input = m.input;
  text = m.text;
  position = m.position;
  few = let f = m.few in omega (arith, f, h);
  left = m.left;
  right = m.right;
}

pub Loaded-Same : {k b : ℕ} {s t : Scanning} → Loaded k b s t → Same k s t
Loaded-Same {k} {b} m = record {
  input = b ∷ m.rest;
  text = m.text;
  position = m.position;
  few = let f = m.few in omega (arith, f);
  left = record { at = m.left.there; got = m.left_got };
  right = record { at = m.right.there; got = m.right_got };
}

pub Alike-if :
    {S A : Type 0} {P : A → S → S → Type 0} {Q : S → S → Type 0} (m n : Lex S A) (s t : S)
    (test : Bool)
    → Alike P Q (m s) (m t)
    → Alike P Q (n s) (n t)
    → Alike P Q ((if test then m else n) s) ((if test then m else n) t)
Alike-if _ _ s t true y n = y
Alike-if _ _ s t false y n = n

-- Errors that hold the position.
pub errs-at :
    {S A : Type 0} {P : A → S → S → Type 0} {Q : S → S → Type 0} (e : ℕ → ℕ → LexError)
    (l c l' c' : ℕ) (s t : S)
    → ◌≡◌ {A = ℕ × ℕ} (l, c) (l', c')
    → Real (e l c)
    → Q s t
    → Alike P Q (err (e l c), s) (err (e l' c'), t)
errs-at e l c l' c' s t h r q =
    let x : l ≡ l' = ap (λ (q : ℕ × ℕ). q.0) h in
    let y : c ≡ c' = ap (λ (q : ℕ × ℕ). q.1) h in rw (sym x, sym y) (errs r q)

pub Alike-weaken :
    {A : Type 0} {x y : Outcome LexError A × Scanning} (j k : ℕ)
    → j ≤ k
    → Alike (λ _. Same j) (Same j) x y
    → Alike (λ _. Same k) (Same k) x y
Alike-weaken j k h a = Alike-map (λ _ _ _ m. Same-weaken h m) (λ _ _ m. Same-weaken h m) a
