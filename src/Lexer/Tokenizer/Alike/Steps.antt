-- ===== src/Lexer/Tokenizer/Alike/Steps.antt =====
-- The steps of the scanner over two readers.
use wihajster.Common.{
  ℕ, suc, ◌-◌, ◌<◌, ◌≤◌, inl, inr, Bool, true, false, Bool-cases, [], ◌∷◌, ◌++◌, length, ◌≡◌, ap,
  sym, ◌∙◌, arith,
}
use wihajster.Common.Bytes.{Bytes}
use wihajster.Common.Outcome.{Outcome}
use wihajster.Lexer.Monad.{LexError}
use wihajster.Lexer.Scanner.{
  Scanner, ByteClass, advance_byte, prefix_in, rest_in, peek_one, pop_one, read_one,
}
use wihajster.Lexer.Scanner.Position.{advance_bytes}
use wihajster.Lexer.Scanner.Reads.{
  Peeked, saw, saw_end, peek_one-Peeked, Popped, popped, pop_one-Popped, Took, took, took_end,
  read_one-Took,
}
use wihajster.Lexer.Tokenizer.Reading.{
  Scanning, replace, scan, build, build_one, read_run, skip_run,
}
use wihajster.Lexer.Tokenizer.Runs.{Ran, run_result, kept, read_run-Ran, skip_run-Ran}
use wihajster.Lexer.Tokenizer.Alike.{
  Alike, oks, errs, Alike-after, Alike-map, Same, Loaded, Same-weaken,
}

Peeked-Alike :
    {k : ℕ} {o p : Outcome LexError ℕ × Scanner} (input : Bytes) (position : ℕ × ℕ) (text : Bytes)
    (s t : Scanning)
    → length input ≤ k
    → s.text ≡ text
    → t.text ≡ text
    → Peeked input position o
    → Peeked input position p
    → Alike (Loaded k) (Same k) (replace s o) (replace t p)
Peeked-Alike input position text s t h e f (saw b rest i r) (saw c rest' j q) =
    let b_eq : b ≡ c = cc in
    let rest_eq : rest ≡ rest' = cc in
    rw (sym b_eq) (
      oks (record {
        rest = rest;
        text = text;
        position = position;
        few = let n : length input ≡ suc (length rest) = ap length i in omega (arith, h, n);
        left = r;
        right = rw (sym b_eq, sym rest_eq) at q;
        left_got = e;
        right_got = f;
      }))
Peeked-Alike input position text s t h e f (saw b rest i r) (saw_end j at) =
    let no : b ∷ rest ≡ [] = sym i ∙ j in absurd cc
Peeked-Alike input position text s t h e f (saw_end i at) (saw c rest j q) =
    let no : c ∷ rest ≡ [] = sym j ∙ i in absurd cc
Peeked-Alike input position text s t h e f (saw_end i at) (saw_end j at') = errs tt (record {
  input = [];
  text = text;
  position = position;
  few = omega arith;
  left = record { at = at; got = e };
  right = record { at = at'; got = f };
})

pub peek-Alike :
    (k : ℕ) (s t : Scanning)
    → Same k s t
    → Alike (Loaded k) (Same k) (scan peek_one s) (scan peek_one t)
peek-Alike k s t m =
    Peeked-Alike m.input m.position m.text s t m.few m.left.got m.right.got
      (peek_one-Peeked s.scanner m.input m.position m.left.at)
      (peek_one-Peeked t.scanner m.input m.position m.right.at)

Popped-Alike :
    {k : ℕ} {o p : Outcome LexError ℕ × Scanner} (b : ℕ) (rest : Bytes) (position : ℕ × ℕ)
    (text : Bytes) (s t : Scanning)
    → length rest < k
    → s.text ≡ text
    → t.text ≡ text
    → Popped b rest position o
    → Popped b rest position p
    → Alike (λ _. Same (k - 1)) (Same k) (replace s o) (replace t p)
Popped-Alike b rest position text s t h e f (popped at) (popped at') = oks (record {
  input = rest;
  text = text;
  position = advance_byte b position;
  few = omega (arith, h);
  left = record { at = at; got = e };
  right = record { at = at'; got = f };
})

pub pop-Alike :
    (k b : ℕ) (s t : Scanning)
    → Loaded k b s t
    → Alike (λ _. Same (k - 1)) (Same k) (scan pop_one s) (scan pop_one t)
pop-Alike k b s t m =
    Popped-Alike b m.rest m.position m.text s t m.few m.left_got m.right_got
      (pop_one-Popped s.scanner b m.rest m.position m.left)
      (pop_one-Popped t.scanner b m.rest m.position m.right)

Took-Alike :
    {k : ℕ} {o p : Outcome LexError ℕ × Scanner} (input : Bytes) (position : ℕ × ℕ) (text : Bytes)
    (s t : Scanning)
    → length input ≤ k
    → s.text ≡ text
    → t.text ≡ text
    → Took input position o
    → Took input position p
    → Alike (λ _ s' t'. (0 < k) × Same (k - 1) s' t') (Same k) (replace s o) (replace t p)
Took-Alike {k} input position text s t h e f (took b rest i at) (took c rest' j at') =
    let b_eq : b ≡ c = cc in
    let rest_eq : rest ≡ rest' = cc in
    let n : length input ≡ suc (length rest) = ap length i in
    let more : 0 < k = omega (arith, h, n) in
    let same : Same (_ - 1) (record s { scanner = _ }) (record t { scanner = _ }) = record {
      input = rest;
      text = text;
      position = advance_byte b position;
      few = omega (arith, h, n);
      left = record { at = at; got = e };
      right = record { at = rw (sym b_eq, sym rest_eq) at at'; got = f };
    } in
    rw (sym b_eq) (oks (more, same))
Took-Alike input position text s t h e f (took b rest i at) (took_end j at') =
    let no : b ∷ rest ≡ [] = sym i ∙ j in absurd cc
Took-Alike input position text s t h e f (took_end i at) (took c rest j at') =
    let no : c ∷ rest ≡ [] = sym j ∙ i in absurd cc
Took-Alike input position text s t h e f (took_end i at) (took_end j at') = errs tt (record {
  input = [];
  text = text;
  position = position;
  few = omega arith;
  left = record { at = at; got = e };
  right = record { at = at'; got = f };
})

pub take-Alike :
    (k : ℕ) (s t : Scanning)
    → Same k s t
    → Alike (λ _ s' t'. (0 < k) × Same (k - 1) s' t') (Same k) (scan read_one s) (scan read_one t)
take-Alike k s t m =
    Took-Alike m.input m.position m.text s t m.few m.left.got m.right.got
      (read_one-Took s.scanner m.input m.position m.left.at)
      (read_one-Took t.scanner m.input m.position m.right.at)

pub build-Alike :
    (k : ℕ) (d : Bytes) (s t : Scanning)
    → Same k s t
    → Alike (λ _. Same k) (Same k) (build d s) (build d t)
build-Alike k d s t m = oks (record {
  input = m.input;
  text = m.text ++ d;
  position = m.position;
  few = m.few;
  left = record { at = m.left.at; got = ap (λ l. l ++ d) m.left.got };
  right = record { at = m.right.at; got = ap (λ l. l ++ d) m.right.got };
})

pub length-rest_in : (cls : ByteClass) (r : Bytes) → length (rest_in cls r) ≤ length r
unfolding rest_in
length-rest_in cls [] = omega arith
length-rest_in cls (b ∷ r) = elim (Bool-cases (cls b)) [
  | inl e ↦ rw e (omega (arith, length-rest_in cls r))
  | inr e ↦ rw e (omega arith)
]

run_result-Alike :
    {Q : Scanning → Scanning → Type 0} (eof_ends : Bool) (r : Bytes) (s t : Scanning)
    → Q s t
    → Alike (λ _. Q) Q (run_result eof_ends r, s) (run_result eof_ends r, t)
run_result-Alike true r s t q = oks q
run_result-Alike false [] s t q = errs tt q
run_result-Alike false (_ ∷ _) s t q = oks q

pub Ran-Alike :
    (k : ℕ) (keeps eof_ends : Bool) (cls : ByteClass) (input text : Bytes) (position : ℕ × ℕ)
    (o p : Outcome LexError (Unit {0}) × Scanning)
    → length input ≤ k
    → Ran keeps eof_ends cls input text position o
    → Ran keeps eof_ends cls input text position p
    → Alike (λ _. Same k) (Same k) o p
Ran-Alike k keeps eof_ends cls input text position (o, s) (p, t) h x y =
    let m : Same k s t = record {
      input = rest_in cls input;
      text = text ++ kept keeps (prefix_in cls input);
      position = advance_bytes (prefix_in cls input) position;
      few = omega (arith, h, length-rest_in cls input);
      left = x.stands;
      right = y.stands;
    } in
    rw (x.result, y.result) (run_result-Alike eof_ends (rest_in cls input) s t m)

pub run-Alike :
    (k : ℕ) (eof_ends : Bool) (cls : ByteClass) (s t : Scanning)
    → Same k s t
    → Alike (λ _. Same k) (Same k) (read_run eof_ends cls s) (read_run eof_ends cls t)
run-Alike k eof_ends cls s t m =
    Ran-Alike k true eof_ends cls m.input m.text m.position (read_run eof_ends cls s)
      (read_run eof_ends cls t) m.few (read_run-Ran eof_ends cls m.input m.text m.position s m.left)
      (read_run-Ran eof_ends cls m.input m.text m.position t m.right)

pub skip-Alike :
    (k : ℕ) (cls : ByteClass) (s t : Scanning)
    → Same k s t
    → Alike (λ _. Same k) (Same k) (skip_run cls s) (skip_run cls t)
skip-Alike k cls s t m =
    Ran-Alike k false false cls m.input m.text m.position (skip_run cls s) (skip_run cls t) m.few
      (skip_run-Ran cls m.input m.text m.position s m.left)
      (skip_run-Ran cls m.input m.text m.position t m.right)

pub build_one-Alike :
    (k b : ℕ) (s t : Scanning)
    → Loaded k b s t
    → Alike (λ _. Same (k - 1)) (Same k) (build_one s) (build_one t)
unfolding build_one
build_one-Alike k b s t m = Alike-after (pop-Alike k b s t m) λ c s' t' m'.
    Alike-map (λ _ _ _ q. q) (λ _ _ q. Same-weaken (omega arith) q)
      (build-Alike (k - 1) (c ∷ []) s' t' m')

-- Where the bound is of no use further on.
pub built-Alike :
    (k b : ℕ) (s t : Scanning)
    → Loaded k b s t
    → Alike (λ _. Same k) (Same k) (build_one s) (build_one t)
built-Alike k b s t m =
    Alike-map (λ _ _ _ q. Same-weaken (omega arith) q) (λ _ _ q. q) (build_one-Alike k b s t m)
