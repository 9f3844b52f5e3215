-- ===== src/Lexer/Scanner/Reads.antt =====
-- `peekOne`, `readOne`, `popOneFromBuffer` and `readBytesInClass` on what is to come.
use wihajster.Common.{
  ℕ, zero, suc, ◌<◌, Bool-cases, inl, inr, [], ◌∷◌, ◌++◌, length, ◌≡◌, refl, ap, sym, arith,
}
use wihajster.Common.Bytes.{Bytes}
use wihajster.Common.Outcome.{Outcome, ok, err}
use wihajster.Lexer.Monad.{ReadError, LexError, Lex, after}
use wihajster.Lexer.Scanner.{
  Scanner, ByteClass, fill_buffer, pop_one, pop_from, peek_one, peek_within, read_one, read_within,
  advance_byte, prefix_in, rest_in,
}
use wihajster.Lexer.Scanner.Serves.{At, Ready, Filled, filled, ended, fill_buffer-Filled, bytes_of}

pub data Peeked (input : Bytes) (position : ℕ × ℕ) : Outcome LexError ℕ × Scanner → Type 0 where
  saw :
      {s : Scanner} (b : ℕ) (rest : Bytes)
      → input ≡ b ∷ rest
      → Ready b rest position s
      → Peeked input position (ok b, s)
  saw_end :
      {s : Scanner}
      → input ≡ []
      → At [] position s
      → Peeked input position (err (LexError.read_error ReadError.eof), s)

pub Ready-buffered :
    (s : Scanner) (input : Bytes) (position : ℕ × ℕ) (b : ℕ) (d : Bytes)
    → At input position s
    → s.ready ≡ b ∷ d
    → (rest : Bytes) × (input ≡ b ∷ rest) × Ready b rest position s
Ready-buffered s input position b d at e =
    let coming : b ∷ (d ++ bytes_of s.chunks) ≡ input = rw e at at.coming in
    (
      d ++ bytes_of s.chunks,
      sym coming,
      record { buffered = d; ready_eq = e; there = rw (sym coming) at at },
    )

after-Peeked :
    {input : Bytes} {position : ℕ × ℕ} {count : ℕ} {out : Outcome LexError (Unit {0}) × Scanner}
    (f : Lex Scanner ℕ)
    → Filled input position count out
    → ((s : Scanner) (b : ℕ) (rest : Bytes)
        → length s.chunks < count
        → Ready b rest position s
        → Peeked (b ∷ rest) position (f s))
    → Peeked input position (after out (λ _. f))
after-Peeked f (filled b rest e r h) k = rw e (k _ b rest h r)
after-Peeked f (ended e at) k = saw_end e at

peek-Peeked :
    (r : Bytes) (fuel : ℕ) (s : Scanner) (input : Bytes) (position : ℕ × ℕ)
    → s.ready ≡ r
    → At input position s
    → ((s' : Scanner) (b : ℕ) (rest : Bytes)
        → length s'.chunks < length s.chunks
        → Ready b rest position s'
        → Peeked (b ∷ rest) position (peek_within fuel s'))
    → Peeked input position
        (elim r [ b ∷ _ ↦ (ok b, s) | [] ↦ after (fill_buffer s) λ _. peek_within fuel ])
peek-Peeked [] fuel s input position e at k =
    after-Peeked (peek_within fuel) (fill_buffer-Filled s input position at e) k
peek-Peeked (b ∷ d) fuel s input position e at k =
    let (rest, i, r) = Ready-buffered s input position b d at e in saw b rest i r

peek_within-Peeked :
    (fuel : ℕ) (s : Scanner) (input : Bytes) (position : ℕ × ℕ)
    → length s.chunks < fuel
    → At input position s
    → Peeked input position (peek_within fuel s)
unfolding peek_within
peek_within-Peeked zero s input position h at = absurd (omega (arith, h))
peek_within-Peeked (suc fuel) s input position h at =
    peek-Peeked s.ready fuel s input position refl at (λ s' b rest k r.
      peek_within-Peeked fuel s' (b ∷ rest) position (omega (arith, h, k)) r.there)

pub peek_one-Peeked :
    (s : Scanner) (input : Bytes) (position : ℕ × ℕ)
    → At input position s
    → Peeked input position (peek_one s)
unfolding peek_one
peek_one-Peeked s input position at =
    peek_within-Peeked (suc (length s.chunks)) s input position (omega arith) at

-- A byte that was taken, and the bytes after it.
pub data Popped (b : ℕ) (rest : Bytes) (position : ℕ × ℕ)
    : Outcome LexError ℕ × Scanner → Type 0 where
  popped : {s : Scanner} → At rest (advance_byte b position) s → Popped b rest position (ok b, s)

pub pop_one-Popped :
    (s : Scanner) (b : ℕ) (rest : Bytes) (position : ℕ × ℕ)
    → Ready b rest position s
    → Popped b rest position (pop_one s)
unfolding pop_one pop_from
pop_one-Popped s b rest position r =
    let at = r.there in
    let coming : b ∷ (r.buffered ++ bytes_of s.chunks) ≡ b ∷ rest = rw (r.ready_eq) at at.coming in
    rw (r.ready_eq) (
      popped (record {
        clean = at.clean;
        fits = at.fits;
        coming = cc;
        here = ap (advance_byte b) at.here;
      }))

pub data Took (input : Bytes) (position : ℕ × ℕ) : Outcome LexError ℕ × Scanner → Type 0 where
  took :
      {s : Scanner} (b : ℕ) (rest : Bytes)
      → input ≡ b ∷ rest
      → At rest (advance_byte b position) s
      → Took input position (ok b, s)
  took_end :
      {s : Scanner}
      → input ≡ []
      → At [] position s
      → Took input position (err (LexError.read_error ReadError.eof), s)

Popped-Took :
    {input : Bytes} {b : ℕ} {rest : Bytes} {position : ℕ × ℕ} {out : Outcome LexError ℕ × Scanner}
    → input ≡ b ∷ rest
    → Popped b rest position out
    → Took input position out
Popped-Took e (popped at) = took _ _ e at

after-Took :
    {input : Bytes} {position : ℕ × ℕ} {count : ℕ} {out : Outcome LexError (Unit {0}) × Scanner}
    (f : Lex Scanner ℕ)
    → Filled input position count out
    → ((s : Scanner) (b : ℕ) (rest : Bytes)
        → length s.chunks < count
        → Ready b rest position s
        → Took (b ∷ rest) position (f s))
    → Took input position (after out (λ _. f))
after-Took f (filled b rest e r h) k = rw e (k _ b rest h r)
after-Took f (ended e at) k = took_end e at

read-Took :
    (r : Bytes) (fuel : ℕ) (s : Scanner) (input : Bytes) (position : ℕ × ℕ)
    → s.ready ≡ r
    → At input position s
    → ((s' : Scanner) (b : ℕ) (rest : Bytes)
        → length s'.chunks < length s.chunks
        → Ready b rest position s'
        → Took (b ∷ rest) position (read_within fuel s'))
    → Took input position
        (elim r [ b ∷ _ ↦ pop_one s | [] ↦ after (fill_buffer s) λ _. read_within fuel ])
read-Took [] fuel s input position e at k =
    after-Took (read_within fuel) (fill_buffer-Filled s input position at e) k
read-Took (b ∷ d) fuel s input position e at k =
    let (rest, i, r) = Ready-buffered s input position b d at e in
    Popped-Took i (pop_one-Popped s b rest position r)

read_within-Took :
    (fuel : ℕ) (s : Scanner) (input : Bytes) (position : ℕ × ℕ)
    → length s.chunks < fuel
    → At input position s
    → Took input position (read_within fuel s)
unfolding read_within
read_within-Took zero s input position h at = absurd (omega (arith, h))
read_within-Took (suc fuel) s input position h at =
    read-Took s.ready fuel s input position refl at
      (λ s' b rest k r. read_within-Took fuel s' (b ∷ rest) position (omega (arith, h, k)) r.there)

pub read_one-Took :
    (s : Scanner) (input : Bytes) (position : ℕ × ℕ)
    → At input position s
    → Took input position (read_one s)
unfolding read_one
read_one-Took s input position at =
    read_within-Took (suc (length s.chunks)) s input position (omega arith) at

pub rest_in_nil :
    (cls : ByteClass) (r x : Bytes)
    → rest_in cls r ≡ []
    → (prefix_in cls r ≡ r)
      × (prefix_in cls (r ++ x) ≡ r ++ prefix_in cls x)
      × (rest_in cls (r ++ x) ≡ rest_in cls x)
unfolding prefix_in rest_in
rest_in_nil cls [] x h = (refl, refl, refl)
rest_in_nil cls (b ∷ r) x h = elim (Bool-cases (cls b)) [
  | inl e ↦
      let (p, q, k) = rest_in_nil cls r x (rw e at h) in
      rw e (ap (λ l. b ∷ l) p, ap (λ l. b ∷ l) q, k)
  | inr e ↦ let k : b ∷ r ≡ [] = rw e at h in cc
]

pub rest_in_cons :
    (cls : ByteClass) (r x : Bytes) (c : ℕ) (d : Bytes)
    → rest_in cls r ≡ c ∷ d
    → (prefix_in cls (r ++ x) ≡ prefix_in cls r) × (rest_in cls (r ++ x) ≡ (c ∷ d) ++ x)
unfolding prefix_in rest_in
rest_in_cons cls [] x c d h = cc
rest_in_cons cls (b ∷ r) x c d h = elim (Bool-cases (cls b)) [
  | inl e ↦ let (p, q) = rest_in_cons cls r x c d (rw e at h) in rw e (ap (λ l. b ∷ l) p, q)
  | inr e ↦ let k : b ∷ r ≡ c ∷ d = rw e at h in rw e (refl, ap (λ l. l ++ x) k)
]
