-- ===== src/Lexer/Scanner/Portions.antt =====
-- `readBytesInClass` on what is to come.
use mathlib.Core.List.{append-nil}
use wihajster.Common.{
  ℕ, suc, ◌+◌, ◌<◌, Bool, true, false, Bool-cases, inl, inr, [], ◌∷◌, ◌++◌, length, length-append,
  ◌≡◌, refl, ap, sym, ◌∙◌, arith,
}
use wihajster.Common.Bytes.{Bytes}
use wihajster.Common.Outcome.{Outcome, ok, err}
use wihajster.Lexer.Monad.{ReadError, LexError, after}
use wihajster.Lexer.Scanner.{
  Scanner, ByteClass, fill_buffer, prefix_in, rest_in, read_ready, read_bytes_in_class, is_empty,
}
use wihajster.Lexer.Scanner.Position.{advance_bytes, advance_line_column-advance_bytes}
use wihajster.Lexer.Scanner.Serves.{At, Ready, Filled, filled, ended, fill_buffer-Filled, bytes_of}
use wihajster.Lexer.Scanner.Reads.{rest_in_nil, rest_in_cons, Ready-buffered}

-- A read that found the end of the input, the whole buffer, or the end of the class.
pub data Portion (cls : ByteClass) (input : Bytes) (position : ℕ × ℕ)
    : Outcome LexError (Bytes × Bool) × Scanner → Type 0 where
  nothing :
      {s : Scanner}
      → input ≡ []
      → At [] position s
      → Portion cls input position (err (LexError.read_error ReadError.eof), s)
  whole :
      {s : Scanner} (d rest : Bytes)
      → 0 < length d
      → length input ≡ length d + length rest
      → prefix_in cls input ≡ d ++ prefix_in cls rest
      → rest_in cls input ≡ rest_in cls rest
      → At rest (advance_bytes d position) s
      → Portion cls input position (ok (d, true), s)
  part :
      {s : Scanner} (c : ℕ) (d : Bytes)
      → rest_in cls input ≡ c ∷ d
      → At (c ∷ d) (advance_bytes (prefix_in cls input) position) s
      → Portion cls input position (ok (prefix_in cls input, false), s)

abbrev partial : Bytes → Bytes → Bool
partial [] rest = false
partial (_ ∷ _) [] = true
partial (_ ∷ _) (_ ∷ _) = false

read_ready-At :
    (cls : ByteClass) (p q : Bytes) (s : Scanner) (input : Bytes) (position : ℕ × ℕ)
    → At input position s
    → p ++ q ≡ s.ready
    → (s' : Scanner) × (read_ready cls p q s ≡ (ok (p, partial p q), s'))
      × At (q ++ bytes_of s.chunks) (advance_bytes p position) s'
unfolding read_ready is_empty
read_ready-At cls [] q s input position at e = (
  s,
  refl,
  record {
    clean = at.clean;
    fits = at.fits;
    coming = ap (λ r. r ++ bytes_of s.chunks) (sym e);
    here = at.here;
  },
)
read_ready-At cls (x ∷ p) [] s input position at e = (
  _,
  refl,
  record {
    clean = at.clean;
    fits = at.fits;
    coming = refl;
    here =
        advance_line_column-advance_bytes (x ∷ p) s.line s.column
        ∙ ap (advance_bytes (x ∷ p)) at.here;
  },
)
read_ready-At cls (x ∷ p) (y ∷ q) s input position at e = (
  _,
  refl,
  record {
    clean = at.clean;
    fits = at.fits;
    coming = refl;
    here =
        advance_line_column-advance_bytes (x ∷ p) s.line s.column
        ∙ ap (advance_bytes (x ∷ p)) at.here;
  },
)

prefix-rest : (cls : ByteClass) (r : Bytes) → prefix_in cls r ++ rest_in cls r ≡ r
unfolding prefix_in rest_in
prefix-rest cls [] = refl
prefix-rest cls (b ∷ r) = elim (Bool-cases (cls b)) [
  | inl e ↦ rw e (ap (λ l. b ∷ l) (prefix-rest cls r))
  | inr e ↦ rw e refl
]

partial_cons : (p : Bytes) (c : ℕ) (q : Bytes) → partial p (c ∷ q) ≡ false
partial_cons [] c q = refl
partial_cons (_ ∷ _) c q = refl

-- The buffer `r`, and `more` after it.
read_ready-Portion :
    (cls : ByteClass) (q : Bytes) (s : Scanner) (b : ℕ) (rest : Bytes) (position : ℕ × ℕ)
    → rest_in cls s.ready ≡ q
    → Ready b rest position s
    → Portion cls
        (b ∷ rest)
        position
        (read_ready cls (prefix_in cls s.ready) (rest_in cls s.ready) s)
read_ready-Portion cls [] s b rest position e r =
    let more = bytes_of s.chunks in
    let (p, pre, suf) = rest_in_nil cls s.ready more e in
    let (s', out, at) =
      read_ready-At cls s.ready [] s (b ∷ rest) position r.there (append-nil s.ready) in
    let full : partial s.ready [] ≡ true = rw (r.ready_eq) refl in
    let long : length (b ∷ rest) ≡ length s.ready + length more =
      ap length (sym r.there.coming) ∙ length-append s.ready more in
    rw (e, p, out, full)
      (whole s.ready more
        (let z : length s.ready ≡ suc (length r.buffered) = ap length r.ready_eq in
          omega (arith, z))
        long (ap (prefix_in cls) (sym r.there.coming) ∙ pre)
        (ap (rest_in cls) (sym r.there.coming) ∙ suf) at)
read_ready-Portion cls (c ∷ d) s b rest position e r =
    let more = bytes_of s.chunks in
    let (pre, suf) = rest_in_cons cls s.ready more c d e in
    let same : prefix_in cls s.ready ≡ prefix_in cls (b ∷ rest) =
      sym pre ∙ ap (prefix_in cls) r.there.coming in
    let split : prefix_in cls s.ready ++ (c ∷ d) ≡ s.ready = rw e at (prefix-rest cls s.ready) in
    let (s', out, at) =
      read_ready-At cls (prefix_in cls s.ready) (c ∷ d) s (b ∷ rest) position r.there split in
    rw (e, out, partial_cons (prefix_in cls s.ready) c d, same)
      (part c (d ++ more) (ap (rest_in cls) (sym r.there.coming) ∙ suf) (rw same at at))

after-Portion :
    {input : Bytes} {position : ℕ × ℕ} {count : ℕ} {out : Outcome LexError (Unit {0}) × Scanner}
    (cls : ByteClass)
    → Filled input position count out
    → Portion cls input position
        (after out λ _ s'. read_ready cls (prefix_in cls s'.ready) (rest_in cls s'.ready) s')
after-Portion cls (filled b rest e r h) = rw e (read_ready-Portion cls _ _ b rest _ refl r)
after-Portion cls (ended e at) = nothing e at

read-Portion :
    (r : Bytes) (cls : ByteClass) (s : Scanner) (input : Bytes) (position : ℕ × ℕ)
    → s.ready ≡ r
    → At input position s
    → Portion cls input position (elim r [
      | _ ∷ _ ↦ read_ready cls (prefix_in cls s.ready) (rest_in cls s.ready) s
      | [] ↦
          after
            (fill_buffer s)
            λ _ s'. read_ready cls (prefix_in cls s'.ready) (rest_in cls s'.ready) s'
    ])
read-Portion [] cls s input position e at =
    after-Portion cls (fill_buffer-Filled s input position at e)
read-Portion (b ∷ d) cls s input position e at =
    let (rest, i, r) = Ready-buffered s input position b d at e in
    rw i (read_ready-Portion cls (rest_in cls s.ready) s b rest position refl r)

pub read_bytes_in_class-Portion :
    (cls : ByteClass) (s : Scanner) (input : Bytes) (position : ℕ × ℕ)
    → At input position s
    → Portion cls input position (read_bytes_in_class cls s)
unfolding read_bytes_in_class
read_bytes_in_class-Portion cls s input position at =
    read-Portion s.ready cls s input position refl at
