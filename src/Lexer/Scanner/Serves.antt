-- ===== src/Lexer/Scanner/Serves.antt =====
-- What a scanner can still return, however its reader cuts it into chunks.
use wihajster.Common.{
  ℕ, ◌<◌, List, [], ◌∷◌, ◌++◌, length, Option, none, some, ◌≡◌, refl, sym, arith,
}
use wihajster.Common.Bytes.{Bytes}
use wihajster.Common.Outcome.{Outcome, ok, err}
use wihajster.Lexer.Monad.{ReadError, LexError}
use wihajster.Lexer.Scanner.{Chunk, Scanner, fill_buffer, fill_ready, read_chunk}

-- An error beside the bytes of a chunk: `io.EOF`, and only with the last bytes.
abbrev pub Fits : Option ReadError → List Chunk → Type 0
Fits none chunks = Unit
Fits (some ReadError.eof) chunks = chunks ≡ []
Fits (some (ReadError.failed _)) chunks = ⊥

-- A reader that fails nowhere, and returns a byte at least until the end.
abbrev pub Clean : List Chunk → Type 0
Clean [] = Unit
Clean (([], e) ∷ chunks) = ⊥
Clean ((_ ∷ _, e) ∷ chunks) = Fits e chunks × Clean chunks

abbrev pub bytes_of : List Chunk → Bytes
bytes_of [] = []
bytes_of ((data', _) ∷ chunks) = data' ++ bytes_of chunks

-- The scanner stands at a position, with these bytes to come.
pub record At (input : Bytes) (position : ℕ × ℕ) (s : Scanner) : Type 0 where
  pub clean : Clean s.chunks
  pub fits : Fits s.stored s.chunks
  pub coming : s.ready ++ bytes_of s.chunks ≡ input
  pub here : (s.line, s.column) ≡ position

-- An outcome, and a state with a property.
pub data Gives {S A : Type 0} (P : A → S → Type 0) (Q : S → Type 0) (e : LexError)
    : Outcome LexError A × S → Type 0 where
  gives : {a : A} {s : S} → P a s → Gives P Q e (ok a, s)
  stops : {s : S} → Q s → Gives P Q e (err e, s)

end_of_input : LexError
end_of_input = LexError.read_error ReadError.eof

-- A filled buffer starts with the first byte to come.
pub record Ready (b : ℕ) (rest : Bytes) (position : ℕ × ℕ) (s : Scanner) : Type 0 where
  pub buffered : Bytes
  pub ready_eq : s.ready ≡ b ∷ buffered
  pub there : At (b ∷ rest) position s

pub data Filled (input : Bytes) (position : ℕ × ℕ) (count : ℕ)
    : Outcome LexError (Unit {0}) × Scanner → Type 0 where
  filled :
      {s : Scanner} (b : ℕ) (rest : Bytes)
      → input ≡ b ∷ rest
      → Ready b rest position s
      → length s.chunks < count
      → Filled input position count (ok tt, s)
  ended :
      {s : Scanner}
      → input ≡ []
      → At [] position s
      → Filled input position count (err (LexError.read_error ReadError.eof), s)

read_chunk-Filled :
    (chunks : List Chunk) (s : Scanner) (position : ℕ × ℕ)
    → s.chunks ≡ chunks
    → At (bytes_of chunks) position s
    → Clean chunks
    → Filled (bytes_of chunks) position (length chunks) (read_chunk chunks s)
unfolding read_chunk
read_chunk-Filled [] s position e at c = ended refl at
read_chunk-Filled (([], o) ∷ chunks) s position e at c = absurd c
read_chunk-Filled ((b ∷ data', o) ∷ chunks) s position e at (f, c) =
    filled b (data' ++ bytes_of chunks) refl
      (record {
        buffered = data';
        ready_eq = refl;
        there = record { clean = c; fits = f; coming = refl; here = at.here };
      })
      (omega arith)

stored-Filled :
    (r : Bytes) (o : Option ReadError) (s : Scanner) (input : Bytes) (position : ℕ × ℕ)
    → Fits o s.chunks
    → At input position s
    → s.ready ≡ []
    → r ≡ []
    → Filled input position (length s.chunks) (elim o [
      | some e ↦ (err (LexError.read_error e), record s { stored = none })
      | none ↦ fill_ready r s
    ])
unfolding fill_ready
stored-Filled (b ∷ r) none s input position f at e q = cc
stored-Filled [] none s input position f at e q =
    let came : bytes_of s.chunks ≡ input = rw e at at.coming in
    rw (sym came) (read_chunk-Filled s.chunks s position refl (rw (sym came) at at) at.clean)
stored-Filled r (some ReadError.eof) s input position f at e q =
    let came : [] ≡ input = rw (e, f) at at.coming in
    ended (sym came)
      (record { clean = at.clean; fits = tt; coming = rw (e, f) refl; here = at.here })
stored-Filled r (some (ReadError.failed n)) s input position f at e q = absurd f

pub fill_buffer-Filled :
    (s : Scanner) (input : Bytes) (position : ℕ × ℕ)
    → At input position s
    → s.ready ≡ []
    → Filled input position (length s.chunks) (fill_buffer s)
unfolding fill_buffer
fill_buffer-Filled s input position at e =
    stored-Filled s.ready s.stored s input position at.fits at e e
