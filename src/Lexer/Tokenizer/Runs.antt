-- ===== src/Lexer/Tokenizer/Runs.antt =====
-- The calls by which the functions of internal/lexer/tokenizer*.go read a run of one class.
use mathlib.Core.List.{append-nil, append_assoc}
use wihajster.Common.{
  ℕ, zero, suc, ◌<◌, Bool, true, false, List, [], ◌∷◌, ◌++◌, length, length-append, if◌then◌else◌,
  ◌≡◌, refl, ap, sym, ◌∙◌, arith,
}
use wihajster.Common.Bytes.{Bytes}
use wihajster.Common.Outcome.{Outcome, ok, err}
use wihajster.Lexer.Monad.{ReadError, LexError, Lex, pure, after, at_end, ◌>>◌}
use wihajster.Lexer.Scanner.{Chunk, Scanner, ByteClass, prefix_in, rest_in, read_bytes_in_class}
use wihajster.Lexer.Scanner.Position.{advance_bytes, advance_bytes-append}
use wihajster.Lexer.Scanner.Serves.{At, bytes_of}
use wihajster.Lexer.Scanner.Portions.{Portion, nothing, whole, part, read_bytes_in_class-Portion}
use wihajster.Lexer.Tokenizer.Reading.{
  Scanning, replace, build_if, fuel_of, chunk_bytes, or_nothing, read_data, run_within, read_run,
  skip_run,
}

-- The scanner stands at a position, with a text got so far and these bytes to come.
pub record Stands (input text : Bytes) (position : ℕ × ℕ) (s : Scanning) : Type 0 where
  pub at : At input position s.scanner
  pub got : s.text ≡ text

abbrev pub kept : Bool → Bytes → Bytes
kept true d = d
kept false d = []

-- A run that ends with the input fails where `io.EOF` is an error.
abbrev pub run_result : Bool → Bytes → Outcome LexError (Unit {0})
run_result true rest = ok tt
run_result false [] = err (LexError.read_error ReadError.eof)
run_result false (_ ∷ _) = ok tt

-- All the bytes of the class are read, and those alone.
pub record Ran (keeps eof_ends : Bool) (cls : ByteClass) (input text : Bytes) (position : ℕ × ℕ)
    (out : Outcome LexError (Unit {0}) × Scanning) : Type 0 where
  pub result : out.0 ≡ run_result eof_ends (rest_in cls input)
  pub stands :
      Stands
        (rest_in cls input)
        (text ++ kept keeps (prefix_in cls input))
        (advance_bytes (prefix_in cls input) position)
        out.1

kept_nil : (keeps : Bool) (text : Bytes) → text ++ kept keeps [] ≡ text
kept_nil true text = append-nil text
kept_nil false text = append-nil text

build_if-Stands :
    (keeps : Bool) (d input text : Bytes) (position : ℕ × ℕ) (s : Scanning)
    → Stands input text position s
    → (s' : Scanning) × (build_if keeps d s ≡ (ok tt, s'))
      × Stands input (text ++ kept keeps d) position s'
build_if-Stands true d input text position s st =
    (_, refl, record { at = st.at; got = ap (λ l. l ++ d) st.got })
build_if-Stands false d input text position s st =
    (s, refl, record { at = st.at; got = st.got ∙ sym (append-nil text) })

kept-append :
    (keeps : Bool) (text d e : Bytes)
    → (text ++ kept keeps d) ++ kept keeps e ≡ text ++ kept keeps (d ++ e)
kept-append true text d e = append_assoc text d e
kept-append false text d e = append-nil (text ++ [])

read_of :
    Bool → Outcome LexError (Bytes × Bool) × Scanning → Outcome LexError (Bytes × Bool) × Scanning
read_of true out = after (at_end out) λ read. pure (or_nothing read)
read_of false out = out

read_data-read_of :
    (eof_ends : Bool) (cls : ByteClass) (s : Scanning)
    → read_data eof_ends cls s ≡ read_of eof_ends (replace s (read_bytes_in_class cls s.scanner))
unfolding read_data read_of
read_data-read_of true cls s = refl
read_data-read_of false cls s = refl

module _ (keeps eof_ends : Bool) (cls : ByteClass) (fuel : ℕ) where
  -- What a call does with the data that it has read.
  step : Bytes × Bool → Lex Scanning (Unit {0})
  step (d, partial) = do
    build_if keeps d
    if partial then run_within fuel keeps eof_ends cls else pure tt

  Ran_end :
      (input text : Bytes) (position : ℕ × ℕ) (s : Scanning)
      → rest_in cls input ≡ rest_in cls input
      → Stands (rest_in cls input) text (advance_bytes (prefix_in cls input) position) s
      → run_result eof_ends (rest_in cls input) ≡ ok tt
      → Ran keeps eof_ends cls input text position (step (prefix_in cls input, false) s)
  unfolding step
  Ran_end input text position s _ st h =
      let (s', e, st') = build_if-Stands keeps (prefix_in cls input) _ text _ s st in
      rw e (record { result = sym h; stands = st' })

  Ran_on :
      (d rest input text : Bytes) (position : ℕ × ℕ) (s : Scanning)
      → prefix_in cls input ≡ d ++ prefix_in cls rest
      → rest_in cls input ≡ rest_in cls rest
      → Stands rest text (advance_bytes d position) s
      → ((s' : Scanning) (text' : Bytes) (at' : ℕ × ℕ)
          → Stands rest text' at' s'
          → Ran keeps eof_ends cls rest text' at' (run_within fuel keeps eof_ends cls s'))
      → Ran keeps eof_ends cls input text position (step (d, true) s)
  unfolding step
  Ran_on d rest input text position s p q st rec =
      let (s', e, st') = build_if-Stands keeps d rest text _ s st in
      let ran = rec s' _ _ st' in
      rw e (record {
        result = ran.result ∙ ap (run_result eof_ends) (sym q);
        stands =
            rw
              (
                q,
                p,
                sym (kept-append keeps text d (prefix_in cls rest)),
                advance_bytes-append d (prefix_in cls rest) position,
              )
              ran.stands;
      })

abbrev Continues : Bool → Bool → ByteClass → ℕ → Bytes → Type 0
Continues keeps eof_ends cls fuel input =
    (s' : Scanning) (rest text' : Bytes) (at' : ℕ × ℕ)
    → length rest < length input
    → Stands rest text' at' s'
    → Ran keeps eof_ends cls rest text' at' (run_within fuel keeps eof_ends cls s')

Portion-Ran :
    {out : Outcome LexError (Bytes × Bool) × Scanner} (keeps eof_ends : Bool) (cls : ByteClass)
    (fuel : ℕ) (input text : Bytes) (position : ℕ × ℕ) (s : Scanning)
    → Portion cls input position out
    → s.text ≡ text
    → Continues keeps eof_ends cls fuel input
    → Ran keeps eof_ends cls input text position
        (after (read_of eof_ends (replace s out)) (step keeps eof_ends cls fuel))
unfolding read_of rest_in prefix_in
Portion-Ran keeps true cls fuel input text position s (nothing i at) e rec =
    rw i (Ran_end keeps true cls fuel [] text position _ refl (record { at = at; got = e }) refl)
Portion-Ran keeps false cls fuel input text position s (nothing i at) e rec =
    rw i
      (record { result = refl; stands = record { at = at; got = e ∙ sym (kept_nil keeps text) } })
Portion-Ran keeps true cls fuel input text position s (whole d rest l len p q at) e rec =
    Ran_on keeps true cls fuel d rest input text position _ p q (record { at = at; got = e })
      (λ s' text' at'. rec s' rest text' at' (omega (arith, l, len)))
Portion-Ran keeps false cls fuel input text position s (whole d rest l len p q at) e rec =
    Ran_on keeps false cls fuel d rest input text position _ p q (record { at = at; got = e })
      (λ s' text' at'. rec s' rest text' at' (omega (arith, l, len)))
Portion-Ran keeps true cls fuel input text position s (part c d q at) e rec =
    Ran_end keeps true cls fuel input text position _ refl (record { at = rw q at; got = e }) refl
Portion-Ran keeps false cls fuel input text position s (part c d q at) e rec =
    Ran_end keeps false cls fuel input text position _ refl (record { at = rw q at; got = e })
      (rw q refl)

run_within-Ran :
    (fuel : ℕ) (keeps eof_ends : Bool) (cls : ByteClass) (input text : Bytes) (position : ℕ × ℕ)
    (s : Scanning)
    → length input < fuel
    → Stands input text position s
    → Ran keeps eof_ends cls input text position (run_within fuel keeps eof_ends cls s)
unfolding run_within step
run_within-Ran zero keeps eof_ends cls input text position s h st = absurd (omega (arith, h))
run_within-Ran (suc fuel) keeps eof_ends cls input text position s h st =
    rw (read_data-read_of eof_ends cls s) (
      Portion-Ran keeps eof_ends cls fuel input text position s
        (read_bytes_in_class-Portion cls s.scanner input position st.at) st.got
        (λ s' rest text' at' k st'.
          run_within-Ran fuel keeps eof_ends cls rest text' at' s' (omega (arith, h, k)) st'))

length-bytes_of : (chunks : List Chunk) → length (bytes_of chunks) ≡ chunk_bytes chunks
length-bytes_of [] = refl
length-bytes_of ((d, e) ∷ chunks) =
    omega (arith, length-append d (bytes_of chunks), length-bytes_of chunks)

fuel_of-enough :
    (s : Scanning) (input text : Bytes) (position : ℕ × ℕ)
    → Stands input text position s
    → length input < fuel_of s
fuel_of-enough s input text position st =
    let e : length (s.scanner.ready ++ bytes_of s.scanner.chunks) ≡ length input =
      ap length st.at.coming in
    omega (
      arith,
      e,
      length-append s.scanner.ready (bytes_of s.scanner.chunks),
      length-bytes_of s.scanner.chunks,
    )

-- From a scanner with given bytes to come, over a reader that returns at least one byte at each
-- `Read` until the end, with `io.EOF` beside the last bytes or after them and no other error,
-- `read_run` reads all the bytes of the class that come next, and those alone, and it does not run
-- out of fuel.
pub read_run-Ran :
    (eof_ends : Bool) (cls : ByteClass) (input text : Bytes) (position : ℕ × ℕ) (s : Scanning)
    → Stands input text position s
    → Ran true eof_ends cls input text position (read_run eof_ends cls s)
unfolding read_run
read_run-Ran eof_ends cls input text position s st =
    run_within-Ran (fuel_of s) true eof_ends cls input text position s
      (fuel_of-enough s input text position st) st

pub skip_run-Ran :
    (cls : ByteClass) (input text : Bytes) (position : ℕ × ℕ) (s : Scanning)
    → Stands input text position s
    → Ran false false cls input text position (skip_run cls s)
unfolding skip_run
skip_run-Ran cls input text position s st =
    run_within-Ran (fuel_of s) false false cls input text position s
      (fuel_of-enough s input text position st) st
