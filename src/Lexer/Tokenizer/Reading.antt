-- ===== src/Lexer/Tokenizer/Reading.antt =====
-- The scanner and the bytes that `buildFn` has got, and the calls that the functions of
-- internal/lexer/tokenizer*.go share.
use wihajster.Common.{
  ℕ, zero, suc, Bool, true, false, ◌+◌, ◌++◌, List, [], ◌∷◌, length, if◌then◌else◌, Option, none,
  some,
}
use wihajster.Common.Bytes.{Bytes}
use wihajster.Common.Outcome.{Outcome, ok, err}
use wihajster.Lexer.Monad.{LexError, Lex, pure, after, ◌>>=◌, ◌>>◌, unless_eof}
use wihajster.Lexer.Scanner.{Chunk, Scanner, ByteClass, pop_one, read_bytes_in_class}

-- The scanner, and what `tokenBuildFn` has appended.
pub record Scanning : Type 0 where
  pub scanner : Scanner
  pub text : Bytes

abbrev pub replace :
    {A : Type 0} → Scanning → Outcome LexError A × Scanner → Outcome LexError A × Scanning
replace s (out, scanner) = (out, record s { scanner = scanner })

abbrev pub scan : {A : Type 0} → Lex Scanner A → Lex Scanning A
scan m s = replace s (m s.scanner)

-- `buildFn(data)`.
abbrev pub build : Bytes → Lex Scanning (Unit {0})
build data' s = (ok tt, record s { text = s.text ++ data' })

-- `buff1Char[0] = s.popOneFromBuffer()` and `buildFn(buff1Char)`.
unfoldable pub build_one : Lex Scanning (Unit {0})
build_one = do b ← scan pop_one; build (b ∷ [])

abbrev pub or_nothing : Option (Bytes × Bool) → Bytes × Bool
or_nothing none = ([], false)
or_nothing (some read) = read

-- `readBytesInClass`, with or without the test `err != io.EOF` beside `err != nil`.
unfoldable pub read_data : Bool → ByteClass → Lex Scanning (Bytes × Bool)
read_data true cls = do read ← unless_eof (scan (read_bytes_in_class cls)); pure (or_nothing read)
read_data false cls = scan (read_bytes_in_class cls)

abbrev pub chunk_bytes : List Chunk → ℕ
chunk_bytes [] = 0
chunk_bytes ((data', _) ∷ chunks) = length data' + chunk_bytes chunks

-- The bytes that the scanner can still return, and one more.
abbrev pub fuel_of : Scanning → ℕ
fuel_of s = suc (length s.scanner.ready + chunk_bytes s.scanner.chunks)

-- `buildFn(data)`, or nothing where the data is left out.
abbrev pub build_if : Bool → Bytes → Lex Scanning (Unit {0})
build_if true data' = build data'
build_if false data' = pure tt

-- The calls of a function by itself as long as `isPartial` holds: `readBytesInClass`, and `buildFn`
-- where it keeps the data. A call that is followed by another has read a byte.
unfoldable pub run_within : ℕ → Bool → Bool → ByteClass → Lex Scanning (Unit {0})
unfolding read_data
run_within zero keeps eof_ends cls s = (err LexError.out_of_fuel, s)
run_within (suc fuel) keeps eof_ends cls s = after (read_data eof_ends cls s) λ (data', partial). do
  build_if keeps data'
  if partial then run_within fuel keeps eof_ends cls else pure tt

unfoldable pub read_run : Bool → ByteClass → Lex Scanning (Unit {0})
unfolding run_within
read_run eof_ends cls s = run_within (fuel_of s) true eof_ends cls s

unfoldable pub skip_run : ByteClass → Lex Scanning (Unit {0})
unfolding run_within
skip_run cls s = run_within (fuel_of s) false false cls s
