-- ===== src/Lexer/Scanner.antt =====
-- internal/lexer/scanner.go: byte classes, and the scanner over an `io.Reader`.
pub mod Serves
pub mod Position
pub mod Reads
pub mod Portions
use wihajster.Common.{
  ℕ, zero, suc, Bool, true, false, not, ◌||◌, ◌&&◌, ◌+◌, List, [], ◌∷◌, ◌++◌, length, leb, ◌==◌,
  if◌then◌else◌, Option, none, some,
}
use wihajster.Common.Bytes.{Bytes}
use wihajster.Common.Outcome.{Outcome, ok, err}
use wihajster.Lexer.Monad.{ReadError, LexError, Lex, pure, fail, after, ◌>>=◌, ◌>>◌}

-- `byteClass`: a test on bytes in place of an array of 256 of its results.
abbrev pub ByteClass : Type 0
ByteClass = ℕ → Bool

abbrev pub negate : ByteClass → ByteClass
negate cls b = not (cls b)

abbrev pub class_range : ℕ → ℕ → ByteClass
class_range start stop b = leb start b && leb b stop

abbrev pub class_chars : Bytes → ByteClass
class_chars [] b = false
class_chars (c ∷ chars) b = (b == c) || class_chars chars b

abbrev pub class_combine : List ByteClass → ByteClass
class_combine [] b = false
class_combine (cls ∷ classes) b = cls b || class_combine classes b

-- What one call of `Read` returns: the bytes, and an error beside them.
abbrev pub Chunk : Type 0
Chunk = Bytes × Option ReadError

-- `scanner`. The reader is the list of what its calls return, and then `0, io.EOF` at each call;
-- the buffer is `buff[pos:max]`.
pub record Scanner : Type 0 where
  pub chunks : List Chunk
  pub ready : Bytes
  pub stored : Option ReadError
  pub line : ℕ
  pub column : ℕ

-- `newScanner`.
unfoldable pub new_scanner : List Chunk → Scanner
new_scanner chunks = record { chunks = chunks; ready = []; stored = none; line = 1; column = 1 }

unfoldable pub read_chunk : List Chunk → Lex Scanner (Unit {0})
read_chunk [] s = (err (LexError.read_error ReadError.eof), s)
read_chunk (([], some e) ∷ chunks) s = (err (LexError.read_error e), record s { chunks = chunks })
read_chunk (([], none) ∷ chunks) s = (ok tt, record s { chunks = chunks; ready = [] })
read_chunk ((b ∷ data', e) ∷ chunks) s =
    (ok tt, record s { chunks = chunks; ready = b ∷ data'; stored = e })

-- What `fillBuffer` does behind its test for a stored error, on the bytes that are ready.
unfoldable pub fill_ready : Bytes → Lex Scanner (Unit {0})
unfolding read_chunk
fill_ready [] s = read_chunk s.chunks s
fill_ready (_ ∷ _) s = (err LexError.fill_panic, s)

-- `fillBuffer`.
unfoldable pub fill_buffer : Lex Scanner (Unit {0})
unfolding fill_ready
fill_buffer s = elim s.stored [
  | some e ↦ (err (LexError.read_error e), record s { stored = none })
  | none ↦ fill_ready s.ready s
]

-- The count of lines and columns past one byte.
unfoldable pub advance_byte : ℕ → ℕ × ℕ → ℕ × ℕ
advance_byte b (line, column) = if b == b'\n' then (line + 1, 1) else (line, column + 1)

unfoldable pub pop_from : Bytes → Lex Scanner ℕ
unfolding advance_byte
pop_from [] s = (err LexError.pop_panic, s)
pop_from (b ∷ ready) s =
    let (line, column) = advance_byte b (s.line, s.column) in
    (ok b, record s { ready = ready; line = line; column = column })

-- `popOneFromBuffer`.
unfoldable pub pop_one : Lex Scanner ℕ
unfolding pop_from
pop_one s = pop_from s.ready s

-- `peekOne` and `readOne`, which call themselves after they have filled the buffer.
unfoldable pub peek_within : ℕ → Lex Scanner ℕ
peek_within zero s = (err LexError.out_of_fuel, s)
peek_within (suc fuel) s = elim s.ready [
  | b ∷ _ ↦ (ok b, s)
  | [] ↦ after (fill_buffer s) λ _. peek_within fuel
]

unfoldable pub peek_one : Lex Scanner ℕ
unfolding peek_within
peek_one s = peek_within (suc (length s.chunks)) s

unfoldable pub read_within : ℕ → Lex Scanner ℕ
unfolding pop_one
read_within zero s = (err LexError.out_of_fuel, s)
read_within (suc fuel) s = elim s.ready [
  | b ∷ _ ↦ pop_one s
  | [] ↦ after (fill_buffer s) λ _. read_within fuel
]

unfoldable pub read_one : Lex Scanner ℕ
unfolding read_within
read_one s = read_within (suc (length s.chunks)) s

-- The bytes after the first newline.
unfoldable pub after_newline : Bytes → Option Bytes
after_newline [] = none
after_newline (b ∷ data') = if b == b'\n' then some data' else after_newline data'

unfoldable pub advance_lines : ℕ → Bytes → ℕ × ℕ → ℕ × ℕ
advance_lines zero data' position = position
advance_lines (suc fuel) data' (line, column) = elim (after_newline data') [
  | some rest ↦ advance_lines fuel rest (line + 1, 1)
  | none ↦ (line, column + length data')
]

-- `advanceLineColumn`, on fuel for the call after each newline.
unfoldable pub advance_line_column : Bytes → ℕ × ℕ → ℕ × ℕ
unfolding advance_lines
advance_line_column data' = advance_lines (suc (length data')) data'

-- The longest prefix of bytes in the class, and the bytes after it.
unfoldable pub prefix_in : ByteClass → Bytes → Bytes
prefix_in cls [] = []
prefix_in cls (b ∷ ready) = let rest = prefix_in cls ready in if cls b then b ∷ rest else []

unfoldable pub rest_in : ByteClass → Bytes → Bytes
rest_in cls [] = []
rest_in cls (b ∷ ready) = let rest = rest_in cls ready in if cls b then rest else b ∷ ready

unfoldable pub is_empty : Bytes → Bool
is_empty [] = true
is_empty (_ ∷ _) = false

-- `readBytesInClass` on a buffer that is filled.
unfoldable pub read_ready : ByteClass → Bytes → Bytes → Lex Scanner (Bytes × Bool)
unfolding is_empty
read_ready cls [] rest s = (ok ([], false), s)
read_ready cls (b ∷ data') rest s =
    let (line, column) = advance_line_column (b ∷ data') (s.line, s.column) in
    (ok (b ∷ data', is_empty rest), record s { ready = rest; line = line; column = column })

-- `readBytesInClass`: the bytes, and whether more of the class may follow.
unfoldable pub read_bytes_in_class : ByteClass → Lex Scanner (Bytes × Bool)
unfolding fill_buffer read_ready
read_bytes_in_class cls s = elim s.ready [
  | _ ∷ _ ↦ read_ready cls (prefix_in cls s.ready) (rest_in cls s.ready) s
  | [] ↦
      after (fill_buffer s)
        λ _ s'. read_ready cls (prefix_in cls s'.ready) (rest_in cls s'.ready) s'
]
