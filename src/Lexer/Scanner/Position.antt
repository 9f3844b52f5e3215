-- ===== src/Lexer/Scanner/Position.antt =====
-- The two counts of lines and columns: `advanceLineColumn`, and byte by byte in `popOneFromBuffer`.
use wihajster.Common.{
  ℕ, zero, suc, ◌+◌, ◌<◌, Bool-cases, inl, inr, [], ◌∷◌, ◌++◌, length, ◌==◌, Option, none, some,
  ◌≡◌, refl, ap, sym, ◌∙◌, true, false, arith,
}
use wihajster.Common.Bytes.{Bytes}
use wihajster.Lexer.Scanner.{advance_byte, after_newline, advance_lines, advance_line_column}

-- The position past bytes, one byte after the other.
abbrev pub advance_bytes : Bytes → ℕ × ℕ → ℕ × ℕ
advance_bytes [] at = at
advance_bytes (b ∷ data') at = advance_bytes data' (advance_byte b at)

pub advance_bytes-append :
    (d e : Bytes) (at : ℕ × ℕ) → advance_bytes (d ++ e) at ≡ advance_bytes e (advance_bytes d at)
advance_bytes-append [] e at = refl
advance_bytes-append (b ∷ d) e at = advance_bytes-append d e (advance_byte b at)

-- The bytes up to the first newline, if there is one.
ByNewline : Bytes → ℕ → ℕ → Option Bytes → Type 0
ByNewline data' l c none = advance_bytes data' (l, c) ≡ (l, c + length data')
ByNewline data' l c (some rest) =
    (advance_bytes data' (l, c) ≡ advance_bytes rest (l + 1, 1)) × (length rest < length data')

advance_newline :
    (b : ℕ) (data' : Bytes) (l c : ℕ)
    → (b == b'\n') ≡ true
    → advance_bytes (b ∷ data') (l, c) ≡ advance_bytes data' (l + 1, 1)
unfolding advance_byte
advance_newline b data' l c e = rw e refl

advance_other :
    (b : ℕ) (data' : Bytes) (l c : ℕ)
    → (b == b'\n') ≡ false
    → advance_bytes (b ∷ data') (l, c) ≡ advance_bytes data' (l, c + 1)
unfolding advance_byte
advance_other b data' l c e = rw e refl

ByNewline-cons :
    (b : ℕ) (data' : Bytes) (l c : ℕ) (o : Option Bytes)
    → (b == b'\n') ≡ false
    → ByNewline data' l (c + 1) o
    → ByNewline (b ∷ data') l c o
unfolding ByNewline
ByNewline-cons b data' l c none e h =
    let k : (c + 1) + length data' ≡ c + suc (length data') = omega arith in
    advance_other b data' l c e ∙ h ∙ ap (λ n. (l, n)) k
ByNewline-cons b data' l c (some rest) e (h, k) =
    (advance_other b data' l c e ∙ h, omega (arith, k))

after_newline-ByNewline : (data' : Bytes) (l c : ℕ) → ByNewline data' l c (after_newline data')
unfolding after_newline ByNewline
after_newline-ByNewline [] l c = let e : c ≡ c + 0 = omega arith in ap (λ n. (l, n)) e
after_newline-ByNewline (b ∷ data') l c = elim (Bool-cases (b == b'\n')) [
  | inl e ↦ rw e (advance_newline b data' l c e, omega arith)
  | inr e ↦
      rw e (
        ByNewline-cons b data' l c (after_newline data') e
          (after_newline-ByNewline data' l (c + 1)))
]

advance_lines-step :
    (fuel : ℕ) (data' : Bytes) (l c : ℕ) (o : Option Bytes)
    → ByNewline data' l c o
    → length data' < suc fuel
    → ((rest : Bytes)
        → length rest < fuel
        → advance_lines fuel rest (l + 1, 1) ≡ advance_bytes rest (l + 1, 1))
    → elim o [ some rest ↦ advance_lines fuel rest (l + 1, 1) | none ↦ (l, c + length data') ]
      ≡ advance_bytes data' (l, c)
unfolding ByNewline
advance_lines-step fuel data' l c none k h rec = sym k
advance_lines-step fuel data' l c (some rest) (k, m) h rec = rec rest (omega (arith, h, m)) ∙ sym k

advance_lines-bytes :
    (fuel : ℕ) (data' : Bytes) (l c : ℕ)
    → length data' < fuel
    → advance_lines fuel data' (l, c) ≡ advance_bytes data' (l, c)
unfolding advance_lines
advance_lines-bytes zero data' l c h = absurd (omega (arith, h))
advance_lines-bytes (suc fuel) data' l c h =
    advance_lines-step fuel data' l c (after_newline data') (after_newline-ByNewline data' l c) h
      (λ rest k. advance_lines-bytes fuel rest (l + 1) 1 k)

-- `advanceLineColumn` over the bytes that were read counts as `popOneFromBuffer` does over one byte
-- after the other.
pub advance_line_column-advance_bytes :
    (data' : Bytes) (line column : ℕ)
    → advance_line_column data' (line, column) ≡ advance_bytes data' (line, column)
unfolding advance_line_column
advance_line_column-advance_bytes data' line column =
    advance_lines-bytes (suc (length data')) data' line column (omega arith)
