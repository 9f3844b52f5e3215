-- ===== src/Sema/Literals.antt =====
-- internal/sema/lower.go: character literals and the opcodes of the binary operators.
use wihajster.Common.{
  ℕ, ◌-◌, Bool, false, not, ◌||◌, [], ◌∷◌, length, take, drop, get_elem?, ltb, ◌==◌, Option, none,
  some, if◌then◌else◌, ◌≡◌, refl,
}
use wihajster.Common.Bytes.{Bytes, codes}
use wihajster.Lexer.Token.{TokenType}
use wihajster.Tac.Types.{Opcode}

abbrev quote : ℕ
quote = b'\''

escaped : ℕ → Option ℕ
escaped c =
    if c == b'\\'
    then some b'\\'
    else if c == quote
    then some quote
    else if c == b'n'
    then some b'\n'
    else if c == b't'
    then some b'\t'
    else if c == b'r'
    then some b'\r'
    else if c == b'0'
    then some 0
    else none

-- What stands between the quotes.
decode_body : Bytes → Option ℕ
unfolding escaped
decode_body [] = none
decode_body (c ∷ []) = if c == b'\\' then none else some c
decode_body (c ∷ d ∷ []) = if c == b'\\' then escaped d else none
decode_body (c ∷ d ∷ e ∷ rest) = none

-- `raw[0] != '\''` and `raw[len(raw)-1] != '\''`.
is_quote_at : Bytes → ℕ → Bool
is_quote_at raw i = elim (get_elem? raw i) [ none ↦ false | some c ↦ c == quote ]

-- `decodeCharacterLiteral`; the message quotes the literal on every error.
unfoldable pub decode_character_literal : Bytes → Option ℕ
unfolding decode_body is_quote_at
decode_character_literal raw =
    if ltb (length raw) 3 || not (is_quote_at raw 0) || not (is_quote_at raw (length raw - 1))
    then none
    else decode_body (take (length raw - 2) (drop 1 raw))

decode_runs : decode_character_literal (codes "'\\n'") ≡ some 10
unfolding decode_character_literal
decode_runs = refl

decode_plain : decode_character_literal (codes "'a'") ≡ some 97
unfolding decode_character_literal
decode_plain = refl

-- `binaryOpcode`.
unfoldable pub binary_opcode : TokenType → Opcode
binary_opcode TokenType.plus = Opcode.add
binary_opcode TokenType.minus = Opcode.sub
binary_opcode TokenType.star = Opcode.mul
binary_opcode TokenType.slash = Opcode.div_s
binary_opcode TokenType.percent = Opcode.mod_s
binary_opcode TokenType.amp = Opcode.and
binary_opcode TokenType.pipe = Opcode.or
binary_opcode TokenType.caret = Opcode.xor
binary_opcode TokenType.shift_left = Opcode.shl
binary_opcode TokenType.shift_right = Opcode.shr_s
binary_opcode TokenType.eq = Opcode.eq
binary_opcode TokenType.ne = Opcode.ne
binary_opcode TokenType.lt = Opcode.lt_s
binary_opcode TokenType.le = Opcode.le_s
binary_opcode TokenType.gt = Opcode.gt_s
binary_opcode TokenType.ge = Opcode.ge_s
binary_opcode TokenType.and_and = Opcode.and
binary_opcode TokenType.or_or = Opcode.or
binary_opcode _ = Opcode.invalid
