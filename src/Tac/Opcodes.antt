-- ===== src/Tac/Opcodes.antt =====
-- internal/tac/types.go: the names of the opcodes, and `ParseOpcode`.
use wihajster.Common.{Bool, true, false, List, [], ◌∷◌, none, some, ◌≡◌, refl}
use wihajster.Common.Bytes.{Bytes, codes}
use wihajster.Common.Maps.{Map, lookup, bytes_key, bytes_eq}
use wihajster.Tac.Types.{Opcode}

-- `opcodeNames`, and `Opcode.String`: the name in that table, or "invalid" for what it lacks.
unfoldable pub opcode_string : Opcode → Bytes
opcode_string Opcode.invalid = codes "invalid"
opcode_string Opcode.const_i32 = codes "const.i32"
opcode_string Opcode.const_i8 = codes "const.i8"
opcode_string Opcode.copy = codes "copy"
opcode_string Opcode.add = codes "add"
opcode_string Opcode.sub = codes "sub"
opcode_string Opcode.mul = codes "mul"
opcode_string Opcode.div_s = codes "div_s"
opcode_string Opcode.mod_s = codes "mod_s"
opcode_string Opcode.and = codes "and"
opcode_string Opcode.or = codes "or"
opcode_string Opcode.xor = codes "xor"
opcode_string Opcode.shl = codes "shl"
opcode_string Opcode.shr_s = codes "shr_s"
opcode_string Opcode.eq = codes "eq"
opcode_string Opcode.ne = codes "ne"
opcode_string Opcode.lt_s = codes "lt_s"
opcode_string Opcode.le_s = codes "le_s"
opcode_string Opcode.gt_s = codes "gt_s"
opcode_string Opcode.ge_s = codes "ge_s"
opcode_string Opcode.neg = codes "neg"
opcode_string Opcode.not = codes "not"
opcode_string Opcode.logic_not = codes "logic_not"
opcode_string Opcode.call = codes "call"
opcode_string Opcode.alloca = codes "alloca"
opcode_string Opcode.load = codes "load"
opcode_string Opcode.store = codes "store"
opcode_string Opcode.load_indirect = codes "load.ind"
opcode_string Opcode.store_indirect = codes "store.ind"

-- The keys of `opcodeNames`.
core_opcodes : List Opcode
core_opcodes =
    Opcode.const_i32 ∷ Opcode.const_i8 ∷ Opcode.copy ∷ Opcode.add ∷ Opcode.sub ∷ Opcode.mul
    ∷ Opcode.div_s ∷ Opcode.mod_s ∷ Opcode.and ∷ Opcode.or ∷ Opcode.xor ∷ Opcode.shl ∷ Opcode.shr_s
    ∷ Opcode.eq ∷ Opcode.ne ∷ Opcode.lt_s ∷ Opcode.le_s ∷ Opcode.gt_s ∷ Opcode.ge_s ∷ Opcode.neg
    ∷ Opcode.not ∷ Opcode.logic_not ∷ Opcode.call ∷ Opcode.alloca ∷ Opcode.load ∷ Opcode.store
    ∷ Opcode.load_indirect ∷ Opcode.store_indirect ∷ []

-- `init`: the table turned round. Its names are distinct, so the order of the map does not matter.
core_opcode_by_name : List Opcode → Map Bytes Opcode
core_opcode_by_name [] = []
core_opcode_by_name (op ∷ ops) = (opcode_string op, op) ∷ core_opcode_by_name ops

-- `"gep", "zext", "sext", "trunc", "bitcast", "phi"`.
optional_names : Map Bytes (Unit {0})
optional_names =
    (codes "gep", tt)
    ∷ (codes "zext", tt)
    ∷ (codes "sext", tt)
    ∷ (codes "trunc", tt)
    ∷ (codes "bitcast", tt)
    ∷ (codes "phi", tt)
    ∷ []

-- `ParseOpcode`: the opcode, whether it is a core one, and whether it is an optional one.
unfoldable pub parse_opcode : Bytes → Opcode × Bool × Bool
unfolding core_opcode_by_name core_opcodes optional_names opcode_string lookup
parse_opcode name = elim (lookup name (core_opcode_by_name core_opcodes)) [
  | some op ↦ (op, true, false)
  | none ↦ elim (lookup name optional_names) [
    | some _ ↦ (Opcode.invalid, false, true)
    | none ↦ (Opcode.invalid, false, false)
  ]
]

-- The opcode that a name stands for, and `invalid` is no opcode's name.
abbrev pub Reads : Opcode → Opcode × Bool × Bool → Type 0
Reads Opcode.invalid r = r ≡ (Opcode.invalid, false, false)
Reads op r = r ≡ (op, true, false)

-- `ParseOpcode` reads every name that `Opcode.String` writes back to its opcode, as a core one,
-- and refuses the text "invalid" of `OpcodeInvalid`.
pub parse_opcode-opcode_string : (op : Opcode) → Reads op (parse_opcode (opcode_string op))
unfolding parse_opcode opcode_string bytes_eq
parse_opcode-opcode_string Opcode.invalid = refl
parse_opcode-opcode_string _ = refl
