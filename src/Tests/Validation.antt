-- ===== src/Tests/Validation.antt =====
-- internal/tac/validate.go, and the types of internal/sema/lower.go, on concrete inputs.
use wihajster.Common.{
  refl, length, arith, inl, inr, Bool-cases, ◌<◌, ℕ, true, List, [], ◌∷◌, some, ◌≡◌, ◌↔◌, ◌≤◌, ◌⊎◌,
  All,
}
use wihajster.Common.Bytes.{Bytes, codes}
use wihajster.Common.Outcome.{Post, ok}
use wihajster.Tac.Types.{InstructionKind, Instruction, blank}
use wihajster.Tac.Operands.{label}
use wihajster.Tac.Code.{defs, uses, Verified}
use wihajster.Tac.Validate.{define_labels, collect_starts, sort_starts}
use wihajster.Tac.Validate.Sorted.{Ascending, occurrences, sort_starts-Ascending}
use wihajster.Common.Maps.{Map, lookup, bytes_eq, bytes_key}
use wihajster.Tac.Validate.Collects.{Starts, Found, Targeted, Covered, collect_starts_complete}
use wihajster.Tac.Validate.{validate_instructions}
use wihajster.Tac.Validate.Complete.{validate_instructions_iff}
use wihajster.Tac.Code.{WellFormed}
use wihajster.Tac.Validate.Accepts.{define_labels_complete}
use wihajster.Sema.Types.{FunctionSignature, same_signature, pointee_type, pointer_to}
use wihajster.Sema.Signatures.{same_signature_iff, pointee_type-pointer_to}

-- .L0: jmp .L0
abbrev endless : List Instruction
endless =
    record (blank InstructionKind.label) { label = codes ".L0" }
    ∷ record (blank InstructionKind.jmp) { true_label = label (codes ".L0") }
    ∷ []

define_labels_complete_example :
    Post
      (λ _. All Verified endless × ((name : Bytes) → defs name endless ≤ 1))
      (λ _. ¬ (All Verified endless) ⊎ ((name : Bytes) × (2 ≤ defs name endless)))
      (define_labels 0 endless [])
define_labels_complete_example = define_labels_complete endless

endless_labels : Map Bytes ℕ
endless_labels = (codes ".L0", 0) ∷ []

endless-Found : (name : Bytes) → Found endless_labels (length endless) name (uses name endless)
unfolding endless_labels lookup
endless-Found name = elim (Bool-cases (bytes_eq (codes ".L0") name)) [
  | inl e ↦ inr (0, rw e refl, omega arith)
  | inr e ↦ inl (rw e refl)
]

collect_starts_complete_example :
    (starts : List ℕ) × (collect_starts endless_labels (length endless) 0 endless (0 ∷ [])
      ≡ ok starts)
    × Starts (length endless) starts
    × (0 < occurrences 0 starts)
    × ((name : Bytes) → Targeted endless_labels starts name (uses name endless))
    × Covered 0 endless starts
collect_starts_complete_example =
    collect_starts_complete endless_labels
      (record (blank InstructionKind.label) { label = codes ".L0" })
      (record (blank InstructionKind.jmp) { true_label = label (codes ".L0") } ∷ []) endless-Found

sort_starts-Ascending_example :
    Ascending (sort_starts (0 ∷ 7 ∷ 3 ∷ []))
    × ((n : ℕ) → occurrences n (sort_starts (0 ∷ 7 ∷ 3 ∷ [])) ≡ occurrences n (0 ∷ 7 ∷ 3 ∷ []))
sort_starts-Ascending_example = sort_starts-Ascending (0 ∷ 7 ∷ 3 ∷ [])

abbrev of_pointer : FunctionSignature
of_pointer = record { return_type = codes "void"; params = codes "i32*" ∷ [] }

abbrev of_number : FunctionSignature
of_number = record { return_type = codes "void"; params = codes "i32" ∷ [] }

same_signature_iff_example : (same_signature of_pointer of_number ≡ true) ↔ (of_pointer ≡ of_number)
same_signature_iff_example = same_signature_iff of_pointer of_number

pointee_type-pointer_to_example : pointee_type (pointer_to (codes "i32*")) ≡ some (codes "i32*")
pointee_type-pointer_to_example = pointee_type-pointer_to (codes "i32*")

validate_instructions_iff_example : (validate_instructions endless ≡ ok tt) ↔ WellFormed endless
validate_instructions_iff_example =
    validate_instructions_iff (record (blank InstructionKind.label) { label = codes ".L0" })
      (record (blank InstructionKind.jmp) { true_label = label (codes ".L0") } ∷ [])
