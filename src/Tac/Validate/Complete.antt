-- ===== src/Tac/Validate/Complete.antt =====
-- Which functions `ValidateFunctionIR` accepts.
use wihajster.Common.{
  ℕ, ◌+◌, ◌≤◌, ◌<◌, List, [], ◌∷◌, length, ◌≡◌, ◌⊎◌, ◌↔◌, refl, arith, All, Bool-cases,
  Option-cases, inl, inr, some,
}
use wihajster.Common.Bytes.{Bytes}
use wihajster.Common.Maps.{AllValues, lookup, exists, bytes_key, lookup-AllValues}
use wihajster.Common.Outcome.{
  Outcome, ok, err, ◌>>=◌, ◌>>◌, found, Post, returns, raises, Post-bind, Post-map, Post-both,
  Post-forget, Post-ok,
}
use wihajster.Tac.Types.{InstructionKind, Instruction}
use wihajster.Tac.Code.{defs, uses, Verified, WellFormed}
use wihajster.Tac.Verify.{VerifyError, verify_instruction}
use wihajster.Tac.Validate.Labels.{ValidateError, Labels, at_index, define_label, define_labels}
use wihajster.Tac.Validate.Accepts.{present, define_label-Post, define_labels_complete}
use wihajster.Tac.Validate.Collects.{Found}
use wihajster.Tac.Validate.Blocks.{check_blocks, check_entry, validate_instructions, collect_blocks}
use wihajster.Tac.Validate.Starts.{collect_starts}
use wihajster.Tac.Validate.Targets.{collect_starts-Closed}
use wihajster.Tac.Validate.Blocks.Checked.{
  collect_blocks-Sound, check_blocks-ok, check_blocks-Ending,
}

define_label-AllValues :
    (P : ℕ → Type 0) (k : InstructionKind) (i : ℕ) (name : Bytes) (labels : Labels)
    → P i
    → AllValues P labels
    → Post (AllValues P) (λ _. Unit) (define_label k i name labels)
unfolding define_label
define_label-AllValues P InstructionKind.label i name labels h k =
    elim (Bool-cases (exists name labels)) [
      | inl e ↦ rw e (raises tt)
      | inr e ↦ rw e (returns (h, k))
    ]
define_label-AllValues P _ i name labels h k = returns k

at_index-Post :
    (i : ℕ) (r : Outcome VerifyError (Unit {0}))
    → Post (λ (_ : Unit {0}). Unit {0}) (λ _. Unit {0}) (at_index i r)
at_index-Post i (ok u) = returns tt
at_index-Post i (err e) = raises tt

-- The labels that the first loop keeps are the ones defined, with indices of instructions.
pub define_labels-Kept :
    (count i : ℕ) (insts : List Instruction) (labels : Labels)
    → i + length insts ≤ count
    → AllValues (λ j. j < count) labels
    → Post
        (λ found.
          AllValues (λ j. j < count) found
          × ((n : Bytes) → present n found ≡ defs n insts + present n labels))
        (λ _. Unit {0})
        (define_labels i insts labels)
unfolding define_labels
define_labels-Kept count i [] labels h k = returns (k, λ n. omega arith)
define_labels-Kept count i (inst ∷ insts) labels h k =
    Post-bind (at_index-Post i (verify_instruction inst)) λ _ _.
      Post-bind
        (Post-both (Post-forget (define_label-Post inst.kind i inst labels)) (
          define_label-AllValues (λ j. j < count) inst.kind i inst.label labels (omega (arith, h))
            k))
        λ added (p, q).
          Post-map (λ found (a, b). (a, λ n. omega (arith, b n, p n)))
            (define_labels-Kept count (i + 1) insts added (omega (arith, h)) q)

pub present-nil : (n : Bytes) → present n [] ≡ 0
unfolding present exists lookup
present-nil n = refl

lookup-present :
    (n : Bytes) (labels : Labels) → 0 < present n labels → (j : ℕ) × (lookup n labels ≡ some j)
unfolding present exists
lookup-present n labels h = elim (Option-cases (lookup n labels)) [
  | inl e ↦ absurd (omega (arith, rw (e, exists, present) at h))
  | inr (j, e) ↦ (j, e)
]

abbrev pub Kept : ℕ → List Instruction → Labels → Type 0
Kept count insts found =
    AllValues (λ j. j < count) found × ((n : Bytes) → present n found ≡ defs n insts + present n [])

-- A run that cannot fail has a result.
succeeds :
    {E A : Type 0} {P R : A → Type 0} {Q : E → Type 0} (r : Outcome E A)
    → Post P Q r
    → Post R (λ _. Unit {0}) r
    → ((e : E) → ¬ Q e)
    → (a : A) × (r ≡ ok a) × R a
succeeds _ (returns {a} h) k n = (a, refl, Post-ok k)
succeeds _ (raises {e} h) k n = absurd (n e h)

-- Each target that is used is defined at an index.
pub Kept-Found :
    (count : ℕ) (insts : List Instruction) (labels : Labels) (name : Bytes)
    → Kept count insts labels
    → (uses name insts ≡ 0) ⊎ (defs name insts ≡ 1)
    → Found labels count name (uses name insts)
Kept-Found count insts labels name k (inl z) = inl z
Kept-Found count insts labels name (below, kept) (inr d) =
    let (j, e) = lookup-present name labels (omega (arith, kept name, d)) in
    inr (j, e, rw e at (lookup-AllValues (λ (j : ℕ). j < count) name labels below))

refuted :
    (insts : List Instruction)
    → WellFormed insts
    → (e : ValidateError) → ¬ (¬ (All Verified insts) ⊎ ((name : Bytes) × (2 ≤ defs name insts)))
refuted insts w e (inl u) = u w.verified
refuted insts w e (inr (name, t)) = absurd (omega (arith, t, w.once name))

WellFormed-accepted :
    (inst : Instruction) (insts : List Instruction)
    → WellFormed (inst ∷ insts)
    → validate_instructions (inst ∷ insts) ≡ ok tt
unfolding validate_instructions
WellFormed-accepted inst insts w =
    let (labels, el, kept) =
      succeeds (define_labels 0 (inst ∷ insts) []) (define_labels_complete (inst ∷ insts))
        (define_labels-Kept (length (inst ∷ insts)) 0 (inst ∷ insts) [] (omega arith) tt)
        (refuted (inst ∷ insts) w) in
    let (blocks, eb, sound, end) = collect_blocks-Sound inst insts labels (λ name.
      Kept-Found (length (inst ∷ insts)) (inst ∷ insts) labels name kept (w.closed name)) in
    rw (el, eb, sound.entry)
      (check_blocks-ok (length blocks) 0 blocks (omega arith) sound.below (end.0 w.ended))

-- With the labels found, the other loops pass only closed code that ends in a terminator.
labels-WellFormed :
    (inst : Instruction) (insts : List Instruction) (labels : Labels)
    → All Verified (inst ∷ insts)
    → ((name : Bytes) → defs name (inst ∷ insts) ≤ 1)
    → Kept (length (inst ∷ insts)) (inst ∷ insts) labels
    → ((name : Bytes) → (uses name (inst ∷ insts) ≡ 0) ⊎ (0 < present name labels))
    → Post
        (λ _. WellFormed (inst ∷ insts))
        (λ _. Unit {0})
        (collect_blocks (inst ∷ insts) labels >>= λ blocks.
          check_entry blocks >> check_blocks (length blocks) 0 blocks)
labels-WellFormed inst insts labels v o (below, kept) closed =
    let closed' : (name : Bytes) → (uses name (inst ∷ insts) ≡ 0) ⊎ (defs name (inst ∷ insts) ≡ 1) =
      λ name. ground (arith, closed name, kept name, o name, present-nil name) in
    let (blocks, eb, sound, end) = collect_blocks-Sound inst insts labels (λ name.
      Kept-Found (length (inst ∷ insts)) (inst ∷ insts) labels name (below, kept) (closed' name)) in
    rw (eb, sound.entry)
      (Post-map (λ _ x. record { verified = v; once = o; closed = closed'; ended = end.1 x })
        (check_blocks-Ending (length blocks) 0 blocks (omega arith)))

-- Where a target is not defined, the starts of the blocks cannot be collected.
collected :
    (inst : Instruction) (insts : List Instruction) (labels : Labels)
    → All Verified (inst ∷ insts)
    → ((name : Bytes) → defs name (inst ∷ insts) ≤ 1)
    → Kept (length (inst ∷ insts)) (inst ∷ insts) labels
    → Post
        (λ _. WellFormed (inst ∷ insts))
        (λ _. Unit {0})
        (collect_blocks (inst ∷ insts) labels >>= λ blocks.
          check_entry blocks >> check_blocks (length blocks) 0 blocks)
unfolding collect_blocks
collected inst insts labels v o kept =
    guarded (collect_starts labels (length (inst ∷ insts)) 0 (inst ∷ insts) (0 ∷ []))
      (collect_starts-Closed labels _ 0 (inst ∷ insts) (0 ∷ [])) refl
  where
    guarded :
        (r : Outcome ValidateError (List ℕ))
        → Post
            (λ _. (name : Bytes) → (uses name (inst ∷ insts) ≡ 0) ⊎ (0 < present name labels))
            (λ _. Unit {0})
            r
        → collect_starts labels (length (inst ∷ insts)) 0 (inst ∷ insts) (0 ∷ []) ≡ r
        → Post
            (λ _. WellFormed (inst ∷ insts))
            (λ _. Unit {0})
            (collect_blocks (inst ∷ insts) labels >>= λ blocks.
              check_entry blocks >> check_blocks (length blocks) 0 blocks)
    guarded _ (returns h) e = labels-WellFormed inst insts labels v o kept h
    guarded (err x) (raises h) e = rw e (raises tt)

accepted-WellFormed :
    (inst : Instruction) (insts : List Instruction)
    → Post (λ _. WellFormed (inst ∷ insts)) (λ _. Unit {0}) (validate_instructions (inst ∷ insts))
unfolding validate_instructions
accepted-WellFormed inst insts =
    Post-bind
      (Post-both (Post-forget (define_labels_complete (inst ∷ insts)))
        (define_labels-Kept (length (inst ∷ insts)) 0 (inst ∷ insts) [] (omega arith) tt))
      λ labels ((v, o), kept). collected inst insts labels v o kept

-- Of the bodies with an instruction, `ValidateFunctionIR` accepts exactly the well-formed ones.
pub validate_instructions_iff :
    (inst : Instruction) (insts : List Instruction)
    → (validate_instructions (inst ∷ insts) ≡ ok tt) ↔ WellFormed (inst ∷ insts)
validate_instructions_iff inst insts =
    ((λ e. Post-ok (rw e at (accepted-WellFormed inst insts))), WellFormed-accepted inst insts)
