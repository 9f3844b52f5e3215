-- ===== src/Tac/Validate/Accepts.antt =====
-- What the first loop of `ValidateFunctionIR` accepts.
use wihajster.Common.{
  ℕ, ◌+◌, ◌≤◌, Bool, true, false, List, [], ◌∷◌, if◌then◌else◌, ◌≡◌, ◌⊎◌, ◌||◌, Option, none, some,
  refl, arith, All, Bool-cases, inl, inr,
}
use wihajster.Common.Bytes.{Bytes}
use wihajster.Common.Maps.{lookup, exists, assign, bytes_key, bytes_eq, bytes_eq_iff}
use wihajster.Common.Outcome.{Outcome, ok, err, ◌>>=◌, ◌>>◌, Post, returns, raises}
use wihajster.Tac.Types.{InstructionKind, Instruction}
use wihajster.Tac.Verify.{VerifyError, verify_instruction}
use wihajster.Tac.Code.{hits, defs, defs_of, Verified}
use wihajster.Tac.Validate.Labels.{ValidateError, Labels, at_index, define_label, define_labels}

unfoldable pub present : Bytes → Labels → ℕ
present name labels = if exists name labels then 1 else 0

present-bit : (name : Bytes) (labels : Labels) → present name labels ≤ 1
unfolding present
present-bit name labels = ground arith

exists-assign :
    (name : Bytes) (i : ℕ) (labels : Labels) (n : Bytes)
    → exists n (assign name i labels) ≡ (bytes_eq name n || exists n labels)
unfolding exists lookup
exists-assign name i labels n = either (bytes_eq name n) (lookup n labels)
  where
    either :
        (b : Bool) (o : Option ℕ)
        → elim (if b then some i else o) as (λ _. Bool) [ none ↦ false | some _ ↦ true ]
          ≡ (b || elim o as (λ _. Bool) [ none ↦ false | some _ ↦ true ])
    either true o = refl
    either false o = refl

present-assign_absent :
    (name : Bytes) (i : ℕ) (labels : Labels)
    → exists name labels ≡ false
    → (n : Bytes) → present n (assign name i labels) ≡ hits name n + present n labels
unfolding present
present-assign_absent name i labels e n = elim (Bool-cases (bytes_eq name n)) [
  | inl same ↦
      let e' : exists n labels ≡ false = rw ((bytes_eq_iff name n).0 same) at e in
      rw (exists-assign name i labels n, same, e') (omega arith)
  | inr other ↦ rw (exists-assign name i labels n, other) (omega arith)
]

hits-same : (name : Bytes) → hits name name ≡ 1
hits-same name = ground (arith, (bytes_eq_iff name name).1 refl)

-- A label is added to those that are present, or is present already.
pub define_label-Post :
    (k : InstructionKind) (i : ℕ) (inst : Instruction) (labels : Labels)
    → Post
        (λ added.
          (n : Bytes)
          → (present n added ≡ defs_of k n inst + present n labels) × (present n added ≤ 1))
        (λ _. (n : Bytes) × (2 ≤ defs_of k n inst + present n labels))
        (define_label k i inst.label labels)
unfolding define_label present
define_label-Post InstructionKind.label i inst labels =
    elim (Bool-cases (exists inst.label labels)) [
      | inl e ↦ rw e (raises (inst.label, rw e (omega (arith, hits-same inst.label))))
      | inr e ↦ rw e (returns (λ n. (present-assign_absent inst.label i labels e n, ground arith)))
    ]
define_label-Post _ i inst labels = returns (λ n. (omega arith, ground arith))

-- On success, every instruction is verified and no label is defined twice, here or before; on an
-- error, one of these fails.
abbrev Single : List Instruction → Labels → Type 0
Single insts labels = (name : Bytes) → defs name insts + present name labels ≤ 1

abbrev Twice : List Instruction → Labels → Type 0
Twice insts labels = (name : Bytes) × (2 ≤ defs name insts + present name labels)

define_labels-Post :
    (i : ℕ) (insts : List Instruction) (labels : Labels)
    → Post
        (λ _. All Verified insts × Single insts labels)
        (λ _. ¬ (All Verified insts) ⊎ Twice insts labels)
        (define_labels i insts labels)
unfolding define_labels
define_labels-Post i [] labels = returns (tt, λ n. omega (arith, present-bit n labels))
define_labels-Post i (inst ∷ insts) labels =
    first (verify_instruction inst) refl (λ labels'. define_labels-Post (i + 1) insts labels')
  where
    rest :
        (labels' : Labels)
        → Verified inst
        → ((n : Bytes)
            → (present n labels' ≡ defs_of inst.kind n inst + present n labels)
              × (present n labels' ≤ 1))
        → (r : Outcome ValidateError Labels)
        → Post
            (λ _. All Verified insts × Single insts labels')
            (λ _. ¬ (All Verified insts) ⊎ Twice insts labels')
            r
        → Post
            (λ _. All Verified (inst ∷ insts) × Single (inst ∷ insts) labels)
            (λ _. ¬ (All Verified (inst ∷ insts)) ⊎ Twice (inst ∷ insts) labels)
            r
    rest labels' v h _ (returns (vs, s)) = returns ((v, vs), λ n. omega (arith, s n, h n))
    rest labels' v h _ (raises (inl u)) = raises (inl λ (_, vs). u vs)
    rest labels' v h _ (raises (inr (n, t))) = raises (inr (n, omega (arith, t, h n)))

    second :
        Verified inst
        → ((labels' : Labels)
            → Post
                (λ _. All Verified insts × Single insts labels')
                (λ _. ¬ (All Verified insts) ⊎ Twice insts labels')
                (define_labels (i + 1) insts labels'))
        → (r : Outcome ValidateError Labels)
        → Post
            (λ added.
              (n : Bytes)
              → (present n added ≡ defs_of inst.kind n inst + present n labels)
                × (present n added ≤ 1))
            (λ _. (n : Bytes) × (2 ≤ defs_of inst.kind n inst + present n labels))
            r
        → Post
            (λ _. All Verified (inst ∷ insts) × Single (inst ∷ insts) labels)
            (λ _. ¬ (All Verified (inst ∷ insts)) ⊎ Twice (inst ∷ insts) labels)
            (r >>= define_labels (i + 1) insts)
    second v again (ok labels') (returns h) = rest labels' v h _ (again labels')
    second v again (err e) (raises (n, t)) = raises (inr (n, omega (arith, t)))

    first :
        (r : Outcome VerifyError (Unit {0}))
        → verify_instruction inst ≡ r
        → ((labels' : Labels)
            → Post
                (λ _. All Verified insts × Single insts labels')
                (λ _. ¬ (All Verified insts) ⊎ Twice insts labels')
                (define_labels (i + 1) insts labels'))
        → Post
            (λ _. All Verified (inst ∷ insts) × Single (inst ∷ insts) labels)
            (λ _. ¬ (All Verified (inst ∷ insts)) ⊎ Twice (inst ∷ insts) labels)
            (at_index i r
              >> (define_label inst.kind i inst.label labels >>= define_labels (i + 1) insts))
    first (ok tt) e again = second e again _ (define_label-Post inst.kind i inst labels)
    first (err x) e again = raises (inl λ (v, _). cc (v, e))

-- The first loop of `ValidateFunctionIR` succeeds only if every instruction passes
-- `VerifyInstruction` and no label is defined twice, and fails only if one of these does not hold.
pub define_labels_complete :
    (insts : List Instruction)
    → Post
        (λ _. All Verified insts × ((name : Bytes) → defs name insts ≤ 1))
        (λ _. ¬ (All Verified insts) ⊎ ((name : Bytes) × (2 ≤ defs name insts)))
        (define_labels 0 insts [])
unfolding present exists lookup
define_labels_complete insts = finish _ (define_labels-Post 0 insts [])
  where
    finish :
        (r : Outcome ValidateError Labels)
        → Post
            (λ _. All Verified insts × Single insts [])
            (λ _. ¬ (All Verified insts) ⊎ Twice insts [])
            r
        → Post
            (λ _. All Verified insts × ((name : Bytes) → defs name insts ≤ 1))
            (λ _. ¬ (All Verified insts) ⊎ ((name : Bytes) × (2 ≤ defs name insts)))
            r
    finish _ (returns (v, s)) = returns (v, λ n. omega (arith, s n))
    finish _ (raises (inl u)) = raises (inl u)
    finish _ (raises (inr (n, t))) = raises (inr (n, omega (arith, t)))
