-- ===== src/Tac/Validate/Collects.antt =====
-- The starts that `collectIRBlocks` finds in code whose targets are all defined.
use wihajster.Common.{
  ℕ, suc, ◌+◌, ◌≤◌, ◌<◌, true, false, List, [], ◌∷◌, ◌++◌, length, ltb, ◌≡◌, ◌⊎◌, refl, arith, All,
  All-append, Bool-cases, inl, inr, some,
}
use wihajster.Common.Bytes.{Bytes}
use wihajster.Common.Maps.{lookup, bytes_key, bytes_eq, bytes_eq_iff}
use wihajster.Common.Outcome.{ok}
use wihajster.Tac.Types.{InstructionKind, Instruction}
use wihajster.Tac.Code.{hits, uses, uses_of, is_jump}
use wihajster.Tac.Validate.Labels.{Labels}
use wihajster.Tac.Validate.Starts.{member, add_start, add_next, instruction_starts, collect_starts}
use wihajster.Tac.Validate.Sorted.{occurrences}

-- The starts are indices of instructions, each once.
pub record Starts (count : ℕ) (starts : List ℕ) : Type 0 where
  pub below : All (λ s. s < count) starts
  pub single : (n : ℕ) → occurrences n starts ≤ 1

abbrev pub Grows : List ℕ → List ℕ → Type 0
Grows a b = (n : ℕ) → occurrences n a ≤ occurrences n b

pub occurrences-append :
    (n : ℕ) (a b : List ℕ) → occurrences n (a ++ b) ≡ occurrences n a + occurrences n b
occurrences-append n [] b = omega arith
occurrences-append n (x ∷ a) b = omega (arith, occurrences-append n a b)

member-occurrences :
    (n : ℕ) (xs : List ℕ)
    → ((member n xs ≡ true) × (0 < occurrences n xs))
      ⊎ ((member n xs ≡ false) × (occurrences n xs ≡ 0))
unfolding member
member-occurrences n [] = inr (refl, refl)
member-occurrences n (x ∷ xs) = ground (arith, member-occurrences n xs)

pub add_start-Starts :
    (count idx : ℕ) (starts : List ℕ)
    → idx < count
    → Starts count starts
    → Starts count (add_start idx starts)
      × Grows starts (add_start idx starts)
      × (0 < occurrences idx (add_start idx starts))
unfolding add_start
add_start-Starts count idx starts h p = elim (member-occurrences idx starts) [
  | inl (e, o) ↦ rw e (p, (λ n. omega arith), o)
  | inr (e, o) ↦ rw e (
    record {
      below = All-append (λ s. s < count) starts (idx ∷ []) p.below (h, tt);
      single = λ n. ground (arith, occurrences-append n starts (idx ∷ []), p.single n, o);
    },
    (λ n. omega (arith, occurrences-append n starts (idx ∷ []))),
    ground (arith, occurrences-append idx starts (idx ∷ [])),
  )
]

add_next-Starts :
    (count i : ℕ) (starts : List ℕ)
    → Starts count starts
    → Starts count (add_next count i starts)
      × Grows starts (add_next count i starts)
      × ((count ≤ i + 1) ⊎ (0 < occurrences (i + 1) (add_next count i starts)))
unfolding add_next
add_next-Starts count i starts p = elim (Bool-cases (ltb (i + 1) count)) [
  | inl e ↦
      let (a, b, c) = add_start-Starts count (i + 1) starts (ground arith) p in rw e (a, b, inr c)
  | inr e ↦ rw e (p, (λ n. omega arith), inl (ground arith))
]

-- A label that is an index of an instruction, if it is used.
abbrev pub Found : Labels → ℕ → Bytes → ℕ → Type 0
Found labels count name used = (used ≡ 0) ⊎ ((j : ℕ) × (lookup name labels ≡ some j) × (j < count))

Found-left :
    (labels : Labels) (count : ℕ) (name : Bytes) (a b : ℕ)
    → Found labels count name (a + b)
    → Found labels count name a
Found-left labels count name a b (inl z) = inl (omega (arith, z))
Found-left labels count name a b (inr f) = inr f

Found-right :
    (labels : Labels) (count : ℕ) (name : Bytes) (a b : ℕ)
    → Found labels count name (a + b)
    → Found labels count name b
Found-right labels count name a b (inl z) = inl (omega (arith, z))
Found-right labels count name a b (inr f) = inr f

used-Found :
    (labels : Labels) (count : ℕ) (name : Bytes) (used : ℕ)
    → hits name name ≤ used
    → Found labels count name used
    → (j : ℕ) × (lookup name labels ≡ some j) × (j < count)
used-Found labels count name used h (inl z) =
    absurd (ground (arith, h, z, (bytes_eq_iff name name).1 refl))
used-Found labels count name used h (inr f) = f

-- The index of a target that is used is among the starts.
abbrev pub Targeted : Labels → List ℕ → Bytes → ℕ → Type 0
Targeted labels starts name used =
    (used ≡ 0) ⊎ ((j : ℕ) × (lookup name labels ≡ some j) × (0 < occurrences j starts))

hits-Targeted :
    (labels : Labels) (starts : List ℕ) (name target : Bytes) (j : ℕ)
    → lookup target labels ≡ some j
    → 0 < occurrences j starts
    → Targeted labels starts name (hits target name)
hits-Targeted labels starts name target j e h = elim (Bool-cases (bytes_eq target name)) [
  | inl same ↦ inr (j, cc (e, (bytes_eq_iff target name).0 same), h)
  | inr other ↦ inl (rw other refl)
]

Targeted-Grows :
    (labels : Labels) (a b : List ℕ) (name : Bytes) (used : ℕ)
    → Grows a b
    → Targeted labels a name used
    → Targeted labels b name used
Targeted-Grows labels a b name used g (inl z) = inl z
Targeted-Grows labels a b name used g (inr (j, e, h)) = inr (j, e, omega (arith, h, g j))

Targeted-plus :
    (labels : Labels) (starts : List ℕ) (name : Bytes) (m n : ℕ)
    → Targeted labels starts name m
    → Targeted labels starts name n
    → Targeted labels starts name (m + n)
Targeted-plus labels starts name m n (inl y) (inl z) = inl (omega (arith, y, z))
Targeted-plus labels starts name m n (inr t) u = inr t
Targeted-plus labels starts name m n (inl y) (inr t) = inr t

instruction_starts-Starts :
    (labels : Labels) (count i : ℕ) (k : InstructionKind) (inst : Instruction) (starts : List ℕ)
    → ((name : Bytes) → Found labels count name (uses_of k name inst))
    → Starts count starts
    → (next : List ℕ) × (instruction_starts labels count i k inst starts ≡ ok next)
      × Starts count next
      × Grows starts next
      × ((name : Bytes) → Targeted labels next name (uses_of k name inst))
      × ((is_jump k ≡ false) ⊎ ((count ≤ i + 1) ⊎ (0 < occurrences (i + 1) next)))
unfolding instruction_starts
instruction_starts-Starts labels count i InstructionKind.label inst starts f p =
    (starts, refl, p, (λ n. omega arith), (λ name. inl refl), inl refl)
instruction_starts-Starts labels count i InstructionKind.op inst starts f p =
    (starts, refl, p, (λ n. omega arith), (λ name. inl refl), inl refl)
instruction_starts-Starts labels count i InstructionKind.ret inst starts f p =
    let (a, b, c) = add_next-Starts count i starts p in (_, refl, a, b, (λ name. inl refl), inr c)
instruction_starts-Starts labels count i InstructionKind.jmp inst starts f p =
    let (j, e, h) =
      used-Found labels count inst.true_label.text _ (omega arith) (f inst.true_label.text) in
    let (a, b, o) = add_start-Starts count j starts h p in
    let (a', b', c') = add_next-Starts count i (add_start j starts) a in
    rw e (
      _,
      refl,
      a',
      (λ n. omega (arith, b n, b' n)),
      (λ name. hits-Targeted labels _ name inst.true_label.text j e (omega (arith, o, b' j))),
      inr c',
    )
instruction_starts-Starts labels count i InstructionKind.br inst starts f p =
    let (t, e, h) =
      used-Found labels count inst.true_label.text _ (omega arith) (f inst.true_label.text) in
    let (u, e', h') =
      used-Found labels count inst.false_label.text _ (omega arith) (f inst.false_label.text) in
    let (a, b, o) = add_start-Starts count t starts h p in
    let (a', b', o') = add_start-Starts count u (add_start t starts) h' a in
    let (x, y, z) = add_next-Starts count i (add_start u (add_start t starts)) a' in
    rw (e, e')
      (
        _,
        refl,
        x,
        (λ n. omega (arith, b n, b' n, y n)),
        (λ name.
            Targeted-plus labels _ name _ _
              (hits-Targeted labels _ name inst.true_label.text t e (omega (arith, o, b' t, y t)))
              (hits-Targeted labels _ name inst.false_label.text u e' (omega (arith, o', y u)))),
        inr z,
      )

-- What follows a terminator starts a block.
abbrev pub Covered : ℕ → List Instruction → List ℕ → Type 0
Covered i [] starts = Unit
Covered i (inst ∷ []) starts = Unit
Covered i (inst ∷ next ∷ insts) starts =
    ((is_jump inst.kind ≡ false) ⊎ (0 < occurrences (i + 1) starts))
    × Covered (i + 1) (next ∷ insts) starts

Covered-cons :
    (count i : ℕ) (inst : Instruction) (insts : List Instruction) (next starts : List ℕ)
    → i + suc (length insts) ≡ count
    → (is_jump inst.kind ≡ false) ⊎ ((count ≤ i + 1) ⊎ (0 < occurrences (i + 1) next))
    → Grows next starts
    → Covered (i + 1) insts starts
    → Covered i (inst ∷ insts) starts
Covered-cons count i inst [] next starts e h g c = tt
Covered-cons count i inst (_ ∷ insts) next starts e h g c = (ground (arith, e, h, g (i + 1)), c)

collect_starts-Starts :
    (labels : Labels) (count i : ℕ) (insts : List Instruction) (starts : List ℕ)
    → i + length insts ≡ count
    → ((name : Bytes) → Found labels count name (uses name insts))
    → Starts count starts
    → (found : List ℕ) × (collect_starts labels count i insts starts ≡ ok found)
      × Starts count found
      × Grows starts found
      × ((name : Bytes) → Targeted labels found name (uses name insts))
      × Covered i insts found
unfolding collect_starts
collect_starts-Starts labels count i [] starts e f p =
    (starts, refl, p, (λ n. omega arith), (λ name. inl refl), tt)
collect_starts-Starts labels count i (inst ∷ insts) starts e f p =
    let (next, e₁, p₁, g₁, t₁, c₁) =
      instruction_starts-Starts labels count i inst.kind inst starts
        (λ name. Found-left labels count name _ _ (f name)) p in
    let (found, e₂, p₂, g₂, t₂, c₂) =
      collect_starts-Starts labels count (i + 1) insts next (omega (arith, e))
        (λ name. Found-right labels count name (uses_of inst.kind name inst) _ (f name)) p₁ in
    rw e₁ (
      found,
      e₂,
      p₂,
      (λ n. omega (arith, g₁ n, g₂ n)),
      (λ name.
          Targeted-plus labels found name (uses_of inst.kind name inst) _
            (Targeted-Grows labels next found name _ g₂ (t₁ name)) (t₂ name)),
      Covered-cons count i inst insts next found (omega (arith, e)) c₁ g₂ c₂,
    )

-- The loop that collects the starts of the blocks succeeds if each target is a label with the index
-- of an instruction. It then finds indices of instructions, none of them twice, with 0 among them,
-- the index of each target, and what follows a terminator.
pub collect_starts_complete :
    (labels : Labels) (inst : Instruction) (insts : List Instruction)
    → ((name : Bytes) → Found labels (length (inst ∷ insts)) name (uses name (inst ∷ insts)))
    → (starts : List ℕ) × (collect_starts labels (length (inst ∷ insts)) 0 (inst ∷ insts) (0 ∷ [])
        ≡ ok starts)
      × Starts (length (inst ∷ insts)) starts
      × (0 < occurrences 0 starts)
      × ((name : Bytes) → Targeted labels starts name (uses name (inst ∷ insts)))
      × Covered 0 (inst ∷ insts) starts
collect_starts_complete labels inst insts f =
    let (starts, e, p, g, t, c) =
      collect_starts-Starts labels _ 0 (inst ∷ insts) (0 ∷ []) (omega arith) f
        (record { below = (omega arith, tt); single = λ n. ground arith }) in
    (starts, e, p, omega (arith, g 0), t, c)
