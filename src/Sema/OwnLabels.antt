-- ===== src/Sema/OwnLabels.antt =====
-- The instructions on a compound statement's own labels, and the allocation of these labels.
use wihajster.Common.{ℕ, ◌+◌, ◌≤◌, ◌<◌, Bool, false, List, ◌∷◌, ◌≡◌, refl, arith, ◌⊎◌}
use wihajster.Common.Bytes.{Bytes}
use wihajster.Common.Outcome.{Post-map}
use wihajster.Tac.Types.{InstructionKind, OperandKind, Operand, Instruction, blank, same_kind}
use wihajster.Tac.Builder
use wihajster.Tac.Operands.{label}
use wihajster.Tac.Verify.{verify_instruction}
use wihajster.Sema.Lowerer.{Lowerer, Lowering, ◌>>=◌, ◌>>◌, emit, new_label, label_name}
use wihajster.Sema.Shape.{hits-label_name}
use wihajster.Sema.Emits.{Emits, Ran}
use wihajster.Sema.EmitsOps.{IsObject}
use wihajster.Sema.Builds.{Part-Shape, Counts, Result, one, Own, Built, Builds, Builds-emit}

abbrev label_instruction : Bytes → Instruction
label_instruction name = record (blank InstructionKind.label) { label = name }

abbrev jmp_instruction : Bytes → Instruction
jmp_instruction name = record (blank InstructionKind.jmp) { true_label = label name }

abbrev br_instruction : Operand → Bytes → Bytes → Instruction
br_instruction cond a b = record (blank InstructionKind.br) {
  condition = cond;
  true_label = label a;
  false_label = label b;
}

abbrev none_of : ℕ → ℕ
none_of _ = 0

IsObject-present : (k : OperandKind) → IsObject k → same_kind k OperandKind.invalid ≡ false
unfolding same_kind
IsObject-present OperandKind.temp h = refl
IsObject-present OperandKind.stack_slot_pointer h = refl
IsObject-present _ h = absurd h

module _ {lo mid : ℕ} where
  Own-label :
      (i : ℕ) → lo ≤ i → i < mid → Own lo mid (one i) none_of (label_instruction (label_name i))
  unfolding verify_instruction label_name
  Own-label i h k = record {
    verified = refl;
    named = (i, refl);
    counts = λ n. ground (arith, hits-label_name i n);
    inside = λ n o. ground arith;
  }

  Own-jmp : (i : ℕ) → lo ≤ i → i < mid → Own lo mid none_of (one i) (jmp_instruction (label_name i))
  unfolding verify_instruction
  Own-jmp i h k = record {
    verified = refl;
    named = (i, refl);
    counts = λ n. ground (arith, hits-label_name i n);
    inside = λ n o. ground arith;
  }

  Own-br :
      (cond : Operand) (i j : ℕ)
      → IsObject cond.kind
      → lo ≤ i
      → i < mid
      → lo ≤ j
      → j < mid
      → Own lo mid none_of
          (λ n. one i n + one j n)
          (br_instruction cond (label_name i) (label_name j))
  unfolding verify_instruction
  Own-br cond i j c h k h' k' = record {
    verified = rw (IsObject-present cond.kind c) refl;
    named = ((i, refl), (j, refl));
    counts = λ n. ground (arith, hits-label_name i n, hits-label_name j n);
    inside = λ n o. ground arith;
  }

  module _ {d u : Counts} {Q R : Result} {m : Lowering Bool} where
    pub Builds-label :
        (i : ℕ)
        → lo ≤ i
        → i < mid
        → ((inst : Instruction) (b : Bool) (code : List Instruction) → Q b code → R b (inst ∷ code))
        → Builds lo mid d u Q m
        → Builds lo mid
            (λ b n. one i n + d b n)
            (λ b n. none_of n + u b n)
            R
            (emit (Builder.add_label (label_name i)) >> m)
    unfolding Builder.add_label
    Builds-label i h k join rest =
        Builds-emit (label_instruction (label_name i)) _ (λ fn. refl) (Own-label i h k) (join _)
          rest

    pub Builds-jmp :
        (i : ℕ)
        → lo ≤ i
        → i < mid
        → ((inst : Instruction) (b : Bool) (code : List Instruction) → Q b code → R b (inst ∷ code))
        → Builds lo mid d u Q m
        → Builds lo mid
            (λ b n. none_of n + d b n)
            (λ b n. one i n + u b n)
            R
            (emit (Builder.add_jmp (label_name i)) >> m)
    unfolding Builder.add_jmp
    Builds-jmp i h k join rest =
        Builds-emit (jmp_instruction (label_name i)) _ (λ fn. refl) (Own-jmp i h k) (join _) rest

    pub Builds-br :
        (cond : Operand) (i j : ℕ)
        → IsObject cond.kind
        → lo ≤ i
        → i < mid
        → lo ≤ j
        → j < mid
        → ((inst : Instruction) (b : Bool) (code : List Instruction) → Q b code → R b (inst ∷ code))
        → Builds lo mid d u Q m
        → Builds lo mid
            (λ b n. none_of n + d b n)
            (λ b n. one i n + one j n + u b n)
            R
            (emit (Builder.add_br cond (label_name i) (label_name j)) >> m)
    unfolding Builder.add_br
    Builds-br cond i j c h k h' k' join rest =
        Builds-emit (br_instruction cond (label_name i) (label_name j)) _ (λ fn. refl)
          (Own-br cond i j c h k h' k') (join _) rest

    pub Builds-weaken :
        {d' u' : Counts}
        → ((b : Bool) (code : List Instruction)
            → Q b code
            → R b code × ((n : ℕ) → (d b n ≡ d' b n) × (u b n ≤ u' b n)))
        → Builds lo mid d u Q m
        → Builds lo mid d' u' R m
    Builds-weaken w h = record {
      runs = λ l env le.
          Post-map
            (λ (b, l') (code, eq, part, env', owns, q). (
              code,
              eq,
              part,
              env',
              (λ n i j. omega (arith, owns n i j, (w b code q).1 n)),
              (w b code q).0,
            ))
            (h.runs l env le);
    }

-- Every label is defined at most once, and defined where it is used.
abbrev pub Fits : ℕ → ℕ → Counts → Counts → Type 0
Fits lo mid d u = (b : Bool) (n : ℕ) → lo ≤ n → n < mid → (d b n ≤ 1) × ((u b n ≡ 0) ⊎ (0 < d b n))

Ran-Built :
    {lo mid : ℕ} {d u : Counts} (Q : Result) (l l₁ : Lowerer) (r : Bool × Lowerer)
    → Fits lo mid d u
    → lo ≤ mid
    → l.next_label_id ≡ lo
    → l₁.next_label_id ≡ mid
    → l₁.fn.instructions ≡ l.fn.instructions
    → Built lo mid d u Q l₁ r
    → Ran Q l r
Ran-Built Q l l₁ (b, l') fit h e₀ e₁ eq (code, eq', part, env', owns, q) = (
  code,
  record {
    appended = rw eq at eq';
    shape = rw e₀ (Part-Shape _ _ code h (omega (arith, e₁)) part owns (fit b));
    env = env';
  },
  q,
)

module _ {d u : ℕ → Counts} {Q : Result} where
  pub Emits-two_labels :
      (f : Bytes → Bytes → Lowering Bool)
      → ((lo : ℕ) → Builds lo (lo + 2) (d lo) (u lo) Q (f (label_name lo) (label_name (lo + 1))))
      → ((lo : ℕ) → Fits lo (lo + 2) (d lo) (u lo))
      → Emits Q (new_label >>= λ a. new_label >>= λ b. f a b)
  unfolding new_label ◌>>=◌
  Emits-two_labels f h fit = record {
    runs = λ l env.
        Post-map
          (λ r x.
            Ran-Built Q l (record l { next_label_id = l.next_label_id + 1 + 1 }) r
              (fit l.next_label_id) (omega arith) refl (omega arith) refl x)
          ((h l.next_label_id).runs (record l { next_label_id = l.next_label_id + 1 + 1 })
            (record { scopes_ok = env.scopes_ok; functions_ok = env.functions_ok }) (omega arith));
  }

  pub Emits-three_labels :
      (f : Bytes → Bytes → Bytes → Lowering Bool)
      → ((lo : ℕ)
          → Builds lo
              (lo + 3)
              (d lo)
              (u lo)
              Q
              (f (label_name lo) (label_name (lo + 1)) (label_name (lo + 1 + 1))))
      → ((lo : ℕ) → Fits lo (lo + 3) (d lo) (u lo))
      → Emits Q (new_label >>= λ a. new_label >>= λ b. new_label >>= λ c. f a b c)
  unfolding new_label ◌>>=◌
  Emits-three_labels f h fit = record {
    runs = λ l env.
        Post-map
          (λ r x.
            Ran-Built Q l (record l { next_label_id = l.next_label_id + 1 + 1 + 1 }) r
              (fit l.next_label_id) (omega arith) refl (omega arith) refl x)
          ((h l.next_label_id).runs (record l { next_label_id = l.next_label_id + 1 + 1 + 1 })
            (record { scopes_ok = env.scopes_ok; functions_ok = env.functions_ok }) (omega arith));
  }

  pub Emits-four_labels :
      (f : Bytes → Bytes → Bytes → Bytes → Lowering Bool)
      → ((lo : ℕ)
          → Builds lo (lo + 4) (d lo) (u lo) Q (
              f
                (label_name lo)
                (label_name (lo + 1))
                (label_name (lo + 1 + 1))
                (label_name (lo + 1 + 1 + 1))))
      → ((lo : ℕ) → Fits lo (lo + 4) (d lo) (u lo))
      → Emits Q
          (new_label >>= λ a. new_label >>= λ b. new_label >>= λ c. new_label >>= λ e. f a b c e)
  unfolding new_label ◌>>=◌
  Emits-four_labels f h fit = record {
    runs = λ l env.
        Post-map
          (λ r x.
            Ran-Built Q l (record l { next_label_id = l.next_label_id + 1 + 1 + 1 + 1 }) r
              (fit l.next_label_id) (omega arith) refl (omega arith) refl x)
          ((h l.next_label_id).runs (record l { next_label_id = l.next_label_id + 1 + 1 + 1 + 1 })
            (record { scopes_ok = env.scopes_ok; functions_ok = env.functions_ok }) (omega arith));
  }
