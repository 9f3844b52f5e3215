-- ===== src/Sema/Shape.antt =====
-- The labels that a piece of code defines and uses, by the counter of `newLabel`.
use wihajster.Common.{
  ℕ, ◌≤◌, ◌<◌, List, [], ◌++◌, ◌==◌, if◌then◌else◌, ◌≡◌, refl, ap, arith, All, drop, All-append,
  ==_iff, ◌≢◌, sym, ◌∙◌, ◌+◌, Bool-cases, inl, inr, ◌⊎◌,
}
use wihajster.Common.Bytes.{Bytes, decimal-injective}
use wihajster.Common.Maps.{bytes_eq, bytes_eq_iff}
use wihajster.Tac.Types.{InstructionKind, Instruction}
use wihajster.Tac.Code.{hits, defs, uses, Verified, defs-append, uses-append}
use wihajster.Common.Outcome.{ok, Post, returns, Post-ok, Post-map}
use wihajster.Sema.Lowerer.{Lowerer, label_name, new_label}

-- Labels of equal names have equal numbers.
pub label_name-injective : (m n : ℕ) → label_name m ≡ label_name n → m ≡ n
unfolding label_name
label_name-injective m n e = decimal-injective m n (ap (λ s. drop 2 s) e)

new_label-Numbered :
    (l : Lowerer)
    → Post
        (λ (name, l').
          (name ≡ label_name l.next_label_id) × (l'.next_label_id ≡ l.next_label_id + 1))
        (λ _. ⊥)
        (new_label l)
unfolding new_label
new_label-Numbered l = returns (refl, refl)

-- A call of `newLabel` leaves a larger counter, and each call from a counter at least as large as
-- that one gives a label of another name.
pub new_label-fresh :
    (l l' m : Lowerer) (name : Bytes)
    → new_label l ≡ ok (name, l')
    → l'.next_label_id ≤ m.next_label_id
    → (l.next_label_id < l'.next_label_id)
      × Post (λ (other, _). other ≢ name) (λ _. ⊥) (new_label m)
new_label-fresh l l' m name e h =
    let (n, k) = Post-ok (rw e at (new_label-Numbered l)) in
    (
      omega (arith, k),
      Post-map
          (λ _ (o, _) same. absurd (
            omega (
              arith,
              h,
              k,
              label_name-injective m.next_label_id l.next_label_id (sym o ∙ same ∙ n),
            )))
          (new_label-Numbered m),
    )

-- Labels of different numbers have different names.
pub hits-label_name : (m n : ℕ) → hits (label_name m) (label_name n) ≡ (if m == n then 1 else 0)
hits-label_name m n = elim (Bool-cases (m == n)) [
  | inl same ↦ rw (same, (==_iff m n).0 same, (bytes_eq_iff (label_name n) (label_name n)).1 refl)
  | inr other ↦ elim (Bool-cases (bytes_eq (label_name m) (label_name n))) [
    | inl e ↦ cc ((==_iff m n).1 (label_name-injective m n ((bytes_eq_iff _ _).0 e)))
    | inr e ↦ rw (e, other)
  ]
]

-- A text that is the name of some label.
abbrev pub IsLabelName : Bytes → Type 0
IsLabelName name = (n : ℕ) × (name ≡ label_name n)

abbrev pub NamedBy : InstructionKind → Instruction → Type 0
NamedBy InstructionKind.label inst = IsLabelName inst.label
NamedBy InstructionKind.jmp inst = IsLabelName inst.true_label.text
NamedBy InstructionKind.br inst =
    IsLabelName inst.true_label.text × IsLabelName inst.false_label.text
NamedBy _ inst = Unit

-- The labels of an instruction are names of labels.
abbrev pub Named : Instruction → Type 0
Named inst = NamedBy inst.kind inst

-- A label with number `n` is defined at most once, and only from `lo` up to `hi`; and it is defined
-- if it is used.
abbrev pub Counted : ℕ → ℕ → ℕ → ℕ → ℕ → Type 0
Counted lo hi n d u = (d ≤ 1) × ((d ≡ 0) ⊎ ((lo ≤ n) × (n < hi))) × ((u ≡ 0) ⊎ (0 < d))

-- The labels of the code are those with numbers from `lo` up to `hi`, each at most once, and its
-- targets are among them.
pub record Shape (lo hi : ℕ) (code : List Instruction) : Type 0 where
  pub forward : lo ≤ hi
  pub verified : All Verified code
  pub named : All Named code
  pub labels : (n : ℕ) → Counted lo hi n (defs (label_name n) code) (uses (label_name n) code)

pub Shape-nil : (n : ℕ) → Shape n n []
Shape-nil n = record {
  forward = omega arith;
  verified = tt;
  named = tt;
  labels = λ k. (omega arith, inl refl, inl refl);
}

pub Shape-append :
    {lo mid hi : ℕ} (a b : List Instruction)
    → Shape lo mid a
    → Shape mid hi b
    → Shape lo hi (a ++ b)
Shape-append {lo} {mid} {hi} a b p q = record {
  forward = omega (arith, p.forward, q.forward);
  verified = All-append Verified a b p.verified q.verified;
  named = All-append Named a b p.named q.named;
  labels = λ n. ground (
    arith,
    p.labels n,
    q.labels n,
    p.forward,
    q.forward,
    defs-append (label_name n) a b,
    uses-append (label_name n) a b,
  );
}
