-- ===== src/Sema/Builds.antt =====
-- The part of a compound statement behind the allocation of its labels: how often it defines and
-- uses those labels, and that all others are of its parts.
use mathlib.Core.List.{append_assoc, append-nil}
use wihajster.Common.{
  ℕ, ◌+◌, ◌≤◌, ◌<◌, Bool, List, [], ◌∷◌, ◌++◌, ◌==◌, if◌then◌else◌, ◌≡◌, refl, ap, sym, leb, ltb,
  ◌&&◌, ◌∙◌, arith, All, All-append, inl, inr, ◌⊎◌, Bool-cases,
}
use wihajster.Common.Outcome.{Outcome, ok, err, Post, returns, raises, Post-map}
use wihajster.Tac.Types.{Instruction, Function}
use wihajster.Tac.Code.{Verified, defs, uses, defs-append, uses-append}
use wihajster.Sema.Types.{SemaError}
use wihajster.Sema.Lowerer.{Lowerer, Lowering, ◌>>=◌, ◌>>◌, pure, emit, label_name}
use wihajster.Sema.Shape.{Shape, Counted, Named}
use wihajster.Sema.Emits.{Env, Emitted, Emits, Ran, Any}

-- Code with labels from `a` up to `e`, beside those from `lo` up to `mid`, which are not counted.
pub record Part (lo mid a e : ℕ) (code : List Instruction) : Type 0 where
  pub forward : a ≤ e
  pub verified : All Verified code
  pub named : All Named code
  pub labels :
      (n : ℕ)
      → (n < lo) ⊎ (mid ≤ n)
      → Counted a e n (defs (label_name n) code) (uses (label_name n) code)

-- The labels from `lo` up to `mid` are defined `d` times and used at most `u` times.
abbrev pub Owns : ℕ → ℕ → (ℕ → ℕ) → (ℕ → ℕ) → List Instruction → Type 0
Owns lo mid d u code =
    (n : ℕ) → lo ≤ n → n < mid → (defs (label_name n) code ≡ d n) × (uses (label_name n) code ≤ u n)

abbrev pub Counts : Type 0
Counts = Bool → ℕ → ℕ

abbrev pub one : ℕ → ℕ → ℕ
one i n = if i == n then 1 else 0

abbrev pub Result : Type 1
Result = Bool → List Instruction → Type 0

pub Part-append :
    {lo mid a b c : ℕ} (x y : List Instruction)
    → Part lo mid a b x
    → Part lo mid b c y
    → Part lo mid a c (x ++ y)
Part-append {lo} {mid} {a} {b} {c} x y p q = record {
  forward = omega (arith, p.forward, q.forward);
  verified = All-append Verified x y p.verified q.verified;
  named = All-append Named x y p.named q.named;
  labels = λ n h. ground (
    arith,
    p.labels n h,
    q.labels n h,
    p.forward,
    q.forward,
    defs-append (label_name n) x y,
    uses-append (label_name n) x y,
  );
}

Shape-Part :
    (lo : ℕ) {mid a e : ℕ} (code : List Instruction)
    → mid ≤ a
    → Shape a e code
    → Part lo mid a e code
Shape-Part lo code h p = record {
  forward = p.forward;
  verified = p.verified;
  named = p.named;
  labels = λ n _. p.labels n;
}

-- The code of a part has none of the labels below its first.
Shape-none :
    {a e : ℕ} (code : List Instruction) (n : ℕ)
    → Shape a e code
    → n < a
    → (defs (label_name n) code ≡ 0) × (uses (label_name n) code ≡ 0)
Shape-none code n p h = ground (arith, p.labels n)

pub Part-Shape :
    {lo mid a e : ℕ} (d u : ℕ → ℕ) (code : List Instruction)
    → lo ≤ mid
    → mid ≤ a
    → Part lo mid a e code
    → Owns lo mid d u code
    → ((n : ℕ) → lo ≤ n → n < mid → (d n ≤ 1) × ((u n ≡ 0) ⊎ (0 < d n)))
    → Shape lo e code
Part-Shape {lo} {mid} {a} {e} d u code h k p own fit = record {
  forward = omega (arith, p.forward);
  verified = p.verified;
  named = p.named;
  labels = λ n. elim (Bool-cases (leb lo n && ltb n mid)) [
    | inl inside ↦ ground (arith, own n, fit n, p.forward)
    | inr outside ↦ ground (arith, p.labels n, p.forward)
  ];
}

abbrev pub Built : ℕ → ℕ → Counts → Counts → Result → Lowerer → Bool × Lowerer → Type 0
Built lo mid d u Q l (b, l') =
    (code : List Instruction) × (l'.fn.instructions ≡ l.fn.instructions ++ code)
    × Part lo mid l.next_label_id l'.next_label_id code
    × Env l'
    × Owns lo mid (d b) (u b) code
    × Q b code

-- A run that succeeds with `b` appends code that defines the labels `d b` times, and `Q` holds.
pub record Builds (lo mid : ℕ) (d u : Counts) (Q : Result) (m : Lowering Bool) : Type 0 where
  pub runs : (l : Lowerer) → Env l → mid ≤ l.next_label_id → Post (Built lo mid d u Q l) Any (m l)

abbrev none_at : Counts
none_at _ _ = 0

pub Builds-pure :
    {lo mid : ℕ} {Q : Result} (b : Bool) → Q b [] → Builds lo mid none_at none_at Q (pure b)
unfolding pure
Builds-pure b q = record {
  runs = λ l env h. returns (
    [],
    sym (append-nil l.fn.instructions),
    record {
      forward = omega arith;
      verified = tt;
      named = tt;
      labels = λ n _. (omega arith, inl refl, inl refl);
    },
    env,
    (λ n _ _. (refl, omega arith)),
    q,
  );
}

-- An instruction on the labels from `lo` up to `mid` alone.
pub record Own (lo mid : ℕ) (d u : ℕ → ℕ) (inst : Instruction) : Type 0 where
  pub verified : Verified inst
  pub named : Named inst
  pub counts :
      (n : ℕ) → (defs (label_name n) (inst ∷ []) ≡ d n) × (uses (label_name n) (inst ∷ []) ≡ u n)
  pub inside : (n : ℕ) → (n < lo) ⊎ (mid ≤ n) → (d n ≡ 0) × (u n ≡ 0)

Part-Own :
    {lo mid : ℕ} {d u : ℕ → ℕ} (a : ℕ) (inst : Instruction)
    → Own lo mid d u inst
    → Part lo mid a a (inst ∷ [])
Part-Own a inst p = record {
  forward = omega arith;
  verified = (p.verified, tt);
  named = (p.named, tt);
  labels = λ n h. ground (arith, p.counts n, p.inside n h);
}

module _ {lo mid : ℕ} {d u : Counts} {Q R : Result} {m : Lowering Bool} where
  -- A method of the function that appends an instruction of its own comes first.
  pub Builds-emit :
      {d₁ u₁ : ℕ → ℕ} (inst : Instruction) (f : Function → Function)
      → ((fn : Function) → (f fn).instructions ≡ fn.instructions ++ (inst ∷ []))
      → Own lo mid d₁ u₁ inst
      → ((b : Bool) (code : List Instruction) → Q b code → R b (inst ∷ code))
      → Builds lo mid d u Q m
      → Builds lo mid (λ b n. d₁ n + d b n) (λ b n. u₁ n + u b n) R (emit f >> m)
  unfolding emit ◌>>=◌
  Builds-emit inst f e own join h = record {
    runs = λ l env le.
        Post-map
          (λ (b, l') (code, eq, part, env', owns, q). (
            inst ∷ code,
            eq ∙ (ap (λ c. c ++ code) (e l.fn) ∙ append_assoc l.fn.instructions (inst ∷ []) code),
            Part-append (inst ∷ []) code (Part-Own l.next_label_id inst own) part,
            env',
            (λ n i j. omega (arith, own.counts n, owns n i j)),
            join b code q,
          ))
          (h.runs _ (record { scopes_ok = env.scopes_ok; functions_ok = env.functions_ok }) le);
  }

module _ {A : Type 0} {lo mid : ℕ} {d u : Counts} {P : A → List Instruction → Type 0}
    {Q : A → Result} {R : Result} {m : Lowering A} {f : A → Lowering Bool} where
  -- A part whose labels are its own comes first.
  pub Builds-bind :
      Emits P m
      → ((a : A) (code : List Instruction) → P a code → Builds lo mid d u (Q a) (f a))
      → ((a : A) (b : Bool) (c e : List Instruction) → P a c → Q a b e → R b (c ++ e))
      → Builds lo mid d u R (m >>= f)
  unfolding ◌>>=◌
  Builds-bind hm hf join = record { runs = λ l env le. first l le (m l) (hm.runs l env) }
    where
      second :
          (l : Lowerer) (a : A) (l₁ : Lowerer) (c : List Instruction)
          → mid ≤ l.next_label_id
          → Emitted l l₁ c
          → P a c
          → (r : Outcome SemaError (Bool × Lowerer)) → Post (Built lo mid d u (Q a) l₁) Any r
          → Post (Built lo mid d u R l) Any r
      second l a l₁ c le em p (ok (b, l₂)) (returns (e, eq, part, env', owns, q)) = returns (
        c ++ e,
        eq ∙ (ap (λ x. x ++ e) em.appended ∙ append_assoc l.fn.instructions c e),
        Part-append c e (Shape-Part lo c le em.shape) part,
        env',
        (λ n i j. ground (
          arith,
          owns n i j,
          em.shape.labels n,
          defs-append (label_name n) c e,
          uses-append (label_name n) c e,
        )),
        join a b c e p q,
      )
      second l a l₁ c le em p (err x) h = raises tt

      first :
          (l : Lowerer)
          → mid ≤ l.next_label_id
          → (r : Outcome SemaError (A × Lowerer)) → Post (Ran P l) Any r
          → Post (Built lo mid d u R l) Any (elim r [ ok (a, l') ↦ f a l' | err e ↦ err e ])
      first l le (ok (a, l₁)) (returns (c, em, p)) =
          second l a l₁ c le em p (f a l₁)
            ((hf a c p).runs l₁ em.env (omega (arith, le, em.shape.forward)))
      first l le (err x) h = raises tt
