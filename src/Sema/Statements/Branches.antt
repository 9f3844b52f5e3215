-- ===== src/Sema/Statements/Branches.antt =====
-- The code of `if` statements, from the code of their parts.
use mathlib.Core.List.{append-nil}
use wihajster.Common.{
  ℕ, ◌+◌, ◌≤◌, ◌<◌, Bool, true, false, ◌||◌, List, [], ◌∷◌, ◌++◌, if◌then◌else◌, ◌≡◌, refl, arith,
}
use wihajster.Common.Maps.{bytes_eq}
use wihajster.Lexer.Token.{Token}
use wihajster.Parser.Ast.{Expression, Statement}
use wihajster.Tac.Types.{Instruction}
use wihajster.Tac.Code.{ends, ends-append}
use wihajster.Sema.Types.{Message, void}
use wihajster.Sema.Lowerer.{TypedValue, Lowering, ◌>>=◌, ◌>>◌, pure, label_name, fail_if}
use wihajster.Sema.Emits.{Emits, Emits-bind, Emits-pure, Emits-weaken, Gives-fail_if}
use wihajster.Sema.EmitsOps.{IsObject}
use wihajster.Sema.Builds.{Counts, Result, one, Builds, Builds-bind, Builds-pure}
use wihajster.Sema.OwnLabels.{
  Builds-label, Builds-jmp, Builds-br, Builds-weaken, Emits-two_labels, Emits-three_labels,
}
use wihajster.Sema.Expressions.{lower_expr}
use wihajster.Sema.Expressions.Code.{or-false_right}
use wihajster.Sema.Expressions.Calls.{lower_expr-Gives}
use wihajster.Sema.Statements.{jump_if, label_if, lower_if_then, lower_if_else, lower_if_statement}

-- Code whose end cannot be reached ends in a terminator.
abbrev pub Closes : Bool → List Instruction → Type 0
Closes reachable code = reachable ≡ false → ends code ≡ true

-- The end can be reached.
abbrev pub IsOpen : Result
IsOpen b code = b ≡ true

pub IsOpen-pure : {lo mid : ℕ} → Builds lo mid (λ _ _. 0) (λ _ _. 0) IsOpen (pure true)
IsOpen-pure = Builds-pure true refl

pub Builds-jump_if :
    {lo mid : ℕ} {d u : Counts} {m : Lowering Bool} (reachable : Bool) (i : ℕ)
    → lo ≤ i
    → i < mid
    → Builds lo mid d u IsOpen m
    → Builds lo mid d (λ b n. one i n + u b n) IsOpen (jump_if reachable (label_name i) >> m)
Builds-jump_if true i h k rest =
    Builds-weaken (λ b code q. (q, λ n. omega arith)) (Builds-jmp i h k (λ _ b code q. q) rest)
Builds-jump_if false i h k rest =
    Builds-bind (Emits-pure {Q = λ _ _. Unit} tt tt)
      (λ _ _ _. Builds-weaken (λ b code q. (q, λ n. omega arith)) rest) (λ _ b c e _ q. q)

pub Emits-open : {m : Lowering Bool} → Emits IsOpen m → Emits Closes m
Emits-open h = Emits-weaken h (λ b code e f. cc)

lower_if_then-Emits :
    (cond : TypedValue) (body : Lowering Bool)
    → IsObject cond.value.kind
    → Emits Closes body
    → Emits Closes (lower_if_then cond body)
unfolding lower_if_then
lower_if_then-Emits cond body c h = Emits-open (
    Emits-two_labels _
      (λ lo.
        Builds-br cond.value lo (lo + 1) c (omega arith) (omega arith) (omega arith) (omega arith)
          (λ _ _ _ q. q)
          (Builds-label lo (omega arith) (omega arith) (λ _ _ _ q. q)
            (Builds-bind h
              (λ reachable code _.
                Builds-jump_if reachable (lo + 1) (omega arith) (omega arith)
                  (Builds-label (lo + 1) (omega arith) (omega arith) (λ _ _ _ q. q) IsOpen-pure))
              (λ _ _ _ _ _ q. q))))
      (λ lo b n h k. ground arith))

abbrev pick : ℕ → Counts
pick i b n = if b then one i n else 0

-- The end of an `if` with an else: it has no code if it cannot be reached.
abbrev Tail : Bool → Bool → Result
Tail t e b code = (b ≡ (t || e)) × (b ≡ false → code ≡ [])

-- What is behind the first branch.
abbrev Rest : Bool → Result
Rest t b code = (t ≡ true → b ≡ true) × Closes b code

skip :
    {lo mid : ℕ} {d u : Counts} {Q : Result} {m : Lowering Bool}
    → Builds lo mid d u Q m
    → Builds lo mid d u Q (pure tt >> m)
skip rest =
    Builds-bind (Emits-pure {Q = λ _ c. c ≡ []} tt refl) (λ _ _ _. rest) (λ _ b c e p q. rw p q)

if_tail :
    {lo mid : ℕ} (t e : Bool) (i : ℕ)
    → lo ≤ i
    → i < mid
    → Builds lo mid
        (pick i)
        (pick i)
        (Tail t e)
        (jump_if e (label_name i) >> (label_if (t || e) (label_name i) >> pure (t || e)))
if_tail true true i h k =
    Builds-weaken (λ b code q. ((q, λ f. cc), λ n. ground arith))
      (Builds-jmp i h k (λ _ _ _ q. q) (Builds-label i h k (λ _ _ _ q. q) IsOpen-pure))
if_tail false true i h k =
    Builds-weaken (λ b code q. ((q, λ f. cc), λ n. ground arith))
      (Builds-jmp i h k (λ _ _ _ q. q) (Builds-label i h k (λ _ _ _ q. q) IsOpen-pure))
if_tail true false i h k = skip (
    Builds-weaken (λ b code q. ((q, λ f. cc), λ n. ground arith))
      (Builds-label i h k (λ _ _ _ q. q) IsOpen-pure))
if_tail false false i h k = skip (
    skip (
      Builds-weaken {Q = λ b code. (b ≡ false) × (code ≡ [])}
        (λ b code (q, r). ((q, λ f. r), λ n. ground arith)) (Builds-pure false (refl, refl))))

first_jump :
    {lo mid : ℕ} {d u : Counts} {m : Lowering Bool} (t : Bool) (i : ℕ)
    → lo ≤ i
    → i < mid
    → Builds lo mid d u (Rest t) m
    → Builds lo mid d (λ b n. pick i b n + u b n) (Rest t) (jump_if t (label_name i) >> m)
first_jump true i h k rest =
    Builds-weaken {Q = Rest true} (λ b code (q, r). ((q, r), λ n. rw (q refl) (omega arith)))
      (Builds-jmp {Q = Rest true} i h k
        (λ inst b code (q, r). (q, λ f. ends-append (inst ∷ []) code (r f))) rest)
first_jump false i h k rest = skip (Builds-weaken (λ b code q. (q, λ n. omega arith)) rest)

or_true : (e : Bool) → (true || e) ≡ true
or_true e = refl

Rest-append :
    (t e b : Bool) (c d : List Instruction) → Closes e c → Tail t e b d → Rest t b (c ++ d)
Rest-append t e b c d h (q, r) =
    ((λ f. cc (q, f, or_true e)), λ f. rw (r f, append-nil) (h (or-false_right t e (cc (q, f)))))

lower_if_else-Emits :
    (cond : TypedValue) (body otherwise : Lowering Bool)
    → IsObject cond.value.kind
    → Emits Closes body
    → Emits Closes otherwise
    → Emits Closes (lower_if_else cond body otherwise)
unfolding lower_if_else
lower_if_else-Emits cond body otherwise c h k =
    Emits-three_labels _
      (λ lo.
        Builds-br {Q = Closes} cond.value lo (lo + 1 + 1) c (omega arith) (omega arith)
          (omega arith) (omega arith) (λ inst b code q f. ends-append (inst ∷ []) code (q f))
          (Builds-label {Q = Closes} lo (omega arith) (omega arith)
            (λ inst b code q f. ends-append (inst ∷ []) code (q f))
            (Builds-bind {Q = Rest} h
              (λ t code _. first_jump t (lo + 1) (omega arith) (omega arith) (
                Builds-label {Q = Rest t} (lo + 1 + 1) (omega arith) (omega arith)
                  (λ inst b code (q, r). (q, λ f. ends-append (inst ∷ []) code (r f)))
                  (Builds-bind {Q = Tail t} k
                    (λ e code _. if_tail t e (lo + 1) (omega arith) (omega arith))
                    (λ e b c d p q. Rest-append t e b c d p q))))
              (λ t b c d p (q, r) f. ends-append c d (r f)))))
      (λ lo b n h k. ground arith)

with_condition :
    (tok : Token) (cond : Expression) (f : TypedValue → Lowering Bool)
    → ((c : TypedValue) → IsObject c.value.kind → Emits Closes (f c))
    → Emits Closes (
        lower_expr cond >>= λ c.
        fail_if (bytes_eq c.type_name void) tok Message.condition_void >> f c)
with_condition tok cond f h =
    Emits-bind {S = λ _. Closes} (lower_expr-Gives cond)
      (λ c code good.
        Emits-bind {S = λ _. Closes} (Gives-fail_if (bytes_eq c.type_name void) tok _)
          (λ _ _ n. h c (good n)) (λ _ b c d p q f. ends-append c d (q f)))
      (λ _ b c d p q f. ends-append c d (q f))

pub lower_if_statement-Emits :
    (tok : Token) (cond : Expression) (body : Lowering Bool) (statement : Statement)
    (otherwise : Lowering Bool)
    → Emits Closes body
    → Emits Closes otherwise
    → Emits Closes (lower_if_statement tok cond body statement otherwise)
unfolding lower_if_statement
lower_if_statement-Emits tok cond body Statement.nil otherwise h k =
    with_condition tok cond _ (λ c good. lower_if_then-Emits c body good h)
lower_if_statement-Emits tok cond body _ otherwise h k =
    with_condition tok cond _ (λ c good. lower_if_else-Emits c body otherwise good h k)
