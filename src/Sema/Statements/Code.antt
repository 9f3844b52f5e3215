-- ===== src/Sema/Statements/Code.antt =====
-- internal/sema/lower.go: the code of every statement.
use mathlib.Core.List.{append-nil}
use wihajster.Common.{
  ℕ, if◌then◌else◌, Bool, true, false, List, [], ◌∷◌, ◌++◌, ◌≡◌, refl, arith, ◌⊎◌, inl, inr,
  Bool-cases,
}
use wihajster.Common.Outcome.{returns, Post}
use wihajster.Lexer.Token.{Token}
use wihajster.Parser.Ast.{Expression, Statement, Statements}
use wihajster.Tac.Types.{
  InstructionKind, Instruction, OperandKind, Operand, same_kind, blank, no_operand,
}
use wihajster.Tac.Code.{ends, ends-append}
use wihajster.Tac.Builder
use wihajster.Tac.Verify.{verify_instruction}
use wihajster.Sema.Lowerer.{Lowerer, Lowering, ◌>>=◌, ◌>>◌, pure, emit, pop_scope}
use wihajster.Sema.Shape.{Shape}
use wihajster.Sema.Emits.{
  Env, Emits, Gives, Any, Ran, Emits-bind, Emits-pure, Emits-fail, Emits-weaken, Gives-get,
  Gives-fail_if,
}
use wihajster.Sema.Expressions.Calls.{lower_expr-Gives}
use wihajster.Sema.Statements.{
  lower_return, lower_expression_statement, lower_for_statement, lower_statement,
  lower_block_statements,
}
use wihajster.Sema.Statements.Branches.{Closes, lower_if_statement-Emits}
use wihajster.Sema.Statements.Loops.{lower_while_statement-Emits, lower_for_loop-Emits}
use wihajster.Sema.Statements.Scopes.{
  push_scope-Gives, pop_scope-Emits, lower_local_declaration-Gives,
}

abbrev Ends : List Instruction → Type 0
Ends code = ends code ≡ true

ret_instruction : Operand → Instruction
ret_instruction value =
    if same_kind value.kind OperandKind.invalid
    then blank InstructionKind.ret
    else record (blank InstructionKind.ret) { has_return_value = true; return_value = value }

Shape-ret :
    (n : ℕ) (value : Operand)
    → Shape n n (ret_instruction value ∷ []) × Ends (ret_instruction value ∷ [])
unfolding verify_instruction ret_instruction
Shape-ret n value = elim (Bool-cases (same_kind value.kind OperandKind.invalid)) [
  | inl e ↦ rw e (
    record {
      forward = omega arith;
      verified = (refl, tt);
      named = (tt, tt);
      labels = λ k. (omega arith, inl refl, inl refl);
    },
    refl,
  )
  | inr e ↦ rw e (
    record {
      forward = omega arith;
      verified = (ground (arith, e), tt);
      named = (tt, tt);
      labels = λ k. (omega arith, inl refl, inl refl);
    },
    refl,
  )
]

pub add_ret-Emits : (value : Operand) → Emits (λ _ code. Ends code) (emit (Builder.add_ret value))
unfolding emit Builder.add_ret ret_instruction
add_ret-Emits value = record {
  runs = λ l env. returns (
    ret_instruction value ∷ [],
    record {
      appended = refl;
      shape = (Shape-ret l.next_label_id value).0;
      env = record { scopes_ok = env.scopes_ok; functions_ok = env.functions_ok };
    },
    (Shape-ret l.next_label_id value).1,
  );
}

-- What comes first does not matter to the end.
pub after :
    {A : Type 0} {P : A → Type 0} {m : Lowering A} {f : A → Lowering Bool}
    → Gives P m
    → ((a : A) → P a → Emits Closes (f a))
    → Emits Closes (m >>= f)
after h k = Emits-bind {S = λ _. Closes} h (λ a _ p. k a p) (λ _ b c d p q f. ends-append c d (q f))

-- Nor does a method without code behind it.
return_unreachable : (value : Operand) → Emits Closes (emit (Builder.add_ret value) >> pure false)
return_unreachable value =
    Emits-bind {S = λ _ _ d. d ≡ []} (add_ret-Emits value) (λ _ _ _. Emits-pure _ refl)
      (λ _ b c d p q f. rw (q, append-nil) p)

lower_return-Emits : (tok : Token) (e : Expression) → Emits Closes (lower_return tok e)
unfolding lower_return
lower_return-Emits tok Expression.nil =
    after Gives-get (λ l _. after (Gives-fail_if _ tok _) (λ _ _. return_unreachable no_operand))
lower_return-Emits tok e = after (lower_expr-Gives e) (λ val _. after Gives-get (λ l _.
    after (Gives-fail_if _ tok _)
      (λ _ _. after (Gives-fail_if _ tok _) (λ _ _. return_unreachable val.value))))

lower_expression_statement-Emits : (e : Expression) → Emits Closes (lower_expression_statement e)
unfolding lower_expression_statement
lower_expression_statement-Emits Expression.nil = Emits-pure _ (λ f. cc)
lower_expression_statement-Emits e = after (lower_expr-Gives e) (λ _ _. Emits-pure _ (λ f. cc))

-- A scope is closed without code.
close_scope :
    {P : Bool → List Instruction → Type 0} {m : Lowering Bool}
    → Emits P m
    → Emits P (m >>= λ r. pop_scope >> pure r)
close_scope h =
    Emits-bind {S = λ r b d. (b ≡ r) × (d ≡ [])} h
      (λ r _ _.
        Emits-bind {S = λ _ b d. (b ≡ r) × (d ≡ [])} pop_scope-Emits
          (λ _ _ _. Emits-pure r (refl, refl)) (λ _ b c d p (q, e). rw p (q, e)))
      (λ r b c d p (q, e). rw (q, e, append-nil) p)

-- What stands behind a part is left out if it cannot be reached.
abbrev Behind : Bool → Bool → List Instruction → Type 0
Behind reachable b code =
    (reachable ≡ false → (b ≡ false) × (code ≡ [])) × (reachable ≡ true → Closes b code)

behind :
    (m : Lowering Bool) (reachable : Bool)
    → Emits Closes m
    → Emits (Behind reachable) (elim reachable [ true ↦ m | false ↦ pure false ])
behind m true h = Emits-weaken h (λ b d p. ((λ f. cc), λ _. p))
behind m false h = Emits-pure false ((λ _. (refl, refl)), λ f. cc)

Behind-append :
    (reachable b : Bool) (c d : List Instruction)
    → Closes reachable c
    → Behind reachable b d
    → Closes b (c ++ d)
Behind-append true b c d p (q, r) f = ends-append c d (r refl f)
Behind-append false b c d p (q, r) f = rw ((q refl).1, append-nil) (p refl)

lower_init-Emits :
    (statement : Statement) (init : Lowering Bool)
    → Emits Closes init
    → Emits Closes (elim statement [ Statement.nil ↦ pure true | _ ↦ init ])
lower_init-Emits Statement.nil init h = Emits-pure true (λ f. cc)
lower_init-Emits _ init h = h

lower_for_statement-Emits :
    (tok : Token) (statement : Statement) (init : Lowering Bool) (cond post : Expression)
    (body : Lowering Bool)
    → Emits Closes init
    → Emits Closes body
    → Emits Closes (lower_for_statement tok statement init cond post body)
unfolding lower_for_statement
lower_for_statement-Emits tok statement init cond post body h k = after push_scope-Gives (λ _ _.
    Emits-bind {S = Behind} (lower_init-Emits statement init h)
      (λ r _ _. close_scope (behind _ r (lower_for_loop-Emits tok cond post body k))) Behind-append)

mutual
  unfolding lower_statement lower_block_statements

  pub lower_statement-Emits : (s : Statement) → Emits Closes (lower_statement s)
  lower_statement-Emits Statement.nil = Emits-fail _ _
  lower_statement-Emits (Statement.block tok stmts) =
      after push_scope-Gives (λ _ _. close_scope (lower_block_statements-Emits stmts))
  lower_statement-Emits (Statement.declaration tok decl) =
      after (lower_local_declaration-Gives decl) (λ _ _. Emits-pure _ (λ f. cc))
  lower_statement-Emits (Statement.expression tok e) = lower_expression_statement-Emits e
  lower_statement-Emits (Statement.return tok e) = lower_return-Emits tok e
  lower_statement-Emits (Statement.if_else tok cond t e) =
      lower_if_statement-Emits tok cond _ e _ (lower_statement-Emits t) (lower_statement-Emits e)
  lower_statement-Emits (Statement.while tok cond body) =
      lower_while_statement-Emits tok cond _ (lower_statement-Emits body)
  lower_statement-Emits (Statement.for tok init cond post body) =
      lower_for_statement-Emits tok init _ cond post _ (lower_statement-Emits init)
        (lower_statement-Emits body)

  pub lower_block_statements-Emits : (ss : Statements) → Emits Closes (lower_block_statements ss)
  lower_block_statements-Emits Statements.done = Emits-pure _ (λ f. cc)
  lower_block_statements-Emits (Statements.then_do s ss) =
      Emits-bind {S = Behind} (lower_statement-Emits s)
        (λ r _ _. behind _ r (lower_block_statements-Emits ss)) Behind-append

abbrev pub OpenOrEnded : Bool → List Instruction → Type 0
OpenOrEnded reachable code = (reachable ≡ true) ⊎ (ends code ≡ true)

Closes-OpenOrEnded : (b : Bool) (code : List Instruction) → Closes b code → OpenOrEnded b code
Closes-OpenOrEnded true code h = inl refl
Closes-OpenOrEnded false code h = inr (h refl)

-- `lowerStatement`, from a state whose variables have object types and whose functions have names
-- and parameters of object types, fails or appends code to the function. That code is verified, it
-- defines each label it uses, exactly once and with a number between the counters before and after,
-- the new state has such variables and functions too, and the code ends in a terminator unless the
-- statement's end is said to be reachable.
pub lower_statement-Ran :
    (s : Statement) (l : Lowerer) → Env l → Post (Ran OpenOrEnded l) Any (lower_statement s l)
lower_statement-Ran s l env = (Emits-weaken (lower_statement-Emits s) Closes-OpenOrEnded).runs l env
