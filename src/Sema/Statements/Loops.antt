-- ===== src/Sema/Statements/Loops.antt =====
-- The code of `while` and `for` statements, from the code of their parts.
use wihajster.Common.{ℕ, ◌+◌, ◌≤◌, ◌<◌, Bool, true, false, arith}
use wihajster.Common.Maps.{bytes_eq}
use wihajster.Lexer.Token.{Token}
use wihajster.Parser.Ast.{Expression}
use wihajster.Sema.Types.{void, SemaError}
use wihajster.Sema.Lowerer.{Lowerer, Lowering, ◌>>=◌, ◌>>◌, label_name}
use wihajster.Sema.Emits.{Emits, Gives, Any, Emits-pure, Gives-fail_if, Gives-bind}
use wihajster.Common.Outcome.{Outcome, ok, err, Post}
use wihajster.Sema.Builds.{Built, Counts, Result, one, Builds, Builds-bind}
use wihajster.Sema.OwnLabels.{
  Builds-label, Builds-jmp, Builds-br, Builds-weaken, Emits-three_labels, Emits-four_labels,
}
use wihajster.Sema.Expressions.Calls.{lower_expr-Gives}
use wihajster.Sema.Statements.{
  lower_for_condition, lower_post, lower_for_loop, lower_while_statement,
}
use wihajster.Sema.Statements.Branches.{Closes, IsOpen, Emits-open, IsOpen-pure, Builds-jump_if}

module _ {A B : Type 0} {lo mid : ℕ} {d u : Counts} {Q : Result} where
  -- The first part of the part is lowered before the second.
  Builds-assoc :
      (m : Lowering A) (f : A → Lowering B) (g : B → Lowering Bool)
      → Builds lo mid d u Q (m >>= λ a. f a >>= g)
      → Builds lo mid d u Q ((m >>= f) >>= g)
  unfolding ◌>>=◌
  Builds-assoc m f g h = record { runs = λ l env le. turn l (m l) (h.runs l env le) }
    where
      turn :
          (l : Lowerer) (r : Outcome SemaError (A × Lowerer))
          → Post (Built lo mid d u Q l) Any (elim r [ ok (a, l') ↦ (f a >>= g) l' | err e ↦ err e ])
          → Post
              (Built lo mid d u Q l)
              Any
              (elim (elim r as (λ _. Outcome SemaError (B × Lowerer)) [
                | ok (a, l') ↦ f a l'
                | err e ↦ err e
              ]) [ ok (b, l') ↦ g b l' | err e ↦ err e ])
      turn l (ok (a, l₁)) p = p
      turn l (err e) p = p

-- A branch on a condition, or a jump where there is none.
condition-Builds :
    {lo mid : ℕ} {d u : Counts} {m : Lowering Bool} (tok : Token) (cond : Expression) (i j : ℕ)
    → lo ≤ i
    → i < mid
    → lo ≤ j
    → j < mid
    → Builds lo mid d u IsOpen m
    → Builds lo mid d
        (λ b n. one i n + one j n + u b n)
        IsOpen
        (lower_for_condition tok cond (label_name i) (label_name j) >> m)
unfolding lower_for_condition
condition-Builds tok Expression.nil i j h k h' k' rest =
    Builds-weaken (λ b code q. (q, λ n. omega arith)) (Builds-jmp i h k (λ _ _ _ q. q) rest)
condition-Builds tok cond i j h k h' k' rest = Builds-assoc _ _ _ (
    Builds-bind {Q = λ _. IsOpen} (lower_expr-Gives cond)
      (λ c _ good. Builds-assoc _ _ _ (
        Builds-bind {Q = λ _. IsOpen} (Gives-fail_if (bytes_eq c.type_name void) tok _)
          (λ _ _ n.
            Builds-weaken (λ b code q. (q, λ n. omega arith))
              (Builds-br c.value i j (good n) h k h' k' (λ _ _ _ q. q) rest))
          (λ _ _ _ _ _ q. q)))
      (λ _ _ _ _ _ q. q))

pub lower_while_statement-Emits :
    (tok : Token) (cond : Expression) (body : Lowering Bool)
    → Emits Closes body
    → Emits Closes (lower_while_statement tok cond body)
unfolding lower_while_statement
lower_while_statement-Emits tok cond body h = Emits-open (
    Emits-three_labels _
      (λ lo.
        Builds-jmp lo (omega arith) (omega arith) (λ _ _ _ q. q)
          (Builds-label lo (omega arith) (omega arith) (λ _ _ _ q. q)
            (Builds-bind {Q = λ _. IsOpen} (lower_expr-Gives cond)
              (λ c _ good.
                Builds-bind {Q = λ _. IsOpen} (Gives-fail_if (bytes_eq c.type_name void) tok _)
                  (λ _ _ n.
                    Builds-br c.value (lo + 1) (lo + 1 + 1) (good n) (omega arith) (omega arith)
                      (omega arith) (omega arith) (λ _ _ _ q. q)
                      (Builds-label (lo + 1) (omega arith) (omega arith) (λ _ _ _ q. q)
                        (Builds-bind {Q = λ _. IsOpen} h
                          (λ reachable _ _.
                            Builds-jump_if reachable lo (omega arith) (omega arith) (
                              Builds-label (lo + 1 + 1) (omega arith) (omega arith) (λ _ _ _ q. q)
                                IsOpen-pure))
                          (λ _ _ _ _ _ q. q))))
                  (λ _ _ _ _ _ q. q))
              (λ _ _ _ _ _ q. q))))
      (λ lo b n h k. ground arith))

lower_post-Gives : (reachable : Bool) (post : Expression) → Gives Any (lower_post reachable post)
unfolding lower_post
lower_post-Gives false post = Emits-pure tt tt
lower_post-Gives true Expression.nil = Emits-pure tt tt
lower_post-Gives true post = Gives-bind (lower_expr-Gives post) (λ _ _. Emits-pure tt tt)

pub lower_for_loop-Emits :
    (tok : Token) (cond post : Expression) (body : Lowering Bool)
    → Emits Closes body
    → Emits Closes (lower_for_loop tok cond post body)
unfolding lower_for_loop
lower_for_loop-Emits tok cond post body h = Emits-open (
    Emits-four_labels _
      (λ lo.
        Builds-jmp lo (omega arith) (omega arith) (λ _ _ _ q. q)
          (Builds-label lo (omega arith) (omega arith) (λ _ _ _ q. q)
            (condition-Builds tok cond (lo + 1) (lo + 1 + 1 + 1) (omega arith) (omega arith)
              (omega arith) (omega arith)
              (Builds-label (lo + 1) (omega arith) (omega arith) (λ _ _ _ q. q)
                (Builds-bind {Q = λ _. IsOpen} h
                  (λ reachable _ _.
                    Builds-jump_if reachable (lo + 1 + 1) (omega arith) (omega arith) (
                      Builds-label (lo + 1 + 1) (omega arith) (omega arith) (λ _ _ _ q. q)
                        (Builds-bind {Q = λ _. IsOpen} (lower_post-Gives reachable post)
                          (λ _ _ _. Builds-jump_if reachable lo (omega arith) (omega arith) (
                            Builds-label (lo + 1 + 1 + 1) (omega arith) (omega arith) (λ _ _ _ q. q)
                              IsOpen-pure))
                          (λ _ _ _ _ _ q. q))))
                  (λ _ _ _ _ _ q. q))))))
      (λ lo b n h k. ground arith))
