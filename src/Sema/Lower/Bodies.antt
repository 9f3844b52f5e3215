-- ===== src/Sema/Lower/Bodies.antt =====
-- internal/sema/lower.go: the body of a lowered function.
use mathlib.Core.List.{append-nil}
use wihajster.Common.{ℕ, Bool, true, false, List, [], ◌∷◌, ◌++◌, ◌≡◌, refl, sym, inl, inr, ◌⊎◌}
use wihajster.Common.Bytes.{Bytes}
use wihajster.Common.Maps.{Map}
use wihajster.Common.Outcome.{Outcome, ok, err, Post, Post-map, returns, raises}
use wihajster.Parser.Ast.{TypeSpecifier, FunctionParameter, FunctionDefinition}
use wihajster.Tac.Types.{Instruction, Function, no_operand}
use wihajster.Tac.Operands.{param}
use wihajster.Tac.Code.{ends, ends-append, WellFormed}
use wihajster.Sema.Types.{SemaError, FunctionSignature}
use wihajster.Sema.Lowerer.{Lowerer, emit}
use wihajster.Sema.Shape.{Shape, Shape-nil}
use wihajster.Sema.Emits.{
  GoodSignatures, Emits, Gives, Any, Ran, Emits-bind, Emits-pure, Emits-fail, Emits-weaken,
  Gives-bind,
}
use wihajster.Sema.EmitsOps.{Gives-alloca}
use wihajster.Sema.Statements.Branches.{Closes}
use wihajster.Sema.Statements.Scopes.{
  push_scope-Gives, pop_scope-Emits, set_local_slot-Gives, declare_local-Gives, object_type-Gives,
  store_slot,
}
use wihajster.Sema.Statements.Code.{add_ret-Emits, lower_block_statements-Emits}
use wihajster.Sema.Lower.Names.{Shape-WellFormed}
use wihajster.Sema.Lower.{
  percent, add_parameter, lower_parameters, close_function, lower_body, initial_lowerer,
  lower_function,
}

add_parameter-Gives : (name typ : Bytes) → Gives Any (emit (add_parameter name typ))
unfolding emit
add_parameter-Gives name typ = record {
  runs = λ l env. returns (
    [],
    record {
      appended = sym (append-nil l.fn.instructions);
      shape = Shape-nil l.next_label_id;
      env = record { scopes_ok = env.scopes_ok; functions_ok = env.functions_ok };
    },
    tt,
  );
}

lower_parameters-Gives : (ps : List FunctionParameter) → Gives Any (lower_parameters ps)
unfolding lower_parameters
lower_parameters-Gives [] = Emits-pure tt tt
lower_parameters-Gives (p ∷ ps) = Gives-bind (object_type-Gives p.token p.type_name) λ typ nv.
    Gives-bind (declare_local-Gives p.token p.name typ nv) λ _ _.
      Gives-bind (add_parameter-Gives p.name typ) λ _ _. Gives-bind (Gives-alloca typ) λ slot e.
        Gives-bind (set_local_slot-Gives p.name slot.text) λ _ _.
          Gives-bind (store_slot slot (param (percent p.name)) e tt)
            λ _ _. lower_parameters-Gives ps

abbrev Ended : {A : Type 0} → A → List Instruction → Type 0
Ended _ code = ends code ≡ true

close_function-Emits :
    (pfn : FunctionDefinition) (reachable : Bool) (spec : TypeSpecifier)
    → Emits
        (λ _ code. (reachable ≡ false × (code ≡ [])) ⊎ (ends code ≡ true))
        (close_function pfn reachable spec)
close_function-Emits pfn false spec = Emits-pure tt (inl (refl, refl))
close_function-Emits pfn true TypeSpecifier.void =
    Emits-weaken (add_ret-Emits no_operand) (λ _ _ h. inr h)
close_function-Emits pfn true _ = Emits-fail pfn.token _

close-append :
    (reachable : Bool) (c d : List Instruction)
    → Closes reachable c
    → (reachable ≡ false × (d ≡ [])) ⊎ (ends d ≡ true)
    → ends (c ++ d) ≡ true
close-append reachable c d h (inl (e, n)) = rw (n, append-nil) (h e)
close-append reachable c d h (inr e) = ends-append c d e

lower_body-Emits : (pfn : FunctionDefinition) → Emits Ended (lower_body pfn)
unfolding lower_body
lower_body-Emits pfn =
    Emits-bind {S = λ _. Ended} push_scope-Gives
      (λ _ _ _.
        Emits-bind {S = λ _. Ended} (lower_parameters-Gives pfn.parameters)
          (λ _ _ _.
            Emits-bind {S = λ r _ code. (r ≡ false × (code ≡ [])) ⊎ (ends code ≡ true)}
              (lower_block_statements-Emits pfn.body)
              (λ r _ _.
                Emits-bind {S = λ _ _ d. d ≡ []}
                  (close_function-Emits pfn r pfn.return_type.specifier) (λ _ _ _. pop_scope-Emits)
                  (λ _ _ c d p q. rw (q, append-nil) p))
              (λ r _ c d p q. close-append r c d p q))
          (λ _ _ c d p q. ends-append c d q))
      (λ _ _ c d p q. ends-append c d q)

lower_function-Post :
    (pfn : FunctionDefinition) (functions : Map Bytes FunctionSignature)
    → GoodSignatures functions
    → Post
        (λ (fn : Function). (hi : ℕ) × Shape 0 hi fn.instructions × (ends fn.instructions ≡ true))
        Any
        (lower_function pfn functions)
unfolding lower_function
lower_function-Post pfn functions h = finish (lower_body pfn (initial_lowerer pfn functions)) (
    (lower_body-Emits pfn).runs (initial_lowerer pfn functions)
      (record { scopes_ok = tt; functions_ok = h }))
  where
    finish :
        (r : Outcome SemaError (Unit {0} × Lowerer))
        → Post (Ran Ended (initial_lowerer pfn functions)) Any r
        → Post
            (λ (fn : Function).
              (hi : ℕ) × Shape 0 hi fn.instructions × (ends fn.instructions ≡ true))
            Any
            (elim r [ ok (_, l) ↦ ok l.fn | err e ↦ err e ])
    finish (ok (_, l)) (returns (code, e, p)) =
        returns (l.next_label_id, rw e.appended e.shape, rw e.appended p)
    finish (err x) p = raises tt

-- `lowerFunction`, with signatures that have names and parameters of object types, fails or returns a
-- function with a well-formed body.
pub lower_function-WellFormed :
    (pfn : FunctionDefinition) (functions : Map Bytes FunctionSignature)
    → GoodSignatures functions
    → Post (λ (fn : Function). WellFormed fn.instructions) Any (lower_function pfn functions)
lower_function-WellFormed pfn functions h =
    Post-map (λ fn (hi, shape, e). Shape-WellFormed hi fn.instructions shape e)
      (lower_function-Post pfn functions h)
