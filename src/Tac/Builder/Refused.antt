-- ===== src/Tac/Builder/Refused.antt =====
-- What the methods of the builder that validate do with the function or the module.
use wihajster.Common.{List, [], ◌∷◌, ◌++◌, ◌≡◌, false, refl, sym, ◌∙◌, All, All-append}
use wihajster.Common.Bytes.{Bytes}
use wihajster.Common.Outcome.{Outcome, ok, err, Post, returns, raises}
use wihajster.Tac.Types.{InstructionKind, Instruction, Function, Module}
use wihajster.Tac.Code.{ends}
use wihajster.Tac.Builder.{add_label}
use wihajster.Tac.Builder.Blocks.{set_block, add_function}
use wihajster.Tac.Validate.{ValidateError, validate_instructions, validate_function}
use wihajster.Tac.Validate.Complete.{validate_instructions_iff}
use wihajster.Tac.Validate.Calm.{NoPanic, Calm, validate_function-Calm}

ends-label :
    (insts : List Instruction) (inst : Instruction)
    → inst.kind ≡ InstructionKind.label
    → ends (insts ++ (inst ∷ [])) ≡ false
ends-label [] inst e = rw e refl
ends-label (a ∷ []) inst e = rw e refl
ends-label (a ∷ b ∷ insts) inst e = ends-label (b ∷ insts) inst e

open-refused :
    (insts : List Instruction) (inst : Instruction)
    → inst.kind ≡ InstructionKind.label
    → ¬ (validate_instructions (insts ++ (inst ∷ [])) ≡ ok tt)
open-refused [] inst e h =
    let w = (validate_instructions_iff inst []).0 h in cc (sym w.ended ∙ ends-label [] inst e)
open-refused (a ∷ insts) inst e h =
    let w = (validate_instructions_iff a (insts ++ (inst ∷ []))).0 h in
    cc (sym w.ended ∙ ends-label (a ∷ insts) inst e)

refused :
    (r : Outcome ValidateError (Unit {0}))
    → Calm r
    → ¬ (r ≡ ok tt)
    → (e : ValidateError) × NoPanic e × (r ≡ err e)
refused _ (returns {a} h) n = absurd (n refl)
refused _ (raises {e} h) n = (e, h, refl)

-- `SetBlock` appends the label and then always returns an error of the validation, which is not a
-- panic.
pub set_block_refused :
    (label : Bytes) (f : Function)
    → (e : ValidateError) × NoPanic e × (set_block label f ≡ (err e, add_label label f))
unfolding set_block add_label validate_function
set_block_refused label f =
    let (e, calm, same) =
      refused _ (validate_function-Calm (add_label label f)) (open-refused f.instructions _ refl) in
    (e, calm, rw same refl)

-- In a module in which `ValidateFunctionIR` accepts every function, `AddFunction` keeps that so. It
-- appends a function for which it returns no error, and otherwise leaves the module as it is.
pub add_function_accepted :
    (fn : Function) (m : Module)
    → All (λ (f : Function). validate_function f ≡ ok tt) m.functions
    → All (λ (f : Function). validate_function f ≡ ok tt) (add_function fn m).1.functions
      × Post
          (λ _. (add_function fn m).1.functions ≡ m.functions ++ (fn ∷ []))
          (λ _. (add_function fn m).1 ≡ m)
          (add_function fn m).0
unfolding add_function
add_function_accepted fn m h = by_result (validate_function fn) refl
  where
    by_result :
        (r : Outcome ValidateError (Unit {0}))
        → validate_function fn ≡ r
        → All (λ (f : Function). validate_function f ≡ ok tt) (add_function fn m).1.functions
          × Post
              (λ _. (add_function fn m).1.functions ≡ m.functions ++ (fn ∷ []))
              (λ _. (add_function fn m).1 ≡ m)
              (add_function fn m).0
    by_result (ok u) e =
        rw (e, add_function)
          (
            All-append (λ (f : Function). validate_function f ≡ ok tt) m.functions (fn ∷ []) h
                (e, tt),
            returns refl,
          )
    by_result (err x) e = rw (e, add_function) (h, raises refl)
