-- ===== src/Sema/Unit/Accepted.antt =====
-- `Lower`, `ValidateFunctionIR` and the evaluator's index of functions, one after the other.
use wihajster.Common.{List, [], ◌∷◌, ◌≡◌, refl, All}
use wihajster.Common.Bytes.{Bytes}
use wihajster.Common.Maps.{Map, assign, bytes_key}
use wihajster.Common.Outcome.{ok, Post, Post-map}
use wihajster.Parser.Ast.{TranslationUnit}
use wihajster.Tac.Types.{Function, Module, Instruction}
use wihajster.Tac.Code.{WellFormed}
use wihajster.Tac.Validate.{validate_function}
use wihajster.Tac.Validate.Complete.{validate_instructions_iff}
use wihajster.Tac.Eval.{index_functions}
use wihajster.Sema.Emits.{Any}
use wihajster.Sema.Unit.{lower}
use wihajster.Sema.Unit.Modules.{NamedUnit, lower-WellFormed}

abbrev pub IsAccepted : Function → Type 0
IsAccepted fn = validate_function fn ≡ ok tt

WellFormed-IsAccepted :
    (insts : List Instruction) (fn : Function)
    → fn.instructions ≡ insts
    → WellFormed insts
    → IsAccepted fn
unfolding validate_function
WellFormed-IsAccepted [] fn e w = rw e refl
WellFormed-IsAccepted (inst ∷ insts) fn e w = rw e ((validate_instructions_iff inst insts).1 w)

all-IsAccepted :
    (fns : List Function)
    → All (λ (fn : Function). WellFormed fn.instructions) fns
    → All IsAccepted fns
all-IsAccepted [] h = tt
all-IsAccepted (fn ∷ fns) (h, hs) =
    (WellFormed-IsAccepted fn.instructions fn refl h, all-IsAccepted fns hs)

indexed :
    (fns : List Function) (funcs : Map Bytes Function)
    → All IsAccepted fns
    → (all : Map Bytes Function) × (index_functions fns funcs ≡ ok all)
unfolding index_functions
indexed [] funcs h = (funcs, refl)
indexed (fn ∷ fns) funcs (h, hs) = rw h (indexed fns (assign fn.name fn funcs) hs)

-- `Lower`, on a translation unit whose functions have names, fails or returns a module in which
-- `ValidateFunctionIR` accepts every function, so that the evaluator gets to run it: its loop over
-- the functions returns their index.
pub lower-IsAccepted :
    (tu : TranslationUnit)
    → NamedUnit tu
    → Post
        (λ (m : Module).
          All IsAccepted m.functions
          × ((all : Map Bytes Function) × (index_functions m.functions [] ≡ ok all)))
        Any
        (lower tu)
lower-IsAccepted tu n =
    Post-map
      (λ m h. let ok_all = all-IsAccepted m.functions h in (ok_all, indexed m.functions [] ok_all))
      (lower-WellFormed tu n)
