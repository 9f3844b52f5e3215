-- ===== src/Tac/Builder/Blocks.antt =====
-- internal/tac/builder.go: the methods that append to a function or a module and validate. The
-- methods change what they point to also where they return an error, so each returns the error and
-- what is left.
use wihajster.Common.{[], ◌∷◌, ◌++◌}
use wihajster.Common.Bytes.{Bytes}
use wihajster.Common.Outcome.{Outcome, ok, err}
use wihajster.Tac.Types.{Function, Module}
use wihajster.Tac.Builder.{add_label}
use wihajster.Tac.Validate.{ValidateError, validate_function}

-- `Function.SetBlock`: the label is appended, then the function is validated.
unfoldable pub set_block : Bytes → Function → Outcome ValidateError (Unit {0}) × Function
unfolding add_label validate_function
set_block label f = let f' = add_label label f in (validate_function f', f')

-- `Function.AddBlock`.
unfoldable pub add_block : Bytes → Function → Outcome ValidateError (Unit {0}) × Function
add_block label f = set_block label f

-- `Module.AddFunction`: a function that is refused is not appended.
unfoldable pub add_function : Function → Module → Outcome ValidateError (Unit {0}) × Module
add_function fn m = elim (validate_function fn) [
  | err e ↦ (err e, m)
  | ok u ↦ (ok tt, record m { functions = m.functions ++ (fn ∷ []) })
]
