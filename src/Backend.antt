-- ===== src/Backend.antt =====
-- internal/backend/function_view.go: `FunctionView` and `BuildFunctionView`.
use wihajster.Common.{List}
use wihajster.Common.Bytes.{Bytes}
use wihajster.Common.Outcome.{Outcome, ok, ◌>>=◌, ◌>>◌}
use wihajster.Tac.Types.{Function}
use wihajster.Tac.Validate.{validate_function}
use wihajster.Tac.Cfg.Leaders.{BuildError}
use wihajster.Tac.Cfg.Graph.{BasicBlock, validated, build}

pub record FunctionView : Type 0 where
  pub name : Bytes
  pub blocks : List BasicBlock

-- `ValidateFunctionIR` runs here and in `Build` once more.
unfoldable pub build_function_view : Function → Outcome BuildError FunctionView
build_function_view fn = do
  validated (validate_function fn)
  graph ← build fn
  ok (record { name = fn.name; blocks = graph.blocks })
