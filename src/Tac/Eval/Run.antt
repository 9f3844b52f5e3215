-- ===== src/Tac/Eval/Run.antt =====
-- `evalCall` and `EvaluateFunction`. The loop and the calls run on fuel; each round of a loop is a
-- step, so fuel above the step limit is enough.
use wihajster.Common.{
  ℕ, zero, suc, Bool, true, false, ◌&&◌, ◌+◌, ◌%◌, List, [], ◌∷◌, length, get_elem?, map, Option,
  none, some, ltb, ◌==◌, if◌then◌else◌,
}
use wihajster.Common.Bytes.{Bytes}
use wihajster.Common.Maps.{Map, lookup, assign, bytes_key}
use wihajster.Common.Outcome.{Outcome, ok, err, ◌>>=◌, ◌>>◌, check, found}
use wihajster.Tac.Types.{InstructionKind, Instruction, Function, Module}
use wihajster.Tac.Validate.{ValidateError, validate_function}
use wihajster.Tac.Eval.State.{
  Value, EvalFrame, EvalError, Result, resolve_value, resolve_i32, initial_frame,
}
use wihajster.Tac.Eval.Ops.{Call, eval_op}

-- The fields of `evalState` that do not change.
pub record EvalState : Type 0 where
  pub funcs : Map Bytes Function
  pub step_limit : ℕ
  pub max_call_depth : ℕ

-- One round of the loop goes on at an instruction, or returns a value.
pub data Next : Type 0 where
  goto : ℕ → EvalFrame → ℕ → Next
  returned : Value → ℕ → Next

-- `frame.values[inst.Destination.Text] = res`, where the operation has a result.
unfoldable pub store_result : Bytes → Instruction → EvalFrame → Option Value → Result EvalFrame
store_result name inst frame none = ok frame
store_result name inst frame (some v) =
    if inst.has_destination
    then ok (record frame { values = assign inst.destination.text v frame.values })
    else err (EvalError.value_without_destination inst.opcode name)

-- The switch in the loop of `evalCall`, after the step is counted.
unfoldable pub step_of_kind :
    InstructionKind → Call → Bytes → EvalFrame → ℕ → ℕ → ℕ → Instruction → Result Next
unfolding store_result eval_op resolve_i32
step_of_kind InstructionKind.label call name frame depth pc steps inst =
    ok (Next.goto (pc + 1) frame steps)
step_of_kind InstructionKind.jmp call name frame depth pc steps inst = do
  next ←
      found (lookup inst.true_label.text frame.labels)
        (EvalError.invalid_jump inst.true_label.text name)
  ok (Next.goto next frame steps)
step_of_kind InstructionKind.br call name frame depth pc steps inst = do
  cond ← resolve_i32 frame inst.condition.text
  let target = if cond == 0 then inst.false_label.text else inst.true_label.text
  next ← found (lookup target frame.labels) (EvalError.invalid_branch target name)
  ok (Next.goto next frame steps)
step_of_kind InstructionKind.ret call name frame depth pc steps inst =
    if inst.has_return_value
    then (resolve_value frame inst.return_value.text >>= λ v. ok (Next.returned v steps))
    else ok (Next.returned (Value.i32 0) steps)
step_of_kind InstructionKind.op call name frame depth pc steps inst = do
  r ← eval_op inst.opcode call frame depth steps inst
  frame' ← store_result name inst r.frame r.result
  ok (Next.goto (pc + 1) frame' r.steps)

-- `evalCall` up to its loop, which is an argument.
unfoldable pub eval_call :
    EvalState → (Bytes → Function → EvalFrame → ℕ → ℕ → ℕ → Result (Value × ℕ)) → Call
unfolding initial_frame
eval_call s loop name args depth steps = do
  check (ltb depth s.max_call_depth) (EvalError.call_depth name)
  fn ← found (lookup name s.funcs) (EvalError.missing_function name)
  check (length args == length fn.parameters)
      (EvalError.argument_count name (length fn.parameters) (length args))
  loop name fn (initial_frame fn args) depth 0 steps

abbrev pub continue : (ℕ → EvalFrame → ℕ → Result (Value × ℕ)) → Next → Result (Value × ℕ)
continue again (Next.goto pc frame steps) = again pc frame steps
continue again (Next.returned v steps) = ok (v, steps)

-- `s.steps++` and `s.steps > s.stepLimit`: an `int` is a pattern below 2^64, which stands for a
-- negative number from 2^63 on; the limit is not negative.
unfoldable pub count_step : ℕ → ℕ
count_step steps = (steps + 1) % 18_446_744_073_709_551_616

unfoldable pub over_limit : ℕ → ℕ → Bool
over_limit limit steps = ltb steps 9_223_372_036_854_775_808 && ltb limit steps

-- The loop of `evalCall`, at `pc`; `steps` is the count before this round.
unfoldable pub run_loop :
    ℕ → EvalState → Bytes → Function → EvalFrame → ℕ → ℕ → ℕ → Result (Value × ℕ)
unfolding step_of_kind eval_call count_step over_limit
run_loop zero s name fn frame depth pc steps = err EvalError.out_of_fuel
run_loop (suc f) s name fn frame depth pc steps = elim (get_elem? fn.instructions pc) [
  | none ↦ err (EvalError.no_ret name)
  | some inst ↦ elim (over_limit s.step_limit (count_step steps)) [
    | true ↦ err (EvalError.step_limit name)
    | false ↦
        step_of_kind inst.kind (eval_call s (run_loop f s)) name frame depth pc (count_step steps)
          inst
        >>= continue (λ pc' frame' steps'. run_loop f s name fn frame' depth pc' steps')
  ]
]

-- The defaults of `EvalOptions`: a limit that is not positive is replaced.
abbrev pub default_limit : ℕ → ℕ → ℕ
default_limit given default = if given == 0 then default else given

-- The error of `ValidateFunctionIR`, as the evaluator returns it.
abbrev pub validated : Outcome ValidateError (Unit {0}) → Result (Unit {0})
validated (ok u) = ok u
validated (err e) = err (EvalError.invalid_function e)

-- The functions of a module by name, each validated; a later one replaces an earlier one.
unfoldable pub index_functions : List Function → Map Bytes Function → Result (Map Bytes Function)
index_functions [] funcs = ok funcs
index_functions (fn ∷ fns) funcs = do
  validated (validate_function fn)
  index_functions fns (assign fn.name fn funcs)

abbrev pub returned_i32 : Bytes → Value → Result ℕ
returned_i32 name (Value.i32 n) = ok n
returned_i32 name (Value.ptr _) = err (EvalError.non_i32_value name)

-- `EvaluateFunction`; the two limits are `opts`, where 0 stands for a limit that is not positive.
unfoldable pub evaluate_function : Module → Bytes → List ℕ → ℕ → ℕ → Result ℕ
unfolding run_loop eval_call index_functions
evaluate_function mod' name args step_limit max_call_depth = do
  funcs ← index_functions mod'.functions []
  let limit = default_limit step_limit 100_000
  let s : EvalState = record {
    funcs = funcs;
    step_limit = limit;
    max_call_depth = default_limit max_call_depth 128;
  }
  (ret, _) ← eval_call s (run_loop (suc limit) s) name (map Value.i32 args) 0 0
  returned_i32 name ret
