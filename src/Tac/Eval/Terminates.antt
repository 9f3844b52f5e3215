-- ===== src/Tac/Eval/Terminates.antt =====
-- internal/tac/evaluator.go: the end of the loop of `evalCall`, and of `EvaluateFunction`.
use wihajster.Common.{
  ℕ, zero, suc, ◌+◌, ◌≤◌, ◌<◌, ◌≡◌, ◌∙◌, List, [], ◌∷◌, Option, none, some, get_elem?, ltb, ◌==◌,
  length, if◌then◌else◌, arith, Bool-cases, inl, inr, map, All, if_both, Option-cases,
}
use wihajster.Common.Bytes.{Bytes}
use wihajster.Common.Maps.{Map, lookup, assign, bytes_key, OnSome, AllValues}
use wihajster.Common.Outcome.{Outcome, returns, raises, Post-bind, Post-map, Post-check, Post-found}
use wihajster.Tac.Types.{InstructionKind, Instruction, Function, Module, Parameter}
use wihajster.Tac.Validate.{ValidateError, validate_function}
use wihajster.Tac.Validate.Calm.{Calm, validate_function-Calm}
use wihajster.Tac.Int32.{IsI32}
use wihajster.Tac.Eval.State.{Value, EvalFrame, Result, bind_parameters, initial_frame}
use wihajster.Tac.Eval.Ops.{Call}
use wihajster.Tac.Eval.Run.{
  EvalState, Next, store_result, step_of_kind, eval_call, continue, run_loop, index_functions,
  evaluate_function, validated, count_step, over_limit, returned_i32, default_limit,
}
use wihajster.Tac.Eval.Ranges.{
  Any, Finishes, InRange, FrameInRange, Counted, resolve_value-Finishes, resolve_i32-Finishes,
}
use wihajster.Tac.Eval.OpRanges.{CallInRange, eval_op-Finishes}

-- What one round of the loop leaves.
abbrev NextInRange : ℕ → ℕ → Next → Type 0
NextInRange from limit (Next.goto pc frame steps) = FrameInRange frame × Counted from limit steps
NextInRange from limit (Next.returned v steps) = InRange v × Counted from limit steps

store_result-Finishes :
    (name : Bytes) (inst : Instruction) (frame : EvalFrame) (o : Option Value)
    → FrameInRange frame
    → OnSome InRange o
    → Finishes FrameInRange (store_result name inst frame o)
unfolding store_result
store_result-Finishes name inst frame none h k = returns h
store_result-Finishes name inst frame (some v) h k =
    if_both (Finishes FrameInRange) inst.has_destination
      (returns (record { names = (k, h.names); cells = h.cells })) (raises tt)

bind_parameters-InRange :
    (ps : List Parameter) (args : List Value) (values : Map Bytes Value)
    → All InRange args
    → AllValues InRange values
    → AllValues InRange (bind_parameters ps args values)
unfolding bind_parameters
bind_parameters-InRange [] args values h k = k
bind_parameters-InRange (p ∷ ps) [] values h k = k
bind_parameters-InRange (p ∷ ps) (a ∷ args) values (ha, h) k =
    bind_parameters-InRange ps args _ h (ha, k)

initial_frame-InRange :
    (fn : Function) (args : List Value) → All InRange args → FrameInRange (initial_frame fn args)
unfolding initial_frame
initial_frame-InRange fn args h = record {
  names = bind_parameters-InRange fn.parameters args [] h tt;
  cells = tt;
}

-- A call that keeps the values in range and the steps within the limit.
abbrev GoodCall : ℕ → ℕ → Call → Type 0
GoodCall steps limit call =
    (name : Bytes) (args : List Value) (depth : ℕ)
    → All InRange args
    → Finishes (CallInRange steps limit) (call name args depth steps)

step_of_kind-Finishes :
    (limit : ℕ) (k : InstructionKind) (call : Call) (name : Bytes) (frame : EvalFrame)
    (depth pc steps : ℕ) (inst : Instruction)
    → steps ≤ limit
    → FrameInRange frame
    → GoodCall steps limit call
    → Finishes (NextInRange steps limit) (step_of_kind k call name frame depth pc steps inst)
unfolding step_of_kind
step_of_kind-Finishes limit InstructionKind.label call name frame depth pc steps inst n h g =
    returns (h, (omega arith, n))
step_of_kind-Finishes limit InstructionKind.jmp call name frame depth pc steps inst n h g =
    Post-bind (Post-found _ (lookup inst.true_label.text frame.labels) tt)
      λ next _. returns (h, (omega arith, n))
step_of_kind-Finishes limit InstructionKind.br call name frame depth pc steps inst n h g =
    Post-bind (resolve_i32-Finishes frame h inst.condition.text) λ cond _.
      Post-bind
        (Post-found _
          (lookup (if cond == 0 then inst.false_label.text else inst.true_label.text) frame.labels)
          tt)
        λ next _. returns (h, (omega arith, n))
step_of_kind-Finishes limit InstructionKind.ret call name frame depth pc steps inst n h g =
    if_both (Finishes (NextInRange steps limit)) inst.has_return_value
      (Post-bind (resolve_value-Finishes frame h inst.return_value.text)
        λ v k. returns (k, (omega arith, n)))
      (returns (omega arith, (omega arith, n)))
step_of_kind-Finishes limit InstructionKind.op call name frame depth pc steps inst n h g =
    Post-bind
      (eval_op-Finishes limit frame h steps n call depth (λ name args. g name args (depth + 1))
        inst.opcode inst)
      λ r k.
        Post-bind (store_result-Finishes name inst r.frame r.result k.frame_ok k.result_ok)
          λ frame' h'. returns (h', k.counted)

-- Up to a limit below the largest `int`, the count of steps does not overflow.
count_step-short :
    (limit steps : ℕ)
    → limit < 9_223_372_036_854_775_807
    → steps ≤ limit
    → (count_step steps ≡ steps + 1) × (over_limit limit (count_step steps) ≡ ltb limit (steps + 1))
unfolding count_step over_limit
count_step-short limit steps short h =
    let e : count_step steps ≡ steps + 1 = omega (arith, short, h) in
    (e, rw e (ground (arith, short, h)))

module _ (s : EvalState) where
  -- A loop that ends, from any frame in range and any count of steps within the limit.
  abbrev GoodLoop : (Bytes → Function → EvalFrame → ℕ → ℕ → ℕ → Result (Value × ℕ)) → ℕ → Type 0
  GoodLoop loop steps =
      (name : Bytes) (fn : Function) (frame : EvalFrame) (depth pc : ℕ)
      → FrameInRange frame
      → Finishes (CallInRange steps s.step_limit) (loop name fn frame depth pc steps)

  eval_call-Finishes :
      (loop : Bytes → Function → EvalFrame → ℕ → ℕ → ℕ → Result (Value × ℕ)) (steps : ℕ)
      → GoodLoop loop steps
      → GoodCall steps s.step_limit (eval_call s loop)
  unfolding eval_call
  eval_call-Finishes loop steps g name args depth h =
      Post-bind (Post-check _ (ltb depth s.max_call_depth) tt) λ _ _.
        Post-bind (Post-found _ (lookup name s.funcs) tt) λ fn _.
          Post-bind (Post-check _ (length args == length fn.parameters) tt)
            λ _ _. g name fn (initial_frame fn args) depth 0 (initial_frame-InRange fn args h)

  -- The next round counts on from where this one began.
  continue-Finishes :
      (loop : Bytes → Function → EvalFrame → ℕ → ℕ → ℕ → Result (Value × ℕ)) (from : ℕ)
      → ((steps : ℕ) → from ≤ steps → steps ≤ s.step_limit → GoodLoop loop steps)
      → (name : Bytes) (fn : Function) (depth : ℕ) (next : Next)
      → NextInRange from s.step_limit next
      → Finishes
          (CallInRange from s.step_limit)
          (continue (λ pc frame steps. loop name fn frame depth pc steps) next)
  continue-Finishes loop from g name fn depth (Next.goto pc frame steps) (h, (a, b)) =
      Post-map (λ (v, n) (k, (c, d)). (k, (omega arith, d))) (g steps a b name fn frame depth pc h)
  continue-Finishes loop from g name fn depth (Next.returned v steps) h = returns h

  run_loop-Finishes :
      (f steps : ℕ)
      → s.step_limit < 9_223_372_036_854_775_807
      → steps ≤ s.step_limit
      → s.step_limit < f + steps
      → GoodLoop (run_loop f s) steps
  unfolding run_loop
  run_loop-Finishes zero steps short n m name fn frame depth pc h = absurd (omega arith)
  run_loop-Finishes (suc f) steps short n m name fn frame depth pc h =
      let (counted, over) = count_step-short s.step_limit steps short n in
      elim (Option-cases (get_elem? fn.instructions pc)) [
        | inl e ↦ rw (e, run_loop) (raises tt)
        | inr (inst, e) ↦ elim (Bool-cases (ltb s.step_limit (steps + 1))) [
          | inl stop ↦ rw (e, over ∙ stop, run_loop) (raises tt)
          | inr more ↦
              rw (e, over ∙ more, counted, run_loop)
                (Post-map (λ (v, n) (k, (c, d)). (k, (omega arith, d)))
                  (Post-bind
                    (step_of_kind-Finishes s.step_limit inst.kind (eval_call s (run_loop f s)) name
                      frame depth pc (steps + 1) inst (ground arith) h
                      (eval_call-Finishes (run_loop f s) (steps + 1)
                        (run_loop-Finishes f (steps + 1) short (ground arith) (omega arith))))
                    (continue-Finishes (run_loop f s) (steps + 1)
                      (λ steps' lo hi. run_loop-Finishes f steps' short hi (omega arith)) name fn
                      depth)))
        ]
      ]

validated-Finishes : (r : Outcome ValidateError (Unit {0})) → Calm r → Finishes Any (validated r)
validated-Finishes _ (returns h) = returns tt
validated-Finishes _ (raises h) = raises h

returned-Finishes : (name : Bytes) (v : Value) → InRange v → Finishes IsI32 (returned_i32 name v)
returned-Finishes name (Value.i32 n) h = returns h
returned-Finishes name (Value.ptr p) h = raises tt

index_functions-Finishes :
    (fns : List Function) (funcs : Map Bytes Function) → Finishes Any (index_functions fns funcs)
unfolding index_functions
index_functions-Finishes [] funcs = returns tt
index_functions-Finishes (fn ∷ fns) funcs =
    Post-bind (validated-Finishes (validate_function fn) (validate_function-Calm fn))
      λ _ _. index_functions-Finishes fns (assign fn.name fn funcs)

All-i32 : (args : List ℕ) → All IsI32 args → All InRange (map Value.i32 args)
All-i32 [] h = tt
All-i32 (a ∷ args) (h, hs) = (h, All-i32 args hs)

-- On `int32` arguments and a step limit below the largest `int`, 2^63 - 1, the evaluator ends: fuel
-- of one more than the step limit is enough. It returns an `int32` or an error, and the validation
-- of the functions indexes no slice out of its range.
pub evaluate_function-Finishes :
    (m : Module) (name : Bytes) (args : List ℕ) (step_limit max_call_depth : ℕ)
    → step_limit < 9_223_372_036_854_775_807
    → All IsI32 args
    → Finishes IsI32 (evaluate_function m name args step_limit max_call_depth)
unfolding evaluate_function
evaluate_function-Finishes m name args step_limit max_call_depth short h =
    Post-bind (index_functions-Finishes m.functions []) λ funcs _.
      let limit = default_limit step_limit 100_000 in
      let s : EvalState = record {
        funcs = funcs;
        step_limit = limit;
        max_call_depth = default_limit max_call_depth 128;
      } in
      Post-bind
        (eval_call-Finishes s (run_loop (suc limit) s) 0
          (run_loop-Finishes s (suc limit) 0 (ground (arith, short)) (omega arith) (omega arith))
          name (map Value.i32 args) 0 (All-i32 args h))
        λ (ret, _) (k, _). returned-Finishes name ret k
