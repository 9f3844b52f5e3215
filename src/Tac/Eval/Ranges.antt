-- ===== src/Tac/Eval/Ranges.antt =====
-- Predicates on what `evalOp` leaves: on its errors, on the count of steps, and on the values of the
-- names and cells.
use wihajster.Common.{ℕ, ◌≤◌, List, [], ◌∷◌, Option, none, some, if_both, All}
use wihajster.Common.Bytes.{Bytes, trim_space, parse_int}
use wihajster.Common.Maps.{lookup, bytes_key, nat_eq, OnSome, AllValues, lookup-AllValues}
use wihajster.Common.Outcome.{Post, returns, raises, Post-bind, Post-found}
use wihajster.Tac.Types.{Operand}
use wihajster.Tac.Int32.{IsI32}
use wihajster.Tac.Int32.Bounds
use wihajster.Tac.Validate.Calm.{NoPanic}
use wihajster.Tac.Eval.State.{
  Value, MemoryCell, EvalFrame, EvalError, Result, value_or_number, resolve_value, resolve_i32,
  resolve_ptr, cell_value, read_cell,
}
use wihajster.Tac.Eval.Ops.{OpResult, resolve_args}

-- An error that the program returns: fuel that runs out is none, nor a panic of the validation.
abbrev pub Stops : EvalError → Type 0
Stops EvalError.out_of_fuel = ⊥
Stops (EvalError.invalid_function e) = NoPanic e
Stops _ = Unit

-- The outcome is a value that satisfies `P`, or an error that the program returns.
abbrev pub Finishes : {A : Type 0} → (A → Type 0) → Result A → Type 0
Finishes P r = Post P Stops r

abbrev pub Any : {A : Type 0} → A → Type 0
Any _ = Unit

-- An `int32` is a pattern below 2^32.
abbrev pub InRange : Value → Type 0
InRange (Value.i32 n) = IsI32 n
InRange (Value.ptr _) = Unit

abbrev pub CellInRange : MemoryCell → Type 0
CellInRange cell = InRange cell.value

pub record FrameInRange (frame : EvalFrame) : Type 0 where
  pub names : AllValues InRange frame.values
  pub cells : AllValues CellInRange frame.memory

-- The steps were counted on, from `from` and up to `limit`.
abbrev pub Counted : ℕ → ℕ → ℕ → Type 0
Counted from limit steps = (from ≤ steps) × (steps ≤ limit)

pub record OpInRange (from limit : ℕ) (r : OpResult) : Type 0 where
  pub counted : Counted from limit r.steps
  pub frame_ok : FrameInRange r.frame
  pub result_ok : OnSome InRange r.result

value_or_number-Finishes :
    (t : Bytes) (o : Option Value) → OnSome InRange o → Finishes InRange (value_or_number t o)
unfolding value_or_number
value_or_number-Finishes t (some v) h = returns h
value_or_number-Finishes t none h =
    Post-bind (Post-found _ (parse_int 32 t) tt) λ n _. returns (Bounds.of_parsed-IsI32 n)

module _ (frame : EvalFrame) (ok' : FrameInRange frame) where
  pub resolve_value-Finishes : (t : Bytes) → Finishes InRange (resolve_value frame t)
  unfolding resolve_value
  resolve_value-Finishes t =
      value_or_number-Finishes _ _ (lookup-AllValues InRange (trim_space t) frame.values ok'.names)

  pub resolve_i32-Finishes : (t : Bytes) → Finishes IsI32 (resolve_i32 frame t)
  unfolding resolve_i32
  resolve_i32-Finishes t =
      Post-bind (resolve_value-Finishes t)
        (elim [ Value.i32 n ↦ λ h. returns h | Value.ptr p ↦ λ _. raises cc ])

  pub resolve_ptr-Finishes : (t : Bytes) → Finishes Any (resolve_ptr frame t)
  unfolding resolve_ptr
  resolve_ptr-Finishes t =
      Post-bind (resolve_value-Finishes t)
        (elim [ Value.i32 n ↦ λ _. raises cc | Value.ptr p ↦ λ _. returns tt ])

  pub read_cell-Finishes : (p : ℕ) → Finishes InRange (read_cell frame p)
  unfolding read_cell
  read_cell-Finishes p =
      at_cell (lookup p frame.memory) (lookup-AllValues CellInRange p frame.memory ok'.cells)
    where
      at_cell : (o : Option MemoryCell) → OnSome CellInRange o → Finishes InRange (cell_value p o)
      at_cell none h = raises cc
      at_cell (some cell) h = if_both (Finishes InRange) cell.initialized (returns h) (raises tt)

  pub resolve_args-Finishes :
      (args : List Operand) → Finishes (All InRange) (resolve_args frame args)
  unfolding resolve_args
  resolve_args-Finishes [] = returns tt
  resolve_args-Finishes (a ∷ args) =
      Post-bind (resolve_value-Finishes a.text)
        λ v h. Post-bind (resolve_args-Finishes args) λ vs hs. returns (h, hs)
