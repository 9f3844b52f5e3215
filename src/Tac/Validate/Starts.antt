-- ===== src/Tac/Validate/Starts.antt =====
-- `collectIRBlocks`, the starts of the blocks: 0, each target, and what follows a terminator.
use wihajster.Common.{
  ℕ, zero, suc, Bool, false, ◌||◌, ◌+◌, List, [], ◌∷◌, ◌++◌, length, ltb, ◌==◌, if◌then◌else◌, ◌≡◌,
  refl,
}
use wihajster.Common.Maps.{lookup, bytes_key}
use wihajster.Common.Outcome.{Outcome, ok, ◌>>=◌, found}
use wihajster.Tac.Types.{InstructionKind, Instruction}
use wihajster.Tac.Validate.Labels.{ValidateError, Labels}

unfoldable pub member : ℕ → List ℕ → Bool
member n [] = false
member n (x ∷ xs) = x == n || member n xs

-- `if !seenStarts[idx] { starts = append(starts, idx) }`: `seenStarts` holds what `starts` holds.
unfoldable pub add_start : ℕ → List ℕ → List ℕ
unfolding member
add_start idx starts = if member idx starts then starts else starts ++ (idx ∷ [])

-- `if i+1 < len(fn.Instructions)`: what follows a terminator.
unfoldable pub add_next : ℕ → ℕ → List ℕ → List ℕ
unfolding add_start
add_next count i starts = if ltb (i + 1) count then add_start (i + 1) starts else starts

-- The starts that the instruction at `i` adds, of `count` instructions.
unfoldable pub instruction_starts :
    Labels → ℕ → ℕ → InstructionKind → Instruction → List ℕ → Outcome ValidateError (List ℕ)
unfolding add_next
instruction_starts defs count i InstructionKind.jmp inst starts = do
  idx ← found (lookup inst.true_label.text defs) (ValidateError.undefined_jump inst.true_label.text)
  ok (add_next count i (add_start idx starts))
instruction_starts defs count i InstructionKind.br inst starts = do
  t ← found (lookup inst.true_label.text defs) (ValidateError.undefined_branch inst.true_label.text)
  f ←
      found (lookup inst.false_label.text defs)
        (ValidateError.undefined_branch inst.false_label.text)
  ok (add_next count i (add_start f (add_start t starts)))
instruction_starts defs count i InstructionKind.ret inst starts = ok (add_next count i starts)
instruction_starts defs count i _ inst starts = ok starts

-- The loop over the instructions, from index `i`.
unfoldable pub collect_starts :
    Labels → ℕ → ℕ → List Instruction → List ℕ → Outcome ValidateError (List ℕ)
unfolding instruction_starts
collect_starts defs count i [] starts = ok starts
collect_starts defs count i (inst ∷ insts) starts = do
  starts' ← instruction_starts defs count i inst.kind inst starts
  collect_starts defs count (i + 1) insts starts'

-- One round of the sort: `x` at the place `i`, exchanged with each smaller element behind it.
unfoldable pub sweep : ℕ → List ℕ → ℕ × List ℕ
sweep x [] = (x, [])
sweep x (y ∷ ys) =
    let (least, rest) = sweep (if ltb y x then y else x) ys in
    (least, (if ltb y x then x else y) ∷ rest)

-- The rounds, on fuel that is the length of the list.
unfoldable pub exchange : ℕ → List ℕ → List ℕ
exchange zero xs = xs
exchange (suc f) [] = []
exchange (suc f) (x ∷ xs) = let (least, rest) = sweep x xs in least ∷ exchange f rest

-- The two loops that put `starts` in order.
unfoldable pub sort_starts : List ℕ → List ℕ
unfolding exchange sweep
sort_starts starts = exchange (length starts) starts

sort_starts_runs : sort_starts (0 ∷ 7 ∷ 3 ∷ 9 ∷ 1 ∷ []) ≡ 0 ∷ 1 ∷ 3 ∷ 7 ∷ 9 ∷ []
unfolding sort_starts
sort_starts_runs = refl
