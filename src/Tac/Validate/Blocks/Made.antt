-- ===== src/Tac/Validate/Blocks/Made.antt =====
-- The first loop over the starts of `collectIRBlocks`, where the starts cover the terminators.
use wihajster.Common.{
  ℕ, zero, suc, ◌+◌, ◌-◌, ◌≤◌, ◌<◌, true, false, List, [], ◌∷◌, length, get_elem?, take, drop, ltb,
  ◌≡◌, ◌⊎◌, refl, ◌∙◌, arith, All, inl, inr, some,
}
use wihajster.Common.Outcome.{ok}
use wihajster.Tac.Types.{InstructionKind, Instruction}
use wihajster.Tac.Code.{is_jump}
use wihajster.Tac.Validate.Sorted.{occurrences, Ascending}
use wihajster.Tac.Validate.Collects.{Covered}
use wihajster.Tac.Validate.Blocks.{
  IrBlock, is_terminator, check_inside, make_block, next_start, make_blocks,
}

pub get_elem?-some :
    {A : Type 0} (xs : List A) (i : ℕ) → i < length xs → (x : A) × (get_elem? xs i ≡ some x)
get_elem?-some [] i h = absurd (omega (arith, h))
get_elem?-some (x ∷ xs) zero h = (x, refl)
get_elem?-some (x ∷ xs) (suc i) h = get_elem?-some xs i (omega (arith, h))

pub is_terminator-is_jump : (k : InstructionKind) → is_terminator k ≡ is_jump k
is_terminator-is_jump InstructionKind.label = refl
is_terminator-is_jump _ = refl

-- The starts rise from the first one.
abbrev pub Rising : List ℕ → Type 0
Rising [] = Unit
Rising (x ∷ xs) = All (λ y. x < y) xs × Rising xs

pub Ascending-Rising : (xs : List ℕ) → Ascending xs → ((n : ℕ) → occurrences n xs ≤ 1) → Rising xs
Ascending-Rising [] h k = tt
Ascending-Rising (x ∷ xs) (h, hs) k =
    (strict xs h (ground (arith, k x)), Ascending-Rising xs hs (λ n. omega (arith, k n)))
  where
    strict : (ys : List ℕ) → All (λ y. x ≤ y) ys → occurrences x ys ≡ 0 → All (λ y. x < y) ys
    strict [] h z = tt
    strict (y ∷ ys) (h, hs) z = (ground (arith, h, z), strict ys hs (ground (arith, z)))

-- No instruction but the last is a terminator.
abbrev Quiet : List Instruction → Type 0
Quiet [] = Unit
Quiet (inst ∷ []) = Unit
Quiet (inst ∷ next ∷ insts) = (is_jump inst.kind ≡ false) × Quiet (next ∷ insts)

check_inside-Quiet :
    (start : ℕ) (insts : List Instruction) → Quiet insts → check_inside start insts ≡ ok tt
unfolding check_inside
check_inside-Quiet start [] q = refl
check_inside-Quiet start (inst ∷ []) q = refl
check_inside-Quiet start (inst ∷ next ∷ insts) (q, qs) =
    rw (is_terminator-is_jump inst.kind, q) (check_inside-Quiet start (next ∷ insts) qs)

Covered-drop :
    (n i : ℕ) (insts : List Instruction) (starts : List ℕ)
    → Covered i insts starts
    → Covered (i + n) (drop n insts) starts
Covered-drop zero i insts starts c = let e : i + 0 ≡ i = omega arith in rw e c
Covered-drop (suc n) i [] starts c = tt
Covered-drop (suc n) i (inst ∷ []) starts c = Covered-drop_nil n (i + suc n) starts
  where
    Covered-drop_nil : (n i : ℕ) (starts : List ℕ) → Covered i (drop n []) starts
    Covered-drop_nil zero i starts = tt
    Covered-drop_nil (suc n) i starts = tt
Covered-drop (suc n) i (inst ∷ next ∷ insts) starts (_, c) =
    let e : i + suc n ≡ i + 1 + n = omega arith in
    rw e (Covered-drop n (i + 1) (next ∷ insts) starts c)

-- Between two starts there is no terminator but right before the second.
Quiet-take :
    (n i : ℕ) (insts : List Instruction) (starts : List ℕ)
    → Covered i insts starts
    → ((m : ℕ) → i < m → m < i + n → occurrences m starts ≡ 0)
    → Quiet (take n insts)
Quiet-take zero i insts starts c free = tt
Quiet-take (suc n) i [] starts c free = tt
Quiet-take (suc zero) i (inst ∷ insts) starts c free = tt
Quiet-take (suc (suc n)) i (inst ∷ []) starts c free = tt
Quiet-take (suc (suc n)) i (inst ∷ next ∷ insts) starts (o, c) free = (
  quiet o,
  Quiet-take (suc n) (i + 1) (next ∷ insts) starts c
      (λ m h k. free m (omega (arith, h)) (omega (arith, k))),
)
  where
    quiet :
        (is_jump inst.kind ≡ false) ⊎ (0 < occurrences (i + 1) starts) → is_jump inst.kind ≡ false
    quiet (inl e) = e
    quiet (inr o) = absurd (omega (arith, o, free (i + 1) (omega arith) (omega arith)))

-- Each block has the number, the start and the terminator of its place.
abbrev pub Made : List Instruction → ℕ → List ℕ → List IrBlock → Type 0
Made insts id [] [] = Unit
Made insts id (start ∷ starts) (b ∷ bs) =
    (b.id ≡ id)
    × (b.start ≡ start)
    × ((last : Instruction) × (get_elem? insts (next_start (length insts) starts - 1) ≡ some last)
        × (b.terminator ≡ last.kind))
    × Made insts (id + 1) starts bs
Made insts id _ _ = ⊥

pub next_start-after :
    (count start : ℕ) (starts : List ℕ)
    → start < count
    → All (λ s. s < count) starts
    → All (λ s. start < s) starts
    → (start < next_start count starts) × (next_start count starts ≤ count)
next_start-after count start [] h k r = (h, omega arith)
next_start-after count start (s ∷ starts) h (k, _) (r, _) = (r, omega (arith, k))

next_start-free :
    (count start m : ℕ) (starts : List ℕ)
    → Rising starts
    → start < m
    → m < next_start count starts
    → occurrences m (start ∷ starts) ≡ 0
next_start-free count start m [] r h k = ground (arith, h)
next_start-free count start m (s ∷ starts) (r, rs) h k = ground (arith, h, k, above starts r)
  where
    above : (ys : List ℕ) → All (λ y. s < y) ys → occurrences m ys ≡ 0
    above [] h = refl
    above (y ∷ ys) (h, hs) = ground (arith, h, k, above ys hs)

make_block-Made :
    (insts : List Instruction) (id start end : ℕ)
    → start < end
    → end ≤ length insts
    → Quiet (take (end - start) (drop start insts))
    → (b : IrBlock) × (make_block insts id start end ≡ ok b)
      × (b.id ≡ id)
      × (b.start ≡ start)
      × ((last : Instruction) × (get_elem? insts (end - 1) ≡ some last)
          × (b.terminator ≡ last.kind))
unfolding make_block
make_block-Made insts id start end h k q =
    let (first, e) = get_elem?-some insts start (omega (arith, h, k)) in
    let (last, e') = get_elem?-some insts (end - 1) (omega (arith, h, k)) in
    let t : ltb start end ≡ true = ground arith in
    rw (t, e, e', check_inside-Quiet start (take (end - start) (drop start insts)) q)
      (_, refl, refl, refl, (last, refl, refl))

-- From the first start on, these are all the starts.
abbrev pub Rest : List ℕ → List ℕ → Type 0
Rest all [] = Unit
Rest all (s ∷ ss) = (m : ℕ) → s ≤ m → occurrences m all ≡ occurrences m (s ∷ ss)

Rest-tail :
    (all : List ℕ) (start : ℕ) (starts : List ℕ)
    → All (λ y. start < y) starts
    → Rest all (start ∷ starts)
    → Rest all starts
Rest-tail all start [] r same = tt
Rest-tail all start (s ∷ ss) (r, _) same = λ m h. ground (arith, same m, h, r)

pub make_blocks-Made :
    (insts : List Instruction) (all : List ℕ) (id : ℕ) (starts : List ℕ)
    → Covered 0 insts all
    → All (λ s. s < length insts) starts
    → Rising starts
    → Rest all starts
    → (blocks : List IrBlock) × (make_blocks insts id starts ≡ ok blocks)
      × Made insts id starts blocks
unfolding make_blocks
make_blocks-Made insts all id [] c below rising same = ([], refl, tt)
make_blocks-Made insts all id (start ∷ starts) c (b, bs) (r, rs) same =
    let end : ℕ = next_start (length insts) starts in
    let (after, within) = next_start-after (length insts) start starts b bs r in
    let quiet =
      Quiet-take (end - start) start (drop start insts) all
        (let e : 0 + start ≡ start = omega arith in rw e at (Covered-drop start 0 insts all c))
        (λ m h k.
          same m (omega (arith, h))
          ∙ next_start-free (length insts) start m starts rs h (omega (arith, k, after))) in
    let (block, e, i, s, t) = make_block-Made insts id start end after within quiet in
    let (blocks, e', made) =
      make_blocks-Made insts all (id + 1) starts c bs rs (Rest-tail all start starts r same) in
    (block ∷ blocks, rw (e, e') refl, (i, s, t, made))
