-- ===== src/Tac/Validate/Sorted.antt =====
-- The two loops of `collectIRBlocks` that put the starts in order.
use wihajster.Common.{
  ℕ, zero, suc, ◌+◌, ◌≤◌, List, [], ◌∷◌, length, ltb, ◌==◌, if◌then◌else◌, ◌≡◌, refl, arith, All,
  Bool-cases, inl, inr,
}
use wihajster.Tac.Validate.Starts.{sweep, exchange, sort_starts}

-- How often a number stands in a list.
abbrev pub occurrences : ℕ → List ℕ → ℕ
occurrences n [] = 0
occurrences n (x ∷ xs) = (if x == n then 1 else 0) + occurrences n xs

abbrev pub Ascending : List ℕ → Type 0
Ascending [] = Unit
Ascending (x ∷ xs) = All (λ y. x ≤ y) xs × Ascending xs

length-sweep : (x : ℕ) (ys : List ℕ) → length (sweep x ys).1 ≡ length ys
unfolding sweep
length-sweep x [] = refl
length-sweep x (y ∷ ys) = omega (arith, length-sweep (if ltb y x then y else x) ys)

occurrences-sweep :
    (n x : ℕ) (ys : List ℕ)
    → occurrences n ((sweep x ys).0 ∷ (sweep x ys).1) ≡ occurrences n (x ∷ ys)
unfolding sweep
occurrences-sweep n x [] = refl
occurrences-sweep n x (y ∷ ys) = elim (Bool-cases (ltb y x)) [
  | inl e ↦ rw e (omega (arith, occurrences-sweep n y ys))
  | inr e ↦ rw e (omega (arith, occurrences-sweep n x ys))
]

-- The first of a sweep is no more than any other.
sweep-least :
    (m x : ℕ) (ys : List ℕ) → m ≡ (sweep x ys).0 → (m ≤ x) × All (λ y. m ≤ y) (sweep x ys).1
unfolding sweep
sweep-least m x [] e = (omega (arith, e), tt)
sweep-least m x (y ∷ ys) e =
    let (h, k) = sweep-least m (if ltb y x then y else x) ys e in
    (ground (arith, h), (ground (arith, h), k))

sweep-All :
    (P : ℕ → Type 0) (x : ℕ) (ys : List ℕ)
    → P x
    → All P ys
    → P (sweep x ys).0 × All P (sweep x ys).1
unfolding sweep
sweep-All P x [] h k = (h, tt)
sweep-All P x (y ∷ ys) h (p, k) = elim (Bool-cases (ltb y x)) [
  | inl e ↦ rw e (let (a, b) = sweep-All P y ys p k in (a, (h, b)))
  | inr e ↦ rw e (let (a, b) = sweep-All P x ys h k in (a, (p, b)))
]

exchange-All : (P : ℕ → Type 0) (f : ℕ) (xs : List ℕ) → All P xs → All P (exchange f xs)
unfolding exchange
exchange-All P zero xs h = h
exchange-All P (suc f) [] h = tt
exchange-All P (suc f) (x ∷ xs) (h, k) =
    let (a, b) = sweep-All P x xs h k in (a, exchange-All P f (sweep x xs).1 b)

occurrences-exchange : (n f : ℕ) (xs : List ℕ) → occurrences n (exchange f xs) ≡ occurrences n xs
unfolding exchange
occurrences-exchange n zero xs = refl
occurrences-exchange n (suc f) [] = refl
occurrences-exchange n (suc f) (x ∷ xs) =
    omega (arith, occurrences-exchange n f (sweep x xs).1, occurrences-sweep n x xs)

exchange-Ascending : (f : ℕ) (xs : List ℕ) → length xs ≤ f → Ascending (exchange f xs)
unfolding exchange
exchange-Ascending zero [] h = tt
exchange-Ascending zero (x ∷ xs) h = absurd (omega (arith, h))
exchange-Ascending (suc f) [] h = tt
exchange-Ascending (suc f) (x ∷ xs) h = (
  exchange-All (λ y. (sweep x xs).0 ≤ y) f (sweep x xs).1 (sweep-least _ x xs refl).1,
  exchange-Ascending f (sweep x xs).1 (omega (arith, h, length-sweep x xs)),
)

-- The two loops return the starts in ascending order, each as often as before.
pub sort_starts-Ascending :
    (starts : List ℕ)
    → Ascending (sort_starts starts)
      × ((n : ℕ) → occurrences n (sort_starts starts) ≡ occurrences n starts)
unfolding sort_starts
sort_starts-Ascending starts = (
  exchange-Ascending (length starts) starts (omega arith),
  λ n. occurrences-exchange n (length starts) starts,
)

pub sort_starts-All : (P : ℕ → Type 0) (starts : List ℕ) → All P starts → All P (sort_starts starts)
unfolding sort_starts
sort_starts-All P starts h = exchange-All P (length starts) starts h
