-- ===== src/Common/Bytes/Decimal.antt =====
-- Decimal numerals: `%d` and `strconv.Itoa` on numbers that are not negative, and
-- `strconv.ParseInt(s, 10, bits)`.
use Prim.Native.Nat.{ℕ, zero, suc, ◌+◌, ◌-◌, ◌*◌, ◌/◌, ◌%◌, ◌^◌, ◌<◌}
use mathlib.Core.Path.{◌≡◌, refl, ◌∙◌, ap}
use mathlib.Core.Bool.{Bool, true, false, ◌&&◌}
use mathlib.Core.Option.{Option, none, some}
use mathlib.Core.List.{List, [], ◌∷◌, ◌++◌}
use mathlib.Core.Logic.{inl, inr}
use native.Mathlib.Omega.{arith}
use wihajster.Common.Tests.{ltb, leb, ◌==◌, if◌then◌else◌, Bool-cases, ltb→lt}

-- The digits of `n`, the highest first; the fuel is above `n`.
unfoldable pub decimal_go : ℕ → ℕ → List ℕ
decimal_go zero n = []
decimal_go (suc f) n =
    let higher = decimal_go f (n / 10) in
    if ltb n 10 then (48 + n) ∷ [] else higher ++ ((48 + n % 10) ∷ [])

unfoldable pub decimal : ℕ → List ℕ
unfolding decimal_go
decimal n = decimal_go (suc n) n

unfoldable pub is_digit : ℕ → Bool
is_digit c = leb b'0' c && leb c b'9'

-- The value of a run of digits behind those already read; `none` at any other byte.
unfoldable pub digits_value : ℕ → List ℕ → Option ℕ
unfolding is_digit
digits_value acc [] = some acc
digits_value acc (c ∷ s) = if is_digit c then digits_value (acc * 10 + (c - 48)) s else none

-- An integer by its sign and magnitude.
abbrev pub Signed : Type 0
Signed = Bool × ℕ

-- `strconv.ParseUint` on what follows the sign, with the range test of `ParseInt`.
unfoldable pub parse_magnitude : ℕ → Bool → List ℕ → Option Signed
unfolding digits_value
parse_magnitude bits negative [] = none
parse_magnitude bits negative (c ∷ s) = elim (digits_value 0 (c ∷ s)) [
  | none ↦ none
  | some n ↦
      if (if negative then leb n (2 ^ (bits - 1)) else ltb n (2 ^ (bits - 1)))
      then some (negative, n)
      else none
]

-- `strconv.ParseInt(s, 10, bits)`.
unfoldable pub parse_int : ℕ → List ℕ → Option Signed
unfolding parse_magnitude
parse_int bits [] = none
parse_int bits (c ∷ s) =
    if c == b'+'
    then parse_magnitude bits false s
    else if c == b'-'
    then parse_magnitude bits true s
    else parse_magnitude bits false (c ∷ s)

decimal_runs : decimal 1070 ≡ 49 ∷ 48 ∷ 55 ∷ 48 ∷ []
unfolding decimal
decimal_runs = refl

digits_value-append :
    (acc : ℕ) (s t : List ℕ) (v : ℕ)
    → digits_value acc s ≡ some v
    → digits_value acc (s ++ t) ≡ digits_value v t
unfolding digits_value
digits_value-append acc [] t v h = ground arith
digits_value-append acc (c ∷ s) t v h =
    ground (arith, digits_value-append (acc * 10 + (c - 48)) s t v)

last_digit : (acc d : ℕ) → d < 10 → digits_value acc ((48 + d) ∷ []) ≡ some (acc * 10 + d)
unfolding digits_value
last_digit acc d h = ground arith

digits_value-decimal_go : (f n : ℕ) → n < f → digits_value 0 (decimal_go f n) ≡ some n
unfolding decimal_go
digits_value-decimal_go zero n h = elim h [ ]
digits_value-decimal_go (suc f) n h = elim (Bool-cases (ltb n 10)) [
  | inl e ↦ rw e (last_digit 0 n (ltb→lt n 10 e) ∙ ap some (omega arith))
  | inr e ↦ rw e (
      digits_value-append 0 _ _ (n / 10) (digits_value-decimal_go f (n / 10) (ground arith))
      ∙ (last_digit (n / 10) (n % 10) (omega arith) ∙ ap some (omega arith)))
]

-- Reading a numeral back gives the number.
pub digits_value-decimal : (n : ℕ) → digits_value 0 (decimal n) ≡ some n
unfolding decimal
digits_value-decimal n = digits_value-decimal_go (suc n) n (omega arith)

-- Two numbers with one numeral are equal.
pub decimal-injective : (m n : ℕ) → decimal m ≡ decimal n → m ≡ n
decimal-injective m n e = cc (digits_value-decimal m, digits_value-decimal n, ap (digits_value 0) e)
