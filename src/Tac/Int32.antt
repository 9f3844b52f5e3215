-- ===== src/Tac/Int32.antt =====
-- The `int32` arithmetic of the evaluator. An `int32` is its bit pattern, a number below 2^32,
-- and wraps round as Go's does.
pub mod Bounds
use Prim.Native.Nat.{bit_and, bit_or, bit_xor}
use mathlib.Core.Bool.{xor}
use wihajster.Common.{
  ℕ, ◌+◌, ◌-◌, ◌*◌, ◌/◌, ◌%◌, ◌^◌, ◌<◌, Bool, true, false, ltb, leb, ◌==◌, if◌then◌else◌, ◌≡◌, refl,
}
use wihajster.Common.Bytes.{Signed}

abbrev pub word : ℕ
word = 0x1_0000_0000

abbrev pub sign_bit : ℕ
sign_bit = 0x8000_0000

abbrev pub IsI32 : ℕ → Type 0
IsI32 a = a < word

unfoldable pub is_negative : ℕ → Bool
is_negative a = leb sign_bit a

unfoldable pub magnitude : ℕ → ℕ
unfolding is_negative
magnitude a = if is_negative a then word - a else a

-- The pattern of an integer given by its sign and magnitude.
unfoldable pub of_signed : Bool → ℕ → ℕ
of_signed negative m = if negative then (word - m % word) % word else m % word

unfoldable pub of_parsed : Signed → ℕ
unfolding of_signed
of_parsed (negative, m) = of_signed negative m

unfoldable pub add : ℕ → ℕ → ℕ
add a b = (a + b) % word

unfoldable pub sub : ℕ → ℕ → ℕ
sub a b = (a + (word - b)) % word

unfoldable pub mul : ℕ → ℕ → ℕ
mul a b = a * b % word

-- `-a` and `^a`.
unfoldable pub neg : ℕ → ℕ
neg a = (word - a) % word

unfoldable pub complement : ℕ → ℕ
complement a = word - 1 - a

-- `a / b` and `a % b`, which cut towards zero; the caller has seen that `b` is not 0.
unfoldable pub div : ℕ → ℕ → ℕ
unfolding of_signed magnitude is_negative xor
div a b = of_signed (xor (is_negative a) (is_negative b)) (magnitude a / magnitude b)

unfoldable pub rem : ℕ → ℕ → ℕ
unfolding of_signed magnitude is_negative xor
rem a b = of_signed (is_negative a) (magnitude a % magnitude b)

-- `a & b`, `a | b` and `a ^ b`; the patterns have 32 bits.
unfoldable pub and : ℕ → ℕ → ℕ
and a b = bit_and a b % word

unfoldable pub or : ℕ → ℕ → ℕ
or a b = bit_or a b % word

unfoldable pub xor_bits : ℕ → ℕ → ℕ
xor_bits a b = bit_xor a b % word

-- `a << uint32(b)`: every bit is shifted out from 32 on.
unfoldable pub shl : ℕ → ℕ → ℕ
shl a b = if leb 32 b then 0 else a * 2 ^ b % word

unfoldable pub shifted_down : ℕ → ℕ → ℕ
shifted_down a b = if leb 32 b then 0 else a / 2 ^ b

-- `a >> uint32(b)`, which fills with the sign.
unfoldable pub shr : ℕ → ℕ → ℕ
unfolding is_negative complement shifted_down
shr a b = if is_negative a then complement (shifted_down (complement a) b) else shifted_down a b

-- `a < b` and `a <= b` on signed integers: the patterns with the sign bit turned.
unfoldable pub bias : ℕ → ℕ
bias a = (a + sign_bit) % word

unfoldable pub lt : ℕ → ℕ → Bool
unfolding bias
lt a b = ltb (bias a) (bias b)

unfoldable pub le : ℕ → ℕ → Bool
unfolding bias
le a b = leb (bias a) (bias b)

div_runs : div (neg 7) 2 ≡ neg 3
unfolding div neg
div_runs = refl

div_wraps : div sign_bit (neg 1) ≡ sign_bit
unfolding div neg
div_wraps = refl

rem_runs : rem (neg 7) 2 ≡ neg 1
unfolding rem neg
rem_runs = refl

shr_runs : shr (neg 8) 1 ≡ neg 4
unfolding shr neg
shr_runs = refl

lt_runs : lt (neg 1) 0 ≡ true
unfolding lt neg
lt_runs = refl
