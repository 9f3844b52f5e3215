-- ===== src/Tac/Int32/Bounds.antt =====
-- The range of the operations on `int32` patterns.
use wihajster.Common.{ℕ, Bool, true, false, leb, arith, if_both}
use wihajster.Common.Bytes.{Signed}
use wihajster.Tac.Int32.{
  IsI32, of_signed, of_parsed, add, sub, mul, neg, complement, div, rem, and, or, xor_bits, shl,
  shr, shifted_down, is_negative,
}

pub of_signed-IsI32 : (b : Bool) (m : ℕ) → IsI32 (of_signed b m)
unfolding of_signed
of_signed-IsI32 true m = omega arith
of_signed-IsI32 false m = omega arith

pub of_parsed-IsI32 : (n : Signed) → IsI32 (of_parsed n)
unfolding of_parsed
of_parsed-IsI32 (b, m) = of_signed-IsI32 b m

pub add-IsI32 : (a b : ℕ) → IsI32 (add a b)
unfolding add
add-IsI32 a b = omega arith

pub sub-IsI32 : (a b : ℕ) → IsI32 (sub a b)
unfolding sub
sub-IsI32 a b = omega arith

pub mul-IsI32 : (a b : ℕ) → IsI32 (mul a b)
unfolding mul
mul-IsI32 a b = omega arith

pub neg-IsI32 : (a : ℕ) → IsI32 (neg a)
unfolding neg
neg-IsI32 a = omega arith

pub complement-IsI32 : (a : ℕ) → IsI32 (complement a)
unfolding complement
complement-IsI32 a = omega arith

pub div-IsI32 : (a b : ℕ) → IsI32 (div a b)
unfolding div
div-IsI32 a b = of_signed-IsI32 _ _

pub rem-IsI32 : (a b : ℕ) → IsI32 (rem a b)
unfolding rem
rem-IsI32 a b = of_signed-IsI32 _ _

pub and-IsI32 : (a b : ℕ) → IsI32 (and a b)
unfolding and
and-IsI32 a b = omega arith

pub or-IsI32 : (a b : ℕ) → IsI32 (or a b)
unfolding or
or-IsI32 a b = omega arith

pub xor_bits-IsI32 : (a b : ℕ) → IsI32 (xor_bits a b)
unfolding xor_bits
xor_bits-IsI32 a b = omega arith

pub shl-IsI32 : (a b : ℕ) → IsI32 (shl a b)
unfolding shl
shl-IsI32 a b = if_both IsI32 (leb 32 b) (omega arith) (omega arith)

shifted_down-IsI32 : (a b : ℕ) → IsI32 a → IsI32 (shifted_down a b)
unfolding shifted_down
shifted_down-IsI32 a b h = if_both IsI32 (leb 32 b) (omega arith) (omega arith)

pub shr-IsI32 : (a b : ℕ) → IsI32 a → IsI32 (shr a b)
unfolding shr
shr-IsI32 a b h = if_both IsI32 (is_negative a) (complement-IsI32 _) (shifted_down-IsI32 a b h)
