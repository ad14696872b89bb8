-- ===== src/Prelude/Word.antt =====
-- `int32_t` as a number read modulo 2 ^ 32: a value and its sum with 2 ^ 32 are one word, a
-- negative value is its two's complement pattern. Every operation wraps, every test reads its
-- arguments through the wrap.
use Prim.Native.Nat.{ℕ, ◌+◌, ◌-◌, ◌*◌, ◌/◌, ◌%◌, ◌<◌}
use mathlib.Core.Path.{◌≡◌, refl}
use mathlib.Core.Bool.{Bool, true, false}
use native.Mathlib.Omega.{arith}
use omwj.Prelude.Tests.{ltb, leb, ◌==◌, if◌then◌else◌}

abbrev pub modulus : ℕ
modulus = 4294967296

abbrev pub sign_bit : ℕ
sign_bit = 2147483648

-- INT32_MAX, which is also NULL_VALUE.
abbrev pub int32_max : ℕ
int32_max = 2147483647

-- The pattern of -1.
abbrev pub minus_one : ℕ
minus_one = 4294967295

unfoldable pub add32 : ℕ → ℕ → ℕ
add32 a b = (a + b) % modulus

unfoldable pub sub32 : ℕ → ℕ → ℕ
sub32 a b = (a + (modulus - b % modulus)) % modulus

unfoldable pub mul32 : ℕ → ℕ → ℕ
mul32 a b = (a * b) % modulus

unfoldable pub neg32 : ℕ → ℕ
unfolding sub32
neg32 a = sub32 0 a

-- The sign's order on patterns is the order of these numbers.
unfoldable pub skey : ℕ → ℕ
skey a = (a + sign_bit) % modulus

unfoldable pub lt32 : ℕ → ℕ → Bool
unfolding skey
lt32 a b = ltb (skey a) (skey b)

unfoldable pub eq32 : ℕ → ℕ → Bool
eq32 a b = (a % modulus) == (b % modulus)

-- A C comparison as the number 0 or 1.
abbrev pub flag : Bool → ℕ
flag b = if b then 1 else 0

-- `r < 0` and `r > 0` of an int.
unfoldable pub is_neg : ℕ → Bool
is_neg r = leb sign_bit (r % modulus)

unfoldable pub is_pos : ℕ → Bool
unfolding is_neg
is_pos r = if is_neg r then false else ltb 0 (r % modulus)

-- The magnitude of a negative pattern.
magnitude : ℕ → ℕ
magnitude a = if leb sign_bit (a % modulus) then modulus - a % modulus else a % modulus

-- `a / b` of C: the quotient of the magnitudes, rounded to zero.
unfoldable pub div32 : ℕ → ℕ → ℕ
unfolding magnitude is_neg sub32 neg32
div32 a b =
    let q = magnitude a / magnitude b in
    if is_neg a
    then (if is_neg b then q % modulus else neg32 q)
    else (if is_neg b then neg32 q else q % modulus)

-- The conversion to int16_t and back to int.
unfoldable pub int16 : ℕ → ℕ
int16 a = let low = a % 65536 in if ltb low 32768 then low else low + 4294901760

pub skey-lt : (a : ℕ) → skey a < modulus
unfolding skey
skey-lt a = omega arith

-- Equal words have equal keys, and only they.
pub eq32-skey : (a b : ℕ) → eq32 a b ≡ true → skey a ≡ skey b
unfolding eq32 skey
eq32-skey a b h = ground arith

pub skey-eq32 : (a b : ℕ) → skey a ≡ skey b → eq32 a b ≡ true
unfolding eq32 skey
skey-eq32 a b h = ground arith

pub lt32-skey : (a b : ℕ) → lt32 a b ≡ ltb (skey a) (skey b)
unfolding lt32
lt32-skey a b = refl

pub eq32_test : (a b : ℕ) → eq32 a b ≡ (skey a == skey b)
unfolding eq32 skey
eq32_test a b = ground arith

-- Flags are compared as they are.
pub eq32-flag : (p q : Bool) → eq32 (flag p) (flag q) ≡ (flag p == flag q)
unfolding eq32
eq32-flag p q = ground arith
