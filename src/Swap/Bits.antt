-- ===== src/Swap/Bits.antt =====
-- Exclusive or and the masks 0 and 2 ^ 64 - 1 at variables: one law for the lowest digit, then
-- induction on the number of digits.
use Prim.Native.Nat.{bit_and, bit_xor, differ, digits, min, bit_and-bitwise, bit_xor-bitwise}
use omwj.Prelude.{ℕ, zero, suc, ◌+◌, ◌-◌, ◌*◌, ◌/◌, ◌%◌, ◌^◌, ◌≤◌, ◌<◌, ◌≡◌, refl, ◌∙◌, arith}
use native.Mathlib.Nat.{pow-suc, one-le-pow, le_refl}

module _ (z : ℕ → ℕ) (op : ℕ → ℕ → ℕ) where
  -- Any two amounts of fuel that cover the first number give the same digits.
  enough : (d e i j : ℕ) → d ≤ i → d ≤ j → digits z op i d e ≡ digits z op j d e
  enough zero e zero zero hi hj = refl
  enough zero e zero (suc j) hi hj = refl
  enough zero e (suc i) zero hi hj = refl
  enough zero e (suc i) (suc j) hi hj = refl
  enough (suc d) e zero j hi hj = absurd (omega (arith, hi))
  enough (suc d) e (suc i) zero hi hj = absurd (omega (arith, hj))
  enough (suc d) e (suc i) (suc j) hi hj =
      let half : suc d / 2 ≤ d = omega arith in
      rw (enough (suc d / 2) (e / 2) i j (omega (arith, hi)) (omega (arith, hj)))

pub bit_xor_step : (d e : ℕ) → bit_xor d e ≡ differ (d % 2) (e % 2) + 2 * bit_xor (d / 2) (e / 2)
bit_xor_step zero e = simp bit_xor-bitwise (omega arith)
bit_xor_step (suc d) e =
    let same = enough (λ rest. rest) differ (suc d / 2) (e / 2) d (suc d / 2) (omega arith) in
    simp bit_xor-bitwise (omega (arith, same (le_refl _)))

bit_and_step : (d e : ℕ) → bit_and d e ≡ min (d % 2) (e % 2) + 2 * bit_and (d / 2) (e / 2)
bit_and_step zero e = simp bit_and-bitwise (omega arith)
bit_and_step (suc d) e =
    let same = enough (λ rest. 0) min (suc d / 2) (e / 2) d (suc d / 2) (omega arith) in
    simp bit_and-bitwise (omega (arith, same (le_refl _)))

-- The table of the exclusive or of two digits.
differ_digits :
    (d e : ℕ)
    → d < 2
    → e < 2
    → (differ d e < 2) × (differ d (differ d e) ≡ e) × (differ e (differ d e) ≡ d)
differ_digits zero zero h k = omega arith
differ_digits zero (suc zero) h k = omega arith
differ_digits (suc zero) zero h k = omega arith
differ_digits (suc zero) (suc zero) h k = omega arith
differ_digits (suc (suc d)) e h k = absurd (omega arith)
differ_digits d (suc (suc e)) h k = absurd (omega arith)

-- Exclusive or with the difference turns one word into the other.
pub bit_xor_cancel :
    (k x y : ℕ)
    → x < 2 ^ k
    → y < 2 ^ k
    → (bit_xor x y < 2 ^ k) × (bit_xor x (bit_xor x y) ≡ y) × (bit_xor y (bit_xor x y) ≡ x)
bit_xor_cancel zero zero zero h k = omega arith
bit_xor_cancel zero (suc x) y h k = absurd (omega arith)
bit_xor_cancel zero x (suc y) h k = absurd (omega arith)
bit_xor_cancel (suc k) x y hx hy =
    let digits_law = differ_digits (x % 2) (y % 2) (omega arith) (omega arith) in
    let power = pow-suc 2 k in
    let ih = bit_xor_cancel k (x / 2) (y / 2) (omega arith) (omega arith) in
    let z = bit_xor x y in
    let step = bit_xor_step x y in
    let half : z / 2 ≡ bit_xor (x / 2) (y / 2) = omega arith in
    let low : z % 2 ≡ differ (x % 2) (y % 2) = omega arith in
    (
      omega arith,
      rw (bit_xor_step x (bit_xor x y), half, low) (omega arith),
      rw (bit_xor_step y (bit_xor x y), half, low) (omega arith),
    )

pub bit_and-zero : (k a : ℕ) → a < 2 ^ k → bit_and a 0 ≡ 0
bit_and-zero zero zero h = refl
bit_and-zero zero (suc a) h = absurd (omega arith)
bit_and-zero (suc k) a h =
    omega
      (arith, bit_and_step a 0, pow-suc 2 k, bit_and-zero k (a / 2) (omega (arith, pow-suc 2 k)))

pub bit_and_ones : (k a : ℕ) → a < 2 ^ k → bit_and a (2 ^ k - 1) ≡ a
bit_and_ones zero zero h = refl
bit_and_ones zero (suc a) h = absurd (omega arith)
bit_and_ones (suc k) a h =
    let power = pow-suc 2 k in
    let positive = one-le-pow k 2 in
    let ih = bit_and_ones k (a / 2) (omega arith) in
    let half : (2 ^ suc k - 1) / 2 ≡ 2 ^ k - 1 = omega arith in
    let low : (2 ^ suc k - 1) % 2 ≡ 1 = omega arith in
    bit_and_step a (2 ^ suc k - 1) ∙ rw (half, low, ih) (omega arith)

pub bit_xor-zero : (k a : ℕ) → a < 2 ^ k → bit_xor a 0 ≡ a
bit_xor-zero zero zero h = refl
bit_xor-zero zero (suc a) h = absurd (omega arith)
bit_xor-zero (suc k) a h =
    let power = pow-suc 2 k in
    let ih = bit_xor-zero k (a / 2) (omega arith) in
    let digit = differ_digits 0 (a % 2) (omega arith) (omega arith) in
    omega (arith, bit_xor_step a 0, differ_right (a % 2))
  where
    differ_right : (d : ℕ) → differ d 0 ≡ d
    differ_right zero = refl
    differ_right (suc d) = refl
