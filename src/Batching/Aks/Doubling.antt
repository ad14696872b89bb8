-- ===== src/Batching/Aks/Doubling.antt =====
-- aks_pow2_lt gives the greatest power of two below its argument.
use native.Mathlib.Nat.{pow-suc, mod-eq_of_lt}
use omwj.Prelude.{ℕ, zero, suc, ◌*◌, ◌/◌, ◌%◌, ◌^◌, ◌≤◌, ◌<◌, ◌≡◌, refl, ◌∙◌, inl, inr, arith}
use omwj.Prelude.Tests.{ltb, Bool-cases}
use omwj.Swap.{modulus64}
use omwj.Batching.Aks.{double_to, aks_pow2_lt}

regroup : (a b : ℕ) → a * (b * 2) ≡ a * 2 * b
regroup a b = grind arith

double_to_lem :
    (fuel i n : ℕ)
    → n ≤ 2 ^ i * 2 ^ fuel
    → n < 1073741824
    → 2 ^ i < 2 * n
    → (k : ℕ) × (double_to fuel (2 ^ i) n ≡ 2 ^ k) × (n ≤ 2 ^ k) × (2 ^ k < 2 * n)
unfolding double_to
double_to_lem zero i n reach small low = (i, refl, omega (arith, reach), low)
double_to_lem (suc fuel) i n reach small low = elim (Bool-cases (ltb (2 ^ i) n)) [
  | inl more ↦
      let below : 2 ^ i < n = ground (arith, more) in
      let next : 2 ^ i * 2 % modulus64 ≡ 2 ^ suc i =
        mod-eq_of_lt (omega (arith, below, small)) ∙ omega (arith, pow-suc 2 i) in
      let twice = pow-suc 2 i in
      let reach' : n ≤ 2 ^ suc i * 2 ^ fuel =
        rw (pow-suc 2 i) (rw (pow-suc 2 fuel, regroup (2 ^ i) (2 ^ fuel)) at reach) in
      let rest = double_to_lem fuel (suc i) n reach' small (omega (arith, twice, below)) in
      rw (more, double_to) (rw (next, double_to) rest)
  | inr done ↦ rw (done, double_to) (i, refl, ground (arith, done), low)
]

pub aks_pow2_lt_lem :
    (n : ℕ)
    → 3 ≤ n
    → n < 1073741824
    → (k : ℕ) × (aks_pow2_lt n ≡ 2 * 2 ^ k) × (2 * 2 ^ k < n) × (n ≤ 2 * (2 * 2 ^ k))
unfolding aks_pow2_lt
aks_pow2_lt_lem n large small =
    let (k, run, high, low) =
      double_to_lem 64 0 n (omega (arith, small)) small (omega (arith, large)) in
    halve k run high low
  where
    halve :
        (k : ℕ)
        → double_to 64 1 n ≡ 2 ^ k
        → n ≤ 2 ^ k
        → 2 ^ k < 2 * n
        → (k : ℕ) × (double_to 64 1 n / 2 ≡ 2 * 2 ^ k) × (2 * 2 ^ k < n) × (n ≤ 2 * (2 * 2 ^ k))
    halve zero run high low = absurd (omega (arith, high, large))
    halve (suc zero) run high low = absurd (omega (arith, high, large))
    halve (suc (suc k)) run high low =
        let p1 = pow-suc 2 k in
        let p2 = pow-suc 2 (suc k) in
        (k, omega (arith, run, p1, p2), omega (arith, low, p1, p2), omega (arith, high, p1, p2))
