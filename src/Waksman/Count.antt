-- ===== src/Waksman/Count.antt =====
-- The bits that bitstream_init reserves are as many as the network reads.
use native.Mathlib.Nat.{pow-suc, one-le-pow, le_refl, mod-eq_of_lt, pow-le-pow_right}
use omwj.Prelude.{
  ℕ, zero, suc, ◌+◌, ◌-◌, ◌*◌, ◌/◌, ◌%◌, ◌^◌, ◌≤◌, ◌<◌, ◌≡◌, refl, ap, ◌∙◌, true, arith,
}
use omwj.Prelude.Tests.{leb}
use omwj.Swap.{modulus64}
use omwj.Waksman.{count_switches, num_switches}
use omwj.Waksman.Network.{switch_total}

switch_total_mono : (j k : ℕ) → switch_total k ≤ switch_total (j + k)
switch_total_mono zero k = let e : zero + k ≡ k = omega arith in rw e (le_refl _)
switch_total_mono (suc j) k =
    let e : suc j + k ≡ suc (j + k) = omega arith in rw e (omega (arith, switch_total_mono j k))

-- No sum of the loop reaches 2 ^ 64 up to 2 ^ 57 elements.
switch_total_bound : (k : ℕ) → k < 58 → switch_total k < modulus64
switch_total_bound k h =
    let e : 57 - k + k ≡ 57 = omega arith in
    let top : switch_total 57 < modulus64 = omega arith in
    omega (arith, switch_total_mono (57 - k) k, rw e at (switch_total_mono (57 - k) k))

grow : (g p : ℕ) → 1 ≤ p → g ≤ g * p
grow g (suc p) h = grind arith
grow g zero h = absurd (omega arith)

round_total : (k : ℕ) → (2 ^ suc k - 1) + 2 * switch_total k ≡ switch_total (suc k)
round_total k = omega (arith, pow-suc 2 k, one-le-pow k 2)

-- One round: the switches of all groups at this size, then twice as many groups of half the size.
count_step :
    (fuel k total groups : ℕ)
    → total + groups * switch_total (suc k) < modulus64
    → groups * 2 < modulus64
    → count_switches (suc fuel) (2 ^ suc k) total groups
      ≡ count_switches fuel (2 ^ k) (total + groups * (2 ^ suc k - 1)) (groups * 2)
unfolding count_switches
count_step fuel k total groups h g =
    let power = pow-suc 2 k in
    let many : leb 2 (2 ^ suc k) ≡ true = ground (arith, pow-suc 2 k, one-le-pow k 2) in
    let halved : 2 ^ suc k / 2 ≡ 2 ^ k = omega arith in
    let product = ap (λ (t : ℕ). groups * t) (round_total k) in
    let sum : (total + groups * (2 ^ suc k - 1)) % modulus64 ≡ total + groups * (2 ^ suc k - 1) =
      mod-eq_of_lt (omega arith) in
    let double : groups * 2 % modulus64 ≡ groups * 2 = mod-eq_of_lt g in
    rw (many, count_switches) (rw (halved, sum, double) refl)

count_loop :
    (k fuel total groups : ℕ)
    → k < fuel
    → total + groups * switch_total k < modulus64
    → groups * 2 ^ k < modulus64
    → count_switches fuel (2 ^ k) total groups ≡ total + groups * switch_total k
count_loop zero zero total groups h a b = absurd (omega arith)
count_loop zero (suc fuel) total groups h a b = unfold count_switches in omega arith
count_loop (suc k) zero total groups h a b = absurd (omega arith)
count_loop (suc k) (suc fuel) total groups h a b =
    let product = ap (λ (t : ℕ). groups * t) (round_total k) in
    let power = ap (λ (t : ℕ). groups * t) (pow-suc 2 k) in
    let positive : groups ≤ groups * 2 ^ k = grow groups (2 ^ k) (one-le-pow k 2 (omega arith)) in
    count_step fuel k total groups a (omega arith)
    ∙ count_loop k fuel (total + groups * (2 ^ suc k - 1)) (groups * 2) (omega arith) (omega arith)
        (omega arith)
    ∙ omega arith

-- For 2 ^ k elements, k at most 57, num_switches is the number of bits that the network reads.
pub num_switches_lem : (k : ℕ) → k < 58 → num_switches (2 ^ k) ≡ switch_total k
unfolding num_switches
num_switches_lem k h =
    let bound = switch_total_bound k h in
    let power : 2 ^ k < modulus64 =
      let top = pow-le-pow_right {n = 2} (omega arith) {i = k} {j = 57} (omega arith) in
      omega arith in
    count_loop k 64 0 1 (omega arith) (omega arith) (omega arith) ∙ omega arith

-- The closed form: n * log2 n - n + 1.
pub switch_total_closed : (k : ℕ) → switch_total k + 2 ^ k ≡ k * 2 ^ k + 1
switch_total_closed zero = refl
switch_total_closed (suc k) =
    let power = pow-suc 2 k in
    let product = ap (λ (t : ℕ). k * t) power in
    let positive = one-le-pow k 2 in omega (arith, switch_total_closed k)

-- For 2 ^ k elements, k at most 57, the loop of num_switches gives n * log2 n - n + 1 for n = 2 ^ k,
-- and this is the number of bits that the network reads.
pub num_switches_closed :
    (k : ℕ)
    → k < 58
    → (num_switches (2 ^ k) + 2 ^ k ≡ k * 2 ^ k + 1) × (num_switches (2 ^ k) ≡ switch_total k)
num_switches_closed k h =
    let total = num_switches_lem k h in (rw total (switch_total_closed k), total)
