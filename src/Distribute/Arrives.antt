-- ===== src/Distribute/Arrives.antt =====
-- The distribution network as a whole: every row arrives at its destination.
use mathlib.Core.Path.{subst}
use native.Mathlib.Nat.{pow-suc, mod-eq_of_lt}
use native.Mathlib.Decide.{dec_lt}
use omwj.Prelude.{
  ℕ, zero, suc, ◌+◌, ◌-◌, ◌*◌, ◌/◌, ◌%◌, ◌^◌, ◌≤◌, ◌<◌, ◌≡◌, refl, ap, ◌∙◌, ◌⊎◌, false, List,
  Option, some, inl, inr, arith,
}
use omwj.Prelude.Tests.{leb, ◌==◌, Bool-cases, leb→le}
use omwj.Prelude.Partial.{◌>>=◌}
use omwj.Prelude.Word.{eq32}
use omwj.Constants.{dist_padding}
use omwj.Swap.{modulus64}
use omwj.Trow.{Trow}
use omwj.Distribute.{network_pass, network_from, widest, network}
use omwj.Distribute.Routes.{Cover, Cover-same}
use omwj.Distribute.Pass.{next, midway, pair_step}

-- The widest distance is a power of two, at most the size and more than half of it.
widest_lem :
    (fuel distance j size : ℕ)
    → distance ≡ 2 ^ j
    → 0 < distance
    → distance ≤ size
    → size < 2 ^ 63
    → size < distance * 2 ^ fuel
    → (k : ℕ) × (widest fuel distance size ≡ some (2 ^ k))
      × (2 ^ k ≤ size)
      × (size < 2 * 2 ^ k)
      × (k < j + fuel)
unfolding widest
widest_lem zero distance j size power pos inside small room = absurd (omega arith)
widest_lem (suc fuel) distance j size power pos inside small room =
    let fits : distance * 2 % modulus64 ≡ distance * 2 = mod-eq_of_lt (omega arith) in
    let room' : distance * 2 ^ suc fuel ≡ distance * 2 * 2 ^ fuel =
      ap (λ p. distance * p) (pow-suc 2 fuel) ∙ grind arith in
    elim (Bool-cases (leb (distance * 2 % modulus64) size)) [
      | inl wider ↦
          let (k, run, ok, half, few) =
            widest_lem fuel (distance * 2) (suc j) size (omega (arith, power, pow-suc 2 j))
              (omega arith) (omega (arith, fits, leb→le _ _ wider)) small
              (omega (arith, room', room)) in
          let run' = ap (λ x. widest fuel x size) fits ∙ run in
          (k, rw wider run', ok, half, omega (arith, few))
      | inr found ↦ (
        j,
        rw found (ap some power),
        omega (arith, power, inside),
        ground (arith, power, fits, found),
        omega arith,
      )
    ]

-- A pass, and then the others.
network_next :
    (fuel distance size : ℕ) (arr mid : List Trow) {r : Option (List Trow)}
    → 0 < distance
    → network_pass distance (size - distance) arr ≡ some mid
    → network_from fuel (distance / 2) size mid ≡ r
    → network_from (suc fuel) distance size arr ≡ r
unfolding network_from
network_next fuel distance size arr mid pos run rest =
    let more : (distance == 0) ≡ false = ground arith in rw more (rw (run, ◌>>=◌) rest)

module _ (n m : ℕ) (d : ℕ → ℕ) (c : ℕ → Trow)
    (known : (i : ℕ) → i < m → ((c i).dst_idx ≡ d i) × (eq32 (c i).field_type dist_padding ≡ false))
    (inside : (i : ℕ) → i < m → d i < n) (small : n ≤ 2147483648)
    (ordered : (i : ℕ) → suc i < m → d i < d (suc i)) where
  abbrev pub Holds : (ℕ → ℕ) → List Trow → Type 0
  Holds = Cover n m d c known inside small

  -- Destinations are at least as far apart as the rows.
  pub spread : (i k : ℕ) → i < k → k < m → d i + k ≤ d k + i
  spread i zero h b = absurd (omega arith)
  spread i (suc k) h b = elim (dec_lt i k) [
    | yes p ↦ omega (arith, spread i k p (omega arith), ordered k b)
    | no p ↦ let same : i ≡ k = omega arith in rw same (omega (arith, ordered k b))
  ]

  at_least : (i : ℕ) → i < m → i ≤ d i
  at_least zero h = omega arith
  at_least (suc i) h = omega (arith, at_least i (omega arith), ordered i h)

  -- Before a pass each row is less than `gap` before its destination, and two rows have moved
  -- equally far, or the later one further by `gap` at least.
  abbrev Placed : ℕ → (ℕ → ℕ) → Type 0
  Placed gap pos =
      ((i : ℕ) → i < m → (pos i ≤ d i) × (d i < pos i + gap))
      × ((i k : ℕ) → i < k → k < m → (pos i + k ≡ pos k + i) ⊎ (pos i + k + gap ≤ pos k + i))

  next-Placed :
      (distance : ℕ) (pos : ℕ → ℕ)
      → Placed (2 * distance) pos
      → Placed distance (next distance d pos)
  next-Placed distance pos (near, steps) = (
    λ i h. let (a, b) = near i h in (ground (arith, a, b), ground (arith, a, b)),
    λ i k h b. elim (steps i k h b) [
      | inl e ↦ ground (arith, e, spread i k h b)
      | inr f ↦ inr (ground (arith, f))
    ],
  )

  apart :
      (gap : ℕ) (pos : ℕ → ℕ) → Placed gap pos → (i k : ℕ) → i < m → k < m → pos i ≡ pos k → i ≡ k
  apart gap pos (near, steps) i k h b e = elim (dec_lt i k) [
    | yes p ↦ elim (steps i k p b) [ inl f ↦ absurd (omega arith) | inr f ↦ absurd (omega arith) ]
    | no p ↦ elim (dec_lt k i) [
      | yes q ↦ elim (steps k i q h) [ inl f ↦ absurd (omega arith) | inr f ↦ absurd (omega arith) ]
      | no q ↦ omega arith
    ]
  ]

  -- The run gives an array where row i is in slot q i.
  abbrev pub Gives : (ℕ → ℕ) → Option (List Trow) → Type 0
  Gives q r = (out : List Trow) × (r ≡ some out) × Holds q out

  module _ (distance : ℕ) (positive : 0 < distance) (pos : ℕ → ℕ)
      (placed : Placed (2 * distance) pos) where
    pass-Gives :
        (j : ℕ) (arr : List Trow)
        → j + distance ≤ n
        → Holds (midway distance d pos j) arr
        → Gives (next distance d pos) (network_pass distance j arr)
    unfolding network_pass
    pass-Gives zero arr h cover = (
      arr,
      refl,
      Cover-same n m d c known inside small (midway distance d pos 0) (next distance d pos) arr
          (λ i k. ground arith) cover,
    )
    pass-Gives (suc j) arr h cover =
        let (mid, run, cover') =
          pair_step n m d c known inside small distance positive pos
            (apart (2 * distance) pos placed)
            (apart distance (next distance d pos) (next-Placed distance pos placed)) j (omega arith)
            arr cover in
        let (out, rest, cover'') = pass-Gives j mid (omega arith) cover' in
        (out, rw (run, ◌>>=◌) rest, cover'')

    -- A row in the last slots, which the pass leaves out, is near its destination.
    whole_pass :
        (arr : List Trow)
        → distance ≤ n
        → Holds pos arr
        → Gives (next distance d pos) (network_pass distance (n - distance) arr)
    whole_pass arr h cover = pass-Gives (n - distance) arr (omega arith) (
        Cover-same n m d c known inside small pos (midway distance d pos (n - distance)) arr
          (λ i k. ground (arith, inside i k, h)) cover)

  power-pos : (k : ℕ) → 0 < 2 ^ k
  power-pos zero = omega arith
  power-pos (suc k) = omega (arith, power-pos k, pow-suc 2 k)

  levels :
      (k fuel : ℕ) (pos : ℕ → ℕ) (arr : List Trow)
      → k < fuel
      → 2 ^ k ≤ n
      → Placed (2 * 2 ^ k) pos
      → Holds pos arr
      → Gives d (network_from (suc fuel) (2 ^ k) n arr)
  unfolding network_from
  levels k zero pos arr few fits placed cover = absurd (omega arith)
  levels zero (suc fuel) pos arr few fits placed cover =
      let (mid, run, cover') = whole_pass 1 (omega arith) pos placed arr fits cover in
      let arrived = next-Placed 1 pos placed in
      (
        mid,
        network_next (suc fuel) 1 n arr mid (omega arith) run refl,
        Cover-same n m d c known inside small (next 1 d pos) d mid
            (λ i k. let (a, b) = arrived.0 i k in omega arith) cover',
      )
  levels (suc k) (suc fuel) pos arr few fits placed cover =
      let pos' = next (2 ^ suc k) d pos in
      let (mid, run, cover') =
        whole_pass (2 ^ suc k) (power-pos (suc k)) pos placed arr fits cover in
      let twice : 2 ^ suc k ≡ 2 * 2 ^ k = omega (arith, pow-suc 2 k) in
      let halves : 2 ^ suc k / 2 ≡ 2 ^ k = omega (arith, twice) in
      let placed' = subst (λ g. Placed g pos') twice (next-Placed (2 ^ suc k) pos placed) in
      let (out, rest, arrived) =
        levels k fuel pos' mid (omega arith) (omega (arith, fits, twice)) placed' cover' in
      (
        out,
        network_next (suc fuel) (2 ^ suc k) n arr mid (power-pos (suc k)) run
            (ap (λ x. network_from (suc fuel) x n mid) halves ∙ rest),
        arrived,
      )

  -- Let an array of n slots, n at most 2 ^ 31, hold m rows in its first slots, whose destinations are
  -- below n and strictly increase, and distribution padding in the others, and let each slot have
  -- its number as its index. Then the distribution network ends without an access out of
  -- bounds, and gives an array in which each row is in the slot of its destination, with all
  -- its fields but the index, every other slot has padding, and the indices are as before.
  pub network-arrives : (arr : List Trow) → 0 < n → Holds (λ i. i) arr → Gives d (network n arr)
  unfolding network
  network-arrives arr some_slots cover =
      let (k, found, fits, half, few) =
        widest_lem 64 1 0 n refl (omega arith) (omega arith) (omega arith) (omega arith) in
      let placed : Placed (2 * 2 ^ k) (λ i. i) = (
        (λ i h. (at_least i h, omega (arith, inside i h, half))),
        (λ i k h b. inl (omega arith)),
      ) in
      let (out, run, arrived) = levels k 64 (λ i. i) arr (omega (arith, few)) fits placed cover in
      (out, rw (found, ◌>>=◌) run, arrived)
