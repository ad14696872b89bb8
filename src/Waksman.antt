-- ===== src/Waksman.antt =====
-- enclave/trusted/join/oblivious_sort.c: the keystream as a stream of switch bits, and the
-- permutation network over an array whose length is a power of two. A read out of range is `none`.
pub mod Switch
pub mod Network
pub mod Count
use omwj.Prelude.{
  ℕ, zero, suc, ◌+◌, ◌-◌, ◌*◌, ◌/◌, ◌%◌, ◌^◌, Bool, true, false, List, Option, none, some, not,
}
use omwj.Prelude.Tests.{leb, ◌==◌, if◌then◌else◌}
use omwj.Prelude.Lists.{get_elem?, set}
use omwj.Prelude.Partial.{◌>>=◌}
use omwj.Swap.{modulus64, exchange}

pub record Bitstream : Type 0 where
  pub bits : List ℕ
  pub next : ℕ

-- next_bit: bit `next & 7` of byte `next >> 3`
unfoldable pub next_bit : Bitstream → Option (ℕ × Bitstream)
next_bit bs = do
  byte ← get_elem? bs.bits (bs.next / 8)
  some (byte / 2 ^ (bs.next % 8) % 2, record bs { next = bs.next + 1 })

-- The loop of num_switches, with `n` halved in each round.
unfoldable pub count_switches : ℕ → ℕ → ℕ → ℕ → ℕ
count_switches zero n total groups = total
count_switches (suc fuel) n total groups = elim (leb 2 n) [
  | true ↦
      count_switches fuel (n / 2) ((total + groups * (n - 1)) % modulus64) (groups * 2 % modulus64)
  | false ↦ total
]

-- num_switches; a size_t is halved at most 64 times
unfoldable pub num_switches : ℕ → ℕ
num_switches n = count_switches 64 n 0 1

-- The array that is shuffled and the bits that are left.
pub record Net {ℓ} (A : Type ℓ) : Type ℓ where
  pub arr : List A
  pub stream : Bitstream

module _ {ℓ} {A : Type ℓ} where
  -- swap_words on two elements of the array
  unfoldable pub swap_at : ℕ → ℕ → ℕ → List A → Option (List A)
  swap_at i j bit arr = do
    x ← get_elem? arr i
    y ← get_elem? arr j
    let swapped = exchange (not (bit == 0)) x y
    some (set (set arr i swapped.0) j swapped.1)

  unfoldable pub switch : ℕ → ℕ → Net A → Option (Net A)
  unfolding next_bit swap_at
  switch i j net = do
    (bit, stream') ← next_bit net.stream
    arr' ← swap_at i j bit net.arr
    some (record { arr = arr'; stream = stream' })

  -- `rounds` switches on adjacent pairs of the group, from pair `i` on
  unfoldable pub switches : ℕ → ℕ → ℕ → ℕ → Net A → Option (Net A)
  switches zero i start stride net = some net
  switches (suc rounds) i start stride net = do
    net' ← switch (start + i * 2 * stride) (start + (i * 2 + 1) * stride) net
    switches rounds (i + 1) start stride net'

  -- waksman: input switches, the even and the odd interleave, output switches on all pairs but
  -- the first
  unfoldable pub waksman : ℕ → ℕ → ℕ → ℕ → Net A → Option (Net A)
  waksman zero start stride n net = none
  waksman (suc fuel) start stride n net = elim (leb n 1) [
    | true ↦ some net
    | false ↦ elim (n == 2) [
      | true ↦ switch start (start + stride) net
      | false ↦ do
        let half = n / 2
        mixed ← switches half 0 start stride net
        evens ← waksman fuel start (stride * 2) half mixed
        odds ← waksman fuel (start + stride) (stride * 2) half evens
        switches (half - 1) 1 start stride odds
    ]
  ]
