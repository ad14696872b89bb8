-- ===== src/Batching/Aks.antt =====
-- baselines/batching/enclave/trusted/algorithms/aks_distribute.c: the distribution of a batch in
-- memory. The int32_t are words; an access out of bounds, or too little fuel, is `none`. The casts of
-- a size to int32_t change nothing, as a batch has fewer than 2 ^ 31 rows.
pub mod Swaps
pub mod Sequence
pub mod Turn
pub mod Level
pub mod Routed
pub mod Steps
pub mod Halves
pub mod Power
pub mod Doubling
pub mod Pair
pub mod Front
pub mod Inner
pub mod Opened
pub mod Call
use omwj.Prelude.{
  ℕ, zero, suc, ◌+◌, ◌-◌, ◌*◌, ◌/◌, ◌%◌, Bool, true, false, ◌&&◌, ◌||◌, not, List, [], ◌∷◌, map,
  Option, none, some,
}
use omwj.Prelude.Tests.{leb, ltb, ◌==◌, if◌then◌else◌}
use omwj.Prelude.Lists.{length, get_elem?, set}
use omwj.Prelude.Partial.{◌>>=◌}
use omwj.Prelude.Word.{modulus, eq32, lt32, add32, sub32, flag}
use omwj.Swap.{modulus64}
use omwj.Constants.{dist_padding}
use omwj.Entry.{Entry}
use omwj.Crypto.{Cipher, aes_decrypt_entry}
use omwj.Batching.Oblivious.{oblivious_swap}
use omwj.Batching.Batch.{encrypt_back}

-- the loop of aks_pow2_lt; a size_t doubles at most 64 times
unfoldable pub double_to : ℕ → ℕ → ℕ → ℕ
double_to zero p n = p
double_to (suc fuel) p n =
    let more = double_to fuel (p * 2 % modulus64) n in if ltb p n then more else p

unfoldable pub aks_pow2_lt : ℕ → ℕ
unfolding double_to
aks_pow2_lt n = double_to 64 1 n / 2

unfoldable pub aks_oswap : ℕ → ℕ → Bool → List Entry → Option (List Entry)
aks_oswap i j cond buf = do
  x ← get_elem? buf i
  y ← get_elem? buf j
  let swapped = oblivious_swap x y (flag cond)
  some (set (set buf i swapped.0) j swapped.1)

-- `m2 += (buf[...].dst_idx < temp)`, over the slots from p on
unfoldable pub count_below : ℕ → ℕ → ℕ → ℕ → List Entry → Option ℕ
count_below zero p temp m2 buf = some m2
count_below (suc rounds) p temp m2 buf = do
  e ← get_elem? buf p
  count_below rounds (suc p) temp (add32 m2 (flag (lt32 e.dst_idx temp))) buf

-- The loops that swap slot i of a block with the one `gap` behind it, under a condition on i.
unfoldable pub cross_swaps : (ℕ → Bool) → ℕ → ℕ → ℕ → ℕ → List Entry → Option (List Entry)
unfolding aks_oswap
cross_swaps cond zero i start gap buf = some buf
cross_swaps cond (suc rounds) i start gap buf =
    aks_oswap (start + i) (start + gap + i) (cond i) buf
    >>= cross_swaps cond rounds (suc i) start gap

abbrev pub differs : Bool → Bool → Bool
differs true b = not b
differs false b = b

-- `cond3 ^ (ii <= i)`
abbrev pub cond2 : ℕ → ℕ → ℕ → ℕ → Bool
cond2 temp2 offset m2 i =
    let cond0 = lt32 offset temp2 in
    let cond1 = lt32 (add32 (offset % temp2) m2) temp2 in
    let ii = add32 offset m2 % temp2 in differs (differs cond0 cond1) (not (lt32 i ii))

-- The remainders are of numbers that are not negative.
unfoldable pub distribute_2power : ℕ → ℕ → ℕ → ℕ → ℕ → List Entry → Option (List Entry)
unfolding count_below cross_swaps aks_oswap
distribute_2power zero start index_start_cur offset n buf = none
distribute_2power (suc fuel) start index_start_cur offset n buf = elim (leb n 1) [
  | true ↦ some buf
  | false ↦
      let temp2 = n / 2 in
      count_below n start (add32 index_start_cur temp2) 0 buf >>= (λ m2. elim (n == 2) [
        | true ↦ aks_oswap start (start + 1) (m2 == offset) buf
        | false ↦ cross_swaps (cond2 temp2 offset m2) temp2 0 start temp2 buf >>= (λ swapped.
            distribute_2power fuel (start + temp2) (add32 index_start_cur temp2)
              (add32 offset m2 % temp2) temp2 swapped
            >>= distribute_2power fuel start index_start_cur (offset % temp2) temp2)
      ])
]

-- the condition for two slots
abbrev pub misplaced : ℕ → Entry → Entry → Bool
misplaced index_start_cur e0 e1 =
    let hv0 = not (eq32 e0.field_type dist_padding) in
    let hv1 = not (eq32 e1.field_type dist_padding) in
    (hv0 && lt32 index_start_cur e0.dst_idx) || (hv1 && lt32 e1.dst_idx (add32 index_start_cur 1))

-- `((int32_t)n1 - (int32_t)n2 + m2) % (int32_t)n1`
abbrev pub rotation : ℕ → ℕ → ℕ → ℕ
rotation n1 n2 m2 = add32 (sub32 n1 n2) m2 % n1

unfoldable pub distribute_inner : ℕ → ℕ → ℕ → ℕ → List Entry → Option (List Entry)
unfolding count_below cross_swaps aks_oswap distribute_2power aks_pow2_lt
distribute_inner zero start index_start_cur n buf = none
distribute_inner (suc fuel) start index_start_cur n buf = elim (leb n 1) [
  | true ↦ some buf
  | false ↦ elim (n == 2) [
    | true ↦ do
      e0 ← get_elem? buf start
      e1 ← get_elem? buf (start + 1)
      aks_oswap start (start + 1) (misplaced index_start_cur e0 e1) buf
    | false ↦
        let n1 = aks_pow2_lt n in
        let n2 = n - n1 in
        count_below n2 start (add32 index_start_cur n2) 0 buf >>= (λ m2.
          cross_swaps (λ i. not (lt32 i m2)) n2 0 start n1 buf >>= (λ swapped.
            distribute_inner fuel start index_start_cur n2 swapped
            >>= distribute_2power fuel (start + n2) (add32 index_start_cur n2) (rotation n1 n2 m2)
                n1))
  ]
]

-- `data[i].dst_idx = (int32_t)n` for a padding row
unfoldable pub beyond_last : ℕ → Entry → Entry
beyond_last n e = record e {
  dst_idx = if eq32 e.field_type dist_padding then n % modulus else e.dst_idx;
}

module _ (secure_key : ℕ) (cipher : Cipher) where
  -- Decryption whose status is ignored.
  abbrev pub decrypted_row : Entry → Entry
  decrypted_row e =
      if e.is_encrypted == 0
      then e
      else (let (status, plain) = aes_decrypt_entry secure_key cipher e in plain)

  -- the rows and the nonce counter; each level of the recursion halves the size_t
  unfoldable pub aks_distribute : List Entry → ℕ → Option (List Entry × ℕ)
  unfolding distribute_inner beyond_last encrypt_back
  aks_distribute rows counter = do
    let n = length rows
    routed ← distribute_inner 65 0 0 n (map (λ e. beyond_last n (decrypted_row e)) rows)
    some (encrypt_back secure_key cipher routed counter)
