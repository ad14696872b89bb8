-- ===== src/Batching/Shuffle.antt =====
-- baselines/batching/enclave/trusted/algorithms/oblivious_waksman.c: the shuffle of a batch by a
-- permutation network whose switches come from the cipher. A read out of bounds, or too little
-- fuel, is `none`.
pub mod Network
pub mod Call
use Prim.Native.Nat.{bit_and, bit_xor}
use omwj.Prelude.{
  ℕ, zero, suc, ◌+◌, ◌-◌, ◌*◌, ◌/◌, ◌%◌, ◌^◌, Bool, true, false, ◌||◌, not, List, [], ◌∷◌, ◌++◌,
  Option, none, some,
}
use omwj.Prelude.Tests.{leb, ◌==◌, if◌then◌else◌}
use omwj.Prelude.Lists.{length, get_elem?, set, replicate}
use omwj.Prelude.Partial.{◌>>=◌}
use omwj.Prelude.Word.{modulus}
use omwj.Swap.{modulus64, swap_loop}
use omwj.Entry.{Entry}
use omwj.Entry.Words.{words, with_words}
use omwj.Crypto.{Cipher, init_aes_key, get_next_nonce}
use omwj.Batching.Batch.{Sealing, decrypt_rows, plain_rows, encrypt_back, encrypt_rows}

abbrev pub max_batch_size : ℕ
max_batch_size = 2000

-- The fallback of get_switch_bit.
unfoldable pub hash_bit : ℕ → ℕ → ℕ → ℕ
hash_bit shuffle_nonce level position =
    let hash = bit_xor (bit_xor shuffle_nonce (level * 2 ^ 32)) position in
    let hash1 = bit_xor hash (hash / 2 ^ 33) in
    let hash2 = hash1 * 18397679294719823053 % modulus64 in bit_xor hash2 (hash2 / 2 ^ 33) % 2

-- The counter block has the nonce in its first eight bytes, then the level and the position.
unfoldable pub get_switch_bit : ℕ → Cipher → ℕ → ℕ → ℕ → ℕ
unfolding hash_bit
get_switch_bit secure_key cipher shuffle_nonce level position =
    let level32 = level % modulus in
    let position32 = position % modulus in
    let ctr = shuffle_nonce + level32 * 2 ^ 64 + position32 * 2 ^ 96 in
    elim (cipher.ctr_encrypt (init_aes_key secure_key) ctr (replicate 16 0)) [
      | none ↦ hash_bit shuffle_nonce level32 position32
      | some (output, ctr') ↦ elim (get_elem? output 0) [ some byte ↦ byte % 2 | none ↦ 0 ]
    ]

-- The mask byte, repeated over a 64-bit word: each field takes the bytes that it needs.
unfoldable pub byte_mask : ℕ → ℕ
byte_mask swap = (256 - swap % 256) % 256 * 72340172838076673

-- the file's own oblivious_swap: the bytes of the two rows, taken a field at a time
unfoldable pub oblivious_swap : Entry → Entry → ℕ → Entry × Entry
unfolding byte_mask swap_loop
oblivious_swap a b swap =
    let swapped = swap_loop (length (words a)) (byte_mask swap) (words a) (words b) in
    (with_words a swapped.0, with_words b swapped.1)

-- The switches are a function of the level and the position.
module _ (switch_bit : ℕ → ℕ → ℕ) where
  unfoldable pub switch_rows : ℕ → ℕ → ℕ → List Entry → Option (List Entry)
  unfolding oblivious_swap
  switch_rows level idx1 idx2 array = do
    a ← get_elem? array idx1
    b ← get_elem? array idx2
    let swapped = oblivious_swap a b (switch_bit level idx1)
    some (set (set array idx1 swapped.0) idx2 swapped.1)

  -- A loop over `rounds` pairs from pair i on; false if it met its check of the bounds.
  unfoldable pub switch_pairs : ℕ → ℕ → ℕ → ℕ → ℕ → List Entry → Option (Bool × List Entry)
  unfolding switch_rows
  switch_pairs zero i level start stride array = some (true, array)
  switch_pairs (suc rounds) i level start stride array =
      let idx1 = start + i * 2 * stride in
      let idx2 = start + (i * 2 + 1) * stride in
      elim (leb max_batch_size idx1 || leb max_batch_size idx2) [
        | true ↦ some (false, array)
        | false ↦
            switch_rows level idx1 idx2 array >>= switch_pairs rounds (i + 1) level start stride
      ]

  -- What follows the input switches: the network on every other row, from the first and from the
  -- second, and the output switches. A failed check of the bounds returns at once.
  unfoldable pub after_switches :
      (ℕ → ℕ → ℕ → ℕ → List Entry → Option (List Entry))
      → ℕ
      → ℕ
      → ℕ
      → ℕ
      → Bool × List Entry
      → Option (List Entry)
  unfolding switch_pairs
  after_switches recurse half start stride level (false, array) = some array
  after_switches recurse half start stride level (true, array) = do
    evens ← recurse start (stride * 2) half (level + 1) array
    odds ← recurse (start + stride) (stride * 2) half (level + 1) evens
    (inside, out) ← switch_pairs (half - 1) 1 (level + 10000) start stride odds
    some out

  unfoldable pub waksman_recursive : ℕ → ℕ → ℕ → ℕ → ℕ → List Entry → Option (List Entry)
  unfolding switch_pairs switch_rows after_switches
  waksman_recursive zero start stride n level array = none
  waksman_recursive (suc fuel) start stride n level array = elim (leb n 1) [
    | true ↦ some array
    | false ↦ elim (n == 2) [
      | true ↦ switch_rows level start (start + stride) array
      | false ↦
          switch_pairs (n / 2) 0 level start stride array
          >>= after_switches (waksman_recursive fuel) (n / 2) start stride level
    ]
  ]

module _ (secure_key : ℕ) (cipher : Cipher) where
  -- Each level of the network halves the at most 2000 rows.
  unfoldable pub ecall_oblivious_2way_waksman : List Entry → ℕ → Option Sealing
  unfolding waksman_recursive decrypt_rows encrypt_back encrypt_rows get_switch_bit
  ecall_oblivious_2way_waksman rows counter =
      let n = length rows in
      let refused : Option Sealing =
        some (record { completed = false; rows = rows; counter = counter }) in
      let opening = decrypt_rows secure_key cipher rows in
      let plain = plain_rows opening.decrypted in
      let back = encrypt_back secure_key cipher plain counter in
      let (shuffle_nonce, counter1) = get_next_nonce counter in
      let worked : Option Sealing = elim opening.left [
        | failed ∷ behind ↦
            some (record { completed = false; rows = back.0 ++ failed ∷ behind; counter = back.1 })
        | [] ↦ do
          shuffled ←
              waksman_recursive (get_switch_bit secure_key cipher shuffle_nonce) 12 0 1 n 0 plain
          some (encrypt_rows secure_key cipher true shuffled counter1)
      ] in
      if n == 0 || leb (suc max_batch_size) n || not (bit_and n (n - 1) == 0)
      then refused
      else worked
