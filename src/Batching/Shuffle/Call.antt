-- ===== src/Batching/Shuffle/Call.antt =====
-- ecall_oblivious_2way_waksman on a batch of 2 ^ k rows.
use Prim.Native.Nat.{bit_and}
use native.Mathlib.Nat.{pow-le-pow_right, one-le-pow}
use mathlib.Core.List.{append-nil}
use omwj.Prelude.{
  ℕ, zero, suc, ◌+◌, ◌-◌, ◌*◌, ◌%◌, ◌^◌, ◌≤◌, ◌<◌, ◌≡◌, refl, ◌∙◌, true, false, List, [], Option,
  some, none, Perm, arith,
}
use omwj.Prelude.Tests.{leb, ◌==◌}
use omwj.Prelude.Lists.{length, get_elem?, All, replicate}
use omwj.Prelude.Partial.{◌>>=◌}
use omwj.Prelude.Word.{modulus}
use omwj.Swap.{modulus64}
use omwj.Entry.{Entry}
use omwj.Crypto.{Cipher, init_aes_key}
use omwj.Crypto.Laws.{Sound}
use omwj.Batching.Exchanges.{IsRow}
use omwj.Batching.Batch.{Sealing, decrypt_rows, plain_rows, encrypt_rows}
use omwj.Batching.Batch.Laws.{
  AllOpens, plains-IsPlain, opened_upto, done_rows, length-AllOpens, IsPlain-Perm,
}
use omwj.Batching.Batch.Encrypted.{Encrypted, encrypt_rows-Encrypted}
use omwj.Batching.Shuffle.{
  hash_bit, get_switch_bit, waksman_recursive, max_batch_size, ecall_oblivious_2way_waksman,
}
use omwj.Batching.Shuffle.Network.{waksman_recursive-Shuffles}

low_bit : (byte : Option ℕ) → elim byte [ some b ↦ b % 2 | none ↦ 0 ] < 2
low_bit none = omega arith
low_bit (some b) = omega arith

bit_of :
    (text : Option (List ℕ × ℕ)) (h : ℕ)
    → h < 2
    → elim text [
      | none ↦ h
      | some (output, ctr') ↦ elim (get_elem? output 0) [ some byte ↦ byte % 2 | none ↦ 0 ]
    ]
      < 2
bit_of none h small = small
bit_of (some (output, ctr)) h small = low_bit (get_elem? output 0)

get_switch_bit_lt :
    (secure_key : ℕ) (cipher : Cipher) (nonce level position : ℕ)
    → get_switch_bit secure_key cipher nonce level position < 2
unfolding get_switch_bit hash_bit
get_switch_bit_lt secure_key cipher nonce level position =
    let hashed = hash_bit nonce (level % modulus) (position % modulus) in
    let ctr = nonce + level % modulus * 2 ^ 64 + position % modulus * 2 ^ 96 in
    let small : hashed < 2 = omega arith in
    bit_of (cipher.ctr_encrypt (init_aes_key secure_key) ctr (replicate 16 0)) hashed small

-- `n & (n - 1)` is 0 for the powers of two up to 1024.
power_guard : (k : ℕ) → k ≤ 10 → (bit_and (2 ^ k) (2 ^ k - 1) == 0) ≡ true
power_guard zero h = refl
power_guard (suc zero) h = refl
power_guard (suc (suc zero)) h = refl
power_guard (suc (suc (suc zero))) h = refl
power_guard (suc (suc (suc (suc zero)))) h = refl
power_guard (suc (suc (suc (suc (suc zero))))) h = refl
power_guard (suc (suc (suc (suc (suc (suc zero)))))) h = refl
power_guard (suc (suc (suc (suc (suc (suc (suc zero))))))) h = refl
power_guard (suc (suc (suc (suc (suc (suc (suc (suc zero)))))))) h = refl
power_guard (suc (suc (suc (suc (suc (suc (suc (suc (suc zero))))))))) h = refl
power_guard (suc (suc (suc (suc (suc (suc (suc (suc (suc (suc zero)))))))))) h = refl
power_guard (suc (suc (suc (suc (suc (suc (suc (suc (suc (suc (suc k))))))))))) h =
    absurd (omega arith)

power_le : (k : ℕ) → k ≤ 10 → (0 < 2 ^ k) × (2 ^ k ≤ 1024)
power_le k h =
    let top = pow-le-pow_right {n = 2} (omega arith) {i = k} {j = 10} h in
    let positive = one-le-pow k 2 in omega (arith, top, positive)

module _ (secure_key : ℕ) (cipher : Cipher) where
  shuffled_lem :
      (k : ℕ) (rows plains mixed : List Entry) (counter : ℕ)
      → k ≤ 10
      → length rows ≡ 2 ^ k
      → plain_rows (decrypt_rows secure_key cipher rows).decrypted ≡ plains
      → (decrypt_rows secure_key cipher rows).left ≡ []
      → waksman_recursive (get_switch_bit secure_key cipher counter) 12 0 1 (2 ^ k) 0 plains
        ≡ some mixed
      → ecall_oblivious_2way_waksman secure_key cipher rows counter
        ≡ some (encrypt_rows secure_key cipher true mixed ((counter + 1) % modulus64))
  unfolding ecall_oblivious_2way_waksman
  shuffled_lem k rows plains mixed counter small size same left run =
      let (some_rows, few) = power_le k small in
      let many : (length rows == 0) ≡ false = ground (arith, some_rows, size) in
      let fits : leb (suc max_batch_size) (length rows) ≡ false = ground (arith, few, size) in
      rw (many, fits, left) (rw (size, power_guard k small) (rw same (rw (run, ◌>>=◌) refl)))

  module _ (sound : Sound cipher) where
    -- Under a sound cipher, for a batch of 2 ^ k rows, k at most 10, of which each is decrypted
    -- already or decrypts to a row as it lies in memory (IsRow), ecall_oblivious_2way_waksman
    -- succeeds, whatever the switch bits are: it accesses nothing out of bounds and leaves every row
    -- encrypted, and the rows decrypt, up to their nonces, to a permutation of the decrypted rows.
    pub ecall_oblivious_2way_waksman-shuffles :
        (k : ℕ) (rows plains : List Entry) (counter : ℕ)
        → k ≤ 10
        → length rows ≡ 2 ^ k
        → AllOpens secure_key cipher rows plains
        → All IsRow plains
        → (out : Sealing) × (mixed : List Entry) × (ecall_oblivious_2way_waksman secure_key cipher
              rows counter
            ≡ some out)
          × Perm mixed plains
          × Encrypted secure_key cipher sound mixed out
    ecall_oblivious_2way_waksman-shuffles k rows plains counter small size opens in_memory =
        let whole =
          opened_upto secure_key cipher rows plains [] [] opens (done_rows secure_key cipher) in
        let (same, marks, left) = rw (append-nil rows) at whole in
        let plain_size = length-AllOpens secure_key cipher rows plains opens ∙ size in
        let run =
          waksman_recursive-Shuffles (get_switch_bit secure_key cipher counter)
            (get_switch_bit_lt secure_key cipher counter) k 12 0 1 0 plains (omega arith)
            (record {
              positive = omega arith;
              fits = omega (arith, plain_size);
              small = omega (arith, plain_size, power_le k small);
            })
            in_memory in
        let bare =
          IsPlain-Perm plains run.out run.shuffled
            (plains-IsPlain secure_key cipher rows plains opens) in
        (
          encrypt_rows secure_key cipher true run.out ((counter + 1) % modulus64),
          run.out,
          shuffled_lem k rows plains run.out counter small size same left run.returns,
          run.shuffled,
          encrypt_rows-Encrypted secure_key cipher sound true run.out _ bare,
        )
