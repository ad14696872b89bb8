-- ===== src/Crypto.antt =====
-- enclave/trusted/crypto/aes_crypto.c and its copy in baselines/batching/enclave/trusted/crypto:
-- the encryption of a row in place, and crypto_helpers.c beside the copy. The SGX cipher is a
-- parameter; a region is the sequence of its fields.
pub mod Laws
use Prim.Native.Nat.{bit_xor}
use omwj.Prelude.{
  ℕ, zero, suc, ◌+◌, ◌*◌, ◌/◌, ◌%◌, ◌^◌, Bool, true, false, List, [], ◌∷◌, Option, none, some,
}
use omwj.Prelude.Tests.{◌==◌, if◌then◌else◌}
use omwj.Prelude.Partial.{◌>>=◌}
use omwj.Swap.{modulus64}
use omwj.Entry.{Entry}
use omwj.Entry.Words.{head_words, tail_words, with_head, with_tail}

pub data CryptoStatus : Type 0 where
  success : CryptoStatus
  already_encrypted : CryptoStatus
  not_encrypted : CryptoStatus
  operation_failed : CryptoStatus

-- sgx_aes_ctr_encrypt and sgx_aes_ctr_decrypt: from a key, a counter block and a text the other
-- text with the counter block after it; `none` is a failure.
pub record Cipher : Type 0 where
  pub ctr_encrypt : List ℕ → ℕ → List ℕ → Option (List ℕ × ℕ)
  pub ctr_decrypt : List ℕ → ℕ → List ℕ → Option (List ℕ × ℕ)

-- the loop of init_aes_key from byte i on
unfoldable pub key_bytes : ℕ → ℕ → ℕ → List ℕ
key_bytes zero i key = []
key_bytes (suc rounds) i key =
    bit_xor (key / 2 ^ (i % 4 * 8) % 256) (i * 55 % 256) ∷ key_bytes rounds (suc i) key

unfoldable pub init_aes_key : ℕ → List ℕ
unfolding key_bytes
init_aes_key key = key_bytes 16 0 key

-- get_next_nonce: the nonce and the counter after it
abbrev pub get_next_nonce : ℕ → ℕ × ℕ
get_next_nonce g_nonce_counter = (g_nonce_counter, (g_nonce_counter + 1) % modulus64)

module _ (secure_key : ℕ) where
  -- Both regions, with one running counter block that starts from the nonce.
  unfoldable pub crypt_regions : (List ℕ → ℕ → List ℕ → Option (List ℕ × ℕ)) → Entry → Option Entry
  crypt_regions sgx_aes_ctr entry = do
    let aes_key = init_aes_key secure_key
    (head, ctr) ← sgx_aes_ctr aes_key entry.nonce (head_words entry)
    (tail, ctr') ← sgx_aes_ctr aes_key ctr (tail_words entry)
    some (with_tail (with_head entry head) tail)

  module _ (cipher : Cipher) where
    -- the status, the row and the nonce counter
    unfoldable pub aes_encrypt_entry : Entry → ℕ → CryptoStatus × Entry × ℕ
    unfolding crypt_regions
    aes_encrypt_entry entry g_nonce_counter = elim (entry.is_encrypted == 0) [
      | false ↦ (already_encrypted, entry, g_nonce_counter)
      | true ↦
          let (nonce, counter) = get_next_nonce g_nonce_counter in
          let fresh = record entry { nonce = nonce } in
          elim (crypt_regions cipher.ctr_encrypt fresh) [
            | none ↦ (operation_failed, fresh, counter)
            | some out ↦ (success, record out { is_encrypted = 1 }, counter)
          ]
    ]

    unfoldable pub aes_decrypt_entry : Entry → CryptoStatus × Entry
    unfolding crypt_regions
    aes_decrypt_entry entry = elim (entry.is_encrypted == 0) [
      | true ↦ (not_encrypted, entry)
      | false ↦ elim (crypt_regions cipher.ctr_decrypt entry) [
        | none ↦ (operation_failed, entry)
        | some out ↦ (success, record out { is_encrypted = 0 })
      ]
    ]

    -- Encrypt again what was encrypted; the status is ignored.
    abbrev pub reseal : ℕ → Entry → ℕ → Entry × ℕ
    reseal was_encrypted entry counter =
        if was_encrypted == 0
        then (entry, counter)
        else (let (status, sealed, counter') = aes_encrypt_entry entry counter in
            (sealed, counter'))

    -- Decrypt what is encrypted, with whether the row can be worked on.
    abbrev pub unseal : Entry → Bool × Entry
    unseal entry =
        if entry.is_encrypted == 0
        then (true, entry)
        else (let (status, opened) = aes_decrypt_entry entry in
            elim status [ success ↦ (true, opened) | _ ↦ (false, opened) ])

    -- the row and the nonce counter
    unfoldable pub apply_to_decrypted_entry : (Entry → Entry) → Entry → ℕ → Entry × ℕ
    apply_to_decrypted_entry operation entry counter =
        let (opened, plain) = unseal entry in
        if opened then reseal entry.is_encrypted (operation plain) counter else (plain, counter)

    -- the two rows and the nonce counter
    unfoldable pub apply_to_decrypted_pair :
        (Entry → Entry → Entry × Entry) → Entry → Entry → ℕ → Entry × Entry × ℕ
    apply_to_decrypted_pair operation e1 e2 counter =
        let (opened1, plain1) = unseal e1 in
        let (opened2, plain2) = unseal e2 in
        let (done1, done2) = operation plain1 plain2 in
        let (back, counter_back) = reseal e1.is_encrypted plain1 counter in
        let (sealed1, counter1) = reseal e1.is_encrypted done1 counter in
        let (sealed2, counter2) = reseal e2.is_encrypted done2 counter1 in
        if opened1
        then (if opened2 then (sealed1, sealed2, counter2) else (back, plain2, counter_back))
        else (plain1, e2, counter)
