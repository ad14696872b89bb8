-- ===== src/Batching/Batch/Encrypted.antt =====
-- The loop that encrypts every row of a decrypted batch goes through, under a sound cipher.
use omwj.Prelude.{ℕ, ◌≡◌, refl, Bool, true, List, [], ◌∷◌, inr, ◌+◌, ◌%◌}
use omwj.Prelude.Lists.{length, All, replicate}
use omwj.Swap.{modulus64}
use omwj.Entry.{Entry}
use omwj.Crypto.{Cipher, success, aes_encrypt_entry}
use omwj.Crypto.Laws.{Sound, aes_decrypt_entry-aes_encrypt_entry}
use omwj.Batching.Operations.Plain.{IsPlain}
use omwj.Batching.Batch.{Sealing, encrypt_rows}
use omwj.Batching.Batch.Laws.{Reseals, AllReseals, unseal_lem}

module _ (secure_key : ℕ) (cipher : Cipher) (sound : Sound cipher) where
  step_lem :
      (lenient : Bool) (e sealed : Entry) (rest : List Entry) (counter next : ℕ)
      → aes_encrypt_entry secure_key cipher e counter ≡ (success, sealed, next)
      → encrypt_rows secure_key cipher lenient (e ∷ rest) counter ≡ (
          let later = encrypt_rows secure_key cipher lenient rest next in
          record {
            completed = later.completed;
            rows = sealed ∷ later.rows;
            counter = later.counter;
          })
  unfolding encrypt_rows
  step_lem lenient e sealed rest counter next forth = rw forth refl

  -- It went through, and each row is encrypted and decrypts to the plain row with a new nonce.
  abbrev pub Encrypted : List Entry → Sealing → Type 0
  Encrypted plains out =
      (out.completed ≡ true)
      × AllReseals secure_key cipher (replicate (length plains) 1) plains out.rows

  pub encrypt_rows-Encrypted :
      (lenient : Bool) (plains : List Entry) (counter : ℕ)
      → All IsPlain plains
      → Encrypted plains (encrypt_rows secure_key cipher lenient plains counter)
  unfolding encrypt_rows
  encrypt_rows-Encrypted lenient [] counter bare = (refl, tt)
  encrypt_rows-Encrypted lenient (e ∷ plains) counter bare =
      let (sealed, forth, mark, back) =
        aes_decrypt_entry-aes_encrypt_entry secure_key sound e counter bare.0 in
      let next = (counter + 1) % modulus64 in
      let (through, kept) = encrypt_rows-Encrypted lenient plains next bare.1 in
      let first : Reseals secure_key cipher 1 e sealed = record {
        nonce = counter;
        opens = record {
          opened = unseal_lem secure_key cipher sealed _ mark back;
          bare = refl;
          marked = inr mark;
        };
        same_flag = mark;
      } in
      rw (step_lem lenient e sealed plains counter next forth) (through, (first, kept))
