-- ===== src/Batching/Batch.antt =====
-- baselines/batching/enclave/trusted: the loops over a batch of rows that decrypt it before an
-- operation and encrypt it after one. They are written out in batch/batch_dispatcher.c and in the
-- files of algorithms/.

pub mod Laws
pub mod Encrypted
use omwj.Prelude.{ℕ, Bool, true, false, List, [], ◌∷◌, ◌++◌}
use omwj.Prelude.Tests.{◌==◌, if◌then◌else◌}
use omwj.Entry.{Entry}
use omwj.Crypto.{
  success, already_encrypted, Cipher, aes_encrypt_entry, aes_decrypt_entry, reseal, unseal,
}

-- `decrypted`: for each row before the first that does not decrypt, its flag and the plain row.
-- `left`: that row and the rows behind it.
pub record Opening : Type 0 where
  pub decrypted : List (ℕ × Entry)
  pub left : List Entry

-- The outcome of a loop that encrypts: whether it went through, the rows and the nonce counter.
pub record Sealing : Type 0 where
  pub completed : Bool
  pub rows : List Entry
  pub counter : ℕ

abbrev pub plain_rows : List (ℕ × Entry) → List Entry
plain_rows [] = []
plain_rows ((was_encrypted, plain) ∷ rest) = plain ∷ plain_rows rest

abbrev pub flags : List (ℕ × Entry) → List ℕ
flags [] = []
flags ((was_encrypted, plain) ∷ rest) = was_encrypted ∷ flags rest

module _ (secure_key : ℕ) (cipher : Cipher) where
  -- the loop that decrypts what is encrypted
  unfoldable pub decrypt_rows : List Entry → Opening
  decrypt_rows [] = record { decrypted = []; left = [] }
  decrypt_rows (e ∷ rest) =
      let (opened, plain) = unseal secure_key cipher e in
      let later = decrypt_rows rest in
      if opened
      then record { decrypted = (e.is_encrypted, plain) ∷ later.decrypted; left = later.left }
      else record { decrypted = []; left = plain ∷ rest }

  -- `if (was_encrypted[i]) aes_encrypt_entry(...)`, row by row
  unfoldable pub reseal_rows : List ℕ → List Entry → ℕ → List Entry × ℕ
  reseal_rows [] rows counter = (rows, counter)
  reseal_rows (was_encrypted ∷ more) [] counter = ([], counter)
  reseal_rows (was_encrypted ∷ more) (e ∷ rest) counter =
      let (sealed, counter1) = reseal secure_key cipher was_encrypted e counter in
      let (others, counter2) = reseal_rows more rest counter1 in (sealed ∷ others, counter2)

  -- `aes_encrypt_entry(...)` on every row, whatever its status
  unfoldable pub encrypt_back : List Entry → ℕ → List Entry × ℕ
  encrypt_back [] counter = ([], counter)
  encrypt_back (e ∷ rest) counter =
      let (status, sealed, counter1) = aes_encrypt_entry secure_key cipher e counter in
      let (others, counter2) = encrypt_back rest counter1 in (sealed ∷ others, counter2)

  -- the loop that encrypts every row and stops at the first status but success; `lenient` is the
  -- loop that lets an encrypted row pass
  unfoldable pub encrypt_rows : Bool → List Entry → ℕ → Sealing
  encrypt_rows lenient [] counter = record { completed = true; rows = []; counter = counter }
  encrypt_rows lenient (e ∷ rest) counter =
      let (status, sealed, counter1) = aes_encrypt_entry secure_key cipher e counter in
      let later = encrypt_rows lenient rest counter1 in
      let passed : Bool = elim status [
        | success ↦ true
        | already_encrypted ↦ lenient
        | _ ↦ false
      ] in
      if passed
      then record {
        completed = later.completed;
        rows = sealed ∷ later.rows;
        counter = later.counter;
      }
      else record { completed = false; rows = sealed ∷ rest; counter = counter1 }
