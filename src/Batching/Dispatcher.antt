-- ===== src/Batching/Dispatcher.antt =====
-- ecall_batch_dispatcher of baselines/batching/enclave/trusted/batch/batch_dispatcher.c. The counts
-- of rows and operations are the lengths of the lists; malloc's answer is an argument.
pub mod Laws
use omwj.Prelude.{ℕ, Bool, ◌||◌, List, [], ◌∷◌, ◌++◌, Option, none, some}
use omwj.Prelude.Tests.{leb, ◌==◌, if◌then◌else◌}
use omwj.Prelude.Lists.{length, get_elem?}
use omwj.Prelude.Partial.{◌>>=◌}
use omwj.Entry.{Entry}
use omwj.Crypto.{Cipher}
use omwj.Batching.Batch.{plain_rows, flags, decrypt_rows, reseal_rows}
use omwj.Batching.Operations.{BatchOperation, Batch, op_ecalls, run_ops}

module _ (secure_key : ℕ) (cipher : Cipher) where
  -- The switch over the decrypted rows, and the encryption of the rows that were encrypted. A number
  -- that names no operation fails the assertion.
  unfoldable pub dispatch : ℕ → List BatchOperation → List ℕ → Batch → Option Batch
  unfolding run_ops op_ecalls reseal_rows
  dispatch op_type_int ops was_encrypted batch = do
    op_type ← get_elem? op_ecalls op_type_int
    done ← run_ops secure_key cipher op_type ops batch
    let (rows, counter) = reseal_rows secure_key cipher was_encrypted done.data_array done.counter
    some (record { data_array = rows; counter = counter })

  -- The rows and the nonce counter. `none` is a failed assertion, an access outside the batch, or
  -- the release of the static buffer after a row of a small batch that does not decrypt.
  unfoldable pub ecall_batch_dispatcher :
      Bool → List Entry → List BatchOperation → ℕ → ℕ → Option Batch
  unfolding dispatch decrypt_rows reseal_rows
  ecall_batch_dispatcher allocates data_array ops_array op_type_int counter =
      let opening = decrypt_rows secure_key cipher data_array in
      let was_encrypted = flags opening.decrypted in
      let plain = plain_rows opening.decrypted in
      let back = reseal_rows secure_key cipher was_encrypted plain counter in
      let unchanged : Option Batch = some (record { data_array = data_array; counter = counter }) in
      let is_static = leb (length data_array) 2048 in
      let worked : Option Batch = elim opening.left [
        | [] ↦
            dispatch op_type_int ops_array was_encrypted
              (record { data_array = plain; counter = counter })
        | failed ∷ behind ↦
            if is_static
            then none
            else some (record { data_array = back.0 ++ failed ∷ behind; counter = back.1 })
      ] in
      if length data_array == 0 || length ops_array == 0
      then unchanged
      else (if is_static || allocates then worked else unchanged)
