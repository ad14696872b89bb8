-- ===== src/Batching/Sorted.antt =====
-- ecall_heap_sort of baselines/batching/enclave/trusted/algorithms/heap_sort.c: a batch is
-- decrypted, sorted by a comparator that a number picks, and encrypted.
use mathlib.Core.List.{append-nil}
use omwj.Prelude.{
  ℕ, ◌^◌, ◌≡◌, ◌<◌, refl, false, true, List, [], ◌∷◌, ◌++◌, Option, some, Perm, arith,
}
use omwj.Prelude.Tests.{◌==◌, if◌then◌else◌}
use omwj.Prelude.Lists.{length, All}
use omwj.Prelude.Partial.{◌>>=◌}
use omwj.Entry.{Entry}
use omwj.Crypto.{Cipher}
use omwj.Crypto.Laws.{Sound}
use omwj.Batching.Merge.{get_merge_comparator}
use omwj.Batching.Heap.{heap_sort}
use omwj.Batching.Heap.Sifts.{Tells}
use omwj.Batching.Heap.Sorts.{InOrder, heap_sort-sorts}
use omwj.Batching.Batch.{Sealing, decrypt_rows, plain_rows, encrypt_back, encrypt_rows}
use omwj.Batching.Batch.Laws.{
  AllOpens, length-AllOpens, IsPlain-Perm, plains-IsPlain, opened_upto, done_rows,
}
use omwj.Batching.Batch.Encrypted.{Encrypted, encrypt_rows-Encrypted}

module _ (secure_key : ℕ) (cipher : Cipher) where
  -- `none` is an access out of bounds. The error path encrypts every row before the one that fails.
  unfoldable pub ecall_heap_sort : List Entry → ℕ → ℕ → Option Sealing
  unfolding heap_sort decrypt_rows encrypt_back encrypt_rows get_merge_comparator
  ecall_heap_sort array comparator_type counter =
      let opening = decrypt_rows secure_key cipher array in
      let plain = plain_rows opening.decrypted in
      let back = encrypt_back secure_key cipher plain counter in
      let worked : Option Sealing = elim opening.left [
        | failed ∷ behind ↦
            some (record { completed = false; rows = back.0 ++ failed ∷ behind; counter = back.1 })
        | [] ↦ do
          sorted ← heap_sort (get_merge_comparator comparator_type) plain
          some (encrypt_rows secure_key cipher false sorted counter)
      ] in
      if length array == 0
      then some (record { completed = true; rows = array; counter = counter })
      else worked

  sorted_lem :
      (array plains sorted : List Entry) (comparator_type counter : ℕ)
      → 0 < length array
      → let opening = decrypt_rows secure_key cipher array in
        (plain_rows opening.decrypted ≡ plains)
        → opening.left ≡ []
        → heap_sort (get_merge_comparator comparator_type) plains ≡ some sorted
        → ecall_heap_sort array comparator_type counter
          ≡ some (encrypt_rows secure_key cipher false sorted counter)
  unfolding ecall_heap_sort
  sorted_lem array plains sorted comparator_type counter some_rows same left run =
      let many : (length array == 0) ≡ false = ground (arith, some_rows) in
      rw (many, left) (rw same (rw (run, ◌>>=◌) refl))

  module _ (sound : Sound cipher) (rank : Entry → ℕ) (P : Entry → Type 0) where
    -- Under a sound cipher, let every row of a batch of less than 2 ^ 32 be decrypted already or
    -- decrypt, and let the
    -- comparator of the number tell the order of a rank on the decrypted rows. Then ecall_heap_sort
    -- succeeds: it leaves every row encrypted, and the rows decrypt, up to their nonces, to a
    -- permutation of the decrypted rows in the order of the rank.
    pub ecall_heap_sort-sorts :
        (array plains : List Entry) (comparator_type counter : ℕ)
        → Tells rank P (get_merge_comparator comparator_type)
        → 0 < length array
        → length array < 2 ^ 32
        → AllOpens secure_key cipher array plains
        → All P plains
        → (out : Sealing) × (sorted : List Entry) × (ecall_heap_sort array comparator_type counter
            ≡ some out)
          × Perm sorted plains
          × InOrder rank sorted
          × Encrypted secure_key cipher sound sorted out
    ecall_heap_sort-sorts array plains comparator_type counter tells some_rows small opens kind =
        let whole =
          opened_upto secure_key cipher array plains [] [] opens (done_rows secure_key cipher) in
        let (same, marks, left) = rw (append-nil array) at whole in
        let (sorted, run, perm, ordered) =
          heap_sort-sorts rank P (get_merge_comparator comparator_type) tells plains
            (rw (length-AllOpens secure_key cipher array plains opens) small) kind in
        let bare =
          IsPlain-Perm plains sorted perm (plains-IsPlain secure_key cipher array plains opens) in
        (
          encrypt_rows secure_key cipher false sorted counter,
          sorted,
          sorted_lem array plains sorted comparator_type counter some_rows same left run,
          perm,
          ordered,
          encrypt_rows-Encrypted secure_key cipher sound false sorted counter bare,
        )
