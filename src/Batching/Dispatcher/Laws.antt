-- ===== src/Batching/Dispatcher/Laws.antt =====
-- The dispatcher against its operations on decrypted rows.
use mathlib.Core.List.{append-nil}
use omwj.Prelude.{
  ℕ, ◌≡◌, ◌≤◌, ◌<◌, refl, sym, ◌∙◌, Bool, true, false, ◌||◌, List, [], some, inl, inr, arith, ◌⊎◌,
}
use omwj.Prelude.Tests.{leb, ◌==◌, Bool-cases}
use omwj.Prelude.Lists.{length, get_elem?, length-map}
use omwj.Prelude.Partial.{◌>>=◌}
use omwj.Entry.{Entry}
use omwj.Crypto.{Cipher}
use omwj.Crypto.Laws.{Sound}
use omwj.Batching.Batch.{plain_rows, flags, decrypt_rows, reseal_rows}
use omwj.Batching.Batch.Laws.{
  AllOpens, AllReseals, flags_of, reseal_rows-AllReseals, plains-IsPlain, flags-IsFlag,
  length-AllOpens, opened_upto, done_rows,
}
use omwj.Batching.Operations.{BatchOperation, Batch, OpEcall, op_ecalls, run_ops}
use omwj.Batching.Operations.Plain.{Steady}
use omwj.Batching.Operations.Steady.{run_ops-Steady}
use omwj.Batching.Dispatcher.{dispatch, ecall_batch_dispatcher}

module _ (rows : List Entry) (ops : List BatchOperation) (allocates : Bool) where
  nonempty : 0 < length rows → 0 < length ops → (length rows == 0 || length ops == 0) ≡ false
  nonempty some_rows some_ops =
      let no_rows : (length rows == 0) ≡ false = ground (arith, some_rows) in
      let no_ops : (length ops == 0) ≡ false = ground (arith, some_ops) in rw (no_rows, no_ops) refl

  -- The flags fit the static buffer, or an allocated one.
  abbrev pub HasRoom : Type 0
  HasRoom = (length rows ≤ 2048) ⊎ (allocates ≡ true)

  has_room : HasRoom → (leb (length rows) 2048 || allocates) ≡ true
  has_room (inl small) =
      let fits : leb (length rows) 2048 ≡ true = ground (arith, small) in rw fits refl
  has_room (inr granted) = elim (Bool-cases (leb (length rows) 2048)) [
    | inl small ↦ rw small refl
    | inr large ↦ rw (large, granted) refl
  ]

module _ (secure_key : ℕ) (cipher : Cipher) where
  -- what remains behind the guards
  dispatched_lem :
      (allocates : Bool) (rows : List Entry) (ops : List BatchOperation) (n counter : ℕ)
      → 0 < length rows
      → 0 < length ops
      → HasRoom rows ops allocates
      → let opening = decrypt_rows secure_key cipher rows in
        opening.left ≡ []
        → ecall_batch_dispatcher secure_key cipher allocates rows ops n counter
          ≡ dispatch secure_key cipher n ops
              (flags opening.decrypted)
              (record { data_array = plain_rows opening.decrypted; counter = counter })
  unfolding ecall_batch_dispatcher
  dispatched_lem allocates rows ops n counter some_rows some_ops room opens =
      rw (nonempty rows ops allocates some_rows some_ops, has_room rows ops allocates room, opens)
        refl

  done_lem :
      (n : ℕ) (ops : List BatchOperation) (fs : List ℕ) (b done : Batch) {op_type : OpEcall}
      → get_elem? op_ecalls n ≡ some op_type
      → run_ops secure_key cipher op_type ops b ≡ some done
      → dispatch secure_key cipher n ops fs b
        ≡ some (
            let (rows, c) = reseal_rows secure_key cipher fs done.data_array done.counter in
            record { data_array = rows; counter = c })
  unfolding dispatch
  done_lem n ops fs b done known ran = rw (known, ◌>>=◌) (rw (ran, ◌>>=◌) refl)

  module _ (sound : Sound cipher) where
    -- Under a sound cipher, let every row of a batch be decrypted already or decrypt, let there be at
    -- most 2048 rows or memory for their flags, let the number name an operation, and let the
    -- operations, run on the decrypted rows, end with a result. Then the dispatcher returns: each row
    -- is encrypted exactly if it was, and is or decrypts to the row of that result, with another
    -- nonce.
    pub ecall_batch_dispatcher_lem :
        (allocates : Bool) (rows plains : List Entry) (ops : List BatchOperation) (n counter : ℕ)
        (op_type : OpEcall) (done : Batch)
        → 0 < length rows
        → 0 < length ops
        → HasRoom rows ops allocates
        → AllOpens secure_key cipher rows plains
        → get_elem? op_ecalls n ≡ some op_type
        → run_ops secure_key cipher op_type ops (record { data_array = plains; counter = counter })
          ≡ some done
        → (out : Batch) × (ecall_batch_dispatcher secure_key cipher allocates rows ops n counter
            ≡ some out)
          × AllReseals secure_key cipher
              (flags_of secure_key cipher rows)
              done.data_array
              out.data_array
    ecall_batch_dispatcher_lem allocates rows plains ops n counter op_type done some_rows some_ops
          room opens known ran =
        let whole =
          opened_upto secure_key cipher rows plains [] [] opens (done_rows secure_key cipher) in
        let (same, marks, left) = rw (append-nil rows) at whole in
        let start : Batch = record { data_array = plains; counter = counter } in
        let fs = flags_of secure_key cipher rows in
        let size = length-AllOpens secure_key cipher rows plains opens in
        let steady : Steady (length rows) start =
          (size, plains-IsPlain secure_key cipher rows plains opens) in
        let kept : Steady (length rows) done =
          rw ran at (run_ops-Steady secure_key cipher op_type ops start steady) in
        let sizes : length done.data_array ≡ length fs = kept.0 ∙ sym (length-map _ rows) in
        let sealed =
          reseal_rows-AllReseals secure_key cipher sound fs done.data_array done.counter
            (flags-IsFlag secure_key cipher rows plains opens) kept.1 sizes in
        let reached = dispatched_lem allocates rows ops n counter some_rows some_ops room left in
        let run = rw (same, marks) at reached in
        (_, run ∙ done_lem n ops fs start done known ran, sealed)
