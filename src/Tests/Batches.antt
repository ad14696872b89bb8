-- ===== src/Tests/Batches.antt =====
-- Examples of the batch calls of the batching baseline.
use omwj.Prelude.{◌≡◌, ◌+◌, refl, false, List, [], ◌∷◌, map, some, inl, inr, Perm, arith}
use omwj.Prelude.Lists.{All, get_elem?}
use omwj.Prelude.Word.{eq32, skey, is_neg, add32}
use omwj.Constants.{sort_padding}
use omwj.Entry.Words.{words}
use omwj.Skinny.Ranks.{join_rank}
use omwj.Entry.{Entry}
use omwj.Crypto.{apply_to_decrypted_pair, crypt_regions, aes_decrypt_entry}
use omwj.Batching.Orders.{sk_view, IsSafe}
use omwj.Batching.Exchanges.{IsRow}
use omwj.Batching.Below.{compare_join_attr_lem}
use omwj.Batching.Merge.{get_merge_comparator}
use omwj.Batching.Window.{window_set_original_index_op}
use omwj.Batching.Heap.Sifts.{Tells}
use omwj.Batching.Heap.Sorts.{InOrder}
use omwj.Batching.Batch.{Sealing}
use omwj.Batching.Batch.Laws.{Opens, AllOpens, AllReseals, flags_of}
use omwj.Batching.Batch.Encrypted.{Encrypted}
use omwj.Batching.Operations.{
  Batch, BatchOperation, op_ecall_window_set_original_index, op_ecalls, run_ops,
}
use omwj.Batching.Dispatcher.{ecall_batch_dispatcher}
use omwj.Batching.Dispatcher.Laws.{ecall_batch_dispatcher_lem}
use omwj.Batching.Sorted.{ecall_heap_sort, ecall_heap_sort-sorts}
use omwj.Batching.Shuffle.{ecall_oblivious_2way_waksman}
use omwj.Batching.Shuffle.Call.{ecall_oblivious_2way_waksman-shuffles}
use omwj.Tests.Machine.{row, row-IsRow, IsWords-check, shift_cipher, shift_cipher-Sound}

abbrev first : Entry
first = row 1 20 4 9

abbrev second : Entry
second = row 1 7 0 5

-- The second row, encrypted under the nonce 3.
abbrev sealed_second : Entry
sealed_second = record second {
  field_type = 4;
  equality_type = 4;
  is_encrypted = 1;
  nonce = 3;
  join_attr = 11;
  original_index = 4;
  local_mult = 5;
  final_mult = 4;
  foreign_sum = 4;
  local_cumsum = 4;
  local_interval = 4;
  foreign_interval = 4;
  local_weight = 4;
  copy_index = 4;
  alignment_key = 4;
  dst_idx = 4;
  index = 4;
  attributes = map (λ w. w + 4) second.attributes;
}

abbrev opened_second : Entry
opened_second = record second { nonce = 3 }

two-AllOpens : AllOpens 5 shift_cipher (first ∷ sealed_second ∷ []) (first ∷ opened_second ∷ [])
unfolding aes_decrypt_entry crypt_regions
two-AllOpens =
    let one : Opens 5 shift_cipher first first = record {
      opened = refl;
      bare = refl;
      marked = inl refl;
    } in
    let two : Opens 5 shift_cipher sealed_second opened_second = record {
      opened = refl;
      bare = refl;
      marked = inr refl;
    } in
    (one, (two, tt))

abbrev operation : BatchOperation
operation = record { idx1 = 0; idx2 = 1; extra_params = 0 ∷ 0 ∷ 0 ∷ 0 ∷ [] }

abbrev numbered : Batch
numbered = record {
  data_array = first ∷ record opened_second { original_index = 5 } ∷ [];
  counter = 8;
}

two-numbered :
    run_ops 5 shift_cipher op_ecall_window_set_original_index
      (operation ∷ [])
      (record { data_array = first ∷ opened_second ∷ []; counter = 8 })
    ≡ some numbered
unfolding run_ops window_set_original_index_op eq32 is_neg apply_to_decrypted_pair add32
two-numbered = refl

known_number : get_elem? op_ecalls 26 ≡ some op_ecall_window_set_original_index
unfolding op_ecalls
known_number = refl

ecall_batch_dispatcher_lem_example :
    (out : Batch) × (ecall_batch_dispatcher 5 shift_cipher false
        (first ∷ sealed_second ∷ [])
        (operation ∷ [])
        26
        8
      ≡ some out)
    × AllReseals 5 shift_cipher
        (flags_of 5 shift_cipher (first ∷ sealed_second ∷ []))
        numbered.data_array
        out.data_array
ecall_batch_dispatcher_lem_example =
    ecall_batch_dispatcher_lem 5 shift_cipher shift_cipher-Sound false (first ∷ sealed_second ∷ [])
      (first ∷ opened_second ∷ []) (operation ∷ []) 26 8 op_ecall_window_set_original_index numbered
      (omega arith) (omega arith) (inl (omega arith)) two-AllOpens known_number two-numbered

-- A row that is no padding and has a safe join key.
abbrev IsKeyed : Entry → Type 0
IsKeyed e = (eq32 e.field_type sort_padding ≡ false) × IsSafe e.join_attr

compare_join_attr-Tells : Tells (λ e. join_rank (sk_view e)) IsKeyed (get_merge_comparator 0)
unfolding get_merge_comparator
compare_join_attr-Tells x y (px, sx) (py, sy) =
    let told = compare_join_attr_lem x y (rw px refl) (λ h. sx) (λ h. sy) in rw told (ground arith)

two-IsKeyed : All IsKeyed (first ∷ opened_second ∷ [])
unfolding eq32 skey
two-IsKeyed = ((refl, (omega arith, omega arith)), ((refl, (omega arith, omega arith)), tt))

ecall_heap_sort-sorts_example :
    (out : Sealing) × (sorted : List Entry) × (ecall_heap_sort 5 shift_cipher
        (first ∷ sealed_second ∷ [])
        0
        8
      ≡ some out)
    × Perm sorted (first ∷ opened_second ∷ [])
    × InOrder (λ e. join_rank (sk_view e)) sorted
    × Encrypted 5 shift_cipher shift_cipher-Sound sorted out
ecall_heap_sort-sorts_example =
    ecall_heap_sort-sorts 5 shift_cipher shift_cipher-Sound (λ e. join_rank (sk_view e)) IsKeyed
      (first ∷ sealed_second ∷ []) (first ∷ opened_second ∷ []) 0 8 compare_join_attr-Tells
      (omega arith) (omega arith) two-AllOpens two-IsKeyed

two-IsRow : All IsRow (first ∷ opened_second ∷ [])
two-IsRow = (row-IsRow 1 20 4 9 refl, ((refl, IsWords-check (words opened_second) refl), tt))

ecall_oblivious_2way_waksman-shuffles_example :
    (out : Sealing) × (mixed : List Entry) × (ecall_oblivious_2way_waksman 5 shift_cipher
        (first ∷ sealed_second ∷ [])
        8
      ≡ some out)
    × Perm mixed (first ∷ opened_second ∷ [])
    × Encrypted 5 shift_cipher shift_cipher-Sound mixed out
ecall_oblivious_2way_waksman-shuffles_example =
    ecall_oblivious_2way_waksman-shuffles 5 shift_cipher shift_cipher-Sound 1
      (first ∷ sealed_second ∷ []) (first ∷ opened_second ∷ []) 8 (omega arith) refl two-AllOpens
      two-IsRow
