-- ===== src/Batching/Operations.antt =====
-- baselines/batching/common/batch_types.h and the batch operations of
-- baselines/batching/enclave/trusted/batch/batch_dispatcher.c on decrypted rows. `none` is a failed
-- assertion, an index outside the batch, a row concatenated with itself, or a negative slot.
pub mod Plain
pub mod Steady
use omwj.Prelude.{ℕ, ◌%◌, Bool, true, false, ◌&&◌, ◌||◌, not, List, [], ◌∷◌, Option, none, some}
use omwj.Prelude.Tests.{ltb, ◌==◌, if◌then◌else◌}
use omwj.Prelude.Lists.{length, get_elem?, set}
use omwj.Prelude.Partial.{◌>>=◌}
use omwj.Prelude.Word.{modulus, minus_one, eq32, lt32, is_neg}
use omwj.Entry.{Entry}
use omwj.Crypto.{Cipher}
use omwj.Batching.Comparators.{
  comparator_join_attr_op, comparator_pairwise_op, comparator_end_first_op,
  comparator_join_then_other_op, comparator_original_index_op, comparator_alignment_key_op,
  comparator_padding_last_op, comparator_distribute_op,
}
use omwj.Batching.Window.{
  window_compute_dst_idx_op, window_increment_index_op, window_expand_copy_op,
  window_update_copy_index_op, concat_attributes_op,
}
use omwj.Batching.Transform.{
  transform_set_index_op, transform_to_start_op, transform_to_end_op, transform_set_join_attr_op,
  transform_init_copy_index_op, transform_compute_alignment_key_op, transform_init_metadata_null_op,
}
use omwj.Batching.Sealed.{
  transform_add_metadata, transform_init_local_temps, transform_init_final_mult,
  transform_init_foreign_temps, transform_to_source, transform_set_sort_padding,
  transform_init_dst_idx, transform_init_index, transform_mark_zero_mult_padding,
  transform_create_dist_padding, window_set_original_index, window_compute_local_sum,
  window_compute_local_interval, window_compute_foreign_sum, window_compute_foreign_interval,
  window_propagate_foreign_interval, update_target_multiplicity, update_target_final_multiplicity,
}

-- Its three int32_t as words; extra_params has four of them.
pub record BatchOperation : Type 0 where
  pub idx1 : ℕ
  pub idx2 : ℕ
  pub extra_params : List ℕ

pub data OpEcall : Type 0 where
  op_ecall_comparator_join_attr : OpEcall
  op_ecall_comparator_pairwise : OpEcall
  op_ecall_comparator_end_first : OpEcall
  op_ecall_comparator_join_then_other : OpEcall
  op_ecall_comparator_original_index : OpEcall
  op_ecall_comparator_alignment_key : OpEcall
  op_ecall_comparator_padding_last : OpEcall
  op_ecall_comparator_distribute : OpEcall
  op_ecall_transform_set_local_mult_one : OpEcall
  op_ecall_transform_add_metadata : OpEcall
  op_ecall_transform_set_index : OpEcall
  op_ecall_transform_init_local_temps : OpEcall
  op_ecall_transform_init_final_mult : OpEcall
  op_ecall_transform_init_foreign_temps : OpEcall
  op_ecall_transform_to_source : OpEcall
  op_ecall_transform_to_start : OpEcall
  op_ecall_transform_to_end : OpEcall
  op_ecall_transform_set_sort_padding : OpEcall
  op_ecall_transform_set_join_attr : OpEcall
  op_ecall_transform_init_dst_idx : OpEcall
  op_ecall_transform_init_index : OpEcall
  op_ecall_transform_mark_zero_mult_padding : OpEcall
  op_ecall_transform_create_dist_padding : OpEcall
  op_ecall_transform_init_copy_index : OpEcall
  op_ecall_transform_compute_alignment_key : OpEcall
  op_ecall_init_metadata_null : OpEcall
  op_ecall_window_set_original_index : OpEcall
  op_ecall_window_compute_local_sum : OpEcall
  op_ecall_window_compute_local_interval : OpEcall
  op_ecall_window_compute_foreign_sum : OpEcall
  op_ecall_window_compute_foreign_interval : OpEcall
  op_ecall_window_propagate_foreign_interval : OpEcall
  op_ecall_window_compute_dst_idx : OpEcall
  op_ecall_window_increment_index : OpEcall
  op_ecall_window_expand_copy : OpEcall
  op_ecall_window_update_copy_index : OpEcall
  op_ecall_update_target_multiplicity : OpEcall
  op_ecall_update_target_final_multiplicity : OpEcall
  op_ecall_concat_attributes : OpEcall

-- the enumeration in its order
unfoldable pub op_ecalls : List OpEcall
op_ecalls =
    op_ecall_comparator_join_attr ∷ op_ecall_comparator_pairwise ∷ op_ecall_comparator_end_first
    ∷ op_ecall_comparator_join_then_other ∷ op_ecall_comparator_original_index
    ∷ op_ecall_comparator_alignment_key ∷ op_ecall_comparator_padding_last
    ∷ op_ecall_comparator_distribute ∷ op_ecall_transform_set_local_mult_one
    ∷ op_ecall_transform_add_metadata ∷ op_ecall_transform_set_index
    ∷ op_ecall_transform_init_local_temps ∷ op_ecall_transform_init_final_mult
    ∷ op_ecall_transform_init_foreign_temps ∷ op_ecall_transform_to_source
    ∷ op_ecall_transform_to_start ∷ op_ecall_transform_to_end ∷ op_ecall_transform_set_sort_padding
    ∷ op_ecall_transform_set_join_attr ∷ op_ecall_transform_init_dst_idx
    ∷ op_ecall_transform_init_index ∷ op_ecall_transform_mark_zero_mult_padding
    ∷ op_ecall_transform_create_dist_padding ∷ op_ecall_transform_init_copy_index
    ∷ op_ecall_transform_compute_alignment_key ∷ op_ecall_init_metadata_null
    ∷ op_ecall_window_set_original_index ∷ op_ecall_window_compute_local_sum
    ∷ op_ecall_window_compute_local_interval ∷ op_ecall_window_compute_foreign_sum
    ∷ op_ecall_window_compute_foreign_interval ∷ op_ecall_window_propagate_foreign_interval
    ∷ op_ecall_window_compute_dst_idx ∷ op_ecall_window_increment_index
    ∷ op_ecall_window_expand_copy ∷ op_ecall_window_update_copy_index
    ∷ op_ecall_update_target_multiplicity ∷ op_ecall_update_target_final_multiplicity
    ∷ op_ecall_concat_attributes ∷ []

-- The rows and the nonce counter.
pub record Batch : Type 0 where
  pub data_array : List Entry
  pub counter : ℕ

-- `data_array[idx]`, for an index that may be negative
abbrev pub entry_at : List Entry → ℕ → Option Entry
entry_at rows idx = if is_neg idx then none else get_elem? rows (idx % modulus)

abbrev pub param : BatchOperation → ℕ → ℕ
param op i = elim (get_elem? op.extra_params i) [ some v ↦ v | none ↦ 0 ]

-- A call on one row.
abbrev pub on_row : (Entry → ℕ → Entry × ℕ) → BatchOperation → Batch → Option Batch
on_row f op b = do
  e ← entry_at b.data_array op.idx1
  let (e', counter) = f e b.counter
  some (record { data_array = set b.data_array (op.idx1 % modulus) e'; counter = counter })

-- A call on two rows.
abbrev pub on_pair : (Entry → Entry → ℕ → Entry × Entry × ℕ) → BatchOperation → Batch → Option Batch
on_pair f op b = do
  e1 ← entry_at b.data_array op.idx1
  e2 ← entry_at b.data_array op.idx2
  let (e1', e2', counter) = f e1 e2 b.counter
  let first = set b.data_array (op.idx1 % modulus) e1'
  some (record { data_array = set first (op.idx2 % modulus) e2'; counter = counter })

-- the loop body of a comparator, with its assertion
abbrev pub compare_swap : (Entry → Entry → Entry × Entry) → BatchOperation → Batch → Option Batch
compare_swap f op b =
    if eq32 op.idx2 minus_one
    then none
    else on_pair (λ e1 e2 c. let (e1', e2') = f e1 e2 in (e1', e2', c)) op b

-- `if (ops_array[i].idx2 != BATCH_NO_PARAM)`
abbrev pub if_paired :
    (Entry → Entry → ℕ → Entry × Entry × ℕ) → BatchOperation → Batch → Option Batch
if_paired f op b = if eq32 op.idx2 minus_one then some b else on_pair f op b

-- An operation on plain rows.
abbrev pub raw : (Entry → Entry) → Entry → ℕ → Entry × ℕ
raw f e counter = (f e, counter)

abbrev pub raw_second : (Entry → Entry → Entry) → Entry → Entry → ℕ → Entry × Entry × ℕ
raw_second f e1 e2 counter = (e1, f e1 e2, counter)

-- A negative count of attributes ends the loop at once, as 0 does.
abbrev pub attr_count : ℕ → ℕ
attr_count n = if is_neg n then 0 else n % modulus

abbrev pub concat_rows : BatchOperation → Batch → Option Batch
concat_rows op b =
    let joined : Option Batch =
      if_paired
        (λ e1 e2 c. (concat_attributes_op e1 e2 (param op 0) (attr_count (param op 1)), e2, c)) op
        b in
    let overlaps =
      eq32 op.idx1 op.idx2 || (is_neg (param op 0) && ltb 0 (attr_count (param op 1))) in
    if overlaps then none else joined

-- the bounds check and the two assignments
abbrev pub set_local_mult_one : BatchOperation → Batch → Option Batch
set_local_mult_one op b =
    if not (is_neg op.idx1) && lt32 op.idx1 (length b.data_array)
    then on_row (raw λ e. record e { local_mult = 1; final_mult = 0 }) op b
    else some b

module _ (secure_key : ℕ) (cipher : Cipher) where
  -- one round of the loop of a case
  unfoldable pub run_op : OpEcall → BatchOperation → Batch → Option Batch
  run_op op_ecall_comparator_join_attr op b = compare_swap comparator_join_attr_op op b
  run_op op_ecall_comparator_pairwise op b = compare_swap comparator_pairwise_op op b
  run_op op_ecall_comparator_end_first op b = compare_swap comparator_end_first_op op b
  run_op op_ecall_comparator_join_then_other op b = compare_swap comparator_join_then_other_op op b
  run_op op_ecall_comparator_original_index op b = compare_swap comparator_original_index_op op b
  run_op op_ecall_comparator_alignment_key op b = compare_swap comparator_alignment_key_op op b
  run_op op_ecall_comparator_padding_last op b = compare_swap comparator_padding_last_op op b
  run_op op_ecall_comparator_distribute op b = compare_swap comparator_distribute_op op b
  run_op op_ecall_transform_set_local_mult_one op b = set_local_mult_one op b
  run_op op_ecall_transform_add_metadata op b =
      on_row (transform_add_metadata secure_key cipher) op b
  run_op op_ecall_transform_set_index op b =
      on_row (raw λ e. transform_set_index_op e (param op 0)) op b
  run_op op_ecall_transform_init_local_temps op b =
      on_row (transform_init_local_temps secure_key cipher) op b
  run_op op_ecall_transform_init_final_mult op b =
      on_row (transform_init_final_mult secure_key cipher) op b
  run_op op_ecall_transform_init_foreign_temps op b =
      on_row (transform_init_foreign_temps secure_key cipher) op b
  run_op op_ecall_transform_to_source op b = on_row (transform_to_source secure_key cipher) op b
  run_op op_ecall_transform_to_start op b =
      on_row (raw λ e. transform_to_start_op e (param op 0) (param op 1)) op b
  run_op op_ecall_transform_to_end op b =
      on_row (raw λ e. transform_to_end_op e (param op 0) (param op 1)) op b
  run_op op_ecall_transform_set_sort_padding op b =
      on_row (transform_set_sort_padding secure_key cipher) op b
  run_op op_ecall_transform_set_join_attr op b =
      on_row (raw λ e. transform_set_join_attr_op e (param op 0)) op b
  run_op op_ecall_transform_init_dst_idx op b =
      on_row (transform_init_dst_idx secure_key cipher) op b
  run_op op_ecall_transform_init_index op b = on_row (transform_init_index secure_key cipher) op b
  run_op op_ecall_transform_mark_zero_mult_padding op b =
      on_row (transform_mark_zero_mult_padding secure_key cipher) op b
  run_op op_ecall_transform_create_dist_padding op b =
      on_row (transform_create_dist_padding secure_key cipher) op b
  run_op op_ecall_transform_init_copy_index op b = on_row (raw transform_init_copy_index_op) op b
  run_op op_ecall_transform_compute_alignment_key op b =
      on_row (raw transform_compute_alignment_key_op) op b
  run_op op_ecall_init_metadata_null op b =
      on_row (raw λ e. transform_init_metadata_null_op e (param op 0)) op b
  run_op op_ecall_window_set_original_index op b =
      if_paired (window_set_original_index secure_key cipher) op b
  run_op op_ecall_window_compute_local_sum op b =
      if_paired (window_compute_local_sum secure_key cipher) op b
  run_op op_ecall_window_compute_local_interval op b =
      if_paired (window_compute_local_interval secure_key cipher) op b
  run_op op_ecall_window_compute_foreign_sum op b =
      if_paired (window_compute_foreign_sum secure_key cipher) op b
  run_op op_ecall_window_compute_foreign_interval op b =
      if_paired (window_compute_foreign_interval secure_key cipher) op b
  run_op op_ecall_window_propagate_foreign_interval op b =
      if_paired (window_propagate_foreign_interval secure_key cipher) op b
  run_op op_ecall_window_compute_dst_idx op b =
      if_paired (raw_second window_compute_dst_idx_op) op b
  run_op op_ecall_window_increment_index op b =
      if_paired (raw_second window_increment_index_op) op b
  run_op op_ecall_window_expand_copy op b = if_paired (raw_second window_expand_copy_op) op b
  run_op op_ecall_window_update_copy_index op b =
      if_paired (raw_second window_update_copy_index_op) op b
  run_op op_ecall_update_target_multiplicity op b =
      if_paired (update_target_multiplicity secure_key cipher) op b
  run_op op_ecall_update_target_final_multiplicity op b =
      if_paired (update_target_final_multiplicity secure_key cipher) op b
  run_op op_ecall_concat_attributes op b = concat_rows op b

  -- the loop of a case
  unfoldable pub run_ops : OpEcall → List BatchOperation → Batch → Option Batch
  unfolding run_op
  run_ops op_type [] b = some b
  run_ops op_type (op ∷ ops) b = run_op op_type op b >>= run_ops op_type ops
