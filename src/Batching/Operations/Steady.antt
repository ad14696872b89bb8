-- ===== src/Batching/Operations/Steady.antt =====
-- Every operation of the dispatcher keeps the number of rows and leaves decrypted rows decrypted.
use omwj.Prelude.{ℕ, zero, suc, ◌+◌, ◌≡◌, refl, List, [], ◌∷◌, inl, inr, ◌||◌, ◌&&◌, not}
use omwj.Prelude.Tests.{ltb, Bool-cases}
use omwj.Prelude.Lists.{length}
use omwj.Prelude.Word.{eq32, lt32, is_neg}
use omwj.Constants.{dist_padding, max_attributes}
use omwj.Entry.{Entry}
use omwj.Crypto.{Cipher, apply_to_decrypted_entry, apply_to_decrypted_pair}
use omwj.Batching.Comparators.{
  comparator_join_attr_op, comparator_pairwise_op, comparator_end_first_op,
  comparator_join_then_other_op, comparator_original_index_op, comparator_alignment_key_op,
  comparator_padding_last_op, comparator_distribute_op,
}
use omwj.Batching.Window.{
  window_set_original_index_op, window_compute_local_sum_op, window_compute_local_interval_op,
  window_compute_foreign_sum_op, window_compute_foreign_interval_op,
  window_propagate_foreign_interval_op, window_compute_dst_idx_op, window_increment_index_op,
  window_expand_copy_op, window_update_copy_index_op, update_target_multiplicity_op,
  update_target_final_multiplicity_op, concat_loop, concat_attributes_op,
}
use omwj.Batching.Transform.{
  transform_add_metadata_op, transform_set_index_op, transform_init_local_temps_op,
  transform_init_final_mult_op, transform_init_foreign_temps_op, transform_to_source_op,
  transform_to_start_op, transform_to_end_op, transform_set_sort_padding_op,
  transform_set_join_attr_op, transform_init_dst_idx_op, transform_init_index_op,
  transform_mark_zero_mult_padding_op, transform_create_dist_padding_op,
  transform_init_copy_index_op, transform_compute_alignment_key_op, transform_init_metadata_null_op,
}
use omwj.Batching.Operations.{
  BatchOperation, Batch, raw, raw_second, concat_rows, if_paired, set_local_mult_one, on_row,
  run_op, run_ops, param, attr_count, OpEcall, op_ecall_comparator_join_attr,
  op_ecall_comparator_pairwise, op_ecall_comparator_end_first, op_ecall_comparator_join_then_other,
  op_ecall_comparator_original_index, op_ecall_comparator_alignment_key,
  op_ecall_comparator_padding_last, op_ecall_comparator_distribute,
  op_ecall_transform_set_local_mult_one, op_ecall_transform_add_metadata,
  op_ecall_transform_set_index, op_ecall_transform_init_local_temps,
  op_ecall_transform_init_final_mult, op_ecall_transform_init_foreign_temps,
  op_ecall_transform_to_source, op_ecall_transform_to_start, op_ecall_transform_to_end,
  op_ecall_transform_set_sort_padding, op_ecall_transform_set_join_attr,
  op_ecall_transform_init_dst_idx, op_ecall_transform_init_index,
  op_ecall_transform_mark_zero_mult_padding, op_ecall_transform_create_dist_padding,
  op_ecall_transform_init_copy_index, op_ecall_transform_compute_alignment_key,
  op_ecall_init_metadata_null, op_ecall_window_set_original_index,
  op_ecall_window_compute_local_sum, op_ecall_window_compute_local_interval,
  op_ecall_window_compute_foreign_sum, op_ecall_window_compute_foreign_interval,
  op_ecall_window_propagate_foreign_interval, op_ecall_window_compute_dst_idx,
  op_ecall_window_increment_index, op_ecall_window_expand_copy, op_ecall_window_update_copy_index,
  op_ecall_update_target_multiplicity, op_ecall_update_target_final_multiplicity,
  op_ecall_concat_attributes,
}
use omwj.Batching.Operations.Plain.{
  IfSome, IfSome-bind, IsPlain, Steady, on_row-Steady, if_paired-Steady, compare_swap-Steady,
  oblivious_swap-IsPlain,
}

concat_loop-IsPlain :
    (rounds i : ℕ) (left right : Entry) (n : ℕ)
    → IsPlain left
    → IsPlain (concat_loop rounds i left right n)
unfolding concat_loop
concat_loop-IsPlain zero i left right n h = h
concat_loop-IsPlain (suc rounds) i left right n h = elim (Bool-cases (ltb (n + i) max_attributes)) [
  | inl fits ↦ rw fits (concat_loop-IsPlain rounds (suc i) _ right n h)
  | inr full ↦ rw full h
]

window_expand_copy_op-IsPlain :
    (e1 e2 : Entry) → IsPlain e1 → IsPlain e2 → IsPlain (window_expand_copy_op e1 e2)
unfolding window_expand_copy_op
window_expand_copy_op-IsPlain e1 e2 h1 h2 = elim (Bool-cases (eq32 e2.field_type dist_padding)) [
  | inl padding ↦ rw padding h1
  | inr other ↦ rw other h2
]

module _ (secure_key : ℕ) (cipher : Cipher) where
  pub apply_to_decrypted_entry-plain :
      (operation : Entry → Entry) (e : Entry) (counter : ℕ)
      → IsPlain e
      → apply_to_decrypted_entry secure_key cipher operation e counter ≡ (operation e, counter)
  unfolding apply_to_decrypted_entry
  apply_to_decrypted_entry-plain operation e counter h = rw h refl

  pub apply_to_decrypted_pair-plain :
      (operation : Entry → Entry → Entry × Entry) (e1 e2 : Entry) (counter : ℕ)
      → IsPlain e1
      → IsPlain e2
      → apply_to_decrypted_pair secure_key cipher operation e1 e2 counter
        ≡ (let (r1, r2) = operation e1 e2 in (r1, r2, counter))
  unfolding apply_to_decrypted_pair
  apply_to_decrypted_pair-plain operation e1 e2 counter h1 h2 = rw (h1, h2) refl

  module _ (op : BatchOperation) (b : Batch) {n : ℕ} (h : Steady n b) where
    wrapped_row :
        (operation : Entry → Entry)
        → ((e : Entry) → IsPlain e → IsPlain (operation e))
        → IfSome
            (Steady n)
            (on_row (λ e. apply_to_decrypted_entry secure_key cipher operation e) op b)
    wrapped_row operation keeps =
        on_row-Steady (λ e. apply_to_decrypted_entry secure_key cipher operation e) op b
          (λ e c plain. rw (apply_to_decrypted_entry-plain operation e c plain) (keeps e plain)) h

    wrapped_second :
        (operation : Entry → Entry → Entry)
        → ((e1 e2 : Entry) → IsPlain e1 → IsPlain e2 → IsPlain (operation e1 e2))
        → IfSome (Steady n) (
            if_paired
              (apply_to_decrypted_pair secure_key cipher λ e1 e2. (e1, operation e1 e2))
              op
              b)
    wrapped_second operation keeps =
        if_paired-Steady (apply_to_decrypted_pair secure_key cipher λ e1 e2. (e1, operation e1 e2))
          op b
          (λ e1 e2 c p1 p2.
            rw (apply_to_decrypted_pair-plain (λ e1 e2. (e1, operation e1 e2)) e1 e2 c p1 p2)
              (p1, keeps e1 e2 p1 p2))
          h

    raw_row :
        (operation : Entry → Entry)
        → ((e : Entry) → IsPlain e → IsPlain (operation e))
        → IfSome (Steady n) (on_row (raw operation) op b)
    raw_row operation keeps = on_row-Steady (raw operation) op b (λ e c plain. keeps e plain) h

    raw_pair :
        (operation : Entry → Entry → Entry)
        → ((e1 e2 : Entry) → IsPlain e1 → IsPlain e2 → IsPlain (operation e1 e2))
        → IfSome (Steady n) (if_paired (raw_second operation) op b)
    raw_pair operation keeps =
        if_paired-Steady (raw_second operation) op b (λ e1 e2 c p1 p2. (p1, keeps e1 e2 p1 p2)) h

    concat_rows-Steady : IfSome (Steady n) (concat_rows op b)
    unfolding concat_attributes_op
    concat_rows-Steady =
        elim (Bool-cases
          (eq32 op.idx1 op.idx2 || (is_neg (param op 0) && ltb 0 (attr_count (param op 1))))) [
            | inl overlaps ↦ rw overlaps tt
            | inr apart ↦ rw apart (
                if_paired-Steady
                  (λ e1 e2 c.
                    (concat_attributes_op e1 e2 (param op 0) (attr_count (param op 1)), e2, c))
                  op b
                  (λ e1 e2 c p1 p2.
                    (concat_loop-IsPlain (attr_count (param op 1)) 0 e1 e2 (param op 0) p1, p2))
                  h)
          ]

    set_local_mult_one-Steady : IfSome (Steady n) (set_local_mult_one op b)
    set_local_mult_one-Steady =
        elim (Bool-cases (not (is_neg op.idx1) && lt32 op.idx1 (length b.data_array))) [
          | inl inside ↦
              rw inside (raw_row (λ e. record e { local_mult = 1; final_mult = 0 }) (λ e p. p))
          | inr outside ↦ rw outside h
        ]

    pub run_op-Steady :
        (op_type : OpEcall) → IfSome (Steady n) (run_op secure_key cipher op_type op b)
    unfolding run_op comparator_join_attr_op comparator_pairwise_op comparator_end_first_op
        comparator_join_then_other_op comparator_original_index_op comparator_alignment_key_op
        comparator_padding_last_op comparator_distribute_op transform_add_metadata_op
        transform_set_index_op transform_init_local_temps_op transform_init_final_mult_op
        transform_init_foreign_temps_op transform_to_source_op transform_to_start_op
        transform_to_end_op transform_set_sort_padding_op transform_set_join_attr_op
        transform_init_dst_idx_op transform_init_index_op transform_mark_zero_mult_padding_op
        transform_create_dist_padding_op transform_init_copy_index_op
        transform_compute_alignment_key_op transform_init_metadata_null_op
        window_set_original_index_op window_compute_local_sum_op window_compute_local_interval_op
        window_compute_foreign_sum_op window_compute_foreign_interval_op
        window_propagate_foreign_interval_op window_compute_dst_idx_op window_increment_index_op
        window_update_copy_index_op update_target_multiplicity_op
        update_target_final_multiplicity_op
    run_op-Steady op_ecall_comparator_join_attr =
        compare_swap-Steady comparator_join_attr_op op b (λ e1 e2. oblivious_swap-IsPlain e1 e2 _) h
    run_op-Steady op_ecall_comparator_pairwise =
        compare_swap-Steady comparator_pairwise_op op b (λ e1 e2. oblivious_swap-IsPlain e1 e2 _) h
    run_op-Steady op_ecall_comparator_end_first =
        compare_swap-Steady comparator_end_first_op op b (λ e1 e2. oblivious_swap-IsPlain e1 e2 _) h
    run_op-Steady op_ecall_comparator_join_then_other =
        compare_swap-Steady comparator_join_then_other_op op b
          (λ e1 e2. oblivious_swap-IsPlain e1 e2 _) h
    run_op-Steady op_ecall_comparator_original_index =
        compare_swap-Steady comparator_original_index_op op b
          (λ e1 e2. oblivious_swap-IsPlain e1 e2 _) h
    run_op-Steady op_ecall_comparator_alignment_key =
        compare_swap-Steady comparator_alignment_key_op op b
          (λ e1 e2. oblivious_swap-IsPlain e1 e2 _) h
    run_op-Steady op_ecall_comparator_padding_last =
        compare_swap-Steady comparator_padding_last_op op b
          (λ e1 e2. oblivious_swap-IsPlain e1 e2 _) h
    run_op-Steady op_ecall_comparator_distribute =
        compare_swap-Steady comparator_distribute_op op b (λ e1 e2. oblivious_swap-IsPlain e1 e2 _)
          h
    run_op-Steady op_ecall_transform_set_local_mult_one = set_local_mult_one-Steady
    run_op-Steady op_ecall_transform_add_metadata = wrapped_row transform_add_metadata_op (λ e p. p)
    run_op-Steady op_ecall_transform_set_index =
        raw_row (λ e. transform_set_index_op e (param op 0)) (λ e p. p)
    run_op-Steady op_ecall_transform_init_local_temps =
        wrapped_row transform_init_local_temps_op (λ e p. p)
    run_op-Steady op_ecall_transform_init_final_mult =
        wrapped_row transform_init_final_mult_op (λ e p. p)
    run_op-Steady op_ecall_transform_init_foreign_temps =
        wrapped_row transform_init_foreign_temps_op (λ e p. p)
    run_op-Steady op_ecall_transform_to_source = wrapped_row transform_to_source_op (λ e p. p)
    run_op-Steady op_ecall_transform_to_start =
        raw_row (λ e. transform_to_start_op e (param op 0) (param op 1)) (λ e p. p)
    run_op-Steady op_ecall_transform_to_end =
        raw_row (λ e. transform_to_end_op e (param op 0) (param op 1)) (λ e p. p)
    run_op-Steady op_ecall_transform_set_sort_padding =
        wrapped_row transform_set_sort_padding_op (λ e p. p)
    run_op-Steady op_ecall_transform_set_join_attr =
        raw_row (λ e. transform_set_join_attr_op e (param op 0)) (λ e p. p)
    run_op-Steady op_ecall_transform_init_dst_idx = wrapped_row transform_init_dst_idx_op (λ e p. p)
    run_op-Steady op_ecall_transform_init_index = wrapped_row transform_init_index_op (λ e p. p)
    run_op-Steady op_ecall_transform_mark_zero_mult_padding =
        wrapped_row transform_mark_zero_mult_padding_op (λ e p. p)
    run_op-Steady op_ecall_transform_create_dist_padding =
        wrapped_row transform_create_dist_padding_op (λ e p. p)
    run_op-Steady op_ecall_transform_init_copy_index =
        raw_row transform_init_copy_index_op (λ e p. p)
    run_op-Steady op_ecall_transform_compute_alignment_key =
        raw_row transform_compute_alignment_key_op (λ e p. p)
    run_op-Steady op_ecall_init_metadata_null =
        raw_row (λ e. transform_init_metadata_null_op e (param op 0)) (λ e p. p)
    run_op-Steady op_ecall_window_set_original_index =
        wrapped_second window_set_original_index_op (λ e1 e2 p1 p2. p2)
    run_op-Steady op_ecall_window_compute_local_sum =
        wrapped_second window_compute_local_sum_op (λ e1 e2 p1 p2. p2)
    run_op-Steady op_ecall_window_compute_local_interval =
        wrapped_second window_compute_local_interval_op (λ e1 e2 p1 p2. p2)
    run_op-Steady op_ecall_window_compute_foreign_sum =
        wrapped_second window_compute_foreign_sum_op (λ e1 e2 p1 p2. p2)
    run_op-Steady op_ecall_window_compute_foreign_interval =
        wrapped_second window_compute_foreign_interval_op (λ e1 e2 p1 p2. p2)
    run_op-Steady op_ecall_window_propagate_foreign_interval =
        wrapped_second window_propagate_foreign_interval_op (λ e1 e2 p1 p2. p2)
    run_op-Steady op_ecall_window_compute_dst_idx =
        raw_pair window_compute_dst_idx_op (λ e1 e2 p1 p2. p2)
    run_op-Steady op_ecall_window_increment_index =
        raw_pair window_increment_index_op (λ e1 e2 p1 p2. p2)
    run_op-Steady op_ecall_window_expand_copy =
        raw_pair window_expand_copy_op window_expand_copy_op-IsPlain
    run_op-Steady op_ecall_window_update_copy_index =
        raw_pair window_update_copy_index_op (λ e1 e2 p1 p2. p2)
    run_op-Steady op_ecall_update_target_multiplicity =
        wrapped_second update_target_multiplicity_op (λ e1 e2 p1 p2. p2)
    run_op-Steady op_ecall_update_target_final_multiplicity =
        wrapped_second update_target_final_multiplicity_op (λ e1 e2 p1 p2. p2)
    run_op-Steady op_ecall_concat_attributes = concat_rows-Steady

  -- A run of operations on decrypted rows that ends leaves as many rows, all of them decrypted.
  pub run_ops-Steady :
      (op_type : OpEcall) (ops : List BatchOperation) (b : Batch) {n : ℕ}
      → Steady n b
      → IfSome (Steady n) (run_ops secure_key cipher op_type ops b)
  unfolding run_ops
  run_ops-Steady op_type [] b h = h
  run_ops-Steady op_type (op ∷ ops) b h =
      IfSome-bind (Steady _) (Steady _) (run_op secure_key cipher op_type op b)
        (run_ops secure_key cipher op_type ops) (run_op-Steady op b h op_type)
        (λ b' h'. run_ops-Steady op_type ops b' h')
