-- ===== src/Batching/Sealed.antt =====
-- baselines/batching/enclave/trusted/operations: the operations on rows that may be encrypted. Each
-- takes the nonce counter and gives it back.
use omwj.Prelude.{ℕ}
use omwj.Prelude.Tests.{◌==◌, if◌then◌else◌}
use omwj.Prelude.Word.{add32}
use omwj.Entry.{Entry}
use omwj.Crypto.{Cipher, aes_decrypt_entry, apply_to_decrypted_entry, apply_to_decrypted_pair}
use omwj.Batching.Comparators.{
  comparator_join_attr_op, comparator_pairwise_op, comparator_end_first_op,
  comparator_join_then_other_op, comparator_original_index_op, comparator_alignment_key_op,
  comparator_padding_last_op, comparator_distribute_op,
}
use omwj.Batching.Window.{
  window_set_original_index_op, update_target_multiplicity_op, update_target_final_multiplicity_op,
  window_compute_local_sum_op, window_compute_local_interval_op, window_compute_foreign_sum_op,
  window_compute_foreign_interval_op, window_propagate_foreign_interval_op,
  window_compute_dst_idx_op, window_increment_index_op, window_expand_copy_op,
  window_update_copy_index_op,
}
use omwj.Batching.Transform.{
  transform_set_local_mult_one_op, transform_add_metadata_op, transform_init_local_temps_op,
  transform_to_source_op, transform_set_sort_padding_op, transform_init_final_mult_op,
  transform_init_foreign_temps_op, transform_init_dst_idx_op, transform_init_index_op,
  transform_mark_zero_mult_padding_op, transform_create_dist_padding_op,
  transform_init_copy_index_op, transform_compute_alignment_key_op, transform_set_index_op,
  transform_to_start_op, transform_to_end_op, transform_set_join_attr_op,
  transform_init_metadata_null_op,
}

module _ (secure_key : ℕ) (cipher : Cipher) where
  -- A step that changes the second row only.
  abbrev second_only : (Entry → Entry → Entry) → Entry → Entry → Entry × Entry
  second_only op e1 e2 = (e1, op e1 e2)

  abbrev pub comparator_join_attr : Entry → Entry → ℕ → Entry × Entry × ℕ
  comparator_join_attr = apply_to_decrypted_pair secure_key cipher comparator_join_attr_op

  abbrev pub comparator_pairwise : Entry → Entry → ℕ → Entry × Entry × ℕ
  comparator_pairwise = apply_to_decrypted_pair secure_key cipher comparator_pairwise_op

  abbrev pub comparator_end_first : Entry → Entry → ℕ → Entry × Entry × ℕ
  comparator_end_first = apply_to_decrypted_pair secure_key cipher comparator_end_first_op

  abbrev pub comparator_join_then_other : Entry → Entry → ℕ → Entry × Entry × ℕ
  comparator_join_then_other =
      apply_to_decrypted_pair secure_key cipher comparator_join_then_other_op

  abbrev pub comparator_original_index : Entry → Entry → ℕ → Entry × Entry × ℕ
  comparator_original_index = apply_to_decrypted_pair secure_key cipher comparator_original_index_op

  abbrev pub comparator_alignment_key : Entry → Entry → ℕ → Entry × Entry × ℕ
  comparator_alignment_key = apply_to_decrypted_pair secure_key cipher comparator_alignment_key_op

  abbrev pub comparator_padding_last : Entry → Entry → ℕ → Entry × Entry × ℕ
  comparator_padding_last = apply_to_decrypted_pair secure_key cipher comparator_padding_last_op

  abbrev pub comparator_distribute : Entry → Entry → ℕ → Entry × Entry × ℕ
  comparator_distribute = apply_to_decrypted_pair secure_key cipher comparator_distribute_op

  abbrev pub window_set_original_index : Entry → Entry → ℕ → Entry × Entry × ℕ
  window_set_original_index =
      apply_to_decrypted_pair secure_key cipher (second_only window_set_original_index_op)

  abbrev pub update_target_multiplicity : Entry → Entry → ℕ → Entry × Entry × ℕ
  update_target_multiplicity =
      apply_to_decrypted_pair secure_key cipher (second_only update_target_multiplicity_op)

  abbrev pub update_target_final_multiplicity : Entry → Entry → ℕ → Entry × Entry × ℕ
  update_target_final_multiplicity =
      apply_to_decrypted_pair secure_key cipher (second_only update_target_final_multiplicity_op)

  abbrev pub window_compute_local_sum : Entry → Entry → ℕ → Entry × Entry × ℕ
  window_compute_local_sum =
      apply_to_decrypted_pair secure_key cipher (second_only window_compute_local_sum_op)

  abbrev pub window_compute_local_interval : Entry → Entry → ℕ → Entry × Entry × ℕ
  window_compute_local_interval =
      apply_to_decrypted_pair secure_key cipher (second_only window_compute_local_interval_op)

  abbrev pub window_compute_foreign_sum : Entry → Entry → ℕ → Entry × Entry × ℕ
  window_compute_foreign_sum =
      apply_to_decrypted_pair secure_key cipher (second_only window_compute_foreign_sum_op)

  abbrev pub window_compute_foreign_interval : Entry → Entry → ℕ → Entry × Entry × ℕ
  window_compute_foreign_interval =
      apply_to_decrypted_pair secure_key cipher (second_only window_compute_foreign_interval_op)

  abbrev pub window_propagate_foreign_interval : Entry → Entry → ℕ → Entry × Entry × ℕ
  window_propagate_foreign_interval =
      apply_to_decrypted_pair secure_key cipher (second_only window_propagate_foreign_interval_op)

  abbrev pub window_compute_dst_idx : Entry → Entry → ℕ → Entry × Entry × ℕ
  window_compute_dst_idx =
      apply_to_decrypted_pair secure_key cipher (second_only window_compute_dst_idx_op)

  abbrev pub window_increment_index : Entry → Entry → ℕ → Entry × Entry × ℕ
  window_increment_index =
      apply_to_decrypted_pair secure_key cipher (second_only window_increment_index_op)

  abbrev pub window_expand_copy : Entry → Entry → ℕ → Entry × Entry × ℕ
  window_expand_copy = apply_to_decrypted_pair secure_key cipher (second_only window_expand_copy_op)

  abbrev pub window_update_copy_index : Entry → Entry → ℕ → Entry × Entry × ℕ
  window_update_copy_index =
      apply_to_decrypted_pair secure_key cipher (second_only window_update_copy_index_op)

  abbrev pub transform_set_local_mult_one : Entry → ℕ → Entry × ℕ
  transform_set_local_mult_one =
      apply_to_decrypted_entry secure_key cipher transform_set_local_mult_one_op

  abbrev pub transform_add_metadata : Entry → ℕ → Entry × ℕ
  transform_add_metadata = apply_to_decrypted_entry secure_key cipher transform_add_metadata_op

  abbrev pub transform_init_local_temps : Entry → ℕ → Entry × ℕ
  transform_init_local_temps =
      apply_to_decrypted_entry secure_key cipher transform_init_local_temps_op

  abbrev pub transform_to_source : Entry → ℕ → Entry × ℕ
  transform_to_source = apply_to_decrypted_entry secure_key cipher transform_to_source_op

  abbrev pub transform_set_sort_padding : Entry → ℕ → Entry × ℕ
  transform_set_sort_padding =
      apply_to_decrypted_entry secure_key cipher transform_set_sort_padding_op

  abbrev pub transform_init_final_mult : Entry → ℕ → Entry × ℕ
  transform_init_final_mult =
      apply_to_decrypted_entry secure_key cipher transform_init_final_mult_op

  abbrev pub transform_init_foreign_temps : Entry → ℕ → Entry × ℕ
  transform_init_foreign_temps =
      apply_to_decrypted_entry secure_key cipher transform_init_foreign_temps_op

  abbrev pub transform_init_dst_idx : Entry → ℕ → Entry × ℕ
  transform_init_dst_idx = apply_to_decrypted_entry secure_key cipher transform_init_dst_idx_op

  abbrev pub transform_init_index : Entry → ℕ → Entry × ℕ
  transform_init_index = apply_to_decrypted_entry secure_key cipher transform_init_index_op

  abbrev pub transform_mark_zero_mult_padding : Entry → ℕ → Entry × ℕ
  transform_mark_zero_mult_padding =
      apply_to_decrypted_entry secure_key cipher transform_mark_zero_mult_padding_op

  abbrev pub transform_create_dist_padding : Entry → ℕ → Entry × ℕ
  transform_create_dist_padding =
      apply_to_decrypted_entry secure_key cipher transform_create_dist_padding_op

  abbrev pub transform_init_copy_index : Entry → ℕ → Entry × ℕ
  transform_init_copy_index =
      apply_to_decrypted_entry secure_key cipher transform_init_copy_index_op

  abbrev pub transform_compute_alignment_key : Entry → ℕ → Entry × ℕ
  transform_compute_alignment_key =
      apply_to_decrypted_entry secure_key cipher transform_compute_alignment_key_op

  abbrev pub transform_set_index : Entry → ℕ → ℕ → Entry × ℕ
  transform_set_index entry index =
      apply_to_decrypted_entry secure_key cipher (λ e. transform_set_index_op e index) entry

  abbrev pub transform_to_start : Entry → ℕ → ℕ → ℕ → Entry × ℕ
  transform_to_start entry deviation equality =
      apply_to_decrypted_entry secure_key cipher (λ e. transform_to_start_op e deviation equality)
        entry

  abbrev pub transform_to_end : Entry → ℕ → ℕ → ℕ → Entry × ℕ
  transform_to_end entry deviation equality =
      apply_to_decrypted_entry secure_key cipher (λ e. transform_to_end_op e deviation equality)
        entry

  abbrev pub transform_set_join_attr : Entry → ℕ → ℕ → Entry × ℕ
  transform_set_join_attr entry column_index =
      apply_to_decrypted_entry secure_key cipher (λ e. transform_set_join_attr_op e column_index)
        entry

  abbrev pub transform_init_metadata_null : Entry → ℕ → ℕ → Entry × ℕ
  transform_init_metadata_null entry field_mask =
      apply_to_decrypted_entry secure_key cipher (λ e. transform_init_metadata_null_op e field_mask)
        entry

  -- obtain_output_size of distribute_functions.c, which decrypts a copy of the row and ignores the
  -- status
  abbrev pub obtain_output_size : Entry → ℕ
  obtain_output_size last_entry =
      let (status, decrypted) = aes_decrypt_entry secure_key cipher last_entry in
      if last_entry.is_encrypted == 0
      then add32 last_entry.dst_idx last_entry.final_mult
      else add32 decrypted.dst_idx decrypted.final_mult
