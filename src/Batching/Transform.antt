-- ===== src/Batching/Transform.antt =====
-- baselines/batching/enclave/trusted/operations/transform_functions.c: the operations on one
-- decrypted row. The debug messages are left out.
use omwj.Prelude.{ℕ, ◌/◌, ◌%◌}
use omwj.Prelude.Tests.{ltb, ◌==◌, if◌then◌else◌}
use omwj.Prelude.Word.{eq32, add32, sub32, mul32, div32, flag, int32_max, minus_one, modulus}
use omwj.Constants.{
  sort_padding, source, start, end, eq_none, dist_padding, null_value, max_attributes,
}
use omwj.Entry.{Entry, attribute}

unfoldable pub transform_set_local_mult_one_op : Entry → Entry
transform_set_local_mult_one_op entry = record entry { local_mult = 1; final_mult = 0 }

unfoldable pub transform_add_metadata_op : Entry → Entry
transform_add_metadata_op entry = record entry {
  original_index = 0;
  local_mult = 0;
  final_mult = 0;
  foreign_sum = 0;
  local_cumsum = 0;
  local_interval = 0;
  foreign_interval = 0;
  local_weight = 0;
  copy_index = 0;
  alignment_key = 0;
}

unfoldable pub transform_set_index_op : Entry → ℕ → Entry
transform_set_index_op entry index = record entry { original_index = index }

unfoldable pub transform_init_local_temps_op : Entry → Entry
transform_init_local_temps_op entry = record entry {
  local_cumsum = entry.local_mult;
  local_interval = 0;
}

unfoldable pub transform_to_source_op : Entry → Entry
transform_to_source_op entry = record entry { field_type = source; equality_type = eq_none }

unfoldable pub transform_to_start_op : Entry → ℕ → ℕ → Entry
transform_to_start_op entry deviation equality = record entry {
  field_type = start;
  equality_type = equality;
  join_attr = add32 entry.join_attr deviation;
}

unfoldable pub transform_to_end_op : Entry → ℕ → ℕ → Entry
transform_to_end_op entry deviation equality = record entry {
  field_type = end;
  equality_type = equality;
  join_attr = add32 entry.join_attr deviation;
}

unfoldable pub transform_set_sort_padding_op : Entry → Entry
transform_set_sort_padding_op entry = record entry {
  field_type = sort_padding;
  join_attr = int32_max;
  original_index = null_value;
  local_mult = 0;
  final_mult = 0;
  foreign_sum = 0;
  local_cumsum = 0;
  local_interval = 0;
  foreign_interval = 0;
  local_weight = 0;
}

unfoldable pub transform_init_final_mult_op : Entry → Entry
transform_init_final_mult_op entry = record entry {
  final_mult = entry.local_mult;
  foreign_sum = 0;
  foreign_interval = 0;
  local_weight = 0;
}

unfoldable pub transform_init_foreign_temps_op : Entry → Entry
transform_init_foreign_temps_op entry = record entry {
  foreign_sum = 0;
  foreign_interval = 0;
  local_weight = entry.local_mult;
}

unfoldable pub transform_init_dst_idx_op : Entry → Entry
transform_init_dst_idx_op entry = record entry { dst_idx = 0 }

unfoldable pub transform_init_index_op : Entry → Entry
transform_init_index_op entry = record entry { index = 0 }

unfoldable pub transform_mark_zero_mult_padding_op : Entry → Entry
transform_mark_zero_mult_padding_op entry =
    let is_zero = flag (eq32 entry.final_mult 0) in
    record entry {
      field_type = add32 (mul32 is_zero dist_padding) (mul32 (sub32 1 is_zero) entry.field_type);
    }

unfoldable pub transform_create_dist_padding_op : Entry → Entry
transform_create_dist_padding_op entry = record entry {
  field_type = dist_padding;
  final_mult = 0;
  dst_idx = minus_one;
  index = 0;
  original_index = minus_one;
  local_mult = 0;
}

unfoldable pub transform_init_copy_index_op : Entry → Entry
transform_init_copy_index_op entry = record entry { copy_index = 0 }

unfoldable pub transform_compute_alignment_key_op : Entry → Entry
transform_compute_alignment_key_op entry =
    let safe_local_mult = add32 entry.local_mult (flag (eq32 entry.local_mult 0)) in
    record entry {
      alignment_key = add32 entry.foreign_sum (div32 entry.copy_index safe_local_mult);
    }

-- transform_set_join_attr_op: the index 0 to 63 of a column, or 0 for any other
unfoldable pub transform_set_join_attr_op : Entry → ℕ → Entry
transform_set_join_attr_op entry column_index =
    let column = column_index % modulus in
    record entry { join_attr = if ltb column max_attributes then attribute entry column else 0 }

-- NULL_VALUE if the mask has the bit.
abbrev masked : ℕ → ℕ → ℕ → ℕ
masked field_mask bit old = if field_mask / bit % 2 == 1 then null_value else old

unfoldable pub transform_init_metadata_null_op : Entry → ℕ → Entry
transform_init_metadata_null_op entry field_mask = record entry {
  original_index = masked field_mask 1 entry.original_index;
  local_mult = masked field_mask 2 entry.local_mult;
  final_mult = masked field_mask 4 entry.final_mult;
  foreign_sum = masked field_mask 8 entry.foreign_sum;
  local_cumsum = masked field_mask 16 entry.local_cumsum;
  local_interval = masked field_mask 32 entry.local_interval;
  foreign_interval = masked field_mask 64 entry.foreign_interval;
  local_weight = masked field_mask 128 entry.local_weight;
  dst_idx = masked field_mask 256 entry.dst_idx;
  index = masked field_mask 512 entry.index;
  copy_index = masked field_mask 1024 entry.copy_index;
  alignment_key = masked field_mask 2048 entry.alignment_key;
  field_type = masked field_mask 4096 entry.field_type;
  equality_type = masked field_mask 4096 entry.equality_type;
}
