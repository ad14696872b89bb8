-- ===== src/Batching/Window.antt =====
-- baselines/batching/enclave/trusted/operations/window_functions.c: the steps on two neighbouring
-- decrypted rows. Each changes the second row only.
use omwj.Prelude.{ℕ, zero, suc, ◌+◌, Bool, ◌&&◌}
use omwj.Prelude.Tests.{ltb, if◌then◌else◌}
use omwj.Prelude.Lists.{set}
use omwj.Prelude.Word.{eq32, add32, sub32, mul32, div32, flag}
use omwj.Constants.{source, start, end, eq_open, dist_padding, max_attributes}
use omwj.Entry.{Entry, attribute}
use omwj.Batching.Oblivious.{select}

unfoldable pub window_set_original_index_op : Entry → Entry → Entry
window_set_original_index_op e1 e2 = record e2 { original_index = add32 e1.original_index 1 }

unfoldable pub update_target_multiplicity_op : Entry → Entry → Entry
update_target_multiplicity_op src target = record target {
  local_mult = mul32 target.local_mult src.local_interval;
}

unfoldable pub update_target_final_multiplicity_op : Entry → Entry → Entry
update_target_final_multiplicity_op src target = record target {
  final_mult = mul32 src.foreign_interval target.local_mult;
  foreign_sum = src.foreign_sum;
}

-- A SOURCE right behind an open START at its key.
abbrev pub skip_flag : Entry → Entry → Bool
skip_flag e1 e2 =
    let is_source = eq32 e2.field_type source in
    let is_start_neq = eq32 e1.field_type start && eq32 e1.equality_type eq_open in
    let same_join_attr = eq32 e1.join_attr e2.join_attr in
    is_start_neq && same_join_attr && is_source

unfoldable pub window_compute_local_sum_op : Entry → Entry → Entry
window_compute_local_sum_op e1 e2 =
    let is_source = flag (eq32 e2.field_type source) in
    let skip_source = flag (skip_flag e1 e2) in
    record e2 {
      local_cumsum =
          add32 e1.local_cumsum (mul32 (mul32 is_source (sub32 1 skip_source)) e2.local_mult);
    }

-- A START and the END behind it.
abbrev pub pair_flag : Entry → Entry → ℕ
pair_flag e1 e2 = mul32 (flag (eq32 e1.field_type start)) (flag (eq32 e2.field_type end))

unfoldable pub window_compute_local_interval_op : Entry → Entry → Entry
unfolding select
window_compute_local_interval_op e1 e2 =
    let interval = sub32 e2.local_cumsum e1.local_cumsum in
    record e2 { local_interval = select (pair_flag e1 e2) interval e2.local_interval }

unfoldable pub window_compute_foreign_sum_op : Entry → Entry → Entry
window_compute_foreign_sum_op e1 e2 =
    let is_start = flag (eq32 e2.field_type start) in
    let is_end = flag (eq32 e2.field_type end) in
    let is_source = flag (eq32 e2.field_type source) in
    let skip_source = flag (skip_flag e1 e2) in
    let weight_delta = sub32 (mul32 is_start e2.local_mult) (mul32 is_end e2.local_mult) in
    let local_weight = add32 e1.local_weight weight_delta in
    let safe_weight = if eq32 local_weight 0 then 1 else local_weight in
    let foreign_delta =
      mul32 (mul32 is_source (sub32 1 skip_source)) (div32 e2.final_mult safe_weight) in
    record e2 { local_weight = local_weight; foreign_sum = add32 e1.foreign_sum foreign_delta }

unfoldable pub window_compute_foreign_interval_op : Entry → Entry → Entry
unfolding select
window_compute_foreign_interval_op e1 e2 =
    let is_pair = pair_flag e1 e2 in
    let interval = sub32 e2.foreign_sum e1.foreign_sum in
    record e2 {
      foreign_interval = select is_pair interval e2.foreign_interval;
      foreign_sum = select is_pair e1.foreign_sum e2.foreign_sum;
    }

unfoldable pub window_propagate_foreign_interval_op : Entry → Entry → Entry
unfolding select
window_propagate_foreign_interval_op e1 e2 =
    let is_source2 = flag (eq32 e2.field_type source) in
    let is_end1 = flag (eq32 e1.field_type end) in
    let should_propagate = mul32 is_end1 is_source2 in
    record e2 {
      foreign_interval = select should_propagate e1.foreign_interval e2.foreign_interval;
      foreign_sum = select should_propagate e1.foreign_sum e2.foreign_sum;
    }

unfoldable pub window_compute_dst_idx_op : Entry → Entry → Entry
window_compute_dst_idx_op e1 e2 = record e2 { dst_idx = add32 e1.dst_idx e1.final_mult }

unfoldable pub window_increment_index_op : Entry → Entry → Entry
window_increment_index_op e1 e2 = record e2 { index = add32 e1.index 1 }

-- The copy of all bytes under a condition of 0 or 1.
unfoldable pub window_expand_copy_op : Entry → Entry → Entry
window_expand_copy_op e1 e2 =
    let copied = if eq32 e2.field_type dist_padding then e1 else e2 in
    record copied { index = e2.index }

unfoldable pub window_update_copy_index_op : Entry → Entry → Entry
unfolding select
window_update_copy_index_op e1 e2 =
    let is_same = flag (eq32 e1.original_index e2.original_index) in
    record e2 { copy_index = select is_same (add32 e1.copy_index 1) 0 }

-- The loop over the right row's attributes, as long as the left row has a slot for them.
unfoldable pub concat_loop : ℕ → ℕ → Entry → Entry → ℕ → Entry
concat_loop zero i left right left_attr_count = left
concat_loop (suc rounds) i left right left_attr_count =
    let slot = left_attr_count + i in
    let copied = record left { attributes = set left.attributes slot (attribute right i) } in
    let rest = concat_loop rounds (suc i) copied right left_attr_count in
    if ltb slot max_attributes then rest else left

-- concat_attributes_op, for counts that are not negative
unfoldable pub concat_attributes_op : Entry → Entry → ℕ → ℕ → Entry
unfolding concat_loop
concat_attributes_op left right left_attr_count right_attr_count =
    concat_loop right_attr_count 0 left right left_attr_count
