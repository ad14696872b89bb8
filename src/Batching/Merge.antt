-- ===== src/Batching/Merge.antt =====
-- baselines/batching/enclave/trusted/operations/merge_comparators.c: the comparators that return 1
-- if the first row is below the second, and 0 otherwise. Each of the values that a comparator
-- combines is computed as in comparators.c, and so is their combination, up to the order of a sum.
use omwj.Prelude.{ℕ, zero, suc, ◌||◌, not}
use omwj.Prelude.Tests.{◌==◌, if◌then◌else◌}
use omwj.Prelude.Word.{eq32, add32, sub32, mul32, flag, is_neg}
use omwj.Constants.{start, end, dist_padding, max_attributes}
use omwj.Entry.{Entry, attribute}
use omwj.Batching.Oblivious.{select, get_precedence, adjust_for_one_padding}
use omwj.Batching.Comparators.{diff_sign, target_flag}

-- The end of every comparator.
abbrev below_flag : Entry → Entry → ℕ → ℕ
below_flag e1 e2 normal_result = flag (is_neg (adjust_for_one_padding e1 e2 normal_result))

unfoldable pub compare_join_attr : Entry → Entry → ℕ
compare_join_attr e1 e2 =
    let cmp = diff_sign e1.join_attr e2.join_attr in
    let is_equal = flag (eq32 cmp 0) in
    let p1 = get_precedence e1.field_type e1.equality_type in
    let p2 = get_precedence e2.field_type e2.equality_type in
    let prec_cmp = diff_sign p1 p2 in
    below_flag e1 e2 (add32 (mul32 (sub32 1 is_equal) cmp) (mul32 is_equal prec_cmp))

unfoldable pub compare_pairwise : Entry → Entry → ℕ
compare_pairwise e1 e2 =
    let type_cmp = sub32 (target_flag e2.field_type) (target_flag e1.field_type) in
    let idx_cmp = diff_sign e1.original_index e2.original_index in
    let start_cmp = sub32 (flag (eq32 e2.field_type start)) (flag (eq32 e1.field_type start)) in
    let same_type = flag (eq32 type_cmp 0) in
    let same_idx = flag (eq32 idx_cmp 0) in
    let priority2_result = select same_idx start_cmp idx_cmp in
    below_flag e1 e2 (select same_type priority2_result type_cmp)

unfoldable pub compare_end_first : Entry → Entry → ℕ
compare_end_first e1 e2 =
    let is_end1 = flag (eq32 e1.field_type end) in
    let is_end2 = flag (eq32 e2.field_type end) in
    let type_cmp = sub32 is_end2 is_end1 in
    let idx_cmp = diff_sign e1.original_index e2.original_index in
    let same_type = flag (eq32 type_cmp 0) in below_flag e1 e2 (select same_type idx_cmp type_cmp)

-- The loop over the attributes, with the comparison so far and whether it is settled.
unfoldable pub found_loop : ℕ → ℕ → Entry → Entry → ℕ → ℕ → ℕ
found_loop zero i e1 e2 attr_cmp found_diff = attr_cmp
found_loop (suc rounds) i e1 e2 attr_cmp found_diff =
    let this_cmp = diff_sign (attribute e1 i) (attribute e2 i) in
    found_loop rounds (suc i) e1 e2 (select found_diff attr_cmp this_cmp)
      (flag (not (eq32 found_diff 0) || not (eq32 this_cmp 0)))

unfoldable pub compare_join_then_other : Entry → Entry → ℕ
unfolding found_loop
compare_join_then_other e1 e2 =
    let join_cmp = diff_sign e1.join_attr e2.join_attr in
    let attr_cmp = found_loop max_attributes 0 e1 e2 0 0 in
    let join_equal = flag (eq32 join_cmp 0) in
    below_flag e1 e2 (add32 (mul32 (sub32 1 join_equal) join_cmp) (mul32 join_equal attr_cmp))

unfoldable pub compare_original_index : Entry → Entry → ℕ
compare_original_index e1 e2 = below_flag e1 e2 (diff_sign e1.original_index e2.original_index)

unfoldable pub compare_alignment_key : Entry → Entry → ℕ
compare_alignment_key e1 e2 = below_flag e1 e2 (diff_sign e1.alignment_key e2.alignment_key)

unfoldable pub compare_padding_last : Entry → Entry → ℕ
compare_padding_last e1 e2 =
    let is_padding1 = flag (eq32 e1.field_type dist_padding) in
    let is_padding2 = flag (eq32 e2.field_type dist_padding) in
    let type_priority = sub32 is_padding1 is_padding2 in
    let idx_cmp = diff_sign e1.original_index e2.original_index in
    let same_type = flag (eq32 type_priority 0) in
    below_flag e1 e2 (add32 (mul32 (sub32 1 same_type) type_priority) (mul32 same_type idx_cmp))

unfoldable pub compare_distribute : Entry → Entry → ℕ
compare_distribute e1 e2 = below_flag e1 e2 (diff_sign e1.dst_idx e2.dst_idx)

-- get_merge_comparator, by the number of the operation; the first comparator stands for every other
unfoldable pub get_merge_comparator : ℕ → Entry → Entry → ℕ
get_merge_comparator type =
    if type == 1
    then compare_pairwise
    else (if type == 2
        then compare_end_first
        else (if type == 3
            then compare_join_then_other
            else (if type == 4
                then compare_original_index
                else (if type == 5
                    then compare_alignment_key
                    else (if type == 6
                        then compare_padding_last
                        else (if type == 7 then compare_distribute else compare_join_attr))))))
