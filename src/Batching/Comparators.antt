-- ===== src/Batching/Comparators.antt =====
-- baselines/batching/enclave/trusted/operations/comparators.c: the compare-and-swap operations on
-- two decrypted rows. A `…_result` is the value that the operation tests for `> 0`.
use omwj.Prelude.{ℕ, zero, suc, ◌&&◌, ◌||◌, not}
use omwj.Prelude.Word.{eq32, add32, sub32, mul32, flag, lt32, is_pos}
use omwj.Constants.{start, end, dist_padding, max_attributes}
use omwj.Entry.{Entry, attribute}
use omwj.Batching.Oblivious.{
  oblivious_sign, select, get_precedence, adjust_for_padding, oblivious_swap,
}

-- `oblivious_sign(a - b)`
abbrev pub diff_sign : ℕ → ℕ → ℕ
diff_sign a b = oblivious_sign (sub32 a b)

-- START or END
abbrev pub target_flag : ℕ → ℕ
target_flag field_type = flag (eq32 field_type start || eq32 field_type end)

-- The end of every operation: swap if the result is positive.
abbrev swap_if_above : Entry → Entry → ℕ → Entry × Entry
swap_if_above e1 e2 result = oblivious_swap e1 e2 (flag (is_pos result))

unfoldable pub join_attr_result : Entry → Entry → ℕ
join_attr_result e1 e2 =
    let cmp = diff_sign e1.join_attr e2.join_attr in
    let is_equal = flag (eq32 cmp 0) in
    let p1 = get_precedence e1.field_type e1.equality_type in
    let p2 = get_precedence e2.field_type e2.equality_type in
    let prec_cmp = diff_sign p1 p2 in add32 (mul32 (sub32 1 is_equal) cmp) (mul32 is_equal prec_cmp)

unfoldable pub comparator_join_attr_op : Entry → Entry → Entry × Entry
unfolding join_attr_result
comparator_join_attr_op e1 e2 =
    swap_if_above e1 e2 (adjust_for_padding e1 e2 (join_attr_result e1 e2))

unfoldable pub pairwise_result : Entry → Entry → ℕ
pairwise_result e1 e2 =
    let type_priority = sub32 (target_flag e2.field_type) (target_flag e1.field_type) in
    let idx_cmp = diff_sign e1.original_index e2.original_index in
    let start_first = sub32 (flag (eq32 e2.field_type start)) (flag (eq32 e1.field_type start)) in
    let same_priority = flag (eq32 type_priority 0) in
    let same_index = flag (eq32 idx_cmp 0) in
    add32
      (add32 (mul32 (sub32 1 same_priority) type_priority)
        (mul32 (mul32 same_priority (sub32 1 same_index)) idx_cmp))
      (mul32 (mul32 same_priority same_index) start_first)

unfoldable pub comparator_pairwise_op : Entry → Entry → Entry × Entry
unfolding pairwise_result
comparator_pairwise_op e1 e2 =
    swap_if_above e1 e2 (adjust_for_padding e1 e2 (pairwise_result e1 e2))

unfoldable pub end_first_result : Entry → Entry → ℕ
end_first_result e1 e2 =
    let is_end1 = flag (eq32 e1.field_type end) in
    let is_end2 = flag (eq32 e2.field_type end) in
    let type_priority = sub32 is_end2 is_end1 in
    let idx_cmp = diff_sign e1.original_index e2.original_index in
    let same_type = flag (eq32 type_priority 0) in
    add32 (mul32 (sub32 1 same_type) type_priority) (mul32 same_type idx_cmp)

unfoldable pub comparator_end_first_op : Entry → Entry → Entry × Entry
unfolding end_first_result
comparator_end_first_op e1 e2 =
    swap_if_above e1 e2 (adjust_for_padding e1 e2 (end_first_result e1 e2))

-- The loop over the attributes, with the first difference so far.
unfoldable pub attr_loop : ℕ → ℕ → Entry → Entry → ℕ → ℕ
attr_loop zero i e1 e2 attr_cmp = attr_cmp
attr_loop (suc rounds) i e1 e2 attr_cmp =
    let curr_cmp = diff_sign (attribute e1 i) (attribute e2 i) in
    let is_first_diff = flag (eq32 attr_cmp 0 && not (eq32 curr_cmp 0)) in
    attr_loop rounds (suc i) e1 e2 (add32 attr_cmp (mul32 is_first_diff curr_cmp))

unfoldable pub join_then_other_result : Entry → Entry → ℕ
unfolding attr_loop
join_then_other_result e1 e2 =
    let cmp = diff_sign e1.join_attr e2.join_attr in
    let join_not_equal = flag (not (eq32 cmp 0)) in
    let attr_cmp = attr_loop max_attributes 0 e1 e2 0 in select join_not_equal cmp attr_cmp

unfoldable pub comparator_join_then_other_op : Entry → Entry → Entry × Entry
unfolding join_then_other_result
comparator_join_then_other_op e1 e2 =
    swap_if_above e1 e2 (adjust_for_padding e1 e2 (join_then_other_result e1 e2))

unfoldable pub comparator_original_index_op : Entry → Entry → Entry × Entry
comparator_original_index_op e1 e2 =
    swap_if_above e1 e2 (adjust_for_padding e1 e2 (diff_sign e1.original_index e2.original_index))

unfoldable pub alignment_key_result : Entry → Entry → ℕ
alignment_key_result e1 e2 =
    let align_cmp = diff_sign e1.alignment_key e2.alignment_key in
    let align_equal = flag (eq32 align_cmp 0) in
    let join_cmp = diff_sign e1.join_attr e2.join_attr in
    let join_equal = flag (eq32 join_cmp 0) in
    let copy_cmp = diff_sign e1.copy_index e2.copy_index in
    add32
      (add32 (mul32 (sub32 1 align_equal) align_cmp)
        (mul32 (mul32 align_equal (sub32 1 join_equal)) join_cmp))
      (mul32 (mul32 align_equal join_equal) copy_cmp)

unfoldable pub comparator_alignment_key_op : Entry → Entry → Entry × Entry
unfolding alignment_key_result
comparator_alignment_key_op e1 e2 =
    swap_if_above e1 e2 (adjust_for_padding e1 e2 (alignment_key_result e1 e2))

unfoldable pub padding_last_result : Entry → Entry → ℕ
padding_last_result e1 e2 =
    let is_padding1 = flag (eq32 e1.field_type dist_padding) in
    let is_padding2 = flag (eq32 e2.field_type dist_padding) in
    let type_priority = sub32 is_padding1 is_padding2 in
    let idx_cmp = diff_sign e1.original_index e2.original_index in
    let same_type = flag (eq32 type_priority 0) in
    add32 (mul32 (sub32 1 same_type) type_priority) (mul32 same_type idx_cmp)

unfoldable pub comparator_padding_last_op : Entry → Entry → Entry × Entry
unfolding padding_last_result
comparator_padding_last_op e1 e2 =
    swap_if_above e1 e2 (adjust_for_padding e1 e2 (padding_last_result e1 e2))

unfoldable pub comparator_distribute_op : Entry → Entry → Entry × Entry
comparator_distribute_op e1 e2 =
    let dst_condition = not (lt32 e1.dst_idx e2.index) in
    let not_padding = not (eq32 e1.field_type dist_padding) in
    let should_swap = flag (dst_condition && not_padding) in
    let swapped = oblivious_swap e1 e2 should_swap in
    (record swapped.0 { index = e1.index }, record swapped.1 { index = e2.index })
