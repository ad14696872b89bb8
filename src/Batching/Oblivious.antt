-- ===== src/Batching/Oblivious.antt =====
-- baselines/batching/enclave/trusted/operations: the branchless helpers that comparators.c and
-- merge_comparators.c share, and oblivious_swap of comparators.c.
use omwj.Prelude.{ℕ, ◌+◌, ◌*◌, ◌%◌, ◌&&◌, ◌||◌, not}
use omwj.Prelude.Tests.{◌==◌}
use omwj.Prelude.Lists.{length}
use omwj.Prelude.Word.{eq32, add32, sub32, mul32, flag, is_neg, is_pos}
use omwj.Constants.{source, start, end, eq_closed, eq_open, sort_padding}
use omwj.Entry.{Entry}
use omwj.Entry.Words.{words, with_words}
use omwj.Swap.{swap_loop}

unfoldable pub oblivious_ternary_u8 : ℕ → ℕ → ℕ → ℕ
unfolding add32 mul32 sub32
oblivious_ternary_u8 condition true_val false_val =
    add32 (mul32 condition true_val) (mul32 (sub32 1 condition) false_val) % 256

unfoldable pub oblivious_sign : ℕ → ℕ
unfolding sub32 is_pos is_neg
oblivious_sign val = sub32 (flag (is_pos val)) (flag (is_neg val))

-- `condition * true_val + (1 - condition) * false_val`
unfoldable pub select : ℕ → ℕ → ℕ → ℕ
unfolding add32 mul32 sub32
select condition true_val false_val =
    add32 (mul32 condition true_val) (mul32 (sub32 1 condition) false_val)

unfoldable pub get_precedence : ℕ → ℕ → ℕ
unfolding eq32
get_precedence field_type equality_type =
    let is_start_neq = eq32 field_type start && eq32 equality_type eq_open in
    let is_end_eq = eq32 field_type end && eq32 equality_type eq_closed in
    let is_source = eq32 field_type source in
    let is_start_eq = eq32 field_type start && eq32 equality_type eq_closed in
    let is_end_neq = eq32 field_type end && eq32 equality_type eq_open in
    flag (is_end_neq || is_start_eq) + 2 * flag is_source + 3 * flag (is_end_eq || is_start_neq)

-- adjust_for_padding of comparators.c: 0 if both rows are padding
unfoldable pub adjust_for_padding : Entry → Entry → ℕ → ℕ
unfolding eq32 sub32 mul32 add32 select
adjust_for_padding e1 e2 normal_result =
    let is_padding1 = eq32 e1.field_type sort_padding in
    let is_padding2 = eq32 e2.field_type sort_padding in
    let both_not_padding = flag (not is_padding1 && not is_padding2) in
    select both_not_padding normal_result (sub32 (flag is_padding1) (flag is_padding2))

-- adjust_for_padding of merge_comparators.c: the normal result if both rows are padding
unfoldable pub adjust_for_one_padding : Entry → Entry → ℕ → ℕ
unfolding eq32 sub32 mul32 add32 select
adjust_for_one_padding e1 e2 normal_result =
    let is_padding1 = eq32 e1.field_type sort_padding in
    let is_padding2 = eq32 e2.field_type sort_padding in
    let adjustment = sub32 (flag is_padding1) (flag is_padding2) in
    select (flag (eq32 adjustment 0)) normal_result adjustment

-- The mask byte, repeated over a 64-bit word: each field takes the bytes that it needs.
unfoldable pub wide_mask : ℕ → ℕ
unfolding oblivious_ternary_u8
wide_mask should_swap =
    oblivious_ternary_u8 (flag (not (should_swap == 0))) 255 0 * 72340172838076673

-- oblivious_swap: the bytes of the two rows, taken a field at a time
unfoldable pub oblivious_swap : Entry → Entry → ℕ → Entry × Entry
unfolding wide_mask swap_loop
oblivious_swap e1 e2 should_swap =
    let swapped = swap_loop (length (words e1)) (wide_mask should_swap) (words e1) (words e2) in
    (with_words e1 swapped.0, with_words e2 swapped.1)
