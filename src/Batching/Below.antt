-- ===== src/Batching/Below.antt =====
-- The merge comparators of the batching baseline answer the orders of the enclave's comparators.
use omwj.Prelude.{ℕ, ◌≡◌, ◌<◌, ap, ◌∙◌, false, ◌&&◌, arith}
use omwj.Prelude.Tests.{ltb}
use omwj.Prelude.Word.{modulus, eq32, flag, skey, skey-lt, is_neg, add32, sub32}
use omwj.Constants.{sort_padding, start, end}
use omwj.Entry.{Entry}
use omwj.Skinny.Ranks.{join_rank, pairwise_rank, end_first_rank, get_prec-le}
use omwj.Batching.Oblivious.{select}
use omwj.Batching.Comparators.{diff_sign, join_attr_result, target_flag}
use omwj.Batching.Merge.{compare_join_attr, compare_pairwise, compare_end_first}
use omwj.Batching.Orders.{
  sk_view, IsSafe, padded, adjusted_one, join_order, pairwise_order, end_first_order, join_value,
  add32-lt, sub32-lt, order_of-lt, sign_of_diff, select_value, sub32_flags, eq32_order,
  is_target_row,
}
use omwj.Batching.Exchanges.{Safe}

module _ (e1 e2 : Entry)
    (one : (eq32 e1.field_type sort_padding && eq32 e2.field_type sort_padding) ≡ false) where
  join_below :
      is_neg (padded e1 e2 (join_order e1 e2) (join_order e1 e2))
      ≡ ltb (join_rank (sk_view e1)) (join_rank (sk_view e2))
  unfolding join_rank is_neg
  join_below = ground (
    arith,
    get_prec-le e1.field_type e1.equality_type,
    get_prec-le e2.field_type e2.equality_type,
    skey-lt e1.join_attr,
    skey-lt e2.join_attr,
  )

  end_first_below :
      is_neg (padded e1 e2 (end_first_order e1 e2) (end_first_order e1 e2))
      ≡ ltb (end_first_rank (sk_view e1)) (end_first_rank (sk_view e2))
  unfolding end_first_rank is_neg sub32
  end_first_below = ground (arith, skey-lt e1.original_index, skey-lt e2.original_index)

  pairwise_below :
      is_neg (padded e1 e2 (pairwise_order e1 e2) (pairwise_order e1 e2))
      ≡ ltb (pairwise_rank (sk_view e1)) (pairwise_rank (sk_view e2))
  unfolding pairwise_rank is_neg sub32
  pairwise_below = ground (arith, skey-lt e1.original_index, skey-lt e2.original_index)

  both_cong :
      (n m : ℕ)
      → (eq32 e1.field_type sort_padding ≡ false → eq32 e2.field_type sort_padding ≡ false → n ≡ m)
      → padded e1 e2 n n ≡ padded e1 e2 m m
  both_cong n m same = ground (arith, same)

  select-lt : (c x y : ℕ) → select c x y < modulus
  unfolding select add32
  select-lt c x y = omega arith

  -- On two rows that are not both padding and of which each is padding or has a safe join key,
  -- compare_join_attr returns 1 if sk_cmp_join_attr's order puts the first row below the second,
  -- and 0 otherwise.
  pub compare_join_attr_lem :
      Safe e1 e1.join_attr
      → Safe e2 e2.join_attr
      → compare_join_attr e1 e2 ≡ flag (ltb (join_rank (sk_view e1)) (join_rank (sk_view e2)))
  unfolding compare_join_attr join_attr_result
  compare_join_attr_lem h k =
      let value =
        adjusted_one e1 e2 (join_attr_result e1 e2) (add32-lt _ _)
        ∙ both_cong _ _ (λ p q. join_value e1 e2 (h p) (k q)) in
      ap flag (rw value join_below)

  compare_pairwise_lem :
      Safe e1 e1.original_index
      → Safe e2 e2.original_index
      → compare_pairwise e1 e2
        ≡ flag (ltb (pairwise_rank (sk_view e1)) (pairwise_rank (sk_view e2)))
  unfolding compare_pairwise
  compare_pairwise_lem h k =
      let value =
        adjusted_one e1 e2 _ (select-lt _ _ _)
        ∙ both_cong _ _ (λ p q. pairwise_select (h p) (k q)) in
      ap flag (rw value pairwise_below)
    where
      pairwise_select :
          IsSafe e1.original_index
          → IsSafe e2.original_index
          → let idx_cmp = diff_sign e1.original_index e2.original_index in
            let type_cmp = sub32 (target_flag e2.field_type) (target_flag e1.field_type) in
            select
              (flag (eq32 type_cmp 0))
              (select
                (flag (eq32 idx_cmp 0))
                (sub32 (flag (eq32 e2.field_type start)) (flag (eq32 e1.field_type start)))
                idx_cmp)
              type_cmp
            ≡ pairwise_order e1 e2
      pairwise_select h k =
          rw
            (
              sign_of_diff e1.original_index e2.original_index h k,
              select_value _ _ _ (select-lt _ _ _) (sub32-lt _ _),
              select_value _ _ _ (sub32-lt _ _) (order_of-lt _ _),
            )
            (ground (
              arith,
              sub32_flags (is_target_row e1) (is_target_row e2),
              eq32_order (skey e1.original_index) (skey e2.original_index),
            ))

  compare_end_first_lem :
      Safe e1 e1.original_index
      → Safe e2 e2.original_index
      → compare_end_first e1 e2
        ≡ flag (ltb (end_first_rank (sk_view e1)) (end_first_rank (sk_view e2)))
  unfolding compare_end_first
  compare_end_first_lem h k =
      let value =
        adjusted_one e1 e2 _ (select-lt _ _ _) ∙ both_cong _ _ (λ p q. end_select (h p) (k q)) in
      ap flag (rw value end_first_below)
    where
      end_select :
          IsSafe e1.original_index
          → IsSafe e2.original_index
          → let type_cmp = sub32 (flag (eq32 e2.field_type end)) (flag (eq32 e1.field_type end)) in
            select (flag (eq32 type_cmp 0)) (diff_sign e1.original_index e2.original_index) type_cmp
            ≡ end_first_order e1 e2
      end_select h k =
          rw
            (
              sign_of_diff e1.original_index e2.original_index h k,
              select_value _ _ _ (order_of-lt _ _) (sub32-lt _ _),
            )
            (ground (arith, sub32_flags (eq32 e1.field_type end) (eq32 e2.field_type end)))

  -- On two rows that are not both padding and of which each is padding or has a safe original index,
  -- compare_pairwise returns 1 if sk_cmp_pairwise's order puts the first row below the second, and 0
  -- otherwise; and so does compare_end_first by sk_cmp_end_first's order.
  pub index_compares_lem :
      Safe e1 e1.original_index
      → Safe e2 e2.original_index
      → (compare_pairwise e1 e2
          ≡ flag (ltb (pairwise_rank (sk_view e1)) (pairwise_rank (sk_view e2))))
        × (compare_end_first e1 e2
            ≡ flag (ltb (end_first_rank (sk_view e1)) (end_first_rank (sk_view e2))))
  index_compares_lem h k = (compare_pairwise_lem h k, compare_end_first_lem h k)
