-- ===== src/Batching/Exchanges.antt =====
-- The compare-and-swap operations of the batching baseline, and its merge comparators, follow the
-- orders of the enclave's comparators as long as the differences of keys do not overflow.
use omwj.Prelude.{ℕ, ◌≡◌, refl, ap, ◌∙◌, Bool, true, false, not, arith}
use omwj.Prelude.Tests.{ltb, ◌==◌, if◌then◌else◌}
use omwj.Prelude.Lists.{length}
use omwj.Prelude.Word.{eq32, flag, skey-lt, is_pos, is_neg, add32, sub32, mul32}
use omwj.Constants.{sort_padding}
use omwj.Entry.{Entry}
use omwj.Entry.Words.{words, with_words}
use omwj.Swap.{exchange, swap_loop}
use omwj.Swap.Laws.{IsWords, loop_exchange}
use omwj.Skinny.Ranks.{join_rank, pairwise_rank, end_first_rank, get_prec-le}
use omwj.Batching.Oblivious.{oblivious_swap, wide_mask}
use omwj.Batching.Comparators.{
  join_attr_result, pairwise_result, end_first_result, comparator_join_attr_op,
  comparator_pairwise_op, comparator_end_first_op,
}
use omwj.Batching.Orders.{
  sk_view, IsSafe, padded, adjusted, join_order, pairwise_order, end_first_order, join_value,
  pairwise_value, end_first_value, add32-lt, padded_cong,
}

-- A row as it lies in memory: 64 attributes, and each field within a 64-bit word.
abbrev pub IsRow : Entry → Type 0
IsRow e = (length e.attributes ≡ 64) × IsWords (words e)

wide_mask_value : (s : ℕ) → wide_mask s ≡ (if not (s == 0) then 18446744073709551615 else 0)
unfolding wide_mask add32 mul32 sub32
wide_mask_value s = ground arith

-- The masked swap of two rows exchanges them if the condition is not zero, and else leaves them.
pub oblivious_swap_lem :
    (e1 e2 : Entry) (s : ℕ)
    → IsRow e1
    → IsRow e2
    → oblivious_swap e1 e2 s ≡ exchange (not (s == 0)) e1 e2
unfolding oblivious_swap
oblivious_swap_lem e1 e2 s h k =
    let same : length (words e2) ≡ length (words e1) = omega (arith, h.0, k.0) in
    let swapped =
      ap (λ m. swap_loop (length (words e1)) m (words e1) (words e2)) (wide_mask_value s)
      ∙ loop_exchange (not (s == 0)) _ (words e1) (words e2) refl same h.1 k.1 in
    ap (λ pair. (with_words e1 pair.0, with_words e2 pair.1)) swapped ∙ both (not (s == 0))
  where
    both :
        (t : Bool)
        → (
          with_words e1 (exchange t (words e1) (words e2)).0,
          with_words e2 (exchange t (words e1) (words e2)).1,
        )
          ≡ exchange t e1 e2
    both true = refl
    both false = refl

join_above :
    (e1 e2 : Entry)
    → is_pos (padded e1 e2 0 (join_order e1 e2))
      ≡ ltb (join_rank (sk_view e2)) (join_rank (sk_view e1))
unfolding join_rank is_pos is_neg
join_above e1 e2 = ground (
  arith,
  get_prec-le e1.field_type e1.equality_type,
  get_prec-le e2.field_type e2.equality_type,
  skey-lt e1.join_attr,
  skey-lt e2.join_attr,
)

end_first_above :
    (e1 e2 : Entry)
    → is_pos (padded e1 e2 0 (end_first_order e1 e2))
      ≡ ltb (end_first_rank (sk_view e2)) (end_first_rank (sk_view e1))
unfolding end_first_rank is_pos is_neg sub32
end_first_above e1 e2 = ground (arith, skey-lt e1.original_index, skey-lt e2.original_index)

pairwise_above :
    (e1 e2 : Entry)
    → is_pos (padded e1 e2 0 (pairwise_order e1 e2))
      ≡ ltb (pairwise_rank (sk_view e2)) (pairwise_rank (sk_view e1))
unfolding pairwise_rank is_pos is_neg sub32
pairwise_above e1 e2 = ground (arith, skey-lt e1.original_index, skey-lt e2.original_index)

-- A row that is no padding has its key in the safe range.
abbrev pub Safe : Entry → ℕ → Type 0
Safe e x = eq32 e.field_type sort_padding ≡ false → IsSafe x

exchange-flag :
    (e1 e2 : Entry) (p q : Bool) → p ≡ q → exchange (not (flag p == 0)) e1 e2 ≡ exchange q e1 e2
exchange-flag e1 e2 true q h = rw (← h) refl
exchange-flag e1 e2 false q h = rw (← h) refl

module _ (e1 e2 : Entry) (row1 : IsRow e1) (row2 : IsRow e2) where
  -- On two rows as they lie in memory (IsRow), of which each has a safe join key or is padding,
  -- comparator_join_attr_op exchanges the rows if sk_cmp_join_attr's order puts the second row below
  -- the first, and else leaves them.
  pub comparator_join_attr_op-exchange :
      Safe e1 e1.join_attr
      → Safe e2 e2.join_attr
      → comparator_join_attr_op e1 e2
        ≡ exchange (ltb (join_rank (sk_view e2)) (join_rank (sk_view e1))) e1 e2
  unfolding comparator_join_attr_op join_attr_result
  comparator_join_attr_op-exchange h k =
      let value =
        adjusted e1 e2 (join_attr_result e1 e2) (add32-lt _ _)
        ∙ padded_cong e1 e2 0 _ _ (λ p q. join_value e1 e2 (h p) (k q)) in
      oblivious_swap_lem e1 e2 _ row1 row2 ∙ exchange-flag e1 e2 _ _ (rw value (join_above e1 e2))

  comparator_pairwise_op-exchange :
      Safe e1 e1.original_index
      → Safe e2 e2.original_index
      → comparator_pairwise_op e1 e2
        ≡ exchange (ltb (pairwise_rank (sk_view e2)) (pairwise_rank (sk_view e1))) e1 e2
  unfolding comparator_pairwise_op pairwise_result
  comparator_pairwise_op-exchange h k =
      let value =
        adjusted e1 e2 (pairwise_result e1 e2) (add32-lt _ _)
        ∙ padded_cong e1 e2 0 _ _ (λ p q. pairwise_value e1 e2 (h p) (k q)) in
      oblivious_swap_lem e1 e2 _ row1 row2
      ∙ exchange-flag e1 e2 _ _ (rw value (pairwise_above e1 e2))

  comparator_end_first_op-exchange :
      Safe e1 e1.original_index
      → Safe e2 e2.original_index
      → comparator_end_first_op e1 e2
        ≡ exchange (ltb (end_first_rank (sk_view e2)) (end_first_rank (sk_view e1))) e1 e2
  unfolding comparator_end_first_op end_first_result
  comparator_end_first_op-exchange h k =
      let value =
        adjusted e1 e2 (end_first_result e1 e2) (add32-lt _ _)
        ∙ padded_cong e1 e2 0 _ _ (λ p q. end_first_value e1 e2 (h p) (k q)) in
      oblivious_swap_lem e1 e2 _ row1 row2
      ∙ exchange-flag e1 e2 _ _ (rw value (end_first_above e1 e2))

  -- On two rows as they lie in memory (IsRow), of which each has a safe original index or is padding,
  -- comparator_pairwise_op exchanges the rows if sk_cmp_pairwise's order puts the second row below
  -- the first, and else leaves them; and so does comparator_end_first_op by sk_cmp_end_first's order.
  pub index_comparators-exchange :
      Safe e1 e1.original_index
      → Safe e2 e2.original_index
      → (comparator_pairwise_op e1 e2
          ≡ exchange (ltb (pairwise_rank (sk_view e2)) (pairwise_rank (sk_view e1))) e1 e2)
        × (comparator_end_first_op e1 e2
            ≡ exchange (ltb (end_first_rank (sk_view e2)) (end_first_rank (sk_view e1))) e1 e2)
  index_comparators-exchange h k =
      (comparator_pairwise_op-exchange h k, comparator_end_first_op-exchange h k)
