-- ===== src/Skinny/Ranks.antt =====
-- Each comparator of skinny.c is the order of a number read off the record, its rank.
use omwj.Prelude.{ℕ, ◌≡◌, ◌+◌, ◌*◌, ◌-◌, ◌≤◌, arith}
use omwj.Prelude.Tests.{ltb, if◌then◌else◌}
use omwj.Prelude.Word.{
  eq32, sub32, skey, flag, is_neg, is_pos, eq32_test, eq32-flag, lt32-skey, skey-lt,
}
use omwj.Constants.{sort_padding, start, end}
use omwj.Skinny.{
  SkRec, pad_adjust, get_prec, sk_cmp_join_attr, sk_cmp_pairwise, sk_cmp_end_first, is_target,
}
use omwj.Order.{Agrees, pad_rank}

-- Padding is above every other rank.
unfoldable pub ranked : SkRec → ℕ → ℕ
ranked e r = if eq32 e.field_type sort_padding then pad_rank else r

unfoldable pub join_rank : SkRec → ℕ
unfolding ranked
join_rank e = ranked e (skey e.join_attr * 4 + get_prec e.field_type e.equality_type)

unfoldable pub pairwise_rank : SkRec → ℕ
unfolding ranked
pairwise_rank e = ranked e (
    (if is_target e then 0 else 8589934592)
    + skey e.original_index * 2
    + (1 - flag (eq32 e.field_type start)))

unfoldable pub end_first_rank : SkRec → ℕ
unfolding ranked
end_first_rank e =
    ranked e ((if eq32 e.field_type end then 0 else 4294967296) + skey e.original_index)

pub get_prec-le : (ft et : ℕ) → get_prec ft et ≤ 3
unfolding get_prec eq32
get_prec-le ft et = ground arith

pub sk_cmp_join_attr-Agrees : Agrees sk_cmp_join_attr join_rank
unfolding sk_cmp_join_attr join_rank pad_adjust is_neg is_pos sub32
sk_cmp_join_attr-Agrees a b = ground (
  arith,
  get_prec-le a.field_type a.equality_type,
  get_prec-le b.field_type b.equality_type,
  eq32_test a.join_attr b.join_attr,
  lt32-skey a.join_attr b.join_attr,
  skey-lt a.join_attr,
  skey-lt b.join_attr,
)

pub sk_cmp_pairwise-Agrees : Agrees sk_cmp_pairwise pairwise_rank
unfolding sk_cmp_pairwise pairwise_rank pad_adjust is_neg is_pos sub32
sk_cmp_pairwise-Agrees a b = ground (
  arith,
  eq32-flag (is_target a) (is_target b),
  eq32_test a.original_index b.original_index,
  lt32-skey a.original_index b.original_index,
  skey-lt a.original_index,
  skey-lt b.original_index,
)

pub sk_cmp_end_first-Agrees : Agrees sk_cmp_end_first end_first_rank
unfolding sk_cmp_end_first end_first_rank pad_adjust is_neg is_pos sub32
sk_cmp_end_first-Agrees a b = ground (
  arith,
  eq32-flag (eq32 a.field_type end) (eq32 b.field_type end),
  eq32_test a.original_index b.original_index,
  lt32-skey a.original_index b.original_index,
  skey-lt a.original_index,
  skey-lt b.original_index,
)

-- sk_cmp_join_attr is the order of `join_rank`: join key first, then precedence; sk_cmp_pairwise is
-- the order of `pairwise_rank`: boundaries first, by index, START before END; and sk_cmp_end_first is
-- the order of `end_first_rank`: END records first, by index. All three put sort padding last.
pub sk_cmp_orders :
    (a b : SkRec)
    → (is_neg (sk_cmp_join_attr a b) ≡ ltb (join_rank a) (join_rank b))
      × (is_pos (sk_cmp_join_attr a b) ≡ ltb (join_rank b) (join_rank a))
      × (is_neg (sk_cmp_pairwise a b) ≡ ltb (pairwise_rank a) (pairwise_rank b))
      × (is_pos (sk_cmp_pairwise a b) ≡ ltb (pairwise_rank b) (pairwise_rank a))
      × (is_neg (sk_cmp_end_first a b) ≡ ltb (end_first_rank a) (end_first_rank b))
      × (is_pos (sk_cmp_end_first a b) ≡ ltb (end_first_rank b) (end_first_rank a))
sk_cmp_orders a b =
    let (join_below, join_above) = sk_cmp_join_attr-Agrees a b in
    let (pair_below, pair_above) = sk_cmp_pairwise-Agrees a b in
    let (end_below, end_above) = sk_cmp_end_first-Agrees a b in
    (join_below, join_above, pair_below, pair_above, end_below, end_above)
