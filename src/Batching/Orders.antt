-- ===== src/Batching/Orders.antt =====
-- The comparators of the batching baseline against those of the enclave.
use omwj.Prelude.{false, refl, inl, inr, ℕ, ◌≡◌, ◌≤◌, ◌<◌, Bool, arith}
use omwj.Prelude.Tests.{Bool-cases, ltb, ◌==◌, if◌then◌else◌}
use omwj.Prelude.Word.{modulus, minus_one, eq32, add32, sub32, mul32, flag, skey, is_neg, is_pos}
use omwj.Constants.{sort_padding, start, end}
use omwj.Skinny.Ranks.{get_prec-le}
use omwj.Prelude.{Bool}
use omwj.Batching.Comparators.{target_flag}
use omwj.Skinny.{is_target}
use omwj.Entry.{Entry}
use omwj.Skinny.{SkRec, get_prec}
use omwj.Batching.Oblivious.{
  oblivious_sign, select, get_precedence, adjust_for_padding, adjust_for_one_padding,
}
use omwj.Batching.Comparators.{diff_sign, join_attr_result, pairwise_result, end_first_result}

-- The working record of a row in the bottom-up phase of the enclave, whose last two fields are 0.
abbrev pub sk_view : Entry → SkRec
sk_view e = record {
  join_attr = e.join_attr;
  field_type = e.field_type;
  equality_type = e.equality_type;
  original_index = e.original_index;
  local_mult = e.local_mult;
  acc = e.local_cumsum;
  interval = e.local_interval;
  weight = 0;
  fmult = 0;
}

-- From -1073741823 to 1073741823, which holds the range of JOIN_ATTR_MIN to JOIN_ATTR_MAX.
abbrev pub IsSafe : ℕ → Type 0
IsSafe x = (1073741825 ≤ skey x) × (skey x ≤ 3221225471)

-- -1, 0 or 1, by the order of two numbers.
abbrev pub order_of : ℕ → ℕ → ℕ
order_of x y = if x == y then 0 else (if ltb x y then minus_one else 1)

pub order_of-lt : (x y : ℕ) → order_of x y < modulus
order_of-lt x y = ground arith

pub sign_of_diff : (a b : ℕ) → IsSafe a → IsSafe b → diff_sign a b ≡ order_of (skey a) (skey b)
unfolding oblivious_sign sub32 is_pos is_neg skey
sign_of_diff a b h k = ground arith

sign_of_small : (p q : ℕ) → p ≤ 3 → q ≤ 3 → diff_sign p q ≡ order_of p q
unfolding oblivious_sign sub32 is_pos is_neg
sign_of_small p q h k = ground arith

same_prec : (ft et : ℕ) → get_precedence ft et ≡ get_prec ft et
unfolding get_precedence get_prec eq32
same_prec ft et = ground arith

-- `(1 - same) * x + same * y`
two_way :
    (same : Bool) (x y : ℕ)
    → x < modulus
    → y < modulus
    → add32 (mul32 (sub32 1 (flag same)) x) (mul32 (flag same) y) ≡ (if same then y else x)
unfolding add32 mul32 sub32
two_way same x y h k = ground arith

three_way :
    (p q : Bool) (x y z : ℕ)
    → x < modulus
    → y < modulus
    → z < modulus
    → add32
        (add32 (mul32 (sub32 1 (flag p)) x) (mul32 (mul32 (flag p) (sub32 1 (flag q))) y))
        (mul32 (mul32 (flag p) (flag q)) z)
      ≡ (if p then (if q then z else y) else x)
unfolding add32 mul32 sub32
three_way p q x y z h k l = ground arith

pub select_value :
    (p : Bool) (x y : ℕ) → x < modulus → y < modulus → select (flag p) x y ≡ (if p then x else y)
unfolding select add32 mul32 sub32
select_value p x y h k = ground arith

-- The order of two ranks, with padding last and `both` between two padding rows.
abbrev pub padded : Entry → Entry → ℕ → ℕ → ℕ
padded e1 e2 both normal =
    let p1 = eq32 e1.field_type sort_padding in
    let p2 = eq32 e2.field_type sort_padding in
    if p1 then (if p2 then both else 1) else (if p2 then minus_one else normal)

pub adjusted : (e1 e2 : Entry) (n : ℕ) → n < modulus → adjust_for_padding e1 e2 n ≡ padded e1 e2 0 n
unfolding adjust_for_padding select add32 mul32 sub32
adjusted e1 e2 n h = ground arith

pub adjusted_one :
    (e1 e2 : Entry) (n : ℕ) → n < modulus → adjust_for_one_padding e1 e2 n ≡ padded e1 e2 n n
unfolding adjust_for_one_padding select add32 mul32 sub32
adjusted_one e1 e2 n h = ground arith

pub sub32-lt : (x y : ℕ) → sub32 x y < modulus
unfolding sub32
sub32-lt x y = omega arith

pub add32-lt : (x y : ℕ) → add32 x y < modulus
unfolding add32
add32-lt x y = omega arith

pub sub32_flags : (p q : Bool) → eq32 (sub32 (flag q) (flag p)) 0 ≡ (flag p == flag q)
unfolding eq32 sub32
sub32_flags p q = ground arith

pub eq32_order : (x y : ℕ) → eq32 (order_of x y) 0 ≡ (x == y)
unfolding eq32
eq32_order x y = ground arith

abbrev pub is_target_row : Entry → Bool
is_target_row e = is_target (sk_view e)

module _ (e1 e2 : Entry) where
  abbrev pub join_order : ℕ
  join_order =
      let prec1 = get_prec e1.field_type e1.equality_type in
      let prec2 = get_prec e2.field_type e2.equality_type in
      if skey e1.join_attr == skey e2.join_attr
      then order_of prec1 prec2
      else order_of (skey e1.join_attr) (skey e2.join_attr)

  abbrev pub index_order : ℕ
  index_order = order_of (skey e1.original_index) (skey e2.original_index)

  pub join_value : IsSafe e1.join_attr → IsSafe e2.join_attr → join_attr_result e1 e2 ≡ join_order
  unfolding join_attr_result eq32
  join_value h k =
      let ft1 = e1.field_type in
      let p1 = get_prec-le e1.field_type e1.equality_type in
      let p2 = get_prec-le e2.field_type e2.equality_type in
      rw
        (
          sign_of_diff e1.join_attr e2.join_attr h k,
          same_prec e1.field_type e1.equality_type,
          same_prec e2.field_type e2.equality_type,
          sign_of_small _ _ p1 p2,
          two_way _ _ _ (order_of-lt _ _) (order_of-lt _ _),
        )
        (ground arith)

  abbrev pub pairwise_order : ℕ
  pairwise_order =
      if target_flag e1.field_type == target_flag e2.field_type
      then (if skey e1.original_index == skey e2.original_index
          then sub32 (flag (eq32 e2.field_type start)) (flag (eq32 e1.field_type start))
          else index_order)
      else sub32 (target_flag e2.field_type) (target_flag e1.field_type)

  abbrev pub end_first_order : ℕ
  end_first_order =
      if flag (eq32 e1.field_type end) == flag (eq32 e2.field_type end)
      then index_order
      else sub32 (flag (eq32 e2.field_type end)) (flag (eq32 e1.field_type end))

  pub pairwise_value :
      IsSafe e1.original_index
      → IsSafe e2.original_index
      → pairwise_result e1 e2 ≡ (
          if target_flag e1.field_type == target_flag e2.field_type
          then (if skey e1.original_index == skey e2.original_index
              then sub32 (flag (eq32 e2.field_type start)) (flag (eq32 e1.field_type start))
              else index_order)
          else sub32 (target_flag e2.field_type) (target_flag e1.field_type))
  unfolding pairwise_result
  pairwise_value h k =
      rw
        (
          sign_of_diff e1.original_index e2.original_index h k,
          three_way _ _ _ _ _ (sub32-lt _ _) (order_of-lt _ _) (sub32-lt _ _),
        )
        (ground (
          arith,
          sub32_flags (is_target_row e1) (is_target_row e2),
          eq32_order (skey e1.original_index) (skey e2.original_index),
        ))

  pub end_first_value :
      IsSafe e1.original_index
      → IsSafe e2.original_index
      → end_first_result e1 e2 ≡ (
          if flag (eq32 e1.field_type end) == flag (eq32 e2.field_type end)
          then index_order
          else sub32 (flag (eq32 e2.field_type end)) (flag (eq32 e1.field_type end)))
  unfolding end_first_result
  end_first_value h k =
      rw
        (
          sign_of_diff e1.original_index e2.original_index h k,
          two_way _ _ _ (sub32-lt _ _) (order_of-lt _ _),
        )
        (ground (arith, sub32_flags (eq32 e1.field_type end) (eq32 e2.field_type end)))

  -- Between padding rows the values that a comparator reads do not matter.
  pub padded_cong :
      (both n m : ℕ)
      → (eq32 e1.field_type sort_padding ≡ false → eq32 e2.field_type sort_padding ≡ false → n ≡ m)
      → padded e1 e2 both n ≡ padded e1 e2 both m
  padded_cong both n m same = elim (Bool-cases (eq32 e1.field_type sort_padding)) [
    | inl p ↦ rw p refl
    | inr p ↦ elim (Bool-cases (eq32 e2.field_type sort_padding)) [
      | inl q ↦ rw (p, q) refl
      | inr q ↦ rw (p, q) (same p q)
    ]
  ]
