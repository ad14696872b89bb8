-- ===== src/Trow/Orders.antt =====
-- The comparators of the wide rows as orders.
use omwj.Prelude.{ℕ, zero, suc, ◌+◌, ◌*◌, ◌∙◌, ◌<◌, ◌≡◌, ap, List, arith}
use omwj.Prelude.Tests.{ltb, ◌==◌, if◌then◌else◌}
use omwj.Prelude.Lists.{get_or}
use omwj.Prelude.Word.{
  modulus, minus_one, eq32, add32, sub32, mul32, skey, flag, is_neg, is_pos, eq32_test, eq32-flag,
  lt32-skey, skey-lt,
}
use omwj.Constants.{sort_padding, dist_padding}
use omwj.Order.{Agrees, pad_rank}
use omwj.Trow.{
  Trow, Rrow, t_cmp_dist_padding_last, t_cmp_alignment_key, t_cmp_join_then_other,
  rr_cmp_join_then_other, lex_loop, sign_of, pad_rows,
}

unfoldable pub dist_rank : Trow → ℕ
dist_rank e =
    if eq32 e.field_type sort_padding
    then pad_rank
    else flag (eq32 e.field_type dist_padding) * 4294967296 + skey e.original_index

unfoldable pub alignment_rank : Trow → ℕ
alignment_rank e =
    if eq32 e.field_type sort_padding
    then pad_rank
    else (skey e.alignment_key * 4294967296 + skey e.original_index) * 4294967296
      + skey e.copy_index

-- t_cmp_dist_padding_last is the order of `dist_rank`: distribution padding after the other rows,
-- rows of one kind by original index, and sort padding last.
pub t_cmp_dist_padding_last-Agrees : Agrees t_cmp_dist_padding_last dist_rank
unfolding t_cmp_dist_padding_last dist_rank is_neg is_pos sub32
t_cmp_dist_padding_last-Agrees a b = ground (
  arith,
  eq32-flag (eq32 a.field_type dist_padding) (eq32 b.field_type dist_padding),
  eq32_test a.original_index b.original_index,
  lt32-skey a.original_index b.original_index,
  skey-lt a.original_index,
  skey-lt b.original_index,
)

-- t_cmp_alignment_key is the order of `alignment_rank`: by alignment key, then original index,
-- then copy index, and sort padding last.
pub t_cmp_alignment_key-Agrees : Agrees t_cmp_alignment_key alignment_rank
unfolding t_cmp_alignment_key alignment_rank is_neg is_pos sub32
t_cmp_alignment_key-Agrees a b = ground (
  arith,
  eq32_test a.alignment_key b.alignment_key,
  lt32-skey a.alignment_key b.alignment_key,
  skey-lt a.alignment_key,
  skey-lt b.alignment_key,
  eq32_test a.original_index b.original_index,
  lt32-skey a.original_index b.original_index,
  skey-lt a.original_index,
  skey-lt b.original_index,
  eq32_test a.copy_index b.copy_index,
  lt32-skey a.copy_index b.copy_index,
  skey-lt a.copy_index,
  skey-lt b.copy_index,
)

abbrev order_words : ℕ → ℕ → ℕ
order_words a b = if skey a == skey b then 0 else (if ltb (skey a) (skey b) then minus_one else 1)

sign_of_lem : (a b : ℕ) → sign_of a b ≡ order_words a b
unfolding sign_of sub32
sign_of_lem a b = ground (arith, lt32-skey a b, lt32-skey b a)

-- The order at the first position, from i on, where the two rows differ.
unfoldable pub first_difference : ℕ → ℕ → List ℕ → List ℕ → ℕ
first_difference zero i a1 a2 = 0
first_difference (suc rounds) i a1 a2 =
    let x = get_or a1 i 0 in
    let y = get_or a2 i 0 in
    let rest = first_difference rounds (suc i) a1 a2 in
    if skey x == skey y then rest else (if ltb (skey x) (skey y) then minus_one else 1)

take_first :
    (cmp x y : ℕ)
    → cmp < modulus
    → add32 cmp (mul32 (flag (eq32 cmp 0)) (sign_of x y))
      ≡ (if cmp == 0 then order_words x y else cmp)
unfolding add32 mul32 eq32
take_first cmp x y h = ground (arith, sign_of_lem x y)

lex_loop_lem :
    (rounds i : ℕ) (a1 a2 : List ℕ) (cmp : ℕ)
    → cmp < modulus
    → lex_loop rounds i a1 a2 cmp ≡ (if cmp == 0 then first_difference rounds i a1 a2 else cmp)
unfolding lex_loop first_difference
lex_loop_lem zero i a1 a2 cmp h = ground arith
lex_loop_lem (suc n) i a1 a2 cmp h =
    let x = get_or a1 i 0 in
    let y = get_or a2 i 0 in
    let next = if cmp == 0 then order_words x y else cmp in
    let small : next < modulus = ground arith in
    rw (take_first cmp x y h, lex_loop_lem n (suc i) a1 a2 next small) (ground arith)

abbrev pub lexicographic : ℕ → ℕ → ℕ → List ℕ → List ℕ → ℕ
lexicographic width key1 key2 a1 a2 =
    if skey key1 == skey key2
    then first_difference width 0 a1 a2
    else (if ltb (skey key1) (skey key2) then minus_one else 1)

-- Sort padding comes last, and two rows of padding are equal.
abbrev pub padding_last : ℕ → ℕ → ℕ → ℕ
padding_last field_type1 field_type2 order =
    if eq32 field_type1 sort_padding
    then (if eq32 field_type2 sort_padding then 0 else 1)
    else (if eq32 field_type2 sort_padding then minus_one else order)

pad_rows_lem : (f1 f2 order : ℕ) → pad_rows f1 f2 order ≡ padding_last f1 f2 order
unfolding sub32
pad_rows_lem f1 f2 order = ground arith

lex_from_key :
    (width key1 key2 : ℕ) (a1 a2 : List ℕ)
    → lex_loop width 0 a1 a2 (sign_of key1 key2) ≡ lexicographic width key1 key2 a1 a2
lex_from_key width key1 key2 a1 a2 =
    let small : order_words key1 key2 < modulus = ground arith in
    rw (sign_of_lem key1 key2, lex_loop_lem width 0 a1 a2 (order_words key1 key2) small)
      (ground arith)

-- The branchless loops of t_cmp_join_then_other and rr_cmp_join_then_other give, between two rows
-- that are no sort padding, the order at the first difference of the join keys followed by
-- the first g_t_width attributes; a row of sort padding comes behind every other row, and two rows of
-- padding are equal.
pub cmp_join_then_other_lem :
    (width : ℕ) (e1 e2 : Trow) (r1 r2 : Rrow)
    → (t_cmp_join_then_other width e1 e2
        ≡ padding_last e1.field_type e2.field_type
            (lexicographic width e1.join_attr e2.join_attr e1.attributes e2.attributes))
      × (rr_cmp_join_then_other width r1 r2
          ≡ padding_last r1.field_type r2.field_type
              (lexicographic width r1.join_attr r2.join_attr r1.attributes r2.attributes))
unfolding t_cmp_join_then_other rr_cmp_join_then_other
cmp_join_then_other_lem width e1 e2 r1 r2 = (
  ap (pad_rows e1.field_type e2.field_type)
        (lex_from_key width e1.join_attr e2.join_attr e1.attributes e2.attributes)
      ∙ pad_rows_lem e1.field_type e2.field_type _,
  ap (pad_rows r1.field_type r2.field_type)
        (lex_from_key width r1.join_attr r2.join_attr r1.attributes r2.attributes)
      ∙ pad_rows_lem r1.field_type r2.field_type _,
)
