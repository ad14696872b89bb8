-- ===== src/Trow.antt =====
-- enclave/trusted/join/trow.c: the comparators of the wide rows of the distribute and align
-- phases. The sort context (the number of attributes and the size of a row) is an argument.
pub mod Orders
pub mod Wide
use omwj.Prelude.{ℕ, zero, suc, ◌||◌, List, []}
use omwj.Prelude.Tests.{if◌then◌else◌}
use omwj.Prelude.Lists.{get_or, replicate}
use omwj.Prelude.Word.{eq32, lt32, add32, sub32, mul32, flag, int32_max, minus_one}
use omwj.Constants.{sort_padding, dist_padding, null_value}

pub record Trow : Type 0 where
  pub join_attr : ℕ
  pub field_type : ℕ
  pub original_index : ℕ
  pub local_mult : ℕ
  pub foreign_sum : ℕ
  pub copy_index : ℕ
  pub alignment_key : ℕ
  pub final_mult : ℕ
  pub dst_idx : ℕ
  pub index : ℕ
  pub attributes : List ℕ

-- pad_adjust and rr_pad_adjust
abbrev pub pad_rows : ℕ → ℕ → ℕ → ℕ
pad_rows field_type1 field_type2 normal =
    let p1 = eq32 field_type1 sort_padding in
    let p2 = eq32 field_type2 sort_padding in if p1 || p2 then sub32 (flag p1) (flag p2) else normal

-- Two fields that differ are told apart by their order, and equal ones by `ties`.
abbrev pub field_or : ℕ → ℕ → ℕ → ℕ
field_or a b ties = if eq32 a b then ties else (if lt32 a b then minus_one else 1)

unfoldable pub t_cmp_dist_padding_last : Trow → Trow → ℕ
t_cmp_dist_padding_last e1 e2 =
    let p1 = flag (eq32 e1.field_type dist_padding) in
    let p2 = flag (eq32 e2.field_type dist_padding) in
    let normal =
      if eq32 p1 p2 then field_or e1.original_index e2.original_index 0 else sub32 p1 p2 in
    pad_rows e1.field_type e2.field_type normal

-- `(a > b) - (a < b)`
unfoldable pub sign_of : ℕ → ℕ → ℕ
sign_of a b = sub32 (flag (lt32 b a)) (flag (lt32 a b))

-- The loop over the attributes: `cmp += (cmp == 0) * c`.
unfoldable pub lex_loop : ℕ → ℕ → List ℕ → List ℕ → ℕ → ℕ
unfolding sign_of
lex_loop zero i a1 a2 cmp = cmp
lex_loop (suc rounds) i a1 a2 cmp =
    let c = sign_of (get_or a1 i 0) (get_or a2 i 0) in
    lex_loop rounds (suc i) a1 a2 (add32 cmp (mul32 (flag (eq32 cmp 0)) c))

unfoldable pub t_cmp_join_then_other : ℕ → Trow → Trow → ℕ
unfolding lex_loop sign_of
t_cmp_join_then_other g_t_width e1 e2 =
    let cmp = sign_of e1.join_attr e2.join_attr in
    pad_rows e1.field_type e2.field_type (lex_loop g_t_width 0 e1.attributes e2.attributes cmp)

unfoldable pub t_cmp_alignment_key : Trow → Trow → ℕ
t_cmp_alignment_key e1 e2 =
    let by_copy = field_or e1.copy_index e2.copy_index 0 in
    let by_index = field_or e1.original_index e2.original_index by_copy in
    let normal = field_or e1.alignment_key e2.alignment_key by_index in
    pad_rows e1.field_type e2.field_type normal

-- trow_make_pad, for a row of `width` attributes
abbrev pub trow_make_pad : ℕ → Trow
trow_make_pad width = record {
  join_attr = int32_max;
  field_type = sort_padding;
  original_index = null_value;
  local_mult = 0;
  foreign_sum = 0;
  copy_index = 0;
  alignment_key = 0;
  final_mult = 0;
  dst_idx = 0;
  index = 0;
  attributes = replicate width 0;
}

-- The narrow row of the result sort.
pub record Rrow : Type 0 where
  pub field_type : ℕ
  pub join_attr : ℕ
  pub attributes : List ℕ

unfoldable pub rr_cmp_join_then_other : ℕ → Rrow → Rrow → ℕ
unfolding lex_loop sign_of
rr_cmp_join_then_other g_t_width e1 e2 =
    let cmp = sign_of e1.join_attr e2.join_attr in
    pad_rows e1.field_type e2.field_type (lex_loop g_t_width 0 e1.attributes e2.attributes cmp)

abbrev pub rrow_make_pad : ℕ → Rrow
rrow_make_pad width = record {
  field_type = sort_padding;
  join_attr = int32_max;
  attributes = replicate width 0;
}
