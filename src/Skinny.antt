-- ===== src/Skinny.antt =====
-- enclave/trusted/join/skinny.c: the 32-byte working record of the two multiplicity phases and
-- its three comparators. A field is a 32-bit word; `field_type` and `equality_type` hold the
-- int16_t values as the ints that the code promotes them to.
pub mod Ranks
use omwj.Prelude.{ℕ, Bool, ◌&&◌, ◌||◌, ◌+◌, ◌*◌}
use omwj.Prelude.Tests.{if◌then◌else◌}
use omwj.Prelude.Word.{eq32, lt32, sub32, flag, int32_max, minus_one}
use omwj.Constants.{sort_padding, source, start, end, eq_closed, eq_open, null_value}

pub record SkRec : Type 0 where
  pub join_attr : ℕ
  pub field_type : ℕ
  pub equality_type : ℕ
  pub original_index : ℕ
  pub local_mult : ℕ
  pub acc : ℕ
  pub interval : ℕ
  pub weight : ℕ
  pub fmult : ℕ

-- Padding sorts after everything else.
unfoldable pub pad_adjust : SkRec → SkRec → ℕ → ℕ
pad_adjust e1 e2 normal =
    let p1 = eq32 e1.field_type sort_padding in
    let p2 = eq32 e2.field_type sort_padding in
    if p1 || p2 then sub32 (flag p1) (flag p2) else normal

-- The order of boundaries and sources at one join key.
unfoldable pub get_prec : ℕ → ℕ → ℕ
get_prec ft et =
    let end_neq = eq32 ft end && eq32 et eq_open in
    let start_eq = eq32 ft start && eq32 et eq_closed in
    let src = eq32 ft source in
    let end_eq = eq32 ft end && eq32 et eq_closed in
    let start_neq = eq32 ft start && eq32 et eq_open in
    flag (end_neq || start_eq) + 2 * flag src + 3 * flag (end_eq || start_neq)

unfoldable pub sk_cmp_join_attr : SkRec → SkRec → ℕ
sk_cmp_join_attr e1 e2 =
    let normal =
      if eq32 e1.join_attr e2.join_attr
      then sub32 (get_prec e1.field_type e1.equality_type) (get_prec e2.field_type e2.equality_type)
      else (if lt32 e1.join_attr e2.join_attr then minus_one else 1) in
    pad_adjust e1 e2 normal

abbrev pub is_target : SkRec → Bool
is_target e = eq32 e.field_type start || eq32 e.field_type end

-- The comparison of the two original indices, with `ties` where they are equal.
abbrev index_or : SkRec → SkRec → ℕ → ℕ
index_or e1 e2 ties =
    if eq32 e1.original_index e2.original_index
    then ties
    else (if lt32 e1.original_index e2.original_index then minus_one else 1)

unfoldable pub sk_cmp_pairwise : SkRec → SkRec → ℕ
sk_cmp_pairwise e1 e2 =
    let t1 = flag (is_target e1) in
    let t2 = flag (is_target e2) in
    let normal =
      if eq32 t1 t2
      then index_or e1 e2
          (sub32 (flag (eq32 e2.field_type start)) (flag (eq32 e1.field_type start)))
      else sub32 t2 t1 in
    pad_adjust e1 e2 normal

unfoldable pub sk_cmp_end_first : SkRec → SkRec → ℕ
sk_cmp_end_first e1 e2 =
    let end1 = flag (eq32 e1.field_type end) in
    let end2 = flag (eq32 e2.field_type end) in
    let normal = if eq32 end1 end2 then index_or e1 e2 0 else sub32 end2 end1 in
    pad_adjust e1 e2 normal

abbrev pub sk_make_pad : SkRec
sk_make_pad = record {
  join_attr = int32_max;
  field_type = sort_padding;
  equality_type = 0;
  original_index = null_value;
  local_mult = 0;
  acc = 0;
  interval = 0;
  weight = 0;
  fmult = 0;
}
