-- ===== src/Trow/Wide.antt =====
-- rr_cmp_join_then_other as the order of one number, whatever the number of attributes.
use native.Mathlib.Nat.{pow-suc, mul-le-mul_right}
use omwj.Prelude.{
  ℕ, zero, suc, ◌+◌, ◌*◌, ◌^◌, ◌<◌, ◌≡◌, refl, true, false, List, inl, inr, ◌⊎◌, arith,
}
use omwj.Prelude.Tests.{ltb, ◌==◌, if◌then◌else◌, Bool-cases}
use omwj.Prelude.Lists.{get_or}
use omwj.Prelude.Word.{modulus, minus_one, eq32, sub32, skey, skey-lt, is_neg, is_pos}
use omwj.Constants.{sort_padding}
use omwj.Order.{Agrees}
use omwj.Trow.{Rrow, rr_cmp_join_then_other, rrow_make_pad, trow_make_pad}
use omwj.Trow.Orders.{first_difference, lexicographic, padding_last, cmp_join_then_other_lem}

-- The attributes from i on as the digits of one number.
unfoldable pub digits_rank : ℕ → ℕ → List ℕ → ℕ
digits_rank zero i attributes = 0
digits_rank (suc n) i attributes =
    skey (get_or attributes i 0) * modulus ^ n + digits_rank n (suc i) attributes

abbrev pub wide_top : ℕ → ℕ
wide_top width = modulus ^ suc width

unfoldable pub wide_rank : ℕ → Rrow → ℕ
unfolding digits_rank
wide_rank width r =
    if eq32 r.field_type sort_padding
    then wide_top width
    else skey r.join_attr * modulus ^ width + digits_rank width 0 r.attributes

-- A first digit decides, and the rest where it does not.
digit_below : (p x y a b : ℕ) → x < y → a < p → x * p + a < y * p + b
digit_below p x y a b h k =
    let whole = mul-le-mul_right p h in
    let next : suc x * p ≡ x * p + p = grind arith in omega (arith, whole, next, k)

digit_bound : (p x a : ℕ) → x < modulus → a < p → x * p + a < p * modulus
digit_bound p x a h k =
    let top = digit_below p x modulus a 0 h k in
    let turn : modulus * p ≡ p * modulus = grind arith in omega (arith, top, turn)

digits_rank-lt : (n i : ℕ) (attributes : List ℕ) → digits_rank n i attributes < modulus ^ n
unfolding digits_rank
digits_rank-lt zero i attributes = omega arith
digits_rank-lt (suc n) i attributes =
    let rest = digits_rank-lt n (suc i) attributes in
    let bound = digit_bound (modulus ^ n) (skey (get_or attributes i 0)) _ (skey-lt _) rest in
    omega (arith, bound, pow-suc modulus n)

-- A comparison's value by two numbers.
abbrev Tells : ℕ → ℕ → ℕ → Type 0
Tells cmp r1 r2 = (is_neg cmp ≡ ltb r1 r2) × (is_pos cmp ≡ ltb r2 r1)

digit-Tells :
    (p x y a b cmp : ℕ)
    → a < p
    → b < p
    → Tells cmp a b
    → Tells (if x == y then cmp else (if ltb x y then minus_one else 1)) (x * p + a) (y * p + b)
unfolding is_neg is_pos
digit-Tells p x y a b cmp ha hb tells = elim (Bool-cases (x == y)) [
  | inl same ↦
      let e : x ≡ y = ground (arith, same) in
      let below : ltb (y * p + a) (y * p + b) ≡ ltb a b = ground arith in
      let above : ltb (y * p + b) (y * p + a) ≡ ltb b a = ground arith in
      rw (same, e) (rw (below, above) tells)
  | inr apart ↦ elim (Bool-cases (ltb x y)) [
    | inl less ↦
        let low = digit_below p x y a b (ground (arith, less)) ha in
        let below : ltb (x * p + a) (y * p + b) ≡ true = ground (arith, low) in
        let above : ltb (y * p + b) (x * p + a) ≡ false = ground (arith, low) in
        rw (apart, less) (rw (below, above) (signs.0, signs.1))
    | inr more ↦
        let low = digit_below p y x b a (ground (arith, apart, more)) hb in
        let below : ltb (x * p + a) (y * p + b) ≡ false = ground (arith, low) in
        let above : ltb (y * p + b) (x * p + a) ≡ true = ground (arith, low) in
        rw (apart, more) (rw (below, above) (ones.0, ones.1))
  ]
]
  where
    signs : (is_neg minus_one ≡ true) × (is_pos minus_one ≡ false)
    signs = (refl, refl)

    ones : (is_neg 1 ≡ false) × (is_pos 1 ≡ true)
    ones = (refl, refl)

first_difference-Tells :
    (n i : ℕ) (a1 a2 : List ℕ)
    → Tells (first_difference n i a1 a2) (digits_rank n i a1) (digits_rank n i a2)
unfolding first_difference digits_rank is_neg is_pos
first_difference-Tells zero i a1 a2 = (refl, refl)
first_difference-Tells (suc n) i a1 a2 =
    digit-Tells (modulus ^ n) (skey (get_or a1 i 0)) (skey (get_or a2 i 0)) _ _
      (first_difference n (suc i) a1 a2) (digits_rank-lt n (suc i) a1) (digits_rank-lt n (suc i) a2)
      (first_difference-Tells n (suc i) a1 a2)

pub wide_rank-lt :
    (width : ℕ) (r : Rrow)
    → eq32 r.field_type sort_padding ≡ false
    → wide_rank width r < wide_top width
unfolding wide_rank
wide_rank-lt width r row =
    let bound =
      digit_bound (modulus ^ width) (skey r.join_attr) _ (skey-lt r.join_attr)
        (digits_rank-lt width 0 r.attributes) in
    rw row (omega (arith, bound, pow-suc modulus width))

pad_rank_lem :
    (width : ℕ) (r : Rrow)
    → eq32 r.field_type sort_padding ≡ true
    → wide_rank width r ≡ wide_top width
unfolding wide_rank
pad_rank_lem width r pad = rw pad refl

rows-Tells :
    (width : ℕ) (a b : Rrow)
    → eq32 a.field_type sort_padding ≡ false
    → eq32 b.field_type sort_padding ≡ false
    → Tells
        (padding_last a.field_type b.field_type
          (lexicographic width a.join_attr b.join_attr a.attributes b.attributes))
        (wide_rank width a)
        (wide_rank width b)
unfolding wide_rank
rows-Tells width a b p q =
    rw (p, q)
      (digit-Tells (modulus ^ width) (skey a.join_attr) (skey b.join_attr) _ _ _
        (digits_rank-lt width 0 a.attributes) (digits_rank-lt width 0 b.attributes)
        (first_difference-Tells width 0 a.attributes b.attributes))

padded-Tells :
    (width : ℕ) (a b : Rrow) (normal : ℕ)
    → (eq32 a.field_type sort_padding ≡ true) ⊎ (eq32 b.field_type sort_padding ≡ true)
    → Tells (padding_last a.field_type b.field_type normal) (wide_rank width a) (wide_rank width b)
unfolding is_neg is_pos sub32
padded-Tells width a b normal pad = elim (Bool-cases (eq32 a.field_type sort_padding)) [
  | inl p ↦ elim (Bool-cases (eq32 b.field_type sort_padding)) [
    | inl q ↦ rw (p, q) (rw (pad_rank_lem width a p, pad_rank_lem width b q) (ground arith))
    | inr q ↦
        let low = wide_rank-lt width b q in
        rw (p, q) (rw (pad_rank_lem width a p) (ground (arith, low)))
  ]
  | inr p ↦ elim pad [
    | inl absurd_pad ↦ cc
    | inr q ↦
        let low = wide_rank-lt width a p in
        rw (p, q) (rw (pad_rank_lem width b q) (ground (arith, low)))
  ]
]

-- rr_cmp_join_then_other is the order of `wide_rank`: by join key, then by the attributes, with sort
-- padding last.
pub rr_cmp_join_then_other-Agrees :
    (width : ℕ) → Agrees (rr_cmp_join_then_other width) (wide_rank width)
rr_cmp_join_then_other-Agrees width a b =
    let value = (cmp_join_then_other_lem width (trow_make_pad 0) (trow_make_pad 0) a b).1 in
    rw value (elim (Bool-cases (eq32 a.field_type sort_padding)) [
      | inl p ↦ padded-Tells width a b _ (inl p)
      | inr p ↦ elim (Bool-cases (eq32 b.field_type sort_padding)) [
        | inl q ↦ padded-Tells width a b _ (inr q)
        | inr q ↦ rows-Tells width a b p q
      ]
    ])

pub pad-wide_top : (width : ℕ) → wide_rank width (rrow_make_pad width) ≡ wide_top width
unfolding eq32
pad-wide_top width = pad_rank_lem width (rrow_make_pad width) refl
