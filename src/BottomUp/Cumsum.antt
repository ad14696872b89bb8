-- ===== src/BottomUp/Cumsum.antt =====
-- Step 3 over an array sorted by key: at a boundary the running sum is the sum of the sources
-- that sort before it, up to one constant of the array.
use omwj.Prelude.{
  ℕ, ◌+◌, ◌*◌, ◌%◌, ◌≤◌, ◌≡◌, refl, sym, ◌∙◌, ◌⊎◌, Bool, true, false, ◌&&◌, ◌||◌, List, [], ◌∷◌,
  arith,
}
use omwj.Prelude.Tests.{ltb, if◌then◌else◌}
use omwj.Prelude.Lists.{All, pass_from, linear_pass}
use omwj.Prelude.Word.{modulus, eq32, add32, sub32, mul32, skey, eq32_test}
use omwj.Constants.{source, start, eq_closed, eq_open}
use omwj.Order.Sorted.{IsSorted, All-imp}
use omwj.Skinny.{SkRec, get_prec, is_target}
use omwj.Skinny.Ranks.{join_rank}
use omwj.BottomUp.{cumsum_step}

-- A SOURCE, or a boundary with a tag that the code knows.
abbrev pub is_real : SkRec → Bool
is_real r =
    eq32 r.field_type source
    || (is_target r && (eq32 r.equality_type eq_closed || eq32 r.equality_type eq_open))

-- The sources of an array that sort before rank k, by multiplicity.
abbrev pub source_below : ℕ → List SkRec → ℕ
source_below k [] = 0
source_below k (r ∷ rs) =
    (if eq32 r.field_type source && ltb (join_rank r) k then r.local_mult else 0)
    + source_below k rs

pub source_rank :
    (r : SkRec) → eq32 r.field_type source ≡ true → join_rank r ≡ skey r.join_attr * 4 + 2
unfolding join_rank get_prec eq32
source_rank r h = ground arith

-- A boundary is at an odd rank.
target_rank :
    (r : SkRec)
    → is_real r ≡ true
    → is_target r ≡ true
    → (join_rank r ≡ skey r.join_attr * 4 + 1) ⊎ (join_rank r ≡ skey r.join_attr * 4 + 3)
unfolding join_rank get_prec eq32
target_rank r h k = ground arith

open_start_rank :
    (r : SkRec)
    → (eq32 r.field_type start && eq32 r.equality_type eq_open) ≡ true
    → join_rank r ≡ skey r.join_attr * 4 + 3
unfolding join_rank get_prec eq32
open_start_rank r h = ground arith

-- In an array sorted by key no source is skipped.
cumsum_acc :
    (e1 e2 : SkRec)
    → join_rank e1 ≤ join_rank e2
    → (cumsum_step e1 e2).acc % modulus
      ≡ (e1.acc + (if eq32 e2.field_type source then e2.local_mult else 0)) % modulus
unfolding cumsum_step add32 mul32 sub32
cumsum_acc e1 e2 h =
    ground (arith, open_start_rank e1, source_rank e2, eq32_test e1.join_attr e2.join_attr)

cumsum_step-real :
    (e1 e2 : SkRec)
    → (join_rank (cumsum_step e1 e2) ≡ join_rank e2)
      × (is_real (cumsum_step e1 e2) ≡ is_real e2)
      × (is_target (cumsum_step e1 e2) ≡ is_target e2)
unfolding cumsum_step join_rank
cumsum_step-real e1 e2 = (refl, refl, refl)

target_no_source : (r : SkRec) → is_target r ≡ true → eq32 r.field_type source ≡ false
unfolding eq32
target_no_source r h = ground arith

source_below_least :
    (k : ℕ) (xs : List SkRec) → All (λ y. k ≤ join_rank y) xs → source_below k xs ≡ 0
source_below_least k [] h = refl
source_below_least k (x ∷ xs) h = ground (arith, source_below_least k xs h.1, h.0)

-- The running sum at a boundary, from `base` on.
abbrev pub AccIs : ℕ → List SkRec → SkRec → Type 0
AccIs base xs r =
    is_target r ≡ true → r.acc % modulus ≡ (base + source_below (join_rank r) xs) % modulus

-- A record from the pass over `xs`, all of whose ranks are at least k.
abbrev Passed : ℕ → ℕ → List SkRec → SkRec → Type 0
Passed k base xs r = (is_real r ≡ true) × (k ≤ join_rank r) × AccIs base xs r

-- One more record in front.
Passed-cons :
    (e1 e2 : SkRec) (xs : List SkRec)
    → join_rank e1 ≤ join_rank e2
    → (r : SkRec) → Passed (join_rank (cumsum_step e1 e2)) (cumsum_step e1 e2).acc xs r
    → Passed (join_rank e1) e1.acc (e2 ∷ xs) r
Passed-cons e1 e2 xs h r (real, above, sum) =
    let same = (cumsum_step-real e1 e2).0 in
    let step = cumsum_acc e1 e2 h in
    (
      real,
      omega arith,
      λ t.
          let here = sum t in
          ground
            (arith, source_rank e2, target_rank r real t, cumsum_acc e1 e2 h, here, same, above),
    )

cumsum_head :
    (e1 e2 : SkRec) (xs : List SkRec)
    → join_rank e1 ≤ join_rank e2
    → All (λ y. join_rank e2 ≤ join_rank y) xs
    → is_real e2 ≡ true
    → Passed (join_rank e1) e1.acc (e2 ∷ xs) (cumsum_step e1 e2)
unfolding cumsum_step eq32 add32 join_rank
cumsum_head e1 e2 xs h least real =
    let same = cumsum_step-real e1 e2 in
    (
      same.1 ∙ real,
      rw (same.0) h,
      λ t.
          rw (same.0, source_below_least (join_rank e2) xs least)
            (ground (arith, target_no_source e2 (sym same.2 ∙ t), cumsum_acc e1 e2 h)),
    )

cumsum_pass :
    (prev : SkRec) (xs : List SkRec)
    → All (λ y. join_rank prev ≤ join_rank y) xs
    → IsSorted join_rank xs
    → All (λ y. is_real y ≡ true) xs
    → All (Passed (join_rank prev) prev.acc xs) (pass_from cumsum_step prev xs)
cumsum_pass prev [] a s r = tt
cumsum_pass prev (x ∷ xs) a s r =
    let x' = cumsum_step prev x in
    let least = rw (← (cumsum_step-real prev x).0) at s.0 in
    (
      cumsum_head prev x xs a.0 s.0 r.0,
      All-imp _ _ (Passed-cons prev x xs a.0) _ (cumsum_pass x' xs least s.1 r.1),
    )

-- A source brings its own multiplicity into the pass.
abbrev pub StartsFull : SkRec → Type 0
StartsFull r = eq32 r.field_type source ≡ true → r.acc ≡ r.local_mult

abbrev pub first_acc : List SkRec → ℕ
first_acc [] = 0
first_acc (x ∷ xs) = if eq32 x.field_type source then 0 else x.acc

-- After the pass over an array sorted by key, the sum at each boundary is the constant of the
-- array and the sources below the boundary's rank.
pub linear_pass-AccIs :
    (xs : List SkRec)
    → IsSorted join_rank xs
    → All (λ r. is_real r ≡ true) xs
    → All StartsFull xs
    → All (λ r. (is_real r ≡ true) × AccIs (first_acc xs) xs r) (linear_pass cumsum_step xs)
linear_pass-AccIs [] s r f = tt
linear_pass-AccIs (x ∷ xs) s r f = (
  (r.0, λ t. rw (source_below_least (join_rank x) xs s.0) (ground (arith, target_no_source x t))),
  All-imp _ _ widen _ (cumsum_pass x xs s.0 s.1 r.1),
)
  where
    widen :
        (y : SkRec)
        → Passed (join_rank x) x.acc xs y
        → (is_real y ≡ true) × AccIs (first_acc (x ∷ xs)) (x ∷ xs) y
    widen y (real, above, sum) = (
      real,
      λ t.
          let here = sum t in
          let full = f.0 in ground (arith, source_rank x, target_rank y real t, here, full, above),
    )
