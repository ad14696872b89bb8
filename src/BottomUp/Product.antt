-- ===== src/BottomUp/Product.antt =====
-- compute_local_mult run to its end: every parent row times the child rows that join it.
use native.Mathlib.Nat.{mul-add-mod_self_left}
use omwj.Prelude.{
  ℕ, Bool, ◌&&◌, ◌+◌, ◌*◌, ◌^◌, ◌≤◌, ◌≡◌, refl, ◌∙◌, ap, ◌⊎◌, ◌%◌, ◌/◌, sym, inl, inr, true, List,
  [], ◌∷◌, map, arith,
}
use omwj.Prelude.Tests.{◌==◌, ltb, leb, if◌then◌else◌, Bool-cases}
use omwj.Prelude.Lists.{length, All}
use omwj.Entry.{Entry, attribute}
use omwj.Entry.Slots.{HasSlot}
use omwj.Prelude.Word.{modulus, skey, add32, mul32, sub32, eq32, int16}
use omwj.Skinny.{get_prec}
use omwj.Skinny.Ranks.{join_rank}
use omwj.Runtime.{Runtime, Lawful, Healthy, Returns}
use omwj.BottomUp.{compute_local_mult}
use omwj.BottomUp.Arrange.{Ascending, start_bare, end_bare}
use omwj.BottomUp.Sums.{child_below}
use omwj.BottomUp.Returns.{multiply_returns}
use omwj.BottomUp.Correct.{counted, multiplied, sorted_intervals}

mul-mod : (a x : ℕ) → a * (x % modulus) % modulus ≡ a * x % modulus
mul-mod a x =
    let whole : x ≡ modulus * (x / modulus) + x % modulus = omega arith in
    let split : a * x ≡ modulus * (a * (x / modulus)) + a * (x % modulus) =
      ap (λ y. a * y) whole ∙ grind arith in
    sym (ap (λ y. y % modulus) split ∙ mul-add-mod_self_left modulus (a * (x / modulus)) _)

-- A key lies between the two boundaries; a boundary itself is inside when its tag is EQ.
unfoldable pub within : ℕ → ℕ → ℕ → ℕ → ℕ → Bool
within lower tag1 upper tag2 key =
    (if tag1 == 1 then leb lower key else ltb lower key)
    && (if tag2 == 1 then leb key upper else ltb key upper)

module _ (col1 col2 dev1 eq1 dev2 eq2 : ℕ) where
  -- the boundaries of a parent row, as signed numbers moved up by 2 ^ 31
  abbrev pub lower : Entry → ℕ
  lower p = skey (add32 (attribute p col1) dev1)

  abbrev pub upper : Entry → ℕ
  upper p = skey (add32 (attribute p col1) dev2)

  -- The rows of the child that join a parent row, by multiplicity.
  abbrev pub joining : Entry → List Entry → ℕ
  joining p [] = 0
  joining p (e ∷ child) =
      (if within (lower p) eq1 (upper p) eq2 (skey (attribute e col2)) then e.local_mult else 0)
      + joining p child

  -- No range is turned round; where both ends are open it is not a single point.
  abbrev pub InOrder : Entry → Type 0
  InOrder p = (lower p + (if eq1 == 1 then 0 else (if eq2 == 1 then 0 else 1))) ≤ upper p

  abbrev pub joined : List Entry → Entry → Entry
  joined child p = record p { local_mult = mul32 p.local_mult (joining p child) }

  module _ (known1 : (eq1 ≡ 1) ⊎ (eq1 ≡ 2)) (known2 : (eq2 ≡ 1) ⊎ (eq2 ≡ 2)) where
    start_rank :
        (p : Entry)
        → join_rank (start_bare col1 dev1 eq1 dev2 eq2 p)
          ≡ lower p * 4 + (if eq1 == 1 then 1 else 3)
    unfolding join_rank get_prec eq32 int16
    start_rank p = ground (arith, known1)

    end_rank :
        (p : Entry)
        → join_rank (end_bare col1 dev1 eq1 dev2 eq2 p) ≡ upper p * 4 + (if eq2 == 1 then 3 else 1)
    unfolding join_rank get_prec eq32 int16
    end_rank p = ground (arith, known2)

    child_below-joining :
        (p : Entry)
        → InOrder p
        → (child : List Entry)
        → child_below col2 (join_rank (end_bare col1 dev1 eq1 dev2 eq2 p)) child
          ≡ child_below col2 (join_rank (start_bare col1 dev1 eq1 dev2 eq2 p)) child
            + joining p child
    unfolding within
    child_below-joining p h [] = refl
    child_below-joining p h (e ∷ child) =
        ground (arith, known1, known2, start_rank p, end_rank p, h, child_below-joining p h child)

    counted-joining :
        (parent child : List Entry) (p : Entry)
        → InOrder p
        → multiplied col1 col2 dev1 eq1 dev2 eq2 parent child p ≡ joined child p
    unfolding mul32 sub32
    counted-joining parent child p h =
        let sum = child_below-joining p h child in
        let difference : counted col1 col2 dev1 eq1 dev2 eq2 parent child p
            ≡ joining p child % modulus =
          omega (arith, sum) in
        let with_mult : ℕ → Entry = λ m. record p { local_mult = m } in
        ap with_mult (rw difference (mul-mod p.local_mult (joining p child)))

    map-joined :
        (parent child ps : List Entry)
        → All InOrder ps
        → map (multiplied col1 col2 dev1 eq1 dev2 eq2 parent child) ps ≡ map (joined child) ps
    map-joined parent child [] h = refl
    map-joined parent child (p ∷ ps) h =
        rw (counted-joining parent child p h.0, map-joined parent child ps h.1) refl

no_rows : {A : Type 0} (f : A → A) (xs : List A) → (length xs == 0) ≡ true → xs ≡ map f xs
no_rows f [] h = refl
no_rows f (x ∷ xs) h = ground arith

-- Each row by the difference of the two sums of its boundaries.
compute_local_mult-multiplied :
    (rt : Runtime)
    → Healthy rt
    → Lawful rt
    → (col1 col2 dev1 eq1 dev2 eq2 : ℕ) (parent child : List Entry) → (eq1 ≡ 1) ⊎ (eq1 ≡ 2)
    → (eq2 ≡ 1) ⊎ (eq2 ≡ 2)
    → Ascending parent
    → length child + 2 * length parent ≤ 2 ^ 57
    → All (HasSlot col2) child
    → All (HasSlot col1) parent
    → (w : rt.World)
    → Returns
        (compute_local_mult col1 col2 dev1 eq1 dev2 eq2 rt parent child w)
        (λ out. out ≡ map (multiplied col1 col2 dev1 eq1 dev2 eq2 parent child) parent)
unfolding compute_local_mult
compute_local_mult-multiplied rt healthy lawful col1 col2 dev1 eq1 dev2 eq2 parent child known1
      known2 ascending small inside inside' w =
    elim (Bool-cases (length parent == 0)) [
      | inl empty ↦ (parent, w, rw empty refl, no_rows _ parent empty)
      | inr some_rows ↦
          let (out, w', e, (by_key, pairs, ends, (p1, s1), (p2, s2), (p3, s3), same)) =
            multiply_returns rt healthy lawful col1 col2 dev1 eq1 dev2 eq2 parent child small inside
              inside' w in
          (
            out,
            w',
            rw some_rows e,
            same
                ∙ sorted_intervals col1 col2 dev1 eq1 dev2 eq2 parent child known1 known2 ascending
                    by_key pairs ends p1 s1 p2 s2 p3 s3,
          )
    ]

-- Let the equality tags be EQ or NEQ, the original indices of the parent's rows strictly ascend as
-- int32_t values, no row's range of keys be turned round (nor be a single point with two open
-- ends), the combined array hold at most 2 ^ 57 records, and the join columns be slots of the rows;
-- let memory be left, the generator work and qsort be lawful. Then compute_local_mult returns the parent's rows in their order, each
-- with its local_mult multiplied, modulo 2 ^ 32, by the multiplicities of the child rows whose key
-- lies within the row's range, and with nothing else changed.
pub compute_local_mult-joined :
    (rt : Runtime)
    → Healthy rt
    → Lawful rt
    → (col1 col2 dev1 eq1 dev2 eq2 : ℕ) (parent child : List Entry) → (eq1 ≡ 1) ⊎ (eq1 ≡ 2)
    → (eq2 ≡ 1) ⊎ (eq2 ≡ 2)
    → Ascending parent
    → All (InOrder col1 col2 dev1 eq1 dev2 eq2) parent
    → length child + 2 * length parent ≤ 2 ^ 57
    → All (HasSlot col2) child
    → All (HasSlot col1) parent
    → (w : rt.World)
    → Returns
        (compute_local_mult col1 col2 dev1 eq1 dev2 eq2 rt parent child w)
        (λ out. out ≡ map (joined col1 col2 dev1 eq1 dev2 eq2 child) parent)
compute_local_mult-joined rt healthy lawful col1 col2 dev1 eq1 dev2 eq2 parent child known1 known2
      ascending ordered small inside inside' w =
    let (out, w', e, same) =
      compute_local_mult-multiplied rt healthy lawful col1 col2 dev1 eq1 dev2 eq2 parent child
        known1 known2 ascending small inside inside' w in
    (
      out,
      w',
      e,
      same ∙ map-joined col1 col2 dev1 eq1 dev2 eq2 known1 known2 parent child parent ordered,
    )
