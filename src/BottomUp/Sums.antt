-- ===== src/BottomUp/Sums.antt =====
-- Steps 1 to 3 of compute_local_mult: the running sum at a parent row's boundary counts the child
-- rows that sort before it.
use mathlib.Core.Logic.{∥∥₁_elim}
use mathlib.Core.List.{Permᴰ}
use native.Mathlib.Nat.{ℕ_set}
use omwj.Prelude.{
  ℕ, ◌+◌, ◌*◌, ◌%◌, ◌^◌, ◌≤◌, ◌≡◌, refl, ap, ◌∙◌, ◌⊎◌, true, false, List, [], ◌∷◌, ◌++◌, map, Perm,
  arith,
}
use omwj.Prelude.Tests.{ltb, if◌then◌else◌}
use omwj.Prelude.Lists.{length, All, linear_pass}
use omwj.Prelude.Word.{modulus, eq32, skey, int16}
use omwj.Constants.{source}
use omwj.Entry.{Entry, attribute}
use omwj.Order.Carried.{All-Perm}
use omwj.Order.Sorted.{IsSorted, All-append, All-imp}
use omwj.Skinny.{SkRec, sk_cmp_join_attr, sk_make_pad, is_target}
use omwj.Skinny.Ranks.{join_rank, sk_cmp_join_attr-Agrees}
use omwj.Runtime.{Runtime, Lawful, Healthy, Returns}
use omwj.Sort.{ej_osort_g}
use omwj.Sort.Laws.{ej_osort_g-sorts}
use omwj.BottomUp.{cumsum_step, source_rec, start_rec, end_rec, combined}
use omwj.BottomUp.Cumsum.{
  is_real, source_below, StartsFull, first_acc, linear_pass-AccIs, source_rank,
}
use omwj.BottomUp.Returns.{NotPad, below_pad, combined_kept}

-- The child rows whose key sorts before a boundary of rank k, by multiplicity.
abbrev pub child_below : ℕ → ℕ → List Entry → ℕ
child_below join_col k [] = 0
child_below join_col k (e ∷ child) =
    (if ltb (skey (attribute e join_col) * 4 + 2) k then e.local_mult else 0)
    + child_below join_col k child

source_below-Permᴰ :
    (k : ℕ) {xs ys : List SkRec} → Permᴰ xs ys → source_below k xs ≡ source_below k ys
source_below-Permᴰ k Permᴰ.nil = refl
source_below-Permᴰ k (Permᴰ.cons e p) = rw (e, source_below-Permᴰ k p) refl
source_below-Permᴰ k (Permᴰ.swap e f) = rw (e, f) (omega arith)
source_below-Permᴰ k (Permᴰ.trans p q) = source_below-Permᴰ k p ∙ source_below-Permᴰ k q

source_below-append :
    (k : ℕ) (xs ys : List SkRec) → source_below k (xs ++ ys) ≡ source_below k xs + source_below k ys
source_below-append k [] ys = omega arith
source_below-append k (x ∷ xs) ys = rw (source_below-append k xs ys) (omega arith)

-- A known record that carries its multiplicity.
abbrev Ready : SkRec → Type 0
Ready r = (is_real r ≡ true) × StartsFull r

Ready-prop : (r : SkRec) → IsProp (Ready r)
Ready-prop r = hlevel (ℕ_set)

All-Ready-map :
    (f : Entry → SkRec) → ((e : Entry) → Ready (f e)) → (xs : List Entry) → All Ready (map f xs)
All-Ready-map f h [] = tt
All-Ready-map f h (x ∷ xs) = (h x, All-Ready-map f h xs)

no_sources :
    (f : Entry → SkRec) (k : ℕ)
    → ((e : Entry) → eq32 (f e).field_type source ≡ false)
    → (xs : List Entry) → source_below k (map f xs) ≡ 0
no_sources f k h [] = refl
no_sources f k h (x ∷ xs) = rw (h x, no_sources f k h xs) refl

child_sources :
    (join_col k : ℕ) (child : List Entry)
    → source_below k (map (source_rec join_col) child) ≡ child_below join_col k child
unfolding eq32
child_sources join_col k [] = refl
child_sources join_col k (e ∷ child) =
    ground (arith, source_rank (source_rec join_col e), child_sources join_col k child)

module _ (parent_join_col join_col dev1 eq1 dev2 eq2 : ℕ) (parent child : List Entry)
    (known1 : (eq1 ≡ 1) ⊎ (eq1 ≡ 2)) (known2 : (eq2 ≡ 1) ⊎ (eq2 ≡ 2)) where
  combined-Ready : All Ready (combined parent_join_col join_col dev1 eq1 dev2 eq2 parent child)
  unfolding eq32 int16
  combined-Ready =
      let starts = map (start_rec parent_join_col dev1 eq1) parent in
      let ends = map (end_rec parent_join_col dev2 eq2) parent in
      All-append Ready (map (source_rec join_col) child) (starts ++ ends)
        (All-Ready-map (source_rec join_col) (λ e. (refl, λ h. refl)) child)
        (All-append Ready starts ends
          (All-Ready-map (start_rec parent_join_col dev1 eq1)
            (λ e. (ground (arith, known1), λ h. refl)) parent)
          (All-Ready-map (end_rec parent_join_col dev2 eq2)
            (λ e. (ground (arith, known2), λ h. refl)) parent))

  combined_below :
      (k : ℕ)
      → source_below k (combined parent_join_col join_col dev1 eq1 dev2 eq2 parent child)
        ≡ child_below join_col k child
  unfolding eq32
  combined_below k =
      let starts = map (start_rec parent_join_col dev1 eq1) parent in
      let ends = map (end_rec parent_join_col dev2 eq2) parent in
      let none1 = no_sources (start_rec parent_join_col dev1 eq1) k (λ e. refl) parent in
      let none2 = no_sources (end_rec parent_join_col dev2 eq2) k (λ e. refl) parent in
      let split1 = source_below-append k (map (source_rec join_col) child) (starts ++ ends) in
      let split2 = source_below-append k starts ends in
      split1 ∙ omega (arith, split2, none1, none2, child_sources join_col k child)

  -- the sums after step 3, over any sorted arrangement of the combined array
  pub sums_of_sorted :
      (by_key : List SkRec)
      → Perm by_key (combined parent_join_col join_col dev1 eq1 dev2 eq2 parent child)
      → IsSorted join_rank by_key
      → All
          (λ r.
            is_target r ≡ true
            → r.acc % modulus
              ≡ (first_acc by_key + child_below join_col (join_rank r) child) % modulus)
          (linear_pass cumsum_step by_key)
  sums_of_sorted by_key p sorted =
      let ready = All-Perm Ready Ready-prop p combined-Ready in
      let same : (k : ℕ) → source_below k by_key ≡ child_below join_col k child =
        λ k. ∥∥₁_elim p (ℕ_set _ _) (λ q. source_below-Permᴰ k q) ∙ combined_below k in
      let sums =
        linear_pass-AccIs by_key sorted (All-imp Ready _ (λ r h. h.0) by_key ready)
          (All-imp Ready _ (λ r h. h.1) by_key ready) in
      All-imp _ _ (λ r h t. h.1 t ∙ ap (λ s. (first_acc by_key + s) % modulus) (same (join_rank r)))
        (linear_pass cumsum_step by_key) sums

  -- Let the equality tags be EQ or NEQ, and the combined array hold at most 2 ^ 57 records; let
  -- memory be left, the generator work and qsort be lawful. Then the sort of step 2 returns, and
  -- after the pass of step 3 over its result the running sum at each START and END is, up to one
  -- constant of the array and modulo 2 ^ 32, the sum of the multiplicities of the child rows whose
  -- key sorts before that boundary.
  pub boundary_sums :
      (rt : Runtime)
      → Healthy rt
      → Lawful rt
      → (w : rt.World) → length child + 2 * length parent ≤ 2 ^ 57
      → Returns
          (ej_osort_g rt 32 sk_cmp_join_attr sk_make_pad
            (combined parent_join_col join_col dev1 eq1 dev2 eq2 parent child)
            w)
          (λ by_key.
            All
              (λ r.
                is_target r ≡ true
                → r.acc % modulus
                  ≡ (first_acc by_key + child_below join_col (join_rank r) child) % modulus)
              (linear_pass cumsum_step by_key))
  unfolding join_rank eq32
  boundary_sums rt healthy lawful w small =
      let all = combined parent_join_col join_col dev1 eq1 dev2 eq2 parent child in
      let (real, size) = combined_kept parent_join_col join_col dev1 eq1 dev2 eq2 parent child in
      let (by_key, w', e, (p, sorted)) =
        ej_osort_g-sorts rt healthy lawful 32 sk_cmp_join_attr join_rank sk_make_pad
          sk_cmp_join_attr-Agrees refl all w refl (omega (arith, size, small))
          (All-imp NotPad _ (λ r h. (below_pad r h).0) all real) in
      (by_key, w', e, sums_of_sorted by_key p sorted)
