-- ===== src/BottomUp/Correct.antt =====
-- compute_local_mult as a whole: what each parent row's multiplicity is multiplied by.
use mathlib.Core.Logic.{∥∥₁_map, ∥∥₁_map₂}
use mathlib.Core.List.{Permᴰ, head-eq_of_cons-eq, tail-eq_of_cons-eq, map-append, map-map}
use native.Mathlib.Nat.{ℕ_set}
use native.Mathlib.Bridge.{le_prop}
use omwj.Prelude.{ℕ, ◌≤◌, ◌≡◌, refl, ap, ◌∙◌, ◌⊎◌, List, [], ◌∷◌, ◌++◌, map, Perm, arith}
use omwj.Prelude.Lists.{length, All, linear_pass}
use omwj.Prelude.Word.{eq32, mul32}
use omwj.Entry.{Entry}
use omwj.Order.Carried.{All-Perm}
use omwj.Order.Sorted.{IsSorted, All-append, All-imp}
use omwj.Order.Split.{above}
use omwj.Order.Front.{map-Permᴰ, sorted_front, sorted_back}
use omwj.Skinny.{SkRec}
use omwj.Skinny.Ranks.{join_rank, pairwise_rank, end_first_rank}
use omwj.BottomUp.{
  cumsum_step, interval_step, apply_intervals, source_rec, start_rec, end_rec, combined,
}
use omwj.BottomUp.Cumsum.{first_acc}
use omwj.BottomUp.Sums.{child_below, sums_of_sorted}
use omwj.BottomUp.Erase.{
  erase, List-SkRec_set, pairwise_rank-erase, end_first_rank-erase, erase-cumsum,
}
use omwj.BottomUp.Arrange.{
  interleave, Ascending, start_bare, end_bare, source_bare, end_done, pairs-IsStrict, pairs_low,
  sources_high, combined-Permᴰ, ends-IsStrict, ends_low, starts_high, ends-Permᴰ,
}
use omwj.BottomUp.Intervals.{Quiet, Summed, value, interval_pass}

IsSorted-map :
    (f : SkRec → SkRec) (rank : SkRec → ℕ)
    → ((r : SkRec) → rank (f r) ≡ rank r)
    → (xs : List SkRec) → IsSorted rank xs
    → IsSorted rank (map f xs)
IsSorted-map f rank same [] s = tt
IsSorted-map f rank same (x ∷ xs) s = (least xs s.0, IsSorted-map f rank same xs s.1)
  where
    least :
        (ys : List SkRec)
        → All (λ y. rank x ≤ rank y) ys
        → All (λ y. rank (f x) ≤ rank y) (map f ys)
    least [] h = tt
    least (y ∷ ys) h = (omega (arith, same x, same y, h.0), least ys h.1)

-- A child's record after step 5, wherever the sorts put it.
Rest : SkRec → Type 0
Rest r = Quiet r × (4294967296 ≤ end_first_rank r)

Rest-prop : (r : SkRec) → IsProp (Rest r)
unfolding Rest
Rest-prop r = hlevel (ℕ_set, le_prop)

sources-Rest : (col : ℕ) (child : List Entry) → All Rest (map (source_bare col) child)
unfolding Rest eq32 end_first_rank
sources-Rest col [] = tt
sources-Rest col (e ∷ child) = (((refl, refl), omega arith), sources-Rest col child)

module _ (col1 col2 dev1 eq1 dev2 eq2 : ℕ) (parent child : List Entry) where
  abbrev pub counted : Entry → ℕ
  counted = value col1 dev1 eq1 dev2 eq2 0 (λ k. child_below col2 k child)

  abbrev pub multiplied : Entry → Entry
  multiplied p = record p { local_mult = mul32 p.local_mult (counted p) }

  abbrev start_row : Entry → SkRec
  start_row = start_bare col1 dev1 eq1 dev2 eq2

  abbrev end_row : Entry → SkRec
  end_row = end_bare col1 dev1 eq1 dev2 eq2

  abbrev done_row : Entry → SkRec
  done_row = end_done col1 dev1 eq1 dev2 eq2 counted

  all_bare :
      map erase (combined col1 col2 dev1 eq1 dev2 eq2 parent child)
      ≡ map (source_bare col2) child ++ (map start_row parent ++ map end_row parent)
  all_bare =
      let starts = map (start_rec col1 dev1 eq1) parent in
      let ends = map (end_rec col1 dev2 eq2) parent in
      map-append erase (map (source_rec col2) child) (starts ++ ends)
      ∙ rw
          (
            map-append erase starts ends,
            map-map erase (source_rec col2) child,
            map-map erase (start_rec col1 dev1 eq1) parent,
            map-map erase (end_rec col1 dev2 eq2) parent,
          )
          refl

  -- Row i takes the value of its own pair, when record i is its END.
  apply_done :
      (ps : List Entry) (rest comb : List SkRec)
      → map erase comb ≡ map done_row ps ++ rest
      → apply_intervals ps comb ≡ map multiplied ps
  unfolding apply_intervals
  apply_done [] rest comb h = refl
  apply_done (p ∷ ps) rest [] h = absurd (omega (arith, ap length h))
  apply_done (p ∷ ps) rest (r ∷ comb) h =
      let amount = ap (λ x. x.interval) (head-eq_of_cons-eq h) in
      rw (amount, apply_done ps rest comb (tail-eq_of_cons-eq h)) refl

  module _ (known1 : (eq1 ≡ 1) ⊎ (eq1 ≡ 2)) (known2 : (eq2 ≡ 1) ⊎ (eq2 ≡ 2))
      (ascending : Ascending parent) (by_key pairs ends : List SkRec)
      (p1 : Perm by_key (combined col1 col2 dev1 eq1 dev2 eq2 parent child))
      (s1 : IsSorted join_rank by_key) (p2 : Perm pairs (linear_pass cumsum_step by_key))
      (s2 : IsSorted pairwise_rank pairs) (p3 : Perm ends (linear_pass interval_step pairs))
      (s3 : IsSorted end_first_rank ends) where
    pairs_bare :
        Perm (map erase pairs) (interleave start_row end_row parent ++ map (source_bare col2) child)
    pairs_bare =
        let same : map erase (linear_pass cumsum_step by_key) ≡ map erase by_key =
          erase-cumsum by_key in
        ∥∥₁_map₂ p1 p2 λ q1 q2. Permᴰ.trans (rw same at (map-Permᴰ erase q2)) (
          Permᴰ.trans (rw all_bare at (map-Permᴰ erase q1))
            (combined-Permᴰ col1 dev1 eq1 dev2 eq2 col2 parent child))

    abbrev tail_pairs : List SkRec
    tail_pairs = above pairwise_rank 8589934592 (map erase pairs)

    pairs_erase-IsSorted : IsSorted pairwise_rank (map erase pairs)
    pairs_erase-IsSorted = IsSorted-map erase pairwise_rank pairwise_rank-erase pairs s2

    pairs_front : map erase pairs ≡ interleave start_row end_row parent ++ tail_pairs
    pairs_front =
        sorted_front List-SkRec_set pairwise_rank 8589934592 (map erase pairs) _ _
          (pairs-IsStrict col1 dev1 eq1 dev2 eq2 parent ascending) pairs_erase-IsSorted pairs_bare
          (pairs_low col1 dev1 eq1 dev2 eq2 parent) (sources_high col2 child)

    tail_pairs-Rest : All Rest tail_pairs
    tail_pairs-Rest =
        All-Perm Rest Rest-prop
          (sorted_back List-SkRec_set pairwise_rank 8589934592 (map erase pairs) _ _
            (pairs-IsStrict col1 dev1 eq1 dev2 eq2 parent ascending) pairs_erase-IsSorted pairs_bare
            (pairs_low col1 dev1 eq1 dev2 eq2 parent) (sources_high col2 child))
          (sources-Rest col2 child)

    abbrev Sums : SkRec → Type 0
    Sums = Summed col1 dev1 eq1 dev2 eq2 (first_acc by_key) (λ k. child_below col2 k child)

    pairs-Sums : All Sums pairs
    pairs-Sums =
        All-Perm Sums (λ r. hlevel (ℕ_set)) p2
          (sums_of_sorted col1 col2 dev1 eq1 dev2 eq2 parent child known1 known2 by_key p1 s1)

    intervals_bare :
        map erase (linear_pass interval_step pairs)
        ≡ interleave start_row done_row parent ++ tail_pairs
    unfolding Rest
    intervals_bare =
        interval_pass col1 dev1 eq1 dev2 eq2 (first_acc by_key) (λ k. child_below col2 k child)
          parent tail_pairs (All-imp Rest Quiet (λ r h. h.0) tail_pairs tail_pairs-Rest) pairs
          pairs_front pairs-Sums

    rest_high : All (λ r. 4294967296 ≤ end_first_rank r) (map start_row parent ++ tail_pairs)
    unfolding Rest
    rest_high =
        All-append _ (map start_row parent) tail_pairs
          (starts_high col1 dev1 eq1 dev2 eq2 counted parent)
          (All-imp Rest _ (λ r h. h.1) tail_pairs tail_pairs-Rest)

    ends_bare : Perm (map erase ends) (map done_row parent ++ (map start_row parent ++ tail_pairs))
    ends_bare = ∥∥₁_map p3 λ q3.
        Permᴰ.trans (rw intervals_bare at (map-Permᴰ erase q3))
          (ends-Permᴰ col1 dev1 eq1 dev2 eq2 counted parent tail_pairs)

    -- Steps 1 to 7, whatever arrangements the three sorts return.
    pub sorted_intervals : apply_intervals parent ends ≡ map multiplied parent
    sorted_intervals = apply_done parent _ ends (
        sorted_front List-SkRec_set end_first_rank 4294967296 (map erase ends) _ _
          (ends-IsStrict col1 dev1 eq1 dev2 eq2 counted parent ascending)
          (IsSorted-map erase end_first_rank end_first_rank-erase ends s3) ends_bare
          (ends_low col1 dev1 eq1 dev2 eq2 counted parent) rest_high)
