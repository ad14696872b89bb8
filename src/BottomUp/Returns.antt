-- ===== src/BottomUp/Returns.antt =====
-- compute_local_mult returns, and changes nothing of a parent row but its multiplicity.
use omwj.Order.Carried.{All-Perm, length-Perm}
use omwj.Order.Sorted.{IsSorted, All-imp, All-append}
use omwj.Prelude.{
  suc, ◌^◌, ℕ, ◌+◌, ◌*◌, ◌≤◌, ◌<◌, ◌≡◌, refl, ap, false, List, [], ◌∷◌, ◌++◌, map, inl, inr, Perm,
  arith,
}
use omwj.Prelude.Tests.{◌==◌, Bool-cases}
use omwj.Prelude.Lists.{length, All, pass_from, linear_pass, length-append, length-map}
use omwj.Prelude.Word.{eq32, skey-lt}
use omwj.Constants.{sort_padding}
use omwj.Entry.{Entry, slot_reads}
use omwj.Entry.Slots.{HasSlot, slot_reads_lem}
use omwj.Order.{Agrees, pad_rank}
use omwj.Skinny.{sk_cmp_join_attr, sk_cmp_pairwise, sk_cmp_end_first, SkRec, sk_make_pad}
use omwj.Skinny.Ranks.{
  join_rank, pairwise_rank, end_first_rank, get_prec-le, sk_cmp_join_attr-Agrees,
  sk_cmp_pairwise-Agrees, sk_cmp_end_first-Agrees,
}
use omwj.Runtime.{ok, Runtime, Lawful, Healthy, Returns, defined, defined-some, reserve, >>=-ok}
use omwj.Sort.{ej_osort_g}
use omwj.Sort.Laws.{ej_osort_g-sorts}
use omwj.BottomUp.{
  cumsum_step, interval_step, apply_intervals, source_rec, start_rec, end_rec, combined,
  multiply_intervals, compute_local_mult,
}

-- A record that is no sort padding is below it in every order.
abbrev pub NotPad : SkRec → Type 0
NotPad r = eq32 r.field_type sort_padding ≡ false

pub below_pad :
    (r : SkRec)
    → NotPad r
    → (join_rank r < pad_rank) × (pairwise_rank r < pad_rank) × (end_first_rank r < pad_rank)
unfolding join_rank pairwise_rank end_first_rank
below_pad r h =
    ground (
      arith,
      get_prec-le r.field_type r.equality_type,
      skey-lt r.join_attr,
      skey-lt r.original_index,
    )

NotPad-prop : (r : SkRec) → IsProp (NotPad r)
NotPad-prop r = hlevel

abbrev pub Kept : List SkRec → List SkRec → Type 0
Kept arr out = All NotPad out × (length out ≡ length arr)

Perm-Kept : (arr out : List SkRec) → Perm out arr → All NotPad arr → Kept arr out
Perm-Kept arr out p h = (All-Perm NotPad NotPad-prop p h, length-Perm p)

pub pass-Kept :
    (f : SkRec → SkRec → SkRec)
    → ((prev r : SkRec) → NotPad r → NotPad (f prev r))
    → (xs : List SkRec) → All NotPad xs
    → Kept xs (linear_pass f xs)
pass-Kept f keeps [] h = (tt, refl)
pass-Kept f keeps (x ∷ xs) h = let (a, b) = from x xs h.1 in ((h.0, a), ap suc b)
  where
    from : (prev : SkRec) (ys : List SkRec) → All NotPad ys → Kept ys (pass_from f prev ys)
    from prev [] k = (tt, refl)
    from prev (y ∷ ys) k = let (a, b) = from (f prev y) ys k.1 in ((keeps prev y k.0, a), ap suc b)

cumsum-Kept : (xs : List SkRec) → All NotPad xs → Kept xs (linear_pass cumsum_step xs)
unfolding cumsum_step
cumsum-Kept = pass-Kept cumsum_step λ prev r h. h

interval-Kept : (xs : List SkRec) → All NotPad xs → Kept xs (linear_pass interval_step xs)
unfolding interval_step
interval-Kept = pass-Kept interval_step λ prev r h. h

pub All-map :
    (f : Entry → SkRec) → ((e : Entry) → NotPad (f e)) → (xs : List Entry) → All NotPad (map f xs)
All-map f h [] = tt
All-map f h (x ∷ xs) = (h x, All-map f h xs)

-- A row without its multiplicity.
abbrev pub unmultiplied : Entry → Entry
unmultiplied e = record e { local_mult = 0 }

apply_intervals_kept :
    (parent : List Entry) (comb : List SkRec)
    → map unmultiplied (apply_intervals parent comb) ≡ map unmultiplied parent
unfolding apply_intervals
apply_intervals_kept [] comb = refl
apply_intervals_kept (e ∷ parent) [] = refl
apply_intervals_kept (e ∷ parent) (r ∷ comb) =
    ap (◌∷◌ (unmultiplied e)) (apply_intervals_kept parent comb)

module _ (col1 col2 dev1 eq1 dev2 eq2 : ℕ) (parent child : List Entry) where
  pub combined_kept :
      All NotPad (combined col1 col2 dev1 eq1 dev2 eq2 parent child)
      × (length (combined col1 col2 dev1 eq1 dev2 eq2 parent child)
          ≡ length child + 2 * length parent)
  unfolding eq32
  combined_kept =
      let sources = map (source_rec col2) child in
      let starts = map (start_rec col1 dev1 eq1) parent in
      let ends = map (end_rec col1 dev2 eq2) parent in
      (
        All-append NotPad sources (starts ++ ends) (All-map (source_rec col2) (λ e. refl) child) (
            All-append NotPad starts ends (All-map (start_rec col1 dev1 eq1) (λ e. refl) parent)
              (All-map (end_rec col1 dev2 eq2) (λ e. refl) parent)),
        omega (
          arith,
          length-append sources (starts ++ ends),
          length-append starts ends,
          length-map (source_rec col2) child,
          length-map (start_rec col1 dev1 eq1) parent,
          length-map (end_rec col1 dev2 eq2) parent,
        ),
      )

  -- `out` comes from arrays that the three sorts may return.
  abbrev pub Stages : List Entry → Type 0
  Stages out =
      (by_key : List SkRec) × (pairs : List SkRec) × (ends : List SkRec) × (Perm by_key
          (combined col1 col2 dev1 eq1 dev2 eq2 parent child)
        × IsSorted join_rank by_key)
      × (Perm pairs (linear_pass cumsum_step by_key) × IsSorted pairwise_rank pairs)
      × (Perm ends (linear_pass interval_step pairs) × IsSorted end_first_rank ends)
      × (out ≡ apply_intervals parent ends)

module _ (rt : Runtime) (healthy : Healthy rt) (lawful : Lawful rt) where
  pub sort-Kept :
      (cmp : SkRec → SkRec → ℕ) (rank : SkRec → ℕ)
      → Agrees cmp rank
      → rank sk_make_pad ≡ pad_rank
      → ((r : SkRec) → NotPad r → rank r < pad_rank)
      → (arr : List SkRec) (w : rt.World) → length arr ≤ 2 ^ 57
      → All NotPad arr
      → Returns
          (ej_osort_g rt 32 cmp sk_make_pad arr w)
          (λ out. Perm out arr × IsSorted rank out × Kept arr out)
  sort-Kept cmp rank agrees last below arr w small real =
      let (out, w', e, good) =
        ej_osort_g-sorts rt healthy lawful 32 cmp rank sk_make_pad agrees last arr w refl small
          (All-imp NotPad _ below arr real) in
      (out, w', e, (good.0, good.1, Perm-Kept arr out good.0 real))

  pub reserve_ok : (n : ℕ) (w : rt.World) → reserve rt n w ≡ ok tt (rt.alloc n w).1
  unfolding reserve
  reserve_ok n w = rw (healthy.memory n w, reserve) refl

  module _ (parent_join_col join_col dev1 eq1 dev2 eq2 : ℕ) (parent child : List Entry)
      (small : length child + 2 * length parent ≤ 2 ^ 57) (inside : All (HasSlot join_col) child)
      (inside' : All (HasSlot parent_join_col) parent) where
    pub multiply_returns :
        (w : rt.World)
        → Returns
            (multiply_intervals parent_join_col join_col dev1 eq1 dev2 eq2 rt parent child w)
            (Stages parent_join_col join_col dev1 eq1 dev2 eq2 parent child)
    unfolding multiply_intervals join_rank pairwise_rank end_first_rank eq32
    multiply_returns w =
        let all = combined parent_join_col join_col dev1 eq1 dev2 eq2 parent child in
        let w0 = (rt.alloc ((length child + 2 * length parent) * 32) w).1 in
        let (real, size) = combined_kept parent_join_col join_col dev1 eq1 dev2 eq2 parent child in
        let (by_key, w1, e1, (p1, s1, (k1, n1))) =
          sort-Kept sk_cmp_join_attr join_rank sk_cmp_join_attr-Agrees refl
            (λ r h. (below_pad r h).0) all w0 (omega arith) real in
        let (k1', n1') = cumsum-Kept by_key k1 in
        let (pairs, w2, e2, (p2, s2, (k2, n2))) =
          sort-Kept sk_cmp_pairwise pairwise_rank sk_cmp_pairwise-Agrees refl
            (λ r h. (below_pad r h).1) (linear_pass cumsum_step by_key) w1 (omega arith) k1' in
        let (k2', n2') = interval-Kept pairs k2 in
        let (ends, w3, e3, (p3, s3, (k3, n3))) =
          sort-Kept sk_cmp_end_first end_first_rank sk_cmp_end_first-Agrees refl
            (λ r h. (below_pad r h).2) (linear_pass interval_step pairs) w2 (omega arith) k2' in
        (
          apply_intervals parent ends,
          w3,
          >>=-ok (reserve rt _) _ (reserve_ok _ w) (
              >>=-ok (defined (slot_reads join_col child)) _
                (defined-some w0 (slot_reads_lem join_col child inside))
                (>>=-ok (defined (slot_reads parent_join_col parent)) _
                  (defined-some w0 (slot_reads_lem parent_join_col parent inside'))
                  (>>=-ok (ej_osort_g rt 32 sk_cmp_join_attr sk_make_pad all) _ e1 (
                    >>=-ok (ej_osort_g rt 32 sk_cmp_pairwise sk_make_pad _) _ e2
                      (>>=-ok (ej_osort_g rt 32 sk_cmp_end_first sk_make_pad _) _ e3 refl))))),
          (by_key, pairs, ends, (p1, s1), (p2, s2), (p3, s3), refl),
        )

    -- With memory left, a working generator and a lawful qsort, let the combined array hold at most
    -- 2 ^ 57 records and the join columns be slots of the rows. Then compute_local_mult returns without an error or an access out of bounds: it
    -- gives the same rows in the same order, in which at most local_mult has changed.
    pub compute_local_mult-Returns :
        (w : rt.World)
        → Returns
            (compute_local_mult parent_join_col join_col dev1 eq1 dev2 eq2 rt parent child w)
            (λ out. map unmultiplied out ≡ map unmultiplied parent)
    unfolding compute_local_mult
    compute_local_mult-Returns w = elim (Bool-cases (length parent == 0)) [
      | inl empty ↦ (parent, w, rw empty refl, refl)
      | inr some_rows ↦
          let (out, w', e, (by_key, pairs, ends, _, _, _, same)) = multiply_returns w in
          (out, w', rw some_rows e, rw same (apply_intervals_kept parent ends))
    ]
