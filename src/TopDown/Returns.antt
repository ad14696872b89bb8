-- ===== src/TopDown/Returns.antt =====
-- compute_final_mult returns, and changes nothing of a child row but final_mult and foreign_sum.
use omwj.Prelude.{
  ◌^◌, true, false, ◌⊎◌, ℕ, ◌+◌, ◌*◌, ◌≤◌, ◌≡◌, refl, ap, List, [], ◌∷◌, ◌++◌, map, inl, inr, Perm,
  arith,
}
use omwj.Prelude.Tests.{◌==◌, Bool-cases}
use omwj.Prelude.Lists.{length, All, linear_pass, length-append, length-map}
use omwj.Prelude.Word.{eq32}
use omwj.Entry.{Entry, slot_reads}
use omwj.Entry.Slots.{HasSlot, slot_reads_lem}
use omwj.Order.Sorted.{IsSorted, All-append}
use omwj.Skinny.{sk_cmp_join_attr, sk_cmp_pairwise, sk_cmp_end_first, SkRec, sk_make_pad}
use omwj.Skinny.Ranks.{
  join_rank, pairwise_rank, end_first_rank, sk_cmp_join_attr-Agrees, sk_cmp_pairwise-Agrees,
  sk_cmp_end_first-Agrees,
}
use omwj.Runtime.{
  Runtime, Lawful, Healthy, Returns, ok, trap, defined, defined-some, reserve, >>=-ok,
}
use omwj.Sort.{ej_osort_g}
use omwj.BottomUp.Returns.{NotPad, below_pad, Kept, All-map, pass-Kept, sort-Kept, reserve_ok}
use omwj.TopDown.{
  share_step, any_traps, range_step, apply_shares, share_source, share_start, share_end, shared,
  share_out, compute_final_mult,
}

share-Kept : (xs : List SkRec) → All NotPad xs → Kept xs (linear_pass share_step xs)
unfolding share_step
share-Kept = pass-Kept share_step λ prev r h. h

range-Kept : (xs : List SkRec) → All NotPad xs → Kept xs (linear_pass range_step xs)
unfolding range_step
range-Kept = pass-Kept range_step λ prev r h. h

-- A row without its final multiplicity and its sum.
abbrev pub unshared : Entry → Entry
unshared e = record e { final_mult = 0; foreign_sum = 0 }

apply_shares_kept :
    (child : List Entry) (comb : List SkRec)
    → map unshared (apply_shares child comb) ≡ map unshared child
unfolding apply_shares
apply_shares_kept [] comb = refl
apply_shares_kept (e ∷ child) [] = refl
apply_shares_kept (e ∷ child) (r ∷ comb) = ap (◌∷◌ (unshared e)) (apply_shares_kept child comb)

-- A value that can be divided by -1.
abbrev pub IsDividend : Entry → Type 0
IsDividend e = eq32 e.final_mult 2147483648 ≡ false

abbrev Calm : SkRec → Type 0
Calm r = eq32 r.fmult 2147483648 ≡ false

module _ (col1 col2 dev1 eq1 dev2 eq2 : ℕ) (parent child : List Entry) where
  pub shared_kept :
      All NotPad (shared col1 col2 dev1 eq1 dev2 eq2 parent child)
      × (length (shared col1 col2 dev1 eq1 dev2 eq2 parent child)
          ≡ length parent + 2 * length child)
  unfolding eq32
  shared_kept =
      let sources = map (share_source col1) parent in
      let starts = map (share_start col2 dev2 eq2) child in
      let ends = map (share_end col2 dev1 eq1) child in
      (
        All-append NotPad sources (starts ++ ends) (All-map (share_source col1) (λ e. refl) parent)
            (All-append NotPad starts ends (All-map (share_start col2 dev2 eq2) (λ e. refl) child)
              (All-map (share_end col2 dev1 eq1) (λ e. refl) child)),
        omega (
          arith,
          length-append sources (starts ++ ends),
          length-append starts ends,
          length-map (share_source col1) parent,
          length-map (share_start col2 dev2 eq2) child,
          length-map (share_end col2 dev1 eq1) child,
        ),
      )

  -- `out` comes from arrays that the three sorts may return.
  abbrev pub Shares : List Entry → Type 0
  Shares out =
      (by_key : List SkRec) × (pairs : List SkRec) × (ends : List SkRec) × (Perm by_key
          (shared col1 col2 dev1 eq1 dev2 eq2 parent child)
        × IsSorted join_rank by_key)
      × (Perm pairs (linear_pass share_step by_key) × IsSorted pairwise_rank pairs)
      × (Perm ends (linear_pass range_step pairs) × IsSorted end_first_rank ends)
      × (out ≡ apply_shares child ends)

  -- Some order that the first sort may return has a division that traps.
  abbrev pub Traps : Type 0
  Traps =
      (by_key : List SkRec) × Perm by_key (shared col1 col2 dev1 eq1 dev2 eq2 parent child)
      × (any_traps by_key ≡ true)

  module _ (rt : Runtime) (healthy : Healthy rt) (lawful : Lawful rt)
      (small : length parent + 2 * length child ≤ 2 ^ 57) (inside : All (HasSlot col1) parent)
      (inside' : All (HasSlot col2) child) where
    share_sorts :
        (by_key : List SkRec) (w : rt.World)
        → Kept (shared col1 col2 dev1 eq1 dev2 eq2 parent child) by_key
        → (pairs : List SkRec) × (ends : List SkRec) × (w1 : rt.World) × (w2 : rt.World)
          × (ej_osort_g rt 32 sk_cmp_pairwise sk_make_pad (linear_pass share_step by_key) w
              ≡ ok pairs w1)
          × (ej_osort_g rt 32 sk_cmp_end_first sk_make_pad (linear_pass range_step pairs) w1
              ≡ ok ends w2)
          × (Perm pairs (linear_pass share_step by_key) × IsSorted pairwise_rank pairs)
          × (Perm ends (linear_pass range_step pairs) × IsSorted end_first_rank ends)
    unfolding pairwise_rank end_first_rank eq32
    share_sorts by_key w (k1, n1) =
        let size = shared_kept.1 in
        let (k1', n1') = share-Kept by_key k1 in
        let (pairs, w1, e2, (p2, s2, (k2, n2))) =
          sort-Kept rt healthy lawful sk_cmp_pairwise pairwise_rank sk_cmp_pairwise-Agrees refl
            (λ r h. (below_pad r h).1) (linear_pass share_step by_key) w (omega arith) k1' in
        let (k2', n2') = range-Kept pairs k2 in
        let (ends, w2, e3, (p3, s3, k3)) =
          sort-Kept rt healthy lawful sk_cmp_end_first end_first_rank sk_cmp_end_first-Agrees refl
            (λ r h. (below_pad r h).2) (linear_pass range_step pairs) w1 (omega arith) k2' in
        (pairs, ends, w1, w2, e2, e3, (p2, s2), (p3, s3))

    share_returns :
        (w : rt.World)
        → ((share_out col1 col2 dev1 eq1 dev2 eq2 rt parent child w ≡ trap) × Traps)
          ⊎ Returns (share_out col1 col2 dev1 eq1 dev2 eq2 rt parent child w) Shares
    unfolding share_out join_rank eq32
    share_returns w =
        let all = shared col1 col2 dev1 eq1 dev2 eq2 parent child in
        let w0 = (rt.alloc ((length parent + 2 * length child) * 32) w).1 in
        let (real, size) = shared_kept in
        let (by_key, w1, e1, (p1, s1, kept)) =
          sort-Kept rt healthy lawful sk_cmp_join_attr join_rank sk_cmp_join_attr-Agrees refl
            (λ r h. (below_pad r h).0) all w0 (omega arith) real in
        elim (Bool-cases (any_traps by_key)) [
          | inl stop ↦ inl (
            >>=-ok (reserve rt _) _ (reserve_ok rt healthy lawful _ w) (
                >>=-ok (defined (slot_reads col1 parent)) _
                  (defined-some w0 (slot_reads_lem col1 parent inside))
                  (>>=-ok (defined (slot_reads col2 child)) _
                    (defined-some w0 (slot_reads_lem col2 child inside'))
                    (>>=-ok (ej_osort_g rt 32 sk_cmp_join_attr sk_make_pad all) _ e1
                      (rw stop refl)))),
            (by_key, p1, stop),
          )
          | inr fine ↦
              let (pairs, ends, w2, w3, e2, e3, good2, good3) = share_sorts by_key w1 kept in
              inr (
                apply_shares child ends,
                w3,
                >>=-ok (reserve rt _) _ (reserve_ok rt healthy lawful _ w) (
                    >>=-ok (defined (slot_reads col1 parent)) _
                      (defined-some w0 (slot_reads_lem col1 parent inside))
                      (>>=-ok (defined (slot_reads col2 child)) _
                        (defined-some w0 (slot_reads_lem col2 child inside'))
                        (>>=-ok (ej_osort_g rt 32 sk_cmp_join_attr sk_make_pad all) _ e1 (
                          rw fine (
                            >>=-ok (ej_osort_g rt 32 sk_cmp_pairwise sk_make_pad _) _ e2 (
                              >>=-ok (ej_osort_g rt 32 sk_cmp_end_first sk_make_pad _) _ e3
                                refl)))))),
                (by_key, pairs, ends, (p1, s1), good2, good3, refl),
              )
        ]

    pub compute_final_mult-ReturnsOrTraps :
        (w : rt.World)
        → ((compute_final_mult col1 col2 dev1 eq1 dev2 eq2 rt parent child w ≡ trap) × Traps)
          ⊎ Returns
              (compute_final_mult col1 col2 dev1 eq1 dev2 eq2 rt parent child w)
              (λ out. map unshared out ≡ map unshared child)
    unfolding compute_final_mult
    compute_final_mult-ReturnsOrTraps w = elim (Bool-cases (length child == 0)) [
      | inl empty ↦ inr (child, w, rw empty refl, refl)
      | inr some_rows ↦ elim (share_returns w) [
        | inl (stop, why) ↦ inl (rw some_rows stop, why)
        | inr (out, w', e, (by_key, pairs, ends, _, _, _, same)) ↦
            inr (out, w', rw some_rows e, rw same (apply_shares_kept child ends))
      ]
    ]
