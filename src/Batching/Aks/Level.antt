-- ===== src/Batching/Aks/Level.antt =====
-- One level of distribute_2power: from a turned block the count finds how many rows go left, and the
-- swaps leave two turned halves.
use omwj.Prelude.{
  ℕ, ◌+◌, ◌-◌, ◌*◌, ◌%◌, ◌≤◌, ◌<◌, ◌≡◌, refl, ap, ◌∙◌, Bool, List, Option, some, inl, inr, arith,
}
use omwj.Prelude.Tests.{ltb, if◌then◌else◌, Bool-cases}
use omwj.Prelude.Lists.{length}
use omwj.Prelude.Word.{lt32}
use omwj.Entry.{Entry}
use omwj.Batching.Aks.{count_below}
use omwj.Batching.Aks.Swaps.{slot, count_below-tally, Crossed}
use omwj.Batching.Aks.Sequence.{Source, Held, Turned, lt32-small}
use omwj.Batching.Aks.Turn.{
  wrap, crosses, left_slot, right_slot, mod-wrap, turned_on, among, tally-among,
}

-- Which of the turned positions stands at slot p.
abbrev turned_at : ℕ → ℕ → ℕ → ℕ
turned_at size offset p = if ltb p offset then p + size - offset else p - offset

turned_at_lem :
    (size offset p : ℕ)
    → offset < size
    → p < size
    → (turned_at size offset p < size) × ((offset + turned_at size offset p) % size ≡ p)
turned_at_lem size offset p turned h =
    let bound : turned_at size offset p < size = ground (arith, turned, h) in
    let back : wrap (offset + turned_at size offset p) size ≡ p = ground (arith, turned, h) in
    (bound, mod-wrap (offset + turned_at size offset p) size (omega (arith, bound, turned)) ∙ back)

module _ (blank : Entry) (n : ℕ) (e : ℕ → Entry) (c index : ℕ) where
  -- A destination is below a bound exactly for the first t rows of the sequence.
  pub Held-below :
      (mid t j : ℕ) (x : Entry)
      → mid ≤ n
      → n < 1073741824
      → t ≤ c
      → ((i : ℕ) → i < t → (e i).dst_idx < mid)
      → ((i : ℕ) → t ≤ i → i < c → mid ≤ (e i).dst_idx)
      → ((i : ℕ) → i < c → (e i).dst_idx < n)
      → Held n e c j x
      → lt32 x.dst_idx mid ≡ ltb j t
  Held-below mid t j x le small inside below above high (row, pad) = elim (Bool-cases (ltb j c)) [
    | inl first ↦
        let here : j < c = ground (arith, first) in
        let same = row here in
        let top = high j here in
        rw same (
          lt32-small (e j).dst_idx mid (omega (arith, top, small)) (omega (arith, le, small))
          ∙ elim (Bool-cases (ltb j t)) [
            | inl left ↦ let low = below j (ground (arith, left)) in rw left (ground (arith, low))
            | inr right ↦
                let high' = above j (ground (arith, right)) here in rw right (ground (arith, high'))
          ])
    | inr behind ↦
        let far : c ≤ j = ground (arith, behind) in
        let (mark, same) = pad far in
        rw same (
          lt32-small n mid (omega (arith, small)) (omega (arith, le, small))
          ∙ ground (arith, far, le, inside))
  ]

  module _ (start half offset : ℕ) (buf : List Entry) (small : n < 1073741824)
      (in_range : index + 2 * half ≤ n) (turned : offset < 2 * half)
      (s : Source e c index (2 * half)) (t : ℕ) (inside : t ≤ c)
      (below : (j : ℕ) → j < t → (e j).dst_idx < index + half)
      (above : (j : ℕ) → t ≤ j → j < c → index + half ≤ (e j).dst_idx) (left_room : t ≤ half)
      (right_room : c ≤ t + half) (whole : Turned blank n e c start (2 * half) offset buf) where
    -- The loop counts the rows that go left.
    pub counted :
        start + 2 * half ≤ length buf → count_below (2 * half) start (index + half) 0 buf ≡ some t
    counted fits =
        let told : (p : ℕ)
            → 0 ≤ p
            → p < 0 + 2 * half
            → lt32 (slot blank buf (start + p)).dst_idx (index + half)
              ≡ among (2 * half) offset t p =
          λ p from to.
            let (bound, back) = turned_at_lem (2 * half) offset p turned (omega (arith, to)) in
            let j = turned_at (2 * half) offset p in
            Held-below (index + half) t j (slot blank buf (start + p)) (omega (arith, in_range))
              small inside below above (λ i h. let top = s.high i h in omega (arith, top, in_range))
              (rw back at (whole j bound))
            ∙ elim (Bool-cases (ltb p offset)) [
              | inl front ↦ rw front refl
              | inr back_part ↦ rw back_part refl
            ] in
        let run =
          count_below-tally blank (among (2 * half) offset t) (2 * half) start 0 (index + half) 0
            buf (omega (arith, fits)) (omega (arith, in_range, small)) told in
        let total = tally-among (2 * half) offset t turned (omega (arith, left_room)) in
        let at_start : start + 0 ≡ start = omega arith in
        let sum : 0 + t ≡ t = omega arith in rw (at_start, total, sum) at run

    module _ {cond : ℕ → Bool} {r : Option (List Entry)}
        (crossing : (i : ℕ) → i < half → cond i ≡ crosses half offset t i)
        (run : Crossed blank cond half 0 start half buf r) where
      -- A slot of the left half holds what the slot named by the condition held.
      left_from :
          (i : ℕ)
          → i < half
          → slot blank run.out (start + i)
            ≡ slot blank buf (start + (if crosses half offset t i then half + i else i))
      left_from i h =
          let moved = run.near i (omega arith) (omega (arith, h)) in
          let regroup : start + half + i ≡ start + (half + i) = omega arith in
          elim (Bool-cases (crosses half offset t i)) [
            | inl over ↦ rw over (moved ∙ rw (crossing i h ∙ over) (ap (slot blank buf) regroup))
            | inr stays ↦ rw stays (moved ∙ rw (crossing i h ∙ stays) refl)
          ]

      right_from :
          (i : ℕ)
          → i < half
          → slot blank run.out (start + half + i)
            ≡ slot blank buf (start + (if crosses half offset t i then i else half + i))
      right_from i h =
          let moved = run.far i (omega arith) (omega (arith, h)) in
          let regroup : start + half + i ≡ start + (half + i) = omega arith in
          elim (Bool-cases (crosses half offset t i)) [
            | inl over ↦ rw over (moved ∙ rw (crossing i h ∙ over) refl)
            | inr stays ↦ rw stays (moved ∙ rw (crossing i h ∙ stays) (ap (slot blank buf) regroup))
          ]

      pub left-Turned : Turned blank n e t start half (offset % half) run.out
      left-Turned j h =
          let o = mod-wrap offset half turned in
          let low : wrap offset half < half = ground (arith, turned) in
          let at = mod-wrap (wrap offset half + j) half (omega (arith, low, h)) in
          let bound : wrap (wrap offset half + j) half < half = ground (arith, low, h) in
          let from = left_from (wrap (wrap offset half + j) half) bound in
          let source = left_slot half offset t j turned left_room h in
          let moved = from ∙ ap (λ (p : ℕ). slot blank buf (start + p)) source in
          elim (Bool-cases (ltb j t)) [
            | inl first ↦
                let here : j < t = ground (arith, first) in
                let place = mod-wrap (offset + j) (2 * half) (omega (arith, turned, h)) in
                let (row, pad) = rw place at (whole j (omega (arith, h))) in
                rw (o, at)
                  (rw (moved, first)
                    (
                      (λ k. row (omega (arith, here, inside))),
                      λ k. absurd (omega (arith, k, here)),
                    ))
            | inr behind ↦
                let far : t ≤ j = ground (arith, behind) in
                let place = mod-wrap (offset + (j + half)) (2 * half) (omega (arith, turned, h)) in
                let (row, pad) = rw place at (whole (j + half) (omega (arith, h))) in
                rw (o, at)
                  (rw (moved, behind)
                    (
                      (λ k. absurd (omega (arith, k, far))),
                      λ k. pad (omega (arith, far, right_room)),
                    ))
          ]

      pub right-Turned :
          Turned blank n (λ j. e (t + j)) (c - t) (start + half) half ((offset + t) % half) run.out
      right-Turned j h =
          let o = turned_on half offset t turned left_room (omega (arith, h)) in
          let low : wrap offset half < half = ground (arith, turned) in
          let low' : wrap (wrap offset half + t) half < half = ground (arith, low, left_room) in
          let at = mod-wrap (wrap (wrap offset half + t) half + j) half (omega (arith, low', h)) in
          let bound : wrap (wrap (wrap offset half + t) half + j) half < half =
            ground (arith, low', h) in
          let from = right_from (wrap (wrap (wrap offset half + t) half + j) half) bound in
          let source = right_slot half offset t j turned left_room h in
          let moved = from ∙ ap (λ (p : ℕ). slot blank buf (start + p)) source in
          let place =
            mod-wrap (offset + (t + j)) (2 * half) (omega (arith, turned, h, left_room)) in
          let (row, pad) = rw place at (whole (t + j) (omega (arith, h, left_room))) in
          rw (o, at)
            (rw moved ((λ k. row (omega (arith, k, inside))), λ k. pad (omega (arith, k, inside))))
