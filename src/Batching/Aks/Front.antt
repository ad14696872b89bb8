-- ===== src/Batching/Aks/Front.antt =====
-- One level of distribute_inner: the rows at the front of a block are split over its two parts.
use omwj.Prelude.{
  ℕ, ◌+◌, ◌-◌, ◌%◌, ◌≤◌, ◌<◌, ◌≡◌, refl, ◌∙◌, true, false, not, List, Option, some, inl, inr, arith,
}
use omwj.Prelude.Tests.{ltb, Bool-cases}
use omwj.Prelude.Lists.{length}
use omwj.Prelude.Word.{lt32}
use omwj.Entry.{Entry}
use omwj.Batching.Aks.{count_below}
use omwj.Batching.Aks.Swaps.{slot, Crossed, count_below-tally}
use omwj.Batching.Aks.Sequence.{Source, Turned, InFront, lt32-small}
use omwj.Batching.Aks.Turn.{wrap, mod-wrap, among, tally-among}
use omwj.Batching.Aks.Level.{Held-below}

module _ (blank : Entry) (n : ℕ) (small : n < 1073741824) where
  module _ (e : ℕ → Entry) (c start index n1 n2 : ℕ) (buf : List Entry)
      (in_range : index + (n2 + n1) ≤ n) (s : Source e c index (n2 + n1)) (ordered : n2 ≤ n1)
      (some_left : 0 < n2) (front : InFront blank n e c start (n2 + n1) buf) (t : ℕ)
      (inside : t ≤ c) (below : (j : ℕ) → j < t → (e j).dst_idx < index + n2)
      (above : (j : ℕ) → t ≤ j → j < c → index + n2 ≤ (e j).dst_idx) (left_room : t ≤ n2)
      (right_room : c ≤ t + n1) where
    -- The loop over the left block counts the rows that stay in it.
    pub front-counted :
        start + (n2 + n1) ≤ length buf → count_below n2 start (index + n2) 0 buf ≡ some t
    front-counted fits =
        let told : (p : ℕ)
            → 0 ≤ p
            → p < 0 + n2
            → lt32 (slot blank buf (start + p)).dst_idx (index + n2) ≡ among n2 0 t p =
          λ p from to.
            Held-below blank n e c index (index + n2) t p (slot blank buf (start + p))
              (omega (arith, in_range)) small inside below above
              (λ i h. let top = s.high i h in omega (arith, top, in_range))
              (front p (omega (arith, to)))
            ∙ ground arith in
        let run =
          count_below-tally blank (among n2 0 t) n2 start 0 (index + n2) 0 buf (omega (arith, fits))
            (omega (arith, in_range, small)) told in
        let total = tally-among n2 0 t some_left left_room in
        let at_start : start + 0 ≡ start = omega arith in
        let sum : 0 + t ≡ t = omega arith in rw (at_start, total, sum) at run

    module _ {r : Option (List Entry)}
        (run : Crossed blank (λ i. not (lt32 i t)) n2 0 start n1 buf r) where
      stays : (q : ℕ) → q < t → not (lt32 q t) ≡ false
      stays q h =
          let test =
            lt32-small q t (omega (arith, h, left_room, in_range, small))
              (omega (arith, left_room, in_range, small)) in
          rw test (ground (arith, h))

      leaves : (q : ℕ) → t ≤ q → q < n2 → not (lt32 q t) ≡ true
      leaves q h k =
          let test =
            lt32-small q t (omega (arith, k, in_range, small))
              (omega (arith, left_room, in_range, small)) in
          rw test (ground (arith, h))

      pub left-InFront : InFront blank n e t start n2 run.out
      left-InFront j h =
          let moved = run.near j (omega arith) (omega (arith, h)) in
          elim (Bool-cases (ltb j t)) [
            | inl first ↦
                let here : j < t = ground (arith, first) in
                let (row, pad) = front j (omega (arith, h)) in
                rw moved (
                  rw (stays j here) (
                    (λ k. row (omega (arith, here, inside))),
                    λ k. absurd (omega (arith, k, here)),
                  ))
            | inr behind ↦
                let far : t ≤ j = ground (arith, behind) in
                let regroup : start + n1 + j ≡ start + (n1 + j) = omega arith in
                let (row, pad) = front (n1 + j) (omega (arith, h)) in
                rw moved (
                  rw (leaves j far h, regroup)
                    (
                      (λ k. absurd (omega (arith, k, far))),
                      λ k. pad (omega (arith, far, right_room)),
                    ))
          ]

      -- Where the row t + j stands, by the three parts of the array.
      right_slot :
          (j : ℕ)
          → j < n1
          → slot blank run.out (start + n2 + wrap (n1 - n2 + t + j) n1)
            ≡ slot blank buf (start + (t + j))
      right_slot j h = elim (Bool-cases (ltb (t + j) n2)) [
        | inl early ↦
            let low : t + j < n2 = ground (arith, early) in
            let place : start + n2 + wrap (n1 - n2 + t + j) n1 ≡ start + n1 + (t + j) =
              ground (arith, low, ordered) in
            let moved = run.far (t + j) (omega arith) (omega (arith, low)) in
            rw place (moved ∙ rw (leaves (t + j) (omega arith) low) refl)
        | inr late ↦
            let high : n2 ≤ t + j = ground (arith, late) in
            let place : start + n2 + wrap (n1 - n2 + t + j) n1 ≡ start + (t + j) =
              ground (arith, high, ordered) in
            elim (Bool-cases (ltb (t + j) n1)) [
              | inl middle ↦
                  let mid : t + j < n1 = ground (arith, middle) in
                  rw place (
                    run.others (start + (t + j))
                      (inr (inl (omega (arith, high), omega (arith, mid)))))
              | inr end ↦
                  let past : n1 ≤ t + j = ground (arith, end) in
                  let q = t + j - n1 in
                  let split : start + n1 + q ≡ start + (t + j) = omega (arith, past) in
                  let moved = run.far q (omega arith) (omega (arith, h, left_room, past)) in
                  let kept : slot blank run.out (start + n1 + q) ≡ slot blank buf (start + n1 + q) =
                    moved ∙ rw (stays q (omega (arith, h, past))) refl in
                  rw place (rw split at kept)
            ]
      ]

      pub right-Turned :
          Turned blank n (λ j. e (t + j)) (c - t) (start + n2) n1 ((n1 - n2 + t) % n1) run.out
      right-Turned j h =
          let o = mod-wrap (n1 - n2 + t) n1 (omega (arith, ordered, left_room, some_left)) in
          let low : wrap (n1 - n2 + t) n1 < n1 = ground (arith, ordered, left_room, some_left) in
          let at = mod-wrap (wrap (n1 - n2 + t) n1 + j) n1 (omega (arith, low, h)) in
          let twice : wrap (wrap (n1 - n2 + t) n1 + j) n1 ≡ wrap (n1 - n2 + t + j) n1 =
            ground (arith, ordered, left_room, h) in
          let (row, pad) = front (t + j) (omega (arith, h, left_room)) in
          rw (o, at, twice)
            (rw (right_slot j h)
              ((λ k. row (omega (arith, k, inside))), λ k. pad (omega (arith, k, inside))))
