-- ===== src/Batching/Aks/Routed.antt =====
-- Blocks whose rows have arrived at their destinations.
use native.Mathlib.Nat.{mod-lt}
use omwj.Prelude.{ℕ, ◌+◌, ◌-◌, ◌%◌, ◌≤◌, ◌<◌, ◌≡◌, List, Option, some, inl, inr, ◌⊎◌, arith}
use omwj.Prelude.Tests.{ltb, leb, ◌==◌, Bool-cases}
use omwj.Prelude.Lists.{length}
use omwj.Entry.{Entry}
use omwj.Batching.Aks.Swaps.{slot, Rows}
use omwj.Batching.Aks.Sequence.{Source, Turned, Arrived, Placed}

module _ (blank : Entry) (n : ℕ) where
  -- A run that brings the rows of a block to their destinations and touches nothing else.
  pub record Routed (e : ℕ → Entry) (c index start size : ℕ) (buf : List Entry)
      (r : Option (List Entry)) : Type 0 where
    pub out : List Entry
    pub returns : r ≡ some out
    pub same_size : length out ≡ length buf
    pub rows : Rows blank out
    pub placed : Placed blank n e c index start size out
    pub others : (p : ℕ) → (p < start) ⊎ (start + size ≤ p) → slot blank out p ≡ slot blank buf p

  -- Two neighbouring blocks whose rows have arrived are one such block.
  pub Placed-merge :
      (e : ℕ → Entry) (c index start left right t : ℕ) (out : List Entry)
      → t ≤ c
      → ((j : ℕ) → j < t → (e j).dst_idx < index + left)
      → ((j : ℕ) → t ≤ j → j < c → index + left ≤ (e j).dst_idx)
      → Placed blank n e t index start left out
      → Placed blank n (λ j. e (t + j)) (c - t) (index + left) (start + left) right out
      → Placed blank n e c index start (left + right) out
  Placed-merge e c index start left right t out inside below above first second p h =
      elim (Bool-cases (ltb p left)) [
        | inl near ↦
            let here = first p (ground (arith, near)) in
            record {
              row = λ j k at. elim (Bool-cases (ltb j t)) [
                | inl low ↦ here.row j (ground (arith, low)) at
                | inr high ↦
                    let past = above j (ground (arith, high)) k in
                    absurd (ground (arith, past, at, near))
              ];
              pad = λ nobody. here.pad (λ j k. nobody j (omega (arith, k, inside)));
            }
        | inr far ↦
            let split : left + (p - left) ≡ p = ground (arith, far) in
            let here = second (p - left) (ground (arith, far, h)) in
            let slots : start + left + (p - left) ≡ start + p = omega (arith, split) in
            let there : Arrived blank n e c index p (slot blank out (start + left + (p - left))) =
              record {
                row = λ j k at. elim (Bool-cases (ltb j t)) [
                  | inl low ↦
                      let before = below j (ground (arith, low)) in
                      absurd (ground (arith, before, at, far))
                  | inr high ↦
                      let back : t + (j - t) ≡ j = ground (arith, high) in
                      rw back at (
                        here.row (j - t) (omega (arith, back, k))
                          (rw back (omega (arith, at, split))))
                ];
                pad = λ nobody. here.pad (λ j k at.
                    nobody (t + j) (omega (arith, k, inside)) (omega (arith, at, split)));
              } in
            rw slots at there
      ]

  -- A block of one slot.
  pub one-Placed :
      (e : ℕ → Entry) (c index start o : ℕ) (buf : List Entry)
      → Source e c index 1
      → Turned blank n e c start 1 o buf
      → Placed blank n e c index start 1 buf
  one-Placed e c index start o buf s turned p h =
      let first : p ≡ 0 = omega (arith, h) in
      let at : (o + 0) % 1 ≡ 0 = omega arith in
      let (row, pad) = rw at at (turned 0 (omega arith)) in
      let few : c ≤ 1 = elim (Bool-cases (leb c 1)) [
        | inl small ↦ ground (arith, small)
        | inr more ↦
            let two : 1 < c = ground (arith, more) in
            let low = s.low 0 (omega (arith, two)) in
            let next = s.ordered 0 two in
            let high = s.high 1 two in absurd (omega (arith, low, next, high))
      ] in
      rw first (record {
        row = λ j k at_j.
            let same : j ≡ 0 = omega (arith, k, few) in rw same (row (omega (arith, k)));
        pad = λ nobody. elim (Bool-cases (c == 0)) [
          | inl empty ↦ pad (ground (arith, empty))
          | inr some_row ↦
              let k : 0 < c = ground (arith, some_row) in
              let low = s.low 0 k in
              let high = s.high 0 k in absurd (nobody 0 k (omega (arith, low, high)))
        ];
      })

  pub Turned-same :
      (e : ℕ → Entry) (c start size offset : ℕ) (buf out : List Entry)
      → 0 < size
      → ((p : ℕ) → p < size → slot blank out (start + p) ≡ slot blank buf (start + p))
      → Turned blank n e c start size offset buf
      → Turned blank n e c start size offset out
  Turned-same e c start size offset buf out pos same turned j h =
      rw (same ((offset + j) % size) (mod-lt (offset + j) pos)) (turned j h)

  pub Placed-same :
      (e : ℕ → Entry) (c index start size : ℕ) (buf out : List Entry)
      → ((p : ℕ) → p < size → slot blank out (start + p) ≡ slot blank buf (start + p))
      → Placed blank n e c index start size buf
      → Placed blank n e c index start size out
  Placed-same e c index start size buf out same placed p h = rw (same p h) (placed p h)
