-- ===== src/Batching/Aks/Inner.antt =====
-- distribute_inner brings the rows at the front of a block to their destinations.
use native.Mathlib.Nat.{mod-lt, pow-suc, pow-le-pow_right}
use omwj.Prelude.{
  ℕ, zero, suc, ◌+◌, ◌-◌, ◌*◌, ◌%◌, ◌^◌, ◌≤◌, ◌<◌, ◌≡◌, refl, ◌∙◌, true, not, List, some, inl, inr,
  arith,
}
use omwj.Prelude.Tests.{ltb, leb, ◌==◌, Bool-cases}
use omwj.Prelude.Lists.{length}
use omwj.Prelude.Word.{add32, sub32, lt32, modulus}
use omwj.Entry.{Entry}
use omwj.Batching.Aks.{aks_pow2_lt, rotation, distribute_2power, distribute_inner}
use omwj.Batching.Aks.Swaps.{Rows, cross_swaps-Crossed}
use omwj.Batching.Aks.Sequence.{
  Source, Turned, InFront, threshold, left_fits, right_fits, left-Source, right-Source,
}
use omwj.Batching.Aks.Routed.{Routed, Placed-merge, Placed-same, Turned-same}
use omwj.Batching.Aks.Power.{power-Routed, small_sum}
use omwj.Batching.Aks.Doubling.{aks_pow2_lt_lem}
use omwj.Batching.Aks.Steps.{inner_step}
use omwj.Batching.Aks.Pair.{few-Placed, pair-Routed}
use omwj.Batching.Aks.Front.{front-counted, left-InFront, right-Turned}

small_log : (k j : ℕ) → 2 * 2 ^ k < 2 ^ suc j → (k < j) × (2 * 2 ^ k ≤ 2 ^ j)
small_log k j h =
    let twice = pow-suc 2 k in
    elim (Bool-cases (ltb k j)) [
      | inl below ↦
          let high =
            pow-le-pow_right {n = 2} (omega arith) {i = suc k} {j = j} (ground (arith, below)) in
          (ground (arith, below), omega (arith, high, twice))
      | inr above ↦
          let high =
            pow-le-pow_right {n = 2} (omega arith) {i = suc j} {j = suc k}
              (ground (arith, above)) in
          absurd (omega (arith, high, twice, h))
    ]

module _ (blank : Entry) (n : ℕ) (small : n < 1073741824) where
  rotation_lem :
      (n1 n2 t : ℕ) → n2 ≤ n1 → t ≤ n2 → n1 + n2 ≤ n → rotation n1 n2 t ≡ (n1 - n2 + t) % n1
  unfolding add32 sub32
  rotation_lem n1 n2 t ordered left_room fits =
      let sum : ((n1 + (modulus - n2 % modulus)) % modulus + t) % modulus ≡ n1 - n2 + t =
        omega (arith, ordered, left_room, fits, small) in
      rw sum refl

  part-Routed :
      (fuel start index n1 n2 c : ℕ) (e : ℕ → Entry) (buf : List Entry)
      → 3 ≤ n2 + n1
      → aks_pow2_lt (n2 + n1) ≡ n1
      → 0 < n2
      → n2 ≤ n1
      → index + (n2 + n1) ≤ n
      → Source e c index (n2 + n1)
      → InFront blank n e c start (n2 + n1) buf
      → start + (n2 + n1) ≤ length buf
      → Rows blank buf
      → ((start index c : ℕ) (e : ℕ → Entry) (buf : List Entry)
          → index + n2 ≤ n
          → Source e c index n2
          → InFront blank n e c start n2 buf
          → start + n2 ≤ length buf
          → Rows blank buf
          → Routed blank n e c index start n2 buf (distribute_inner fuel start index n2 buf))
      → ((start index offset c : ℕ) (e : ℕ → Entry) (buf : List Entry)
          → index + n1 ≤ n
          → offset < n1
          → Source e c index n1
          → Turned blank n e c start n1 offset buf
          → start + n1 ≤ length buf
          → Rows blank buf
          → Routed blank n e c index start n1 buf
              (distribute_2power fuel start index offset n1 buf))
      → Routed blank n e c index start
          (n2 + n1)
          buf
          (distribute_inner (suc fuel) start index (n2 + n1) buf)
  part-Routed fuel start index n1 n2 c e buf large power some_left ordered in_range s front fits
        rows inner two_power =
      let (t, inside, below, above) = threshold e c index (n2 + n1) (index + n2) s in
      let left_room = left_fits e c index n2 n1 s t inside below above in
      let right_room = right_fits e c index n2 n1 s t inside below above in
      let count =
        front-counted blank n small e c start index n1 n2 buf in_range s ordered some_left front t
          inside below above left_room right_room fits in
      let run =
        cross_swaps-Crossed blank (λ i. not (lt32 i t)) n2 0 start n1 buf (omega (arith, ordered))
          (omega (arith, fits)) rows in
      let first =
        inner start index t e run.out (omega (arith, in_range))
          (left-Source e c index n2 n1 s t inside below above)
          (left-InFront blank n small e c start index n1 n2 buf in_range s ordered some_left front t
            inside below above left_room right_room run)
          (omega (arith, fits, run.size)) run.rows in
      let at_right =
        right-Turned blank n small e c start index n1 n2 buf in_range s ordered some_left front t
          inside below above left_room right_room run in
      let offset = (n1 - n2 + t) % n1 in
      let second =
        two_power (start + n2) (index + n2) offset (c - t) (λ j. e (t + j)) first.out
          (omega (arith, in_range)) (mod-lt (n1 - n2 + t) (omega (arith, ordered, some_left)))
          (right-Source e c index n2 n1 s t inside below above)
          (Turned-same blank n _ (c - t) (start + n2) n1 offset run.out first.out
            (omega (arith, ordered, some_left))
            (λ p h. first.others (start + n2 + p) (inr (omega arith))) at_right)
          (omega (arith, fits, run.size, first.same_size)) first.rows in
      record {
        out = second.out;
        returns =
            inner_step fuel start index (n2 + n1) n1 n2 t offset buf run.out first.out second.out
              large power (omega arith)
              (small_sum blank n small index n2 (omega (arith, in_range, small))) count run.returns
              first.returns (rotation_lem n1 n2 t ordered left_room (omega (arith, in_range)))
              second.returns;
        same_size = second.same_size ∙ first.same_size ∙ run.size;
        rows = second.rows;
        placed =
            Placed-merge blank n e c index start n2 n1 t second.out inside below above
              (Placed-same blank n e t index start n2 first.out second.out
                (λ p h. second.others (start + p) (inl (omega (arith, h)))) first.placed)
              second.placed;
        others = λ p h.
            second.others p (elim h [
              | inl before ↦ inl (omega (arith, before))
              | inr behind ↦ inr (omega (arith, behind))
            ])
            ∙ first.others p
                (elim h [ inl before ↦ inl before | inr behind ↦ inr (omega (arith, behind)) ])
            ∙ run.others p (elim h [
              | inl before ↦ inl (omega (arith, before))
              | inr behind ↦ inr (inr (omega (arith, behind)))
            ]);
      }

  few_step :
      (fuel start index size : ℕ) (buf : List Entry)
      → size ≤ 1
      → distribute_inner (suc fuel) start index size buf ≡ some buf
  unfolding distribute_inner
  few_step fuel start index size buf few =
      let stop : leb size 1 ≡ true = ground (arith, few) in rw (stop, distribute_inner) refl

  -- On a block of at most 2 ^ k slots, with fuel beyond k.
  pub inner-Routed :
      (k fuel start index size c : ℕ) (e : ℕ → Entry) (buf : List Entry)
      → size ≤ 2 ^ k
      → k < fuel
      → index + size ≤ n
      → Source e c index size
      → InFront blank n e c start size buf
      → start + size ≤ length buf
      → Rows blank buf
      → Routed blank n e c index start size buf (distribute_inner fuel start index size buf)
  inner-Routed k zero start index size c e buf bound enough in_range s front fits rows =
      absurd (omega arith)
  inner-Routed zero (suc fuel) start index size c e buf bound enough in_range s front fits rows =
      record {
        out = buf;
        returns = few_step fuel start index size buf bound;
        same_size = refl;
        rows = rows;
        placed = few-Placed blank n small start index size c e buf bound s front;
        others = λ p h. refl;
      }
  inner-Routed (suc k) (suc fuel) start index size c e buf bound enough in_range s front fits rows =
      elim (Bool-cases (leb size 1)) [
        | inl few ↦
            let bound' : size ≤ 1 = ground (arith, few) in
            record {
              out = buf;
              returns = few_step fuel start index size buf bound';
              same_size = refl;
              rows = rows;
              placed = few-Placed blank n small start index size c e buf bound' s front;
              others = λ p h. refl;
            }
        | inr many ↦ elim (Bool-cases (size == 2)) [
          | inl pair ↦
              let two : size ≡ 2 = ground (arith, pair) in
              rw two (
                pair-Routed blank n small e c index (omega (arith, in_range, two)) (rw two at s)
                  fuel start buf (rw two at front) (omega (arith, fits, two)) rows)
          | inr more ↦
              let large : 3 ≤ size = ground (arith, many, more) in
              let (m, power, low, high) =
                aks_pow2_lt_lem size large (omega (arith, in_range, small)) in
              let n1 = 2 * 2 ^ m in
              let n2 = size - n1 in
              let whole : n2 + n1 ≡ size = omega (arith, low) in
              let (fewer, half_fits) = small_log m k (omega (arith, low, bound)) in
              let smaller : n2 ≤ 2 ^ k = omega (arith, high, half_fits) in
              rw whole at (
                part-Routed fuel start index n1 n2 c e buf (omega (arith, large)) (rw whole power)
                  (omega (arith, low)) (omega (arith, high)) (omega (arith, in_range, whole))
                  (rw whole s) (rw whole front) (omega (arith, fits, whole)) rows
                  (λ start index c e buf.
                    inner-Routed k fuel start index n2 c e buf smaller (omega (arith, enough)))
                  (λ start index offset c e buf.
                    power-Routed blank n small m fuel start index offset c e buf
                      (omega (arith, fewer, enough))))
        ]
      ]
