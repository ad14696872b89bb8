-- ===== src/Batching/Aks/Pair.antt =====
-- The two-slot case of distribute_inner.
use native.Mathlib.Nat.{mod-eq_of_lt}
use omwj.Prelude.{
  ℕ, zero, suc, ◌+◌, ◌-◌, ◌%◌, ◌≤◌, ◌<◌, ◌≡◌, refl, Bool, true, false, ◌&&◌, not, List, inl, inr,
  ◌⊎◌, arith,
}
use omwj.Prelude.Tests.{ltb, ◌==◌, if◌then◌else◌, Bool-cases}
use omwj.Prelude.Lists.{length}
use omwj.Prelude.Word.{add32, lt32, eq32, modulus}
use omwj.Constants.{dist_padding}
use omwj.Entry.{Entry}
use omwj.Batching.Aks.{misplaced, distribute_inner}
use omwj.Batching.Aks.Swaps.{
  slot, Rows, aks_oswap-Exchanged, exchanged_first, exchanged_second, exchanged_other,
  get_or-get_elem?,
}
use omwj.Batching.Aks.Sequence.{
  Source, Held, InFront, Placed, Pad, threshold, left_fits, right_fits, left-Source, right-Source,
  lt32-small,
}
use omwj.Batching.Aks.Routed.{Routed, Placed-merge, one-Placed}
use omwj.Batching.Aks.Steps.{pair_step}

module _ (blank : Entry) (n : ℕ) (small : n < 1073741824) where
  -- A block of at most one slot.
  pub few-Placed :
      (start index size c : ℕ) (e : ℕ → Entry) (buf : List Entry)
      → size ≤ 1
      → Source e c index size
      → InFront blank n e c start size buf
      → Placed blank n e c index start size buf
  few-Placed start index zero c e buf few s front p h = absurd (omega (arith, h))
  few-Placed start index (suc zero) c e buf few s front p h =
      one-Placed blank n e c index start 0 buf s
        (λ j h. let e_j : j ≡ 0 = omega (arith, h) in rw e_j (front 0 (omega arith))) p h
  few-Placed start index (suc (suc size)) c e buf few s front p h = absurd (omega (arith, few))

  module _ (e : ℕ → Entry) (c index : ℕ) (in_range : index + 2 ≤ n) (s : Source e c index 2) where
    -- No row that belongs into the first slot stands in the second one.
    second_lem :
        (e1 : Entry)
        → Held n e c 1 e1
        → ((j : ℕ) → 1 ≤ j → j < c → index + 1 ≤ (e j).dst_idx)
        → (not (eq32 e1.field_type dist_padding) && lt32 e1.dst_idx (add32 index 1)) ≡ false
    unfolding add32
    second_lem e1 (row, pad) above = elim (Bool-cases (ltb 1 c)) [
      | inl two ↦
          let h : 1 < c = ground (arith, two) in
          let same = row h in
          let high = s.high 1 h in
          let low = above 1 (omega arith) h in
          let sum : (index + 1) % modulus ≡ index + 1 =
            mod-eq_of_lt (omega (arith, in_range, small)) in
          let test =
            lt32-small (e 1).dst_idx (index + 1) (omega (arith, high, in_range, small))
              (omega (arith, in_range, small)) in
          rw (same, s.filled 1 h, sum, test) (ground (arith, low))
      | inr one ↦ let (mark, same) = pad (ground (arith, one)) in rw mark refl
    ]

    -- For two slots: whether no row belongs into the first one.
    misplaced_lem :
        (t : ℕ) (e0 e1 : Entry)
        → Held n e c 0 e0
        → Held n e c 1 e1
        → ((j : ℕ) → j < t → (e j).dst_idx < index + 1)
        → ((j : ℕ) → t ≤ j → j < c → index + 1 ≤ (e j).dst_idx)
        → t ≤ 1
        → 0 < c
        → misplaced index e0 e1 ≡ (t == 0)
    misplaced_lem t e0 e1 h0 h1 below above few some_row =
        let same = h0.0 some_row in
        let high = s.high 0 some_row in
        let test =
          lt32-small index (e 0).dst_idx (omega (arith, in_range, small))
            (omega (arith, high, in_range, small)) in
        elim (Bool-cases (t == 0)) [
          | inl right ↦
              let up = above 0 (ground (arith, right)) some_row in
              let far : ltb index (e 0).dst_idx ≡ true = ground (arith, up) in
              rw (same, s.filled 0 some_row, test) (rw (far, right) refl)
          | inr left ↦
              let low = s.low 0 some_row in
              let down = below 0 (ground (arith, left)) in
              let near : ltb index (e 0).dst_idx ≡ false = ground (arith, down) in
              let second = second_lem e1 h1 (λ j h. above j (ground (arith, h, few))) in
              rw (same, s.filled 0 some_row, test) (rw (near, left) second)
        ]

    -- Where the two rows stand after the swap.
    chosen-Held :
        (t : ℕ) (cond : Bool) (x y : Entry)
        → Held n e c 0 x
        → Held n e c 1 y
        → (0 < c → cond ≡ (t == 0))
        → t ≤ c
        → t ≤ 1
        → c ≤ t + 1
        → Held n e t 0 (if cond then y else x)
          × Held n (λ j. e (t + j)) (c - t) 0 (if cond then x else y)
    chosen-Held t cond x y hx hy decided inside few room = elim (Bool-cases (c == 0)) [
      | inl empty ↦
          let none_left : c ≡ 0 = ground (arith, empty) in
          let pads : (b : Bool) (v w : Entry) → Pad n v → Pad n w → Pad n (if b then v else w) =
            pick_pad in
          let px = hx.1 (omega (arith, none_left)) in
          let py = hy.1 (omega (arith, none_left)) in
          (
            ((λ k. absurd (omega (arith, k, inside, none_left))), λ k. pads cond y x py px),
            ((λ k. absurd (omega (arith, k, none_left))), λ k. pads cond x y px py),
          )
      | inr more ↦
          let some_row : 0 < c = ground (arith, more) in
          by_count t (decided some_row) some_row few room
    ]
      where
        pick_pad : (b : Bool) (v w : Entry) → Pad n v → Pad n w → Pad n (if b then v else w)
        pick_pad true v w p q = p
        pick_pad false v w p q = q

        by_count :
            (t : ℕ)
            → cond ≡ (t == 0)
            → 0 < c
            → t ≤ 1
            → c ≤ t + 1
            → Held n e t 0 (if cond then y else x)
              × Held n (λ j. e (t + j)) (c - t) 0 (if cond then x else y)
        by_count zero all some_row few room = rw all (
          ((λ k. absurd (omega (arith, k))), λ k. hy.1 (omega (arith, room))),
          ((λ k. hx.0 some_row), λ k. absurd (omega (arith, k, some_row))),
        )
        by_count (suc zero) all some_row few room = rw all (
          ((λ k. hx.0 some_row), λ k. absurd (omega (arith, k))),
          ((λ k. hy.0 (omega (arith, k))), λ k. hy.1 (omega (arith, k))),
        )
        by_count (suc (suc t)) all some_row few room = absurd (omega (arith, few))

    apart_lem : (p start : ℕ) → (p < start) ⊎ (start + 2 ≤ p) → (start ≤ p) × (p < start + 2) → ⊥
    apart_lem p start (inl before) at = omega (arith, before, at)
    apart_lem p start (inr behind) at = omega (arith, behind, at)

    pub pair-Routed :
        (fuel start : ℕ) (buf : List Entry)
        → InFront blank n e c start 2 buf
        → start + 2 ≤ length buf
        → Rows blank buf
        → Routed blank n e c index start 2 buf (distribute_inner (suc fuel) start index 2 buf)
    pair-Routed fuel start buf front fits rows =
        let (t, inside, below, above) = threshold e c index 2 (index + 1) s in
        let left_room = left_fits e c index 1 1 s t inside below above in
        let right_room = right_fits e c index 1 1 s t inside below above in
        let at0 = get_or-get_elem? blank buf start (omega (arith, fits)) in
        let at1 = get_or-get_elem? blank buf (start + 1) (omega (arith, fits)) in
        let zeroth : start + 0 ≡ start = omega arith in
        let first_slot : start + 1 + 0 ≡ start + 1 = omega arith in
        let held0 : Held n e c 0 (slot blank buf start) = rw zeroth at (front 0 (omega arith)) in
        let held1 = front 1 (omega arith) in
        let cond = misplaced index (slot blank buf start) (slot blank buf (start + 1)) in
        let one =
          aks_oswap-Exchanged blank cond start (start + 1) buf (omega (arith, fits))
            (omega (arith, fits)) rows in
        let first = exchanged_first blank one (omega arith) in
        let second = exchanged_second blank one in
        let decided : 0 < c → cond ≡ (t == 0) =
          λ h. misplaced_lem t _ _ held0 held1 below above left_room h in
        let (left, right) =
          chosen-Held t cond _ _ held0 held1 decided inside left_room right_room in
        let left_held : Held n e t 0 (slot blank one.out start) = rw first left in
        let right_held : Held n (λ j. e (t + j)) (c - t) 0 (slot blank one.out (start + 1)) =
          rw second right in
        let first_placed =
          few-Placed start index 1 t e one.out (omega arith)
            (left-Source e c index 1 1 s t inside below above)
            (λ j h. let e_j : j ≡ 0 = omega (arith, h) in rw (e_j, zeroth) left_held) in
        let second_placed =
          few-Placed (start + 1) (index + 1) 1 (c - t) (λ j. e (t + j)) one.out (omega arith)
            (right-Source e c index 1 1 s t inside below above)
            (λ j h. let e_j : j ≡ 0 = omega (arith, h) in rw (e_j, first_slot) right_held) in
        record {
          out = one.out;
          returns = pair_step fuel start index buf one.out _ _ at0 at1 one.returns;
          same_size = one.size;
          rows = one.rows;
          placed =
              Placed-merge blank n e c index start 1 1 t one.out inside below above first_placed
                second_placed;
          others = λ p h.
              exchanged_other blank one p (λ at. absurd (apart_lem p start h (omega (arith, at))))
                (λ at. absurd (apart_lem p start h (omega (arith, at))));
        }
