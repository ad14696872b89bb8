-- ===== src/Batching/Aks/Steps.antt =====
-- What distribute_2power and distribute_inner compute on a block of two slots, and on a larger one.
use omwj.Prelude.{
  ℕ, suc, ◌+◌, ◌-◌, ◌*◌, ◌/◌, ◌%◌, ◌≤◌, ◌≡◌, refl, Bool, true, false, not, List, Option, some, none,
  arith,
}
use omwj.Prelude.Tests.{leb, ◌==◌}
use omwj.Prelude.Lists.{get_elem?}
use omwj.Prelude.Partial.{◌>>=◌}
use omwj.Prelude.Word.{add32, lt32}
use omwj.Entry.{Entry}
use omwj.Batching.Aks.{
  count_below, cross_swaps, aks_oswap, cond2, distribute_2power, aks_pow2_lt, misplaced, rotation,
  distribute_inner,
}

halved : (half : ℕ) → 2 * half / 2 ≡ half
halved half = omega arith

-- The case of two slots, whose swap is a run of one.
pub base_step :
    (fuel start index offset t n : ℕ) (buf out : List Entry)
    → n ≡ 2
    → add32 index 1 ≡ index + 1
    → count_below n start (index + 1) 0 buf ≡ some t
    → aks_oswap start (start + 1) (t == offset) buf ≡ some out
    → distribute_2power (suc fuel) start index offset n buf ≡ some out
unfolding distribute_2power
base_step fuel start index offset t n buf out two mid_is count swaps =
    let many : leb n 1 ≡ false = ground (arith, two) in
    let pair : (n == 2) ≡ true = ground (arith, two) in
    let half : n / 2 ≡ 1 = omega (arith, two) in
    rw (many, distribute_2power)
      (rw (half, distribute_2power)
        (rw (mid_is, count_below) (rw (count, ◌>>=◌) (rw (pair, distribute_2power) swaps))))

pub one_swap :
    (start gap : ℕ) (cond : Bool) (buf : List Entry)
    → cross_swaps (λ i. cond) 1 0 start gap buf ≡ aks_oswap start (start + gap) cond buf
unfolding cross_swaps
one_swap start gap cond buf =
    let near : start + 0 ≡ start = omega arith in
    let far : start + gap + 0 ≡ start + gap = omega arith in
    rw (near, far) (unit_lem (aks_oswap start (start + gap) cond buf))
  where
    unit_lem : (m : Option (List Entry)) → (m >>= some) ≡ m
    unit_lem none = refl
    unit_lem (some x) = refl

pub power_step :
    (fuel start index offset half t : ℕ) (buf mid right out : List Entry)
    → 2 ≤ half
    → add32 index half ≡ index + half
    → add32 offset t ≡ offset + t
    → count_below (2 * half) start (index + half) 0 buf ≡ some t
    → cross_swaps (cond2 half offset t) half 0 start half buf ≡ some mid
    → distribute_2power fuel (start + half) (index + half) ((offset + t) % half) half mid
      ≡ some right
    → distribute_2power fuel start index (offset % half) half right ≡ some out
    → distribute_2power (suc fuel) start index offset (2 * half) buf ≡ some out
unfolding distribute_2power
power_step fuel start index offset half t buf mid right out h mid_is sum count swaps second first =
    let many : leb (2 * half) 1 ≡ false = ground arith in
    let more : (2 * half == 2) ≡ false = ground arith in
    rw (many, distribute_2power)
      (rw (halved half, distribute_2power)
        (rw (mid_is, count_below)
          (rw (count, ◌>>=◌)
            (rw (more, distribute_2power)
              (rw (halved half, distribute_2power)
                (rw (swaps, ◌>>=◌)
                  (rw (mid_is, sum, distribute_2power) (rw (second, ◌>>=◌) first))))))))

pub pair_step :
    (fuel start index : ℕ) (buf out : List Entry) (e0 e1 : Entry)
    → get_elem? buf start ≡ some e0
    → get_elem? buf (start + 1) ≡ some e1
    → aks_oswap start (start + 1) (misplaced index e0 e1) buf ≡ some out
    → distribute_inner (suc fuel) start index 2 buf ≡ some out
unfolding distribute_inner
pair_step fuel start index buf out e0 e1 at0 at1 swaps =
    let once = rw (at0, aks_oswap) at swaps in
    let twice = rw (at1, ◌>>=◌) at once in rw (at0, ◌>>=◌) (rw (at1, ◌>>=◌) twice)

pub inner_step :
    (fuel start index n n1 n2 t o : ℕ) (buf mid left out : List Entry)
    → 3 ≤ n
    → aks_pow2_lt n ≡ n1
    → n - n1 ≡ n2
    → add32 index n2 ≡ index + n2
    → count_below n2 start (index + n2) 0 buf ≡ some t
    → cross_swaps (λ i. not (lt32 i t)) n2 0 start n1 buf ≡ some mid
    → distribute_inner fuel start index n2 mid ≡ some left
    → rotation n1 n2 t ≡ o
    → distribute_2power fuel (start + n2) (index + n2) o n1 left ≡ some out
    → distribute_inner (suc fuel) start index n buf ≡ some out
unfolding distribute_inner
inner_step fuel start index n n1 n2 t o buf mid left out large power diff mid_is count swaps first
      turn second =
    let many : leb n 1 ≡ false = ground (arith, large) in
    let more : (n == 2) ≡ false = ground (arith, large) in
    rw (many, distribute_inner)
      (rw (more, distribute_inner)
        (rw (power, distribute_inner)
          (rw (diff, distribute_inner)
            (rw (mid_is, count_below)
              (rw (count, ◌>>=◌) (rw (swaps, ◌>>=◌) (rw (first, ◌>>=◌) (rw turn second))))))))
