-- ===== src/Batching/Aks/Power.antt =====
-- distribute_2power brings the rows of a turned block of 2 ^ k slots to their destinations.
use native.Mathlib.Nat.{mod-lt, mod-eq_of_lt, pow-suc, one-le-pow}
use omwj.Prelude.{ℕ, zero, suc, ◌+◌, ◌-◌, ◌*◌, ◌%◌, ◌^◌, ◌≤◌, ◌<◌, ◌≡◌, refl, sym, ◌∙◌, List, arith}
use omwj.Prelude.Tests.{◌==◌}
use omwj.Prelude.Lists.{length}
use omwj.Prelude.Word.{add32}
use omwj.Entry.{Entry}
use omwj.Batching.Aks.{cond2, distribute_2power}
use omwj.Batching.Aks.Swaps.{Rows}
use omwj.Batching.Aks.Sequence.{Source, Turned}
use omwj.Batching.Aks.Turn.{cond2-crosses}
use omwj.Batching.Aks.Routed.{Routed}
use omwj.Batching.Aks.Steps.{base_step, one_swap, power_step}
use omwj.Batching.Aks.Halves.{one-Routed, Level, level_lem, halves_lem, first-Turned}

module _ (blank : Entry) (n : ℕ) (small : n < 1073741824) where
  pub small_sum : (a b : ℕ) → a + b < 2147483648 → add32 a b ≡ a + b
  unfolding add32
  small_sum a b h = mod-eq_of_lt (omega (arith, h))

  module _ (e : ℕ → Entry) (c index start offset : ℕ) (buf : List Entry) where
    base-Routed :
        (fuel : ℕ) (in_range : index + 2 * 1 ≤ n) (turned : offset < 2 * 1)
        (s : Source e c index (2 * 1)) (whole : Turned blank n e c start (2 * 1) offset buf)
        (fits : start + 2 * 1 ≤ length buf) (rows : Rows blank buf)
        → Level blank n small e c index start 1 offset buf in_range turned s whole fits rows
            (λ t i. t == offset)
        → Routed blank n e c index start 2 buf
            (distribute_2power (suc fuel) start index offset 2 buf)
    base-Routed fuel in_range turned s whole fits rows level =
        let second =
          one-Routed blank n small _ _ (index + 1) (start + 1) ((offset + level.t) % 1)
            level.run.out level.second_source level.second level.run.rows in
        let at_first =
          first-Turned blank n small e c index start 1 offset buf in_range turned s whole fits rows
            level second (omega arith) in
        let first =
          one-Routed blank n small e level.t index start (offset % 1) second.out level.first_source
            at_first second.rows in
        let run =
          base_step fuel start index offset level.t 2 buf level.run.out refl
            (small_sum index 1 (omega (arith, in_range, small))) level.count
            (sym (one_swap start 1 (level.t == offset) buf) ∙ level.run.returns)
          ∙ second.returns
          ∙ first.returns in
        halves_lem blank n small e c index start 1 offset buf in_range turned s whole fits rows
          level second first run

    step-Routed :
        (fuel half : ℕ) (in_range : index + 2 * half ≤ n) (turned : offset < 2 * half)
        (s : Source e c index (2 * half)) (whole : Turned blank n e c start (2 * half) offset buf)
        (fits : start + 2 * half ≤ length buf) (rows : Rows blank buf)
        → 2 ≤ half
        → ((start index offset c : ℕ) (e : ℕ → Entry) (buf : List Entry)
            → index + half ≤ n
            → offset < half
            → Source e c index half
            → Turned blank n e c start half offset buf
            → start + half ≤ length buf
            → Rows blank buf
            → Routed blank n e c index start half buf
                (distribute_2power fuel start index offset half buf))
        → Level blank n small e c index start half offset buf in_range turned s whole fits rows
            (λ t. cond2 half offset t)
        → Routed blank n e c index start
            (2 * half)
            buf
            (distribute_2power (suc fuel) start index offset (2 * half) buf)
    step-Routed fuel half in_range turned s whole fits rows large recurse level =
        let mid = level.run.out in
        let second =
          recurse (start + half) (index + half) ((offset + level.t) % half) (c - level.t)
            (λ j. e (level.t + j)) mid (omega (arith, in_range))
            (mod-lt (offset + level.t) (omega (arith, large))) level.second_source level.second
            (omega (arith, fits, level.run.size)) level.run.rows in
        let at_first =
          first-Turned blank n small e c index start half offset buf in_range turned s whole fits
            rows level second (omega (arith, large)) in
        let first =
          recurse start index (offset % half) level.t e second.out (omega (arith, in_range))
            (mod-lt offset (omega (arith, large))) level.first_source at_first
            (omega (arith, fits, second.same_size, level.run.size)) second.rows in
        let run =
          power_step fuel start index offset half level.t buf mid second.out first.out large
            (small_sum index half (omega (arith, in_range, small)))
            (small_sum offset level.t (omega (arith, turned, level.left_room, in_range, small)))
            level.count level.run.returns second.returns first.returns in
        halves_lem blank n small e c index start half offset buf in_range turned s whole fits rows
          level second first run

  -- With fuel beyond k, on a block of 2 * 2 ^ k slots.
  pub power-Routed :
      (k fuel start index offset c : ℕ) (e : ℕ → Entry) (buf : List Entry)
      → k < fuel
      → index + 2 * 2 ^ k ≤ n
      → offset < 2 * 2 ^ k
      → Source e c index (2 * 2 ^ k)
      → Turned blank n e c start (2 * 2 ^ k) offset buf
      → start + 2 * 2 ^ k ≤ length buf
      → Rows blank buf
      → Routed blank n e c index start
          (2 * 2 ^ k)
          buf
          (distribute_2power fuel start index offset (2 * 2 ^ k) buf)
  power-Routed k zero start index offset c e buf enough in_range turned s whole fits rows =
      absurd (omega arith)
  power-Routed zero (suc fuel) start index offset c e buf enough in_range turned s whole fits rows =
      base-Routed e c index start offset buf fuel in_range turned s whole fits rows (
        level_lem blank n small e c index start 1 offset buf in_range turned s whole fits rows
          (λ t i. t == offset) (λ t i h k. ground (arith, h, k, turned)))
  power-Routed (suc k) (suc fuel) start index offset c e buf enough in_range turned s whole fits
        rows =
      let power : 2 ^ suc k ≡ 2 * 2 ^ k = omega (arith, pow-suc 2 k) in
      step-Routed e c index start offset buf fuel (2 ^ suc k) in_range turned s whole fits rows
        (omega (arith, power, one-le-pow k 2))
        (rw power λ start index offset c e buf.
          power-Routed k fuel start index offset c e buf (omega arith))
        (level_lem blank n small e c index start (2 ^ suc k) offset buf in_range turned s whole fits
          rows (λ t. cond2 (2 ^ suc k) offset t)
          (λ t i h i_in.
            cond2-crosses (2 ^ suc k) offset t i (omega (arith, in_range, small)) turned h i_in))
