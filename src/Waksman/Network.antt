-- ===== src/Waksman/Network.antt =====
-- The whole network on 2 ^ k elements: it returns, stays inside the array and the keystream,
-- reads one bit for each switch and permutes the array.
use native.Mathlib.Nat.{pow-suc, one-le-pow}
use omwj.Prelude.{
  ℕ, zero, suc, ◌+◌, ◌-◌, ◌*◌, ◌/◌, ◌^◌, ◌≤◌, ◌<◌, ◌≡◌, ◌≢◌, refl, ap, false, Option, arith,
}
use omwj.Prelude.Lists.{length}
use omwj.Prelude.Partial.{◌>>=◌}
use omwj.Prelude.Tests.{leb, ◌==◌}
use omwj.Waksman.{Net, switches, waksman}
use omwj.Waksman.Switch.{Ran, Ran-none, Ran-bind, switch-Ran}

-- The number of switches of the network on 2 ^ k elements.
abbrev pub switch_total : ℕ → ℕ
switch_total zero = 0
switch_total (suc k) = 2 ^ k + 2 * switch_total k + (2 ^ k - 1)

-- The index of pair `i` is inside.
pub pair_inside :
    (i half stride start size : ℕ)
    → i < half
    → 0 < stride
    → start + half * 2 * stride < size + stride
    → (start + i * 2 * stride < size)
      × (start + (i * 2 + 1) * stride < size)
      × (start + i * 2 * stride ≢ start + (i * 2 + 1) * stride)
pair_inside i half stride start size h pos fits =
    let grow : (i + 1) * stride ≤ half * stride = grind arith in
    (omega arith, omega arith, omega arith)

module _ {ℓ} {A : Type ℓ} where
  -- The group of `n` elements from `start` on lies inside the array, with bits left for `used` reads.
  pub record Fits (start stride n used : ℕ) (net : Net A) : Type 0 where
    pub positive : 0 < stride
    pub inside : start + n * stride < length net.arr + stride
    pub enough : net.stream.next + used ≤ 8 * length net.stream.bits

  pub switches-Ran :
      (rounds i start stride half : ℕ) (net : Net A)
      → i + rounds ≡ half
      → Fits start stride (half * 2) rounds net
      → Ran net rounds (switches rounds i start stride net)
  unfolding switches
  switches-Ran zero i start stride half net e f = Ran-none net
  switches-Ran (suc rounds) i start stride half net e f =
      let (in1, in2, apart) =
        pair_inside i half stride start (length net.arr) (omega arith) f.positive f.inside in
      let first = switch-Ran _ _ net in1 in2 apart (omega (arith, f.enough)) in
      Ran-bind 1 rounds (suc rounds) (switches rounds (i + 1) start stride) first
        (switches-Ran rounds (i + 1) start stride half first.out (omega arith) (record {
          positive = f.positive;
          inside = omega (arith, first.same_length, f.inside);
          enough = omega (arith, first.advanced, f.enough, ap (length {A = ℕ}) first.same_bits);
        }))
        (omega arith)

  -- What is left fits after a run.
  Fits-after :
      {start stride n used before : ℕ} (used' : ℕ) {net : Net A} {r : Option (Net A)}
      (first : Ran net before r)
      → Fits start stride n used net
      → before + used' ≤ used
      → Fits start stride n used' first.out
  Fits-after used' first f less = record {
    positive = f.positive;
    inside = omega (arith, first.same_length, f.inside);
    enough = omega (arith, first.advanced, f.enough, ap (length {A = ℕ}) first.same_bits);
  }

  module _ {start stride half used : ℕ} (used' : ℕ) {net : Net A} (less : used' ≤ used)
      (f : Fits start stride (half * 2) used net) where
    Fits-even : Fits start (stride * 2) half used' net
    Fits-even = record {
      positive = omega (arith, f.positive);
      inside = omega (arith, f.inside);
      enough = omega (arith, f.enough);
    }

    Fits-odd : Fits (start + stride) (stride * 2) half used' net
    Fits-odd = record {
      positive = omega (arith, f.positive);
      inside = omega (arith, f.inside);
      enough = omega (arith, f.enough);
    }

  waksman_two :
      (fuel start stride : ℕ) (net : Net A)
      → Fits start stride 2 1 net
      → Ran net 1 (waksman (suc fuel) start stride 2 net)
  unfolding waksman
  waksman_two fuel start stride net f =
      switch-Ran start (start + stride) net (omega (arith, f.positive, f.inside))
        (omega (arith, f.inside)) (omega (arith, f.positive)) (omega (arith, f.enough))

  -- The recursive case on 2 * half elements.
  waksman_step :
      (fuel start stride half : ℕ) (net : Net A)
      → 2 ≤ half
      → waksman (suc fuel) start stride (half * 2) net ≡ (do
        mixed ← switches half 0 start stride net
        evens ← waksman fuel start (stride * 2) half mixed
        odds ← waksman fuel (start + stride) (stride * 2) half evens
        switches (half - 1) 1 start stride odds)
  unfolding waksman
  waksman_step fuel start stride half net h =
      let halved : half * 2 / 2 ≡ half = omega arith in
      let many : leb (half * 2) 1 ≡ false = ground arith in
      let more : (half * 2 == 2) ≡ false = ground arith in
      rw (many, waksman) (rw (more, waksman) (rw halved refl))

  -- The network on 2 ^ k elements with fuel beyond k: it returns, having read switch_total k bits,
  -- and the array is permuted.
  pub waksman-Ran :
      (k fuel start stride : ℕ) (net : Net A)
      → k < fuel
      → Fits start stride (2 ^ k) (switch_total k) net
      → Ran net (switch_total k) (waksman fuel start stride (2 ^ k) net)
  waksman-Ran k zero start stride net h f = absurd (omega arith)
  waksman-Ran zero (suc fuel) start stride net h f = unfold waksman in Ran-none net
  waksman-Ran (suc zero) (suc fuel) start stride net h f = waksman_two fuel start stride net f
  waksman-Ran (suc (suc k)) (suc fuel) start stride net h f =
      let half = 2 ^ suc k in
      let two : 2 ≤ half = omega (arith, pow-suc 2 k, one-le-pow k 2) in
      let power : 2 ^ suc (suc k) ≡ half * 2 = omega (arith, pow-suc 2 (suc k)) in
      let t = switch_total (suc k) in
      let fits : Fits start stride (half * 2) (half + 2 * t + (half - 1)) net = rw power at f in
      let first = switches-Ran half 0 start stride half net (omega arith) (record {
        positive = f.positive;
        inside = fits.inside;
        enough = omega (arith, fits.enough);
      }) in
      let f1 = Fits-after (2 * t + (half - 1)) first fits (omega arith) in
      let second =
        waksman-Ran (suc k) fuel start (stride * 2) first.out (omega arith)
          (Fits-even t (omega arith) f1) in
      let f2 = Fits-after (t + (half - 1)) second f1 (omega arith) in
      let third =
        waksman-Ran (suc k) fuel (start + stride) (stride * 2) second.out (omega arith)
          (Fits-odd t (omega arith) f2) in
      let f3 = Fits-after (half - 1) third f2 (omega arith) in
      let fourth = switches-Ran (half - 1) 1 start stride half third.out (omega arith) f3 in
      rw (power, waksman_step fuel start stride half net two)
        (Ran-bind half (t + (t + (half - 1))) (switch_total (suc (suc k))) _ first
          (Ran-bind t (t + (half - 1)) (t + (t + (half - 1))) _ second
            (Ran-bind t (half - 1) (t + (half - 1)) _ third fourth refl) refl)
          (omega arith))
