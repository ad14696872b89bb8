-- ===== src/Batching/Shuffle/Network.antt =====
-- The network of the shuffle on 2 ^ k rows returns and permutes the rows.
use native.Mathlib.Nat.{pow-suc, one-le-pow}
use mathlib.Core.List.Perm
use omwj.Prelude.{
  ℕ, zero, suc, ◌+◌, ◌-◌, ◌*◌, ◌/◌, ◌^◌, ◌≤◌, ◌<◌, ◌≡◌, ◌≢◌, refl, ap, ◌∙◌, Bool, true, false, not,
  List, Perm, Option, some, arith,
}
use omwj.Prelude.Tests.{leb, ◌==◌}
use omwj.Prelude.Lists.{length, set, All, get_elem?-lt, length-set}
use omwj.Prelude.Partial.{◌>>=◌}
use omwj.Swap.{exchange}
use omwj.Entry.{Entry}
use omwj.Batching.Oblivious
use omwj.Batching.Exchanges.{IsRow, oblivious_swap_lem}
use omwj.Waksman.Switch.{exchange-perm}
use omwj.Waksman.Network.{pair_inside}
use omwj.Batching.Heap.Sifts.{All-get_elem?, All-set}
use omwj.Batching.Shuffle.{
  byte_mask, oblivious_swap, switch_rows, switch_pairs, waksman_recursive, max_batch_size,
  after_switches,
}

-- On rows as they lie in memory, the masked swap exchanges the rows for 1 and leaves them for 0.
oblivious_swap-exchange :
    (a b : Entry) (swap : ℕ)
    → swap < 2
    → IsRow a
    → IsRow b
    → oblivious_swap a b swap ≡ exchange (not (swap == 0)) a b
unfolding oblivious_swap byte_mask Oblivious.oblivious_swap Oblivious.wide_mask
oblivious_swap-exchange a b zero h row1 row2 = oblivious_swap_lem a b 0 row1 row2
oblivious_swap-exchange a b (suc zero) h row1 row2 = oblivious_swap_lem a b 1 row1 row2
oblivious_swap-exchange a b (suc (suc swap)) h row1 row2 = absurd (omega arith)

IsRow-first : (t : Bool) (x y : Entry) → IsRow x → IsRow y → IsRow (exchange t x y).0
IsRow-first true x y p q = q
IsRow-first false x y p q = p

IsRow-second : (t : Bool) (x y : Entry) → IsRow x → IsRow y → IsRow (exchange t x y).1
IsRow-second true x y p q = p
IsRow-second false x y p q = q

module _ (switch_bit : ℕ → ℕ → ℕ)
    (binary : (level position : ℕ) → switch_bit level position < 2) where
  -- A run that permutes the rows.
  pub record Shuffles (array : List Entry) (r : Option (List Entry)) : Type 0 where
    pub out : List Entry
    pub returns : r ≡ some out
    pub shuffled : Perm out array
    pub size : length out ≡ length array
    pub rows : All IsRow out

  -- The group of n rows lies inside the array and the largest batch.
  pub record Inside (start stride n : ℕ) (array : List Entry) : Type 0 where
    pub positive : 0 < stride
    pub fits : start + n * stride < length array + stride
    pub small : length array ≤ max_batch_size

  switch_rows-Shuffles :
      (level i j : ℕ) (array : List Entry)
      → All IsRow array
      → i < length array
      → j < length array
      → i ≢ j
      → Shuffles array (switch_rows switch_bit level i j array)
  unfolding switch_rows
  switch_rows-Shuffles level i j array rows hi hj apart =
      let (x, at_i) = get_elem?-lt array i hi in
      let (y, at_j) = get_elem?-lt array j hj in
      let row_x = All-get_elem? (λ e. 0) IsRow array i rows at_i in
      let row_y = All-get_elem? (λ e. 0) IsRow array j rows at_j in
      let bit = switch_bit level i in
      let t = not (bit == 0) in
      let swapped = oblivious_swap-exchange x y bit (binary level i) row_x row_y in
      let first = set array i (exchange t x y).0 in
      let rows1 =
        All-set (λ e. 0) IsRow array i (exchange t x y).0 rows (IsRow-first t x y row_x row_y) in
      record {
        out = set first j (exchange t x y).1;
        returns =
            rw (at_i, at_j)
              (ap (λ (p : Entry × Entry). some (set (set array i p.0) j p.1)) swapped);
        shuffled = exchange-perm array i j x y at_i at_j apart t;
        size = length-set first j _ ∙ length-set array i _;
        rows = All-set (λ e. 0) IsRow first j _ rows1 (IsRow-second t x y row_x row_y);
      }

  switch_pairs-Shuffles :
      (rounds i level start stride half : ℕ) (array : List Entry)
      → i + rounds ≡ half
      → Inside start stride (half * 2) array
      → All IsRow array
      → (out : List Entry) × (switch_pairs switch_bit rounds i level start stride array
          ≡ some (true, out))
        × Perm out array
        × (length out ≡ length array)
        × All IsRow out
  unfolding switch_pairs
  switch_pairs-Shuffles zero i level start stride half array e inside rows =
      (array, refl, Perm.rfl, refl, rows)
  switch_pairs-Shuffles (suc rounds) i level start stride half array e inside rows =
      let (in1, in2, apart) =
        pair_inside i half stride start (length array) (omega arith) inside.positive inside.fits in
      let first = switch_rows-Shuffles level _ _ array rows in1 in2 apart in
      let idx1 = start + i * 2 * stride in
      let idx2 = start + (i * 2 + 1) * stride in
      let small1 : leb max_batch_size idx1 ≡ false = ground (arith, in1, inside.small) in
      let small2 : leb max_batch_size idx2 ≡ false = ground (arith, in2, inside.small) in
      let (out, run, perm, size, rows') =
        switch_pairs-Shuffles rounds (i + 1) level start stride half first.out (omega (arith, e))
          (record {
            positive = inside.positive;
            fits = omega (arith, first.size, inside.fits);
            small = omega (arith, first.size, inside.small);
          })
          first.rows in
      (
        out,
        rw (small1, small2, switch_pairs) (rw (first.returns, ◌>>=◌) run),
        Perm.trans perm first.shuffled,
        size ∙ first.size,
        rows',
      )

  Inside-even :
      {start stride half : ℕ} {array array' : List Entry}
      → Inside start stride (half * 2) array
      → length array' ≡ length array
      → Inside start (stride * 2) half array'
  Inside-even inside size = record {
    positive = omega (arith, inside.positive);
    fits = omega (arith, inside.fits, size);
    small = omega (arith, inside.small, size);
  }

  Inside-odd :
      {start stride half : ℕ} {array array' : List Entry}
      → Inside start stride (half * 2) array
      → length array' ≡ length array
      → Inside (start + stride) (stride * 2) half array'
  Inside-odd inside size = record {
    positive = omega (arith, inside.positive);
    fits = omega (arith, inside.fits, size);
    small = omega (arith, inside.small, size);
  }

  Inside-same :
      {start stride n : ℕ} {array array' : List Entry}
      → Inside start stride n array
      → length array' ≡ length array
      → Inside start stride n array'
  Inside-same inside size = record {
    positive = inside.positive;
    fits = omega (arith, inside.fits, size);
    small = omega (arith, inside.small, size);
  }

  -- The recursive case on 2 * half rows.
  step_lem :
      (fuel start stride half level : ℕ) (array : List Entry)
      → 2 ≤ half
      → waksman_recursive switch_bit (suc fuel) start stride (half * 2) level array ≡ (
          switch_pairs switch_bit half 0 level start stride array
          >>= after_switches switch_bit (waksman_recursive switch_bit fuel) half start stride level)
  unfolding waksman_recursive
  step_lem fuel start stride half level array h =
      let halved : half * 2 / 2 ≡ half = omega arith in
      let many : leb (half * 2) 1 ≡ false = ground arith in
      let more : (half * 2 == 2) ≡ false = ground arith in
      rw (many, waksman_recursive) (rw (more, waksman_recursive) (rw halved refl))

  after_lem :
      (recurse : ℕ → ℕ → ℕ → ℕ → List Entry → Option (List Entry)) (half start stride level : ℕ)
      (mixed evens odds out : List Entry)
      → recurse start (stride * 2) half (level + 1) mixed ≡ some evens
      → recurse (start + stride) (stride * 2) half (level + 1) evens ≡ some odds
      → switch_pairs switch_bit (half - 1) 1 (level + 10000) start stride odds ≡ some (true, out)
      → after_switches switch_bit recurse half start stride level (true, mixed) ≡ some out
  unfolding after_switches
  after_lem recurse half start stride level mixed evens odds out second third fourth =
      rw (second, ◌>>=◌) (rw (third, ◌>>=◌) (rw (fourth, ◌>>=◌) refl))

  chain_lem :
      (fuel start stride half level : ℕ) (array mixed evens odds out : List Entry)
      → 2 ≤ half
      → switch_pairs switch_bit half 0 level start stride array ≡ some (true, mixed)
      → waksman_recursive switch_bit fuel start (stride * 2) half (level + 1) mixed ≡ some evens
      → waksman_recursive switch_bit fuel (start + stride) (stride * 2) half (level + 1) evens
        ≡ some odds
      → switch_pairs switch_bit (half - 1) 1 (level + 10000) start stride odds ≡ some (true, out)
      → waksman_recursive switch_bit (suc fuel) start stride (half * 2) level array ≡ some out
  chain_lem fuel start stride half level array mixed evens odds out h first second third fourth =
      rw (step_lem fuel start stride half level array h) (
        rw (first, ◌>>=◌)
          (after_lem (waksman_recursive switch_bit fuel) half start stride level mixed evens odds
            out second third fourth))

  -- The network on 2 ^ k rows, with fuel beyond k.
  pub waksman_recursive-Shuffles :
      (k fuel start stride level : ℕ) (array : List Entry)
      → k < fuel
      → Inside start stride (2 ^ k) array
      → All IsRow array
      → Shuffles array (waksman_recursive switch_bit fuel start stride (2 ^ k) level array)
  unfolding waksman_recursive
  waksman_recursive-Shuffles k zero start stride level array h inside rows = absurd (omega arith)
  waksman_recursive-Shuffles zero (suc fuel) start stride level array h inside rows = record {
    out = array;
    returns = refl;
    shuffled = Perm.rfl;
    size = refl;
    rows = rows;
  }
  waksman_recursive-Shuffles (suc zero) (suc fuel) start stride level array h inside rows =
      switch_rows-Shuffles level start (start + stride) array rows
        (omega (arith, inside.positive, inside.fits)) (omega (arith, inside.fits))
        (omega (arith, inside.positive))
  waksman_recursive-Shuffles (suc (suc k)) (suc fuel) start stride level array h inside rows =
      let half = 2 ^ suc k in
      let two : 2 ≤ half = omega (arith, pow-suc 2 k, one-le-pow k 2) in
      let power : 2 ^ suc (suc k) ≡ half * 2 = omega (arith, pow-suc 2 (suc k)) in
      let whole : Inside start stride (half * 2) array = rw power at inside in
      let (mixed, run1, perm1, size1, rows1) =
        switch_pairs-Shuffles half 0 level start stride half array (omega arith) whole rows in
      let evens =
        waksman_recursive-Shuffles (suc k) fuel start (stride * 2) (level + 1) mixed (omega arith)
          (Inside-even whole size1) rows1 in
      let size2 = evens.size ∙ size1 in
      let odds =
        waksman_recursive-Shuffles (suc k) fuel (start + stride) (stride * 2) (level + 1) evens.out
          (omega arith) (Inside-odd whole size2) evens.rows in
      let size3 = odds.size ∙ size2 in
      let (out, run4, perm4, size4, rows4) =
        switch_pairs-Shuffles (half - 1) 1 (level + 10000) start stride half odds.out (omega arith)
          (Inside-same whole size3) odds.rows in
      let run =
        chain_lem fuel start stride half level array mixed evens.out odds.out out two run1
          evens.returns odds.returns run4 in
      record {
        out = out;
        returns =
            ap (λ n. waksman_recursive switch_bit (suc fuel) start stride n level array) power
            ∙ run;
        shuffled = Perm.trans perm4 (Perm.trans odds.shuffled (Perm.trans evens.shuffled perm1));
        size = size4 ∙ size3;
        rows = rows4;
      }
