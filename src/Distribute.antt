-- ===== src/Distribute.antt =====
-- enclave/trusted/join/distribute.c, with the strides of trow.h: each row of a table is repeated
-- final_mult times. An expanded table is the list of its rows and their width; a read beyond a
-- row's slots or beyond the array is a fault.
pub mod Stride
pub mod Network
pub mod Routes
pub mod Pass
pub mod Arrives
pub mod Fills
pub mod Table
pub mod Expand
pub mod Total
use omwj.Prelude.{
  ℕ, zero, suc, ◌+◌, ◌-◌, ◌*◌, ◌/◌, ◌%◌, Bool, ◌&&◌, not, List, [], ◌∷◌, ◌++◌, map, Option, none,
  some,
}
use omwj.Prelude.Tests.{leb, ltb, ◌==◌, if◌then◌else◌}
use omwj.Prelude.Lists.{length, get_elem?, set, take, replicate, linear_pass}
use omwj.Prelude.Partial.{◌>>=◌}
use omwj.Prelude.Word.{modulus, eq32, lt32, add32, mul32, sub32, is_neg, flag, minus_one}
use omwj.Constants.{dist_padding}
use omwj.Entry.{Entry, TableDesc, JoinNode}
use omwj.Swap.{modulus64, exchange}
use omwj.Trow.{Trow, t_cmp_dist_padding_last, trow_make_pad}

-- A row of 40 bytes and `width` slots, to the next multiple of 8.
unfoldable pub trow_stride : ℕ → ℕ
trow_stride width = (40 + 4 * width + 7) / 8 * 8

-- dist_pair: the rows change places, and the slots keep their indices.
unfoldable pub dist_pair : Trow → Trow → Trow × Trow
dist_pair e1 e2 =
    let should_swap = not (lt32 e1.dst_idx e2.index) && not (eq32 e1.field_type dist_padding) in
    let (f1, f2) = exchange should_swap e1 e2 in
    (record f1 { index = e1.index }, record f2 { index = e2.index })

unfoldable pub make_dist_padding : ℕ → Trow
make_dist_padding width = record {
  join_attr = 0;
  field_type = dist_padding;
  original_index = minus_one;
  local_mult = 0;
  foreign_sum = 0;
  copy_index = 0;
  alignment_key = 0;
  final_mult = 0;
  dst_idx = minus_one;
  index = 0;
  attributes = replicate width 0;
}

-- Step 1: a row of the work array
unfoldable pub trow_of : ℕ → ℕ → Entry → Trow
trow_of width dst e = record {
  join_attr = 0;
  field_type = e.field_type;
  original_index = e.original_index;
  local_mult = e.local_mult;
  foreign_sum = e.foreign_sum;
  copy_index = 0;
  alignment_key = 0;
  final_mult = e.final_mult;
  dst_idx = dst;
  index = 0;
  attributes = take width e.attributes;
}

-- the work array and the sum of the multiplicities, from a sum of `dst` on
unfoldable pub build_work : ℕ → ℕ → List Entry → Option (List Trow × ℕ)
unfolding trow_of
build_work width dst [] = some ([], dst)
build_work width dst (e ∷ rows) =
    let rest = build_work width (add32 dst e.final_mult) rows in
    if leb width (length e.attributes)
    then rest >>= (λ (work, total). some (trow_of width dst e ∷ work, total))
    else none

-- `(size_t)dst` of an int32_t
unfoldable pub size_of : ℕ → ℕ
size_of dst = if is_neg dst then dst % modulus + (modulus64 - modulus) else dst % modulus

-- Step 2
unfoldable pub mark_zero : Trow → Trow
mark_zero t =
    let is_zero = flag (eq32 t.final_mult 0) in
    record t {
      field_type = add32 (mul32 is_zero dist_padding) (mul32 (sub32 1 is_zero) t.field_type);
    }

-- Step 4: the first rows, and padding up to the output size
unfoldable pub resize : ℕ → ℕ → List Trow → List Trow
unfolding make_dist_padding
resize width output_size work =
    let keep = if ltb (length work) output_size then length work else output_size in
    take keep work ++ replicate (output_size - keep) (make_dist_padding width)

-- the slot indices, from i on
unfoldable pub number_slots : ℕ → List Trow → List Trow
number_slots i [] = []
number_slots i (t ∷ arr) = record t { index = i % modulus } ∷ number_slots (suc i) arr

unfoldable pub pair_at : ℕ → ℕ → List Trow → Option (List Trow)
unfolding dist_pair
pair_at i j arr = do
  e1 ← get_elem? arr i
  e2 ← get_elem? arr j
  let moved = dist_pair e1 e2
  some (set (set arr i moved.0) j moved.1)

-- One pass at a distance: the slots below j from the right to the left
unfoldable pub network_pass : ℕ → ℕ → List Trow → Option (List Trow)
unfolding pair_at
network_pass distance zero arr = some arr
network_pass distance (suc j) arr = pair_at j (j + distance) arr >>= network_pass distance j

-- The passes at a distance and its halves, down to 1; a size_t is 0 after at most 64 halvings
unfoldable pub network_from : ℕ → ℕ → ℕ → List Trow → Option (List Trow)
unfolding network_pass
network_from zero distance output_size arr = none
network_from (suc fuel) distance output_size arr =
    if distance == 0
    then some arr
    else network_pass distance (output_size - distance) arr
      >>= network_from fuel (distance / 2) output_size

-- `while ((distance << 1) <= output_size) distance <<= 1`
unfoldable pub widest : ℕ → ℕ → ℕ → Option ℕ
widest zero distance output_size = none
widest (suc fuel) distance output_size =
    let doubled = distance * 2 % modulus64 in
    let rest = widest fuel doubled output_size in
    if leb doubled output_size then rest else some distance

-- Step 5
unfoldable pub network : ℕ → List Trow → Option (List Trow)
unfolding network_from widest
network output_size arr =
    widest 64 1 output_size >>= (λ distance. network_from 65 distance output_size arr)

-- Step 6: a padding slot takes the row before it, all but the slot index.
unfoldable pub expand_step : Trow → Trow → Trow
expand_step prev cur =
    let chosen = if eq32 cur.field_type dist_padding then prev else cur in
    record chosen { index = cur.index }

pub record ExpandedTable : Type 0 where
  pub rows : List Trow
  pub width : ℕ
