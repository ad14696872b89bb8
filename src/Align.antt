-- ===== src/Align.antt =====
-- enclave/trusted/join/align.c, the steps on rows: a child's expanded table is put in the order of
-- the accumulated result and set beside it. A read of a slot or a row that is not there is a fault.
pub mod Attach
pub mod Rows
pub mod Joined
pub mod Ordered
pub mod Emitted
pub mod Placed
pub mod Walk
pub mod Concat
pub mod Preorder
use omwj.Prelude.{ℕ, zero, suc, ◌+◌, ◌*◌, ◌/◌, List, [], ◌∷◌, ◌++◌, Option, none, some}
use omwj.Prelude.Lists.{get_elem?, take, linear_pass}
use omwj.Prelude.Partial.{◌>>=◌}
use omwj.Prelude.Word.{eq32, add32, mul32, div32, flag}
use omwj.Trow.{Trow, Rrow}

-- A row of 8 bytes and `width` slots, to the next multiple of 8.
unfoldable pub rrow_stride : ℕ → ℕ
rrow_stride width = (8 + 4 * width + 7) / 8 * 8

-- trow_table_to_rrow, for one row
unfoldable pub to_rrow : ℕ → Trow → Rrow
to_rrow width t = record {
  field_type = t.field_type;
  join_attr = t.join_attr;
  attributes = take width t.attributes;
}

-- The join attribute of each row of the result is set from a slot.
unfoldable pub join_result : ℕ → List Rrow → Option (List Rrow)
join_result col [] = some []
join_result col (t ∷ rows) = do
  key ← get_elem? t.attributes col
  rest ← join_result col rows
  some (record t { join_attr = key } ∷ rest)

unfoldable pub join_child : ℕ → List Trow → Option (List Trow)
join_child col [] = some []
join_child col (t ∷ rows) = do
  key ← get_elem? t.attributes col
  rest ← join_child col rows
  some (record t { join_attr = key } ∷ rest)

-- the position of a row among the copies of one row
unfoldable pub copy_step : Trow → Trow → Trow
copy_step prev cur =
    let same = flag (eq32 cur.original_index prev.original_index) in
    record cur { copy_index = mul32 same (add32 prev.copy_index 1) }

unfoldable pub number_copies : List Trow → List Trow
unfolding copy_step
number_copies [] = []
number_copies (t ∷ rows) = linear_pass copy_step (record t { copy_index = 0 } ∷ rows)

-- the output row of a copy
unfoldable pub set_alignment : Trow → Trow
set_alignment t =
    let safe_mult = add32 t.local_mult (flag (eq32 t.local_mult 0)) in
    record t { alignment_key = add32 t.foreign_sum (div32 t.copy_index safe_mult) }

-- Row i of the child beside row i of the result, which has the same header.
unfoldable pub beside : ℕ → ℕ → List Rrow → List Trow → Option (List Rrow)
beside width child_width [] child = some []
beside width child_width (a ∷ rows) [] = none
beside width child_width (a ∷ rows) (c ∷ child) = do
  rest ← beside width child_width rows child
  some (record a { attributes = take width a.attributes ++ take child_width c.attributes } ∷ rest)
