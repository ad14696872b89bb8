-- ===== src/Tests/Phases.antt =====
-- Examples of the top-down, distribute and align phases.
use native.Mathlib.Nat.{ℕ_set}
use omwj.Prelude.{ℕ, ◌+◌, ◌*◌, ◌%◌, ◌≤◌, ◌<◌, ◌≡◌, refl, List, [], ◌∷◌, map, some, arith}
use omwj.Prelude.Lists.{length, All, linear_pass}
use omwj.Prelude.Word.{skey, eq32, add32, minus_one, is_neg}
use omwj.Entry.{Entry, TableDesc, JoinNode}
use omwj.Trow.{Trow}
use omwj.Runtime.{Returns, err}
use omwj.BottomUp.{source_rec, start_rec, end_rec}
use omwj.BottomUp.Product.{within}
use omwj.TopDown.{share_step, range_step, share_source, share_start, share_end}
use omwj.TopDown.Reversed.{range-reversed}
use omwj.Distribute.{
  ExpandedTable, trow_of, trow_stride, make_dist_padding, dist_pair, mark_zero, expand_step,
  network,
}
use omwj.Distribute.Stride.{trow_stride-bounds}
use omwj.Distribute.Network.{Moved, network-Moved}
use omwj.Distribute.Table.{expand_single_table}
use omwj.Distribute.Total.{total_mult, expand_single_table-Returns}
use omwj.Align.{copy_step, set_alignment}
use omwj.Align.Attach.{JoinResult, preorder, align_concat}
use omwj.Align.Preorder.{PostOrder, preorder-fuel, align_concat-no_root}
use omwj.Batching.Comparators.{comparator_distribute_op}
use omwj.Batching.Shares.{share_view, foreign_passes}
use omwj.Batching.Rows.{trow_view, comparator_distribute_op-dist_pair, row_operations}
use omwj.Batching.Window.{
  window_compute_foreign_sum_op, window_compute_foreign_interval_op, window_expand_copy_op,
  window_update_copy_index_op,
}
use omwj.Batching.Transform.{
  transform_mark_zero_mult_padding_op, transform_compute_alignment_key_op,
}
use omwj.Tests.Machine.{machine, machine-Lawful, machine-Healthy, row, row-IsRow}

abbrev handed : List Entry
handed = row 1 3 0 5 ∷ row 1 4 1 2 ∷ []

abbrev takers : List Entry
takers = row 1 3 0 5 ∷ row 1 4 1 7 ∷ []

range-reversed_example :
    within
      (skey (start_rec 0 1 1 (row 1 3 0 5)).join_attr)
      (start_rec 0 1 1 (row 1 3 0 5)).equality_type
      (skey (end_rec 0 2 2 (row 1 3 0 5)).join_attr)
      (end_rec 0 2 2 (row 1 3 0 5)).equality_type
      (skey (source_rec 0 (row 1 4 1 6)).join_attr)
    ≡ within
        (skey (share_start 0 2 2 (row 1 4 1 6)).join_attr)
        (share_start 0 2 2 (row 1 4 1 6)).equality_type
        (skey (share_end 0 1 1 (row 1 4 1 6)).join_attr)
        (share_end 0 1 1 (row 1 4 1 6)).equality_type
        (skey (share_source 0 (row 1 3 0 5)).join_attr)
unfolding skey
range-reversed_example =
    range-reversed (row 1 3 0 5) (row 1 4 1 6) 0 0 1 1 2 2 (omega arith, omega arith)
      (omega arith, omega arith) (omega arith, omega arith) (omega arith, omega arith)

foreign_passes_example :
    (map share_view (linear_pass window_compute_foreign_sum_op handed)
      ≡ linear_pass share_step (map share_view handed))
    × (map share_view (linear_pass window_compute_foreign_interval_op handed)
        ≡ linear_pass range_step (map share_view handed))
foreign_passes_example = foreign_passes handed

row_operations_example :
    (trow_view 2 (transform_mark_zero_mult_padding_op (row 1 3 0 5))
      ≡ mark_zero (trow_view 2 (row 1 3 0 5)))
    × (map (trow_view 2) (linear_pass window_expand_copy_op handed)
        ≡ linear_pass expand_step (map (trow_view 2) handed))
    × (map (trow_view 2) (linear_pass window_update_copy_index_op handed)
        ≡ linear_pass copy_step (map (trow_view 2) handed))
    × (trow_view 2 (transform_compute_alignment_key_op (row 1 3 0 5))
        ≡ set_alignment (trow_view 2 (row 1 3 0 5)))
row_operations_example = row_operations 2 (row 1 3 0 5) handed

comparator_distribute_op-dist_pair_example :
    (trow_view 2 (comparator_distribute_op (row 1 3 0 5) (row 5 4 1 6)).0
      ≡ (dist_pair (trow_view 2 (row 1 3 0 5)) (trow_view 2 (row 5 4 1 6))).0)
    × (trow_view 2 (comparator_distribute_op (row 1 3 0 5) (row 5 4 1 6)).1
        ≡ (dist_pair (trow_view 2 (row 1 3 0 5)) (trow_view 2 (row 5 4 1 6))).1)
comparator_distribute_op-dist_pair_example =
    comparator_distribute_op-dist_pair 2 (row 1 3 0 5) (row 5 4 1 6) (row-IsRow 1 3 0 5 refl)
      (row-IsRow 5 4 1 6 refl)

trow_stride-bounds_example :
    (40 + 4 * 3 ≤ trow_stride 3) × (trow_stride 3 < 40 + 4 * 3 + 8) × (trow_stride 3 % 8 ≡ 0)
trow_stride-bounds_example = trow_stride-bounds 3

abbrev HasWidth : Trow → Type 0
HasWidth t = length t.attributes ≡ 2

abbrev slotted : List Trow
slotted = trow_view 2 (row 1 3 0 5) ∷ make_dist_padding 2 ∷ []

network-Moved_example : Moved HasWidth (λ t i h. h) slotted (network 2 slotted)
network-Moved_example =
    network-Moved HasWidth (λ t i h. h) 2 slotted (omega arith) (omega arith) refl

abbrev copied : List Entry
copied = record (row 1 3 0 5) { final_mult = 2 } ∷ row 1 4 1 6 ∷ []

expand_single_table-Returns_example :
    Returns
      (expand_single_table machine copied 2 0)
      (λ out. (length out ≡ total_mult 0 copied) × All HasWidth out)
unfolding make_dist_padding mark_zero eq32 is_neg add32 trow_of
expand_single_table-Returns_example =
    expand_single_table-Returns HasWidth 2 (λ t. hlevel (ℕ_set)) (λ t i h. h) refl machine
      machine-Healthy machine-Lawful copied 0 (omega arith)
      ((omega arith, refl, λ dst. refl), ((omega arith, refl, λ dst. refl), tt)) refl

abbrev parts : TableDesc
parts = record { offset_rows = 0; num_rows = 1; num_cols = 1 }

abbrev orders : TableDesc
orders = record { offset_rows = 1; num_rows = 2; num_cols = 1 }

abbrev node_of : ℕ → ℕ → JoinNode
node_of table parent = record {
  table_idx = table;
  parent_idx = parent;
  join_col = 0;
  parent_join_col = 0;
  deviation1 = 0;
  equality1 = 1;
  deviation2 = 0;
  equality2 = 1;
}

abbrev tree : List JoinNode
tree = node_of 0 1 ∷ node_of 1 minus_one ∷ []

abbrev tables : List TableDesc
tables = parts ∷ orders ∷ []

abbrev stored : List Entry
stored = row 1 3 0 5 ∷ row 1 4 0 5 ∷ row 1 5 1 7 ∷ []

tree-PostOrder : PostOrder 0 tree
unfolding eq32
tree-PostOrder = ((λ v h k. ground (arith, h, k)), ((λ v h k. ground (arith, h, k)), tt))

preorder-fuel_example : (seq : List ℕ) × (preorder 2 tree 1 ≡ some seq)
preorder-fuel_example = preorder-fuel tree 2 1 tree-PostOrder (omega arith) (omega arith)

align_concat-no_root_example : align_concat machine [] (node_of 0 1 ∷ node_of 1 0 ∷ []) 0 ≡ err 0
unfolding is_neg
align_concat-no_root_example =
    align_concat-no_root machine [] (node_of 0 1 ∷ node_of 1 0 ∷ []) 0 (refl, (refl, tt))

abbrev wide_result : JoinResult
wide_result = record {
  rows =
      record { field_type = 1; join_attr = 0; attributes = 7 ∷ 3 ∷ [] }
      ∷ record { field_type = 1; join_attr = 0; attributes = 7 ∷ 2 ∷ [] }
      ∷ [];
  width = 2;
}

abbrev copy_of : ℕ → ℕ → Trow
copy_of original_index slot = record {
  join_attr = 0;
  field_type = 1;
  original_index = original_index;
  local_mult = 1;
  foreign_sum = 0;
  copy_index = 0;
  alignment_key = 0;
  final_mult = 1;
  dst_idx = 0;
  index = 0;
  attributes = slot ∷ [];
}

abbrev child_table : ExpandedTable
child_table = record { rows = copy_of 5 7 ∷ copy_of 5 7 ∷ []; width = 1 }

abbrev root_table : ExpandedTable
root_table = record {
  rows =
      record (copy_of 3 7) { attributes = 7 ∷ 3 ∷ [] }
      ∷ record (copy_of 4 7) { attributes = 7 ∷ 2 ∷ [] }
      ∷ [];
  width = 2;
}

abbrev all_tables : List ExpandedTable
all_tables = child_table ∷ root_table ∷ []
