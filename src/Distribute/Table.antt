-- ===== src/Distribute/Table.antt =====
-- expand_single_table and distribute_expand of enclave/trusted/join/distribute.c.
use omwj.Prelude.{zero, suc, ℕ, ◌*◌, ◌%◌, List, [], ◌∷◌, map}
use omwj.Prelude.Tests.{◌==◌, if◌then◌else◌}
use omwj.Prelude.Lists.{length, get_elem?, linear_pass}
use omwj.Entry.{Entry, TableDesc, JoinNode}
use omwj.Swap.{modulus64}
use omwj.Trow.{Trow, t_cmp_dist_padding_last, trow_make_pad}
use omwj.Runtime.{Runtime, M, pure, ◌>>=◌, ◌>>◌, defined, reserve}
use omwj.Sort.{ej_osort_g}
use omwj.BottomUp.Tree.{table_rows}
use omwj.Distribute.{
  trow_stride, build_work, size_of, mark_zero, resize, number_slots, network, expand_step,
  ExpandedTable,
}

module _ (rt : Runtime) where
  -- Steps 1 to 6, from the marked work array on.
  unfoldable pub expand_work : ℕ → ℕ → List Trow → M rt.World (List Trow)
  expand_work width output_size work = do
    sorted ← ej_osort_g rt (trow_stride width) t_cmp_dist_padding_last (trow_make_pad width) work
    reserve rt (output_size * trow_stride width % modulus64)
    spread ← defined (network output_size (number_slots 0 (resize width output_size sorted)))
    pure (linear_pass expand_step spread)

  -- expand_single_table: the rows of the expanded table, or the error return
  unfoldable pub expand_single_table : List Entry → ℕ → M rt.World (List Trow)
  expand_single_table rows width = if length rows == 0 then pure [] else do
    reserve rt (length rows * trow_stride width)
    built ← defined (build_work width 0 rows)
    let output_size = size_of built.1
    if output_size == 0 then pure [] else expand_work width output_size (map mark_zero built.0)

  -- distribute_expand: a table for each node, in the tree's order, or the error return
  unfoldable pub distribute_expand :
      List Entry → List TableDesc → List JoinNode → M rt.World (List ExpandedTable)
  unfolding expand_single_table
  distribute_expand rows descs [] = pure []
  distribute_expand rows descs (node ∷ tree) = do
    desc ← defined (get_elem? descs node.table_idx)
    table ← defined (table_rows desc rows)
    expanded ← expand_single_table table desc.num_cols
    rest ← distribute_expand rows descs tree
    pure (record { rows = expanded; width = desc.num_cols } ∷ rest)

-- free_expanded: the first tables lose their rows.
unfoldable pub free_expanded : ℕ → List ExpandedTable → List ExpandedTable
free_expanded zero out = out
free_expanded (suc num_nodes) [] = []
free_expanded (suc num_nodes) (table ∷ out) =
    record table { rows = [] } ∷ free_expanded num_nodes out
