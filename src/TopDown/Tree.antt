-- ===== src/TopDown/Tree.antt =====
-- top_down of enclave/trusted/join/top_down.c: the rows of the root, and then the edges of the join
-- tree against post-order. An access out of bounds is a fault.
use omwj.Prelude.{ℕ, zero, suc, ◌+◌, ◌%◌, List, [], ◌∷◌, Option, none, some}
use omwj.Prelude.Tests.{if◌then◌else◌}
use omwj.Prelude.Lists.{get_elem?, set}
use omwj.Prelude.Word.{modulus, is_neg}
use omwj.Entry.{Entry, TableDesc, JoinNode}
use omwj.Runtime.{Runtime, M, pure, ◌>>=◌, defined}
use omwj.BottomUp.Tree.{table_rows, with_table}
use omwj.TopDown.{compute_final_mult}

-- the body of the root's loop
unfoldable pub root_row : Entry → Entry
root_row e = record e {
  final_mult = e.local_mult;
  foreign_sum = 0;
  foreign_interval = 0;
  local_weight = 0;
}

-- the loop over a root's rows, from row r on
unfoldable pub root_rows : ℕ → ℕ → ℕ → List Entry → Option (List Entry)
root_rows zero r first rows = some rows
root_rows (suc n) r first rows =
    let at_row = (first + r) % modulus in
    elim (get_elem? rows at_row) [
      | none ↦ none
      | some e ↦ root_rows n (suc r) first (set rows at_row (root_row e))
    ]

-- the loop over the nodes that initialises each root
unfoldable pub init_roots : List TableDesc → List JoinNode → List Entry → Option (List Entry)
unfolding root_rows
init_roots descs [] rows = some rows
init_roots descs (node ∷ nodes) rows =
    if is_neg node.parent_idx
    then elim (get_elem? descs node.table_idx) [
      | none ↦ none
      | some desc ↦ elim (root_rows desc.num_rows 0 desc.offset_rows rows) [
        | none ↦ none
        | some rows' ↦ init_roots descs nodes rows'
      ]
    ]
    else init_roots descs nodes rows

module _ (rt : Runtime) (tree : List JoinNode) (descs : List TableDesc) where
  -- the body of the loop over the nodes, for a node that is not the root
  unfoldable pub down_edge : JoinNode → List Entry → M rt.World (List Entry)
  down_edge node rows = do
    parent_node ← defined (get_elem? tree node.parent_idx)
    parent_desc ← defined (get_elem? descs parent_node.table_idx)
    child_desc ← defined (get_elem? descs node.table_idx)
    parent ← defined (table_rows parent_desc rows)
    child ← defined (table_rows child_desc rows)
    out ←
        compute_final_mult node.parent_join_col node.join_col node.deviation1 node.equality1
          node.deviation2 node.equality2 rt parent child
    pure (with_table child_desc out rows)

  -- The nodes from the last to the first.
  unfoldable pub down_edges : List JoinNode → List Entry → M rt.World (List Entry)
  down_edges [] rows = pure rows
  down_edges (node ∷ nodes) rows = do
    rows' ← down_edges nodes rows
    if is_neg node.parent_idx then pure rows' else down_edge node rows'

  -- top_down: the rows with their final multiplicities, or the error return
  unfoldable pub top_down : List Entry → M rt.World (List Entry)
  top_down rows = do ready ← defined (init_roots descs tree rows); down_edges tree ready
