-- ===== src/BottomUp/Tree.antt =====
-- bottom_up of enclave/trusted/join/bottom_up.c: the rows of all tables in one array, initialised,
-- and then the edges of the join tree in post-order. An access out of bounds is a fault.
use omwj.Prelude.{ℕ, zero, suc, ◌+◌, ◌%◌, List, [], ◌∷◌, ◌++◌, Option, none, some}
use omwj.Prelude.Tests.{leb, if◌then◌else◌}
use omwj.Prelude.Lists.{length, get_elem?, set, take, drop}
use omwj.Prelude.Word.{modulus, is_neg}
use omwj.Constants.{null_value}
use omwj.Entry.{Entry, TableDesc, JoinNode}
use omwj.Runtime.{Runtime, M, pure, ◌>>=◌, defined}
use omwj.BottomUp.{compute_local_mult}

-- the body of the initialisation for row r of a table
unfoldable pub init_row : ℕ → Entry → Entry
init_row r e = record e {
  field_type = null_value;
  equality_type = null_value;
  original_index = r;
  local_mult = 1;
  final_mult = 0;
  foreign_sum = 0;
  local_cumsum = 0;
  local_interval = 0;
  foreign_interval = 0;
  local_weight = 0;
  copy_index = 0;
  alignment_key = 0;
  dst_idx = 0;
  index = 0;
}

-- the loop over a table's rows, from row r on
unfoldable pub init_rows : ℕ → ℕ → ℕ → List Entry → Option (List Entry)
init_rows zero r first rows = some rows
init_rows (suc n) r first rows =
    let at_row = (first + r) % modulus in
    elim (get_elem? rows at_row) [
      | none ↦ none
      | some e ↦ init_rows n (suc r) first (set rows at_row (init_row r e))
    ]

-- the loop over the tables
unfoldable pub init_tables : List TableDesc → List Entry → Option (List Entry)
unfolding init_rows
init_tables [] rows = some rows
init_tables (desc ∷ descs) rows = elim (init_rows desc.num_rows 0 desc.offset_rows rows) [
  | none ↦ none
  | some rows' ↦ init_tables descs rows'
]

-- the rows of a table
unfoldable pub table_rows : TableDesc → List Entry → Option (List Entry)
table_rows desc rows =
    if leb (desc.offset_rows + desc.num_rows) (length rows)
    then some (take desc.num_rows (drop desc.offset_rows rows))
    else none

-- the array with a table's rows replaced
unfoldable pub with_table : TableDesc → List Entry → List Entry → List Entry
with_table desc new rows =
    take desc.offset_rows rows ++ (new ++ drop (desc.offset_rows + desc.num_rows) rows)

module _ (rt : Runtime) (tree : List JoinNode) (descs : List TableDesc) where
  -- the body of the loop over the nodes, for a node that is not the root
  unfoldable pub edge : JoinNode → List Entry → M rt.World (List Entry)
  edge node rows = do
    parent_node ← defined (get_elem? tree node.parent_idx)
    parent_desc ← defined (get_elem? descs parent_node.table_idx)
    child_desc ← defined (get_elem? descs node.table_idx)
    parent ← defined (table_rows parent_desc rows)
    child ← defined (table_rows child_desc rows)
    out ←
        compute_local_mult node.parent_join_col node.join_col node.deviation1 node.equality1
          node.deviation2 node.equality2 rt parent child
    pure (with_table parent_desc out rows)

  unfoldable pub edges : List JoinNode → List Entry → M rt.World (List Entry)
  edges [] rows = pure rows
  edges (node ∷ nodes) rows = do
    rows' ← if is_neg node.parent_idx then pure rows else edge node rows
    edges nodes rows'

  -- bottom_up: the rows with their multiplicities, or the error return
  unfoldable pub bottom_up : List Entry → M rt.World (List Entry)
  bottom_up rows = do ready ← defined (init_tables descs rows); edges tree ready
