-- ===== src/TopDown/Walk.antt =====
-- top_down ends: every edge stays in bounds, and changes only final multiplicities and sums unless its
-- division traps.
use omwj.Prelude.{ℕ, ◌+◌, ◌*◌, ◌^◌, ◌≤◌, ◌<◌, ◌≡◌, false, List, map, some}
use omwj.Prelude.Lists.{All, get_elem?}
use omwj.Prelude.Word.{is_neg}
use omwj.Entry.{Entry, TableDesc, JoinNode}
use omwj.Runtime.{Runtime, Lawful, Healthy}
use omwj.BottomUp.Bounds.{Inside}
use omwj.TopDown.Returns.{unshared}

-- A node whose parent and tables are there, with at most 2 ^ 57 records in the combined array, and
-- whose join columns are slots.
abbrev pub DownInside : List JoinNode → List TableDesc → ℕ → JoinNode → Type 0
DownInside tree descs size node =
    (parent_node : JoinNode) × (parent_desc : TableDesc) × (child_desc : TableDesc) × (get_elem?
        tree node.parent_idx
      ≡ some parent_node)
    × (get_elem? descs parent_node.table_idx ≡ some parent_desc)
    × (get_elem? descs node.table_idx ≡ some child_desc)
    × Inside size parent_desc
    × Inside size child_desc
    × (parent_desc.num_rows + 2 * child_desc.num_rows ≤ 2 ^ 57)
    × (node.join_col < 64)
    × (node.parent_join_col < 64)

module _ (rt : Runtime) (healthy : Healthy rt) (lawful : Lawful rt) (tree : List JoinNode)
    (descs : List TableDesc) where
  abbrev Unchanged : List Entry → List Entry → Type 0
  Unchanged rows out = map unshared out ≡ map unshared rows

  -- Every node is a root, or has its parent and tables.
  abbrev pub NodesInside : ℕ → List JoinNode → Type 0
  NodesInside size nodes =
      All (λ node. is_neg node.parent_idx ≡ false → DownInside tree descs size node) nodes
