-- ===== src/Align/Attach.antt =====
-- attach_child, preorder and align_concat of enclave/trusted/join/align.c.
use omwj.Prelude.{ℕ, zero, suc, ◌*◌, ◌%◌, List, [], ◌∷◌, ◌++◌, map, Option, none, some}
use omwj.Prelude.Tests.{leb, ◌==◌, if◌then◌else◌}
use omwj.Prelude.Lists.{length, get_elem?, set, replicate}
use omwj.Prelude.Word.{modulus, eq32, add32, is_neg}
use omwj.Entry.{JoinNode}
use omwj.Swap.{modulus64}
use omwj.Trow.{Rrow, t_cmp_alignment_key, rr_cmp_join_then_other, trow_make_pad, rrow_make_pad}
use omwj.Runtime.{Runtime, M, pure, ◌>>=◌, ◌>>◌, defined, reserve, err}
use omwj.Sort.{ej_osort_g}
use omwj.Distribute.{trow_stride, ExpandedTable}
use omwj.Align.{rrow_stride, to_rrow, join_result, join_child, number_copies, set_alignment, beside}

-- The accumulated result.
pub record JoinResult : Type 0 where
  pub rows : List Rrow
  pub width : ℕ

-- the nodes of the tree, from node c on, whose parent is v
unfoldable pub children_from : ℕ → ℕ → List JoinNode → List ℕ
children_from v c [] = []
children_from v c (node ∷ nodes) =
    let rest = children_from v (suc c) nodes in
    if eq32 node.parent_idx (v % modulus) then c ∷ rest else rest

-- what a call emits for each node of a list in turn
unfoldable pub in_turn : (ℕ → Option (List ℕ)) → List ℕ → Option (List ℕ)
in_turn emit [] = some []
in_turn emit (c ∷ cs) = elim (emit c) [
  | none ↦ none
  | some seq ↦ elim (in_turn emit cs) [ none ↦ none | some rest ↦ some (seq ++ rest) ]
]

-- preorder: a node and, in the tree's order, what its children emit
unfoldable pub preorder : ℕ → List JoinNode → ℕ → Option (List ℕ)
unfolding children_from in_turn
preorder zero tree node = none
preorder (suc fuel) tree node = elim (in_turn (preorder fuel tree) (children_from node 0 tree)) [
  | none ↦ none
  | some seq ↦ some (node ∷ seq)
]

-- the nodes that preorder writes to the array of as many slots as the tree has nodes
unfoldable pub emitted : List JoinNode → ℕ → Option (List ℕ)
emitted tree root = elim (preorder (suc (length tree)) tree root) [
  | none ↦ none
  | some seq ↦ if leb (length seq) (length tree) then some seq else none
]

-- the last node without a parent, or `root` as it was
unfoldable pub find_root : ℕ → ℕ → List JoinNode → ℕ
find_root root k [] = root
find_root root k (node ∷ nodes) =
    if is_neg node.parent_idx then find_root k (suc k) nodes else find_root root (suc k) nodes

module _ (rt : Runtime) where
  unfoldable pub attach_child : JoinResult → ExpandedTable → ℕ → ℕ → M rt.World JoinResult
  attach_child res child parent_col_global join_col = do
    keyed ← defined (join_result parent_col_global res.rows)
    child_keyed ← defined (join_child join_col child.rows)
    rows ←
        ej_osort_g rt (rrow_stride res.width) (rr_cmp_join_then_other res.width)
          (rrow_make_pad res.width) keyed
    copies ←
        ej_osort_g rt (trow_stride child.width) t_cmp_alignment_key (trow_make_pad child.width)
          (map set_alignment (number_copies child_keyed))
    let new_width = add32 res.width child.width
    reserve rt (length rows * rrow_stride new_width % modulus64)
    merged ← defined (beside res.width child.width rows copies)
    pure (record { rows = merged; width = new_width })

  -- The children of v from node c on are attached, each at the column where the result then ends.
  unfoldable pub attach_all :
      List JoinNode
      → ℕ
      → List ℕ
      → List ExpandedTable
      → JoinResult
      → List ℕ
      → M rt.World (JoinResult × List ℕ)
  unfolding attach_child
  attach_all tree v [] expanded res col_off = pure (res, col_off)
  attach_all tree v (c ∷ cs) expanded res col_off = do
    node ← defined (get_elem? tree c)
    child ← defined (get_elem? expanded c)
    let col_off' = set col_off c res.width
    col_v ← defined (get_elem? col_off' v)
    merged ← attach_child res child (add32 col_v node.parent_join_col) node.join_col
    attach_all tree v cs expanded merged col_off'

  unfoldable pub attach_nodes :
      List JoinNode → List ExpandedTable → List ℕ → JoinResult → List ℕ → M rt.World JoinResult
  unfolding attach_all
  attach_nodes tree expanded [] res col_off = pure res
  attach_nodes tree expanded (v ∷ seq) res col_off = do
    next ← attach_all tree v (children_from v 0 tree) expanded res col_off
    attach_nodes tree expanded seq next.0 next.1

  -- The root's table becomes the result, and the other nodes follow.
  unfoldable pub align_from : List JoinNode → List ExpandedTable → ℕ → M rt.World JoinResult
  align_from tree expanded root = do
    reserve rt (length tree * 8)
    reserve rt (length tree * 4)
    seq ← defined (emitted tree root)
    table ← defined (get_elem? expanded root)
    reserve rt (length table.rows * rrow_stride table.width % modulus64)
    let res : JoinResult = record {
      rows = map (to_rrow table.width) table.rows;
      width = table.width;
    }
    attach_nodes tree expanded seq res (replicate (length tree) 0)

  -- align_concat: the joined rows, or the error return
  unfoldable pub align_concat : List ExpandedTable → List JoinNode → M rt.World JoinResult
  unfolding align_from find_root
  align_concat expanded tree =
      let root = find_root (length tree) 0 tree in
      if root == length tree then err else align_from tree expanded root
