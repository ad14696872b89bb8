-- ===== src/Align/Placed.antt =====
-- The columns of a node in the result, and the widths that the attachments leave.
use mathlib.Core.Option.{none-ne-some}
use omwj.Prelude.{
  ℕ, zero, suc, ◌+◌, ◌≤◌, ◌<◌, ◌≡◌, ◌≢◌, refl, ap, ◌∙◌, List, [], ◌∷◌, none, some, inl, inr, arith,
}
use omwj.Prelude.Tests.{◌==◌, Bool-cases}
use omwj.Prelude.Lists.{length, get_elem?, get_elem?-lt, set, length-set, All, length-append}
use omwj.Entry.{JoinNode}
use omwj.Trow.{Trow, Rrow}
use omwj.Waksman.Switch.{get_elem?-set_ne}
use omwj.Distribute.{ExpandedTable}
use omwj.Distribute.Routes.{get_elem?-set}
use omwj.Align.Attach.{JoinResult, children_from}
use omwj.Align.Rows.{ResultRow, ChildRow, Beside}

-- As many rows as every table has, each with all its slots.
abbrev pub IsFull : ℕ → JoinResult → Type 0
IsFull n res = (length res.rows ≡ n) × All (ResultRow res.width) res.rows

abbrev pub IsTable : ℕ → ExpandedTable → Type 0
IsTable n table = (length table.rows ≡ n) × All (ChildRow table.width) table.rows

pub Beside-Full :
    (width child_width : ℕ) (left : List Rrow) (right : List Trow) (out : List Rrow)
    → All (ResultRow width) left
    → All (ChildRow child_width) right
    → Beside left right out
    → (length out ≡ length left) × All (ResultRow (width + child_width)) out
Beside-Full width child_width [] right [] full full' b = (refl, tt)
Beside-Full width child_width [] right (r ∷ out) full full' b = absurd b
Beside-Full width child_width (a ∷ left) [] out full full' b = absurd b
Beside-Full width child_width (a ∷ left) (c ∷ right) [] full full' b = absurd b
Beside-Full width child_width (a ∷ left) (c ∷ right) (r ∷ out) full full' b =
    let (same, rest) = Beside-Full width child_width left right out full.1 full'.1 b.1 in
    let slots = length-append a.attributes c.attributes in
    let row : ResultRow (width + child_width) r =
      rw (b.0) (full.0.0, omega (arith, slots, full.0.1, full'.0.1)) in
    (ap suc same, (row, rest))

pub get_elem?-bound :
    {A : Type 0} (xs : List A) (i : ℕ) {x : A} → get_elem? xs i ≡ some x → i < length xs
get_elem?-bound [] i {x} e = absurd (none-ne-some x e)
get_elem?-bound (x ∷ xs) zero e = omega arith
get_elem?-bound (x ∷ xs) (suc i) e = omega (arith, get_elem?-bound xs i e)

module _ (expanded : List ExpandedTable) where
  -- The columns of node v lie inside the result.
  abbrev pub Placed : ℕ → List ℕ → ℕ → Type 0
  Placed width col_off v =
      (col : ℕ) × (table : ExpandedTable) × (get_elem? col_off v ≡ some col)
      × (get_elem? expanded v ≡ some table)
      × (col + table.width ≤ width)

  abbrev pub StillPlaced : ℕ → List ℕ → ℕ → List ℕ → Type 0
  StillPlaced width col_off width' col_off' =
      (length col_off' ≡ length col_off)
      × ((u : ℕ) → Placed width col_off u → Placed width' col_off' u)

  abbrev pub table_width : ℕ → ℕ
  table_width c = elim (get_elem? expanded c) [ none ↦ 0 | some table ↦ table.width ]

  -- The width after the tables of some nodes are attached.
  abbrev pub width_after : ℕ → List ℕ → ℕ
  width_after width [] = width
  width_after width (c ∷ cs) = width_after (width + table_width c) cs

  pub width_after-le : (width : ℕ) (cs : List ℕ) → width ≤ width_after width cs
  width_after-le width [] = omega arith
  width_after-le width (c ∷ cs) = omega (arith, width_after-le (width + table_width c) cs)

module _ (tree : List JoinNode) (expanded : List ExpandedTable) where
  -- The width after the children of some nodes are attached.
  abbrev pub final_width : ℕ → List ℕ → ℕ
  final_width width [] = width
  final_width width (v ∷ seq) =
      final_width (width_after expanded width (children_from v 0 tree)) seq

  pub final_width-le : (width : ℕ) (seq : List ℕ) → width ≤ final_width width seq
  final_width-le width [] = omega arith
  final_width-le width (v ∷ seq) =
      let next = width_after expanded width (children_from v 0 tree) in
      omega (arith, width_after-le expanded width (children_from v 0 tree), final_width-le next seq)

module _ (tree : List JoinNode) (expanded : List ExpandedTable) (n : ℕ) where
  -- Node c comes before its parent v, has a full table, and joins in slots of the two tables.
  pub record Edge (v c : ℕ) : Type 0 where
    pub node : JoinNode
    pub child : ExpandedTable
    pub parent : ExpandedTable
    pub before : c < v
    pub at_node : get_elem? tree c ≡ some node
    pub at_child : get_elem? expanded c ≡ some child
    pub at_parent : get_elem? expanded v ≡ some parent
    pub table : IsTable n child
    pub slot : node.join_col < child.width
    pub parent_slot : node.parent_join_col < parent.width

  -- A node's columns begin where the result ended, and its table's slots follow.
  pub set-StillPlaced :
      (v c width : ℕ) (col_off : List ℕ) (edge : Edge v c)
      → c < length col_off
      → StillPlaced expanded width col_off (width + edge.child.width) (set col_off c width)
        × Placed expanded (width + edge.child.width) (set col_off c width) c
  set-StillPlaced v c width col_off edge inside = ((length-set col_off c width, kept), at_c)
    where
      at_c : Placed expanded (width + edge.child.width) (set col_off c width) c
      at_c =
          let (old, found) = get_elem?-lt col_off c inside in
          (width, edge.child, get_elem?-set col_off c width found, edge.at_child, omega arith)

      kept :
          (u : ℕ)
          → Placed expanded width col_off u
          → Placed expanded (width + edge.child.width) (set col_off c width) u
      kept u (col, table, at_col, at_table, fits) = elim (Bool-cases (c == u)) [
        | inl same ↦ let e : c ≡ u = ground (arith, same) in rw (← e) at_c
        | inr other ↦
            let apart : c ≢ u = λ e. ground (arith, other, e) in
            (col, table, get_elem?-set_ne col_off c u width apart ∙ at_col, at_table, omega arith)
      ]
