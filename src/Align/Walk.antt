-- ===== src/Align/Walk.antt =====
-- The walk over the join tree: every attachment finds its rows and its columns.
use mathlib.Core.Path.{subst}
use mathlib.Core.Option.{some_inj}
use native.Mathlib.Nat.{mod-eq_of_lt}
use omwj.Prelude.{
  ℕ, ◌+◌, ◌%◌, ◌^◌, ◌≤◌, ◌<◌, ◌≡◌, refl, sym, ap, ◌∙◌, List, [], ◌∷◌, ◌++◌, map, some, arith,
}
use omwj.Prelude.Lists.{length, get_elem?, set, All, length-map}
use omwj.Prelude.Word.{modulus, add32}
use omwj.Entry.{JoinNode}
use omwj.Order.Sorted.{All-append, All-imp}
use omwj.Order.Carried.{All-Perm, length-Perm}
use omwj.Waksman.Switch.{get_elem?-set_ne}
use omwj.Distribute.{ExpandedTable}
use omwj.Runtime.{Runtime, Lawful, Healthy, Returns, defined, >>=-ok, defined-some}
use omwj.Align.Attach.{JoinResult, attach_child, children_from, attach_all, attach_nodes}
use omwj.Align.Joined.{Attached, attach_child-Returns}
use omwj.Align.Rows.{
  ResultRow, ChildRow, FullRow-prop, result_keyed, child_keyed, join_result_lem, join_child_lem,
  aligned_kept,
}
use omwj.Align.Ordered.{Ordered, All-Memᴰ}
use omwj.Align.Placed.{
  IsFull, IsTable, Beside-Full, get_elem?-bound, Edge, Placed, StillPlaced, table_width,
  width_after, width_after-le, final_width, final_width-le, set-StillPlaced,
}

module _ (tree : List JoinNode) (expanded : List ExpandedTable) (n : ℕ) where
  module _ (rt : Runtime) (healthy : Healthy rt) (lawful : Lawful rt) (small : n ≤ 2 ^ 57) where
    attach_child-Full :
        (res out : JoinResult) (child : ExpandedTable) (col join_col : ℕ)
        → IsFull n res
        → IsTable n child
        → col < res.width
        → join_col < child.width
        → Attached rt healthy lawful res child col join_col out
        → IsFull n out
    attach_child-Full res out child col join_col full table h k
          (left, right, (p, s), (p', s'), width, rows) =
        let (run, keyed) = join_result_lem res.width col res.rows h full.1 in
        let (run', keyed') = join_child_lem child.width join_col child.rows k table.1 in
        let ready = aligned_kept child.width (map (child_keyed join_col) child.rows) keyed' in
        let all_left = All-Perm (ResultRow res.width) (λ r. FullRow-prop _ _ _) p keyed in
        let all_right = All-Perm (ChildRow child.width) (λ t. FullRow-prop _ _ _) p' ready.0 in
        let (same, all) =
          Beside-Full res.width child.width left right out.rows all_left all_right rows in
        let count = same ∙ length-Perm p ∙ length-map (result_keyed col) res.rows ∙ full.0 in
        (count, rw width all)

    abbrev AfterAll : ℕ → List ℕ → List ℕ → (JoinResult × List ℕ) → Type 0
    AfterAll width col_off cs next =
        IsFull n next.0
        × (next.0.width ≡ width_after expanded width cs)
        × StillPlaced expanded width col_off next.0.width next.1
        × All (Placed expanded next.0.width next.1) cs

    -- The call's column is inside the result, as the columns of the parent are.
    attach_step :
        (v c : ℕ) (edge : Edge tree expanded n v c) (res : JoinResult) (w : rt.World) (col : ℕ)
        (parent : ExpandedTable)
        → IsFull n res
        → get_elem? expanded v ≡ some parent
        → col + parent.width ≤ res.width
        → res.width + edge.child.width < 2147483648
        → Returns
            (attach_child rt res edge.child
              (add32 col edge.node.parent_join_col)
              edge.node.join_col
              w)
            (λ merged. IsFull n merged × (merged.width ≡ res.width + edge.child.width))
    unfolding add32
    attach_step v c edge res w col parent full at_parent room fits =
        let join_col = edge.node.join_col in
        let parent_col = edge.node.parent_join_col in
        let same : parent ≡ edge.parent = some_inj.0 (sym at_parent ∙ edge.at_parent) in
        let above : parent_col < parent.width = rw same edge.parent_slot in
        let below : col + parent_col < res.width = omega (arith, room, above) in
        let sum : (col + parent_col) % modulus ≡ col + parent_col =
          mod-eq_of_lt (omega (arith, below, fits)) in
        let (merged, w1, run, attached) =
          attach_child-Returns rt healthy lawful res edge.child (col + parent_col) join_col w below
            edge.slot (full.0 ∙ sym edge.table.0) (omega (arith, full.0)) fits full.1
            edge.table.1 in
        let full' =
          attach_child-Full res merged edge.child (col + parent_col) join_col full edge.table below
            edge.slot attached in
        let (_, _, _, _, width, _) = attached in
        (
          merged,
          w1,
          ap (λ x. attach_child rt res edge.child x join_col w) sum ∙ run,
          (full', width),
        )

    attach_all-Returns :
        (v : ℕ) (cs : List ℕ) (res : JoinResult) (col_off : List ℕ) (w : rt.World)
        → All (Edge tree expanded n v) cs
        → IsFull n res
        → Placed expanded res.width col_off v
        → length col_off ≡ length tree
        → width_after expanded res.width cs < 2147483648
        → Returns (attach_all rt tree v cs expanded res col_off w) (AfterAll res.width col_off cs)
    unfolding attach_all
    attach_all-Returns v [] res col_off w edges full placed inside fits =
        ((res, col_off), w, refl, (full, refl, (refl, λ u h. h), tt))
    attach_all-Returns v (c ∷ cs) res col_off w edges full placed inside fits =
        let edge = edges.0 in
        let (col, parent, at_col, at_parent, room) = placed in
        let col_off' = set col_off c res.width in
        let wide : table_width expanded c ≡ edge.child.width =
          rw (edge.at_child, table_width) refl in
        let more = width_after-le expanded (res.width + table_width expanded c) cs in
        let at_col' : get_elem? col_off' v ≡ some col =
          get_elem?-set_ne col_off c v res.width (λ e. omega (arith, e, edge.before)) ∙ at_col in
        let (merged, w1, run, (full', width)) =
          attach_step v c edge res w col parent full at_parent room
            (omega (arith, more, fits, wide)) in
        let (kept, at_c) =
          set-StillPlaced tree expanded n v c res.width col_off edge
            (omega (arith, inside, get_elem?-bound tree c edge.at_node)) in
        let next : res.width + table_width expanded c ≡ merged.width = omega (arith, wide, width) in
        let move : (u : ℕ)
            → Placed expanded (res.width + edge.child.width) col_off' u
            → Placed expanded merged.width col_off' u =
          λ u h. subst (λ x. Placed expanded x col_off' u) (sym width) h in
        let (out, w2, rest, (full2, width2, kept2, placed2)) =
          attach_all-Returns v cs merged col_off' w1 edges.1 full' (move v (kept.1 v placed))
            (kept.0 ∙ inside) (subst (λ x. width_after expanded x cs < 2147483648) next fits) in
        (
          out,
          w2,
          >>=-ok (defined (get_elem? tree c)) _ (defined-some w edge.at_node) (
              >>=-ok (defined (get_elem? expanded c)) _ (defined-some w edge.at_child) (
                >>=-ok (defined (get_elem? col_off' v)) _ (defined-some w at_col')
                  (>>=-ok (attach_child rt res edge.child _ edge.node.join_col) _ run rest))),
          (
            full2,
            width2 ∙ ap (λ x. width_after expanded x cs) (sym next),
            (kept2.0 ∙ kept.0, λ u h. kept2.1 u (move u (kept.1 u h))),
            (kept2.1 c (move c at_c), placed2),
          ),
        )

    -- From a state in which the known nodes are placed, the walk attaches the children of each node.
    pub attach_nodes-Returns :
        (known seq : List ℕ) (res : JoinResult) (col_off : List ℕ) (w : rt.World)
        → Ordered tree known seq
        → All (λ v. All (Edge tree expanded n v) (children_from v 0 tree)) seq
        → IsFull n res
        → All (Placed expanded res.width col_off) known
        → length col_off ≡ length tree
        → final_width tree expanded res.width seq < 2147483648
        → Returns
            (attach_nodes rt tree expanded seq res col_off w)
            (λ out. IsFull n out × (out.width ≡ final_width tree expanded res.width seq))
    unfolding attach_nodes
    attach_nodes-Returns known [] res col_off w ordered edges full placed inside fits =
        (res, w, refl, (full, refl))
    attach_nodes-Returns known (v ∷ seq) res col_off w ordered edges full placed inside fits =
        let children = children_from v 0 tree in
        let later = final_width-le tree expanded (width_after expanded res.width children) seq in
        let (next, w1, run, (full', width, kept, placed')) =
          attach_all-Returns v children res col_off w edges.0 full
            (All-Memᴰ (Placed expanded res.width col_off) placed ordered.0) inside
            (omega (arith, later, fits)) in
        let known' =
          All-append (Placed expanded next.0.width next.1) children known placed'
            (All-imp (Placed expanded res.width col_off) _ kept.1 known placed) in
        let (out, w2, rest, (full2, width2)) =
          attach_nodes-Returns (children ++ known) seq next.0 next.1 w1 ordered.1 edges.1 full'
            known' (kept.0 ∙ inside)
            (subst (λ x. final_width tree expanded x seq < 2147483648) (sym width) fits) in
        (
          out,
          w2,
          >>=-ok (attach_all rt tree v children expanded res col_off) _ run rest,
          (full2, width2 ∙ ap (λ x. final_width tree expanded x seq) width),
        )
