-- ===== src/BottomUp/Walk.antt =====
-- bottom_up returns: every edge stays in bounds and changes nothing but multiplicities.
use mathlib.Core.Path.{subst}
use omwj.Prelude.{
  ◌⊎◌, ℕ, ◌≡◌, refl, sym, ap, ◌∙◌, true, false, List, [], ◌∷◌, map, some, inl, inr, arith,
}
use omwj.Prelude.Tests.{if◌then◌else◌, Bool-cases}
use omwj.Prelude.Lists.{length, All, get_elem?, take, drop, length-map}
use omwj.Prelude.Word.{is_neg}
use omwj.Entry.{Entry, TableDesc, JoinNode}
use omwj.Entry.Slots.{IsWhole, table-HasSlot, map-IsWhole}
use omwj.Runtime.{Runtime, Lawful, Healthy, Returns, pure, defined, defined-some, >>=-ok}
use omwj.BottomUp.{compute_local_mult}
use omwj.BottomUp.Returns.{unmultiplied, compute_local_mult-Returns}
use omwj.BottomUp.Tree.{init_tables, table_rows, with_table, edge, edges, bottom_up}
use omwj.BottomUp.Bounds.{
  Inside, EdgeInside, init_tables-ok, with_table-kept, length-take-drop, table_rows-ok,
}

module _ (rt : Runtime) (healthy : Healthy rt) (lawful : Lawful rt) (tree : List JoinNode)
    (descs : List TableDesc) where
  abbrev Unchanged : List Entry → List Entry → Type 0
  Unchanged rows out = map unmultiplied out ≡ map unmultiplied rows

  same_size : (rows out : List Entry) → Unchanged rows out → length out ≡ length rows
  same_size rows out h =
      sym (length-map unmultiplied out) ∙ ap length h ∙ length-map unmultiplied rows

  edge-Returns :
      (node : JoinNode) (rows : List Entry) (w : rt.World)
      → EdgeInside tree descs (length rows) node
      → All IsWhole rows
      → Returns (edge rt tree descs node rows w) (λ out. Unchanged rows out)
  unfolding edge
  edge-Returns node rows w (pn, pd, cd, at_parent, at_desc, at_child, pin, cin, small, col, col')
        whole =
      let parent = take pd.num_rows (drop pd.offset_rows rows) in
      let child = take cd.num_rows (drop cd.offset_rows rows) in
      let size_p = length-take-drop pd.offset_rows pd.num_rows rows pin.0 in
      let size_c = length-take-drop cd.offset_rows cd.num_rows rows cin.0 in
      let (out, w', run, kept) =
        compute_local_mult-Returns rt healthy lawful node.parent_join_col node.join_col
          node.deviation1 node.equality1 node.deviation2 node.equality2 parent child
          (omega (arith, size_p, size_c, small))
          (table-HasSlot node.join_col cd.offset_rows cd.num_rows rows col whole)
          (table-HasSlot node.parent_join_col pd.offset_rows pd.num_rows rows col' whole) w in
      (
        with_table pd out rows,
        w',
        >>=-ok (defined (get_elem? tree node.parent_idx)) _ (defined-some w at_parent) (
            >>=-ok (defined (get_elem? descs pn.table_idx)) _ (defined-some w at_desc) (
              >>=-ok (defined (get_elem? descs node.table_idx)) _ (defined-some w at_child) (
                >>=-ok (defined (table_rows pd rows)) _
                  (defined-some w (table_rows-ok pd rows pin.0))
                  (>>=-ok (defined (table_rows cd rows)) _
                    (defined-some w (table_rows-ok cd rows cin.0))
                    (>>=-ok
                      (compute_local_mult node.parent_join_col node.join_col node.deviation1
                        node.equality1 node.deviation2 node.equality2 rt parent child)
                      _ run refl))))),
        with_table-kept unmultiplied pd rows out kept,
      )

  -- Every node is the root, or has its parent and tables.
  abbrev pub TreeInside : ℕ → List JoinNode → Type 0
  TreeInside size nodes =
      All (λ node. is_neg node.parent_idx ≡ false → EdgeInside tree descs size node) nodes

  edges-Returns :
      (nodes : List JoinNode) (rows : List Entry) (w : rt.World)
      → TreeInside (length rows) nodes
      → All IsWhole rows
      → Returns (edges rt tree descs nodes rows w) (λ out. Unchanged rows out)
  unfolding edges
  edges-Returns [] rows w h whole = (rows, w, refl, refl)
  edges-Returns (node ∷ nodes) rows w h whole =
      let (mid, w1, run, kept) = first (Bool-cases (is_neg node.parent_idx)) in
      let inside = subst (λ k. TreeInside k nodes) (sym (same_size rows mid kept)) h.1 in
      let (out, w2, rest, kept') =
        edges-Returns nodes mid w1 inside
          (map-IsWhole unmultiplied (λ e. refl) rows mid kept whole) in
      (
        out,
        w2,
        >>=-ok (if is_neg node.parent_idx then pure rows else edge rt tree descs node rows) _ run
            rest,
        kept' ∙ kept,
      )
    where
      first :
          (is_neg node.parent_idx ≡ true) ⊎ (is_neg node.parent_idx ≡ false)
          → Returns
              ((if is_neg node.parent_idx then pure rows else edge rt tree descs node rows) w)
              (λ out. Unchanged rows out)
      first (inl root) = (rows, w, rw root refl, refl)
      first (inr child) =
          let (out, w', run, kept) = edge-Returns node rows w (h.0 child) whole in
          (out, w', rw child run, kept)

  -- With memory left, a working generator and a lawful qsort, let every table lie inside the array of
  -- rows, which an index of 32 bits reaches, let every node but the root name a parent and tables that
  -- are there and join columns below 64, let every row have its 64 slots, and let no edge have more than
  -- 2 ^ 57 records. Then bottom_up returns without an
  -- error or an access out of bounds, and its result is the array that the initialisation gives with at
  -- most local_mult changed.
  pub bottom_up-Returns :
      (rows : List Entry) (w : rt.World)
      → All (Inside (length rows)) descs
      → TreeInside (length rows) tree
      → All IsWhole rows
      → Returns (bottom_up rt tree descs rows w) (λ out.
        (ready : List Entry) × (init_tables descs rows ≡ some ready)
        × (map unmultiplied out ≡ map unmultiplied ready))
  unfolding bottom_up
  bottom_up-Returns rows w tables nodes whole =
      let (ready, begun, (size, kept_slots)) = init_tables-ok descs rows tables in
      let (out, w', run, kept) =
        edges-Returns tree ready w (subst (λ k. TreeInside k tree) (sym size) nodes)
          (kept_slots whole) in
      (
        out,
        w',
        >>=-ok (defined (init_tables descs rows)) _ (defined-some w begun) run,
        (ready, begun, kept),
      )
