-- ===== src/Align/Joined.antt =====
-- attach_child returns, and sets the sorted copies of the child beside the sorted result.
use native.Mathlib.Nat.{mod-eq_of_lt}
use omwj.Prelude.{ℕ, ◌+◌, ◌*◌, ◌%◌, ◌^◌, ◌≤◌, ◌<◌, ◌≡◌, refl, ◌∙◌, List, map, Perm, arith}
use omwj.Prelude.Lists.{length, All, length-map}
use omwj.Prelude.Word.{add32, eq32, skey-lt}
use omwj.Order.{pad_rank}
use omwj.Order.Carried.{All-Perm, length-Perm}
use omwj.Order.Sorted.{IsSorted, All-imp}
use omwj.Swap.{modulus64}
use omwj.Trow.{
  Trow, Rrow, t_cmp_alignment_key, rr_cmp_join_then_other, trow_make_pad, rrow_make_pad,
}
use omwj.Trow.Orders.{alignment_rank, t_cmp_alignment_key-Agrees}
use omwj.Trow.Wide.{wide_rank, wide_rank-lt, rr_cmp_join_then_other-Agrees, pad-wide_top}
use omwj.Runtime.{Runtime, Lawful, Healthy, Returns, defined, reserve, >>=-ok, defined-some}
use omwj.Sort.{ej_osort_g}
use omwj.Sort.Laws.{ej_osort_g-sorts}
use omwj.Distribute.{trow_stride, ExpandedTable}
use omwj.Distribute.Stride.{trow_stride-bounds}
use omwj.BottomUp.Returns.{reserve_ok}
use omwj.Align.{rrow_stride, join_result, join_child, number_copies, set_alignment, beside}
use omwj.Align.Attach.{JoinResult, attach_child}
use omwj.Align.Rows.{
  ResultRow, ChildRow, result_keyed, child_keyed, Beside, join_result_lem, join_child_lem,
  aligned_kept, beside-Beside, FullRow-prop,
}

alignment_rank-lt : (width : ℕ) (t : Trow) → ChildRow width t → alignment_rank t < pad_rank
unfolding alignment_rank
alignment_rank-lt width t full =
    ground (arith, full.0, skey-lt t.alignment_key, skey-lt t.original_index, skey-lt t.copy_index)

module _ (rt : Runtime) (healthy : Healthy rt) (lawful : Lawful rt) (res : JoinResult)
    (child : ExpandedTable) (parent_col_global join_col : ℕ) where
  -- The rows of `out` come from an order that each of the two sorts may return.
  abbrev pub Attached : JoinResult → Type 0
  Attached out =
      (left : List Rrow) × (right : List Trow) × (Perm left
          (map (result_keyed parent_col_global) res.rows)
        × IsSorted (wide_rank res.width) left)
      × (Perm right (map set_alignment (number_copies (map (child_keyed join_col) child.rows)))
          × IsSorted alignment_rank right)
      × (out.width ≡ res.width + child.width)
      × Beside left right out.rows

  result-IsSorted :
      (w : rt.World)
      → length res.rows ≤ 2 ^ 57
      → All (ResultRow res.width) (map (result_keyed parent_col_global) res.rows)
      → Returns
          (ej_osort_g rt
            (rrow_stride res.width)
            (rr_cmp_join_then_other res.width)
            (rrow_make_pad res.width)
            (map (result_keyed parent_col_global) res.rows)
            w)
          (λ left.
            (Perm left (map (result_keyed parent_col_global) res.rows)
              × IsSorted (wide_rank res.width) left)
            × (All (ResultRow res.width) left × (length left ≡ length res.rows)))
  unfolding rrow_stride
  result-IsSorted w small full =
      let keyed = map (result_keyed parent_col_global) res.rows in
      let same = length-map (result_keyed parent_col_global) res.rows in
      let (left, w', e, good) =
        ej_osort_g-sorts rt healthy lawful (rrow_stride res.width)
          (rr_cmp_join_then_other res.width) (wide_rank res.width) (rrow_make_pad res.width)
          (rr_cmp_join_then_other-Agrees res.width) (pad-wide_top res.width) keyed w (omega arith)
          (omega (arith, same))
          (All-imp (ResultRow res.width) _ (λ r h. wide_rank-lt res.width r h.0) keyed full) in
      let kept = All-Perm (ResultRow res.width) (λ r. FullRow-prop _ _ _) good.0 full in
      (left, w', e, (good, (kept, length-Perm good.0 ∙ same)))

  child-IsSorted :
      (w : rt.World) (copies : List Trow)
      → length copies ≤ 2 ^ 57
      → All (ChildRow child.width) copies
      → Returns
          (ej_osort_g rt
            (trow_stride child.width)
            t_cmp_alignment_key
            (trow_make_pad child.width)
            copies
            w)
          (λ right.
            (Perm right copies × IsSorted alignment_rank right)
            × (All (ChildRow child.width) right × (length right ≡ length copies)))
  unfolding alignment_rank eq32
  child-IsSorted w copies small full =
      let (low, high, aligned) = trow_stride-bounds child.width in
      let (right, w', e, good) =
        ej_osort_g-sorts rt healthy lawful (trow_stride child.width) t_cmp_alignment_key
          alignment_rank (trow_make_pad child.width) t_cmp_alignment_key-Agrees refl copies w
          aligned small
          (All-imp (ChildRow child.width) _ (alignment_rank-lt child.width) copies full) in
      let kept = All-Perm (ChildRow child.width) (λ t. FullRow-prop _ _ _) good.0 full in
      (right, w', e, (good, (kept, length-Perm good.0)))

  pub attach_child-Returns :
      (w : rt.World)
      → parent_col_global < res.width
      → join_col < child.width
      → length res.rows ≡ length child.rows
      → length res.rows ≤ 2 ^ 57
      → res.width + child.width < 2147483648
      → All (ResultRow res.width) res.rows
      → All (ChildRow child.width) child.rows
      → Returns (attach_child rt res child parent_col_global join_col w) Attached
  unfolding attach_child add32
  attach_child-Returns w col col' even small narrow full full' =
      let (keys, keyed) = join_result_lem res.width parent_col_global res.rows col full in
      let (keys', keyed') = join_child_lem child.width join_col child.rows col' full' in
      let (ready, size) = aligned_kept child.width _ keyed' in
      let counted = size ∙ length-map (child_keyed join_col) child.rows in
      let (left, w1, e1, (good, (kept, n))) = result-IsSorted w small keyed in
      let (right, w2, e2, (good', (kept', n'))) = child-IsSorted w1 _ (omega arith) ready in
      let (out, run, rows) =
        beside-Beside res.width child.width left right (omega arith) kept kept' in
      let bytes = length left * rrow_stride (add32 res.width child.width) % modulus64 in
      (
        record { rows = out; width = add32 res.width child.width },
        (rt.alloc bytes w2).1,
        >>=-ok (defined (join_result parent_col_global res.rows)) _ (defined-some w keys) (
            >>=-ok (defined (join_child join_col child.rows)) _ (defined-some w keys') (
              >>=-ok (ej_osort_g rt _ _ _ _) _ e1 (
                >>=-ok (ej_osort_g rt _ _ _ _) _ e2 (
                  >>=-ok (reserve rt bytes) _ (reserve_ok rt healthy lawful bytes w2) (
                    >>=-ok (defined (beside res.width child.width left right)) _
                      (defined-some _ run) refl))))),
        (left, right, good, good', mod-eq_of_lt (omega (arith, narrow)), rows),
      )
