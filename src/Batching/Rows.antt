-- ===== src/Batching/Rows.antt =====
-- The row operations of the baseline's distribute and align phases are those of the enclave.
use omwj.Constants.{dist_padding}
use omwj.Prelude.{ℕ, ◌≡◌, refl, ap, Bool, true, false, List, map, not, ◌&&◌, arith}
use omwj.Prelude.Tests.{◌==◌, if◌then◌else◌}
use omwj.Prelude.Lists.{take, linear_pass}
use omwj.Prelude.Word.{eq32, add32, sub32, mul32, flag, lt32}
use omwj.Entry.{Entry}
use omwj.Trow.{Trow}
use omwj.Swap.{exchange}
use omwj.Batching.Exchanges.{IsRow, oblivious_swap_lem}
use omwj.Batching.Comparators.{comparator_distribute_op}
use omwj.Distribute.{dist_pair, mark_zero, expand_step}
use omwj.Align.{copy_step, set_alignment}
use omwj.Batching.Oblivious.{select}
use omwj.Batching.Passes.{map-linear_pass}
use omwj.Batching.Transform.{
  transform_mark_zero_mult_padding_op, transform_compute_alignment_key_op,
}
use omwj.Batching.Window.{window_expand_copy_op, window_update_copy_index_op}

-- A universal row as a wide row of `width` slots.
abbrev pub trow_view : ℕ → Entry → Trow
trow_view width e = record {
  join_attr = e.join_attr;
  field_type = e.field_type;
  original_index = e.original_index;
  local_mult = e.local_mult;
  foreign_sum = e.foreign_sum;
  copy_index = e.copy_index;
  alignment_key = e.alignment_key;
  final_mult = e.final_mult;
  dst_idx = e.dst_idx;
  index = e.index;
  attributes = take width e.attributes;
}

module _ (width : ℕ) where
  copied_step :
      (e1 e2 : Entry)
      → trow_view width (window_expand_copy_op e1 e2)
        ≡ expand_step (trow_view width e1) (trow_view width e2)
  unfolding window_expand_copy_op expand_step
  copied_step e1 e2 = choose (eq32 e2.field_type dist_padding)
    where
      choose :
          (b : Bool)
          → trow_view width (record (if b then e1 else e2) { index = e2.index })
            ≡ record (if b then trow_view width e1 else trow_view width e2) { index = e2.index }
      choose true = refl
      choose false = refl

  number_same :
      (a b c : ℕ) → select (flag (eq32 a b)) (add32 c 1) 0 ≡ mul32 (flag (eq32 b a)) (add32 c 1)
  unfolding select eq32 add32 mul32 sub32
  number_same a b c = ground arith

  numbered_step :
      (e1 e2 : Entry)
      → trow_view width (window_update_copy_index_op e1 e2)
        ≡ copy_step (trow_view width e1) (trow_view width e2)
  unfolding window_update_copy_index_op copy_step
  numbered_step e1 e2 =
      let numbered : ℕ → Trow = λ k. record (trow_view width e2) { copy_index = k } in
      ap numbered (number_same e1.original_index e2.original_index e1.copy_index)

  paired :
      (t : Bool) (e1 e2 : Entry)
      → (trow_view width (record (exchange (not (flag t == 0)) e1 e2).0 { index = e1.index })
          ≡ record (exchange t (trow_view width e1) (trow_view width e2)).0 { index = e1.index })
        × (trow_view width (record (exchange (not (flag t == 0)) e1 e2).1 { index = e2.index })
            ≡ record (exchange t (trow_view width e1) (trow_view width e2)).1 { index = e2.index })
  paired true e1 e2 = (refl, refl)
  paired false e1 e2 = (refl, refl)

  -- On two rows as they lie in memory, comparator_distribute_op does what dist_pair does.
  pub comparator_distribute_op-dist_pair :
      (e1 e2 : Entry)
      → IsRow e1
      → IsRow e2
      → (trow_view width (comparator_distribute_op e1 e2).0
          ≡ (dist_pair (trow_view width e1) (trow_view width e2)).0)
        × (trow_view width (comparator_distribute_op e1 e2).1
            ≡ (dist_pair (trow_view width e1) (trow_view width e2)).1)
  unfolding comparator_distribute_op dist_pair
  comparator_distribute_op-dist_pair e1 e2 row1 row2 =
      let t = not (lt32 e1.dst_idx e2.index) && not (eq32 e1.field_type dist_padding) in
      rw (oblivious_swap_lem e1 e2 (flag t) row1 row2) (paired t e1 e2)

  -- On any rows, read at any width: the baseline's marking of rows without copies, its expansion
  -- pass, its numbering of copies and its alignment keys are those of the enclave's distribute and
  -- align phases.
  pub row_operations :
      (e : Entry) (rows : List Entry)
      → (trow_view width (transform_mark_zero_mult_padding_op e) ≡ mark_zero (trow_view width e))
        × (map (trow_view width) (linear_pass window_expand_copy_op rows)
            ≡ linear_pass expand_step (map (trow_view width) rows))
        × (map (trow_view width) (linear_pass window_update_copy_index_op rows)
            ≡ linear_pass copy_step (map (trow_view width) rows))
        × (trow_view width (transform_compute_alignment_key_op e)
            ≡ set_alignment (trow_view width e))
  unfolding transform_mark_zero_mult_padding_op mark_zero transform_compute_alignment_key_op
      set_alignment
  row_operations e rows = (
    refl,
    map-linear_pass (trow_view width) window_expand_copy_op expand_step copied_step rows,
    map-linear_pass (trow_view width) window_update_copy_index_op copy_step numbered_step rows,
    refl,
  )
