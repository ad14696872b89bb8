-- ===== src/Distribute/Expand.antt =====
-- expand_single_table gives as many rows as the multiplicities add up to, each a row of its table.
use omwj.Prelude.{
  ℕ, zero, suc, ◌-◌, ◌*◌, ◌%◌, ◌^◌, ◌≤◌, ◌<◌, ◌≡◌, refl, ap, ◌∙◌, Bool, true, false, List, [], ◌∷◌,
  arith,
}
use omwj.Prelude.Tests.{ltb, if◌then◌else◌}
use omwj.Prelude.Lists.{
  length, All, take, replicate, pass_from, linear_pass, length-append, length-replicate,
}
use omwj.Prelude.Word.{modulus, eq32, skey-lt}
use omwj.Constants.{sort_padding, dist_padding}
use omwj.Order.{pad_rank}
use omwj.Order.Carried.{All-Perm}
use omwj.Order.Sorted.{All-append, All-imp}
use omwj.Trow.{Trow, t_cmp_dist_padding_last, trow_make_pad}
use omwj.Trow.Orders.{dist_rank, t_cmp_dist_padding_last-Agrees}
use omwj.Swap.{modulus64}
use omwj.Runtime.{Runtime, Lawful, Healthy, Returns, reserve, defined, defined-some, >>=-ok}
use omwj.Sort.{ej_osort_g}
use omwj.Sort.Laws.{ej_osort_g-sorts}
use omwj.BottomUp.Returns.{reserve_ok}
use omwj.Distribute.{trow_stride, make_dist_padding, resize, number_slots, network, expand_step}
use omwj.Distribute.Stride.{trow_stride-bounds}
use omwj.Distribute.Network.{Portable, Moved-length, network-Moved}
use omwj.Distribute.Table.{expand_work}

-- A work row below the sort's padding.
abbrev pub Sortable : Trow → Type 0
Sortable t = eq32 t.field_type sort_padding ≡ false

dist_rank-lt : (t : Trow) → Sortable t → dist_rank t < pad_rank
unfolding dist_rank
dist_rank-lt t h = ground (arith, skey-lt t.original_index)

All-replicate : {A : Type 0} (Q : A → Type 0) (n : ℕ) (a : A) → Q a → All Q (replicate n a)
All-replicate Q zero a h = tt
All-replicate Q (suc n) a h = (h, All-replicate Q n a h)

All-take : {A : Type 0} (Q : A → Type 0) (n : ℕ) (xs : List A) → All Q xs → All Q (take n xs)
All-take Q zero xs h = tt
All-take Q (suc n) [] h = tt
All-take Q (suc n) (x ∷ xs) h = (h.0, All-take Q n xs h.1)

length-take : {A : Type 0} (n : ℕ) (xs : List A) → n ≤ length xs → length (take n xs) ≡ n
length-take zero xs h = refl
length-take (suc n) [] h = absurd (omega arith)
length-take (suc n) (x ∷ xs) h = ap suc (length-take n xs (omega arith))

length-resize : (width size : ℕ) (work : List Trow) → length (resize width size work) ≡ size
unfolding resize
length-resize width size work =
    let keep = if ltb (length work) size then length work else size in
    let inside : keep ≤ length work = ground arith in
    let below : keep ≤ size = ground arith in
    length-append (take keep work) _
    ∙ omega (
      arith,
      length-take keep work inside,
      length-replicate (size - keep) (make_dist_padding width),
      below,
    )

length-number_slots : (i : ℕ) (arr : List Trow) → length (number_slots i arr) ≡ length arr
unfolding number_slots
length-number_slots i [] = refl
length-number_slots i (t ∷ arr) = ap suc (length-number_slots (suc i) arr)

-- What each row of the table has, and padding.
module _ (P : Trow → Type 0) (P_prop : (t : Trow) → IsProp (P t)) (portable : Portable P)
    (width : ℕ) (padding : P (make_dist_padding width)) where
  number_slots-kept : (i : ℕ) (arr : List Trow) → All P arr → All P (number_slots i arr)
  unfolding number_slots
  number_slots-kept i [] h = tt
  number_slots-kept i (t ∷ arr) h =
      (portable t (i % modulus) h.0, number_slots-kept (suc i) arr h.1)

  expand_step-kept : (prev t : Trow) → P prev → P t → P (expand_step prev t)
  unfolding expand_step
  expand_step-kept prev t p q = choose (eq32 t.field_type dist_padding)
    where
      choose : (b : Bool) → P (record (if b then prev else t) { index = t.index })
      choose true = portable prev t.index p
      choose false = portable t t.index q

  expand-kept :
      (arr : List Trow)
      → All P arr
      → All P (linear_pass expand_step arr) × (length (linear_pass expand_step arr) ≡ length arr)
  expand-kept [] h = (tt, refl)
  expand-kept (x ∷ xs) h = let (a, b) = from x xs h.0 h.1 in ((h.0, a), ap suc b)
    where
      from :
          (prev : Trow) (ys : List Trow)
          → P prev
          → All P ys
          → All P (pass_from expand_step prev ys)
            × (length (pass_from expand_step prev ys) ≡ length ys)
      from prev [] p k = (tt, refl)
      from prev (y ∷ ys) p k =
          let here = expand_step-kept prev y p k.0 in
          let (a, b) = from (expand_step prev y) ys here k.1 in ((here, a), ap suc b)

  resize-kept : (size : ℕ) (work : List Trow) → All P work → All P (resize width size work)
  unfolding resize
  resize-kept size work h =
      let keep = if ltb (length work) size then length work else size in
      All-append P (take keep work) _ (All-take P keep work h)
        (All-replicate P (size - keep) (make_dist_padding width) padding)

  module _ (rt : Runtime) (healthy : Healthy rt) (lawful : Lawful rt) where
    pub expand_work-Returns :
        (size : ℕ) (work : List Trow) (w : rt.World)
        → 0 < size
        → size < 2 ^ 63
        → length work ≤ 2 ^ 57
        → All Sortable work
        → All P work
        → Returns (expand_work rt width size work w) (λ out. (length out ≡ size) × All P out)
    unfolding expand_work dist_rank eq32
    expand_work-Returns size work w some_rows small few sortable keeps =
        let stride = trow_stride width in
        let (sorted, w1, run, good) =
          ej_osort_g-sorts rt healthy lawful stride t_cmp_dist_padding_last dist_rank
            (trow_make_pad width) t_cmp_dist_padding_last-Agrees refl work w
            (trow_stride-bounds width).2 few (All-imp Sortable _ dist_rank-lt work sortable) in
        let kept = All-Perm P P_prop good.0 keeps in
        let slotted = number_slots 0 (resize width size sorted) in
        let full =
          length-number_slots 0 (resize width size sorted) ∙ length-resize width size sorted in
        let (spread, moved, same, keep') =
          network-Moved P portable size slotted some_rows small full in
        let (kept', size') =
          expand-kept spread (keep' (number_slots-kept 0 _ (resize-kept size sorted kept))) in
        (
          linear_pass expand_step spread,
          (rt.alloc (size * stride % modulus64) w1).1,
          >>=-ok (ej_osort_g rt stride t_cmp_dist_padding_last (trow_make_pad width) work) _ run (
              >>=-ok (reserve rt (size * stride % modulus64)) _ (reserve_ok rt healthy lawful _ w1)
                (>>=-ok (defined (network size slotted)) _ (defined-some _ moved) refl)),
          (size' ∙ Moved-length P portable slotted spread same ∙ full, kept'),
        )
